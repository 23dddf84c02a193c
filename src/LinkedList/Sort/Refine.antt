-- ===== src/LinkedList/Sort/Refine.antt =====
-- list_sort of linked_list.c sorts.
use cmake_template.Prelude.{
  zero, suc, ◌≡◌, refl, arith, true, false, [], ◌∷◌, ◌++◌, length, some, ℕ, ◌<◌, ◌+◌, sym, ◌≤◌,
  Bool, Bool-cases, ◌∙◌, length-append, ◌||◌, inl, inr, ap,
}
use cmake_template.Core.{CmpF, Ptr, null, Returns, success, not_null, Returns-mono, ExitCode}
use cmake_template.LinkedList.Memory.{Heap, Returns-then, load_lem, and_then, ◌>>=◌}
use cmake_template.LinkedList.Header.{ListT, IsList, Handle}
use cmake_template.LinkedList.Seg.{Cells, has, first, Seg, SameOutside, frame}
use cmake_template.LinkedList.Sort.{is_less, merge, merge_sort, list_sort, split}
use cmake_template.LinkedList.Sort.Merge.{
  merged, merge-merged, Chained, Apart, front_prev, has-merged,
}
use cmake_template.LinkedList.Sort.Split.{Halves, split-Halves}
use cmake_template.LinkedList.Sort.Order.{Sorted, SameCells, SameCells-merged, merged-Sorted}

-- What merge_sort leaves of the nodes `xs`, the first of which was linked back to `p`.
abbrev pub Sorts : CmpF → Heap → Ptr → Cells → Ptr × Heap → Type 0
Sorts cmp h p xs (r, g) =
    (zs : Cells) × (q : Ptr) × Chained h q zs (r, g)
    × SameCells xs zs
    × Sorted cmp zs
    × (p ≡ null → q ≡ null)

front_prev-null :
    (p q : Ptr) (xs ys : Cells) → 0 < length xs → 0 < length ys → front_prev p q xs ys ≡ null
front_prev-null p q [] ys x y = absurd (omega arith)
front_prev-null p q (c ∷ xs) [] x y = absurd (omega arith)
front_prev-null p q (c ∷ xs) (d ∷ ys) x y = refl

not_or : (u v : Bool) → (u || v) ≡ false → (u ≡ false) × (v ≡ false)
not_or u v e = ground arith

Apart-sym : (xs ys : Cells) → Apart xs ys → Apart ys xs
Apart-sym xs ys apart x inside = elim (Bool-cases (has x xs)) [
  | inl other ↦ absurd (ground (arith, apart x other))
  | inr outside ↦ outside
]

module _ (cmp : CmpF) (one_way : (d e : Ptr) → is_less (cmp d e) ≡ true → is_less (cmp e d) ≡ false)
    (size : ℕ) where
  -- What all the calls of merge_sort together leave as it was.
  outside_halves :
      (h g1 g2 g3 g : Heap) (ys vs zs ws : Cells)
      → length ys + length vs < size
      → SameOutside (ys ++ vs) h g1
      → SameOutside zs g1 g2
      → SameOutside ws g2 g3
      → SameCells ys zs
      → SameCells vs ws
      → SameOutside (merged cmp size zs ws) g3 g
      → SameOutside (merged cmp size zs ws) h g
  outside_halves h g1 g2 g3 g ys vs zs ws room o1 o2 o3 (t, l, i) (t', l', i') o4 x o =
      let both = SameCells-merged cmp size ys vs zs ws (omega arith) (t, l, i) (t', l', i') in
      let (oz, ow) =
        not_or (has x zs) (has x ws) (sym (has-merged cmp size zs ws x (omega arith)) ∙ o) in
      o4 x o ∙ o3 x ow ∙ o2 x oz ∙ o1 x (sym (both.2 x) ∙ o)

  -- The last call of merge_sort, on the sorted halves.
  merge_halves :
      (h g1 g2 g3 : Heap) (p q1 q2 : Ptr) (ys vs zs ws : Cells)
      → length ys + length vs < size
      → 0 < length ys
      → 0 < length vs
      → Apart ys vs
      → SameOutside (ys ++ vs) h g1
      → SameOutside zs g1 g2
      → SameOutside ws g2 g3
      → Seg g2 q1 zs null
      → Seg g3 q2 ws null
      → SameCells ys zs
      → SameCells vs ws
      → Sorted cmp zs
      → Sorted cmp ws
      → Returns (Sorts cmp h p (ys ++ vs)) (merge cmp size (first zs null) (first ws null) g3)
  merge_halves h g1 g2 g3 p q1 q2 ys vs zs ws room some_left some_right apart o1 o2 o3 left right
        (t, l, i) (t', l', i') sz sw =
      Returns-mono (Chained g3 (front_prev q1 q2 zs ws) (merged cmp size zs ws))
        (Sorts cmp h p (ys ++ vs)) (merge cmp size (first zs null) (first ws null) g3)
        (merge-merged cmp size g3 q1 q2 zs ws (omega arith)
          (frame g2 g3 q1 zs null left (λ x inside. o3 x (i' x ∙ apart x (sym (i x) ∙ inside))))
          right (λ x inside. i' x ∙ apart x (sym (i x) ∙ inside)))
        (λ (r, g) (front, seg, o4). (
          merged cmp size zs ws,
          front_prev q1 q2 zs ws,
          (
            front,
            seg,
            outside_halves h g1 g2 g3 g ys vs zs ws room o1 o2 o3 (t, l, i) (t', l', i') o4,
          ),
          SameCells-merged cmp size ys vs zs ws (omega arith) (t, l, i) (t', l', i'),
          merged-Sorted cmp one_way size zs ws sz sw,
          λ e. front_prev-null q1 q2 zs ws (omega arith) (omega arith),
        ))

  -- The calls of merge_sort behind split, for calls on the halves that sort.
  sort-Halves :
      (k : ℕ)
      → ((h : Heap) (p : Ptr) (xs : Cells)
          → Seg h p xs null
          → length xs < k
          → length xs < size
          → Returns (Sorts cmp h p xs) (merge_sort cmp size k (first xs null) h))
      → (h g : Heap) (p : Ptr) (xs : Cells) (l r : Ptr) → Halves h p xs ((l, r), g)
      → length xs ≤ k
      → length xs < size
      → Returns (Sorts cmp h p xs) (
          and_then
            (merge_sort cmp size k l g)
            (λ left. merge_sort cmp size k r >>= λ right. merge cmp size left right))
  sort-Halves k sort h g p xs l r (ys, q, vs, parts, some_l, some_r, el, er, s1, s2, apart, o1) fuel
        room =
      let sizes : length xs ≡ length ys + length vs = rw parts (length-append ys vs) in
      let o1' : SameOutside (ys ++ vs) h g = rw (sym parts) o1 in
      rw (el, er, parts)
        (Returns-then (Sorts cmp g p ys) (Sorts cmp h p (ys ++ vs))
          (merge_sort cmp size k (first ys null) g) _ (sort g p ys s1 (omega arith) (omega arith))
          (λ a g2 (zs, q1, (ea, left, o2), same, sorted, keeps). rw ea (
            Returns-then (Sorts cmp g2 q vs) (Sorts cmp h p (ys ++ vs))
              (merge_sort cmp size k (first vs null) g2) _
              (sort g2 q vs
                (frame g g2 q vs null s2
                  (λ x inside. o2 x (same.2 x ∙ Apart-sym ys vs apart x inside)))
                (omega arith) (omega arith))
              (λ b g3 (ws, q2, (eb, right, o3), same', sorted', keeps'). rw eb (
                merge_halves h g g2 g3 p q1 q2 ys vs zs ws (omega arith) some_l some_r apart o1' o2
                  o3 left right same same' sorted sorted')))))

  -- With rounds for all nodes, merge_sort sorts.
  pub merge_sort-Sorts :
      (k : ℕ) (h : Heap) (p : Ptr) (xs : Cells)
      → Seg h p xs null
      → length xs < k
      → length xs < size
      → Returns (Sorts cmp h p xs) (merge_sort cmp size k (first xs null) h)
  unfolding merge_sort
  merge_sort-Sorts zero h p xs s fuel room = absurd (omega arith)
  merge_sort-Sorts (suc k) h p [] s fuel room =
      ([], p, (refl, s, λ a o. refl), (λ w. refl, refl, λ a. refl), tt, λ e. e)
  merge_sort-Sorts (suc k) h p ((a, d) ∷ []) (ne, e, out, s) fuel room =
      rw (not_null a ne, load_lem h ne e)
        (
          (a, d) ∷ [],
          p,
          (refl, (ne, e, out, s), λ b o. refl),
          (λ w. refl, refl, λ b. refl),
          (tt, tt),
          λ n. n,
        )
  merge_sort-Sorts (suc k) h p ((a, d) ∷ (b, c) ∷ xs) (ne, e, out, (b_ne, eb, b_out, s)) fuel room =
      rw (not_null a ne, load_lem h ne e, not_null b b_ne)
        (Returns-then (Halves h p ((a, d) ∷ (b, c) ∷ xs)) (Sorts cmp h p ((a, d) ∷ (b, c) ∷ xs))
          (split size a h) _
          (split-Halves size h p a d ((b, c) ∷ xs) (ne, e, out, (b_ne, eb, b_out, s)) (omega arith)
            (omega arith))
          (λ (l, r) g halves.
            sort-Halves k (merge_sort-Sorts k) h g p ((a, d) ∷ (b, c) ∷ xs) l r halves (omega arith)
              room))

-- What list_sort leaves of a list: success, the same header but for `head`, and the nodes `zs` linked
-- both ways from NULL to NULL.
abbrev pub SortedList : Heap → ListT → Cells → (ExitCode × Handle) × Heap → Type 0
SortedList h l xs ((code, m), g) =
    (zs : Cells) × (code ≡ success)
    × (m ≡ some (record l { head = first zs null }))
    × Seg g null zs null
    × SameOutside zs h g
    × SameCells xs zs
    × Sorted l.compare_func zs

-- For a comparison that never calls each of two data less than the other, list_sort of a list returns
-- E_SUCCESS and links the nodes of the list, each once, both ways in an order in which no node's data
-- are less than those of the node before it; `head` is the first of them. The other nodes of the heap
-- and the rest of the header, `tail` with it, are as they were.
pub list_sort-SortedList :
    {h : Heap} {l : ListT} {xs : Cells}
    → IsList h l xs
    → ((d e : Ptr) → is_less (l.compare_func d e) ≡ true → is_less (l.compare_func e d) ≡ false)
    → Returns (SortedList h l xs) (list_sort (some l) h)
unfolding list_sort
list_sort-SortedList {h} {l} {xs} v one_way =
    let sorts : Returns (Sorts l.compare_func h null xs)
        (merge_sort l.compare_func (l.size + 1) (l.size + 1) l.head h) =
      rw v.head (
        merge_sort-Sorts l.compare_func one_way (l.size + 1) (l.size + 1) h null xs v.chain
          (omega (arith, v.size)) (omega (arith, v.size))) in
    Returns-then (Sorts l.compare_func h null xs) (SortedList h l xs)
      (merge_sort l.compare_func (l.size + 1) (l.size + 1) l.head h) _ sorts
      (λ a g (zs, q, (front, seg, outside), same, sorted, keeps). (
        zs,
        refl,
        ap (λ p. some (record l { head = p })) front,
        rw (keeps refl) at seg,
        outside,
        same,
        sorted,
      ))
