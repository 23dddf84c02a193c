-- ===== src/LinkedList/Sort/Merge.antt =====
-- merge of linked_list.c, and the merge of two sequences that it stands for.
use cmake_template.Prelude.{
  zero, suc, ◌≡◌, refl, arith, true, false, some, [], ◌∷◌, ◌||◌, ℕ, ◌≢◌, suc, length, ◌+◌, ◌<◌,
  Bool-cases, inl, inr, if◌then◌else◌, ◌∙◌,
}
use cmake_template.Core.{null, CmpF, Ptr, Returns, Run, not_null, Returns-mono}
use cmake_template.LinkedList.Memory.{
  Heap, node, write, Returns-then, set_next_lem, load_lem, set_prev_lem, and_then,
}
use cmake_template.LinkedList.Seg.{Cells, first, Seg, has, SameOutside, frame}
use cmake_template.LinkedList.Sort.{merge, link_front, is_less}

-- The merge of two sequences: the smaller front comes first, and of two equal ones that of the second.
abbrev pub merged : CmpF → ℕ → Cells → Cells → Cells
merged cmp zero xs ys = []
merged cmp (suc k) [] ys = ys
merged cmp (suc k) ((a, d) ∷ xs) [] = (a, d) ∷ xs
merged cmp (suc k) ((a, d) ∷ xs) ((b, c) ∷ ys) =
    if is_less (cmp d c)
    then (a, d) ∷ merged cmp k xs ((b, c) ∷ ys)
    else (b, c) ∷ merged cmp k ((a, d) ∷ xs) ys

-- What a command leaves: the nodes `zs` from the address that it returns, the first linked back to
-- `prev`, with the nodes outside `zs` untouched.
abbrev pub Chained : Heap → Ptr → Cells → Ptr × Heap → Type 0
Chained h prev zs (r, g) = (r ≡ first zs null) × Seg g prev zs null × SameOutside zs h g

-- Where the first node of a merge is linked back to, for parts that are linked back to `p` and `q`.
abbrev pub front_prev : Ptr → Ptr → Cells → Cells → Ptr
front_prev p q [] ys = q
front_prev p q (x ∷ xs) [] = p
front_prev p q (x ∷ xs) (y ∷ ys) = null

-- A merged sequence has the nodes of both.
pub has-merged :
    (cmp : CmpF) (k : ℕ) (xs ys : Cells) (p : Ptr)
    → length xs + length ys < k
    → has p (merged cmp k xs ys) ≡ (has p xs || has p ys)
has-merged cmp zero xs ys p fuel = absurd (omega arith)
has-merged cmp (suc k) [] ys p fuel = refl
has-merged cmp (suc k) ((a, d) ∷ xs) [] p fuel = ground arith
has-merged cmp (suc k) ((a, d) ∷ xs) ((b, c) ∷ ys) p fuel = elim (Bool-cases (is_less (cmp d c))) [
  | inl less ↦ rw (less, has-merged cmp k xs ((b, c) ∷ ys) p (omega arith)) (ground arith)
  | inr not_less ↦ rw (not_less, has-merged cmp k ((a, d) ∷ xs) ys p (omega arith)) (ground arith)
]

-- link_front puts a node in front of nodes that it is none of.
link_front_lem :
    (g : Heap) (a d p s : Ptr) (zs : Cells) (q x : Ptr)
    → a ≢ null
    → g a ≡ some (node d p s)
    → has a zs ≡ false
    → has x zs ≡ true
    → Seg g q zs null
    → Returns (Chained g null ((a, d) ∷ zs)) (link_front a (first zs null) g)
unfolding link_front
link_front_lem h a d p s [] q x ne e out inside t = absurd (ground arith)
link_front_lem h a d p s ((b, c) ∷ zs) q x ne e out inside (b_ne, eb, b_out, seg) =
    let h1 = write h a (some (node d p b)) in
    let h2 = write h1 b (some (node c a (first zs null))) in
    let g = write h2 a (some (node d null b)) in
    let rest : Seg g b zs null = frame h g b zs null seg (λ x i. ground arith) in
    rw
      (
        set_next_lem h ne e b,
        load_lem h1 {n = node d p b} ne (ground arith),
        set_prev_lem h1 {n = node c q (first zs null)} b_ne (ground arith) a,
        set_prev_lem h2 {n = node d p b} ne (ground arith) null,
      )
      (refl, (ne, ground arith, out, (b_ne, ground arith, b_out, rest)), ground arith)

-- A command that leaves the nodes `zs`, and then link_front.
Chained-link_front :
    (h : Heap) (a d p s : Ptr) (zs : Cells) (q x : Ptr) (r : Run (Ptr × Heap))
    → a ≢ null
    → h a ≡ some (node d p s)
    → has a zs ≡ false
    → has x zs ≡ true
    → Returns (Chained h q zs) r
    → Returns (Chained h null ((a, d) ∷ zs)) (and_then r (λ rest. link_front a rest))
Chained-link_front h a d p s zs q x r ne e out inside c =
    Returns-then (Chained h q zs) (Chained h null ((a, d) ∷ zs)) r (λ rest. link_front a rest) c
      (λ b g (front, seg, same).
        Returns-mono (Chained g null ((a, d) ∷ zs)) (Chained h null ((a, d) ∷ zs))
          (link_front a b g)
          (rw front (link_front_lem g a d p s zs q x ne (same a out ∙ e) out inside seg))
          (λ (b', g') (front', seg', same').
            (front', seg', λ x o. same' x o ∙ same x (ground arith))))

-- Two parts with no node in common.
abbrev pub Apart : Cells → Cells → Type 0
Apart xs ys = (a : Ptr) → has a xs ≡ true → has a ys ≡ false

Apart-front : (xs ys : Cells) (b c : Ptr) → Apart xs ((b, c) ∷ ys) → has b xs ≡ false
Apart-front xs ys b c apart = elim (Bool-cases (has b xs)) [
  | inl inside ↦ absurd (ground (arith, apart b inside))
  | inr outside ↦ outside
]

-- With rounds for all the nodes, merge links two chains with no node in common into the one that has
-- their nodes in the order of the merged sequences, and returns its first node.
pub merge-merged :
    (cmp : CmpF) (k : ℕ) (h : Heap) (p q : Ptr) (xs ys : Cells)
    → length xs + length ys < k
    → Seg h p xs null
    → Seg h q ys null
    → Apart xs ys
    → Returns
        (Chained h (front_prev p q xs ys) (merged cmp k xs ys))
        (merge cmp k (first xs null) (first ys null) h)
unfolding merge
merge-merged cmp zero h p q xs ys fuel s t apart = absurd (omega arith)
merge-merged cmp (suc k) h p q [] ys fuel s t apart = (refl, t, λ a o. refl)
merge-merged cmp (suc k) h p q ((a, d) ∷ xs) [] fuel s t apart =
    rw (not_null a s.0) (refl, s, λ b o. refl)
merge-merged cmp (suc k) h p q ((a, d) ∷ xs) ((b, c) ∷ ys) fuel (ne, e, out, s) (b_ne, eb, b_out, t)
      apart =
    rw (not_null a ne, not_null b b_ne, load_lem h ne e, load_lem h b_ne eb)
      (elim (Bool-cases (is_less (cmp d c))) [
        | inl less ↦ rw less (
            Chained-link_front h a d p (first xs null) (merged cmp k xs ((b, c) ∷ ys))
              (front_prev a q xs ((b, c) ∷ ys)) b (merge cmp k (first xs null) b h) ne e
              (rw (has-merged cmp k xs ((b, c) ∷ ys) a (omega arith), out) (apart a (ground arith)))
              (rw (has-merged cmp k xs ((b, c) ∷ ys) b (omega arith)) (ground arith))
              (merge-merged cmp k h a q xs ((b, c) ∷ ys) (omega arith) s (b_ne, eb, b_out, t)
                (λ x i. apart x (ground arith))))
        | inr not_less ↦ rw not_less (
            Chained-link_front h b c q (first ys null) (merged cmp k ((a, d) ∷ xs) ys)
              (front_prev p b ((a, d) ∷ xs) ys) a (merge cmp k a (first ys null) h) b_ne eb
              (rw (has-merged cmp k ((a, d) ∷ xs) ys b (omega arith))
                (rw (Apart-front ((a, d) ∷ xs) ys b c apart) b_out))
              (rw (has-merged cmp k ((a, d) ∷ xs) ys a (omega arith)) (ground arith))
              (merge-merged cmp k h p b ((a, d) ∷ xs) ys (omega arith) (ne, e, out, s) t
                (λ x i. ground (arith, apart x i))))
      ])
