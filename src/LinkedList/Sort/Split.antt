-- ===== src/LinkedList/Sort/Split.antt =====
-- split of linked_list.c: where its loop ends, and the two chains that it leaves.
use cmake_template.Prelude.{
  zero, suc, ◌≡◌, refl, arith, false, some, [], ◌∷◌, ◌++◌, length, ℕ, ◌≢◌, ◌<◌, ◌≤◌, sym, true, ap,
  ◌∙◌, Option, Bool, ◌==◌, ◌||◌,
}
use cmake_template.Core.{null, ok, Ptr, Returns, not_null}
use cmake_template.LinkedList.Memory.{Heap, node, write, load_lem, set_next_lem, Node}
use cmake_template.LinkedList.Seg.{
  Cells, first, last, Seg, has, split_left, split_apart, frame-write, split_right, SameOutside,
  has-append,
}
use cmake_template.LinkedList.Sort.Merge.{Apart}
use cmake_template.LinkedList.Sort.{advance, split_loop, split}

-- The loop ends inside the chain: some nodes are behind `slow`.
split_loop_lem :
    (k : ℕ) (h : Heap) (p a d : Ptr) (ts : Cells) (q : Ptr) (rs : Cells)
    → Seg h p ((a, d) ∷ ts) null
    → Seg h q rs null
    → length rs < k
    → length rs ≤ length ts
    → 0 < length ts
    → (ys : Cells) × (vs : Cells) × (ts ≡ ys ++ vs)
      × (0 < length vs)
      × (split_loop k a (first rs null) h ≡ ok (last a ys, h))
unfolding split_loop advance
split_loop_lem zero h p a d ts q rs s f fuel behind more = absurd (omega arith)
split_loop_lem (suc k) h p a d ts q [] s f fuel behind more = ([], ts, refl, more, refl)
split_loop_lem (suc zero) h p a d ts q (x ∷ rs) s f fuel behind more = absurd (omega arith)
split_loop_lem (suc (suc k)) h p a d ts q ((r, c) ∷ []) s (r_ne, e, out, f) fuel behind more =
    ([], ts, refl, more, rw (not_null r r_ne, load_lem h r_ne e) refl)
split_loop_lem (suc (suc k)) h p a d [] q ((r, c) ∷ (r', c') ∷ rs) s f fuel behind more =
    absurd (omega arith)
split_loop_lem (suc (suc k)) h p a d ((b, g) ∷ ts) q ((r, c) ∷ (r', c') ∷ rs) (a_ne, ea, a_out, s)
      (r_ne, e, out, (r'_ne, e', out', f)) fuel behind more =
    let (ys, vs, split, some_left, runs) =
      split_loop_lem (suc k) h a b g ts r' rs s f (omega arith) (omega arith) (omega arith) in
    (
      (b, g) ∷ ys,
      vs,
      ap (λ t. (b, g) ∷ t) split,
      some_left,
      rw
          (
            not_null r r_ne,
            load_lem h r_ne e,
            not_null r' r'_ne,
            load_lem h a_ne ea,
            load_lem h r'_ne e',
          )
          runs,
    )

write_apart :
    (h : Heap) (x a : Ptr) (xs : Cells) (c : Option Node)
    → has x xs ≡ true
    → has a xs ≡ false
    → write h x c a ≡ h a
write_apart h x a xs c inside out = ground arith

left_or : (u v w : Bool) → (u || v) ≡ true → (u || (v || w)) ≡ true
left_or u v w e = ground arith

-- The last node of a chain, and the chain cut off behind it.
cut :
    (h : Heap) (p a d : Ptr) (ys : Cells) (stop : Ptr)
    → Seg h p ((a, d) ∷ ys) stop
    → (e : Ptr) × (b : Ptr) × (h (last a ys) ≡ some (node e b stop))
      × (last a ys ≢ null)
      × (has (last a ys) ((a, d) ∷ ys) ≡ true)
      × Seg (write h (last a ys) (some (node e b null))) p ((a, d) ∷ ys) null
cut h p a d [] stop (ne, e, out, s) = (d, p, e, ne, ground arith, (ne, ground arith, refl, tt))
cut h p a d ((b, c) ∷ ys) stop (ne, e, out, s) =
    let (x, y, holds, last_ne, inside, seg) = cut h a b c ys stop s in
    (
      x,
      y,
      holds,
      last_ne,
      ground (arith, inside),
      (
        ne,
        write_apart h (last b ys) a ((b, c) ∷ ys) (some (node x y null)) inside out ∙ e,
        out,
        seg,
      ),
    )

-- What split leaves: two chains that have the nodes in order, both with a node, and nothing else changed.
abbrev pub Halves : Heap → Ptr → Cells → (Ptr × Ptr) × Heap → Type 0
Halves h p xs ((a, b), g) =
    (ys : Cells) × (q : Ptr) × (vs : Cells) × (xs ≡ ys ++ vs)
    × (0 < length ys)
    × (0 < length vs)
    × (a ≡ first ys null)
    × (b ≡ first vs null)
    × Seg g p ys null
    × Seg g q vs null
    × Apart ys vs
    × SameOutside xs h g

pub split-Halves :
    (k : ℕ) (h : Heap) (p a d : Ptr) (ts : Cells)
    → Seg h p ((a, d) ∷ ts) null
    → length ts < k
    → 0 < length ts
    → Returns (Halves h p ((a, d) ∷ ts)) (split k a h)
unfolding split
split-Halves k h p a d ts s fuel more =
    let (ys, vs, parts, some_left, runs) =
      split_loop_lem k h p a d ts a ts s (s.3) fuel (omega arith) more in
    let joined : Seg h p ((a, d) ∷ ys ++ vs) null = rw (sym parts) s in
    let (x, y, holds, last_ne, inside, left) =
      cut h p a d ys (first vs null) (split_left h p ((a, d) ∷ ys) vs null joined) in
    let within : has (last a ys) ((a, d) ∷ ts) ≡ true =
      rw (parts, has-append (last a ys) ys vs)
        (left_or (last a ys == a) (has (last a ys) ys) (has (last a ys) vs) inside) in
    let apart = split_apart h p ((a, d) ∷ ys) vs null joined in
    rw (load_lem h (s.0) (s.1), runs, load_lem h last_ne holds, set_next_lem h last_ne holds null)
      (
        (a, d) ∷ ys,
        last a ys,
        vs,
        ap (λ t. (a, d) ∷ t) parts,
        omega arith,
        some_left,
        refl,
        refl,
        left,
        frame-write h (last a ys) vs null (last a ys) (some (node x y null))
            (split_right h p ((a, d) ∷ ys) vs null joined) (apart (last a ys) inside),
        apart,
        λ z o. write_apart h (last a ys) z ((a, d) ∷ ts) (some (node x y null)) within o,
      )
