-- ===== src/LinkedList/Push/Links.antt =====
-- How the pushes link a new node to a list.
use cmake_template.Prelude.{◌≡◌, ◌≢◌, refl, false, some, [], ◌∷◌, ◌++◌, arith}
use cmake_template.Core.{Ptr, null, Returns}
use cmake_template.LinkedList.Memory.{node, Heap, write, set_next_lem, set_prev_lem}
use cmake_template.LinkedList.Seg.{
  Cells, has, first, last, Seg, SameOutside, frame, End-of, append, End, has-append,
}
use cmake_template.LinkedList.Header.{ListT}
use cmake_template.LinkedList.Push.{establish, prepend, attach}

-- A step that leaves the header `m`, with the nodes `xs` linked, and changes only those.
abbrev pub Linked : Heap → ListT → Cells → ListT × Heap → Type 0
Linked h m xs (m', g) = (m' ≡ m) × Seg g null xs null × SameOutside xs h g

module _ (h : Heap) (l : ListT) (a d : Ptr) (ne : a ≢ null) where
  pub establish_lem :
      h a ≡ some (node d null null)
      → Returns (Linked h (record l { head = a; tail = a }) ((a, d) ∷ [])) (establish l a h)
  unfolding establish
  establish_lem e =
      let h1 = write h a (some (node d null null)) in
      rw (set_next_lem h ne e null, set_prev_lem h1 {n = node d null null} ne (ground arith) null)
        (refl, (ne, ground arith, refl, tt), ground arith)

  pub prepend_lem :
      (b c : Ptr) (ys : Cells)
      → h a ≡ some (node d null null)
      → l.head ≡ b
      → Seg h null ((b, c) ∷ ys) null
      → has a ((b, c) ∷ ys) ≡ false
      → Returns (Linked h (record l { head = a }) ((a, d) ∷ (b, c) ∷ ys)) (prepend l a h)
  unfolding prepend
  prepend_lem b c ys e head (b_ne, eb, b_out, s) out =
      let h1 = write h a (some (node d null b)) in
      let h2 = write h1 a (some (node d null b)) in
      let g = write h2 b (some (node c a (first ys null))) in
      let rest : Seg g b ys null = frame h g b ys null s (λ x i. ground arith) in
      rw
        (
          head,
          set_next_lem h ne e b,
          set_prev_lem h1 {n = node d null b} ne (ground arith) null,
          set_prev_lem h2 {n = node c null (first ys null)} b_ne (ground arith) a,
        )
        (refl, (ne, ground arith, out, (b_ne, ground arith, b_out, rest)), ground arith)

  -- `a` linked back to `t`.
  linked_back : Ptr → Heap
  linked_back t = write (write h a (some (node d t null))) a (some (node d t null))

  attach-End :
      (b c : Ptr) (ys : Cells)
      → h a ≡ some (node d null null)
      → l.tail ≡ last b ys
      → has a ((b, c) ∷ ys) ≡ false
      → End (linked_back (last b ys)) null b c ys
      → Returns (Linked h (record l { tail = a }) ((b, c) ∷ ys ++ (a, d) ∷ [])) (attach l a h)
  unfolding attach linked_back
  attach-End b c ys e tail out end =
      let xs = (b, c) ∷ ys in
      let t = last b ys in
      let h1 = write h a (some (node d t null)) in
      let h2 = write h1 a (some (node d t null)) in
      let g = write h2 t (some (record end.end { next = a })) in
      rw
        (
          tail,
          set_prev_lem h ne e t,
          set_next_lem h1 {n = node d t null} ne (ground arith) null,
          set_next_lem h2 end.ne_null end.holds a,
        )
        (
          refl,
          append g null xs ((a, d) ∷ []) null (end.relinked a)
              (ne, ground (arith, end.inside), refl, tt) (λ x i. ground arith),
          λ x o. ground (arith, end.inside, has-append x xs ((a, d) ∷ [])),
        )

  pub attach_lem :
      (b c : Ptr) (ys : Cells)
      → h a ≡ some (node d null null)
      → l.tail ≡ last b ys
      → Seg h null ((b, c) ∷ ys) null
      → has a ((b, c) ∷ ys) ≡ false
      → Returns (Linked h (record l { tail = a }) ((b, c) ∷ ys ++ (a, d) ∷ [])) (attach l a h)
  unfolding linked_back
  attach_lem b c ys e tail s out =
      let h2 = linked_back (last b ys) in
      attach-End b c ys e tail out
        (End-of h2 null b c ys null (frame h h2 null ((b, c) ∷ ys) null s (λ x i. ground arith)))
