-- ===== src/LinkedList/Pop/Ends.antt =====
-- list_pop_head and list_pop_tail.
use cmake_template.Prelude.{
  ℕ, suc, ◌+◌, ◌≡◌, ◌≢◌, ◌<◌, ◌^◌, refl, ap, true, false, none, some, [], ◌∷◌, ◌++◌, arith, ◌==◌,
  length, ◌-◌, ◌%◌, ◌∙◌, length-append,
}
use cmake_template.Core.{Ptr, null, ok, Returns, not_null, ptr_self}
use cmake_template.LinkedList.Memory.{
  node, Heap, write, load_lem, set_next_lem, set_prev_lem, release_lem,
}
use cmake_template.LinkedList.Seg.{
  Cells, has, first, last, SameOutside, frame, frame-write, End, End-of, split_left, split_right,
  split_apart, last-append,
}
use cmake_template.LinkedList.Header.{ListT, Handle, IsList, IsListIn}
use cmake_template.LinkedList.Pop.{pop_head, pop_tail}

-- The call returns `d`, the list is made of `xs`, the node at `a` is freed, and the heap has
-- changed at `a` and the nodes of `xs` only.
abbrev pub Popped : Heap → ListT → Ptr → Ptr → Cells → (Ptr × Handle) × Heap → Type 0
Popped h l a d xs ((p, m), g) =
    (p ≡ d) × IsListIn g l m xs × (g a ≡ none) × SameOutside ((a, d) ∷ xs) h g

-- `size--` on a list of one more than `n`.
pub size-less_one :
    (size n : ℕ) → size ≡ suc n → suc n < 2 ^ 32 → (size + (2 ^ 32 - 1)) % 2 ^ 32 ≡ n
size-less_one size n e w = omega arith

-- The last of the nodes is none outside them.
last-ne :
    (h : Heap) (a b c : Ptr) (ys : Cells)
    → has a ((b, c) ∷ ys) ≡ false
    → End h a b c ys
    → (a == last b ys) ≡ false
last-ne h a b c ys out end = ground (arith, end.inside)

-- On a list whose first node has the data `d`, list_pop_head returns `d` and frees that node: the
-- list is made of the other nodes, and the heap has changed at nodes of the list only.
pub pop_head-tail :
    (h : Heap) (l : ListT) (a d : Ptr) (xs : Cells)
    → IsList h l ((a, d) ∷ xs)
    → Returns (Popped h l a d xs) (pop_head (some l) h)
unfolding pop_head
pop_head-tail h l a d [] is =
    let (ne, e, out, s) = is.chain in
    rw (is.head, not_null a ne, load_lem h ne e, is.tail, ptr_self a, release_lem h ne e)
      (
        refl,
        (
          record {
            chain = tt;
            head = refl;
            tail = refl;
            size = size-less_one l.size 0 is.size is.word;
            word = omega arith;
          },
          refl,
          refl,
        ),
        ground arith,
        ground arith,
      )
pop_head-tail h l a d ((b, c) ∷ ys) is =
    let (ne, e, out, (b_ne, eb, b_out, s)) = is.chain in
    let xs = (b, c) ∷ ys in
    let h1 = write h b (some (node c null (first ys null))) in
    let g = write h1 a none in
    let differ : (a == last b ys) ≡ false =
      last-ne h a b c ys out (End-of h a b c ys null (b_ne, eb, b_out, s)) in
    rw
      (
        is.head,
        not_null a ne,
        load_lem h ne e,
        is.tail,
        differ,
        set_prev_lem h b_ne eb null,
        release_lem h1 {n = node d null b} ne (ground arith),
      )
      (
        refl,
        (
          record {
            chain = (b_ne, ground arith, b_out, frame h g b ys null s (λ x i. ground arith));
            head = refl;
            tail = refl;
            size = size-less_one l.size (suc (length ys)) is.size is.word;
            word = omega arith;
          },
          refl,
          refl,
        ),
        ground arith,
        ground arith,
      )

-- On an empty list list_pop_head and list_pop_tail return NULL, and change nothing.
pub pop_nil :
    (h : Heap) (l : ListT)
    → IsList h l []
    → (pop_head (some l) h ≡ ok ((null, some l), h))
      × (pop_tail (some l) h ≡ ok ((null, some l), h))
unfolding pop_head pop_tail
pop_nil h l is =
    let no_head : (l.head == null) ≡ true = rw is.head refl in
    let no_tail : (l.tail == null) ≡ true = rw is.tail refl in (rw no_head refl, rw no_tail refl)

pop_tail-End :
    (h : Heap) (l : ListT) (a d b c : Ptr) (ys : Cells)
    → a ≢ null
    → h a ≡ some (node d (last b ys) null)
    → l.tail ≡ a
    → l.head ≡ b
    → End h null b c ys
    → ((x : Ptr) → has x ((b, c) ∷ ys) ≡ true → has x ((a, d) ∷ []) ≡ false)
    → l.size ≡ suc (suc (length ys))
    → suc (suc (length ys)) < 2 ^ 32
    → Returns (Popped h l a d ((b, c) ∷ ys)) (pop_tail (some l) h)
unfolding pop_tail
pop_tail-End h l a d b c ys ne e tail head end apart size word =
    let xs = (b, c) ∷ ys in
    let t = last b ys in
    let h1 = write h t (some (record end.end { next = null })) in
    let g = write h1 a none in
    let differ : (b == a) ≡ false = ground (arith, apart b) in
    let other : (t == a) ≡ false = ground (arith, apart t, end.inside) in
    let out : has a xs ≡ false = ground (arith, apart a) in
    rw
      (
        tail,
        not_null a ne,
        load_lem h ne e,
        head,
        differ,
        set_next_lem h end.ne_null end.holds null,
        release_lem h1 {n = node d t null} ne (ground (arith, other)),
      )
      (
        refl,
        (
          record {
            chain = frame-write h1 null xs null a none (end.relinked null) out;
            head = refl;
            tail = refl;
            size = size-less_one l.size (suc (length ys)) size word;
            word = omega arith;
          },
          refl,
          refl,
        ),
        ground arith,
        λ x o. ground (arith, end.inside),
      )

-- On a list whose last node has the data `d`, list_pop_tail returns `d` and frees that node: the
-- list is made of the other nodes, and the heap has changed at nodes of the list only.
pub pop_tail-init :
    (h : Heap) (l : ListT) (a d : Ptr) (xs : Cells)
    → IsList h l (xs ++ (a, d) ∷ [])
    → Returns (Popped h l a d xs) (pop_tail (some l) h)
unfolding pop_tail
pop_tail-init h l a d [] is =
    let (ne, e, out, s) = is.chain in
    rw (is.tail, not_null a ne, load_lem h ne e, is.head, ptr_self a, release_lem h ne e)
      (
        refl,
        (
          record {
            chain = tt;
            head = refl;
            tail = refl;
            size = size-less_one l.size 0 is.size is.word;
            word = omega arith;
          },
          refl,
          refl,
        ),
        ground arith,
        ground arith,
      )
pop_tail-init h l a d ((b, c) ∷ ys) is =
    let xs = (b, c) ∷ ys in
    let front = split_left h null xs ((a, d) ∷ []) null is.chain in
    let (ne, e, out, s) = split_right h null xs ((a, d) ∷ []) null is.chain in
    let apart = split_apart h null xs ((a, d) ∷ []) null is.chain in
    pop_tail-End h l a d b c ys ne e (is.tail ∙ last-append null xs ((a, d) ∷ [])) is.head
      (End-of h null b c ys a front) (λ x i. apart x i)
      (is.size ∙ ap suc (omega (arith, length-append ys ((a, d) ∷ []))))
      (omega (arith, is.word, length-append ys ((a, d) ∷ [])))
