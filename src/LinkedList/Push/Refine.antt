-- ===== src/LinkedList/Push/Refine.antt =====
-- What the pushes do to a list of nodes.
use cmake_template.Prelude.{
  ◌+◌, ◌≡◌, ◌≢◌, ◌<◌, ◌^◌, refl, true, false, none, some, [], ◌∷◌, ◌++◌, arith, ◌==◌, length,
  if◌then◌else◌, sym, length-append,
}
use cmake_template.LinkedList.Push.Links.{Linked, establish_lem, prepend_lem, attach_lem}
use cmake_template.Core.{
  Ptr, null, ExitCode, success, failure, null_pointer, ok, Returns, not_null, Returns-mono,
}
use cmake_template.LinkedList.Memory.{node, Heap, write, node_new, node_new_lem, Returns-then}
use cmake_template.LinkedList.Seg.{
  Cells, has, first, last, Seg, SameOutside, frame-write, not-has_of_none, last-append, has-snoc,
}
use cmake_template.LinkedList.Header.{ListT, Handle, IsList, IsListIn}
use cmake_template.LinkedList.Push.{push_head, push_tail, establish, prepend, attach, count_new}

-- The call succeeds, the list is made of `xs`, and the heap has changed at their addresses only.
abbrev pub Pushed : Heap → ListT → Cells → (ExitCode × Handle) × Heap → Type 0
Pushed h l xs ((code, m), g) = (code ≡ success) × IsListIn g l m xs × SameOutside xs h g

-- Before the count: the nodes `xs` are linked under the header `m`, which has the size and the
-- callbacks of `l`, and the heap has changed at their addresses only.
pub record Grown (h : Heap) (l : ListT) (xs : Cells) (m : ListT) (g : Heap) : Type 0 where
  pub chain : Seg g null xs null
  pub head : m.head ≡ first xs null
  pub tail : m.tail ≡ last null xs
  pub size : m.size ≡ l.size
  pub custom_free : m.custom_free ≡ l.custom_free
  pub compare_func : m.compare_func ≡ l.compare_func
  pub same : SameOutside xs h g

pub count_new-Pushed :
    (h : Heap) (l : ListT) (xs : Cells) (m : ListT) (g : Heap)
    → Grown h l xs m g
    → l.size + 1 ≡ length xs
    → length xs < 2 ^ 32
    → Returns (Pushed h l xs) (count_new m g)
unfolding count_new
count_new-Pushed h l xs m g grown count word = (
  refl,
  (
    record {
      chain = grown.chain;
      head = grown.head;
      tail = grown.tail;
      size = omega (arith, grown.size);
      word = word;
    },
    grown.custom_free,
    grown.compare_func,
  ),
  grown.same,
)

module _ (h : Heap) (l : ListT) (xs : Cells) (a d : Ptr) (is : IsList h l xs) (ne : a ≢ null)
    (unused : h a ≡ none) where
  with_node : Heap
  with_node = write h a (some (node d null null))

  out : has a xs ≡ false
  out = not-has_of_none h a null xs null is.chain unused

  still : Seg with_node null xs null
  unfolding with_node
  still = frame-write h null xs null a (some (node d null null)) is.chain out

  -- `m` is `l` with other ends.
  abbrev HasEnds : Cells → ListT → Type 0
  HasEnds ys m =
      (m.head ≡ first ys null)
      × (m.tail ≡ last null ys)
      × (m.size ≡ l.size)
      × (m.custom_free ≡ l.custom_free)
      × (m.compare_func ≡ l.compare_func)

  Grown-of :
      (m : ListT) (ys : Cells)
      → HasEnds ys m
      → has a ys ≡ true
      → (r : ListT × Heap) → Linked with_node m ys r
      → Grown h l ys r.0 r.1
  unfolding with_node
  Grown-of m ys (e1, e2, e3, e4, e5) inside (t, g) (e, s, same) = record {
    chain = s;
    head = rw e e1;
    tail = rw e e2;
    size = rw e e3;
    custom_free = rw e e4;
    compare_func = rw e e5;
    same = λ x o. ground (arith, same x);
  }

  fresh_node : with_node a ≡ some (node d null null)
  unfolding with_node
  fresh_node = ground arith

front_Grown :
    (h : Heap) (l : ListT) (xs : Cells) (a d : Ptr)
    → IsList h l xs
    → a ≢ null
    → h a ≡ none
    → Returns
        (λ (m, g). Grown h l ((a, d) ∷ xs) m g)
        ((if l.head == null then establish l a else prepend l a)
          (write h a (some (node d null null))))
unfolding with_node
front_Grown h l [] a d is ne unused =
    let empty : (l.head == null) ≡ true = rw is.head refl in
    let h1 = with_node h l [] a d is ne unused in
    rw empty (
      Returns-mono _ _ (establish l a h1)
        (establish_lem h1 l a d ne (fresh_node h l [] a d is ne unused))
        (Grown-of h l [] a d is ne unused (record l { head = a; tail = a }) ((a, d) ∷ [])
          (refl, refl, refl, refl, refl) (ground arith)))
front_Grown h l ((b, c) ∷ ys) a d is ne unused =
    let xs = (b, c) ∷ ys in
    let full : (l.head == null) ≡ false = rw is.head (not_null b is.chain.0) in
    let h1 = with_node h l xs a d is ne unused in
    rw full (
      Returns-mono _ _ (prepend l a h1)
        (prepend_lem h1 l a d ne b c ys (fresh_node h l xs a d is ne unused) is.head
          (still h l xs a d is ne unused) (out h l xs a d is ne unused))
        (Grown-of h l xs a d is ne unused (record l { head = a }) ((a, d) ∷ xs)
          (refl, is.tail, refl, refl, refl) (ground arith)))

back_Grown :
    (h : Heap) (l : ListT) (xs : Cells) (a d : Ptr)
    → IsList h l xs
    → a ≢ null
    → h a ≡ none
    → Returns
        (λ (m, g). Grown h l (xs ++ (a, d) ∷ []) m g)
        ((if l.head == null then establish l a else attach l a)
          (write h a (some (node d null null))))
unfolding with_node
back_Grown h l [] a d is ne unused =
    let empty : (l.head == null) ≡ true = rw is.head refl in
    let h1 = with_node h l [] a d is ne unused in
    rw empty (
      Returns-mono _ _ (establish l a h1)
        (establish_lem h1 l a d ne (fresh_node h l [] a d is ne unused))
        (Grown-of h l [] a d is ne unused (record l { head = a; tail = a }) ((a, d) ∷ [])
          (refl, refl, refl, refl, refl) (ground arith)))
back_Grown h l ((b, c) ∷ ys) a d is ne unused =
    let xs = (b, c) ∷ ys in
    let full : (l.head == null) ≡ false = rw is.head (not_null b is.chain.0) in
    let h1 = with_node h l xs a d is ne unused in
    rw full (
      Returns-mono _ _ (attach l a h1)
        (attach_lem h1 l a d ne b c ys (fresh_node h l xs a d is ne unused) is.tail
          (still h l xs a d is ne unused) (out h l xs a d is ne unused))
        (Grown-of h l xs a d is ne unused (record l { tail = a }) (xs ++ (a, d) ∷ [])
          (is.head, sym (last-append null xs ((a, d) ∷ [])), refl, refl, refl) (has-snoc a d xs)))

module _ {h : Heap} {l : ListT} {xs : Cells} (a d : Ptr) (is : IsList h l xs) (ne : a ≢ null)
    (unused : h a ≡ none) (some_data : d ≢ null) (room : length xs + 1 < 2 ^ 32) where
  -- On a list of the nodes `xs`, with data that is not NULL, an unused address from calloc and room
  -- for one more in a uint32_t, list_push_head succeeds: the list is made of a new node with the
  -- data, and then `xs`, and the heap has changed at those nodes only.
  pub push_head-cons : Returns (Pushed h l ((a, d) ∷ xs)) (push_head (some l) d a h)
  unfolding push_head
  push_head-cons =
      rw (not_null d some_data, node_new_lem a d h ne some_data, not_null a ne)
        (Returns-then _ _ _ count_new (front_Grown h l xs a d is ne unused) λ m g grown.
          count_new-Pushed h l ((a, d) ∷ xs) m g grown (omega (arith, is.size)) (omega arith))

  -- Under the same conditions list_push_tail succeeds: the list is made of `xs`, and then a new
  -- node with the data, and the heap has changed at those nodes only.
  pub push_tail-snoc : Returns (Pushed h l (xs ++ (a, d) ∷ [])) (push_tail (some l) d a h)
  unfolding push_tail
  push_tail-snoc =
      rw (not_null d some_data, node_new_lem a d h ne some_data, not_null a ne)
        (Returns-then _ _ _ count_new (back_Grown h l xs a d is ne unused) λ m g grown.
          count_new-Pushed h l (xs ++ (a, d) ∷ []) m g grown
            (omega (arith, is.size, length-append xs ((a, d) ∷ [])))
            (omega (arith, length-append xs ((a, d) ∷ []))))

-- Both pushes refuse NULL data by E_NULL_POINTER, and return E_FAILURE where calloc gives NULL;
-- neither changes the list or the heap then.
pub push_refused :
    (l : ListT) (h : Heap) (d a : Ptr)
    → (push_head (some l) null a h ≡ ok ((null_pointer, some l), h))
      × (push_tail (some l) null a h ≡ ok ((null_pointer, some l), h))
      × (d ≢ null → push_head (some l) d null h ≡ ok ((failure, some l), h))
      × (d ≢ null → push_tail (some l) d null h ≡ ok ((failure, some l), h))
unfolding push_head push_tail node_new
push_refused l h d a =
    (refl, refl, (λ ne. rw (not_null d ne) refl), (λ ne. rw (not_null d ne) refl))
