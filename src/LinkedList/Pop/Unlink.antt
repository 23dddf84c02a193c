-- ===== src/LinkedList/Pop/Unlink.antt =====
-- remove_node: a node is taken out of a list, wherever it stands.
use cmake_template.Prelude.{
  ◌≡◌, ◌≢◌, refl, true, false, none, some, List, [], ◌∷◌, ◌++◌, arith, ◌==◌, length, ◌∙◌,
  length-append,
}
use cmake_template.Core.{Ptr, null, ExitCode, success, Returns, not_null}
use cmake_template.LinkedList.Memory.{
  node, Heap, write, load_lem, set_next_lem, set_prev_lem, release_lem, Returns-then,
}
use cmake_template.LinkedList.Seg.{
  Cells, has, first, last, Seg, SameOutside, frame, frame-write, End, End-of, append, split_left,
  split_right, split_apart, first-append, last-append, not-has_append,
}
use cmake_template.LinkedList.Header.{ListT, Handle, IsList, IsListIn}
use cmake_template.LinkedList.Pop.{remove_node, link_on, link_back, take_out}
use cmake_template.LinkedList.Pop.Ends.{size-less_one}

-- `m` has the size and the callbacks of `l`.
record SameRest (l m : ListT) : Type 0 where
  size : m.size ≡ l.size
  custom_free : m.custom_free ≡ l.custom_free
  compare_func : m.compare_func ≡ l.compare_func

-- The nodes `xs` are linked on to `q`, under the head of `m`.
record LinkedOn (h : Heap) (l : ListT) (xs : Cells) (q : Ptr) (m : ListT) (g : Heap) : Type 0 where
  chain : Seg g null xs q
  head : m.head ≡ first xs q
  tail : m.tail ≡ l.tail
  rest : SameRest l m
  same : SameOutside xs h g

-- The nodes `ys` are linked back to `p`, under the tail of `m`.
record LinkedBack (h : Heap) (l : ListT) (p : Ptr) (ys : Cells) (m : ListT) (g : Heap)
    : Type 0 where
  chain : Seg g p ys null
  head : m.head ≡ l.head
  tail : m.tail ≡ last p ys
  rest : SameRest l m
  same : SameOutside ys h g

link_on-End :
    (h : Heap) (l : ListT) (b c : Ptr) (ys : Cells) (q : Ptr)
    → l.head ≡ b
    → End h null b c ys
    → Returns (λ (m, g). LinkedOn h l ((b, c) ∷ ys) q m g) (link_on l (last b ys) q h)
unfolding link_on
link_on-End h l b c ys q head end =
    rw (not_null (last b ys) end.ne_null, set_next_lem h end.ne_null end.holds q)
      (record {
        chain = end.relinked q;
        head = head;
        tail = refl;
        rest = record { size = refl; custom_free = refl; compare_func = refl };
        same = λ x o. ground (arith, end.inside);
      })

link_on_lem :
    (h : Heap) (l : ListT) (xs : Cells) (p q : Ptr)
    → l.head ≡ first xs p
    → Seg h null xs p
    → Returns (λ (m, g). LinkedOn h l xs q m g) (link_on l (last null xs) q h)
unfolding link_on
link_on_lem h l [] p q head s = record {
  chain = tt;
  head = refl;
  tail = refl;
  rest = record { size = refl; custom_free = refl; compare_func = refl };
  same = λ x o. refl;
}
link_on_lem h l ((b, c) ∷ ys) p q head s = link_on-End h l b c ys q head (End-of h null b c ys p s)

link_back_lem :
    (h : Heap) (l : ListT) (old p : Ptr) (ys : Cells)
    → l.tail ≡ last old ys
    → Seg h old ys null
    → Returns (λ (m, g). LinkedBack h l p ys m g) (link_back l p (first ys null) h)
unfolding link_back
link_back_lem h l old p [] tail s = record {
  chain = tt;
  head = refl;
  tail = refl;
  rest = record { size = refl; custom_free = refl; compare_func = refl };
  same = λ x o. refl;
}
link_back_lem h l old p ((b, c) ∷ zs) tail (ne, e, out, s) =
    let g = write h b (some (node c p (first zs null))) in
    rw (not_null b ne, set_prev_lem h ne e p)
      (record {
        chain = (ne, ground arith, out, frame h g b zs null s (λ x i. ground arith));
        head = refl;
        tail = tail;
        rest = record { size = refl; custom_free = refl; compare_func = refl };
        same = λ x o. ground arith;
      })

-- The call succeeds and hands `d` to the callback, the list is made of `xs`, the node at `p` is
-- freed, and the heap has changed at the addresses of `old` only.
abbrev pub Removed :
    Heap → ListT → Cells → Ptr → Ptr → Cells → (ExitCode × Handle × List Ptr) × Heap → Type 0
Removed h l old p d xs ((code, m, freed), g) =
    (code ≡ success) × IsListIn g l m xs × (freed ≡ d ∷ []) × (g p ≡ none) × SameOutside old h g

module _ (h : Heap) (l : ListT) (xs ys : Cells) (p d : Ptr)
    (is : IsList h l (xs ++ (p, d) ∷ ys)) where
  abbrev here : Seg h (last null xs) ((p, d) ∷ ys) null
  here = split_right h null xs ((p, d) ∷ ys) null is.chain

  apart : (x : Ptr) → has x xs ≡ true → has x ((p, d) ∷ ys) ≡ false
  apart = split_apart h null xs ((p, d) ∷ ys) null is.chain

  out : has p xs ≡ false
  out = ground (arith, apart p)

  module _ (l1 : ListT) (g1 : Heap) (l2 : ListT) (g2 : Heap)
      (on : LinkedOn h l xs (first ys null) l1 g1)
      (back : LinkedBack g1 l1 (last null xs) ys l2 g2) where
    kept : g2 p ≡ some (node d (last null xs) (first ys null))
    kept = back.same p here.2 ∙ (on.same p out ∙ here.1)

    joined : Seg (write g2 p none) null (xs ++ ys) null
    joined =
        append (write g2 p none) null xs ys null
          (frame g1 (write g2 p none) null xs (first ys null) on.chain
            λ x i. ground (arith, apart x, back.same x))
          (frame-write g2 (last null xs) ys null p none back.chain here.2)
          λ x i. ground (arith, apart x)

    same : SameOutside (xs ++ (p, d) ∷ ys) h (write g2 p none)
    same x o =
        let (o1, o2) = not-has_append x xs ((p, d) ∷ ys) o in
        ground (arith, on.same x o1, back.same x)

    -- The rest of remove_node, once both links are made.
    take_out_lem :
        l.custom_free ≢ null
        → Returns (Removed h l (xs ++ (p, d) ∷ ys) p d (xs ++ ys)) (take_out l2 p d g2)
    unfolding take_out
    take_out_lem free_ne =
        let callback : (l2.custom_free == null) ≡ false =
          ground (arith, on.rest.custom_free, back.rest.custom_free) in
        rw (callback, release_lem g2 here.0 kept)
          (
            refl,
            (
              record {
                chain = joined;
                head = rw (first-append xs ys null) (back.head ∙ on.head);
                tail = rw (last-append null xs ys) back.tail;
                size =
                    size-less_one l2.size (length (xs ++ ys))
                      (omega (
                        arith,
                        back.rest.size,
                        on.rest.size,
                        is.size,
                        length-append xs ys,
                        length-append xs ((p, d) ∷ ys),
                      ))
                      (omega (arith, is.word, length-append xs ys, length-append xs ((p, d) ∷ ys)));
                word = omega (arith, is.word, length-append xs ys, length-append xs ((p, d) ∷ ys));
              },
              back.rest.custom_free ∙ on.rest.custom_free,
              back.rest.compare_func ∙ on.rest.compare_func,
            ),
            refl,
            ground arith,
            same,
          )

-- On a list with a node at `p` with the data `d`, and a callback that is not NULL, remove_node
-- succeeds, wherever the node stands: it hands `d` to the callback, once, and frees the node; the
-- list is made of the other nodes, in order, and the heap has changed at nodes of the list only.
pub remove_node_lem :
    (h : Heap) (l : ListT) (xs ys : Cells) (p d : Ptr)
    → IsList h l (xs ++ (p, d) ∷ ys)
    → l.custom_free ≢ null
    → Returns (Removed h l (xs ++ (p, d) ∷ ys) p d (xs ++ ys)) (remove_node l p h)
unfolding remove_node
remove_node_lem h l xs ys p d is free_ne =
    let (ne, e, p_out, s) = here h l xs ys p d is in
    rw (not_null p ne, load_lem h ne e)
      (Returns-then (λ (m, g). LinkedOn h l xs (first ys null) m g)
        (Removed h l (xs ++ (p, d) ∷ ys) p d (xs ++ ys)) _ _
        (link_on_lem h l xs p (first ys null) (rw (← first-append xs ((p, d) ∷ ys) null) is.head)
          (split_left h null xs ((p, d) ∷ ys) null is.chain))
        λ l1 g1 on.
          Returns-then (λ (m, g). LinkedBack g1 l1 (last null xs) ys m g)
            (Removed h l (xs ++ (p, d) ∷ ys) p d (xs ++ ys)) _ _
            (link_back_lem g1 l1 p (last null xs) ys
              (on.tail ∙ (is.tail ∙ last-append null xs ((p, d) ∷ ys)))
              (frame h g1 p ys null s λ x i. on.same x (ground (arith, apart h l xs ys p d is x))))
            λ l2 g2 back. take_out_lem h l xs ys p d is l1 g1 l2 g2 on back free_ne)
