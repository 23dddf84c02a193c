-- ===== src/LinkedList/Push/Between.antt =====
-- list_push_position for a place between two nodes.
use cmake_template.Prelude.{
  [], [], arith, ◌≢◌, ◌∷◌, ◌≡◌, length, some, true, false, ◌++◌, Option, refl, ◌==◌, Bool-cases,
  inl, inr, ◌∙◌,
}
use cmake_template.Core.{Ptr, null, ok, Returns, not_null}
use cmake_template.LinkedList.Memory.{Heap, node, Node, write, load_lem, set_next_lem, set_prev_lem}
use cmake_template.LinkedList.Seg.{
  Cells, has, first, last, Seg, SameOutside, frame, End, End-of, append, not-has_append,
}
use cmake_template.LinkedList.Push.{insert_behind, walk}

-- An address in a segment is none outside it.
pub has-ne : (p t : Ptr) (xs : Cells) → has t xs ≡ true → has p xs ≡ false → (p == t) ≡ false
has-ne p t xs inside out = elim (Bool-cases (p == t)) [
  | inl e ↦ let same : p ≡ t = ground (arith, e) in absurd cc
  | inr e ↦ e
]

pub has-first : (x y : Ptr) (ws : Cells) → has x ((x, y) ∷ ws) ≡ true
has-first x y ws = ground arith

pub has-behind : (p x y : Ptr) (ws : Cells) → has p ws ≡ true → has p ((x, y) ∷ ws) ≡ true
has-behind p x y ws inside = ground arith

pub ne_sym : (p q : Ptr) → (p == q) ≡ false → (q == p) ≡ false
ne_sym p q e = ground arith

-- The heap after the four links, at an address of each kind.
module _ (h : Heap) (a x t : Ptr) (m1 m2 m3 m4 : Option Node) where
  abbrev linked : Heap
  linked = write (write (write (write h a m1) a m2) x m3) t m4

  linked-new : (a == t) ≡ false → (a == x) ≡ false → linked a ≡ m2
  linked-new et ex = ground arith

  linked-next : (x == t) ≡ false → linked x ≡ m3
  linked-next et = ground arith

  linked-other : (p : Ptr) → (p == a) ≡ false → (p == x) ≡ false → (p == t) ≡ false → linked p ≡ h p
  linked-other p ea ex et = rw (et, ex, ea) refl

old_next :
    (h : Heap) (a x : Ptr) (m1 m2 : Option Node)
    → (a == x) ≡ false
    → write (write h a m1) a m2 x ≡ h x
old_next h a x m1 m2 e = ground (arith, ne_sym a x e)

-- As many steps as nodes behind the first lead to the last one.
pub walk-last :
    (h : Heap) (prev b c : Ptr) (zs : Cells) (stop : Ptr)
    → Seg h prev ((b, c) ∷ zs) stop
    → walk (length zs) b h ≡ ok (last b zs, h)
unfolding walk
walk-last h prev b c [] stop s = refl
walk-last h prev b c ((x, y) ∷ zs) stop (ne, e, out, s) =
    rw (load_lem h ne e) (walk-last h b x y zs stop s)

-- The last node of a segment points to what stops it.
last_next :
    (h : Heap) (prev b c : Ptr) (zs : Cells) (stop : Ptr)
    → Seg h prev ((b, c) ∷ zs) stop
    → (n : Node) × (h (last b zs) ≡ some n) × (n.next ≡ stop) × (last b zs ≢ null)
last_next h prev b c [] stop (ne, e, out, s) = (node c prev stop, e, refl, ne)
last_next h prev b c ((x, y) ∷ zs) stop (ne, e, out, s) = last_next h b x y zs stop s

module _ (h : Heap) (a d b c x y : Ptr) (zs ws : Cells) (a_ne : a ≢ null)
    (front : Seg h null ((b, c) ∷ zs) x) (back : Seg h (last b zs) ((x, y) ∷ ws) null)
    (apart : (p : Ptr) → has p ((b, c) ∷ zs) ≡ true → has p ((x, y) ∷ ws) ≡ false)
    (out_front : has a ((b, c) ∷ zs) ≡ false) (out_back : has a ((x, y) ∷ ws) ≡ false)
    (at : h a ≡ some (node d null null)) where
  -- The new node linked both ways, and the node behind it linked back.
  h3 : Heap
  h3 =
      write (write (write h a (some (node d null x))) a (some (node d (last b zs) x))) x
        (some (node y a (first ws null)))

  abbrev m1 : Option Node
  m1 = some (node d null x)

  abbrev m2 : Option Node
  m2 = some (node d (last b zs) x)

  abbrev m3 : Option Node
  m3 = some (node y a (first ws null))

  module _ (inside : has (last b zs) ((b, c) ∷ zs) ≡ true) (m4 : Option Node) where
    kept : (p : Ptr) → has p ws ≡ true → linked h a x (last b zs) m1 m2 m3 m4 p ≡ h p
    kept p i =
        linked-other h a x (last b zs) m1 m2 m3 m4 p
          (ne_sym a p (has-ne a p ((x, y) ∷ ws) (has-behind p x y ws i) out_back))
          (ne_sym x p (has-ne x p ws i back.2))
          (ne_sym (last b zs) p
            (has-ne (last b zs) p ((x, y) ∷ ws) (has-behind p x y ws i) (apart (last b zs) inside)))

    outside :
        SameOutside ((b, c) ∷ zs ++ (a, d) ∷ (x, y) ∷ ws) h (linked h a x (last b zs) m1 m2 m3 m4)
    outside p o =
        let (o1, o2) = not-has_append p ((b, c) ∷ zs) ((a, d) ∷ (x, y) ∷ ws) o in
        linked-other h a x (last b zs) m1 m2 m3 m4 p
          (has-ne p a ((a, d) ∷ (x, y) ∷ ws) (has-first a d ((x, y) ∷ ws)) o2)
          (has-ne p x ((a, d) ∷ (x, y) ∷ ws) (has-behind x a d ((x, y) ∷ ws) (has-first x y ws)) o2)
          (has-ne p (last b zs) ((b, c) ∷ zs) inside o1)

  -- A node in front of the new one is none of the others.
  beside : (p : Ptr) → has p ((b, c) ∷ zs) ≡ true → has p ((a, d) ∷ (x, y) ∷ ws) ≡ false
  beside p i =
      let other : (p == a) ≡ false = ne_sym a p (has-ne a p ((b, c) ∷ zs) i out_front) in
      rw other (apart p i)

  insert_behind-End :
      (n : Node)
      → h (last b zs) ≡ some n
      → n.next ≡ x
      → last b zs ≢ null
      → End h3 null b c zs
      → Returns
          (λ (u, g).
            Seg g null ((b, c) ∷ zs ++ (a, d) ∷ (x, y) ∷ ws) null
            × SameOutside ((b, c) ∷ zs ++ (a, d) ∷ (x, y) ∷ ws) h g)
          (insert_behind (last b zs) a h)
  unfolding insert_behind h3
  insert_behind-End n here n_next last_ne end =
      let (x_ne, ex, x_out, rest) = back in
      let m4 : Option Node = some (record end.end { next = a }) in
      let a_t : (a == last b zs) ≡ false =
        has-ne a (last b zs) ((b, c) ∷ zs) end.inside out_front in
      let a_x : (a == x) ≡ false = has-ne a x ((x, y) ∷ ws) (has-first x y ws) out_back in
      let x_t : (x == last b zs) ≡ false =
        ne_sym (last b zs) x
          (has-ne (last b zs) x ((x, y) ∷ ws) (has-first x y ws) (apart (last b zs) end.inside)) in
      let h1 = write h a (some (node d null x)) in
      let h2 = write h1 a (some (node d (last b zs) x)) in
      let g = write h3 (last b zs) (some (record end.end { next = a })) in
      rw
        (
          load_lem h last_ne here,
          n_next,
          set_next_lem h a_ne at x,
          set_prev_lem h1 {n = node d null x} a_ne (ground arith) (last b zs),
          not_null x x_ne,
          set_prev_lem h2 {n = node y (last b zs) (first ws null)} x_ne
              (old_next h a x m1 m2 a_x ∙ ex) a,
          set_next_lem h3 end.ne_null end.holds a,
        )
        (
          append g null ((b, c) ∷ zs) ((a, d) ∷ (x, y) ∷ ws) null (end.relinked a)
              (
                a_ne,
                linked-new h a x (last b zs) m1 m2 m3 m4 a_t a_x,
                out_back,
                (
                  x_ne,
                  linked-next h a x (last b zs) m1 m2 m3 m4 x_t,
                  x_out,
                  frame h g x ws null rest (kept end.inside m4),
                ),
              )
              (λ p i. beside p i),
          outside end.inside m4,
        )

  still : (p : Ptr) → has p ((b, c) ∷ zs) ≡ true → h3 p ≡ h p
  unfolding h3
  still p i =
      let p_a : (p == a) ≡ false = ne_sym a p (has-ne a p ((b, c) ∷ zs) i out_front) in
      let p_x : (p == x) ≡ false = has-ne p x ((x, y) ∷ ws) (has-first x y ws) (apart p i) in
      rw (p_x, p_a) refl

  pub insert_behind-Seg :
      Returns
        (λ (u, g).
          Seg g null ((b, c) ∷ zs ++ (a, d) ∷ (x, y) ∷ ws) null
          × SameOutside ((b, c) ∷ zs ++ (a, d) ∷ (x, y) ∷ ws) h g)
        (insert_behind (last b zs) a h)
  unfolding h3
  insert_behind-Seg =
      let (n, here, n_next, last_ne) = last_next h null b c zs x front in
      insert_behind-End n here n_next last_ne
        (End-of h3 null b c zs x (frame h h3 null ((b, c) ∷ zs) x front still))
