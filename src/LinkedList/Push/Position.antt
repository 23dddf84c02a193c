-- ===== src/LinkedList/Push/Position.antt =====
-- list_push_position against the insertion into a list of nodes.
use cmake_template.Prelude.{
  arith, ◌∷◌, ◌++◌, ◌≢◌, ◌≡◌, none, length, ◌+◌, ◌<◌, ◌^◌, some, suc, length-append, ltb, false,
  ◌==◌, ◌-◌, ℕ, refl, ◌∙◌, sym,
}
use cmake_template.Core.{Ptr, null, Returns, not_null, ok, ptr_self}
use cmake_template.LinkedList.Memory.{Heap, node, write, node_new_lem, Returns-then}
use cmake_template.LinkedList.Seg.{
  Cells, has, last, Seg, SameOutside, frame-write, not-has_of_none, split_left, split_right,
  split_apart, last-append, not-has_append,
}
use cmake_template.LinkedList.Header.{ListT, IsList}
use cmake_template.LinkedList.Push.{insert_behind, walk, push_position}
use cmake_template.LinkedList.Push.Between.{walk-last, has-ne, has-first, insert_behind-Seg}
use cmake_template.LinkedList.Push.Refine.{Pushed, count_new-Pushed}

-- The guards of list_push_position at a position `k` between the ends.
inner_position :
    (k m size : ℕ)
    → size ≡ suc k + suc m
    → (ltb size (suc k) ≡ false) × ((0 == suc k) ≡ false) × ((suc k == size) ≡ false)
inner_position k m size e = (ground arith, ground arith, ground arith)

walk_from :
    (h : Heap) (b c : Ptr) (zs : Cells) (stop p : Ptr)
    → Seg h null ((b, c) ∷ zs) stop
    → p ≡ b
    → walk (suc (length zs) - 1) p h ≡ ok (last b zs, h)
walk_from h b c zs stop p s e =
    let steps : suc (length zs) - 1 ≡ length zs = omega arith in
    rw (steps, e) (walk-last h null b c zs stop s)

without_new :
    (h : Heap) (a d b c x y : Ptr) (zs ws : Cells) (p : Ptr)
    → has p ((b, c) ∷ zs ++ (a, d) ∷ (x, y) ∷ ws) ≡ false
    → write h a (some (node d null null)) p ≡ h p
without_new h a d b c x y zs ws p o =
    let other : (p == a) ≡ false =
      has-ne p a ((a, d) ∷ (x, y) ∷ ws) (has-first a d ((x, y) ∷ ws))
        (not-has_append p ((b, c) ∷ zs) ((a, d) ∷ (x, y) ∷ ws) o).1 in
    rw other refl

module _ {h : Heap} {l : ListT} (a d b c x y : Ptr) (zs ws : Cells)
    (is : IsList h l ((b, c) ∷ zs ++ (x, y) ∷ ws)) (ne : a ≢ null) (unused : h a ≡ none)
    (some_data : d ≢ null) (room : length ((b, c) ∷ zs ++ (x, y) ∷ ws) + 1 < 2 ^ 32) where
  -- At a position between two nodes, with data that is not NULL, an unused address from calloc and
  -- room for one more in a uint32_t, list_push_position succeeds: the list is made of the nodes in
  -- front of the position, a new node with the data, and the other nodes, and the heap has changed at
  -- those nodes only.
  pub push_position-insert :
      Returns
        (Pushed h l ((b, c) ∷ zs ++ (a, d) ∷ (x, y) ∷ ws))
        (push_position (some l) d (suc (length zs)) a h)
  unfolding push_position
  push_position-insert =
      let h0 = write h a (some (node d null null)) in
      let out = not-has_of_none h a null ((b, c) ∷ zs ++ (x, y) ∷ ws) null is.chain unused in
      let (out1, out2) = not-has_append a ((b, c) ∷ zs) ((x, y) ∷ ws) out in
      let s1 =
        frame-write h null ((b, c) ∷ zs) x a (some (node d null null))
          (split_left h null ((b, c) ∷ zs) ((x, y) ∷ ws) null is.chain) out1 in
      let s2 =
        frame-write h (last b zs) ((x, y) ∷ ws) null a (some (node d null null))
          (split_right h null ((b, c) ∷ zs) ((x, y) ∷ ws) null is.chain) out2 in
      let n : l.size ≡ suc (length zs) + suc (length ws) =
        omega (arith, is.size, length-append zs ((x, y) ∷ ws)) in
      let (small, front, inner) = inner_position (length zs) (length ws) l.size n in
      rw
        (
          not_null d some_data,
          small,
          front,
          inner,
          node_new_lem a d h ne some_data,
          not_null a ne,
          walk_from h0 b c zs x l.head s1 is.head,
        )
        (Returns-then
          (λ (u, g).
            Seg g null ((b, c) ∷ zs ++ (a, d) ∷ (x, y) ∷ ws) null
            × SameOutside ((b, c) ∷ zs ++ (a, d) ∷ (x, y) ∷ ws) h0 g)
          (Pushed h l ((b, c) ∷ zs ++ (a, d) ∷ (x, y) ∷ ws)) (insert_behind (last b zs) a h0) _
          (insert_behind-Seg h0 a d b c x y zs ws ne s1 s2
            (split_apart h null ((b, c) ∷ zs) ((x, y) ∷ ws) null is.chain) out1 out2
            (rw (ptr_self a) refl))
          (λ u g (chain, same).
            count_new-Pushed h l ((b, c) ∷ zs ++ (a, d) ∷ (x, y) ∷ ws) l g
              (record {
                chain = chain;
                head = is.head;
                tail =
                    is.tail
                    ∙ (last-append null ((b, c) ∷ zs) ((x, y) ∷ ws)
                        ∙ sym (last-append null ((b, c) ∷ zs) ((a, d) ∷ (x, y) ∷ ws)));
                size = refl;
                custom_free = refl;
                compare_func = refl;
                same = λ p o. same p o ∙ without_new h a d b c x y zs ws p o;
              })
              (omega (arith, n, length-append zs ((a, d) ∷ (x, y) ∷ ws)))
              (omega (
                arith,
                room,
                length-append zs ((a, d) ∷ (x, y) ∷ ws),
                length-append zs ((x, y) ∷ ws),
              ))))
