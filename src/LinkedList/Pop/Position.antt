-- ===== src/LinkedList/Pop/Position.antt =====
-- list_pop_position and list_remove_position for a node between the ends.
use cmake_template.Prelude.{
  [], ◌∷◌, suc, arith, ◌++◌, ℕ, length, ◌≢◌, ◌≡◌, refl, some, none, ◌==◌, false, ◌+◌, ◌∙◌, Option,
  leb, length-append, ◌-◌,
}
use cmake_template.Core.{Ptr, null, ok, not_null, Returns, success}
use cmake_template.LinkedList.Memory.{
  Heap, node, write, pure, and_then, load_lem, set_next_lem, set_prev_lem, release_lem, set_next,
  set_prev, release, Returns-then, Node,
}
use cmake_template.LinkedList.Seg.{
  Cells, first, last, Seg, End-of, split_left, split_right, split_apart,
}
use cmake_template.LinkedList.Header.{ListT, IsList, IsListIn}
use cmake_template.LinkedList.Push.{walk}
use cmake_template.LinkedList.Push.Between.{has-ne, has-first, has-behind, ne_sym}
use cmake_template.LinkedList.Pop.{
  pop_between, pop_position, remove_position, remove_node, link_on, link_back, take_out,
}
use cmake_template.LinkedList.Pop.Unlink.{Removed, remove_node_lem}

-- As many steps as nodes in front lead to the nodes behind them.
walk-over :
    (h : Heap) (prev : Ptr) (xs ys : Cells) (stop : Ptr)
    → Seg h prev (xs ++ ys) stop
    → walk (length xs) (first (xs ++ ys) stop) h ≡ ok (first ys stop, h)
unfolding walk
walk-over h prev [] ys stop s = refl
walk-over h prev ((a, d) ∷ xs) ys stop (ne, e, out, s) =
    rw (load_lem h ne e) (walk-over h a xs ys stop s)

write_other : (h : Heap) (t x : Ptr) (m : Option Node) → (t == x) ≡ false → write h t m x ≡ h x
write_other h t x m e = rw (ne_sym t x e) refl

-- The guards at a position `suc k` between the ends.
inside_ends :
    (k m size : ℕ)
    → size ≡ suc k + suc (suc m)
    → (leb size (suc k) ≡ false) × ((0 == suc k) ≡ false) × ((suc k == size - 1) ≡ false)
inside_ends k m size e = (ground arith, ground arith, ground arith)

-- What both functions do, once the links round the node are known to be there.
unlink_same :
    (h h1 h2 : Heap) (l : ListT) (t p d q k : ℕ)
    → t ≢ null
    → q ≢ null
    → p ≢ null
    → l.custom_free ≢ null
    → walk k l.head h ≡ ok (p, h)
    → h p ≡ some (node d t q)
    → set_next t q h ≡ ok (tt, h1)
    → set_prev q t h1 ≡ ok (tt, h2)
    → release p h2 ≡ ok (tt, write h2 p none)
    → pop_between l k h ≡ and_then (remove_node l p h) (λ (code, m, freed). pure (d, m, freed))
unfolding pop_between remove_node link_on link_back take_out
unlink_same h h1 h2 l t p d q k t_ne q_ne p_ne free_ne walked at linked back freed =
    rw
      (
        walked,
        not_null p p_ne,
        load_lem h p_ne at,
        not_null t t_ne,
        linked,
        not_null q q_ne,
        back,
        not_null l.custom_free free_ne,
        freed,
      )
      refl

module _ {h : Heap} {l : ListT} (b c p d x y : Ptr) (zs ws : Cells)
    (is : IsList h l ((b, c) ∷ zs ++ (p, d) ∷ (x, y) ∷ ws)) (free_ne : l.custom_free ≢ null) where
  between_lem :
      pop_between l (suc (length zs)) h
      ≡ and_then (remove_node l p h) (λ (code, m, freed). pure (d, m, freed))
  between_lem =
      let front = (b, c) ∷ zs in
      let back = (p, d) ∷ (x, y) ∷ ws in
      let apart = split_apart h null front back null is.chain in
      let (p_ne, at, p_out, (x_ne, ex, x_out, rest)) =
        split_right h null front back null is.chain in
      let end = End-of h null b c zs p (split_left h null front back null is.chain) in
      let outside = apart (last b zs) end.inside in
      let t_p : (last b zs == p) ≡ false =
        has-ne (last b zs) p back (has-first p d ((x, y) ∷ ws)) outside in
      let t_x : (last b zs == x) ≡ false =
        has-ne (last b zs) x back (has-behind x p d ((x, y) ∷ ws) (has-first x y ws)) outside in
      let p_x : (p == x) ≡ false = has-ne p x ((x, y) ∷ ws) (has-first x y ws) p_out in
      let h1 = write h (last b zs) (some (record end.end { next = x })) in
      let h2 = write h1 x (some (node y (last b zs) (first ws null))) in
      unlink_same h h1 h2 l (last b zs) p d x (suc (length zs)) end.ne_null x_ne p_ne free_ne
        (rw is.head (walk-over h null front back null is.chain)) at
        (set_next_lem h end.ne_null end.holds x)
        (set_prev_lem h1 {n = node y p (first ws null)} x_ne
          (write_other h (last b zs) x (some (record end.end { next = x })) t_x ∙ ex) (last b zs))
        (release_lem h2 {n = node d (last b zs) x} p_ne (
          write_other h1 x p (some (node y (last b zs) (first ws null))) (ne_sym p x p_x)
          ∙ (write_other h (last b zs) p (some (record end.end { next = x })) t_p ∙ at)))

  count : l.size ≡ suc (length zs) + suc (suc (length ws))
  count = omega (arith, is.size, length-append zs ((p, d) ∷ (x, y) ∷ ws))

  -- At a position between two nodes, with a callback that is not NULL, list_pop_position takes the
  -- node out of the list and frees it; it hands the data to the callback, and returns it all the same.
  pub pop_position-removed :
      Returns
        (λ ((r, m, freed), g).
          (r ≡ d) × IsListIn g l m ((b, c) ∷ zs ++ (x, y) ∷ ws) × (freed ≡ d ∷ []) × (g p ≡ none))
        (pop_position (some l) (suc (length zs)) h)
  unfolding pop_position
  pop_position-removed =
      let (past, front, back) = inside_ends (length zs) (length ws) l.size count in
      rw (past, front, back, between_lem)
        (Returns-then
          (Removed h l ((b, c) ∷ zs ++ (p, d) ∷ (x, y) ∷ ws) p d ((b, c) ∷ zs ++ (x, y) ∷ ws)) _
          (remove_node l p h) _ (remove_node_lem h l ((b, c) ∷ zs) ((x, y) ∷ ws) p d is free_ne)
          (λ (code, m, freed) g (done, list, once, gone, same). (refl, list, once, gone)))

  -- At a position between two nodes, with a callback that is not NULL, list_remove_position succeeds
  -- and takes the node out of the list, but hands its data to the callback twice.
  pub remove_position_twice :
      Returns
        (λ ((code, m, freed), g).
          (code ≡ success) × IsListIn g l m ((b, c) ∷ zs ++ (x, y) ∷ ws) × (freed ≡ d ∷ d ∷ []))
        (remove_position (some l) (suc (length zs)) h)
  unfolding remove_position
  remove_position_twice =
      let (past, front, back) = inside_ends (length zs) (length ws) l.size count in
      rw past (
        Returns-then
          (λ ((r, m, freed), g).
            (r ≡ d) × IsListIn g l m ((b, c) ∷ zs ++ (x, y) ∷ ws) × (freed ≡ d ∷ []) × (g p ≡ none))
          _ (pop_position (some l) (suc (length zs)) h) _ pop_position-removed
          (λ (r, m, freed) g (same, list, once, gone).
            rw (not_null l.custom_free free_ne) (refl, list, rw (once, same) refl)))
