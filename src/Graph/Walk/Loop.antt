-- ===== src/Graph/Walk/Loop.antt =====
-- libs/DSA/adjacency_list: the loop of graph_dfs and graph_bfs meets the nodes that can be reached.
use cmake_template.Prelude.{
  none, some, [], ◌∷◌, zero, suc, ◌<◌, List, ◌≡◌, ◌≢◌, ◌+◌, ◌++◌, length, map, Bool, ap, ℕ, refl,
  arith, Bool-cases, ◌==◌, inl, inr, ltb, ltb→lt, ◌∙◌, sym, ◌≤◌, ◌⊎◌,
}
use cmake_template.Core.{Ptr, ok, success, null}
use cmake_template.Graph.{Store, Node}
use cmake_template.Graph.Walk.{Put, Walk, Memory, edges_loop, traverse}
use cmake_template.Prelude.Counts.{count, length-le, tally_self}
use cmake_template.Graph.Walk.Count.{Accepts}
use cmake_template.Graph.Walk.Scan.{
  targets, LeadTo, count_snoc, length_snoc, IsGranted, IsWalk, Scanned, edges_loop_lem,
}

-- The nodes of a graph are there, and their edges lead to nodes of it.
abbrev pub IsGraph : Store → List Ptr → Type 0
IsGraph s ps =
    (p : Ptr)
    → 0 < count p ps
    → (n : Node) × (s.nodes p ≡ some n) × (p ≢ null) × LeadTo s ps n.edge_list

-- The nodes that the edges in the list of a node lead to, and the data of nodes.
abbrev pub neighbours : Store → Ptr → List Ptr
neighbours s p = elim (s.nodes p) [ none ↦ [] | some n ↦ targets s n.edge_list ]

abbrev pub payload_of : Store → Ptr → Ptr
payload_of s p = elim (s.nodes p) [ none ↦ null | some n ↦ n.payload ]

-- The nodes that edges, from their list to their `node_2`, lead to in any number of steps.
pub data Reach (s : Store) (start : Ptr) : Ptr → Type 0 where
  here : Reach s start start
  step : {u v : Ptr} → Reach s start u → 0 < count v (neighbours s u) → Reach s start v

map_snoc :
    (f : Ptr → Ptr) (ps : List Ptr) (p : Ptr) → map f (ps ++ (p ∷ [])) ≡ map f ps ++ (f p ∷ [])
map_snoc f [] p = refl
map_snoc f (q ∷ ps) p = ap (λ l. f q ∷ l) (map_snoc f ps p)

module _ (s : Store) (start : Ptr) (ps : List Ptr) where
  -- `done` are the nodes that the action was called for.
  pub record Progress (done : List Ptr) (w : Walk) : Type 0 where
    pub walk : IsWalk ps w
    pub split : (v : Ptr) → count v w.visited ≡ count v done + count v w.waiting
    pub sizes : length w.visited ≡ length done + length w.waiting
    pub closed :
        (u v : Ptr) → 0 < count u done → 0 < count v (neighbours s u) → 0 < count v w.visited
    pub reached : (v : Ptr) → 0 < count v w.visited → Reach s start v
    pub started : 0 < count start w.visited
    pub called : w.called ≡ map (payload_of s) done

  -- The next node goes from those that wait to those that are done, its edges are looked at.
  Progress-next :
      (done rest : List Ptr) (p : Ptr) (w w' : Walk)
      → Progress done w
      → w.waiting ≡ p ∷ rest
      → IsWalk ps w'
      → Scanned
          (record w { waiting = rest; called = w.called ++ (payload_of s p ∷ []) })
          w'
          (neighbours s p)
      → Progress (done ++ (p ∷ [])) w'
  Progress-next done rest p w w' h e kept met =
      let front = λ (v : Ptr). ap (count v) e in
      record {
        walk = kept;
        split = λ v. omega (arith, count_snoc v p done, h.split v, met.balance v, front v);
        sizes = omega (arith, length_snoc p done, h.sizes, met.sizes, ap length e);
        closed = λ u v was near. elim (Bool-cases (p == u)) [
          | inl same ↦ let at : p ≡ u = ground arith in met.covers v (rw at near)
          | inr other ↦
              let before : 0 < count u done = ground (arith, count_snoc u p done) in
              omega (arith, h.closed u v before near, met.grows v)
        ];
        reached = λ v was. elim (Bool-cases (ltb 0 (count v w.visited))) [
          | inl before ↦ h.reached v (ltb→lt 0 _ before)
          | inr new ↦
              let near : 0 < count v (neighbours s p) = ground (arith, met.only v was) in
              let visited : 0 < count p w.visited =
                omega (arith, h.split p, front p, tally_self p) in
              step (h.reached p visited) near
        ];
        started = omega (arith, h.started, met.grows start);
        called =
            met.called
            ∙ ap (λ l. l ++ (payload_of s p ∷ [])) h.called
            ∙ sym (map_snoc (payload_of s) done p);
      }

module _ (put : Bool → Put) (memory : Memory) (s : Store) (fuel : ℕ) (w : Walk) where
  traverse_done : w.waiting ≡ [] → traverse put memory s (suc fuel) w ≡ ok (success, w)
  unfolding traverse
  traverse_done e = ground arith

  traverse_round :
      (p : Ptr) (rest : List Ptr) (n : Node) (w' : Walk)
      → w.waiting ≡ p ∷ rest
      → p ≢ null
      → s.nodes p ≡ some n
      → edges_loop put memory s n.edge_list
          (record w { waiting = rest; called = w.called ++ (n.payload ∷ []) })
        ≡ ok (success, w')
      → traverse put memory s (suc fuel) w ≡ traverse put memory s fuel w'
  unfolding traverse
  traverse_round p rest n w' e ne at scanned = ground arith

-- The data and the neighbours of a node that is there.
payload_there : (s : Store) (p : Ptr) (n : Node) → s.nodes p ≡ some n → payload_of s p ≡ n.payload
payload_there s p n at = ground arith

pub neighbours_there :
    (s : Store) (p : Ptr) (n : Node) → s.nodes p ≡ some n → neighbours s p ≡ targets s n.edge_list
neighbours_there s p n at = ground arith

waiting_cases : (l : List Ptr) → (l ≡ []) ⊎ ((p : Ptr) × (rest : List Ptr) × (l ≡ p ∷ rest))
waiting_cases [] = inl refl
waiting_cases (p ∷ rest) = inr (p, rest, refl)

module _ (put : Bool → Put) (memory : Memory) (limit : ℕ) (s : Store) (start : Ptr) (ps : List Ptr)
    (accepts : Accepts put limit) (granted : IsGranted memory) (room : length ps ≤ limit)
    (graph : IsGraph s ps) where
  -- One round.
  round_lem :
      (fuel : ℕ) (done rest : List Ptr) (p : Ptr) (w : Walk)
      → Progress s start ps done w
      → w.waiting ≡ p ∷ rest
      → (w' : Walk) × (traverse put memory s (suc fuel) w ≡ traverse put memory s fuel w')
        × Progress s start ps (done ++ (p ∷ [])) w'
  round_lem fuel done rest p w h e =
      let waits : 0 < count p w.waiting = omega (arith, ap (count p) e, tally_self p) in
      let visited : 0 < count p w.visited = omega (arith, h.split p) in
      let (n, at, ne, lead) = graph p (omega (arith, h.walk.inside p)) in
      let before = record w { waiting = rest; called = w.called ++ (n.payload ∷ []) } in
      let fewer : length rest ≤ length w.visited = omega (arith, h.sizes, ap length e) in
      let (w', scanned, kept, met) =
        edges_loop_lem put memory ps limit accepts granted room s n.edge_list before lead
          (record { once = h.walk.once; inside = h.walk.inside; fits = fewer }) in
      (
        w',
        traverse_round put memory s fuel w p rest n w' e ne at scanned,
        Progress-next s start ps done rest p w w' h e kept
            (rw (payload_there s p n at, neighbours_there s p n at) met),
      )

  pub traverse_lem :
      (fuel : ℕ) (done : List Ptr) (w : Walk)
      → length ps < length done + fuel
      → Progress s start ps done w
      → (order : List Ptr) × (w' : Walk) × (traverse put memory s fuel w ≡ ok (success, w'))
        × (w'.waiting ≡ [])
        × Progress s start ps order w'
  traverse_lem zero done w enough h =
      absurd (omega (arith, length-le w.visited ps h.walk.inside, h.sizes))
  traverse_lem (suc fuel) done w enough h = elim (waiting_cases w.waiting) [
    | inl e ↦ (done, w, traverse_done put memory s fuel w e, e, h)
    | inr (p, rest, e) ↦
        let (w1, next, kept) = round_lem fuel done rest p w h e in
        let (order, w', ends, empty, all) =
          traverse_lem fuel (done ++ (p ∷ [])) w1 (omega (arith, length_snoc p done)) kept in
        (order, w', next ∙ ends, empty, all)
  ]

  -- At the end the nodes that are done are those that can be reached.
  pub done_reach :
      (order : List Ptr) (w : Walk)
      → w.waiting ≡ []
      → Progress s start ps order w
      → (v : Ptr) → Reach s start v
      → 0 < count v order
  done_reach order w e h v here = omega (arith, h.started, h.split v, ap (count v) e)
  done_reach order w e h v (step {u} {v = v'} r near) =
      omega (arith, h.closed u v (done_reach order w e h u r) near, h.split v, ap (count v) e)
