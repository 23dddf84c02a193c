-- ===== src/Graph/Remove/Life.antt =====
-- libs/DSA/adjacency_list: what graph_clear leaves and hands to the caller's function.
use cmake_template.Prelude.{
  none, some, false, [], ◌∷◌, ◌≡◌, List, ◌≤◌, map, ◌<◌, ◌==◌, if◌then◌else◌, arith, refl, ltb, ◌∙◌,
  ◌++◌, ap,
}
use cmake_template.Core.{Ptr, ok, success}
use cmake_template.Graph.{Store, Graph, Node, free_node}
use cmake_template.Graph.Remove.{clear, clear_loop, cleanup_node}
use cmake_template.Prelude.Counts.{count, tally_self}
use cmake_template.Graph.Walk.Loop.{payload_of}

-- Nodes that are there, none of them twice.
abbrev pub AreThere : Store → List Ptr → Type 0
AreThere s ps = (p : Ptr) → 0 < count p ps → (n : Node) × (s.nodes p ≡ some n)

abbrev pub Distinct : List Ptr → Type 0
Distinct ps = (v : Ptr) → count v ps ≤ 1

map_same :
    (f g : Ptr → Ptr) (ps : List Ptr)
    → ((p : Ptr) → 0 < count p ps → f p ≡ g p)
    → map f ps ≡ map g ps
map_same f g [] h = refl
map_same f g (p ∷ ps) h =
    let first = h p (omega (arith, tally_self p)) in
    rw (first, map_same f g ps (λ q there. h q (omega arith))) refl

module _ (s : Store) (p : Ptr) (n : Node) (at : s.nodes p ≡ some n) where
  cleanup_node_run : cleanup_node s p ≡ ok (free_node s p, payload_of s p ∷ [])
  unfolding cleanup_node
  cleanup_node_run = ground arith

  free_node_other : (v : Ptr) → (p == v) ≡ false → (free_node s p).nodes v ≡ s.nodes v
  free_node_other v other = ground arith

  payload_other : (v : Ptr) → (p == v) ≡ false → payload_of (free_node s p) v ≡ payload_of s v
  payload_other v other = ground arith

clear_loop_cons :
    (s one s' : Store) (p : Ptr) (ps payloads first : List Ptr)
    → cleanup_node s p ≡ ok (one, first)
    → clear_loop one ps ≡ ok (s', payloads)
    → clear_loop s (p ∷ ps) ≡ ok (s', first ++ payloads)
unfolding clear_loop
clear_loop_cons s one s' p ps payloads first e h = rw e (rw h refl)

-- The loop frees every node, calls the function with its data, and frees no edge.
clear_loop_lem :
    (ps : List Ptr) (s : Store)
    → AreThere s ps
    → Distinct ps
    → (s' : Store) × (clear_loop s ps ≡ ok (s', map (payload_of s) ps))
      × ((v : Ptr) → s'.nodes v ≡ (if ltb 0 (count v ps) then none else s.nodes v))
      × ((x : Ptr) → s'.edges x ≡ s.edges x)
clear_loop_lem [] s there distinct = (s, unfold clear_loop in refl, λ v. refl, λ x. refl)
clear_loop_lem (p ∷ ps) s there distinct =
    let (n, at) = there p (omega (arith, tally_self p)) in
    let apart : (q : Ptr) → 0 < count q ps → (p == q) ≡ false =
      λ q inside. ground (arith, distinct q) in
    let (s', run, gone, kept) =
      clear_loop_lem ps (free_node s p)
        (λ q inside.
          let (m, found) = there q (omega arith) in
          (m, free_node_other s p n at q (apart q inside) ∙ found))
        (λ v. omega (arith, distinct v)) in
    let same =
      map_same (payload_of (free_node s p)) (payload_of s) ps
        (λ q inside. payload_other s p n at q (apart q inside)) in
    (
      s',
      clear_loop_cons s (free_node s p) s' p ps _ _ (cleanup_node_run s p n at)
          (run ∙ ap (λ l. ok (s', l)) same),
      λ v. ground (arith, gone v),
      kept,
    )

-- graph_clear of a graph whose nodes are there, none twice, succeeds and frees every node and no
-- edge. It calls the caller's function with the data of every node and then with every node, which
-- has been freed before.
pub clear-freed :
    (s : Store) (g : Graph) (ps : List Ptr)
    → g.node_list ≡ some ps
    → AreThere s ps
    → Distinct ps
    → (s' : Store) × (clear s (some g)
        ≡ ok (
          success,
          s',
          some (record g { node_count = 0; node_list = none }),
          map (payload_of s) ps ++ ps,
        ))
      × ((v : Ptr) → s'.nodes v ≡ (if ltb 0 (count v ps) then none else s.nodes v))
      × ((x : Ptr) → s'.edges x ≡ s.edges x)
unfolding clear
clear-freed s g ps listed there distinct =
    let (s', run, gone, kept) = clear_loop_lem ps s there distinct in (s', ground arith, gone, kept)
