-- ===== src/Graph/Walk/Tests.antt =====
-- libs/DSA/adjacency_list: a graph of three nodes, and runs on it.
use Prim.{tt}
use cmake_template.Prelude.{
  none, some, true, [], ◌∷◌, refl, if◌then◌else◌, List, inl, Option, ◌≡◌, arith, ltb, ◌<◌, ◌⊎◌, inr,
  ◌==◌, ℕ, suc, length,
}
use cmake_template.Core.{Ptr, ok, success, failure, Comparison, CmpF}
use cmake_template.Graph.{
  Store, Graph, Node, Edge, find_node, find_in, add_edge, add_node, remove_edge, detach_edge,
  create, get_size, print_loop, free_edge, set_node,
}
use cmake_template.Graph.Remove.{clear}
use cmake_template.Graph.Remove.Life.{clear-freed}
use cmake_template.Graph.Walk.{
  Memory, Walk, dfs, bfs, initialize_dfs, initialize_bfs, traverse, edges_loop, visit_node,
  push_stack, enqueue,
}
use cmake_template.Prelude.Counts.{count}
use cmake_template.Graph.Walk.Scan.{IsGranted}
use cmake_template.Graph.Walk.Loop.{IsGraph, neighbours}
use cmake_template.Graph.Walk.Correct.{dfs-Visits, bfs-Visits, Visits}
use cmake_template.Graph.Valid.{IsValid, IsCounted}
use cmake_template.Graph.Edges.{add_edge-HasEdge, HasEdge}
use cmake_template.Graph.Nodes.{add_node-IsValid}
use cmake_template.Graph.Search.{remove_edge_other}

abbrev same_number : CmpF
same_number a b = if a == b then Comparison.equal else Comparison.not_equal

-- 1 leads to 2 and back, and 3 to 1.
abbrev sample_nodes : Ptr → Option Node
sample_nodes p =
    if p == 10
    then some (record { payload = 1; edge_count = 1; edge_list = 100 ∷ [] })
    else if p == 20
    then some (record { payload = 2; edge_count = 1; edge_list = 200 ∷ [] })
    else if p == 30
    then some (record { payload = 3; edge_count = 1; edge_list = 300 ∷ [] })
    else none

abbrev to : Ptr → Ptr → Edge
to p q = record { node_1 = p; node_2 = q; weight = 1; is_directed = true }

abbrev sample_edges : Ptr → Option Edge
sample_edges e =
    if e == 100
    then some (to 10 20)
    else if e == 200
    then some (to 20 10)
    else if e == 300
    then some (to 30 10)
    else none

abbrev sample : Store
sample = record { nodes = sample_nodes; edges = sample_edges }

abbrev sample_list : List Ptr
sample_list = 30 ∷ 20 ∷ 10 ∷ []

abbrev sample_graph : Graph
sample_graph = record { node_count = 3; node_list = some sample_list; custom_compare = same_number }

abbrev plenty : Memory
plenty = record { waiting_granted = λ k. true; visited_granted = λ k. true }

plenty-IsGranted : IsGranted plenty
plenty-IsGranted = record { for_waiting = λ k. refl; for_visited = λ k. refl }

sample_cases : (p : Ptr) → 0 < count p sample_list → (p ≡ 10) ⊎ ((p ≡ 20) ⊎ (p ≡ 30))
sample_cases p inside = ground arith

sample-IsGraph : IsGraph sample sample_list
sample-IsGraph p inside = elim (sample_cases p inside) [
  | inl e ↦ rw e (
    record { payload = 1; edge_count = 1; edge_list = 100 ∷ [] },
    refl,
    λ z. omega arith,
    ((to 10 20, refl, λ z. omega arith, omega arith), tt),
  )
  | inr (inl e) ↦ rw e (
    record { payload = 2; edge_count = 1; edge_list = 200 ∷ [] },
    refl,
    λ z. omega arith,
    ((to 20 10, refl, λ z. omega arith, omega arith), tt),
  )
  | inr (inr e) ↦ rw e (
    record { payload = 3; edge_count = 1; edge_list = 300 ∷ [] },
    refl,
    λ z. omega arith,
    ((to 30 10, refl, λ z. omega arith, omega arith), tt),
  )
]

sample-IsCounted : (k : ℕ) → k < 3 → IsCounted k sample sample_list
sample-IsCounted k small p n inside at = ground (arith, sample_cases p inside)

sample-IsValid : IsValid sample sample_graph sample_list
sample-IsValid = record {
  listed = refl;
  size = refl;
  small = omega arith;
  graph = sample-IsGraph;
  counts = sample-IsCounted 0 (omega arith);
}

one_found : find_node sample (some sample_graph) 1 ≡ ok 10
unfolding find_node find_in
one_found = refl

two_found : find_node sample (some sample_graph) 2 ≡ ok 20
unfolding find_node find_in
two_found = refl

dfs_called :
    dfs sample (some sample_graph) 3 plenty true true
    ≡ ok (success, record { waiting = []; visited = 30 ∷ 10 ∷ 20 ∷ []; called = 3 ∷ 1 ∷ 2 ∷ [] })
unfolding dfs initialize_dfs find_node find_in traverse edges_loop visit_node push_stack
dfs_called = refl

bfs_called :
    bfs sample (some sample_graph) 1 plenty true true
    ≡ ok (success, record { waiting = []; visited = 10 ∷ 20 ∷ []; called = 1 ∷ 2 ∷ [] })
unfolding bfs initialize_bfs find_node find_in traverse edges_loop visit_node enqueue
bfs_called = refl

-- The memory for the visited list ends: node 20 still waits, and is handed to free.
waiting_freed :
    dfs sample
      (some sample_graph)
      1
      (record { waiting_granted = λ k. true; visited_granted = λ k. ltb k 1 })
      true
      true
    ≡ ok (failure, record { waiting = 20 ∷ []; visited = 10 ∷ []; called = 1 ∷ [] })
unfolding dfs initialize_dfs find_node find_in traverse edges_loop visit_node push_stack
waiting_freed = refl

printed : print_loop sample (30 ∷ 20 ∷ []) ≡ ok ((3, 1) ∷ (2, 1) ∷ [])
unfolding print_loop
printed = refl

created_empty : get_size (create true same_number true true) ≡ 0
unfolding get_size create
created_empty = refl

edge_removed : remove_edge sample (some sample_graph) 2 1 true ≡ detach_edge sample 20 10 true
unfolding remove_edge find_node find_in
edge_removed = refl

dfs-Visits_example :
    (w : Walk) × (dfs sample (some sample_graph) 1 plenty true true ≡ ok (success, w))
    × Visits sample 10 w
dfs-Visits_example =
    dfs-Visits sample sample_graph sample_list 1 10 plenty refl sample-IsGraph (omega arith)
      plenty-IsGranted (λ z. omega arith) one_found

bfs-Visits_example :
    (w : Walk) × (bfs sample (some sample_graph) 1 plenty true true ≡ ok (success, w))
    × Visits sample 10 w
bfs-Visits_example =
    bfs-Visits sample sample_graph sample_list 1 10 plenty refl sample-IsGraph (omega arith)
      plenty-IsGranted (λ z. omega arith) one_found

add_edge-HasEdge_example :
    (s' : Store) × (add_edge sample (some sample_graph) 1 2 5 true 400 true true ≡ ok (success, s'))
    × HasEdge 0 sample s' sample_list 10 20 true
add_edge-HasEdge_example =
    add_edge-HasEdge sample sample_graph sample_list 1 2 10 20 400 5 true sample-IsValid
      (sample-IsCounted 2 (omega arith)) one_found two_found (λ z. omega arith) (λ z. omega arith)
      (λ z. omega arith) refl

add_node-IsValid_example :
    (s' : Store) × (g' : Graph) × (add_node sample (some sample_graph) 4 40 true true
      ≡ (success, s', some g'))
    × IsValid s' g' (40 ∷ sample_list)
    × (neighbours s' 40 ≡ [])
    × ((v : Ptr) → 0 < count v sample_list → neighbours s' v ≡ neighbours sample v)
add_node-IsValid_example =
    add_node-IsValid sample sample_graph sample_list 4 40 sample-IsValid (omega arith)
      (λ z. omega arith) (λ z. omega arith) refl

three_found : find_node sample (some sample_graph) 3 ≡ ok 30
unfolding find_node find_in
three_found = refl

remove_edge_other_example :
    (l' : List Ptr) × (1 ≡ suc (length l'))
    × (remove_edge sample (some sample_graph) 1 3 true
        ≡ ok (
          success,
          free_edge
              (set_node sample 10 (record { payload = 1; edge_count = length l'; edge_list = l' }))
              100,
        ))
remove_edge_other_example =
    remove_edge_other sample sample_graph sample_list 1 3 10 30 100 []
      (record { payload = 1; edge_count = 1; edge_list = 100 ∷ [] }) (to 10 20) true sample-IsValid
      one_found three_found (λ z. omega arith) (λ z. omega arith) refl refl refl refl
      (λ z. omega arith) refl

clear-freed_example :
    (s' : Store) × (clear sample (some sample_graph)
      ≡ ok (
        success,
        s',
        some (record sample_graph { node_count = 0; node_list = none }),
        3 ∷ 2 ∷ 1 ∷ 30 ∷ 20 ∷ 10 ∷ [],
      ))
    × ((v : Ptr) → s'.nodes v ≡ (if ltb 0 (count v sample_list) then none else sample_nodes v))
    × ((x : Ptr) → s'.edges x ≡ sample_edges x)
clear-freed_example =
    clear-freed sample sample_graph sample_list refl
      (λ p inside. let (n, at, _, _) = sample-IsGraph p inside in (n, at)) (λ v. ground arith)
