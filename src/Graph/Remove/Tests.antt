-- ===== src/Graph/Remove/Tests.antt =====
-- libs/DSA/adjacency_list: runs of the functions that remove nodes.
use cmake_template.Prelude.{
  none, some, true, false, [], ◌∷◌, if◌then◌else◌, ◌≡◌, Option, ◌==◌, ◌^◌, refl, ◌-◌,
}
use cmake_template.Core.{ok, failure, null, Comparison, CmpF, ◌>>=◌, fault}
use cmake_template.Graph.{
  Store, Graph, find_node, find_in, remove_edge, detach_edge, find_edge, edge_compare, remove_equal,
}
use cmake_template.Graph.Remove.{
  clear, destroy, clear_loop, cleanup_node, collect_edges, remove_edges, remove_equal_node,
  unlist_node, remove_node, dijkstra, a_star, floyd_warshall, is_connected, is_cyclic, node_degree,
  find_connected_components, get_adjacent_nodes, clone, edge_exists, get_edge_weight,
}

abbrev same_number : CmpF
same_number a b = if a == b then Comparison.equal else Comparison.not_equal

-- A node whose bidirectional edge leads to itself: the edge is in its list twice.
abbrev looped : Store
looped = record {
  nodes = λ p.
      if p == 10
      then some (record { payload = 1; edge_count = 2; edge_list = 100 ∷ 100 ∷ [] })
      else none;
  edges = λ e.
      if e == 100
      then some (record { node_1 = 10; node_2 = 10; weight = 1; is_directed = false })
      else none;
}

abbrev alone : Store
alone = record {
  nodes =
      λ p. if p == 10 then some (record { payload = 1; edge_count = 0; edge_list = [] }) else none;
  edges = λ e. none;
}

abbrev one_node : Graph
one_node = record { node_count = 1; node_list = some (10 ∷ []); custom_compare = same_number }

-- The second look at the edge is one at freed memory.
loop_edge_twice : remove_node looped (some one_node) 1 true true ≡ fault
unfolding remove_node find_node find_in collect_edges remove_edges remove_edge detach_edge find_edge
    remove_equal edge_compare
loop_edge_twice = refl

-- The caller's function gets the node and then the node's data.
node_and_data :
    (remove_node alone (some one_node) 1 true true >>= λ end. ok end.3) ≡ ok (10 ∷ 1 ∷ [])
unfolding remove_node find_node find_in collect_edges remove_edges unlist_node remove_equal_node
    cleanup_node
node_and_data = refl

destroyed : (destroy alone (some one_node) >>= λ end. ok end.3) ≡ ok (1 ∷ 10 ∷ [])
unfolding destroy clear clear_loop cleanup_node
destroyed = refl

cleared_twice : clear alone (some (record one_node { node_list = none })) ≡ fault
unfolding clear
cleared_twice = refl

nothing_done :
    (g : Option Graph)
    → (dijkstra g 1 2 ≡ failure)
      × (a_star g 1 2 ≡ failure)
      × (floyd_warshall g ≡ failure)
      × (is_connected g ≡ failure)
      × (is_cyclic g ≡ failure)
      × (node_degree g 1 ≡ failure)
      × (find_connected_components g ≡ null)
      × (get_adjacent_nodes g 1 ≡ null)
      × (clone g ≡ null)
      × (edge_exists g 1 2 ≡ false)
      × (get_edge_weight g 1 2 ≡ 2 ^ 64 - 1)
unfolding dijkstra a_star floyd_warshall is_connected is_cyclic node_degree
    find_connected_components get_adjacent_nodes clone edge_exists get_edge_weight
nothing_done g = (refl, refl, refl, refl, refl, refl, refl, refl, refl, refl, refl)
