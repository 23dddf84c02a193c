-- ===== src/Graph/Remove.antt =====
-- libs/DSA/adjacency_list: graph_remove_node, graph_clear and graph_destroy of adjacency_list.c, and
-- the functions that are not written yet. What `custom_free` of the caller is called with is logged.
pub mod Life
mod Tests
use cmake_template.Prelude.{
  none, some, true, false, [], ◌∷◌, zero, suc, List, ℕ, Bool, Option, ◌^◌, if◌then◌else◌, ◌-◌, ◌++◌,
  ◌==◌, ◌||◌, take,
}
use cmake_template.Core.{
  Ptr, ok, success, failure, null_pointer, Run, ExitCode, null, CmpF, fault, ◌>>=◌, succeeded,
  is_equal,
}
use cmake_template.Graph.{
  Store, Handle, Graph, Node, load_node, load_edge, set_node, free_node, find_node, remove_edge,
  down, list_size,
}

-- cleanup_node, for arguments that are not NULL: the node is freed, its edges are not.
pub cleanup_node : Store → Ptr → Run (Store × List Ptr)
cleanup_node s p = do n ← load_node s p; ok (free_node s p, n.payload ∷ [])

-- The loop of graph_clear.
pub clear_loop : Store → List Ptr → Run (Store × List Ptr)
clear_loop s [] = ok (s, [])
clear_loop s (p ∷ ps) = do
  one ← cleanup_node s p
  rest ← clear_loop one.0 ps
  ok (rest.0, one.1 ++ rest.1)

-- graph_clear; list_delete calls `custom_free` with what is in the list, the nodes.
pub clear : Store → Handle → Run (ExitCode × Store × Handle × List Ptr)
clear s none = ok (failure, s, none, [])
clear s (some g) = elim g.node_list [
  | none ↦ fault
  | some ps ↦ clear_loop s ps >>= λ end.
      ok (success, end.0, some (record g { node_count = 0; node_list = none }), end.1 ++ ps)
]

-- graph_destroy
pub destroy : Store → Handle → Run (ExitCode × Store × Handle × List Ptr)
destroy s none = ok (failure, s, none, [])
destroy s (some g) = do
  (code, s', g', freed) ← clear s (some g)
  if succeeded code then ok (success, s', none, freed) else ok (code, s', g', freed)

-- collect_edges; `granted` says whether calloc gives the array, which has as many places as the uint32_t
-- size of the list counts.
pub collect_edges : Store → Ptr → Bool → Run (Option (List Ptr))
collect_edges s p granted = do
  n ← load_node s p
  ok (if granted then some (take (list_size n.edge_list) n.edge_list) else none)

-- remove_edges; `push_granted` is for graph_remove_edge.
pub remove_edges : Store → Handle → List Ptr → Bool → Run (ExitCode × Store)
remove_edges s g [] push_granted = ok (success, s)
remove_edges s g (edge ∷ edges) push_granted = if edge == null then ok (failure, s) else (do
  e ← load_edge s edge
  if (e.node_1 == null) || (e.node_2 == null) then ok (failure, s) else (do
    n ← load_node s e.node_1
    m ← load_node s e.node_2
    end ← remove_edge s g n.payload m.payload push_granted
    elim (succeeded end.0) [ true ↦ remove_edges end.1 g edges push_granted | false ↦ ok end ]))

-- list_remove_data on the nodes: the list without the first node whose data compare equal, and that
-- node; `none` if there is none.
pub remove_equal_node : Store → CmpF → Ptr → List Ptr → Run (Option (Ptr × List Ptr))
remove_equal_node s cmp payload [] = ok none
remove_equal_node s cmp payload (p ∷ ps) = do
  n ← load_node s p
  elim (is_equal (cmp payload n.payload)) [
    | true ↦ ok (some (p, ps))
    | false ↦ remove_equal_node s cmp payload ps >>= λ rest. elim rest [
      | none ↦ ok none
      | some r ↦ ok (some (r.0, p ∷ r.1))
    ]
  ]

-- graph_remove_node behind the removal of the edges of node `p`.
pub unlist_node : Store → Graph → Ptr → Run (ExitCode × Store × Handle × List Ptr)
unlist_node s g p = elim g.node_list [
  | none ↦ ok (null_pointer, s, some g, [])
  | some ps ↦ (do
    n ← load_node s p
    found ← remove_equal_node s g.custom_compare n.payload ps
    elim found [
      | none ↦ ok (failure, s, some g, [])
      | some r ↦ (do
        last ← cleanup_node s p
        ok (
          success,
          last.0,
          some (record g { node_list = some r.1; node_count = down g.node_count }),
          r.0 ∷ last.1,
        ))
    ])
]

-- graph_remove_node
pub remove_node : Store → Handle → Ptr → Bool → Bool → Run (ExitCode × Store × Handle × List Ptr)
remove_node s none payload granted push_granted = ok (failure, s, none, [])
remove_node s (some g) payload granted push_granted = do
  p ← find_node s (some g) payload
  if p == null then ok (failure, s, some g, []) else (do
    edges ← collect_edges s p granted
    elim edges [
      | none ↦ ok (failure, s, some g, [])
      | some l ↦ (do
        end ← remove_edges s (some g) l push_granted
        if succeeded end.0 then unlist_node end.1 g p else ok (end.0, end.1, some g, []))
    ])

-- The functions that only return: graph_dijkstra, graph_a_star and graph_floyd_warshall (-1),
-- graph_is_connected, graph_is_cyclic and graph_node_degree.
pub dijkstra : Handle → Ptr → Ptr → ExitCode
dijkstra g start_data end_data = failure

pub a_star : Handle → Ptr → Ptr → ExitCode
a_star g start_data end_data = failure

pub floyd_warshall : Handle → ExitCode
floyd_warshall g = failure

pub is_connected : Handle → ExitCode
is_connected g = failure

pub is_cyclic : Handle → ExitCode
is_cyclic g = failure

pub node_degree : Handle → Ptr → ExitCode
node_degree g payload = failure

-- graph_find_connected_components, graph_get_adjacent_nodes and graph_clone, which return NULL.
pub find_connected_components : Handle → Ptr
find_connected_components g = null

pub get_adjacent_nodes : Handle → Ptr → Ptr
get_adjacent_nodes g payload = null

pub clone : Handle → Ptr
clone g = null

pub edge_exists : Handle → Ptr → Ptr → Bool
edge_exists g data_1 data_2 = false

-- `return -1` as a size_t.
pub get_edge_weight : Handle → Ptr → Ptr → ℕ
get_edge_weight g data_1 data_2 = 2 ^ 64 - 1
