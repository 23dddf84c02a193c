-- ===== src/Graph/Walk.antt =====
-- libs/DSA/adjacency_list: graph_dfs and graph_bfs of adjacency_list.c. The stack and the queue are
-- the lists of what is in them, next one first, with their limits: MAX_STACK_SIZE, and 2^32 nodes.
pub mod Count
pub mod Scan
pub mod Loop
pub mod Correct
mod Tests
use cmake_template.Prelude.{
  none, some, true, false, [], ◌∷◌, zero, suc, Bool, ℕ, List, ◌==◌, length, if◌then◌else◌, Option,
  ◌++◌, ◌&&◌, ◌||◌, ◌+◌, not, ltb, ◌^◌,
}
use cmake_template.Core.{
  ExitCode, failure, success, null_pointer, ok, fault, out_of_fuel, Run, Ptr, null, ◌>>=◌,
  succeeded,
}
use cmake_template.Graph.{Store, Handle, load_node, load_edge, find_node}

-- MAX_STACK_SIZE
abbrev pub max_stack_size : ℕ
max_stack_size = 2000

-- What a traversal has: the nodes that wait, the visited list, and the data handed to the action.
pub record Walk : Type 0 where
  pub waiting : List Ptr
  pub visited : List Ptr
  pub called : List Ptr

-- A stack or a queue, with the memory for its next node: `none` if it refuses the node.
abbrev pub Put : Type 0
Put = List Ptr → Ptr → Option (List Ptr)

pub push_stack : Bool → Put
push_stack granted waiting node =
    if granted && ltb (length waiting) max_stack_size then some (node ∷ waiting) else none

-- queue_enqueue. With 2^32 nodes the uint32_t current_size is 0 again: the queue counts as empty, its
-- nodes are never dequeued, and the next one takes their place.
pub enqueue : Bool → Put
enqueue granted waiting node =
    if granted
    then some (if suc (length waiting) == 2 ^ 32 then [] else waiting ++ (node ∷ []))
    else none

-- list_contains with node_ptr_comp.
abbrev pub contains : List Ptr → Ptr → Bool
contains [] p = false
contains (q ∷ qs) p = (q == p) || contains qs p

-- The memory of a traversal: for the number of nodes visited before, whether the container and the
-- visited list get theirs.
pub record Memory : Type 0 where
  pub waiting_granted : ℕ → Bool
  pub visited_granted : ℕ → Bool

-- dfs_visit_node and bfs_visit_node, by the `put` of their container.
pub visit_node : (Bool → Put) → Memory → Ptr → Walk → ExitCode × Walk
visit_node put memory node w =
    if node == null
    then (failure, w)
    else elim (put (memory.waiting_granted (length w.visited)) w.waiting node) [
      | none ↦ (failure, w)
      | some waiting ↦
          if memory.visited_granted (length w.visited)
          then (success, record w { waiting = waiting; visited = w.visited ++ (node ∷ []) })
          else (failure, record w { waiting = waiting })
    ]

-- The loop over the edges of a node.
pub edges_loop : (Bool → Put) → Memory → Store → List Ptr → Walk → Run (ExitCode × Walk)
edges_loop put memory s [] w = ok (success, w)
edges_loop put memory s (edge ∷ edges) w = do
  e ← load_edge s edge
  elim (contains w.visited e.node_2) [
    | true ↦ edges_loop put memory s edges w
    | false ↦
        let (code, next) = visit_node put memory e.node_2 w in
        elim (succeeded code) [
          | true ↦ edges_loop put memory s edges next
          | false ↦ ok (failure, next)
        ]
  ]

-- traverse_dfs and traverse_bfs.
pub traverse : (Bool → Put) → Memory → Store → ℕ → Walk → Run (ExitCode × Walk)
traverse put memory s zero w = out_of_fuel
traverse put memory s (suc fuel) w = elim w.waiting [
  | [] ↦ ok (success, w)
  | current ∷ rest ↦ if current == null then ok (failure, record w { waiting = rest }) else (do
    n ← load_node s current
    end ←
        edges_loop put memory s n.edge_list
          (record w { waiting = rest; called = w.called ++ (n.payload ∷ []) })
    elim (succeeded end.0) [ true ↦ traverse put memory s fuel end.1 | false ↦ ok end ])
]

abbrev pub dfs_visit_node : Memory → Ptr → Walk → ExitCode × Walk
dfs_visit_node = visit_node push_stack

abbrev pub bfs_visit_node : Memory → Ptr → Walk → ExitCode × Walk
bfs_visit_node = visit_node enqueue

abbrev pub traverse_dfs : Memory → Store → ℕ → Walk → Run (ExitCode × Walk)
traverse_dfs = traverse push_stack

abbrev pub traverse_bfs : Memory → Store → ℕ → Walk → Run (ExitCode × Walk)
traverse_bfs = traverse enqueue

-- The rounds of the loop: one for each node of the graph, and one that ends it.
abbrev pub rounds : Handle → ℕ
rounds none = 1
rounds (some g) = elim g.node_list [ none ↦ 1 | some ps ↦ length ps + 1 ]

abbrev pub blank : Walk
blank = record { waiting = []; visited = []; called = [] }

-- initialize_dfs: the start node, or NULL for a failure. The flags say whether the visited list and
-- the stack get their memory.
pub initialize_dfs : Store → Handle → Ptr → Bool → Bool → Run Ptr
initialize_dfs s g start_data list_granted stack_granted = do
  start ← find_node s g start_data
  ok (if list_granted && stack_granted then start else null)

-- graph_dfs; the nodes that still wait at the end are those that stack_destroy hands to free.
pub dfs : Store → Handle → Ptr → Memory → Bool → Bool → Run (ExitCode × Walk)
dfs s g start_data memory list_granted stack_granted = do
  start ← initialize_dfs s g start_data list_granted stack_granted
  if start == null then ok (failure, blank) else (do
    let first = dfs_visit_node memory start blank
    if succeeded first.0 then traverse_dfs memory s (rounds g) first.1 else ok first)

-- initialize_bfs, likewise.
pub initialize_bfs : Store → Handle → Ptr → Bool → Bool → Run Ptr
initialize_bfs s g start_data list_granted queue_granted =
    if (start_data == null) || not list_granted
    then ok null
    else (do start ← find_node s g start_data; ok (if queue_granted then start else null))

-- graph_bfs; the nodes that still wait at the end are those that queue_destroy hands to free.
pub bfs : Store → Handle → Ptr → Memory → Bool → Bool → Run (ExitCode × Walk)
bfs s g start_data memory list_granted queue_granted = do
  start ← initialize_bfs s g start_data list_granted queue_granted
  if start == null then ok (failure, blank) else (do
    let first = bfs_visit_node memory start blank
    if succeeded first.0 then traverse_bfs memory s (rounds g) first.1 else ok first)
