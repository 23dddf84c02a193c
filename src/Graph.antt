-- ===== src/Graph.antt =====
-- libs/DSA/adjacency_list: adjacency_list.c, but for the traversals, which are in Graph/Walk. A list
-- of linked_list.c is the list of its data, head first. Its uint32_t size is the length modulo 2^32,
-- since every push adds 1 to it and every removal takes 1 off; list_find_first_occurrence and
-- collect_edges read it.
-- The caller's comparison is one of the data that its two arguments point to.
pub mod Walk
pub mod Valid
pub mod Edges
pub mod Nodes
pub mod Remove
pub mod Search
use cmake_template.Prelude.{
  none, some, true, false, [], ◌∷◌, zero, suc, Bool, ℕ, if◌then◌else◌, Option, List, drop, ◌+◌,
  ◌==◌, not, ◌&&◌, ◌||◌, ◌-◌, map, take, length, ◌%◌, ◌^◌,
}
use cmake_template.Core.{
  ExitCode, failure, success, null_pointer, ok, fault, Run, Ptr, null, Comparison, ◌>>=◌, CmpF,
  ◌>>◌, is_equal,
}

-- `node_t` and `edge_t`
pub record Node : Type 0 where
  pub payload : Ptr
  pub edge_count : ℕ
  pub edge_list : List Ptr

pub record Edge : Type 0 where
  pub node_1 : Ptr
  pub node_2 : Ptr
  pub weight : ℕ
  pub is_directed : Bool

-- The nodes and edges that are allocated.
pub record Store : Type 0 where
  pub nodes : Ptr → Option Node
  pub edges : Ptr → Option Edge

-- `list->size`, a uint32_t.
abbrev pub list_size : List Ptr → ℕ
list_size l = length l % 2 ^ 32

-- `n += 1` and `n -= 1` of a size_t.
abbrev pub up : ℕ → ℕ
up n = (n + 1) % 2 ^ 64

abbrev pub down : ℕ → ℕ
down n = (n + 2 ^ 64 - 1) % 2 ^ 64

-- `graph_t`; `node_list` is `none` for NULL.
pub record Graph : Type 0 where
  pub node_count : ℕ
  pub node_list : Option (List Ptr)
  pub custom_compare : CmpF

abbrev pub Handle : Type 0
Handle = Option Graph

abbrev pub load_node : Store → Ptr → Run Node
load_node s p = elim (s.nodes p) [ none ↦ fault | some n ↦ ok n ]

abbrev pub load_edge : Store → Ptr → Run Edge
load_edge s p = elim (s.edges p) [ none ↦ fault | some e ↦ ok e ]

abbrev pub update {ℓ} : {A : Type ℓ} → (Ptr → Option A) → Ptr → Option A → Ptr → Option A
update f p v q = if p == q then v else f q

abbrev pub set_node : Store → Ptr → Node → Store
set_node s p n = record s { nodes = update s.nodes p (some n) }

abbrev pub free_node : Store → Ptr → Store
free_node s p = record s { nodes = update s.nodes p none }

abbrev pub set_edge : Store → Ptr → Edge → Store
set_edge s p e = record s { edges = update s.edges p (some e) }

abbrev pub free_edge : Store → Ptr → Store
free_edge s p = record s { edges = update s.edges p none }

-- edge_compare, of edges that are loaded.
pub edge_compare : Edge → Edge → Comparison
edge_compare a b =
    if ((a.node_1 == b.node_1) && (a.node_2 == b.node_2))
      || ((a.node_1 == b.node_2) && ((a.node_2 == b.node_1) && not a.is_directed))
    then Comparison.equal
    else Comparison.not_equal

-- graph_create; `graph_granted` and `list_granted` say whether the allocations succeed.
pub create : Bool → CmpF → Bool → Bool → Handle
create has_functions custom_compare graph_granted list_granted =
    if has_functions && (graph_granted && list_granted)
    then some (record { node_count = 0; node_list = some []; custom_compare = custom_compare })
    else none

-- The loop of list_find_first_occurrence on the nodes: the first whose data compare equal.
pub find_in : Store → CmpF → Ptr → List Ptr → Run Ptr
find_in s cmp payload [] = ok null
find_in s cmp payload (p ∷ ps) = do
  n ← load_node s p
  elim (is_equal (cmp payload n.payload)) [ true ↦ ok p | false ↦ find_in s cmp payload ps ]

-- graph_find_node
pub find_node : Store → Handle → Ptr → Run Ptr
find_node s none payload = ok null
find_node s (some g) payload = if payload == null then ok null else elim g.node_list [
  | none ↦ ok null
  | some ps ↦ find_in s g.custom_compare payload (take (list_size ps) ps)
]

-- graph_create_node; `address` is what calloc returns. The result is the node's address.
pub create_node : Store → Ptr → Ptr → Bool → Ptr × Store
create_node s payload address list_granted =
    if payload == null
    then (null, s)
    else if address == null
    then (null, s)
    else if list_granted
    then (
      address,
      set_node s address (record { payload = payload; edge_count = 0; edge_list = [] }),
    )
    else (null, s)

-- graph_add_node; `push_granted` says whether list_push_head gets its memory.
pub add_node : Store → Handle → Ptr → Ptr → Bool → Bool → ExitCode × Store × Handle
add_node s none payload address list_granted push_granted = (failure, s, none)
add_node s (some g) payload address list_granted push_granted =
    if payload == null
    then (failure, s, some g)
    else let (node, created) = create_node s payload address list_granted in
      if node == null then (failure, created, some g) else elim g.node_list [
        | none ↦ (null_pointer, free_node created node, some g)
        | some ps ↦
            if push_granted
            then (
              success,
              created,
              some (record g { node_list = some (node ∷ ps); node_count = up g.node_count }),
            )
            else (failure, free_node created node, some g)
      ]

-- list_push_head on the edge list of a node, with its `edge_count += 1`.
abbrev pub push_edge : Store → Ptr → Ptr → Run Store
push_edge s p edge = do
  n ← load_node s p
  ok (set_node s p (record n { edge_list = edge ∷ n.edge_list; edge_count = up n.edge_count }))

-- list_remove_data of an edge: the list without the first edge that compares equal, or `none` if
-- there is no such edge.
pub remove_equal : Store → Ptr → List Ptr → Run (Option (List Ptr))
remove_equal s edge [] = ok none
remove_equal s edge (p ∷ ps) = do
  a ← load_edge s edge
  b ← load_edge s p
  elim (is_equal (edge_compare a b)) [
    | true ↦ ok (some ps)
    | false ↦
        remove_equal s edge ps >>= λ rest. ok (elim rest [ none ↦ none | some l ↦ some (p ∷ l) ])
  ]

-- The same on the list of a node, with its `edge_count -= 1` where an edge was found.
abbrev pub pull_edge : Store → Ptr → Ptr → Run (Bool × Store)
pull_edge s p edge = do
  n ← load_node s p
  kept ← remove_equal s edge n.edge_list
  elim kept [
    | none ↦ ok (false, s)
    | some l ↦ ok (true, set_node s p (record n { edge_list = l; edge_count = down n.edge_count }))
  ]

-- graph_add_edge behind its tests: the edge at the address that calloc returned goes to the list of
-- `p` and, if it is bidirectional, of `q`. The flags say whether the two pushes get their memory.
pub attach_edge : Store → Ptr → Ptr → Ptr → ℕ → Bool → Bool → Bool → Run (ExitCode × Store)
attach_edge s p q edge weight is_bidirectional first_granted second_granted =
    let made =
      set_edge s edge
        (record { node_1 = p; node_2 = q; weight = weight; is_directed = not is_bidirectional }) in
    if not first_granted then ok (failure, free_edge made edge) else (do
      one ← push_edge made p edge
      if not is_bidirectional
          then ok (success, one)
          else if second_granted
          then (do two ← push_edge one q edge; ok (success, two))
          else (do undone ← pull_edge one p edge; ok (failure, free_edge undone.1 edge)))

-- graph_add_edge
pub add_edge : Store → Handle → Ptr → Ptr → ℕ → Bool → Ptr → Bool → Bool → Run (ExitCode × Store)
add_edge s g data_1 data_2 weight is_bidirectional address first_granted second_granted = do
  p ← find_node s g data_1
  if p == null then ok (failure, s) else (do
    q ← find_node s g data_2
    if (q == null) || (address == null)
        then ok (failure, s)
        else attach_edge s p q address weight is_bidirectional first_granted second_granted)

-- The test of graph_find_edge, and its loop, which returns the last edge that it looked at.
abbrev pub connects : Edge → Ptr → Ptr → Bool
connects e p q =
    ((e.node_1 == p) && (e.node_2 == q))
    || ((e.node_1 == q) && ((e.node_2 == p) && not e.is_directed))

pub find_edge : Store → Ptr → Ptr → Ptr → List Ptr → Run Ptr
find_edge s p q last [] = ok last
find_edge s p q last (edge ∷ rest) = do
  e ← load_edge s edge
  elim (connects e p q) [ true ↦ ok edge | false ↦ find_edge s p q edge rest ]

-- graph_remove_edge behind the search for its nodes. `push_granted` says whether the push that undoes
-- the first removal gets its memory.
pub detach_edge : Store → Ptr → Ptr → Bool → Run (ExitCode × Store)
detach_edge s p q push_granted = do
  n ← load_node s p
  edge ← find_edge s p q null n.edge_list
  if edge == null then ok (failure, s) else (do
    first ← pull_edge s p edge
    e ← load_edge first.1 edge
    if not first.0
        then ok (failure, first.1)
        else if e.is_directed
        then ok (success, free_edge first.1 edge)
        else (do
          second ← pull_edge first.1 q edge
          if second.0
              then ok (success, free_edge second.1 edge)
              else if push_granted
              then (do undone ← push_edge second.1 p edge; ok (failure, undone))
              else (do
                m ← load_node second.1 p
                ok (failure, set_node second.1 p (record m { edge_count = up m.edge_count })))))
    -- graph_remove_edge

pub remove_edge : Store → Handle → Ptr → Ptr → Bool → Run (ExitCode × Store)
remove_edge s g data_1 data_2 push_granted = do
  p ← find_node s g data_1
  if p == null then ok (failure, s) else (do
    q ← find_node s g data_2
    if q == null then ok (failure, s) else detach_edge s p q push_granted)
    -- graph_get_size

pub get_size : Handle → ℕ
get_size none = 0
get_size (some g) = g.node_count

-- The loop of graph_print, with the data handed to the action and the numbers that are printed.
pub print_loop : Store → List Ptr → Run (List (Ptr × ℕ))
print_loop s [] = ok []
print_loop s (p ∷ ps) = do
  n ← load_node s p
  rest ← print_loop s ps
  ok ((n.payload, n.edge_count) ∷ rest)
