-- ===== src/Graph/Walk/Correct.antt =====
-- libs/DSA/adjacency_list: graph_dfs and graph_bfs call the action for the nodes that can be reached.
use cmake_template.Prelude.{
  zero, suc, take, ◌^◌, some, true, false, [], ◌∷◌, Bool, List, ◌≢◌, ℕ, arith, ◌≡◌, ◌<◌, map,
  length, ◌≤◌, ◌↔◌, ◌+◌, refl, ◌==◌,
}
use cmake_template.Core.{Ptr, ok, success, null, CmpF}
use cmake_template.Graph.{Store, Graph, find_node, find_in, list_size}
use cmake_template.Graph.Walk.{
  Put, Walk, Memory, traverse, visit_node, dfs, bfs, initialize_dfs, initialize_bfs, blank,
  max_stack_size, push_stack, enqueue, rounds,
}
use cmake_template.Prelude.Counts.{count, tally_self}
use cmake_template.Graph.Walk.Count.{Accepts, push_stack-Accepts, enqueue-Accepts}
use cmake_template.Graph.Walk.Scan.{IsGranted, IsWalk, Scanned, visit_node_lem}
use cmake_template.Graph.Walk.Loop.{
  IsGraph, Reach, payload_of, Progress, traverse_lem, done_reach, here,
}

-- The action was called for the data of nodes in some order: each node that can be reached from
-- `start` once, and no other; and no node waits.
abbrev pub Visits : Store → Ptr → Walk → Type 0
Visits s start w =
    (order : List Ptr) × (w.called ≡ map (payload_of s) order)
    × ((v : Ptr) → count v order ≤ 1)
    × ((v : Ptr) → (0 < count v order) ↔ Reach s start v)
    × (w.waiting ≡ [])

pub find_in-count :
    (s : Store) (cmp : CmpF) (payload : Ptr) (ps : List Ptr) (p : Ptr)
    → p ≢ null
    → find_in s cmp payload ps ≡ ok p
    → 0 < count p ps
unfolding find_in
find_in-count s cmp payload [] p ne e = absurd (ne (ground arith))
find_in-count s cmp payload (q ∷ ps) p ne e =
    ground (arith, find_in-count s cmp payload ps p ne, tally_self p)

count-take : (p : Ptr) (n : ℕ) (ps : List Ptr) → count p (take n ps) ≤ count p ps
count-take p zero ps = omega arith
count-take p (suc n) [] = omega arith
count-take p (suc n) (q ∷ ps) = omega (arith, count-take p n ps)

blank-IsWalk : (ps : List Ptr) → IsWalk ps blank
blank-IsWalk ps = record { once = λ v. omega arith; inside = λ v. omega arith; fits = omega arith }

module _ (put : Bool → Put) (memory : Memory) (limit : ℕ) (s : Store) (ps : List Ptr)
    (accepts : Accepts put limit) (granted : IsGranted memory) (room : length ps ≤ limit)
    (graph : IsGraph s ps) (start : Ptr) where
  Progress-first :
      (w : Walk) → IsWalk ps w → Scanned blank w (start ∷ []) → Progress s start ps [] w
  Progress-first w kept met = record {
    walk = kept;
    split = λ v. omega (arith, met.balance v);
    sizes = omega (arith, met.sizes);
    closed = λ u v was near. absurd (omega arith);
    reached = λ v was. let same : start ≡ v = ground (arith, met.only v was) in rw same here;
    started = met.covers start (omega (arith, tally_self start));
    called = met.called;
  }

  -- From the visit of the start node to the end.
  whole_walk :
      0 < count start ps
      → (first w : Walk) × (visit_node put memory start blank ≡ (success, first))
        × (traverse put memory s (length ps + 1) first ≡ ok (success, w))
        × Visits s start w
  whole_walk there =
      let (n, _, ne, _) = graph start there in
      let (first, visited, kept, met) =
        visit_node_lem put memory ps limit accepts granted room blank start (blank-IsWalk ps) ne
          there refl in
      let (order, w, ends, empty, all) =
        traverse_lem put memory limit s start ps accepts granted room graph (length ps + 1) [] first
          (omega arith) (Progress-first first kept met) in
      (
        first,
        w,
        visited,
        ends,
        (
          order,
          all.called,
          λ v. omega (arith, all.split v, all.walk.once v),
          λ v. (
            λ was. all.reached v (omega (arith, all.split v)),
            done_reach put memory limit s start ps accepts granted room graph order w empty all v,
          ),
          empty,
        ),
      )

module _ (s : Store) (g : Graph) (ps : List Ptr) (data_in_list : g.node_list ≡ some ps) where
  pub find_node-count :
      (start_data p : Ptr)
      → p ≢ null
      → find_node s (some g) start_data ≡ ok p
      → (0 < count p ps) × ((start_data == null) ≡ false)
  unfolding find_node
  find_node-count start_data p ne e =
      let found : (0 < count p (take (list_size ps) ps)) × ((start_data == null) ≡ false) =
        ground (arith, find_in-count s g.custom_compare start_data (take (list_size ps) ps) p ne) in
      (omega (arith, found.0, count-take p (list_size ps) ps), found.1)

  rounds_lem : rounds (some g) ≡ length ps + 1
  rounds_lem = ground arith

  dfs_run :
      (start_data p : Ptr) (memory : Memory) (first w : Walk)
      → p ≢ null
      → find_node s (some g) start_data ≡ ok p
      → visit_node push_stack memory p blank ≡ (success, first)
      → traverse push_stack memory s (length ps + 1) first ≡ ok (success, w)
      → dfs s (some g) start_data memory true true ≡ ok (success, w)
  unfolding dfs initialize_dfs
  dfs_run start_data p memory first w ne found visited ends = ground (arith, rounds_lem)

  bfs_run :
      (start_data p : Ptr) (memory : Memory) (first w : Walk)
      → p ≢ null
      → find_node s (some g) start_data ≡ ok p
      → visit_node enqueue memory p blank ≡ (success, first)
      → traverse enqueue memory s (length ps + 1) first ≡ ok (success, w)
      → bfs s (some g) start_data memory true true ≡ ok (success, w)
  unfolding bfs initialize_bfs
  bfs_run start_data p memory first w ne found visited ends =
      ground (arith, rounds_lem, find_node-count start_data p ne found)

-- graph_dfs on a graph of at most MAX_STACK_SIZE nodes whose edges lead to nodes of it, from data
-- that is found at a node and with memory, returns with success: it has called the action once for
-- each node that the edges lead to from there, and for no other.
pub dfs-Visits :
    (s : Store) (g : Graph) (ps : List Ptr) (start_data start : Ptr) (memory : Memory)
    → g.node_list ≡ some ps
    → IsGraph s ps
    → length ps ≤ max_stack_size
    → IsGranted memory
    → start ≢ null
    → find_node s (some g) start_data ≡ ok start
    → (w : Walk) × (dfs s (some g) start_data memory true true ≡ ok (success, w)) × Visits s start w
dfs-Visits s g ps start_data start memory at graph room granted ne found =
    let (there, _) = find_node-count s g ps at start_data start ne found in
    let (first, w, visited, ends, visits) =
      whole_walk push_stack memory max_stack_size s ps push_stack-Accepts granted room graph start
        there in
    (w, dfs_run s g ps at start_data start memory first w ne found visited ends, visits)

-- graph_bfs on a graph of fewer than 2^32 nodes whose edges lead to nodes of it, from data that is
-- found at a node and with memory, returns with success: it has called the action once for each node
-- that the edges lead to from there, and for no other.
pub bfs-Visits :
    (s : Store) (g : Graph) (ps : List Ptr) (start_data start : Ptr) (memory : Memory)
    → g.node_list ≡ some ps
    → IsGraph s ps
    → length ps < 2 ^ 32
    → IsGranted memory
    → start ≢ null
    → find_node s (some g) start_data ≡ ok start
    → (w : Walk) × (bfs s (some g) start_data memory true true ≡ ok (success, w)) × Visits s start w
bfs-Visits s g ps start_data start memory at graph small granted ne found =
    let (there, _) = find_node-count s g ps at start_data start ne found in
    let (first, w, visited, ends, visits) =
      whole_walk enqueue memory (length ps) s ps (enqueue-Accepts (length ps) small) granted
        (omega arith) graph start there in
    (w, bfs_run s g ps at start_data start memory first w ne found visited ends, visits)
