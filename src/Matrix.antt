-- ===== src/Matrix.antt =====
-- libs/DSA/adjacency_matrix: adjacency_matrix.c. NULL is `none` for an array, and a row that is not
-- allocated yet is `none` too.
pub mod Laws
mod Tests
use cmake_template.Prelude.{
  none, some, true, false, [], ◌∷◌, zero, suc, List, Bool, Option, ℕ, ◌+◌, if◌then◌else◌, replicate,
  ◌==◌, not,
}
use cmake_template.Core.{
  ExitCode, failure, success, ok, fault, Run, Ptr, null, ◌>>=◌, read, CmpF, write,
}
use cmake_template.Text.{Text}

-- `struct node`; `label` is `none` for NULL.
pub record Node : Type 0 where
  pub payload : Ptr
  pub label : Option Text

-- `struct matrix`, with the weights of the edges.
pub record Matrix : Type 0 where
  pub edges : Option (List (Option (List ℕ)))
  pub nodes : Option (List Node)
  pub num_nodes : ℕ
  pub is_directed : Bool
  pub custom_compare : CmpF
  pub custom_free : Ptr

-- Which allocations of matrix_init succeed: `rows` is the number of rows that calloc gives before it
-- refuses one.
pub record Grants : Type 0 where
  pub graph : Bool
  pub edges : Bool
  pub rows : ℕ
  pub nodes : Bool

-- How matrix_init ends: with a matrix, or with NULL and a number of rows that nothing frees.
pub data Made : Type 0 where
  made : Matrix → Made
  lost : ℕ → Made

abbrev pub is_row : Option (List ℕ) → ℕ
is_row none = 0
is_row (some row) = 1

pub count_rows : List (Option (List ℕ)) → ℕ
count_rows [] = 0
count_rows (row ∷ rows) = is_row row + count_rows rows

-- The loop of graph_cleanup, with the rows that it leaves.
pub free_rows : ℕ → List (Option (List ℕ)) → Run (List (Option (List ℕ)))
free_rows zero rows = ok rows
free_rows (suc n) [] = fault
free_rows (suc n) (row ∷ rows) = free_rows n rows >>= λ rest. ok (none ∷ rest)

-- graph_cleanup of a matrix that is not NULL: how many of its rows are not freed.
pub graph_cleanup : Matrix → Run ℕ
graph_cleanup g = elim g.edges [
  | none ↦ if g.num_nodes == 0 then ok 0 else fault
  | some rows ↦ free_rows g.num_nodes rows >>= λ rest. ok (count_rows rest)
]

-- The loop of matrix_init: the array of rows, and whether all were given.
pub fill_rows : ℕ → ℕ → ℕ → Bool × List (Option (List ℕ))
fill_rows zero size granted = (true, [])
fill_rows (suc n) size zero = (false, replicate (suc n) none)
fill_rows (suc n) size (suc granted) =
    let (all, rest) = fill_rows n size granted in (all, some (replicate size 0) ∷ rest)

-- graph_cleanup at the end of matrix_init.
pub give_up : Matrix → Run Made
give_up g = graph_cleanup g >>= λ left. ok (lost left)

-- matrix_init; `has_functions` says whether neither callback is NULL.
pub matrix_init : ℕ → Bool → Bool → CmpF → Ptr → Grants → Run Made
matrix_init num_nodes is_directed has_functions custom_compare custom_free grants =
    if not has_functions
    then ok (lost 0)
    else if not grants.graph
    then ok (lost 0)
    else let empty : Matrix = record {
      edges = none;
      nodes = none;
      num_nodes = 0;
      is_directed = false;
      custom_compare = custom_compare;
      custom_free = null;
    } in
      if not grants.edges
      then give_up empty
      else let (all, rows) = fill_rows num_nodes num_nodes grants.rows in
        if not all
        then give_up (record empty { edges = some rows })
        else if not grants.nodes
        then give_up (record empty { edges = some rows })
        else ok (
            made (record {
              edges = some rows;
              nodes = some (replicate num_nodes (record { payload = null; label = none }));
              num_nodes = num_nodes;
              is_directed = is_directed;
              custom_compare = custom_compare;
              custom_free = custom_free;
            }))

-- `graph->nodes[index]`, a fault out of bounds.
abbrev pub node_array : Matrix → Run (List Node)
node_array g = elim g.nodes [ none ↦ fault | some nodes ↦ ok nodes ]

-- matrix_populate_node; the label is not copied.
pub populate_node : Option Matrix → ℕ → Ptr → Option Text → Run (ExitCode × Option Matrix)
populate_node none index payload label = ok (failure, none)
populate_node (some g) index payload none = ok (failure, some g)
populate_node (some g) index payload (some label) =
    if payload == null
    then ok (failure, some g)
    else node_array g >>= λ nodes.
        write nodes index (record { payload = payload; label = none }) >>= λ nodes'.
        ok (success, some (record g { nodes = some nodes' }))

-- matrix_depopulate_node, with the data handed to the caller's function.
pub depopulate_node : Option Matrix → ℕ → Run (ExitCode × Option Matrix × List Ptr)
depopulate_node none index = ok (failure, none, [])
depopulate_node (some g) index = node_array g >>= λ nodes. read nodes index >>= λ n.
    write nodes index (record { payload = null; label = none }) >>= λ nodes'.
    ok (success, some (record g { nodes = some nodes' }), n.payload ∷ [])
