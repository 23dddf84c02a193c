-- ===== src/Matrix/Tests.antt =====
-- libs/DSA/adjacency_matrix: a matrix of two nodes, and runs with allocations that fail.
use cmake_template.Prelude.{none, some, true, false, refl, ◌≡◌, arith, [], ◌∷◌}
use cmake_template.Core.{equal, CmpF, ok, failure, null, fault}
use cmake_template.Matrix.{
  Matrix, made, lost, matrix_init, fill_rows, give_up, graph_cleanup, free_rows, count_rows,
  populate_node, depopulate_node,
}
use cmake_template.Matrix.Laws.{matrix_init_refused}

abbrev same_data : CmpF
same_data a b = equal

abbrev two_nodes : Matrix
two_nodes = record {
  edges = some (some (0 ∷ 0 ∷ []) ∷ some (0 ∷ 0 ∷ []) ∷ []);
  nodes =
      some (record { payload = null; label = none } ∷ record { payload = null; label = none } ∷ []);
  num_nodes = 2;
  is_directed = true;
  custom_compare = same_data;
  custom_free = 9;
}

matrix_init_two :
    matrix_init 2 true true same_data 9
      (record { graph = true; edges = true; rows = 2; nodes = true })
    ≡ ok (made two_nodes)
unfolding matrix_init fill_rows
matrix_init_two = refl

matrix_init_no_functions :
    matrix_init 2 true false same_data 9
      (record { graph = true; edges = true; rows = 2; nodes = true })
    ≡ ok (lost 0)
unfolding matrix_init
matrix_init_no_functions = refl

matrix_init_no_nodes :
    matrix_init 2 true true same_data 9
      (record { graph = true; edges = true; rows = 2; nodes = false })
    ≡ ok (lost 2)
unfolding matrix_init fill_rows give_up graph_cleanup free_rows count_rows
matrix_init_no_nodes = refl

matrix_init_no_edges :
    matrix_init 2 true true same_data 9
      (record { graph = true; edges = false; rows = 2; nodes = true })
    ≡ ok (lost 0)
unfolding matrix_init give_up graph_cleanup
matrix_init_no_edges = refl

-- With num_nodes set, every row would be freed.
graph_cleanup_two : graph_cleanup two_nodes ≡ ok 0
unfolding graph_cleanup free_rows count_rows
graph_cleanup_two = refl

populate_node_behind : populate_node (some two_nodes) 2 7 (some []) ≡ fault
unfolding populate_node
populate_node_behind = refl

populate_node_no_label : populate_node (some two_nodes) 1 7 none ≡ ok (failure, some two_nodes)
unfolding populate_node
populate_node_no_label = refl

depopulate_node_null : depopulate_node none 0 ≡ ok (failure, none, [])
unfolding depopulate_node
depopulate_node_null = refl

matrix_init_refused_example :
    matrix_init 3 true true same_data 9
      (record { graph = true; edges = true; rows = 1; nodes = true })
    ≡ ok (lost 1)
matrix_init_refused_example = matrix_init_refused 3 1 true true same_data 9 (omega arith)
