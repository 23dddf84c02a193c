-- ===== src/Matrix/Laws.antt =====
-- libs/DSA/adjacency_matrix: what matrix_init leaves behind where the memory gives out, and the data
-- that a node gets and gives back.
use cmake_template.Prelude.{
  none, zero, refl, true, false, ◌≡◌, List, ℕ, ◌<◌, replicate, suc, some, Bool, set, length, ◌≢◌,
  ◌∷◌, [], arith, ap, get_elem?-set_self, length-set, sym,
}
use cmake_template.Core.{ok, Ptr, CmpF, null, success, not_null, write_lem, write, read}
use cmake_template.Matrix.{
  Matrix, lost, fill_rows, count_rows, matrix_init, populate_node, depopulate_node, give_up, Node,
  graph_cleanup, free_rows, Text,
}

count_rows-none : (n : ℕ) → count_rows (replicate n none) ≡ 0
unfolding count_rows
count_rows-none zero = refl
count_rows-none (suc n) = omega (arith, count_rows-none n)

-- A loop that is refused a row: what it has so far.
fill_rows_refused : (n size k : ℕ) → k < n → (fill_rows n size k).0 ≡ false
unfolding fill_rows
fill_rows_refused zero size k h = absurd (omega arith)
fill_rows_refused (suc n) size zero h = refl
fill_rows_refused (suc n) size (suc k) h = fill_rows_refused n size k (omega arith)

count_rows-fill_rows : (n size k : ℕ) → k < n → count_rows ((fill_rows n size k).1) ≡ k
unfolding fill_rows count_rows
count_rows-fill_rows zero size k h = absurd (omega arith)
count_rows-fill_rows (suc n) size zero h = omega (arith, count_rows-none n)
count_rows-fill_rows (suc n) size (suc k) h =
    omega (arith, count_rows-fill_rows n size k (omega arith))

-- Where the allocation of row k is refused, matrix_init returns NULL, and the k rows that were
-- allocated before are never freed, since num_nodes of the matrix is still 0 when graph_cleanup runs.
pub matrix_init_refused :
    (n k : ℕ) (directed nodes : Bool) (compare : CmpF) (free : Ptr)
    → k < n
    → matrix_init n directed true compare free
        (record { graph = true; edges = true; rows = k; nodes = nodes })
      ≡ ok (lost k)
unfolding matrix_init give_up graph_cleanup free_rows
matrix_init_refused n k directed nodes compare free h =
    rw (fill_rows_refused n n k h, count_rows-fill_rows n n k h) refl

set_twice : {A : Type 0} (xs : List A) (i : ℕ) (v w : A) → set (set xs i v) i w ≡ set xs i w
set_twice [] i v w = refl
set_twice (x ∷ xs) zero v w = refl
set_twice (x ∷ xs) (suc i) v w = ap (λ t. x ∷ t) (set_twice xs i v w)

-- Reading a cell that was just written, and writing it again.
read-set : {A : Type 0} (xs : List A) (i : ℕ) (v : A) → i < length xs → read (set xs i v) i ≡ ok v
read-set xs i v h = rw (read, get_elem?-set_self xs i v h) refl

write-set :
    {A : Type 0} (xs : List A) (i : ℕ) (v w : A)
    → i < length xs
    → write (set xs i v) i w ≡ ok (set xs i w)
write-set xs i v w h =
    rw (sym (set_twice xs i v w)) (write_lem (set xs i v) i w (rw (length-set xs i v) h))

-- The matrix with these data, and no label, in the node at the index.
abbrev pub with_payload : Matrix → List Node → ℕ → Ptr → Matrix
with_payload g nodes index payload = record g {
  nodes = some (set nodes index (record { payload = payload; label = none }));
}

-- For data that are not NULL, a label and an index within bounds, matrix_populate_node puts the data into
-- the node at the index and leaves out the label; matrix_depopulate_node at the same index then hands
-- over those data and nothing else, and the node holds NULL.
pub depopulate_node-populate_node :
    (g : Matrix) (nodes : List Node) (index : ℕ) (payload : Ptr) (label : Text)
    → g.nodes ≡ some nodes
    → index < length nodes
    → payload ≢ null
    → (populate_node (some g) index payload (some label)
        ≡ ok (success, some (with_payload g nodes index payload)))
      × (depopulate_node (some (with_payload g nodes index payload)) index
          ≡ ok (success, some (with_payload g nodes index null), payload ∷ []))
unfolding populate_node depopulate_node
depopulate_node-populate_node g nodes index payload label e h ne = (
  rw (not_null payload ne, e, write_lem nodes index (record { payload = payload; label = none }) h)
      refl,
  rw
      (
        read-set nodes index (record { payload = payload; label = none }) h,
        write-set nodes index (record { payload = payload; label = none })
            (record { payload = null; label = none }) h,
      )
      refl,
)
