-- ===== src/Vector/Sort.antt =====
-- vector_sort of vector.c, which hands the array to qsort of the C library. qsort is a parameter: it
-- takes the cells, their number and the comparison, and gives the cells back.
mod Tests
use cmake_template.Prelude.{ℤ, none, some, negsuc, List, pos}
use cmake_template.Core.{Comparison, success, failure, Ptr, Run, ExitCode, ok, ◌>>=◌}
use cmake_template.Vector.{Vector, Cell, Handle}

-- The numbers of `comp_rtns_t`, which the cast to VECTOR_CMP shows to qsort.
abbrev pub number_of : Comparison → ℤ
number_of Comparison.error = negsuc 0
number_of Comparison.equal = pos 0
number_of Comparison.greater_than = pos 1
number_of Comparison.less_than = pos 2
number_of Comparison.not_equal = pos 3

-- vector_sort. qsort calls the comparison with the addresses of two cells.
pub sort :
    (qsort : List Cell → ℤ → (Ptr → Ptr → ℤ) → Run (List Cell)) → Handle → Run (ExitCode × Handle)
sort qsort none = ok (failure, none)
sort qsort (some v) = qsort v.elements v.size (λ a b. number_of (v.compare_func a b)) >>= λ cells.
    ok (success, some (record v { elements = cells }))
