-- ===== src/Vector/Sort/Tests.antt =====
-- Runs of vector_sort with a qsort that swaps two cells where the comparison is positive.
use cmake_template.Prelude.{ℤ, none, some, refl, [], ◌∷◌, ◌≡◌, List, pos, if◌then◌else◌, ltb_ℤ}
use cmake_template.Core.{success, failure, ok, Comparison, CmpF, Ptr, Run}
use cmake_template.Vector.{Vector, Cell}
use cmake_template.Vector.Sort.{sort}

-- A qsort for two cells, at the addresses 100 and 108.
abbrev two_cells : List Cell → ℤ → (Ptr → Ptr → ℤ) → Run (List Cell)
two_cells (a ∷ b ∷ rest) n compare =
    ok (if ltb_ℤ (pos 0) (compare 100 108) then b ∷ a ∷ rest else a ∷ b ∷ rest)
two_cells cells n compare = ok cells

abbrev always : Comparison → CmpF
always c a b = c

abbrev pair : Comparison → Vector
pair c = record {
  elements = some 7 ∷ some 9 ∷ [];
  size = pos 2;
  capacity = 2;
  custom_free = 100;
  compare_func = always c;
}

-- LESS_THAN is 2, which qsort takes for greater.
sort_less :
    sort two_cells (some (pair Comparison.less_than))
    ≡ ok (success, some (record (pair Comparison.less_than) { elements = some 9 ∷ some 7 ∷ [] }))
unfolding sort
sort_less = refl

sort_equal :
    sort two_cells (some (pair Comparison.equal)) ≡ ok (success, some (pair Comparison.equal))
unfolding sort
sort_equal = refl

sort_null : sort two_cells none ≡ ok (failure, none)
unfolding sort
sort_null = refl
