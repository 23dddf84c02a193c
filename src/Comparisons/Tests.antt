-- ===== src/Comparisons/Tests.antt =====
-- The theorems on the comparison functions at small arguments.
use cmake_template.Prelude.{pos, negsuc, [], ◌∷◌, ◌≡◌, refl}
use cmake_template.Core.{Comparison}
use cmake_template.Text.{Text}
use cmake_template.Comparisons.{Place, node_ptr_comp}

abbrev here : Place
here = record { row = pos 1; col = pos 2 }

abbrev there : Place
there = record { row = pos 1; col = negsuc 0 }

abbrev a : Text
a = 97 ∷ []

abbrev ab : Text
ab = 97 ∷ 98 ∷ []

node_ptr_test : (node_ptr_comp 10 10 ≡ Comparison.equal) × (node_ptr_comp 0 10 ≡ Comparison.error)
unfolding node_ptr_comp
node_ptr_test = (refl, refl)
