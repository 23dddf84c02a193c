-- ===== src/Vector/Tests.antt =====
-- The theorems on the vector at two elements with room for one more, and at a full vector.
use cmake_template.Prelude.{
  ◌∷◌, if◌then◌else◌, some, ◌≡◌, ◌==◌, [], pos, false, arith, true, inr, refl, none, negsuc,
}
use cmake_template.Core.{CmpF, Comparison, Returns, fault, success}
use cmake_template.Vector.{is_empty, size_of, capacity_of, Vector, insert, remove}
use cmake_template.Vector.Layout.{Layout, Holds, HoldsIn, insert_nth, remove_nth}
use cmake_template.Vector.Insert.{Inserted, grown, insert-insert_nth}
use cmake_template.Vector.Remove.{remove-remove_nth, remove_overruns}
use cmake_template.Vector.Loops.{find_all_occurrences}
use cmake_template.Vector.Loops.FindAll.{matches, Found, find_all_occurrences-matches}

abbrev same_address : CmpF
same_address a b = if a == b then Comparison.equal else Comparison.not_equal

abbrev two : Vector
two = record {
  elements = some 7 ∷ some 9 ∷ some 0 ∷ [];
  size = pos 2;
  capacity = 3;
  custom_free = 100;
  compare_func = same_address;
}

abbrev full : Vector
full = record {
  elements = some 7 ∷ some 9 ∷ [];
  size = pos 2;
  capacity = 2;
  custom_free = 100;
  compare_func = same_address;
}

two-Layout : Layout two (7 ∷ 9 ∷ []) (some 0 ∷ [])
two-Layout = record {
  cells = refl;
  size = refl;
  capacity = refl;
  positive = omega arith;
  bound = omega arith;
}

full-Layout : Layout full (7 ∷ 9 ∷ []) []
full-Layout = record {
  cells = refl;
  size = refl;
  capacity = refl;
  positive = omega arith;
  bound = omega arith;
}

two-Holds : Holds two (7 ∷ 9 ∷ [])
two-Holds = (some 0 ∷ [], two-Layout)

full-Holds : Holds full (7 ∷ 9 ∷ [])
full-Holds = ([], full-Layout)

insert-insert_nth_example :
    Returns
      (Inserted (insert_nth (7 ∷ 9 ∷ []) 1 8) (grown full (7 ∷ 9 ∷ [])))
      (insert (some full) 8 (pos 1) true)
insert-insert_nth_example =
    insert-insert_nth 1 8 true full-Holds (omega arith) (omega arith) (inr (refl, omega arith))

remove-remove_nth_example :
    Returns
      (λ (code, h, freed).
        (code ≡ success) × HoldsIn h (remove_nth (7 ∷ 9 ∷ []) 0) × (freed ≡ 7 ∷ []))
      (remove (some two) (pos 0))
remove-remove_nth_example = remove-remove_nth 0 7 two-Holds (omega arith) refl

remove_overruns_example : remove (some full) (pos 0) ≡ fault
remove_overruns_example = remove_overruns 0 full-Layout (omega arith)

find_all_occurrences-matches_example :
    Returns
      (λ (h, source, freed).
        Found (matches same_address 9 (7 ∷ 9 ∷ [])) h × (source ≡ some two) × (freed ≡ []))
      (find_all_occurrences (some two) 9 true true true)
find_all_occurrences-matches_example =
    find_all_occurrences-matches 9 true two-Holds (omega arith, (omega arith, tt)) (omega arith)
      (omega arith) (omega arith)

getters_test :
    (is_empty (some two) ≡ false) × (size_of (some two) ≡ pos 2) × (capacity_of none ≡ negsuc 0)
unfolding is_empty size_of capacity_of
getters_test = (refl, refl, refl)
