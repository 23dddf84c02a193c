-- ===== src/HashTable/Tests.antt =====
-- The theorems on the hash table at two chains, one of them with two nodes under the same key.
use cmake_template.Prelude.{true, List, ◌≡◌, ◌∷◌, arith, some, refl, [], ◌++◌}
use cmake_template.Core.{Returns, success, ok}
use cmake_template.Text.{Text}
use cmake_template.HashTable.{
  Chain, HashTable, add, lookup, remove, list, rows, find_loop, find_chain,
}
use cmake_template.HashTable.Entries.{Holds, entries, first_or_null}
use cmake_template.HashTable.Laws.{Changed, Removal, add-entries, lookup-entries, remove-entries}

-- The keys "a" and "b"
abbrev key_a : Text
key_a = 97 ∷ []

abbrev key_b : Text
key_b = 98 ∷ []

abbrev rows_of_two : List Chain
rows_of_two =
    [] ∷ (record { key = key_a; payload = 7 } ∷ record { key = key_a; payload = 9 } ∷ []) ∷ []

abbrev two : HashTable
two = record { size = 2; table = some rows_of_two; customfree = 100 }

two-Holds : Holds two rows_of_two
two-Holds = record {
  not_empty = omega arith;
  at = refl;
  size_eq = refl;
  short = (tt, ((omega arith, (omega arith, tt)), tt));
  free_set = omega arith;
}

add-entries_example :
    Returns
      (λ (code, h).
        (code ≡ success)
        × ((t' : HashTable) × (h ≡ some t')
            × Changed two rows_of_two key_b (entries 2 rows_of_two key_b ++ 5 ∷ []) t'))
      (add (some two) 5 (some key_b) true true)
add-entries_example = add-entries two-Holds key_b 5 (omega arith) (omega arith)

lookup-entries_example :
    lookup (some two) (some key_a) ≡ ok (first_or_null (entries 2 rows_of_two key_a))
lookup-entries_example = lookup-entries two-Holds key_a (omega arith)

remove-entries_example : Returns (Removal two-Holds key_a) (remove (some two) (some key_a))
remove-entries_example = remove-entries two-Holds key_a (omega arith)

list_test : list (some two) true ≡ ok (success, some key_a ∷ some key_a ∷ [], 2)
unfolding list rows find_loop find_chain
list_test = refl
