-- ===== src/LinkedList/Select/Tests.antt =====
-- Runs of list_find_all_occurrences and list_pick_random_item on a list of three nodes.
use cmake_template.Prelude.{some, none, refl, ◌≡◌, [], ◌∷◌, true, if◌then◌else◌, ◌==◌}
use cmake_template.Core.{null, CmpF, Comparison, Returns, success, failure}
use cmake_template.LinkedList.Memory.{Heap, node, load, set_next, set_prev, node_new, release}
use cmake_template.LinkedList.Header.{ListT}
use cmake_template.LinkedList.Push.{list_new, push_head, establish, prepend, count_new}
use cmake_template.LinkedList.Clear.{clear_loop, clear, delete}
use cmake_template.LinkedList.Select.{
  give_up, occurrences_loop, find_all_occurrences, walk_to, pick_random_item,
}

abbrev same_address : CmpF
same_address a b = if a == b then Comparison.equal else Comparison.not_equal

-- Nodes at 10, 20 and 30 with the data 7, 9 and 7.
abbrev repeated : Heap
repeated p =
    if p == 10
    then some (node 7 null 20)
    else if p == 20
    then some (node 9 10 30)
    else if p == 30
    then some (node 7 20 null)
    else none

abbrev three : ListT
three = record { size = 3; head = 10; tail = 30; custom_free = 100; compare_func = same_address }

find_all_occurrences_test :
    Returns
      (λ ((m, freed), g).
        (m ≡ some (record three { size = 2; head = 50; tail = 40 })) × (freed ≡ []))
      (find_all_occurrences (some three) 7 true (40 ∷ 50 ∷ []) repeated)
unfolding find_all_occurrences occurrences_loop list_new push_head establish prepend count_new
    node_new load set_next set_prev
find_all_occurrences_test = (refl, refl)

-- Where the second push fails, the data that the list still holds are handed to `custom_free`.
find_all_occurrences_refused :
    Returns
      (λ ((m, freed), g). (m ≡ none) × (freed ≡ 7 ∷ []) × (g 10 ≡ some (node 7 null 20)))
      (find_all_occurrences (some three) 7 true (40 ∷ []) repeated)
unfolding find_all_occurrences occurrences_loop give_up list_new push_head establish count_new
    node_new load set_next set_prev delete clear clear_loop release
find_all_occurrences_refused = (refl, refl, refl)

pick_random_item_test :
    Returns (λ (d, g). d ≡ 9) (pick_random_item (some three) (λ low high. (success, 1)) repeated)
    × Returns
        (λ (d, g). d ≡ null)
        (pick_random_item (some three) (λ low high. (failure, 1)) repeated)
unfolding pick_random_item walk_to load
pick_random_item_test = (refl, refl)
