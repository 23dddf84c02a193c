-- ===== src/LinkedList/Pop/Tests.antt =====
-- Runs of the removals on a list of three nodes.
use cmake_template.Prelude.{some, refl, if◌then◌else◌, ◌==◌, ◌≡◌, none, ◌∷◌, []}
use cmake_template.Core.{null, CmpF, Comparison, Returns, success}
use cmake_template.LinkedList.Memory.{Heap, node, load, set_next, set_prev, release}
use cmake_template.LinkedList.Header.{ListT}
use cmake_template.LinkedList.Push.{walk}
use cmake_template.LinkedList.Pop.{
  pop_head, pop_tail, pop_position, pop_between, remove_head, remove_tail, remove_position,
}

abbrev same_address : CmpF
same_address a b = if a == b then Comparison.equal else Comparison.not_equal

-- Three nodes, at 10, 20 and 30.
abbrev heap3 : Heap
heap3 p =
    if p == 10
    then some (node 7 null 20)
    else if p == 20
    then some (node 9 10 30)
    else if p == 30
    then some (node 11 20 null)
    else none

abbrev three : ListT
three = record { size = 3; head = 10; tail = 30; custom_free = 100; compare_func = same_address }

-- The data of a node between the ends is handed to `custom_free` twice.
remove_position_test :
    Returns
      (λ ((code, m, freed), g). (code ≡ success) × (freed ≡ 9 ∷ 9 ∷ []))
      (remove_position (some three) 1 heap3)
unfolding remove_position pop_position pop_between walk load set_next set_prev release
remove_position_test = (refl, refl)

remove_ends_test :
    Returns (λ ((code, m, freed), g). freed ≡ 7 ∷ []) (remove_head (some three) heap3)
    × Returns (λ ((code, m, freed), g). freed ≡ 11 ∷ []) (remove_tail (some three) heap3)
unfolding remove_head remove_tail pop_head pop_tail load set_next set_prev release
remove_ends_test = (refl, refl)
