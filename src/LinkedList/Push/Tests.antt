-- ===== src/LinkedList/Push/Tests.antt =====
-- Runs of the insertions on a list of three nodes and on a new list.
use cmake_template.Prelude.{some, refl, if◌then◌else◌, ◌==◌, ◌≡◌, none, true}
use cmake_template.Core.{null, CmpF, Comparison, Returns, success}
use cmake_template.LinkedList.Memory.{Heap, node, load, set_next, set_prev, node_new}
use cmake_template.LinkedList.Header.{ListT}
use cmake_template.LinkedList.Push.{
  walk, insert_behind, count_new, list_new, establish, push_head, push_position,
}

abbrev same_address : CmpF
same_address a b = if a == b then Comparison.equal else Comparison.not_equal

-- Three nodes, at 10, 20 and 30.
abbrev heap3 : Heap
heap3 p =
    if p == 10
    then some (node 7 null 20)
    else if p == 20
    then some (node 9 10 30)
    else if p == 30
    then some (node 11 20 null)
    else none

abbrev three : ListT
three = record { size = 3; head = 10; tail = 30; custom_free = 100; compare_func = same_address }

-- A new node goes behind the node in front of its position.
push_position_test :
    Returns
      (λ ((code, m), g).
        (code ≡ success)
        × (g 20 ≡ some (node 9 10 40))
        × (g 40 ≡ some (node 13 20 30))
        × (g 30 ≡ some (node 11 40 null)))
      (push_position (some three) 13 2 40 heap3)
unfolding push_position insert_behind node_new walk load set_next set_prev count_new
push_position_test = (refl, refl, refl, refl)

list_new_test :
    Returns
      (λ ((code, m), g). code ≡ success)
      (push_head (list_new 100 same_address true) 7 10 (λ p. none))
unfolding list_new push_head node_new establish load set_next set_prev count_new
list_new_test = refl
