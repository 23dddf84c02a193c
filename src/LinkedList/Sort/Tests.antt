-- ===== src/LinkedList/Sort/Tests.antt =====
-- A run of list_sort on a list of three nodes.
use cmake_template.Prelude.{some, none, refl, ◌≡◌, if◌then◌else◌, ◌==◌, ltb}
use cmake_template.Core.{null, CmpF, Comparison, Returns, success}
use cmake_template.LinkedList.Memory.{Heap, node, load, set_next, set_prev}
use cmake_template.LinkedList.Header.{ListT}
use cmake_template.LinkedList.Sort.{
  advance, split_loop, split, link_front, merge, merge_sort, list_sort,
}

abbrev by_value : CmpF
by_value a b =
    if a == b
    then Comparison.equal
    else if ltb a b
    then Comparison.less_than
    else Comparison.greater_than

-- Nodes at 10, 20 and 30 with the data 8, 5 and 9.
abbrev unsorted : Heap
unsorted p =
    if p == 10
    then some (node 8 null 20)
    else if p == 20
    then some (node 5 10 30)
    else if p == 30
    then some (node 9 20 null)
    else none

abbrev three : ListT
three = record { size = 3; head = 10; tail = 30; custom_free = 100; compare_func = by_value }

list_sort_test :
    Returns
      (λ ((code, m), g).
        (code ≡ success)
        × (m ≡ some (record three { head = 20 }))
        × (g 20 ≡ some (node 5 null 10))
        × (g 10 ≡ some (node 8 20 30))
        × (g 30 ≡ some (node 9 10 null)))
      (list_sort (some three) unsorted)
unfolding list_sort merge_sort split split_loop advance merge link_front load set_next set_prev
list_sort_test = (refl, refl, refl, refl, refl)
