-- ===== src/LinkedList/Tests.antt =====
-- The theorems on the linked list at a list of two nodes, at 10 and 20.
use cmake_template.Prelude.{
  some, if◌then◌else◌, arith, ◌∷◌, ◌≡◌, ◌++◌, ◌==◌, refl, [], none, ltb, true, false,
}
use cmake_template.Core.{null, CmpF, Comparison, Returns, success, Ptr}
use cmake_template.LinkedList.Memory.{Heap, node}
use cmake_template.LinkedList.Seg.{Cells}
use cmake_template.LinkedList.Header.{ListT, IsList, IsListIn}
use cmake_template.LinkedList.Push.{push_head, push_tail}
use cmake_template.LinkedList.Push.Refine.{Pushed, push_head-cons, push_tail-snoc}
use cmake_template.LinkedList.Pop.{pop_head, pop_tail, remove_node, remove_position}
use cmake_template.LinkedList.Pop.Position.{remove_position_twice}
use cmake_template.LinkedList.Pop.Ends.{Popped, pop_head-tail, pop_tail-init}
use cmake_template.LinkedList.Sort.{list_sort, is_less}
use cmake_template.LinkedList.Sort.Refine.{SortedList, list_sort-SortedList}
use cmake_template.LinkedList.Pop.Unlink.{Removed, remove_node_lem}

abbrev same_address : CmpF
same_address a b = if a == b then Comparison.equal else Comparison.not_equal

abbrev heap : Heap
heap p = if p == 10 then some (node 7 null 20) else if p == 20 then some (node 9 10 null) else none

abbrev two : ListT
two = record { size = 2; head = 10; tail = 20; custom_free = 100; compare_func = same_address }

abbrev cells : Cells
cells = (10, 7) ∷ (20, 9) ∷ []

two-IsList : IsList heap two cells
two-IsList = record {
  chain = (omega arith, refl, refl, (omega arith, refl, refl, tt));
  head = refl;
  tail = refl;
  size = refl;
  word = omega arith;
}

push_head-cons_example :
    Returns (Pushed heap two ((30, 5) ∷ cells)) (push_head (some two) 5 30 heap)
push_head-cons_example =
    push_head-cons 30 5 two-IsList (omega arith) refl (omega arith) (omega arith)

push_tail-snoc_example :
    Returns (Pushed heap two (cells ++ (30, 5) ∷ [])) (push_tail (some two) 5 30 heap)
push_tail-snoc_example =
    push_tail-snoc 30 5 two-IsList (omega arith) refl (omega arith) (omega arith)

pop_head-tail_example : Returns (Popped heap two 10 7 ((20, 9) ∷ [])) (pop_head (some two) heap)
pop_head-tail_example = pop_head-tail heap two 10 7 ((20, 9) ∷ []) two-IsList

pop_tail-init_example : Returns (Popped heap two 20 9 ((10, 7) ∷ [])) (pop_tail (some two) heap)
pop_tail-init_example = pop_tail-init heap two 20 9 ((10, 7) ∷ []) two-IsList

remove_node_lem_example :
    Returns (Removed heap two cells 20 9 ((10, 7) ∷ [])) (remove_node two 20 heap)
remove_node_lem_example = remove_node_lem heap two ((10, 7) ∷ []) [] 20 9 two-IsList (omega arith)

-- Three nodes, at 10, 20 and 40.
abbrev heap_of_three : Heap
heap_of_three p =
    if p == 10
    then some (node 7 null 20)
    else if p == 20
    then some (node 9 10 40)
    else if p == 40
    then some (node 11 20 null)
    else none

abbrev three : ListT
three = record { size = 3; head = 10; tail = 40; custom_free = 100; compare_func = same_address }

three-IsList : IsList heap_of_three three ((10, 7) ∷ (20, 9) ∷ (40, 11) ∷ [])
three-IsList = record {
  chain = (omega arith, refl, refl, (omega arith, refl, refl, (omega arith, refl, refl, tt)));
  head = refl;
  tail = refl;
  size = refl;
  word = omega arith;
}

remove_position_twice_example :
    Returns
      (λ ((code, m, freed), g).
        (code ≡ success) × IsListIn g three m ((10, 7) ∷ (40, 11) ∷ []) × (freed ≡ 9 ∷ 9 ∷ []))
      (remove_position (some three) 1 heap_of_three)
remove_position_twice_example =
    remove_position_twice 10 7 20 9 40 11 [] [] three-IsList (omega arith)

-- The list with a comparison by value, where 9 stands before 7.
abbrev by_value : CmpF
by_value a b =
    if a == b
    then Comparison.equal
    else if ltb a b
    then Comparison.less_than
    else Comparison.greater_than

abbrev falling : Heap
falling p =
    if p == 10 then some (node 9 null 20) else if p == 20 then some (node 7 10 null) else none

abbrev falling_list : ListT
falling_list = record { size = 2; head = 10; tail = 20; custom_free = 100; compare_func = by_value }

abbrev falling_cells : Cells
falling_cells = (10, 9) ∷ (20, 7) ∷ []

falling-IsList : IsList falling falling_list falling_cells
falling-IsList = record {
  chain = (omega arith, refl, refl, (omega arith, refl, refl, tt));
  head = refl;
  tail = refl;
  size = refl;
  word = omega arith;
}

by_value_one_way : (d e : Ptr) → is_less (by_value d e) ≡ true → is_less (by_value e d) ≡ false
by_value_one_way d e h = ground arith

list_sort-SortedList_example :
    Returns (SortedList falling falling_list falling_cells) (list_sort (some falling_list) falling)
list_sort-SortedList_example = list_sort-SortedList falling-IsList by_value_one_way
