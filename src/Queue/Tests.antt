-- ===== src/Queue/Tests.antt =====
-- The theorems on the queue at a queue of two nodes, at 10 and 20, and at a run of its calls.
use cmake_template.Prelude.{some, List, none, arith, if◌then◌else◌, ◌∷◌, false, [], ◌==◌, ◌≡◌, refl}
use cmake_template.Core.{null, ok, success}
use cmake_template.Queue.{
  init, enqueue_locked, Heap, Queue, enqueue, dequeue, clear, is_empty, is_full,
}
use cmake_template.Queue.Linked.{Cell, Holds, data_of}
use cmake_template.Queue.Calls.{Became}
use cmake_template.Queue.Clear.{clear-data_of}
use cmake_template.Queue.Reach.{Reach, starts, enqueues, dequeues, Fifo}
use cmake_template.Queue.Fifo.{Reach-Fifo}

abbrev heap : Heap
heap p =
    if p == 10
    then some (record { payload = 7; next = 20 })
    else if p == 20
    then some (record { payload = 9; next = null })
    else none

abbrev two : Queue
two = record { current_size = 2; max_size = 4; head = 10; tail = 20; customfree = 100 }

abbrev cells : List Cell
cells = (10, 7) ∷ (20, 9) ∷ []

two-Holds : Holds heap two cells
two-Holds = record {
  linked = (omega arith, refl, (omega arith, tt), (omega arith, refl, tt, tt));
  head_eq = refl;
  tail_eq = refl;
  size_eq = refl;
  free_set = omega arith;
}

clear-data_of_example :
    (heap' : Heap) × (q' : Queue) × (clear heap (some two) false
      ≡ ok (success, heap', some q', data_of cells))
    × Became two [] heap' q'
clear-data_of_example = clear-data_of heap two cells two-Holds (omega arith) false

-- One datum put into a new queue of at most 4, and taken out again.
abbrev empty_heap : Heap
empty_heap p = none

abbrev fresh : Queue
fresh = record { current_size = 0; max_size = 4; head = null; tail = null; customfree = 100 }

abbrev one : Queue
one = record { current_size = 1; max_size = 4; head = 10; tail = 10; customfree = 100 }

abbrev heap_of_one : Heap
heap_of_one p = if p == 10 then some (record { payload = 7; next = null }) else none

abbrev heap_after : Heap
heap_after p = if p == 10 then none else heap_of_one p

put_and_took : Reach 4 (7 ∷ []) (7 ∷ []) heap_after fresh
unfolding init enqueue enqueue_locked dequeue
put_and_took =
    dequeues {put = 7 ∷ []} {took = []} {heap = heap_of_one} {q = one} 7 heap_after fresh false
      (enqueues {put = []} {took = []} {heap = empty_heap} {q = fresh} 7 10 heap_of_one one
        (starts empty_heap fresh 100 100 (omega arith) refl) (omega arith) (omega arith) refl refl)
      (omega arith) refl

Reach-Fifo_example : Fifo 4 (7 ∷ []) (7 ∷ []) heap_after fresh
Reach-Fifo_example = Reach-Fifo (omega arith) (omega arith) put_and_took

getters_test : (is_empty (some two) ≡ ok false) × (is_full (some two) ≡ ok false)
unfolding is_empty is_full
getters_test = (refl, refl)
