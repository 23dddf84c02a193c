-- ===== src/Pool/Tests.antt =====
-- libs/Threading: a thread pool of two workers, and runs of it.
use cmake_template.Prelude.{none, some, true, false, [], ◌∷◌, refl, ◌≡◌, arith, ◌≤◌, List}
use Prim.{tt}
use cmake_template.Core.{success, failure, ok, Ptr, null}
use cmake_template.Queue
use cmake_template.Queue.Calls.{Became, enqueue-snoc, dequeue-head}
use cmake_template.Pool.Steps.{with_task, begin_task_made, queued, end_task-queued}
use cmake_template.Pool.Works.{with_queue, taken_step, empty_step, after_task}
use cmake_template.Queue.{Outcome, waits, done, Queue, Heap, unbounded}
use cmake_template.Queue.Linked.{Holds}
use cmake_template.Pool.{
  destroy, Pool, Grants, Worker, at_test, dequeuing, running, returned, thread_routine, add_task,
  begin_task, begun, joining, ended, broadcast, Task, sleeping, all_returned, thread_pool_shutdown,
  create, created, undone, process_task,
}
use cmake_template.Pool.Reach.{
  System, Later, Starts, Reach, starts, begins, adds, works, signals, here, later, from, put_worker,
  Orderly,
}
use cmake_template.Pool.Shutdown.{thread_routine_ends, distance}

abbrev no_nodes : Heap
no_nodes a = none

abbrev empty_queue : Queue
empty_queue = record {
  current_size = 0;
  max_size = unbounded;
  head = null;
  tail = null;
  customfree = 7;
}

empty_queue-Holds : Holds no_nodes empty_queue []
empty_queue-Holds = record {
  linked = tt;
  head_eq = refl;
  tail_eq = refl;
  size_eq = refl;
  free_set = λ z. omega arith;
}

abbrev plenty : Grants
plenty = record { pool = true; queue = some empty_queue; handles = true; started = 2 }

abbrev fresh : Pool
fresh = record {
  workers = at_test ∷ at_test ∷ [];
  heap = no_nodes;
  task_queue = empty_queue;
  tasks = λ t. none;
  adding = [];
  shutdown = false;
  calls = [];
}

fresh_made : create 2 no_nodes plenty ≡ created fresh
unfolding create
fresh_made = refl

-- Only one of three threads starts, and all three are joined.
one_started : create 3 no_nodes (record plenty { started = 1 }) ≡ undone 1 3
unfolding create
one_started = refl

abbrev sys : List Ptr → List Ptr → List Ptr → Pool → System
sys put took finished p = record { put = put; took = took; finished = finished; pool = p }

fresh-Starts : Starts (sys [] [] [] fresh)
fresh-Starts = starts 2 no_nodes plenty empty_queue fresh refl refl empty_queue-Holds fresh_made

-- The second worker comes to the empty queue, and sleeps.
abbrev entered : Pool
entered = record fresh { workers = at_test ∷ dequeuing ∷ [] }

entered_run : thread_routine fresh at_test ≡ ok (done (dequeuing, fresh))
unfolding thread_routine
entered_run = refl

abbrev asleep : Pool
asleep = record fresh { workers = at_test ∷ sleeping ∷ [] }

asleep-Later : Later 1 (sys [] [] [] fresh) (sys [] [] [] asleep)
asleep-Later =
    later (later here (works (at_test ∷ []) [] at_test dequeuing fresh refl entered_run)) (
      works (at_test ∷ []) [] dequeuing sleeping entered refl
        (empty_step entered empty_queue-Holds))

task_called :
    process_task (some (record { exe_function = 5; arg_free = 6; arg = 8 }))
    ≡ (success, (5, 8) ∷ (6, 8) ∷ [])
unfolding process_task
task_called = refl

no_task : process_task none ≡ (failure, [])
unfolding process_task
no_task = refl

joined :
    thread_pool_shutdown (some (record fresh { workers = returned ∷ returned ∷ [] })) joining
    ≡ done (ended success, some (record fresh { workers = returned ∷ returned ∷ [] }))
unfolding thread_pool_shutdown all_returned
joined = refl

no_pool : thread_pool_shutdown none begun ≡ done (ended failure, none)
unfolding thread_pool_shutdown
no_pool = refl

-- The broadcast of a shutdown wakes a worker that sleeps.
woken :
    thread_pool_shutdown (some asleep) begun
    ≡ done (joining, some (record asleep { workers = at_test ∷ dequeuing ∷ [] }))
unfolding thread_pool_shutdown broadcast
woken = refl

refused_at_shutdown :
    add_task (record fresh { shutdown = true }) 5 6 8 40 50
    ≡ ok (done (failure, record fresh { shutdown = true }))
unfolding add_task begin_task
refused_at_shutdown = refl

-- A thread begins to add a task at 40, and the flag is set.
abbrev begun_pool : Pool
begun_pool = record (with_task asleep 5 6 8 40) { adding = 40 ∷ []; shutdown = true }

begun-Later : Later 1 (sys [] [] [] fresh) (sys [] [] [] begun_pool)
begun-Later =
    later
      (later asleep-Later (
        begins 5 6 8 40 (with_task asleep 5 6 8 40) refl (λ z. omega arith)
          (begin_task_made asleep 5 6 8 40 refl (λ z. omega arith))))
      signals

-- The task comes into the queue all the same, with a node at 50.
put_task :
    (heap' : Heap) × (q' : Queue) × (Queue.enqueue no_nodes (some empty_queue) 40 50
      ≡ ok (done (success, heap', some q')))
    × Became empty_queue ((50, 40) ∷ []) heap' q'
put_task =
    enqueue-snoc no_nodes empty_queue [] 40 50 empty_queue-Holds (λ z. omega arith)
      (λ z. omega arith) refl refl (omega arith)

abbrev loaded : Pool
loaded = record (queued begun_pool 40 put_task.0 put_task.1) { adding = [] }

loaded-Later : Later 1 (sys [] [] [] fresh) (sys (40 ∷ []) [] [] loaded)
loaded-Later = later begun-Later (
    adds [] [] 40 50 (queued begun_pool 40 put_task.0 put_task.1) refl refl (λ z. omega arith)
      (omega arith) (end_task-queued begun_pool 40 50 put_task.0 put_task.1 put_task.2))

loaded-Reach : Reach 1 (sys (40 ∷ []) [] [] loaded)
loaded-Reach = from fresh-Starts loaded-Later

-- The broadcast wakes the worker, which takes the task.
abbrev woken_pool : Pool
woken_pool = record loaded { workers = at_test ∷ dequeuing ∷ [] }

woken_run : thread_pool_shutdown (some loaded) begun ≡ done (joining, some woken_pool)
unfolding thread_pool_shutdown broadcast
woken_run = refl

take_task :
    (heap' : Heap) × (q' : Queue) × (Queue.dequeue loaded.heap (some loaded.task_queue) true
      ≡ ok (done (40, heap', some q')))
    × Became loaded.task_queue [] heap' q'
take_task = dequeue-head loaded.heap loaded.task_queue 50 40 [] true put_task.3.0 (omega arith)

abbrev taken_queue : Pool
taken_queue = with_queue woken_pool take_task.0 take_task.1

abbrev busy : Pool
busy = put_worker taken_queue (at_test ∷ []) (running 40) []

busy-Later : Later 1 (sys (40 ∷ []) [] [] woken_pool) (sys (40 ∷ []) (40 ∷ []) [] busy)
busy-Later = later here (
    works (at_test ∷ []) [] dequeuing (running 40) taken_queue refl
      (taken_step woken_pool 40 take_task.0 take_task.1 (λ z. omega arith) take_task.2))

-- It does the task, and both workers return.
abbrev the_task : Task
the_task = record { exe_function = 5; arg_free = 6; arg = 8 }

abbrev task_done : Pool
task_done = put_worker (after_task busy 40 the_task) (at_test ∷ []) at_test []

abbrev one_left : Pool
one_left = put_worker task_done (at_test ∷ []) returned []

abbrev stopped : Pool
stopped = put_worker one_left [] returned (returned ∷ [])

thread_routine_ends_example :
    (w' : Worker) × (p' : Pool) × (thread_routine busy (running 40) ≡ ok (done (w', p')))
    × (distance w' ≤ 1)
    × (2 ≤ 3)
thread_routine_ends_example =
    thread_routine_ends woken_pool (at_test ∷ []) [] (running 40) (omega arith) loaded-Reach refl
      woken_run busy-Later refl

destroy_waits : destroy (some fresh) ≡ ok waits
unfolding destroy thread_pool_shutdown broadcast all_returned
destroy_waits = refl
