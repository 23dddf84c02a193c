-- ===== src/Pool.antt =====
-- libs/Threading: thread_pool.c, on the queue of queue.c. A worker thread is where it stands in
-- thread_routine; a task is at an address, and the caller's functions are addresses. What they are
-- called with is logged.
pub mod Reach
pub mod Steps
pub mod Works
pub mod Orderly
pub mod Shutdown
mod Tests
use cmake_template.Prelude.{
  none, some, true, false, [], ◌∷◌, zero, suc, Option, Bool, if◌then◌else◌, ℕ, List, ◌++◌, ltb,
  ◌==◌, not, replicate,
}
use cmake_template.Core.{
  ExitCode, failure, success, eof, null_pointer, connection_closed, ok, fault, out_of_fuel, Run,
  Ptr, null, ◌>>=◌, succeeded,
}
use cmake_template.Queue
use cmake_template.Queue.{Outcome, waits, done, Queue, Heap}

-- MIN_THREADS
abbrev pub min_threads : ℕ
min_threads = 2

-- `task_t`; `arg_free` is `null` if there is none.
pub record Task : Type 0 where
  pub exe_function : Ptr
  pub arg_free : Ptr
  pub arg : Ptr

-- A worker is at the test of its loop, before the mutex in queue_dequeue, in pthread_cond_wait there, in
-- process_task with a task, or has returned.
pub data Worker : Type 0 where
  at_test dequeuing sleeping : Worker
  running : Ptr → Worker
  returned : Worker

-- `thread_pool_t` with the queue's nodes, the tasks that are allocated, those of threads that are
-- in thread_pool_add_task between create_task and queue_enqueue, `signal_flag == SHUTDOWN`, and the
-- calls of the callers' functions so far, each with its argument.
pub record Pool : Type 0 where
  pub workers : List Worker
  pub heap : Heap
  pub task_queue : Queue
  pub tasks : Ptr → Option Task
  pub adding : List Ptr
  pub shutdown : Bool
  pub calls : List (Ptr × Ptr)

-- The memory and the threads that thread_pool_create gets; `started` is the number of calls of
-- pthread_create that succeed.
pub record Grants : Type 0 where
  pub pool : Bool
  pub queue : Option Queue
  pub handles : Bool
  pub started : ℕ

-- How thread_pool_create ends: with NULL, with a pool, or with a pool of which only some threads were
-- started and which it shuts down and destroys; it joins all `thread_count` of them.
pub data Created : Type 0 where
  refused : Created
  created : Pool → Created
  undone : ℕ → ℕ → Created

-- thread_pool_create
pub create : ℕ → Heap → Grants → Created
create thread_count heap grants =
    if ltb thread_count min_threads
    then refused
    else if not grants.pool
    then refused
    else elim grants.queue [
      | none ↦ refused
      | some q ↦
          if not grants.handles
          then refused
          else if ltb grants.started thread_count
          then undone grants.started thread_count
          else created (record {
            workers = replicate thread_count at_test;
            heap = heap;
            task_queue = q;
            tasks = λ t. none;
            adding = [];
            shutdown = false;
            calls = [];
          })
    ]

abbrev pub set_task : (Ptr → Option Task) → Ptr → Option Task → Ptr → Option Task
set_task tasks t v u = if t == u then v else tasks u

-- create_task; `address` is what calloc returns.
pub create_task : (Ptr → Option Task) → Ptr → Ptr → Ptr → Ptr → Ptr × (Ptr → Option Task)
create_task tasks exe_function arg_free arg address =
    if exe_function == null then (null, tasks) else if address == null then (null, tasks) else (
      address,
      set_task tasks address
          (some (record { exe_function = exe_function; arg_free = arg_free; arg = arg })),
    )

-- thread_pool_add_task up to queue_enqueue: the new task, or NULL where the call fails. `address` is
-- what calloc returns.
pub begin_task : Pool → Ptr → Ptr → Ptr → Ptr → Ptr × Pool
begin_task p exe_function arg_free arg address =
    if exe_function == null
    then (null, p)
    else if p.shutdown
    then (null, p)
    else let (task, tasks) = create_task p.tasks exe_function arg_free arg address in
      (task, record p { tasks = tasks })

-- What queue_enqueue has done to the pool; on a failure the task is freed.
pub after_enqueue : Pool → Ptr → ExitCode × Heap × Queue.Handle → Run (ExitCode × Pool)
after_enqueue p task (code, heap, none) = fault
after_enqueue p task (code, heap, some q) =
    if succeeded code
    then ok (success, record p { heap = heap; task_queue = q })
    else ok (code, record p { heap = heap; task_queue = q; tasks = set_task p.tasks task none })

-- thread_pool_add_task from queue_enqueue on; `node` is what calloc returns for the node of the queue.
pub end_task : Pool → Ptr → Ptr → Run (Outcome (ExitCode × Pool))
end_task p task node = Queue.enqueue p.heap (some p.task_queue) task node >>= λ r. elim r [
  | waits ↦ ok waits
  | done end ↦ after_enqueue p task end >>= λ e. ok (done e)
]

-- thread_pool_add_task, where no other thread makes a step between its two parts.
pub add_task : Pool → Ptr → Ptr → Ptr → Ptr → Ptr → Run (Outcome (ExitCode × Pool))
add_task p exe_function arg_free arg address node =
    let (task, begun) = begin_task p exe_function arg_free arg address in
    if task == null then ok (done (failure, begun)) else end_task begun task node

-- process_task, with its calls of the caller's functions.
pub process_task : Option Task → ExitCode × List (Ptr × Ptr)
process_task none = (failure, [])
process_task (some t) = if t.exe_function == null then (failure, []) else (
  success,
  (t.exe_function, t.arg) ∷ (if t.arg_free == null then [] else (t.arg_free, t.arg) ∷ []),
)

abbrev pub load_task : Pool → Ptr → Run Task
load_task p t = elim (p.tasks t) [ none ↦ fault | some v ↦ ok v ]

-- What queue_dequeue has done to the pool, and where the worker is then.
pub after_dequeue : Pool → Ptr × Heap × Queue.Handle → Run (Worker × Pool)
after_dequeue p (task, heap, none) = fault
after_dequeue p (task, heap, some q) =
    ok (if task == null then at_test else running task, record p { heap = heap; task_queue = q })

-- A step of thread_routine. A worker that finds the queue empty goes into pthread_cond_wait, and stays
-- there until it is woken.
pub thread_routine : Pool → Worker → Run (Outcome (Worker × Pool))
thread_routine p at_test = ok (done (if p.shutdown then returned else dequeuing, p))
thread_routine p dequeuing = Queue.dequeue p.heap (some p.task_queue) p.shutdown >>= λ r. elim r [
  | waits ↦ ok (done (sleeping, p))
  | done end ↦ after_dequeue p end >>= λ e. ok (done e)
]
thread_routine p sleeping = ok waits
thread_routine p (running task) = load_task p task >>= λ t. ok (
    done (
      at_test,
      record p { tasks = set_task p.tasks task none; calls = p.calls ++ (process_task (some t)).1 },
    ))
thread_routine p returned = ok (done (returned, p))

-- pthread_cond_broadcast on not_empty: a worker that waits goes on to the mutex.
abbrev pub wake : Worker → Worker
wake at_test = at_test
wake dequeuing = dequeuing
wake sleeping = dequeuing
wake (running t) = running t
wake returned = returned

pub broadcast : List Worker → List Worker
broadcast [] = []
broadcast (w ∷ workers) = wake w ∷ broadcast workers

-- The joins end once every worker has returned.
pub all_returned : List Worker → Bool
all_returned [] = true
all_returned (at_test ∷ workers) = false
all_returned (dequeuing ∷ workers) = false
all_returned (sleeping ∷ workers) = false
all_returned (running t ∷ workers) = false
all_returned (returned ∷ workers) = all_returned workers

-- How far a call of thread_pool_shutdown has come: before its broadcast, in its joins, or at its end.
pub data Call : Type 0 where
  begun joining : Call
  ended : ExitCode → Call

-- A step of thread_pool_shutdown.
pub thread_pool_shutdown : Option Pool → Call → Outcome (Call × Option Pool)
thread_pool_shutdown none begun = done (ended failure, none)
thread_pool_shutdown (some p) begun =
    done (joining, some (record p { workers = broadcast p.workers }))
thread_pool_shutdown none joining = done (ended failure, none)
thread_pool_shutdown (some p) joining =
    if all_returned p.workers then done (ended success, some p) else waits
thread_pool_shutdown p (ended code) = done (ended code, p)

-- The rest of thread_pool_destroy, behind thread_pool_shutdown.
abbrev pub after_shutdown : Call × Option Pool → Run (Outcome (ExitCode × Option Pool × List Ptr))
after_shutdown (call, none) = ok (done (failure, none, []))
after_shutdown (call, some p) =
    Queue.destroy p.heap (some p.task_queue) p.shutdown >>= λ end. ok (done (success, none, end.2))

-- thread_pool_destroy, which leaves NULL in the handle, where no other thread makes a step between the
-- broadcast of its thread_pool_shutdown and the joins. The tasks that are left in the queue are handed to
-- free.
pub destroy : Option Pool → Run (Outcome (ExitCode × Option Pool × List Ptr))
destroy none = ok (done (failure, none, []))
destroy (some p) = elim (thread_pool_shutdown (some p) begun) [
  | waits ↦ ok waits
  | done (call, woken) ↦ elim (thread_pool_shutdown woken call) [
    | waits ↦ ok waits
    | done end ↦ after_shutdown end
  ]
]
