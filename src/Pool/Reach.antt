-- ===== src/Pool/Reach.antt =====
-- libs/Threading: the states that a thread pool goes through, and what holds in each of them.
use cmake_template.Prelude.{
  none, some, true, [], ◌∷◌, suc, List, ◌++◌, ◌≡◌, ℕ, ◌≢◌, length, ◌<◌, ◌^◌, ◌+◌, ◌≤◌,
}
use cmake_template.Prelude.Counts.{count}
use cmake_template.Core.{success, ok, Ptr, null, failure}
use cmake_template.Queue.{done, Queue, Heap, unbounded}
use cmake_template.Queue.Linked.{Cell, data_of, Holds}
use cmake_template.Pool.{
  Pool, Grants, create, created, Worker, at_test, dequeuing, sleeping, running, returned, Task,
  thread_routine, begin_task, end_task, thread_pool_shutdown, begun, joining,
}

-- The task with which a worker is in process_task.
abbrev pub task_of : Worker → List Ptr
task_of at_test = []
task_of dequeuing = []
task_of sleeping = []
task_of (running t) = t ∷ []
task_of returned = []

abbrev pub tasks_of : List Worker → List Ptr
tasks_of [] = []
tasks_of (w ∷ workers) = task_of w ++ tasks_of workers

-- A task that a step of a worker takes out of the queue, and one that it has done.
abbrev pub taken : Worker → Worker → List Ptr
taken dequeuing w = task_of w
taken at_test w = []
taken sleeping w = []
taken (running t) w = []
taken returned w = []

abbrev pub put_worker : Pool → List Worker → Worker → List Worker → Pool
put_worker p before w after = record p { workers = before ++ w ∷ after }

-- A pool with what has happened to its tasks: `put` are those that thread_pool_add_task has accepted,
-- `took` those that workers have taken and `finished` those that they have done, in the order of the
-- steps.
pub record System : Type 0 where
  pub put : List Ptr
  pub took : List Ptr
  pub finished : List Ptr
  pub pool : Pool

-- A step of any thread. `peak` is the largest number of tasks that ever wait in the queue.
pub data Step (peak : ℕ) (s : System) : System → Type 0 where
  -- Another thread calls thread_pool_add_task, up to queue_enqueue, with a task at a free address.
  begins :
      (exe_function arg_free arg address : Ptr) (p' : Pool)
      → s.pool.tasks address ≡ none
      → address ≢ null
      → begin_task s.pool exe_function arg_free arg address ≡ (address, p')
      → Step peak s (record s { pool = record p' { adding = address ∷ p'.adding } })
  -- One of these threads puts its task in the queue, with a node at a free address.
  adds :
      (l r : List Ptr) (task node : Ptr) (p' : Pool)
      → s.pool.adding ≡ l ++ task ∷ r
      → s.pool.heap node ≡ none
      → node ≢ null
      → suc s.pool.task_queue.current_size ≤ peak
      → end_task s.pool task node ≡ ok (done (success, p'))
      → Step peak s (record s { put = s.put ++ task ∷ []; pool = record p' { adding = l ++ r } })
  -- One of these threads gets no memory for a node.
  fails :
      (l r : List Ptr) (task : Ptr) (p' : Pool)
      → s.pool.adding ≡ l ++ task ∷ r
      → end_task s.pool task null ≡ ok (done (failure, p'))
      → Step peak s (record s { pool = record p' { adding = l ++ r } })
  -- A worker makes a step.
  works :
      (before after : List Worker) (w w' : Worker) (p' : Pool)
      → s.pool.workers ≡ before ++ w ∷ after
      → thread_routine s.pool w ≡ ok (done (w', p'))
      → Step peak s (record {
        put = s.put;
        took = s.took ++ taken w w';
        finished = s.finished ++ task_of w;
        pool = put_worker p' before w' after;
      })
  -- A worker in pthread_cond_wait wakes up: by the signal of queue_enqueue, or by itself.
  wakes :
      (before after : List Worker)
      → s.pool.workers ≡ before ++ sleeping ∷ after
      → Step peak s (record s { pool = put_worker s.pool before dequeuing after })
  -- A thread makes the broadcast of thread_pool_shutdown.
  broadcasts :
      (p' : Pool)
      → thread_pool_shutdown (some s.pool) begun ≡ done (joining, some p')
      → Step peak s (record s { pool = p' })
  -- A signal handler sets the flag.
  signals : Step peak s (record s { pool = record s.pool { shutdown = true } })

-- Any steps, in any order.
pub data Later (peak : ℕ) (s : System) : System → Type 0 where
  here : Later peak s s
  later : {t u : System} → Later peak s t → Step peak t u → Later peak s u

-- A pool that thread_pool_create has just made, with an empty queue without a bound.
pub data Starts : System → Type 0 where
  starts :
      (thread_count : ℕ) (heap : Heap) (grants : Grants) (q : Queue) (p : Pool)
      → grants.queue ≡ some q
      → q.max_size ≡ unbounded
      → Holds heap q []
      → create thread_count heap grants ≡ created p
      → Starts (record { put = []; took = []; finished = []; pool = p })

-- The states that a pool goes through.
pub data Reach (peak : ℕ) (t : System) : Type 0 where
  from : {s : System} → Starts s → Later peak s t → Reach peak t

-- What holds between two steps: the queue holds the tasks that are put and not taken, in their order;
-- the taken ones are those that are done or with a worker; and a task in the queue, with a worker or
-- with a thread that adds it is allocated, and is there once.
pub record Orderly (put took finished : List Ptr) (p : Pool) : Type 0 where
  pub cells : List Cell
  pub holds : Holds p.heap p.task_queue cells
  pub max_eq : p.task_queue.max_size ≡ unbounded
  pub small : length cells < 2 ^ 32
  pub order : put ≡ took ++ data_of cells
  pub split : (t : Ptr) → count t took ≡ count t finished + count t (tasks_of p.workers)
  pub once :
      (t : Ptr) → count t (data_of cells) + count t (tasks_of p.workers) + count t p.adding ≤ 1
  pub stored :
      (t : Ptr)
      → 0 < count t (data_of cells) + count t (tasks_of p.workers) + count t p.adding
      → (v : Task) × (p.tasks t ≡ some v)
  pub real :
      (t : Ptr)
      → 0 < count t (data_of cells) + count t (tasks_of p.workers) + count t p.adding
      → t ≢ null
