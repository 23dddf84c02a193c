-- ===== src/Pool/Steps.antt =====
-- libs/Threading: each step of a thread pool keeps what holds in it.
use cmake_template.Prelude.{
  none, some, true, false, [], ◌∷◌, zero, suc, List, ℕ, replicate, ◌++◌, ◌≡◌, arith, ◌≢◌, refl, ◌+◌,
  ap, ◌==◌, Bool-cases, ◌||◌, inl, inr, ◌<◌, Option, ltb, ltb→lt, ◌^◌, ◌∙◌, ◌≤◌, sym, length,
  length-append,
}
use mathlib.Core.List.{append_assoc}
use cmake_template.Prelude.Counts.{count, tally, count-append, tally_self}
use cmake_template.Core.{
  success, ok, Ptr, null, failure, not_null, ExitCode, succeeded, Run, fault, out_of_fuel, ◌>>=◌,
}
use cmake_template.Queue
use cmake_template.Queue.{Outcome, waits, done, Queue, Heap, unbounded, must_wait}
use cmake_template.Queue.Linked.{Cell, data_of, Holds}
use cmake_template.Queue.Fifo.{data_of-snoc}
use cmake_template.Queue.Calls.{enqueue-snoc, enqueue_refused}
use cmake_template.Pool.{
  Pool, Grants, create, created, Worker, at_test, Task, begin_task, end_task, set_task, broadcast,
  thread_pool_shutdown, begun, joining, dequeuing, sleeping, running, returned, create_task,
  after_enqueue, after_enqueue,
}
use cmake_template.Pool.Reach.{Orderly, task_of, tasks_of}

pub tasks_of-append :
    (t : Ptr) (before after : List Worker) (w : Worker)
    → count t (tasks_of (before ++ w ∷ after))
      ≡ count t (task_of w) + count t (tasks_of (before ++ after))
tasks_of-append t [] after w = count-append t (task_of w) (tasks_of after)
tasks_of-append t (b ∷ before) after w = omega (
  arith,
  count-append t (task_of b) (tasks_of (before ++ w ∷ after)),
  count-append t (task_of b) (tasks_of (before ++ after)),
  tasks_of-append t before after w,
)

tasks_of-replicate : (n : ℕ) → tasks_of (replicate n at_test) ≡ []
tasks_of-replicate zero = refl
tasks_of-replicate (suc n) = tasks_of-replicate n

pub starts-Orderly :
    (thread_count : ℕ) (heap : Heap) (grants : Grants) (q : Queue) (p : Pool)
    → grants.queue ≡ some q
    → q.max_size ≡ unbounded
    → Holds heap q []
    → create thread_count heap grants ≡ created p
    → Orderly [] [] [] p
unfolding create
starts-Orderly thread_count heap grants q p at free holds made =
    let e : record {
      workers = replicate thread_count at_test;
      heap = heap;
      task_queue = q;
      tasks = λ t. none;
      adding = [];
      shutdown = false;
      calls = [];
    }
        ≡ p =
      ground arith in
    let idle = λ (t : Ptr). ap (count t) (tasks_of-replicate thread_count) in
    rw (← e) (record {
      cells = [];
      holds = holds;
      max_eq = free;
      small = omega arith;
      order = refl;
      split = λ t. omega (arith, idle t);
      once = λ t. omega (arith, idle t);
      stored = λ t h. absurd (omega (arith, idle t));
      real = λ t h. absurd (omega (arith, idle t));
    })

module _ (p : Pool) (exe_function arg_free arg address : Ptr) where
  abbrev pub new_task : Task
  new_task = record { exe_function = exe_function; arg_free = arg_free; arg = arg }

  -- A thread has made its task.
  abbrev pub with_task : Pool
  with_task = record p { tasks = set_task p.tasks address (some new_task) }

  create_task_made :
      (exe_function == null) ≡ false
      → address ≢ null
      → create_task p.tasks exe_function arg_free arg address
        ≡ (address, set_task p.tasks address (some new_task))
  unfolding create_task
  create_task_made given real = rw (given, not_null address real) refl

  pub begin_task_made :
      (exe_function == null) || p.shutdown ≡ false
      → address ≢ null
      → begin_task p exe_function arg_free arg address ≡ (address, with_task)
  unfolding begin_task
  begin_task_made h real =
      let given : (exe_function == null) ≡ false = ground arith in
      let open_still : p.shutdown ≡ false = ground arith in
      rw (given, open_still, create_task_made given real) refl

  begin_task_refused :
      (exe_function == null) || p.shutdown ≡ true
      → begin_task p exe_function arg_free arg address ≡ (null, p)
  unfolding begin_task
  begin_task_refused h = ground arith

  -- What stands behind a call that has made its task.
  pub begin_task_run :
      (p' : Pool)
      → address ≢ null
      → begin_task p exe_function arg_free arg address ≡ (address, p')
      → p' ≡ with_task
  begin_task_run p' real ran = elim (Bool-cases ((exe_function == null) || p.shutdown)) [
    | inl refused ↦ let e = begin_task_refused refused in absurd (real cc)
    | inr free ↦ let e = begin_task_made free real in cc
  ]

bind_done :
    (r : Run (ExitCode × Pool)) (e : ExitCode × Pool)
    → (r >>= λ f. ok (done f)) ≡ ok (done e)
    → r ≡ ok e
bind_done (ok f) e ran = cc
bind_done fault e ran = absurd cc
bind_done out_of_fuel e ran = absurd cc

module _ (p : Pool) (task : Ptr) where
  -- The task is in the queue.
  abbrev pub queued : Heap → Queue → Pool
  queued heap' q' = record p { heap = heap'; task_queue = q' }

  pub end_task-queued :
      (node : Ptr) (heap' : Heap) (q' : Queue)
      → Queue.enqueue p.heap (some p.task_queue) task node ≡ ok (done (success, heap', some q'))
      → end_task p task node ≡ ok (done (success, queued heap' q'))
  unfolding end_task after_enqueue
  end_task-queued node heap' q' e = rw e refl

  -- The task is freed.
  abbrev pub dropped : Pool
  dropped = record p { tasks = set_task p.tasks task none }

  pub end_task-dropped : end_task p task null ≡ ok (done (failure, dropped))
  unfolding end_task after_enqueue
  end_task-dropped = rw (enqueue_refused p.heap p.task_queue task) refl

  after_enqueue_kept :
      (end : ExitCode × Heap × Queue.Handle) (e : ExitCode × Pool)
      → after_enqueue p task end ≡ ok e
      → (e.1.workers ≡ p.workers) × (e.1.shutdown ≡ p.shutdown)
  unfolding after_enqueue
  after_enqueue_kept (code, heap, none) e ran = absurd cc
  after_enqueue_kept (code, heap, some q) e ran = elim (Bool-cases (succeeded code)) [
    | inl good ↦ ground arith
    | inr bad ↦ ground arith
  ]

  ends_with :
      (r : Run (Outcome (ExitCode × Heap × Queue.Handle))) (e : ExitCode × Pool)
      → (r >>= λ o. elim o [
        | waits ↦ ok waits
        | done end ↦ after_enqueue p task end >>= λ f. ok (done f)
      ])
        ≡ ok (done e)
      → (e.1.workers ≡ p.workers) × (e.1.shutdown ≡ p.shutdown)
  ends_with fault e ran = absurd cc
  ends_with out_of_fuel e ran = absurd cc
  ends_with (ok waits) e ran = absurd cc
  ends_with (ok (done end)) e ran =
      after_enqueue_kept end e (bind_done (after_enqueue p task end) e ran)

  end_task_kept :
      (node : Ptr) (code : ExitCode) (p' : Pool)
      → end_task p task node ≡ ok (done (code, p'))
      → (p'.workers ≡ p.workers) × (p'.shutdown ≡ p.shutdown)
  unfolding end_task
  end_task_kept node code p' ran =
      ends_with (Queue.enqueue p.heap (some p.task_queue) task node) (code, p') ran

  pub end_task_workers :
      (node : Ptr) (code : ExitCode) (p' : Pool)
      → end_task p task node ≡ ok (done (code, p'))
      → p'.workers ≡ p.workers
  end_task_workers node code p' ran = (end_task_kept node code p' ran).0

  pub end_task_shutdown :
      (node : Ptr) (code : ExitCode) (p' : Pool)
      → end_task p task node ≡ ok (done (code, p'))
      → p'.shutdown ≡ p.shutdown
  end_task_shutdown node code p' ran = (end_task_kept node code p' ran).1

  end_task_run :
      (code : ExitCode) (p1 p2 : Pool) (node : Ptr)
      → end_task p task node ≡ ok (done (code, p1))
      → end_task p task node ≡ ok (done (code, p2))
      → p1 ≡ p2
  end_task_run code p1 p2 node e f = cc

set_task_self :
    (tasks : Ptr → Option Task) (a t : Ptr) (v : Option Task)
    → (a == t) ≡ true
    → set_task tasks a v t ≡ v
set_task_self tasks a t v same = rw same refl

pub set_task_other :
    (tasks : Ptr → Option Task) (a t : Ptr) (v : Option Task)
    → (a == t) ≡ false
    → set_task tasks a v t ≡ tasks t
set_task_other tasks a t v other = rw other refl

-- How often a task is in the queue, with a worker or with a thread that adds it.
abbrev held : Ptr → List Cell → Pool → ℕ
held t cells p = count t (data_of cells) + count t (tasks_of p.workers) + count t p.adding

-- An address that is free is that of no such task.
held_free :
    (put took finished : List Ptr) (p : Pool) (o : Orderly put took finished p) (t : Ptr)
    → p.tasks t ≡ none
    → held t o.cells p ≡ 0
held_free put took finished p o t free = elim (Bool-cases (ltb 0 (held t o.cells p))) [
  | inl there ↦ let (v, at) = o.stored t (ltb→lt 0 _ there) in absurd cc
  | inr none_there ↦ ground arith
]

pub count_snoc : (t a : Ptr) (ps : List Ptr) → count t (ps ++ (a ∷ [])) ≡ count t ps + tally a t
count_snoc t a ps = omega (arith, count-append t ps (a ∷ []))

count_middle : (t a : Ptr) (l r : List Ptr) → count t (l ++ a ∷ r) ≡ tally a t + count t (l ++ r)
count_middle t a l r = omega (arith, count-append t l (a ∷ r), count-append t l r)

length_snoc : (cs : List Cell) (a d : Ptr) → length (cs ++ (a, d) ∷ []) ≡ suc (length cs)
length_snoc cs a d = omega (arith, length-append cs ((a, d) ∷ []))

order_snoc :
    (put took waiting : List Ptr) (a : Ptr)
    → put ≡ took ++ waiting
    → put ++ a ∷ [] ≡ took ++ (waiting ++ a ∷ [])
order_snoc put took waiting a e = ap (λ l. l ++ a ∷ []) e ∙ append_assoc took waiting (a ∷ [])

once_more :
    (before after : ℕ) (t a : Ptr)
    → after ≡ before + tally a t
    → before ≤ 1
    → (a ≡ t → before ≡ 0)
    → after ≤ 1
once_more before after t a e once absent = elim (Bool-cases (a == t)) [
  | inl same ↦ let none_there = absent (ground arith) in ground arith
  | inr other ↦ ground arith
]

not_there : (held t a : ℕ) → held + tally a t ≤ 1 → 0 < held → (a == t) ≡ false
not_there held t a once there = ground arith

pub begins-Orderly :
    (put took finished : List Ptr) (p : Pool) (exe_function arg_free arg address : Ptr) (p' : Pool)
    → Orderly put took finished p
    → p.tasks address ≡ none
    → address ≢ null
    → begin_task p exe_function arg_free arg address ≡ (address, p')
    → Orderly put took finished (record p' { adding = address ∷ p'.adding })
begins-Orderly put took finished p exe_function arg_free arg address p' o unused real ran =
    let e = begin_task_run p exe_function arg_free arg address p' real ran in
    let absent = held_free put took finished p o address unused in
    rw e (record {
      cells = o.cells;
      holds = o.holds;
      max_eq = o.max_eq;
      small = o.small;
      order = o.order;
      split = o.split;
      once = λ t.
          once_more (held t o.cells p) _ t address (omega arith) (o.once t)
            (λ same. ap (λ u. held u o.cells p) (sym same) ∙ absent);
      stored = λ t h. elim (Bool-cases (address == t)) [
        | inl same ↦ (_, set_task_self p.tasks address t _ same)
        | inr other ↦
            let (v, at) = o.stored t (ground arith) in
            (v, set_task_other p.tasks address t _ other ∙ at)
      ];
      real = λ t h. elim (Bool-cases (address == t)) [
        | inl same ↦ let at : address ≡ t = ground arith in rw (← at) real
        | inr other ↦ o.real t (ground arith)
      ];
    })

module _ (put took finished : List Ptr) (p : Pool) (l r : List Ptr) (task : Ptr)
    (o : Orderly put took finished p) (stands : p.adding ≡ l ++ task ∷ r) where
  less : (t : Ptr) → count t p.adding ≡ tally task t + count t (l ++ r)
  less t = ap (count t) stands ∙ count_middle t task l r

  there : 0 < held task o.cells p
  there = omega (arith, less task, tally_self task)

  pub adds-Orderly :
      (peak : ℕ) (node : Ptr) (p' : Pool)
      → peak < 2 ^ 32
      → p.heap node ≡ none
      → node ≢ null
      → suc p.task_queue.current_size ≤ peak
      → end_task p task node ≡ ok (done (success, p'))
      → Orderly (put ++ task ∷ []) took finished (record p' { adding = l ++ r })
  adds-Orderly peak node p' bound free nn room ran =
      let size = o.holds.size_eq in
      let never_full : must_wait p.task_queue ≡ false = ground (arith, o.max_eq) in
      let (heap', q', put_in, (holds, max_same, _)) =
        enqueue-snoc p.heap p.task_queue o.cells task node o.holds (o.real task there) nn free
          never_full (omega arith) in
      let e =
        end_task_run p task success p' (queued p task heap' q') node ran
          (end_task-queued p task node heap' q' put_in) in
      let more = λ (t : Ptr).
        ap (count t) (data_of-snoc o.cells node task) ∙ count_snoc t task (data_of o.cells) in
      rw e (record {
        cells = o.cells ++ (node, task) ∷ [];
        holds = holds;
        max_eq = max_same ∙ o.max_eq;
        small = omega (arith, length_snoc o.cells node task);
        order =
            order_snoc put took (data_of o.cells) task o.order
            ∙ ap (λ l. took ++ l) (sym (data_of-snoc o.cells node task));
        split = o.split;
        once = λ t. omega (arith, more t, less t, o.once t);
        stored = λ t h. o.stored t (omega (arith, more t, less t));
        real = λ t h. o.real t (omega (arith, more t, less t));
      })

  pub fails-Orderly :
      (p' : Pool)
      → end_task p task null ≡ ok (done (failure, p'))
      → Orderly put took finished (record p' { adding = l ++ r })
  fails-Orderly p' ran =
      let e = end_task_run p task failure p' (dropped p task) null ran (end_task-dropped p task) in
      rw e (record {
        cells = o.cells;
        holds = o.holds;
        max_eq = o.max_eq;
        small = o.small;
        order = o.order;
        split = o.split;
        once = λ t. omega (arith, less t, o.once t);
        stored = λ t h.
            let other =
              not_there
                (count t (data_of o.cells) + count t (tasks_of p.workers) + count t (l ++ r)) t task
                (omega (arith, less t, o.once t)) h in
            let (v, at) = o.stored t (omega (arith, less t)) in
            (v, set_task_other p.tasks task t none other ∙ at);
        real = λ t h. o.real t (omega (arith, less t));
      })

tasks_of-broadcast : (workers : List Worker) → tasks_of (broadcast workers) ≡ tasks_of workers
unfolding broadcast
tasks_of-broadcast [] = refl
tasks_of-broadcast (at_test ∷ workers) = tasks_of-broadcast workers
tasks_of-broadcast (dequeuing ∷ workers) = tasks_of-broadcast workers
tasks_of-broadcast (sleeping ∷ workers) = tasks_of-broadcast workers
tasks_of-broadcast (running t ∷ workers) = ap (λ l. t ∷ l) (tasks_of-broadcast workers)
tasks_of-broadcast (returned ∷ workers) = tasks_of-broadcast workers

pub broadcast_run :
    (p p' : Pool)
    → thread_pool_shutdown (some p) begun ≡ done (joining, some p')
    → p' ≡ record p { workers = broadcast p.workers }
unfolding thread_pool_shutdown
broadcast_run p p' e = cc

pub broadcasts-Orderly :
    (put took finished : List Ptr) (p p' : Pool)
    → Orderly put took finished p
    → thread_pool_shutdown (some p) begun ≡ done (joining, some p')
    → Orderly put took finished p'
broadcasts-Orderly put took finished p p' o ran =
    let same = λ (t : Ptr). ap (count t) (tasks_of-broadcast p.workers) in
    rw (broadcast_run p p' ran) (record {
      cells = o.cells;
      holds = o.holds;
      max_eq = o.max_eq;
      small = o.small;
      order = o.order;
      split = λ t. omega (arith, o.split t, same t);
      once = λ t. omega (arith, o.once t, same t);
      stored = λ t h. o.stored t (omega (arith, same t));
      real = λ t h. o.real t (omega (arith, same t));
    })
