-- ===== src/Pool/Works.antt =====
-- libs/Threading: the steps of the workers, and all steps of a thread pool.
use cmake_template.Prelude.{
  none, some, true, false, [], ◌∷◌, List, ◌≡◌, ◌++◌, ℕ, ap, ◌∙◌, arith, ◌+◌, ◌==◌, sym, length,
  refl, ◌≤◌, Bool, ◌≢◌, if◌then◌else◌, ◌<◌,
}
use mathlib.Core.List.{append_assoc}
use cmake_template.Prelude.Counts.{count, tally}
use cmake_template.Core.{ok, Run, Ptr, null, not_null, ◌>>=◌}
use cmake_template.Queue
use cmake_template.Queue.{Outcome, waits, done, Queue, Heap, unbounded, must_wait}
use cmake_template.Queue.Linked.{Cell, data_of, Holds}
use cmake_template.Queue.Calls.{Became, dequeue_empty}
use cmake_template.Pool.{
  Pool, Worker, at_test, dequeuing, sleeping, running, returned, Task, thread_routine, set_task,
  after_dequeue, process_task, load_task,
}
use cmake_template.Pool.Reach.{Orderly, task_of, tasks_of, put_worker}
use cmake_template.Pool.Steps.{tasks_of-append, count_snoc, set_task_other}

module _ (put took finished : List Ptr) (p : Pool) (before after : List Worker) (w w' : Worker)
    (o : Orderly put took finished p) (stands : p.workers ≡ before ++ w ∷ after) where
  abbrev others : Ptr → ℕ
  others t = count t (tasks_of (before ++ after))

  was : (t : Ptr) → count t (tasks_of p.workers) ≡ count t (task_of w) + others t
  was t = ap (λ l. count t (tasks_of l)) stands ∙ tasks_of-append t before after w

  now : (t : Ptr) → count t (tasks_of (before ++ w' ∷ after)) ≡ count t (task_of w') + others t
  now t = tasks_of-append t before after w'

  -- A worker that has no task before nor after its step.
  pub idle-Orderly :
      task_of w ≡ [] → task_of w' ≡ [] → Orderly put took finished (put_worker p before w' after)
  idle-Orderly none_before none_after =
      let same = λ (t : Ptr).
        now t ∙ ap (λ l. count t l + others t) (none_after ∙ sym none_before) ∙ sym (was t) in
      record {
        cells = o.cells;
        holds = o.holds;
        max_eq = o.max_eq;
        small = o.small;
        order = o.order;
        split = λ t. omega (arith, o.split t, same t);
        once = λ t. omega (arith, o.once t, same t);
        stored = λ t h. o.stored t (omega (arith, same t));
        real = λ t h. o.real t (omega (arith, same t));
      }

order_next :
    (put took waiting cs : List Ptr) (d : Ptr)
    → put ≡ took ++ waiting
    → waiting ≡ d ∷ cs
    → put ≡ (took ++ d ∷ []) ++ cs
order_next put took waiting cs d e f =
    e ∙ ap (λ l. took ++ l) f ∙ sym (append_assoc took (d ∷ []) cs)

-- A worker takes the oldest task.
pub takes-Orderly :
    (put took finished : List Ptr) (p : Pool) (before after : List Worker) (a d : Ptr)
    (cs : List Cell) (heap' : Heap) (q' : Queue) (o : Orderly put took finished p)
    → p.workers ≡ before ++ dequeuing ∷ after
    → o.cells ≡ (a, d) ∷ cs
    → Became p.task_queue cs heap' q'
    → Orderly put
        (took ++ d ∷ [])
        finished
        (put_worker (record p { heap = heap'; task_queue = q' }) before (running d) after)
takes-Orderly put took finished p before after a d cs heap' q' o stands e (holds, max_same, _) =
    let old = was put took finished p before after dequeuing (running d) o stands in
    let new = now put took finished p before after dequeuing (running d) o stands in
    let front = λ (t : Ptr). ap (λ l. count t (data_of l)) e in
    record {
      cells = cs;
      holds = holds;
      max_eq = max_same ∙ o.max_eq;
      small = omega (arith, o.small, ap length e);
      order = order_next put took (data_of o.cells) (data_of cs) d o.order (ap data_of e);
      split = λ t. omega (arith, count_snoc t d took, o.split t, old t, new t);
      once = λ t. omega (arith, o.once t, old t, new t, front t);
      stored = λ t h. o.stored t (omega (arith, old t, new t, front t));
      real = λ t h. o.real t (omega (arith, old t, new t, front t));
    }

not_done :
    (waiting rest d t : ℕ)
    → waiting + (tally d t + rest) ≤ 1
    → 0 < waiting + rest
    → (d == t) ≡ false
not_done waiting rest d t once there = ground arith

-- A worker has done its task.
pub runs-Orderly :
    (put took finished : List Ptr) (p : Pool) (before after : List Worker) (d : Ptr)
    (calls : List (Ptr × Ptr)) (o : Orderly put took finished p)
    → p.workers ≡ before ++ running d ∷ after
    → Orderly put took (finished ++ d ∷ []) (
        put_worker
          (record p { tasks = set_task p.tasks d none; calls = calls })
          before
          at_test
          after)
runs-Orderly put took finished p before after d calls o stands =
    let old = was put took finished p before after (running d) at_test o stands in
    let new = now put took finished p before after (running d) at_test o stands in
    record {
      cells = o.cells;
      holds = o.holds;
      max_eq = o.max_eq;
      small = o.small;
      order = o.order;
      split = λ t. omega (arith, count_snoc t d finished, o.split t, old t, new t);
      once = λ t. omega (arith, o.once t, old t, new t);
      stored = λ t h.
          let other : (d == t) ≡ false =
            not_done (count t (data_of o.cells) + count t p.adding)
              (others put took finished p before after (running d) at_test o stands t) d t
              (omega (arith, o.once t, old t)) (omega (arith, new t)) in
          let (v, at) = o.stored t (omega (arith, old t, new t)) in
          (v, set_task_other p.tasks d t none other ∙ at);
      real = λ t h. o.real t (omega (arith, old t, new t));
    }

abbrev pub idle : Bool → Worker
idle shutdown = if shutdown then returned else dequeuing

pub idle_task : (shutdown : Bool) → task_of (idle shutdown) ≡ []
idle_task true = refl
idle_task false = refl

module _ (p : Pool) where
  pub test_step : thread_routine p at_test ≡ ok (done (idle p.shutdown, p))
  unfolding thread_routine
  test_step = refl

  pub returned_step : thread_routine p returned ≡ ok (done (returned, p))
  unfolding thread_routine
  returned_step = refl

  pub sleeping_step : (w' : Worker) (p' : Pool) → thread_routine p sleeping ≢ ok (done (w', p'))
  unfolding thread_routine
  sleeping_step w' p' e = cc

  -- What the step of a worker with a task leaves.
  abbrev pub after_task : Ptr → Task → Pool
  after_task d t = record p {
    tasks = set_task p.tasks d none;
    calls = p.calls ++ (process_task (some t)).1;
  }

  pub load_at : (d : Ptr) (t : Task) → p.tasks d ≡ some t → load_task p d ≡ ok t
  load_at d t at = ground arith

  pub running_step :
      (d : Ptr) (t : Task)
      → p.tasks d ≡ some t
      → thread_routine p (running d) ≡ ok (done (at_test, after_task d t))
  unfolding thread_routine
  running_step d t at =
      ap (λ (r : Run Task). r >>= λ v. ok (done (at_test, after_task d v))) (load_at d t at)

  abbrev pub with_queue : Heap → Queue → Pool
  with_queue heap' q' = record p { heap = heap'; task_queue = q' }

  pub taken_step :
      (d : Ptr) (heap' : Heap) (q' : Queue)
      → d ≢ null
      → Queue.dequeue p.heap (some p.task_queue) p.shutdown ≡ ok (done (d, heap', some q'))
      → thread_routine p dequeuing ≡ ok (done (running d, with_queue heap' q'))
  unfolding thread_routine after_dequeue
  taken_step d heap' q' real e = rw e (rw (not_null d real) refl)

  pub empty_step :
      Holds p.heap p.task_queue []
      → thread_routine p dequeuing ≡ ok (done (if p.shutdown then at_test else sleeping, p))
  unfolding thread_routine after_dequeue
  empty_step holds = ground (arith, dequeue_empty p.heap p.task_queue p.shutdown holds)
