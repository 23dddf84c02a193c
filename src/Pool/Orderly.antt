-- ===== src/Pool/Orderly.antt =====
-- libs/Threading: what holds in every state that a thread pool goes through.
use cmake_template.Prelude.{
  false, true, [], ◌∷◌, ◌≡◌, List, ◌++◌, ◌<◌, arith, ap, length, refl, if◌then◌else◌, ℕ, Bool, ◌^◌,
}
use mathlib.Core.List.{append-nil}
use cmake_template.Prelude.Counts.{count, tally_self}
use cmake_template.Core.{ok, Run, Ptr}
use cmake_template.Queue.{Outcome, done}
use cmake_template.Queue.Linked.{Cell, data_of}
use cmake_template.Queue.Calls.{dequeue-head}
use cmake_template.Pool.{
  Pool, Worker, at_test, dequeuing, sleeping, running, returned, thread_routine, all_returned,
}
use cmake_template.Pool.Reach.{
  System, Step, Later, Starts, Reach, starts, begins, adds, fails, works, wakes, broadcasts,
  signals, here, later, from, Orderly, task_of, tasks_of, taken, put_worker,
}
use cmake_template.Pool.Steps.{
  starts-Orderly, begins-Orderly, adds-Orderly, fails-Orderly, broadcasts-Orderly, tasks_of-append,
}
use cmake_template.Pool.Works.{
  idle-Orderly, takes-Orderly, runs-Orderly, running_step, taken_step, empty_step, idle, idle_task,
  test_step, returned_step, sleeping_step, idle-Orderly,
}

empty_task : (b : Bool) → task_of (if b then at_test else sleeping) ≡ []
empty_task true = refl
empty_task false = refl

-- The result of a step that is known otherwise.
pub step_same :
    {w1 w2 : Worker} {p1 p2 : Pool} {r : Run (Outcome (Worker × Pool))}
    → r ≡ ok (done (w1, p1))
    → r ≡ ok (done (w2, p2))
    → (w1 ≡ w2) × (p1 ≡ p2)
step_same e f = (cc, cc)

module _ (put took finished : List Ptr) (p : Pool) (before after : List Worker)
    (o : Orderly put took finished p) where
  -- The step of a worker with no task, before and after.
  idle_step :
      (w w1 w' : Worker) (p' : Pool)
      → p.workers ≡ before ++ w ∷ after
      → task_of w ≡ []
      → task_of w1 ≡ []
      → taken w w1 ≡ []
      → thread_routine p w ≡ ok (done (w1, p))
      → thread_routine p w ≡ ok (done (w', p'))
      → Orderly put (took ++ taken w w') (finished ++ task_of w) (put_worker p' before w' after)
  idle_step w w1 w' p' stands none_before none_after none_taken step ran =
      let (same_w, same_p) = step_same step ran in
      let kept =
        idle-Orderly put took finished p before after w w1 o stands none_before none_after in
      rw (← same_w, ← same_p, none_taken, none_before, append-nil took, append-nil finished) kept

  running_works :
      (d : Ptr) (w' : Worker) (p' : Pool)
      → p.workers ≡ before ++ running d ∷ after
      → thread_routine p (running d) ≡ ok (done (w', p'))
      → Orderly put (took ++ []) (finished ++ d ∷ []) (put_worker p' before w' after)
  running_works d w' p' stands ran =
      let there : 0 < count d (tasks_of p.workers) = omega (
        arith,
        ap (λ l. count d (tasks_of l)) stands,
        tasks_of-append d before after (running d),
        tally_self d,
      ) in
      let (t, at) = o.stored d (omega arith) in
      let (same_w, same_p) = step_same (running_step p d t at) ran in
      rw (← same_w, ← same_p, append-nil took)
        (runs-Orderly put took finished p before after d _ o stands)

  -- The queue of a worker that dequeues has a first task, or none.
  dequeuing_works :
      (cells : List Cell) (w' : Worker) (p' : Pool)
      → o.cells ≡ cells
      → p.workers ≡ before ++ dequeuing ∷ after
      → thread_routine p dequeuing ≡ ok (done (w', p'))
      → Orderly put (took ++ task_of w') (finished ++ []) (put_worker p' before w' after)
  dequeuing_works [] w' p' e stands ran =
      idle_step dequeuing (if p.shutdown then at_test else sleeping) w' p' stands refl
        (empty_task p.shutdown) (empty_task p.shutdown) (empty_step p (rw e at o.holds)) ran
  dequeuing_works ((a, d) ∷ cs) w' p' e stands ran =
      let front : 0 < count d (data_of o.cells) =
        omega (arith, ap (λ l. count d (data_of l)) e, tally_self d) in
      let real = o.real d (omega arith) in
      let (heap', q', taken_out, became) =
        dequeue-head p.heap p.task_queue a d cs p.shutdown (rw e at o.holds)
          (omega (arith, o.small, ap length e)) in
      let (same_w, same_p) = step_same (taken_step p d heap' q' real taken_out) ran in
      rw (← same_w, ← same_p, append-nil finished)
        (takes-Orderly put took finished p before after a d cs heap' q' o stands e became)

  works-Orderly :
      (w w' : Worker) (p' : Pool)
      → p.workers ≡ before ++ w ∷ after
      → thread_routine p w ≡ ok (done (w', p'))
      → Orderly put (took ++ taken w w') (finished ++ task_of w) (put_worker p' before w' after)
  works-Orderly at_test w' p' stands ran =
      idle_step at_test (idle p.shutdown) w' p' stands refl (idle_task p.shutdown) refl
        (test_step p) ran
  works-Orderly dequeuing w' p' stands ran = dequeuing_works o.cells w' p' refl stands ran
  works-Orderly sleeping w' p' stands ran = absurd (sleeping_step p w' p' ran)
  works-Orderly (running d) w' p' stands ran = running_works d w' p' stands ran
  works-Orderly returned w' p' stands ran =
      idle_step returned returned w' p' stands refl refl refl (returned_step p) ran

signals-Orderly :
    (put took finished : List Ptr) (p : Pool)
    → Orderly put took finished p
    → Orderly put took finished (record p { shutdown = true })
signals-Orderly put took finished p o = record {
  cells = o.cells;
  holds = o.holds;
  max_eq = o.max_eq;
  small = o.small;
  order = o.order;
  split = o.split;
  once = o.once;
  stored = o.stored;
  real = o.real;
}

pub wakes-Orderly :
    (put took finished : List Ptr) (p : Pool) (before after : List Worker)
    → Orderly put took finished p
    → p.workers ≡ before ++ sleeping ∷ after
    → Orderly put took finished (put_worker p before dequeuing after)
wakes-Orderly put took finished p before after o stands =
    idle-Orderly put took finished p before after sleeping dequeuing o stands refl refl

abbrev pub OrderlySystem : System → Type 0
OrderlySystem s = Orderly s.put s.took s.finished s.pool

pub Step-Orderly :
    {peak : ℕ} {s t : System} → peak < 2 ^ 32 → Step peak s t → OrderlySystem s → OrderlySystem t
Step-Orderly {s = s} bound (begins exe_function arg_free arg address p' unused real ran) o =
    begins-Orderly s.put s.took s.finished s.pool exe_function arg_free arg address p' o unused real
      ran
Step-Orderly {peak} {s = s} bound (adds l r task node p' stands free nn room ran) o =
    adds-Orderly s.put s.took s.finished s.pool l r task o stands peak node p' bound free nn room
      ran
Step-Orderly {s = s} bound (fails l r task p' stands ran) o =
    fails-Orderly s.put s.took s.finished s.pool l r task o stands p' ran
Step-Orderly {s = s} bound (works front behind w w' p' stands ran) o =
    works-Orderly s.put s.took s.finished s.pool front behind o w w' p' stands ran
Step-Orderly {s = s} bound (wakes front behind stands) o =
    wakes-Orderly s.put s.took s.finished s.pool front behind o stands
Step-Orderly {s = s} bound (broadcasts p' ran) o =
    broadcasts-Orderly s.put s.took s.finished s.pool p' o ran
Step-Orderly {s = s} bound signals o = signals-Orderly s.put s.took s.finished s.pool o

pub Later-Orderly :
    {peak : ℕ} {s t : System} → peak < 2 ^ 32 → OrderlySystem s → Later peak s t → OrderlySystem t
Later-Orderly bound o here = o
Later-Orderly bound o (later before step) = Step-Orderly bound step (Later-Orderly bound o before)

Starts-Orderly : {s : System} → Starts s → OrderlySystem s
Starts-Orderly (starts thread_count heap grants q p got unbounded holds made) =
    starts-Orderly thread_count heap grants q p got unbounded holds made

pub Reach-Orderly :
    {peak : ℕ} {s : System} → peak < 2 ^ 32 → Reach peak s → Orderly s.put s.took s.finished s.pool
Reach-Orderly bound (from made steps) = Later-Orderly bound (Starts-Orderly made) steps

-- Where every worker has returned, so that the joins of thread_pool_shutdown end, every task that was
-- taken is done, exactly as often.
pub idle_all :
    (t : Ptr) (workers : List Worker) → all_returned workers ≡ true → count t (tasks_of workers) ≡ 0
unfolding all_returned
idle_all t [] e = refl
idle_all t (at_test ∷ workers) e = absurd cc
idle_all t (dequeuing ∷ workers) e = absurd cc
idle_all t (sleeping ∷ workers) e = absurd cc
idle_all t (running d ∷ workers) e = absurd cc
idle_all t (returned ∷ workers) e = idle_all t workers e
