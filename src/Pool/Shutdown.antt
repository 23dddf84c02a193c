-- ===== src/Pool/Shutdown.antt =====
-- libs/Threading: the end of a thread pool.
use cmake_template.Prelude.{
  false, sym, some, true, [], ◌∷◌, List, ℕ, ◌≡◌, ◌<◌, ◌++◌, ◌∙◌, arith, ◌≤◌, ◌-◌, ap, if◌then◌else◌,
  length, refl, Bool, ◌^◌, ◌||◌,
}
use cmake_template.Prelude.Counts.{count, tally_self}
use cmake_template.Core.{success, failure, null, ok, Ptr}
use cmake_template.Queue.{done}
use cmake_template.Queue.Linked.{Cell, data_of}
use cmake_template.Queue.Calls.{dequeue-head}
use cmake_template.Pool.{
  Pool, Worker, at_test, dequeuing, sleeping, running, broadcast, begun, joining, returned,
  thread_routine, all_returned, thread_pool_shutdown,
}
use cmake_template.Pool.Reach.{
  System, Step, Later, Reach, begins, adds, fails, works, wakes, broadcasts, signals, here, later,
  Orderly, tasks_of,
}
use cmake_template.Pool.Steps.{
  tasks_of-append, begin_task_run, end_task_workers, end_task_shutdown, broadcast_run,
}
use cmake_template.Pool.Works.{
  running_step, taken_step, empty_step, test_step, returned_step, idle, with_queue, after_task,
}
use cmake_template.Pool.Orderly.{
  Reach-Orderly, Later-Orderly, Step-Orderly, OrderlySystem, step_same,
}

-- No task is taken or done any more.
abbrev Over : System → System → Type 0
Over s t = (all_returned t.pool.workers ≡ true) × (t.took ≡ s.took) × (t.finished ≡ s.finished)

-- How many steps a worker has at most before it returns, once the flag is set and it does not sleep.
abbrev pub distance : Worker → ℕ
distance returned = 0
distance at_test = 1
distance (running t) = 2
distance dequeuing = 3
distance sleeping = 4

abbrev sleeps : Worker → Bool
sleeps at_test = false
sleeps dequeuing = false
sleeps sleeping = true
sleeps (running t) = false
sleeps returned = false

abbrev any_sleeps : List Worker → Bool
any_sleeps [] = false
any_sleeps (w ∷ workers) = sleeps w || any_sleeps workers

any_sleeps-broadcast : (workers : List Worker) → any_sleeps (broadcast workers) ≡ false
unfolding broadcast
any_sleeps-broadcast [] = refl
any_sleeps-broadcast (at_test ∷ workers) = any_sleeps-broadcast workers
any_sleeps-broadcast (dequeuing ∷ workers) = any_sleeps-broadcast workers
any_sleeps-broadcast (sleeping ∷ workers) = any_sleeps-broadcast workers
any_sleeps-broadcast (running t ∷ workers) = any_sleeps-broadcast workers
any_sleeps-broadcast (returned ∷ workers) = any_sleeps-broadcast workers

any_sleeps-append :
    (before after : List Worker) (w : Worker)
    → any_sleeps (before ++ w ∷ after) ≡ (sleeps w || any_sleeps (before ++ after))
any_sleeps-append [] after w = refl
any_sleeps-append (b ∷ before) after w = ground (arith, any_sleeps-append before after w)

distance_le : (w : Worker) → sleeps w ≡ false → distance w ≤ 3
distance_le returned e = omega arith
distance_le at_test e = omega arith
distance_le (running t) e = omega arith
distance_le dequeuing e = omega arith
distance_le sleeping e = absurd cc

distance-sleeps : (w : Worker) → distance w < 4 → sleeps w ≡ false
distance-sleeps returned h = refl
distance-sleeps at_test h = refl
distance-sleeps (running t) h = refl
distance-sleeps dequeuing h = refl
distance-sleeps sleeping h = absurd (omega arith)

-- The next step of a worker ends nearer to its return, and leaves the flag.
abbrev Nears : Pool → Worker → Type 0
Nears p w =
    (w' : Worker) × (p' : Pool) × (thread_routine p w ≡ ok (done (w', p')))
    × (distance w' ≤ distance w - 1)
    × (p'.shutdown ≡ p.shutdown)

module _ (put took finished : List Ptr) (p : Pool) (before after : List Worker)
    (o : Orderly put took finished p) (down : p.shutdown ≡ true) where
  dequeuing_ends : (cells : List Cell) → o.cells ≡ cells → Nears p dequeuing
  dequeuing_ends [] e = (
    at_test,
    p,
    empty_step p (rw e at o.holds) ∙ ap (λ b. ok (done (if b then at_test else sleeping, p))) down,
    omega arith,
    refl,
  )
  dequeuing_ends ((a, d) ∷ cs) e =
      let front : 0 < count d (data_of o.cells) =
        omega (arith, ap (λ l. count d (data_of l)) e, tally_self d) in
      let (heap', q', taken_out, became) =
        dequeue-head p.heap p.task_queue a d cs p.shutdown (rw e at o.holds)
          (omega (arith, o.small, ap length e)) in
      (
        running d,
        with_queue p heap' q',
        taken_step p d heap' q' (o.real d (omega arith)) taken_out,
        omega arith,
        refl,
      )

  ends : (w : Worker) → p.workers ≡ before ++ w ∷ after → sleeps w ≡ false → Nears p w
  ends at_test stands awake =
      (returned, p, test_step p ∙ ap (λ b. ok (done (idle b, p))) down, omega arith, refl)
  ends dequeuing stands awake = dequeuing_ends o.cells refl
  ends sleeping stands awake = absurd cc
  ends (running d) stands awake =
      let there : 0 < count d (tasks_of p.workers) = omega (
        arith,
        ap (λ l. count d (tasks_of l)) stands,
        tasks_of-append d before after (running d),
        tally_self d,
      ) in
      let (t, at) = o.stored d (omega arith) in
      (at_test, after_task p d t, running_step p d t at, omega arith, refl)
  ends returned stands awake = (returned, p, returned_step p, omega arith, refl)

-- The flag is set and no worker sleeps.
abbrev Awake : System → Type 0
Awake s = (s.pool.shutdown ≡ true) × (any_sleeps s.pool.workers ≡ false)

works-Awake :
    (s : System) (front behind : List Worker) (w w' : Worker) (p' : Pool)
    → OrderlySystem s
    → Awake s
    → s.pool.workers ≡ front ++ w ∷ behind
    → thread_routine s.pool w ≡ ok (done (w', p'))
    → (p'.shutdown ≡ true) × (any_sleeps (front ++ w' ∷ behind) ≡ false)
works-Awake s front behind w w' p' o (down, awake) stands ran =
    let split : (sleeps w || any_sleeps (front ++ behind)) ≡ false =
      sym (any_sleeps-append front behind w) ∙ rw stands at awake in
    let w_awake : sleeps w ≡ false = ground arith in
    let others : any_sleeps (front ++ behind) ≡ false = ground arith in
    let (w1, p1, ran1, nearer, kept) =
      ends s.put s.took s.finished s.pool front behind o down w stands w_awake in
    let (same_w, same_p) = step_same ran1 ran in
    let near : distance w1 < 4 = omega (arith, distance_le w w_awake) in
    (
      ap (λ (x : Pool). x.shutdown) (sym same_p) ∙ kept ∙ down,
      any_sleeps-append front behind w'
          ∙ ap (λ x. sleeps x || any_sleeps (front ++ behind)) (sym same_w)
          ∙ rw (distance-sleeps w1 near) others,
    )

Step-Awake : {peak : ℕ} {s t : System} → OrderlySystem s → Awake s → Step peak s t → Awake t
Step-Awake {s = s} o (down, awake) (begins exe_function arg_free arg address p' unused real ran) =
    let e = begin_task_run s.pool exe_function arg_free arg address p' real ran in
    rw e (down, awake)
Step-Awake {s = s} o (down, awake) (adds l r task node p' stands free nn room ran) = (
  end_task_shutdown s.pool task node success p' ran ∙ down,
  rw (end_task_workers s.pool task node success p' ran) awake,
)
Step-Awake {s = s} o (down, awake) (fails l r task p' stands ran) = (
  end_task_shutdown s.pool task null failure p' ran ∙ down,
  rw (end_task_workers s.pool task null failure p' ran) awake,
)
Step-Awake {s = s} o a (works front behind w w' p' stands ran) =
    works-Awake s front behind w w' p' o a stands ran
Step-Awake {s = s} o (down, awake) (wakes front behind stands) =
    let both = sym (any_sleeps-append front behind sleeping) ∙ rw stands at awake in absurd cc
Step-Awake {s = s} o (down, awake) (broadcasts p' ran) =
    rw (broadcast_run s.pool p' ran) (down, any_sleeps-broadcast s.pool.workers)
Step-Awake o (down, awake) signals = (refl, awake)

Later-Awake :
    {peak : ℕ} {s t : System} → peak < 2 ^ 32 → OrderlySystem s → Awake s → Later peak s t → Awake t
Later-Awake bound o a here = a
Later-Awake bound o a (later before step) =
    Step-Awake (Later-Orderly bound o before) (Later-Awake bound o a before) step

-- A pool with fewer than 2^32 tasks waiting at once, the signal flag set, and then the broadcast of
-- thread_pool_shutdown: after any further steps of its threads no worker is in pthread_cond_wait and
-- none reads a task that was freed. The next step of each ends, and leaves it at least one step nearer to
-- its return, of at most three.
pub thread_routine_ends :
    {peak : ℕ} {s t : System} (p : Pool) (before after : List Worker) (w : Worker)
    → peak < 2 ^ 32
    → Reach peak s
    → s.pool.shutdown ≡ true
    → thread_pool_shutdown (some s.pool) begun ≡ done (joining, some p)
    → Later peak (record s { pool = p }) t
    → t.pool.workers ≡ before ++ w ∷ after
    → (w' : Worker) × (p' : Pool) × (thread_routine t.pool w ≡ ok (done (w', p')))
      × (distance w' ≤ distance w - 1)
      × (distance w ≤ 3)
thread_routine_ends {s = s} {t} p before after w bound r down ran steps stands =
    let o = Step-Orderly bound (broadcasts p ran) (Reach-Orderly bound r) in
    let first : Awake (record s { pool = p }) =
      rw (broadcast_run s.pool p ran) (down, any_sleeps-broadcast s.pool.workers) in
    let (down', none_sleeps) = Later-Awake bound o first steps in
    let split : (sleeps w || any_sleeps (before ++ after)) ≡ false =
      sym (any_sleeps-append before after w) ∙ rw stands at none_sleeps in
    let w_awake : sleeps w ≡ false = ground arith in
    let (w', p', ran', nearer, _) =
      ends t.put t.took t.finished t.pool before after (Later-Orderly bound o steps) down' w stands
        w_awake in
    (w', p', ran', nearer, distance_le w w_awake)
