-- ===== src/Queue.antt =====
-- libs/DSA/queue: queue.h and queue.c, a bounded queue that producers and consumers share.
-- The mutex is held from the test of a call to its result, so the part of a call behind its lock is
-- one step; `waits` says that it ends in pthread_cond_wait, where a thread gives the mutex back and
-- later runs the same part again from its test.
pub mod Linked
pub mod Calls
pub mod Clear
pub mod Reach
pub mod Fifo
mod Tests
use cmake_template.Prelude.{
  zero, suc, ℕ, Option, Bool, not, List, none, if◌then◌else◌, [], some, ◌==◌, ◌+◌, suc, false, ◌&&◌,
  ◌%◌, ◌∷◌, leb, ◌-◌, ◌^◌,
}
use cmake_template.Core.{Ptr, null, ExitCode, Run, ok, success, fault, out_of_fuel, failure, ◌>>=◌}

-- QUEUE_UNBOUNDED
abbrev pub unbounded : ℕ
unbounded = 0

-- `queue_node_t`
pub record Node : Type 0 where
  pub payload : Ptr
  pub next : Ptr

-- The nodes that are allocated, by their addresses.
abbrev pub Heap : Type 0
Heap = Ptr → Option Node

-- `queue_t`, without its mutex and conditions
pub record Queue : Type 0 where
  pub current_size : ℕ
  pub max_size : ℕ
  pub head : Ptr
  pub tail : Ptr
  pub customfree : Ptr

abbrev pub Handle : Type 0
Handle = Option Queue

-- The end of a call, or of its part up to pthread_cond_wait.
pub data Outcome {ℓ} (A : Type ℓ) : Type ℓ where
  waits : Outcome A
  done : A → Outcome A

-- `*p`
abbrev pub node_at : Heap → Ptr → Run Node
node_at heap p = elim (heap p) [ none ↦ fault | some n ↦ ok n ]

-- calloc, free, and the writes to a node.
abbrev pub update : Heap → Ptr → Option Node → Heap
update heap p v q = if q == p then v else heap q

-- queue_init; `default_free` is the address of that function, `granted` says whether calloc succeeds,
-- and `inits` whether the mutex and each of the two conditions could be made.
pub init :
    (customfree : Ptr) (max_size : ℕ) (default_free : Ptr) (granted mutex not_empty not_full : Bool)
    → Handle
init customfree max_size default_free granted mutex not_empty not_full =
    if granted
    then if mutex
      then if not_empty
        then if not_full
          then some (record {
            current_size = 0;
            max_size = max_size;
            head = null;
            tail = null;
            customfree = if customfree == null then default_free else customfree;
          })
          else none
        else none
      else none
    else none

-- queue_is_empty and queue_is_full, which read through the handle.
pub is_empty : Handle → Run Bool
is_empty none = fault
is_empty (some q) = ok (q.current_size == 0)

pub is_full : Handle → Run Bool
is_full none = fault
is_full (some q) = ok (if q.max_size == unbounded then false else leb q.max_size q.current_size)

-- The condition of the loop of queue_enqueue.
abbrev pub must_wait : Queue → Bool
must_wait q = not (q.max_size == unbounded) && leb q.max_size q.current_size

-- queue_enqueue from its lock on; `new` is the node.
pub enqueue_locked : Heap → Queue → Ptr → Run (Outcome (Heap × Queue))
enqueue_locked heap q new =
    if must_wait q
    then ok waits
    else if q.current_size == 0
    then ok (
        done
          (heap, record q { head = new; tail = new; current_size = (q.current_size + 1) % 2 ^ 32 }))
    else (do
      last ← node_at heap q.tail
      ok (
          done (
            update heap q.tail (some (record last { next = new })),
            record q { tail = new; current_size = (q.current_size + 1) % 2 ^ 32 },
          )))

abbrev pub enqueued : Outcome (Heap × Queue) → Outcome (ExitCode × Heap × Handle)
enqueued waits = waits
enqueued (done (heap, q)) = done (success, heap, some q)

-- queue_enqueue; `new` is what calloc returns.
pub enqueue : Heap → Handle → Ptr → (new : Ptr) → Run (Outcome (ExitCode × Heap × Handle))
enqueue heap none d new = ok (done (failure, heap, none))
enqueue heap (some q) d new =
    if d == null
    then ok (done (failure, heap, some q))
    else if new == null
    then ok (done (failure, heap, some q))
    else (do
      r ← enqueue_locked (update heap new (some (record { payload = d; next = null }))) q new
      ok (enqueued r))

-- queue_dequeue; `shutdown` is `signal_flag == SHUTDOWN`. Where the queue is empty the call returns
-- NULL at a shutdown and waits otherwise.
pub dequeue : Heap → Handle → (shutdown : Bool) → Run (Outcome (Ptr × Heap × Handle))
dequeue heap none shutdown = ok (done (null, heap, none))
dequeue heap (some q) shutdown =
    if q.current_size == 0
    then if shutdown then ok (done (null, heap, some q)) else ok waits
    else (do
      n ← node_at heap q.head
      ok (
          done (
            n.payload,
            update heap q.head none,
            some (record q {
              head = n.next;
              tail = if n.next == null then null else q.tail;
              current_size = q.current_size - 1;
            }),
          )))

-- queue_peek
pub peek : Heap → Handle → Run Ptr
peek heap none = ok null
peek heap (some q) = if q.head == null then ok null else (do n ← node_at heap q.head; ok n.payload)

-- The loop of queue_clear, with the data handed to `customfree`; no other thread runs between. A
-- dequeue that waited here would wait for ever.
pub clear_loop : (fuel : ℕ) → Heap → Queue → (shutdown : Bool) → Run (Heap × Queue × List Ptr)
clear_loop zero heap q shutdown = out_of_fuel
clear_loop (suc fuel) heap q shutdown = if q.current_size == 0 then ok (heap, q, []) else (do
  r ← dequeue heap (some q) shutdown
  elim r [
    | waits ↦ out_of_fuel
    | done (d, heap', none) ↦ fault
    | done (d, heap', some q') ↦ do
      (heap'', q'', freed) ← clear_loop fuel heap' q' shutdown
      if q.customfree == null then fault else ok (heap'', q'', d ∷ freed)
  ])

-- queue_clear
pub clear : Heap → Handle → (shutdown : Bool) → Run (ExitCode × Heap × Handle × List Ptr)
clear heap none shutdown = ok (failure, heap, none, [])
clear heap (some q) shutdown = do
  (heap', q', freed) ← clear_loop (suc q.current_size) heap q shutdown
  ok (success, heap', some q', freed)

-- queue_destroy, which leaves NULL in the handle; the queue is freed.
pub destroy : Heap → Handle → (shutdown : Bool) → Run (Heap × Handle × List Ptr)
destroy heap none shutdown = ok (heap, none, [])
destroy heap (some q) shutdown = do
  (code, heap', h, freed) ← clear heap (some q) shutdown
  ok (heap', none, freed)
