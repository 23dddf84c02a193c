-- ===== src/Queue/Reach.antt =====
-- The states of a queue that several threads use, and what holds in each of them.
use cmake_template.Prelude.{ℕ, List, ◌≢◌, ◌++◌, ◌≡◌, true, none, length, ◌∷◌, [], some, ◌≤◌, Bool}
use cmake_template.Core.{Ptr, null, ok, success}
use cmake_template.Queue.{Heap, Queue, done, init, enqueue, dequeue}
use cmake_template.Queue.Linked.{Cell, data_of, Holds}

-- A queue that queue_init has made with the bound `max_size`, and then calls of any threads.
-- `put` is the data whose enqueue has succeeded and `took` what the dequeues have returned, both
-- in the order of the calls. A call that waits has changed nothing that other threads reach; its
-- end is a call of its own here. The node of a dequeue, which the code frees behind the unlock,
-- is reached by no other thread either.
pub data Reach (max_size : ℕ) : List Ptr → List Ptr → Heap → Queue → Type 0 where
  starts :
      (heap : Heap) (q : Queue) (customfree default_free : Ptr)
      → default_free ≢ null
      → init customfree max_size default_free true true true true ≡ some q
      → Reach max_size [] [] heap q
  enqueues :
      {put took : List Ptr} {heap : Heap} {q : Queue} (d new : Ptr) (heap' : Heap) (q' : Queue)
      → Reach max_size put took heap q
      → d ≢ null
      → new ≢ null
      → heap new ≡ none
      → enqueue heap (some q) d new ≡ ok (done (success, heap', some q'))
      → Reach max_size (put ++ d ∷ []) took heap' q'
  dequeues :
      {put took : List Ptr} {heap : Heap} {q : Queue} (d : Ptr) (heap' : Heap) (q' : Queue)
      (shutdown : Bool)
      → Reach max_size put took heap q
      → d ≢ null
      → dequeue heap (some q) shutdown ≡ ok (done (d, heap', some q'))
      → Reach max_size put (took ++ d ∷ []) heap' q'
  returns_null :
      {put took : List Ptr} {heap : Heap} {q : Queue} (heap' : Heap) (q' : Queue) (shutdown : Bool)
      → Reach max_size put took heap q
      → dequeue heap (some q) shutdown ≡ ok (done (null, heap', some q'))
      → Reach max_size put took heap' q'

abbrev pub NonNull : List Cell → Type 0
NonNull [] = Unit
NonNull ((a, d) ∷ cs) = (d ≢ null) × NonNull cs

-- What holds between two calls.
pub record Fifo (max_size : ℕ) (put took : List Ptr) (heap : Heap) (q : Queue) : Type 0 where
  pub cells : List Cell
  pub holds : Holds heap q cells
  pub non_null : NonNull cells
  pub order : put ≡ took ++ data_of cells
  pub bound : length cells ≤ max_size
  pub max_eq : q.max_size ≡ max_size
