-- ===== src/Queue/Calls.antt =====
-- queue_enqueue, queue_dequeue, and queue_peek, as operations on the
-- sequence of the data.
use cmake_template.Prelude.{
  suc, ◌≢◌, List, Bool, [], ◌∷◌, ◌≡◌, some, none, if◌then◌else◌, length, false, true, ◌<◌, ◌^◌,
  ◌==◌, ◌++◌, arith, refl, ◌-◌, ◌+◌, ◌%◌, length-append, ap, ◌∙◌,
}
use cmake_template.Core.{Ptr, null, ok, not_null, success, ◌>>=◌, failure}
use cmake_template.Queue.{
  Node, Heap, Queue, waits, done, update, node_at, must_wait, enqueue, enqueue_locked, dequeue,
  peek,
}
use cmake_template.Queue.Linked.{
  Cell, first, last_or, Apart, Linked, data_of, Holds, update_self, Linked-update, free-Apart,
  Linked-snoc,
}

-- The queue of `cs` has become that of `cs'`, with the same bound.
abbrev pub Became : Queue → List Cell → Heap → Queue → Type 0
Became q cs' heap' q' =
    Holds heap' q' cs' × (q'.max_size ≡ q.max_size) × (q'.customfree ≡ q.customfree)

node_at_lem : (heap : Heap) (p : Ptr) (n : Node) → heap p ≡ some n → node_at heap p ≡ ok n
node_at_lem heap p n at = rw (at, node_at) refl

enqueue_behind :
    (heap : Heap) (q : Queue) (p new : Ptr) (n : Node)
    → must_wait q ≡ false
    → (q.current_size == 0) ≡ false
    → q.tail ≡ p
    → heap p ≡ some n
    → enqueue_locked heap q new
      ≡ ok (
          done (
            update heap p (some (record n { next = new })),
            record q { tail = new; current_size = (q.current_size + 1) % 2 ^ 32 },
          ))
unfolding enqueue_locked
enqueue_behind heap q p new n free b at_tail at =
    rw (free, b, at_tail, node_at_lem heap p n at) refl

dequeue_front :
    (heap : Heap) (q : Queue) (p : Ptr) (n : Node) (shutdown : Bool)
    → (q.current_size == 0) ≡ false
    → q.head ≡ p
    → heap p ≡ some n
    → dequeue heap (some q) shutdown
      ≡ ok (
          done (
            n.payload,
            update heap p none,
            some (record q {
              head = n.next;
              tail = if n.next == null then null else q.tail;
              current_size = q.current_size - 1;
            }),
          ))
unfolding dequeue
dequeue_front heap q p n shutdown b at_head at = rw (b, at_head, node_at_lem heap p n at) refl

last_or-snoc : (p new d : Ptr) (cs : List Cell) → new ≡ last_or p (cs ++ (new, d) ∷ [])
last_or-snoc p new d [] = refl
last_or-snoc p new d ((a, x) ∷ cs) = last_or-snoc a new d cs

last_after :
    (h : Heap) (a : Ptr) (cs : List Cell)
    → Linked h cs
    → (if first cs == null then null else last_or a cs) ≡ last_or null cs
last_after h a [] linked = refl
last_after h a ((b, y) ∷ cs) (bn, at, apart, linked) = rw (not_null b bn) refl

module _ (heap : Heap) (q : Queue) where
  enqueue_locked-snoc :
      (cs : List Cell) (d new : Ptr)
      → Holds (update heap new (some (record { payload = d; next = null }))) q cs
      → Apart new cs
      → new ≢ null
      → must_wait q ≡ false
      → suc (length cs) < 2 ^ 32
      → (heap' : Heap) × (q' : Queue) × (enqueue_locked
            (update heap new (some (record { payload = d; next = null })))
            q
            new
          ≡ ok (done (heap', q')))
        × Became q (cs ++ (new, d) ∷ []) heap' q'
  unfolding enqueue_locked
  enqueue_locked-snoc [] d new l far nn free room =
      let b : (q.current_size == 0) ≡ true = ground (arith, l.size_eq) in
      (
        update heap new (some (record { payload = d; next = null })),
        record q { head = new; tail = new; current_size = (q.current_size + 1) % 2 ^ 32 },
        rw (free, b) refl,
        (
          record {
            linked =
                (nn, update_self heap new (some (record { payload = d; next = null })), tt, tt);
            head_eq = refl;
            tail_eq = refl;
            size_eq = omega (arith, l.size_eq);
            free_set = l.free_set;
          },
          refl,
          refl,
        ),
      )
  enqueue_locked-snoc ((a, x) ∷ cs) d new l far nn free room =
      let b : (q.current_size == 0) ≡ false = ground (arith, l.size_eq) in
      let h = update heap new (some (record { payload = d; next = null })) in
      let (n, at_last, linked) =
        Linked-snoc h new d a x cs nn
          (update_self heap new (some (record { payload = d; next = null }))) far l.linked in
      (
        update h (last_or a cs) (some (record n { next = new })),
        record q { tail = new; current_size = (q.current_size + 1) % 2 ^ 32 },
        enqueue_behind h q (last_or a cs) new n free b l.tail_eq at_last,
        (
          record {
            linked = linked;
            head_eq = l.head_eq;
            tail_eq = last_or-snoc a new d cs;
            size_eq = omega (arith, l.size_eq, length-append cs ((new, d) ∷ []));
            free_set = l.free_set;
          },
          refl,
          refl,
        ),
      )

  -- On a queue of fewer than 2^32 - 1 nodes that need not wait for room, with data that is not
  -- NULL and an unused address from calloc, queue_enqueue succeeds and puts the datum behind
  -- the others; the bound and the callback stay.
  pub enqueue-snoc :
      (cs : List Cell) (d new : Ptr)
      → Holds heap q cs
      → d ≢ null
      → new ≢ null
      → heap new ≡ none
      → must_wait q ≡ false
      → suc (length cs) < 2 ^ 32
      → (heap' : Heap) × (q' : Queue) × (enqueue heap (some q) d new
          ≡ ok (done (success, heap', some q')))
        × Became q (cs ++ (new, d) ∷ []) heap' q'
  unfolding enqueue
  enqueue-snoc cs d new l dn nn new_free free room =
      let far = free-Apart heap new cs new_free l.linked in
      let fresh_holds : Holds (update heap new (some (record { payload = d; next = null }))) q cs =
        record {
          linked =
              Linked-update heap new (some (record { payload = d; next = null })) cs far l.linked;
          head_eq = l.head_eq;
          tail_eq = l.tail_eq;
          size_eq = l.size_eq;
          free_set = l.free_set;
        } in
      let (heap', q', e, became) = enqueue_locked-snoc cs d new fresh_holds far nn free room in
      (heap', q', rw (not_null d dn, not_null new nn, e) refl, became)

  -- Where the queue is full and bounded, queue_enqueue with data that is not NULL and a granted
  -- node waits.
  pub enqueue_waits :
      (d new : Ptr)
      → d ≢ null
      → new ≢ null
      → must_wait q ≡ true
      → enqueue heap (some q) d new ≡ ok waits
  unfolding enqueue enqueue_locked
  enqueue_waits d new dn nn full = rw (not_null d dn, not_null new nn, full) refl

  -- On a queue with at least one and at most 2^32 nodes, queue_dequeue returns the oldest datum
  -- and takes it and its node away, whatever the signal flag says; the bound and the callback
  -- stay.
  pub dequeue-head :
      (a d : Ptr) (cs : List Cell) (shutdown : Bool)
      → Holds heap q ((a, d) ∷ cs)
      → length cs < 2 ^ 32
      → (heap' : Heap) × (q' : Queue) × (dequeue heap (some q) shutdown
          ≡ ok (done (d, heap', some q')))
        × Became q cs heap' q'
  unfolding dequeue
  dequeue-head a d cs shutdown l room =
      let (nn, at, far, linked) = l.linked in
      let b : (q.current_size == 0) ≡ false = ground (arith, l.size_eq) in
      (
        update heap a none,
        record q {
          head = first cs;
          tail = if first cs == null then null else q.tail;
          current_size = q.current_size - 1;
        },
        dequeue_front heap q a (record { payload = d; next = first cs }) shutdown b l.head_eq at,
        (
          record {
            linked = Linked-update heap a none cs far linked;
            head_eq = refl;
            tail_eq =
                ap (λ p. if first cs == null then null else p) l.tail_eq
                ∙ last_after heap a cs linked;
            size_eq = omega (arith, l.size_eq);
            free_set = l.free_set;
          },
          refl,
          refl,
        ),
      )

  -- On an empty queue queue_dequeue returns NULL and changes nothing at a shutdown, and waits
  -- otherwise.
  pub dequeue_empty :
      (shutdown : Bool)
      → Holds heap q []
      → dequeue heap (some q) shutdown
        ≡ (if shutdown then ok (done (null, heap, some q)) else ok waits)
  unfolding dequeue
  dequeue_empty shutdown l =
      let b : (q.current_size == 0) ≡ true = ground (arith, l.size_eq) in rw b refl

module _ (heap : Heap) where
  -- queue_peek returns the oldest datum, and NULL for an empty queue.
  pub peek-first :
      (q : Queue) (cs : List Cell)
      → Holds heap q cs
      → peek heap (some q) ≡ ok (elim (data_of cs) [ [] ↦ null | d ∷ ds ↦ d ])
  unfolding peek
  peek-first q [] l = let b : (q.head == null) ≡ true = ground (arith, l.head_eq) in rw b refl
  peek-first q ((a, d) ∷ cs) l =
      let (nn, at, apart, linked) = l.linked in front q.head l.head_eq nn at
    where
      front :
          (p : Ptr)
          → p ≡ a
          → a ≢ null
          → heap a ≡ some (record { payload = d; next = first cs })
          → (if p == null then ok null else (node_at heap p >>= λ n. ok n.payload)) ≡ ok d
      front p e nn at =
          rw (e, not_null a nn, node_at_lem heap a (record { payload = d; next = first cs }) at)
            refl

-- Without memory for a node queue_enqueue leaves the queue as it is.
pub enqueue_refused :
    (heap : Heap) (q : Queue) (d : Ptr)
    → enqueue heap (some q) d null ≡ ok (done (failure, heap, some q))
unfolding enqueue
enqueue_refused heap q d = ground arith
