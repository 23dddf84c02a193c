-- ===== src/Queue/Fifo.antt =====
-- The calls of several threads on one queue, in any order that the mutex allows.
use cmake_template.Prelude.{
  ℕ, List, ◌<◌, ◌≢◌, ◌++◌, ◌^◌, ◌≡◌, true, none, length, ◌∷◌, [], ap, some, ◌≤◌, refl, Bool,
  Bool-cases, inl, sym, ◌∙◌, inr, arith, false, length-append, if◌then◌else◌, ◌==◌,
}
use cmake_template.Core.{Ptr, null, Run, ok, success, ExitCode, not_null}
use cmake_template.Queue.{
  Heap, Queue, Handle, Outcome, waits, done, must_wait, init, enqueue, dequeue,
}
use cmake_template.Queue.Linked.{Cell, data_of, Holds}
use cmake_template.Queue.Reach.{Reach, starts, enqueues, dequeues, returns_null, NonNull, Fifo}
use cmake_template.Queue.Calls.{Became, enqueue-snoc, enqueue_waits, dequeue-head, dequeue_empty}

NonNull-snoc : (cs : List Cell) (a d : Ptr) → NonNull cs → d ≢ null → NonNull (cs ++ (a, d) ∷ [])
NonNull-snoc [] a d h ne = (ne, tt)
NonNull-snoc ((b, x) ∷ cs) a d (hx, h) ne = (hx, NonNull-snoc cs a d h ne)

pub data_of-snoc : (cs : List Cell) (a d : Ptr) → data_of (cs ++ (a, d) ∷ []) ≡ data_of cs ++ d ∷ []
data_of-snoc [] a d = refl
data_of-snoc ((b, x) ∷ cs) a d = ap (λ l. x ∷ l) (data_of-snoc cs a d)

append_assoc : (a b c : List Ptr) → (a ++ b) ++ c ≡ a ++ (b ++ c)
append_assoc [] b c = refl
append_assoc (x ∷ a) b c = ap (λ l. x ∷ l) (append_assoc a b c)

abbrev put_result : Heap → Queue → Run (Outcome (ExitCode × Heap × Handle))
put_result heap q = ok (done (success, heap, some q))

abbrev took_result : Ptr → Heap → Queue → Run (Outcome (Ptr × Heap × Handle))
took_result d heap q = ok (done (d, heap, some q))

-- The results of two runs of the same call.
enqueue_same :
    {h1 h2 : Heap} {q1 q2 : Queue} → put_result h1 q1 ≡ put_result h2 q2 → (h1 ≡ h2) × (q1 ≡ q2)
enqueue_same e = (cc, cc)

dequeue_same :
    {d1 d2 : Ptr} {h1 h2 : Heap} {q1 q2 : Queue}
    → took_result d1 h1 q1 ≡ took_result d2 h2 q2
    → (d1 ≡ d2) × (h1 ≡ h2) × (q1 ≡ q2)
dequeue_same e = (cc, cc, cc)

abbrev put_waits : Run (Outcome (ExitCode × Heap × Handle))
put_waits = ok waits

abbrev took_waits : Run (Outcome (Ptr × Heap × Handle))
took_waits = ok waits

Became-same :
    (q : Queue) (cs : List Cell) {h1 h2 : Heap} {q1 q2 : Queue}
    → (h1 ≡ h2) × (q1 ≡ q2)
    → Became q cs h1 q1
    → Became q cs h2 q2
Became-same q cs (eh, eq) b = rw (sym eh, sym eq) b

-- Where a bounded queue need not wait there is room.
has_room :
    (q : Queue) (n m : ℕ)
    → q.current_size ≡ n
    → q.max_size ≡ m
    → 0 < m
    → must_wait q ≡ false
    → n < m
has_room q n m es em pos_m free = ground (arith, es, em, free)

module _ {max_size : ℕ} (bounded : 0 < max_size) (fits : max_size < 2 ^ 32) where
  enqueue-Fifo :
      {put took : List Ptr} {heap : Heap} {q : Queue} (d new : Ptr) (heap' : Heap) (q' : Queue)
      → Fifo max_size put took heap q
      → d ≢ null
      → new ≢ null
      → heap new ≡ none
      → enqueue heap (some q) d new ≡ ok (done (success, heap', some q'))
      → Fifo max_size (put ++ d ∷ []) took heap' q'
  enqueue-Fifo {put} {took} {heap} {q} d new heap' q' f dn newn free ran =
      elim (Bool-cases (must_wait q)) [
        | inl full ↦
            let e : put_waits ≡ put_result heap' q' =
              sym (enqueue_waits heap q d new dn newn full) ∙ ran in
            absurd cc
        | inr room ↦
            let below : length f.cells < max_size =
              has_room q (length f.cells) max_size f.holds.size_eq f.max_eq bounded room in
            let (h1, q1, e1, b1) =
              enqueue-snoc heap q f.cells d new f.holds dn newn free room
                (omega (arith, below, fits)) in
            let (holds, m, c) =
              Became-same q (f.cells ++ (new, d) ∷ []) (enqueue_same (sym e1 ∙ ran)) b1 in
            record {
              cells = f.cells ++ (new, d) ∷ [];
              holds = holds;
              non_null = NonNull-snoc f.cells new d f.non_null dn;
              order =
                  ap (λ l. l ++ d ∷ []) f.order
                  ∙ append_assoc took (data_of f.cells) (d ∷ [])
                  ∙ ap (λ l. took ++ l) (sym (data_of-snoc f.cells new d));
              bound = omega (arith, below, length-append f.cells ((new, d) ∷ []));
              max_eq = m ∙ f.max_eq;
            }
      ]

-- What a dequeue that returns `d` has taken.
abbrev returned : Ptr → List Ptr
returned d = if d == null then [] else d ∷ []

dequeue_step :
    (heap : Heap) (q : Queue) (cs : List Cell) (shutdown : Bool) (d : Ptr) (heap' : Heap)
    (q' : Queue)
    → Holds heap q cs
    → NonNull cs
    → length cs < 2 ^ 32
    → dequeue heap (some q) shutdown ≡ took_result d heap' q'
    → (cs' : List Cell) × Became q cs' heap' q'
      × NonNull cs'
      × (data_of cs ≡ returned d ++ data_of cs')
      × (length cs' ≤ length cs)
dequeue_step heap q [] true d heap' q' l nn small ran =
    let (ed, eh, eq) = dequeue_same (sym (dequeue_empty heap q true l) ∙ ran) in
    ([], Became-same q [] (eh, eq) (l, refl, refl), tt, rw (sym ed) refl, omega arith)
dequeue_step heap q [] false d heap' q' l nn small ran =
    let e : took_waits ≡ took_result d heap' q' = sym (dequeue_empty heap q false l) ∙ ran in
    absurd cc
dequeue_step heap q ((a, x) ∷ cs) shutdown d heap' q' l (xn, nn) small ran =
    let (h1, q1, e1, b1) = dequeue-head heap q a x cs shutdown l (omega arith) in
    let (ed, eh, eq) = dequeue_same (sym e1 ∙ ran) in
    (cs, Became-same q cs (eh, eq) b1, nn, rw (sym ed, not_null x xn) refl, omega arith)

append_nil : (ds : List Ptr) → ds ++ [] ≡ ds
append_nil [] = refl
append_nil (d ∷ ds) = ap (λ l. d ∷ l) (append_nil ds)

none_taken :
    {max_size : ℕ} {put took : List Ptr} {heap : Heap} {q : Queue}
    → Fifo max_size put (took ++ []) heap q
    → Fifo max_size put took heap q
none_taken {max_size} {put} {took} {heap} {q} f = rw (sym (append_nil took)) f

module _ {max_size : ℕ} (bounded : 0 < max_size) (fits : max_size < 2 ^ 32) where
  dequeue-Fifo :
      {put took : List Ptr} {heap : Heap} {q : Queue} (d : Ptr) (heap' : Heap) (q' : Queue)
      (shutdown : Bool)
      → Fifo max_size put took heap q
      → dequeue heap (some q) shutdown ≡ took_result d heap' q'
      → Fifo max_size put (took ++ returned d) heap' q'
  dequeue-Fifo {put} {took} {heap} {q} d heap' q' shutdown f ran =
      let (cs', (holds, m, c), nn, e, shorter) =
        dequeue_step heap q f.cells shutdown d heap' q' f.holds f.non_null
          (omega (arith, f.bound, fits)) ran in
      record {
        cells = cs';
        holds = holds;
        non_null = nn;
        order =
            f.order ∙ ap (λ l. took ++ l) e ∙ sym (append_assoc took (returned d) (data_of cs'));
        bound = omega (arith, shorter, f.bound);
        max_eq = m ∙ f.max_eq;
      }

  starts-Fifo :
      (heap : Heap) (q : Queue) (customfree default_free : Ptr)
      → default_free ≢ null
      → init customfree max_size default_free true true true true ≡ some q
      → Fifo max_size [] [] heap q
  unfolding init
  starts-Fifo heap q customfree default_free dn made =
      let e : record {
        current_size = 0;
        max_size = max_size;
        head = null;
        tail = null;
        customfree = if customfree == null then default_free else customfree;
      }
          ≡ q =
        cc in
      rw (sym e) (record {
        cells = [];
        holds = record {
          linked = tt;
          head_eq = refl;
          tail_eq = refl;
          size_eq = refl;
          free_set = free_set;
        };
        non_null = tt;
        order = refl;
        bound = omega arith;
        max_eq = refl;
      })
    where
      free_set : (if customfree == null then default_free else customfree) ≢ null
      free_set h = ground (arith, h, dn)

  -- For a queue with a bound other than 0 that a uint32_t holds, after any completed calls of
  -- enqueue and dequeue by any threads, in the order in which they got the mutex: what was put
  -- is what was taken followed by what the queue holds, so the data come out in the order in
  -- which they went in, none lost and none twice, and the queue never holds more than its
  -- bound.
  pub Reach-Fifo :
      {put took : List Ptr} {heap : Heap} {q : Queue}
      → Reach max_size put took heap q
      → Fifo max_size put took heap q
  Reach-Fifo (starts heap q customfree default_free dn made) =
      starts-Fifo heap q customfree default_free dn made
  Reach-Fifo (enqueues d new heap' q' before dn newn free ran) =
      enqueue-Fifo bounded fits d new heap' q' (Reach-Fifo before) dn newn free ran
  Reach-Fifo (dequeues d heap' q' shutdown before dn ran) =
      let one : returned d ≡ d ∷ [] = rw (not_null d dn) refl in
      rw (sym one) (dequeue-Fifo d heap' q' shutdown (Reach-Fifo before) ran)
  Reach-Fifo (returns_null heap' q' shutdown before ran) =
      none_taken (dequeue-Fifo null heap' q' shutdown (Reach-Fifo before) ran)
