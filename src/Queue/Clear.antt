-- ===== src/Queue/Clear.antt =====
-- queue_clear and queue_destroy: what they free.
use cmake_template.Prelude.{
  ℕ, zero, suc, List, Bool, [], ◌∷◌, ◌≡◌, some, none, length, false, true, ◌<◌, ◌^◌, ◌==◌, arith,
  refl, ◌∙◌,
}
use cmake_template.Core.{ok, not_null, success}
use cmake_template.Queue.{Heap, Queue, clear_loop, clear, destroy}
use cmake_template.Queue.Linked.{Cell, data_of, Holds}
use cmake_template.Queue.Calls.{Became, dequeue-head}

-- The loop of queue_clear has enough rounds, one more than there are nodes.
clear_loop_lem :
    (n : ℕ) (heap : Heap) (q : Queue) (cs : List Cell) (shutdown : Bool)
    → n ≡ length cs
    → length cs < 2 ^ 32
    → Holds heap q cs
    → (heap' : Heap) × (q' : Queue) × (clear_loop (suc n) heap q shutdown
        ≡ ok (heap', q', data_of cs))
      × Became q [] heap' q'
unfolding clear_loop
clear_loop_lem n heap q [] shutdown e room l =
    let b : (q.current_size == 0) ≡ true = ground (arith, l.size_eq) in
    (heap, q, rw b refl, (l, refl, refl))
clear_loop_lem zero heap q ((a, d) ∷ cs) shutdown e room l = absurd (omega arith)
clear_loop_lem (suc n) heap q ((a, d) ∷ cs) shutdown e room l =
    let b : (q.current_size == 0) ≡ false = ground (arith, l.size_eq) in
    let (heap1, q1, e1, (l1, m1, f1)) = dequeue-head heap q a d cs shutdown l (omega arith) in
    let (heap2, q2, e2, (l2, m2, f2)) =
      clear_loop_lem n heap1 q1 cs shutdown (omega arith) (omega arith) l1 in
    (heap2, q2, rw (b, e1, e2, not_null q.customfree l.free_set) refl, (l2, m2 ∙ m1, f2 ∙ f1))

module _ (heap : Heap) (q : Queue) (cs : List Cell) (l : Holds heap q cs)
    (room : length cs < 2 ^ 32) where
  -- On a queue of fewer than 2^32 nodes queue_clear ends and succeeds, hands each datum to
  -- `customfree` once, the oldest first, and leaves an empty queue with the same bound.
  pub clear-data_of :
      (shutdown : Bool)
      → (heap' : Heap) × (q' : Queue) × (clear heap (some q) shutdown
          ≡ ok (success, heap', some q', data_of cs))
        × Became q [] heap' q'
  unfolding clear
  clear-data_of shutdown =
      let (heap', q', e, became) =
        clear_loop_lem q.current_size heap q cs shutdown l.size_eq room l in
      (heap', q', rw e refl, became)

  -- queue_destroy hands each datum to `customfree` once, the oldest first, and leaves NULL in the handle.
  pub destroy-data_of :
      (shutdown : Bool)
      → (heap' : Heap) × (destroy heap (some q) shutdown ≡ ok (heap', none, data_of cs))
  unfolding destroy
  destroy-data_of shutdown =
      let (heap', q', e, became) = clear-data_of shutdown in (heap', rw e refl)
