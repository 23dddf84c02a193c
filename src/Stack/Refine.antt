-- ===== src/Stack/Refine.antt =====
-- The operations of stack.c against the bounded list of Stack/Spec.
use cmake_template.Prelude.{
  ℕ, suc, ◌-◌, ◌<◌, ◌≡◌, refl, none, some, List, [], ◌∷◌, arith, get_elem?, length,
  length-replicate, replicate, replicate_pos, Bool,
}
use cmake_template.Core.{Ptr, Run, ok, fault, out_of_fuel, ◌>>=◌, Returns, write}
use cmake_template.Stack
use cmake_template.Stack.{Stack, Handle, Slot, data_at}
use cmake_template.Stack.Slots.{slots, Holds, length-slots, get_elem?-slots, set-slots}
use cmake_template.Stack.Spec
use cmake_template.Stack.Spec.{Op, Reply, code, item, top, below}

-- One call of a client.
pub call : Stack → Op → Run (Reply × Handle)
unfolding Stack.push Stack.pop Stack.peek Stack.is_full Stack.is_empty
call s (Op.push x granted) = do (c, s') ← Stack.push (some s) x granted; ok (code c, s')
call s Op.pop = do (d, s') ← Stack.pop (some s); ok (item d, s')
call s Op.peek = do d ← Stack.peek (some s); ok (item d, some s)
call s Op.is_full = ok (code (Stack.is_full (some s)), some s)
call s Op.is_empty = ok (code (Stack.is_empty (some s)), some s)

module _ {limit : ℕ} {f : Ptr} {s : Stack} {xs : List Ptr} (h : Holds limit f s xs) where
  free_cell :
      length xs < limit
      → replicate {A = Slot} (limit - length xs) none
        ≡ none ∷ replicate (limit - suc (length xs)) none
  free_cell room = ground (arith, replicate_pos {A = Slot} (limit - length xs) none)

  -- The cell below the top, and the array once it is NULL.
  pub top_cell :
      {y : Ptr} {ys : List Ptr} → xs ≡ y ∷ ys → get_elem? s.arr (s.currentsz - 1) ≡ some (some y)
  top_cell {y} {ys} e =
      let rest = replicate {A = Slot} (limit - length xs) none in
      ground (arith, h.cells, get_elem?-slots ys (some y ∷ rest) (s.currentsz - 1) 0)

  pub pop_writes :
      {y : Ptr} {ys : List Ptr}
      → xs ≡ y ∷ ys
      → write s.arr (s.currentsz - 1) none ≡ ok (slots ys (replicate (limit - length ys) none))
  pop_writes {y} {ys} e =
      let rest = replicate {A = Slot} (limit - length xs) none in
      ground (
        arith,
        h.cells,
        set-slots ys (some y ∷ rest) (s.currentsz - 1) 0 none,
        length-slots ys (some y ∷ rest),
        replicate_pos {A = Slot} (limit - length ys) none,
      )

  push_writes :
      (x : Ptr)
      → length xs < limit
      → write s.arr s.currentsz (some x)
        ≡ ok (slots (x ∷ xs) (replicate (limit - length (x ∷ xs)) none))
  push_writes x room =
      let rest = replicate {A = Slot} (limit - length xs) none in
      ground (
        arith,
        h.cells,
        free_cell room,
        set-slots xs rest s.currentsz 0 (some x),
        length-slots xs rest,
        length-replicate {A = Slot} (limit - length xs) none,
      )

-- The call ends with the reply of the specification, in a stack that holds its data.
abbrev pub Steps : ℕ → Ptr → List Ptr → Op → Reply × Handle → Type 0
Steps limit f xs op (r, none) = ⊥
Steps limit f xs op (r, some s) =
    (r ≡ (Spec.step limit xs op).0) × Holds limit f s (Spec.step limit xs op).1

module _ {limit : ℕ} {f : Ptr} {s : Stack} where
  push-Steps :
      (xs : List Ptr) (x : Ptr) (granted : Bool)
      → Holds limit f s xs
      → Returns (Steps limit f xs (Op.push x granted)) (call s (Op.push x granted))
  unfolding call Spec.step
  push-Steps xs x granted h = ground (arith, push_writes h x)

  pop-Steps :
      (xs : List Ptr) → Holds limit f s xs → Returns (Steps limit f xs Op.pop) (call s Op.pop)
  unfolding call Spec.step
  pop-Steps [] h = ground arith
  pop-Steps (x ∷ xs) h =
      ground (arith, top_cell h {y = x} {ys = xs} refl, pop_writes h {y = x} {ys = xs} refl)

  peek-Steps :
      (xs : List Ptr) → Holds limit f s xs → Returns (Steps limit f xs Op.peek) (call s Op.peek)
  unfolding call Spec.step
  peek-Steps [] h = ground arith
  peek-Steps (x ∷ xs) h = ground (arith, top_cell h {y = x} {ys = xs} refl)

  -- Every call on a stack that holds `xs` ends without a fault, with the reply of the bounded list,
  -- and leaves a stack that holds the list that the specification leaves.
  pub call_refines :
      (xs : List Ptr) (op : Op) → Holds limit f s xs → Returns (Steps limit f xs op) (call s op)
  unfolding call Spec.step
  call_refines xs (Op.push x granted) h = push-Steps xs x granted h
  call_refines xs Op.pop h = pop-Steps xs h
  call_refines xs Op.peek h = peek-Steps xs h
  call_refines xs Op.is_full h = ground arith
  call_refines xs Op.is_empty h = ground arith

-- A client's calls in order, with what it sees of each.
pub run : Handle → List Op → Run (List Reply)
unfolding call
run s [] = ok []
run none (op ∷ ops) = fault
run (some s) (op ∷ ops) = do (r, s') ← call s op; rs ← run s' ops; ok (r ∷ rs)

module _ {limit : ℕ} {f : Ptr} (xs : List Ptr) (op : Op) (ops : List Op) where
  -- The replies after a call that steps as the specification does.
  run-call :
      (r : Run (Reply × Handle))
      → Returns (Steps limit f xs op) r
      → ((t : Stack)
          → Holds limit f t (Spec.step limit xs op).1
          → run (some t) ops ≡ ok (Spec.run limit (Spec.step limit xs op).1 ops))
      → (r >>= λ (q, t). run t ops >>= λ rs. ok (q ∷ rs)) ≡ ok (Spec.run limit xs (op ∷ ops))
  unfolding Spec.run
  run-call (ok (q, some t)) (e, h) later = rw (later t h, e)
  run-call (ok (q, none)) p later = elim p [ ]
  run-call fault p later = elim p [ ]
  run-call out_of_fuel p later = elim p [ ]

-- No sequence of calls of push, pop, peek, is_full and is_empty tells a stack that holds `xs`
-- from the bounded list `xs`: the run of the C code ends without a fault, with the replies of the
-- specification.
pub run_refines :
    {limit : ℕ} {f : Ptr} (ops : List Op) {s : Stack} {xs : List Ptr}
    → Holds limit f s xs
    → run (some s) ops ≡ ok (Spec.run limit xs ops)
unfolding run Spec.run
run_refines [] h = refl
run_refines (op ∷ ops) {s} {xs} h =
    run-call xs op ops (call s op) (call_refines xs op h) (λ t k. run_refines ops k)
