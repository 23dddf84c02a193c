-- ===== src/Stack.antt =====
-- libs/DSA/stack: stack.h and stack.c, a bounded stack of data pointers in an array.
-- A handle is `none` for a NULL argument. A function that changes `*stack` returns the new handle
-- beside its result; an argument `granted` says whether the `calloc` of that call succeeds.
pub mod Slots
pub mod Refine
pub mod Spec
pub mod Clear
mod Tests
use cmake_template.Prelude.{
  ℕ, zero, suc, ◌+◌, ◌-◌, ◌%◌, ◌^◌, Bool, true, false, Option, none, some, List, [], ◌∷◌, ◌++◌,
  if◌then◌else◌, ◌==◌, replicate,
}
use cmake_template.Core.{
  Ptr, null, ExitCode, success, failure, null_pointer, Run, ok, fault, out_of_fuel, ◌>>=◌, read,
  write, succeeded,
}

-- A cell of `stack->arr`: NULL, or the address of a `stack_node_t`, which stands for its data here,
-- since each node is reached from one cell only.
abbrev pub Slot : Type 0
Slot = Option Ptr

-- `stack_t`
pub record Stack : Type 0 where
  pub capacity : ℕ
  pub currentsz : ℕ
  pub arr : List Slot
  pub customfree : Ptr

abbrev pub Handle : Type 0
Handle = Option Stack

-- stack_init
pub init : ℕ → Ptr → (granted granted_arr : Bool) → Handle
init capacity customfree false _ = none
init capacity customfree true false = none
init capacity customfree true true = some (record {
  capacity = capacity;
  currentsz = 0;
  arr = replicate capacity none;
  customfree = customfree;
})

-- stack_is_full
pub is_full : Handle → ExitCode
is_full none = null_pointer
is_full (some s) = if s.currentsz == s.capacity then success else failure

-- stack_is_empty
pub is_empty : Handle → ExitCode
is_empty none = null_pointer
is_empty (some s) = if 0 == s.currentsz then success else failure

-- stack_push; `currentsz++` is a uint32_t increment.
pub push : Handle → Ptr → (granted : Bool) → Run (ExitCode × Handle)
push none data_p granted = ok (null_pointer, none)
push (some s) data_p granted =
    if data_p == null
    then ok (null_pointer, some s)
    else if succeeded (is_full (some s))
    then ok (failure, some s)
    else if granted
    then (do
      arr ← write s.arr s.currentsz (some data_p)
      ok (success, some (record s { arr = arr; currentsz = (s.currentsz + 1) % 2 ^ 32 })))
    else ok (failure, some s)

-- `arr[i]->data`
abbrev pub data_at : List Slot → ℕ → Run Ptr
data_at arr i = do slot ← read arr i; elim slot [ none ↦ fault | some d ↦ ok d ]

-- stack_pop
pub pop : Handle → Run (Ptr × Handle)
pop none = ok (null, none)
pop (some s) = if succeeded (is_empty (some s)) then ok (null, some s) else (do
  d ← data_at s.arr (s.currentsz - 1)
  arr ← write s.arr (s.currentsz - 1) none
  ok (d, some (record s { arr = arr; currentsz = s.currentsz - 1 })))

-- stack_peek
pub peek : Handle → Run Ptr
peek none = ok null
peek (some s) =
    if succeeded (is_empty (some s))
    then ok null
    else (do slot ← read s.arr (s.currentsz - 1); elim slot [ none ↦ ok null | some d ↦ ok d ])

-- The loop of stack_clear, with the data that it has handed to `customfree`, oldest first.
pub clear_loop : ℕ → Stack → List Ptr → Run (Stack × List Ptr)
clear_loop zero s freed = out_of_fuel
clear_loop (suc k) s freed = if 0 == s.currentsz then ok (s, freed) else (do
  d ← data_at s.arr (s.currentsz - 1)
  arr ← if s.customfree == null then fault else write s.arr (s.currentsz - 1) none
  clear_loop k (record s { arr = arr; currentsz = s.currentsz - 1 }) (freed ++ d ∷ []))

-- stack_clear
pub clear : Handle → Run (ExitCode × Handle × List Ptr)
clear none = ok (null_pointer, none, [])
clear (some s) = do (s', freed) ← clear_loop (s.currentsz + 1) s []; ok (success, some s', freed)

-- stack_destroy
pub destroy : Handle → Run (ExitCode × Handle × List Ptr)
destroy none = ok (null_pointer, none, [])
destroy (some s) = do
  (code, s', freed) ← clear (some s)
  if succeeded code then ok (success, none, freed) else ok (code, s', freed)
