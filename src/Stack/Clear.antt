-- ===== src/Stack/Clear.antt =====
-- stack_init, stack_clear and stack_destroy: what a new stack holds, and what is freed.
use cmake_template.Prelude.{
  ℕ, zero, suc, ◌+◌, ◌-◌, ◌<◌, ◌^◌, ◌≡◌, ◌≢◌, refl, true, none, some, List, [], ◌∷◌, ◌++◌, arith,
  length, replicate,
}
use cmake_template.Core.{Ptr, null, success, ok, Returns, Returns-bind, Returns-ok}
use mathlib.Core.List.{append-nil, append_assoc}
use cmake_template.Stack
use cmake_template.Stack.{Stack, Handle, Slot, clear_loop}
use cmake_template.Stack.Slots.{slots, Holds}
use cmake_template.Stack.Refine.{top_cell, pop_writes}

-- The handle is that of a stack that holds `xs`.
abbrev pub HoldsIn : ℕ → Ptr → Handle → List Ptr → Type 0
HoldsIn limit f none xs = ⊥
HoldsIn limit f (some s) xs = Holds limit f s xs

-- For a capacity that a uint32_t holds, with both its allocations granted, stack_init makes a stack
-- that holds no data, with the capacity and the callback that it was given.
pub init-Holds :
    (limit : ℕ) (f : Ptr) → limit < 2 ^ 32 → HoldsIn limit f (Stack.init limit f true true) []
unfolding Stack.init
init-Holds limit f w = ground arith

module _ {limit : ℕ} {f : Ptr} where
  clear_loop-Holds :
      (k : ℕ) (xs done : List Ptr) {s : Stack}
      → Holds limit f s xs
      → f ≢ null
      → length xs < k
      → Returns (λ (t, freed). (freed ≡ done ++ xs) × Holds limit f t []) (clear_loop k s done)
  unfolding clear_loop
  clear_loop-Holds zero xs done h ne fuel = absurd (omega arith)
  clear_loop-Holds (suc k) [] done h ne fuel = ground (arith, append-nil done)
  clear_loop-Holds (suc k) (x ∷ xs) done {s} h ne fuel = ground (
    arith,
    append_assoc done (x ∷ []) xs,
    top_cell h {y = x} {ys = xs} refl,
    pop_writes h {y = x} {ys = xs} refl,
    clear_loop-Holds k xs (done ++ x ∷ [])
        {s = record s {
          arr = slots xs (replicate (limit - length xs) none);
          currentsz = s.currentsz - 1;
        }},
  )

-- On a stack that holds `xs`, with a callback that is not NULL, stack_clear succeeds, hands each
-- datum to the callback once, top first, and leaves an empty stack of the same capacity.
pub clear-Holds :
    {limit : ℕ} {f : Ptr} {s : Stack} (xs : List Ptr)
    → Holds limit f s xs
    → f ≢ null
    → Returns
        (λ (code, t, freed). (code ≡ success) × (freed ≡ xs) × HoldsIn limit f t [])
        (Stack.clear (some s))
unfolding Stack.clear
clear-Holds {limit} {f} {s} xs h ne =
    Returns-bind _ _ (clear_loop (s.currentsz + 1) s []) _
      (clear_loop-Holds (s.currentsz + 1) xs [] h ne (omega arith))
      λ (t, freed) (e, k). (refl, e, k)

-- On a stack that holds `xs`, with a callback that is not NULL, stack_destroy succeeds, hands each
-- datum to the callback once, top first, and sets the caller's pointer to NULL.
pub destroy-Holds :
    {limit : ℕ} {f : Ptr} {s : Stack} (xs : List Ptr)
    → Holds limit f s xs
    → f ≢ null
    → Stack.destroy (some s) ≡ ok (success, none, xs)
unfolding Stack.destroy
destroy-Holds {s} xs h ne =
    let (v, e, p) = Returns-ok _ (Stack.clear (some s)) (clear-Holds xs h ne) in rw e (ground arith)
