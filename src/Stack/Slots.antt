-- ===== src/Stack/Slots.antt =====
-- The cells of `stack->arr` that a stack of data occupies.
use cmake_template.Prelude.{
  ℕ, suc, ◌+◌, ◌-◌, ◌≤◌, ◌<◌, ◌^◌, ◌≡◌, ap, none, some, List, [], ◌∷◌, arith, get_elem?, length,
  replicate, set,
}
use cmake_template.Core.{Ptr}
use cmake_template.Stack.{Slot, Stack}

-- The data `xs`, top first, below the cells `rest`.
abbrev pub slots : List Ptr → List Slot → List Slot
slots [] rest = rest
slots (x ∷ xs) rest = slots xs (some x ∷ rest)

pub length-slots :
    (xs : List Ptr) (rest : List Slot) → length (slots xs rest) ≡ length xs + length rest
length-slots [] rest = omega arith
length-slots (x ∷ xs) rest = omega (arith, length-slots xs (some x ∷ rest))

pub get_elem?-slots :
    (xs : List Ptr) (rest : List Slot) (n i : ℕ)
    → n ≡ length xs + i
    → get_elem? (slots xs rest) n ≡ get_elem? rest i
get_elem?-slots [] rest n i e = ap (get_elem? rest) (omega arith)
get_elem?-slots (x ∷ xs) rest n i e = get_elem?-slots xs (some x ∷ rest) n (suc i) (omega arith)

pub set-slots :
    (xs : List Ptr) (rest : List Slot) (n i : ℕ) (v : Slot)
    → n ≡ length xs + i
    → set (slots xs rest) n v ≡ slots xs (set rest i v)
set-slots [] rest n i v e = ap (λ k. set rest k v) (omega arith)
set-slots (x ∷ xs) rest n i v e = set-slots xs (some x ∷ rest) n (suc i) v (omega arith)

-- `s` has room for `limit` data, frees them by `f`, and holds `xs`, top first, in a full-width array
-- whose other cells are NULL.
pub record Holds (limit : ℕ) (f : Ptr) (s : Stack) (xs : List Ptr) : Type 0 where
  pub capacity : s.capacity ≡ limit
  pub word : limit < 2 ^ 32
  pub count : s.currentsz ≡ length xs
  pub fits : length xs ≤ limit
  pub customfree : s.customfree ≡ f
  pub cells : s.arr ≡ slots xs (replicate (limit - length xs) none)
