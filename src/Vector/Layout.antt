-- ===== src/Vector/Layout.antt =====
-- What the array of a vector holds, and how the moves of vector_shift_elements rearrange it.
use cmake_template.Prelude.{
  ℕ, zero, suc, ◌+◌, ◌≤◌, ◌<◌, ◌≡◌, refl, ap, none, some, List, [], ◌∷◌, ◌++◌, arith, length, take,
  drop, set, take-append-drop, pos, sym, ◌∙◌,
}
use cmake_template.Core.{Ptr, ok}
use cmake_template.Vector.{Vector, Handle, Cell, int_max, memmove}

-- The elements `xs` in front of the cells `spare`.
abbrev pub filled : List Ptr → List Cell → List Cell
filled [] spare = spare
filled (x ∷ xs) spare = some x ∷ filled xs spare

pub length-filled :
    (xs : List Ptr) (spare : List Cell) → length (filled xs spare) ≡ length xs + length spare
length-filled [] spare = omega arith
length-filled (x ∷ xs) spare = omega (arith, length-filled xs spare)

-- `v` holds the elements `xs`, with the cells `spare` behind them, in an array whose length is the
-- capacity, an int that is not 0.
pub record Layout (v : Vector) (xs : List Ptr) (spare : List Cell) : Type 0 where
  pub cells : v.elements ≡ filled xs spare
  pub size : v.size ≡ pos (length xs)
  pub capacity : v.capacity ≡ length xs + length spare
  pub positive : 0 < v.capacity
  pub bound : v.capacity ≤ int_max

abbrev pub Holds : Vector → List Ptr → Type 0
Holds v xs = (spare : List Cell) × Layout v xs spare

abbrev pub HoldsIn : Handle → List Ptr → Type 0
HoldsIn none xs = ⊥
HoldsIn (some v) xs = Holds v xs

-- `xs` with `p` put in front of the element at `i`, and without the element at `i`.
abbrev pub insert_nth : List Ptr → ℕ → Ptr → List Ptr
insert_nth xs zero p = p ∷ xs
insert_nth [] (suc i) p = []
insert_nth (x ∷ xs) (suc i) p = x ∷ insert_nth xs i p

abbrev pub remove_nth : List Ptr → ℕ → List Ptr
remove_nth [] i = []
remove_nth (x ∷ xs) zero = xs
remove_nth (x ∷ xs) (suc i) = x ∷ remove_nth xs i

pub length-insert_nth :
    (xs : List Ptr) (i : ℕ) (p : Ptr) → i ≤ length xs → length (insert_nth xs i p) ≡ suc (length xs)
length-insert_nth xs zero p h = refl
length-insert_nth [] (suc i) p h = absurd (omega arith)
length-insert_nth (x ∷ xs) (suc i) p h = ap suc (length-insert_nth xs i p (omega arith))

pub length-remove_nth :
    (xs : List Ptr) (i : ℕ) → i < length xs → length (remove_nth xs i) + 1 ≡ length xs
length-remove_nth [] i h = absurd (omega arith)
length-remove_nth (x ∷ xs) zero h = omega arith
length-remove_nth (x ∷ xs) (suc i) h = omega (arith, length-remove_nth xs i (omega arith))

pub take-filled :
    (xs : List Ptr) (spare : List Cell) → take (length xs) (filled xs spare) ≡ filled xs []
take-filled [] spare = refl
take-filled (x ∷ xs) spare = ap (λ l. some x ∷ l) (take-filled xs spare)

pub take-filled-suc :
    (xs : List Ptr) (c : Cell) (spare : List Cell)
    → take (suc (length xs)) (filled xs (c ∷ spare)) ≡ filled xs (c ∷ [])
take-filled-suc [] c spare = refl
take-filled-suc (x ∷ xs) c spare = ap (λ l. some x ∷ l) (take-filled-suc xs c spare)

pub drop-filled : (xs : List Ptr) (spare : List Cell) → drop (length xs) (filled xs spare) ≡ spare
drop-filled [] spare = refl
drop-filled (x ∷ xs) spare = drop-filled xs spare

pub drop-filled-suc :
    (xs : List Ptr) (c : Cell) (spare : List Cell)
    → drop (suc (length xs)) (filled xs (c ∷ spare)) ≡ spare
drop-filled-suc [] c spare = refl
drop-filled-suc (x ∷ xs) c spare = drop-filled-suc xs c spare

pub filled-append : (xs : List Ptr) (ys zs : List Cell) → filled xs ys ++ zs ≡ filled xs (ys ++ zs)
filled-append [] ys zs = refl
filled-append (x ∷ xs) ys zs = ap (λ l. some x ∷ l) (filled-append xs ys zs)

-- memmove inside the array.
pub memmove_lem :
    (cells : List Cell) (dst src n : ℕ)
    → src + n ≤ length cells
    → dst + n ≤ length cells
    → memmove cells dst src n
      ≡ ok (take dst cells ++ (take n (drop src cells) ++ drop (dst + n) cells))
unfolding memmove
memmove_lem cells dst src zero hs hd =
    ap ok
      (sym (take-append-drop dst cells) ∙ ap (λ k. take dst cells ++ drop k cells) (omega arith))
memmove_lem cells dst src (suc n) hs hd = ground arith

set-head :
    (xs : List Ptr) (c : Cell) (spare rest : List Cell) (d : Cell)
    → set (take 1 (filled xs (c ∷ spare)) ++ rest) 0 d ≡ d ∷ rest
set-head [] c spare rest d = refl
set-head (x ∷ xs) c spare rest d = refl

-- The cells from `i` on, `n` of them, moved to the right by one; `end` is where they end.
abbrev pub move_right : List Cell → (i n end : ℕ) → List Cell
move_right cells i n end = take (suc i) cells ++ (take n (drop i cells) ++ drop end cells)

-- A move to the right from `i`, and then a write to the cell that it frees.
pub set-move_right :
    (xs : List Ptr) (c : Cell) (spare : List Cell) (i n end : ℕ) (p : Ptr)
    → n + i ≡ length xs
    → end ≡ suc (length xs)
    → set (move_right (filled xs (c ∷ spare)) i n end) i (some p) ≡ filled (insert_nth xs i p) spare
set-move_right xs c spare zero n end p e ends =
    let all : n ≡ length xs = omega arith in
    rw (all, ends, take-filled, drop-filled-suc)
      (set-head xs c spare (filled xs [] ++ spare) (some p)
        ∙ ap (λ l. some p ∷ l) (filled-append xs [] spare))
set-move_right [] c spare (suc i) n end p e ends = absurd (omega arith)
set-move_right (x ∷ xs) c spare (suc i) n end p e ends =
    rw ends
      (ap (λ l. some x ∷ l) (set-move_right xs c spare i n (suc (length xs)) p (omega arith) refl))

-- A move to the left onto `i`.
pub move_left :
    (xs : List Ptr) (c : Cell) (spare : List Cell) (i n end : ℕ)
    → n + i ≡ length xs
    → 0 < n
    → end ≡ length xs
    → let cells = filled xs (c ∷ spare) in
      take i cells ++ (take n (drop (suc i) cells) ++ drop end cells)
      ≡ filled (remove_nth xs i) (c ∷ c ∷ spare)
move_left [] c spare i n end e pos_n ends = absurd (omega arith)
move_left (x ∷ xs) c spare zero n end e pos_n ends =
    let all : n ≡ suc (length xs) = omega arith in
    rw (all, ends, take-filled-suc, drop-filled) (filled-append xs (c ∷ []) (c ∷ spare))
move_left (x ∷ xs) c spare (suc i) n end e pos_n ends =
    rw ends (ap (λ l. some x ∷ l) (move_left xs c spare i n (length xs) (omega arith) pos_n refl))
