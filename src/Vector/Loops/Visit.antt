-- ===== src/Vector/Loops/Visit.antt =====
-- vector_iterate, vector_find_first_occurrence, vector_clear and vector_delete.
use cmake_template.Prelude.{
  ℕ, zero, suc, true, false, ◌≡◌, refl, ap, none, some, List, [], ◌∷◌, arith, length, if◌then◌else◌,
  ◌≢◌, true,
}
use cmake_template.Core.{Ptr, null, success, ok, Returns, CmpF, is_equal, not_null}
use cmake_template.Vector.{Vector, Cell}
use cmake_template.Vector.Loops.{
  visit, find_loop, find_first_occurrence, iterate, clear, delete, rounds,
}
use cmake_template.Vector.Layout.{filled, length-filled, Holds, HoldsIn}

-- A loop that starts behind the first cell does not see that cell.
visit-cons :
    (c : Cell) (cells : List Cell) (idx n : ℕ) → visit (c ∷ cells) (suc idx) n ≡ visit cells idx n
unfolding visit
visit-cons c cells idx zero = refl
visit-cons c cells idx (suc n) = rw (visit-cons c cells (suc idx) n) refl

visit-filled : (xs : List Ptr) (spare : List Cell) → visit (filled xs spare) 0 (length xs) ≡ ok xs
unfolding visit
visit-filled [] spare = refl
visit-filled (x ∷ xs) spare =
    rw (visit-cons (some x) (filled xs spare) 0 (length xs), visit-filled xs spare) refl

-- The first element that compares equal to the key, NULL if none does.
abbrev pub first_match : CmpF → Ptr → List Ptr → Ptr
first_match cmp key [] = null
first_match cmp key (x ∷ xs) = if is_equal (cmp key x) then x else first_match cmp key xs

find-cons :
    (cmp : CmpF) (key : Ptr) (c : Cell) (cells : List Cell) (idx n : ℕ)
    → find_loop cmp key (c ∷ cells) (suc idx) n ≡ find_loop cmp key cells idx n
unfolding find_loop
find-cons cmp key c cells idx zero = refl
find-cons cmp key c cells idx (suc n) = rw (find-cons cmp key c cells (suc idx) n) refl

find-filled :
    (cmp : CmpF) (key : Ptr) (xs : List Ptr) (spare : List Cell)
    → find_loop cmp key (filled xs spare) 0 (length xs) ≡ ok (first_match cmp key xs)
unfolding find_loop
find-filled cmp key [] spare = refl
find-filled cmp key (x ∷ xs) spare =
    rw (find-cons cmp key (some x) (filled xs spare) 0 (length xs), find-filled cmp key xs spare)
      (elim (is_equal (cmp key x))
        as (λ b.
          (if b then ok x else ok (first_match cmp key xs))
          ≡ ok (if b then x else first_match cmp key xs)) [ true ↦ refl | false ↦ refl ])

module _ {v : Vector} {xs : List Ptr} (h : Holds v xs) where
  visit_lem : visit v.elements 0 (rounds v.size) ≡ ok xs
  visit_lem = rw (h.1.cells, h.1.size) (visit-filled xs h.0)

  -- On a vector that holds `xs`, with a callback that is not NULL, vector_iterate succeeds, and
  -- calls the callback on each element of `xs` once, in order.
  pub iterate_lem : (action : Ptr) → action ≢ null → iterate (some v) action ≡ ok (success, xs)
  unfolding iterate
  iterate_lem action ne = rw (not_null action ne, visit_lem) refl

  -- On a vector that holds `xs`, with a key that is not NULL, vector_find_first_occurrence returns
  -- the first element of `xs` that the vector's comparison function finds equal to the key, and
  -- NULL if there is none.
  pub find_first_occurrence-first_match :
      (key : Ptr)
      → key ≢ null
      → find_first_occurrence (some v) key ≡ ok (first_match v.compare_func key xs)
  unfolding find_first_occurrence
  find_first_occurrence-first_match key ne =
      rw (not_null key ne, h.1.cells, h.1.size) (find-filled v.compare_func key xs h.0)

  -- On a vector that holds `xs`, vector_clear succeeds, hands each element of `xs` to the callback
  -- once, in order, and leaves a vector that holds nothing in the same array.
  pub clear-HoldsIn :
      Returns (λ (code, t, freed). (code ≡ success) × HoldsIn t [] × (freed ≡ xs)) (clear (some v))
  unfolding clear
  clear-HoldsIn = rw visit_lem (
    refl,
    (
      v.elements,
      record {
        cells = refl;
        size = refl;
        capacity = omega (arith, h.1.capacity, ap length h.1.cells, length-filled xs h.0);
        positive = h.1.positive;
        bound = h.1.bound;
      },
    ),
    refl,
  )

  -- On a vector that holds `xs`, vector_delete hands each element of `xs` to the callback once, in
  -- order, and sets the caller's pointer to NULL.
  pub delete_lem : delete (some v) ≡ ok (none, xs)
  unfolding delete clear
  delete_lem = rw visit_lem refl
