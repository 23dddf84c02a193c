-- ===== src/Vector/Remove.antt =====
-- vector_remove, vector_pop and vector_shift_elements_left.
use cmake_template.Prelude.{
  ℕ, zero, suc, ◌+◌, ◌-◌, ◌≤◌, ◌<◌, ◌≡◌, refl, ap, some, List, [], ◌∷◌, ◌++◌, arith, length, pos,
  pred_ℤ, get_elem?, ◌∙◌, length-append,
}
use cmake_template.Core.{Ptr, success, ok, fault, Returns, read}
use cmake_template.Vector.{
  Vector, Cell, at, pop, remove, shift_elements_left, shift_elements, memmove,
}
use cmake_template.Vector.Insert.{in_bounds}
use cmake_template.Vector.Access.{
  at_lem, bounds, get_elem?-filled_end, lt_of_get_elem?, get_elem?_of_lt,
}
use cmake_template.Vector.Layout.{
  filled, length-filled, Layout, Holds, HoldsIn, remove_nth, length-remove_nth, memmove_lem,
  move_left,
}

shift_left_lem :
    (v : Vector) (i n : ℕ) (cells : List Cell)
    → i ≤ n
    → v.size ≡ pos n
    → memmove v.elements i (suc i) (n - i) ≡ ok cells
    → shift_elements_left v (pos i)
      ≡ ok (success, record v { elements = cells; size = pred_ℤ (pos n) })
unfolding shift_elements_left shift_elements
shift_left_lem v i n cells h size moved = rw (size, in_bounds i n h, moved) refl

pred-pos : (n : ℕ) → pred_ℤ (pos (suc n)) ≡ pos n
pred-pos n = ground arith

pred-length :
    (xs : List Ptr) (i : ℕ)
    → i < length xs
    → pred_ℤ (pos (length xs)) ≡ pos (length (remove_nth xs i))
pred-length xs i h = ground (arith, length-remove_nth xs i)

sub_self : (n : ℕ) → n - n ≡ 0
sub_self n = omega arith

memmove_nothing : (cells : List Cell) (dst src : ℕ) → memmove cells dst src 0 ≡ ok cells
unfolding memmove
memmove_nothing cells dst src = refl

memmove_overrun :
    (cells : List Cell) (dst src n : ℕ)
    → 0 < n
    → length cells < src + n
    → memmove cells dst src n ≡ fault
unfolding memmove
memmove_overrun cells dst src zero h over = absurd (omega arith)
memmove_overrun cells dst src (suc n) h over = ground arith

shift_left_fault :
    (v : Vector) (i n : ℕ)
    → i ≤ n
    → v.size ≡ pos n
    → memmove v.elements i (suc i) (n - i) ≡ fault
    → shift_elements_left v (pos i) ≡ fault
unfolding shift_elements_left shift_elements
shift_left_fault v i n h size over = rw (size, in_bounds i n h, over) refl

-- A shift from the end of the elements moves no cell.
shift_left_none :
    (v : Vector) (n : ℕ)
    → v.size ≡ pos n
    → shift_elements_left v (pos n) ≡ ok (success, record v { size = pred_ℤ (pos n) })
shift_left_none v n size = shift_left_lem v n n v.elements (omega arith) size none_moved
  where
    none_moved : memmove v.elements n (suc n) (n - n) ≡ ok v.elements
    none_moved = rw (sub_self n) (memmove_nothing v.elements n (suc n))

pop_lem :
    (v : Vector) (n : ℕ) (x : Ptr)
    → v.size ≡ pos (suc n)
    → at v.elements (pos n) ≡ ok x
    → pop (some v) ≡ ok (x, some (record v { size = pos n }))
unfolding pop
pop_lem v n x size last =
    rw
      (
        size,
        pred-pos n,
        last,
        shift_left_none (record v { size = pos (suc n) }) (suc n) refl,
        pred-pos n,
      )
      refl

filled-snoc :
    (xs : List Ptr) (x : Ptr) (spare : List Cell)
    → filled (xs ++ x ∷ []) spare ≡ filled xs (some x ∷ spare)
filled-snoc [] x spare = refl
filled-snoc (y ∷ xs) x spare = ap (λ l. some y ∷ l) (filled-snoc xs x spare)

-- On a vector that holds `xs` and has a cell that is not in use, at the index of an element of
-- `xs`, vector_remove succeeds: it hands that element to the callback, once, and the vector holds
-- `xs` without it.
pub remove-remove_nth :
    {v : Vector} {xs : List Ptr} (i : ℕ) (x : Ptr)
    → Holds v xs
    → length xs < v.capacity
    → get_elem? xs i ≡ some x
    → Returns
        (λ (code, h, freed). (code ≡ success) × HoldsIn h (remove_nth xs i) × (freed ≡ x ∷ []))
        (remove (some v) (pos i))
unfolding remove
remove-remove_nth i x ([], l) room e = absurd (omega (arith, l.capacity))
remove-remove_nth {v} {xs} i x (c ∷ spare, l) room e =
    rw
      (
        bounds l i (omega (arith, inside)),
        at_lem l i x e,
        shift_left_lem v i (length xs) (filled (remove_nth xs i) (c ∷ c ∷ spare))
            (omega (arith, inside)) l.size move,
      )
      (
        refl,
        (
          c ∷ c ∷ spare,
          record {
            cells = refl;
            size = pred-length xs i inside;
            capacity = omega (arith, l.capacity, length-remove_nth xs i inside);
            positive = l.positive;
            bound = l.bound;
          },
        ),
        refl,
      )
  where
    inside : i < length xs
    inside = lt_of_get_elem? xs i x e

    move :
        memmove v.elements i (suc i) (length xs - i) ≡ ok (filled (remove_nth xs i) (c ∷ c ∷ spare))
    move = rw l.cells (
        memmove_lem (filled xs (c ∷ spare)) i (suc i) (length xs - i)
          (omega (arith, inside, length-filled xs (c ∷ spare)))
          (omega (arith, inside, length-filled xs (c ∷ spare)))
        ∙ ap ok (
            move_left xs c spare i (length xs - i) (i + (length xs - i)) (omega (arith, inside))
              (omega (arith, inside)) (omega (arith, inside))))

-- On a vector with all its cells in use, vector_remove moves one cell too many: at the index of any
-- element the move reads behind the array.
pub remove_overruns :
    {v : Vector} {xs : List Ptr} (i : ℕ)
    → Layout v xs []
    → i < length xs
    → remove (some v) (pos i) ≡ fault
unfolding remove
remove_overruns {v} {xs} i l h =
    let (x, e) = get_elem?_of_lt xs i h in
    rw
      (
        bounds l i (omega arith),
        at_lem l i x e,
        shift_left_fault v i (length xs) (omega arith) l.size over,
      )
      refl
  where
    over : memmove v.elements i (suc i) (length xs - i) ≡ fault
    over = rw l.cells (
        memmove_overrun (filled xs []) i (suc i) (length xs - i) (omega arith)
          (omega (arith, length-filled xs [])))

-- The test of bounds lets the number of elements itself pass: there, with a cell behind the
-- elements that was written before, vector_remove takes the last element off the vector, or leaves
-- a size of -1 on an empty one, and hands the stale pointer in that cell to the callback.
pub remove_past_end :
    {v : Vector} {xs : List Ptr} {stale : Ptr} {spare : List Cell}
    → Layout v xs (some stale ∷ spare)
    → remove (some v) (pos (length xs))
      ≡ ok (success, some (record v { size = pred_ℤ (pos (length xs)) }), stale ∷ [])
unfolding remove
remove_past_end {v} {xs} {stale} {spare} l =
    rw (bounds l (length xs) (omega arith), stale_cell, shift_left_none v (length xs) l.size) refl
  where
    stale_cell : at v.elements (pos (length xs)) ≡ ok stale
    stale_cell = rw (l.cells, get_elem?-filled_end xs (some stale ∷ spare), read) refl

-- On a vector whose last element is `x`, vector_pop returns it, and the vector holds the others.
pub pop-snoc :
    {v : Vector} (xs : List Ptr) (x : Ptr)
    → Holds v (xs ++ x ∷ [])
    → Returns (λ (p, h). (p ≡ x) × HoldsIn h xs) (pop (some v))
unfolding pop
pop-snoc {v} xs x (spare, l) = rw (pop_lem v (length xs) x size last) (
  refl,
  (
    some x ∷ spare,
    record {
      cells = l.cells ∙ filled-snoc xs x spare;
      size = refl;
      capacity = omega (arith, l.capacity, length-append xs (x ∷ []));
      positive = l.positive;
      bound = l.bound;
    },
  ),
)
  where
    size : v.size ≡ pos (suc (length xs))
    size = l.size ∙ ap pos (omega (arith, length-append xs (x ∷ [])))

    last : at v.elements (pos (length xs)) ≡ ok x
    last = rw (l.cells, filled-snoc xs x spare, get_elem?-filled_end xs (some x ∷ spare), read) refl

-- On an empty vector vector_pop reads in front of the array.
pub pop_empty : {v : Vector} → Holds v [] → pop (some v) ≡ fault
unfolding pop
pop_empty (spare, l) = rw l.size refl
