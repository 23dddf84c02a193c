-- ===== src/Vector/Access.antt =====
-- vector_get_element and vector_set_element.
use cmake_template.Prelude.{
  ℕ, zero, suc, ◌≡◌, refl, ap, some, List, [], ◌∷◌, arith, length, pos, ◌≢◌, get_elem?, ◌<◌, ◌≤◌,
  set, false, length-set,
}
use cmake_template.Core.{Ptr, null, success, ok, ◌>>=◌, Returns, read, not_null, write_lem}
use cmake_template.Vector.{Vector, Cell, at, get_element, set_element, pointer, out_of_bounds}
use cmake_template.Vector.Insert.{in_bounds}
use cmake_template.Vector.Layout.{filled, length-filled, Layout, HoldsIn}

pub get_elem?-filled :
    (xs : List Ptr) (spare : List Cell) (i : ℕ) (x : Ptr)
    → get_elem? xs i ≡ some x
    → get_elem? (filled xs spare) i ≡ some (some x)
get_elem?-filled [] spare i x e = cc
get_elem?-filled (y ∷ xs) spare zero x e = cc
get_elem?-filled (y ∷ xs) spare (suc i) x e = get_elem?-filled xs spare i x e

pub set-filled :
    (xs : List Ptr) (spare : List Cell) (i : ℕ) (p : Ptr)
    → i < length xs
    → set (filled xs spare) i (some p) ≡ filled (set xs i p) spare
set-filled [] spare i p h = absurd (omega arith)
set-filled (y ∷ xs) spare zero p h = refl
set-filled (y ∷ xs) spare (suc i) p h = ap (λ l. some y ∷ l) (set-filled xs spare i p (omega arith))

pub lt_of_get_elem? : (xs : List Ptr) (i : ℕ) (x : Ptr) → get_elem? xs i ≡ some x → i < length xs
lt_of_get_elem? [] i x e = cc
lt_of_get_elem? (y ∷ xs) zero x e = omega arith
lt_of_get_elem? (y ∷ xs) (suc i) x e = omega (arith, lt_of_get_elem? xs i x e)

pub get_elem?_of_lt :
    (xs : List Ptr) (i : ℕ) → i < length xs → (x : Ptr) × (get_elem? xs i ≡ some x)
get_elem?_of_lt [] i h = absurd (omega arith)
get_elem?_of_lt (y ∷ xs) zero h = (y, refl)
get_elem?_of_lt (y ∷ xs) (suc i) h = get_elem?_of_lt xs i (omega arith)

-- The cell behind the elements.
pub get_elem?-filled_end :
    (xs : List Ptr) (spare : List Cell)
    → get_elem? (filled xs spare) (length xs) ≡ get_elem? spare 0
get_elem?-filled_end [] spare = refl
get_elem?-filled_end (x ∷ xs) spare = get_elem?-filled_end xs spare

module _ {v : Vector} {xs : List Ptr} {spare : List Cell} (l : Layout v xs spare) where
  pub at_lem : (i : ℕ) (x : Ptr) → get_elem? xs i ≡ some x → at v.elements (pos i) ≡ ok x
  at_lem i x e = rw (l.cells, get_elem?-filled xs spare i x e, read) refl

  pub bounds : (i : ℕ) → i ≤ length xs → out_of_bounds (pos i) v.size ≡ false
  bounds i h = rw l.size (in_bounds i (length xs) h)

  -- Where `xs` has an element at an index, vector_get_element returns that element.
  pub get_element-get_elem? :
      (i : ℕ) (x : Ptr) → get_elem? xs i ≡ some x → get_element (some v) (pos i) ≡ ok x
  unfolding get_element
  get_element-get_elem? i x e =
      rw (bounds i (omega (arith, lt_of_get_elem? xs i x e)), at_lem i x e) refl

  -- The test of bounds lets the number of elements itself pass: there, vector_get_element
  -- reads the cell behind the elements, and leaves the array if all its cells are in use.
  pub get_element_past_end :
      get_element (some v) (pos (length xs)) ≡ (do c ← read spare 0; pointer c)
  unfolding get_element
  get_element_past_end =
      rw (bounds (length xs) (omega arith), l.cells, get_elem?-filled_end xs spare, read) refl

  -- At an index below the number of elements, with a pointer that is not NULL, vector_set_element
  -- succeeds, and the vector holds `xs` with that element replaced.
  pub set_element-set :
      (i : ℕ) (p : Ptr)
      → p ≢ null
      → i < length xs
      → Returns
          (λ (code, h). (code ≡ success) × HoldsIn h (set xs i p))
          (set_element (some v) p (pos i))
  unfolding set_element
  set_element-set i p ne h =
      rw
        (
          not_null p ne,
          bounds i (omega arith),
          l.cells,
          write_lem (filled xs spare) i (some p) (omega (arith, length-filled xs spare)),
          set-filled xs spare i p h,
        )
        (
          refl,
          (
            spare,
            record {
              cells = refl;
              size = rw (length-set xs i p) l.size;
              capacity = rw (length-set xs i p) l.capacity;
              positive = l.positive;
              bound = l.bound;
            },
          ),
        )
