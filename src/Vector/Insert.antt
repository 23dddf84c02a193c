-- ===== src/Vector/Insert.antt =====
-- vector_insert and vector_resize.
use cmake_template.Prelude.{
  ℕ, suc, ◌+◌, ◌-◌, ◌*◌, ◌≤◌, ◌<◌, ◌≡◌, ◌≢◌, refl, ap, none, some, List, [], ◌∷◌, ◌++◌, arith,
  length, pos, Bool, true, false, replicate, set, ℤ, suc_ℤ, length-set, sym, ltb, ◌||◌, ◌==◌,
  replicate_pos, length-replicate, ◌⊎◌, inl, inr, Bool-cases, if◌then◌else◌,
}
use cmake_template.Core.{Ptr, null, success, failure, ok, Returns, write_lem, ExitCode, not_null}
use cmake_template.Vector.{
  Vector, Handle, Cell, int_max, memmove, shift_elements_right, shift_elements, resize, insert_at,
  out_of_bounds, equals, insert,
}
use cmake_template.Vector.Layout.{
  filled, length-filled, Layout, Holds, HoldsIn, insert_nth, move_right, length-insert_nth,
  memmove_lem, set-move_right, filled-append,
}

-- An index from the start of the elements to just behind them passes the test of bounds.
pub in_bounds : (i n : ℕ) → i ≤ n → out_of_bounds (pos i) (pos n) ≡ false
in_bounds i n h = ground arith

suc-pos : (n : ℕ) → suc_ℤ (pos n) ≡ pos (suc n)
suc-pos n = ground arith

shift_right_lem :
    (v : Vector) (i n : ℕ) (cells : List Cell)
    → i ≤ n
    → v.size ≡ pos n
    → memmove v.elements (suc i) i (n - i) ≡ ok cells
    → shift_elements_right v (pos i)
      ≡ ok (success, record v { elements = cells; size = pos (suc n) })
unfolding shift_elements_right shift_elements
shift_right_lem v i n cells h size moved =
    rw (size, in_bounds i n h, moved)
      (ap (λ (m : ℤ). ok (success, record v { elements = cells; size = m })) (suc-pos n))

-- Behind its guards and its resize, with room for one more, an insertion puts `p` in its place.
insert_at_lem :
    {v : Vector} {xs : List Ptr} {c : Cell} {spare : List Cell} (i : ℕ) (p : Ptr)
    → Layout v xs (c ∷ spare)
    → i ≤ length xs
    → insert_at v p (pos i)
      ≡ ok (
        success,
        some (record v {
          elements = filled (insert_nth xs i p) spare;
          size = pos (suc (length xs));
        }),
      )
unfolding insert_at
insert_at_lem {v} {xs} {c} {spare} i p l h =
    rw
      (
        shift_right_lem v i (length xs) moved h l.size move,
        write_lem moved i (some p) inside,
        placed,
      )
      refl
  where
    moved : List Cell
    moved = move_right (filled xs (c ∷ spare)) i (length xs - i) (suc i + (length xs - i))

    move : memmove v.elements (suc i) i (length xs - i) ≡ ok moved
    move = rw l.cells (
        memmove_lem (filled xs (c ∷ spare)) (suc i) i (length xs - i)
          (omega (arith, length-filled xs (c ∷ spare)))
          (omega (arith, length-filled xs (c ∷ spare))))

    placed : set moved i (some p) ≡ filled (insert_nth xs i p) spare
    placed =
        set-move_right xs c spare i (length xs - i) (suc i + (length xs - i)) p (omega arith)
          (omega arith)

    inside : i < length moved
    inside = omega (
      arith,
      length-set moved i (some p),
      ap length placed,
      length-filled (insert_nth xs i p) spare,
      length-insert_nth xs i p h,
    )

-- The capacity behind a handle.
abbrev pub HasCapacity : Handle → ℕ → Type 0
HasCapacity none n = ⊥
HasCapacity (some v) n = v.capacity ≡ n

-- The capacity that `v` has after it took in one more than `xs`: twice as much if it was full.
abbrev pub grown : Vector → List Ptr → ℕ
grown v xs = if length xs == v.capacity then v.capacity * 2 else v.capacity

-- A call that succeeds, and leaves `xs` behind the handle, with room for `n`.
abbrev pub Inserted : List Ptr → ℕ → ExitCode × Handle → Type 0
Inserted xs n (code, h) = (code ≡ success) × HoldsIn h xs × HasCapacity h n

insert_at-Inserted :
    {v : Vector} {xs : List Ptr} {c : Cell} {spare : List Cell} (i : ℕ) (p : Ptr)
    → Layout v xs (c ∷ spare)
    → i ≤ length xs
    → Returns (Inserted (insert_nth xs i p) v.capacity) (insert_at v p (pos i))
insert_at-Inserted {xs} {spare} i p l h = rw (insert_at_lem i p l h) (
  refl,
  (
    spare,
    record {
      cells = refl;
      size = ap pos (sym (length-insert_nth xs i p h));
      capacity = omega (arith, l.capacity, length-insert_nth xs i p h);
      positive = l.positive;
      bound = l.bound;
    },
  ),
  refl,
)

-- The vector that a granted resize leaves.
abbrev doubled : Vector → Vector
doubled v = record v {
  elements = v.elements ++ replicate v.capacity none;
  capacity = v.capacity * 2;
}

resizable :
    (v : Vector)
    → 0 < v.capacity
    → v.capacity * 2 ≤ int_max
    → (ltb int_max (v.capacity * 2) || (v.capacity == 0)) ≡ false
resizable v h b = ground arith

resize_lem :
    (v : Vector)
    → 0 < v.capacity
    → v.capacity * 2 ≤ int_max
    → resize v true ≡ ok (success, doubled v)
unfolding resize
resize_lem v h b = rw (resizable v h b) refl

resize_refused :
    (v : Vector) → 0 < v.capacity → v.capacity * 2 ≤ int_max → resize v false ≡ ok (failure, v)
unfolding resize
resize_refused v h b = rw (resizable v h b) refl

doubled-Layout :
    {v : Vector} {xs : List Ptr}
    → Layout v xs []
    → v.capacity * 2 ≤ int_max
    → Layout (doubled v) xs (none ∷ replicate (v.capacity - 1) none)
doubled-Layout {v} {xs} l b = record {
  cells =
      rw (l.cells, filled-append xs [] (replicate v.capacity none))
        (ap (filled xs) (replicate_pos v.capacity none l.positive));
  size = l.size;
  capacity = omega (arith, l.capacity, length-replicate {A = Cell} (v.capacity - 1) none);
  positive = omega arith;
  bound = b;
}

module _ {v : Vector} {xs : List Ptr} (i : ℕ) (p : Ptr) (ne : p ≢ null) (h : i ≤ length xs) where
  insert_with_room :
      (granted : Bool) (c : Cell) (spare : List Cell)
      → Layout v xs (c ∷ spare)
      → insert (some v) p (pos i) granted ≡ insert_at v p (pos i)
  unfolding insert
  insert_with_room granted c spare l = rw (not_null p ne, bounds, room) refl
    where
      bounds : out_of_bounds (pos i) v.size ≡ false
      bounds = rw l.size (in_bounds i (length xs) h)

      room : equals v.size v.capacity ≡ false
      room = rw l.size (ground (arith, l.capacity))

  insert_when_full :
      Layout v xs []
      → v.capacity * 2 ≤ int_max
      → insert (some v) p (pos i) true ≡ insert_at (doubled v) p (pos i)
  unfolding insert
  insert_when_full l b = rw (not_null p ne, bounds, full, resize_lem v l.positive b) refl
    where
      bounds : out_of_bounds (pos i) v.size ≡ false
      bounds = rw l.size (in_bounds i (length xs) h)

      full : equals v.size v.capacity ≡ true
      full = rw l.size (ground (arith, l.capacity))

-- On a vector that holds `xs`, with a pointer that is not NULL, an index between 0 and the number
-- of elements, and room for one more (a cell that is not in use, or a granted realloc to twice the
-- capacity, which an int must hold), vector_insert succeeds: the vector holds `xs` with the pointer
-- put in at the index, and its capacity is doubled if it was full, and else the same.
pub insert-insert_nth :
    {v : Vector} {xs : List Ptr} (i : ℕ) (p : Ptr) (granted : Bool)
    → Holds v xs
    → p ≢ null
    → i ≤ length xs
    → (length xs < v.capacity) ⊎ ((granted ≡ true) × (v.capacity * 2 ≤ int_max))
    → Returns (Inserted (insert_nth xs i p) (grown v xs)) (insert (some v) p (pos i) granted)
insert-insert_nth {v} {xs} i p granted (c ∷ spare, l) ne h room =
    rw (insert_with_room i p ne h granted c spare l, same) (insert_at-Inserted i p l h)
  where
    same : grown v xs ≡ v.capacity
    same = ground (arith, l.capacity)
insert-insert_nth i p granted ([], l) ne h (inl room) = absurd (omega (arith, l.capacity))
insert-insert_nth {v} {xs} i p granted ([], l) ne h (inr (e, b)) =
    rw (e, insert_when_full i p ne h l b, twice) (insert_at-Inserted i p (doubled-Layout l b) h)
  where
    twice : grown v xs ≡ v.capacity * 2
    twice = ground (arith, l.capacity)

-- vector_insert refuses a NULL pointer, an index that is negative or past the number of elements,
-- and a full vector whose realloc fails: it returns E_FAILURE, and leaves the vector as it was.
pub insert_refused :
    {v : Vector} {xs : List Ptr} (index : ℤ) (p : Ptr) (granted : Bool)
    → Holds v xs
    → v.capacity * 2 ≤ int_max
    → (p ≡ null)
      ⊎ (out_of_bounds index (pos (length xs)) ≡ true)
      ⊎ ((length xs ≡ v.capacity) × (granted ≡ false))
    → insert (some v) p index granted ≡ ok (failure, some v)
unfolding insert
insert_refused index p granted (spare, l) b (inl e) = rw e refl
insert_refused {v} {xs} index p granted (spare, l) b (inr why) = elim (Bool-cases (p == null)) [
  | inl e ↦ rw e refl
  | inr e ↦ rw e (elim why [
    | inl out ↦ let outside : out_of_bounds index v.size ≡ true = rw l.size out in rw outside refl
    | inr (full, no_memory) ↦ elim (Bool-cases (out_of_bounds index v.size)) [
      | inl out ↦ rw out refl
      | inr inside ↦
          let at_capacity : equals v.size v.capacity ≡ true = rw l.size (ground arith) in
          rw (inside, no_memory, at_capacity, resize_refused v l.positive b) refl
    ]
  ])
]
