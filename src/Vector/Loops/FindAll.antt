-- ===== src/Vector/Loops/FindAll.antt =====
-- vector_find_all_occurrences.
use cmake_template.Prelude.{
  ℕ, zero, suc, ◌+◌, true, false, ◌≤◌, ◌<◌, ◌≡◌, refl, none, some, List, [], ◌∷◌, ◌++◌, arith,
  length, if◌then◌else◌, ◌≢◌, true, Bool, Bool-cases, inl, inr, length-append, length-replicate,
}
use cmake_template.Core.{
  Ptr, null, success, Run, ok, Returns, CmpF, is_equal, not_null, Returns-bind, ExitCode,
}
use cmake_template.Vector.{Vector, Handle, Cell, append, new, equals, int_max}
use cmake_template.Vector.Loops.Visit.{delete_lem}
use cmake_template.Vector.New.{fresh, fresh-Holds, new_lem}
use cmake_template.Vector.Loops.{find_all_loop, find_all_occurrences, rounds, appended, finish_all}
use cmake_template.Vector.Append.{append-snoc}
use cmake_template.Vector.Insert.{Inserted, grown}
use mathlib.Core.Path.{fun_ext}
use mathlib.Core.List.{append-nil, append_assoc}
use cmake_template.Vector.Layout.{filled, Holds}

-- The elements that compare equal to the key, in order.
abbrev pub matches : CmpF → Ptr → List Ptr → List Ptr
matches cmp key [] = []
matches cmp key (x ∷ xs) =
    if is_equal (cmp key x) then x ∷ matches cmp key xs else matches cmp key xs

abbrev pub NonNull : List Ptr → Type 0
NonNull [] = Unit
NonNull (x ∷ xs) = (x ≢ null) × NonNull xs

find_all-cons :
    (cmp : CmpF) (key : Ptr) (c : Cell) (cells : List Cell) (granted : Bool) (idx n : ℕ)
    → find_all_loop cmp key (c ∷ cells) granted (suc idx) n
      ≡ find_all_loop cmp key cells granted idx n
unfolding find_all_loop
find_all-cons cmp key c cells granted idx zero = fun_ext λ out. refl
find_all-cons cmp key c cells granted idx (suc n) =
    fun_ext λ out. rw (find_all-cons cmp key c cells granted (suc idx) n) refl

-- What the loop has collected: the result vector holds `xs`, in an array of `n` cells.
abbrev Collected : List Ptr → ℕ → Bool × Vector → Type 0
Collected xs n (all, out) = (all ≡ true) × Holds out xs × (out.capacity ≡ n)

length-kept :
    (hit : Bool) (x : Ptr) (done : List Ptr)
    → length (done ++ (if hit then x ∷ [] else [])) ≤ suc (length done)
length-kept hit x done = ground (arith, length-append done (if hit then x ∷ [] else []))

module _ (cmp : CmpF) (key : Ptr) (granted : Bool) (n : ℕ) where
  -- One match more is appended without a resize.
  keep-Inserted :
      (x : Ptr) (done : List Ptr) (out : Vector)
      → x ≢ null
      → Holds out done
      → out.capacity ≡ n
      → length done < n
      → Returns
          (Inserted (done ++ (if is_equal (cmp key x) then x ∷ [] else [])) n)
          (if is_equal (cmp key x) then append (some out) x granted else ok (success, some out))
  keep-Inserted x done out ne h size room = elim (Bool-cases (is_equal (cmp key x))) [
    | inl hit ↦ rw hit (rw same at (append-snoc x granted h ne (inl (omega arith))))
    | inr miss ↦ rw (miss, append-nil) (refl, h, size)
  ]
    where
      same : grown out done ≡ n
      same = ground arith

  appended-Collected :
      (next : Vector → Run (Bool × Vector)) (xs ys : List Ptr) (result : ExitCode × Handle)
      → Inserted xs n result
      → ((t : Vector) → Holds t xs → t.capacity ≡ n → Returns (Collected ys n) (next t))
      → Returns (Collected ys n) (appended next result)
  unfolding appended
  appended-Collected next xs ys (code, none) p later = elim p.1 [ ]
  appended-Collected next xs ys (code, some t) (e, h, size) later = rw e (later t h size)

  matches-cons :
      (x : Ptr) (xs : List Ptr)
      → matches cmp key (x ∷ xs)
        ≡ (if is_equal (cmp key x) then x ∷ [] else []) ++ matches cmp key xs
  matches-cons x xs = ground arith

  find_all-filled :
      (xs done : List Ptr) (spare : List Cell) (out : Vector)
      → NonNull xs
      → Holds out done
      → out.capacity ≡ n
      → length done + length xs ≤ n
      → Returns
          (Collected (done ++ matches cmp key xs) n)
          (find_all_loop cmp key (filled xs spare) granted 0 (length xs) out)
  unfolding find_all_loop
  find_all-filled [] done spare out ne h size room = rw append-nil (refl, h, size)
  find_all-filled (x ∷ xs) done spare out ne h size room =
      rw
        (
          find_all-cons cmp key (some x) (filled xs spare) granted 0 (length xs),
          matches-cons,
          ← append_assoc,
        )
        (Returns-bind _ _
          (if is_equal (cmp key x) then append (some out) x granted else ok (success, some out)) _
          (keep-Inserted x done out ne.0 h size (omega arith))
          λ result p.
            appended-Collected (find_all_loop cmp key (filled xs spare) granted 0 (length xs)) _ _
              result p
              λ t k e.
                find_all-filled xs _ spare t ne.1 k e
                  (omega (arith, length-kept (is_equal (cmp key x)) x done)))

-- The answer of vector_find_all_occurrences: NULL for no match, and else a vector of the matches.
abbrev pub Found : List Ptr → Handle → Type 0
Found xs none = xs ≡ []
Found xs (some t) = (xs ≢ []) × Holds t xs

finish_all-Found :
    (v : Vector) (xs : List Ptr) (n : ℕ) (result : Bool × Vector)
    → Collected xs n result
    → Returns
        (λ (h, source, freed). Found xs h × (source ≡ some v) × (freed ≡ []))
        (finish_all v result.0 result.1)
unfolding finish_all
finish_all-Found v [] n (all, out) (e, h, size) =
    let empty : equals out.size 0 ≡ true = rw h.1.size refl in
    rw (e, empty, delete_lem h) (refl, refl, refl)
finish_all-Found v (x ∷ xs) n (all, out) (e, h, size) =
    let some_match : equals out.size 0 ≡ false = rw h.1.size (ground arith) in
    rw (e, some_match) ((cc, h), refl, refl)

-- On a vector that holds `xs`, at least one element and none of them NULL, with a key that is not
-- NULL, a callback that is not NULL and its allocations granted, vector_find_all_occurrences returns
-- a new vector of the elements of `xs` that compare equal to the key, in order, or NULL if there are
-- none; the vector itself is left as it was, and nothing is handed to the callback.
pub find_all_occurrences-matches :
    {v : Vector} {xs : List Ptr} (key : Ptr) (granted : Bool)
    → Holds v xs
    → NonNull xs
    → 0 < length xs
    → key ≢ null
    → v.custom_free ≢ null
    → Returns
        (λ (h, source, freed).
          Found (matches v.compare_func key xs) h × (source ≡ some v) × (freed ≡ []))
        (find_all_occurrences (some v) key true true granted)
unfolding find_all_occurrences
find_all_occurrences-matches {v} {xs} key granted (spare, l) ne some_element key_ne free_ne =
    rw (not_null key key_ne, some_size, made)
      (Returns-bind _ _ (find_all_loop v.compare_func key v.elements granted 0 (rounds v.size) out)
        _ collected λ result p. finish_all-Found v (matches v.compare_func key xs) n result p)
  where
    n : ℕ
    n = length xs

    out : Vector
    out = fresh v.custom_free v.compare_func n

    some_size : equals v.size 0 ≡ false
    some_size = rw l.size (ground arith)

    made : new v.custom_free (some v.compare_func) v.size true true ≡ some out
    made = rw l.size (new_lem v.custom_free v.compare_func n free_ne)

    bounded : n ≤ int_max
    bounded = omega (arith, l.capacity, l.bound)

    collected :
        Returns
          (Collected (matches v.compare_func key xs) n)
          (find_all_loop v.compare_func key v.elements granted 0 (rounds v.size) out)
    collected =
        rw (l.cells, l.size)
          (find_all-filled v.compare_func key granted n xs [] spare out ne
            (fresh-Holds v.custom_free v.compare_func n some_element bounded)
            (length-replicate {A = Cell} n (some null)) (omega arith))
