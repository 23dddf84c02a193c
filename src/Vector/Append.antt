-- ===== src/Vector/Append.antt =====
-- vector_append.
use cmake_template.Prelude.{
  ◌*◌, ◌≤◌, ◌<◌, ◌≡◌, ◌≢◌, refl, ap, some, List, [], ◌∷◌, ◌++◌, arith, length, pos, Bool, true, ℤ,
  ◌⊎◌,
}
use cmake_template.Core.{Ptr, null, Returns, not_null}
use cmake_template.Vector.{Vector, int_max, insert, append}
use cmake_template.Vector.Layout.{Holds, insert_nth}
use cmake_template.Vector.Insert.{Inserted, grown, insert-insert_nth}

append-insert :
    {v : Vector} {xs : List Ptr} (p : Ptr) (granted : Bool)
    → Holds v xs
    → p ≢ null
    → append (some v) p granted ≡ insert (some v) p (pos (length xs)) granted
unfolding append
append-insert {v} p granted (spare, l) ne =
    rw (not_null p ne) (ap (λ (k : ℤ). insert (some v) p k granted) l.size)

insert_nth-length : (xs : List Ptr) (p : Ptr) → insert_nth xs (length xs) p ≡ xs ++ p ∷ []
insert_nth-length [] p = refl
insert_nth-length (x ∷ xs) p = ap (λ l. x ∷ l) (insert_nth-length xs p)

-- On a vector that holds `xs`, with a pointer that is not NULL and room for one more, as for
-- vector_insert, vector_append succeeds: the vector holds `xs` with the pointer behind it, and its
-- capacity is doubled if it was full, and else the same.
pub append-snoc :
    {v : Vector} {xs : List Ptr} (p : Ptr) (granted : Bool)
    → Holds v xs
    → p ≢ null
    → (length xs < v.capacity) ⊎ ((granted ≡ true) × (v.capacity * 2 ≤ int_max))
    → Returns (Inserted (xs ++ p ∷ []) (grown v xs)) (append (some v) p granted)
append-snoc {v} {xs} p granted h ne room =
    rw (append-insert p granted h ne, ← insert_nth-length xs p)
      (insert-insert_nth (length xs) p granted h ne (omega arith) room)
