-- ===== src/Vector/Loops.antt =====
-- The loops of vector.c: vector_iterate, vector_find_first_occurrence, vector_clear, vector_delete
-- and vector_find_all_occurrences.
pub mod Visit
pub mod FindAll
use cmake_template.Prelude.{
  ℕ, zero, suc, ℤ, pos, negsuc, Bool, true, false, none, some, List, [], ◌∷◌, if◌then◌else◌, ◌==◌,
}
use cmake_template.Core.{
  Ptr, null, ExitCode, success, failure, CmpF, is_equal, succeeded, Run, ok, fault, ◌>>=◌,
}
use cmake_template.Vector.{Vector, Handle, Cell, at, equals, new, append}

-- The rounds of `for (idx = 0; idx < size; idx++)`.
abbrev pub rounds : ℤ → ℕ
rounds (pos n) = n
rounds (negsuc n) = 0

-- The elements from `idx` on, in the order in which a loop of `n` rounds hands them to a callback.
pub visit : List Cell → (idx n : ℕ) → Run (List Ptr)
visit cells idx zero = ok []
visit cells idx (suc n) = do p ← at cells (pos idx); rest ← visit cells (suc idx) n; ok (p ∷ rest)

-- vector_iterate, with the elements handed to `action_function`.
pub iterate : Handle → (action_function : Ptr) → Run (ExitCode × List Ptr)
iterate none action_function = ok (failure, [])
iterate (some v) action_function =
    if action_function == null
    then ok (failure, [])
    else (do called ← visit v.elements 0 (rounds v.size); ok (success, called))

-- The loop of vector_find_first_occurrence.
pub find_loop : CmpF → Ptr → List Cell → (idx n : ℕ) → Run Ptr
find_loop cmp key cells idx zero = ok null
find_loop cmp key cells idx (suc n) = do
  p ← at cells (pos idx)
  let rest = find_loop cmp key cells (suc idx) n
  if is_equal (cmp key p) then ok p else rest

-- vector_find_first_occurrence
pub find_first_occurrence : Handle → (search_data : Ptr) → Run Ptr
find_first_occurrence none search_data = ok null
find_first_occurrence (some v) search_data =
    if search_data == null
    then ok null
    else find_loop v.compare_func search_data v.elements 0 (rounds v.size)

-- vector_clear, with the data handed to `custom_free`.
pub clear : Handle → Run (ExitCode × Handle × List Ptr)
clear none = ok (failure, none, [])
clear (some v) = do
  freed ← visit v.elements 0 (rounds v.size)
  ok (success, some (record v { size = pos 0 }), freed)

-- vector_delete, whose argument is `&vector`.
pub delete : Handle → Run (Handle × List Ptr)
delete none = ok (none, [])
delete (some v) = do
  (code, v', freed) ← clear (some v)
  ok (if succeeded code then none else v', freed)

-- What the loop of vector_find_all_occurrences does with the result of an append: it goes on by
-- `next`, or stops.
pub appended : (Vector → Run (Bool × Vector)) → ExitCode × Handle → Run (Bool × Vector)
appended next (code, none) = fault
appended next (code, some out) = if succeeded code then next out else ok (false, out)

-- The loop of vector_find_all_occurrences: whether every match was appended, and the result vector.
pub find_all_loop :
    CmpF → Ptr → List Cell → (granted : Bool) → (idx n : ℕ) → Vector → Run (Bool × Vector)
find_all_loop cmp key cells granted idx zero out = ok (true, out)
find_all_loop cmp key cells granted idx (suc n) out = do
  p ← at cells (pos idx)
  result ← if is_equal (cmp key p) then append (some out) p granted else ok (success, some out)
  appended (find_all_loop cmp key cells granted (suc idx) n) result

-- The end of vector_find_all_occurrences.
pub finish_all : Vector → Bool → Vector → Run (Handle × Handle × List Ptr)
finish_all v false out = do (v', freed) ← delete (some v); ok (some out, v', freed)
finish_all v true out =
    if equals out.size 0
    then (do (out', freed) ← delete (some out); ok (out', some v, freed))
    else ok (some out, some v, [])

-- vector_find_all_occurrences: the new vector, the handle of the caller's vector, and the data
-- handed to `custom_free`. Where an append fails the code deletes the caller's vector.
pub find_all_occurrences :
    Handle
    → (search_data : Ptr) → (granted granted_elements granted_append : Bool)
    → Run (Handle × Handle × List Ptr)
find_all_occurrences none key granted granted_elements granted_append = ok (none, none, [])
find_all_occurrences (some v) key granted granted_elements granted_append =
    if key == null
    then ok (none, some v, [])
    else if equals v.size 0
    then ok (none, some v, [])
    else elim (new v.custom_free (some v.compare_func) v.size granted granted_elements) [
      | none ↦ ok (none, some v, [])
      | some out ↦ do
        (all_appended, out') ←
            find_all_loop v.compare_func key v.elements granted_append 0 (rounds v.size) out
        finish_all v all_appended out'
    ]
