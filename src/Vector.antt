-- ===== src/Vector.antt =====
-- libs/DSA/vector: vector.h and vector.c, a growing array of data pointers.
-- A handle is `none` for a NULL argument. A function that changes `*vector` returns the new handle
-- beside its result; an argument `granted` says whether the allocation of that call succeeds. Each
-- call of `custom_free` is logged by its argument. An `int` is a ℤ.
pub mod Layout
pub mod Insert
pub mod Append
pub mod Loops
pub mod New
pub mod Remove
pub mod Access
pub mod Sort
mod Tests
use cmake_template.Prelude.{
  ℕ, zero, suc, ◌+◌, ◌-◌, ◌*◌, ◌^◌, ℤ, pos, negsuc, ltb_ℤ, suc_ℤ, pred_ℤ, Bool, true, false, ◌||◌,
  ◌&&◌, Option, none, some, List, [], ◌∷◌, ◌++◌, if◌then◌else◌, ◌==◌, leb, ltb, length, take, drop,
  replicate,
}
use cmake_template.Core.{
  Ptr, null, ExitCode, success, failure, CmpF, is_equal, Run, ok, fault, ◌>>=◌, read, write, ◌>>◌,
  succeeded,
}

-- A cell of `vector->elements`: a pointer, or `none` where memory from realloc has not been written.
abbrev pub Cell : Type 0
Cell = Option Ptr

-- `vector_t`. No function makes `capacity` negative.
pub record Vector : Type 0 where
  pub elements : List Cell
  pub size : ℤ
  pub capacity : ℕ
  pub custom_free : Ptr
  pub compare_func : CmpF

abbrev pub Handle : Type 0
Handle = Option Vector

-- LEFT and RIGHT
pub data Direction : Type 0 where
  left right : Direction

abbrev pub int_max : ℕ
int_max = 2 ^ 31 - 1

-- What `calloc(n, sizeof(void *))` gives: no array of a negative length, whose size overflows.
pub calloc : ℤ → (granted : Bool) → Option (List Cell)
calloc (pos n) granted = if granted then some (replicate n (some null)) else none
calloc (negsuc n) granted = none

-- vector_new; `comp_func` is `none` for NULL.
pub new : Ptr → Option CmpF → ℤ → (granted granted_elements : Bool) → Handle
new free_func none n granted granted_elements = none
new free_func (some cmp) n granted granted_elements =
    if free_func == null
    then none
    else if granted
    then (elim (calloc n granted_elements) [
      | none ↦ none
      | some cells ↦ some (record {
        elements = cells;
        size = pos 0;
        capacity = length cells;
        custom_free = free_func;
        compare_func = cmp;
      })
    ])
    else none

-- The pointer in a cell. One that was never written is not a value.
abbrev pub pointer : Cell → Run Ptr
pointer none = fault
pointer (some p) = ok p

-- `elements[index]`, a fault out of bounds.
abbrev pub at : List Cell → ℤ → Run Ptr
at cells (pos i) = do c ← read cells i; pointer c
at cells (negsuc i) = fault

-- `elements[index] = p`
abbrev pub put : List Cell → ℤ → Ptr → Run (List Cell)
put cells (pos i) p = write cells i (some p)
put cells (negsuc i) p = fault

-- `memmove(&cells[dst], &cells[src], n * sizeof(void *))`, a fault where it leaves the array.
pub memmove : List Cell → (dst src n : ℕ) → Run (List Cell)
memmove cells dst src zero = ok cells
memmove cells dst src (suc k) =
    if leb (src + suc k) (length cells) && leb (dst + suc k) (length cells)
    then ok (take dst cells ++ (take (suc k) (drop src cells) ++ drop (dst + suc k) cells))
    else fault

-- vector_resize. The int product `capacity * 2` must not overflow, and a realloc to no bytes is
-- undefined: both are faults.
pub resize : Vector → (granted : Bool) → Run (ExitCode × Vector)
resize v granted =
    if ltb int_max (v.capacity * 2) || (v.capacity == 0)
    then fault
    else if granted
    then ok (
      success,
      record v { elements = v.elements ++ replicate v.capacity none; capacity = v.capacity * 2 },
    )
    else ok (failure, v)

-- `(0 > index) || index > size`
abbrev pub out_of_bounds : ℤ → ℤ → Bool
out_of_bounds index size = ltb_ℤ index (pos 0) || ltb_ℤ size index

-- `size == capacity`
abbrev pub equals : ℤ → ℕ → Bool
equals (pos n) c = n == c
equals (negsuc n) c = false

-- `size - index`, where that is not negative.
abbrev pub count_from : ℤ → ℤ → ℕ
count_from (pos size) (pos index) = size - index
count_from _ _ = 0

abbrev pub offset : ℤ → ℕ
offset (pos i) = i
offset (negsuc i) = 0

-- vector_shift_elements
pub shift_elements : Vector → ℤ → Direction → Run (ExitCode × Vector)
shift_elements v index direction = if out_of_bounds index v.size then ok (failure, v) else (do
  let i = offset index
  let n = count_from v.size index
  cells ← elim direction [
    | right ↦ memmove v.elements (suc i) i n
    | left ↦ memmove v.elements i (suc i) n
  ]
  ok (success, record v { elements = cells }))

-- vector_shift_elements_right; `size++` cannot overflow below `int_max` cells.
pub shift_elements_right : Vector → ℤ → Run (ExitCode × Vector)
shift_elements_right v index = do
  (code, v') ← shift_elements v index right
  if succeeded code then ok (success, record v' { size = suc_ℤ v'.size }) else ok (code, v')

-- vector_shift_elements_left
pub shift_elements_left : Vector → ℤ → Run (ExitCode × Vector)
shift_elements_left v index = do
  (code, v') ← shift_elements v index left
  if succeeded code then ok (success, record v' { size = pred_ℤ v'.size }) else ok (code, v')

-- The part of vector_insert behind its guards and its resize.
pub insert_at : Vector → Ptr → ℤ → Run (ExitCode × Handle)
insert_at v p index = do
  (code, v') ← shift_elements_right v index
  if succeeded code
      then (do cells ← put v'.elements index p; ok (success, some (record v' { elements = cells })))
      else ok (code, some v')

-- vector_insert
pub insert : Handle → Ptr → ℤ → (granted : Bool) → Run (ExitCode × Handle)
insert none p index granted = ok (failure, none)
insert (some v) p index granted =
    if p == null
    then ok (failure, some v)
    else if out_of_bounds index v.size
    then ok (failure, some v)
    else if equals v.size v.capacity
    then (do
      (code, v') ← resize v granted
      if succeeded code then insert_at v' p index else ok (code, some v'))
    else insert_at v p index

-- vector_append
pub append : Handle → Ptr → (granted : Bool) → Run (ExitCode × Handle)
append none p granted = ok (failure, none)
append (some v) p granted =
    if p == null then ok (failure, some v) else insert (some v) p v.size granted

-- vector_is_empty
pub is_empty : Handle → Bool
is_empty none = false
is_empty (some v) = equals v.size 0

-- vector_pop; NULL is returned where the shift fails.
pub pop : Handle → Run (Ptr × Handle)
pop none = ok (null, none)
pop (some v) = do
  temp ← at v.elements (pred_ℤ v.size)
  (code, v') ← shift_elements_left v v.size
  ok (if succeeded code then temp else null, some v')

-- vector_remove, with the data handed to `custom_free`.
pub remove : Handle → ℤ → Run (ExitCode × Handle × List Ptr)
remove none index = ok (failure, none, [])
remove (some v) index = if out_of_bounds index v.size then ok (failure, some v, []) else (do
  temp ← at v.elements index
  (code, v') ← shift_elements_left v index
  ok (code, some v', if succeeded code then temp ∷ [] else []))

-- vector_get_element
pub get_element : Handle → ℤ → Run Ptr
get_element none index = ok null
get_element (some v) index = if out_of_bounds index v.size then ok null else at v.elements index

-- vector_set_element
pub set_element : Handle → Ptr → ℤ → Run (ExitCode × Handle)
set_element none p index = ok (failure, none)
set_element (some v) p index =
    if p == null
    then ok (failure, some v)
    else if out_of_bounds index v.size
    then ok (failure, some v)
    else (do cells ← put v.elements index p; ok (success, some (record v { elements = cells })))

-- vector_size
pub size_of : Handle → ℤ
size_of none = negsuc 0
size_of (some v) = v.size

-- vector_capacity
pub capacity_of : Handle → ℤ
capacity_of none = negsuc 0
capacity_of (some v) = pos v.capacity
