-- ===== src/Comparisons.antt =====
-- libs/Core: the comparison functions of comparisons.c. An argument is `none` for NULL, and else the
-- address for node_ptr_comp, and what stands at the address for the others.
pub mod Laws
mod Tests
use cmake_template.Prelude.{
  none, ℕ, ℤ, pos, negsuc, zero, suc, if◌then◌else◌, Bool, Option, ◌==◌, some, false, min, ltb_ℤ,
  ◌||◌, length,
}
use cmake_template.Core.{Ptr, Comparison, null}
use cmake_template.Text.{Text, strncmp}
use Prim.Native.Nat.{Ordering}

-- MAX_STR_LEN
abbrev pub max_str_len : ℕ
max_str_len = 1000

-- `cell_t`
pub record Place : Type 0 where
  pub row : ℤ
  pub col : ℤ

-- `a == b` on int
abbrev pub equal_ints : ℤ → ℤ → Bool
equal_ints (pos a) (pos b) = a == b
equal_ints (negsuc a) (negsuc b) = a == b
equal_ints (pos a) (negsuc b) = false
equal_ints (negsuc a) (pos b) = false

-- node_ptr_comp
pub node_ptr_comp : Ptr → Ptr → Comparison
node_ptr_comp p q =
    if (p == null) || (q == null)
    then Comparison.error
    else if p == q
    then Comparison.equal
    else Comparison.not_equal

-- int_comp
pub int_comp : Option ℤ → Option ℤ → Comparison
int_comp none b = Comparison.error
int_comp (some a) none = Comparison.error
int_comp (some a) (some b) =
    if equal_ints a b
    then Comparison.equal
    else if ltb_ℤ b a
    then Comparison.greater_than
    else if ltb_ℤ a b
    then Comparison.less_than
    else Comparison.error

-- str_comp; strnlen(a, MAX_STR_LEN) bounds the comparison.
pub str_comp : Option Text → Option Text → Comparison
str_comp none b = Comparison.error
str_comp (some a) none = Comparison.error
str_comp (some a) (some b) = elim (strncmp (min (length a) max_str_len) a b) [
  | Ordering.eq ↦ Comparison.equal
  | Ordering.lt ↦ Comparison.less_than
  | Ordering.gt ↦ Comparison.greater_than
]

-- cell_comp
pub cell_comp : Option Place → Option Place → Comparison
cell_comp none b = Comparison.error
cell_comp (some a) none = Comparison.error
cell_comp (some a) (some b) =
    if ltb_ℤ a.row b.row
    then Comparison.less_than
    else if ltb_ℤ b.row a.row
    then Comparison.greater_than
    else if ltb_ℤ a.col b.col
    then Comparison.less_than
    else if ltb_ℤ b.col a.col
    then Comparison.greater_than
    else Comparison.equal
