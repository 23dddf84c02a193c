-- ===== src/Comparisons/Laws.antt =====
-- int_comp and cell_comp as orders, and what str_comp takes for equal.
use cmake_template.Prelude.{
  ℤ, pos, negsuc, some, length, ◌≡◌, ◌≤◌, ◌≢◌, arith, ◌↔◌, take, min, true, refl, sym, take-all,
  ◌∙◌,
}
use cmake_template.Core.{Comparison}
use cmake_template.Text.{Text, strncmp, is_zero, strncmp-eq, strncmp-take}
use cmake_template.Comparisons.{Place, int_comp, str_comp, cell_comp, max_str_len}
use Prim.Native.Nat.{Ordering}

-- The result for the arguments in the other order.
abbrev pub opposite : Comparison → Comparison
opposite Comparison.greater_than = Comparison.less_than
opposite Comparison.less_than = Comparison.greater_than
opposite Comparison.error = Comparison.error
opposite Comparison.equal = Comparison.equal
opposite Comparison.not_equal = Comparison.not_equal

int_comp_swap : (a b : ℤ) → int_comp (some b) (some a) ≡ opposite (int_comp (some a) (some b))
unfolding int_comp
int_comp_swap (pos a) (pos b) = ground arith
int_comp_swap (pos a) (negsuc b) = ground arith
int_comp_swap (negsuc a) (pos b) = ground arith
int_comp_swap (negsuc a) (negsuc b) = ground arith

cell_comp_swap :
    (a b : Place) → cell_comp (some b) (some a) ≡ opposite (cell_comp (some a) (some b))
unfolding cell_comp
cell_comp_swap a b = ground arith

int_comp_total :
    (a b : ℤ)
    → (int_comp (some a) (some b) ≢ Comparison.error)
      × (int_comp (some a) (some b) ≢ Comparison.not_equal)
unfolding int_comp
int_comp_total (pos a) (pos b) = (ground arith, ground arith)
int_comp_total (pos a) (negsuc b) = (ground arith, ground arith)
int_comp_total (negsuc a) (pos b) = (ground arith, ground arith)
int_comp_total (negsuc a) (negsuc b) = (ground arith, ground arith)

-- int_comp and cell_comp, for arguments that are not NULL, turn round with their arguments: GREATER_THAN
-- one way is LESS_THAN the other way, and EQUAL is EQUAL; and int_comp never says ERROR or NOT_EQUAL.
pub comp-opposite :
    (a b : ℤ) (p q : Place)
    → (int_comp (some b) (some a) ≡ opposite (int_comp (some a) (some b)))
      × (cell_comp (some q) (some p) ≡ opposite (cell_comp (some p) (some q)))
      × (int_comp (some a) (some b) ≢ Comparison.error)
      × (int_comp (some a) (some b) ≢ Comparison.not_equal)
comp-opposite a b p q =
    let (no_error, no_ne) = int_comp_total a b in
    (int_comp_swap a b, cell_comp_swap p q, no_error, no_ne)

abbrev result_of : Ordering → Comparison
result_of o = elim o [
  | Ordering.eq ↦ Comparison.equal
  | Ordering.lt ↦ Comparison.less_than
  | Ordering.gt ↦ Comparison.greater_than
]

equal-is_zero : (o : Ordering) → result_of o ≡ Comparison.equal → is_zero o ≡ true
equal-is_zero Ordering.eq e = refl
equal-is_zero Ordering.lt e = absurd cc
equal-is_zero Ordering.gt e = absurd cc

is_zero-equal : (o : Ordering) → is_zero o ≡ true → result_of o ≡ Comparison.equal
is_zero-equal Ordering.eq e = refl
is_zero-equal Ordering.lt e = absurd cc
is_zero-equal Ordering.gt e = absurd cc

-- For a first string of at most 1000 bytes, str_comp says EQUAL exactly if the first string is a
-- prefix of the second, so also where the second is longer.
pub str_comp-take :
    (a b : Text)
    → length a ≤ max_str_len
    → (str_comp (some a) (some b) ≡ Comparison.equal) ↔ (a ≡ take (length a) b)
unfolding str_comp
str_comp-take a b h =
    let n : min (length a) max_str_len ≡ length a = omega arith in
    rw (n, str_comp)
      (
        (λ e.
            sym (take-all (length a) a (omega arith))
            ∙ strncmp-eq (length a) a b (equal-is_zero (strncmp (length a) a b) e)),
        (λ e.
            is_zero-equal (strncmp (length a) a b)
              (strncmp-take (length a) a b (take-all (length a) a (omega arith) ∙ e))),
      )
