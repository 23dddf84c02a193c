-- ===== src/Text.antt =====
-- C strings as the lists of their bytes, without the closing NUL, and the functions of string.h
-- that the sources call.
use cmake_template.Prelude.{
  ℕ, zero, suc, ◌≡◌, ◌≤◌, refl, Bool, true, false, ◌||◌, List, [], ◌∷◌, arith, length, take, ◌==◌,
  ◌≢◌, ◌&&◌, Bool-cases, inl, sym, ◌∙◌, inr, take-all,
}
use Prim.Native.Nat.{compare, Ordering}

abbrev pub Text : Type 0
Text = List ℕ

-- `strncmp(a, b, n)`: below 0, 0 or above 0.
pub strncmp : ℕ → Text → Text → Ordering
strncmp zero a b = Ordering.eq
strncmp (suc n) [] [] = Ordering.eq
strncmp (suc n) [] (d ∷ b) = Ordering.lt
strncmp (suc n) (c ∷ a) [] = Ordering.gt
strncmp (suc n) (c ∷ a) (d ∷ b) = elim (compare c d) [
  | Ordering.lt ↦ Ordering.lt
  | Ordering.eq ↦ strncmp n a b
  | Ordering.gt ↦ Ordering.gt
]

-- `0 == strncmp(a, b, n)`
abbrev pub is_zero : Ordering → Bool
is_zero Ordering.eq = true
is_zero _ = false

-- strncmp finds no difference exactly if the first `n` bytes are the same.
pub strncmp-eq : (n : ℕ) (a b : Text) → is_zero (strncmp n a b) ≡ true → take n a ≡ take n b
unfolding strncmp
strncmp-eq zero a b e = refl
strncmp-eq (suc n) [] [] e = refl
strncmp-eq (suc n) [] (d ∷ b) e = cc
strncmp-eq (suc n) (c ∷ a) [] e = cc
strncmp-eq (suc n) (c ∷ a) (d ∷ b) e = ground (arith, strncmp-eq n a b)

pub strncmp_self : (n : ℕ) (a : Text) → is_zero (strncmp n a a) ≡ true
unfolding strncmp
strncmp_self zero a = refl
strncmp_self (suc n) [] = refl
strncmp_self (suc n) (c ∷ a) = ground (arith, strncmp_self n a)

pub strncmp-take : (n : ℕ) (a b : Text) → take n a ≡ take n b → is_zero (strncmp n a b) ≡ true
unfolding strncmp
strncmp-take zero a b e = refl
strncmp-take (suc n) [] [] e = refl
strncmp-take (suc n) [] (d ∷ b) e = absurd cc
strncmp-take (suc n) (c ∷ a) [] e = absurd cc
strncmp-take (suc n) (c ∷ a) (d ∷ b) e =
    let heads : c ≡ d = cc in
    let tails : take n a ≡ take n b = cc in ground (arith, strncmp-take n a b tails)

-- Texts of at most `n` bytes that differ are told apart.
pub strncmp_ne :
    (n : ℕ) (a b : Text) → length a ≤ n → length b ≤ n → a ≢ b → is_zero (strncmp n a b) ≡ false
strncmp_ne n a b ha hb ne = elim (Bool-cases (is_zero (strncmp n a b))) [
  | inl e ↦ absurd (ne (sym (take-all n a ha) ∙ strncmp-eq n a b e ∙ take-all n b hb))
  | inr e ↦ e
]

-- `a` starts with `b`.
abbrev pub starts_with : Text → Text → Bool
starts_with a [] = true
starts_with [] (d ∷ b) = false
starts_with (c ∷ a) (d ∷ b) = (c == d) && starts_with a b

-- `NULL != strstr(a, b)`
abbrev pub strstr : Text → Text → Bool
strstr [] b = starts_with [] b
strstr (c ∷ a) b = starts_with (c ∷ a) b || strstr a b
