-- ===== src/Numbers/Decimal.antt =====
-- libs/Math: the digits that number_converter.c reads and prints, against the positional value.
use cmake_template.Prelude.{
  ℕ, zero, suc, ◌≡◌, [], ◌^◌, ◌∷◌, ◌<◌, arith, ◌≤◌, ◌*◌, true, length, ◌/◌, ◌-◌, ◌+◌, ◌%◌, ap, ◌++◌,
  refl, false, ◌≢◌, ◌∙◌, some,
}
use cmake_template.Text.{Text}
use cmake_template.Numbers.{
  read_digits, is_digit, decimal_loop, decimal, is_space, subject, skip_spaces,
}
use native.Mathlib.Numerals.{unary_clauses}

-- The number that a text of digits stands for.
abbrev pub number : Text → ℕ
number [] = 0
number (c ∷ s) = (c - b'0') * 10 ^ length s + number s

abbrev pub IsDigit : ℕ → Type 0
IsDigit c = (b'0' ≤ c) × (c ≤ b'9')

abbrev pub AllDigits : Text → Type 0
AllDigits [] = Unit
AllDigits (c ∷ s) = IsDigit c × AllDigits s

pub is_digit_lem : (c : ℕ) → IsDigit c → is_digit c ≡ true
is_digit_lem c h = ground arith

shift_digit : (acc d p : ℕ) → (acc * 10 + d) * p ≡ acc * (10 * p) + d * p
shift_digit acc d p = grind arith

pub ten_pow : (n : ℕ) → 10 ^ suc n ≡ 10 * 10 ^ n
ten_pow n = simp unary_clauses (omega arith)

-- A text with no digit in front.
abbrev pub Stops : Text → Type 0
Stops [] = Unit
Stops (c ∷ s) = is_digit c ≡ false

read_digits_stop : (acc : ℕ) (rest : Text) → Stops rest → read_digits acc rest ≡ (acc, rest)
unfolding read_digits
read_digits_stop acc [] h = refl
read_digits_stop acc (c ∷ s) h = ground arith

pub read_digits_lem :
    (acc : ℕ) (s rest : Text)
    → AllDigits s
    → Stops rest
    → read_digits acc (s ++ rest) ≡ (acc * 10 ^ length s + number s, rest)
unfolding read_digits
read_digits_lem acc [] rest h e = read_digits_stop acc rest e ∙ ap (λ k. (k, rest)) (omega arith)
read_digits_lem acc (c ∷ s) rest h e = ground (
  arith,
  read_digits_lem (acc * 10 + (c - b'0')) s rest h.1 e,
  shift_digit acc (c - b'0') (10 ^ length s),
  ten_pow (length s),
)

abbrev pub AllSpaces : Text → Type 0
AllSpaces [] = Unit
AllSpaces (c ∷ s) = (is_space c ≡ true) × AllSpaces s

pub skip_spaces-append : (pad s : Text) → AllSpaces pad → skip_spaces (pad ++ s) ≡ skip_spaces s
unfolding skip_spaces
skip_spaces-append [] s h = refl
skip_spaces-append (c ∷ pad) s h = ground (arith, skip_spaces-append pad s h.1)

-- The subject of blanks, a sign or none, digits and a rest.
pub subject_digits :
    (pad s rest : Text)
    → AllSpaces pad
    → AllDigits s
    → s ≢ []
    → Stops rest
    → subject (pad ++ (s ++ rest))
      ≡ some (record { negative = false; magnitude = number s; rest = rest })
unfolding subject skip_spaces
subject_digits pad [] rest hp hs ne e = absurd (ne refl)
subject_digits pad (c ∷ s) rest hp hs ne e =
    rw (skip_spaces-append pad ((c ∷ s) ++ rest) hp)
      (ground (arith, read_digits_lem 0 (c ∷ s) rest hs e))

pub subject_minus :
    (pad s rest : Text)
    → AllSpaces pad
    → AllDigits s
    → s ≢ []
    → Stops rest
    → subject (pad ++ (b'-' ∷ (s ++ rest)))
      ≡ some (record { negative = true; magnitude = number s; rest = rest })
unfolding subject skip_spaces
subject_minus pad [] rest hp hs ne e = absurd (ne refl)
subject_minus pad (c ∷ s) rest hp hs ne e =
    rw (skip_spaces-append pad (b'-' ∷ ((c ∷ s) ++ rest)) hp)
      (ground (arith, read_digits_lem 0 (c ∷ s) rest hs e))

IsDigit-of : (n : ℕ) → n < 10 → IsDigit (b'0' + n)
IsDigit-of n h = omega arith

decimal_loop-AllDigits :
    (fuel n : ℕ) (behind : Text) → AllDigits behind → AllDigits (decimal_loop fuel n behind)
unfolding decimal_loop
decimal_loop-AllDigits zero n behind h = h
decimal_loop-AllDigits (suc fuel) n behind h =
    ground (arith, decimal_loop-AllDigits fuel (n / 10) ((b'0' + n % 10) ∷ behind))

number-decimal_loop :
    (fuel n : ℕ) (behind : Text)
    → n < fuel
    → number (decimal_loop fuel n behind) ≡ n * 10 ^ length behind + number behind
unfolding decimal_loop
number-decimal_loop zero n behind h = absurd (omega arith)
number-decimal_loop (suc fuel) n behind h = ground (
  arith,
  number-decimal_loop fuel (n / 10) ((b'0' + n % 10) ∷ behind),
  shift_digit (n / 10) (n % 10) (10 ^ length behind),
  ten_pow (length behind),
)

length-decimal_loop :
    (k fuel n : ℕ) (behind : Text)
    → n < 10 ^ suc k
    → length (decimal_loop fuel n behind) ≤ suc k + length behind
unfolding decimal_loop
length-decimal_loop k zero n behind h = omega arith
length-decimal_loop zero (suc fuel) n behind h = ground arith
length-decimal_loop (suc k) (suc fuel) n behind h =
    ground (arith, length-decimal_loop k fuel (n / 10) ((b'0' + n % 10) ∷ behind), ten_pow (suc k))

pub decimal-AllDigits : (n : ℕ) → AllDigits (decimal n)
unfolding decimal
decimal-AllDigits n = decimal_loop-AllDigits (suc n) n [] (omega arith)

pub number-decimal : (n : ℕ) → number (decimal n) ≡ n
unfolding decimal
number-decimal n = omega (arith, number-decimal_loop (suc n) n [])

pub length-decimal : (n : ℕ) → n < 2 ^ 32 → length (decimal n) ≤ 10
unfolding decimal
length-decimal n h = length-decimal_loop 9 (suc n) n [] (omega arith)

decimal_loop_grows :
    (fuel n : ℕ) (behind : Text) → length behind ≤ length (decimal_loop fuel n behind)
unfolding decimal_loop
decimal_loop_grows zero n behind = omega arith
decimal_loop_grows (suc fuel) n behind =
    ground (arith, decimal_loop_grows fuel (n / 10) ((b'0' + n % 10) ∷ behind))

decimal_pos : (n : ℕ) → 0 < length (decimal n)
unfolding decimal decimal_loop
decimal_pos n = ground (arith, decimal_loop_grows n (n / 10) ((b'0' + n % 10) ∷ []))

pub decimal_ne : (n : ℕ) → decimal n ≢ []
decimal_ne n e = omega (arith, decimal_pos n, ap length e)
