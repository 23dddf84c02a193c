-- ===== src/Numbers.antt =====
-- libs/Math: number_converter.c, on strtol, strtoul and "%u" of the C standard library. A string is
-- `none` for NULL; a place for a result is `none` for NULL, and else the value that stands there.
pub mod Laws
pub mod Decimal
mod Tests
use cmake_template.Prelude.{
  ℕ, zero, none, Bool, suc, ◌^◌, Option, ℤ, ◌∷◌, ltb, if◌then◌else◌, ◌==◌, pos, not, [], some, leb,
  ◌-◌, false, true, sub_ℕ, ◌*◌, take, ◌%◌, ◌&&◌, ltb_ℤ, ◌||◌, ◌+◌, ◌/◌, negsuc,
}
use cmake_template.Core.{ExitCode, failure, success}
use cmake_template.Text.{Text}

-- isspace
abbrev pub is_space : ℕ → Bool
is_space c = (c == 32) || (leb 9 c && leb c 13)

abbrev pub is_digit : ℕ → Bool
is_digit c = leb b'0' c && leb c b'9'

pub skip_spaces : Text → Text
skip_spaces [] = []
skip_spaces (c ∷ s) = elim (is_space c) [ true ↦ skip_spaces s | false ↦ c ∷ s ]

-- The value of the digits in front, behind `acc`, and what follows them.
pub read_digits : ℕ → Text → ℕ × Text
read_digits acc [] = (acc, [])
read_digits acc (c ∷ s) = elim (is_digit c) [
  | true ↦ read_digits (acc * 10 + (c - b'0')) s
  | false ↦ (acc, c ∷ s)
]

-- The subject sequence: its sign, its value and what follows; `none` if it has no digits.
pub record Subject : Type 0 where
  pub negative : Bool
  pub magnitude : ℕ
  pub rest : Text

abbrev pub unsigned_subject : Bool → Text → Option Subject
unsigned_subject negative [] = none
unsigned_subject negative (c ∷ s) = elim (is_digit c) [
  | true ↦
      let (value, rest) = read_digits 0 (c ∷ s) in
      some (record { negative = negative; magnitude = value; rest = rest })
  | false ↦ none
]

abbrev pub signed_subject : Text → Option Subject
signed_subject [] = none
signed_subject (c ∷ s) =
    if c == b'-'
    then unsigned_subject true s
    else if c == b'+'
    then unsigned_subject false s
    else unsigned_subject false (c ∷ s)

pub subject : Text → Option Subject
subject s = signed_subject (skip_spaces s)

-- What a call of strtol or strtoul leaves: its value, errno == ERANGE, `endptr == input_p`, and the
-- text at endptr.
pub record Converted {ℓ} (A : Type ℓ) : Type ℓ where
  pub value : A
  pub out_of_range : Bool
  pub no_digits : Bool
  pub rest : Text

-- A long and an unsigned long of 64 bits.
abbrev pub in_long : Bool → ℕ → Converted ℤ → Converted ℤ
in_long true m c =
    if leb m (2 ^ 63)
    then record c { value = sub_ℕ 0 m }
    else record c { value = negsuc (2 ^ 63 - 1); out_of_range = true }
in_long false m c =
    if ltb m (2 ^ 63)
    then record c { value = pos m }
    else record c { value = pos (2 ^ 63 - 1); out_of_range = true }

abbrev pub ulong_max : ℕ
ulong_max = 2 ^ 64 - 1

abbrev pub in_ulong : Bool → ℕ → Converted ℕ → Converted ℕ
in_ulong negative m c =
    if ltb ulong_max m
    then record c { value = ulong_max; out_of_range = true }
    else if negative
    then record c { value = (2 ^ 64 - m) % 2 ^ 64 }
    else record c { value = m }

pub strtol : Text → Converted ℤ
strtol s = elim (subject s) [
  | none ↦ record { value = pos 0; out_of_range = false; no_digits = true; rest = s }
  | some r ↦
      in_long r.negative r.magnitude
        (record { value = pos 0; out_of_range = false; no_digits = false; rest = r.rest })
]

pub strtoul : Text → Converted ℕ
strtoul s = elim (subject s) [
  | none ↦ record { value = 0; out_of_range = false; no_digits = true; rest = s }
  | some r ↦
      in_ulong r.negative r.magnitude
        (record { value = 0; out_of_range = false; no_digits = false; rest = r.rest })
]

-- INT32_MAX, UINT32_MAX and UINT16_MAX
abbrev pub int32_max : ℕ
int32_max = 2 ^ 31 - 1

abbrev pub uint32_max : ℕ
uint32_max = 2 ^ 32 - 1

abbrev pub uint16_max : ℕ
uint16_max = 2 ^ 16 - 1

abbrev pub ended : Text → Bool
ended [] = true
ended (c ∷ s) = false

abbrev pub is_value : ℤ → ℤ → Bool
is_value a b = not (ltb_ℤ a b) && not (ltb_ℤ b a)

-- The tests of str_to_int32 on what strtol left, and its result.
pub store_int32 : Converted ℤ → ℤ → ExitCode × Option ℤ
store_int32 c old =
    if c.out_of_range && is_value (pos 0) c.value
    then (failure, some old)
    else if c.out_of_range && is_value (pos (2 ^ 63 - 1)) c.value
    then (failure, some old)
    else if ltb_ℤ (pos int32_max) c.value
    then (failure, some old)
    else if ltb_ℤ c.value (negsuc int32_max)
    then (failure, some old)
    else if c.no_digits
    then (failure, some old)
    else if not (ended c.rest)
    then (failure, some old)
    else (success, some c.value)

pub str_to_int32 : Option Text → Option ℤ → ExitCode × Option ℤ
str_to_int32 none output = (failure, output)
str_to_int32 (some input) none = (failure, none)
str_to_int32 (some input) (some old) = store_int32 (strtol input) old

-- The same tests in str_to_uint32 and str_to_uint16, up to `limit`.
pub store_unsigned : ℕ → Converted ℕ → ℕ → ExitCode × Option ℕ
store_unsigned limit c old =
    if c.out_of_range && (0 == c.value)
    then (failure, some old)
    else if c.out_of_range && (ulong_max == c.value)
    then (failure, some old)
    else if ltb limit c.value
    then (failure, some old)
    else if c.no_digits
    then (failure, some old)
    else if not (ended c.rest)
    then (failure, some old)
    else (success, some c.value)

pub str_to_uint32 : Option Text → Option ℕ → ExitCode × Option ℕ
str_to_uint32 none output = (failure, output)
str_to_uint32 (some input) none = (failure, none)
str_to_uint32 (some input) (some old) = store_unsigned uint32_max (strtoul input) old

pub str_to_uint16 : Option Text → Option ℕ → ExitCode × Option ℕ
str_to_uint16 none output = (failure, output)
str_to_uint16 (some input) none = (failure, none)
str_to_uint16 (some input) (some old) = store_unsigned uint16_max (strtoul input) old

-- The conversion "%u" of snprintf: the decimal digits of `n`, last digit first put before `behind`.
pub decimal_loop : ℕ → ℕ → Text → Text
decimal_loop zero n behind = behind
decimal_loop (suc fuel) n behind = elim (ltb n 10) [
  | true ↦ (b'0' + n) ∷ behind
  | false ↦ decimal_loop fuel (n / 10) ((b'0' + n % 10) ∷ behind)
]

pub decimal : ℕ → Text
decimal n = decimal_loop (suc n) n []

-- UINT32_LEN
abbrev pub uint32_len : ℕ
uint32_len = 11

-- uint32_to_str; `output` is `none` for NULL, and else the string that `*output_p` points to.
-- `memory` and `formatted` say whether calloc and snprintf succeed.
pub uint32_to_str : Bool → Bool → ℕ → Option (Option Text) → ExitCode × Option (Option Text)
uint32_to_str memory formatted input none = (failure, none)
uint32_to_str memory formatted input (some old) =
    if memory
    then if formatted
      then (success, some (some (take (uint32_len - 1) (decimal input))))
      else (failure, some none)
    else (failure, some none)
