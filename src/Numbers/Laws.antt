-- ===== src/Numbers/Laws.antt =====
-- libs/Math: what the functions of number_converter.c accept, and what they store.
use cmake_template.Prelude.{
  ℕ, ℤ, Bool, Option, ◌<◌, ◌^◌, ◌≢◌, ◌≡◌, true, [], false, some, if◌then◌else◌, ◌++◌, leb, ◌∷◌, ltb,
  pos, ◌==◌, ◌||◌, ◌&&◌, ◌-◌, arith, sub_ℕ, ◌%◌, refl, take-all, ◌∙◌, Option-cases, none, inl, inr,
}
use Prim.{tt}
use mathlib.Core.List.{append-nil}
use cmake_template.Core.{success, failure}
use cmake_template.Text.{Text}
use cmake_template.Numbers.{
  str_to_int32, str_to_uint32, strtoul, uint32_to_str, strtol, store_unsigned, str_to_uint16,
  subject, ulong_max, in_ulong, in_long, ended, store_int32, decimal, Converted,
}
use cmake_template.Numbers.Decimal.{
  AllDigits, AllSpaces, Stops, number, subject_digits, subject_minus, decimal-AllDigits, decimal_ne,
  length-decimal, number-decimal,
}

strtoul-subject :
    (s rest : Text) (negative : Bool) (m : ℕ)
    → subject s ≡ some (record { negative = negative; magnitude = m; rest = rest })
    → strtoul s
      ≡ in_ulong negative m
          (record { value = 0; out_of_range = false; no_digits = false; rest = rest })
unfolding strtoul
strtoul-subject s rest negative m e = rw (e, strtoul) refl

strtol-subject :
    (s rest : Text) (negative : Bool) (m : ℕ)
    → subject s ≡ some (record { negative = negative; magnitude = m; rest = rest })
    → strtol s
      ≡ in_long negative m
          (record { value = pos 0; out_of_range = false; no_digits = false; rest = rest })
unfolding strtol
strtol-subject s rest negative m e = rw (e, strtol) refl

store_plain :
    (limit m old : ℕ) (rest : Text)
    → limit < ulong_max
    → store_unsigned limit
        (in_ulong false m
          (record { value = 0; out_of_range = false; no_digits = false; rest = rest }))
        old
      ≡ (if leb m limit && ended rest then (success, some m) else (failure, some old))
unfolding store_unsigned
store_plain limit m old rest h = ground arith

store_minus :
    (limit m old : ℕ) (rest : Text)
    → limit < ulong_max
    → store_unsigned limit
        (in_ulong true m
          (record { value = 0; out_of_range = false; no_digits = false; rest = rest }))
        old
      ≡ (if (m == 0 || (leb (2 ^ 64 - limit) m && leb m ulong_max)) && ended rest
          then (success, some ((2 ^ 64 - m) % 2 ^ 64))
          else (failure, some old))
unfolding store_unsigned
store_minus limit m old rest h = ground arith

store_int32_plus :
    (m : ℕ) (old : ℤ) (rest : Text)
    → store_int32
        (in_long false m
          (record { value = pos 0; out_of_range = false; no_digits = false; rest = rest }))
        old
      ≡ (if ltb m (2 ^ 31) && ended rest then (success, some (pos m)) else (failure, some old))
unfolding store_int32
store_int32_plus m old rest = ground arith

store_int32_minus :
    (m : ℕ) (old : ℤ) (rest : Text)
    → store_int32
        (in_long true m
          (record { value = pos 0; out_of_range = false; no_digits = false; rest = rest }))
        old
      ≡ (if leb m (2 ^ 31) && ended rest then (success, some (sub_ℕ 0 m)) else (failure, some old))
unfolding store_int32
store_int32_minus m old rest = ground arith

module _ (pad digits rest : Text) where
  -- str_to_uint32 and str_to_uint16 accept blanks and then decimal digits, up to the largest number
  -- of their type and with nothing behind, and store the number; any larger number and any text
  -- behind the digits is refused, and the result's place keeps what it held.
  pub str_to_unsigned-number :
      (old : ℕ)
      → AllSpaces pad
      → AllDigits digits
      → digits ≢ []
      → Stops rest
      → (str_to_uint32 (some (pad ++ (digits ++ rest))) (some old) ≡ (
          if leb (number digits) (2 ^ 32 - 1) && ended rest
          then (success, some (number digits))
          else (failure, some old)))
        × (str_to_uint16 (some (pad ++ (digits ++ rest))) (some old) ≡ (
            if leb (number digits) (2 ^ 16 - 1) && ended rest
            then (success, some (number digits))
            else (failure, some old)))
  unfolding str_to_uint32 str_to_uint16
  str_to_unsigned-number old hp hd ne e =
      let read = strtoul-subject _ rest false _ (subject_digits pad digits rest hp hd ne e) in
      (
        rw read (store_plain (2 ^ 32 - 1) (number digits) old rest (omega arith)),
        rw read (store_plain (2 ^ 16 - 1) (number digits) old rest (omega arith)),
      )

  -- With a minus sign in front, str_to_uint32 accepts 0 and the numbers from 2^64 - 2^32 + 1 up to
  -- 2^64 - 1, and stores 2^64 less the number; it refuses all others.
  pub str_to_uint32-minus :
      (old : ℕ)
      → AllSpaces pad
      → AllDigits digits
      → digits ≢ []
      → Stops rest
      → str_to_uint32 (some (pad ++ (b'-' ∷ (digits ++ rest)))) (some old) ≡ (
          if (number digits == 0
              || (ltb (2 ^ 64 - 2 ^ 32) (number digits) && ltb (number digits) (2 ^ 64)))
            && ended rest
          then (success, some ((2 ^ 64 - number digits) % 2 ^ 64))
          else (failure, some old))
  unfolding str_to_uint32
  str_to_uint32-minus old hp hd ne e =
      let read = strtoul-subject _ rest true _ (subject_minus pad digits rest hp hd ne e) in
      rw read (rw (store_minus (2 ^ 32 - 1) (number digits) old rest (omega arith)) (ground arith))

  -- str_to_int32 accepts the decimal numbers from -2^31 to 2^31 - 1 with nothing behind them, stores
  -- the number, and refuses all others.
  pub str_to_int32-number :
      (old : ℤ)
      → AllSpaces pad
      → AllDigits digits
      → digits ≢ []
      → Stops rest
      → (str_to_int32 (some (pad ++ (digits ++ rest))) (some old) ≡ (
          if ltb (number digits) (2 ^ 31) && ended rest
          then (success, some (pos (number digits)))
          else (failure, some old)))
        × (str_to_int32 (some (pad ++ (b'-' ∷ (digits ++ rest)))) (some old) ≡ (
            if leb (number digits) (2 ^ 31) && ended rest
            then (success, some (sub_ℕ 0 (number digits)))
            else (failure, some old)))
  unfolding str_to_int32
  str_to_int32-number old hp hd ne e =
      let plus = strtol-subject _ rest false _ (subject_digits pad digits rest hp hd ne e) in
      let minus = strtol-subject _ rest true _ (subject_minus pad digits rest hp hd ne e) in
      (
        rw plus (store_int32_plus (number digits) old rest),
        rw minus (store_int32_minus (number digits) old rest),
      )

-- A number of 32 bits that uint32_to_str has printed is read back by str_to_uint32, and by
-- str_to_uint16 if it has at most 16 bits.
pub str_to_uint32-uint32_to_str :
    (n old : ℕ) (buffer : Option Text)
    → n < 2 ^ 32
    → (printed : Text) × ((uint32_to_str true true n (some buffer) ≡ (success, some (some printed)))
        × ((str_to_uint32 (some printed) (some old) ≡ (success, some n))
            × (str_to_uint16 (some printed) (some old)
                ≡ (if ltb n (2 ^ 16) then (success, some n) else (failure, some old)))))
unfolding uint32_to_str
str_to_uint32-uint32_to_str n old buffer h =
    let (wide, narrow) =
      str_to_unsigned-number [] (decimal n) [] old tt (decimal-AllDigits n) (decimal_ne n) tt in
    let whole = take-all 10 (decimal n) (length-decimal n h) in
    (
      decimal n,
      (
        rw whole refl,
        (
          rw (append-nil (decimal n), number-decimal n) at wide ∙ ground arith,
          rw (append-nil (decimal n), number-decimal n) at narrow ∙ ground arith,
        ),
      ),
    )

store_int32_ne : (c : Converted ℤ) (old : ℤ) → (store_int32 c old).1 ≢ none
unfolding store_int32
store_int32_ne c old = ground arith

-- Whatever the outcome, the place still holds a number.
pub str_to_int32_stored :
    (s : Text) (old : ℤ) → (v : ℤ) × ((str_to_int32 (some s) (some old)).1 ≡ some v)
unfolding str_to_int32
str_to_int32_stored s old = elim (Option-cases (store_int32 (strtol s) old).1) [
  | inl e ↦ absurd (store_int32_ne (strtol s) old e)
  | inr found ↦ found
]
