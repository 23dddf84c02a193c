-- ===== src/Numbers/Tests.antt =====
-- libs/Math: runs of the functions of number_converter.c.
use Prim.{tt}
use cmake_template.Prelude.{none, some, true, false, [], ◌∷◌, pos, ◌≡◌, negsuc, refl, arith}
use cmake_template.Core.{failure, success}
use cmake_template.Text.{Text}
use cmake_template.Numbers.{
  str_to_int32, str_to_uint16, str_to_uint32, uint32_to_str, decimal, decimal_loop,
}
use cmake_template.Numbers.{
  strtol, strtoul, subject, skip_spaces, read_digits, store_int32, store_unsigned,
}
use cmake_template.Numbers.Laws.{
  str_to_uint32-uint32_to_str, str_to_unsigned-number, str_to_uint32-minus, str_to_int32-number,
}

abbrev forty_two : Text
forty_two = b'4' ∷ b'2' ∷ []

abbrev int32_min_digits : Text
int32_min_digits = b'2' ∷ b'1' ∷ b'4' ∷ b'7' ∷ b'4' ∷ b'8' ∷ b'3' ∷ b'6' ∷ b'4' ∷ b'8' ∷ []

-- 2^64 - 1
abbrev ulong_max_digits : Text
ulong_max_digits =
    b'1' ∷ b'8' ∷ b'4' ∷ b'4' ∷ b'6' ∷ b'7' ∷ b'4' ∷ b'4' ∷ b'0' ∷ b'7' ∷ b'3' ∷ b'7' ∷ b'0' ∷ b'9'
    ∷ b'5' ∷ b'5' ∷ b'1' ∷ b'6' ∷ b'1' ∷ b'5' ∷ []

blanks_read :
    str_to_int32 (some (32 ∷ 9 ∷ b'+' ∷ forty_two)) (some (pos 7)) ≡ (success, some (pos 42))
unfolding str_to_int32 store_int32 strtol subject skip_spaces read_digits
blanks_read = refl

null_refused : str_to_int32 (some forty_two) none ≡ (failure, none)
unfolding str_to_int32
null_refused = refl

no_digits_refused : str_to_uint16 (some (b'-' ∷ [])) (some 7) ≡ (failure, some 7)
unfolding str_to_uint16 store_unsigned strtoul subject skip_spaces
no_digits_refused = refl

zero_printed : uint32_to_str true true 0 (some none) ≡ (success, some (some (b'0' ∷ [])))
unfolding uint32_to_str decimal decimal_loop
zero_printed = refl

no_memory : uint32_to_str false true 42 (some (some forty_two)) ≡ (failure, some none)
unfolding uint32_to_str
no_memory = refl

str_to_uint32-uint32_to_str_example :
    (printed : Text) × ((uint32_to_str true true 70000 (some none) ≡ (success, some (some printed)))
      × ((str_to_uint32 (some printed) (some 7) ≡ (success, some 70000))
          × (str_to_uint16 (some printed) (some 7) ≡ (failure, some 7))))
str_to_uint32-uint32_to_str_example = str_to_uint32-uint32_to_str 70000 7 none (omega arith)

str_to_unsigned-number_example :
    (str_to_uint32 (some (32 ∷ b'4' ∷ b'2' ∷ [])) (some 7) ≡ (success, some 42))
    × (str_to_uint16 (some (32 ∷ b'4' ∷ b'2' ∷ [])) (some 7) ≡ (success, some 42))
str_to_unsigned-number_example =
    str_to_unsigned-number (32 ∷ []) forty_two [] 7 (refl, tt) (omega arith) (λ e. cc) tt

str_to_uint32-minus_example :
    str_to_uint32 (some (b'-' ∷ ulong_max_digits)) (some 7) ≡ (success, some 1)
str_to_uint32-minus_example =
    str_to_uint32-minus [] ulong_max_digits [] 7 tt (omega arith) (λ e. cc) tt

str_to_int32-number_example :
    (str_to_int32 (some int32_min_digits) (some (pos 7)) ≡ (failure, some (pos 7)))
    × (str_to_int32 (some (b'-' ∷ int32_min_digits)) (some (pos 7))
        ≡ (success, some (negsuc 2147483647)))
str_to_int32-number_example =
    str_to_int32-number [] int32_min_digits [] (pos 7) tt (omega arith) (λ e. cc) tt
