-- ===== src/Strings/Tests.antt =====
-- libs/Strings: runs of the functions of string_operations.c.
use cmake_template.Prelude.{some, true, false, [], ◌∷◌, ◌≡◌, ◌^◌, refl, length, ◌-◌, arith}
use cmake_template.Core.{failure, success}
use cmake_template.Text.{Text}
use cmake_template.Strings.{strip_newline, copy_string, printed_in, strcspn_newline, snprintf}
use cmake_template.Strings.Laws.{string_in, copy_string-take}

abbrev ab : Text
ab = b'a' ∷ b'b' ∷ []

cut : strip_newline (some (b'a' ∷ b'\n' ∷ b'b' ∷ b'\n' ∷ [])) ≡ (success, some (b'a' ∷ []))
unfolding strip_newline strcspn_newline
cut = refl

-- A limit of SIZE_MAX makes a block of no bytes, with no room for the NUL.
limit_wraps : copy_string true [] (some ab) (some []) (2 ^ 64 - 1) true ≡ (success, some [])
unfolding copy_string snprintf printed_in
limit_wraps = refl

truncated : copy_string true [] (some ab) (some []) 1 true ≡ (success, some (b'a' ∷ 0 ∷ []))
unfolding copy_string snprintf printed_in
truncated = refl

copy_string-take_example :
    (copy_string true [] (some ab) (some []) 1 false ≡ (failure, some []))
    × (length (printed_in 2 ab) ≡ 2)
    × (string_in (printed_in 2 ab) ≡ some (b'a' ∷ []))
copy_string-take_example = copy_string-take [] ab [] 1 false (omega arith) (omega arith)
