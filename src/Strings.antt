-- ===== src/Strings.antt =====
-- libs/Strings: string_operations.c. A string is `none` for NULL; a place for a result is `none` for
-- NULL, and else the value that stands there.
pub mod Laws
mod Tests
use cmake_template.Prelude.{
  none, some, true, false, [], ◌∷◌, ℕ, zero, suc, Option, ◌∷◌, ◌^◌, Bool, List, some, ◌-◌, [],
  if◌then◌else◌, ◌+◌, take, ◌==◌, ltb, ◌%◌, length, ◌++◌, not, replicate, leb, ◌&&◌,
}
use cmake_template.Core.{ExitCode, failure, success}
use cmake_template.Text.{Text, is_zero, strncmp}

-- `strcspn(s, "\n")`
pub strcspn_newline : Text → ℕ
strcspn_newline [] = 0
strcspn_newline (c ∷ s) = if c == b'\n' then 0 else suc (strcspn_newline s)

pub strip_newline : Option Text → ExitCode × Option Text
strip_newline none = (failure, none)
strip_newline (some input) =
    if ltb (strcspn_newline input) (length input)
    then (success, some (take (strcspn_newline input) input))
    else (success, some input)

-- `result_p` is `none` for NULL.
pub strings_are_equal : Option Text → Option Text → Option ℕ → ExitCode × Option ℕ
strings_are_equal none str2 result = (failure, result)
strings_are_equal (some str1) none result = (failure, result)
strings_are_equal (some str1) (some str2) none = (failure, none)
strings_are_equal (some str1) (some str2) (some old) =
    let max_len = if ltb (length str2) (length str1) then length str1 else length str2 in
    (success, some (if is_zero (strncmp max_len str1 str2) then 1 else 0))

-- The bytes of a block of `size` zeros in which snprintf has put `input`, cut off with its NUL.
pub printed_in : ℕ → Text → List ℕ
printed_in zero input = []
printed_in (suc size) input = take size input ++ replicate (suc size - length (take size input)) 0

abbrev pub size_max : ℕ
size_max = 2 ^ 64 - 1

abbrev pub int_max : ℕ
int_max = 2 ^ 31 - 1

-- What `snprintf(buffer, size, "%s", input)` returns, as a size_t: the length of the input, and a
-- negative int, which is -1 here, where no int holds that length.
pub snprintf : Text → ℕ
snprintf input = if leb (length input) int_max then length input else size_max

-- copy_string; `memory` says whether calloc succeeds, and the buffer is the list of its bytes.
-- `unfinished` are the bytes that snprintf leaves in it where it fails.
pub copy_string :
    Bool
    → (unfinished : List ℕ) → Option Text
    → Option (List ℕ)
    → ℕ
    → Bool
    → ExitCode × Option (List ℕ)
copy_string memory unfinished none output character_limit allow_truncation = (failure, output)
copy_string memory unfinished (some input) none character_limit allow_truncation = (failure, none)
copy_string memory unfinished (some input) (some old) character_limit allow_truncation =
    let buffer_size = (character_limit + 1) % 2 ^ 64 in
    if not memory
    then (failure, some old)
    else if leb buffer_size (snprintf input) && not allow_truncation
    then (failure, some old)
    else if leb (length input) int_max
    then (success, some (printed_in buffer_size input))
    else (success, some unfinished)
