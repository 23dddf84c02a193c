-- ===== src/Strings/Laws.antt =====
-- libs/Strings: what the functions of string_operations.c leave in their buffers.
use cmake_template.Prelude.{
  ℕ, zero, suc, ◌≡◌, Bool, ◌∷◌, List, some, take, if◌then◌else◌, ◌<◌, arith, ◌≤◌, length, Option,
  ◌++◌, ltb, ◌==◌, ◌-◌, none, take-all, length-append, replicate, [], length-take, true, refl,
  length-replicate, replicate_pos, ◌+◌, ◌↔◌, ◌&&◌, not, ◌%◌, ◌^◌, sym, ◌∙◌, ap, ◌||◌,
}
use Prim.{tt}
use cmake_template.Core.{failure, success}
use cmake_template.Text.{Text, strncmp-eq, strncmp-take}
use cmake_template.Strings.{
  strip_newline, copy_string, strings_are_equal, strcspn_newline, printed_in, size_max, int_max,
  snprintf, is_zero, strncmp,
}

-- The line in front of the first newline.
abbrev pub first_line : Text → Text
first_line [] = []
first_line (c ∷ s) = if c == b'\n' then [] else c ∷ first_line s

take-strcspn : (s : Text) → take (strcspn_newline s) s ≡ first_line s
unfolding strcspn_newline
take-strcspn [] = refl
take-strcspn (c ∷ s) = ground (arith, take-strcspn s)

strcspn_le : (s : Text) → strcspn_newline s ≤ length s
unfolding strcspn_newline
strcspn_le [] = omega arith
strcspn_le (c ∷ s) = ground (arith, strcspn_le s)

-- strip_newline cuts a string off at its first newline, and leaves a string with none as it is.
pub strip_newline-first_line : (s : Text) → strip_newline (some s) ≡ (success, some (first_line s))
unfolding strip_newline
strip_newline-first_line s =
    ground (arith, take-strcspn s, strcspn_le s, take-all (strcspn_newline s) s)

-- strings_are_equal stores 1 exactly if the two strings are the same, and else 0.
pub strings_are_equal-same :
    (a b : Text) (old : ℕ)
    → (result : ℕ) × ((strings_are_equal (some a) (some b) (some old) ≡ (success, some result))
        × (((result ≡ 1) ↔ (a ≡ b)) × (result ≤ 1)))
unfolding strings_are_equal
strings_are_equal-same a b old =
    let n : ℕ = if ltb (length b) (length a) then length a else length b in
    let same : is_zero (strncmp n a b) ≡ true → a ≡ b =
      λ e. sym (take-all n a (ground arith)) ∙ strncmp-eq n a b e ∙ take-all n b (ground arith) in
    (
      if is_zero (strncmp n a b) then 1 else 0,
      (
        refl,
        (
          (λ e. same (ground arith), λ e. rw (strncmp-take n a b (ap (take n) e)) refl),
          ground arith,
        ),
      ),
    )

-- The string in a block of bytes, up to its first NUL; `none` if there is no NUL in it.
abbrev pub string_in : List ℕ → Option Text
string_in [] = none
string_in (c ∷ s) = elim c [
  | zero ↦ some []
  | suc d ↦ elim (string_in s) [ none ↦ none | some t ↦ some (suc d ∷ t) ]
]

abbrev pub NoNul : Text → Type 0
NoNul [] = Unit
NoNul (c ∷ s) = (0 < c) × NoNul s

string_in-append : (s : Text) (zeros : List ℕ) → NoNul s → string_in (s ++ (0 ∷ zeros)) ≡ some s
string_in-append [] zeros h = refl
string_in-append (zero ∷ s) zeros h = absurd (omega arith)
string_in-append (suc c ∷ s) zeros h = rw (string_in-append s zeros h.1) refl

NoNul-take : (n : ℕ) (s : Text) → NoNul s → NoNul (take n s)
NoNul-take zero s h = tt
NoNul-take (suc n) [] h = tt
NoNul-take (suc n) (c ∷ s) h = (h.0, NoNul-take n s h.1)

string_in-printed_in :
    (size : ℕ) (s : Text) → NoNul s → string_in (printed_in (suc size) s) ≡ some (take size s)
unfolding printed_in
string_in-printed_in size s h =
    let room : 0 < suc size - length (take size s) = omega (arith, length-take size s) in
    rw (replicate_pos {A = ℕ} _ 0 room) (string_in-append (take size s) _ (NoNul-take size s h))

length-printed_in : (size : ℕ) (s : Text) → length (printed_in size s) ≡ size
unfolding printed_in
length-printed_in zero s = refl
length-printed_in (suc size) s = omega (
  arith,
  length-append (take size s) (replicate (suc size - length (take size s)) 0),
  length-replicate {A = ℕ} (suc size - length (take size s)) 0,
  length-take size s,
)

-- copy_string with memory and a limit below SIZE_MAX. Where truncation is not allowed, a string that is
-- longer than the limit or than INT_MAX is refused, and the output is as it was. Else a string of at
-- most INT_MAX bytes is stored: the new buffer has limit + 1 bytes, and the string in it, with its NUL,
-- is the first `limit` bytes of the input. Of a longer one the buffer is stored that the failing
-- snprintf leaves.
pub copy_string-take :
    (unfinished : List ℕ) (input old : Text) (limit : ℕ) (allow : Bool)
    → limit < size_max
    → NoNul input
    → (copy_string true unfinished (some input) (some old) limit allow ≡ (
        if (ltb limit (length input) || ltb int_max (length input)) && not allow
        then (failure, some old)
        else if ltb int_max (length input)
        then (success, some unfinished)
        else (success, some (printed_in (suc limit) input))))
      × (length (printed_in (suc limit) input) ≡ suc limit)
      × (string_in (printed_in (suc limit) input) ≡ some (take limit input))
unfolding copy_string snprintf
copy_string-take unfinished input old limit allow small h =
    let wrapped : (limit + 1) % 2 ^ 64 ≡ suc limit = omega arith in
    (
      rw wrapped (ground arith),
      length-printed_in (suc limit) input,
      string_in-printed_in limit input h,
    )
