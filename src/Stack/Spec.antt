-- ===== src/Stack/Spec.antt =====
-- A bounded stack as a list, top first, and what a client asks of it and sees of each call.
use cmake_template.Prelude.{ℕ, Bool, List, [], ◌∷◌, ◌==◌, if◌then◌else◌, length}
use cmake_template.Core.{Ptr, null, ExitCode, success, failure, null_pointer}

-- A call; `push x granted` says whether the call is granted memory.
pub data Op : Type 0 where
  push : Ptr → Bool → Op
  pop peek is_full is_empty : Op

pub data Reply : Type 0 where
  code : ExitCode → Reply
  item : Ptr → Reply

-- The top of a list of data, NULL if there is none.
abbrev pub top : List Ptr → Ptr
top [] = null
top (x ∷ xs) = x

abbrev pub below : List Ptr → List Ptr
below [] = []
below (x ∷ xs) = xs

-- A list of at most `limit` data.
unfoldable pub step : ℕ → List Ptr → Op → Reply × List Ptr
step limit xs (push x granted) =
    if x == null
    then (code null_pointer, xs)
    else if length xs == limit
    then (code failure, xs)
    else if granted
    then (code success, x ∷ xs)
    else (code failure, xs)
step limit xs pop = (item (top xs), below xs)
step limit xs peek = (item (top xs), xs)
step limit xs is_full = (code (if length xs == limit then success else failure), xs)
step limit xs is_empty = (code (if length xs == 0 then success else failure), xs)

unfoldable pub run : ℕ → List Ptr → List Op → List Reply
run limit xs [] = []
run limit xs (op ∷ ops) = let (r, xs') = step limit xs op in r ∷ run limit xs' ops
