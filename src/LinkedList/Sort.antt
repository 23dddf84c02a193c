-- ===== src/LinkedList/Sort.antt =====
-- list_sort of linked_list.c, with split, merge and merge_sort. A loop or a recursion has as many
-- rounds as the first argument says.
pub mod Merge
pub mod Split
pub mod Order
pub mod Refine
mod Tests
use cmake_template.Prelude.{none, some, true, false, zero, ℕ, if◌then◌else◌, Bool, ◌+◌, suc, ◌==◌}
use cmake_template.Core.{null, success, null_pointer, ExitCode, Ptr, Comparison, CmpF, out_of_fuel}
use cmake_template.LinkedList.Memory.{Cmd, pure, ◌>>=◌, ◌>>◌, load, set_next, set_prev}
use cmake_template.LinkedList.Header.{ListT, Handle}

-- One round of the loop of split: `slow` and `fast` behind it.
pub advance : Ptr → Ptr → Cmd (Ptr × Ptr)
advance slow fast = do
  f ← load fast
  if f.next == null
      then pure (slow, null)
      else (do s ← load slow; n ← load f.next; pure (s.next, n.next))

-- The loop of split: where `slow` ends.
pub split_loop : ℕ → Ptr → Ptr → Cmd Ptr
split_loop zero slow fast = λ h. out_of_fuel
split_loop (suc k) slow fast =
    if fast == null
    then pure slow
    else (do (slow', fast') ← advance slow fast; split_loop k slow' fast')

-- split: `*first_half` and `*second_half`
pub split : ℕ → Ptr → Cmd (Ptr × Ptr)
split k head = do
  n ← load head
  slow ← split_loop k head n.next
  s ← load slow
  set_next slow null
  pure (head, s.next)

-- `LESS_THAN == c`
abbrev pub is_less : Comparison → Bool
is_less Comparison.less_than = true
is_less _ = false

-- The four assignments of merge to `result` and its links, where `rest` is what the call returned.
pub link_front : Ptr → Ptr → Cmd Ptr
link_front result rest = do
  set_next result rest
  n ← load result
  set_prev n.next result
  set_prev result null
  pure result

-- merge
pub merge : CmpF → ℕ → Ptr → Ptr → Cmd Ptr
merge cmp zero first second = λ h. out_of_fuel
merge cmp (suc k) first second =
    if first == null then pure second else if second == null then pure first else (do
      f ← load first
      s ← load second
      if is_less (cmp f.payload s.payload)
          then (do rest ← merge cmp k f.next second; link_front first rest)
          else (do rest ← merge cmp k first s.next; link_front second rest))

-- merge_sort of the nodes from `head`; `size` is the number of rounds for its calls of split and merge.
pub merge_sort : CmpF → (size : ℕ) → ℕ → Ptr → Cmd Ptr
merge_sort cmp size zero head = λ h. out_of_fuel
merge_sort cmp size (suc k) head = if head == null then pure head else (do
  n ← load head
  if n.next == null then pure head else (do
    (first_half, second_half) ← split size head
    first ← merge_sort cmp size k first_half
    second ← merge_sort cmp size k second_half
    merge cmp size first second))

-- list_sort, which leaves `list->tail` as it is.
pub list_sort : Handle → Cmd (ExitCode × Handle)
list_sort none = pure (null_pointer, none)
list_sort (some l) = do
  head ← merge_sort l.compare_func (l.size + 1) (l.size + 1) l.head
  pure (success, some (record l { head = head }))
