-- ===== src/LinkedList/Push.antt =====
-- list_new, list_push_head, list_push_tail and list_push_position of linked_list.c. An argument
-- `fresh` is the address that the calloc of the call returns, NULL if it fails.
pub mod Links
pub mod Between
pub mod Refine
pub mod Position
mod Tests
use cmake_template.Prelude.{
  ℕ, zero, suc, ◌+◌, ◌-◌, ◌%◌, ◌^◌, Bool, none, some, if◌then◌else◌, ◌==◌, ltb,
}
use cmake_template.Core.{Ptr, null, ExitCode, success, failure, null_pointer, CmpF}
use cmake_template.LinkedList.Memory.{
  node, Cmd, pure, ◌>>=◌, ◌>>◌, load, set_next, set_prev, node_new,
}
use cmake_template.LinkedList.Header.{ListT, Handle}

-- list_new
unfoldable pub list_new : Ptr → CmpF → (granted : Bool) → Handle
list_new free_func comp_func granted =
    if granted
    then some (record {
      size = 0;
      head = null;
      tail = null;
      custom_free = free_func;
      compare_func = comp_func;
    })
    else none

-- `new` becomes the first node of an empty list.
unfoldable pub establish : ListT → Ptr → Cmd ListT
establish l new = do
  set_next new null
  set_prev new null
  pure (record l { head = new; tail = new })

-- `new` goes in front of the head.
unfoldable pub prepend : ListT → Ptr → Cmd ListT
prepend l new = do
  set_next new l.head
  set_prev new null
  set_prev l.head new
  pure (record l { head = new })

-- `new` goes behind the tail.
pub attach : ListT → Ptr → Cmd ListT
attach l new = do
  set_prev new l.tail
  set_next new null
  set_next l.tail new
  pure (record l { tail = new })

-- `list->size += 1`, a uint32_t, and the return of E_SUCCESS.
unfoldable pub count_new : ListT → Cmd (ExitCode × Handle)
count_new l = pure (success, some (record l { size = (l.size + 1) % 2 ^ 32 }))

-- list_push_head
unfoldable pub push_head : Handle → Ptr → (fresh : Ptr) → Cmd (ExitCode × Handle)
push_head none d fresh = pure (null_pointer, none)
push_head (some l) d fresh = if d == null then pure (null_pointer, some l) else (do
  new ← node_new fresh d
  if new == null
      then pure (failure, some l)
      else (do l' ← if l.head == null then establish l new else prepend l new; count_new l'))

-- list_push_tail
pub push_tail : Handle → Ptr → (fresh : Ptr) → Cmd (ExitCode × Handle)
push_tail none d fresh = pure (null_pointer, none)
push_tail (some l) d fresh = if d == null then pure (null_pointer, some l) else (do
  new ← node_new fresh d
  if new == null
      then pure (failure, some l)
      else (do l' ← if l.head == null then establish l new else attach l new; count_new l'))

-- `current = current->next`, `n` times.
unfoldable pub walk : ℕ → Ptr → Cmd Ptr
walk zero current = pure current
walk (suc n) current = do c ← load current; walk n c.next

-- `new` goes behind `current`.
pub insert_behind : (current new : Ptr) → Cmd (Unit {0})
insert_behind current new = do
  c ← load current
  set_next new c.next
  set_prev new current
  if c.next == null then pure tt else set_prev c.next new
  set_next current new

-- list_push_position
pub push_position : Handle → Ptr → (position : ℕ) → (fresh : Ptr) → Cmd (ExitCode × Handle)
push_position none d position fresh = pure (null_pointer, none)
push_position (some l) d position fresh =
    if d == null
    then pure (null_pointer, some l)
    else if ltb l.size position
    then pure (failure, some l)
    else if 0 == position
    then push_head (some l) d fresh
    else if position == l.size
    then push_tail (some l) d fresh
    else (do
      new ← node_new fresh d
      if new == null
          then pure (failure, some l)
          else (do current ← walk (position - 1) l.head; insert_behind current new; count_new l))
