-- ===== src/LinkedList/Pop.antt =====
-- list_pop_head, list_pop_tail, list_pop_position, the list_remove functions by place and
-- remove_node of linked_list.c. A call of `custom_free` is logged by its argument; one through NULL
-- is a fault.
pub mod Ends
pub mod Unlink
pub mod Position
mod Tests
use cmake_template.Prelude.{
  ℕ, zero, suc, ◌+◌, ◌-◌, ◌%◌, ◌^◌, none, some, List, [], ◌∷◌, if◌then◌else◌, ◌==◌, leb, ◌++◌,
}
use cmake_template.Core.{Ptr, null, ExitCode, success, failure, null_pointer}
use cmake_template.LinkedList.Memory.{
  Cmd, pure, crash, ◌>>=◌, ◌>>◌, load, set_next, set_prev, release,
}
use cmake_template.LinkedList.Header.{ListT, Handle}
use cmake_template.LinkedList.Push.{walk}

-- `list->size--`, a uint32_t
abbrev pub less_one : ListT → ListT
less_one l = record l { size = (l.size + (2 ^ 32 - 1)) % 2 ^ 32 }

-- `list->custom_free(d)`
abbrev pub call_free : ListT → Ptr → Cmd (List Ptr)
call_free l d = if l.custom_free == null then crash else pure (d ∷ [])

-- list_pop_head
pub pop_head : Handle → Cmd (Ptr × Handle)
pop_head none = pure (null, none)
pop_head (some l) = if l.head == null then pure (null, some l) else (do
  n ← load l.head
  l' ←
      if l.head == l.tail
      then pure (record l { head = null; tail = null })
      else (do set_prev n.next null; pure (record l { head = n.next }))
  release l.head
  pure (n.payload, some (less_one l')))

-- list_pop_tail
pub pop_tail : Handle → Cmd (Ptr × Handle)
pop_tail none = pure (null, none)
pop_tail (some l) = if l.tail == null then pure (null, some l) else (do
  n ← load l.tail
  l' ←
      if l.head == l.tail
      then pure (record l { head = null; tail = null })
      else (do set_next n.prev null; pure (record l { tail = n.prev }))
  release l.tail
  pure (n.payload, some (less_one l')))

-- The part of list_pop_position for a node between the ends.
pub pop_between : ListT → (position : ℕ) → Cmd (Ptr × Handle × List Ptr)
pop_between l position = do
  current ← walk position l.head
  n ← load current
  set_next n.prev n.next
  if n.next == null then pure tt else set_prev n.next n.prev
  freed ← call_free l n.payload
  release current
  pure (n.payload, some (less_one l), freed)

-- No call of `custom_free` is made.
abbrev unlogged : Ptr × Handle → Cmd (Ptr × Handle × List Ptr)
unlogged (d, m) = pure (d, m, [])

-- list_pop_position
pub pop_position : Handle → (position : ℕ) → Cmd (Ptr × Handle × List Ptr)
pop_position none position = pure (null, none, [])
pop_position (some l) position =
    if leb l.size position
    then pure (null, some l, [])
    else if 0 == position
    then (pop_head (some l) >>= unlogged)
    else if position == l.size - 1
    then (pop_tail (some l) >>= unlogged)
    else pop_between l position

-- What list_remove_head and list_remove_tail do with the data that was popped.
abbrev discard : ListT → Ptr × Handle → Cmd (ExitCode × Handle × List Ptr)
discard l (d, m) = do freed ← call_free l d; pure (success, m, freed)

-- list_remove_head
pub remove_head : Handle → Cmd (ExitCode × Handle × List Ptr)
remove_head none = pure (null_pointer, none, [])
remove_head (some l) = pop_head (some l) >>= discard l

-- list_remove_tail
pub remove_tail : Handle → Cmd (ExitCode × Handle × List Ptr)
remove_tail none = pure (null_pointer, none, [])
remove_tail (some l) = pop_tail (some l) >>= discard l

-- list_remove_position
pub remove_position : Handle → (position : ℕ) → Cmd (ExitCode × Handle × List Ptr)
remove_position none position = pure (null_pointer, none, [])
remove_position (some l) position = if leb l.size position then pure (failure, some l, []) else (do
  (d, m, freed) ← pop_position (some l) position
  more ← call_free l d
  pure (success, m, freed ++ more))

-- The two links round a node that is taken out: `p` is linked on to `q`, or `q` is the new head;
-- `q` is linked back to `p`, or `p` is the new tail.
pub link_on : ListT → (p q : Ptr) → Cmd ListT
link_on l p q = if p == null then pure (record l { head = q }) else (do set_next p q; pure l)

pub link_back : ListT → (p q : Ptr) → Cmd ListT
link_back l p q = if q == null then pure (record l { tail = p }) else (do set_prev q p; pure l)

-- The end of remove_node: data and node are freed, and counted off.
pub take_out : ListT → (p d : Ptr) → Cmd (ExitCode × Handle × List Ptr)
take_out l p d = do freed ← call_free l d; release p; pure (success, some (less_one l), freed)

-- remove_node, for a list that is not NULL
pub remove_node : ListT → (p : Ptr) → Cmd (ExitCode × Handle × List Ptr)
remove_node l p = if p == null then pure (null_pointer, some l, []) else (do
  n ← load p
  l1 ← link_on l n.prev n.next
  l2 ← link_back l1 n.prev n.next
  take_out l2 p n.payload)
