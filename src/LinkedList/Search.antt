-- ===== src/LinkedList/Search.antt =====
-- The reads of linked_list.c: list_is_empty, the list_peek functions, list_foreach_call,
-- list_find_first_occurrence, list_contains and find_node; and list_remove_data.
-- A `while` loop over the nodes has `size + 1` rounds.
pub mod Reads
pub mod Find
pub mod Erase
use cmake_template.Prelude.{
  ℕ, zero, suc, ◌+◌, Bool, true, false, none, some, List, [], ◌∷◌, if◌then◌else◌, ◌==◌, leb,
}
use cmake_template.Core.{
  Ptr, null, ExitCode, success, failure, null_pointer, CmpF, is_equal, out_of_fuel,
}
use cmake_template.LinkedList.Memory.{Cmd, pure, ◌>>=◌, load}
use cmake_template.LinkedList.Header.{ListT, Handle}
use cmake_template.LinkedList.Push.{walk}
use cmake_template.LinkedList.Pop.{remove_node}

-- list_is_empty
pub is_empty : Handle → ExitCode
is_empty none = failure
is_empty (some l) = if 0 == l.size then success else failure

-- list_peek_head
pub peek_head : Handle → Cmd Ptr
peek_head none = pure null
peek_head (some l) = if l.head == null then pure null else (do n ← load l.head; pure n.payload)

-- list_peek_tail
pub peek_tail : Handle → Cmd Ptr
peek_tail none = pure null
peek_tail (some l) = if l.tail == null then pure null else (do n ← load l.tail; pure n.payload)

-- list_peek_position
pub peek_position : Handle → (position : ℕ) → Cmd Ptr
peek_position none position = pure null
peek_position (some l) position =
    if 0 == l.size
    then pure null
    else if leb l.size position
    then pure null
    else (do current ← walk position l.head; n ← load current; pure n.payload)

-- The loop of list_foreach_call, with the data handed to the action.
pub foreach_loop : ℕ → Ptr → Cmd (List Ptr)
foreach_loop zero current = pure []
foreach_loop (suc n) current = do
  c ← load current
  rest ← foreach_loop n c.next
  pure (c.payload ∷ rest)

-- list_foreach_call
pub foreach_call : Handle → (action_function : Ptr) → Cmd (ExitCode × List Ptr)
foreach_call none action_function = pure (null_pointer, [])
foreach_call (some l) action_function =
    if action_function == null
    then pure (null_pointer, [])
    else (do called ← foreach_loop l.size l.head; pure (success, called))

-- The loop of list_find_first_occurrence.
pub occurrence_loop : CmpF → Ptr → ℕ → Ptr → Cmd Ptr
occurrence_loop cmp key zero current = pure null
occurrence_loop cmp key (suc n) current = do
  c ← load current
  if is_equal (cmp key c.payload) then pure current else occurrence_loop cmp key n c.next

-- list_find_first_occurrence, which returns a node.
pub find_first_occurrence : Handle → (search_data : Ptr) → Cmd Ptr
find_first_occurrence none key = pure null
find_first_occurrence (some l) key = occurrence_loop l.compare_func key l.size l.head

-- The loop of find_node.
pub find_loop : CmpF → Ptr → ℕ → Ptr → Cmd Ptr
find_loop cmp key zero current = λ h. out_of_fuel
find_loop cmp key (suc k) current = if current == null then pure null else (do
  c ← load current
  if is_equal (cmp key c.payload) then pure current else find_loop cmp key k c.next)

-- find_node, for a list that is not NULL
pub find_node : ListT → Ptr → Cmd Ptr
find_node l key =
    if key == null then pure null else find_loop l.compare_func key (l.size + 1) l.head

-- The loop of list_contains, which hands the arguments over in the other order.
pub contains_loop : CmpF → Ptr → ℕ → Ptr → Cmd Bool
contains_loop cmp key zero current = λ h. out_of_fuel
contains_loop cmp key (suc k) current = if current == null then pure false else (do
  c ← load current
  if is_equal (cmp c.payload key) then pure true else contains_loop cmp key k c.next)

-- list_contains
pub contains : Handle → Ptr → Cmd Bool
contains none key = pure false
contains (some l) key =
    if key == null then pure false else contains_loop l.compare_func key (l.size + 1) l.head

-- list_remove_data
pub remove_data : Handle → Ptr → Cmd (ExitCode × Handle × List Ptr)
remove_data none key = pure (null_pointer, none, [])
remove_data (some l) key =
    if key == null
    then pure (null_pointer, some l, [])
    else (do p ← find_node l key; if p == null then pure (failure, some l, []) else remove_node l p)
