-- ===== src/LinkedList/Select.antt =====
-- list_find_all_occurrences and list_pick_random_item of linked_list.c.
mod Tests
use cmake_template.Prelude.{
  none, some, true, false, zero, [], List, ℕ, ◌∷◌, ◌^◌, suc, Bool, if◌then◌else◌, ◌-◌, ◌==◌, ltb,
  not,
}
use cmake_template.Core.{null, success, null_pointer, Ptr, CmpF, ExitCode, is_equal, succeeded}
use cmake_template.LinkedList.Memory.{Cmd, pure, ◌>>=◌, ◌>>◌, load}
use cmake_template.LinkedList.Header.{ListT, Handle}
use cmake_template.LinkedList.Push.{list_new, push_head}
use cmake_template.LinkedList.Clear.{delete}

-- What the calloc of the next call returns, and those of the calls behind it; none left is NULL.
abbrev pub next_fresh : List Ptr → Ptr × List Ptr
next_fresh [] = (null, [])
next_fresh (a ∷ rest) = (a, rest)

-- Where a push failed: list_delete of the new list, with the data that it hands to `custom_free`.
pub give_up : Handle → Cmd (Handle × List Ptr)
give_up new_list = do (code, m, freed) ← delete new_list; pure (m, freed)

-- The loop of list_find_all_occurrences. A node that is pushed takes an address of `fresh`.
pub occurrences_loop : CmpF → Ptr → ℕ → Ptr → (fresh : List Ptr) → Handle → Cmd (Handle × List Ptr)
occurrences_loop cmp key zero current fresh new_list = pure (new_list, [])
occurrences_loop cmp key (suc n) current fresh new_list = do
  c ← load current
  elim (is_equal (cmp key c.payload)) [
    | false ↦ occurrences_loop cmp key n c.next fresh new_list
    | true ↦
        (let (a, fresh') = next_fresh fresh in
          do
            (check, m) ← push_head new_list c.payload a
            elim (succeeded check) [
              | true ↦ occurrences_loop cmp key n c.next fresh' m
              | false ↦ give_up m
            ])
  ]

-- list_find_all_occurrences, with the data handed to `custom_free`. Its printf is left out.
pub find_all_occurrences :
    Handle → (search_data : Ptr) → (granted : Bool) → (fresh : List Ptr) → Cmd (Handle × List Ptr)
find_all_occurrences none key granted fresh = pure (none, [])
find_all_occurrences (some l) key granted fresh =
    if 0 == l.size then pure (none, []) else elim (list_new l.custom_free l.compare_func granted) [
      | none ↦ pure (none, [])
      | some m ↦ occurrences_loop l.compare_func key l.size l.head fresh (some m)
    ]

-- The largest int.
abbrev pub int_max : ℕ
int_max = 2 ^ 31 - 1

-- The loop of list_pick_random_item, which stops at NULL.
pub walk_to : ℕ → Ptr → Cmd Ptr
walk_to zero current = pure current
walk_to (suc n) current =
    if current == null then pure current else (do c ← load current; walk_to n c.next)

-- list_pick_random_item; `draw` is what random_number returns for the two bounds of the index.
pub pick_random_item : Handle → (draw : ℕ → ℕ → ExitCode × ℕ) → Cmd Ptr
pick_random_item none draw = pure null
pick_random_item (some l) draw =
    if 0 == l.size
    then pure null
    else if ltb int_max l.size
    then pure null
    else let (code, random_index) = draw 0 (l.size - 1) in
      if not (succeeded code) then pure null else (do
        p ← walk_to random_index l.head
        if p == null then pure null else (do n ← load p; pure n.payload))
