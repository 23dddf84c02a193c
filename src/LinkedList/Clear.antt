-- ===== src/LinkedList/Clear.antt =====
-- list_clear and list_delete of linked_list.c. The loop has `size + 1` rounds.
pub mod Laws
use cmake_template.Prelude.{ℕ, zero, suc, ◌+◌, none, some, List, [], ◌∷◌, ◌++◌, if◌then◌else◌, ◌==◌}
use cmake_template.Core.{Ptr, null, ExitCode, success, null_pointer, succeeded, out_of_fuel}
use cmake_template.LinkedList.Memory.{Cmd, pure, ◌>>=◌, ◌>>◌, load, release}
use cmake_template.LinkedList.Header.{ListT, Handle}

-- The loop of list_clear, with the data handed to `custom_free`, which may be NULL.
unfoldable pub clear_loop : (custom_free : Ptr) → ℕ → Ptr → Cmd (List Ptr)
clear_loop custom_free zero current = λ h. out_of_fuel
clear_loop custom_free (suc k) current = if current == null then pure [] else (do
  c ← load current
  release current
  rest ← clear_loop custom_free k c.next
  pure (if custom_free == null then rest else c.payload ∷ rest))

-- list_clear
unfoldable pub clear : Handle → Cmd (ExitCode × Handle × List Ptr)
clear none = pure (null_pointer, none, [])
clear (some l) = do
  freed ← clear_loop l.custom_free (l.size + 1) l.head
  pure (success, some (record l { head = null; tail = null; size = 0 }), freed)

-- list_delete, whose argument is `&list`.
unfoldable pub delete : Handle → Cmd (ExitCode × Handle × List Ptr)
delete none = pure (null_pointer, none, [])
delete (some l) = do
  (code, m, freed) ← clear (some l)
  if succeeded code then pure (code, none, freed) else pure (code, m, freed)
