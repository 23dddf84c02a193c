-- ===== src/LinkedList/Header.antt =====
-- `list_t` of linked_list.h, and the list of data that it stands for.
use cmake_template.Prelude.{ℕ, ◌≡◌, ◌<◌, ◌^◌, Option, none, some, length}
use cmake_template.Core.{Ptr, null, CmpF}
use cmake_template.LinkedList.Memory.{Heap}
use cmake_template.LinkedList.Seg.{Cells, first, last, Seg}

-- `list_t`. It stands outside the heap of nodes, so a function that changes `*list` returns it anew.
pub record ListT : Type 0 where
  pub size : ℕ
  pub head : Ptr
  pub tail : Ptr
  pub custom_free : Ptr
  pub compare_func : CmpF

-- A `list_t *` argument, `none` for NULL.
abbrev pub Handle : Type 0
Handle = Option ListT

-- In the heap `h` the list `l` is made of the nodes `xs`: they are linked both ways from NULL to
-- NULL, `head` and `tail` are the ends, and `size` counts them, as a uint32_t that has not wrapped.
pub record IsList (h : Heap) (l : ListT) (xs : Cells) : Type 0 where
  pub chain : Seg h null xs null
  pub head : l.head ≡ first xs null
  pub tail : l.tail ≡ last null xs
  pub size : l.size ≡ length xs
  pub word : length xs < 2 ^ 32

-- The list behind a handle is made of `xs`, and has the callbacks of `l`.
abbrev pub IsListIn : Heap → ListT → Handle → Cells → Type 0
IsListIn h l none xs = ⊥
IsListIn h l (some m) xs =
    IsList h m xs × (m.custom_free ≡ l.custom_free) × (m.compare_func ≡ l.compare_func)
