-- ===== src/LinkedList/Search/Find.antt =====
-- find_node, list_find_first_occurrence and list_contains.
use cmake_template.Prelude.{
  ℕ, zero, suc, ◌+◌, ◌≡◌, ◌≢◌, ◌<◌, refl, false, ◌||◌, some, [], ◌∷◌, arith, length, Bool-cases,
  Bool, inl, if◌then◌else◌, inr,
}
use cmake_template.Core.{Ptr, null, ok, not_null, CmpF, is_equal}
use cmake_template.LinkedList.Memory.{Heap, load_lem}
use cmake_template.LinkedList.Seg.{Cells, first, Seg}
use cmake_template.LinkedList.Header.{ListT, IsList}
use cmake_template.LinkedList.Search.{
  find_loop, find_node, occurrence_loop, find_first_occurrence, contains_loop, contains,
}

-- The first node whose data a test accepts, NULL if there is none.
abbrev pub find_cell : (Ptr → Bool) → Cells → Ptr
find_cell accepts [] = null
find_cell accepts ((a, d) ∷ xs) = if accepts d then a else find_cell accepts xs

abbrev pub any_cell : (Ptr → Bool) → Cells → Bool
any_cell accepts [] = false
any_cell accepts ((a, d) ∷ xs) = accepts d || any_cell accepts xs

module _ (cmp : CmpF) (key : Ptr) (h : Heap) where
  pub find_loop-find_cell :
      (k : ℕ) (prev : Ptr) (xs : Cells)
      → Seg h prev xs null
      → length xs < k
      → find_loop cmp key k (first xs null) h ≡ ok (find_cell (λ d. is_equal (cmp key d)) xs, h)
  unfolding find_loop
  find_loop-find_cell zero prev xs s fuel = absurd (omega arith)
  find_loop-find_cell (suc k) prev [] s fuel = refl
  find_loop-find_cell (suc k) prev ((a, d) ∷ xs) (ne, e, out, s) fuel =
      rw (not_null a ne, load_lem h ne e)
        (elim (Bool-cases (is_equal (cmp key d))) [
          | inl hit ↦ rw hit refl
          | inr miss ↦ rw miss (find_loop-find_cell k a xs s (omega arith))
        ])

  occurrence_loop-find_cell :
      (prev : Ptr) (xs : Cells)
      → Seg h prev xs null
      → occurrence_loop cmp key (length xs) (first xs null) h
        ≡ ok (find_cell (λ d. is_equal (cmp key d)) xs, h)
  unfolding occurrence_loop
  occurrence_loop-find_cell prev [] s = refl
  occurrence_loop-find_cell prev ((a, d) ∷ xs) (ne, e, out, s) =
      rw (load_lem h ne e) (elim (Bool-cases (is_equal (cmp key d))) [
        | inl hit ↦ rw hit refl
        | inr miss ↦ rw miss (occurrence_loop-find_cell a xs s)
      ])

  contains_loop-any_cell :
      (k : ℕ) (prev : Ptr) (xs : Cells)
      → Seg h prev xs null
      → length xs < k
      → contains_loop cmp key k (first xs null) h ≡ ok (any_cell (λ d. is_equal (cmp d key)) xs, h)
  unfolding contains_loop
  contains_loop-any_cell zero prev xs s fuel = absurd (omega arith)
  contains_loop-any_cell (suc k) prev [] s fuel = refl
  contains_loop-any_cell (suc k) prev ((a, d) ∷ xs) (ne, e, out, s) fuel =
      rw (not_null a ne, load_lem h ne e)
        (elim (Bool-cases (is_equal (cmp d key))) [
          | inl hit ↦ rw hit refl
          | inr miss ↦ rw miss (contains_loop-any_cell k a xs s (omega arith))
        ])

module _ (h : Heap) (l : ListT) (xs : Cells) (key : Ptr) (is : IsList h l xs) where
  -- On a list of the nodes `xs`, with a key that is not NULL, find_node and
  -- list_find_first_occurrence return the same node: the first whose data the comparison function
  -- finds equal to the key, or NULL if there is none. Neither changes anything.
  pub find-find_cell :
      key ≢ null
      → let found = find_cell (λ d. is_equal (l.compare_func key d)) xs in
        (find_node l key h ≡ ok (found, h)) × (find_first_occurrence (some l) key h ≡ ok (found, h))
  unfolding find_node find_first_occurrence
  find-find_cell ne = (
    rw (not_null key ne, is.head)
        (find_loop-find_cell l.compare_func key h (l.size + 1) null xs is.chain
          (omega (arith, is.size))),
    rw (is.size, is.head) (occurrence_loop-find_cell l.compare_func key h null xs is.chain),
  )

  -- On a list of the nodes `xs`, with a key that is not NULL, list_contains says whether the
  -- comparison function finds the data of some node equal to the key, and changes nothing.
  pub contains-any_cell :
      key ≢ null
      → contains (some l) key h ≡ ok (any_cell (λ d. is_equal (l.compare_func d key)) xs, h)
  unfolding contains
  contains-any_cell ne =
      rw (not_null key ne, is.head)
        (contains_loop-any_cell l.compare_func key h (l.size + 1) null xs is.chain
          (omega (arith, is.size)))
