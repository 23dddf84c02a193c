-- ===== src/LinkedList/Clear/Laws.antt =====
-- What list_clear and list_delete free.
use cmake_template.Prelude.{
  ℕ, zero, suc, ◌+◌, ◌≡◌, ◌<◌, refl, none, some, List, [], ◌∷◌, arith, ◌==◌, length, if◌then◌else◌,
}
use cmake_template.Core.{Ptr, null, ExitCode, success, Returns, not_null}
use cmake_template.LinkedList.Memory.{Heap, write, load_lem, release_lem, Returns-then}
use cmake_template.LinkedList.Seg.{Cells, has, first, Seg, frame-write}
use cmake_template.LinkedList.Header.{ListT, Handle, IsList, IsListIn}
use cmake_template.LinkedList.Clear.{clear_loop, clear, delete}

-- The data of the nodes, in order.
abbrev pub payloads : Cells → List Ptr
payloads [] = []
payloads ((a, d) ∷ xs) = d ∷ payloads xs

-- `g` is `h` without the nodes `xs`.
abbrev pub Without : Cells → Heap → Heap → Type 0
Without xs h g = (a : Ptr) → g a ≡ (if has a xs then none else h a)

-- The data of `xs` that a callback at `f` is handed: none for NULL.
abbrev pub handed : Ptr → Cells → List Ptr
handed f xs = if f == null then [] else payloads xs

clear_loop-Without :
    (f : Ptr) (k : ℕ) (h : Heap) (prev : Ptr) (xs : Cells)
    → Seg h prev xs null
    → length xs < k
    → Returns
        (λ (freed, g). (freed ≡ handed f xs) × Without xs h g)
        (clear_loop f k (first xs null) h)
unfolding clear_loop
clear_loop-Without f zero h prev xs s fuel = absurd (omega arith)
clear_loop-Without f (suc k) h prev [] s fuel = (ground arith, λ a. refl)
clear_loop-Without f (suc k) h prev ((a, d) ∷ xs) (ne, e, out, s) fuel =
    let h1 = write h a none in
    rw (not_null a ne, load_lem h ne e, release_lem h ne e)
      (Returns-then _ (λ (freed, g). (freed ≡ handed f ((a, d) ∷ xs)) × Without ((a, d) ∷ xs) h g)
        (clear_loop f k (first xs null) h1) _
        (clear_loop-Without f k h1 a xs (frame-write h a xs null a none s out) (omega arith))
        λ freed g (e1, gone). (ground arith, λ x. ground (arith, gone x)))

abbrev pub Cleared : Heap → ListT → Cells → (ExitCode × Handle × List Ptr) × Heap → Type 0
Cleared h l xs ((code, m, freed), g) =
    (code ≡ success) × IsListIn g l m [] × (freed ≡ handed l.custom_free xs) × Without xs h g

abbrev pub Deleted : Heap → ListT → Cells → (ExitCode × Handle × List Ptr) × Heap → Type 0
Deleted h l xs ((code, m, freed), g) =
    (code ≡ success) × (m ≡ none) × (freed ≡ handed l.custom_free xs) × Without xs h g

-- On a list of the nodes `xs` list_clear succeeds: it hands the data of each node to the callback
-- once, in order, unless the callback is NULL, frees exactly the nodes, and leaves an empty list.
pub clear-Without :
    (h : Heap) (l : ListT) (xs : Cells)
    → IsList h l xs
    → Returns (Cleared h l xs) (clear (some l) h)
unfolding clear
clear-Without h l xs is =
    Returns-then (λ (freed, g). (freed ≡ handed l.custom_free xs) × Without xs h g) (Cleared h l xs)
      (clear_loop l.custom_free (l.size + 1) l.head h) _ looped
      λ freed g (e, gone). (
        refl,
        (
          record { chain = tt; head = refl; tail = refl; size = refl; word = omega arith },
          refl,
          refl,
        ),
        e,
        gone,
      )
  where
    looped :
        Returns
          (λ (freed, g). (freed ≡ handed l.custom_free xs) × Without xs h g)
          (clear_loop l.custom_free (l.size + 1) l.head h)
    looped =
        rw is.head (
          clear_loop-Without l.custom_free (l.size + 1) h null xs is.chain (omega (arith, is.size)))

-- On a list of the nodes `xs` list_delete succeeds: it hands the data of each node to the callback
-- once, in order, unless the callback is NULL, frees exactly the nodes, and sets the caller's
-- pointer to NULL.
pub delete-Without :
    (h : Heap) (l : ListT) (xs : Cells)
    → IsList h l xs
    → Returns (Deleted h l xs) (delete (some l) h)
unfolding delete
delete-Without h l xs is =
    Returns-then (Cleared h l xs) (Deleted h l xs) (clear (some l) h) _ (clear-Without h l xs is)
      λ (code, m, freed) g (e, k, e', gone). rw e (refl, refl, e', gone)
