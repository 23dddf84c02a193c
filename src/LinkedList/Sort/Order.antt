-- ===== src/LinkedList/Sort/Order.antt =====
-- Sorted sequences of nodes, and what a merge keeps of its parts.
use cmake_template.Prelude.{
  zero, suc, ◌≡◌, refl, arith, true, false, [], ◌∷◌, ◌++◌, length, ℕ, ◌+◌, Bool-cases, ◌<◌, inl,
  length-append, inr,
}
use cmake_template.Core.{CmpF, Ptr}
use cmake_template.LinkedList.Seg.{Cells, has, has-append}
use cmake_template.LinkedList.Sort.{is_less}
use cmake_template.LinkedList.Sort.Merge.{merged, has-merged}

-- The front of a sequence is not less than these data.
abbrev pub Front : CmpF → Ptr → Cells → Type 0
Front cmp d [] = Unit
Front cmp d ((b, c) ∷ xs) = is_less (cmp c d) ≡ false

-- No node's data are less than those of the node before it.
abbrev pub Sorted : CmpF → Cells → Type 0
Sorted cmp [] = Unit
Sorted cmp ((a, d) ∷ xs) = Front cmp d xs × Sorted cmp xs

-- The sum of a weight of the nodes.
abbrev pub total : (Ptr × Ptr → ℕ) → Cells → ℕ
total weight [] = 0
total weight (x ∷ xs) = weight x + total weight xs

-- `zs` has the nodes of `xs`, each as often, in some order: every weight has the same sum.
abbrev pub SameCells : Cells → Cells → Type 0
SameCells xs zs =
    ((weight : Ptr × Ptr → ℕ) → total weight zs ≡ total weight xs)
    × (length zs ≡ length xs)
    × ((p : Ptr) → has p zs ≡ has p xs)

pub total-append :
    (weight : Ptr × Ptr → ℕ) (xs ys : Cells)
    → total weight (xs ++ ys) ≡ total weight xs + total weight ys
total-append weight [] ys = omega arith
total-append weight (x ∷ xs) ys = omega (arith, total-append weight xs ys)

pub total-merged :
    (cmp : CmpF) (weight : Ptr × Ptr → ℕ) (k : ℕ) (xs ys : Cells)
    → length xs + length ys < k
    → total weight (merged cmp k xs ys) ≡ total weight xs + total weight ys
total-merged cmp weight zero xs ys fuel = absurd (omega arith)
total-merged cmp weight (suc k) [] ys fuel = omega arith
total-merged cmp weight (suc k) ((a, d) ∷ xs) [] fuel = omega arith
total-merged cmp weight (suc k) ((a, d) ∷ xs) ((b, c) ∷ ys) fuel =
    elim (Bool-cases (is_less (cmp d c))) [
      | inl less ↦ rw less (omega (arith, total-merged cmp weight k xs ((b, c) ∷ ys) (omega arith)))
      | inr not_less ↦
          rw not_less (omega (arith, total-merged cmp weight k ((a, d) ∷ xs) ys (omega arith)))
    ]

pub length-merged :
    (cmp : CmpF) (k : ℕ) (xs ys : Cells)
    → length xs + length ys < k
    → length (merged cmp k xs ys) ≡ length xs + length ys
length-merged cmp zero xs ys fuel = absurd (omega arith)
length-merged cmp (suc k) [] ys fuel = omega arith
length-merged cmp (suc k) ((a, d) ∷ xs) [] fuel = omega arith
length-merged cmp (suc k) ((a, d) ∷ xs) ((b, c) ∷ ys) fuel = elim (Bool-cases (is_less (cmp d c))) [
  | inl less ↦ rw less (omega (arith, length-merged cmp k xs ((b, c) ∷ ys) (omega arith)))
  | inr not_less ↦ rw not_less (omega (arith, length-merged cmp k ((a, d) ∷ xs) ys (omega arith)))
]

-- A merge of the same nodes in other orders.
pub SameCells-merged :
    (cmp : CmpF) (k : ℕ) (xs ys zs ws : Cells)
    → length xs + length ys < k
    → SameCells xs zs
    → SameCells ys ws
    → SameCells (xs ++ ys) (merged cmp k zs ws)
SameCells-merged cmp k xs ys zs ws fuel (t, l, i) (t', l', i') = (
  λ w. omega (arith, total-merged cmp w k zs ws (omega arith), total-append w xs ys, t w, t' w),
  omega (arith, length-merged cmp k zs ws (omega arith), length-append xs ys),
  λ p. rw (has-merged cmp k zs ws p (omega arith), has-append p xs ys, i p, i' p) refl,
)

Front-merged :
    (cmp : CmpF) (k : ℕ) (d : Ptr) (xs ys : Cells)
    → Front cmp d xs
    → Front cmp d ys
    → Front cmp d (merged cmp k xs ys)
Front-merged cmp zero d xs ys f f' = tt
Front-merged cmp (suc k) d [] ys f f' = f'
Front-merged cmp (suc k) d ((a, e) ∷ xs) [] f f' = f
Front-merged cmp (suc k) d ((a, e) ∷ xs) ((b, c) ∷ ys) f f' =
    elim (Bool-cases (is_less (cmp e c))) [ inl less ↦ rw less f | inr not_less ↦ rw not_less f' ]

-- The merge of sorted sequences is sorted, if no two data are each less than the other.
pub merged-Sorted :
    (cmp : CmpF)
    → ((d e : Ptr) → is_less (cmp d e) ≡ true → is_less (cmp e d) ≡ false)
    → (k : ℕ) (xs ys : Cells) → Sorted cmp xs
    → Sorted cmp ys
    → Sorted cmp (merged cmp k xs ys)
merged-Sorted cmp one_way zero xs ys s t = tt
merged-Sorted cmp one_way (suc k) [] ys s t = t
merged-Sorted cmp one_way (suc k) ((a, d) ∷ xs) [] s t = s
merged-Sorted cmp one_way (suc k) ((a, d) ∷ xs) ((b, c) ∷ ys) (f, s) (f', t) =
    elim (Bool-cases (is_less (cmp d c))) [
      | inl less ↦ rw less (
        Front-merged cmp k d xs ((b, c) ∷ ys) f (one_way d c less),
        merged-Sorted cmp one_way k xs ((b, c) ∷ ys) s (f', t),
      )
      | inr not_less ↦ rw not_less (
        Front-merged cmp k c ((a, d) ∷ xs) ys not_less f',
        merged-Sorted cmp one_way k ((a, d) ∷ xs) ys (f, s) t,
      )
    ]
