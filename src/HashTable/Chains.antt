-- ===== src/HashTable/Chains.antt =====
-- The array of chains, read and written at an index.
use cmake_template.Prelude.{
  ℕ, List, ◌≡◌, set, get_or, ◌<◌, [], zero, length, ◌∷◌, refl, arith, suc, ap, ◌++◌,
}
use cmake_template.Core.{Ptr, ok, read}
use cmake_template.Text.{Text}
use cmake_template.HashTable.{Chain}
use cmake_template.HashTable.Entries.{ShortKeys, AllShort, under}

pub get_or-set_self {ℓ} :
    {A : Type ℓ} (xs : List A) (i : ℕ) (v d : A) → i < length xs → get_or (set xs i v) i d ≡ v
get_or-set_self [] i v d h = absurd (omega arith)
get_or-set_self (x ∷ xs) zero v d h = refl
get_or-set_self (x ∷ xs) (suc i) v d h = get_or-set_self xs i v d (omega arith)

-- An exchanged chain with the same data under `k`.
pub under-get_or-set :
    (k : Text) (cs : List Chain) (i j : ℕ) (c : Chain)
    → under k c ≡ under k (get_or cs i [])
    → under k (get_or (set cs i c) j []) ≡ under k (get_or cs j [])
under-get_or-set k [] i j c e = refl
under-get_or-set k (x ∷ cs) zero zero c e = e
under-get_or-set k (x ∷ cs) zero (suc j) c e = refl
under-get_or-set k (x ∷ cs) (suc i) zero c e = refl
under-get_or-set k (x ∷ cs) (suc i) (suc j) c e = under-get_or-set k cs i j c e

pub append_nil : (ds : List Ptr) → ds ++ [] ≡ ds
append_nil [] = refl
append_nil (d ∷ ds) = ap (λ l. d ∷ l) (append_nil ds)

pub read_lem : (cs : List Chain) (i : ℕ) → i < length cs → read cs i ≡ ok (get_or cs i [])
read_lem [] i h = absurd (omega arith)
read_lem (c ∷ cs) zero h = refl
read_lem (c ∷ cs) (suc i) h = read_lem cs i (omega arith)

pub AllShort-set :
    (cs : List Chain) (i : ℕ) (c : Chain) → AllShort cs → ShortKeys c → AllShort (set cs i c)
AllShort-set [] i c h hc = tt
AllShort-set (x ∷ cs) zero c (hx, h) hc = (hc, h)
AllShort-set (x ∷ cs) (suc i) c (hx, h) hc = (hx, AllShort-set cs i c h hc)

pub AllShort-get_or : (cs : List Chain) (i : ℕ) → AllShort cs → ShortKeys (get_or cs i [])
AllShort-get_or [] i h = tt
AllShort-get_or (c ∷ cs) zero (hc, h) = hc
AllShort-get_or (c ∷ cs) (suc i) (hc, h) = AllShort-get_or cs i h
