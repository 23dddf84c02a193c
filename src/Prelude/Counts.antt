-- ===== src/Prelude/Counts.antt =====
-- How often a number, such as an address, is in a list.
use Prim.Native.Nat.{ℕ, suc, ◌+◌, ◌≤◌, ◌<◌}
use mathlib.Core.Path.{◌≡◌}
use mathlib.Core.List.{List, [], ◌∷◌, ◌++◌}
use native.Mathlib.Omega.{arith}
use cmake_template.Prelude.Tests.{if◌then◌else◌, ◌==◌}
use cmake_template.Prelude.Lists.{length}

abbrev pub tally : ℕ → ℕ → ℕ
tally p v = if p == v then 1 else 0

abbrev pub count : ℕ → List ℕ → ℕ
count v [] = 0
count v (p ∷ ps) = tally p v + count v ps

pub tally_self : (v : ℕ) → tally v v ≡ 1
tally_self v = ground arith

pub count-append : (v : ℕ) (ps qs : List ℕ) → count v (ps ++ qs) ≡ count v ps + count v qs
count-append v [] qs = omega arith
count-append v (p ∷ ps) qs = omega (arith, count-append v ps qs)

-- A list without the first `v`.
abbrev erase : ℕ → List ℕ → List ℕ
erase v [] = []
erase v (p ∷ ps) = if p == v then ps else p ∷ erase v ps

count-erase :
    (u v : ℕ) (ps : List ℕ) → 0 < count v ps → count u (erase v ps) + tally v u ≡ count u ps
count-erase u v [] h = absurd (omega arith)
count-erase u v (p ∷ ps) h = ground (arith, count-erase u v ps)

length-erase : (v : ℕ) (ps : List ℕ) → 0 < count v ps → suc (length (erase v ps)) ≡ length ps
length-erase v [] h = absurd (omega arith)
length-erase v (p ∷ ps) h = ground (arith, length-erase v ps)

-- A list that has no node more often than another is not longer.
pub length-le : (ps qs : List ℕ) → ((v : ℕ) → count v ps ≤ count v qs) → length ps ≤ length qs
length-le [] qs h = omega arith
length-le (p ∷ ps) qs h =
    let there : 0 < count p qs = omega (arith, h p, tally_self p) in
    let rest = length-le ps (erase p qs) (λ v. omega (arith, h v, count-erase v p qs there)) in
    omega (arith, rest, length-erase p qs there)
