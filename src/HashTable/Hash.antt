-- ===== src/HashTable/Hash.antt =====
-- hash: no step of its loop overflows, and the index is in range.
use cmake_template.Prelude.{ℕ, ◌+◌, ◌*◌, ◌%◌, ◌^◌, ◌<◌, ◌≡◌, [], ◌∷◌, arith, ◌∙◌}
use cmake_template.Core.{ok, not_null}
use cmake_template.Text.{Text}
use cmake_template.HashTable.{hash, hash_loop, base, prime}

-- Every letter is an unsigned char.
abbrev pub Bytes : Text → Type 0
Bytes [] = Unit
Bytes (c ∷ cs) = (c < 256) × Bytes cs

-- The number whose digits to the base 256 are the letters, the first of them in front; `acc` stands
-- for what is in front of those.
abbrev pub number : ℕ → Text → ℕ
number acc [] = acc
number acc (c ∷ cs) = number (acc * base + c) cs

step_lem :
    (t c : ℕ)
    → t < prime
    → c < 256
    → ((t * base % 2 ^ 32 + c) % 2 ^ 32) % prime ≡ (t * base + c) % prime
step_lem t c ht hc = omega arith

number-mod :
    (a b : ℕ) (cs : Text) → a % prime ≡ b % prime → number a cs % prime ≡ number b cs % prime
number-mod a b [] e = e
number-mod a b (c ∷ cs) e = number-mod (a * base + c) (b * base + c) cs (omega arith)

pub hash_loop-number :
    (t : ℕ) (cs : Text) → t < prime → Bytes cs → hash_loop t cs ≡ number t cs % prime
unfolding hash_loop
hash_loop-number t [] ht hb = omega arith
hash_loop-number t (c ∷ cs) ht (hc, hb) =
    let next = ((t * base % 2 ^ 32 + c) % 2 ^ 32) % prime in
    hash_loop-number next cs (omega arith) hb
    ∙ number-mod next (t * base + c) cs (omega (arith, step_lem t c ht hc))

-- For a key of bytes and a size that is not 0, hash succeeds: the index is the number that the
-- letters write to the base 256, modulo 65521 and then modulo the size, since no uint32_t operation
-- of its loop wraps; so it is below the size.
pub hash-number :
    (size : ℕ) (key : Text)
    → 0 < size
    → Bytes key
    → (hash size key ≡ ok (number 0 key % prime % size)) × (number 0 key % prime % size < size)
unfolding hash
hash-number size key pos_size hb =
    (rw (not_null size (omega arith)) (rw (hash_loop-number 0 key (omega arith) hb)), omega arith)
