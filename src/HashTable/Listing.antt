-- ===== src/HashTable/Listing.antt =====
-- hash_table_find and hash_table_list: the keys that they copy, and the array that may be too small.
use cmake_template.Prelude.{
  ℕ, List, Bool, Option, ◌++◌, length, ◌∷◌, ◌≡◌, ◌≤◌, replicate, if◌then◌else◌, [], ap, some, none,
  suc, arith, refl, length-append, ◌-◌, set, ◌∙◌, ltb, ◌<◌, true, take-all, Bool-cases, sym, inl,
  inr, leb, leb→le,
}
use cmake_template.Core.{
  write, fault, ok, write_lem, Run, ◌>>=◌, success, bind_cong, bind_assoc, ExitCode,
}
use cmake_template.Text.{Text}
use cmake_template.HashTable.{Chain, HashTable, strndup, find_chain, find_loop, rows, list}
use cmake_template.HashTable.Entries.{Holds}

-- The copies of the keys that are wanted, chain by chain.
abbrev pub copies : (Text → Bool) → Chain → List (Option Text)
copies wanted [] = []
copies wanted (n ∷ c) =
    if wanted n.key then some (strndup n.key) ∷ copies wanted c else copies wanted c

abbrev pub all_copies : (Text → Bool) → List Chain → List (Option Text)
all_copies wanted [] = []
all_copies wanted (c ∷ cs) = copies wanted c ++ all_copies wanted cs

append_assoc : (a b c : List (Option Text)) → (a ++ b) ++ c ≡ a ++ (b ++ c)
append_assoc [] b c = refl
append_assoc (x ∷ a) b c = ap (λ l. x ∷ l) (append_assoc a b c)

append_nil : (xs : List (Option Text)) → xs ++ [] ≡ xs
append_nil [] = refl
append_nil (x ∷ xs) = ap (λ l. x ∷ l) (append_nil xs)

write_next :
    (done : List (Option Text)) (room : ℕ) (v : Option Text)
    → write (done ++ replicate (suc room) none) (length done) v
      ≡ ok ((done ++ v ∷ []) ++ replicate room none)
write_next done room v =
    write_lem (done ++ replicate (suc room) none) (length done) v
      (omega (arith, length-append done (replicate (suc room) none)))
    ∙ ap ok (set_next done)
  where
    set_next :
        (xs : List (Option Text))
        → set (xs ++ replicate (suc room) none) (length xs) v
          ≡ (xs ++ v ∷ []) ++ replicate room none
    set_next [] = refl
    set_next (x ∷ xs) = ap (λ l. x ∷ l) (set_next xs)

write_full :
    (done : List (Option Text)) (v : Option Text) → write (done ++ []) (length done) v ≡ fault
write_full done v = ground (arith, length-append done [])

-- The writes of the loops, one behind the other.
push_all : List (Option Text) → List (Option Text) → ℕ → Run (List (Option Text) × ℕ)
push_all [] buffer count = ok (buffer, count)
push_all (x ∷ ks) buffer count = write buffer count x >>= λ buffer'. push_all ks buffer' (suc count)

push_all_append :
    (ks rest buffer : List (Option Text)) (count : ℕ)
    → push_all (ks ++ rest) buffer count
      ≡ (push_all ks buffer count >>= λ (buffer', count'). push_all rest buffer' count')
unfolding push_all
push_all_append [] rest buffer count = refl
push_all_append (x ∷ ks) rest buffer count =
    bind_cong (write buffer count x) (λ buffer'. push_all (ks ++ rest) buffer' (suc count))
      (λ buffer'. push_all ks buffer' (suc count) >>= λ (b, n). push_all rest b n)
      (λ buffer'. push_all_append ks rest buffer' (suc count))
    ∙ sym (
        bind_assoc (write buffer count x) (λ buffer'. push_all ks buffer' (suc count))
          (λ (b, n). push_all rest b n))

length_snoc :
    (done : List (Option Text)) (x : Option Text) → suc (length done) ≡ length (done ++ x ∷ [])
length_snoc done x = omega (arith, length-append done (x ∷ []))

minus_suc : (m n : ℕ) → (suc m - suc n) ≡ (m - n)
minus_suc m n = omega arith

push_all-fits :
    (ks done : List (Option Text)) (room : ℕ)
    → length ks ≤ room
    → push_all ks (done ++ replicate room none) (length done)
      ≡ ok (done ++ (ks ++ replicate (room - length ks) none), length (done ++ ks))
unfolding push_all
push_all-fits [] done room h =
    let e : (room - 0) ≡ room = omega arith in rw (append_nil done, e) refl
push_all-fits (x ∷ ks) done ℕ.zero h = absurd (omega arith)
push_all-fits (x ∷ ks) done (ℕ.suc room) h =
    rw (write_next done room x, length_snoc done x)
      (push_all-fits ks (done ++ x ∷ []) room (omega arith)
        ∙ rw
            (
              append_assoc done (x ∷ []) (ks ++ replicate (room - length ks) none),
              append_assoc done (x ∷ []) ks,
              minus_suc room (length ks),
            )
            refl)

push_all-overflow :
    (ks done : List (Option Text)) (room : ℕ)
    → room < length ks
    → push_all ks (done ++ replicate room none) (length done) ≡ fault
unfolding push_all
push_all-overflow [] done room h = absurd (omega arith)
push_all-overflow (x ∷ ks) done ℕ.zero h = rw (write_full done x) refl
push_all-overflow (x ∷ ks) done (ℕ.suc room) h =
    rw (write_next done room x, length_snoc done x)
      (push_all-overflow ks (done ++ x ∷ []) room (omega arith))

module _ (wanted : Text → Bool) where
  find_chain-push_all :
      (c : Chain) (buffer : List (Option Text)) (count : ℕ)
      → find_chain wanted c buffer count ≡ push_all (copies wanted c) buffer count
  unfolding find_chain push_all
  find_chain-push_all [] buffer count = refl
  find_chain-push_all (n ∷ c) buffer count = elim (Bool-cases (wanted n.key)) [
    | inl e ↦ rw e (
        bind_cong (write buffer count (some (strndup n.key)))
          (λ buffer'. find_chain wanted c buffer' (suc count))
          (λ buffer'. push_all (copies wanted c) buffer' (suc count))
          (λ buffer'. find_chain-push_all c buffer' (suc count)))
    | inr e ↦ rw e (find_chain-push_all c buffer count)
  ]

  find_loop-push_all :
      (cs : List Chain) (buffer : List (Option Text)) (count : ℕ)
      → find_loop wanted cs buffer count ≡ push_all (all_copies wanted cs) buffer count
  unfolding find_loop push_all
  find_loop-push_all [] buffer count = refl
  find_loop-push_all (c ∷ cs) buffer count =
      rw (find_chain-push_all c buffer count) (
        bind_cong (push_all (copies wanted c) buffer count) (λ (b, n). find_loop wanted cs b n)
          (λ (b, n). push_all (all_copies wanted cs) b n) (λ (b, n). find_loop-push_all cs b n))
      ∙ sym (push_all_append (copies wanted c) (all_copies wanted cs) buffer count)

pub rows-Holds : {t : HashTable} {cs : List Chain} → Holds t cs → rows t.size t.table ≡ ok cs
unfolding rows
rows-Holds {t} {cs} l = rw l.at (all t.size cs l.size_eq)
  where
    all : (n : ℕ) (xs : List Chain) → length xs ≡ n → rows n (some xs) ≡ ok xs
    all ℕ.zero [] e = refl
    all ℕ.zero (x ∷ xs) e = absurd (omega arith)
    all (ℕ.suc n) xs e =
        let b : ltb n (length xs) ≡ true = ground arith in
        rw (b, take-all (ℕ.suc n) xs (omega arith)) refl

-- What the loops make of an array of `size` cells and the copies `ks`: the copies in front and their
-- number where they fit, and a write behind the end of the array where they do not.
abbrev pub written : (size : ℕ) → List (Option Text) → Run (ExitCode × List (Option Text) × ℕ)
written size ks =
    if leb (length ks) size
    then ok (success, ks ++ replicate (size - length ks) none, length ks)
    else fault

push_all-written :
    (size : ℕ) (ks : List (Option Text))
    → (push_all ks (replicate size none) 0 >>= λ (buffer, count). ok (success, buffer, count))
      ≡ written size ks
push_all-written size ks = elim (Bool-cases (leb (length ks) size)) [
  | inl fits ↦ rw (push_all-fits ks [] size (leb→le (length ks) size fits), fits) refl
  | inr over ↦
      let more : size < length ks = ground (arith, over) in
      rw (push_all-overflow ks [] size more, over) refl
]

module _ {t : HashTable} {cs : List Chain} (l : Holds t cs) where
  -- On a well-formed table hash_table_list succeeds and passes back the copies of all keys, chain by
  -- chain, and their number, where the table has no more keys than chains; where it has more, it writes
  -- behind the end of its array.
  pub list-all_copies : list (some t) true ≡ written t.size (all_copies (λ key. true) cs)
  unfolding list
  list-all_copies =
      rw (rows-Holds l, find_loop-push_all (λ key. true) cs (replicate t.size none) 0)
        (push_all-written t.size (all_copies (λ key. true) cs))
