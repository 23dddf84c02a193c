-- ===== src/Sockets/Bytes.antt =====
-- libs/Networking/socket_io: the bytes of a buffer that the calls read and write in pieces.
use cmake_template.Prelude.{
  [], ◌∷◌, zero, suc, ℕ, List, take, ◌≤◌, length, ◌<◌, ◌-◌, ◌≡◌, ◌+◌, arith, ◌++◌, ap, drop, refl,
  ◌∙◌, sym,
}
use cmake_template.Sockets.{calculate_chunk}

add_suc : (a k : ℕ) → suc a + k ≡ suc (a + k)
add_suc a k = omega arith

module _ {ℓ} {A : Type ℓ} where
  take_nil : (n : ℕ) → take {A = A} n [] ≡ []
  take_nil zero = refl
  take_nil (suc n) = refl

  pub take_add : (a k : ℕ) (xs : List A) → take (a + k) xs ≡ take a xs ++ take k (drop a xs)
  take_add zero k xs = ap (λ n. take n xs) (omega arith)
  take_add (suc a) k [] = take_nil (suc a + k) ∙ sym (take_nil k)
  take_add (suc a) k (x ∷ xs) =
      ap (λ m. take m (x ∷ xs)) (add_suc a k) ∙ ap (λ l. x ∷ l) (take_add a k xs)

  drop_nil : (n : ℕ) → drop {A = A} n [] ≡ []
  drop_nil zero = refl
  drop_nil (suc n) = refl

  pub drop_add : (a k : ℕ) (xs : List A) → drop (a + k) xs ≡ drop k (drop a xs)
  drop_add zero k xs = ap (λ n. drop n xs) (omega arith)
  drop_add (suc a) k [] = drop_nil (suc a + k) ∙ sym (drop_nil k)
  drop_add (suc a) k (x ∷ xs) = ap (λ m. drop m (x ∷ xs)) (add_suc a k) ∙ drop_add a k xs

  pub take-take : (k m : ℕ) (xs : List A) → k ≤ m → take k (take m xs) ≡ take k xs
  take-take zero m xs h = refl
  take-take (suc k) zero xs h = absurd (omega arith)
  take-take (suc k) (suc m) [] h = refl
  take-take (suc k) (suc m) (x ∷ xs) h = ap (λ l. x ∷ l) (take-take k m xs (omega arith))

  pub take_append : (xs ys : List A) (n : ℕ) → length xs ≡ n → take n (xs ++ ys) ≡ xs
  take_append [] ys n e = rw (← e) refl
  take_append (x ∷ xs) ys zero e = absurd (omega arith)
  take_append (x ∷ xs) ys (suc n) e = ap (λ l. x ∷ l) (take_append xs ys n (omega arith))

  pub drop_append : (xs ys : List A) (n : ℕ) → length xs ≡ n → drop n (xs ++ ys) ≡ ys
  drop_append [] ys n e = rw (← e) refl
  drop_append (x ∷ xs) ys zero e = absurd (omega arith)
  drop_append (x ∷ xs) ys (suc n) e = drop_append xs ys n (omega arith)

pub calculate_chunk_pos : (n done : ℕ) → done < n → 0 < calculate_chunk n done
unfolding calculate_chunk
calculate_chunk_pos n done h = ground arith

pub calculate_chunk_le : (n done : ℕ) → calculate_chunk n done ≤ n - done
unfolding calculate_chunk
calculate_chunk_le n done = ground arith
