-- ===== src/HashTable/Entries.antt =====
-- The data that a hash table holds under a key, in the order in which they were added.
use cmake_template.Prelude.{
  ℕ, ◌≡◌, Bool, ◌∷◌, length, List, ◌%◌, ◌≤◌, get_or, if◌then◌else◌, Bool-cases, ◌<◌, true, ◌++◌, [],
  inl, ◌↔◌, false, take, refl, some, drop, ◌≢◌, arith, inr, ◌==◌, ◌&&◌, ◌∙◌, ap, sym,
}
use cmake_template.Core.{Ptr, null}
use cmake_template.Text.{Text, strncmp_ne, strncmp_self}
use cmake_template.HashTable.{
  Node, Chain, HashTable, max_length, hash_loop, same_key, lookup_chain, remove_chain, attach,
  keep_node, is_zero, strncmp,
}

abbrev pub text_eq : Text → Text → Bool
text_eq [] [] = true
text_eq [] (d ∷ b) = false
text_eq (c ∷ a) [] = false
text_eq (c ∷ a) (d ∷ b) = (c == d) && text_eq a b

pub text_eq_iff : (a b : Text) → (text_eq a b ≡ true) ↔ (a ≡ b)
text_eq_iff [] [] = ground arith
text_eq_iff [] (d ∷ b) = ground arith
text_eq_iff (c ∷ a) [] = ground arith
text_eq_iff (c ∷ a) (d ∷ b) = ground (arith, text_eq_iff a b)

-- A key that the table tells apart from all others.
abbrev pub Short : Text → Type 0
Short key = length key ≤ max_length

abbrev pub ShortKeys : Chain → Type 0
ShortKeys [] = Unit
ShortKeys (n ∷ c) = Short n.key × ShortKeys c

pub same_key-text_eq : (a b : Text) → Short a → Short b → same_key a b ≡ text_eq a b
same_key-text_eq a b ha hb = elim (Bool-cases (text_eq a b)) [
  | inl e ↦
      ap (λ x. is_zero (strncmp max_length a x)) (sym ((text_eq_iff a b).0 e))
      ∙ strncmp_self max_length a
      ∙ sym e
  | inr e ↦
      strncmp_ne max_length a b ha hb (λ same. absurd (ground (arith, text_eq_iff a b))) ∙ sym e
]

-- The data under `k` in a chain.
abbrev pub under : Text → Chain → List Ptr
under k [] = []
under k (n ∷ c) = if text_eq n.key k then n.payload ∷ under k c else under k c

abbrev pub index : ℕ → Text → ℕ
index size k = hash_loop 0 k % size

-- The data under `k` in the table.
abbrev pub entries : ℕ → List Chain → Text → List Ptr
entries size cs k = under k (get_or cs (index size k) [])

abbrev pub first_or_null : List Ptr → Ptr
first_or_null [] = null
first_or_null (d ∷ ds) = d

abbrev pub any : List Ptr → Bool
any [] = false
any (d ∷ ds) = true

abbrev pub AllShort : List Chain → Type 0
AllShort [] = Unit
AllShort (c ∷ cs) = ShortKeys c × AllShort cs

-- A table that hash_table_init or an operation has left: its size is that of its array and not 0,
-- its keys are short, and `customfree` is set.
pub record Holds (t : HashTable) (cs : List Chain) : Type 0 where
  pub not_empty : 0 < t.size
  pub at : t.table ≡ some cs
  pub size_eq : length cs ≡ t.size
  pub short : AllShort cs
  pub free_set : t.customfree ≢ null

module _ (k : Text) where
  pub under-attach : (c : Chain) (n : Node) → under k (attach c n) ≡ under k c ++ under k (n ∷ [])
  unfolding attach
  under-attach [] n = refl
  under-attach (m ∷ c) n = ground (arith, under-attach c n)

  pub lookup_chain-under :
      (c : Chain) → ShortKeys c → Short k → lookup_chain k c ≡ first_or_null (under k c)
  unfolding lookup_chain
  lookup_chain-under [] h hk = refl
  lookup_chain-under (n ∷ c) (hn, h) hk =
      ground (arith, same_key-text_eq n.key k hn hk, lookup_chain-under c h hk)

pub attach-ShortKeys : (c : Chain) (n : Node) → ShortKeys c → Short n.key → ShortKeys (attach c n)
unfolding attach
attach-ShortKeys [] n h hn = (hn, tt)
attach-ShortKeys (m ∷ c) n (hm, h) hn = (hm, attach-ShortKeys c n h hn)

-- What the loop of hash_table_remove does with a chain: it takes the oldest datum under `k` out.
abbrev pub Taken : Text → Chain → Bool × Chain × List Ptr → Type 0
Taken k c (found, c', freed) =
    (found ≡ any (under k c))
    × (freed ≡ take 1 (under k c))
    × (under k c' ≡ drop 1 (under k c))
    × ((j : Text) → j ≢ k → under j c' ≡ under j c)
    × ShortKeys c'

module _ (k : Text) (n : Node) (c : Chain) where
  hit-Taken : text_eq n.key k ≡ true → ShortKeys c → Taken k (n ∷ c) (true, c, n.payload ∷ [])
  hit-Taken e h = (rw e refl, rw e refl, rw e refl, (λ j ne. rw (other j ne) refl), h)
    where
      other : (j : Text) → j ≢ k → text_eq n.key j ≡ false
      other j ne = ground (arith, text_eq_iff n.key k, text_eq_iff n.key j)

  miss-Taken :
      (r : Bool × Chain × List Ptr)
      → text_eq n.key k ≡ false
      → Short n.key
      → Taken k c r
      → Taken k (n ∷ c) (keep_node n r)
  miss-Taken (found, c', freed) e hn (a1, a2, a3, a4, a5) = (
    rw e a1,
    rw e a2,
    rw e a3,
    (λ j ne. ap (λ l. if text_eq n.key j then n.payload ∷ l else l) (a4 j ne)),
    (hn, a5),
  )

pub remove_chain-Taken :
    (k : Text) (c : Chain) → ShortKeys c → Short k → Taken k c (remove_chain k c)
unfolding remove_chain
remove_chain-Taken k [] h hk = (refl, refl, refl, (λ j ne. refl), tt)
remove_chain-Taken k (n ∷ c) (hn, h) hk = elim (Bool-cases (text_eq n.key k)) [
  | inl e ↦ rw (same_key-text_eq n.key k hn hk ∙ e) (hit-Taken k n c e h)
  | inr e ↦
      rw (same_key-text_eq n.key k hn hk ∙ e)
        (miss-Taken k n c (remove_chain k c) e hn (remove_chain-Taken k c h hk))
]
