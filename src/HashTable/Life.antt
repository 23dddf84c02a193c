-- ===== src/HashTable/Life.antt =====
-- hash_table_init, hash_table_clear and hash_table_destroy, and the table that init leaves half-built.
use cmake_template.Prelude.{
  ℕ, ◌<◌, List, replicate, get_or, Bool, ◌≢◌, ◌∷◌, [], true, ◌≡◌, refl, some, false, map,
  if◌then◌else◌, length, ◌++◌, ◌==◌, none, arith, length-replicate, ◌%◌, ap, drop,
}
use cmake_template.Core.{Ptr, null, ok, not_null, fault, success}
use cmake_template.Text.{Text}
use cmake_template.HashTable.{
  Node, Chain, HashTable, init, clear, destroy, clear_chain, clear_loop, cleared_rows, add, lookup,
  hash, hash_loop,
}
use cmake_template.HashTable.Entries.{Holds, entries, under, AllShort}
use cmake_template.HashTable.Listing.{rows-Holds}

AllShort-replicate : (n : ℕ) → AllShort (replicate n [])
AllShort-replicate ℕ.zero = tt
AllShort-replicate (ℕ.suc n) = (tt, AllShort-replicate n)

under_empty : (k : Text) (n i : ℕ) → under k (get_or (replicate n []) i []) ≡ []
under_empty k ℕ.zero i = refl
under_empty k (ℕ.suc n) ℕ.zero = refl
under_empty k (ℕ.suc n) (ℕ.suc i) = under_empty k n i

-- A table without data.
abbrev pub Empty : HashTable → Type 0
Empty t = Holds t (replicate t.size []) × ((k : Text) → entries t.size (replicate t.size []) k ≡ [])

-- For a size other than 0, where the allocations and the mutex are granted and `free` has an
-- address, hash_table_init returns a well-formed table of that size with no data under any key,
-- whose `customfree` is `free` where the caller passes NULL and else the caller's.
pub init-Empty :
    (size : ℕ) (customfree std_free : Ptr)
    → 0 < size
    → std_free ≢ null
    → (t : HashTable) × (init size customfree std_free true true true ≡ some t)
      × (t.size ≡ size)
      × (t.customfree ≡ (if customfree == null then std_free else customfree))
      × Empty t
unfolding init
init-Empty size customfree std_free pos_size free_set =
    let t : HashTable = record {
      size = size;
      table = some (replicate size []);
      customfree = if customfree == null then std_free else customfree;
    } in
    (
      t,
      rw (not_null size (omega arith)) refl,
      refl,
      refl,
      (
        record {
          not_empty = pos_size;
          at = refl;
          size_eq = length-replicate size [];
          short = AllShort-replicate size;
          free_set = set_free customfree;
        },
        λ k. under_empty k size (hash_loop 0 k % size),
      ),
    )
  where
    set_free : (f : Ptr) → (if f == null then std_free else f) ≢ null
    set_free f e = ground (arith, e, free_set)

-- For a size other than 0, where calloc grants the table but not its array of chains,
-- hash_table_init returns a table all the same; each call of hash_table_add on it with data that
-- is not NULL, and each of hash_table_lookup, then divides by 0.
pub init_half_built :
    (size : ℕ) (customfree std_free d : Ptr) (key : Text) (mutex granted granted_key : Bool)
    → 0 < size
    → d ≢ null
    → (t : HashTable) × (init size customfree std_free true false mutex ≡ some t)
      × (add (some t) d (some key) granted granted_key ≡ fault)
      × (lookup (some t) (some key) ≡ fault)
unfolding init add lookup hash
init_half_built size customfree std_free d key mutex granted granted_key pos_size ne = (
  record { size = 0; table = none; customfree = null },
  rw (not_null size (omega arith)) refl,
  rw (not_null d ne) refl,
  refl,
)

clear_chain_lem :
    (f : Ptr) (c : Chain) → f ≢ null → clear_chain f c ≡ ok (map (λ (n : Node). n.payload) c)
unfolding clear_chain
clear_chain_lem f [] ne = refl
clear_chain_lem f (n ∷ c) ne = rw (clear_chain_lem f c ne, not_null f ne) refl

-- The data of the table, chain by chain.
abbrev pub all_data : List Chain → List Ptr
all_data [] = []
all_data (c ∷ cs) = map (λ (n : Node). n.payload) c ++ all_data cs

clear_loop_lem :
    (f : Ptr) (cs : List Chain)
    → f ≢ null
    → clear_loop f cs ≡ ok (replicate (length cs) [], all_data cs)
unfolding clear_loop
clear_loop_lem f [] ne = refl
clear_loop_lem f (c ∷ cs) ne = rw (clear_chain_lem f c ne, clear_loop_lem f cs ne) refl

cleared_lem :
    {t : HashTable} {cs : List Chain}
    → Holds t cs
    → cleared_rows (replicate (length cs) []) t.size t.table ≡ some (replicate t.size [])
unfolding cleared_rows
cleared_lem {t} {cs} l =
    rw (l.at, l.size_eq, drop_size t.size cs l.size_eq, append_nil (replicate t.size [])) refl
  where
    append_nil : (xs : List Chain) → xs ++ [] ≡ xs
    append_nil [] = refl
    append_nil (x ∷ xs) = ap (λ l. x ∷ l) (append_nil xs)

    drop_size : (n : ℕ) (xs : List Chain) → length xs ≡ n → drop n xs ≡ []
    drop_size ℕ.zero [] e = refl
    drop_size ℕ.zero (x ∷ xs) e = absurd (omega arith)
    drop_size (ℕ.suc n) [] e = refl
    drop_size (ℕ.suc n) (x ∷ xs) e = drop_size n xs (omega arith)

Empty-again :
    {t : HashTable} {cs : List Chain}
    → Holds t cs
    → Empty (record t { table = some (replicate t.size []) })
Empty-again {t} {cs} l = (
  record {
    not_empty = l.not_empty;
    at = refl;
    size_eq = length-replicate t.size [];
    short = AllShort-replicate t.size;
    free_set = l.free_set;
  },
  λ k. under_empty k t.size (hash_loop 0 k % t.size),
)

module _ {t : HashTable} {cs : List Chain} (l : Holds t cs) where
  -- On a well-formed table hash_table_clear succeeds, hands each datum of the table to
  -- `customfree`, chain by chain and each once, and leaves a well-formed table of the same size
  -- with no data under any key.
  pub clear-Empty :
      (t' : HashTable) × (clear (some t) ≡ ok (success, some t', all_data cs))
      × (t'.size ≡ t.size)
      × Empty t'
  unfolding clear
  clear-Empty = (
    record t { table = some (replicate t.size []) },
    rw (rows-Holds l, clear_loop_lem t.customfree cs l.free_set, cleared_lem l) refl,
    refl,
    Empty-again l,
  )

  -- On a well-formed table hash_table_destroy succeeds, hands each datum to `customfree` once
  -- and leaves NULL in the handle.
  pub destroy_lem : destroy (some t) ≡ ok (success, none, all_data cs)
  unfolding destroy
  destroy_lem = let (t', e, same_size, empty) = clear-Empty in rw e refl
