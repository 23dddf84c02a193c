-- ===== src/HashTable/Laws.antt =====
-- hash_table_add, hash_table_lookup and hash_table_remove: under each key the table is a queue.
use cmake_template.Prelude.{
  ℕ, List, some, ◌≡◌, set, ◌≢◌, get_or, ◌<◌, [], length-set, length, ◌∷◌, refl, ◌==◌, arith, ◌∙◌,
  false, true, ◌++◌, Bool, drop, if◌then◌else◌, take, take-all, ◌&&◌,
}
use cmake_template.Core.{Ptr, null, ok, Returns, success, not_null, write_lem, ExitCode, failure}
use cmake_template.Text.{Text}
use cmake_template.HashTable.{
  Chain, HashTable, max_key_size, hash, new_node, add, lookup, remove, remove_chain, attach, Handle,
  chains,
}
use cmake_template.HashTable.Chains.{
  get_or-set_self, under-get_or-set, append_nil, read_lem, AllShort-set, AllShort-get_or,
}
use cmake_template.HashTable.Entries.{
  text_eq, text_eq_iff, Short, ShortKeys, under, index, entries, first_or_null, any, Holds,
  under-attach, lookup_chain-under, attach-ShortKeys, Taken, remove_chain-Taken,
}

-- `t'` is `t` with `ds` under `key`, and the same data under every other key.
abbrev pub Changed : HashTable → List Chain → Text → List Ptr → HashTable → Type 0
Changed t cs key ds t' =
    (cs' : List Chain) × Holds t' cs'
    × (t'.size ≡ t.size)
    × (entries t'.size cs' key ≡ ds)
    × ((j : Text) → j ≢ key → entries t'.size cs' j ≡ entries t.size cs j)

-- The chains with that at the index of `key` exchanged.
abbrev pub exchanged : ℕ → List Chain → Text → Chain → List Chain
exchanged size cs key c = set cs (index size key) c

abbrev pub chain_of : ℕ → List Chain → Text → Chain
chain_of size cs key = get_or cs (index size key) []

module _ {t : HashTable} {cs : List Chain} (l : Holds t cs) (key : Text) where
  index_in : index t.size key < length cs
  index_in = omega (arith, l.not_empty, l.size_eq)

  hash_lem : hash t.size key ≡ ok (index t.size key)
  unfolding hash
  hash_lem = let b : (t.size == 0) ≡ false = ground (arith, l.not_empty) in rw b refl

  exchanged-Holds :
      (c : Chain)
      → ShortKeys c
      → Holds (record t { table = some (exchanged t.size cs key c) }) (exchanged t.size cs key c)
  exchanged-Holds c h = record {
    not_empty = l.not_empty;
    at = refl;
    size_eq = length-set cs (index t.size key) c ∙ l.size_eq;
    short = AllShort-set cs (index t.size key) c l.short h;
    free_set = l.free_set;
  }

  -- An exchanged chain whose data under all keys other than `key` are as they were.
  exchanged-entries :
      (c : Chain)
      → ((j : Text) → j ≢ key → under j c ≡ under j (chain_of t.size cs key))
      → (j : Text) → j ≢ key
      → entries t.size (exchanged t.size cs key c) j ≡ entries t.size cs j
  exchanged-entries c same j ne =
      under-get_or-set j cs (index t.size key) (index t.size j) c (same j ne)

  exchanged-entries_self :
      (c : Chain) → entries t.size (exchanged t.size cs key c) key ≡ under key c
  exchanged-entries_self c = rw (get_or-set_self cs (index t.size key) c [] index_in) refl

  -- On a well-formed table, for a key of at most 50 bytes, hash_table_lookup returns the oldest
  -- datum under the key, and NULL if there is none.
  pub lookup-entries :
      Short key → lookup (some t) (some key) ≡ ok (first_or_null (entries t.size cs key))
  unfolding lookup
  lookup-entries hk =
      rw
        (
          hash_lem,
          l.at,
          read_lem cs (index t.size key) index_in,
          lookup_chain-under key (chain_of t.size cs key)
              (AllShort-get_or cs (index t.size key) l.short) hk,
        )
        refl

  changed :
      (c : Chain) (ds : List Ptr)
      → ShortKeys c
      → under key c ≡ ds
      → ((j : Text) → j ≢ key → under j c ≡ under j (chain_of t.size cs key))
      → Changed t cs key ds (record t { table = some (exchanged t.size cs key c) })
  changed c ds short e same = (
    exchanged t.size cs key c,
    exchanged-Holds c short,
    refl,
    exchanged-entries_self c ∙ e,
    exchanged-entries c same,
  )

  under-attach_ne :
      (c : Chain) (d : Ptr) (j : Text)
      → j ≢ key
      → under j (attach c (record { key = key; payload = d })) ≡ under j c
  under-attach_ne c d j ne =
      let e : text_eq key j ≡ false = ground (arith, text_eq_iff key j) in
      under-attach j c (record { key = key; payload = d }) ∙ rw e (append_nil (under j c))

  new_node_lem :
      (d : Ptr) → Short key → new_node key d true true ≡ some (record { key = key; payload = d })
  unfolding new_node
  new_node_lem d hk = rw (take-all max_key_size key (omega arith)) refl

  under_self :
      (c : Chain) (d : Ptr)
      → under key (attach c (record { key = key; payload = d })) ≡ under key c ++ d ∷ []
  under_self c d =
      let e : text_eq key key ≡ true = (text_eq_iff key key).1 refl in
      under-attach key c (record { key = key; payload = d }) ∙ rw e refl

  -- On a well-formed table, with data that is not NULL, a key of at most 50 bytes and its
  -- allocations granted, hash_table_add succeeds: it puts the datum behind those under the key,
  -- leaves those under every other key alone, and leaves a well-formed table of the same size.
  pub add-entries :
      (d : Ptr)
      → d ≢ null
      → Short key
      → Returns
          (λ (code, h).
            (code ≡ success)
            × ((t' : HashTable) × (h ≡ some t')
                × Changed t cs key (entries t.size cs key ++ d ∷ []) t'))
          (add (some t) d (some key) true true)
  unfolding add
  add-entries d ne hk =
      let c = chain_of t.size cs key in
      let c' = attach c (record { key = key; payload = d }) in
      let short =
        attach-ShortKeys c (record { key = key; payload = d })
          (AllShort-get_or cs (index t.size key) l.short) hk in
      rw
        (
          not_null d ne,
          hash_lem,
          new_node_lem d hk,
          l.at,
          read_lem cs (index t.size key) index_in,
          write_lem cs (index t.size key) c' index_in,
        )
        (
          refl,
          (
            record t { table = some (exchanged t.size cs key c') },
            refl,
            changed c' (entries t.size cs key ++ d ∷ []) short (under_self c d)
                (under-attach_ne c d),
          ),
        )

  chains_lem : chains t ≡ ok cs
  chains_lem = rw l.at refl

  -- What a call of hash_table_remove returns.
  abbrev pub Removal : ExitCode × Handle × List Ptr → Type 0
  Removal (code, h, freed) =
      (code ≡ (if any (entries t.size cs key) then success else failure))
      × (freed ≡ take 1 (entries t.size cs key))
      × ((t' : HashTable) × (h ≡ some t') × Changed t cs key (drop 1 (entries t.size cs key)) t')

  remove_lem :
      (found : Bool) (c : Chain) (freed : List Ptr)
      → Taken key (chain_of t.size cs key) (found, c, freed)
      → remove_chain key (chain_of t.size cs key) ≡ (found, c, freed)
      → Returns Removal (remove (some t) (some key))
  unfolding remove
  remove_lem true c freed (e1, e2, e3, e4, e5) computed =
      rw
        (
          hash_lem,
          l.at,
          read_lem cs (index t.size key) index_in,
          computed,
          write_lem cs (index t.size key) c index_in,
          not_null t.customfree l.free_set,
        )
        (
          ground (arith, e1),
          e2,
          (
            record t { table = some (exchanged t.size cs key c) },
            refl,
            changed c (drop 1 (entries t.size cs key)) e5 e3 e4,
          ),
        )
  remove_lem false c freed (e1, e2, e3, e4, e5) computed =
      rw
        (
          hash_lem,
          chains_lem,
          read_lem cs (index t.size key) index_in,
          computed,
          write_lem cs (index t.size key) c index_in,
        )
        (
          ground (arith, e1),
          no_first (entries t.size cs key) e1,
          (t, refl, (cs, l, refl, none_left (entries t.size cs key) e1, (λ j ne. refl))),
        )
    where
      no_first : (ds : List Ptr) → false ≡ any ds → [] ≡ take 1 ds
      no_first [] e = refl
      no_first (d ∷ ds) e = absurd (ground (arith, e))

      none_left : (ds : List Ptr) → false ≡ any ds → ds ≡ drop 1 ds
      none_left [] e = refl
      none_left (d ∷ ds) e = absurd (ground (arith, e))

  -- On a well-formed table, for a key of at most 50 bytes, hash_table_remove succeeds where
  -- there is a datum under the key: it takes the oldest one out and hands it to `customfree`;
  -- where there is none it fails and hands over nothing. The data under every other key stay,
  -- and the table is well-formed and of the same size.
  pub remove-entries : Short key → Returns Removal (remove (some t) (some key))
  remove-entries hk =
      let r = remove_chain key (chain_of t.size cs key) in
      remove_lem r.0 r.1 r.2
        (remove_chain-Taken key (chain_of t.size cs key)
          (AllShort-get_or cs (index t.size key) l.short) hk)
        refl

  -- On a well-formed table, with data that is not NULL, where an allocation for the node is
  -- refused, hash_table_add reports success and stores nothing.
  pub add_dropped :
      (d : Ptr) (granted granted_key : Bool)
      → d ≢ null
      → (granted && granted_key) ≡ false
      → add (some t) d (some key) granted granted_key ≡ ok (success, some t)
  unfolding add new_node
  add_dropped d true true ne h = absurd (ground (arith, h))
  add_dropped d true false ne h = rw (not_null d ne, hash_lem) refl
  add_dropped d false granted_key ne h = rw (not_null d ne, hash_lem) refl
