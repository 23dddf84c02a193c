-- ===== src/HashTable.antt =====
-- libs/DSA/hash_table: hash_table.h and hash_table.c, a table of chains of nodes under text keys.
-- A handle or a key is `none` for NULL. The nodes of a chain are reached from their table only, so a
-- chain is the list of its nodes. An argument `granted` says whether an allocation succeeds. Calls
-- are taken one after another: those that change the table hold its mutex, hash_table_lookup does not.
pub mod Hash
pub mod Entries
pub mod Chains
pub mod Laws
pub mod Listing
pub mod Life
mod Tests
use cmake_template.Prelude.{
  ℕ, zero, suc, ◌+◌, ◌*◌, ◌%◌, ◌^◌, Bool, true, false, Option, none, some, List, [], ◌∷◌, ◌++◌,
  if◌then◌else◌, ◌==◌, ltb, length, take, replicate, drop,
}
use cmake_template.Core.{
  Ptr, null, ExitCode, success, failure, succeeded, Run, ok, fault, ◌>>=◌, read, write,
}
use cmake_template.Text.{Text, strncmp, is_zero, strstr}

-- BASE, PRIME, MAX_KEY_SIZE and MAX_LENGTH
abbrev pub base : ℕ
base = 256

abbrev pub prime : ℕ
prime = 65521

abbrev pub max_key_size : ℕ
max_key_size = 64

abbrev pub max_length : ℕ
max_length = 50

-- `node_t`, whose `next` is its place in the chain.
pub record Node : Type 0 where
  pub key : Text
  pub payload : Ptr

abbrev pub Chain : Type 0
Chain = List Node

-- `hash_table_t`; `table` is `none` for NULL.
pub record HashTable : Type 0 where
  pub size : ℕ
  pub table : Option (List Chain)
  pub customfree : Ptr

abbrev pub Handle : Type 0
Handle = Option HashTable

-- hash_table_init; `std_free` is the address of `free`, and `mutex` says whether the mutex could
-- be made. Where the array of chains is refused the code returns the table that calloc has zeroed.
pub init : (size : ℕ) → (customfree std_free : Ptr) → (granted granted_table mutex : Bool) → Handle
init size customfree std_free granted granted_table mutex =
    if size == 0
    then none
    else if granted
    then if granted_table
      then if mutex
        then some (record {
          size = size;
          table = some (replicate size []);
          customfree = if customfree == null then std_free else customfree;
        })
        else none
      else some (record { size = 0; table = none; customfree = null })
    else none

-- The loop of hash: `target` is a uint32_t, and each letter an unsigned char.
pub hash_loop : ℕ → Text → ℕ
hash_loop target [] = target
hash_loop target (letter ∷ rest) =
    hash_loop (((target * base % 2 ^ 32 + letter) % 2 ^ 32) % prime) rest

-- hash; a division by 0 is a fault.
pub hash : (size : ℕ) → Text → Run ℕ
hash size key = if size == 0 then fault else ok (hash_loop 0 key % size)

-- `table->table`
abbrev pub chains : HashTable → Run (List Chain)
chains t = elim t.table [ none ↦ fault | some cs ↦ ok cs ]

-- new_node, for a key and data that are not NULL
pub new_node : Text → Ptr → (granted granted_key : Bool) → Option Node
new_node key d granted granted_key =
    if granted
    then if granted_key then some (record { key = take max_key_size key; payload = d }) else none
    else none

-- The walk to the end of a chain, where `n` goes.
pub attach : Chain → Node → Chain
attach [] n = n ∷ []
attach (m ∷ c) n = m ∷ attach c n

-- hash_table_add; where new_node fails the code returns the result of hash.
pub add : Handle → Ptr → Option Text → (granted granted_key : Bool) → Run (ExitCode × Handle)
add none d key granted granted_key = ok (failure, none)
add (some t) d none granted granted_key = ok (failure, some t)
add (some t) d (some key) granted granted_key = if d == null then ok (failure, some t) else (do
  index ← hash t.size key
  elim (new_node key d granted granted_key) [
    | none ↦ ok (success, some t)
    | some n ↦ do
      cs ← chains t
      c ← read cs index
      cs' ← write cs index (attach c n)
      ok (success, some (record t { table = some cs' }))
  ])

-- `0 == strncmp(a, b, MAX_LENGTH)`
abbrev pub same_key : Text → Text → Bool
same_key a b = is_zero (strncmp max_length a b)

pub lookup_chain : Text → Chain → Ptr
lookup_chain key [] = null
lookup_chain key (n ∷ c) = if same_key n.key key then n.payload else lookup_chain key c

-- hash_table_lookup
pub lookup : Handle → Option Text → Run Ptr
lookup none key = ok null
lookup (some t) none = ok null
lookup (some t) (some key) = do
  index ← hash t.size key
  cs ← chains t
  c ← read cs index
  ok (lookup_chain key c)

-- A node that the loop of hash_table_remove passes by.
abbrev pub keep_node : Node → Bool × Chain × List Ptr → Bool × Chain × List Ptr
keep_node n (found, c, freed) = (found, n ∷ c, freed)

-- The loop of hash_table_remove: whether a node was removed, the chain, and the data handed to
-- `customfree`. It ends at the first match, since `p_current_node` is NULL then.
pub remove_chain : Text → Chain → Bool × Chain × List Ptr
remove_chain key [] = (false, [], [])
remove_chain key (n ∷ c) =
    if same_key n.key key then (true, c, n.payload ∷ []) else keep_node n (remove_chain key c)

-- hash_table_remove; a call through NULL is a fault.
pub remove : Handle → Option Text → Run (ExitCode × Handle × List Ptr)
remove none key = ok (failure, none, [])
remove (some t) none = ok (failure, some t, [])
remove (some t) (some key) = do
  index ← hash t.size key
  cs ← chains t
  c ← read cs index
  let (found, c', freed) = remove_chain key c
  cs' ← write cs index c'
  if found
      then (if t.customfree == null
          then fault
          else ok (success, some (record t { table = some cs' }), freed))
      else ok (failure, some t, [])

-- strndup(key, MAX_KEY_SIZE), which is not NULL here
abbrev pub strndup : Text → Text
strndup key = take max_key_size key

-- The loops of hash_table_find over a chain and over the table: `buffer` is the array of calloc, in
-- which `count` keys stand.
pub find_chain :
    (wanted : Text → Bool) → Chain → List (Option Text) → ℕ → Run (List (Option Text) × ℕ)
find_chain wanted [] buffer count = ok (buffer, count)
find_chain wanted (n ∷ c) buffer count =
    if wanted n.key
    then (write buffer count (some (strndup n.key)) >>= λ buffer'.
        find_chain wanted c buffer' (suc count))
    else find_chain wanted c buffer count

pub find_loop :
    (wanted : Text → Bool) → List Chain → List (Option Text) → ℕ → Run (List (Option Text) × ℕ)
find_loop wanted [] buffer count = ok (buffer, count)
find_loop wanted (c ∷ cs) buffer count = do
  (buffer', count') ← find_chain wanted c buffer count
  find_loop wanted cs buffer' count'

-- `table->table[0]`, ..., `table->table[size - 1]`, a fault where they do not exist.
pub rows : (size : ℕ) → Option (List Chain) → Run (List Chain)
rows zero table = ok []
rows (suc n) none = fault
rows (suc n) (some cs) = if ltb n (length cs) then ok (take (suc n) cs) else fault

-- hash_table_find, which passes back the array and the count; `granted` is the success of calloc.
pub find :
    Handle → (search : Option Text) → (granted : Bool) → Run (ExitCode × List (Option Text) × ℕ)
find none search granted = ok (failure, [], 0)
find (some t) none granted = ok (failure, [], 0)
find (some t) (some search) granted = do
  cs ← rows t.size t.table
  (buffer, count) ←
      find_loop (λ key. strstr key search) cs (if granted then replicate t.size none else []) 0
  ok (success, buffer, count)

-- hash_table_list
pub list : Handle → (granted : Bool) → Run (ExitCode × List (Option Text) × ℕ)
list none granted = ok (failure, [], 0)
list (some t) granted = do
  cs ← rows t.size t.table
  (buffer, count) ← find_loop (λ key. true) cs (if granted then replicate t.size none else []) 0
  ok (success, buffer, count)

-- The loops of hash_table_clear: the data handed to `customfree`.
pub clear_chain : (customfree : Ptr) → Chain → Run (List Ptr)
clear_chain customfree [] = ok []
clear_chain customfree (n ∷ c) = do
  rest ← clear_chain customfree c
  if customfree == null then fault else ok (n.payload ∷ rest)

pub clear_loop : (customfree : Ptr) → List Chain → Run (List Chain × List Ptr)
clear_loop customfree [] = ok ([], [])
clear_loop customfree (c ∷ cs) = do
  freed ← clear_chain customfree c
  (cs', rest) ← clear_loop customfree cs
  ok ([] ∷ cs', freed ++ rest)

-- The array of chains when the loop of hash_table_clear has written its first `size` cells.
pub cleared_rows : List Chain → (size : ℕ) → Option (List Chain) → Option (List Chain)
cleared_rows cs' size none = none
cleared_rows cs' size (some cs) = some (cs' ++ drop size cs)

-- hash_table_clear
pub clear : Handle → Run (ExitCode × Handle × List Ptr)
clear none = ok (failure, none, [])
clear (some t) = do
  cs ← rows t.size t.table
  (cs', freed) ← clear_loop t.customfree cs
  ok (success, some (record t { table = cleared_rows cs' t.size t.table }), freed)

-- hash_table_destroy
pub destroy : Handle → Run (ExitCode × Handle × List Ptr)
destroy none = ok (failure, none, [])
destroy (some t) = do
  (code, h, freed) ← clear (some t)
  if succeeded code then ok (success, none, freed) else ok (failure, h, freed)
