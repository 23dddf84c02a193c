-- ===== src/LinkedList/Memory.antt =====
-- The nodes of linked_list.h in memory, and the commands that read, write, make and free them.
use cmake_template.Prelude.{Option, none, some, if◌then◌else◌, ◌==◌, ◌≡◌, ◌≢◌, arith, refl}
use cmake_template.Core.{Ptr, null, Run, ok, fault, out_of_fuel, Returns}

-- `list_node_t`; its field `data` is `payload`.
pub record Node : Type 0 where
  pub payload : Ptr
  pub prev : Ptr
  pub next : Ptr

abbrev pub node : Ptr → Ptr → Ptr → Node
node d p q = record { payload = d; prev = p; next = q }

-- The nodes that are allocated, by address.
abbrev pub Heap : Type 0
Heap = Ptr → Option Node

abbrev pub write : Heap → Ptr → Option Node → Heap
write h p c x = if x == p then c else h x

abbrev pub Cmd : Type 0 → Type 0
Cmd A = Heap → Run (A × Heap)

abbrev pub pure : {A : Type 0} → A → Cmd A
pure a h = ok (a, h)

abbrev pub crash : {A : Type 0} → Cmd A
crash h = fault

module _ {A B : Type 0} where
  abbrev pub and_then : Run (A × Heap) → (A → Cmd B) → Run (B × Heap)
  and_then (ok (a, h)) k = k a h
  and_then fault k = fault
  and_then out_of_fuel k = out_of_fuel

  infixl 5 ◌>>=◌
  abbrev pub ◌>>=◌ : Cmd A → (A → Cmd B) → Cmd B
  ◌>>=◌ m k h = and_then (m h) k

infixl 5 ◌>>◌
abbrev pub ◌>>◌ : {B : Type 0} → Cmd (Unit {0}) → Cmd B → Cmd B
m >> k = m >>= λ _. k

-- `*p`, a fault at NULL and at an address with no node.
unfoldable pub load : Ptr → Cmd Node
load p h = if p == null then fault else elim (h p) [ none ↦ fault | some n ↦ ok (n, h) ]

abbrev pub store : Ptr → Option Node → Cmd (Unit {0})
store p c h = ok (tt, write h p c)

-- `p->next = q` and `p->prev = q`
unfoldable pub set_next : Ptr → Ptr → Cmd (Unit {0})
set_next p q = do n ← load p; store p (some (record n { next = q }))

unfoldable pub set_prev : Ptr → Ptr → Cmd (Unit {0})
set_prev p q = do n ← load p; store p (some (record n { prev = q }))

-- `free(p)`
unfoldable pub release : Ptr → Cmd (Unit {0})
release p = do n ← load p; store p none

-- list_node_new; `fresh` is what calloc returns.
unfoldable pub node_new : (fresh : Ptr) → Ptr → Cmd Ptr
node_new fresh d =
    if d == null
    then pure null
    else if fresh == null
    then pure null
    else (do store fresh (some (node d null null)); pure fresh)

module _ (h : Heap) {p : Ptr} {n : Node} (ne : p ≢ null) (e : h p ≡ some n) where
  pub load_lem : load p h ≡ ok (n, h)
  unfolding load
  load_lem = ground arith

  pub set_next_lem : (q : Ptr) → set_next p q h ≡ ok (tt, write h p (some (record n { next = q })))
  unfolding set_next
  set_next_lem q = rw load_lem refl

  pub set_prev_lem : (q : Ptr) → set_prev p q h ≡ ok (tt, write h p (some (record n { prev = q })))
  unfolding set_prev
  set_prev_lem q = rw load_lem refl

  pub release_lem : release p h ≡ ok (tt, write h p none)
  unfolding release
  release_lem = rw load_lem refl

pub node_new_lem :
    (fresh d : Ptr) (h : Heap)
    → fresh ≢ null
    → d ≢ null
    → node_new fresh d h ≡ ok (fresh, write h fresh (some (node d null null)))
unfolding node_new
node_new_lem fresh d h ne some_data = ground arith

-- A command that returns, and then another.
pub Returns-then :
    {A B : Type 0} (P : A × Heap → Type 0) (Q : B × Heap → Type 0) (r : Run (A × Heap))
    (k : A → Cmd B)
    → Returns P r
    → ((a : A) (g : Heap) → P (a, g) → Returns Q (k a g))
    → Returns Q (and_then r k)
Returns-then P Q (ok (a, g)) k p next = next a g p
Returns-then P Q fault k p next = elim p [ ]
Returns-then P Q out_of_fuel k p next = elim p [ ]
