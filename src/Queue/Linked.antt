-- ===== src/Queue/Linked.antt =====
-- The nodes of a queue in the heap, and what a queue holds.
use cmake_template.Prelude.{
  List, Option, ◌≢◌, ◌≡◌, some, ◌++◌, length, none, refl, ◌∷◌, [], ◌∙◌, arith, sym,
}
use cmake_template.Core.{Ptr, null, ptr_self, ptr-ne}
use cmake_template.Queue.{Node, Heap, Queue, update}

-- A node with its address.
abbrev pub Cell : Type 0
Cell = Ptr × Ptr

abbrev pub first : List Cell → Ptr
first [] = null
first ((a, d) ∷ cs) = a

abbrev pub last_or : Ptr → List Cell → Ptr
last_or p [] = p
last_or p ((a, d) ∷ cs) = last_or a cs

abbrev pub Apart : Ptr → List Cell → Type 0
Apart p [] = Unit
Apart p ((a, d) ∷ cs) = (a ≢ p) × Apart p cs

-- The nodes stand at different addresses, each points to the next one, and the last to NULL.
abbrev pub Linked : Heap → List Cell → Type 0
Linked heap [] = Unit
Linked heap ((a, d) ∷ cs) =
    (a ≢ null)
    × (heap a ≡ some (record { payload = d; next = first cs }))
    × Apart a cs
    × Linked heap cs

abbrev pub data_of : List Cell → List Ptr
data_of [] = []
data_of ((a, d) ∷ cs) = d ∷ data_of cs

-- A queue with these nodes.
pub record Holds (heap : Heap) (q : Queue) (cs : List Cell) : Type 0 where
  pub linked : Linked heap cs
  pub head_eq : q.head ≡ first cs
  pub tail_eq : q.tail ≡ last_or null cs
  pub size_eq : q.current_size ≡ length cs
  pub free_set : q.customfree ≢ null

pub update_ne : (heap : Heap) (p a : Ptr) (v : Option Node) → a ≢ p → update heap p v a ≡ heap a
update_ne heap p a v ne = rw (ptr-ne a p ne) refl

pub update_self : (heap : Heap) (p : Ptr) (v : Option Node) → update heap p v p ≡ v
update_self heap p v = rw (ptr_self p) refl

-- A write to another node.
pub Linked-update :
    (heap : Heap) (p : Ptr) (v : Option Node) (cs : List Cell)
    → Apart p cs
    → Linked heap cs
    → Linked (update heap p v) cs
Linked-update heap p v [] ap h = tt
Linked-update heap p v ((a, d) ∷ cs) (ne, far) (nn, at, apart, h) =
    (nn, update_ne heap p a v ne ∙ at, apart, Linked-update heap p v cs far h)

-- No node stands at a free address.
pub free-Apart :
    (heap : Heap) (p : Ptr) (cs : List Cell) → heap p ≡ none → Linked heap cs → Apart p cs
free-Apart heap p [] free h = tt
free-Apart heap p ((a, d) ∷ cs) free (nn, at, apart, h) =
    ((λ e. ground (arith, e, at, free)), free-Apart heap p cs free h)

Apart-snoc : (p new d : Ptr) (cs : List Cell) → new ≢ p → Apart p cs → Apart p (cs ++ (new, d) ∷ [])
Apart-snoc p new d [] ne h = (ne, tt)
Apart-snoc p new d (c ∷ cs) ne (hc, h) = (hc, Apart-snoc p new d cs ne h)

last_or-ne : (p a : Ptr) (cs : List Cell) → a ≢ p → Apart p cs → last_or a cs ≢ p
last_or-ne p a [] ne h = ne
last_or-ne p a ((b, d) ∷ cs) ne (hb, h) = last_or-ne p b cs hb h

-- The last node is made to point to a new one.
pub Linked-snoc :
    (heap : Heap) (new d a x : Ptr) (cs : List Cell)
    → new ≢ null
    → heap new ≡ some (record { payload = d; next = null })
    → Apart new ((a, x) ∷ cs)
    → Linked heap ((a, x) ∷ cs)
    → (n : Node) × (heap (last_or a cs) ≡ some n)
      × Linked
          (update heap (last_or a cs) (some (record n { next = new })))
          ((a, x) ∷ (cs ++ (new, d) ∷ []))
Linked-snoc heap new d a x [] nn at_new (ne, far) (na, at, apart, h) = (
  record { payload = x; next = null },
  at,
  (
    na,
    update_self heap a (some (record { payload = x; next = new })),
    (λ e. ne (sym e), tt),
    (
      nn,
      update_ne heap a new (some (record { payload = x; next = new })) (λ e. ne (sym e)) ∙ at_new,
      tt,
      tt,
    ),
  ),
)
Linked-snoc heap new d a x ((b, y) ∷ cs) nn at_new (ne, far) (na, at, (ba, apart), h) =
    let (n, at_last, linked) = Linked-snoc heap new d b y cs nn at_new far h in
    (
      n,
      at_last,
      (
        na,
        update_ne heap (last_or b cs) a (some (record n { next = new }))
              (λ e. last_or-ne a b cs ba apart (sym e))
            ∙ at,
        Apart-snoc a new d ((b, y) ∷ cs) (λ e. ne (sym e)) (ba, apart),
        linked,
      ),
    )
