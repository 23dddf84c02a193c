-- ===== src/Graph/Walk/Count.antt =====
-- libs/DSA/adjacency_list: the containers of a traversal, by how often a node is in them.
use cmake_template.Prelude.Counts.{tally, count, count-append}
use cmake_template.Prelude.{
  some, true, [], ◌∷◌, suc, ℕ, ◌≡◌, List, arith, Bool, ◌+◌, ◌++◌, ◌<◌, ltb, length, length-append,
  refl, ◌^◌,
}
use cmake_template.Core.{Ptr}
use cmake_template.Graph.Walk.{contains, push_stack, enqueue, Put, max_stack_size}

pub contains-count : (ps : List Ptr) (v : Ptr) → contains ps v ≡ ltb 0 (count v ps)
contains-count [] v = refl
contains-count (p ∷ ps) v = ground (arith, contains-count ps v)

-- A container takes a node, up to `limit` nodes.
abbrev pub Accepts : (Bool → Put) → ℕ → Type 0
Accepts put limit =
    (waiting : List Ptr) (node : Ptr)
    → length waiting < limit
    → (next : List Ptr) × (put true waiting node ≡ some next)
      × ((v : Ptr) → count v next ≡ tally node v + count v waiting)
      × (length next ≡ suc (length waiting))

pub push_stack-Accepts : Accepts push_stack max_stack_size
unfolding push_stack
push_stack-Accepts waiting node h = (node ∷ waiting, ground arith, λ v. refl, refl)

pub enqueue-Accepts : (limit : ℕ) → limit < 2 ^ 32 → Accepts enqueue limit
unfolding enqueue
enqueue-Accepts limit small waiting node h = (
  waiting ++ (node ∷ []),
  ground arith,
  λ v. omega (arith, count-append v waiting (node ∷ [])),
  omega (arith, length-append waiting (node ∷ [])),
)
