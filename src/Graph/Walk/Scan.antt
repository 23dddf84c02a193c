-- ===== src/Graph/Walk/Scan.antt =====
-- libs/DSA/adjacency_list: what the loop over the edges of a node does to a traversal.
use cmake_template.Prelude.{
  none, some, true, false, [], ◌∷◌, suc, arith, List, ℕ, Bool, ◌+◌, ◌<◌, length, ◌≤◌, ◌≡◌, refl,
  ◌≢◌, ◌++◌, ◌∙◌, length-append, Bool-cases, inl, inr,
}
use cmake_template.Core.{Ptr, ok, success, null}
use cmake_template.Graph.{Store, Edge}
use cmake_template.Graph.Walk.{Put, Walk, Memory, visit_node, edges_loop, contains}
use cmake_template.Prelude.Counts.{tally, count, count-append, length-le}
use cmake_template.Graph.Walk.Count.{contains-count, Accepts}

-- The nodes that edges lead to, and the nodes that a node's edges lead to.
abbrev pub targets : Store → List Ptr → List Ptr
targets s [] = []
targets s (edge ∷ edges) = elim (s.edges edge) [
  | none ↦ targets s edges
  | some e ↦ e.node_2 ∷ targets s edges
]

-- The edges are there and lead to nodes of `ps`.
abbrev pub LeadTo : Store → List Ptr → List Ptr → Type 0
LeadTo s ps [] = Unit
LeadTo s ps (edge ∷ edges) =
    ((e : Edge) × (s.edges edge ≡ some e) × (e.node_2 ≢ null) × (0 < count e.node_2 ps))
    × LeadTo s ps edges

-- All memory is granted.
pub record IsGranted (memory : Memory) : Type 0 where
  pub for_waiting : (k : ℕ) → memory.waiting_granted k ≡ true
  pub for_visited : (k : ℕ) → memory.visited_granted k ≡ true

-- No node is visited twice or is none of the graph's, and no more wait than are visited.
pub record IsWalk (ps : List Ptr) (w : Walk) : Type 0 where
  pub once : (v : Ptr) → count v w.visited ≤ 1
  pub inside : (v : Ptr) → count v w.visited ≤ count v ps
  pub fits : length w.waiting ≤ length w.visited

-- From `w` to `w'` the nodes of `ts` have been met.
pub record Scanned (w w' : Walk) (ts : List Ptr) : Type 0 where
  pub balance :
      (v : Ptr) → count v w'.waiting + count v w.visited ≡ count v w.waiting + count v w'.visited
  pub sizes : length w'.waiting + length w.visited ≡ length w.waiting + length w'.visited
  pub grows : (v : Ptr) → count v w.visited ≤ count v w'.visited
  pub covers : (v : Ptr) → 0 < count v ts → 0 < count v w'.visited
  pub only : (v : Ptr) → 0 < count v w'.visited → 0 < count v w.visited + count v ts
  pub called : w'.called ≡ w.called

Scanned-refl : (w : Walk) → Scanned w w []
Scanned-refl w = record {
  balance = λ v. refl;
  sizes = refl;
  grows = λ v. omega arith;
  covers = λ v h. absurd (omega arith);
  only = λ v h. omega arith;
  called = refl;
}

-- A node that is visited already.
Scanned-seen :
    (w w' : Walk) (t : Ptr) (ts : List Ptr)
    → 0 < count t w.visited
    → Scanned w w' ts
    → Scanned w w' (t ∷ ts)
Scanned-seen w w' t ts seen h = record {
  balance = h.balance;
  sizes = h.sizes;
  grows = h.grows;
  called = h.called;
  covers = λ v m. ground (arith, h.covers v, h.grows t);
  only = λ v m. omega (arith, h.only v m);
}

-- One more node that is fresh.
count_fresh :
    (ps visited : List Ptr) (t v : Ptr)
    → count v visited ≤ count v ps
    → count v visited ≤ 1
    → 0 < count t ps
    → count t visited ≡ 0
    → (count v visited + tally t v ≤ count v ps) × (count v visited + tally t v ≤ 1)
count_fresh ps visited t v inside once there fresh = ground arith

pub count_snoc : (v t : Ptr) (ps : List Ptr) → count v (ps ++ (t ∷ [])) ≡ count v ps + tally t v
count_snoc v t ps = omega (arith, count-append v ps (t ∷ []))

pub length_snoc : (t : Ptr) (ps : List Ptr) → length (ps ++ (t ∷ [])) ≡ suc (length ps)
length_snoc t ps = omega (arith, length-append ps (t ∷ []))

IsWalk_snoc :
    (ps : List Ptr) (w : Walk) (t : Ptr) (next : List Ptr)
    → IsWalk ps w
    → 0 < count t ps
    → count t w.visited ≡ 0
    → length next ≡ suc (length w.waiting)
    → IsWalk ps (record w { waiting = next; visited = w.visited ++ (t ∷ []) })
IsWalk_snoc ps w t next h there fresh size =
    let more = λ (v : Ptr). count_fresh ps w.visited t v (h.inside v) (h.once v) there fresh in
    record {
      once = λ v. omega (arith, more v, count_snoc v t w.visited);
      inside = λ v. omega (arith, more v, count_snoc v t w.visited);
      fits = omega (arith, length_snoc t w.visited, h.fits);
    }

Scanned-snoc :
    (w : Walk) (t : Ptr) (next : List Ptr)
    → ((v : Ptr) → count v next ≡ tally t v + count v w.waiting)
    → length next ≡ suc (length w.waiting)
    → Scanned w (record w { waiting = next; visited = w.visited ++ (t ∷ []) }) (t ∷ [])
Scanned-snoc w t next counts size = record {
  balance = λ v. omega (arith, counts v, count_snoc v t w.visited);
  sizes = omega (arith, length_snoc t w.visited);
  grows = λ v. omega (arith, count_snoc v t w.visited);
  covers = λ v m. omega (arith, count_snoc v t w.visited);
  only = λ v m. omega (arith, count_snoc v t w.visited);
  called = refl;
}

Scanned-trans :
    (w w' w'' : Walk) (t : Ptr) (ts : List Ptr)
    → Scanned w w' (t ∷ [])
    → Scanned w' w'' ts
    → Scanned w w'' (t ∷ ts)
Scanned-trans w w' w'' t ts h k = record {
  balance = λ v. omega (arith, h.balance v, k.balance v);
  sizes = omega (arith, h.sizes, k.sizes);
  grows = λ v. omega (arith, h.grows v, k.grows v);
  covers = λ v m. ground (arith, h.covers v, k.covers v, k.grows v);
  only = λ v m. ground (arith, k.only v m, h.only v);
  called = k.called ∙ h.called;
}

pub targets_cons :
    (s : Store) (edge : Ptr) (edges : List Ptr) (e : Edge)
    → s.edges edge ≡ some e
    → targets s (edge ∷ edges) ≡ e.node_2 ∷ targets s edges
targets_cons s edge edges e at = ground arith

module _ (put : Bool → Put) (memory : Memory) (s : Store) (edge : Ptr) (edges : List Ptr) (w : Walk)
    (e : Edge) (at : s.edges edge ≡ some e) where
  edges_loop_seen :
      contains w.visited e.node_2 ≡ true
      → edges_loop put memory s (edge ∷ edges) w ≡ edges_loop put memory s edges w
  unfolding edges_loop
  edges_loop_seen seen = ground arith

  edges_loop_new :
      (w' : Walk)
      → contains w.visited e.node_2 ≡ false
      → visit_node put memory e.node_2 w ≡ (success, w')
      → edges_loop put memory s (edge ∷ edges) w ≡ edges_loop put memory s edges w'
  unfolding edges_loop
  edges_loop_new w' fresh visited = ground arith

module _ (put : Bool → Put) (memory : Memory) (ps : List Ptr) (limit : ℕ) where
  module _ (accepts : Accepts put limit) (granted : IsGranted memory)
      (room : length ps ≤ limit) where
    -- A node that is not visited yet.
    pub visit_node_lem :
        (w : Walk) (t : Ptr)
        → IsWalk ps w
        → t ≢ null
        → 0 < count t ps
        → count t w.visited ≡ 0
        → (w' : Walk) × (visit_node put memory t w ≡ (success, w'))
          × IsWalk ps w'
          × Scanned w w' (t ∷ [])
    unfolding visit_node
    visit_node_lem w t h ne there fresh =
        let more : suc (length w.visited) ≤ length ps =
          length-le (t ∷ w.visited) ps (λ v.
            omega (arith, count_fresh ps w.visited t v (h.inside v) (h.once v) there fresh)) in
        let (next, took, counts, size) = accepts w.waiting t (omega (arith, h.fits)) in
        (
          record w { waiting = next; visited = w.visited ++ (t ∷ []) },
          ground (
            arith,
            granted.for_waiting (length w.visited),
            granted.for_visited (length w.visited),
          ),
          IsWalk_snoc ps w t next h there fresh size,
          Scanned-snoc w t next counts size,
        )

    pub edges_loop_lem :
        (s : Store) (edges : List Ptr) (w : Walk)
        → LeadTo s ps edges
        → IsWalk ps w
        → (w' : Walk) × (edges_loop put memory s edges w ≡ ok (success, w'))
          × IsWalk ps w'
          × Scanned w w' (targets s edges)
    edges_loop_lem s [] w lead h = (w, unfold edges_loop in refl, h, Scanned-refl w)
    edges_loop_lem s (edge ∷ edges) w ((e, at, ne, there), lead) h =
        rw (targets_cons s edge edges e at) (elim (Bool-cases (contains w.visited e.node_2)) [
          | inl seen ↦
              let (w', ends, kept, met) = edges_loop_lem s edges w lead h in
              (
                w',
                rw (edges_loop_seen put memory s edge edges w e at seen) ends,
                kept,
                Scanned-seen w w' e.node_2 _ (ground (arith, contains-count w.visited e.node_2))
                    met,
              )
          | inr new ↦
              let fresh : count e.node_2 w.visited ≡ 0 =
                ground (arith, contains-count w.visited e.node_2) in
              let (w1, visited, kept1, met1) = visit_node_lem w e.node_2 h ne there fresh in
              let (w', ends, kept, met) = edges_loop_lem s edges w1 lead kept1 in
              (
                w',
                rw (edges_loop_new put memory s edge edges w e at w1 new visited) ends,
                kept,
                Scanned-trans w w1 w' e.node_2 _ met1 met,
              )
        ])
