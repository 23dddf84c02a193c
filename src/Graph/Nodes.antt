-- ===== src/Graph/Nodes.antt =====
-- libs/DSA/adjacency_list: what graph_add_node does to a graph that holds together.
use Prim.{tt}
use cmake_template.Prelude.{
  none, some, true, false, [], ◌∷◌, List, ◌≡◌, ◌≢◌, Bool-cases, ◌==◌, ◌<◌, arith, ◌∙◌, inl, sym,
  inr, refl, suc, length, ◌^◌,
}
use cmake_template.Core.{Ptr, success, null, ptr_self}
use cmake_template.Graph.{Store, Graph, Node, set_node, add_node, create_node, up}
use cmake_template.Prelude.Counts.{count}
use cmake_template.Graph.Walk.Scan.{LeadTo}
use cmake_template.Graph.Walk.Loop.{IsGraph, neighbours, neighbours_there}
use cmake_template.Graph.Valid.{IsValid, targets_keep, LeadTo-keep, IsCounted}

abbrev pub new_node : Ptr → Node
new_node payload = record { payload = payload; edge_count = 0; edge_list = [] }

module _ (s : Store) (ps : List Ptr) (payload address : Ptr) (graph : IsGraph s ps)
    (free : s.nodes address ≡ none) (real : address ≢ null) where
  abbrev pub created : Store
  created = set_node s address (new_node payload)

  created_self : (v : Ptr) → (address == v) ≡ true → created.nodes v ≡ some (new_node payload)
  created_self v same = ground arith

  created_other : (v : Ptr) → (address == v) ≡ false → created.nodes v ≡ s.nodes v
  created_other v other = ground arith

  LeadTo-created : (l : List Ptr) → LeadTo s ps l → LeadTo created (address ∷ ps) l
  LeadTo-created l lead =
      LeadTo-keep s created (λ x d h. h) ps (address ∷ ps) l (λ v h. omega arith) lead

  other_inside : (v : Ptr) → (address == v) ≡ false → 0 < count v (address ∷ ps) → 0 < count v ps
  other_inside v other inside = ground arith

  add_node-IsGraph : IsGraph created (address ∷ ps)
  add_node-IsGraph v inside = elim (Bool-cases (address == v)) [
    | inl same ↦ (new_node payload, created_self v same, ground arith, tt)
    | inr other ↦
        let (m, found, ne, lead) = graph v (other_inside v other inside) in
        (m, created_other v other ∙ found, ne, LeadTo-created m.edge_list lead)
  ]

  add_node-IsCounted : IsCounted 0 s ps → IsCounted 0 created (address ∷ ps)
  add_node-IsCounted counted v k inside found = elim (Bool-cases (address == v)) [
    | inl same ↦
        let one : new_node payload ≡ k = cc (created_self v same, found) in
        rw (← one) (refl, omega arith)
    | inr other ↦ counted v k (other_inside v other inside) (sym (created_other v other) ∙ found)
  ]

  add_node-neighbours : (v : Ptr) → 0 < count v ps → neighbours created v ≡ neighbours s v
  add_node-neighbours v inside =
      let (m, found, ne, lead) = graph v inside in
      let other : (address == v) ≡ false = ground arith in
      neighbours_there created v m (created_other v other ∙ found)
      ∙ targets_keep s created (λ x d h. h) ps m.edge_list lead
      ∙ sym (neighbours_there s v m found)

add_node_run :
    (s : Store) (g : Graph) (ps : List Ptr) (payload address : Ptr)
    → g.node_list ≡ some ps
    → payload ≢ null
    → address ≢ null
    → add_node s (some g) payload address true true ≡ (
      success,
      set_node s address (new_node payload),
      some (record g { node_list = some (address ∷ ps); node_count = up g.node_count }),
    )
unfolding add_node create_node
add_node_run s g ps payload address listed given real = ground arith

-- graph_add_node on a graph of fewer than 2^32 - 1 nodes, with memory for a node at a free address,
-- succeeds and leaves a graph that holds
-- together, its counts included: it has one node more, at the head of its list, which leads to none,
-- and the other nodes lead where they led.
pub add_node-IsValid :
    (s : Store) (g : Graph) (ps : List Ptr) (payload address : Ptr)
    → IsValid s g ps
    → suc (length ps) < 2 ^ 32
    → payload ≢ null
    → address ≢ null
    → s.nodes address ≡ none
    → (s' : Store) × (g' : Graph) × (add_node s (some g) payload address true true
        ≡ (success, s', some g'))
      × IsValid s' g' (address ∷ ps)
      × (neighbours s' address ≡ [])
      × ((v : Ptr) → 0 < count v ps → neighbours s' v ≡ neighbours s v)
add_node-IsValid s g ps payload address valid room given real free = (
  created s ps payload address valid.graph free real,
  record g { node_list = some (address ∷ ps); node_count = up g.node_count },
  add_node_run s g ps payload address valid.listed given real,
  record {
    listed = refl;
    size = omega (arith, valid.size);
    small = omega arith;
    graph = add_node-IsGraph s ps payload address valid.graph free real;
    counts = add_node-IsCounted s ps payload address valid.graph free real valid.counts;
  },
  neighbours_there (created s ps payload address valid.graph free real) address (new_node payload)
      (created_self s ps payload address valid.graph free real address (ptr_self address)),
  add_node-neighbours s ps payload address valid.graph free real,
)
