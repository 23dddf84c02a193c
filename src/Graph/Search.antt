-- ===== src/Graph/Search.antt =====
-- libs/DSA/adjacency_list: which edge graph_find_edge finds, and graph_remove_edge removes.
use cmake_template.Prelude.{
  none, some, true, [], ◌∷◌, ◌≡◌, List, Option, Bool, ◌≢◌, if◌then◌else◌, arith, refl, ◌<◌, length,
  suc, Bool-cases, inl, inr, ◌∙◌, ap,
}
use cmake_template.Core.{Ptr, ok, success, null, Comparison, is_equal, not_null}
use cmake_template.Graph.{
  load_node, load_edge, find_node, remove_edge, down, Graph, Handle, Store, Node, Edge, connects,
  find_edge, detach_edge, remove_equal, edge_compare, set_node, free_edge, down, load_edge,
}
use cmake_template.Prelude.Counts.{count, tally_self}
use cmake_template.Graph.Walk.Scan.{LeadTo}
use cmake_template.Graph.Valid.{IsValid}
use cmake_template.Graph.Walk.Correct.{find_node-count}

-- The first edge that connects two nodes, and the last of the list.
abbrev pub first_connecting : Store → Ptr → Ptr → List Ptr → Option Ptr
first_connecting s p q [] = none
first_connecting s p q (edge ∷ edges) = elim (s.edges edge) [
  | none ↦ none
  | some e ↦ if connects e p q then some edge else first_connecting s p q edges
]

abbrev pub last_of : Ptr → List Ptr → Ptr
last_of last [] = last
last_of last (edge ∷ edges) = last_of edge edges

abbrev pub or_else : Option Ptr → Ptr → Ptr
or_else none d = d
or_else (some x) d = x

find_edge_last :
    (s : Store) (ps : List Ptr) (p q last : Ptr) (l : List Ptr)
    → LeadTo s ps l
    → find_edge s p q last l ≡ ok (or_else (first_connecting s p q l) (last_of last l))
unfolding find_edge
find_edge_last s ps p q last [] lead = refl
find_edge_last s ps p q last (edge ∷ l) ((e, at, _, _), lead) =
    ground (arith, find_edge_last s ps p q edge l lead)

-- graph_find_edge returns the first edge of the list that connects the two nodes. Where no edge does,
-- it returns the last edge of the list, or NULL for an empty list.
pub find_edge-first :
    (s : Store) (ps : List Ptr) (p q : Ptr) (l : List Ptr)
    → LeadTo s ps l
    → find_edge s p q null l ≡ ok (or_else (first_connecting s p q l) (last_of null l))
find_edge-first s ps p q l lead = find_edge_last s ps p q null l lead

edge_compare_self : (e : Edge) → edge_compare e e ≡ Comparison.equal
unfolding edge_compare
edge_compare_self e = ground arith

load_there : (s : Store) (x : Ptr) (e : Edge) → s.edges x ≡ some e → load_edge s x ≡ ok e
load_there s x e at = ground arith

-- An edge of a list is found in it, or one that compares equal.
remove_equal-some :
    (s : Store) (edge : Ptr) (e : Edge) (ps l : List Ptr)
    → s.edges edge ≡ some e
    → LeadTo s ps l
    → 0 < count edge l
    → (l' : List Ptr) × (remove_equal s edge l ≡ ok (some l')) × (length l ≡ suc (length l'))
unfolding remove_equal
remove_equal-some s edge e ps [] at lead inside = absurd (omega arith)
remove_equal-some s edge e ps (x ∷ l) at ((d, there, _, _), lead) inside =
    elim (Bool-cases (is_equal (edge_compare e d))) [
      | inl same ↦ (l, ground arith, refl)
      | inr other ↦
          let behind : 0 < count edge l = ground (arith, edge_compare_self e) in
          let (l', rest, fewer) = remove_equal-some s edge e ps l at lead behind in
          (x ∷ l', ground (arith, rest), omega arith)
    ]

count-last_of : (x : Ptr) (l : List Ptr) → 0 < count (last_of x l) (x ∷ l)
count-last_of x [] = omega (arith, tally_self x)
count-last_of x (y ∷ l) = omega (arith, count-last_of y l)

load_node_there : (s : Store) (p : Ptr) (n : Node) → s.nodes p ≡ some n → load_node s p ≡ ok n
load_node_there s p n at = ground arith

detach_edge_directed :
    (s : Store) (p q edge : Ptr) (n : Node) (e : Edge) (l' : List Ptr) (push_granted : Bool)
    → s.nodes p ≡ some n
    → find_edge s p q null n.edge_list ≡ ok edge
    → edge ≢ null
    → remove_equal s edge n.edge_list ≡ ok (some l')
    → s.edges edge ≡ some e
    → e.is_directed ≡ true
    → detach_edge s p q push_granted
      ≡ ok (
        success,
        free_edge (set_node s p (record n { edge_list = l'; edge_count = down n.edge_count })) edge,
      )
unfolding detach_edge
detach_edge_directed s p q edge n e l' push_granted at found real removed there directed =
    rw
      (
        load_node_there s p n at,
        found,
        not_null edge real,
        removed,
        load_there s edge e there,
        directed,
      )
      refl

remove_edge_run :
    (s : Store) (g : Handle) (data_1 data_2 p q : Ptr) (push_granted : Bool)
    → find_node s g data_1 ≡ ok p
    → find_node s g data_2 ≡ ok q
    → p ≢ null
    → q ≢ null
    → remove_edge s g data_1 data_2 push_granted ≡ detach_edge s p q push_granted
unfolding remove_edge
remove_edge_run s g data_1 data_2 p q push_granted found_1 found_2 real_1 real_2 =
    rw (found_1, not_null p real_1, found_2, not_null q real_2) refl

-- In a graph that holds together, where no edge in the list of the first node connects the two nodes
-- and the last edge of that list is directed, graph_remove_edge succeeds all the same: the list loses an
-- edge, its count follows, and the last edge, which leads elsewhere, is freed.
pub remove_edge_other :
    (s : Store) (g : Graph) (ps : List Ptr) (data_1 data_2 p q x : Ptr) (l : List Ptr) (n : Node)
    (e : Edge) (push_granted : Bool)
    → IsValid s g ps
    → find_node s (some g) data_1 ≡ ok p
    → find_node s (some g) data_2 ≡ ok q
    → p ≢ null
    → q ≢ null
    → s.nodes p ≡ some n
    → n.edge_list ≡ x ∷ l
    → first_connecting s p q n.edge_list ≡ none
    → s.edges (last_of x l) ≡ some e
    → last_of x l ≢ null
    → e.is_directed ≡ true
    → (l' : List Ptr) × (length n.edge_list ≡ suc (length l'))
      × (remove_edge s (some g) data_1 data_2 push_granted
          ≡ ok (
            success,
            free_edge
                (set_node s p (record n { edge_list = l'; edge_count = length l' }))
                (last_of x l),
          ))
remove_edge_other s g ps data_1 data_2 p q x l n e push_granted valid found_1 found_2 real_1 real_2
      at stands apart there real directed =
    let (inside, _) = find_node-count s g ps valid.listed data_1 p real_1 found_1 in
    let (m, at_m, _, lead_m) = valid.graph p inside in
    let same : m ≡ n = ground arith in
    let lead : LeadTo s ps n.edge_list = rw same at lead_m in
    let (counted, room) = valid.counts p n inside at in
    let found : find_edge s p q null n.edge_list ≡ ok (last_of x l) =
      find_edge-first s ps p q n.edge_list lead
      ∙ ap (λ (r : Option Ptr). ok (or_else r (last_of null n.edge_list))) apart
      ∙ ap (λ (r : List Ptr). ok (last_of null r)) stands in
    let (l', removed, fewer) =
      remove_equal-some s (last_of x l) e ps n.edge_list there lead
        (rw stands (count-last_of x l)) in
    let less : down n.edge_count ≡ length l' = omega arith in
    (
      l',
      fewer,
      remove_edge_run s (some g) data_1 data_2 p q push_granted found_1 found_2 real_1 real_2
          ∙ rw (← less) (
              detach_edge_directed s p q (last_of x l) n e l' push_granted at found real removed
                there directed),
    )
