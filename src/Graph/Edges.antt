-- ===== src/Graph/Edges.antt =====
-- libs/DSA/adjacency_list: what graph_add_edge and graph_add_node do to a graph that holds together.
use cmake_template.Prelude.{
  none, some, true, false, ◌∷◌, List, ◌≡◌, arith, ◌≢◌, ◌<◌, if◌then◌else◌, ◌==◌, Bool-cases, inl,
  ◌∙◌, inr, ap, sym, Bool, ℕ, not, ◌&&◌, refl, suc,
}
use cmake_template.Core.{Ptr, ok, success, null, not_null}
use cmake_template.Graph.{
  Handle, Store, Graph, Node, Edge, push_edge, set_edge, set_node, attach_edge, add_edge, find_node,
  up,
}
use cmake_template.Prelude.Counts.{count}
use cmake_template.Graph.Walk.Scan.{targets, LeadTo, targets_cons}
use cmake_template.Graph.Walk.Loop.{IsGraph, neighbours, neighbours_there}
use cmake_template.Graph.Walk.Correct.{find_node-count}
use cmake_template.Graph.Valid.{
  IsValid, IsCounted-less, targets_keep, LeadTo-keep, set_edge-IsGraph, IsCounted,
}

-- The node with one edge more.
abbrev pub with_edge : Node → Ptr → Node
with_edge n edge = record n { edge_list = edge ∷ n.edge_list; edge_count = up n.edge_count }

push_edge_run :
    (s : Store) (p edge : Ptr) (n : Node)
    → s.nodes p ≡ some n
    → push_edge s p edge ≡ ok (set_node s p (with_edge n edge))
push_edge_run s p edge n at = ground arith

-- Only the list of `p` has changed.
module _ (s : Store) (ps : List Ptr) (p edge : Ptr) (n : Node) (e : Edge) (graph : IsGraph s ps)
    (at : s.nodes p ≡ some n) (made : s.edges edge ≡ some e) (ne : e.node_2 ≢ null)
    (there : 0 < count e.node_2 ps) where
  abbrev pushed : Store
  pushed = set_node s p (with_edge n edge)

  pushed_self : (v : Ptr) → (p == v) ≡ true → pushed.nodes v ≡ some (with_edge n edge)
  pushed_self v same = ground arith

  pushed_other : (v : Ptr) → (p == v) ≡ false → pushed.nodes v ≡ s.nodes v
  pushed_other v other = ground arith

  LeadTo-pushed : (l : List Ptr) → LeadTo s ps l → LeadTo pushed ps l
  LeadTo-pushed l lead = LeadTo-keep s pushed (λ x d h. h) ps ps l (λ v h. h) lead

  push_edge-IsGraph : IsGraph pushed ps
  push_edge-IsGraph v inside = elim (Bool-cases (p == v)) [
    | inl same ↦
        let (m, found, real, lead) = graph v inside in
        let one : m ≡ n = ground arith in
        (
          with_edge n edge,
          pushed_self v same,
          real,
          ((e, made, ne, there), LeadTo-pushed n.edge_list (rw one at lead)),
        )
    | inr other ↦
        let (m, found, real, lead) = graph v inside in
        (m, pushed_other v other ∙ found, real, LeadTo-pushed m.edge_list lead)
  ]

  push_edge-neighbours :
      (v : Ptr)
      → 0 < count v ps
      → neighbours pushed v ≡ (if p == v then e.node_2 ∷ neighbours s v else neighbours s v)
  push_edge-neighbours v inside = elim (Bool-cases (p == v)) [
    | inl same ↦
        let (m, found, real, lead) = graph v inside in
        let one : m ≡ n = ground arith in
        rw same (
          neighbours_there pushed v (with_edge n edge) (pushed_self v same)
          ∙ targets_cons pushed edge n.edge_list e made
          ∙ ap (λ l. e.node_2 ∷ l)
              (targets_keep s pushed (λ x d h. h) ps n.edge_list (rw one at lead)
                ∙ ap (λ k. targets s k.edge_list) (sym one)
                ∙ sym (neighbours_there s v m found)))
    | inr other ↦
        let (m, found, real, lead) = graph v inside in
        rw other (
          neighbours_there pushed v m (pushed_other v other ∙ found)
          ∙ targets_keep s pushed (λ x d h. h) ps m.edge_list lead
          ∙ sym (neighbours_there s v m found))
  ]

  push_edge-IsCounted : (k : ℕ) → IsCounted (suc k) s ps → IsCounted k pushed ps
  push_edge-IsCounted room counted v k inside found = elim (Bool-cases (p == v)) [
    | inl same ↦
        let one : with_edge n edge ≡ k = cc (pushed_self v same, found) in
        let was : s.nodes v ≡ some n = ground arith in
        let (same_count, fits) = counted v n inside was in rw (← one) (omega arith, omega arith)
    | inr other ↦
        let (same_count, fits) = counted v k inside (sym (pushed_other v other) ∙ found) in
        (same_count, omega arith)
  ]

-- What an edge from `p` to `q` adds to the nodes that the list of `v` leads to.
abbrev pub with_target : Ptr → Ptr → Bool → Ptr → List Ptr → List Ptr
with_target p q is_bidirectional v l =
    let one = if p == v then q ∷ l else l in if is_bidirectional && (q == v) then q ∷ one else one

-- The graph holds together, with one edge more.
abbrev pub HasEdge : ℕ → Store → Store → List Ptr → Ptr → Ptr → Bool → Type 0
HasEdge k s s' ps p q is_bidirectional =
    IsGraph s' ps
    × IsCounted k s' ps
    × ((v : Ptr)
        → 0 < count v ps
        → neighbours s' v ≡ with_target p q is_bidirectional v (neighbours s v))

module _ (s : Store) (ps : List Ptr) (p q edge : Ptr) (weight : ℕ) (graph : IsGraph s ps)
    (counted : IsCounted 2 s ps) (from : 0 < count p ps) (to : 0 < count q ps)
    (free : s.edges edge ≡ none) where
  abbrev new_edge : Bool → Edge
  new_edge is_bidirectional = record {
    node_1 = p;
    node_2 = q;
    weight = weight;
    is_directed = not is_bidirectional;
  }

  abbrev made : Bool → Store
  made is_bidirectional = set_edge s edge (new_edge is_bidirectional)

  made_at : (b : Bool) → (made b).edges edge ≡ some (new_edge b)
  made_at b = ground arith

  -- After the first push.
  push_first :
      (b : Bool)
      → (one : Store) × (push_edge (made b) p edge ≡ ok one)
        × (one.edges edge ≡ some (new_edge b))
        × HasEdge 1 s one ps p q false
  push_first b =
      let (graph', same) = set_edge-IsGraph s edge (new_edge b) ps free graph in
      let (n, at, _, _) = graph p from in
      let (_, _, ne, _) = graph q to in
      (
        set_node (made b) p (with_edge n edge),
        push_edge_run (made b) p edge n at,
        made_at b,
        (
          push_edge-IsGraph (made b) ps p edge n (new_edge b) graph' at (made_at b) ne to,
          push_edge-IsCounted (made b) ps p edge n (new_edge b) graph' at (made_at b) ne to 1
              counted,
          λ v inside.
              push_edge-neighbours (made b) ps p edge n (new_edge b) graph' at (made_at b) ne to v
                inside
              ∙ ap (λ l. if p == v then q ∷ l else l) (same v inside),
        ),
      )

  attach_directed :
      (one : Store)
      → push_edge (made false) p edge ≡ ok one
      → attach_edge s p q edge weight false true true ≡ ok (success, one)
  unfolding attach_edge
  attach_directed one pushed_one = rw pushed_one refl

  attach_bidirectional :
      (one two : Store)
      → push_edge (made true) p edge ≡ ok one
      → push_edge one q edge ≡ ok two
      → attach_edge s p q edge weight true true true ≡ ok (success, two)
  unfolding attach_edge
  attach_bidirectional one two pushed_one pushed_two = rw pushed_one (rw pushed_two refl)

  attach_edge_lem :
      (b : Bool)
      → (s' : Store) × (attach_edge s p q edge weight b true true ≡ ok (success, s'))
        × HasEdge 0 s s' ps p q b
  attach_edge_lem false =
      let (one, run, _, (graph', counted', near)) = push_first false in
      (one, attach_directed one run, (graph', IsCounted-less 0 one ps counted', near))
  attach_edge_lem true =
      let (one, run, at_one, (graph', counted', near)) = push_first true in
      let (m, at, ne, _) = graph' q to in
      let e = new_edge true in
      let two = set_node one q (with_edge m edge) in
      (
        two,
        attach_bidirectional one two run (push_edge_run one q edge m at),
        (
          push_edge-IsGraph one ps q edge m e graph' at at_one ne to,
          push_edge-IsCounted one ps q edge m e graph' at at_one ne to 0 counted',
          λ v inside.
              push_edge-neighbours one ps q edge m e graph' at at_one ne to v inside
              ∙ ap (λ l. if q == v then q ∷ l else l) (near v inside),
        ),
      )

add_edge_run :
    (s : Store) (g : Handle) (data_1 data_2 p q edge : Ptr) (weight : ℕ) (b : Bool)
    → find_node s g data_1 ≡ ok p
    → find_node s g data_2 ≡ ok q
    → p ≢ null
    → q ≢ null
    → edge ≢ null
    → add_edge s g data_1 data_2 weight b edge true true ≡ attach_edge s p q edge weight b true true
unfolding add_edge
add_edge_run s g data_1 data_2 p q edge weight b found_1 found_2 real_1 real_2 real =
    rw found_1
      (rw (not_null p real_1) (rw found_2 (rw (not_null q real_2) (rw (not_null edge real) refl))))

-- graph_add_edge between two nodes that are found, where every node has fewer than 2^32 - 2 edges,
-- with memory for an edge at a free address, succeeds and leaves a graph that holds together, its
-- counts included. The list of the first node then leads to the second node once more; if the edge
-- is bidirectional, the list of the second node leads to the second node itself once more; all
-- other neighbours are as they were.
pub add_edge-HasEdge :
    (s : Store) (g : Graph) (ps : List Ptr) (data_1 data_2 p q edge : Ptr) (weight : ℕ)
    (is_bidirectional : Bool)
    → IsValid s g ps
    → IsCounted 2 s ps
    → find_node s (some g) data_1 ≡ ok p
    → find_node s (some g) data_2 ≡ ok q
    → p ≢ null
    → q ≢ null
    → edge ≢ null
    → s.edges edge ≡ none
    → (s' : Store) × (add_edge s (some g) data_1 data_2 weight is_bidirectional edge true true
        ≡ ok (success, s'))
      × HasEdge 0 s s' ps p q is_bidirectional
add_edge-HasEdge s g ps data_1 data_2 p q edge weight is_bidirectional valid room found_1 found_2
      real_1 real_2 real free =
    let (from, _) = find_node-count s g ps valid.listed data_1 p real_1 found_1 in
    let (to, _) = find_node-count s g ps valid.listed data_2 q real_2 found_2 in
    let (s', run, has) =
      attach_edge_lem s ps p q edge weight valid.graph room from to free is_bidirectional in
    (
      s',
      add_edge_run s (some g) data_1 data_2 p q edge weight is_bidirectional found_1 found_2 real_1
            real_2 real
          ∙ run,
      has,
    )
