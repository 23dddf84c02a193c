-- ===== src/Graph/Valid.antt =====
-- libs/DSA/adjacency_list: graphs that hold together, and one node or edge more.
use cmake_template.Prelude.{
  none, some, [], ◌∷◌, List, ◌≡◌, ◌<◌, length, ◌∙◌, arith, ap, sym, refl, ◌^◌, ℕ, ◌+◌, suc,
}
use Prim.{tt}
use cmake_template.Core.{Ptr}
use cmake_template.Graph.{Store, Graph, Node, Edge, set_edge}
use cmake_template.Prelude.Counts.{count}
use cmake_template.Graph.Walk.Scan.{targets, LeadTo, targets_cons}
use cmake_template.Graph.Walk.Loop.{IsGraph, neighbours, neighbours_there}

-- The count of each node's edges is that of its list, which has room for `k` more: its size is a
-- uint32_t.
abbrev pub IsCounted : ℕ → Store → List Ptr → Type 0
IsCounted k s ps =
    (p : Ptr) (n : Node)
    → 0 < count p ps
    → s.nodes p ≡ some n
    → (n.edge_count ≡ length n.edge_list) × (length n.edge_list + k < 2 ^ 32)

-- The counts are those of the lists, whose sizes have not wrapped, and the nodes are there with
-- edges that lead to nodes.
pub record IsValid (s : Store) (g : Graph) (ps : List Ptr) : Type 0 where
  pub listed : g.node_list ≡ some ps
  pub size : g.node_count ≡ length ps
  pub small : length ps < 2 ^ 32
  pub graph : IsGraph s ps
  pub counts : IsCounted 0 s ps

pub IsCounted-less : (k : ℕ) (s : Store) (ps : List Ptr) → IsCounted (suc k) s ps → IsCounted k s ps
IsCounted-less k s ps counted p n inside at =
    let (same, room) = counted p n inside at in (same, omega arith)

-- The edges of `s` are those of `s'` too.
abbrev pub Keeps : Store → Store → Type 0
Keeps s s' = (x : Ptr) (e : Edge) → s.edges x ≡ some e → s'.edges x ≡ some e

module _ (s s' : Store) (keeps : Keeps s s') (ps : List Ptr) where
  pub targets_keep : (l : List Ptr) → LeadTo s ps l → targets s' l ≡ targets s l
  targets_keep [] lead = refl
  targets_keep (x ∷ l) ((e, at, ne, there), lead) =
      targets_cons s' x l e (keeps x e at)
      ∙ ap (λ t. e.node_2 ∷ t) (targets_keep l lead)
      ∙ sym (targets_cons s x l e at)

  pub LeadTo-keep :
      (qs l : List Ptr)
      → ((v : Ptr) → 0 < count v ps → 0 < count v qs)
      → LeadTo s ps l
      → LeadTo s' qs l
  LeadTo-keep qs [] more lead = tt
  LeadTo-keep qs (x ∷ l) more ((e, at, ne, there), lead) =
      ((e, keeps x e at, ne, more e.node_2 there), LeadTo-keep qs l more lead)

-- A new edge at a free address.
set_edge-Keeps :
    (s : Store) (edge : Ptr) (e : Edge) → s.edges edge ≡ none → Keeps s (set_edge s edge e)
set_edge-Keeps s edge e free x d at = ground arith

pub set_edge-IsGraph :
    (s : Store) (edge : Ptr) (e : Edge) (ps : List Ptr)
    → s.edges edge ≡ none
    → IsGraph s ps
    → IsGraph (set_edge s edge e) ps
      × ((v : Ptr) → 0 < count v ps → neighbours (set_edge s edge e) v ≡ neighbours s v)
set_edge-IsGraph s edge e ps free graph =
    let keeps = set_edge-Keeps s edge e free in
    (
      λ p there.
          let (n, at, ne, lead) = graph p there in
          (n, at, ne, LeadTo-keep s (set_edge s edge e) keeps ps ps n.edge_list (λ v h. h) lead),
      λ v there.
          let (n, at, ne, lead) = graph v there in
          neighbours_there (set_edge s edge e) v n at
          ∙ targets_keep s (set_edge s edge e) keeps ps n.edge_list lead
          ∙ sym (neighbours_there s v n at),
    )
