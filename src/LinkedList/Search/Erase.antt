-- ===== src/LinkedList/Search/Erase.antt =====
-- list_remove_data.
use cmake_template.Prelude.{
  ◌≡◌, ◌≢◌, refl, true, false, some, [], ◌∷◌, ◌++◌, arith, Bool, if◌then◌else◌, Bool-cases, inl,
  inr, ap, sym,
}
use mathlib.Core.Path.{subst}
use cmake_template.LinkedList.Seg.{Cells, split_right}
use cmake_template.Core.{Ptr, null, failure, ok, Returns, not_null, is_equal}
use cmake_template.LinkedList.Memory.{Heap}
use cmake_template.LinkedList.Header.{ListT, IsList}
use cmake_template.LinkedList.Pop.{remove_node}
use cmake_template.LinkedList.Pop.Unlink.{Removed, remove_node_lem}
use cmake_template.LinkedList.Search.{remove_data}
use cmake_template.LinkedList.Search.Find.{find_cell, any_cell, find-find_cell}

-- The nodes without the first whose data a test accepts.
abbrev pub erase_cell : (Ptr → Bool) → Cells → Cells
erase_cell accepts [] = []
erase_cell accepts ((a, d) ∷ xs) = if accepts d then xs else (a, d) ∷ erase_cell accepts xs

-- The first node whose data a test accepts, with what stands in front of it and behind it.
record Found (accepts : Ptr → Bool) (xs : Cells) : Type 0 where
  front : Cells
  p : Ptr
  d : Ptr
  back : Cells
  whole : xs ≡ front ++ (p, d) ∷ back
  found : find_cell accepts xs ≡ p
  erased : erase_cell accepts xs ≡ front ++ back
  accepted : accepts d ≡ true

find_split : (accepts : Ptr → Bool) (xs : Cells) → any_cell accepts xs ≡ true → Found accepts xs
find_split accepts [] some_cell = cc
find_split accepts ((a, d) ∷ xs) some_cell = elim (Bool-cases (accepts d)) [
  | inl hit ↦ record {
    front = [];
    p = a;
    d = d;
    back = xs;
    whole = refl;
    found = rw hit refl;
    erased = rw hit refl;
    accepted = hit;
  }
  | inr miss ↦
      let rest = find_split accepts xs (ground (arith, miss)) in
      record {
        front = (a, d) ∷ rest.front;
        p = rest.p;
        d = rest.d;
        back = rest.back;
        whole = ap (λ l. (a, d) ∷ l) rest.whole;
        found = rw miss rest.found;
        erased = rw miss (ap (λ l. (a, d) ∷ l) rest.erased);
        accepted = rest.accepted;
      }
]

not_found :
    (accepts : Ptr → Bool) (xs : Cells) → any_cell accepts xs ≡ false → find_cell accepts xs ≡ null
not_found accepts [] miss = refl
not_found accepts ((a, d) ∷ xs) miss = ground (arith, not_found accepts xs)

remove-Found :
    (h : Heap) (l : ListT) (accepts : Ptr → Bool) (xs : Cells)
    → IsList h l xs
    → l.custom_free ≢ null
    → (f : Found accepts xs)
    → (f.p ≢ null) × Returns (Removed h l xs f.p f.d (f.front ++ f.back)) (remove_node l f.p h)
remove-Found h l accepts xs is free_ne f = (
  (split_right h null f.front ((f.p, f.d) ∷ f.back) null split.chain).0,
  subst (λ ys. Returns (Removed h l ys f.p f.d (f.front ++ f.back)) (remove_node l f.p h))
      (sym f.whole) (remove_node_lem h l f.front f.back f.p f.d split free_ne),
)
  where
    split : IsList h l (f.front ++ (f.p, f.d) ∷ f.back)
    split = subst (λ ys. IsList h l ys) f.whole is

-- On a list of the nodes `xs`, with a key that is not NULL, list_remove_data returns E_FAILURE and
-- changes nothing if no data compares equal to the key.
pub remove_data_missing :
    (h : Heap) (l : ListT) (xs : Cells) (key : Ptr)
    → IsList h l xs
    → key ≢ null
    → any_cell (λ d. is_equal (l.compare_func key d)) xs ≡ false
    → remove_data (some l) key h ≡ ok ((failure, some l, []), h)
unfolding remove_data
remove_data_missing h l xs key is ne miss =
    rw
      (
        not_null key ne,
        (find-find_cell h l xs key is ne).0,
        not_found (λ d. is_equal (l.compare_func key d)) xs miss,
      )
      refl

-- On a list of the nodes `xs`, with a key and a callback that are not NULL, if some data compares
-- equal to the key, list_remove_data succeeds: it takes out the first such node, frees it, and hands
-- its data to the callback, once; the list is made of the other nodes, in order.
pub remove_data-erase_cell :
    (h : Heap) (l : ListT) (xs : Cells) (key : Ptr)
    → IsList h l xs
    → key ≢ null
    → l.custom_free ≢ null
    → any_cell (λ d. is_equal (l.compare_func key d)) xs ≡ true
    → let accepts = λ (d : Ptr). is_equal (l.compare_func key d) in
      (d : Ptr) × (accepts d ≡ true)
      × Returns
          (Removed h l xs (find_cell accepts xs) d (erase_cell accepts xs))
          (remove_data (some l) key h)
unfolding remove_data
remove_data-erase_cell h l xs key is ne free_ne some_cell =
    let accepts = λ (d : Ptr). is_equal (l.compare_func key d) in
    let f = find_split accepts xs some_cell in
    let (p_ne, removed) = remove-Found h l accepts xs is free_ne f in
    (
      f.d,
      f.accepted,
      rw
          (
            not_null key ne,
            (find-find_cell h l xs key is ne).0,
            f.found,
            f.erased,
            not_null f.p p_ne,
          )
          removed,
    )
