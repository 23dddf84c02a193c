-- ===== src/LinkedList/Seg.antt =====
-- Segments of doubly linked nodes.
use cmake_template.Prelude.{
  ◌≡◌, ◌≢◌, Bool, true, false, ◌||◌, Option, none, some, List, [], ◌∷◌, ◌++◌, arith, ◌==◌, ◌∙◌,
  refl,
}
use cmake_template.Core.{Ptr, null}
use cmake_template.LinkedList.Memory.{Node, node, Heap, write}

-- The nodes of a segment in order, each with its address and its data.
abbrev pub Cells : Type 0
Cells = List (Ptr × Ptr)

abbrev pub has : Ptr → Cells → Bool
has a [] = false
has a ((b, d) ∷ xs) = (a == b) || has a xs

-- Where the segment starts and ends, with the addresses outside it.
abbrev pub first : Cells → Ptr → Ptr
first [] stop = stop
first ((a, d) ∷ xs) stop = a

abbrev pub last : Ptr → Cells → Ptr
last prev [] = prev
last prev ((a, d) ∷ xs) = last a xs

-- `xs` are nodes at distinct addresses, each linked to the one before and the one behind it; the
-- first is linked back to `prev`, and the last on to `stop`.
abbrev pub Seg : Heap → Ptr → Cells → Ptr → Type 0
Seg h prev [] stop = Unit
Seg h prev ((a, d) ∷ xs) stop =
    (a ≢ null) × (h a ≡ some (node d prev (first xs stop))) × (has a xs ≡ false) × Seg h a xs stop

-- `g` differs from `h` at the addresses of `xs` at most.
abbrev pub SameOutside : Cells → Heap → Heap → Type 0
SameOutside xs h g = (a : Ptr) → has a xs ≡ false → g a ≡ h a

pub has-append : (a : Ptr) (xs ys : Cells) → has a (xs ++ ys) ≡ (has a xs || has a ys)
has-append a [] ys = refl
has-append a ((b, d) ∷ xs) ys = ground (arith, has-append a xs ys)

-- What is outside two segments together is outside each.
pub not-has_append :
    (a : Ptr) (xs ys : Cells) → has a (xs ++ ys) ≡ false → (has a xs ≡ false) × (has a ys ≡ false)
not-has_append a xs ys o = ground (arith, has-append a xs ys)

pub has-snoc : (a d : Ptr) (xs : Cells) → has a (xs ++ (a, d) ∷ []) ≡ true
has-snoc a d [] = ground arith
has-snoc a d ((b, c) ∷ xs) = ground (arith, has-snoc a d xs)

-- A segment survives a change that spares its nodes.
pub frame :
    (h g : Heap) (prev : Ptr) (xs : Cells) (stop : Ptr)
    → Seg h prev xs stop
    → ((a : Ptr) → has a xs ≡ true → g a ≡ h a)
    → Seg g prev xs stop
frame h g prev [] stop s same = tt
frame h g prev ((a, d) ∷ xs) stop (ne, e, out, s) same =
    (ne, same a (ground arith) ∙ e, out, frame h g a xs stop s (λ b i. same b (ground arith)))

pub frame-write :
    (h : Heap) (prev : Ptr) (xs : Cells) (stop p : Ptr) (c : Option Node)
    → Seg h prev xs stop
    → has p xs ≡ false
    → Seg (write h p c) prev xs stop
frame-write h prev xs stop p c s out = frame h (write h p c) prev xs stop s (λ a i. ground arith)

-- A free address is in no segment.
pub not-has_of_none :
    (h : Heap) (p prev : Ptr) (xs : Cells) (stop : Ptr)
    → Seg h prev xs stop
    → h p ≡ none
    → has p xs ≡ false
not-has_of_none h p prev [] stop s unused = refl
not-has_of_none h p prev ((a, d) ∷ xs) stop (ne, e, out, s) unused =
    ground (arith, not-has_of_none h p a xs stop s unused)

pub last-append : (prev : Ptr) (xs ys : Cells) → last prev (xs ++ ys) ≡ last (last prev xs) ys
last-append prev [] ys = refl
last-append prev ((a, d) ∷ xs) ys = last-append a xs ys

pub first-append : (xs ys : Cells) (stop : Ptr) → first (xs ++ ys) stop ≡ first xs (first ys stop)
first-append [] ys stop = refl
first-append ((a, d) ∷ xs) ys stop = refl

-- Two segments that share no node join.
pub append :
    (h : Heap) (prev : Ptr) (xs ys : Cells) (stop : Ptr)
    → Seg h prev xs (first ys stop)
    → Seg h (last prev xs) ys stop
    → ((a : Ptr) → has a xs ≡ true → has a ys ≡ false)
    → Seg h prev (xs ++ ys) stop
append h prev [] ys stop s t apart = t
append h prev ((a, d) ∷ xs) ys stop (ne, e, out, s) t apart = (
  ne,
  rw (first-append xs ys stop) e,
  rw (has-append a xs ys, out) (apart a (ground arith)),
  append h a xs ys stop s t (λ b i. apart b (ground arith)),
)

-- The parts of a joined segment.
pub split_left :
    (h : Heap) (prev : Ptr) (xs ys : Cells) (stop : Ptr)
    → Seg h prev (xs ++ ys) stop
    → Seg h prev xs (first ys stop)
split_left h prev [] ys stop s = tt
split_left h prev ((a, d) ∷ xs) ys stop (ne, e, out, s) = (
  ne,
  rw (first-append xs ys stop) at e,
  ground (arith, has-append a xs ys),
  split_left h a xs ys stop s,
)

pub split_right :
    (h : Heap) (prev : Ptr) (xs ys : Cells) (stop : Ptr)
    → Seg h prev (xs ++ ys) stop
    → Seg h (last prev xs) ys stop
split_right h prev [] ys stop s = s
split_right h prev ((a, d) ∷ xs) ys stop (ne, e, out, s) = split_right h a xs ys stop s

pub split_apart :
    (h : Heap) (prev : Ptr) (xs ys : Cells) (stop : Ptr)
    → Seg h prev (xs ++ ys) stop
    → (b : Ptr) → has b xs ≡ true
    → has b ys ≡ false
split_apart h prev [] ys stop s b i = cc
split_apart h prev ((a, d) ∷ xs) ys stop (ne, e, out, s) b i =
    ground (arith, has-append a xs ys, split_apart h a xs ys stop s b)

-- The last node of a segment, and what the segment becomes when it is linked on to another address.
pub record End (h : Heap) (prev b c : Ptr) (ys : Cells) : Type 0 where
  pub end : Node
  pub holds : h (last b ys) ≡ some end
  pub ne_null : last b ys ≢ null
  pub inside : has (last b ys) ((b, c) ∷ ys) ≡ true
  pub relinked :
      (q : Ptr) → Seg (write h (last b ys) (some (record end { next = q }))) prev ((b, c) ∷ ys) q

End-cons :
    (h : Heap) (prev b c b' c' : Ptr) (zs : Cells)
    → b ≢ null
    → h b ≡ some (node c prev b')
    → has b ((b', c') ∷ zs) ≡ false
    → End h b b' c' zs
    → End h prev b c ((b', c') ∷ zs)
End-cons h prev b c b' c' zs ne e out rest = record {
  end = rest.end;
  holds = rest.holds;
  ne_null = rest.ne_null;
  inside = ground (arith, rest.inside);
  relinked = λ q. (ne, ground (arith, rest.inside), out, rest.relinked q);
}

pub End-of :
    (h : Heap) (prev b c : Ptr) (ys : Cells) (stop : Ptr)
    → Seg h prev ((b, c) ∷ ys) stop
    → End h prev b c ys
End-of h prev b c [] stop (ne, e, out, s) = record {
  end = node c prev stop;
  holds = e;
  ne_null = ne;
  inside = ground arith;
  relinked = λ q. (ne, ground arith, refl, tt);
}
End-of h prev b c ((b', c') ∷ zs) stop (ne, e, out, s) =
    End-cons h prev b c b' c' zs ne e out (End-of h b b' c' zs stop s)
