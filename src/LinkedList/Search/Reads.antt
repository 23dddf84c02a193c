-- ===== src/LinkedList/Search/Reads.antt =====
-- list_is_empty, the list_peek functions and list_foreach_call, against the list of data.
use cmake_template.Prelude.{
  ℕ, zero, suc, ◌≡◌, ◌≢◌, ◌<◌, refl, ap, false, some, [], ◌∷◌, arith, ◌==◌, length, Bool-cases,
  drop, ◌≤◌, leb, inl, inr, if◌then◌else◌, if_same,
}
use cmake_template.Core.{Ptr, null, success, failure, ok, not_null}
use cmake_template.LinkedList.Memory.{Heap, pure, ◌>>=◌, load, load_lem, Cmd}
use cmake_template.LinkedList.Seg.{Cells, first, last, Seg}
use cmake_template.LinkedList.Header.{ListT, IsList}
use cmake_template.LinkedList.Push.{walk}
use cmake_template.LinkedList.Clear.Laws.{payloads}
use cmake_template.LinkedList.Search.{
  is_empty, peek_head, peek_tail, peek_position, foreach_loop, foreach_call,
}

-- `n` steps from the first node lead to the node at `n`.
pub walk-first :
    (h : Heap) (n : ℕ) (prev : Ptr) (xs : Cells)
    → Seg h prev xs null
    → n < length xs
    → walk n (first xs null) h ≡ ok (first (drop n xs) null, h)
unfolding walk
walk-first h zero prev xs s lt = refl
walk-first h (suc n) prev [] s lt = absurd (omega arith)
walk-first h (suc n) prev ((a, d) ∷ xs) (ne, e, out, s) lt =
    rw (load_lem h ne e) (walk-first h n a xs s (omega arith))

-- The data at an index, NULL out of range.
abbrev pub payload_at : Cells → ℕ → Ptr
payload_at [] n = null
payload_at ((a, d) ∷ xs) zero = d
payload_at ((a, d) ∷ xs) (suc n) = payload_at xs n

load_payload :
    (h : Heap) (n : ℕ) (prev : Ptr) (xs : Cells)
    → Seg h prev xs null
    → n < length xs
    → (do c ← load (first (drop n xs) null); pure c.payload) h ≡ ok (payload_at xs n, h)
load_payload h n prev [] s lt = absurd (omega arith)
load_payload h zero prev ((a, d) ∷ xs) (ne, e, out, s) lt = rw (load_lem h ne e) refl
load_payload h (suc n) prev ((a, d) ∷ xs) (ne, e, out, s) lt = load_payload h n a xs s (omega arith)

payload_at-out : (xs : Cells) (n : ℕ) → length xs ≤ n → payload_at xs n ≡ null
payload_at-out [] n h = refl
payload_at-out ((a, d) ∷ xs) zero h = absurd (omega arith)
payload_at-out ((a, d) ∷ xs) (suc n) h = payload_at-out xs n (omega arith)

-- On a list of the nodes `xs` list_peek_position returns the data of the node at the position, and
-- NULL at a position out of range; it changes nothing.
pub peek_position-payload_at :
    (h : Heap) (l : ListT) (xs : Cells) (position : ℕ)
    → IsList h l xs
    → peek_position (some l) position h ≡ ok (payload_at xs position, h)
unfolding peek_position
peek_position-payload_at h l xs position is = elim (Bool-cases (leb (length xs) position)) [
  | inl out ↦
      let none_there : payload_at xs position ≡ null = payload_at-out xs position (ground arith) in
      rw (is.size, out, none_there)
        (ap (λ (c : Cmd Ptr). c h) (if_same (0 == length xs) (pure null)))
  | inr inside ↦
      let lt : position < length xs = ground arith in
      let some_node : (0 == length xs) ≡ false = ground arith in
      rw (is.size, some_node, inside, is.head, walk-first h position null xs is.chain lt)
        (load_payload h position null xs is.chain lt)
]

foreach_loop-payloads :
    (h : Heap) (prev : Ptr) (xs : Cells)
    → Seg h prev xs null
    → foreach_loop (length xs) (first xs null) h ≡ ok (payloads xs, h)
unfolding foreach_loop
foreach_loop-payloads h prev [] s = refl
foreach_loop-payloads h prev ((a, d) ∷ xs) (ne, e, out, s) =
    rw (load_lem h ne e, foreach_loop-payloads h a xs s) refl

-- On a list of the nodes `xs`, with an action that is not NULL, list_foreach_call succeeds, and
-- calls the action on the data of each node once, in order; the list is unchanged.
pub foreach_call-payloads :
    (h : Heap) (l : ListT) (xs : Cells) (action : Ptr)
    → IsList h l xs
    → action ≢ null
    → foreach_call (some l) action h ≡ ok ((success, payloads xs), h)
unfolding foreach_call
foreach_call-payloads h l xs action is ne =
    rw (not_null action ne, is.size, is.head, foreach_loop-payloads h null xs is.chain) refl

-- The data of the last node, NULL if there is none.
abbrev pub last_payload : Cells → Ptr
last_payload [] = null
last_payload ((a, d) ∷ []) = d
last_payload ((a, d) ∷ (b, c) ∷ xs) = last_payload ((b, c) ∷ xs)

load-last :
    (h : Heap) (prev a d : Ptr) (xs : Cells)
    → Seg h prev ((a, d) ∷ xs) null
    → ((last a xs == null) ≡ false)
      × ((do c ← load (last a xs); pure c.payload) h ≡ ok (last_payload ((a, d) ∷ xs), h))
load-last h prev a d [] (ne, e, out, s) = (not_null a ne, rw (load_lem h ne e) refl)
load-last h prev a d ((b, c) ∷ xs) (ne, e, out, s) = load-last h a b c xs s

-- On a list of the nodes `xs` list_is_empty returns E_SUCCESS exactly if there are none,
-- list_peek_head and list_peek_tail return the data of the first and of the last node, or NULL if
-- there are none, and both change nothing.
pub peek_ends :
    (h : Heap) (l : ListT) (xs : Cells)
    → IsList h l xs
    → (is_empty (some l) ≡ (if length xs == 0 then success else failure))
      × (peek_head (some l) h ≡ ok (payload_at xs 0, h))
      × (peek_tail (some l) h ≡ ok (last_payload xs, h))
unfolding is_empty peek_head peek_tail
peek_ends h l [] is = (rw is.size refl, rw is.head refl, rw is.tail refl)
peek_ends h l ((a, d) ∷ xs) is =
    let (ne, e, out, s) = is.chain in
    let (some_tail, tail_read) = load-last h null a d xs is.chain in
    (
      rw is.size (ground arith),
      rw (is.head, not_null a ne, load_lem h ne e) refl,
      rw (is.tail, some_tail) tail_read,
    )
