-- ===== src/Vector/New.antt =====
-- vector_new.
use cmake_template.Prelude.{
  ℕ, true, ◌≤◌, ◌<◌, ◌≡◌, refl, some, [], arith, length, pos, ◌≢◌, true, replicate,
  length-replicate,
}
use cmake_template.Core.{Ptr, null, CmpF, not_null}
use cmake_template.Vector.{Vector, Cell, new, calloc, int_max}
use cmake_template.Vector.Layout.{Holds}

-- The vector that vector_new makes for `n` elements.
abbrev pub fresh : Ptr → CmpF → ℕ → Vector
fresh f cmp n = record {
  elements = replicate n (some null);
  size = pos 0;
  capacity = length (replicate {A = Cell} n (some null));
  custom_free = f;
  compare_func = cmp;
}

pub fresh-Holds : (f : Ptr) (cmp : CmpF) (n : ℕ) → 0 < n → n ≤ int_max → Holds (fresh f cmp n) []
fresh-Holds f cmp n some_room bound = (
  replicate n (some null),
  record {
    cells = refl;
    size = refl;
    capacity = omega arith;
    positive = omega (arith, length-replicate {A = Cell} n (some null));
    bound = omega (arith, length-replicate {A = Cell} n (some null));
  },
)

pub new_lem :
    (f : Ptr) (cmp : CmpF) (n : ℕ)
    → f ≢ null
    → new f (some cmp) (pos n) true true ≡ some (fresh f cmp n)
unfolding new calloc
new_lem f cmp n ne = rw (not_null f ne) refl

-- With a callback and a comparison function that are not NULL, its allocations granted, and a
-- capacity that an int holds and that is not 0, vector_new makes a vector that holds nothing, with
-- that capacity and those functions.
pub new-Holds :
    (f : Ptr) (cmp : CmpF) (n : ℕ)
    → f ≢ null
    → 0 < n
    → n ≤ int_max
    → (v : Vector) × (new f (some cmp) (pos n) true true ≡ some v)
      × Holds v []
      × (v.capacity ≡ n)
      × (v.custom_free ≡ f)
      × (v.compare_func ≡ cmp)
new-Holds f cmp n ne some_room bound = (
  fresh f cmp n,
  new_lem f cmp n ne,
  fresh-Holds f cmp n some_room bound,
  length-replicate {A = Cell} n (some null),
  refl,
  refl,
)
