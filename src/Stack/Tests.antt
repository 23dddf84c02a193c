-- ===== src/Stack/Tests.antt =====
-- The theorems on the stack at a stack of two data with room for four.
use cmake_template.Prelude.{List, true, ◌∷◌, some, [], none, ◌≡◌, arith, refl}
use cmake_template.Core.{null, ok, success}
use cmake_template.Stack.{is_full, is_empty, Stack, push, pop}
use cmake_template.Stack.Slots.{Holds}
use cmake_template.Stack.Spec.{Op}
use cmake_template.Stack.Refine.{run, run_refines}
use cmake_template.Stack.Spec

abbrev two : Stack
two = record {
  capacity = 4;
  currentsz = 2;
  arr = some 7 ∷ some 9 ∷ none ∷ none ∷ [];
  customfree = 100;
}

two-Holds : Holds 4 100 two (9 ∷ 7 ∷ [])
two-Holds = record {
  capacity = refl;
  word = omega arith;
  count = refl;
  fits = omega arith;
  customfree = refl;
  cells = refl;
}

abbrev calls : List Op
calls =
    Op.push 5 true
    ∷ Op.push null true
    ∷ Op.peek
    ∷ Op.push 6 true
    ∷ Op.push 8 true
    ∷ Op.is_full
    ∷ Op.pop
    ∷ Op.pop
    ∷ Op.is_empty
    ∷ []

run_refines_example : run (some two) calls ≡ ok (Spec.run 4 (9 ∷ 7 ∷ []) calls)
run_refines_example = run_refines calls two-Holds

push_test :
    push (some two) 5 true
    ≡ ok (
      success,
      some (record {
        capacity = 4;
        currentsz = 3;
        arr = some 7 ∷ some 9 ∷ some 5 ∷ none ∷ [];
        customfree = 100;
      }),
    )
unfolding push is_full
push_test = refl

pop_test :
    pop (some two)
    ≡ ok (
      9,
      some (record {
        capacity = 4;
        currentsz = 1;
        arr = some 7 ∷ none ∷ none ∷ none ∷ [];
        customfree = 100;
      }),
    )
unfolding pop is_empty
pop_test = refl
