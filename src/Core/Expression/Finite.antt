-- ===== src/Core/Expression/Finite.antt =====
-- The values on the stack of the interpreter of src/core/expression.cpp.
use nova_visualiser.Prelude.{
  ◌≡◌, true, List, [], ◌∷◌, ℕ, zero, suc, Bytes, Bool-cases, inl, inr, All,
}
use nova_visualiser.Prelude.Int.{ℤ, pos_part}
use nova_visualiser.Prelude.Maps.{Map}
use nova_visualiser.Core.Double.{Double, nought}
use nova_visualiser.Core.Expression.{
  Op, constant, load, negate, invert, add, sub, mul, div, modulo, pow, lt, lte, gt, gte, eq, neq,
  both, either, call, nop, Instruction, pop, with_one, with_two, pop_args, run_call, execute,
  cleaned, clean_top, run, top_or_nought, evaluate,
}

module _ {D : Type 0} ⦃d : Double D⦄ where
  abbrev pub IsFinite : D → Type 0
  IsFinite x = d.is_finite x ≡ true

  -- All below the top is finite.
  abbrev BelowTop : List D → Type 0
  BelowTop [] = Unit {0}
  BelowTop (x ∷ xs) = All IsFinite xs

  module _ (finite_nought : d.is_finite nought ≡ true) where
    cleaned-Finite : (x : D) → IsFinite (cleaned x)
    cleaned-Finite x = elim (Bool-cases (d.is_finite x)) [
      | inl e ↦ rw e e
      | inr e ↦ rw e finite_nought
    ]

    clean_top-All : (s : List D) → BelowTop s → All IsFinite (clean_top s)
    unfolding clean_top
    clean_top-All [] h = tt
    clean_top-All (x ∷ xs) h = (cleaned-Finite x, h)

    pop-All : (s : List D) → All IsFinite s → All IsFinite (pop s).1
    unfolding pop
    pop-All [] h = tt
    pop-All (x ∷ xs) h = h.1

    pop_args-All : (n : ℕ) (args s : List D) → All IsFinite s → All IsFinite (pop_args n args s).1
    unfolding pop_args
    pop_args-All zero args s h = h
    pop_args-All (suc n) args s h = pop_args-All n ((pop s).0 ∷ args) (pop s).1 (pop-All s h)

    -- Two values are popped.
    pop_two-All : (s : List D) → All IsFinite s → All IsFinite (pop (pop s).1).1
    pop_two-All s h = pop-All (pop s).1 (pop-All s h)

    run_call-BelowTop :
        (fn : Bytes) (argc : ℤ) (s : List D) → All IsFinite s → BelowTop (run_call fn argc s)
    unfolding run_call
    run_call-BelowTop fn argc s h = pop_args-All (pos_part argc) [] s h

    tail-BelowTop : (s : List D) → All IsFinite s → BelowTop s
    tail-BelowTop [] h = tt
    tail-BelowTop (x ∷ xs) h = h.1

    execute-BelowTop :
        (inputs : Map D) (op : Op) (i : Instruction D) (s : List D)
        → All IsFinite s
        → BelowTop (execute inputs op i s)
    unfolding execute with_one with_two
    execute-BelowTop inputs constant i s h = h
    execute-BelowTop inputs load i s h = h
    execute-BelowTop inputs negate i s h = pop-All s h
    execute-BelowTop inputs invert i s h = pop-All s h
    execute-BelowTop inputs add i s h = pop_two-All s h
    execute-BelowTop inputs sub i s h = pop_two-All s h
    execute-BelowTop inputs mul i s h = pop_two-All s h
    execute-BelowTop inputs div i s h = pop_two-All s h
    execute-BelowTop inputs modulo i s h = pop_two-All s h
    execute-BelowTop inputs pow i s h = pop_two-All s h
    execute-BelowTop inputs lt i s h = pop_two-All s h
    execute-BelowTop inputs lte i s h = pop_two-All s h
    execute-BelowTop inputs gt i s h = pop_two-All s h
    execute-BelowTop inputs gte i s h = pop_two-All s h
    execute-BelowTop inputs eq i s h = pop_two-All s h
    execute-BelowTop inputs neq i s h = pop_two-All s h
    execute-BelowTop inputs both i s h = pop_two-All s h
    execute-BelowTop inputs either i s h = pop_two-All s h
    execute-BelowTop inputs call i s h = run_call-BelowTop i.fn i.argc s h
    execute-BelowTop inputs nop i s h = tail-BelowTop s h

    run-All :
        (inputs : Map D) (code : List (Instruction D)) (s : List D)
        → All IsFinite s
        → All IsFinite (run inputs code s)
    unfolding run
    run-All inputs [] s h = h
    run-All inputs (i ∷ code) s h =
        run-All inputs code (clean_top (execute inputs i.op i s))
          (clean_top-All (execute inputs i.op i s) (execute-BelowTop inputs i.op i s h))

    top-Finite : (s : List D) → All IsFinite s → IsFinite (top_or_nought s)
    unfolding top_or_nought
    top-Finite [] h = finite_nought
    top-Finite (x ∷ xs) h = h.0

    -- For doubles whose 0 is finite, and whatever else they compute: the value of every program on
    -- every input is finite, also of a program that pops from an empty stack or calls a function that
    -- does not exist, and from inputs or constants that are not finite themselves.
    pub evaluate-IsFinite :
        (inputs : Map D) (code : List (Instruction D)) → IsFinite (evaluate inputs code)
    unfolding evaluate
    evaluate-IsFinite inputs code = top-Finite (run inputs code []) (run-All inputs code [] tt)
