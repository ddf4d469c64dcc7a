-- ===== src/Core/Expression/Trees.antt =====
-- Expressions as trees, the bytecode of a tree, and the interpreter of src/core/expression.cpp on it.
use nova_visualiser.Prelude.{
  ◌≡◌, refl, ap, ◌∙◌, not, ◌&&◌, ◌||◌, List, [], ◌∷◌, ◌++◌, ℕ, zero, suc, Bytes, if◌then◌else◌,
  append-nil,
}
use nova_visualiser.Prelude.Int.{pos}
use nova_visualiser.Prelude.Maps.{Map, lookup}
use nova_visualiser.Core.Double.{Double, ◌⊕◌, ◌⊖◌, ◌⊗◌, ◌⊘◌, ◌≺◌, ◌≼◌, nought, truth}
use nova_visualiser.Core.Json.Access.{value_or}
use nova_visualiser.Core.Expression.{
  Op, constant, load, negate, invert, add, sub, mul, div, modulo, pow, lt, lte, gt, gte, eq, neq,
  both, either, call, Instruction, pop, with_one, with_two, pop_args, call_function, run_call,
  execute, near_nought, cleaned, clean_top, run, top_or_nought, evaluate,
}

pub data Unary : Type 0 where
  minus logical_not : Unary

pub data Binary : Type 0 where
  plus less times over rest power below at_most above at_least equal differ and_also or_else :
      Binary

mutual
  pub data Tree (D : Type 0) : Type 0 where
    numeral : D → Tree D
    input : Bytes → Tree D
    unary : Unary → Tree D → Tree D
    binary : Binary → Tree D → Tree D → Tree D
    apply : Bytes → Trees D → Tree D

  pub data Trees (D : Type 0) : Type 0 where
    none_left : Trees D
    and_then : Tree D → Trees D → Trees D

abbrev pub unary_op : Unary → Op
unary_op minus = negate
unary_op logical_not = invert

abbrev pub binary_op : Binary → Op
binary_op plus = add
binary_op less = sub
binary_op times = mul
binary_op over = div
binary_op rest = modulo
binary_op power = pow
binary_op below = lt
binary_op at_most = lte
binary_op above = gt
binary_op at_least = gte
binary_op equal = eq
binary_op differ = neq
binary_op and_also = both
binary_op or_else = either

abbrev pub count_trees : {D : Type 0} → Trees D → ℕ
count_trees none_left = 0
count_trees (and_then t ts) = suc (count_trees ts)

module _ {D : Type 0} ⦃d : Double D⦄ where
  abbrev pub plain_instruction : Op → Instruction D
  plain_instruction op = record { op = op; value = nought; key = []; fn = []; argc = pos 0 }

  -- The code of a tree: its operands in their order, and its operation.
  mutual
    pub code_of : Tree D → List (Instruction D)
    code_of (numeral x) = record (plain_instruction constant) { value = x } ∷ []
    code_of (input k) = record (plain_instruction load) { key = k } ∷ []
    code_of (unary u t) = code_of t ++ plain_instruction (unary_op u) ∷ []
    code_of (binary b s t) = code_of s ++ (code_of t ++ plain_instruction (binary_op b) ∷ [])
    code_of (apply fn ts) =
        codes_of ts ++ record (plain_instruction call) { fn = fn; argc = pos (count_trees ts) } ∷ []

    pub codes_of : Trees D → List (Instruction D)
    codes_of none_left = []
    codes_of (and_then t ts) = code_of t ++ codes_of ts

  abbrev pub unary_value : Unary → D → D
  unary_value minus a = d.neg a
  unary_value logical_not a = truth (d.eq a nought)

  abbrev pub binary_value : Binary → D → D → D
  binary_value plus a b = a ⊕ b
  binary_value less a b = a ⊖ b
  binary_value times a b = a ⊗ b
  binary_value over a b = if near_nought b then nought else a ⊘ b
  binary_value rest a b = if near_nought b then nought else d.fmod a b
  binary_value power a b = d.pow a b
  binary_value below a b = truth (a ≺ b)
  binary_value at_most a b = truth (a ≼ b)
  binary_value above a b = truth (b ≺ a)
  binary_value at_least a b = truth (b ≼ a)
  binary_value equal a b = truth (d.eq a b)
  binary_value differ a b = truth (not (d.eq a b))
  binary_value and_also a b = truth (not (d.eq a nought) && not (d.eq b nought))
  binary_value or_else a b = truth (not (d.eq a nought) || not (d.eq b nought))

  module _ (inputs : Map D) where
    -- The value of a tree, in which every result that is not finite counts as 0.
    unfoldable mutual
      pub tree_value : Tree D → D
      tree_value (numeral x) = cleaned x
      tree_value (input k) = cleaned (value_or (lookup k inputs) nought)
      tree_value (unary u t) = cleaned (unary_value u (tree_value t))
      tree_value (binary b s t) = cleaned (binary_value b (tree_value s) (tree_value t))
      tree_value (apply fn ts) = cleaned (call_function fn (tree_values ts))

      pub tree_values : Trees D → List D
      tree_values none_left = []
      tree_values (and_then t ts) = tree_value t ∷ tree_values ts

    run-append :
        (xs ys : List (Instruction D)) (s : List D)
        → run inputs (xs ++ ys) s ≡ run inputs ys (run inputs xs s)
    unfolding run
    run-append [] ys s = refl
    run-append (i ∷ xs) ys s = run-append xs ys (clean_top (execute inputs i.op i s))

    pop_args_last :
        (n : ℕ) (args s : List D)
        → pop_args (suc n) args s ≡ pop_args (suc zero) (pop_args n args s).0 (pop_args n args s).1
    unfolding pop_args
    pop_args_last zero args s = refl
    pop_args_last (suc n) args s = pop_args_last n ((pop s).0 ∷ args) (pop s).1

    abbrev onto : List D → List D → List D
    onto [] s = s
    onto (v ∷ vs) s = onto vs (v ∷ s)

    -- Arguments that were pushed in their order are popped into their order.
    pop_args-onto :
        (ts : Trees D) (args s : List D)
        → pop_args (count_trees ts) args (onto (tree_values ts) s) ≡ (tree_values ts ++ args, s)
    unfolding pop_args tree_value
    pop_args-onto none_left args s = refl
    pop_args-onto (and_then t ts) args s =
        pop_args_last (count_trees ts) args (onto (tree_values ts) (tree_value t ∷ s))
        ∙ ap (λ r. pop_args (suc zero) r.0 r.1) (pop_args-onto ts args (tree_value t ∷ s))
        ∙ unfold pop in refl

    run_unary :
        (u : Unary) (v : D) (s : List D)
        → run inputs (plain_instruction (unary_op u) ∷ []) (v ∷ s) ≡ cleaned (unary_value u v) ∷ s
    unfolding run execute with_one pop clean_top
    run_unary minus v s = refl
    run_unary logical_not v s = refl

    run_binary :
        (b : Binary) (v w : D) (s : List D)
        → run inputs (plain_instruction (binary_op b) ∷ []) (w ∷ v ∷ s)
          ≡ cleaned (binary_value b v w) ∷ s
    unfolding run execute with_two pop clean_top
    run_binary plus v w s = refl
    run_binary less v w s = refl
    run_binary times v w s = refl
    run_binary over v w s = refl
    run_binary rest v w s = refl
    run_binary power v w s = refl
    run_binary below v w s = refl
    run_binary at_most v w s = refl
    run_binary above v w s = refl
    run_binary at_least v w s = refl
    run_binary equal v w s = refl
    run_binary differ v w s = refl
    run_binary and_also v w s = refl
    run_binary or_else v w s = refl

    abbrev call_instruction : Bytes → Trees D → Instruction D
    call_instruction fn ts = record (plain_instruction call) {
      fn = fn;
      argc = pos (count_trees ts);
    }

    run_apply :
        (fn : Bytes) (ts : Trees D) (s : List D)
        → run inputs (call_instruction fn ts ∷ []) (onto (tree_values ts) s)
          ≡ cleaned (call_function fn (tree_values ts)) ∷ s
    unfolding run execute run_call clean_top
    run_apply fn ts s =
        ap (λ r. cleaned (call_function fn r.0) ∷ r.1) (pop_args-onto ts [] s)
        ∙ ap (λ vs. cleaned (call_function fn vs) ∷ s) (append-nil (tree_values ts))

    run_numeral :
        (x : D) (s : List D)
        → run inputs (record (plain_instruction constant) { value = x } ∷ []) s ≡ cleaned x ∷ s
    unfolding run execute clean_top
    run_numeral x s = refl

    run_input :
        (k : Bytes) (s : List D)
        → run inputs (record (plain_instruction load) { key = k } ∷ []) s
          ≡ cleaned (value_or (lookup k inputs) nought) ∷ s
    unfolding run execute clean_top
    run_input k s = refl

    run_none : (s : List D) → run inputs [] s ≡ s
    unfolding run
    run_none s = refl

    mutual
      unfolding code_of tree_value

      run-code_of : (t : Tree D) (s : List D) → run inputs (code_of t) s ≡ tree_value t ∷ s
      run-code_of (numeral x) s = run_numeral x s
      run-code_of (input k) s = run_input k s
      run-code_of (unary u t) s =
          run-append (code_of t) (plain_instruction (unary_op u) ∷ []) s
          ∙ ap (run inputs (plain_instruction (unary_op u) ∷ [])) (run-code_of t s)
          ∙ run_unary u (tree_value t) s
      run-code_of (binary b l r) s =
          run-append (code_of l) (code_of r ++ plain_instruction (binary_op b) ∷ []) s
          ∙ ap (run inputs (code_of r ++ plain_instruction (binary_op b) ∷ [])) (run-code_of l s)
          ∙ run-append (code_of r) (plain_instruction (binary_op b) ∷ []) (tree_value l ∷ s)
          ∙ ap (run inputs (plain_instruction (binary_op b) ∷ []))
              (run-code_of r (tree_value l ∷ s))
          ∙ run_binary b (tree_value l) (tree_value r) s
      run-code_of (apply fn ts) s =
          run-append (codes_of ts) (call_instruction fn ts ∷ []) s
          ∙ ap (run inputs (call_instruction fn ts ∷ [])) (run-codes_of ts s)
          ∙ run_apply fn ts s

      run-codes_of :
          (ts : Trees D) (s : List D) → run inputs (codes_of ts) s ≡ onto (tree_values ts) s
      run-codes_of none_left s = run_none s
      run-codes_of (and_then t ts) s =
          run-append (code_of t) (codes_of ts) s
          ∙ ap (run inputs (codes_of ts)) (run-code_of t s)
          ∙ run-codes_of ts (tree_value t ∷ s)

    -- The bytecode of an expression tree evaluates to the value of the tree: the operands of every
    -- operation and the arguments of every call arrive in their order, on the whole stack language.
    pub evaluate-code_of : (t : Tree D) → evaluate inputs (code_of t) ≡ tree_value t
    unfolding evaluate
    evaluate-code_of t = ap top_or_nought (run-code_of t []) ∙ unfold top_or_nought in refl
