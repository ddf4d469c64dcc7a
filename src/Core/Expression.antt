-- ===== src/Core/Expression.antt =====
-- src/core/expression.{h,cpp}: the bytecode of expressions, its loader and its interpreter. The stack
-- is a list with its top first.
pub mod Finite
pub mod Trees
pub mod Slots
mod Tests
use nova_visualiser.Prelude.{
  ℕ, zero, suc, Bool, true, false, not, ◌&&◌, ◌||◌, Option, none, some, List, [], ◌∷◌, ◌++◌, Bytes,
  codes, bytes_eq, map, get_or, if◌then◌else◌, leb, ◌==◌,
}
use nova_visualiser.Prelude.Int.{ℤ, pos, negsuc, pos_part}
use nova_visualiser.Prelude.Maps.{Map, lookup}
use nova_visualiser.Core.Double.{
  Double, ◌⊕◌, ◌⊖◌, ◌⊗◌, ◌⊘◌, ◌≺◌, ◌≼◌, nought, one, fmax, fmin, truth,
}
use nova_visualiser.Core.Json.{Value, find, string}
use nova_visualiser.Core.Json.Access.{
  value_or, number_of, array_of, number_field, string_field, string_or,
}

-- `Instruction::Op`
pub data Op : Type 0 where
  constant load negate invert add sub mul div modulo pow lt lte gt gte eq neq both either call nop :
      Op

pub record Instruction (D : Type 0) : Type 0 where
  pub op : Op
  pub value : D
  pub key : Bytes
  pub fn : Bytes
  pub argc : ℤ

pub record Expression (D : Type 0) : Type 0 where
  pub source : Bytes
  pub code : List (Instruction D)

-- `opFor`: the first name that fits.
abbrev op_names : List (Bytes × Op)
op_names =
    (codes "const", constant)
    ∷ (codes "load", load)
    ∷ (codes "neg", negate)
    ∷ (codes "not", invert)
    ∷ (codes "add", add)
    ∷ (codes "sub", sub)
    ∷ (codes "mul", mul)
    ∷ (codes "div", div)
    ∷ (codes "mod", modulo)
    ∷ (codes "pow", pow)
    ∷ (codes "lt", lt)
    ∷ (codes "lte", lte)
    ∷ (codes "gt", gt)
    ∷ (codes "gte", gte)
    ∷ (codes "eq", eq)
    ∷ (codes "neq", neq)
    ∷ (codes "and", both)
    ∷ (codes "or", either)
    ∷ (codes "call", call)
    ∷ []

pub op_for : Bytes → Op
unfolding lookup value_or
op_for name = value_or (lookup name op_names) nop

module _ {D : Type 0} ⦃d : Double D⦄ where
  -- The body of the loop of `compile`.
  pub read_instruction : Value D → Instruction D
  unfolding op_for
  read_instruction item = record {
    op = elim (find (codes "op") item) [ none ↦ nop | some v ↦ op_for (string_or v []) ];
    value = number_field item (codes "value") nought;
    key = string_field item (codes "key") [];
    fn = string_field item (codes "fn") [];
    argc = d.to_int (number_field item (codes "argc") nought);
  }

  compile_parts : Option (Value D) → Option (Value D) → Option (Expression D)
  unfolding read_instruction
  compile_parts none code = none
  compile_parts (some source) none = none
  compile_parts (some source) (some code) = elim (array_of code) [
    | none ↦ none
    | some items ↦ some (record { source = string_or source []; code = map read_instruction items })
  ]

  -- `Expression::compile`; none is its return value false.
  pub compile : Value D → Option (Expression D)
  unfolding compile_parts
  compile v = compile_parts (find (codes "$expr") v) (find (codes "code") v)

  -- `pop`: an empty stack gives 0.
  pub pop : List D → D × List D
  pop [] = (nought, [])
  pop (x ∷ xs) = (x, xs)

  pub with_one : (D → D) → List D → List D
  unfolding pop
  with_one f stack = let (a, rest) = pop stack in f a ∷ rest

  -- `double b = pop(), a = pop()`
  pub with_two : (D → D → D) → List D → List D
  unfolding pop
  with_two f stack = let (b, below) = pop stack in let (a, rest) = pop below in f a b ∷ rest

  -- The loop that fills `args` from its back to its front.
  pub pop_args : ℕ → List D → List D → List D × List D
  unfolding pop
  pop_args zero args stack = (args, stack)
  pop_args (suc n) args stack = let (a, rest) = pop stack in pop_args n (a ∷ args) rest

  -- `std::fabs(b) < 0.000001`
  abbrev near_nought : D → Bool
  near_nought b = d.fabs b ≺ d.literal (codes "0.000001")

  -- `std::min_element` and `std::max_element`, from the first element on.
  pub least : D → List D → D
  least x [] = x
  least x (y ∷ ys) = least (if y ≺ x then y else x) ys

  pub greatest : D → List D → D
  greatest x [] = x
  greatest x (y ∷ ys) = greatest (if x ≺ y then y else x) ys

  abbrev smoothstep : D → D → D → D
  smoothstep a b c =
      let t = fmin (fmax ((c ⊖ a) ⊘ (b ⊖ a)) nought) one in
      if d.eq b a then nought else t ⊗ t ⊗ (d.literal (codes "3") ⊖ d.literal (codes "2") ⊗ t)

  abbrev noise : D → D → D → D
  noise a b c =
      let v =
        d.sin (
          a ⊗ d.literal (codes "12.9898")
          ⊕ b ⊗ d.literal (codes "78.233")
          ⊕ c ⊗ d.literal (codes "37.719"))
        ⊗ d.literal (codes "43758.5453") in
      v ⊖ d.floor v

  least_of : List D → D
  unfolding least
  least_of [] = nought
  least_of (x ∷ xs) = least x xs

  greatest_of : List D → D
  unfolding greatest
  greatest_of [] = nought
  greatest_of (x ∷ xs) = greatest x xs

  -- The chain of `Expression::call`, as a table from names to values.
  abbrev functions : D → D → D → List D → List (Bytes × D)
  functions a b c args =
      (codes "sin", d.sin a)
      ∷ (codes "cos", d.cos a)
      ∷ (codes "tan", d.tan a)
      ∷ (codes "abs", d.fabs a)
      ∷ (codes "sqrt", if nought ≼ a then d.sqrt a else nought)
      ∷ (codes "floor", d.floor a)
      ∷ (codes "ceil", d.ceil a)
      ∷ (codes "fract", a ⊖ d.floor a)
      ∷ (codes "exp", d.exp a)
      ∷ (codes "log", if nought ≺ a then d.log a else nought)
      ∷ (codes "min", least_of args)
      ∷ (codes "max", greatest_of args)
      ∷ (codes "pow", d.pow a b)
      ∷ (codes "clamp", fmin (fmax a b) c)
      ∷ (codes "mix", a ⊕ (b ⊖ a) ⊗ c)
      ∷ (codes "step", if b ≺ a then nought else one)
      ∷ (codes "smoothstep", smoothstep a b c)
      ∷ (codes "select", if d.eq a nought then c else b)
      ∷ (codes "noise", noise a b c)
      ∷ []

  pub call_function : Bytes → List D → D
  unfolding least_of greatest_of lookup value_or
  call_function name args =
      let a = get_or args 0 nought in
      value_or (lookup name (functions a (get_or args 1 nought) (get_or args 2 nought) args)) a

  -- `std::max(0, argc)`
  pub run_call : Bytes → ℤ → List D → List D
  unfolding pop_args call_function
  run_call fn argc stack =
      let (args, rest) = pop_args (pos_part argc) [] stack in call_function fn args ∷ rest

  -- The `switch` of `evaluate`.
  pub execute : Map D → Op → Instruction D → List D → List D
  unfolding with_one with_two run_call
  execute inputs constant i stack = i.value ∷ stack
  execute inputs load i stack = value_or (lookup i.key inputs) nought ∷ stack
  execute inputs negate i stack = with_one d.neg stack
  execute inputs invert i stack = with_one (λ a. truth (d.eq a nought)) stack
  execute inputs add i stack = with_two (λ a b. a ⊕ b) stack
  execute inputs sub i stack = with_two (λ a b. a ⊖ b) stack
  execute inputs mul i stack = with_two (λ a b. a ⊗ b) stack
  execute inputs div i stack = with_two (λ a b. if near_nought b then nought else a ⊘ b) stack
  execute inputs modulo i stack =
      with_two (λ a b. if near_nought b then nought else d.fmod a b) stack
  execute inputs pow i stack = with_two (λ a b. d.pow a b) stack
  execute inputs lt i stack = with_two (λ a b. truth (a ≺ b)) stack
  execute inputs lte i stack = with_two (λ a b. truth (a ≼ b)) stack
  execute inputs gt i stack = with_two (λ a b. truth (b ≺ a)) stack
  execute inputs gte i stack = with_two (λ a b. truth (b ≼ a)) stack
  execute inputs eq i stack = with_two (λ a b. truth (d.eq a b)) stack
  execute inputs neq i stack = with_two (λ a b. truth (not (d.eq a b))) stack
  execute inputs both i stack =
      with_two (λ a b. truth (not (d.eq a nought) && not (d.eq b nought))) stack
  execute inputs either i stack =
      with_two (λ a b. truth (not (d.eq a nought) || not (d.eq b nought))) stack
  execute inputs call i stack = run_call i.fn i.argc stack
  execute inputs nop i stack = stack

  abbrev pub cleaned : D → D
  cleaned x = if d.is_finite x then x else nought

  -- Behind the `switch`: a top that is not finite becomes 0.
  pub clean_top : List D → List D
  clean_top [] = []
  clean_top (x ∷ xs) = cleaned x ∷ xs

  pub run : Map D → List (Instruction D) → List D → List D
  unfolding execute clean_top
  run inputs [] stack = stack
  run inputs (i ∷ code) stack = run inputs code (clean_top (execute inputs i.op i stack))

  pub top_or_nought : List D → D
  top_or_nought [] = nought
  top_or_nought (x ∷ xs) = x

  -- `Expression::evaluate` on a compiled expression,
  pub evaluate : Map D → List (Instruction D) → D
  unfolding run top_or_nought
  evaluate inputs code = top_or_nought (run inputs code [])

  evaluate_compiled : Map D → D → Option (Expression D) → D
  unfolding evaluate
  evaluate_compiled inputs fallback none = fallback
  evaluate_compiled inputs fallback (some e) = evaluate inputs e.code

  evaluate_present : Map D → D → Value D → Option D → D
  unfolding compile evaluate_compiled
  evaluate_present inputs fallback v (some n) = n
  evaluate_present inputs fallback v none = evaluate_compiled inputs fallback (compile v)

  -- and on a value that may be a number, an expression or absent.
  pub evaluate_value : Option (Value D) → Map D → D → D
  unfolding evaluate_present
  evaluate_value none inputs fallback = fallback
  evaluate_value (some v) inputs fallback = evaluate_present inputs fallback v (number_of v)

-- `isIdentifierChar`
pub is_identifier_char : ℕ → Bool
is_identifier_char c =
    (leb b'a' c && leb c b'z')
    || (leb b'A' c && leb c b'Z')
    || (leb b'0' c && leb c b'9')
    || c == b'_'

-- The first loop of `paletteSlots`, with `current`.
pub split_parts : Bytes → Bytes → List Bytes
unfolding is_identifier_char
split_parts current [] = current ∷ []
split_parts current (c ∷ cs) = elim (is_identifier_char c) [
  | true ↦ split_parts (current ++ c ∷ []) cs
  | false ↦ current ∷ split_parts [] cs
]

-- A part that follows `palette`, unless it is empty.
slot_behind : Bytes → List Bytes → List Bytes
slot_behind part [] = []
slot_behind part ([] ∷ rest) = []
slot_behind part ((c ∷ cs) ∷ rest) = if bytes_eq part (codes "palette") then (c ∷ cs) ∷ [] else []

pub slots_of : List Bytes → List Bytes
unfolding slot_behind
slots_of [] = []
slots_of (part ∷ rest) = slot_behind part rest ++ slots_of rest

-- `paletteSlots`
pub palette_slots : Bytes → List Bytes
unfolding split_parts slots_of
palette_slots expression = slots_of (split_parts [] expression)
