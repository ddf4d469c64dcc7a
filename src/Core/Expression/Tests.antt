-- ===== src/Core/Expression/Tests.antt =====
-- Programs of the interpreter, and the theorems about it at concrete inputs.
use nova_visualiser.Prelude.{◌≡◌, refl, none, some, [], ◌∷◌, List, codes, bytes_eq, false}
use nova_visualiser.Prelude.Maps.{Map, lookup}
use nova_visualiser.Core.Double.Whole.{Whole, whole_double}
use nova_visualiser.Core.Json.Access.{value_or}
use nova_visualiser.Core.Expression.{
  add, load, Instruction, evaluate, run, execute, with_two, with_one, pop, clean_top, top_or_nought,
  palette_slots, is_identifier_char,
}
use nova_visualiser.Core.Expression.Finite.{IsFinite, evaluate-IsFinite}
use nova_visualiser.Core.Expression.Trees.{
  Tree, numeral, input, binary, times, plus, plain_instruction, code_of, tree_value,
  evaluate-code_of,
}
use nova_visualiser.Core.Expression.Slots.{IsSlot, print_slots, palette_slots-print_slots}

-- `bass` is not finite here.
abbrev inputs : Map Whole
inputs = (codes "energy", some 4) ∷ (codes "bass", none) ∷ []

-- bass + (nothing below it)
abbrev underflow : List (Instruction Whole)
underflow = record (plain_instruction load) { key = codes "bass" } ∷ plain_instruction add ∷ []

underflow-value : evaluate inputs underflow ≡ some 0
unfolding evaluate run execute with_two with_one pop clean_top top_or_nought lookup value_or
    bytes_eq
underflow-value = refl

evaluate-IsFinite_example : IsFinite (evaluate inputs underflow)
evaluate-IsFinite_example = evaluate-IsFinite refl inputs underflow

-- energy * 3 + 2
abbrev sample : Tree Whole
sample = binary plus (binary times (input (codes "energy")) (numeral (some 3))) (numeral (some 2))

evaluate-code_of_example : evaluate inputs (code_of sample) ≡ tree_value inputs sample
evaluate-code_of_example = evaluate-code_of inputs sample

sample-value : tree_value inputs sample ≡ some 14
unfolding tree_value lookup value_or bytes_eq
sample-value = refl

hi-IsSlot : IsSlot (codes "hi")
unfolding is_identifier_char bytes_eq
hi-IsSlot = ((refl, (refl, tt)), refl)

lo-IsSlot : IsSlot (codes "lo")
unfolding is_identifier_char bytes_eq
lo-IsSlot = ((refl, (refl, tt)), refl)

sum-separates : is_identifier_char b'+' ≡ false
unfolding is_identifier_char
sum-separates = refl

palette_slots-print_slots_example :
    palette_slots (print_slots (codes "hi" ∷ codes "lo" ∷ []) b'+') ≡ codes "hi" ∷ codes "lo" ∷ []
palette_slots-print_slots_example =
    palette_slots-print_slots (codes "hi" ∷ codes "lo" ∷ []) b'+' (hi-IsSlot, (lo-IsSlot, tt))
      sum-separates
