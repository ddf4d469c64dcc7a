-- ===== src/Core/Json/RoundTrip.antt =====
-- `Value::parse` on the text of `Value::dump`, of src/core/json.cpp.
pub mod Values
pub mod Keys
pub mod Scalars
pub mod Steps
pub mod Reading
pub mod Rounds
use nova_visualiser.Prelude.{
  ℕ, zero, suc, ◌+◌, ◌*◌, ◌≤◌, ◌<◌, ◌≡◌, refl, sym, ap, ◌∙◌, Bool, true, false, ◌&&◌, Option, none,
  some, List, [], ◌∷◌, ◌++◌, append_assoc, append-nil, length, length-append, arith, Bool-cases,
  inl, inr, ◌==◌, Bytes, codes, if◌then◌else◌,
}
use nova_visualiser.Core.Json.{
  NumberText, Value, null, boolean, number, string, array, object, Items, nil, cons, Fields, end,
  field, emplace, to_items, of_items,
}
use nova_visualiser.Core.Json.Parser.{
  is_number_char, Parser, took, kept, skip, skip_spaces, eat, consume, parse_string, parse_scalar,
  true_or_more, false_or_more, null_or_number, after_word, string_value, close_array, next_item,
  after_item, close_object, next_member, after_member, member_value, after_key, open_array,
  open_object, value_at, Result, parse_value, parse_items, parse_members, outcome, parse,
}
use nova_visualiser.Core.Json.Printer.{dump, dump_items, dump_fields, print_number, quoted, escape}
use nova_visualiser.Core.Json.Strings.{parse_string-quoted}
use nova_visualiser.Core.Json.RoundTrip.Values.{
  AllBelow, AllAbove, Ascending, IsReadBack, Printable, PrintableItems, PrintableFields, Opens,
  opens, number_char_opens, Stops, skip_spaces_head, consume_other, rounds, item_rounds,
  field_rounds,
}
use nova_visualiser.Core.Json.RoundTrip.Keys.{
  join, join-end, join_assoc, emplace_above, Before, Before-join, Before-end,
}
use nova_visualiser.Core.Json.RoundTrip.Scalars.{parse_scalar-number}
use nova_visualiser.Core.Json.RoundTrip.Steps.{at}
use nova_visualiser.Core.Json.RoundTrip.Reading.{read}
use nova_visualiser.Core.Json.RoundTrip.Rounds.{rounds-le}

module _ {N : Type 0} (text : NumberText N) where
  -- Every value whose keys ascend and whose numbers print to text that `strtod` reads back as the
  -- same finite number: `parse` of what `dump` printed is that value.
  pub parse-dump : (v : Value N) → Printable text v → parse text (dump text v) ≡ some (some v)
  unfolding parse
  parse-dump v p =
      ap (outcome text) (
        ap (λ r. parse_value text (2 * length (dump text v) + 2) (at r))
          (sym (append-nil (dump text v)))
        ∙ read text v (2 * length (dump text v) + 2) [] p tt (omega (arith, rounds-le text v p)))
      ∙ unfold outcome in refl
