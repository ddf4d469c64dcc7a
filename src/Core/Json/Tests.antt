-- ===== src/Core/Json/Tests.antt =====
-- Runs of the parser and the printer, and the theorems at concrete inputs.
use nova_visualiser.Prelude.{
  bytes_eq, true, false, Option, some, [], ◌∷◌, ◌++◌, Bytes, codes, ◌≡◌, refl,
}
use nova_visualiser.Core.Json.{
  NumberText, Value, null, boolean, number, string, array, object, nil, cons, end, field, emplace,
  bytes_lt, to_items,
}
use nova_visualiser.Core.Json.Parser.{
  skip_spaces, eat, consume, after_word, append_utf8, hex_value, hex_next, hex_digits, low_half,
  unicode_escape, plain_escape, plain_char, escape_char, string_char, string_loop, string_body,
  parse_string, number_run, after_sign, finite_or_zero, number_from, parse_number, null_or_number,
  false_or_more, true_or_more, parse_scalar, string_value, close_array, next_item, after_item,
  close_object, next_member, after_member, member_value, after_key, open_array, open_object,
  value_at, parse_value, outcome, parse,
}
use nova_visualiser.Core.Json.Printer.{dump, print_number, quoted}
use nova_visualiser.Core.Json.Total.{parse_total}
use nova_visualiser.Core.Json.Strings.{parse_string-quoted}
use nova_visualiser.Core.Json.RoundTrip.{parse-dump}
use nova_visualiser.Core.Json.RoundTrip.Values.{Printable}

-- Numbers by their text.
abbrev by_text : NumberText Bytes
by_text = record {
  strtod = λ t. t;
  is_finite = λ n. true;
  zero_number = codes "0";
  is_integral = λ n. true;
  print_integer = λ n. n;
  print_float = λ n. n;
}

-- The first of two equal keys stays, and a surrogate pair is one character.
parse-sample :
    parse by_text
      (codes " {\"b\": [1, -2.5e3 ,true,null], \"\\u0041\\n\" : \"x\\uD83D\\uDE00\" , \"b\":7 } ")
    ≡ some (
        some (
          object (
            field (b'A' ∷ 10 ∷ []) (string (b'x' ∷ 240 ∷ 159 ∷ 152 ∷ 128 ∷ [])) (
              field
                (codes "b")
                (array (
                  cons
                    (number (codes "1"))
                    (cons (number (codes "-2.5e3")) (cons (boolean true) (cons null nil)))))
                end))))
unfolding parse parse_value emplace bytes_eq bytes_lt to_items consume eat hex_value plain_escape
    hex_next plain_char escape_char string_char string_body string_loop hex_digits append_utf8
    low_half unicode_escape parse_string number_run after_sign finite_or_zero number_from
    parse_number after_word null_or_number false_or_more true_or_more parse_scalar string_value
    close_array next_item after_item close_object next_member after_member member_value after_key
    open_array open_object value_at skip_spaces outcome
parse-sample = refl

abbrev sample : Value Bytes
sample = object (
    field (codes "a\n") (array (cons (number (codes "-12")) (cons (string (codes "x\"y")) nil)))
      (field (codes "b") (object end) end))

sample-Printable : Printable by_text sample
unfolding print_number bytes_lt
sample-Printable = (
  ((refl, tt), (tt, tt)),
  (
    (
      (record {
        first = b'-';
        more = codes "12";
        shape = refl;
        chars = (refl, (refl, (refl, tt)));
        read = refl;
        finite = refl;
      }),
      (tt, tt),
    ),
    ((tt, tt), tt),
  ),
)

parse-dump_example : parse by_text (dump by_text sample) ≡ some (some sample)
parse-dump_example = parse-dump by_text sample sample-Printable

parse_total_example : (r : Option (Value Bytes)) × (parse by_text (codes "[1,") ≡ some r)
parse_total_example = parse_total by_text (codes "[1,")

parse_string-quoted_example :
    parse_string (record { rest = quoted (codes "a\"\n") ++ codes "]"; failed = false })
    ≡ some (codes "a\"\n", record { rest = codes "]"; failed = false })
parse_string-quoted_example = parse_string-quoted (codes "a\"\n") (codes "]")
