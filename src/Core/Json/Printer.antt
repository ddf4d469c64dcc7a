-- ===== src/Core/Json/Printer.antt =====
-- `escape` and `Value::dump` of src/core/json.cpp.
use nova_visualiser.Prelude.{
  ℕ, ◌+◌, ◌-◌, ◌/◌, ◌%◌, Bool, true, false, [], ◌∷◌, ◌++◌, ◌==◌, ltb, if◌then◌else◌, Bytes, codes,
}
use nova_visualiser.Core.Json.{
  NumberText, Value, null, boolean, number, string, array, object, Items, nil, cons, Fields, end,
  field,
}

-- A digit of `%x`.
unfoldable pub hex_digit : ℕ → ℕ
hex_digit d = if ltb d 10 then b'0' + d else b'a' + d - 10

-- The body of the loop of `escape`; below 0x20 it is `\u%04x`.
unfoldable pub escape_byte : ℕ → Bytes
escape_byte c =
    if c == b'"'
    then b'\\' ∷ b'"' ∷ []
    else if c == b'\\'
    then b'\\' ∷ b'\\' ∷ []
    else if c == b'\n'
    then b'\\' ∷ b'n' ∷ []
    else if c == 13
    then b'\\' ∷ b'r' ∷ []
    else if c == 9
    then b'\\' ∷ b't' ∷ []
    else if ltb c 0x20
    then b'\\' ∷ b'u' ∷ b'0' ∷ b'0' ∷ hex_digit (c / 16) ∷ hex_digit (c % 16) ∷ []
    else c ∷ []

unfoldable pub escape : Bytes → Bytes
escape [] = []
escape (c ∷ cs) = escape_byte c ++ escape cs

-- `"`, the escaped text, `"`
unfoldable pub quoted : Bytes → Bytes
quoted s = b'"' ∷ (escape s ++ b'"' ∷ [])

module _ {N : Type 0} (text : NumberText N) where
  unfoldable pub print_number : N → Bytes
  print_number n = if text.is_integral n then text.print_integer n else text.print_float n

  -- `dump`, and its two loops with their flag `first`.
  unfoldable mutual
    pub dump : Value N → Bytes
    dump null = codes "null"
    dump (boolean b) = if b then codes "true" else codes "false"
    dump (number n) = print_number n
    dump (string s) = quoted s
    dump (array items) = b'[' ∷ (dump_items true items ++ b']' ∷ [])
    dump (object fields) = b'{' ∷ (dump_fields true fields ++ b'}' ∷ [])

    pub dump_items : Bool → Items N → Bytes
    dump_items first nil = []
    dump_items first (cons v rest) =
        (if first then [] else b',' ∷ []) ++ (dump v ++ dump_items false rest)

    pub dump_fields : Bool → Fields N → Bytes
    dump_fields first end = []
    dump_fields first (field k v rest) =
        (if first then [] else b',' ∷ [])
        ++ (quoted k ++ (b':' ∷ (dump v ++ dump_fields false rest)))
