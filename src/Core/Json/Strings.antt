-- ===== src/Core/Json/Strings.antt =====
-- `parseString` of src/core/json.cpp on text that `escape` wrote.
use nova_visualiser.Prelude.{
  ℕ, zero, suc, ◌+◌, ◌*◌, ◌/◌, ◌%◌, ◌≤◌, ◌<◌, ◌≡◌, refl, ap, ◌∙◌, Bool, false, some, [], ◌∷◌, ◌++◌,
  append_assoc, append-nil, length, length-append, arith, Bytes,
}
use nova_visualiser.Core.Json.Parser.{
  skip_spaces, eat, consume, append_utf8, hex_value, hex_next, hex_digits, low_half, unicode_escape,
  plain_escape, plain_char, escape_char, string_char, string_loop, string_body, parse_string,
}
use nova_visualiser.Core.Json.Printer.{hex_digit, escape_byte, escape, quoted}

hex_value-hex_digit : (d : ℕ) → d < 16 → hex_value (hex_digit d) ≡ some d
unfolding hex_value hex_digit
hex_value-hex_digit d h = ground arith

hex_value-zero : hex_value b'0' ≡ some 0
unfolding hex_value
hex_value-zero = refl

hex_digits_lem :
    (a b : ℕ) (rest : Bytes)
    → a < 16
    → b < 16
    → hex_digits 4 0 (b'0' ∷ b'0' ∷ hex_digit a ∷ hex_digit b ∷ rest) false
      ≡ (a * 16 + b, rest, false)
unfolding hex_digits hex_next
hex_digits_lem a b rest ha hb =
    simp (hex_value-zero, hex_value-hex_digit a ha, hex_value-hex_digit b hb) (ground arith)

low_half_lem :
    (out : Bytes) (c : ℕ) (rest : Bytes) (failed : Bool)
    → c < 0x80
    → low_half out c rest failed ≡ (out ++ c ∷ [], rest, failed)
unfolding low_half append_utf8
low_half_lem out c (x ∷ y ∷ rest) failed h = ground arith
low_half_lem out c (x ∷ []) failed h = ground arith
low_half_lem out c [] failed h = ground arith

-- A control character comes back from its four hexadecimal digits.
unicode_escape_lem :
    (c : ℕ) (out rest : Bytes)
    → c < 0x20
    → unicode_escape out (b'0' ∷ b'0' ∷ hex_digit (c / 16) ∷ hex_digit (c % 16) ∷ rest) false
      ≡ (out ++ c ∷ [], rest, false)
unfolding unicode_escape
unicode_escape_lem c out rest h =
    rw (hex_digits_lem (c / 16) (c % 16) rest (omega arith) (omega arith)) (
      low_half_lem out (c / 16 * 16 + c % 16) rest false (omega arith)
      ∙ ap (λ n. (out ++ n ∷ [], rest, false)) (omega arith))

-- One round of the loop reads one escaped byte.
string_loop-escape_byte :
    (f : ℕ) (out : Bytes) (c : ℕ) (rest : Bytes)
    → string_loop (suc f) out (escape_byte c ++ rest) false
      ≡ string_loop f (out ++ c ∷ []) rest false
unfolding string_loop string_char escape_char plain_char plain_escape escape_byte
string_loop-escape_byte f out c rest = ground (arith, unicode_escape_lem c out rest)

string_loop-escape :
    (f : ℕ) (s out rest : Bytes)
    → length s < f
    → string_loop f out (escape s ++ b'"' ∷ rest) false
      ≡ some (out ++ s, record { rest = rest; failed = false })
unfolding escape
string_loop-escape zero s out rest h = absurd (omega arith)
string_loop-escape (suc f) [] out rest h = rw append-nil (unfold string_loop string_char in refl)
string_loop-escape (suc f) (c ∷ cs) out rest h =
    rw (append_assoc (escape_byte c) (escape cs) (b'"' ∷ rest)) (
      string_loop-escape_byte f out c (escape cs ++ b'"' ∷ rest)
      ∙ string_loop-escape f cs (out ++ c ∷ []) rest (omega arith)
      ∙ rw append_assoc)

length-escape_byte : (c : ℕ) → 0 < length (escape_byte c)
unfolding escape_byte
length-escape_byte c = ground arith

pub length-le-escape : (s : Bytes) → length s ≤ length (escape s)
unfolding escape
length-le-escape [] = omega arith
length-le-escape (c ∷ cs) =
    omega
      (arith, length-append (escape_byte c) (escape cs), length-escape_byte c, length-le-escape cs)

-- Whatever bytes a string holds, `parseString` on its quoted and escaped form gives the string back
-- and stops behind the closing quote.
pub parse_string-quoted :
    (s rest : Bytes)
    → parse_string (record { rest = quoted s ++ rest; failed = false })
      ≡ some (s, record { rest = rest; failed = false })
unfolding parse_string consume skip_spaces eat string_body quoted
parse_string-quoted s rest = rw (append_assoc (escape s) (b'"' ∷ []) rest) (
    string_loop-escape _ s [] rest
      (omega (arith, length-le-escape s, length-append (escape s) (b'"' ∷ rest))))
