-- ===== src/Core/Json/Parser.antt =====
-- `Parser` of src/core/json.cpp, over the text that is left. A loop takes fuel, and `none` is its lack.
use nova_visualiser.Prelude.{
  ℕ, zero, suc, ◌+◌, ◌-◌, ◌*◌, ◌/◌, ◌%◌, ◌^◌, Bool, true, false, ◌&&◌, ◌||◌, Option, none, some,
  List, [], ◌∷◌, ◌++◌, bit_or, ◌==◌, ltb, leb, if◌then◌else◌, length, Bytes, codes,
}
use nova_visualiser.Core.Json.{
  NumberText, Value, null, boolean, number, string, array, object, nil, Fields, end, emplace,
  to_items,
}

pub record Parser : Type 0 where
  pub rest : Bytes
  pub failed : Bool

abbrev pub at_rest : Parser → Bytes → Parser
at_rest p r = record p { rest = r }

abbrev pub fail : Parser → Parser
fail p = record p { failed = true }

abbrev pub is_space : ℕ → Bool
is_space c = c == b' ' || c == 9 || c == b'\n' || c == 13

unfoldable pub skip_spaces : Bytes → Bytes
skip_spaces [] = []
skip_spaces (c ∷ cs) = if is_space c then skip_spaces cs else c ∷ cs

abbrev pub skip : Parser → Parser
skip p = at_rest p (skip_spaces p.rest)

-- The answer of `consume`, with the parser that it leaves.
pub data Consumed : Type 0 where
  took kept : Parser → Consumed

unfoldable pub eat : ℕ → Bool → Bytes → Consumed
eat c failed [] = kept (record { rest = []; failed = failed })
eat c failed (d ∷ ds) =
    if d == c
    then took (record { rest = ds; failed = failed })
    else kept (record { rest = d ∷ ds; failed = failed })

-- `consume`; the parser has skipped spaces also where the answer is no.
unfoldable pub consume : ℕ → Parser → Consumed
consume c p = eat c p.failed (skip_spaces p.rest)

-- What stands behind `word`, if the text begins with it.
unfoldable pub after_word : Bytes → Bytes → Option Bytes
after_word [] r = some r
after_word (w ∷ ws) [] = none
after_word (w ∷ ws) (c ∷ cs) = if c == w then after_word ws cs else none

-- `appendUtf8`, with each `static_cast<char>`
unfoldable pub append_utf8 : Bytes → ℕ → Bytes
append_utf8 out code =
    if ltb code 0x80
    then out ++ code ∷ []
    else if ltb code 0x800
    then out ++ (0xC0 + code / 2 ^ 6) ∷ (0x80 + code % 64) ∷ []
    else if ltb code 0x10000
    then out ++ (0xE0 + code / 2 ^ 12) ∷ (0x80 + code / 2 ^ 6 % 64) ∷ (0x80 + code % 64) ∷ []
    else out
      ++ (bit_or 0xF0 (code / 2 ^ 18) % 256)
        ∷ (0x80 + code / 2 ^ 12 % 64)
        ∷ (0x80 + code / 2 ^ 6 % 64)
        ∷ (0x80 + code % 64)
        ∷ []

unfoldable pub hex_value : ℕ → Option ℕ
hex_value c =
    if leb b'0' c && leb c b'9'
    then some (c - b'0')
    else if leb b'a' c && leb c b'f'
    then some (c - b'a' + 10)
    else if leb b'A' c && leb c b'F'
    then some (c - b'A' + 10)
    else none

unfoldable pub hex_next : (ℕ → ℕ × Bytes × Bool) → ℕ → Bytes → Option ℕ → ℕ × Bytes × Bool
hex_next more value r none = (0, r, true)
hex_next more value r (some d) = more (value * 16 + d)

-- `hex4`, with `left` rounds to go. At most four digits, so the uint32_t does not wrap.
unfoldable pub hex_digits : ℕ → ℕ → Bytes → Bool → ℕ × Bytes × Bool
hex_digits zero value r failed = (value, r, failed)
hex_digits (suc left) value [] failed = (value, [], failed)
hex_digits (suc left) value (c ∷ cs) failed =
    hex_next (λ v. hex_digits left v cs failed) value (c ∷ cs) (hex_value c)

abbrev pub hex4 : Bytes → Bool → ℕ × Bytes × Bool
hex4 = hex_digits 4 0

-- `0x10000 + ((code - 0xD800) << 10) + (low - 0xDC00)` over uint32_t
abbrev pub joined_pair : ℕ → ℕ → ℕ
joined_pair code low = (0x10000 + (code - 0xD800) * 2 ^ 10 + (low + 2 ^ 32 - 0xDC00)) % 2 ^ 32

unfoldable pub low_half : Bytes → ℕ → Bytes → Bool → Bytes × Bytes × Bool
low_half out code (a ∷ b ∷ cs) failed =
    if leb 0xD800 code && leb code 0xDBFF && a == b'\\' && b == b'u'
    then (let (low, r, failed') = hex4 cs failed in
        (append_utf8 out (joined_pair code low), r, failed'))
    else (append_utf8 out code, a ∷ b ∷ cs, failed)
low_half out code r failed = (append_utf8 out code, r, failed)

-- The case 'u' of `parseString`: the text so far, what is left, and the flag.
unfoldable pub unicode_escape : Bytes → Bytes → Bool → Bytes × Bytes × Bool
unicode_escape out r failed =
    let (code, r', failed') = hex4 r failed in low_half out code r' failed'

-- The one-letter escapes.
unfoldable pub plain_escape : ℕ → Option ℕ
plain_escape c =
    if c == b'"' || c == b'\\' || c == b'/'
    then some c
    else if c == b'b'
    then some 8
    else if c == b'f'
    then some 12
    else if c == b'n'
    then some 10
    else if c == b'r'
    then some 13
    else if c == b't'
    then some 9
    else none

-- A round of the loop of `parseString`; `more` is the rest of the loop.
abbrev pub Loop : Type 0
Loop = Bytes → Bytes → Bool → Option (Bytes × Parser)

unfoldable pub plain_char : Loop → Bytes → Bytes → Bool → Option ℕ → Option (Bytes × Parser)
plain_char more out es failed none = some (out, record { rest = es; failed = true })
plain_char more out es failed (some d) = more (out ++ d ∷ []) es failed

-- The character behind a backslash.
unfoldable pub escape_char : Loop → Bytes → Bytes → Bool → Option (Bytes × Parser)
escape_char more out [] failed = some (out, record { rest = []; failed = true })
escape_char more out (e ∷ es) failed =
    if e == b'u'
    then (let (out', r, failed') = unicode_escape out es failed in more out' r failed')
    else plain_char more out es failed (plain_escape e)

unfoldable pub string_char : Loop → Bytes → ℕ → Bytes → Bool → Option (Bytes × Parser)
string_char more out c cs failed =
    if c == b'"'
    then some (out, record { rest = cs; failed = failed })
    else if c == b'\\'
    then escape_char more out cs failed
    else more (out ++ c ∷ []) cs failed

-- The loop of `parseString`.
unfoldable pub string_loop : ℕ → Loop
string_loop zero out r failed = none
string_loop (suc f) out [] failed = some (out, record { rest = []; failed = true })
string_loop (suc f) out (c ∷ cs) failed = string_char (string_loop f) out c cs failed

unfoldable pub string_body : Consumed → Option (Bytes × Parser)
string_body (kept q) = some ([], fail q)
string_body (took q) = string_loop (suc (length q.rest)) [] q.rest q.failed

-- `parseString`
unfoldable pub parse_string : Parser → Option (Bytes × Parser)
parse_string p = string_body (consume b'"' p)

abbrev pub is_sign : ℕ → Bool
is_sign c = c == b'-' || c == b'+'

abbrev pub is_number_char : ℕ → Bool
is_number_char c = (leb b'0' c && leb c b'9') || c == b'.' || c == b'e' || c == b'E' || is_sign c

-- The longest run of number characters, and what stands behind it.
unfoldable pub number_run : Bytes → Bytes × Bytes
number_run [] = ([], [])
number_run (c ∷ cs) =
    let (run, r) = number_run cs in if is_number_char c then (c ∷ run, r) else ([], c ∷ cs)

unfoldable pub after_sign : Bytes → Bytes × Bytes
after_sign [] = ([], [])
after_sign (c ∷ cs) =
    if is_sign c then (let (run, r) = number_run cs in (c ∷ run, r)) else number_run (c ∷ cs)

module _ {N : Type 0} (text : NumberText N) where
  -- `if (!std::isfinite(parsed)) parsed = 0`
  unfoldable pub finite_or_zero : N → N
  finite_or_zero n = if text.is_finite n then n else text.zero_number

  unfoldable pub number_from : Parser → Bytes → Bytes → Value N × Parser
  number_from p [] r = (null, fail p)
  number_from p chunk r = (number (finite_or_zero (text.strtod chunk)), at_rest p r)

  -- The end of `parseValue`.
  unfoldable pub parse_number : Parser → Value N × Parser
  parse_number p = let (chunk, r) = after_sign p.rest in number_from p chunk r

  -- The literals of `parseValue`, which are tried before a number.
  unfoldable pub null_or_number : Parser → Option Bytes → Value N × Parser
  null_or_number p none = parse_number p
  null_or_number p (some r) = (null, at_rest p r)

  unfoldable pub false_or_more : Parser → Option Bytes → Value N × Parser
  false_or_more p none = null_or_number p (after_word (codes "null") p.rest)
  false_or_more p (some r) = (boolean false, at_rest p r)

  unfoldable pub true_or_more : Parser → Option Bytes → Value N × Parser
  true_or_more p none = false_or_more p (after_word (codes "false") p.rest)
  true_or_more p (some r) = (boolean true, at_rest p r)

  unfoldable pub parse_scalar : Parser → Value N × Parser
  parse_scalar p = true_or_more p (after_word (codes "true") p.rest)

  unfoldable pub string_value : Option (Bytes × Parser) → Option (Value N × Parser)
  string_value none = none
  string_value (some (s, q)) = some (string s, q)

  -- The loops of `parseValue` over the elements of an array and the members of an object, each with
  -- its collection so far.
  abbrev pub Result : Type 0
  Result = Option (Value N × Parser)

  unfoldable pub close_array : List (Value N) → Consumed → Result
  close_array items (took q) = some (array (to_items items), q)
  close_array items (kept q) = some (null, fail q)

  unfoldable pub next_item : (List (Value N) → Parser → Result) → List (Value N) → Consumed → Result
  next_item more items (took q) = more items q
  next_item more items (kept q) = close_array items (consume b']' q)

  unfoldable pub after_item : (List (Value N) → Parser → Result) → List (Value N) → Result → Result
  after_item more items none = none
  after_item more items (some (v, q)) = next_item more (items ++ v ∷ []) (consume b',' q)

  unfoldable pub close_object : Fields N → Consumed → Result
  close_object fields (took q) = some (object fields, q)
  close_object fields (kept q) = some (null, fail q)

  unfoldable pub next_member : (Fields N → Parser → Result) → Fields N → Consumed → Result
  next_member more fields (took q) = more fields q
  next_member more fields (kept q) = close_object fields (consume b'}' q)

  unfoldable pub after_member : (Fields N → Parser → Result) → Bytes → Fields N → Result → Result
  after_member more key fields none = none
  after_member more key fields (some (v, q)) =
      next_member more (emplace key v fields) (consume b',' q)

  -- The value behind the colon.
  unfoldable pub member_value :
      (Parser → Result) → (Fields N → Parser → Result) → Bytes → Fields N → Consumed → Result
  member_value value more key fields (kept q) = some (null, fail q)
  member_value value more key fields (took q) = after_member more key fields (value q)

  unfoldable pub after_key :
      (Parser → Result) → (Fields N → Parser → Result) → Fields N → Option (Bytes × Parser) → Result
  after_key value more fields none = none
  after_key value more fields (some (key, q)) =
      if q.failed then some (null, q) else member_value value more key fields (consume b':' q)

  unfoldable pub open_array : (List (Value N) → Parser → Result) → Consumed → Result
  open_array items (took q) = some (array nil, q)
  open_array items (kept q) = items [] q

  unfoldable pub open_object : (Fields N → Parser → Result) → Consumed → Result
  open_object members (took q) = some (object end, q)
  open_object members (kept q) = members end q

  -- `parseValue` behind its first `skip`, with the loops that it may enter.
  unfoldable pub value_at :
      (List (Value N) → Parser → Result) → (Fields N → Parser → Result) → Bool → Bytes → Result
  value_at items members failed [] = some (null, record { rest = []; failed = true })
  value_at items members true (c ∷ r) = some (null, record { rest = c ∷ r; failed = true })
  value_at items members false (c ∷ r) =
      if c == b'{'
      then open_object members (consume b'}' (record { rest = r; failed = false }))
      else if c == b'['
      then open_array items (consume b']' (record { rest = r; failed = false }))
      else if c == b'"'
      then string_value (parse_string (record { rest = c ∷ r; failed = false }))
      else some (parse_scalar (record { rest = c ∷ r; failed = false }))

  -- `parseValue`, and a round of each loop.
  unfoldable mutual
    pub parse_value : ℕ → Parser → Result
    parse_value zero p = none
    parse_value (suc f) p = value_at (parse_items f) (parse_members f) p.failed (skip_spaces p.rest)

    pub parse_items : ℕ → List (Value N) → Parser → Result
    parse_items zero items p = none
    parse_items (suc f) items p =
        if p.failed then some (null, p) else after_item (parse_items f) items (parse_value f p)

    pub parse_members : ℕ → Fields N → Parser → Result
    parse_members zero fields p = none
    parse_members (suc f) fields p =
        if p.failed
        then some (null, p)
        else after_key (parse_value f) (parse_members f) fields (parse_string (skip p))

  unfoldable pub outcome : Option (Value N × Parser) → Option (Option (Value N))
  outcome none = none
  outcome (some (v, q)) = if q.failed then some none else some (some v)

  -- `Value::parse`. The outer option is the fuel, the inner one the function's own.
  unfoldable pub parse : Bytes → Option (Option (Value N))
  parse t = outcome (parse_value (2 * length t + 2) (record { rest = t; failed = false }))
