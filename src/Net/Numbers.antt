-- ===== src/Net/Numbers.antt =====
-- The conversions of the C library that src/net/http_client.cpp and src/service/options.cpp use, as
-- glibc computes them: `atoi`, `atoll` and `strtoul`.
use nova_visualiser.Prelude.{
  ℕ, ◌+◌, ◌-◌, ◌*◌, ◌%◌, ◌^◌, min, Bool, true, false, ◌&&◌, ◌||◌, Option, none, some, [], ◌∷◌,
  Bytes, if◌then◌else◌, ltb, leb, ◌==◌,
}

-- `std::isspace` in the C locale
abbrev is_blank : ℕ → Bool
is_blank c = c == b' ' || (leb 9 c && leb c 13)

unfoldable pub skip_blanks : Bytes → Bytes
skip_blanks [] = []
skip_blanks (c ∷ cs) = let rest = skip_blanks cs in if is_blank c then rest else c ∷ cs

-- The value of a digit in `base`, at most 16.
unfoldable pub digit_of : ℕ → ℕ → Option ℕ
digit_of base c =
    let d =
      if leb b'0' c && leb c b'9'
      then c - b'0'
      else if leb b'a' c && leb c b'f'
      then c - b'a' + 10
      else if leb b'A' c && leb c b'F'
      then c - b'A' + 10
      else 16 in
    if ltb d base then some d else none

-- The number that the digits in front of a text write, behind `value`.
unfoldable pub digits_from : ℕ → ℕ → Bytes → ℕ
unfolding digit_of
digits_from base value [] = value
digits_from base value (c ∷ cs) = elim (digit_of base c) [
  | none ↦ value
  | some d ↦ digits_from base (value * base + d) cs
]

-- `(sign, text behind it)`, true for a minus
unfoldable pub sign_of : Bytes → Bool × Bytes
sign_of [] = (false, [])
sign_of (c ∷ cs) =
    if c == b'-' then (true, cs) else if c == b'+' then (false, cs) else (false, c ∷ cs)

-- `std::atoi`, which glibc computes by `strtol` and a conversion to int: the bit pattern of the int.
unfoldable pub atoi_bits : Bytes → ℕ
unfolding skip_blanks sign_of digits_from
atoi_bits text =
    let (minus, digits) = sign_of (skip_blanks text) in
    let value = digits_from 10 0 digits in
    if minus then (2 ^ 64 - min value (2 ^ 63)) % 2 ^ 32 else min value (2 ^ 63 - 1) % 2 ^ 32

-- `std::atoll`, the bit pattern of an int64_t
unfoldable pub atoll_bits : Bytes → ℕ
unfolding skip_blanks sign_of digits_from
atoll_bits text =
    let (minus, digits) = sign_of (skip_blanks text) in
    let value = digits_from 10 0 digits in
    if minus then (2 ^ 64 - min value (2 ^ 63)) % 2 ^ 64 else min value (2 ^ 63 - 1)

-- `0x` in front of the digits is skipped.
unfoldable pub behind_0x : Bytes → Bytes
behind_0x (c ∷ x ∷ rest) = if c == b'0' && (x == b'x' || x == b'X') then rest else c ∷ x ∷ rest
behind_0x text = text

-- `std::strtoul(text, nullptr, 16)`; out of range it is ULONG_MAX.
unfoldable pub strtoul16 : Bytes → ℕ
unfolding skip_blanks sign_of digits_from behind_0x
strtoul16 text =
    let (minus, digits) = sign_of (skip_blanks text) in
    let value = digits_from 16 0 (behind_0x digits) in
    if leb (2 ^ 64) value then 2 ^ 64 - 1 else if minus then (2 ^ 64 - value) % 2 ^ 64 else value
