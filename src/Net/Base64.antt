-- ===== src/Net/Base64.antt =====
-- base64 of src/net/stream_server.cpp and src/net/srt_server.cpp, against a decoder.
use nova_visualiser.Prelude.{
  ℕ, zero, suc, ◌+◌, ◌-◌, ◌*◌, ◌/◌, ◌%◌, ◌^◌, ◌<◌, ◌≡◌, refl, Bool, true, false, ◌&&◌, [], ◌∷◌,
  arith, get_or, length, All, Bytes, codes, if◌then◌else◌, leb, ◌==◌, ==_iff, not, Bool-cases, inl,
  inr,
}

abbrev table : Bytes
table = codes "ABCDEFGHIJKLMNOPQRSTUVWXYZabcdefghijklmnopqrstuvwxyz0123456789+/"

-- `table[(triple >> shift) & 0x3F]`
unfoldable pub sextet : ℕ → ℕ → ℕ
sextet shift triple = get_or table (triple / 2 ^ shift % 64) 0

-- `(a << 16) | (b << 8) | c` over bytes, whose bits are disjoint
abbrev triple_of : ℕ → ℕ → ℕ → ℕ
triple_of a b c = a * 2 ^ 16 + b * 2 ^ 8 + c

-- Each round of the loop takes three bytes; past the end a byte reads 0 and its digit is `=`.
unfoldable pub base64 : Bytes → Bytes
base64 [] = []
base64 (a ∷ []) = let t = triple_of a 0 0 in sextet 18 t ∷ sextet 12 t ∷ b'=' ∷ b'=' ∷ []
base64 (a ∷ b ∷ []) = let t = triple_of a b 0 in sextet 18 t ∷ sextet 12 t ∷ sextet 6 t ∷ b'=' ∷ []
base64 (a ∷ b ∷ c ∷ rest) =
    let t = triple_of a b c in sextet 18 t ∷ sextet 12 t ∷ sextet 6 t ∷ sextet 0 t ∷ base64 rest

-- RFC 4648, section 4: the value of a digit.
pub digit_value : ℕ → ℕ
digit_value c =
    if leb b'A' c && leb c b'Z'
    then c - b'A'
    else if leb b'a' c && leb c b'z'
    then c - b'a' + 26
    else if leb b'0' c && leb c b'9'
    then c - b'0' + 52
    else if c == b'+'
    then 62
    else 63

-- Decodes well-padded groups of four digits.
pub decode : Bytes → Bytes
decode (w ∷ x ∷ y ∷ z ∷ rest) =
    let bits = digit_value w * 2 ^ 18 + digit_value x * 2 ^ 12 in
    let more = decode rest in
    if y == b'='
    then bits / 2 ^ 16 ∷ []
    else if z == b'='
    then (bits + digit_value y * 2 ^ 6) / 2 ^ 16 ∷ (bits + digit_value y * 2 ^ 6) / 2 ^ 8 % 256 ∷ []
    else (bits + digit_value y * 2 ^ 6 + digit_value z) / 2 ^ 16
      ∷ (bits + digit_value y * 2 ^ 6 + digit_value z) / 2 ^ 8 % 256
      ∷ (bits + digit_value y * 2 ^ 6 + digit_value z) % 256
      ∷ more
decode _ = []

-- The digits of all sextets below `n` decode to their sextets, and none of them is the padding.
sextets_decode : ℕ → Bool
sextets_decode zero = true
sextets_decode (suc n) =
    let digit = get_or table n 0 in
    (digit_value digit == n) && (not (digit == b'=') && sextets_decode n)

below : (s n : ℕ) → s < suc n → (s == n) ≡ false → s < n
below s n lt e = ground arith

split_checks : (p q r : Bool) → (p && (not q && r)) ≡ true → ((p ≡ true) × (q ≡ false)) × (r ≡ true)
split_checks true false true h = ((refl, refl), refl)
split_checks true false false h = absurd (ground arith)
split_checks true true r h = absurd (ground arith)
split_checks false q r h = absurd (ground arith)

sextets_decode_at :
    (s n : ℕ)
    → s < n
    → sextets_decode n ≡ true
    → ((digit_value (get_or table s 0) == s) ≡ true) × ((get_or table s 0 == b'=') ≡ false)
unfolding sextets_decode
sextets_decode_at s zero lt h = absurd (omega arith)
sextets_decode_at s (suc n) lt h =
    let checks = split_checks _ _ _ h in
    elim (Bool-cases (s == n)) [
      | inl e ↦ rw ((==_iff s n).0 e) (checks.0)
      | inr e ↦ sextets_decode_at s n (below s n lt e) checks.1
    ]

sextets : sextets_decode 64 ≡ true
unfolding sextets_decode digit_value
sextets = refl

digit_value-sextet : (k t : ℕ) → digit_value (sextet k t) ≡ t / 2 ^ k % 64
unfolding sextet
digit_value-sextet k t =
    (==_iff _ _).0 (sextets_decode_at (t / 2 ^ k % 64) 64 (omega arith) sextets).0

sextet-ne-pad : (k t : ℕ) → (sextet k t == b'=') ≡ false
unfolding sextet
sextet-ne-pad k t = (sextets_decode_at (t / 2 ^ k % 64) 64 (omega arith) sextets).1

-- Decoding what `base64` wrote for a list of bytes gives the bytes back.
pub decode-base64 : (bytes : Bytes) → All (λ b. b < 256) bytes → decode (base64 bytes) ≡ bytes
unfolding base64 decode
decode-base64 [] h = refl
decode-base64 (a ∷ []) h = simp digit_value-sextet (ground arith)
decode-base64 (a ∷ b ∷ []) h = simp (digit_value-sextet, sextet-ne-pad) (ground arith)
decode-base64 (a ∷ b ∷ c ∷ rest) h =
    simp (digit_value-sextet, sextet-ne-pad, decode-base64 rest h.1.1.1) (ground arith)

-- The text is a whole number of groups of four: 4 * ceil(n / 3) characters, the bound that the
-- code reserves.
pub length-base64 : (bytes : Bytes) → length (base64 bytes) ≡ (length bytes + 2) / 3 * 4
unfolding base64
length-base64 [] = refl
length-base64 (a ∷ []) = refl
length-base64 (a ∷ b ∷ []) = refl
length-base64 (a ∷ b ∷ c ∷ rest) = omega (arith, length-base64 rest)
