-- ===== src/Net/Http/Endless.antt =====
-- A chunk size that takes the cursor of the decoding in src/net/http_client.cpp back.
use nova_visualiser.Prelude.{
  ℕ, zero, suc, ◌≡◌, refl, ◌∙◌, none, [], ◌∷◌, ◌++◌, Bytes, codes, take, drop, ap, ltb, false,
  arith, length,
}
use nova_visualiser.Net.Text.Cuts.{lacks-Lacks}
use nova_visualiser.Net.Numbers.{strtoul16, skip_blanks, sign_of, behind_0x, digits_from, digit_of}
use nova_visualiser.Net.Http.{go, size_round, chunk_round, decode_from}
use nova_visualiser.Net.Http.Chunked.{decode_go, chunk_round_line}

-- The size 2 ^ 64 - 20, on a line of 20 bytes.
abbrev pub wrapping_line : Bytes
wrapping_line = codes "00ffffffffffffffec" ++ 13 ∷ 10 ∷ []

abbrev taken : Bytes → Bytes
taken rest = take 18446744073709551596 (drop 20 (wrapping_line ++ rest))

never_below : (n : ℕ) → ltb n 0 ≡ false
never_below n = ground arith

-- Behind the line, the chunk would end at 2 ^ 64, and so at 0.
wrapping_size :
    (rest decoded : Bytes)
    → size_round (wrapping_line ++ rest) 20 18446744073709551596 decoded
      ≡ go 2 (decoded ++ taken rest)
unfolding size_round
wrapping_size rest decoded = rw (never_below (length (wrapping_line ++ rest))) refl

long_size : strtoul16 (codes "00ffffffffffffffec") ≡ 18446744073709551596
unfolding strtoul16 skip_blanks sign_of behind_0x digits_from digit_of
long_size = refl

short_size : strtoul16 (codes "ffffffffffffffec") ≡ 18446744073709551596
unfolding strtoul16 skip_blanks sign_of behind_0x digits_from digit_of
short_size = refl

back_to_2 :
    (rest decoded : Bytes)
    → chunk_round (wrapping_line ++ rest) 2 decoded ≡ go 2 (decoded ++ taken rest)
back_to_2 rest decoded =
    chunk_round_line (codes "00") (codes "ffffffffffffffec") rest decoded
      (lacks-Lacks 13 (codes "ffffffffffffffec") refl)
    ∙ ap (λ n. size_round (wrapping_line ++ rest) 20 n decoded) short_size
    ∙ wrapping_size rest decoded

on_to_2 :
    (rest decoded : Bytes)
    → chunk_round (wrapping_line ++ rest) 0 decoded ≡ go 2 (decoded ++ taken rest)
on_to_2 rest decoded =
    chunk_round_line [] (codes "00ffffffffffffffec") rest decoded
      (lacks-Lacks 13 (codes "00ffffffffffffffec") refl)
    ∙ ap (λ n. size_round (wrapping_line ++ rest) 20 n decoded) long_size
    ∙ wrapping_size rest decoded

stays_at_2 :
    (fuel : ℕ) (rest decoded : Bytes) → decode_from fuel (wrapping_line ++ rest) 2 decoded ≡ none
unfolding decode_from
stays_at_2 zero rest decoded = refl
stays_at_2 (suc fuel) rest decoded =
    decode_go fuel (wrapping_line ++ rest) 2 decoded 2 (decoded ++ taken rest)
      (back_to_2 rest decoded)
    ∙ stays_at_2 fuel rest (decoded ++ taken rest)

-- The loop over chunks never ends on a body whose first line is `00ffffffffffffffec`, whatever
-- follows it: no number of rounds is enough.
pub decode_from-wrapping_line :
    (fuel : ℕ) (rest : Bytes) → decode_from fuel (wrapping_line ++ rest) 0 [] ≡ none
unfolding decode_from
decode_from-wrapping_line zero rest = refl
decode_from-wrapping_line (suc fuel) rest =
    decode_go fuel (wrapping_line ++ rest) 0 [] 2 (taken rest) (on_to_2 rest [])
    ∙ stays_at_2 fuel rest (taken rest)
