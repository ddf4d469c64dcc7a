-- ===== src/Net/Http/Chunked.antt =====
-- The decoding of a chunked body in src/net/http_client.cpp, against a writer of one.
use nova_visualiser.Prelude.{
  ℕ, zero, suc, ◌+◌, ◌%◌, ◌^◌, ◌≤◌, ◌<◌, ◌≡◌, refl, sym, ap, ◌∙◌, none, some, List, [], ◌∷◌, ◌++◌,
  append_assoc, append-nil, length, length-append, take, take-append, drop-append, All, Bytes, ◌==◌,
  ltb, false, true, arith,
}
use nova_visualiser.Net.Text.{behind}
use nova_visualiser.Net.Text.Cuts.{Lacks}
use nova_visualiser.Net.Numbers.{strtoul16}
use nova_visualiser.Net.Http.{
  stop, go, cut_line, here_or_later, size_round, line_round, chunk_round, decode_from,
  decode_chunks,
}

-- A chunk as it is sent: the text of its size, which may carry an extension, and its bytes.
pub record Chunk : Type 0 where
  pub size_text : Bytes
  pub bytes : Bytes

-- The size that the text writes is the number of bytes, and not 0.
abbrev pub IsChunk : Chunk → Type 0
IsChunk c = Lacks 13 c.size_text × ((strtoul16 c.size_text ≡ length c.bytes) × (0 < length c.bytes))

abbrev pub print_chunk : Chunk → Bytes
print_chunk c = c.size_text ++ 13 ∷ 10 ∷ (c.bytes ++ 13 ∷ 10 ∷ [])

-- The chunks, a last one of size 0, and whatever follows it.
abbrev pub print_chunks : List Chunk → Bytes → Bytes → Bytes
print_chunks [] last rest = last ++ 13 ∷ 10 ∷ rest
print_chunks (c ∷ cs) last rest = print_chunk c ++ print_chunks cs last rest

abbrev pub joined : List Chunk → Bytes
joined [] = []
joined (c ∷ cs) = c.bytes ++ joined cs

flipped : (c : ℕ) → (c == 13) ≡ false → (13 == c) ≡ false
flipped c h = ground arith

cut_line-append : (t rest : Bytes) → Lacks 13 t → cut_line (t ++ 13 ∷ 10 ∷ rest) ≡ some (t, rest)
unfolding cut_line behind here_or_later
cut_line-append [] rest h = refl
cut_line-append (c ∷ cs) rest h =
    rw (flipped c h.0) (ap (here_or_later c none) (cut_line-append cs rest h.1))

nonzero : (n : ℕ) → 0 < n → (n == 0) ≡ false
nonzero n h = ground arith

fits : (all m : ℕ) → m ≤ all → all + 2 < 2 ^ 64 → ltb all (m % 2 ^ 64) ≡ false
fits all m h bound = ground arith

not_wrapped : (m : ℕ) → m < 2 ^ 64 → m % 2 ^ 64 ≡ m
not_wrapped m h = omega arith

length-front :
    (front bytes rest : Bytes) → length front + length bytes ≤ length (front ++ (bytes ++ rest))
length-front front bytes rest =
    omega (arith, length-append front (bytes ++ rest), length-append bytes rest)

-- A chunk of a size that is not 0, whose bytes are there.
size_round_chunk :
    (front bytes rest decoded : Bytes)
    → 0 < length bytes
    → length (front ++ (bytes ++ rest)) + 2 < 2 ^ 64
    → size_round (front ++ (bytes ++ rest)) (length front) (length bytes) decoded
      ≡ go (length front + length bytes + 2) (decoded ++ bytes)
unfolding size_round
size_round_chunk front bytes rest decoded positive bound = rw (nonzero (length bytes) positive) (
    rw
      (fits (length (front ++ (bytes ++ rest))) (length front + length bytes)
        (length-front front bytes rest) bound)
      (λ i.
        go
          (not_wrapped (length front + length bytes + 2)
            (omega (arith, bound, length-front front bytes rest)) i)
          (decoded
            ++ (ap (take (length bytes)) (drop-append front (bytes ++ rest))
                  ∙ take-append bytes rest)
                i)))

before : (front all more : ℕ) → all ≡ front + more → 0 < more → ltb front all ≡ true
before front all more e h = ground arith

within :
    (front t rest : Bytes) → ltb (length front) (length (front ++ (t ++ 13 ∷ 10 ∷ rest))) ≡ true
within front t rest =
    before (length front) (length (front ++ (t ++ 13 ∷ 10 ∷ rest))) (length (t ++ 13 ∷ 10 ∷ rest))
      (length-append front (t ++ 13 ∷ 10 ∷ rest)) (omega (arith, length-append t (13 ∷ 10 ∷ rest)))

-- The size line at the cursor.
pub chunk_round_line :
    (front t rest decoded : Bytes)
    → Lacks 13 t
    → chunk_round (front ++ (t ++ 13 ∷ 10 ∷ rest)) (length front) decoded
      ≡ size_round
          (front ++ (t ++ 13 ∷ 10 ∷ rest))
          (length front + length t + 2)
          (strtoul16 t)
          decoded
unfolding chunk_round line_round
chunk_round_line front t rest decoded h = rw (within front t rest) (
    ap (line_round (front ++ (t ++ 13 ∷ 10 ∷ rest)) (length front) decoded)
      (ap cut_line (drop-append front (t ++ 13 ∷ 10 ∷ rest)) ∙ cut_line-append t rest h))

-- What is in front of a chunk's bytes, and of what follows the chunk.
abbrev behind_size : Bytes → Bytes → Bytes
behind_size front t = front ++ (t ++ 13 ∷ 10 ∷ [])

abbrev behind_chunk : Bytes → Chunk → Bytes
behind_chunk front c = behind_size front c.size_text ++ (c.bytes ++ 13 ∷ 10 ∷ [])

split_size : (front t rest : Bytes) → front ++ (t ++ 13 ∷ 10 ∷ rest) ≡ behind_size front t ++ rest
split_size front t rest =
    ap (front ++◌) (sym (append_assoc t (13 ∷ 10 ∷ []) rest))
    ∙ sym (append_assoc front (t ++ 13 ∷ 10 ∷ []) rest)

length-behind_size : (front t : Bytes) → length (behind_size front t) ≡ length front + length t + 2
length-behind_size front t =
    omega (arith, length-append front (t ++ 13 ∷ 10 ∷ []), length-append t (13 ∷ 10 ∷ []))

chunk_at_cursor :
    (front more : Bytes) (c : Chunk)
    → front ++ (print_chunk c ++ more)
      ≡ front ++ (c.size_text ++ 13 ∷ 10 ∷ (c.bytes ++ 13 ∷ 10 ∷ more))
chunk_at_cursor front more c = ap (front ++◌) (
    append_assoc c.size_text (13 ∷ 10 ∷ (c.bytes ++ 13 ∷ 10 ∷ [])) more
    ∙ ap (λ t. c.size_text ++ 13 ∷ 10 ∷ t) (append_assoc c.bytes (13 ∷ 10 ∷ []) more))

split_chunk :
    (front more : Bytes) (c : Chunk)
    → front ++ (print_chunk c ++ more) ≡ behind_chunk front c ++ more
split_chunk front more c =
    chunk_at_cursor front more c
    ∙ split_size front c.size_text (c.bytes ++ 13 ∷ 10 ∷ more)
    ∙ ap (behind_size front c.size_text ++◌) (sym (append_assoc c.bytes (13 ∷ 10 ∷ []) more))
    ∙ sym (append_assoc (behind_size front c.size_text) (c.bytes ++ 13 ∷ 10 ∷ []) more)

-- The round of a whole chunk moves the cursor behind it.
chunk_round_chunk :
    (front more decoded : Bytes) (c : Chunk)
    → IsChunk c
    → length (front ++ (print_chunk c ++ more)) + 2 < 2 ^ 64
    → chunk_round (front ++ (print_chunk c ++ more)) (length front) decoded
      ≡ go (length (behind_chunk front c)) (decoded ++ c.bytes)
chunk_round_chunk front more decoded c h bound =
    let t = c.size_text in
    let tail = c.bytes ++ 13 ∷ 10 ∷ more in
    let whole = chunk_at_cursor front more c ∙ split_size front t tail in
    ap (λ p. chunk_round p (length front) decoded) (chunk_at_cursor front more c)
    ∙ chunk_round_line front t tail decoded h.0
    ∙ ap (λ p. size_round p (length front + length t + 2) (strtoul16 t) decoded)
        (split_size front t tail)
    ∙ ap (λ n. size_round (behind_size front t ++ tail) n (strtoul16 t) decoded)
        (sym (length-behind_size front t))
    ∙ ap (λ n. size_round (behind_size front t ++ tail) (length (behind_size front t)) n decoded)
        h.1.0
    ∙ size_round_chunk (behind_size front t) c.bytes (13 ∷ 10 ∷ more) decoded h.1.1
        (omega (arith, bound, ap length whole))
    ∙ ap (λ n. go n (decoded ++ c.bytes))
        (omega (
          arith,
          length-append (behind_size front t) (c.bytes ++ 13 ∷ 10 ∷ []),
          length-append c.bytes (13 ∷ 10 ∷ []),
        ))

chunk_round_last :
    (front last rest decoded : Bytes)
    → Lacks 13 last
    → strtoul16 last ≡ 0
    → chunk_round (front ++ (last ++ 13 ∷ 10 ∷ rest)) (length front) decoded ≡ stop
unfolding size_round
chunk_round_last front last rest decoded h zero_size =
    chunk_round_line front last rest decoded h
    ∙ ap
        (λ n.
          size_round (front ++ (last ++ 13 ∷ 10 ∷ rest)) (length front + length last + 2) n decoded)
        zero_size

decode_stop :
    (fuel : ℕ) (payload : Bytes) (cursor : ℕ) (decoded : Bytes)
    → chunk_round payload cursor decoded ≡ stop
    → decode_from (suc fuel) payload cursor decoded ≡ some decoded
unfolding decode_from
decode_stop fuel payload cursor decoded h = rw (h, decode_from) refl

pub decode_go :
    (fuel : ℕ) (payload : Bytes) (cursor : ℕ) (decoded : Bytes) (next : ℕ) (more : Bytes)
    → chunk_round payload cursor decoded ≡ go next more
    → decode_from (suc fuel) payload cursor decoded ≡ decode_from fuel payload next more
unfolding decode_from
decode_go fuel payload cursor decoded next more h = rw (h, decode_from) refl

decode_from_chunks :
    (fuel : ℕ) (chunks : List Chunk) (front last rest decoded : Bytes)
    → length chunks < fuel
    → All IsChunk chunks
    → Lacks 13 last
    → strtoul16 last ≡ 0
    → length (front ++ print_chunks chunks last rest) + 2 < 2 ^ 64
    → decode_from fuel (front ++ print_chunks chunks last rest) (length front) decoded
      ≡ some (decoded ++ joined chunks)
decode_from_chunks zero chunks front last rest decoded lt h l z bound = absurd (omega arith)
decode_from_chunks (suc fuel) [] front last rest decoded lt h l z bound =
    decode_stop fuel (front ++ (last ++ 13 ∷ 10 ∷ rest)) (length front) decoded
      (chunk_round_last front last rest decoded l z)
    ∙ ap some (sym (append-nil decoded))
decode_from_chunks (suc fuel) (c ∷ cs) front last rest decoded lt h l z bound =
    let more = print_chunks cs last rest in
    decode_go fuel (front ++ (print_chunk c ++ more)) (length front) decoded
      (length (behind_chunk front c)) (decoded ++ c.bytes)
      (chunk_round_chunk front more decoded c h.0 bound)
    ∙ ap (λ p. decode_from fuel p (length (behind_chunk front c)) (decoded ++ c.bytes))
        (split_chunk front more c)
    ∙ decode_from_chunks fuel cs (behind_chunk front c) last rest (decoded ++ c.bytes) (omega arith)
        h.1 l z (omega (arith, bound, ap length (split_chunk front more c)))
    ∙ ap some (append_assoc decoded c.bytes (joined cs))

length-print_chunks :
    (cs : List Chunk) (last rest : Bytes) → length cs ≤ length (print_chunks cs last rest)
length-print_chunks [] last rest = omega arith
length-print_chunks (c ∷ cs) last rest = omega (
  arith,
  length-print_chunks cs last rest,
  length-append (print_chunk c) (print_chunks cs last rest),
  length-append c.size_text (13 ∷ 10 ∷ (c.bytes ++ 13 ∷ 10 ∷ [])),
)

-- For a body of chunks that ends in a chunk of size 0 and is below 2 ^ 64 - 2 bytes, where each
-- size line has no carriage return and `strtoul` reads it as the number of bytes of its chunk, not
-- 0: the decoding ends with the chunks' bytes joined, whatever follows the last chunk.
pub decode_chunks-print_chunks :
    (chunks : List Chunk) (last rest : Bytes)
    → All IsChunk chunks
    → Lacks 13 last
    → strtoul16 last ≡ 0
    → length (print_chunks chunks last rest) + 2 < 2 ^ 64
    → decode_chunks (print_chunks chunks last rest) ≡ some (joined chunks)
unfolding decode_chunks
decode_chunks-print_chunks chunks last rest h l z bound =
    decode_from_chunks (suc (length (print_chunks chunks last rest))) chunks [] last rest []
      (omega (arith, length-print_chunks chunks last rest)) h l z bound
