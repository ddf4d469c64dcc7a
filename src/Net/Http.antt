-- ===== src/Net/Http.antt =====
-- src/net/http_client.cpp: `Url::parse`, and the decoding of a chunked body in `perform`.
pub mod Chunked
pub mod Address
pub mod Endless
mod Tests
use nova_visualiser.Prelude.{
  ℕ, zero, suc, ◌+◌, ◌-◌, ◌*◌, ◌%◌, ◌^◌, min, Bool, true, false, ◌&&◌, ◌||◌, Option, none, some, [],
  ◌∷◌, ◌++◌, length, take, drop, Bytes, codes, if◌then◌else◌, ltb, leb, ◌==◌,
}
use nova_visualiser.Net.Numbers.{atoi_bits, strtoul16}
use nova_visualiser.Net.Text.{cut, behind, find_behind}

-- A port that is not positive counts as 0: the code uses it only if it is positive.
pub atoi : Bytes → ℕ
unfolding atoi_bits
atoi text = let low = atoi_bits text in if ltb low (2 ^ 31) then low else 0

pub record Url : Type 0 where
  pub host : Bytes
  pub port : ℕ
  pub path : Bytes

pub not_https : Bytes → Option Bytes → Option Bytes
not_https text none = some text
not_https text (some rest) = none

pub without_scheme : Bytes → Option Bytes → Option Bytes
unfolding not_https
without_scheme text none = not_https text (behind (codes "https://") text)
without_scheme text (some rest) = some rest

-- The return value: false, here none, without a host or a port.
pub accepted : Url → Option Url
accepted u = elim u.host [ [] ↦ none | h ∷ hs ↦ if u.port == 0 then none else some u ]

pub with_port : Bytes → Bytes → Option (Bytes × Bytes) → Url
unfolding atoi
with_port path authority none = record { host = authority; port = 80; path = path }
with_port path authority (some (host, port)) = record { host = host; port = atoi port; path = path }

pub with_path : Bytes → Option (Bytes × Bytes) → Url
unfolding with_port
with_path remainder none = with_port (codes "/") remainder (cut b':' remainder)
with_path remainder (some (authority, rest)) =
    with_port (b'/' ∷ rest) authority (cut b':' authority)

pub parse_remainder : Option Bytes → Option Url
unfolding accepted with_path
parse_remainder none = none
parse_remainder (some remainder) = accepted (with_path remainder (cut b'/' remainder))

-- `Url::parse`
pub parse_url : Bytes → Option Url
unfolding parse_remainder without_scheme
parse_url text = parse_remainder (without_scheme text (behind (codes "http://") text))

-- `payload.find("\r\n")`: the text in front and the text behind.
here_or_later : ℕ → Option Bytes → Option (Bytes × Bytes) → Option (Bytes × Bytes)
here_or_later c (some rest) later = some ([], rest)
here_or_later c none none = none
here_or_later c none (some (front, rest)) = some (c ∷ front, rest)

pub cut_line : Bytes → Option (Bytes × Bytes)
unfolding here_or_later
cut_line [] = none
cut_line (c ∷ cs) = here_or_later c (behind (13 ∷ 10 ∷ []) (c ∷ cs)) (cut_line cs)

-- What a round of the loop over chunks does: it leaves the loop, or goes on at a cursor with the
-- bytes decoded so far.
pub data Round : Type 0 where
  stop : Round
  go : ℕ → Bytes → Round

pub size_round : Bytes → ℕ → ℕ → Bytes → Round
size_round payload start size decoded =
    if size == 0
    then stop
    else if ltb (length payload) ((start + size) % 2 ^ 64)
    then stop
    else go ((start + size + 2) % 2 ^ 64) (decoded ++ take size (drop start payload))

pub line_round : Bytes → ℕ → Bytes → Option (Bytes × Bytes) → Round
unfolding size_round strtoul16
line_round payload cursor decoded none = stop
line_round payload cursor decoded (some (line, rest)) =
    size_round payload (cursor + length line + 2) (strtoul16 line) decoded

pub chunk_round : Bytes → ℕ → Bytes → Round
unfolding line_round cut_line
chunk_round payload cursor decoded =
    if ltb cursor (length payload)
    then line_round payload cursor decoded (cut_line (drop cursor payload))
    else stop

-- The loop over chunks; none is a lack of fuel.
pub decode_from : ℕ → Bytes → ℕ → Bytes → Option Bytes
unfolding chunk_round
decode_from zero payload cursor decoded = none
decode_from (suc fuel) payload cursor decoded = elim (chunk_round payload cursor decoded) [
  | stop ↦ some decoded
  | go next more ↦ decode_from fuel payload next more
]

-- The body of a chunked response, with a round for each byte and one to leave the loop.
pub decode_chunks : Bytes → Option Bytes
decode_chunks payload = decode_from (suc (length payload)) payload 0 []
