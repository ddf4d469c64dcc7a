-- ===== src/Net/Http/Tests.antt =====
-- The theorems about addresses and chunked bodies at concrete inputs.
use nova_visualiser.Prelude.{◌≡◌, refl, ◌<◌, none, some, List, [], ◌∷◌, ◌++◌, codes, All, arith}
use nova_visualiser.Net.Text.Cuts.{lacks-Lacks}
use nova_visualiser.Net.Numbers.{
  atoi_bits, skip_blanks, sign_of, digits_from, digit_of, strtoul16, behind_0x,
}
use nova_visualiser.Net.Http.{parse_url, atoi, decode_chunks, decode_from}
use nova_visualiser.Net.Http.Address.{parse_url_lem}
use nova_visualiser.Net.Http.Chunked.{Chunk, IsChunk, print_chunks, decode_chunks-print_chunks}
use nova_visualiser.Net.Http.Endless.{wrapping_line, decode_from-wrapping_line}

atoi-port : atoi (codes "3001") ≡ 3001
unfolding atoi atoi_bits skip_blanks sign_of digits_from digit_of
atoi-port = refl

port_positive : 0 < atoi (codes "3001")
port_positive = omega (arith, atoi-port)

parse_url_lem_example :
    ((parse_url (codes "http://" ++ ((codes "tv" ++ b':' ∷ codes "3001") ++ b'/' ∷ codes "api"))
        ≡ some (record { host = codes "tv"; port = atoi (codes "3001"); path = codes "/api" }))
      × (parse_url (codes "http://" ++ (codes "tv" ++ b'/' ∷ codes "api"))
          ≡ some (record { host = codes "tv"; port = 80; path = codes "/api" })))
    × (parse_url (codes "https://" ++ (codes "tv" ++ b'/' ∷ codes "api")) ≡ none)
parse_url_lem_example =
    parse_url_lem b't' (codes "v") (codes "3001") (codes "api") (lacks-Lacks b'/' (codes "tv") refl)
      (lacks-Lacks b':' (codes "tv") refl) (lacks-Lacks b'/' (codes "3001") refl) port_positive

abbrev chunks : List Chunk
chunks =
    record { size_text = codes "3"; bytes = codes "abc" }
    ∷ record { size_text = codes "0A"; bytes = codes "0123456789" }
    ∷ []

size_3 : strtoul16 (codes "3") ≡ 3
unfolding strtoul16 skip_blanks sign_of digits_from digit_of behind_0x
size_3 = refl

size_10 : strtoul16 (codes "0A") ≡ 10
unfolding strtoul16 skip_blanks sign_of digits_from digit_of behind_0x
size_10 = refl

size_0 : strtoul16 (codes "0") ≡ 0
unfolding strtoul16 skip_blanks sign_of digits_from digit_of behind_0x
size_0 = refl

chunks-IsChunk : All IsChunk chunks
chunks-IsChunk = (
  (lacks-Lacks 13 (codes "3") refl, (size_3, omega arith)),
  ((lacks-Lacks 13 (codes "0A") refl, (size_10, omega arith)), tt),
)

decode_chunks-print_chunks_example :
    decode_chunks (print_chunks chunks (codes "0") (13 ∷ 10 ∷ [])) ≡ some (codes "abc0123456789")
decode_chunks-print_chunks_example =
    decode_chunks-print_chunks chunks (codes "0") (13 ∷ 10 ∷ []) chunks-IsChunk
      (lacks-Lacks 13 (codes "0") refl) size_0 (omega arith)

decode_from-wrapping_line_example : decode_from 100 (wrapping_line ++ codes "more") 0 [] ≡ none
decode_from-wrapping_line_example = decode_from-wrapping_line 100 (codes "more")
