-- ===== src/Net/Sse/Tests.antt =====
-- A run of the event stream, and the theorems about it at concrete inputs.
use nova_visualiser.Prelude.{◌≡◌, refl, true, [], ◌∷◌, ◌++◌, codes, Bytes, bytes_eq, All}
use nova_visualiser.Net.Text.{cut, find_behind, behind, or_else, or_pushed}
use nova_visualiser.Net.Sse.{
  connected, receive, behind_headers, drain_all, drain, handle_line, field_line, set_field,
  append_data, blank_line, dispatch, chomp, value_of, name_or_message,
}
use nova_visualiser.Net.Text.Cuts.{Lacks}
use nova_visualiser.Net.Sse.Chunks.{receive-append, receive-pending}
use nova_visualiser.Net.Sse.Events.{IsLine, print_event, join_lines, between, receive-print_event}

-- The end of the headers is split over the two calls.
abbrev first_bytes : Bytes
first_bytes = codes "HTTP/1.1 200 OK" ++ 13 ∷ 10 ∷ 13 ∷ []

abbrev second_bytes : Bytes
second_bytes = 10 ∷ print_event (codes "beat") (codes "1" ∷ codes "2" ∷ [])

receive-sample :
    receive (first_bytes ++ second_bytes) (connected [])
    ≡ between ((codes "beat", codes "1" ++ 10 ∷ codes "2") ∷ [])
unfolding receive behind_headers drain_all drain find_behind behind or_else cut or_pushed
    handle_line field_line set_field append_data blank_line dispatch chomp value_of name_or_message
    bytes_eq
receive-sample = refl

receive-append_example :
    receive second_bytes (receive first_bytes (connected []))
    ≡ receive (first_bytes ++ second_bytes) (connected [])
receive-append_example = receive-append first_bytes second_bytes (connected [])

still_open : (receive (codes "event: beat") (between [])).headers_done ≡ true
unfolding receive drain_all
still_open = refl

receive-pending_example : Lacks 10 (receive (codes "event: beat") (between [])).pending
receive-pending_example = receive-pending (codes "event: beat") (between []) still_open

receive-print_event_example :
    receive (print_event (codes "beat") (codes "1" ∷ codes "2" ∷ [])) (between [])
    ≡ between ((codes "beat", join_lines (codes "1") (codes "2" ∷ [])) ∷ [])
receive-print_event_example =
    receive-print_event b'b' (codes "eat") b'1' [] (codes "2" ∷ []) [] name first second
  where
    name : IsLine (codes "beat")
    name = ((refl, (refl, (refl, (refl, tt)))), (refl, (refl, (refl, (refl, tt)))))

    first : IsLine (codes "1")
    first = ((refl, tt), (refl, tt))

    second : All IsLine (codes "2" ∷ [])
    second = (((refl, tt), (refl, tt)), tt)
