-- ===== src/Net/Sse/Events.antt =====
-- The events that a server writes, and what `SseClient` of src/net/sse_client.cpp makes of them.
use nova_visualiser.Prelude.{
  ℕ, ◌≡◌, refl, ap, ◌∙◌, false, List, [], ◌∷◌, ◌++◌, append_assoc, All, All-append, Bytes, codes,
  ◌==◌, bytes_eq,
}
use nova_visualiser.Net.Sse.{
  Reading, Connection, chomp, value_of, handle_line, field_line, set_field, blank_line, append_data,
  dispatch, name_or_message, receive,
}
use nova_visualiser.Net.Text.Cuts.{Lacks, cut-append}
use nova_visualiser.Net.Sse.Chunks.{byte, feed, feed_line, open_with, drain_all-feed}

-- `field: value`, as the server writes it.
abbrev pub print_field : Bytes → Bytes → Bytes
print_field name value = name ++ b':' ∷ b' ' ∷ value

abbrev pub print_data : List Bytes → Bytes
print_data [] = []
print_data (line ∷ lines) = print_field (codes "data") line ++ b'\n' ∷ print_data lines

-- An event of a name and of lines of data.
abbrev pub print_event : Bytes → List Bytes → Bytes
print_event name lines =
    print_field (codes "event") name ++ b'\n' ∷ (print_data lines ++ b'\n' ∷ [])

abbrev pub join_lines : Bytes → List Bytes → Bytes
join_lines front [] = front
join_lines front (line ∷ lines) = join_lines (front ++ b'\n' ∷ line) lines

-- Text with no line end of either kind.
abbrev pub IsLine : Bytes → Type 0
IsLine text = Lacks b'\n' text × Lacks 13 text

chomp-Lacks : (t : Bytes) → Lacks 13 t → chomp t ≡ t
unfolding chomp
chomp-Lacks [] h = refl
chomp-Lacks (c ∷ []) h = rw h.0 refl
chomp-Lacks (c ∷ d ∷ ds) h = ap (◌∷◌ c) (chomp-Lacks (d ∷ ds) h.1)

print_field-Lacks :
    (s : ℕ) (name value : Bytes)
    → (b':' == s) ≡ false
    → (b' ' == s) ≡ false
    → Lacks s name
    → Lacks s value
    → Lacks s (print_field name value)
print_field-Lacks s name value colon space h k =
    All-append (λ c. (c == s) ≡ false) name (b':' ∷ b' ' ∷ value) h (colon, (space, k))

handle_field :
    (c : ℕ) (cs value : Bytes) (e : Reading)
    → Lacks b':' (c ∷ cs)
    → handle_line (print_field (c ∷ cs) value) e ≡ set_field (c ∷ cs) value e
unfolding handle_line
handle_field c cs value e h = rw (h.0) (
    ap (λ o. field_line o e) (cut-append b':' (c ∷ cs) (b' ' ∷ value) h)
    ∙ unfold field_line value_of in refl)

-- A field's line, once it is there with its line end.
feed_field :
    (c : ℕ) (cs value rest : Bytes) (e : Reading)
    → Lacks b':' (c ∷ cs)
    → IsLine (c ∷ cs)
    → IsLine value
    → feed ([], e) (print_field (c ∷ cs) value ++ b'\n' ∷ rest)
      ≡ feed ([], set_field (c ∷ cs) value e) rest
feed_field c cs value rest e colon name line =
    feed_line [] (print_field (c ∷ cs) value) rest e
      (print_field-Lacks b'\n' (c ∷ cs) value refl refl name.0 line.0)
    ∙ ap (λ l. feed ([], handle_line l e) rest)
        (chomp-Lacks (print_field (c ∷ cs) value)
          (print_field-Lacks 13 (c ∷ cs) value refl refl name.1 line.1))
    ∙ ap (λ e. feed ([], e) rest) (handle_field c cs value e colon)

-- A connection between two events, its headers done, that has made these calls of the handler.
abbrev pub between : List (Bytes × Bytes) → Connection
between handled = open_with ([], record { event_name = []; text = []; handled = handled })

abbrev reading : Bytes → Bytes → List (Bytes × Bytes) → Reading
reading name text handled = record { event_name = name; text = text; handled = handled }

module _ (name : Bytes) (handled : List (Bytes × Bytes)) where
  set_event :
      (value : Bytes)
      → set_field (codes "event") value (reading [] [] handled) ≡ reading value [] handled
  unfolding set_field bytes_eq
  set_event value = refl

  set_first :
      (line : Bytes)
      → set_field (codes "data") line (reading name [] handled) ≡ reading name line handled
  unfolding set_field bytes_eq append_data
  set_first line = refl

  set_next :
      (c : ℕ) (cs line : Bytes)
      → set_field (codes "data") line (reading name (c ∷ cs) handled)
        ≡ reading name ((c ∷ cs) ++ b'\n' ∷ line) handled
  unfolding set_field bytes_eq append_data
  set_next c cs line = refl

data_line :
    (line rest : Bytes) (lines : List Bytes) (e : Reading)
    → IsLine line
    → feed ([], e) (print_data (line ∷ lines) ++ rest)
      ≡ feed ([], set_field (codes "data") line e) (print_data lines ++ rest)
data_line line rest lines e h =
    ap (feed ([], e))
      (append_assoc (print_field (codes "data") line) (b'\n' ∷ print_data lines) rest)
    ∙ feed_field b'd' (codes "ata") line (print_data lines ++ rest) e
        (refl, (refl, (refl, (refl, tt))))
        ((refl, (refl, (refl, (refl, tt)))), (refl, (refl, (refl, (refl, tt))))) h

-- The lines of data behind the first one.
feed_data :
    (name : Bytes) (c : ℕ) (cs : Bytes) (lines : List Bytes) (rest : Bytes)
    (handled : List (Bytes × Bytes))
    → All IsLine lines
    → feed ([], reading name (c ∷ cs) handled) (print_data lines ++ rest)
      ≡ feed ([], reading name (join_lines (c ∷ cs) lines) handled) rest
feed_data name c cs [] rest handled h = refl
feed_data name c cs (line ∷ lines) rest handled h =
    data_line line rest lines (reading name (c ∷ cs) handled) h.0
    ∙ ap (λ e. feed ([], e) (print_data lines ++ rest)) (set_next name handled c cs line)
    ∙ feed_data name c (cs ++ b'\n' ∷ line) lines rest handled h.1

join_lines_cons :
    (c : ℕ) (cs : Bytes) (lines : List Bytes)
    → (d : ℕ) × ((ds : Bytes) × (join_lines (c ∷ cs) lines ≡ d ∷ ds))
join_lines_cons c cs [] = (c, (cs, refl))
join_lines_cons c cs (line ∷ lines) = join_lines_cons c (cs ++ b'\n' ∷ line) lines

-- The blank line behind an event.
feed_blank :
    (n : ℕ) (ns : Bytes) (d : ℕ) (ds : Bytes) (handled : List (Bytes × Bytes))
    → feed ([], reading (n ∷ ns) (d ∷ ds) handled) (b'\n' ∷ [])
      ≡ ([], reading [] [] (handled ++ (n ∷ ns, d ∷ ds) ∷ []))
unfolding feed byte handle_line chomp blank_line dispatch name_or_message
feed_blank n ns d ds handled = refl

feed_event :
    (n : ℕ) (ns : Bytes) (c : ℕ) (cs : Bytes) (lines : List Bytes) (handled : List (Bytes × Bytes))
    → IsLine (n ∷ ns)
    → IsLine (c ∷ cs)
    → All IsLine lines
    → feed ([], reading [] [] handled) (print_event (n ∷ ns) ((c ∷ cs) ∷ lines))
      ≡ ([], reading [] [] (handled ++ (n ∷ ns, join_lines (c ∷ cs) lines) ∷ []))
feed_event n ns c cs lines handled hn hc hl =
    feed_field b'e' (codes "vent") (n ∷ ns) (print_data ((c ∷ cs) ∷ lines) ++ b'\n' ∷ [])
      (reading [] [] handled) (refl, (refl, (refl, (refl, (refl, tt)))))
      ((refl, (refl, (refl, (refl, (refl, tt))))), (refl, (refl, (refl, (refl, (refl, tt)))))) hn
    ∙ ap (λ e. feed ([], e) (print_data ((c ∷ cs) ∷ lines) ++ b'\n' ∷ []))
        (set_event [] handled (n ∷ ns))
    ∙ data_line (c ∷ cs) (b'\n' ∷ []) lines (reading (n ∷ ns) [] handled) hc
    ∙ ap (λ e. feed ([], e) (print_data lines ++ b'\n' ∷ [])) (set_first (n ∷ ns) handled (c ∷ cs))
    ∙ feed_data (n ∷ ns) c cs lines (b'\n' ∷ []) handled hl
    ∙ feed_end (join_lines_cons c cs lines)
  where
    feed_end :
        {joined : Bytes}
        → (d : ℕ) × ((ds : Bytes) × (joined ≡ d ∷ ds))
        → feed ([], reading (n ∷ ns) joined handled) (b'\n' ∷ [])
          ≡ ([], reading [] [] (handled ++ (n ∷ ns, joined) ∷ []))
    feed_end (d, (ds, e)) = simp e (feed_blank n ns d ds handled)

-- For an event with a name and data, none of which holds a line end, and whose first line is not
-- empty: once a connection between two events has received it, the handler has been called with
-- the name and the lines joined by line ends, and the connection is between two events again.
pub receive-print_event :
    (n : ℕ) (ns : Bytes) (c : ℕ) (cs : Bytes) (lines : List Bytes) (handled : List (Bytes × Bytes))
    → IsLine (n ∷ ns)
    → IsLine (c ∷ cs)
    → All IsLine lines
    → receive (print_event (n ∷ ns) ((c ∷ cs) ∷ lines)) (between handled)
      ≡ between (handled ++ (n ∷ ns, join_lines (c ∷ cs) lines) ∷ [])
unfolding receive
receive-print_event n ns c cs lines handled hn hc hl =
    drain_all-feed (print_event (n ∷ ns) ((c ∷ cs) ∷ lines)) (reading [] [] handled)
    ∙ ap open_with (feed_event n ns c cs lines handled hn hc hl)
