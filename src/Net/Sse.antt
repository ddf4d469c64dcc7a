-- ===== src/Net/Sse.antt =====
-- src/net/sse_client.cpp: what `SseClient::run` does with the bytes of one connection.
pub mod Chunks
pub mod Events
mod Tests
use nova_visualiser.Net.Text.{cut, find_behind}
use nova_visualiser.Prelude.{
  ℕ, zero, suc, Bool, true, false, Option, none, some, List, [], ◌∷◌, ◌++◌, length, Bytes, codes,
  if◌then◌else◌, ◌==◌, bytes_eq,
}

-- `line.pop_back()` if the line ends in a carriage return
pub chomp : Bytes → Bytes
chomp [] = []
chomp (c ∷ []) = if c == 13 then [] else c ∷ []
chomp (c ∷ d ∷ ds) = c ∷ chomp (d ∷ ds)

-- One space in front of a value is no part of it.
pub value_of : Bytes → Bytes
value_of [] = []
value_of (c ∷ cs) = if c == b' ' then cs else c ∷ cs

-- The event that is being read, and the calls of the handler so far.
pub record Reading : Type 0 where
  pub event_name : Bytes
  pub text : Bytes
  pub handled : List (Bytes × Bytes)

-- `eventName.empty() ? "message" : eventName`
name_or_message : Bytes → Bytes
name_or_message [] = codes "message"
name_or_message (c ∷ cs) = c ∷ cs

dispatch : Bytes → Reading → Reading
unfolding name_or_message
dispatch [] e = e
dispatch (c ∷ cs) e = record e {
  handled = e.handled ++ (name_or_message e.event_name, c ∷ cs) ∷ [];
}

-- A blank line: the event goes to the handler unless it has no data, and a new one begins.
pub blank_line : Reading → Reading
unfolding dispatch
blank_line e = record (dispatch e.text e) { event_name = []; text = [] }

append_data : Bytes → Bytes → Bytes
append_data [] value = value
append_data (c ∷ cs) value = (c ∷ cs) ++ b'\n' ∷ value

pub set_field : Bytes → Bytes → Reading → Reading
unfolding append_data
set_field field value e =
    if bytes_eq field (codes "event")
    then record e { event_name = value }
    else if bytes_eq field (codes "data")
    then record e { text = append_data e.text value }
    else e

field_line : Option (Bytes × Bytes) → Reading → Reading
unfolding set_field
field_line none e = e
field_line (some (field, value)) e = set_field field (value_of value) e

-- The body of the loop over lines, on a line that has lost its line end.
pub handle_line : Bytes → Reading → Reading
unfolding field_line
handle_line [] e = blank_line e
handle_line (c ∷ cs) e = if c == b':' then e else field_line (cut b':' (c ∷ cs)) e

-- The loop over lines: what is left of `pending`, which holds no line end if the fuel was enough.
pub drain : ℕ → Bytes → Reading → Bytes × Reading
unfolding handle_line
drain zero pending e = (pending, e)
drain (suc fuel) pending e = elim (cut b'\n' pending) [
  | none ↦ (pending, e)
  | some found ↦ drain fuel found.1 (handle_line (chomp found.0) e)
]

-- The local variables of `run`.
pub record Connection : Type 0 where
  pub pending : Bytes
  pub headers_done : Bool
  pub reading : Reading

-- A connection has just been made.
abbrev pub connected : List (Bytes × Bytes) → Connection
connected handled = record {
  pending = [];
  headers_done = false;
  reading = record { event_name = []; text = []; handled = handled };
}

-- The loop on `pending`, with a round for each of its bytes.
pub drain_all : Bytes → Reading → Connection
unfolding drain
drain_all pending e =
    let (rest, e') = drain (length pending) pending e in
    record { pending = rest; headers_done = true; reading = e' }

behind_headers : Bytes → Option Bytes → Reading → Connection
unfolding drain_all
behind_headers pending none e = record { pending = pending; headers_done = false; reading = e }
behind_headers pending (some rest) e = drain_all rest e

-- `recv` has returned the bytes `received`.
pub receive : Bytes → Connection → Connection
unfolding behind_headers
receive received s =
    let pending = s.pending ++ received in
    if s.headers_done
    then drain_all pending s.reading
    else behind_headers pending (find_behind (13 ∷ 10 ∷ 13 ∷ 10 ∷ []) pending) s.reading
