-- ===== src/Net/Sse/Chunks.antt =====
-- The loop over lines of src/net/sse_client.cpp, compared with one that takes a byte at a time.
use nova_visualiser.Prelude.{
  ℕ, zero, suc, ◌≤◌, ◌≡◌, refl, sym, ap, ◌∙◌, Bool, true, false, Option, none, some, [], ◌∷◌, ◌++◌,
  length, length-append, All-append, Bytes, if◌then◌else◌, ◌==◌, append_assoc, append-nil,
  Bool-cases, inl, inr, arith,
}
use nova_visualiser.Net.Text.{cut, find_behind}
use nova_visualiser.Net.Sse.{
  Reading, Connection, chomp, handle_line, drain, drain_all, behind_headers, receive,
}
use nova_visualiser.Net.Text.Found.{StaysFound, find_behind-StaysFound}
use nova_visualiser.Net.Text.Cuts.{Lacks, Splits, cut-Splits}

-- One byte of a connection whose headers are done.
unfoldable pub byte : ℕ → Bytes × Reading → Bytes × Reading
byte c st = if c == b'\n' then ([], handle_line (chomp st.0) st.1) else (st.0 ++ c ∷ [], st.1)

unfoldable pub feed : Bytes × Reading → Bytes → Bytes × Reading
unfolding byte
feed st [] = st
feed st (c ∷ cs) = feed (byte c st) cs

feed-append : (st : Bytes × Reading) (xs ys : Bytes) → feed st (xs ++ ys) ≡ feed (feed st xs) ys
unfolding feed
feed-append st [] ys = refl
feed-append st (x ∷ xs) ys = feed-append (byte x st) xs ys

byte_end :
    (c : ℕ) (q : Bytes) (e : Reading)
    → (c == b'\n') ≡ true
    → byte c (q, e) ≡ ([], handle_line (chomp q) e)
unfolding byte
byte_end c q e h = rw h

pub byte_newline : (q : Bytes) (e : Reading) → byte b'\n' (q, e) ≡ ([], handle_line (chomp q) e)
unfolding byte
byte_newline q e = refl

byte_other :
    (c : ℕ) (q : Bytes) (e : Reading) → (c == b'\n') ≡ false → byte c (q, e) ≡ (q ++ c ∷ [], e)
unfolding byte
byte_other c q e h = rw h

-- Text with no line end stays pending.
feed-Lacks : (q p : Bytes) (e : Reading) → Lacks b'\n' p → feed (q, e) p ≡ (q ++ p, e)
unfolding feed
feed-Lacks q [] e h = ap (λ w. (w, e)) (sym (append-nil q))
feed-Lacks q (c ∷ cs) e h =
    ap (λ st. feed st cs) (byte_other c q e h.0)
    ∙ feed-Lacks (q ++ c ∷ []) cs e h.1
    ∙ ap (λ w. (w, e)) (append_assoc q (c ∷ []) cs)

-- A line is handled at its end.
pub feed_line :
    (q l r : Bytes) (e : Reading)
    → Lacks b'\n' l
    → feed (q, e) (l ++ b'\n' ∷ r) ≡ feed ([], handle_line (chomp (q ++ l)) e) r
feed_line q l r e h =
    feed-append (q, e) l (b'\n' ∷ r)
    ∙ ap (λ st. feed st (b'\n' ∷ r)) (feed-Lacks q l e h)
    ∙ unfold feed in (ap (λ st. feed st r) (byte_newline (q ++ l) e))

-- One round of the loop, on what was found.
drain_found : ℕ → Bytes → Reading → Option (Bytes × Bytes) → Bytes × Reading
drain_found fuel p e none = (p, e)
drain_found fuel p e (some found) = drain fuel found.1 (handle_line (chomp found.0) e)

drain_round :
    (fuel : ℕ) (p : Bytes) (e : Reading) (o : Option (Bytes × Bytes))
    → cut b'\n' p ≡ o
    → drain (suc fuel) p e ≡ drain_found fuel p e o
unfolding drain drain_found
drain_round fuel p e none h = rw (h, drain)
drain_round fuel p e (some found) h = rw (h, drain)

-- `drain` with so much fuel does what the bytes one at a time do.
abbrev Enough : ℕ → Type 0
Enough fuel = (p : Bytes) (e : Reading) → length p ≤ fuel → drain fuel p e ≡ feed ([], e) p

drain_found-feed :
    (fuel : ℕ) (p : Bytes) (e : Reading) (o : Option (Bytes × Bytes))
    → Enough fuel
    → length p ≤ suc fuel
    → Splits b'\n' p o
    → drain_found fuel p e o ≡ feed ([], e) p
unfolding drain_found
drain_found-feed fuel p e none enough h s = sym (feed-Lacks [] p e s)
drain_found-feed fuel p e (some (l, r)) enough h s =
    enough r (handle_line (chomp l) e) (shorter p l r s.0 h)
    ∙ sym (feed_line [] l r e s.1)
    ∙ ap (feed ([], e)) (sym s.0)
  where
    shorter : (p l r : Bytes) → p ≡ l ++ b'\n' ∷ r → length p ≤ suc fuel → length r ≤ fuel
    shorter p l r same h = omega (arith, ap length same, length-append l (b'\n' ∷ r))

drain-feed : (fuel : ℕ) → Enough fuel
unfolding drain feed
drain-feed zero [] e h = refl
drain-feed zero (c ∷ cs) e h = absurd (omega arith)
drain-feed (suc fuel) p e h =
    drain_round fuel p e (cut b'\n' p) refl
    ∙ drain_found-feed fuel p e (cut b'\n' p) (drain-feed fuel) h (cut-Splits b'\n' p)

-- A connection whose headers are done, from what is pending and what is read.
abbrev pub open_with : Bytes × Reading → Connection
open_with st = record { pending = st.0; headers_done = true; reading = st.1 }

pub drain_all-feed : (p : Bytes) (e : Reading) → drain_all p e ≡ open_with (feed ([], e) p)
unfolding drain_all
drain_all-feed p e = ap open_with (drain-feed (length p) p e (omega arith))

-- What is pending is text that was read with no line end.
abbrev IsSettled : Bytes × Reading → Type 0
IsSettled st = feed ([], st.1) st.0 ≡ st

byte-IsSettled : (c : ℕ) (st : Bytes × Reading) → IsSettled st → IsSettled (byte c st)
byte-IsSettled c st h = elim (Bool-cases (c == b'\n')) [
  | inl e ↦ rw (byte_end c st.0 st.1 e) (unfold feed in refl)
  | inr e ↦ rw (byte_other c st.0 st.1 e) (
      feed-append ([], st.1) st.0 (c ∷ [])
      ∙ ap (λ s. feed s (c ∷ [])) h
      ∙ unfold feed in (byte_other c st.0 st.1 e))
]

feed-IsSettled : (st : Bytes × Reading) (p : Bytes) → IsSettled st → IsSettled (feed st p)
unfolding feed
feed-IsSettled st [] h = h
feed-IsSettled st (c ∷ cs) h = feed-IsSettled (byte c st) cs (byte-IsSettled c st h)

drain_all-append : (p ys : Bytes) (e : Reading) → receive ys (drain_all p e) ≡ drain_all (p ++ ys) e
unfolding receive
drain_all-append p ys e =
    ap (receive ys) (drain_all-feed p e)
    ∙ drain_all-feed ((feed ([], e) p).0 ++ ys) (feed ([], e) p).1
    ∙ ap open_with (
        feed-append ([], (feed ([], e) p).1) (feed ([], e) p).0 ys
        ∙ ap (λ st. feed st ys) (feed-IsSettled ([], e) p (unfold feed in refl))
        ∙ sym (feed-append ([], e) p ys))
    ∙ sym (drain_all-feed (p ++ ys) e)

abbrev headers_end : Bytes
headers_end = 13 ∷ 10 ∷ 13 ∷ 10 ∷ []

behind_headers-append :
    (p ys : Bytes) (e : Reading) (o : Option Bytes)
    → find_behind headers_end p ≡ o
    → StaysFound headers_end p o
    → receive ys (behind_headers p o e)
      ≡ behind_headers (p ++ ys) (find_behind headers_end (p ++ ys)) e
unfolding behind_headers receive
behind_headers-append p ys e none h k = refl
behind_headers-append p ys e (some rest) h k =
    drain_all-append rest ys e ∙ ap (λ o. behind_headers (p ++ ys) o e) (sym (k.1 ys))

receive_from-append :
    (done : Bool) (p xs ys : Bytes) (e : Reading)
    → receive ys (receive xs (record { pending = p; headers_done = done; reading = e }))
      ≡ receive (xs ++ ys) (record { pending = p; headers_done = done; reading = e })
unfolding receive
receive_from-append true p xs ys e =
    drain_all-append (p ++ xs) ys e ∙ ap (λ t. drain_all t e) (append_assoc p xs ys)
receive_from-append false p xs ys e =
    behind_headers-append (p ++ xs) ys e (find_behind headers_end (p ++ xs)) refl
      (find_behind-StaysFound 13 (10 ∷ 13 ∷ 10 ∷ []) (p ++ xs))
    ∙ ap (λ t. behind_headers t (find_behind headers_end t) e) (append_assoc p xs ys)

-- However the bytes of a connection are split over two calls of `recv`, in the headers or behind
-- them: the handler's calls and the connection's state are those of one call with all the bytes.
pub receive-append :
    (xs ys : Bytes) (s : Connection) → receive ys (receive xs s) ≡ receive (xs ++ ys) s
receive-append xs ys s = receive_from-append s.headers_done s.pending xs ys s.reading

-- What is pending never holds a line end.
pub byte-Lacks : (c : ℕ) (st : Bytes × Reading) → Lacks b'\n' st.0 → Lacks b'\n' (byte c st).0
byte-Lacks c st h = elim (Bool-cases (c == b'\n')) [
  | inl e ↦ rw (byte_end c st.0 st.1 e) tt
  | inr e ↦
      rw (byte_other c st.0 st.1 e) (All-append (λ d. (d == b'\n') ≡ false) st.0 (c ∷ []) h (e, tt))
]

feed-pending : (st : Bytes × Reading) (p : Bytes) → Lacks b'\n' st.0 → Lacks b'\n' (feed st p).0
unfolding feed
feed-pending st [] h = h
feed-pending st (c ∷ cs) h = feed-pending (byte c st) cs (byte-Lacks c st h)

drain_all-pending : (p : Bytes) (e : Reading) → Lacks b'\n' (drain_all p e).pending
drain_all-pending p e = rw (drain_all-feed p e) (feed-pending ([], e) p tt)

behind_headers-pending :
    (p : Bytes) (e : Reading) (o : Option Bytes)
    → (behind_headers p o e).headers_done ≡ true
    → Lacks b'\n' (behind_headers p o e).pending
unfolding behind_headers
behind_headers-pending p e none h = absurd (ground arith)
behind_headers-pending p e (some rest) h = drain_all-pending rest e

receive_from-pending :
    (done : Bool) (p xs : Bytes) (e : Reading)
    → (receive xs (record { pending = p; headers_done = done; reading = e })).headers_done ≡ true
    → Lacks b'\n' (receive xs (record { pending = p; headers_done = done; reading = e })).pending
unfolding receive
receive_from-pending true p xs e h = drain_all-pending (p ++ xs) e
receive_from-pending false p xs e h =
    behind_headers-pending (p ++ xs) e (find_behind headers_end (p ++ xs)) h

-- After every `recv` that leaves the headers behind, the loop over lines has handled every whole
-- line: no line end is pending.
pub receive-pending :
    (xs : Bytes) (s : Connection)
    → (receive xs s).headers_done ≡ true
    → Lacks b'\n' (receive xs s).pending
receive-pending xs s h = receive_from-pending s.headers_done s.pending xs s.reading h
