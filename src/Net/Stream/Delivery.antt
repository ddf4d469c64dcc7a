-- ===== src/Net/Stream/Delivery.antt =====
-- What a client of StreamServer (src/net/stream_server.cpp) is sent, over every interleaving of the
-- threads.
use nova_visualiser.Prelude.{
  ℕ, suc, ◌≤◌, ◌<◌, ◌≡◌, refl, sym, ap, ◌∙◌, Bool, true, false, Option, none, some, List, [], ◌∷◌,
  ◌++◌, append-nil, append_assoc, map, length, length-append, arith, inl, inr, All, All-append, ◌⊎◌,
  Bool-cases, leb, ◌==◌,
}
use nova_visualiser.Core.Double.{Double}
use nova_visualiser.Net.Continuity.{
  Frame, Decodable, expected_after, expected_after-append, Decodable-append, Decodable-prefix,
}
use nova_visualiser.Net.Stream.{
  Client, Server, max_queued_frames, new_client, enqueue, offer, offer_all, take_packet,
  packet_sent, lose, at_client, without, accept_admit, accept_refused, accept_push, accept_read,
  accept_store, broadcast_packet, on_client, keyframe_asked, report_delay, retire, stop_flag,
  stop_mark, stop_clear, stop_zero,
}
use nova_visualiser.Net.Stream.Steps.{World, started, Step, Reach}

abbrev pub in_flight {ℓ} : {A : Type ℓ} → Option A → List A
in_flight none = []
in_flight (some packet) = packet ∷ []

-- What has reached the socket, the packet being sent included.
abbrev pub on_the_wire {ℓ} : {A : Type ℓ} → Client A → List A
on_the_wire c = c.written ++ in_flight c.sending

-- All that the client has been or is yet to be sent.
abbrev pub stream {ℓ} : {A : Type ℓ} → Client A → List A
stream c = on_the_wire c ++ c.queue

-- The invariant of a client after `n` broadcasts.
pub record IsInStep (n : ℕ) (c : Client Frame) : Type 0 where
  pub bounded : length c.queue ≤ max_queued_frames
  pub decodable : Decodable none (stream c)
  pub current : c.awaiting_keyframe ≡ false → expected_after none (stream c) ≡ some n
  pub drained : c.awaiting_keyframe ≡ true → c.queue ≡ []

pub new_client-IsInStep : (n id : ℕ) → IsInStep n (new_client id)
new_client-IsInStep n id = record {
  bounded = omega arith;
  decodable = tt;
  current = λ e. cc;
  drained = λ e. refl;
}

abbrev frame_at : ℕ → Bool → Frame
frame_at n k = record { index = n; keyframe = k }

-- Clearing the queue cuts the stream behind what is on the wire.
pub cleared-IsInStep :
    (n : ℕ) (c : Client Frame)
    → Decodable none (stream c)
    → IsInStep n (record c { queue = []; awaiting_keyframe = true })
cleared-IsInStep n c d = record {
  bounded = omega arith;
  decodable = rw (append-nil (on_the_wire c)) (Decodable-prefix none (on_the_wire c) c.queue d);
  current = λ e. cc;
  drained = λ e. refl;
}

pushed-IsInStep :
    (n : ℕ) (k : Bool) (c : Client Frame)
    → length c.queue < max_queued_frames
    → Decodable none (stream c)
    → c.awaiting_keyframe ≡ false
    → (k ≡ true) ⊎ (expected_after none (stream c) ≡ some n)
    → IsInStep (suc n) (record c { queue = c.queue ++ frame_at n k ∷ [] })
pushed-IsInStep n k c b d a f = record {
  bounded = omega (arith, length-append c.queue (frame_at n k ∷ []));
  decodable =
      rw (← append_assoc (on_the_wire c) c.queue (frame_at n k ∷ []))
        (Decodable-append none (stream c) (frame_at n k ∷ []) d (f, tt));
  current = λ e.
      rw (← append_assoc (on_the_wire c) c.queue (frame_at n k ∷ []))
        (expected_after-append none (stream c) (frame_at n k ∷ []));
  drained = λ e. cc;
}

enqueue-IsInStep :
    (n : ℕ) (k : Bool) (c : Client Frame)
    → Decodable none (stream c)
    → c.awaiting_keyframe ≡ false
    → (k ≡ true) ⊎ (expected_after none (stream c) ≡ some n)
    → IsInStep (suc n) (enqueue (frame_at n k) c).0
unfolding enqueue
enqueue-IsInStep n k c d a f = elim (Bool-cases (leb max_queued_frames (length c.queue))) [
  | inl full ↦ rw full (cleared-IsInStep (suc n) c d)
  | inr room ↦ rw room (pushed-IsInStep n k c (ground arith) d a f)
]

-- A frame that a client is not offered leaves it waiting, and a keyframe restarts its stream.
pub offer-IsInStep :
    (n : ℕ) (k : Bool) (c : Client Frame)
    → IsInStep n c
    → (a : Bool) → c.awaiting_keyframe ≡ a
    → IsInStep (suc n) (offer k (frame_at n k) c).0
unfolding offer
offer-IsInStep n true c v true e =
    rw e
      (enqueue-IsInStep n true (record c { awaiting_keyframe = false }) v.decodable refl (inl refl))
offer-IsInStep n false c v true e = rw e (record {
  bounded = v.bounded;
  decodable = v.decodable;
  current = λ g. cc;
  drained = λ g. v.drained e;
})
offer-IsInStep n k c v false e = rw e (
    enqueue-IsInStep n k (record c { awaiting_keyframe = false }) v.decodable refl
      (inr (v.current e)))

offer_all-IsInStep :
    (n : ℕ) (k : Bool) (cs : List (Client Frame))
    → All (IsInStep n) cs
    → All (IsInStep (suc n)) (offer_all k (frame_at n k) cs).0
unfolding offer_all
offer_all-IsInStep n k [] h = tt
offer_all-IsInStep n k (c ∷ cs) h =
    (offer-IsInStep n k c h.0 c.awaiting_keyframe refl, offer_all-IsInStep n k cs h.1)

-- A client whose stream, queue length and flag are as good as before is as good as before.
IsInStep-same :
    {n : ℕ} {c : Client Frame} (c' : Client Frame)
    → IsInStep n c
    → stream c' ≡ stream c
    → length c'.queue ≤ length c.queue
    → c'.awaiting_keyframe ≡ c.awaiting_keyframe
    → (c.queue ≡ [] → c'.queue ≡ [])
    → IsInStep n c'
IsInStep-same c' v same shorter flag empty = record {
  bounded = omega arith;
  decodable = rw same v.decodable;
  current = λ e. rw same (v.current (sym flag ∙ e));
  drained = λ e. empty (v.drained (sym flag ∙ e));
}

module _ (n id : ℕ) (aw : Bool) (written : List Frame) where
  abbrev the_client : Bool → Option Frame → List Frame → Client Frame
  the_client alive sending queue = record {
    id = id;
    queue = queue;
    alive = alive;
    awaiting_keyframe = aw;
    sending = sending;
    written = written;
  }

  take-IsInStep :
      (alive : Bool) (sending : Option Frame) (queue : List Frame)
      → IsInStep n (the_client alive sending queue)
      → IsInStep n (take_packet (the_client alive sending queue))
  unfolding take_packet
  take-IsInStep false sending queue v = v
  take-IsInStep true (some p) queue v = v
  take-IsInStep true none [] v = v
  take-IsInStep true none (p ∷ rest) v =
      IsInStep-same (the_client true (some p) rest) v (simp (append-nil, append_assoc))
        (omega arith) refl (λ e. cc)

  sent-IsInStep :
      (alive : Bool) (sending : Option Frame) (queue : List Frame)
      → IsInStep n (the_client alive sending queue)
      → IsInStep n (packet_sent (the_client alive sending queue))
  unfolding packet_sent
  sent-IsInStep alive none queue v = v
  sent-IsInStep alive (some p) queue v =
      IsInStep-same _ v (simp append-nil) (omega arith) refl (λ e. e)

pub take_packet-IsInStep : (n : ℕ) (c : Client Frame) → IsInStep n c → IsInStep n (take_packet c)
take_packet-IsInStep n c =
    take-IsInStep n c.id c.awaiting_keyframe c.written c.alive c.sending c.queue

pub packet_sent-IsInStep : (n : ℕ) (c : Client Frame) → IsInStep n c → IsInStep n (packet_sent c)
packet_sent-IsInStep n c =
    sent-IsInStep n c.id c.awaiting_keyframe c.written c.alive c.sending c.queue

pub lose-IsInStep : (n : ℕ) (c : Client Frame) → IsInStep n c → IsInStep n (lose c)
unfolding lose
lose-IsInStep n c v = IsInStep-same _ v refl (omega arith) refl (λ e. e)

module _ {κ} (P : Client Frame → Type κ) where
  pub All-at_client :
      (id : ℕ) (f : Client Frame → Client Frame) (cs : List (Client Frame))
      → ((c : Client Frame) → P c → P (f c))
      → All P cs
      → All P (at_client id f cs)
  unfolding at_client
  All-at_client id f [] keep h = tt
  All-at_client id f (c ∷ cs) keep h = elim (Bool-cases (c.id == id)) [
    | inl hit ↦ rw hit (keep c h.0, All-at_client id f cs keep h.1)
    | inr miss ↦ rw miss (h.0, All-at_client id f cs keep h.1)
  ]

  pub All-without : (id : ℕ) (cs : List (Client Frame)) → All P cs → All P (without id cs)
  unfolding without
  All-without id [] h = tt
  All-without id (c ∷ cs) h = elim (Bool-cases (c.id == id)) [
    | inl hit ↦ rw hit (All-without id cs h.1)
    | inr miss ↦ rw miss (h.0, All-without id cs h.1)
  ]

  pub All-map-lose :
      (cs : List (Client Frame))
      → ((c : Client Frame) → P c → P (lose c))
      → All P cs
      → All P (map lose cs)
  All-map-lose [] keep h = tt
  All-map-lose (c ∷ cs) keep h = (keep c h.0, All-map-lose cs keep h.1)

pub length-at_client :
    (id : ℕ) (f : Client Frame → Client Frame) (cs : List (Client Frame))
    → length (at_client id f cs) ≡ length cs
unfolding at_client
length-at_client id f [] = refl
length-at_client id f (c ∷ cs) = ap suc (length-at_client id f cs)

pub alive-take_packet : (c : Client Frame) → (take_packet c).alive ≡ c.alive
unfolding take_packet
alive-take_packet c = ground arith

pub alive-packet_sent : (c : Client Frame) → (packet_sent c).alive ≡ c.alive
unfolding packet_sent
alive-packet_sent c = ground arith

pub alive-offer : (k : Bool) (f : Frame) (c : Client Frame) → (offer k f c).0.alive ≡ c.alive
unfolding offer enqueue
alive-offer k f c = ground arith

pub alive-lose : (c : Client Frame) → (lose c).alive ≡ true → c.alive ≡ true
unfolding lose
alive-lose c a = cc

-- Every client of the server is in step with the broadcasts.
abbrev pub InStep : {D : Type 0} → World D → Type 0
InStep w = All (IsInStep w.broadcasts) w.server.clients

-- What a connected client is promised.
abbrev pub WellServed : Client Frame → Type 0
WellServed c = (length c.queue ≤ max_queued_frames) × Decodable none (on_the_wire c)

pub served : (n : ℕ) (cs : List (Client Frame)) → All (IsInStep n) cs → All WellServed cs
served n [] h = tt
served n (c ∷ cs) h =
    ((h.0.bounded, Decodable-prefix none (on_the_wire c) c.queue h.0.decodable), served n cs h.1)

pub clients-broadcast_packet :
    {D : Type 0} (k : Bool) (f : Frame) (s : Server Frame D) (cs : List (Client Frame))
    → s.clients ≡ cs
    → (broadcast_packet k f s).clients ≡ (offer_all k f cs).0
unfolding broadcast_packet offer_all
clients-broadcast_packet k f s [] e = ground arith
clients-broadcast_packet k f s (c ∷ cs) e = ground arith

module _ {D : Type 0} ⦃d : Double D⦄ (zero_delay : D) where
  Step-InStep : {u v : World D} → Step zero_delay u v → InStep u → InStep v
  unfolding accept_admit accept_refused accept_push accept_read accept_store on_client
      keyframe_asked report_delay retire stop_flag stop_mark stop_clear stop_zero
  Step-InStep (Step.admits r p) h = h
  Step-InStep (Step.refuses p) h = h
  Step-InStep {u} (Step.accepts p) h =
      All-append _ u.server.clients _ h (new_client-IsInStep _ _, tt)
  Step-InStep (Step.counts p) h = h
  Step-InStep (Step.stores n p) h = h
  Step-InStep {u} (Step.broadcasts_frame k) h =
      rw (clients-broadcast_packet k _ u.server u.server.clients refl)
        (offer_all-IsInStep _ k u.server.clients h)
  Step-InStep {u} (Step.takes id) h =
      All-at_client _ id _ u.server.clients (take_packet-IsInStep _) h
  Step-InStep {u} (Step.sends id) h =
      All-at_client _ id _ u.server.clients (packet_sent-IsInStep _) h
  Step-InStep {u} (Step.loses id) h = All-at_client _ id _ u.server.clients (lose-IsInStep _) h
  Step-InStep Step.asks h = h
  Step-InStep (Step.reports delay) h = h
  Step-InStep {u} (Step.retires id p) h = All-without _ id u.server.clients h
  Step-InStep (Step.stops p) h = h
  Step-InStep {u} (Step.marks p q) h = All-map-lose _ u.server.clients (lose-IsInStep _) h
  Step-InStep (Step.clears p) h = tt
  Step-InStep (Step.zeroes p) h = h

  Reach-InStep : {w : World D} → Reach zero_delay (started zero_delay) w → InStep w
  Reach-InStep Reach.here = tt
  Reach-InStep (Reach.next r st) = Step-InStep st (Reach-InStep r)

  -- In every state that the threads can reach from `start`, and for every connected client: at most
  -- eight packets wait in its queue, and in the sequence of packets that its writer has begun to
  -- send each one is a keyframe or the frame broadcast directly after the one before it.
  pub Reach-WellServed :
      {w : World D} → Reach zero_delay (started zero_delay) w → All WellServed w.server.clients
  Reach-WellServed {w} r = served w.broadcasts w.server.clients (Reach-InStep r)
