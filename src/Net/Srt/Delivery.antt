-- ===== src/Net/Srt/Delivery.antt =====
-- What a client of SrtServer is sent, and what its counters say, over every interleaving.
use nova_visualiser.Prelude.{
  ℕ, suc, ◌≡◌, refl, sym, ap, ◌∙◌, Bool, true, false, none, List, [], ◌∷◌, append-nil, map, length,
  All, All-append, Bool-cases, inl, inr, arith,
}
use nova_visualiser.Net.Continuity.{Frame, Decodable-prefix}
use nova_visualiser.Net.Stream.{Client, take_packet, packet_sent, lose, has_ended, at_client}
use nova_visualiser.Net.Stream.Delivery.{
  IsInStep, on_the_wire, WellServed, new_client-IsInStep, offer-IsInStep, take_packet-IsInStep,
  packet_sent-IsInStep, lose-IsInStep, alive-lose, alive-take_packet, alive-packet_sent,
  All-at_client, All-without, All-map-lose, length-at_client,
}
use nova_visualiser.Net.Srt.{
  SrtServer, offer_alive, offer_alive_all, drop_backlog, accept_admit, accept_refused,
  accept_client, broadcast_unit, take_unit, unit_sent, unit_lost, unit_dropped, retire, stop_flag,
  stop_mark, stop_clear,
}

pub record World : Type 0 where
  pub server : SrtServer Frame
  pub broadcasts : ℕ

-- `start` has returned.
abbrev pub started : World
started = record {
  server = record {
    clients = [];
    client_count = 0;
    running = true;
    admitting = false;
    frames_sent = 0;
    frames_dropped = 0;
    sequence = 0;
    next_id = 0;
    requests = 0;
  };
  broadcasts = 0;
}

abbrev frame_at : ℕ → Bool → Frame
frame_at n k = record { index = n; keyframe = k }

pub data Step (w : World) : World → Type 0 where
  admits : w.server.running ≡ true → Step w (record w { server = accept_admit w.server })
  refuses : w.server.admitting ≡ true → Step w (record w { server = accept_refused w.server })
  accepts : w.server.admitting ≡ true → Step w (record w { server = accept_client w.server })
  broadcasts_frame :
      (keyframe : Bool)
      → Step w (record {
        server = broadcast_unit keyframe (λ _. frame_at w.broadcasts keyframe) w.server;
        broadcasts = suc w.broadcasts;
      })
  takes : (id : ℕ) → Step w (record w { server = take_unit id w.server })
  sends : (id : ℕ) → Step w (record w { server = unit_sent id w.server })
  loses : (id : ℕ) → Step w (record w { server = unit_lost id w.server })
  drops : (id : ℕ) → Step w (record w { server = unit_dropped id w.server })
  retires :
      (id : ℕ)
      → has_ended id w.server.clients ≡ true
      → Step w (record w { server = retire id w.server })
  stops : w.server.running ≡ true → Step w (record w { server = stop_flag w.server })
  marks :
      w.server.running ≡ false
      → w.server.admitting ≡ false
      → Step w (record w { server = stop_mark w.server })
  clears : w.server.running ≡ false → Step w (record w { server = stop_clear w.server })

pub data Reach (w : World) : World → Type 0 where
  here : Reach w w
  next : {u v : World} → Reach w u → Step u v → Reach w v

-- The invariant of a client: in step with some number of broadcasts, which is the current one while
-- its writer runs.
abbrev Held : ℕ → Client Frame → Type 0
Held n c = (m : ℕ) × IsInStep m c × (c.alive ≡ true → m ≡ n)

offer_alive-Held :
    (n : ℕ) (k : Bool) (c : Client Frame)
    → Held n c
    → Held (suc n) (offer_alive k (frame_at n k) c).0
unfolding offer_alive
offer_alive-Held n k c (m, v, e) = elim (Bool-cases c.alive) [
  | inl a ↦
      simp a (suc n, offer-IsInStep n k c (alive_step a e v) c.awaiting_keyframe refl, λ _. refl)
  | inr a ↦ simp a (m, v, λ b. cc)
]
  where
    alive_step : {m : ℕ} → c.alive ≡ true → (c.alive ≡ true → m ≡ n) → IsInStep m c → IsInStep n c
    alive_step a e v = rw (← e a) v

offer_alive_all-Held :
    (n : ℕ) (k : Bool) (cs : List (Client Frame))
    → All (Held n) cs
    → All (Held (suc n)) (offer_alive_all k (frame_at n k) cs).0
unfolding offer_alive_all
offer_alive_all-Held n k [] h = tt
offer_alive_all-Held n k (c ∷ cs) h = (offer_alive-Held n k c h.0, offer_alive_all-Held n k cs h.1)

-- After a send that failed for want of buffer the stream ends behind the last unit sent whole.
drop_backlog-IsInStep : (n : ℕ) (c : Client Frame) → IsInStep n c → IsInStep n (drop_backlog c)
unfolding drop_backlog
drop_backlog-IsInStep n c v = record {
  bounded = omega arith;
  decodable = simp append-nil (
      Decodable-prefix none c.written _
        (Decodable-prefix none (on_the_wire c) c.queue v.decodable));
  current = λ e. cc;
  drained = λ e. refl;
}

-- A client may be changed by what keeps it in step and does not revive it.
keeps-Held :
    {n : ℕ} (f : Client Frame → Client Frame)
    → ((m : ℕ) (c : Client Frame) → IsInStep m c → IsInStep m (f c))
    → ((c : Client Frame) → (f c).alive ≡ true → c.alive ≡ true)
    → (c : Client Frame) → Held n c
    → Held n (f c)
keeps-Held f keep alive c (m, v, e) = (m, keep m c v, λ a. e (alive c a))

take_packet-Held : (n : ℕ) (c : Client Frame) → Held n c → Held n (take_packet c)
take_packet-Held n =
    keeps-Held take_packet take_packet-IsInStep (λ c a. sym (alive-take_packet c) ∙ a)

packet_sent-Held : (n : ℕ) (c : Client Frame) → Held n c → Held n (packet_sent c)
packet_sent-Held n =
    keeps-Held packet_sent packet_sent-IsInStep (λ c a. sym (alive-packet_sent c) ∙ a)

lose-Held : (n : ℕ) (c : Client Frame) → Held n c → Held n (lose c)
lose-Held n = keeps-Held lose lose-IsInStep (λ c a. alive-lose c a)

drop_backlog-Held : (n : ℕ) (c : Client Frame) → Held n c → Held n (drop_backlog c)
unfolding drop_backlog
drop_backlog-Held n = keeps-Held drop_backlog drop_backlog-IsInStep (λ c a. a)

-- Every client is held, and the stored count is the number of clients.
record Inv (w : World) : Type 0 where
  held : All (Held w.broadcasts) w.server.clients
  counted : w.server.client_count ≡ length w.server.clients

length-map-lose : (cs : List (Client Frame)) → length (map lose cs) ≡ length cs
length-map-lose [] = refl
length-map-lose (c ∷ cs) = ap suc (length-map-lose cs)

length-offer_alive_all :
    (k : Bool) (f : Frame) (cs : List (Client Frame))
    → length (offer_alive_all k f cs).0 ≡ length cs
unfolding offer_alive_all
length-offer_alive_all k f [] = refl
length-offer_alive_all k f (c ∷ cs) = ap suc (length-offer_alive_all k f cs)

broadcast-clients :
    (k : Bool) (make : ℕ → Frame) (s : SrtServer Frame) (cs : List (Client Frame))
    → s.clients ≡ cs
    → ((broadcast_unit k make s).clients ≡ (offer_alive_all k (make s.sequence) cs).0)
      × ((broadcast_unit k make s).client_count ≡ s.client_count)
unfolding broadcast_unit offer_alive_all
broadcast-clients k make s [] e = ground arith
broadcast-clients k make s (c ∷ cs) e = ground arith

broadcast-Inv :
    (w : World) (k : Bool)
    → Inv w
    → Inv (record {
      server = broadcast_unit k (λ _. frame_at w.broadcasts k) w.server;
      broadcasts = suc w.broadcasts;
    })
broadcast-Inv w k v =
    let (cs, n) =
      broadcast-clients k (λ _. frame_at w.broadcasts k) w.server w.server.clients refl in
    record {
      held = rw cs (offer_alive_all-Held w.broadcasts k w.server.clients v.held);
      counted = rw (cs, n) (v.counted ∙ sym (length-offer_alive_all k _ w.server.clients));
    }

at_client-Inv :
    (w : World) (id : ℕ) (f : Client Frame → Client Frame)
    → ((c : Client Frame) → Held w.broadcasts c → Held w.broadcasts (f c))
    → Inv w
    → All (Held w.broadcasts) (at_client id f w.server.clients)
      × (w.server.client_count ≡ length (at_client id f w.server.clients))
at_client-Inv w id f keep v = (
  All-at_client _ id f w.server.clients keep v.held,
  v.counted ∙ sym (length-at_client id f w.server.clients),
)

Step-Inv : {u v : World} → Step u v → Inv u → Inv v
unfolding accept_admit accept_refused accept_client take_unit unit_sent unit_lost unit_dropped
    retire stop_flag stop_mark stop_clear
Step-Inv (Step.admits p) v = record { held = v.held; counted = v.counted }
Step-Inv (Step.refuses p) v = record { held = v.held; counted = v.counted }
Step-Inv {u} (Step.accepts p) v = record {
  held =
      All-append _ u.server.clients _ v.held
        ((u.broadcasts, new_client-IsInStep _ _, λ _. refl), tt);
  counted = refl;
}
Step-Inv {u} (Step.broadcasts_frame k) v = broadcast-Inv u k v
Step-Inv {u} (Step.takes id) v =
    let (h, n) = at_client-Inv u id take_packet (take_packet-Held _) v in
    record { held = h; counted = n }
Step-Inv {u} (Step.sends id) v =
    let (h, n) = at_client-Inv u id packet_sent (packet_sent-Held _) v in
    record { held = h; counted = n }
Step-Inv {u} (Step.loses id) v =
    let (h, n) = at_client-Inv u id lose (lose-Held _) v in record { held = h; counted = n }
Step-Inv {u} (Step.drops id) v =
    let (h, n) = at_client-Inv u id drop_backlog (drop_backlog-Held _) v in
    record { held = h; counted = n }
Step-Inv {u} (Step.retires id p) v = record {
  held = All-without _ id u.server.clients v.held;
  counted = refl;
}
Step-Inv (Step.stops p) v = record { held = v.held; counted = v.counted }
Step-Inv {u} (Step.marks p q) v = record {
  held = All-map-lose _ u.server.clients (lose-Held _) v.held;
  counted = v.counted ∙ sym (length-map-lose u.server.clients);
}
Step-Inv (Step.clears p) v = record { held = tt; counted = refl }

Reach-Inv : {w : World} → Reach started w → Inv w
Reach-Inv Reach.here = record { held = tt; counted = refl }
Reach-Inv (Reach.next r st) = Step-Inv st (Reach-Inv r)

Held-WellServed : (n : ℕ) (cs : List (Client Frame)) → All (Held n) cs → All WellServed cs
Held-WellServed n [] h = tt
Held-WellServed n (c ∷ cs) h = (
  (h.0.1.bounded, Decodable-prefix none (on_the_wire c) c.queue h.0.1.decodable),
  Held-WellServed n cs h.1,
)

-- In every state that the threads can reach from `start`, whichever sends fail: at most eight units
-- wait in the queue of a connected client; of the units that its writer has sent whole or is sending
-- each one is a keyframe or the frame broadcast directly after the one before it; and the stored
-- client count is the number of connected clients.
pub Reach-WellServed_counted :
    {w : World}
    → Reach started w
    → All WellServed w.server.clients × (w.server.client_count ≡ length w.server.clients)
Reach-WellServed_counted {w} r =
    let v = Reach-Inv r in (Held-WellServed w.broadcasts w.server.clients v.held, v.counted)
