-- ===== src/Net/Stream/Tests.antt =====
-- The theorems about StreamServer at concrete servers.
use nova_visualiser.Prelude.{
  ℕ, ◌+◌, ◌<◌, ◌≡◌, refl, true, false, some, none, [], ◌∷◌, All, length, arith, if◌then◌else◌,
}
use nova_visualiser.Core.Double.Whole.{Whole, whole_double}
use nova_visualiser.Net.Continuity.{Frame}
use nova_visualiser.Net.Stream.{
  Client, Server, listening, accept_admit, accept_push, broadcast_packet, on_client, take_packet,
  has_ended,
}
use nova_visualiser.Net.Stream.Steps.{World, started, Step, Reach}
use nova_visualiser.Net.Stream.Delivery.{IsInStep, WellServed, Reach-WellServed}
use nova_visualiser.Net.Stream.Recovery.{
  get_elem?, broadcast_frames, broadcast_frames-waits, newly_waits, requests-broadcast_packet,
}
use nova_visualiser.Net.Stream.Race.{client_count_overtaken}

abbrev frame : ℕ → Frame
frame n = record { index = n; keyframe = true }

-- One client has joined, and its writer has popped the first keyframe.
abbrev later : World Whole
later = record {
  server =
      on_client 0 take_packet
        (broadcast_packet true (frame 0) (accept_push (accept_admit (started (some 0)).server)));
  broadcasts = 1;
}

Reach-WellServed_example : All WellServed later.server.clients
Reach-WellServed_example = Reach-WellServed (some 0) {w = later} (
    Reach.next
      (Reach.next
        (Reach.next (Reach.next Reach.here (Step.admits refl refl))
          (Step.accepts (unfold accept_admit in refl)))
        (Step.broadcasts_frame true))
      (Step.takes 0))

abbrev client : Client Frame
client = record {
  id = 0;
  queue = frame 0 ∷ frame 1 ∷ frame 2 ∷ frame 3 ∷ frame 4 ∷ frame 5 ∷ frame 6 ∷ frame 7 ∷ [];
  alive = true;
  awaiting_keyframe = false;
  sending = none;
  written = [];
}

client-IsInStep : IsInStep 8 client
client-IsInStep = record {
  bounded = omega arith;
  decodable = ground arith;
  current = λ e. refl;
  drained = λ e. cc;
}

abbrev waiting : Client Frame
waiting = record client { queue = []; awaiting_keyframe = true }

waiting-IsInStep : IsInStep 8 waiting
waiting-IsInStep = record {
  bounded = omega arith;
  decodable = tt;
  current = λ e. cc;
  drained = λ e. refl;
}

abbrev server : Server Frame Whole
server = record {
  clients = client ∷ waiting ∷ [];
  client_count = 2;
  running = true;
  accepting = listening;
  next_id = 2;
  requests = 5;
  presentation_delay = some 0;
}

requests-broadcast_packet_example :
    (broadcast_packet false (frame 8) server).requests
    ≡ 5
      + (if newly_waits server.clients (broadcast_packet false (frame 8) server).clients
          then 1
          else 0)
requests-broadcast_packet_example =
    requests-broadcast_packet 8 false (frame 8) server (client-IsInStep, (waiting-IsInStep, tt))

abbrev plain_frame : ℕ → Frame
plain_frame n = record { index = n; keyframe = false }

broadcast_frames-waits_example :
    get_elem? (broadcast_frames (plain_frame 8 ∷ frame 9 ∷ plain_frame 10 ∷ []) server).clients 1
    ≡ some (record client { queue = frame 9 ∷ plain_frame 10 ∷ []; awaiting_keyframe = false })
broadcast_frames-waits_example =
    broadcast_frames-waits (plain_frame 8 ∷ frame 9 ∷ plain_frame 10 ∷ []) server 1 client refl
      (omega arith)

-- Of two clients one has gone.
abbrev leaving : World Whole
leaving = record {
  server = record server { clients = record client { alive = false } ∷ waiting ∷ [] };
  broadcasts = 8;
}

client_count_overtaken_example :
    (v : World Whole) × Reach (some 0) leaving v
    × (v.server.accepting ≡ listening)
    × (length v.server.clients < v.server.client_count)
client_count_overtaken_example =
    client_count_overtaken (some 0) leaving 0 refl refl (unfold has_ended in refl)
