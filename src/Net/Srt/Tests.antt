-- ===== src/Net/Srt/Tests.antt =====
-- The theorem about SrtServer at a concrete run.
use nova_visualiser.Prelude.{ℕ, ◌≡◌, refl, true, All, length}
use nova_visualiser.Net.Continuity.{Frame}
use nova_visualiser.Net.Stream.Delivery.{WellServed}
use nova_visualiser.Net.Srt.{accept_admit, accept_client, broadcast_unit, take_unit, unit_dropped}
use nova_visualiser.Net.Srt.Delivery.{World, started, Step, Reach, Reach-WellServed_counted}

abbrev frame : ℕ → Frame
frame n = record { index = n; keyframe = true }

-- One client has joined, and the first keyframe could not be sent to it.
abbrev later : World
later = record {
  server = unit_dropped 0 (
      take_unit 0
        (broadcast_unit true (λ _. frame 0) (accept_client (accept_admit started.server))));
  broadcasts = 1;
}

Reach-WellServed_counted_example :
    All WellServed later.server.clients × (later.server.client_count ≡ length later.server.clients)
Reach-WellServed_counted_example = Reach-WellServed_counted {w = later} (
    Reach.next
      (Reach.next
        (Reach.next
          (Reach.next (Reach.next Reach.here (Step.admits refl))
            (Step.accepts (unfold accept_admit in refl)))
          (Step.broadcasts_frame true))
        (Step.takes 0))
      (Step.drops 0))
