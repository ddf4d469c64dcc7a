-- ===== src/Net/Stream/Steps.antt =====
-- The threads of StreamServer as a step relation: any critical section that is enabled may run next.
-- `broadcast`, which takes the lock of one client after another, is one step. `stop` marks the clients
-- once the accept loop has ended, which it joins.
use nova_visualiser.Prelude.{ℕ, suc, ◌≡◌, Bool, true, false, []}
use nova_visualiser.Core.Double.{Double}
use nova_visualiser.Net.Continuity.{Frame}
use nova_visualiser.Net.Stream.{
  Server, listening, admitting, counting, storing, accept_admit, accept_refused, accept_push,
  accept_read, accept_store, broadcast_packet, take_packet, packet_sent, lose, has_ended, on_client,
  keyframe_asked, report_delay, retire, stop_flag, stop_mark, stop_clear, stop_zero,
}

-- A running server, and how many frames the render thread has broadcast.
pub record World (D : Type 0) : Type 0 where
  pub server : Server Frame D
  pub broadcasts : ℕ

module _ {D : Type 0} ⦃d : Double D⦄ (zero_delay : D) where
  -- `start` has returned.
  abbrev pub started : World D
  started = record {
    server = record {
      clients = [];
      client_count = 0;
      running = true;
      accepting = listening;
      next_id = 0;
      requests = 0;
      presentation_delay = zero_delay;
    };
    broadcasts = 0;
  }

  abbrev pub the_frame : World D → Bool → Frame
  the_frame w k = record { index = w.broadcasts; keyframe = k }

  pub data Step (w : World D) : World D → Type 0 where
    admits :
        w.server.running ≡ true
        → w.server.accepting ≡ listening
        → Step w (record w { server = accept_admit w.server })
    refuses :
        w.server.accepting ≡ admitting → Step w (record w { server = accept_refused w.server })
    accepts : w.server.accepting ≡ admitting → Step w (record w { server = accept_push w.server })
    counts : w.server.accepting ≡ counting → Step w (record w { server = accept_read w.server })
    stores :
        (n : ℕ)
        → w.server.accepting ≡ storing n
        → Step w (record w { server = accept_store n w.server })
    broadcasts_frame :
        (keyframe : Bool)
        → Step w (record {
          server = broadcast_packet keyframe (the_frame w keyframe) w.server;
          broadcasts = suc w.broadcasts;
        })
    takes : (id : ℕ) → Step w (record w { server = on_client id take_packet w.server })
    sends : (id : ℕ) → Step w (record w { server = on_client id packet_sent w.server })
    loses : (id : ℕ) → Step w (record w { server = on_client id lose w.server })
    asks : Step w (record w { server = keyframe_asked w.server })
    reports :
        (presentation_delay_ms : D)
        → Step w (record w { server = report_delay presentation_delay_ms w.server })
    retires :
        (id : ℕ)
        → has_ended id w.server.clients ≡ true
        → Step w (record w { server = retire zero_delay id w.server })
    stops : w.server.running ≡ true → Step w (record w { server = stop_flag w.server })
    marks :
        w.server.running ≡ false
        → w.server.accepting ≡ listening
        → Step w (record w { server = stop_mark w.server })
    clears : w.server.running ≡ false → Step w (record w { server = stop_clear w.server })
    zeroes : w.server.running ≡ false → Step w (record w { server = stop_zero w.server })

  pub data Reach (w : World D) : World D → Type 0 where
    here : Reach w w
    next : {u v : World D} → Reach w u → Step u v → Reach w v
