-- ===== src/Net/Srt.antt =====
-- src/net/srt_server.{h,cpp}: SrtServer, the SRT transport. Its clients hold the same queue as those of
-- StreamServer. A send either succeeds, fails for want of buffer, or fails for good (the connection
-- is lost, or `stop` has closed the socket); which of these happens is the step's choice.
pub mod Delivery
mod Tests
use nova_visualiser.Prelude.{
  ℕ, suc, ◌+◌, ◌%◌, ◌^◌, Bool, true, false, ◌||◌, Option, none, some, List, [], ◌∷◌, ◌++◌, map,
  length, if◌then◌else◌,
}
use nova_visualiser.Net.Stream.{
  Client, new_client, offer, packet_sent, take_packet, lose, at_client, without,
}

-- `A` is the type of a queued unit. `admitting` is set while the accept loop is between its last test of
-- `running_` and the push of a client or the next round. `requests` counts the calls of `requestKeyframe_`.
pub record SrtServer {ℓ} (A : Type ℓ) : Type ℓ where
  pub clients : List (Client A)
  pub client_count : ℕ
  pub running : Bool
  pub admitting : Bool
  pub frames_sent : ℕ
  pub frames_dropped : ℕ
  pub sequence : ℕ
  pub next_id : ℕ
  pub requests : ℕ

module _ {ℓ} {A : Type ℓ} where
  -- `broadcast` passes over a client whose writer is leaving.
  pub offer_alive : Bool → A → Client A → Client A × Bool
  offer_alive keyframe unit c = if c.alive then offer keyframe unit c else (c, false)

  pub offer_alive_all : Bool → A → List (Client A) → List (Client A) × Bool
  offer_alive_all keyframe unit [] = ([], false)
  offer_alive_all keyframe unit (c ∷ cs) =
      let (c', full) = offer_alive keyframe unit c in
      let (cs', others) = offer_alive_all keyframe unit cs in (c' ∷ cs', full || others)

  -- Behind a send that failed for want of buffer.
  pub drop_backlog : Client A → Client A
  drop_backlog c = record c { queue = []; awaiting_keyframe = true; sending = none }

  abbrev pub request_keyframe : Bool → SrtServer A → SrtServer A
  request_keyframe asked s = if asked then record s { requests = s.requests + 1 } else s

  -- `acceptLoop`: the loop has found `running_` set, and accepts a socket,
  pub accept_admit : SrtServer A → SrtServer A
  accept_admit s = record s { admitting = true }

  -- it accepts none, or the handshake fails,
  pub accept_refused : SrtServer A → SrtServer A
  accept_refused s = record s { admitting = false }

  -- or the handshake is sent and the client is pushed.
  pub accept_client : SrtServer A → SrtServer A
  accept_client s = record s {
    clients = s.clients ++ new_client s.next_id ∷ [];
    client_count = length (s.clients ++ new_client s.next_id ∷ []);
    admitting = false;
    next_id = suc s.next_id;
    requests = s.requests + 1;
  }

  -- `broadcast`. The unit is queued with its sequence number, a uint16_t.
  pub broadcast_unit : Bool → (ℕ → A) → SrtServer A → SrtServer A
  broadcast_unit keyframe unit s = elim s.clients [
    | [] ↦ s
    | c ∷ cs ↦
        let (targets, overflowed) = offer_alive_all keyframe (unit s.sequence) (c ∷ cs) in
        request_keyframe overflowed
          (record s { clients = targets; sequence = (s.sequence + 1) % 2 ^ 16 })
  ]

  -- `serviceClient`, on the client `id`: a unit is popped,
  pub take_unit : ℕ → SrtServer A → SrtServer A
  take_unit id s = record s { clients = at_client id take_packet s.clients }

  -- and has been sent,
  pub unit_sent : ℕ → SrtServer A → SrtServer A
  unit_sent id s = record s {
    clients = at_client id packet_sent s.clients;
    frames_sent = s.frames_sent + 1;
  }

  -- or its client is gone,
  pub unit_lost : ℕ → SrtServer A → SrtServer A
  unit_lost id s = record s {
    clients = at_client id lose s.clients;
    frames_dropped = s.frames_dropped + 1;
  }

  -- or the client has to wait for a keyframe.
  pub unit_dropped : ℕ → SrtServer A → SrtServer A
  unit_dropped id s = record s {
    clients = at_client id drop_backlog s.clients;
    frames_dropped = s.frames_dropped + 1;
    requests = s.requests + 1;
  }

  -- The last section of `serviceClient`.
  pub retire : ℕ → SrtServer A → SrtServer A
  retire id s = record s {
    clients = without id s.clients;
    client_count = length (without id s.clients);
  }

  -- `stop`: the flag, the marks behind the joins, and the end of the bounded wait.
  pub stop_flag : SrtServer A → SrtServer A
  stop_flag s = record s { running = false }

  pub stop_mark : SrtServer A → SrtServer A
  stop_mark s = record s { clients = map lose s.clients }

  pub stop_clear : SrtServer A → SrtServer A
  stop_clear s = record s { clients = []; client_count = 0 }
