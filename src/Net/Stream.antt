-- ===== src/Net/Stream.antt =====
-- src/net/stream_server.{h,cpp}: StreamServer, the TCP transport. This file has the state and one
-- function for each critical section of its threads: the accept loop, the writer and the reader of
-- a client, the render thread's `broadcast`, and `stop`.
-- A packet is a shared pointer that the queues never look into, so its type is a parameter.
pub mod Steps
pub mod Delivery
pub mod Recovery
pub mod Race
mod Tests
use nova_visualiser.Prelude.{
  ℕ, suc, ◌+◌, Bool, true, false, not, ◌&&◌, ◌||◌, Option, none, some, List, [], ◌∷◌, ◌++◌, map,
  length, if◌then◌else◌, leb, ◌==◌, codes,
}
use nova_visualiser.Core.Double.{Double, ◌⊕◌, ◌⊗◌, ◌⊘◌, ◌≼◌, nought, fmin, fmax}

-- kMaxQueuedFrames
abbrev pub max_queued_frames : ℕ
max_queued_frames = 8

-- `StreamServer::Client`. `id` stands for the identity of the shared object. `sending` is the
-- packet that the writer has popped and is still sending, `written` are those it has sent whole.
pub record Client {ℓ} (A : Type ℓ) : Type ℓ where
  pub id : ℕ
  pub queue : List A
  pub alive : Bool
  pub awaiting_keyframe : Bool
  pub sending : Option A
  pub written : List A

-- Where the accept loop stands: it tests `running_` and waits in `accept`, pushes the client under the
-- lock, then reads the number of clients and stores it with no lock held.
pub data Accepting : Type 0 where
  listening admitting counting : Accepting
  storing : ℕ → Accepting

-- `D` is the type of doubles. `requests` counts the calls of `requestKeyframe_`.
pub record Server {ℓ} (A : Type ℓ) (D : Type ℓ) : Type ℓ where
  pub clients : List (Client A)
  pub client_count : ℕ
  pub running : Bool
  pub accepting : Accepting
  pub next_id : ℕ
  pub requests : ℕ
  pub presentation_delay : D

module _ {ℓ} {A : Type ℓ} where
  -- A freshly accepted client.
  abbrev pub new_client : ℕ → Client A
  new_client id = record {
    id = id;
    queue = [];
    alive = true;
    awaiting_keyframe = true;
    sending = none;
    written = [];
  }

  -- The rest of the body of `broadcast`'s loop, behind the keyframe test. The flag is `overflowed`.
  pub enqueue : A → Client A → Client A × Bool
  enqueue packet c =
      if leb max_queued_frames (length c.queue)
      then (record c { queue = []; awaiting_keyframe = true }, true)
      else (record c { queue = c.queue ++ packet ∷ [] }, false)

  -- The body of `broadcast`'s loop, for one client.
  pub offer : Bool → A → Client A → Client A × Bool
  unfolding enqueue
  offer keyframe packet c =
      if c.awaiting_keyframe && not keyframe
      then (c, false)
      else enqueue packet (record c { awaiting_keyframe = false })

  -- The loop of `broadcast`, with its flag `overflowed`.
  pub offer_all : Bool → A → List (Client A) → List (Client A) × Bool
  unfolding offer
  offer_all keyframe packet [] = ([], false)
  offer_all keyframe packet (c ∷ cs) =
      let (c', full) = offer keyframe packet c in
      let (cs', others) = offer_all keyframe packet cs in (c' ∷ cs', full || others)

  take_front : Client A → List A → Client A
  take_front c [] = c
  take_front c (packet ∷ rest) = record c { queue = rest; sending = some packet }

  take_idle : Client A → Option A → Client A
  unfolding take_front
  take_idle c none = take_front c c.queue
  take_idle c (some packet) = c

  -- The writer pops a packet once it is done with the last one. It waits while the queue is empty,
  -- and takes nothing once the client is dead.
  pub take_packet : Client A → Client A
  unfolding take_idle
  take_packet c = if c.alive then take_idle c c.sending else c

  finish_packet : Client A → Option A → Client A
  finish_packet c none = c
  finish_packet c (some packet) = record c { written = c.written ++ packet ∷ []; sending = none }

  -- The send loop has sent the last byte of the packet.
  pub packet_sent : Client A → Client A
  unfolding finish_packet
  packet_sent c = finish_packet c c.sending

  -- A failed send or receive, or a message over 65536 bytes. What was sent of a packet stays sent.
  pub lose : Client A → Client A
  lose c = record c { alive = false }

  -- Applies `f` to the client `id`.
  pub at_client : ℕ → (Client A → Client A) → List (Client A) → List (Client A)
  at_client id f [] = []
  at_client id f (c ∷ cs) = (if c.id == id then f c else c) ∷ at_client id f cs

  -- `clients_.erase(std::remove(...), ...)`
  pub without : ℕ → List (Client A) → List (Client A)
  without id [] = []
  without id (c ∷ cs) = let rest = without id cs in if c.id == id then rest else c ∷ rest

  -- The client `id` is there and dead: its writer leaves its loop and may retire it at any time from
  -- here on.
  pub has_ended : ℕ → List (Client A) → Bool
  has_ended id [] = false
  has_ended id (c ∷ cs) = (c.id == id && not c.alive) || has_ended id cs

module _ {ℓ} {A D : Type ℓ} where
  abbrev request_keyframe : Bool → Server A D → Server A D
  request_keyframe asked s = if asked then record s { requests = s.requests + 1 } else s

  -- `acceptLoop`: the loop has found `running_` set and calls `accept`,
  pub accept_admit : Server A D → Server A D
  accept_admit s = record s { accepting = admitting }

  -- which may fail;
  pub accept_refused : Server A D → Server A D
  accept_refused s = record s { accepting = listening }

  -- else the client is pushed,
  pub accept_push : Server A D → Server A D
  accept_push s = record s {
    clients = s.clients ++ new_client s.next_id ∷ [];
    next_id = suc s.next_id;
    accepting = counting;
  }

  -- the number of clients is read,
  pub accept_read : Server A D → Server A D
  accept_read s = record s { accepting = storing (length s.clients) }

  -- and stored; then a keyframe is requested.
  pub accept_store : ℕ → Server A D → Server A D
  accept_store count s = record s {
    client_count = count;
    accepting = listening;
    requests = s.requests + 1;
  }

  -- `broadcast`, from the packet on.
  pub broadcast_packet : Bool → A → Server A D → Server A D
  broadcast_packet keyframe packet s = elim s.clients [
    | [] ↦ s
    | c ∷ cs ↦
        let (targets, overflowed) = offer_all keyframe packet (c ∷ cs) in
        request_keyframe overflowed (record s { clients = targets })
  ]

  -- One of the writer's or the reader's sections, on the client `id`.
  pub on_client : ℕ → (Client A → Client A) → Server A D → Server A D
  unfolding at_client
  on_client id f s = record s { clients = at_client id f s.clients }

  -- The reader got a 0x81 message.
  pub keyframe_asked : Server A D → Server A D
  keyframe_asked s = record s { requests = s.requests + 1 }

  -- The writer's last section. The delay is reset to zero with the last client.
  pub retire : D → ℕ → Server A D → Server A D
  unfolding without
  retire zero_delay id s = record s {
    clients = without id s.clients;
    client_count = length (without id s.clients);
    presentation_delay = elim (without id s.clients) [
      | [] ↦ zero_delay
      | c ∷ cs ↦ s.presentation_delay
    ];
  }

  -- `stop`: `running_` is cleared,
  pub stop_flag : Server A D → Server A D
  stop_flag s = record s { running = false }

  -- behind the join of the accept loop every client is marked dead,
  pub stop_mark : Server A D → Server A D
  unfolding lose
  stop_mark s = record s { clients = map lose s.clients }

  -- after a bounded wait the list is cleared,
  pub stop_clear : Server A D → Server A D
  stop_clear s = record s { clients = [] }

  -- and 0 is stored as the count, with the lock released.
  pub stop_zero : Server A D → Server A D
  stop_zero s = record s { client_count = 0 }

module _ {A D : Type 0} ⦃d : Double D⦄ where
  -- The reader got a latency report, of a delay in milliseconds, and smooths it.
  pub report_delay : D → Server A D → Server A D
  report_delay presentation_delay_ms s =
      let sample = presentation_delay_ms ⊘ d.literal (codes "1000.0") in
      let previous = s.presentation_delay in
      let smoothed =
        if previous ≼ nought
        then sample
        else previous ⊗ d.literal (codes "0.9") ⊕ sample ⊗ d.literal (codes "0.1") in
      record s { presentation_delay = fmin (d.literal (codes "0.75")) (fmax nought smoothed) }
