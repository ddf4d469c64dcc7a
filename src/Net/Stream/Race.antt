-- ===== src/Net/Stream/Race.antt =====
-- `acceptLoop` reads the number of clients with no lock held and stores it afterwards.
use nova_visualiser.Prelude.{ℕ, ◌≤◌, ◌<◌, ◌≡◌, refl, true, List, [], ◌∷◌, ◌++◌, length, arith}
use nova_visualiser.Core.Double.{Double}
use nova_visualiser.Net.Stream.{
  Client, listening, new_client, without, has_ended, accept_admit, accept_push, accept_read,
  accept_store, retire,
}
use nova_visualiser.Net.Stream.Steps.{World, Step, Reach}

module _ {ℓ} {A : Type ℓ} where
  length-without-le : (id : ℕ) (cs : List (Client A)) → length (without id cs) ≤ length cs
  unfolding without
  length-without-le id [] = omega arith
  length-without-le id (c ∷ cs) = ground (arith, length-without-le id cs)

  length-without-lt :
      (id : ℕ) (cs : List (Client A)) → has_ended id cs ≡ true → length (without id cs) < length cs
  unfolding without has_ended
  length-without-lt id [] h = cc
  length-without-lt id (c ∷ cs) h = ground (arith, length-without-le id cs, length-without-lt id cs)

  has_ended-append :
      (id : ℕ) (cs ds : List (Client A)) → has_ended id cs ≡ true → has_ended id (cs ++ ds) ≡ true
  unfolding has_ended
  has_ended-append id [] ds h = cc
  has_ended-append id (c ∷ cs) ds h = ground (arith, has_ended-append id cs ds)

-- From every state in which the server runs, its accept loop listens and some client is dead but not
-- yet retired, the threads can reach a state in which the accept loop listens again and the
-- stored client count is above the number of connected clients.
pub client_count_overtaken :
    {D : Type 0} ⦃d : Double D⦄ (zero_delay : D) (w : World D) (id : ℕ)
    → w.server.running ≡ true
    → w.server.accepting ≡ listening
    → has_ended id w.server.clients ≡ true
    → (v : World D) × Reach zero_delay w v
      × (v.server.accepting ≡ listening)
      × (length v.server.clients < v.server.client_count)
unfolding accept_admit accept_push accept_read accept_store retire
client_count_overtaken zero_delay w id r l e =
    let pushed = w.server.clients ++ new_client w.server.next_id ∷ [] in
    let ended = has_ended-append id w.server.clients (new_client w.server.next_id ∷ []) e in
    (
      _,
      Reach.next
          (Reach.next
            (Reach.next (Reach.next (Reach.next Reach.here (Step.admits r l)) (Step.accepts refl))
              (Step.counts refl))
            (Step.retires id ended))
          (Step.stores (length pushed) refl),
      refl,
      length-without-lt id pushed ended,
    )
