-- ===== src/Net/HouseParty/Session.antt =====
-- The sessions of the producer (src/net/house_party.cpp).
use nova_visualiser.Prelude.{
  ◌≡◌, refl, Bool, true, false, not, ◌&&◌, Option, none, some, [], arith, Bool-cases, inl, inr,
  if◌then◌else◌, codes,
}
use nova_visualiser.Prelude.Int.{ℤ}
use nova_visualiser.Core.Double.{Double}
use nova_visualiser.Core.Json.{Value, NumberText, find}
use nova_visualiser.Core.Json.Access.{string_or}
use nova_visualiser.Net.Config.{HttpResponse, ok, parse_json}
use nova_visualiser.Net.HouseParty.{
  HousePartyProducer, Request, no_id, with_session, session_in, begin_session, end_session,
  send_frame, frame_answered, frame_pass, pass, new_producer, set_enabled, update, IsReachable,
  started, enables, updates, passes, smoothed,
}

flags : (b : Bool) → (not b && b) ≡ false
flags b = ground arith

abbrev pub has_request : Option Request → Bool
has_request none = false
has_request (some request) = true

module _ {D : Type 0} ⦃d : Double D⦄ where
  -- A session that is active has an id.
  abbrev pub IsNamed : HousePartyProducer D → Type 0
  IsNamed p = (p.session_active && no_id p.session_id) ≡ false

  when-IsNamed :
      (b : Bool) (p q : HousePartyProducer D) → IsNamed p → IsNamed q → IsNamed (if b then p else q)
  when-IsNamed true p q h k = h
  when-IsNamed false p q h k = k

  with_session-IsNamed :
      (id : Option (Value D)) (p : HousePartyProducer D) → IsNamed p → IsNamed (with_session id p).1
  unfolding with_session
  with_session-IsNamed none p h = h
  with_session-IsNamed (some id) p h = flags (no_id (string_or id []))

  session_in-IsNamed :
      (value : Option (Value D)) (p : HousePartyProducer D)
      → IsNamed p
      → IsNamed (session_in value p).1
  unfolding session_in
  session_in-IsNamed none p h = h
  session_in-IsNamed (some value) p h = with_session-IsNamed (find (codes "id") value) p h

  begin_session-IsNamed :
      (numbers : NumberText D) (response : HttpResponse) (p : HousePartyProducer D)
      → IsNamed p
      → IsNamed (begin_session numbers response p).1
  unfolding begin_session
  begin_session-IsNamed numbers response p h = elim (Bool-cases (not (ok response))) [
    | inl e ↦ rw e h
    | inr e ↦ rw e (session_in-IsNamed (parse_json numbers response.body) p h)
  ]

  frame_answered-IsNamed :
      (request : Option Request) (response : HttpResponse) (p : HousePartyProducer D)
      → IsNamed p
      → IsNamed (frame_answered request response p)
  unfolding frame_answered
  frame_answered-IsNamed none response p h = refl
  frame_answered-IsNamed (some request) response p h = elim (Bool-cases (ok response)) [
    | inl e ↦ rw e h
    | inr e ↦ rw e refl
  ]

  either-IsNamed :
      (b : Bool) (one other : Option Request × HousePartyProducer D)
      → IsNamed one.1
      → IsNamed other.1
      → IsNamed (if b then one else other).1
  either-IsNamed true one other h k = h
  either-IsNamed false one other h k = k

  send_frame-IsNamed :
      (sampled_at_ms : ℤ) (p : HousePartyProducer D)
      → IsNamed p
      → IsNamed (send_frame sampled_at_ms p).1
  unfolding send_frame smoothed
  send_frame-IsNamed sampled_at_ms p h = either-IsNamed (no_id p.session_id) _ _ h h

  frame_pass-IsNamed :
      (sampled_at_ms : ℤ) (response : HttpResponse) (p : HousePartyProducer D)
      → IsNamed p
      → IsNamed (frame_pass sampled_at_ms response p)
  unfolding frame_pass
  frame_pass-IsNamed sampled_at_ms response p h =
      when-IsNamed p.session_active _ _
        (frame_answered-IsNamed (send_frame sampled_at_ms p).0 response
          (send_frame sampled_at_ms p).1 (send_frame-IsNamed sampled_at_ms p h))
        h

  end_session-IsNamed : (p : HousePartyProducer D) → IsNamed (end_session p).1
  unfolding end_session
  end_session-IsNamed p = refl

  pass-IsNamed :
      (numbers : NumberText D) (session_response frame_response : HttpResponse) (sampled_at_ms : ℤ)
      (p : HousePartyProducer D)
      → IsNamed p
      → IsNamed (pass numbers session_response frame_response sampled_at_ms p)
  unfolding pass
  pass-IsNamed numbers session_response frame_response sampled_at_ms p h =
      let opened = begin_session-IsNamed numbers session_response p h in
      let sent = frame_pass-IsNamed sampled_at_ms frame_response in
      when-IsNamed (p.enabled && not p.session_active) _ _
        (when-IsNamed (begin_session numbers session_response p).0 _ _
          (sent (begin_session numbers session_response p).1 opened) opened)
        (when-IsNamed (not p.enabled && p.session_active) _ _
          (sent (end_session p).1 (end_session-IsNamed p)) (sent p h))

  reachable-IsNamed :
      (numbers : NumberText D) (p : HousePartyProducer D) → IsReachable numbers p → IsNamed p
  unfolding new_producer set_enabled update
  reachable-IsNamed numbers p started = refl
  reachable-IsNamed numbers p (enables enabled q r) = reachable-IsNamed numbers q r
  reachable-IsNamed numbers p (updates signal palette hue q r) = reachable-IsNamed numbers q r
  reachable-IsNamed numbers p (passes session_response frame_response sampled_at_ms q r) =
      pass-IsNamed numbers session_response frame_response sampled_at_ms q
        (reachable-IsNamed numbers q r)

  has_request-unless :
      (active missing : Bool) (one other : Option Request × HousePartyProducer D)
      → (active && missing) ≡ false
      → has_request other.0 ≡ true
      → (active && not (has_request (if missing then one else other).0)) ≡ false
  has_request-unless false missing one other e h = refl
  has_request-unless true true one other e h = ground arith
  has_request-unless true false one other e h = ground arith

  -- In every run, whatever the room's server answers and whenever the engine calls `setEnabled` and
  -- `update`: while a session is active, a frame makes its request, so it is not dropped for a
  -- missing id.
  pub send_frame-has_request :
      (numbers : NumberText D) (sampled_at_ms : ℤ) (p : HousePartyProducer D)
      → IsReachable numbers p
      → (p.session_active && not (has_request (send_frame sampled_at_ms p).0)) ≡ false
  unfolding send_frame
  send_frame-has_request numbers sampled_at_ms p r =
      has_request-unless p.session_active (no_id p.session_id) _ _ (reachable-IsNamed numbers p r)
        refl
