-- ===== src/Net/HouseParty.antt =====
-- src/net/house_party.{h,cpp}: the producer of the beat frames for the room's lights.
pub mod Session
mod Tests
use nova_visualiser.Prelude.{
  ℕ, Bool, true, false, Option, none, some, List, [], ◌∷◌, ◌++◌, Bytes, codes, if◌then◌else◌, not,
  ◌&&◌, length, ◌==◌,
}
use nova_visualiser.Prelude.Int.{ℤ, pos, ◌+ℤ◌, int_text}
use nova_visualiser.Prelude.Maps.{Map}
use nova_visualiser.Core.Double.{Double, ◌⊕◌, ◌⊖◌, ◌⊗◌, nought, one, clamp_value}
use nova_visualiser.Core.Json.{Value, NumberText, find}
use nova_visualiser.Core.Json.Access.{string_or}
use nova_visualiser.Core.Vec.{Vec4, mix}
use nova_visualiser.Core.Palette.{color}
use nova_visualiser.Core.Signal.{SignalFrame, default_frame}
use nova_visualiser.Net.Config.{HttpResponse, ok, parse_json}

-- The state of `HousePartyProducer`
pub record HousePartyProducer (D : Type 0) : Type 0 where
  pub enabled : Bool
  pub session_active : Bool
  pub signal : SignalFrame D
  pub palette : Map (Vec4 D)
  pub hue_offset_degrees : D
  pub session_id : Bytes
  pub sequence : ℤ
  pub smoothed_local_brightness : D
  pub smoothed_cloud_brightness : D

-- A request: its path behind the base URL, and its body
pub record Request : Type 0 where
  pub path : Bytes
  pub body : Bytes

abbrev pub no_id : Bytes → Bool
no_id id = length id == 0

abbrev session_path : Bytes
session_path = codes "/api/phonoscope/house-party/session"

abbrev truth_text : Bool → Bytes
truth_text b = if b then codes "true" else codes "false"

module _ {D : Type 0} where
  -- `setEnabled` and `update`
  pub set_enabled : Bool → HousePartyProducer D → HousePartyProducer D
  set_enabled enabled p = record p { enabled = enabled }

  pub update : SignalFrame D → Map (Vec4 D) → D → HousePartyProducer D → HousePartyProducer D
  update signal palette hue_offset_degrees p = record p {
    signal = signal;
    palette = palette;
    hue_offset_degrees = hue_offset_degrees;
  }

  with_session : Option (Value D) → HousePartyProducer D → Bool × HousePartyProducer D
  unfolding string_or
  with_session none p = (false, p)
  with_session (some id) p =
      let session_id = string_or id [] in
      (
        not (no_id session_id),
        record p {
          session_id = session_id;
          sequence = pos 0;
          session_active = not (no_id session_id);
        },
      )

  session_in : Option (Value D) → HousePartyProducer D → Bool × HousePartyProducer D
  unfolding with_session find
  session_in none p = (false, p)
  session_in (some value) p = with_session (find (codes "id") value) p

  -- `endSession`, with the request it makes
  pub end_session : HousePartyProducer D → Option Request × HousePartyProducer D
  end_session p = (
    if no_id p.session_id
        then none
        else some (record {
          path = session_path ++ b'/' ∷ (p.session_id ++ codes "?end=1");
          body = codes "{}";
        }),
    record p { session_id = []; session_active = false },
  )

module _ {D : Type 0} ⦃d : Double D⦄ where
  -- `beginSession`, on the response it gets
  pub begin_session :
      NumberText D → HttpResponse → HousePartyProducer D → Bool × HousePartyProducer D
  unfolding session_in
  begin_session numbers response p =
      if not (ok response) then (false, p) else session_in (parse_json numbers response.body) p

  -- `channel`; `std::lround` is a rounding and a cast.
  channel_level : D → ℤ
  channel_level value =
      d.to_int (d.round (d.to_float (clamp_value value nought one ⊗ d.literal (codes "255.0f"))))

  -- base + span * clamp(beatPulse * (0.5 + energy))
  target_brightness : Bytes → Bytes → SignalFrame D → D
  target_brightness base span signal =
      d.literal base
      ⊕ d.literal span
        ⊗ clamp_value (signal.beat_pulse ⊗ (d.literal (codes "0.5") ⊕ signal.energy)) nought one

  -- The members' initializers
  pub new_producer : HousePartyProducer D
  new_producer = record {
    enabled = false;
    session_active = false;
    signal = default_frame;
    palette = [];
    hue_offset_degrees = nought;
    session_id = [];
    sequence = pos 0;
    smoothed_local_brightness = d.literal (codes "50");
    smoothed_cloud_brightness = d.literal (codes "50");
  }

  -- The brightness behind a frame, closer to its target by a part of the way
  pub smoothed : HousePartyProducer D → HousePartyProducer D
  unfolding target_brightness
  smoothed p = record p {
    smoothed_local_brightness =
        p.smoothed_local_brightness
        ⊕ (target_brightness (codes "25") (codes "65") p.signal ⊖ p.smoothed_local_brightness)
          ⊗ d.literal (codes "0.5");
    smoothed_cloud_brightness =
        p.smoothed_cloud_brightness
        ⊕ (target_brightness (codes "20") (codes "55") p.signal ⊖ p.smoothed_cloud_brightness)
          ⊗ d.literal (codes "0.2");
  }

  -- The body of a frame, from the producer behind the smoothing and the time in milliseconds
  pub frame_body : HousePartyProducer D → ℤ → Bytes
  unfolding channel_level mix int_text
  frame_body p sampled_at_ms =
      let pulse = d.to_float (clamp_value p.signal.beat_pulse nought one) in
      let peak =
        mix (color p.palette (codes "primary")) (color p.palette (codes "secondary")) pulse in
      codes "{\"sequence\":"
      ++ int_text p.sequence
      ++ codes ",\"peakRgb\":["
      ++ int_text (channel_level peak.x)
      ++ codes ","
      ++ int_text (channel_level peak.y)
      ++ codes ","
      ++ int_text (channel_level peak.z)
      ++ codes "],\"peakBrightnessPct\":"
      ++ d.to_string p.smoothed_local_brightness
      ++ codes ",\"cloudPeakBrightnessPct\":"
      ++ d.to_string p.smoothed_cloud_brightness
      ++ codes ",\"transitionSeconds\":0.2,\"hueOffsetDegrees\":"
      ++ d.to_string (clamp_value p.hue_offset_degrees nought (d.literal (codes "180.0")))
      ++ codes ",\"hueMode\":\"follow\",\"brightnessMode\":\"follow\",\"ambient\":"
      ++ truth_text (not p.signal.playing)
      ++ codes ",\"themeTransitionSeconds\":0.6,\"clock\":{\"trackKey\":null,\"position\":"
      ++ d.to_string p.signal.time
      ++ codes ",\"duration\":"
      ++ d.to_string p.signal.duration
      ++ codes ",\"playing\":"
      ++ truth_text p.signal.playing
      ++ codes ",\"sampledAtMs\":"
      ++ int_text sampled_at_ms
      ++ codes "}}"

  -- `sendFrame`: the request it makes, and the producer
  pub send_frame : ℤ → HousePartyProducer D → Option Request × HousePartyProducer D
  unfolding smoothed frame_body ◌+ℤ◌
  send_frame sampled_at_ms p =
      let counted = record p { sequence = p.sequence +ℤ pos 1 } in
      if no_id p.session_id then (none, counted) else (
        some (record {
          path = session_path ++ b'/' ∷ p.session_id;
          body = frame_body (smoothed counted) sampled_at_ms;
        }),
        smoothed counted,
      )

  -- A frame that is not accepted drops the session.
  frame_answered : Option Request → HttpResponse → HousePartyProducer D → HousePartyProducer D
  frame_answered none response p = record p { session_active = false }
  frame_answered (some request) response p =
      if ok response then p else record p { session_active = false }

  -- The second half of a pass of `run`
  pub frame_pass : ℤ → HttpResponse → HousePartyProducer D → HousePartyProducer D
  unfolding send_frame frame_answered
  frame_pass sampled_at_ms response p =
      if p.session_active
      then frame_answered (send_frame sampled_at_ms p).0 response (send_frame sampled_at_ms p).1
      else p

  -- A pass of `run`, with the answers to the requests it may make. A session that does not begin ends
  -- the pass.
  pub pass :
      NumberText D → HttpResponse → HttpResponse → ℤ → HousePartyProducer D → HousePartyProducer D
  unfolding begin_session end_session frame_pass
  pass numbers session_response frame_response sampled_at_ms p =
      let (begun, opened) = begin_session numbers session_response p in
      if p.enabled && not p.session_active
      then if begun then frame_pass sampled_at_ms frame_response opened else opened
      else if not p.enabled && p.session_active
      then frame_pass sampled_at_ms frame_response (end_session p).1
      else frame_pass sampled_at_ms frame_response p

  -- The producers a run may come to, the engine's calls between its passes
  pub data IsReachable (numbers : NumberText D) : HousePartyProducer D → Type 0 where
    started : IsReachable numbers new_producer
    enables :
        (enabled : Bool) (p : HousePartyProducer D)
        → IsReachable numbers p
        → IsReachable numbers (set_enabled enabled p)
    updates :
        (signal : SignalFrame D) (palette : Map (Vec4 D)) (hue : D) (p : HousePartyProducer D)
        → IsReachable numbers p
        → IsReachable numbers (update signal palette hue p)
    passes :
        (session_response frame_response : HttpResponse) (sampled_at_ms : ℤ)
        (p : HousePartyProducer D)
        → IsReachable numbers p
        → IsReachable numbers (pass numbers session_response frame_response sampled_at_ms p)
