-- ===== src/Core/Drivers/Pulse.antt =====
-- The events and the envelopes of a driver slot (src/core/parameter_drivers.cpp).
pub mod Rounds
pub mod Events
use nova_visualiser.Prelude.{
  ℕ, zero, suc, ◌%◌, Bool, true, false, Option, none, some, List, [], ◌∷◌, ◌++◌, Bytes, codes,
  bytes_eq, if◌then◌else◌, ltb, not, ◌&&◌, ◌||◌, ◌==◌, length,
}
use nova_visualiser.Prelude.Int.{ℤ, pos, max_ℤ, min_ℤ, ltb_ℤ, ◌-ℤ◌, ◌+ℤ◌, int_text}
use nova_visualiser.Prelude.Maps.{Map, lookup, assign}
use nova_visualiser.Core.Double.{Double, ◌⊕◌, ◌⊖◌, ◌⊗◌, ◌⊘◌, ◌≺◌, ◌≼◌, nought, one, fmax, fmin}
use nova_visualiser.Core.Json.Access.{value_or}
use nova_visualiser.Core.Signal.{SignalFrame, stable_seed}
use nova_visualiser.Core.Drivers.{
  Driver, EffectBinding, DriverSlotState, EnvelopeTimes, Phase, idle, attack, hold, release, finite,
  clamp01, driver_divide, driver_fires_on, random_cadence_driver, subdivided_index, envelope_times,
  level_signal, is_pulse_driver, new_slot,
}

pub record WindowPosition (D : Type 0) : Type 0 where
  pub index : ℤ
  pub fraction : D

-- The loop of `advancePulseEnvelope`: the slot, the time that is left, and whether `break` was met.
pub record Walk (D : Type 0) : Type 0 where
  pub slot : DriverSlotState D
  pub remaining : D
  pub stopped : Bool

-- "/<divide>" of a driver that subdivides
abbrev divide_suffix : ℤ → Bytes
divide_suffix divide = if ltb_ℤ (pos 1) divide then b'/' ∷ int_text divide else []

abbrev pub is_idle : Phase → Bool
is_idle idle = true
is_idle _ = false

-- The key of an event that fires, and the empty text otherwise
abbrev key_if : Bool → Bytes → Bytes
key_if fires key = if fires then key else []

abbrev is_empty : Bytes → Bool
is_empty s = length s == 0

module _ {D : Type 0} ⦃d : Double D⦄ where
  -- max(0.25, finite(intervalSeconds, 4))
  abbrev timer_interval : Driver D → D
  timer_interval driver =
      fmax (d.literal (codes "0.25")) (finite driver.interval_seconds (d.literal (codes "4")))

  window_at : Driver D → SignalFrame D → D
  unfolding bytes_eq driver_divide
  window_at driver frame =
      let is_downbeat = bytes_eq driver.type (codes "downbeat") in
      let whole = if is_downbeat then frame.bar_index else frame.beat_index in
      let phase = if is_downbeat then frame.bar_phase else frame.beat_phase in
      if bytes_eq driver.type (codes "timer")
      then finite frame.time nought ⊘ timer_interval driver
      else (d.of_int whole ⊕ fmax nought (fmin one (finite phase nought)))
        ⊗ d.of_int (driver_divide driver)

  -- `driverWindowPosition`: none where it returns false.
  unfoldable pub driver_window_position : Driver D → SignalFrame D → Option (WindowPosition D)
  unfolding bytes_eq window_at ◌-ℤ◌
  driver_window_position driver frame =
      let every = max_ℤ (pos 1) driver.every in
      let offset = max_ℤ (pos 0) (min_ℤ (every -ℤ pos 1) driver.offset) in
      let cycles = (window_at driver frame ⊖ d.of_int offset) ⊘ d.of_int every in
      let index = d.floor cycles in
      if bytes_eq driver.type (codes "song")
      then none
      else some (record { index = d.to_int index; fraction = cycles ⊖ index })

  -- The song part of `pulseEventKey`, which counts the changes of the track,
  count_track : SignalFrame D → DriverSlotState D → DriverSlotState D
  unfolding ◌+ℤ◌
  count_track frame state =
      if state.seen_track
      then if frame.track_seed == state.last_track_seed then state else record state {
        last_track_seed = frame.track_seed;
        event_count = state.event_count +ℤ pos 1;
      }
      else record state { seen_track = true; last_track_seed = frame.track_seed }

  song_key : Driver D → DriverSlotState D → Bytes
  unfolding driver_fires_on int_text
  song_key driver state =
      key_if (driver_fires_on state.event_count driver.every driver.offset)
        (codes "s:" ++ int_text state.event_count)

  timer_key : Driver D → SignalFrame D → Bytes
  unfolding driver_fires_on int_text
  timer_key driver frame =
      let index = d.to_int (d.floor (finite frame.time nought ⊘ timer_interval driver)) in
      key_if (driver_fires_on index driver.every driver.offset) (codes "t:" ++ int_text index)

  -- and the part for beats and downbeats.
  beat_key : Bytes → ℤ → D → Driver D → Bytes
  unfolding driver_fires_on int_text driver_divide subdivided_index
  beat_key prefix whole phase driver =
      let divide = driver_divide driver in
      let index = subdivided_index whole phase divide in
      key_if (driver_fires_on index driver.every driver.offset)
        (prefix ++ divide_suffix divide ++ b':' ∷ int_text index)

  -- `pulseEventKey`, with the new state of the slot
  unfoldable pub pulse_event_key :
      Driver D → SignalFrame D → DriverSlotState D → Bytes × DriverSlotState D
  unfolding bytes_eq count_track song_key timer_key beat_key
  pulse_event_key driver frame state =
      if bytes_eq driver.type (codes "song")
      then (song_key driver (count_track frame state), count_track frame state)
      else if bytes_eq driver.type (codes "timer")
      then (timer_key driver frame, state)
      else if bytes_eq driver.type (codes "downbeat")
      then (beat_key (codes "d") frame.bar_index frame.bar_phase driver, state)
      else (beat_key (codes "b") frame.beat_index frame.beat_phase driver, state)

  -- One round of the loop of `advancePulseEnvelope`, by phase.
  pub attack_step : EnvelopeTimes D → Walk D → Walk D
  attack_step times w =
      let needed = (one ⊖ w.slot.level) ⊗ times.attack_seconds in
      if times.attack_seconds ≼ nought
      then record w { slot = record (w.slot) { level = one; phase = hold } }
      else if needed ≼ w.remaining
      then record w {
        slot = record (w.slot) { level = one; phase = hold };
        remaining = w.remaining ⊖ needed;
      }
      else record w {
        slot = record (w.slot) { level = w.slot.level ⊕ w.remaining ⊘ times.attack_seconds };
        remaining = nought;
      }

  pub hold_step : Bool → Walk D → Walk D
  hold_step triggered w =
      let used = fmin w.remaining w.slot.hold_remaining in
      let left = w.slot.hold_remaining ⊖ used in
      if triggered
      then record w { stopped = true }
      else if w.slot.hold_remaining ≼ nought
      then record w { slot = record (w.slot) { phase = release } }
      else record w {
        slot = record (w.slot) {
          hold_remaining = left;
          phase = if left ≼ nought then release else w.slot.phase;
        };
        remaining = w.remaining ⊖ used;
      }

  pub release_step : EnvelopeTimes D → Walk D → Walk D
  release_step times w =
      let needed = w.slot.level ⊗ times.release_seconds in
      if times.release_seconds ≼ nought
      then record w { slot = record (w.slot) { level = nought; phase = idle } }
      else if needed ≼ w.remaining
      then record w { slot = record (w.slot) { level = nought; phase = idle }; remaining = nought }
      else record w {
        slot = record (w.slot) { level = w.slot.level ⊖ w.remaining ⊘ times.release_seconds };
        remaining = nought;
      }

  pub envelope_step : Phase → Bool → EnvelopeTimes D → Walk D → Walk D
  unfolding attack_step hold_step release_step
  envelope_step idle triggered times w = record w { stopped = true }
  envelope_step attack triggered times w = attack_step times w
  envelope_step hold triggered times w = hold_step triggered w
  envelope_step release triggered times w = release_step times w

  -- The loop goes on,
  abbrev pub goes_on : Walk D → Bool
  goes_on w = not w.stopped && nought ≺ w.remaining && not (is_idle w.slot.phase)

  -- for at most so many rounds.
  pub envelope_walk : ℕ → Bool → EnvelopeTimes D → Walk D → Walk D
  unfolding envelope_step
  envelope_walk zero triggered times w = w
  envelope_walk (suc rounds) triggered times w = elim (goes_on w) [
    | true ↦ envelope_walk rounds triggered times (envelope_step w.slot.phase triggered times w)
    | false ↦ w
  ]

  -- A new event
  unfoldable pub is_triggered : DriverSlotState D → Bytes → Bool
  unfolding bytes_eq
  is_triggered state event_key =
      not (is_empty event_key) && not (bytes_eq event_key state.event_key)

  -- starts the attack.
  pub triggered_slot : Bool → DriverSlotState D → EnvelopeTimes D → Bytes → DriverSlotState D
  triggered_slot true state times event_key = record state {
    event_key = event_key;
    phase = attack;
    hold_remaining = fmax nought times.hold_seconds;
  }
  triggered_slot false state times event_key = state

  -- Behind the loop: an idle slot is at level 0.
  pub settled : DriverSlotState D → DriverSlotState D
  settled state = if is_idle state.phase then record state { level = nought } else state

  -- `advancePulseEnvelope`
  pub advance_pulse_envelope :
      DriverSlotState D → EnvelopeTimes D → D → Bytes → D × DriverSlotState D
  unfolding is_triggered triggered_slot envelope_walk settled
  advance_pulse_envelope state times delta event_key =
      let triggered = is_triggered state event_key in
      let start = triggered_slot triggered state times event_key in
      let walked =
        envelope_walk 4 triggered times
          (record { slot = start; remaining = delta; stopped = false }) in
      (clamp01 (settled walked.slot).level, settled walked.slot)

  follow : D → D → Bool → DriverSlotState D → D × DriverSlotState D
  follow duration delta rising state =
      let step = delta ⊘ duration in
      let next =
        if duration ≼ nought
        then state.target
        else if rising
        then fmin state.target (state.current ⊕ step)
        else fmax state.target (state.current ⊖ step) in
      (clamp01 next, record state { current = next })

  -- `advanceFollower`
  unfoldable pub advance_follower :
      DriverSlotState D → EnvelopeTimes D → D → D → D × DriverSlotState D
  unfolding follow
  advance_follower state times delta signal =
      let aimed = record state { target = signal } in
      if state.current ≼ signal
      then follow times.attack_seconds delta true
          (record aimed { hold_remaining = fmax nought times.hold_seconds })
      else if nought ≺ state.hold_remaining
      then (state.current, record aimed { hold_remaining = state.hold_remaining ⊖ delta })
      else follow times.release_seconds delta false aimed

  -- A number from 0 to 1 for a text
  abbrev pub drawn : Bytes → D
  drawn text = d.of_int (pos (stable_seed text % 1000003)) ⊘ d.literal (codes "1000002.0")

  window_key_of : Driver D → WindowPosition D → Bytes
  unfolding bytes_eq driver_divide int_text
  window_key_of cadence position =
      let prefix =
        if bytes_eq cadence.type (codes "downbeat")
        then codes "d"
        else if bytes_eq cadence.type (codes "timer")
        then codes "t"
        else codes "b" in
      codes "r" ++ prefix ++ divide_suffix (driver_divide cadence) ++ b':' ∷ int_text position.index

  -- A new window draws a new threshold,
  pub enter_window : DriverSlotState D → Bytes → Bytes → DriverSlotState D
  unfolding bytes_eq stable_seed
  enter_window state window_key key =
      if bytes_eq window_key state.window_key then state else record state {
        window_key = window_key;
        target = drawn (key ++ b':' ∷ window_key);
        fired = false;
      }

  -- and fires once, when the fraction is past it.
  pub fire_in_window : DriverSlotState D → D → Bytes × DriverSlotState D
  fire_in_window state fraction =
      if not state.fired && state.target ≼ fraction
      then (state.window_key ++ b'!' ∷ [], record state { fired = true })
      else ([], state)

  jittered_pulse :
      Option (WindowPosition D)
      → DriverSlotState D
      → Driver D
      → EnvelopeTimes D
      → SignalFrame D
      → D
      → Bytes
      → D × DriverSlotState D
  unfolding advance_pulse_envelope pulse_event_key window_key_of enter_window fire_in_window
  jittered_pulse none state cadence times frame delta key =
      let (event_key, next) = pulse_event_key cadence frame state in
      advance_pulse_envelope next times delta event_key
  jittered_pulse (some position) state cadence times frame delta key =
      let entered = enter_window state (window_key_of cadence position) key in
      let (event_key, next) = fire_in_window entered position.fraction in
      advance_pulse_envelope next times delta event_key

  -- `advanceJitteredPulse`
  unfoldable pub advance_jittered_pulse :
      DriverSlotState D
      → Driver D
      → EffectBinding D
      → SignalFrame D
      → D
      → Bytes
      → D × DriverSlotState D
  unfolding jittered_pulse driver_window_position random_cadence_driver envelope_times
  advance_jittered_pulse state driver binding frame delta key =
      let cadence = random_cadence_driver driver in
      jittered_pulse (driver_window_position cadence frame) state cadence (envelope_times binding)
        frame delta key

  slot_signal :
      Driver D → EffectBinding D → SignalFrame D → DriverSlotState D → Bytes → D × DriverSlotState D
  unfolding advance_jittered_pulse is_pulse_driver pulse_event_key advance_pulse_envelope
      advance_follower level_signal envelope_times bytes_eq
  slot_signal driver binding frame state key =
      let delta = fmax (d.literal (codes "1.0") ⊘ d.literal (codes "120.0")) (
        fmin (d.literal (codes "0.25"))
          (finite frame.delta (d.literal (codes "1.0") ⊘ d.literal (codes "60.0")))) in
      let (event_key, next) = pulse_event_key driver frame state in
      if bytes_eq driver.type (codes "random")
      then advance_jittered_pulse state driver binding frame delta key
      else if is_pulse_driver driver
      then advance_pulse_envelope next (envelope_times binding) delta event_key
      else advance_follower state (envelope_times binding) delta (level_signal driver frame)

  -- `driverSignal`, with the new states
  unfoldable pub driver_signal :
      Driver D
      → EffectBinding D
      → SignalFrame D
      → Map (DriverSlotState D)
      → Bytes
      → D × Map (DriverSlotState D)
  unfolding slot_signal lookup value_or assign
  driver_signal driver binding frame states key =
      let (signal, next) =
        slot_signal driver binding frame (value_or (lookup key states) new_slot) key in
      (signal, assign key next states)
