-- ===== src/Core/Drivers/Pulse/Events.antt =====
-- An event of a pulse driver starts its envelope once (src/core/parameter_drivers.cpp).
use nova_visualiser.Prelude.{
  ℕ, zero, suc, ◌≡◌, refl, ap, ◌∙◌, Bool, true, false, not, ◌&&◌, arith, Bool-cases, inl, inr,
  Bytes, length, ◌==◌,
}
use nova_visualiser.Prelude.Maps.{bytes_eq_refl}
use nova_visualiser.Core.Double.{Double, ◌≺◌, ◌≼◌, nought, one}
use nova_visualiser.Core.Drivers.{
  DriverSlotState, EnvelopeTimes, Phase, idle, attack, hold, release, clamp01,
}
use nova_visualiser.Core.Drivers.Pulse.{
  Walk, goes_on, envelope_walk, envelope_step, attack_step, hold_step, release_step,
  advance_pulse_envelope, is_triggered, triggered_slot, settled,
}

and_false : (b : Bool) → (b && false) ≡ false
and_false b = ground arith

module _ {D : Type 0} ⦃d : Double D⦄ where
  step_key :
      (triggered : Bool) (times : EnvelopeTimes D) (phase : Phase) (w : Walk D)
      → (envelope_step phase triggered times w).slot.event_key ≡ w.slot.event_key
  unfolding envelope_step attack_step hold_step release_step
  step_key triggered times idle w = refl
  step_key triggered times attack w = ground arith
  step_key triggered times hold w = ground arith
  step_key triggered times release w = ground arith

  walk_key :
      (rounds : ℕ) (triggered : Bool) (times : EnvelopeTimes D) (w : Walk D)
      → (envelope_walk rounds triggered times w).slot.event_key ≡ w.slot.event_key
  unfolding envelope_walk
  walk_key zero triggered times w = refl
  walk_key (suc rounds) triggered times w = elim (Bool-cases (goes_on w)) [
    | inl e ↦
        rw (e, envelope_walk)
          (walk_key rounds triggered times (envelope_step w.slot.phase triggered times w)
            ∙ step_key triggered times w.slot.phase w)
    | inr e ↦ rw (e, envelope_walk) refl
  ]

  settled_key : (state : DriverSlotState D) → (settled state).event_key ≡ state.event_key
  unfolding settled
  settled_key state = ground arith

  walked_key :
      (triggered : Bool) (times : EnvelopeTimes D) (start : DriverSlotState D) (delta : D)
      → (settled
          (envelope_walk 4 triggered times
            (record { slot = start; remaining = delta; stopped = false })).slot).event_key
        ≡ start.event_key
  walked_key triggered times start delta =
      settled_key
        (envelope_walk 4 triggered times
          (record { slot = start; remaining = delta; stopped = false })).slot
      ∙ walk_key 4 triggered times (record { slot = start; remaining = delta; stopped = false })

  -- Whether a key is an event depends on the slot's own key alone.
  same_event :
      (s t : DriverSlotState D) (event_key : Bytes)
      → s.event_key ≡ t.event_key
      → is_triggered s event_key ≡ is_triggered t event_key
  unfolding is_triggered
  same_event s t event_key h = rw h refl

  known_event :
      (s : DriverSlotState D) (event_key : Bytes)
      → s.event_key ≡ event_key
      → is_triggered s event_key ≡ false
  unfolding is_triggered
  known_event s event_key h =
      rw (h, bytes_eq_refl event_key) (and_false (not (length event_key == 0)))

  started_event :
      (triggered : Bool) (state : DriverSlotState D) (times : EnvelopeTimes D) (event_key : Bytes)
      → is_triggered state event_key ≡ triggered
      → is_triggered (triggered_slot triggered state times event_key) event_key ≡ false
  unfolding triggered_slot
  started_event true state times event_key h =
      known_event (triggered_slot true state times event_key) event_key refl
  started_event false state times event_key h = h

  -- An event that a slot has been advanced with is not a new event to that slot any more: the same key
  -- does not start the envelope again.
  pub advance_pulse_envelope-is_triggered :
      (state : DriverSlotState D) (times : EnvelopeTimes D) (delta : D) (event_key : Bytes)
      → is_triggered (advance_pulse_envelope state times delta event_key).1 event_key ≡ false
  unfolding advance_pulse_envelope
  advance_pulse_envelope-is_triggered state times delta event_key =
      let triggered = is_triggered state event_key in
      let start = triggered_slot triggered state times event_key in
      same_event (advance_pulse_envelope state times delta event_key).1 start event_key
        (walked_key triggered times start delta)
      ∙ started_event triggered state times event_key refl

  abbrev in_attack : DriverSlotState D → D → Walk D
  in_attack s delta = record {
    slot = record s { phase = attack };
    remaining = delta;
    stopped = false;
  }

  abbrev at_full : DriverSlotState D → D → Walk D
  at_full s delta = record {
    slot = record s { level = one; phase = hold };
    remaining = delta;
    stopped = false;
  }

  full_walk :
      (rounds : ℕ) (times : EnvelopeTimes D) (s : DriverSlotState D) (delta : D)
      → (nought ≺ delta) ≡ true
      → (envelope_walk (suc rounds) true times (at_full s delta)).slot ≡ (at_full s delta).slot
  unfolding envelope_walk envelope_step hold_step
  full_walk zero times s delta passes = rw (passes, envelope_walk) refl
  full_walk (suc rounds) times s delta passes = rw (passes, envelope_walk) refl

  walk_on :
      (rounds : ℕ) (times : EnvelopeTimes D) (w : Walk D)
      → goes_on w ≡ true
      → envelope_walk (suc rounds) true times w
        ≡ envelope_walk rounds true times (envelope_step w.slot.phase true times w)
  unfolding envelope_walk
  walk_on rounds times w h = rw (h, envelope_walk) refl

  instant_step :
      (times : EnvelopeTimes D) (s : DriverSlotState D) (delta : D)
      → (times.attack_seconds ≼ nought) ≡ true
      → envelope_step attack true times (in_attack s delta) ≡ at_full s delta
  unfolding envelope_step attack_step
  instant_step times s delta instant = rw instant refl

  attack_walk :
      (rounds : ℕ) (times : EnvelopeTimes D) (s : DriverSlotState D) (delta : D)
      → (times.attack_seconds ≼ nought) ≡ true
      → (nought ≺ delta) ≡ true
      → (envelope_walk (suc (suc rounds)) true times (in_attack s delta)).slot
        ≡ (at_full s delta).slot
  attack_walk rounds times s delta instant passes =
      ap (λ w. w.slot) (walk_on (suc rounds) times (in_attack s delta) (rw passes refl))
      ∙ ap (λ w. (envelope_walk (suc rounds) true times w).slot)
          (instant_step times s delta instant)
      ∙ full_walk rounds times s delta passes

  started :
      (triggered : Bool) (state : DriverSlotState D) (times : EnvelopeTimes D) (delta : D)
      (event_key : Bytes)
      → triggered ≡ true
      → (times.attack_seconds ≼ nought) ≡ true
      → (nought ≺ delta) ≡ true
      → (s : DriverSlotState D) × ((envelope_walk 4 triggered times (record {
        slot = triggered_slot triggered state times event_key;
        remaining = delta;
        stopped = false;
      })).slot
          ≡ record s { level = one; phase = hold })
  unfolding triggered_slot
  started true state times delta event_key h instant passes = (
    triggered_slot true state times event_key,
    attack_walk 2 times (triggered_slot true state times event_key) delta instant passes,
  )
  started false state times delta event_key h instant passes = absurd (ground arith)

  full_level :
      (s t : DriverSlotState D)
      → t ≡ record s { level = one; phase = hold }
      → ((settled t).level ≡ one) × ((settled t).phase ≡ hold)
  unfolding settled
  full_level s t h = rw h (refl, refl)

  -- With an attack of no length, and time that passes, a new event puts the slot at full level on the
  -- tick it comes on, whatever the hold and the release are, and leaves it in its hold phase.
  pub advance_pulse_envelope-attack :
      (state : DriverSlotState D) (times : EnvelopeTimes D) (delta : D) (event_key : Bytes)
      → is_triggered state event_key ≡ true
      → (times.attack_seconds ≼ nought) ≡ true
      → (nought ≺ delta) ≡ true
      → ((advance_pulse_envelope state times delta event_key).0 ≡ clamp01 one)
        × ((advance_pulse_envelope state times delta event_key).1.phase ≡ hold)
  unfolding advance_pulse_envelope
  advance_pulse_envelope-attack state times delta event_key new instant passes =
      let (s, e) =
        started (is_triggered state event_key) state times delta event_key new instant passes in
      let (level, phase) = full_level s _ e in (ap clamp01 level, phase)
