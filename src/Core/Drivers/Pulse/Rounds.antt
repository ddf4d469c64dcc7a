-- ===== src/Core/Drivers/Pulse/Rounds.antt =====
-- The rounds of the envelope of a pulse (src/core/parameter_drivers.cpp).
use nova_visualiser.Prelude.{
  ℕ, zero, suc, ◌<◌, ◌≤◌, ◌≡◌, ◌⊎◌, refl, Bool, true, false, not, ◌&&◌, arith, Bool-cases, inl, inr,
}
use nova_visualiser.Core.Double.{Double, ◌⊖◌, ◌⊗◌, ◌≺◌, ◌≼◌, nought, one}
use nova_visualiser.Core.Drivers.{EnvelopeTimes, Phase, idle, attack, hold, release}
use nova_visualiser.Core.Drivers.Pulse.{
  Walk, goes_on, envelope_walk, envelope_step, attack_step, hold_step, release_step,
}

-- The rounds that a phase has in front of it, its own included
abbrev rank : Phase → ℕ
rank idle = 0
rank release = 1
rank hold = 2
rank attack = 3

no_time_left : (stopped on t : Bool) → t ≡ false → (not stopped && t && on) ≡ false
no_time_left stopped on t h = ground arith

no_round : (time on : Bool) → (not true && time && on) ≡ false
no_round time on = refl

module _ {D : Type 0} ⦃d : Double D⦄ where
  -- After a round: the phase has moved on, or the loop is over.
  abbrev MovesOn : Walk D → Walk D → Type 0
  MovesOn w v = (suc (rank v.slot.phase) ≤ rank w.slot.phase) ⊎ (goes_on v ≡ false)

  module _ (irreflexive : (a : D) → (a ≺ a) ≡ false) (no_time : (a : D) → (nought ≺ a ⊖ a) ≡ false)
      (no_hold : (a b : D) → (a ≺ b) ≡ true → (a ≼ nought) ≡ false → (a ⊖ a ≼ nought) ≡ true) where
    attack_step-MovesOn :
        (times : EnvelopeTimes D) (w : Walk D)
        → w.slot.phase ≡ attack
        → MovesOn w (attack_step times w)
    unfolding attack_step
    attack_step-MovesOn times w h = elim (Bool-cases (times.attack_seconds ≼ nought)) [
      | inl e ↦ rw e (rw h (inl (omega arith)))
      | inr e ↦
          rw e (elim (Bool-cases ((one ⊖ w.slot.level) ⊗ times.attack_seconds ≼ w.remaining)) [
            | inl f ↦ rw f (rw h (inl (omega arith)))
            | inr f ↦ rw f (inr (no_time_left w.stopped _ _ (irreflexive nought)))
          ])
    ]

    release_step-MovesOn :
        (times : EnvelopeTimes D) (w : Walk D)
        → w.slot.phase ≡ release
        → MovesOn w (release_step times w)
    unfolding release_step
    release_step-MovesOn times w h = elim (Bool-cases (times.release_seconds ≼ nought)) [
      | inl e ↦ rw e (rw h (inl (omega arith)))
      | inr e ↦ rw e (elim (Bool-cases (w.slot.level ⊗ times.release_seconds ≼ w.remaining)) [
        | inl f ↦ rw f (rw h (inl (omega arith)))
        | inr f ↦ rw f (inr (no_time_left w.stopped _ _ (irreflexive nought)))
      ])
    ]

    hold_step-MovesOn :
        (triggered : Bool) (w : Walk D) → w.slot.phase ≡ hold → MovesOn w (hold_step triggered w)
    unfolding hold_step
    hold_step-MovesOn true w h = inr refl
    hold_step-MovesOn false w h = elim (Bool-cases (w.slot.hold_remaining ≼ nought)) [
      | inl e ↦ rw e (rw h (inl (omega arith)))
      | inr e ↦ rw e (elim (Bool-cases (w.slot.hold_remaining ≺ w.remaining)) [
        | inl f ↦
            rw f (rw (no_hold w.slot.hold_remaining w.remaining f e) (rw h (inl (omega arith))))
        | inr f ↦ rw f (inr (no_time_left w.stopped _ _ (no_time w.remaining)))
      ])
    ]

    envelope_step-MovesOn :
        (triggered : Bool) (times : EnvelopeTimes D) (phase : Phase) (w : Walk D)
        → w.slot.phase ≡ phase
        → MovesOn w (envelope_step phase triggered times w)
    unfolding envelope_step
    envelope_step-MovesOn triggered times idle w h = inr refl
    envelope_step-MovesOn triggered times attack w h = attack_step-MovesOn times w h
    envelope_step-MovesOn triggered times hold w h = hold_step-MovesOn triggered w h
    envelope_step-MovesOn triggered times release w h = release_step-MovesOn times w h

    stays_over :
        (rounds : ℕ) (triggered : Bool) (times : EnvelopeTimes D) (w : Walk D)
        → goes_on w ≡ false
        → goes_on (envelope_walk rounds triggered times w) ≡ false
    unfolding envelope_walk
    stays_over zero triggered times w h = h
    stays_over (suc rounds) triggered times w h = rw (h, envelope_walk) h

    walk_ends :
        (rounds : ℕ) (triggered : Bool) (times : EnvelopeTimes D) (w : Walk D)
        → rank w.slot.phase < rounds
        → goes_on (envelope_walk rounds triggered times w) ≡ false
    unfolding envelope_walk
    walk_ends zero triggered times w h = absurd (omega arith)
    walk_ends (suc rounds) triggered times w h = elim (Bool-cases (goes_on w)) [
      | inl on ↦
          rw (on, envelope_walk)
            (elim (envelope_step-MovesOn triggered times w.slot.phase w refl) [
              | inl lower ↦
                  walk_ends rounds triggered times (envelope_step w.slot.phase triggered times w)
                    (omega arith)
              | inr over ↦
                  stays_over rounds triggered times (envelope_step w.slot.phase triggered times w)
                    over
            ])
      | inr off ↦ rw (off, envelope_walk) off
    ]

rank_bound : (p : Phase) → rank p < 4
rank_bound idle = omega arith
rank_bound attack = omega arith
rank_bound hold = omega arith
rank_bound release = omega arith

-- For doubles in which `<` is irreflexive, a - a is not above 0, and a - a is at most 0 if a is above
-- 0 and below another number: from every slot, the four rounds of the loop of `advancePulseEnvelope`
-- are enough, that is, the loop's own condition is false behind them.
pub envelope_walk-goes_on :
    {D : Type 0} ⦃d : Double D⦄
    → ((a : D) → (a ≺ a) ≡ false)
    → ((a : D) → (nought ≺ a ⊖ a) ≡ false)
    → ((a b : D) → (a ≺ b) ≡ true → (a ≼ nought) ≡ false → (a ⊖ a ≼ nought) ≡ true)
    → (triggered : Bool) (times : EnvelopeTimes D) (w : Walk D)
    → goes_on (envelope_walk 4 triggered times w) ≡ false
envelope_walk-goes_on irreflexive no_time no_hold triggered times w =
    walk_ends irreflexive no_time no_hold 4 triggered times w (rank_bound w.slot.phase)
