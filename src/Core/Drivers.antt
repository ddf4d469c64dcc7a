-- ===== src/Core/Drivers.antt =====
-- src/core/parameter_drivers.{h,cpp}: the drivers of the lanes, their events and their envelopes.
pub mod Fires
pub mod Pulse
pub mod Lanes
mod Tests
use nova_visualiser.Prelude.{
  ℕ, zero, suc, Bool, true, false, Option, none, some, List, [], ◌∷◌, ◌++◌, Bytes, codes, bytes_eq,
  take, drop, length, min, if◌then◌else◌, not, ◌&&◌, ◌||◌,
}
use nova_visualiser.Prelude.Int.{
  ℤ, pos, negsuc, pos_part, max_ℤ, min_ℤ, rem_ℤ, eq_ℤ, ltb_ℤ, ◌-ℤ◌, ◌+ℤ◌,
}
use nova_visualiser.Prelude.Maps.{Map}
use nova_visualiser.Core.Double.{Double, ◌⊕◌, ◌⊖◌, ◌⊗◌, ◌⊘◌, ◌≺◌, ◌≼◌, nought, one, fmax, fmin}
use nova_visualiser.Core.Signal.{SignalFrame}

pub record EffectDeclaration (D : Type 0) : Type 0 where
  pub id : Bytes
  pub min : D
  pub max : D
  pub step : D
  pub default_value : D

pub record Driver (D : Type 0) : Type 0 where
  pub type : Bytes
  pub every : ℤ
  pub offset : ℤ
  pub divide : ℤ
  pub interval_seconds : D
  pub cadence : Bytes

-- A `has...` flag and its value are an option here.
pub record EffectBinding (D : Type 0) : Type 0 where
  pub id : Bytes
  pub effect : Bytes
  pub min : Option D
  pub max : Option D
  pub attack_seconds : Option D
  pub hold_seconds : Option D
  pub release_seconds : Option D
  pub random_value : Bool
  pub params : Map D

pub record DriverLane (D : Type 0) : Type 0 where
  pub id : Bytes
  pub driver : Driver D
  pub modifiers : List (Driver D)
  pub bindings : List (EffectBinding D)

pub record ScopedLane (D : Type 0) : Type 0 where
  pub group_id : Bytes
  pub lane : DriverLane D

pub data CombineMode : Type 0 where
  add strongest common override : CombineMode

pub record SettingsGroup (D : Type 0) : Type 0 where
  pub id : Bytes
  pub name : Bytes
  pub module_id : Bytes
  pub lanes : List (DriverLane D)
  pub combine : Map CombineMode
  pub static_settings : Map D
  pub is_default : Bool

pub record MergedSettingsGroups (D : Type 0) : Type 0 where
  pub lanes : List (ScopedLane D)
  pub combine : Map CombineMode
  pub static_settings : Map D

pub data Phase : Type 0 where
  idle attack hold release : Phase

pub record DriverSlotState (D : Type 0) : Type 0 where
  pub level : D
  pub phase : Phase
  pub hold_remaining : D
  pub event_key : Bytes
  pub current : D
  pub target : D
  pub event_count : ℤ
  pub last_track_seed : ℕ
  pub seen_track : Bool
  pub window_key : Bytes
  pub fired : Bool
  pub seeded : Bool

pub record EnvelopeTimes (D : Type 0) : Type 0 where
  pub attack_seconds : D
  pub hold_seconds : D
  pub release_seconds : D

abbrev is_one_of : Bytes → List Bytes → Bool
is_one_of s [] = false
is_one_of s (t ∷ ts) = bytes_eq s t || is_one_of s ts

-- `driverFiresOn`: `%` is C's, whose remainder has the sign of the dividend.
unfoldable pub driver_fires_on : ℤ → ℤ → ℤ → Bool
unfolding rem_ℤ ◌-ℤ◌ ◌+ℤ◌
driver_fires_on index every offset =
    let cycle = max_ℤ (pos 1) every in
    let phase = max_ℤ (pos 0) (min_ℤ (cycle -ℤ pos 1) offset) in
    let remainder = rem_ℤ (index -ℤ phase) (pos_part cycle) in
    if eq_ℤ cycle (pos 1) then true else eq_ℤ (rem_ℤ (remainder +ℤ cycle) (pos_part cycle)) (pos 0)

-- `isOverrideOnlyEffect`
unfoldable pub is_override_only_effect : Bytes → Bool
unfolding bytes_eq
is_override_only_effect effect = is_one_of effect (
    codes "__centreTransition"
    ∷ codes "__centreTransitionAxis"
    ∷ codes "__centreTransitionDivisions"
    ∷ codes "__centreTransitionReturn"
    ∷ [])

module _ {D : Type 0} where
  -- `driverDivide`
  unfoldable pub driver_divide : Driver D → ℤ
  driver_divide driver =
      if eq_ℤ driver.divide (pos 2) || eq_ℤ driver.divide (pos 4) || eq_ℤ driver.divide (pos 8)
      then driver.divide
      else pos 1

  -- `isPulseDriver`
  unfoldable pub is_pulse_driver : Driver D → Bool
  unfolding bytes_eq
  is_pulse_driver driver =
      is_one_of driver.type (codes "beat" ∷ codes "downbeat" ∷ codes "timer" ∷ codes "song" ∷ [])

  -- `randomCadenceDriver`
  unfoldable pub random_cadence_driver : Driver D → Driver D
  unfolding bytes_eq
  random_cadence_driver driver = record driver {
    type =
        if is_one_of driver.cadence
          (codes "beat" ∷ codes "downbeat" ∷ codes "timer" ∷ codes "song" ∷ [])
        then driver.cadence
        else codes "beat";
  }

module _ {D : Type 0} ⦃d : Double D⦄ where
  abbrev pub finite : D → D → D
  finite value fallback = if d.is_finite value then value else fallback

  -- `clamp01` of this file, whose order of comparisons differs from the one of the signal.
  abbrev pub clamp01 : D → D
  clamp01 value = fmax nought (fmin one value)

  -- The default member initialisers of `Driver` and `DriverSlotState`
  abbrev pub default_driver : Driver D
  default_driver = record {
    type = [];
    every = pos 1;
    offset = pos 0;
    divide = pos 1;
    interval_seconds = d.literal (codes "4");
    cadence = codes "beat";
  }

  abbrev pub new_slot : DriverSlotState D
  new_slot = record {
    level = nought;
    phase = idle;
    hold_remaining = nought;
    event_key = [];
    current = nought;
    target = nought;
    event_count = pos 0;
    last_track_seed = 0;
    seen_track = false;
    window_key = [];
    fired = false;
    seeded = false;
  }

  present_finite : Option D → D → D
  present_finite none fallback = fallback
  present_finite (some value) fallback = finite value fallback

  -- `envelopeTimes`
  unfoldable pub envelope_times : EffectBinding D → EnvelopeTimes D
  unfolding present_finite
  envelope_times binding = record {
    attack_seconds = fmax nought (present_finite binding.attack_seconds (d.literal (codes "0.05")));
    hold_seconds = fmax nought (present_finite binding.hold_seconds nought);
    release_seconds =
        fmax nought (present_finite binding.release_seconds (d.literal (codes "0.6")));
  }

  -- `clampToDeclaration`
  unfoldable pub clamp_to_declaration : EffectDeclaration D → D → D
  clamp_to_declaration declaration value =
      let low = fmin declaration.min declaration.max in
      let high = fmax declaration.min declaration.max in
      let bounded = fmax low (fmin high (finite value declaration.default_value)) in
      let stepped = low ⊕ d.round ((bounded ⊖ low) ⊘ declaration.step) ⊗ declaration.step in
      if nought ≺ declaration.step then fmax low (fmin high stepped) else bounded

  -- The bands of the spectrum that a continuous driver reads,
  level_bands : Bytes → List D → List D
  unfolding bytes_eq
  level_bands type spectrum =
      if bytes_eq type (codes "bass")
      then take 8 spectrum
      else if bytes_eq type (codes "mid")
      then drop (min 8 (length spectrum)) (take 20 spectrum)
      else if bytes_eq type (codes "treble")
      then drop (min 20 (length spectrum)) spectrum
      else spectrum

  -- and the loop over them.
  pub peak_of : D → List D → D
  peak_of peak [] = peak
  peak_of peak (x ∷ xs) = peak_of (fmax peak x) xs

  -- `levelSignal`
  unfoldable pub level_signal : Driver D → SignalFrame D → D
  unfolding level_bands peak_of bytes_eq
  level_signal driver frame =
      if bytes_eq driver.type (codes "energy")
      then clamp01 (finite frame.energy nought)
      else clamp01 (peak_of nought (level_bands driver.type frame.spectrum))

  -- `subdividedIndex`
  unfoldable pub subdivided_index : ℤ → D → ℤ → ℤ
  subdivided_index index phase divide =
      let position = d.of_int index ⊕ fmax nought (fmin one (finite phase nought)) in
      if ltb_ℤ (pos 1) divide then d.to_int (d.floor (position ⊗ d.of_int divide)) else index

  timed_period : Driver D → SignalFrame D → D
  unfolding bytes_eq driver_divide
  timed_period driver frame =
      let every = d.of_int (max_ℤ (pos 1) driver.every) in
      let seconds_per_beat =
        fmax (d.literal (codes "1e-6"))
          (d.literal (codes "60.0") ⊘ fmax one (finite frame.bpm (d.literal (codes "72")))) in
      let beats_per_bar = d.of_int (max_ℤ (pos 1) frame.time_signature) in
      let divide = d.of_int (driver_divide driver) in
      if bytes_eq driver.type (codes "song")
      then d.infinity
      else if bytes_eq driver.type (codes "timer")
      then every
        ⊗ fmax (d.literal (codes "0.25")) (finite driver.interval_seconds (d.literal (codes "4")))
      else if bytes_eq driver.type (codes "downbeat")
      then every ⊗ beats_per_bar ⊗ seconds_per_beat ⊘ divide
      else if bytes_eq driver.type (codes "beat")
      then every ⊗ seconds_per_beat ⊘ divide
      else nought

  -- `driverPeriodSeconds`; the cadence of a random driver is not random itself.
  unfoldable pub driver_period_seconds : Driver D → SignalFrame D → D
  unfolding bytes_eq timed_period random_cadence_driver
  driver_period_seconds driver frame =
      if bytes_eq driver.type (codes "random")
      then timed_period (random_cadence_driver driver) frame
      else timed_period driver frame
