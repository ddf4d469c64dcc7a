-- ===== src/Core/Signal.antt =====
-- src/core/signal.{h,cpp}: the audio signal of a tick, from a track, its analysis and a position.
pub mod Build
pub mod Beats
mod Tests
use nova_visualiser.Prelude.{
  ℕ, zero, suc, ◌+◌, ◌*◌, ◌/◌, ◌%◌, ◌^◌, Bool, true, false, Option, none, some, List, [], ◌∷◌, ◌++◌,
  Bytes, codes, bit_xor, get_or, length, if◌then◌else◌, ltb, ◌==◌, not, ◌&&◌,
}
use nova_visualiser.Prelude.Int.{ℤ, pos, negsuc, pos_part, max_ℤ, rem_ℤ, quot_ℤ, eq_ℤ, ltb_ℤ, ◌-ℤ◌}
use nova_visualiser.Core.Double.{Double, ◌⊕◌, ◌⊖◌, ◌⊗◌, ◌⊘◌, ◌≺◌, ◌≼◌, nought, one, fmax, fmin}
use nova_visualiser.Core.Json.Access.{value_or}

pub data SignalQuality : Type 0 where
  idle_quality metadata bpm_only timeline live : SignalQuality

pub record TimedLyric (D : Type 0) : Type 0 where
  pub time : D
  pub text : Bytes

pub record TrackIdentity (D : Type 0) : Type 0 where
  pub apple_music_id : Bytes
  pub isrc : Bytes
  pub title : Bytes
  pub artist : Bytes
  pub album : Bytes
  pub duration : D
  pub artwork_url : Bytes
  pub genre_names : List Bytes

pub record TrackAnalysis (D : Type 0) : Type 0 where
  pub track_key : Bytes
  pub matched : Bool
  pub bpm : Option D
  pub beat_offset : D
  pub beat_times : List D
  pub time_signature : ℤ
  pub energy : Option D
  pub valence : Option D
  pub lyrics : List (TimedLyric D)

pub record SignalFrame (D : Type 0) : Type 0 where
  pub time : D
  pub delta : D
  pub duration : D
  pub progress : D
  pub playing : Bool
  pub bpm : D
  pub beat_phase : D
  pub beat_pulse : D
  pub beat_index : ℤ
  pub bar_phase : D
  pub bar_index : ℤ
  pub time_signature : ℤ
  pub downbeat_pulse : D
  pub energy : D
  pub valence : D
  pub lyric_progress : D
  pub lyric_pulse : D
  pub lyric_index : ℤ
  pub lyric_current : Bytes
  pub lyric_next : Bytes
  pub spectrum : List D
  pub quality : SignalQuality
  pub track_seed : ℕ

-- The beat of a position.
pub record Beat (D : Type 0) : Type 0 where
  pub index : ℤ
  pub phase : D
  pub pulse : D

-- `stableSeed`, and `moduleSeed` of src/core/module.cpp: FNV-1a on 64 bits.
pub seed_from : ℕ → Bytes → ℕ
seed_from hash [] = hash
seed_from hash (c ∷ cs) = seed_from (bit_xor hash c * 1099511628211 % 2 ^ 64) cs

unfoldable pub stable_seed : Bytes → ℕ
unfolding seed_from
stable_seed value = seed_from 1469598103934665603 value

first_present : Bytes → Bytes → Bytes
first_present [] other = other
first_present (c ∷ cs) other = c ∷ cs

module _ {D : Type 0} ⦃d : Double D⦄ where
  -- `TrackIdentity::key` and `TrackIdentity::empty`
  unfoldable pub identity_key : TrackIdentity D → Bytes
  unfolding first_present
  identity_key t =
      first_present t.apple_music_id (first_present t.isrc (t.artist ++ b'|' ∷ t.title))

  unfoldable pub identity_is_empty : TrackIdentity D → Bool
  identity_is_empty t = (length t.title == 0) && (length t.artist == 0)

  abbrev silence : ℕ → List D
  silence zero = []
  silence (suc n) = nought ∷ silence n

  -- `SignalFrame`'s default member initialisers
  unfoldable pub default_frame : SignalFrame D
  default_frame = record {
    time = nought;
    delta = d.literal (codes "1.0") ⊘ d.literal (codes "60.0");
    duration = nought;
    progress = nought;
    playing = false;
    bpm = d.literal (codes "72");
    beat_phase = nought;
    beat_pulse = nought;
    beat_index = pos 0;
    bar_phase = nought;
    bar_index = pos 0;
    time_signature = pos 4;
    downbeat_pulse = nought;
    energy = d.literal (codes "0.28");
    valence = d.literal (codes "0.5");
    lyric_progress = nought;
    lyric_pulse = nought;
    lyric_index = negsuc 0;
    lyric_current = [];
    lyric_next = [];
    spectrum = silence 32;
    quality = idle_quality;
    track_seed = 0x4e4f5641;
  }

  -- `std::pow(std::max(0.0, 1 - phase), 5)`
  abbrev pub pulse_of : D → D
  pulse_of phase = d.pow (fmax nought (one ⊖ phase)) (d.literal (codes "5"))

  abbrev pub clamp01 : D → D
  clamp01 x = fmin one (fmax nought x)

  -- `SignalFrame::advance`, whose bars have four beats whatever the time signature is.
  unfoldable pub advance : D → SignalFrame D → SignalFrame D
  advance step f =
      let moved = f.time ⊕ step in
      let beat = moved ⊘ (d.literal (codes "60") ⊘ fmax (d.literal (codes "20.0")) f.bpm) in
      let index = d.to_int (d.floor beat) in
      let phase = beat ⊖ d.floor beat in
      let in_bar = rem_ℤ index 4 in
      if f.playing
      then record f {
        time = moved;
        delta = step;
        progress = if nought ≺ f.duration then fmin one (moved ⊘ f.duration) else nought;
        beat_index = index;
        beat_phase = phase;
        beat_pulse = pulse_of phase;
        bar_index = quot_ℤ index 4;
        bar_phase = (d.of_int in_bar ⊕ phase) ⊘ d.of_int (pos 4);
        downbeat_pulse = if eq_ℤ in_bar (pos 0) then pulse_of phase else nought;
      }
      else record f { delta = step }

  -- One band of `syntheticSpectrum`. The shift is a division.
  abbrev spectrum_band : D → D → D → ℕ → ℕ → D
  spectrum_band position beat_pulse energy seed index =
      let band = d.of_int (pos index) ⊘ d.of_int (pos 31) in
      let wave =
        d.literal (codes "0.5")
        ⊕ d.literal (codes "0.5")
          ⊗ d.sin (
              position ⊗ (d.literal (codes "1.7") ⊕ band ⊗ d.literal (codes "4.2"))
              ⊕ d.of_int (pos (seed / 2 ^ (index % 16) % 256)) ⊗ d.literal (codes "0.017")) in
      let bass = d.exp (d.neg band ⊗ d.literal (codes "4")) ⊗ beat_pulse in
      d.to_float (
        clamp01 (
          (wave ⊗ d.literal (codes "0.35") ⊕ bass ⊗ d.literal (codes "0.8"))
          ⊗ (d.literal (codes "0.4") ⊕ energy)))

  -- The loop of `syntheticSpectrum`, over `count` bands from `index` on.
  unfoldable pub synthetic_spectrum : ℕ → ℕ → D → D → D → ℕ → List D
  synthetic_spectrum zero index position beat_pulse energy seed = []
  synthetic_spectrum (suc count) index position beat_pulse energy seed =
      spectrum_band position beat_pulse energy seed index
      ∷ synthetic_spectrum count (suc index) position beat_pulse energy seed
