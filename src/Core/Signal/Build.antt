-- ===== src/Core/Signal/Build.antt =====
-- `buildSignal` of src/core/signal.cpp.
use nova_visualiser.Prelude.{
  ℕ, zero, suc, ◌+◌, ◌/◌, ◌%◌, Bool, true, false, Option, none, some, List, [], ◌∷◌, ◌++◌, Bytes,
  codes, get_or, length, if◌then◌else◌, ltb, not, ◌&&◌,
}
use nova_visualiser.Prelude.Int.{ℤ, pos, negsuc, pos_part, max_ℤ, rem_ℤ, quot_ℤ, eq_ℤ, ltb_ℤ}
use nova_visualiser.Core.Double.{Double, ◌⊕◌, ◌⊖◌, ◌⊗◌, ◌⊘◌, ◌≼◌, nought, one, fmax}
use nova_visualiser.Core.Json.Access.{value_or}
use nova_visualiser.Core.Signal.{
  SignalQuality, idle_quality, metadata, bpm_only, timeline, TimedLyric, TrackIdentity,
  TrackAnalysis, SignalFrame, Beat, stable_seed, default_frame, pulse_of, clamp01,
  synthetic_spectrum,
}

abbrev next_index : ℤ → ℕ
next_index (pos n) = suc n
next_index (negsuc n) = n

module _ {D : Type 0} ⦃d : Double D⦄ where
  -- The binary search of `buildSignal`, between `lower` and `upper`: none is a lack of fuel.
  unfoldable pub beat_search : ℕ → List D → D → ℕ → ℕ → Option ℕ
  beat_search zero times position lower upper = none
  beat_search (suc fuel) times position lower upper = elim (ltb lower upper) [
    | true ↦
        let middle = (lower + upper) / 2 in
        elim (get_or times middle nought ≼ position) [
          | true ↦ beat_search fuel times position (suc middle) upper
          | false ↦ beat_search fuel times position lower middle
        ]
    | false ↦ some lower
  ]

  -- 60 / max(20, bpm)
  abbrev beat_length : D → D
  beat_length bpm = d.literal (codes "60") ⊘ fmax (d.literal (codes "20.0")) bpm

  -- Behind the search: the beat before `found`, if there is one.
  pub analysed_beat : List D → D → D → ℕ → Beat D
  analysed_beat times position step zero = record { index = pos 0; phase = one; pulse = nought }
  analysed_beat times position step (suc current) =
      let this = get_or times current nought in
      let next =
        if ltb (suc current) (length times)
        then get_or times (suc current) nought
        else this ⊕ step in
      let phase = clamp01 ((position ⊖ this) ⊘ fmax (d.literal (codes "0.05")) (next ⊖ this)) in
      record { index = pos current; phase = phase; pulse = pulse_of phase }

  -- Without beat times: a regular beat from the offset on.
  pub regular_beat : D → D → D → Beat D
  regular_beat position offset step =
      let beat = fmax nought (position ⊖ offset) ⊘ step in
      let phase = beat ⊖ d.floor beat in
      record { index = d.to_int (d.floor beat); phase = phase; pulse = pulse_of phase }

  beat_times_of : Option (TrackAnalysis D) → List D
  beat_times_of none = []
  beat_times_of (some a) = a.beat_times

  beat_offset_of : Option (TrackAnalysis D) → D
  beat_offset_of none = nought
  beat_offset_of (some a) = a.beat_offset

  beat_in : List D → D → D → D → Beat D
  unfolding analysed_beat regular_beat beat_search value_or
  beat_in [] position offset step = regular_beat position offset step
  beat_in (t ∷ ts) position offset step =
      analysed_beat (t ∷ ts) position step
        (value_or (beat_search (suc (length (t ∷ ts))) (t ∷ ts) position 0 (length (t ∷ ts))) 0)

  -- The beat of `buildSignal`.
  pub beat_at : Option (TrackAnalysis D) → D → D → Beat D
  unfolding beat_in beat_times_of beat_offset_of
  beat_at analysis bpm position =
      beat_in (beat_times_of analysis) position (beat_offset_of analysis) (beat_length bpm)

  -- The loop over lyrics: the last one whose time has come; `index` counts from the first one on.
  pub lyric_at : List (TimedLyric D) → D → ℕ → ℤ → ℤ
  lyric_at [] position index found = found
  lyric_at (l ∷ ls) position index found =
      lyric_at ls position (suc index) (if l.time ≼ position then pos index else found)

  pub identity_seed : Option (TrackIdentity D) → ℕ
  unfolding stable_seed
  identity_seed none = stable_seed (codes "ambient")
  identity_seed (some t) =
      stable_seed (t.artist ++ b'|' ∷ (t.title ++ b'|' ∷ d.to_string t.duration))

  duration_of : Option (TrackIdentity D) → D → D
  duration_of none other = other
  duration_of (some t) other = t.duration

  lyrics_of : Option (TrackAnalysis D) → List (TimedLyric D)
  lyrics_of none = []
  lyrics_of (some a) = a.lyrics

  bpm_of : Option (TrackAnalysis D) → D → D
  unfolding value_or
  bpm_of none other = other
  bpm_of (some a) other = value_or a.bpm other

  energy_of : Option (TrackAnalysis D) → D → D
  unfolding value_or
  energy_of none other = other
  energy_of (some a) other = value_or a.energy other

  valence_of : Option (TrackAnalysis D) → D → D
  unfolding value_or
  valence_of none other = other
  valence_of (some a) other = value_or a.valence other

  time_signature_of : Option (TrackAnalysis D) → ℤ
  time_signature_of none = pos 4
  time_signature_of (some a) = max_ℤ (pos 1) a.time_signature

  quality_without_lyrics : Option D → SignalQuality
  quality_without_lyrics none = metadata
  quality_without_lyrics (some bpm) = bpm_only

  quality_with : List (TimedLyric D) → Option D → SignalQuality
  unfolding quality_without_lyrics
  quality_with [] bpm = quality_without_lyrics bpm
  quality_with (l ∷ ls) bpm = timeline

  pub quality_of : Option (TrackIdentity D) → Option (TrackAnalysis D) → SignalQuality
  unfolding quality_with
  quality_of none analysis = idle_quality
  quality_of (some t) none = metadata
  quality_of (some t) (some a) = quality_with a.lyrics a.bpm

  -- Time and text of a lyric, for an index that may be -1.
  abbrev lyric_time : List (TimedLyric D) → ℤ → D → D
  lyric_time lyrics (negsuc n) other = other
  lyric_time lyrics (pos n) other = (get_or lyrics n (record { time = other; text = [] })).time

  abbrev lyric_text : List (TimedLyric D) → ℤ → Bytes
  lyric_text lyrics (negsuc n) = []
  lyric_text lyrics (pos n) = (get_or lyrics n (record { time = nought; text = [] })).text

  -- The early return of `buildSignal`.
  pub idle_signal : Option (TrackIdentity D) → D → D → SignalFrame D
  unfolding default_frame identity_seed duration_of
  idle_signal identity position step = record (default_frame) {
    playing = false;
    delta = step;
    time = position;
    duration = duration_of identity nought;
    bpm = d.literal (codes "72");
    energy = nought;
    valence = d.literal (codes "0.5");
    track_seed = identity_seed identity;
    lyric_index = negsuc 0;
  }

  playing_signal :
      Option (TrackIdentity D) → Option (TrackAnalysis D) → D → D → ℤ → D → SignalFrame D
  unfolding default_frame identity_seed duration_of bpm_of beat_at lyrics_of lyric_at energy_of
      valence_of quality_of synthetic_spectrum time_signature_of
  playing_signal identity analysis position step previous_lyric previous_pulse =
      let seed = identity_seed identity in
      let bpm = bpm_of analysis (d.literal (codes "72") ⊕ d.of_int (pos (seed % 61))) in
      let beat = beat_at analysis bpm position in
      let signature = time_signature_of analysis in
      let in_bar = rem_ℤ beat.index (pos_part signature) in
      let lyrics = lyrics_of analysis in
      let lyric = lyric_at lyrics position 0 (negsuc 0) in
      let now = lyric_time lyrics lyric nought in
      let later = now ⊕ d.literal (codes "4") in
      let next = next_index lyric in
      let next_time =
        if ltb next (length lyrics)
        then lyric_time lyrics (pos next) nought
        else fmax later (duration_of identity later) in
      let energy =
        energy_of analysis
          (d.literal (codes "0.25") ⊕ d.of_int (pos (seed % 50)) ⊘ d.literal (codes "100")) in
      record {
        time = position;
        delta = step;
        duration = duration_of identity nought;
        progress = elim identity [
          | none ↦ nought
          | some t ↦ clamp01 (position ⊘ fmax (d.literal (codes "0.01")) t.duration)
        ];
        playing = true;
        bpm = bpm;
        beat_phase = beat.phase;
        beat_pulse = beat.pulse;
        beat_index = beat.index;
        bar_phase = (d.of_int in_bar ⊕ beat.phase) ⊘ d.of_int signature;
        bar_index = quot_ℤ beat.index (pos_part signature);
        time_signature = signature;
        downbeat_pulse = if eq_ℤ in_bar (pos 0) then beat.pulse else nought;
        energy = energy;
        valence =
            valence_of analysis (
              d.literal (codes "0.25")
              ⊕ d.of_int (pos (seed / 256 % 50)) ⊘ d.literal (codes "100"));
        lyric_progress =
            clamp01 ((position ⊖ now) ⊘ fmax (d.literal (codes "0.01")) (next_time ⊖ now));
        lyric_pulse =
            if not (eq_ℤ lyric previous_lyric) && not (ltb_ℤ lyric (pos 0))
            then one
            else fmax nought (previous_pulse ⊖ step ⊗ d.literal (codes "3"));
        lyric_index = lyric;
        lyric_current = lyric_text lyrics lyric;
        lyric_next = lyric_text lyrics (pos next);
        spectrum = synthetic_spectrum 32 0 position beat.pulse energy seed;
        quality = quality_of identity analysis;
        track_seed = seed;
      }

  -- `buildSignal`; the new value of `previousLyricIndex` is the frame's own `lyric_index`.
  pub build_signal :
      D → Bool → Option (TrackIdentity D) → Option (TrackAnalysis D) → D → ℤ → D → SignalFrame D
  unfolding idle_signal playing_signal
  build_signal position playing identity analysis step previous_lyric previous_pulse =
      if playing
      then playing_signal identity analysis position step previous_lyric previous_pulse
      else idle_signal identity position step
