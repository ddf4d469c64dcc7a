-- ===== src/Core/Signal/Beats.antt =====
-- The binary search of `buildSignal` (src/core/signal.cpp), against a linear one.
use nova_visualiser.Prelude.{
  ℕ, zero, suc, ◌+◌, ◌-◌, ◌/◌, ◌≤◌, ◌<◌, ◌≡◌, refl, ap, ◌∙◌, Bool, true, false, some, List, [], ◌∷◌,
  get_or, length, arith, ltb, ltb→lt, Bool-cases, inl, inr,
}
use nova_visualiser.Core.Double.{Double, ◌≼◌, nought}
use nova_visualiser.Core.Signal.Build.{beat_search}

-- The number of beats in front that are not after the position.
pub beats_until : {D : Type 0} ⦃d : Double D⦄ → List D → D → ℕ
beats_until [] position = 0
beats_until (t ∷ ts) position = elim (t ≼ position) [
  | true ↦ suc (beats_until ts position)
  | false ↦ 0
]

at_end : (lower upper i : ℕ) → ltb lower upper ≡ false → lower ≤ i → upper ≤ i
at_end lower upper i h p = ground arith

abbrev is_past : {D : Type 0} ⦃d : Double D⦄ → List D → D → ℕ → Bool
is_past times position i = get_or times i nought ≼ position

-- An answer `r`: everything below it is past, and nothing from it on.
abbrev Splits : {D : Type 0} ⦃d : Double D⦄ → List D → D → ℕ → Type 0
Splits times position r =
    ((i : ℕ) → i < r → is_past times position i ≡ true)
    × ((i : ℕ) → r ≤ i → i < length times → is_past times position i ≡ false)

beats_until-Splits :
    {D : Type 0} ⦃d : Double D⦄ (times : List D) (position : D) (r : ℕ)
    → r ≤ length times
    → Splits times position r
    → r ≡ beats_until times position
unfolding beats_until
beats_until-Splits [] position zero h s = refl
beats_until-Splits [] position (suc r) h s = absurd (omega arith)
beats_until-Splits (t ∷ ts) position zero h s =
    rw (s.1 0 (omega arith) (omega arith), beats_until) refl
beats_until-Splits (t ∷ ts) position (suc r) h s =
    rw (s.0 0 (omega arith), beats_until)
      (ap suc (
        beats_until-Splits ts position r (omega arith)
          (λ i lt. s.0 (suc i) (omega arith), λ i le lt. s.1 (suc i) (omega arith) (omega arith))))

module _ {D : Type 0} ⦃d : Double D⦄ (times : List D) (position : D) where
  module _
      (past_before : (i j : ℕ)
        → i ≤ j
        → j < length times
        → is_past times position j ≡ true
        → is_past times position i ≡ true) where
    future_after :
        (i j : ℕ)
        → i ≤ j
        → j < length times
        → is_past times position i ≡ false
        → is_past times position j ≡ false
    future_after i j le lt h = elim (Bool-cases (is_past times position j)) [
      | inl e ↦ absurd (differ (is_past times position i) h (past_before i j le lt e))
      | inr e ↦ e
    ]
      where
        differ : (b : Bool) → b ≡ false → b ≡ true → ⊥
        differ b e f = ground arith

    beat_search-Splits :
        (fuel lower upper : ℕ)
        → upper - lower < fuel
        → lower ≤ upper
        → upper ≤ length times
        → ((i : ℕ) → i < lower → is_past times position i ≡ true)
        → ((i : ℕ) → upper ≤ i → i < length times → is_past times position i ≡ false)
        → (r : ℕ) × ((beat_search fuel times position lower upper ≡ some r)
            × ((r ≤ length times) × Splits times position r))
    unfolding beat_search
    beat_search-Splits zero lower upper enough le bound below above = absurd (omega arith)
    beat_search-Splits (suc fuel) lower upper enough le bound below above =
        elim (Bool-cases (ltb lower upper)) [
          | inl more ↦ elim (Bool-cases (is_past times position ((lower + upper) / 2))) [
            | inl past ↦
                let lt : lower < upper = ltb→lt lower upper more in
                rw (more, beat_search)
                  (rw (past, beat_search)
                    (beat_search-Splits fuel (suc ((lower + upper) / 2)) upper (omega arith)
                      (omega arith) bound
                      (λ i p. past_before i ((lower + upper) / 2) (omega arith) (omega arith) past)
                      above))
            | inr future ↦
                let lt : lower < upper = ltb→lt lower upper more in
                rw (more, beat_search)
                  (rw (future, beat_search)
                    (beat_search-Splits fuel lower ((lower + upper) / 2) (omega arith) (omega arith)
                      (omega arith) below
                      (λ i p q. future_after ((lower + upper) / 2) i p q future)))
          ]
          | inr done ↦ rw (done, beat_search) (lower, (refl, (omega arith, (below, ended done))))
        ]
      where
        ended :
            ltb lower upper ≡ false
            → (i : ℕ) → lower ≤ i
            → i < length times
            → is_past times position i ≡ false
        ended done i p q = above i (at_end lower upper i done p) q

    found :
        (r : ℕ)
        → r ≤ length times
        → Splits times position r
        → beat_search (suc (length times)) times position 0 (length times) ≡ some r
        → beat_search (suc (length times)) times position 0 (length times)
          ≡ some (beats_until times position)
    found r le s e = e ∙ ap some (beats_until-Splits times position r le s)

    beat_search_lem :
        beat_search (suc (length times)) times position 0 (length times)
        ≡ some (beats_until times position)
    beat_search_lem =
        let (r, (e, (le, s))) =
          beat_search-Splits (suc (length times)) 0 (length times) (omega arith) (omega arith)
            (omega arith) (λ i lt. absurd (omega arith)) (λ i le lt. absurd (omega arith)) in
        found r le s e

-- For beat times in ascending order, and doubles whose order is transitive: the binary search ends,
-- and its answer is the number of beats up to the position, counted one by one.
pub beat_search-beats_until :
    {D : Type 0} ⦃d : Double D⦄ (times : List D) (position : D)
    → ((a b c : D) → (a ≼ b) ≡ true → (b ≼ c) ≡ true → (a ≼ c) ≡ true)
    → ((i j : ℕ)
        → i ≤ j
        → j < length times
        → (get_or times i nought ≼ get_or times j nought) ≡ true)
    → beat_search (suc (length times)) times position 0 (length times)
      ≡ some (beats_until times position)
beat_search-beats_until times position trans ascending =
    beat_search_lem times position (λ i j le lt past.
      trans (get_or times i nought) (get_or times j nought) position (ascending i j le lt) past)
