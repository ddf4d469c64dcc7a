-- ===== src/Core/Signal/Tests.antt =====
-- The beat search at a concrete input.
use nova_visualiser.Prelude.{
  ℕ, zero, suc, ◌≤◌, ◌<◌, ◌≡◌, refl, true, some, none, List, [], ◌∷◌, get_or, length, arith,
}
use nova_visualiser.Core.Double.{◌≼◌, nought}
use nova_visualiser.Core.Double.Whole.{Whole, whole_double}
use nova_visualiser.Core.Signal.Build.{beat_search}
use nova_visualiser.Core.Signal.Beats.{beats_until, beat_search-beats_until}

abbrev times : List Whole
times = some 1 ∷ some 4 ∷ some 9 ∷ []

transitive : (a b c : Whole) → (a ≼ b) ≡ true → (b ≼ c) ≡ true → (a ≼ c) ≡ true
transitive none b c h k = absurd (ground arith)
transitive (some a) none c h k = absurd (ground arith)
transitive (some a) (some b) none h k = absurd (ground arith)
transitive (some a) (some b) (some c) h k = ground arith

times-ascending : (i j : ℕ) → i ≤ j → j < 3 → (get_or times i nought ≼ get_or times j nought) ≡ true
times-ascending zero zero h l = refl
times-ascending zero (suc zero) h l = refl
times-ascending zero (suc (suc zero)) h l = refl
times-ascending (suc i) zero h l = absurd (omega arith)
times-ascending (suc zero) (suc zero) h l = refl
times-ascending (suc zero) (suc (suc zero)) h l = refl
times-ascending (suc (suc zero)) (suc (suc zero)) h l = refl
times-ascending (suc (suc i)) (suc zero) h l = absurd (omega arith)
times-ascending (suc (suc (suc i))) (suc (suc zero)) h l = absurd (omega arith)
times-ascending i (suc (suc (suc j))) h l = absurd (omega arith)

beat_search-beats_until_example :
    beat_search (suc (length times)) times (some 5) 0 (length times)
    ≡ some (beats_until times (some 5))
beat_search-beats_until_example = beat_search-beats_until times (some 5) transitive times-ascending
