-- ===== src/Net/Continuity.antt =====
-- What a video decoder needs of the access units that reach it: each is a keyframe, or directly
-- follows the unit before it. The queues of both transports are held to this.
use nova_visualiser.Prelude.{ℕ, suc, ◌≡◌, refl, Bool, true, Option, some, List, [], ◌∷◌, ◌++◌, ◌⊎◌}

-- A broadcast frame, by its ordinal among the frames broadcast.
pub record Frame : Type 0 where
  pub index : ℕ
  pub keyframe : Bool

-- `expected` is the ordinal that a frame with references must have; none before the first frame.
abbrev pub Continues : Option ℕ → Frame → Type 0
Continues expected f = (f.keyframe ≡ true) ⊎ (expected ≡ some f.index)

abbrev pub Decodable : Option ℕ → List Frame → Type 0
Decodable expected [] = Unit {0}
Decodable expected (f ∷ fs) = Continues expected f × Decodable (some (suc f.index)) fs

-- The ordinal that is expected behind a run of frames.
abbrev pub expected_after : Option ℕ → List Frame → Option ℕ
expected_after expected [] = expected
expected_after expected (f ∷ fs) = expected_after (some (suc f.index)) fs

pub expected_after-append :
    (expected : Option ℕ) (xs ys : List Frame)
    → expected_after expected (xs ++ ys) ≡ expected_after (expected_after expected xs) ys
expected_after-append expected [] ys = refl
expected_after-append expected (x ∷ xs) ys = expected_after-append (some (suc x.index)) xs ys

pub Decodable-append :
    (expected : Option ℕ) (xs ys : List Frame)
    → Decodable expected xs
    → Decodable (expected_after expected xs) ys
    → Decodable expected (xs ++ ys)
Decodable-append expected [] ys h k = k
Decodable-append expected (x ∷ xs) ys h k = (h.0, Decodable-append (some (suc x.index)) xs ys h.1 k)

-- Dropping a suffix keeps a run decodable.
pub Decodable-prefix :
    (expected : Option ℕ) (xs ys : List Frame)
    → Decodable expected (xs ++ ys)
    → Decodable expected xs
Decodable-prefix expected [] ys h = tt
Decodable-prefix expected (x ∷ xs) ys h = (h.0, Decodable-prefix (some (suc x.index)) xs ys h.1)
