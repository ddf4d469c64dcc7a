-- ===== src/Net/Text/Found.antt =====
-- What `text.find` of a pattern finds before and after more bytes arrive, for the end of the headers
-- in src/net/sse_client.cpp.
use nova_visualiser.Prelude.{
  ℕ, ◌≤◌, ◌<◌, ◌≡◌, refl, ◌∙◌, true, false, Option, none, some, [], ◌∷◌, ◌++◌, length, Bytes, ◌==◌,
  Bool-cases, inl, inr, arith, ◌⊎◌,
}
use nova_visualiser.Net.Text.{behind, or_else, find_behind}

-- A prefix that is there stays there; one that is not is refuted, or the text is still too short.
abbrev StaysBehind : Bytes → Bytes → Option Bytes → Type 0
StaysBehind p xs none = (length xs < length p) ⊎ ((ys : Bytes) → behind p (xs ++ ys) ≡ none)
StaysBehind p xs (some rest) =
    (length p ≤ length xs) × ((ys : Bytes) → behind p (xs ++ ys) ≡ some (rest ++ ys))

behind_same : (p c : ℕ) (ps cs : Bytes) → (p == c) ≡ true → behind (p ∷ ps) (c ∷ cs) ≡ behind ps cs
unfolding behind
behind_same p c ps cs h = rw h

behind_differ : (p c : ℕ) (ps cs : Bytes) → (p == c) ≡ false → behind (p ∷ ps) (c ∷ cs) ≡ none
unfolding behind
behind_differ p c ps cs h = rw h

step-StaysBehind :
    (p c : ℕ) (ps cs : Bytes) (o : Option Bytes)
    → (p == c) ≡ true
    → StaysBehind ps cs o
    → StaysBehind (p ∷ ps) (c ∷ cs) o
step-StaysBehind p c ps cs none e (inl short) = inl (omega arith)
step-StaysBehind p c ps cs none e (inr h) = inr (λ ys. behind_same p c ps (cs ++ ys) e ∙ h ys)
step-StaysBehind p c ps cs (some rest) e h =
    (omega (arith, h.0), λ ys. behind_same p c ps (cs ++ ys) e ∙ h.1 ys)

behind-StaysBehind : (p xs : Bytes) → StaysBehind p xs (behind p xs)
unfolding behind
behind-StaysBehind [] xs = (omega arith, λ ys. refl)
behind-StaysBehind (p ∷ ps) [] = inl (omega arith)
behind-StaysBehind (p ∷ ps) (c ∷ cs) = elim (Bool-cases (p == c)) [
  | inl e ↦
      rw (behind_same p c ps cs e)
        (step-StaysBehind p c ps cs (behind ps cs) e (behind-StaysBehind ps cs))
  | inr e ↦ rw (behind_differ p c ps cs e) (inr (λ ys. behind_differ p c ps (cs ++ ys) e))
]

abbrev pub StaysFound : Bytes → Bytes → Option Bytes → Type 0
StaysFound p xs none = Unit
StaysFound p xs (some rest) =
    (length p ≤ length xs) × ((ys : Bytes) → find_behind p (xs ++ ys) ≡ some (rest ++ ys))

step-StaysFound :
    (p : Bytes) (c : ℕ) (cs : Bytes) (here later : Option Bytes)
    → StaysBehind p (c ∷ cs) here
    → StaysFound p cs later
    → StaysFound p (c ∷ cs) (or_else here later)
unfolding or_else find_behind
step-StaysFound p c cs none none h k = tt
step-StaysFound p c cs none (some rest) (inl short) k = absurd (omega (arith, k.0))
step-StaysFound p c cs none (some rest) (inr h) k = (omega (arith, k.0), λ ys. rw (h ys) (k.1 ys))
step-StaysFound p c cs (some rest) later h k = (h.0, λ ys. rw (h.1 ys) refl)

pub find_behind-StaysFound :
    (p : ℕ) (ps xs : Bytes) → StaysFound (p ∷ ps) xs (find_behind (p ∷ ps) xs)
unfolding find_behind behind
find_behind-StaysFound p ps [] = tt
find_behind-StaysFound p ps (c ∷ cs) =
    step-StaysFound (p ∷ ps) c cs (behind (p ∷ ps) (c ∷ cs)) (find_behind (p ∷ ps) cs)
      (behind-StaysBehind (p ∷ ps) (c ∷ cs)) (find_behind-StaysFound p ps cs)
