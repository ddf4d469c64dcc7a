-- ===== src/Net/Text/Cuts.antt =====
-- What `text.find` of one byte finds, for src/net/sse_client.cpp and src/net/http_client.cpp.
use nova_visualiser.Prelude.{
  Bool, not, ◌&&◌, arith, ℕ, ◌≡◌, refl, ap, ◌∙◌, true, false, Option, none, some, [], ◌∷◌, ◌++◌,
  All, Bytes, ◌==◌, Bool-cases, inl, inr, ==_iff,
}
use nova_visualiser.Net.Text.{cut, or_pushed}

-- The byte is not in the text.
abbrev pub Lacks : ℕ → Bytes → Type 0
Lacks separator text = All (λ c. (c == separator) ≡ false) text

-- The result splits the text at the first separator, if it has one.
abbrev pub Splits : ℕ → Bytes → Option (Bytes × Bytes) → Type 0
Splits separator text none = Lacks separator text
Splits separator text (some (front, rest)) =
    (text ≡ front ++ separator ∷ rest) × Lacks separator front

pushed-Splits :
    (s c : ℕ) (cs : Bytes) (o : Option (Bytes × Bytes))
    → (c == s) ≡ false
    → Splits s cs o
    → Splits s (c ∷ cs) (or_pushed c o)
unfolding or_pushed
pushed-Splits s c cs none e h = (e, h)
pushed-Splits s c cs (some (front, rest)) e h = (ap (◌∷◌ c) h.0, (e, h.1))

cut_here : (s c : ℕ) (cs : Bytes) → (c == s) ≡ true → cut s (c ∷ cs) ≡ some ([], cs)
unfolding cut
cut_here s c cs h = rw h

cut_later : (s c : ℕ) (cs : Bytes) → (c == s) ≡ false → cut s (c ∷ cs) ≡ or_pushed c (cut s cs)
unfolding cut
cut_later s c cs h = rw h

pub cut-Splits : (s : ℕ) (t : Bytes) → Splits s t (cut s t)
unfolding cut
cut-Splits s [] = tt
cut-Splits s (c ∷ cs) = elim (Bool-cases (c == s)) [
  | inl e ↦ rw (cut_here s c cs e) (ap (λ d. d ∷ cs) ((==_iff c s).0 e), tt)
  | inr e ↦ rw (cut_later s c cs e) (pushed-Splits s c cs (cut s cs) e (cut-Splits s cs))
]

pub cut-append : (s : ℕ) (l r : Bytes) → Lacks s l → cut s (l ++ s ∷ r) ≡ some (l, r)
cut-append s [] r h = cut_here s s r ((==_iff s s).1 refl)
cut-append s (c ∷ cs) r h =
    cut_later s c (cs ++ s ∷ r) h.0
    ∙ ap (or_pushed c) (cut-append s cs r h.1)
    ∙ unfold or_pushed in refl

pub cut-none : (s : ℕ) (t : Bytes) → Lacks s t → cut s t ≡ none
unfolding cut
cut-none s [] h = refl
cut-none s (c ∷ cs) h =
    cut_later s c cs h.0 ∙ ap (or_pushed c) (cut-none s cs h.1) ∙ unfold or_pushed in refl

-- `Lacks` as a test.
abbrev pub lacks : ℕ → Bytes → Bool
lacks s [] = true
lacks s (c ∷ cs) = not (c == s) && lacks s cs

both_true : (p q : Bool) → (not p && q) ≡ true → (p ≡ false) × (q ≡ true)
both_true true q h = absurd (ground arith)
both_true false q h = (refl, h)

pub lacks-Lacks : (s : ℕ) (t : Bytes) → lacks s t ≡ true → Lacks s t
lacks-Lacks s [] h = tt
lacks-Lacks s (c ∷ cs) h =
    let parts = both_true (c == s) (lacks s cs) h in (parts.0, lacks-Lacks s cs parts.1)
