-- ===== src/Prelude/Maps.antt =====
-- `std::unordered_map` and `std::map` from strings, as association lists in which a key occurs once.
use nova_visualiser.Prelude.Tests.{Bool-cases, if◌then◌else◌, ◌==◌, ==_iff}
use nova_visualiser.Prelude.Lists.{Bytes, bytes_eq}
use mathlib.Core.Path.{◌≡◌, refl, ap, ◌∙◌}
use mathlib.Core.Logic.{inl, inr}
use mathlib.Core.Bool.{Bool, true, false, ◌&&◌}
use mathlib.Core.Option.{Option, none, some}
use mathlib.Core.List.{List, [], ◌∷◌}
use native.Mathlib.Omega.{arith}

abbrev pub Map {ℓ} : Type ℓ → Type ℓ
Map A = List (Bytes × A)

pub bytes_eq_refl : (s : Bytes) → bytes_eq s s ≡ true
unfolding bytes_eq
bytes_eq_refl [] = refl
bytes_eq_refl (c ∷ cs) = rw ((==_iff c c).1 refl) (bytes_eq_refl cs)

both : (p q : Bool) → (p && q) ≡ true → (p ≡ true) × (q ≡ true)
both p q h = ground arith

pub bytes_eq→≡ : (s t : Bytes) → bytes_eq s t ≡ true → s ≡ t
unfolding bytes_eq
bytes_eq→≡ [] [] h = refl
bytes_eq→≡ [] (d ∷ ds) h = absurd (ground arith)
bytes_eq→≡ (c ∷ cs) [] h = absurd (ground arith)
bytes_eq→≡ (c ∷ cs) (d ∷ ds) h =
    let (e, f) = both (c == d) (bytes_eq cs ds) h in
    ap (λ x. x ∷ cs) ((==_iff c d).0 e) ∙ ap (◌∷◌ d) (bytes_eq→≡ cs ds f)

module _ {ℓ} {A : Type ℓ} where
  -- `map.find(key)`
  unfoldable pub lookup : Bytes → Map A → Option A
  lookup k [] = none
  lookup k ((j, a) ∷ rest) = if bytes_eq k j then some a else lookup k rest

  -- `map.count(key) != 0`
  unfoldable pub has_key : Bytes → Map A → Bool
  has_key k [] = false
  has_key k ((j, a) ∷ rest) = if bytes_eq k j then true else has_key k rest

  -- `map[key] = a`
  unfoldable pub assign : Bytes → A → Map A → Map A
  assign k a [] = (k, a) ∷ []
  assign k a ((j, b) ∷ rest) = if bytes_eq k j then (j, a) ∷ rest else (j, b) ∷ assign k a rest

  -- `map.emplace(key, a)`: a key that is there keeps its value.
  unfoldable pub insert_new : Bytes → A → Map A → Map A
  unfolding has_key assign
  insert_new k a m = if has_key k m then m else assign k a m

  pub lookup-assign_same : (k : Bytes) (a : A) (m : Map A) → lookup k (assign k a m) ≡ some a
  unfolding lookup assign
  lookup-assign_same k a [] = rw (bytes_eq_refl k) refl
  lookup-assign_same k a ((j, b) ∷ rest) = elim (Bool-cases (bytes_eq k j)) [
    | inl e ↦ rw (e, assign) (rw (e, lookup) refl)
    | inr e ↦ rw (e, assign) (rw (e, lookup) (lookup-assign_same k a rest))
  ]

  -- The entry of another key, at the place of `k`.
  pub lookup-assign_other :
      (i k : Bytes) (a : A) (m : Map A)
      → bytes_eq i k ≡ false
      → lookup i (assign k a m) ≡ lookup i m
  unfolding lookup assign
  lookup-assign_other i k a [] h = rw (h, lookup) refl
  lookup-assign_other i k a ((j, b) ∷ rest) h = elim (Bool-cases (bytes_eq k j)) [
    | inl e ↦
        let h' : bytes_eq i j ≡ false = rw (← bytes_eq→≡ k j e) h in
        rw (e, assign) (rw (h', lookup) refl)
    | inr e ↦
        rw (e, assign)
          (elim (Bool-cases (bytes_eq i j)) [
            | inl f ↦ rw (f, lookup) refl
            | inr f ↦ rw (f, lookup) (lookup-assign_other i k a rest h)
          ])
  ]
