-- ===== src/Net/Config/Settings/Keys.antt =====
-- Which settings `ConfigClient::refreshConfiguration` holds (src/net/config_client.cpp).
use nova_visualiser.Prelude.{
  ◌≡◌, refl, ◌∙◌, Bool, true, false, Option, none, some, List, [], ◌∷◌, Bytes, bytes_eq, Bool-cases,
  inl, inr, arith, if◌then◌else◌,
}
use nova_visualiser.Prelude.Maps.{Map, lookup, has_key, assign}
use nova_visualiser.Core.Double.{Double}
use nova_visualiser.Core.Json.{Value}
use nova_visualiser.Core.Json.Access.{number_of}
use nova_visualiser.Core.Module.{ModuleSetting}
use nova_visualiser.Net.Config.Settings.{
  override_settings, assign_number, clamp_found, clamp_settings, default_settings, settings_of,
}

module _ {A : Type 0} where
  -- A key that is there is there whatever is assigned to it.
  has_key-assign :
      (k j : Bytes) (a : A) (m : Map A)
      → has_key j m ≡ true
      → has_key k (assign j a m) ≡ has_key k m
  unfolding has_key assign
  has_key-assign k j a [] h = absurd (ground arith)
  has_key-assign k j a ((i, b) ∷ rest) h = elim (Bool-cases (bytes_eq j i)) [
    | inl e ↦ rw (e, assign) refl
    | inr e ↦
        rw (e, assign)
          (elim (Bool-cases (bytes_eq k i)) [
            | inl f ↦ rw f refl
            | inr f ↦ rw f (has_key-assign k j a rest (drop_first (bytes_eq j i) e h))
          ])
  ]
    where
      drop_first : (b : Bool) {c : Bool} → b ≡ false → (if b then true else c) ≡ true → c ≡ true
      drop_first true e h = absurd (ground arith)
      drop_first false e h = h

  has_key-lookup : (k : Bytes) (m : Map A) (a : A) → lookup k m ≡ some a → has_key k m ≡ true
  unfolding has_key lookup
  has_key-lookup k [] a h = absurd (ground arith)
  has_key-lookup k ((j, b) ∷ rest) a h = elim (Bool-cases (bytes_eq k j)) [
    | inl e ↦ rw e refl
    | inr e ↦ rw e (has_key-lookup k rest a (second (bytes_eq k j) (some b) (lookup k rest) e h))
  ]
    where
      second : (c : Bool) (x y : Option A) → c ≡ false → (if c then x else y) ≡ some a → y ≡ some a
      second true x y e h = absurd (ground arith)
      second false x y e h = h

module _ {D : Type 0} ⦃d : Double D⦄ where
  assign_number-key :
      (k key : Bytes) (n : Option D) (settings : Map D)
      → has_key key settings ≡ true
      → has_key k (assign_number key n settings) ≡ has_key k settings
  unfolding assign_number
  assign_number-key k key none settings h = refl
  assign_number-key k key (some n) settings h = has_key-assign k key n settings h

  override_settings-key :
      (k : Bytes) (saved : List (Bytes × Value D)) (settings : Map D)
      → has_key k (override_settings saved settings) ≡ has_key k settings
  unfolding override_settings
  override_settings-key k [] settings = refl
  override_settings-key k ((key, value) ∷ rest) settings =
      override_settings-key k rest _ ∙ (elim (Bool-cases (has_key key settings)) [
        | inl e ↦ rw (e) (assign_number-key k key (number_of value) settings e)
        | inr e ↦ rw (e) refl
      ])

  clamp_found-key :
      (k : Bytes) (s : ModuleSetting D) (found : Option D) (settings : Map D)
      → lookup s.id settings ≡ found
      → has_key k (clamp_found s found settings) ≡ has_key k settings
  unfolding clamp_found
  clamp_found-key k s none settings h = refl
  clamp_found-key k s (some value) settings h =
      has_key-assign k s.id _ settings (has_key-lookup s.id settings value h)

  clamp_settings-key :
      (k : Bytes) (declared : List (ModuleSetting D)) (settings : Map D)
      → has_key k (clamp_settings declared settings) ≡ has_key k settings
  unfolding clamp_settings
  clamp_settings-key k [] settings = refl
  clamp_settings-key k (s ∷ rest) settings =
      clamp_settings-key k rest _ ∙ clamp_found-key k s (lookup s.id settings) settings refl

  -- Saved values never add a setting: whatever is saved, the settings that there are are those that
  -- the picture effects and the module declare.
  pub settings_of-has_key :
      (declared : List (ModuleSetting D)) (saved : List (Bytes × Value D)) (k : Bytes)
      → has_key k (settings_of declared saved) ≡ has_key k (default_settings declared)
  unfolding settings_of
  settings_of-has_key declared saved k =
      clamp_settings-key k declared (override_settings saved (default_settings declared))
      ∙ override_settings-key k saved (default_settings declared)
