-- ===== src/Core/Palette/Approach.antt =====
-- The chase of palettes (`Palette::approached` of src/core/palette.cpp), slot by slot.
use nova_visualiser.Prelude.{
  ◌≡◌, refl, sym, ap, ◌∙◌, Bool, true, false, Option, none, some, List, [], ◌∷◌, Bytes, bytes_eq,
  Bool-cases, inl, inr, if◌then◌else◌, ◌||◌, arith,
}
use nova_visualiser.Prelude.Maps.{
  Map, lookup, assign, lookup-assign_same, lookup-assign_other, bytes_eq→≡,
}
use nova_visualiser.Core.Double.{Double, ◌⊕◌, ◌⊖◌, ◌⊗◌, nought, one, fmax, fmin}
use nova_visualiser.Core.Vec.{Vec4, mix, lerp}
use nova_visualiser.Core.Palette.{
  vec4, insert_key, insert_keys, faded, blend, approach_keys, approached,
}

abbrev is_in : Bytes → List Bytes → Bool
is_in k [] = false
is_in k (j ∷ js) = bytes_eq k j || is_in k js

abbrev is_some {ℓ} : {A : Type ℓ} → Option A → Bool
is_some none = false
is_some (some a) = true

or_true : (p : Bool) → (p || true) ≡ true
or_true p = ground arith

or_twice : (p q : Bool) → (p || q) ≡ (p || (p || q))
or_twice p q = ground arith

or_swap : (p q r : Bool) → (p || (q || r)) ≡ (q || (p || r))
or_swap p q r = ground arith

is_in-insert_key :
    (k j : Bytes) (js : List Bytes) → is_in k (insert_key j js) ≡ (bytes_eq k j || is_in k js)
unfolding insert_key
is_in-insert_key k j [] = refl
is_in-insert_key k j (i ∷ js) = elim (Bool-cases (bytes_eq j i)) [
  | inl e ↦
      rw (e, insert_key)
        (or_twice (bytes_eq k i) (is_in k js)
          ∙ ap (λ x. bytes_eq k x || (bytes_eq k i || is_in k js)) (sym (bytes_eq→≡ j i e)))
  | inr e ↦
      rw (e, insert_key)
        (ap (λ x. bytes_eq k i || x) (is_in-insert_key k j js)
          ∙ or_swap (bytes_eq k i) (bytes_eq k j) (is_in k js))
]

module _ {D : Type 0} where
  present : (k : Bytes) (m : Map (Vec4 D)) → Bool
  unfolding lookup
  present k m = is_some (lookup k m)

  present-cons :
      (k j : Bytes) (value : Vec4 D) (m : Map (Vec4 D))
      → present k ((j, value) ∷ m) ≡ (bytes_eq k j || present k m)
  unfolding present lookup
  present-cons k j value m = elim (Bool-cases (bytes_eq k j)) [
    | inl e ↦ rw (e, lookup) refl
    | inr e ↦ rw (e, lookup) refl
  ]

  is_in-insert_keys :
      (k : Bytes) (m : Map (Vec4 D)) (keys : List Bytes)
      → is_in k (insert_keys m keys) ≡ (present k m || is_in k keys)
  unfolding insert_keys present lookup
  is_in-insert_keys k [] keys = refl
  is_in-insert_keys k ((j, value) ∷ m) keys =
      is_in-insert_keys k m (insert_key j keys)
      ∙ ap (λ x. present k m || x) (is_in-insert_key k j keys)
      ∙ move (present k m) (bytes_eq k j) (is_in k keys)
      ∙ ap (λ x. x || is_in k keys) (sym (present-cons k j value m))
    where
      move : (p q r : Bool) → (p || (q || r)) ≡ ((q || p) || r)
      move p q r = ground arith

module _ {D : Type 0} ⦃d : Double D⦄ where
  -- A key that is left to do is blended, and another one keeps its value.
  lookup-approach_keys :
      (k : Bytes) (keys : List Bytes) (colors target : Map (Vec4 D)) (amount : D)
      (result : Map (Vec4 D))
      → lookup k (approach_keys keys colors target amount result) ≡ (
          if is_in k keys
          then some (blend (lookup k colors) (lookup k target) amount)
          else lookup k result)
  unfolding approach_keys
  lookup-approach_keys k [] colors target amount result = refl
  lookup-approach_keys k (j ∷ keys) colors target amount result =
      lookup-approach_keys k keys colors target amount _ ∙ last (is_in k keys)
    where
      value : Bytes → Vec4 D
      value j = blend (lookup j colors) (lookup j target) amount

      last :
          (later : Bool)
          → (if later then some (value k) else lookup k (assign j (value j) result))
            ≡ (if bytes_eq k j || later then some (value k) else lookup k result)
      last true = rw (or_true (bytes_eq k j)) refl
      last false = elim (Bool-cases (bytes_eq k j)) [
        | inl e ↦ rw e (rw (← bytes_eq→≡ k j e) (lookup-assign_same k (value k) result))
        | inr e ↦ rw e (lookup-assign_other k j (value j) result e)
      ]

  -- A channel on its way from `a` to `b`, with the rounding of each float operation.
  abbrev between : D → D → D → D
  between a b amount = d.to_float (a ⊕ d.to_float (d.to_float (b ⊖ a) ⊗ amount))

  abbrev between_colors : Vec4 D → Vec4 D → D → Vec4 D
  between_colors a b amount =
      vec4 (between a.x b.x amount) (between a.y b.y amount) (between a.z b.z amount)
        (between a.w b.w amount)

  -- The same hue at alpha 0
  abbrev transparent : Vec4 D → Vec4 D
  transparent c = vec4 c.x c.y c.z nought

  -- What the source's comment says of a slot, by the palettes that have it.
  abbrev pub approached_slot : Option (Vec4 D) → Option (Vec4 D) → D → Option (Vec4 D)
  approached_slot none none amount = none
  approached_slot (some c) (some t) amount = some (between_colors c t amount)
  approached_slot (some c) none amount = some (between_colors c (transparent c) amount)
  approached_slot none (some t) amount = some (between_colors (transparent t) t amount)

  slot_cases :
      (c t : Option (Vec4 D)) (amount : D)
      → (if is_some t || (is_some c || false) then some (blend c t amount) else none)
        ≡ approached_slot c t amount
  unfolding blend faded mix lerp
  slot_cases none none amount = refl
  slot_cases none (some t) amount = refl
  slot_cases (some c) none amount = refl
  slot_cases (some c) (some t) amount = refl

  -- A palette on its way to another one, slot by slot, by the amount cut to [0, 1] and rounded to a
  -- float: a slot of both moves on each channel from this palette's colour towards the target's, one of
  -- this palette only moves to its own colour with alpha 0, one of the target only comes from the
  -- target's colour with alpha 0, and a slot of neither is absent.
  pub lookup-approached :
      (colors target : Map (Vec4 D)) (raw_amount : D) (k : Bytes)
      → lookup k (approached colors target raw_amount)
        ≡ approached_slot
            (lookup k colors)
            (lookup k target)
            (d.to_float (fmin one (fmax nought raw_amount)))
  unfolding approached present
  lookup-approached colors target raw_amount k =
      let amount = d.to_float (fmin one (fmax nought raw_amount)) in
      lookup-approach_keys k (insert_keys target (insert_keys colors [])) colors target amount []
      ∙ ap (λ b. if b then some (blend (lookup k colors) (lookup k target) amount) else none)
          (is_in-insert_keys k target (insert_keys colors [])
            ∙ ap (λ b. present k target || b) (is_in-insert_keys k colors []))
      ∙ slot_cases (lookup k colors) (lookup k target) amount
