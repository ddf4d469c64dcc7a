-- ===== src/Core/Drivers/Lanes/Resolve.antt =====
-- The values of driven effects (`evaluateDriverLanes` of src/core/parameter_drivers.cpp).
use nova_visualiser.Prelude.{
  ◌≡◌, ◌⊎◌, refl, ap, ◌∙◌, true, false, Option, none, some, List, [], ◌∷◌, ◌++◌, map, Bytes, All,
  Bool-cases, Option-cases, inl, inr, bytes_eq,
}
use nova_visualiser.Prelude.Maps.{Map, lookup, assign, bytes_eq→≡}
use nova_visualiser.Core.Double.{Double, ◌⊕◌, ◌≺◌, fmax}
use nova_visualiser.Core.Json.Access.{value_or}
use nova_visualiser.Core.Signal.{SignalFrame}
use nova_visualiser.Core.Drivers.{
  EffectDeclaration, EffectBinding, ScopedLane, CombineMode, override, DriverSlotState,
  is_override_only_effect,
}
use nova_visualiser.Core.Drivers.Lanes.{
  Contribution, LaneEvaluation, gather_bindings, gather_lanes, contribution_of, last_contribution,
  mode_of, combined, bounded_value, resolve_declared, resolve_effects, evaluate_driver_lanes,
}

module _ {D : Type 0} ⦃d : Double D⦄ where
  -- A value of a declared effect that is not below its minimum, or is its default
  abbrev pub InRange : Map (EffectDeclaration D) → Bytes × D → Type 0
  InRange declarations (effect, value) =
      (declaration : EffectDeclaration D) × ((lookup effect declarations ≡ some declaration)
        × (((value ≺ declaration.min) ≡ false) ⊎ (value ≡ declaration.default_value)))

  All-assign :
      (declarations : Map (EffectDeclaration D)) (effect : Bytes) (value : D) (m : Map D)
      → InRange declarations (effect, value)
      → All (InRange declarations) m
      → All (InRange declarations) (assign effect value m)
  unfolding assign
  All-assign declarations effect value [] p all = (p, tt)
  All-assign declarations effect value ((key, old) ∷ rest) p all =
      elim (Bool-cases (bytes_eq effect key)) [
        | inl e ↦ rw (e, assign) (rw (← bytes_eq→≡ effect key e) p, all.1)
        | inr e ↦ rw (e, assign) (all.0, All-assign declarations effect value rest p all.1)
      ]

  module _ (irreflexive : (a : D) → (a ≺ a) ≡ false)
      (asymmetric : (a b : D) → (a ≺ b) ≡ true → (b ≺ a) ≡ false) where
    bounded_value-min :
        (declaration : EffectDeclaration D) (parts : D × D)
        → ((bounded_value declaration parts ≺ declaration.min) ≡ false)
          ⊎ (bounded_value declaration parts ≡ declaration.default_value)
    unfolding bounded_value
    bounded_value-min declaration (resting, total) =
        elim (Bool-cases (d.is_finite (resting ⊕ total))) [
          | inl e ↦ rw e (inl (not_below declaration.min _))
          | inr e ↦ rw e (inr refl)
        ]
      where
        not_below : (a b : D) → (fmax a b ≺ a) ≡ false
        not_below a b = elim (Bool-cases (a ≺ b)) [
          | inl e ↦ rw e (asymmetric a b e)
          | inr e ↦ rw e (irreflexive a)
        ]

    resolve_declared-InRange :
        (declarations : Map (EffectDeclaration D)) (found : Option (EffectDeclaration D))
        (effect : Bytes) (list : List (Contribution D)) (combine : Map CombineMode)
        (result : LaneEvaluation D)
        → lookup effect declarations ≡ found
        → All (InRange declarations) result.values
        → All (InRange declarations) (resolve_declared found effect list combine result).values
    unfolding resolve_declared
    resolve_declared-InRange declarations none effect list combine result h all = all
    resolve_declared-InRange declarations (some declaration) effect [] combine result h all = all
    resolve_declared-InRange declarations (some declaration) effect (entry ∷ list) combine result h
          all =
        All-assign declarations effect
          (bounded_value declaration (combined (mode_of effect combine) entry list)) result.values
          (
            declaration,
            (h, bounded_value-min declaration (combined (mode_of effect combine) entry list)),
          )
          all

    resolve_effects-InRange :
        (declarations : Map (EffectDeclaration D)) (combine : Map CombineMode)
        (contributions : Map (List (Contribution D))) (result : LaneEvaluation D)
        → All (InRange declarations) result.values
        → All
            (InRange declarations)
            (resolve_effects declarations combine contributions result).values
    unfolding resolve_effects
    resolve_effects-InRange declarations combine [] result all = all
    resolve_effects-InRange declarations combine ((effect, list) ∷ rest) result all =
        resolve_effects-InRange declarations combine rest _ (
          resolve_declared-InRange declarations (lookup effect declarations) effect list combine
            result refl all)

-- For doubles in which `<` is irreflexive and asymmetric: every value that the lanes resolve to belongs
-- to a declared effect, and is either not below the declared minimum or the declared default.
pub evaluate_driver_lanes-InRange :
    {D : Type 0} ⦃d : Double D⦄
    → ((a : D) → (a ≺ a) ≡ false)
    → ((a b : D) → (a ≺ b) ≡ true → (b ≺ a) ≡ false)
    → (lanes : List (ScopedLane D)) (combine : Map CombineMode)
      (declarations : Map (EffectDeclaration D)) (frame : SignalFrame D)
      (states : Map (DriverSlotState D))
    → All
        (InRange declarations)
        (evaluate_driver_lanes lanes combine declarations frame states).0.values
unfolding evaluate_driver_lanes
evaluate_driver_lanes-InRange irreflexive asymmetric lanes combine declarations frame states =
    resolve_effects-InRange irreflexive asymmetric declarations combine
      (gather_lanes declarations frame lanes ([], states)).0 (record { values = []; driven = [] })
      tt

mode_of-override :
    (effect : Bytes) (combine : Map CombineMode)
    → (is_override_only_effect effect ≡ true) ⊎ (lookup effect combine ≡ some override)
    → mode_of effect combine ≡ override
unfolding mode_of value_or
mode_of-override effect combine (inl h) = rw h refl
mode_of-override effect combine (inr h) = elim (Bool-cases (is_override_only_effect effect)) [
  | inl e ↦ rw e refl
  | inr e ↦ rw e (rw h refl)
]

module _ {D : Type 0} ⦃d : Double D⦄ where
  last_contribution-append :
      (entry : Contribution D) (xs : List (Contribution D)) (final : Contribution D)
      → last_contribution entry (xs ++ final ∷ []) ≡ final
  unfolding last_contribution
  last_contribution-append entry [] final = refl
  last_contribution-append entry (x ∷ xs) final = last_contribution-append x xs final

  combined-override :
      (mode : CombineMode) (entry : Contribution D) (xs : List (Contribution D))
      (final : Contribution D)
      → mode ≡ override
      → combined mode entry (xs ++ final ∷ []) ≡ combined mode final []
  unfolding combined last_contribution
  combined-override mode entry xs final h =
      rw h (ap (λ c. (c.resting_value, c.amount)) (last_contribution-append entry xs final))

  resolve_declared-override :
      (found : Option (EffectDeclaration D)) (effect : Bytes) (entry : Contribution D)
      (xs : List (Contribution D)) (final : Contribution D) (combine : Map CombineMode)
      (result : LaneEvaluation D)
      → mode_of effect combine ≡ override
      → resolve_declared found effect (entry ∷ xs ++ final ∷ []) combine result
        ≡ resolve_declared found effect (final ∷ []) combine result
  unfolding resolve_declared
  resolve_declared-override none effect entry xs final combine result h = refl
  resolve_declared-override (some declaration) effect entry xs final combine result h =
      ap
        (λ parts. record {
          values = assign effect (bounded_value declaration parts) result.values;
          driven = effect ∷ result.driven;
        })
        (combined-override (mode_of effect combine) entry xs final h)

  -- Where the mode of an effect is Override, as it is for an override-only effect whatever the groups
  -- store: only its last contribution counts, whichever contributions come before it.
  pub resolve_effects-override :
      (declarations : Map (EffectDeclaration D)) (combine : Map CombineMode) (effect : Bytes)
      (entry : Contribution D) (xs : List (Contribution D)) (final : Contribution D)
      (rest : Map (List (Contribution D))) (result : LaneEvaluation D)
      → (is_override_only_effect effect ≡ true) ⊎ (lookup effect combine ≡ some override)
      → resolve_effects declarations combine ((effect, entry ∷ xs ++ final ∷ []) ∷ rest) result
        ≡ resolve_effects declarations combine ((effect, final ∷ []) ∷ rest) result
  unfolding resolve_effects
  resolve_effects-override declarations combine effect entry xs final rest result h =
      ap (resolve_effects declarations combine rest) (
        resolve_declared-override (lookup effect declarations) effect entry xs final combine result
          (mode_of-override effect combine h))

  -- The bindings whose effect is declared,
  pub declared_bindings :
      Map (EffectDeclaration D) → List (EffectBinding D) → List (EffectBinding D)
  unfolding lookup
  declared_bindings declarations [] = []
  declared_bindings declarations (binding ∷ bindings) = elim (lookup binding.effect declarations) [
    | none ↦ declared_bindings declarations bindings
    | some declaration ↦ binding ∷ declared_bindings declarations bindings
  ]

  -- and a lane with no others.
  abbrev pub declared_lane : Map (EffectDeclaration D) → ScopedLane D → ScopedLane D
  declared_lane declarations scoped = record scoped {
    lane = record (scoped.lane) { bindings = declared_bindings declarations scoped.lane.bindings };
  }

  gather_bindings-declared :
      (declarations : Map (EffectDeclaration D)) (frame : SignalFrame D) (scoped : ScopedLane D)
      (kept : List (EffectBinding D)) (bindings : List (EffectBinding D))
      (gathered : Map (List (Contribution D)) × Map (DriverSlotState D))
      → gather_bindings declarations frame
          (record scoped { lane = record (scoped.lane) { bindings = kept } })
          (declared_bindings declarations bindings)
          gathered
        ≡ gather_bindings declarations frame scoped bindings gathered
  unfolding gather_bindings declared_bindings contribution_of
  gather_bindings-declared declarations frame scoped kept [] gathered = refl
  gather_bindings-declared declarations frame scoped kept (binding ∷ bindings) gathered =
      elim (Option-cases (lookup binding.effect declarations)) [
        | inl e ↦
            rw (e, declared_bindings)
              (rw (e, gather_bindings)
                (gather_bindings-declared declarations frame scoped kept bindings gathered))
        | inr (declaration, e) ↦
            rw (e, declared_bindings)
              (rw (e, gather_bindings)
                (gather_bindings-declared declarations frame scoped kept bindings _))
      ]

  gather_lanes-declared :
      (declarations : Map (EffectDeclaration D)) (frame : SignalFrame D)
      (lanes : List (ScopedLane D))
      (gathered : Map (List (Contribution D)) × Map (DriverSlotState D))
      → gather_lanes declarations frame (map (declared_lane declarations) lanes) gathered
        ≡ gather_lanes declarations frame lanes gathered
  unfolding gather_lanes
  gather_lanes-declared declarations frame [] gathered = refl
  gather_lanes-declared declarations frame (scoped ∷ lanes) gathered =
      gather_lanes-declared declarations frame lanes _
      ∙ ap (gather_lanes declarations frame lanes) (
          gather_bindings-declared declarations frame scoped
            (declared_bindings declarations scoped.lane.bindings) scoped.lane.bindings gathered)

  -- Bindings to effects that the module does not declare change nothing: without them the lanes
  -- resolve to the same values and leave the same states of the slots.
  pub evaluate_driver_lanes-declared_lane :
      (lanes : List (ScopedLane D)) (combine : Map CombineMode)
      (declarations : Map (EffectDeclaration D)) (frame : SignalFrame D)
      (states : Map (DriverSlotState D))
      → evaluate_driver_lanes
          (map (declared_lane declarations) lanes)
          combine
          declarations
          frame
          states
        ≡ evaluate_driver_lanes lanes combine declarations frame states
  unfolding evaluate_driver_lanes
  evaluate_driver_lanes-declared_lane lanes combine declarations frame states =
      ap
        (λ gathered. (
          resolve_effects declarations combine gathered.0 (record { values = []; driven = [] }),
          gathered.1,
        ))
        (gather_lanes-declared declarations frame lanes ([], states))
