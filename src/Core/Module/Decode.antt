-- ===== src/Core/Module/Decode.antt =====
-- What `Module::decode` of src/core/module.cpp accepts, and what it yields.
use nova_visualiser.Prelude.{
  ℕ, ◌≡◌, ◌⊎◌, refl, Option, none, some, List, [], ◌∷◌, Bytes, codes, All, inl, inr, arith,
}
use nova_visualiser.Prelude.Int.{pos, ◌≤ℤ◌, clamp_bounds}
use nova_visualiser.Core.Double.{Double}
use nova_visualiser.Core.Json.{Value, null, boolean, number, string, array, object, find}
use nova_visualiser.Core.Json.Access.{string_field, array_field, object_of}
use nova_visualiser.Core.Module.{
  Module, Resources, resources_of, asked_resources, with_ids, setting_of, slot_of, module_of,
  with_id, decode,
}

abbrev IsNamed : Bytes → Type 0
IsNamed [] = ⊥
IsNamed (c ∷ cs) = Unit

abbrev InCeilings : Resources → Type 0
InCeilings r =
    ((pos 1 ≤ℤ r.max_particles) × (r.max_particles ≤ℤ pos 65536))
    × (((pos 1 ≤ℤ r.max_interactive_field_entities)
          × (r.max_interactive_field_entities ≤ℤ pos 16384))
        × ((pos 1 ≤ℤ r.max_render_batches) × (r.max_render_batches ≤ℤ pos 64)))

module _ {D : Type 0} ⦃d : Double D⦄ where
  -- A module with an id, within the ceilings, whose settings and slots have ids
  abbrev pub IsValid : Module D → Type 0
  IsValid m =
      IsNamed m.id
      × (InCeilings m.resources
          × (All (λ s. IsNamed s.id) m.settings × All (λ s. IsNamed s.id) m.palette_slots))

  resources_of-InCeilings : (v : Option (Value D)) → InCeilings (resources_of v)
  unfolding resources_of
  resources_of-InCeilings v =
      let asked = asked_resources v in
      (
        clamp_bounds asked.max_particles (pos 1) (pos 65536) (omega arith),
        (
          clamp_bounds asked.max_interactive_field_entities (pos 1) (pos 16384) (omega arith),
          clamp_bounds asked.max_render_batches (pos 1) (pos 64) (omega arith),
        ),
      )

  with_ids-All :
      {A : Type 0} (P : A → Type 0) (make : Bytes → Value D → A)
      → ((c : ℕ) (cs : Bytes) (item : Value D) → P (make (c ∷ cs) item))
      → (items : List (Value D)) → All P (with_ids make items)
  unfolding with_ids
  with_ids-All P make named [] = tt
  with_ids-All P make named (item ∷ items) =
      step (string_field item (codes "id") []) refl (with_ids-All P make named items)
    where
      step :
          (id : Bytes)
          → string_field item (codes "id") [] ≡ id
          → All P (with_ids make items)
          → All P (with_ids make (item ∷ items))
      step [] e rest = rw (e, with_ids) rest
      step (c ∷ cs) e rest = rw (e, with_ids) (named c cs item, rest)

  setting_of-IsNamed : (c : ℕ) (cs : Bytes) (item : Value D) → IsNamed (setting_of (c ∷ cs) item).id
  unfolding setting_of
  setting_of-IsNamed c cs item = tt

  slot_of-IsNamed : (c : ℕ) (cs : Bytes) (item : Value D) → IsNamed (slot_of (c ∷ cs) item).id
  unfolding slot_of
  slot_of-IsNamed c cs item = tt

  -- What becomes of a value with this id
  abbrev pub Outcome : Value D → Bytes → Option (Module D) → Type 0
  Outcome v id result =
      ((result ≡ none) × ((object_of v ≡ none) ⊎ (id ≡ [])))
      ⊎ ((m : Module D) × ((result ≡ some m) × (IsValid m × (m.id ≡ id))))

  with_id-Outcome : (id : Bytes) (value : Value D) → Outcome value id (with_id id value)
  unfolding with_id module_of
  with_id-Outcome [] value = inl (refl, inr refl)
  with_id-Outcome (c ∷ cs) value = inr (
    module_of (c ∷ cs) value,
    (
      refl,
      (
        (
          tt,
          (
            resources_of-InCeilings (find (codes "resources") value),
            (
              with_ids-All (λ s. IsNamed s.id) setting_of setting_of-IsNamed
                  (array_field value (codes "settings")),
              with_ids-All (λ s. IsNamed s.id) slot_of slot_of-IsNamed
                  (array_field value (codes "paletteSlots")),
            ),
          ),
        ),
        refl,
      ),
    ),
  )

  -- A value decodes, unless it is no object or has no id; and then the module has that id, resources
  -- of at least 1 and at most 65536, 16384 and 64, and settings and palette slots that all have ids.
  pub decode-Outcome : (v : Value D) → Outcome v (string_field v (codes "id") []) (decode v)
  unfolding decode object_of
  decode-Outcome null = inl (refl, inl refl)
  decode-Outcome (boolean b) = inl (refl, inl refl)
  decode-Outcome (number n) = inl (refl, inl refl)
  decode-Outcome (string s) = inl (refl, inl refl)
  decode-Outcome (array items) = inl (refl, inl refl)
  decode-Outcome (object fields) =
      with_id-Outcome (string_field (object fields) (codes "id") []) (object fields)
