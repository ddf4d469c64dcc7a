-- ===== src/Core/Module.antt =====
-- src/core/module.{h,cpp}: a compiled module, decoded from JSON.
pub mod Decode
mod Tests
use nova_visualiser.Prelude.{
  ℕ, zero, suc, Bool, true, false, Option, none, some, List, [], ◌∷◌, ◌++◌, Bytes, codes, bytes_eq,
  if◌then◌else◌, length, ltb, get_or,
}
use nova_visualiser.Prelude.Int.{ℤ, pos, negsuc, max_ℤ, min_ℤ}
use nova_visualiser.Prelude.Maps.{Map, lookup, assign}
use nova_visualiser.Core.Double.{Double, ◌⊘◌, nought, one}
use nova_visualiser.Core.Json.{Value, null, boolean, number, string, array, object, find}
use nova_visualiser.Core.Json.Access.{
  number_or, string_of, array_of, object_of, number_field, string_field, string_array, array_field,
  object_field, value_or,
}
use nova_visualiser.Core.Vec.{Vec3, Vec4}

pub record ModuleSetting (D : Type 0) : Type 0 where
  pub id : Bytes
  pub label : Bytes
  pub description : Bytes
  pub control : Bytes
  pub min : D
  pub max : D
  pub step : D
  pub default_value : D
  pub section : Bytes
  pub update_mode : Bytes
  pub curve_type : Bytes
  pub curve_exponent : D
  pub affects : List Bytes

pub record PaletteSlotDeclaration (D : Type 0) : Type 0 where
  pub id : Bytes
  pub label : Bytes
  pub default_rgb : Vec4 D

pub record Boundary (D : Type 0) : Type 0 where
  pub mode : Bytes
  pub restitution : D
  pub next : Bytes
  pub effect : Bytes

pub record Resources : Type 0 where
  pub max_particles : ℤ
  pub max_interactive_field_entities : ℤ
  pub max_render_batches : ℤ

pub record Module (D : Type 0) : Type 0 where
  pub id : Bytes
  pub version : Bytes
  pub name : Bytes
  pub description : Bytes
  pub dimension : Bytes
  pub minimum : Vec3 D
  pub maximum : Vec3 D
  pub boundary : Boundary D
  pub resources : Resources
  pub settings : List (ModuleSetting D)
  pub palette_slots : List (PaletteSlotDeclaration D)
  pub templates : Map (Value D)
  pub scene : List (Value D)

-- `clampValue` of src/core/vec.h on ints
abbrev clamp_int : ℤ → ℤ → ℤ → ℤ
clamp_int value low high = min_ℤ (max_ℤ value low) high

module _ {D : Type 0} where
  -- `templateFor` and `key`
  pub template_for : Module D → Bytes → Option (Value D)
  unfolding lookup
  template_for m name = lookup name m.templates

  pub key : Module D → Bytes
  key m = m.id ++ b'@' ∷ m.version

  -- `templates_[key] = item`, for each member
  assign_each : List (Bytes × Value D) → Map (Value D) → Map (Value D)
  unfolding assign
  assign_each [] templates = templates
  assign_each ((key, item) ∷ items) templates = assign_each items (assign key item templates)

module _ {D : Type 0} ⦃d : Double D⦄ where
  number_in : List (Value D) → ℕ → D → D
  unfolding number_or
  number_in [] index fallback = fallback
  number_in (v ∷ vs) zero fallback = number_or v fallback
  number_in (v ∷ vs) (suc index) fallback = number_in vs index fallback

  -- `numberAt`
  number_at : Option (Value D) → ℕ → D → D
  unfolding number_in value_or array_of
  number_at none index fallback = fallback
  number_at (some v) index fallback = number_in (value_or (array_of v) []) index fallback

  abbrev minus_one : D
  minus_one = d.of_int (negsuc 0)

  corner : Option (Value D) → D → D → Vec3 D
  unfolding number_at
  corner v other depth = record {
    x = d.to_float (number_at v 0 other);
    y = d.to_float (number_at v 1 other);
    z = d.to_float (number_at v 2 depth);
  }

  abbrev depth_of : Bool → D → D
  depth_of is_3d depth = if is_3d then depth else nought

  -- The two corners of `bounds`
  minimum_of : Option (Value D) → Bool → Vec3 D
  unfolding corner find
  minimum_of none is_3d = record { x = minus_one; y = minus_one; z = depth_of is_3d minus_one }
  minimum_of (some bounds) is_3d =
      corner (find (codes "min") bounds) minus_one (depth_of is_3d minus_one)

  maximum_of : Option (Value D) → Bool → Vec3 D
  unfolding corner find
  maximum_of none is_3d = record { x = one; y = one; z = depth_of is_3d one }
  maximum_of (some bounds) is_3d = corner (find (codes "max") bounds) one (depth_of is_3d one)

  abbrev default_boundary : Boundary D
  default_boundary = record {
    mode = codes "bounce";
    restitution = d.literal (codes "0.82");
    next = [];
    effect = [];
  }

  -- `boundary`, a text, an object, or something else
  boundary_of : Option (Value D) → Boundary D
  unfolding string_field number_field
  boundary_of (some (string mode)) = record (default_boundary) { mode = mode }
  boundary_of (some (object fields)) = record {
    mode = string_field (object fields) (codes "mode") (codes "bounce");
    restitution = number_field (object fields) (codes "restitution") (d.literal (codes "0.82"));
    next = string_field (object fields) (codes "then") [];
    effect = string_field (object fields) (codes "effect") [];
  }
  boundary_of _ = default_boundary

  asked_resources : Option (Value D) → Resources
  unfolding number_field
  asked_resources none = record {
    max_particles = pos 4096;
    max_interactive_field_entities = pos 1024;
    max_render_batches = pos 16;
  }
  asked_resources (some v) = record {
    max_particles = d.to_int (number_field v (codes "maxParticles") (d.of_int (pos 4096)));
    max_interactive_field_entities =
        d.to_int (number_field v (codes "maxInteractiveFieldEntities") (d.of_int (pos 1024)));
    max_render_batches = d.to_int (number_field v (codes "maxRenderBatches") (d.of_int (pos 16)));
  }

  -- The ceilings
  pub resources_of : Option (Value D) → Resources
  unfolding asked_resources
  resources_of v =
      let asked = asked_resources v in
      record {
        max_particles = clamp_int asked.max_particles (pos 1) (pos 65536);
        max_interactive_field_entities =
            clamp_int asked.max_interactive_field_entities (pos 1) (pos 16384);
        max_render_batches = clamp_int asked.max_render_batches (pos 1) (pos 64);
      }

  curve_type_of : Option (Value D) → Bytes
  unfolding string_field
  curve_type_of none = []
  curve_type_of (some curve) = string_field curve (codes "type") (codes "linear")

  curve_exponent_of : Option (Value D) → D
  unfolding number_field
  curve_exponent_of none = one
  curve_exponent_of (some curve) = number_field curve (codes "exponent") one

  affects_of : Option (Value D) → List Bytes
  unfolding string_array
  affects_of none = []
  affects_of (some v) = string_array v

  -- A setting with the id it has
  setting_of : Bytes → Value D → ModuleSetting D
  unfolding string_field number_field curve_type_of curve_exponent_of affects_of find
  setting_of id item =
      let low = number_field item (codes "min") nought in
      record {
        id = id;
        label = string_field item (codes "label") id;
        description = string_field item (codes "description") [];
        control = string_field item (codes "control") (codes "slider");
        min = low;
        max = number_field item (codes "max") one;
        step = number_field item (codes "step") (d.literal (codes "0.01"));
        default_value = number_field item (codes "default") low;
        section = string_field item (codes "section") [];
        update_mode = string_field item (codes "updateMode") (codes "smooth");
        curve_type = curve_type_of (find (codes "curve") item);
        curve_exponent = curve_exponent_of (find (codes "curve") item);
        affects = affects_of (find (codes "affects") item);
      }

  channel : Option (Value D) → ℕ → D
  unfolding number_at
  channel rgb index = d.to_float (number_at rgb index nought ⊘ d.literal (codes "255.0"))

  slot_of : Bytes → Value D → PaletteSlotDeclaration D
  unfolding string_field channel find
  slot_of id item =
      let rgb = find (codes "defaultRgb") item in
      record {
        id = id;
        label = string_field item (codes "label") id;
        default_rgb = record {
          x = channel rgb 0;
          y = channel rgb 1;
          z = channel rgb 2;
          w = d.literal (codes "1.0f");
        };
      }

  -- The items with an id: one without is left out.
  pub with_ids : {A : Type 0} → (Bytes → Value D → A) → List (Value D) → List A
  unfolding string_field
  with_ids make [] = []
  with_ids make (item ∷ items) = elim (string_field item (codes "id") []) [
    | [] ↦ with_ids make items
    | ◌∷◌ c cs ↦ make (c ∷ cs) item ∷ with_ids make items
  ]

  -- The decoded object, with its id
  module_of : Bytes → Value D → Module D
  unfolding string_field minimum_of maximum_of boundary_of resources_of with_ids setting_of slot_of
      assign_each array_field object_field find bytes_eq
  module_of id value =
      let dimension = string_field value (codes "dimension") (codes "2d") in
      let is_3d = bytes_eq dimension (codes "3d") in
      record {
        id = id;
        version = string_field value (codes "version") (codes "1.0.0");
        name = string_field value (codes "name") id;
        description = string_field value (codes "description") [];
        dimension = dimension;
        minimum = minimum_of (find (codes "bounds") value) is_3d;
        maximum = maximum_of (find (codes "bounds") value) is_3d;
        boundary = boundary_of (find (codes "boundary") value);
        resources = resources_of (find (codes "resources") value);
        settings = with_ids setting_of (array_field value (codes "settings"));
        palette_slots = with_ids slot_of (array_field value (codes "paletteSlots"));
        templates = assign_each (object_field value (codes "templates")) [];
        scene = array_field value (codes "scene");
      }

  with_id : Bytes → Value D → Option (Module D)
  unfolding module_of
  with_id [] value = none
  with_id (c ∷ cs) value = some (module_of (c ∷ cs) value)

  -- `Module::decode`
  pub decode : Value D → Option (Module D)
  unfolding with_id string_field
  decode (object fields) = with_id (string_field (object fields) (codes "id") []) (object fields)
  decode _ = none

  wrapped : Value D → Option (Value D) → Option (Module D)
  unfolding decode
  wrapped value none = decode value
  wrapped value (some inner) = decode inner

  -- `Module::parse`, on the value of its text
  pub parse_module : Option (Value D) → Option (Module D)
  unfolding wrapped find
  parse_module none = none
  parse_module (some value) = wrapped value (find (codes "module") value)
