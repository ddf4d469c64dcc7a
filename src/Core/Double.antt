-- ===== src/Core/Double.antt =====
-- `double` and `float` of the program: what the code does with them is an interface, which IEEE
-- arithmetic and the C library implement. A float is a double that `to_float` has rounded.
pub mod Whole
use nova_visualiser.Prelude.{Bool, Bytes, if◌then◌else◌}
use nova_visualiser.Prelude.Int.{ℤ, pos}

pub record Double (D : Type 0) : Type 0 where
  -- a literal of the source, by its text
  pub literal : Bytes → D
  -- the conversion of an integer, and `static_cast` to an integer type
  pub of_int : ℤ → D
  pub to_int : D → ℤ
  pub to_float : D → D
  pub infinity : D
  -- `std::to_string`
  pub to_string : D → Bytes
  pub neg : D → D
  pub add : D → D → D
  pub sub : D → D → D
  pub mul : D → D → D
  pub div : D → D → D
  -- `<`, `<=` and `==`, false at NaN
  pub lt : D → D → Bool
  pub le : D → D → Bool
  pub eq : D → D → Bool
  pub is_finite : D → Bool
  -- <cmath>
  pub fabs : D → D
  pub fmod : D → D → D
  pub pow : D → D → D
  pub sin : D → D
  pub cos : D → D
  pub tan : D → D
  pub sqrt : D → D
  pub floor : D → D
  pub ceil : D → D
  pub round : D → D
  pub exp : D → D
  pub log : D → D

module _ {D : Type 0} ⦃d : Double D⦄ where
  infixl 65 ◌⊕◌ ◌⊖◌
  infixl 70 ◌⊗◌ ◌⊘◌
  infix 50 ◌≺◌ ◌≼◌
  abbrev pub ◌⊕◌ : D → D → D
  a ⊕ b = d.add a b

  abbrev pub ◌⊖◌ : D → D → D
  a ⊖ b = d.sub a b

  abbrev pub ◌⊗◌ : D → D → D
  a ⊗ b = d.mul a b

  abbrev pub ◌⊘◌ : D → D → D
  a ⊘ b = d.div a b

  abbrev pub ◌≺◌ : D → D → Bool
  a ≺ b = d.lt a b

  abbrev pub ◌≼◌ : D → D → Bool
  a ≼ b = d.le a b

  abbrev pub nought : D
  nought = d.of_int (pos 0)

  abbrev pub one : D
  one = d.of_int (pos 1)

  -- `std::max` and `std::min`
  abbrev pub fmax : D → D → D
  fmax a b = if a ≺ b then b else a

  abbrev pub fmin : D → D → D
  fmin a b = if b ≺ a then b else a

  -- `condition ? 1 : 0`
  abbrev pub truth : Bool → D
  truth b = if b then one else nought

  -- `clampValue` of src/core/vec.h
  abbrev pub clamp_value : D → D → D → D
  clamp_value a low high = fmin (fmax a low) high
