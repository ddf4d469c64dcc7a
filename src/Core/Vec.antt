-- ===== src/Core/Vec.antt =====
-- src/core/vec.h: vectors of floats, whose operations round to floats.
use nova_visualiser.Core.Double.{Double, ◌⊕◌, ◌⊖◌, ◌⊗◌}

pub record Vec3 (D : Type 0) : Type 0 where
  pub x : D
  pub y : D
  pub z : D

pub record Vec4 (D : Type 0) : Type 0 where
  pub x : D
  pub y : D
  pub z : D
  pub w : D

module _ {D : Type 0} ⦃d : Double D⦄ where
  -- `a + (b - a) * t` on floats: `lerp`
  unfoldable pub lerp : D → D → D → D
  lerp a b t = d.to_float (a ⊕ d.to_float (d.to_float (b ⊖ a) ⊗ t))

  -- `mix` of two colours
  unfoldable pub mix : Vec4 D → Vec4 D → D → Vec4 D
  unfolding lerp
  mix a b t = record {
    x = lerp a.x b.x t;
    y = lerp a.y b.y t;
    z = lerp a.z b.z t;
    w = lerp a.w b.w t;
  }
