-- ===== src/Core/Palette/Tests.antt =====
-- The chase of palettes at a concrete input.
use nova_visualiser.Prelude.{◌≡◌, some, [], ◌∷◌, codes}
use nova_visualiser.Prelude.Maps.{Map, lookup}
use nova_visualiser.Core.Double.Whole.{Whole, whole_double}
use nova_visualiser.Core.Vec.{Vec4}
use nova_visualiser.Core.Palette.{approached, vec4}
use nova_visualiser.Core.Palette.Approach.{approached_slot, lookup-approached}

abbrev red : Vec4 Whole
red = vec4 (some 9) (some 0) (some 0) (some 1)

abbrev night : Map (Vec4 Whole)
night = (codes "primary", red) ∷ []

abbrev day : Map (Vec4 Whole)
day = (codes "secondary", red) ∷ []

lookup-approached_example :
    lookup (codes "primary") (approached night day (some 7))
    ≡ approached_slot (lookup (codes "primary") night) (lookup (codes "primary") day) (some 1)
lookup-approached_example = lookup-approached night day (some 7) (codes "primary")
