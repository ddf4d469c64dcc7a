-- ===== src/Core/Module/Tests.antt =====
-- The decoding of modules at a concrete input.
use nova_visualiser.Prelude.{some, [], codes}
use nova_visualiser.Core.Double.Whole.{Whole, whole_double}
use nova_visualiser.Core.Json.{Value, number, string, array, object, end, field, nil, cons}
use nova_visualiser.Core.Json.Access.{string_field}
use nova_visualiser.Core.Module.{decode}
use nova_visualiser.Core.Module.Decode.{Outcome, decode-Outcome}

-- A module that asks for too much, and a setting without an id
abbrev greedy : Value Whole
greedy = object (
    field (codes "id") (string (codes "rings")) (
      field (codes "resources") (object (field (codes "maxParticles") (number (some 99999)) end))
        (field (codes "settings") (array (cons (object end) nil)) end)))

decode-Outcome_example : Outcome greedy (string_field greedy (codes "id") []) (decode greedy)
decode-Outcome_example = decode-Outcome greedy
