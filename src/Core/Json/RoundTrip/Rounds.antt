-- ===== src/Core/Json/RoundTrip/Rounds.antt =====
-- The printed form of a value is long enough to pay for the rounds of reading it.
use nova_visualiser.Prelude.{
  ◌+◌, ◌*◌, ◌≤◌, ◌<◌, Bool, true, false, [], ◌∷◌, ◌++◌, length, length-append, arith, Bytes,
  if◌then◌else◌,
}
use nova_visualiser.Core.Json.{
  NumberText, Value, null, boolean, number, string, array, object, Items, nil, cons, Fields, end,
  field,
}
use nova_visualiser.Core.Json.Printer.{dump, dump_items, dump_fields, quoted}
use nova_visualiser.Core.Json.RoundTrip.Values.{
  Printable, PrintableItems, PrintableFields, rounds, item_rounds, field_rounds,
}

module _ {N : Type 0} (text : NumberText N) where
  length-quoted : (s : Bytes) → 0 < length (quoted s)
  unfolding quoted
  length-quoted s = omega arith

  mutual
    unfolding rounds dump

    pub rounds-le : (v : Value N) → Printable text v → rounds v ≤ 2 * length (dump text v)
    rounds-le null p = omega arith
    rounds-le (boolean true) p = omega arith
    rounds-le (boolean false) p = omega arith
    rounds-le (number n) p = rw p.shape (omega arith)
    rounds-le (string t) p = omega (arith, length-quoted t)
    rounds-le (array xs) p =
        omega (arith, item_rounds-le true xs p, length-append (dump_items text true xs) (b']' ∷ []))
    rounds-le (object fs) p =
        omega
          (arith, field_rounds-le true fs p.1, length-append (dump_fields text true fs) (b'}' ∷ []))

    item_rounds-le :
        (first : Bool) (xs : Items N)
        → PrintableItems text xs
        → item_rounds xs ≤ 2 * length (dump_items text first xs) + (if first then 1 else 0)
    item_rounds-le first nil p = omega arith
    item_rounds-le true (cons v xs) p = omega (
      arith,
      rounds-le v p.0,
      item_rounds-le false xs p.1,
      length-append (dump text v) (dump_items text false xs),
    )
    item_rounds-le false (cons v xs) p = omega (
      arith,
      rounds-le v p.0,
      item_rounds-le false xs p.1,
      length-append (dump text v) (dump_items text false xs),
    )

    field_rounds-le :
        (first : Bool) (fs : Fields N)
        → PrintableFields text fs
        → field_rounds fs ≤ 2 * length (dump_fields text first fs)
    field_rounds-le first end p = omega arith
    field_rounds-le true (field k v fs) p = omega (
      arith,
      rounds-le v p.0,
      field_rounds-le false fs p.1,
      length-quoted k,
      length-append (quoted k) (b':' ∷ (dump text v ++ dump_fields text false fs)),
      length-append (dump text v) (dump_fields text false fs),
    )
    field_rounds-le false (field k v fs) p = omega (
      arith,
      rounds-le v p.0,
      field_rounds-le false fs p.1,
      length-quoted k,
      length-append (quoted k) (b':' ∷ (dump text v ++ dump_fields text false fs)),
      length-append (dump text v) (dump_fields text false fs),
    )
