-- ===== src/Core/Json/RoundTrip/Reading.antt =====
-- Reading back a printed value, by induction on the value and its lists.
use nova_visualiser.Prelude.{
  ℕ, zero, suc, ◌≤◌, ◌≡◌, refl, ap, ◌∙◌, true, false, some, List, [], ◌∷◌, ◌++◌, append_assoc,
  arith, Bytes,
}
use nova_visualiser.Core.Json.{
  NumberText, Value, null, boolean, number, string, array, object, Items, nil, cons, Fields, end,
  field, to_items, of_items,
}
use nova_visualiser.Core.Json.Parser.{parse_value, parse_items, parse_members}
use nova_visualiser.Core.Json.Printer.{dump, dump_items, dump_fields, quoted}
use nova_visualiser.Core.Json.RoundTrip.Values.{
  Ascending, Printable, PrintableItems, PrintableFields, Stops, rounds, item_rounds, field_rounds,
}
use nova_visualiser.Core.Json.RoundTrip.Keys.{
  join, join_assoc, emplace_above, Before, Before-join, Before-end,
}
use nova_visualiser.Core.Json.RoundTrip.Steps.{
  at, value-literal, value-scalar, value-string, value-array, value-object, value-empty, item-last,
  item-next, member-last, member-next, to_items-of_items, items_text, next_item_text, fields_text,
  next_field_text,
}

module _ {N : Type 0} (text : NumberText N) where
  -- What reading the elements of a non-empty array comes to, and the members of an object.
  abbrev ItemsRead : ℕ → List (Value N) → Bytes → Items N → Type 0
  ItemsRead f acc rest nil = Unit {0}
  ItemsRead f acc rest (cons v xs) =
      parse_items text f acc (at (dump text v ++ (dump_items text false xs ++ b']' ∷ rest)))
      ≡ some (array (to_items (acc ++ v ∷ of_items xs)), at rest)

  abbrev FieldsRead : ℕ → Fields N → Bytes → Fields N → Type 0
  FieldsRead f acc rest end = Unit {0}
  FieldsRead f acc rest (field k v fs) =
      parse_members text f acc
        (at (quoted k ++ (b':' ∷ (dump text v ++ (dump_fields text false fs ++ b'}' ∷ rest)))))
      ≡ some (object (join acc (field k v fs)), at rest)

  no_rounds : (v : Value N) → ¬ (rounds v ≤ 0)
  unfolding rounds
  no_rounds null h = omega arith
  no_rounds (boolean b) h = omega arith
  no_rounds (number n) h = omega arith
  no_rounds (string t) h = omega arith
  no_rounds (array xs) h = omega arith
  no_rounds (object fs) h = omega arith

  -- What reading one value comes to, whatever the fuel beyond its rounds.
  abbrev pub ValueRead : Value N → Type 0
  ValueRead v =
      (f : ℕ) (rest : Bytes)
      → Printable text v
      → Stops rest
      → rounds v ≤ f
      → parse_value text f (at (dump text v ++ rest)) ≡ some (v, at rest)

  from_suc :
      (v : Value N)
      → ((f : ℕ) (rest : Bytes)
          → Printable text v
          → Stops rest
          → rounds v ≤ suc f
          → parse_value text (suc f) (at (dump text v ++ rest)) ≡ some (v, at rest))
      → ValueRead v
  from_suc v h zero rest p s k = absurd (no_rounds v k)
  from_suc v h (suc f) rest p s k = h f rest p s k

  items_suc :
      (f : ℕ) (acc : List (Value N)) (rest : Bytes) (v : Value N) (xs : Items N)
      → item_rounds (cons v xs) ≤ f
      → ((g : ℕ) → item_rounds (cons v xs) ≤ suc g → ItemsRead (suc g) acc rest (cons v xs))
      → ItemsRead f acc rest (cons v xs)
  unfolding rounds
  items_suc zero acc rest v xs h k = absurd (omega arith)
  items_suc (suc g) acc rest v xs h k = k g h

  fields_suc :
      (f : ℕ) (acc : Fields N) (rest k : Bytes) (v : Value N) (fs : Fields N)
      → field_rounds (field k v fs) ≤ f
      → ((g : ℕ) → field_rounds (field k v fs) ≤ suc g → FieldsRead (suc g) acc rest (field k v fs))
      → FieldsRead f acc rest (field k v fs)
  unfolding rounds
  fields_suc zero acc rest k v fs h c = absurd (omega arith)
  fields_suc (suc g) acc rest k v fs h c = c g h

  mutual
    unfolding rounds of_items dump

    pub read : (v : Value N) → ValueRead v
    read null = from_suc null (λ f rest p s h. (value-literal text f rest).0)
    read (boolean true) = from_suc (boolean true) (λ f rest p s h. (value-literal text f rest).1)
    read (boolean false) = from_suc (boolean false) (λ f rest p s h. (value-literal text f rest).2)
    read (number n) = from_suc (number n) (λ f rest p s h. value-scalar text f n rest p s)
    read (string t) = from_suc (string t) (λ f rest p s h. value-string text f t rest)
    read (array nil) = from_suc (array nil) (λ f rest p s h. (value-empty text f rest).0)
    read (array (cons v xs)) = from_suc (array (cons v xs)) λ f rest p s h.
        ap (λ r. parse_value text (suc f) (at (b'[' ∷ r))) (items_text text v xs rest)
        ∙ value-array text f v (dump_items text false xs ++ b']' ∷ rest) p.0
        ∙ read_items (cons v xs) f [] rest p (omega arith)
        ∙ ap (λ ys. some (array ys, at rest)) (to_items-of_items text (cons v xs))
    read (object end) = from_suc (object end) (λ f rest p s h. (value-empty text f rest).1)
    read (object (field k v fs)) = from_suc (object (field k v fs)) λ f rest p s h.
        ap (λ r. parse_value text (suc f) (at (b'{' ∷ r))) (fields_text text k v fs rest)
        ∙ value-object text f k (b':' ∷ (dump text v ++ (dump_fields text false fs ++ b'}' ∷ rest)))
        ∙ read_fields (field k v fs) f end rest p.1 p.0 (Before-end (field k v fs)) (omega arith)

    read_items :
        (xs : Items N) (f : ℕ) (acc : List (Value N)) (rest : Bytes)
        → PrintableItems text xs
        → item_rounds xs ≤ f
        → ItemsRead f acc rest xs
    read_items nil f acc rest p h = tt
    read_items (cons v nil) f acc rest p h = items_suc f acc rest v nil h λ g k.
        item-last text g acc v (dump text v ++ b']' ∷ rest) rest
          (read v g (b']' ∷ rest) p.0 refl (omega arith))
    read_items (cons v (cons w ys)) f acc rest p h = items_suc f acc rest v (cons w ys) h λ g k.
        let others = dump text w ++ (dump_items text false ys ++ b']' ∷ rest) in
        ap (λ r. parse_items text (suc g) acc (at (dump text v ++ r)))
          (next_item_text text w ys rest)
        ∙ item-next text g acc v (dump text v ++ (b',' ∷ others)) others
            (read v g (b',' ∷ others) p.0 refl (omega arith))
        ∙ read_items (cons w ys) g (acc ++ v ∷ []) rest p.1 (omega arith)
        ∙ ap (λ vs. some (array (to_items vs), at rest))
            (append_assoc acc (v ∷ []) (w ∷ of_items ys))

    read_fields :
        (fs : Fields N) (f : ℕ) (acc : Fields N) (rest : Bytes)
        → PrintableFields text fs
        → Ascending fs
        → Before acc fs
        → field_rounds fs ≤ f
        → FieldsRead f acc rest fs
    read_fields end f acc rest p a b h = tt
    read_fields (field k v end) f acc rest p a b h = fields_suc f acc rest k v end h λ g r.
        member-last text g acc k v (dump text v ++ b'}' ∷ rest) rest
          (read v g (b'}' ∷ rest) p.0 refl (omega arith))
        ∙ ap (λ fs. some (object fs, at rest)) (emplace_above k v acc b.0)
    read_fields (field k v (field j w gs)) f acc rest p a b h =
        fields_suc f acc rest k v (field j w gs) h λ g r.
          let others =
            quoted j ++ (b':' ∷ (dump text w ++ (dump_fields text false gs ++ b'}' ∷ rest))) in
          ap (λ t. parse_members text (suc g) acc (at (quoted k ++ (b':' ∷ (dump text v ++ t)))))
            (next_field_text text j w gs rest)
          ∙ member-next text g acc k v (dump text v ++ (b',' ∷ others)) others
              (read v g (b',' ∷ others) p.0 refl (omega arith))
          ∙ ap (λ fs. parse_members text g fs (at others)) (emplace_above k v acc b.0)
          ∙ read_fields (field j w gs) g (join acc (field k v end)) rest p.1 a.1
              (Before-join k v acc (field j w gs) a.0 b.1) (omega arith)
          ∙ ap (λ fs. some (object fs, at rest)) (join_assoc acc (field k v end) (field j w gs))
