-- ===== src/Core/Json/RoundTrip/Steps.antt =====
-- Single rounds of the parser over printed text: a value by its first character, and what stands
-- behind an element or a member.
use nova_visualiser.Prelude.{
  ℕ, suc, ◌≡◌, refl, ap, ◌∙◌, true, false, some, List, [], ◌∷◌, ◌++◌, append_assoc, arith, Bytes,
  codes,
}
use nova_visualiser.Core.Json.{
  NumberText, Value, null, boolean, number, string, array, object, Items, nil, cons, Fields, end,
  field, emplace, to_items, of_items,
}
use nova_visualiser.Core.Json.Parser.{
  is_number_char, Parser, took, skip, skip_spaces, eat, consume, parse_string, parse_scalar,
  true_or_more, false_or_more, null_or_number, after_word, string_value, close_array, next_item,
  after_item, close_object, next_member, after_member, member_value, after_key, open_array,
  open_object, value_at, Result, parse_value, parse_items, parse_members,
}
use nova_visualiser.Core.Json.Printer.{dump, dump_items, dump_fields, print_number, quoted}
use nova_visualiser.Core.Json.Strings.{parse_string-quoted}
use nova_visualiser.Core.Json.RoundTrip.Values.{
  IsReadBack, Printable, opens, number_char_opens, Stops, skip_spaces_head, consume_other,
}
use nova_visualiser.Core.Json.RoundTrip.Scalars.{parse_scalar-number}

abbrev pub at : Bytes → Parser
at r = record { rest = r; failed = false }

module _ {N : Type 0} (text : NumberText N) where
  -- `consume` at a character that is there.
  pub consume_there :
      (c : ℕ) (r : Bytes) → skip_spaces (c ∷ r) ≡ c ∷ r → consume c (at (c ∷ r)) ≡ took (at r)
  unfolding consume eat
  consume_there c r e = rw (e, eat) (ground arith)

  pub value-literal :
      (f : ℕ) (rest : Bytes)
      → (parse_value text (suc f) (at (codes "null" ++ rest)) ≡ some (null, at rest))
        × (parse_value text (suc f) (at (codes "true" ++ rest)) ≡ some (boolean true, at rest))
        × (parse_value text (suc f) (at (codes "false" ++ rest)) ≡ some (boolean false, at rest))
  unfolding parse_value value_at parse_scalar true_or_more false_or_more null_or_number after_word
      skip_spaces
  value-literal f rest = (refl, refl, refl)

  pub value_at-number :
      (items : List (Value N) → Parser → Result text) (members : Fields N → Parser → Result text)
      (c : ℕ) (r : Bytes)
      → is_number_char c ≡ true
      → value_at text items members false (c ∷ r) ≡ some (parse_scalar text (at (c ∷ r)))
  unfolding value_at
  value_at-number items members c r h = ground arith

  -- At a number character the parser goes on to the scalars.
  pub value-scalar :
      (f : ℕ) (n : N) (rest : Bytes)
      → IsReadBack text n
      → Stops rest
      → parse_value text (suc f) (at (print_number text n ++ rest)) ≡ some (number n, at rest)
  unfolding parse_value
  value-scalar f n rest b s =
      let space = (number_char_opens text b.first b.chars.0).0 in
      rw b.shape (
        rw (skip_spaces_head b.first (b.more ++ rest) space) (
          value_at-number (parse_items text f) (parse_members text f) b.first (b.more ++ rest)
            b.chars.0
          ∙ ap some (rw b.shape at (parse_scalar-number text n rest b s))))

  pub value-string :
      (f : ℕ) (s rest : Bytes)
      → parse_value text (suc f) (at (quoted s ++ rest)) ≡ some (string s, at rest)
  unfolding parse_value value_at skip_spaces quoted string_value
  value-string f s rest = ap (string_value text) (parse_string-quoted s rest)

  -- Behind an opening bracket that a value follows, the loop is entered.
  pub value-array :
      (f : ℕ) (v : Value N) (rest : Bytes)
      → Printable text v
      → parse_value text (suc f) (at (b'[' ∷ (dump text v ++ rest)))
        ≡ parse_items text f [] (at (dump text v ++ rest))
  unfolding parse_value value_at skip_spaces open_array
  value-array f v rest p =
      let o = opens text v p in
      rw o.begins (rw (consume_other b']' o.head (o.behind ++ rest) o.no_space o.no_bracket))

  pub value-object :
      (f : ℕ) (k rest : Bytes)
      → parse_value text (suc f) (at (b'{' ∷ (quoted k ++ rest)))
        ≡ parse_members text f end (at (quoted k ++ rest))
  unfolding parse_value value_at skip_spaces open_object consume eat quoted
  value-object f k rest = refl

  pub value-empty :
      (f : ℕ) (rest : Bytes)
      → (parse_value text (suc f) (at (b'[' ∷ b']' ∷ rest)) ≡ some (array nil, at rest))
        × (parse_value text (suc f) (at (b'{' ∷ b'}' ∷ rest)) ≡ some (object end, at rest))
  unfolding parse_value value_at skip_spaces open_object open_array consume eat
  value-empty f rest = (refl, refl)

  -- Behind an element: the end of the array, or the next element.
  pub item-last :
      (f : ℕ) (acc : List (Value N)) (v : Value N) (r rest : Bytes)
      → parse_value text f (at r) ≡ some (v, at (b']' ∷ rest))
      → parse_items text (suc f) acc (at r) ≡ some (array (to_items (acc ++ v ∷ [])), at rest)
  unfolding parse_value after_item next_item close_array consume eat skip_spaces
  item-last f acc v r rest e = rw (e, after_item)

  pub item-next :
      (f : ℕ) (acc : List (Value N)) (v : Value N) (r rest : Bytes)
      → parse_value text f (at r) ≡ some (v, at (b',' ∷ rest))
      → parse_items text (suc f) acc (at r) ≡ parse_items text f (acc ++ v ∷ []) (at rest)
  unfolding parse_value after_item next_item consume eat skip_spaces
  item-next f acc v r rest e = rw (e, after_item)

  pub key_read : (k r : Bytes) → parse_string (skip (at (quoted k ++ r))) ≡ some (k, at r)
  unfolding quoted skip_spaces
  key_read k r = parse_string-quoted k r

  -- The same for a member.
  pub member-last :
      (f : ℕ) (acc : Fields N) (k : Bytes) (v : Value N) (r rest : Bytes)
      → parse_value text f (at r) ≡ some (v, at (b'}' ∷ rest))
      → parse_members text (suc f) acc (at (quoted k ++ (b':' ∷ r)))
        ≡ some (object (emplace k v acc), at rest)
  unfolding parse_value after_key member_value after_member next_member close_object consume eat
      skip_spaces
  member-last f acc k v r rest e = rw (key_read k (b':' ∷ r), after_key) (rw (e, after_member))

  pub member-next :
      (f : ℕ) (acc : Fields N) (k : Bytes) (v : Value N) (r rest : Bytes)
      → parse_value text f (at r) ≡ some (v, at (b',' ∷ rest))
      → parse_members text (suc f) acc (at (quoted k ++ (b':' ∷ r)))
        ≡ parse_members text f (emplace k v acc) (at rest)
  unfolding parse_value after_key member_value after_member next_member consume eat skip_spaces
  member-next f acc k v r rest e = rw (key_read k (b':' ∷ r), after_key) (rw (e, after_member))

  pub to_items-of_items : (xs : Items N) → to_items (of_items xs) ≡ xs
  unfolding to_items of_items
  to_items-of_items nil = refl
  to_items-of_items (cons v xs) = ap (cons v) (to_items-of_items xs)

  pub items_text :
      (v : Value N) (xs : Items N) (rest : Bytes)
      → (dump_items text true (cons v xs) ++ b']' ∷ []) ++ rest
        ≡ dump text v ++ (dump_items text false xs ++ b']' ∷ rest)
  unfolding dump
  items_text v xs rest = simp append_assoc

  pub next_item_text :
      (w : Value N) (ys : Items N) (rest : Bytes)
      → dump_items text false (cons w ys) ++ b']' ∷ rest
        ≡ b',' ∷ (dump text w ++ (dump_items text false ys ++ b']' ∷ rest))
  unfolding dump
  next_item_text w ys rest = simp append_assoc

  pub fields_text :
      (k : Bytes) (v : Value N) (fs : Fields N) (rest : Bytes)
      → (dump_fields text true (field k v fs) ++ b'}' ∷ []) ++ rest
        ≡ quoted k ++ (b':' ∷ (dump text v ++ (dump_fields text false fs ++ b'}' ∷ rest)))
  unfolding dump
  fields_text k v fs rest = simp append_assoc

  pub next_field_text :
      (j : Bytes) (w : Value N) (gs : Fields N) (rest : Bytes)
      → dump_fields text false (field j w gs) ++ b'}' ∷ rest
        ≡ b',' ∷ (quoted j ++ (b':' ∷ (dump text w ++ (dump_fields text false gs ++ b'}' ∷ rest))))
  unfolding dump
  next_field_text j w gs rest = simp append_assoc
