-- ===== src/Core/Json/Total.antt =====
-- The fuel of the parser of src/core/json.cpp, against the text that is left.
use nova_visualiser.Prelude.{
  ℕ, zero, suc, ◌+◌, ◌*◌, ◌≤◌, ◌<◌, ◌≡◌, Bool, true, false, Option, none, some, List, [], ◌∷◌, ◌++◌,
  length, arith, Bool-cases, inl, inr, ◌==◌, Bytes, if◌then◌else◌,
}
use nova_visualiser.Core.Json.{NumberText, Value, Fields, null, emplace, end}
use nova_visualiser.Core.Json.Parser.{
  Parser, Consumed, took, kept, skip, skip_spaces, consume, parse_string, string_value, close_array,
  next_item, after_item, close_object, next_member, after_member, Result, member_value, after_key,
  open_array, open_object, value_at, parse_value, parse_items, parse_members, outcome, parse,
}
use nova_visualiser.Core.Json.Bounds.{
  Within, Eats, skip_spaces-le, Eats-mono, consume-Eats, Within-mono, parse_string-Within,
  parse_scalar-le,
}

module _ {N : Type 0} (text : NumberText N) where
  -- The loops give a result on all that is shorter than `n`, and `parseValue` too.
  abbrev ItemsWithin : ℕ → (List (Value N) → Parser → Result text) → Type 0
  ItemsWithin n more =
      (items : List (Value N)) (p : Parser)
      → length p.rest < n
      → Within (length p.rest) (more items p)

  abbrev MembersWithin : ℕ → (Fields N → Parser → Result text) → Type 0
  MembersWithin n more =
      (fields : Fields N) (p : Parser) → length p.rest < n → Within (length p.rest) (more fields p)

  module _ (n : ℕ) (items : List (Value N) → Parser → Result text)
      (members : Fields N → Parser → Result text) (items_within : ItemsWithin n items)
      (members_within : MembersWithin n members) where
    close_array-Within :
        (vs : List (Value N)) (a : Consumed) → Eats n a → Within n (close_array text vs a)
    unfolding close_array
    close_array-Within vs (took q) h = omega arith
    close_array-Within vs (kept q) h = h

    next_item-Within :
        (vs : List (Value N)) (a : Consumed) → Eats n a → Within n (next_item text items vs a)
    unfolding next_item
    next_item-Within vs (took q) h = Within-mono (items vs q) (omega arith) (items_within vs q h)
    next_item-Within vs (kept q) h =
        close_array-Within vs (consume b']' q) (Eats-mono (consume b']' q) h (consume-Eats b']' q))

    after_item-Within :
        (vs : List (Value N)) (o : Result text) → Within n o → Within n (after_item text items vs o)
    unfolding after_item
    after_item-Within vs none h = h
    after_item-Within vs (some (v, q)) h =
        next_item-Within (vs ++ v ∷ []) (consume b',' q)
          (Eats-mono (consume b',' q) h (consume-Eats b',' q))

    close_object-Within :
        (fs : Fields N) (a : Consumed) → Eats n a → Within n (close_object text fs a)
    unfolding close_object
    close_object-Within fs (took q) h = omega arith
    close_object-Within fs (kept q) h = h

    next_member-Within :
        (fs : Fields N) (a : Consumed) → Eats n a → Within n (next_member text members fs a)
    unfolding next_member
    next_member-Within fs (took q) h =
        Within-mono (members fs q) (omega arith) (members_within fs q h)
    next_member-Within fs (kept q) h =
        close_object-Within fs (consume b'}' q) (Eats-mono (consume b'}' q) h (consume-Eats b'}' q))

    after_member-Within :
        (key : Bytes) (fs : Fields N) (o : Result text)
        → Within n o
        → Within n (after_member text members key fs o)
    unfolding after_member
    after_member-Within key fs none h = h
    after_member-Within key fs (some (v, q)) h =
        next_member-Within (emplace key v fs) (consume b',' q)
          (Eats-mono (consume b',' q) h (consume-Eats b',' q))

    open_array-Within :
        (m : ℕ) (a : Consumed) → m < n → Eats m a → Within n (open_array text items a)
    unfolding open_array
    open_array-Within m (took q) k h = omega arith
    open_array-Within m (kept q) k h =
        Within-mono (items [] q) (omega arith) (items_within [] q (omega arith))

    open_object-Within :
        (m : ℕ) (a : Consumed) → m < n → Eats m a → Within n (open_object text members a)
    unfolding open_object
    open_object-Within m (took q) k h = omega arith
    open_object-Within m (kept q) k h =
        Within-mono (members end q) (omega arith) (members_within end q (omega arith))

    string_value-Within :
        (o : Option (Bytes × Parser)) → Within n o → Within n (string_value text o)
    unfolding string_value
    string_value-Within none h = h
    string_value-Within (some (s, q)) h = h

    value_at-Within :
        (failed : Bool) (r : Bytes) → length r ≤ n → Within n (value_at text items members failed r)
    unfolding value_at
    value_at-Within failed [] h = omega arith
    value_at-Within true (c ∷ r) h = h
    value_at-Within false (c ∷ r) h = elim (Bool-cases (c == b'{')) [
      | inl e ↦ rw e (
          open_object-Within (length r) (consume b'}' inner) (omega arith)
            (consume-Eats b'}' inner))
      | inr e ↦ elim (Bool-cases (c == b'[')) [
        | inl e' ↦
            rw (e, e')
              (open_array-Within (length r) (consume b']' inner) (omega arith)
                (consume-Eats b']' inner))
        | inr e' ↦ elim (Bool-cases (c == b'"')) [
          | inl q ↦
              rw (e, e', q)
                (string_value-Within (parse_string whole)
                  (Within-mono (parse_string whole) h (parse_string-Within whole)))
          | inr q ↦ rw (e, e', q) (omega (arith, parse_scalar-le text whole))
        ]
      ]
    ]
      where
        inner : Parser
        inner = record { rest = r; failed = false }

        whole : Parser
        whole = record { rest = c ∷ r; failed = false }

    module _ (value : Parser → Result text)
        (value_within : (p : Parser) → length p.rest < n → Within (length p.rest) (value p)) where
      member_value-Within :
          (key : Bytes) (fs : Fields N) (a : Consumed)
          → Eats n a
          → Within n (member_value text value members key fs a)
      unfolding member_value
      member_value-Within key fs (kept q) h = h
      member_value-Within key fs (took q) h =
          after_member-Within key fs (value q)
            (Within-mono (value q) (omega arith) (value_within q h))

      after_key-Within :
          (fs : Fields N) (o : Option (Bytes × Parser))
          → Within n o
          → Within n (after_key text value members fs o)
      unfolding after_key
      after_key-Within fs none h = h
      after_key-Within fs (some (key, q)) h = elim (Bool-cases q.failed) [
        | inl e ↦ rw (e, after_key) h
        | inr e ↦ simp e (
            member_value-Within key fs (consume b':' q)
              (Eats-mono (consume b':' q) h (consume-Eats b':' q)))
      ]

  if-Within :
      (n : ℕ) (b : Bool) (x y : Result text)
      → Within n x
      → Within n y
      → Within n (if b then x else y)
  if-Within n true x y h k = h
  if-Within n false x y h k = k

  record EndsAt (f : ℕ) : Type 0 where
    value_ends :
        (p : Parser) → 2 * length p.rest + 1 < f → Within (length p.rest) (parse_value text f p)
    items_end :
        (vs : List (Value N)) (p : Parser)
        → 2 * length p.rest + 2 < f
        → Within (length p.rest) (parse_items text f vs p)
    members_end :
        (fs : Fields N) (p : Parser)
        → 2 * length p.rest + 2 < f
        → Within (length p.rest) (parse_members text f fs p)

  all_end : (f : ℕ) → EndsAt f
  unfolding parse_value
  all_end zero = record {
    value_ends = λ p h. absurd (omega arith);
    items_end = λ vs p h. absurd (omega arith);
    members_end = λ fs p h. absurd (omega arith);
  }
  all_end (suc f) =
      let ih = all_end f in
      record {
        value_ends = λ p h.
            value_at-Within (length p.rest) (parse_items text f) (parse_members text f)
              (λ vs q k. ih.items_end vs q (omega arith))
              (λ fs q k. ih.members_end fs q (omega arith)) p.failed (skip_spaces p.rest)
              (skip_spaces-le p.rest);
        items_end = λ vs p h.
            if-Within (length p.rest) p.failed (some (null, p))
              (after_item text (parse_items text f) vs (parse_value text f p)) (omega arith)
              (after_item-Within (length p.rest) (parse_items text f) (parse_members text f)
                (λ vs q k. ih.items_end vs q (omega arith))
                (λ fs q k. ih.members_end fs q (omega arith)) vs (parse_value text f p)
                (ih.value_ends p (omega arith)));
        members_end = λ fs p h.
            if-Within (length p.rest) p.failed (some (null, p))
              (after_key text (parse_value text f) (parse_members text f) fs
                (parse_string (skip p)))
              (omega arith)
              (after_key-Within (length p.rest) (parse_items text f) (parse_members text f)
                (λ vs q k. ih.items_end vs q (omega arith))
                (λ fs q k. ih.members_end fs q (omega arith)) (parse_value text f)
                (λ q k. ih.value_ends q (omega arith)) fs (parse_string (skip p))
                (Within-mono (parse_string (skip p)) (skip_spaces-le p.rest)
                  (parse_string-Within (skip p))));
      }

  -- For every text the parser ends: `parse` gives a value or says that the text is refused, and the
  -- fuel never runs out.
  pub parse_total : (t : Bytes) → (r : Option (Value N)) × (parse text t ≡ some r)
  unfolding parse outcome
  parse_total t =
      ended (parse_value text (2 * length t + 2) (record { rest = t; failed = false })) (
        (all_end (2 * length t + 2)).value_ends (record { rest = t; failed = false }) (omega arith))
    where
      ended :
          (o : Result text)
          → Within (length t) o
          → (r : Option (Value N)) × (outcome text o ≡ some r)
      ended none h = absurd h
      ended (some (v, q)) h = (if q.failed then none else some v, ground arith)
