-- ===== src/Core/Json/RoundTrip/Values.antt =====
-- The values whose printed form the parser is held to, how their texts begin and end, and the rounds
-- that reading them takes.
use nova_visualiser.Prelude.{
  ℕ, suc, ◌+◌, ◌≡◌, refl, true, false, [], ◌∷◌, arith, ◌==◌, Bytes, codes, All,
}
use nova_visualiser.Core.Json.{
  NumberText, Value, null, boolean, number, string, array, object, Items, nil, cons, Fields, end,
  field, bytes_lt,
}
use nova_visualiser.Core.Json.Parser.{is_number_char, is_space, skip_spaces, consume, eat, kept}
use nova_visualiser.Core.Json.Printer.{dump, print_number, quoted}

-- Every key in the object is below `k`, or above it.
abbrev pub AllBelow : {N : Type 0} → Bytes → Fields N → Type 0
AllBelow k end = Unit {0}
AllBelow k (field j w rest) = (bytes_lt j k ≡ true) × AllBelow k rest

abbrev pub AllAbove : {N : Type 0} → Bytes → Fields N → Type 0
AllAbove k end = Unit {0}
AllAbove k (field j w rest) = (bytes_lt k j ≡ true) × AllAbove k rest

-- The keys ascend, as those of a std::map do.
abbrev pub Ascending : {N : Type 0} → Fields N → Type 0
Ascending end = Unit {0}
Ascending (field k v rest) = AllAbove k rest × Ascending rest

module _ {N : Type 0} (text : NumberText N) where
  -- The printed number is a non-empty run of number characters, and `strtod` reads it back.
  pub record IsReadBack (n : N) : Type 0 where
    pub first : ℕ
    pub more : Bytes
    pub shape : print_number text n ≡ first ∷ more
    pub chars : All (λ c. is_number_char c ≡ true) (first ∷ more)
    pub read : text.strtod (print_number text n) ≡ n
    pub finite : text.is_finite n ≡ true

  abbrev mutual
    pub Printable : Value N → Type 0
    Printable null = Unit {0}
    Printable (boolean b) = Unit {0}
    Printable (number n) = IsReadBack n
    Printable (string s) = Unit {0}
    Printable (array items) = PrintableItems items
    Printable (object fields) = Ascending fields × PrintableFields fields

    pub PrintableItems : Items N → Type 0
    PrintableItems nil = Unit {0}
    PrintableItems (cons v rest) = Printable v × PrintableItems rest

    pub PrintableFields : Fields N → Type 0
    PrintableFields end = Unit {0}
    PrintableFields (field k v rest) = Printable v × PrintableFields rest

  -- How a printed value begins: with a character that is no space and no closing bracket.
  pub record Opens (v : Value N) : Type 0 where
    pub head : ℕ
    pub behind : Bytes
    pub begins : dump text v ≡ head ∷ behind
    pub no_space : is_space head ≡ false
    pub no_bracket : (head == b']') ≡ false

  literal-Opens :
      (v : Value N) (h : ℕ) (t : Bytes)
      → dump text v ≡ h ∷ t
      → is_space h ≡ false
      → (h == b']') ≡ false
      → Opens v
  literal-Opens v h t e a b = record {
    head = h;
    behind = t;
    begins = e;
    no_space = a;
    no_bracket = b;
  }

  pub number_char_opens :
      (c : ℕ) → is_number_char c ≡ true → (is_space c ≡ false) × ((c == b']') ≡ false)
  number_char_opens c h = ground arith

  pub opens : (v : Value N) → Printable v → Opens v
  unfolding dump quoted
  opens null p = literal-Opens null b'n' (codes "ull") refl refl refl
  opens (boolean true) p = literal-Opens (boolean true) b't' (codes "rue") refl refl refl
  opens (boolean false) p = literal-Opens (boolean false) b'f' (codes "alse") refl refl refl
  opens (number n) p =
      let (a, b) = number_char_opens p.first p.chars.0 in
      literal-Opens (number n) p.first p.more p.shape a b
  opens (string s) p = literal-Opens (string s) b'"' _ refl refl refl
  opens (array items) p = literal-Opens (array items) b'[' _ refl refl refl
  opens (object fields) p = literal-Opens (object fields) b'{' _ refl refl refl

-- What may stand behind a number: nothing, or no number character.
abbrev pub Stops : Bytes → Type 0
Stops [] = Unit {0}
Stops (c ∷ cs) = is_number_char c ≡ false

pub skip_spaces_head : (c : ℕ) (cs : Bytes) → is_space c ≡ false → skip_spaces (c ∷ cs) ≡ c ∷ cs
unfolding skip_spaces
skip_spaces_head c cs h = rw h

-- `consume` finds nothing where another character stands.
pub consume_other :
    (c d : ℕ) (cs : Bytes)
    → is_space d ≡ false
    → (d == c) ≡ false
    → consume c (record { rest = d ∷ cs; failed = false })
      ≡ kept (record { rest = d ∷ cs; failed = false })
unfolding consume eat
consume_other c d cs h k = rw (skip_spaces_head d cs h, eat, k)

-- The rounds that reading a value takes, one for each call of the three functions.
unfoldable mutual
  pub rounds : {N : Type 0} → Value N → ℕ
  rounds null = 1
  rounds (boolean b) = 1
  rounds (number n) = 1
  rounds (string s) = 1
  rounds (array items) = suc (item_rounds items)
  rounds (object fields) = suc (field_rounds fields)

  pub item_rounds : {N : Type 0} → Items N → ℕ
  item_rounds nil = 0
  item_rounds (cons v rest) = suc (rounds v + item_rounds rest)

  pub field_rounds : {N : Type 0} → Fields N → ℕ
  field_rounds end = 0
  field_rounds (field k v rest) = suc (rounds v + field_rounds rest)
