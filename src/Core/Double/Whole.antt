-- ===== src/Core/Double/Whole.antt =====
-- A small model of the interface of doubles, on which tests evaluate: whole numbers from 0 on, with
-- `none` for what is not finite. Subtraction stops at 0, and <cmath> is the identity.
use nova_visualiser.Prelude.{
  ℕ, suc, ◌+◌, ◌-◌, ◌*◌, ◌/◌, ◌%◌, Bool, true, false, Option, none, some, Bytes, ◌∷◌, [], ltb, leb,
  ◌==◌, if◌then◌else◌, ◌&&◌,
}
use nova_visualiser.Prelude.Int.{ℤ, pos, pos_part}
use nova_visualiser.Core.Double.{Double}

abbrev pub Whole : Type 0
Whole = Option ℕ

abbrev on_both : (ℕ → ℕ → ℕ) → Whole → Whole → Whole
on_both f (some a) (some b) = some (f a b)
on_both f _ _ = none

abbrev test_both : (ℕ → ℕ → Bool) → Whole → Whole → Bool
test_both f (some a) (some b) = f a b
test_both f _ _ = false

abbrev quotient : Whole → Whole → Whole
quotient (some a) (some (suc b)) = some (a / suc b)
quotient _ _ = none

abbrev remainder : Whole → Whole → Whole
remainder (some a) (some (suc b)) = some (a % suc b)
remainder _ _ = none

abbrev whole_part : Whole → ℤ
whole_part (some a) = pos a
whole_part none = pos 0

abbrev is_some : Whole → Bool
is_some (some a) = true
is_some none = false

-- The digits in front of a literal's point.
abbrev whole_literal : ℕ → Bytes → ℕ
whole_literal n [] = n
whole_literal n (c ∷ cs) =
    let rest = whole_literal (n * 10 + (c - b'0')) cs in
    if leb b'0' c && leb c b'9' then rest else n

instance abbrev pub whole_double : Double Whole
whole_double = record {
  literal = λ t. some (whole_literal 0 t);
  of_int = λ n. some (pos_part n);
  to_int = whole_part;
  to_float = λ a. a;
  infinity = none;
  to_string = λ a. [];
  neg = λ a. on_both (λ m n. m - n) (some 0) a;
  add = on_both (λ m n. m + n);
  sub = on_both (λ m n. m - n);
  mul = on_both (λ m n. m * n);
  div = quotient;
  lt = test_both ltb;
  le = test_both leb;
  eq = test_both (λ m n. m == n);
  is_finite = is_some;
  fabs = λ a. a;
  fmod = remainder;
  pow = λ a b. a;
  sin = λ a. a;
  cos = λ a. a;
  tan = λ a. a;
  sqrt = λ a. a;
  floor = λ a. a;
  ceil = λ a. a;
  round = λ a. a;
  exp = λ a. a;
  log = λ a. a;
}
