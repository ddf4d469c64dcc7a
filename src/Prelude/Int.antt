-- ===== src/Prelude/Int.antt =====
-- Signed integers over the native numbers, for the `int`s of the program that may be negative. Signed
-- overflow is undefined in C++, so an `int` is an integer without a bound.
use nova_visualiser.Prelude.Tests.{ltb, leb, ◌==◌, if◌then◌else◌}
use nova_visualiser.Prelude.Lists.{Bytes}
use Prim.Native.Nat.{ℕ, zero, suc, ◌+◌, ◌-◌, ◌*◌, ◌/◌, ◌%◌, ◌≤◌}
use mathlib.Core.Bool.{Bool, false}
use mathlib.Core.List.{[], ◌∷◌}
use native.Mathlib.Omega.{arith}

-- `negsuc n` is -(n + 1).
pub data ℤ : Type 0 where
  pos : ℕ → ℤ
  negsuc : ℕ → ℤ

abbrev pub pos_part : ℤ → ℕ
pos_part (pos n) = n
pos_part (negsuc n) = 0

abbrev pub neg_part : ℤ → ℕ
neg_part (pos n) = 0
neg_part (negsuc n) = suc n

-- a - b, as an integer.
abbrev pub sub_ℕ : ℕ → ℕ → ℤ
sub_ℕ a b = if leb b a then pos (a - b) else negsuc (b - a - 1)

infixl 65 ◌+ℤ◌ ◌-ℤ◌
infixl 70 ◌*ℤ◌
infix 50 ◌≤ℤ◌
unfoldable pub ◌+ℤ◌ : ℤ → ℤ → ℤ
a +ℤ b = sub_ℕ (pos_part a + pos_part b) (neg_part a + neg_part b)

unfoldable pub ◌-ℤ◌ : ℤ → ℤ → ℤ
a -ℤ b = sub_ℕ (pos_part a + neg_part b) (neg_part a + pos_part b)

unfoldable pub ◌*ℤ◌ : ℤ → ℤ → ℤ
a *ℤ b =
    sub_ℕ (pos_part a * pos_part b + neg_part a * neg_part b)
      (pos_part a * neg_part b + neg_part a * pos_part b)

-- `a % b` of C++ for a positive b: the remainder has the sign of a.
unfoldable pub rem_ℤ : ℤ → ℕ → ℤ
rem_ℤ (pos n) b = pos (n % b)
rem_ℤ (negsuc n) b = sub_ℕ 0 (suc n % b)

-- `a / b` of C++ for a positive b: the quotient is cut towards 0.
unfoldable pub quot_ℤ : ℤ → ℕ → ℤ
quot_ℤ (pos n) b = pos (n / b)
quot_ℤ (negsuc n) b = sub_ℕ 0 (suc n / b)

abbrev pub ◌≤ℤ◌ : ℤ → ℤ → Type 0
a ≤ℤ b = pos_part a + neg_part b ≤ pos_part b + neg_part a

abbrev pub ltb_ℤ : ℤ → ℤ → Bool
ltb_ℤ a b = ltb (pos_part a + neg_part b) (pos_part b + neg_part a)

abbrev pub eq_ℤ : ℤ → ℤ → Bool
eq_ℤ (pos m) (pos n) = m == n
eq_ℤ (negsuc m) (negsuc n) = m == n
eq_ℤ _ _ = false

-- `std::max` and `std::min` of ints.
abbrev pub max_ℤ : ℤ → ℤ → ℤ
max_ℤ a b = if ltb_ℤ a b then b else a

abbrev pub min_ℤ : ℤ → ℤ → ℤ
min_ℤ a b = if ltb_ℤ b a then b else a

pub clamp_bounds :
    (a low high : ℤ)
    → low ≤ℤ high
    → (low ≤ℤ min_ℤ (max_ℤ a low) high) × (min_ℤ (max_ℤ a low) high ≤ℤ high)
clamp_bounds a low high h = ground arith

-- `std::to_string` of an integer; a number has fewer digits than its fuel.
decimal : ℕ → ℕ → Bytes → Bytes
decimal zero n behind = behind
decimal (suc fuel) n behind =
    let shorter = decimal fuel (n / 10) ((b'0' + n % 10) ∷ behind) in
    if ltb n 10 then (b'0' + n) ∷ behind else shorter

unfoldable pub int_text : ℤ → Bytes
unfolding decimal
int_text (pos n) = decimal (suc n) n []
int_text (negsuc n) = b'-' ∷ decimal (suc (suc n)) (suc n) []
