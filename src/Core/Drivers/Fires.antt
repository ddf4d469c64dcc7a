-- ===== src/Core/Drivers/Fires.antt =====
-- The events that a driver fires on (`driverFiresOn` of src/core/parameter_drivers.cpp).
use nova_visualiser.Prelude.{
  ℕ, zero, suc, ◌+◌, ◌-◌, ◌%◌, ◌≤◌, ◌<◌, ◌≡◌, ◌⊎◌, refl, sym, ap, ◌∙◌, Bool, true, false, arith,
  inl, inr, if◌then◌else◌, ◌==◌, ==_iff,
}
use nova_visualiser.Prelude.Int.{
  ℤ, pos, negsuc, pos_part, max_ℤ, min_ℤ, rem_ℤ, eq_ℤ, sub_ℕ, neg_part, ◌-ℤ◌, ◌+ℤ◌,
}
use nova_visualiser.Core.Drivers.{driver_fires_on}
use native.Mathlib.Nat.{
  mod-lt, mod-mod, mod_self, mod-eq_of_lt, add-mod_right, suc-mod, mod-eq-sub-mod, mod-one,
  zero-mod, zero-lt-suc,
}

abbrev the : (A : Type 0) → A → A
the A a = a

-- The remainder that is not negative
abbrev euclid : ℤ → ℕ → ℕ
euclid (pos n) c = n % c
euclid (negsuc n) c = c - 1 - n % c

cases_lt : (m c : ℕ) → m < suc c → (suc m ≡ suc c) ⊎ (suc m < suc c)
cases_lt m c h = omega arith

suc_mod :
    (n c : ℕ)
    → ((suc (n % suc c) ≡ suc c) × (suc n % suc c ≡ 0))
      ⊎ ((suc (n % suc c) < suc c) × (suc n % suc c ≡ suc (n % suc c)))
suc_mod n c = elim (cases_lt (n % suc c) c (mod-lt n (zero-lt-suc c))) [
  | inl e ↦ inl (e, suc-mod n (suc c) ∙ ap (λ x. x % suc c) e ∙ mod_self (suc c))
  | inr l ↦ inr (l, suc-mod n (suc c) ∙ mod-eq_of_lt l)
]

next_int : ℤ → ℤ
next_int (pos n) = pos (suc n)
next_int (negsuc zero) = pos 0
next_int (negsuc (suc n)) = negsuc n

euclid-lt : (z : ℤ) (c : ℕ) → euclid z (suc c) < suc c
euclid-lt (pos n) c = mod-lt n (zero-lt-suc c)
euclid-lt (negsuc n) c = omega arith

sub_ℕ-zero : (a : ℕ) → sub_ℕ a 0 ≡ pos a
sub_ℕ-zero a = ground arith

zero-sub_ℕ : (a : ℕ) → sub_ℕ 0 (suc a) ≡ negsuc a
zero-sub_ℕ a = ground arith

zero-add_cycle : (c : ℕ) → sub_ℕ 0 0 +ℤ pos (suc c) ≡ pos (suc c)
unfolding ◌+ℤ◌
zero-add_cycle c = ground arith

add_cycle : (r c : ℕ) → suc r < suc c → negsuc r +ℤ pos (suc c) ≡ pos (suc c - suc r)
unfolding ◌+ℤ◌
add_cycle r c h = ground arith

rem_again :
    (z : ℤ) (c : ℕ) → rem_ℤ (rem_ℤ z (suc c) +ℤ pos (suc c)) (suc c) ≡ pos (euclid z (suc c))
unfolding rem_ℤ ◌+ℤ◌
rem_again (pos n) c =
    ap (λ z. rem_ℤ z (suc c)) (sub_ℕ-zero (n % suc c + suc c))
    ∙ ap pos (add-mod_right (n % suc c) (suc c) ∙ mod-mod n (suc c))
rem_again (negsuc n) c = elim (suc_mod n c) [
  | inl (e, f) ↦
      ap (λ r. rem_ℤ (sub_ℕ 0 r +ℤ pos (suc c)) (suc c)) f
      ∙ ap (λ z. rem_ℤ z (suc c)) (zero-add_cycle c)
      ∙ ap pos (mod_self (suc c) ∙ omega arith)
  | inr (l, f) ↦
      ap (λ r. rem_ℤ (sub_ℕ 0 r +ℤ pos (suc c)) (suc c)) f
      ∙ ap (λ z. rem_ℤ (z +ℤ pos (suc c)) (suc c)) (zero-sub_ℕ (n % suc c))
      ∙ ap (λ z. rem_ℤ z (suc c)) (add_cycle (n % suc c) c l)
      ∙ ap pos (mod-eq_of_lt {n = suc c - suc (n % suc c)} (omega arith) ∙ omega arith)
]

euclid-next_int : (z : ℤ) (c : ℕ) → euclid (next_int z) (suc c) ≡ suc (euclid z (suc c)) % suc c
unfolding next_int
euclid-next_int (pos n) c = suc-mod n (suc c)
euclid-next_int (negsuc zero) c =
    rw (zero-mod (suc c)) (
      sym (mod_self (suc c))
      ∙ ap (λ x. x % suc c) (the (suc c ≡ suc (suc c - 1 - 0)) (omega arith)))
euclid-next_int (negsuc (suc n)) c = elim (suc_mod n c) [
  | inl (e, f) ↦ rw f (
      the (suc c - 1 - n % suc c ≡ 0) (omega arith)
      ∙ sym (mod_self (suc c))
      ∙ ap (λ x. x % suc c) (the (suc c ≡ suc (suc c - 1 - 0)) (omega arith)))
  | inr (l, f) ↦ rw f (
      sym (mod-eq_of_lt {n = suc c - 1 - n % suc c} (omega arith))
      ∙ ap (λ x. x % suc c)
          (the (suc c - 1 - n % suc c ≡ suc (suc c - 1 - suc (n % suc c))) (omega arith)))
]

sub_cases : (a b : ℕ) → (b ≤ a) ⊎ ((b ≡ suc a) ⊎ (suc a < b))
sub_cases a b = omega arith

sub_ℕ-below : (a b : ℕ) → b ≤ a → sub_ℕ a b ≡ pos (a - b)
sub_ℕ-below a b h = ground arith

sub_ℕ-above : (a b : ℕ) → a < b → sub_ℕ a b ≡ negsuc (b - a - 1)
sub_ℕ-above a b h = ground arith

next_int-sub_ℕ : (a b : ℕ) → sub_ℕ (suc a) b ≡ next_int (sub_ℕ a b)
unfolding next_int
next_int-sub_ℕ a b = elim (sub_cases a b) [
  | inl h ↦
      sub_ℕ-below (suc a) b (omega arith)
      ∙ ap pos (the (suc a - b ≡ suc (a - b)) (omega arith))
      ∙ ap next_int (sym (sub_ℕ-below a b h))
  | inr (inl e) ↦
      sub_ℕ-below (suc a) b (omega arith)
      ∙ ap pos (the (suc a - b ≡ 0) (omega arith))
      ∙ ap (λ n. next_int (negsuc n)) (the (0 ≡ b - a - 1) (omega arith))
      ∙ ap next_int (sym (sub_ℕ-above a b (omega arith)))
  | inr (inr h) ↦
      sub_ℕ-above (suc a) b h
      ∙ ap (λ n. next_int (negsuc n)) (the (suc (b - suc a - 1) ≡ b - a - 1) (omega arith))
      ∙ ap next_int (sym (sub_ℕ-above a b (omega arith)))
]

next_int-add : (z : ℤ) (k : ℕ) → z +ℤ pos (suc k) ≡ next_int (z +ℤ pos k)
unfolding ◌+ℤ◌
next_int-add z k =
    ap (λ m. sub_ℕ m (neg_part z + 0)) (omega arith)
    ∙ next_int-sub_ℕ (pos_part z + k) (neg_part z + 0)

add-zero_int : (z : ℤ) → z +ℤ pos 0 ≡ z
unfolding ◌+ℤ◌
add-zero_int z = ground arith

-- `k` events further on
euclid-add : (z : ℤ) (c k : ℕ) → euclid (z +ℤ pos k) (suc c) ≡ (euclid z (suc c) + k) % suc c
euclid-add z c zero =
    ap (λ x. euclid x (suc c)) (add-zero_int z)
    ∙ sym (mod-eq_of_lt (euclid-lt z c))
    ∙ ap (λ x. x % suc c) (omega arith)
euclid-add z c (suc k) =
    ap (λ x. euclid x (suc c)) (next_int-add z k)
    ∙ euclid-next_int (z +ℤ pos k) c
    ∙ ap (λ x. suc x % suc c) (euclid-add z c k)
    ∙ sym (suc-mod (euclid z (suc c) + k) (suc c))
    ∙ ap (λ x. x % suc c) (omega arith)

cases_sum : (e j c : ℕ) → e < c → j < c → (e + j < c) ⊎ ((c ≤ e + j) × (e + j - c < c))
cases_sum e j c p q = omega arith

-- The event, counted from one with remainder `e`, at which the remainder is 0
abbrev due : ℕ → ℕ → ℕ
due e c = (c - e) % c

due-cases :
    (e c : ℕ)
    → e < suc c
    → ((e ≡ 0) × (due e (suc c) ≡ 0)) ⊎ ((zero < e) × (due e (suc c) ≡ suc c - e))
due-cases zero c h =
    inl (refl, ap (λ x. x % suc c) (the (suc c - 0 ≡ suc c) (omega arith)) ∙ mod_self (suc c))
due-cases (suc e) c h = inr (omega arith, mod-eq_of_lt (omega arith))

due-fires : (e c : ℕ) → e < suc c → (e + due e (suc c)) % suc c ≡ 0
due-fires e c h = elim (due-cases e c h) [
  | inl (z, p) ↦ rw (p, z) (zero-mod (suc c))
  | inr (l, p) ↦
      rw p (ap (λ x. x % suc c) (the (e + (suc c - e) ≡ suc c) (omega arith)) ∙ mod_self (suc c))
]

due-alone : (e c j : ℕ) → e < suc c → j < suc c → (e + j) % suc c ≡ 0 → j ≡ due e (suc c)
due-alone e c j h l f = elim (cases_sum e j (suc c) h l) [
  | inl below ↦
      let sum : e + j ≡ 0 = sym (mod-eq_of_lt below) ∙ f in
      elim (due-cases e c h) [ inl (z, p) ↦ rw p (omega arith) | inr (q, p) ↦ absurd (omega arith) ]
  | inr (above, rest) ↦
      let sum : e + j - suc c ≡ 0 = sym (mod-eq-sub-mod above ∙ mod-eq_of_lt rest) ∙ f in
      elim (due-cases e c h) [ inl (z, p) ↦ absurd (omega arith) | inr (q, p) ↦ rw p (omega arith) ]
]

pos-suc : (every : ℤ) → (c : ℕ) × (max_ℤ (pos 1) every ≡ pos (suc c))
pos-suc (negsuc n) = (0, ground arith)
pos-suc (pos zero) = (0, refl)
pos-suc (pos (suc zero)) = (0, refl)
pos-suc (pos (suc (suc n))) = (suc n, ground arith)

-- `driverFiresOn` behind its first two lines
abbrev phase_in : ℤ → ℤ → ℤ
phase_in cycle offset = max_ℤ (pos 0) (min_ℤ (cycle -ℤ pos 1) offset)

abbrev fires_in : ℤ → ℤ → Bool
fires_in z cycle =
    if eq_ℤ cycle (pos 1)
    then true
    else eq_ℤ (rem_ℤ (rem_ℤ z (pos_part cycle) +ℤ cycle) (pos_part cycle)) (pos 0)

shifted : (index phase : ℤ) (k : ℕ) → (index +ℤ pos k) -ℤ phase ≡ (index -ℤ phase) +ℤ pos k
unfolding ◌+ℤ◌ ◌-ℤ◌
shifted index phase k = ground arith

not_one : (c : ℕ) → eq_ℤ (pos (suc (suc c))) (pos 1) ≡ false
not_one c = ground arith

fires_in-euclid : (z : ℤ) (c : ℕ) → fires_in z (pos (suc c)) ≡ (euclid z (suc c) % suc c == 0)
fires_in-euclid z zero = rw (mod-one (euclid z 1)) refl
fires_in-euclid z (suc c) = rw (not_one c) (
    ap (λ r. eq_ℤ r (pos 0)) (rem_again z (suc c))
    ∙ ap (λ r. r == 0) (sym (mod-eq_of_lt (euclid-lt z (suc c)))))

fires_at :
    (index every offset : ℤ) (c k : ℕ)
    → max_ℤ (pos 1) every ≡ pos (suc c)
    → driver_fires_on (index +ℤ pos k) every offset
      ≡ ((euclid (index -ℤ phase_in (pos (suc c)) offset) (suc c) + k) % suc c == 0)
unfolding driver_fires_on
fires_at index every offset c k h =
    ap (λ cycle. fires_in ((index +ℤ pos k) -ℤ phase_in cycle offset) cycle) h
    ∙ ap (λ z. fires_in z (pos (suc c))) (shifted index (phase_in (pos (suc c)) offset) k)
    ∙ fires_in-euclid ((index -ℤ phase_in (pos (suc c)) offset) +ℤ pos k) c
    ∙ ap (λ r. r == 0)
        (ap (λ r. r % suc c) (euclid-add (index -ℤ phase_in (pos (suc c)) offset) c k)
          ∙ mod-mod (euclid (index -ℤ phase_in (pos (suc c)) offset) (suc c) + k) (suc c))

-- Among any max(1, every) events in a row, the first one with any index, negative ones too, and
-- whatever the offset is, a driver fires on one and on no other.
pub driver_fires_on-once :
    (index every offset : ℤ)
    → (k : ℕ) × ((k < pos_part (max_ℤ (pos 1) every))
        × ((driver_fires_on (index +ℤ pos k) every offset ≡ true)
            × ((j : ℕ)
                → j < pos_part (max_ℤ (pos 1) every)
                → driver_fires_on (index +ℤ pos j) every offset ≡ true
                → j ≡ k)))
driver_fires_on-once index every offset =
    let (c, h) = pos-suc every in
    let start = euclid (index -ℤ phase_in (pos (suc c)) offset) (suc c) in
    let bound = euclid-lt (index -ℤ phase_in (pos (suc c)) offset) c in
    rw h (
      due start (suc c),
      (
        mod-lt (suc c - start) (zero-lt-suc c),
        (
          fires_at index every offset c (due start (suc c)) h
              ∙ (==_iff ((start + due start (suc c)) % suc c) 0).1 (due-fires start c bound),
          λ j l f.
              due-alone start c j bound l
                ((==_iff ((start + j) % suc c) 0).0 (sym (fires_at index every offset c j h) ∙ f)),
        ),
      ),
    )
