-- ===== src/Core/Json/Bounds.antt =====
-- How much text the parts of the parser leave, those below `parseValue`.
use nova_visualiser.Prelude.{
  ℕ, zero, suc, ◌+◌, ◌*◌, ◌≤◌, ◌<◌, ◌≡◌, Bool, Option, none, some, [], ◌∷◌, ◌++◌, length, arith,
  Bool-cases, Option-cases, inl, inr, ◌==◌, Bytes, codes,
}
use nova_visualiser.Core.Json.{NumberText}
use nova_visualiser.Core.Json.Parser.{
  Parser, Loop, hex_next, plain_char, escape_char, string_char, string_body, Consumed, took, kept,
  skip_spaces, eat, consume, after_word, hex_digits, low_half, unicode_escape, string_loop,
  parse_string, number_run, after_sign, true_or_more, false_or_more, null_or_number, number_from,
  parse_number, parse_scalar, hex_value, plain_escape,
}

-- A result is there, and leaves at most `n` bytes.
abbrev pub Within {ℓ} : {A : Type ℓ} → ℕ → Option (A × Parser) → Type 0
Within n none = ⊥
Within n (some (a, q)) = length q.rest ≤ n

-- A character was taken, or spaces at most.
abbrev pub Eats : ℕ → Consumed → Type 0
Eats n (took q) = length q.rest < n
Eats n (kept q) = length q.rest ≤ n

pub skip_spaces-le : (r : Bytes) → length (skip_spaces r) ≤ length r
unfolding skip_spaces
skip_spaces-le [] = omega arith
skip_spaces-le (c ∷ cs) = ground (arith, skip_spaces-le cs)

pub eat-Eats : (c : ℕ) (failed : Bool) (r : Bytes) → Eats (length r) (eat c failed r)
unfolding eat
eat-Eats c failed [] = omega arith
eat-Eats c failed (d ∷ ds) = ground arith

pub Eats-mono : {m n : ℕ} (a : Consumed) → m ≤ n → Eats m a → Eats n a
Eats-mono (took q) h e = omega arith
Eats-mono (kept q) h e = omega arith

pub consume-Eats : (c : ℕ) (p : Parser) → Eats (length p.rest) (consume c p)
unfolding consume
consume-Eats c p =
    Eats-mono (eat c p.failed (skip_spaces p.rest)) (skip_spaces-le p.rest)
      (eat-Eats c p.failed (skip_spaces p.rest))

pub after_word-le : (w r : Bytes) {s : Bytes} → after_word w r ≡ some s → length s ≤ length r
unfolding after_word
after_word-le [] r e = ground arith
after_word-le (w ∷ ws) [] e = cc
after_word-le (w ∷ ws) (c ∷ cs) {s} e = ground (arith, after_word-le ws cs {s = s})

pub hex_next-le :
    (more : ℕ → ℕ × Bytes × Bool) (value : ℕ) (r : Bytes) (o : Option ℕ)
    → ((v : ℕ) → length (more v).1 ≤ length r)
    → length (hex_next more value r o).1 ≤ length r
unfolding hex_next
hex_next-le more value r none h = omega arith
hex_next-le more value r (some d) h = h (value * 16 + d)

pub hex_digits-le :
    (left value : ℕ) (r : Bytes) (failed : Bool)
    → length (hex_digits left value r failed).1 ≤ length r
unfolding hex_digits
hex_digits-le zero value r failed = omega arith
hex_digits-le (suc left) value [] failed = omega arith
hex_digits-le (suc left) value (c ∷ cs) failed =
    hex_next-le (λ v. hex_digits left v cs failed) value (c ∷ cs) (hex_value c)
      λ v. omega (arith, hex_digits-le left v cs failed)

pub low_half-le :
    (out : Bytes) (code : ℕ) (r : Bytes) (failed : Bool)
    → length (low_half out code r failed).1 ≤ length r
unfolding low_half
low_half-le out code (a ∷ b ∷ cs) failed = ground (arith, hex_digits-le 4 0 cs failed)
low_half-le out code [] failed = omega arith
low_half-le out code (a ∷ []) failed = omega arith

pub unicode_escape-le :
    (out r : Bytes) (failed : Bool) → length (unicode_escape out r failed).1 ≤ length r
unfolding unicode_escape
unicode_escape-le out r failed =
    let after = hex_digits 4 0 r failed in
    omega (arith, hex_digits-le 4 0 r failed, low_half-le out after.0 after.1 after.2)

pub Within-mono {ℓ} :
    {A : Type ℓ} {m n : ℕ} (o : Option (A × Parser)) → m ≤ n → Within m o → Within n o
Within-mono none h w = w
Within-mono (some (a, q)) h w = omega arith

-- The rest of a loop gives a result on all that is no longer than `n`.
abbrev pub LoopWithin : ℕ → Loop → Type 0
LoopWithin n more =
    (out r : Bytes) (failed : Bool) → length r ≤ n → Within (length r) (more out r failed)

module _ (n : ℕ) (more : Loop) (within : LoopWithin n more) where
  pub more-Within :
      (out r : Bytes) (failed : Bool) (m : ℕ)
      → length r ≤ n
      → length r ≤ m
      → Within m (more out r failed)
  more-Within out r failed m h k = Within-mono (more out r failed) k (within out r failed h)

  pub plain_char-Within :
      (out es : Bytes) (failed : Bool) (o : Option ℕ)
      → length es ≤ n
      → Within (length es) (plain_char more out es failed o)
  unfolding plain_char
  plain_char-Within out es failed none h = omega arith
  plain_char-Within out es failed (some d) h = within (out ++ d ∷ []) es failed h

  pub escape_char-Within :
      (out cs : Bytes) (failed : Bool)
      → length cs ≤ n
      → Within (length cs) (escape_char more out cs failed)
  unfolding escape_char
  escape_char-Within out [] failed h = omega arith
  escape_char-Within out (e ∷ es) failed h = elim (Bool-cases (e == b'u')) [
    | inl u ↦ rw u (
        let after = unicode_escape out es failed in
        let le = unicode_escape-le out es failed in
        more-Within after.0 after.1 after.2 _ (omega arith) (omega arith))
    | inr u ↦ rw u (
        Within-mono (plain_char more out es failed (plain_escape e)) (omega arith)
          (plain_char-Within out es failed (plain_escape e) (omega arith)))
  ]

  pub string_char-Within :
      (out : Bytes) (c : ℕ) (cs : Bytes) (failed : Bool)
      → length cs ≤ n
      → Within (suc (length cs)) (string_char more out c cs failed)
  unfolding string_char
  string_char-Within out c cs failed h = elim (Bool-cases (c == b'"')) [
    | inl q ↦ rw q (omega arith)
    | inr q ↦ elim (Bool-cases (c == b'\\')) [
      | inl e ↦
          rw (q, e)
            (Within-mono (escape_char more out cs failed) (omega arith)
              (escape_char-Within out cs failed h))
      | inr e ↦ rw (q, e) (more-Within (out ++ c ∷ []) cs failed _ h (omega arith))
    ]
  ]

pub string_loop-Within :
    (f : ℕ) (out r : Bytes) (failed : Bool)
    → length r < f
    → Within (length r) (string_loop f out r failed)
unfolding string_loop
string_loop-Within zero out r failed h = absurd (omega arith)
string_loop-Within (suc f) out [] failed h = omega arith
string_loop-Within (suc f) out (c ∷ cs) failed h =
    string_char-Within (length cs) (string_loop f)
      (λ out' r g k. string_loop-Within f out' r g (omega arith)) out c cs failed (omega arith)

pub string_body-Within : (n : ℕ) (a : Consumed) → Eats n a → Within n (string_body a)
unfolding string_body
string_body-Within n (kept q) h = h
string_body-Within n (took q) h =
    Within-mono (string_loop (suc (length q.rest)) [] q.rest q.failed) (omega arith)
      (string_loop-Within (suc (length q.rest)) [] q.rest q.failed (omega arith))

pub parse_string-Within : (p : Parser) → Within (length p.rest) (parse_string p)
unfolding parse_string
parse_string-Within p = string_body-Within (length p.rest) (consume b'"' p) (consume-Eats b'"' p)

pub number_run-le : (r : Bytes) → length (number_run r).1 ≤ length r
unfolding number_run
number_run-le [] = omega arith
number_run-le (c ∷ cs) = ground (arith, number_run-le cs)

pub after_sign-le : (r : Bytes) → length (after_sign r).1 ≤ length r
unfolding after_sign
after_sign-le [] = omega arith
after_sign-le (c ∷ cs) = ground (arith, number_run-le cs, number_run-le (c ∷ cs))

module _ {N : Type 0} (text : NumberText N) where
  pub number_from-le :
      (p : Parser) (chunk r : Bytes)
      → length r ≤ length p.rest
      → length (number_from text p chunk r).1.rest ≤ length p.rest
  unfolding number_from
  number_from-le p [] r h = omega arith
  number_from-le p (c ∷ cs) r h = h

  pub parse_scalar-le : (p : Parser) → length (parse_scalar text p).1.rest ≤ length p.rest
  unfolding parse_scalar parse_number true_or_more false_or_more null_or_number
  parse_scalar-le p = elim (Option-cases (after_word (codes "true") p.rest)) [
    | inr (r, e) ↦ rw (e, true_or_more) (after_word-le (codes "true") p.rest e)
    | inl e ↦ elim (Option-cases (after_word (codes "false") p.rest)) [
      | inr (r, e') ↦
          rw (e, true_or_more, e', false_or_more) (after_word-le (codes "false") p.rest e')
      | inl e' ↦ elim (Option-cases (after_word (codes "null") p.rest)) [
        | inr (r, e'') ↦
            rw (e, true_or_more, e', false_or_more, e'', null_or_number)
              (after_word-le (codes "null") p.rest e'')
        | inl e'' ↦
            rw (e, true_or_more, e', false_or_more, e'', null_or_number)
              (number_from-le p (after_sign p.rest).0 (after_sign p.rest).1 (after_sign-le p.rest))
      ]
    ]
  ]
