-- ===== src/Core/Json/RoundTrip/Scalars.antt =====
-- Reading back the literals and the numbers.
use nova_visualiser.Prelude.{
  ℕ, ◌≡◌, refl, true, false, none, [], ◌∷◌, ◌++◌, arith, Bytes, codes, All,
}
use nova_visualiser.Core.Json.{NumberText, number}
use nova_visualiser.Core.Json.Parser.{
  after_word, is_number_char, number_run, after_sign, number_from, finite_or_zero, parse_number,
  parse_scalar, true_or_more, false_or_more, null_or_number,
}
use nova_visualiser.Core.Json.Printer.{print_number}
use nova_visualiser.Core.Json.RoundTrip.Values.{IsReadBack, Stops}

number_run_lem :
    (chunk rest : Bytes)
    → All (λ c. is_number_char c ≡ true) chunk
    → Stops rest
    → number_run (chunk ++ rest) ≡ (chunk, rest)
unfolding number_run
number_run_lem [] [] h s = refl
number_run_lem [] (c ∷ cs) h s = rw s
number_run_lem (c ∷ cs) rest h s = rw (h.0, number_run_lem cs rest h.1 s)

after_sign_lem :
    (c : ℕ) (cs rest : Bytes)
    → All (λ c. is_number_char c ≡ true) (c ∷ cs)
    → Stops rest
    → after_sign (c ∷ (cs ++ rest)) ≡ (c ∷ cs, rest)
unfolding after_sign
after_sign_lem c cs rest h s =
    ground (arith, number_run_lem cs rest h.1 s, number_run_lem (c ∷ cs) rest h s)

-- A number character begins none of the literals.
no_literal :
    (c : ℕ) (cs : Bytes)
    → is_number_char c ≡ true
    → (after_word (codes "true") (c ∷ cs) ≡ none)
      × (after_word (codes "false") (c ∷ cs) ≡ none)
      × (after_word (codes "null") (c ∷ cs) ≡ none)
unfolding after_word
no_literal c cs h = (ground arith, ground arith, ground arith)

module _ {N : Type 0} (text : NumberText N) where
  pub parse_scalar-number :
      (n : N) (rest : Bytes)
      → IsReadBack text n
      → Stops rest
      → parse_scalar text (record { rest = print_number text n ++ rest; failed = false })
        ≡ (number n, record { rest = rest; failed = false })
  unfolding parse_scalar true_or_more false_or_more null_or_number parse_number number_from
      finite_or_zero
  parse_scalar-number n rest b s =
      let (no_true, no_false, no_null) = no_literal b.first (b.more ++ rest) b.chars.0 in
      rw b.shape (
        rw (no_true, true_or_more, no_false, false_or_more, no_null, null_or_number)
          (rw (after_sign_lem b.first b.more rest b.chars s)
            (rw (← b.shape) (rw b.read (rw b.finite)))))
