-- ===== src/Service/Options/Sizes.antt =====
-- The sizes that an accepted command line asks for.
use nova_visualiser.Prelude.{
  ℕ, ◌%◌, ◌≡◌, refl, true, ◌&&◌, Option, none, some, List, [], ◌∷◌, Bytes, bytes_eq, ◌==◌,
  Bool-cases, inl, inr, All,
}
use nova_visualiser.Net.Text.{cut}
use nova_visualiser.Net.Numbers.{atoi_bits}
use nova_visualiser.Service.Options.{
  Floats, Options, unknown_option, Assigned, no_flag, rejected, assigned, Parsed, fails, succeeds,
  is_positive, sizes, size_parts, parse_size, render_size, publish_size, Branch, valued, plain,
  run_branch, finish, after_flag, parse_args, defaults,
}

abbrev SizedPair : Option (ℕ × ℕ) → Type 0
SizedPair none = Unit {0}
SizedPair (some (width, height)) = (is_positive width && is_positive height) ≡ true

sizes-Sized : (width height : ℕ) → SizedPair (sizes width height)
unfolding sizes
sizes-Sized width height = elim (Bool-cases (is_positive width && is_positive height)) [
  | inl e ↦ rw e e
  | inr e ↦ rw e tt
]

size_parts-Sized : (found : Option (Bytes × Bytes)) → SizedPair (size_parts found)
unfolding size_parts
size_parts-Sized none = tt
size_parts-Sized (some (width, height)) = sizes-Sized (atoi_bits width) (atoi_bits height)

module _ {D : Type 0} where
  -- Both sizes are positive ints.
  abbrev pub Sized : Options D → Type 0
  Sized o =
      ((is_positive o.width && is_positive o.height) ≡ true)
      × ((is_positive o.publish_width && is_positive o.publish_height) ≡ true)

  abbrev SizedAssigned : Assigned D → Type 0
  SizedAssigned no_flag = Unit {0}
  SizedAssigned (rejected message) = Unit
  SizedAssigned (assigned o) = Sized o

  -- Options that are accepted have positive sizes, and a render size that is even in both axes.
  abbrev pub Accepts : Parsed D → Type 0
  Accepts (fails message) = Unit {0}
  Accepts (succeeds o) = Sized o × (((o.width % 2 == 0) && (o.height % 2 == 0)) ≡ true)

  abbrev SizedBranch : Branch D → Type 0
  SizedBranch b = (value : Bytes) (o : Options D) → Sized o → SizedAssigned (b.run value o)

  render_size-Sized :
      (o : Options D) (pair : Option (ℕ × ℕ))
      → SizedPair pair
      → Sized o
      → SizedAssigned (render_size pair o)
  unfolding render_size
  render_size-Sized o none h k = tt
  render_size-Sized o (some (width, height)) h k = (h, k.1)

  publish_size-Sized :
      (o : Options D) (pair : Option (ℕ × ℕ))
      → SizedPair pair
      → Sized o
      → SizedAssigned (publish_size pair o)
  unfolding publish_size
  publish_size-Sized o none h k = tt
  publish_size-Sized o (some (width, height)) h k = (k.0, h)

  run_branch-Sized :
      (bs : List (Branch D)) (flag value : Bytes) (o : Options D)
      → All SizedBranch bs
      → Sized o
      → SizedAssigned (run_branch bs flag value o)
  unfolding run_branch
  run_branch-Sized [] flag value o h k = tt
  run_branch-Sized (b ∷ bs) flag value o h k = elim (Bool-cases (bytes_eq flag b.flag)) [
    | inl e ↦ rw e (h.0 value o k)
    | inr e ↦ rw e (run_branch-Sized bs flag value o h.1 k)
  ]

  after_flag-Accepts :
      (a : Assigned D) (next : Options D → Parsed D) (other : Parsed D)
      → SizedAssigned a
      → ((o : Options D) → Sized o → Accepts (next o))
      → Accepts other
      → Accepts (after_flag a next other)
  unfolding after_flag
  after_flag-Accepts no_flag next other h k l = l
  after_flag-Accepts (rejected message) next other h k l = tt
  after_flag-Accepts (assigned o) next other h k l = k o h

  finish-Accepts : (o : Options D) → Sized o → Accepts (finish o)
  unfolding finish
  finish-Accepts o h = elim (Bool-cases ((o.width % 2 == 0) && (o.height % 2 == 0))) [
    | inl e ↦ rw e (h, e)
    | inr e ↦ rw e tt
  ]

plain-Sized : (D : Type 0) → All (SizedBranch {D = D}) plain
unfolding plain
plain-Sized D = (λ v o h. h, (λ v o h. h, (λ v o h. h, (λ v o h. tt, (λ v o h. tt, tt)))))

module _ {D : Type 0} (floats : Floats D) where
  valued-Sized : All SizedBranch (valued floats)
  unfolding valued parse_size
  valued-Sized = (
    λ v o h. h,
    (
      λ v o h. h,
      (
        λ v o h. h,
        (
          λ v o h. h,
          (
            λ v o h. h,
            (
              λ v o h.
                  render_size-Sized o (size_parts (cut b'x' v)) (size_parts-Sized (cut b'x' v)) h,
              (
                λ v o h. h,
                (
                  λ v o h. h,
                  (
                    λ v o h. h,
                    (
                      λ v o h.
                          publish_size-Sized o (size_parts (cut b'x' v))
                            (size_parts-Sized (cut b'x' v)) h,
                      (
                        λ v o h. h,
                        (
                          λ v o h. h,
                          (
                            λ v o h. h,
                            (
                              λ v o h. h,
                              (λ v o h. h, (λ v o h. h, (λ v o h. h, (λ v o h. h, tt)))),
                            ),
                          ),
                        ),
                      ),
                    ),
                  ),
                ),
              ),
            ),
          ),
        ),
      ),
    ),
  )

  parse_args-Accepts :
      (args : List Bytes) (o : Options D) → Sized o → Accepts (parse_args floats args o)
  unfolding parse_args
  parse_args-Accepts [] o h = finish-Accepts o h
  parse_args-Accepts (flag ∷ []) o h =
      after_flag-Accepts (run_branch plain flag [] o) finish (fails (unknown_option flag))
        (run_branch-Sized plain flag [] o (plain-Sized D) h) finish-Accepts tt
  parse_args-Accepts (flag ∷ value ∷ rest) o h =
      after_flag-Accepts (run_branch (valued floats) flag value o) (parse_args floats rest)
        (after_flag (run_branch plain flag [] o) (parse_args floats (value ∷ rest))
          (fails (unknown_option flag)))
        (run_branch-Sized (valued floats) flag value o valued-Sized h) (parse_args-Accepts rest)
        (after_flag-Accepts (run_branch plain flag [] o) (parse_args floats (value ∷ rest))
          (fails (unknown_option flag)) (run_branch-Sized plain flag [] o (plain-Sized D) h)
          (parse_args-Accepts (value ∷ rest)) tt)

  -- For every command line: `parse` on the default options fails with a message, or the render size
  -- is positive and even in both axes and the size of the browser rung is positive.
  pub parse_args-defaults : (args : List Bytes) → Accepts (parse_args floats args (defaults floats))
  unfolding defaults
  parse_args-defaults args = parse_args-Accepts args (defaults floats) (refl, refl)
