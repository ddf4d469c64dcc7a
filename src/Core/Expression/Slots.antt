-- ===== src/Core/Expression/Slots.antt =====
-- `paletteSlots` of src/core/expression.cpp on text that names slots.
use nova_visualiser.Prelude.{
  ◌≡◌, refl, sym, ap, ◌∙◌, true, false, List, [], ◌∷◌, ◌++◌, append_assoc, append-nil, ℕ, Bytes,
  codes, All, bytes_eq,
}
use nova_visualiser.Core.Expression.{
  is_identifier_char, split_parts, slot_behind, slots_of, palette_slots,
}

abbrev pub IsName : Bytes → Type 0
IsName text = All (λ c. is_identifier_char c ≡ true) text

split_parts-IsName :
    (current name rest : Bytes) (c : ℕ)
    → IsName name
    → is_identifier_char c ≡ false
    → split_parts current (name ++ c ∷ rest) ≡ (current ++ name) ∷ split_parts [] rest
unfolding split_parts
split_parts-IsName current [] rest c h k =
    rw (k, split_parts) (ap (λ p. p ∷ split_parts [] rest) (sym (append-nil current)))
split_parts-IsName current (n ∷ name) rest c h k =
    rw (h.0, split_parts)
      (split_parts-IsName (current ++ n ∷ []) name rest c h.1 k
        ∙ ap (λ p. p ∷ split_parts [] rest) (append_assoc current (n ∷ []) name))

-- A reference to a slot, and the byte behind it.
abbrev pub print_slot : Bytes → ℕ → Bytes → Bytes
print_slot name c rest = codes "palette" ++ b'.' ∷ (name ++ c ∷ rest)

-- References to slots, each behind a separator that is no part of a name.
abbrev pub print_slots : List Bytes → ℕ → Bytes
print_slots [] c = []
print_slots (name ∷ names) c = print_slot name c (print_slots names c)

-- A name of a slot: not empty, and not itself `palette`.
abbrev pub IsSlot : Bytes → Type 0
IsSlot [] = ⊥
IsSlot (n ∷ name) = IsName (n ∷ name) × (bytes_eq (n ∷ name) (codes "palette") ≡ false)

palette-IsName : IsName (codes "palette")
unfolding is_identifier_char
palette-IsName = (refl, (refl, (refl, (refl, (refl, (refl, (refl, tt)))))))

dot-separates : is_identifier_char b'.' ≡ false
unfolding is_identifier_char
dot-separates = refl

split_parts-print_slot :
    (name rest : Bytes) (c : ℕ)
    → IsName name
    → is_identifier_char c ≡ false
    → split_parts [] (print_slot name c rest) ≡ codes "palette" ∷ name ∷ split_parts [] rest
split_parts-print_slot name rest c h k =
    split_parts-IsName [] (codes "palette") (name ++ c ∷ rest) b'.' palette-IsName dot-separates
    ∙ ap (codes "palette" ∷◌) (split_parts-IsName [] name rest c h k)

slot_behind_palette :
    (n : ℕ) (name : Bytes) (parts : List Bytes)
    → slot_behind (codes "palette") ((n ∷ name) ∷ parts) ≡ (n ∷ name) ∷ []
unfolding slot_behind bytes_eq
slot_behind_palette n name parts = refl

slot_behind_other :
    (part : Bytes) (parts : List Bytes)
    → bytes_eq part (codes "palette") ≡ false
    → slot_behind part parts ≡ []
unfolding slot_behind
slot_behind_other part [] h = refl
slot_behind_other part ([] ∷ rest) h = refl
slot_behind_other part ((c ∷ cs) ∷ rest) h = rw h refl

-- From text that names slots, each as `palette.` and its name behind it, `paletteSlots` reads the
-- names in their order, if no name is empty or `palette` and a byte that is no part of a name stands
-- behind each.
pub palette_slots-print_slots :
    (names : List Bytes) (c : ℕ)
    → All IsSlot names
    → is_identifier_char c ≡ false
    → palette_slots (print_slots names c) ≡ names
unfolding palette_slots slots_of
palette_slots-print_slots [] c h k = unfold split_parts slot_behind in refl
palette_slots-print_slots ([] ∷ names) c h k = absurd h.0
palette_slots-print_slots ((n ∷ name) ∷ names) c h k =
    ap slots_of (split_parts-print_slot (n ∷ name) (print_slots names c) c h.0.0 k)
    ∙ ap (λ s. s ++ slots_of ((n ∷ name) ∷ split_parts [] (print_slots names c)))
        (slot_behind_palette n name (split_parts [] (print_slots names c)))
    ∙ ap (λ s. (n ∷ name) ∷ (s ++ slots_of (split_parts [] (print_slots names c))))
        (slot_behind_other (n ∷ name) (split_parts [] (print_slots names c)) h.0.1)
    ∙ ap ((n ∷ name) ∷◌) (palette_slots-print_slots names c h.1 k)
