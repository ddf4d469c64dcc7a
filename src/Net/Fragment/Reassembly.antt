-- ===== src/Net/Fragment/Reassembly.antt =====
-- A receiver of fragments, and what it makes of what the server sent.
use nova_visualiser.Prelude.{
  ℕ, zero, suc, ◌+◌, ◌-◌, ◌/◌, ◌%◌, ◌≤◌, ◌<◌, ◌≡◌, refl, sym, ap, ◌∙◌, Bool, true, false, Option,
  none, some, List, [], ◌∷◌, ◌++◌, take, drop, length, Bytes, if◌then◌else◌, leb, ◌==◌, get_or,
  arith, ◌⊎◌, inl, inr, Bool-cases, All, lt→ltb, leb→le, ==_iff, take-append-take-drop, take-all,
  length-take,
}
use nova_visualiser.Net.Wire.{write_big_endian16}
use nova_visualiser.Net.Fragment.{
  payload_bytes, chunk_at, fragment, send_from, then_send, send_access_unit,
}

-- Bit 0 of the flags starts a unit and bit 1 ends it; bytes outside a unit are ignored.
abbrev pub is_first : Bytes → Bool
is_first packet = get_or packet 2 0 % 2 == 1

abbrev pub is_last : Bytes → Bool
is_last packet = get_or packet 2 0 / 2 % 2 == 1

append_to : Option Bytes → Bytes → Option Bytes
append_to none more = none
append_to (some got) more = some (got ++ more)

extend : Option Bytes → Bytes → Option Bytes
unfolding append_to
extend got packet = if is_first packet then some (drop 4 packet) else append_to got (drop 4 packet)

deliver : Bool → Option Bytes → List Bytes → List Bytes
deliver true (some unit) units = unit ∷ units
deliver _ _ units = units

-- The units that a receiver with the bytes `got` in hand completes from a run of packets.
pub received : Option Bytes → List Bytes → List Bytes
unfolding deliver
received got [] = []
received got (p ∷ ps) =
    let now = extend got p in
    deliver (is_last p) now (received (if is_last p then none else now) ps)

-- The flags and the payload of a fragment, read back.
fragment_parts :
    (unit : Bytes) (sequence offset : ℕ)
    → (is_first (fragment unit sequence offset) ≡ (offset == 0))
      × (is_last (fragment unit sequence offset)
          ≡ leb (length unit) (offset + chunk_at unit offset))
      × (drop 4 (fragment unit sequence offset) ≡ take (chunk_at unit offset) (drop offset unit))
unfolding fragment write_big_endian16
fragment_parts unit sequence offset = (ground arith, ground arith, refl)

length-fragment-le :
    (unit : Bytes) (sequence offset : ℕ) → length (fragment unit sequence offset) ≤ payload_bytes
unfolding fragment write_big_endian16
length-fragment-le unit sequence offset =
    omega (arith, length-take (chunk_at unit offset) (drop offset unit))

-- A receiver that holds the bytes before the offset, or anything at offset 0, then holds those up
-- to the end of the fragment.
extend-fragment :
    (got : Option Bytes) (unit : Bytes) (sequence offset : ℕ)
    → (offset ≡ 0) ⊎ (got ≡ some (take offset unit))
    → extend got (fragment unit sequence offset) ≡ some (take (offset + chunk_at unit offset) unit)
unfolding extend
extend-fragment got unit sequence offset h = elim (Bool-cases (offset == 0)) [
  | inl z ↦
      rw (parts.0, z, parts.2)
        (ap some (ap (λ xs. xs ++ chunk) (sym (before ((==_iff offset 0).0 z))) ∙ joined))
  | inr z ↦ elim h [
    | inl e ↦ absurd (ground arith)
    | inr e ↦ rw (parts.0, z, parts.2, e) (ap some joined)
  ]
]
  where
    chunk : Bytes
    chunk = take (chunk_at unit offset) (drop offset unit)

    joined : take offset unit ++ chunk ≡ take (offset + chunk_at unit offset) unit
    joined = take-append-take-drop offset (chunk_at unit offset) unit

    before : offset ≡ 0 → take offset unit ≡ []
    before e = rw e

    parts :
        (is_first (fragment unit sequence offset) ≡ (offset == 0))
        × (is_last (fragment unit sequence offset)
            ≡ leb (length unit) (offset + chunk_at unit offset))
        × (drop 4 (fragment unit sequence offset) ≡ chunk)
    parts = fragment_parts unit sequence offset

send_from_end :
    (fuel : ℕ) (accepts : ℕ → Bool) (unit : Bytes) (sequence offset : ℕ)
    → 0 < fuel
    → length unit ≤ offset
    → send_from fuel accepts unit sequence offset ≡ some ([], true)
unfolding send_from
send_from_end zero accepts unit sequence offset h k = absurd (omega arith)
send_from_end (suc fuel) accepts unit sequence offset h k = ground arith

-- The loop ends, every fragment fits a message of the transport, and a receiver that held `got`
-- completes the unit if the call returned true, and nothing if it returned false.
abbrev pub Outcome : Option Bytes → Bytes → Option (List Bytes × Bool) → Type 0
Outcome got unit result =
    (r : List Bytes × Bool) × (result ≡ some r)
    × (received got r.0 ≡ (if r.1 then unit ∷ [] else []))
    × All (λ p. length p ≤ payload_bytes) r.0

received_last :
    (got : Option Bytes) (p u : Bytes) (ps : List Bytes)
    → extend got p ≡ some u
    → is_last p ≡ true
    → received got (p ∷ ps) ≡ u ∷ received none ps
unfolding received
received_last got p u ps e l = rw (e, l)

received_more :
    (got : Option Bytes) (p u : Bytes) (ps : List Bytes)
    → extend got p ≡ some u
    → is_last p ≡ false
    → received got (p ∷ ps) ≡ received (some u) ps
unfolding received
received_more got p u ps e l = rw (e, l)

received-nil : (got : Option Bytes) → received got [] ≡ []
unfolding received
received-nil got = refl

-- The loop from an offset inside the unit, for a receiver that holds the bytes before it.
send_from_lem :
    (fuel : ℕ) (accepts : ℕ → Bool) (unit : Bytes) (sequence offset : ℕ) (got : Option Bytes)
    → length unit - offset < fuel
    → offset < length unit
    → (offset ≡ 0) ⊎ (got ≡ some (take offset unit))
    → Outcome got unit (send_from fuel accepts unit sequence offset)
unfolding send_from then_send
send_from_lem zero accepts unit sequence offset got hf ho hg = absurd (omega arith)
send_from_lem (suc fuel) accepts unit sequence offset got hf ho hg =
    elim (Bool-cases (accepts offset)) [
      | inr refused ↦
          (([], false), rw (lt→ltb offset (length unit) ho, refused), received-nil got, tt)
      | inl taken ↦ elim (Bool-cases (leb (length unit) (offset + chunk_at unit offset))) [
        | inl last ↦ (
          (fragment unit sequence offset ∷ [], true),
          rw (
            lt→ltb offset (length unit) ho,
            taken,
            send_from_end fuel accepts unit sequence (offset + chunk_at unit offset) (omega arith)
                (leb→le _ _ last),
          ),
          received_last got (fragment unit sequence offset) _ [] grown (parts.1 ∙ last)
              ∙ rw (
                take-all (offset + chunk_at unit offset) unit (leb→le _ _ last),
                received-nil none,
              ),
          (length-fragment-le unit sequence offset, tt),
        )
        | inr more ↦
            let (r, e, units, sizes) =
              send_from_lem fuel accepts unit sequence (offset + chunk_at unit offset)
                (some (take (offset + chunk_at unit offset) unit)) (ground arith) (ground arith)
                (inr refl) in
            (
              (fragment unit sequence offset ∷ r.0, r.1),
              rw (lt→ltb offset (length unit) ho, taken, e),
              received_more got (fragment unit sequence offset) _ r.0 grown (parts.1 ∙ more)
                  ∙ units,
              (length-fragment-le unit sequence offset, sizes),
            )
      ]
    ]
  where
    grown :
        extend got (fragment unit sequence offset)
        ≡ some (take (offset + chunk_at unit offset) unit)
    grown = extend-fragment got unit sequence offset hg

    parts :
        (is_first (fragment unit sequence offset) ≡ (offset == 0))
        × (is_last (fragment unit sequence offset)
            ≡ leb (length unit) (offset + chunk_at unit offset))
        × (drop 4 (fragment unit sequence offset) ≡ take (chunk_at unit offset) (drop offset unit))
    parts = fragment_parts unit sequence offset

-- Whatever fragments the transport refuses, and whatever bytes the receiver still held, sending a
-- non-empty unit ends; no packet is over 1316 bytes; and the receiver completes exactly this unit,
-- whole, if the call returned true, and nothing if it returned false.
pub send_access_unit_lem :
    (accepts : ℕ → Bool) (unit : Bytes) (sequence : ℕ) (got : Option Bytes)
    → 0 < length unit
    → Outcome got unit (send_access_unit accepts unit sequence)
unfolding send_access_unit
send_access_unit_lem accepts unit sequence got h =
    send_from_lem (suc (length unit)) accepts unit sequence 0 got (omega arith) h (inl refl)
