-- ===== src/Core/Json/RoundTrip/Keys.antt =====
-- An object whose keys arrive in ascending order grows at its end.
use nova_visualiser.Prelude.{bytes_eq, ◌≡◌, refl, ap, true, false, [], ◌∷◌, arith, Bytes}
use nova_visualiser.Core.Json.{Value, Fields, end, field, emplace, bytes_lt}
use nova_visualiser.Core.Json.RoundTrip.Values.{AllBelow, AllAbove}

bytes_lt-asym :
    (j k : Bytes) → bytes_lt j k ≡ true → (bytes_eq k j ≡ false) × (bytes_lt k j ≡ false)
unfolding bytes_lt bytes_eq
bytes_lt-asym j [] h = cc
bytes_lt-asym [] (b ∷ bs) h = (refl, refl)
bytes_lt-asym (a ∷ as') (b ∷ bs) h = ground (arith, bytes_lt-asym as' bs)

module _ {N : Type 0} where
  abbrev pub join : Fields N → Fields N → Fields N
  join end fs = fs
  join (field k v rest) fs = field k v (join rest fs)

  pub join-end : (fs : Fields N) → join fs end ≡ fs
  join-end end = refl
  join-end (field k v rest) = ap (field k v) (join-end rest)

  pub join_assoc : (a b c : Fields N) → join (join a b) c ≡ join a (join b c)
  join_assoc end b c = refl
  join_assoc (field k v rest) b c = ap (field k v) (join_assoc rest b c)

  pub emplace_above :
      (k : Bytes) (v : Value N) (fs : Fields N)
      → AllBelow k fs
      → emplace k v fs ≡ join fs (field k v end)
  unfolding emplace
  emplace_above k v end h = refl
  emplace_above k v (field j w rest) h =
      let (ne, nlt) = bytes_lt-asym j k h.0 in
      rw (ne, nlt) (ap (field j w) (emplace_above k v rest h.1))

  -- Every key so far is below every key to come.
  abbrev pub Before : Fields N → Fields N → Type 0
  Before acc end = Unit {0}
  Before acc (field k v rest) = AllBelow k acc × Before acc rest

  AllBelow-join :
      (j k : Bytes) (v : Value N) (acc : Fields N)
      → AllBelow j acc
      → bytes_lt k j ≡ true
      → AllBelow j (join acc (field k v end))
  AllBelow-join j k v end h e = (e, tt)
  AllBelow-join j k v (field i w rest) h e = (h.0, AllBelow-join j k v rest h.1 e)

  pub Before-join :
      (k : Bytes) (v : Value N) (acc fs : Fields N)
      → AllAbove k fs
      → Before acc fs
      → Before (join acc (field k v end)) fs
  Before-join k v acc end a b = tt
  Before-join k v acc (field j w rest) a b =
      (AllBelow-join j k v acc b.0 a.0, Before-join k v acc rest a.1 b.1)

  pub Before-end : (fs : Fields N) → Before end fs
  Before-end end = tt
  Before-end (field k v rest) = (tt, Before-end rest)
