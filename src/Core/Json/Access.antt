-- ===== src/Core/Json/Access.antt =====
-- The readers of `json::Value` in src/core/json.h, and `numberArray` and `stringArray` of
-- src/core/json.cpp.
use nova_visualiser.Prelude.{Bool, false, Option, none, some, List, [], ◌∷◌, Bytes}
use nova_visualiser.Core.Json.{
  Value, boolean, number, string, array, object, Fields, end, field, find, of_items,
}

-- `std::optional::value_or`
unfoldable pub value_or {ℓ} : {A : Type ℓ} → Option A → A → A
value_or none fallback = fallback
value_or (some a) fallback = a

module _ {N : Type 0} where
  unfoldable pub number_of : Value N → Option N
  number_of (number n) = some n
  number_of _ = none

  unfoldable pub boolean_of : Value N → Option Bool
  boolean_of (boolean b) = some b
  boolean_of _ = none

  unfoldable pub string_of : Value N → Option Bytes
  string_of (string s) = some s
  string_of _ = none

  unfoldable pub pairs_of : Fields N → List (Bytes × Value N)
  pairs_of end = []
  pairs_of (field k v rest) = (k, v) ∷ pairs_of rest

  unfoldable pub array_of : Value N → Option (List (Value N))
  unfolding of_items
  array_of (array items) = some (of_items items)
  array_of _ = none

  unfoldable pub object_of : Value N → Option (List (Bytes × Value N))
  unfolding pairs_of
  object_of (object fields) = some (pairs_of fields)
  object_of _ = none

  unfoldable pub number_or : Value N → N → N
  unfolding number_of value_or
  number_or v fallback = value_or (number_of v) fallback

  unfoldable pub string_or : Value N → Bytes → Bytes
  unfolding string_of value_or
  string_or v fallback = value_or (string_of v) fallback

  number_or_fallback : Option (Value N) → N → N
  unfolding number_or
  number_or_fallback none fallback = fallback
  number_or_fallback (some v) fallback = number_or v fallback

  string_or_fallback : Option (Value N) → Bytes → Bytes
  unfolding string_or
  string_or_fallback none fallback = fallback
  string_or_fallback (some v) fallback = string_or v fallback

  -- `numberField` and `stringField` of src/core/module.cpp and src/net/config_client.cpp
  unfoldable pub number_field : Value N → Bytes → N → N
  unfolding number_or_fallback find
  number_field v key fallback = number_or_fallback (find key v) fallback

  unfoldable pub string_field : Value N → Bytes → Bytes → Bytes
  unfolding string_or_fallback find
  string_field v key fallback = string_or_fallback (find key v) fallback

  -- `value.find(key) != nullptr && value.find(key)->boolean().value_or(false)`
  is_true : Option (Value N) → Bool
  unfolding value_or boolean_of
  is_true none = false
  is_true (some v) = value_or (boolean_of v) false

  unfoldable pub boolean_field : Value N → Bytes → Bool
  unfolding is_true find
  boolean_field v key = is_true (find key v)

  -- `object.find(key)`, read as an array or as an object; empty if it is neither
  list_or_empty : Option (Value N) → List (Value N)
  unfolding array_of value_or
  list_or_empty none = []
  list_or_empty (some v) = value_or (array_of v) []

  unfoldable pub array_field : Value N → Bytes → List (Value N)
  unfolding list_or_empty find
  array_field v key = list_or_empty (find key v)

  pairs_or_empty : Option (Value N) → List (Bytes × Value N)
  unfolding object_of value_or
  pairs_or_empty none = []
  pairs_or_empty (some v) = value_or (object_of v) []

  unfoldable pub object_field : Value N → Bytes → List (Bytes × Value N)
  unfolding pairs_or_empty find
  object_field v key = pairs_or_empty (find key v)

  numbers_in : List (Value N) → List N
  unfolding number_of
  numbers_in [] = []
  numbers_in (v ∷ vs) = elim (number_of v) [ none ↦ numbers_in vs | some n ↦ n ∷ numbers_in vs ]

  unfoldable pub number_array : Value N → List N
  unfolding numbers_in value_or array_of
  number_array v = numbers_in (value_or (array_of v) [])

  strings_in : List (Value N) → List Bytes
  unfolding string_of
  strings_in [] = []
  strings_in (v ∷ vs) = elim (string_of v) [ none ↦ strings_in vs | some s ↦ s ∷ strings_in vs ]

  unfoldable pub string_array : Value N → List Bytes
  unfolding strings_in value_or array_of
  string_array v = strings_in (value_or (array_of v) [])
