-- ===== src/Core/Json.antt =====
-- src/core/json.{h,cpp}: the JSON value, its readers, its parser and its printer.
-- A double is a type `N`; the C library's conversions of it are the parameters in `NumberText`.
pub mod Access
pub mod Parser
pub mod Printer
pub mod Bounds
pub mod Total
pub mod Strings
pub mod RoundTrip
mod Tests
use nova_visualiser.Prelude.{
  ℕ, Bool, true, false, ◌&&◌, ◌||◌, Option, none, some, List, [], ◌∷◌, ◌==◌, if◌then◌else◌, ltb,
  Bytes, bytes_eq,
}

-- What json.cpp takes from the C and C++ libraries.
pub record NumberText (N : Type 0) : Type 0 where
  -- `std::strtod(chunk, nullptr)`
  pub strtod : Bytes → N
  -- `std::isfinite`
  pub is_finite : N → Bool
  -- `0`
  pub zero_number : N
  -- `number_ == static_cast<long long>(number_)`
  pub is_integral : N → Bool
  -- `out << static_cast<long long>(number_)`
  pub print_integer : N → Bytes
  -- `out.precision(10); out << number_`
  pub print_float : N → Bytes

-- `json::Value`, with an array and an object as lists. An object is a std::map: its keys ascend.
mutual
  pub data Value (N : Type 0) : Type 0 where
    null : Value N
    boolean : Bool → Value N
    number : N → Value N
    string : Bytes → Value N
    array : Items N → Value N
    object : Fields N → Value N

  pub data Items (N : Type 0) : Type 0 where
    nil : Items N
    cons : Value N → Items N → Items N

  pub data Fields (N : Type 0) : Type 0 where
    end : Fields N
    field : Bytes → Value N → Fields N → Fields N

-- `<` of std::string, by unsigned bytes.
unfoldable pub bytes_lt : Bytes → Bytes → Bool
bytes_lt _ [] = false
bytes_lt [] (b ∷ bs) = true
bytes_lt (a ∷ as') (b ∷ bs) = ltb a b || (a == b && bytes_lt as' bs)

module _ {N : Type 0} where
  -- `object.emplace(key, value)`: an object that has the key keeps its old value.
  unfoldable pub emplace : Bytes → Value N → Fields N → Fields N
  emplace k v end = field k v end
  emplace k v (field j w rest) =
      if bytes_eq k j
      then field j w rest
      else if bytes_lt k j
      then field k v (field j w rest)
      else field j w (emplace k v rest)

  unfoldable pub find_field : Bytes → Fields N → Option (Value N)
  find_field k end = none
  find_field k (field j w rest) = if bytes_eq k j then some w else find_field k rest

  -- `Value::find`
  unfoldable pub find : Bytes → Value N → Option (Value N)
  unfolding find_field
  find k (object fields) = find_field k fields
  find k _ = none

  -- The elements of an array, as the std::vector of the source.
  unfoldable pub to_items : List (Value N) → Items N
  to_items [] = nil
  to_items (v ∷ vs) = cons v (to_items vs)

  unfoldable pub of_items : Items N → List (Value N)
  of_items nil = []
  of_items (cons v vs) = v ∷ of_items vs
