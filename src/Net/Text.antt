-- ===== src/Net/Text.antt =====
-- `std::string::find`, as src/net/sse_client.cpp and src/net/http_client.cpp use it.
pub mod Cuts
pub mod Found
use nova_visualiser.Prelude.{ℕ, Option, none, some, [], ◌∷◌, Bytes, if◌then◌else◌, ◌==◌}

-- `text.find(separator)`: the text before it and the text behind it.
unfoldable pub or_pushed : ℕ → Option (Bytes × Bytes) → Option (Bytes × Bytes)
or_pushed c none = none
or_pushed c (some (front, rest)) = some (c ∷ front, rest)

unfoldable pub cut : ℕ → Bytes → Option (Bytes × Bytes)
unfolding or_pushed
cut separator [] = none
cut separator (c ∷ cs) =
    let later = or_pushed c (cut separator cs) in if c == separator then some ([], cs) else later

-- The text behind a prefix, if it is there.
unfoldable pub behind : Bytes → Bytes → Option Bytes
behind [] text = some text
behind (p ∷ ps) [] = none
behind (p ∷ ps) (c ∷ cs) = let later = behind ps cs in if p == c then later else none

unfoldable pub or_else : Option Bytes → Option Bytes → Option Bytes
or_else none later = later
or_else (some rest) later = some rest

-- `text.find(pattern)`: the text behind its first occurrence.
unfoldable pub find_behind : Bytes → Bytes → Option Bytes
unfolding or_else
find_behind pattern [] = behind pattern []
find_behind pattern (c ∷ cs) = or_else (behind pattern (c ∷ cs)) (find_behind pattern cs)
