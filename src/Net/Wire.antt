-- ===== src/Net/Wire.antt =====
-- Wire integers and base64: the file-local helpers that src/net/stream_server.cpp and
-- src/net/srt_server.cpp both define.
use nova_visualiser.Prelude.{
  ℕ, ◌+◌, ◌*◌, ◌/◌, ◌%◌, ◌^◌, ◌<◌, ◌≡◌, [], ◌∷◌, ◌++◌, arith, get_or, Bytes,
}

-- `static_cast<uint8_t>(value >> shift)`
abbrev byte_at : ℕ → ℕ → ℕ
byte_at shift value = value / 2 ^ shift % 256

unfoldable pub write_big_endian16 : ℕ → Bytes
write_big_endian16 value = byte_at 8 value ∷ byte_at 0 value ∷ []

unfoldable pub write_big_endian32 : ℕ → Bytes
write_big_endian32 value =
    byte_at 24 value ∷ byte_at 16 value ∷ byte_at 8 value ∷ byte_at 0 value ∷ []

-- `for index in 0..8: out[index] = value >> (56 - index * 8)`
unfoldable pub write_big_endian64 : ℕ → Bytes
write_big_endian64 value =
    byte_at 56 value
    ∷ byte_at 48 value
    ∷ byte_at 40 value
    ∷ byte_at 32 value
    ∷ byte_at 24 value
    ∷ byte_at 16 value
    ∷ byte_at 8 value
    ∷ byte_at 0 value
    ∷ []

-- `in[0] << 24 | in[1] << 16 | in[2] << 8 | in[3]`: the four bytes occupy disjoint bits, so the
-- disjunction is a sum.
unfoldable pub read_big_endian32 : Bytes → ℕ
read_big_endian32 b =
    get_or b 0 0 * 2 ^ 24 + get_or b 1 0 * 2 ^ 16 + get_or b 2 0 * 2 ^ 8 + get_or b 3 0

-- Reading back what was written gives the value, for every 32-bit value.
pub read-write_big_endian32 :
    (value : ℕ) (rest : Bytes)
    → value < 2 ^ 32
    → read_big_endian32 (write_big_endian32 value ++ rest) ≡ value
unfolding write_big_endian32 read_big_endian32
read-write_big_endian32 value rest h = omega arith
