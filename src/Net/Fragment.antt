-- ===== src/Net/Fragment.antt =====
-- The fragmenter of src/net/srt_server.cpp: the loop that `sendAccessUnit` and `sendHandshake` share,
-- against a receiver of the fragment format that src/net/srt_server.h documents.
pub mod Reassembly
use nova_visualiser.Prelude.{
  ℕ, zero, suc, ◌+◌, ◌-◌, ◌/◌, ◌%◌, ◌≡◌, Bool, true, false, Option, none, some, List, [], ◌∷◌, ◌++◌,
  min, take, drop, length, Bytes, if◌then◌else◌, ltb, leb, ◌==◌, get_or, ◌≤◌, arith,
}
use nova_visualiser.Net.Wire.{write_big_endian16}

-- kPayloadBytes and kFragmentHeaderBytes
abbrev pub payload_bytes : ℕ
payload_bytes = 1316

abbrev pub fragment_header_bytes : ℕ
fragment_header_bytes = 4

-- The number of bytes that the fragment at `offset` carries.
abbrev pub chunk_at : Bytes → ℕ → ℕ
chunk_at unit offset = min (length unit - offset) (payload_bytes - fragment_header_bytes)

-- The fragment of `unit` at `offset`.
pub fragment : Bytes → ℕ → ℕ → Bytes
fragment unit sequence offset =
    let chunk = chunk_at unit offset in
    let first = if offset == 0 then 1 else 0 in
    let last = if leb (length unit) (offset + chunk) then 2 else 0 in
    write_big_endian16 sequence ++ ((first + last) ∷ 0 ∷ take chunk (drop offset unit))

then_send : Bytes → Option (List Bytes × Bool) → Option (List Bytes × Bool)
then_send packet none = none
then_send packet (some (packets, done)) = some (packet ∷ packets, done)

-- The loop, from `offset`. `accepts` says whether srt_sendmsg takes the fragment at an offset.
-- The result is the fragments that were taken, and what the function returns; none is a lack of fuel.
pub send_from : ℕ → (ℕ → Bool) → Bytes → ℕ → ℕ → Option (List Bytes × Bool)
unfolding then_send
send_from zero accepts unit sequence offset = none
send_from (suc fuel) accepts unit sequence offset =
    let rest = send_from fuel accepts unit sequence (offset + chunk_at unit offset) in
    if ltb offset (length unit)
    then if accepts offset then then_send (fragment unit sequence offset) rest else some ([], false)
    else some ([], true)

-- `sendAccessUnit`; the fuel is one round for each byte, and one to leave the loop.
pub send_access_unit : (ℕ → Bool) → Bytes → ℕ → Option (List Bytes × Bool)
send_access_unit accepts unit sequence = send_from (suc (length unit)) accepts unit sequence 0
