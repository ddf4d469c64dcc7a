-- ===== src/Net/Envelope.antt =====
-- The 24-byte envelope of an access unit, which `broadcast` of src/net/stream_server.cpp and of
-- src/net/srt_server.cpp both write, and a reader of it.
use nova_visualiser.Prelude.{
  ℕ, ◌+◌, ◌*◌, ◌^◌, ◌<◌, ◌≡◌, ap, ◌∙◌, Bool, ◌∷◌, ◌++◌, arith, get_or, take, drop, take-append,
  drop-append, length, Bytes, if◌then◌else◌,
}
use nova_visualiser.Net.Wire.{
  write_big_endian32, write_big_endian64, read_big_endian32, read-write_big_endian32,
}

-- `encode::EncodedFrame`, as far as the transports read it.
pub record EncodedFrame : Type 0 where
  pub bytes : Bytes
  pub keyframe : Bool

-- The packet of a frame. `pts` is an int64_t by its bit pattern, `now` the send time.
pub envelope : EncodedFrame → ℕ → ℕ → Bytes
envelope frame pts now =
    0
    ∷ (if frame.keyframe then 1 else 0)
    ∷ 0
    ∷ 0
    ∷ (write_big_endian32 (length frame.bytes)
        ++ (write_big_endian64 pts ++ (write_big_endian64 now ++ frame.bytes)))

-- Eight bytes as a number, the first one highest.
pub read_big_endian64 : Bytes → ℕ
read_big_endian64 b = read_big_endian32 b * 2 ^ 32 + read_big_endian32 (drop 4 b)

pub record Message : Type 0 where
  pub kind : ℕ
  pub flags : ℕ
  pub pts : ℕ
  pub sent_at : ℕ
  pub payload : Bytes
  pub rest : Bytes

-- The wire format of stream_server.h, read at the front of a byte stream.
pub read_message : Bytes → Message
read_message b =
    let size = read_big_endian32 (drop 4 b) in
    record {
      kind = get_or b 0 0;
      flags = get_or b 1 0;
      pts = read_big_endian64 (drop 8 b);
      sent_at = read_big_endian64 (drop 16 b);
      payload = take size (drop 24 b);
      rest = drop size (drop 24 b);
    }

read-write_big_endian64 :
    (value : ℕ) (rest : Bytes)
    → value < 2 ^ 64
    → read_big_endian64 (write_big_endian64 value ++ rest) ≡ value
unfolding write_big_endian64 read_big_endian64 read_big_endian32
read-write_big_endian64 value rest h = omega arith

-- For a frame of less than 2 ^ 32 bytes and times of 64 bits: a reader of the stream finds the
-- packet's frame, times and end, whatever follows the packet.
pub read_message-envelope :
    (frame : EncodedFrame) (pts now : ℕ) (rest : Bytes)
    → length frame.bytes < 2 ^ 32
    → pts < 2 ^ 64
    → now < 2 ^ 64
    → read_message (envelope frame pts now ++ rest) ≡ record {
      kind = 0;
      flags = if frame.keyframe then 1 else 0;
      pts = pts;
      sent_at = now;
      payload = frame.bytes;
      rest = rest;
    }
unfolding read_message envelope write_big_endian32 write_big_endian64
read_message-envelope frame pts now rest hl hp hn =
    let behind_pts = write_big_endian64 now ++ (frame.bytes ++ rest) in
    let size =
      read-write_big_endian32 (length frame.bytes) (write_big_endian64 pts ++ behind_pts) hl in
    λ i. record {
      kind = 0;
      flags = if frame.keyframe then 1 else 0;
      pts = read-write_big_endian64 pts behind_pts hp i;
      sent_at = read-write_big_endian64 now (frame.bytes ++ rest) hn i;
      payload = (ap (λ n. take n (frame.bytes ++ rest)) size ∙ take-append frame.bytes rest) i;
      rest = (ap (λ n. drop n (frame.bytes ++ rest)) size ∙ drop-append frame.bytes rest) i;
    }
