-- ===== src/Http2/Frame.antt =====
-- Frames written by src/protocol/http2/halmos_http2_frame.c and read by halmos_http2_parser.c.
use halmos.Base.{
  ℕ, ◌+◌, ◌*◌, ◌/◌, ◌%◌, ◌^◌, ◌≤◌, ◌<◌, ◌≡◌, refl, some, List, [], ◌∷◌, ◌++◌, length, drop, ap,
  arith,
}
use halmos.Http2.{
  http2_parser_frame_header, byte_at, http2_frame_send, http2_frame_send_window_update,
  window_increment,
}

bytes24 : (n : ℕ) → n < 2 ^ 24 → byte_at n 16 * 2 ^ 16 + byte_at n 8 * 2 ^ 8 + byte_at n 0 ≡ n
bytes24 n h = omega arith

bytes31 :
    (n : ℕ)
    → n < 2 ^ 31
    → byte_at n 24 % 128 * 2 ^ 24 + byte_at n 16 * 2 ^ 16 + byte_at n 8 * 2 ^ 8 + byte_at n 0 ≡ n
bytes31 n h = omega arith

-- Nine bytes, which the parser reads by themselves, and the payload.
pub http2_frame_send_lem :
    (type flags stream_id : ℕ) (payload : List ℕ)
    → length payload ≤ 16384
    → (head : List ℕ) × (http2_frame_send type flags stream_id payload ≡ some (head ++ payload))
      × (length head ≡ 9)
      × (http2_parser_frame_header head
          ≡ some (record {
            length = length payload;
            type = type;
            flags = flags;
            stream_id = stream_id % 2 ^ 31;
          }))
unfolding http2_frame_send http2_parser_frame_header
http2_frame_send_lem type flags stream_id payload h =
    let len = length payload in
    let sid = stream_id % 2 ^ 31 in
    (
      byte_at len 16
          ∷ byte_at len 8
          ∷ byte_at len 0
          ∷ type
          ∷ flags
          ∷ byte_at sid 24
          ∷ byte_at sid 16
          ∷ byte_at sid 8
          ∷ byte_at sid 0
          ∷ [],
      ground arith,
      refl,
      ground (arith, bytes24 len, bytes31 sid),
    )

-- A payload of at most 16384 bytes is sent behind nine bytes from which the parser reads its length,
-- the type, the flags and the stream, without its reserved bit.
pub frame_header-send :
    (type flags stream_id : ℕ) (payload : List ℕ)
    → length payload ≤ 16384
    → (bytes : List ℕ) × (http2_frame_send type flags stream_id payload ≡ some bytes)
      × (http2_parser_frame_header bytes
          ≡ some (record {
            length = length payload;
            type = type;
            flags = flags;
            stream_id = stream_id % 2 ^ 31;
          }))
      × (drop 9 bytes ≡ payload)
unfolding http2_frame_send http2_parser_frame_header
frame_header-send type flags stream_id payload h =
    let len = length payload in
    let sid = stream_id % 2 ^ 31 in
    (
      byte_at len 16
          ∷ byte_at len 8
          ∷ byte_at len 0
          ∷ type
          ∷ flags
          ∷ byte_at sid 24
          ∷ byte_at sid 16
          ∷ byte_at sid 8
          ∷ byte_at sid 0
          ∷ payload,
      ground arith,
      ground (arith, bytes24 len, bytes31 sid),
      refl,
    )

low31 :
    (n : ℕ)
    → n / 2 ^ 24 % 128 % 128 * 2 ^ 24 + byte_at n 16 * 2 ^ 16 + byte_at n 8 * 2 ^ 8 + byte_at n 0
      ≡ n % 2 ^ 31
low31 n = omega arith

-- A window update carries the low 31 bits of the increment, to the stream that it names.
pub window_increment-send :
    (stream_id increment : ℕ)
    → (bytes : List ℕ) × (http2_frame_send_window_update stream_id increment ≡ some bytes)
      × (window_increment (drop 9 bytes) ≡ some (increment % 2 ^ 31))
      × (length bytes ≡ 13)
unfolding http2_frame_send_window_update window_increment
window_increment-send stream_id increment =
    let n = increment in
    let sid = stream_id % 2 ^ 31 in
    (
      0
          ∷ 0
          ∷ 4
          ∷ 8
          ∷ 0
          ∷ byte_at sid 24
          ∷ byte_at sid 16
          ∷ byte_at sid 8
          ∷ byte_at sid 0
          ∷ n / 2 ^ 24 % 128
          ∷ byte_at n 16
          ∷ byte_at n 8
          ∷ byte_at n 0
          ∷ [],
      refl,
      ap some (low31 n),
      refl,
    )
