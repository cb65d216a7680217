-- ===== src/Ws.antt =====
-- WebSocket frames: those that src/protocol/websocket/halmos_ws_registry.c sends, and those that
-- arrive inside HTTP/2 DATA frames, which src/protocol/http2/halmos_http2_parser.c opens.
pub mod Frames
pub mod Receiver
pub mod Registry
use halmos.Base.{
  ℕ, zero, suc, ◌+◌, ◌-◌, ◌*◌, ◌/◌, ◌%◌, ◌^◌, Bool, true, false, ◌||◌, not, Option, none, some,
  List, [], ◌∷◌, ◌++◌, ltb, leb, ◌==◌, if◌then◌else◌, length, take, drop, get_or, bit_and, bit_xor,
}
use halmos.Http2.{FrameHeader}

-- `ws_system_build_frame`: the frame, `none` where it returns 0.
unfoldable pub ws_system_build_frame : List ℕ → Option (List ℕ)
ws_system_build_frame message =
    let len = length message in
    if leb len 125
    then some (0x81 ∷ len ∷ message)
    else if leb len 65535
    then some (0x81 ∷ 126 ∷ len / 256 % 256 ∷ len % 256 ∷ message)
    else none

-- What `handle_websocket_data_payload` does when a frame is whole.
pub data Effect : Type 0 where
  on_message : ℕ → List ℕ → Effect
  window_update : ℕ → ℕ → Effect

-- A number in network order.
unfoldable pub big_endian : ℕ → List ℕ → ℕ
big_endian acc [] = acc
big_endian acc (b ∷ bs) = big_endian (acc * 256 + b) bs

-- The length and the offset behind it, `none` where the frame is too short.
unfoldable pub payload_length : List ℕ → Option (ℕ × ℕ)
unfolding big_endian
payload_length frame =
    let short = bit_and (get_or frame 1 0) 0x7f in
    if short == 126
    then (if ltb (length frame) 4 then none else some (big_endian 0 (take 2 (drop 2 frame)), 4))
    else if short == 127
    then (if ltb (length frame) 10 then none else some (big_endian 0 (take 8 (drop 2 frame)), 10))
    else some (short, 2)

-- The mask and the offset behind it.
unfoldable pub masking_key : List ℕ → Bool → ℕ → Option (List ℕ × ℕ)
masking_key frame masked offset =
    if masked
    then (if ltb (length frame) (offset + 4)
        then none
        else some (take 4 (drop offset frame), offset + 4))
    else some (0 ∷ 0 ∷ 0 ∷ 0 ∷ [], offset)

-- `clear_payload[i] ^= mask[i % 4]`
unfoldable pub unmask : List ℕ → ℕ → List ℕ → List ℕ
unmask mask i [] = []
unmask mask i (b ∷ bs) = bit_xor b (get_or mask (i % 4) 0) ∷ unmask mask (suc i) bs

-- The opcode and the clear payload, `none` where the handler returns early; `malloc_ok` is whether
-- the copy got its memory. The sum of offset and length is that of a 64 bit `size_t`.
unfoldable pub open_frame : List ℕ → Bool → Option (ℕ × List ℕ)
open_frame frame malloc_ok =
    let masked = not (bit_and (get_or frame 1 0) 0x80 == 0) in
    if ltb (length frame) 2 then none else elim (payload_length frame) [
      | none ↦ none
      | some (len, offset) ↦ elim (masking_key frame masked offset) [
        | none ↦ none
        | some (mask, start) ↦
            let body = take len (drop start frame) in
            if ltb (length frame) ((start + len) % 2 ^ 64) || (len == 2 ^ 64 - 1) || not malloc_ok
            then none
            else some (bit_and (get_or frame 0 0) 0x0f, if masked then unmask mask 0 body else body)
      ]
    ]

-- The handler; the DATA frame's payload is a WebSocket frame, `head.length` bytes.
unfoldable pub handle_websocket_data_payload : FrameHeader → List ℕ → Bool → List Effect
handle_websocket_data_payload head payload malloc_ok = elim (open_frame payload malloc_ok) [
  | none ↦ []
  | some (opcode, text) ↦
      let updates = window_update head.stream_id head.length ∷ window_update 0 head.length ∷ [] in
      if opcode == 1 then on_message head.stream_id text ∷ updates else updates
]
