-- ===== src/Http2/Payload.antt =====
-- The payloads of HEADERS and DATA frames, src/protocol/http2/halmos_http2_parser.c.
pub mod Padding
pub mod Body
pub mod Window
use halmos.Base.{
  ℕ, ◌+◌, ◌-◌, ◌*◌, ◌%◌, ◌^◌, ◌/◌, Bool, true, false, ◌&&◌, not, Option, none, some, List, [], ◌∷◌,
  ◌++◌, ltb, leb, ◌==◌, if◌then◌else◌, length, get_or, bit_and,
}
use halmos.Http2.{FrameHeader, window_increment}
use halmos.Http2.Streams.{Stream, Session, http2_stream_find_unlocked, update_stream}

-- `strip_headers_padding`: where the header block starts in the payload, and its length.
abbrev pub after_pad_length : FrameHeader → List ℕ → ℕ × ℕ × ℕ
after_pad_length head payload =
    if not (bit_and head.flags 0x08 == 0) && ltb 0 head.length
    then (1, head.length - 1, get_or payload 0 0)
    else (0, head.length, 0)

unfoldable pub strip_headers_padding : FrameHeader → List ℕ → ℕ × ℕ
strip_headers_padding head payload =
    let (offset, hpack_len, pad_len) = after_pad_length head payload in
    let priority = not (bit_and head.flags 0x20 == 0) && leb 5 hpack_len in
    let start = if priority then offset + 5 else offset in
    let len = if priority then hpack_len - 5 else hpack_len in
    (start, if ltb pad_len len then len - pad_len else 0)

-- `append_stream_body`: `none` where it returns `false`, on overflow of a `size_t` or without memory.
unfoldable pub append_stream_body : Stream → FrameHeader → List ℕ → Bool → Option Stream
append_stream_body st head payload realloc_ok =
    let new_size = (length st.body_data + head.length) % 2 ^ 64 in
    if ltb new_size (length st.body_data)
    then none
    else if realloc_ok
    then some (record st { body_data = st.body_data ++ payload })
    else none

-- What a DATA frame makes the session do: a window update sent on a stream, or the request handed to
-- `http2_router_bridge`.
pub data Effect : Type 0 where
  window_update : ℕ → ℕ → Effect
  bridge : Stream → Effect
  websocket_payload : Stream → Effect

-- `(int) body_length`, as a 32 bit pattern.
abbrev pub int_pattern : ℕ → ℕ
int_pattern n = n % 2 ^ 32

-- `st->state = 4`, which the source calls closed.
abbrev pub closed_state : ℕ
closed_state = 4

abbrev pub put_stream : Session → Stream → Session
put_stream s st = update_stream s st.stream_id (λ old. st)

-- `handle_stream_end`: the bridge sees the content length, and the stream gets the state 4 behind it. What
-- the bridge does to the stream is not modelled.
unfoldable pub handle_stream_end : Session → Stream → Session × List Effect
handle_stream_end s st =
    let st' = record st { content_length = int_pattern (length st.body_data) } in
    (put_stream s (record st' { state = closed_state }), bridge st' ∷ [])

-- The payload is the frame's, `head.length` bytes.
unfoldable pub http2_parser_handle_data :
    Session → FrameHeader → List ℕ → Bool → Session × List Effect
http2_parser_handle_data s head payload realloc_ok =
    elim (http2_stream_find_unlocked s head.stream_id) [
      | none ↦ (s, [])
      | some st ↦
          if head.length == 0
          then (s, [])
          else if st.is_upgrade
          then (s, websocket_payload st ∷ [])
          else elim (append_stream_body st head payload realloc_ok) [
            | none ↦ (s, [])
            | some st' ↦
                let updates =
                  window_update head.stream_id head.length ∷ window_update 0 head.length ∷ [] in
                let (s', effects) = handle_stream_end (put_stream s st') st' in
                if bit_and head.flags 0x01 == 0
                then (put_stream s st', updates)
                else (s', updates ++ effects)
          ]
    ]

-- `http2_frame_handle_window_update` of halmos_http2_frame.c. A window is an `int32_t`, here its 32
-- bit pattern, to which the increment is added.
abbrev pub add_window : Stream → ℕ → Stream
add_window st n = record st { out_window_size = (st.out_window_size + n) % 2 ^ 32 }

unfoldable pub apply_increment : Session → ℕ → ℕ → Session
apply_increment s stream_id n =
    if n == 0
    then s
    else if stream_id == 0
    then record s { out_window_size = (s.out_window_size + n) % 2 ^ 32 }
    else elim (http2_stream_find_unlocked s stream_id) [
      | none ↦ s
      | some st ↦ update_stream s stream_id (λ old. add_window old n)
    ]

unfoldable pub http2_frame_handle_window_update : Session → FrameHeader → List ℕ → Session
unfolding apply_increment
http2_frame_handle_window_update s head payload =
    if ltb head.length 4
    then s
    else elim (window_increment payload) [ none ↦ s | some n ↦ apply_increment s head.stream_id n ]
