-- ===== src/Http2.antt =====
-- The HTTP/2 layer, src/protocol/http2/: frames, streams and the payloads of HEADERS and DATA
-- frames. A shift and a mask of a byte are written as division and remainder, and `|` of bytes at
-- different places as their sum.
pub mod Frame
pub mod Streams
pub mod Payload
pub mod Socket
pub mod Manager
pub mod Control
pub mod Response
pub mod Flush
use halmos.Base.{
  ℕ, ◌+◌, ◌*◌, ◌/◌, ◌%◌, ◌^◌, Bool, Option, none, some, List, [], ◌∷◌, ◌++◌, ltb, if◌then◌else◌,
  length,
}

pub record FrameHeader : Type 0 where
  pub length : ℕ
  pub type : ℕ
  pub flags : ℕ
  pub stream_id : ℕ

-- `http2_parser_frame_header` of halmos_http2_parser.c, on nine bytes.
unfoldable pub http2_parser_frame_header : List ℕ → Option FrameHeader
http2_parser_frame_header (b₀ ∷ b₁ ∷ b₂ ∷ b₃ ∷ b₄ ∷ b₅ ∷ b₆ ∷ b₇ ∷ b₈ ∷ rest) = some (record {
  length = b₀ * 2 ^ 16 + b₁ * 2 ^ 8 + b₂;
  type = b₃;
  flags = b₄;
  stream_id = b₅ % 128 * 2 ^ 24 + b₆ * 2 ^ 16 + b₇ * 2 ^ 8 + b₈;
})
http2_parser_frame_header _ = none

-- The low byte of `n >> k`.
abbrev pub byte_at : ℕ → ℕ → ℕ
byte_at n k = n / 2 ^ k % 256

-- What `http2_frame_send` of halmos_http2_frame.c hands to the socket; `none` where it returns
-- because the payload is too long.
unfoldable pub http2_frame_send : ℕ → ℕ → ℕ → List ℕ → Option (List ℕ)
http2_frame_send type flags stream_id payload =
    let len = length payload in
    let sid = stream_id % 2 ^ 31 in
    if ltb 16384 len
    then none
    else some (
        byte_at len 16
        ∷ byte_at len 8
        ∷ byte_at len 0
        ∷ type
        ∷ flags
        ∷ byte_at sid 24
        ∷ byte_at sid 16
        ∷ byte_at sid 8
        ∷ byte_at sid 0
        ∷ payload)

unfoldable pub http2_frame_send_window_update : ℕ → ℕ → Option (List ℕ)
unfolding http2_frame_send
http2_frame_send_window_update stream_id increment = http2_frame_send 8 0 stream_id (
    increment / 2 ^ 24 % 128
    ∷ byte_at increment 16
    ∷ byte_at increment 8
    ∷ byte_at increment 0
    ∷ [])

-- The increment that `http2_frame_handle_window_update` reads from a payload of at least four bytes.
unfoldable pub window_increment : List ℕ → Option ℕ
window_increment (b₀ ∷ b₁ ∷ b₂ ∷ b₃ ∷ rest) =
    some (b₀ % 128 * 2 ^ 24 + b₁ * 2 ^ 16 + b₂ * 2 ^ 8 + b₃)
window_increment _ = none
