-- ===== src/Http2/Control.antt =====
-- What `dispatch_frame` of src/protocol/http2/halmos_http2_manager.c does itself: RST_STREAM, SETTINGS and
-- PING frames. The payload has the length that the frame's header says. Of a stream that is reset the
-- file behind it is not modelled.
pub mod Effects
use halmos.Base.{
  ℕ, ◌+◌, ◌-◌, ◌*◌, ◌%◌, ◌^◌, Bool, true, false, ◌&&◌, ◌||◌, not, Option, some, none, List, [], ◌∷◌,
  ◌++◌, map, ltb, leb, ◌==◌, if◌then◌else◌, length, bit_and,
}
use halmos.Http2.{FrameHeader, http2_frame_send}
use halmos.Http2.Streams.{Stream, Session}

-- HTTP2_STATE_CLOSED
abbrev pub http2_state_closed : ℕ
http2_state_closed = 6

-- In a chain, the first stream with the number.
unfoldable pub close_in_chain : ℕ → List Stream → List Stream
close_in_chain id [] = []
close_in_chain id (st ∷ chain) =
    let rest = close_in_chain id chain in
    if st.stream_id == id then record st { state = http2_state_closed } ∷ chain else st ∷ rest

-- RST_STREAM, in every bucket.
unfoldable pub reset_stream : Session → ℕ → Session
reset_stream s id = record s { streams_hash = λ b. close_in_chain id (s.streams_hash b) }

-- `s->out_window_size += delta`, on 32 bit patterns.
abbrev pub add_delta : ℕ → Stream → Stream
add_delta delta st = record st { out_window_size = (st.out_window_size + delta) % 2 ^ 32 }

-- SETTINGS_INITIAL_WINDOW_SIZE; the other settings change nothing.
unfoldable pub apply_setting : Session → ℕ → ℕ → Session
apply_setting s id val =
    let delta = (val + (2 ^ 32 - s.peer_initial_window_size)) % 2 ^ 32 in
    if id == 4
    then record s {
      peer_initial_window_size = val;
      streams_hash = λ b. map (add_delta delta) (s.streams_hash b);
    }
    else s

-- The loop over the entries of six bytes.
unfoldable pub apply_settings : Session → List ℕ → Session
apply_settings s (b₀ ∷ b₁ ∷ b₂ ∷ b₃ ∷ b₄ ∷ b₅ ∷ rest) =
    apply_settings (apply_setting s (b₀ * 2 ^ 8 + b₁) (b₂ * 2 ^ 24 + b₃ * 2 ^ 16 + b₄ * 2 ^ 8 + b₅))
      rest
apply_settings s _ = s

-- What is sent: nothing, the acknowledgement, or a frame.
pub data Answer : Type 0 where
  silence : Answer
  settings_ack : Answer
  frame : Option (List ℕ) → Answer

unfoldable pub dispatch_control : Session → FrameHeader → List ℕ → Session × Answer
dispatch_control s head payload =
    if head.type == 3
    then (reset_stream s head.stream_id, silence)
    else if head.type == 4
    then (if (bit_and head.flags 0x01 == 0) && leb 6 head.length
        then (apply_settings s payload, settings_ack)
        else (s, silence))
    else if head.type == 6
    then (
      s,
      if bit_and head.flags 0x01 == 0 then frame (http2_frame_send 6 1 0 payload) else silence,
    )
    else (s, silence)
