-- ===== src/Http2/Manager.antt =====
-- The reading half of `http2_manager_session`, src/protocol/http2/halmos_http2_manager.c: the client
-- preface, then frames, in reads of any size. A buffer and the count of its bytes read are the list
-- of these bytes.
pub mod Fill
pub mod Frames
use halmos.Base.{
  ℕ, ◌+◌, ◌-◌, Bool, true, false, ◌||◌, ◌&&◌, not, some, none, List, [], ◌∷◌, ◌++◌, ltb, ◌==◌,
  if◌then◌else◌, length,
}
use halmos.Http2.{FrameHeader, http2_parser_frame_header}

-- The fields of `HTTP2Session` for reading, the frames given to `dispatch_frame`'s handlers, oldest
-- first, and whether the session has returned 0.
pub record Incoming : Type 0 where
  pub preface_bytes_read : ℕ
  pub read_state : ℕ
  pub header_buf_partial : List ℕ
  pub current_frame_head : FrameHeader
  pub payload_buf : List ℕ
  pub dispatched : List (FrameHeader × List ℕ)
  pub closed : Bool

-- What `session_init` leaves, by `calloc`.
abbrev pub session_init : Incoming
session_init = record {
  preface_bytes_read = 0;
  read_state = 0;
  header_buf_partial = [];
  current_frame_head = record { length = 0; type = 0; flags = 0; stream_id = 0 };
  payload_buf = [];
  dispatched = [];
  closed = false;
}

-- A GOAWAY ends the session, any other frame is handled and the next one awaited.
unfoldable pub dispatch_frame : Incoming → Incoming
dispatch_frame s = if s.current_frame_head.type == 7 then record s { closed = true } else record s {
  dispatched = s.dispatched ++ (s.current_frame_head, s.payload_buf) ∷ [];
  payload_buf = [];
  read_state = 0;
  header_buf_partial = [];
}

unfoldable pub process_preface : Incoming → List ℕ → Incoming
process_preface s bs = record s { preface_bytes_read = s.preface_bytes_read + length bs }

unfoldable pub read_frame_payload : Incoming → List ℕ → Incoming
read_frame_payload s bs =
    let s' = record s { payload_buf = s.payload_buf ++ bs } in
    if ltb (length s'.payload_buf) s.current_frame_head.length then s' else dispatch_frame s'

module _ (max_allowed_payload : ℕ) (malloc_ok : ℕ → Bool) where
  -- The header is whole. A frame without a payload is dispatched in the same pass.
  unfoldable pub header_read : Incoming → FrameHeader → Incoming
  header_read s head =
      let s' = record s { current_frame_head = head; read_state = 1; payload_buf = [] } in
      if head.length == 0
      then dispatch_frame s'
      else if ltb max_allowed_payload head.length || not (malloc_ok head.length)
      then record s' { closed = true }
      else s'

  -- With these bytes in the header's buffer.
  unfoldable pub header_buffered : Incoming → List ℕ → Incoming
  header_buffered s buf =
      let s' = record s { header_buf_partial = buf } in
      if length buf == 9
      then elim (http2_parser_frame_header buf) [
        | some head ↦ header_read s' head
        | none ↦ record s' { closed = true }
      ]
      else s'

  unfoldable pub read_frame_header : Incoming → List ℕ → Incoming
  read_frame_header s bs = header_buffered s (s.header_buf_partial ++ bs)

  -- `to_read` of the read that comes next.
  unfoldable pub to_read : Incoming → ℕ
  to_read s =
      if s.closed
      then 0
      else if ltb s.preface_bytes_read 24
      then 24 - s.preface_bytes_read
      else if s.read_state == 0
      then 9 - length s.header_buf_partial
      else s.current_frame_head.length - length s.payload_buf

  -- A read that returned the bytes `bs`.
  unfoldable pub http2_manager_session : Incoming → List ℕ → Incoming
  http2_manager_session s bs =
      if s.closed
      then s
      else if ltb s.preface_bytes_read 24
      then process_preface s bs
      else if s.read_state == 0
      then read_frame_header s bs
      else read_frame_payload s bs
