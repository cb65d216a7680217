-- ===== src/Http2/Manager/Frames.antt =====
-- Frames that src/protocol/http2/halmos_http2_frame.c writes, read by the session of
-- halmos_http2_manager.c.
use mathlib.Core.List.{append_assoc, append-nil}
use halmos.Base.{
  ℕ, ◌+◌, ◌%◌, ◌^◌, ◌≤◌, ◌≡◌, ◌≢◌, refl, sym, ◌∙◌, ap, Bool, true, false, Option, some, none, List,
  [], ◌∷◌, ◌++◌, map, ◌==◌, All, length, arith,
}
use halmos.Reader.{feed_bytes, feed_bytes-chunk, deliver, reads, deliver_lem}
use halmos.Http2.{FrameHeader, http2_frame_send, http2_parser_frame_header}
use halmos.Http2.Frame.{http2_frame_send_lem}
use halmos.Http2.Manager.{
  Incoming, session_init, dispatch_frame, process_preface, read_frame_payload, header_read,
  header_buffered, read_frame_header,
}
use halmos.Http2.Manager.Fill.{session, in_preface, in_header, in_payload, session_reader}

-- What is sent in a frame.
pub record Frame : Type 0 where
  pub type : ℕ
  pub flags : ℕ
  pub stream_id : ℕ
  pub payload : List ℕ

-- The bytes, none if the frame is refused.
unfoldable pub bytes_or_none : Option (List ℕ) → List ℕ
bytes_or_none (some bytes) = bytes
bytes_or_none none = []

unfoldable pub stream : List Frame → List ℕ
stream [] = []
stream (f ∷ frames) =
    bytes_or_none (http2_frame_send f.type f.flags f.stream_id f.payload) ++ stream frames

-- What `dispatch_frame` gets for it.
abbrev pub head_of : Frame → FrameHeader
head_of f = record {
  length = length f.payload;
  type = f.type;
  flags = f.flags;
  stream_id = f.stream_id % 2 ^ 31;
}

abbrev pub received : Frame → FrameHeader × List ℕ
received f = (head_of f, f.payload)

-- Between two frames, behind the preface.
pub record IsReady (s : Incoming) : Type 0 where
  pub no_preface : s.preface_bytes_read ≡ 24
  pub at_header : s.read_state ≡ 0
  pub no_header : s.header_buf_partial ≡ []
  pub alive : s.closed ≡ false

module _ (max_allowed_payload : ℕ) (malloc_ok : ℕ → Bool) where
  -- A frame other than GOAWAY that fits the limits of the sender and of the receiver.
  pub record IsSent (f : Frame) : Type 0 where
    pub stays : f.type ≢ 7
    pub sendable : length f.payload ≤ 16384
    pub allowed : length f.payload ≤ max_allowed_payload
    pub memory : malloc_ok (length f.payload) ≡ true

  abbrev run : Incoming → List ℕ → Incoming
  run s bs = feed_bytes (session_reader max_allowed_payload malloc_ok) s bs

  dispatched_next :
      (s : Incoming)
      → s.preface_bytes_read ≡ 24
      → s.closed ≡ false
      → s.current_frame_head.type ≢ 7
      → IsReady (dispatch_frame s)
        × ((dispatch_frame s).dispatched
            ≡ s.dispatched ++ (s.current_frame_head, s.payload_buf) ∷ [])
  unfolding dispatch_frame
  dispatched_next s p c h =
      let e : (s.current_frame_head.type == 7) ≡ false = ground arith in
      rw e (record { no_preface = p; at_header = refl; no_header = refl; alive = c }, refl)

  buffered_lem :
      (s : Incoming) (bytes : List ℕ) (head : FrameHeader)
      → length bytes ≡ 9
      → http2_parser_frame_header bytes ≡ some head
      → header_buffered max_allowed_payload malloc_ok s bytes
        ≡ header_read max_allowed_payload malloc_ok (record s { header_buf_partial = bytes }) head
  unfolding header_buffered
  buffered_lem s bytes head nine parsed =
      let e : (length bytes == 9) ≡ true = ground (arith, nine) in rw (e, parsed) refl

  -- Nine bytes of a header.
  header_ready :
      (s : Incoming) (bytes : List ℕ) (head : FrameHeader)
      → IsReady s
      → length bytes ≡ 9
      → http2_parser_frame_header bytes ≡ some head
      → session max_allowed_payload malloc_ok s bytes
        ≡ header_read max_allowed_payload malloc_ok (record s { header_buf_partial = bytes }) head
  unfolding read_frame_header
  header_ready s bytes head ok nine parsed =
      let here =
        in_header max_allowed_payload malloc_ok s bytes ok.alive (ground (arith, ok.no_preface))
          (ground (arith, ok.at_header)) in
      here.0
      ∙ (ap (λ x. header_buffered max_allowed_payload malloc_ok s (x ++ bytes)) ok.no_header
          ∙ buffered_lem s bytes head nine parsed)

  -- From the header on.
  run_payload :
      (s : Incoming) (head : FrameHeader) (payload rest : List ℕ)
      → s.preface_bytes_read ≡ 24
      → s.closed ≡ false
      → head.type ≢ 7
      → head.length ≡ length payload
      → length payload ≤ max_allowed_payload
      → malloc_ok (length payload) ≡ true
      → (s' : Incoming) × IsReady s'
        × (s'.dispatched ≡ s.dispatched ++ (head, payload) ∷ [])
        × (run (header_read max_allowed_payload malloc_ok s head) (payload ++ rest) ≡ run s' rest)
  unfolding header_read session_reader read_frame_payload
  run_payload s head [] rest p c h n allowed memory =
      let s₁ = record s { current_frame_head = head; read_state = 1; payload_buf = [] } in
      let (ready, all) = dispatched_next s₁ p c h in (dispatch_frame s₁, ready, all, rw n refl)
  run_payload s head (x ∷ xs) rest p c h n allowed memory =
      let s₁ = record s { current_frame_head = head; read_state = 1; payload_buf = [] } in
      let s₂ = record s₁ { payload_buf = x ∷ xs } in
      let (ready, all) = dispatched_next s₂ p c h in
      let (fed, room) =
        in_payload max_allowed_payload malloc_ok s₁ (x ∷ xs) c (ground (arith, p)) (ground arith) in
      let opened : header_read max_allowed_payload malloc_ok s head ≡ s₁ =
        ground (arith, n, memory) in
      let filled : read_frame_payload s₁ (x ∷ xs) ≡ dispatch_frame s₂ = ground (arith, n) in
      (
        dispatch_frame s₂,
        ready,
        all,
        ap (λ t. run t (x ∷ (xs ++ rest))) opened
            ∙ (feed_bytes-chunk (session_reader max_allowed_payload malloc_ok) s₁ (x ∷ xs) rest
                  (omega arith) (omega (arith, n, room))
                ∙ ap (λ t. run t rest) (fed ∙ filled)),
      )

  -- A frame, from the state between two frames to the state between two frames.
  run_frame :
      (s : Incoming) (f : Frame) (rest : List ℕ)
      → IsReady s
      → IsSent f
      → (s' : Incoming) × IsReady s'
        × (s'.dispatched ≡ s.dispatched ++ received f ∷ [])
        × (run s (bytes_or_none (http2_frame_send f.type f.flags f.stream_id f.payload) ++ rest)
            ≡ run s' rest)
  unfolding session_reader bytes_or_none
  run_frame s f rest ok sent =
      let (bytes, written, nine, parsed) =
        http2_frame_send_lem f.type f.flags f.stream_id f.payload sent.sendable in
      let s₁ = record s { header_buf_partial = bytes } in
      let (s', ready, all, ran) =
        run_payload s₁ (head_of f) f.payload rest ok.no_preface ok.alive sent.stays refl
          sent.allowed sent.memory in
      let room =
        (in_header max_allowed_payload malloc_ok s bytes ok.alive (ground (arith, ok.no_preface))
          (ground (arith, ok.at_header))).1 in
      let empty : length s.header_buf_partial ≡ 0 = ap length ok.no_header in
      let chunk =
        feed_bytes-chunk (session_reader max_allowed_payload malloc_ok) s bytes (f.payload ++ rest)
          (omega arith) (omega (arith, room, empty, nine)) in
      (
        s',
        ready,
        all,
        rw (written, append_assoc bytes f.payload rest)
            (chunk
              ∙ (ap (λ t. run t (f.payload ++ rest))
                    (header_ready s bytes (head_of f) ok nine parsed)
                  ∙ ran)),
      )

  run_frames :
      (s : Incoming) (frames : List Frame)
      → IsReady s
      → All IsSent frames
      → IsReady (run s (stream frames))
        × ((run s (stream frames)).dispatched ≡ s.dispatched ++ map received frames)
  unfolding stream feed_bytes
  run_frames s [] ok h = (ok, sym (append-nil s.dispatched))
  run_frames s (f ∷ frames) ok (h, hs) =
      let (s', ready, one, ran) = run_frame s f (stream frames) ok h in
      let (ready', all) = run_frames s' frames ready hs in
      rw ran (
        ready',
        all
            ∙ (ap (λ x. x ++ map received frames) one
                ∙ append_assoc s.dispatched (received f ∷ []) (map received frames)),
      )

  -- A client sends 24 bytes of preface and frames that `http2_frame_send` writes, none of them a
  -- GOAWAY, each within the receiver's limit and memory. However the socket cuts the stream into reads,
  -- with a read that is not empty for each byte the session hands every frame to its handler with its
  -- type, flags, stream (without its top bit) and payload, in order, and awaits the next header.
  pub deliver-frames :
      (preface : List ℕ) (frames : List Frame) (sizes : List ℕ)
      → length preface ≡ 24
      → All IsSent frames
      → length (preface ++ stream frames) ≤ reads sizes
      → let s =
          (deliver
            (session_reader max_allowed_payload malloc_ok)
            session_init
            sizes
            (preface ++ stream frames)).0 in
        (s.dispatched ≡ map received frames) × IsReady s
  unfolding session_reader process_preface
  deliver-frames preface frames sizes n h enough =
      let r = session_reader max_allowed_payload malloc_ok in
      let (fed, room) = in_preface max_allowed_payload malloc_ok session_init preface refl refl in
      let s₁ = record session_init { preface_bytes_read = 0 + length preface } in
      let (ready, all) =
        run_frames s₁ frames
          (record {
            no_preface = omega (arith, n);
            at_header = refl;
            no_header = refl;
            alive = refl;
          })
          h in
      let e =
        deliver_lem r session_init sizes (preface ++ stream frames) enough
        ∙ (feed_bytes-chunk r session_init preface (stream frames) (omega arith)
              (omega (arith, room))
            ∙ ap (λ t. run t (stream frames)) fed) in
      rw e (all, ready)
