-- ===== src/Http2/Control/Effects.antt =====
-- What the control frames of src/protocol/http2/halmos_http2_manager.c leave behind.
use mathlib.Core.Option
use halmos.Base.{
  ℕ, ◌+◌, ◌-◌, ◌*◌, ◌%◌, ◌^◌, ◌≤◌, ◌<◌, ◌≡◌, refl, ◌∙◌, ap, inl, inr, true, List, [], ◌∷◌, map, leb,
  ◌==◌, if◌then◌else◌, Bool-cases, All, bit_and, arith,
}
use halmos.Http2.{FrameHeader}
use halmos.Http2.Streams.{
  Stream, Session, find_in_chain, http2_stream_find_unlocked, http2_stream_get_bucket_fibonacci,
}
use halmos.Http2.Control.{
  http2_state_closed, close_in_chain, reset_stream, add_delta, apply_setting, apply_settings,
  settings_ack, dispatch_control,
}

abbrev pub IsByte : ℕ → Type 0
IsByte b = b < 256

-- How far the window of a stream is from the initial one, on 32 bit patterns.
abbrev pub used : Session → Stream → ℕ × ℕ
used s st = (st.stream_id, (st.out_window_size + (2 ^ 32 - s.peer_initial_window_size)) % 2 ^ 32)

used_moved :
    (w old val : ℕ)
    → old < 2 ^ 32
    → val < 2 ^ 32
    → ((w + (val + (2 ^ 32 - old)) % 2 ^ 32) % 2 ^ 32 + (2 ^ 32 - val)) % 2 ^ 32
      ≡ (w + (2 ^ 32 - old)) % 2 ^ 32
used_moved w old val h h' = omega arith

used_map :
    (s : Session) (val : ℕ) (chain : List Stream)
    → s.peer_initial_window_size < 2 ^ 32
    → val < 2 ^ 32
    → map
        (used (record s { peer_initial_window_size = val }))
        (map (add_delta ((val + (2 ^ 32 - s.peer_initial_window_size)) % 2 ^ 32)) chain)
      ≡ map (used s) chain
used_map s val [] h h' = refl
used_map s val (st ∷ chain) h h' =
    rw
      (used_map s val chain h h', used_moved st.out_window_size s.peer_initial_window_size val h h')
      refl

-- The initial window that a payload of settings announces: the last one in it, otherwise the old one.
unfoldable pub announced : ℕ → List ℕ → ℕ
announced old (b₀ ∷ b₁ ∷ b₂ ∷ b₃ ∷ b₄ ∷ b₅ ∷ rest) =
    announced (if b₀ * 2 ^ 8 + b₁ == 4 then b₂ * 2 ^ 24 + b₃ * 2 ^ 16 + b₄ * 2 ^ 8 + b₅ else old)
      rest
announced old _ = old

-- What an update of the settings keeps.
record Keeps (s s' : Session) : Type 0 where
  initial : s'.peer_initial_window_size < 2 ^ 32
  windows : (b : ℕ) → map (used s') (s'.streams_hash b) ≡ map (used s) (s.streams_hash b)

apply_setting-Keeps :
    (s : Session) (id val : ℕ)
    → s.peer_initial_window_size < 2 ^ 32
    → val < 2 ^ 32
    → Keeps s (apply_setting s id val)
unfolding apply_setting
apply_setting-Keeps s id val h h' = elim (Bool-cases (id == 4)) [
  | inl e ↦ rw e (record { initial = h'; windows = λ b. used_map s val (s.streams_hash b) h h' })
  | inr e ↦ rw e (record { initial = h; windows = λ b. refl })
]

apply_setting-value :
    (s : Session) (id val : ℕ)
    → (apply_setting s id val).peer_initial_window_size
      ≡ (if id == 4 then val else s.peer_initial_window_size)
unfolding apply_setting
apply_setting-value s id val = ground arith

apply_settings-announced :
    (s : Session) (payload : List ℕ)
    → (apply_settings s payload).peer_initial_window_size
      ≡ announced s.peer_initial_window_size payload
unfolding apply_settings announced
apply_settings-announced s (b₀ ∷ b₁ ∷ b₂ ∷ b₃ ∷ b₄ ∷ b₅ ∷ rest) =
    let id = b₀ * 2 ^ 8 + b₁ in
    let val = b₂ * 2 ^ 24 + b₃ * 2 ^ 16 + b₄ * 2 ^ 8 + b₅ in
    apply_settings-announced (apply_setting s id val) rest
    ∙ ap (λ old. announced old rest) (apply_setting-value s id val)
apply_settings-announced s _ = refl

apply_settings-Keeps :
    (s : Session) (payload : List ℕ)
    → s.peer_initial_window_size < 2 ^ 32
    → All IsByte payload
    → Keeps s (apply_settings s payload)
unfolding apply_settings
apply_settings-Keeps s (b₀ ∷ b₁ ∷ b₂ ∷ b₃ ∷ b₄ ∷ b₅ ∷ rest) h
      (h₀, (h₁, (h₂, (h₃, (h₄, (h₅, hs)))))) =
    let id = b₀ * 2 ^ 8 + b₁ in
    let val = b₂ * 2 ^ 24 + b₃ * 2 ^ 16 + b₄ * 2 ^ 8 + b₅ in
    let one = apply_setting-Keeps s id val h (omega arith) in
    let more = apply_settings-Keeps (apply_setting s id val) rest one.initial hs in
    record { initial = more.initial; windows = λ b. more.windows b ∙ one.windows b }
apply_settings-Keeps s _ h hs = record { initial = h; windows = λ b. refl }

-- A SETTINGS frame of at least six bytes that is no acknowledgement is acknowledged, sets the initial window
-- to the last one that it announces, and moves the window of every stream by the change, so that what a stream
-- has used of its window stays, on 32 bit patterns.
pub dispatch_settings :
    (s : Session) (head : FrameHeader) (payload : List ℕ)
    → head.type ≡ 4
    → bit_and head.flags 0x01 ≡ 0
    → 6 ≤ head.length
    → s.peer_initial_window_size < 2 ^ 32
    → All IsByte payload
    → let (s', answer) = dispatch_control s head payload in
      (answer ≡ settings_ack)
      × (s'.peer_initial_window_size ≡ announced s.peer_initial_window_size payload)
      × ((b : ℕ) → map (used s') (s'.streams_hash b) ≡ map (used s) (s.streams_hash b))
unfolding dispatch_control
dispatch_settings s head payload type no_ack long h bytes =
    let enough : leb 6 head.length ≡ true = ground arith in
    rw (type, no_ack, enough)
      (refl, apply_settings-announced s payload, (apply_settings-Keeps s payload h bytes).windows)

abbrev pub closed_stream : Stream → Stream
closed_stream st = record st { state = http2_state_closed }

find-close_in_chain :
    (i j : ℕ) (chain : List Stream)
    → find_in_chain j (close_in_chain i chain)
      ≡ (if i == j then Option.map closed_stream (find_in_chain j chain) else find_in_chain j chain)
unfolding find_in_chain close_in_chain
find-close_in_chain i j [] = ground arith
find-close_in_chain i j (st ∷ chain) = ground (arith, find-close_in_chain i j chain)

find-reset :
    (s : Session) (i j : ℕ)
    → http2_stream_find_unlocked (reset_stream s i) j ≡ (
        if i == j
        then Option.map closed_stream (http2_stream_find_unlocked s j)
        else http2_stream_find_unlocked s j)
unfolding reset_stream http2_stream_find_unlocked
find-reset s i j =
    let here = find-close_in_chain i j (s.streams_hash (http2_stream_get_bucket_fibonacci j)) in
    elim (Bool-cases (j == 0)) [ inl e ↦ rw e (ground arith) | inr e ↦ rw e here ]

-- After RST_STREAM the stream that it names is closed, if it exists, and every other stream is found as
-- before.
pub find-dispatch_reset :
    (s : Session) (head : FrameHeader) (payload : List ℕ) (j : ℕ)
    → head.type ≡ 3
    → let s' = (dispatch_control s head payload).0 in
      http2_stream_find_unlocked s' j ≡ (
        if head.stream_id == j
        then Option.map closed_stream (http2_stream_find_unlocked s j)
        else http2_stream_find_unlocked s j)
unfolding dispatch_control
find-dispatch_reset s head payload j type = rw type (find-reset s head.stream_id j)
