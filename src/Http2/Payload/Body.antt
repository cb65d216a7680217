-- ===== src/Http2/Payload/Body.antt =====
-- DATA frames, src/protocol/http2/halmos_http2_parser.c: the body that they build up, and what they
-- leave alone.
use halmos.Base.{
  ℕ, ◌+◌, ◌%◌, ◌^◌, ◌<◌, ◌≡◌, ◌≢◌, refl, sym, ◌∙◌, ap, subst, inl, inr, true, false, some, List, [],
  ◌∷◌, ◌++◌, ◌==◌, if◌then◌else◌, Bool-cases, length, not, take, bit_and, arith,
}
use halmos.Http2.{FrameHeader}
use halmos.Http2.Streams.{
  Stream, Session, http2_stream_get_bucket_fibonacci, http2_stream_find_unlocked, find_in_chain,
  update_chain, update_stream, set_bucket,
}
use halmos.Http2.Payload.{
  append_stream_body, Effect, window_update, bridge, handle_stream_end, http2_parser_handle_data,
  put_stream, closed_state,
}

find_chain-id :
    (id : ℕ) (chain : List Stream) (st : Stream)
    → find_in_chain id chain ≡ some st
    → st.stream_id ≡ id
unfolding find_in_chain
find_chain-id id [] st e = cc
find_chain-id id (x ∷ chain) st e = ground (arith, find_chain-id id chain st)

update_chain-find :
    (id : ℕ) (f : Stream → Stream) (chain : List Stream) (st : Stream)
    → find_in_chain id chain ≡ some st
    → (f st).stream_id ≡ id
    → find_in_chain id (update_chain id f chain) ≡ some (f st)
unfolding find_in_chain update_chain
update_chain-find id f [] st e k = cc
update_chain-find id f (x ∷ chain) st e k = ground (arith, update_chain-find id f chain st)

update_chain-other :
    (id j : ℕ) (f : Stream → Stream) (chain : List Stream)
    → j ≢ id
    → ((x : Stream) → x.stream_id ≡ id → (f x).stream_id ≡ id)
    → find_in_chain j (update_chain id f chain) ≡ find_in_chain j chain
unfolding find_in_chain update_chain
update_chain-other id j f [] ne k = refl
update_chain-other id j f (x ∷ chain) ne k =
    ground (arith, k x, update_chain-other id j f chain ne k)

-- A write through the pointer to the stream, seen by the next lookup.
pub find-update :
    (s : Session) (id : ℕ) (f : Stream → Stream) (st : Stream)
    → http2_stream_find_unlocked s id ≡ some st
    → (f st).stream_id ≡ id
    → http2_stream_find_unlocked (update_stream s id f) id ≡ some (f st)
unfolding http2_stream_find_unlocked update_stream set_bucket
find-update s id f st e k =
    let chain = s.streams_hash (http2_stream_get_bucket_fibonacci id) in
    ground (arith, update_chain-find id f chain st)

pub find-update_other :
    (s : Session) (id j : ℕ) (f : Stream → Stream)
    → j ≢ id
    → ((x : Stream) → x.stream_id ≡ id → (f x).stream_id ≡ id)
    → http2_stream_find_unlocked (update_stream s id f) j ≡ http2_stream_find_unlocked s j
unfolding http2_stream_find_unlocked update_stream set_bucket
find-update_other s id j f ne k =
    let chain = s.streams_hash (http2_stream_get_bucket_fibonacci id) in
    ground (arith, ap s.streams_hash, update_chain-other id j f chain ne k)

abbrev updates : FrameHeader → List Effect
updates head = window_update head.stream_id head.length ∷ window_update 0 head.length ∷ []

abbrev longer : Stream → List ℕ → Stream
longer st payload = record st { body_data = st.body_data ++ payload }

abbrev closed : Stream → Stream
closed st = record st { content_length = length st.body_data % 2 ^ 32; state = closed_state }

append_fits :
    (st : Stream) (head : FrameHeader) (payload : List ℕ)
    → length st.body_data + head.length < 2 ^ 64
    → append_stream_body st head payload true ≡ some (longer st payload)
unfolding append_stream_body
append_fits st head payload fits = ground arith

-- The two ways through the handler for such a frame.
handle_goes_on :
    (s : Session) (head : FrameHeader) (payload : List ℕ) (st : Stream)
    → http2_stream_find_unlocked s head.stream_id ≡ some st
    → append_stream_body st head payload true ≡ some (longer st payload)
    → st.is_upgrade ≡ false
    → (head.length == 0) ≡ false
    → (bit_and head.flags 0x01 == 0) ≡ true
    → http2_parser_handle_data s head payload true
      ≡ (put_stream s (longer st payload), updates head)
unfolding http2_parser_handle_data
handle_goes_on s head payload st e a up len ends =
    rw (e, http2_parser_handle_data, a) (ground arith)

handle_ends :
    (s : Session) (head : FrameHeader) (payload : List ℕ) (st : Stream)
    → http2_stream_find_unlocked s head.stream_id ≡ some st
    → append_stream_body st head payload true ≡ some (longer st payload)
    → st.is_upgrade ≡ false
    → (head.length == 0) ≡ false
    → (bit_and head.flags 0x01 == 0) ≡ false
    → let new = longer st payload in
      http2_parser_handle_data s head payload true ≡ (
        put_stream (put_stream s new) (closed new),
        updates head
            ++ (bridge (record new { content_length = length new.body_data % 2 ^ 32 }) ∷ []),
      )
unfolding http2_parser_handle_data handle_stream_end
handle_ends s head payload st e a up len ends = rw (e, http2_parser_handle_data, a) (ground arith)

pub find_unlocked-id :
    (s : Session) (id : ℕ) (st : Stream)
    → http2_stream_find_unlocked s id ≡ some st
    → st.stream_id ≡ id
unfolding http2_stream_find_unlocked
find_unlocked-id s id st e =
    ground (arith, find_chain-id id (s.streams_hash (http2_stream_get_bucket_fibonacci id)) st)

-- A stream put back under its own identifier.
find-put :
    (s : Session) (id : ℕ) (st new : Stream)
    → http2_stream_find_unlocked s id ≡ some st
    → new.stream_id ≡ id
    → http2_stream_find_unlocked (put_stream s new) id ≡ some new
find-put s id st new e k =
    subst (λ n. http2_stream_find_unlocked (update_stream s n (λ old. new)) id ≡ some new) (sym k)
      (find-update s id (λ old. new) st e k)

find-put_other :
    (s : Session) (id j : ℕ) (new : Stream)
    → j ≢ id
    → new.stream_id ≡ id
    → http2_stream_find_unlocked (put_stream s new) j ≡ http2_stream_find_unlocked s j
find-put_other s id j new ne k =
    find-update_other s new.stream_id j (λ old. new) (λ q. ne (q ∙ k)) (λ x q. refl)

nonzero : (n : ℕ) → n ≢ 0 → (n == 0) ≡ false
nonzero n h = ground arith

-- A DATA frame that fits, on an open stream that is no websocket, with memory at hand: afterwards the
-- stream's body is the old one followed by the payload, its state is 4 if the frame ends the stream
-- and else the old one, both windows are given the payload's length back, and every other stream is
-- found as before.
pub handle_data-accumulates :
    (s : Session) (head : FrameHeader) (payload : List ℕ) (st : Stream)
    → http2_stream_find_unlocked s head.stream_id ≡ some st
    → st.is_upgrade ≡ false
    → head.length ≡ length payload
    → head.length ≢ 0
    → length st.body_data + head.length < 2 ^ 64
    → let (s', effects) = http2_parser_handle_data s head payload true in
      let ends = not (bit_and head.flags 0x01 == 0) in
      ((st' : Stream) × (http2_stream_find_unlocked s' head.stream_id ≡ some st')
        × (st'.body_data ≡ st.body_data ++ payload)
        × (st'.state ≡ (if ends then 4 else st.state)))
      × (take 2 effects
          ≡ window_update head.stream_id head.length ∷ window_update 0 head.length ∷ [])
      × ((j : ℕ)
          → j ≢ head.stream_id
          → http2_stream_find_unlocked s' j ≡ http2_stream_find_unlocked s j)
handle_data-accumulates s head payload st e up whole some_data fits =
    let new = longer st payload in
    let id = head.stream_id in
    let a = append_fits st head payload fits in
    let own = find_unlocked-id s id st e in
    let len = nonzero head.length some_data in
    elim (Bool-cases (bit_and head.flags 0x01 == 0)) [
      | inl on ↦
          rw (handle_goes_on s head payload st e a up len on, on)
            (
              (new, find-put s id st new e own, refl, refl),
              refl,
              λ j ne. find-put_other s id j new ne own,
            )
      | inr ends ↦
          rw (handle_ends s head payload st e a up len ends, ends)
            (
              (
                closed new,
                find-put (put_stream s new) id new (closed new) (find-put s id st new e own) own,
                refl,
                refl,
              ),
              refl,
              λ j ne.
                  find-put_other (put_stream s new) id j (closed new) ne own
                  ∙ find-put_other s id j new ne own,
            )
    ]
