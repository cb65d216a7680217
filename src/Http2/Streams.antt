-- ===== src/Http2/Streams.antt =====
-- The streams of a session, src/protocol/http2/halmos_http2_stream.c: 32 chains behind a Fibonacci
-- hash, newest stream first. A pointer to a stream is its identifier.
pub mod Lookup
use halmos.Base.{
  ℕ, suc, ◌+◌, ◌*◌, ◌/◌, ◌%◌, ◌^◌, Bool, true, false, Option, none, some, List, [], ◌∷◌, ◌==◌,
  if◌then◌else◌, length,
}

-- Of the fields of `HTTP2Stream` those that the parser works on; `body_data` is the accumulated body.
pub record Stream : Type 0 where
  pub stream_id : ℕ
  pub out_window_size : ℕ
  pub state : ℕ
  pub is_upgrade : Bool
  pub body_data : List ℕ
  pub content_length : ℕ

-- `streams_hash` by the bucket's number. An `int32_t` window is its 32 bit pattern.
pub record Session : Type 0 where
  pub out_window_size : ℕ
  pub peer_initial_window_size : ℕ
  pub streams_hash : ℕ → List Stream
  pub active_stream_count : ℕ

abbrev pub http2_golden_ratio_32 : ℕ
http2_golden_ratio_32 = 2654435769

abbrev pub http2_stream_buckets : ℕ
http2_stream_buckets = 32

-- `hash >> (32 - HTTP2_HASH_POWER)`
unfoldable pub http2_stream_get_bucket_fibonacci : ℕ → ℕ
http2_stream_get_bucket_fibonacci stream_id = stream_id * http2_golden_ratio_32 % 2 ^ 32 / 2 ^ 27

unfoldable pub find_in_chain : ℕ → List Stream → Option Stream
find_in_chain id [] = none
find_in_chain id (st ∷ chain) = if st.stream_id == id then some st else find_in_chain id chain

unfoldable pub http2_stream_find_unlocked : Session → ℕ → Option Stream
http2_stream_find_unlocked s id =
    if id == 0
    then none
    else find_in_chain id (s.streams_hash (http2_stream_get_bucket_fibonacci id))

abbrev pub new_stream : Session → ℕ → Stream
new_stream s id = record {
  stream_id = id;
  out_window_size = s.peer_initial_window_size;
  state = 0;
  is_upgrade = false;
  body_data = [];
  content_length = 0;
}

unfoldable pub set_bucket : (ℕ → List Stream) → ℕ → List Stream → ℕ → List Stream
set_bucket h b chain i = if i == b then chain else h i

unfoldable pub insert_stream : Session → ℕ → Session
unfolding set_bucket
insert_stream s id =
    let b = http2_stream_get_bucket_fibonacci id in
    record s {
      streams_hash = set_bucket s.streams_hash b (new_stream s id ∷ s.streams_hash b);
      active_stream_count = (s.active_stream_count + 1) % 2 ^ 32;
    }

-- The stream, `none` where `calloc` fails. (The address of the peer is not modelled.)
unfoldable pub http2_stream_get_or_create : Session → ℕ → Bool → Session × Option Stream
http2_stream_get_or_create s id calloc_ok =
    elim (find_in_chain id (s.streams_hash (http2_stream_get_bucket_fibonacci id))) [
      | some st ↦ (s, some st)
      | none ↦ if calloc_ok then (insert_stream s id, some (new_stream s id)) else (s, none)
    ]

-- A write through the pointer to a stream.
unfoldable pub update_chain : ℕ → (Stream → Stream) → List Stream → List Stream
update_chain id f [] = []
update_chain id f (st ∷ chain) =
    if st.stream_id == id then f st ∷ chain else st ∷ update_chain id f chain

unfoldable pub update_stream : Session → ℕ → (Stream → Stream) → Session
unfolding set_bucket
update_stream s id f =
    let b = http2_stream_get_bucket_fibonacci id in
    record s { streams_hash = set_bucket s.streams_hash b (update_chain id f (s.streams_hash b)) }
