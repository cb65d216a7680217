-- ===== src/Tests/Http2.antt =====
-- Runs of the HTTP/2 layer, src/protocol/http2/.
use mathlib.Core.Option
use halmos.Base.{
  map, false, ℕ, ◌+◌, ◌^◌, ◌≡◌, ◌≢◌, refl, ◌⊎◌, true, none, some, List, [], ◌∷◌, take, drop, codes,
  arith,
}
use halmos.Http2.{FrameHeader, http2_frame_send, http2_parser_frame_header}
use halmos.Http2.Frame.{frame_header-send}
use halmos.Http2.Streams.{
  Stream, Session, new_stream, http2_stream_get_bucket_fibonacci, find_in_chain,
  http2_stream_find_unlocked, http2_stream_get_or_create, insert_stream, set_bucket,
}
use halmos.Http2.Streams.Lookup.{find-get_or_create}
use halmos.Http2.Payload.{window_update, http2_parser_handle_data}
use halmos.Http2.Payload.Body.{handle_data-accumulates}
use halmos.Http2.Control.{dispatch_control, settings_ack}
use halmos.Http2.Control.Effects.{
  used, announced, closed_stream, dispatch_settings, find-dispatch_reset,
}

frame_header-send_example :
    (bytes : List ℕ) × (http2_frame_send 1 4 (2 ^ 31 + 3) (codes "abc") ≡ some bytes)
    × (http2_parser_frame_header bytes
        ≡ some (record { length = 3; type = 1; flags = 4; stream_id = 3 }))
    × (drop 9 bytes ≡ codes "abc")
frame_header-send_example = frame_header-send 1 4 (2 ^ 31 + 3) (codes "abc") (omega arith)

abbrev empty_session : Session
empty_session = record {
  out_window_size = 65535;
  peer_initial_window_size = 65535;
  streams_hash = λ i. [];
  active_stream_count = 0;
}

find-get_or_create_example :
    let (s', st) = http2_stream_get_or_create empty_session 5 true in
    (http2_stream_find_unlocked s' 5 ≡ st)
    × ((j : ℕ)
        → j ≢ 5
        → http2_stream_find_unlocked s' j ≡ http2_stream_find_unlocked empty_session j)
    × (((st ≡ http2_stream_find_unlocked empty_session 5) × (s' ≡ empty_session))
        ⊎ ((http2_stream_find_unlocked empty_session 5 ≡ none)
            × (st ≡ some (new_stream empty_session 5))
            × (s'.active_stream_count ≡ 1)))
find-get_or_create_example = find-get_or_create empty_session 5 (ground arith)

-- A frame of 6 + 4 + 2 bytes with the PADDED and PRIORITY flags.
abbrev padded : FrameHeader
padded = record { length = 12; type = 1; flags = 0x28; stream_id = 5 }

abbrev last_data : FrameHeader
last_data = record { length = 3; type = 0; flags = 1; stream_id = 5 }

abbrev one_stream : Session
one_stream = insert_stream empty_session 5

handle_data-accumulates_example :
    let (s', effects) = http2_parser_handle_data one_stream last_data (codes "abc") true in
    ((st' : Stream) × (http2_stream_find_unlocked s' 5 ≡ some st')
      × (st'.body_data ≡ codes "abc")
      × (st'.state ≡ 4))
    × (take 2 effects ≡ window_update 5 3 ∷ window_update 0 3 ∷ [])
    × ((j : ℕ) → j ≢ 5 → http2_stream_find_unlocked s' j ≡ http2_stream_find_unlocked one_stream j)
unfolding http2_stream_find_unlocked insert_stream find_in_chain set_bucket
    http2_stream_get_bucket_fibonacci
handle_data-accumulates_example =
    handle_data-accumulates one_stream last_data (codes "abc") (new_stream empty_session 5) refl
      refl refl (ground arith) (omega arith)

abbrev update_head : FrameHeader
update_head = record { length = 4; type = 8; flags = 0; stream_id = 5 }

abbrev used_stream : Session
used_stream = record {
  out_window_size = 65535;
  peer_initial_window_size = 65535;
  streams_hash = λ b.
      record {
        stream_id = 3;
        out_window_size = 1000;
        state = 1;
        is_upgrade = false;
        body_data = [];
        content_length = 0;
      }
      ∷ [];
  active_stream_count = 1;
}

-- Initial window 100.
dispatch_settings_example :
    ((dispatch_control used_stream
        (record { length = 6; type = 4; flags = 0; stream_id = 0 })
        (0 ∷ 4 ∷ 0 ∷ 0 ∷ 0 ∷ 100 ∷ [])).1
      ≡ settings_ack)
    × ((dispatch_control used_stream
          (record { length = 6; type = 4; flags = 0; stream_id = 0 })
          (0 ∷ 4 ∷ 0 ∷ 0 ∷ 0 ∷ 100 ∷ [])).0.peer_initial_window_size
        ≡ announced 65535 (0 ∷ 4 ∷ 0 ∷ 0 ∷ 0 ∷ 100 ∷ []))
    × ((b : ℕ)
        → map
            (used
              (dispatch_control used_stream
                (record { length = 6; type = 4; flags = 0; stream_id = 0 })
                (0 ∷ 4 ∷ 0 ∷ 0 ∷ 0 ∷ 100 ∷ [])).0)
            ((dispatch_control used_stream
                (record { length = 6; type = 4; flags = 0; stream_id = 0 })
                (0 ∷ 4 ∷ 0 ∷ 0 ∷ 0 ∷ 100 ∷ [])).0.streams_hash
              b)
          ≡ map (used used_stream) (used_stream.streams_hash b))
dispatch_settings_example =
    dispatch_settings used_stream (record { length = 6; type = 4; flags = 0; stream_id = 0 })
      (0 ∷ 4 ∷ 0 ∷ 0 ∷ 0 ∷ 100 ∷ []) refl refl (omega arith) (omega arith)
      (omega arith, (omega arith, (omega arith, (omega arith, (omega arith, (omega arith, tt))))))

find-dispatch_reset_example :
    http2_stream_find_unlocked
      (dispatch_control used_stream
        (record { length = 4; type = 3; flags = 0; stream_id = 3 })
        (0 ∷ 0 ∷ 0 ∷ 8 ∷ [])).0
      3
    ≡ Option.map closed_stream (http2_stream_find_unlocked used_stream 3)
find-dispatch_reset_example =
    find-dispatch_reset used_stream (record { length = 4; type = 3; flags = 0; stream_id = 3 })
      (0 ∷ 0 ∷ 0 ∷ 8 ∷ []) 3 refl
