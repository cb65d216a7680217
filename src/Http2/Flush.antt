-- ===== src/Http2/Flush.antt =====
-- The static files that `http2_response_flush_active_streams` of src/protocol/http2/halmos_http2_response.c sends
-- within the flow control windows: one turn for one stream. The windows are 32 bit patterns of an `int32_t`.
pub mod Turn
pub mod Order
use halmos.Base.{
  ℕ, ◌+◌, ◌-◌, ◌%◌, ◌^◌, Bool, true, false, ◌&&◌, ◌||◌, not, Option, some, none, List, [], ◌∷◌,
  ◌++◌, ltb, leb, ◌==◌, if◌then◌else◌, length,
}

-- What a turn reads and writes, and the DATA frames that were sent for the stream: their flags and payloads.
pub record FileStream : Type 0 where
  pub is_sending_file : Bool
  pub is_open : Bool
  pub file_offset : ℕ
  pub file_size : ℕ
  pub stream_win : ℕ
  pub conn_win : ℕ
  pub state : ℕ
  pub sent : List (ℕ × List ℕ)

abbrev pub http2_state_closed : ℕ
http2_state_closed = 6

abbrev pub http2_max_frame_size : ℕ
http2_max_frame_size = 16384

-- `win <= 0`
abbrev pub is_shut : ℕ → Bool
is_shut win = (win == 0) || leb (2 ^ 31) win

-- `max_allowed`
unfoldable pub max_allowed : FileStream → ℕ
max_allowed s =
    let a = if ltb s.conn_win http2_max_frame_size then s.conn_win else http2_max_frame_size in
    let b = if ltb s.stream_win a then s.stream_win else a in
    let bytes_remaining = s.file_size - s.file_offset in
    if ltb bytes_remaining b then bytes_remaining else b

abbrev pub close_file : FileStream → FileStream
close_file s = record s { is_open = false; is_sending_file = false; state = http2_state_closed }

-- The frame of the bytes that were read, and the state behind it.
unfoldable pub send_chunk : FileStream → List ℕ → FileStream
send_chunk s bytes =
    let n_read = length bytes in
    let flags = if leb s.file_size (s.file_offset + n_read) then 1 else 0 in
    let s' = record s {
      conn_win = (s.conn_win + (2 ^ 32 - n_read)) % 2 ^ 32;
      stream_win = (s.stream_win + (2 ^ 32 - n_read)) % 2 ^ 32;
      file_offset = s.file_offset + n_read;
      sent = s.sent ++ (flags, bytes) ∷ [];
    } in
    if leb s.file_size (s.file_offset + n_read) then close_file s' else s'

-- What `pread` gave: nothing for an error.
abbrev pub after_read : FileStream → Option (List ℕ) → FileStream
after_read s none = close_file s
after_read s (some []) = close_file s
after_read s (some (b ∷ bytes)) = send_chunk s (b ∷ bytes)

-- `pread` is the operating system's: the number of bytes asked for, and the place.
unfoldable pub flush_file : (ℕ → ℕ → Option (List ℕ)) → FileStream → FileStream
flush_file pread s =
    if not (s.is_sending_file && s.is_open) || (s.state == http2_state_closed)
    then s
    else if leb s.file_size s.file_offset
    then s
    else if is_shut s.conn_win || is_shut s.stream_win
    then s
    else if max_allowed s == 0
    then s
    else after_read s (pread (max_allowed s) s.file_offset)
