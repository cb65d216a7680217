-- ===== src/Http2/Socket.antt =====
-- The write backlog of a session, src/protocol/http2/halmos_http2_socket.c. What the socket takes is
-- kept as the bytes on the wire.
pub mod Order
pub mod Drain
use halmos.Base.{
  ℕ, ◌+◌, ◌-◌, min, Bool, true, false, ◌||◌, not, List, [], ◌∷◌, ◌++◌, leb, ◌==◌, if◌then◌else◌,
  length, take, drop,
}

-- The fields of `HTTP2Session` that the functions use.
pub record Outgoing : Type 0 where
  pub pending_write_buf : List ℕ
  pub pending_write_len : ℕ
  pub pending_write_offset : ℕ
  pub write_error : Bool
  pub wire : List ℕ

-- What `http2_socket_write` returns: a count, which is at most the bytes given, EAGAIN or an error.
pub data Written : Type 0 where
  wrote : ℕ → Written
  retry : Written
  hard_error : Written

abbrev pub taken : ℕ → List ℕ → ℕ
taken n bytes = min n (length bytes)

-- The new bytes behind what is left of the old ones, in a buffer of its own.
unfoldable pub add_backlog : Outgoing → List ℕ → Bool → Outgoing
add_backlog s remaining malloc_ok =
    let old_unsent = s.pending_write_len - s.pending_write_offset in
    if malloc_ok
    then record s {
      pending_write_buf =
          take old_unsent (drop s.pending_write_offset s.pending_write_buf) ++ remaining;
      pending_write_len = old_unsent + length remaining;
      pending_write_offset = 0;
    }
    else record s { write_error = true }

unfoldable pub write_directly : Outgoing → List ℕ → Written → Bool → Outgoing
write_directly s bytes (wrote n) malloc_ok =
    let already_sent = taken n bytes in
    let s' = record s { wire = s.wire ++ take already_sent bytes } in
    if already_sent == length bytes then s' else add_backlog s' (drop already_sent bytes) malloc_ok
write_directly s bytes retry malloc_ok = add_backlog s bytes malloc_ok
write_directly s bytes hard_error malloc_ok = record s { write_error = true }

unfoldable pub http2_socket_write_or_buffer : Outgoing → List ℕ → Written → Bool → Outgoing
http2_socket_write_or_buffer s bytes n malloc_ok =
    if length bytes == 0
    then s
    else if leb s.pending_write_len s.pending_write_offset
    then write_directly s bytes n malloc_ok
    else add_backlog s bytes malloc_ok

-- The return values 0, 1 and -1.
pub data Flush : Type 0 where
  finished : Flush
  unfinished : Flush
  lost : Flush

unfoldable pub flush_rest : Outgoing → List ℕ → Written → Flush × Outgoing
flush_rest s rest (wrote n) =
    let sent = taken n rest in
    let offset = s.pending_write_offset + sent in
    let s' = record s { wire = s.wire ++ take sent rest; pending_write_offset = offset } in
    if sent == 0
    then (unfinished, s)
    else if leb s.pending_write_len offset
    then (
      finished,
      record s' { pending_write_buf = []; pending_write_len = 0; pending_write_offset = 0 },
    )
    else (unfinished, s')
flush_rest s rest retry = (unfinished, s)
flush_rest s rest hard_error = (lost, s)

unfoldable pub http2_socket_flush_pending_write : Outgoing → Written → Flush × Outgoing
http2_socket_flush_pending_write s n =
    let remaining = s.pending_write_len - s.pending_write_offset in
    if leb s.pending_write_len s.pending_write_offset
    then (finished, s)
    else flush_rest s (take remaining (drop s.pending_write_offset s.pending_write_buf)) n
