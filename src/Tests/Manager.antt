-- ===== src/Tests/Manager.antt =====
-- Runs of the reading and writing of src/protocol/http2/halmos_http2_manager.c and
-- src/protocol/http2/halmos_http2_socket.c.
use halmos.Base.{
  ℕ, ◌≡◌, refl, true, false, List, [], ◌∷◌, ◌++◌, map, codes, length, replicate, arith,
}
use halmos.Reader.{deliver, reads}
use halmos.Http2.{http2_frame_send}
use halmos.Http2.Manager.{session_init}
use halmos.Http2.Manager.Fill.{session_reader}
use halmos.Http2.Manager.Frames.{Frame, bytes_or_none, stream, received, IsReady, deliver-frames}
use halmos.Http2.Socket.{
  wrote, retry, http2_socket_write_or_buffer, write_directly, add_backlog,
  http2_socket_flush_pending_write, flush_rest,
}
use halmos.Http2.Socket.Order.{IsOutgoing, backlog}
use halmos.Http2.Socket.Drain.{
  Call, write, flush, after, run, fresh, submitted, flushes, wire-run, flushes-drain,
}

-- Two of three bytes go out, then three wait behind the last.
abbrev calls : List Call
calls =
    write (1 ∷ 2 ∷ 3 ∷ []) (wrote 2) true
    ∷ write (4 ∷ 5 ∷ 6 ∷ []) (wrote 9) true
    ∷ flush (wrote 1)
    ∷ flush retry
    ∷ []

wire-run_example :
    ((run fresh calls).wire ++ backlog (run fresh calls) ≡ submitted calls)
    × IsOutgoing (run fresh calls)
unfolding run after http2_socket_write_or_buffer write_directly add_backlog
    http2_socket_flush_pending_write flush_rest
wire-run_example = wire-run calls refl

flushes-drain_example :
    ((run (run fresh calls) (flushes (1 ∷ 0 ∷ 1 ∷ 5 ∷ []))).wire ≡ submitted calls)
    × ((run (run fresh calls) (flushes (1 ∷ 0 ∷ 1 ∷ 5 ∷ []))).write_error ≡ false)
    × (length (backlog (run (run fresh calls) (flushes (1 ∷ 0 ∷ 1 ∷ 5 ∷ [])))) ≡ 0)
unfolding run after http2_socket_write_or_buffer write_directly add_backlog
    http2_socket_flush_pending_write flush_rest reads
flushes-drain_example = flushes-drain calls (1 ∷ 0 ∷ 1 ∷ 5 ∷ []) refl (omega arith)

abbrev frames : List Frame
frames =
    record { type = 4; flags = 0; stream_id = 0; payload = [] }
    ∷ record { type = 0; flags = 1; stream_id = 3; payload = codes "body" }
    ∷ []

abbrev preface : List ℕ
preface = replicate 24 80

abbrev sizes : List ℕ
sizes = 5 ∷ 0 ∷ replicate 46 1

deliver-frames_example :
    ((deliver
        (session_reader 1048576 (λ _. true))
        session_init
        sizes
        (preface ++ stream frames)).0.dispatched
      ≡ map received frames)
    × IsReady
        (deliver
          (session_reader 1048576 (λ _. true))
          session_init
          sizes
          (preface ++ stream frames)).0
unfolding stream bytes_or_none http2_frame_send reads
deliver-frames_example =
    deliver-frames 1048576 (λ _. true) preface frames sizes refl
      (
        record {
          stays = omega arith;
          sendable = omega arith;
          allowed = omega arith;
          memory = refl;
        },
        (
          record {
            stays = omega arith;
            sendable = omega arith;
            allowed = omega arith;
            memory = refl;
          },
          tt,
        ),
      )
      (omega arith)
