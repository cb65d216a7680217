-- ===== src/Tests/Ws.antt =====
-- Runs of the WebSocket frames.
use halmos.Base.{ℕ, ◌≡◌, List, [], ◌∷◌, some, true, codes, arith}
use halmos.Http2.{FrameHeader}
use halmos.Ws.{ws_system_build_frame, open_frame}
use halmos.Ws.Frames.{open-build_frame}
use halmos.Ws.Receiver.{fresh_connection, receive}
use halmos.Ws.Receiver.Whole.{ClientFrame}
use halmos.Ws.Receiver.Guards.{violates, receive-header}

open-build_frame_example :
    (frame : List ℕ) × (ws_system_build_frame (codes "hello") ≡ some frame)
    × (open_frame frame true ≡ some (1, codes "hello"))
open-build_frame_example = open-build_frame (codes "hello") (omega arith)

abbrev data_head : FrameHeader
data_head = record { length = 11; type = 0; flags = 0; stream_id = 5 }

-- A text of two bytes and a ping without one.
abbrev hi_and_ping : List ClientFrame
hi_and_ping =
    record { opcode = 1; key = 1 ∷ 2 ∷ 3 ∷ 4 ∷ []; text = 104 ∷ 105 ∷ [] }
    ∷ record { opcode = 9; key = 5 ∷ 6 ∷ 7 ∷ 8 ∷ []; text = [] }
    ∷ []

abbrev sizes : List ℕ
sizes = 1 ∷ 3 ∷ 0 ∷ 2 ∷ 9 ∷ 1 ∷ 1 ∷ 1 ∷ 1 ∷ 1 ∷ 1 ∷ 1 ∷ 1 ∷ 1 ∷ 1 ∷ []

receive-header_example :
    ((receive (λ _. true) fresh_connection (0x89 ∷ 0xfe ∷ [])).closed ≡ violates 0x89 0xfe)
    × ((receive (λ _. true) fresh_connection (0x89 ∷ 0xfe ∷ [])).actions ≡ [])
receive-header_example = receive-header (λ _. true) 0x89 0xfe (omega arith) (omega arith)
