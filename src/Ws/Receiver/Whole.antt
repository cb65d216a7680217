-- ===== src/Ws/Receiver/Whole.antt =====
-- A stream of client frames, cut into reads at will, through the receiver of
-- src/protocol/websocket/halmos_ws_system.c.
use halmos.Base.{ℕ, ◌+◌, ◌≤◌, ◌<◌, ◌≡◌, ◌≢◌, Bool, true, List, [], ◌∷◌, ◌++◌, All, length}
use halmos.Reader.{feed_bytes}
use halmos.Ws.Frames.{IsByte, client_frame}
use halmos.Ws.Receiver.{max_ws_payload, Action, action_of, Connection}
use halmos.Ws.Receiver.Fill.{recv_reader}

-- What a client sends.
pub record ClientFrame : Type 0 where
  pub opcode : ℕ
  pub key : List ℕ
  pub text : List ℕ

-- A frame that RFC 6455 and the size limit allow, but no close frame.
pub record IsSent (f : ClientFrame) : Type 0 where
  pub known : f.opcode < 16
  pub stays : f.opcode ≢ 8
  pub control : 8 ≤ f.opcode → f.opcode ≤ 10 → length f.text ≤ 125
  pub four : length f.key ≡ 4
  pub key_bytes : All IsByte f.key
  pub text_bytes : All IsByte f.text
  pub small : length f.text ≤ max_ws_payload

unfoldable pub stream : List ClientFrame → List ℕ
stream [] = []
stream (f ∷ frames) = client_frame f.opcode f.key f.text ++ stream frames

abbrev pub action : ClientFrame → Action
action f = action_of f.opcode f.text

module _ (malloc_ok : ℕ → Bool)
    (memory : (n : ℕ) → n ≤ max_ws_payload + 1 → malloc_ok n ≡ true) where
  abbrev run : Connection → List ℕ → Connection
  run c bs = feed_bytes (recv_reader malloc_ok) c bs
