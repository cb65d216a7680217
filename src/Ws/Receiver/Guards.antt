-- ===== src/Ws/Receiver/Guards.antt =====
-- What the receiver of src/protocol/websocket/halmos_ws_system.c refuses.
use halmos.Base.{ℕ, ◌%◌, ◌<◌, ◌≡◌, Bool, ◌&&◌, ◌||◌, [], ◌∷◌, ltb, leb, arith}
use halmos.Base.Bits.{and_0f, and_7f, and_80}
use halmos.Ws.Receiver.{after_header, pass_in, fresh_connection, settle, receive}

-- Of the two bytes of a header, in arithmetic: no FIN bit, a control frame that is too long, or no
-- mask.
abbrev pub violates : ℕ → ℕ → Bool
violates b₀ b₁ =
    ltb b₀ 128 || (leb 8 (b₀ % 16) && leb (b₀ % 16) 10 && ltb 125 (b₁ % 128)) || ltb b₁ 128

-- The header of a frame is refused exactly if it has no FIN bit, if it is a control frame of more than
-- 125 bytes, or if it has no mask. Then the connection is closed, and in both cases no action is taken.
pub receive-header :
    (malloc_ok : ℕ → Bool) (b₀ b₁ : ℕ)
    → b₀ < 256
    → b₁ < 256
    → let c = receive malloc_ok fresh_connection (b₀ ∷ b₁ ∷ []) in
      (c.closed ≡ violates b₀ b₁) × (c.actions ≡ [])
unfolding receive pass_in settle after_header
receive-header malloc_ok b₀ b₁ h₀ h₁ = ground (arith, and_0f b₀, and_80 b₀, and_7f b₁, and_80 b₁)
