-- ===== src/Ws/Receiver/Stream.antt =====
-- Whole frames through the receiver of src/protocol/websocket/halmos_ws_system.c.
use halmos.Base.{
  ℕ, ◌+◌, ◌-◌, ◌≤◌, ◌<◌, ◌≡◌, ◌≢◌, refl, ◌∙◌, ap, Bool, true, false, List, [], ◌∷◌, ◌++◌, ltb, ◌==◌,
  if◌then◌else◌, All, length, arith,
}
use halmos.Base.Bits.{and_0f, and_7f, and_80}
use halmos.Ws.{big_endian, unmask}
use halmos.Ws.Frames.{IsByte, length-unmask, unmask_twice, get_or-IsByte}
use halmos.Ws.Receiver.{
  ext_len, mask, payload, RecvState, fresh_state, max_ws_payload, onward, after_header,
  after_length, after_mask, pass_in, action_of, Connection, ws_system_dispatch, settle, receive,
}
use halmos.Ws.Receiver.Fill.{receive_open}

-- The connection with another receive state.
abbrev pub at : Connection → RecvState → Connection
at c st = record c { recv = st }

abbrev pub headed : ℕ → ℕ → RecvState
headed op b = record fresh_state { header_buf = (128 + op) ∷ b ∷ []; opcode = op }

-- The tests on the header pass.
header_passes :
    (st : RecvState) (op b : ℕ)
    → op < 16
    → 128 ≤ b
    → b < 256
    → (8 ≤ op → op ≤ 10 → b ≤ 128 + 125)
    → after_header st (128 + op) b ≡ (
        let st' = record st { opcode = op; payload_len = b - 128 } in
        if b == 254
        then onward (record st' { ext_len_expected = 2; state = ext_len })
        else if b == 255
        then onward (record st' { ext_len_expected = 8; state = ext_len })
        else onward (record st' { state = mask }))
unfolding after_header
header_passes st op b ho lo hi small =
    ground (arith, and_0f (128 + op), and_80 (128 + op), and_7f b, and_80 b)

module _ (malloc_ok : ℕ → Bool) where
  abbrev pub IsOpen : Connection → Type 0
  IsOpen c = c.closed ≡ false

  -- The first two bytes of a client's frame.
  pub header_read :
      (c : Connection) (op b : ℕ)
      → op < 16
      → 128 ≤ b
      → b < 256
      → (8 ≤ op → op ≤ 10 → b ≤ 128 + 125)
      → IsOpen c
      → receive malloc_ok (at c fresh_state) ((128 + op) ∷ b ∷ []) ≡ (
          let st' = record (headed op b) { payload_len = b - 128 } in
          if b == 254
          then at c (record st' { ext_len_expected = 2; state = ext_len })
          else if b == 255
          then at c (record st' { ext_len_expected = 8; state = ext_len })
          else at c (record st' { state = mask }))
  unfolding pass_in settle after_header
  header_read c op b ho lo hi small e =
      receive_open malloc_ok (at c fresh_state) ((128 + op) ∷ b ∷ []) e
      ∙ (ap (settle (at c fresh_state)) (header_passes (headed op b) op b ho lo hi small)
          ∙ ground arith)

  -- The length behind the header, in two or eight bytes.
  pub length_read :
      (c : Connection) (st : RecvState) (bytes : List ℕ) (n : ℕ)
      → length bytes ≡ st.ext_len_expected
      → big_endian 0 bytes ≡ n
      → n ≤ max_ws_payload
      → IsOpen c
      → receive malloc_ok (at c (record st { state = ext_len; ext_len_buf = [] })) bytes
        ≡ at c (record st { ext_len_buf = bytes; payload_len = n; state = mask })
  unfolding pass_in settle after_length
  length_read c st bytes n long value small e =
      let st' = record st { state = ext_len; ext_len_buf = [] } in
      let whole : ltb (length bytes) st.ext_len_expected ≡ false = ground arith in
      let fits : ltb max_ws_payload n ≡ false = ground arith in
      receive_open malloc_ok (at c st') bytes e ∙ rw (whole, value, fits) refl

  unfoldable pub delivered : Connection → ℕ → List ℕ → Connection
  unfolding ws_system_dispatch
  delivered c op text = record c {
    recv = fresh_state;
    actions = c.actions ++ action_of op text ∷ [];
  }

  -- The key, and the text behind it.
  pub mask_read :
      (c : Connection) (st : RecvState) (key : List ℕ)
      → length key ≡ 4
      → 0 < st.payload_len
      → malloc_ok (st.payload_len + 1) ≡ true
      → IsOpen c
      → receive malloc_ok (at c (record st { state = mask; mask_buf = [] })) key
        ≡ at c (record st { mask_buf = key; payload_buf = []; state = payload })
  unfolding pass_in settle after_mask
  mask_read c st key four some_text room e =
      let st' = record st { state = mask; mask_buf = [] } in
      let whole : ltb (length key) 4 ≡ false = ground arith in
      let more : ltb 0 st.payload_len ≡ true = ground arith in
      receive_open malloc_ok (at c st') key e ∙ rw (whole, more, room) refl

  pub mask_read_last :
      (c : Connection) (st : RecvState) (key : List ℕ)
      → length key ≡ 4
      → st.payload_len ≡ 0
      → st.opcode ≢ 8
      → st.payload_buf ≡ []
      → IsOpen c
      → receive malloc_ok (at c (record st { state = mask; mask_buf = [] })) key
        ≡ delivered c st.opcode []
  unfolding pass_in settle after_mask ws_system_dispatch delivered unmask
  mask_read_last c st key four no_text open_frame empty e =
      let st' = record st { state = mask; mask_buf = [] } in
      let whole : ltb (length key) 4 ≡ false = ground arith in
      let more : ltb 0 st.payload_len ≡ false = ground arith in
      let stays : (st.opcode == 8) ≡ false = ground arith in
      receive_open malloc_ok (at c st') key e
      ∙ rw (whole, more, stays, ap (unmask key 0) empty) refl

  pub payload_read :
      (c : Connection) (st : RecvState) (key text : List ℕ)
      → length text ≡ st.payload_len
      → st.opcode ≢ 8
      → All IsByte key
      → All IsByte text
      → IsOpen c
      → receive malloc_ok
          (at c (record st { mask_buf = key; state = payload; payload_buf = [] }))
          (unmask key 0 text)
        ≡ delivered c st.opcode text
  unfolding pass_in settle ws_system_dispatch delivered
  payload_read c st key text long open_frame hk ht e =
      let st' = record st { mask_buf = key; state = payload; payload_buf = [] } in
      let masked = unmask key 0 text in
      let whole : ltb (length masked) st.payload_len ≡ false =
        ground (arith, length-unmask key text 0) in
      let stays : (st.opcode == 8) ≡ false = ground arith in
      let clear = unmask_twice key text 0 (λ j. get_or-IsByte key j hk) ht in
      receive_open malloc_ok (at c st') masked e ∙ rw (whole, stays, clear) refl
