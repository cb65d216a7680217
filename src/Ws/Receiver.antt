-- ===== src/Ws/Receiver.antt =====
-- The receiver of src/protocol/websocket/halmos_ws_system.c: `halmos_ws_recv_frame`, which picks up
-- where it stopped whenever the socket is readable, and `ws_system_dispatch` behind it. A buffer and
-- the count of its bytes read are the list of these bytes.
pub mod Fill
pub mod Stream
pub mod Whole
pub mod Guards
use halmos.Base.{
  ℕ, suc, ◌+◌, ◌-◌, ◌*◌, Bool, true, false, ◌&&◌, not, List, [], ◌∷◌, ◌++◌, ltb, leb, ◌==◌,
  if◌then◌else◌, length, get_or, bit_and,
}
use halmos.Ws.{big_endian, unmask}

-- `ws_state_t`
pub data State : Type 0 where
  header ext_len mask payload complete : State

-- `ws_recv_state_t`; `fin` and `masked` are tested where they are read.
pub record RecvState : Type 0 where
  pub state : State
  pub header_buf : List ℕ
  pub ext_len_buf : List ℕ
  pub ext_len_expected : ℕ
  pub mask_buf : List ℕ
  pub opcode : ℕ
  pub payload_len : ℕ
  pub payload_buf : List ℕ

-- What `ws_reset_recv_state` leaves.
abbrev pub fresh_state : RecvState
fresh_state = record {
  state = header;
  header_buf = [];
  ext_len_buf = [];
  ext_len_expected = 0;
  mask_buf = [];
  opcode = 0;
  payload_len = 0;
  payload_buf = [];
}

abbrev pub max_ws_payload : ℕ
max_ws_payload = 10485760

-- `needed`, what a pass of the loop asks of the socket.
unfoldable pub needed_in : State → RecvState → ℕ
needed_in header st = 2 - length st.header_buf
needed_in ext_len st = st.ext_len_expected - length st.ext_len_buf
needed_in mask st = 4 - length st.mask_buf
needed_in payload st = st.payload_len - length st.payload_buf
needed_in complete st = 0

-- How a pass ends: WS_RECV_AGAIN, WS_RECV_FATAL, or on to the next pass.
pub data Pass : Type 0 where
  again : RecvState → Pass
  fatal : Pass
  onward : RecvState → Pass

-- The tests on the two bytes of the header, in their order.
unfoldable pub after_header : RecvState → ℕ → ℕ → Pass
after_header st b₀ b₁ =
    let code = bit_and b₀ 0x0f in
    let len = bit_and b₁ 0x7f in
    let st' = record st { opcode = code; payload_len = len } in
    if bit_and b₀ 0x80 == 0
    then fatal
    else if leb 8 code && leb code 10 && ltb 125 len
    then fatal
    else if bit_and b₁ 0x80 == 0
    then fatal
    else if len == 126
    then onward (record st' { ext_len_expected = 2; state = ext_len })
    else if len == 127
    then onward (record st' { ext_len_expected = 8; state = ext_len })
    else onward (record st' { state = mask })

unfoldable pub after_length : RecvState → ℕ → Pass
after_length st len =
    if ltb max_ws_payload len then fatal else onward (record st { payload_len = len; state = mask })

module _ (malloc_ok : ℕ → Bool) where
  unfoldable pub after_mask : RecvState → Pass
  after_mask st =
      if ltb 0 st.payload_len
      then (if malloc_ok (st.payload_len + 1)
          then onward (record st { payload_buf = []; state = payload })
          else fatal)
      else onward (record st { state = complete })

  -- A pass whose `recv` returned the bytes `bs`; `malloc_ok n` is whether `malloc(n)` gives memory.
  unfoldable pub pass_in : State → RecvState → List ℕ → Pass
  pass_in header st bs =
      let buf = st.header_buf ++ bs in
      let st' = record st { header_buf = buf } in
      if ltb (length buf) 2 then again st' else after_header st' (get_or buf 0 0) (get_or buf 1 0)
  pass_in ext_len st bs =
      let buf = st.ext_len_buf ++ bs in
      let st' = record st { ext_len_buf = buf } in
      if ltb (length buf) st.ext_len_expected
      then again st'
      else after_length st' (big_endian 0 buf)
  pass_in mask st bs =
      let buf = st.mask_buf ++ bs in
      let st' = record st { mask_buf = buf } in
      if ltb (length buf) 4 then again st' else after_mask st'
  pass_in payload st bs =
      let buf = st.payload_buf ++ bs in
      let st' = record st { payload_buf = buf } in
      if ltb (length buf) st.payload_len
      then again st'
      else onward (record st' { state = complete })
  pass_in complete st bs = again st

-- What the dispatcher hands on: a text to `ws_system_on_message`, an answer to a ping, a note of
-- activity, or nothing but a log line. A close frame ends the connection.
pub data Action : Type 0 where
  message : List ℕ → Action
  pong : Action
  update_activity : Action
  ignored : ℕ → Action

unfoldable pub action_of : ℕ → List ℕ → Action
action_of code text =
    if code == 1
    then (if length text == 0 then ignored 1 else message text)
    else if code == 9
    then pong
    else if code == 10
    then update_activity
    else ignored code

-- A connection: its receive state, the actions taken, oldest first, and whether it was given up.
pub record Connection : Type 0 where
  pub recv : RecvState
  pub actions : List Action
  pub closed : Bool

abbrev pub fresh_connection : Connection
fresh_connection = record { recv = fresh_state; actions = []; closed = false }

-- The frame is whole: the payload is unmasked, the state is reset, and the frame dispatched.
unfoldable pub ws_system_dispatch : Connection → RecvState → Connection
ws_system_dispatch c st =
    let text = unmask st.mask_buf 0 st.payload_buf in
    if st.opcode == 8
    then record c { recv = fresh_state; closed = true }
    else record c { recv = fresh_state; actions = c.actions ++ action_of st.opcode text ∷ [] }

is_complete : State → Bool
is_complete complete = true
is_complete _ = false

-- A pass, and the dispatch if it was the frame's last. A connection that is given up is cleaned up,
-- and its receive state with it.
unfoldable pub settle : Connection → Pass → Connection
unfolding is_complete
settle c (again st) = record c { recv = st }
settle c fatal = record c { recv = fresh_state; closed = true }
settle c (onward st) =
    if is_complete st.state then ws_system_dispatch c st else record c { recv = st }

module _ (malloc_ok : ℕ → Bool) where
  unfoldable pub needed : Connection → ℕ
  needed c = if c.closed then 0 else needed_in c.recv.state c.recv

  unfoldable pub receive : Connection → List ℕ → Connection
  receive c bs = if c.closed then c else settle c (pass_in malloc_ok c.recv.state c.recv bs)
