-- ===== src/Ws/Receiver/Fill.antt =====
-- The receiver of src/protocol/websocket/halmos_ws_system.c fills its buffers alike however the bytes
-- are cut into reads.
use mathlib.Core.List.{append_assoc}
use halmos.Base.{
  ℕ, suc, ◌≤◌, ◌≡◌, refl, sym, ◌∙◌, ap, inl, inr, Bool, true, false, List, [], ◌∷◌, ◌++◌,
  Bool-cases, length, length-append, arith,
}
use halmos.Reader.{Reader}
use halmos.Ws.Receiver.{
  State, header, ext_len, mask, payload, complete, RecvState, needed_in, Pass, again, fatal, onward,
  ws_system_dispatch, pass_in, settle, Connection, needed, receive,
}

-- A pass replaces the receive state whole.
settle_recv :
    (c : Connection) (st : RecvState) (p : Pass) → settle c p ≡ settle (record c { recv = st }) p
unfolding settle ws_system_dispatch
settle_recv c st (again st') = refl
settle_recv c st fatal = refl
settle_recv c st (onward st') = ground arith

module _ (malloc_ok : ℕ → Bool) where
  -- A first byte that leaves more to read.
  first_byte :
      (c : Connection) (s : State) (x n : ℕ)
      → suc (suc n) ≤ needed_in s c.recv
      → (st : RecvState) × (pass_in malloc_ok s c.recv (x ∷ []) ≡ again st)
        × (needed_in s c.recv ≡ suc (needed_in s st))
        × (st.state ≡ c.recv.state)
        × ((ys : List ℕ) → pass_in malloc_ok s c.recv (x ∷ ys) ≡ pass_in malloc_ok s st ys)
  unfolding pass_in needed_in
  first_byte c header x n h =
      let buf = c.recv.header_buf in
      let long = length-append buf (x ∷ []) in
      (
        record c.recv { header_buf = buf ++ x ∷ [] },
        ground (arith, long),
        omega (arith, long),
        refl,
        λ ys. rw (append_assoc buf (x ∷ []) ys) refl,
      )
  first_byte c ext_len x n h =
      let buf = c.recv.ext_len_buf in
      let long = length-append buf (x ∷ []) in
      (
        record c.recv { ext_len_buf = buf ++ x ∷ [] },
        ground (arith, long),
        omega (arith, long),
        refl,
        λ ys. rw (append_assoc buf (x ∷ []) ys) refl,
      )
  first_byte c mask x n h =
      let buf = c.recv.mask_buf in
      let long = length-append buf (x ∷ []) in
      (
        record c.recv { mask_buf = buf ++ x ∷ [] },
        ground (arith, long),
        omega (arith, long),
        refl,
        λ ys. rw (append_assoc buf (x ∷ []) ys) refl,
      )
  first_byte c payload x n h =
      let buf = c.recv.payload_buf in
      let long = length-append buf (x ∷ []) in
      (
        record c.recv { payload_buf = buf ++ x ∷ [] },
        ground (arith, long),
        omega (arith, long),
        refl,
        λ ys. rw (append_assoc buf (x ∷ []) ys) refl,
      )
  first_byte c complete x n h = absurd (omega arith)

  pub receive_open :
      (c : Connection) (bs : List ℕ)
      → c.closed ≡ false
      → receive malloc_ok c bs ≡ settle c (pass_in malloc_ok c.recv.state c.recv bs)
  unfolding receive
  receive_open c bs e = ground (arith, e)

  pub needed_open :
      (c : Connection) → c.closed ≡ false → needed malloc_ok c ≡ needed_in c.recv.state c.recv
  unfolding needed
  needed_open c e = ground (arith, e)

  needed_closed : (c : Connection) → c.closed ≡ true → needed malloc_ok c ≡ 0
  unfolding needed
  needed_closed c e = ground (arith, e)

  settle_again : (c : Connection) (st : RecvState) → settle c (again st) ≡ record c { recv = st }
  unfolding settle
  settle_again c st = refl

  pub receive-split :
      (c : Connection) (x y : ℕ) (ys : List ℕ)
      → suc (suc (length ys)) ≤ needed malloc_ok c
      → (receive malloc_ok c (x ∷ y ∷ ys)
          ≡ receive malloc_ok (receive malloc_ok c (x ∷ [])) (y ∷ ys))
        × (needed malloc_ok c ≡ suc (needed malloc_ok (receive malloc_ok c (x ∷ []))))
  receive-split c x y ys h = elim (Bool-cases c.closed) [
    | inl e ↦ absurd (omega (arith, needed_closed c e))
    | inr e ↦
        let (st, more, less, same, rest) =
          first_byte c c.recv.state x (length ys) (omega (arith, needed_open c e)) in
        let c' = record c { recv = st } in
        let one : receive malloc_ok c (x ∷ []) ≡ c' =
          receive_open c (x ∷ []) e ∙ (ap (settle c) more ∙ settle_again c st) in
        let second : receive malloc_ok c' (y ∷ ys)
            ≡ settle c' (pass_in malloc_ok c.recv.state st (y ∷ ys)) =
          receive_open c' (y ∷ ys) e ∙ ap (λ s. settle c' (pass_in malloc_ok s st (y ∷ ys))) same in
        let left : needed malloc_ok c' ≡ needed_in c.recv.state st =
          needed_open c' e ∙ ap (λ s. needed_in s st) same in
        rw one (
          receive_open c (x ∷ y ∷ ys) e
              ∙ (ap (settle c) (rest (y ∷ ys)) ∙ (settle_recv c st _ ∙ sym second)),
          omega (arith, needed_open c e, less, left),
        )
  ]

  -- The receiver as a reader.
  unfoldable pub recv_reader : Reader Connection
  recv_reader = record {
    need = needed malloc_ok;
    feed = receive malloc_ok;
    feed-split = receive-split;
  }
