-- ===== src/Http2/Manager/Fill.antt =====
-- The session of src/protocol/http2/halmos_http2_manager.c fills its buffers alike however the bytes
-- are cut into reads.
use mathlib.Core.List.{append_assoc}
use halmos.Base.{
  ℕ, suc, ◌+◌, ◌-◌, ◌≤◌, ◌≡◌, refl, sym, ◌∙◌, ap, inl, inr, Bool, true, false, List, [], ◌∷◌, ◌++◌,
  ltb, ◌==◌, Bool-cases, length, length-append, arith,
}
use halmos.Reader.{Reader}
use halmos.Http2.Manager.{
  Incoming, header_buffered, process_preface, read_frame_header, read_frame_payload, to_read,
  http2_manager_session,
}

module _ (max_allowed_payload : ℕ) (malloc_ok : ℕ → Bool) where
  abbrev pub session : Incoming → List ℕ → Incoming
  session = http2_manager_session max_allowed_payload malloc_ok

  abbrev pub need : Incoming → ℕ
  need = to_read max_allowed_payload malloc_ok

  -- The branch that the session is in.
  pub in_preface :
      (s : Incoming) (bs : List ℕ)
      → s.closed ≡ false
      → ltb s.preface_bytes_read 24 ≡ true
      → (session s bs ≡ process_preface s bs) × (need s ≡ 24 - s.preface_bytes_read)
  unfolding to_read http2_manager_session
  in_preface s bs c p = (ground (arith, c, p), ground (arith, c, p))

  pub in_header :
      (s : Incoming) (bs : List ℕ)
      → s.closed ≡ false
      → ltb s.preface_bytes_read 24 ≡ false
      → (s.read_state == 0) ≡ true
      → (session s bs ≡ read_frame_header max_allowed_payload malloc_ok s bs)
        × (need s ≡ 9 - length s.header_buf_partial)
  unfolding to_read http2_manager_session
  in_header s bs c p r = (ground (arith, c, p, r), ground (arith, c, p, r))

  pub in_payload :
      (s : Incoming) (bs : List ℕ)
      → s.closed ≡ false
      → ltb s.preface_bytes_read 24 ≡ false
      → (s.read_state == 0) ≡ false
      → (session s bs ≡ read_frame_payload s bs)
        × (need s ≡ s.current_frame_head.length - length s.payload_buf)
  unfolding to_read http2_manager_session
  in_payload s bs c p r = (ground (arith, c, p, r), ground (arith, c, p, r))

  in_closed : (s : Incoming) → s.closed ≡ true → need s ≡ 0
  unfolding to_read
  in_closed s c = ground (arith, c)

  -- Buffers that are not filled by one byte.
  process_preface_lem :
      (s : Incoming) (x : ℕ)
      → process_preface s (x ∷ []) ≡ record s { preface_bytes_read = s.preface_bytes_read + 1 }
  unfolding process_preface
  process_preface_lem s x = refl

  preface_byte :
      (s : Incoming) (x y : ℕ) (ys : List ℕ)
      → process_preface s (x ∷ y ∷ ys) ≡ process_preface (process_preface s (x ∷ [])) (y ∷ ys)
  unfolding process_preface
  preface_byte s x y ys = ap (λ n. record s { preface_bytes_read = n }) (omega arith)

  header_byte :
      (s : Incoming) (x : ℕ) (ys : List ℕ)
      → suc (suc (length s.header_buf_partial)) ≤ 9
      → let s' = record s { header_buf_partial = s.header_buf_partial ++ x ∷ [] } in
        (read_frame_header max_allowed_payload malloc_ok s (x ∷ []) ≡ s')
        × (read_frame_header max_allowed_payload malloc_ok s (x ∷ ys)
            ≡ read_frame_header max_allowed_payload malloc_ok s' ys)
  unfolding read_frame_header header_buffered
  header_byte s x ys h =
      let long = length-append s.header_buf_partial (x ∷ []) in
      let n : (length (s.header_buf_partial ++ x ∷ []) == 9) ≡ false = ground (arith, long) in
      (
        rw n refl,
        ap (header_buffered max_allowed_payload malloc_ok s)
            (sym (append_assoc s.header_buf_partial (x ∷ []) ys)),
      )

  payload_byte :
      (s : Incoming) (x : ℕ) (ys : List ℕ)
      → suc (suc (length s.payload_buf)) ≤ s.current_frame_head.length
      → let s' = record s { payload_buf = s.payload_buf ++ x ∷ [] } in
        (read_frame_payload s (x ∷ []) ≡ s')
        × (read_frame_payload s (x ∷ ys) ≡ read_frame_payload s' ys)
  unfolding read_frame_payload
  payload_byte s x ys h =
      let long = length-append s.payload_buf (x ∷ []) in
      let n : ltb (length (s.payload_buf ++ x ∷ [])) s.current_frame_head.length ≡ true =
        ground (arith, long) in
      (rw n refl, rw (append_assoc s.payload_buf (x ∷ []) ys) refl)

  pub session-split :
      (s : Incoming) (x y : ℕ) (ys : List ℕ)
      → suc (suc (length ys)) ≤ need s
      → (session s (x ∷ y ∷ ys) ≡ session (session s (x ∷ [])) (y ∷ ys))
        × (need s ≡ suc (need (session s (x ∷ []))))
  session-split s x y ys h = elim (Bool-cases s.closed) [
    | inl c ↦ absurd (omega (arith, in_closed s c))
    | inr c ↦ elim (Bool-cases (ltb s.preface_bytes_read 24)) [
      | inl p ↦
          let (all, n) = in_preface s (x ∷ y ∷ ys) c p in
          let one = (in_preface s (x ∷ []) c p).0 ∙ process_preface_lem s x in
          let s' = record s { preface_bytes_read = s.preface_bytes_read + 1 } in
          let (more, m) = in_preface s' (y ∷ ys) c (ground (arith, n)) in
          rw one (
            all
                ∙ (preface_byte s x y ys
                    ∙ (ap (λ t. process_preface t (y ∷ ys)) (process_preface_lem s x) ∙ sym more)),
            omega (arith, n, m),
          )
      | inr p ↦ elim (Bool-cases (s.read_state == 0)) [
        | inl r ↦
            let (all, n) = in_header s (x ∷ y ∷ ys) c p r in
            let (first, rest) = header_byte s x (y ∷ ys) (omega (arith, n)) in
            let one = (in_header s (x ∷ []) c p r).0 ∙ first in
            let s' = record s { header_buf_partial = s.header_buf_partial ++ x ∷ [] } in
            let (more, m) = in_header s' (y ∷ ys) c p r in
            let long = length-append s.header_buf_partial (x ∷ []) in
            rw one (all ∙ (rest ∙ sym more), omega (arith, n, m, long))
        | inr r ↦
            let (all, n) = in_payload s (x ∷ y ∷ ys) c p r in
            let (first, rest) = payload_byte s x (y ∷ ys) (omega (arith, n)) in
            let one = (in_payload s (x ∷ []) c p r).0 ∙ first in
            let s' = record s { payload_buf = s.payload_buf ++ x ∷ [] } in
            let (more, m) = in_payload s' (y ∷ ys) c p r in
            let long = length-append s.payload_buf (x ∷ []) in
            rw one (all ∙ (rest ∙ sym more), omega (arith, n, m, long))
      ]
    ]
  ]

  -- The session as a reader.
  unfoldable pub session_reader : Reader Incoming
  session_reader = record { need = need; feed = session; feed-split = session-split }
