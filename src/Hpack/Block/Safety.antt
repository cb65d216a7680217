-- ===== src/Hpack/Block/Safety.antt =====
-- The header block loop of src/protocol/http2/halmos_http2_parser.c on arbitrary bytes.
use halmos.Base.{
  ℕ, zero, suc, ◌≤◌, ◌<◌, ◌≡◌, ◌⊎◌, inl, inr, Bool, true, false, Option, none, some, List, [], ◌∷◌,
  ◌==◌, length, subst, sym, refl, c_string, Option-cases, Bool-cases, arith,
}
use halmos.Hpack.{http2_hpack_decode_int}
use halmos.Hpack.Integer.{http2_hpack_decode_int-shorter}
use halmos.Hpack.Table.{DynamicTable, http2_hpack_get_header}
use halmos.Hpack.Table.Refines.{IsTable, add-IsTable}
use halmos.Hpack.Text.{HuffTable, text_of, http2_hpack_decode_string_buf}
use halmos.Hpack.Text.Bounds.{decode_string_buf-bounds}
use halmos.Hpack.Fields.{client_ip_size, RequestHeader, http2_hpack_literal_header_with_name}
use halmos.Hpack.Fields.Bounds.{BuffersFit, literal_header-Outcome}
use halmos.Hpack.Block.{
  Progress, http2_hpack_indexed_header, literal_name, literal_field, indexed_field, block_field,
  block_loop, reset_request, decode_block,
}

-- The status is 0, 414 or 431.
abbrev IsStatus : ℕ → Type 0
IsStatus n = (n ≡ 0) ⊎ ((n ≡ 414) ⊎ (n ≡ 431))

-- The table and the request's buffers are sound, and the status is one of the three.
pub record IsSound (p : Progress) : Type 0 where
  pub table_sound : IsTable p.table
  pub buffers_fit : BuffersFit p.req
  pub status_known : IsStatus p.status

-- The loop ended: with status 0 at the end of the input, or with an error that the request carries.
abbrev pub Ended : Option Progress → Type 0
Ended none = ⊥
Ended (some p) =
    IsSound p
    × (((p.status ≡ 0) × (p.pos ≡ []))
        ⊎ (((p.status ≡ 414) ⊎ (p.status ≡ 431))
            × (p.req.error_code ≡ p.status)
            × (p.req.is_valid ≡ false)))

module _ (huff : HuffTable) (trust_proxy : Bool) where
  decode_string-le :
      (src : List ℕ) (m : ℕ)
      → 0 < m
      → length (http2_hpack_decode_string_buf huff src m).1 ≤ length src
  decode_string-le [] m h = unfold http2_hpack_decode_string_buf in omega arith
  decode_string-le (b ∷ src) m h = omega (arith, decode_string_buf-bounds huff b src m h)

  literal_name-le :
      (table : DynamicTable) (index : ℕ) (src : List ℕ)
      → length (literal_name huff trust_proxy table index src).1 ≤ length src
  unfolding literal_name
  literal_name-le table index src = elim (Option-cases (http2_hpack_get_header table index)) [
    | inl e ↦ ground (arith, e, decode_string-le src 128 (omega arith))
    | inr (x, e) ↦ ground (arith, e, decode_string-le src 128 (omega arith))
  ]

  header_sound :
      (name value : List ℕ) (req : RequestHeader)
      → BuffersFit req
      → let (status, req') = http2_hpack_literal_header_with_name trust_proxy name value req in
        BuffersFit req' × IsStatus status
  header_sound name value req fit =
      let o = literal_header-Outcome trust_proxy name value req fit in
      elim o [
        | inl (e, fit') ↦ (fit', inl e)
        | inr (e, same) ↦ (subst BuffersFit (sym same) fit, inr e)
      ]

  -- A round keeps everything sound, and leaves fewer bytes than it found.
  abbrev Advances : ℕ → Progress → Type 0
  Advances n p = IsSound p × (length p.pos < n)

  indexed_sound :
      (table : DynamicTable) (index : ℕ) (req : RequestHeader)
      → BuffersFit req
      → let (status, req') = http2_hpack_indexed_header huff trust_proxy table index req in
        BuffersFit req' × IsStatus status
  unfolding http2_hpack_indexed_header
  indexed_sound table index req fit = elim (Option-cases (http2_hpack_get_header table index)) [
    | inl e ↦ ground (arith, e)
    | inr (x, e) ↦ ground (arith, e, header_sound x.name x.value req fit)
  ]

  literal-Advances :
      (indexing : Bool) (mask : ℕ) (table : DynamicTable) (req : RequestHeader) (b : ℕ)
      (src : List ℕ)
      → IsTable table
      → BuffersFit req
      → Advances
          (length (b ∷ src))
          (literal_field huff trust_proxy indexing mask table req (b ∷ src))
  unfolding literal_field
  literal-Advances indexing mask table req b src t fit =
      let (index, src₁) = http2_hpack_decode_int (b ∷ src) mask in
      let (name, src₂) = literal_name huff trust_proxy table index src₁ in
      let out = (http2_hpack_decode_string_buf huff src₂ 512).0 in
      let value = c_string (text_of out) in
      ground (
        arith,
        http2_hpack_decode_int-shorter b src mask,
        literal_name-le table index src₁,
        decode_string-le src₂ 512 (omega arith),
        header_sound name value req fit,
        add-IsTable table name value t,
      )

  field-Advances :
      (table : DynamicTable) (req : RequestHeader) (b : ℕ) (src : List ℕ)
      → IsTable table
      → BuffersFit req
      → Advances (length (b ∷ src)) (block_field huff trust_proxy table req b src)
  unfolding block_field indexed_field
  field-Advances table req b src t fit = ground (
    arith,
    http2_hpack_decode_int-shorter b src 0x7f,
    http2_hpack_decode_int-shorter b src 0x1f,
    indexed_sound table (http2_hpack_decode_int (b ∷ src) 0x7f).0 req fit,
    literal-Advances true 0x3f table req b src t fit,
    literal-Advances false 0x0f table req b src t fit,
  )

  -- A round with an error ends the loop, and leaves its status in the request.
  stopped :
      (p : Progress)
      → (p.status == 0) ≡ false
      → IsSound p
      → Ended (some (record p { req = record p.req { error_code = p.status; is_valid = false } }))
  stopped p e sound = ground arith

  loop-Ended :
      (fuel : ℕ) (table : DynamicTable) (req : RequestHeader) (src : List ℕ)
      → length src ≤ fuel
      → IsTable table
      → BuffersFit req
      → Ended (block_loop huff trust_proxy fuel table req src)
  unfolding block_loop
  loop-Ended fuel table req [] h t fit =
      (record { table_sound = t; buffers_fit = fit; status_known = inl refl }, inl (refl, refl))
  loop-Ended zero table req (b ∷ src) h t fit = absurd (omega arith)
  loop-Ended (suc fuel) table req (b ∷ src) h t fit =
      let p = block_field huff trust_proxy table req b src in
      let (sound, shorter) = field-Advances table req b src t fit in
      elim (Bool-cases (p.status == 0)) [
        | inl e ↦
            rw e (
              loop-Ended fuel p.table p.req p.pos (omega arith) sound.table_sound sound.buffers_fit)
        | inr e ↦ rw e (stopped p e sound)
      ]

-- On any payload, from a sound dynamic table and with any table of the Huffman decoder, the loop
-- ends: after the last byte, or with the error 414 or 431, which the request then carries. All along
-- the dynamic table and the request's buffers stay within their sizes.
pub decode_block-Ended :
    (huff : HuffTable) (trust_proxy : Bool) (table : DynamicTable) (req : RequestHeader)
    (payload : List ℕ)
    → IsTable table
    → length req.client_ip < client_ip_size
    → Ended (decode_block huff trust_proxy table req payload)
unfolding decode_block reset_request
decode_block-Ended huff trust_proxy table req payload t h =
    loop-Ended huff trust_proxy (length payload) table _ payload (omega arith) t (omega arith)
