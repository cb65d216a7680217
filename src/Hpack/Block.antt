-- ===== src/Hpack/Block.antt =====
-- A header block: the loop of `parse_header` in src/protocol/http2/halmos_http2_parser.c, up to the
-- routing. `huff` is the table of the Huffman decoder and `trust_proxy` the configuration's field.
pub mod Safety
use halmos.Base.{
  ℕ, zero, suc, ◌-◌, Bool, true, false, ◌&&◌, ◌||◌, not, Option, none, some, List, [], ◌∷◌, ◌==◌,
  if◌then◌else◌, length, take, bit_and, c_string,
}
use halmos.Hpack.{http2_hpack_decode_int}
use halmos.Hpack.Table.{
  DynamicTable, http2_hpack_get_header, http2_hpack_dynamic_table_add, hpack_name_max,
  hpack_value_max,
}
use halmos.Hpack.Text.{HuffTable, text_of, http2_hpack_decode_string_buf}
use halmos.Hpack.Fields.{RequestHeader, http2_hpack_literal_header_with_name}

-- What the loop changes: the session's dynamic table, the request, `status` and `pos`.
pub record Progress : Type 0 where
  pub table : DynamicTable
  pub req : RequestHeader
  pub status : ℕ
  pub pos : List ℕ

abbrev is_empty : List ℕ → Bool
is_empty s = length s == 0

module _ (huff : HuffTable) (trust_proxy : Bool) where
  unfoldable pub http2_hpack_indexed_header : DynamicTable → ℕ → RequestHeader → ℕ × RequestHeader
  http2_hpack_indexed_header table index req =
      if index == 0 then (0, req) else elim (http2_hpack_get_header table index) [
        | some e ↦ http2_hpack_literal_header_with_name trust_proxy e.name e.value req
        | none ↦ (0, req)
      ]

  -- `name_buf`, as a C string, and what is left: the name stands in the input if the index is 0.
  unfoldable pub literal_name : DynamicTable → ℕ → List ℕ → List ℕ × List ℕ
  literal_name table index src =
      if index == 0
      then (let (out, rest) = http2_hpack_decode_string_buf huff src hpack_name_max in
          (c_string (text_of out), rest))
      else (elim (http2_hpack_get_header table index) [
        | some e ↦ (take (hpack_name_max - 1) e.name, src)
        | none ↦ ([], src)
      ])

  -- A literal field whose index has the mask `mask`; `indexing` adds it to the dynamic table.
  unfoldable pub literal_field : Bool → ℕ → DynamicTable → RequestHeader → List ℕ → Progress
  literal_field indexing mask table req src =
      let (index, src₁) = http2_hpack_decode_int src mask in
      let (name, src₂) = literal_name table index src₁ in
      let (out, src₃) = http2_hpack_decode_string_buf huff src₂ hpack_value_max in
      let value = c_string (text_of out) in
      if not (is_empty name) && not (is_empty value)
      then (let (status, req') = http2_hpack_literal_header_with_name trust_proxy name value req in
          record {
            table = if indexing then http2_hpack_dynamic_table_add table name value else table;
            req = req';
            status = status;
            pos = src₃;
          })
      else record { table = table; req = req; status = 0; pos = src₃ }

  unfoldable pub indexed_field : DynamicTable → RequestHeader → List ℕ → Progress
  indexed_field table req src =
      let (index, rest) = http2_hpack_decode_int src 0x7f in
      let (status, req') = http2_hpack_indexed_header table index req in
      record { table = table; req = req'; status = status; pos = rest }

  -- One round of the loop; `b` is `*pos`.
  unfoldable pub block_field : DynamicTable → RequestHeader → ℕ → List ℕ → Progress
  block_field table req b src =
      if not (bit_and b 0x80 == 0)
      then indexed_field table req (b ∷ src)
      else if bit_and b 0xc0 == 0x40
      then literal_field true 0x3f table req (b ∷ src)
      else if bit_and b 0xe0 == 0x20
      then record {
        table = table;
        req = req;
        status = 0;
        pos = (http2_hpack_decode_int (b ∷ src) 0x1f).1;
      }
      else if (bit_and b 0xf0 == 0x00) || (bit_and b 0xf0 == 0x10)
      then literal_field false 0x0f table req (b ∷ src)
      else record { table = table; req = req; status = 0; pos = src }

  -- The loop, on fuel; `none` means that the fuel ran out. A status other than 0 ends it.
  unfoldable pub block_loop : ℕ → DynamicTable → RequestHeader → List ℕ → Option Progress
  block_loop fuel table req [] = some (record { table = table; req = req; status = 0; pos = [] })
  block_loop zero table req (b ∷ src) = none
  block_loop (suc fuel) table req (b ∷ src) =
      let p = block_field table req b src in
      let more = block_loop fuel p.table p.req p.pos in
      if p.status == 0
      then more
      else some (record p { req = record p.req { error_code = p.status; is_valid = false } })

-- The resets before the loop.
unfoldable pub reset_request : RequestHeader → RequestHeader
reset_request req = record req {
  is_keep_alive = true;
  uri = none;
  host = none;
  content_type = none;
  cookie_data = none;
  error_code = 0;
  method = [];
  h2_uri_buf = [];
  h2_host_buf = [];
  h2_content_type_buf = [];
  h2_cookie_buf = [];
}

-- A payload that is not empty (on the empty one `parse_header` returns at once). Each round takes a
-- byte at least, so as many rounds as bytes are enough.
unfoldable pub decode_block :
    HuffTable → Bool → DynamicTable → RequestHeader → List ℕ → Option Progress
decode_block huff trust_proxy table req payload =
    block_loop huff trust_proxy (length payload) table (reset_request req) payload
