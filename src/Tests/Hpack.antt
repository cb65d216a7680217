-- ===== src/Tests/Hpack.antt =====
-- Runs of the header decompression, src/protocol/http2/halmos_http2_hpack.c.
use halmos.Base.{
  ℕ, suc, ◌+◌, ◌-◌, ◌*◌, ◌≤◌, ◌<◌, ◌≡◌, refl, inl, inr, true, false, none, some, List, [], ◌∷◌,
  ◌++◌, replicate, length, length-replicate, codes, arith,
}
use halmos.Base.Int.{pos}
use halmos.Hpack.{http2_hpack_decode_int}
use halmos.Hpack.Integer.{encode_int, decode-encode_int}
use halmos.Hpack.Table.{
  new_table, fitted, http2_hpack_get_header, http2_hpack_dynamic_table_add, blank_entry,
}
use halmos.Hpack.Table.Refines.{IsTable, get_header-add}
use halmos.Hpack.Text.{HuffTable, http2_hpack_decode_string_buf, text_of}
use halmos.Hpack.Text.Bounds.{decode_string_buf-bounds}
use halmos.Hpack.Fields.{RequestHeader, http2_hpack_literal_header_with_name}
use halmos.Hpack.Fields.Bounds.{BuffersFit, Outcome, literal_header-Outcome}
use halmos.Hpack.Block.{decode_block}
use halmos.Hpack.Block.Safety.{Ended, decode_block-Ended}

-- 1337 with a prefix of five bits, the example of RFC 7541.
decode-encode_int_example :
    http2_hpack_decode_int (encode_int 0x20 0x1f 1337 ++ 255 ∷ []) 0x1f ≡ (1337, 255 ∷ [])
decode-encode_int_example =
    decode-encode_int 0x20 0x1f 1337 (255 ∷ []) (inr (inr (inl refl))) (omega arith) refl
      (omega arith)

-- More continuation bytes than a number has.
abbrev overlong : List ℕ
overlong = 255 ∷ 255 ∷ 255 ∷ 255 ∷ 255 ∷ 255 ∷ []

new_table-IsTable : IsTable new_table
new_table-IsTable = record { slots = length-replicate 128 blank_entry; used = omega arith }

get_header-add_example :
    let u = http2_hpack_dynamic_table_add new_table (codes "cookie") (codes "a=1") in
    (http2_hpack_get_header u 62 ≡ some (fitted (codes "cookie") (codes "a=1")))
    × ((i : ℕ)
        → i < 127
        → http2_hpack_get_header u (62 + suc i) ≡ http2_hpack_get_header new_table (62 + i))
    × (http2_hpack_get_header u (62 + 128) ≡ none)
    × ((i : ℕ) → i ≤ 61 → http2_hpack_get_header u i ≡ http2_hpack_get_header new_table i)
get_header-add_example = get_header-add new_table (codes "cookie") (codes "a=1") new_table-IsTable

-- A decoder that knows one symbol: any two nibbles make an `a`.
abbrev toy_table : HuffTable
toy_table state nibble = record { fstate = 1 - state; flags = state * 2; sym = b'a' }

decode_string_buf-bounds_example :
    let (out, rest) = http2_hpack_decode_string_buf toy_table (0x83 ∷ 1 ∷ 2 ∷ 3 ∷ 4 ∷ []) 3 in
    (length rest < 5) × (length (text_of out) < 3)
decode_string_buf-bounds_example =
    decode_string_buf-bounds toy_table 0x83 (1 ∷ 2 ∷ 3 ∷ 4 ∷ []) 3 (omega arith)

abbrev blank_request : RequestHeader
blank_request = record {
  client_ip = codes "10.0.0.1";
  method = [];
  uri = none;
  host = none;
  content_type = none;
  cookie_data = none;
  h2_uri_buf = [];
  h2_host_buf = [];
  h2_content_type_buf = [];
  h2_cookie_buf = [];
  error_code = 0;
  is_tls = true;
  content_length = pos 0;
  is_keep_alive = true;
  is_upgrade = false;
  is_valid = true;
}

blank_request-BuffersFit : BuffersFit blank_request
blank_request-BuffersFit = record {
  client_ip_fits = omega arith;
  method_fits = omega arith;
  uri_fits = omega arith;
  host_fits = omega arith;
  content_type_fits = omega arith;
  cookie_fits = omega arith;
}

literal_header-Outcome_example :
    Outcome blank_request (
      http2_hpack_literal_header_with_name true (codes ":method") (replicate 20 b'G') blank_request)
literal_header-Outcome_example =
    literal_header-Outcome true (codes ":method") (replicate 20 b'G') blank_request
      blank_request-BuffersFit

-- `:method: GET`, `:path: /`, a literal host that is added to the table, and its index.
abbrev small_block : List ℕ
small_block = 0x82 ∷ 0x84 ∷ 0x41 ∷ 3 ∷ b'a' ∷ b'.' ∷ b'b' ∷ 0xbe ∷ []

decode_block-Ended_example :
    Ended (decode_block toy_table false new_table blank_request small_block)
decode_block-Ended_example =
    decode_block-Ended toy_table false new_table blank_request small_block new_table-IsTable
      (omega arith)
