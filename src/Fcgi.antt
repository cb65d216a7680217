-- ===== src/Fcgi.antt =====
-- The FastCGI records of src/fastcgi/halmos_fcgi_proto.c, as the bytes that are sent. An `int` below 2^31
-- is a natural number.
pub mod Pairs
pub mod Stdin
pub mod Pool
use halmos.Base.{
  ℕ, zero, suc, ◌+◌, ◌-◌, ◌*◌, ◌/◌, ◌%◌, ◌^◌, Bool, true, false, List, [], ◌∷◌, ◌++◌, ltb, leb,
  ◌==◌, if◌then◌else◌, length, take, drop, replicate,
}
use halmos.Base.Int.{pos, ltb_ℤ}
use halmos.Base.Number.{to_int}

-- A `HalmosFCGI_Header`.
unfoldable pub record_header : ℕ → ℕ → ℕ → ℕ → List ℕ
record_header type request_id content_length padding_length =
    1
    ∷ type
    ∷ request_id / 256 % 256
    ∷ request_id % 256
    ∷ content_length / 256 % 256
    ∷ content_length % 256
    ∷ padding_length % 256
    ∷ 0
    ∷ []

-- The record that `fcgi_proto_begin_request` gathers: a responder that keeps the connection.
unfoldable pub fcgi_proto_begin_request : ℕ → List ℕ
fcgi_proto_begin_request request_id = record_header 1 request_id 8 0 ++ (0 ∷ 1 ∷ 1 ∷ replicate 5 0)

-- The length of a name or value: one byte up to 127, otherwise four with the top bit set.
unfoldable pub pair_length : ℕ → List ℕ
pair_length n =
    if ltb 127 n
    then (n / 2 ^ 24 % 128 + 128) ∷ n / 2 ^ 16 % 256 ∷ n / 2 ^ 8 % 256 ∷ n % 256 ∷ []
    else n ∷ []

-- `fcgi_proto_add_pair` for a name that is not NULL: what stands in `dest` up to the offset, which is its
-- length. The size is a sum of `int`s: past 2^31 it is taken to wrap around, and the pair is written anyway.
unfoldable pub fcgi_proto_add_pair : List ℕ → List ℕ → List ℕ → ℕ → List ℕ
fcgi_proto_add_pair dest name value max_len =
    let h_name = if ltb 127 (length name) then 4 else 1 in
    let h_val = if ltb 127 (length value) then 4 else 1 in
    if ltb_ℤ (pos max_len) (to_int (length dest + h_name + h_val + length name + length value))
    then dest
    else dest ++ (pair_length (length name) ++ (pair_length (length value) ++ (name ++ value)))

-- A record of `fcgi_proto_send_stdin`: a chunk and zeros up to a multiple of eight.
unfoldable pub stdin_record : ℕ → List ℕ → List ℕ
stdin_record request_id chunk =
    let pad = (8 - length chunk % 8) % 8 in
    record_header 5 request_id (length chunk) pad ++ (chunk ++ replicate pad 0)

-- The loop over the data that is left; the fuel bounds its passes. `safe_send_all` is taken to send all.
unfoldable pub stdin_loop : ℕ → ℕ → List ℕ → List ℕ
stdin_loop zero request_id bytes = []
stdin_loop (suc fuel) request_id bytes =
    let rest = stdin_loop fuel request_id (drop 32768 bytes) in
    if length bytes == 0 then [] else stdin_record request_id (take 32768 bytes) ++ rest

unfoldable pub fcgi_proto_send_stdin : ℕ → List ℕ → List ℕ
fcgi_proto_send_stdin request_id bytes =
    stdin_loop (length bytes) request_id bytes ++ record_header 5 request_id 0 0
