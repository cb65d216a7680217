-- ===== src/Hpack.antt =====
-- HPACK header decompression, src/protocol/http2/halmos_http2_hpack.c. What is left between `*pos`
-- and `end` is a list of bytes; a reader returns its result and the bytes that it leaves.
pub mod Integer
pub mod Static
pub mod Table
pub mod Text
pub mod Fields
pub mod Block
use halmos.Base.{
  ℕ, ◌+◌, ◌*◌, ◌%◌, ◌^◌, Bool, true, false, List, [], ◌∷◌, ltb, ◌==◌, if◌then◌else◌, bit_and,
}

-- The loop of `http2_hpack_decode_int`. The sum and the shift are those of a `uint32_t`.
unfoldable pub int_loop : List ℕ → ℕ → ℕ → ℕ × List ℕ
int_loop [] res shift = (res, [])
int_loop (b ∷ rest) res shift =
    let res' = (res + bit_and b 127 * 2 ^ shift % 2 ^ 32) % 2 ^ 32 in
    let more = int_loop rest res' (shift + 7) in
    if bit_and b 128 == 0 then (res', rest) else if ltb 28 (shift + 7) then (res', rest) else more

unfoldable pub http2_hpack_decode_int : List ℕ → ℕ → ℕ × List ℕ
unfolding int_loop
http2_hpack_decode_int [] prefix_mask = (0, [])
http2_hpack_decode_int (b ∷ rest) prefix_mask =
    let res = bit_and b prefix_mask in
    if ltb res prefix_mask then (res, rest) else int_loop rest res 0
