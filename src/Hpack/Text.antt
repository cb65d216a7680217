-- ===== src/Hpack/Text.antt =====
-- String literals of HPACK, src/protocol/http2/halmos_http2_hpack.c. The table of the Huffman
-- decoder, data of another project, is a parameter.
pub mod Bounds
use halmos.Base.{
  ℕ, zero, suc, ◌+◌, ◌-◌, ◌/◌, ◌%◌, ◌≤◌, Bool, true, false, ◌||◌, Option, none, some, List, [], ◌∷◌,
  ◌++◌, ltb, leb, ◌==◌, if◌then◌else◌, length, take, drop, bit_and,
}
use halmos.Hpack.{http2_hpack_decode_int}

-- A row's entry: the next state, flags (2: a symbol is complete) and the symbol.
pub record HuffDecode : Type 0 where
  pub fstate : ℕ
  pub flags : ℕ
  pub sym : ℕ

-- `huff_decode_table[state][nibble]`.
abbrev pub HuffTable : Type 0
HuffTable = ℕ → ℕ → HuffDecode

-- `out` is what `dest` holds so far; `none` is the overflow return.
unfoldable pub huffman_nibble : HuffTable → ℕ → ℕ → List ℕ → ℕ → Option (ℕ × List ℕ)
huffman_nibble huff dest_size state out nibble =
    let t = huff state nibble in
    if bit_and t.flags 2 == 0
    then some (t.fstate, out)
    else if leb dest_size (length out + 1)
    then none
    else some (t.fstate, out ++ t.sym ∷ [])

unfoldable pub huffman_byte : HuffTable → ℕ → ℕ → List ℕ → ℕ → Option (ℕ × List ℕ)
huffman_byte huff dest_size state out b = elim (huffman_nibble huff dest_size state out (b / 16)) [
  | none ↦ none
  | some (state', out') ↦ huffman_nibble huff dest_size state' out' (b % 16)
]

unfoldable pub huffman_loop : HuffTable → ℕ → List ℕ → ℕ → List ℕ → Option (List ℕ)
huffman_loop huff dest_size [] state out = some out
huffman_loop huff dest_size (b ∷ bs) state out = elim (huffman_byte huff dest_size state out b) [
  | none ↦ none
  | some (state', out') ↦ huffman_loop huff dest_size bs state' out'
]

-- `none` is the return of `false`; the bytes are those before the terminating NUL.
unfoldable pub http2_huffman_decode : HuffTable → List ℕ → ℕ → Option (List ℕ)
http2_huffman_decode huff [] dest_size = none
http2_huffman_decode huff (b ∷ bs) dest_size =
    if dest_size == 0 then none else huffman_loop huff dest_size (b ∷ bs) 0 []

abbrev pub text_of : Option (List ℕ) → List ℕ
text_of none = []
text_of (some out) = out

-- What the output buffer gets, `none` where the function returns `false` and leaves it alone, and
-- the bytes from `*pos` on.
unfoldable pub http2_hpack_decode_string_buf : HuffTable → List ℕ → ℕ → Option (List ℕ) × List ℕ
http2_hpack_decode_string_buf huff [] out_max = (none, [])
http2_hpack_decode_string_buf huff (first_byte ∷ src) out_max =
    if out_max == 0
    then (none, first_byte ∷ src)
    else (let (len, rest) = http2_hpack_decode_int (first_byte ∷ src) 0x7f in
        if ltb 10240 len || ltb (length rest) len
        then (none, [])
        else if bit_and first_byte 0x80 == 0
        then (some (take (if ltb len (out_max - 1) then len else out_max - 1) rest), drop len rest)
        else (some (text_of (http2_huffman_decode huff (take len rest) out_max)), drop len rest))
