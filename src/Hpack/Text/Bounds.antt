-- ===== src/Hpack/Text/Bounds.antt =====
-- The reads and writes of the string decoder of src/protocol/http2/halmos_http2_hpack.c.
use halmos.Base.{
  ℕ, ◌-◌, ◌/◌, ◌%◌, ◌≤◌, ◌<◌, ◌≡◌, refl, inl, inr, true, false, Option, none, some, List, [], ◌∷◌,
  ◌++◌, ltb, ◌==◌, if◌then◌else◌, length, length-append, length-take, length-drop, take, drop,
  bit_and, Option-cases, take-append, drop-append, arith,
}
use halmos.Hpack.{http2_hpack_decode_int}
use halmos.Base.Bits.{and_80}
use halmos.Hpack.Integer.{
  encode_int, encode_int-head, decode-encode_int, http2_hpack_decode_int-shorter,
}
use halmos.Hpack.Text.{
  HuffTable, huffman_nibble, huffman_byte, huffman_loop, http2_huffman_decode, text_of,
  http2_hpack_decode_string_buf,
}

-- The buffer has room for what it holds and a NUL.
abbrev Fits : ℕ → Option (ℕ × List ℕ) → Type 0
Fits n none = Unit {0}
Fits n (some (state, out)) = length out < n

module _ (huff : HuffTable) (dest_size : ℕ) where
  huffman_nibble-Fits :
      (state nibble : ℕ) (out : List ℕ)
      → length out < dest_size
      → Fits dest_size (huffman_nibble huff dest_size state out nibble)
  unfolding huffman_nibble
  huffman_nibble-Fits state nibble out h =
      ground (arith, length-append out ((huff state nibble).sym ∷ []))

  huffman_byte-Fits :
      (state b : ℕ) (out : List ℕ)
      → length out < dest_size
      → Fits dest_size (huffman_byte huff dest_size state out b)
  unfolding huffman_byte
  huffman_byte-Fits state b out h =
      elim (Option-cases (huffman_nibble huff dest_size state out (b / 16))) [
        | inl e ↦ rw (e, huffman_byte) tt
        | inr ((state', out'), e) ↦ ground (
          arith,
          e,
          huffman_nibble-Fits state (b / 16) out h,
          huffman_nibble-Fits state' (b % 16) out',
        )
      ]

  huffman_loop-fits :
      (src : List ℕ) (state : ℕ) (out : List ℕ)
      → length out < dest_size
      → length (text_of (huffman_loop huff dest_size src state out)) < dest_size
  unfolding huffman_loop
  huffman_loop-fits [] state out h = h
  huffman_loop-fits (b ∷ bs) state out h =
      elim (Option-cases (huffman_byte huff dest_size state out b)) [
        | inl e ↦ ground (arith, e)
        | inr ((state', out'), e) ↦
            ground (arith, e, huffman_byte-Fits state b out h, huffman_loop-fits bs state' out')
      ]

  -- Whatever the bytes and the decoder's table, the decoded text and its NUL fit the buffer.
  pub huffman_decode-fits :
      (src : List ℕ)
      → 0 < dest_size
      → length (text_of (http2_huffman_decode huff src dest_size)) < dest_size
  unfolding http2_huffman_decode
  huffman_decode-fits [] h = h
  huffman_decode-fits (b ∷ bs) h = ground (arith, huffman_loop-fits (b ∷ bs) 0 [] h)

-- The parts of the input: a prefix is taken, whatever the length field says.
length-drop-le : (n : ℕ) (xs : List ℕ) → length (drop n xs) ≤ length xs
length-drop-le n xs = omega (arith, length-drop n xs)

-- `http2_hpack_decode_string_buf` makes progress on any bytes: it leaves fewer than it found. What
-- it writes leaves room for the NUL, with any table of the Huffman decoder.
pub decode_string_buf-bounds :
    (huff : HuffTable) (b : ℕ) (src : List ℕ) (out_max : ℕ)
    → 0 < out_max
    → let (out, rest) = http2_hpack_decode_string_buf huff (b ∷ src) out_max in
      (length rest < length (b ∷ src)) × (length (text_of out) < out_max)
unfolding http2_hpack_decode_string_buf
decode_string_buf-bounds huff b src out_max h =
    let (len, rest) = http2_hpack_decode_int (b ∷ src) 0x7f in
    ground (
      arith,
      http2_hpack_decode_int-shorter b src 0x7f,
      length-drop-le len rest,
      length-take len rest,
      length-take (out_max - 1) rest,
      huffman_decode-fits huff out_max (take len rest) h,
    )

copied_length : (n m : ℕ) → n < m → (if ltb n (m - 1) then n else m - 1) ≡ n
copied_length n m h = ground arith

plain_literal :
    (huff : HuffTable) (b : ℕ) (src text rest : List ℕ) (out_max : ℕ)
    → b < 128
    → http2_hpack_decode_int (b ∷ src) 0x7f ≡ (length text, text ++ rest)
    → length text ≤ 10240
    → length text < out_max
    → http2_hpack_decode_string_buf huff (b ∷ src) out_max ≡ (some text, rest)
unfolding http2_hpack_decode_string_buf
plain_literal huff b src text rest out_max hb e h fits =
    let room : (out_max == 0) ≡ false = ground arith in
    let short : ltb 10240 (length text) ≡ false = ground arith in
    let whole : ltb (length (text ++ rest)) (length text) ≡ false =
      ground (arith, length-append text rest) in
    let plain : (bit_and b 0x80 == 0) ≡ true = ground (arith, and_80 b) in
    rw (e, room, short, whole, plain, copied_length (length text) out_max fits)
      (rw (take-append text rest, drop-append text rest) refl)

-- A literal without Huffman coding is the text itself, if the buffer has room for it, and the reader
-- stops right behind it.
pub decode_string_buf-literal :
    (huff : HuffTable) (text rest : List ℕ) (out_max : ℕ)
    → length text ≤ 10240
    → length text < out_max
    → http2_hpack_decode_string_buf huff (encode_int 0 0x7f (length text) ++ (text ++ rest)) out_max
      ≡ (some text, rest)
decode_string_buf-literal huff text rest out_max h fits =
    let (b, more, e, lo, hi) = encode_int-head 0 0x7f (length text) in
    let read =
      decode-encode_int 0 0x7f (length text) (text ++ rest) (inl refl) (omega arith) refl
        (omega arith) in
    rw e (
      plain_literal huff b (more ++ (text ++ rest)) text rest out_max (omega arith) (rw e at read) h
        fits)
