-- ===== src/Http2/Payload/Padding.antt =====
-- The header block inside a padded HEADERS frame, src/protocol/http2/halmos_http2_parser.c.
use halmos.Base.{
  ℕ, ◌+◌, ◌≤◌, ◌<◌, ◌≡◌, ◌≢◌, subst, List, ◌∷◌, ◌++◌, length, take, drop, take-append, drop-append,
  bit_and, arith,
}
use halmos.Http2.{FrameHeader}
use halmos.Http2.Payload.{strip_headers_padding}

-- On any frame the header block lies inside the frame's payload, whatever pad length it names.
pub strip_headers_padding-bounds :
    (head : FrameHeader) (payload : List ℕ)
    → let (start, len) = strip_headers_padding head payload in start + len ≤ head.length
unfolding strip_headers_padding
strip_headers_padding-bounds head payload = ground arith

-- What is found when both flags are set and the padding fits.
strip_both :
    (head : FrameHeader) (pad n : ℕ) (rest : List ℕ)
    → bit_and head.flags 0x08 ≢ 0
    → bit_and head.flags 0x20 ≢ 0
    → head.length ≡ 6 + n + pad
    → 0 < n
    → strip_headers_padding head (pad ∷ rest) ≡ (6, n)
unfolding strip_headers_padding
strip_both head pad n rest p q whole some_block = ground arith

drop6 :
    (pad : ℕ) (priority rest : List ℕ)
    → length priority ≡ 5
    → drop 6 (pad ∷ (priority ++ rest)) ≡ rest
drop6 pad priority rest five =
    subst (λ n. drop n (priority ++ rest) ≡ rest) five (drop-append priority rest)

-- A frame with the PADDED and the PRIORITY flag, laid out as RFC 7540 says: a pad length, five bytes
-- of priority, a block that is not empty, and the padding. The block is what is found.
pub strip_headers_padding-block :
    (head : FrameHeader) (priority block padding : List ℕ)
    → bit_and head.flags 0x08 ≢ 0
    → bit_and head.flags 0x20 ≢ 0
    → length priority ≡ 5
    → 0 < length block
    → head.length ≡ 6 + length block + length padding
    → let payload = length padding ∷ (priority ++ (block ++ padding)) in
      let (start, len) = strip_headers_padding head payload in take len (drop start payload) ≡ block
strip_headers_padding-block head priority block padding p q five some_block whole =
    rw
      (
        strip_both head (length padding) (length block) (priority ++ (block ++ padding)) p q whole
            some_block,
        drop6 (length padding) priority (block ++ padding) five,
      )
      (take-append block padding)
