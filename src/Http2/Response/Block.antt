-- ===== src/Http2/Response/Block.antt =====
-- The lengths and strings of the header blocks of src/protocol/http2/halmos_http2_response.c, read by the decoder
-- of src/protocol/http2/halmos_http2_hpack.c.
use mathlib.Core.Option
use mathlib.Core.List.{append_assoc}
use halmos.Base.{
  ℕ, zero, suc, ◌+◌, ◌-◌, ◌/◌, ◌^◌, ◌≤◌, ◌<◌, ◌≡◌, refl, ◌∙◌, ap, true, Option, some, none, List,
  [], ◌∷◌, ◌++◌, ltb, ◌==◌, if◌then◌else◌, length, arith,
}
use halmos.Hpack.Integer.{encode_int, encode_rest}
use halmos.Hpack.Text.{HuffTable, http2_hpack_decode_string_buf}
use halmos.Hpack.Text.Bounds.{decode_string_buf-literal}
use halmos.Http2.Response.{length_groups, value_length, plain_field}

length_groups-encode_rest :
    (k m w : ℕ) → w < 128 ^ suc k → length_groups (suc (k + m)) w ≡ encode_rest k w
unfolding length_groups encode_rest
length_groups-encode_rest zero m w h = ground arith
length_groups-encode_rest (suc k) m w h =
    let rest : length_groups (suc (k + m)) (w / 128) ≡ encode_rest k (w / 128) =
      length_groups-encode_rest k m (w / 128) (omega arith) in
    let e : suc k + m ≡ suc (k + m) = omega arith in rw (e, rest) (ground arith)

-- The length of a value is the integer of RFC 7541.
value_length-encode_int : (n : ℕ) → n ≤ 10240 → value_length n ≡ encode_int 0 0x7f n
unfolding value_length encode_int
value_length-encode_int n h = ground (arith, length_groups-encode_rest 4 5 (n - 127) (omega arith))

-- The decoder's buffers.
abbrev pub room : ℕ
room = 16384

abbrev both : Option (List ℕ) → Option (List ℕ) × List ℕ → Option ((List ℕ × List ℕ) × List ℕ)
both none value = none
both (some key) (none, rest) = none
both (some key) (some value, rest) = some ((key, value), rest)

abbrev with_value : HuffTable → Option (List ℕ) × List ℕ → Option ((List ℕ × List ℕ) × List ℕ)
with_value huff (key, behind) = both key (http2_hpack_decode_string_buf huff behind room)

-- A key and a value, as the decoder's strings give them.
unfoldable pub read_strings : HuffTable → List ℕ → Option ((List ℕ × List ℕ) × List ℕ)
read_strings huff bs = with_value huff (http2_hpack_decode_string_buf huff bs room)

-- A field without indexing and with a new name.
unfoldable pub read_field : HuffTable → List ℕ → Option ((List ℕ × List ℕ) × List ℕ)
read_field huff [] = none
read_field huff (b ∷ bs) = let strings = read_strings huff bs in if b == 0 then strings else none

-- Fields to the end of the block; the fuel bounds their number.
unfoldable pub read_fields : HuffTable → ℕ → List ℕ → Option (List (List ℕ × List ℕ))
read_fields huff fuel [] = some []
read_fields huff zero (b ∷ bs) = none
read_fields huff (suc fuel) (b ∷ bs) = elim (read_field huff (b ∷ bs)) [
  | none ↦ none
  | some (field, rest) ↦ Option.map (◌∷◌ field) (read_fields huff fuel rest)
]

key_length : (n : ℕ) → n < 127 → encode_int 0 0x7f n ≡ n ∷ []
unfolding encode_int
key_length n h = ground arith

plain_field_lem :
    (key value rest : List ℕ)
    → length key < 127
    → length value ≤ 10240
    → plain_field key value ++ rest
      ≡ 0
        ∷ (encode_int 0 0x7f (length key)
            ++ (key ++ (encode_int 0 0x7f (length value) ++ (value ++ rest))))
unfolding plain_field
plain_field_lem key value rest short fits =
    let small : ltb (length key) 127 ≡ true = ground arith in
    let one : encode_int 0 0x7f (length key) ≡ length key ∷ [] = key_length (length key) short in
    let e = value_length-encode_int (length value) fits in
    rw (small, one, e)
      (ap (λ bs. 0 ∷ length key ∷ bs)
        (append_assoc key (encode_int 0 0x7f (length value) ++ value) rest
          ∙ ap (key ++◌) (append_assoc (encode_int 0 0x7f (length value)) value rest)))

read_strings-encode_int :
    (huff : HuffTable) (key value rest : List ℕ)
    → length key < 127
    → length value ≤ 10240
    → read_strings huff (
        encode_int 0 0x7f (length key)
        ++ (key ++ (encode_int 0 0x7f (length value) ++ (value ++ rest))))
      ≡ some ((key, value), rest)
unfolding read_strings
read_strings-encode_int huff key value rest short fits =
    let behind = encode_int 0 0x7f (length value) ++ (value ++ rest) in
    ap (with_value huff)
      (decode_string_buf-literal huff key behind room (omega arith) (omega arith))
    ∙ ap (both (some key)) (decode_string_buf-literal huff value rest room fits (omega arith))

read_field_none : (huff : HuffTable) (bs : List ℕ) → read_field huff (0 ∷ bs) ≡ read_strings huff bs
unfolding read_field
read_field_none huff bs = refl

pub read_field-plain_field :
    (huff : HuffTable) (key value rest : List ℕ)
    → length key < 127
    → length value ≤ 10240
    → read_field huff (plain_field key value ++ rest) ≡ some ((key, value), rest)
read_field-plain_field huff key value rest short fits =
    ap (read_field huff) (plain_field_lem key value rest short fits)
    ∙ read_field_none huff _
    ∙ read_strings-encode_int huff key value rest short fits
