-- ===== src/Hpack/Integer.antt =====
-- What `http2_hpack_decode_int` of src/protocol/http2/halmos_http2_hpack.c takes from its input, and
-- that it reads back the integers of RFC 7541, section 5.1.
use halmos.Base.{
  ℕ, zero, suc, ◌+◌, ◌-◌, ◌*◌, ◌/◌, ◌%◌, ◌^◌, ◌≤◌, ◌<◌, ◌≡◌, refl, sym, ap, ◌⊎◌, inl, inr, List, [],
  ◌∷◌, ◌++◌, ltb, if◌then◌else◌, bit_and, length, length-append, Bool-cases, arith,
}
use halmos.Base.Bits.{and_7f, and_3f, and_1f, and_0f, and_80}
use halmos.Hpack.{int_loop, http2_hpack_decode_int}
use native.Mathlib.Nat.{div-add-mod, mod-add-mod, mod-eq_of_lt}
use native.Mathlib.Numerals.{towards_suc}

abbrev pub IsByte : ℕ → Type 0
IsByte b = b < 256

-- A reader took `front`, at most `most` bytes, off `src`.
pub record Takes (most : ℕ) (src rest : List ℕ) : Type 0 where
  pub front : List ℕ
  pub split : src ≡ front ++ rest
  pub few : length front ≤ most

pub Takes-cons :
    {most : ℕ} {src rest : List ℕ} (b : ℕ) → Takes most src rest → Takes (suc most) (b ∷ src) rest
Takes-cons b t = record {
  front = b ∷ t.front;
  split = ap (◌∷◌ b) t.split;
  few = omega (arith, t.few);
}

pub Takes-none : (most : ℕ) (src : List ℕ) → Takes most src src
Takes-none most src = record { front = []; split = refl; few = omega arith }

pub Takes-one : (most b : ℕ) (src : List ℕ) → Takes (suc most) (b ∷ src) src
Takes-one most b src = Takes-cons b (Takes-none most src)

-- `k` more bytes may follow at this shift.
int_loop-Takes :
    (k : ℕ) (src : List ℕ) (res shift : ℕ)
    → shift + 7 * k ≡ 35
    → shift ≤ 28
    → Takes k src (int_loop src res shift).1
unfolding int_loop
int_loop-Takes k [] res shift h low = Takes-none k []
int_loop-Takes zero (b ∷ rest) res shift h low = absurd (omega arith)
int_loop-Takes (suc k) (b ∷ rest) res shift h low =
    let res' : ℕ = (res + bit_and b 127 * 2 ^ shift % 2 ^ 32) % 2 ^ 32 in
    ground (
      arith,
      Takes-one k b rest,
      λ (next : shift + 7 ≤ 28).
          Takes-cons b (int_loop-Takes k rest res' (shift + 7) (omega arith) next),
    )

int_loop-lt : (src : List ℕ) (res shift : ℕ) → res < 2 ^ 32 → (int_loop src res shift).0 < 2 ^ 32
unfolding int_loop
int_loop-lt [] res shift h = h
int_loop-lt (b ∷ rest) res shift h = ground (
  arith,
  int_loop-lt rest ((res + bit_and b 127 * 2 ^ shift % 2 ^ 32) % 2 ^ 32) (shift + 7) (omega arith),
)

pub Takes-length : {most : ℕ} {src rest : List ℕ} → Takes most src rest → length rest ≤ length src
Takes-length {rest} t = omega (arith, ap length t.split, length-append t.front rest)

-- The prefix masks with which the decoder is called.
abbrev pub IsMask : ℕ → Type 0
IsMask m = (m ≡ 0x7f) ⊎ ((m ≡ 0x3f) ⊎ ((m ≡ 0x1f) ⊎ (m ≡ 0x0f)))

and_mask : (m b : ℕ) → IsMask m → b < 256 → bit_and b m ≡ b % (m + 1)
and_mask m b (inl e) h = rw e (and_7f b h)
and_mask m b (inr (inl e)) h = rw e (and_3f b h)
and_mask m b (inr (inr (inl e))) h = rw e (and_1f b h)
and_mask m b (inr (inr (inr e))) h = rw e (and_0f b h)

-- On at least one byte, and with a mask that the decoder uses, `http2_hpack_decode_int` takes
-- between one and six bytes, whatever they are, and gives a value that fits a `uint32_t`.
pub http2_hpack_decode_int-Takes :
    (b : ℕ) (rest : List ℕ) (mask : ℕ)
    → b < 256
    → IsMask mask
    → let (v, left) = http2_hpack_decode_int (b ∷ rest) mask in
      Takes 6 (b ∷ rest) left × (length left < length (b ∷ rest)) × (v < 2 ^ 32)
unfolding http2_hpack_decode_int
http2_hpack_decode_int-Takes b rest mask h m =
    let fits : bit_and b mask < 2 ^ 32 = omega (arith, and_mask mask b m h) in
    ground (
      arith,
      fits,
      Takes-one 5 b rest,
      Takes-cons b (int_loop-Takes 5 rest (bit_and b mask) 0 (omega arith) (omega arith)),
      Takes-length (int_loop-Takes 5 rest (bit_and b mask) 0 (omega arith) (omega arith)),
      int_loop-lt rest (bit_and b mask) 0 fits,
    )

pub http2_hpack_decode_int-shorter :
    (b : ℕ) (rest : List ℕ) (mask : ℕ)
    → length (http2_hpack_decode_int (b ∷ rest) mask).1 < length (b ∷ rest)
unfolding http2_hpack_decode_int
http2_hpack_decode_int-shorter b rest mask =
    ground
      (arith, Takes-length (int_loop-Takes 5 rest (bit_and b mask) 0 (omega arith) (omega arith)))

-- The groups of seven bits of `w`, lowest first, at most `k + 1` of them.
unfoldable pub encode_rest : ℕ → ℕ → List ℕ
encode_rest zero w = w ∷ []
encode_rest (suc k) w =
    let more = encode_rest k (w / 128) in if ltb w 128 then w ∷ [] else (w % 128 + 128) ∷ more

-- The integer `v` of RFC 7541 behind the bits `flags` of the first byte.
unfoldable pub encode_int : ℕ → ℕ → ℕ → List ℕ
encode_int flags mask v =
    if ltb v mask then (flags + v) ∷ [] else (flags + mask) ∷ encode_rest 4 (v - mask)

-- A number is its lowest group and the rest, also at a place `p`.
groups_at : (p v : ℕ) → v % 128 * p + v / 128 * (p * 128) ≡ v * p
groups_at p v = omega (arith, sym (ap (λ (n : ℕ). n * p) (div-add-mod v 128)))

place_seven : (n : ℕ) → 2 ^ (n + 7) ≡ 2 ^ n * 128
place_seven n = simp towards_suc (omega arith)

group_and_rest : (v n : ℕ) → v % 128 * 2 ^ n + v / 128 * 2 ^ (n + 7) ≡ v * 2 ^ n
group_and_rest v n = rw (place_seven n) (groups_at (2 ^ n) v)

int_loop_last :
    (w res shift : ℕ) (rest : List ℕ)
    → w < 128
    → res + w * 2 ^ shift < 2 ^ 32
    → int_loop (w ∷ rest) res shift ≡ (res + w * 2 ^ shift, rest)
unfolding int_loop
int_loop_last w res shift rest hw fits = ground (arith, and_7f w, and_80 w)

int_loop_inner :
    (g res shift : ℕ) (rest : List ℕ)
    → g < 128
    → shift ≤ 21
    → res + g * 2 ^ shift < 2 ^ 32
    → int_loop ((g + 128) ∷ rest) res shift ≡ int_loop rest (res + g * 2 ^ shift) (shift + 7)
unfolding int_loop
int_loop_inner g res shift rest hg hs fits = ground (arith, and_7f (g + 128), and_80 (g + 128))

int_loop-encode_rest :
    (k w res shift : ℕ) (rest : List ℕ)
    → w < 128 ^ suc k
    → shift + 7 * k ≤ 28
    → res + w * 2 ^ shift < 2 ^ 32
    → int_loop (encode_rest k w ++ rest) res shift ≡ (res + w * 2 ^ shift, rest)
unfolding encode_rest
int_loop-encode_rest zero w res shift rest hw hs fits = int_loop_last w res shift rest hw fits
int_loop-encode_rest (suc k) w res shift rest hw hs fits = ground (
  arith,
  int_loop_last w res shift rest,
  group_and_rest w shift,
  int_loop_inner (w % 128) res shift (encode_rest k (w / 128) ++ rest),
  int_loop-encode_rest k (w / 128) (res + w % 128 * 2 ^ shift) (shift + 7) rest (omega arith),
)

field_of : (n : ℕ) (flags v : ℕ) → flags % (n + 1) ≡ 0 → v ≤ n → (flags + v) % (n + 1) ≡ v
field_of n flags v hz hv = grind (arith, mod-add-mod, mod-eq_of_lt)

-- Every value of 32 bits, written as RFC 7541 says behind whatever bits the mask leaves free, is
-- read back, and nothing behind it is taken.
pub decode-encode_int :
    (flags mask v : ℕ) (rest : List ℕ)
    → IsMask mask
    → flags + mask < 256
    → flags % (mask + 1) ≡ 0
    → v < 2 ^ 32
    → http2_hpack_decode_int (encode_int flags mask v ++ rest) mask ≡ (v, rest)
unfolding http2_hpack_decode_int encode_int
decode-encode_int flags mask v rest m hf hz hv = ground (
  arith,
  and_mask mask (flags + v) m,
  and_mask mask (flags + mask) m,
  field_of mask flags v hz,
  field_of mask flags mask hz,
  int_loop-encode_rest 4 (v - mask) mask 0 rest,
)

-- The encoding starts with a byte between the flags and the flags with the full mask.
pub encode_int-head :
    (flags mask v : ℕ)
    → (b : ℕ) × (more : List ℕ) × (encode_int flags mask v ≡ b ∷ more)
      × (flags ≤ b)
      × (b ≤ flags + mask)
unfolding encode_int
encode_int-head flags mask v = elim (Bool-cases (ltb v mask)) [
  | inl e ↦ (flags + v, [], ground arith, omega arith, ground arith)
  | inr e ↦ (flags + mask, encode_rest 4 (v - mask), ground arith, omega arith, omega arith)
]
