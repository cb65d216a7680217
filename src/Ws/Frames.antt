-- ===== src/Ws/Frames.antt =====
-- WebSocket frames opened by `handle_websocket_data_payload` of
-- src/protocol/http2/halmos_http2_parser.c.
use halmos.Base.{
  ℕ, zero, suc, ◌+◌, ◌-◌, ◌/◌, ◌%◌, ◌^◌, ◌≤◌, ◌<◌, ◌≡◌, refl, ◌∙◌, ap, inl, inr, true, false, some,
  List, [], ◌∷◌, ◌++◌, ltb, leb, ◌==◌, if◌then◌else◌, length, take, drop, take_all, get_or, All,
  bit_and, arith, Bool-cases,
}
use halmos.Base.Bits.{and_7f, and_80, xor_twice}
use halmos.Ws.{ws_system_build_frame, big_endian, payload_length, masking_key, unmask, open_frame}

abbrev pub IsByte : ℕ → Type 0
IsByte b = b < 256

-- A client's frame as RFC 6455 lays it out, for a payload below 2^32 bytes.
unfoldable pub client_length : ℕ → List ℕ
client_length len =
    if leb len 125
    then (128 + len) ∷ []
    else if leb len 65535
    then 254 ∷ len / 256 ∷ len % 256 ∷ []
    else (255
        ∷ 0
        ∷ 0
        ∷ 0
        ∷ 0
        ∷ len / 2 ^ 24
        ∷ len / 2 ^ 16 % 256
        ∷ len / 256 % 256
        ∷ len % 256
        ∷ [])

unfoldable pub client_frame : ℕ → List ℕ → List ℕ → List ℕ
client_frame opcode key text =
    (128 + opcode) ∷ (client_length (length text) ++ (key ++ unmask key 0 text))

-- A payload masked twice with the same key.
pub unmask_twice :
    (key text : List ℕ) (i : ℕ)
    → ((j : ℕ) → get_or key j 0 < 256)
    → All IsByte text
    → unmask key i (unmask key i text) ≡ text
unfolding unmask
unmask_twice key [] i k h = refl
unmask_twice key (b ∷ text) i k (hb, h) =
    ground
      (arith, xor_twice (get_or key (i % 4) 0) b (k (i % 4)) hb, unmask_twice key text (suc i) k h)

pub length-unmask : (key text : List ℕ) (i : ℕ) → length (unmask key i text) ≡ length text
unfolding unmask
length-unmask key [] i = refl
length-unmask key (b ∷ text) i = ap suc (length-unmask key text (suc i))

-- A frame that is whole, opened.
open_unmasked :
    (frame : List ℕ) (len start : ℕ)
    → payload_length frame ≡ some (len, start)
    → bit_and (get_or frame 1 0) 0x80 ≡ 0
    → 2 ≤ start
    → start + len ≡ length frame
    → length frame < 2 ^ 32
    → open_frame frame true ≡ some (bit_and (get_or frame 0 0) 0x0f, take len (drop start frame))
unfolding open_frame masking_key
open_unmasked frame len start e plain two whole small =
    let enough : ltb (length frame) 2 ≡ false = ground arith in
    let fits : ltb (length frame) ((start + len) % 2 ^ 64) ≡ false = ground arith in
    let short : (len == 2 ^ 64 - 1) ≡ false = ground arith in
    rw (e, open_frame, plain, enough, fits, short) (rw plain refl)

-- The two forms of the length, behind any first byte and with the mask bit as `top`.
short_length :
    (b n : ℕ) (rest : List ℕ)
    → n < 256
    → n % 128 ≤ 125
    → payload_length (b ∷ n ∷ rest) ≡ some (n % 128, 2)
unfolding payload_length
short_length b n rest small h = ground (arith, and_7f n)

long_length :
    (b n len : ℕ) (rest : List ℕ)
    → n < 256
    → n % 128 ≡ 126
    → len < 2 ^ 16
    → payload_length (b ∷ n ∷ len / 256 ∷ len % 256 ∷ rest) ≡ some (len, 4)
unfolding payload_length big_endian
long_length b n len rest small h k = ground (arith, and_7f n)

-- A message of at most 65535 bytes is framed by the server's builder, and the frame is opened to the
-- opcode of a text and to the message, if there is memory for the copy.
pub open-build_frame :
    (message : List ℕ)
    → length message ≤ 65535
    → (frame : List ℕ) × (ws_system_build_frame message ≡ some frame)
      × (open_frame frame true ≡ some (1, message))
unfolding ws_system_build_frame
open-build_frame message h =
    let n = length message in
    elim (Bool-cases (leb n 125)) [
      | inl e ↦
          let frame = 0x81 ∷ n ∷ message in
          let found = short_length 0x81 n message (ground arith) (ground arith) in
          let small : n % 128 ≡ n = ground arith in
          (
            frame,
            ground arith,
            open_unmasked frame n 2 (found ∙ ap (λ m. some (m, 2)) small) (ground (arith, and_80 n))
                  (omega arith) (omega arith) (omega arith)
                ∙ ap (λ t. some (1, t)) (take_all n message (omega arith)),
          )
      | inr e ↦
          let frame = 0x81 ∷ 126 ∷ n / 256 % 256 ∷ n % 256 ∷ message in
          let low : n / 256 % 256 ≡ n / 256 = omega arith in
          (
            frame,
            ground arith,
            open_unmasked frame n 4
                  (rw low (long_length 0x81 126 n message (omega arith) refl (omega arith))) refl
                  (omega arith) (omega arith) (omega arith)
                ∙ ap (λ t. some (1, t)) (take_all n message (omega arith)),
          )
    ]

pub get_or-IsByte : (key : List ℕ) (j : ℕ) → All IsByte key → get_or key j 0 < 256
get_or-IsByte [] j h = omega arith
get_or-IsByte (b ∷ key) zero (hb, h) = hb
get_or-IsByte (b ∷ key) (suc j) (hb, h) = get_or-IsByte key j h

-- What the opener makes of the masked text.
pub clear_text :
    (key text : List ℕ)
    → All IsByte key
    → All IsByte text
    → unmask key 0 (take (length text) (unmask key 0 text)) ≡ text
clear_text key text hk ht =
    ap (unmask key 0)
      (take_all (length text) (unmask key 0 text) (omega (arith, length-unmask key text 0)))
    ∙ unmask_twice key text 0 (λ j. get_or-IsByte key j hk) ht
