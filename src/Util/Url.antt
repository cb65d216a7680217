-- ===== src/Util/Url.antt =====
-- What `url_decode` of src/protocol/halmos_http_utils.c undoes.
use halmos.Base.{ℕ, ◌+◌, ◌*◌, ◌≡◌, ◌≢◌, refl, ◌∙◌, ap, true, List, [], ◌∷◌, map, All, arith}
use halmos.Util.{is_hex, hex_digit, url_decode}

-- A byte, as a client may write it: itself, a plus for a space, or a percent sign and two digits.
pub data Written : Type 0 where
  itself : ℕ → Written
  plus : Written
  percent : ℕ → ℕ → Written

abbrev pub IsWritten : Written → Type 0
IsWritten (itself c) = (c ≢ 43) × (c ≢ 37)
IsWritten plus = Unit
IsWritten (percent high low) = (is_hex high ≡ true) × (is_hex low ≡ true)

unfoldable pub encoded : List Written → List ℕ
encoded [] = []
encoded (itself c ∷ ws) = c ∷ encoded ws
encoded (plus ∷ ws) = 43 ∷ encoded ws
encoded (percent high low ∷ ws) = 37 ∷ high ∷ low ∷ encoded ws

abbrev pub meaning : Written → ℕ
meaning (itself c) = c
meaning plus = 32
meaning (percent high low) = hex_digit high * 16 + hex_digit low

decode_end : url_decode [] ≡ []
unfolding url_decode
decode_end = refl

decode_itself : (c : ℕ) (s : List ℕ) → c ≢ 43 → c ≢ 37 → url_decode (c ∷ s) ≡ c ∷ url_decode s
unfolding url_decode
decode_itself c [] no_plus no_percent = ground arith
decode_itself c (a ∷ []) no_plus no_percent = ground arith
decode_itself c (a ∷ b ∷ s) no_plus no_percent = ground arith

decode_plus : (s : List ℕ) → url_decode (43 ∷ s) ≡ 32 ∷ url_decode s
unfolding url_decode
decode_plus [] = refl
decode_plus (a ∷ []) = refl
decode_plus (a ∷ b ∷ s) = refl

decode_percent :
    (high low : ℕ) (s : List ℕ)
    → is_hex high ≡ true
    → is_hex low ≡ true
    → url_decode (37 ∷ high ∷ low ∷ s) ≡ (hex_digit high * 16 + hex_digit low) ∷ url_decode s
unfolding url_decode
decode_percent high low s h l = ground (arith, h, l)

-- Whatever of a text is written as itself, but for plus and percent signs, whatever spaces as a plus, and
-- whatever bytes as a percent sign and two hexadecimal digits of either case, `url_decode` gives the
-- text.
pub url_decode-encoded :
    (ws : List Written) → All IsWritten ws → url_decode (encoded ws) ≡ map meaning ws
unfolding encoded
url_decode-encoded [] h = decode_end
url_decode-encoded (itself c ∷ ws) ((no_plus, no_percent), hs) =
    decode_itself c (encoded ws) no_plus no_percent ∙ ap (◌∷◌ c) (url_decode-encoded ws hs)
url_decode-encoded (plus ∷ ws) (h, hs) =
    decode_plus (encoded ws) ∙ ap (◌∷◌ 32) (url_decode-encoded ws hs)
url_decode-encoded (percent high low ∷ ws) ((h, l), hs) =
    decode_percent high low (encoded ws) h l
    ∙ ap (◌∷◌ (hex_digit high * 16 + hex_digit low)) (url_decode-encoded ws hs)
