-- ===== src/Tests/Util.antt =====
-- Runs of src/protocol/halmos_http_utils.c.
use halmos.Base.{◌≡◌, refl, [], ◌∷◌, codes, arith}
use halmos.Util.{
  url_decode, is_hex, hex_digit, get_mime_type, last_dot, strcmp, search, type_from_dot,
}
use halmos.Util.Url.{itself, plus, percent, url_decode-encoded, encoded}
use halmos.Util.Mime.{expected_type, get_mime_type-expected_type}

-- "a+%2f"
url_decode-encoded_example :
    url_decode (encoded (itself 97 ∷ plus ∷ percent 50 102 ∷ [])) ≡ 97 ∷ 32 ∷ 47 ∷ []
unfolding hex_digit is_hex
url_decode-encoded_example =
    url_decode-encoded (itself 97 ∷ plus ∷ percent 50 102 ∷ [])
      ((omega arith, omega arith), (tt, ((refl, refl), tt)))

get_mime_type-expected_type_example :
    get_mime_type (codes "app.js") ≡ expected_type (last_dot (codes "app.js"))
get_mime_type-expected_type_example = get_mime_type-expected_type (codes "app.js")

run_js : get_mime_type (codes "app.js") ≡ codes "application/octet-stream"
unfolding get_mime_type type_from_dot search last_dot strcmp
run_js = refl
