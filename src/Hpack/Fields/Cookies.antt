-- ===== src/Hpack/Fields/Cookies.antt =====
-- Several cookie fields of one request, which HTTP/2 clients may send, in
-- src/protocol/http2/halmos_http2_hpack.c.
use halmos.Base.{
  ℕ, ◌≤◌, ◌<◌, ◌≡◌, refl, false, some, List, [], ◌∷◌, ◌++◌, ◌==◌, if◌then◌else◌, codes, streq,
  length, length-append, ap, arith,
}
use halmos.Hpack.Fields.{
  RequestHeader, cookie, field_of, store_cookie, store, http2_hpack_literal_header_with_name,
  http2_cookie_max,
}

-- The values, with `; ` between them.
unfoldable pub joined : List ℕ → List (List ℕ) → List ℕ
joined first [] = first
joined first (v ∷ vs) = joined (first ++ (b';' ∷ b' ' ∷ v)) vs

length-joined-le : (first : List ℕ) (vs : List (List ℕ)) → length first ≤ length (joined first vs)
unfolding joined
length-joined-le first [] = omega arith
length-joined-le first (v ∷ vs) =
    omega (
      arith,
      length-joined-le (first ++ (b';' ∷ b' ' ∷ v)) vs,
      length-append first (b';' ∷ b' ' ∷ v),
    )

-- A request through cookie fields with these values; the first refusal ends it.
unfoldable pub store_cookies : RequestHeader → List (List ℕ) → ℕ × RequestHeader
store_cookies req [] = (0, req)
store_cookies req (v ∷ vs) =
    let (status, req') = http2_hpack_literal_header_with_name false (codes "cookie") v req in
    let more = store_cookies req' vs in if status == 0 then more else (status, req')

is_cookie : field_of (codes "cookie") false ≡ cookie
unfolding field_of streq
is_cookie = refl

-- The request with the text `t` in its cookie buffer.
abbrev pub with_cookie : RequestHeader → List ℕ → RequestHeader
with_cookie req t = record req { h2_cookie_buf = t; cookie_data = some t }

append_cookie :
    (req : RequestHeader) (buf v : List ℕ)
    → 0 < length buf
    → length (buf ++ (b';' ∷ b' ' ∷ v)) < http2_cookie_max
    → http2_hpack_literal_header_with_name false (codes "cookie") v (with_cookie req buf)
      ≡ (0, with_cookie req (buf ++ (b';' ∷ b' ' ∷ v)))
unfolding http2_hpack_literal_header_with_name
append_cookie req buf v some_text fits =
    rw is_cookie (unfold store store_cookie in ground (arith, length-append buf (b';' ∷ b' ' ∷ v)))

first_cookie :
    (req : RequestHeader) (v : List ℕ)
    → req.h2_cookie_buf ≡ []
    → length v < http2_cookie_max
    → http2_hpack_literal_header_with_name false (codes "cookie") v req ≡ (0, with_cookie req v)
unfolding http2_hpack_literal_header_with_name
first_cookie req v empty fits =
    rw is_cookie (unfold store store_cookie in ground (arith, ap length empty))

store_cookies-joined :
    (req : RequestHeader) (buf : List ℕ) (vs : List (List ℕ))
    → 0 < length buf
    → length (joined buf vs) < http2_cookie_max
    → store_cookies (with_cookie req buf) vs ≡ (0, with_cookie req (joined buf vs))
unfolding store_cookies joined
store_cookies-joined req buf [] some_text fits = refl
store_cookies-joined req buf (v ∷ vs) some_text fits =
    let next = buf ++ (b';' ∷ b' ' ∷ v) in
    rw (append_cookie req buf v some_text (omega (arith, length-joined-le next vs)))
      (store_cookies-joined req next vs (omega (arith, length-append buf (b';' ∷ b' ' ∷ v))) fits)

-- Cookie fields that come to a request with an empty cookie buffer, the first of them not empty,
-- leave their values joined by `; ` in the buffer, in the order in which they came, and are all
-- accepted, if the joined text and a NUL fit the buffer.
pub cookies-joined :
    (req : RequestHeader) (v : List ℕ) (vs : List (List ℕ))
    → req.h2_cookie_buf ≡ []
    → 0 < length v
    → length (joined v vs) < http2_cookie_max
    → store_cookies req (v ∷ vs) ≡ (0, with_cookie req (joined v vs))
unfolding store_cookies
cookies-joined req v vs empty some_text fits =
    rw (first_cookie req v empty (omega (arith, length-joined-le v vs)))
      (store_cookies-joined req v vs some_text fits)
