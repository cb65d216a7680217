-- ===== src/Hpack/Fields/Bounds.antt =====
-- The buffers of a request under `http2_hpack_literal_header_with_name` of
-- src/protocol/http2/halmos_http2_hpack.c, and what its error returns leave.
use halmos.Base.{
  ℕ, ◌<◌, ◌≡◌, ◌⊎◌, refl, Bool, List, ◌∷◌, length, length-append, Option-cases, inl, inr, arith,
}
use halmos.Hpack.Fields.{
  RequestHeader, Field, path, authority, content_type, cookie, content_length, method, scheme,
  forwarded_for, protocol, other, field_of, before_comma, store_cookie, store_forwarded_for, store,
  http2_hpack_literal_header_with_name, client_ip_size, method_size, http2_uri_max, http2_host_max,
  http2_content_type_max, http2_cookie_max,
}

-- Each buffer holds its text and a NUL.
pub record BuffersFit (r : RequestHeader) : Type 0 where
  pub client_ip_fits : length r.client_ip < client_ip_size
  pub method_fits : length r.method < method_size
  pub uri_fits : length r.h2_uri_buf < http2_uri_max
  pub host_fits : length r.h2_host_buf < http2_host_max
  pub content_type_fits : length r.h2_content_type_buf < http2_content_type_max
  pub cookie_fits : length r.h2_cookie_buf < http2_cookie_max

-- A field is taken and every buffer still fits, or it is refused with 414 or 431 and the request is
-- as it was.
abbrev pub Outcome : RequestHeader → ℕ × RequestHeader → Type 0
Outcome req (status, req') =
    ((status ≡ 0) × BuffersFit req') ⊎ (((status ≡ 414) ⊎ (status ≡ 431)) × (req' ≡ req))

store_cookie-Outcome :
    (req : RequestHeader) (value : List ℕ) → BuffersFit req → Outcome req (store_cookie req value)
unfolding store_cookie
store_cookie-Outcome req value fit =
    ground (arith, length-append req.h2_cookie_buf (b';' ∷ b' ' ∷ value))

store_forwarded_for-Outcome :
    (req : RequestHeader) (value : List ℕ)
    → BuffersFit req
    → Outcome req (store_forwarded_for req value)
unfolding store_forwarded_for
store_forwarded_for-Outcome req value fit = elim (Option-cases (before_comma value)) [
  | inl e ↦ ground (arith, e)
  | inr (ip, e) ↦ ground (arith, e)
]

store-Outcome :
    (f : Field) (req : RequestHeader) (value : List ℕ)
    → BuffersFit req
    → Outcome req (store f req value)
unfolding store
store-Outcome path req value fit = ground arith
store-Outcome authority req value fit = ground arith
store-Outcome content_type req value fit = ground arith
store-Outcome cookie req value fit = store_cookie-Outcome req value fit
store-Outcome content_length req value fit = inl (refl, ground arith)
store-Outcome method req value fit = ground arith
store-Outcome scheme req value fit = inl (refl, ground arith)
store-Outcome forwarded_for req value fit = store_forwarded_for-Outcome req value fit
store-Outcome protocol req value fit = ground arith
store-Outcome other req value fit = inl (refl, fit)

-- On any field, with a name and a value of any length: it is accepted and no buffer of the request
-- overflows, or it is refused with 414 or 431 and the request is left as it was.
pub literal_header-Outcome :
    (trust_proxy : Bool) (name value : List ℕ) (req : RequestHeader)
    → BuffersFit req
    → Outcome req (http2_hpack_literal_header_with_name trust_proxy name value req)
unfolding http2_hpack_literal_header_with_name
literal_header-Outcome trust_proxy name value req fit =
    store-Outcome (field_of name trust_proxy) req value fit
