-- ===== src/Hpack/Fields.antt =====
-- What a decoded header field does to the request,
-- `http2_hpack_literal_header_with_name` of src/protocol/http2/halmos_http2_hpack.c. A pointer into
-- one of the request's buffers is that buffer's text: each write of a buffer sets its pointer again.
pub mod Bounds
pub mod Cookies
use halmos.Base.{
  ℕ, ◌+◌, ◌≤◌, Bool, true, false, ◌&&◌, ◌||◌, Option, none, some, List, [], ◌∷◌, ◌++◌, ltb, leb,
  ◌==◌, if◌then◌else◌, length, codes, streq,
}
use halmos.Base.Int.{ℤ, pos}
use halmos.Base.Number.{strtol_int}

-- The fields of `RequestHeader` that HPACK writes.
pub record RequestHeader : Type 0 where
  pub client_ip : List ℕ
  pub method : List ℕ
  pub uri : Option (List ℕ)
  pub host : Option (List ℕ)
  pub content_type : Option (List ℕ)
  pub cookie_data : Option (List ℕ)
  pub h2_uri_buf : List ℕ
  pub h2_host_buf : List ℕ
  pub h2_content_type_buf : List ℕ
  pub h2_cookie_buf : List ℕ
  pub error_code : ℕ
  pub is_tls : Bool
  pub content_length : ℤ
  pub is_keep_alive : Bool
  pub is_upgrade : Bool
  pub is_valid : Bool

-- The sizes of the buffers, the terminating NUL included.
abbrev pub client_ip_size : ℕ
client_ip_size = 45

abbrev pub method_size : ℕ
method_size = 16

abbrev pub http2_uri_max : ℕ
http2_uri_max = 1024

abbrev pub http2_host_max : ℕ
http2_host_max = 256

abbrev pub http2_content_type_max : ℕ
http2_content_type_max = 128

abbrev pub http2_cookie_max : ℕ
http2_cookie_max = 1024

-- The chain of `strcmp` on the name.
pub data Field : Type 0 where
  path authority content_type cookie content_length method scheme forwarded_for protocol : Field
  other : Field

unfoldable pub field_of : List ℕ → Bool → Field
field_of name trust_proxy =
    if streq name (codes ":path")
    then path
    else if streq name (codes ":authority") || streq name (codes "host")
    then authority
    else if streq name (codes "content-type")
    then content_type
    else if streq name (codes "cookie")
    then cookie
    else if streq name (codes "content-length")
    then content_length
    else if streq name (codes ":method")
    then method
    else if streq name (codes ":scheme")
    then scheme
    else if streq name (codes "x-forwarded-for") && trust_proxy
    then forwarded_for
    else if streq name (codes ":protocol")
    then protocol
    else other

-- The text before the first comma, if there is one.
unfoldable pub before_comma : List ℕ → Option (List ℕ)
before_comma [] = none
before_comma (c ∷ s) =
    if c == b',' then some [] else elim (before_comma s) [ none ↦ none | some t ↦ some (c ∷ t) ]

unfoldable pub store_cookie : RequestHeader → List ℕ → ℕ × RequestHeader
store_cookie req value =
    if length req.h2_cookie_buf == 0
    then (if leb http2_cookie_max (length value)
        then (431, req)
        else (0, record req { h2_cookie_buf = value; cookie_data = some value }))
    else (let joined = req.h2_cookie_buf ++ (b';' ∷ b' ' ∷ value) in
        if leb http2_cookie_max (length req.h2_cookie_buf + 2 + length value)
        then (431, req)
        else (0, record req { h2_cookie_buf = joined; cookie_data = some joined }))

unfoldable pub store_forwarded_for : RequestHeader → List ℕ → ℕ × RequestHeader
store_forwarded_for req value = elim (before_comma value) [
  | some ip ↦
      if ltb (length ip) client_ip_size then (0, record req { client_ip = ip }) else (0, req)
  | none ↦
      if leb client_ip_size (length value)
      then (431, req)
      else (0, record req { client_ip = value })
]

unfoldable pub store : Field → RequestHeader → List ℕ → ℕ × RequestHeader
store path req value =
    if leb http2_uri_max (length value)
    then (414, req)
    else (0, record req { h2_uri_buf = value; uri = some value })
store authority req value =
    if leb http2_host_max (length value)
    then (431, req)
    else (0, record req { h2_host_buf = value; host = some value })
store content_type req value =
    if leb http2_content_type_max (length value)
    then (431, req)
    else (0, record req { h2_content_type_buf = value; content_type = some value })
store cookie req value = store_cookie req value
store content_length req value = (0, record req { content_length = strtol_int value })
store method req value =
    if leb method_size (length value) then (431, req) else (0, record req { method = value })
store scheme req value = (0, record req { is_tls = streq value (codes "https") })
store forwarded_for req value = store_forwarded_for req value
store protocol req value =
    if streq value (codes "websocket") then (0, record req { is_upgrade = true }) else (0, req)
store other req value = (0, req)

-- The status, 0 where the field is accepted, and the request.
unfoldable pub http2_hpack_literal_header_with_name :
    Bool → List ℕ → List ℕ → RequestHeader → ℕ × RequestHeader
http2_hpack_literal_header_with_name trust_proxy name value req =
    store (field_of name trust_proxy) req value
