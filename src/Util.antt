-- ===== src/Util.antt =====
-- The helpers of src/protocol/halmos_http_utils.c. A C string is the list of its bytes before the NUL.
pub mod Url
pub mod Trim
pub mod Mime
use halmos.Base.{
  ℕ, zero, suc, ◌+◌, ◌-◌, ◌*◌, ◌/◌, Bool, true, false, ◌&&◌, ◌||◌, Option, some, none, List, [],
  ◌∷◌, ◌++◌, ltb, leb, ◌==◌, if◌then◌else◌, length, take, drop, get_or, codes,
}

abbrev in_range : ℕ → ℕ → ℕ → Bool
in_range low high c = leb low c && leb c high

-- `isxdigit`
unfoldable pub is_hex : ℕ → Bool
is_hex c = in_range 48 57 c || in_range 65 70 c || in_range 97 102 c

-- The value of a digit, as `strtol` reads it.
unfoldable pub hex_digit : ℕ → ℕ
hex_digit c = if leb c 57 then c - 48 else if leb c 70 then c - 55 else c - 87

-- `url_decode`, what it leaves in `src` up to where it stops; a `%00` leaves a NUL in it.
unfoldable pub url_decode : List ℕ → List ℕ
url_decode [] = []
url_decode (a ∷ []) = (if a == 43 then 32 else a) ∷ []
url_decode (a ∷ b ∷ []) = (if a == 43 then 32 else a) ∷ (if b == 43 then 32 else b) ∷ []
url_decode (a ∷ b ∷ c ∷ rest) =
    let next = url_decode (b ∷ c ∷ rest) in
    let behind = url_decode rest in
    if a == 43
    then 32 ∷ next
    else if (a == 37) && is_hex b && is_hex c
    then (hex_digit b * 16 + hex_digit c) ∷ behind
    else a ∷ next

-- The loop of both trimming functions: `len` goes down while the last byte is one to remove.
unfoldable pub trim_loop : (ℕ → Bool) → List ℕ → ℕ → ℕ
trim_loop blank s zero = 0
trim_loop blank s (suc n) =
    let shorter = trim_loop blank s n in if blank (get_or s n 0) then shorter else suc n

-- `isspace`; the tests for CR and LF in `trim_right` are among it.
abbrev pub is_space : ℕ → Bool
is_space c = (c == 32) || (leb 9 c && leb c 13)

unfoldable pub trim_right : List ℕ → List ℕ
trim_right s = take (trim_loop is_space s (length s)) s

abbrev pub is_blank : ℕ → Bool
is_blank c = (c == 32) || (c == 13) || (c == 10) || (c == 9)

unfoldable pub trim_whitespace : List ℕ → List ℕ
trim_whitespace s = take (trim_loop is_blank s (length s)) s

-- The sign of `strcmp`.
pub data Sign : Type 0 where
  less : Sign
  equal : Sign
  greater : Sign

unfoldable pub strcmp : List ℕ → List ℕ → Sign
strcmp [] [] = equal
strcmp [] (y ∷ ys) = less
strcmp (x ∷ xs) [] = greater
strcmp (x ∷ xs) (y ∷ ys) =
    let rest = strcmp xs ys in if x == y then rest else if ltb x y then less else greater

-- `mime_types`
abbrev pub mime_types : List (List ℕ × List ℕ)
mime_types =
    (codes ".css", codes "text/css")
    ∷ (codes ".gif", codes "image/gif")
    ∷ (codes ".html", codes "text/html")
    ∷ (codes ".ico", codes "image/x-icon")
    ∷ (codes ".js", codes "text/javascript")
    ∷ (codes ".jpg", codes "image/jpeg")
    ∷ (codes ".png", codes "image/png")
    ∷ (codes ".txt", codes "text/plain")
    ∷ []

-- `strrchr (file, '.')`, the string from the last dot on.
unfoldable pub last_dot : List ℕ → Option (List ℕ)
last_dot [] = none
last_dot (c ∷ s) = elim (last_dot s) [
  | some dot ↦ some dot
  | none ↦ if c == 46 then some (c ∷ s) else none
]

-- The binary search, in the table from `low` to `high`, where `top` is `high + 1`. The fuel bounds the
-- passes of the loop.
unfoldable pub search : ℕ → List ℕ → ℕ → ℕ → Option (List ℕ)
search zero dot low top = none
search (suc fuel) dot low top =
    let mid = (low + top - 1) / 2 in
    let (ext, type) = get_or mime_types mid ([], []) in
    let before = search fuel dot low mid in
    let behind = search fuel dot (mid + 1) top in
    if ltb low top
    then elim (strcmp dot ext) [ equal ↦ some type | less ↦ before | greater ↦ behind ]
    else none

abbrev pub or_default : Option (List ℕ) → List ℕ
or_default (some type) = type
or_default none = codes "application/octet-stream"

unfoldable pub type_from_dot : Option (List ℕ) → List ℕ
type_from_dot none = codes "text/html"
type_from_dot (some dot) = or_default (search 8 dot 0 8)

unfoldable pub get_mime_type : List ℕ → List ℕ
get_mime_type file = type_from_dot (last_dot file)
