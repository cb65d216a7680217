-- ===== src/Http2/Response/Fields.antt =====
-- The headers of a CGI answer, which src/protocol/http2/halmos_http2_response.c turns into HPACK fields, and the
-- decoder of src/protocol/http2/halmos_http2_hpack.c reads.
use mathlib.Core.Option
use mathlib.Core.List.{append_assoc, append-nil}
use halmos.Base.{
  ℕ, suc, ◌-◌, ◌≤◌, ◌<◌, ◌≡◌, refl, sym, ◌∙◌, ap, false, ◌||◌, some, List, [], ◌∷◌, ◌++◌, map, ◌==◌,
  All, length, length-append, length-map, take, take_all, get_or, codes, streq, arith,
}
use halmos.Base.Number.{skip_space}
use halmos.Util.{trim_loop, is_space}
use halmos.Hpack.Text.{HuffTable}
use halmos.Http2.Response.{
  lines_of, at_colon, tolower, plain_field, trimmed, line_field, header_field, colon_field,
  fields_of,
}
use halmos.Http2.Response.Block.{read_field, read_fields, read_field-plain_field}

-- A byte that ends no line.
abbrev pub IsInner : ℕ → Type 0
IsInner c = ((c == 13) || (c == 10)) ≡ false

-- A byte of a name.
abbrev pub IsName : ℕ → Type 0
IsName c = IsInner c × (is_space c ≡ false) × ((c == 58) ≡ false)

-- A header that stands on a line of its own: its value has no blank at an end.
pub record IsHeader (key value : List ℕ) : Type 0 where
  pub named : All IsName key
  pub begun : 0 < length key
  pub short : length key < 127
  pub other : streq (map tolower key) (codes "status") ≡ false
  pub inner : All IsInner value
  pub first : is_space (get_or value 0 0) ≡ false
  pub last : is_space (get_or value (length value - 1) 0) ≡ false
  pub fits : length value ≤ 10240

-- What a CGI program prints.
unfoldable pub printed : List (List ℕ × List ℕ) → List ℕ
printed [] = 13 ∷ 10 ∷ []
printed ((key, value) ∷ headers) = (key ++ (58 ∷ 32 ∷ value)) ++ (13 ∷ 10 ∷ printed headers)

abbrev pub IsHeaderOf : List ℕ × List ℕ → Type 0
IsHeaderOf (key, value) = IsHeader key value

lines_of_inner :
    (line l s : List ℕ) → All IsInner l → lines_of line (l ++ s) ≡ lines_of (line ++ l) s
unfolding lines_of
lines_of_inner line [] s inner = ap (λ t. lines_of t s) (sym (append-nil line))
lines_of_inner line (c ∷ l) s (e, inner) = rw e (
    lines_of_inner (line ++ c ∷ []) l s inner
    ∙ ap (λ t. lines_of t s) (append_assoc line (c ∷ []) l))

at_colon_name :
    (key behind : List ℕ) → All IsName key → at_colon (key ++ 58 ∷ behind) ≡ some (key, behind)
unfolding at_colon
at_colon_name [] behind named = refl
at_colon_name (c ∷ key) behind ((inner, space, e), named) =
    rw (e, at_colon_name key behind named) refl

skip_space_lem : (c : ℕ) (s : List ℕ) → is_space c ≡ false → skip_space (c ∷ s) ≡ c ∷ s
unfolding skip_space
skip_space_lem c s e = rw e refl

trim_loop_ends :
    (s : List ℕ) (n : ℕ) → is_space (get_or s n 0) ≡ false → trim_loop is_space s (suc n) ≡ suc n
unfolding trim_loop
trim_loop_ends s n e = rw e refl

trimmed_lem :
    (value : List ℕ)
    → is_space (get_or value 0 0) ≡ false
    → is_space (get_or value (length value - 1) 0) ≡ false
    → trimmed (32 ∷ value) ≡ value
unfolding trim_loop skip_space
trimmed_lem [] first last = refl
trimmed_lem (v ∷ value) first last =
    let at_end : suc (length value) - 1 ≡ length value = omega arith in
    let blank = sym (ap (λ i. is_space (get_or (v ∷ value) i 0)) at_end) ∙ last in
    let whole = trim_loop_ends (32 ∷ v ∷ value) (suc (length value)) blank in
    ap (λ n. skip_space (take n (32 ∷ v ∷ value))) whole
    ∙ ap (λ s. skip_space (32 ∷ v ∷ s)) (take_all (length value) value (omega arith))
    ∙ skip_space_lem v value first

abbrev pub line_of : List ℕ × List ℕ → List ℕ
line_of (key, value) = key ++ (58 ∷ 32 ∷ value)

skip_space-name : (key : List ℕ) → All IsName key → skip_space key ≡ key
unfolding skip_space
skip_space-name [] named = refl
skip_space-name (c ∷ key) ((inner, e, colon), named) = skip_space_lem c key e

line_field_lem :
    (key value : List ℕ)
    → IsHeader key value
    → line_field (line_of (key, value)) ≡ plain_field (map tolower key) value
unfolding line_field header_field
line_field_lem key value h =
    ap colon_field (at_colon_name key (32 ∷ value) h.named)
    ∙ rw (skip_space-name key h.named, h.other, trimmed_lem value h.first h.last) refl

All-append : (key s : List ℕ) → All IsName key → All IsInner s → All IsInner (key ++ s)
All-append [] s named inner = inner
All-append (c ∷ key) s ((e, space, colon), named) inner = (e, All-append key s named inner)

lines_of_end : (l rest : List ℕ) → 0 < length l → lines_of l (13 ∷ 10 ∷ rest) ≡ l ∷ lines_of [] rest
unfolding lines_of
lines_of_end [] rest h = absurd (omega arith)
lines_of_end (c ∷ l) rest h = refl

lines_of-printed :
    (headers : List (List ℕ × List ℕ))
    → All IsHeaderOf headers
    → lines_of [] (printed headers) ≡ map line_of headers
unfolding printed lines_of
lines_of-printed [] all = refl
lines_of-printed ((key, value) ∷ headers) (h, all) =
    let l = line_of (key, value) in
    let end = 13 ∷ 10 ∷ printed headers in
    let inner : All IsInner l = All-append key (58 ∷ 32 ∷ value) h.named (refl, (refl, h.inner)) in
    lines_of_inner [] l end inner
    ∙ lines_of_end l (printed headers) (omega (arith, length-append key (58 ∷ 32 ∷ value)))
    ∙ ap (◌∷◌ l) (lines_of-printed headers all)

read_fields_step :
    (huff : HuffTable) (fuel : ℕ) (bs rest : List ℕ) (field : List ℕ × List ℕ)
    → read_field huff bs ≡ some (field, rest)
    → read_fields huff (suc fuel) bs ≡ Option.map (◌∷◌ field) (read_fields huff fuel rest)
unfolding read_fields read_field
read_fields_step huff fuel [] rest field e = cc
read_fields_step huff fuel (b ∷ bs) rest field e = rw (e, read_fields) refl

abbrev pub lowered : List ℕ × List ℕ → List ℕ × List ℕ
lowered (key, value) = (map tolower key, value)

read_fields-lines :
    (huff : HuffTable) (headers : List (List ℕ × List ℕ))
    → All IsHeaderOf headers
    → read_fields huff (length headers) (fields_of (map line_of headers))
      ≡ some (map lowered headers)
unfolding read_fields fields_of
read_fields-lines huff [] all = refl
read_fields-lines huff ((key, value) ∷ headers) (h, all) =
    let rest = fields_of (map line_of headers) in
    let short : length (map tolower key) < 127 = omega (arith, length-map key tolower, h.short) in
    ap (λ bs. read_fields huff (suc (length headers)) (bs ++ rest)) (line_field_lem key value h)
    ∙ read_fields_step huff (length headers) _ rest (map tolower key, value)
        (read_field-plain_field huff (map tolower key) value rest short h.fits)
    ∙ ap (Option.map (◌∷◌ (map tolower key, value))) (read_fields-lines huff headers all)

-- Headers that stand on lines of their own, with names of 1 to 126 bytes that are not `Status` and values of at
-- most 10240 bytes with no blank at an end, become fields that the string decoder reads back as the same
-- names in lower case and the same values, in their order, whatever its Huffman table.
pub fields_of-printed :
    (huff : HuffTable) (headers : List (List ℕ × List ℕ))
    → All IsHeaderOf headers
    → read_fields huff (length headers) (fields_of (lines_of [] (printed headers)))
      ≡ some (map lowered headers)
fields_of-printed huff headers all =
    ap (λ lines. read_fields huff (length headers) (fields_of lines)) (lines_of-printed headers all)
    ∙ read_fields-lines huff headers all
