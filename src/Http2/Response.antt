-- ===== src/Http2/Response.antt =====
-- Responses of src/protocol/http2/halmos_http2_response.c: header blocks in HPACK, and bodies in DATA
-- frames. The buffer of a header block is the list of its bytes.
pub mod Block
pub mod Fields
pub mod Body
use mathlib.Core.Option
use halmos.Base.{
  ℕ, zero, suc, ◌+◌, ◌-◌, ◌*◌, ◌/◌, ◌%◌, ◌^◌, Bool, true, false, ◌&&◌, ◌||◌, not, Option, some,
  none, List, [], ◌∷◌, ◌++◌, map, ltb, leb, ◌==◌, if◌then◌else◌, length, take, drop, codes, streq,
}
use halmos.Base.Int.{pos, negsuc}
use halmos.Base.Number.{skip_space, strtol_int}
use halmos.Util.{trim_loop, is_space, get_mime_type}
use halmos.Http2.{http2_frame_send}

-- `snprintf ("%d")`; the fuel bounds the digits.
unfoldable pub decimal : ℕ → ℕ → List ℕ
decimal zero n = []
decimal (suc fuel) n =
    let more = decimal fuel (n / 10) in
    if ltb n 10 then (48 + n) ∷ [] else more ++ (48 + n % 10) ∷ []

-- `snprintf` into ten bytes gives nine digits at most, but its result counts all of them.
abbrev status_text : ℕ → List ℕ
status_text status =
    let digits = decimal 10 status in
    if ltb (length digits) 10 then digits else take 9 digits ++ 0 ∷ []

-- The status of an answer, with the index of the static table or as a text.
unfoldable pub status_field : ℕ → List ℕ
status_field status =
    let text = status_text status in
    if status == 200
    then 0x88 ∷ []
    else if status == 204
    then 0x89 ∷ []
    else if status == 304
    then 0x8b ∷ []
    else if status == 400
    then 0x8c ∷ []
    else if status == 404
    then 0x8d ∷ []
    else if status == 500
    then 0x8e ∷ []
    else 0x08 ∷ length text ∷ text

abbrev pub tolower : ℕ → ℕ
tolower c = if leb 65 c && leb c 90 then c + 32 else c

abbrev same_letters : List ℕ → List ℕ → Bool
same_letters s [] = true
same_letters [] (p ∷ ps) = false
same_letters (c ∷ s) (p ∷ ps) = (tolower c == tolower p) && same_letters s ps

-- `strcasestr`
unfoldable pub strcasestr : List ℕ → List ℕ → Option (List ℕ)
strcasestr [] needle = if length needle == 0 then some [] else none
strcasestr (c ∷ s) needle =
    let rest = strcasestr s needle in if same_letters (c ∷ s) needle then some (c ∷ s) else rest

abbrev is_some {ℓ} : {A : Type ℓ} → Option A → Bool
is_some none = false
is_some (some a) = true

-- A number that is not positive leaves 200.
abbrev positive_status : List ℕ → ℕ
positive_status text = elim (strtol_int text) [ pos n ↦ if n == 0 then 200 else n | negsuc n ↦ 200 ]

abbrev parsed_status : Option (List ℕ) → ℕ
parsed_status none = 200
parsed_status (some at_status) = positive_status (drop 7 at_status)

-- The status of a CGI answer: a redirection has 302 unless it says otherwise.
unfoldable pub final_status : List ℕ → ℕ
final_status raw_headers =
    let parsed = parsed_status (strcasestr raw_headers (codes "Status:")) in
    if is_some (strcasestr raw_headers (codes "Location:")) && ((parsed == 200) || (parsed == 304))
    then 302
    else parsed

abbrev flush_line : List ℕ → List (List ℕ) → List (List ℕ)
flush_line [] lines = lines
flush_line (c ∷ line) lines = (c ∷ line) ∷ lines

-- The tokens of `strtok_r (raw_headers, "\r\n")`, of which `line` is the one begun.
unfoldable pub lines_of : List ℕ → List ℕ → List (List ℕ)
lines_of line [] = flush_line line []
lines_of line (c ∷ s) =
    let cut = flush_line line (lines_of [] s) in
    let longer = lines_of (line ++ c ∷ []) s in if (c == 13) || (c == 10) then cut else longer

-- `strchr (line, ':')`: what is before it and behind it.
unfoldable pub at_colon : List ℕ → Option (List ℕ × List ℕ)
at_colon [] = none
at_colon (c ∷ s) =
    let rest = at_colon s in
    if c == 58 then some ([], s) else Option.map (λ parts. (c ∷ parts.0, parts.1)) rest

-- The groups of seven bits of `rem`; the fuel bounds their number.
unfoldable pub length_groups : ℕ → ℕ → List ℕ
length_groups zero rem = []
length_groups (suc fuel) rem =
    let more = length_groups fuel (rem / 128) in
    if leb 128 rem then (rem % 128 + 128) ∷ more else rem ∷ []

-- A length of 64 bits has at most ten groups.
unfoldable pub value_length : ℕ → List ℕ
value_length n = if ltb n 127 then n ∷ [] else 0x7f ∷ length_groups 10 (n - 127)

-- A key of 127 bytes or more is cut off.
unfoldable pub plain_field : List ℕ → List ℕ → List ℕ
plain_field key value =
    let name = if ltb (length key) 127 then length key ∷ key else 0x7f ∷ take 127 key in
    0 ∷ (name ++ (value_length (length value) ++ value))

-- `while (isspace (*v_end))`, then the spaces in front.
abbrev trimmed : List ℕ → List ℕ
trimmed value = skip_space (take (trim_loop is_space value (length value)) value)

-- The field of a header whose colon is found; `Status` is left out.
unfoldable pub header_field : List ℕ → List ℕ → List ℕ
header_field before behind =
    let key = map tolower (skip_space before) in
    if streq key (codes "status") then [] else plain_field key (trimmed behind)

abbrev pub colon_field : Option (List ℕ × List ℕ) → List ℕ
colon_field none = []
colon_field (some (before, behind)) = header_field before behind

-- What a line of the headers adds to the block.
unfoldable pub line_field : List ℕ → List ℕ
line_field line = colon_field (at_colon line)

unfoldable pub fields_of : List (List ℕ) → List ℕ
fields_of [] = []
fields_of (line ∷ lines) = line_field line ++ fields_of lines

-- The block of `http2_response_send_complex_header`, if its buffers get their memory.
unfoldable pub header_block : List ℕ → List ℕ
header_block raw_headers =
    status_field (final_status raw_headers) ++ fields_of (lines_of [] raw_headers)

unfoldable pub http2_response_send_complex_header : ℕ → List ℕ → ℕ → Option (List ℕ)
http2_response_send_complex_header stream_id raw_headers flags =
    http2_frame_send 1 flags stream_id (header_block raw_headers)

abbrev same_prefix : List ℕ → List ℕ → Bool
same_prefix s [] = true
same_prefix [] (p ∷ ps) = false
same_prefix (c ∷ s) (p ∷ ps) = (c == p) && same_prefix s ps

-- `strstr`, for a needle that is not empty.
abbrev strstr : List ℕ → List ℕ → Bool
strstr [] needle = false
strstr (c ∷ s) needle = same_prefix (c ∷ s) needle || strstr s needle

-- `mime_to_use`
unfoldable pub mime_to_use : Option (List ℕ) → List ℕ
mime_to_use none = codes "text/plain"
mime_to_use (some uri) = if strstr uri (codes ".php") then codes "text/html" else get_mime_type uri

-- The block of `http2_response_send_header`.
unfoldable pub header_of : ℕ → Option (List ℕ) → List ℕ
header_of status uri =
    let mime = mime_to_use uri in
    let mlen = if ltb 127 (length mime) then 127 else length mime in
    status_field status ++ (0x0f ∷ 0x10 ∷ mlen ∷ take mlen mime)

unfoldable pub http2_response_send_header : ℕ → ℕ → Option (List ℕ) → Option (List ℕ)
http2_response_send_header stream_id status uri =
    http2_frame_send 1 4 stream_id (header_of status uri)

-- One frame: a chunk, with END_STREAM when the end is asked for and nothing remains behind it; before the
-- frames and the mark `end_stream_sent` of the turns that follow.
abbrev pub add_chunk : Bool → ℕ → List ℕ → List (ℕ × List ℕ) × Bool → List (ℕ × List ℕ) × Bool
add_chunk is_end chunk remaining (rest, later) =
    let last = is_end && (length remaining == chunk) in
    ((if last then 1 else 0, take chunk remaining) ∷ rest, last || later)

-- The loop of `http2_response_send_data`: the flags and the payload of each frame, and whether one of them has
-- END_STREAM. A turn takes a byte at least, which the fuel counts.
unfoldable pub data_frames : ℕ → List ℕ → Bool → List (ℕ × List ℕ) × Bool
data_frames zero remaining is_end = ([], false)
data_frames (suc fuel) remaining is_end =
    let chunk = if ltb 16384 (length remaining) then 16384 else length remaining in
    let rest = data_frames fuel (drop chunk remaining) is_end in
    if length remaining == 0 then ([], false) else add_chunk is_end chunk remaining rest

abbrev pub with_fallback : Bool → List (ℕ × List ℕ) × Bool → List (ℕ × List ℕ)
with_fallback is_end (frames, end_stream_sent) =
    if is_end && not end_stream_sent then frames ++ (1, []) ∷ [] else frames

-- With the state of the stream, which its end sets to 4.
unfoldable pub http2_response_send_data : ℕ → List ℕ → Bool → List (ℕ × List ℕ) × ℕ
http2_response_send_data state bytes is_end = (
  if length bytes == 0
      then (if is_end then (1, []) ∷ [] else [])
      else with_fallback is_end (data_frames (length bytes) bytes is_end),
  if is_end then 4 else state,
)
