-- ===== src/Tests/Response.antt =====
-- Runs of src/protocol/http2/halmos_http2_response.c.
use halmos.Base.{
  ℕ, ◌≡◌, refl, true, Option, some, if◌then◌else◌, List, [], ◌∷◌, map, codes, length, take, drop,
  arith, streq, min, zero, suc, sym, ap, subst, length-take,
}
use halmos.Base.Number.{strtol_int}
use halmos.Hpack.Text.{HuffTable}
use halmos.Http2.Response.{
  status_field, decimal, final_status, strcasestr, http2_response_send_data, fields_of, lines_of,
}
use halmos.Http2.Response.Block.{read_fields}
use halmos.Http2.Response.Fields.{IsHeader, printed, lowered, fields_of-printed}
use halmos.Http2.Response.Body.{payloads, IsBody, http2_response_send_data-IsBody}
use halmos.Http2.Flush.{flush_file, max_allowed, send_chunk}
use halmos.Http2.Flush.Turn.{IsPread}
use halmos.Http2.Flush.Order.{
  IsWithin, IsSending, apply_all, started, Event, turn, windows, flush_file-IsWithin,
  apply_all-IsSending,
}

abbrev no_codes : HuffTable
no_codes = λ state nibble. record { fstate = 0; flags = 0; sym = 0 }

abbrev two_headers : List (List ℕ × List ℕ)
two_headers = (codes "X-A", codes "b c") ∷ (codes "Etag", []) ∷ []

x-IsHeader : IsHeader (codes "X-A") (codes "b c")
unfolding streq
x-IsHeader = record {
  named = ((refl, refl, refl), ((refl, refl, refl), ((refl, refl, refl), tt)));
  begun = omega arith;
  short = omega arith;
  other = refl;
  inner = (refl, (refl, (refl, tt)));
  first = refl;
  last = refl;
  fits = omega arith;
}

etag-IsHeader : IsHeader (codes "Etag") []
unfolding streq
etag-IsHeader = record {
  named =
      ((refl, refl, refl), ((refl, refl, refl), ((refl, refl, refl), ((refl, refl, refl), tt))));
  begun = omega arith;
  short = omega arith;
  other = refl;
  inner = tt;
  first = refl;
  last = refl;
  fits = omega arith;
}

fields_of-printed_example :
    read_fields no_codes 2 (fields_of (lines_of [] (printed two_headers)))
    ≡ some (map lowered two_headers)
fields_of-printed_example = fields_of-printed no_codes two_headers (x-IsHeader, (etag-IsHeader, tt))

http2_response_send_data-IsBody_example :
    let (frames, state') = http2_response_send_data 5 (codes "body") true in
    (payloads frames ≡ codes "body") × IsBody true frames × (state' ≡ (if true then 4 else 5))
http2_response_send_data-IsBody_example = http2_response_send_data-IsBody 5 (codes "body") true

abbrev five_bytes : List ℕ
five_bytes = 104 ∷ 101 ∷ 108 ∷ 108 ∷ 111 ∷ []

-- A reader of two bytes at most.
abbrev slow_pread : ℕ → ℕ → Option (List ℕ)
slow_pread max at = some (take (min max 2) (drop at five_bytes))

take-length : (n : ℕ) (s : List ℕ) → take (length (take n s)) s ≡ take n s
take-length zero s = refl
take-length (suc n) [] = refl
take-length (suc n) (b ∷ s) = ap (◌∷◌ b) (take-length n s)

slow_pread-IsPread : IsPread five_bytes slow_pread
slow_pread-IsPread = record {
  few = λ max at bytes e.
      let same : take (min max 2) (drop at five_bytes) ≡ bytes = cc in
      omega (arith, ap length same, length-take (min max 2) (drop at five_bytes));
  from = λ max at bytes e.
      let same : take (min max 2) (drop at five_bytes) ≡ bytes = cc in
      sym (
        subst (λ s. take (length s) (drop at five_bytes) ≡ s) same
          (take-length (min max 2) (drop at five_bytes)));
}

flush_file-IsWithin_example :
    IsWithin (started five_bytes 3 65535 5) (flush_file slow_pread (started five_bytes 3 65535 5))
flush_file-IsWithin_example =
    flush_file-IsWithin five_bytes (started five_bytes 3 65535 5) slow_pread slow_pread-IsPread

abbrev four_events : List Event
four_events = turn slow_pread ∷ turn slow_pread ∷ windows 100 100 ∷ turn slow_pread ∷ []

apply_all-IsSending_example :
    IsSending five_bytes (apply_all (started five_bytes 3 65535 5) four_events)
apply_all-IsSending_example =
    apply_all-IsSending five_bytes 3 65535 5 four_events (omega arith)
      (slow_pread-IsPread, (slow_pread-IsPread, (tt, (slow_pread-IsPread, tt))))

sent_in_turns :
    (apply_all (started five_bytes 3 65535 5) four_events).sent
    ≡ (0, 104 ∷ 101 ∷ []) ∷ (0, 108 ∷ []) ∷ (1, 108 ∷ 111 ∷ []) ∷ []
unfolding flush_file max_allowed send_chunk
sent_in_turns = refl

redirected : final_status (codes "Location: /x") ≡ 302
unfolding final_status strcasestr strtol_int
redirected = refl

stated : final_status (codes "status: 404 Not Found") ≡ 404
unfolding final_status strcasestr strtol_int
stated = refl

status_fields :
    map status_field (200 ∷ 404 ∷ 302 ∷ [])
    ≡ (0x88 ∷ []) ∷ (0x8d ∷ []) ∷ (8 ∷ 3 ∷ 51 ∷ 48 ∷ 50 ∷ []) ∷ []
unfolding status_field decimal
status_fields = refl
