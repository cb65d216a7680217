-- ===== src/Http2/Streams/Lookup.antt =====
-- The chained table of src/protocol/http2/halmos_http2_stream.c as a map from identifiers.
use halmos.Base.{
  ℕ, ◌+◌, ◌%◌, ◌^◌, ◌<◌, ◌≡◌, ◌≢◌, refl, sym, ◌∙◌, ◌⊎◌, inl, inr, true, none, some, ◌==◌,
  if◌then◌else◌, Option-cases, arith,
}
use halmos.Http2.Streams.{
  Stream, Session, http2_stream_get_bucket_fibonacci, find_in_chain, http2_stream_find_unlocked,
  new_stream, insert_stream, http2_stream_get_or_create, http2_stream_buckets,
}

-- Every identifier falls into one of the 32 buckets.
pub bucket-lt : (id : ℕ) → http2_stream_get_bucket_fibonacci id < http2_stream_buckets
unfolding http2_stream_get_bucket_fibonacci
bucket-lt id = omega arith

pub find-insert :
    (s : Session) (id j : ℕ)
    → id ≢ 0
    → http2_stream_find_unlocked (insert_stream s id) j
      ≡ (if id == j then some (new_stream s id) else http2_stream_find_unlocked s j)
unfolding http2_stream_find_unlocked insert_stream find_in_chain
find-insert s id j h = ground arith

find_chain :
    (s : Session) (id : ℕ)
    → id ≢ 0
    → http2_stream_find_unlocked s id
      ≡ find_in_chain id (s.streams_hash (http2_stream_get_bucket_fibonacci id))
unfolding http2_stream_find_unlocked
find_chain s id h = ground arith

-- The two ways in which the call succeeds.
get_or_create_found :
    (s : Session) (id : ℕ) (st : Stream)
    → find_in_chain id (s.streams_hash (http2_stream_get_bucket_fibonacci id)) ≡ some st
    → http2_stream_get_or_create s id true ≡ (s, some st)
unfolding http2_stream_get_or_create
get_or_create_found s id st e = rw (e, http2_stream_get_or_create)

get_or_create_made :
    (s : Session) (id : ℕ)
    → find_in_chain id (s.streams_hash (http2_stream_get_bucket_fibonacci id)) ≡ none
    → http2_stream_get_or_create s id true ≡ (insert_stream s id, some (new_stream s id))
unfolding http2_stream_get_or_create
get_or_create_made s id e = rw (e, http2_stream_get_or_create)

-- For an identifier other than 0, on success: the stream that is returned is the one found under the
-- identifier from then on, it is the old one if there was one and else a new one, every other stream
-- is found as before, and the count goes up by one exactly if a stream was made.
pub find-get_or_create :
    (s : Session) (id : ℕ)
    → id ≢ 0
    → let (s', st) = http2_stream_get_or_create s id true in
      (http2_stream_find_unlocked s' id ≡ st)
      × ((j : ℕ) → j ≢ id → http2_stream_find_unlocked s' j ≡ http2_stream_find_unlocked s j)
      × (((st ≡ http2_stream_find_unlocked s id) × (s' ≡ s))
          ⊎ ((http2_stream_find_unlocked s id ≡ none)
              × (st ≡ some (new_stream s id))
              × (s'.active_stream_count ≡ (s.active_stream_count + 1) % 2 ^ 32)))
find-get_or_create s id h =
    elim (Option-cases (find_in_chain id (s.streams_hash (http2_stream_get_bucket_fibonacci id)))) [
      | inl e ↦ rw (get_or_create_made s id e) (
        ground (arith, find-insert s id id h),
        λ j ne. ground (arith, find-insert s id j h),
        inr (find_chain s id h ∙ e, refl, unfold insert_stream in refl),
      )
      | inr (st, e) ↦
          rw (get_or_create_found s id st e)
            (find_chain s id h ∙ e, λ j ne. refl, inl (sym (find_chain s id h ∙ e), refl))
    ]
