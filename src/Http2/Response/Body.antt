-- ===== src/Http2/Response/Body.antt =====
-- The bodies that src/protocol/http2/halmos_http2_response.c sends in DATA frames.
use mathlib.Core.List.{append-nil}
use halmos.Base.{
  ℕ, zero, suc, ◌≤◌, ◌<◌, ◌≡◌, refl, sym, ◌∙◌, ap, inl, inr, ◌⊎◌, Bool, true, false, ◌&&◌, ◌||◌,
  List, [], ◌∷◌, ◌++◌, ltb, ltb→lt, subst, ◌==◌, if◌then◌else◌, length, length-take, length-drop,
  take, drop, take_all, take-append-drop, Bool-cases, arith,
}
use halmos.Http2.Response.{add_chunk, data_frames, with_fallback, http2_response_send_data}

or-false : (b : Bool) → (b || false) ≡ b
or-false true = refl
or-false false = refl

drop_all : (bytes : List ℕ) → drop (length bytes) bytes ≡ []
drop_all [] = refl
drop_all (b ∷ bytes) = drop_all bytes

-- The bytes that the frames carry.
abbrev pub payloads : List (ℕ × List ℕ) → List ℕ
payloads [] = []
payloads ((flags, payload) ∷ frames) = payload ++ payloads frames

-- Full frames with no flag, and a last frame, which alone ends the stream, when its end is asked for.
abbrev pub IsBody : Bool → List (ℕ × List ℕ) → Type 0
IsBody is_end [] = is_end ≡ false
IsBody is_end ((flags, payload) ∷ []) =
    (flags ≡ (if is_end then 1 else 0)) × (length payload ≤ 16384)
IsBody is_end ((flags, payload) ∷ frame ∷ frames) =
    (flags ≡ 0) × (length payload ≡ 16384) × IsBody is_end (frame ∷ frames)

-- The frames of a body that has bytes, and the mark of its end.
record Sends (is_end : Bool) (bytes : List ℕ) (sent : List (ℕ × List ℕ) × Bool) : Type 0 where
  carried : payloads sent.0 ≡ bytes
  body : IsBody is_end sent.0
  some_frame : 0 < length sent.0
  marked : sent.1 ≡ is_end

data_frames_none : (fuel : ℕ) (is_end : Bool) → data_frames fuel [] is_end ≡ ([], false)
unfolding data_frames
data_frames_none zero is_end = refl
data_frames_none (suc fuel) is_end = refl

last_frame :
    (is_end last : Bool) (bytes payload : List ℕ)
    → length bytes ≤ 16384
    → payload ≡ bytes
    → last ≡ is_end
    → Sends is_end bytes (((if last then 1 else 0, payload) ∷ [], last || false))
last_frame is_end last bytes payload small p l = record {
  carried = append-nil payload ∙ p;
  body = (ap (λ b. if b then 1 else 0) l, omega (arith, ap length p));
  some_frame = omega arith;
  marked = or-false last ∙ l;
}

marked_last : (is_end : Bool) (n : ℕ) → (is_end && (n == n)) ≡ is_end
marked_last true n = ground arith
marked_last false n = refl

last_chunk :
    (is_end : Bool) (bytes : List ℕ)
    → length bytes ≤ 16384
    → Sends is_end bytes (add_chunk is_end (length bytes) bytes ([], false))
last_chunk is_end bytes small =
    last_frame is_end _ bytes _ small (take_all (length bytes) bytes (omega arith))
      (marked_last is_end (length bytes))

inner_frame :
    (is_end : Bool) (bytes payload rest : List ℕ) (frames : List (ℕ × List ℕ)) (last sent : Bool)
    → length payload ≡ 16384
    → payload ++ rest ≡ bytes
    → last ≡ false
    → Sends is_end rest (frames, sent)
    → Sends is_end bytes ((if last then 1 else 0, payload) ∷ frames, last || sent)
inner_frame is_end bytes payload rest [] last sent n p l h = absurd (omega (arith, h.some_frame))
inner_frame is_end bytes payload rest (frame ∷ frames) last sent n p l h = record {
  carried = ap (payload ++◌) h.carried ∙ p;
  body = (ap (λ b. if b then 1 else 0) l, n, h.body);
  some_frame = omega arith;
  marked = ap (◌|| sent) l ∙ h.marked;
}

not_last : (is_end : Bool) (m n : ℕ) → n < m → (is_end && (m == n)) ≡ false
not_last true m n h = ground arith
not_last false m n h = refl

inner_chunk :
    (is_end : Bool) (chunk : ℕ) (bytes : List ℕ) (sent : List (ℕ × List ℕ) × Bool)
    → chunk ≡ 16384
    → chunk < length bytes
    → Sends is_end (drop chunk bytes) sent
    → Sends is_end bytes (add_chunk is_end chunk bytes sent)
inner_chunk is_end chunk bytes (frames, sent) e large h =
    inner_frame is_end bytes (take chunk bytes) (drop chunk bytes) frames _ sent
      (omega (arith, length-take chunk bytes)) (take-append-drop chunk bytes)
      (not_last is_end (length bytes) chunk large) h

abbrev chunk_of : List ℕ → ℕ
chunk_of bytes = if ltb 16384 (length bytes) then 16384 else length bytes

data_frames_turn :
    (fuel chunk : ℕ) (bytes : List ℕ) (is_end : Bool)
    → 0 < length bytes
    → chunk_of bytes ≡ chunk
    → data_frames (suc fuel) bytes is_end
      ≡ add_chunk is_end chunk bytes (data_frames fuel (drop chunk bytes) is_end)
unfolding data_frames
data_frames_turn fuel chunk bytes is_end h e =
    let full : (length bytes == 0) ≡ false = ground arith in rw (full, e) refl

chunk-cases :
    (bytes : List ℕ)
    → ((chunk_of bytes ≡ 16384) × (16384 < length bytes))
      ⊎ ((chunk_of bytes ≡ length bytes) × (length bytes ≤ 16384))
chunk-cases bytes = elim (Bool-cases (ltb 16384 (length bytes))) [
  | inl e ↦ inl (ap (λ b. if b then 16384 else length bytes) e, ltb→lt 16384 (length bytes) e)
  | inr e ↦ inr (ap (λ b. if b then 16384 else length bytes) e, ground arith)
]

data_frames-Sends :
    (fuel : ℕ) (bytes : List ℕ) (is_end : Bool)
    → length bytes ≤ fuel
    → 0 < length bytes
    → Sends is_end bytes (data_frames fuel bytes is_end)
data_frames-Sends zero bytes is_end enough h = absurd (omega arith)
data_frames-Sends (suc fuel) bytes is_end enough h = elim (chunk-cases bytes) [
  | inl (e, large) ↦
      let chunk = chunk_of bytes in
      let left = length-drop chunk bytes in
      subst (Sends is_end bytes) (sym (data_frames_turn fuel chunk bytes is_end h refl)) (
        inner_chunk is_end chunk bytes _ e (omega arith)
          (data_frames-Sends fuel (drop chunk bytes) is_end (omega arith) (omega arith)))
  | inr (e, small) ↦
      let n = length bytes in
      let nothing : drop n bytes ≡ [] = drop_all bytes in
      let e =
        data_frames_turn fuel n bytes is_end h e
        ∙ ap (λ s. add_chunk is_end n bytes (data_frames fuel s is_end)) nothing
        ∙ ap (add_chunk is_end n bytes) (data_frames_none fuel is_end) in
      subst (Sends is_end bytes) (sym e) (last_chunk is_end bytes small)
]

fallback_unused :
    (is_end : Bool) (sent : List (ℕ × List ℕ) × Bool)
    → sent.1 ≡ is_end
    → with_fallback is_end sent ≡ sent.0
fallback_unused true (frames, end_stream_sent) e = rw e refl
fallback_unused false (frames, end_stream_sent) e = refl

with_fallback-IsBody :
    (bytes : List ℕ) (is_end : Bool)
    → 0 < length bytes
    → (payloads (with_fallback is_end (data_frames (length bytes) bytes is_end)) ≡ bytes)
      × IsBody is_end (with_fallback is_end (data_frames (length bytes) bytes is_end))
with_fallback-IsBody bytes is_end h =
    let s = data_frames-Sends (length bytes) bytes is_end (omega arith) h in
    let e = sym (fallback_unused is_end (data_frames (length bytes) bytes is_end) s.marked) in
    subst (λ frames. (payloads frames ≡ bytes) × IsBody is_end frames) e (s.carried, s.body)

-- What is sent carries the bytes in their order, in full frames and a last one, and the end of the stream is
-- with the last frame if it is asked for, and nowhere else; the state becomes 4 with it.
pub http2_response_send_data-IsBody :
    (state : ℕ) (bytes : List ℕ) (is_end : Bool)
    → let (frames, state') = http2_response_send_data state bytes is_end in
      (payloads frames ≡ bytes) × IsBody is_end frames × (state' ≡ (if is_end then 4 else state))
unfolding http2_response_send_data
http2_response_send_data-IsBody state [] true = (refl, (refl, omega arith), refl)
http2_response_send_data-IsBody state [] false = (refl, refl, refl)
http2_response_send_data-IsBody state (b ∷ bytes) is_end =
    let (carried, body) = with_fallback-IsBody (b ∷ bytes) is_end (omega arith) in
    let full : (suc (length bytes) == 0) ≡ false = ground arith in rw full (carried, body, refl)
