-- ===== src/Http2/Flush/Order.antt =====
-- The frames and the windows of a static file of src/protocol/http2/halmos_http2_response.c over its turns.
use mathlib.Core.List.{append_assoc, append-nil}
use halmos.Base.{
  ℕ, zero, suc, ◌+◌, ◌-◌, ◌≤◌, ◌<◌, ◌%◌, ◌^◌, ◌≡◌, inl, inr, refl, sym, ap, ◌∙◌, Bool, true, false,
  Option, List, [], ◌∷◌, ◌++◌, leb, if◌then◌else◌, length, take, drop, Bool-cases, All, arith,
}
use halmos.Http2.Response.Body.{payloads}
use halmos.Http2.Flush.{FileStream, is_shut, max_allowed, close_file, send_chunk, flush_file}
use halmos.Http2.Flush.Turn.{IsPread, Turn, idle, closed, sends, flush_file-Turn}

max_allowed_lem :
    (s : FileStream)
    → (max_allowed s ≤ s.conn_win)
      × (max_allowed s ≤ s.stream_win)
      × (max_allowed s ≤ 16384)
      × (max_allowed s ≤ s.file_size - s.file_offset)
unfolding max_allowed
max_allowed_lem s = ground arith

-- What a window was before, when it is less by `n`.
taken : (win n : ℕ) → n ≤ win → is_shut win ≡ false → (win + (2 ^ 32 - n)) % 2 ^ 32 + n ≡ win
taken win n h e = ground arith

-- The frames `frames` are sent after those before, with `n` bytes in all; the offset moves by them, and each
-- window has fallen by them.
pub record IsWithin (s s' : FileStream) : Type 0 where
  pub n : ℕ
  pub frames : List (ℕ × List ℕ)
  pub appended : s'.sent ≡ s.sent ++ frames
  pub bytes : length (payloads frames) ≡ n
  pub few : length frames ≤ 1
  pub frame : n ≤ 16384
  pub moved : s'.file_offset ≡ s.file_offset + n
  pub conn : s'.conn_win + n ≡ s.conn_win
  pub stream : s'.stream_win + n ≡ s.stream_win

IsWithin-close_file : (s s' : FileStream) → IsWithin s s' → IsWithin s (close_file s')
IsWithin-close_file s s' w = record {
  n = w.n;
  frames = w.frames;
  appended = w.appended;
  bytes = w.bytes;
  few = w.few;
  frame = w.frame;
  moved = w.moved;
  conn = w.conn;
  stream = w.stream;
}

IsWithin-same :
    (s s' : FileStream) (b : Bool) → IsWithin s s' → IsWithin s (if b then close_file s' else s')
IsWithin-same s s' true w = IsWithin-close_file s s' w
IsWithin-same s s' false w = w

idle-IsWithin : (s : FileStream) → IsWithin s s
idle-IsWithin s = record {
  n = 0;
  frames = [];
  appended = sym (append-nil s.sent);
  bytes = refl;
  few = omega arith;
  frame = omega arith;
  moved = omega arith;
  conn = omega arith;
  stream = omega arith;
}

Turn-IsWithin : {file : List ℕ} {s s' : FileStream} → Turn file s s' → IsWithin s s'
unfolding send_chunk
Turn-IsWithin {s = s} idle = idle-IsWithin s
Turn-IsWithin {s = s} closed = IsWithin-close_file s s (idle-IsWithin s)
Turn-IsWithin {s = s} (sends bytes h few from c w) =
    let (conn, stream, frame, rest) = max_allowed_lem s in
    IsWithin-same s _ (leb s.file_size (s.file_offset + length bytes)) (record {
      n = length bytes;
      frames = (if leb s.file_size (s.file_offset + length bytes) then 1 else 0, bytes) ∷ [];
      appended = refl;
      bytes = ap length (append-nil bytes);
      few = omega arith;
      frame = omega (arith, few, frame);
      moved = refl;
      conn = taken s.conn_win (length bytes) (omega (arith, few, conn)) c;
      stream = taken s.stream_win (length bytes) (omega (arith, few, stream)) w;
    })

-- A turn sends one DATA frame at most, behind those sent before, with 16384 bytes at most, and takes from the
-- window of the connection and from that of the stream exactly the bytes of the payload, which is also what
-- the file moves on by, without passing below zero; this holds for every file and every answer of
-- `pread` that POSIX allows.
pub flush_file-IsWithin :
    (file : List ℕ) (s : FileStream) (pread : ℕ → ℕ → Option (List ℕ))
    → IsPread file pread
    → IsWithin s (flush_file pread s)
flush_file-IsWithin file s pread h = Turn-IsWithin (flush_file-Turn file s pread h)

abbrev Plain : ℕ × List ℕ → Type 0
Plain (flags, payload) = (flags ≡ 0) × (length payload ≤ 16384)

-- No frame with END_STREAM while bytes are left, and then one, the last, with the file closed.
pub data Ending (file : List ℕ) (s : FileStream) : Type 0 where
  open_end : All Plain s.sent → s.file_offset < length file → Ending file s
  sent_end :
      (before : List (ℕ × List ℕ)) (payload : List ℕ)
      → s.sent ≡ before ++ (1, payload) ∷ []
      → All Plain before
      → length payload ≤ 16384
      → s.file_offset ≡ length file
      → s.is_open ≡ false
      → Ending file s

pub record IsSending (file : List ℕ) (s : FileStream) : Type 0 where
  pub carried : payloads s.sent ≡ take s.file_offset file
  pub size : s.file_size ≡ length file
  pub inside : s.file_offset ≤ length file
  pub ending : Ending file s

payloads-append : (a b : List (ℕ × List ℕ)) → payloads (a ++ b) ≡ payloads a ++ payloads b
payloads-append [] b = refl
payloads-append ((flags, p) ∷ a) b =
    ap (p ++◌) (payloads-append a b) ∙ sym (append_assoc p (payloads a) (payloads b))

take-none : (n : ℕ) → take {A = ℕ} n [] ≡ []
take-none zero = refl
take-none (suc n) = refl

take-drop : (m n : ℕ) (file : List ℕ) → take m file ++ take n (drop m file) ≡ take (m + n) file
take-drop zero n file = ap (λ k. take k file) (omega arith)
take-drop (suc m) n [] = ap (◌++◌ []) (take-none n) ∙ sym (take-none (suc m + n))
take-drop (suc m) n (b ∷ file) =
    let e : suc (m + n) ≡ suc m + n = omega arith in
    ap (◌∷◌ b) (take-drop m n file) ∙ ap (λ k. take k (b ∷ file)) e

All-Plain-append :
    (a : List (ℕ × List ℕ)) (f : ℕ × List ℕ) → All Plain a → Plain f → All Plain (a ++ f ∷ [])
All-Plain-append [] f all h = (h, tt)
All-Plain-append (x ∷ a) f (e, all) h = (e, All-Plain-append a f all h)

close_file-Ending : {file : List ℕ} {s : FileStream} → Ending file s → Ending file (close_file s)
close_file-Ending (open_end plain more) = open_end plain more
close_file-Ending (sent_end before payload e plain small all shut) =
    sent_end before payload e plain small all refl

still_open :
    (file : List ℕ) (s : FileStream)
    → s.file_offset < length file
    → Ending file s
    → All Plain s.sent
still_open file s more (open_end plain less) = plain
still_open file s more (sent_end before payload e plain small all shut) =
    absurd (omega (arith, all))

-- The frame that reaches the end of the file, or one before it.
send_chunk-Ending :
    (file bytes : List ℕ) (s : FileStream)
    → s.file_size ≡ length file
    → All Plain s.sent
    → length bytes ≤ 16384
    → s.file_offset + length bytes ≤ length file
    → Ending file (send_chunk s bytes)
unfolding send_chunk
send_chunk-Ending file bytes s size plain small inside =
    elim (Bool-cases (leb s.file_size (s.file_offset + length bytes))) [
      | inl e ↦ rw e (sent_end s.sent bytes refl plain small (ground arith) refl)
      | inr e ↦
          rw e (open_end (All-Plain-append s.sent (0, bytes) plain (refl, small)) (ground arith))
    ]

send_chunk_lem :
    (s : FileStream) (bytes : List ℕ)
    → ((send_chunk s bytes).file_offset ≡ s.file_offset + length bytes)
      × ((send_chunk s bytes).file_size ≡ s.file_size)
      × ((flags : ℕ) × ((send_chunk s bytes).sent ≡ s.sent ++ (flags, bytes) ∷ []))
unfolding send_chunk
send_chunk_lem s bytes = elim (Bool-cases (leb s.file_size (s.file_offset + length bytes))) [
  | inl e ↦ rw e (refl, refl, (1, refl))
  | inr e ↦ rw e (refl, refl, (0, refl))
]

sent_chunk :
    (file : List ℕ) (s : FileStream) (bytes : List ℕ)
    → 0 < length bytes
    → length bytes ≤ max_allowed s
    → bytes ≡ take (length bytes) (drop s.file_offset file)
    → IsSending file s
    → IsSending file (send_chunk s bytes)
sent_chunk file s bytes some_byte few from h =
    let n = length bytes in
    let (conn, stream, frame, rest) = max_allowed_lem s in
    let more : s.file_offset < length file = omega (arith, some_byte, few, rest, h.size) in
    let inside : s.file_offset + n ≤ length file = omega (arith, few, rest, h.size, more) in
    let plain = still_open file s more h.ending in
    let (offset, size, (flags, sent)) = send_chunk_lem s bytes in
    record {
      carried =
          ap payloads sent
          ∙ payloads-append s.sent ((flags, bytes) ∷ [])
          ∙ ap (payloads s.sent ++◌) (append-nil bytes ∙ from)
          ∙ ap (◌++ take n (drop s.file_offset file)) h.carried
          ∙ take-drop s.file_offset n file
          ∙ ap (λ k. take k file) (sym offset);
      size = size ∙ h.size;
      inside = omega (arith, inside, offset);
      ending = send_chunk-Ending file bytes s h.size plain (omega (arith, few, frame)) inside;
    }

Turn-IsSending :
    (file : List ℕ) {s s' : FileStream} → Turn file s s' → IsSending file s → IsSending file s'
Turn-IsSending file idle h = h
Turn-IsSending file closed h = record {
  carried = h.carried;
  size = h.size;
  inside = h.inside;
  ending = close_file-Ending h.ending;
}
Turn-IsSending file {s = s} (sends bytes some_byte few from c w) h =
    sent_chunk file s bytes some_byte few from h

-- What happens to a stream: a turn, or a change of the two windows.
pub data Event : Type 0 where
  turn : (ℕ → ℕ → Option (List ℕ)) → Event
  windows : ℕ → ℕ → Event

abbrev pub apply : FileStream → Event → FileStream
apply s (turn pread) = flush_file pread s
apply s (windows conn stream) = record s { conn_win = conn; stream_win = stream }

abbrev pub apply_all : FileStream → List Event → FileStream
apply_all s [] = s
apply_all s (e ∷ es) = apply_all (apply s e) es

abbrev pub IsEvent : List ℕ → Event → Type 0
IsEvent file (turn pread) = IsPread file pread
IsEvent file (windows conn stream) = Unit

windows-Ending :
    {file : List ℕ} {s : FileStream} {conn stream : ℕ}
    → Ending file s
    → Ending file (record s { conn_win = conn; stream_win = stream })
windows-Ending (open_end plain more) = open_end plain more
windows-Ending (sent_end before payload e plain small all shut) =
    sent_end before payload e plain small all shut

apply-IsSending :
    (file : List ℕ) (s : FileStream) (e : Event)
    → IsEvent file e
    → IsSending file s
    → IsSending file (apply s e)
apply-IsSending file s (turn pread) h i = Turn-IsSending file (flush_file-Turn file s pread h) i
apply-IsSending file s (windows conn stream) h i = record {
  carried = i.carried;
  size = i.size;
  inside = i.inside;
  ending = windows-Ending i.ending;
}

-- The state that the router leaves for a file that is not empty.
abbrev pub started : List ℕ → ℕ → ℕ → ℕ → FileStream
started file conn stream state = record {
  is_sending_file = true;
  is_open = true;
  file_offset = 0;
  file_size = length file;
  stream_win = stream;
  conn_win = conn;
  state = state;
  sent = [];
}

started-IsSending :
    (file : List ℕ) (conn stream state : ℕ)
    → 0 < length file
    → IsSending file (started file conn stream state)
started-IsSending file conn stream state h = record {
  carried = refl;
  size = refl;
  inside = omega arith;
  ending = open_end tt h;
}

apply_all-IsSending_from :
    (file : List ℕ) (s : FileStream) (es : List Event)
    → All (IsEvent file) es
    → IsSending file s
    → IsSending file (apply_all s es)
apply_all-IsSending_from file s [] all h = h
apply_all-IsSending_from file s (e ∷ es) (first, all) h =
    apply_all-IsSending_from file (apply s e) es all (apply-IsSending file s e first h)

-- After any turns and changes of the windows the frames carry the part of the file up to the offset, each with
-- 16384 bytes at most; none of them ends the stream while the offset is within the file, and when it is at
-- the end, the last frame and no other ends the stream and the file is closed. The file is not empty, and
-- each `pread` is as POSIX has it.
pub apply_all-IsSending :
    (file : List ℕ) (conn stream state : ℕ) (es : List Event)
    → 0 < length file
    → All (IsEvent file) es
    → IsSending file (apply_all (started file conn stream state) es)
apply_all-IsSending file conn stream state es h all =
    apply_all-IsSending_from file (started file conn stream state) es all
      (started-IsSending file conn stream state h)
