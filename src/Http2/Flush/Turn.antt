-- ===== src/Http2/Flush/Turn.antt =====
-- One turn of the static files of src/protocol/http2/halmos_http2_response.c.
use halmos.Base.{
  ℕ, ◌≤◌, ◌<◌, ◌≡◌, refl, Bool, true, false, ◌||◌, not, ◌&&◌, Option, some, none, List, [], ◌∷◌,
  leb, ◌==◌, if◌then◌else◌, length, take, drop, arith,
}
use halmos.Http2.Flush.{
  FileStream, http2_state_closed, is_shut, max_allowed, close_file, send_chunk, after_read,
  flush_file,
}

-- `pread` as POSIX has it: at most the bytes asked for, from that place of the file.
pub record IsPread (file : List ℕ) (pread : ℕ → ℕ → Option (List ℕ)) : Type 0 where
  pub few : (max at : ℕ) (bytes : List ℕ) → pread max at ≡ some bytes → length bytes ≤ max
  pub from :
      (max at : ℕ) (bytes : List ℕ)
      → pread max at ≡ some bytes
      → bytes ≡ take (length bytes) (drop at file)

-- The turns of a stream: nothing happens, the file is closed, or bytes of it are sent.
pub data Turn (file : List ℕ) (s : FileStream) : FileStream → Type 0 where
  idle : Turn file s s
  closed : Turn file s (close_file s)
  sends :
      (bytes : List ℕ)
      → 0 < length bytes
      → length bytes ≤ max_allowed s
      → bytes ≡ take (length bytes) (drop s.file_offset file)
      → is_shut s.conn_win ≡ false
      → is_shut s.stream_win ≡ false
      → Turn file s (send_chunk s bytes)

or-left : (a b : Bool) → (a || b) ≡ false → a ≡ false
or-left true b h = h
or-left false b h = refl

or-right : (a b : Bool) → (a || b) ≡ false → b ≡ false
or-right true b h = cc
or-right false b h = h

module _ (file : List ℕ) (s : FileStream) where
  split_if :
      (b : Bool) (x y : FileStream)
      → (b ≡ true → Turn file s x)
      → (b ≡ false → Turn file s y)
      → Turn file s (if b then x else y)
  split_if true x y f g = f refl
  split_if false x y f g = g refl

  module _ (pread : ℕ → ℕ → Option (List ℕ)) (h : IsPread file pread) where
    after_read-Turn :
        (o : Option (List ℕ))
        → pread (max_allowed s) s.file_offset ≡ o
        → (is_shut s.conn_win || is_shut s.stream_win) ≡ false
        → Turn file s (after_read s o)
    after_read-Turn none e shut = closed
    after_read-Turn (some []) e shut = closed
    after_read-Turn (some (b ∷ bytes)) e shut =
        sends (b ∷ bytes) (omega arith) (h.few (max_allowed s) s.file_offset (b ∷ bytes) e)
          (h.from (max_allowed s) s.file_offset (b ∷ bytes) e) (or-left _ _ shut)
          (or-right _ _ shut)

    pub flush_file-Turn : Turn file s (flush_file pread s)
    unfolding flush_file
    flush_file-Turn =
        let read = after_read s (pread (max_allowed s) s.file_offset) in
        let none_left = max_allowed s == 0 in
        let shut = is_shut s.conn_win || is_shut s.stream_win in
        let asked = if none_left then s else read in
        let unsent = if shut then s else asked in
        let inner = if leb s.file_size s.file_offset then s else unsent in
        split_if (not (s.is_sending_file && s.is_open) || (s.state == http2_state_closed)) s inner
          (λ e. idle)
          (λ e.
            split_if (leb s.file_size s.file_offset) s unsent (λ e. idle)
              (λ e.
                split_if shut s asked (λ e. idle)
                  (λ e₃. split_if none_left s read (λ e. idle) (λ e. after_read-Turn _ refl e₃))))
