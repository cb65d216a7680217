-- ===== src/Http2/Socket/Order.antt =====
-- The order of the bytes that go through src/protocol/http2/halmos_http2_socket.c.
use mathlib.Core.List.{append_assoc, append-nil}
use halmos.Base.{
  ℕ, zero, suc, ◌+◌, ◌-◌, ◌≤◌, min, ◌≡◌, refl, sym, ◌∙◌, ap, inl, inr, Bool, true, false, List, [],
  ◌∷◌, ◌++◌, leb, ◌==◌, Bool-cases, length, take, drop, take-append-drop, length-drop,
  length-append, take_all, arith,
}
use halmos.Http2.Socket.{
  Outgoing, Written, wrote, retry, hard_error, add_backlog, write_directly,
  http2_socket_write_or_buffer, flush_rest, http2_socket_flush_pending_write,
}

-- The buffer has `pending_write_len` bytes, and the offset is in it.
pub record IsOutgoing (s : Outgoing) : Type 0 where
  pub filled : length s.pending_write_buf ≡ s.pending_write_len
  pub inside : s.pending_write_offset ≤ s.pending_write_len

-- The bytes taken in that have not gone out.
abbrev pub backlog : Outgoing → List ℕ
backlog s = drop s.pending_write_offset s.pending_write_buf

-- All the bytes taken in, in their order.
abbrev pub bytes_in : Outgoing → List ℕ
bytes_in s = s.wire ++ backlog s

pub drop_all : (n : ℕ) (xs : List ℕ) → length xs ≤ n → drop n xs ≡ []
drop_all zero [] h = refl
drop_all zero (x ∷ xs) h = absurd (omega arith)
drop_all (suc n) [] h = refl
drop_all (suc n) (x ∷ xs) h = drop_all n xs (omega arith)

drop-drop : (m n : ℕ) (xs : List ℕ) → drop m (drop n xs) ≡ drop (n + m) xs
drop-drop m zero xs = ap (λ k. drop k xs) (omega arith)
drop-drop m (suc n) [] = drop_all m [] (omega arith) ∙ sym (drop_all (suc n + m) [] (omega arith))
drop-drop m (suc n) (x ∷ xs) =
    let e : suc (n + m) ≡ suc n + m = omega arith in drop-drop m n xs ∙ ap (λ k. drop k (x ∷ xs)) e

-- What a call keeps: the state is well formed, and unless there is a write error the bytes `more` have
-- come in behind the earlier ones.
pub record Keeps (s s' : Outgoing) (more : List ℕ) : Type 0 where
  pub formed : IsOutgoing s'
  pub kept : s'.write_error ≡ false → (s.write_error ≡ false) × (bytes_in s' ≡ bytes_in s ++ more)

pub whole :
    (s : Outgoing)
    → IsOutgoing s
    → take (s.pending_write_len - s.pending_write_offset) (backlog s) ≡ backlog s
whole s ok =
    take_all (s.pending_write_len - s.pending_write_offset) (backlog s)
      (omega (arith, ok.filled, length-drop s.pending_write_offset s.pending_write_buf))

failed :
    (s : Outgoing) (more : List ℕ) → IsOutgoing s → Keeps s (record s { write_error = true }) more
failed s more ok = record {
  formed = record { filled = ok.filled; inside = ok.inside };
  kept = λ e. absurd (ground (arith, e));
}

unchanged : (s : Outgoing) → IsOutgoing s → Keeps s s []
unchanged s ok = record { formed = ok; kept = λ e. (e, sym (append-nil (bytes_in s))) }

add_backlog-Keeps :
    (s : Outgoing) (more : List ℕ) (malloc_ok : Bool)
    → IsOutgoing s
    → Keeps s (add_backlog s more malloc_ok) more
unfolding add_backlog
add_backlog-Keeps s more true ok =
    let e = whole s ok in
    record {
      formed = record {
        filled = rw e (
            length-append (backlog s) more
            ∙ ap (λ n. n + length more)
                (length-drop s.pending_write_offset s.pending_write_buf
                  ∙ ap (λ n. n - s.pending_write_offset) ok.filled));
        inside = omega arith;
      };
      kept = λ h. (h, rw e (sym (append_assoc s.wire (backlog s) more)));
    }
add_backlog-Keeps s more false ok = failed s more ok

-- Bytes that go out at once.
straight :
    (s : Outgoing) (more : List ℕ)
    → IsOutgoing s
    → s.pending_write_len ≤ s.pending_write_offset
    → (n : ℕ) → backlog s ≡ []
straight s more ok h n =
    drop_all s.pending_write_offset s.pending_write_buf (omega (arith, ok.filled))

beside :
    (w a b : List ℕ) {m left : List ℕ}
    → left ≡ []
    → a ++ b ≡ m
    → w ++ a ++ left ++ b ≡ w ++ left ++ m
beside w a b nothing joined =
    rw (nothing, append-nil (w ++ a), append-nil w) (append_assoc w a b ∙ ap (λ x. w ++ x) joined)

write_directly-Keeps :
    (s : Outgoing) (more : List ℕ) (n : Written) (malloc_ok : Bool)
    → IsOutgoing s
    → s.pending_write_len ≤ s.pending_write_offset
    → Keeps s (write_directly s more n malloc_ok) more
unfolding write_directly
write_directly-Keeps s more (wrote n) malloc_ok ok h =
    let k = min n (length more) in
    let s' = record s { wire = s.wire ++ take k more } in
    let none_left = straight s more ok h n in
    elim (Bool-cases (k == length more)) [
      | inl e ↦
          let all : take k more ≡ more = take_all k more (ground arith) in
          rw e (record {
            formed = record { filled = ok.filled; inside = ok.inside };
            kept =
                λ g. (g, rw (none_left, all, append-nil (s.wire ++ more), append-nil s.wire) refl);
          })
      | inr e ↦
          let k' =
            add_backlog-Keeps s' (drop k more) malloc_ok
              (record { filled = ok.filled; inside = ok.inside }) in
          rw e (record {
            formed = k'.formed;
            kept = λ g.
                let (clean, same) = k'.kept g in
                (
                  clean,
                  same
                      ∙ beside s.wire (take k more) (drop k more) none_left
                          (take-append-drop k more),
                );
          })
    ]
write_directly-Keeps s more retry malloc_ok ok h = add_backlog-Keeps s more malloc_ok ok
write_directly-Keeps s more hard_error malloc_ok ok h = failed s more ok

pub write-Keeps :
    (s : Outgoing) (more : List ℕ) (n : Written) (malloc_ok : Bool)
    → IsOutgoing s
    → Keeps s (http2_socket_write_or_buffer s more n malloc_ok) more
unfolding http2_socket_write_or_buffer
write-Keeps s [] n malloc_ok ok = record {
  formed = ok;
  kept = λ g. (g, sym (append-nil (bytes_in s)));
}
write-Keeps s (b ∷ bs) n malloc_ok ok =
    let some_bytes : (length (b ∷ bs) == 0) ≡ false = ground arith in
    elim (Bool-cases (leb s.pending_write_len s.pending_write_offset)) [
      | inl e ↦ rw (some_bytes, e) (write_directly-Keeps s (b ∷ bs) n malloc_ok ok (ground arith))
      | inr e ↦ rw (some_bytes, e) (add_backlog-Keeps s (b ∷ bs) malloc_ok ok)
    ]

flush_rest-Keeps :
    (s : Outgoing) (n : Written) → IsOutgoing s → Keeps s (flush_rest s (backlog s) n).1 []
unfolding flush_rest
flush_rest-Keeps s retry ok = unchanged s ok
flush_rest-Keeps s hard_error ok = unchanged s ok
flush_rest-Keeps s (wrote n) ok =
    let rest = backlog s in
    let k = min n (length rest) in
    let size = length-drop s.pending_write_offset s.pending_write_buf in
    let split = take-append-drop k rest in
    elim (Bool-cases (k == 0)) [
      | inl e ↦ rw e (unchanged s ok)
      | inr e ↦ elim (Bool-cases (leb s.pending_write_len (s.pending_write_offset + k))) [
        | inl all ↦
            rw (e, all)
              (record {
                formed = record { filled = refl; inside = omega arith };
                kept = λ g. (
                  g,
                  ap (λ x. s.wire ++ x ++ []) (take_all k rest (ground (arith, size, ok.filled)))
                      ∙ (append-nil (s.wire ++ rest) ∙ sym (append-nil (s.wire ++ rest))),
                );
              })
        | inr part ↦
            rw (e, part)
              (record {
                formed = record { filled = ok.filled; inside = ground arith };
                kept = λ g. (
                  g,
                  append_assoc s.wire (take k rest)
                        (drop (s.pending_write_offset + k) s.pending_write_buf)
                      ∙ (ap (λ x. s.wire ++ (take k rest ++ x))
                            (sym (drop-drop k s.pending_write_offset s.pending_write_buf))
                          ∙ (ap (λ x. s.wire ++ x) split ∙ sym (append-nil (s.wire ++ rest)))),
                );
              })
      ]
    ]

pub flush-Keeps :
    (s : Outgoing) (n : Written)
    → IsOutgoing s
    → Keeps s (http2_socket_flush_pending_write s n).1 []
unfolding http2_socket_flush_pending_write
flush-Keeps s n ok = elim (Bool-cases (leb s.pending_write_len s.pending_write_offset)) [
  | inl e ↦ rw e (unchanged s ok)
  | inr e ↦ rw (e, whole s ok) (flush_rest-Keeps s n ok)
]
