-- ===== src/Http2/Socket/Drain.antt =====
-- Runs of the writer of src/protocol/http2/halmos_http2_socket.c.
use mathlib.Core.List.{append_assoc, append-nil}
use halmos.Base.{
  ℕ, ◌+◌, ◌-◌, ◌≤◌, min, ◌≡◌, refl, sym, ◌∙◌, ap, inl, inr, Bool, false, List, [], ◌∷◌, ◌++◌, leb,
  ◌==◌, Bool-cases, length, length-drop, arith,
}
use halmos.Reader.{reads}
use halmos.Http2.Socket.{
  Outgoing, Written, wrote, http2_socket_write_or_buffer, flush_rest,
  http2_socket_flush_pending_write,
}
use halmos.Http2.Socket.Order.{
  IsOutgoing, whole, backlog, bytes_in, Keeps, write-Keeps, flush-Keeps,
}

-- A write of these bytes, or a flush, with what the socket and `malloc` give.
pub data Call : Type 0 where
  write : List ℕ → Written → Bool → Call
  flush : Written → Call

unfoldable pub after : Outgoing → Call → Outgoing
after s (write bytes n malloc_ok) = http2_socket_write_or_buffer s bytes n malloc_ok
after s (flush n) = (http2_socket_flush_pending_write s n).1

abbrev pub bytes_of : Call → List ℕ
bytes_of (write bytes n malloc_ok) = bytes
bytes_of (flush n) = []

unfoldable pub run : Outgoing → List Call → Outgoing
run s [] = s
run s (call ∷ calls) = run (after s call) calls

unfoldable pub submitted : List Call → List ℕ
submitted [] = []
submitted (call ∷ calls) = bytes_of call ++ submitted calls

-- Before the first write.
abbrev pub fresh : Outgoing
fresh = record {
  pending_write_buf = [];
  pending_write_len = 0;
  pending_write_offset = 0;
  write_error = false;
  wire = [];
}

after-Keeps : (s : Outgoing) (call : Call) → IsOutgoing s → Keeps s (after s call) (bytes_of call)
unfolding after
after-Keeps s (write bytes n malloc_ok) ok = write-Keeps s bytes n malloc_ok ok
after-Keeps s (flush n) ok = flush-Keeps s n ok

run-Keeps :
    (s : Outgoing) (calls : List Call) → IsOutgoing s → Keeps s (run s calls) (submitted calls)
unfolding run submitted
run-Keeps s [] ok = record { formed = ok; kept = λ e. (e, sym (append-nil (bytes_in s))) }
run-Keeps s (call ∷ calls) ok =
    let one = after-Keeps s call ok in
    let more = run-Keeps (after s call) calls one.formed in
    record {
      formed = more.formed;
      kept = λ e.
          let (clean, same) = more.kept e in
          let (clean', same') = one.kept clean in
          (
            clean',
            same
                ∙ (ap (λ x. x ++ submitted calls) same'
                    ∙ append_assoc (bytes_in s) (bytes_of call) (submitted calls)),
          );
    }

-- Through any writes and flushes, whatever part of the bytes the socket takes each time, unless there is
-- a write error at the end the bytes on the wire are the bytes submitted so far, in their order, but
-- for an end, which is the backlog. The buffer has the length noted and the offset lies in it.
pub wire-run :
    (calls : List Call)
    → (run fresh calls).write_error ≡ false
    → ((run fresh calls).wire ++ backlog (run fresh calls) ≡ submitted calls)
      × IsOutgoing (run fresh calls)
wire-run calls h =
    let all = run-Keeps fresh calls (record { filled = refl; inside = omega arith }) in
    ((all.kept h).1, all.formed)

unfoldable pub flushes : List ℕ → List Call
flushes [] = []
flushes (n ∷ ns) = flush (wrote n) ∷ flushes ns

-- A flush that the socket takes `n` bytes of.
flush-shrinks :
    (s : Outgoing) (n : ℕ)
    → IsOutgoing s
    → let s' = (http2_socket_flush_pending_write s (wrote n)).1 in
      (s'.write_error ≡ s.write_error) × (length (backlog s') ≡ length (backlog s) - n)
unfolding http2_socket_flush_pending_write flush_rest
flush-shrinks s n ok =
    let size = length-drop s.pending_write_offset s.pending_write_buf in
    let k = min n (length (backlog s)) in
    let size' = length-drop (s.pending_write_offset + k) s.pending_write_buf in
    elim (Bool-cases (leb s.pending_write_len s.pending_write_offset)) [
      | inl e ↦ rw e (refl, ground (arith, size, ok.filled))
      | inr e ↦
          rw (e, whole s ok)
            (elim (Bool-cases (k == 0)) [
              | inl z ↦ rw z (refl, ground (arith, size, ok.filled))
              | inr z ↦ elim (Bool-cases (leb s.pending_write_len (s.pending_write_offset + k))) [
                | inl all ↦ rw (z, all) (refl, ground (arith, size, ok.filled))
                | inr part ↦ rw (z, part) (refl, ground (arith, size, size', ok.filled))
              ]
            ])
    ]

flushes_empty :
    (s : Outgoing) (ns : List ℕ)
    → IsOutgoing s
    → length (backlog s) ≤ reads ns
    → let s' = run s (flushes ns) in (s'.write_error ≡ s.write_error) × (length (backlog s') ≡ 0)
unfolding run flushes after reads
flushes_empty s [] ok h = (refl, omega arith)
flushes_empty s (n ∷ ns) ok h =
    let (clean, less) = flush-shrinks s n ok in
    let (clean', done) =
      flushes_empty (after s (flush (wrote n))) ns (flush-Keeps s (wrote n) ok).formed
        (ground (arith, less)) in
    (clean' ∙ clean, done)

length_zero : (xs : List ℕ) → length xs ≡ 0 → xs ≡ []
length_zero [] h = refl
length_zero (x ∷ xs) h = absurd (omega arith)

submitted-flushes : (ns : List ℕ) → submitted (flushes ns) ≡ []
unfolding submitted flushes
submitted-flushes [] = refl
submitted-flushes (n ∷ ns) = submitted-flushes ns

-- With a flush that the socket takes some of for each byte of the backlog, all that was submitted goes
-- out, in its order: from any state that writes and flushes reach without a write error.
pub flushes-drain :
    (calls : List Call) (ns : List ℕ)
    → (run fresh calls).write_error ≡ false
    → length (backlog (run fresh calls)) ≤ reads ns
    → let s = run (run fresh calls) (flushes ns) in
      (s.wire ≡ submitted calls) × (s.write_error ≡ false) × (length (backlog s) ≡ 0)
flushes-drain calls ns clean h =
    let (same, ok) = wire-run calls clean in
    let s = run fresh calls in
    let (clean', done) = flushes_empty s ns ok h in
    let all = (run-Keeps s (flushes ns) ok).kept (clean' ∙ clean) in
    let s' = run s (flushes ns) in
    let none_left = length_zero (backlog s') done in
    (
      sym (append-nil s'.wire)
          ∙ (ap (λ x. s'.wire ++ x) (sym none_left)
              ∙ (all.1
                  ∙ (ap (λ x. bytes_in s ++ x) (submitted-flushes ns)
                      ∙ (append-nil (bytes_in s) ∙ same)))),
      clean' ∙ clean,
      done,
    )
