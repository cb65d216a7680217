-- ===== src/Fcgi/Stdin.antt =====
-- The standard input that src/fastcgi/halmos_fcgi_proto.c streams, as a FastCGI server reads it.
use mathlib.Core.List.{append_assoc}
use mathlib.Core.Option.{map}
use halmos.Base.{
  ℕ, zero, suc, ◌+◌, ◌-◌, ◌*◌, ◌/◌, ◌%◌, ◌^◌, ◌≤◌, ◌<◌, ◌≡◌, refl, sym, ◌∙◌, ap, true, false,
  Option, some, none, List, [], ◌∷◌, ◌++◌, ltb, ◌==◌, if◌then◌else◌, length, take, drop, replicate,
  take-append, drop-append, length-append, length-take, length-drop, length-replicate, not, ◌||◌,
  take-append-drop, arith,
}
use halmos.Fcgi.{record_header, stdin_record, stdin_loop, fcgi_proto_send_stdin}

-- A record: type, request, content, and the bytes behind its padding. `none` if it is cut off or of
-- another version.
pub record Record : Type 0 where
  pub type : ℕ
  pub request_id : ℕ
  pub content : List ℕ

unfoldable pub read_record : List ℕ → Option (Record × List ℕ)
read_record (version ∷ type ∷ id₁ ∷ id₀ ∷ len₁ ∷ len₀ ∷ padding ∷ reserved ∷ bs) =
    let len = len₁ * 256 + len₀ in
    if not (version == 1) || ltb (length bs) (len + padding)
    then none
    else some (
      record { type = type; request_id = id₁ * 256 + id₀; content = take len bs },
      drop (len + padding) bs,
    )
read_record _ = none

-- The input of a request: the contents of its records up to an empty one. The fuel bounds the records.
unfoldable pub read_stdin : ℕ → ℕ → List ℕ → Option (List ℕ × List ℕ)
read_stdin zero request_id bs = none
read_stdin (suc fuel) request_id bs = elim (read_record bs) [
  | none ↦ none
  | some (r, rest) ↦
      let more = read_stdin fuel request_id rest in
      if not (r.type == 5) || not (r.request_id == request_id)
      then none
      else if length r.content == 0
      then some ([], rest)
      else map (λ m. (r.content ++ m.0, m.1)) more
]

-- A record of the server's making, with any padding of less than 256 bytes.
read_record_lem :
    (type request_id : ℕ) (content padding rest : List ℕ)
    → request_id < 2 ^ 16
    → length content < 2 ^ 16
    → length padding < 256
    → read_record (
        record_header type request_id (length content) (length padding)
        ++ (content ++ (padding ++ rest)))
      ≡ some (record { type = type; request_id = request_id; content = content }, rest)
unfolding read_record record_header
read_record_lem type request_id content padding rest id len pad =
    let n : length content / 256 % 256 * 256 + length content % 256 ≡ length content =
      omega arith in
    let p : length padding % 256 ≡ length padding = omega arith in
    let i : request_id / 256 % 256 * 256 + request_id % 256 ≡ request_id = omega arith in
    let long = length-append content (padding ++ rest) in
    let long' = length-append padding rest in
    let enough : ltb (length (content ++ (padding ++ rest))) (length content + length padding)
        ≡ false =
      ground (arith, long, long') in
    let dropped : drop (length content + length padding) (content ++ (padding ++ rest)) ≡ rest =
      ap (λ k. drop k (content ++ (padding ++ rest))) (sym (length-append content padding))
      ∙ (ap (drop (length (content ++ padding))) (sym (append_assoc content padding rest))
          ∙ drop-append (content ++ padding) rest) in
    rw (n, p, i, enough, dropped, take-append content (padding ++ rest)) refl

-- A record of `fcgi_proto_send_stdin`.
read_record-stdin_record :
    (request_id : ℕ) (chunk rest : List ℕ)
    → request_id < 2 ^ 16
    → length chunk ≤ 32768
    → read_record (stdin_record request_id chunk ++ rest)
      ≡ some (record { type = 5; request_id = request_id; content = chunk }, rest)
unfolding stdin_record
read_record-stdin_record request_id chunk rest id len =
    let pad = (8 - length chunk % 8) % 8 in
    let zeros : List ℕ = replicate pad 0 in
    let n : length zeros ≡ pad = length-replicate pad 0 in
    let joined =
      append_assoc (record_header 5 request_id (length chunk) pad) (chunk ++ zeros) rest
      ∙ ap (λ x. record_header 5 request_id (length chunk) pad ++ x)
          (append_assoc chunk zeros rest) in
    ap read_record joined
    ∙ (ap
          (λ k.
            read_record (record_header 5 request_id (length chunk) k ++ (chunk ++ (zeros ++ rest))))
          (sym n)
        ∙ read_record_lem 5 request_id chunk zeros rest id (omega arith) (omega (arith, n)))

read_record_empty :
    (request_id : ℕ) (rest : List ℕ)
    → request_id < 2 ^ 16
    → read_record (record_header 5 request_id 0 0 ++ rest)
      ≡ some (record { type = 5; request_id = request_id; content = [] }, rest)
read_record_empty request_id rest id =
    read_record_lem 5 request_id [] [] rest id (omega arith) (omega arith)

-- The last record, and one before it.
read_stdin_last :
    (fuel id : ℕ) (bs rest : List ℕ)
    → read_record bs ≡ some (record { type = 5; request_id = id; content = [] }, rest)
    → read_stdin (suc fuel) id bs ≡ some ([], rest)
unfolding read_stdin
read_stdin_last fuel id bs rest e =
    let same : (id == id) ≡ true = ground arith in rw (read_stdin, e, same) refl

read_stdin_next :
    (fuel id : ℕ) (bs chunk rest text left : List ℕ)
    → read_record bs ≡ some (record { type = 5; request_id = id; content = chunk }, rest)
    → 0 < length chunk
    → read_stdin fuel id rest ≡ some (text, left)
    → read_stdin (suc fuel) id bs ≡ some (chunk ++ text, left)
unfolding read_stdin
read_stdin_next fuel id bs chunk rest text left e some_bytes more =
    let same : (id == id) ≡ true = ground arith in
    let goes_on : (length chunk == 0) ≡ false = ground arith in
    rw (read_stdin, e, same, goes_on, more) refl

stdin_loop_end : (fuel id : ℕ) → stdin_loop fuel id [] ≡ []
unfolding stdin_loop
stdin_loop_end zero id = refl
stdin_loop_end (suc fuel) id = refl

stdin_loop_step :
    (fuel id : ℕ) (bytes : List ℕ)
    → 0 < length bytes
    → stdin_loop (suc fuel) id bytes
      ≡ stdin_record id (take 32768 bytes) ++ stdin_loop fuel id (drop 32768 bytes)
unfolding stdin_loop
stdin_loop_step fuel id bytes h = let e : (length bytes == 0) ≡ false = ground arith in rw e refl

read_stdin_loop :
    (fuel fuel' id : ℕ) (bytes rest : List ℕ)
    → id < 2 ^ 16
    → length bytes ≤ fuel
    → fuel < fuel'
    → read_stdin fuel' id (stdin_loop fuel id bytes ++ (record_header 5 id 0 0 ++ rest))
      ≡ some (bytes, rest)
read_stdin_loop fuel zero id bytes rest small h f = absurd (omega arith)
read_stdin_loop fuel (suc fuel') id [] rest small h f =
    ap (λ x. read_stdin (suc fuel') id (x ++ (record_header 5 id 0 0 ++ rest)))
      (stdin_loop_end fuel id)
    ∙ read_stdin_last fuel' id (record_header 5 id 0 0 ++ rest) rest
        (read_record_empty id rest small)
read_stdin_loop zero (suc fuel') id (b ∷ bs) rest small h f = absurd (omega arith)
read_stdin_loop (suc fuel) (suc fuel') id (b ∷ bs) rest small h f =
    let chunk = take 32768 (b ∷ bs) in
    let left = drop 32768 (b ∷ bs) in
    let after = stdin_loop fuel id left ++ (record_header 5 id 0 0 ++ rest) in
    let size = length-take 32768 (b ∷ bs) in
    let more =
      read_stdin_loop fuel fuel' id left rest small (omega (arith, length-drop 32768 (b ∷ bs)))
        (omega arith) in
    ap (λ x. read_stdin (suc fuel') id (x ++ (record_header 5 id 0 0 ++ rest)))
      (stdin_loop_step fuel id (b ∷ bs) (omega arith))
    ∙ (ap (read_stdin (suc fuel') id) (
          append_assoc (stdin_record id chunk) (stdin_loop fuel id left)
            (record_header 5 id 0 0 ++ rest))
        ∙ (read_stdin_next fuel' id (stdin_record id chunk ++ after) chunk after left rest
              (read_record-stdin_record id chunk after small (omega (arith, size)))
              (omega (arith, size)) more
            ∙ ap (λ x. some (x, rest)) (take-append-drop 32768 (b ∷ bs))))

-- The records that `fcgi_proto_send_stdin` sends for a request number of 16 bits are read, by the record
-- layout of the FastCGI specification, as the data of that request up to its end, and nothing
-- behind them is taken: each chunk with its padding, and the empty record last.
pub read-send_stdin :
    (request_id : ℕ) (bytes rest : List ℕ)
    → request_id < 2 ^ 16
    → read_stdin (suc (length bytes)) request_id (fcgi_proto_send_stdin request_id bytes ++ rest)
      ≡ some (bytes, rest)
unfolding fcgi_proto_send_stdin
read-send_stdin id bytes rest small =
    ap (read_stdin (suc (length bytes)) id)
      (append_assoc (stdin_loop (length bytes) id bytes) (record_header 5 id 0 0) rest)
    ∙ read_stdin_loop (length bytes) (suc (length bytes)) id bytes rest small (omega arith)
        (omega arith)
