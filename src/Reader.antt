-- ===== src/Reader.antt =====
-- Reading from a socket that does not block. A receiver asks for `need` bytes, gets some of them, and
-- goes on when more arrive: the receive loops of src/protocol/websocket/halmos_ws_system.c and of
-- src/protocol/http2/halmos_http2_manager.c are both of this form. The socket delivers the stream in
-- order, in pieces whose sizes are arguments; a size of 0 is EAGAIN.
use halmos.Base.{
  ℕ, zero, suc, ◌+◌, ◌≤◌, ◌<◌, min, ◌≡◌, ◌≢◌, ◌⊎◌, refl, sym, ◌∙◌, ap, inl, inr, false, List, [],
  ◌∷◌, ◌++◌, ◌==◌, if◌then◌else◌, Bool-cases, length, take, drop, take-append-drop, length-drop,
  length-take, arith,
}

-- `feed s bs` is the state after a read that returned `bs`. A read of several bytes does what reads
-- of one byte each do.
pub record Reader (S : Type 0) : Type 0 where
  pub need : S → ℕ
  pub feed : S → List ℕ → S
  pub feed-split :
      (s : S) (x y : ℕ) (ys : List ℕ)
      → suc (suc (length ys)) ≤ need s
      → (feed s (x ∷ y ∷ ys) ≡ feed (feed s (x ∷ [])) (y ∷ ys))
        × (need s ≡ suc (need (feed s (x ∷ []))))

-- How many of the reads are not empty.
unfoldable pub reads : List ℕ → ℕ
reads [] = 0
reads (size ∷ sizes) = (if size == 0 then 0 else 1) + reads sizes

length_zero : (xs : List ℕ) → length xs ≡ 0 → xs ≡ []
length_zero [] h = refl
length_zero (x ∷ xs) h = absurd (omega arith)

ℕ_cases : (m n : ℕ) → (m ≡ n) ⊎ (m ≢ n)
ℕ_cases m n = omega arith

module _ {S : Type 0} (r : Reader S) where
  -- The reference: one byte at a time, until the receiver needs none.
  unfoldable pub feed_bytes : S → List ℕ → S
  feed_bytes s [] = s
  feed_bytes s (b ∷ bs) =
      let more = feed_bytes (r.feed s (b ∷ [])) bs in if r.need s == 0 then s else more

  -- The bytes that one read returns.
  unfoldable pub read_size : S → ℕ → List ℕ → ℕ
  read_size s size pending = min size (min (r.need s) (length pending))

  -- Reads of these sizes, one after another.
  unfoldable pub deliver : S → List ℕ → List ℕ → S × List ℕ
  deliver s [] pending = (s, pending)
  deliver s (size ∷ sizes) pending =
      let n = read_size s size pending in
      deliver (if n == 0 then s else r.feed s (take n pending)) sizes (drop n pending)

  feed_bytes-stopped : (s : S) (bs : List ℕ) → r.need s ≡ 0 → feed_bytes s bs ≡ s
  unfolding feed_bytes
  feed_bytes-stopped s [] h = refl
  feed_bytes-stopped s (b ∷ bs) h = ground (arith, h)

  pub feed_bytes-append :
      (s : S) (xs ys : List ℕ) → feed_bytes s (xs ++ ys) ≡ feed_bytes (feed_bytes s xs) ys
  unfolding feed_bytes
  feed_bytes-append s [] ys = refl
  feed_bytes-append s (x ∷ xs) ys = elim (Bool-cases (r.need s == 0)) [
    | inl e ↦ rw e (sym (feed_bytes-stopped s ys (ground arith)))
    | inr e ↦ rw e (feed_bytes-append (r.feed s (x ∷ [])) xs ys)
  ]

  pub feed-feed_bytes :
      (s : S) (x : ℕ) (xs : List ℕ)
      → suc (length xs) ≤ r.need s
      → r.feed s (x ∷ xs) ≡ feed_bytes s (x ∷ xs)
  unfolding feed_bytes
  feed-feed_bytes s x [] h = let e : (r.need s == 0) ≡ false = ground arith in rw e
  feed-feed_bytes s x (y ∷ ys) h =
      let (e, n) = r.feed-split s x y ys h in
      let moving : (r.need s == 0) ≡ false = ground arith in
      rw moving (e ∙ feed-feed_bytes (r.feed s (x ∷ [])) y ys (omega (arith, n)))

  -- A chunk that the receiver asks for, at the head of the stream.
  pub feed_bytes-chunk :
      (s : S) (chunk rest : List ℕ)
      → 0 < length chunk
      → length chunk ≤ r.need s
      → feed_bytes s (chunk ++ rest) ≡ feed_bytes (r.feed s chunk) rest
  feed_bytes-chunk s [] rest some_chunk fits = absurd (omega arith)
  feed_bytes-chunk s (x ∷ xs) rest some_chunk fits =
      feed_bytes-append s (x ∷ xs) rest
      ∙ ap (λ t. feed_bytes t rest) (sym (feed-feed_bytes s x xs fits))

  feed_take :
      (s : S) (n : ℕ) (pending : List ℕ)
      → n ≢ 0
      → n ≤ length pending
      → n ≤ r.need s
      → r.feed s (take n pending) ≡ feed_bytes s (take n pending)
  feed_take s zero pending some_n long few = absurd (some_n refl)
  feed_take s (suc n) [] some_n long few = absurd (omega arith)
  feed_take s (suc n) (b ∷ bs) some_n long few =
      feed-feed_bytes s b (take n bs) (omega (arith, length-take n bs))

  -- One read is the reference on the bytes that it took.
  read_lem :
      (s : S) (n : ℕ) (pending : List ℕ)
      → n ≤ length pending
      → n ≤ r.need s
      → feed_bytes (if n == 0 then s else r.feed s (take n pending)) (drop n pending)
        ≡ feed_bytes s pending
  read_lem s n pending long few =
      let joined = ap (feed_bytes s) (take-append-drop n pending) in
      elim (Bool-cases (n == 0)) [
        | inl e ↦ let z : n ≡ 0 = ground arith in rw e (ap (λ m. feed_bytes s (drop m pending)) z)
        | inr e ↦
            rw (e, feed_take s n pending (ground arith) long few)
              (sym (feed_bytes-append s (take n pending) (drop n pending)) ∙ joined)
      ]

  -- What is left to read leads from the state reached to where the reference ends.
  feed_bytes-deliver :
      (s : S) (sizes pending : List ℕ)
      → feed_bytes (deliver s sizes pending).0 (deliver s sizes pending).1 ≡ feed_bytes s pending
  unfolding deliver read_size
  feed_bytes-deliver s [] pending = refl
  feed_bytes-deliver s (size ∷ sizes) pending =
      let n = min size (min (r.need s) (length pending)) in
      feed_bytes-deliver (if n == 0 then s else r.feed s (take n pending)) sizes (drop n pending)
      ∙ read_lem s n pending (omega arith) (omega arith)

  deliver-stopped :
      (s : S) (sizes pending : List ℕ) → r.need s ≡ 0 → r.need (deliver s sizes pending).0 ≡ 0
  unfolding deliver read_size
  deliver-stopped s [] pending h = h
  deliver-stopped s (size ∷ sizes) pending h =
      let z : min size (min (r.need s) (length pending)) ≡ 0 = omega arith in
      rw (z, deliver) (deliver-stopped s sizes pending h)

  -- With a read that is not empty for each byte, the input is used up or the receiver has stopped.
  deliver_ends :
      (s : S) (sizes pending : List ℕ)
      → length pending ≤ reads sizes
      → (length (deliver s sizes pending).1 ≡ 0) ⊎ (r.need (deliver s sizes pending).0 ≡ 0)
  unfolding deliver read_size reads
  deliver_ends s [] pending h = inl (omega arith)
  deliver_ends s (size ∷ sizes) pending h =
      let n = min size (min (r.need s) (length pending)) in
      elim (ℕ_cases (r.need s) 0) [
        | inl stuck ↦
            let z : n ≡ 0 = omega arith in
            rw (z, deliver) (inr (deliver-stopped s sizes pending stuck))
        | inr moving ↦
            deliver_ends (if n == 0 then s else r.feed s (take n pending)) sizes (drop n pending)
              (ground (arith, length-drop n pending))
      ]

  -- However the stream is cut into reads, with a read that is not empty for each byte the receiver
  -- reaches the state of the reference.
  pub deliver_lem :
      (s : S) (sizes pending : List ℕ)
      → length pending ≤ reads sizes
      → (deliver s sizes pending).0 ≡ feed_bytes s pending
  unfolding feed_bytes deliver
  deliver_lem s sizes pending h = elim (deliver_ends s sizes pending h) [
    | inl e ↦ rw (length_zero (deliver s sizes pending).1 e) at (feed_bytes-deliver s sizes pending)
    | inr e ↦
        sym (feed_bytes-stopped (deliver s sizes pending).0 (deliver s sizes pending).1 e)
        ∙ feed_bytes-deliver s sizes pending
  ]
