-- ===== src/Fcgi/Pairs.antt =====
-- Name-value pairs of src/fastcgi/halmos_fcgi_proto.c, as a FastCGI server reads them.
use mathlib.Core.List.{append_assoc, append-nil}
use halmos.Base.{
  ℕ, zero, suc, ◌+◌, ◌*◌, ◌%◌, ◌^◌, ◌≤◌, ◌<◌, ◌≡◌, refl, sym, ◌∙◌, ap, inl, inr, Option, some, none,
  List, [], ◌∷◌, ◌++◌, ltb, if◌then◌else◌, Bool-cases, All, length, take, drop, take-append,
  drop-append, length-append, arith,
}
use halmos.Base.Int.{pos, ltb_ℤ}
use halmos.Base.Number.{to_int}
use halmos.Fcgi.{pair_length, fcgi_proto_add_pair}

infixl 10 ◌>>=◌
abbrev ◌>>=◌ : {A B : Type 0} → Option A → (A → Option B) → Option B
none >>= f = none
some a >>= f = f a

-- The lengths of the FastCGI specification: the number, and the bytes behind it.
unfoldable pub read_length : List ℕ → Option (ℕ × List ℕ)
read_length [] = none
read_length (b ∷ []) = if ltb b 128 then some (b, []) else none
read_length (b ∷ c ∷ []) = if ltb b 128 then some (b, c ∷ []) else none
read_length (b ∷ c ∷ d ∷ []) = if ltb b 128 then some (b, c ∷ d ∷ []) else none
read_length (b ∷ c ∷ d ∷ e ∷ bs) =
    if ltb b 128
    then some (b, c ∷ d ∷ e ∷ bs)
    else some (b % 128 * 2 ^ 24 + c * 2 ^ 16 + d * 2 ^ 8 + e, bs)

-- One pair, and the bytes behind it.
unfoldable pub read_pair : List ℕ → Option ((List ℕ × List ℕ) × List ℕ)
read_pair bs = do
  (name_length, bs₁) ← read_length bs
  (value_length, bs₂) ← read_length bs₁
  some (
    (take name_length bs₂, take value_length (drop name_length bs₂)),
    drop value_length (drop name_length bs₂),
  )

-- Pairs to the end of the bytes; the fuel bounds their number.
unfoldable pub read_pairs : ℕ → List ℕ → Option (List (List ℕ × List ℕ))
read_pairs fuel [] = some []
read_pairs zero (b ∷ bs) = none
read_pairs (suc fuel) (b ∷ bs) = do
  (pair, rest) ← read_pair (b ∷ bs)
  pairs ← read_pairs fuel rest
  some (pair ∷ pairs)

read_length-pair_length :
    (n : ℕ) (bs : List ℕ) → n < 2 ^ 31 → read_length (pair_length n ++ bs) ≡ some (n, bs)
unfolding read_length pair_length
read_length-pair_length n [] h = ground arith
read_length-pair_length n (c ∷ []) h = ground arith
read_length-pair_length n (c ∷ d ∷ []) h = ground arith
read_length-pair_length n (c ∷ d ∷ e ∷ bs) h = ground arith

read_pair_lem :
    (name value rest : List ℕ)
    → length name < 2 ^ 31
    → length value < 2 ^ 31
    → read_pair
        (pair_length (length name) ++ (pair_length (length value) ++ (name ++ (value ++ rest))))
      ≡ some ((name, value), rest)
unfolding read_pair
read_pair_lem name value rest small small' =
    rw
      (
        read_length-pair_length (length name)
            (pair_length (length value) ++ (name ++ (value ++ rest))) small,
        read_length-pair_length (length value) (name ++ (value ++ rest)) small',
        take-append name (value ++ rest),
        drop-append name (value ++ rest),
        take-append value rest,
        drop-append value rest,
      )
      refl

-- A pair in the buffer, and its size.
unfoldable pub pair_bytes : List ℕ × List ℕ → List ℕ
pair_bytes pair = pair_length (length pair.0) ++ (pair_length (length pair.1) ++ (pair.0 ++ pair.1))

unfoldable pub pair_size : List ℕ × List ℕ → ℕ
pair_size pair =
    (if ltb 127 (length pair.0) then 4 else 1)
    + (if ltb 127 (length pair.1) then 4 else 1)
    + length pair.0
    + length pair.1

-- The pairs added one after another.
unfoldable pub add_pairs : ℕ → List ℕ → List (List ℕ × List ℕ) → List ℕ
add_pairs max_len dest [] = dest
add_pairs max_len dest (pair ∷ pairs) =
    add_pairs max_len (fcgi_proto_add_pair dest pair.0 pair.1 max_len) pairs

-- The pairs that fit behind `used` bytes: one that would go past the end is left out.
unfoldable pub fitting : ℕ → ℕ → List (List ℕ × List ℕ) → List (List ℕ × List ℕ)
fitting max_len used [] = []
fitting max_len used (pair ∷ pairs) =
    let without = fitting max_len used pairs in
    let behind = fitting max_len (used + pair_size pair) pairs in
    if ltb max_len (used + pair_size pair) then without else pair ∷ behind

all_bytes : List (List ℕ × List ℕ) → List ℕ
all_bytes [] = []
all_bytes (pair ∷ pairs) = pair_bytes pair ++ all_bytes pairs

length-pair_length : (n : ℕ) → length (pair_length n) ≡ (if ltb 127 n then 4 else 1)
unfolding pair_length
length-pair_length n = ground arith

length-pair_bytes : (pair : List ℕ × List ℕ) → length (pair_bytes pair) ≡ pair_size pair
unfolding pair_bytes pair_size
length-pair_bytes pair =
    let (name, value) = pair in
    let tail = pair_length (length value) ++ (name ++ value) in
    omega (
      arith,
      length-append (pair_length (length name)) tail,
      length-append (pair_length (length value)) (name ++ value),
      length-append name value,
      length-pair_length (length name),
      length-pair_length (length value),
    )

-- The buffer with the pair still counts in an `int`.
abbrev pub IsPair : ℕ → List ℕ × List ℕ → Type 0
IsPair max_len pair = max_len + pair_size pair < 2 ^ 31

pair_size-bounds :
    (max_len : ℕ) (pair : List ℕ × List ℕ)
    → IsPair max_len pair
    → (length pair.0 < 2 ^ 31) × (length pair.1 < 2 ^ 31)
unfolding pair_size
pair_size-bounds max_len pair h = (omega (arith, h), omega (arith, h))

ltb_ℤ-to_int : (m n : ℕ) → n < 2 ^ 31 → ltb_ℤ (pos m) (to_int n) ≡ ltb m n
unfolding to_int
ltb_ℤ-to_int m n h = ground arith

add_pair_lem :
    (dest : List ℕ) (pair : List ℕ × List ℕ) (max_len : ℕ)
    → length dest ≤ max_len
    → IsPair max_len pair
    → fcgi_proto_add_pair dest pair.0 pair.1 max_len
      ≡ (if ltb max_len (length dest + pair_size pair) then dest else dest ++ pair_bytes pair)
unfolding fcgi_proto_add_pair pair_size pair_bytes
add_pair_lem dest pair max_len h small =
    let h_name = if ltb 127 (length pair.0) then 4 else 1 in
    let h_val = if ltb 127 (length pair.1) then 4 else 1 in
    let e : length dest + h_name + h_val + length pair.0 + length pair.1
        ≡ length dest + (h_name + h_val + length pair.0 + length pair.1) =
      omega arith in
    let test =
      ltb_ℤ-to_int max_len (length dest + h_name + h_val + length pair.0 + length pair.1)
        (omega (arith, e, h, small)) in
    ap (λ b. if b then dest else dest ++ pair_bytes pair) (test ∙ ap (ltb max_len) e)

add_pairs_lem :
    (max_len : ℕ) (dest : List ℕ) (pairs : List (List ℕ × List ℕ))
    → length dest ≤ max_len
    → All (IsPair max_len) pairs
    → (add_pairs max_len dest pairs ≡ dest ++ all_bytes (fitting max_len (length dest) pairs))
      × (length (add_pairs max_len dest pairs) ≤ max_len)
unfolding add_pairs fitting all_bytes
add_pairs_lem max_len dest [] h fine = (sym (append-nil dest), h)
add_pairs_lem max_len dest (pair ∷ pairs) h (fit, fine) =
    let one = add_pair_lem dest pair max_len h fit in
    let size = length-append dest (pair_bytes pair) in
    let n : length (dest ++ pair_bytes pair) ≡ length dest + pair_size pair =
      size ∙ ap (λ k. length dest + k) (length-pair_bytes pair) in
    elim (Bool-cases (ltb max_len (length dest + pair_size pair))) [
      | inl e ↦ rw (one, e) (add_pairs_lem max_len dest pairs h fine)
      | inr e ↦
          let (same, small) =
            add_pairs_lem max_len (dest ++ pair_bytes pair) pairs (ground (arith, n)) fine in
          rw (one, e)
            (
              same
                  ∙ (ap (λ k. dest ++ pair_bytes pair ++ all_bytes (fitting max_len k pairs)) n
                      ∙ append_assoc dest (pair_bytes pair)
                          (all_bytes (fitting max_len (length dest + pair_size pair) pairs))),
              small,
            )
    ]

fitting-All :
    (max_len used : ℕ) (pairs : List (List ℕ × List ℕ))
    → All (IsPair max_len) pairs
    → All (IsPair max_len) (fitting max_len used pairs)
      × (length (fitting max_len used pairs) ≤ length pairs)
unfolding fitting
fitting-All max_len used [] h = (tt, omega arith)
fitting-All max_len used (pair ∷ pairs) (h, hs) =
    let (without, few) = fitting-All max_len used pairs hs in
    let (behind, few') = fitting-All max_len (used + pair_size pair) pairs hs in
    elim (Bool-cases (ltb max_len (used + pair_size pair))) [
      | inl e ↦ rw e (without, omega arith)
      | inr e ↦ rw e ((h, behind), omega arith)
    ]

read_pair_empty : read_pair [] ≡ none
unfolding read_pair read_length
read_pair_empty = refl

read_pairs_step :
    (fuel : ℕ) (bs rest : List ℕ) (pair : List ℕ × List ℕ) (pairs : List (List ℕ × List ℕ))
    → read_pair bs ≡ some (pair, rest)
    → read_pairs fuel rest ≡ some pairs
    → read_pairs (suc fuel) bs ≡ some (pair ∷ pairs)
unfolding read_pairs
read_pairs_step fuel [] rest pair pairs one more = absurd (ground (arith, one, read_pair_empty))
read_pairs_step fuel (b ∷ bs) rest pair pairs one more = rw (one, more) refl

pair_bytes_lem :
    (pair : List ℕ × List ℕ) (rest : List ℕ)
    → pair_bytes pair ++ rest
      ≡ pair_length (length pair.0) ++ (pair_length (length pair.1) ++ (pair.0 ++ (pair.1 ++ rest)))
unfolding pair_bytes
pair_bytes_lem pair rest =
    let n = pair_length (length pair.0) in
    let v = pair_length (length pair.1) in
    append_assoc n (v ++ (pair.0 ++ pair.1)) rest
    ∙ ap (λ x. n ++ x)
        (append_assoc v (pair.0 ++ pair.1) rest
          ∙ ap (λ x. v ++ x) (append_assoc pair.0 pair.1 rest))

read_pairs-all_bytes :
    (max_len fuel : ℕ) (pairs : List (List ℕ × List ℕ))
    → All (IsPair max_len) pairs
    → length pairs ≤ fuel
    → read_pairs fuel (all_bytes pairs) ≡ some pairs
unfolding all_bytes read_pairs
read_pairs-all_bytes max_len zero [] h few = refl
read_pairs-all_bytes max_len (suc fuel) [] h few = refl
read_pairs-all_bytes max_len zero (pair ∷ pairs) h few = absurd (omega arith)
read_pairs-all_bytes max_len (suc fuel) (pair ∷ pairs) (h, hs) few =
    let rest = all_bytes pairs in
    let (name, value) = pair_size-bounds max_len pair h in
    read_pairs_step fuel (pair_bytes pair ++ rest) rest pair pairs
      (ap read_pair (pair_bytes_lem pair rest) ∙ read_pair_lem pair.0 pair.1 rest name value)
      (read_pairs-all_bytes max_len fuel pairs hs (omega arith))

-- The pairs that `fcgi_proto_add_pair` puts into an empty buffer never go past its end, and are read back, by
-- the FastCGI specification, as the pairs that fit, in their order, with names and values of either form of
-- length. The size of the buffer and the bytes of any one pair are below 2^31 together, so that the sum
-- that is compared with the size is an `int`.
pub read_pairs-add_pairs :
    (max_len : ℕ) (pairs : List (List ℕ × List ℕ))
    → All (IsPair max_len) pairs
    → (length (add_pairs max_len [] pairs) ≤ max_len)
      × (read_pairs (length pairs) (add_pairs max_len [] pairs) ≡ some (fitting max_len 0 pairs))
read_pairs-add_pairs max_len pairs h =
    let (same, small) = add_pairs_lem max_len [] pairs (omega arith) h in
    let (fit, few) = fitting-All max_len 0 pairs h in
    (
      small,
      ap (read_pairs (length pairs)) same
          ∙ read_pairs-all_bytes max_len (length pairs) (fitting max_len 0 pairs) fit few,
    )
