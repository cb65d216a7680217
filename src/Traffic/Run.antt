-- ===== src/Traffic/Run.antt =====
-- The rate limit over a run of requests of many addresses, src/security/halmos_sec_traffic.c.
use halmos.Base.{
  ℕ, zero, suc, ◌+◌, ◌-◌, ◌%◌, ◌≤◌, ◌<◌, min, ◌≡◌, ◌≢◌, refl, sym, ◌∙◌, ap, subst, inl, inr, true,
  false, none, some, List, [], ◌∷◌, Bool-cases, Option-cases, streq, streq-eq, streq_refl, take_all,
  set, length, length-set, arith, ◌⊎◌,
}
use halmos.Traffic.{
  RateEntry, hash_table_size, is_empty, hash_ip, slot, stops_at, probe, find_slot, count_request,
  sec_traffic_is_request_allowed, allowed_of, requests_of,
}
use halmos.Traffic.Limit.{
  slot-set_other, Counts, next_count, probe-set_other, probe-stops, request_at, Counts-set,
  request-Counts,
}

probe-lt :
    (t : List RateEntry) (ip : List ℕ) (index i left k : ℕ)
    → probe t ip index i left ≡ some k
    → k < hash_table_size
unfolding probe
probe-lt t ip index i zero k p = cc
probe-lt t ip index i (suc left) k p =
    elim (Bool-cases (stops_at ip (slot t ((index + i) % hash_table_size)))) [
      | inl q ↦ ground arith
      | inr q ↦ probe-lt t ip index (suc i) left k (ground arith)
    ]

find_slot-stops :
    (t : List RateEntry) (ip : List ℕ) (k : ℕ)
    → find_slot t ip ≡ some k
    → (stops_at ip (slot t k) ≡ true) × (k < hash_table_size)
unfolding find_slot
find_slot-stops t ip k f = (
  probe-stops t ip (hash_ip ip) 0 hash_table_size k f,
  probe-lt t ip (hash_ip ip) 0 hash_table_size k f,
)

find_slot-set_other :
    (t : List RateEntry) (ip : List ℕ) (k j : ℕ) (e : RateEntry)
    → j ≢ k
    → (stops_at ip (slot t j) ≡ false → stops_at ip e ≡ false)
    → j < length t
    → find_slot t ip ≡ some k
    → find_slot (set t j e) ip ≡ some k
unfolding find_slot
find_slot-set_other t ip k j e ne keep lt f =
    probe-set_other t ip (hash_ip ip) 0 hash_table_size k j e ne keep lt f

-- A request leaves the address of an entry that is in use.
count_request-keeps :
    (e : RateEntry) (ip other : List ℕ) (limit now : ℕ)
    → stops_at ip e ≡ false
    → stops_at ip (count_request e other limit now).0 ≡ false
unfolding count_request stops_at
count_request-keeps e ip other limit now h = ground arith

stops_other :
    (e : RateEntry) (ip other : List ℕ)
    → is_empty ip ≡ false
    → e.ip ≡ ip
    → stops_at other e ≡ true
    → ip ≡ other
unfolding stops_at
stops_other e ip other some_ip q h =
    streq-eq ip other (subst (λ s. streq s other ≡ true) q (ground (arith, ap is_empty q)))

request_empty :
    (t : List RateEntry) (ip : List ℕ) (limit now : ℕ)
    → is_empty ip ≡ true
    → sec_traffic_is_request_allowed t ip limit now ≡ (t, true)
unfolding sec_traffic_is_request_allowed
request_empty t ip limit now q = ground arith

request_full :
    (t : List RateEntry) (ip : List ℕ) (limit now : ℕ)
    → is_empty ip ≡ false
    → find_slot t ip ≡ none
    → sec_traffic_is_request_allowed t ip limit now ≡ (t, true)
unfolding sec_traffic_is_request_allowed
request_full t ip limit now q f = rw (f, sec_traffic_is_request_allowed, q) refl

true_not_false : true ≢ false
true_not_false h = cc

count_opens :
    (e : RateEntry) (ip : List ℕ) (limit now : ℕ)
    → length ip ≤ 45
    → stops_at ip e ≡ true
    → (is_empty e.ip ≡ true) ⊎ (e.window_start < now)
    → let (e', ok) = count_request e ip limit now in
      (ok ≡ true) × (e'.ip ≡ ip) × (e'.window_start ≡ now) × (e'.count ≡ 1)
unfolding count_request stops_at
count_opens e ip limit now short stop first = ground (arith, take_all 45 ip short, streq-eq e.ip ip)

-- A request of another address does not touch the count.
request-other :
    (t : List RateEntry) (ip other : List ℕ) (limit now c : ℕ)
    → is_empty ip ≡ false
    → length t ≡ hash_table_size
    → other ≢ ip
    → Counts t ip now c
    → Counts (sec_traffic_is_request_allowed t other limit now).0 ip now c
unfolding Counts
request-other t ip other limit now c some_ip len ne (k, f, lt, q, w, n) =
    elim (Bool-cases (is_empty other)) [
      | inl none_ip ↦
          subst (λ x. Counts x.0 ip now c) (sym (request_empty t other limit now none_ip))
            (k, f, lt, q, w, n)
      | inr some_other ↦ elim (Option-cases (find_slot t other)) [
        | inl full ↦
            subst (λ x. Counts x.0 ip now c) (sym (request_full t other limit now some_other full))
              (k, f, lt, q, w, n)
        | inr (j, g) ↦
            let (stop, small) = find_slot-stops t other j g in
            let apart = λ (r : j ≡ k). ne (
              sym (
                stops_other (slot t k) ip other some_ip q
                  (subst (λ m. stops_at other (slot t m) ≡ true) r stop))) in
            let e = (count_request (slot t j) other limit now).0 in
            let there = slot-set_other t j k e (λ r. apart (sym r)) in
            rw (request_at t other limit now j some_other g) (
              k,
              find_slot-set_other t ip k j e apart
                  (count_request-keeps (slot t j) ip other limit now) (omega arith) f,
              omega (arith, length-set t j e),
              ap (λ x. x.ip) there ∙ q,
              subst (λ x. now ≤ x.window_start) (sym there) w,
              ap (λ x. x.count) there ∙ n,
            )
      ]
    ]

request-length :
    (t : List RateEntry) (other : List ℕ) (limit now : ℕ)
    → length (sec_traffic_is_request_allowed t other limit now).0 ≡ length t
unfolding sec_traffic_is_request_allowed
request-length t other limit now = elim (Bool-cases (is_empty other)) [
  | inl q ↦ ground arith
  | inr q ↦ elim (Option-cases (find_slot t other)) [
    | inl full ↦ rw (full, sec_traffic_is_request_allowed) (ground arith)
    | inr (j, g) ↦ rw (request_at t other limit now j q g) (length-set t j _)
  ]
]

allowed_of-Counts :
    (requests : List (List ℕ)) (t : List RateEntry) (ip : List ℕ) (limit now c : ℕ)
    → is_empty ip ≡ false
    → length t ≡ hash_table_size
    → Counts t ip now c
    → allowed_of ip t requests limit now ≡ min (requests_of ip requests) (limit - c)
unfolding allowed_of requests_of
allowed_of-Counts [] t ip limit now c some_ip len h = omega arith
allowed_of-Counts (other ∷ requests) t ip limit now c some_ip len h =
    let t' = (sec_traffic_is_request_allowed t other limit now).0 in
    let len' = request-length t other limit now ∙ len in
    elim (Bool-cases (streq other ip)) [
      | inl q ↦
          let r = streq-eq other ip q in
          let (answer, h') = request-Counts t ip limit now c some_ip h in
          let ok = ap (λ x. (sec_traffic_is_request_allowed t x limit now).1) r ∙ answer in
          let h'' =
            subst
              (λ x.
                Counts (sec_traffic_is_request_allowed t x limit now).0 ip now (next_count c limit))
              (sym r) h' in
          ground (
            arith,
            q,
            ok,
            allowed_of-Counts requests t' ip limit now (next_count c limit) some_ip len' h'',
          )
      | inr q ↦
          let ne : other ≢ ip = λ r.
            absurd
              (true_not_false (sym (subst (λ x. streq x ip ≡ true) (sym r) (streq_refl ip)) ∙ q)) in
          ground (
            arith,
            q,
            allowed_of-Counts requests t' ip limit now c some_ip len'
                (request-other t ip other limit now c some_ip len ne h),
          )
    ]

-- The request that opens a window: at an empty slot, or at an entry whose window has passed.
opens :
    (t : List RateEntry) (ip : List ℕ) (limit now k : ℕ)
    → is_empty ip ≡ false
    → length ip ≤ 45
    → length t ≡ hash_table_size
    → find_slot t ip ≡ some k
    → (is_empty (slot t k).ip ≡ true) ⊎ ((slot t k).window_start < now)
    → let (t', ok) = sec_traffic_is_request_allowed t ip limit now in
      (ok ≡ true) × Counts t' ip now 1
opens t ip limit now k some_ip short len f first =
    let (stop, small) = find_slot-stops t ip k f in
    let (ok, own, window, count) = count_opens (slot t k) ip limit now short stop first in
    rw (request_at t ip limit now k some_ip f) (
      ok,
      Counts-set t ip now k 1 (count_request (slot t k) ip limit now).0 f (omega arith) own
          (omega arith) count,
    )

-- In a table with room, from the first request of an address (of 1 to 45 characters) in a new second
-- on, exactly the first `limit_per_sec` of its requests within that second are allowed, whatever
-- requests of other addresses come between them.
pub allowed_of-limit :
    (requests : List (List ℕ)) (t : List RateEntry) (ip : List ℕ) (limit now k : ℕ)
    → is_empty ip ≡ false
    → length ip ≤ 45
    → length t ≡ hash_table_size
    → 0 < limit
    → find_slot t ip ≡ some k
    → (is_empty (slot t k).ip ≡ true) ⊎ ((slot t k).window_start < now)
    → allowed_of ip t (ip ∷ requests) limit now ≡ min (requests_of ip (ip ∷ requests)) limit
unfolding allowed_of requests_of
allowed_of-limit requests t ip limit now k some_ip short len some_limit f first =
    let (ok, h) = opens t ip limit now k some_ip short len f first in
    let t' = (sec_traffic_is_request_allowed t ip limit now).0 in
    ground (
      arith,
      ok,
      streq_refl ip,
      allowed_of-Counts requests t' ip limit now 1 some_ip (request-length t ip limit now ∙ len) h,
    )
