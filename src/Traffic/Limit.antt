-- ===== src/Traffic/Limit.antt =====
-- The rate limit over a run of requests, src/security/halmos_sec_traffic.c.
use halmos.Base.{
  ℕ, zero, suc, ◌+◌, ◌%◌, ◌≤◌, ◌<◌, ◌≡◌, ◌≢◌, refl, sym, ◌∙◌, ap, subst, inl, inr, true, false,
  some, List, [], ◌∷◌, ltb, if◌then◌else◌, Bool-cases, streq, streq_refl, set, length, length-set,
  arith, ◌⊎◌,
}
use halmos.Traffic.{
  RateEntry, hash_table_size, is_empty, hash_ip, slot, stops_at, probe, find_slot, count_request,
  sec_traffic_is_request_allowed,
}

slot-set_self : (t : List RateEntry) (k : ℕ) (e : RateEntry) → k < length t → slot (set t k e) k ≡ e
slot-set_self [] k e h = absurd (omega arith)
slot-set_self (x ∷ t) zero e h = refl
slot-set_self (x ∷ t) (suc k) e h = slot-set_self t k e (omega arith)

pub slot-set_other :
    (t : List RateEntry) (k j : ℕ) (e : RateEntry) → j ≢ k → slot (set t k e) j ≡ slot t j
slot-set_other [] k j e h = refl
slot-set_other (x ∷ t) zero zero e h = absurd (h refl)
slot-set_other (x ∷ t) zero (suc j) e h = refl
slot-set_other (x ∷ t) (suc k) zero e h = refl
slot-set_other (x ∷ t) (suc k) (suc j) e h = slot-set_other t k j e (λ q. h (ap suc q))

stops-set_self :
    (t : List RateEntry) (ip : List ℕ) (k j : ℕ) (e : RateEntry)
    → k < length t
    → stops_at ip e ≡ true
    → j ≡ k
    → stops_at ip (slot (set t k e) j) ≡ true
stops-set_self t ip k j e lt st q =
    ap (λ x. stops_at ip (slot (set t k e) x)) q ∙ (ap (stops_at ip) (slot-set_self t k e lt) ∙ st)

stops-set_other :
    (t : List RateEntry) (ip : List ℕ) (k j : ℕ) (e : RateEntry)
    → j ≢ k
    → stops_at ip (slot (set t k e) j) ≡ stops_at ip (slot t j)
stops-set_other t ip k j e ne = ap (stops_at ip) (slot-set_other t k j e ne)

stops-set_at :
    (t : List RateEntry) (ip : List ℕ) (k j : ℕ) (e : RateEntry)
    → k < length t
    → j ≡ k
    → stops_at ip (slot (set t k e) j) ≡ stops_at ip e
stops-set_at t ip k j e lt q =
    ap (λ x. stops_at ip (slot (set t k e) x)) q ∙ ap (stops_at ip) (slot-set_self t k e lt)

ℕ_cases : (m n : ℕ) → (m ≡ n) ⊎ (m ≢ n)
ℕ_cases m n = omega arith

-- A slot is found again after a write to it that leaves it a place to stop at.
probe-set :
    (t : List RateEntry) (ip : List ℕ) (index i left k : ℕ) (e : RateEntry)
    → k < length t
    → stops_at ip e ≡ true
    → probe t ip index i left ≡ some k
    → probe (set t k e) ip index i left ≡ some k
unfolding probe
probe-set t ip index i zero k e lt st p = cc
probe-set t ip index i (suc left) k e lt st p =
    let j = (index + i) % hash_table_size in
    ground (
      arith,
      stops-set_self t ip k j e lt st,
      stops-set_other t ip k j e,
      probe-set t ip index (suc i) left k e lt st,
    )

-- The entry of an address is in a window that has not passed, with a count of `c`.
unfoldable pub Counts : List RateEntry → List ℕ → ℕ → ℕ → Type 0
Counts t ip now c =
    (k : ℕ) × (find_slot t ip ≡ some k)
    × (k < length t)
    × ((slot t k).ip ≡ ip)
    × (now ≤ (slot t k).window_start)
    × ((slot t k).count ≡ c)

pub stops_own : (ip : List ℕ) (e : RateEntry) → e.ip ≡ ip → stops_at ip e ≡ true
unfolding stops_at
stops_own ip e q = ground (arith, ap (λ s. streq s ip) q, streq_refl ip)

find_slot-set :
    (t : List RateEntry) (ip : List ℕ) (k : ℕ) (e : RateEntry)
    → k < length t
    → e.ip ≡ ip
    → find_slot t ip ≡ some k
    → find_slot (set t k e) ip ≡ some k
unfolding find_slot
find_slot-set t ip k e lt q f =
    probe-set t ip (hash_ip ip) 0 hash_table_size k e lt (stops_own ip e q) f

-- What a request does to the slot that the probe finds.
pub request_at :
    (t : List RateEntry) (ip : List ℕ) (limit now k : ℕ)
    → is_empty ip ≡ false
    → find_slot t ip ≡ some k
    → sec_traffic_is_request_allowed t ip limit now ≡ (
      set t k (count_request (slot t k) ip limit now).0,
      (count_request (slot t k) ip limit now).1,
    )
unfolding sec_traffic_is_request_allowed
request_at t ip limit now k some_ip f = rw (f, sec_traffic_is_request_allowed, some_ip) refl

abbrev pub next_count : ℕ → ℕ → ℕ
next_count c limit = if ltb limit c then c else c + 1

count_in_window :
    (e : RateEntry) (ip : List ℕ) (limit now : ℕ)
    → is_empty e.ip ≡ false
    → now ≤ e.window_start
    → let (e', ok) = count_request e ip limit now in
      (ok ≡ ltb e.count limit)
      × (e'.ip ≡ e.ip)
      × (e'.window_start ≡ e.window_start)
      × (e'.count ≡ next_count e.count limit)
unfolding count_request
count_in_window e ip limit now some_ip h = ground arith

-- The entry after a write to its slot.
pub Counts-set :
    (t : List RateEntry) (ip : List ℕ) (now k c : ℕ) (e : RateEntry)
    → find_slot t ip ≡ some k
    → k < length t
    → e.ip ≡ ip
    → now ≤ e.window_start
    → e.count ≡ c
    → Counts (set t k e) ip now c
unfolding Counts
Counts-set t ip now k c e f lt q w n =
    let here = slot-set_self t k e lt in
    (
      k,
      find_slot-set t ip k e lt q f,
      subst (λ m. k < m) (sym (length-set t k e)) lt,
      ap (λ x. x.ip) here ∙ q,
      subst (λ m. now ≤ m) (sym (ap (λ x. x.window_start) here)) w,
      ap (λ x. x.count) here ∙ n,
    )

pub request-Counts :
    (t : List RateEntry) (ip : List ℕ) (limit now c : ℕ)
    → is_empty ip ≡ false
    → Counts t ip now c
    → let (t', ok) = sec_traffic_is_request_allowed t ip limit now in
      (ok ≡ ltb c limit) × Counts t' ip now (next_count c limit)
unfolding Counts
request-Counts t ip limit now c some_ip (k, f, lt, q, w, n) =
    let e = slot t k in
    let (ok, own, window, count) = count_in_window e ip limit now (ap is_empty q ∙ some_ip) w in
    rw (request_at t ip limit now k some_ip f) (
      ok ∙ ap (λ m. ltb m limit) n,
      Counts-set t ip now k (next_count c limit) (count_request e ip limit now).0 f lt (own ∙ q)
          (omega arith) (count ∙ ap (λ m. next_count m limit) n),
    )

-- The probe of one address passes the slot of another one as before.
pub probe-set_other :
    (t : List RateEntry) (ip : List ℕ) (index i left k j : ℕ) (e : RateEntry)
    → j ≢ k
    → (stops_at ip (slot t j) ≡ false → stops_at ip e ≡ false)
    → j < length t
    → probe t ip index i left ≡ some k
    → probe (set t j e) ip index i left ≡ some k
unfolding probe
probe-set_other t ip index i zero k j e ne keep lt p = cc
probe-set_other t ip index i (suc left) k j e ne keep lt p =
    let m = (index + i) % hash_table_size in
    elim (ℕ_cases m j) [
      | inl q ↦ ground (
        arith,
        stops-set_at t ip j m e lt q,
        ap (λ x. stops_at ip (slot t x)) q,
        probe-set_other t ip index (suc i) left k j e ne keep lt,
      )
      | inr q ↦ ground (
        arith,
        stops-set_other t ip j m e q,
        probe-set_other t ip index (suc i) left k j e ne keep lt,
      )
    ]

pub probe-stops :
    (t : List RateEntry) (ip : List ℕ) (index i left k : ℕ)
    → probe t ip index i left ≡ some k
    → stops_at ip (slot t k) ≡ true
unfolding probe
probe-stops t ip index i zero k p = cc
probe-stops t ip index i (suc left) k p =
    let m = (index + i) % hash_table_size in
    elim (Bool-cases (stops_at ip (slot t m))) [
      | inl q ↦ subst (λ x. stops_at ip (slot t x) ≡ true) (ground arith) q
      | inr q ↦ probe-stops t ip index (suc i) left k (ground arith)
    ]
