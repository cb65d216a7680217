-- ===== src/Tests/Traffic.antt =====
-- Runs of the rate limiter, src/security/halmos_sec_traffic.c.
use halmos.Base.{
  ℕ, ◌≡◌, refl, ap, inl, zero, suc, ◌+◌, ◌%◌, ◌<◌, streq, true, some, List, [], ◌∷◌, codes,
  replicate, length, length-replicate, arith,
}
use halmos.Traffic.{
  RateEntry, hash_table_size, empty_entry, is_empty, hash_ip, find_slot, probe, stops_at, slot,
  allowed_of, requests_of, reset_rate_limits,
}
use halmos.Traffic.Run.{allowed_of-limit}

abbrev busy_ip : List ℕ
busy_ip = codes "10.0.0.1"

-- Three more requests of the address, and one of another between them, with a limit of 2.
abbrev others : List (List ℕ)
others = busy_ip ∷ codes "10.0.0.2" ∷ busy_ip ∷ busy_ip ∷ []

slot-replicate : (n i : ℕ) → slot (replicate n empty_entry) i ≡ empty_entry
slot-replicate zero i = refl
slot-replicate (suc n) zero = refl
slot-replicate (suc n) (suc i) = slot-replicate n i

slot-cleared : (i : ℕ) → slot reset_rate_limits i ≡ empty_entry
unfolding reset_rate_limits
slot-cleared i = slot-replicate hash_table_size i

length-cleared : length reset_rate_limits ≡ hash_table_size
unfolding reset_rate_limits
length-cleared = length-replicate hash_table_size empty_entry

stops_empty : (ip : List ℕ) (e : RateEntry) → e ≡ empty_entry → stops_at ip e ≡ true
unfolding stops_at
stops_empty ip e q = ground (arith, ap (λ x. is_empty x.ip) q)

probe-cleared :
    (t : List RateEntry) (ip : List ℕ) (index n : ℕ)
    → ((i : ℕ) → slot t i ≡ empty_entry)
    → index < hash_table_size
    → probe t ip index 0 (suc n) ≡ some index
unfolding probe
probe-cleared t ip index n h lt =
    let j = (index + 0) % hash_table_size in ground (arith, stops_empty ip (slot t j) (h j))

find_slot-cleared :
    (t : List RateEntry) (ip : List ℕ)
    → ((i : ℕ) → slot t i ≡ empty_entry)
    → find_slot t ip ≡ some (hash_ip ip)
unfolding find_slot hash_ip
find_slot-cleared t ip h = probe-cleared t ip (hash_ip ip) 10006 h (omega arith)

-- On the cleared table, of four requests of one address the first two are allowed.
allowed_of-limit_example : allowed_of busy_ip reset_rate_limits (busy_ip ∷ others) 2 1000 ≡ 2
unfolding requests_of streq
allowed_of-limit_example =
    allowed_of-limit others reset_rate_limits busy_ip 2 1000 (hash_ip busy_ip) refl (omega arith)
      length-cleared (omega arith) (find_slot-cleared reset_rate_limits busy_ip slot-cleared)
      (inl (ap (λ e. is_empty e.ip) (slot-cleared (hash_ip busy_ip))))
