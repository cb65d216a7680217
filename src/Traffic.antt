-- ===== src/Traffic.antt =====
-- The rate limiter, src/security/halmos_sec_traffic.c: a table with linear probing, one entry for each
-- address. The clock is an argument; the mutex makes each call one step.
pub mod Limit
pub mod Run
use halmos.Base.{
  ℕ, zero, suc, ◌+◌, ◌-◌, ◌*◌, ◌%◌, ◌^◌, Bool, true, false, ◌&&◌, ◌||◌, not, Option, none, some,
  List, [], ◌∷◌, map, ltb, ◌==◌, if◌then◌else◌, streq, take, get_or, set, replicate,
}

-- `ip` as a C string; an `int` counter that is never negative.
pub record RateEntry : Type 0 where
  pub ip : List ℕ
  pub count : ℕ
  pub window_start : ℕ

abbrev pub hash_table_size : ℕ
hash_table_size = 10007

-- What `memset` leaves.
abbrev pub empty_entry : RateEntry
empty_entry = record { ip = []; count = 0; window_start = 0 }

abbrev pub is_empty : List ℕ → Bool
is_empty [] = true
is_empty (c ∷ s) = false

-- The characters of an address are ASCII.
unfoldable pub hash_loop : ℕ → List ℕ → ℕ
hash_loop hash [] = hash
hash_loop hash (c ∷ str) = hash_loop ((hash * 33 + c) % 2 ^ 64) str

unfoldable pub hash_ip : List ℕ → ℕ
unfolding hash_loop
hash_ip str = hash_loop 5381 str % hash_table_size

abbrev pub slot : List RateEntry → ℕ → RateEntry
slot table i = get_or table i empty_entry

-- The loop's two ways to stop at a slot: it is empty, or it holds the address.
unfoldable pub stops_at : List ℕ → RateEntry → Bool
stops_at ip e = is_empty e.ip || streq e.ip ip

-- The slot at which the loop stops; `i` counts up, the last argument the rounds that are left.
unfoldable pub probe : List RateEntry → List ℕ → ℕ → ℕ → ℕ → Option ℕ
probe table ip index i zero = none
probe table ip index i (suc left) =
    let current_idx = (index + i) % hash_table_size in
    let rest = probe table ip index (suc i) left in
    if stops_at ip (slot table current_idx) then some current_idx else rest

unfoldable pub find_slot : List RateEntry → List ℕ → Option ℕ
unfolding probe hash_ip
find_slot table ip = probe table ip (hash_ip ip) 0 hash_table_size

-- `strncpy(…, 45)` on a buffer that ends in a NUL.
abbrev pub copied_ip : List ℕ → List ℕ
copied_ip ip = take 45 ip

-- The entry written at the slot, and the answer.
unfoldable pub count_request : RateEntry → List ℕ → ℕ → ℕ → RateEntry × Bool
count_request e ip limit_per_sec now =
    if is_empty e.ip
    then (record { ip = copied_ip ip; count = 1; window_start = now }, true)
    else if ltb e.window_start now
    then (record { ip = e.ip; count = 1; window_start = now }, true)
    else if ltb e.count limit_per_sec
    then (record { ip = e.ip; count = e.count + 1; window_start = e.window_start }, true)
    else (
      record {
        ip = e.ip;
        count = if e.count == limit_per_sec then e.count + 1 else e.count;
        window_start = e.window_start;
      },
      false,
    )

unfoldable pub sec_traffic_is_request_allowed :
    List RateEntry → List ℕ → ℕ → ℕ → List RateEntry × Bool
sec_traffic_is_request_allowed table client_ip limit_per_sec now =
    if is_empty client_ip then (table, true) else elim (find_slot table client_ip) [
      | none ↦ (table, true)
      | some k ↦
          let (e, allowed) = count_request (slot table k) client_ip limit_per_sec now in
          (set table k e, allowed)
    ]

unfoldable pub reset_rate_limits : List RateEntry
reset_rate_limits = replicate hash_table_size empty_entry

-- An entry is stale 10 seconds after its window started.
unfoldable pub is_stale : ℕ → RateEntry → Bool
is_stale now e = not (is_empty e.ip) && ltb (e.window_start + 10) now

unfoldable pub clean_old_rate_limits : List RateEntry → ℕ → List RateEntry
unfolding is_stale
clean_old_rate_limits table now = map (λ e. if is_stale now e then empty_entry else e) table

-- Requests of several addresses within one second, in the order in which they take the mutex: how
-- many of one address are allowed.
unfoldable pub allowed_of : List ℕ → List RateEntry → List (List ℕ) → ℕ → ℕ → ℕ
allowed_of ip table [] limit_per_sec now = 0
allowed_of ip table (client_ip ∷ requests) limit_per_sec now =
    let (table', allowed) = sec_traffic_is_request_allowed table client_ip limit_per_sec now in
    let rest = allowed_of ip table' requests limit_per_sec now in
    if streq client_ip ip && allowed then suc rest else rest

unfoldable pub requests_of : List ℕ → List (List ℕ) → ℕ
requests_of ip [] = 0
requests_of ip (client_ip ∷ requests) =
    let rest = requests_of ip requests in if streq client_ip ip then suc rest else rest
