-- ===== src/Adaptive/Bounds.antt =====
-- The limits that the sizes of src/core/halmos_core_adaptive.c keep.
use native.Mathlib.Nat.{div-le_of_le-mul, mod-eq_of_lt, mul-le-mul_left, mul-le-mul}
use halmos.Base.{
  ℕ, ◌+◌, ◌-◌, ◌*◌, ◌/◌, ◌%◌, ◌^◌, ◌≤◌, ◌<◌, ◌≡◌, refl, subst, sym, ap, ◌∙◌, inl, inr, Bool, true,
  false, ◌||◌, Option, some, none, ltb, if◌then◌else◌, Bool-cases, arith,
}
use halmos.Base.Int.{ℤ, pos, negsuc, ◌+ℤ◌, ◌-ℤ◌, ◌*ℤ◌, ◌≤ℤ◌, ltb_ℤ}
use halmos.Base.Number.{to_int}
use halmos.Adaptive.{
  positive_or, Backend, Machine, Sizes, is_backend_active, max_fd_of, total_ram_mb,
  available_for_web, percent, budgets, clamp, recommended, share_rest, python_share,
  queue_capacity_of, rest_of, int_of, core_adaptive_init,
}

clamp-bounds : (val : ℤ) → (32 ≤ clamp val) × (clamp val ≤ 1024)
clamp-bounds (pos n) = ground arith
clamp-bounds (negsuc n) = ground arith

recommended-bounds : (cpu ram : ℤ) → (32 ≤ recommended cpu ram) × (recommended cpu ram ≤ 1024)
unfolding recommended
recommended-bounds cpu ram =
    let most = if ltb_ℤ ram (pos 32) then pos 32 else ram in
    clamp-bounds (if ltb_ℤ cpu most then cpu else most)

queue_capacity-bounds :
    (max_fd worker_max : ℕ)
    → (256 ≤ queue_capacity_of max_fd worker_max) × (queue_capacity_of max_fd worker_max ≤ 4096)
unfolding queue_capacity_of
queue_capacity-bounds max_fd worker_max = ground arith

max_fd-bounds : (rlim : Option ℕ) → (64 ≤ max_fd_of rlim) × (max_fd_of rlim < 2 ^ 32)
unfolding max_fd_of
max_fd-bounds none = ground arith
max_fd-bounds (some rlim) = ground arith

≤ℤ_refl : (a : ℤ) → a ≤ℤ a
≤ℤ_refl a = omega arith

ge_ℤ : (a b : ℤ) → ltb_ℤ a b ≡ false → b ≤ℤ a
ge_ℤ a b e = ground (arith, e)

smaller_ℤ : (a b : ℤ) → (if ltb_ℤ a b then a else b) ≤ℤ a
smaller_ℤ a b = elim (Bool-cases (ltb_ℤ a b)) [
  | inl e ↦ rw e (≤ℤ_refl a)
  | inr e ↦ rw e (omega (arith, ge_ℤ a b e))
]

batch-bounds :
    (n : ℕ)
    → 32 ≤ n
    → (1 ≤ (if ltb 1024 n then 1024 else n)) × ((if ltb 1024 n then 1024 else n) ≤ 1024)
batch-bounds n h = ground arith

-- What the rest of the server relies on.
pub record IsSized (s : Sizes) : Type 0 where
  pub workers : (32 ≤ s.worker_max) × (s.worker_max ≤ 1024)
  pub least : s.worker_min ≤ℤ pos s.worker_max
  pub batch : (1 ≤ s.event_batch_size) × (s.event_batch_size ≤ 1024)
  pub queue : (256 ≤ s.queue_capacity) × (s.queue_capacity ≤ 4096)
  pub files : (64 ≤ s.max_fd) × (s.max_fd < 2 ^ 32)

-- Whatever the machine and the configuration say, there are between 32 and 1024 workers at most and not more at
-- least, a batch of 1 to 1024 events, a queue of 256 to 4096 tasks, and 64 files or more.
pub core_adaptive_init-IsSized :
    (machine : Machine) (php python rust : Backend) (max_children : ℤ)
    → IsSized (core_adaptive_init machine php python rust max_children)
unfolding core_adaptive_init
core_adaptive_init-IsSized machine php python rust max_children =
    let s = core_adaptive_init machine php python rust max_children in
    let four_each = int_of (to_int (positive_or 1 machine.num_cores) *ℤ pos 4) in
    record {
      workers = recommended-bounds _ _;
      least = smaller_ℤ (pos s.worker_max) four_each;
      batch = batch-bounds _ (recommended-bounds _ _).0;
      queue = queue_capacity-bounds _ _;
      files = max_fd-bounds _;
    }

available-bounds : (total : ℕ) → 1024 ≤ total → total < 2 ^ 40 → available_for_web total ≤ total
unfolding available_for_web
available-bounds total low high = ground arith

to_int_small : (n : ℕ) → n < 2 ^ 31 → to_int n ≡ pos n
unfolding to_int
to_int_small n h = ground arith

percent-bounds : (n m : ℕ) → n ≤ 100 → m < 2 ^ 40 → percent n m ≤ m
percent-bounds n m h h' =
    let product : m * n ≤ 100 * m = omega (arith, mul-le-mul_left m h) in
    let same : m * n % 2 ^ 64 ≡ m * n = mod-eq_of_lt (omega arith) in
    rw same (div-le_of_le-mul 100 product)

int_of_small : (n : ℕ) → n < 2 ^ 31 → int_of (pos n) ≡ pos n
unfolding int_of to_int
int_of_small n h = ground arith

minus_ℤ : (a b : ℕ) → b ≤ a → a < 2 ^ 31 → int_of (pos a -ℤ pos b) ≡ pos (a - b)
unfolding ◌-ℤ◌
minus_ℤ a b h small =
    let e : pos a -ℤ pos b ≡ pos (a - b) = ground arith in
    ap int_of e ∙ int_of_small (a - b) (omega arith)

budgets-bounds :
    (a b c : Bool) (m : ℕ) → m < 2 ^ 40 → ((budgets a b c m).1 ≤ m) × ((budgets a b c m).2 ≤ m)
unfolding budgets
budgets-bounds true true true m h =
    (percent-bounds 30 m (omega arith) h, percent-bounds 20 m (omega arith) h)
budgets-bounds true true false m h = (percent-bounds 40 m (omega arith) h, omega arith)
budgets-bounds true false true m h = (omega arith, percent-bounds 30 m (omega arith) h)
budgets-bounds false true true m h =
    (percent-bounds 60 m (omega arith) h, percent-bounds 40 m (omega arith) h)
budgets-bounds true false false m h = (omega arith, omega arith)
budgets-bounds false true false m h = (omega arith, omega arith)
budgets-bounds false false true m h = (omega arith, omega arith)
budgets-bounds false false false m h = (omega arith, omega arith)

-- Two parts, not negative, of a whole.
record AreParts (rest : ℕ) (parts : ℤ × ℤ) : Type 0 where
  python : ℕ
  rust : ℕ
  python_part : parts.0 ≡ pos python
  rust_part : parts.1 ≡ pos rust
  whole : python + rust ≡ rest

share-AreParts :
    (rest python : ℕ)
    → python ≤ rest
    → rest < 2 ^ 20
    → AreParts rest (pos python, int_of (pos rest -ℤ pos python))
share-AreParts rest python h small = record {
  python = python;
  rust = rest - python;
  python_part = refl;
  rust_part = minus_ℤ rest python h (omega arith);
  whole = omega arith;
}

quota-bounds : (rest a total : ℕ) → a ≤ total → rest * a / total ≤ rest
quota-bounds rest a total h =
    let product : rest * a ≤ total * rest = omega (arith, mul-le-mul_left rest h) in
    div-le_of_le-mul total product

python_share-bounds :
    (rest p r : ℕ)
    → rest < 2 ^ 20
    → p < 2 ^ 40
    → r < 2 ^ 40
    → (q : ℕ) × (python_share rest p r ≡ pos q) × (q ≤ rest)
python_share-bounds rest p r h hp hr =
    let whole : (p + r) % 2 ^ 64 ≡ p + r = mod-eq_of_lt (omega arith) in
    let n : rest ≤ 2 ^ 20 = omega arith in
    let m : p ≤ 2 ^ 40 = omega arith in
    let product : rest * p % 2 ^ 64 ≡ rest * p = mod-eq_of_lt (omega (arith, mul-le-mul n m)) in
    let most = quota-bounds rest p (p + r) (omega arith) in
    elim (Bool-cases (ltb 0 (p + r))) [
      | inl e ↦ (
        rest * p / (p + r),
        (rw (whole, e, product) (to_int_small (rest * p / (p + r)) (omega (arith, most)))),
        most,
      )
      | inr e ↦ (rest / 2, (rw (whole, e) refl), omega arith)
    ]

share_rest-AreParts :
    (has_python has_rust : Bool) (rest python_ram rust_ram : ℕ)
    → rest < 2 ^ 20
    → python_ram < 2 ^ 40
    → rust_ram < 2 ^ 40
    → AreParts
        (if has_python || has_rust then rest else 0)
        (share_rest has_python has_rust rest python_ram rust_ram)
unfolding share_rest
share_rest-AreParts true true rest p r h hp hr =
    let (q, same, small) = python_share-bounds rest p r h hp hr in
    subst (λ z. AreParts rest (z, int_of (pos rest -ℤ z))) (sym same)
      (share-AreParts rest q small h)
share_rest-AreParts true false rest p r h hp hr = record {
  python = rest;
  rust = 0;
  python_part = refl;
  rust_part = refl;
  whole = omega arith;
}
share_rest-AreParts false true rest p r h hp hr = record {
  python = 0;
  rust = rest;
  python_part = refl;
  rust_part = refl;
  whole = omega arith;
}
share_rest-AreParts false false rest p r h hp hr = record {
  python = 0;
  rust = 0;
  python_part = refl;
  rust_part = refl;
  whole = omega arith;
}

-- No quota is negative, the pool is as large as their sum, and what PHP leaves of the workers is shared by the
-- others without a remainder, if `others` says that one of them is configured.
pub record IsShared (others : Bool) (s : Sizes) : Type 0 where
  pub php : ℕ
  pub python : ℕ
  pub rust : ℕ
  pub php_part : s.php_quota ≡ pos php
  pub python_part : s.python_quota ≡ pos python
  pub rust_part : s.rust_quota ≡ pos rust
  pub pool : s.pool_size ≡ pos (php + python + rust)
  pub whole : python + rust ≡ (if others then s.worker_max - php else 0)

pos_sum : (a b c : ℕ) → a + c + b < 2 ^ 31 → int_of (pos a +ℤ pos b +ℤ pos c) ≡ pos (a + c + b)
unfolding ◌+ℤ◌
pos_sum a b c h =
    let e : pos a +ℤ pos b +ℤ pos c ≡ pos (a + c + b) = ground arith in
    ap int_of e ∙ int_of_small (a + c + b) h

rest_of_lem : (most php : ℕ) → most ≤ 1024 → php < 2 ^ 31 → rest_of most (pos php) ≡ most - php
unfolding ◌-ℤ◌ int_of to_int
rest_of_lem most php h small = ground arith

quota_lem : (b : Bool) (k : ℕ) → (if b then pos k else pos 0) ≡ pos (if b then k else 0)
quota_lem true k = refl
quota_lem false k = refl

quota_small : (b : Bool) (k : ℕ) → k < 2 ^ 31 - 1024 → (if b then k else 0) < 2 ^ 31 - 1024
quota_small true k h = h
quota_small false k h = omega arith

part-bounds : (b : Bool) (m n k : ℕ) → m ≤ 1024 → n ≡ (if b then m - k else 0) → n ≤ 1024
part-bounds true m n k h e = omega (arith, e)
part-bounds false m n k h e = omega (arith, e)

shared :
    (others : Bool) (s : Sizes) (php : ℕ)
    → s.php_quota ≡ pos php
    → php < 2 ^ 31 - 1024
    → s.worker_max ≤ 1024
    → s.pool_size ≡ int_of (s.php_quota +ℤ s.rust_quota +ℤ s.python_quota)
    → AreParts (if others then s.worker_max - php else 0) (s.python_quota, s.rust_quota)
    → IsShared others s
shared others s php e fits small pool parts =
    let few = part-bounds others s.worker_max (parts.python + parts.rust) php small parts.whole in
    record {
      php = php;
      python = parts.python;
      rust = parts.rust;
      php_part = e;
      python_part = parts.python_part;
      rust_part = parts.rust_part;
      pool =
          pool
          ∙ ap (λ x. int_of (x +ℤ s.rust_quota +ℤ s.python_quota)) e
          ∙ ap (λ x. int_of (pos php +ℤ x +ℤ s.python_quota)) parts.rust_part
          ∙ ap (λ x. int_of (pos php +ℤ pos parts.rust +ℤ x)) parts.python_part
          ∙ pos_sum php parts.rust parts.python (omega (arith, few, fits));
      whole = parts.whole;
    }

-- With 1 GB of memory or more (less than 2^40 MB) and a `max_children` of 0 to 2^31 - 1025, no quota is negative,
-- the pool is as large as their sum, and Python and Rust have together what the quota of PHP leaves of the
-- workers, or nothing if neither of them is configured or PHP's quota takes all the workers.
pub core_adaptive_init-IsShared :
    (machine : Machine) (php python rust : Backend) (max_children : ℕ)
    → 1024 ≤ total_ram_mb machine.memory
    → total_ram_mb machine.memory < 2 ^ 40
    → max_children < 2 ^ 31 - 1024
    → IsShared
        (is_backend_active python || is_backend_active rust)
        (core_adaptive_init machine php python rust (pos max_children))
unfolding core_adaptive_init
core_adaptive_init-IsShared machine php python rust max_children low high int =
    let s = core_adaptive_init machine php python rust (pos max_children) in
    let others = is_backend_active python || is_backend_active rust in
    let quota = if is_backend_active php then max_children else 0 in
    let available = available_for_web (total_ram_mb machine.memory) in
    let small : available < 2 ^ 40 =
      omega (arith, available-bounds (total_ram_mb machine.memory) low high) in
    let shares =
      budgets (is_backend_active php) (is_backend_active python) (is_backend_active rust)
        available in
    let (fits, fits') =
      budgets-bounds (is_backend_active php) (is_backend_active python) (is_backend_active rust)
        available small in
    let most = (core_adaptive_init-IsSized machine php python rust (pos max_children)).workers.1 in
    let q : s.php_quota ≡ pos quota = quota_lem (is_backend_active php) max_children in
    let quota_fits : quota < 2 ^ 31 - 1024 = quota_small (is_backend_active php) max_children int in
    let rest : rest_of s.worker_max s.php_quota ≡ s.worker_max - quota =
      ap (rest_of s.worker_max) q
      ∙ rest_of_lem s.worker_max quota most (omega (arith, quota_fits)) in
    let parts =
      share_rest-AreParts (is_backend_active python) (is_backend_active rust)
        (rest_of s.worker_max s.php_quota) shares.1 shares.2 (omega (arith, rest, most))
        (omega (arith, fits, small)) (omega (arith, fits', small)) in
    shared others s quota q quota_fits most refl
      (subst (λ n. AreParts (if others then n else 0) (s.python_quota, s.rust_quota)) rest parts)
