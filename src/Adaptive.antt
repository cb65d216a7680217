-- ===== src/Adaptive.antt =====
-- The sizes that `core_adaptive_init` of src/core/halmos_core_adaptive.c computes from the machine and the
-- configuration. An `int` that overflows is taken to wrap around.
pub mod Bounds
use halmos.Base.{
  ℕ, ◌+◌, ◌-◌, ◌*◌, ◌/◌, ◌%◌, ◌^◌, Bool, true, false, ◌&&◌, ◌||◌, not, Option, some, none, List,
  ltb, leb, ◌==◌, if◌then◌else◌, length,
}
use halmos.Base.Int.{ℤ, pos, negsuc, pos_part, neg_part, ◌+ℤ◌, ◌-ℤ◌, ◌*ℤ◌, ltb_ℤ}
use halmos.Base.Number.{to_int}

-- What the configuration says of a kind of backend; `text` is its extension, or the path for PHP.
pub record Backend : Type 0 where
  pub node_count : ℤ
  pub text : List ℕ
  pub memory_budget : ℤ

-- What the system says, nothing for a call that fails: `sysconf`, `rlim_cur`, and `totalram` with `mem_unit`.
pub record Machine : Type 0 where
  pub num_cores : ℤ
  pub rlim_cur : Option ℕ
  pub memory : Option (ℕ × ℕ)

pub record Sizes : Type 0 where
  pub max_fd : ℕ
  pub worker_max : ℕ
  pub worker_min : ℤ
  pub php_quota : ℤ
  pub python_quota : ℤ
  pub rust_quota : ℤ
  pub pool_size : ℤ
  pub event_batch_size : ℕ
  pub queue_capacity : ℕ

abbrev pub is_positive : ℤ → Bool
is_positive (pos n) = not (n == 0)
is_positive (negsuc n) = false

abbrev pub is_backend_active : Backend → Bool
is_backend_active b = is_positive b.node_count || not (length b.text == 0)

abbrev pub positive_or : ℕ → ℤ → ℕ
positive_or default n = if is_positive n then pos_part n else default

-- `calculated_max_fd`
unfoldable pub max_fd_of : Option ℕ → ℕ
max_fd_of none = 4096
max_fd_of (some rlim) =
    let calculated =
      if rlim == 2 ^ 64 - 1 then 65536 else if ltb (2 ^ 32 - 1) rlim then 2 ^ 32 - 1 else rlim in
    if ltb calculated 64 then 64 else calculated

unfoldable pub total_ram_mb : Option (ℕ × ℕ) → ℕ
total_ram_mb none = 1024
total_ram_mb (some (totalram, mem_unit)) =
    let mb = totalram * mem_unit % 2 ^ 64 / 2 ^ 20 in if mb == 0 then 1024 else mb

-- The memory that is left behind a reserve of a quarter, at least 1024 and at most 4096 MB.
unfoldable pub available_for_web : ℕ → ℕ
available_for_web total =
    let quarter = if ltb (total / 4) 1024 then 1024 else total / 4 in
    let reserved = if ltb 4096 quarter then 4096 else quarter in
    (total + (2 ^ 64 - reserved)) % 2 ^ 64

abbrev pub percent : ℕ → ℕ → ℕ
percent n available = available * n % 2 ^ 64 / 100

-- The shares of PHP, Python and Rust, by which of them are active.
unfoldable pub budgets : Bool → Bool → Bool → ℕ → ℕ × ℕ × ℕ
budgets true true true m = (percent 50 m, percent 30 m, percent 20 m)
budgets true true false m = (percent 60 m, percent 40 m, 0)
budgets true false true m = (percent 70 m, 0, percent 30 m)
budgets false true true m = (0, percent 60 m, percent 40 m)
budgets true false false m = (m, 0, 0)
budgets false true false m = (0, m, 0)
budgets false false true m = (0, 0, m)
budgets false false false m = (0, 0, 0)

abbrev pub max_by_ram : Bool → ℕ → ℕ → ℤ
max_by_ram active budget mem = if active then to_int (budget / mem) else pos 0

-- The last steps of `recommended_val`.
abbrev pub clamp : ℤ → ℕ
clamp val =
    let capped = if ltb_ℤ (pos 1024) val then pos 1024 else val in
    if ltb_ℤ capped (pos 32) then 32 else pos_part capped

-- A result as an `int`.
unfoldable pub int_of : ℤ → ℤ
int_of x = to_int (pos_part x + (2 ^ 32 - neg_part x % 2 ^ 32))

-- `recommended_val`
unfoldable pub recommended : ℤ → ℤ → ℕ
recommended cpu_based_max ram_total =
    let ram_total_max = if ltb_ℤ ram_total (pos 32) then pos 32 else ram_total in
    clamp (if ltb_ℤ cpu_based_max ram_total_max then cpu_based_max else ram_total_max)

abbrev pub python_share : ℕ → ℕ → ℕ → ℤ
python_share rest python_ram rust_ram =
    let total = (python_ram + rust_ram) % 2 ^ 64 in
    if ltb 0 total then to_int (rest * python_ram % 2 ^ 64 / total) else pos (rest / 2)

-- The quotas of Python and Rust out of `sisa_jatah`, which is `rest`.
unfoldable pub share_rest : Bool → Bool → ℕ → ℕ → ℕ → ℤ × ℤ
share_rest true true rest python_ram rust_ram =
    let python = python_share rest python_ram rust_ram in (python, int_of (pos rest -ℤ python))
share_rest true false rest python_ram rust_ram = (pos rest, pos 0)
share_rest false true rest python_ram rust_ram = (pos 0, pos rest)
share_rest false false rest python_ram rust_ram = (pos 0, pos 0)

unfoldable pub queue_capacity_of : ℕ → ℕ → ℕ
queue_capacity_of max_fd worker_max =
    let capacity =
      if ltb worker_max max_fd then (max_fd - worker_max) * 60 % 2 ^ 32 / 100 else 256 in
    let capped = if ltb 4096 capacity then 4096 else capacity in
    if ltb capped 256 then 256 else capped

-- What is left of the workers for Python and Rust, not below zero.
abbrev pub rest_of : ℕ → ℤ → ℕ
rest_of worker_max php_quota = pos_part (int_of (pos worker_max -ℤ php_quota))

-- `max_children` is what the configuration of PHP-FPM gives, a file that is not modelled.
unfoldable pub core_adaptive_init : Machine → Backend → Backend → Backend → ℤ → Sizes
core_adaptive_init machine php python rust max_children =
    let cores = positive_or 1 machine.num_cores in
    let max_fd = max_fd_of machine.rlim_cur in
    let has_php = is_backend_active php in
    let has_python = is_backend_active python in
    let has_rust = is_backend_active rust in
    let (php_ram, python_ram, rust_ram) =
      budgets has_php has_python has_rust (available_for_web (total_ram_mb machine.memory)) in
    let ram_total =
      max_by_ram has_php php_ram (positive_or 20 php.memory_budget)
      +ℤ max_by_ram has_python python_ram (positive_or 40 python.memory_budget)
      +ℤ max_by_ram has_rust rust_ram (positive_or 15 rust.memory_budget) in
    let worker_max = recommended (to_int (cores * 64)) (int_of ram_total) in
    let four_each = int_of (to_int cores *ℤ pos 4) in
    let php_quota = if has_php then max_children else pos 0 in
    let (python_quota, rust_quota) =
      share_rest has_python has_rust (rest_of worker_max php_quota) python_ram rust_ram in
    record {
      max_fd = max_fd;
      worker_max = worker_max;
      worker_min = if ltb_ℤ (pos worker_max) four_each then pos worker_max else four_each;
      php_quota = php_quota;
      python_quota = python_quota;
      rust_quota = rust_quota;
      pool_size = int_of (php_quota +ℤ rust_quota +ℤ python_quota);
      event_batch_size = if ltb 1024 worker_max then 1024 else worker_max;
      queue_capacity = queue_capacity_of max_fd worker_max;
    }
