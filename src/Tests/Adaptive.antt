-- ===== src/Tests/Adaptive.antt =====
-- Runs of src/core/halmos_core_adaptive.c.
use halmos.Base.{◌≡◌, refl, true, some, [], codes, arith}
use halmos.Base.Int.{pos, ◌+ℤ◌}
use halmos.Base.Number.{to_int}
use halmos.Adaptive.{
  Backend, Machine, core_adaptive_init, int_of, total_ram_mb, max_fd_of, available_for_web, budgets,
  recommended,
}
use halmos.Adaptive.Bounds.{
  IsSized, IsShared, core_adaptive_init-IsSized, core_adaptive_init-IsShared,
}

-- Eight cores, 65536 files and 16 GB.
abbrev eight_cores : Machine
eight_cores = record { num_cores = pos 8; rlim_cur = some 65536; memory = some (16384, 1048576) }

abbrev php_fpm : Backend
php_fpm = record { node_count = pos 1; text = []; memory_budget = pos 0 }

abbrev python_apps : Backend
python_apps = record { node_count = pos 0; text = codes ".py"; memory_budget = pos 64 }

abbrev no_rust : Backend
no_rust = record { node_count = pos 0; text = []; memory_budget = pos 0 }

core_adaptive_init-IsSized_example :
    IsSized (core_adaptive_init eight_cores php_fpm python_apps no_rust (pos 50))
core_adaptive_init-IsSized_example =
    core_adaptive_init-IsSized eight_cores php_fpm python_apps no_rust (pos 50)

sixteen_gb : total_ram_mb (some (16384, 1048576)) ≡ 16384
unfolding total_ram_mb
sixteen_gb = refl

core_adaptive_init-IsShared_example :
    IsShared true (core_adaptive_init eight_cores php_fpm python_apps no_rust (pos 50))
core_adaptive_init-IsShared_example =
    core_adaptive_init-IsShared eight_cores php_fpm python_apps no_rust 50
      (omega (arith, sixteen_gb)) (omega (arith, sixteen_gb)) (omega arith)

workers_of_eight_cores :
    (core_adaptive_init eight_cores php_fpm python_apps no_rust (pos 50)).worker_max ≡ 444
unfolding core_adaptive_init total_ram_mb max_fd_of available_for_web budgets recommended to_int
    ◌+ℤ◌ int_of
workers_of_eight_cores = refl
