-- ===== src/Base/Bits.antt =====
-- Masks and exclusive or on single bytes, as arithmetic. Each law is a table over the byte's values,
-- checked by evaluation.
use Prim.Native.Nat.{ℕ, zero, suc, ◌*◌, ◌/◌, ◌%◌, ◌<◌, bit_and, bit_xor}
use mathlib.Core.Path.{◌≡◌, refl}
use mathlib.Core.Bool.{Bool, true, false}
use mathlib.Core.Logic.{inl, inr}
use native.Mathlib.Omega.{arith}
use halmos.Base.Tests.{◌==◌, ==_iff, if◌then◌else◌, Bool-cases}

-- The values below `n`, highest first, until the test fails.
unfoldable pub all_below : ℕ → (ℕ → Bool) → Bool
all_below zero test = true
all_below (suc i) test = if test i then all_below i test else false

pub test-all_below :
    (n : ℕ) (test : ℕ → Bool) → all_below n test ≡ true → (v : ℕ) → v < n → test v ≡ true
unfolding all_below
test-all_below zero test passed v small = absurd (omega arith)
test-all_below (suc i) test passed v small = elim (Bool-cases (test i)) [
  | inl holds ↦
      ground
        (arith, holds, λ (below : v < i). test-all_below i test (ground (arith, holds)) v below)
  | inr fails ↦ ground (arith, fails)
]

-- Two functions that agree on every value below `n`.
pub table-eq :
    (n : ℕ) (f g : ℕ → ℕ) → all_below n (λ y. f y == g y) ≡ true → (x : ℕ) → x < n → f x ≡ g x
table-eq n f g h x lt = (==_iff _ _).0 (test-all_below n (λ y. f y == g y) h x lt)

pub and_7f : (b : ℕ) → b < 256 → bit_and b 0x7f ≡ b % 128
unfolding all_below
and_7f = table-eq 256 (λ y. bit_and y 0x7f) (λ y. y % 128) refl

pub and_3f : (b : ℕ) → b < 256 → bit_and b 0x3f ≡ b % 64
unfolding all_below
and_3f = table-eq 256 (λ y. bit_and y 0x3f) (λ y. y % 64) refl

pub and_1f : (b : ℕ) → b < 256 → bit_and b 0x1f ≡ b % 32
unfolding all_below
and_1f = table-eq 256 (λ y. bit_and y 0x1f) (λ y. y % 32) refl

pub and_0f : (b : ℕ) → b < 256 → bit_and b 0x0f ≡ b % 16
unfolding all_below
and_0f = table-eq 256 (λ y. bit_and y 0x0f) (λ y. y % 16) refl

pub and_80 : (b : ℕ) → b < 256 → bit_and b 0x80 ≡ b / 128 * 128
unfolding all_below
and_80 = table-eq 256 (λ y. bit_and y 0x80) (λ y. y / 128 * 128) refl

-- Exclusive or with the same byte twice, on all pairs of bytes.
xor_row : ℕ → Bool
unfolding all_below
xor_row k = all_below 256 (λ x. bit_xor (bit_xor x k) k == x)

pub xor_twice : (k x : ℕ) → k < 256 → x < 256 → bit_xor (bit_xor x k) k ≡ x
unfolding xor_row all_below
xor_twice k x hk hx =
    let row : all_below 256 (λ y. bit_xor (bit_xor y k) k == y) ≡ true =
      test-all_below 256 xor_row refl k hk in
    (==_iff _ _).0 (test-all_below 256 (λ y. bit_xor (bit_xor y k) k == y) row x hx)
