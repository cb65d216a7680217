-- ===== src/Util/Trim.antt =====
-- The trimming of src/protocol/halmos_http_utils.c.
use halmos.Base.{
  ℕ, zero, suc, ◌-◌, ◌≤◌, ◌<◌, ◌≡◌, ◌⊎◌, refl, ◌∙◌, ap, inl, inr, Bool, true, false, List,
  Bool-cases, length, take, get_or, length-take, sym, subst, arith,
}
use halmos.Util.{trim_loop, is_space, trim_right, is_blank, trim_whitespace}

less_or_last : (i n : ℕ) → i < suc n → (i < n) ⊎ (i ≡ n)
less_or_last i n h = omega arith

module _ (blank : ℕ → Bool) (s : List ℕ) where
  below :
      (i n : ℕ) {k : ℕ}
      → i < suc n
      → ((j : ℕ) → k ≤ j → j < n → blank (get_or s j 0) ≡ true)
      → k ≤ i
      → blank (get_or s n 0) ≡ true
      → blank (get_or s i 0) ≡ true
  below i n high all low e = elim (less_or_last i n high) [
    | inl h ↦ all i low h
    | inr h ↦ ap (λ j. blank (get_or s j 0)) h ∙ e
  ]

  -- The loop stops at zero or behind a byte that stays, and what it passed is to be removed.
  trim_loop_lem :
      (n : ℕ)
      → n ≤ length s
      → let k = trim_loop blank s n in
        (k ≤ n)
        × ((k ≡ 0) ⊎ (blank (get_or s (k - 1) 0) ≡ false))
        × ((i : ℕ) → k ≤ i → i < n → blank (get_or s i 0) ≡ true)
  unfolding trim_loop
  trim_loop_lem zero h = (omega arith, inl refl, λ i low high. absurd (omega arith))
  trim_loop_lem (suc n) h =
      let (small, ends, all) = trim_loop_lem n (omega arith) in
      elim (Bool-cases (blank (get_or s n 0))) [
        | inl e ↦ rw e (omega arith, ends, λ i low high. below i n high all low e)
        | inr e ↦ rw e (
          omega arith,
          inr (ap (λ j. blank (get_or s j 0)) (omega arith) ∙ e),
          λ i low high. absurd (omega arith),
        )
      ]

-- `t` is `s` without the bytes at its end that are `blank`.
pub record IsTrimmed (blank : ℕ → Bool) (s t : List ℕ) : Type 0 where
  pub kept : t ≡ take (length t) s
  pub within : length t ≤ length s
  pub ends : (length t ≡ 0) ⊎ (blank (get_or s (length t - 1) 0) ≡ false)
  pub removed : (i : ℕ) → length t ≤ i → i < length s → blank (get_or s i 0) ≡ true

trimmed :
    (blank : ℕ → Bool) (s : List ℕ) → IsTrimmed blank s (take (trim_loop blank s (length s)) s)
trimmed blank s =
    let k = trim_loop blank s (length s) in
    let (small, ends, all) = trim_loop_lem blank s (length s) (omega arith) in
    let n : length (take k s) ≡ k = omega (arith, length-take k s) in
    record {
      kept = ap (λ m. take m s) (sym n);
      within = omega (arith, n);
      ends = subst (λ m. (m ≡ 0) ⊎ (blank (get_or s (m - 1) 0) ≡ false)) (sym n) ends;
      removed = λ i low high. all i (omega (arith, n)) high;
    }

-- `trim_right` removes the white space at the end of any string, and `trim_whitespace` the spaces, tabs,
-- CR and LF: all of it, and nothing before it.
pub trim-IsTrimmed :
    (s : List ℕ) → IsTrimmed is_space s (trim_right s) × IsTrimmed is_blank s (trim_whitespace s)
unfolding trim_right trim_whitespace
trim-IsTrimmed s = (trimmed is_space s, trimmed is_blank s)
