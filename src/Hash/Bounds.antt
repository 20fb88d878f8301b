-- ===== src/Hash/Bounds.antt =====
-- Hash values stay inside the table.
use native.Mathlib.Nat.{
  mod-lt, pow-suc, pow-zero, sub-zero, suc-sub-suc, mul-div-mul_right, div-lt_iff_lt-mul,
  one-le-pow,
}
use xed.Base.{ℕ, zero, suc, ◌+◌, ◌-◌, ◌*◌, ◌%◌, ◌^◌, ◌≤◌, ◌<◌, ◌≡◌, refl, sym, ap, ◌∙◌, some, arith}
use xed.Base.Int.{pos}
use xed.Hash.{
  Hash, linear, fks, mult, trivial, apply, mult_apply, apply_pow2, get_table_size, power_of_2,
  golden_ratio_recip2to32,
}

-- The arguments for which the hash is used: in the range of a linear function, and any for others,
-- whose table is not empty.
abbrev pub InDomain : Hash → ℕ → Type 0
InDomain (linear k max_key) x = (k ≤ x) × (x ≤ k + max_key)
InDomain (fks k p m) x = (0 < p) × (0 < m)
InDomain (mult table_size) x = 0 < table_size
InDomain trivial x = Unit

abbrev pub index : Hash → ℕ → ℕ
index (linear k max_key) x = x - k
index (fks k p m) x = k * x % p % m
index (mult table_size) x = mult_apply table_size x
index trivial x = 0

pub mult_apply-lt : (n x : ℕ) → 0 < n → mult_apply n x < n
unfolding mult_apply
mult_apply-lt n x h =
    (div-lt_iff_lt-mul {k = 2 ^ 32} {x = golden_ratio_recip2to32 * x % 2 ^ 32 * n} {y = n}
        (omega arith)).1
      (grind arith)

-- On its domain every hash function gives a number that is not negative and is below its table
-- size.
pub apply-index :
    (h : Hash) (x : ℕ)
    → InDomain h x
    → (apply h x ≡ pos (index h x)) × (index h x < get_table_size h)
unfolding apply get_table_size
apply-index (linear k max_key) x d = (ground arith, omega arith)
apply-index (fks k p m) x d = (refl, omega (arith, mod-lt (k * x % p) d.1))
apply-index (mult table_size) x d = (refl, mult_apply-lt table_size x d)
apply-index trivial x d = (refl, omega arith)

pow-pos : (n : ℕ) → 0 < 2 ^ n
pow-pos n = one-le-pow n 2 (omega arith)

pub pow-split : (n i : ℕ) → i ≤ n → 2 ^ (n - i) * 2 ^ i ≡ 2 ^ n
pow-split n zero h = grind (arith, sub-zero n, pow-zero 2)
pow-split zero (suc i) h = elim h [ ]
pow-split (suc n) (suc i) h =
    rw (suc-sub-suc n i, pow-suc 2 i, pow-suc 2 n)
      (omega (arith, ap (λ (t : ℕ). t * 2) (pow-split n i (omega arith))))

-- For a table size of 2^i with i at most 32, apply_pow2, which shifts, gives the same value as
-- apply of the multiplicative hash, which multiplies a second time.
pub apply_pow2-eq-mult_apply : (i k : ℕ) → i ≤ 32 → apply_pow2 i k ≡ mult_apply (2 ^ i) k
unfolding apply_pow2 mult_apply
apply_pow2-eq-mult_apply i k h =
    let f : ℕ = golden_ratio_recip2to32 * k % 2 ^ 32 in
    sym (mul-div-mul_right f (2 ^ (32 - i)) (pow-pos i)) ∙ rw (pow-split 32 i h)

pub power_of_2-eq : (n i : ℕ) → power_of_2 n ≡ some i → 2 ^ i ≡ n
unfolding power_of_2
power_of_2-eq n i h = ground arith
