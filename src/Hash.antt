-- ===== src/Hash.antt =====
-- The hash functions of pysrc/hashlin.py, pysrc/hashfks.py and pysrc/hashmul.py, and the trivial one
-- of pysrc/ild_phash.py: the interface `hash_fun_interface_t` as one data type with a constructor
-- for each class, and a clause for each class in each method.
pub mod Cexpr
pub mod Perfect
pub mod Find
pub mod Bounds
pub mod Emit
use xed.Base.{
  ℕ, zero, suc, ◌+◌, ◌-◌, ◌*◌, ◌/◌, ◌%◌, ◌^◌, Bool, true, false, Option, none, some, ltb, eqb,
  if◌then◌else◌,
}
use xed.Base.Int.{ℤ, pos, sub_ℕ}

-- The attributes that `__init__` leaves on the object.
pub data Hash : Type 0 where
  linear : ℕ → ℕ → Hash
  fks : ℕ → ℕ → ℕ → Hash
  mult : ℕ → Hash
  trivial : Hash

-- `linear_func_t(k, max_key)`: the range is kept as the distance from `k`.
unfoldable pub linear_func : ℕ → ℕ → Hash
linear_func k max_key = linear k (max_key - k)

-- `hash_fun_fks_t(k, p, m)`
unfoldable pub hash_fun_fks : ℕ → ℕ → ℕ → Hash
hash_fun_fks k p m = fks k p (if ltb p m then p else m)

-- 2 ^ 32 over the golden ratio
abbrev pub golden_ratio_recip2to32 : ℕ
golden_ratio_recip2to32 = 2654435769

-- `int(math.log(n, 2))`, for positive `n`
unfoldable pub log2_fuel : ℕ → ℕ → ℕ
log2_fuel zero n = 0
log2_fuel (suc fuel) n = let rest = log2_fuel fuel (n / 2) in if ltb n 2 then 0 else rest + 1

unfoldable pub ilog2 : ℕ → ℕ
unfolding log2_fuel
ilog2 n = log2_fuel n n

-- `power_of_2`: the exponent, if the table size is a power of two
unfoldable pub power_of_2 : ℕ → Option ℕ
unfolding ilog2
power_of_2 table_size =
    if eqb (2 ^ ilog2 table_size) table_size then some (ilog2 table_size) else none

unfoldable pub mult_apply : ℕ → ℕ → ℕ
mult_apply table_size k = golden_ratio_recip2to32 * k % 2 ^ 32 * table_size / 2 ^ 32

unfoldable pub apply_pow2 : ℕ → ℕ → ℕ
apply_pow2 ilog2_table_size k = golden_ratio_recip2to32 * k % 2 ^ 32 / 2 ^ (32 - ilog2_table_size)

-- A linear hash of a key below its range is negative, as in the source.
unfoldable pub apply : Hash → ℕ → ℤ
unfolding mult_apply
apply (linear k max_key) x = sub_ℕ x k
apply (fks k p m) x = pos (k * x % p % m)
apply (mult table_size) x = pos (mult_apply table_size x)
apply trivial x = pos 0

unfoldable pub get_table_size : Hash → ℕ
get_table_size (linear k max_key) = max_key + 1
get_table_size (fks k p m) = m
get_table_size (mult table_size) = table_size
get_table_size trivial = 1

unfoldable pub need_hash_index_validation : Hash → Bool
need_hash_index_validation (linear k max_key) = false
need_hash_index_validation (fks k p m) = true
need_hash_index_validation (mult table_size) = true
need_hash_index_validation trivial = false

unfoldable pub is_trivial : Hash → Bool
is_trivial trivial = true
is_trivial _ = false
