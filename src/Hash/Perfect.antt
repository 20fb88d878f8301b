-- ===== src/Hash/Perfect.antt =====
-- pysrc/xedhash.py: is a hash function perfect, or well distributed, on a list of keys?
pub mod Unique
pub mod Buckets
use xed.Base.{
  ℕ, Bool, true, false, Option, none, some, List, [], ◌∷◌, ◌++◌, leb, contains, length,
  if◌then◌else◌,
}
use xed.Base.Int.{ℤ, int_eq}
use xed.Base.Dict.{Dict, lookup, insert, values}
use xed.Hash.{Hash, apply}

perfect_from : List ℤ → List ℕ → Hash → Option (List ℤ)
perfect_from bucket [] hash_f = some bucket
perfect_from bucket (x ∷ keylist) hash_f =
    let rest = perfect_from (apply hash_f x ∷ bucket) keylist hash_f in
    if contains (apply hash_f x) bucket then none else rest

-- the set of the hash values, or `None` at the first collision
unfoldable pub is_perfect : List ℕ → Hash → Option (List ℤ)
unfolding perfect_from
is_perfect keylist hash_f = perfect_from [] keylist hash_f

-- The method `hashmul_t.is_perfect` of pysrc/hashmul.py. Its answer is a Boolean.
mult_perfect_from : List ℤ → List ℕ → Hash → Bool
mult_perfect_from seen [] f = true
mult_perfect_from seen (k ∷ key_list) f =
    let rest = mult_perfect_from (apply f k ∷ seen) key_list f in
    if contains (apply f k) seen then false else rest

unfoldable pub mult_is_perfect : List ℕ → Hash → Bool
unfolding mult_perfect_from
mult_is_perfect key_list f = mult_perfect_from [] key_list f

measure_bucket_max_from : Bool → List (List (List ℕ)) → ℕ → Bool
measure_bucket_max_from okay [] maxbin = okay
measure_bucket_max_from okay (vl ∷ table) maxbin =
    measure_bucket_max_from (if leb maxbin (length vl) then false else okay) table maxbin

-- `_measure_bucket_max`. Its two counters are local, and nothing reads them.
unfoldable pub measure_bucket_max : Dict ℤ (List (List ℕ)) → ℕ → Bool
unfolding measure_bucket_max_from
measure_bucket_max table maxbin = measure_bucket_max_from true (values table) maxbin

abbrev pub or_empty : {V : Type 0} → Option (List V) → List V
or_empty none = []
or_empty (some vl) = vl

-- `table[hash_val]` of a `defaultdict(list)`
abbrev pub bin_of : {V : Type 0} → Dict ℤ (List V) → ℤ → List V
bin_of table hash_val = or_empty (lookup hash_val table)

fill_buckets : Dict ℤ (List (List ℕ)) → Dict (List ℕ) ℕ → Hash → Dict ℤ (List (List ℕ))
fill_buckets table [] hash_f = table
fill_buckets table ((t, x) ∷ keylist) hash_f =
    let hash_val = apply hash_f x in
    fill_buckets (insert hash_val (bin_of table hash_val ++ t ∷ []) table) keylist hash_f

unfoldable pub is_well_distributed : Dict (List ℕ) ℕ → Hash → ℕ → Bool
unfolding fill_buckets measure_bucket_max
is_well_distributed keylist hash_f maxbin =
    measure_bucket_max (fill_buckets [] keylist hash_f) maxbin
