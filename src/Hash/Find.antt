-- ===== src/Hash/Find.antt =====
-- The searches for a hash function: `find_fks_perfect` and `find_fks_well_distributed` of
-- pysrc/hashfks.py, `find_perfect` of pysrc/hashmul.py, `get_linear_hash_function` of
-- pysrc/hashlin.py. Each loop tries its candidates in the order of the source.
pub mod Sound
pub mod Primes
pub mod Complete
use xed.Base.{
  ℕ, suc, ◌&&◌, Result, ok, err, value_error, ◌+◌, ◌-◌, ◌*◌, Bool, true, false, Option, none, some,
  List, [], ◌∷◌, ltb, leb, eqb, length, range_from, if◌then◌else◌,
}
use xed.Base.Dict.{Dict}
use xed.Base.Search.{first_some}
use xed.Hash.{Hash, mult, hash_fun_fks, linear_func}
use xed.Hash.Perfect.{is_perfect, mult_is_perfect, is_well_distributed}

abbrev pub primes : List ℕ
primes =
    2 ∷ 3 ∷ 5 ∷ 7 ∷ 11 ∷ 13 ∷ 17 ∷ 19 ∷ 23 ∷ 29 ∷ 31 ∷ 37 ∷ 41 ∷ 43 ∷ 47 ∷ 53 ∷ 59 ∷ 61 ∷ 67 ∷ 71
    ∷ 73 ∷ 79 ∷ 83 ∷ 89 ∷ 97 ∷ 101 ∷ 103 ∷ 107 ∷ 109 ∷ 113 ∷ 127 ∷ 131 ∷ 137 ∷ 139 ∷ 149 ∷ 151 ∷ 157
    ∷ 163 ∷ 167 ∷ 173 ∷ 179 ∷ 181 ∷ 191 ∷ 193 ∷ 197 ∷ 199 ∷ 211 ∷ 223 ∷ 227 ∷ 229 ∷ 233 ∷ 239 ∷ 241
    ∷ 251 ∷ 257 ∷ 263 ∷ 269 ∷ 271 ∷ 277 ∷ 281 ∷ 283 ∷ 293 ∷ 307 ∷ 311 ∷ 313 ∷ 317 ∷ 331 ∷ 337 ∷ 347
    ∷ 349 ∷ 353 ∷ 359 ∷ 367 ∷ 373 ∷ 379 ∷ 383 ∷ 389 ∷ 397 ∷ 401 ∷ 409 ∷ 419 ∷ 421 ∷ 431 ∷ 433 ∷ 439
    ∷ 443 ∷ 449 ∷ 457 ∷ 461 ∷ 463 ∷ 467 ∷ 479 ∷ 487 ∷ 491 ∷ 499 ∷ 503 ∷ 509 ∷ 521 ∷ 523 ∷ 541 ∷ 547
    ∷ 557 ∷ 563 ∷ 569 ∷ 571 ∷ 577 ∷ 587 ∷ 593 ∷ 599 ∷ 601 ∷ 607 ∷ 613 ∷ 617 ∷ 619 ∷ 631 ∷ 641 ∷ 643
    ∷ 647 ∷ 653 ∷ 659 ∷ 661 ∷ 673 ∷ 677 ∷ 683 ∷ 691 ∷ 701 ∷ 709 ∷ 719 ∷ 727 ∷ 733 ∷ 739 ∷ 743 ∷ 751
    ∷ 757 ∷ 761 ∷ 769 ∷ 773 ∷ 787 ∷ 797 ∷ 809 ∷ 811 ∷ 821 ∷ 823 ∷ 827 ∷ 829 ∷ 839 ∷ 853 ∷ 857 ∷ 859
    ∷ 863 ∷ 877 ∷ 881 ∷ 883 ∷ 887 ∷ 907 ∷ 911 ∷ 919 ∷ 929 ∷ 937 ∷ 941 ∷ []

abbrev pub max_k : ℕ
max_k = 32

abbrev pub l1_bucket_max : ℕ
l1_bucket_max = 8

-- `_get_l1_mlist`: the table sizes to try
unfoldable pub get_l1_mlist : ℕ → List ℕ
get_l1_mlist n =
    if eqb n 1
    then 1 ∷ []
    else if leb n l1_bucket_max
    then n ∷ 2 * n ∷ n * n ∷ []
    else n ∷ 2 * n ∷ []

-- The three nested loops, over the table sizes, the primes and `range(3, _max_k)`.
unfoldable pub try_fks : (Hash → Bool) → ℕ → ℕ → ℕ → Option Hash
unfolding hash_fun_fks
try_fks accept m p k = let f = hash_fun_fks k p m in if accept f then some f else none

unfoldable pub try_prime : (Hash → Bool) → ℕ → ℕ → Option Hash
unfolding first_some try_fks
try_prime accept m p = first_some (try_fks accept m p) (range_from 3 (max_k - 3))

unfoldable pub try_size : (Hash → Bool) → ℕ → Option Hash
unfolding first_some try_prime
try_size accept m = first_some (try_prime accept m) primes

unfoldable pub search_fks : (Hash → Bool) → ℕ → Option Hash
unfolding first_some try_size get_l1_mlist
search_fks accept n = first_some (try_size accept) (get_l1_mlist n)

-- `is_perfect` returns a set, and the empty set is false.
unfoldable pub found_perfect : List ℕ → Hash → Bool
unfolding is_perfect
found_perfect keylist f = elim (is_perfect keylist f) [
  | none ↦ false
  | some bucket ↦ ltb 0 (length bucket)
]

unfoldable pub find_fks_perfect : List ℕ → Option Hash
unfolding search_fks found_perfect
find_fks_perfect keylist = search_fks (found_perfect keylist) (length keylist)

unfoldable pub find_fks_well_distributed : Dict (List ℕ) ℕ → Option Hash
unfolding search_fks is_well_distributed
find_fks_well_distributed keylist =
    search_fks (λ f. is_well_distributed keylist f l1_bucket_max) (length keylist)

-- `min(keylist)` and `max(keylist)` of a list that is not empty
abbrev pub min_of : ℕ → List ℕ → ℕ
min_of a [] = a
min_of a (x ∷ xs) = min_of (if ltb x a then x else a) xs

abbrev pub max_of : ℕ → List ℕ → ℕ
max_of a [] = a
max_of a (x ∷ xs) = max_of (if ltb a x then x else a) xs

-- `min([])` raises. The tolerable sparsity 0.2 is written as a ratio of integers.
unfoldable pub get_linear_hash_function : List ℕ → Result (Option Hash)
unfolding linear_func
get_linear_hash_function [] = err value_error
get_linear_hash_function (x ∷ keylist) =
    let min_key = min_of x keylist in
    let max_key = max_of x keylist in
    let nelem : ℕ = suc (length keylist) in
    let nslots = max_key - min_key + 1 in
    if ltb nelem nslots && ltb (nelem * 12) (nslots * 10)
    then ok none
    else ok (some (linear_func min_key max_key))

-- `hashmul.find_perfect`. The loop variable `m` is not used in the source.
unfoldable pub find_perfect : List ℕ → Option Hash
unfolding first_some mult_is_perfect
find_perfect keylist =
    let n = length keylist in
    first_some (λ (m : ℕ). if mult_is_perfect keylist (mult n) then some (mult n) else none)
      (range_from n (2 * n - n))
