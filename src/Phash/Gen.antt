-- ===== src/Phash/Gen.antt =====
-- `gen_hash`: the hash functions that are tried, and in which order.
use xed.Base.{
  ℕ, suc, ◌+◌, ◌-◌, Bool, Option, none, some, List, [], ◌∷◌, map, String, Result, ok, err, die,
  attribute_error, value_error, ◌>>=◌, or_raise, leb, ltb, eqb, if◌then◌else◌, contains, length,
  nat_eq, list_eq, range_from,
}
use xed.Base.Int.{ℤ}
use xed.Base.Dict.{Dict, insert, values, keys}
use xed.Base.Search.{first_some}
use xed.Base.Sort.{sorted}
use xed.Hash.{Hash, mult, trivial}
use xed.Hash.Perfect.{mult_is_perfect, is_well_distributed}
use xed.Hash.Find.{
  l1_bucket_max, min_of, max_of, get_linear_hash_function, find_fks_perfect,
  find_fks_well_distributed,
}
use xed.Cdict.{Tuple, Cdict, filter_tuples}
use xed.Phash.{L1, L2, Phash, l1, l2, l1_phash, fill_l2}
use xed.Base.Int.{int_eq}

-- `max(keys)` and `min(keys)` raise on an empty list.
unfoldable pub is_linear : List ℕ → Result Bool
is_linear [] = err value_error
is_linear (x ∷ keys) = ok (eqb (max_of x keys - min_of x keys + 1) (suc (length keys)))

-- A hash function that is found makes a table; `None` has no method `apply`.
unfoldable pub table_of : {R : Type 0} → Cdict R → Option Hash → Result (L1 R)
unfolding l1_phash
table_of cdict (some hash_f) = l1_phash cdict hash_f
table_of cdict none = err attribute_error

unfoldable pub linear_table : {R : Type 0} → Cdict R → Result (L1 R)
unfolding table_of get_linear_hash_function
linear_table cdict = get_linear_hash_function (keys cdict.int2tuple) >>= table_of cdict

-- A search that ends in a table: nothing if it finds no function.
unfoldable pub optional_table : {R : Type 0} → Cdict R → Option Hash → Result (Option (L1 R))
unfolding l1_phash
optional_table cdict none = ok none
optional_table cdict (some hash_f) = do ph ← l1_phash cdict hash_f; ok (some ph)

unfoldable pub find_l1_phash_fks : {R : Type 0} → Cdict R → Result (Option (L1 R))
unfolding optional_table find_fks_perfect
find_l1_phash_fks cdict = optional_table cdict (find_fks_perfect (values cdict.tuple2int))

unfoldable pub add_all : List ℕ → List ℕ → List ℕ
add_all s [] = s
add_all s (a ∷ r) = add_all (if ltb 1 a then (if contains a s then s else a ∷ s) else s) r

abbrev pub first_hash : Option Hash → Option Hash → Option Hash
first_hash (some f) g = some f
first_hash none g = g

abbrev pub as_phash : {R : Type 0} → Option (L2 R) → Option (Phash R)
as_phash none = none
as_phash (some ph) = some (l2 ph)

-- `scaled n x` is `int(math.ceil((1 + x/10.0)*n))`, in the floating point of the platform.
module _ (scaled : ℕ → ℕ → ℕ) where
  -- the lengths above one, with no duplicates, in order
  unfoldable pub find_candidate_lengths_mul : ℕ → List ℕ
  unfolding add_all sorted
  find_candidate_lengths_mul n = sorted leb (add_all [] (map (scaled n) (range_from 0 11)))

  unfoldable pub search_mul : (Hash → Bool) → ℕ → Option Hash
  unfolding first_some find_candidate_lengths_mul
  search_mul accept n =
      first_some (λ p. if accept (mult p) then some (mult p) else none)
        (find_candidate_lengths_mul n)

  module _ {R : Type 0} where
    unfoldable pub find_l1_phash_mul : Cdict R → Result (Option (L1 R))
    unfolding optional_table search_mul mult_is_perfect
    find_l1_phash_mul cdict =
        optional_table cdict
          (search_mul (mult_is_perfect (values cdict.tuple2int)) (length cdict.tuple2int))

    unfoldable pub find_l2_hash_mul : Cdict R → Option Hash
    unfolding search_mul is_well_distributed
    find_l2_hash_mul cdict =
        search_mul (λ f. is_well_distributed cdict.tuple2int f l1_bucket_max)
          (length cdict.tuple2int)

    unfoldable pub or_fks : Cdict R → Option (L1 R) → Result (Option (L1 R))
    or_fks cdict (some ph) = ok (some ph)
    or_fks cdict none = find_l1_phash_fks cdict

    -- hashmul, then FKS
    unfoldable pub scattered_table : Cdict R → Result (Option (L1 R))
    unfolding find_l1_phash_mul find_l1_phash_fks or_fks
    scattered_table cdict = find_l1_phash_mul cdict >>= or_fks cdict

    -- one table of the second level: linear, then hashmul, then FKS
    unfoldable pub second_level : Cdict R → Result (L1 R)
    unfolding is_linear linear_table scattered_table
    second_level new_cdict = do
      dense ← is_linear (keys new_cdict.int2tuple)
      if dense then linear_table new_cdict else (scattered_table new_cdict >>= or_raise die)

    -- The second loop of the constructor of `l2_phash_t`, over the bins.
    unfoldable pub fill_hx2phash :
        Cdict R → Dict ℤ (List Tuple) → Dict ℤ (L1 R) → Result (Dict ℤ (L1 R))
    unfolding filter_tuples second_level insert
    fill_hx2phash cdict [] hx2phash = ok hx2phash
    fill_hx2phash cdict ((hx, tuples) ∷ bins) hx2phash = do
      new_cdict ← filter_tuples cdict tuples
      ph ← second_level new_cdict
      fill_hx2phash cdict bins (insert hx ph hx2phash)

    unfoldable pub l2_phash : Cdict R → Hash → Result (L2 R)
    unfolding fill_l2 fill_hx2phash
    l2_phash cdict hash_f = do
      (hx2tuples, x2hx) ← fill_l2 hash_f cdict.tuple2int [] []
      hx2phash ← fill_hx2phash cdict hx2tuples []
      ok (record { cdict = cdict; hash_f = hash_f; x2hx = x2hx; hx2phash = hx2phash })

    unfoldable pub optional_l2 : Cdict R → Option Hash → Result (Option (L2 R))
    unfolding l2_phash
    optional_l2 cdict none = ok none
    optional_l2 cdict (some hash_f) = do ph ← l2_phash cdict hash_f; ok (some ph)

    -- hashmul, then FKS, for the first level; with neither the source warns and gives up
    unfoldable pub find_l2_phash : Cdict R → Result (Option (L2 R))
    unfolding find_l2_hash_mul find_fks_well_distributed optional_l2
    find_l2_phash cdict =
        optional_l2 cdict
          (first_hash (find_l2_hash_mul cdict) (find_fks_well_distributed cdict.tuple2int))

    -- linear, then hashmul, then FKS; and the trivial table where there is nothing to test
    unfoldable pub by_names : Cdict R → List String → Result (Option (L1 R))
    unfolding l1_phash is_linear linear_table scattered_table
    by_names cdict [] = do ph ← l1_phash cdict trivial; ok (some ph)
    by_names cdict (name ∷ cnames) = do
      dense ← is_linear (keys cdict.int2tuple)
      if dense then (do ph ← linear_table cdict; ok (some ph)) else scattered_table cdict

    unfoldable pub gen_hash_one_level : Cdict R → Result (Option (L1 R))
    unfolding by_names
    gen_hash_one_level cdict = by_names cdict cdict.cnames

    unfoldable pub or_two_levels : Cdict R → Option (L1 R) → Result (Option (Phash R))
    unfolding find_l2_phash
    or_two_levels cdict (some ph) = ok (some (l1 ph))
    or_two_levels cdict none = do two ← find_l2_phash cdict; ok (as_phash two)

    unfoldable pub gen_hash : Cdict R → Result (Option (Phash R))
    unfolding gen_hash_one_level or_two_levels
    gen_hash cdict = gen_hash_one_level cdict >>= or_two_levels cdict
