-- ===== src/Tests/Tables.antt =====
-- The searches for a table, their runs, and the theorems at the tables that they return.
use xed.Base.{ℕ, ◌≡◌, ◌^◌, ◌+◌, ◌≤◌, ◌<◌, refl, arith, ok, some, [], ◌∷◌, nat_eq, list_eq}
use xed.Base.Int.{pos, int_eq}
use xed.Base.Dict.{lookup}
use xed.Cdict.{Tuple}
use xed.Base.{true, Option}
use xed.Base.Dict.{values, keys}
use xed.Hash.{apply}
use xed.Hash.Find.{find_fks_perfect}
use xed.Phash.Gen.{is_linear}
use xed.Phash.{L1}
use xed.Phash.Total.{gen_hash_one_level-eq-ok}
use xed.Hash.{fks, mult, linear}
use xed.Hash.Find.{get_linear_hash_function}
use xed.Phash.{l1, l1_phash, fill_l2}
use xed.Phash.Gen.{gen_hash, find_l2_phash, gen_hash_one_level}
use xed.Phash.Fill.{IsTable, l1_phash-IsTable}
use xed.Phash.Bins.{Binned, fill_l2-InBin}
use xed.Phash.Level1.{expected}
use xed.Phash.Linear.{linear-expected}
use xed.Phash.Level2.{find_l2_phash-expected}
use xed.Phash.Serves.{Serves, Covers, get_linear_hash_function-Covers, gen_hash_one_level-Serves}
use xed.Phash.Emit.{Find1, Find, gen_find_l1, gen_find_l2, run1, run}
use xed.Phash.Correct.{Finds, Decodes, gen_hash-expected, gen_hash-Decodes}
use xed.Tests.Samples.{
  exact, exact-IsScaled, plain, indexed, made, widths, ws, has_widths, tuples_fit, named, one_level,
  two_levels, dense, dense_table, indexed-IsIndexed, indexed-HasNarrowKeys, dense-IsIndexed,
  dense-HasNarrowKeys,
}

abbrev number : ℕ → ℕ
number n = n

gen_hash_run : gen_hash exact indexed ≡ ok (some (l1 one_level))
unfolding gen_hash
gen_hash_run = refl

find_l2_phash_run : find_l2_phash exact indexed ≡ ok (some two_levels)
unfolding find_l2_phash
find_l2_phash_run = refl

one_level_run : gen_hash_one_level exact dense ≡ ok (some dense_table)
unfolding gen_hash_one_level
one_level_run = refl

gen_hash-Decodes_example : Decodes number plain indexed ws (l1 one_level)
gen_hash-Decodes_example =
    gen_hash-Decodes exact exact-IsScaled number plain indexed widths ws made has_widths
      (omega arith) tuples_fit (l1 one_level) named (omega arith) gen_hash_run

gen_hash-expected_example : Finds number indexed (l1 one_level)
gen_hash-expected_example =
    gen_hash-expected exact exact-IsScaled number indexed indexed-IsIndexed indexed-HasNarrowKeys
      named (omega arith) (l1 one_level) gen_hash_run

find_l2_phash-expected_example :
    (f : Find) × (gen_find_l2 number two_levels ≡ ok f)
    × ((key : ℕ) → key < 2 ^ 64 → run f key ≡ some (expected number indexed key))
find_l2_phash-expected_example =
    find_l2_phash-expected exact exact-IsScaled number indexed indexed-IsIndexed
      indexed-HasNarrowKeys (omega arith) (omega arith) two_levels find_l2_phash_run

gen_hash_one_level-Serves_example : Serves number dense dense_table
gen_hash_one_level-Serves_example =
    gen_hash_one_level-Serves number dense dense-IsIndexed dense-HasNarrowKeys exact exact-IsScaled
      (omega arith) dense_table named one_level_run

table_run : l1_phash indexed (fks 6 7 3) ≡ ok one_level
unfolding l1_phash
table_run = refl

dense_table_run : l1_phash dense (linear 2 1) ≡ ok dense_table
unfolding l1_phash
dense_table_run = refl

l1_phash-IsTable_example :
    (one_level.cdict ≡ indexed) × (one_level.hash_f ≡ fks 6 7 3) × IsTable one_level
l1_phash-IsTable_example = l1_phash-IsTable indexed (fks 6 7 3) one_level table_run

dense_table-IsTable : IsTable dense_table
dense_table-IsTable =
    let (c, h, t) = l1_phash-IsTable dense (linear 2 1) dense_table dense_table_run in t

dense_range : (u : Tuple) (x : ℕ) → lookup u dense.tuple2int ≡ some x → (2 ≤ x) × (x ≤ 2 + 1)
unfolding lookup
dense_range u x e = ground (arith, list_eq.beq_iff (0 ∷ 1 ∷ []) u)

linear-expected_example :
    (f : Find1) × (gen_find_l1 number dense_table ≡ ok f)
    × ((x : ℕ) → x < 2 ^ 64 → run1 f x ≡ some (expected number dense x))
linear-expected_example =
    linear-expected number dense_table dense_table-IsTable dense-IsIndexed 2 1 refl (omega arith)
      dense_range

get_linear_hash_function-Covers_example : Covers (linear 2 3) (5 ∷ 2 ∷ 3 ∷ 4 ∷ [])
get_linear_hash_function-Covers_example =
    get_linear_hash_function-Covers (5 ∷ 2 ∷ 3 ∷ 4 ∷ []) (linear 2 3)
      (unfold get_linear_hash_function in refl)

fill_l2-InBin_example :
    Binned
      (mult 3)
      indexed.tuple2int
      []
      ((pos 0, (0 ∷ 1 ∷ []) ∷ (1 ∷ 3 ∷ []) ∷ (1 ∷ 6 ∷ []) ∷ []) ∷ [])
fill_l2-InBin_example =
    fill_l2-InBin (mult 3) indexed.tuple2int
      ((pos 0, (0 ∷ 1 ∷ []) ∷ (1 ∷ 3 ∷ []) ∷ (1 ∷ 6 ∷ []) ∷ []) ∷ [])
      ((2, pos 0) ∷ (7, pos 0) ∷ (13, pos 0) ∷ []) (unfold fill_l2 in refl)

gen_hash_one_level-eq-ok_example :
    ((r : Option (L1 ℕ)) × (gen_hash_one_level exact dense ≡ ok r))
    × (is_linear (keys dense.int2tuple) ≡ ok true
        → (ph : L1 ℕ) × (gen_hash_one_level exact dense ≡ ok (some ph)))
gen_hash_one_level-eq-ok_example =
    gen_hash_one_level-eq-ok dense dense-IsIndexed exact exact-IsScaled (omega arith) named

fks_run : find_fks_perfect (values indexed.tuple2int) ≡ some (fks 6 7 3)
unfolding find_fks_perfect apply
fks_run = refl
