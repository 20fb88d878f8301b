-- ===== src/Phash.antt =====
-- pysrc/ild_phash.py: the hash tables of one or two levels over a `constraint_dict_t`, the search
-- for them, and the lookup functions that are generated from them.
pub mod Emit
pub mod Gen
pub mod Fill
pub mod Rows
pub mod Level1
pub mod Linear
pub mod Good
pub mod Serves
pub mod Bins
pub mod Level2
pub mod Correct
pub mod Total
use xed.Base.{
  ℕ, zero, suc, ◌+◌, ◌-◌, ◌*◌, ◌≤◌, Bool, true, false, Option, none, some, List, [], ◌∷◌, ◌++◌,
  Result, ok, err, die, key_error, attribute_error, value_error, ◌>>=◌, or_raise, leb, ltb, eqb,
  if◌then◌else◌, contains, length, nat_eq, list_eq,
}
use xed.Base.Int.{ℤ, pos, negsuc, int_eq}
use xed.Base.Dict.{Dict, lookup, insert, values, keys, has}
use xed.Hash.{Hash, apply}
use xed.Hash.Perfect.{bin_of}
use xed.Hash.Find.{l1_bucket_max, min_of, max_of}
use xed.Cdict.{Tuple, Cdict, filter_tuples}

-- `l1_phash_t`. `ordinals` are the writes of the constructor to the `index` attribute of the rules, in
-- order; tuples may share a rule, whose attribute then has the last one.
pub record L1 (R : Type 0) : Type 0 where
  pub cdict : Cdict R
  pub hash_f : Hash
  pub x2hx : Dict ℕ ℤ
  pub hx2x : Dict ℤ ℕ
  pub ordinals : List (R × ℤ)

-- `l2_phash_t`. Its `hx2x`, which nothing reads, is left out.
pub record L2 (R : Type 0) : Type 0 where
  pub cdict : Cdict R
  pub hash_f : Hash
  pub x2hx : Dict ℕ ℤ
  pub hx2phash : Dict ℤ (L1 R)

pub data Phash (R : Type 0) : Type 0 where
  l1 : L1 R → Phash R
  l2 : L2 R → Phash R

abbrev pub suc_ℤ : ℤ → ℤ
suc_ℤ (pos n) = pos (suc n)
suc_ℤ (negsuc zero) = pos 0
suc_ℤ (negsuc (suc n)) = negsuc n

module _ {R : Type 0} where
  -- The loop of the constructor of `l1_phash_t`, over the items of `tuple2int`.
  unfoldable pub fill_l1 : Dict Tuple ℕ → L1 R → Result (L1 R)
  unfolding lookup insert apply
  fill_l1 [] ph = ok ph
  fill_l1 ((t, x) ∷ items) ph =
      let hash_val = apply ph.hash_f x in
      let next = λ (rule : R). fill_l1 items (record ph {
        x2hx = insert x hash_val ph.x2hx;
        hx2x = insert hash_val x ph.hx2x;
        ordinals = ph.ordinals ++ (rule, suc_ℤ hash_val) ∷ [];
      }) in
      if contains hash_val (values ph.x2hx)
      then err die
      else (or_raise key_error (lookup t ph.cdict.tuple2rule) >>= next)

  unfoldable pub l1_phash : Cdict R → Hash → Result (L1 R)
  unfolding fill_l1
  l1_phash cdict hash_f =
      fill_l1 cdict.tuple2int
        (record { cdict = cdict; hash_f = hash_f; x2hx = []; hx2x = []; ordinals = [] })

-- The first loop of the constructor of `l2_phash_t`: the tuples of each hash value.
unfoldable pub fill_l2 :
    Hash → Dict Tuple ℕ → Dict ℤ (List Tuple) → Dict ℕ ℤ → Result (Dict ℤ (List Tuple) × Dict ℕ ℤ)
unfolding lookup insert apply
fill_l2 hash_f [] hx2tuples x2hx = ok (hx2tuples, x2hx)
fill_l2 hash_f ((t, x) ∷ items) hx2tuples x2hx =
    let hx = apply hash_f x in
    let bin = bin_of hx2tuples hx in
    let rest = fill_l2 hash_f items (insert hx (bin ++ t ∷ []) hx2tuples) (insert x hx x2hx) in
    if leb l1_bucket_max (length bin) then err die else rest
