-- ===== src/Phash/Emit.antt =====
-- The C functions that `gen_find_fos` writes, as data, and what they compute. The rule of a tuple
-- acts by its `return` action: for the decoder, `return` of the instruction's number.
use xed.Base.{
  ℕ, zero, suc, ◌+◌, ◌*◌, ◌%◌, ◌^◌, Option, none, some, List, [], ◌∷◌, String, Result, ok, err, die,
  key_error, attribute_error, index_error, name_error, ◌>>=◌, or_raise, leb, eqb, if◌then◌else◌,
  get_elem?, nat_eq, list_eq, string_eq,
}
use xed.Base.Int.{ℤ, pos, int_eq}
use xed.Base.Dict.{Dict, lookup}
use xed.Hash.{Hash, linear, fks, mult, trivial, get_table_size, is_trivial}
use xed.Hash.Cexpr.{Cexpr, emit_cexpr, eval}
use xed.Cdict.{Tuple, Cdict}
use xed.Phash.{L1, L2, Phash, l1, l2}

-- A row of `lu_table`: `xed_uint32_t key` and the value. A linear table has no `key`, and its
-- functions do not read it.
pub record Row : Type 0 where
  pub key : ℕ
  pub value : ℕ

-- the test that guards the action
pub data Validation : Type 0 where
  hidx_eq hidx_le : ℕ → Validation
  entry_key : Validation

-- The trivial hash has no such method.
unfoldable pub add_key_validation : Hash → Result Validation
add_key_validation (linear k max_key) =
    ok (if eqb max_key 0 then hidx_eq max_key else hidx_le max_key)
add_key_validation (fks k p m) = ok entry_key
add_key_validation (mult table_size) = ok entry_key
add_key_validation trivial = err attribute_error

-- A generated lookup function of one level.
pub data Find1 : Type 0 where
  constant : ℕ → Find1
  table : Cexpr → Validation → List Row → Find1

-- A generated lookup function: of one level, or the table of those of the second level, where
-- `none` is `xed_phash_invalid_const`.
pub data Find : Type 0 where
  find1 : Find1 → Find
  find2 : Cexpr → List (Option Find1) → Find

-- `for hx in range(0, size)`, with an exception from a row
unfoldable pub rows_from : {A : Type 0} → (ℕ → Result A) → ℕ → ℕ → Result (List A)
rows_from row lo zero = ok []
rows_from row lo (suc n) = do r ← row lo; rs ← rows_from row (lo + 1) n; ok (r ∷ rs)

abbrev pub first_item : {A : Type 0} → List A → Option A
first_item [] = none
first_item (a ∷ xs) = some a

module _ {R : Type 0} (value : R → ℕ) where
  unfoldable pub filled_row : L1 R → ℕ → Result Row
  filled_row ph x = do
    t ← or_raise key_error (lookup x ph.cdict.int2tuple)
    rule ← or_raise key_error (lookup t ph.cdict.tuple2rule)
    ok (record { key = x % 2 ^ 32; value = value rule % 2 ^ 32 })

  -- An empty slot has zeros in all its fields.
  unfoldable pub slot_row : L1 R → Option ℕ → Result Row
  unfolding filled_row
  slot_row ph (some x) = filled_row ph x
  slot_row ph none = ok (record { key = 0; value = 0 })

  unfoldable pub table_row : L1 R → ℕ → Result Row
  unfolding slot_row
  table_row ph hx = slot_row ph (lookup (pos hx) ph.hx2x)

  -- `phash_t.add_lu_table`
  unfoldable pub add_lu_table : L1 R → Result (List Row)
  unfolding rows_from table_row get_table_size
  add_lu_table ph = rows_from (table_row ph) 0 (get_table_size ph.hash_f)

  -- `phash_t.gen_find_fos`. The trivial hash returns the rule's number, and looks nothing up.
  unfoldable pub gen_find_l1 : L1 R → Result Find1
  unfolding add_lu_table add_key_validation emit_cexpr is_trivial
  gen_find_l1 ph =
      if is_trivial ph.hash_f
      then (do rule ← or_raise attribute_error ph.cdict.rule; ok (constant (value rule % 2 ^ 32)))
      else (do
        rows ← add_lu_table ph
        validation ← add_key_validation ph.hash_f
        ok (table (emit_cexpr ph.hash_f) validation rows))

  unfoldable pub slot_entry : Option (L1 R) → Result (Option Find1)
  unfolding gen_find_l1
  slot_entry (some ph) = do
    f ← gen_find_l1 ph
    if is_trivial ph.hash_f then err die else ok (some f)
  slot_entry none = ok none

  unfoldable pub table_entry : Dict ℤ (L1 R) → ℕ → Result (Option Find1)
  unfolding slot_entry
  table_entry hx2phash hx = slot_entry (lookup (pos hx) hx2phash)

  -- The entries of the table of functions. The source writes the functions first, in a loop over
  -- `hx2phash`, and then the slots; here the function of a slot is written with it. The field `key`
  -- of an entry is left out: no emitted code reads it.
  unfoldable pub gen_rows : Dict ℤ (L1 R) → Hash → Result (List (Option Find1))
  unfolding rows_from table_entry get_table_size
  gen_rows hx2phash hash_f = rows_from (table_entry hx2phash) 0 (get_table_size hash_f)

  -- `l2_phash_t.gen_find_fos`. The operand function is the one of the last table, and without a
  -- table its variable has no value.
  unfoldable pub gen_find_l2 : L2 R → Result Find
  unfolding gen_rows emit_cexpr
  gen_find_l2 ph = do
    rows ← gen_rows ph.hx2phash ph.hash_f
    _ ← or_raise name_error (first_item ph.hx2phash)
    ok (find2 (emit_cexpr ph.hash_f) rows)

  unfoldable pub gen_find_fos : Phash R → Result Find
  unfolding gen_find_l1 gen_find_l2
  gen_find_fos (l1 ph) = do f ← gen_find_l1 ph; ok (find1 f)
  gen_find_fos (l2 ph) = gen_find_l2 ph

infixl 5 ◌>>?◌
abbrev pub ◌>>?◌ : {A B : Type 0} → Option A → (A → Option B) → Option B
none >>? f = none
some a >>? f = f a

-- Runs of the emitted functions. `none` is undefined behaviour: in the index, or a read outside the
-- table. The default action returns 0.
unfoldable pub validated : Validation → ℕ → ℕ → Option Row → Option ℕ
validated (hidx_eq n) key hidx row = if eqb hidx n then (row >>? λ r. some r.value) else some 0
validated (hidx_le n) key hidx row = if leb hidx n then (row >>? λ r. some r.value) else some 0
validated entry_key key hidx row = row >>? λ r. if eqb r.key key then some r.value else some 0

unfoldable pub run1 : Find1 → ℕ → Option ℕ
unfolding eval validated
run1 (constant n) key = some n
run1 (table expr validation rows) key =
    eval expr key >>? λ hidx. validated validation key hidx (get_elem? rows hidx)

unfoldable pub call : Option Find1 → ℕ → Option ℕ
call none key = some 0
call (some f) key = run1 f key

unfoldable pub run : Find → ℕ → Option ℕ
unfolding run1 call
run (find1 f) key = run1 f key
run (find2 expr rows) key = eval expr key >>? λ hidx. get_elem? rows hidx >>? λ f. call f key

-- The key that the emitted operand function computes, in a `xed_uint64_t`, from the values of the
-- operands in the order of the constraint names.
unfoldable pub key_from : Tuple → List String → Dict String ℕ → ℕ → ℕ → Result ℕ
unfolding lookup
key_from vals [] op_widths bit_shift key = ok key
key_from [] (cname ∷ cnames) op_widths bit_shift key = err index_error
key_from (v ∷ vals) (cname ∷ cnames) op_widths bit_shift key =
    or_raise key_error (lookup cname op_widths) >>= λ width.
    key_from vals cnames op_widths (bit_shift + width) ((key + v * 2 ^ bit_shift) % 2 ^ 64)

unfoldable pub cgen_key : {R : Type 0} → Cdict R → Tuple → Result ℕ
unfolding key_from
cgen_key cdict vals = key_from vals cdict.cnames cdict.op_widths 0 0
