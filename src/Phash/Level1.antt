-- ===== src/Phash/Level1.antt =====
-- A generated lookup function of one level returns the value of the rule of its key.
use mathlib.Core.Path.{subst}
use native.Mathlib.Nat.{mod-eq_of_lt}
use xed.Base.{
  ℕ, ◌%◌, ◌^◌, ◌<◌, ◌≡◌, ◌≢◌, ◌⊎◌, refl, sym, ap, ◌∙◌, inl, inr, true, false, Option, none, some,
  List, ok, arith, nat_eq, list_eq, Elem, Option-cases, get_elem?,
}
use xed.Base.Int.{pos, int_eq}
use xed.Base.Dict.{lookup, values, values-Elem, Elem-lookup, Elem-values, lookup-Elem}
use xed.Hash.{
  Hash, linear, fks, mult, trivial, get_table_size, need_hash_index_validation, is_trivial,
}
use xed.Hash.Bounds.{InDomain, index, apply-index}
use xed.Hash.Cexpr.{emit_cexpr}
use xed.Hash.Emit.{IsEmittable, NoWrap, emit_cexpr-eval, emit_cexpr-lt}
use xed.Cdict.{Tuple, Cdict}
use xed.Cdict.Index.{IsIndexed}
use xed.Phash.{L1}
use xed.Phash.Emit.{
  Row, Find1, table, entry_key, add_key_validation, table_row, add_lu_table, gen_find_l1, run1,
  validated,
}
use xed.Phash.Fill.{IsTable}
use xed.Phash.Rows.{rows_from-get_elem?, rows_from-eq-ok}

-- The keys of the dictionary fit the 32 bits of their field in a table.
abbrev pub HasNarrowKeys : {R : Type 0} → Cdict R → Type 0
HasNarrowKeys d = (u : Tuple) (x : ℕ) → lookup u d.tuple2int ≡ some x → x < 2 ^ 32

validating :
    (h : Hash)
    → need_hash_index_validation h ≡ true
    → (is_trivial h ≡ false) × (add_key_validation h ≡ ok entry_key)
unfolding need_hash_index_validation is_trivial add_key_validation
validating (linear k max_key) v = cc
validating (fks k p m) v = (refl, refl)
validating (mult n) v = (refl, refl)
validating trivial v = cc

-- A hash function of the scattering kinds, good for the keys of a dictionary.
pub record Scatters {R : Type 0} (h : Hash) (d : Cdict R) : Type 0 where
  pub validates : need_hash_index_validation h ≡ true
  pub emittable : IsEmittable h
  pub in_domain : (u : Tuple) (x : ℕ) → lookup u d.tuple2int ≡ some x → InDomain h x
  pub no_wrap : (u : Tuple) (x : ℕ) → lookup u d.tuple2int ≡ some x → NoWrap h x

module _ {R : Type 0} (value : R → ℕ) where
  abbrev pub rule_value : Option R → ℕ
  rule_value none = 0
  rule_value (some r) = value r % 2 ^ 32

  abbrev pub tuple_value : Cdict R → Option Tuple → ℕ
  tuple_value d none = 0
  tuple_value d (some t) = rule_value (lookup t d.tuple2rule)

  -- The specification of a lookup: the value of the rule of the tuple that has this key, and 0
  -- where no tuple has it.
  abbrev pub expected : Cdict R → ℕ → ℕ
  expected d key = tuple_value d (lookup key d.int2tuple)

  module _ (ph : L1 R) (t : IsTable ph) (w : IsIndexed ph.cdict) where
    pub tuple_of :
        (x : ℕ)
        → Elem x (values ph.cdict.tuple2int)
        → (u : Tuple) × (r : R) × (lookup x ph.cdict.int2tuple ≡ some u)
          × (lookup u ph.cdict.tuple2rule ≡ some r)
    tuple_of x m =
        let (u, e) = values-Elem x ph.cdict.tuple2int m in
        let k = Elem-lookup u x ph.cdict.tuple2int w.linked.dict_t e in
        elim (Option-cases (lookup u ph.cdict.tuple2rule)) [
          | inl n ↦ absurd (w.ruled u (λ z. cc (z, k)) n)
          | inr (r, q) ↦ (u, r, w.linked.to_tuple u x k, q)
        ]

    abbrev pub RowAt : ℕ → Row → Type 0
    RowAt n row =
        ((x : ℕ) × (lookup (pos n) ph.hx2x ≡ some x)
          × (row ≡ record { key = x % 2 ^ 32; value = expected ph.cdict x }))
        ⊎ ((lookup (pos n) ph.hx2x ≡ none) × (row ≡ record { key = 0; value = 0 }))

    table_row-RowAt : (n : ℕ) → (row : Row) × (table_row value ph n ≡ ok row) × RowAt n row
    unfolding table_row
    table_row-RowAt n = elim (Option-cases (lookup (pos n) ph.hx2x)) [
      | inl e ↦ (record { key = 0; value = 0 }, rw e, inr (e, refl))
      | inr (x, e) ↦
          let (u, r, p, q) = tuple_of x (t.key (pos n) x e).0 in
          (
            record { key = x % 2 ^ 32; value = value r % 2 ^ 32 },
            rw (e, p, q),
            inl (x, e, rw (p, q)),
          )
    ]

    key-lt : HasNarrowKeys ph.cdict → (x : ℕ) → Elem x (values ph.cdict.tuple2int) → x < 2 ^ 32
    key-lt narrow x m =
        let (u, e) = values-Elem x ph.cdict.tuple2int m in
        narrow u x (Elem-lookup u x ph.cdict.tuple2int w.linked.dict_t e)

    pub in_table :
        (x : ℕ) (u : Tuple)
        → lookup x ph.cdict.int2tuple ≡ some u
        → Elem x (values ph.cdict.tuple2int)
    in_table x u e = Elem-values u x ph.cdict.tuple2int (lookup-Elem u x _ (w.linked.to_int u x e))

    pub not_in_table :
        (x key : ℕ)
        → Elem x (values ph.cdict.tuple2int)
        → lookup key ph.cdict.int2tuple ≡ none
        → x ≢ key
    not_in_table x key m n e =
        let (u, r, p, q) = tuple_of x m in cc (ap (λ y. lookup y ph.cdict.int2tuple) e, p, n)

    -- the row at the emitted index, validated by its key
    row-expected :
        (key n : ℕ) (row : Row)
        → HasNarrowKeys ph.cdict
        → RowAt n row
        → ((u : Tuple) → lookup key ph.cdict.int2tuple ≡ some u → lookup (pos n) ph.hx2x ≡ some key)
        → validated entry_key key n (some row) ≡ some (expected ph.cdict key)
    unfolding validated
    row-expected key n row narrow (inl (x, e, q)) at_slot =
        elim (Option-cases (lookup key ph.cdict.int2tuple)) [
          | inl none_at ↦
              let m = (t.key (pos n) x e).0 in
              let small = key-lt narrow x m in
              let other = not_in_table x key m none_at in
              rw (none_at, q) (ground (arith, mod-eq_of_lt small))
          | inr (u, p) ↦
              let same : x ≡ key = ground (arith, at_slot u p) in
              let small = key-lt narrow key (in_table key u p) in
              rw (q, same) (ground (arith, mod-eq_of_lt small))
        ]
    row-expected key n row narrow (inr (e, q)) at_slot =
        elim (Option-cases (lookup key ph.cdict.int2tuple)) [
          | inl none_at ↦ rw (none_at, q) (ground arith)
          | inr (u, p) ↦ absurd (cc (e, at_slot u p))
        ]

    pub rows-eq-ok : (rows : List Row) × (add_lu_table value ph ≡ ok rows)
    unfolding add_lu_table
    rows-eq-ok =
        rows_from-eq-ok (table_row value ph) 0 (get_table_size ph.hash_f)
          (λ n. let (row, e, at_n) = table_row-RowAt n in (row, e))

    pub row_at :
        (rows : List Row) (n : ℕ)
        → add_lu_table value ph ≡ ok rows
        → n < get_table_size ph.hash_f
        → (row : Row) × (get_elem? rows n ≡ some row) × RowAt n row
    unfolding add_lu_table
    row_at rows n h k =
        let (row, g, e) =
          rows_from-get_elem? (table_row value ph) (get_table_size ph.hash_f) n rows h k in
        let (row', e', at_n) = table_row-RowAt n in
        (row, g, subst (RowAt n) (ground (arith, e, e')) at_n)

  module _ (ph : L1 R) (t : IsTable ph) (w : IsIndexed ph.cdict) where
    pub scattered-expected :
        Scatters ph.hash_f ph.cdict
        → HasNarrowKeys ph.cdict
        → (f : Find1) × (gen_find_l1 value ph ≡ ok f)
          × ((key : ℕ) → run1 f key ≡ some (expected ph.cdict key))
    unfolding gen_find_l1
    scattered-expected s narrow =
        let (rows, built) = rows-eq-ok ph t w in
        let (plain, valid) = validating ph.hash_f s.validates in
        (
          table (emit_cexpr ph.hash_f) entry_key rows,
          rw (plain, built, valid),
          λ key.
              let (n, ev, lt) = emit_cexpr-lt ph.hash_f key s.emittable s.validates in
              let (row, got, at_n) = row_at ph t w rows n built lt in
              unfold run1 in
              rw (ev, got)
                (row-expected ph t w key n row narrow at_n (λ u p.
                  let k = w.linked.to_int u key p in
                  let hashed = (apply-index ph.hash_f key (s.in_domain u key k)).0 in
                  let same : some (index ph.hash_f key) ≡ some n =
                    sym (emit_cexpr-eval ph.hash_f key s.emittable (s.no_wrap u key k)) ∙ ev in
                  let slot = t.slot key (in_table ph t w key u p) in
                  let at : index ph.hash_f key ≡ n = ground (arith, same) in
                  subst (λ v. lookup v ph.hx2x ≡ some key) (hashed ∙ ap pos at) slot)),
        )
