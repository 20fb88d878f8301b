-- ===== src/Phash/Level2.antt =====
-- The lookup function over two levels of tables meets the specification.
use mathlib.Core.Path.{subst}
use xed.Base.{
  ℕ, ◌+◌, ◌^◌, ◌≤◌, ◌<◌, ◌≡◌, ◌≢◌, refl, sym, ap, ◌∙◌, inl, inr, Option, none, some, List, [], ◌∷◌,
  Result, ok, err, key_error, >>=-eq-ok, or_raise, arith, nat_eq, list_eq, Elem, Option-cases,
  length,
}
use xed.Base.Int.{ℤ, pos, int_eq}
use xed.Base.Dict.{Dict, lookup, insert, lookup-Elem, length-insert}
use xed.Hash.{Hash, apply, get_table_size}
use xed.Hash.Bounds.{index, apply-index}
use xed.Hash.Cexpr.{emit_cexpr}
use xed.Hash.Emit.{emit_cexpr-eval, emit_cexpr-lt}
use xed.Hash.Find.{l1_bucket_max, find_fks_well_distributed}
use xed.Hash.Perfect.{is_well_distributed}
use xed.Hash.Find.Sound.{find_fks_well_distributed-eq-some}
use xed.Cdict.{Tuple, Cdict, filter_tuples, filter_loop}
use xed.Cdict.Index.{IsIndexed}
use xed.Cdict.Filter.{filter_tuples-IsPart}
use xed.Phash.{L1, L2, fill_l2}
use xed.Phash.Emit.{
  first_item, Find1, Find, find2, run, call, gen_find_l2, gen_rows, table_entry, slot_entry,
}
use xed.Phash.Bins.{Bins, InBin, Binned, fill_l2-InBin, Tables, TableOf, fill_hx2phash-Tables}
use xed.Phash.Gen.{
  optional_l2, l2_phash, fill_hx2phash, find_l2_hash_mul, first_hash, find_l2_phash,
}
use xed.Phash.Good.{IsScaled, IsFks-Scatters, search_mul-Scatters}
use xed.Phash.Level1.{HasNarrowKeys, Scatters, expected}
use xed.Phash.Rows.{rows_from-eq-ok, rows_from-get_elem?}
use xed.Phash.Serves.{Serves, second_level-Serves}

-- A dictionary of some tuples is no longer than their list.
filter_loop-length :
    {R : Type 0} (self : Cdict R) (ts : List Tuple) (t2i t2i' : Dict Tuple ℕ)
    (t2r t2r' : Dict Tuple R)
    → filter_loop self ts t2i t2r ≡ ok (t2i', t2r')
    → length t2i' ≤ length t2i + length ts
unfolding filter_loop
filter_loop-length self [] t2i t2i' t2r t2r' e =
    let same : t2i ≡ t2i' = ground arith in omega (arith, ap length same)
filter_loop-length self (t ∷ ts) t2i t2i' t2r t2r' e =
    let (x, hx, e') = >>=-eq-ok (or_raise key_error (lookup t self.tuple2int)) _ e in
    let (r, hr, e'') = >>=-eq-ok (or_raise key_error (lookup t self.tuple2rule)) _ e' in
    omega (
      arith,
      filter_loop-length self ts (insert t x t2i) t2i' (insert t r t2r) t2r' e'',
      length-insert t x t2i,
    )

pub filter_tuples-length :
    {R : Type 0} (self d : Cdict R) (ts : List Tuple)
    → filter_tuples self ts ≡ ok d
    → length d.tuple2int ≤ length ts
unfolding filter_tuples
filter_tuples-length {R = R} self d ts e =
    let ((t2i, t2r), looped, z) = >>=-eq-ok (filter_loop self ts [] []) _ e in
    let same : t2i ≡ d.tuple2int = ap (λ r. tuples_of r) z in
    omega (arith, filter_loop-length self ts [] t2i [] t2r looped, ap length same)
  where
    tuples_of : Result (Cdict R) → Dict Tuple ℕ
    tuples_of (ok c) = c.tuple2int
    tuples_of (err e) = []

module _ (scaled : ℕ → ℕ → ℕ) (law : IsScaled scaled) {R : Type 0} (value : R → ℕ) (d : Cdict R)
    (w : IsIndexed d) (narrow : HasNarrowKeys d) where
  -- A table of the second level serves the tuples of its bin.
  part-Serves :
      (tuples : List Tuple) (ph : L1 R) (t : TableOf scaled d tuples ph)
      → length tuples ≤ l1_bucket_max
      → Serves value t.part ph
  part-Serves tuples ph t small =
      let (indexed, p) = filter_tuples-IsPart d tuples t.part w t.filtered in
      second_level-Serves value t.part indexed (λ u x e. narrow u x (p.ints u x e)) scaled law
        (omega (arith, filter_tuples-length d t.part tuples t.filtered)) ph t.found

  -- On a key of its bin, and on a key that no tuple has, the part answers as the whole.
  expected-part :
      (tuples : List Tuple) (part : Cdict R) (key : ℕ)
      → filter_tuples d tuples ≡ ok part
      → ((u : Tuple) → lookup key d.int2tuple ≡ some u → Elem u tuples)
      → expected value part key ≡ expected value d key
  expected-part tuples part key e binned =
      let (indexed, p) = filter_tuples-IsPart d tuples part w e in
      elim (Option-cases (lookup key part.int2tuple)) [
        | inr (u, at) ↦
            let whole = w.linked.to_tuple u key (p.ints u key (indexed.linked.to_int u key at)) in
            elim (Option-cases (lookup u part.tuple2rule)) [
              | inl n ↦ absurd (indexed.ruled u (λ z. cc (z, indexed.linked.to_int u key at)) n)
              | inr (r, q) ↦ rw (at, whole, q, p.rules u r q)
            ]
        | inl n ↦ elim (Option-cases (lookup key d.int2tuple)) [
          | inl m ↦ rw (n, m)
          | inr (u, at) ↦ absurd (elim (Option-cases (lookup u part.tuple2int)) [
            | inl z ↦ p.all u (binned u at) z
            | inr (x, q) ↦
                let whole = p.ints u x q in
                let same : x ≡ key = ground (arith, w.linked.to_int u key at) in
                cc (n, indexed.linked.to_tuple u x q, ap (λ y. lookup y part.int2tuple) same)
          ])
        ]
      ]

  module _ (h : Hash) (s : Scatters h d) (bins : Bins) (binned : Binned h d.tuple2int [] bins)
      (tables : Dict ℤ (L1 R)) (t : Tables scaled d bins [] tables) where
    no_table : (v : ℤ) → lookup v bins ≡ none → lookup v tables ≡ none
    no_table v e = t.kept v e ∙ unfold lookup in refl

    abbrev EntryAt : ℕ → Option Find1 → Type 0
    EntryAt n f =
        (key : ℕ)
        → key < 2 ^ 64
        → ((u : Tuple) → lookup key d.int2tuple ≡ some u → InBin bins (pos n) u)
        → call f key ≡ some (expected value d key)

    table_entry-EntryAt :
        (n : ℕ) → (f : Option Find1) × (table_entry value tables n ≡ ok f) × EntryAt n f
    unfolding table_entry slot_entry call
    table_entry-EntryAt n = elim (Option-cases (lookup (pos n) bins)) [
      | inl e ↦ (
        none,
        rw (no_table (pos n) e),
        λ key lt at. elim (Option-cases (lookup key d.int2tuple)) [
          | inl z ↦ rw z
          | inr (u, p) ↦ let (ts, q, m) = at u p in absurd (cc (e, q))
        ],
      )
      | inr (ts, e) ↦
          let (ph, stored, made) = t.added (pos n) ts e in
          let serves = part-Serves ts ph made (binned.small (pos n) ts e) in
          (
            some serves.find,
            rw (stored, serves.made, serves.searched),
            λ key lt at.
                serves.found key lt
                ∙ ap some (
                    expected-part ts made.part key made.filtered (λ u p.
                      let (ts', q, m) = at u p in
                      let same : ts' ≡ ts = ground arith in subst (Elem u) same m)),
          )
    ]

    pub tables-expected :
        (rows : List (Option Find1)) × ((gen_rows value tables h) ≡ ok rows)
        × ((key : ℕ)
            → key < 2 ^ 64
            → run (find2 (emit_cexpr h) rows) key ≡ some (expected value d key))
    unfolding gen_rows run
    tables-expected =
        let size = get_table_size h in
        let (rows, built) =
          rows_from-eq-ok (table_entry value tables) 0 size
            (λ n. let (f, e, at) = table_entry-EntryAt n in (f, e)) in
        (
          rows,
          built,
          λ key lt.
              let (n, ev, inside) = emit_cexpr-lt h key s.emittable s.validates in
              let (f, got, e) =
                rows_from-get_elem? (table_entry value tables) size n rows built inside in
              let (f', e', at) = table_entry-EntryAt n in
              let same : f' ≡ f = ground (arith, e, e') in
              rw (ev, got)
                (subst (EntryAt n) same at key lt (λ u p.
                  let k = w.linked.to_int u key p in
                  let hashed = (apply-index h key (s.in_domain u key k)).0 in
                  let evals : some (index h key) ≡ some n =
                    sym (emit_cexpr-eval h key s.emittable (s.no_wrap u key k)) ∙ ev in
                  let index_eq : index h key ≡ n = ground (arith, evals) in
                  subst (λ v. InBin bins v u) (hashed ∙ ap pos index_eq)
                    (binned.added u key (lookup-Elem u key d.tuple2int k)))),
        )

  some-item :
      (v : ℤ) (tables : Dict ℤ (L1 R))
      → lookup v tables ≢ none
      → (p : ℤ × L1 R) × (first_item tables ≡ some p)
  some-item v [] n = absurd (n (unfold lookup in refl))
  some-item v (p ∷ tables) n = (p, refl)

  some-table :
      (h : Hash) (bins : Bins) (tables : Dict ℤ (L1 R))
      → (items : Dict Tuple ℕ) → 0 < length items
      → Binned h items [] bins
      → Tables scaled d bins [] tables
      → (p : ℤ × L1 R) × (first_item tables ≡ some p)
  some-table h bins tables [] n b t = absurd (omega arith)
  some-table h bins tables ((u, x) ∷ items) n b t =
      let (ts, e, m) = b.added u x (inl refl) in
      let (ph, stored, made) = t.added (apply h x) ts e in
      some-item (apply h x) tables (λ z. cc (z, stored))

  -- The function over two levels is the specification, whichever hash the first level has.
  pub l2_phash-expected :
      (h : Hash) (ph : L2 R)
      → Scatters h d
      → 0 < length d.tuple2int
      → l2_phash scaled d h ≡ ok ph
      → (f : Find) × (gen_find_l2 value ph ≡ ok f)
        × ((key : ℕ) → key < 2 ^ 64 → run f key ≡ some (expected value d key))
  unfolding l2_phash gen_find_l2
  l2_phash-expected h ph s some_key e =
      let ((bins, x2hx), filled, e') = >>=-eq-ok (fill_l2 h d.tuple2int [] []) _ e in
      let (tables, found, e'') = >>=-eq-ok (fill_hx2phash scaled d bins []) _ e' in
      let binned = fill_l2-InBin h d.tuple2int bins x2hx filled in
      let stored = fill_hx2phash-Tables scaled d bins [] tables binned.dict found in
      let (rows, built, runs) = tables-expected h s bins binned tables stored in
      let (p, item) = some-table h bins tables d.tuple2int some_key binned stored in
      let same : record { cdict = d; hash_f = h; x2hx = x2hx; hx2phash = tables } ≡ ph =
        ground arith in
      subst
        (λ p.
          (f : Find) × (gen_find_l2 value p ≡ ok f)
          × ((key : ℕ) → key < 2 ^ 64 → run f key ≡ some (expected value d key)))
        same (find2 (emit_cexpr h) rows, rw (built, item), runs)

  module _ (small : length d.tuple2int < 2 ^ 31) (some_key : 0 < length d.tuple2int) where
    level1-Scatters :
        (h : Hash)
        → first_hash (find_l2_hash_mul scaled d) (find_fks_well_distributed d.tuple2int) ≡ some h
        → Scatters h d
    unfolding find_l2_hash_mul
    level1-Scatters h e = elim (Option-cases (find_l2_hash_mul scaled d)) [
      | inr (g, p) ↦
          let same : g ≡ h = ground arith in
          search_mul-Scatters scaled law d (λ f. is_well_distributed d.tuple2int f l1_bucket_max)
            (length d.tuple2int) h small (p ∙ ap some same)
      | inl n ↦
          let (a, (k, p, m, i)) =
            find_fks_well_distributed-eq-some d.tuple2int h some_key (rw n at e) in
          IsFks-Scatters d h k p m narrow i
    ]

    -- For an indexed dictionary that is not empty, with keys below 2^32 and fewer than 2^31
    -- tuples: if find_l2_phash returns tables of two levels, their lookup function is emitted,
    -- and on every key below 2^64 it returns the value of the rule of the key's tuple, or 0 where
    -- no tuple has the key.
    pub find_l2_phash-expected :
        (ph : L2 R)
        → find_l2_phash scaled d ≡ ok (some ph)
        → (f : Find) × (gen_find_l2 value ph ≡ ok f)
          × ((key : ℕ) → key < 2 ^ 64 → run f key ≡ some (expected value d key))
    unfolding find_l2_phash optional_l2
    find_l2_phash-expected ph e =
        of_hash (first_hash (find_l2_hash_mul scaled d) (find_fks_well_distributed d.tuple2int))
          level1-Scatters e
      where
        of_hash :
            (o : Option Hash)
            → ((h : Hash) → o ≡ some h → Scatters h d)
            → optional_l2 scaled d o ≡ ok (some ph)
            → (f : Find) × (gen_find_l2 value ph ≡ ok f)
              × ((key : ℕ) → key < 2 ^ 64 → run f key ≡ some (expected value d key))
        of_hash none s q = absurd (ground arith)
        of_hash (some h) s q =
            let (p, made, z) = >>=-eq-ok (l2_phash scaled d h) _ q in
            l2_phash-expected h ph (s h refl) some_key (made ∙ ground arith)
