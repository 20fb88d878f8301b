-- ===== src/Phash/Linear.antt =====
-- A generated lookup function over a linear table returns the value of the rule of its key. It does
-- not read a key from the table: the range of the index is enough.
use mathlib.Core.Path.{subst}
use xed.Base.{
  ℕ, ◌+◌, ◌-◌, ◌%◌, ◌^◌, ◌≤◌, ◌<◌, ◌≡◌, refl, sym, ap, ◌∙◌, inl, inr, false, Option, some, List, ok,
  arith, nat_eq, list_eq, Bool-cases, Option-cases, if◌then◌else◌, get_elem?, eqb, leb, le→leb,
  leb→le,
}
use xed.Base.Int.{pos, int_eq}
use xed.Base.Dict.{lookup}
use xed.Hash.{linear, apply, get_table_size, is_trivial}
use xed.Hash.Cexpr.{emit_cexpr, eval, sub, key, lit}
use xed.Cdict.{Tuple}
use xed.Cdict.Index.{IsIndexed}
use xed.Phash.{L1}
use xed.Phash.Emit.{
  Row, Find1, table, Validation, hidx_eq, hidx_le, add_key_validation, add_lu_table, gen_find_l1,
  run1, validated,
}
use xed.Phash.Fill.{IsTable}
use xed.Phash.Level1.{expected, RowAt, rows-eq-ok, row_at, in_table, tuple_of}

abbrev range_test : ℕ → Validation
range_test max_key = if eqb max_key 0 then hidx_eq max_key else hidx_le max_key

-- The two forms of the test are one.
validated-range :
    (max_key x hidx : ℕ) (row : Option Row)
    → validated (range_test max_key) x hidx row
      ≡ (if leb hidx max_key then validated (hidx_le hidx) x hidx row else some 0)
unfolding validated
validated-range max_key x hidx row = ground arith

pub linear_apply : (k max_key x : ℕ) → k ≤ x → apply (linear k max_key) x ≡ pos (x - k)
unfolding apply
linear_apply k max_key x h = ground arith

module _ {R : Type 0} (value : R → ℕ) (ph : L1 R) (t : IsTable ph) (w : IsIndexed ph.cdict) where
  module _ (k max_key : ℕ) (made : ph.hash_f ≡ linear k max_key) (fits : k + max_key < 2 ^ 64)
      (in_range : (u : Tuple) (x : ℕ)
        → lookup u ph.cdict.tuple2int ≡ some x
        → (k ≤ x) × (x ≤ k + max_key)) where
    slot_of :
        (u : Tuple) (x : ℕ)
        → lookup x ph.cdict.int2tuple ≡ some u
        → lookup (pos (x - k)) ph.hx2x ≡ some x
    slot_of u x e =
        let r = in_range u x (w.linked.to_int u x e) in
        subst (λ v. lookup v ph.hx2x ≡ some x)
          (ap (λ h. apply h x) made ∙ linear_apply k max_key x r.0)
          (t.slot x (in_table value ph t w x u e))

    key_of : (n x : ℕ) → lookup (pos n) ph.hx2x ≡ some x → (x ≡ k + n)
    key_of n x e =
        let (m, q) = t.key (pos n) x e in
        let (u, r, p, z) = tuple_of value ph t w x m in
        let range = in_range u x (w.linked.to_int u x p) in
        let at : pos (x - k) ≡ pos n =
          sym (linear_apply k max_key x range.0) ∙ ap (λ h. apply h x) (sym made) ∙ q in
        let same : x - k ≡ n = ground (arith, at) in omega (arith, same, range)

    expected-none :
        (x : ℕ)
        → ((u : Tuple) → lookup x ph.cdict.int2tuple ≡ some u → ⊥)
        → expected value ph.cdict x ≡ 0
    expected-none x no_tuple = elim (Option-cases (lookup x ph.cdict.int2tuple)) [
      | inl n ↦ rw n
      | inr (u, p) ↦ absurd (no_tuple u p)
    ]

    row-expected :
        (x n : ℕ) (row : Row)
        → RowAt value ph t w n row
        → k ≤ x
        → n ≡ x - k
        → row.value ≡ expected value ph.cdict x
    row-expected x n row (inl (y, e', q)) lo e =
        let same : y ≡ x = omega (arith, key_of n y e') in
        ap (λ r. r.value) q ∙ ap (expected value ph.cdict) same
    row-expected x n row (inr (e', q)) lo e =
        ap (λ r. r.value) q ∙ sym (expected-none x (λ u p. cc (slot_of u x p, e', ap pos e)))

    from_index :
        (x : ℕ)
        → x < 2 ^ 64
        → (rows : List Row) → add_lu_table value ph ≡ ok rows
        → validated
            (range_test max_key)
            x
            ((x + 2 ^ 64 - k) % 2 ^ 64)
            (get_elem? rows ((x + 2 ^ 64 - k) % 2 ^ 64))
          ≡ some (expected value ph.cdict x)
    from_index x lt rows built =
        let hidx = (x + 2 ^ 64 - k) % 2 ^ 64 in
        rw (validated-range max_key x hidx) (elim (Bool-cases (leb hidx max_key)) [
          | inl inside ↦
              let le = leb→le hidx max_key inside in
              let size : get_table_size ph.hash_f ≡ max_key + 1 =
                ap get_table_size made ∙ unfold get_table_size in refl in
              let (row, got, at_n) = row_at value ph t w rows hidx built (omega (arith, size)) in
              rw (inside, got)
                (unfold validated in
                  rw (le→leb hidx hidx (omega arith))
                    (ap some (row-expected x hidx row at_n (omega arith) (omega arith))))
          | inr outside ↦ rw outside (
              ap some (
                sym (
                  expected-none x (λ u p.
                    let range = in_range u x (w.linked.to_int u x p) in
                    cc (outside, le→leb hidx max_key (omega (arith, range)))))))
        ])

    -- For a filled table over an indexed dictionary with a linear hash whose range has all the
    -- keys and ends below 2^64: the emitted lookup function, which tests the range of the index
    -- and reads no key, returns on every key below 2^64 the value of the key's rule, or 0 where
    -- no tuple has the key.
    pub linear-expected :
        (f : Find1) × (gen_find_l1 value ph ≡ ok f)
        × ((x : ℕ) → x < 2 ^ 64 → run1 f x ≡ some (expected value ph.cdict x))
    unfolding gen_find_l1
    linear-expected =
        let (rows, built) = rows-eq-ok value ph t w in
        let plain : is_trivial ph.hash_f ≡ false = ap is_trivial made ∙ unfold is_trivial in refl in
        let valid : add_key_validation ph.hash_f ≡ ok (range_test max_key) =
          ap add_key_validation made ∙ unfold add_key_validation in refl in
        let emitted : emit_cexpr ph.hash_f ≡ sub key (lit k) =
          ap emit_cexpr made ∙ unfold emit_cexpr in refl in
        (
          table (sub key (lit k)) (range_test max_key) rows,
          rw (plain, built, valid, emitted),
          λ x lt. unfold run1 eval in from_index x lt rows built,
        )
