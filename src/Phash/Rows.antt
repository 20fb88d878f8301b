-- ===== src/Phash/Rows.antt =====
-- The rows that are emitted, by their position.
use mathlib.Core.Path.{subst}
use native.Mathlib.Nat.{add-zero}
use xed.Base.{
  ℕ, zero, suc, ◌+◌, ◌<◌, ◌≡◌, refl, some, List, [], ◌∷◌, Result, ok, >>=-eq-ok, arith, get_elem?,
}
use xed.Phash.Emit.{rows_from}

module _ {A : Type 0} (row : ℕ → Result A) where
  shifted :
      (lo n i : ℕ) (rows : List A)
      → rows_from row lo n ≡ ok rows
      → i < n
      → (a : A) × (get_elem? rows i ≡ some a) × (row (lo + i) ≡ ok a)
  unfolding rows_from
  shifted lo zero i rows h k = absurd (omega arith)
  shifted lo (suc n) i rows h k =
      let (r, hr, h') = >>=-eq-ok (row lo) _ h in
      let (rs, hrs, e) = >>=-eq-ok (rows_from row (lo + 1) n) _ h' in
      let same : r ∷ rs ≡ rows = ground arith in
      subst (λ l. (a : A) × (get_elem? l i ≡ some a) × (row (lo + i) ≡ ok a)) same
        (at_index i k r rs hr (λ j p. shifted (lo + 1) n j rs hrs p))
    where
      at_index :
          (i : ℕ)
          → i < suc n
          → (r : A) (rs : List A) → row lo ≡ ok r
          → ((j : ℕ) → j < n → (a : A) × (get_elem? rs j ≡ some a) × (row (lo + 1 + j) ≡ ok a))
          → (a : A) × (get_elem? (r ∷ rs) i ≡ some a) × (row (lo + i) ≡ ok a)
      at_index zero p r rs hr ih = (r, refl, rw (add-zero lo) hr)
      at_index (suc j) p r rs hr ih =
          let (a, g, e) = ih j (omega arith) in (a, g, subst (λ m. row m ≡ ok a) (omega arith) e)

  -- Row `i` of the table is the row of slot `i`.
  pub rows_from-get_elem? :
      (n i : ℕ) (rows : List A)
      → rows_from row 0 n ≡ ok rows
      → i < n
      → (a : A) × (get_elem? rows i ≡ some a) × (row i ≡ ok a)
  rows_from-get_elem? n i rows h k =
      let (a, g, e) = shifted 0 n i rows h k in (a, g, subst (λ m. row m ≡ ok a) (omega arith) e)

  -- If every row can be made, so can the table.
  pub rows_from-eq-ok :
      (lo n : ℕ)
      → ((i : ℕ) → (a : A) × (row i ≡ ok a))
      → (rows : List A) × (rows_from row lo n ≡ ok rows)
  unfolding rows_from
  rows_from-eq-ok lo zero h = ([], refl)
  rows_from-eq-ok lo (suc n) h =
      let (r, e) = h lo in let (rs, es) = rows_from-eq-ok (lo + 1) n h in (r ∷ rs, rw (e, es))
