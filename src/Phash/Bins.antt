-- ===== src/Phash/Bins.antt =====
-- What the constructor of `l2_phash_t` leaves in its bins, and the tables that it makes of them.
use mathlib.Core.Path.{subst}
use xed.Base.{
  ℕ, ◌≤◌, ◌≡◌, refl, sym, ap, ◌∙◌, inl, inr, false, none, some, List, [], ◌∷◌, ◌++◌, ok, >>=-eq-ok,
  arith, nat_eq, list_eq, leb, Elem, Elem-append_left, Elem-append_right, Bool-cases, length,
  length-append,
}
use xed.Base.Int.{ℤ, int_eq, eqb_ℤ, eqb_ℤ_iff}
use xed.Base.Dict.{
  Dict, lookup, insert, IsDict, insert-IsDict, lookup-insert, lookup-insert_cases,
  lookup-insert_self,
}
use xed.Hash.{Hash, apply}
use xed.Hash.Perfect.{bin_of, or_empty}
use xed.Hash.Find.{l1_bucket_max}
use xed.Cdict.{Tuple, Cdict, filter_tuples}
use xed.Phash.{L1, fill_l2}
use xed.Phash.Gen.{second_level, fill_hx2phash}

abbrev pub Bins : Type 0
Bins = Dict ℤ (List Tuple)

-- The tuple stands in the bin of this hash value.
abbrev pub InBin : Bins → ℤ → Tuple → Type 0
InBin bins v t = (ts : List Tuple) × (lookup v bins ≡ some ts) × Elem t ts

-- No bin has more tuples than the bound.
abbrev pub AreSmall : Bins → Type 0
AreSmall bins = (v : ℤ) (ts : List Tuple) → lookup v bins ≡ some ts → length ts ≤ l1_bucket_max

abbrev with_tuple : ℤ → Tuple → Bins → Bins
with_tuple v t bins = insert v (bin_of bins v ++ t ∷ []) bins

InBin-self : (v : ℤ) (t : Tuple) (bins : Bins) → InBin (with_tuple v t bins) v t
InBin-self v t bins = (
  bin_of bins v ++ t ∷ [],
  lookup-insert_self v (bin_of bins v ++ t ∷ []) bins,
  Elem-append_right t (bin_of bins v) (t ∷ []) (inl refl),
)

InBin-with_tuple :
    (v w : ℤ) (t u : Tuple) (bins : Bins) → InBin bins w u → InBin (with_tuple v t bins) w u
InBin-with_tuple v w t u bins (ts, e, m) = elim (Bool-cases (eqb_ℤ v w)) [
  | inl p ↦
      let same : v ≡ w = (eqb_ℤ_iff v w).0 p in
      let bin : bin_of bins v ≡ ts = ap (bin_of bins) same ∙ ap or_empty e in
      (
        bin_of bins v ++ t ∷ [],
        lookup-insert v w (bin_of bins v ++ t ∷ []) bins ∙ ground arith,
        Elem-append_left u (bin_of bins v) (t ∷ []) (subst (Elem u) (sym bin) m),
      )
  | inr p ↦ (ts, lookup-insert v w (bin_of bins v ++ t ∷ []) bins ∙ ground arith, m)
]

AreSmall-with_tuple :
    (v : ℤ) (t : Tuple) (bins : Bins)
    → leb l1_bucket_max (length (bin_of bins v)) ≡ false
    → AreSmall bins
    → AreSmall (with_tuple v t bins)
AreSmall-with_tuple v t bins room small w ts e =
    elim (lookup-insert_cases v w (bin_of bins v ++ t ∷ []) ts bins e) [
      | inl (p, q) ↦
          subst (λ l. length l ≤ l1_bucket_max) q
            (ground (arith, length-append (bin_of bins v) (t ∷ [])))
      | inr o ↦ small w ts o
    ]

-- From one state of the bins to the end of the loop.
pub record Binned (h : Hash) (items : Dict Tuple ℕ) (bins bins' : Bins) : Type 0 where
  pub dict : IsDict bins'
  pub small : AreSmall bins'
  pub kept : (v : ℤ) (t : Tuple) → InBin bins v t → InBin bins' v t
  pub added : (t : Tuple) (x : ℕ) → Elem (t, x) items → InBin bins' (apply h x) t

fill_l2-Binned :
    (h : Hash) (items : Dict Tuple ℕ) (bins bins' : Bins) (x2hx x2hx' : Dict ℕ ℤ)
    → IsDict bins
    → AreSmall bins
    → fill_l2 h items bins x2hx ≡ ok (bins', x2hx')
    → Binned h items bins bins'
unfolding fill_l2
fill_l2-Binned h [] bins bins' x2hx x2hx' d s e =
    let same : bins ≡ bins' = ground arith in
    subst (Binned h [] bins) same
      (record { dict = d; small = s; kept = λ v t m. m; added = λ t x m. elim m [ ] })
fill_l2-Binned h ((t, x) ∷ items) bins bins' x2hx x2hx' d s e =
    elim (Bool-cases (leb l1_bucket_max (length (bin_of bins (apply h x))))) [
      | inl full ↦ absurd (ground arith)
      | inr room ↦
          let v = apply h x in
          let r =
            fill_l2-Binned h items (with_tuple v t bins) bins' (insert x v x2hx) x2hx'
              (insert-IsDict v (bin_of bins v ++ t ∷ []) bins d)
              (AreSmall-with_tuple v t bins room s) (ground arith) in
          record {
            dict = r.dict;
            small = r.small;
            kept = λ w u m. r.kept w u (InBin-with_tuple v w t u bins m);
            added = λ u y m. elim m [
              | inl p ↦
                  subst (λ q. InBin bins' (apply h q.1) q.0) (sym p)
                    (r.kept v t (InBin-self v t bins))
              | inr q ↦ r.added u y q
            ];
          }
    ]

-- If the loop over the tuples succeeds from empty bins, the bins are a dictionary, no bin has
-- more than 8 tuples, and each tuple stands in the bin of the hash value of its key.
pub fill_l2-InBin :
    (h : Hash) (items : Dict Tuple ℕ) (bins : Bins) (x2hx : Dict ℕ ℤ)
    → fill_l2 h items [] [] ≡ ok (bins, x2hx)
    → Binned h items [] bins
fill_l2-InBin h items bins x2hx e =
    fill_l2-Binned h items [] bins [] x2hx tt (λ v ts p. absurd (unfold lookup in cc (p))) e

module _ (scaled : ℕ → ℕ → ℕ) {R : Type 0} (d : Cdict R) where
  -- The table at a hash value is the one of its bin.
  pub record TableOf (tuples : List Tuple) (ph : L1 R) : Type 0 where
    pub part : Cdict R
    pub filtered : filter_tuples d tuples ≡ ok part
    pub found : second_level scaled part ≡ ok ph

  pub record Tables (bins : Bins) (start tables : Dict ℤ (L1 R)) : Type 0 where
    pub kept : (v : ℤ) → lookup v bins ≡ none → lookup v tables ≡ lookup v start
    pub added :
        (v : ℤ) (tuples : List Tuple)
        → lookup v bins ≡ some tuples
        → (ph : L1 R) × (lookup v tables ≡ some ph) × TableOf tuples ph

  pub fill_hx2phash-Tables :
      (bins : Bins) (start tables : Dict ℤ (L1 R))
      → IsDict bins
      → fill_hx2phash scaled d bins start ≡ ok tables
      → Tables bins start tables
  unfolding fill_hx2phash lookup
  fill_hx2phash-Tables [] start tables w e = record {
    kept = λ v p. ground arith;
    added = λ v ts p. absurd cc;
  }
  fill_hx2phash-Tables ((hx, tuples) ∷ bins) start tables w e =
      let (part, filtered, e') = >>=-eq-ok (filter_tuples d tuples) _ e in
      let (ph, found, e'') = >>=-eq-ok (second_level scaled part) _ e' in
      let r = fill_hx2phash-Tables bins (insert hx ph start) tables w.1 e'' in
      let made : TableOf tuples ph = record { part = part; filtered = filtered; found = found } in
      record {
        kept = λ v p. ground (arith, r.kept v, lookup-insert hx v ph start);
        added = λ v ts p. elim (Bool-cases (eqb_ℤ hx v)) [
          | inl q ↦
              let same : hx ≡ v = (eqb_ℤ_iff hx v).0 q in
              let stored : lookup hx tables ≡ some ph =
                r.kept hx w.0 ∙ lookup-insert_self hx ph start in
              let tuples_eq : tuples ≡ ts = ground arith in
              (
                ph,
                subst (λ k. lookup k tables ≡ some ph) same stored,
                subst (λ l. TableOf l ph) tuples_eq made,
              )
          | inr q ↦ r.added v ts (ground arith)
        ];
      }
