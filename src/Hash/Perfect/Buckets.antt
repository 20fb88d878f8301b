-- ===== src/Hash/Perfect/Buckets.antt =====
-- `is_well_distributed` bounds the number of keys that share a hash value.
use xed.Base.{
  ℕ, ◌+◌, ◌<◌, Bool, true, false, List, [], ◌∷◌, ◌++◌, ◌≡◌, ◌↔◌, refl, inl, inr, arith, Elem, All,
  Option-cases, length, length-append, leb, if◌then◌else◌,
}
use mathlib.Core.Path.{subst, sym}
use xed.Base.Int.{ℤ, int_eq, eqb_ℤ, eqb_ℤ_iff}
use xed.Base.Dict.{
  Dict, IsDict, lookup, insert, values, lookup-insert, insert-IsDict, Elem-values, lookup-Elem,
  values-Elem, Elem-lookup,
}
use xed.Hash.{Hash, apply}
use xed.Hash.Perfect.{
  bin_of, or_empty, fill_buckets, measure_bucket_max, measure_bucket_max_from, is_well_distributed,
}

-- how many of the keys have the hash value `v`
abbrev pub count_hash : ℤ → Dict (List ℕ) ℕ → Hash → ℕ
count_hash v [] f = 0
count_hash v ((t, x) ∷ keylist) f = (if eqb_ℤ (apply f x) v then 1 else 0) + count_hash v keylist f

fill_buckets-length :
    (v : ℤ) (table : Dict ℤ (List (List ℕ))) (keylist : Dict (List ℕ) ℕ) (f : Hash)
    → length (bin_of (fill_buckets table keylist f) v)
      ≡ length (bin_of table v) + count_hash v keylist f
unfolding fill_buckets
fill_buckets-length v table [] f = omega arith
fill_buckets-length v table ((t, x) ∷ keylist) f =
    let h = apply f x in
    let vl = bin_of table h ++ t ∷ [] in
    let ih = fill_buckets-length v (insert h vl table) keylist f in
    ground (
      arith,
      ih,
      lookup-insert h v vl table,
      length-append (bin_of table h) (t ∷ []),
      eqb_ℤ_iff h v,
    )

fill_buckets-IsDict :
    (table : Dict ℤ (List (List ℕ))) (keylist : Dict (List ℕ) ℕ) (f : Hash)
    → IsDict table
    → IsDict (fill_buckets table keylist f)
unfolding fill_buckets
fill_buckets-IsDict table [] f d = d
fill_buckets-IsDict table ((t, x) ∷ keylist) f d =
    fill_buckets-IsDict (insert (apply f x) _ table) keylist f (insert-IsDict (apply f x) _ table d)

measure_from-lt :
    (okay : Bool) (vls : List (List (List ℕ))) (maxbin : ℕ)
    → (measure_bucket_max_from okay vls maxbin ≡ true)
      ↔ ((okay ≡ true) × All (λ vl. length vl < maxbin) vls)
unfolding measure_bucket_max_from
measure_from-lt okay [] maxbin = (λ h. (h, tt), λ h. h.0)
measure_from-lt okay (vl ∷ vls) maxbin =
    let ih = measure_from-lt (if leb maxbin (length vl) then false else okay) vls maxbin in
    (λ h. let p = ih.0 h in (ground arith, (ground arith, p.1)), λ h. ih.1 (ground arith, h.1.1))

All-Elem :
    (P : List (List ℕ) → Type 0) (vls : List (List (List ℕ))) (vl : List (List ℕ))
    → All P vls
    → Elem vl vls
    → P vl
All-Elem P [] vl a m = elim m [ ]
All-Elem P (x ∷ vls) vl a (inl e) = subst P (sym e) a.0
All-Elem P (x ∷ vls) vl a (inr m) = All-Elem P vls vl a.1 m

All-of-Elem :
    (P : List (List ℕ) → Type 0) (vls : List (List (List ℕ)))
    → ((vl : List (List ℕ)) → Elem vl vls → P vl)
    → All P vls
All-of-Elem P [] h = tt
All-of-Elem P (x ∷ vls) h = (h x (inl refl), All-of-Elem P vls (λ vl m. h vl (inr m)))

bins-lt :
    (table : Dict ℤ (List (List ℕ))) (maxbin : ℕ)
    → IsDict table
    → 0 < maxbin
    → All (λ vl. length vl < maxbin) (values table) ↔ ((v : ℤ) → length (bin_of table v) < maxbin)
bins-lt table maxbin d hm = (
  λ a v. elim (Option-cases (lookup v table)) [
    | inl e ↦ subst (λ o. length (or_empty o) < maxbin) (sym e) hm
    | inr (vl, e) ↦
        subst (λ o. length (or_empty o) < maxbin) (sym e)
          (All-Elem _ (values table) vl a (Elem-values v vl table (lookup-Elem v vl table e)))
  ],
  λ h. All-of-Elem _ (values table) (λ vl m.
      let (v, m') = values-Elem vl table m in
      subst (λ o. length (or_empty o) < maxbin) (Elem-lookup v vl table d m') (h v)),
)

-- For a positive bound, is_well_distributed is true exactly when every hash value is the value of
-- fewer keys than the bound.
pub is_well_distributed-count_hash :
    (keylist : Dict (List ℕ) ℕ) (f : Hash) (maxbin : ℕ)
    → 0 < maxbin
    → (is_well_distributed keylist f maxbin ≡ true) ↔ ((v : ℤ) → count_hash v keylist f < maxbin)
unfolding is_well_distributed measure_bucket_max
is_well_distributed-count_hash keylist f maxbin hm =
    let table = fill_buckets [] keylist f in
    let m = measure_from-lt true (values table) maxbin in
    let b = bins-lt table maxbin (fill_buckets-IsDict [] keylist f tt) hm in
    let n = λ (v : ℤ). fill_buckets-length v [] keylist f in
    (
      λ h v. unfold lookup in omega (arith, b.0 (m.0 h).1 v, n v),
      λ h. m.1 (refl, b.1 (λ v. unfold lookup in omega (arith, h v, n v))),
    )
