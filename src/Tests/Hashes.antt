-- ===== src/Tests/Hashes.antt =====
-- The theorems on hash functions, at concrete functions and keys.
use xed.Base.{
  ℕ, ◌≡◌, ◌≢◌, ◌<◌, ◌↔◌, refl, arith, some, none, [], ◌∷◌, nat_eq, list_eq, IsUnique, map, inl, inr,
}
use xed.Base.Int.{pos, int_eq}
use xed.Hash.{fks, mult, apply, get_table_size, need_hash_index_validation}
use xed.Hash.Bounds.{index, apply-index}
use xed.Hash.Cexpr.{emit_cexpr, eval}
use xed.Hash.Emit.{emit_cexpr-lt}
use xed.Hash.Find.{find_fks_perfect}
use xed.Hash.Find.Sound.{IsFks, find_fks_perfect-eq-some}
use xed.Hash.Find.Complete.{IsCandidate, find_fks_perfect_iff}
use xed.Hash.Find.Primes.{Elem-primes}

apply-index_example :
    (apply (mult 5) 13 ≡ pos (index (mult 5) 13)) × (index (mult 5) 13 < get_table_size (mult 5))
apply-index_example = apply-index (mult 5) 13 (omega arith)

emit_cexpr-lt_example :
    (n : ℕ) × (eval (emit_cexpr (mult 4)) 4294967311 ≡ some n) × (n < get_table_size (mult 4))
emit_cexpr-lt_example =
    emit_cexpr-lt (mult 4) 4294967311 (omega arith, omega arith)
      (unfold need_hash_index_validation in refl)

find_fks_perfect-eq-some_example :
    IsUnique (map (apply (fks 6 7 3)) (2 ∷ 7 ∷ 13 ∷ []))
    × ((k : ℕ) × (p : ℕ) × (m : ℕ) × IsFks (fks 6 7 3) k p m)
unfolding apply
find_fks_perfect-eq-some_example =
    find_fks_perfect-eq-some (2 ∷ 7 ∷ 13 ∷ []) (fks 6 7 3) (omega arith)
      (unfold find_fks_perfect in refl)

find_fks_perfect_iff_example :
    (find_fks_perfect (2 ∷ 7 ∷ 13 ∷ []) ≢ none)
    ↔ ((k : ℕ) × (p : ℕ) × (m : ℕ) × IsCandidate (2 ∷ 7 ∷ 13 ∷ []) k p m)
find_fks_perfect_iff_example = find_fks_perfect_iff (2 ∷ 7 ∷ 13 ∷ []) (omega arith)

-- The values of the keys are 2, 0 and 1.
candidate : IsCandidate (2 ∷ 7 ∷ 13 ∷ []) 6 7 3
candidate = record {
  factor_low = omega arith;
  factor_high = omega arith;
  prime = ((Elem-primes 7).0 (inr (inr (inr (inl refl))))).0;
  prime_high = omega arith;
  size = inl refl;
  different = (
    (λ m. elim m [ inl e ↦ cc | inr (inl e) ↦ cc | inr (inr z) ↦ z ]),
    ((λ m. elim m [ inl e ↦ cc | inr z ↦ z ]), ((λ m. m), tt)),
  );
}

found : find_fks_perfect (2 ∷ 7 ∷ 13 ∷ []) ≢ none
found = (find_fks_perfect_iff (2 ∷ 7 ∷ 13 ∷ []) (omega arith)).1 (6, 7, 3, candidate)
