-- ===== src/Hash/Find/Complete.antt =====
-- find_fks_perfect finds a function whenever there is one among the candidates.
use mathlib.Core.Path.{subst}
use native.Mathlib.Nat.{mod-lt, mod-eq_of_lt}
use xed.Base.{
  ℕ, ◌*◌, ◌%◌, ◌-◌, ◌≤◌, ◌<◌, ◌≡◌, ◌≢◌, ◌↔◌, ◌⊎◌, refl, sym, ap, ◌∙◌, inl, inr, true, none, some,
  List, [], ◌∷◌, arith, map, ltb, ltb→lt, lt→ltb, Bool-cases, Option-cases, Elem, IsUnique, length,
  range_from, range_from_bounds, Elem-range_from,
}
use xed.Base.Int.{pos}
use xed.Base.Search.{first_some-eq-some}
use xed.Hash.{Hash, apply, hash_fun_fks}
use xed.Hash.Perfect.{is_perfect}
use xed.Hash.Perfect.Unique.{is_perfect-IsUnique, length-is_perfect}
use xed.Hash.Find.{
  primes, max_k, get_l1_mlist, try_fks, try_prime, try_size, search_fks, found_perfect,
  find_fks_perfect,
}
use xed.Hash.Find.Sound.{search_fks-ne-none, try_fks-eq-some, found_perfect-IsUnique}
use xed.Hash.Find.Primes.{IsPrime, Elem-primes}

-- the sizes of the table that are tried for n keys
abbrev pub IsSize : ℕ → ℕ → Type 0
IsSize n m = (m ≡ n) ⊎ ((1 < n) × ((m ≡ 2 * n) ⊎ ((n ≤ 8) × (m ≡ n * n))))

-- a factor, a prime and a size with which the keys have different values
pub record IsCandidate (keys : List ℕ) (k p m : ℕ) : Type 0 where
  pub factor_low : 3 ≤ k
  pub factor_high : k < 32
  pub prime : IsPrime p
  pub prime_high : p ≤ 941
  pub size : IsSize (length keys) m
  pub different : IsUnique (map (λ x. k * x % p % m) keys)

IsSize→Elem : (n m : ℕ) → IsSize n m → Elem m (get_l1_mlist n)
unfolding get_l1_mlist
IsSize→Elem n m s = ground arith

Elem→IsSize : (n m : ℕ) → Elem m (get_l1_mlist n) → IsSize n m
unfolding get_l1_mlist
Elem→IsSize n m e = ground arith

-- The table of size p serves as one of size m, where p is below m.
apply-hash_fun_fks : (k p m x : ℕ) → 0 < p → apply (hash_fun_fks k p m) x ≡ pos (k * x % p % m)
unfolding apply hash_fun_fks
apply-hash_fun_fks k p m x lt = elim (Bool-cases (ltb p m)) [
  | inl h ↦
      let small = mod-lt (k * x) lt in
      let big : k * x % p < m = omega (arith, small, ltb→lt p m h) in
      rw h (ap pos (mod-eq_of_lt small ∙ sym (mod-eq_of_lt big)))
  | inr h ↦ rw h refl
]

map-apply :
    (k p m : ℕ) (keys : List ℕ)
    → 0 < p
    → map (apply (hash_fun_fks k p m)) keys ≡ map pos (map (λ x. k * x % p % m) keys)
map-apply k p m [] lt = refl
map-apply k p m (x ∷ keys) lt =
    rw (apply-hash_fun_fks k p m x lt) (ap (λ l. pos (k * x % p % m) ∷ l) (map-apply k p m keys lt))

Elem-map_pos : (n : ℕ) (ns : List ℕ) → Elem (pos n) (map pos ns) ↔ Elem n ns
Elem-map_pos n [] = (λ m. m, λ m. m)
Elem-map_pos n (a ∷ ns) =
    let ih = Elem-map_pos n ns in
    (
      λ m. elim m [ inl e ↦ inl cc | inr t ↦ inr (ih.0 t) ],
      λ m. elim m [ inl e ↦ inl (ap pos e) | inr t ↦ inr (ih.1 t) ],
    )

IsUnique-map_pos : (ns : List ℕ) → IsUnique (map pos ns) ↔ IsUnique ns
IsUnique-map_pos [] = (λ u. u, λ u. u)
IsUnique-map_pos (n ∷ ns) =
    let ih = IsUnique-map_pos ns in
    let iff = Elem-map_pos n ns in
    (λ u. (λ m. u.0 (iff.1 m), ih.0 u.1), λ u. (λ m. u.0 (iff.0 m), ih.1 u.1))

IsUnique→found_perfect :
    (keys : List ℕ) (f : Hash)
    → 0 < length keys
    → IsUnique (map (apply f) keys)
    → found_perfect keys f ≡ true
unfolding found_perfect
IsUnique→found_perfect keys f lt u = elim (Option-cases (is_perfect keys f)) [
  | inl e ↦ absurd ((is_perfect-IsUnique keys f).1 u e)
  | inr (found, e) ↦
      rw (found_perfect, e)
        (lt→ltb 0 (length found) (omega (arith, length-is_perfect keys f found e)))
]

found_perfect_iff :
    (keys : List ℕ) (k p m : ℕ)
    → 0 < length keys
    → 0 < p
    → (found_perfect keys (hash_fun_fks k p m) ≡ true) ↔ IsUnique (map (λ x. k * x % p % m) keys)
found_perfect_iff keys k p m lt positive =
    let same = map-apply k p m keys positive in
    let iff = IsUnique-map_pos (map (λ x. k * x % p % m) keys) in
    (
      λ h. iff.0 (subst IsUnique same (found_perfect-IsUnique keys (hash_fun_fks k p m) h)),
      λ u.
          IsUnique→found_perfect keys (hash_fun_fks k p m) lt (subst IsUnique (sym same) (iff.1 u)),
    )

-- what a search has found
find_fks_perfect-IsCandidate :
    (keys : List ℕ) (f : Hash)
    → 0 < length keys
    → find_fks_perfect keys ≡ some f
    → (k : ℕ) × (p : ℕ) × (m : ℕ) × IsCandidate keys k p m × (hash_fun_fks k p m ≡ f)
unfolding find_fks_perfect search_fks try_size try_prime
find_fks_perfect-IsCandidate keys f lt h =
    let accept = found_perfect keys in
    let (m, mm, hm) = first_some-eq-some (try_size accept) (get_l1_mlist (length keys)) f h in
    let (p, mp, hp) = first_some-eq-some (try_prime accept m) primes f hm in
    let (k, mk, hk) = first_some-eq-some (try_fks accept m p) (range_from 3 (max_k - 3)) f hp in
    let (low, high) = range_from_bounds k 3 29 mk in
    let (prime, below) = (Elem-primes p).0 mp in
    let (accepted, made) = try_fks-eq-some accept m p k f hk in
    let fit : found_perfect keys (hash_fun_fks k p m) ≡ true =
      subst (λ g. found_perfect keys g ≡ true) (sym made) accepted in
    (
      k,
      p,
      m,
      record {
        factor_low = low;
        factor_high = high;
        prime = prime;
        prime_high = below;
        size = Elem→IsSize (length keys) m mm;
        different = (found_perfect_iff keys k p m lt (omega (arith, prime.two_le))).0 fit;
      },
      made,
    )

-- For a list of keys that is not empty, find_fks_perfect returns a function exactly when there
-- are a factor k from 3 to 31, a prime p up to 941 and a size m with which the values (k * x mod
-- p) mod m of the keys x are all different, where m is the number n of keys or, for more than one
-- key, 2n, or n * n if n is at most 8.
pub find_fks_perfect_iff :
    (keys : List ℕ)
    → 0 < length keys
    → (find_fks_perfect keys ≢ none) ↔ ((k : ℕ) × (p : ℕ) × (m : ℕ) × IsCandidate keys k p m)
find_fks_perfect_iff keys lt = (
  λ h. elim (Option-cases (find_fks_perfect keys)) [
    | inl e ↦ absurd (h e)
    | inr (f, e) ↦ let (k, p, m, c, made) = find_fks_perfect-IsCandidate keys f lt e in (k, p, m, c)
  ],
  λ c. IsCandidate-ne-none c.0 c.1 c.2 c.3,
)
  where
    IsCandidate-ne-none : (k p m : ℕ) → IsCandidate keys k p m → find_fks_perfect keys ≢ none
    IsCandidate-ne-none k p m c =
        unfold find_fks_perfect in
        search_fks-ne-none (found_perfect keys) (length keys) k p m
          (IsSize→Elem (length keys) m c.size) ((Elem-primes p).1 (c.prime, c.prime_high))
          (Elem-range_from k 3 (max_k - 3) c.factor_low (omega (arith, c.factor_high)))
          ((found_perfect_iff keys k p m lt (omega (arith, c.prime.two_le))).1 c.different)
