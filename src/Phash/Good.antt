-- ===== src/Phash/Good.antt =====
-- Every hash function that the searches return is good for the keys of its dictionary.
use mathlib.Core.Path.{subst}
use xed.Base.{
  ℕ, ◌+◌, ◌*◌, ◌^◌, ◌≤◌, ◌<◌, ◌≡◌, ◌⊎◌, refl, sym, inl, inr, Bool, true, Option, none, some, List,
  [], ◌∷◌, arith, nat_eq, list_eq, map, Elem, Bool-cases, if◌then◌else◌, leb, ltb, ltb→lt, contains,
  range_from, range_from_bounds,
}
use xed.Base.Search.{first_some-eq-some}
use xed.Base.Sort.{Elem-sorted}
use xed.Hash.{Hash, mult, need_hash_index_validation}
use xed.Hash.Find.{min_of, max_of}
use xed.Hash.Find.Sound.{IsFks}
use xed.Cdict.{Cdict}
use xed.Phash.Gen.{add_all, find_candidate_lengths_mul, search_mul}
use xed.Phash.Level1.{Scatters, HasNarrowKeys}

fks-product : (k x : ℕ) → k < 32 → x < 2 ^ 32 → k * x < 2 ^ 64
fks-product k x hk hx = omega (arith, mul_bound k x hk)
  where
    mul_bound : (k x : ℕ) → k < 32 → k * x ≤ 32 * x
    mul_bound k x h = grind arith

-- An FKS function from a search validates its keys, and its products do not wrap.
pub IsFks-Scatters :
    {R : Type 0} (d : Cdict R) (f : Hash) (k p m : ℕ)
    → HasNarrowKeys d
    → IsFks f k p m
    → Scatters f d
IsFks-Scatters d f k p m narrow i =
    subst (λ g. Scatters g d) (sym i.made)
      (record {
        validates = unfold need_hash_index_validation in refl;
        emittable = (i.prime_pos, i.size_pos);
        in_domain = λ u x e. (i.prime_pos, i.size_pos);
        no_wrap = λ u x e. fks-product k x (omega (arith, i.high)) (narrow u x e);
      })

mult-Scatters : {R : Type 0} (d : Cdict R) (n : ℕ) → 1 < n → n ≤ 2 ^ 32 → Scatters (mult n) d
mult-Scatters d n lo hi = record {
  validates = unfold need_hash_index_validation in refl;
  emittable = (lo, hi);
  in_domain = λ u x e. omega arith;
  no_wrap = λ u x e. tt;
}

Elem-add_all : (p : ℕ) (s r : List ℕ) → Elem p (add_all s r) → Elem p s ⊎ ((1 < p) × Elem p r)
unfolding add_all
Elem-add_all p s [] m = inl m
Elem-add_all p s (a ∷ r) m =
    let grown = if ltb 1 a then (if contains a s then s else a ∷ s) else s in
    elim (Elem-add_all p grown r m) [
      | inr (lo, q) ↦ inr (lo, inr q)
      | inl q ↦ elim (Bool-cases (ltb 1 a)) [
        | inr small ↦ inl (rw small at q)
        | inl big ↦ elim (Bool-cases (contains a s)) [
          | inl old ↦ inl (rw old at (rw big at q))
          | inr new ↦ elim (rw new at (rw big at q)) [
            | inl e ↦ inr (omega (arith, ltb→lt 1 a big, e), inl e)
            | inr o ↦ inl o
          ]
        ]
      ]
    ]

Elem-map_inverse :
    (f : ℕ → ℕ) (y : ℕ) (xs : List ℕ) → Elem y (map f xs) → (x : ℕ) × Elem x xs × (y ≡ f x)
Elem-map_inverse f y [] m = elim m [ ]
Elem-map_inverse f y (x ∷ xs) (inl e) = (x, inl refl, e)
Elem-map_inverse f y (x ∷ xs) (inr m) = let (z, n, e) = Elem-map_inverse f y xs m in (z, inr n, e)

-- The scaled length of a table is at most twice the number of its keys, rounded up.
abbrev pub IsScaled : (ℕ → ℕ → ℕ) → Type 0
IsScaled scaled = (n x : ℕ) → x ≤ 10 → scaled n x ≤ 2 * n + 1

module _ (scaled : ℕ → ℕ → ℕ) (law : IsScaled scaled) where
  -- If the scaled lengths of the factors 1.0 to 2.0 are at most 2n + 1, every length that
  -- find_candidate_lengths_mul returns is above one and at most 2n + 1.
  pub candidate_lengths_bounds :
      (n p : ℕ) → Elem p (find_candidate_lengths_mul scaled n) → (1 < p) × (p ≤ 2 * n + 1)
  unfolding find_candidate_lengths_mul
  candidate_lengths_bounds n p m =
      elim (Elem-add_all p [] (map (scaled n) (range_from 0 11)) ((Elem-sorted leb p _).0 m)) [
        | inl q ↦ absurd q
        | inr (lo, q) ↦
            let (x, k, e) = Elem-map_inverse (scaled n) p (range_from 0 11) q in
            (lo, omega (arith, range_from_bounds x 0 11 k, law n x, e))
      ]

  try_mul-eq-some :
      (accept : Hash → Bool) (p : ℕ) (f : Hash)
      → ◌≡◌ {A = Option Hash} (if accept (mult p) then some (mult p) else none) (some f)
      → (f ≡ mult p) × (accept f ≡ true)
  try_mul-eq-some accept p f h = elim (Bool-cases (accept (mult p))) [
    | inl a ↦ let e : mult p ≡ f = ground arith in (sym e, subst (λ g. accept g ≡ true) e a)
    | inr a ↦ ground arith
  ]

  pub search_mul-eq-some :
      (accept : Hash → Bool) (n : ℕ) (f : Hash)
      → search_mul scaled accept n ≡ some f
      → (accept f ≡ true) × ((p : ℕ) × (f ≡ mult p) × (1 < p) × (p ≤ 2 * n + 1))
  unfolding search_mul
  search_mul-eq-some accept n f h =
      let (p, m, e) =
        first_some-eq-some (λ p. if accept (mult p) then some (mult p) else none)
          (find_candidate_lengths_mul scaled n) f h in
      let (made, a) = try_mul-eq-some accept p f e in
      let (lo, hi) = candidate_lengths_bounds n p m in (a, (p, made, lo, hi))

  pub search_mul-Scatters :
      {R : Type 0} (d : Cdict R) (accept : Hash → Bool) (n : ℕ) (f : Hash)
      → n < 2 ^ 31
      → search_mul scaled accept n ≡ some f
      → Scatters f d
  search_mul-Scatters d accept n f small h =
      let (a, (p, made, lo, hi)) = search_mul-eq-some accept n f h in
      subst (λ g. Scatters g d) (sym made) (mult-Scatters d p lo (omega arith))

pub min_of-le : (a x : ℕ) (xs : List ℕ) → (x ≡ a) ⊎ Elem x xs → min_of a xs ≤ x
min_of-le a x [] (inl e) = omega arith
min_of-le a x [] (inr m) = elim m [ ]
min_of-le a x (y ∷ ys) h = elim h [
  | inl e ↦
      ground (arith, min_of-le (if ltb y a then y else a) (if ltb y a then y else a) ys (inl refl))
  | inr m ↦ elim m [
    | inl e ↦
        ground
          (arith, min_of-le (if ltb y a then y else a) (if ltb y a then y else a) ys (inl refl))
    | inr q ↦ min_of-le (if ltb y a then y else a) x ys (inr q)
  ]
]

pub max_of-ge : (a x : ℕ) (xs : List ℕ) → (x ≡ a) ⊎ Elem x xs → x ≤ max_of a xs
max_of-ge a x [] (inl e) = omega arith
max_of-ge a x [] (inr m) = elim m [ ]
max_of-ge a x (y ∷ ys) h = elim h [
  | inl e ↦
      ground (arith, max_of-ge (if ltb a y then y else a) (if ltb a y then y else a) ys (inl refl))
  | inr m ↦ elim m [
    | inl e ↦
        ground
          (arith, max_of-ge (if ltb a y then y else a) (if ltb a y then y else a) ys (inl refl))
    | inr q ↦ max_of-ge (if ltb a y then y else a) x ys (inr q)
  ]
]
