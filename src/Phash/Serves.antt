-- ===== src/Phash/Serves.antt =====
-- Each table that a search returns gives a lookup function that meets the specification.
use mathlib.Core.Path.{subst}
use xed.Base.{
  ℕ, suc, ◌+◌, ◌-◌, ◌*◌, ◌^◌, ◌≤◌, ◌<◌, ◌≡◌, ◌≢◌, ◌⊎◌, ◌&&◌, refl, sym, ap, ◌∙◌, inl, inr, Bool,
  true, false, Option, none, some, List, [], ◌∷◌, String, ok, die, arith, nat_eq, list_eq, ◌>>=◌,
  >>=-eq-ok, or_raise, or_raise-eq-ok, Elem, Bool-cases, Option-cases, if◌then◌else◌, ltb, length,
}
use xed.Base.Dict.{lookup, values, keys, Elem-keys, lookup-Elem, lookup-of-key, Elem-values}
use xed.Hash.{Hash, linear, linear_func, is_trivial, need_hash_index_validation}
use xed.Hash.Perfect.{mult_is_perfect}
use xed.Hash.Find.{min_of, max_of, get_linear_hash_function, find_fks_perfect}
use xed.Hash.Find.Sound.{find_fks_perfect-eq-some}
use xed.Cdict.{Tuple, Cdict}
use xed.Cdict.Index.{IsIndexed}
use xed.Phash.{L1, l1_phash}
use xed.Phash.Emit.{Find1, gen_find_l1, run1}
use xed.Phash.Fill.{l1_phash-IsTable}
use xed.Phash.Gen.{
  is_linear, table_of, linear_table, optional_table, find_l1_phash_fks, search_mul,
  find_l1_phash_mul, or_fks, scattered_table, second_level, by_names, gen_hash_one_level,
}
use xed.Phash.Level1.{HasNarrowKeys, Scatters, expected, scattered-expected}
use xed.Phash.Linear.{linear-expected}
use xed.Phash.Good.{IsFks-Scatters, IsScaled, search_mul-Scatters, min_of-le, max_of-ge}

max_of-Elem : (a : ℕ) (xs : List ℕ) → (max_of a xs ≡ a) ⊎ Elem (max_of a xs) xs
max_of-Elem a [] = inl refl
max_of-Elem a (x ∷ xs) =
    let top = if ltb a x then x else a in
    elim (max_of-Elem top xs) [
      | inr m ↦ inr (inr m)
      | inl e ↦ elim (Bool-cases (ltb a x)) [
        | inl p ↦ inr (inl (e ∙ ground arith))
        | inr p ↦ inl (e ∙ ground arith)
      ]
    ]

min_of-Elem : (a : ℕ) (xs : List ℕ) → (min_of a xs ≡ a) ⊎ Elem (min_of a xs) xs
min_of-Elem a [] = inl refl
min_of-Elem a (x ∷ xs) =
    let low = if ltb x a then x else a in
    elim (min_of-Elem low xs) [
      | inr m ↦ inr (inr m)
      | inl e ↦ elim (Bool-cases (ltb x a)) [
        | inl p ↦ inr (inl (e ∙ ground arith))
        | inr p ↦ inl (e ∙ ground arith)
      ]
    ]

-- The linear function that is found covers exactly the range from the least key to the greatest, and
-- the range has at most a fifth more slots than there are keys.
pub record Covers (h : Hash) (keylist : List ℕ) : Type 0 where
  pub k : ℕ
  pub max_key : ℕ
  pub made : h ≡ linear k max_key
  pub inside : (x : ℕ) → Elem x keylist → (k ≤ x) × (x ≤ k + max_key)
  pub first : Elem k keylist
  pub last : Elem (k + max_key) keylist
  pub dense : (max_key + 1) * 10 ≤ length keylist * 12

not_sparse-le :
    (nelem nslots : ℕ)
    → (ltb nelem nslots && ltb (nelem * 12) (nslots * 10)) ≡ false
    → nslots * 10 ≤ nelem * 12
not_sparse-le nelem nslots h = elim (Bool-cases (ltb nelem nslots)) [
  | inl a ↦ elim (Bool-cases (ltb (nelem * 12) (nslots * 10))) [
    | inl b ↦ absurd (ground arith)
    | inr b ↦ ground arith
  ]
  | inr a ↦ ground arith
]

-- A function that get_linear_hash_function returns is linear from a key on that is the least one,
-- has all keys in its range, its range ends at a key, and ten times the slots of the range are at
-- most twelve times the keys.
pub get_linear_hash_function-Covers :
    (keylist : List ℕ) (h : Hash)
    → get_linear_hash_function keylist ≡ ok (some h)
    → Covers h keylist
unfolding get_linear_hash_function
get_linear_hash_function-Covers [] h e = absurd cc
get_linear_hash_function-Covers (x ∷ xs) h e =
    let low = min_of-le x x xs (inl refl) in
    let high = max_of-ge x x xs (inl refl) in
    let nslots = max_of x xs - min_of x xs + 1 in
    let sparse = ltb (suc (length xs)) nslots && ltb (suc (length xs) * 12) (nslots * 10) in
    let up : min_of x xs + (max_of x xs - min_of x xs) ≡ max_of x xs = omega (arith, low, high) in
    let not_sparse : sparse ≡ false = elim (Bool-cases sparse) [
      | inl s ↦ absurd (ground arith)
      | inr s ↦ s
    ] in
    let same : linear_func (min_of x xs) (max_of x xs) ≡ h = ground arith in
    record {
      k = min_of x xs;
      max_key = max_of x xs - min_of x xs;
      made = sym same ∙ unfold linear_func in refl;
      inside = λ y m. (min_of-le x y xs m, omega (arith, max_of-ge x y xs m, up));
      first = min_of-Elem x xs;
      last = subst (λ n. (n ≡ x) ⊎ Elem n xs) (sym up) (max_of-Elem x xs);
      dense = not_sparse-le (suc (length xs)) nslots not_sparse;
    }

module _ {R : Type 0} (value : R → ℕ) where
  -- The table's function can be written, is not the trivial one, and is the lookup in `d`.
  pub record Serves (d : Cdict R) (ph : L1 R) : Type 0 where
    pub searched : is_trivial ph.hash_f ≡ false
    pub find : Find1
    pub made : gen_find_l1 value ph ≡ ok find
    pub found : (key : ℕ) → key < 2 ^ 64 → run1 find key ≡ some (expected value d key)

  not_trivial : (h : Hash) → need_hash_index_validation h ≡ true → is_trivial h ≡ false
  unfolding need_hash_index_validation is_trivial
  not_trivial (Hash.linear k m) v = refl
  not_trivial (Hash.fks k p m) v = refl
  not_trivial (Hash.mult n) v = refl
  not_trivial Hash.trivial v = cc

  module _ (d : Cdict R) (w : IsIndexed d) (narrow : HasNarrowKeys d) where
    key-lookup : (x : ℕ) → Elem x (keys d.int2tuple) → (u : Tuple) × (lookup u d.tuple2int ≡ some x)
    key-lookup x m = elim (Option-cases (lookup x d.int2tuple)) [
      | inl n ↦ absurd (lookup-of-key x d.int2tuple m n)
      | inr (u, e) ↦ (u, w.linked.to_int u x e)
    ]

    length_pos : (x : ℕ) (xs : List ℕ) → Elem x xs → 0 < length xs
    length_pos x [] m = elim m [ ]
    length_pos x (y ∷ ys) m = omega arith

    scattered-Serves : (h : Hash) (ph : L1 R) → Scatters h d → l1_phash d h ≡ ok ph → Serves d ph
    scattered-Serves h ph s e =
        let (same, hash, t) = l1_phash-IsTable d h ph e in
        let s' : Scatters ph.hash_f ph.cdict =
          subst (λ c. Scatters ph.hash_f c) (sym same) (subst (λ g. Scatters g d) (sym hash) s) in
        let (f, m, r) =
          scattered-expected value ph t (subst IsIndexed (sym same) w) s'
            (subst HasNarrowKeys (sym same) narrow) in
        record {
          searched = not_trivial ph.hash_f s'.validates;
          find = f;
          made = m;
          found = λ key lt. r key ∙ ap (λ c. some (expected value c key)) same;
        }

    linear-Serves :
        (h : Hash) (ph : L1 R) → Covers h (keys d.int2tuple) → l1_phash d h ≡ ok ph → Serves d ph
    linear-Serves h ph c e =
        let (same, hash, t) = l1_phash-IsTable d h ph e in
        let (u, last) = key-lookup (c.k + c.max_key) c.last in
        let lt = narrow u (c.k + c.max_key) last in
        let in_range : (v : Tuple) (x : ℕ)
            → lookup v ph.cdict.tuple2int ≡ some x
            → (c.k ≤ x) × (x ≤ c.k + c.max_key) =
          subst
            (λ b.
              (v : Tuple) (x : ℕ)
              → lookup v b.tuple2int ≡ some x
              → (c.k ≤ x) × (x ≤ c.k + c.max_key))
            (sym same)
            (λ v x p.
              c.inside x
                (Elem-keys x v d.int2tuple (lookup-Elem x v _ (w.linked.to_tuple v x p)))) in
        let (f, m, r) =
          linear-expected value ph t (subst IsIndexed (sym same) w) c.k c.max_key (hash ∙ c.made)
            (omega arith) in_range in
        record {
          searched = ap is_trivial (hash ∙ c.made) ∙ unfold is_trivial in refl;
          find = f;
          made = m;
          found = λ key lt. r key lt ∙ ap (λ c. some (expected value c key)) same;
        }

    pub linear_table-Serves : (ph : L1 R) → linear_table d ≡ ok ph → Serves d ph
    unfolding linear_table table_of
    linear_table-Serves ph e =
        let (o, p, q) = >>=-eq-ok (get_linear_hash_function (keys d.int2tuple)) (table_of d) e in
        by_hash o p q
      where
        by_hash :
            (o : Option Hash)
            → get_linear_hash_function (keys d.int2tuple) ≡ ok o
            → table_of d o ≡ ok ph
            → Serves d ph
        by_hash none p q = absurd cc
        by_hash (some h) p q =
            linear-Serves h ph (get_linear_hash_function-Covers (keys d.int2tuple) h p) q

    optional-Serves :
        (o : Option Hash) (ph : L1 R)
        → ((h : Hash) → o ≡ some h → Scatters h d)
        → optional_table d o ≡ ok (some ph)
        → Serves d ph
    unfolding optional_table
    optional-Serves none ph s e = absurd (ground arith)
    optional-Serves (some h) ph s e =
        let (t, p, q) = >>=-eq-ok (l1_phash d h) _ e in
        scattered-Serves h ph (s h refl) (p ∙ ground arith)

    fks-Serves :
        (ph : L1 R)
        → 0 < length (values d.tuple2int)
        → find_l1_phash_fks d ≡ ok (some ph)
        → Serves d ph
    unfolding find_l1_phash_fks
    fks-Serves ph some_key = optional-Serves (find_fks_perfect (values d.tuple2int)) ph (λ h e.
        let (u, (k, p, m, i)) = find_fks_perfect-eq-some (values d.tuple2int) h some_key e in
        IsFks-Scatters d h k p m narrow i)

    -- A dictionary that can be asked whether it is dense has a key.
    pub is_linear-length :
        (dense : Bool) → is_linear (keys d.int2tuple) ≡ ok dense → 0 < length (values d.tuple2int)
    is_linear-length dense = of_keys (keys d.int2tuple) (λ x m. m)
      where
        of_keys :
            (xs : List ℕ)
            → ((x : ℕ) → Elem x xs → Elem x (keys d.int2tuple))
            → is_linear xs ≡ ok dense
            → 0 < length (values d.tuple2int)
        of_keys [] h e = absurd (unfold is_linear in cc (e))
        of_keys (x ∷ xs) h e =
            let (u, p) = key-lookup x (h x (inl refl)) in
            length_pos x (values d.tuple2int) (Elem-values u x d.tuple2int (lookup-Elem u x _ p))

    module _ (scaled : ℕ → ℕ → ℕ) (law : IsScaled scaled)
        (small : length d.tuple2int < 2 ^ 31) where
      mul-Serves : (ph : L1 R) → find_l1_phash_mul scaled d ≡ ok (some ph) → Serves d ph
      unfolding find_l1_phash_mul
      mul-Serves ph =
          optional-Serves
            (search_mul scaled (mult_is_perfect (values d.tuple2int)) (length d.tuple2int)) ph
            (λ h.
              search_mul-Scatters scaled law d (mult_is_perfect (values d.tuple2int))
                (length d.tuple2int) h small)

      -- Whichever search succeeds, its table serves.
      pub scattered_table-Serves :
          (ph : L1 R)
          → 0 < length (values d.tuple2int)
          → scattered_table scaled d ≡ ok (some ph)
          → Serves d ph
      unfolding scattered_table or_fks
      scattered_table-Serves ph some_key e =
          let (o, p, q) = >>=-eq-ok (find_l1_phash_mul scaled d) (or_fks scaled d) e in
          by_search o p q
        where
          by_search :
              (o : Option (L1 R))
              → find_l1_phash_mul scaled d ≡ ok o
              → or_fks scaled d o ≡ ok (some ph)
              → Serves d ph
          by_search none p q = fks-Serves ph some_key q
          by_search (some t) p q = mul-Serves ph (p ∙ q)

      pub second_level-Serves : (ph : L1 R) → second_level scaled d ≡ ok ph → Serves d ph
      unfolding second_level
      second_level-Serves ph e =
          let (dense, p, q) = >>=-eq-ok (is_linear (keys d.int2tuple)) _ e in
          by_density dense (is_linear-length dense p) q
        where
          by_density :
              (dense : Bool)
              → 0 < length (values d.tuple2int)
              → (if dense then linear_table d else (scattered_table scaled d >>= or_raise die))
                ≡ ok ph
              → Serves d ph
          by_density true n q = linear_table-Serves ph q
          by_density false n q =
              let (o, r, z) = >>=-eq-ok (scattered_table scaled d) (or_raise die) q in
              scattered_table-Serves ph n (r ∙ ap ok (or_raise-eq-ok die o z))

      -- For an indexed dictionary with at least one constraint name, keys below 2^32 and fewer
      -- than 2^31 tuples: a table that gen_hash_one_level returns, whichever search made it, does
      -- not have the trivial hash, and its emitted lookup function returns on every key below
      -- 2^64 the value of the key's rule, or 0.
      pub gen_hash_one_level-Serves :
          (ph : L1 R) → d.cnames ≢ [] → gen_hash_one_level scaled d ≡ ok (some ph) → Serves d ph
      unfolding gen_hash_one_level by_names
      gen_hash_one_level-Serves ph named e = of_names d.cnames named e
        where
          by_density :
              (dense : Bool)
              → 0 < length (values d.tuple2int)
              → (if dense then (do t ← linear_table d; ok (some t)) else scattered_table scaled d)
                ≡ ok (some ph)
              → Serves d ph
          by_density true n q =
              let (t, r, z) = >>=-eq-ok (linear_table d) _ q in
              linear_table-Serves ph (r ∙ ground arith)
          by_density false n q = scattered_table-Serves ph n q

          of_names :
              (names : List String)
              → names ≢ []
              → by_names scaled d names ≡ ok (some ph)
              → Serves d ph
          of_names [] n q = absurd (n refl)
          of_names (name ∷ names) n q =
              let (dense, r, z) = >>=-eq-ok (is_linear (keys d.int2tuple)) _ q in
              by_density dense (is_linear-length dense r) z
