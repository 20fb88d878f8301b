-- ===== src/Phash/Total.antt =====
-- The choice of a table of one level ends without an exception.
use mathlib.Core.Path.{subst}
use xed.Base.{
  ℕ, suc, ◌+◌, ◌-◌, ◌<◌, ◌≤◌, ◌≡◌, ◌≢◌, refl, sym, ap, ◌∙◌, inl, inr, String, Bool, true, false,
  Option, none, some, List, [], ◌∷◌, ◌++◌, map, ok, arith, Elem, Elem-map, IsUnique, Bool-cases,
  Option-cases, nat_eq, list_eq, contains, contains-Elem, length, eqb,
}
use xed.Base.Int.{ℤ, int_eq, pos}
use xed.Base.Dict.{
  Dict, lookup, insert, keys, values, IsDict, values-insert, values-Elem, Elem-lookup, lookup-Elem,
  Elem-keys, lookup-of-key,
}
use xed.Hash.{Hash, apply, linear_func}
use xed.Hash.Find.{get_linear_hash_function, find_fks_perfect, min_of, max_of}
use xed.Hash.Find.Sound.{find_fks_perfect-eq-some}
use xed.Hash.Perfect.{mult_is_perfect}
use xed.Hash.Perfect.Unique.{mult_is_perfect-IsUnique}
use xed.Cdict.{Tuple, Cdict}
use xed.Cdict.Index.{IsIndexed}
use xed.Phash.{L1, l1_phash, fill_l1, suc_ℤ}
use xed.Phash.Gen.{
  is_linear, table_of, linear_table, optional_table, find_l1_phash_fks, search_mul,
  find_l1_phash_mul, or_fks, scattered_table, by_names, gen_hash_one_level,
}
use xed.Phash.Good.{IsScaled, search_mul-eq-some}
use xed.Phash.Linear.{linear_apply}
use xed.Phash.Serves.{Covers, get_linear_hash_function-Covers}

module _ {R : Type 0} where
  -- The constructor meets no hash value twice, and finds the rule of each tuple.
  fill_l1-eq-ok :
      (items : Dict Tuple ℕ) (ph : L1 R)
      → IsUnique (map (apply ph.hash_f) (values items))
      → ((x : ℕ) → Elem x (values items) → ¬ (Elem (apply ph.hash_f x) (values ph.x2hx)))
      → ((t : Tuple) → Elem t (keys items) → lookup t ph.cdict.tuple2rule ≢ none)
      → (ph' : L1 R) × (fill_l1 items ph ≡ ok ph')
  unfolding fill_l1
  fill_l1-eq-ok [] ph u new ruled = (ph, refl)
  fill_l1-eq-ok ((t, x) ∷ items) ph u new ruled =
      let v = apply ph.hash_f x in
      let next = λ (rule : R). record ph {
        x2hx = insert x v ph.x2hx;
        hx2x = insert v x ph.hx2x;
        ordinals = ph.ordinals ++ (rule, suc_ℤ v) ∷ [];
      } in
      let absent : contains v (values ph.x2hx) ≡ false =
        elim (Bool-cases (contains v (values ph.x2hx))) [
          | inl p ↦ absurd (new x (inl refl) (contains-Elem v (values ph.x2hx) p))
          | inr p ↦ p
        ] in
      let ends = λ (rule : R).
        fill_l1-eq-ok items (next rule) u.1
          (λ y m k. elim (values-insert x v (apply ph.hash_f y) ph.x2hx k) [
            | inl e ↦ u.0 (
                subst (λ z. Elem z (map (apply ph.hash_f) (values items))) e
                  (Elem-map (apply ph.hash_f) y (values items) m))
            | inr o ↦ new y (inr m) o
          ])
          (λ s m. ruled s (inr m)) in
      elim (Option-cases (lookup t ph.cdict.tuple2rule)) [
        | inl n ↦ absurd (ruled t (inl refl) n)
        | inr (r, e) ↦ let (ph', done) = ends r in (ph', rw (absent, e) done)
      ]

  module _ (d : Cdict R) (w : IsIndexed d) where
    key_ruled : (t : Tuple) → Elem t (keys d.tuple2int) → lookup t d.tuple2rule ≢ none
    key_ruled t m = w.ruled t (lookup-of-key t d.tuple2int m)

    -- On an indexed dictionary and a hash function whose values on all keys are different,
    -- l1_phash succeeds.
    pub l1_phash-eq-ok :
        (h : Hash)
        → IsUnique (map (apply h) (values d.tuple2int))
        → (ph : L1 R) × (l1_phash d h ≡ ok ph)
    unfolding l1_phash
    l1_phash-eq-ok h u =
        fill_l1-eq-ok d.tuple2int
          (record { cdict = d; hash_f = h; x2hx = []; hx2x = []; ordinals = [] }) u (λ x m k. k)
          key_ruled

    values-IsUnique :
        (items : Dict Tuple ℕ)
        → IsDict items
        → ((t u : Tuple) (x : ℕ) → Elem (t, x) items → Elem (u, x) items → t ≡ u)
        → IsUnique (values items)
    values-IsUnique [] dict inj = tt
    values-IsUnique ((t, x) ∷ items) dict inj = (
      λ m.
          let (u, k) = values-Elem x items m in
          let same : t ≡ u = inj t u x (inl refl) (inr k) in
          lookup-of-key t items
            (subst (λ v. Elem v (keys items)) (sym same) (Elem-keys u x items k)) dict.0,
      values-IsUnique items dict.1 (λ s u y m k. inj s u y (inr m) (inr k)),
    )

    key_entry : (t : Tuple) (x : ℕ) → Elem (t, x) d.tuple2int → lookup x d.int2tuple ≡ some t
    key_entry t x m = w.linked.to_tuple t x (Elem-lookup t x d.tuple2int w.linked.dict_t m)

    keys-IsUnique : IsUnique (values d.tuple2int)
    keys-IsUnique =
        values-IsUnique d.tuple2int w.linked.dict_t
          (λ t u x m k. some_injective t u (sym (key_entry t x m) ∙ key_entry u x k))
      where
        some_injective : (t u : Tuple) → some t ≡ some u → t ≡ u
        some_injective t u e = ground arith

    hash_inverse :
        (h : Hash) (v : ℤ) (xs : List ℕ)
        → Elem v (map (apply h) xs)
        → (x : ℕ) × Elem x xs × (v ≡ apply h x)
    hash_inverse h v [] m = elim m [ ]
    hash_inverse h v (x ∷ xs) (inl e) = (x, inl refl, e)
    hash_inverse h v (x ∷ xs) (inr m) = let (y, k, e) = hash_inverse h v xs m in (y, inr k, e)

    map-IsUnique :
        (h : Hash) (xs : List ℕ)
        → ((x y : ℕ) → Elem x xs → Elem y xs → apply h x ≡ apply h y → x ≡ y)
        → IsUnique xs
        → IsUnique (map (apply h) xs)
    map-IsUnique h [] inj u = tt
    map-IsUnique h (x ∷ xs) inj u = (
      λ m.
          let (y, k, e) = hash_inverse h (apply h x) xs m in
          u.0 (subst (λ z. Elem z xs) (sym (inj x y (inl refl) (inr k) e)) k),
      map-IsUnique h xs (λ a b m k e. inj a b (inr m) (inr k) e) u.1,
    )

    Covers-IsUnique :
        (h : Hash) → Covers h (keys d.int2tuple) → IsUnique (map (apply h) (values d.tuple2int))
    Covers-IsUnique h c =
        map-IsUnique h (values d.tuple2int)
          (λ x y m k e.
            let a = inside x m in
            let b = inside y k in
            pos_injective x y a b (
              sym (linear_apply c.k c.max_key x a)
              ∙ sym (ap (λ g. apply g x) c.made)
              ∙ e
              ∙ ap (λ g. apply g y) c.made
              ∙ linear_apply c.k c.max_key y b))
          keys-IsUnique
      where
        inside : (x : ℕ) → Elem x (values d.tuple2int) → c.k ≤ x
        inside x m =
            let (t, k) = values-Elem x d.tuple2int m in
            (c.inside x
              (Elem-keys x t d.int2tuple (lookup-Elem x t d.int2tuple (key_entry t x k)))).0

        pos_injective :
            (x y : ℕ) → c.k ≤ x → c.k ≤ y → ◌≡◌ {A = ℤ} (pos (x - c.k)) (pos (y - c.k)) → x ≡ y
        pos_injective x y a b e =
            let same : x - c.k ≡ y - c.k = ground (arith, e) in omega (arith, same)

    optional_table-eq-ok :
        (o : Option Hash)
        → ((h : Hash) → o ≡ some h → IsUnique (map (apply h) (values d.tuple2int)))
        → (r : Option (L1 R)) × (optional_table d o ≡ ok r)
    unfolding optional_table
    optional_table-eq-ok none u = (none, refl)
    optional_table-eq-ok (some h) u =
        let (ph, done) = l1_phash-eq-ok h (u h refl) in (some ph, rw done refl)

    linear_table-eq-ok :
        (keylist : List ℕ)
        → is_linear keylist ≡ ok true
        → (h : Hash) × (get_linear_hash_function keylist ≡ ok (some h))
    unfolding is_linear get_linear_hash_function
    linear_table-eq-ok [] e = absurd cc
    linear_table-eq-ok (x ∷ xs) e = (linear_func (min_of x xs) (max_of x xs), ground arith)

    module _ (scaled : ℕ → ℕ → ℕ) (law : IsScaled scaled)
        (some_key : 0 < length (values d.tuple2int)) where
      fks-eq-ok : (r : Option (L1 R)) × (find_l1_phash_fks d ≡ ok r)
      unfolding find_l1_phash_fks
      fks-eq-ok =
          optional_table-eq-ok (find_fks_perfect (values d.tuple2int))
            (λ h e. (find_fks_perfect-eq-some (values d.tuple2int) h some_key e).0)

      mul-eq-ok : (r : Option (L1 R)) × (find_l1_phash_mul scaled d ≡ ok r)
      unfolding find_l1_phash_mul
      mul-eq-ok =
          optional_table-eq-ok
            (search_mul scaled (mult_is_perfect (values d.tuple2int)) (length d.tuple2int))
            (λ h e.
              mult_is_perfect-IsUnique (values d.tuple2int) h
                (search_mul-eq-some scaled law (mult_is_perfect (values d.tuple2int))
                  (length d.tuple2int) h e).0)

      or_fks-eq-ok : (o : Option (L1 R)) → (r : Option (L1 R)) × (or_fks scaled d o ≡ ok r)
      unfolding or_fks
      or_fks-eq-ok none = fks-eq-ok
      or_fks-eq-ok (some ph) = (some ph, refl)

      scattered_table-eq-ok : (r : Option (L1 R)) × (scattered_table scaled d ≡ ok r)
      unfolding scattered_table
      scattered_table-eq-ok =
          let (o, e) = mul-eq-ok in let (r, done) = or_fks-eq-ok o in (r, rw e done)

      dense-eq-ok : is_linear (keys d.int2tuple) ≡ ok true → (ph : L1 R) × (linear_table d ≡ ok ph)
      unfolding linear_table table_of
      dense-eq-ok e =
          let (h, found) = linear_table-eq-ok (keys d.int2tuple) e in
          let (ph, done) =
            l1_phash-eq-ok h
              (Covers-IsUnique h (get_linear_hash_function-Covers (keys d.int2tuple) h found)) in
          (ph, rw found done)

      is_linear-eq-ok :
          (xs : List ℕ)
          → ((x : ℕ) → Elem x (values d.tuple2int) → Elem x xs)
          → (dense : Bool) × (is_linear xs ≡ ok dense)
      unfolding is_linear
      is_linear-eq-ok [] h = absurd (none_there (values d.tuple2int) h some_key)
        where
          none_there : (vs : List ℕ) → ((x : ℕ) → Elem x vs → ⊥) → 0 < length vs → ⊥
          none_there [] g lt = omega arith
          none_there (v ∷ vs) g lt = g v (inl refl)
      is_linear-eq-ok (x ∷ xs) h = (eqb (max_of x xs - min_of x xs + 1) (suc (length xs)), refl)

      ending :
          (name : String) (names : List String) (dense : Bool)
          → is_linear (keys d.int2tuple) ≡ ok dense
          → (r : Option (L1 R)) × (by_names scaled d (name ∷ names) ≡ ok r)
      ending name names true e =
          let (ph, done) = dense-eq-ok e in (some ph, unfold by_names in rw (e, done) refl)
      ending name names false e =
          let (r, done) = scattered_table-eq-ok in (r, unfold by_names in rw (e, done) refl)

      -- On an indexed dictionary with a constraint name and a key, where the scaled lengths are
      -- bounded as in IsScaled, gen_hash_one_level raises no exception: it returns a table or
      -- none, and it returns a table when the keys are dense.
      pub gen_hash_one_level-eq-ok :
          d.cnames ≢ []
          → ((r : Option (L1 R)) × (gen_hash_one_level scaled d ≡ ok r))
            × (is_linear (keys d.int2tuple) ≡ ok true
                → (ph : L1 R) × (gen_hash_one_level scaled d ≡ ok (some ph)))
      unfolding gen_hash_one_level
      gen_hash_one_level-eq-ok named = of_names d.cnames named
        where
          of_names :
              (names : List String)
              → names ≢ []
              → ((r : Option (L1 R)) × (by_names scaled d names ≡ ok r))
                × (is_linear (keys d.int2tuple) ≡ ok true
                    → (ph : L1 R) × (by_names scaled d names ≡ ok (some ph)))
          of_names [] n = absurd (n refl)
          of_names (name ∷ names) n =
              let (dense, e) = is_linear-eq-ok (keys d.int2tuple) (λ x m.
                let (t, k) = values-Elem x d.tuple2int m in
                Elem-keys x t d.int2tuple (lookup-Elem x t d.int2tuple (key_entry t x k))) in
              (
                ending name names dense e,
                λ p. let (ph, done) = dense-eq-ok p in (ph, unfold by_names in rw (p, done) refl),
              )
