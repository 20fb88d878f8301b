-- ===== src/Cdict/Index.antt =====
-- After `create_tuple2int` the two dictionaries are inverse to each other, and `filter_tuples`
-- keeps them so.
use xed.Base.{
  ℕ, String, ◌≡◌, ◌≢◌, ◌⊎◌, refl, sym, inl, inr, none, some, List, [], ◌∷◌, ok, >>=-eq-ok, arith,
  Eq, nat_eq, string_eq, list_eq, Elem, Option-cases,
}
use mathlib.Core.Path.{subst}
use xed.Base.Dict.{
  Dict, lookup, insert, keys, IsDict, lookup-insert, insert-IsDict, lookup-insert_cases,
  insert-ne-none, lookup-insert_self, lookup-Elem, Elem-keys, lookup-of-key,
}
use xed.Cdict.{Tuple, Cdict, tuple2int, fill_ints, create_tuple2int}

-- Two dictionaries that are inverse to each other.
pub record Linked {K : Type 0} ⦃e : Eq K⦄ (t2i : Dict K ℕ) (i2t : Dict ℕ K) : Type 0 where
  pub dict_t : IsDict t2i
  pub dict_i : IsDict i2t
  pub to_tuple : (t : K) (x : ℕ) → lookup t t2i ≡ some x → lookup x i2t ≡ some t
  pub to_int : (t : K) (x : ℕ) → lookup x i2t ≡ some t → lookup t t2i ≡ some x

module _ {K : Type 0} ⦃e : Eq K⦄ where
  pub Linked-empty : Linked {K = K} [] []
  unfolding lookup
  Linked-empty = record { dict_t = tt; dict_i = tt; to_tuple = λ t x h. cc; to_int = λ t x h. cc }

  -- A new pair of a new tuple and a new key is linked.
  pub Linked-insert :
      (t : K) (x : ℕ) (t2i : Dict K ℕ) (i2t : Dict ℕ K)
      → Linked t2i i2t
      → lookup t t2i ≡ none
      → lookup x i2t ≡ none
      → Linked (insert t x t2i) (insert x t i2t)
  Linked-insert t x t2i i2t l new_t new_x = record {
    dict_t = insert-IsDict t x t2i l.dict_t;
    dict_i = insert-IsDict x t i2t l.dict_i;
    to_tuple = λ u y h.
        ground
          (arith, lookup-insert t u x t2i, lookup-insert x y t i2t, e.beq_iff t u, l.to_tuple u y);
    to_int = λ u y h.
        ground
          (arith, lookup-insert t u x t2i, lookup-insert x y t i2t, e.beq_iff t u, l.to_int u y);
  }

-- What the loop adds to the dictionaries that it is given.
pub record Fills (ts : List Tuple) (t2i t2i' : Dict Tuple ℕ) : Type 0 where
  pub kept : (t : Tuple) → lookup t t2i ≢ none → lookup t t2i' ≢ none
  pub added : (t : Tuple) → Elem t ts → lookup t t2i' ≢ none
  pub only : (t : Tuple) → lookup t t2i' ≢ none → Elem t ts ⊎ (lookup t t2i ≢ none)

pub Fills-cons :
    (t : Tuple) (x : ℕ) (ts : List Tuple) (t2i t2i' : Dict Tuple ℕ)
    → Fills ts (insert t x t2i) t2i'
    → Fills (t ∷ ts) t2i t2i'
Fills-cons t x ts t2i t2i' r = record {
  kept = λ u k. r.kept u (insert-ne-none t u x t2i k);
  added = λ u m. elim m [
    | inl e ↦ r.kept u (
        subst (λ v. lookup v (insert t x t2i) ≢ none) (sym e)
          (λ n. cc (n, lookup-insert_self t x t2i)))
    | inr q ↦ r.added u q
  ];
  only = λ u k. elim (r.only u k) [
    | inl q ↦ inl (inr q)
    | inr q ↦ elim (Option-cases (lookup u (insert t x t2i))) [
      | inl n ↦ absurd (q n)
      | inr (y, p) ↦ elim (lookup-insert_cases t u x y t2i p) [
        | inl (same, w) ↦ inl (inl (sym same))
        | inr old ↦ inr (λ n. cc (n, old))
      ]
    ]
  ];
}

module _ (cnames : List String) (widths : Dict String ℕ) where
  record Filled (t2i : Dict Tuple ℕ) (i2t : Dict ℕ Tuple) : Type 0 where
    linked : Linked t2i i2t
    computed : (t : Tuple) (x : ℕ) → lookup t t2i ≡ some x → tuple2int t cnames widths ≡ ok x

  fill_step :
      (t : Tuple) (x : ℕ) (t2i : Dict Tuple ℕ) (i2t : Dict ℕ Tuple)
      → Filled t2i i2t
      → tuple2int t cnames widths ≡ ok x
      → lookup x i2t ≡ none
      → Filled (insert t x t2i) (insert x t i2t)
  fill_step t x t2i i2t f c new_x = record {
    linked = Linked-insert t x t2i i2t f.linked new_t new_x;
    computed = λ u y h. elim (lookup-insert_cases t u x y t2i h) [
      | inl (p, q) ↦ rw (← p, ← q) c
      | inr p ↦ f.computed u y p
    ];
  }
    where
      new_t : lookup t t2i ≡ none
      new_t = elim (Option-cases (lookup t t2i)) [
        | inl p ↦ p
        | inr (y, p) ↦ ground (arith, f.computed t y p, f.linked.to_tuple t y p)
      ]

  fill_ints-Filled :
      (ts : List Tuple) (t2i : Dict Tuple ℕ) (i2t : Dict ℕ Tuple) (t2i' : Dict Tuple ℕ)
      (i2t' : Dict ℕ Tuple)
      → Filled t2i i2t
      → fill_ints cnames widths ts t2i i2t ≡ ok (t2i', i2t')
      → Filled t2i' i2t' × Fills ts t2i t2i'
  unfolding fill_ints
  fill_ints-Filled [] t2i i2t t2i' i2t' f h =
      let p : t2i ≡ t2i' = ground arith in
      let q : i2t ≡ i2t' = ground arith in
      (
        rw (← p, ← q) f,
        rw (← p) (record { kept = λ t k. k; added = λ t m. elim m [ ]; only = λ t k. inr k }),
      )
  fill_ints-Filled (t ∷ ts) t2i i2t t2i' i2t' f h =
      let (x, c, k) = >>=-eq-ok (tuple2int t cnames widths) _ h in
      elim (Option-cases (lookup x i2t)) [
        | inr (u, p) ↦ absurd (ground arith)
        | inl p ↦
            let (g, r) =
              fill_ints-Filled ts (insert t x t2i) (insert x t i2t) t2i' i2t'
                (fill_step t x t2i i2t f c p) (ground arith) in
            (g, Fills-cons t x ts t2i t2i' r)
      ]

-- The dictionaries of a `constraint_dict_t` after `create_tuple2int`: tuples and keys correspond one
-- to one, and the tuples are those that have a rule.
pub record IsIndexed {R : Type 0} (d : Cdict R) : Type 0 where
  pub linked : Linked d.tuple2int d.int2tuple
  pub ruled : (t : Tuple) → lookup t d.tuple2int ≢ none → lookup t d.tuple2rule ≢ none
  pub indexed : (t : Tuple) → lookup t d.tuple2rule ≢ none → lookup t d.tuple2int ≢ none

module _ {R : Type 0} where
  pub key-of-lookup : (t : Tuple) (d : Dict Tuple R) → lookup t d ≢ none → Elem t (keys d)
  key-of-lookup t d h = elim (Option-cases (lookup t d)) [
    | inl n ↦ absurd (h n)
    | inr (r, p) ↦ Elem-keys t r d (lookup-Elem t r d p)
  ]

  -- If create_tuple2int succeeds, tuple2int and int2tuple are inverse dictionaries, the tuples in
  -- them are exactly those with a rule, the rules are unchanged, and the key of each tuple is the
  -- one that tuple2int computes.
  pub create_tuple2int-IsIndexed :
      (self d : Cdict R) (widths : Dict String ℕ)
      → create_tuple2int self widths ≡ ok d
      → IsIndexed d
        × (d.tuple2rule ≡ self.tuple2rule)
        × ((t : Tuple) (x : ℕ)
            → lookup t d.tuple2int ≡ some x
            → tuple2int t self.cnames widths ≡ ok x)
  unfolding create_tuple2int
  create_tuple2int-IsIndexed self d widths h =
      let ((t2i, i2t), filled, e) =
        >>=-eq-ok (fill_ints self.cnames widths (keys self.tuple2rule) [] []) _ h in
      let start : Filled self.cnames widths [] [] = record {
        linked = Linked-empty;
        computed = λ t x k. unfold lookup in cc;
      } in
      let (g, r) =
        fill_ints-Filled self.cnames widths (keys self.tuple2rule) [] [] t2i i2t start filled in
      let same : record self { op_widths = widths; tuple2int = t2i; int2tuple = i2t } ≡ d =
        ground arith in
      subst
        (λ c.
          IsIndexed c
          × (c.tuple2rule ≡ self.tuple2rule)
          × ((t : Tuple) (x : ℕ)
              → lookup t c.tuple2int ≡ some x
              → tuple2int t self.cnames widths ≡ ok x))
        same
        (
          record {
            linked = g.linked;
            ruled = λ t k. elim (r.only t k) [
              | inl m ↦ lookup-of-key t self.tuple2rule m
              | inr n ↦ absurd (n (unfold lookup in refl))
            ];
            indexed = λ t k. r.added t (key-of-lookup t self.tuple2rule k);
          },
          refl,
          g.computed,
        )
