-- ===== src/Cdict/Filter.antt =====
-- `filter_tuples` keeps the index, on the tuples that it is given.
use mathlib.Core.Path.{subst}
use xed.Base.{
  ℕ, ◌≡◌, ◌≢◌, ◌⊎◌, refl, sym, ap, inl, inr, none, some, List, [], ◌∷◌, ok, key_error, >>=-eq-ok,
  or_raise, or_raise-eq-ok, arith, nat_eq, list_eq, Elem, Option-cases,
}
use xed.Base.Dict.{
  Dict, lookup, insert, IsDict, lookup-insert, insert-IsDict, lookup-insert_cases,
  lookup-insert_self, lookup-Elem, Elem-lookup, insert-ne-none,
}
use xed.Cdict.{Tuple, Cdict, invert, filter_loop, filter_tuples}
use xed.Cdict.Index.{Linked, IsIndexed, Fills, Fills-cons}

invert-IsDict : (d : Dict Tuple ℕ) (acc : Dict ℕ Tuple) → IsDict acc → IsDict (invert d acc)
unfolding invert
invert-IsDict [] acc h = h
invert-IsDict ((t, i) ∷ d) acc h = invert-IsDict d (insert i t acc) (insert-IsDict i t acc h)

invert_only :
    (d : Dict Tuple ℕ) (acc : Dict ℕ Tuple) (x : ℕ) (t : Tuple)
    → lookup x (invert d acc) ≡ some t
    → Elem (t, x) d ⊎ (lookup x acc ≡ some t)
unfolding invert
invert_only [] acc x t h = inr h
invert_only ((u, i) ∷ d) acc x t h = elim (invert_only d (insert i u acc) x t h) [
  | inl m ↦ inl (inr m)
  | inr k ↦ elim (lookup-insert_cases i x u t acc k) [
    | inl (p, q) ↦ inl (inl (cc (p, q)))
    | inr o ↦ inr o
  ]
]

invert_kept :
    (d : Dict Tuple ℕ) (acc : Dict ℕ Tuple) (x : ℕ)
    → lookup x acc ≢ none
    → lookup x (invert d acc) ≢ none
unfolding invert
invert_kept [] acc x h = h
invert_kept ((u, i) ∷ d) acc x h = invert_kept d (insert i u acc) x (insert-ne-none i x u acc h)

invert_all :
    (d : Dict Tuple ℕ) (acc : Dict ℕ Tuple) (t : Tuple) (x : ℕ)
    → Elem (t, x) d
    → lookup x (invert d acc) ≢ none
unfolding invert
invert_all [] acc t x m = elim m [ ]
invert_all ((u, i) ∷ d) acc t x (inl e) = invert_kept d (insert i u acc) x (
    subst (λ y. lookup y (insert i u acc) ≢ none) (ap (λ p. p.1) (sym e))
      (λ n. cc (n, lookup-insert_self i u acc)))
invert_all ((u, i) ∷ d) acc t x (inr m) = invert_all d (insert i u acc) t x m

-- A dictionary whose values are distinct is linked to its inversion.
pub invert-Linked :
    (d : Dict Tuple ℕ)
    → IsDict d
    → ((t u : Tuple) (x : ℕ) → lookup t d ≡ some x → lookup u d ≡ some x → t ≡ u)
    → Linked d (invert d [])
invert-Linked d h inj = record {
  dict_t = h;
  dict_i = invert-IsDict d [] tt;
  to_tuple = λ t x k. elim (Option-cases (lookup x (invert d []))) [
    | inl n ↦ absurd (invert_all d [] t x (lookup-Elem t x d k) n)
    | inr (u, p) ↦ rw (inj t u x k (entry u x p)) p
  ];
  to_int = λ t x k. entry t x k;
}
  where
    entry : (t : Tuple) (x : ℕ) → lookup x (invert d []) ≡ some t → lookup t d ≡ some x
    entry t x k = elim (invert_only d [] x t k) [
      | inl m ↦ Elem-lookup t x d h m
      | inr n ↦ absurd (unfold lookup in cc (n))
    ]

module _ {R : Type 0} (self : Cdict R) where
  -- What the loop has copied.
  record Copied (t2i : Dict Tuple ℕ) (t2r : Dict Tuple R) : Type 0 where
    dict : IsDict t2i
    ints : (t : Tuple) (x : ℕ) → lookup t t2i ≡ some x → lookup t self.tuple2int ≡ some x
    rules : (t : Tuple) (r : R) → lookup t t2r ≡ some r → lookup t self.tuple2rule ≡ some r
    ruled : (t : Tuple) → lookup t t2i ≢ none → lookup t t2r ≢ none
    indexed : (t : Tuple) → lookup t t2r ≢ none → lookup t t2i ≢ none

  copy_step :
      (t : Tuple) (x : ℕ) (r : R) (t2i : Dict Tuple ℕ) (t2r : Dict Tuple R)
      → Copied t2i t2r
      → lookup t self.tuple2int ≡ some x
      → lookup t self.tuple2rule ≡ some r
      → Copied (insert t x t2i) (insert t r t2r)
  copy_step t x r t2i t2r c hx hr = record {
    dict = insert-IsDict t x t2i c.dict;
    ints = λ u y h. elim (lookup-insert_cases t u x y t2i h) [
      | inl (p, q) ↦ rw (← p, ← q) hx
      | inr p ↦ c.ints u y p
    ];
    rules = λ u s h. elim (lookup-insert_cases t u r s t2r h) [
      | inl (p, q) ↦ rw (← p, ← q) hr
      | inr p ↦ c.rules u s p
    ];
    ruled = λ u k. ground (arith, lookup-insert t u x t2i, lookup-insert t u r t2r, c.ruled u);
    indexed = λ u k. ground (arith, lookup-insert t u x t2i, lookup-insert t u r t2r, c.indexed u);
  }

  filter_loop-Copied :
      (ts : List Tuple) (t2i : Dict Tuple ℕ) (t2r : Dict Tuple R) (t2i' : Dict Tuple ℕ)
      (t2r' : Dict Tuple R)
      → Copied t2i t2r
      → filter_loop self ts t2i t2r ≡ ok (t2i', t2r')
      → Copied t2i' t2r' × Fills ts t2i t2i'
  unfolding filter_loop
  filter_loop-Copied [] t2i t2r t2i' t2r' c h =
      let p : t2i ≡ t2i' = ground arith in
      let q : t2r ≡ t2r' = ground arith in
      (
        rw (← p, ← q) c,
        rw (← p) (record { kept = λ t k. k; added = λ t m. elim m [ ]; only = λ t k. inr k }),
      )
  filter_loop-Copied (t ∷ ts) t2i t2r t2i' t2r' c h =
      let (x, hx, h') = >>=-eq-ok (or_raise key_error (lookup t self.tuple2int)) _ h in
      let (r, hr, k) = >>=-eq-ok (or_raise key_error (lookup t self.tuple2rule)) _ h' in
      let (g, f) =
        filter_loop-Copied ts (insert t x t2i) (insert t r t2r) t2i' t2r'
          (copy_step t x r t2i t2r c (or_raise-eq-ok key_error _ hx)
            (or_raise-eq-ok key_error _ hr))
          k in
      (g, Fills-cons t x ts t2i t2i' f)

  -- A dictionary of some tuples of another: its index and its rules are those of the other.
  pub record IsPart (tuples : List Tuple) (d : Cdict R) : Type 0 where
    pub same_cnames : d.cnames ≡ self.cnames
    pub same_rule : d.rule ≡ self.rule
    pub same_widths : d.op_widths ≡ self.op_widths
    pub ints :
        (t : Tuple) (x : ℕ) → lookup t d.tuple2int ≡ some x → lookup t self.tuple2int ≡ some x
    pub rules :
        (t : Tuple) (r : R) → lookup t d.tuple2rule ≡ some r → lookup t self.tuple2rule ≡ some r
    pub only : (t : Tuple) → lookup t d.tuple2int ≢ none → Elem t tuples
    pub all : (t : Tuple) → Elem t tuples → lookup t d.tuple2int ≢ none

  -- If filter_tuples of an indexed dictionary succeeds, the result is indexed, has exactly the
  -- tuples of the list, and keeps their keys and rules, and the names, the widths and the rule of
  -- the dictionary.
  pub filter_tuples-IsPart :
      (tuples : List Tuple) (d : Cdict R)
      → IsIndexed self
      → filter_tuples self tuples ≡ ok d
      → IsIndexed d × IsPart tuples d
  unfolding filter_tuples
  filter_tuples-IsPart tuples d indexed h =
      let ((t2i, t2r), looped, e) = >>=-eq-ok (filter_loop self tuples [] []) _ h in
      let start : Copied [] [] =
        unfold lookup in
        record {
          dict = tt;
          ints = λ t x k. cc;
          rules = λ t r k. cc;
          ruled = λ t k. absurd (k refl);
          indexed = λ t k. absurd (k refl);
        } in
      let (c, f) = filter_loop-Copied tuples [] [] t2i t2r start looped in
      let same : record self { tuple2int = t2i; tuple2rule = t2r; int2tuple = invert t2i [] } ≡ d =
        ground arith in
      let linked : Linked t2i (invert t2i []) = invert-Linked t2i c.dict (λ t u x p q. ground (
        arith,
        indexed.linked.to_tuple t x (c.ints t x p),
        indexed.linked.to_tuple u x (c.ints u x q),
      )) in
      subst (λ g. IsIndexed g × IsPart tuples g) same
        (
          record { linked = linked; ruled = c.ruled; indexed = c.indexed },
          record {
            same_cnames = refl;
            same_rule = refl;
            same_widths = refl;
            ints = c.ints;
            rules = c.rules;
            only =
                λ t k. elim (f.only t k) [ inl m ↦ m | inr n ↦ absurd (n (unfold lookup in refl)) ];
            all = f.added;
          },
        )
