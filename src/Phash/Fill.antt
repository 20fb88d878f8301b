-- ===== src/Phash/Fill.antt =====
-- What the constructor of `l1_phash_t` leaves in its dictionaries.
use mathlib.Core.Path.{subst}
use xed.Base.{
  ℕ, ◌≡◌, ◌⊎◌, refl, sym, ap, ◌∙◌, inl, inr, none, some, [], ◌∷◌, ◌++◌, ok, >>=-eq-ok, or_raise,
  key_error, arith, nat_eq, list_eq, Elem, Bool-cases, Option-cases, contains, Elem-contains,
}
use xed.Base.Int.{ℤ, int_eq, eqb_ℤ_iff}
use xed.Base.Dict.{
  Dict, lookup, insert, values, lookup-insert, lookup-insert_cases, lookup-insert_self,
  insert-Elem-values,
}
use xed.Hash.{Hash, apply}
use xed.Cdict.{Tuple, Cdict}
use xed.Phash.{L1, fill_l1, l1_phash, suc_ℤ}

module _ {R : Type 0} where
  record Filling (ph : L1 R) : Type 0 where
    hashed : (x : ℕ) (v : ℤ) → lookup x ph.x2hx ≡ some v → v ≡ apply ph.hash_f x
    known : (x : ℕ) (v : ℤ) → lookup x ph.x2hx ≡ some v → Elem v (values ph.x2hx)
    seen :
        (v : ℤ) (x : ℕ)
        → lookup v ph.hx2x ≡ some x
        → Elem v (values ph.x2hx) × (apply ph.hash_f x ≡ v)

  abbrev next_state : R → ℕ → L1 R → L1 R
  next_state rule x ph = record ph {
    x2hx = insert x (apply ph.hash_f x) ph.x2hx;
    hx2x = insert (apply ph.hash_f x) x ph.hx2x;
    ordinals = ph.ordinals ++ (rule, suc_ℤ (apply ph.hash_f x)) ∷ [];
  }

  Filling-next :
      (rule : R) (x : ℕ) (ph : L1 R)
      → Filling ph
      → ¬ (Elem (apply ph.hash_f x) (values ph.x2hx))
      → Filling (next_state rule x ph)
  Filling-next rule x ph f new = record {
    hashed = λ y v k. elim (lookup-insert_cases x y (apply ph.hash_f x) v ph.x2hx k) [
      | inl (p, q) ↦ sym q ∙ ap (apply ph.hash_f) p
      | inr o ↦ f.hashed y v o
    ];
    known = λ y v k. elim (lookup-insert_cases x y (apply ph.hash_f x) v ph.x2hx k) [
      | inl (p, q) ↦ grow v (inl (sym q))
      | inr o ↦ grow v (inr (f.known y v o))
    ];
    seen = λ v y k. elim (lookup-insert_cases (apply ph.hash_f x) v x y ph.hx2x k) [
      | inl (p, q) ↦ (grow v (inl (sym p)), ap (apply ph.hash_f) (sym q) ∙ p)
      | inr o ↦ let (m, e) = f.seen v y o in (grow v (inr m), e)
    ];
  }
    where
      fresh : lookup x ph.x2hx ≡ none
      fresh = elim (Option-cases (lookup x ph.x2hx)) [
        | inl n ↦ n
        | inr (v, k) ↦
            absurd (new (subst (λ w. Elem w (values ph.x2hx)) (f.hashed x v k) (f.known x v k)))
      ]

      grow :
          (v : ℤ)
          → (v ≡ apply ph.hash_f x) ⊎ Elem v (values ph.x2hx)
          → Elem v (values (insert x (apply ph.hash_f x) ph.x2hx))
      grow v = insert-Elem-values x (apply ph.hash_f x) v ph.x2hx fresh

  -- From one state to the end of the loop.
  record Filled (items : Dict Tuple ℕ) (ph ph' : L1 R) : Type 0 where
    same_cdict : ph'.cdict ≡ ph.cdict
    same_hash : ph'.hash_f ≡ ph.hash_f
    kept : (v : ℤ) (x : ℕ) → lookup v ph.hx2x ≡ some x → lookup v ph'.hx2x ≡ some x
    added : (x : ℕ) → Elem x (values items) → lookup (apply ph.hash_f x) ph'.hx2x ≡ some x
    only :
        (v : ℤ) (x : ℕ)
        → lookup v ph'.hx2x ≡ some x
        → (Elem x (values items) × (apply ph.hash_f x ≡ v)) ⊎ (lookup v ph.hx2x ≡ some x)

  fill_l1-Filled :
      (items : Dict Tuple ℕ) (ph ph' : L1 R)
      → Filling ph
      → fill_l1 items ph ≡ ok ph'
      → Filled items ph ph'
  unfolding fill_l1
  fill_l1-Filled [] ph ph' f h =
      let e : ph ≡ ph' = ground arith in
      subst (Filled [] ph) e (record {
        same_cdict = refl;
        same_hash = refl;
        kept = λ v x k. k;
        added = λ x m. elim m [ ];
        only = λ v x k. inr k;
      })
  fill_l1-Filled ((t, x) ∷ items) ph ph' f h =
      elim (Bool-cases (contains (apply ph.hash_f x) (values ph.x2hx))) [
        | inl old ↦ absurd (ground arith)
        | inr p ↦
            let new : ¬ (Elem (apply ph.hash_f x) (values ph.x2hx)) =
              λ m. cc (p, Elem-contains (apply ph.hash_f x) (values ph.x2hx) m) in
            let (rule, found, left) =
              >>=-eq-ok (or_raise key_error (lookup t ph.cdict.tuple2rule))
                (λ q. fill_l1 items (next_state q x ph)) (ground arith) in
            let r =
              fill_l1-Filled items (next_state rule x ph) ph' (Filling-next rule x ph f new) left in
            record {
              same_cdict = r.same_cdict;
              same_hash = r.same_hash;
              kept = λ v y k. r.kept v y (
                  ground (
                    arith,
                    lookup-insert (apply ph.hash_f x) v x ph.hx2x,
                    eqb_ℤ_iff (apply ph.hash_f x) v,
                    λ (e : apply ph.hash_f x ≡ v).
                        new (subst (λ w. Elem w (values ph.x2hx)) (sym e) (f.seen v y k).0),
                  ));
              added = λ y m. elim m [
                | inl e ↦
                    subst (λ z. lookup (apply ph.hash_f z) ph'.hx2x ≡ some z) (sym e)
                      (r.kept (apply ph.hash_f x) x
                        (lookup-insert_self (apply ph.hash_f x) x ph.hx2x))
                | inr q ↦ r.added y q
              ];
              only = λ v y k. elim (r.only v y k) [
                | inl (m, e) ↦ inl (inr m, e)
                | inr o ↦ elim (lookup-insert_cases (apply ph.hash_f x) v x y ph.hx2x o) [
                  | inl (e, q) ↦ inl (inl (sym q), ap (apply ph.hash_f) (sym q) ∙ e)
                  | inr old ↦ inr old
                ]
              ];
            }
      ]

  -- The slots of a table are the hash values of the keys, each with its key.
  pub record IsTable (ph : L1 R) : Type 0 where
    pub slot :
        (x : ℕ) → Elem x (values ph.cdict.tuple2int) → lookup (apply ph.hash_f x) ph.hx2x ≡ some x
    pub key :
        (v : ℤ) (x : ℕ)
        → lookup v ph.hx2x ≡ some x
        → Elem x (values ph.cdict.tuple2int) × (apply ph.hash_f x ≡ v)

  abbrev start : Cdict R → Hash → L1 R
  start d h = record { cdict = d; hash_f = h; x2hx = []; hx2x = []; ordinals = [] }

  Filling-start : (d : Cdict R) (h : Hash) → Filling (start d h)
  unfolding lookup
  Filling-start d h = record { hashed = λ x v k. cc; known = λ x v k. cc; seen = λ v x k. cc }

  -- If l1_phash succeeds, the table has the given dictionary and function, the slot of the hash
  -- value of each key holds that key, and a slot that holds a key is the slot of its hash value.
  pub l1_phash-IsTable :
      (d : Cdict R) (h : Hash) (ph : L1 R)
      → l1_phash d h ≡ ok ph
      → (ph.cdict ≡ d) × (ph.hash_f ≡ h) × IsTable ph
  l1_phash-IsTable d h ph e =
      let r =
        fill_l1-Filled d.tuple2int (start d h) ph (Filling-start d h) (unfold l1_phash in e) in
      (
        r.same_cdict,
        r.same_hash,
        record {
          slot =
              subst
                (λ c.
                  (x : ℕ)
                  → Elem x (values c.tuple2int)
                  → lookup (apply ph.hash_f x) ph.hx2x ≡ some x)
                (sym r.same_cdict)
                (subst
                  (λ g. (x : ℕ) → Elem x (values d.tuple2int) → lookup (apply g x) ph.hx2x ≡ some x)
                  (sym r.same_hash) r.added);
          key =
              subst
                (λ c.
                  (v : ℤ) (x : ℕ)
                  → lookup v ph.hx2x ≡ some x
                  → Elem x (values c.tuple2int) × (apply ph.hash_f x ≡ v))
                (sym r.same_cdict)
                (subst
                  (λ g.
                    (v : ℤ) (x : ℕ)
                    → lookup v ph.hx2x ≡ some x
                    → Elem x (values d.tuple2int) × (apply g x ≡ v))
                  (sym r.same_hash)
                  (λ v x k. elim (r.only v x k) [
                    | inl p ↦ p
                    | inr n ↦ absurd (unfold lookup in cc (n))
                  ]));
        },
      )
