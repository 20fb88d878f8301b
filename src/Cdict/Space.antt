-- ===== src/Cdict/Space.antt =====
-- `_initialize_tuple2rule` makes the cross product of the values of all the constraints.
use mathlib.Core.List.{append_assoc, append-nil}
use xed.Base.{
  ℕ, String, ◌≡◌, ◌⊎◌, ◌↔◌, refl, sym, ap, ◌∙◌, inl, inr, some, List, [], ◌∷◌, ◌++◌, map, arith,
  nat_eq, list_eq, Elem, Option-cases,
}
use mathlib.Core.Path.{subst}
use xed.Base.Dict.{
  Dict, lookup, insert, keys, lookup-insert, lookup-insert_cases, lookup-insert_self, lookup-of-key,
}
use xed.Cdict.{Tuple, singletons, extend_key, extend_keys, add_constraint, initialize_tuple2rule}
use xed.Cdict.Index.{key-of-lookup}

-- a value for each constraint, out of its legal values
abbrev pub InSpace : Tuple → List (List ℕ) → Type 0
InSpace [] [] = Unit
InSpace [] (vals ∷ spaces) = ⊥
InSpace (v ∷ t) [] = ⊥
InSpace (v ∷ t) (vals ∷ spaces) = Elem v vals × InSpace t spaces

module _ {R : Type 0} (rule : R) where
  -- `d` has exactly the tuples of `P`, all with the one rule
  record Has (P : Tuple → Type 0) (d : Dict Tuple R) : Type 0 where
    sound : (t : Tuple) (r : R) → lookup t d ≡ some r → P t × (r ≡ rule)
    complete : (t : Tuple) → P t → lookup t d ≡ some rule

  Has-insert :
      (P : Tuple → Type 0) (u : Tuple) (d : Dict Tuple R)
      → Has P d
      → Has (λ t. P t ⊎ (t ≡ u)) (insert u rule d)
  Has-insert P u d h = record {
    sound = λ t r k. elim (lookup-insert_cases u t rule r d k) [
      | inl (p, q) ↦ (inr (sym p), sym q)
      | inr o ↦ let (p, q) = h.sound t r o in (inl p, q)
    ];
    complete = λ t p. elim p [
      | inl q ↦ ground (arith, lookup-insert u t rule d, h.complete t q)
      | inr e ↦
          subst (λ v. lookup v (insert u rule d) ≡ some rule) (sym e) (lookup-insert_self u rule d)
    ];
  }

  Has-iff :
      (P Q : Tuple → Type 0) (d : Dict Tuple R) → ((t : Tuple) → P t ↔ Q t) → Has P d → Has Q d
  Has-iff P Q d e h = record {
    sound = λ t r k. let (p, q) = h.sound t r k in ((e t).0 p, q);
    complete = λ t q. h.complete t ((e t).1 q);
  }

  extend_key-Has :
      (P : Tuple → Type 0) (u : Tuple) (vals : List ℕ) (d : Dict Tuple R)
      → Has P d
      → Has (λ t. P t ⊎ ((v : ℕ) × Elem v vals × (t ≡ u ++ v ∷ []))) (extend_key rule u vals d)
  unfolding extend_key
  extend_key-Has P u [] d h =
      Has-iff P _ d (λ t. (λ p. inl p, λ q. elim q [ inl p ↦ p | inr (v, m, e) ↦ absurd m ])) h
  extend_key-Has P u (val ∷ vals) d h =
      Has-iff _ _ (extend_key rule u vals (insert (u ++ val ∷ []) rule d)) (λ t. (to t, from t))
        (extend_key-Has _ u vals (insert (u ++ val ∷ []) rule d) (Has-insert P (u ++ val ∷ []) d h))
    where
      to :
          (t : Tuple)
          → (P t ⊎ (t ≡ u ++ val ∷ [])) ⊎ ((v : ℕ) × Elem v vals × (t ≡ u ++ v ∷ []))
          → P t ⊎ ((v : ℕ) × Elem v (val ∷ vals) × (t ≡ u ++ v ∷ []))
      to t (inl (inl p)) = inl p
      to t (inl (inr e)) = inr (val, inl refl, e)
      to t (inr (v, m, e)) = inr (v, inr m, e)

      from :
          (t : Tuple)
          → P t ⊎ ((v : ℕ) × Elem v (val ∷ vals) × (t ≡ u ++ v ∷ []))
          → (P t ⊎ (t ≡ u ++ val ∷ [])) ⊎ ((v : ℕ) × Elem v vals × (t ≡ u ++ v ∷ []))
      from t (inl p) = inl (inl p)
      from t (inr (v, inl q, e)) = inl (inr (e ∙ ap (λ w. u ++ w ∷ []) q))
      from t (inr (v, inr m, e)) = inr (v, m, e)

  -- a tuple of the list, with a value at its end
  abbrev Longer : List Tuple → List ℕ → Tuple → Type 0
  Longer us vals t = (u : Tuple) × (v : ℕ) × Elem u us × Elem v vals × (t ≡ u ++ v ∷ [])

  extend_keys-Has :
      (P : Tuple → Type 0) (us : List Tuple) (vals : List ℕ) (d : Dict Tuple R)
      → Has P d
      → Has (λ t. P t ⊎ Longer us vals t) (extend_keys rule us vals d)
  unfolding extend_keys
  extend_keys-Has P [] vals d h =
      Has-iff P _ d (λ t. (λ p. inl p, λ q. elim q [ inl p ↦ p | inr (u, v, m, n, e) ↦ absurd m ]))
        h
  extend_keys-Has P (u ∷ us) vals d h =
      Has-iff _ _ (extend_keys rule us vals (extend_key rule u vals d)) (λ t. (to t, from t))
        (extend_keys-Has _ us vals (extend_key rule u vals d) (extend_key-Has P u vals d h))
    where
      to :
          (t : Tuple)
          → (P t ⊎ ((v : ℕ) × Elem v vals × (t ≡ u ++ v ∷ []))) ⊎ Longer us vals t
          → P t ⊎ Longer (u ∷ us) vals t
      to t (inl (inl p)) = inl p
      to t (inl (inr (v, m, e))) = inr (u, v, inl refl, m, e)
      to t (inr (w, v, m, n, e)) = inr (w, v, inr m, n, e)

      from :
          (t : Tuple)
          → P t ⊎ Longer (u ∷ us) vals t
          → (P t ⊎ ((v : ℕ) × Elem v vals × (t ≡ u ++ v ∷ []))) ⊎ Longer us vals t
      from t (inl p) = inl (inl p)
      from t (inr (w, v, inl q, n, e)) = inl (inr (v, n, e ∙ ap (λ x. x ++ v ∷ []) q))
      from t (inr (w, v, inr m, n, e)) = inr (w, v, m, n, e)

  Has-empty : Has (λ t. ⊥) []
  unfolding lookup
  Has-empty = record { sound = λ t r k. cc; complete = λ t p. absurd p }

  singletons-Has :
      (P : Tuple → Type 0) (vals : List ℕ) (d : Dict Tuple R)
      → Has P d
      → Has (λ t. P t ⊎ ((v : ℕ) × Elem v vals × (t ≡ v ∷ []))) (singletons rule vals d)
  unfolding singletons
  singletons-Has P [] d h =
      Has-iff P _ d (λ t. (λ p. inl p, λ q. elim q [ inl p ↦ p | inr (v, m, e) ↦ absurd m ])) h
  singletons-Has P (val ∷ vals) d h =
      Has-iff _ _ (singletons rule vals (insert (val ∷ []) rule d)) (λ t. (to t, from t))
        (singletons-Has _ vals (insert (val ∷ []) rule d) (Has-insert P (val ∷ []) d h))
    where
      to :
          (t : Tuple)
          → (P t ⊎ (t ≡ val ∷ [])) ⊎ ((v : ℕ) × Elem v vals × (t ≡ v ∷ []))
          → P t ⊎ ((v : ℕ) × Elem v (val ∷ vals) × (t ≡ v ∷ []))
      to t (inl (inl p)) = inl p
      to t (inl (inr e)) = inr (val, inl refl, e)
      to t (inr (v, m, e)) = inr (v, inr m, e)

      from :
          (t : Tuple)
          → P t ⊎ ((v : ℕ) × Elem v (val ∷ vals) × (t ≡ v ∷ []))
          → (P t ⊎ (t ≡ val ∷ [])) ⊎ ((v : ℕ) × Elem v vals × (t ≡ v ∷ []))
      from t (inl p) = inl (inl p)
      from t (inr (v, inl q, e)) = inl (inr (e ∙ ap (λ w. w ∷ []) q))
      from t (inr (v, inr m, e)) = inr (v, m, e)

  -- the tuples of `P`, each with one more value
  abbrev Next : (Tuple → Type 0) → List ℕ → Tuple → Type 0
  Next P vals t = (u : Tuple) × (v : ℕ) × P u × Elem v vals × (t ≡ u ++ v ∷ [])

  add_constraint-Has :
      (P : Tuple → Type 0) (vals : List ℕ) (d : Dict Tuple R) (u : Tuple)
      → P u
      → Has P d
      → Has (Next P vals) (add_constraint rule vals d)
  unfolding add_constraint
  add_constraint-Has P vals [] u pu h = absurd (unfold lookup in cc (h.complete u pu))
  add_constraint-Has P vals (entry ∷ d) u pu h =
      Has-iff _ _ (extend_keys rule (keys (entry ∷ d)) vals []) (λ t. (to t, from t))
        (extend_keys-Has _ (keys (entry ∷ d)) vals [] Has-empty)
    where
      in_P : (w : Tuple) → Elem w (keys (entry ∷ d)) → P w
      in_P w m = elim (Option-cases (lookup w (entry ∷ d))) [
        | inl n ↦ absurd (lookup-of-key w (entry ∷ d) m n)
        | inr (r, k) ↦ (h.sound w r k).0
      ]

      to : (t : Tuple) → ⊥ ⊎ Longer (keys (entry ∷ d)) vals t → Next P vals t
      to t (inl n) = absurd n
      to t (inr (w, v, m, n, e)) = (w, v, in_P w m, n, e)

      from : (t : Tuple) → Next P vals t → ⊥ ⊎ Longer (keys (entry ∷ d)) vals t
      from t (w, v, p, n, e) =
          inr (w, v, key-of-lookup w (entry ∷ d) (λ k. cc (k, h.complete w p)), n, e)

  module _ (vals_of : String → List ℕ) where
    abbrev Joined : (Tuple → Type 0) → List String → Tuple → Type 0
    Joined P cnames t =
        (p : Tuple) × (q : Tuple) × P p × InSpace q (map vals_of cnames) × (t ≡ p ++ q)

    -- every constraint has a value
    abbrev pub AreInhabited : List String → Type 0
    AreInhabited [] = Unit
    AreInhabited (name ∷ cnames) = ((v : ℕ) × Elem v (vals_of name)) × AreInhabited cnames

    Joined-cons :
        (P : Tuple → Type 0) (name : String) (cnames : List String) (t : Tuple)
        → Joined (Next P (vals_of name)) cnames t ↔ Joined P (name ∷ cnames) t
    Joined-cons P name cnames t = (to, from)
      where
        to : Joined (Next P (vals_of name)) cnames t → Joined P (name ∷ cnames) t
        to (p, q, (u, v, pu, m, e), s, f) =
            (u, v ∷ q, pu, (m, s), f ∙ ap (λ w. w ++ q) e ∙ append_assoc u (v ∷ []) q)

        from : Joined P (name ∷ cnames) t → Joined (Next P (vals_of name)) cnames t
        from (p, [], pp, s, f) = absurd s
        from (p, v ∷ q, pp, (m, s), f) =
            (p ++ v ∷ [], q, (p, v, pp, m, refl), s, f ∙ sym (append_assoc p (v ∷ []) q))

    initialize-Has :
        (cnames : List String) (P : Tuple → Type 0) (d : Dict Tuple R) (u : Tuple)
        → P u
        → AreInhabited cnames
        → Has P d
        → Has (Joined P cnames) (initialize_tuple2rule vals_of rule cnames d)
    unfolding initialize_tuple2rule
    initialize-Has [] P d u pu inh h = Has-iff P _ d (λ t. (to t, from t)) h
      where
        to : (t : Tuple) → P t → Joined P [] t
        to t p = (t, [], p, tt, sym (append-nil t))

        from : (t : Tuple) → Joined P [] t → P t
        from t (p, [], pp, s, f) = subst P (sym (f ∙ append-nil p)) pp
        from t (p, v ∷ q, pp, s, f) = absurd s
    initialize-Has (name ∷ cnames) P d u pu inh h =
        Has-iff _ _
          (initialize_tuple2rule vals_of rule cnames (add_constraint rule (vals_of name) d))
          (Joined-cons P name cnames)
          (initialize-Has cnames (Next P (vals_of name)) (add_constraint rule (vals_of name) d)
            (u ++ inh.0.0 ∷ []) (u, inh.0.0, pu, inh.0.1, refl) inh.1
            (add_constraint-Has P (vals_of name) d u pu h))

    -- When every constraint has a legal value, the dictionary that initialize_tuple2rule makes
    -- from an empty one, for at least one constraint name, has exactly the tuples of the cross
    -- product of the legal values, in the order of the names, and gives each of them the rule.
    pub initialize_tuple2rule-InSpace :
        (name : String) (cnames : List String) (t : Tuple) (r : R)
        → AreInhabited (name ∷ cnames)
        → (lookup t (initialize_tuple2rule vals_of rule (name ∷ cnames) []) ≡ some r)
          ↔ (InSpace t (map vals_of (name ∷ cnames)) × (r ≡ rule))
    unfolding initialize_tuple2rule add_constraint
    initialize_tuple2rule-InSpace name cnames t r inh =
        let vals = vals_of name in
        let start = singletons-Has (λ t. ⊥) vals [] Has-empty in
        let h =
          initialize-Has cnames _ (singletons rule vals []) (inh.0.0 ∷ [])
            (inr (inh.0.0, inh.0.1, refl)) inh.1 start in
        (λ k. let (j, e) = h.sound t r k in (to j, e), λ s. rw s.1 (h.complete t (from t s.0)))
      where
        to :
            Joined (λ t. ⊥ ⊎ ((v : ℕ) × Elem v (vals_of name) × (t ≡ v ∷ []))) cnames t
            → InSpace t (map vals_of (name ∷ cnames))
        to (p, q, inl n, s, f) = absurd n
        to (p, q, inr (v, m, e), s, f) =
            subst (λ w. InSpace w (map vals_of (name ∷ cnames))) (sym (f ∙ ap (λ w. w ++ q) e))
              (m, s)

        from :
            (t : Tuple)
            → InSpace t (map vals_of (name ∷ cnames))
            → Joined (λ t. ⊥ ⊎ ((v : ℕ) × Elem v (vals_of name) × (t ≡ v ∷ []))) cnames t
        from [] s = absurd s
        from (v ∷ q) s = (v ∷ [], q, inr (v, s.0, refl), s.1, refl)
