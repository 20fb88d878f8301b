-- ===== src/Encoder/Vector.antt =====
-- Each tuple has the rule that its values are legal for, and no two rules have a tuple in common.
use mathlib.Core.Path.{subst}
use xed.Base.{
  ℕ, ◌≡◌, ◌↔◌, refl, sym, ap, ◌∙◌, inl, inr, String, List, [], ◌∷◌, ◌++◌, map, Result, ok, err,
  >>=-eq-ok, arith, Elem, Elem-append_left, Elem-append_right, Elem-append_cases, Elem-map, nat_eq,
  list_eq, string_eq,
}
use xed.Cdict.{Tuple, Space}
use xed.Cdict.Space.{InSpace}
use xed.Encoder.{Rule, vals_for, with_val, lengthen, single, cross, tuples_of}

append_assoc : (t : Tuple) (v : ℕ) (q : Tuple) → (t ++ v ∷ []) ++ q ≡ t ++ v ∷ q
append_assoc [] v q = refl
append_assoc (x ∷ t) v q = ap (λ l. x ∷ l) (append_assoc t v q)

append_nil : (t : Tuple) → t ++ [] ≡ t
append_nil [] = refl
append_nil (x ∷ t) = ap (λ l. x ∷ l) (append_nil t)

Elem-map_inverse :
    (f : Tuple → Tuple) (t : Tuple) (us : List Tuple)
    → Elem t (map f us)
    → (u : Tuple) × Elem u us × (t ≡ f u)
Elem-map_inverse f t [] m = elim m [ ]
Elem-map_inverse f t (u ∷ us) (inl e) = (u, inl refl, e)
Elem-map_inverse f t (u ∷ us) (inr m) = let (w, k, e) = Elem-map_inverse f t us m in (w, inr k, e)

single-inverse :
    (t : Tuple) (vals : List ℕ) → Elem t (map single vals) → (v : ℕ) × Elem v vals × (t ≡ v ∷ [])
single-inverse t [] m = elim m [ ]
single-inverse t (v ∷ vals) (inl e) = (v, inl refl, e)
single-inverse t (v ∷ vals) (inr m) = let (w, k, e) = single-inverse t vals m in (w, inr k, e)

lengthen-Elem :
    (t : Tuple) (vals : List ℕ) (us : List Tuple)
    → Elem t (lengthen vals us)
      ↔ ((u : Tuple) × (v : ℕ) × Elem u us × Elem v vals × (t ≡ u ++ v ∷ []))
lengthen-Elem t [] us = (λ m. elim m [ ], λ p. let (u, v, k, m, e) = p in elim m [ ])
lengthen-Elem t (x ∷ vals) us = let ih = lengthen-Elem t vals us in (to ih.0, from ih.1)
  where
    to :
        (Elem t (lengthen vals us)
          → ((u : Tuple) × (v : ℕ) × Elem u us × Elem v vals × (t ≡ u ++ v ∷ [])))
        → Elem t (map (with_val x) us ++ lengthen vals us)
        → (u : Tuple) × (v : ℕ) × Elem u us × Elem v (x ∷ vals) × (t ≡ u ++ v ∷ [])
    to ih m = elim (Elem-append_cases t (map (with_val x) us) (lengthen vals us) m) [
      | inl k ↦ let (u, at, e) = Elem-map_inverse (with_val x) t us k in (u, x, at, inl refl, e)
      | inr k ↦ let (u, v, at, w, e) = ih k in (u, v, at, inr w, e)
    ]

    from :
        (((u : Tuple) × (v : ℕ) × Elem u us × Elem v vals × (t ≡ u ++ v ∷ []))
          → Elem t (lengthen vals us))
        → (u : Tuple) × (v : ℕ) × Elem u us × Elem v (x ∷ vals) × (t ≡ u ++ v ∷ [])
        → Elem t (map (with_val x) us ++ lengthen vals us)
    from ih (u, v, at, inl p, e) = Elem-append_left t (map (with_val x) us) (lengthen vals us) (
        subst (λ w. Elem w (map (with_val x) us)) (sym (e ∙ ap (λ w. u ++ w ∷ []) p))
          (Elem-map (with_val x) u us at))
    from ih (u, v, at, inr p, e) =
        Elem-append_right t (map (with_val x) us) (lengthen vals us) (ih (u, v, at, p, e))

abbrev pub or_nothing : Result (List ℕ) → List ℕ
or_nothing (ok vals) = vals
or_nothing (err e) = []

module _ (state_space : Space) where
  -- the legal values of a rule for a name
  abbrev pub legal : Rule → String → List ℕ
  legal rule name = or_nothing (vals_for state_space rule name)

  cross-InSpace :
      (rule : Rule) (cnames : List String) (us out : List Tuple) (t : Tuple)
      → cross state_space rule cnames us ≡ ok out
      → Elem t out ↔ (
          (u : Tuple) × (q : Tuple) × Elem u us
          × InSpace q (map (legal rule) cnames)
          × (t ≡ u ++ q))
  unfolding cross
  cross-InSpace rule [] us out t e =
      let same : us ≡ out = ground arith in
      subst
        (λ l. Elem t l ↔ (
          (u : Tuple) × (q : Tuple) × Elem u us × InSpace q (map (legal rule) []) × (t ≡ u ++ q)))
        same (λ m. (t, [], m, tt, sym (append_nil t)), nil_from)
    where
      nil_from :
          (u : Tuple) × (q : Tuple) × Elem u us × InSpace q (map (legal rule) []) × (t ≡ u ++ q)
          → Elem t us
      nil_from (u, [], m, s, p) = subst (λ w. Elem w us) (sym (p ∙ append_nil u)) m
      nil_from (u, x ∷ q, m, s, p) = absurd s
  cross-InSpace rule (name ∷ cnames) us out t e =
      let (vals, h, e') = >>=-eq-ok (vals_for state_space rule name) _ e in
      let at : legal rule name ≡ vals = ap or_nothing h in
      let ih = cross-InSpace rule cnames (lengthen vals us) out t e' in
      subst
        (λ l. Elem t out ↔ (
          (u : Tuple) × (q : Tuple) × Elem u us
          × InSpace q (l ∷ map (legal rule) cnames)
          × (t ≡ u ++ q)))
        (sym at) (λ m. to vals (ih.0 m), λ p. ih.1 (from vals p))
    where
      to :
          (vals : List ℕ)
          → (u : Tuple) × (q : Tuple) × Elem u (lengthen vals us)
            × InSpace q (map (legal rule) cnames)
            × (t ≡ u ++ q)
          → (u : Tuple) × (q : Tuple) × Elem u us
            × InSpace q (vals ∷ map (legal rule) cnames)
            × (t ≡ u ++ q)
      to vals (u, q, m, s, p) =
          let (w, v, k, n, z) = (lengthen-Elem u vals us).0 m in
          (w, v ∷ q, k, (n, s), p ∙ ap (λ x. x ++ q) z ∙ append_assoc w v q)

      from :
          (vals : List ℕ)
          → (u : Tuple) × (q : Tuple) × Elem u us
            × InSpace q (vals ∷ map (legal rule) cnames)
            × (t ≡ u ++ q)
          → (u : Tuple) × (q : Tuple) × Elem u (lengthen vals us)
            × InSpace q (map (legal rule) cnames)
            × (t ≡ u ++ q)
      from vals (u, [], m, s, p) = absurd s
      from vals (u, v ∷ q, m, s, p) = (
        u ++ v ∷ [],
        q,
        (lengthen-Elem (u ++ v ∷ []) vals us).1 (u, v, m, s.0, refl),
        s.1,
        p ∙ sym (append_assoc u v q),
      )

  -- The tuples of a rule are the cross product of its legal values.
  pub tuples_of-InSpace :
      (rule : Rule) (name : String) (cnames : List String) (out : List Tuple) (t : Tuple)
      → tuples_of state_space rule (name ∷ cnames) ≡ ok out
      → Elem t out ↔ InSpace t (map (legal rule) (name ∷ cnames))
  unfolding tuples_of
  tuples_of-InSpace rule name cnames out t e =
      let (vals, h, e') = >>=-eq-ok (vals_for state_space rule name) _ e in
      let at : legal rule name ≡ vals = ap or_nothing h in
      let iff = cross-InSpace rule cnames (map single vals) out t e' in
      subst (λ l. Elem t out ↔ InSpace t (l ∷ map (legal rule) cnames)) (sym at)
        (λ m. to vals (iff.0 m), λ s. iff.1 (from vals t s))
    where
      to :
          (vals : List ℕ)
          → (u : Tuple) × (q : Tuple) × Elem u (map single vals)
            × InSpace q (map (legal rule) cnames)
            × (t ≡ u ++ q)
          → InSpace t (vals ∷ map (legal rule) cnames)
      to vals (u, q, m, s, p) =
          let (v, k, z) = single-inverse u vals m in
          subst (λ w. InSpace w (vals ∷ map (legal rule) cnames)) (sym (p ∙ ap (λ x. x ++ q) z))
            (k, s)

      from :
          (vals : List ℕ) (t : Tuple)
          → InSpace t (vals ∷ map (legal rule) cnames)
          → (u : Tuple) × (q : Tuple) × Elem u (map single vals)
            × InSpace q (map (legal rule) cnames)
            × (t ≡ u ++ q)
      from vals [] s = absurd s
      from vals (v ∷ q) s = (v ∷ [], q, single-Elem v vals s.0, s.1, refl)
        where
          single-Elem : (v : ℕ) (vals : List ℕ) → Elem v vals → Elem (v ∷ []) (map single vals)
          single-Elem v [] m = elim m [ ]
          single-Elem v (x ∷ xs) (inl p) = inl (ap single p)
          single-Elem v (x ∷ xs) (inr m) = inr (single-Elem v xs m)
