-- ===== src/Pattern/United.antt =====
-- The dictionary of all patterns of one map and opcode gives each tuple of operand values the pattern
-- that the values are legal for.
use mathlib.Core.Path.{subst}
use xed.Base.{
  ℕ, ◌≡◌, ◌≢◌, ◌↔◌, refl, sym, ap, ◌∙◌, inl, inr, String, some, List, [], ◌∷◌, map, ok, die, ok-eq,
  if_err-eq-ok, key_error, >>=-eq-ok, or_raise, or_raise-eq-ok, arith, nat_eq, list_eq, string_eq,
  Elem, Elem-map, All,
}
use xed.Base.Dict.{Dict, lookup}
use xed.Base.Sort.{sorted}
use xed.Cdict.{
  Tuple, Space, Cdict, constraint_dict, new_constraint_dict, misses_name, unite_dicts,
  create_tuple2int, values_of,
}
use xed.Cdict.Built.{constraint_dict-IsDict, constraint_dict-InSpace, constraint_dict-cnames}
use xed.Cdict.Index.{IsIndexed, create_tuple2int-IsIndexed}
use xed.Cdict.Space.{InSpace, AreInhabited}
use xed.Cdict.Unite.{AreDicts, unite_dicts-AreDisjoint}
use xed.Pattern.{Pattern, leb_string}
use xed.Pattern.Replace.{cdict_of, cdicts_of, unite_patterns}

-- the dictionary of a pattern, where the constructor does not raise
abbrev made_cdict : List String → Space → Pattern → Cdict Pattern
made_cdict cnames state_space p =
    constraint_dict (sorted leb_string cnames) p.constraints state_space p

module _ (state_space : Space) (widths : Dict String ℕ) (cnames : List String) where
  -- the values of the operands, in the order of the sorted names, that a pattern is for
  abbrev pub Matches : Pattern → Tuple → Type 0
  Matches p t = InSpace t (map (values_of p.constraints state_space) (sorted leb_string cnames))

  -- A pattern with constraints, and a legal value for each name.
  abbrev pub IsSatisfiable : Pattern → Type 0
  IsSatisfiable p =
      (p.constraints ≢ [])
      × AreInhabited p (values_of p.constraints state_space) (sorted leb_string cnames)

  cdicts-AreDicts : (ptrns : List Pattern) → AreDicts (map (made_cdict cnames state_space) ptrns)
  cdicts-AreDicts [] = tt
  cdicts-AreDicts (p ∷ ps) = (
    constraint_dict-IsDict p (sorted leb_string cnames) p.constraints state_space,
    cdicts-AreDicts ps,
  )

  made_cdict-Matches :
      (p q : Pattern) (t : Tuple)
      → sorted leb_string cnames ≢ []
      → IsSatisfiable p
      → (lookup t (Cdict.tuple2rule (made_cdict cnames state_space p)) ≡ some q)
        ↔ (Matches p t × (q ≡ p))
  made_cdict-Matches p q t named s = of_names (sorted leb_string cnames) named s.1
    where
      of_names :
          (names : List String)
          → names ≢ []
          → AreInhabited p (values_of p.constraints state_space) names
          → (lookup t (Cdict.tuple2rule (constraint_dict names p.constraints state_space p))
              ≡ some q)
            ↔ (InSpace t (map (values_of p.constraints state_space) names) × (q ≡ p))
      of_names [] n i = absurd (n refl)
      of_names (name ∷ names) n i =
          constraint_dict-InSpace p name names p.constraints state_space t q s.0 i

  cdicts_of-eq-ok :
      (ptrns : List Pattern) (cdicts : List (Cdict Pattern))
      → cdicts_of cnames state_space ptrns ≡ ok cdicts
      → cdicts ≡ map (made_cdict cnames state_space) ptrns
  unfolding cdicts_of cdict_of new_constraint_dict
  cdicts_of-eq-ok [] cdicts e = sym (ok-eq [] e)
  cdicts_of-eq-ok (p ∷ ps) cdicts e =
      let names = sorted leb_string cnames in
      let (d, h, e2) = >>=-eq-ok (cdict_of cnames state_space p) _ e in
      let (ds, k, e3) = >>=-eq-ok (cdicts_of cnames state_space ps) _ e2 in
      let (no_miss, made) =
        if_err-eq-ok (misses_name names p.constraints state_space) key_error _ h in
      let first : made_cdict cnames state_space p ≡ d =
        ok-eq (made_cdict cnames state_space p) made in
      sym (ok-eq (d ∷ ds) e3)
      ∙ ap (λ x. x ∷ ds) (sym first)
      ∙ ap (λ l. made_cdict cnames state_space p ∷ l) (cdicts_of-eq-ok ps ds k)

  some_cdict :
      (ptrns : List Pattern) (c : Cdict Pattern)
      → Elem c (map (made_cdict cnames state_space) ptrns)
      → (p : Pattern) × Elem p ptrns × (c ≡ made_cdict cnames state_space p)
  some_cdict [] c m = elim m [ ]
  some_cdict (p ∷ ps) c (inl e) = (p, inl refl, e)
  some_cdict (p ∷ ps) c (inr m) = let (q, k, e) = some_cdict ps c m in (q, inr k, e)

  All-Elem :
      (ptrns : List Pattern)
      → All IsSatisfiable ptrns
      → (p : Pattern) → Elem p ptrns
      → IsSatisfiable p
  All-Elem [] a p m = elim m [ ]
  All-Elem (q ∷ ps) a p (inl e) = subst IsSatisfiable (sym e) a.0
  All-Elem (q ∷ ps) a p (inr m) = All-Elem ps a.1 p m

  module _ (named : sorted leb_string cnames ≢ []) where
    united-Matches :
        (ptrns : List Pattern) (d : Cdict Pattern)
        → All IsSatisfiable ptrns
        → unite_dicts (map (made_cdict cnames state_space) ptrns) (sorted leb_string cnames)
          ≡ ok (some d)
        → (t : Tuple) (q : Pattern)
        → (lookup t d.tuple2rule ≡ some q) ↔ (Elem q ptrns × Matches q t)
    unfolding unite_dicts constraint_dict
    united-Matches [] d a e t q = absurd (ground arith)
    united-Matches (p ∷ []) d a e t q =
        let same : made_cdict cnames state_space p ≡ d = ground arith in
        let iff = made_cdict-Matches p q t named a.0 in
        subst (λ c. (lookup t c.tuple2rule ≡ some q) ↔ (Elem q (p ∷ []) × Matches q t)) same
          (
            λ k. let (m, z) = iff.0 k in (inl z, subst (λ x. Matches x t) (sym z) m),
            λ m. elim m.0 [
              | inl z ↦ iff.1 (subst (λ x. Matches x t) z m.1, z)
              | inr n ↦ elim n [ ]
            ],
          )
    united-Matches (p ∷ r ∷ ps) d a e t q =
        let (disjoint, names, united) =
          unite_dicts-AreDisjoint (made_cdict cnames state_space p)
            (made_cdict cnames state_space r) (map (made_cdict cnames state_space) ps)
            (sorted leb_string cnames) d (cdicts-AreDicts (p ∷ r ∷ ps)) e in
        let iff = united t q in
        (
          λ k.
              let (c, m, z) = iff.0 k in
              let (x, at, c_eq) = some_cdict (p ∷ r ∷ ps) c m in
              let (matches, q_eq) =
                (made_cdict-Matches x q t named (All-Elem (p ∷ r ∷ ps) a x at)).0
                  (subst (λ b. lookup t (Cdict.tuple2rule b) ≡ some q) c_eq z) in
              (
                subst (λ y. Elem y (p ∷ r ∷ ps)) (sym q_eq) at,
                subst (λ y. Matches y t) (sym q_eq) matches,
              ),
          λ m. iff.1 (
            made_cdict cnames state_space q,
            Elem-map (made_cdict cnames state_space) q (p ∷ r ∷ ps) m.0,
            (made_cdict-Matches q q t named (All-Elem (p ∷ r ∷ ps) a q m.0)).1 (m.1, refl),
          ),
        )

    united-cnames :
        (ptrns : List Pattern) (d : Cdict Pattern)
        → unite_dicts (map (made_cdict cnames state_space) ptrns) (sorted leb_string cnames)
          ≡ ok (some d)
        → d.cnames ≡ sorted leb_string cnames
    unfolding unite_dicts
    united-cnames [] d e = absurd (ground arith)
    united-cnames (p ∷ []) d e =
        let same : made_cdict cnames state_space p ≡ d = ground arith in
        ap (λ c. c.cnames) (sym same)
        ∙ constraint_dict-cnames p (sorted leb_string cnames) p.constraints state_space
    united-cnames (p ∷ r ∷ ps) d e =
        (unite_dicts-AreDisjoint (made_cdict cnames state_space p) (made_cdict cnames state_space r)
          (map (made_cdict cnames state_space) ps) (sorted leb_string cnames) d
          (cdicts-AreDicts (p ∷ r ∷ ps)) e).1

    -- What a success of `unite_patterns` consists of.
    pub unite_patterns-eq-ok :
        (ptrns : List Pattern) (d : Cdict Pattern)
        → All IsSatisfiable ptrns
        → unite_patterns state_space widths (cnames, ptrns) ≡ ok (some d)
        → (u : Cdict Pattern) × (create_tuple2int u widths ≡ ok d)
          × (u.cnames ≡ sorted leb_string cnames)
          × ((t : Tuple) (q : Pattern)
              → (lookup t u.tuple2rule ≡ some q) ↔ (Elem q ptrns × Matches q t))
    unfolding unite_patterns
    unite_patterns-eq-ok ptrns d a e =
        let (cdicts, c, e0) = >>=-eq-ok (cdicts_of cnames state_space ptrns) _ e in
        let (o, h0, e') = >>=-eq-ok (unite_dicts cdicts (sorted leb_string cnames)) _ e0 in
        let h =
          subst (λ ds. unite_dicts ds (sorted leb_string cnames) ≡ ok o)
            (cdicts_of-eq-ok ptrns cdicts c) h0 in
        let (u, k, e'') = >>=-eq-ok (or_raise die o) _ e' in
        let (i, made, z) = >>=-eq-ok (create_tuple2int u widths) _ e'' in
        let united = h ∙ ap ok (or_raise-eq-ok die o k) in
        (u, made ∙ ground arith, united-cnames ptrns u united, united-Matches ptrns u a united)

    -- For patterns that all have constraints and a legal value for each constraint name, of which
    -- there is at least one: if unite_patterns returns a dictionary, it is indexed, and a tuple
    -- has a pattern in it exactly when the pattern is one of the list and the tuple has legal
    -- values for it, in the order of the sorted names.
    pub unite_patterns-Matches :
        (ptrns : List Pattern) (d : Cdict Pattern)
        → All IsSatisfiable ptrns
        → unite_patterns state_space widths (cnames, ptrns) ≡ ok (some d)
        → IsIndexed d
          × ((t : Tuple) (q : Pattern)
              → (lookup t d.tuple2rule ≡ some q) ↔ (Elem q ptrns × Matches q t))
    unite_patterns-Matches ptrns d a e =
        let (u, made, names, united) = unite_patterns-eq-ok ptrns d a e in
        let (indexed, rules, computed) = create_tuple2int-IsIndexed u d widths made in
        (
          indexed,
          λ t q.
              subst (λ r. (lookup t r ≡ some q) ↔ (Elem q ptrns × Matches q t)) (sym rules)
                (united t q),
        )
