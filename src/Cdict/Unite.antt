-- ===== src/Cdict/Unite.antt =====
-- `unite_dicts`: the rules of every dictionary in the list, and no tuple with two of them.
use mathlib.Core.Path.{subst}
use xed.Base.{
  ◌≡◌, ◌≢◌, ◌↔◌, ◌⊎◌, refl, sym, ap, ◌∙◌, inl, inr, none, some, List, [], ◌∷◌, String, Eq, ok,
  >>=-eq-ok, arith, nat_eq, list_eq, Elem, Bool-cases, Option-cases,
}
use xed.Base.Dict.{
  Dict, lookup, insert, IsDict, lookup-insert, lookup-insert_cases, lookup-insert_self,
}
use xed.Cdict.{Tuple, Cdict, unite_rules, unite_all, unite_dicts, no_rules}

module _ {R : Type 0} where
  -- From the rules so far to those with one more dictionary.
  pub record United (d res res' : Dict Tuple R) : Type 0 where
    pub kept : (t : Tuple) (r : R) → lookup t res ≡ some r → lookup t res' ≡ some r
    pub added : (t : Tuple) (r : R) → lookup t d ≡ some r → lookup t res' ≡ some r
    pub only :
        (t : Tuple) (r : R)
        → lookup t res' ≡ some r
        → (lookup t d ≡ some r) ⊎ (lookup t res ≡ some r)
    pub apart : (t : Tuple) → lookup t d ≢ none → lookup t res ≡ none

  unite_rules-United :
      (d res res' : Dict Tuple R) → IsDict d → unite_rules d res ≡ ok res' → United d res res'
  unfolding unite_rules lookup
  unite_rules-United [] res res' w e =
      let same : res ≡ res' = ground arith in
      subst (United [] res) same (record {
        kept = λ t r k. k;
        added = λ t r k. cc;
        only = λ t r k. inr k;
        apart = λ t k. absurd (k refl);
      })
  unite_rules-United ((u, s) ∷ d) res res' w e = elim (Option-cases (lookup u res)) [
    | inr (r, p) ↦ absurd (ground arith)
    | inl fresh ↦
        let q = unite_rules-United d (insert u s res) res' w.1 (ground arith) in
        let at_u : lookup u res' ≡ some s = q.kept u s (lookup-insert_self u s res) in
        record {
          kept = λ t r k. q.kept t r (
              ground (
                arith,
                lookup-insert u t s res,
                Eq.beq_iff list_eq u t,
                k,
                fresh,
                (λ (z : u ≡ t). ap (λ v. lookup v res) z),
              ));
          added = λ t r k. elim (Bool-cases (Eq.beq list_eq u t)) [
            | inl z ↦
                let same : u ≡ t = (Eq.beq_iff list_eq u t).0 z in
                let value : s ≡ r = ground arith in
                subst (λ v. lookup v res' ≡ some r) same (at_u ∙ ap some value)
            | inr z ↦ q.added t r (ground arith)
          ];
          only = λ t r k. elim (q.only t r k) [
            | inl m ↦ inl (
                ground
                  (arith, w.0, Eq.beq_iff list_eq u t, m, (λ (z : u ≡ t). ap (λ v. lookup v d) z)))
            | inr m ↦ elim (lookup-insert_cases u t s r res m) [
              | inl (p, v) ↦ inl (ground (arith, Eq.beq_iff list_eq u t, p, v))
              | inr o ↦ inr o
            ]
          ];
          apart = λ t k. elim (Bool-cases (Eq.beq list_eq u t)) [
            | inl z ↦ subst (λ v. lookup v res ≡ none) ((Eq.beq_iff list_eq u t).0 z) fresh
            | inr z ↦ ground (arith, lookup-insert u t s res, q.apart t (ground arith))
          ];
        }
  ]

  abbrev pub AreDicts : List (Cdict R) → Type 0
  AreDicts [] = Unit
  AreDicts (c ∷ cs) = IsDict c.tuple2rule × AreDicts cs

  -- No tuple has a rule in two of the dictionaries.
  abbrev pub AreDisjoint : List (Cdict R) → Type 0
  AreDisjoint [] = Unit
  AreDisjoint (c ∷ cs) =
      ((t : Tuple) (b : Cdict R)
        → Elem b cs
        → lookup t c.tuple2rule ≢ none
        → lookup t b.tuple2rule ≡ none)
      × AreDisjoint cs

  record AllUnited (cs : List (Cdict R)) (res res' : Dict Tuple R) : Type 0 where
    kept : (t : Tuple) (r : R) → lookup t res ≡ some r → lookup t res' ≡ some r
    added :
        (c : Cdict R)
        → Elem c cs
        → (t : Tuple) (r : R) → lookup t c.tuple2rule ≡ some r
        → lookup t res' ≡ some r
    only :
        (t : Tuple) (r : R)
        → lookup t res' ≡ some r
        → ((c : Cdict R) × Elem c cs × (lookup t c.tuple2rule ≡ some r)) ⊎ (lookup t res ≡ some r)
    apart :
        (c : Cdict R) → Elem c cs → (t : Tuple) → lookup t c.tuple2rule ≢ none → lookup t res ≡ none
    disjoint : AreDisjoint cs

  unite_all-AllUnited :
      (cs : List (Cdict R)) (res res' : Dict Tuple R)
      → AreDicts cs
      → unite_all cs res ≡ ok res'
      → AllUnited cs res res'
  unfolding unite_all
  unite_all-AllUnited [] res res' w e =
      let same : res ≡ res' = ground arith in
      subst (AllUnited [] res) same (record {
        kept = λ t r k. k;
        added = λ c m. elim m [ ];
        only = λ t r k. inr k;
        apart = λ c m. elim m [ ];
        disjoint = tt;
      })
  unite_all-AllUnited (c ∷ cs) res res' w e =
      let (mid, first, rest) = >>=-eq-ok (unite_rules c.tuple2rule res) (unite_all cs) e in
      let p = unite_rules-United c.tuple2rule res mid w.0 first in
      let q = unite_all-AllUnited cs mid res' w.1 rest in
      record {
        kept = λ t r k. q.kept t r (p.kept t r k);
        added = λ b m t r k. elim m [
          | inl same ↦ q.kept t r (p.added t r (subst (λ x. lookup t x.tuple2rule ≡ some r) same k))
          | inr n ↦ q.added b n t r k
        ];
        only = λ t r k. elim (q.only t r k) [
          | inl (b, m, z) ↦ inl (b, inr m, z)
          | inr m ↦ elim (p.only t r m) [ inl z ↦ inl (c, inl refl, z) | inr z ↦ inr z ]
        ];
        apart = λ b m t k. elim m [
          | inl same ↦ p.apart t (subst (λ x. lookup t x.tuple2rule ≢ none) same k)
          | inr n ↦ elim (Option-cases (lookup t res)) [
            | inl z ↦ z
            | inr (r, z) ↦ absurd (cc (p.kept t r z, q.apart b n t k))
          ]
        ];
        disjoint = (
          λ t b m k. elim (Option-cases (lookup t b.tuple2rule)) [
            | inl z ↦ z
            | inr (s, z) ↦ elim (Option-cases (lookup t c.tuple2rule)) [
              | inl y ↦ absurd (k y)
              | inr (r, y) ↦ absurd (cc (p.added t r y, q.apart b m t (λ n. cc (n, z))))
            ]
          ],
          q.disjoint,
        );
      }

  -- If unite_dicts of two or more dictionaries succeeds, then no tuple has a rule in two of them,
  -- the result has the constraint names that were passed, and a tuple has a rule in the result
  -- exactly when one of the dictionaries gives it that rule.
  pub unite_dicts-AreDisjoint :
      (c b : Cdict R) (cs : List (Cdict R)) (names : List String) (d : Cdict R)
      → AreDicts (c ∷ b ∷ cs)
      → unite_dicts (c ∷ b ∷ cs) names ≡ ok (some d)
      → AreDisjoint (c ∷ b ∷ cs)
        × (d.cnames ≡ names)
        × ((t : Tuple) (r : R)
            → (lookup t d.tuple2rule ≡ some r)
              ↔ ((a : Cdict R) × Elem a (c ∷ b ∷ cs) × (lookup t a.tuple2rule ≡ some r)))
  unfolding unite_dicts
  unite_dicts-AreDisjoint c b cs names d w e =
      let (rules, united, z) = >>=-eq-ok (unite_all (c ∷ b ∷ cs) []) _ e in
      let q = unite_all-AllUnited (c ∷ b ∷ cs) [] rules w united in
      let same : record (no_rules {R = R} names) { tuple2rule = rules } ≡ d = ground arith in
      (
        q.disjoint,
        ap (λ x. x.cnames) (sym same) ∙ unfold no_rules in refl,
        λ t r.
            subst
              (λ x.
                (lookup t x.tuple2rule ≡ some r)
                ↔ ((a : Cdict R) × Elem a (c ∷ b ∷ cs) × (lookup t a.tuple2rule ≡ some r)))
              same
              (
                λ k. elim (q.only t r k) [ inl m ↦ m | inr n ↦ absurd (unfold lookup in cc (n)) ],
                λ m. let (a, at, z) = m in q.added a at t r z,
              ),
      )
