-- ===== src/Encoder/Conflicts.antt =====
-- The rules of the tuples, from the tuples of each rule.
use mathlib.Core.Path.{subst}
use xed.Base.{
  ℕ, ◌≡◌, ◌↔◌, ◌⊎◌, sym, ap, ◌∙◌, inl, inr, String, none, some, List, [], ◌∷◌, map, ok, >>=-eq-ok,
  arith, Elem, Option-cases, nat_eq, list_eq, string_eq, Eq,
}
use xed.Base.Dict.{
  Dict, lookup, insert, keys, lookup-insert, lookup-insert_cases, lookup-insert_self,
}
use xed.Cdict.{Tuple, Space, Cdict, create_tuple2int, fill_ints}
use xed.Cdict.Index.{IsIndexed, create_tuple2int-IsIndexed}
use xed.Cdict.Space.{InSpace}
use xed.Encoder.{Rule, tuples_of, add_tuples, make_tuple2rule, capture_cnames, work}
use xed.Encoder.Vector.{legal, tuples_of-InSpace}

-- From the rules so far to those with the tuples of one more.
record Added (rule : Rule) (ts : List Tuple) (d d' : Dict Tuple Rule) : Type 0 where
  kept : (t : Tuple) (r : Rule) → lookup t d ≡ some r → lookup t d' ≡ some r
  added : (t : Tuple) → Elem t ts → lookup t d' ≡ some rule
  only :
      (t : Tuple) (r : Rule)
      → lookup t d' ≡ some r
      → (Elem t ts × (r ≡ rule)) ⊎ (lookup t d ≡ some r)
  fresh : (t : Tuple) → Elem t ts → lookup t d ≡ none

add_tuples-Added :
    (rule : Rule) (ts : List Tuple) (d d' : Dict Tuple Rule)
    → add_tuples rule ts d ≡ ok d'
    → Added rule ts d d'
unfolding add_tuples
add_tuples-Added rule [] d d' e =
    let same : d ≡ d' = ground arith in
    subst (Added rule [] d) same (record {
      kept = λ t r k. k;
      added = λ t m. elim m [ ];
      only = λ t r k. inr k;
      fresh = λ t m. elim m [ ];
    })
add_tuples-Added rule (u ∷ ts) d d' e = elim (Option-cases (lookup u d)) [
  | inr (r, p) ↦ absurd (ground arith)
  | inl new ↦
      let q = add_tuples-Added rule ts (insert u rule d) d' (ground arith) in
      record {
        kept = λ t r k. q.kept t r (
            ground (
              arith,
              lookup-insert u t rule d,
              Eq.beq_iff list_eq u t,
              k,
              new,
              (λ (z : u ≡ t). ap (λ v. lookup v d) z),
            ));
        added = λ t m. elim m [
          | inl z ↦
              subst (λ v. lookup v d' ≡ some rule) (sym z)
                (q.kept u rule (lookup-insert_self u rule d))
          | inr k ↦ q.added t k
        ];
        only = λ t r k. elim (q.only t r k) [
          | inl (m, z) ↦ inl (inr m, z)
          | inr m ↦ elim (lookup-insert_cases u t rule r d m) [
            | inl (p, v) ↦ inl (inl (sym p), sym v)
            | inr o ↦ inr o
          ]
        ];
        fresh = λ t m. elim m [
          | inl z ↦ subst (λ v. lookup v d ≡ none) (sym z) new
          | inr k ↦ ground (arith, lookup-insert u t rule d, q.fresh t k)
        ];
      }
]

module _ (state_space : Space) (name : String) (cnames : List String) where
  -- the tuple has legal values for the rule
  abbrev pub Applies : Rule → Tuple → Type 0
  Applies rule t = InSpace t (map (legal state_space rule) (name ∷ cnames))

  -- No tuple has legal values for two of the rules.
  abbrev pub AreApart : List Rule → Type 0
  AreApart [] = Unit
  AreApart (rule ∷ rules) =
      ((t : Tuple) (r : Rule) → Elem r rules → Applies rule t → ¬ (Applies r t)) × AreApart rules

  record Made (rules : List Rule) (d d' : Dict Tuple Rule) : Type 0 where
    kept : (t : Tuple) (r : Rule) → lookup t d ≡ some r → lookup t d' ≡ some r
    added : (t : Tuple) (r : Rule) → Elem r rules → Applies r t → lookup t d' ≡ some r
    only :
        (t : Tuple) (r : Rule)
        → lookup t d' ≡ some r
        → (Elem r rules × Applies r t) ⊎ (lookup t d ≡ some r)
    fresh : (t : Tuple) (r : Rule) → Elem r rules → Applies r t → lookup t d ≡ none
    apart : AreApart rules

  make_tuple2rule-Made :
      (rules : List Rule) (d d' : Dict Tuple Rule)
      → make_tuple2rule state_space (name ∷ cnames) rules d ≡ ok d'
      → Made rules d d'
  unfolding make_tuple2rule
  make_tuple2rule-Made [] d d' e =
      let same : d ≡ d' = ground arith in
      subst (Made [] d) same (record {
        kept = λ t r k. k;
        added = λ t r m. elim m [ ];
        only = λ t r k. inr k;
        fresh = λ t r m. elim m [ ];
        apart = tt;
      })
  make_tuple2rule-Made (rule ∷ rules) d d' e =
      let (ts, h, e') = >>=-eq-ok (tuples_of state_space rule (name ∷ cnames)) _ e in
      let (mid, k, rest) = >>=-eq-ok (add_tuples rule ts d) _ e' in
      let iff = λ (t : Tuple). tuples_of-InSpace state_space rule name cnames ts t h in
      let p = add_tuples-Added rule ts d mid k in
      let q = make_tuple2rule-Made rules mid d' rest in
      record {
        kept = λ t r z. q.kept t r (p.kept t r z);
        added = λ t r m a. elim m [
          | inl z ↦
              q.kept t r (p.added t ((iff t).1 (subst (λ x. Applies x t) z a)) ∙ ap some (sym z))
          | inr n ↦ q.added t r n a
        ];
        only = λ t r z. elim (q.only t r z) [
          | inl (m, a) ↦ inl (inr m, a)
          | inr m ↦ elim (p.only t r m) [
            | inl (n, v) ↦ inl (inl v, subst (λ x. Applies x t) (sym v) ((iff t).0 n))
            | inr o ↦ inr o
          ]
        ];
        fresh = λ t r m a. elim m [
          | inl z ↦ p.fresh t ((iff t).1 (subst (λ x. Applies x t) z a))
          | inr n ↦ elim (Option-cases (lookup t d)) [
            | inl z ↦ z
            | inr (s, z) ↦ absurd (cc (p.kept t s z, q.fresh t r n a))
          ]
        ];
        apart = (λ t r m a b. cc (p.added t ((iff t).1 a), q.fresh t r m b), q.apart);
      }

-- If capture_cnames finds at least one name and work succeeds, the dictionary is indexed, no
-- tuple has legal values for two of the rules, and a tuple has a rule exactly when the rule is
-- one of the list and the tuple has legal values for it, its own or those of the whole state
-- space.
pub work-Applies :
    (state_space : Space) (widths : Dict String ℕ) (rules : List Rule) (name : String)
    (cnames : List String) (d : Cdict Rule)
    → capture_cnames rules ≡ ok (name ∷ cnames)
    → work state_space widths rules ≡ ok d
    → IsIndexed d
      × AreApart state_space name cnames rules
      × ((t : Tuple) (r : Rule)
          → (lookup t d.tuple2rule ≡ some r) ↔ (Elem r rules × Applies state_space name cnames r t))
unfolding work
work-Applies state_space widths rules name cnames d named e =
    let (names, h, e') = >>=-eq-ok (capture_cnames rules) _ e in
    let (tuple2rule, made, e'') = >>=-eq-ok (make_tuple2rule state_space names rules []) _ e' in
    let ((t2i, i2t), filled, z) =
      >>=-eq-ok (fill_ints names widths (keys tuple2rule) [] []) _ e'' in
    let names_eq : names ≡ name ∷ cnames = ground arith in
    let m =
      make_tuple2rule-Made state_space name cnames rules [] tuple2rule
        (subst (λ n. make_tuple2rule state_space n rules [] ≡ ok tuple2rule) names_eq made) in
    let self : Cdict Rule = record {
      cnames = names;
      rule = none;
      op_widths = widths;
      tuple2rule = tuple2rule;
      tuple2int = [];
      int2tuple = [];
    } in
    let indexed : create_tuple2int self widths ≡ ok d =
      unfold create_tuple2int in rw filled (ground arith) in
    let (i, rules_eq, computed) = create_tuple2int-IsIndexed self d widths indexed in
    (
      i,
      m.apart,
      λ t r.
          subst (λ x. (lookup t x ≡ some r) ↔ (Elem r rules × Applies state_space name cnames r t))
            (sym rules_eq)
            (
              λ k. elim (m.only t r k) [ inl p ↦ p | inr n ↦ absurd (unfold lookup in cc (n)) ],
              λ p. m.added t r p.0 p.1,
            ),
    )
