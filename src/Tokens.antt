-- ===== src/Tokens.antt =====
-- pysrc/hash_compare.py, `hash_compare_t`: a token for each list of numbers, the same for equal lists.
use mathlib.Core.Path.{subst}
use xed.Base.{
  ℕ, ◌+◌, ◌*◌, ◌<◌, ◌≡◌, ◌≢◌, ◌⊎◌, refl, sym, ap, ◌∙◌, inl, inr, Option, none, some, List, [], ◌∷◌,
  ◌++◌, arith, if◌then◌else◌, Bool-cases, Option-cases, nat_eq, list_eq, eqb, eqb_iff,
}
use xed.Base.Dict.{Dict, lookup, insert, lookup-insert}

-- `hnode_t`
abbrev pub Node : Type 0
Node = List ℕ × ℕ

pub record Store : Type 0 where
  pub bins : Dict ℕ (List Node)
  pub token : ℕ

abbrev pub new_store : Store
new_store = record { bins = []; token = 1 }

-- the sum of the values, each times its place
unfoldable pub hash_from : ℕ → ℕ → List ℕ → ℕ
hash_from h i [] = h
hash_from h i (v ∷ inlist) = hash_from (h + v * i) (i + 1) inlist

unfoldable pub hash_list : List ℕ → ℕ
unfolding hash_from
hash_list inlist = hash_from 0 1 inlist

-- the loop over a bucket
unfoldable pub find_node : List ℕ → List Node → Option ℕ
find_node inlist [] = none
find_node inlist ((lst, token) ∷ bucket) =
    if list_eq.beq lst inlist then some token else find_node inlist bucket

abbrev pub or_no_nodes : Option (List Node) → List Node
or_no_nodes none = []
or_no_nodes (some bucket) = bucket

unfoldable pub find_token : List ℕ → Store → Option ℕ
unfolding lookup find_node hash_list
find_token inlist s = find_node inlist (or_no_nodes (lookup (hash_list inlist) s.bins))

-- A list that is not found gets the next token, in its bucket or in a new one.
abbrev grown : List ℕ → Store → Store
grown inlist s = record {
  bins =
      insert (hash_list inlist)
        (or_no_nodes (lookup (hash_list inlist) s.bins) ++ (inlist, s.token) ∷ []) s.bins;
  token = s.token + 1;
}

abbrev pub answer_for : Option ℕ → List ℕ → Store → ℕ × Store
answer_for (some token) inlist s = (token, s)
answer_for none inlist s = (s.token, grown inlist s)

unfoldable pub insert_token : List ℕ → Store → ℕ × Store
unfolding find_token
insert_token inlist s = answer_for (find_token inlist s) inlist s

find_node-append :
    (inlist other : List ℕ) (token : ℕ) (bucket : List Node)
    → find_node other bucket ≡ none
    → find_node other (bucket ++ (inlist, token) ∷ [])
      ≡ (if list_eq.beq inlist other then some token else none)
unfolding find_node
find_node-append inlist other token [] e = refl
find_node-append inlist other token ((lst, t) ∷ bucket) e =
    elim (Bool-cases (list_eq.beq lst other)) [
      | inl p ↦ absurd (ground arith)
      | inr p ↦ rw p (find_node-append inlist other token bucket (ground arith))
    ]

find_node-append_some :
    (inlist other : List ℕ) (token t : ℕ) (bucket : List Node)
    → find_node other bucket ≡ some t
    → find_node other (bucket ++ (inlist, token) ∷ []) ≡ some t
unfolding find_node
find_node-append_some inlist other token t [] e = absurd cc
find_node-append_some inlist other token t ((lst, u) ∷ bucket) e =
    elim (Bool-cases (list_eq.beq lst other)) [
      | inl p ↦ rw p (ground arith)
      | inr p ↦ rw p (find_node-append_some inlist other token t bucket (ground arith))
    ]

find_token-grown :
    (inlist other : List ℕ) (s : Store)
    → find_token inlist s ≡ none
    → find_token other (grown inlist s)
      ≡ (if list_eq.beq inlist other then some s.token else find_token other s)
unfolding find_token
find_token-grown inlist other s e = elim (Bool-cases (eqb (hash_list inlist) (hash_list other))) [
  | inl p ↦
      let at : hash_list inlist ≡ hash_list other =
        (eqb_iff (hash_list inlist) (hash_list other)).0 p in
      let bucket = or_no_nodes (lookup (hash_list inlist) s.bins) in
      let same : or_no_nodes (lookup (hash_list other) s.bins) ≡ bucket =
        ap (λ h. or_no_nodes (lookup h s.bins)) (sym at) in
      rw
        (
          lookup-insert (hash_list inlist) (hash_list other) (bucket ++ (inlist, s.token) ∷ [])
              s.bins,
          p,
          same,
        )
        (elim (Option-cases (find_node other bucket)) [
          | inl n ↦ find_node-append inlist other s.token bucket n ∙ ground arith
          | inr (t, q) ↦
              find_node-append_some inlist other s.token t bucket q
              ∙ elim (Bool-cases (list_eq.beq inlist other)) [
                | inl z ↦
                    absurd
                      (cc (ap (λ l. find_node l bucket) ((list_eq.beq_iff inlist other).0 z), e, q))
                | inr z ↦ rw z (sym q)
              ]
        ])
  | inr p ↦
      rw
        (
          lookup-insert (hash_list inlist) (hash_list other)
              (or_no_nodes (lookup (hash_list inlist) s.bins) ++ (inlist, s.token) ∷ []) s.bins,
          p,
        )
        (elim (Bool-cases (list_eq.beq inlist other)) [
          | inl z ↦ absurd (
              cc (
                p,
                (eqb_iff (hash_list inlist) (hash_list other)).1
                    (ap hash_list ((list_eq.beq_iff inlist other).0 z)),
              ))
          | inr z ↦ rw z refl
        ])
]

-- Every token is below the next one, and no two lists have the same token.
pub record AreTokens (s : Store) : Type 0 where
  pub below : (l : List ℕ) (t : ℕ) → find_token l s ≡ some t → t < s.token
  pub differ : (l k : List ℕ) (t : ℕ) → find_token l s ≡ some t → find_token k s ≡ some t → l ≡ k

AreTokens-grown :
    (inlist : List ℕ) (s : Store)
    → AreTokens s
    → find_token inlist s ≡ none
    → AreTokens (grown inlist s)
AreTokens-grown inlist s w e = record {
  below = λ l t k. elim (where_from l t k) [
    | inl (p, q) ↦ omega (arith, q)
    | inr q ↦ omega (arith, w.below l t q)
  ];
  differ = λ l k t a b. elim (where_from l t a) [
    | inl (p, q) ↦ elim (where_from k t b) [
      | inl (p', q') ↦ sym p ∙ p'
      | inr q' ↦ absurd (omega (arith, q, w.below k t q'))
    ]
    | inr q ↦ elim (where_from k t b) [
      | inl (p', q') ↦ absurd (omega (arith, q', w.below l t q))
      | inr q' ↦ w.differ l k t q q'
    ]
  ];
}
  where
    where_from :
        (l : List ℕ) (t : ℕ)
        → find_token l (grown inlist s) ≡ some t
        → ((inlist ≡ l) × (s.token ≡ t)) ⊎ (find_token l s ≡ some t)
    where_from l t k = elim (Bool-cases (list_eq.beq inlist l)) [
      | inl z ↦ inl ((list_eq.beq_iff inlist l).0 z, ground (arith, find_token-grown inlist l s e))
      | inr z ↦ inr (ground (arith, find_token-grown inlist l s e))
    ]

-- The answer of an insertion is the token of the list from then on, other lists keep theirs, tokens
-- stay different, and a list that is there already changes nothing.
pub record Inserts (inlist : List ℕ) (s : Store) (answer : ℕ × Store) : Type 0 where
  pub found : find_token inlist answer.1 ≡ some answer.0
  pub others : (l : List ℕ) → inlist ≢ l → find_token l answer.1 ≡ find_token l s
  pub tokens : AreTokens answer.1
  pub again : find_token inlist s ≢ none → answer.1 ≡ s

-- On a store whose tokens are below the next one and different for different lists, an insertion
-- answers with the token that the list has from then on, leaves the tokens of other lists, keeps
-- the tokens different and below the next one, and changes nothing when the list is there
-- already.
pub insert_token-Inserts :
    (inlist : List ℕ) (s : Store) → AreTokens s → Inserts inlist s (insert_token inlist s)
unfolding insert_token
insert_token-Inserts inlist s w = elim (Option-cases (find_token inlist s)) [
  | inr (t, e) ↦
      subst (λ o. Inserts inlist s (answer_for o inlist s)) (sym e)
        (record { found = e; others = λ l d. refl; tokens = w; again = λ n. refl })
  | inl e ↦
      subst (λ o. Inserts inlist s (answer_for o inlist s)) (sym e)
        (record {
          found =
              find_token-grown inlist inlist s e ∙ rw ((list_eq.beq_iff inlist inlist).1 refl) refl;
          others = λ l d. find_token-grown inlist l s e ∙ elim (Bool-cases (list_eq.beq inlist l)) [
            | inl z ↦ absurd (d ((list_eq.beq_iff inlist l).0 z))
            | inr z ↦ rw z refl
          ];
          tokens = AreTokens-grown inlist s w e;
          again = λ n. absurd (n e);
        })
]

pub new_store-AreTokens : AreTokens new_store
unfolding find_token find_node lookup
new_store-AreTokens = record { below = λ l t k. cc; differ = λ l k t a b. cc }
