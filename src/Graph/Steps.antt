-- ===== src/Graph/Steps.antt =====
-- What the tests on a position say of the patterns, and the children of a node: each instruction that an
-- input meets is in the child that the input chooses.

use xed.Base.{
  ℕ, ◌<◌, ◌≡◌, ◌↔◌, refl, sym, ap, ◌∙◌, inl, inr, String, Bool, true, false, not, ◌||◌, Option,
  none, some, List, [], ◌∷◌, arith, if◌then◌else◌, Elem, length, leb, get_elem?, Bool-cases,
  Option-cases, string_eq,
}
use xed.Base.Dict.{lookup}
use xed.Graph.{
  Decider, BitInfo, one_or_zero, dont_care, operand, nonterminal, Store, Token, token_eq, Info,
  decider_of, nonterminal_of, test_at, has_value, all_same_operand_decider, all_same_nonterminal,
  some_at, those_at, not_done, at_end_from, at_end_of_instructions,
}
use xed.Graph.Partition.{Spaces}
use xed.Graph.Read.{Input, Satisfies, InSpace, choose}
use xed.Graph.Slots.{Aligned}

-- the edges of a node before its children are built
abbrev pub has_kid : Token → List (Token × Info) → Bool
has_kid t [] = false
has_kid t ((k, child) ∷ kids) = let rest = has_kid t kids in if token_eq.beq k t then true else rest

-- The instruction is in the child at a token, whose patterns agree up to the position `n` and a real
-- position.
abbrev pub Reaches : Store → List (Token × Info) → ℕ → ℕ → Token × ℕ → Type 0
Reaches s kids n i (t, p) =
    (child : Info) × (lookup t kids ≡ some child)
    × Elem i child.instructions
    × Aligned n s child.instructions p

-- Each instruction that an input meets is in the child that the input chooses.
abbrev pub IsSplit : Spaces → Store → Info → List (Token × Info) → ℕ → List ℕ → ℕ → Type 0
IsSplit sp s info kids n ids p =
    (i : ℕ) (x : Input)
    → Elem i ids
    → InSpace sp x
    → Satisfies x 0 (s i)
    → Reaches s kids n i (choose x p (λ t. has_kid t kids) info)

pub decider_of-eq-some :
    (o : Option BitInfo) {od : Decider} → decider_of o ≡ some od → o ≡ some (operand od)
decider_of-eq-some none h = cc
decider_of-eq-some (some (operand od)) h = ground arith
decider_of-eq-some (some (one_or_zero b)) h = cc
decider_of-eq-some (some (dont_care b)) h = cc
decider_of-eq-some (some (nonterminal b)) h = cc

pub nonterminal_of-eq-some :
    (o : Option BitInfo) {nt : String} → nonterminal_of o ≡ some nt → o ≡ some (nonterminal nt)
nonterminal_of-eq-some none h = cc
nonterminal_of-eq-some (some (nonterminal od)) h = ground arith
nonterminal_of-eq-some (some (one_or_zero b)) h = cc
nonterminal_of-eq-some (some (dont_care b)) h = cc
nonterminal_of-eq-some (some (operand b)) h = cc

pub has_value-eq-true :
    (v : Bool) (o : Option BitInfo) → test_at (has_value v) o ≡ true → o ≡ some (one_or_zero v)
has_value-eq-true v none h = cc
has_value-eq-true true (some (one_or_zero true)) h = refl
has_value-eq-true true (some (one_or_zero false)) h = cc
has_value-eq-true false (some (one_or_zero true)) h = cc
has_value-eq-true false (some (one_or_zero false)) h = refl
has_value-eq-true v (some (dont_care b)) h = cc
has_value-eq-true v (some (nonterminal b)) h = cc
has_value-eq-true v (some (operand b)) h = cc

module _ (s : Store) (n : ℕ) where
  pub those_at-Elem :
      (test : BitInfo → Bool) (ids : List ℕ) (i : ℕ)
      → Elem i (those_at s n test ids) ↔ (Elem i ids × (test_at test (get_elem? (s i) n) ≡ true))
  unfolding those_at
  those_at-Elem test [] i = (λ m. elim m [ ], λ p. let (m, e) = p in elim m [ ])
  those_at-Elem test (j ∷ ids) i =
      let ih = those_at-Elem test ids i in
      elim (Bool-cases (test_at test (get_elem? (s j) n))) [
        | inl e ↦ rw e (
          λ m. elim m [
            | inl q ↦ (inl q, ap (λ k. test_at test (get_elem? (s k) n)) q ∙ e)
            | inr k ↦ let (l, f) = ih.0 k in (inr l, f)
          ],
          λ p. let (m, f) = p in elim m [ inl q ↦ inl q | inr k ↦ inr (ih.1 (k, f)) ],
        )
        | inr e ↦ rw e (
          λ m. let (l, f) = ih.0 m in (inr l, f),
          λ p.
              let (m, f) = p in
              elim m [
                | inl q ↦ absurd (cc (e, ap (λ k. test_at test (get_elem? (s k) n)) q, f))
                | inr k ↦ ih.1 (k, f)
              ],
        )
      ]

  pub some_at-false :
      (test : BitInfo → Bool) (ids : List ℕ) (i : ℕ)
      → some_at s n test ids ≡ false
      → Elem i ids
      → test_at test (get_elem? (s i) n) ≡ false
  unfolding some_at
  some_at-false test [] i h m = elim m [ ]
  some_at-false test (j ∷ ids) i h m = elim (Bool-cases (test_at test (get_elem? (s j) n))) [
    | inl e ↦ absurd (cc (rw (some_at, e) at h))
    | inr e ↦ elim m [
      | inl q ↦ ap (λ k. test_at test (get_elem? (s k) n)) q ∙ e
      | inr r ↦ some_at-false test ids i (rw (some_at, e) at h) r
    ]
  ]

  -- Where the loop succeeds, all have a decider on the token.
  all_same_from :
      (last : Option Decider) (ids : List ℕ) (od : Decider)
      → all_same_operand_decider s n last ids ≡ some od
      → ((l : Decider) → last ≡ some l → l.token ≡ od.token)
        × ((i : ℕ)
            → Elem i ids
            → (o : Decider) × (decider_of (get_elem? (s i) n) ≡ some o) × (o.token ≡ od.token))
  unfolding all_same_operand_decider
  all_same_from last [] od h =
      (λ l e. let q : l ≡ od = ground arith in ap (λ (d : Decider). d.token) q, λ i m. elim m [ ])
  all_same_from none (j ∷ ids) od h = elim (Option-cases (decider_of (get_elem? (s j) n))) [
    | inl e ↦ absurd (cc (rw (all_same_operand_decider, e) at h))
    | inr (o, e) ↦
        let (first, later) =
          all_same_from (some o) ids od (rw (all_same_operand_decider, e) at h) in
        (
          λ l q. cc (q),
          λ i m. elim m [
            | inl q ↦ (o, ap (λ k. decider_of (get_elem? (s k) n)) q ∙ e, first o refl)
            | inr k ↦ later i k
          ],
        )
  ]
  all_same_from (some l) (j ∷ ids) od h = elim (Option-cases (decider_of (get_elem? (s j) n))) [
    | inl e ↦ absurd (cc (rw (all_same_operand_decider, e) at h))
    | inr (o, e) ↦ elim (Bool-cases (string_eq.beq l.token o.token)) [
      | inr d ↦ absurd (cc (rw (all_same_operand_decider, e, d) at h))
      | inl d ↦
          let (first, later) =
            all_same_from (some l) ids od (rw (all_same_operand_decider, e, d) at h) in
          let at : o.token ≡ od.token =
            sym ((string_eq.beq_iff l.token o.token).0 d) ∙ first l refl in
          (
            first,
            λ i m. elim m [
              | inl q ↦ (o, ap (λ k. decider_of (get_elem? (s k) n)) q ∙ e, at)
              | inr k ↦ later i k
            ],
          )
    ]
  ]

  pub all_same_operand_decider-eq-some :
      (ids : List ℕ) (od : Decider) (i : ℕ)
      → all_same_operand_decider s n none ids ≡ some od
      → Elem i ids
      → (o : Decider) × (get_elem? (s i) n ≡ some (operand o)) × (o.token ≡ od.token)
  all_same_operand_decider-eq-some ids od i h m =
      let (o, e, t) = (all_same_from none ids od h).1 i m in
      (o, decider_of-eq-some (get_elem? (s i) n) e, t)

  all_nonterminals_from :
      (last : Option String) (ids : List ℕ) (nt : String)
      → all_same_nonterminal s n last ids ≡ some nt
      → (i : ℕ) → Elem i ids
      → (x : String) × (nonterminal_of (get_elem? (s i) n) ≡ some x)
  unfolding all_same_nonterminal
  all_nonterminals_from last [] nt h i m = elim m [ ]
  all_nonterminals_from none (j ∷ ids) nt h i m =
      elim (Option-cases (nonterminal_of (get_elem? (s j) n))) [
        | inl e ↦ absurd (cc (rw (all_same_nonterminal, e) at h))
        | inr (x, e) ↦ elim m [
          | inl q ↦ (x, ap (λ k. nonterminal_of (get_elem? (s k) n)) q ∙ e)
          | inr k ↦ all_nonterminals_from (some x) ids nt (rw (all_same_nonterminal, e) at h) i k
        ]
      ]
  all_nonterminals_from (some y) (j ∷ ids) nt h i m =
      elim (Option-cases (nonterminal_of (get_elem? (s j) n))) [
        | inl e ↦ absurd (cc (rw (all_same_nonterminal, e) at h))
        | inr (x, e) ↦ elim (Bool-cases (string_eq.beq y x)) [
          | inr d ↦ absurd (cc (rw (all_same_nonterminal, e, d) at h))
          | inl d ↦ elim m [
            | inl q ↦ (x, ap (λ k. nonterminal_of (get_elem? (s k) n)) q ∙ e)
            | inr k ↦
                all_nonterminals_from (some y) ids nt (rw (all_same_nonterminal, e, d) at h) i k
          ]
        ]
      ]

  pub all_same_nonterminal-eq-some :
      (ids : List ℕ) (nt : String) (i : ℕ)
      → all_same_nonterminal s n none ids ≡ some nt
      → Elem i ids
      → (x : String) × (get_elem? (s i) n ≡ some (nonterminal x))
  all_same_nonterminal-eq-some ids nt i h m =
      let (x, e) = all_nonterminals_from none ids nt h i m in
      (x, nonterminal_of-eq-some (get_elem? (s i) n) e)

  -- All patterns go on, or all have ended.
  at_end_from-cases :
      (done notdone : Bool) (ids : List ℕ)
      → (at_end_from s n done notdone ids ≡ not_done
          → (done ≡ false) × ((i : ℕ) → Elem i ids → n < length (s i)))
  unfolding at_end_from
  at_end_from-cases true true [] h = cc
  at_end_from-cases true false [] h = cc
  at_end_from-cases false notdone [] h = (refl, λ i m. elim m [ ])
  at_end_from-cases done notdone (j ∷ ids) h =
      let past = leb (length (s j)) n in
      let (d, rest) = at_end_from-cases (done || past) (notdone || not past) ids h in
      (
        ground arith,
        λ i m. elim m [
          | inl q ↦ let f : past ≡ false = ground arith in rw q (ground arith)
          | inr k ↦ rest i k
        ],
      )

  pub not_done-lt :
      (ids : List ℕ) (i : ℕ)
      → at_end_of_instructions s n ids ≡ not_done
      → Elem i ids
      → n < length (s i)
  unfolding at_end_of_instructions
  not_done-lt ids i h m = (at_end_from-cases false false ids h).1 i m
