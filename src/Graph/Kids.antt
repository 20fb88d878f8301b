-- ===== src/Graph/Kids.antt =====
-- The children of a split at a bit: they are fresh, and the input goes to the one of its bit.
use mathlib.Core.Path.{subst}
use xed.Base.{
  ℕ, ◌+◌, ◌<◌, ◌≡◌, ◌⊎◌, refl, sym, ap, ◌∙◌, inl, inr, String, Bool, true, false, Option, none,
  some, List, [], ◌∷◌, arith, Elem, length, get_elem?, Bool-cases, string_eq,
}
use xed.Base.Dict.{lookup}
use xed.Graph.{
  Decider, one_or_zero, Store, Token, bit, token_eq, Info, has_value, is_other, those_at, new_node,
  real_bits,
}
use xed.Graph.Build.{zeros_node, ones_node}
use xed.Graph.Read.{Input, Satisfies, choose, choose_at}
use xed.Graph.Slots.{Aligned, Satisfies-Meets, get_elem?-lt}
use xed.Graph.Steps.{Reaches, has_value-eq-true, those_at-Elem}

-- a node on which nothing is set yet
pub record IsFresh (info : Info) : Type 0 where
  pub nt : info.nt ≡ none
  pub od : info.operand_decider ≡ none
  pub back : info.back_split_pos ≡ none

pub new_node-IsFresh :
    (t : Token) (k : ℕ) (vs : Option (List ℕ)) (ids : List ℕ) → IsFresh (new_node t k vs ids).1
new_node-IsFresh t k vs ids = record { nt = refl; od = refl; back = refl }

pub choose-eq :
    (x : Input) (p : ℕ) (has : Token → Bool) (info : Info) {back : Option ℕ} {nt : Option String}
    {od : Option Decider}
    → info.back_split_pos ≡ back
    → info.nt ≡ nt
    → info.operand_decider ≡ od
    → choose_at x p has back nt od ≡ choose x p has info
choose-eq x p has info {back} {nt} {od} b n o = sym (
    ap (λ z. choose_at x p has z info.nt info.operand_decider) b
    ∙ ap (λ z. choose_at x p has back z info.operand_decider) n
    ∙ ap (λ z. choose_at x p has back nt z) o)

-- The input has the bits of a pattern that it meets.
pub bit_at-eq :
    (s : Store) (n p i : ℕ) (x : Input) (b : Bool)
    → real_bits n (s i) ≡ p
    → Satisfies x 0 (s i)
    → get_elem? (s i) n ≡ some (one_or_zero b)
    → x.bit_at p ≡ b
bit_at-eq s n p i x b at sat e =
    let same : p ≡ real_bits n (s i) + 0 = omega (arith, at) in
    ap x.bit_at same ∙ Satisfies-Meets x n 0 (s i) (one_or_zero b) sat e

module _ (s : Store) (n : ℕ) (ids : List ℕ) where
  -- the instructions with a bit, and those that are left
  pub bits_at :
      (v : Bool) (i : ℕ)
      → Elem i (those_at s n (has_value v) ids)
      → Elem i ids × (get_elem? (s i) n ≡ some (one_or_zero v))
  bits_at v i m =
      let (h, e) = (those_at-Elem s n (has_value v) ids i).0 m in (h, has_value-eq-true v _ e)

  pub bit-cases :
      (i : ℕ)
      → Elem i ids
      → n < length (s i)
      → those_at s n is_other ids ≡ []
      → Elem i (those_at s n (has_value true) ids) ⊎ Elem i (those_at s n (has_value false) ids)
  bit-cases i m lt none_left =
      let (b, e) = get_elem?-lt n (s i) lt in
      elim (Bool-cases (has_value true b)) [
        | inl t ↦ inl ((those_at-Elem s n (has_value true) ids i).1 (m, rw e t))
        | inr t ↦ elim (Bool-cases (has_value false b)) [
          | inl f ↦ inr ((those_at-Elem s n (has_value false) ids i).1 (m, rw e f))
          | inr f ↦
              let left : Elem i (those_at s n is_other ids) =
                (those_at-Elem s n is_other ids i).1 (m, rw (e, f, t) refl) in
              elim (subst (Elem i) none_left left) [ ]
        ]
      ]

-- Zeros and ones have their nodes, if there are any.
abbrev pub HasNode : List (Token × Info) → Bool → List ℕ → Type 0
HasNode kids v those =
    (i : ℕ)
    → Elem i those
    → (child : Info) × (lookup (bit v) kids ≡ some child) × (child.instructions ≡ those)

abbrev pub AreNodes : List (Token × Info) → List ℕ → List ℕ → Type 0
AreNodes kids ones zeros = HasNode kids true ones × HasNode kids false zeros

pub two-AreNodes :
    (k : ℕ) (ones zeros those_ones those_zeros : List ℕ)
    → those_ones ≡ ones
    → those_zeros ≡ zeros
    → AreNodes (zeros_node k zeros ∷ ones_node k ones ∷ []) those_ones those_zeros
unfolding lookup
two-AreNodes k ones zeros those_ones those_zeros e f =
    (λ i m. ((ones_node k ones).1, refl, sym e), λ i m. ((zeros_node k zeros).1, refl, sym f))

pub two-IsFresh :
    (k : ℕ) (ones zeros : List ℕ) (t : Token) (child : Info)
    → Elem (t, child) (zeros_node k zeros ∷ ones_node k ones ∷ [])
    → IsFresh child
two-IsFresh k ones zeros t child m = elim m [
  | inl q ↦ subst IsFresh (sym (ap (λ q. q.1) q)) (new_node-IsFresh (bit false) k none zeros)
  | inr (inl q) ↦ subst IsFresh (sym (ap (λ q. q.1) q)) (new_node-IsFresh (bit true) k none ones)
  | inr (inr q) ↦ elim q [ ]
]

pub one-IsFresh :
    (k : ℕ) (t u : Token) (ids : List ℕ) (child : Info)
    → Elem (t, child) (new_node u k none ids ∷ [])
    → IsFresh child
one-IsFresh k t u ids child m = elim m [
  | inl q ↦ subst IsFresh (sym (ap (λ q. q.1) q)) (new_node-IsFresh u k none ids)
  | inr q ↦ elim q [ ]
]

-- Splitting at the bit of a position `q`, if the children go on at `m`.
pub bits-Reaches :
    (s : Store) (q m : ℕ) (ids : List ℕ) (p p' : ℕ) (kids : List (Token × Info)) (i : ℕ) (x : Input)
    → AreNodes kids (those_at s q (has_value true) ids) (those_at s q (has_value false) ids)
    → ((v : Bool) → Aligned m s (those_at s q (has_value v) ids) p')
    → real_bits q (s i) ≡ p
    → Satisfies x 0 (s i)
    → Elem i (those_at s q (has_value true) ids) ⊎ Elem i (those_at s q (has_value false) ids)
    → Reaches s kids m i (bit (x.bit_at p), p')
bits-Reaches s q m ids p p' kids i x nodes aligned at sat (inl h) =
    let (child, e, same) = nodes.0 i h in
    let v = bit_at-eq s q p i x true at sat (bits_at s q ids true i h).1 in
    (
      child,
      ap (λ b. lookup (bit b) kids) v ∙ e,
      subst (Elem i) (sym same) h,
      subst (λ l. Aligned m s l p') (sym same) (aligned true),
    )
bits-Reaches s q m ids p p' kids i x nodes aligned at sat (inr h) =
    let (child, e, same) = nodes.1 i h in
    let v = bit_at-eq s q p i x false at sat (bits_at s q ids false i h).1 in
    (
      child,
      ap (λ b. lookup (bit b) kids) v ∙ e,
      subst (Elem i) (sym same) h,
      subst (λ l. Aligned m s l p') (sym same) (aligned false),
    )
