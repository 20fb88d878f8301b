-- ===== src/Pattern/Operands.antt =====
-- The replacements of RM and of MASK by one bit.
use mathlib.Core.Path.{subst}
use xed.Base.{
  ℕ, ◌<◌, ◌≡◌, ◌≢◌, ◌↔◌, refl, sym, ◌∙◌, inl, inr, String, Bool, true, none, some, List, [], ◌∷◌,
  ok, arith, Elem, IsUnique, All, Bool-cases, Option-cases, if◌then◌else◌, contains, contains-Elem,
  length, nat_eq, string_eq, eqb, eqb_iff, &&-eq_true,
}
use xed.Base.Dict.{lookup}
use xed.Base.Pigeonhole.{pigeonhole}
use xed.Pattern.{Pattern, all_of, same_keys}
use xed.Pattern.Compress.{AcceptSame, Means, replace-AcceptSame}
use xed.Pattern.Replace.{
  Named, is_rm_4, is_binary_rm_4, compress_rm, is_mask_zero, has_mask_zero_restriction,
  is_zero_mask, compress_mask,
}

all_of-cons :
    {A : Type 0} (test : A → Bool) (x : A) (xs : List A)
    → all_of test (x ∷ xs) ≡ true
    → (test x ≡ true) × (all_of test xs ≡ true)
unfolding all_of
all_of-cons test x xs e = ground arith

pub all_of-All :
    {A : Type 0} (test : A → Bool) (P : A → Type 0)
    → ((a : A) → test a ≡ true → P a)
    → (xs : List A) → all_of test xs ≡ true
    → All P xs
unfolding all_of
all_of-All test P h [] e = tt
all_of-All test P h (x ∷ xs) e = elim (Bool-cases (test x)) [
  | inl p ↦ (h x p, all_of-All test P h xs (ground arith))
  | inr p ↦ absurd (ground arith)
]

AcceptSame-refl :
    (v : String → ℕ) (cnames : List String) (ptrns : List Pattern)
    → AcceptSame v cnames ptrns cnames ptrns
AcceptSame-refl v cnames [] = tt
AcceptSame-refl v cnames (p ∷ ps) = ((λ a. a, λ a. a), AcceptSame-refl v cnames ps)

single-Elem : (vals : List ℕ) (m n : ℕ) → length vals ≡ 1 → Elem n vals → Elem m vals ↔ (m ≡ n)
single-Elem [] m n e h = absurd (omega arith)
single-Elem (x ∷ []) m n e (inl h) =
    (λ k. elim k [ inl p ↦ p ∙ sym h | inr q ↦ elim q [ ] ], λ p. inl (p ∙ h))
single-Elem (x ∷ []) m n e (inr h) = elim h [ ]
single-Elem (x ∷ y ∷ ys) m n e h = absurd (omega arith)

-- the getters of the new operands
abbrev pub is_value : ℕ → ℕ → ℕ
is_value n m = if eqb m n then 1 else 0

rm4-Means :
    (v : String → ℕ)
    → v "RM4" ≡ is_value 4 (v "RM")
    → (p : Pattern) → is_rm_4 (lookup "RM" p.constraints) ≡ true
    → Means v "RM" "RM4" (λ p. 1 ∷ []) p
rm4-Means v getter p e = elim (Option-cases (lookup "RM" p.constraints)) [
  | inl n ↦ absurd (ground arith)
  | inr (vals, q) ↦
      let (len, four) = &&-eq_true (eqb (length vals) 1) (contains 4 vals) (rw q at e) in
      let iff =
        single-Elem vals (v "RM") 4 ((eqb_iff (length vals) 1).0 len) (contains-Elem 4 vals four) in
      (
        λ h. let at = iff.0 (h vals q) in inl (ground arith),
        λ h ws k. elim h [
          | inl one ↦
              let same : vals ≡ ws = ground arith in
              let at : v "RM" ≡ 4 = ground arith in subst (Elem (v "RM")) same (iff.1 at)
          | inr n ↦ elim n [ ]
        ],
      )
]

-- For distinct constraint names without RM4, and operand values with RM4 telling whether RM is 4:
-- the step that may replace RM by RM4 keeps, for each pattern, whether the operand values are
-- legal for it.
pub compress_rm-AcceptSame :
    (v : String → ℕ) (cnames : List String) (ptrns : List Pattern) (named : Named)
    → v "RM4" ≡ is_value 4 (v "RM")
    → IsUnique cnames
    → ¬ (Elem "RM4" cnames)
    → compress_rm (cnames, ptrns) ≡ ok named
    → AcceptSame v cnames ptrns named.0 named.1
unfolding compress_rm
compress_rm-AcceptSame v cnames ptrns named getter u fresh e =
    elim (Bool-cases (is_binary_rm_4 cnames ptrns)) [
      | inl p ↦
          let (some_rm, all) =
            &&-eq_true (contains "RM" cnames)
              (all_of (λ p. is_rm_4 (lookup "RM" p.constraints)) ptrns)
              (unfold is_binary_rm_4 in p) in
          replace-AcceptSame v "RM" "RM4" (λ p. 1 ∷ []) cnames ptrns named u fresh
            (all_of-All _ (Means v "RM" "RM4" (λ p. 1 ∷ [])) (rm4-Means v getter) ptrns all)
            (rw p at e)
      | inr p ↦
          let same : (cnames, ptrns) ≡ named = ground arith in
          subst (λ n. AcceptSame v cnames ptrns n.0 n.1) same (AcceptSame-refl v cnames ptrns)
    ]

-- The constraints on MASK are lists of different values below eight, and so is its value.
abbrev pub HasMasks : Pattern → Type 0
HasMasks p =
    (vals : List ℕ)
    → lookup "MASK" p.constraints ≡ some vals
    → IsUnique vals × ((m : ℕ) → Elem m vals → m < 8)

abbrev zero_values : Pattern → List ℕ
zero_values p = if is_zero_mask (lookup "MASK" p.constraints) then 1 ∷ [] else 0 ∷ 1 ∷ []

same_keys-zero : (vals : List ℕ) → same_keys vals (0 ∷ []) ≡ true → (length vals ≡ 1) × Elem 0 vals
unfolding all_of
same_keys-zero [] e = absurd (ground arith)
same_keys-zero (x ∷ []) e = (refl, inl (ground arith))
same_keys-zero (x ∷ y ∷ ys) e = absurd (ground arith)

mask_zero-Means :
    (v : String → ℕ)
    → v "MASK" < 8
    → v "MASK_ZERO" ≡ is_value 0 (v "MASK")
    → (p : Pattern) → HasMasks p
    → is_mask_zero p.bits (lookup "MASK" p.constraints) ≡ true
    → Means v "MASK" "MASK_ZERO" zero_values p
mask_zero-Means v lt getter p masks e = elim (Option-cases (lookup "MASK" p.constraints)) [
  | inl n ↦ rw n (λ h. any_bit, λ h vals k. absurd (none_some vals k))
  | inr (vals, q) ↦ elim (Bool-cases (same_keys vals (0 ∷ []))) [
    | inl z ↦
        let iff =
          single-Elem vals (v "MASK") 0 (same_keys-zero vals z).0 (same_keys-zero vals z).1 in
        let values : zero_values p ≡ 1 ∷ [] = rw (q, z) refl in
        rw values (
          λ h. let at = iff.0 (h vals q) in inl (ground arith),
          λ h ws k. elim h [
            | inl one ↦
                let same : vals ≡ ws = ground arith in
                let at : v "MASK" ≡ 0 = ground arith in subst (Elem (v "MASK")) same (iff.1 at)
            | inr n ↦ elim n [ ]
          ],
        )
    | inr z ↦
        let (u, below) = masks vals q in
        let len : length vals ≡ 8 = ground arith in
        let full = pigeonhole 8 vals u below len (v "MASK") lt in
        let values : zero_values p ≡ 0 ∷ 1 ∷ [] = rw (q, z) refl in
        rw values (
          λ h. any_bit,
          λ h ws k. let same : vals ≡ ws = ground arith in subst (Elem (v "MASK")) same full,
        )
  ]
]
  where
    none_some : (vals : List ℕ) → none ≢ some vals
    none_some vals e = cc

    any_bit : Elem (v "MASK_ZERO") (0 ∷ 1 ∷ [])
    any_bit = elim (Bool-cases (eqb (v "MASK") 0)) [
      | inl p ↦ inr (inl (ground arith))
      | inr p ↦ inl (ground arith)
    ]

-- For distinct constraint names without MASK_ZERO, constraints on MASK that are lists of
-- different values below 8, and operand values with MASK below 8 and MASK_ZERO telling whether
-- MASK is 0: the step that may replace MASK by MASK_ZERO keeps, for each pattern, whether the
-- operand values are legal for it.
pub compress_mask-AcceptSame :
    (v : String → ℕ) (cnames : List String) (ptrns : List Pattern) (named : Named)
    → v "MASK" < 8
    → v "MASK_ZERO" ≡ is_value 0 (v "MASK")
    → All HasMasks ptrns
    → IsUnique cnames
    → ¬ (Elem "MASK_ZERO" cnames)
    → compress_mask (cnames, ptrns) ≡ ok named
    → AcceptSame v cnames ptrns named.0 named.1
unfolding compress_mask
compress_mask-AcceptSame v cnames ptrns named lt getter masks u fresh e =
    elim (Bool-cases (has_mask_zero_restriction cnames ptrns)) [
      | inl p ↦
          let (some_mask, all) =
            &&-eq_true (contains "MASK" cnames)
              (all_of (λ p. is_mask_zero p.bits (lookup "MASK" p.constraints)) ptrns)
              (unfold has_mask_zero_restriction in p) in
          replace-AcceptSame v "MASK" "MASK_ZERO" zero_values cnames ptrns named u fresh
            (means ptrns masks all) (rw p at e)
      | inr p ↦
          let same : (cnames, ptrns) ≡ named = ground arith in
          subst (λ n. AcceptSame v cnames ptrns n.0 n.1) same (AcceptSame-refl v cnames ptrns)
    ]
  where
    means :
        (ps : List Pattern)
        → All HasMasks ps
        → all_of (λ p. is_mask_zero p.bits (lookup "MASK" p.constraints)) ps ≡ true
        → All (Means v "MASK" "MASK_ZERO" zero_values) ps
    means [] a h = tt
    means (p ∷ ps) a h =
        let (first, rest) =
          all_of-cons (λ p. is_mask_zero p.bits (lookup "MASK" p.constraints)) p ps h in
        (mask_zero-Means v lt getter p a.0 first, means ps a.1 rest)
