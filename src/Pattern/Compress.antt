-- ===== src/Pattern/Compress.antt =====
-- What a replacement keeps: the patterns accept the same operand values.
use mathlib.Core.Path.{subst}
use xed.Base.{
  ℕ, ◌≡◌, ◌≢◌, ◌↔◌, ◌⊎◌, refl, sym, ◌∙◌, inl, inr, String, some, List, [], ◌∷◌, map, ok, >>=-eq-ok,
  arith, Elem, IsUnique, All, Elem-append_left, Elem-append_right, Elem-append_cases, Bool-cases,
  contains, contains-Elem, nat_eq, string_eq,
}
use xed.Base.Dict.{lookup, insert, lookup-insert, lookup-insert_self}
use xed.Pattern.{Pattern, remove, add, constrain, replace}
use xed.Pattern.Replace.{Named}

-- The operand values `v` are legal for the pattern, as far as these names go.
abbrev pub Accepts : (String → ℕ) → List String → Pattern → Type 0
Accepts v cnames p =
    (n : String) (vals : List ℕ)
    → Elem n cnames
    → lookup n p.constraints ≡ some vals
    → Elem (v n) vals

abbrev pub AcceptSame :
    (String → ℕ) → List String → List Pattern → List String → List Pattern → Type 0
AcceptSame v cnames [] cnames' [] = Unit
AcceptSame v cnames [] cnames' (q ∷ qs) = ⊥
AcceptSame v cnames (p ∷ ps) cnames' [] = ⊥
AcceptSame v cnames (p ∷ ps) cnames' (q ∷ qs) =
    (Accepts v cnames p ↔ Accepts v cnames' q) × AcceptSame v cnames ps cnames' qs

pub remove-Elem :
    (name : String) (xs ys : List String)
    → IsUnique xs
    → remove name xs ≡ ok ys
    → Elem name xs × ((n : String) → Elem n ys ↔ (Elem n xs × (n ≢ name)))
unfolding remove
remove-Elem name [] ys u e = absurd cc
remove-Elem name (x ∷ xs) ys u e = elim (Bool-cases (string_eq.beq x name)) [
  | inl p ↦
      let at : x ≡ name = (string_eq.beq_iff x name).0 p in
      let same : xs ≡ ys = ground arith in
      (
        inl (sym at),
        λ n.
            subst (λ l. Elem n l ↔ (Elem n (x ∷ xs) × (n ≢ name))) same
              (
                λ m. (inr m, λ q. u.0 (subst (λ k. Elem k xs) (q ∙ sym at) m)),
                λ m. elim m.0 [ inl q ↦ absurd (m.1 (q ∙ at)) | inr q ↦ q ],
              ),
      )
  | inr p ↦
      let other : x ≢ name = λ q. cc (p, (string_eq.beq_iff x name).1 q) in
      let (zs, h, z) = >>=-eq-ok (remove name xs) (λ ys. ok (x ∷ ys)) {b = ys} (ground arith) in
      let (m, iff) = remove-Elem name xs zs u.1 h in
      let same : x ∷ zs ≡ ys = ground arith in
      (
        inr m,
        λ n.
            subst (λ l. Elem n l ↔ (Elem n (x ∷ xs) × (n ≢ name))) same
              (
                λ k. elim k [
                  | inl q ↦ (inl q, λ r. other (sym q ∙ r))
                  | inr q ↦ (inr ((iff n).0 q).0, ((iff n).0 q).1)
                ],
                λ k. elim k.0 [ inl q ↦ inl q | inr q ↦ inr ((iff n).1 (q, k.1)) ],
              ),
      )
]

pub add-Elem :
    (name n : String) (xs : List String) → Elem n (add name xs) ↔ (Elem n xs ⊎ (n ≡ name))
unfolding add
add-Elem name n xs = elim (Bool-cases (contains name xs)) [
  | inl p ↦ rw p (
    λ m. inl m,
    λ m. elim m [ inl q ↦ q | inr q ↦ subst (λ k. Elem k xs) (sym q) (contains-Elem name xs p) ],
  )
  | inr p ↦ rw p (
    λ m. elim (Elem-append_cases n xs (name ∷ []) m) [
      | inl q ↦ inl q
      | inr (inl q) ↦ inr q
      | inr (inr q) ↦ absurd q
    ],
    λ m. elim m [
      | inl q ↦ Elem-append_left n xs (name ∷ []) q
      | inr q ↦ Elem-append_right n xs (name ∷ []) (inl q)
    ],
  )
]

module _ (v : String → ℕ) (old new : String) (vals_of : Pattern → List ℕ) where
  -- The constraint on the old operand says what the new one says.
  abbrev pub Means : Pattern → Type 0
  Means p =
      ((vals : List ℕ) → lookup old p.constraints ≡ some vals → Elem (v old) vals)
      ↔ Elem (v new) (vals_of p)

  module _ (cnames cnames' : List String) (fresh : ¬ (Elem new cnames)) (had : Elem old cnames)
      (now : (n : String) → Elem n cnames' ↔ ((Elem n cnames × (n ≢ old)) ⊎ (n ≡ new))) where
    Accepts-constrain :
        (p : Pattern)
        → Means p
        → Accepts v cnames p ↔ Accepts v cnames' (constrain new (vals_of p) p)
    Accepts-constrain p means = (to, from)
      where
        kept :
            (n : String)
            → n ≢ new
            → lookup n (insert new (vals_of p) p.constraints) ≡ lookup n p.constraints
        kept n d =
            lookup-insert new n (vals_of p) p.constraints
            ∙ ground (arith, string_eq.beq_iff new n, (λ (q : new ≡ n). d (sym q)))

        to : Accepts v cnames p → Accepts v cnames' (constrain new (vals_of p) p)
        to a n vals m e = elim ((now n).0 m) [
          | inl (q, d) ↦ a n vals q (sym (kept n (λ z. fresh (subst (λ k. Elem k cnames) z q))) ∙ e)
          | inr q ↦
              let stored =
                subst (λ k. lookup k (insert new (vals_of p) p.constraints) ≡ some (vals_of p))
                  (sym q) (lookup-insert_self new (vals_of p) p.constraints) in
              let same : vals_of p ≡ vals = ground (arith, stored, e) in
              subst (Elem (v n)) same
                (subst (λ k. Elem (v k) (vals_of p)) (sym q) (means.0 (λ w k. a old w had k)))
        ]

        from : Accepts v cnames' (constrain new (vals_of p) p) → Accepts v cnames p
        from a n vals m e = elim (Bool-cases (string_eq.beq n old)) [
          | inl q ↦
              let at : n ≡ old = (string_eq.beq_iff n old).0 q in
              let holds = means.1 (
                a new (vals_of p) ((now new).1 (inr refl))
                  (lookup-insert_self new (vals_of p) p.constraints)) in
              subst (λ k. Elem (v k) vals) (sym at)
                (holds vals (subst (λ k. lookup k p.constraints ≡ some vals) at e))
          | inr q ↦
              let d : n ≢ old = λ z. cc (q, (string_eq.beq_iff n old).1 z) in
              a n vals ((now n).1 (inl (m, d)))
                (kept n (λ z. fresh (subst (λ k. Elem k cnames) z m)) ∙ e)
        ]

    AcceptSame-map :
        (ptrns : List Pattern)
        → All Means ptrns
        → AcceptSame v cnames ptrns cnames' (map (λ p. constrain new (vals_of p) p) ptrns)
    AcceptSame-map [] a = tt
    AcceptSame-map (p ∷ ps) a = (Accepts-constrain p a.0, AcceptSame-map ps a.1)

  -- A replacement by an operand that means the same keeps what the patterns accept.
  pub replace-AcceptSame :
      (cnames : List String) (ptrns : List Pattern) (named : Named)
      → IsUnique cnames
      → ¬ (Elem new cnames)
      → All Means ptrns
      → replace old new (λ p. constrain new (vals_of p) p) cnames ptrns ≡ ok named
      → AcceptSame v cnames ptrns named.0 named.1
  unfolding replace
  replace-AcceptSame cnames ptrns named u fresh means e =
      let (rest, removed, z) = >>=-eq-ok (remove old cnames) _ e in
      let (had, iff) = remove-Elem old cnames rest u removed in
      let same : (add new rest, map (λ p. constrain new (vals_of p) p) ptrns) ≡ named =
        ground arith in
      subst (λ n. AcceptSame v cnames ptrns n.0 n.1) same
        (AcceptSame-map cnames (add new rest) fresh had
          (λ n.
            let added = add-Elem new n rest in
            (
              λ m. elim (added.0 m) [ inl q ↦ inl ((iff n).0 q) | inr q ↦ inr q ],
              λ m. elim m [ inl q ↦ added.1 (inl ((iff n).1 q)) | inr q ↦ added.1 (inr q) ],
            ))
          ptrns means)
