-- ===== src/Graph/Kept.antt =====
-- Moving a decider forward keeps a pattern's length, its real positions up to there, and the inputs
-- that meet it; so does the whole rearrangement.
use mathlib.Core.Path.{subst}
use xed.Base.{
  ℕ, zero, suc, ◌+◌, ◌≤◌, ◌≡◌, ◌↔◌, refl, sym, ap, ◌∙◌, inl, inr, String, Bool, true, false, Option,
  none, some, List, [], ◌∷◌, ◌++◌, arith, length, take, drop, if◌then◌else◌, eqb, eqb_iff,
  Bool-cases, Option-cases, get_elem?, string_eq,
}
use xed.Graph.{
  Decider, BitInfo, one_or_zero, dont_care, operand, nonterminal, Store, update, decider_of,
  real_bits,
}
use xed.Graph.Rearrange.{
  decides, pull, move_candidate_od_to_front, is_repleaceable, try_candidate, try_candidates,
  rearrange_at_conflict, candidate_ods,
}
use xed.Graph.Read.{Input, Satisfies, Decided, behind}
use xed.Graph.Slots.{width, IsSameTo, Kept, Kept-self, Kept-trans}

-- The rests are as long, and are met by the same inputs.
abbrev AreSame : List BitInfo → List BitInfo → Type 0
AreSame ys zs =
    (length ys ≡ length zs) × ((x : Input) (pos : ℕ) → Satisfies x pos ys ↔ Satisfies x pos zs)

tail-IsSameTo :
    (n : ℕ) (bits zs : List BitInfo)
    → AreSame (drop n bits) zs
    → IsSameTo n bits (take n bits ++ zs)
unfolding real_bits
tail-IsSameTo zero bits zs h = (h.0, λ m le. let e : m ≡ 0 = omega arith in rw e refl, h.1)
tail-IsSameTo (suc n) [] [] h = (refl, λ m le. refl, λ x pos. (λ s. s, λ s. s))
tail-IsSameTo (suc n) [] (z ∷ zs) h = absurd (omega (arith, h.0))
tail-IsSameTo (suc n) (b ∷ bits) zs h =
    let (l, r, m) = tail-IsSameTo n bits zs h in
    (
      omega arith,
      λ k le. real k le r,
      λ x pos. let (to, from) = m x (behind b pos) in (λ s. (s.0, to s.1), λ s. (s.0, from s.1)),
    )
  where
    real :
        (k : ℕ)
        → k ≤ suc n
        → ((j : ℕ) → j ≤ n → real_bits j bits ≡ real_bits j (take n bits ++ zs))
        → real_bits k (b ∷ bits) ≡ real_bits k (b ∷ (take n bits ++ zs))
    real zero le r = refl
    real (suc k) le r = ap (λ c. width b + c) (r k (omega arith))

-- a decider that is read
abbrev Decides : Input → Decider → Type 0
Decides x od = Decided od.is_eq (x.operand_value od.token) od.requirement

-- the bit at the head, if it is the one that is looked for
abbrev here : String → BitInfo → List BitInfo → Option (BitInfo × List BitInfo)
here t b bits = if decides t (decider_of (some b)) then some (b, bits) else none

pull-Decides :
    (t : String) (bits : List BitInfo) {z : BitInfo} {rest : List BitInfo}
    → pull t bits ≡ some (z, rest)
    → (od : Decider) × (z ≡ operand od)
      × (length bits ≡ suc (length rest))
      × ((x : Input) (pos : ℕ) → Satisfies x pos bits ↔ (Decides x od × Satisfies x pos rest))
unfolding pull
pull-Decides t [] h = cc
pull-Decides t (b ∷ bits) {z} {rest} h = elim (Option-cases (pull t bits)) [
  | inr ((z', r), e) ↦
      let (od, q, l, m) = pull-Decides t bits e in
      let h' : some (z', b ∷ r) ≡ some (z, rest) = (rw e at h) in
      let same : (z' ≡ z) × (b ∷ r ≡ rest) = ground arith in
      (
        od,
        sym same.0 ∙ q,
        ground (arith, ap length same.1),
        λ x pos. rw (← same.1) (
          λ s. let p = (m x (behind b pos)).0 s.1 in (p.0, (s.0, p.1)),
          λ s. (s.1.0, (m x (behind b pos)).1 (s.0, s.1.1)),
        ),
      )
  | inl e ↦ head b (rw e at h)
]
  where
    head :
        (b : BitInfo)
        → here t b bits ≡ some (z, rest)
        → (od : Decider) × (z ≡ operand od)
          × (suc (length bits) ≡ suc (length rest))
          × ((x : Input) (pos : ℕ)
              → Satisfies x pos (b ∷ bits) ↔ (Decides x od × Satisfies x pos rest))
    head (operand od) h =
        let same : (operand od ≡ z) × (bits ≡ rest) = ground arith in
        (
          od,
          sym same.0,
          ap (λ (l : List BitInfo). suc (length l)) same.1,
          λ x pos. rw (← same.1) (λ s. s, λ s. s),
        )
    head (one_or_zero c) h = cc
    head (dont_care c) h = cc
    head (nonterminal c) h = cc

move-IsSameTo :
    (n : ℕ) (t : String) (bits : List BitInfo) {moved : List BitInfo}
    → move_candidate_od_to_front n t bits ≡ some moved
    → IsSameTo n bits moved
unfolding move_candidate_od_to_front
move-IsSameTo n t bits {moved} h = later (drop n bits) refl h
  where
    later :
        (l : List BitInfo)
        → drop n bits ≡ l
        → elim l as (λ _. Option (List BitInfo)) [
          | [] ↦ none
          | x ∷ later ↦ elim (pull t later) [
            | none ↦ none
            | some (z, rest) ↦ some (take n bits ++ z ∷ x ∷ rest)
          ]
        ]
          ≡ some moved
        → IsSameTo n bits moved
    later [] e h = cc
    later (x ∷ l) e h = elim (Option-cases (pull t l)) [
      | inl p ↦ absurd (cc (rw p at h))
      | inr ((z, rest), p) ↦
          let (od, q, len, m) = pull-Decides t l p in
          let h' : some (take n bits ++ z ∷ x ∷ rest) ≡ some moved = (rw p at h) in
          let same : take n bits ++ z ∷ x ∷ rest ≡ moved = ground arith in
          rw (← same) (
            tail-IsSameTo n bits (z ∷ x ∷ rest) (
              rw (e, q)
                (
                  omega arith,
                  λ y pos. (
                    λ s. let g = (m y (behind x pos)).0 s.1 in (g.0, (s.0, g.1)),
                    λ s. (s.1.0, (m y (behind x pos)).1 (s.0, s.1.1)),
                  ),
                )))
    ]

update-Kept :
    (n i : ℕ) (bits : List BitInfo) (s : Store) → IsSameTo n (s i) bits → Kept n s (update i bits s)
update-Kept n i bits s h j =
    pick (eqb j i)
      (λ e. let at : i ≡ j = sym ((eqb_iff j i).0 e) in subst (λ k. IsSameTo n (s k) bits) at h)
  where
    pick :
        (b : Bool) → (b ≡ true → IsSameTo n (s j) bits) → IsSameTo n (s j) (if b then bits else s j)
    pick true h = h refl
    pick false h = Kept-self n s j

module _ (n : ℕ) where
  try_candidate-Kept :
      (c : String) (ilist : List ℕ) (s : Store) → Kept n s (try_candidate n c ilist s).1
  unfolding try_candidate
  try_candidate-Kept c [] s = Kept-self n s
  try_candidate-Kept c (i ∷ ilist) s =
      elim (Bool-cases (decides c (decider_of (get_elem? (s i) n)))) [
        | inl fine ↦ rw fine (try_candidate-Kept c ilist s)
        | inr e ↦ elim (Bool-cases (is_repleaceable n (s i))) [
          | inr p ↦ rw (e, p) (try_candidate-Kept c ilist s)
          | inl p ↦ elim (Option-cases (move_candidate_od_to_front n c (s i))) [
            | inl q ↦ rw (e, p, q) (Kept-self n s)
            | inr (bits, q) ↦
                rw (e, p, q)
                  (Kept-trans n s (update i bits s) _
                    (update-Kept n i bits s (move-IsSameTo n c (s i) q))
                    (try_candidate-Kept c ilist (update i bits s)))
          ]
        ]
      ]

  try_candidates-Kept :
      (cs : List String) (ilist : List ℕ) (s : Store) → Kept n s (try_candidates n cs ilist s).1
  unfolding try_candidates
  try_candidates-Kept [] ilist s = Kept-self n s
  try_candidates-Kept (c ∷ cs) ilist s =
      let first = try_candidate-Kept c ilist s in
      elim (Bool-cases (try_candidate n c ilist s).0) [
        | inr e ↦ rw e first
        | inl e ↦
            rw e (
              Kept-trans n s _ _ first (try_candidates-Kept cs ilist (try_candidate n c ilist s).1))
      ]

  -- Also where the rearrangement fails, after some moves.
  pub rearrange_at_conflict-Kept :
      (ilist : List ℕ) (s : Store) → Kept n s (rearrange_at_conflict n ilist s).1
  unfolding rearrange_at_conflict
  rearrange_at_conflict-Kept ilist s = go (candidate_ods n s ilist []) refl
    where
      go :
          (l : List String)
          → candidate_ods n s ilist [] ≡ l
          → Kept n s (rearrange_at_conflict n ilist s).1
      go [] e = rw (e, rearrange_at_conflict) (Kept-self n s)
      go (c ∷ cs) e = elim (Bool-cases (try_candidates n (c ∷ cs) ilist s).0) [
        | inl r ↦ rw (e, rearrange_at_conflict, r) (try_candidates-Kept (c ∷ cs) ilist s)
        | inr r ↦ rw (e, rearrange_at_conflict, r) (try_candidates-Kept (c ∷ cs) ilist s)
      ]
