-- ===== src/Graph/Moves.antt =====
-- Each step of the building keeps the patterns up to its position, and makes a right move.
use mathlib.Core.Path.{subst}
use xed.Base.{
  ℕ, zero, suc, ◌-◌, ◌%◌, ◌≤◌, ◌<◌, ◌≡◌, refl, ap, inl, inr, true, false, none, some, List, [], ◌∷◌,
  arith, Elem, length, ltb, lt→ltb, Bool-cases, Option-cases, Result, ok, err, ◌>>=◌, >>=-eq-ok,
}
use xed.Graph.{
  Store, Token, bit, after, token_eq, Info, Decider, all_same_operand_decider, all_same_nonterminal,
  some_funky_spot, no_dont_cares, some_different, ◌&&◌, Progress, all_done, not_done, some_done,
  at_end_of_instructions, scan_backwards_for_distinguishing_bit, partition_nodes,
}
use xed.Graph.Rearrange.{rearrange_at_conflict}
use xed.Graph.Partition.{Spaces, partition_by_required_values}
use xed.Graph.Build.{
  Move, back_split_or_die, back_split_graph, back_parts, split_loop, split_operand,
  split_nonterminal, split_bits, step, step_at,
}
use xed.Graph.Slots.{Aligned, Kept, Kept-self, Kept-trans}
use xed.Graph.Kept.{rearrange_at_conflict-Kept}
use xed.Graph.Steps.{not_done-lt}
use xed.Graph.Kids.{one-IsFresh, two-IsFresh, IsFresh}
use xed.Graph.Splits.{IsMove, nonterminal-IsMove, split_bits-IsMove, back_split_graph-IsMove}
use xed.Graph.Choices.{nodes_of-IsFresh, split_operand-IsMove}

scan-lt :
    (s : Store) (ids : List ℕ) (n q : ℕ)
    → scan_backwards_for_distinguishing_bit s ids n ≡ some q
    → q < n
unfolding scan_backwards_for_distinguishing_bit
scan-lt s ids zero q h = cc
scan-lt s ids (suc b) q h = elim (Bool-cases (no_dont_cares s b ids && some_different s b ids)) [
  | inl e ↦
      let at : b ≡ q = some_inj (rw (scan_backwards_for_distinguishing_bit, e) at h) in omega arith
  | inr e ↦ omega (arith, scan-lt s ids b q (rw (scan_backwards_for_distinguishing_bit, e) at h))
]
  where
    some_inj : {x y : ℕ} → some x ≡ some y → x ≡ y
    some_inj h = ground arith

-- The children are fresh, and go on at the position or behind it.
abbrev pub GoesOn : ℕ → Move → Type 0
GoesOn n Move.finish = Unit
GoesOn n Move.skip = Unit
GoesOn n (Move.split info kids n') =
    (n ≤ n') × ((t : Token) (child : Info) → Elem (t, child) kids → IsFresh child)

ok-GoesOn : (n : ℕ) (x mv : Move) → ok x ≡ ok mv → GoesOn n x → GoesOn n mv
ok-GoesOn n x mv h g = let same : x ≡ mv = ground arith in subst (GoesOn n) same g

split_bits-GoesOn :
    (n : ℕ) (info : Info) (ones zeros others : List ℕ)
    → GoesOn n (split_bits n info (ones, zeros, others))
split_bits-GoesOn n info ones zeros (o ∷ others) = tt
split_bits-GoesOn n info (o ∷ ones) [] [] =
    (omega arith, λ t. one-IsFresh (n % 8) t (bit true) (o ∷ ones))
split_bits-GoesOn n info [] (z ∷ zeros) [] =
    (omega arith, λ t. one-IsFresh (n % 8) t (bit false) (z ∷ zeros))
split_bits-GoesOn n info [] [] [] = (omega arith, two-IsFresh (n % 8) [] [])
split_bits-GoesOn n info (o ∷ ones) (z ∷ zeros) [] =
    (omega arith, two-IsFresh (n % 8) (o ∷ ones) (z ∷ zeros))

split_operand-GoesOn :
    (sp : Spaces) (s : Store) (n : ℕ) (info : Info) (od : Decider) (mv : Move)
    → split_operand sp s n info od ≡ ok mv
    → GoesOn n mv
unfolding split_operand
split_operand-GoesOn sp s n info od mv h =
    let ((d, values), e, r) =
      >>=-eq-ok (partition_by_required_values sp s n od.token info.instructions) _ h in
    ok-GoesOn n _ mv r (omega arith, nodes_of-IsFresh (n % 8) _)

back_split_or_die-GoesOn :
    (s : Store) (n : ℕ) (info : Info) (mv : Move) → back_split_or_die s n info ≡ ok mv → GoesOn n mv
unfolding back_split_or_die back_split_graph
back_split_or_die-GoesOn s n info mv h =
    elim (Option-cases (scan_backwards_for_distinguishing_bit s info.instructions n)) [
      | inl e ↦ absurd (cc (rw (back_split_or_die, e) at h))
      | inr (q, e) ↦ parts q _ _ _ (rw (back_split_or_die, e) at h)
    ]
  where
    parts :
        (q : ℕ) (ones zeros others : List ℕ)
        → back_parts s n info q (ones, zeros, others) ≡ ok mv
        → GoesOn n mv
    parts q ones zeros (o ∷ others) h = cc
    parts q ones [] [] h = cc
    parts q [] (z ∷ zeros) [] h = cc
    parts q (o ∷ ones) (z ∷ zeros) [] h =
        ok-GoesOn n _ mv h (omega arith, two-IsFresh ((n - 1) % 8) (o ∷ ones) (z ∷ zeros))

module _ (sp : Spaces) (n : ℕ) (info : Info) (p : ℕ) (fresh : IsFresh info) where
  back_split_or_die-IsMove :
      (s : Store) (aligned : Aligned n s info.instructions p) (mv : Move)
      → back_split_or_die s n info ≡ ok mv
      → IsMove sp s n info p aligned mv
  unfolding back_split_or_die
  back_split_or_die-IsMove s aligned mv h =
      elim (Option-cases (scan_backwards_for_distinguishing_bit s info.instructions n)) [
        | inl e ↦ absurd (cc (rw (back_split_or_die, e) at h))
        | inr (q, e) ↦
            back_split_graph-IsMove sp s n info p aligned q mv fresh
              (scan-lt s info.instructions n q e) (rw (back_split_or_die, e) at h)
      ]

  -- The patterns are kept up to the position, and the move is right on the patterns that result.
  abbrev pub IsStep : Store → Store → Move → Type 0
  IsStep s t mv =
      Kept n s t
      × GoesOn n mv
      × ((aligned : Aligned n t info.instructions p) → IsMove sp t n info p aligned mv)

  -- a move that leaves the patterns as they are
  stay :
      (s t : Store) (mv' mv : Move)
      → ◌≡◌ {A = Result (Store × Move)} (ok (s, mv')) (ok (t, mv))
      → GoesOn n mv'
      → ((aligned : Aligned n s info.instructions p) → IsMove sp s n info p aligned mv')
      → IsStep s t mv
  stay s t mv' mv h g m =
      let move : mv' ≡ mv = ap snd_of h in
      let store : s ≡ t = ap fst_of h in
      subst (λ u. IsStep s u mv) store
        (
          Kept-self n s,
          subst (GoesOn n) move g,
          λ aligned. subst (IsMove sp s n info p aligned) move (m aligned),
        )
    where
      snd_of : Result (Store × Move) → Move
      snd_of (ok (a, b)) = b
      snd_of (err e) = mv

      fst_of : Result (Store × Move) → Store
      fst_of (ok (a, b)) = a
      fst_of (err e) = s

  after_moves : (s t u : Store) (mv : Move) → Kept n s t → IsStep t u mv → IsStep s u mv
  after_moves s t u mv k (k', g, m) = (Kept-trans n s t u k k', g, m)

  split_loop-IsStep :
      (rounds : ℕ) (s t : Store) (mv : Move)
      → ((i : ℕ) → Elem i info.instructions → n < length (s i))
      → split_loop sp n info rounds s ≡ ok (t, mv)
      → IsStep s t mv
  unfolding split_loop
  split_loop-IsStep zero s t mv on h = cc
  split_loop-IsStep (suc rounds) s t mv on h =
      elim (Option-cases (all_same_operand_decider s n none info.instructions)) [
        | inr (od, e) ↦
            let (mv', g, r) =
              >>=-eq-ok (split_operand sp s n info od) _ (rw (split_loop, e) at h) in
            stay s t mv' mv r (split_operand-GoesOn sp s n info od mv' g)
              (λ aligned. split_operand-IsMove sp s n info p aligned od e mv' fresh g)
        | inl e ↦ elim (Option-cases (all_same_nonterminal s n none info.instructions)) [
          | inr (nt, f) ↦
              stay s t (split_nonterminal n info nt) mv (rw (split_loop, e, f) at h)
                (omega arith, λ u. one-IsFresh (n % 8) u after info.instructions)
                (λ aligned. nonterminal-IsMove sp s n info p aligned nt f)
          | inl f ↦ elim (Bool-cases (some_funky_spot s n info.instructions)) [
            | inr g ↦
                stay s t (split_bits n info (partition_nodes s n info.instructions)) mv
                  (rw (split_loop, e, f, g) at h) (split_bits-GoesOn n info _ _ _)
                  (λ aligned.
                    unfold partition_nodes in
                    split_bits-IsMove sp s n info p aligned fresh g on _ _ _ refl refl refl)
            | inl g ↦
                let t1 = (rearrange_at_conflict n info.instructions s).1 in
                let kept = rearrange_at_conflict-Kept n info.instructions s in
                elim (Bool-cases (rearrange_at_conflict n info.instructions s).0) [
                  | inl fixed ↦ after_moves s t1 t mv kept (
                      split_loop-IsStep rounds t1 t mv (λ i m. omega (arith, on i m, (kept i).0))
                        (rw (split_loop, e, f, g, fixed) at h))
                  | inr failed ↦
                      let (mv', b, r) =
                        >>=-eq-ok (back_split_or_die t1 n info) _
                          (rw (split_loop, e, f, g, failed) at h) in
                      after_moves s t1 t mv kept (
                        stay t1 t mv' mv r (back_split_or_die-GoesOn t1 n info mv' b)
                          (λ aligned. back_split_or_die-IsMove t1 aligned mv' b))
                ]
          ]
        ]
      ]

  pub step-IsStep : (s t : Store) (mv : Move) → step sp n info s ≡ ok (t, mv) → IsStep s t mv
  unfolding step
  step-IsStep s t mv h = at (at_end_of_instructions s n info.instructions) refl h
    where
      back :
          ◌>>=◌ {B = Store × Move} (back_split_or_die s n info) (λ mv. ok (s, mv)) ≡ ok (t, mv)
          → IsStep s t mv
      back h =
          let (mv', b, r) = >>=-eq-ok (back_split_or_die s n info) _ h in
          stay s t mv' mv r (back_split_or_die-GoesOn s n info mv' b)
            (λ aligned. back_split_or_die-IsMove s aligned mv' b)

      at :
          (e : Progress)
          → at_end_of_instructions s n info.instructions ≡ e
          → step_at sp n info s e ≡ ok (t, mv)
          → IsStep s t mv
      at all_done q h = elim (Bool-cases (ltb 1 (length info.instructions))) [
        | inl many ↦ back (rw many at h)
        | inr one ↦
            stay s t Move.finish mv (rw one at h) tt
              (λ aligned. ground (arith, lt→ltb 1 (length info.instructions)))
      ]
      at some_done q h = back h
      at not_done q h =
          split_loop-IsStep 2 s t mv (λ i m. not_done-lt s n info.instructions i q m) h
