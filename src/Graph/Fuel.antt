-- ===== src/Graph/Fuel.antt =====
-- The steps of the building do not run out of fuel: only its recursion can.

use xed.Base.{
  ℕ, zero, suc, ◌≡◌, refl, ap, inl, inr, none, String, List, [], ◌∷◌, arith, length, ltb,
  Bool-cases, Option-cases, get_elem?, Result, ok, err, die, out_of_fuel, ◌>>=◌, not, string_eq,
}
use xed.Graph.{
  Store, Info, Decider, all_same_operand_decider, all_same_nonterminal, some_funky_spot, Progress,
  all_done, not_done, some_done, at_end_of_instructions, scan_backwards_for_distinguishing_bit,
  decider_of, token_eq,
}
use xed.Graph.Rearrange.{rearrange_at_conflict}
use xed.Graph.Partition.{
  Spaces, Parts, partition_by_required_values, all_values_for, place, place_all, place_trimmed,
  without,
}
use xed.Graph.Build.{
  Move, back_parts, back_split_graph, back_split_or_die, split_operand, split_loop, step, step_at,
}

-- The recursion apart, nothing runs out of fuel.
abbrev pub Runs {ℓ} : {A : Type ℓ} → Result A → Type ℓ
Runs {A = A} r = ¬ (r ≡ err out_of_fuel)

pub >>=-Runs :
    {A B : Type 0} (r : Result A) (f : A → Result B)
    → Runs r
    → ((a : A) → r ≡ ok a → Runs (f a))
    → Runs (r >>= f)
>>=-Runs (err e) f h k = λ q. h (ap retype q)
  where
    retype : {A B : Type 0} → Result A → Result B
    retype (err e) = err e
    retype (ok a) = err die
>>=-Runs (ok a) f h k = k a refl

all_values_for-Runs : (sp : Spaces) (token : String) → Runs (all_values_for sp token)
unfolding all_values_for
all_values_for-Runs sp token q = ground arith

place-Runs :
    (sp : Spaces) (s : Store) (n : ℕ) (token : String) (i : ℕ) (d : Parts) (vs : List ℕ)
    → Runs (place sp s n token i (d, vs))
unfolding place place_trimmed
place-Runs sp s n token i d vs = elim (Option-cases (decider_of (get_elem? (s i) n))) [
  | inl e ↦ rw (place, e) (λ q. cc (q))
  | inr (od, e) ↦ elim (Bool-cases (not (string_eq.beq od.token token))) [
    | inl g ↦ rw (place, e, g) (λ q. cc (q))
    | inr g ↦ elim (Bool-cases od.is_eq) [
      | inl b ↦ rw (place, e, g, b) (λ q. cc (q))
      | inr b ↦
          rw (place, e, g, b)
            (>>=-Runs (all_values_for sp od.token) _ (all_values_for-Runs sp od.token)
              (λ all h. rest all (without od.requirement all)))
    ]
  ]
]
  where
    rest : (all ws : List ℕ) → Runs (place_trimmed sp s n token i all ws (d, vs))
    rest all [] q = cc
    rest all (w ∷ ws) q = cc

place_all-Runs :
    (sp : Spaces) (s : Store) (n : ℕ) (token : String) (is : List ℕ) (acc : Parts × List ℕ)
    → Runs (place_all sp s n token is acc)
unfolding place_all
place_all-Runs sp s n token [] acc = λ q. cc (q)
place_all-Runs sp s n token (i ∷ is) acc =
    >>=-Runs (place sp s n token i acc) _ (place-Runs sp s n token i acc.0 acc.1)
      (λ a h. place_all-Runs sp s n token is a)

split_operand-Runs :
    (sp : Spaces) (s : Store) (n : ℕ) (info : Info) (od : Decider)
    → Runs (split_operand sp s n info od)
unfolding split_operand partition_by_required_values
split_operand-Runs sp s n info od =
    >>=-Runs (place_all sp s n od.token info.instructions ([], [])) _
      (place_all-Runs sp s n od.token info.instructions ([], [])) (λ a h q. cc (q))

back_split_or_die-Runs : (s : Store) (n : ℕ) (info : Info) → Runs (back_split_or_die s n info)
unfolding back_split_or_die back_split_graph
back_split_or_die-Runs s n info =
    elim (Option-cases (scan_backwards_for_distinguishing_bit s info.instructions n)) [
      | inl e ↦ rw (back_split_or_die, e) (λ q. cc (q))
      | inr (q, e) ↦ rw (back_split_or_die, e) (parts q _ _ _)
    ]
  where
    parts :
        (q : ℕ) (ones zeros others : List ℕ) → Runs (back_parts s n info q (ones, zeros, others))
    parts q ones zeros (o ∷ others) h = cc
    parts q ones [] [] h = cc
    parts q [] (z ∷ zeros) [] h = cc
    parts q (o ∷ ones) (z ∷ zeros) [] h = cc

module _ (sp : Spaces) (n : ℕ) (info : Info) where
  back-Runs :
      (s t : Store)
      → Runs (◌>>=◌ {B = Store × Move} (back_split_or_die s n info) (λ mv. ok (t, mv)))
  back-Runs s t =
      >>=-Runs (back_split_or_die s n info) _ (back_split_or_die-Runs s n info) (λ a h q. cc (q))

  split_loop-Runs : (rounds : ℕ) (s : Store) → Runs (split_loop sp n info rounds s)
  unfolding split_loop
  split_loop-Runs zero s = λ q. cc (q)
  split_loop-Runs (suc rounds) s =
      elim (Option-cases (all_same_operand_decider s n none info.instructions)) [
        | inr (od, e) ↦
            rw (split_loop, e)
              (>>=-Runs (split_operand sp s n info od) _ (split_operand-Runs sp s n info od)
                (λ a h q. cc (q)))
        | inl e ↦ elim (Option-cases (all_same_nonterminal s n none info.instructions)) [
          | inr (nt, f) ↦ rw (split_loop, e, f) (λ q. cc (q))
          | inl f ↦ elim (Bool-cases (some_funky_spot s n info.instructions)) [
            | inr g ↦ rw (split_loop, e, f, g) (λ q. cc (q))
            | inl g ↦ elim (Bool-cases (rearrange_at_conflict n info.instructions s).0) [
              | inl fixed ↦
                  rw (split_loop, e, f, g, fixed)
                    (split_loop-Runs rounds (rearrange_at_conflict n info.instructions s).1)
              | inr failed ↦
                  rw (split_loop, e, f, g, failed)
                    (back-Runs (rearrange_at_conflict n info.instructions s).1
                      (rearrange_at_conflict n info.instructions s).1)
            ]
          ]
        ]
      ]

  pub step-Runs : (s : Store) → Runs (step sp n info s)
  unfolding step
  step-Runs s = at (at_end_of_instructions s n info.instructions)
    where
      at : (e : Progress) → Runs (step_at sp n info s e)
      at all_done = elim (Bool-cases (ltb 1 (length info.instructions))) [
        | inl many ↦ rw many (back-Runs s s)
        | inr one ↦ rw one (λ q. cc (q))
      ]
      at some_done = back-Runs s s
      at not_done = split_loop-Runs 2 s
