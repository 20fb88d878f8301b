-- ===== src/Graph/Ends.antt =====
-- The building ends: so much fuel is enough.
use mathlib.Core.Path.{subst}
use xed.Base.{
  ℕ, zero, suc, ◌+◌, ◌≤◌, ◌<◌, ◌≡◌, ◌≢◌, refl, ap, inl, inr, List, [], ◌∷◌, arith, Elem, length,
  ltb, Bool-cases, Result, ok, err, out_of_fuel, ◌>>=◌, >>=-eq-ok, ok-eq, string_eq,
}
use xed.Graph.{
  Store, Token, Info, Node, Progress, all_done, not_done, some_done, at_end_of_instructions,
  token_eq,
}
use xed.Graph.Partition.{Spaces}
use xed.Graph.Build.{
  Move, back_split_or_die, step, step_at, build_children, carry_out, build_sub_graph, build_graph,
  root_info,
}
use xed.Graph.Slots.{Kept}
use xed.Graph.Steps.{not_done-lt}
use xed.Graph.Sizes.{HasSets}
use xed.Graph.Moves.{step-IsStep, GoesOn}
use xed.Graph.Falls.{work, Shrinks, split_loop-Falls, back_split_or_die-Falls}
use xed.Graph.Fuel.{Runs, >>=-Runs, step-Runs}
use xed.Graph.Kids.{IsFresh}
use xed.Graph.Correct.{build-IsRight}

module _ (sp : Spaces) (n : ℕ) (info : Info) where
  step-Falls :
      (len : ℕ) (s t : Store) (mv : Move)
      → HasSets sp
      → info.instructions ≢ []
      → ((i : ℕ) → length (s i) ≤ len)
      → step sp n info s ≡ ok (t, mv)
      → Shrinks len (length info.instructions) n mv
  unfolding step
  step-Falls len s t mv sets ne short h = at (at_end_of_instructions s n info.instructions) refl h
    where
      back :
          ◌>>=◌ {B = Store × Move} (back_split_or_die s n info) (λ mv. ok (s, mv)) ≡ ok (t, mv)
          → Shrinks len (length info.instructions) n mv
      back h =
          let (mv', b, r) = >>=-eq-ok (back_split_or_die s n info) _ h in
          subst (Shrinks len (length info.instructions) n) (ap (λ q. q.1) (ok-eq (s, mv') r))
            (back_split_or_die-Falls len n info s mv' b)

      first-lt : (ids : List ℕ) → ids ≢ [] → ((i : ℕ) → Elem i ids → n < length (s i)) → n < len
      first-lt [] ne on = absurd (ne refl)
      first-lt (i ∷ ids) ne on = omega (arith, on i (inl refl), short i)

      at :
          (e : Progress)
          → at_end_of_instructions s n info.instructions ≡ e
          → step_at sp n info s e ≡ ok (t, mv)
          → Shrinks len (length info.instructions) n mv
      at all_done q h = elim (Bool-cases (ltb 1 (length info.instructions))) [
        | inl many ↦ back (rw many at h)
        | inr one ↦
            subst (Shrinks len (length info.instructions) n)
              (ap (λ q. q.1) (ok-eq (s, Move.finish) (rw one at h))) tt
      ]
      at some_done q h = back h
      at not_done q h =
          let on =
            λ (i : ℕ) (m : Elem i info.instructions). not_done-lt s n info.instructions i q m in
          split_loop-Falls len n info ne (first-lt info.instructions ne on) sp 2 s t mv sets on h

module _ (sp : Spaces) (len : ℕ) (sets : HasSets sp) where
  abbrev IsShort : Store → Type 0
  IsShort s = (i : ℕ) → length (s i) ≤ len

  IsShort-Kept : (k : ℕ) (s t : Store) → Kept k s t → IsShort s → IsShort t
  IsShort-Kept k s t kept short i = omega (arith, (kept i).0, short i)

  build_children-Runs :
      (build_child : Store → Info → Result (Node × Store)) (kids : List (Token × Info)) (s : Store)
      → ((t : Token) (child : Info) (u : Store)
          → Elem (t, child) kids
          → IsShort u
          → Runs (build_child u child))
      → ((t : Token) (child : Info) (u v : Store) (nd : Node)
          → Elem (t, child) kids
          → IsShort u
          → build_child u child ≡ ok (nd, v)
          → IsShort v)
      → IsShort s
      → Runs (build_children build_child kids s)
  unfolding build_children
  build_children-Runs build_child [] s runs keeps short = λ q. cc (q)
  build_children-Runs build_child ((k, info) ∷ kids) s runs keeps short =
      >>=-Runs (build_child s info) _ (runs k info s (inl refl) short) (λ r e.
        >>=-Runs (build_children build_child kids r.1) _
          (build_children-Runs build_child kids r.1 (λ t child u m. runs t child u (inr m))
            (λ t child u v nd m. keeps t child u v nd (inr m))
            (keeps k info s r.1 r.0 (inl refl) short e))
          (λ a h q. cc (q)))

  build-Runs :
      (fuel : ℕ) (s : Store) (info : Info) (n skipped : ℕ)
      → work len (length info.instructions) n < fuel
      → info.instructions ≢ []
      → IsFresh info
      → IsShort s
      → Runs (build_sub_graph sp fuel s info n skipped)
  unfolding build_sub_graph
  build-Runs zero s info n skipped lt ne fresh short = absurd (omega arith)
  build-Runs (suc fuel) s info n skipped lt ne fresh short =
      >>=-Runs (step sp n info s) _ (step-Runs sp n info s) (λ r e.
        let (kept, goes, moves) = step-IsStep sp n info 0 fresh s r.0 r.1 e in
        go r.0 r.1 (IsShort-Kept n s r.0 kept short) goes
          (step-Falls sp n info len s r.0 r.1 sets ne short e)
          (λ u child n' k l f g h. build-Runs fuel u child n' k l f g h))
    where
      go :
          (t : Store) (mv : Move)
          → IsShort t
          → GoesOn n mv
          → Shrinks len (length info.instructions) n mv
          → ((u : Store) (child : Info) (n' k : ℕ)
              → work len (length child.instructions) n' < fuel
              → child.instructions ≢ []
              → IsFresh child
              → IsShort u
              → Runs (build_sub_graph sp fuel u child n' k))
          → Runs (carry_out (build_sub_graph sp fuel) info n skipped (t, mv))
      go t Move.finish short goes falls ih = λ q. cc (q)
      go t Move.skip short goes falls ih =
          ih t info (n + 1) (skipped + 1) (omega arith) ne fresh short
      go t (Move.split info' kids n') short goes falls ih =
          >>=-Runs (build_children (λ u child. build_sub_graph sp fuel u child n' 0) kids t) _
            (build_children-Runs (λ u child. build_sub_graph sp fuel u child n' 0) kids t
              (λ tok child u m short2.
                let (some_left, less) = falls tok child m in
                ih u child n' 0 (omega arith) some_left (goes.1 tok child m) short2)
              (λ tok child u v nd m short2 e.
                IsShort-Kept n' u v
                  (build-IsRight sp fuel u v child n' 0 nd (goes.1 tok child m) e).0 short2)
              short)
            (λ a h q. cc (q))

  -- For state spaces without repeated values, at least one instruction, and patterns of at most
  -- len bits, the building does not run out of fuel if the fuel is above len plus the number of
  -- instructions: it returns a graph, or ends by an error of the source.
  pub build_graph-Ends :
      (fuel : ℕ) (s : Store) (ilist : List ℕ)
      → ilist ≢ []
      → IsShort s
      → length ilist + len < fuel
      → build_graph sp fuel s ilist ≢ err out_of_fuel
  unfolding build_graph
  build_graph-Ends fuel s ilist ne short lt =
      build-Runs fuel s (root_info sp ilist) 0 0 (omega arith) ne
        (record { nt = refl; od = refl; back = refl }) short
