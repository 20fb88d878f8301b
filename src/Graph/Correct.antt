-- ===== src/Graph/Correct.antt =====
-- The graph that is built leads each input to the instruction whose pattern it meets.
use mathlib.Core.Path.{subst, fun_ext}
use xed.Base.{
  ℕ, zero, suc, ◌+◌, ◌≤◌, ◌≡◌, refl, sym, ap, ◌∙◌, inl, inr, Bool, true, Option, some, List, [],
  ◌∷◌, arith, if◌then◌else◌, Elem, length, Bool-cases, Result, ok, >>=-eq-ok, ok-eq,
}
use xed.Base.Dict.{lookup}
use xed.Graph.{Store, Token, token_eq, Info, Node, Next, node, end, edge, real_bits}
use xed.Graph.Partition.{Spaces}
use xed.Graph.Build.{Move, step, build_children, carry_out, build_sub_graph, build_graph, root_info}
use xed.Graph.Read.{Input, Satisfies, InSpace, choose, has_edge, read, follow}
use xed.Graph.Slots.{Aligned, Aligned-Kept, Kept, Kept-self, Kept-trans, Kept-weaken}
use xed.Graph.Steps.{has_kid}
use xed.Graph.Kids.{IsFresh}
use xed.Graph.Moves.{step-IsStep}

-- The patterns are kept up to the position, and the node leads an input that arrives at it to the
-- instruction whose pattern it meets.
abbrev pub IsRight : Spaces → Store → Store → List ℕ → ℕ → ℕ → Node → Type 0
IsRight sp s t ids n skipped nd =
    Kept n s t
    × ((pos i : ℕ) (x : Input)
        → Aligned n s ids (pos + skipped)
        → Elem i ids
        → InSpace sp x
        → Satisfies x 0 (s i)
        → read x pos nd ≡ some (i ∷ []))

read-follow :
    (x : Input) (pos : ℕ) (info : Info) (next : Next) {l : List ℕ}
    → follow x
        (choose x (pos + info.skipped_bits) (λ t. has_edge t next) info).0
        (choose x (pos + info.skipped_bits) (λ t. has_edge t next) info).1
        next
      ≡ some l
    → read x pos (node info next) ≡ some l
unfolding read
read-follow x pos info end h = cc
read-follow x pos info (edge k child next) h = h

one_left : (i : ℕ) (l : List ℕ) → length l ≤ 1 → Elem i l → l ≡ i ∷ []
one_left i [] h m = elim m [ ]
one_left i (j ∷ []) h (inl e) = ap (λ k. k ∷ []) (sym e)
one_left i (j ∷ []) h (inr m) = elim m [ ]
one_left i (j ∷ k ∷ l) h m = absurd (omega arith)

module _ (sp : Spaces) (n : ℕ) (build_child : Store → Info → Result (Node × Store)) where
  -- what the children are known to be
  abbrev AreRight : Type 0
  AreRight =
      (s t : Store) (child : Info) (nd : Node)
      → IsFresh child
      → build_child s child ≡ ok (nd, t)
      → IsRight sp s t child.instructions n 0 nd

  abbrev Leads : Store → List (Token × Info) → Next → Type 0
  Leads s kids next =
      (pos i : ℕ) (x : Input) (tok : Token) (child : Info)
      → lookup tok kids ≡ some child
      → Elem i child.instructions
      → Aligned n s child.instructions pos
      → InSpace sp x
      → Satisfies x 0 (s i)
      → follow x tok pos next ≡ some (i ∷ [])

  build_children-Leads :
      (kids : List (Token × Info)) (s t : Store) (next : Next)
      → AreRight
      → ((tok : Token) (child : Info) → Elem (tok, child) kids → IsFresh child)
      → build_children build_child kids s ≡ ok (next, t)
      → Kept n s t × ((tok : Token) → has_edge tok next ≡ has_kid tok kids) × Leads s kids next
  unfolding build_children read lookup
  build_children-Leads [] s t next right fresh h =
      let done : ◌≡◌ {A = Next × Store} (end, s) (next, t) = ok-eq (end, s) h in
      (
        subst (Kept n s) (ap (λ q. q.1) done) (Kept-self n s),
        λ tok. ap (λ q. has_edge tok q.0) (sym done),
        λ pos i x tok child e. cc (e),
      )
  build_children-Leads ((k, info) ∷ kids) s t next right fresh h =
      let ((nd, s1), e, h1) = >>=-eq-ok (build_child s info) _ h in
      let ((rest, s2), e2, h2) = >>=-eq-ok (build_children build_child kids s1) _ h1 in
      let done : ◌≡◌ {A = Next × Store} (edge k nd rest, s2) (next, t) =
        ok-eq (edge k nd rest, s2) h2 in
      let (kept, reads) = right s s1 info nd (fresh k info (inl refl)) e in
      let (kept2, same, leads) =
        build_children-Leads kids s1 s2 rest right (λ tok child m. fresh tok child (inr m)) e2 in
      (
        subst (Kept n s) (ap (λ q. q.1) done) (Kept-trans n s s1 s2 kept kept2),
        λ tok.
            ap (λ q. has_edge tok q.0) (sym done)
            ∙ ap (λ b. if token_eq.beq k tok then true else b) (same tok),
        subst (Leads s ((k, info) ∷ kids)) (ap (λ q. q.0) done) (first nd rest s1 reads kept leads),
      )
    where
      first :
          (nd : Node) (rest : Next) (s1 : Store)
          → ((pos i : ℕ) (x : Input)
              → Aligned n s info.instructions (pos + 0)
              → Elem i info.instructions
              → InSpace sp x
              → Satisfies x 0 (s i)
              → read x pos nd ≡ some (i ∷ []))
          → Kept n s s1
          → Leads s1 kids rest
          → Leads s ((k, info) ∷ kids) (edge k nd rest)
      first nd rest s1 reads kept leads pos i x tok child e m al space sat =
          elim (Bool-cases (token_eq.beq k tok)) [
            | inl q ↦
                let same : info ≡ child = some_eq (rw (lookup, q) at e) in
                rw q (
                  reads pos i x
                    (subst (λ c. Aligned n s c.instructions (pos + 0)) (sym same)
                      (subst (Aligned n s child.instructions) (omega arith) al))
                    (subst (λ c. Elem i c.instructions) (sym same) m) space sat)
            | inr q ↦ rw q (
                leads pos i x tok child (rw (lookup, q) at e) m
                  (Aligned-Kept n s s1 child.instructions pos kept al) space
                  (((kept i).2 x 0).0 sat))
          ]
        where
          some_eq : {a b : Info} → some a ≡ some b → a ≡ b
          some_eq h = cc

module _ (sp : Spaces) where
  pub build-IsRight :
      (fuel : ℕ) (s t : Store) (info : Info) (n skipped : ℕ) (nd : Node)
      → IsFresh info
      → build_sub_graph sp fuel s info n skipped ≡ ok (nd, t)
      → IsRight sp s t info.instructions n skipped nd
  unfolding build_sub_graph read
  build-IsRight zero s t info n skipped nd fresh h = cc
  build-IsRight (suc fuel) s t info n skipped nd fresh h =
      let ((s1, mv), e, r) = >>=-eq-ok (step sp n info s) _ h in
      carried s1 mv e r (λ u v child n' k nd' f g. build-IsRight fuel u v child n' k nd' f g)
    where
      carried :
          (s1 : Store) (mv : Move)
          → step sp n info s ≡ ok (s1, mv)
          → carry_out (build_sub_graph sp fuel) info n skipped (s1, mv) ≡ ok (nd, t)
          → ((u v : Store) (child : Info) (n' k : ℕ) (nd' : Node)
              → IsFresh child
              → build_sub_graph sp fuel u child n' k ≡ ok (nd', v)
              → IsRight sp u v child.instructions n' k nd')
          → IsRight sp s t info.instructions n skipped nd
      carried s1 Move.finish e r ih =
          let info' : Info = record info { skipped_bits = skipped } in
          let done : ◌≡◌ {A = Node × Store} (node info' end, s1) (nd, t) =
            ok-eq (node info' end, s1) r in
          (
            subst (Kept n s) (ap (λ q. q.1) done)
                (step-IsStep sp n info 0 fresh s s1 Move.finish e).0,
            λ pos i x al m space sat.
                let (kept, goes, moves) =
                  step-IsStep sp n info (pos + skipped) fresh s s1 Move.finish e in
                let small = moves (Aligned-Kept n s s1 info.instructions (pos + skipped) kept al) in
                ap (λ q. read x pos q.0) (sym done)
                ∙ ap some (one_left i info.instructions small m),
          )
      carried s1 Move.skip e r ih =
          let (kept2, reads) = ih s1 t info (n + 1) (skipped + 1) nd fresh r in
          let kept0 = (step-IsStep sp n info 0 fresh s s1 Move.skip e).0 in
          (
            Kept-trans n s s1 t kept0 (Kept-weaken n (n + 1) s1 t (omega arith) kept2),
            λ pos i x al m space sat.
                let (kept, goes, moves) =
                  step-IsStep sp n info (pos + skipped) fresh s s1 Move.skip e in
                let next = moves (Aligned-Kept n s s1 info.instructions (pos + skipped) kept al) in
                reads pos i x (subst (Aligned (n + 1) s1 info.instructions) (omega arith) next) m
                  space (((kept i).2 x 0).0 sat),
          )
      carried s1 (Move.split info' kids n') e r ih =
          let ((next, s2), b, r2) =
            >>=-eq-ok (build_children (λ u child. build_sub_graph sp fuel u child n' 0) kids s1) _
              r in
          let info2 : Info = record info' { skipped_bits = skipped } in
          let done : ◌≡◌ {A = Node × Store} (node info2 next, s2) (nd, t) =
            ok-eq (node info2 next, s2) r2 in
          let (kept0, goes, moves0) =
            step-IsStep sp n info 0 fresh s s1 (Move.split info' kids n') e in
          let (kept2, same, leads) =
            build_children-Leads sp n' (λ u child. build_sub_graph sp fuel u child n' 0) kids s1 s2
              next (λ u v child nd' f g. ih u v child n' 0 nd' f g) goes.1 b in
          (
            subst (Kept n s) (ap (λ q. q.1) done)
                (Kept-trans n s s1 s2 kept0 (Kept-weaken n n' s1 s2 goes.0 kept2)),
            λ pos i x al m space sat.
                let (kept, goes', moves) =
                  step-IsStep sp n info (pos + skipped) fresh s s1 (Move.split info' kids n') e in
                let (keeps, chosen) =
                  moves (Aligned-Kept n s s1 info.instructions (pos + skipped) kept al) in
                let sat1 = ((kept i).2 x 0).0 sat in
                let (child, at, inside, al2) = chosen i x m space sat1 in
                let edges : ◌≡◌ {A = Token → Bool} (λ tok. has_kid tok kids)
                    (λ tok. has_edge tok next) =
                  fun_ext (λ tok. sym (same tok)) in
                let go : Token × ℕ → Type 0 = λ c. follow x c.0 c.1 next ≡ some (i ∷ []) in
                ap (λ q. read x pos q.0) (sym done)
                ∙ read-follow x pos info2 next (
                    subst (λ has. go (choose x (pos + skipped) has info')) edges
                      (leads (choose x (pos + skipped) (λ tok. has_kid tok kids) info').1 i x
                        (choose x (pos + skipped) (λ tok. has_kid tok kids) info').0 child at inside
                        al2 space sat1)),
          )

-- If build_graph succeeds, then an input that has values of the operands' spaces and meets the
-- pattern of an instruction of the list is led by the graph to that instruction alone, and no
-- input with such values meets the patterns of two instructions.
pub build_graph-Decides :
    (sp : Spaces) (fuel : ℕ) (s t : Store) (ilist : List ℕ) (graph : Node)
    → build_graph sp fuel s ilist ≡ ok (graph, t)
    → ((i : ℕ) (x : Input)
        → Elem i ilist
        → InSpace sp x
        → Satisfies x 0 (s i)
        → read x 0 graph ≡ some (i ∷ []))
      × ((i j : ℕ) (x : Input)
          → Elem i ilist
          → Elem j ilist
          → InSpace sp x
          → Satisfies x 0 (s i)
          → Satisfies x 0 (s j)
          → i ≡ j)
unfolding build_graph
build_graph-Decides sp fuel s t ilist graph h =
    let right = (build-IsRight sp fuel s t (root_info sp ilist) 0 0 graph root-IsFresh h).1 in
    let one : (i : ℕ) (x : Input)
        → Elem i ilist
        → InSpace sp x
        → Satisfies x 0 (s i)
        → read x 0 graph ≡ some (i ∷ []) =
      λ i x m space sat. right 0 i x start m space sat in
    (one, λ i j x m k space sat sat2. same i j (sym (one i x m space sat) ∙ one j x k space sat2))
  where
    root-IsFresh : IsFresh (root_info sp ilist)
    root-IsFresh = record { nt = refl; od = refl; back = refl }

    start : Aligned 0 s ilist 0
    start = record {
      reach = λ i m. omega arith;
      position = λ i m. unfold real_bits in refl;
      agree = λ i j m h k le. let e : m ≡ 0 = omega arith in rw e (unfold real_bits in refl);
    }

    same : (i j : ℕ) → ◌≡◌ {A = Option (List ℕ)} (some (i ∷ [])) (some (j ∷ [])) → i ≡ j
    same i j e = ground arith
