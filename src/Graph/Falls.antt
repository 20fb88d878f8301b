-- ===== src/Graph/Falls.antt =====
-- Each move leaves less to do: the number of instructions and the rest of the patterns, added up, fall.
use mathlib.Core.Path.{subst}
use xed.Base.{
  ℕ, zero, suc, ◌+◌, ◌-◌, ◌%◌, ◌≤◌, ◌<◌, ◌≡◌, ◌≢◌, refl, sym, ap, ◌∙◌, inl, inr, true, false,
  Option, none, String, some, List, [], ◌∷◌, arith, if◌then◌else◌, Elem, length, Bool-cases,
  Option-cases, get_elem?, Result, ok, >>=-eq-ok, ok-eq, string_eq,
}
use xed.Base.Dict.{Elem-lookup}
use xed.Graph.{
  BitInfo, one_or_zero, dont_care, operand, nonterminal, Store, Token, bit, after, Info, Decider,
  has_value, is_other, test_at, those_at, new_node, all_same_operand_decider, all_same_nonterminal,
  some_funky_spot, partition_nodes, scan_backwards_for_distinguishing_bit, token_eq,
}
use xed.Graph.Rearrange.{rearrange_at_conflict}
use xed.Graph.Partition.{Spaces, Member, Parts, partition_by_required_values, nodes_of, ids_of}
use xed.Graph.Build.{
  Move, back_parts, back_split_graph, back_split_or_die, split_bits, split_operand,
  split_nonterminal, split_loop,
}
use xed.Graph.Kept.{rearrange_at_conflict-Kept}
use xed.Graph.Placed.{partition-ArePlaced}
use xed.Graph.Sizes.{HasSets, parts-AreSized}
use xed.Graph.Kids.{bit-cases}
use xed.Graph.Choices.{all_parts, all_parts-IsDict}

-- what is left to do, for so many instructions at a position of patterns of at most `len` bits
abbrev pub work : ℕ → ℕ → ℕ → ℕ
work len c n = c + (len - n)

abbrev pub Shrinks : ℕ → ℕ → ℕ → Move → Type 0
Shrinks len c n Move.finish = Unit
Shrinks len c n Move.skip = n < len
Shrinks len c n (Move.split info kids n') =
    (t : Token) (child : Info)
    → Elem (t, child) kids
    → (child.instructions ≢ []) × (work len (length child.instructions) n' < work len c n)

those_at-length :
    (s : Store) (n : ℕ) (ids : List ℕ)
    → length (those_at s n (has_value true) ids) + length (those_at s n (has_value false) ids)
      ≤ length ids
unfolding those_at
those_at-length s n [] = omega arith
those_at-length s n (i ∷ ids) =
    one (get_elem? (s i) n) (those_at s n (has_value true) ids) (those_at s n (has_value false) ids)
      (those_at-length s n ids)
  where
    one :
        (o : Option BitInfo) (xs ys : List ℕ)
        → length xs + length ys ≤ length ids
        → length (if test_at (has_value true) o then i ∷ xs else xs)
            + length (if test_at (has_value false) o then i ∷ ys else ys)
          ≤ suc (length ids)
    one none xs ys h = omega arith
    one (some (one_or_zero true)) xs ys h = omega arith
    one (some (one_or_zero false)) xs ys h = omega arith
    one (some (dont_care c)) xs ys h = omega arith
    one (some (nonterminal c)) xs ys h = omega arith
    one (some (operand c)) xs ys h = omega arith

-- a child with some of the instructions
one_child :
    (len c n n' k : ℕ) (u t : Token) (ids : List ℕ) (child : Info)
    → (t, child) ≡ new_node u k none ids
    → ids ≢ []
    → work len (length ids) n' < work len c n
    → (child.instructions ≢ []) × (work len (length child.instructions) n' < work len c n)
one_child len c n n' k u t ids child e ne lt =
    let same : ids ≡ child.instructions = sym (ap (λ q. q.1.instructions) e) in
    subst (λ l. (l ≢ []) × (work len (length l) n' < work len c n)) same (ne, lt)

cons-ne-nil : (x : ℕ) (xs : List ℕ) → x ∷ xs ≢ []
cons-ne-nil x xs e = cc

ids_of-length : (ms : List Member) → length (ids_of ms) ≡ length ms
ids_of-length [] = refl
ids_of-length (m ∷ ms) = ap suc (ids_of-length ms)

nodes_of-Elem :
    (k : ℕ) (d : Parts) (t : Token) (child : Info)
    → Elem (t, child) (nodes_of k d)
    → (ms : List Member) × Elem (t, ms) d × (child.instructions ≡ ids_of ms)
nodes_of-Elem k [] t child m = elim m [ ]
nodes_of-Elem k ((j, ms) ∷ d) t child (inl e) =
    (ms, inl (ap (λ x. (x, ms)) (ap (λ q. q.0) e)), ap (λ q. q.1.instructions) e)
nodes_of-Elem k ((j, ms) ∷ d) t child (inr m) =
    let (ns, h, e) = nodes_of-Elem k d t child m in (ns, inr h, e)

module _ (len n : ℕ) (info : Info) where
  abbrev pub Falls : Move → Type 0
  Falls mv = Shrinks len (length info.instructions) n mv

  ok-Falls : (x mv : Move) → ok x ≡ ok mv → Falls x → Falls mv
  ok-Falls x mv h f = subst Falls (ok-eq x h) f

  back_split_graph-Falls :
      (s : Store) (q : ℕ) (mv : Move) → back_split_graph s n info q ≡ ok mv → Falls mv
  unfolding back_split_graph partition_nodes
  back_split_graph-Falls s q mv h =
      parts (those_at s q (has_value true) info.instructions)
        (those_at s q (has_value false) info.instructions) (those_at s q is_other info.instructions)
        (those_at-length s q info.instructions) h
    where
      parts :
          (ones zeros others : List ℕ)
          → length ones + length zeros ≤ length info.instructions
          → back_parts s n info q (ones, zeros, others) ≡ ok mv
          → Falls mv
      parts ones zeros (o ∷ others) le h = cc
      parts ones [] [] le h = cc
      parts [] (z ∷ zeros) [] le h = cc
      parts (o ∷ ones) (z ∷ zeros) [] le h = ok-Falls _ mv h (λ t child m. elim m [
        | inl e ↦
            one_child len (length info.instructions) n n ((n - 1) % 8) (bit false) t (z ∷ zeros)
              child e (cons-ne-nil z zeros) (omega arith)
        | inr (inl e) ↦
            one_child len (length info.instructions) n n ((n - 1) % 8) (bit true) t (o ∷ ones) child
              e (cons-ne-nil o ones) (omega arith)
        | inr (inr e) ↦ elim e [ ]
      ])

  pub back_split_or_die-Falls :
      (s : Store) (mv : Move) → back_split_or_die s n info ≡ ok mv → Falls mv
  unfolding back_split_or_die
  back_split_or_die-Falls s mv h =
      elim (Option-cases (scan_backwards_for_distinguishing_bit s info.instructions n)) [
        | inl e ↦ absurd (cc (rw (back_split_or_die, e) at h))
        | inr (q, e) ↦ back_split_graph-Falls s q mv (rw (back_split_or_die, e) at h)
      ]

  module _ (some_left : info.instructions ≢ []) (lt : n < len) where
    split_bits-Falls :
        (s : Store) (ones zeros others : List ℕ)
        → length ones + length zeros ≤ length info.instructions
        → ((ones ≡ []) → (zeros ≡ []) → (others ≢ []))
        → Falls (split_bits n info (ones, zeros, others))
    split_bits-Falls s ones zeros (o ∷ others) le ne = lt
    split_bits-Falls s (o ∷ ones) [] [] le ne = λ t child m. elim m [
      | inl e ↦
          one_child len (length info.instructions) n (n + 1) (n % 8) (bit true) t (o ∷ ones) child e
            (cons-ne-nil o ones) (omega arith)
      | inr e ↦ elim e [ ]
    ]
    split_bits-Falls s [] (z ∷ zeros) [] le ne = λ t child m. elim m [
      | inl e ↦
          one_child len (length info.instructions) n (n + 1) (n % 8) (bit false) t (z ∷ zeros) child
            e (cons-ne-nil z zeros) (omega arith)
      | inr e ↦ elim e [ ]
    ]
    split_bits-Falls s [] [] [] le ne = absurd (ne refl refl refl)
    split_bits-Falls s (o ∷ ones) (z ∷ zeros) [] le ne = λ t child m. elim m [
      | inl e ↦
          one_child len (length info.instructions) n (n + 1) (n % 8) (bit false) t (z ∷ zeros) child
            e (cons-ne-nil z zeros) (omega arith)
      | inr (inl e) ↦
          one_child len (length info.instructions) n (n + 1) (n % 8) (bit true) t (o ∷ ones) child e
            (cons-ne-nil o ones) (omega arith)
      | inr (inr e) ↦ elim e [ ]
    ]

    nonterminal-Falls : (nt : String) → Falls (split_nonterminal n info nt)
    nonterminal-Falls nt t child m = elim m [
      | inl e ↦
          one_child len (length info.instructions) n (n + 1) (n % 8) after t info.instructions child
            e some_left (omega arith)
      | inr e ↦ elim e [ ]
    ]

    split_operand-Falls :
        (sp : Spaces) (s : Store) (od : Decider) (mv : Move)
        → HasSets sp
        → split_operand sp s n info od ≡ ok mv
        → Falls mv
    unfolding split_operand
    split_operand-Falls sp s od mv sets h =
        let ((d, values), e, r) =
          >>=-eq-ok (partition_by_required_values sp s n od.token info.instructions) _ h in
        let (placed, belongs) = partition-ArePlaced sp s n od.token info.instructions d values e in
        let sized = parts-AreSized sp s n od.token info.instructions d values sets placed.dict e in
        let dict = all_parts-IsDict info.instructions d placed.dict placed.from in
        ok-Falls _ mv r (λ t child m.
          let (ms, at, same) = nodes_of-Elem (n % 8) (all_parts d) t child m in
          let (full, small) = sized t ms (Elem-lookup t ms (all_parts d) dict at) in
          (
            λ none_left. full (no_ids ms (sym same ∙ none_left)),
            omega (arith, ap length same, ids_of-length ms),
          ))
      where
        no_ids : (ms : List Member) → ids_of ms ≡ [] → ms ≡ []
        no_ids [] h = refl
        no_ids (m ∷ ms) h = cc

    pub split_loop-Falls :
        (sp : Spaces) (rounds : ℕ) (s t : Store) (mv : Move)
        → HasSets sp
        → ((i : ℕ) → Elem i info.instructions → n < length (s i))
        → split_loop sp n info rounds s ≡ ok (t, mv)
        → Falls mv
    unfolding split_loop
    split_loop-Falls sp zero s t mv sets on h = cc
    split_loop-Falls sp (suc rounds) s t mv sets on h =
        elim (Option-cases (all_same_operand_decider s n none info.instructions)) [
          | inr (od, e) ↦
              let (mv', g, r) =
                >>=-eq-ok (split_operand sp s n info od) _ (rw (split_loop, e) at h) in
              moved mv' r (split_operand-Falls sp s od mv' sets g)
          | inl e ↦ elim (Option-cases (all_same_nonterminal s n none info.instructions)) [
            | inr (nt, f) ↦ moved _ (rw (split_loop, e, f) at h) (nonterminal-Falls nt)
            | inl f ↦ elim (Bool-cases (some_funky_spot s n info.instructions)) [
              | inr g ↦ moved _ (rw (split_loop, e, f, g) at h) (
                  unfold partition_nodes in
                  split_bits-Falls s _ _ _ (those_at-length s n info.instructions)
                    (left info.instructions some_left on))
              | inl g ↦ elim (Bool-cases (rearrange_at_conflict n info.instructions s).0) [
                | inl fixed ↦
                    split_loop-Falls sp rounds (rearrange_at_conflict n info.instructions s).1 t mv
                      sets
                      (λ i m.
                        omega
                          (arith, on i m, (rearrange_at_conflict-Kept n info.instructions s i).0))
                      (rw (split_loop, e, f, g, fixed) at h)
                | inr failed ↦
                    let (mv', b, r) =
                      >>=-eq-ok
                        (back_split_or_die (rearrange_at_conflict n info.instructions s).1 n info) _
                        (rw (split_loop, e, f, g, failed) at h) in
                    moved mv' r (back_split_or_die-Falls _ mv' b)
              ]
            ]
          ]
        ]
      where
        moved :
            {u : Store} (mv' : Move)
            → ◌≡◌ {A = Result (Store × Move)} (ok (u, mv')) (ok (t, mv))
            → Falls mv'
            → Falls mv
        moved {u} mv' h f = subst Falls (ap (λ q. q.1) (ok-eq (u, mv') h)) f

        left :
            (ids : List ℕ)
            → ids ≢ []
            → ((i : ℕ) → Elem i ids → n < length (s i))
            → those_at s n (has_value true) ids ≡ []
            → those_at s n (has_value false) ids ≡ []
            → those_at s n is_other ids ≢ []
        left [] ne on p q r = ne refl
        left (i ∷ ids) ne on p q r =
            elim (bit-cases s n (i ∷ ids) i (inl refl) (on i (inl refl)) r) [
              | inl m ↦ elim (subst (Elem i) p m) [ ]
              | inr m ↦ elim (subst (Elem i) q m) [ ]
            ]
