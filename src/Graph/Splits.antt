-- ===== src/Graph/Splits.antt =====
-- The four kinds of split: at a bit, at an earlier bit, at a nonterminal and at an operand.
use mathlib.Core.Path.{subst}
use xed.Base.{
  ℕ, suc, ◌+◌, ◌-◌, ◌%◌, ◌≤◌, ◌<◌, ◌≡◌, refl, sym, ◌∙◌, inl, String, true, false, ◌||◌, none, some,
  List, [], ◌∷◌, arith, Elem, length, get_elem?, string_eq, ok,
}
use xed.Base.Dict.{lookup}
use xed.Graph.{
  BitInfo, one_or_zero, dont_care, operand, nonterminal, Store, Token, bit, after, token_eq, Info,
  has_value, is_other, is_operand_decider, is_nonterminal, those_at, partition_nodes, new_node,
  real_bits, all_same_nonterminal, some_funky_spot,
}
use xed.Graph.Partition.{Spaces}
use xed.Graph.Build.{
  Move, split, zeros_node, ones_node, first_real_bits, back_split_graph, back_parts, split_bits,
  split_nonterminal,
}
use xed.Graph.Read.{Input, Satisfies}
use xed.Graph.Slots.{Aligned, Aligned-next, Aligned-some, get_elem?-lt, width}
use xed.Graph.Steps.{has_kid, Reaches, IsSplit, some_at-false, all_same_nonterminal-eq-some}
use xed.Graph.Kids.{IsFresh, choose-eq, bits_at, bit-cases, AreNodes, two-AreNodes, bits-Reaches}

module _ (sp : Spaces) (s : Store) (n : ℕ) (info : Info) (p : ℕ)
    (aligned : Aligned n s info.instructions p) where
  -- the move to the children, or on to the next bit
  abbrev pub IsMove : Move → Type 0
  IsMove Move.finish = length info.instructions ≤ 1
  IsMove Move.skip = Aligned (n + 1) s info.instructions (p + 1)
  IsMove (Move.split info' kids n') =
      (info'.instructions ≡ info.instructions) × IsSplit sp s info' kids n' info.instructions p

  pub nonterminal-IsMove :
      (nt : String)
      → all_same_nonterminal s n none info.instructions ≡ some nt
      → IsMove (split_nonterminal n info nt)
  unfolding lookup
  nonterminal-IsMove nt h = (
    refl,
    λ i x m space sat. (
      (new_node after (n % 8) none info.instructions).1,
      refl,
      m,
      Aligned-next n s info.instructions p 1 (suc p) (omega arith) aligned (λ j k.
          let (y, e) = all_same_nonterminal-eq-some s n info.instructions nt j h k in
          (nonterminal y, e, refl)),
    ),
  )

  -- no decider and no nonterminal at the position
  pub plain-width :
      (i : ℕ) (b : BitInfo)
      → some_funky_spot s n info.instructions ≡ false
      → Elem i info.instructions
      → get_elem? (s i) n ≡ some b
      → width b ≡ 1
  unfolding some_funky_spot
  plain-width i b h m e =
      let f =
        some_at-false s n (λ c. is_nonterminal c || is_operand_decider c) info.instructions i h m in
      ones b (rw e at f)
    where
      ones : (b : BitInfo) → (is_nonterminal b || is_operand_decider b) ≡ false → width b ≡ 1
      ones (one_or_zero c) h = refl
      ones (dont_care c) h = refl
      ones (nonterminal c) h = cc
      ones (operand c) h = cc

  module _ (fresh : IsFresh info) (plain : some_funky_spot s n info.instructions ≡ false)
      (on : (i : ℕ) → Elem i info.instructions → n < length (s i)) where
    next-Aligned :
        (l : List ℕ)
        → ((i : ℕ) → Elem i l → Elem i info.instructions)
        → (p' : ℕ) → p' ≡ p + 1
        → Aligned (n + 1) s l p'
    next-Aligned l sub p' e =
        Aligned-next n s l p 1 p' e (Aligned-some n s info.instructions l p sub aligned) (λ i m.
          let (b, g) = get_elem?-lt n (s i) (on i (sub i m)) in
          (b, g, plain-width i b plain (sub i m) g))

    -- with no other bit at the position
    bits-IsSplit :
        (info' : Info) (kids : List (Token × Info))
        → info'.nt ≡ none
        → info'.operand_decider ≡ none
        → info'.back_split_pos ≡ none
        → those_at s n is_other info.instructions ≡ []
        → AreNodes kids
            (those_at s n (has_value true) info.instructions)
            (those_at s n (has_value false) info.instructions)
        → IsSplit sp s info' kids (n + 1) info.instructions p
    bits-IsSplit info' kids nt od back rest nodes i x m space sat =
        subst (Reaches s kids (n + 1) i) (choose-eq x p (λ t. has_kid t kids) info' back nt od) (
          bits-Reaches s n (n + 1) info.instructions p (suc p) kids i x nodes
            (λ v.
              next-Aligned _ (λ j k. (bits_at s n info.instructions v j k).0) (suc p) (omega arith))
            (aligned.position i m) sat (bit-cases s n info.instructions i m (on i m) rest))

    both_nodes :
        (ones zeros : List ℕ)
        → those_at s n (has_value true) info.instructions ≡ ones
        → those_at s n (has_value false) info.instructions ≡ zeros
        → those_at s n is_other info.instructions ≡ []
        → IsMove (
            split
              (record info { decider_bits = 1 })
              (zeros_node (n % 8) zeros ∷ ones_node (n % 8) ones ∷ [])
              (n + 1))
    both_nodes ones zeros e f g = (
      refl,
      bits-IsSplit (record info { decider_bits = 1 })
          (zeros_node (n % 8) zeros ∷ ones_node (n % 8) ones ∷ []) fresh.nt fresh.od fresh.back g
          (two-AreNodes (n % 8) ones zeros _ _ e f),
    )

    pub split_bits-IsMove :
        (ones zeros others : List ℕ)
        → those_at s n (has_value true) info.instructions ≡ ones
        → those_at s n (has_value false) info.instructions ≡ zeros
        → those_at s n is_other info.instructions ≡ others
        → IsMove (split_bits n info (ones, zeros, others))
    unfolding lookup
    split_bits-IsMove ones zeros (o ∷ others) e f g =
        next-Aligned info.instructions (λ i m. m) (p + 1) refl
    split_bits-IsMove (o ∷ ones) [] [] e f g = (
      refl,
      bits-IsSplit (record info { decider_bits = 1 }) (ones_node (n % 8) (o ∷ ones) ∷ []) fresh.nt
          fresh.od fresh.back g
          (
            λ i m. ((ones_node (n % 8) (o ∷ ones)).1, refl, sym e),
            λ i m. elim (subst (Elem i) f m) [ ],
          ),
    )
    split_bits-IsMove [] (z ∷ zeros) [] e f g = (
      refl,
      bits-IsSplit (record info { decider_bits = 1 }) (zeros_node (n % 8) (z ∷ zeros) ∷ []) fresh.nt
          fresh.od fresh.back g
          (
            λ i m. elim (subst (Elem i) e m) [ ],
            λ i m. ((zeros_node (n % 8) (z ∷ zeros)).1, refl, sym f),
          ),
    )
    split_bits-IsMove [] [] [] e f g = both_nodes [] [] e f g
    split_bits-IsMove (o ∷ ones) (z ∷ zeros) [] e f g = both_nodes (o ∷ ones) (z ∷ zeros) e f g

  -- One bit of an earlier position, for all of the instructions.
  back-Reaches :
      (q i : ℕ) (x : Input) (ones zeros : List ℕ) (p' : ℕ)
      → q < n
      → those_at s q (has_value true) info.instructions ≡ ones
      → those_at s q (has_value false) info.instructions ≡ zeros
      → those_at s q is_other info.instructions ≡ []
      → Elem i info.instructions
      → Satisfies x 0 (s i)
      → p' ≡ first_real_bits s q info.instructions
      → Reaches s
          (zeros_node ((n - 1) % 8) zeros ∷ ones_node ((n - 1) % 8) ones ∷ [])
          n
          i
          (bit (x.bit_at p'), p)
  back-Reaches q i x ones zeros p' lt e f g m sat at =
      bits-Reaches s q n info.instructions p' p _ i x
        (two-AreNodes ((n - 1) % 8) ones zeros _ _ e f)
        (λ v.
          Aligned-some n s info.instructions _ p (λ j k. (bits_at s q info.instructions v j k).0)
            aligned)
        (agrees info.instructions (λ j k. k) m ∙ sym at) sat
        (bit-cases s q info.instructions i m (omega (arith, aligned.reach i m)) g)
    where
      agrees :
          (l : List ℕ)
          → ((j : ℕ) → Elem j l → Elem j info.instructions)
          → Elem i l
          → real_bits q (s i) ≡ first_real_bits s q l
      agrees [] sub k = elim k [ ]
      agrees (j ∷ l) sub k = aligned.agree i j q m (sub j (inl refl)) (omega arith)

  pub back_split_graph-IsMove :
      (q : ℕ) (mv : Move) → IsFresh info → q < n → back_split_graph s n info q ≡ ok mv → IsMove mv
  unfolding back_split_graph partition_nodes
  back_split_graph-IsMove q mv fresh lt h =
      parts (those_at s q (has_value true) info.instructions)
        (those_at s q (has_value false) info.instructions) (those_at s q is_other info.instructions)
        refl refl refl h
    where
      ok_inj : {y : Move} (x : Move) → ok x ≡ ok y → x ≡ y
      ok_inj x h = ground arith

      parts :
          (ones zeros others : List ℕ)
          → those_at s q (has_value true) info.instructions ≡ ones
          → those_at s q (has_value false) info.instructions ≡ zeros
          → those_at s q is_other info.instructions ≡ others
          → back_parts s n info q (ones, zeros, others) ≡ ok mv
          → IsMove mv
      parts ones zeros (o ∷ others) e f g h = cc
      parts ones [] [] e f g h = cc
      parts [] (z ∷ zeros) [] e f g h = cc
      parts (o ∷ ones) (z ∷ zeros) [] e f g h =
          let info' : Info = record info {
            decider_bits = 1;
            back_split_pos = some (first_real_bits s q info.instructions);
          } in
          let kids =
            zeros_node ((n - 1) % 8) (z ∷ zeros) ∷ ones_node ((n - 1) % 8) (o ∷ ones) ∷ [] in
          let same : split info' kids n ≡ mv = ok_inj (split info' kids n) h in
          subst IsMove same (
            refl,
            λ i x m space sat.
                subst (Reaches s kids n i)
                  (choose-eq x p (λ t. has_kid t kids) info' refl fresh.nt fresh.od)
                  (back-Reaches q i x (o ∷ ones) (z ∷ zeros) (first_real_bits s q info.instructions)
                    lt e f g m sat refl),
          )
