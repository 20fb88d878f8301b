-- ===== src/Graph/Build.antt =====
-- The building of the graph (pysrc/generator.py, `back_split_graph`, `build_sub_graph` and
-- `build_graph`). The position `n` that is looked at next is `bitpos + 1` of the source, which starts
-- with -1.
use xed.Base.{
  ℕ, zero, suc, ◌+◌, ◌-◌, ◌%◌, String, true, false, none, some, List, [], ◌∷◌, if◌then◌else◌,
  length, ltb, Result, ok, err, die, out_of_fuel, ◌>>=◌,
}
use xed.Graph.{
  Decider, Store, Token, Info, Node, Next, node, end, edge, bit, after, new_node,
  all_same_operand_decider, all_same_nonterminal, some_funky_spot, partition_nodes, Progress,
  at_end_of_instructions, scan_backwards_for_distinguishing_bit, real_bits, all_done, not_done,
  some_done,
}
use xed.Graph.Rearrange.{rearrange_at_conflict}
use xed.Graph.Partition.{Spaces, partition_by_required_values, need_to_splatter, splatter, nodes_of}

-- What is done at a position: the node is finished, the bit is skipped, or the node gets children,
-- which go on at a position.
pub data Move : Type 0 where
  finish : Move
  skip : Move
  split : Info → List (Token × Info) → ℕ → Move

-- the children for the zeros and the ones
abbrev pub zeros_node : ℕ → List ℕ → Token × Info
zeros_node mod8 zeros = new_node (bit false) mod8 none zeros

abbrev pub ones_node : ℕ → List ℕ → Token × Info
ones_node mod8 ones = new_node (bit true) mod8 none ones

abbrev pub first_real_bits : Store → ℕ → List ℕ → ℕ
first_real_bits s splitpos [] = 0
first_real_bits s splitpos (i ∷ instructions) = real_bits splitpos (s i)

-- some zeros and some ones, and nothing else
abbrev pub back_parts : Store → ℕ → Info → ℕ → List ℕ × List ℕ × List ℕ → Result Move
back_parts s n info splitpos (ones, zeros, o ∷ others) = err die
back_parts s n info splitpos (ones, [], []) = err die
back_parts s n info splitpos ([], z ∷ zeros, []) = err die
back_parts s n info splitpos (o ∷ ones, z ∷ zeros, []) = ok (
    split
      (record info {
        decider_bits = 1;
        back_split_pos = some (first_real_bits s splitpos info.instructions);
      })
      (zeros_node ((n - 1) % 8) (z ∷ zeros) ∷ ones_node ((n - 1) % 8) (o ∷ ones) ∷ []) n)

unfoldable pub back_split_graph : Store → ℕ → Info → ℕ → Result Move
unfolding partition_nodes real_bits
back_split_graph s n info splitpos =
    back_parts s n info splitpos (partition_nodes s splitpos info.instructions)

-- a back-split at the last distinguishing bit, or an error
unfoldable pub back_split_or_die : Store → ℕ → Info → Result Move
unfolding scan_backwards_for_distinguishing_bit back_split_graph
back_split_or_die s n info = elim (scan_backwards_for_distinguishing_bit s info.instructions n) [
  | none ↦ err die
  | some splitpos ↦ back_split_graph s n info splitpos
]

-- The source would create the same nodes for no instructions, and never end.
abbrev pub split_bits : ℕ → Info → List ℕ × List ℕ × List ℕ → Move
split_bits n info (ones, zeros, o ∷ others) = skip
split_bits n info (o ∷ ones, [], []) =
    split (record info { decider_bits = 1 }) (ones_node (n % 8) (o ∷ ones) ∷ []) (n + 1)
split_bits n info ([], z ∷ zeros, []) =
    split (record info { decider_bits = 1 }) (zeros_node (n % 8) (z ∷ zeros) ∷ []) (n + 1)
split_bits n info (ones, zeros, []) =
    split (record info { decider_bits = 1 })
      (zeros_node (n % 8) zeros ∷ ones_node (n % 8) ones ∷ []) (n + 1)

unfoldable pub split_operand : Spaces → Store → ℕ → Info → Decider → Result Move
unfolding partition_by_required_values need_to_splatter splatter
split_operand sp s n info od =
    partition_by_required_values sp s n od.token info.instructions >>= λ r.
    let (parts, values) = r in
    let all_parts = if need_to_splatter parts then splatter parts [] else parts in
    ok (
      split (record info { operand_decider = some od; child_od_key_values = values })
        (nodes_of (n % 8) all_parts) (n + 1))

abbrev pub split_nonterminal : ℕ → Info → String → Move
split_nonterminal n info nt =
    split (record info { nt = some nt }) (new_node after (n % 8) none info.instructions ∷ [])
      (n + 1)

module _ (sp : Spaces) (n : ℕ) (info : Info) where
  -- The loop runs at most twice: again after a rearrangement.
  unfoldable pub split_loop : ℕ → Store → Result (Store × Move)
  unfolding all_same_operand_decider all_same_nonterminal some_funky_spot rearrange_at_conflict
      back_split_or_die split_operand partition_nodes
  split_loop zero s = err die
  split_loop (suc rounds) s =
      let again = λ (t : Store). split_loop rounds t in
      elim (all_same_operand_decider s n none info.instructions) [
        | some od ↦ split_operand sp s n info od >>= λ mv. ok (s, mv)
        | none ↦ elim (all_same_nonterminal s n none info.instructions) [
          | some nt ↦ ok (s, split_nonterminal n info nt)
          | none ↦
              if some_funky_spot s n info.instructions
              then (let (fixed, t) = rearrange_at_conflict n info.instructions s in
                  if fixed then again t else (back_split_or_die t n info >>= λ mv. ok (t, mv)))
              else ok (s, split_bits n info (partition_nodes s n info.instructions))
        ]
      ]

  -- at the end of all, of none, or of some of the patterns
  abbrev pub step_at : Store → Progress → Result (Store × Move)
  step_at s all_done =
      if ltb 1 (length info.instructions)
      then (back_split_or_die s n info >>= λ mv. ok (s, mv))
      else ok (s, finish)
  step_at s some_done = back_split_or_die s n info >>= λ mv. ok (s, mv)
  step_at s not_done = split_loop 2 s

  unfoldable pub step : Store → Result (Store × Move)
  unfolding at_end_of_instructions back_split_or_die split_loop
  step s = step_at s (at_end_of_instructions s n info.instructions)

-- The children are built one after the other, in the order of `next`, on the same store.
unfoldable pub build_children :
    (Store → Info → Result (Node × Store)) → List (Token × Info) → Store → Result (Next × Store)
build_children build_child [] s = ok (end, s)
build_children build_child ((t, info) ∷ children) s = build_child s info >>= λ r.
    let (child, s1) = r in
    build_children build_child children s1 >>= λ q. let (next, s2) = q in ok (edge t child next, s2)

abbrev pub carry_out :
    (Store → Info → ℕ → ℕ → Result (Node × Store))
    → Info
    → ℕ
    → ℕ
    → Store × Move
    → Result (Node × Store)
carry_out build info n skipped (s, finish) =
    ok (node (record info { skipped_bits = skipped }) end, s)
carry_out build info n skipped (s, skip) = build s info (n + 1) (skipped + 1)
carry_out build info n skipped (s, split info' children n') =
    build_children (λ t child. build t child n' 0) children s >>= λ r.
    let (next, t) = r in ok (node (record info' { skipped_bits = skipped }) next, t)

module _ (sp : Spaces) where
  unfoldable pub build_sub_graph : ℕ → Store → Info → ℕ → ℕ → Result (Node × Store)
  unfolding step build_children
  build_sub_graph zero s info n skipped = err out_of_fuel
  build_sub_graph (suc fuel) s info n skipped =
      step sp n info s >>= carry_out (build_sub_graph fuel) info n skipped

  abbrev pub root_info : List ℕ → Info
  root_info ilist = record {
    token = none;
    instructions = ilist;
    bitpos_mod8 = 0;
    decider_bits = 0;
    skipped_bits = 0;
    nt = none;
    operand_decider = none;
    back_split_pos = none;
    trimmed_values = none;
    child_od_key_values = [];
  }

  unfoldable pub build_graph : ℕ → Store → List ℕ → Result (Node × Store)
  unfolding build_sub_graph
  build_graph fuel s ilist = build_sub_graph fuel s (root_info ilist) 0 0
