-- ===== src/Graph/Rearrange.antt =====
-- Where some patterns have an operand decider and others do not, deciders are moved forward
-- (pysrc/generator.py, `move_candidate_od_to_front` to `rearrange_at_conflict`).
use xed.Base.{
  ℕ, zero, suc, String, Bool, true, false, not, ◌&&◌, ◌||◌, Option, none, some, List, [], ◌∷◌, ◌++◌,
  if◌then◌else◌, contains, string_eq, get_elem?, take, drop, is_some,
}
use xed.Graph.{
  Decider, BitInfo, Store, update, is_operand_decider, is_nonterminal, is_one_or_zero, same_bit,
  decider_of, test_at, all_same_operand_decider,
}

-- whether the bit is a decider on the token
abbrev pub decides : String → Option Decider → Bool
decides t none = false
decides t (some od) = string_eq.beq od.token t

-- The last decider on the token is taken out.
unfoldable pub pull : String → List BitInfo → Option (BitInfo × List BitInfo)
pull candidate_od [] = none
pull candidate_od (b ∷ bits) = elim (pull candidate_od bits) [
  | some (z, rest) ↦ some (z, b ∷ rest)
  | none ↦ if decides candidate_od (decider_of (some b)) then some (b, bits) else none
]

-- It comes to stand at the position: the new pattern, or none where the token is not found.
unfoldable pub move_candidate_od_to_front : ℕ → String → List BitInfo → Option (List BitInfo)
unfolding pull
move_candidate_od_to_front bitpos candidate_od bits = elim (drop bitpos bits) [
  | [] ↦ none
  | x ∷ later ↦ elim (pull candidate_od later) [
    | none ↦ none
    | some (z, rest) ↦ some (take bitpos bits ++ z ∷ x ∷ rest)
  ]
]

-- whether a decider can be moved to the position
unfoldable pub is_repleaceable : ℕ → List BitInfo → Bool
unfolding same_bit
is_repleaceable zero bit_list = true
is_repleaceable (suc p) bit_list =
    let curr = get_elem? bit_list (suc p) in
    let prev = get_elem? bit_list p in
    if test_at is_operand_decider curr || test_at is_nonterminal curr
    then true
    else not (test_at (λ c. test_at (same_bit c) prev) curr)
      && not (test_at is_one_or_zero curr && test_at is_one_or_zero prev)

-- the tokens of the deciders, in the order of their first occurrence
unfoldable pub tokens_of : List BitInfo → List String → List String
tokens_of [] seen = seen
tokens_of (b ∷ bits) seen = tokens_of bits (elim (decider_of (some b)) [
  | none ↦ seen
  | some od ↦ if contains od.token seen then seen else seen ++ od.token ∷ []
])

module _ (bitpos : ℕ) where
  unfoldable pub candidate_ods : Store → List ℕ → List String → List String
  unfolding tokens_of
  candidate_ods s [] seen = seen
  candidate_ods s (i ∷ ilist) seen = candidate_ods s ilist (tokens_of (drop bitpos (s i)) seen)

  -- One candidate, in all patterns: whether to retry with the next candidate. A pattern where nothing
  -- may be moved is passed over.
  unfoldable pub try_candidate : String → List ℕ → Store → Bool × Store
  unfolding move_candidate_od_to_front is_repleaceable
  try_candidate candidate_od [] s = (false, s)
  try_candidate candidate_od (i ∷ ilist) s =
      let pass = λ (t : Store). try_candidate candidate_od ilist t in
      if decides candidate_od (decider_of (get_elem? (s i) bitpos))
      then pass s
      else if is_repleaceable bitpos (s i)
      then elim (move_candidate_od_to_front bitpos candidate_od (s i)) [
        | some bits ↦ pass (update i bits s)
        | none ↦ (true, s)
      ]
      else pass s

  unfoldable pub try_candidates : List String → List ℕ → Store → Bool × Store
  unfolding try_candidate
  try_candidates [] ilist s = (true, s)
  try_candidates (c ∷ cs) ilist s =
      let next = λ (t : Store). try_candidates cs ilist t in
      let (retry, t) = try_candidate c ilist s in if retry then next t else (false, t)

  -- The last check is that of `all_same_operand_decider`. What was moved stays moved on a failure.
  unfoldable pub rearrange_at_conflict : List ℕ → Store → Bool × Store
  unfolding candidate_ods try_candidates all_same_operand_decider
  rearrange_at_conflict ilist s = elim (candidate_ods s ilist []) [
    | [] ↦ (false, s)
    | c ∷ cs ↦
        let (retry, t) = try_candidates (c ∷ cs) ilist s in
        if retry then (false, t) else (is_some (all_same_operand_decider t bitpos none ilist), t)
  ]
