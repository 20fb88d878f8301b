-- ===== src/Graph.antt =====
-- pysrc/generator.py, from `bit_info_t` to `build_graph`: the decision graph over the patterns of one
-- nonterminal. Here are the patterns, the nodes and the tests on a position of the patterns.
--
-- The graph's instructions are shared and their patterns are rearranged in place, so an instruction is
-- its number here, and the patterns stand in a store. The numbers of the nodes, the physical positions
-- `pbit` of bits, and all printing are left out.
pub mod Rearrange
pub mod Partition
pub mod Build
pub mod Read
pub mod Slots
pub mod Kept
pub mod Placed
pub mod Splattered
pub mod Steps
pub mod Kids
pub mod Splits
pub mod Choices
pub mod Moves
pub mod Correct
pub mod Sizes
pub mod Falls
pub mod Fuel
pub mod Ends
use xed.Base.{
  ℕ, zero, suc, ◌+◌, ◌≡◌, ◌↔◌, refl, ap, String, Bool, true, false, not, ◌&&◌, ◌||◌, Option, none,
  some, List, [], ◌∷◌, ◌++◌, arith, if◌then◌else◌, eqb, eqb_iff, Eq, get_elem?, length, string_eq,
  leb,
}
use xed.Base.Dict.{Dict}

-- an operand decider, such as `MOD!=3`: its text, token, whether the test is `=`, and the value
pub record Decider : Type 0 where
  pub value : String
  pub token : String
  pub is_eq : Bool
  pub requirement : ℕ

-- `bit_info_t`, with a constructor for each `btype`
pub data BitInfo : Type 0 where
  one_or_zero : Bool → BitInfo
  dont_care : String → BitInfo
  operand : Decider → BitInfo
  nonterminal : String → BitInfo

abbrev pub is_operand_decider : BitInfo → Bool
is_operand_decider (operand od) = true
is_operand_decider (one_or_zero b) = false
is_operand_decider (dont_care x) = false
is_operand_decider (nonterminal x) = false

abbrev pub is_nonterminal : BitInfo → Bool
is_nonterminal (nonterminal x) = true
is_nonterminal (one_or_zero b) = false
is_nonterminal (dont_care x) = false
is_nonterminal (operand od) = false

abbrev pub is_dont_care : BitInfo → Bool
is_dont_care (dont_care x) = true
is_dont_care (one_or_zero b) = false
is_dont_care (operand od) = false
is_dont_care (nonterminal x) = false

abbrev pub is_one_or_zero : BitInfo → Bool
is_one_or_zero (one_or_zero b) = true
is_one_or_zero (dont_care x) = false
is_one_or_zero (operand od) = false
is_one_or_zero (nonterminal x) = false

-- `bit.value == '1'` and `bit.value == '0'`
abbrev pub has_value : Bool → BitInfo → Bool
has_value v (one_or_zero b) = if v then b else not b
has_value v (dont_care x) = false
has_value v (operand od) = false
has_value v (nonterminal x) = false

-- neither
abbrev pub is_other : BitInfo → Bool
is_other b = not (has_value false b) && not (has_value true b)

-- `__eq__`: the same text and the same type
unfoldable pub same_bit : BitInfo → BitInfo → Bool
same_bit (one_or_zero a) b = has_value a b
same_bit (dont_care x) (dont_care y) = string_eq.beq x y
same_bit (operand o) (operand p) = string_eq.beq o.value p.value
same_bit (nonterminal x) (nonterminal y) = string_eq.beq x y
same_bit a b = false

-- the patterns `ii.ipattern.bits` of the instructions
abbrev pub Store : Type 0
Store = ℕ → List BitInfo

abbrev pub update : ℕ → List BitInfo → Store → Store
update i bits s = λ j. if eqb j i then bits else s j

-- the keys of a node's `next`: '0' and '1', '-' after a nonterminal, 'other', and a value
pub data Token : Type 0 where
  bit : Bool → Token
  after : Token
  other : Token
  value : ℕ → Token

abbrev pub token_beq : Token → Token → Bool
token_beq (bit a) (bit b) = if a then b else not b
token_beq after after = true
token_beq other other = true
token_beq (value m) (value n) = eqb m n
token_beq s t = false

pub token_beq_iff : (s t : Token) → (token_beq s t ≡ true) ↔ (s ≡ t)
token_beq_iff (bit true) (bit true) = (λ e. refl, λ e. refl)
token_beq_iff (bit true) (bit false) = ground arith
token_beq_iff (bit false) (bit true) = ground arith
token_beq_iff (bit false) (bit false) = (λ e. refl, λ e. refl)
token_beq_iff after after = (λ e. refl, λ e. refl)
token_beq_iff other other = (λ e. refl, λ e. refl)
token_beq_iff (value m) (value n) = ground (arith, eqb_iff m n)
token_beq_iff s t = ground arith

instance abbrev pub token_eq : Eq Token
token_eq = record { beq = token_beq; beq_iff = token_beq_iff }

-- the fields of a `graph_node` that the building sets, `next` apart
pub record Info : Type 0 where
  pub token : Option Token
  pub instructions : List ℕ
  pub bitpos_mod8 : ℕ
  pub decider_bits : ℕ
  pub skipped_bits : ℕ
  pub nt : Option String
  pub operand_decider : Option Decider
  pub back_split_pos : Option ℕ
  pub trimmed_values : Option (List ℕ)
  pub child_od_key_values : List ℕ

mutual
  pub data Node : Type 0 where
    node : Info → Next → Node

  pub data Next : Type 0 where
    end : Next
    edge : Token → Node → Next → Next

-- `new_node`, with the instructions that it is given
abbrev pub new_node : Token → ℕ → Option (List ℕ) → List ℕ → Token × Info
new_node t mod8 trimmed instructions = (
  t,
  record {
    token = some t;
    instructions = instructions;
    bitpos_mod8 = mod8;
    decider_bits = 0;
    skipped_bits = 0;
    nt = none;
    operand_decider = none;
    back_split_pos = none;
    trimmed_values = trimmed;
    child_od_key_values = [];
  },
)

abbrev pub decider_of : Option BitInfo → Option Decider
decider_of none = none
decider_of (some (operand od)) = some od
decider_of (some (one_or_zero b)) = none
decider_of (some (dont_care x)) = none
decider_of (some (nonterminal x)) = none

abbrev pub nonterminal_of : Option BitInfo → Option String
nonterminal_of none = none
nonterminal_of (some (nonterminal x)) = some x
nonterminal_of (some (one_or_zero b)) = none
nonterminal_of (some (dont_care x)) = none
nonterminal_of (some (operand od)) = none

-- a test on a bit, which fails past the end of the pattern
abbrev pub test_at : (BitInfo → Bool) → Option BitInfo → Bool
test_at test none = false
test_at test (some b) = test b

module _ (s : Store) (bitpos : ℕ) where
  -- The loops keep the first decider or nonterminal in `last`.
  unfoldable pub all_same_operand_decider : Option Decider → List ℕ → Option Decider
  all_same_operand_decider last [] = last
  all_same_operand_decider last (i ∷ ilist) =
      let first = λ (od : Decider). all_same_operand_decider (some od) ilist in
      elim (decider_of (get_elem? (s i) bitpos)) [
        | none ↦ none
        | some od ↦ elim last [
          | none ↦ first od
          | some l ↦ if string_eq.beq l.token od.token then first l else none
        ]
      ]

  unfoldable pub all_same_nonterminal : Option String → List ℕ → Option String
  all_same_nonterminal last [] = last
  all_same_nonterminal last (i ∷ ilist) =
      let first = λ (nt : String). all_same_nonterminal (some nt) ilist in
      elim (nonterminal_of (get_elem? (s i) bitpos)) [
        | none ↦ none
        | some nt ↦ elim last [
          | none ↦ first nt
          | some l ↦ if string_eq.beq l nt then first l else none
        ]
      ]

  -- whether some, or every, instruction has such a bit at the position
  unfoldable pub some_at : (BitInfo → Bool) → List ℕ → Bool
  some_at test [] = false
  some_at test (i ∷ ilist) =
      let rest = some_at test ilist in if test_at test (get_elem? (s i) bitpos) then true else rest

  -- the instructions that have such a bit
  unfoldable pub those_at : (BitInfo → Bool) → List ℕ → List ℕ
  those_at test [] = []
  those_at test (i ∷ ilist) =
      let rest = those_at test ilist in
      if test_at test (get_elem? (s i) bitpos) then i ∷ rest else rest

  unfoldable pub some_funky_spot : List ℕ → Bool
  unfolding some_at
  some_funky_spot ilist = some_at (λ b. is_nonterminal b || is_operand_decider b) ilist

  unfoldable pub no_dont_cares : List ℕ → Bool
  unfolding some_at
  no_dont_cares ilist = not (some_at is_dont_care ilist)

  unfoldable pub some_different : List ℕ → Bool
  unfolding some_at
  some_different ilist = some_at (has_value false) ilist && some_at (has_value true) ilist

  -- the ones, the zeros and the others
  unfoldable pub partition_nodes : List ℕ → List ℕ × List ℕ × List ℕ
  unfolding those_at
  partition_nodes ilist =
      (those_at (has_value true) ilist, those_at (has_value false) ilist, those_at is_other ilist)

-- 1, 0 and -1 in the source
pub data Progress : Type 0 where
  all_done not_done some_done : Progress

abbrev pub progress : Bool → Bool → Progress
progress true true = some_done
progress true false = all_done
progress false notdone = not_done

module _ (s : Store) (bitpos : ℕ) where
  unfoldable pub at_end_from : Bool → Bool → List ℕ → Progress
  at_end_from done notdone [] = progress done notdone
  at_end_from done notdone (ii ∷ ilist) =
      let past = leb (length (s ii)) bitpos in
      at_end_from (done || past) (notdone || not past) ilist

  unfoldable pub at_end_of_instructions : List ℕ → Progress
  unfolding at_end_from
  at_end_of_instructions ilist = at_end_from false false ilist

-- The search starts below `bitpos`.
unfoldable pub scan_backwards_for_distinguishing_bit : Store → List ℕ → ℕ → Option ℕ
unfolding no_dont_cares some_different
scan_backwards_for_distinguishing_bit s instructions zero = none
scan_backwards_for_distinguishing_bit s instructions (suc b) =
    let lower = scan_backwards_for_distinguishing_bit s instructions b in
    if no_dont_cares s b instructions && some_different s b instructions then some b else lower

-- the bits of the first positions that are not operand deciders
unfoldable pub real_bits : ℕ → List BitInfo → ℕ
real_bits zero bits = 0
real_bits (suc n) [] = 0
real_bits (suc n) (b ∷ bits) = (if is_operand_decider b then 0 else 1) + real_bits n bits
