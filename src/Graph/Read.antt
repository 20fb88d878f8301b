-- ===== src/Graph/Read.antt =====
-- What the graph is for: the patterns that an input meets, and the way that an input takes through the
-- nodes. The input has a bit for each real position (a nonterminal takes one position) and a value for
-- each operand.
use xed.Base.{
  ℕ, suc, ◌+◌, ◌≡◌, ◌≢◌, String, Bool, true, false, Option, none, some, List, [], ◌∷◌,
  if◌then◌else◌, Elem, ok,
}
use xed.Graph.{
  Decider, BitInfo, one_or_zero, dont_care, operand, nonterminal, Token, bit, after, other, value,
  token_eq, Info, Node, Next, node, end, edge,
}
use xed.Graph.Partition.{Spaces, all_values_for}

pub record Input : Type 0 where
  pub bit_at : ℕ → Bool
  pub operand_value : String → ℕ

abbrev pub Decided : Bool → ℕ → ℕ → Type 0
Decided true v r = v ≡ r
Decided false v r = v ≢ r

abbrev pub Meets : Input → ℕ → BitInfo → Type 0
Meets x pos (one_or_zero b) = x.bit_at pos ≡ b
Meets x pos (dont_care c) = Unit
Meets x pos (nonterminal c) = Unit
Meets x pos (operand od) = Decided od.is_eq (x.operand_value od.token) od.requirement

-- the real position behind a bit
abbrev pub behind : BitInfo → ℕ → ℕ
behind (operand od) pos = pos
behind (one_or_zero b) pos = suc pos
behind (dont_care c) pos = suc pos
behind (nonterminal c) pos = suc pos

-- The input meets the pattern from a real position on.
abbrev pub Satisfies : Input → ℕ → List BitInfo → Type 0
Satisfies x pos [] = Unit
Satisfies x pos (b ∷ bits) = Meets x pos b × Satisfies x (behind b pos) bits

-- The operands have values that the generator knows of.
abbrev pub InSpace : Spaces → Input → Type 0
InSpace sp x =
    (token : String) (all : List ℕ)
    → all_values_for sp token ≡ ok all
    → Elem (x.operand_value token) all

abbrev pub has_edge : Token → Next → Bool
has_edge t end = false
has_edge t (edge k n next) = let rest = has_edge t next in if token_eq.beq k t then true else rest

-- the edge that an input takes from a node, and the position behind it
abbrev pub choose_bit : Input → ℕ → Option ℕ → Token × ℕ
choose_bit x pos none = (bit (x.bit_at pos), suc pos)
choose_bit x pos (some back) = (bit (x.bit_at back), pos)

abbrev pub choose_value : Input → ℕ → (Token → Bool) → Decider → Token × ℕ
choose_value x pos has od =
    let v = value (x.operand_value od.token) in (if has v then v else other, pos)

abbrev pub choose_at :
    Input → ℕ → (Token → Bool) → Option ℕ → Option String → Option Decider → Token × ℕ
choose_at x pos has back (some nt) od = (after, suc pos)
choose_at x pos has back none (some od) = choose_value x pos has od
choose_at x pos has back none none = choose_bit x pos back

abbrev pub choose : Input → ℕ → (Token → Bool) → Info → Token × ℕ
choose x pos has info = choose_at x pos has info.back_split_pos info.nt info.operand_decider

-- the instructions of the leaf where the input arrives, from a node at a position
unfoldable mutual
  pub read : Input → ℕ → Node → Option (List ℕ)
  read x pos (node info end) = some info.instructions
  read x pos (node info (edge k child next)) =
      let (t, pos') =
        choose x (pos + info.skipped_bits) (λ t. has_edge t (edge k child next)) info in
      follow x t pos' (edge k child next)

  pub follow : Input → Token → ℕ → Next → Option (List ℕ)
  follow x t pos end = none
  follow x t pos (edge k child next) =
      let here = read x pos child in
      let rest = follow x t pos next in if token_eq.beq k t then here else rest
