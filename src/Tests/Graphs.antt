-- ===== src/Tests/Graphs.antt =====
-- The graph of four patterns of one nonterminal.
use mathlib.Core.Path.{subst}
use xed.Base.{
  ℕ, ◌≤◌, ◌≡◌, ◌≢◌, refl, inl, inr, Bool, true, false, none, some, List, [], ◌∷◌, ok, err,
  out_of_fuel, eqb, if◌then◌else◌, nat_eq, string_eq, ◌>>=◌, Result, Elem, IsUnique, length, arith,
  Bool-cases,
}
use xed.Base.Dict.{insert, lookup}
use xed.Graph.{BitInfo, one_or_zero, dont_care, operand, Store, token_eq, Node, node, end}
use xed.Graph.Partition.{Spaces}
use xed.Graph.Build.{build_graph, root_info}
use xed.Graph.Read.{Input, Satisfies, InSpace, read}
use xed.Graph.Correct.{build_graph-Decides}
use xed.Graph.Sizes.{HasSets}
use xed.Graph.Ends.{build_graph-Ends}

abbrev mod_eq_3 : BitInfo
mod_eq_3 = operand (record { value = "MOD=3"; token = "MOD"; is_eq = true; requirement = 3 })

abbrev mod_ne_3 : BitInfo
mod_ne_3 = operand (record { value = "MOD!=3"; token = "MOD"; is_eq = false; requirement = 3 })

abbrev i0 : BitInfo
i0 = one_or_zero false

abbrev i1 : BitInfo
i1 = one_or_zero true

-- 0 r MOD=3, 0 r MOD!=3, 1 0, 1 1
abbrev patterns : Store
patterns i =
    if eqb i 0
    then i0 ∷ dont_care "r" ∷ mod_eq_3 ∷ []
    else if eqb i 1
    then i0 ∷ mod_ne_3 ∷ dont_care "r" ∷ []
    else if eqb i 2
    then i1 ∷ i0 ∷ []
    else i1 ∷ i1 ∷ []

abbrev spaces : Spaces
spaces = record { state_space = ("MOD", 0 ∷ 1 ∷ 2 ∷ 3 ∷ []) ∷ []; operand_storage = [] }

abbrev arrives : Input → Result (List ℕ)
arrives x = build_graph spaces 20 patterns (0 ∷ 1 ∷ 2 ∷ 3 ∷ []) >>= λ r. elim (read x 0 (r.0)) [
  | some l ↦ ok l
  | none ↦ err out_of_fuel
]

abbrev input : Bool → Bool → ℕ → Input
input a b m = record { bit_at = λ p. if eqb p 0 then a else b; operand_value = λ t. m }

graph_run :
    (arrives (input false true 3) ≡ ok (0 ∷ []))
    × (arrives (input false true 2) ≡ ok (1 ∷ []))
    × (arrives (input true true 2) ≡ ok (3 ∷ []))
unfolding build_graph insert read
graph_run = (refl, refl, refl)

-- the graph, and the patterns as they were rearranged
abbrev result_of : Result (Node × Store) → Node × Store
result_of (ok r) = r
result_of (err e) = (node (root_info spaces []) end, patterns)

abbrev built : Node × Store
unfolding build_graph insert
built = result_of (build_graph spaces 20 patterns (0 ∷ 1 ∷ 2 ∷ 3 ∷ []))

built_run : build_graph spaces 20 patterns (0 ∷ 1 ∷ 2 ∷ 3 ∷ []) ≡ ok built
unfolding build_graph insert
built_run = refl

build_graph-Decides_example :
    ((i : ℕ) (x : Input)
      → Elem i (0 ∷ 1 ∷ 2 ∷ 3 ∷ [])
      → InSpace spaces x
      → Satisfies x 0 (patterns i)
      → read x 0 built.0 ≡ some (i ∷ []))
    × ((i j : ℕ) (x : Input)
        → Elem i (0 ∷ 1 ∷ 2 ∷ 3 ∷ [])
        → Elem j (0 ∷ 1 ∷ 2 ∷ 3 ∷ [])
        → InSpace spaces x
        → Satisfies x 0 (patterns i)
        → Satisfies x 0 (patterns j)
        → i ≡ j)
build_graph-Decides_example =
    build_graph-Decides spaces 20 patterns built.1 (0 ∷ 1 ∷ 2 ∷ 3 ∷ []) built.0 built_run

spaces-HasSets : HasSets spaces
unfolding lookup
spaces-HasSets token all h = elim (Bool-cases (string_eq.beq "MOD" token)) [
  | inl e ↦ subst IsUnique (some_eq (rw (lookup, e) at h)) (omega arith)
  | inr e ↦ absurd (cc (rw (lookup, e) at h))
]
  where
    some_eq : {a b : List ℕ} → some a ≡ some b → a ≡ b
    some_eq h = cc

patterns-IsShort : (i : ℕ) → length (patterns i) ≤ 3
patterns-IsShort i = ground arith

build_graph-Ends_example : build_graph spaces 20 patterns (0 ∷ 1 ∷ 2 ∷ 3 ∷ []) ≢ err out_of_fuel
build_graph-Ends_example =
    build_graph-Ends spaces 3 spaces-HasSets 20 patterns (0 ∷ 1 ∷ 2 ∷ 3 ∷ []) (λ e. cc (e))
      patterns-IsShort (omega arith)
