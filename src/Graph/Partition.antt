-- ===== src/Graph/Partition.antt =====
-- Splitting the instructions by the values of an operand (pysrc/generator.py,
-- `partition_by_required_values` and the part of `build_sub_graph` that follows its call).
use xed.Base.{
  ℕ, ◌^◌, String, Bool, false, not, ◌&&◌, ◌||◌, Option, none, some, List, [], ◌∷◌, ◌++◌,
  if◌then◌else◌, eqb, contains, string_eq, nat_eq, get_elem?, range_from, Result, ok, err, die,
  name_error, ◌>>=◌,
}
use xed.Base.Dict.{Dict, lookup, insert}
use xed.Graph.{Store, Token, other, value, decider_of, token_eq, Info, new_node}
use xed.Pattern.{any_of, all_of}

-- the part of `operand_field_t` that is read here
pub record Field : Type 0 where
  pub is_enum : Bool
  pub bitwidth : ℕ

pub record Spaces : Type 0 where
  pub state_space : Dict String (List ℕ)
  pub operand_storage : Dict String Field

-- an instruction in a part, with the values that are left to it by a `!=`
pub data Member : Type 0 where
  plain : ℕ → Member
  trimmed : List ℕ → ℕ → Member

abbrev pub Parts : Type 0
Parts = Dict Token (List Member)

abbrev pub or_nil : Option (List Member) → List Member
or_nil none = []
or_nil (some ms) = ms

-- `d[k] = [m]` or `d[k].append(m)`
abbrev pub append_to : Token → List Member → Parts → Parts
append_to k ms d = insert k (or_nil (lookup k d) ++ ms) d

-- the keys of `all_values`
unfoldable pub add_values : List ℕ → List ℕ → List ℕ
add_values [] all = all
add_values (v ∷ vs) all = add_values vs (if contains v all then all else all ++ v ∷ [])

-- `filter(lambda x: x != requirement, values)`
unfoldable pub without : ℕ → List ℕ → List ℕ
without r [] = []
without r (v ∷ vs) = let rest = without r vs in if eqb v r then rest else v ∷ rest

-- All values of an operand. That of an enumeration is asked for before it is assigned.
unfoldable pub all_values_for : Spaces → String → Result (List ℕ)
unfolding lookup
all_values_for sp token = elim (lookup token sp.state_space) [
  | some vs ↦ ok vs
  | none ↦ elim (lookup token sp.operand_storage) [
    | none ↦ err die
    | some osf ↦ if osf.is_enum then err name_error else ok (range_from 0 (2 ^ osf.bitwidth))
  ]
]

module _ (sp : Spaces) (s : Store) (bitpos : ℕ) (token : String) where
  -- the case `!=`
  unfoldable pub place_trimmed : ℕ → List ℕ → List ℕ → Parts × List ℕ → Result (Parts × List ℕ)
  unfolding insert lookup add_values
  place_trimmed ii all [] (d, values) = err die
  place_trimmed ii all (v ∷ vs) (d, values) =
      ok (append_to other (trimmed (v ∷ vs) ii ∷ []) d, add_values all values)

  unfoldable pub place : ℕ → Parts × List ℕ → Result (Parts × List ℕ)
  unfolding insert lookup add_values place_trimmed all_values_for without
  place ii (d, values) = elim (decider_of (get_elem? (s ii) bitpos)) [
    | none ↦ err die
    | some od ↦
        if not (string_eq.beq od.token token)
        then err die
        else if od.is_eq
        then ok (
          append_to (value od.requirement) (plain ii ∷ []) d,
          add_values (od.requirement ∷ []) values,
        )
        else (all_values_for sp od.token >>= λ all.
            place_trimmed ii all (without od.requirement all) (d, values))
  ]

  unfoldable pub place_all : List ℕ → Parts × List ℕ → Result (Parts × List ℕ)
  unfolding place
  place_all [] acc = ok acc
  place_all (ii ∷ instructions) acc = place ii acc >>= λ next. place_all instructions next

  unfoldable pub partition_by_required_values : List ℕ → Result (Parts × List ℕ)
  unfolding place_all
  partition_by_required_values instructions = place_all instructions ([], [])

-- `set(xs) == set(ys)`
unfoldable pub same_set : List ℕ → List ℕ → Bool
unfolding all_of
same_set xs ys = all_of (λ x. contains x ys) xs && all_of (λ y. contains y xs) ys

-- the lists of values of the members that have one
unfoldable pub trimmed_of : List Member → List (List ℕ)
trimmed_of [] = []
trimmed_of (plain i ∷ ms) = trimmed_of ms
trimmed_of (trimmed vs i ∷ ms) = vs ∷ trimmed_of ms

unfoldable pub all_trimmed : Parts → List (List ℕ)
unfolding trimmed_of
all_trimmed [] = []
all_trimmed ((k, ms) ∷ d) = trimmed_of ms ++ all_trimmed d

-- `scalar_values`
unfoldable pub scalar_values : Parts → List ℕ
scalar_values [] = []
scalar_values ((value v, ms) ∷ d) = v ∷ scalar_values d
scalar_values ((k, ms) ∷ d) = scalar_values d

-- The lists differ, or have a value that has a part of its own.
abbrev pub splatters : List (List ℕ) → List ℕ → Bool
splatters [] scalars = false
splatters (vs ∷ vss) scalars =
    any_of (λ ws. not (same_set ws vs)) vss || any_of (λ v. contains v scalars) vs

unfoldable pub need_to_splatter : Parts → Bool
unfolding all_trimmed scalar_values same_set any_of
need_to_splatter d = splatters (all_trimmed d) (scalar_values d)

unfoldable pub splatter_values : List ℕ → ℕ → Parts → Parts
unfolding insert lookup
splatter_values [] ii d = d
splatter_values (v ∷ vs) ii d = splatter_values vs ii (append_to (value v) (plain ii ∷ []) d)

-- A member is looked at where the source looks at the first of its part.
unfoldable pub splatter_members : Token → List Member → Parts → Parts
unfolding splatter_values
splatter_members k [] d = d
splatter_members k (plain i ∷ ms) d = splatter_members k ms (append_to k (plain i ∷ []) d)
splatter_members k (trimmed vs i ∷ ms) d = splatter_members k ms (splatter_values vs i d)

unfoldable pub splatter : Parts → Parts → Parts
unfolding splatter_members
splatter [] new_parts = new_parts
splatter ((k, ms) ∷ d) new_parts = splatter d (splatter_members k ms new_parts)

abbrev pub id_of : Member → ℕ
id_of (plain i) = i
id_of (trimmed vs i) = i

abbrev pub ids_of : List Member → List ℕ
ids_of [] = []
ids_of (m ∷ ms) = id_of m ∷ ids_of ms

-- The last list of values stays in the node.
abbrev pub last_trimmed : List Member → Option (List ℕ) → Option (List ℕ)
last_trimmed [] last = last
last_trimmed (plain i ∷ ms) last = last_trimmed ms last
last_trimmed (trimmed vs i ∷ ms) last = last_trimmed ms (some vs)

-- a node for each part
abbrev pub nodes_of : ℕ → Parts → List (Token × Info)
nodes_of mod8 [] = []
nodes_of mod8 ((k, ms) ∷ d) = new_node k mod8 (last_trimmed ms none) (ids_of ms) ∷ nodes_of mod8 d
