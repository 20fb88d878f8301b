-- ===== src/Tests/Maps.antt =====
-- A map with two patterns at one opcode and none at the others.
use xed.Base.{
  ℕ, ◌≡◌, refl, inl, String, List, [], ◌∷◌, ok, some, none, eqb, nat_eq, string_eq, if◌then◌else◌,
  range_from,
}
use xed.Base.Dict.{Dict}
use xed.Pattern.{Pattern}
use xed.Pattern.Maps.{Row, IsFull, get_constraints_lu_table, get_constraints_lu_table-IsFull}
use xed.Tests.Samples.{widths}
use xed.Tests.Patterns.{load, store, both, space}

abbrev patterns_at : String → ℕ → List Pattern
patterns_at insn_map opcode = if eqb opcode 144 then load ∷ store ∷ [] else []

rows : List ℕ → Row
rows [] = []
rows (o ∷ os) = (o, (if eqb o 144 then some both else none)) ∷ rows os

abbrev map_table : Dict String Row
unfolding rows
map_table = ("LEGACY_MAP0", rows (range_from 0 256)) ∷ []

table_run :
    get_constraints_lu_table patterns_at space 0 widths ("LEGACY_MAP0" ∷ [])
    ≡ ok (map_table, "MOD3" ∷ "REG" ∷ [])
unfolding get_constraints_lu_table rows
table_run = refl

get_constraints_lu_table-IsFull_example : IsFull patterns_at space 0 widths "LEGACY_MAP0" map_table
get_constraints_lu_table-IsFull_example =
    get_constraints_lu_table-IsFull patterns_at space 0 widths ("LEGACY_MAP0" ∷ []) map_table
      ("MOD3" ∷ "REG" ∷ []) "LEGACY_MAP0" table_run (inl refl)
