-- ===== src/Tests/Rules.antt =====
-- Two rules of a nonterminal of the encoder.
use xed.Base.{◌≡◌, ◌↔◌, refl, some, none, [], ◌∷◌, nat_eq, list_eq, string_eq, Elem}
use xed.Base.Dict.{lookup}
use xed.Cdict.{Tuple, Space, Cdict}
use xed.Cdict.Index.{IsIndexed}
use xed.Encoder.{Rule, capture_cnames, work}
use xed.Encoder.Conflicts.{Applies, AreApart, work-Applies}
use xed.Tests.Samples.{widths}

abbrev memory : Rule
memory = record { cdict = ("MOD3", 0 ∷ []) ∷ []; number = 1 }

abbrev register : Rule
register = record { cdict = ("REG", 5 ∷ []) ∷ ("MOD3", 1 ∷ []) ∷ []; number = 2 }

abbrev space : Space
space = ("REG", 5 ∷ 7 ∷ []) ∷ ("MOD3", 0 ∷ 1 ∷ []) ∷ []

abbrev vector : Cdict Rule
vector = record {
  cnames = "MOD3" ∷ "REG" ∷ [];
  rule = none;
  op_widths = widths;
  tuple2rule = (0 ∷ 5 ∷ [], memory) ∷ (0 ∷ 7 ∷ [], memory) ∷ (1 ∷ 5 ∷ [], register) ∷ [];
  tuple2int = (0 ∷ 5 ∷ [], 10) ∷ (0 ∷ 7 ∷ [], 14) ∷ (1 ∷ 5 ∷ [], 11) ∷ [];
  int2tuple = (10, 0 ∷ 5 ∷ []) ∷ (14, 0 ∷ 7 ∷ []) ∷ (11, 1 ∷ 5 ∷ []) ∷ [];
}

work-Applies_example :
    IsIndexed vector
    × AreApart space "MOD3" ("REG" ∷ []) (memory ∷ register ∷ [])
    × ((t : Tuple) (r : Rule)
        → (lookup t vector.tuple2rule ≡ some r)
          ↔ (Elem r (memory ∷ register ∷ []) × Applies space "MOD3" ("REG" ∷ []) r t))
work-Applies_example =
    work-Applies space widths (memory ∷ register ∷ []) "MOD3" ("REG" ∷ []) vector
      (unfold capture_cnames in refl) (unfold work in refl)
