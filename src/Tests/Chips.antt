-- ===== src/Tests/Chips.antt =====
-- Chips and isa sets with a repeated name and with names of one side only.
use xed.Base.{◌≡◌, ◌≢◌, ◌↔◌, refl, String, List, [], ◌∷◌, true, false, Elem, string_eq}
use xed.Base.Dict.{insert}
use xed.Pattern.{any_of}
use xed.Chips.{
  uniquify_list, check_in_chip_hierarchy_not_instructions, check_in_instructions_not_chip_hierarchy,
  get_chip_supports_feature_dict, checks-Elem,
}

abbrev of_chips : List String
of_chips = "SSE" ∷ "INVALID" ∷ "AVX" ∷ []

abbrev of_instructions : List String
of_instructions = "AVX" ∷ "APX_F" ∷ "AVX" ∷ []

uniquify_list_run : uniquify_list of_instructions ≡ "AVX" ∷ "APX_F" ∷ []
unfolding uniquify_list
uniquify_list_run = refl

checks_run :
    (check_in_chip_hierarchy_not_instructions of_chips of_instructions ≡ "SSE" ∷ [])
    × (check_in_instructions_not_chip_hierarchy of_chips of_instructions ≡ "APX_F" ∷ [])
unfolding check_in_chip_hierarchy_not_instructions check_in_instructions_not_chip_hierarchy
checks_run = (refl, refl)

supports_run :
    get_chip_supports_feature_dict "AVX" (("P4", "SSE" ∷ []) ∷ ("SPR", "SSE" ∷ "AVX512F" ∷ []) ∷ [])
    ≡ ("P4", false) ∷ ("SPR", true) ∷ []
unfolding get_chip_supports_feature_dict insert any_of
supports_run = refl

abbrev sse : String
sse = "SSE"

abbrev invalid : String
invalid = "INVALID"

checks-Elem_example :
    (Elem sse (check_in_chip_hierarchy_not_instructions of_chips of_instructions)
      ↔ (Elem sse of_chips × (sse ≢ invalid) × (¬ (Elem sse of_instructions))))
    × (Elem sse (check_in_instructions_not_chip_hierarchy of_chips of_instructions)
        ↔ (Elem sse of_instructions × (sse ≢ invalid) × (¬ (Elem sse of_chips))))
checks-Elem_example = checks-Elem of_chips of_instructions sse
