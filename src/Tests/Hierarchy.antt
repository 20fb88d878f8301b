-- ===== src/Tests/Hierarchy.antt =====
-- A small hierarchy of chips.
use mathlib.Core.Path.{subst}
use xed.Base.{
  ℕ, ◌≡◌, ◌≢◌, ◌<◌, refl, sym, inl, inr, String, none, List, [], ◌∷◌, if◌then◌else◌, Elem,
  string_eq, ok, err, die, out_of_fuel, key_error, arith,
}
use xed.Base.Dict.{lookup, keys, lookup-Elem}
use xed.Chips.Hierarchy.{
  Ext, all_of, common_subset, not_ext, isa, Features, chip_line, parse_lines, recursive_expand,
}
use xed.Chips.Loops.{AreRefs, IsExpanded}
use xed.Chips.Closed.{IsRanked}
use xed.Chips.Recursion.{recursive_expand-HasFeature}

abbrev i86_words : List Ext
i86_words = isa "I86" ∷ isa "FPU" ∷ []

abbrev i186_words : List Ext
i186_words = all_of "I86" ∷ not_ext "FPU" ∷ isa "I186" ∷ []

abbrev both_words : List Ext
both_words = common_subset "I86" "I186" ∷ []

abbrev chips : Features
chips = ("BOTH", both_words) ∷ ("I86", i86_words) ∷ ("I186", i186_words) ∷ []

parsed :
    parse_lines
      (chip_line "BOTH" both_words ∷ chip_line "I86" i86_words ∷ chip_line "I186" i186_words ∷ [])
    ≡ ok ("BOTH" ∷ "I86" ∷ "I186" ∷ [], chips)
unfolding parse_lines
parsed = refl

repeated : parse_lines (chip_line "I86" i86_words ∷ chip_line "I86" [] ∷ []) ≡ err die
unfolding parse_lines
repeated = refl

abbrev expanded : Features
expanded =
    ("BOTH", isa "I86" ∷ [])
    ∷ ("I86", isa "I86" ∷ isa "FPU" ∷ [])
    ∷ ("I186", isa "I86" ∷ isa "I186" ∷ [])
    ∷ []

expand_run : recursive_expand 3 chips ≡ ok expanded
unfolding recursive_expand
expand_run = refl

-- A chip that refers to itself is expanded forever.
self_reference : recursive_expand 3 (("I86", all_of "I86" ∷ []) ∷ []) ≡ err out_of_fuel
unfolding recursive_expand
self_reference = refl

unknown_chip : recursive_expand 3 (("I186", all_of "I86" ∷ []) ∷ []) ≡ err key_error
unfolding recursive_expand
unknown_chip = refl

abbrev rank : String → ℕ
rank chip = if string_eq.beq chip "BOTH" then 2 else if string_eq.beq chip "I186" then 1 else 0

i86_known : lookup "I86" chips ≢ none
unfolding lookup
i86_known e = cc

i186_known : lookup "I186" chips ≢ none
unfolding lookup
i186_known e = cc

both_refs : AreRefs rank chips 2 both_words
both_refs = record {
  all_refs = λ chip m. elim m [ inl q ↦ absurd cc | inr m ↦ absurd m ];
  both_refs = λ chip1 chip2 m. elim m [
    | inl q ↦
        let e1 : chip1 ≡ "I86" = cc in
        let e2 : chip2 ≡ "I186" = cc in
        (
          subst (λ c. (rank c < 2) × (lookup c chips ≢ none)) (sym e1) (omega arith, i86_known),
          subst (λ c. (rank c < 2) × (lookup c chips ≢ none)) (sym e2) (omega arith, i186_known),
        )
    | inr m ↦ absurd m
  ];
}

i86_refs : AreRefs rank chips 0 i86_words
i86_refs = record {
  all_refs = λ chip m. elim m [
    | inl q ↦ absurd cc
    | inr m ↦ elim m [ inl q ↦ absurd cc | inr m ↦ absurd m ]
  ];
  both_refs = λ chip1 chip2 m. elim m [
    | inl q ↦ absurd cc
    | inr m ↦ elim m [ inl q ↦ absurd cc | inr m ↦ absurd m ]
  ];
}

i186_refs : AreRefs rank chips 1 i186_words
i186_refs = record {
  all_refs = λ chip m. elim m [
    | inl q ↦
        let e : chip ≡ "I86" = cc in
        subst (λ c. (rank c < 1) × (lookup c chips ≢ none)) (sym e) (omega arith, i86_known)
    | inr m ↦ elim m [ inl q ↦ absurd cc | inr m ↦ elim m [ inl q ↦ absurd cc | inr m ↦ absurd m ] ]
  ];
  both_refs = λ chip1 chip2 m. elim m [
    | inl q ↦ absurd cc
    | inr m ↦ elim m [ inl q ↦ absurd cc | inr m ↦ elim m [ inl q ↦ absurd cc | inr m ↦ absurd m ] ]
  ];
}

row_refs : (row : String × List Ext) → Elem row chips → AreRefs rank chips (rank row.0) row.1
row_refs row (inl e) = subst (λ r. AreRefs rank chips (rank r.0) r.1) (sym e) both_refs
row_refs row (inr (inl e)) = subst (λ r. AreRefs rank chips (rank r.0) r.1) (sym e) i86_refs
row_refs row (inr (inr (inl e))) = subst (λ r. AreRefs rank chips (rank r.0) r.1) (sym e) i186_refs
row_refs row (inr (inr (inr m))) = absurd m

chips-IsRanked : IsRanked rank chips
chips-IsRanked chip exts l = row_refs (chip, exts) (lookup-Elem chip exts chips l)

chips_low : (chip : String) → Elem chip (keys chips) → rank chip < 3
chips_low chip m = ground arith

recursive_expand-HasFeature_example :
    (next : Features) × (recursive_expand 3 chips ≡ ok next)
    × ((chip : String) → Elem chip (keys chips) → IsExpanded rank chips chip next)
recursive_expand-HasFeature_example =
    recursive_expand-HasFeature rank 3 chips chips-IsRanked chips_low
