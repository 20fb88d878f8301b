-- ===== src/Chips/Hierarchy.antt =====
-- pysrc/chipmodel.py: the reading of the chips and the expansion of the references between them.
use xed.Base.{
  ℕ, zero, suc, String, List, [], ◌∷◌, ◌++◌, map, if◌then◌else◌, contains, string_eq, is_some,
  Result, ok, err, die, key_error, out_of_fuel, or_raise, ◌>>=◌,
}
use xed.Base.Dict.{Dict, lookup, insert, keys}
use xed.Chips.{uniquify_list}

-- A word behind the colon: which of the three patterns matches it, or an isa set.
pub data Ext : Type 0 where
  all_of : String → Ext
  common_subset : String → String → Ext
  not_ext : String → Ext
  isa : String → Ext

abbrev pub Features : Type 0
Features = Dict String (List Ext)

-- a line without comment: without a colon, with more than one, or with a chip and its words
pub data Line : Type 0 where
  no_colon bad_line : Line
  chip_line : String → List Ext → Line

unfoldable pub parse_from : List Line → List String → Features → Result (List String × Features)
unfolding lookup insert
parse_from [] chips d = ok (chips, d)
parse_from (no_colon ∷ lines) chips d = err die
parse_from (bad_line ∷ lines) chips d = err die
parse_from (chip_line chip extensions ∷ lines) chips d =
    let rest = parse_from lines (chips ++ chip ∷ []) (insert chip extensions d) in
    if is_some (lookup chip d) then err die else if string_eq.beq chip "ALL" then err die else rest

unfoldable pub parse_lines : List Line → Result (List String × Features)
unfolding parse_from
parse_lines lines = parse_from lines [] []

-- An expanded chip has isa sets only.
abbrev pub isa_names : List Ext → List String
isa_names [] = []
isa_names (all_of chip ∷ exts) = isa_names exts
isa_names (common_subset chip1 chip2 ∷ exts) = isa_names exts
isa_names (not_ext ext ∷ exts) = isa_names exts
isa_names (isa ext ∷ exts) = ext ∷ isa_names exts

-- Python gives the intersection in any order.
abbrev pub intersection : List String → List String → List String
intersection [] exts2 = []
intersection (ext ∷ exts1) exts2 =
    let rest = intersection exts1 exts2 in if contains ext exts2 then ext ∷ rest else rest

abbrev pub removed : String → List String → List String
removed ext [] = []
removed ext (x ∷ xs) = let rest = removed ext xs in if string_eq.beq x ext then rest else x ∷ rest

-- the three loops; `expand` is the recursive call
abbrev pub features_of : String → Features → Result (List String)
features_of chip d = or_raise key_error (lookup chip d) >>= λ exts. ok (isa_names exts)

unfoldable pub add_all_of :
    (String → Features → Result Features)
    → List Ext
    → List String
    → Features
    → Result (List String × Features)
unfolding lookup
add_all_of expand [] new_ext d = ok (new_ext, d)
add_all_of expand (all_of sub_chip ∷ exts) new_ext d = expand sub_chip d >>= λ next.
    features_of sub_chip next >>= λ sub. add_all_of expand exts (new_ext ++ sub) next
add_all_of expand (common_subset chip1 chip2 ∷ exts) new_ext d = add_all_of expand exts new_ext d
add_all_of expand (not_ext ext ∷ exts) new_ext d = add_all_of expand exts new_ext d
add_all_of expand (isa ext ∷ exts) new_ext d = add_all_of expand exts new_ext d

unfoldable pub add_common :
    (String → Features → Result Features)
    → List Ext
    → List String
    → Features
    → Result (List String × Features)
unfolding lookup
add_common expand [] new_ext d = ok (new_ext, d)
add_common expand (common_subset chip1 chip2 ∷ exts) new_ext d = expand chip1 d >>= λ mid.
    expand chip2 mid >>= λ next. features_of chip1 next >>= λ exts1.
    features_of chip2 next >>= λ exts2.
    add_common expand exts (new_ext ++ intersection exts1 exts2) next
add_common expand (all_of chip ∷ exts) new_ext d = add_common expand exts new_ext d
add_common expand (not_ext ext ∷ exts) new_ext d = add_common expand exts new_ext d
add_common expand (isa ext ∷ exts) new_ext d = add_common expand exts new_ext d

unfoldable pub remove_not : List Ext → List String → List String
remove_not [] new_ext = new_ext
remove_not (not_ext ext ∷ exts) new_ext = remove_not exts (removed ext new_ext)
remove_not (all_of chip ∷ exts) new_ext = remove_not exts new_ext
remove_not (common_subset chip1 chip2 ∷ exts) new_ext = remove_not exts new_ext
remove_not (isa ext ∷ exts) new_ext = remove_not exts new_ext

abbrev pub finished : String → List Ext → List String → Features → Features
unfolding insert remove_not uniquify_list
finished chip exts new_ext d =
    insert chip (map isa (uniquify_list (remove_not exts new_ext ++ isa_names exts))) d

-- The fuel bounds the depth of the references.
unfoldable pub expand_chip : ℕ → String → Features → Result Features
unfolding lookup insert add_all_of add_common remove_not uniquify_list
expand_chip zero chip d = err out_of_fuel
expand_chip (suc fuel) chip d = or_raise key_error (lookup chip d) >>= λ exts.
    add_all_of (expand_chip fuel) exts [] d >>= λ r.
    or_raise key_error (lookup chip r.1) >>= λ exts1.
    add_common (expand_chip fuel) exts1 r.0 r.1 >>= λ s.
    or_raise key_error (lookup chip s.1) >>= λ exts2. ok (finished chip exts2 s.0 s.1)

unfoldable pub expand_all : ℕ → List String → Features → Result Features
unfolding expand_chip
expand_all fuel [] d = ok d
expand_all fuel (chip ∷ chips) d = expand_chip fuel chip d >>= λ next. expand_all fuel chips next

unfoldable pub recursive_expand : ℕ → Features → Result Features
unfolding expand_all
recursive_expand fuel d = expand_all fuel (keys d) d
