-- ===== src/Storage.antt =====
-- pysrc/operand_storage.py: the fields that hold the operands, and their packing into 32-bit bins. The
-- emitted C declarations and accessors are left out.
pub mod Packed
pub mod Layout
pub mod Names
pub mod Enums
pub mod Emit
use xed.Base.{
  ℕ, zero, suc, ◌+◌, ◌≤◌, ◌<◌, ◌≡◌, String, Bool, true, false, not, ◌&&◌, ◌||◌, Option, none, some,
  List, [], ◌∷◌, ◌++◌, if◌then◌else◌, length, ltb, leb, eqb, contains, string_eq, is_some, Result,
  ok, err, die, value_error, key_error, type_error, map, ◌-◌, Error, ◌>>=◌,
}
use Prim.Native.Char.{Char, code}
use xed.Base.Digits.{int_of, bit_length}
use xed.Base.Dict.{Dict, lookup, insert, values}
use xed.Base.Sort.{sorted}
use xed.Pattern.{in_text, any_of, leb_string}

-- `operand_field_t`
pub record OperandField : Type 0 where
  pub name : String
  pub aggtype : String
  pub ctype : String
  pub bitwidth : ℕ
  pub default_visibility : String
  pub xprint : String
  pub internal_or_public : String
  pub dio : String
  pub eio : String
  pub encoder_input : Bool
  pub decoder_skip : Bool
  pub default_initializer : String
  pub is_enum : Bool
  pub storage_type : Option String
  pub compressed : Bool

-- The texts that may stand for the two directions; others end the generator.
unfoldable pub new_operand_field :
    String
    → String
    → String
    → ℕ
    → String
    → String
    → String
    → String
    → String
    → String
    → Result OperandField
new_operand_field name aggtype ctype width visibility initializer xprint internal dio eio =
    if not (contains eio ("EI" ∷ "EO" ∷ []))
    then err die
    else if not (contains dio ("DI" ∷ "DO" ∷ "DS" ∷ []))
    then err die
    else ok (record {
      name = name;
      aggtype = aggtype;
      ctype = ctype;
      bitwidth = width;
      default_visibility = visibility;
      xprint = xprint;
      internal_or_public = internal;
      dio = dio;
      eio = eio;
      encoder_input = string_eq.beq eio "EI";
      decoder_skip = string_eq.beq dio "DS";
      default_initializer = initializer;
      is_enum = in_text "enum" ctype;
      storage_type = none;
      compressed = false;
    })

unfoldable pub default_initializer_of : String → String
default_initializer_of ctype =
    if string_eq.beq ctype "xed_reg_enum_t"
    then "XED_REG_INVALID"
    else if string_eq.beq ctype "xed_iclass_enum_t"
    then "XED_ICLASS_INVALID"
    else "0"

-- A line as its words.
abbrev pub read_width : String → Result ℕ
read_width w = elim (int_of 10 w) [ none ↦ err value_error | some n ↦ ok n ]

abbrev pub read_words : List String → Dict String OperandField → Result (String × OperandField)
read_words (name ∷ aggtype ∷ ctype ∷ width ∷ visibility ∷ xprint ∷ internal ∷ dio ∷ eio ∷ [])
      operand_types =
    if is_some (lookup name operand_types)
    then err die
    else if not (string_eq.beq aggtype "SCALAR")
    then err die
    else (read_width width >>= λ bits.
        new_operand_field name aggtype ctype bits visibility (default_initializer_of ctype) xprint
          internal dio eio
        >>= λ field. ok (name, field))
read_words wrds operand_types = err die

-- Comments are gone from the lines; a line without words is passed over.
unfoldable pub read_lines :
    List (List String) → Dict String OperandField → Result (Dict String OperandField)
unfolding int_of lookup insert new_operand_field default_initializer_of
read_lines [] operand_types = ok operand_types
read_lines ([] ∷ lines) operand_types = read_lines lines operand_types
read_lines ((w ∷ wrds) ∷ lines) operand_types = read_words (w ∷ wrds) operand_types >>= λ r.
    let (name, field) = r in read_lines lines (insert name field operand_types)

unfoldable pub read_storage_fields : List (List String) → Result (Dict String OperandField)
unfolding read_lines
read_storage_fields lines = read_lines lines []

-- by name, and then by width; the sorts are stable
abbrev pub by_name : OperandField → OperandField → Bool
by_name a b = leb_string a.name b.name

abbrev pub by_bitwidth : OperandField → OperandField → Bool
by_bitwidth a b = leb a.bitwidth b.bitwidth

unfoldable pub sort_cmp_operands : List OperandField → List OperandField
unfolding sorted
sort_cmp_operands ops = sorted by_bitwidth (sorted by_name ops)

-- the smallest C type
unfoldable pub type_in_storage : ℕ → Result String
type_in_storage width =
    if leb width 8
    then ok "xed_uint8_t"
    else if leb width 16
    then ok "xed_uint16_t"
    else if leb width 32
    then ok "xed_uint32_t"
    else if leb width 64
    then ok "xed_uint64_t"
    else err die

unfoldable pub compute_type_in_storage : List OperandField → Result (List OperandField)
unfolding type_in_storage
compute_type_in_storage [] = ok []
compute_type_in_storage (op ∷ ops) = type_in_storage op.bitwidth >>= λ t.
    compute_type_in_storage ops >>= λ rest. ok (record op { storage_type = some t } ∷ rest)

unfoldable pub get_num_elements_in_enum : List String → ℕ
unfolding any_of
get_num_elements_in_enum values_list =
    if any_of (λ v. in_text "LAST" v) values_list
    then length values_list
    else length values_list + 1

-- `int(math.ceil(math.log(n, 2)))`, where n is not 0. The floating logarithm of a power of two is exact
-- below 2 ^ 29.
unfoldable pub needed_bits : ℕ → ℕ
unfolding bit_length
needed_bits n = bit_length (n - 1)

abbrev pub Enums : Type 0
Enums = Dict String (List String)

unfoldable pub widths_from : Enums → Dict String ℕ → Dict String ℕ
unfolding get_num_elements_in_enum needed_bits insert
widths_from [] widths = widths
widths_from ((enum_name, values_list) ∷ enums) widths =
    widths_from enums (insert enum_name (needed_bits (get_num_elements_in_enum values_list)) widths)

unfoldable pub gen_max_bits_per_enum : Enums → Dict String ℕ
unfolding widths_from insert
gen_max_bits_per_enum all_enums = insert "xed_error_enum_t" 4 (widths_from all_enums [])

-- A width that is too small is reported by a format that has `% i` for the name, which raises.
abbrev pub too_small : Option (List String) → Result OperandField
too_small none = err key_error
too_small (some vals) = err type_error

abbrev pub fixed_to : Enums → OperandField → Option ℕ → Result OperandField
fixed_to all_enums op none = ok op
fixed_to all_enums op (some bits) =
    if ltb op.bitwidth bits
    then too_small (lookup op.ctype all_enums)
    else ok (record op { bitwidth = bits })

unfoldable pub fix_all : Enums → Dict String ℕ → List OperandField → Result (List OperandField)
unfolding lookup
fix_all all_enums widths [] = ok []
fix_all all_enums widths (op ∷ ops) = fixed_to all_enums op (lookup op.ctype widths) >>= λ fixed.
    fix_all all_enums widths ops >>= λ rest. ok (fixed ∷ rest)

unfoldable pub fix_bit_width_for_enums : Enums → List OperandField → Result (List OperandField)
unfolding fix_all gen_max_bits_per_enum
fix_bit_width_for_enums all_enums ops = fix_all all_enums (gen_max_bits_per_enum all_enums) ops

-- `operands_bin_t`
pub record Bin : Type 0 where
  pub operands : List OperandField
  pub size : ℕ
  pub max_size : ℕ
  pub storage_ctype : String

abbrev pub new_bin : Bin
new_bin = record { operands = []; size = 0; max_size = 32; storage_ctype = "xed_uint32_t" }

unfoldable pub add_operand : OperandField → Bin → Bin
add_operand op xbin = record xbin {
  operands = xbin.operands ++ op ∷ [];
  size = xbin.size + op.bitwidth;
}

unfoldable pub operand_fits : OperandField → Bin → Bool
operand_fits op xbin = leb (op.bitwidth + xbin.size) xbin.max_size

unfoldable pub place_operand_in_bin : OperandField → List Bin → List Bin
unfolding add_operand operand_fits
place_operand_in_bin op [] = add_operand op new_bin ∷ []
place_operand_in_bin op (xbin ∷ bins) =
    if operand_fits op xbin then add_operand op xbin ∷ bins else xbin ∷ place_operand_in_bin op bins

-- The operand in the bin is the object that `compressed` is set on afterwards.
unfoldable pub partition_from : List OperandField → List Bin → List Bin
unfolding place_operand_in_bin
partition_from [] bins = bins
partition_from (op ∷ ops) bins =
    partition_from ops (place_operand_in_bin (record op { compressed = true }) bins)

unfoldable pub partition_to_bins : List OperandField → List Bin
unfolding partition_from
partition_to_bins ops_sorted = partition_from ops_sorted []

unfoldable pub is_candidate : OperandField → Bool
is_candidate op = not (eqb op.bitwidth 32) && not (eqb op.bitwidth 64)

unfoldable pub get_candidates_for_compression : List OperandField → List OperandField
unfolding is_candidate
get_candidates_for_compression [] = []
get_candidates_for_compression (op ∷ ops) =
    let rest = get_candidates_for_compression ops in if is_candidate op then op ∷ rest else rest

unfoldable pub compress_operands : List OperandField → List Bin
unfolding get_candidates_for_compression sort_cmp_operands partition_to_bins
compress_operands ops = partition_to_bins (sort_cmp_operands (get_candidates_for_compression ops))

-- The character of the second text that stands where the first has `c`, or `c` where it is not there.
abbrev pub translated : Char → String → String → Char
translated c String.[] to = c
translated c (String.◌∷◌ a from) String.[] = c
translated c (String.◌∷◌ a from) (String.◌∷◌ b to) =
    let rest = translated c from to in if eqb (code a) (code c) then b else rest

-- `str.lower` on ASCII texts, as the operands' names are
unfoldable pub lower : String → String
lower String.[] = String.[]
lower (String.◌∷◌ c s) =
    String.◌∷◌ (translated c "ABCDEFGHIJKLMNOPQRSTUVWXYZ" "abcdefghijklmnopqrstuvwxyz") (lower s)

-- a member of the C structure
pub record Member : Type 0 where
  pub name : String
  pub ctype : Option String
  pub bit_width : Option ℕ

abbrev pub plain_member : OperandField → Member
plain_member op = record { name = lower op.name; ctype = op.storage_type; bit_width = none }

abbrev pub bit_field : String → OperandField → Member
bit_field storage_ctype op = record {
  name = lower op.name;
  ctype = some storage_ctype;
  bit_width = some op.bitwidth;
}

unfoldable pub bin_members : List Bin → List Member
unfolding lower
bin_members [] = []
bin_members (xbin ∷ bins) = map (bit_field xbin.storage_ctype) xbin.operands ++ bin_members bins

-- Those that are not compressed are the ones that were no candidates.
unfoldable pub un_compressed : List OperandField → List OperandField
unfolding is_candidate
un_compressed [] = []
un_compressed (op ∷ ops) =
    let rest = un_compressed ops in if is_candidate op then rest else op ∷ rest

abbrev pub layout : Bool → List OperandField → List Member
layout true operands =
    map plain_member (sort_cmp_operands (un_compressed operands))
    ++ bin_members (compress_operands operands)
layout false operands = map plain_member (sort_cmp_operands operands)

-- `emit`, without the C text
unfoldable pub emit : Bool → Enums → List OperandField → Result (List Member)
unfolding fix_bit_width_for_enums compute_type_in_storage sort_cmp_operands un_compressed
    bin_members compress_operands lower
emit compressed all_enums operand_fields =
    fix_bit_width_for_enums all_enums operand_fields >>= λ fixed.
    compute_type_in_storage fixed >>= λ operands. ok (layout compressed operands)
