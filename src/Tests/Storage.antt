-- ===== src/Tests/Storage.antt =====
-- Operands of a few widths, packed.
use xed.Base.{
  ℕ, ◌≡◌, refl, inl, inr, true, false, Option, none, some, List, [], ◌∷◌, ok, err, type_error,
  String, string_eq, arith,
}
use xed.Base.Dict.{lookup, IsDict}
use xed.Storage.{
  OperandField, Enums, Member, read_storage_fields, get_candidates_for_compression,
  compress_operands, emit, fix_bit_width_for_enums,
}
use xed.Storage.Packed.{IsPacking, AreSmall, compress_operands-IsPacking}
use xed.Storage.Emit.{IsLayout, emit-IsLayout}

abbrev field_of : String → String → ℕ → OperandField
field_of name ctype bits = record {
  name = name;
  aggtype = "SCALAR";
  ctype = ctype;
  bitwidth = bits;
  default_visibility = "SUPPRESSED";
  xprint = "NOPRINT";
  internal_or_public = "INTERNAL";
  dio = "DI";
  eio = "EI";
  encoder_input = true;
  decoder_skip = false;
  default_initializer = "0";
  is_enum = false;
  storage_type = none;
  compressed = false;
}

abbrev operands : List OperandField
operands =
    field_of "MODE" "xed_bits_t" 20
    ∷ field_of "EASZ" "xed_bits_t" 14
    ∷ field_of "DISP" "xed_int64_t" 64
    ∷ field_of "CHIP" "xed_chip_enum_t" 8
    ∷ []

abbrev enums : Enums
enums =
    ("xed_chip_enum_t", "INVALID" ∷ "I86" ∷ "I186" ∷ [])
    ∷ ("xed_reg_enum_t", "INVALID" ∷ "AX" ∷ [])
    ∷ []

candidates_small : AreSmall (get_candidates_for_compression operands)
unfolding get_candidates_for_compression
candidates_small op (inl e) = rw e (omega arith)
candidates_small op (inr (inl e)) = rw e (omega arith)
candidates_small op (inr (inr (inl e))) = rw e (omega arith)
candidates_small op (inr (inr (inr m))) = absurd m

compress_operands-IsPacking_example :
    IsPacking (get_candidates_for_compression operands) (compress_operands operands)
compress_operands-IsPacking_example = compress_operands-IsPacking operands candidates_small

abbrev member : String → String → Option ℕ → Member
member name ctype bits = record { name = name; ctype = some ctype; bit_width = bits }

abbrev structure : List Member
structure =
    member "disp" "xed_uint64_t" none
    ∷ member "chip" "xed_uint32_t" (some 2)
    ∷ member "easz" "xed_uint32_t" (some 14)
    ∷ member "mode" "xed_uint32_t" (some 20)
    ∷ []

emit_operands : emit true enums operands ≡ ok structure
unfolding emit
emit_operands = refl

-- Names that differ in case only get members of one name.
one_name :
    emit false [] (field_of "Mode" "xed_bits_t" 8 ∷ field_of "MODE" "xed_bits_t" 8 ∷ [])
    ≡ ok (
        record { name = "mode"; ctype = some "xed_uint8_t"; bit_width = none }
        ∷ record { name = "mode"; ctype = some "xed_uint8_t"; bit_width = none }
        ∷ [])
unfolding emit
one_name = refl

enums-IsDict : IsDict enums
unfolding lookup
enums-IsDict = (refl, (refl, tt))

emit-IsLayout_example : IsLayout enums operands structure
emit-IsLayout_example = emit-IsLayout true enums operands structure enums-IsDict emit_operands

-- A width below what the values need ends the generator by a format error.
too_small_width :
    fix_bit_width_for_enums enums (field_of "CHIP" "xed_chip_enum_t" 1 ∷ []) ≡ err type_error
unfolding fix_bit_width_for_enums
too_small_width = refl

-- a line of the data files
read_line :
    read_storage_fields (
      ("MOD" ∷ "SCALAR" ∷ "xed_bits_t" ∷ "8" ∷ "SUPPRESSED" ∷ "NOPRINT" ∷ "INTERNAL" ∷ "DO" ∷ "EO"
        ∷ [])
      ∷ []
      ∷ [])
    ≡ ok (
        (
          "MOD",
          record (field_of "MOD" "xed_bits_t" 8) { dio = "DO"; eio = "EO"; encoder_input = false },
        )
        ∷ [])
unfolding read_storage_fields
read_line = refl
