-- ===== src/Pattern/Widths.antt =====
-- `get_state_op_widths` of pysrc/ild_cdict.py: the width of the field of each operand in a key. The
-- logarithm, in floating point in the source, is the exact one.
pub mod Enough
use xed.Base.{
  ℕ, zero, suc, ◌+◌, String, Option, none, some, List, [], ◌∷◌, Result, ok, err, value_error, ◌>>=◌,
  eqb, if◌then◌else◌, nat_eq, string_eq,
}
use xed.Base.Dict.{Dict, lookup, insert}
use xed.Hash.{ilog2}
use xed.Hash.Find.{max_of}
use xed.Cdict.{Space}

-- enough bits for the greatest value, and one bit for zero; `max([])` raises
unfoldable pub width_of_values : List ℕ → Result ℕ
unfolding ilog2
width_of_values [] = err value_error
width_of_values (x ∷ vals) =
    let maxval = max_of x vals in ok (if eqb maxval 0 then 1 else ilog2 maxval + 1)

-- The declared width comes first. `storage` has the widths of `agi.operand_storage`.
unfoldable pub width_of : Option ℕ → List ℕ → Result ℕ
unfolding width_of_values
width_of (some bitwidth) vals = ok bitwidth
width_of none vals = width_of_values vals

unfoldable pub widths_from : Dict String ℕ → Space → Dict String ℕ → Result (Dict String ℕ)
unfolding width_of lookup insert
widths_from storage [] widths_dict = ok widths_dict
widths_from storage ((opname, vals) ∷ space) widths_dict =
    width_of (lookup opname storage) vals >>= λ width.
    widths_from storage space (insert opname width widths_dict)

-- the operands that replace others, and UIMM0
abbrev pub special_widths : List (String × ℕ)
special_widths =
    ("MOD3", 1)
    ∷ ("VEXDEST210_7", 1)
    ∷ ("VEXDEST_1F", 1)
    ∷ ("RM4", 1)
    ∷ ("MASK_NOT0", 1)
    ∷ ("MASK_ZERO", 1)
    ∷ ("UIMM0", 8)
    ∷ []

unfoldable pub insert_all : List (String × ℕ) → Dict String ℕ → Dict String ℕ
unfolding insert
insert_all [] widths_dict = widths_dict
insert_all ((name, width) ∷ special) widths_dict =
    insert_all special (insert name width widths_dict)

unfoldable pub get_state_op_widths : Dict String ℕ → Space → Result (Dict String ℕ)
unfolding widths_from insert_all
get_state_op_widths storage state_space =
    widths_from storage state_space [] >>= λ widths_dict. ok (insert_all special_widths widths_dict)
