-- ===== src/Cpuid.antt =====
-- pysrc/cpuid_rdr.py: the records of CPUID bits and their loading. Printing is left out.
pub mod Valid
pub mod Files
pub mod Groups
pub mod Flat
pub mod Names
use Prim.Native.String.{len, find, slice, ◌++◌ as str_append}
use text.Mathlib.Text.{starts_with}
use xed.Base.{
  ℕ, zero, suc, ◌+◌, ◌-◌, ◌≡◌, String, Bool, true, false, not, ◌&&◌, ◌||◌, Option, none, some, List,
  [], ◌∷◌, ◌++◌, if◌then◌else◌, ltb, leb, eqb, is_some, contains, string_eq, nat_eq, Result, ok,
  err, die, assertion_error, ◌>>=◌,
}
use xed.Base.Digits.{int_of, bit_length}
use xed.Base.Dict.{Dict, lookup, insert}
use xed.Base.Sort.{sorted}
use xed.Pattern.{in_text}

pub record CpuidRecord : Type 0 where
  pub fname : String
  pub leaf : String
  pub s_leaf : String
  pub reg : String
  pub bit_start : String
  pub bit_end : String
  pub value : String

abbrev pub is_empty : String → Bool
is_empty s = eqb (len s) 0

-- the numbers of a record
pub record Numbers : Type 0 where
  pub start : ℕ
  pub stop : ℕ
  pub value : ℕ

abbrev pub numbers_from : Option ℕ → Option ℕ → Option ℕ → Option ℕ → Option ℕ → Option Numbers
numbers_from (some l) (some sl) (some b) (some e) (some v) =
    some (record { start = b; stop = e; value = v })
numbers_from l sl b e v = none

-- none where a conversion raises
unfoldable pub numbers_of : CpuidRecord → Option Numbers
unfolding int_of
numbers_of r =
    numbers_from (int_of 16 r.leaf) (int_of 16 r.s_leaf) (int_of 10 r.bit_start)
      (int_of 10 r.bit_end) (int_of 10 r.value)

unfoldable pub fits_in_bits : Numbers → Bool
unfolding bit_length
fits_in_bits n =
    ltb n.start 32
    && ltb n.stop 32
    && leb n.start n.stop
    && leb (bit_length n.value) (n.stop - n.start + 1)

abbrev pub has_members : CpuidRecord → Bool
has_members r =
    not (is_empty r.fname)
    && not (is_empty r.leaf)
    && not (is_empty r.s_leaf)
    && not (is_empty r.reg)
    && not (is_empty r.bit_start)
    && not (is_empty r.bit_end)
    && not (is_empty r.value)

abbrev pub numbers_fit : Option Numbers → Bool
numbers_fit none = false
numbers_fit (some n) = fits_in_bits n

unfoldable pub valid_self_members : CpuidRecord → Bool
unfolding numbers_of fits_in_bits
valid_self_members r = has_members r && eqb (len r.reg) 3 && numbers_fit (numbers_of r)

-- How a text matches: `N/A`, one of the three patterns, which exclude each other, or nothing.
pub data Match : Type 0 where
  not_available : Match
  range_def : String → String → String → String → String → String → String → Match
  bit_def : String → String → String → String → String → Match
  old_def : String → String → String → String → String → Match
  no_match : Match

abbrev pub empty_record : CpuidRecord
empty_record = record {
  fname = "";
  leaf = "";
  s_leaf = "";
  reg = "";
  bit_start = "";
  bit_end = "";
  value = "";
}

abbrev pub invalid_record : CpuidRecord
invalid_record = record {
  fname = "INVALID";
  leaf = "0";
  s_leaf = "0";
  reg = "INVALID";
  bit_start = "0";
  bit_end = "0";
  value = "0";
}

-- the members after the patterns have been tried
abbrev pub matched : Match → CpuidRecord
matched not_available = invalid_record
matched (range_def f l s r b e v) = record {
  fname = f;
  leaf = l;
  s_leaf = s;
  reg = r;
  bit_start = b;
  bit_end = e;
  value = v;
}
matched (bit_def f l s r b) = record {
  fname = f;
  leaf = l;
  s_leaf = s;
  reg = r;
  bit_start = b;
  bit_end = b;
  value = "1";
}
matched (old_def f l s r b) = record {
  fname = f;
  leaf = l;
  s_leaf = s;
  reg = r;
  bit_start = b;
  bit_end = b;
  value = "1";
}
matched no_match = empty_record

abbrev pub loaded_if : Bool → CpuidRecord → Result (Bool × CpuidRecord)
loaded_if true r = ok (true, r)
loaded_if false r = err assertion_error

-- whether the record is not empty, and the record
unfoldable pub load_from_str : Match → Result (Bool × CpuidRecord)
unfolding valid_self_members
load_from_str not_available = ok (false, invalid_record)
load_from_str m = loaded_if (valid_self_members (matched m)) (matched m)

-- `__eq__`
abbrev pub same_record : CpuidRecord → CpuidRecord → Bool
same_record a b =
    string_eq.beq a.fname b.fname
    && string_eq.beq a.leaf b.leaf
    && string_eq.beq a.s_leaf b.s_leaf
    && string_eq.beq a.reg b.reg
    && string_eq.beq a.bit_start b.bit_start
    && string_eq.beq a.bit_end b.bit_end
    && string_eq.beq a.value b.value
