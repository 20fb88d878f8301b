-- ===== src/Cpuid/Files.antt =====
-- pysrc/cpuid_rdr.py: the groups of records, the map of the records by name, and the reading of a file.
use Prim.Native.String.{len, slice, ◌++◌ as str_append}
use text.Mathlib.Text.{starts_with}
use xed.Base.{
  ℕ, String, Bool, true, false, not, ◌&&◌, Option, none, some, List, [], ◌∷◌, ◌++◌, if◌then◌else◌,
  leb, eqb, string_eq, nat_eq, Result, ok, err, die, assertion_error, ◌>>=◌,
}
use xed.Base.Dict.{Dict, lookup, insert}
use xed.Base.Sort.{sorted}
use xed.Pattern.{in_text}
use xed.Cpuid.{CpuidRecord, Match, load_from_str, same_record, invalid_record}

-- `group_kind_t`, and the values that sort
pub data GroupKind : Type 0 where
  avx10 fbit : GroupKind

abbrev pub sort_key : GroupKind → ℕ
sort_key avx10 = 0
sort_key fbit = 1

abbrev pub same_kind : GroupKind → GroupKind → Bool
same_kind a b = eqb (sort_key a) (sort_key b)

pub record GroupRecord : Type 0 where
  pub kind : GroupKind
  pub isa_set : String
  pub name : String
  pub records : List CpuidRecord

-- The name is the isa set's, with the kind behind it unless that is the default one.
abbrev pub group_name : GroupKind → String → String
group_name fbit isa_set = isa_set
group_name avx10 isa_set = str_append isa_set "_AVX10"

abbrev pub without_prefix : String → String
without_prefix s = if starts_with s "XED_ISA_SET_" then slice s (len "XED_ISA_SET_") (len s) else s

abbrev pub new_group : GroupKind → String → GroupRecord
new_group kind isa_set = record {
  kind = kind;
  isa_set = without_prefix isa_set;
  name = group_name kind (without_prefix isa_set);
  records = [];
}

-- An AVX10 record has no place in a group of another kind.
abbrev pub is_misplaced : GroupKind → CpuidRecord → Bool
is_misplaced kind rec = not (same_kind kind avx10) && in_text "AVX10_ENABLED" rec.fname

abbrev pub add_record : GroupRecord → Bool × CpuidRecord → Result GroupRecord
add_record grp (false, rec) = ok grp
add_record grp (true, rec) =
    if is_misplaced grp.kind rec
    then err die
    else ok (record grp { records = grp.records ++ rec ∷ [] })

unfoldable pub add_records_from_str : List Match → GroupRecord → Result GroupRecord
unfolding load_from_str
add_records_from_str [] grp = ok grp
add_records_from_str (m ∷ records) grp =
    load_from_str m >>= λ r. add_record grp r >>= λ next. add_records_from_str records next

abbrev pub Groups : Type 0
Groups = Dict String (List GroupRecord)

-- `make_cpuid_rec_info_map`: the loop over the records of a group, the groups, and the isa sets
abbrev pub RecordMap : Type 0
RecordMap = Dict String CpuidRecord

abbrev pub agrees : CpuidRecord → Option CpuidRecord → Bool
agrees rec none = true
agrees rec (some old) = same_record old rec

unfoldable pub add_records : List CpuidRecord → RecordMap → Result RecordMap
unfolding lookup insert
add_records [] info = ok info
add_records (rec ∷ recs) info =
    let next = add_records recs (insert rec.fname rec info) in
    if agrees rec (lookup rec.fname info) then next else err die

unfoldable pub add_groups : List GroupRecord → RecordMap → Result RecordMap
unfolding add_records
add_groups [] info = ok info
add_groups (grp ∷ grps) info = add_records grp.records info >>= λ next. add_groups grps next

unfoldable pub add_isa_sets : Groups → RecordMap → Result RecordMap
unfolding add_groups
add_isa_sets [] info = ok info
add_isa_sets ((isa_set, grps) ∷ d) info = add_groups grps info >>= λ next. add_isa_sets d next

unfoldable pub make_cpuid_rec_info_map : Groups → Result RecordMap
unfolding add_isa_sets insert
make_cpuid_rec_info_map d = add_isa_sets d [] >>= λ info. ok (insert "INVALID" invalid_record info)

-- `read_file`, on the lines that are not blank: the names before the colon, the records after it, and
-- whether the text after it has `AVX10_ENABLED`
pub record Line : Type 0 where
  pub row_key_list : List String
  pub row_val : List Match
  pub has_avx10 : Bool

abbrev pub kind_named : String → Result GroupKind
kind_named name =
    if string_eq.beq name "AVX10"
    then ok avx10
    else if string_eq.beq name "FBIT"
    then ok fbit
    else err die

-- the isa set and the kind of a line
abbrev pub key_of : List String → Bool → Result (String × GroupKind)
key_of [] avx = err assertion_error
key_of (isa_set ∷ []) avx = ok (isa_set, (if avx then avx10 else fbit))
key_of (isa_set ∷ kind ∷ []) avx = kind_named kind >>= λ k. ok (isa_set, k)
key_of (isa_set ∷ kind ∷ more ∷ rest) avx = err assertion_error

unfoldable pub has_kind : GroupKind → List GroupRecord → Bool
has_kind kind [] = false
has_kind kind (grp ∷ grps) =
    let rest = has_kind kind grps in if same_kind grp.kind kind then true else rest

abbrev pub groups_at : Option (List GroupRecord) → List GroupRecord
groups_at none = []
groups_at (some grps) = grps

-- A group without records is not kept.
abbrev pub kept_if : List CpuidRecord → GroupRecord → List GroupRecord
kept_if [] grp = []
kept_if (rec ∷ recs) grp = grp ∷ []

unfoldable pub read_line : Line → Groups → Result Groups
unfolding lookup insert has_kind add_records_from_str
read_line line d = key_of line.row_key_list line.has_avx10 >>= λ k.
    let (isa_set, kind) = k in
    let grps = groups_at (lookup isa_set d) in
    if has_kind kind grps
    then err die
    else (add_records_from_str line.row_val (new_group kind isa_set) >>= λ grp.
        ok (insert isa_set (grps ++ kept_if grp.records grp) d))

unfoldable pub read_lines : List Line → Groups → Result Groups
unfolding read_line
read_lines [] d = ok d
read_lines (line ∷ lines) d = read_line line d >>= λ next. read_lines lines next

abbrev pub by_kind : GroupRecord → GroupRecord → Bool
by_kind a b = leb (sort_key a.kind) (sort_key b.kind)

abbrev pub sorted_groups : Groups → Groups
sorted_groups [] = []
sorted_groups ((isa_set, grps) ∷ d) = (isa_set, sorted by_kind grps) ∷ sorted_groups d

unfoldable pub read_file : List Line → Result Groups
unfolding read_lines sorted
read_file lines = read_lines lines [] >>= λ d. ok (sorted_groups d)
