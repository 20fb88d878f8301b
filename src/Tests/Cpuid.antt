-- ===== src/Tests/Cpuid.antt =====
-- A file of CPUID lines.
use xed.Base.{
  ◌≡◌, ◌≢◌, ◌↔◌, ◌⊎◌, refl, true, false, some, List, [], ◌∷◌, ok, err, die, assertion_error,
  string_eq,
}
use xed.Base.Dict.{lookup}
use xed.Cpuid.{Match, not_available, range_def, bit_def, old_def, matched, load_from_str}
use xed.Cpuid.Files.{
  avx10, fbit, GroupRecord, Groups, RecordMap, Line, read_file, make_cpuid_rec_info_map,
}
use xed.Cpuid.Valid.{IsRecord, load_from_str_iff}
use xed.Cpuid.Groups.{AreSortedGroups, read_file-AreSortedGroups}
use xed.Cpuid.Flat.{records_of}
use xed.Cpuid.Names.{IsInfoMap, Differ, make_cpuid_rec_info_map-Decides}

abbrev avx512f : Match
avx512f = bit_def "AVX512F" "7" "0" "EBX" "16"

abbrev avx10_enabled : Match
avx10_enabled = old_def "AVX10_ENABLED" "7" "1" "EDX" "19"

abbrev avx10_ver : Match
avx10_ver = range_def "AVX10_VER1" "24" "0" "EBX" "0" "7" "1"

abbrev lines : List Line
lines =
    record { row_key_list = "AVX512F_512" ∷ []; row_val = avx512f ∷ []; has_avx10 = false }
    ∷ record {
      row_key_list = "AVX512F_512" ∷ "AVX10" ∷ [];
      row_val = avx10_enabled ∷ avx10_ver ∷ [];
      has_avx10 = true;
    }
    ∷ record { row_key_list = "I86" ∷ []; row_val = not_available ∷ []; has_avx10 = false }
    ∷ []

abbrev avx10_group : GroupRecord
avx10_group = record {
  kind = avx10;
  isa_set = "AVX512F_512";
  name = "AVX512F_512_AVX10";
  records = matched avx10_enabled ∷ matched avx10_ver ∷ [];
}

abbrev fbit_group : GroupRecord
fbit_group = record {
  kind = fbit;
  isa_set = "AVX512F_512";
  name = "AVX512F_512";
  records = matched avx512f ∷ [];
}

abbrev file : Groups
file = ("AVX512F_512", avx10_group ∷ fbit_group ∷ []) ∷ ("I86", []) ∷ []

-- The line that comes second has the kind that comes first.
file_run : read_file lines ≡ ok file
unfolding read_file
file_run = refl

-- A group of feature bits may not have the record of AVX10.
misplaced :
    read_file (
      record {
        row_key_list = "AVX512F_512" ∷ "FBIT" ∷ [];
        row_val = avx10_enabled ∷ [];
        has_avx10 = true;
      }
      ∷ [])
    ≡ err die
unfolding read_file
misplaced = refl

-- A value that needs more bits than there are is not loaded.
too_wide : load_from_str (range_def "F" "7" "0" "EBX" "0" "1" "4") ≡ err assertion_error
unfolding load_from_str
too_wide = refl

found_groups : lookup "AVX512F_512" file ≡ some (avx10_group ∷ fbit_group ∷ [])
unfolding lookup
found_groups = refl

read_file-AreSortedGroups_example : AreSortedGroups (avx10_group ∷ fbit_group ∷ [])
read_file-AreSortedGroups_example =
    read_file-AreSortedGroups lines file "AVX512F_512" (avx10_group ∷ fbit_group ∷ []) file_run
      found_groups

make_cpuid_rec_info_map-Decides_example :
    ((info : RecordMap) × (make_cpuid_rec_info_map file ≡ ok info)
      × IsInfoMap (records_of file) info)
    ⊎ ((make_cpuid_rec_info_map file ≡ err die) × Differ (records_of file))
make_cpuid_rec_info_map-Decides_example = make_cpuid_rec_info_map-Decides file

load_from_str_iff_example : (load_from_str avx10_ver ≡ ok (true, matched avx10_ver)) ↔ (
    (avx10_ver ≢ not_available)
    × (matched avx10_ver ≡ matched avx10_ver)
    × IsRecord (matched avx10_ver))
load_from_str_iff_example = load_from_str_iff avx10_ver (matched avx10_ver)
