-- ===== src/Pattern/Replace.antt =====
-- The replacements that may follow, and `_get_united_cdict`, which makes them all.
use xed.Base.{
  ℕ, String, Bool, true, false, not, ◌&&◌, ◌||◌, Option, none, some, List, [], ◌∷◌, ◌++◌, Result,
  ok, err, die, ◌>>=◌, or_raise, eqb, if◌then◌else◌, contains, length, nat_eq, string_eq,
}
use xed.Base.Dict.{Dict, lookup, keys}
use xed.Base.Sort.{sorted}
use xed.Cdict.{Space, Cdict, new_constraint_dict, unite_dicts, create_tuple2int}
use xed.Pattern.{
  Bit, eq, Pattern, leb_string, all_of, any_of, remove, add, set_of, same_keys, constrain,
  is_eq_bit, is_binary_mod3, with_mod3, replace, has_vexdest210_equals_7_restriction, with_vd2107,
  has_vexdest_equals_1f_restriction,
}

abbrev pub or_no_values : Option (List ℕ) → List ℕ
or_no_values none = []
or_no_values (some vals) = vals

-- The entries of `found` for VEXDEST210_7, VEXDEST3 and VEXDEST4. The last one is set by the token
-- VEXDEST3, as in the source.
unfoldable pub with_vd1f : Pattern → Result Pattern
unfolding lookup any_of all_of
with_vd1f p =
    let found7 = same_keys (or_no_values (lookup "VEXDEST210_7" p.constraints)) (1 ∷ []) in
    let found3 = any_of (is_eq_bit "VEXDEST3") p.bits in
    let found4 = any_of (is_eq_bit "VEXDEST3") p.bits in
    if found7 && found3 && found4
    then ok (constrain "VEXDEST_1F" (1 ∷ []) p)
    else if found7 || found3 || found4
    then err die
    else ok (constrain "VEXDEST_1F" (1 ∷ 0 ∷ []) p)

unfoldable pub map_result : {A B : Type 0} → (A → Result B) → List A → Result (List B)
map_result f [] = ok []
map_result f (x ∷ xs) = do y ← f x; ys ← map_result f xs; ok (y ∷ ys)

abbrev pub Named : Type 0
Named = List String × List Pattern

unfoldable pub replace_vexdest_with_vd1f : List String → List Pattern → Result Named
unfolding remove add map_result with_vd1f
replace_vexdest_with_vd1f cnames ptrn_list = do
  cnames ← remove "VEXDEST210_7" cnames
  cnames ← remove "VEXDEST3" cnames
  cnames ← remove "VEXDEST4" cnames
  ptrns ← map_result with_vd1f ptrn_list
  ok (add "VEXDEST_1F" cnames, ptrns)

abbrev pub is_rm_4 : Option (List ℕ) → Bool
is_rm_4 none = false
is_rm_4 (some cvals) = eqb (length cvals) 1 && contains 4 cvals

unfoldable pub is_binary_rm_4 : List String → List Pattern → Bool
unfolding all_of lookup
is_binary_rm_4 cnames ptrn_list =
    contains "RM" cnames && all_of (λ p. is_rm_4 (lookup "RM" p.constraints)) ptrn_list

abbrev pub with_rm4 : Pattern → Pattern
with_rm4 p = constrain "RM4" (1 ∷ []) p

-- `bt.token == token` and a test other than `eq`
abbrev pub is_other_bit : String → Bit → Bool
is_other_bit token b = string_eq.beq b.token token && elim b.test [ eq ↦ false | _ ↦ true ]

abbrev pub is_mask_zero : List Bit → Option (List ℕ) → Bool
is_mask_zero bits none = true
is_mask_zero bits (some cvals) =
    if same_keys cvals (0 ∷ [])
    then not (any_of (is_other_bit "MASK") bits)
    else eqb (length cvals) 8

unfoldable pub has_mask_zero_restriction : List String → List Pattern → Bool
unfolding all_of any_of lookup
has_mask_zero_restriction cnames ptrn_list =
    contains "MASK" cnames
    && all_of (λ p. is_mask_zero p.bits (lookup "MASK" p.constraints)) ptrn_list

abbrev pub is_zero_mask : Option (List ℕ) → Bool
is_zero_mask none = false
is_zero_mask (some cvals) = same_keys cvals (0 ∷ [])

abbrev pub with_mask_zero : Pattern → Pattern
with_mask_zero p =
    constrain "MASK_ZERO"
      (if is_zero_mask (lookup "MASK" p.constraints) then 1 ∷ [] else 0 ∷ 1 ∷ []) p

-- a replacement where its test holds
abbrev pub when : Bool → (List String → List Pattern → Result Named) → Named → Result Named
when true step (cnames, ptrns) = step cnames ptrns
when false step (cnames, ptrns) = ok (cnames, ptrns)

unfoldable pub compress_mod : Named → Result Named
unfolding is_binary_mod3 replace
compress_mod (cnames, ptrns) =
    when (is_binary_mod3 ptrns) (replace "MOD" "MOD3" with_mod3) (cnames, ptrns)

unfoldable pub compress_1f : Dict String ℕ → List String → List Pattern → Result Named
unfolding has_vexdest_equals_1f_restriction replace_vexdest_with_vd1f
compress_1f all_ops_widths cnames ptrns =
    has_vexdest_equals_1f_restriction cnames ptrns all_ops_widths >>= λ all_ones.
    when all_ones replace_vexdest_with_vd1f (cnames, ptrns)

unfoldable pub compress_vexdest : Dict String ℕ → Named → Result Named
unfolding has_vexdest210_equals_7_restriction replace compress_1f
compress_vexdest all_ops_widths (cnames, ptrns) = do
  sevens ← has_vexdest210_equals_7_restriction cnames ptrns
  when sevens
      (λ cnames ptrns. replace "VEXDEST210" "VEXDEST210_7" with_vd2107 cnames ptrns >>= λ named.
        compress_1f all_ops_widths named.0 named.1)
      (cnames, ptrns)

unfoldable pub compress_rm : Named → Result Named
unfolding is_binary_rm_4 replace
compress_rm (cnames, ptrns) =
    when (is_binary_rm_4 cnames ptrns) (replace "RM" "RM4" with_rm4) (cnames, ptrns)

unfoldable pub compress_mask : Named → Result Named
unfolding has_mask_zero_restriction replace
compress_mask (cnames, ptrns) =
    when (has_mask_zero_restriction cnames ptrns) (replace "MASK" "MASK_ZERO" with_mask_zero)
      (cnames, ptrns)

unfoldable pub compress : Dict String ℕ → Named → Result Named
unfolding compress_mod compress_vexdest compress_rm compress_mask
compress all_ops_widths named = do
  named ← compress_mod named
  named ← compress_vexdest all_ops_widths named
  named ← compress_rm named
  compress_mask named

-- the patterns of one encoding space
unfoldable pub of_space : ℕ → List Pattern → List Pattern
of_space vexvalid [] = []
of_space vexvalid (p ∷ ps) =
    if eqb vexvalid p.vv then p ∷ of_space vexvalid ps else of_space vexvalid ps

unfoldable pub all_names : List Pattern → List String
all_names [] = []
all_names (p ∷ ps) = keys p.constraints ++ all_names ps

unfoldable pub cdict_of : List String → Space → Pattern → Result (Cdict Pattern)
unfolding sorted new_constraint_dict
cdict_of cnames state_space p =
    new_constraint_dict (sorted leb_string cnames) p.constraints state_space p

-- the dictionaries of the patterns, in a list
unfoldable pub cdicts_of : List String → Space → List Pattern → Result (List (Cdict Pattern))
unfolding cdict_of
cdicts_of cnames state_space [] = ok []
cdicts_of cnames state_space (p ∷ ptrns) = cdict_of cnames state_space p >>= λ cdict.
    cdicts_of cnames state_space ptrns >>= λ cdicts. ok (cdict ∷ cdicts)

-- The dictionaries of the patterns, united, with their keys.
unfoldable pub unite_patterns : Space → Dict String ℕ → Named → Result (Option (Cdict Pattern))
unfolding cdicts_of unite_dicts create_tuple2int sorted
unite_patterns state_space all_ops_widths (cnames, ptrns) = do
  cdicts ← cdicts_of cnames state_space ptrns
  united ← unite_dicts cdicts (sorted leb_string cnames)
  united_dict ← or_raise die united
  indexed ← create_tuple2int united_dict all_ops_widths
  ok (some indexed)

unfoldable pub united_of : Space → Dict String ℕ → List Pattern → Result (Option (Cdict Pattern))
unfolding set_of all_names compress unite_patterns
united_of state_space all_ops_widths [] = ok none
united_of state_space all_ops_widths (p ∷ ptrns) =
    compress all_ops_widths (set_of (all_names (p ∷ ptrns)) [], p ∷ ptrns)
    >>= unite_patterns state_space all_ops_widths

-- `_get_united_cdict`, with the action of the dictionary left to its rules
unfoldable pub get_united_cdict :
    List Pattern → Space → ℕ → Dict String ℕ → Result (Option (Cdict Pattern))
unfolding of_space united_of
get_united_cdict ptrn_list state_space vexvalid all_ops_widths =
    united_of state_space all_ops_widths (of_space vexvalid ptrn_list)
