-- ===== src/Pattern.antt =====
-- pysrc/ild_cdict.py: the dictionary of all patterns of one map and opcode, and the operands that it
-- replaces by narrower ones before. A pattern is what the functions read of `ild.pattern_t`.
pub mod Replace
pub mod Compress
pub mod Operands
pub mod United
pub mod Decode
pub mod Widths
pub mod Maps
use Prim.Native.String.{compare, find, len}
use Prim.Native.Nat.{Ordering}
use xed.Base.{
  ℕ, zero, suc, ◌+◌, String, Bool, true, false, not, ◌&&◌, ◌||◌, Option, none, some, List, [], ◌∷◌,
  ◌++◌, map, Result, ok, err, die, key_error, ◌>>=◌, or_raise, ltb, leb, eqb, if◌then◌else◌,
  contains, length, nat_eq, string_eq, is_some,
}
use xed.Base.Dict.{Dict, lookup, insert, keys, has}
use xed.Base.Sort.{sorted}
use xed.Cdict.{Tuple, Space, Cdict, constraint_dict, unite_dicts, create_tuple2int}

-- `bt.test` of a bit of the pattern
pub data Test : Type 0 where
  eq ne no_test : Test

pub record Bit : Type 0 where
  pub token : String
  pub test : Test

pub record Pattern : Type 0 where
  pub ptrn : String
  pub constraints : Space
  pub bits : List Bit
  pub vv : ℕ
  pub inum : ℕ

-- Python's order of strings, for `sorted`
abbrev pub leb_string : String → String → Bool
leb_string s t = elim (compare s t) [ Ordering.gt ↦ false | _ ↦ true ]

-- `word in text`
abbrev pub in_text : String → String → Bool
in_text word text = leb (find text word) (len text)

unfoldable pub all_of : {A : Type 0} → (A → Bool) → List A → Bool
all_of test [] = true
all_of test (x ∷ xs) = let rest = all_of test xs in if test x then rest else false

unfoldable pub any_of : {A : Type 0} → (A → Bool) → List A → Bool
any_of test [] = false
any_of test (x ∷ xs) = let rest = any_of test xs in if test x then true else rest

-- `set.remove`, which raises, and `set.add`
unfoldable pub remove : String → List String → Result (List String)
remove name [] = err key_error
remove name (x ∷ xs) =
    let rest = remove name xs in
    if string_eq.beq x name then ok xs else (rest >>= λ ys. ok (x ∷ ys))

unfoldable pub add : String → List String → List String
add name xs = if contains name xs then xs else xs ++ name ∷ []

-- the set of the elements
unfoldable pub set_of : List String → List String → List String
unfolding add
set_of [] seen = seen
set_of (x ∷ xs) seen = set_of xs (add x seen)

-- Equality of two constraints as dictionaries of true values: the same keys, in any order.
abbrev pub same_keys : List ℕ → List ℕ → Bool
same_keys xs ys = eqb (length xs) (length ys) && all_of (λ x. contains x ys) xs

-- `ptrn.constraints[name] = vals`
abbrev pub constrain : String → List ℕ → Pattern → Pattern
constrain name vals p = record p { constraints = insert name vals p.constraints }

-- `bt.token == token and bt.test == 'eq'` for some bit
abbrev pub is_eq_bit : String → Bit → Bool
is_eq_bit token b = string_eq.beq b.token token && elim b.test [ eq ↦ true | _ ↦ false ]

unfoldable pub is_binary_mod3 : List Pattern → Bool
unfolding all_of
is_binary_mod3 ptrn_list = all_of (λ p. in_text "MOD=3" p.ptrn || in_text "MOD!=3" p.ptrn) ptrn_list

abbrev pub with_mod3 : Pattern → Pattern
with_mod3 p = constrain "MOD3" (if in_text "MOD=3" p.ptrn then 1 ∷ [] else 0 ∷ []) p

-- The set of names and the patterns, after a replacement.
unfoldable pub replace :
    String
    → String
    → (Pattern → Pattern)
    → List String
    → List Pattern
    → Result (List String × List Pattern)
unfolding remove add
replace old new step cnames ptrn_list =
    remove old cnames >>= λ names. ok (add new names, map step ptrn_list)

-- One value that is not 7 is another restriction.
abbrev pub is_vexdest210_7 : Option (List ℕ) → Bool
is_vexdest210_7 none = true
is_vexdest210_7 (some cvals) = not (eqb (length cvals) 1 && not (contains 7 cvals))

unfoldable pub has_vexdest210_equals_7_restriction : List String → List Pattern → Result Bool
unfolding all_of any_of lookup
has_vexdest210_equals_7_restriction cnames ptrn_list =
    if not (contains "VEXDEST210" cnames)
    then ok false
    else if any_of (λ p. has "VEXDEST210_7" p.constraints) ptrn_list
    then err die
    else ok (all_of (λ p. is_vexdest210_7 (lookup "VEXDEST210" p.constraints)) ptrn_list)

abbrev pub with_vd2107 : Pattern → Pattern
with_vd2107 p =
    constrain "VEXDEST210_7" (if any_of (is_eq_bit "VEXDEST210") p.bits then 1 ∷ [] else 0 ∷ 1 ∷ [])
      p

-- `class bit(Enum)`
pub data BitValue : Type 0 where
  one zero_bit dcare : BitValue

abbrev pub is_one : BitValue → Bool
is_one one = true
is_one _ = false

abbrev pub is_zero_bit : BitValue → Bool
is_zero_bit zero_bit = true
is_zero_bit _ = false

abbrev pub is_dcare : BitValue → Bool
is_dcare dcare = true
is_dcare _ = false

unfoldable pub bit_of_values : List ℕ → Option BitValue
unfolding all_of
bit_of_values constr =
    if same_keys constr (1 ∷ [])
    then some one
    else if same_keys constr (0 ∷ [])
    then some zero_bit
    else if same_keys constr (0 ∷ 1 ∷ [])
    then some dcare
    else none

abbrev pub bit_of_constraint : Option (List ℕ) → Option BitValue
bit_of_constraint none = some dcare
bit_of_constraint (some constr) = bit_of_values constr

-- `None` where the operand is not a bit
unfoldable pub get_constraint_bit : Space → String → Dict String ℕ → Result (Option BitValue)
unfolding lookup bit_of_values
get_constraint_bit constraints op all_ops_widths = do
  width ← or_raise key_error (lookup op all_ops_widths)
  ok (if eqb width 1 then bit_of_constraint (lookup op constraints) else none)

abbrev pub is_bit : (BitValue → Bool) → Option BitValue → Bool
is_bit test none = false
is_bit test (some b) = test b

-- The two statements that are to invert bit 4: the second sees what the first has set.
abbrev pub invert_bit4 : Option BitValue → Option BitValue
invert_bit4 bit4 =
    let first = if is_bit is_one bit4 then some zero_bit else bit4 in
    if is_bit is_zero_bit first then some one else first

-- the body of the loop for one pattern: is its restriction of VEXDEST a trivial one?
unfoldable pub is_trivial_vexdest : Dict String ℕ → Pattern → Result Bool
unfolding get_constraint_bit
is_trivial_vexdest all_ops_widths p = if has "VEXDEST_1F" p.constraints then err die else (do
  bit210 ← get_constraint_bit p.constraints "VEXDEST210_7" all_ops_widths
  bit3 ← get_constraint_bit p.constraints "VEXDEST3" all_ops_widths
  bit4 ← get_constraint_bit p.constraints "VEXDEST4" all_ops_widths
  let vd_bits = bit210 ∷ bit3 ∷ invert_bit4 bit4 ∷ []
  ok (all_of (is_bit is_one) vd_bits || all_of (is_bit is_dcare) vd_bits))

-- The loop stops at the first pattern with another restriction.
unfoldable pub all_trivial_vexdest : Dict String ℕ → List Pattern → Result Bool
unfolding is_trivial_vexdest
all_trivial_vexdest all_ops_widths [] = ok true
all_trivial_vexdest all_ops_widths (p ∷ ps) =
    let rest = all_trivial_vexdest all_ops_widths ps in
    is_trivial_vexdest all_ops_widths p >>= λ trivial. if trivial then rest else ok false

unfoldable pub has_vexdest_equals_1f_restriction :
    List String → List Pattern → Dict String ℕ → Result Bool
unfolding all_trivial_vexdest
has_vexdest_equals_1f_restriction cnames ptrn_list all_ops_widths =
    if contains "VEXDEST210_7" cnames && contains "VEXDEST3" cnames && contains "VEXDEST4" cnames
    then all_trivial_vexdest all_ops_widths ptrn_list
    else ok false
