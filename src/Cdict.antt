-- ===== src/Cdict.antt =====
-- pysrc/ild_cdict.py, the class `constraint_dict_t`: a dictionary from the tuples of constraint
-- values of one map and opcode to the rule that each tuple selects, and pysrc/tup2int.py, which
-- packs a tuple into the integer that is hashed. The rule is `ild.pattern_t`, and only passed on.
pub mod Key
pub mod Space
pub mod Built
pub mod Total
pub mod Unite
pub mod Index
pub mod Filter
use xed.Base.{
  ℕ, zero, suc, ◌+◌, ◌*◌, ◌^◌, String, Bool, true, false, Option, none, some, List, [], ◌∷◌, ◌++◌,
  Result, ok, err, die, key_error, index_error, ◌>>=◌, or_raise, leb, if◌then◌else◌, map, nat_eq,
  string_eq, list_eq,
}
use xed.Base.Dict.{Dict, lookup, insert, keys, has}
use xed.Base.Sort.{sorted}

abbrev pub Tuple : Type 0
Tuple = List ℕ

-- the legal values of each constraint, by its name
abbrev pub Space : Type 0
Space = Dict String (List ℕ)

-- The attributes that the hash generator reads.
pub record Cdict (R : Type 0) : Type 0 where
  pub cnames : List String
  pub rule : Option R
  pub op_widths : Dict String ℕ
  pub tuple2rule : Dict Tuple R
  pub tuple2int : Dict Tuple ℕ
  pub int2tuple : Dict ℕ Tuple

-- The loop of `tup2int.tuple2int`, from the field at hand on: `byte << bit_shift` is added to `res`.
unfoldable pub tuple2int_from : Tuple → List String → Dict String ℕ → ℕ → ℕ → Result ℕ
unfolding lookup
tuple2int_from [] cnames widths res bit_shift = ok res
tuple2int_from (byte ∷ t) [] widths res bit_shift = err index_error
tuple2int_from (byte ∷ t) (cname ∷ cnames) widths res bit_shift =
    or_raise key_error (lookup cname widths) >>= λ opwidth.
    tuple2int_from t cnames widths (res + byte * 2 ^ bit_shift) (bit_shift + opwidth)

unfoldable pub tuple2int : Tuple → List String → Dict String ℕ → Result ℕ
unfolding tuple2int_from
tuple2int t cnames op_widths_dict = tuple2int_from t cnames op_widths_dict 0 0

-- `sorted(self.state_space[name].keys())`, or the values that are legal in the whole grammar, which
-- is a `defaultdict`
unfoldable pub values_of : Space → Space → String → List ℕ
unfolding lookup sorted
values_of state_space all_state_space name = elim (lookup name state_space) [
  | some vals ↦ sorted leb vals
  | none ↦ elim (lookup name all_state_space) [ some vals ↦ sorted leb vals | none ↦ [] ]
]

-- Whether a name is in neither dictionary where the values of the whole grammar are empty. These are
-- then a plain dictionary, at which the name raises.
unfoldable pub misses_name : List String → Space → Space → Bool
unfolding lookup
misses_name cnames [] all_state_space = false
misses_name cnames (entry ∷ space) (one ∷ all_state_space) = false
misses_name [] (entry ∷ space) [] = false
misses_name (name ∷ cnames) (entry ∷ space) [] =
    if has name (entry ∷ space) then misses_name cnames (entry ∷ space) [] else true

-- The loop of `create_tuple2int` over the tuples, with the two dictionaries that it fills.
unfoldable pub fill_ints :
    List String
    → Dict String ℕ
    → List Tuple
    → Dict Tuple ℕ
    → Dict ℕ Tuple
    → Result (Dict Tuple ℕ × Dict ℕ Tuple)
unfolding tuple2int lookup insert
fill_ints cnames widths [] t2i i2t = ok (t2i, i2t)
fill_ints cnames widths (t ∷ ts) t2i i2t = tuple2int t cnames widths >>= λ res.
    let rest = fill_ints cnames widths ts (insert t res t2i) (insert res t i2t) in
    if has res i2t then err die else rest

-- `dict((i,t) for t,i in tuple2int.items())`
unfoldable pub invert : Dict Tuple ℕ → Dict ℕ Tuple → Dict ℕ Tuple
unfolding insert
invert [] i2t = i2t
invert ((t, i) ∷ t2i) i2t = invert t2i (insert i t i2t)

module _ {R : Type 0} where
  -- the tuples of length one
  unfoldable pub singletons : R → List ℕ → Dict Tuple R → Dict Tuple R
  unfolding insert
  singletons rule [] tuple2rule = tuple2rule
  singletons rule (val ∷ vals) tuple2rule = singletons rule vals (insert (val ∷ []) rule tuple2rule)

  -- one tuple with every value
  unfoldable pub extend_key : R → Tuple → List ℕ → Dict Tuple R → Dict Tuple R
  unfolding insert
  extend_key rule key_tuple [] new_tuple2rule = new_tuple2rule
  extend_key rule key_tuple (val ∷ vals) new_tuple2rule =
      extend_key rule key_tuple vals (insert (key_tuple ++ val ∷ []) rule new_tuple2rule)

  -- all tuples with every value
  unfoldable pub extend_keys : R → List Tuple → List ℕ → Dict Tuple R → Dict Tuple R
  unfolding extend_key
  extend_keys rule [] vals new_tuple2rule = new_tuple2rule
  extend_keys rule (key_tuple ∷ key_tuples) vals new_tuple2rule =
      extend_keys rule key_tuples vals (extend_key rule key_tuple vals new_tuple2rule)

  -- The step of `_initialize_tuple2rule` for one constraint name: its first recursive call starts
  -- the tuples, a later one lengthens them.
  unfoldable pub add_constraint : R → List ℕ → Dict Tuple R → Dict Tuple R
  unfolding singletons extend_keys
  add_constraint rule vals [] = singletons rule vals []
  add_constraint rule vals (entry ∷ tuple2rule) =
      extend_keys rule (keys (entry ∷ tuple2rule)) vals []

  unfoldable pub initialize_tuple2rule :
      (String → List ℕ) → R → List String → Dict Tuple R → Dict Tuple R
  unfolding add_constraint
  initialize_tuple2rule vals_of rule [] tuple2rule = tuple2rule
  initialize_tuple2rule vals_of rule (name ∷ cnames) tuple2rule =
      initialize_tuple2rule vals_of rule cnames (add_constraint rule (vals_of name) tuple2rule)

  -- `constraint_dict_t(cnames, state_space, all_state_space, rule)`, with the names sorted by the
  -- caller. An empty state space leaves the dictionary empty.
  unfoldable pub constraint_dict : List String → Space → Space → R → Cdict R
  unfolding initialize_tuple2rule values_of
  constraint_dict cnames [] all_state_space rule = record {
    cnames = cnames;
    rule = some rule;
    op_widths = [];
    tuple2rule = [];
    tuple2int = [];
    int2tuple = [];
  }
  constraint_dict cnames (entry ∷ space) all_state_space rule = record {
    cnames = cnames;
    rule = some rule;
    op_widths = [];
    tuple2rule = initialize_tuple2rule (values_of (entry ∷ space) all_state_space) rule cnames [];
    tuple2int = [];
    int2tuple = [];
  }

  -- the constructor, with the error
  unfoldable pub new_constraint_dict : List String → Space → Space → R → Result (Cdict R)
  unfolding misses_name constraint_dict
  new_constraint_dict cnames state_space all_state_space rule =
      if misses_name cnames state_space all_state_space
      then err key_error
      else ok (constraint_dict cnames state_space all_state_space rule)

  -- `constraint_dict_t(cnames=cnames)`
  unfoldable pub no_rules : List String → Cdict R
  no_rules cnames = record {
    cnames = cnames;
    rule = none;
    op_widths = [];
    tuple2rule = [];
    tuple2int = [];
    int2tuple = [];
  }

  -- the inner loop of `unite_dicts`, over the tuples of one dictionary
  unfoldable pub unite_rules : Dict Tuple R → Dict Tuple R → Result (Dict Tuple R)
  unfolding lookup insert
  unite_rules [] res = ok res
  unite_rules ((key, rule) ∷ tuple2rule) res =
      let rest = unite_rules tuple2rule (insert key rule res) in
      if has key res then err die else rest

  unfoldable pub unite_all : List (Cdict R) → Dict Tuple R → Result (Dict Tuple R)
  unfolding unite_rules
  unite_all [] res = ok res
  unite_all (cdict ∷ dict_list) res = unite_rules cdict.tuple2rule res >>= unite_all dict_list

  -- Two or more dictionaries give one without a rule of its own.
  unfoldable pub unite_dicts : List (Cdict R) → List String → Result (Option (Cdict R))
  unfolding unite_all no_rules
  unite_dicts [] cnstr_names = ok none
  unite_dicts (cdict ∷ []) cnstr_names = ok (some cdict)
  unite_dicts (cdict ∷ other ∷ dict_list) cnstr_names = do
    rules ← unite_all (cdict ∷ other ∷ dict_list) []
    ok (some (record (no_rules cnstr_names) { tuple2rule = rules }))

  unfoldable pub create_tuple2int : Cdict R → Dict String ℕ → Result (Cdict R)
  unfolding fill_ints
  create_tuple2int self all_ops_widths = do
    (t2i, i2t) ← fill_ints self.cnames all_ops_widths (keys self.tuple2rule) [] []
    ok (record self { op_widths = all_ops_widths; tuple2int = t2i; int2tuple = i2t })

  unfoldable pub filter_loop :
      Cdict R → List Tuple → Dict Tuple ℕ → Dict Tuple R → Result (Dict Tuple ℕ × Dict Tuple R)
  unfolding lookup insert
  filter_loop self [] t2i t2r = ok (t2i, t2r)
  filter_loop self (t ∷ ts) t2i t2r = do
    i ← or_raise key_error (lookup t self.tuple2int)
    r ← or_raise key_error (lookup t self.tuple2rule)
    filter_loop self ts (insert t i t2i) (insert t r t2r)

  -- the dictionary of the tuples in the list only
  unfoldable pub filter_tuples : Cdict R → List Tuple → Result (Cdict R)
  unfolding filter_loop invert
  filter_tuples self tuples = do
    (t2i, t2r) ← filter_loop self tuples [] []
    ok (record self { tuple2int = t2i; tuple2rule = t2r; int2tuple = invert t2i [] })
