-- ===== src/Encoder.antt =====
-- pysrc/constraint_vec_gen.py: the dictionary from tuples of constraint values to the rules of one
-- nonterminal of the encoder. It has the attributes of `Cdict`, and `gen_hash` takes it as one. Its
-- `filter_tuples` is the code of that of `constraint_dict_t`.
pub mod Vector
pub mod Conflicts
use xed.Base.{
  ℕ, zero, suc, ◌+◌, String, Bool, true, false, Option, none, some, List, [], ◌∷◌, ◌++◌, map,
  Result, ok, err, die, key_error, ◌>>=◌, or_raise, if◌then◌else◌, nat_eq, list_eq, string_eq,
}
use xed.Base.Dict.{Dict, lookup, insert, keys, has}
use xed.Base.Sort.{sorted}
use xed.Cdict.{Tuple, Space, Cdict, fill_ints}
use xed.Pattern.{leb_string, set_of}

-- A rule of the nonterminal, with what this class reads of it.
pub record Rule : Type 0 where
  pub cdict : Space
  pub number : ℕ

unfoldable pub rule_names : List Rule → List String
rule_names [] = []
rule_names (rule ∷ rules) = keys rule.cdict ++ rule_names rules

-- Rules without any constraint are an error.
abbrev pub not_empty : List String → Result (List String)
not_empty [] = err die
not_empty (name ∷ names) = ok (name ∷ names)

unfoldable pub capture_cnames : List Rule → Result (List String)
unfolding rule_names set_of sorted
capture_cnames [] = ok []
capture_cnames (rule ∷ rules) =
    not_empty (sorted leb_string (set_of (rule_names (rule ∷ rules)) []))

-- the values of a rule for a name, or all values of the operand
abbrev pub own_or_all : Option (List ℕ) → Option (List ℕ) → Result (List ℕ)
own_or_all (some vals) all = ok vals
own_or_all none all = or_raise key_error all

unfoldable pub vals_for : Space → Rule → String → Result (List ℕ)
unfolding lookup
vals_for state_space rule cname = own_or_all (lookup cname rule.cdict) (lookup cname state_space)

-- `for val in vals: for c in ctup: new_ctup.append(c+(val,))`
abbrev pub with_val : ℕ → Tuple → Tuple
with_val val c = c ++ val ∷ []

abbrev pub lengthen : List ℕ → List Tuple → List Tuple
lengthen [] ctup = []
lengthen (val ∷ vals) ctup = map (with_val val) ctup ++ lengthen vals ctup

abbrev pub single : ℕ → Tuple
single val = val ∷ []

-- the loop over the names after the first
unfoldable pub cross : Space → Rule → List String → List Tuple → Result (List Tuple)
unfolding vals_for
cross state_space rule [] ctup = ok ctup
cross state_space rule (cname ∷ cnames) ctup =
    vals_for state_space rule cname >>= λ vals. cross state_space rule cnames (lengthen vals ctup)

unfoldable pub tuples_of : Space → Rule → List String → Result (List Tuple)
unfolding vals_for cross
tuples_of state_space rule [] = ok []
tuples_of state_space rule (cname ∷ cnames) =
    vals_for state_space rule cname >>= λ vals. cross state_space rule cnames (map single vals)

-- A tuple that has a rule already is a conflict.
unfoldable pub add_tuples : Rule → List Tuple → Dict Tuple Rule → Result (Dict Tuple Rule)
unfolding lookup insert
add_tuples rule [] tuple2rule = ok tuple2rule
add_tuples rule (t ∷ ctup) tuple2rule =
    let rest = add_tuples rule ctup (insert t rule tuple2rule) in
    if has t tuple2rule then err die else rest

unfoldable pub make_tuple2rule :
    Space → List String → List Rule → Dict Tuple Rule → Result (Dict Tuple Rule)
unfolding tuples_of add_tuples
make_tuple2rule state_space cnames [] tuple2rule = ok tuple2rule
make_tuple2rule state_space cnames (rule ∷ rules) tuple2rule = do
  ctup ← tuples_of state_space rule cnames
  next ← add_tuples rule ctup tuple2rule
  make_tuple2rule state_space cnames rules next

-- `work`, which calls `_capture_cnames`, `_make_tuple2rule` and `_gen_tuple2int`. The loop of the last
-- is that of `tup2int.tuple2int`.
unfoldable pub work : Space → Dict String ℕ → List Rule → Result (Cdict Rule)
unfolding capture_cnames make_tuple2rule fill_ints
work state_space op_widths rules = do
  cnames ← capture_cnames rules
  tuple2rule ← make_tuple2rule state_space cnames rules []
  (t2i, i2t) ← fill_ints cnames op_widths (keys tuple2rule) [] []
  ok (record {
    cnames = cnames;
    rule = none;
    op_widths = op_widths;
    tuple2rule = tuple2rule;
    tuple2int = t2i;
    int2tuple = i2t;
  })
