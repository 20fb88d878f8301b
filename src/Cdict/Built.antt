-- ===== src/Cdict/Built.antt =====
-- The dictionary that the constructor of `constraint_dict_t` makes is one: its tuples are distinct,
-- and they are those of the cross product.
use xed.Base.{
  ℕ, ◌≡◌, ◌≢◌, ◌↔◌, refl, String, some, List, [], ◌∷◌, ◌++◌, nat_eq, list_eq, string_eq, map,
}
use xed.Base.Dict.{Dict, lookup, keys, IsDict, insert-IsDict}
use xed.Cdict.{
  Tuple, Space, Cdict, singletons, extend_key, extend_keys, add_constraint, initialize_tuple2rule,
  constraint_dict, values_of,
}
use xed.Cdict.Space.{InSpace, AreInhabited, initialize_tuple2rule-InSpace}

module _ {R : Type 0} (rule : R) where
  singletons-IsDict :
      (vals : List ℕ) (d : Dict Tuple R) → IsDict d → IsDict (singletons rule vals d)
  unfolding singletons
  singletons-IsDict [] d w = w
  singletons-IsDict (v ∷ vals) d w = singletons-IsDict vals _ (insert-IsDict (v ∷ []) rule d w)

  extend_key-IsDict :
      (u : Tuple) (vals : List ℕ) (d : Dict Tuple R) → IsDict d → IsDict (extend_key rule u vals d)
  unfolding extend_key
  extend_key-IsDict u [] d w = w
  extend_key-IsDict u (v ∷ vals) d w =
      extend_key-IsDict u vals _ (insert-IsDict (u ++ v ∷ []) rule d w)

  extend_keys-IsDict :
      (us : List Tuple) (vals : List ℕ) (d : Dict Tuple R)
      → IsDict d
      → IsDict (extend_keys rule us vals d)
  unfolding extend_keys
  extend_keys-IsDict [] vals d w = w
  extend_keys-IsDict (u ∷ us) vals d w = extend_keys-IsDict us vals _ (extend_key-IsDict u vals d w)

  add_constraint-IsDict : (vals : List ℕ) (d : Dict Tuple R) → IsDict (add_constraint rule vals d)
  unfolding add_constraint
  add_constraint-IsDict vals [] = singletons-IsDict vals [] tt
  add_constraint-IsDict vals (entry ∷ d) = extend_keys-IsDict (keys (entry ∷ d)) vals [] tt

  initialize_tuple2rule-IsDict :
      (vals_of : String → List ℕ) (cnames : List String) (d : Dict Tuple R)
      → IsDict d
      → IsDict (initialize_tuple2rule vals_of rule cnames d)
  unfolding initialize_tuple2rule
  initialize_tuple2rule-IsDict vals_of [] d w = w
  initialize_tuple2rule-IsDict vals_of (name ∷ cnames) d w =
      initialize_tuple2rule-IsDict vals_of cnames _ (add_constraint-IsDict (vals_of name) d)

  pub constraint_dict-IsDict :
      (cnames : List String) (space all : Space)
      → IsDict (Cdict.tuple2rule (constraint_dict cnames space all rule))
  unfolding constraint_dict
  constraint_dict-IsDict cnames [] all = tt
  constraint_dict-IsDict cnames (entry ∷ space) all =
      initialize_tuple2rule-IsDict (values_of (entry ∷ space) all) cnames [] tt

  -- The dictionary of a rule with constraints has the tuples of its legal values.
  pub constraint_dict-InSpace :
      (name : String) (cnames : List String) (space all : Space) (t : Tuple) (r : R)
      → space ≢ []
      → AreInhabited rule (values_of space all) (name ∷ cnames)
      → (lookup t (Cdict.tuple2rule (constraint_dict (name ∷ cnames) space all rule)) ≡ some r)
        ↔ (InSpace t (map (values_of space all) (name ∷ cnames)) × (r ≡ rule))
  unfolding constraint_dict
  constraint_dict-InSpace name cnames [] all t r some_space inh = absurd (some_space refl)
  constraint_dict-InSpace name cnames (entry ∷ space) all t r some_space inh =
      initialize_tuple2rule-InSpace rule (values_of (entry ∷ space) all) name cnames t r inh

  pub constraint_dict-cnames :
      (cnames : List String) (space all : Space)
      → Cdict.cnames (constraint_dict cnames space all rule) ≡ cnames
  unfolding constraint_dict
  constraint_dict-cnames cnames [] all = refl
  constraint_dict-cnames cnames (entry ∷ space) all = refl
