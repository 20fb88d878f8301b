-- ===== src/Tests/Patterns.antt =====
-- The theorems on patterns, at two patterns of one map and opcode.
use xed.Base.{err, key_error}
use xed.Base.{
  ℕ, ◌≡◌, ◌≢◌, ◌<◌, refl, arith, String, ok, some, none, [], ◌∷◌, List, nat_eq, list_eq, string_eq,
  Elem, All, inl, inr,
}
use xed.Base.Dict.{lookup, insert}
use xed.Cdict.{Tuple, Space, Cdict, values_of}
use xed.Cdict.Index.{IsIndexed}
use xed.Pattern.{Pattern}
use xed.Pattern.Replace.{compress_rm, compress_mask, get_united_cdict, unite_patterns}
use xed.Pattern.Compress.{AcceptSame}
use xed.Pattern.Operands.{compress_rm-AcceptSame, compress_mask-AcceptSame}
use xed.Phash.Gen.{gen_hash}
use mathlib.Core.Path.{subst}
use xed.Base.{◌↔◌, false, IsUnique, if◌then◌else◌}
use xed.Base.Int.{pos}
use xed.Base.Sort.{sorted}
use xed.Hash.{mult}
use xed.Phash.{L1, l1}
use xed.Pattern.{leb_string}
use xed.Pattern.United.{Matches, IsSatisfiable, unite_patterns-Matches}
use xed.Pattern.Decode.{Decodes, unite_patterns-Decodes}
use xed.Base.{Elem-contains, ◌^◌}
use xed.Base.Dict.{keys, Dict}
use xed.Pattern.Widths.{special_widths, get_state_op_widths}
use xed.Pattern.Widths.Enough.{get_state_op_widths-lt}
use xed.Pattern.Operands.{HasMasks}
use xed.Cdict.Key.{HasWidths, Fits}
use xed.Tests.Samples.{exact, exact-IsScaled, widths, ws}

abbrev pub load : Pattern
load = record {
  ptrn = "0x90 REG=1";
  constraints = ("REG", 1 ∷ []) ∷ [];
  bits = [];
  vv = 0;
  inum = 5;
}

abbrev pub store : Pattern
store = record {
  ptrn = "0x90 REG=6 MOD=3";
  constraints = ("REG", 6 ∷ []) ∷ ("MOD3", 1 ∷ []) ∷ [];
  bits = [];
  vv = 0;
  inum = 9;
}

abbrev pub space : Space
space = ("REG", 0 ∷ 1 ∷ 2 ∷ 3 ∷ 4 ∷ 5 ∷ 6 ∷ 7 ∷ []) ∷ ("MOD3", 0 ∷ 1 ∷ []) ∷ []

-- the dictionary of the two
abbrev pub both : Cdict Pattern
both = record {
  cnames = "MOD3" ∷ "REG" ∷ [];
  rule = none;
  op_widths = widths;
  tuple2rule = (0 ∷ 1 ∷ [], load) ∷ (1 ∷ 1 ∷ [], load) ∷ (1 ∷ 6 ∷ [], store) ∷ [];
  tuple2int = (0 ∷ 1 ∷ [], 2) ∷ (1 ∷ 1 ∷ [], 3) ∷ (1 ∷ 6 ∷ [], 13) ∷ [];
  int2tuple = (2, 0 ∷ 1 ∷ []) ∷ (3, 1 ∷ 1 ∷ []) ∷ (13, 1 ∷ 6 ∷ []) ∷ [];
}

get_united_cdict_run : get_united_cdict (load ∷ store ∷ []) space 0 widths ≡ ok (some both)
unfolding get_united_cdict
get_united_cdict_run = refl

unite_patterns_run :
    unite_patterns space widths ("REG" ∷ "MOD3" ∷ [], load ∷ store ∷ []) ≡ ok (some both)
unfolding unite_patterns
unite_patterns_run = refl

-- Without values of the whole grammar, a name that a pattern has no constraint on is not found.
missing_name :
    unite_patterns [] widths ("REG" ∷ "MOD3" ∷ "RM" ∷ [], load ∷ store ∷ []) ≡ err key_error
unfolding unite_patterns
missing_name = refl

-- its table
abbrev both_table : L1 Pattern
both_table = record {
  cdict = both;
  hash_f = mult 5;
  x2hx = (2, pos 1) ∷ (3, pos 4) ∷ (13, pos 0) ∷ [];
  hx2x = (pos 1, 2) ∷ (pos 4, 3) ∷ (pos 0, 13) ∷ [];
  ordinals = (load, pos 2) ∷ (load, pos 5) ∷ (store, pos 1) ∷ [];
}

gen_hash_run_both : gen_hash exact both ≡ ok (some (l1 both_table))
unfolding gen_hash
gen_hash_run_both = refl

sorted_names : sorted leb_string ("REG" ∷ "MOD3" ∷ []) ≢ []
unfolding sorted
sorted_names e = cc (e)

satisfiable : All (IsSatisfiable space widths ("REG" ∷ "MOD3" ∷ [])) (load ∷ store ∷ [])
unfolding sorted values_of
satisfiable = (
  (λ e. cc (e), ((0, inl refl), ((1, inl refl), tt))),
  ((λ e. cc (e), ((1, inl refl), ((6, inl refl), tt))), tt),
)

unite_patterns-Matches_example :
    IsIndexed both
    × ((t : Tuple) (q : Pattern)
        → (lookup t both.tuple2rule ≡ some q)
          ↔ (Elem q (load ∷ store ∷ []) × Matches space widths ("REG" ∷ "MOD3" ∷ []) q t))
unite_patterns-Matches_example =
    unite_patterns-Matches space widths ("REG" ∷ "MOD3" ∷ []) sorted_names (load ∷ store ∷ []) both
      satisfiable unite_patterns_run

names-HasWidths : HasWidths widths (sorted leb_string ("REG" ∷ "MOD3" ∷ [])) ws
unfolding sorted lookup
names-HasWidths = (refl, (refl, tt))

small_bit : (v : ℕ) → Elem v (0 ∷ 1 ∷ []) → v < 2
small_bit v m = elim m [
  | inl e ↦ omega arith
  | inr (inl e) ↦ omega arith
  | inr (inr n) ↦ elim n [ ]
]

fit :
    (q : Pattern) (t : Tuple)
    → Elem q (load ∷ store ∷ [])
    → Matches space widths ("REG" ∷ "MOD3" ∷ []) q t
    → Fits t ws
unfolding sorted values_of
fit q t (inl e) m = of_load t (subst (λ p. Matches space widths ("REG" ∷ "MOD3" ∷ []) p t) e m)
  where
    of_load : (t : Tuple) → Matches space widths ("REG" ∷ "MOD3" ∷ []) load t → Fits t ws
    of_load (a ∷ b ∷ []) (h, (inl k, r)) = (small_bit a h, (omega arith, tt))
    of_load (a ∷ b ∷ []) (h, (inr k, r)) = elim k [ ]
    of_load (a ∷ b ∷ c ∷ t) (h, (k, r)) = elim r [ ]
    of_load (a ∷ []) h = elim (h.1) [ ]
    of_load [] h = elim h [ ]
fit q t (inr (inl e)) m =
    of_store t (subst (λ p. Matches space widths ("REG" ∷ "MOD3" ∷ []) p t) e m)
  where
    of_store : (t : Tuple) → Matches space widths ("REG" ∷ "MOD3" ∷ []) store t → Fits t ws
    of_store (a ∷ b ∷ []) (inl h, (inl k, r)) = (omega arith, (omega arith, tt))
    of_store (a ∷ b ∷ []) (inr h, (k, r)) = elim h [ ]
    of_store (a ∷ b ∷ []) (inl h, (inr k, r)) = elim k [ ]
    of_store (a ∷ b ∷ c ∷ t) (h, (k, r)) = elim r [ ]
    of_store (a ∷ []) h = elim (h.1) [ ]
    of_store [] h = elim h [ ]
fit q t (inr (inr n)) m = elim n [ ]

unite_patterns-Decodes_example :
    Decodes space widths ("REG" ∷ "MOD3" ∷ []) (load ∷ store ∷ []) both ws (l1 both_table)
unite_patterns-Decodes_example =
    unite_patterns-Decodes space widths ("REG" ∷ "MOD3" ∷ []) (load ∷ store ∷ []) exact
      exact-IsScaled ws both (l1 both_table) sorted_names satisfiable names-HasWidths (omega arith)
      fit (omega arith) unite_patterns_run gen_hash_run_both

-- RM = 4 and MASK = 0, and the values of the bits that replace them
abbrev operands : String → ℕ
operands name = if string_eq.beq name "RM" then 4 else if string_eq.beq name "MASK" then 0 else 1

abbrev with_rm : Pattern
with_rm = record load { constraints = ("RM", 4 ∷ []) ∷ [] }

string_ne : (s t : String) → string_eq.beq s t ≡ false → s ≢ t
string_ne s t d e = ground (arith, string_eq.beq_iff s t)

compress_rm-AcceptSame_example :
    AcceptSame operands
      ("RM" ∷ [])
      (with_rm ∷ [])
      ("RM4" ∷ [])
      (record load { constraints = ("RM", 4 ∷ []) ∷ ("RM4", 1 ∷ []) ∷ [] } ∷ [])
unfolding insert
compress_rm-AcceptSame_example =
    compress_rm-AcceptSame operands ("RM" ∷ []) (with_rm ∷ [])
      ("RM4" ∷ [], record load { constraints = ("RM", 4 ∷ []) ∷ ("RM4", 1 ∷ []) ∷ [] } ∷ []) refl
      (λ m. elim m [ ], tt)
      (λ m. elim m [ inl e ↦ absurd (string_ne "RM4" "RM" refl e) | inr n ↦ elim n [ ] ])
      (unfold compress_rm in refl)

abbrev with_mask : Pattern
with_mask = record load { constraints = ("MASK", 0 ∷ []) ∷ [] }

has_masks : All HasMasks (with_mask ∷ [])
unfolding lookup
has_masks = (
  λ vals e.
      subst (λ l. IsUnique l × ((m : ℕ) → Elem m l → m < 8)) (some_inj (0 ∷ []) vals e)
        ((λ m. elim m [ ], tt), λ m k. elim k [ inl p ↦ omega arith | inr n ↦ elim n [ ] ]),
  tt,
)
  where
    some_inj : (a b : List ℕ) → some a ≡ some b → a ≡ b
    some_inj a b e = ground arith

compress_mask-AcceptSame_example :
    AcceptSame operands
      ("MASK" ∷ [])
      (with_mask ∷ [])
      ("MASK_ZERO" ∷ [])
      (record load { constraints = ("MASK", 0 ∷ []) ∷ ("MASK_ZERO", 1 ∷ []) ∷ [] } ∷ [])
unfolding insert
compress_mask-AcceptSame_example =
    compress_mask-AcceptSame operands ("MASK" ∷ []) (with_mask ∷ [])
      (
        "MASK_ZERO" ∷ [],
        record load { constraints = ("MASK", 0 ∷ []) ∷ ("MASK_ZERO", 1 ∷ []) ∷ [] } ∷ [],
      )
      (omega arith) refl has_masks (λ m. elim m [ ], tt)
      (λ m. elim m [ inl e ↦ absurd (string_ne "MASK_ZERO" "MASK" refl e) | inr n ↦ elim n [ ] ])
      (unfold compress_mask in refl)

abbrev computed_widths : Dict String ℕ
computed_widths =
    ("REG", 3)
    ∷ ("MOD3", 1)
    ∷ ("VEXDEST210_7", 1)
    ∷ ("VEXDEST_1F", 1)
    ∷ ("RM4", 1)
    ∷ ("MASK_NOT0", 1)
    ∷ ("MASK_ZERO", 1)
    ∷ ("UIMM0", 8)
    ∷ []

ordinary : ¬ (Elem "REG" (keys special_widths))
ordinary m = cc (Elem-contains "REG" (keys special_widths) m)

get_state_op_widths-lt_example : (w : ℕ) × (lookup "REG" computed_widths ≡ some w) × (6 < 2 ^ w)
unfolding insert
get_state_op_widths-lt_example =
    get_state_op_widths-lt [] computed_widths space "REG" (0 ∷ 1 ∷ 2 ∷ 3 ∷ 4 ∷ 5 ∷ 6 ∷ 7 ∷ []) 6
      (unfold lookup in (refl, (refl, tt))) (unfold get_state_op_widths in refl)
      (unfold lookup in refl) (unfold lookup in refl) (λ m. ordinary m)
      (inr (inr (inr (inr (inr (inr (inl refl)))))))
