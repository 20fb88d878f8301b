-- ===== src/Tests/Samples.antt =====
-- A dictionary over a one-bit and a three-bit constraint, its index, and its hash.
use mathlib.Core.Path.{subst}
use xed.Base.{
  sym, ℕ, ◌+◌, ◌*◌, ◌/◌, ◌≤◌, ◌≡◌, refl, String, none, List, [], ◌∷◌, ok, Elem, arith, nat_eq,
  list_eq, ◌≢◌, inl, inr,
}
use xed.Base.Dict.{Dict, keys, lookup}
use xed.Cdict.{Tuple, Cdict, create_tuple2int}
use xed.Cdict.Index.{IsIndexed, create_tuple2int-IsIndexed}
use xed.Cdict.Key.{HasWidths, Fits}
use xed.Base.Int.{pos}
use xed.Hash.{linear, fks, mult}
use xed.Phash.{L1, L2}
use xed.Phash.Good.{IsScaled}
use xed.Phash.Level1.{HasNarrowKeys}

-- `ceil((1 + x / 10) * n)`
abbrev pub exact : ℕ → ℕ → ℕ
exact n x = (n * (10 + x) + 9) / 10

pub exact-IsScaled : IsScaled exact
exact-IsScaled n x h = omega (arith, scaled_bound n x h)
  where
    scaled_bound : (n x : ℕ) → x ≤ 10 → n * (10 + x) ≤ 20 * n
    scaled_bound n x h = grind arith

abbrev pub cnames : List String
cnames = "MOD3" ∷ "REG" ∷ []

abbrev pub widths : Dict String ℕ
widths = ("MOD3", 1) ∷ ("REG", 3) ∷ []

abbrev pub ws : List ℕ
ws = 1 ∷ 3 ∷ []

-- the rule of a tuple is the number of its instruction
abbrev pub tuple2rule : Dict Tuple ℕ
tuple2rule = (0 ∷ 1 ∷ [], 5) ∷ (1 ∷ 3 ∷ [], 7) ∷ (1 ∷ 6 ∷ [], 9) ∷ []

abbrev pub plain : Cdict ℕ
plain = record {
  cnames = cnames;
  rule = none;
  op_widths = [];
  tuple2rule = tuple2rule;
  tuple2int = [];
  int2tuple = [];
}

abbrev pub indexed : Cdict ℕ
indexed = record {
  cnames = cnames;
  rule = none;
  op_widths = widths;
  tuple2rule = tuple2rule;
  tuple2int = (0 ∷ 1 ∷ [], 2) ∷ (1 ∷ 3 ∷ [], 7) ∷ (1 ∷ 6 ∷ [], 13) ∷ [];
  int2tuple = (2, 0 ∷ 1 ∷ []) ∷ (7, 1 ∷ 3 ∷ []) ∷ (13, 1 ∷ 6 ∷ []) ∷ [];
}

pub made : create_tuple2int plain widths ≡ ok indexed
unfolding create_tuple2int
made = refl

pub indexed-IsIndexed : IsIndexed indexed
indexed-IsIndexed = (create_tuple2int-IsIndexed plain indexed widths made).0

pub indexed-HasNarrowKeys : HasNarrowKeys indexed
unfolding lookup
indexed-HasNarrowKeys u x e = ground (arith, list_eq.beq_iff (0 ∷ 1 ∷ []) u)

pub has_widths : HasWidths widths cnames ws
unfolding lookup
has_widths = (refl, (refl, tt))

pub named : cnames ≢ []
named e = cc (e)

pub tuples_fit : (t : Tuple) → Elem t (keys tuple2rule) → Fits t ws
tuples_fit t m = elim m [
  | inl e ↦ subst (λ u. Fits u ws) (sym e) (omega arith, (omega arith, tt))
  | inr (inl e) ↦ subst (λ u. Fits u ws) (sym e) (omega arith, (omega arith, tt))
  | inr (inr (inl e)) ↦ subst (λ u. Fits u ws) (sym e) (omega arith, (omega arith, tt))
  | inr (inr (inr n)) ↦ elim n [ ]
]

-- the table of one level
abbrev pub one_level : L1 ℕ
one_level = record {
  cdict = indexed;
  hash_f = fks 6 7 3;
  x2hx = (2, pos 2) ∷ (7, pos 0) ∷ (13, pos 1) ∷ [];
  hx2x = (pos 2, 2) ∷ (pos 0, 7) ∷ (pos 1, 13) ∷ [];
  ordinals = (5, pos 3) ∷ (7, pos 1) ∷ (9, pos 2) ∷ [];
}

-- the tables of two levels
abbrev pub two_levels : L2 ℕ
two_levels = record {
  cdict = indexed;
  hash_f = mult 3;
  x2hx = (2, pos 0) ∷ (7, pos 0) ∷ (13, pos 0) ∷ [];
  hx2phash = (pos 0, one_level) ∷ [];
}

-- keys that are dense
abbrev pub dense : Cdict ℕ
dense = record indexed {
  tuple2rule = (0 ∷ 1 ∷ [], 5) ∷ (1 ∷ 1 ∷ [], 7) ∷ [];
  tuple2int = (0 ∷ 1 ∷ [], 2) ∷ (1 ∷ 1 ∷ [], 3) ∷ [];
  int2tuple = (2, 0 ∷ 1 ∷ []) ∷ (3, 1 ∷ 1 ∷ []) ∷ [];
}

abbrev pub dense_table : L1 ℕ
dense_table = record {
  cdict = dense;
  hash_f = linear 2 1;
  x2hx = (2, pos 0) ∷ (3, pos 1) ∷ [];
  hx2x = (pos 0, 2) ∷ (pos 1, 3) ∷ [];
  ordinals = (5, pos 1) ∷ (7, pos 2) ∷ [];
}

pub dense-IsIndexed : IsIndexed dense
unfolding create_tuple2int
dense-IsIndexed =
    (create_tuple2int-IsIndexed (record dense { tuple2int = []; int2tuple = [] }) dense widths
      refl).0

pub dense-HasNarrowKeys : HasNarrowKeys dense
unfolding lookup
dense-HasNarrowKeys u x e = ground (arith, list_eq.beq_iff (0 ∷ 1 ∷ []) u)
