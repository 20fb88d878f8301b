-- ===== src/Cdict/Key.antt =====
-- The key of a tuple: no two tuples whose values fit their fields have the same key.
use xed.Base.{
  ℕ, ◌+◌, ◌*◌, ◌^◌, ◌<◌, ◌≡◌, refl, ap, ◌∙◌, String, some, List, [], ◌∷◌, ok, arith, string_eq, sym,
  Result,
}
use xed.Base.Dict.{Dict, lookup}
use xed.Base.Power.{pow-add, pow-pos, digit_unique}
use xed.Cdict.{Tuple, tuple2int, tuple2int_from}

-- the widths of the named fields
abbrev pub HasWidths : Dict String ℕ → List String → List ℕ → Type 0
HasWidths widths [] [] = Unit
HasWidths widths [] (w ∷ ws) = ⊥
HasWidths widths (c ∷ cnames) [] = ⊥
HasWidths widths (c ∷ cnames) (w ∷ ws) = (lookup c widths ≡ some w) × HasWidths widths cnames ws

-- every value fits in its field, and there is one for each field
abbrev pub Fits : Tuple → List ℕ → Type 0
Fits [] [] = Unit
Fits [] (w ∷ ws) = ⊥
Fits (b ∷ t) [] = ⊥
Fits (b ∷ t) (w ∷ ws) = (b < 2 ^ w) × Fits t ws

-- the first field in the low bits
abbrev pub pack : Tuple → List ℕ → ℕ
pack [] ws = 0
pack (b ∷ t) [] = b
pack (b ∷ t) (w ∷ ws) = b + 2 ^ w * pack t ws

abbrev pub total : List ℕ → ℕ
total [] = 0
total (w ∷ ws) = w + total ws

pub regroup : (m n b p r : ℕ) → r + b * m + m * n * p ≡ r + m * (b + n * p)
regroup m n b p r = omega arith

from-pack :
    (t : Tuple) (cnames : List String) (widths : Dict String ℕ) (ws : List ℕ) (res shift : ℕ)
    → HasWidths widths cnames ws
    → Fits t ws
    → tuple2int_from t cnames widths res shift ≡ ok (res + 2 ^ shift * pack t ws)
unfolding tuple2int_from
from-pack [] cnames widths ws res shift h f = ap ok (omega arith)
from-pack (b ∷ t) cnames widths [] res shift h f = elim f [ ]
from-pack (b ∷ t) [] widths (w ∷ ws) res shift h f = elim h [ ]
from-pack (b ∷ t) (c ∷ cnames) widths (w ∷ ws) res shift h f = rw h.0 (
    from-pack t cnames widths ws (res + b * 2 ^ shift) (shift + w) h.1 f.1
    ∙ ap ok (rw (pow-add shift w) (regroup (2 ^ shift) (2 ^ w) b (pack t ws) res)))

-- When the dictionary of widths has the width of every name and the values fit them, one for each
-- name, tuple2int returns the fields packed one beside the other, the first in the low bits.
pub tuple2int-pack :
    (t : Tuple) (cnames : List String) (widths : Dict String ℕ) (ws : List ℕ)
    → HasWidths widths cnames ws
    → Fits t ws
    → tuple2int t cnames widths ≡ ok (pack t ws)
unfolding tuple2int
tuple2int-pack t cnames widths ws h f = from-pack t cnames widths ws 0 0 h f ∙ ap ok (omega arith)

pub pack-injective :
    (t u : Tuple) (ws : List ℕ) → Fits t ws → Fits u ws → pack t ws ≡ pack u ws → t ≡ u
pack-injective [] [] ws f g e = refl
pack-injective [] (c ∷ u) [] f g e = elim g [ ]
pack-injective [] (c ∷ u) (w ∷ ws) f g e = elim f [ ]
pack-injective (b ∷ t) [] [] f g e = elim f [ ]
pack-injective (b ∷ t) [] (w ∷ ws) f g e = elim g [ ]
pack-injective (b ∷ t) (c ∷ u) [] f g e = elim f [ ]
pack-injective (b ∷ t) (c ∷ u) (w ∷ ws) f g e =
    let (same, rest) = digit_unique (2 ^ w) b (pack t ws) c (pack u ws) f.0 g.0 e in
    cc (same, pack-injective t u ws f.1 g.1 rest)

digit-bound : (d m b q : ℕ) → b < d → q < m → b + d * q < d * m
digit-bound d m b q h k = grind arith

pub pack-lt : (t : Tuple) (ws : List ℕ) → Fits t ws → pack t ws < 2 ^ total ws
pack-lt [] ws f = pow-pos (total ws)
pack-lt (b ∷ t) [] f = elim f [ ]
pack-lt (b ∷ t) (w ∷ ws) f =
    rw (pow-add w (total ws))
      (digit-bound (2 ^ w) (2 ^ total ws) b (pack t ws) f.0 (pack-lt t ws f.1))

-- Two tuples that fit the widths of the names and have the same tuple2int are equal.
pub tuple2int-injective :
    (t u : Tuple) (cnames : List String) (widths : Dict String ℕ) (ws : List ℕ)
    → HasWidths widths cnames ws
    → Fits t ws
    → Fits u ws
    → tuple2int t cnames widths ≡ tuple2int u cnames widths
    → t ≡ u
tuple2int-injective t u cnames widths ws h f g e =
    let packed : ◌≡◌ {A = Result ℕ} (ok (pack t ws)) (ok (pack u ws)) =
      sym (tuple2int-pack t cnames widths ws h f) ∙ e ∙ tuple2int-pack u cnames widths ws h g in
    pack-injective t u ws f g (ground (arith, packed))
