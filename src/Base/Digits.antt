-- ===== src/Base/Digits.antt =====
-- Numbers in texts: `int(text, base)` on the texts that the regular expressions of the source let
-- through, which are digits only, and `bit_length`.
use Prim.Native.Nat.{ℕ, zero, suc, ◌+◌, ◌-◌, ◌*◌, ◌/◌, ◌^◌, ◌≤◌, ◌<◌}
use Prim.Native.Char.{code}
use Prim.Native.String.{String}
use mathlib.Core.Path.{◌≡◌}
use mathlib.Core.Bool.{true, ◌&&◌}
use mathlib.Core.Option.{Option, none, some}
use mathlib.Core.List.{List, [], ◌∷◌}
use mathlib.Core.Logic.{inl, inr}
use native.Mathlib.Omega.{arith}
use native.Mathlib.Nat.{pow-suc}
use xed.Base.Test.{leb, ltb, eqb, eqb_iff, if◌then◌else◌, Bool-cases}

abbrev pub codes : String → List ℕ
codes String.[] = []
codes (String.◌∷◌ c s) = code c ∷ codes s

-- the value of a digit, at most 15
unfoldable pub digit_of : ℕ → Option ℕ
digit_of c =
    if leb b'0' c && leb c b'9'
    then some (c - 48)
    else if leb b'A' c && leb c b'F'
    then some (c - 55)
    else if leb b'a' c && leb c b'f'
    then some (c - 87)
    else none

abbrev pub below : ℕ → Option ℕ → Option ℕ
below base none = none
below base (some d) = if ltb d base then some d else none

unfoldable pub int_from : ℕ → ℕ → List ℕ → Option ℕ
unfolding digit_of
int_from base acc [] = some acc
int_from base acc (c ∷ cs) =
    let next = λ (d : ℕ). int_from base (acc * base + d) cs in
    elim (below base (digit_of c)) [ none ↦ none | some d ↦ next d ]

abbrev pub digits : ℕ → List ℕ → Option ℕ
digits base [] = none
digits base (c ∷ cs) = int_from base 0 (c ∷ cs)

-- None where `int` raises.
unfoldable pub int_of : ℕ → String → Option ℕ
unfolding int_from
int_of base text = digits base (codes text)

-- The number of halvings is at most the number, which is the fuel.
unfoldable pub bit_length_from : ℕ → ℕ → ℕ
bit_length_from zero n = 0
bit_length_from (suc fuel) n =
    let rest = suc (bit_length_from fuel (n / 2)) in if eqb n 0 then 0 else rest

unfoldable pub bit_length : ℕ → ℕ
unfolding bit_length_from
bit_length n = bit_length_from n n

lt-pow-bit_length_from : (fuel n : ℕ) → n ≤ fuel → n < 2 ^ bit_length_from fuel n
unfolding bit_length_from
lt-pow-bit_length_from zero n h = omega arith
lt-pow-bit_length_from (suc fuel) n h = elim (Bool-cases (eqb n 0)) [
  | inl e ↦ rw e (omega (arith, (eqb_iff n 0).0 e))
  | inr e ↦ rw e (
      omega (
        arith,
        pow-suc 2 (bit_length_from fuel (n / 2)),
        lt-pow-bit_length_from fuel (n / 2) (half fuel n h),
      ))
]
  where
    half : (fuel n : ℕ) → n ≤ suc fuel → n / 2 ≤ fuel
    half fuel n h = omega arith

-- A number fits in its bits.
pub lt-pow-bit_length : (n : ℕ) → n < 2 ^ bit_length n
unfolding bit_length
lt-pow-bit_length n = lt-pow-bit_length_from n n (omega arith)

bit_length_from-le : (fuel n k : ℕ) → n < 2 ^ k → bit_length_from fuel n ≤ k
unfolding bit_length_from
bit_length_from-le zero n k h = omega arith
bit_length_from-le (suc fuel) n zero h =
    let e : eqb n 0 ≡ true = (eqb_iff n 0).1 (omega arith) in rw e (omega arith)
bit_length_from-le (suc fuel) n (suc k) h = elim (Bool-cases (eqb n 0)) [
  | inl e ↦ rw e (omega arith)
  | inr e ↦
      rw e (
        let rest = bit_length_from-le fuel (n / 2) k (omega (arith, h, pow-suc 2 k)) in omega arith)
]

-- No fewer bits hold it.
pub bit_length-le : (n k : ℕ) → n < 2 ^ k → bit_length n ≤ k
unfolding bit_length
bit_length-le n k h = bit_length_from-le n n k h
