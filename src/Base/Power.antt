-- ===== src/Base/Power.antt =====
-- Powers of two, and division with remainder by one of them.
use Prim.Native.Nat.{ℕ, zero, suc, ◌+◌, ◌*◌, ◌/◌, ◌^◌, ◌<◌}
use mathlib.Core.Path.{◌≡◌, sym, ap, ◌∙◌}
use native.Mathlib.Omega.{arith}
use native.Mathlib.Nat.{pow-suc, one-le-pow, add-mul-div_left, div-eq_of_lt}

pub pow-pos : (n : ℕ) → 0 < 2 ^ n
pow-pos n = one-le-pow n 2 (omega arith)

pub pow-add : (a b : ℕ) → 2 ^ (a + b) ≡ 2 ^ a * 2 ^ b
pow-add a zero = grind arith
pow-add a (suc b) = grind (arith, pow-add a b, pow-suc 2 b, pow-suc 2 (a + b))

-- The remainder and the quotient are determined.
quotient : (d r q : ℕ) → r < d → (r + d * q) / d ≡ q
quotient d r q h = omega (arith, add-mul-div_left r q {y = d} (omega arith), div-eq_of_lt h)

pub digit_unique :
    (d r q r' q' : ℕ) → r < d → r' < d → r + d * q ≡ r' + d * q' → (r ≡ r') × (q ≡ q')
digit_unique d r q r' q' h h' e =
    let same : q ≡ q' = sym (quotient d r q h) ∙ ap (λ (t : ℕ). t / d) e ∙ quotient d r' q' h' in
    (omega (arith, e, ap (λ (t : ℕ). d * t) same), same)
