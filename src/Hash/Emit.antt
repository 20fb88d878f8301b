-- ===== src/Hash/Emit.antt =====
-- The emitted C expression computes the hash function.
use native.Mathlib.Nat.{mod-lt, mod-eq_of_lt, pow-le-pow_right, pow-zero}
use xed.Base.{
  ℕ, zero, suc, ◌+◌, ◌-◌, ◌*◌, ◌/◌, ◌%◌, ◌^◌, ◌≤◌, ◌<◌, ◌≡◌, refl, ap, ◌∙◌, inl, inr, some, arith,
  Option-cases, lt→ltb, true,
}
use native.Mathlib.Decide.{dec_le}
use xed.Hash.{
  Hash, linear, fks, mult, trivial, mult_apply, apply_pow2, get_table_size,
  need_hash_index_validation, power_of_2, golden_ratio_recip2to32,
}
use xed.Hash.Cexpr.{emit_cexpr, eval}
use xed.Hash.Bounds.{index, mult_apply-lt, apply_pow2-eq-mult_apply, power_of_2-eq}

-- The low half of the product does not see that the product wraps.
lo32-mul :
    (k : ℕ) → golden_ratio_recip2to32 * k % 2 ^ 64 % 2 ^ 32 ≡ golden_ratio_recip2to32 * k % 2 ^ 32
lo32-mul k = omega arith

exponent-le : (n i : ℕ) → 2 ^ i ≡ n → n ≤ 2 ^ 32 → i ≤ 32
exponent-le n i p h = elim (dec_le i 32) [
  | yes q ↦ q
  | no q ↦
      absurd (omega (arith, pow-le-pow_right {n = 2} (omega arith) {i = 33} {j = i} (omega arith)))
]

product-lt : (f n : ℕ) → f < 2 ^ 32 → n ≤ 2 ^ 32 → f * n ≤ f * 2 ^ 32
product-lt f n p q = grind arith

-- The 64-bit product does not wrap, and its high half needs no truncation.
hi32-mul : (f n : ℕ) → f < 2 ^ 32 → n ≤ 2 ^ 32 → f * n % 2 ^ 64 / 2 ^ 32 % 2 ^ 32 ≡ f * n / 2 ^ 32
hi32-mul f n p q = omega (arith, product-lt f n p q)

shift-lt : (i n : ℕ) → 2 ^ i ≡ n → 1 < n → 32 - i < 32
shift-lt zero n p h = absurd (omega (arith, pow-zero 2))
shift-lt (suc i) n p h = omega arith

-- On a table of two entries or more the emitted expression is defined, and is the hash.
pub emit_mult-eval :
    (n x : ℕ) → 1 < n → n ≤ 2 ^ 32 → eval (emit_cexpr (mult n)) x ≡ some (mult_apply n x)
unfolding emit_cexpr eval
emit_mult-eval n x lo hi = elim (Option-cases (power_of_2 n)) [
  | inl p ↦ rw p (
      rw lo32-mul (
        unfold mult_apply in
        ap some (hi32-mul (golden_ratio_recip2to32 * x % 2 ^ 32) n (omega arith) hi)))
  | inr (i, p) ↦
      let e = power_of_2-eq n i p in
      let le = exponent-le n i e hi in
      rw p (
        rw (lt→ltb (32 - i) 32 (shift-lt i n e lo)) (
          rw lo32-mul (
            ap some
              (unfold apply_pow2 in apply_pow2-eq-mult_apply i x le ∙ ap (λ t. mult_apply t x) e))))
]

-- A table whose emitted expression has no undefined behaviour.
abbrev pub IsEmittable : Hash → Type 0
IsEmittable (linear k max_key) = k + max_key < 2 ^ 64
IsEmittable (fks k p m) = (0 < p) × (0 < m)
IsEmittable (mult n) = (1 < n) × (n ≤ 2 ^ 32)
IsEmittable trivial = Unit

-- The product in the emitted expression of an FKS function stays below 2 ^ 64.
abbrev pub NoWrap : Hash → ℕ → Type 0
NoWrap (linear k max_key) x = (k ≤ x) × (x < 2 ^ 64)
NoWrap (fks k p m) x = k * x < 2 ^ 64
NoWrap (mult n) x = Unit
NoWrap trivial x = Unit

fks_eval :
    (k p m x : ℕ) → 0 < p → 0 < m → eval (emit_cexpr (fks k p m)) x ≡ some (k * x % 2 ^ 64 % p % m)
unfolding emit_cexpr eval
fks_eval k p m x hp hm = ground (
  arith,
  mod-lt (k * x % 2 ^ 64 % p) hm,
  mod-lt (k * x % 2 ^ 64) hp,
  mod-eq_of_lt {n = k * x % 2 ^ 64 % p} {m = p},
)

pub emit_cexpr-eval :
    (h : Hash) (x : ℕ) → IsEmittable h → NoWrap h x → eval (emit_cexpr h) x ≡ some (index h x)
emit_cexpr-eval (linear k max_key) x e w = unfold emit_cexpr eval in ap some (omega arith)
emit_cexpr-eval (fks k p m) x e w =
    fks_eval k p m x e.0 e.1 ∙ ap (λ t. some (t % p % m)) (mod-eq_of_lt w)
emit_cexpr-eval (mult n) x e w = emit_mult-eval n x e.0 e.1
emit_cexpr-eval trivial x e w = unfold emit_cexpr eval in refl

-- For every hash function that validates its keys and can be emitted, the emitted C expression is
-- defined on every key, wrapped products included, and its value is below the table size.
pub emit_cexpr-lt :
    (h : Hash) (x : ℕ)
    → IsEmittable h
    → need_hash_index_validation h ≡ true
    → (n : ℕ) × (eval (emit_cexpr h) x ≡ some n) × (n < get_table_size h)
emit_cexpr-lt (linear k max_key) x e v = unfold need_hash_index_validation in cc
emit_cexpr-lt (fks k p m) x e v = (
  k * x % 2 ^ 64 % p % m,
  fks_eval k p m x e.0 e.1,
  unfold get_table_size in mod-lt (k * x % 2 ^ 64 % p) e.1,
)
emit_cexpr-lt (mult n) x e v = (
  mult_apply n x,
  emit_mult-eval n x e.0 e.1,
  unfold get_table_size in mult_apply-lt n x (omega arith),
)
emit_cexpr-lt trivial x e v = unfold need_hash_index_validation in cc
