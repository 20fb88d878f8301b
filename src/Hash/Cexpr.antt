-- ===== src/Hash/Cexpr.antt =====
-- The C expressions that `emit_cexpr` writes, and what they compute: `key` and `hidx` are
-- `xed_uint64_t`, and `lo32` and `hi32` are the halves of an `xed_union64_t`.
use xed.Base.{ℕ, ◌+◌, ◌-◌, ◌*◌, ◌/◌, ◌%◌, ◌^◌, Option, none, some, ltb, eqb, if◌then◌else◌}
use xed.Hash.{Hash, linear, fks, mult, trivial, golden_ratio_recip2to32, power_of_2}

pub data Cexpr : Type 0 where
  key : Cexpr
  lit : ℕ → Cexpr
  sub mul rem : Cexpr → Cexpr → Cexpr
  lo32 hi32 : Cexpr → Cexpr
  shr32 : Cexpr → ℕ → Cexpr

pub emit_mult : ℕ → Option ℕ → Cexpr
emit_mult table_size (some ilog2_table_size) =
    shr32 (lo32 (mul (lit golden_ratio_recip2to32) key)) (32 - ilog2_table_size)
emit_mult table_size none =
    hi32 (mul (lo32 (mul (lit golden_ratio_recip2to32) key)) (lit table_size))

unfoldable pub emit_cexpr : Hash → Cexpr
unfolding emit_mult power_of_2
emit_cexpr (linear k max_key) = sub key (lit k)
emit_cexpr (fks k p m) =
    if eqb m 1
    then lit 0
    else if eqb p m
    then rem (mul (lit k) key) (lit p)
    else rem (rem (mul (lit k) key) (lit p)) (lit m)
emit_cexpr (mult table_size) = emit_mult table_size (power_of_2 table_size)
emit_cexpr trivial = lit 0

binary : (ℕ → ℕ → Option ℕ) → Option ℕ → Option ℕ → Option ℕ
binary f (some a) (some b) = f a b
binary f _ _ = none

unary : (ℕ → Option ℕ) → Option ℕ → Option ℕ
unary f (some a) = f a
unary f none = none

-- `none` is undefined behaviour: a remainder by zero, or a 32-bit shift by 32 or more.
unfoldable pub eval : Cexpr → ℕ → Option ℕ
unfolding binary unary
eval key k = some k
eval (lit n) k = some n
eval (sub a b) k = binary (λ x y. some ((x + 2 ^ 64 - y) % 2 ^ 64)) (eval a k) (eval b k)
eval (mul a b) k = binary (λ x y. some (x * y % 2 ^ 64)) (eval a k) (eval b k)
eval (rem a b) k = binary (λ x y. if eqb y 0 then none else some (x % y)) (eval a k) (eval b k)
eval (lo32 a) k = unary (λ x. some (x % 2 ^ 32)) (eval a k)
eval (hi32 a) k = unary (λ x. some (x / 2 ^ 32 % 2 ^ 32)) (eval a k)
eval (shr32 a n) k = unary (λ x. if ltb n 32 then some (x / 2 ^ n) else none) (eval a k)
