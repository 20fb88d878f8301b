-- ===== src/Hash/Find/Primes.antt =====
-- The table `_primes` of pysrc/hashfks.py has the prime numbers up to 941, and no other numbers.
use mathlib.Core.Path.{subst}
use xed.Base.{
  ℕ, zero, suc, ◌%◌, ◌≤◌, ◌<◌, ◌≡◌, ◌≢◌, ◌↔◌, refl, sym, inl, inr, Bool, true, false, not, ◌&&◌,
  ◌||◌, List, [], ◌∷◌, arith, leb, ltb, eqb, eqb_iff, leb→le, ltb→lt, if◌then◌else◌, Bool-cases,
  Elem, contains, contains-Elem, nat_eq, &&-eq_true,
}
use xed.Hash.Find.{primes}

-- at least two, and no smaller number from two on divides it
pub record IsPrime (p : ℕ) : Type 0 where
  pub two_le : 2 ≤ p
  pub undivided : (d : ℕ) → 2 ≤ d → d < p → p % d ≢ 0

-- no number below the bound divides it, but 0 and 1
no_divisor : ℕ → ℕ → Bool
no_divisor zero p = true
no_divisor (suc d) p = (ltb d 2 || not (eqb (p % d) 0)) && no_divisor d p

is_prime : ℕ → Bool
unfolding no_divisor
is_prime p = leb 2 p && no_divisor p p

-- primes up to 941
all_prime : List ℕ → Bool
unfolding is_prime
all_prime [] = true
all_prime (p ∷ ps) = is_prime p && leb p 941 && all_prime ps

-- each number below the bound is in the table, or has a divisor among the first primes
divided_by : ℕ → List ℕ → Bool
divided_by n [] = ltb n 2
divided_by n (d ∷ ds) =
    let rest = divided_by n ds in if ltb d n && eqb (n % d) 0 then true else rest

small : List ℕ
small = 2 ∷ 3 ∷ 5 ∷ 7 ∷ 11 ∷ 13 ∷ 17 ∷ 19 ∷ 23 ∷ 29 ∷ []

complete : List ℕ → ℕ → Bool
unfolding divided_by small
complete ps zero = true
complete ps (suc n) = (contains n ps || divided_by n small) && complete ps n

primes_prime : all_prime primes ≡ true
unfolding all_prime
primes_prime = refl

primes_complete : complete primes 942 ≡ true
unfolding complete
primes_complete = refl

no_divisor-undivided : (bound p d : ℕ) → no_divisor bound p ≡ true → 2 ≤ d → d < bound → p % d ≢ 0
unfolding no_divisor
no_divisor-undivided zero p d h le lt e = omega arith
no_divisor-undivided (suc b) p d h le lt e =
    let (here, later) = &&-eq_true (ltb b 2 || not (eqb (p % b) 0)) (no_divisor b p) h in
    elim (Bool-cases (eqb d b)) [
      | inl q ↦
          let same = (eqb_iff d b).0 q in
          let zero_there : p % b ≡ 0 = subst (λ x. p % x ≡ 0) same e in
          ground (arith, eqb_iff (p % b) 0)
      | inr q ↦ no_divisor-undivided b p d later le (ground (arith, eqb_iff d b)) e
    ]

is_prime-IsPrime : (p : ℕ) → is_prime p ≡ true → IsPrime p
unfolding is_prime
is_prime-IsPrime p h =
    let (two, rest) = &&-eq_true (leb 2 p) (no_divisor p p) h in
    record { two_le = leb→le 2 p two; undivided = λ d le lt. no_divisor-undivided p p d rest le lt }

all_prime-IsPrime : (p : ℕ) (ps : List ℕ) → all_prime ps ≡ true → Elem p ps → IsPrime p × (p ≤ 941)
unfolding all_prime
all_prime-IsPrime p [] h m = elim m [ ]
all_prime-IsPrime p (q ∷ ps) h m =
    let (both, later) = &&-eq_true (is_prime q && leb q 941) (all_prime ps) h in
    let (here, low) = &&-eq_true (is_prime q) (leb q 941) both in
    elim m [
      | inl e ↦
          subst (λ x. IsPrime x × (x ≤ 941)) (sym e) (is_prime-IsPrime q here, leb→le q 941 low)
      | inr t ↦ all_prime-IsPrime p ps later t
    ]

-- A prime has no divisor among smaller numbers that are two or more.
IsPrime-divided_by :
    (p : ℕ) (ds : List ℕ) → IsPrime p → ((d : ℕ) → Elem d ds → 2 ≤ d) → divided_by p ds ≡ false
unfolding divided_by
IsPrime-divided_by p [] prime le = ground arith
IsPrime-divided_by p (d ∷ ds) prime le = elim (Bool-cases (ltb d p && eqb (p % d) 0)) [
  | inl h ↦
      let (below, zero_there) = &&-eq_true (ltb d p) (eqb (p % d) 0) h in
      absurd
        (prime.undivided d (le d (inl refl)) (ltb→lt d p below) ((eqb_iff (p % d) 0).0 zero_there))
  | inr h ↦ rw h (IsPrime-divided_by p ds prime (λ e m. le e (inr m)))
]

small_le : (d : ℕ) → Elem d small → 2 ≤ d
unfolding small
small_le d m = ground arith

complete-Elem :
    (ps : List ℕ) (bound p : ℕ) → complete ps bound ≡ true → p < bound → IsPrime p → Elem p ps
unfolding complete
complete-Elem ps zero p h lt prime = absurd (omega arith)
complete-Elem ps (suc n) p h lt prime =
    let (here, later) = &&-eq_true (contains n ps || divided_by n small) (complete ps n) h in
    elim (Bool-cases (eqb p n)) [
      | inl q ↦
          let same = (eqb_iff p n).0 q in
          elim (Bool-cases (contains n ps)) [
            | inl c ↦ subst (λ x. Elem x ps) (sym same) (contains-Elem n ps c)
            | inr c ↦
                let none_there = IsPrime-divided_by n small (subst IsPrime same prime) small_le in
                absurd (ground arith)
          ]
      | inr q ↦ complete-Elem ps n p later (ground (arith, eqb_iff p n)) prime
    ]

-- The table has exactly the primes up to 941.
pub Elem-primes : (p : ℕ) → Elem p primes ↔ (IsPrime p × (p ≤ 941))
Elem-primes p = (
  all_prime-IsPrime p primes primes_prime,
  λ q. complete-Elem primes 942 p primes_complete (omega (arith, q.1)) q.0,
)
