-- ===== src/Base/Pigeonhole.antt =====
-- A list of n different numbers below n has all of them.
use Prim.Native.Nat.{ℕ, zero, suc, ◌+◌, ◌<◌, ◌≤◌}
use mathlib.Core.Path.{◌≡◌, refl, sym}
use mathlib.Core.Logic.{◌≢◌, inl, inr}
use mathlib.Core.List.{List, [], ◌∷◌}
use mathlib.Core.Path.{subst}
use native.Mathlib.Omega.{arith}
use xed.Base.Test.{Bool-cases, if◌then◌else◌, eqb, eqb_iff}
use xed.Base.Lists.{Elem, IsUnique, length}
use xed.Base.Equality.{contains, contains-Elem, Elem-contains, nat_eq}

without : ℕ → List ℕ → List ℕ
without n [] = []
without n (x ∷ xs) = if eqb x n then without n xs else x ∷ without n xs

Elem-without : (n m : ℕ) (xs : List ℕ) → Elem m (without n xs) → Elem m xs × (m ≢ n)
unfolding without
Elem-without n m [] h = elim h [ ]
Elem-without n m (x ∷ xs) h = elim (Bool-cases (eqb x n)) [
  | inl p ↦ let (q, d) = Elem-without n m xs (rw p at h) in (inr q, d)
  | inr p ↦ elim (rw p at h) [
    | inl q ↦ (inl q, λ e. ground arith)
    | inr q ↦ let (r, d) = Elem-without n m xs q in (inr r, d)
  ]
]

IsUnique-without : (n : ℕ) (xs : List ℕ) → IsUnique xs → IsUnique (without n xs)
unfolding without
IsUnique-without n [] u = tt
IsUnique-without n (x ∷ xs) u = elim (Bool-cases (eqb x n)) [
  | inl p ↦ rw p (IsUnique-without n xs u.1)
  | inr p ↦ rw p (λ m. u.0 (Elem-without n x xs m).0, IsUnique-without n xs u.1)
]

length-without_absent : (n : ℕ) (xs : List ℕ) → ¬ (Elem n xs) → length (without n xs) ≡ length xs
unfolding without
length-without_absent n [] h = refl
length-without_absent n (x ∷ xs) h =
    let d : x ≢ n = λ e. h (inl (sym e)) in
    ground (arith, length-without_absent n xs (λ m. h (inr m)))

length-without : (n : ℕ) (xs : List ℕ) → IsUnique xs → length xs ≤ length (without n xs) + 1
unfolding without
length-without n [] u = omega arith
length-without n (x ∷ xs) u = elim (Bool-cases (eqb x n)) [
  | inl p ↦
      let e : x ≡ n = (eqb_iff x n).0 p in
      rw p (omega (arith, length-without_absent n xs (λ m. u.0 (subst (λ k. Elem k xs) (sym e) m))))
  | inr p ↦ rw p (omega (arith, length-without n xs u.1))
]

unique_length : (n : ℕ) (xs : List ℕ) → IsUnique xs → ((m : ℕ) → Elem m xs → m < n) → length xs ≤ n
unique_length zero [] u h = omega arith
unique_length zero (x ∷ xs) u h = absurd (omega (arith, h x (inl refl)))
unique_length (suc n) xs u h = omega (
  arith,
  length-without n xs u,
  unique_length n (without n xs) (IsUnique-without n xs u)
      (λ m k. let (q, d) = Elem-without n m xs k in omega (arith, h m q, d)),
)

pub pigeonhole :
    (n : ℕ) (xs : List ℕ)
    → IsUnique xs
    → ((m : ℕ) → Elem m xs → m < n)
    → length xs ≡ n
    → (m : ℕ) → m < n
    → Elem m xs
pigeonhole n xs u h len m lt = elim (Bool-cases (contains m xs)) [
  | inl p ↦ contains-Elem m xs p
  | inr p ↦ absurd (
      omega (
        arith,
        unique_length n (m ∷ xs) (λ q. cc (p, Elem-contains m xs q), u)
            (λ k q. elim q [ inl e ↦ omega arith | inr r ↦ h k r ]),
      ))
]
