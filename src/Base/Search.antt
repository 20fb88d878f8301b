-- ===== src/Base/Search.antt =====
-- The first success of a call over a list: a `for` loop that returns from its body.
use mathlib.Core.Path.{◌≡◌, refl}
use mathlib.Core.Logic.{◌≢◌, inl, inr}
use mathlib.Core.Option.{Option, none, some}
use mathlib.Core.List.{List, [], ◌∷◌}
use native.Mathlib.Omega.{arith}
use xed.Base.Test.{Option-cases}
use xed.Base.Lists.{Elem}

module _ {A B : Type 0} where
  unfoldable pub first_some : (A → Option B) → List A → Option B
  first_some f [] = none
  first_some f (x ∷ xs) = elim (f x) [ some b ↦ some b | none ↦ first_some f xs ]

  pub first_some-eq-some :
      (f : A → Option B) (xs : List A) (b : B)
      → first_some f xs ≡ some b
      → (a : A) × Elem a xs × (f a ≡ some b)
  unfolding first_some
  first_some-eq-some f [] b h = cc
  first_some-eq-some f (x ∷ xs) b h = elim (Option-cases (f x)) [
    | inl p ↦ let (a, m, q) = first_some-eq-some f xs b (ground arith) in (a, inr m, q)
    | inr (c, p) ↦ (x, inl refl, ground arith)
  ]

  -- A success anywhere in the list makes the loop succeed.
  pub first_some-ne-none :
      (f : A → Option B) (xs : List A) (a : A) → Elem a xs → f a ≢ none → first_some f xs ≢ none
  unfolding first_some
  first_some-ne-none f [] a m h = elim m [ ]
  first_some-ne-none f (x ∷ xs) a (inl e) h = ground arith
  first_some-ne-none f (x ∷ xs) a (inr m) h = ground (arith, first_some-ne-none f xs a m h)
