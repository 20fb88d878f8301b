-- ===== src/Base/Sort.antt =====
-- Python's `sorted`: a stable insertion sort by an order test.
use mathlib.Core.Path.{◌≡◌}
use mathlib.Core.Bool.{true, false}
use mathlib.Core.Logic.{◌⊎◌, ◌↔◌, inl, inr}
use mathlib.Core.Bool.{Bool}
use mathlib.Core.List.{List, [], ◌∷◌, ◌++◌}
use xed.Base.Test.{if◌then◌else◌, Bool-cases}
use mathlib.Core.List.{Perm}
use mathlib.Core.List.Perm
use xed.Base.Lists.{Elem, All, All-append}

module _ {A : Type 0} (le : A → A → Bool) where
  place : A → List A → List A
  place a [] = a ∷ []
  place a (x ∷ xs) = if le a x then a ∷ x ∷ xs else x ∷ place a xs

  unfoldable pub sorted : List A → List A
  unfolding place
  sorted [] = []
  sorted (x ∷ xs) = place x (sorted xs)

  Elem-place : (a b : A) (xs : List A) → Elem b (place a xs) → (b ≡ a) ⊎ Elem b xs
  unfolding place
  Elem-place a b [] (inl e) = inl e
  Elem-place a b [] (inr m) = elim m [ ]
  Elem-place a b (x ∷ xs) m = elim (Bool-cases (le a x)) [
    | inl e ↦ rw e at m
    | inr e ↦ later (Elem-place a b xs) (rw e at m)
  ]
    where
      later :
          (Elem b (place a xs) → (b ≡ a) ⊎ Elem b xs)
          → Elem b (x ∷ place a xs)
          → (b ≡ a) ⊎ Elem b (x ∷ xs)
      later ih (inl p) = inr (inl p)
      later ih (inr q) = elim (ih q) [ inl p ↦ inl p | inr p ↦ inr (inr p) ]

  place-Elem : (a b : A) (xs : List A) → (b ≡ a) ⊎ Elem b xs → Elem b (place a xs)
  unfolding place
  place-Elem a b [] (inl e) = inl e
  place-Elem a b [] (inr m) = elim m [ ]
  place-Elem a b (x ∷ xs) m = elim (Bool-cases (le a x)) [
    | inl e ↦ rw e m
    | inr e ↦ rw e (later (place-Elem a b xs) m)
  ]
    where
      later :
          ((b ≡ a) ⊎ Elem b xs → Elem b (place a xs))
          → (b ≡ a) ⊎ Elem b (x ∷ xs)
          → Elem b (x ∷ place a xs)
      later ih (inl p) = inr (ih (inl p))
      later ih (inr (inl p)) = inl p
      later ih (inr (inr p)) = inr (ih (inr p))

  -- Sorting keeps the elements.
  pub Elem-sorted : (b : A) (xs : List A) → Elem b (sorted xs) ↔ Elem b xs
  unfolding sorted
  Elem-sorted b [] = (λ m. m, λ m. m)
  Elem-sorted b (x ∷ xs) =
      let ih = Elem-sorted b xs in
      (
        λ m. elim (Elem-place x b (sorted xs) m) [ inl e ↦ inl e | inr q ↦ inr (ih.0 q) ],
        λ m. place-Elem x b (sorted xs) (elim m [ inl e ↦ inl e | inr q ↦ inr (ih.1 q) ]),
      )

  place-Perm : (a : A) (xs : List A) → Perm (place a xs) (a ∷ xs)
  unfolding place
  place-Perm a [] = Perm.refl (a ∷ [])
  place-Perm a (x ∷ xs) = elim (Bool-cases (le a x)) [
    | inl e ↦ rw e (Perm.refl (a ∷ x ∷ xs))
    | inr e ↦ rw e (Perm.trans (Perm.cons x (place-Perm a xs)) (Perm.swap a x xs))
  ]

  -- Sorting permutes the list.
  pub sorted-Perm : (xs : List A) → Perm (sorted xs) xs
  unfolding sorted
  sorted-Perm [] = Perm.refl []
  sorted-Perm (x ∷ xs) = Perm.trans (place-Perm x (sorted xs)) (Perm.cons x (sorted-Perm xs))

-- each element before those behind it
abbrev pub Ascends {ℓ} : {A : Type 0} → (A → A → Type ℓ) → List A → Type ℓ
Ascends R [] = Unit
Ascends R (x ∷ xs) = All (R x) xs × Ascends R xs

-- An element is put behind a list that it stands in the relation with.
pub Ascends-append :
    {A : Type 0} (R : A → A → Type 0) (xs : List A) (a : A)
    → Ascends R xs
    → All (λ x. R x a) xs
    → Ascends R (xs ++ a ∷ [])
Ascends-append R [] a h all = (tt, tt)
Ascends-append R (x ∷ xs) a h all =
    (All-append (R x) xs (a ∷ []) h.0 (all.0, tt), Ascends-append R xs a h.1 all.1)

module _ {A : Type 0} (le : A → A → Bool) (D R : A → A → Type 0) where
  All-place : (P : A → Type 0) (a : A) (xs : List A) → P a → All P xs → All P (place le a xs)
  unfolding place
  All-place P a [] p h = (p, tt)
  All-place P a (x ∷ xs) p h = elim (Bool-cases (le a x)) [
    | inl e ↦ rw e (p, h)
    | inr e ↦ rw e (h.0, All-place P a xs p h.1)
  ]

  pub All-sorted : (P : A → Type 0) (xs : List A) → All P xs → All P (sorted le xs)
  unfolding sorted
  All-sorted P [] h = tt
  All-sorted P (x ∷ xs) h = All-place P x (sorted le xs) h.0 (All-sorted P xs h.1)

  module _ (up : (a b : A) → D a b → le a b ≡ true → R a b)
      (down : (a b : A) → D a b → le a b ≡ false → R b a)
      (trans : (a b c : A) → R a b → R b c → R a c) where
    All-trans : (a x : A) (xs : List A) → R a x → All (R x) xs → All (R a) xs
    All-trans a x [] r h = tt
    All-trans a x (y ∷ xs) r h = (trans a x y r h.0, All-trans a x xs r h.1)

    place-Ascends : (a : A) (xs : List A) → All (D a) xs → Ascends R xs → Ascends R (place le a xs)
    unfolding place
    place-Ascends a [] d h = (tt, tt)
    place-Ascends a (x ∷ xs) d h = elim (Bool-cases (le a x)) [
      | inl e ↦ let r = up a x d.0 e in rw e ((r, All-trans a x xs r h.0), h)
      | inr e ↦ rw e (All-place (R x) a xs (down a x d.0 e) h.0, place-Ascends a xs d.1 h.1)
    ]

    -- A list of different elements ascends when it is sorted.
    pub sorted-Ascends : (xs : List A) → Ascends D xs → Ascends R (sorted le xs)
    unfolding sorted
    sorted-Ascends [] h = tt
    sorted-Ascends (x ∷ xs) h =
        place-Ascends x (sorted le xs) (All-sorted (D x) xs h.0) (sorted-Ascends xs h.1)
