-- ===== src/Base/Dict.antt =====
-- Python's `dict`: an association list in insertion order, with the keys distinct (`IsDict`).
-- A `set` is the list of its elements.
use mathlib.Core.Path.{◌≡◌, refl, ap}
use mathlib.Core.Logic.{◌≢◌, ◌⊎◌, inl, inr}
use mathlib.Core.Bool.{Bool}
use mathlib.Core.Option.{Option, none, some}
use mathlib.Core.List.{List, [], ◌∷◌}
use native.Mathlib.Omega.{arith}
use xed.Base.Test.{if◌then◌else◌, Bool-cases, is_some}
use Prim.Native.Nat.{◌+◌, ◌≤◌}
use xed.Base.Lists.{Elem, length, IsUnique}
use xed.Base.Equality.{Eq, beq_self}

abbrev pub Dict {ℓ κ} : Type ℓ → Type κ → Type (ℓ ⊔ κ)
Dict K V = List (K × V)

module _ {ℓ κ} {K : Type ℓ} {V : Type κ} where
  abbrev pub keys : Dict K V → List K
  keys [] = []
  keys ((k, v) ∷ d) = k ∷ keys d

  abbrev pub values : Dict K V → List V
  values [] = []
  values ((k, v) ∷ d) = v ∷ values d

module _ {K V : Type 0} where
  pub Elem-keys : (k : K) (v : V) (d : Dict K V) → Elem (k, v) d → Elem k (keys d)
  Elem-keys k v [] h = elim h [ ]
  Elem-keys k v ((j, w) ∷ d) (inl e) = inl (ap (λ p. p.0) e)
  Elem-keys k v ((j, w) ∷ d) (inr h) = inr (Elem-keys k v d h)

  pub Elem-values : (k : K) (v : V) (d : Dict K V) → Elem (k, v) d → Elem v (values d)
  Elem-values k v [] h = elim h [ ]
  Elem-values k v ((j, w) ∷ d) (inl e) = inl (ap (λ p. p.1) e)
  Elem-values k v ((j, w) ∷ d) (inr h) = inr (Elem-values k v d h)

  pub values-Elem : (v : V) (d : Dict K V) → Elem v (values d) → (k : K) × Elem (k, v) d
  values-Elem v [] h = elim h [ ]
  values-Elem v ((j, w) ∷ d) (inl e) = (j, inl (ap (λ x. (j, x)) e))
  values-Elem v ((j, w) ∷ d) (inr h) = let (k, m) = values-Elem v d h in (k, inr m)

module _ {ℓ κ} {K : Type ℓ} {V : Type κ} ⦃e : Eq K⦄ where
  -- `d.get(k)`
  unfoldable pub lookup : K → Dict K V → Option V
  lookup k [] = none
  lookup k ((j, v) ∷ d) = if e.beq j k then some v else lookup k d

  -- `d[k] = v`: the value is replaced where the key stands, and a new key goes to the end.
  unfoldable pub insert : K → V → Dict K V → Dict K V
  insert k v [] = (k, v) ∷ []
  insert k v ((j, w) ∷ d) = if e.beq j k then (j, v) ∷ d else (j, w) ∷ insert k v d

  -- `k in d`
  abbrev pub has : K → Dict K V → Bool
  has k d = is_some (lookup k d)

  abbrev pub IsDict : Dict K V → Type κ
  IsDict [] = Unit
  IsDict ((k, v) ∷ d) = (lookup k d ≡ none) × IsDict d

  pub lookup-insert :
      (k j : K) (v : V) (d : Dict K V)
      → lookup j (insert k v d) ≡ (if e.beq k j then some v else lookup j d)
  unfolding lookup insert
  lookup-insert k j v [] = refl
  lookup-insert k j v ((i, w) ∷ d) =
      ground (arith, e.beq_iff k j, e.beq_iff i k, e.beq_iff i j, lookup-insert k j v d)

  pub lookup-insert_self : (k : K) (v : V) (d : Dict K V) → lookup k (insert k v d) ≡ some v
  lookup-insert_self k v d = ground (arith, lookup-insert k k v d, beq_self k)

  pub lookup-insert_cases :
      (k j : K) (v w : V) (d : Dict K V)
      → lookup j (insert k v d) ≡ some w
      → ((k ≡ j) × (v ≡ w)) ⊎ (lookup j d ≡ some w)
  lookup-insert_cases k j v w d h = elim (Bool-cases (e.beq k j)) [
    | inl p ↦ inl ((e.beq_iff k j).0 p, ground (arith, lookup-insert k j v d))
    | inr p ↦ inr (ground (arith, lookup-insert k j v d))
  ]

  -- what an insertion keeps
  pub insert-ne-none :
      (k j : K) (v : V) (d : Dict K V) → lookup j d ≢ none → lookup j (insert k v d) ≢ none
  insert-ne-none k j v d h = ground (arith, lookup-insert k j v d)

  pub insert-IsDict : (k : K) (v : V) (d : Dict K V) → IsDict d → IsDict (insert k v d)
  unfolding insert lookup
  insert-IsDict k v [] h = (refl, tt)
  insert-IsDict k v ((i, w) ∷ d) h = elim (Bool-cases (e.beq i k)) [
    | inl p ↦ rw p h
    | inr p ↦ rw p (
      ground (arith, lookup-insert k i v d, e.beq_iff i k, e.beq_iff k i),
      insert-IsDict k v d h.1,
    )
  ]

module _ {K V : Type 0} ⦃e : Eq K⦄ where
  pub lookup-Elem : (k : K) (v : V) (d : Dict K V) → lookup k d ≡ some v → Elem (k, v) d
  unfolding lookup
  lookup-Elem k v [] h = cc
  lookup-Elem k v ((j, w) ∷ d) h = elim (Bool-cases (e.beq j k)) [
    | inl p ↦ inl (ground (arith, e.beq_iff j k))
    | inr p ↦ inr (lookup-Elem k v d (ground arith))
  ]

  pub lookup-of-key : (k : K) (d : Dict K V) → Elem k (keys d) → lookup k d ≢ none
  unfolding lookup
  lookup-of-key k [] h = elim h [ ]
  lookup-of-key k ((j, w) ∷ d) (inl q) = ground (arith, e.beq_iff j k)
  lookup-of-key k ((j, w) ∷ d) (inr h) = ground (arith, lookup-of-key k d h)

  pub Elem-lookup : (k : K) (v : V) (d : Dict K V) → IsDict d → Elem (k, v) d → lookup k d ≡ some v
  unfolding lookup
  Elem-lookup k v [] w h = elim h [ ]
  Elem-lookup k v ((j, x) ∷ d) w (inl q) = ground (arith, e.beq_iff j k)
  Elem-lookup k v ((j, x) ∷ d) w (inr h) = ground (arith, e.beq_iff j k, Elem-lookup k v d w.1 h)

  -- a new key keeps the values, and adds its own
  pub insert-Elem-values :
      (k : K) (v w : V) (d : Dict K V)
      → lookup k d ≡ none
      → (w ≡ v) ⊎ Elem w (values d)
      → Elem w (values (insert k v d))
  unfolding lookup insert
  insert-Elem-values k v w [] n (inl e) = inl e
  insert-Elem-values k v w [] n (inr m) = elim m [ ]
  insert-Elem-values k v w ((j, x) ∷ d) n h = elim (Bool-cases (e.beq j k)) [
    | inl p ↦ absurd (ground arith)
    | inr p ↦ rw p (later (insert-Elem-values k v w d (ground arith)) h)
  ]
    where
      later :
          ((w ≡ v) ⊎ Elem w (values d) → Elem w (values (insert k v d)))
          → (w ≡ v) ⊎ Elem w (values ((j, x) ∷ d))
          → Elem w (values ((j, x) ∷ insert k v d))
      later ih (inl p) = inr (ih (inl p))
      later ih (inr (inl p)) = inl p
      later ih (inr (inr m)) = inr (ih (inr m))

module _ {K V : Type 0} ⦃e : Eq K⦄ where
  pub length-insert : (k : K) (v : V) (d : Dict K V) → length (insert k v d) ≤ length d + 1
  unfolding insert
  length-insert k v [] = omega arith
  length-insert k v ((j, w) ∷ d) = ground (arith, length-insert k v d)

  pub values-insert :
      (k : K) (v w : V) (d : Dict K V)
      → Elem w (values (insert k v d))
      → (w ≡ v) ⊎ Elem w (values d)
  unfolding insert
  values-insert k v w [] m = m
  values-insert k v w ((j, x) ∷ d) m = elim (Bool-cases (e.beq j k)) [
    | inl p ↦ elim (rw p at m) [ inl q ↦ inl q | inr q ↦ inr (inr q) ]
    | inr p ↦ later (values-insert k v w d) (rw p at m)
  ]
    where
      later :
          (Elem w (values (insert k v d)) → (w ≡ v) ⊎ Elem w (values d))
          → Elem w (values ((j, x) ∷ insert k v d))
          → (w ≡ v) ⊎ Elem w (values ((j, x) ∷ d))
      later ih (inl q) = inr (inl q)
      later ih (inr q) = elim (ih q) [ inl z ↦ inl z | inr z ↦ inr (inr z) ]

  pub IsUnique-keys : (d : Dict K V) → IsDict d → IsUnique (keys d)
  unfolding lookup
  IsUnique-keys [] w = tt
  IsUnique-keys ((k, v) ∷ d) w = (λ m. lookup-of-key k d m w.0, IsUnique-keys d w.1)
