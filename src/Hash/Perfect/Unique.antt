-- ===== src/Hash/Perfect/Unique.antt =====
-- A hash function is perfect on a list of keys exactly when no two of them share a hash value.
use xed.Base.{
  ℕ, ◌+◌, true, none, some, sym, ap, ◌∙◌, length, List, [], ◌∷◌, ◌≡◌, ◌≢◌, ◌↔◌, refl, inl, inr,
  arith, map, contains, contains-Elem, Elem-contains, Elem, IsUnique, Bool-cases, is_some,
}
use mathlib.Core.Path.{subst}
use xed.Base.Int.{ℤ, int_eq}
use xed.Hash.{Hash, apply}
use xed.Hash.Perfect.{is_perfect, perfect_from, mult_is_perfect, mult_perfect_from}

-- every hash value is new
abbrev IsFresh : List ℤ → List ℤ → Type 0
IsFresh bucket vs = IsUnique vs × ((v : ℤ) → Elem v vs → ¬ (Elem v bucket))

IsFresh-cons :
    (v : ℤ) (bucket vs : List ℤ)
    → ¬ (Elem v bucket)
    → IsFresh (v ∷ bucket) vs ↔ IsFresh bucket (v ∷ vs)
IsFresh-cons v bucket vs new = (
  λ f. (
    (λ m. f.1 v m (inl refl), f.0),
    λ w m h. elim m [ inl e ↦ new (subst (λ u. Elem u bucket) e h) | inr m' ↦ f.1 w m' (inr h) ],
  ),
  λ f. (
    f.0.1,
    λ w m h. elim h [ inl e ↦ f.0.0 (subst (λ u. Elem u vs) e m) | inr h' ↦ f.1 w (inr m) h' ],
  ),
)

perfect_from-IsFresh :
    (f : Hash) (bucket : List ℤ) (keys : List ℕ)
    → (perfect_from bucket keys f ≢ none) ↔ IsFresh bucket (map (apply f) keys)
unfolding perfect_from
perfect_from-IsFresh f bucket [] = (λ h. (tt, λ v m. absurd m), λ h. cc)
perfect_from-IsFresh f bucket (x ∷ keys) = elim (Bool-cases (contains (apply f x) bucket)) [
  | inl old ↦ rw old (
    λ h. absurd (h refl),
    λ fr. absurd (fr.1 (apply f x) (inl refl) (contains-Elem (apply f x) bucket old)),
  )
  | inr new ↦
      let v = apply f x in
      let ih = perfect_from-IsFresh f (v ∷ bucket) keys in
      let iso =
        IsFresh-cons v bucket (map (apply f) keys) (λ m. cc (new, Elem-contains v bucket m)) in
      rw new (λ h. iso.0 (ih.0 h), λ fr. ih.1 (iso.1 fr))
]

-- is_perfect returns a set exactly when the hash values of the keys are all different.
pub is_perfect-IsUnique :
    (keys : List ℕ) (f : Hash) → (is_perfect keys f ≢ none) ↔ IsUnique (map (apply f) keys)
unfolding is_perfect
is_perfect-IsUnique keys f =
    let iff = perfect_from-IsFresh f [] keys in (λ h. (iff.0 h).0, λ u. iff.1 (u, λ v m h. h))

mult_perfect_from-eq :
    (f : Hash) (bucket : List ℤ) (keys : List ℕ)
    → mult_perfect_from bucket keys f ≡ is_some (perfect_from bucket keys f)
unfolding mult_perfect_from perfect_from
mult_perfect_from-eq f bucket [] = refl
mult_perfect_from-eq f bucket (x ∷ keys) =
    ground (arith, mult_perfect_from-eq f (apply f x ∷ bucket) keys)

-- The two perfection tests, that of xedhash.py and the method of hashmul.py, agree.
pub mult_is_perfect-eq :
    (keys : List ℕ) (f : Hash) → mult_is_perfect keys f ≡ is_some (is_perfect keys f)
unfolding mult_is_perfect is_perfect
mult_is_perfect-eq keys f = mult_perfect_from-eq f [] keys

pub mult_is_perfect-IsUnique :
    (keys : List ℕ) (f : Hash) → mult_is_perfect keys f ≡ true → IsUnique (map (apply f) keys)
mult_is_perfect-IsUnique keys f h =
    (is_perfect-IsUnique keys f).0 (λ e. cc (h, mult_is_perfect-eq keys f, e))

length-perfect_from :
    (f : Hash) (bucket : List ℤ) (keys : List ℕ) (found : List ℤ)
    → perfect_from bucket keys f ≡ some found
    → length found ≡ length bucket + length keys
unfolding perfect_from
length-perfect_from f bucket [] found h =
    let e : bucket ≡ found = cc in ap length (sym e) ∙ omega arith
length-perfect_from f bucket (x ∷ keys) found h = elim (Bool-cases (contains (apply f x) bucket)) [
  | inl old ↦ absurd (ground arith)
  | inr new ↦
      let ih = length-perfect_from f (apply f x ∷ bucket) keys found (ground arith) in omega arith
]

-- The set has a value for each key.
pub length-is_perfect :
    (keys : List ℕ) (f : Hash) (found : List ℤ)
    → is_perfect keys f ≡ some found
    → length found ≡ length keys
unfolding is_perfect
length-is_perfect keys f found h = length-perfect_from f [] keys found h ∙ omega arith
