-- ===== src/Graph/Splattered.antt =====
-- The parts after `splatter`: each instruction of 'other' is in the part of each of its values.
use mathlib.Core.Path.{subst}
use xed.Base.{
  ℕ, ◌≡◌, refl, sym, ap, ◌∙◌, inl, inr, Bool, true, false, not, ◌&&◌, ◌||◌, Option, none, some,
  List, [], ◌∷◌, ◌++◌, arith, Elem, Elem-append_left, Elem-append_right, Elem-contains, contains,
  contains-Elem, nat_eq, Bool-cases,
}
use xed.Base.Dict.{lookup, lookup-Elem, Elem-lookup, IsDict, insert-IsDict}
use xed.Graph.{Token, other, value, bit, after, token_eq}
use xed.Graph.Partition.{
  Member, plain, trimmed, Parts, or_nil, append_to, same_set, trimmed_of, all_trimmed,
  scalar_values, splatters, need_to_splatter, splatter_values, splatter_members, splatter, id_of,
}
use xed.Graph.Placed.{In, In-append_new, In-append_old, In-append_cases}
use xed.Pattern.{any_of, all_of}

-- what a step of the loop may do to the parts: they grow by instructions of a list
abbrev Grows : List ℕ → Parts → Parts → Type 0
Grows ids d d' =
    ((k : Token) (m : Member) → In k m d → In k m d')
    × (((k : Token) (m : Member) → In k m d → Elem (id_of m) ids)
        → (k : Token) (m : Member) → In k m d'
        → Elem (id_of m) ids)
    × (IsDict d → IsDict d')

Grows-trans : (ids : List ℕ) (d e f : Parts) → Grows ids d e → Grows ids e f → Grows ids d f
Grows-trans ids d e f (k, a, w) (k', a', w') =
    (λ t m p. k' t m (k t m p), λ h. a' (a h), λ h. w' (w h))

Grows-append :
    (ids : List ℕ) (d : Parts) (k : Token) (m : Member)
    → Elem (id_of m) ids
    → Grows ids d (append_to k (m ∷ []) d)
Grows-append ids d k m h = (
  λ t n p. In-append_old t k n (m ∷ []) d p,
  λ all t n p. elim (In-append_cases t k n (m ∷ []) d p) [
    | inl old ↦ all t n old
    | inr (at, inl e) ↦ subst (λ x. Elem (id_of x) ids) (sym e) h
    | inr (at, inr e) ↦ elim e [ ]
  ],
  λ w. insert-IsDict k (or_nil (lookup k d) ++ m ∷ []) d w,
)

module _ (ids : List ℕ) where
  splatter_values-Grows :
      (vs : List ℕ) (i : ℕ) (d : Parts)
      → Elem i ids
      → Grows ids d (splatter_values vs i d)
        × ((v : ℕ) → Elem v vs → In (value v) (plain i) (splatter_values vs i d))
  unfolding splatter_values
  splatter_values-Grows [] i d h = ((λ t m p. p, λ a. a, λ w. w), λ v m. elim m [ ])
  splatter_values-Grows (v ∷ vs) i d h =
      let d1 = append_to (value v) (plain i ∷ []) d in
      let (g, at) = splatter_values-Grows vs i d1 h in
      (
        Grows-trans ids d d1 _ (Grows-append ids d (value v) (plain i) h) g,
        λ w m. elim m [
          | inl e ↦
              subst (λ x. In (value x) (plain i) (splatter_values vs i d1)) (sym e)
                (g.0 (value v) (plain i) (In-append_new (value v) (plain i) _ d (inl refl)))
          | inr k ↦ at w k
        ],
      )

  -- where a member comes to stand
  abbrev pub Lands : Token → Member → Parts → Type 0
  Lands k (plain i) d = In k (plain i) d
  Lands k (trimmed vs i) d = (v : ℕ) → Elem v vs → In (value v) (plain i) d

  Lands-Grows :
      (k : Token) (m : Member) (d d' : Parts) → Grows ids d d' → Lands k m d → Lands k m d'
  Lands-Grows k (plain i) d d' g l = g.0 k (plain i) l
  Lands-Grows k (trimmed vs i) d d' g l = λ v m. g.0 (value v) (plain i) (l v m)

  splatter_members-Lands :
      (k : Token) (ms : List Member) (d : Parts)
      → ((m : Member) → Elem m ms → Elem (id_of m) ids)
      → Grows ids d (splatter_members k ms d)
        × ((m : Member) → Elem m ms → Lands k m (splatter_members k ms d))
  unfolding splatter_members
  splatter_members-Lands k [] d h = ((λ t m p. p, λ a. a, λ w. w), λ m e. elim e [ ])
  splatter_members-Lands k (plain i ∷ ms) d h =
      let d1 = append_to k (plain i ∷ []) d in
      let first = Grows-append ids d k (plain i) (h (plain i) (inl refl)) in
      let (g, at) = splatter_members-Lands k ms d1 (λ m e. h m (inr e)) in
      (
        Grows-trans ids d d1 _ first g,
        λ m e. elim e [
          | inl q ↦
              subst (λ x. Lands k x (splatter_members k ms d1)) (sym q)
                (g.0 k (plain i) (In-append_new k (plain i) _ d (inl refl)))
          | inr r ↦ at m r
        ],
      )
  splatter_members-Lands k (trimmed vs i ∷ ms) d h =
      let d1 = splatter_values vs i d in
      let (first, lands) = splatter_values-Grows vs i d (h (trimmed vs i) (inl refl)) in
      let (g, at) = splatter_members-Lands k ms d1 (λ m e. h m (inr e)) in
      (
        Grows-trans ids d d1 _ first g,
        λ m e. elim e [
          | inl q ↦
              subst (λ x. Lands k x (splatter_members k ms d1)) (sym q)
                (λ v n. g.0 (value v) (plain i) (lands v n))
          | inr r ↦ at m r
        ],
      )

  splatter-Lands :
      (d new_parts : Parts)
      → ((k : Token) (ms : List Member) (m : Member)
          → Elem (k, ms) d
          → Elem m ms
          → Elem (id_of m) ids)
      → Grows ids new_parts (splatter d new_parts)
        × ((k : Token) (ms : List Member) (m : Member)
            → Elem (k, ms) d
            → Elem m ms
            → Lands k m (splatter d new_parts))
  unfolding splatter
  splatter-Lands [] new_parts h = ((λ t m p. p, λ a. a, λ w. w), λ k ms m e. elim e [ ])
  splatter-Lands ((k, ms) ∷ d) new_parts h =
      let d1 = splatter_members k ms new_parts in
      let (first, lands) = splatter_members-Lands k ms new_parts (λ m e. h k ms m (inl refl) e) in
      let (g, at) = splatter-Lands d d1 (λ j ns m e f. h j ns m (inr e) f) in
      (
        Grows-trans ids new_parts d1 _ first g,
        λ j ns m e f. elim e [
          | inl q ↦
              let g' = Lands-Grows k m d1 _ g (lands m (subst (Elem m) (ap (λ p. p.1) q) f)) in
              subst (λ t. Lands t m (splatter d d1)) (sym (ap (λ p. p.0) q)) g'
          | inr r ↦ at j ns m r f
        ],
      )

  -- The new parts are a dictionary of instructions of the list, and have what the old ones had.
  pub splatter_all-Lands :
      (d : Parts)
      → IsDict d
      → ((k : Token) (m : Member) → In k m d → Elem (id_of m) ids)
      → IsDict (splatter d [])
        × ((k : Token) (m : Member) → In k m (splatter d []) → Elem (id_of m) ids)
        × ((k : Token) (m : Member) → In k m d → Lands k m (splatter d []))
  unfolding lookup
  splatter_all-Lands d w h =
      let (g, at) = splatter-Lands d [] (λ k ms m e f. h k m (ms, Elem-lookup k ms d w e, f)) in
      (
        g.2 tt,
        g.1 (λ k m p. let (ms, e, f) = p in nothing k e),
        λ k m p. let (ms, e, f) = p in at k ms m (lookup-Elem k ms d e) f,
      )
    where
      nothing : {B : Type 0} {ms : List Member} (k : Token) → lookup k [] ≡ some ms → B
      nothing k e = cc

any_of-false :
    {A : Type 0} (test : A → Bool) (xs : List A) (x : A)
    → any_of test xs ≡ false
    → Elem x xs
    → test x ≡ false
unfolding any_of
any_of-false test [] x h m = elim m [ ]
any_of-false test (y ∷ xs) x h m = elim (Bool-cases (test y)) [
  | inl e ↦ absurd (cc (rw e at h))
  | inr e ↦ elim m [ inl q ↦ ap test q ∙ e | inr r ↦ any_of-false test xs x (rw e at h) r ]
]

all_of-true :
    {A : Type 0} (test : A → Bool) (xs : List A) (x : A)
    → all_of test xs ≡ true
    → Elem x xs
    → test x ≡ true
unfolding all_of
all_of-true test [] x h m = elim m [ ]
all_of-true test (y ∷ xs) x h m = elim (Bool-cases (test y)) [
  | inr e ↦ absurd (cc (rw e at h))
  | inl e ↦ elim m [ inl q ↦ ap test q ∙ e | inr r ↦ all_of-true test xs x (rw e at h) r ]
]

trimmed-Elem :
    (vs : List ℕ) (i : ℕ) (ms : List Member) → Elem (trimmed vs i) ms → Elem vs (trimmed_of ms)
unfolding trimmed_of
trimmed-Elem vs i [] h = elim h [ ]
trimmed-Elem vs i (plain j ∷ ms) (inl e) = cc
trimmed-Elem vs i (plain j ∷ ms) (inr m) = trimmed-Elem vs i ms m
trimmed-Elem vs i (trimmed ws j ∷ ms) (inl e) = inl (ground arith)
trimmed-Elem vs i (trimmed ws j ∷ ms) (inr m) = inr (trimmed-Elem vs i ms m)

all_trimmed-Elem :
    (k : Token) (ms : List Member) (vs : List ℕ) (i : ℕ) (d : Parts)
    → Elem (k, ms) d
    → Elem (trimmed vs i) ms
    → Elem vs (all_trimmed d)
unfolding all_trimmed
all_trimmed-Elem k ms vs i [] h m = elim h [ ]
all_trimmed-Elem k ms vs i ((j, ns) ∷ d) (inl e) m =
    Elem-append_left vs (trimmed_of ns) (all_trimmed d)
      (trimmed-Elem vs i ns (subst (Elem (trimmed vs i)) (ap (λ p. p.1) e) m))
all_trimmed-Elem k ms vs i ((j, ns) ∷ d) (inr h) m =
    Elem-append_right vs (trimmed_of ns) (all_trimmed d) (all_trimmed-Elem k ms vs i d h m)

scalar-Elem :
    (v : ℕ) (ms : List Member) (d : Parts) → Elem (value v, ms) d → Elem v (scalar_values d)
unfolding scalar_values
scalar-Elem v ms [] h = elim h [ ]
scalar-Elem v ms ((value w, ns) ∷ d) (inl e) = inl (ground arith)
scalar-Elem v ms ((value w, ns) ∷ d) (inr h) = inr (scalar-Elem v ms d h)
scalar-Elem v ms ((bit b, ns) ∷ d) (inl e) = cc
scalar-Elem v ms ((bit b, ns) ∷ d) (inr h) = scalar-Elem v ms d h
scalar-Elem v ms ((after, ns) ∷ d) (inl e) = cc
scalar-Elem v ms ((after, ns) ∷ d) (inr h) = scalar-Elem v ms d h
scalar-Elem v ms ((other, ns) ∷ d) (inl e) = cc
scalar-Elem v ms ((other, ns) ∷ d) (inr h) = scalar-Elem v ms d h

splatters-Apart :
    (vss : List (List ℕ)) (scalars vs : List ℕ) (v : ℕ)
    → splatters vss scalars ≡ false
    → Elem vs vss
    → Elem v vs
    → ¬ (Elem v scalars)
unfolding same_set
splatters-Apart [] scalars vs v h m e n = elim m [ ]
splatters-Apart (us ∷ vss) scalars vs v h m e n =
    let (same, apart) = split (any_of (λ ws. not (same_set ws us)) vss) _ h in
    let at : Elem v us = elim m [
      | inl q ↦ subst (Elem v) q e
      | inr r ↦ first vs (any_of-false (λ ws. not (same_set ws us)) vss vs same r) e
    ] in
    let out = any_of-false (λ u. contains u scalars) us v apart at in
    cc (out, Elem-contains v scalars n)
  where
    split : (a b : Bool) → (a || b) ≡ false → (a ≡ false) × (b ≡ false)
    split a b h = ground arith

    left : (a b : Bool) → not (a && b) ≡ false → a ≡ true
    left a b h = ground arith

    first : (vs : List ℕ) → not (same_set vs us) ≡ false → Elem v vs → Elem v us
    first vs h e = contains-Elem v us (all_of-true (λ x. contains x us) vs v (left _ _ h) e)

-- Without need, a value that is left to an instruction of 'other' has no part of its own.
pub need_to_splatter-Apart :
    (d : Parts) (k : Token) (vs : List ℕ) (i v : ℕ)
    → need_to_splatter d ≡ false
    → In k (trimmed vs i) d
    → Elem v vs
    → lookup (value v) d ≡ none
unfolding need_to_splatter
need_to_splatter-Apart d k vs i v h (ms, e, m) n = go (lookup (value v) d) refl
  where
    go : (o : Option (List Member)) → lookup (value v) d ≡ o → o ≡ none
    go none q = refl
    go (some ns) q = absurd (
        splatters-Apart (all_trimmed d) (scalar_values d) vs v h
          (all_trimmed-Elem k ms vs i d (lookup-Elem k ms d e) m) n
          (scalar-Elem v ns d (lookup-Elem (value v) ns d q)))
