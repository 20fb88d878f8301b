-- ===== src/Graph/Sizes.antt =====
-- No part of the instructions has more members than there are instructions, and none is empty.
use mathlib.Core.Path.{subst}
use xed.Base.{
  ℕ, zero, suc, ◌+◌, ◌^◌, ◌≤◌, ◌≡◌, ◌≢◌, ◌⊎◌, refl, sym, ap, ◌∙◌, inl, inr, String, not, some, List,
  [], ◌∷◌, ◌++◌, arith, if◌then◌else◌, Elem, length, length-append, IsUnique, Bool-cases,
  Option-cases, eqb, ok, >>=-eq-ok, ok-eq, get_elem?, range_from, range_from_bounds, string_eq,
}
use xed.Base.Dict.{lookup, insert, lookup-insert_cases, Elem-lookup, IsDict}
use xed.Graph.{Store, Token, value, other, token_eq, decider_of}
use xed.Graph.Partition.{
  Spaces, Member, plain, trimmed, Parts, or_nil, append_to, all_values_for, without, place_trimmed,
  place, place_all, partition_by_required_values, splatter_values, splatter_members, splatter,
  need_to_splatter,
}
use xed.Graph.Placed.{In, In-append_cases, without-Elem}

abbrev pub total : Parts → ℕ
total [] = 0
total ((k, ms) ∷ d) = length ms + total d

total-insert :
    (k : Token) (v : List Member) (d : Parts)
    → total (insert k v d) + length (or_nil (lookup k d)) ≡ total d + length v
unfolding insert lookup
total-insert k v [] = omega arith
total-insert k v ((j, ms) ∷ d) = elim (Bool-cases (token_eq.beq j k)) [
  | inl e ↦ rw (insert, lookup, e) (omega arith)
  | inr e ↦ rw (insert, lookup, e) (omega (arith, total-insert k v d))
]

total-append : (k : Token) (m : Member) (d : Parts) → total (append_to k (m ∷ []) d) ≡ total d + 1
total-append k m d = omega (
  arith,
  total-insert k (or_nil (lookup k d) ++ m ∷ []) d,
  length-append (or_nil (lookup k d)) (m ∷ []),
)

length-le-total :
    (k : Token) (ms : List Member) (d : Parts) → lookup k d ≡ some ms → length ms ≤ total d
unfolding lookup
length-le-total k ms [] h = cc
length-le-total k ms ((j, ns) ∷ d) h = elim (Bool-cases (token_eq.beq j k)) [
  | inl e ↦ let same : ns ≡ ms = some_eq (rw (lookup, e) at h) in omega (arith, ap length same)
  | inr e ↦ omega (arith, length-le-total k ms d (rw (lookup, e) at h))
]
  where
    some_eq : {x y : List Member} → some x ≡ some y → x ≡ y
    some_eq h = cc

append-ne-nil : (ms : List Member) (m : Member) → ms ++ m ∷ [] ≢ []
append-ne-nil [] m e = cc
append-ne-nil (n ∷ ms) m e = cc

-- The values that are left to a member are different.
abbrev pub HasUnique : Member → Type 0
HasUnique (plain i) = Unit
HasUnique (trimmed vs i) = IsUnique vs

abbrev AllUnique : Parts → Type 0
AllUnique d = (k : Token) (m : Member) → In k m d → HasUnique m

-- how a part changes
append-part :
    (k j : Token) (m : Member) (ms : List Member) (d : Parts)
    → lookup j (append_to k (m ∷ []) d) ≡ some ms
    → (lookup j d ≡ some ms) ⊎ ((k ≡ j) × (ms ≡ or_nil (lookup j d) ++ m ∷ []))
append-part k j m ms d h = elim (lookup-insert_cases k j (or_nil (lookup k d) ++ m ∷ []) ms d h) [
  | inr old ↦ inl old
  | inl (at, e) ↦ inr (at, sym e ∙ ap (λ t. or_nil (lookup t d) ++ m ∷ []) at)
]

append-full :
    (k : Token) (m : Member) (d : Parts)
    → ((j : Token) (ms : List Member) → lookup j d ≡ some ms → ms ≢ [])
    → (j : Token) (ms : List Member) → lookup j (append_to k (m ∷ []) d) ≡ some ms
    → ms ≢ []
append-full k m d full j ms h = elim (append-part k j m ms d h) [
  | inl old ↦ full j ms old
  | inr (at, e) ↦ λ n. append-ne-nil (or_nil (lookup j d)) m (sym e ∙ n)
]

AllUnique-append :
    (k : Token) (m : Member) (d : Parts)
    → HasUnique m
    → AllUnique d
    → AllUnique (append_to k (m ∷ []) d)
AllUnique-append k m d u all j n p = elim (In-append_cases j k n (m ∷ []) d p) [
  | inl old ↦ all j n old
  | inr (at, inl e) ↦ subst HasUnique (sym e) u
  | inr (at, inr e) ↦ elim e [ ]
]

without-IsUnique : (r : ℕ) (vs : List ℕ) → IsUnique vs → IsUnique (without r vs)
unfolding without
without-IsUnique r [] u = tt
without-IsUnique r (v ∷ vs) u = elim (Bool-cases (eqb v r)) [
  | inl e ↦ rw e (without-IsUnique r vs u.1)
  | inr e ↦ rw e ((λ m. u.0 ((without-Elem v r vs).0 m).0), without-IsUnique r vs u.1)
]

range_from-IsUnique : (lo n : ℕ) → IsUnique (range_from lo n)
range_from-IsUnique lo zero = tt
range_from-IsUnique lo (suc n) = (
  (λ m. absurd (omega (arith, range_from_bounds lo (lo + 1) n m))),
  range_from-IsUnique (lo + 1) n,
)

-- The state space lists no value twice, as it is made from sets.
abbrev pub HasSets : Spaces → Type 0
HasSets sp = (token : String) (all : List ℕ) → lookup token sp.state_space ≡ some all → IsUnique all

all_values_for-IsUnique :
    (sp : Spaces) (token : String) (all : List ℕ)
    → HasSets sp
    → all_values_for sp token ≡ ok all
    → IsUnique all
unfolding all_values_for
all_values_for-IsUnique sp token all sets h = elim (Option-cases (lookup token sp.state_space)) [
  | inr (vs, e) ↦ subst IsUnique (ok-eq vs (rw (all_values_for, e) at h)) (sets token vs e)
  | inl e ↦ elim (Option-cases (lookup token sp.operand_storage)) [
    | inl f ↦ absurd (cc (rw (all_values_for, e, f) at h))
    | inr (osf, f) ↦ elim (Bool-cases osf.is_enum) [
      | inl g ↦ absurd (cc (rw (all_values_for, e, f, g) at h))
      | inr g ↦
          subst IsUnique
            (ok-eq (range_from 0 (2 ^ osf.bitwidth)) (rw (all_values_for, e, f, g) at h))
            (range_from-IsUnique 0 (2 ^ osf.bitwidth))
    ]
  ]
]

-- what one step of the placing does to the parts
abbrev IsOneMore : Parts → Parts → Type 0
IsOneMore d d' =
    (total d' ≡ total d + 1)
    × (((j : Token) (ms : List Member) → lookup j d ≡ some ms → ms ≢ [])
        → (j : Token) (ms : List Member) → lookup j d' ≡ some ms
        → ms ≢ [])
    × (AllUnique d → AllUnique d')

IsOneMore-append :
    (k : Token) (m : Member) (d : Parts) → HasUnique m → IsOneMore d (append_to k (m ∷ []) d)
IsOneMore-append k m d u =
    (total-append k m d, append-full k m d, λ all. AllUnique-append k m d u all)

module _ (sp : Spaces) (s : Store) (bitpos : ℕ) (token : String) (sets : HasSets sp) where
  place-IsOneMore :
      (i : ℕ) (d d' : Parts) (vs vs' : List ℕ)
      → place sp s bitpos token i (d, vs) ≡ ok (d', vs')
      → IsOneMore d d'
  unfolding place place_trimmed
  place-IsOneMore i d d' vs vs' h = elim (Option-cases (decider_of (get_elem? (s i) bitpos))) [
    | inl e ↦ absurd (cc (rw (e, place) at h))
    | inr (od, e) ↦ elim (Bool-cases (not (string_eq.beq od.token token))) [
      | inl n ↦ absurd (cc (rw (e, place, n) at h))
      | inr n ↦ elim (Bool-cases od.is_eq) [
        | inl q ↦
            subst (IsOneMore d) (ap (λ r. r.0) (ok-eq _ (rw (e, place, n, q) at h)))
              (IsOneMore-append (value od.requirement) (plain i) d tt)
        | inr q ↦
            let (all, av, r) =
              >>=-eq-ok (all_values_for sp od.token) _ (rw (e, place, n, q) at h) in
            rest (without od.requirement all) all
              (without-IsUnique od.requirement all
                (all_values_for-IsUnique sp od.token all sets av))
              r
      ]
    ]
  ]
    where
      rest :
          (ws all : List ℕ)
          → IsUnique ws
          → place_trimmed sp s bitpos token i all ws (d, vs) ≡ ok (d', vs')
          → IsOneMore d d'
      rest [] all u h = cc
      rest (w ∷ ws) all u h =
          subst (IsOneMore d) (ap (λ r. r.0) (ok-eq _ h))
            (IsOneMore-append other (trimmed (w ∷ ws) i) d u)

  place_all-total :
      (is : List ℕ) (d d' : Parts) (vs vs' : List ℕ)
      → ((j : Token) (ms : List Member) → lookup j d ≡ some ms → ms ≢ [])
      → AllUnique d
      → place_all sp s bitpos token is (d, vs) ≡ ok (d', vs')
      → (total d' ≡ total d + length is)
        × ((j : Token) (ms : List Member) → lookup j d' ≡ some ms → ms ≢ [])
        × AllUnique d'
  unfolding place_all
  place_all-total [] d d' vs vs' full all h =
      let same : d ≡ d' = ap (λ r. r.0) (ok-eq (d, vs) h) in
      (
        omega (arith, ap total same),
        subst (λ e. (j : Token) (ms : List Member) → lookup j e ≡ some ms → ms ≢ []) same full,
        subst AllUnique same all,
      )
  place_all-total (i ∷ is) d d' vs vs' full all h =
      let ((d1, vs1), e, rest) = >>=-eq-ok (place sp s bitpos token i (d, vs)) _ h in
      let (t, f, u) = place-IsOneMore i d d1 vs vs1 e in
      let (t2, f2, u2) = place_all-total is d1 d' vs1 vs' (f full) (u all) rest in
      (omega arith, f2, u2)

  pub partition-total :
      (is : List ℕ) (d : Parts) (vs : List ℕ)
      → partition_by_required_values sp s bitpos token is ≡ ok (d, vs)
      → (total d ≡ length is)
        × ((j : Token) (ms : List Member) → lookup j d ≡ some ms → ms ≢ [])
        × AllUnique d
  unfolding partition_by_required_values lookup
  partition-total is d vs h =
      let (t, f, u) =
        place_all-total is [] d [] vs (λ j ms e. cc (e)) (λ k m p. let (ms, e, q) = p in cc (e))
          h in
      (omega arith, f, u)

-- Every part has a member, and at most so many.
abbrev pub AreSized : ℕ → Parts → Type 0
AreSized c d = (k : Token) (ms : List Member) → lookup k d ≡ some ms → (ms ≢ []) × (length ms ≤ c)

-- The parts at the values are one shorter at least.
abbrev AreShort : ℕ → List ℕ → Parts → Type 0
AreShort c vs d =
    (v : ℕ) (ms : List Member) → Elem v vs → lookup (value v) d ≡ some ms → length ms ≤ c

append-AreSized :
    (c : ℕ) (k : Token) (m : Member) (d : Parts)
    → AreSized (c + 1) d
    → ((ms : List Member) → lookup k d ≡ some ms → length ms ≤ c)
    → AreSized (c + 1) (append_to k (m ∷ []) d)
append-AreSized c k m d sized short j ms h = elim (append-part k j m ms d h) [
  | inl old ↦ sized j ms old
  | inr (at, e) ↦ (
    λ n. append-ne-nil (or_nil (lookup j d)) m (sym e ∙ n),
    elim (Option-cases (lookup j d)) [
      | inl n ↦ omega (arith, ap length (e ∙ ap (λ o. or_nil o ++ m ∷ []) n))
      | inr (old, q) ↦ omega (
        arith,
        ap length (e ∙ ap (λ o. or_nil o ++ m ∷ []) q),
        length-append old (m ∷ []),
        short old (ap (λ t. lookup t d) at ∙ q),
      )
    ],
  )
]

splatter_values-AreSized :
    (c : ℕ) (vs : List ℕ) (i : ℕ) (d : Parts)
    → IsUnique vs
    → AreSized (c + 1) d
    → AreShort c vs d
    → AreSized (c + 1) (splatter_values vs i d)
unfolding splatter_values
splatter_values-AreSized c [] i d u sized short = sized
splatter_values-AreSized c (v ∷ vs) i d u sized short =
    splatter_values-AreSized c vs i (append_to (value v) (plain i ∷ []) d) u.1
      (append-AreSized c (value v) (plain i) d sized (λ ms h. short v ms (inl refl) h))
      (λ w ms m h. elim (append-part (value v) (value w) (plain i) ms d h) [
        | inl old ↦ short w ms (inr m) old
        | inr (at, e) ↦ absurd (u.0 (subst (λ x. Elem x vs) (sym (value_eq v w at)) m))
      ])
  where
    value_eq : (v w : ℕ) → value v ≡ value w → v ≡ w
    value_eq v w h = cc

AreSized-weaken : (b c : ℕ) (d : Parts) → b ≤ c → AreSized b d → AreSized c d
AreSized-weaken b c d le sized k ms h = let (f, l) = sized k ms h in (f, omega arith)

splatter_members-AreSized :
    (c : ℕ) (k : Token) (ms : List Member) (d : Parts)
    → ((m : Member) → Elem m ms → HasUnique m)
    → AreSized c d
    → AreSized (c + length ms) (splatter_members k ms d)
unfolding splatter_members
splatter_members-AreSized c k [] d u sized = AreSized-weaken c (c + 0) d (omega arith) sized
splatter_members-AreSized c k (plain i ∷ ms) d u sized =
    AreSized-weaken (c + 1 + length ms) (c + suc (length ms)) _ (omega arith) (
      splatter_members-AreSized (c + 1) k ms (append_to k (plain i ∷ []) d) (λ m h. u m (inr h))
        (append-AreSized c k (plain i) d (AreSized-weaken c (c + 1) d (omega arith) sized)
          (λ ns h. (sized k ns h).1)))
splatter_members-AreSized c k (trimmed vs i ∷ ms) d u sized =
    AreSized-weaken (c + 1 + length ms) (c + suc (length ms)) _ (omega arith) (
      splatter_members-AreSized (c + 1) k ms (splatter_values vs i d) (λ m h. u m (inr h))
        (splatter_values-AreSized c vs i d (u (trimmed vs i) (inl refl))
          (AreSized-weaken c (c + 1) d (omega arith) sized) (λ v ns m h. (sized (value v) ns h).1)))

splatter-AreSized :
    (c : ℕ) (d new_parts : Parts)
    → ((k : Token) (ms : List Member) (m : Member) → Elem (k, ms) d → Elem m ms → HasUnique m)
    → AreSized c new_parts
    → AreSized (c + total d) (splatter d new_parts)
unfolding splatter
splatter-AreSized c [] new_parts u sized = AreSized-weaken c (c + 0) new_parts (omega arith) sized
splatter-AreSized c ((k, ms) ∷ d) new_parts u sized =
    AreSized-weaken (c + length ms + total d) (c + (length ms + total d)) _ (omega arith) (
      splatter-AreSized (c + length ms) d (splatter_members k ms new_parts)
        (λ j ns m e f. u j ns m (inr e) f)
        (splatter_members-AreSized c k ms new_parts (λ m f. u k ms m (inl refl) f) sized))

-- With or without the splattering.
pub parts-AreSized :
    (sp : Spaces) (s : Store) (bitpos : ℕ) (token : String) (is : List ℕ) (d : Parts) (vs : List ℕ)
    → HasSets sp
    → IsDict d
    → partition_by_required_values sp s bitpos token is ≡ ok (d, vs)
    → AreSized (length is) (if need_to_splatter d then splatter d [] else d)
unfolding lookup
parts-AreSized sp s bitpos token is d vs sets w h =
    let (t, full, unique) = partition-total sp s bitpos token sets is d vs h in
    elim (Bool-cases (need_to_splatter d)) [
      | inr e ↦ rw e (λ k ms g. (full k ms g, omega (arith, length-le-total k ms d g)))
      | inl e ↦ rw e (
          AreSized-weaken (0 + total d) (length is) _ (omega arith) (
            splatter-AreSized 0 d [] (λ k ms m f g. unique k m (ms, Elem-lookup k ms d w f, g))
              (λ k ms g. cc (g))))
    ]
