-- ===== src/Graph/Placed.antt =====
-- Where `partition_by_required_values` places the instructions.
use mathlib.Core.Path.{subst}
use xed.Base.{
  ℕ, ◌≡◌, ◌≢◌, ◌⊎◌, ◌↔◌, refl, sym, ap, ◌∙◌, inl, inr, String, Bool, true, false, not, some, List,
  [], ◌∷◌, ◌++◌, arith, Elem, Elem-append_left, Elem-append_right, Elem-append_cases, eqb, eqb_iff,
  nat_eq, string_eq, Bool-cases, Option-cases, Result, ok, >>=-eq-ok, get_elem?,
}
use xed.Base.Dict.{
  lookup, IsDict, insert-IsDict, lookup-insert_self, lookup-insert_cases, lookup-insert,
}
use xed.Graph.{Decider, Store, Token, other, value, token_eq, decider_of}
use xed.Graph.Partition.{
  Spaces, Member, plain, trimmed, Parts, or_nil, append_to, without, all_values_for, place_trimmed,
  place, place_all, partition_by_required_values, id_of,
}

-- the member stands in the part of the key
abbrev pub In : Token → Member → Parts → Type 0
In k m d = (ms : List Member) × (lookup k d ≡ some ms) × Elem m ms

pub In-append_new :
    (k : Token) (m : Member) (ms : List Member) (d : Parts) → Elem m ms → In k m (append_to k ms d)
In-append_new k m ms d h =
    let before = or_nil (lookup k d) in
    (before ++ ms, lookup-insert_self k (before ++ ms) d, Elem-append_right m before ms h)

pub In-append_old :
    (k j : Token) (m : Member) (ms : List Member) (d : Parts) → In k m d → In k m (append_to j ms d)
In-append_old k j m ms d (old, e, h) = elim (Bool-cases (token_eq.beq j k)) [
  | inl p ↦
      let at : j ≡ k = (token_eq.beq_iff j k).0 p in
      subst (λ t. In k m (append_to t ms d)) (sym at)
        (
          or_nil (lookup k d) ++ ms,
          lookup-insert_self k (or_nil (lookup k d) ++ ms) d,
          rw e (Elem-append_left m old ms h),
        )
  | inr p ↦ (old, ground (arith, lookup-insert j k (or_nil (lookup j d) ++ ms) d), h)
]

pub In-append_cases :
    (k j : Token) (m : Member) (ms : List Member) (d : Parts)
    → In k m (append_to j ms d)
    → In k m d ⊎ ((j ≡ k) × Elem m ms)
In-append_cases k j m ms d (all, e, h) =
    elim (lookup-insert_cases j k (or_nil (lookup j d) ++ ms) all d e) [
      | inr old ↦ inl (all, old, h)
      | inl (at, same) ↦ elim (Option-cases (lookup j d)) [
        | inl n ↦ inr (at, subst (Elem m) (sym same ∙ ap (λ o. or_nil o ++ ms) n) h)
        | inr (before, b) ↦
            elim (Elem-append_cases m before ms
              (subst (Elem m) (sym same ∙ ap (λ o. or_nil o ++ ms) b) h)) [
                | inl l ↦ inl (before, ap (λ t. lookup t d) (sym at) ∙ b, l)
                | inr r ↦ inr (at, r)
              ]
      ]
    ]

pub without-Elem : (v r : ℕ) (vs : List ℕ) → Elem v (without r vs) ↔ (Elem v vs × (v ≢ r))
unfolding without
without-Elem v r [] = (λ m. elim m [ ], λ p. let (m, n) = p in elim m [ ])
without-Elem v r (w ∷ vs) =
    let ih = without-Elem v r vs in
    elim (Bool-cases (eqb w r)) [
      | inl e ↦
          let at : w ≡ r = (eqb_iff w r).0 e in
          rw e (
            λ m. let (k, n) = ih.0 m in (inr k, n),
            λ p. let (m, n) = p in elim m [ inl q ↦ absurd (n (q ∙ at)) | inr k ↦ ih.1 (k, n) ],
          )
      | inr e ↦ rw e (
        λ m. elim m [
          | inl q ↦ (inl q, λ z. cc (e, (eqb_iff w r).1 (sym q ∙ z)))
          | inr k ↦ let (l, n) = ih.0 k in (inr l, n)
        ],
        λ p. let (m, n) = p in elim m [ inl q ↦ inl q | inr k ↦ inr (ih.1 (k, n)) ],
      )
    ]

-- where an instruction with a decider belongs
abbrev pub Belongs : Spaces → ℕ → Decider → Bool → Parts → Type 0
Belongs sp i od true d = In (value od.requirement) (plain i) d
Belongs sp i od false d =
    (all : List ℕ) × (all_values_for sp od.token ≡ ok all)
    × In other (trimmed (without od.requirement all) i) d

Belongs-append :
    (sp : Spaces) (i : ℕ) (od : Decider) (b : Bool) (d : Parts) (j : Token) (ms : List Member)
    → Belongs sp i od b d
    → Belongs sp i od b (append_to j ms d)
Belongs-append sp i od true d j ms h = In-append_old (value od.requirement) j (plain i) ms d h
Belongs-append sp i od false d j ms (all, e, h) = (all, e, In-append_old other j _ ms d h)

-- A scalar part has plain members, and the part of 'other' has members with values.
abbrev pub Fits : Token → Member → Type 0
Fits (value v) (plain i) = Unit
Fits other (trimmed vs i) = Unit
Fits k m = ⊥

module _ (sp : Spaces) (s : Store) (bitpos : ℕ) (token : String) (ids : List ℕ) where
  -- the state of the loop is a dictionary of such members
  pub record ArePlaced (d : Parts) : Type 0 where
    pub dict : IsDict d
    pub fits : (k : Token) (m : Member) → In k m d → Fits k m
    pub from : (k : Token) (m : Member) → In k m d → Elem (id_of m) ids

  ArePlaced-append :
      (k : Token) (m : Member) (d : Parts)
      → Fits k m
      → Elem (id_of m) ids
      → ArePlaced d
      → ArePlaced (append_to k (m ∷ []) d)
  ArePlaced-append k m d f h a = record {
    dict = insert-IsDict k (or_nil (lookup k d) ++ m ∷ []) d a.dict;
    fits = λ j n p. elim (In-append_cases j k n (m ∷ []) d p) [
      | inl old ↦ a.fits j n old
      | inr (at, inl e) ↦ subst (λ t. Fits t n) at (subst (Fits k) (sym e) f)
      | inr (at, inr e) ↦ elim e [ ]
    ];
    from = λ j n p. elim (In-append_cases j k n (m ∷ []) d p) [
      | inl old ↦ a.from j n old
      | inr (at, inl e) ↦ subst (λ x. Elem (id_of x) ids) (sym e) h
      | inr (at, inr e) ↦ elim e [ ]
    ];
  }

  -- what one step of the loop gives
  abbrev IsPlacedAt : ℕ → Parts → Parts → Type 0
  IsPlacedAt i d d' =
      ArePlaced d'
      × ((od : Decider)
          → decider_of (get_elem? (s i) bitpos) ≡ some od
          → Belongs sp i od od.is_eq d')
      × ((j : ℕ) (od : Decider) → Belongs sp j od od.is_eq d → Belongs sp j od od.is_eq d')

  is_value :
      (i : ℕ) (od p : Decider) (d : Parts)
      → od ≡ p
      → od.is_eq ≡ true
      → In (value od.requirement) (plain i) d
      → Belongs sp i p p.is_eq d
  is_value i od p d e q h =
      let at : Belongs sp i od od.is_eq d = subst (λ b. Belongs sp i od b d) (sym q) h in
      subst (λ o. Belongs sp i o o.is_eq d) e at

  is_rest :
      (i : ℕ) (od p : Decider) (all : List ℕ) (d : Parts)
      → od ≡ p
      → od.is_eq ≡ false
      → all_values_for sp od.token ≡ ok all
      → In other (trimmed (without od.requirement all) i) d
      → Belongs sp i p p.is_eq d
  is_rest i od p all d e q a h =
      let at : Belongs sp i od od.is_eq d = subst (λ b. Belongs sp i od b d) (sym q) (all, a, h) in
      subst (λ o. Belongs sp i o o.is_eq d) e at

  place-IsPlacedAt :
      (i : ℕ) (d d' : Parts) (vs vs' : List ℕ)
      → Elem i ids
      → ArePlaced d
      → place sp s bitpos token i (d, vs) ≡ ok (d', vs')
      → IsPlacedAt i d d'
  unfolding place place_trimmed
  place-IsPlacedAt i d d' vs vs' m a h = elim (Option-cases (decider_of (get_elem? (s i) bitpos))) [
    | inl e ↦ absurd (cc (rw (e, place) at h))
    | inr (od, e) ↦ elim (Bool-cases (not (string_eq.beq od.token token))) [
      | inl n ↦ absurd (cc (rw (e, place, n) at h))
      | inr n ↦ elim (Bool-cases od.is_eq) [
        | inl q ↦
            let h' = rw (e, place, n, q) at h in
            let same : append_to (value od.requirement) (plain i ∷ []) d ≡ d' = placed_eq _ d' h' in
            subst (IsPlacedAt i d) same (
              ArePlaced-append (value od.requirement) (plain i) d tt m a,
              λ p g.
                  is_value i od p _ (some_inj (sym e ∙ g)) q
                    (In-append_new (value od.requirement) (plain i) _ d (inl refl)),
              λ j p b. Belongs-append sp j p p.is_eq d _ _ b,
            )
        | inr q ↦
            let (all, av, r) =
              >>=-eq-ok (all_values_for sp od.token) _ (rw (e, place, n, q) at h) in
            let same : append_to other (trimmed (without od.requirement all) i ∷ []) d ≡ d' =
              rest_eq (without od.requirement all) all r in
            subst (IsPlacedAt i d) same (
              ArePlaced-append other (trimmed (without od.requirement all) i) d tt m a,
              λ p g.
                  is_rest i od p all _ (some_inj (sym e ∙ g)) q av
                    (In-append_new other _ _ d (inl refl)),
              λ j p b. Belongs-append sp j p p.is_eq d _ _ b,
            )
      ]
    ]
  ]
    where
      some_inj : {x y : Decider} → some x ≡ some y → x ≡ y
      some_inj h = ground arith

      placed_eq :
          {a b : List ℕ} (x y : Parts)
          → ◌≡◌ {A = Result (Parts × List ℕ)} (ok (x, a)) (ok (y, b))
          → x ≡ y
      placed_eq x y h = ground arith

      rest_eq :
          (ws all : List ℕ)
          → place_trimmed sp s bitpos token i all ws (d, vs) ≡ ok (d', vs')
          → append_to other (trimmed ws i ∷ []) d ≡ d'
      rest_eq [] all h = cc
      rest_eq (w ∷ ws) all h = ground arith

  place_all-ArePlaced :
      (is : List ℕ) (d d' : Parts) (vs vs' : List ℕ)
      → ((i : ℕ) → Elem i is → Elem i ids)
      → ArePlaced d
      → place_all sp s bitpos token is (d, vs) ≡ ok (d', vs')
      → ArePlaced d'
        × ((i : ℕ) (od : Decider)
            → Elem i is
            → decider_of (get_elem? (s i) bitpos) ≡ some od
            → Belongs sp i od od.is_eq d')
        × ((j : ℕ) (od : Decider) → Belongs sp j od od.is_eq d → Belongs sp j od od.is_eq d')
  unfolding place_all
  place_all-ArePlaced [] d d' vs vs' sub a h =
      let same : d ≡ d' = ground arith in
      (
        subst ArePlaced same a,
        λ i od m g. elim m [ ],
        λ j od b. subst (Belongs sp j od od.is_eq) same b,
      )
  place_all-ArePlaced (i ∷ is) d d' vs vs' sub a h =
      let ((d1, vs1), e, rest) = >>=-eq-ok (place sp s bitpos token i (d, vs)) _ h in
      let (a1, at, keep) = place-IsPlacedAt i d d1 vs vs1 (sub i (inl refl)) a e in
      let (a2, later, keep2) =
        place_all-ArePlaced is d1 d' vs1 vs' (λ j m. sub j (inr m)) a1 rest in
      (
        a2,
        λ j od m g. elim m [
          | inl q ↦
              let here : decider_of (get_elem? (s i) bitpos) ≡ some od =
                ap (λ k. decider_of (get_elem? (s k) bitpos)) (sym q) ∙ g in
              subst (λ k. Belongs sp k od od.is_eq d') (sym q) (keep2 i od (at od here))
          | inr k ↦ later j od k g
        ],
        λ j od b. keep2 j od (keep j od b),
      )

  nothing-ArePlaced : ArePlaced []
  unfolding lookup
  nothing-ArePlaced = record {
    dict = tt;
    fits = λ k m p. let (ms, e, h) = p in cc (e);
    from = λ k m p. let (ms, e, h) = p in cc (e);
  }

pub partition-ArePlaced :
    (sp : Spaces) (s : Store) (bitpos : ℕ) (token : String) (ids : List ℕ) (d : Parts) (vs : List ℕ)
    → partition_by_required_values sp s bitpos token ids ≡ ok (d, vs)
    → ArePlaced sp s bitpos token ids d
      × ((i : ℕ) (od : Decider)
          → Elem i ids
          → decider_of (get_elem? (s i) bitpos) ≡ some od
          → Belongs sp i od od.is_eq d)
unfolding partition_by_required_values
partition-ArePlaced sp s bitpos token ids d vs h =
    let (a, at, keep) =
      place_all-ArePlaced sp s bitpos token ids ids [] d [] vs (λ i m. m)
        (nothing-ArePlaced sp s bitpos token ids) h in
    (a, at)
