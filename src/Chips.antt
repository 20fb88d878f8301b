-- ===== src/Chips.antt =====
-- pysrc/chipmodel.py: the checks of the chips' features against the instructions' isa sets, and which
-- chips support a feature. The warnings and messages are left out.
pub mod Hierarchy
pub mod Expanded
pub mod Loops
pub mod Closed
pub mod Recursion
use xed.Base.{
  ◌≡◌, ◌≢◌, ◌↔◌, ◌⊎◌, refl, sym, ap, ◌∙◌, inl, inr, String, Bool, true, false, none, List, [], ◌∷◌,
  arith, if◌then◌else◌, Bool-cases, Elem, IsUnique, contains, contains-Elem, Elem-contains,
  string_eq,
}
use xed.Base.Dict.{
  Dict, lookup, insert, keys, IsDict, IsUnique-keys, lookup-of-key, insert-IsDict, lookup-insert,
}
use xed.Pattern.{in_text, any_of}

-- `d[a] = True` for each element, and the keys
fill : List String → Dict String Bool → Dict String Bool
unfolding insert
fill [] d = d
fill (a ∷ l) d = fill l (insert a true d)

unfoldable pub uniquify_list : List String → List String
unfolding fill
uniquify_list l = keys (fill l [])

-- the elements of one list, `INVALID` apart, that are not in the other
unfoldable pub not_in : List String → List String → List String
not_in other [] = []
not_in other (v ∷ vs) =
    let rest = not_in other vs in
    if string_eq.beq v "INVALID" then rest else if contains v other then rest else v ∷ rest

unfoldable pub check_in_chip_hierarchy_not_instructions : List String → List String → List String
unfolding not_in
check_in_chip_hierarchy_not_instructions isaset_ch isaset_inst = not_in isaset_inst isaset_ch

unfoldable pub check_in_instructions_not_chip_hierarchy : List String → List String → List String
unfolding not_in
check_in_instructions_not_chip_hierarchy isaset_ch isaset_inst = not_in isaset_ch isaset_inst

-- The values are '1' and '0' in the source.
unfoldable pub supports_from :
    String → Dict String (List String) → Dict String Bool → Dict String Bool
unfolding insert any_of
supports_from feature [] table = table
supports_from feature ((c, isa) ∷ chip2isa) table =
    supports_from feature chip2isa (insert c (any_of (in_text feature) isa) table)

unfoldable pub get_chip_supports_feature_dict :
    String → Dict String (List String) → Dict String Bool
unfolding supports_from
get_chip_supports_feature_dict feature chip2isa = supports_from feature chip2isa []

fill-IsDict : (l : List String) (d : Dict String Bool) → IsDict d → IsDict (fill l d)
unfolding fill
fill-IsDict [] d w = w
fill-IsDict (a ∷ l) d w = fill-IsDict l (insert a true d) (insert-IsDict a true d w)

fill-lookup :
    (l : List String) (d : Dict String Bool) (a : String)
    → (lookup a (fill l d) ≢ none) ↔ (Elem a l ⊎ (lookup a d ≢ none))
unfolding fill
fill-lookup [] d a = (λ n. inr n, λ m. elim m [ inl x ↦ absurd x | inr n ↦ n ])
fill-lookup (b ∷ l) d a =
    let ih = fill-lookup l (insert b true d) a in
    (
      λ n. elim (ih.0 n) [
        | inl m ↦ inl (inr m)
        | inr k ↦ elim (Bool-cases (string_eq.beq b a)) [
          | inl p ↦ inl (inl (sym ((string_eq.beq_iff b a).0 p)))
          | inr p ↦ inr (ground (arith, lookup-insert b a true d))
        ]
      ],
      λ m. ih.1 (elim m [
        | inl (inl e) ↦ inr (ground (arith, lookup-insert b a true d, string_eq.beq_iff b a))
        | inl (inr k) ↦ inl k
        | inr n ↦ inr (ground (arith, lookup-insert b a true d))
      ]),
    )

key-lookup : (a : String) (d : Dict String Bool) → lookup a d ≢ none → Elem a (keys d)
unfolding lookup
key-lookup a [] n = absurd (n refl)
key-lookup a ((b, v) ∷ d) n = elim (Bool-cases (string_eq.beq b a)) [
  | inl p ↦ inl (sym ((string_eq.beq_iff b a).0 p))
  | inr p ↦ inr (key-lookup a d (ground arith))
]

-- uniquify_list returns a list without duplicates that has the same elements as its argument.
pub uniquify_list-IsUnique :
    (l : List String)
    → IsUnique (uniquify_list l) × ((a : String) → Elem a (uniquify_list l) ↔ Elem a l)
unfolding uniquify_list
uniquify_list-IsUnique l = (
  IsUnique-keys (fill l []) (fill-IsDict l [] tt),
  λ a.
      let iff = fill-lookup l [] a in
      (
        λ m. elim (iff.0 (lookup-of-key a (fill l []) m)) [
          | inl k ↦ k
          | inr n ↦ absurd (n (unfold lookup in refl))
        ],
        λ m. key-lookup a (fill l []) (iff.1 (inl m)),
      ),
)

not_in-Elem :
    (other vs : List String) (v : String)
    → Elem v (not_in other vs) ↔ (Elem v vs × (v ≢ "INVALID") × (¬ (Elem v other)))
unfolding not_in
not_in-Elem other [] v = (λ m. elim m [ ], λ p. let (m, d, n) = p in elim m [ ])
not_in-Elem other (x ∷ vs) v =
    let ih = not_in-Elem other vs v in
    elim (Bool-cases (string_eq.beq x "INVALID")) [
      | inl p ↦ rw p (
        λ m. let (k, d, n) = ih.0 m in (inr k, d, n),
        λ q.
            let (m, d, n) = q in
            elim m [
              | inl e ↦ absurd (d (e ∙ (string_eq.beq_iff x "INVALID").0 p))
              | inr k ↦ ih.1 (k, d, n)
            ],
      )
      | inr p ↦ elim (Bool-cases (contains x other)) [
        | inl c ↦
            rw (p, c)
              (
                λ m. let (k, d, n) = ih.0 m in (inr k, d, n),
                λ q.
                    let (m, d, n) = q in
                    elim m [ inl e ↦ absurd (cc (c, absent v x e n)) | inr k ↦ ih.1 (k, d, n) ],
              )
        | inr c ↦
            rw (p, c)
              (
                λ m. elim m [
                  | inl e ↦ (
                    inl e,
                    λ z. cc (p, (string_eq.beq_iff x "INVALID").1 (sym e ∙ z)),
                    λ k. cc (c, present v x e k),
                  )
                  | inr k ↦ let (q, d, n) = ih.0 k in (inr q, d, n)
                ],
                λ q. let (m, d, n) = q in elim m [ inl e ↦ inl e | inr k ↦ inr (ih.1 (k, d, n)) ],
              )
      ]
    ]
  where
    present : (v x : String) → v ≡ x → Elem v other → contains x other ≡ true
    present v x e m = ap (λ y. contains y other) (sym e) ∙ Elem-contains v other m

    absent : (v x : String) → v ≡ x → ¬ (Elem v other) → contains x other ≡ false
    absent v x e n = elim (Bool-cases (contains x other)) [
      | inl c ↦ absurd (n (contains-Elem v other (ap (λ y. contains y other) e ∙ c)))
      | inr c ↦ c
    ]

-- The first check of isa sets reports exactly the names of the chips, other than INVALID, that no
-- instruction has, and the second exactly the names of the instructions, other than INVALID, that
-- no chip has.
pub checks-Elem :
    (isaset_ch isaset_inst : List String) (v : String)
    → (Elem v (check_in_chip_hierarchy_not_instructions isaset_ch isaset_inst)
        ↔ (Elem v isaset_ch × (v ≢ "INVALID") × (¬ (Elem v isaset_inst))))
      × (Elem v (check_in_instructions_not_chip_hierarchy isaset_ch isaset_inst)
          ↔ (Elem v isaset_inst × (v ≢ "INVALID") × (¬ (Elem v isaset_ch))))
unfolding check_in_chip_hierarchy_not_instructions check_in_instructions_not_chip_hierarchy
checks-Elem isaset_ch isaset_inst v =
    (not_in-Elem isaset_inst isaset_ch v, not_in-Elem isaset_ch isaset_inst v)

supports_from-kept :
    (feature c : String) (chips : Dict String (List String)) (table : Dict String Bool)
    → lookup c chips ≡ none
    → lookup c (supports_from feature chips table) ≡ lookup c table
unfolding supports_from lookup
supports_from-kept feature c [] table n = refl
supports_from-kept feature c ((k, isa) ∷ chips) table n = elim (Bool-cases (string_eq.beq k c)) [
  | inl p ↦ absurd (ground arith)
  | inr p ↦
      supports_from-kept feature c chips (insert k (any_of (in_text feature) isa) table)
        (ground arith)
      ∙ lookup-insert k c (any_of (in_text feature) isa) table
      ∙ ground arith
]
