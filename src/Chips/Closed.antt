-- ===== src/Chips/Closed.antt =====
-- The expansion of all chips, whose references go to chips of lower rank.
use mathlib.Core.Path.{subst}
use xed.Base.{
  ℕ, suc, ◌≡◌, ◌≢◌, ◌↔◌, ◌⊎◌, refl, sym, ap, ◌∙◌, inl, inr, String, true, false, none, some, List,
  [], ◌∷◌, ◌++◌, map, Bool-cases, Option-cases, string_eq, Elem, Elem-append_left,
  Elem-append_right, Elem-append_cases, arith,
}
use xed.Base.Dict.{lookup, insert, lookup-insert, lookup-insert_self}
use xed.Chips.{uniquify_list, uniquify_list-IsUnique}
use xed.Chips.Hierarchy.{Ext, all_of, common_subset, not_ext, isa, Features, isa_names, remove_not}
use xed.Chips.Expanded.{
  isa_names-isa, HasFeature, own, from_all, from_both, Elem-isa_names, Elem-remove_not,
}
use xed.Chips.Loops.{IsExpanded, AreStages, After, AreRefs, FromAll, FromBoth}

module _ (rank : String → ℕ) (lines : Features) where
  -- The references of a chip are to chips of the file that have a lower rank.
  abbrev pub IsRanked : Type 0
  IsRanked =
      (chip : String) (exts : List Ext)
      → lookup chip lines ≡ some exts
      → AreRefs rank lines (rank chip) exts

  -- a feature by the words of the chip
  abbrev pub IsLocal : List Ext → String → Type 0
  IsLocal exts ext =
      ((FromAll rank lines exts ext ⊎ FromBoth rank lines exts ext) × ¬ (Elem (not_ext ext) exts))
      ⊎ Elem (isa ext) exts

  -- the words that a chip has before an expansion
  pub record IsStage (chip : String) (exts : List Ext) : Type 0 where
    pub refs : AreRefs rank lines (rank chip) exts
    pub means : (ext : String) → IsLocal exts ext ↔ HasFeature lines chip ext

  HasFeature→IsLocal :
      (chip ext : String) (exts : List Ext)
      → lookup chip lines ≡ some exts
      → HasFeature lines chip ext
      → IsLocal exts ext
  HasFeature→IsLocal chip ext exts l (own exts2 l2 m) =
      let e : exts2 ≡ exts = cc in subst (λ x. IsLocal x ext) e (inr m)
  HasFeature→IsLocal chip ext exts l (from_all exts2 sub l2 m free h) =
      let e : exts2 ≡ exts = cc in subst (λ x. IsLocal x ext) e (inl (inl (sub, m, h), free))
  HasFeature→IsLocal chip ext exts l (from_both exts2 c1 c2 l2 m free h1 h2) =
      let e : exts2 ≡ exts = cc in
      subst (λ x. IsLocal x ext) e (inl (inr (c1, c2, m, h1, h2), free))

  -- A chip that is not expanded has the words of its line.
  line-IsStage :
      IsRanked
      → (chip : String) (exts : List Ext) → lookup chip lines ≡ some exts
      → IsStage chip exts
  line-IsStage ranked chip exts l = record {
    refs = ranked chip exts l;
    means = λ ext. (
      λ m. elim m [
        | inl (inl f, free) ↦ from_all exts f.0 l f.1 free f.2
        | inl (inr f, free) ↦ from_both exts f.0 f.1 l f.2 free f.3 f.4
        | inr k ↦ own exts l k
      ],
      HasFeature→IsLocal chip ext exts l,
    );
  }

  not_isa : (x : Ext) (xs : List String) → ((ext : String) → x ≢ isa ext) → ¬ (Elem x (map isa xs))
  not_isa x [] other m = m
  not_isa x (y ∷ xs) other (inl q) = other y q
  not_isa x (y ∷ xs) other (inr m) = not_isa x xs other m

  Elem-map_isa : (ext : String) (xs : List String) → Elem (isa ext) (map isa xs) ↔ Elem ext xs
  Elem-map_isa ext xs =
      let iff = Elem-isa_names ext (map isa xs) in
      (
        λ m. subst (Elem ext) (isa_names-isa xs) (iff.1 m),
        λ m. iff.0 (subst (Elem ext) (sym (isa_names-isa xs)) m),
      )

  -- An expanded chip has words without operators.
  expanded-IsStage :
      (chip : String) (xs : List String)
      → ((ext : String) → Elem ext xs ↔ HasFeature lines chip ext)
      → IsStage chip (map isa xs)
  expanded-IsStage chip xs iff = record {
    refs = record {
      all_refs = λ c m. absurd (not_isa (all_of c) xs (λ e q. cc) m);
      both_refs = λ c1 c2 m. absurd (not_isa (common_subset c1 c2) xs (λ e q. cc) m);
    };
    means = λ ext. (
      λ m. elim m [
        | inl (inl f, free) ↦ absurd (not_isa (all_of f.0) xs (λ e q. cc) f.1)
        | inl (inr f, free) ↦ absurd (not_isa (common_subset f.0 f.1) xs (λ e q. cc) f.2)
        | inr k ↦ (iff ext).0 ((Elem-map_isa ext xs).0 k)
      ],
      λ h. inr ((Elem-map_isa ext xs).1 ((iff ext).1 h)),
    );
  }

  pub AreStages-IsStage :
      IsRanked
      → (chip : String) (d : Features) → lookup chip lines ≢ none
      → AreStages rank lines d
      → (exts : List Ext) × (lookup chip d ≡ some exts) × IsStage chip exts
  AreStages-IsStage ranked chip d known stages = elim (Option-cases (lookup chip lines)) [
    | inl e ↦ absurd (known e)
    | inr (exts, e) ↦ elim (stages chip exts e) [
      | inl l ↦ (exts, l, line-IsStage ranked chip exts e)
      | inr (xs, l, iff) ↦ (map isa xs, l, expanded-IsStage chip xs iff)
    ]
  ]

  -- The expanded chip in its place.
  pub finished-After :
      (chip : String) (d mid : Features) (xs : List String)
      → After rank lines (rank chip) d mid
      → ((ext : String) → Elem ext xs ↔ HasFeature lines chip ext)
      → After rank lines (suc (rank chip)) d (insert chip (map isa xs) mid)
        × IsExpanded rank lines chip (insert chip (map isa xs) mid)
  finished-After chip d mid xs after iff =
      let done : IsExpanded rank lines chip (insert chip (map isa xs) mid) =
        (xs, lookup-insert_self chip (map isa xs) mid, iff) in
      (
        record {
          stages = λ k exts l. elim (Bool-cases (string_eq.beq chip k)) [
            | inl b ↦ inr (
                subst (λ c. IsExpanded rank lines c (insert chip (map isa xs) mid)) (same k b) done)
            | inr b ↦ elim (after.stages k exts l) [
              | inl old ↦ inl (other k b ∙ old)
              | inr (ys, old, iff2) ↦ inr (ys, other k b ∙ old, iff2)
            ]
          ];
          kept = λ k h. elim (Bool-cases (string_eq.beq chip k)) [
            | inl b ↦ absurd (let e = ap rank (same k b) in omega arith)
            | inr b ↦ other k b ∙ after.kept k (omega arith)
          ];
          grown = λ k h. elim (Bool-cases (string_eq.beq chip k)) [
            | inl b ↦
                subst (λ c. IsExpanded rank lines c (insert chip (map isa xs) mid)) (same k b) done
            | inr b ↦ let (ys, old, iff2) = after.grown k h in (ys, other k b ∙ old, iff2)
          ];
        },
        done,
      )
    where
      same : (k : String) → string_eq.beq chip k ≡ true → chip ≡ k
      same k b = (string_eq.beq_iff chip k).0 b

      other :
          (k : String)
          → string_eq.beq chip k ≡ false
          → lookup k (insert chip (map isa xs) mid) ≡ lookup k mid
      other k b = lookup-insert chip k (map isa xs) mid ∙ rw b refl

  pub collected_iff :
      (exts : List Ext) (found1 found2 : List String) (ext : String)
      → Elem ext found1 ↔ (Elem ext [] ⊎ FromAll rank lines exts ext)
      → Elem ext found2 ↔ (Elem ext found1 ⊎ FromBoth rank lines exts ext)
      → Elem ext (uniquify_list (remove_not exts found2 ++ isa_names exts)) ↔ IsLocal exts ext
  collected_iff exts found1 found2 ext iff1 iff2 =
      let unique = (uniquify_list-IsUnique (remove_not exts found2 ++ isa_names exts)).1 ext in
      let removed = Elem-remove_not ext exts found2 in
      let plain = Elem-isa_names ext exts in
      (
        λ m. elim (Elem-append_cases ext (remove_not exts found2) (isa_names exts) (unique.0 m)) [
          | inl k ↦
              let (there, free) = removed.0 k in
              elim (iff2.0 there) [
                | inl one ↦ elim (iff1.0 one) [ inl z ↦ absurd z | inr f ↦ inl (inl f, free) ]
                | inr f ↦ inl (inr f, free)
              ]
          | inr k ↦ inr (plain.0 k)
        ],
        λ m. unique.1 (elim m [
          | inl (inl f, free) ↦
              Elem-append_left ext (remove_not exts found2) (isa_names exts)
                (removed.1 (iff2.1 (inl (iff1.1 (inr f))), free))
          | inl (inr f, free) ↦
              Elem-append_left ext (remove_not exts found2) (isa_names exts)
                (removed.1 (iff2.1 (inr f), free))
          | inr k ↦ Elem-append_right ext (remove_not exts found2) (isa_names exts) (plain.1 k)
        ]),
      )
