-- ===== src/Chips/Loops.antt =====
-- The loops of expand_chip, where the recursive call expands the chips that the words name.
use mathlib.Core.Path.{subst}
use xed.Base.{
  ℕ, ◌≤◌, ◌<◌, ◌≡◌, ◌≢◌, ◌↔◌, ◌⊎◌, refl, ap, ◌∙◌, inl, inr, String, none, some, List, [], ◌∷◌, ◌++◌,
  map, string_eq, Elem, Elem-append_left, Elem-append_right, Elem-append_cases, Result, ok,
}
use xed.Base.Dict.{lookup}
use xed.Chips.Hierarchy.{
  Ext, all_of, common_subset, not_ext, isa, Features, intersection, features_of, add_all_of,
  add_common,
}
use xed.Chips.Expanded.{HasFeature, isa_names-isa, Elem-intersection}

module _ (rank : String → ℕ) (lines : Features) where
  abbrev pub IsExpanded : String → Features → Type 0
  IsExpanded chip d =
      (xs : List String) × (lookup chip d ≡ some (map isa xs))
      × ((ext : String) → Elem ext xs ↔ HasFeature lines chip ext)

  -- each chip of the file is as it was, or expanded
  abbrev pub AreStages : Features → Type 0
  AreStages d =
      (chip : String) (exts : List Ext)
      → lookup chip lines ≡ some exts
      → (lookup chip d ≡ some exts) ⊎ IsExpanded chip d

  -- what an expansion of chips below a rank does
  pub record After (bound : ℕ) (d next : Features) : Type 0 where
    pub stages : AreStages next
    pub kept : (chip : String) → bound ≤ rank chip → lookup chip next ≡ lookup chip d
    pub grown : (chip : String) → IsExpanded chip d → IsExpanded chip next

  pub After-trans :
      (bound : ℕ) (d mid next : Features)
      → After bound d mid
      → After bound mid next
      → After bound d next
  After-trans bound d mid next a b = record {
    stages = b.stages;
    kept = λ chip h. b.kept chip h ∙ a.kept chip h;
    grown = λ chip h. b.grown chip (a.grown chip h);
  }

  abbrev pub IsRef : ℕ → String → Type 0
  IsRef bound chip = (rank chip < bound) × (lookup chip lines ≢ none)

  pub record AreRefs (bound : ℕ) (exts : List Ext) : Type 0 where
    pub all_refs : (chip : String) → Elem (all_of chip) exts → IsRef bound chip
    pub both_refs :
        (chip1 chip2 : String)
        → Elem (common_subset chip1 chip2) exts
        → IsRef bound chip1 × IsRef bound chip2

  AreRefs-tail :
      (bound : ℕ) (x : Ext) (exts : List Ext) → AreRefs bound (x ∷ exts) → AreRefs bound exts
  AreRefs-tail bound x exts r = record {
    all_refs = λ c m. r.all_refs c (inr m);
    both_refs = λ c1 c2 m. r.both_refs c1 c2 (inr m);
  }

  -- the chips below a rank are expanded
  abbrev pub Expands : ℕ → (String → Features → Result Features) → Type 0
  Expands bound expand =
      (chip : String) (d : Features)
      → IsRef bound chip
      → AreStages d
      → (next : Features) × (expand chip d ≡ ok next) × After bound d next × IsExpanded chip next

  abbrev pub FromAll : List Ext → String → Type 0
  FromAll exts ext = (chip : String) × Elem (all_of chip) exts × HasFeature lines chip ext

  abbrev pub FromBoth : List Ext → String → Type 0
  FromBoth exts ext =
      (chip1 : String) × (chip2 : String) × Elem (common_subset chip1 chip2) exts
      × HasFeature lines chip1 ext
      × HasFeature lines chip2 ext

  -- what a loop gives that collects features
  abbrev pub Collects :
      ℕ → Features → List String → (String → Type 0) → Result (List String × Features) → Type 0
  Collects bound d new_ext From r =
      (found : List String) × (next : Features) × (r ≡ ok (found, next))
      × After bound d next
      × ((ext : String) → Elem ext found ↔ (Elem ext new_ext ⊎ From ext))

  Collects-iff :
      (bound : ℕ) (d : Features) (new_ext : List String) (From To : String → Type 0)
      (r : Result (List String × Features))
      → ((ext : String) → From ext ↔ To ext)
      → Collects bound d new_ext From r
      → Collects bound d new_ext To r
  Collects-iff bound d new_ext From To r same (found, next, e, after, iff) = (
    found,
    next,
    e,
    after,
    λ ext. (
      λ m. elim ((iff ext).0 m) [ inl o ↦ inl o | inr f ↦ inr ((same ext).0 f) ],
      λ m. (iff ext).1 (elim m [ inl o ↦ inl o | inr f ↦ inr ((same ext).1 f) ]),
    ),
  )

  features_of-eq-ok :
      (chip : String) (d : Features) (h : IsExpanded chip d) → features_of chip d ≡ ok (h.0)
  features_of-eq-ok chip d (xs, l, iff) = rw l (ap ok (isa_names-isa xs))

  module _ (bound : ℕ) (expand : String → Features → Result Features)
      (expands : Expands bound expand) where
    skip_all :
        (x : Ext) (exts : List Ext)
        → ((chip : String) → all_of chip ≢ x)
        → (ext : String) → FromAll exts ext ↔ FromAll (x ∷ exts) ext
    skip_all x exts other ext = (
      λ f. (f.0, inr f.1, f.2),
      λ f. elim f.1 [ inl q ↦ absurd (other f.0 q) | inr t ↦ (f.0, t, f.2) ],
    )

    skip_both :
        (x : Ext) (exts : List Ext)
        → ((chip1 chip2 : String) → common_subset chip1 chip2 ≢ x)
        → (ext : String) → FromBoth exts ext ↔ FromBoth (x ∷ exts) ext
    skip_both x exts other ext = (
      λ f. (f.0, f.1, inr f.2, f.3, f.4),
      λ f. elim f.2 [ inl q ↦ absurd (other f.0 f.1 q) | inr t ↦ (f.0, f.1, t, f.3, f.4) ],
    )

    pub add_all_of-Collects :
        (exts : List Ext) (new_ext : List String) (d : Features)
        → AreRefs bound exts
        → AreStages d
        → Collects bound d new_ext (FromAll exts) (add_all_of expand exts new_ext d)
    unfolding add_all_of
    add_all_of-Collects [] new_ext d refs stages = (
      new_ext,
      d,
      refl,
      record { stages = stages; kept = λ c h. refl; grown = λ c h. h },
      λ ext. (λ m. inl m, λ m. elim m [ inl o ↦ o | inr f ↦ absurd f.1 ]),
    )
    add_all_of-Collects (all_of chip ∷ exts) new_ext d refs stages =
        let (mid, e, after, done) = expands chip d (refs.all_refs chip (inl refl)) stages in
        let feat = features_of-eq-ok chip mid done in
        let (found, next, e2, after2, iff) =
          add_all_of-Collects exts (new_ext ++ done.0) mid
            (AreRefs-tail bound (all_of chip) exts refs) after.stages in
        (
          found,
          next,
          rw e (rw feat e2),
          After-trans bound d mid next after after2,
          λ ext. (
            λ m. elim ((iff ext).0 m) [
              | inl o ↦ elim (Elem-append_cases ext new_ext done.0 o) [
                | inl k ↦ inl k
                | inr k ↦ inr (chip, inl refl, (done.2 ext).0 k)
              ]
              | inr f ↦ inr (f.0, inr f.1, f.2)
            ],
            λ m. (iff ext).1 (elim m [
              | inl o ↦ inl (Elem-append_left ext new_ext done.0 o)
              | inr f ↦ elim f.1 [
                | inl q ↦
                    let same : f.0 ≡ chip = cc in
                    inl (
                      Elem-append_right ext new_ext done.0
                        ((done.2 ext).1 (subst (λ c. HasFeature lines c ext) same f.2)))
                | inr t ↦ inr (f.0, t, f.2)
              ]
            ]),
          ),
        )
    add_all_of-Collects (common_subset chip1 chip2 ∷ exts) new_ext d refs stages =
        Collects-iff bound d new_ext (FromAll exts) (FromAll (common_subset chip1 chip2 ∷ exts))
          (add_all_of expand exts new_ext d) (skip_all (common_subset chip1 chip2) exts (λ c q. cc))
          (add_all_of-Collects exts new_ext d
            (AreRefs-tail bound (common_subset chip1 chip2) exts refs) stages)
    add_all_of-Collects (not_ext e ∷ exts) new_ext d refs stages =
        Collects-iff bound d new_ext (FromAll exts) (FromAll (not_ext e ∷ exts))
          (add_all_of expand exts new_ext d) (skip_all (not_ext e) exts (λ c q. cc))
          (add_all_of-Collects exts new_ext d (AreRefs-tail bound (not_ext e) exts refs) stages)
    add_all_of-Collects (isa e ∷ exts) new_ext d refs stages =
        Collects-iff bound d new_ext (FromAll exts) (FromAll (isa e ∷ exts))
          (add_all_of expand exts new_ext d) (skip_all (isa e) exts (λ c q. cc))
          (add_all_of-Collects exts new_ext d (AreRefs-tail bound (isa e) exts refs) stages)

    pub add_common-Collects :
        (exts : List Ext) (new_ext : List String) (d : Features)
        → AreRefs bound exts
        → AreStages d
        → Collects bound d new_ext (FromBoth exts) (add_common expand exts new_ext d)
    unfolding add_common
    add_common-Collects [] new_ext d refs stages = (
      new_ext,
      d,
      refl,
      record { stages = stages; kept = λ c h. refl; grown = λ c h. h },
      λ ext. (λ m. inl m, λ m. elim m [ inl o ↦ o | inr f ↦ absurd f.2 ]),
    )
    add_common-Collects (common_subset chip1 chip2 ∷ exts) new_ext d refs stages =
        let (ref1, ref2) = refs.both_refs chip1 chip2 (inl refl) in
        let (d1, e1, after1, first) = expands chip1 d ref1 stages in
        let (mid, e2, after_mid, second) = expands chip2 d1 ref2 after1.stages in
        let still = after_mid.grown chip1 first in
        let feat1 = features_of-eq-ok chip1 mid still in
        let feat2 = features_of-eq-ok chip2 mid second in
        let common = intersection still.0 second.0 in
        let (found, next, e3, after3, iff) =
          add_common-Collects exts (new_ext ++ common) mid
            (AreRefs-tail bound (common_subset chip1 chip2) exts refs) after_mid.stages in
        (
          found,
          next,
          rw e1 (rw e2 (rw feat1 (rw feat2 e3))),
          After-trans bound d d1 next after1 (After-trans bound d1 mid next after_mid after3),
          λ ext. (
            λ m. elim ((iff ext).0 m) [
              | inl o ↦ elim (Elem-append_cases ext new_ext common o) [
                | inl k ↦ inl k
                | inr k ↦
                    let (in1, in2) = (Elem-intersection ext still.0 second.0).0 k in
                    inr (chip1, chip2, inl refl, (still.2 ext).0 in1, (second.2 ext).0 in2)
              ]
              | inr f ↦ inr (f.0, f.1, inr f.2, f.3, f.4)
            ],
            λ m. (iff ext).1 (elim m [
              | inl o ↦ inl (Elem-append_left ext new_ext common o)
              | inr f ↦ elim f.2 [
                | inl q ↦
                    let same1 : f.0 ≡ chip1 = cc in
                    let same2 : f.1 ≡ chip2 = cc in
                    inl (
                      Elem-append_right ext new_ext common (
                        (Elem-intersection ext still.0 second.0).1 (
                          (still.2 ext).1 (subst (λ c. HasFeature lines c ext) same1 f.3),
                          (second.2 ext).1 (subst (λ c. HasFeature lines c ext) same2 f.4),
                        )))
                | inr t ↦ inr (f.0, f.1, t, f.3, f.4)
              ]
            ]),
          ),
        )
    add_common-Collects (all_of chip ∷ exts) new_ext d refs stages =
        Collects-iff bound d new_ext (FromBoth exts) (FromBoth (all_of chip ∷ exts))
          (add_common expand exts new_ext d) (skip_both (all_of chip) exts (λ c1 c2 q. cc))
          (add_common-Collects exts new_ext d (AreRefs-tail bound (all_of chip) exts refs) stages)
    add_common-Collects (not_ext e ∷ exts) new_ext d refs stages =
        Collects-iff bound d new_ext (FromBoth exts) (FromBoth (not_ext e ∷ exts))
          (add_common expand exts new_ext d) (skip_both (not_ext e) exts (λ c1 c2 q. cc))
          (add_common-Collects exts new_ext d (AreRefs-tail bound (not_ext e) exts refs) stages)
    add_common-Collects (isa e ∷ exts) new_ext d refs stages =
        Collects-iff bound d new_ext (FromBoth exts) (FromBoth (isa e ∷ exts))
          (add_common expand exts new_ext d) (skip_both (isa e) exts (λ c1 c2 q. cc))
          (add_common-Collects exts new_ext d (AreRefs-tail bound (isa e) exts refs) stages)
