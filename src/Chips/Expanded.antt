-- ===== src/Chips/Expanded.antt =====
-- The loops of the expansion of a chip, where each recursive call does what it should.
use mathlib.Core.Path.{subst}
use xed.Base.{
  ◌≡◌, ◌≢◌, ◌↔◌, ◌⊎◌, refl, sym, ap, ◌∙◌, inl, inr, String, some, List, [], ◌∷◌, map, Bool-cases,
  contains, contains-Elem, Elem-contains, string_eq, Elem,
}
use xed.Base.Dict.{lookup}
use xed.Chips.Hierarchy.{
  Ext, all_of, common_subset, not_ext, isa, Features, isa_names, intersection, removed, remove_not,
}

-- the features of a chip, by its line in the file
pub data HasFeature (d : Features) : String → String → Type 0 where
  own :
      {chip ext : String} (exts : List Ext)
      → lookup chip d ≡ some exts
      → Elem (isa ext) exts
      → HasFeature d chip ext
  from_all :
      {chip ext : String} (exts : List Ext) (sub_chip : String)
      → lookup chip d ≡ some exts
      → Elem (all_of sub_chip) exts
      → ¬ (Elem (not_ext ext) exts)
      → HasFeature d sub_chip ext
      → HasFeature d chip ext
  from_both :
      {chip ext : String} (exts : List Ext) (chip1 chip2 : String)
      → lookup chip d ≡ some exts
      → Elem (common_subset chip1 chip2) exts
      → ¬ (Elem (not_ext ext) exts)
      → HasFeature d chip1 ext
      → HasFeature d chip2 ext
      → HasFeature d chip ext

skip : {A B C : Type 0} → ¬ C → A ↔ B → A ↔ (C ⊎ B)
skip other iff = (λ a. inr (iff.0 a), λ m. elim m [ inl c ↦ absurd (other c) | inr b ↦ iff.1 b ])

pub Elem-isa_names :
    (ext : String) (exts : List Ext) → Elem ext (isa_names exts) ↔ Elem (isa ext) exts
Elem-isa_names ext [] = (λ m. m, λ m. m)
Elem-isa_names ext (all_of c ∷ exts) = skip (λ q. cc) (Elem-isa_names ext exts)
Elem-isa_names ext (common_subset c1 c2 ∷ exts) = skip (λ q. cc) (Elem-isa_names ext exts)
Elem-isa_names ext (not_ext e ∷ exts) = skip (λ q. cc) (Elem-isa_names ext exts)
Elem-isa_names ext (isa e ∷ exts) =
    let ih = Elem-isa_names ext exts in
    (
      λ m. elim m [ inl q ↦ inl (ap isa q) | inr t ↦ inr (ih.0 t) ],
      λ m. elim m [ inl q ↦ inl cc | inr t ↦ inr (ih.1 t) ],
    )

pub isa_names-isa : (xs : List String) → isa_names (map isa xs) ≡ xs
isa_names-isa [] = refl
isa_names-isa (x ∷ xs) = ap (λ l. x ∷ l) (isa_names-isa xs)

pub Elem-intersection :
    (ext : String) (xs ys : List String)
    → Elem ext (intersection xs ys) ↔ (Elem ext xs × Elem ext ys)
Elem-intersection ext [] ys = (λ m. absurd m, λ p. absurd p.0)
Elem-intersection ext (x ∷ xs) ys =
    let ih = Elem-intersection ext xs ys in
    elim (Bool-cases (contains x ys)) [
      | inl e ↦ rw e (
        λ m. elim m [
          | inl here ↦ (inl here, subst (λ y. Elem y ys) (sym here) (contains-Elem x ys e))
          | inr t ↦ let p = ih.0 t in (inr p.0, p.1)
        ],
        λ p. elim p.0 [ inl here ↦ inl here | inr t ↦ inr (ih.1 (t, p.1)) ],
      )
      | inr e ↦ rw e (
        λ m. let p = ih.0 m in (inr p.0, p.1),
        λ p. elim p.0 [
          | inl here ↦ absurd (let f = Elem-contains x ys (subst (λ y. Elem y ys) here p.1) in cc)
          | inr t ↦ ih.1 (t, p.1)
        ],
      )
    ]

Elem-removed :
    (ext name : String) (xs : List String)
    → Elem ext (removed name xs) ↔ (Elem ext xs × (ext ≢ name))
Elem-removed ext name [] = (λ m. absurd m, λ p. absurd p.0)
Elem-removed ext name (x ∷ xs) =
    let ih = Elem-removed ext name xs in
    elim (Bool-cases (string_eq.beq x name)) [
      | inl e ↦ rw e (
        λ m. let p = ih.0 m in (inr p.0, p.1),
        λ p. elim p.0 [
          | inl here ↦ absurd (p.1 (here ∙ (string_eq.beq_iff x name).0 e))
          | inr t ↦ ih.1 (t, p.1)
        ],
      )
      | inr e ↦ rw e (
        λ m. elim m [
          | inl here ↦ (inl here, λ q. let f = (string_eq.beq_iff x name).1 (sym here ∙ q) in cc)
          | inr t ↦ let p = ih.0 t in (inr p.0, p.1)
        ],
        λ p. elim p.0 [ inl here ↦ inl here | inr t ↦ inr (ih.1 (t, p.1)) ],
      )
    ]

-- A word that is no NOT removes nothing.
skip_not :
    (ext : String) (x : Ext) (exts : List Ext) (xs : List String) {M : Type 0}
    → not_ext ext ≢ x
    → M ↔ (Elem ext xs × ¬ (Elem (not_ext ext) exts))
    → M ↔ (Elem ext xs × ¬ (Elem (not_ext ext) (x ∷ exts)))
skip_not ext x exts xs other ih = (
  λ m. let p = ih.0 m in (p.0, λ n. elim n [ inl q ↦ other q | inr t ↦ p.1 t ]),
  λ p. ih.1 (p.0, λ t. p.1 (inr t)),
)

pub Elem-remove_not :
    (ext : String) (exts : List Ext) (xs : List String)
    → Elem ext (remove_not exts xs) ↔ (Elem ext xs × ¬ (Elem (not_ext ext) exts))
unfolding remove_not
Elem-remove_not ext [] xs = (λ m. (m, λ n. absurd n), λ p. p.0)
Elem-remove_not ext (not_ext e ∷ exts) xs =
    let ih = Elem-remove_not ext exts (removed e xs) in
    let rem = Elem-removed ext e xs in
    (
      λ m.
          let (k, none_later) = ih.0 m in
          let (there, differ) = rem.0 k in
          (there, λ n. elim n [ inl q ↦ differ cc | inr t ↦ none_later t ]),
      λ p. ih.1 (rem.1 (p.0, λ q. p.1 (inl (ap not_ext q))), λ t. p.1 (inr t)),
    )
Elem-remove_not ext (all_of c ∷ exts) xs =
    skip_not ext (all_of c) exts xs (λ q. cc) (Elem-remove_not ext exts xs)
Elem-remove_not ext (common_subset c1 c2 ∷ exts) xs =
    skip_not ext (common_subset c1 c2) exts xs (λ q. cc) (Elem-remove_not ext exts xs)
Elem-remove_not ext (isa e ∷ exts) xs =
    skip_not ext (isa e) exts xs (λ q. cc) (Elem-remove_not ext exts xs)
