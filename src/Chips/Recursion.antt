-- ===== src/Chips/Recursion.antt =====
-- The recursion that expands the chips ends, and gives each chip its features.
use mathlib.Core.Path.{subst}
use xed.Base.{
  ℕ, zero, suc, ◌<◌, ◌≡◌, ◌≢◌, ◌⊎◌, refl, sym, ◌∙◌, inl, inr, String, none, some, List, [], ◌∷◌,
  ◌++◌, map, string_eq, Elem, ok, arith,
}
use xed.Base.Dict.{lookup, insert, keys, lookup-of-key}
use xed.Chips.{uniquify_list}
use xed.Chips.Hierarchy.{
  isa, Features, isa_names, remove_not, expand_chip, expand_all, recursive_expand,
}
use xed.Chips.Loops.{
  IsExpanded, AreStages, After, After-trans, Expands, add_all_of-Collects, add_common-Collects,
}
use xed.Chips.Closed.{IsRanked, AreStages-IsStage, finished-After, collected_iff}

module _ (rank : String → ℕ) (lines : Features) (ranked : IsRanked rank lines) where
  -- the chips below the fuel are expanded, and only those that are below the next rank change
  abbrev IsEnough : ℕ → Type 0
  IsEnough fuel =
      (chip : String) (d : Features)
      → rank chip < fuel
      → lookup chip lines ≢ none
      → AreStages rank lines d
      → (next : Features) × (expand_chip fuel chip d ≡ ok next)
        × After rank lines (suc (rank chip)) d next
        × IsExpanded rank lines chip next

  IsEnough→Expands :
      (fuel : ℕ) (chip : String)
      → rank chip < suc fuel
      → IsEnough fuel
      → Expands rank lines (rank chip) (expand_chip fuel)
  IsEnough→Expands fuel chip lt enough sub d ref stages =
      let (next, e, after, done) = enough sub d (omega (arith, ref.0)) ref.1 stages in
      (
        next,
        e,
        record {
          stages = after.stages;
          kept = λ k h. after.kept k (omega (arith, ref.0, h));
          grown = after.grown;
        },
        done,
      )

  expand_chip-IsExpanded : (fuel : ℕ) → IsEnough fuel
  unfolding expand_chip
  expand_chip-IsExpanded zero chip d lt known stages = absurd (omega arith)
  expand_chip-IsExpanded (suc fuel) chip d lt known stages =
      let (exts, l, stage) = AreStages-IsStage rank lines ranked chip d known stages in
      let expands : Expands rank lines (rank chip) (expand_chip fuel) =
        IsEnough→Expands fuel chip lt (expand_chip-IsExpanded fuel) in
      let (found1, d1, e1, after1, iff1) =
        add_all_of-Collects rank lines (rank chip) (expand_chip fuel) expands exts [] d stage.refs
          stages in
      let l1 : lookup chip d1 ≡ some exts = after1.kept chip (omega arith) ∙ l in
      let (found2, d2, e2, after2, iff2) =
        add_common-Collects rank lines (rank chip) (expand_chip fuel) expands exts found1 d1
          stage.refs after1.stages in
      let l2 : lookup chip d2 ≡ some exts = after2.kept chip (omega arith) ∙ l1 in
      let xs = uniquify_list (remove_not exts found2 ++ isa_names exts) in
      let (after, done) =
        finished-After rank lines chip d d2 xs
          (After-trans rank lines (rank chip) d d1 d2 after1 after2)
          (λ ext.
            let local = collected_iff rank lines exts found1 found2 ext (iff1 ext) (iff2 ext) in
            let means = stage.means ext in (λ m. means.0 (local.0 m), λ h. local.1 (means.1 h))) in
      (insert chip (map isa xs) d2, rw l (rw e1 (rw l1 (rw e2 (rw l2 refl)))), after, done)

  expand_all-IsExpanded :
      (fuel : ℕ) (chips : List String) (d : Features)
      → ((chip : String) → Elem chip chips → (rank chip < fuel) × (lookup chip lines ≢ none))
      → AreStages rank lines d
      → (next : Features) × (expand_all fuel chips d ≡ ok next)
        × ((chip : String)
            → Elem chip chips ⊎ IsExpanded rank lines chip d
            → IsExpanded rank lines chip next)
  unfolding expand_all
  expand_all-IsExpanded fuel [] d known stages =
      (d, refl, λ chip m. elim m [ inl z ↦ absurd z | inr done ↦ done ])
  expand_all-IsExpanded fuel (chip ∷ chips) d known stages =
      let (lt, there) = known chip (inl refl) in
      let (mid, e, after, done) = expand_chip-IsExpanded fuel chip d lt there stages in
      let (next, e2, all) =
        expand_all-IsExpanded fuel chips mid (λ c m. known c (inr m)) after.stages in
      (
        next,
        rw e e2,
        λ c m. elim m [
          | inl (inl here) ↦ all c (inr (subst (λ k. IsExpanded rank lines k mid) (sym here) done))
          | inl (inr later) ↦ all c (inl later)
          | inr old ↦ all c (inr (after.grown c old))
        ],
      )

-- When the chips can be ranked so that each refers only to chips of the file with a lower rank,
-- and the ranks of the chips are below the fuel, the expansion succeeds, and each chip of the
-- file then has isa sets only: those of its line, and, unless its line has a NOT of them, those
-- of the chips that ALL_OF names and those in both chips of a COMMON_SUBSET.
pub recursive_expand-HasFeature :
    (rank : String → ℕ) (fuel : ℕ) (lines : Features)
    → IsRanked rank lines
    → ((chip : String) → Elem chip (keys lines) → rank chip < fuel)
    → (next : Features) × (recursive_expand fuel lines ≡ ok next)
      × ((chip : String) → Elem chip (keys lines) → IsExpanded rank lines chip next)
unfolding recursive_expand
recursive_expand-HasFeature rank fuel lines ranked low =
    let (next, e, all) =
      expand_all-IsExpanded rank lines ranked fuel (keys lines) lines
        (λ chip m. (low chip m, lookup-of-key chip lines m)) (λ chip exts l. inl l) in
    (next, e, λ chip m. all chip (inl m))
