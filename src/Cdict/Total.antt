-- ===== src/Cdict/Total.antt =====
-- `create_tuple2int` finds no conflict when the tuples fit their fields.
use mathlib.Core.Path.{subst}
use xed.Base.{
  ℕ, ◌≡◌, refl, sym, ap, ◌∙◌, inl, inr, String, none, some, List, [], ◌∷◌, ok, Elem, IsUnique,
  Option-cases, nat_eq, list_eq, string_eq,
}
use xed.Base.Dict.{Dict, lookup, insert, keys, IsDict, lookup-insert_cases, IsUnique-keys}
use xed.Cdict.{Tuple, Cdict, create_tuple2int, fill_ints}
use xed.Cdict.Key.{HasWidths, Fits, pack, tuple2int-pack, pack-injective}

module _ (cnames : List String) (widths : Dict String ℕ) (ws : List ℕ)
    (has_widths : HasWidths widths cnames ws) where
  -- the keys so far are those of tuples that do not come again
  abbrev ArePacked : List Tuple → Dict ℕ Tuple → Type 0
  ArePacked ts i2t =
      (x : ℕ) (u : Tuple) → lookup x i2t ≡ some u → Fits u ws × (x ≡ pack u ws) × (¬ (Elem u ts))

  fill_ints-eq-ok :
      (ts : List Tuple) (t2i : Dict Tuple ℕ) (i2t : Dict ℕ Tuple)
      → IsUnique ts
      → ((t : Tuple) → Elem t ts → Fits t ws)
      → ArePacked ts i2t
      → (p : Dict Tuple ℕ × Dict ℕ Tuple) × (fill_ints cnames widths ts t2i i2t ≡ ok p)
  unfolding fill_ints
  fill_ints-eq-ok [] t2i i2t u fits packed = ((t2i, i2t), refl)
  fill_ints-eq-ok (t ∷ ts) t2i i2t u fits packed =
      let f = fits t (inl refl) in
      let key = tuple2int-pack t cnames widths ws has_widths f in
      let new : lookup (pack t ws) i2t ≡ none = elim (Option-cases (lookup (pack t ws) i2t)) [
        | inl n ↦ n
        | inr (v, e) ↦
            let (g, x_eq, gone) = packed (pack t ws) v e in
            absurd (gone (inl (sym (pack-injective t v ws f g x_eq))))
      ] in
      let (p, done) =
        fill_ints-eq-ok ts (insert t (pack t ws) t2i) (insert (pack t ws) t i2t) u.1
          (λ v m. fits v (inr m))
          (λ x v e. elim (lookup-insert_cases (pack t ws) x t v i2t e) [
            | inl (a, b) ↦ (
              subst (λ y. Fits y ws) b f,
              sym a ∙ ap (λ y. pack y ws) b,
              subst (λ y. ¬ (Elem y ts)) b u.0,
            )
            | inr o ↦ let (g, x_eq, gone) = packed x v o in (g, x_eq, λ m. gone (inr m))
          ]) in
      (p, rw (key, new) done)

-- When every constraint name has a width, the rules are a dictionary, and each of its tuples fits
-- the widths, create_tuple2int succeeds.
pub create_tuple2int-eq-ok :
    {R : Type 0} (self : Cdict R) (widths : Dict String ℕ) (ws : List ℕ)
    → HasWidths widths self.cnames ws
    → IsDict self.tuple2rule
    → ((t : Tuple) → Elem t (keys self.tuple2rule) → Fits t ws)
    → (d : Cdict R) × (create_tuple2int self widths ≡ ok d)
unfolding create_tuple2int
create_tuple2int-eq-ok self widths ws has_widths dict fits =
    let ((t2i, i2t), done) =
      fill_ints-eq-ok self.cnames widths ws has_widths (keys self.tuple2rule) [] []
        (IsUnique-keys self.tuple2rule dict) fits (λ x u e. absurd (unfold lookup in cc (e))) in
    (record self { op_widths = widths; tuple2int = t2i; int2tuple = i2t }, rw done refl)
