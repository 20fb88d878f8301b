-- ===== src/Tests/Dicts.antt =====
-- The theorems on dictionaries of rules, at concrete ones.
use xed.Base.{
  ℕ, ◌≡◌, ◌↔◌, refl, arith, String, ok, some, [], ◌∷◌, List, nat_eq, list_eq, string_eq, Elem, map,
  inl, inr,
}
use xed.Base.Dict.{lookup}
use xed.Cdict.{Tuple, Cdict, filter_tuples, tuple2int, initialize_tuple2rule, unite_dicts}
use xed.Cdict.Index.{IsIndexed, create_tuple2int-IsIndexed}
use xed.Cdict.Key.{pack, tuple2int-pack, tuple2int-injective}
use xed.Cdict.Filter.{IsPart, filter_tuples-IsPart}
use xed.Cdict.Space.{InSpace, initialize_tuple2rule-InSpace}
use xed.Cdict.{create_tuple2int}
use xed.Cdict.Total.{create_tuple2int-eq-ok}
use xed.Cdict.Unite.{AreDisjoint, unite_dicts-AreDisjoint}
use xed.Tests.Samples.{
  plain, indexed, made, widths, ws, cnames, has_widths, indexed-IsIndexed, tuples_fit,
}

tuple2int-pack_example : tuple2int (1 ∷ 6 ∷ []) cnames widths ≡ ok (pack (1 ∷ 6 ∷ []) ws)
tuple2int-pack_example =
    tuple2int-pack (1 ∷ 6 ∷ []) cnames widths ws has_widths (omega arith, (omega arith, tt))

tuple2int-injective_example : ◌≡◌ {A = Tuple} (1 ∷ 6 ∷ []) (1 ∷ 6 ∷ [])
tuple2int-injective_example =
    tuple2int-injective (1 ∷ 6 ∷ []) (1 ∷ 6 ∷ []) cnames widths ws has_widths
      (omega arith, (omega arith, tt)) (omega arith, (omega arith, tt)) refl

create_tuple2int-IsIndexed_example :
    IsIndexed indexed
    × (indexed.tuple2rule ≡ plain.tuple2rule)
    × ((t : Tuple) (x : ℕ)
        → lookup t indexed.tuple2int ≡ some x
        → tuple2int t plain.cnames widths ≡ ok x)
create_tuple2int-IsIndexed_example = create_tuple2int-IsIndexed plain indexed widths made

abbrev part : Cdict ℕ
part = record indexed {
  tuple2rule = (1 ∷ 6 ∷ [], 9) ∷ (0 ∷ 1 ∷ [], 5) ∷ [];
  tuple2int = (1 ∷ 6 ∷ [], 13) ∷ (0 ∷ 1 ∷ [], 2) ∷ [];
  int2tuple = (13, 1 ∷ 6 ∷ []) ∷ (2, 0 ∷ 1 ∷ []) ∷ [];
}

filter_tuples-IsPart_example :
    IsIndexed part × IsPart indexed ((1 ∷ 6 ∷ []) ∷ (0 ∷ 1 ∷ []) ∷ []) part
filter_tuples-IsPart_example =
    filter_tuples-IsPart indexed ((1 ∷ 6 ∷ []) ∷ (0 ∷ 1 ∷ []) ∷ []) part indexed-IsIndexed
      (unfold filter_tuples in refl)

abbrev bits : String → List ℕ
bits name = 0 ∷ 1 ∷ []

initialize_tuple2rule-InSpace_example :
    (lookup {V = ℕ} (0 ∷ 1 ∷ []) (initialize_tuple2rule bits 4 cnames []) ≡ some 4)
    ↔ (InSpace (0 ∷ 1 ∷ []) (map bits cnames) × (◌≡◌ {A = ℕ} 4 4))
initialize_tuple2rule-InSpace_example =
    initialize_tuple2rule-InSpace 4 bits "MOD3" ("REG" ∷ []) (0 ∷ 1 ∷ []) 4
      ((0, inl refl), ((1, inr (inl refl)), tt))

abbrev other : Cdict ℕ
other = record plain { tuple2rule = (1 ∷ 7 ∷ [], 11) ∷ [] }

abbrev united : Cdict ℕ
united = record plain {
  tuple2rule = (0 ∷ 1 ∷ [], 5) ∷ (1 ∷ 3 ∷ [], 7) ∷ (1 ∷ 6 ∷ [], 9) ∷ (1 ∷ 7 ∷ [], 11) ∷ [];
}

unite_dicts-AreDisjoint_example :
    AreDisjoint (plain ∷ other ∷ [])
    × (united.cnames ≡ cnames)
    × ((t : Tuple) (r : ℕ)
        → (lookup t united.tuple2rule ≡ some r)
          ↔ ((a : Cdict ℕ) × Elem a (plain ∷ other ∷ []) × (lookup t a.tuple2rule ≡ some r)))
unite_dicts-AreDisjoint_example =
    unite_dicts-AreDisjoint plain other [] cnames united
      (unfold lookup in ((refl, (refl, (refl, tt))), ((refl, tt), tt))) (unfold unite_dicts in refl)

create_tuple2int-eq-ok_example : (d : Cdict ℕ) × (create_tuple2int plain widths ≡ ok d)
create_tuple2int-eq-ok_example =
    create_tuple2int-eq-ok plain widths ws has_widths (unfold lookup in (refl, (refl, (refl, tt))))
      tuples_fit
