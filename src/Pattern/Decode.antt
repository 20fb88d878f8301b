-- ===== src/Pattern/Decode.antt =====
-- From the patterns of one map and opcode to a run of the emitted lookup.
use mathlib.Core.Path.{subst}
use xed.Base.{
  ℕ, ◌^◌, ◌%◌, ◌≤◌, ◌<◌, ◌≡◌, ◌≢◌, sym, ap, ◌∙◌, inl, inr, String, some, List, [], ok, nat_eq,
  list_eq, string_eq, Elem, All, Option-cases, length,
}
use xed.Base.Dict.{Dict, lookup, lookup-of-key}
use xed.Base.Sort.{sorted}
use xed.Cdict.{Tuple, Space, Cdict}
use xed.Cdict.Key.{HasWidths, Fits, total}
use xed.Pattern.{Pattern, leb_string}
use xed.Pattern.Replace.{unite_patterns}
use xed.Pattern.United.{Matches, IsSatisfiable, unite_patterns-eq-ok}
use xed.Phash.{Phash}
use xed.Phash.Correct.{gen_hash-Decodes}
use xed.Phash.Emit.{Find, run, gen_find_fos, cgen_key}
use xed.Phash.Gen.{gen_hash}
use xed.Phash.Good.{IsScaled}
use xed.Phash.Level1.{rule_value}

-- the number that the decoder returns for a pattern
abbrev pub number : Pattern → ℕ
number p = p.inum

module _ (state_space : Space) (widths : Dict String ℕ) (cnames : List String)
    (ptrns : List Pattern) where
  -- On the operand values of a tuple the emitted code returns the number of the pattern that they are
  -- legal for, and 0 where there is none.
  abbrev pub Decodes : Cdict Pattern → List ℕ → Phash Pattern → Type 0
  Decodes d ws ph =
      (f : Find) × (gen_find_fos number ph ≡ ok f)
      × ((t : Tuple)
          → Fits t ws
          → (key : ℕ) × (cgen_key d t ≡ ok key)
            × ((q : Pattern)
                → Elem q ptrns
                → Matches state_space widths cnames q t
                → run f key ≡ some (q.inum % 2 ^ 32))
            × (((q : Pattern) → Elem q ptrns → ¬ (Matches state_space widths cnames q t))
                → run f key ≡ some 0))

  module _ (scaled : ℕ → ℕ → ℕ) (law : IsScaled scaled) (ws : List ℕ) where
    -- Take patterns of one map and opcode that all have constraints and a legal value for each
    -- constraint name, names (at least one) whose widths add up to at most 32 bits, and patterns
    -- whose values fit those widths. If their united dictionary has fewer than 2^31 tuples and
    -- gen_hash returns tables for it, the lookup function is emitted, and for every tuple of
    -- operand values that fits the widths it returns the number, cut to 32 bits, of the pattern
    -- of the list that the values are legal for, and 0 when they are legal for none.
    pub unite_patterns-Decodes :
        (d : Cdict Pattern) (ph : Phash Pattern)
        → sorted leb_string cnames ≢ []
        → All (IsSatisfiable state_space widths cnames) ptrns
        → HasWidths widths (sorted leb_string cnames) ws
        → total ws ≤ 32
        → ((q : Pattern) (t : Tuple)
            → Elem q ptrns
            → Matches state_space widths cnames q t
            → Fits t ws)
        → length d.tuple2int < 2 ^ 31
        → unite_patterns state_space widths (cnames, ptrns) ≡ ok (some d)
        → gen_hash scaled d ≡ ok (some ph)
        → Decodes d ws ph
    unite_patterns-Decodes d ph named sat has_widths narrow fits small made hashed =
        let (u, indexed, names, united) =
          unite_patterns-eq-ok state_space widths cnames named ptrns d sat made in
        let (f, emitted, runs) =
          gen_hash-Decodes scaled law number u d widths ws indexed
            (subst (λ n. HasWidths widths n ws) (sym names) has_widths) narrow
            (λ t m. elim (Option-cases (lookup t u.tuple2rule)) [
              | inl n ↦ absurd (lookup-of-key t u.tuple2rule m n)
              | inr (q, e) ↦ let (k, matches) = (united t q).0 e in fits q t k matches
            ])
            ph (λ n. named (sym names ∙ n)) small hashed in
        (
          f,
          emitted,
          λ t fit.
              let (key, packed, r) = runs t fit in
              (
                key,
                packed,
                λ q m matches.
                    r ∙ ap (λ o. some (rule_value number o)) ((united t q).1 (m, matches)),
                λ nobody. elim (Option-cases (lookup t u.tuple2rule)) [
                  | inl n ↦ r ∙ ap (λ o. some (rule_value number o)) n
                  | inr (q, e) ↦ let (k, matches) = (united t q).0 e in absurd (nobody q k matches)
                ],
              ),
        )
