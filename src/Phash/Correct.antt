-- ===== src/Phash/Correct.antt =====
-- The lookup that `gen_hash` leads to, from the dictionary of the rules to a run of the emitted C.
use mathlib.Core.Path.{subst}
use native.Mathlib.Nat.{mod-eq_of_lt, pow-le-pow_right}
use xed.Base.{
  ℕ, ◌+◌, ◌*◌, ◌^◌, ◌≤◌, ◌<◌, ◌≡◌, ◌≢◌, refl, sym, ap, ◌∙◌, inl, inr, Option, none, some, List, [],
  ◌∷◌, String, Result, ok, err, >>=-eq-ok, arith, nat_eq, list_eq, string_eq, Option-cases, length,
  Elem,
}
use xed.Base.Dict.{Dict, lookup, keys, values}
use xed.Base.Power.{pow-add}
use xed.Cdict.{Tuple, Cdict, create_tuple2int, fill_ints}
use xed.Cdict.Index.{IsIndexed, create_tuple2int-IsIndexed, key-of-lookup}
use xed.Cdict.Key.{HasWidths, Fits, pack, total, tuple2int-pack, pack-injective, pack-lt, regroup}
use xed.Phash.{L1, L2, Phash, l1, l2}
use xed.Phash.Emit.{Find, find1, run, gen_find_fos, key_from, cgen_key}
use xed.Phash.Gen.{
  gen_hash, gen_hash_one_level, or_two_levels, by_names, as_phash, find_l2_phash, is_linear,
}
use xed.Phash.Good.{IsScaled}
use xed.Phash.Level1.{HasNarrowKeys, expected, rule_value}
use xed.Phash.Level2.{find_l2_phash-expected}
use xed.Phash.Serves.{gen_hash_one_level-Serves, is_linear-length}

module _ {R : Type 0} (value : R → ℕ) where
  -- The lookup function of the tables is written, and runs as the lookup in the dictionary.
  abbrev pub Finds : Cdict R → Phash R → Type 0
  Finds d ph =
      (f : Find) × (gen_find_fos value ph ≡ ok f)
      × ((key : ℕ) → key < 2 ^ 64 → run f key ≡ some (expected value d key))

module _ (scaled : ℕ → ℕ → ℕ) (law : IsScaled scaled) {R : Type 0} (value : R → ℕ) where
  module _ (d : Cdict R) (w : IsIndexed d) (narrow : HasNarrowKeys d) (named : d.cnames ≢ [])
      (small : length d.tuple2int < 2 ^ 31) where
    length-values : (t2i : Dict Tuple ℕ) → length (values t2i) ≡ length t2i
    length-values [] = refl
    length-values ((t, x) ∷ t2i) = omega (arith, length-values t2i)

    one_level-length :
        (o : Option (L1 R)) → gen_hash_one_level scaled d ≡ ok o → 0 < length d.tuple2int
    unfolding gen_hash_one_level by_names
    one_level-length o e = of_names d.cnames named e
      where
        of_names :
            (names : List String)
            → names ≢ []
            → by_names scaled d names ≡ ok o
            → 0 < length d.tuple2int
        of_names [] n q = absurd (n refl)
        of_names (name ∷ names) n q =
            let (dense, r, z) = >>=-eq-ok (is_linear (keys d.int2tuple)) _ q in
            omega (arith, is_linear-length value d w narrow dense r, length-values d.tuple2int)

    -- For an indexed dictionary with at least one constraint name, keys below 2^32 and fewer than
    -- 2^31 tuples: if gen_hash returns tables of one or two levels, their lookup function is
    -- emitted, and on every key below 2^64 its run is defined and returns the value of the rule
    -- of the key's tuple, or 0 where no tuple has the key.
    pub gen_hash-expected : (ph : Phash R) → gen_hash scaled d ≡ ok (some ph) → Finds value d ph
    unfolding gen_hash or_two_levels gen_find_fos run
    gen_hash-expected ph e =
        let (o, p, q) = >>=-eq-ok (gen_hash_one_level scaled d) (or_two_levels scaled d) e in
        of_level o p q
      where
        of_two :
            (o : Option (L2 R))
            → 0 < length d.tuple2int
            → find_l2_phash scaled d ≡ ok o
            → as_phash o ≡ some ph
            → Finds value d ph
        of_two none n p q = absurd cc
        of_two (some t) n p q =
            let same : l2 t ≡ ph = ground arith in
            subst (Finds value d) same
              (find_l2_phash-expected scaled law value d w narrow small n t p)

        of_level :
            (o : Option (L1 R))
            → gen_hash_one_level scaled d ≡ ok o
            → or_two_levels scaled d o ≡ ok (some ph)
            → Finds value d ph
        of_level (some t) p q =
            let same : l1 t ≡ ph = ground arith in
            let s = gen_hash_one_level-Serves value d w narrow scaled law small t named p in
            subst (Finds value d) same (find1 s.find, rw s.made, s.found)
        of_level none p q =
            let (o, r, z) = >>=-eq-ok (find_l2_phash scaled d) _ q in
            of_two o (one_level-length none p) r (ground arith)

-- The emitted operand function packs the same key, while it fits 64 bits.
key_from-pack :
    (t : Tuple) (cnames : List String) (widths : Dict String ℕ) (ws : List ℕ) (key shift : ℕ)
    → HasWidths widths cnames ws
    → Fits t ws
    → key + 2 ^ shift * pack t ws < 2 ^ 64
    → key_from t cnames widths shift key ≡ ok (key + 2 ^ shift * pack t ws)
unfolding key_from
key_from-pack [] [] widths ws key shift h f lt = ap ok (omega arith)
key_from-pack [] (c ∷ cnames) widths [] key shift h f lt = elim h [ ]
key_from-pack [] (c ∷ cnames) widths (w ∷ ws) key shift h f lt = elim f [ ]
key_from-pack (b ∷ t) cnames widths [] key shift h f lt = elim f [ ]
key_from-pack (b ∷ t) [] widths (w ∷ ws) key shift h f lt = elim h [ ]
key_from-pack (b ∷ t) (c ∷ cnames) widths (w ∷ ws) key shift h f lt =
    let next = (key + b * 2 ^ shift) in
    let same : key + b * 2 ^ shift + 2 ^ (shift + w) * pack t ws
        ≡ key + 2 ^ shift * (b + 2 ^ w * pack t ws) =
      rw (pow-add shift w) (regroup (2 ^ shift) (2 ^ w) b (pack t ws) key) in
    let small : key + b * 2 ^ shift < 2 ^ 64 = omega (arith, same, lt) in
    rw (h.0, mod-eq_of_lt small)
      (key_from-pack t cnames widths ws (key + b * 2 ^ shift) (shift + w) h.1 f.1
          (omega (arith, same, lt))
        ∙ ap ok same)

-- the fields that `create_tuple2int` keeps and sets
create_tuple2int-fields :
    {R : Type 0} (self d : Cdict R) (widths : Dict String ℕ)
    → create_tuple2int self widths ≡ ok d
    → (d.cnames ≡ self.cnames) × (d.op_widths ≡ widths)
unfolding create_tuple2int
create_tuple2int-fields {R = R} self d widths e =
    let ((t2i, i2t), filled, z) =
      >>=-eq-ok (fill_ints self.cnames widths (keys self.tuple2rule) [] []) _ e in
    (ap (λ r. (or_self r).cnames) (sym z), ap (λ r. (or_self r).op_widths) (sym z))
  where
    or_self : Result (Cdict R) → Cdict R
    or_self (ok c) = c
    or_self (err x) = self

module _ {R : Type 0} (value : R → ℕ) where
  -- what the decoder asks of the generated code, on the operand values of a tuple
  abbrev pub Decodes : Cdict R → Cdict R → List ℕ → Phash R → Type 0
  Decodes self d ws ph =
      (f : Find) × (gen_find_fos value ph ≡ ok f)
      × ((t : Tuple)
          → Fits t ws
          → (key : ℕ) × (cgen_key d t ≡ ok key)
            × (run f key ≡ some (rule_value value (lookup t self.tuple2rule))))

module _ (scaled : ℕ → ℕ → ℕ) (law : IsScaled scaled) {R : Type 0} (value : R → ℕ) where
  module _ (self d : Cdict R) (widths : Dict String ℕ) (ws : List ℕ)
      (made : create_tuple2int self widths ≡ ok d) (has_widths : HasWidths widths self.cnames ws)
      (narrow : total ws ≤ 32)
      (fits : (t : Tuple) → Elem t (keys self.tuple2rule) → Fits t ws) where
    key-lt : (t : Tuple) → Fits t ws → pack t ws < 2 ^ 32
    key-lt t f = omega (
      arith,
      pack-lt t ws f,
      pow-le-pow_right {n = 2} (omega arith) {i = total ws} {j = 32} narrow,
    )

    Fits-of_key : (t : Tuple) (x : ℕ) → lookup t d.tuple2int ≡ some x → Fits t ws × (x ≡ pack t ws)
    Fits-of_key t x e =
        let (w, rules, computed) = create_tuple2int-IsIndexed self d widths made in
        let f = fits t (
          key-of-lookup t self.tuple2rule
            (subst (λ r. lookup t r ≢ none) rules (w.ruled t (λ n. cc (n, e))))) in
        let packed : ◌≡◌ {A = Result ℕ} (ok x) (ok (pack t ws)) =
          sym (computed t x e) ∙ tuple2int-pack t self.cnames widths ws has_widths f in
        (f, ground (arith, packed))

    expected-pack :
        (t : Tuple)
        → Fits t ws
        → expected value d (pack t ws) ≡ rule_value value (lookup t d.tuple2rule)
    expected-pack t f =
        let (w, rules, computed) = create_tuple2int-IsIndexed self d widths made in
        elim (Option-cases (lookup (pack t ws) d.int2tuple)) [
          | inr (u, e) ↦
              let (g, x_eq) = Fits-of_key u (pack t ws) (w.linked.to_int u (pack t ws) e) in
              let same : u ≡ t = sym (pack-injective t u ws f g x_eq) in rw (e, same)
          | inl n ↦ elim (Option-cases (lookup t d.tuple2rule)) [
            | inl m ↦ rw (n, m)
            | inr (r, e) ↦ absurd (elim (Option-cases (lookup t d.tuple2int)) [
              | inl z ↦ w.indexed t (λ q. cc (q, e)) z
              | inr (x, q) ↦
                  let (g, x_eq) = Fits-of_key t x q in
                  cc (n, w.linked.to_tuple t x q, ap (λ y. lookup y d.int2tuple) x_eq)
            ])
          ]
        ]

    -- For a dictionary that create_tuple2int indexes, with constraint names whose widths add up
    -- to at most 32 bits, all its tuples in those widths, and fewer than 2^31 tuples: if gen_hash
    -- returns tables, their lookup function is emitted without an exception, and for every tuple
    -- of operand values that fits the widths the emitted operand function computes a key on which
    -- the lookup function returns the value of the tuple's rule, cut to the 32 bits of its field,
    -- and 0 for a tuple without a rule.
    pub gen_hash-Decodes :
        (ph : Phash R)
        → self.cnames ≢ []
        → length d.tuple2int < 2 ^ 31
        → gen_hash scaled d ≡ ok (some ph)
        → Decodes value self d ws ph
    unfolding cgen_key
    gen_hash-Decodes ph named small e =
        let (w, rules, computed) = create_tuple2int-IsIndexed self d widths made in
        let (same_names, same_widths) = create_tuple2int-fields self d widths made in
        let keys_fit : HasNarrowKeys d =
          λ u x q. let (g, x_eq) = Fits-of_key u x q in omega (arith, key-lt u g, x_eq) in
        let (f, emitted, runs) =
          gen_hash-expected scaled law value d w keys_fit (λ n. named (sym same_names ∙ n)) small ph
            e in
        (
          f,
          emitted,
          λ t g.
              let lt = key-lt t g in
              (
                pack t ws,
                rw (same_names, same_widths)
                    (key_from-pack t self.cnames widths ws 0 0 has_widths g (omega (arith, lt))
                      ∙ ap ok (omega arith)),
                runs (pack t ws) (omega (arith, lt))
                    ∙ ap some (expected-pack t g ∙ ap (λ r. rule_value value (lookup t r)) rules),
              ),
        )
