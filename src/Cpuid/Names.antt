-- ===== src/Cpuid/Names.antt =====
-- The map from the names of the records to the records.
use mathlib.Core.Path.{subst}
use xed.Base.{
  ◌≡◌, ◌≢◌, refl, sym, ap, ◌∙◌, inl, inr, true, false, Option, none, some, List, [], ◌∷◌,
  Bool-cases, ok, err, die, ◌>>=◌, String, string_eq, Elem, arith, ◌↔◌, ◌⊎◌,
}
use xed.Base.Dict.{lookup, insert, lookup-insert, lookup-insert_self, lookup-insert_cases}
use xed.Cpuid.{CpuidRecord, invalid_record}
use xed.Cpuid.Files.{Groups, RecordMap, agrees, add_records, make_cpuid_rec_info_map}
use xed.Cpuid.Flat.{records_of, same_record_iff, add_isa_sets-flat}

-- what the records add to a map
record Extends (recs : List CpuidRecord) (info next : RecordMap) : Type 0 where
  origin :
      (name : String) (r : CpuidRecord)
      → lookup name next ≡ some r
      → (Elem r recs × (r.fname ≡ name)) ⊎ (lookup name info ≡ some r)
  kept : (name : String) (r : CpuidRecord) → lookup name info ≡ some r → lookup name next ≡ some r
  added : (r : CpuidRecord) → Elem r recs → lookup r.fname next ≡ some r

-- two different records of one name
record Clash (recs : List CpuidRecord) (info : RecordMap) : Type 0 where
  rec : CpuidRecord
  old : CpuidRecord
  there : Elem rec recs
  different : old ≢ rec
  origin : (Elem old recs × (old.fname ≡ rec.fname)) ⊎ (lookup rec.fname info ≡ some old)

agrees-true :
    (rec r : CpuidRecord) (o : Option CpuidRecord) → agrees rec o ≡ true → o ≡ some r → r ≡ rec
agrees-true rec r none h e = absurd cc
agrees-true rec r (some old) h e =
    let p = (same_record_iff old rec).0 h in let q : old ≡ r = cc in sym q ∙ p

agrees-false :
    (rec : CpuidRecord) (o : Option CpuidRecord)
    → agrees rec o ≡ false
    → (old : CpuidRecord) × (o ≡ some old) × (old ≢ rec)
agrees-false rec none h = absurd cc
agrees-false rec (some old) h = (old, refl, λ e. let f = (same_record_iff old rec).1 e in cc)

module _ (rec : CpuidRecord) (recs : List CpuidRecord) (info : RecordMap) where
  kept_record :
      (name : String) (r : CpuidRecord)
      → agrees rec (lookup rec.fname info) ≡ true
      → lookup name info ≡ some r
      → lookup name (insert rec.fname rec info) ≡ some r
  kept_record name r agree l = elim (Bool-cases (string_eq.beq rec.fname name)) [
    | inl b ↦
        let e = (string_eq.beq_iff rec.fname name).0 b in
        let same =
          agrees-true rec r (lookup rec.fname info) agree (ap (λ n. lookup n info) e ∙ l) in
        rw (lookup-insert rec.fname name rec info) (rw b (ap some (sym same)))
    | inr b ↦ rw (lookup-insert rec.fname name rec info) (rw b l)
  ]

  Extends-step :
      (next : RecordMap)
      → agrees rec (lookup rec.fname info) ≡ true
      → Extends recs (insert rec.fname rec info) next
      → Extends (rec ∷ recs) info next
  Extends-step next agree ext = record {
    origin = λ name r l. elim (ext.origin name r l) [
      | inl p ↦ inl (inr p.0, p.1)
      | inr m ↦ elim (lookup-insert_cases rec.fname name rec r info m) [
        | inl p ↦ inl (inl (sym p.1), ap (λ x. x.fname) (sym p.1) ∙ p.0)
        | inr o ↦ inr o
      ]
    ];
    kept = λ name r l. ext.kept name r (kept_record name r agree l);
    added = λ r m. elim m [
      | inl e ↦
          subst (λ x. lookup x.fname next ≡ some x) (sym e)
            (ext.kept rec.fname rec (lookup-insert_self rec.fname rec info))
      | inr t ↦ ext.added r t
    ];
  }

  Clash-step : Clash recs (insert rec.fname rec info) → Clash (rec ∷ recs) info
  Clash-step c = record {
    rec = c.rec;
    old = c.old;
    there = inr c.there;
    different = c.different;
    origin = elim c.origin [
      | inl p ↦ inl (inr p.0, p.1)
      | inr m ↦ elim (lookup-insert_cases rec.fname c.rec.fname rec c.old info m) [
        | inl p ↦ inl (inl (sym p.1), ap (λ x. x.fname) (sym p.1) ∙ p.0)
        | inr o ↦ inr o
      ]
    ];
  }

add_records-Decides :
    (recs : List CpuidRecord) (info : RecordMap)
    → ((next : RecordMap) × (add_records recs info ≡ ok next) × Extends recs info next)
      ⊎ ((add_records recs info ≡ err die) × Clash recs info)
unfolding add_records
add_records-Decides [] info =
    inl (info, refl, record { origin = λ n r l. inr l; kept = λ n r l. l; added = λ r m. absurd m })
add_records-Decides (rec ∷ recs) info = elim (Bool-cases (agrees rec (lookup rec.fname info))) [
  | inl agree ↦ elim (add_records-Decides recs (insert rec.fname rec info)) [
    | inl (next, e, ext) ↦ inl (next, rw agree e, Extends-step rec recs info next agree ext)
    | inr (e, clash) ↦ inr (rw agree e, Clash-step rec recs info clash)
  ]
  | inr differ ↦
      let (old, l, different) = agrees-false rec (lookup rec.fname info) differ in
      inr (
        rw differ refl,
        record { rec = rec; old = old; there = inl refl; different = different; origin = inr l },
      )
]

-- a map from the names to the records, and to the one for the enumeration
pub record IsInfoMap (recs : List CpuidRecord) (info : RecordMap) : Type 0 where
  pub holds :
      (name : String) (r : CpuidRecord)
      → (lookup name info ≡ some r) ↔ (
          ((name ≡ "INVALID") × (r ≡ invalid_record))
          ⊎ ((name ≢ "INVALID") × Elem r recs × (r.fname ≡ name)))

pub record Differ (recs : List CpuidRecord) : Type 0 where
  pub first : CpuidRecord
  pub second : CpuidRecord
  pub first_there : Elem first recs
  pub second_there : Elem second recs
  pub one_name : first.fname ≡ second.fname
  pub different : first ≢ second

Clash-Differ : (recs : List CpuidRecord) → Clash recs [] → Differ recs
unfolding lookup
Clash-Differ recs c = elim c.origin [
  | inl (there, name) ↦ record {
    first = c.old;
    second = c.rec;
    first_there = there;
    second_there = c.there;
    one_name = name;
    different = c.different;
  }
  | inr l ↦ absurd cc
]

module _ (recs : List CpuidRecord) (next : RecordMap) (ext : Extends recs [] next) (name : String)
    (r : CpuidRecord) where
  abbrev IsMapped : Type 0
  IsMapped =
      ((name ≡ "INVALID") × (r ≡ invalid_record))
      ⊎ ((name ≢ "INVALID") × Elem r recs × (r.fname ≡ name))

  mapped_invalid :
      string_eq.beq "INVALID" name ≡ true
      → (lookup name (insert "INVALID" invalid_record next) ≡ some r) ↔ IsMapped
  mapped_invalid b =
      let at = lookup-insert "INVALID" name invalid_record next in
      let e : name ≡ "INVALID" = sym ((string_eq.beq_iff "INVALID" name).0 b) in
      (
        λ l. inl (e, ground arith),
        λ s. elim s [ inl p ↦ rw at (rw b (ap some (sym p.1))) | inr p ↦ absurd (p.0 e) ],
      )

  nowhere : lookup {V = CpuidRecord} name [] ≢ some r
  unfolding lookup
  nowhere o = cc

  mapped_record :
      string_eq.beq "INVALID" name ≡ false
      → (lookup name (insert "INVALID" invalid_record next) ≡ some r) ↔ IsMapped
  mapped_record b =
      let at = lookup-insert "INVALID" name invalid_record next in
      (
        λ l.
            let found : lookup name next ≡ some r = ground arith in
            elim (ext.origin name r found) [
              | inl p ↦ inr (other b, p.0, p.1)
              | inr o ↦ absurd (nowhere o)
            ],
        λ s. elim s [
          | inl p ↦ absurd (other b p.0)
          | inr p ↦ rw at (rw b (subst (λ n. lookup n next ≡ some r) p.2 (ext.added r p.1)))
        ],
      )
    where
      other : string_eq.beq "INVALID" name ≡ false → name ≢ "INVALID"
      other b q = let f = (string_eq.beq_iff "INVALID" name).1 (sym q) in cc

Extends-IsInfoMap :
    (recs : List CpuidRecord) (next : RecordMap)
    → Extends recs [] next
    → IsInfoMap recs (insert "INVALID" invalid_record next)
Extends-IsInfoMap recs next ext = record {
  holds = λ name r. elim (Bool-cases (string_eq.beq "INVALID" name)) [
    | inl b ↦ mapped_invalid recs next ext name r b
    | inr b ↦ mapped_record recs next ext name r b
  ];
}

-- Either the map is made, and it has INVALID for the invalid record, each other record by its
-- name, and nothing else, or it ends with an error, and two different records have one name.
pub make_cpuid_rec_info_map-Decides :
    (d : Groups)
    → ((info : RecordMap) × (make_cpuid_rec_info_map d ≡ ok info) × IsInfoMap (records_of d) info)
      ⊎ ((make_cpuid_rec_info_map d ≡ err die) × Differ (records_of d))
unfolding make_cpuid_rec_info_map lookup
make_cpuid_rec_info_map-Decides d = elim (add_records-Decides (records_of d) []) [
  | inl (next, e, ext) ↦ inl (
    insert "INVALID" invalid_record next,
    ap (λ r. r >>= λ info. ok (insert "INVALID" invalid_record info)) (add_isa_sets-flat d [] ∙ e),
    Extends-IsInfoMap (records_of d) next ext,
  )
  | inr (e, clash) ↦ inr (
    ap (λ r. r >>= λ info. ok (insert "INVALID" invalid_record info)) (add_isa_sets-flat d [] ∙ e),
    Clash-Differ (records_of d) clash,
  )
]
