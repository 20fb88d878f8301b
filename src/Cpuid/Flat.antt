-- ===== src/Cpuid/Flat.antt =====
-- The loops over the isa sets and groups as one loop over the records, and the comparison of records.
use mathlib.Core.Path.{subst, fun_ext}
use xed.Base.{
  ◌≡◌, refl, sym, ap, ◌∙◌, inl, inr, true, List, [], ◌∷◌, ◌++◌, Bool-cases, ◌>>=◌, string_eq, arith,
  &&-eq_true, ◌↔◌, beq_self,
}
use xed.Base.Dict.{lookup, insert}
use xed.Cpuid.{CpuidRecord, same_record}
use xed.Cpuid.Files.{GroupRecord, Groups, RecordMap, agrees, add_records, add_groups, add_isa_sets}

-- the records of the groups, in order
abbrev pub records_of_groups : List GroupRecord → List CpuidRecord
records_of_groups [] = []
records_of_groups (grp ∷ grps) = grp.records ++ records_of_groups grps

abbrev pub records_of : Groups → List CpuidRecord
records_of [] = []
records_of ((isa_set, grps) ∷ d) = records_of_groups grps ++ records_of d

same_record_self : (a : CpuidRecord) → same_record a a ≡ true
same_record_self a = ground (
  arith,
  beq_self a.fname,
  beq_self a.leaf,
  beq_self a.s_leaf,
  beq_self a.reg,
  beq_self a.bit_start,
  beq_self a.bit_end,
  beq_self a.value,
)

pub same_record_iff : (a b : CpuidRecord) → (same_record a b ≡ true) ↔ (a ≡ b)
same_record_iff a b = (
  λ h.
      let (h1, value) = &&-eq_true _ (string_eq.beq a.value b.value) h in
      let (h2, stop) = &&-eq_true _ (string_eq.beq a.bit_end b.bit_end) h1 in
      let (h3, start) = &&-eq_true _ (string_eq.beq a.bit_start b.bit_start) h2 in
      let (h4, reg) = &&-eq_true _ (string_eq.beq a.reg b.reg) h3 in
      let (h5, s_leaf) = &&-eq_true _ (string_eq.beq a.s_leaf b.s_leaf) h4 in
      let (fname, leaf) =
        &&-eq_true (string_eq.beq a.fname b.fname) (string_eq.beq a.leaf b.leaf) h5 in
      let e1 : a.fname ≡ b.fname = (string_eq.beq_iff a.fname b.fname).0 fname in
      let e2 : a.leaf ≡ b.leaf = (string_eq.beq_iff a.leaf b.leaf).0 leaf in
      let e3 : a.s_leaf ≡ b.s_leaf = (string_eq.beq_iff a.s_leaf b.s_leaf).0 s_leaf in
      let e4 : a.reg ≡ b.reg = (string_eq.beq_iff a.reg b.reg).0 reg in
      let e5 : a.bit_start ≡ b.bit_start = (string_eq.beq_iff a.bit_start b.bit_start).0 start in
      let e6 : a.bit_end ≡ b.bit_end = (string_eq.beq_iff a.bit_end b.bit_end).0 stop in
      let e7 : a.value ≡ b.value = (string_eq.beq_iff a.value b.value).0 value in cc,
  λ e. subst (λ x. same_record a x ≡ true) e (same_record_self a),
)

-- The loops add the records one by one.
add_records-append :
    (xs ys : List CpuidRecord) (info : RecordMap)
    → add_records (xs ++ ys) info ≡ (add_records xs info >>= add_records ys)
unfolding add_records
add_records-append [] ys info = refl
add_records-append (rec ∷ xs) ys info = elim (Bool-cases (agrees rec (lookup rec.fname info))) [
  | inl e ↦ rw e (add_records-append xs ys (insert rec.fname rec info))
  | inr e ↦ rw e refl
]

add_groups-flat :
    (grps : List GroupRecord) (info : RecordMap)
    → add_groups grps info ≡ add_records (records_of_groups grps) info
unfolding add_groups add_records
add_groups-flat [] info = refl
add_groups-flat (grp ∷ grps) info =
    ap (λ next. add_records grp.records info >>= next) (fun_ext (add_groups-flat grps))
    ∙ sym (add_records-append grp.records (records_of_groups grps) info)

pub add_isa_sets-flat :
    (d : Groups) (info : RecordMap) → add_isa_sets d info ≡ add_records (records_of d) info
unfolding add_isa_sets add_records
add_isa_sets-flat [] info = refl
add_isa_sets-flat ((isa_set, grps) ∷ d) info =
    ap (λ r. r >>= add_isa_sets d) (add_groups-flat grps info)
    ∙ ap (λ next. add_records (records_of_groups grps) info >>= next)
        (fun_ext (add_isa_sets-flat d))
    ∙ sym (add_records-append (records_of_groups grps) (records_of d) info)
