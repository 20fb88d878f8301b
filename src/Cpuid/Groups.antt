-- ===== src/Cpuid/Groups.antt =====
-- The groups of a file: what each of them holds, and their order.
use mathlib.Core.Path.{subst}
use mathlib.Core.List.{append-nil}
use xed.Base.{
  ◌<◌, ◌≡◌, ◌≢◌, refl, sym, ap, ◌∙◌, inl, inr, Bool, true, false, Option, none, some, arith, List,
  [], ◌∷◌, ◌++◌, eqb_iff, leb, leb→le, Bool-cases, ok, >>=-eq-ok, ok-eq, String, All, All-append,
  die, if_err-eq-ok, string_eq,
}
use xed.Base.Dict.{lookup, insert, lookup-insert_cases}
use xed.Base.Sort.{sorted, Ascends, Ascends-append, All-sorted, sorted-Ascends}
use xed.Cpuid.{CpuidRecord, Match, load_from_str}
use xed.Cpuid.Files.{
  GroupKind, sort_key, same_kind, GroupRecord, new_group, is_misplaced, add_record,
  add_records_from_str, Groups, Line, key_of, has_kind, groups_at, kept_if, read_line, read_lines,
  by_kind, sorted_groups, read_file,
}
use xed.Cpuid.Valid.{IsRecord, load_from_str_iff}

-- a record that may stand in a group of the kind
pub record IsMember (kind : GroupKind) (rec : CpuidRecord) : Type 0 where
  pub valid : IsRecord rec
  pub placed : is_misplaced kind rec ≡ false

abbrev HasMembers : GroupRecord → Type 0
HasMembers grp = All (IsMember grp.kind) grp.records

pub record IsGroup (grp : GroupRecord) : Type 0 where
  pub members : HasMembers grp
  pub non_empty : grp.records ≢ []

abbrev Differ : GroupRecord → GroupRecord → Type 0
Differ a b = sort_key a.kind ≢ sort_key b.kind

abbrev pub Precedes : GroupRecord → GroupRecord → Type 0
Precedes a b = sort_key a.kind < sort_key b.kind

-- the groups of an isa set while the file is read, and after
abbrev AreGroups : List GroupRecord → Type 0
AreGroups grps = All IsGroup grps × Ascends Differ grps

abbrev pub AreSortedGroups : List GroupRecord → Type 0
AreSortedGroups grps = All IsGroup grps × Ascends Precedes grps

add_record-HasMembers :
    (grp next : GroupRecord) (m : Match) (loaded : Bool) (rec : CpuidRecord)
    → load_from_str m ≡ ok (loaded, rec)
    → HasMembers grp
    → add_record grp (loaded, rec) ≡ ok next
    → HasMembers next × (next.kind ≡ grp.kind)
add_record-HasMembers grp next m false rec l h e =
    let p = ok-eq grp e in (subst HasMembers p h, sym (ap (λ g. g.kind) p))
add_record-HasMembers grp next m true rec l h e = elim (Bool-cases (is_misplaced grp.kind rec)) [
  | inl b ↦ absurd (refused b e)
  | inr b ↦
      let p = ok-eq (record grp { records = grp.records ++ rec ∷ [] }) (added b e) in
      let member : IsMember grp.kind rec = record {
        valid = ((load_from_str_iff m rec).0 l).2;
        placed = b;
      } in
      (
        subst HasMembers p (All-append (IsMember grp.kind) grp.records (rec ∷ []) h (member, tt)),
        sym (ap (λ g. g.kind) p),
      )
]
  where
    refused : is_misplaced grp.kind rec ≡ true → add_record grp (true, rec) ≡ ok next → ⊥
    refused b e = ground arith

    added :
        is_misplaced grp.kind rec ≡ false
        → add_record grp (true, rec) ≡ ok next
        → ok (record grp { records = grp.records ++ rec ∷ [] }) ≡ ok next
    added b e = ground arith

add_records_from_str-HasMembers :
    (records : List Match) (grp next : GroupRecord)
    → HasMembers grp
    → add_records_from_str records grp ≡ ok next
    → HasMembers next × (next.kind ≡ grp.kind)
unfolding add_records_from_str
add_records_from_str-HasMembers [] grp next h e =
    let p = ok-eq grp e in (subst HasMembers p h, sym (ap (λ g. g.kind) p))
add_records_from_str-HasMembers (m ∷ records) grp next h e =
    let ((loaded, rec), l, e2) = >>=-eq-ok (load_from_str m) _ e in
    let (mid, a, e3) = >>=-eq-ok (add_record grp (loaded, rec)) _ e2 in
    let (h2, kind) = add_record-HasMembers grp mid m loaded rec l h a in
    let (h3, kind3) = add_records_from_str-HasMembers records mid next h2 e3 in (h3, kind3 ∙ kind)

kept_if-AreGroups :
    (recs : List CpuidRecord) (grp : GroupRecord)
    → grp.records ≡ recs
    → HasMembers grp
    → All IsGroup (kept_if recs grp)
kept_if-AreGroups [] grp e h = tt
kept_if-AreGroups (rec ∷ recs) grp e h = (record { members = h; non_empty = λ none_there. cc }, tt)

has_kind-Differ :
    (kind : GroupKind) (grps : List GroupRecord) (grp : GroupRecord)
    → grp.kind ≡ kind
    → has_kind kind grps ≡ false
    → All (λ g. Differ g grp) grps
unfolding has_kind
has_kind-Differ kind [] grp e h = tt
has_kind-Differ kind (g ∷ grps) grp e h = elim (Bool-cases (same_kind g.kind kind)) [
  | inl b ↦ absurd (ground arith)
  | inr b ↦ (differ b, has_kind-Differ kind grps grp e (ground arith))
]
  where
    differ : same_kind g.kind kind ≡ false → Differ g grp
    differ b q = let same = (eqb_iff (sort_key g.kind) (sort_key kind)).1 (q ∙ ap sort_key e) in cc

kept_if-append :
    (recs : List CpuidRecord) (grps : List GroupRecord) (grp : GroupRecord)
    → Ascends Differ grps
    → All (λ g. Differ g grp) grps
    → Ascends Differ (grps ++ kept_if recs grp)
kept_if-append [] grps grp h all = rw append-nil h
kept_if-append (rec ∷ recs) grps grp h all = Ascends-append Differ grps grp h all

-- each list of groups in the map
abbrev AllGroups : Groups → Type 0
AllGroups d =
    (isa_set : String) (grps : List GroupRecord) → lookup isa_set d ≡ some grps → AreGroups grps

groups_at-AreGroups :
    (o : Option (List GroupRecord))
    → ((grps : List GroupRecord) → o ≡ some grps → AreGroups grps)
    → AreGroups (groups_at o)
groups_at-AreGroups none h = (tt, tt)
groups_at-AreGroups (some grps) h = h grps refl

module _ (line : Line) (d : Groups) (all : AllGroups d) (isa_set : String) (kind : GroupKind) where
  next_groups-AreGroups :
      (grp : GroupRecord)
      → has_kind kind (groups_at (lookup isa_set d)) ≡ false
      → add_records_from_str line.row_val (new_group kind isa_set) ≡ ok grp
      → AreGroups (groups_at (lookup isa_set d) ++ kept_if grp.records grp)
  next_groups-AreGroups grp fresh e =
      let grps = groups_at (lookup isa_set d) in
      let old = groups_at-AreGroups (lookup isa_set d) (all isa_set) in
      let (members, same) =
        add_records_from_str-HasMembers line.row_val (new_group kind isa_set) grp tt e in
      (
        All-append IsGroup grps (kept_if grp.records grp) old.0
            (kept_if-AreGroups grp.records grp refl members),
        kept_if-append grp.records grps grp old.1 (has_kind-Differ kind grps grp same fresh),
      )

read_line-AllGroups :
    (line : Line) (d next : Groups) → AllGroups d → read_line line d ≡ ok next → AllGroups next
unfolding read_line
read_line-AllGroups line d next all e =
    let ((isa_set, kind), k, e2) = >>=-eq-ok (key_of line.row_key_list line.has_avx10) _ e in
    let grps = groups_at (lookup isa_set d) in
    let (fresh, e3) = if_err-eq-ok (has_kind kind grps) die _ e2 in
    let (grp, a, e4) =
      >>=-eq-ok (add_records_from_str line.row_val (new_group kind isa_set)) _ e3 in
    subst AllGroups (ok-eq (insert isa_set (grps ++ kept_if grp.records grp) d) e4)
      (λ key value found.
        elim (lookup-insert_cases isa_set key (grps ++ kept_if grp.records grp) value d found) [
          | inl p ↦ subst AreGroups p.1 (next_groups-AreGroups line d all isa_set kind grp fresh a)
          | inr old ↦ all key value old
        ])

read_lines-AllGroups :
    (lines : List Line) (d next : Groups)
    → AllGroups d
    → read_lines lines d ≡ ok next
    → AllGroups next
unfolding read_lines
read_lines-AllGroups [] d next all e = subst AllGroups (ok-eq d e) all
read_lines-AllGroups (line ∷ lines) d next all e =
    let (mid, a, e2) = >>=-eq-ok (read_line line d) _ e in
    read_lines-AllGroups lines mid next (read_line-AllGroups line d mid all a) e2

by_kind-up : (a b : GroupRecord) → Differ a b → by_kind a b ≡ true → Precedes a b
by_kind-up a b d h = omega (arith, leb→le (sort_key a.kind) (sort_key b.kind) h, d)

by_kind-down : (a b : GroupRecord) → Differ a b → by_kind a b ≡ false → Precedes b a
by_kind-down a b d h = let f : leb (sort_key a.kind) (sort_key b.kind) ≡ false = h in ground arith

sorted-AreSortedGroups :
    (grps : List GroupRecord) → AreGroups grps → AreSortedGroups (sorted by_kind grps)
sorted-AreSortedGroups grps h = (
  All-sorted by_kind Differ Precedes IsGroup grps h.0,
  sorted-Ascends by_kind Differ Precedes by_kind-up by_kind-down (λ a b c p q. omega arith) grps
      h.1,
)

lookup-sorted_groups :
    (isa_set : String) (d : Groups) (grps : List GroupRecord)
    → lookup isa_set (sorted_groups d) ≡ some grps
    → (old : List GroupRecord) × (lookup isa_set d ≡ some old) × (sorted by_kind old ≡ grps)
unfolding lookup
lookup-sorted_groups isa_set [] grps h = absurd cc
lookup-sorted_groups isa_set ((key, old) ∷ d) grps h =
    elim (Bool-cases (string_eq.beq key isa_set)) [
      | inl b ↦ (old, rw b refl, ground arith)
      | inr b ↦
          let (found, l, e) = lookup-sorted_groups isa_set d grps (ground arith) in
          (found, rw b l, e)
    ]

-- If a file is read, the groups of each isa set have strictly ascending kinds, each group has
-- records, and each of them is valid and may stand in a group of its kind.
pub read_file-AreSortedGroups :
    (lines : List Line) (d : Groups) (isa_set : String) (grps : List GroupRecord)
    → read_file lines ≡ ok d
    → lookup isa_set d ≡ some grps
    → AreSortedGroups grps
unfolding read_file
read_file-AreSortedGroups lines d isa_set grps e found =
    let (all, a, e2) = >>=-eq-ok (read_lines lines []) _ e in
    let at : lookup isa_set (sorted_groups all) ≡ some grps =
      subst (λ m. lookup isa_set m ≡ some grps) (sym (ok-eq (sorted_groups all) e2)) found in
    let (old, l, s) = lookup-sorted_groups isa_set all grps at in
    subst AreSortedGroups s (
      sorted-AreSortedGroups old
        (read_lines-AllGroups lines [] all (λ k g none_there. cc) a isa_set old l))
