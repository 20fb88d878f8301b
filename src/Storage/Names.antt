-- ===== src/Storage/Names.antt =====
-- The members of the structure are named for the operands, in lower case.
use mathlib.Core.Path.{subst}
use mathlib.Core.List.{Perm, perm_middle}
use mathlib.Core.List.Perm
use xed.Base.{
  ◌≡◌, refl, sym, ap, inl, inr, Bool, true, false, List, [], ◌∷◌, ◌++◌, map, Bool-cases, String,
}
use xed.Storage.{
  OperandField, Bin, Member, is_candidate, sort_cmp_operands, get_candidates_for_compression,
  compress_operands, un_compressed, lower, plain_member, bit_field, bin_members, layout,
}
use xed.Storage.Packed.{contents, with_bit_field, compress_operands-Perm, sort_cmp_operands-Perm}

-- the names of the members that the operands get
abbrev pub names : List OperandField → List String
names ops = map (λ op. lower op.name) ops

abbrev pub member_names : List Member → List String
member_names ms = map (λ m. m.name) ms

member_names-append :
    (xs ys : List Member) → member_names (xs ++ ys) ≡ member_names xs ++ member_names ys
member_names-append [] ys = refl
member_names-append (x ∷ xs) ys = ap (λ l. x.name ∷ l) (member_names-append xs ys)

names-append : (xs ys : List OperandField) → names (xs ++ ys) ≡ names xs ++ names ys
names-append [] ys = refl
names-append (x ∷ xs) ys = ap (λ l. lower x.name ∷ l) (names-append xs ys)

-- A member is named for its operand.
module _ (make : OperandField → Member)
    (named : (op : OperandField) → (make op).name ≡ lower op.name) where
  member_names-map : (ops : List OperandField) → member_names (map make ops) ≡ names ops
  member_names-map [] = refl
  member_names-map (op ∷ ops) = rw (named op) (ap (λ l. lower op.name ∷ l) (member_names-map ops))

member_names-bin_members :
    (bins : List Bin) → member_names (bin_members bins) ≡ names (contents bins)
unfolding bin_members
member_names-bin_members [] = refl
member_names-bin_members (b ∷ bins) =
    rw (member_names-append (map (bit_field b.storage_ctype) b.operands) (bin_members bins)) (
      rw (member_names-map (bit_field b.storage_ctype) (λ op. refl) b.operands)
        (rw (member_names-bin_members bins) (sym (names-append b.operands (contents bins)))))

names-with_bit_field : (ops : List OperandField) → names (map with_bit_field ops) ≡ names ops
names-with_bit_field [] = refl
names-with_bit_field (op ∷ ops) = ap (λ l. lower op.name ∷ l) (names-with_bit_field ops)

parts-Perm :
    (ops : List OperandField) → Perm (un_compressed ops ++ get_candidates_for_compression ops) ops
unfolding un_compressed get_candidates_for_compression
parts-Perm [] = Perm.refl []
parts-Perm (op ∷ ops) = elim (Bool-cases (is_candidate op)) [
  | inl e ↦ rw e (
      Perm.trans (perm_middle (un_compressed ops) (get_candidates_for_compression ops))
        (Perm.cons op (parts-Perm ops)))
  | inr e ↦ rw e (Perm.cons op (parts-Perm ops))
]

compressed-Perm :
    (ops : List OperandField)
    → Perm
        (member_names (bin_members (compress_operands ops)))
        (names (get_candidates_for_compression ops))
compressed-Perm ops = rw (member_names-bin_members (compress_operands ops)) (
    subst (Perm (names (contents (compress_operands ops))))
      (names-with_bit_field (get_candidates_for_compression ops))
      (Perm.map (λ op. lower op.name) (compress_operands-Perm ops)))

plain-Perm :
    (ops : List OperandField)
    → Perm (member_names (map plain_member (sort_cmp_operands ops))) (names ops)
plain-Perm ops =
    rw (member_names-map plain_member (λ op. refl) (sort_cmp_operands ops))
      (Perm.map (λ op. lower op.name) (sort_cmp_operands-Perm ops))

-- There is a member for each operand.
pub layout-Perm :
    (compressed : Bool) (ops : List OperandField)
    → Perm (member_names (layout compressed ops)) (names ops)
layout-Perm false ops = plain-Perm ops
layout-Perm true ops =
    rw
      (member_names-append (map plain_member (sort_cmp_operands (un_compressed ops)))
        (bin_members (compress_operands ops)))
      (Perm.trans (Perm.append (plain-Perm (un_compressed ops)) (compressed-Perm ops)) (
        subst (λ l. Perm l (names ops))
          (names-append (un_compressed ops) (get_candidates_for_compression ops))
          (Perm.map (λ op. lower op.name) (parts-Perm ops))))
