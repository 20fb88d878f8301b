-- ===== src/Storage/Emit.antt =====
-- The structure that is emitted: each operand has one member, and the member holds the values of the
-- operand's enumeration, or the bits that the data files give it.
use mathlib.Core.Path.{subst}
use mathlib.Core.List.{Perm}
use xed.Base.{
  ℕ, ◌^◌, ◌≤◌, ◌≡◌, ◌≢◌, refl, sym, ap, ◌∙◌, inl, inr, Bool, none, some, List, [], ◌∷◌, arith, Elem,
  ok, >>=-eq-ok, ok-eq, String, string_eq, length,
}
use xed.Base.Dict.{lookup, IsDict}
use xed.Storage.{
  OperandField, Enums, Member, lower, layout, type_in_storage, compute_type_in_storage,
  fix_bit_width_for_enums, gen_max_bits_per_enum, needed_bits, get_num_elements_in_enum, emit,
}
use xed.Storage.Layout.{HasMember, IsStored, layout-HasMember, type_in_storage-le}
use xed.Storage.Names.{names, member_names, layout-Perm}
use xed.Storage.Enums.{
  lookup-widths_from-none, lookup-widths_from, le-pow-needed_bits, IsFixed, fix_all-Elem,
  fix_all-names, lookup-gen_max_bits,
}

-- what the computed type adds to an operand
record IsTyped (f op : OperandField) : Type 0 where
  name : op.name ≡ f.name
  width : op.bitwidth ≡ f.bitwidth
  stored : IsStored op

compute-Elem :
    (fixed operands : List OperandField) (f : OperandField)
    → compute_type_in_storage fixed ≡ ok operands
    → Elem f fixed
    → (op : OperandField) × Elem op operands × IsTyped f op
unfolding compute_type_in_storage
compute-Elem [] operands f h m = absurd m
compute-Elem (x ∷ fixed) operands f h m =
    let (t, one, h2) = >>=-eq-ok (type_in_storage x.bitwidth) _ h in
    let (rest, more, h3) = >>=-eq-ok (compute_type_in_storage fixed) _ h2 in
    let op : OperandField = record x { storage_type = some t } in
    let e : op ∷ rest ≡ operands = ok-eq (op ∷ rest) h3 in
    elim m [
      | inl here ↦ (
        op,
        subst (Elem op) e (inl refl),
        subst (λ g. IsTyped g op) (sym here)
            (record { name = refl; width = refl; stored = type_in_storage-le x.bitwidth t one }),
      )
      | inr k ↦
          let (g, there, p) = compute-Elem fixed rest f more k in
          (g, subst (Elem g) e (inr there), p)
    ]

compute-names :
    (fixed operands : List OperandField)
    → compute_type_in_storage fixed ≡ ok operands
    → names operands ≡ names fixed
unfolding compute_type_in_storage
compute-names [] operands h = ap names (sym (ok-eq [] h))
compute-names (x ∷ fixed) operands h =
    let (t, one, h2) = >>=-eq-ok (type_in_storage x.bitwidth) _ h in
    let (rest, more, h3) = >>=-eq-ok (compute_type_in_storage fixed) _ h2 in
    ap names (sym (ok-eq (record x { storage_type = some t } ∷ rest) h3))
    ∙ ap (λ l. lower x.name ∷ l) (compute-names fixed rest more)

-- a structure for the operands
pub record IsLayout (enums : Enums) (ops : List OperandField) (members : List Member) : Type 0 where
  -- one member for each operand
  pub named : Perm (member_names members) (names ops)
  -- room for the values of its enumeration
  pub values_fit :
      (op : OperandField) (vals : List String)
      → Elem op ops
      → op.ctype ≢ "xed_error_enum_t"
      → lookup op.ctype enums ≡ some vals
      → (bits : ℕ) × (length vals ≤ 2 ^ bits) × HasMember (lower op.name) bits members
  -- room for the bits of one of another type
  pub bits_fit :
      (op : OperandField)
      → Elem op ops
      → op.ctype ≢ "xed_error_enum_t"
      → lookup op.ctype enums ≡ none
      → HasMember (lower op.name) op.bitwidth members

emit-HasMember :
    (compressed : Bool) (enums : Enums) (ops fixed operands : List OperandField) (op : OperandField)
    → fix_bit_width_for_enums enums ops ≡ ok fixed
    → compute_type_in_storage fixed ≡ ok operands
    → Elem op ops
    → (f : OperandField) × IsFixed (lookup op.ctype (gen_max_bits_per_enum enums)) op f
      × HasMember (lower op.name) f.bitwidth (layout compressed operands)
unfolding fix_bit_width_for_enums
emit-HasMember compressed enums ops fixed operands op a b m =
    let (f, there, is_fixed) = fix_all-Elem enums (gen_max_bits_per_enum enums) ops fixed op a m in
    let (o, o_there, typed) = compute-Elem fixed operands f b there in
    let (member, here, name, room) = layout-HasMember compressed operands o o_there typed.stored in
    (
      f,
      is_fixed,
      (
        member,
        here,
        name ∙ ap lower (typed.name ∙ is_fixed.name),
        omega (arith, room, typed.width),
      ),
    )

-- For enumerations with different names: if emit succeeds, the names of the members of the
-- structure are those of the operands in lower case, in some order, and, for each operand whose
-- type is not the error enumeration, a member with its name in lower case has bits for all values
-- of the enumeration that is the type, or, where the type is no enumeration, the bits that the
-- operand has.
pub emit-IsLayout :
    (compressed : Bool) (enums : Enums) (ops : List OperandField) (members : List Member)
    → IsDict enums
    → emit compressed enums ops ≡ ok members
    → IsLayout enums ops members
unfolding emit fix_bit_width_for_enums
emit-IsLayout compressed enums ops members unique h =
    let (fixed, a, h2) = >>=-eq-ok (fix_bit_width_for_enums enums ops) _ h in
    let (operands, b, h3) = >>=-eq-ok (compute_type_in_storage fixed) _ h2 in
    let e : layout compressed operands ≡ members = ok-eq (layout compressed operands) h3 in
    let same_names =
      compute-names fixed operands b
      ∙ fix_all-names enums (gen_max_bits_per_enum enums) ops fixed a in
    record {
      named =
          subst (λ ms. Perm (member_names ms) (names ops)) e
            (subst (Perm (member_names (layout compressed operands))) same_names
              (layout-Perm compressed operands));
      values_fit = λ op vals m other found.
          let (f, is_fixed, has) = emit-HasMember compressed enums ops fixed operands op a b m in
          let bits = needed_bits (get_num_elements_in_enum vals) in
          let width = is_fixed.fixed bits (
            lookup-gen_max_bits op.ctype enums other
            ∙ lookup-widths_from op.ctype enums [] vals unique found) in
          (
            bits,
            le-pow-needed_bits vals,
            subst (λ n. HasMember (lower op.name) n members) width
                (subst (HasMember (lower op.name) f.bitwidth) e has),
          );
      bits_fit = λ op m other absent.
          let (f, is_fixed, has) = emit-HasMember compressed enums ops fixed operands op a b m in
          let width = is_fixed.default (
            lookup-gen_max_bits op.ctype enums other
            ∙ lookup-widths_from-none op.ctype enums [] absent) in
          subst (λ n. HasMember (lower op.name) n members) width
            (subst (HasMember (lower op.name) f.bitwidth) e has);
    }
