-- ===== src/Storage/Enums.antt =====
-- The widths of the enumerations, and the operands to which they are given.
use mathlib.Core.Path.{subst}
use xed.Base.{
  ℕ, ◌-◌, ◌^◌, ◌≤◌, ◌≡◌, ◌≢◌, refl, sym, ap, ◌∙◌, inl, inr, Option, none, some, List, [], ◌∷◌,
  arith, Elem, Bool-cases, ok, >>=-eq-ok, ok-eq, String, string_eq, length, ltb,
}
use xed.Base.Digits.{lt-pow-bit_length}
use xed.Base.Dict.{Dict, lookup, insert, IsDict, lookup-insert}
use xed.Storage.{
  lower, OperandField, Enums, fixed_to, fix_all, gen_max_bits_per_enum, widths_from, needed_bits,
  get_num_elements_in_enum, too_small,
}
use xed.Storage.Names.{names}

pub lookup-widths_from-none :
    (t : String) (enums : Enums) (widths : Dict String ℕ)
    → lookup t enums ≡ none
    → lookup t (widths_from enums widths) ≡ lookup t widths
unfolding widths_from lookup
lookup-widths_from-none t [] widths h = refl
lookup-widths_from-none t ((name, vals) ∷ enums) widths h =
    elim (Bool-cases (string_eq.beq name t)) [
      | inl b ↦ absurd (ground arith)
      | inr b ↦
          let bits = needed_bits (get_num_elements_in_enum vals) in
          lookup-widths_from-none t enums (insert name bits widths) (ground arith)
          ∙ lookup-insert name t bits widths
          ∙ rw b refl
    ]

pub lookup-widths_from :
    (t : String) (enums : Enums) (widths : Dict String ℕ) (vals : List String)
    → IsDict enums
    → lookup t enums ≡ some vals
    → lookup t (widths_from enums widths) ≡ some (needed_bits (get_num_elements_in_enum vals))
unfolding widths_from lookup
lookup-widths_from t [] widths vals d h = absurd cc
lookup-widths_from t ((name, vs) ∷ enums) widths vals d h =
    elim (Bool-cases (string_eq.beq name t)) [
      | inl b ↦
          let e = (string_eq.beq_iff name t).0 b in
          let bits = needed_bits (get_num_elements_in_enum vs) in
          let same : vs ≡ vals = ground arith in
          lookup-widths_from-none t enums (insert name bits widths)
            (subst (λ k. lookup k enums ≡ none) e d.0)
          ∙ lookup-insert name t bits widths
          ∙ rw b (ap (λ v. some (needed_bits (get_num_elements_in_enum v))) same)
      | inr b ↦
          lookup-widths_from t enums
            (insert name (needed_bits (get_num_elements_in_enum vs)) widths) vals d.1 (ground arith)
    ]

length-le : (vals : List String) → length vals ≤ get_num_elements_in_enum vals
unfolding get_num_elements_in_enum
length-le vals = ground arith

-- The bits that are computed hold the values and the one that is put behind them.
pub le-pow-needed_bits :
    (vals : List String) → length vals ≤ 2 ^ needed_bits (get_num_elements_in_enum vals)
unfolding needed_bits
le-pow-needed_bits vals =
    let n = get_num_elements_in_enum vals in
    omega (arith, lt-pow-bit_length (n - 1), length-le vals)

-- an operand after its width is fixed
pub record IsFixed (widths : Option ℕ) (op f : OperandField) : Type 0 where
  pub name : f.name ≡ op.name
  pub ctype : f.ctype ≡ op.ctype
  pub default : widths ≡ none → f.bitwidth ≡ op.bitwidth
  pub fixed : (n : ℕ) → widths ≡ some n → f.bitwidth ≡ n

too_small-ne : (o : Option (List String)) (f : OperandField) → too_small o ≢ ok f
too_small-ne none f e = cc
too_small-ne (some vals) f e = cc

fixed_to-IsFixed :
    (enums : Enums) (op f : OperandField) (o : Option ℕ)
    → fixed_to enums op o ≡ ok f
    → IsFixed o op f
fixed_to-IsFixed enums op f none h =
    let e = ok-eq op h in
    record {
      name = ap (λ x. x.name) (sym e);
      ctype = ap (λ x. x.ctype) (sym e);
      default = λ q. ap (λ x. x.bitwidth) (sym e);
      fixed = λ n q. absurd cc;
    }
fixed_to-IsFixed enums op f (some bits) h = elim (Bool-cases (ltb op.bitwidth bits)) [
  | inl b ↦ absurd (too_small-ne (lookup op.ctype enums) f (ground arith))
  | inr b ↦
      let e : record op { bitwidth = bits } ≡ f =
        ok-eq (record op { bitwidth = bits }) (ground arith) in
      record {
        name = ap (λ x. x.name) (sym e);
        ctype = ap (λ x. x.ctype) (sym e);
        default = λ q. absurd cc;
        fixed = λ n q. ap (λ x. x.bitwidth) (sym e) ∙ (let p : bits ≡ n = cc in p);
      }
]

pub fix_all-Elem :
    (enums : Enums) (widths : Dict String ℕ) (ops fixed : List OperandField) (op : OperandField)
    → fix_all enums widths ops ≡ ok fixed
    → Elem op ops
    → (f : OperandField) × Elem f fixed × IsFixed (lookup op.ctype widths) op f
unfolding fix_all
fix_all-Elem enums widths [] fixed op h m = absurd m
fix_all-Elem enums widths (x ∷ ops) fixed op h m =
    let (f, one, h2) = >>=-eq-ok (fixed_to enums x (lookup x.ctype widths)) _ h in
    let (rest, more, h3) = >>=-eq-ok (fix_all enums widths ops) _ h2 in
    let e : f ∷ rest ≡ fixed = ok-eq (f ∷ rest) h3 in
    elim m [
      | inl here ↦ (
        f,
        subst (Elem f) e (inl refl),
        subst (λ o. IsFixed (lookup o.ctype widths) o f) (sym here)
            (fixed_to-IsFixed enums x f (lookup x.ctype widths) one),
      )
      | inr t ↦
          let (g, there, p) = fix_all-Elem enums widths ops rest op more t in
          (g, subst (Elem g) e (inr there), p)
    ]

pub fix_all-names :
    (enums : Enums) (widths : Dict String ℕ) (ops fixed : List OperandField)
    → fix_all enums widths ops ≡ ok fixed
    → names fixed ≡ names ops
unfolding fix_all
fix_all-names enums widths [] fixed h = ap names (sym (ok-eq [] h))
fix_all-names enums widths (x ∷ ops) fixed h =
    let (f, one, h2) = >>=-eq-ok (fixed_to enums x (lookup x.ctype widths)) _ h in
    let (rest, more, h3) = >>=-eq-ok (fix_all enums widths ops) _ h2 in
    let named = (fixed_to-IsFixed enums x f (lookup x.ctype widths) one).name in
    let tail = fix_all-names enums widths ops rest more in
    ap names (sym (ok-eq (f ∷ rest) h3))
    ∙ ap (λ n. lower n ∷ names rest) named
    ∙ ap (λ l. lower x.name ∷ l) tail

pub lookup-gen_max_bits :
    (t : String) (enums : Enums)
    → t ≢ "xed_error_enum_t"
    → lookup t (gen_max_bits_per_enum enums) ≡ lookup t (widths_from enums [])
unfolding gen_max_bits_per_enum
lookup-gen_max_bits t enums other =
    let at = lookup-insert "xed_error_enum_t" t 4 (widths_from enums []) in
    elim (Bool-cases (string_eq.beq "xed_error_enum_t" t)) [
      | inl b ↦ absurd (other (sym ((string_eq.beq_iff "xed_error_enum_t" t).0 b)))
      | inr b ↦ at ∙ rw b refl
    ]
