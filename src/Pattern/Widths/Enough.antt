-- ===== src/Pattern/Widths/Enough.antt =====
-- The width that is computed for an operand is enough for its values.
use mathlib.Core.Path.{subst}
use native.Mathlib.Nat.{pow-suc}
use xed.Base.{
  ℕ, zero, suc, ◌+◌, ◌*◌, ◌/◌, ◌^◌, ◌≤◌, ◌<◌, ◌≡◌, refl, sym, ap, ◌∙◌, inl, inr, String, none, some,
  List, [], ◌∷◌, ok, >>=-eq-ok, arith, Elem, Bool-cases, eqb, ltb, nat_eq, string_eq,
}
use xed.Base.Dict.{Dict, lookup, insert, keys, IsDict, lookup-insert, lookup-insert_self}
use xed.Hash.{ilog2, log2_fuel}
use xed.Hash.Find.{max_of}
use xed.Phash.Good.{max_of-ge}
use xed.Cdict.{Space}
use xed.Pattern.Widths.{
  width_of_values, width_of, widths_from, special_widths, insert_all, get_state_op_widths,
}

log2_fuel-lt : (fuel n : ℕ) → n ≤ fuel → n < 2 ^ (log2_fuel fuel n + 1)
unfolding log2_fuel
log2_fuel-lt zero n h = omega arith
log2_fuel-lt (suc fuel) n h = elim (Bool-cases (ltb n 2)) [
  | inl p ↦ rw p (ground arith)
  | inr p ↦
      let ih = log2_fuel-lt fuel (n / 2) (ground arith) in
      let double : 2 ^ (log2_fuel fuel (n / 2) + 1 + 1) ≡ 2 ^ (log2_fuel fuel (n / 2) + 1) * 2 =
        grind (arith, pow-suc 2 (log2_fuel fuel (n / 2) + 1)) in
      rw p (omega (arith, ih, double))
]

-- `ilog2` has one bit less than the number.
pub ilog2-lt : (n : ℕ) → n < 2 ^ (ilog2 n + 1)
unfolding ilog2
ilog2-lt n = log2_fuel-lt n n (omega arith)

width_of_values-lt :
    (vals : List ℕ) (w v : ℕ) → width_of_values vals ≡ ok w → Elem v vals → v < 2 ^ w
unfolding width_of_values
width_of_values-lt [] w v e m = elim m [ ]
width_of_values-lt (x ∷ vals) w v e m =
    let le = max_of-ge x v vals m in
    elim (Bool-cases (eqb (max_of x vals) 0)) [
      | inl p ↦ let one : 1 ≡ w = ground arith in subst (λ k. v < 2 ^ k) one (ground (arith, le))
      | inr p ↦
          let same : ilog2 (max_of x vals) + 1 ≡ w = ground arith in
          subst (λ k. v < 2 ^ k) same (omega (arith, le, ilog2-lt (max_of x vals)))
    ]

module _ (storage : Dict String ℕ) where
  widths_from-kept :
      (space : Space) (acc out : Dict String ℕ) (name : String)
      → widths_from storage space acc ≡ ok out
      → lookup name space ≡ none
      → lookup name out ≡ lookup name acc
  unfolding widths_from lookup
  widths_from-kept [] acc out name e n =
      let same : acc ≡ out = ground arith in ap (lookup name) (sym same)
  widths_from-kept ((opname, vals) ∷ space) acc out name e n =
      let (w, h, rest) = >>=-eq-ok (width_of (lookup opname storage) vals) _ e in
      elim (Bool-cases (string_eq.beq opname name)) [
        | inl p ↦ absurd (ground arith)
        | inr p ↦
            widths_from-kept space (insert opname w acc) out name rest (ground arith)
            ∙ lookup-insert opname name w acc
            ∙ ground arith
      ]

  widths_from-lookup :
      (space : Space) (acc out : Dict String ℕ) (name : String) (vals : List ℕ)
      → IsDict space
      → widths_from storage space acc ≡ ok out
      → lookup name space ≡ some vals
      → (w : ℕ) × (lookup name out ≡ some w) × (width_of (lookup name storage) vals ≡ ok w)
  unfolding widths_from lookup
  widths_from-lookup [] acc out name vals d e k = absurd cc
  widths_from-lookup ((opname, vs) ∷ space) acc out name vals d e k =
      let (w, h, rest) = >>=-eq-ok (width_of (lookup opname storage) vs) _ e in
      elim (Bool-cases (string_eq.beq opname name)) [
        | inl p ↦
            let at : opname ≡ name = (string_eq.beq_iff opname name).0 p in
            let same : vs ≡ vals = ground arith in
            (
              w,
              subst (λ n. lookup n out ≡ some w) at
                  (widths_from-kept space (insert opname w acc) out opname rest d.0
                    ∙ lookup-insert_self opname w acc),
              subst (λ n. width_of (lookup n storage) vals ≡ ok w) at
                  (subst (λ l. width_of (lookup opname storage) l ≡ ok w) same h),
            )
        | inr p ↦
            widths_from-lookup space (insert opname w acc) out name vals d.1 rest (ground arith)
      ]

insert_all-lookup :
    (special : List (String × ℕ)) (d : Dict String ℕ) (name : String)
    → ¬ (Elem name (keys special))
    → lookup name (insert_all special d) ≡ lookup name d
unfolding insert_all
insert_all-lookup [] d name n = refl
insert_all-lookup ((k, w) ∷ special) d name n =
    insert_all-lookup special (insert k w d) name (λ m. n (inr m))
    ∙ lookup-insert k name w d
    ∙ ground (arith, string_eq.beq_iff k name, (λ (z : k ≡ name). n (inl (sym z))))

-- If get_state_op_widths succeeds on a state space that is a dictionary, an operand of it without
-- a declared width, and not one of those with a special width, gets a width w, and each of its
-- values is below 2^w.
pub get_state_op_widths-lt :
    (storage widths : Dict String ℕ) (state_space : Space) (name : String) (vals : List ℕ) (v : ℕ)
    → IsDict state_space
    → get_state_op_widths storage state_space ≡ ok widths
    → lookup name state_space ≡ some vals
    → lookup name storage ≡ none
    → ¬ (Elem name (keys special_widths))
    → Elem v vals
    → (w : ℕ) × (lookup name widths ≡ some w) × (v < 2 ^ w)
unfolding get_state_op_widths width_of
get_state_op_widths-lt storage widths space name vals v d e k undeclared plain m =
    let (out, made, z) = >>=-eq-ok (widths_from storage space []) _ e in
    let same : insert_all special_widths out ≡ widths = ground arith in
    let (w, at, h) = widths_from-lookup storage space [] out name vals d made k in
    (
      w,
      subst (λ x. lookup name x ≡ some w) same
          (insert_all-lookup special_widths out name plain ∙ at),
      width_of_values-lt vals w v (rw undeclared at h) m,
    )
