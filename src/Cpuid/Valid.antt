-- ===== src/Cpuid/Valid.antt =====
-- The texts that are loaded are those whose members are there and whose numbers fit.
use Prim.Native.String.{len}
use mathlib.Core.Path.{subst}
use xed.Base.{
  ◌+◌, ◌-◌, ◌^◌, ◌≤◌, ◌<◌, ◌≡◌, refl, sym, Bool, true, false, ◌&&◌, Option, none, some, arith, leb,
  leb→le, ltb, ltb→lt, &&-eq_true, ok, eqb, eqb_iff, ◌↔◌, ◌≢◌, le→leb, lt→ltb,
}
use native.Mathlib.Nat.{pow-le-pow_right}
use xed.Base.Digits.{bit_length, lt-pow-bit_length, bit_length-le}
use xed.Cpuid.{
  CpuidRecord, Numbers, numbers_of, numbers_fit, fits_in_bits, valid_self_members, Match,
  not_available, range_def, bit_def, old_def, no_match, matched, loaded_if, load_from_str,
  has_members,
}

-- The bits are of a 32-bit register, in order, and the value fits in them.
pub record IsInRange (n : Numbers) : Type 0 where
  pub order : n.start ≤ n.stop
  pub last : n.stop < 32
  pub fits : n.value < 2 ^ (n.stop - n.start + 1)

-- a record of XED's files
pub record IsRecord (r : CpuidRecord) : Type 0 where
  pub members : has_members r ≡ true
  pub reg_letters : len r.reg ≡ 3
  pub numbers : Numbers
  pub read : numbers_of r ≡ some numbers
  pub in_range : IsInRange numbers

fits_in_bits-IsInRange : (n : Numbers) → fits_in_bits n ≡ true → IsInRange n
unfolding fits_in_bits
fits_in_bits-IsInRange n h =
    let (early, short) =
      &&-eq_true (ltb n.start 32 && ltb n.stop 32 && leb n.start n.stop)
        (leb (bit_length n.value) (n.stop - n.start + 1)) h in
    let (both, order) = &&-eq_true (ltb n.start 32 && ltb n.stop 32) (leb n.start n.stop) early in
    let (start_lt, stop_lt) = &&-eq_true (ltb n.start 32) (ltb n.stop 32) both in
    let short_le = leb→le (bit_length n.value) (n.stop - n.start + 1) short in
    let grown : 2 ^ bit_length n.value ≤ 2 ^ (n.stop - n.start + 1) =
      pow-le-pow_right (omega arith) short_le in
    record {
      order = leb→le n.start n.stop order;
      last = ltb→lt n.stop 32 stop_lt;
      fits = omega (arith, lt-pow-bit_length n.value, grown);
    }

IsInRange→fits_in_bits : (n : Numbers) → IsInRange n → fits_in_bits n ≡ true
unfolding fits_in_bits
IsInRange→fits_in_bits n h =
    let short = bit_length-le n.value (n.stop - n.start + 1) h.fits in
    let first : ltb n.start 32 ≡ true = lt→ltb n.start 32 (omega (arith, h.order, h.last)) in
    let second : ltb n.stop 32 ≡ true = lt→ltb n.stop 32 h.last in
    let third : leb n.start n.stop ≡ true = le→leb n.start n.stop h.order in
    let fourth : leb (bit_length n.value) (n.stop - n.start + 1) ≡ true =
      le→leb (bit_length n.value) (n.stop - n.start + 1) short in
    rw first (rw second (rw third fourth))

numbers_fit-IsInRange :
    (o : Option Numbers) → numbers_fit o ≡ true → (n : Numbers) × (o ≡ some n) × IsInRange n
numbers_fit-IsInRange none h = absurd cc
numbers_fit-IsInRange (some n) h = (n, refl, fits_in_bits-IsInRange n h)

valid_self_members_iff : (r : CpuidRecord) → (valid_self_members r ≡ true) ↔ IsRecord r
unfolding valid_self_members
valid_self_members_iff r = (
  λ h.
      let (early, fit) =
        &&-eq_true (has_members r && eqb (len r.reg) 3) (numbers_fit (numbers_of r)) h in
      let (there, letters) = &&-eq_true (has_members r) (eqb (len r.reg) 3) early in
      let (n, e, ok_n) = numbers_fit-IsInRange (numbers_of r) fit in
      record {
        members = there;
        reg_letters = (eqb_iff (len r.reg) 3).0 letters;
        numbers = n;
        read = e;
        in_range = ok_n;
      },
  λ i.
      let letters : eqb (len r.reg) 3 ≡ true = (eqb_iff (len r.reg) 3).1 i.reg_letters in
      rw i.members (rw letters (rw i.read (IsInRange→fits_in_bits i.numbers i.in_range))),
)

loaded_if_iff :
    (b : Bool) (r s : CpuidRecord) → (loaded_if b r ≡ ok (true, s)) ↔ ((b ≡ true) × (r ≡ s))
loaded_if_iff true r s = (λ h. (refl, cc), λ p. rw (p.1) refl)
loaded_if_iff false r s = (λ h. absurd cc, λ p. absurd cc)

-- A record that a text is loaded as is the one that its pattern gives.
loaded_iff :
    (m : Match) (r : CpuidRecord)
    → m ≢ not_available
    → (loaded_if (valid_self_members (matched m)) (matched m) ≡ ok (true, r))
      ↔ ((m ≢ not_available) × (matched m ≡ r) × IsRecord r)
loaded_iff m r other =
    let (there, back) = loaded_if_iff (valid_self_members (matched m)) (matched m) r in
    (
      λ h.
          let (valid, e) = there h in
          (other, e, subst IsRecord e ((valid_self_members_iff (matched m)).0 valid)),
      λ p. back ((valid_self_members_iff (matched m)).1 (subst IsRecord (sym p.1) p.2), p.1),
    )

-- A text is loaded as a record exactly when it is not N/A and the members that its pattern gives
-- are those of the record, none of which is empty, with three letters for the register, bits that
-- are in order and below 32, and a value that fits between them.
pub load_from_str_iff :
    (m : Match) (r : CpuidRecord)
    → (load_from_str m ≡ ok (true, r)) ↔ ((m ≢ not_available) × (matched m ≡ r) × IsRecord r)
unfolding load_from_str
load_from_str_iff not_available r = (λ h. absurd cc, λ p. absurd (p.0 refl))
load_from_str_iff (range_def f l s g b e v) r = loaded_iff (range_def f l s g b e v) r (λ q. cc)
load_from_str_iff (bit_def f l s g b) r = loaded_iff (bit_def f l s g b) r (λ q. cc)
load_from_str_iff (old_def f l s g b) r = loaded_iff (old_def f l s g b) r (λ q. cc)
load_from_str_iff no_match r = loaded_iff no_match r (λ q. cc)
