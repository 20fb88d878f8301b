-- ===== src/Graph/Slots.antt =====
-- The real positions of a pattern, and the bit that an input has to meet at one.
use mathlib.Core.Path.{subst}
use xed.Base.{
  ℕ, zero, suc, ◌+◌, ◌≤◌, ◌<◌, ◌≡◌, ◌↔◌, ◌⊎◌, inl, inr, refl, sym, ◌∙◌, some, List, [], ◌∷◌, arith,
  if◌then◌else◌, Elem, length, get_elem?,
}
use xed.Graph.{
  BitInfo, Store, real_bits, one_or_zero, dont_care, operand, nonterminal, is_operand_decider,
}
use xed.Graph.Read.{Input, Meets, Satisfies, behind}

pub get_elem?-lt :
    {A : Type 0} (n : ℕ) (xs : List A) → n < length xs → (a : A) × (get_elem? xs n ≡ some a)
get_elem?-lt n [] h = absurd (omega arith)
get_elem?-lt zero (x ∷ xs) h = (x, refl)
get_elem?-lt (suc n) (x ∷ xs) h = get_elem?-lt n xs (omega arith)

pub lt-get_elem? :
    {A : Type 0} (n : ℕ) (xs : List A) {a : A} → get_elem? xs n ≡ some a → n < length xs
lt-get_elem? n [] h = cc
lt-get_elem? zero (x ∷ xs) h = omega arith
lt-get_elem? (suc n) (x ∷ xs) h = omega (arith, lt-get_elem? n xs h)

abbrev pub width : BitInfo → ℕ
width b = if is_operand_decider b then 0 else 1

behind-eq : (b : BitInfo) (pos : ℕ) → behind b pos ≡ width b + pos
behind-eq (operand od) pos = omega arith
behind-eq (one_or_zero b) pos = omega arith
behind-eq (dont_care b) pos = omega arith
behind-eq (nonterminal b) pos = omega arith

pub real_bits-suc :
    (n : ℕ) (bits : List BitInfo) (b : BitInfo)
    → get_elem? bits n ≡ some b
    → real_bits (suc n) bits ≡ width b + real_bits n bits
unfolding real_bits
real_bits-suc n [] b h = cc
real_bits-suc zero (c ∷ bits) b h = let e : c ≡ b = ground arith in rw e refl
real_bits-suc (suc n) (c ∷ bits) b h = omega (arith, real_bits-suc n bits b h)

-- An input that meets the pattern meets each of its bits, at the real position of the bit.
pub Satisfies-Meets :
    (x : Input) (n pos : ℕ) (bits : List BitInfo) (b : BitInfo)
    → Satisfies x pos bits
    → get_elem? bits n ≡ some b
    → Meets x (real_bits n bits + pos) b
unfolding real_bits
Satisfies-Meets x n pos [] b s h = cc
Satisfies-Meets x zero pos (c ∷ bits) b s h =
    let e : c ≡ b = ground arith in
    let at : pos ≡ 0 + pos = omega arith in subst (λ p. Meets x p b) at (subst (Meets x pos) e s.0)
Satisfies-Meets x (suc n) pos (c ∷ bits) b s h =
    let at : real_bits n bits + behind c pos ≡ width c + real_bits n bits + pos =
      omega (arith, behind-eq c pos) in
    subst (λ p. Meets x p b) at (Satisfies-Meets x n (behind c pos) bits b s.1 h)

-- The patterns have the same length, the same real positions up to `n`, and are met by the same inputs.
abbrev pub IsSameTo : ℕ → List BitInfo → List BitInfo → Type 0
IsSameTo n bits bits' =
    (length bits ≡ length bits')
    × ((m : ℕ) → m ≤ n → real_bits m bits ≡ real_bits m bits')
    × ((x : Input) (pos : ℕ) → Satisfies x pos bits ↔ Satisfies x pos bits')

abbrev pub Kept : ℕ → Store → Store → Type 0
Kept n s t = (i : ℕ) → IsSameTo n (s i) (t i)

pub Kept-self : (n : ℕ) (s : Store) → Kept n s s
Kept-self n s i = (refl, λ m h. refl, λ x pos. (λ h. h, λ h. h))

pub Kept-trans : (n : ℕ) (s t u : Store) → Kept n s t → Kept n t u → Kept n s u
Kept-trans n s t u p q i =
    let (l, r, m) = p i in
    let (l', r', m') = q i in
    (
      l ∙ l',
      λ k h. r k h ∙ r' k h,
      λ x pos. (λ h. (m' x pos).0 ((m x pos).0 h), λ h. (m x pos).1 ((m' x pos).1 h)),
    )

pub Kept-weaken : (n k : ℕ) (s t : Store) → n ≤ k → Kept k s t → Kept n s t
Kept-weaken n k s t h p i = let (l, r, m) = p i in (l, λ j g. r j (omega arith), m)

-- The patterns reach the position, which is the same real position in all of them, as are those before.
pub record Aligned (n : ℕ) (s : Store) (ids : List ℕ) (pos : ℕ) : Type 0 where
  pub reach : (i : ℕ) → Elem i ids → n ≤ length (s i)
  pub position : (i : ℕ) → Elem i ids → real_bits n (s i) ≡ pos
  pub agree : (i j m : ℕ) → Elem i ids → Elem j ids → m ≤ n → real_bits m (s i) ≡ real_bits m (s j)

pub Aligned-Kept :
    (n : ℕ) (s t : Store) (ids : List ℕ) (pos : ℕ)
    → Kept n s t
    → Aligned n s ids pos
    → Aligned n t ids pos
Aligned-Kept n s t ids pos kept a = record {
  reach = λ i h. omega (arith, a.reach i h, (kept i).0);
  position = λ i h. sym ((kept i).1 n (omega arith)) ∙ a.position i h;
  agree = λ i j m h k le. sym ((kept i).1 m le) ∙ a.agree i j m h k le ∙ (kept j).1 m le;
}

pub Aligned-some :
    (n : ℕ) (s : Store) (ids some_ids : List ℕ) (pos : ℕ)
    → ((i : ℕ) → Elem i some_ids → Elem i ids)
    → Aligned n s ids pos
    → Aligned n s some_ids pos
Aligned-some n s ids some_ids pos sub a = record {
  reach = λ i h. a.reach i (sub i h);
  position = λ i h. a.position i (sub i h);
  agree = λ i j m h k le. a.agree i j m (sub i h) (sub j k) le;
}

pub Aligned-next :
    (n : ℕ) (s : Store) (ids : List ℕ) (pos w next : ℕ)
    → next ≡ pos + w
    → Aligned n s ids pos
    → ((i : ℕ) → Elem i ids → (b : BitInfo) × (get_elem? (s i) n ≡ some b) × (width b ≡ w))
    → Aligned (n + 1) s ids next
Aligned-next n s ids pos w next eq a bits =
    let e : suc n ≡ n + 1 = omega arith in
    subst (λ k. Aligned k s ids next) e
      (record {
        reach = λ i h. let (b, g, q) = bits i h in omega (arith, lt-get_elem? n (s i) g);
        position = λ i h. at i h;
        agree = λ i j m h k le. elim (le_split m le) [
          | inl low ↦ a.agree i j m h k low
          | inr top ↦ rw top (at i h ∙ sym (at j k))
        ];
      })
  where
    at : (i : ℕ) → Elem i ids → real_bits (suc n) (s i) ≡ next
    at i h = let (b, g, q) = bits i h in omega (arith, real_bits-suc n (s i) b g, a.position i h)

    le_split : (m : ℕ) → m ≤ suc n → (m ≤ n) ⊎ (m ≡ suc n)
    le_split m h = grind arith
