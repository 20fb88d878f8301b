-- ===== src/Storage/Packed.antt =====
-- The bins hold each candidate once, none is over 32 bits, and no two of them would fit in one.

use mathlib.Core.List.{Perm, append_assoc, append-nil, perm_middle}
use mathlib.Core.List.Perm
use xed.Base.{
  ℕ, ◌+◌, ◌≤◌, ◌<◌, ◌≡◌, refl, inl, inr, true, false, List, [], ◌∷◌, ◌++◌, map, arith, All, Elem,
  leb, leb→le, Bool-cases,
}
use xed.Base.Sort.{sorted, sorted-Perm, Elem-sorted}
use xed.Storage.{
  OperandField, Bin, new_bin, add_operand, operand_fits, place_operand_in_bin, partition_from,
  partition_to_bins, by_name, by_bitwidth, sort_cmp_operands, get_candidates_for_compression,
  compress_operands,
}

abbrev pub bits_of : List OperandField → ℕ
bits_of [] = 0
bits_of (op ∷ ops) = op.bitwidth + bits_of ops

-- the operands of the bins, in order
abbrev pub contents : List Bin → List OperandField
contents [] = []
contents (b ∷ bins) = b.operands ++ contents bins

abbrev pub with_bit_field : OperandField → OperandField
with_bit_field op = record op { compressed = true }

pub record IsBin (b : Bin) : Type 0 where
  pub limit : b.max_size ≡ 32
  pub filled : b.size ≡ bits_of b.operands
  pub within : b.size ≤ 32

-- no operand of a later bin fits in the first
abbrev IsClosedTo : ℕ → List OperandField → Type 0
IsClosedTo size ops = All (λ op. 32 < op.bitwidth + size) ops

abbrev pub AreTight : List Bin → Type 0
AreTight [] = Unit
AreTight (b ∷ bins) = All (λ c. IsClosedTo b.size c.operands) bins × AreTight bins

bits_of-append : (xs ys : List OperandField) → bits_of (xs ++ ys) ≡ bits_of xs + bits_of ys
bits_of-append [] ys = omega arith
bits_of-append (x ∷ xs) ys = omega (arith, bits_of-append xs ys)

IsClosedTo-append :
    (size : ℕ) (xs : List OperandField) (op : OperandField)
    → IsClosedTo size xs
    → 32 < op.bitwidth + size
    → IsClosedTo size (xs ++ op ∷ [])
IsClosedTo-append size [] op h lt = (lt, tt)
IsClosedTo-append size (x ∷ xs) op h lt = (h.0, IsClosedTo-append size xs op h.1 lt)

IsClosedTo-mono :
    (size more : ℕ) (xs : List OperandField) → size ≤ more → IsClosedTo size xs → IsClosedTo more xs
IsClosedTo-mono size more [] le h = tt
IsClosedTo-mono size more (x ∷ xs) le h = (omega (arith, h.0), IsClosedTo-mono size more xs le h.1)

closed_mono :
    (size more : ℕ) (bins : List Bin)
    → size ≤ more
    → All (λ c. IsClosedTo size c.operands) bins
    → All (λ c. IsClosedTo more c.operands) bins
closed_mono size more [] le h = tt
closed_mono size more (c ∷ bins) le h =
    (IsClosedTo-mono size more c.operands le h.0, closed_mono size more bins le h.1)

add_operand-IsBin :
    (op : OperandField) (b : Bin) → IsBin b → op.bitwidth + b.size ≤ 32 → IsBin (add_operand op b)
unfolding add_operand
add_operand-IsBin op b h le = record {
  limit = h.limit;
  filled = omega (arith, h.filled, bits_of-append b.operands (op ∷ []));
  within = omega arith;
}

module _ (op : OperandField) (small : op.bitwidth ≤ 32) where
  place-IsBin : (bins : List Bin) → All IsBin bins → All IsBin (place_operand_in_bin op bins)
  unfolding place_operand_in_bin
  place-IsBin [] h = (
    add_operand-IsBin op new_bin (record { limit = refl; filled = refl; within = omega arith })
        (omega arith),
    tt,
  )
  place-IsBin (b ∷ bins) h = elim (Bool-cases (operand_fits op b)) [
    | inr e ↦ rw e (h.0, place-IsBin bins h.1)
    | inl e ↦ rw e (add_operand-IsBin op b h.0 (fits (h.0.limit) e), h.1)
  ]
    where
      fits : b.max_size ≡ 32 → operand_fits op b ≡ true → op.bitwidth + b.size ≤ 32
      fits l e = omega (arith, leb→le (op.bitwidth + b.size) b.max_size (unfold operand_fits in e))

  -- An operand that does not fit in a bin may be placed behind it.
  place-closed :
      (size : ℕ) (bins : List Bin)
      → 32 < op.bitwidth + size
      → All (λ c. IsClosedTo size c.operands) bins
      → All (λ c. IsClosedTo size c.operands) (place_operand_in_bin op bins)
  unfolding place_operand_in_bin add_operand
  place-closed size [] lt h = ((lt, tt), tt)
  place-closed size (b ∷ bins) lt h = elim (Bool-cases (operand_fits op b)) [
    | inl e ↦ rw e (IsClosedTo-append size b.operands op h.0 lt, h.1)
    | inr e ↦ rw e (h.0, place-closed size bins lt h.1)
  ]

  place-AreTight :
      (bins : List Bin) → All IsBin bins → AreTight bins → AreTight (place_operand_in_bin op bins)
  unfolding place_operand_in_bin add_operand
  place-AreTight [] w h = (tt, tt)
  place-AreTight (b ∷ bins) w h = elim (Bool-cases (operand_fits op b)) [
    | inl e ↦ rw e (closed_mono b.size (b.size + op.bitwidth) bins (omega arith) h.0, h.1)
    | inr e ↦ rw e (place-closed b.size bins (full w.0.limit e) h.0, place-AreTight bins w.1 h.1)
  ]
    where
      full : b.max_size ≡ 32 → operand_fits op b ≡ false → 32 < op.bitwidth + b.size
      full l e =
          let f : leb (op.bitwidth + b.size) b.max_size ≡ false = (unfold operand_fits in e) in
          ground arith

place-Perm :
    (op : OperandField) (bins : List Bin)
    → Perm (contents (place_operand_in_bin op bins)) (op ∷ contents bins)
unfolding place_operand_in_bin add_operand
place-Perm op [] = Perm.refl (op ∷ [])
place-Perm op (b ∷ bins) = elim (Bool-cases (operand_fits op b)) [
  | inl e ↦ rw e (
      rw (append_assoc b.operands (op ∷ []) (contents bins))
        (perm_middle b.operands (contents bins)))
  | inr e ↦ rw e (
      Perm.trans (Perm.append_left b.operands (place-Perm op bins))
        (perm_middle b.operands (contents bins)))
]

-- The operands fit in a bin.
abbrev pub AreSmall : List OperandField → Type 0
AreSmall ops = (op : OperandField) → Elem op ops → op.bitwidth ≤ 32

pub partition_from-Perm :
    (ops : List OperandField) (bins : List Bin)
    → Perm (contents (partition_from ops bins)) (map with_bit_field ops ++ contents bins)
unfolding partition_from
partition_from-Perm [] bins = Perm.refl (contents bins)
partition_from-Perm (op ∷ ops) bins =
    Perm.trans (partition_from-Perm ops (place_operand_in_bin (with_bit_field op) bins)) (
      Perm.trans (Perm.append_left (map with_bit_field ops) (place-Perm (with_bit_field op) bins))
        (perm_middle (map with_bit_field ops) (contents bins)))

partition_from-AreTight :
    (ops : List OperandField) (bins : List Bin)
    → AreSmall ops
    → All IsBin bins
    → AreTight bins
    → All IsBin (partition_from ops bins) × AreTight (partition_from ops bins)
unfolding partition_from
partition_from-AreTight [] bins small w tight = (w, tight)
partition_from-AreTight (op ∷ ops) bins small w tight =
    let le = small op (inl refl) in
    partition_from-AreTight ops (place_operand_in_bin (with_bit_field op) bins)
      (λ o m. small o (inr m)) (place-IsBin (with_bit_field op) le bins w)
      (place-AreTight (with_bit_field op) le bins w tight)

pub sort_cmp_operands-Perm : (ops : List OperandField) → Perm (sort_cmp_operands ops) ops
unfolding sort_cmp_operands
sort_cmp_operands-Perm ops =
    Perm.trans (sorted-Perm by_bitwidth (sorted by_name ops)) (sorted-Perm by_name ops)

-- what the packing of the candidates gives
pub record IsPacking (candidates : List OperandField) (bins : List Bin) : Type 0 where
  pub bins_ok : All IsBin bins
  pub tight : AreTight bins
  pub all_placed : Perm (contents bins) (map with_bit_field candidates)

pub compress_operands-Perm :
    (ops : List OperandField)
    → Perm
        (contents (compress_operands ops))
        (map with_bit_field (get_candidates_for_compression ops))
unfolding compress_operands partition_to_bins
compress_operands-Perm ops =
    let candidates = get_candidates_for_compression ops in
    Perm.trans (partition_from-Perm (sort_cmp_operands candidates) [])
      (rw append-nil (Perm.map with_bit_field (sort_cmp_operands-Perm candidates)))

-- When no candidate is wider than 32 bits, each bin has the size of its operands, which is at
-- most 32, no operand of a later bin would fit in an earlier one, and the bins hold each
-- candidate once.
pub compress_operands-IsPacking :
    (ops : List OperandField)
    → AreSmall (get_candidates_for_compression ops)
    → IsPacking (get_candidates_for_compression ops) (compress_operands ops)
unfolding compress_operands partition_to_bins sort_cmp_operands
compress_operands-IsPacking ops small =
    let candidates = get_candidates_for_compression ops in
    let (w, tight) =
      partition_from-AreTight (sort_cmp_operands candidates) []
        (λ op m. small op (
          (Elem-sorted by_name op candidates).0
            ((Elem-sorted by_bitwidth op (sorted by_name candidates)).0 m)))
        tt tt in
    record { bins_ok = w; tight = tight; all_placed = compress_operands-Perm ops }
