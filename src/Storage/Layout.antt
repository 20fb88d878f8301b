-- ===== src/Storage/Layout.antt =====
-- The members of the structure: one for each operand, with room for its values.
use mathlib.Core.Path.{subst}
use xed.Base.{
  ℕ, ◌≤◌, ◌≡◌, refl, inl, inr, Bool, true, false, Option, none, some, List, [], ◌∷◌, ◌++◌, map,
  arith, if◌then◌else◌, Elem, leb, leb→le, Bool-cases, ok, String, string_eq, Elem-map,
  Elem-append_left, Elem-append_cases, Elem-append_right, ◌⊎◌,
}
use xed.Base.Sort.{sorted, Elem-sorted}
use xed.Storage.{
  OperandField, Bin, Member, is_candidate, add_operand, operand_fits, place_operand_in_bin,
  partition_from, partition_to_bins, by_name, by_bitwidth, sort_cmp_operands,
  get_candidates_for_compression, compress_operands, un_compressed, lower, plain_member, bit_field,
  bin_members, layout, type_in_storage,
}
use xed.Storage.Packed.{contents, with_bit_field}

abbrev pub bits_of_type : String → ℕ
bits_of_type t =
    if string_eq.beq t "xed_uint8_t"
    then 8
    else if string_eq.beq t "xed_uint16_t"
    then 16
    else if string_eq.beq t "xed_uint32_t"
    then 32
    else if string_eq.beq t "xed_uint64_t"
    then 64
    else 0

abbrev pub bits_of_ctype : Option String → ℕ
bits_of_ctype none = 0
bits_of_ctype (some t) = bits_of_type t

abbrev pub capacity_of : Option ℕ → Option String → ℕ
capacity_of none ctype = bits_of_ctype ctype
capacity_of (some bits) ctype = bits

-- the bits that a member holds
abbrev pub capacity : Member → ℕ
capacity m = capacity_of m.bit_width m.ctype

pub type_in_storage-le :
    (width : ℕ) (t : String) → type_in_storage width ≡ ok t → width ≤ bits_of_type t
unfolding type_in_storage
type_in_storage-le width t h = elim (Bool-cases (leb width 8)) [
  | inl a ↦
      let p : "xed_uint8_t" ≡ t = ground arith in
      subst (λ x. width ≤ bits_of_type x) p (leb→le width 8 a)
  | inr a ↦ elim (Bool-cases (leb width 16)) [
    | inl b ↦
        let p : "xed_uint16_t" ≡ t = ground arith in
        subst (λ x. width ≤ bits_of_type x) p (leb→le width 16 b)
    | inr b ↦ elim (Bool-cases (leb width 32)) [
      | inl c ↦
          let p : "xed_uint32_t" ≡ t = ground arith in
          subst (λ x. width ≤ bits_of_type x) p (leb→le width 32 c)
      | inr c ↦ elim (Bool-cases (leb width 64)) [
        | inl d ↦
            let p : "xed_uint64_t" ≡ t = ground arith in
            subst (λ x. width ≤ bits_of_type x) p (leb→le width 64 d)
        | inr d ↦ absurd (ground arith)
      ]
    ]
  ]
]

-- an operand after its type is computed
abbrev pub IsStored : OperandField → Type 0
IsStored op = op.bitwidth ≤ bits_of_ctype op.storage_type

-- An operand keeps its place in the bins, or is put in one.
place-Elem :
    (op x : OperandField) (bins : List Bin)
    → (x ≡ op) ⊎ Elem x (contents bins)
    → Elem x (contents (place_operand_in_bin op bins))
unfolding place_operand_in_bin add_operand
place-Elem op x [] (inl e) = inl e
place-Elem op x [] (inr m) = absurd m
place-Elem op x (b ∷ bins) m = elim (Bool-cases (operand_fits op b)) [
  | inl e ↦ rw e (elim m [
    | inl here ↦
        Elem-append_left x (b.operands ++ op ∷ []) (contents bins)
          (Elem-append_right x b.operands (op ∷ []) (inl here))
    | inr t ↦ elim (Elem-append_cases x b.operands (contents bins) t) [
      | inl k ↦
          Elem-append_left x (b.operands ++ op ∷ []) (contents bins)
            (Elem-append_left x b.operands (op ∷ []) k)
      | inr k ↦ Elem-append_right x (b.operands ++ op ∷ []) (contents bins) k
    ]
  ])
  | inr e ↦ rw e (elim m [
    | inl here ↦
        Elem-append_right x b.operands (contents (place_operand_in_bin op bins))
          (place-Elem op x bins (inl here))
    | inr t ↦ elim (Elem-append_cases x b.operands (contents bins) t) [
      | inl k ↦ Elem-append_left x b.operands (contents (place_operand_in_bin op bins)) k
      | inr k ↦
          Elem-append_right x b.operands (contents (place_operand_in_bin op bins))
            (place-Elem op x bins (inr k))
    ]
  ])
]

partition_from-Elem :
    (ops : List OperandField) (bins : List Bin) (x : OperandField)
    → Elem x (map with_bit_field ops) ⊎ Elem x (contents bins)
    → Elem x (contents (partition_from ops bins))
unfolding partition_from
partition_from-Elem [] bins x (inl m) = absurd m
partition_from-Elem [] bins x (inr m) = m
partition_from-Elem (op ∷ ops) bins x m =
    let next = place_operand_in_bin (with_bit_field op) bins in
    partition_from-Elem ops next x (elim m [
      | inl (inl here) ↦ inr (place-Elem (with_bit_field op) x bins (inl here))
      | inl (inr later) ↦ inl later
      | inr k ↦ inr (place-Elem (with_bit_field op) x bins (inr k))
    ])

compress_operands-Elem :
    (ops : List OperandField) (op : OperandField)
    → Elem op (get_candidates_for_compression ops)
    → Elem (with_bit_field op) (contents (compress_operands ops))
unfolding compress_operands partition_to_bins sort_cmp_operands
compress_operands-Elem ops op m =
    let candidates = get_candidates_for_compression ops in
    partition_from-Elem (sort_cmp_operands candidates) [] (with_bit_field op) (
      inl (
        Elem-map with_bit_field op (sorted by_bitwidth (sorted by_name candidates)) (
          (Elem-sorted by_bitwidth op (sorted by_name candidates)).1
            ((Elem-sorted by_name op candidates).1 m))))

bin_members-Elem :
    (bins : List Bin) (x : OperandField)
    → Elem x (contents bins)
    → (t : String) × Elem (bit_field t x) (bin_members bins)
unfolding bin_members
bin_members-Elem [] x m = absurd m
bin_members-Elem (b ∷ bins) x m = elim (Elem-append_cases x b.operands (contents bins) m) [
  | inl k ↦ (
    b.storage_ctype,
    Elem-append_left (bit_field b.storage_ctype x) (map (bit_field b.storage_ctype) b.operands)
        (bin_members bins) (Elem-map (bit_field b.storage_ctype) x b.operands k),
  )
  | inr k ↦
      let (t, there) = bin_members-Elem bins x k in
      (
        t,
        Elem-append_right (bit_field t x) (map (bit_field b.storage_ctype) b.operands)
            (bin_members bins) there,
      )
]

-- An operand is a candidate or is not compressed.
Elem-parts :
    (ops : List OperandField) (op : OperandField)
    → Elem op ops
    → Elem op (get_candidates_for_compression ops) ⊎ Elem op (un_compressed ops)
unfolding get_candidates_for_compression un_compressed
Elem-parts [] op m = absurd m
Elem-parts (x ∷ ops) op m = elim (Bool-cases (is_candidate x)) [
  | inl e ↦ rw e (elim m [
    | inl here ↦ inl (inl here)
    | inr t ↦ elim (Elem-parts ops op t) [ inl k ↦ inl (inr k) | inr k ↦ inr k ]
  ])
  | inr e ↦ rw e (elim m [
    | inl here ↦ inr (inl here)
    | inr t ↦ elim (Elem-parts ops op t) [ inl k ↦ inl k | inr k ↦ inr (inr k) ]
  ])
]

Elem-sort_cmp_operands :
    (ops : List OperandField) (op : OperandField) → Elem op ops → Elem op (sort_cmp_operands ops)
unfolding sort_cmp_operands
Elem-sort_cmp_operands ops op m =
    (Elem-sorted by_bitwidth op (sorted by_name ops)).1 ((Elem-sorted by_name op ops).1 m)

-- a member that holds the bits of an operand
abbrev pub HasMember : String → ℕ → List Member → Type 0
HasMember name bits members = (m : Member) × Elem m members × (m.name ≡ name) × (bits ≤ capacity m)

pub layout-HasMember :
    (compressed : Bool) (ops : List OperandField) (op : OperandField)
    → Elem op ops
    → IsStored op
    → HasMember (lower op.name) op.bitwidth (layout compressed ops)
layout-HasMember true ops op m stored = elim (Elem-parts ops op m) [
  | inl k ↦
      let (t, there) =
        bin_members-Elem (compress_operands ops) (with_bit_field op)
          (compress_operands-Elem ops op k) in
      (
        bit_field t (with_bit_field op),
        Elem-append_right (bit_field t (with_bit_field op))
            (map plain_member (sort_cmp_operands (un_compressed ops)))
            (bin_members (compress_operands ops)) there,
        refl,
        omega arith,
      )
  | inr k ↦ (
    plain_member op,
    Elem-append_left (plain_member op) (map plain_member (sort_cmp_operands (un_compressed ops)))
        (bin_members (compress_operands ops))
        (Elem-map plain_member op (sort_cmp_operands (un_compressed ops))
          (Elem-sort_cmp_operands (un_compressed ops) op k)),
    refl,
    stored,
  )
]
layout-HasMember false ops op m stored = (
  plain_member op,
  Elem-map plain_member op (sort_cmp_operands ops) (Elem-sort_cmp_operands ops op m),
  refl,
  stored,
)
