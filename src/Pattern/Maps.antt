-- ===== src/Pattern/Maps.antt =====
-- `get_constraints_lu_table` of pysrc/ild_cdict.py: the dictionaries of all maps and opcodes of one
-- encoding space. The opcodes are numbers here, and hexadecimal strings in the source.
use mathlib.Core.Path.{subst}
use xed.Base.{
  ℕ, ◌<◌, ◌≡◌, ◌⊎◌, sym, ◌∙◌, inl, inr, String, false, Option, none, some, List, [], ◌∷◌, arith,
  Result, ok, ◌>>=◌, >>=-eq-ok, Bool-cases, Elem, eqb, eqb_iff, nat_eq, string_eq, range_from,
  Elem-range_from,
}
use xed.Base.Dict.{Dict, lookup, insert, lookup-insert, lookup-insert_self}
use xed.Cdict.{Space, Cdict}
use xed.Pattern.{Pattern, set_of}
use xed.Pattern.Replace.{get_united_cdict}

-- a dictionary, or none, for each opcode
abbrev pub Row : Type 0
Row = Dict ℕ (Option (Cdict Pattern))

module _ (ptrns_by_map_opcode : String → ℕ → List Pattern) (state_space : Space) (vexvalid : ℕ)
    (all_ops_widths : Dict String ℕ) where
  unfoldable pub fill_opcodes : String → List ℕ → Row → Result Row
  unfolding get_united_cdict insert
  fill_opcodes insn_map [] row = ok row
  fill_opcodes insn_map (opcode ∷ opcodes) row =
      get_united_cdict (ptrns_by_map_opcode insn_map opcode) state_space vexvalid all_ops_widths
      >>= λ cdict. fill_opcodes insn_map opcodes (insert opcode cdict row)

  unfoldable pub fill_maps : List String → Dict String Row → Result (Dict String Row)
  unfolding fill_opcodes insert
  fill_maps [] table = ok table
  fill_maps (insn_map ∷ maps) table = fill_opcodes insn_map (range_from 0 256) [] >>= λ row.
      fill_maps maps (insert insn_map row table)

  -- the names of a row's dictionaries
  names_of_row : Row → List String → List String
  unfolding set_of
  names_of_row [] cnames = cnames
  names_of_row ((opcode, none) ∷ row) cnames = names_of_row row cnames
  names_of_row ((opcode, some cdict) ∷ row) cnames = names_of_row row (set_of cdict.cnames cnames)

  names_of : Dict String Row → List String → List String
  unfolding names_of_row
  names_of [] cnames = cnames
  names_of ((insn_map, row) ∷ table) cnames = names_of table (names_of_row row cnames)

  -- The set of names is collected after the loop.
  unfoldable pub get_constraints_lu_table : List String → Result (Dict String Row × List String)
  unfolding fill_maps names_of
  get_constraints_lu_table maps = fill_maps maps [] >>= λ table. ok (table, names_of table [])

  -- the dictionary at an opcode is that of its patterns
  abbrev pub IsAt : String → ℕ → Row → Type 0
  IsAt insn_map opcode row =
      (c : Option (Cdict Pattern)) × (lookup opcode row ≡ some c)
      × (get_united_cdict (ptrns_by_map_opcode insn_map opcode) state_space vexvalid all_ops_widths
          ≡ ok c)

  fill_opcodes-IsAt :
      (insn_map : String) (opcodes : List ℕ) (row out : Row) (opcode : ℕ)
      → fill_opcodes insn_map opcodes row ≡ ok out
      → Elem opcode opcodes ⊎ IsAt insn_map opcode row
      → IsAt insn_map opcode out
  unfolding fill_opcodes
  fill_opcodes-IsAt insn_map [] row out opcode e (inl m) = elim m [ ]
  fill_opcodes-IsAt insn_map [] row out opcode e (inr at) =
      let same : row ≡ out = ground arith in subst (IsAt insn_map opcode) same at
  fill_opcodes-IsAt insn_map (o ∷ opcodes) row out opcode e m =
      let (c, h, rest) =
        >>=-eq-ok
          (get_united_cdict (ptrns_by_map_opcode insn_map o) state_space vexvalid all_ops_widths) _
          e in
      fill_opcodes-IsAt insn_map opcodes (insert o c row) out opcode rest (next c h m)
    where
      kept :
          (c : Option (Cdict Pattern))
          → IsAt insn_map opcode row
          → (eqb o opcode ≡ false)
          → IsAt insn_map opcode (insert o c row)
      kept c (b, p, q) d = (b, lookup-insert o opcode c row ∙ ground arith, q)

      stored :
          (c : Option (Cdict Pattern))
          → get_united_cdict (ptrns_by_map_opcode insn_map o) state_space vexvalid all_ops_widths
            ≡ ok c
          → o ≡ opcode
          → IsAt insn_map opcode (insert o c row)
      stored c h at =
          subst (λ k. IsAt insn_map k (insert o c row)) at (c, lookup-insert_self o c row, h)

      next :
          (c : Option (Cdict Pattern))
          → get_united_cdict (ptrns_by_map_opcode insn_map o) state_space vexvalid all_ops_widths
            ≡ ok c
          → Elem opcode (o ∷ opcodes) ⊎ IsAt insn_map opcode row
          → Elem opcode opcodes ⊎ IsAt insn_map opcode (insert o c row)
      next c h (inl (inl at)) = inr (stored c h (sym at))
      next c h (inl (inr m)) = inl m
      next c h (inr at) = elim (Bool-cases (eqb o opcode)) [
        | inl p ↦ inr (stored c h ((eqb_iff o opcode).0 p))
        | inr p ↦ inr (kept c at p)
      ]

  -- every opcode below 256 of the map has its dictionary
  abbrev pub IsFull : String → Dict String Row → Type 0
  IsFull insn_map table =
      (row : Row) × (lookup insn_map table ≡ some row)
      × ((opcode : ℕ) → opcode < 256 → IsAt insn_map opcode row)

  fill_maps-IsFull :
      (maps : List String) (table out : Dict String Row) (insn_map : String)
      → fill_maps maps table ≡ ok out
      → Elem insn_map maps ⊎ IsFull insn_map table
      → IsFull insn_map out
  unfolding fill_maps
  fill_maps-IsFull [] table out insn_map e (inl m) = elim m [ ]
  fill_maps-IsFull [] table out insn_map e (inr f) =
      let same : table ≡ out = ground arith in subst (IsFull insn_map) same f
  fill_maps-IsFull (k ∷ maps) table out insn_map e m =
      let (row, h, rest) = >>=-eq-ok (fill_opcodes k (range_from 0 256) []) _ e in
      let full : (opcode : ℕ) → opcode < 256 → IsAt k opcode row = λ o lt.
        fill_opcodes-IsAt k (range_from 0 256) [] row o h
          (inl (Elem-range_from o 0 256 (omega arith) lt)) in
      fill_maps-IsFull maps (insert k row table) out insn_map rest (next row full m)
    where
      stored :
          (row : Row)
          → ((opcode : ℕ) → opcode < 256 → IsAt k opcode row)
          → k ≡ insn_map
          → IsFull insn_map (insert k row table)
      stored row full at =
          subst (λ n. IsFull n (insert k row table)) at (row, lookup-insert_self k row table, full)

      kept :
          (row : Row)
          → IsFull insn_map table
          → string_eq.beq k insn_map ≡ false
          → IsFull insn_map (insert k row table)
      kept row (r, p, q) d = (r, lookup-insert k insn_map row table ∙ ground arith, q)

      next :
          (row : Row)
          → ((opcode : ℕ) → opcode < 256 → IsAt k opcode row)
          → Elem insn_map (k ∷ maps) ⊎ IsFull insn_map table
          → Elem insn_map maps ⊎ IsFull insn_map (insert k row table)
      next row full (inl (inl at)) = inr (stored row full (sym at))
      next row full (inl (inr m)) = inl m
      next row full (inr f) = elim (Bool-cases (string_eq.beq k insn_map)) [
        | inl p ↦ inr (stored row full ((string_eq.beq_iff k insn_map).0 p))
        | inr p ↦ inr (kept row f p)
      ]

  -- If get_constraints_lu_table returns a table and a set of names, each map of its list has a
  -- row in the table, in which each opcode below 256 has what get_united_cdict returns for the
  -- patterns of that map and opcode.
  pub get_constraints_lu_table-IsFull :
      (maps : List String) (table : Dict String Row) (cnames : List String) (insn_map : String)
      → get_constraints_lu_table maps ≡ ok (table, cnames)
      → Elem insn_map maps
      → IsFull insn_map table
  unfolding get_constraints_lu_table
  get_constraints_lu_table-IsFull maps table cnames insn_map e m =
      let (out, h, rest) = >>=-eq-ok (fill_maps maps []) _ e in
      let same : out ≡ table = ground arith in
      subst (IsFull insn_map) same (fill_maps-IsFull maps [] out insn_map h (inl m))
