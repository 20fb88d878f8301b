-- ===== src/Lib.antt =====
-- The generator of the XED decoder: how the decoder finds the rule of an instruction.
--
-- XED's decoder is C code that Python programs (pysrc) write from the grammar of the instruction set.
-- For every encoding space, map and opcode the generator has some patterns, each with constraints
-- on operand values (for example MOD=3 or REXW=1). It makes a dictionary from the tuples of constraint
-- values to the pattern that the tuple selects, packs each tuple in an integer, the key, finds a hash
-- function that has no collision on the keys, and writes a table and a C function that packs the
-- operands of the instruction at hand, applies the hash, tests the entry, and returns the number of
-- the pattern, or 0. The development follows this path from the patterns to a run of the C code.
--
-- The parts:
--
-- Base: lists, dictionaries, results and numbers. A dict is an association list in insertion order,
--   and a list of its elements is a set. A call returns a Result: a value, or the exception that ends
--   the generator. genutil.die and the functions built on it are the error `die`. Base.Digits reads
--   numbers in texts of ASCII digits, as `int` does.
-- Hash: the hash functions (pysrc/xedhash.py, pysrc/hashlin.py, pysrc/hashfks.py, pysrc/hashmul.py,
--   and the trivial one of pysrc/ild_phash.py). The classes are constructors of one data type, and a
--   method has a clause for each class. Hash.Cexpr has the C expressions of emit_cexpr as data, and
--   `eval`, which runs them in unsigned 64-bit arithmetic; undefined behaviour is `none`. Hash.Perfect
--   has the tests of a function on a list of keys, and Hash.Find the searches, whose loops are finite
--   lists of candidates, tried in order; they need no fuel. Only ilog2 has fuel: n halvings of n.
-- Cdict: the dictionary of constraints (pysrc/ild_cdict.py, constraint_dict_t) and the packing of
--   tuples (pysrc/tup2int.py). The rule, ild.pattern_t, is a type that the model does not look into.
-- Phash: the tables (pysrc/ild_phash.py). Phash has the constructors of l1_phash_t and l2_phash_t,
--   Phash.Gen the choice of a hash function in gen_hash, and Phash.Emit the C functions that
--   gen_find_fos writes, as data, and their runs. The action of a rule is the return of a number,
--   `value rule`, a parameter; in the decoder it is the number of the pattern.
--
-- Pattern: the patterns of one map and opcode (pysrc/ild_cdict.py, _get_united_cdict and the functions
--   above it; pysrc/ild.py, pattern_t, of which the record has the attributes that are read here). The
--   patterns of one encoding space may have operands replaced by narrower ones (MOD by MOD3, VEXDEST210
--   by VEXDEST210_7, the three VEXDEST operands by VEXDEST_1F, RM by RM4, MASK by MASK_ZERO); then each
--   pattern gets its dictionary, and these are united. A set of names is a list without duplicates.
--   The functions write to the patterns in place before any dictionary is made, and the model returns
--   the written patterns. The disabled replacement of MASK by MASK_NOT0 is left out.
-- Encoder: the dictionary of the rules of one nonterminal of the encoder
--   (pysrc/constraint_vec_gen.py). It has the attributes of the decoder's dictionary, and the same search
--   for a hash function takes it.
-- Graph: the decision graph over the patterns of one nonterminal (pysrc/generator.py, bit_info_t and
--   graph_node to build_graph). Graph.Rearrange moves operand deciders, Graph.Partition splits by the
--   values of an operand, and Graph.Build has one step (`step`), the move that it decides on, and the
--   recursion, which takes fuel. The instructions are numbers, and their patterns, which are changed in
--   place and are shared, stand in a store that is passed on. Graph.Read says how an input takes its way
--   through the nodes. A nonterminal takes one position of the input, as it does in
--   convert_splitpos_to_bit_index, and the values of the operands are those at the tests, wherever the
--   deciders stand.
-- Pattern.Widths: the width of each operand in a key (pysrc/ild_cdict.py, get_state_op_widths); the
--   declared widths of agi.operand_storage are an argument.
-- Pattern.Maps: the table over all maps and opcodes (pysrc/ild_cdict.py, get_constraints_lu_table). The
--   list of maps, ild_info.get_maps(agi), is an argument.
-- Storage: the structure of the operand values (pysrc/operand_storage.py, operands_storage_t and
--   operands_bin_t). A line of the data files is the list of its words. Storage.emit gives the members of
--   the structure that emit writes; an operand that is packed is the one with `compressed` set. The
--   floating logarithm of the number of an enumeration's values is the exact one, as it is below 2^29. The
--   names of the members are those of the operands, put in lower case as ASCII texts.
-- Cpuid: the records of CPUID bits, their groups and the maps of them (pysrc/cpuid_rdr.py). A record's
--   text is a Match, which says which of the regular expressions matches it and with which groups; at
--   most one of them does. Cpuid.Files has the groups, the reading of a file and the map by name.
--   Cpuid.Valid is about the loading of one text, Cpuid.Groups about a file, and Cpuid.Names about the map.
-- Chips: the comparison of the chips' isa sets with those of the instructions, and the chips that
--   support a feature (pysrc/chipmodel.py). Chips.Hierarchy reads the chips and expands the references
--   between them; a word of a line says which pattern matches it, the fuel is the depth of the references,
--   and the intersection of sets, whose order Python leaves open, goes by the first one. Chips.Expanded
--   has what a chip's features are, Chips.Loops and Chips.Closed one expansion, and Chips.Recursion all.
-- Runs: the runs of letters in a bit pattern (pysrc/genutil.py, find_runs).
-- Tokens: the numbering of lists by their content (pysrc/hash_compare.py, hash_compare_t), whose state
--   is passed on explicitly.
-- Tests: dictionaries, tables and patterns on which the definitions run and the theorems are applied.
--
-- Not under the repository's Python code, and so parameters: the rounding of
-- int(math.ceil((1 + x/10.0)*n)) in floating point is the function `scaled`, of which the theorems ask
-- that it is at most 2n + 1 for x up to 10 (IsScaled). The tolerable sparsity 0.2 of hashlin is written
-- as a ratio of integers.
--
-- How the parts interact: create_tuple2int gives the dictionary its index (Cdict.Index.IsIndexed);
-- the searches return functions that are good for the keys (Phash.Level1.Scatters, or a linear function
-- that covers them, Phash.Serves.Covers); the constructors fill the tables (Phash.Fill.IsTable,
-- Phash.Bins.Binned); on such a table the emitted function is the lookup in the dictionary
-- (Phash.Serves.Serves, Phash.Level1.expected); and the united dictionary of the patterns is the lookup
-- of the pattern that the operand values are legal for (Pattern.United.Matches).
--
-- Not modelled: the text of the emitted C code, printing and statistics; the reading of the grammar;
-- the encoder's generator, whose tables have other actions; the C tables of the
-- chips; the C library.
pub mod Base
pub mod Hash
pub mod Cdict
pub mod Phash
pub mod Pattern
pub mod Encoder
pub mod Runs
pub mod Tokens
pub mod Chips
pub mod Graph
pub mod Storage
pub mod Cpuid
pub mod Tests
