-- ===== src/Tests/Runs.antt =====
-- The runs of a bit pattern.
use xed.Base.{◌≡◌, refl, [], ◌∷◌, List, nat_eq, string_eq, String}
use xed.Runs.{find_runs, spell, AreMaximal, find_runs-spell}

abbrev pattern_bits : List String
pattern_bits = "s" ∷ "s" ∷ "i" ∷ "i" ∷ "i" ∷ "b" ∷ []

find_runs_run : find_runs pattern_bits ≡ ("s", 2) ∷ ("i", 3) ∷ ("b", 1) ∷ []
unfolding find_runs
find_runs_run = refl

find_runs-spell_example :
    (spell (find_runs pattern_bits) ≡ pattern_bits) × AreMaximal (find_runs pattern_bits)
find_runs-spell_example = find_runs-spell pattern_bits
