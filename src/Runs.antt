-- ===== src/Runs.antt =====
-- pysrc/genutil.py, `find_runs`: the runs of equal letters in a bit pattern, for pysrc/scatter.py.
use mathlib.Core.Path.{subst}
use xed.Base.{
  ℕ, zero, suc, ◌+◌, ◌<◌, ◌≡◌, ◌≢◌, refl, sym, ap, ◌∙◌, inl, inr, List, [], ◌∷◌, ◌++◌, arith, Eq,
  if◌then◌else◌, Bool-cases,
}

module _ {A : Type 0} ⦃e : Eq A⦄ where
  -- The loop, after a letter `last` that has been seen `run` times.
  unfoldable pub runs_from : A → ℕ → List A → List (A × ℕ)
  runs_from last run [] = (last, run) ∷ []
  runs_from last run (b ∷ blist) =
      let same = runs_from b (run + 1) blist in
      let next = runs_from b 1 blist in if e.beq b last then same else (last, run) ∷ next

  unfoldable pub find_runs : List A → List (A × ℕ)
  unfolding runs_from
  find_runs [] = []
  find_runs (b ∷ blist) = runs_from b 1 blist

module _ {A : Type 0} where
  abbrev pub repeat : ℕ → A → List A
  repeat zero a = []
  repeat (suc n) a = a ∷ repeat n a

  -- the letters that runs stand for
  abbrev pub spell : List (A × ℕ) → List A
  spell [] = []
  spell ((a, n) ∷ runs) = repeat n a ++ spell runs

  -- Neighbours differ, and no run is empty.
  abbrev pub StartsOther : A → List (A × ℕ) → Type 0
  StartsOther a [] = Unit
  StartsOther a ((b, n) ∷ runs) = a ≢ b

  abbrev pub AreMaximal : List (A × ℕ) → Type 0
  AreMaximal [] = Unit
  AreMaximal ((a, n) ∷ runs) = (0 < n) × StartsOther a runs × AreMaximal runs

  repeat-suc : (n : ℕ) (a : A) (rest : List A) → repeat n a ++ a ∷ rest ≡ repeat (suc n) a ++ rest
  repeat-suc zero a rest = refl
  repeat-suc (suc n) a rest = ap (λ l. a ∷ l) (repeat-suc n a rest)

module _ {A : Type 0} ⦃e : Eq A⦄ where
  first_run :
      (last : A) (run : ℕ) (bs : List A)
      → (n : ℕ) × (runs : List (A × ℕ)) × (runs_from last run bs ≡ (last, n) ∷ runs)
  unfolding runs_from
  first_run last run [] = (run, [], refl)
  first_run last run (b ∷ bs) = elim (Bool-cases (e.beq b last)) [
    | inl p ↦
        let (n, runs, q) = first_run b (run + 1) bs in
        (n, runs, rw p (q ∙ ap (λ a. (a, n) ∷ runs) ((e.beq_iff b last).0 p)))
    | inr p ↦ (run, runs_from b 1 bs, rw p refl)
  ]

  runs_from-spell :
      (last : A) (run : ℕ) (bs : List A)
      → 0 < run
      → (spell (runs_from last run bs) ≡ repeat run last ++ bs) × AreMaximal (runs_from last run bs)
  unfolding runs_from
  runs_from-spell last run [] h = (refl, (h, tt, tt))
  runs_from-spell last run (b ∷ bs) h = elim (Bool-cases (e.beq b last)) [
    | inl p ↦
        let at : b ≡ last = (e.beq_iff b last).0 p in
        let (s, m) = runs_from-spell b (run + 1) bs (omega arith) in rw p (s ∙ again b at, m)
    | inr p ↦
        let (s, m) = runs_from-spell b 1 bs (omega arith) in
        let (n, runs, q) = first_run b 1 bs in
        let other : last ≢ b = λ z. ground (arith, e.beq_iff b last, sym z) in
        rw p (ap (λ l. repeat run last ++ l) s, (h, subst (StartsOther last) (sym q) other, m))
  ]
    where
      again : (b : A) → b ≡ last → repeat (run + 1) b ++ bs ≡ repeat run last ++ b ∷ bs
      again b at =
          let more : suc run ≡ run + 1 = omega arith in
          subst (λ a. repeat (run + 1) b ++ bs ≡ repeat run a ++ b ∷ bs) at
            (sym (repeat-suc run b bs ∙ ap (λ (n : ℕ). repeat n b ++ bs) more))

  -- The runs of a list of letters, written out, are the list; no run is empty, and neighbouring
  -- runs have different letters.
  pub find_runs-spell : (bs : List A) → (spell (find_runs bs) ≡ bs) × AreMaximal (find_runs bs)
  unfolding find_runs
  find_runs-spell [] = (refl, tt)
  find_runs-spell (b ∷ bs) = runs_from-spell b 1 bs (omega arith)
