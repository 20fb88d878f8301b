-- ===== src/Graph/Choices.antt =====
-- A split at an operand: the value of the operand chooses the child of each instruction that is met.
use mathlib.Core.Path.{subst}
use xed.Base.{
  ℕ, ◌+◌, ◌%◌, ◌≡◌, refl, sym, ap, ◌∙◌, inl, inr, Bool, true, false, none, some, List, [], ◌∷◌,
  arith, if◌then◌else◌, Elem, get_elem?, is_some, Bool-cases, ok, >>=-eq-ok,
}
use xed.Base.Dict.{lookup, IsDict}
use xed.Graph.{
  Decider, operand, Store, Token, other, value, token_eq, Info, new_node, all_same_operand_decider,
  decider_of,
}
use xed.Graph.Partition.{
  Spaces, Member, plain, Parts, partition_by_required_values, need_to_splatter, splatter, id_of,
  ids_of, last_trimmed, nodes_of, all_values_for, without,
}
use xed.Graph.Build.{Move, split, split_operand}
use xed.Graph.Read.{Input, Satisfies, InSpace, choose, Decided}
use xed.Graph.Slots.{Aligned, Aligned-next, Aligned-some, Satisfies-Meets}
use xed.Graph.Steps.{has_kid, Reaches, all_same_operand_decider-eq-some}
use xed.Graph.Placed.{In, Belongs, ArePlaced, partition-ArePlaced, without-Elem}
use xed.Graph.Splattered.{splatter_all-Lands, need_to_splatter-Apart}
use xed.Graph.Kids.{IsFresh, new_node-IsFresh, choose-eq}
use xed.Graph.Splits.{IsMove}

lookup-nodes_of :
    (k : ℕ) (t : Token) (d : Parts) (ms : List Member)
    → lookup t d ≡ some ms
    → lookup t (nodes_of k d) ≡ some (new_node t k (last_trimmed ms none) (ids_of ms)).1
unfolding lookup
lookup-nodes_of k t [] ms h = cc
lookup-nodes_of k t ((j, ns) ∷ d) ms h = elim (Bool-cases (token_eq.beq j t)) [
  | inl e ↦
      let at : j ≡ t = (token_eq.beq_iff j t).0 e in
      let same : ns ≡ ms = some_inj (rw (lookup, e) at h) in
      rw (lookup, e)
        (ap (λ l. some (new_node j k (last_trimmed l none) (ids_of l)).1) same
          ∙ ap (λ u. some (new_node u k (last_trimmed ms none) (ids_of ms)).1) at)
  | inr e ↦ rw (lookup, e) (lookup-nodes_of k t d ms (rw (lookup, e) at h))
]
  where
    some_inj : {x y : List Member} → some x ≡ some y → x ≡ y
    some_inj h = ground arith

has_kid-nodes_of : (k : ℕ) (t : Token) (d : Parts) → has_kid t (nodes_of k d) ≡ is_some (lookup t d)
unfolding lookup
has_kid-nodes_of k t [] = refl
has_kid-nodes_of k t ((j, ns) ∷ d) = elim (Bool-cases (token_eq.beq j t)) [
  | inl e ↦ rw (lookup, e) refl
  | inr e ↦ rw (lookup, e) (has_kid-nodes_of k t d)
]

pub nodes_of-IsFresh :
    (k : ℕ) (d : Parts) (t : Token) (child : Info) → Elem (t, child) (nodes_of k d) → IsFresh child
nodes_of-IsFresh k [] t child m = elim m [ ]
nodes_of-IsFresh k ((j, ms) ∷ d) t child (inl e) =
    subst IsFresh (sym (ap (λ q. q.1) e)) (new_node-IsFresh j k (last_trimmed ms none) (ids_of ms))
nodes_of-IsFresh k ((j, ms) ∷ d) t child (inr m) = nodes_of-IsFresh k d t child m

id_of-Elem : (m : Member) (ms : List Member) → Elem m ms → Elem (id_of m) (ids_of ms)
id_of-Elem m [] h = elim h [ ]
id_of-Elem m (n ∷ ms) (inl e) = inl (ap id_of e)
id_of-Elem m (n ∷ ms) (inr h) = inr (id_of-Elem m ms h)

ids_of-Elem :
    (i : ℕ) (ms : List Member) → Elem i (ids_of ms) → (m : Member) × Elem m ms × (i ≡ id_of m)
ids_of-Elem i [] h = elim h [ ]
ids_of-Elem i (n ∷ ms) (inl e) = (n, inl refl, e)
ids_of-Elem i (n ∷ ms) (inr h) = let (m, k, e) = ids_of-Elem i ms h in (m, inr k, e)

-- the key that a value chooses
abbrev key : ℕ → Parts → Token
key v d = if is_some (lookup (value v) d) then value v else other

abbrev IsFound : ℕ → ℕ → Parts → Type 0
IsFound v i d = (m : Member) × In (key v d) m d × (id_of m ≡ i)

IsFound-value : (v i : ℕ) (m : Member) (d : Parts) → id_of m ≡ i → In (value v) m d → IsFound v i d
IsFound-value v i m d q (ms, e, h) =
    let chosen : value v ≡ key v d = rw e refl in (m, subst (λ t. In t m d) chosen (ms, e, h), q)

IsFound-other :
    (v i : ℕ) (m : Member) (d : Parts)
    → id_of m ≡ i
    → lookup (value v) d ≡ none
    → In other m d
    → IsFound v i d
IsFound-other v i m d q n h =
    let chosen : other ≡ key v d = rw n refl in (m, subst (λ t. In t m d) chosen h, q)

abbrev pub all_parts : Parts → Parts
all_parts d = if need_to_splatter d then splatter d [] else d

module _ (sp : Spaces) (ids : List ℕ) (d : Parts) where
  -- An instruction whose decider accepts the value is found by it.
  Belongs-IsFound :
      (i v : ℕ) (o : Decider) (b : Bool)
      → IsDict d
      → ((t : Token) (m : Member) → In t m d → Elem (id_of m) ids)
      → Belongs sp i o b d
      → Decided b v o.requirement
      → ((all : List ℕ) → all_values_for sp o.token ≡ ok all → Elem v all)
      → IsFound v i (all_parts d)
  Belongs-IsFound i v o true w from here met space =
      let there : In (value v) (plain i) d = subst (λ u. In (value u) (plain i) d) (sym met) here in
      elim (Bool-cases (need_to_splatter d)) [
        | inr e ↦
            subst (λ b. IsFound v i (if b then splatter d [] else d)) (sym e)
              (IsFound-value v i (plain i) d refl there)
        | inl e ↦
            subst (λ b. IsFound v i (if b then splatter d [] else d)) (sym e)
              (IsFound-value v i (plain i) _ refl
                ((splatter_all-Lands ids d w from).2 (value v) (plain i) there))
      ]
  Belongs-IsFound i v o false w from (all, e, here) met space =
      let left : Elem v (without o.requirement all) =
        (without-Elem v o.requirement all).1 (space all e, met) in
      elim (Bool-cases (need_to_splatter d)) [
        | inr q ↦
            subst (λ b. IsFound v i (if b then splatter d [] else d)) (sym q)
              (IsFound-other v i _ d refl (need_to_splatter-Apart d other _ i v q here left) here)
        | inl q ↦
            subst (λ b. IsFound v i (if b then splatter d [] else d)) (sym q)
              (IsFound-value v i (plain i) _ refl
                ((splatter_all-Lands ids d w from).2 other _ here v left))
      ]

  all_parts-from :
      IsDict d
      → ((t : Token) (m : Member) → In t m d → Elem (id_of m) ids)
      → (t : Token) (m : Member) → In t m (all_parts d)
      → Elem (id_of m) ids
  all_parts-from w from = elim (Bool-cases (need_to_splatter d)) [
    | inl e ↦ rw e (splatter_all-Lands ids d w from).1
    | inr e ↦ rw e from
  ]

pub all_parts-IsDict :
    (ids : List ℕ) (d : Parts)
    → IsDict d
    → ((t : Token) (m : Member) → In t m d → Elem (id_of m) ids)
    → IsDict (all_parts d)
all_parts-IsDict ids d w from = elim (Bool-cases (need_to_splatter d)) [
  | inl e ↦ rw e (splatter_all-Lands ids d w from).0
  | inr e ↦ rw e w
]

module _ (sp : Spaces) (s : Store) (n : ℕ) (info : Info) (p : ℕ)
    (aligned : Aligned n s info.instructions p) (od : Decider)
    (same : all_same_operand_decider s n none info.instructions ≡ some od) where
  operand-Aligned :
      (l : List ℕ) → ((i : ℕ) → Elem i l → Elem i info.instructions) → Aligned (n + 1) s l p
  operand-Aligned l sub =
      Aligned-next n s l p 0 p (omega arith) (Aligned-some n s info.instructions l p sub aligned)
        (λ i m.
          let (o, e, t) =
            all_same_operand_decider-eq-some s n info.instructions od i same (sub i m) in
          (operand o, e, refl))

  -- the child of the value
  IsFound-Reaches :
      (d : Parts) (i v : ℕ)
      → ((t : Token) (m : Member) → In t m d → Elem (id_of m) info.instructions)
      → IsFound v i d
      → Reaches s (nodes_of (n % 8) d) (n + 1) i (key v d, p)
  IsFound-Reaches d i v from (m, (ms, e, h), q) = (
    (new_node (key v d) (n % 8) (last_trimmed ms none) (ids_of ms)).1,
    lookup-nodes_of (n % 8) (key v d) d ms e,
    subst (λ j. Elem j (ids_of ms)) q (id_of-Elem m ms h),
    operand-Aligned (ids_of ms) (λ j k.
        let (x, g, r) = ids_of-Elem j ms k in
        subst (λ y. Elem y info.instructions) (sym r) (from (key v d) x (ms, e, g))),
  )

  found :
      (d : Parts) (i : ℕ) (x : Input)
      → ArePlaced sp s n od.token info.instructions d
      → ((o : Decider) → decider_of (get_elem? (s i) n) ≡ some o → Belongs sp i o o.is_eq d)
      → Elem i info.instructions
      → InSpace sp x
      → Satisfies x 0 (s i)
      → IsFound (x.operand_value od.token) i (all_parts d)
  found d i x placed belongs m space sat =
      let (o, e, t) = all_same_operand_decider-eq-some s n info.instructions od i same m in
      let met : Decided o.is_eq (x.operand_value o.token) o.requirement =
        Satisfies-Meets x n 0 (s i) (operand o) sat e in
      let here : Belongs sp i o o.is_eq d = belongs o (ap decider_of e) in
      subst (λ u. IsFound (x.operand_value u) i (all_parts d)) t
        (Belongs-IsFound sp info.instructions d i (x.operand_value o.token) o o.is_eq placed.dict
          placed.from here met (λ all g. space o.token all g))

  pub split_operand-IsMove :
      (mv : Move)
      → IsFresh info
      → split_operand sp s n info od ≡ ok mv
      → IsMove sp s n info p aligned mv
  unfolding split_operand
  split_operand-IsMove mv fresh h =
      let ((d, values), e, r) =
        >>=-eq-ok (partition_by_required_values sp s n od.token info.instructions) _ h in
      let (placed, belongs) = partition-ArePlaced sp s n od.token info.instructions d values e in
      let info' : Info = record info { operand_decider = some od; child_od_key_values = values } in
      let kids = nodes_of (n % 8) (all_parts d) in
      let moved : split info' kids (n + 1) ≡ mv = ok_inj (split info' kids (n + 1)) r in
      subst (IsMove sp s n info p aligned) moved (
        refl,
        λ i x m space sat. subst (Reaches s kids (n + 1) i) (chosen d info' x fresh.nt refl) (
            IsFound-Reaches (all_parts d) i (x.operand_value od.token)
              (all_parts-from sp info.instructions d placed.dict placed.from)
              (found d i x placed (λ o g. belongs i o m g) m space sat)),
      )
    where
      ok_inj : {y : Move} (x : Move) → ok x ≡ ok y → x ≡ y
      ok_inj x h = ground arith

      chosen :
          (d : Parts) (info' : Info) (x : Input)
          → info'.nt ≡ none
          → info'.operand_decider ≡ some od
          → (key (x.operand_value od.token) (all_parts d), p)
            ≡ choose x p (λ t. has_kid t (nodes_of (n % 8) (all_parts d))) info'
      chosen d info' x nt o =
          let v = x.operand_value od.token in
          let has = λ (t : Token). has_kid t (nodes_of (n % 8) (all_parts d)) in
          ap (λ b. ((if b then value v else other), p))
            (sym (has_kid-nodes_of (n % 8) (value v) (all_parts d)))
          ∙ choose-eq x p has info' {back = info'.back_split_pos} refl nt o
