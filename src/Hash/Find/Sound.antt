-- ===== src/Hash/Find/Sound.antt =====
-- What the searches for a hash function return, and when they return something.
use mathlib.Core.Path.{subst}
use xed.Base.{
  ℕ, ◌-◌, ◌*◌, ◌≤◌, ◌<◌, Bool, true, none, some, List, [], ◌∷◌, ◌≡◌, ◌≢◌, ◌&&◌, refl, inl, inr,
  arith, Elem, Bool-cases, length, ltb, if◌then◌else◌, range_from, range_from_bounds, IsUnique, map,
  &&-eq_true,
}
use xed.Base.Dict.{Dict}
use xed.Base.Search.{first_some-eq-some, first_some-ne-none}
use xed.Hash.{Hash, fks, apply, hash_fun_fks}
use xed.Hash.Perfect.{is_well_distributed}
use xed.Hash.Perfect.Unique.{is_perfect-IsUnique}
use xed.Hash.Find.{
  primes, max_k, l1_bucket_max, get_l1_mlist, try_fks, try_prime, try_size, search_fks,
  found_perfect, find_fks_perfect, find_fks_well_distributed,
}

all_pos : List ℕ → Bool
all_pos [] = true
all_pos (x ∷ xs) = ltb 0 x && all_pos xs

all_pos-Elem : (x : ℕ) (xs : List ℕ) → all_pos xs ≡ true → Elem x xs → 0 < x
unfolding all_pos
all_pos-Elem x [] h m = elim m [ ]
all_pos-Elem x (y ∷ xs) h (inl e) = ground arith
all_pos-Elem x (y ∷ xs) h (inr m) = all_pos-Elem x xs (&&-eq_true (ltb 0 y) (all_pos xs) h).1 m

primes_pos : (p : ℕ) → Elem p primes → 0 < p
primes_pos p = all_pos-Elem p primes (unfold all_pos in refl)

square_pos : (n : ℕ) → 0 < n → 0 < n * n
square_pos n h = grind arith

mlist_pos : (n m : ℕ) → 0 < n → Elem m (get_l1_mlist n) → 0 < m
unfolding get_l1_mlist
mlist_pos n m h e = ground (arith, square_pos n h)

-- The multiplier, the prime and the table size of an FKS function that a search made.
pub record IsFks (f : Hash) (k p m : ℕ) : Type 0 where
  pub made : f ≡ fks k p m
  pub prime_pos : 0 < p
  pub size_pos : 0 < m
  pub low : 3 ≤ k
  pub high : k < max_k

hash_fun_fks-IsFks :
    (k p m : ℕ)
    → 0 < p
    → 0 < m
    → 3 ≤ k
    → k < max_k
    → IsFks (hash_fun_fks k p m) k p (if ltb p m then p else m)
unfolding hash_fun_fks
hash_fun_fks-IsFks k p m hp hm lo hi = ground arith

pub try_fks-eq-some :
    (accept : Hash → Bool) (m p k : ℕ) (f : Hash)
    → try_fks accept m p k ≡ some f
    → (accept f ≡ true) × (hash_fun_fks k p m ≡ f)
try_fks-eq-some accept m p k f h = elim (Bool-cases (accept (hash_fun_fks k p m))) [
  | inl a ↦
      let e : hash_fun_fks k p m ≡ f = unfold try_fks in ground arith in
      (subst (λ g. accept g ≡ true) e a, e)
  | inr a ↦ unfold try_fks in ground arith
]

-- A function that the search returns was accepted, and is an FKS function with a table that is not
-- empty.
pub search_fks-eq-some :
    (accept : Hash → Bool) (n : ℕ) (f : Hash)
    → 0 < n
    → search_fks accept n ≡ some f
    → (accept f ≡ true) × ((k : ℕ) × (p : ℕ) × (m : ℕ) × IsFks f k p m)
search_fks-eq-some accept n f hn h =
    let (m, mm, hm) =
      first_some-eq-some (try_size accept) (get_l1_mlist n) f (unfold search_fks in h) in
    let (p, mp, hp) = first_some-eq-some (try_prime accept m) primes f (unfold try_size in hm) in
    let (k, mk, hk) =
      first_some-eq-some (try_fks accept m p) (range_from 3 (max_k - 3)) f
        (unfold try_prime in hp) in
    let bounds = range_from_bounds k 3 29 mk in
    let made = try_fks-eq-some accept m p k f hk in
    (
      made.0,
      (
        k,
        p,
        (if ltb p m then p else m),
        subst (λ g. IsFks g k p (if ltb p m then p else m)) made.1
            (hash_fun_fks-IsFks k p m (primes_pos p mp) (mlist_pos n m hn mm) bounds.0 bounds.1),
      ),
    )

-- The search finds a function whenever some size of the list for n, some prime of the table and
-- some factor from 3 to 31 give one that is accepted.
pub search_fks-ne-none :
    (accept : Hash → Bool) (n k p m : ℕ)
    → Elem m (get_l1_mlist n)
    → Elem p primes
    → Elem k (range_from 3 (max_k - 3))
    → accept (hash_fun_fks k p m) ≡ true
    → search_fks accept n ≢ none
search_fks-ne-none accept n k p m mm mp mk a =
    let found : try_fks accept m p k ≢ none = λ e. unfold try_fks in ground arith in
    let at_p : try_prime accept m p ≢ none =
      unfold try_prime in
      first_some-ne-none (try_fks accept m p) (range_from 3 (max_k - 3)) k mk found in
    let at_m : try_size accept m ≢ none =
      unfold try_size in first_some-ne-none (try_prime accept m) primes p mp at_p in
    unfold search_fks in first_some-ne-none (try_size accept) (get_l1_mlist n) m mm at_m

pub found_perfect-IsUnique :
    (keys : List ℕ) (f : Hash) → found_perfect keys f ≡ true → IsUnique (map (apply f) keys)
unfolding found_perfect
found_perfect-IsUnique keys f h = (is_perfect-IsUnique keys f).0 (λ e. ground arith)

-- On a list of keys that is not empty, a function that find_fks_perfect returns has different
-- hash values on all keys, and is an FKS function with a positive prime and size and a factor
-- from 3 to 31.
pub find_fks_perfect-eq-some :
    (keys : List ℕ) (f : Hash)
    → 0 < length keys
    → find_fks_perfect keys ≡ some f
    → IsUnique (map (apply f) keys) × ((k : ℕ) × (p : ℕ) × (m : ℕ) × IsFks f k p m)
find_fks_perfect-eq-some keys f h e =
    let (a, made) =
      search_fks-eq-some (found_perfect keys) (length keys) f h (unfold find_fks_perfect in e) in
    (found_perfect-IsUnique keys f a, made)

-- On a dictionary that is not empty, a function that find_fks_well_distributed returns passes the
-- test of distribution with the bound of 8, and is an FKS function with a positive prime and size
-- and a factor from 3 to 31.
pub find_fks_well_distributed-eq-some :
    (keylist : Dict (List ℕ) ℕ) (f : Hash)
    → 0 < length keylist
    → find_fks_well_distributed keylist ≡ some f
    → (is_well_distributed keylist f l1_bucket_max ≡ true)
      × ((k : ℕ) × (p : ℕ) × (m : ℕ) × IsFks f k p m)
find_fks_well_distributed-eq-some keylist f h e =
    search_fks-eq-some (λ g. is_well_distributed keylist g l1_bucket_max) (length keylist) f h
      (unfold find_fks_well_distributed in e)
