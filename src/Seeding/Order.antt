-- ===== src/Seeding/Order.antt =====
-- The seed order of `standardSeedOrder`: its size, that it is a permutation of the seeds, and the
-- shape that its doublings give.
use joust_backend.Prelude.{
  ℕ, zero, suc, ◌+◌, ◌-◌, ◌*◌, ◌^◌, min, ◌≤◌, ◌<◌, ◌≡◌, refl, ap, ◌∙◌, List, [], ◌∷◌, ◌++◌, map,
  Perm, ltb, length, Bool-cases, ltb→le, lt→ltb, inl, inr, All, two_pow-suc, two_pow_strict,
  lt-two_pow, arith,
}
use mathlib.Core.List.{perm_middle}
use mathlib.Core.List.Perm
use joust_backend.Seeding.{expand, seed_loop, standard_seed_order}

length-expand : (n : ℕ) (order : List ℕ) → length (expand n order) ≡ length order * 2
unfolding expand
length-expand n [] = omega arith
length-expand n (s ∷ order) = omega (arith, length-expand n order)

size-le-seed_loop :
    (fuel size : ℕ) (order : List ℕ)
    → 0 < length order
    → size ≤ length order + fuel
    → size ≤ length (seed_loop fuel size order)
unfolding seed_loop
size-le-seed_loop zero size order p h = omega arith
size-le-seed_loop (suc fuel) size order p h =
    let longer = length-expand (length order * 2) order in
    elim (Bool-cases (ltb (length order) size)) [
      | inl more ↦ rw more (
          size-le-seed_loop fuel size (expand (length order * 2) order) (omega arith) (omega arith))
      | inr done ↦ rw done (ltb→le _ _ done)
    ]

-- The loop stops by its own test, not for want of fuel: the order has at least `size` seeds.
pub size-le-standard_seed_order : (size : ℕ) → size ≤ length (standard_seed_order size)
unfolding standard_seed_order
size-le-standard_seed_order size = size-le-seed_loop size size (1 ∷ []) (omega arith) (omega arith)

-- The order for a bracket of 2 ^ k slots, by recursion on the rounds.
pub seed_order : ℕ → List ℕ
seed_order zero = 1 ∷ []
seed_order (suc k) = expand (2 ^ suc k) (seed_order k)

pub length-seed_order : (k : ℕ) → length (seed_order k) ≡ 2 ^ k
unfolding seed_order
length-seed_order zero = refl
length-seed_order (suc k) =
    omega (arith, length-expand (2 ^ suc k) (seed_order k), length-seed_order k, two_pow-suc k)

seed_loop-seed_order :
    (d fuel j k : ℕ) → j + d ≡ k → d ≤ fuel → seed_loop fuel (2 ^ k) (seed_order j) ≡ seed_order k
unfolding seed_loop seed_order
seed_loop-seed_order zero zero j k e h = let same : j ≡ k = omega arith in rw same
seed_loop-seed_order zero (suc fuel) j k e h =
    let same : j ≡ k = omega arith in rw same (ground (arith, length-seed_order k))
seed_loop-seed_order (suc d) zero j k e h = elim h [ ]
seed_loop-seed_order (suc d) (suc fuel) j k e h =
    let less = two_pow_strict j k (omega arith) in
    let doubled : length (seed_order j) * 2 ≡ 2 ^ suc j =
      omega (arith, length-seed_order j, two_pow-suc j) in
    rw (lt→ltb (length (seed_order j)) (2 ^ k) (omega (arith, length-seed_order j)))
      (rw doubled (seed_loop-seed_order d fuel (suc j) k (omega arith) (omega arith)))

-- For a bracket of 2 ^ k slots the loop computes the order by recursion on the rounds.
pub standard_seed_order-seed_order : (k : ℕ) → standard_seed_order (2 ^ k) ≡ seed_order k
unfolding standard_seed_order seed_order
standard_seed_order-seed_order k =
    seed_loop-seed_order k (2 ^ k) 0 k (omega arith) (omega (arith, lt-two_pow k))

-- The seeds `from`, `from + 1`, …, `n` of them.
unfoldable pub seeds : ℕ → ℕ → List ℕ
seeds from zero = []
seeds from (suc n) = from ∷ seeds (suc from) n

seeds-append : (lo m n : ℕ) → seeds lo m ++ seeds (lo + m) n ≡ seeds lo (m + n)
unfolding seeds
seeds-append lo zero n =
    let here : lo + 0 ≡ lo = omega arith in
    let none_added : 0 + n ≡ n = omega arith in rw (here, none_added)
seeds-append lo (suc m) n =
    let shift : lo + suc m ≡ suc lo + m = omega arith in
    let more : suc m + n ≡ suc (m + n) = omega arith in
    rw (shift, more) (ap (◌∷◌ lo) (seeds-append (suc lo) m n))

seeds_last : (lo m : ℕ) → Perm (seeds lo (suc m)) ((lo + m) ∷ seeds lo m)
unfolding seeds
seeds_last lo zero = let e : lo + 0 ≡ lo = omega arith in rw e (Perm.refl _)
seeds_last lo (suc m) =
    let e : lo + suc m ≡ suc lo + m = omega arith in
    rw e (Perm.trans (Perm.cons lo (seeds_last (suc lo) m)) (Perm.swap (suc lo + m) lo _))

-- Seeds counted down from the top are the seeds below the top.
complements :
    (top lo m from : ℕ)
    → lo + m + from ≡ suc top
    → Perm (map (λ s. top - s) (seeds from m)) (seeds lo m)
unfolding seeds
complements top lo zero from h = Perm.nil
complements top lo (suc m) from h =
    let first : top - from ≡ lo + m = omega arith in
    rw first (
      Perm.trans (Perm.cons (lo + m) (complements top lo m (suc from) (omega arith)))
        (Perm.symm (seeds_last lo m)))

expand-perm : (n : ℕ) (order : List ℕ) → Perm (expand n order) (order ++ map (λ s. n + 1 - s) order)
unfolding expand
expand-perm n [] = Perm.nil
expand-perm n (s ∷ order) = Perm.cons s (
    Perm.trans (Perm.cons (n + 1 - s) (expand-perm n order))
      (Perm.symm (perm_middle order (map (λ t. n + 1 - t) order))))

seed_order-perm : (k : ℕ) → Perm (seed_order k) (seeds 1 (2 ^ k))
unfolding seed_order seeds
seed_order-perm zero = Perm.refl _
seed_order-perm (suc k) =
    let m = 2 ^ k in
    let n = 2 ^ suc k in
    let halves = Perm.append (seed_order-perm k) (
      Perm.trans (Perm.map (λ (s : ℕ). n + 1 - s) (seed_order-perm k))
        (complements (n + 1) (1 + m) m 1 (omega (arith, two_pow-suc k)))) in
    let whole : m + m ≡ n = omega (arith, two_pow-suc k) in
    let target = seeds-append 1 m m ∙ ap (seeds 1) whole in
    rw (← target) (Perm.trans (expand-perm n (seed_order k)) halves)

-- The order for a bracket of 2 ^ k slots is a permutation of the seeds 1, …, 2 ^ k.
pub standard_seed_order-perm : (k : ℕ) → Perm (standard_seed_order (2 ^ k)) (seeds 1 (2 ^ k))
standard_seed_order-perm k = rw (standard_seed_order-seed_order k) (seed_order-perm k)

-- Neighbours meet in the first round: the seeds of each pair add up to `total`.
abbrev pub PairsTo : ℕ → List ℕ → Type 0
PairsTo total [] = Unit
PairsTo total (s ∷ []) = ⊥
PairsTo total (s ∷ t ∷ order) = (s + t ≡ total) × PairsTo total order

abbrev pub InRange : ℕ → List ℕ → Type 0
InRange n = All (λ s. (1 ≤ s) × (s ≤ n))

expand-InRange : (m : ℕ) (order : List ℕ) → InRange m order → InRange (m * 2) (expand (m * 2) order)
unfolding expand
expand-InRange m [] h = tt
expand-InRange m (s ∷ order) (here, rest) =
    (omega arith, (omega arith, expand-InRange m order rest))

expand-PairsTo :
    (n m : ℕ) (order : List ℕ) → InRange m order → m ≤ n → PairsTo (n + 1) (expand n order)
unfolding expand
expand-PairsTo n m [] h le = tt
expand-PairsTo n m (s ∷ order) (here, rest) le = (omega arith, expand-PairsTo n m order rest le)

pub seed_order-InRange : (k : ℕ) → InRange (2 ^ k) (seed_order k)
unfolding seed_order
seed_order-InRange zero = omega arith
seed_order-InRange (suc k) = rw (two_pow-suc k) (expand-InRange (2 ^ k) _ (seed_order-InRange k))

-- In the first round of a bracket of n = 2 ^ (k + 1) slots seed s meets seed n + 1 - s.
pub standard_seed_order-PairsTo :
    (k : ℕ) → PairsTo (2 ^ suc k + 1) (standard_seed_order (2 ^ suc k))
unfolding seed_order
standard_seed_order-PairsTo k = rw (standard_seed_order-seed_order (suc k)) (
    expand-PairsTo (2 ^ suc k) (2 ^ k) (seed_order k) (seed_order-InRange k)
      (omega (arith, two_pow-suc k)))

-- The slots of the next round when the better seed wins each match.
pub better_seeds : List ℕ → List ℕ
better_seeds [] = []
better_seeds (s ∷ []) = s ∷ []
better_seeds (s ∷ t ∷ order) = min s t ∷ better_seeds order

better_seeds-expand :
    (m : ℕ) (order : List ℕ) → InRange m order → better_seeds (expand (m * 2) order) ≡ order
unfolding better_seeds expand
better_seeds-expand m [] h = refl
better_seeds-expand m (s ∷ order) (here, rest) =
    let first : min s (m * 2 + 1 - s) ≡ s = omega arith in
    rw (first, better_seeds-expand m order rest)

-- When the better seed always wins, a round leaves the standard order of the bracket of half the
-- size.
pub better_seeds-standard_seed_order :
    (k : ℕ) → better_seeds (standard_seed_order (2 ^ suc k)) ≡ standard_seed_order (2 ^ k)
unfolding seed_order
better_seeds-standard_seed_order k =
    rw (standard_seed_order-seed_order (suc k), standard_seed_order-seed_order k)
      (rw (two_pow-suc k) (better_seeds-expand (2 ^ k) (seed_order k) (seed_order-InRange k)))

-- The order for a bracket of 2 ^ k slots names only the seeds 1, …, 2 ^ k.
pub standard_seed_order-InRange : (k : ℕ) → InRange (2 ^ k) (standard_seed_order (2 ^ k))
standard_seed_order-InRange k = rw (standard_seed_order-seed_order k) (seed_order-InRange k)

pub length-standard_seed_order : (k : ℕ) → length (standard_seed_order (2 ^ k)) ≡ 2 ^ k
length-standard_seed_order k = ap length (standard_seed_order-seed_order k) ∙ length-seed_order k
