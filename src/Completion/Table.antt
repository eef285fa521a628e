-- ===== src/Completion/Table.antt =====
-- The round robin of src/Formats/formats.service.ts gives every player one place in each round.
use joust_backend.Prelude.{
  ℕ, zero, suc, ◌+◌, ◌-◌, ◌/◌, ◌%◌, ◌≤◌, ◌≡◌, refl, ap, ◌∙◌, Option, none, some, List, [], ◌∷◌,
  ◌++◌, map, Bool, true, false, length, length-append, length-map, ◌==◌, ◌==?◌, if◌then◌else◌,
  arith,
}
use joust_backend.Prelude.{Bool-cases, inl, inr}
use joust_backend.Prelude.Dict.{Distinct, contains, same-contains}
use joust_backend.Completion.Start.{full_table, seat, without_last, last_of, rotate, table_pairs}

-- 1 where the player sits in this place.
abbrev here : ℕ → Option ℕ → ℕ
here p o = if o ==? some p then 1 else 0

-- The places that a player has.
unfoldable pub times : ℕ → List (Option ℕ) → ℕ
times p [] = 0
times p (o ∷ os) = here p o + times p os

pub times_paired : ℕ → List (Option ℕ × Option ℕ) → ℕ
times_paired p [] = 0
times_paired p (pair ∷ pairs) = here p pair.0 + here p pair.1 + times_paired p pairs

-- The sum of the values below k.
sum_to : (ℕ → ℕ) → ℕ → ℕ
sum_to f zero = 0
sum_to f (suc k) = sum_to f k + f k

sum_to_shift : (f : ℕ → ℕ) (k : ℕ) → sum_to f (suc k) ≡ f 0 + sum_to (λ j. f (suc j)) k
unfolding sum_to
sum_to_shift f zero = ground arith
sum_to_shift f (suc k) = ground (arith, sum_to_shift f k)

rest_of : (n h : ℕ) → suc h ≤ n → n - h ≡ suc (n - suc h)
rest_of n h le = omega arith

next_down : (n h : ℕ) → suc h ≤ n → n - 1 - h ≡ n - suc h
next_down n h le = omega arith

sum_to_ext : (f g : ℕ → ℕ) (k : ℕ) → ((j : ℕ) → f j ≡ g j) → sum_to f k ≡ sum_to g k
unfolding sum_to
sum_to_ext f g zero same = refl
sum_to_ext f g (suc k) same = ground (arith, same k, sum_to_ext f g k same)

-- From the start and from the end together, all are counted once.
sum_to_reverse :
    (f : ℕ → ℕ) (n h : ℕ) → h ≤ n → sum_to (λ j. f (n - 1 - j)) h + sum_to f (n - h) ≡ sum_to f n
unfolding sum_to
sum_to_reverse f n zero le = ground arith
sum_to_reverse f n (suc h) le = ground (
  arith,
  sum_to_reverse f n h (ground arith),
  ap (sum_to f) (rest_of n h le),
  ap f (next_down n h le),
)

sum_to_seats :
    (p : ℕ) (os : List (Option ℕ)) → sum_to (λ j. here p (seat os j)) (length os) ≡ times p os
unfolding sum_to times seat
sum_to_seats p [] = refl
sum_to_seats p (o ∷ os) =
    sum_to_shift (λ j. here p (seat (o ∷ os) j)) (length os)
    ∙ ap (λ n. here p o + n) (sum_to_seats p os)

table_pairs_sum :
    (p : ℕ) (os : List (Option ℕ)) (left i : ℕ)
    → times_paired p (table_pairs os left i)
      ≡ sum_to (λ j. here p (seat os (i + j))) left
        + sum_to (λ j. here p (seat os (length os - 1 - (i + j)))) left
unfolding sum_to times_paired table_pairs
table_pairs_sum p os zero i = refl
table_pairs_sum p os (suc left) i =
    let front : ℕ → ℕ = λ j. here p (seat os (i + j)) in
    let back : ℕ → ℕ = λ j. here p (seat os (length os - 1 - (i + j))) in
    let moved : (j : ℕ) → i + suc j ≡ suc i + j = λ j. omega arith in
    let start : i + 0 ≡ i = omega arith in
    ground (
      arith,
      table_pairs_sum p os left (suc i),
      sum_to_shift front left,
      sum_to_shift back left,
      sum_to_ext (λ j. front (suc j)) (λ j. here p (seat os (suc i + j))) left
          (λ j. ap (λ n. here p (seat os n)) (moved j)),
      sum_to_ext (λ j. back (suc j)) (λ j. here p (seat os (length os - 1 - (suc i + j)))) left
          (λ j. ap (λ n. here p (seat os (length os - 1 - n))) (moved j)),
      ap (λ n. here p (seat os n)) start,
      ap (λ n. here p (seat os (length os - 1 - n))) start,
    )

times_last :
    (p : ℕ) (q : Option ℕ) (os : List (Option ℕ))
    → here p (last_of q os) + times p (without_last q os) ≡ here p q + times p os
unfolding times last_of without_last
times_last p q [] = refl
times_last p q (o ∷ os) = ground (arith, times_last p o os)

length-without_last : (q : Option ℕ) (os : List (Option ℕ)) → length (without_last q os) ≡ length os
unfolding without_last
length-without_last q [] = refl
length-without_last q (o ∷ os) = ap suc (length-without_last o os)

times-rotate : (p : ℕ) (os : List (Option ℕ)) → times p (rotate os) ≡ times p os
unfolding times rotate
times-rotate p [] = refl
times-rotate p (o ∷ []) = refl
times-rotate p (o ∷ q ∷ os) = ground (arith, times_last p q os)

length-rotate : (os : List (Option ℕ)) → length (rotate os) ≡ length os
unfolding rotate
length-rotate [] = refl
length-rotate (o ∷ []) = refl
length-rotate (o ∷ q ∷ os) = ap (λ n. suc (suc n)) (length-without_last q os)

-- The field after so many rounds.
pub turned : ℕ → List (Option ℕ) → List (Option ℕ)
turned zero players = players
turned (suc r) players = turned r (rotate players)

times-turned : (p r : ℕ) (os : List (Option ℕ)) → times p (turned r os) ≡ times p os
unfolding turned
times-turned p zero os = refl
times-turned p (suc r) os = times-turned p r (rotate os) ∙ times-rotate p os

length-turned : (r : ℕ) (os : List (Option ℕ)) → length (turned r os) ≡ length os
unfolding turned
length-turned zero os = refl
length-turned (suc r) os = length-turned r (rotate os) ∙ length-rotate os

rest_half : (n h : ℕ) → n ≡ h + h → n - h ≡ h
rest_half n h even = omega arith

-- In a field of even size the pairings of a round give every player the places of the field.
table_pairs-times :
    (p h : ℕ) (os : List (Option ℕ))
    → length os ≡ h + h
    → times_paired p (table_pairs os (length os / 2) 0) ≡ times p os
table_pairs-times p h os even =
    let seats : ℕ → ℕ = λ j. here p (seat os j) in
    let half : length os / 2 ≡ h = ground arith in
    ground (
      arith,
      ap (λ n. times_paired p (table_pairs os n 0)) half,
      table_pairs_sum p os h 0,
      sum_to_reverse seats (length os) h (ground arith),
      ap (sum_to seats) (rest_half (length os) h even),
      sum_to_seats p os,
    )

times-append_none : (p : ℕ) (os : List (Option ℕ)) → times p (os ++ (none ∷ [])) ≡ times p os
unfolding times
times-append_none p [] = refl
times-append_none p (o ∷ os) = ground (arith, times-append_none p os)

times-map :
    (p : ℕ) (ids : List ℕ)
    → Distinct ids
    → times p (map (λ (id : ℕ). some id) ids) ≡ (if contains p ids then 1 else 0)
unfolding times contains
times-map p [] distinct = refl
times-map p (id ∷ ids) (once, distinct) = elim (Bool-cases (id == p)) [
  | inl hit ↦ ground (arith, times-map p ids distinct, same-contains id p ids hit)
  | inr miss ↦ ground (arith, times-map p ids distinct)
]

even_half : (n : ℕ) → (n % 2 == 0) ≡ true → n ≡ n / 2 + n / 2
even_half n e = ground arith

odd_half : (n : ℕ) → (n % 2 == 0) ≡ false → n + 1 ≡ (n + 1) / 2 + (n + 1) / 2
odd_half n e = ground arith

-- The table of a round robin has an even number of places, and the players have one each.
full_table-times :
    (p : ℕ) (ids : List ℕ)
    → Distinct ids
    → ((h : ℕ) × (length (full_table ids) ≡ h + h))
      × (times p (full_table ids) ≡ (if contains p ids then 1 else 0))
unfolding full_table
full_table-times p ids distinct = go (length ids % 2 == 0) refl
  where
    players : List (Option ℕ)
    players = map (λ (id : ℕ). some id) ids

    same_length : length players ≡ length ids
    same_length = length-map (λ (id : ℕ). some id) ids

    go :
        (b : Bool)
        → (length ids % 2 == 0) ≡ b
        → ((h : ℕ) × (length (if b then players else players ++ (none ∷ [])) ≡ h + h))
          × (times p (if b then players else players ++ (none ∷ []))
              ≡ (if contains p ids then 1 else 0))
    go true even =
        ((length ids / 2, same_length ∙ even_half (length ids) even), times-map p ids distinct)
    go false odd = (
      (
        (length ids + 1) / 2,
        length-append players (none ∷ []) ∙ ap (λ n. n + 1) same_length ∙ odd_half (length ids) odd,
      ),
      times-append_none p players ∙ times-map p ids distinct,
    )

-- In every round of a round robin each player is in one pairing, and nobody else is in any: after any
-- number of rounds, when no player is entered twice.
pub table_pairs_once :
    (p r : ℕ) (ids : List ℕ)
    → Distinct ids
    → (let players = turned r (full_table ids) in
        times_paired p (table_pairs players (length players / 2) 0)
        ≡ (if contains p ids then 1 else 0))
table_pairs_once p r ids distinct =
    let table = full_table-times p ids distinct in
    table_pairs-times p table.0.0 (turned r (full_table ids))
      (length-turned r (full_table ids) ∙ table.0.1)
    ∙ times-turned p r (full_table ids)
    ∙ table.1
