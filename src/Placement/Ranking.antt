-- ===== src/Placement/Ranking.antt =====
-- The placings that `computeStructuralPlacements` of src/leaderboard/leaderboard.service.ts gives out,
-- against the number of players who got further.
use joust_backend.Prelude.{
  ℕ, suc, ◌+◌, ◌≡◌, refl, ap, ◌∙◌, none, some, List, [], ◌∷◌, Bool, true, false, All, Bool-cases,
  inl, inr, ◌==◌, if◌then◌else◌, arith,
}
use joust_backend.Prelude.Dict.{lookup, contains}
use joust_backend.Placement.{Run, beyond, same_run, place, sort_by, number_ranks, place_field}
use joust_backend.Placement.Runs.{
  same_run_eq, beyond_irrefl, beyond_asym, beyond_trans, beyond_neg_trans, beyond_total,
}

module _ (out : ℕ → Run) where
  -- How many players got further than this.
  unfoldable pub further : Run → List ℕ → ℕ
  further r [] = 0
  further r (id ∷ ids) = let rest = further r ids in if beyond (out id) r then suc rest else rest

  NoneBeyond : Run → List ℕ → Type 0
  NoneBeyond r ids = All (λ id. beyond (out id) r ≡ false) ids

  IsRanked : List ℕ → Type 0
  unfolding NoneBeyond
  IsRanked [] = Unit
  IsRanked (id ∷ ids) = NoneBeyond (out id) ids × IsRanked ids

  abbrev goes_before : ℕ → ℕ → Bool
  goes_before a b = beyond (out a) (out b)

  further-place :
      (r : Run) (id : ℕ) (ids : List ℕ)
      → further r (place goes_before id ids) ≡ further r (id ∷ ids)
  unfolding further place
  further-place r id [] = refl
  further-place r id (y ∷ ids) = ground (arith, further-place r id ids)

  further-sort_by : (r : Run) (ids : List ℕ) → further r (sort_by goes_before ids) ≡ further r ids
  unfolding further sort_by
  further-sort_by r [] = refl
  further-sort_by r (id ∷ ids) =
      ground (arith, further-sort_by r ids, further-place r id (sort_by goes_before ids))

  contains-place :
      (j id : ℕ) (ids : List ℕ) → contains j (place goes_before id ids) ≡ contains j (id ∷ ids)
  unfolding contains place
  contains-place j id [] = refl
  contains-place j id (y ∷ ids) = ground (arith, contains-place j id ids)

  contains-sort_by : (j : ℕ) (ids : List ℕ) → contains j (sort_by goes_before ids) ≡ contains j ids
  unfolding contains sort_by
  contains-sort_by j [] = refl
  contains-sort_by j (id ∷ ids) =
      ground (arith, contains-sort_by j ids, contains-place j id (sort_by goes_before ids))

  NoneBeyond-place :
      (r : Run) (id : ℕ) (ids : List ℕ)
      → beyond (out id) r ≡ false
      → NoneBeyond r ids
      → NoneBeyond r (place goes_before id ids)
  unfolding NoneBeyond place
  NoneBeyond-place r id [] h none_beyond = (h, tt)
  NoneBeyond-place r id (y ∷ ids) h (here, rest) = elim (Bool-cases (goes_before y id)) [
    | inl first ↦ rw first (here, NoneBeyond-place r id ids h rest)
    | inr later ↦ rw later (h, (here, rest))
  ]

  NoneBeyond-further :
      (r q : Run) (ids : List ℕ) → beyond r q ≡ false → NoneBeyond r ids → NoneBeyond q ids
  unfolding NoneBeyond
  NoneBeyond-further r q [] h none_beyond = tt
  NoneBeyond-further r q (id ∷ ids) h (here, rest) =
      (beyond_neg_trans (out id) r q here h, NoneBeyond-further r q ids h rest)

  IsRanked-place : (id : ℕ) (ids : List ℕ) → IsRanked ids → IsRanked (place goes_before id ids)
  unfolding IsRanked place NoneBeyond
  IsRanked-place id [] ranked = (tt, tt)
  IsRanked-place id (y ∷ ids) (here, ranked) = elim (Bool-cases (goes_before y id)) [
    | inl first ↦ rw first (
      NoneBeyond-place (out y) id ids (beyond_asym (out y) (out id) first) here,
      IsRanked-place id ids ranked,
    )
    | inr later ↦
        rw later ((later, NoneBeyond-further (out y) (out id) ids later here), (here, ranked))
  ]

  sort_by-IsRanked : (ids : List ℕ) → IsRanked (sort_by goes_before ids)
  unfolding IsRanked sort_by
  sort_by-IsRanked [] = tt
  sort_by-IsRanked (id ∷ ids) = IsRanked-place id (sort_by goes_before ids) (sort_by-IsRanked ids)

  further-NoneBeyond : (r : Run) (ids : List ℕ) → NoneBeyond r ids → further r ids ≡ 0
  unfolding further NoneBeyond
  further-NoneBeyond r [] h = refl
  further-NoneBeyond r (id ∷ ids) (here, rest) = ground (arith, further-NoneBeyond r ids rest)

  abbrev one_if : Bool → ℕ
  one_if true = 1
  one_if false = 0

  -- With one more player ranked.
  abbrev past : (Run → ℕ) → ℕ → Run → ℕ
  past ahead id q = ahead q + one_if (beyond (out id) q)

  -- The loop goes on after players of whom `ahead q` got further than `q`, all of them if `q` is
  -- behind the last one, who got as far as `r`.
  abbrev Continues : (Run → ℕ) → ℕ → ℕ → Run → List ℕ → Type 0
  Continues ahead rank seen r ids =
      (j : ℕ)
      → contains j ids ≡ true
      → lookup j (number_ranks out rank seen (some r) ids)
        ≡ some (suc (ahead (out j) + further (out j) ids))

  head_ranked :
      (ahead : Run → ℕ) (id j : ℕ) (ids : List ℕ)
      → NoneBeyond (out id) ids
      → (id == j) ≡ true
      → ahead (out id) ≡ ahead (out j) + further (out j) (id ∷ ids)
  unfolding further
  head_ranked ahead id j ids top hit =
      let same : id ≡ j = ground arith in
      ground (
        arith,
        ap (λ n. ahead (out n)) same,
        ap (λ n. beyond (out id) (out n)) same,
        ap (λ n. further (out n) ids) same,
        beyond_irrefl (out id),
        further-NoneBeyond (out id) ids top,
      )

  same_rank :
      (ahead : Run → ℕ) (rank seen : ℕ) (r : Run) (id : ℕ) (ids : List ℕ)
      → NoneBeyond (out id) ids
      → same_run (out id) r ≡ true
      → rank ≡ suc (ahead r)
      → Continues (past ahead id) rank (suc seen) r ids
      → Continues ahead rank seen r (id ∷ ids)
  unfolding number_ranks lookup contains further
  same_rank ahead rank seen r id ids top same e rest j h = elim (Bool-cases (id == j)) [
    | inl hit ↦
        ground (arith, head_ranked ahead id j ids top hit, ap ahead (same_run_eq (out id) r same))
    | inr miss ↦ ground (arith, rest j (ground arith))
  ]

  next_rank :
      (ahead : Run → ℕ) (rank seen : ℕ) (r : Run) (id : ℕ) (ids : List ℕ)
      → NoneBeyond (out id) ids
      → same_run (out id) r ≡ false
      → ahead (out id) ≡ seen
      → Continues (past ahead id) (suc seen) (suc seen) (out id) ids
      → Continues ahead rank seen r (id ∷ ids)
  unfolding number_ranks lookup contains further
  next_rank ahead rank seen r id ids top other e rest j h = elim (Bool-cases (id == j)) [
    | inl hit ↦ ground (arith, head_ranked ahead id j ids top hit)
    | inr miss ↦ ground (arith, rest j (ground arith))
  ]

  number_ranks_further :
      (ahead : Run → ℕ) (rank seen : ℕ) (r : Run) (ids : List ℕ)
      → IsRanked ids
      → NoneBeyond r ids
      → rank ≡ suc (ahead r)
      → ((q : Run) → beyond r q ≡ true → ahead q ≡ seen)
      → Continues ahead rank seen r ids
  unfolding IsRanked NoneBeyond contains
  number_ranks_further ahead rank seen r [] ranked capped e all_ahead = λ j h. ground arith
  number_ranks_further ahead rank seen r (id ∷ ids) (top, ranked) (here, capped) e all_ahead =
      elim (Bool-cases (same_run (out id) r)) [
        | inl same ↦ same_rank ahead rank seen r id ids top same e (
            number_ranks_further (past ahead id) rank (suc seen) r ids ranked capped (ground arith)
              (λ q behind.
                ground
                  (arith, all_ahead q behind, ap (λ a. beyond a q) (same_run_eq (out id) r same))))
        | inr other ↦
            let behind : beyond r (out id) ≡ true = beyond_total (out id) r here other in
            let first : ahead (out id) ≡ seen = all_ahead (out id) behind in
            next_rank ahead rank seen r id ids top other first (
              number_ranks_further (past ahead id) (suc seen) (suc seen) (out id) ids ranked top
                (ground (arith, first, beyond_irrefl (out id)))
                (λ q further_back.
                  ground (arith, all_ahead q (beyond_trans r (out id) q behind further_back))))
      ]

  ranked_field :
      (ids : List ℕ) (j : ℕ)
      → IsRanked ids
      → contains j ids ≡ true
      → lookup j (number_ranks out 0 0 none ids) ≡ some (suc (further (out j) ids))
  unfolding IsRanked number_ranks lookup contains further
  ranked_field [] j ranked h = ground arith
  ranked_field (id ∷ ids) j (top, ranked) h = elim (Bool-cases (id == j)) [
    | inl hit ↦ ground (arith, head_ranked (λ q. 0) id j ids top hit)
    | inr miss ↦ ground (
      arith,
      number_ranks_further (past (λ q. 0) id) 1 1 (out id) ids ranked top
          (ground (arith, beyond_irrefl (out id))) (λ q behind. ground arith) j (ground arith),
    )
  ]

-- Every player of the field is placed, in one more than the number of the players who got further:
-- those who went out together share a place, and the next place after them is skipped accordingly.
pub place_field-further :
    (out : ℕ → Run) (everyone : List ℕ) (j : ℕ)
    → contains j everyone ≡ true
    → lookup j (place_field out everyone) ≡ some (suc (further out (out j) everyone))
unfolding place_field
place_field-further out everyone j h =
    ranked_field out (sort_by (λ a b. beyond (out a) (out b)) everyone) j
      (sort_by-IsRanked out everyone) (contains-sort_by out j everyone ∙ h)
    ∙ ap (λ n. some (suc n)) (further-sort_by out (out j) everyone)
