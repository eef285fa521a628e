-- ===== src/Placement/Cut.antt =====
-- The final placings of a hybrid: `resolveFinalPlacements` of src/tournament/tournament.service.ts puts
-- the top cut above everybody else.
use joust_backend.Prelude.{
  ℕ, suc, ◌+◌, ◌≤◌, ◌≡◌, refl, Option, none, some, is_some, List, [], ◌∷◌, Bool, true, false, ltb,
  leb, length, All, Bool-cases, inl, inr, if◌then◌else◌, arith,
}
use joust_backend.Prelude.Dict.{Dict, lookup}
use joust_backend.Formats.{hybrid}
use joust_backend.Match.{MatchRow}
use joust_backend.Placement.{
  Run, beyond, place, sort_by, number_ranks, place_field, everyone_in,
  compute_structural_placements, Placed, below_cut, resolve_final_placements, or_points,
}
use joust_backend.Placement.Structural.{bracket_of, progress}

All-place :
    {A : Type 0} (before : A → A → Bool) (P : A → Type 0) (x : A) (xs : List A)
    → P x
    → All P xs
    → All P (place before x xs)
unfolding place
All-place before P x [] here rest = (here, tt)
All-place before P x (y ∷ ys) here (other, rest) = elim (Bool-cases (before y x)) [
  | inl first ↦ rw first (other, All-place before P x ys here rest)
  | inr later ↦ rw later (here, (other, rest))
]

All-sort_by :
    {A : Type 0} (before : A → A → Bool) (P : A → Type 0) (xs : List A)
    → All P xs
    → All P (sort_by before xs)
unfolding sort_by
All-sort_by before P [] h = tt
All-sort_by before P (x ∷ xs) (here, rest) =
    All-place before P x (sort_by before xs) here (All-sort_by before P xs rest)

-- A placing that the bracket gives is within the cut.
Bounded : ℕ → Dict ℕ → Type 0
Bounded size placed = (id rank : ℕ) → lookup id placed ≡ some rank → rank ≤ size

number_ranks-Bounded :
    (out : ℕ → Run) (rank seen : ℕ) (previous : Option Run) (ids : List ℕ)
    → rank ≤ seen
    → Bounded (seen + length ids) (number_ranks out rank seen previous ids)
unfolding Bounded number_ranks lookup
number_ranks-Bounded out rank seen previous [] le id k e = ground arith
number_ranks-Bounded out rank seen previous (j ∷ ids) le id k e = ground (
  arith,
  number_ranks-Bounded out rank (suc seen) previous ids (ground arith) id k,
  number_ranks-Bounded out (suc seen) (suc seen) (some (out j)) ids (ground arith) id k,
)

length-number_ranks :
    (out : ℕ → Run) (rank seen : ℕ) (previous : Option Run) (ids : List ℕ)
    → length (number_ranks out rank seen previous ids) ≡ length ids
unfolding number_ranks
length-number_ranks out rank seen previous [] = refl
length-number_ranks out rank seen previous (j ∷ ids) = ground (
  arith,
  length-number_ranks out rank (suc seen) previous ids,
  length-number_ranks out (suc seen) (suc seen) (some (out j)) ids,
)

compute_structural_placements-Bounded :
    (phase : Option ℕ) (rows : List MatchRow)
    → (let placed = compute_structural_placements phase rows in Bounded (length placed) placed)
unfolding Bounded compute_structural_placements place_field
compute_structural_placements-Bounded phase rows id rank e =
    let ms = bracket_of phase rows in
    let ids = sort_by (λ a b. beyond (progress ms a) (progress ms b)) (everyone_in ms) in
    ground (
      arith,
      length-number_ranks (progress ms) 0 0 none ids,
      number_ranks-Bounded (progress ms) 0 0 none ids (ground arith) id rank e,
    )

-- The bracket has placed somebody.
abbrev pub has_placed : Dict ℕ → Bool
has_placed [] = false
has_placed (e ∷ rest) = true

-- Above the cut or below it.
abbrev pub IsParted : Dict ℕ → Placed → Type 0
IsParted structural e =
    (if is_some (lookup e.user_id structural)
      then leb e.rank (length structural)
      else ltb (length structural) e.rank)
    ≡ true

below_cut-IsParted :
    (structural : Dict ℕ) (next_rank : ℕ) (es : List Placed)
    → Bounded (length structural) structural
    → length structural ≤ next_rank
    → All (IsParted structural) (below_cut structural next_rank es)
unfolding below_cut Bounded
below_cut-IsParted structural next_rank [] bounded le = tt
below_cut-IsParted structural next_rank (e ∷ es) bounded le =
    go (lookup e.user_id structural) refl (below_cut-IsParted structural next_rank es bounded le)
      (below_cut-IsParted structural (suc next_rank) es bounded (ground arith))
  where
    go :
        (r : Option ℕ)
        → lookup e.user_id structural ≡ r
        → All (IsParted structural) (below_cut structural next_rank es)
        → All (IsParted structural) (below_cut structural (suc next_rank) es)
        → All (IsParted structural) (elim r [
          | some placed ↦ record e { rank = placed } ∷ below_cut structural next_rank es
          | none ↦ record e { rank = suc next_rank } ∷ below_cut structural (suc next_rank) es
        ])
    go (some placed) found rest later = (ground (arith, bounded e.user_id placed found), rest)
    go none missing rest later = (ground arith, later)

-- When the top cut of a hybrid has placed somebody, whoever it placed finishes within the first
-- places, as many as it placed, and everybody else below these.
pub resolve_final_placements-IsParted :
    (rows : List MatchRow) (points : List Placed)
    → has_placed (compute_structural_placements (some 2) rows) ≡ true
    → All
        (IsParted (compute_structural_placements (some 2) rows))
        (resolve_final_placements hybrid rows points)
unfolding resolve_final_placements or_points
resolve_final_placements-IsParted rows points some_placed =
    let structural = compute_structural_placements (some 2) rows in
    parted structural some_placed (compute_structural_placements-Bounded (some 2) rows)
  where
    parted :
        (structural : Dict ℕ)
        → has_placed structural ≡ true
        → Bounded (length structural) structural
        → All
            (IsParted structural)
            (or_points points structural (below_cut structural (length structural) points))
    parted [] h bounded = ground arith
    parted (e ∷ rest) h bounded =
        All-sort_by (λ (a b : Placed). ltb a.rank b.rank) (IsParted (e ∷ rest)) _
          (below_cut-IsParted (e ∷ rest) (length (e ∷ rest)) points bounded (ground arith))
