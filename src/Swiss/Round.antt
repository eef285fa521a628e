-- ===== src/Swiss/Round.antt =====
-- The bye and the pairings of `generateNextSwissRound`, together.
use joust_backend.Prelude.{
  ℕ, suc, ◌%◌, ◌≡◌, ◌≢◌, ◌↔◌, ◌⊎◌, inl, inr, refl, sym, ap, ◌∙◌, List, [], ◌∷◌, ◌++◌, map, Option,
  none, some, Bool, true, false, not, ◌==◌, ==_iff, Bool-cases, Option-cases, All, Perm, length,
  select, arith,
}
use mathlib.Core.List.{append-nil, perm_append_comm}
use mathlib.Core.List.Perm
use mathlib.Core.Path.{subst}
use joust_backend.Prelude.Dict.{Dict, contains, Distinct}
use joust_backend.Prelude.Int.{ℤ}
use joust_backend.Swiss.{
  History, last, remove_first, sit_out, had_no_bye, bye_player, pairable_ids, build_swiss_pairings,
  next_swiss_round, pair_loop,
}
use joust_backend.Swiss.Matching.{players_of, free_of, pair_loop-perm, length-perm}

remove_first-perm : (k : ℕ) (xs : List ℕ) → contains k xs ≡ true → Perm (k ∷ remove_first k xs) xs
unfolding remove_first contains
remove_first-perm k [] h = cc
remove_first-perm k (x ∷ xs) h = elim (Bool-cases (x == k)) [
  | inl same ↦ rw (same, (==_iff x k).0 same) (Perm.refl (k ∷ xs))
  | inr other ↦ rw other (
      Perm.trans (Perm.swap x k (remove_first k xs))
        (Perm.cons x (remove_first-perm k xs (ground arith))))
]

contains-remove_first :
    (k x : ℕ) (xs : List ℕ) → contains x xs ≡ false → contains x (remove_first k xs) ≡ false
unfolding remove_first contains
contains-remove_first k x [] h = refl
contains-remove_first k x (y ∷ xs) h = ground (arith, contains-remove_first k x xs)

remove_first-Distinct : (k : ℕ) (xs : List ℕ) → Distinct xs → Distinct (remove_first k xs)
unfolding remove_first
remove_first-Distinct k [] d = tt
remove_first-Distinct k (x ∷ xs) (fresh, d) =
    ground (arith, contains-remove_first k x xs fresh, remove_first-Distinct k xs d)

contains-select :
    (p : ℕ → Bool) (x : ℕ) (xs : List ℕ) → contains x xs ≡ false → contains x (select p xs) ≡ false
unfolding contains
contains-select p x [] h = refl
contains-select p x (y ∷ xs) h = ground (arith, contains-select p x xs)

select-Distinct : (p : ℕ → Bool) (xs : List ℕ) → Distinct xs → Distinct (select p xs)
select-Distinct p [] d = tt
select-Distinct p (x ∷ xs) (fresh, d) =
    ground (arith, contains-select p x xs fresh, select-Distinct p xs d)

last-contains : (xs : List ℕ) (k : ℕ) → last xs ≡ some k → contains k xs ≡ true
unfolding last contains
last-contains [] k h = cc
last-contains (x ∷ []) k h = ground arith
last-contains (x ∷ y ∷ xs) k h = ground (arith, last-contains (y ∷ xs) k h)

last-ne-none : (x : ℕ) (xs : List ℕ) → last (x ∷ xs) ≢ none
unfolding last
last-ne-none x [] e = cc
last-ne-none x (y ∷ xs) e = last-ne-none y xs e

select-contains :
    (p : ℕ → Bool) (k : ℕ) (xs : List ℕ)
    → contains k (select p xs) ≡ true
    → (contains k xs ≡ true) × (p k ≡ true)
unfolding contains
select-contains p k [] h = cc
select-contains p k (x ∷ xs) h = elim (Bool-cases (x == k)) [
  | inl same ↦
      let e : x ≡ k = (==_iff x k).0 same in
      let same_test : p x ≡ p k = ap p e in ground (arith, select-contains p k xs)
  | inr other ↦ ground (arith, select-contains p k xs)
]

-- The bye of a round, if there is one, as a list.
abbrev pub bye_list : Option ℕ → List ℕ
bye_list none = []
bye_list (some p) = p ∷ []

sit_out-contains :
    (byes : Dict ℕ) (active : List ℕ) (p : ℕ)
    → sit_out byes active ≡ some p
    → contains p active ≡ true
unfolding sit_out
sit_out-contains byes active p e = elim (Option-cases (last (select (had_no_bye byes) active))) [
  | inl all_had_one ↦ last-contains active p (ground arith)
  | inr (q, eq) ↦
      let same : q ≡ p = ground arith in
      (select-contains (had_no_bye byes) p active
        (last-contains (select (had_no_bye byes) active) p (eq ∙ ap some same))).0
]

sit_out-ne-none :
    (byes : Dict ℕ) (active : List ℕ) → length active % 2 ≡ 1 → sit_out byes active ≢ none
unfolding sit_out
sit_out-ne-none byes [] odd e = absurd (omega arith)
sit_out-ne-none byes (x ∷ xs) odd e = ground (arith, last-ne-none x xs)

free_of-nil : (xs : List ℕ) → free_of [] xs ≡ xs
unfolding free_of contains
free_of-nil [] = refl
free_of-nil (x ∷ xs) = ap (◌∷◌ x) (free_of-nil xs)

all_paired :
    (diff : ℕ → ℕ → ℕ) (repeat : ℕ → ℕ → Bool) (ids : List ℕ)
    → Distinct ids
    → length ids % 2 ≡ 0
    → Perm (players_of (pair_loop diff repeat ids [])) ids
all_paired diff repeat ids d even =
    subst (Perm (players_of (pair_loop diff repeat ids []))) (free_of-nil ids)
      (pair_loop-perm diff repeat ids [] d (rw (free_of-nil ids) even))

odd_less : (m n : ℕ) → suc m ≡ n → (n % 2 == 0) ≡ false → m % 2 ≡ 0
odd_less m n e odd = ground arith

-- The players of the round, with its bye, from the active players.
round-perm :
    (diff : ℕ → ℕ → ℕ) (repeat : ℕ → ℕ → Bool) (byes : Dict ℕ) (active : List ℕ)
    → Distinct active
    → let bye = bye_player byes active in
      Perm (players_of (pair_loop diff repeat (pairable_ids bye active) []) ++ bye_list bye) active
unfolding pairable_ids bye_player
round-perm diff repeat byes active d = elim (Bool-cases (length active % 2 == 0)) [
  | inl even ↦ rw even (rw (append-nil _) (all_paired diff repeat active d (ground arith)))
  | inr odd ↦ elim (Option-cases (sit_out byes active)) [
    | inl nobody ↦ absurd (sit_out-ne-none byes active (ground arith) nobody)
    | inr (p, e) ↦
        let pairable = remove_first p active in
        let out = remove_first-perm p active (sit_out-contains byes active p e) in
        let fewer : suc (length pairable) ≡ length active = length-perm out in
        let paired =
          all_paired diff repeat pairable (remove_first-Distinct p active d)
            (odd_less (length pairable) (length active) fewer odd) in
        rw odd (
          rw e (
            Perm.trans (perm_append_comm (players_of (pair_loop diff repeat pairable [])) (p ∷ []))
              (Perm.trans (Perm.cons p paired) out)))
  ]
]

-- The active players: those of the leaderboard who did not forfeit, in its order.
abbrev pub active_ids : List (ℕ × ℤ) → List ℕ → List ℕ
active_ids leaderboard forfeited =
    select (λ id. not (contains id forfeited)) (map (λ (e : ℕ × ℤ). e.0) leaderboard)

-- When the leaderboard names nobody twice, the pairings of the next round and its bye contain every
-- player who did not forfeit exactly once, and nobody else.
pub next_swiss_round-perm :
    (leaderboard : List (ℕ × ℤ)) (forfeited : List ℕ) (history : History)
    → Distinct (map (λ (e : ℕ × ℤ). e.0) leaderboard)
    → let plan = next_swiss_round leaderboard forfeited history in
      Perm (players_of plan.pairings ++ bye_list plan.bye) (active_ids leaderboard forfeited)
unfolding next_swiss_round build_swiss_pairings
next_swiss_round-perm leaderboard forfeited history d =
    round-perm _ _ history.bye_count (active_ids leaderboard forfeited) (select-Distinct _ _ d)

kept_first : (p : ℕ → Bool) (x : ℕ) (xs : List ℕ) → p x ≡ true → select p (x ∷ xs) ≡ x ∷ select p xs
kept_first p x xs h = ground arith

skipped : (p : ℕ → Bool) (x : ℕ) (xs : List ℕ) → p x ≡ false → select p (x ∷ xs) ≡ select p xs
skipped p x xs h = ground arith

last-select-none :
    (p : ℕ → Bool) (xs : List ℕ) → last (select p xs) ≡ none → All (λ c. p c ≡ false) xs
last-select-none p [] h = tt
last-select-none p (x ∷ xs) h = elim (Bool-cases (p x)) [
  | inl kept ↦ absurd (last-ne-none x (select p xs) (sym (ap last (kept_first p x xs kept)) ∙ h))
  | inr out ↦ (out, last-select-none p xs (sym (ap last (skipped p x xs out)) ∙ h))
]

-- Somebody without a bye sits out, or everybody had one.
abbrev FairBye : Dict ℕ → List ℕ → ℕ → Type 0
FairBye byes active p = (had_no_bye byes p ≡ true) ⊎ All (λ c. had_no_bye byes c ≡ false) active

sit_out-FairBye :
    (byes : Dict ℕ) (active : List ℕ) (p : ℕ) → sit_out byes active ≡ some p → FairBye byes active p
unfolding sit_out
sit_out-FairBye byes active p e = elim (Option-cases (last (select (had_no_bye byes) active))) [
  | inl all_had_one ↦ inr (last-select-none (had_no_bye byes) active all_had_one)
  | inr (q, eq) ↦
      let same : q ≡ p = ground arith in
      inl
        (select-contains (had_no_bye byes) p active
          (last-contains (select (had_no_bye byes) active) p (eq ∙ ap some same))).1
]

-- A round has a bye exactly when the number of active players is odd. It goes to an active player,
-- and to one who already had a bye only when every active player had one.
pub bye_player_fair :
    (byes : Dict ℕ) (active : List ℕ)
    → ((bye_player byes active ≡ none) ↔ (length active % 2 ≡ 0))
      × ((p : ℕ)
          → bye_player byes active ≡ some p
          → (contains p active ≡ true)
            × ((had_no_bye byes p ≡ true) ⊎ All (λ c. had_no_bye byes c ≡ false) active))
unfolding bye_player
bye_player_fair byes active = (
  (
    (λ e. elim (Bool-cases (length active % 2 == 0)) [
      | inl even ↦ ground arith
      | inr odd ↦ absurd (sit_out-ne-none byes active (ground arith) (ground arith))
    ]),
    (λ even. ground arith),
  ),
  (λ p e.
      let sits : sit_out byes active ≡ some p = ground arith in
      (sit_out-contains byes active p sits, sit_out-FairBye byes active p sits)),
)
