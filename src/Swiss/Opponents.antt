-- ===== src/Swiss/Opponents.antt =====
-- `buildSwissMatchHistory`: the history says who met whom, and how many byes each player had.
use joust_backend.Prelude.{
  ℕ, ◌≡◌, List, [], ◌∷◌, Option, none, some, Bool, true, false, not, ◌&&◌, ◌||◌, ◌==◌, or_else,
  is_some, Option-cases, inl, inr, any, arith,
}
use joust_backend.Prelude.Dict.{Dict, lookup, lookup-insert, contains, add, contains-add}
use joust_backend.Swiss.{
  HistoryRow, History, ensure, meet, record_opponents, history_seated, history_step, history_loop,
  build_swiss_match_history, has_met,
}

-- A row in which `a` played `b`: both seats are taken, by those two, and it was no bye.
abbrev pub seats : Option ℕ → Option ℕ → ℕ → ℕ → Bool
seats none q a b = false
seats (some p) none a b = false
seats (some p) (some q) a b = (p == a && q == b) || (p == b && q == a)

abbrev pub played : ℕ → ℕ → HistoryRow → Bool
played a b row = not row.is_bye && seats row.player1_id row.player2_id a b

met_in : Dict (List ℕ) → ℕ → ℕ → Bool
met_in h a b = contains b (or_else (lookup a h) [])

has_row : Dict (List ℕ) → ℕ → Bool
has_row h p = is_some (lookup p h)

ensure-met_in : (p a b : ℕ) (h : Dict (List ℕ)) → met_in (ensure p h) a b ≡ met_in h a b
unfolding ensure met_in contains
ensure-met_in p a b h = ground (arith, lookup-insert p a [] h)

ensure-has_row : (p q : ℕ) (h : Dict (List ℕ)) → has_row (ensure p h) q ≡ (p == q || has_row h q)
unfolding ensure has_row
ensure-has_row p q h = ground (arith, lookup-insert p q [] h)

meet-met_in :
    (p q a b : ℕ) (h : Dict (List ℕ))
    → has_row h p ≡ true
    → met_in (meet p q h) a b ≡ (met_in h a b || (p == a && q == b))
unfolding meet met_in has_row
meet-met_in p q a b h here = elim (Option-cases (lookup p h)) [
  | inl none_there ↦ ground arith
  | inr (met, e) ↦ ground (arith, lookup-insert p a (add q met) h, contains-add q b met)
]

meet-has_row : (p q r : ℕ) (h : Dict (List ℕ)) → has_row h r ≡ true → has_row (meet p q h) r ≡ true
unfolding meet has_row
meet-has_row p q r h here = elim (Option-cases (lookup p h)) [
  | inl none_there ↦ ground arith
  | inr (met, e) ↦ ground (arith, lookup-insert p r (add q met) h)
]

record_opponents-met_in :
    (p q a b : ℕ) (h : Dict (List ℕ))
    → met_in (record_opponents p q h) a b ≡ (met_in h a b || seats (some p) (some q) a b)
unfolding record_opponents
record_opponents-met_in p q a b h =
    let h1 = ensure p h in
    let h2 = ensure q h1 in
    ground (
      arith,
      meet-met_in q p a b (meet p q h2),
      meet-has_row p q q h2,
      meet-met_in p q a b h2,
      ensure-has_row q q h1,
      ensure-has_row q p h1,
      ensure-has_row p p h,
      ensure-met_in q a b h1,
      ensure-met_in p a b h,
    )

history_seated-met_in :
    (p : ℕ) (q : Option ℕ) (bye : Bool) (h : History) (a b : ℕ)
    → has_met (history_seated p q bye h) a b ≡ (has_met h a b || (not bye && seats (some p) q a b))
unfolding history_seated has_met met_in
history_seated-met_in p q true h a b = ground (arith, ensure-met_in p a b h.opponent_history)
history_seated-met_in p none false h a b = ground (arith, ensure-met_in p a b h.opponent_history)
history_seated-met_in p (some q) false h a b = record_opponents-met_in p q a b h.opponent_history

history_step-met :
    (p q : Option ℕ) (bye : Bool) (h : History) (a b : ℕ)
    → let row : HistoryRow = record { player1_id = p; player2_id = q; is_bye = bye } in
      has_met (history_step p row h) a b ≡ (has_met h a b || played a b row)
unfolding history_step
history_step-met none q bye h a b = ground arith
history_step-met (some p) q bye h a b = history_seated-met_in p q bye h a b

history_loop-met :
    (rows : List HistoryRow) (h : History) (a b : ℕ)
    → has_met (history_loop rows h) a b ≡ (has_met h a b || any (played a b) rows)
unfolding history_loop
history_loop-met [] h a b = ground arith
history_loop-met (row ∷ rows) h a b = ground (
  arith,
  history_loop-met rows (history_step row.player1_id row h) a b,
  history_step-met row.player1_id row.player2_id row.is_bye h a b,
)

-- The history has `b` as an opponent of `a` exactly when some match that was no bye seated the two,
-- in either order.
pub build_swiss_match_history-met :
    (rows : List HistoryRow) (a b : ℕ)
    → has_met (build_swiss_match_history rows) a b ≡ any (played a b) rows
unfolding build_swiss_match_history has_met contains lookup
build_swiss_match_history-met rows a b =
    history_loop-met rows (record { opponent_history = []; bye_count = [] }) a b
