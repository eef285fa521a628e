-- ===== src/Guests/Lifetime.antt =====
-- The lifetime statistics that `convertGuest` of src/auth/auth.service.ts rebuilds are those that
-- `completeTournament` of src/tournament/tournament.service.ts gives a registered player.
use joust_backend.Prelude.{
  ℕ, ◌≡◌, refl, sym, ap, ◌∙◌, Option, none, some, List, [], ◌∷◌, Bool, true, false, ◌||◌, ◌==◌,
  ◌==?◌, if◌then◌else◌, arith,
}
use joust_backend.Prelude.Dict.{Dict, lookup, lookup-insert, contains, same-contains, Distinct}
use joust_backend.Prelude.Int.{ℤ, pos, ◌+ℤ◌}
use joust_backend.Stats.{StatsRow}
use joust_backend.Placement.{Placed}
use joust_backend.Closing.{
  Career, Entrant, Closing, Hall, registered, played_one, won_one, paid, points_for, put_placement,
  put_placements, is_closed, final_winner, close, complete,
}
use joust_backend.Closing.Careers.{career}
use joust_backend.Closing.Awards.{crowned_if, earned, rewarded, complete-rewarded}
use joust_backend.Guests.Conversion.{Event, Aggregate, pay_placement, add_end, add_games, add_event}

-- The rank of a user in the placings, which name no user twice.
unfoldable pub rank_of : ℕ → List Placed → Option ℕ
rank_of u [] = none
rank_of u (e ∷ es) = if e.user_id == u then some e.rank else rank_of u es

abbrev placed_users : List Placed → List ℕ
placed_users [] = []
placed_users (e ∷ es) = e.user_id ∷ placed_users es

rank_of_absent :
    (u : ℕ) (es : List Placed) → contains u (placed_users es) ≡ false → rank_of u es ≡ none
unfolding contains rank_of
rank_of_absent u [] h = refl
rank_of_absent u (e ∷ es) h = ground (arith, rank_of_absent u es)

earned_absent :
    (c : Closing) (u : ℕ) (es : List Placed)
    → contains u (placed_users es) ≡ false
    → earned c u es ≡ pos 0
unfolding contains earned
earned_absent c u [] h = refl
earned_absent c u (e ∷ es) h = ground (arith, earned_absent c u es)

same_key : (k u : ℕ) (d : Dict (Option ℕ)) → (k == u) ≡ true → lookup k d ≡ lookup u d
same_key k u d h = ap (λ n. lookup n d) (ground arith)

lookup-put_placement :
    (u : ℕ) (e : Placed) (d : Dict (Option ℕ)) (before : Option ℕ)
    → lookup u d ≡ some before
    → lookup u (put_placement e d) ≡ some (if e.user_id == u then some e.rank else before)
unfolding put_placement
lookup-put_placement u e d before h =
    ground (arith, lookup-insert e.user_id u (some e.rank) d, same_key e.user_id u d)

abbrev or_before : Option ℕ → Option ℕ → Option ℕ
or_before none before = before
or_before (some rank) before = some rank

or_none : (r : Option ℕ) → or_before r none ≡ r
or_none none = refl
or_none (some rank) = refl

-- The placement that is written is the rank.
lookup-put_placements :
    (u : ℕ) (es : List Placed) (d : Dict (Option ℕ)) (before : Option ℕ)
    → Distinct (placed_users es)
    → lookup u d ≡ some before
    → lookup u (put_placements es d) ≡ some (or_before (rank_of u es) before)
unfolding put_placements rank_of
lookup-put_placements u [] d before distinct h = h
lookup-put_placements u (e ∷ es) d before (new, rest) h =
    lookup-put_placements u es (put_placement e d) (if e.user_id == u then some e.rank else before)
      rest (lookup-put_placement u e d before h)
    ∙ ground (arith, rank_of_absent u es, same-contains e.user_id u (placed_users es))

+ℤ_zero_right : (a : ℤ) → a +ℤ pos 0 ≡ a
unfolding ◌+ℤ◌
+ℤ_zero_right a = ground arith

-- What the placings pay is what the rank pays.
earned-rank_of :
    (c : Closing) (u : ℕ) (es : List Placed)
    → Distinct (placed_users es)
    → earned c u es
      ≡ (elim (rank_of u es) [ none ↦ pos 0 | some rank ↦ points_for c.points c.is_hybrid rank ])
unfolding earned rank_of
earned-rank_of c u [] distinct = refl
earned-rank_of c u (e ∷ es) (new, rest) = ground (
  arith,
  earned-rank_of c u es rest,
  earned_absent c u es,
  same-contains e.user_id u (placed_users es),
  +ℤ_zero_right (points_for c.points c.is_hybrid e.rank),
)

-- The tournament as `convertGuest` reads it afterwards.
unfoldable pub event_of : Closing → Hall → ℕ → Option StatsRow → Option ℕ → Event
event_of c h u stats game = record {
  is_left_out = false;
  is_excluded = false;
  stats = stats;
  game = game;
  status = h.status;
  winner_id = h.winner_id;
  placement = (elim (lookup u h.placement) [ none ↦ none | some placement ↦ placement ]);
  is_hybrid = c.is_hybrid;
  points = c.points;
}

paid_nothing : (x : Career) → x ≡ paid (pos 0) x
paid_nothing x = ap (λ n. record x { global_points = n }) (sym (+ℤ_zero_right x.global_points))

crowned_same :
    (w one : Bool) (x : Career)
    → (one ≡ true → w ≡ true)
    → (if w || one then won_one x else x) ≡ crowned_if w x
crowned_same true one x h = refl
crowned_same false true x h = ground (arith, h refl)
crowned_same false false x h = refl

-- The end of the tournament, by the rank.
end_of_rank :
    (e : Event) (u : ℕ) (rank : Option ℕ) (x : Career)
    → e.placement ≡ rank
    → (rank ==? some 0) ≡ false
    → ((rank ==? some 1) ≡ true → (e.winner_id ==? some u) ≡ true)
    → add_end u e x
      ≡ paid
          (elim rank [ none ↦ pos 0 | some r ↦ points_for e.points e.is_hybrid r ])
          (crowned_if (e.winner_id ==? some u) (played_one x))
unfolding add_end pay_placement
end_of_rank e u none x same positive title = rw same (
    crowned_same (e.winner_id ==? some u) false (played_one x) (λ h. ground arith)
    ∙ paid_nothing (crowned_if (e.winner_id ==? some u) (played_one x)))
end_of_rank e u (some r) x same positive title =
    rw (same, positive)
      (ap (paid (points_for e.points e.is_hybrid r))
        (crowned_same (e.winner_id ==? some u) (r == 1) (played_one x) title))

games-career : (stats : Option StatsRow) (a : Aggregate) → (add_games stats a).career ≡ a.career
unfolding add_games
games-career none a = refl
games-career (some row) a = refl

add_event_end :
    (u : ℕ) (e : Event) (a : Aggregate)
    → (e.is_left_out || e.is_excluded) ≡ false
    → is_closed e.status ≡ true
    → (add_event u e a).career ≡ add_end u e a.career
unfolding add_event
add_event_end u e a counted over = rw (counted, over) (ap (add_end u e) (games-career e.stats a))

complete_unclosed : (c : Closing) (h : Hall) → is_closed h.status ≡ false → complete c h ≡ close c h
unfolding complete
complete_unclosed c h fresh = rw fresh refl

-- Take a tournament that is completed while the player is a guest, with placings that name no user
-- twice and rank from 1, and whose first is the winner. What the registration of the guest then adds
-- for it to the lifetime row is exactly what the completion would have added for a registered player.
pub add_event-complete :
    (c : Closing) (h : Hall) (u : ℕ) (stats : Option StatsRow) (game : Option ℕ)
    (entrants : List Entrant) (global : Dict Career) (a : Aggregate)
    → Distinct (placed_users c.placings)
    → Distinct (registered entrants)
    → contains u (registered entrants) ≡ true
    → is_closed h.status ≡ false
    → lookup u h.placement ≡ some none
    → (rank_of u c.placings ==? some 0) ≡ false
    → ((rank_of u c.placings ==? some 1) ≡ true
        → (final_winner h.winner_id c.placings ==? some u) ≡ true)
    → a.career ≡ career global u
    → (add_event u (event_of c (complete c h) u stats game) a).career
      ≡ career (complete (record c { entrants = entrants }) (record h { global = global })).global u
unfolding event_of close
add_event-complete c h u stats game entrants global a placed distinct there fresh unplaced positive
      title before =
    ap (λ (k : Hall). (add_event u (event_of c k u stats game) a).career)
      (complete_unclosed c h fresh)
    ∙ add_event_end u closed a refl refl
    ∙ end_of_rank closed u (rank_of u c.placings) a.career written positive title
    ∙ paid_as (earned-rank_of other u c.placings placed) before
    ∙ sym (complete-rewarded other c (record h { global = global }) u distinct fresh).0
  where
    other : Closing
    other = record c { entrants = entrants }

    winner : Option ℕ
    winner = final_winner h.winner_id c.placings

    closed : Event
    closed = event_of c (close c h) u stats game

    written : closed.placement ≡ rank_of u c.placings
    written =
        ap (λ (o : Option (Option ℕ)). elim o [ none ↦ none | some placement ↦ placement ])
          (lookup-put_placements u c.placings h.placement none placed unplaced)
        ∙ or_none (rank_of u c.placings)

    paid_as :
        {pts : ℤ}
        → earned other u c.placings ≡ pts
        → a.career ≡ career global u
        → paid pts (crowned_if (winner ==? some u) (played_one a.career))
          ≡ rewarded other winner u (career global u)
    paid_as {pts = pts} e same =
        ap (λ x. paid pts (crowned_if (winner ==? some u) (played_one x))) same
        ∙ ap (λ n. paid n (crowned_if (winner ==? some u) (played_one (career global u)))) (sym e)
        ∙ rw there refl
