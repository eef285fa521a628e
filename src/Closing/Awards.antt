-- ===== src/Closing/Awards.antt =====
-- What everybody gets at the end of a tournament, in src/tournament/tournament.service.ts.
use joust_backend.Prelude.{
  ℕ, ◌≡◌, refl, sym, ap, ◌∙◌, Option, none, some, is_some, List, [], ◌∷◌, Bool, true, false, ◌&&◌,
  ◌==◌, ◌==?◌, if◌then◌else◌, arith,
}
use joust_backend.Prelude.Dict.{same-contains, Dict, lookup, contains, Distinct}
use joust_backend.Prelude.Int.{ℤ, pos, ◌+ℤ◌, +ℤ_comm, +ℤ_assoc}
use joust_backend.Placement.{Placed}
use joust_backend.Closing.Careers.{
  career, upsert-career, credit_played-is_some, credit_played-career,
}
use joust_backend.Closing.{
  Career, new_career, Closing, Hall, upsert, registered, played_one, won_one, paid, credit_played,
  credit_winner, points_for, credit_placings, credit_table, is_closed, final_winner, close,
  complete,
}

-- Another title where this is the winner.
abbrev pub crowned_if : Bool → Career → Career
crowned_if true c = won_one c
crowned_if false c = c

crown_only :
    (b h k : Bool) (x : Career)
    → (h ≡ true → k ≡ b)
    → (if b then (if h then won_one x else x) else x) ≡ crowned_if (k && h) x
crown_only true true true x e = refl
crown_only true true false x e = ground (arith, e refl)
crown_only false true true x e = ground (arith, e refl)
crown_only false true false x e = refl
crown_only true false true x e = refl
crown_only true false false x e = refl
crown_only false false true x e = refl
crown_only false false false x e = refl

credit_winner-career :
    (ids : List ℕ) (winner : Option ℕ) (u : ℕ) (d : Dict Career)
    → ((id : ℕ) → contains id ids ≡ true → is_some (lookup id d) ≡ true)
    → career (credit_winner ids winner d) u
      ≡ crowned_if (contains u ids && (winner ==? some u)) (career d u)
unfolding credit_winner
credit_winner-career ids none u d present = nobody (contains u ids)
  where
    nobody : (b : Bool) → career d u ≡ crowned_if (b && false) (career d u)
    nobody true = refl
    nobody false = refl
credit_winner-career ids (some winner) u d present =
    go (contains winner ids) refl
    ∙ crown_only (contains winner ids) (winner == u) (contains u ids) (career d u)
        (same-contains winner u ids)
  where
    go :
        (b : Bool)
        → contains winner ids ≡ b
        → career (if b then upsert winner (new_career 1 1 (pos 0)) won_one d else d) u
          ≡ (if b then (if winner == u then won_one (career d u) else career d u) else career d u)
    go true e =
        upsert-career winner u (new_career 1 1 (pos 0)) won_one d
          (λ missing. ground (arith, present winner e))
    go false e = refl

-- The points of the placings of this user.
unfoldable pub earned : Closing → ℕ → List Placed → ℤ
earned c u [] = pos 0
earned c u (e ∷ es) =
    let rest = earned c u es in
    if e.user_id == u then points_for c.points c.is_hybrid e.rank +ℤ rest else rest

paid_twice : (a b : ℤ) (c : Career) → paid b (paid a c) ≡ paid (a +ℤ b) c
paid_twice a b c = ap (λ n. record c { global_points = n }) (+ℤ_assoc c.global_points a b)

+ℤ_zero : (a : ℤ) → a +ℤ pos 0 ≡ a
unfolding ◌+ℤ◌
+ℤ_zero a = ground arith

paid_nothing : (c : Career) → paid (pos 0) c ≡ c
paid_nothing c = ap (λ n. record c { global_points = n }) (+ℤ_zero c.global_points)

pay_more :
    (pts rest : ℤ) (b h k : Bool) (x y : Career)
    → (h ≡ true → k ≡ b)
    → y ≡ (if b then (if h then paid pts x else x) else x)
    → (if k then paid rest y else y) ≡ (if k then paid (if h then pts +ℤ rest else rest) x else x)
pay_more pts rest true true true x y e f = ap (paid rest) f ∙ paid_twice pts rest x
pay_more pts rest false true true x y e f = ground (arith, e refl)
pay_more pts rest true false true x y e f = ap (paid rest) f
pay_more pts rest false false true x y e f = ap (paid rest) f
pay_more pts rest true true false x y e f = ground (arith, e refl)
pay_more pts rest false true false x y e f = f
pay_more pts rest true false false x y e f = f
pay_more pts rest false false false x y e f = f

credit_placings-career :
    (c : Closing) (ids : List ℕ) (es : List Placed) (u : ℕ) (d : Dict Career)
    → career (credit_placings c ids es d) u
      ≡ (if contains u ids then paid (earned c u es) (career d u) else career d u)
unfolding credit_placings earned
credit_placings-career c ids [] u d = unpaid (contains u ids)
  where
    unpaid : (b : Bool) → career d u ≡ (if b then paid (pos 0) (career d u) else career d u)
    unpaid true = sym (paid_nothing (career d u))
    unpaid false = refl
credit_placings-career c ids (e ∷ es) u d =
    let pts = points_for c.points c.is_hybrid e.rank in
    let written : Dict Career =
      if contains e.user_id ids then upsert e.user_id (new_career 0 0 pts) (paid pts) d else d in
    credit_placings-career c ids es u written
    ∙ pay_more pts (earned c u es) (contains e.user_id ids) (e.user_id == u) (contains u ids)
        (career d u) (career written u) (same-contains e.user_id u ids)
        (go pts (contains e.user_id ids))
  where
    go :
        (pts : ℤ) (b : Bool)
        → career (if b then upsert e.user_id (new_career 0 0 pts) (paid pts) d else d) u ≡ (
            if b
            then (if e.user_id == u then paid pts (career d u) else career d u)
            else career d u)
    go pts true =
        upsert-career e.user_id u (new_career 0 0 pts) (paid pts) d
          (λ missing. ap (new_career 0 0) (sym (+ℤ_comm (pos 0) pts ∙ +ℤ_zero pts)))
    go pts false = refl

-- What one user has after a tournament.
abbrev pub rewarded : Closing → Option ℕ → ℕ → Career → Career
rewarded c winner u before =
    if contains u (registered c.entrants)
    then paid (earned c u c.placings) (crowned_if (winner ==? some u) (played_one before))
    else before

credit_table-career :
    (c : Closing) (winner : Option ℕ) (u : ℕ) (d : Dict Career)
    → Distinct (registered c.entrants)
    → career (credit_table c winner d) u ≡ rewarded c winner u (career d u)
unfolding credit_table
credit_table-career c winner u d distinct =
    let ids = registered c.entrants in
    let played : Dict Career = credit_played ids d in
    credit_placings-career c ids c.placings u (credit_winner ids winner played)
    ∙ ap (λ x. if contains u ids then paid (earned c u c.placings) x else x)
        (credit_winner-career ids winner u played
            (λ id h. ground (arith, credit_played-is_some ids id d))
          ∙ ap (crowned_if (contains u ids && (winner ==? some u)))
              (credit_played-career ids u d distinct))
    ∙ guest (contains u ids) (winner ==? some u)
  where
    guest :
        (b w : Bool)
        → (if b
            then paid
                (earned c u c.placings)
                (crowned_if (b && w) (if b then played_one (career d u) else career d u))
            else crowned_if (b && w) (if b then played_one (career d u) else career d u))
          ≡ (if b
              then paid (earned c u c.placings) (crowned_if w (played_one (career d u)))
              else career d u)
    guest true w = refl
    guest false w = refl

-- Completing a tournament that is not completed gives every registered participant one tournament
-- played, the points of each of the final placings that name them, and the winner one tournament won:
-- in the global table, and in the game's table if there is a game. Guests and everybody else keep what
-- they had, and completing it again changes nothing. No two participants may be the same user.
pub complete-rewarded :
    (c again : Closing) (h : Hall) (u : ℕ)
    → Distinct (registered c.entrants)
    → is_closed h.status ≡ false
    → (let winner = final_winner h.winner_id c.placings in
        (career (complete c h).global u ≡ rewarded c winner u (career h.global u))
        × ((career (complete c h).by_game u ≡ (
              if c.has_game then rewarded c winner u (career h.by_game u) else career h.by_game u))
            × (complete again (complete c h) ≡ complete c h)))
unfolding complete close
complete-rewarded c again h u distinct fresh =
    let winner = final_winner h.winner_id c.placings in
    rw fresh (credit_table-career c winner u h.global distinct, (table c.has_game, refl))
  where
    table :
        (b : Bool)
        → (let winner = final_winner h.winner_id c.placings in
            career (if b then credit_table c winner h.by_game else h.by_game) u
            ≡ (if b then rewarded c winner u (career h.by_game u) else career h.by_game u))
    table true = credit_table-career c (final_winner h.winner_id c.placings) u h.by_game distinct
    table false = refl
