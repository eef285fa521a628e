-- ===== src/Match/Seating.antt =====
-- How `advanceWinner` and `advanceLoser` fill the two seats of a later match.
use joust_backend.Prelude.{ℕ, ◌≡◌, ◌≢◌, refl, ap, ◌∙◌, Option, none, some, false, ◌==◌, arith}
use joust_backend.Prelude.Dict.{lookup}
use joust_backend.Match.{
  MatchStatus, MatchRow, World, put_match, Tournament, Reply, ok, refused, first_refusal, Refusal,
}
use joust_backend.Match.Service.{Handler, guarded}
use joust_backend.Match.Lifecycle.{seat_winner, advance, resolve_forfeited_pairing, resolve_pair}
use joust_backend.Match.Deferral.{then_do, lookup_put, put_twice}

-- The row of a later match with these seats, which has not been played.
abbrev pub waiting : Option ℕ → Option ℕ → MatchRow → MatchRow
waiting p1 p2 m = record m {
  status = MatchStatus.pending;
  player1_id = p1;
  player2_id = p2;
  is_bye = false;
}

resolve_active :
    (handle : Handler) (t : Tournament) (now next a b : ℕ) (m : MatchRow) (v : World)
    → lookup next v.matches ≡ some (waiting (some a) (some b) m)
    → t.is_forfeited a ≡ false
    → t.is_forfeited b ≡ false
    → resolve_forfeited_pairing handle t now next v ≡ ok v
unfolding resolve_forfeited_pairing resolve_pair
resolve_active handle t now next a b m v here in1 in2 =
    rw (here, resolve_forfeited_pairing, in1, in2) refl

module _ (handle : Handler) (t : Tournament) (now next : ℕ) (m : MatchRow) (w : World) where
  advance_first :
      (a : ℕ)
      → lookup next w.matches ≡ some (waiting none none m)
      → advance handle t now a next w ≡ ok (put_match next (waiting (some a) none m) w)
  unfolding advance guarded first_refusal seat_winner
  advance_first a here = rw (here, advance) refl

  advance_second :
      (a b : ℕ)
      → a ≢ b
      → lookup next w.matches ≡ some (waiting (some a) none m)
      → t.is_forfeited a ≡ false
      → t.is_forfeited b ≡ false
      → advance handle t now b next w ≡ ok (put_match next (waiting (some a) (some b) m) w)
  unfolding advance guarded first_refusal seat_winner
  advance_second a b ne here in1 in2 =
      let other : (a == b) ≡ false = ground arith in
      let row = waiting (some a) (some b) m in
      rw (here, advance, other)
        (resolve_active handle t now next a b m (put_match next row w)
          (lookup_put next row w.matches) in1 in2)

  advance_third :
      (a b c : ℕ)
      → a ≢ c
      → b ≢ c
      → lookup next w.matches ≡ some (waiting (some a) (some b) m)
      → advance handle t now c next w ≡ refused Refusal.started_or_full
  unfolding advance guarded first_refusal
  advance_third a b c ne1 ne2 here =
      let other1 : (a == c) ≡ false = ground arith in
      let other2 : (b == c) ≡ false = ground arith in rw (here, advance, other1, other2) refl

-- Two different players who did not forfeit, advanced into a later match that waits for both, take
-- its seats in the order they come, and it stays pending; any third player is refused.
pub advance_both :
    (handle : Handler) (t : Tournament) (now next a b c : ℕ) (m : MatchRow) (w : World)
    → a ≢ b
    → a ≢ c
    → b ≢ c
    → lookup next w.matches ≡ some (waiting none none m)
    → t.is_forfeited a ≡ false
    → t.is_forfeited b ≡ false
    → let both = then_do (advance handle t now a next w) (advance handle t now b next) in
      (both ≡ ok (put_match next (waiting (some a) (some b) m) w))
      × (then_do both (advance handle t now c next) ≡ refused Refusal.started_or_full)
advance_both handle t now next a b c m w ab ac bc here in1 in2 =
    let one : World = put_match next (waiting (some a) none m) w in
    let row = waiting (some a) (some b) m in
    let filled : then_do (advance handle t now a next w) (advance handle t now b next)
        ≡ ok (put_match next row w) =
      ap (λ (r : Reply World). then_do r (advance handle t now b next))
        (advance_first handle t now next m w a here)
      ∙ advance_second handle t now next m one a b ab (lookup_put next _ w.matches) in1 in2
      ∙ ap ok (put_twice next _ row w) in
    (
      filled,
      ap (λ (r : Reply World). then_do r (advance handle t now c next)) filled
          ∙ advance_third handle t now next m (put_match next row w) a b c ac bc
              (lookup_put next row w.matches),
    )
