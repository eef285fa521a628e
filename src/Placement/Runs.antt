-- ===== src/Placement/Runs.antt =====
-- The order of how far players got, in src/leaderboard/leaderboard.service.ts.
use joust_backend.Prelude.{◌≡◌, refl, ap, true, false, arith}
use joust_backend.Placement.{Run, unbeaten, lost_in, crowned, beyond, same_run}

pub same_run_eq : (a b : Run) → same_run a b ≡ true → a ≡ b
unfolding same_run
same_run_eq unbeaten unbeaten h = refl
same_run_eq unbeaten (lost_in q) h = ground arith
same_run_eq unbeaten crowned h = ground arith
same_run_eq (lost_in r) unbeaten h = ground arith
same_run_eq (lost_in r) (lost_in q) h = ap (λ n. lost_in n) (ground arith)
same_run_eq (lost_in r) crowned h = ground arith
same_run_eq crowned unbeaten h = ground arith
same_run_eq crowned (lost_in q) h = ground arith
same_run_eq crowned crowned h = refl

pub beyond_irrefl : (a : Run) → beyond a a ≡ false
unfolding beyond
beyond_irrefl a = ground arith

pub beyond_asym : (a b : Run) → beyond a b ≡ true → beyond b a ≡ false
unfolding beyond
beyond_asym a b h = ground arith

pub beyond_trans : (a b c : Run) → beyond a b ≡ true → beyond b c ≡ true → beyond a c ≡ true
unfolding beyond
beyond_trans a b c h k = ground arith

pub beyond_neg_trans : (a b c : Run) → beyond a b ≡ false → beyond b c ≡ false → beyond a c ≡ false
unfolding beyond
beyond_neg_trans a b c h k = ground arith

pub beyond_total : (a b : Run) → beyond a b ≡ false → same_run a b ≡ false → beyond b a ≡ true
unfolding beyond same_run
beyond_total a b h k = ground arith
