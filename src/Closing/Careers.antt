-- ===== src/Closing/Careers.antt =====
-- One user's row of the statistics that src/tournament/tournament.service.ts writes at the end.
use joust_backend.Prelude.{
  ℕ, ◌≡◌, refl, sym, ap, ◌∙◌, Option, none, some, is_some, List, [], ◌∷◌, Bool, true, false, ◌||◌,
  ◌==◌, if◌then◌else◌, arith,
}
use joust_backend.Prelude.Dict.{Dict, lookup, insert, contains, Distinct, lookup-insert}
use joust_backend.Prelude.Int.{pos}
use joust_backend.Closing.{Career, new_career, upsert, played_one, credit_played}

-- A user without a row has played nothing.
abbrev pub blank : Career
blank = new_career 0 0 (pos 0)

abbrev career_in : Option Career → Career
career_in none = blank
career_in (some c) = c

unfoldable pub career : Dict Career → ℕ → Career
career d u = career_in (lookup u d)

career-insert :
    (id u : ℕ) (c : Career) (d : Dict Career)
    → career (insert id c d) u ≡ (if id == u then c else career d u)
unfolding career
career-insert id u c d = ap career_in (lookup-insert id u c d) ∙ spread (id == u)
  where
    spread :
        (b : Bool)
        → career_in (if b then some c else lookup u d) ≡ (if b then c else career_in (lookup u d))
    spread true = refl
    spread false = refl

-- Writing a row that exists, or the one that a blank row would become.
pub upsert-career :
    (id u : ℕ) (create : Career) (update : Career → Career) (d : Dict Career)
    → (lookup id d ≡ none → create ≡ update blank)
    → career (upsert id create update d) u ≡ (if id == u then update (career d u) else career d u)
unfolding upsert career
upsert-career id u create update d fresh = go (lookup id d) refl
  where
    same : (r : Option Career) → lookup id d ≡ r → (id == u) ≡ true → career d u ≡ career_in r
    same r e hit = ap career_in (ap (λ n. lookup n d) (ground arith) ∙ e)

    go :
        (r : Option Career)
        → lookup id d ≡ r
        → career (elim r [ none ↦ insert id create d | some c ↦ insert id (update c) d ]) u
          ≡ (if id == u then update (career d u) else career d u)
    go none e = career-insert id u create d ∙ swap (id == u) refl
      where
        swap :
            (b : Bool)
            → (id == u) ≡ b
            → (if b then create else career d u) ≡ (if b then update (career d u) else career d u)
        swap true hit = fresh e ∙ ap update (sym (same none e hit))
        swap false miss = refl
    go (some c) e = career-insert id u (update c) d ∙ swap (id == u) refl
      where
        swap :
            (b : Bool)
            → (id == u) ≡ b
            → (if b then update c else career d u) ≡ (if b then update (career d u) else career d u)
        swap true hit = ap update (sym (same (some c) e hit))
        swap false miss = refl

pub upsert-is_some :
    (id u : ℕ) (create : Career) (update : Career → Career) (d : Dict Career)
    → is_some (lookup u (upsert id create update d)) ≡ ((id == u) || is_some (lookup u d))
unfolding upsert
upsert-is_some id u create update d = go (lookup id d)
  where
    go :
        (r : Option Career)
        → is_some
            (lookup u (elim r [ none ↦ insert id create d | some c ↦ insert id (update c) d ]))
          ≡ ((id == u) || is_some (lookup u d))
    go none = ground (arith, lookup-insert id u create d)
    go (some c) = ground (arith, lookup-insert id u (update c) d)

pub credit_played-is_some :
    (ids : List ℕ) (u : ℕ) (d : Dict Career)
    → is_some (lookup u (credit_played ids d)) ≡ (contains u ids || is_some (lookup u d))
unfolding credit_played contains
credit_played-is_some [] u d = refl
credit_played-is_some (id ∷ ids) u d = ground (
  arith,
  credit_played-is_some ids u (upsert id (new_career 1 0 (pos 0)) played_one d),
  upsert-is_some id u (new_career 1 0 (pos 0)) played_one d,
)

once_only :
    (update : Career → Career) (b1 b2 : Bool) (x y : Career)
    → (b1 ≡ true → b2 ≡ false)
    → y ≡ (if b1 then update x else x)
    → (if b2 then update y else y) ≡ (if b1 || b2 then update x else x)
once_only update true true x y apart e = ground (arith, apart refl)
once_only update true false x y apart e = e
once_only update false true x y apart e = ap update e
once_only update false false x y apart e = e

pub credit_played-career :
    (ids : List ℕ) (u : ℕ) (d : Dict Career)
    → Distinct ids
    → career (credit_played ids d) u
      ≡ (if contains u ids then played_one (career d u) else career d u)
unfolding credit_played contains
credit_played-career [] u d distinct = refl
credit_played-career (id ∷ ids) u d (once, distinct) =
    let written : Dict Career = upsert id (new_career 1 0 (pos 0)) played_one d in
    credit_played-career ids u written distinct
    ∙ once_only played_one (id == u) (contains u ids) (career d u) (career written u)
        (λ hit. ap (λ n. contains n ids) (ground arith) ∙ once)
        (upsert-career id u (new_career 1 0 (pos 0)) played_one d (λ missing. refl))
