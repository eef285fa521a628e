-- ===== src/Codes/Rate.antt =====
-- How often a code can be guessed, in src/auth/two-factor.service.ts.
use joust_backend.Prelude.{
  ℕ, suc, ◌+◌, ◌-◌, ◌*◌, ◌≤◌, ◌≡◌, refl, Option, none, some, is_some, List, [], ◌∷◌, Bool, true,
  false, not, ltb, leb, ◌&&◌, ◌==◌, All, All-map, if◌then◌else◌, arith,
}
use joust_backend.Codes.{
  sent, undelivered, CodeKind, CodeRow, CodeIssue, CodeCheck, passed, expired, invalid, exhausted,
  no_code, max_attempts, wait_of, consume, consume_all, add_code, issue_code, failed, check_row,
  check_code,
}

-- A request for a code, or a guess.
pub data Ask : Type 0 where
  request : (now : ℕ) → CodeKind → (code_hash : ℕ) → (has_address delivered : Bool) → Ask
  guess : (now code : ℕ) → Ask

abbrev pub time_of : Ask → ℕ
time_of (request now kind code_hash has_address delivered) = now
time_of (guess now code) = now

-- The guess is compared with a code.
unfoldable pub is_compared : ℕ → List CodeRow → Bool
is_compared now [] = false
is_compared now (r ∷ rows) =
    let rest = is_compared now rows in
    if is_some r.consumed_at then rest else leb now r.expires_at && ltb r.attempts max_attempts

unfoldable pub is_passed : CodeCheck → Bool
is_passed passed = true
is_passed expired = false
is_passed invalid = false
is_passed exhausted = false
is_passed no_code = false

module _ (compare : ℕ → ℕ → Bool) where
  -- The comparisons in a sequence of requests and guesses.
  unfoldable pub comparisons : List Ask → List CodeRow → ℕ
  comparisons [] rows = 0
  comparisons (request now kind code_hash has_address delivered ∷ asks) rows =
      comparisons asks (issue_code now kind code_hash has_address delivered rows).1
  comparisons (guess now code ∷ asks) rows =
      let rest = comparisons asks (check_code compare now code rows).1 in
      if is_compared now rows then suc rest else rest

  -- No guess of the sequence is right.
  unfoldable pub never_passes : List Ask → List CodeRow → Bool
  never_passes [] rows = true
  never_passes (request now kind code_hash has_address delivered ∷ asks) rows =
      never_passes asks (issue_code now kind code_hash has_address delivered rows).1
  never_passes (guess now code ∷ asks) rows =
      let checked = check_code compare now code rows in
      not (is_passed checked.0) && never_passes asks checked.1

-- The guesses that the codes still allow.
unfoldable pub allowance : List CodeRow → ℕ
allowance [] = 0
allowance (r ∷ rows) =
    let rest = allowance rows in
    if is_some r.consumed_at then rest else (max_attempts - r.attempts) + rest

allowance-consume_all : (now : ℕ) (rows : List CodeRow) → allowance (consume_all now rows) ≡ 0
unfolding allowance consume_all consume
allowance-consume_all now [] = refl
allowance-consume_all now (r ∷ rows) = ground (arith, allowance-consume_all now rows)

allowance-add_code :
    (now : ℕ) (kind : CodeKind) (code_hash : ℕ) (rows : List CodeRow)
    → allowance (add_code now kind code_hash rows) ≡ 5
unfolding allowance add_code
allowance-add_code now kind code_hash rows = ground (arith, allowance-consume_all now rows)

-- A guess that is compared costs one of those that are allowed.
allowance-check_code :
    (compare : ℕ → ℕ → Bool) (now code : ℕ) (rows : List CodeRow)
    → (if is_compared now rows then 1 else 0) + allowance (check_code compare now code rows).1
      ≤ allowance rows
unfolding allowance check_code check_row failed is_compared
allowance-check_code compare now code [] = omega arith
allowance-check_code compare now code (r ∷ rows) =
    ground (arith, allowance-check_code compare now code rows)

-- The latest code was created at this time, and was not entered.
unfoldable pub is_latest : ℕ → List CodeRow → Bool
is_latest time [] = false
is_latest time (r ∷ rows) = r.created_at == time && not (is_some r.succeeded_at)

latest_waits :
    (time now : ℕ) (rows : List CodeRow)
    → is_latest time rows ≡ true
    → wait_of now rows ≡ none
    → time + 60000 ≤ now
unfolding is_latest wait_of
latest_waits time now [] h e = ground arith
latest_waits time now (r ∷ rows) h e = ground arith

latest_kept :
    (compare : ℕ → ℕ → Bool) (time now code : ℕ) (rows : List CodeRow)
    → is_passed (check_code compare now code rows).0 ≡ false
    → is_latest time rows ≡ true
    → is_latest time (check_code compare now code rows).1 ≡ true
unfolding is_latest check_code check_row failed is_passed
latest_kept compare time now code [] h e = ground arith
latest_kept compare time now code (r ∷ rows) h e = ground arith

latest_added :
    (now : ℕ) (kind : CodeKind) (code_hash : ℕ) (rows : List CodeRow)
    → is_latest now (add_code now kind code_hash rows) ≡ true
unfolding is_latest add_code
latest_added now kind code_hash rows = ground arith

module _ (compare : ℕ → ℕ → Bool) (end : ℕ) where
  -- What the guesses may still cost after the latest code.
  abbrev IsBounded : ℕ → List Ask → List CodeRow → Type 0
  IsBounded time asks rows =
      60000 * comparisons compare asks rows ≤ 60000 * allowance rows + 5 * (end - time)

  rate_from :
      (asks : List Ask) (rows : List CodeRow) (time : ℕ)
      → is_latest time rows ≡ true
      → never_passes compare asks rows ≡ true
      → All (λ ask. time_of ask ≤ end) asks
      → IsBounded time asks rows
  unfolding comparisons never_passes issue_code
  rate_from [] rows time latest wrong before = omega arith
  rate_from (guess now code ∷ asks) rows time latest wrong (here, before) = ground (
    arith,
    allowance-check_code compare now code rows,
    rate_from asks (check_code compare now code rows).1 time
        (latest_kept compare time now code rows (ground arith) latest) (ground arith) before,
  )
  rate_from (request now kind code_hash has_address delivered ∷ asks) rows time latest wrong
        (here, before) =
      go has_address (wait_of now rows) refl (λ later last calm. rate_from asks later last calm)
        wrong
    where
      answered : Bool → Option ℕ → CodeIssue × List CodeRow
      answered address waited = if not address then (CodeIssue.no_address, rows) else (elim waited [
        | some seconds ↦ (CodeIssue.throttled seconds, rows)
        | none ↦ (if delivered then sent else undelivered, add_code now kind code_hash rows)
      ])

      next : Bool → Option ℕ → List CodeRow
      next address waited = (answered address waited).1

      go :
          (address : Bool) (waited : Option ℕ)
          → wait_of now rows ≡ waited
          → ((later : List CodeRow) (last : ℕ)
              → is_latest last later ≡ true
              → never_passes compare asks later ≡ true
              → All (λ ask. time_of ask ≤ end) asks
              → IsBounded last asks later)
          → never_passes compare asks (next address waited) ≡ true
          → 60000 * comparisons compare asks (next address waited)
            ≤ 60000 * allowance rows + 5 * (end - time)
      go false waited e rec calm = rec rows time latest calm before
      go true (some seconds) e rec calm = rec rows time latest calm before
      go true none e rec calm = omega (
        arith,
        latest_waits time now rows latest e,
        allowance-add_code now kind code_hash rows,
        rec (add_code now kind code_hash rows) now (latest_added now kind code_hash rows) calm
            before,
      )

  -- Before the first code nothing is compared.
  rate_from_none :
      (asks : List Ask) (start : ℕ)
      → never_passes compare asks [] ≡ true
      → All (λ ask. (start ≤ time_of ask) × (time_of ask ≤ end)) asks
      → 60000 * comparisons compare asks [] ≤ 5 * (60000 + (end - start))
  unfolding comparisons never_passes issue_code wait_of check_code is_compared
  rate_from_none [] start wrong between = omega arith
  rate_from_none (guess now code ∷ asks) start wrong (here, between) =
      rate_from_none asks start (ground arith) between
  rate_from_none (request now kind code_hash false delivered ∷ asks) start wrong (here, between) =
      rate_from_none asks start wrong between
  rate_from_none (request now kind code_hash true delivered ∷ asks) start wrong (here, between) =
      omega (
        arith,
        allowance-add_code now kind code_hash [],
        here.0,
        here.1,
        rate_from asks (add_code now kind code_hash []) now (latest_added now kind code_hash [])
            wrong (All-map (λ ask h. h.1) asks between),
      )

-- For an account without codes, whatever codes are requested and guesses made between two times, and
-- as long as no guess is right: the number of guesses that are compared with a code is at most five,
-- and five more for each minute between the two times.
pub guesses_per_minute :
    (compare : ℕ → ℕ → Bool) (asks : List Ask) (start end : ℕ)
    → never_passes compare asks [] ≡ true
    → All (λ ask. (start ≤ time_of ask) × (time_of ask ≤ end)) asks
    → 60000 * comparisons compare asks [] ≤ 5 * (60000 + (end - start))
guesses_per_minute compare asks start end wrong between =
    rate_from_none compare end asks start wrong between
