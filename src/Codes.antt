-- ===== src/Codes.antt =====
-- The codes that are sent by mail: `issueCode` and `checkCode` of src/auth/two-factor.service.ts, for
-- one user. The hash of a code and `bcrypt.compare` are arguments. Times are milliseconds.
pub mod Rate
pub mod Devices
use joust_backend.Prelude.{
  ℕ, zero, suc, ◌+◌, ◌-◌, ◌*◌, ◌/◌, Option, none, some, is_some, List, [], ◌∷◌, Bool, true, false,
  not, ltb, leb, ◌&&◌, if◌then◌else◌,
}

abbrev pub signin_code_ttl_ms : ℕ
signin_code_ttl_ms = 600000

abbrev pub verify_code_ttl_ms : ℕ
verify_code_ttl_ms = 900000

abbrev pub max_attempts : ℕ
max_attempts = 5

abbrev pub resend_throttle_ms : ℕ
resend_throttle_ms = 60000

-- `CodeKind`
pub data CodeKind : Type 0 where
  signin verify reset change : CodeKind

-- A row of `TwoFactorCode`.
pub record CodeRow : Type 0 where
  pub code_hash : ℕ
  pub created_at : ℕ
  pub expires_at : ℕ
  pub consumed_at : Option ℕ
  pub succeeded_at : Option ℕ
  pub attempts : ℕ

-- `CodeIssue`: `throttled` carries `retryAfterSeconds`.
pub data CodeIssue : Type 0 where
  sent no_address undelivered : CodeIssue
  throttled : ℕ → CodeIssue

-- `CodeCheck`: `no_code` is the reason `none`.
pub data CodeCheck : Type 0 where
  passed expired invalid exhausted no_code : CodeCheck

-- `ttl`
unfoldable pub ttl_of : CodeKind → ℕ
ttl_of signin = signin_code_ttl_ms
ttl_of verify = verify_code_ttl_ms
ttl_of reset = verify_code_ttl_ms
ttl_of change = verify_code_ttl_ms

-- The seconds to wait after the latest code, unless it was entered correctly. The rows are in
-- descending order of their creation.
unfoldable pub wait_of : ℕ → List CodeRow → Option ℕ
wait_of now [] = none
wait_of now (latest ∷ rows) =
    if not (is_some latest.succeeded_at) && ltb now (latest.created_at + resend_throttle_ms)
    then some ((latest.created_at + resend_throttle_ms - now + 999) / 1000)
    else none

unfoldable pub consume : ℕ → CodeRow → CodeRow
consume now r = if is_some r.consumed_at then r else record r { consumed_at = some now }

-- `updateMany` on the codes that are not consumed.
unfoldable pub consume_all : ℕ → List CodeRow → List CodeRow
consume_all now [] = []
consume_all now (r ∷ rows) = consume now r ∷ consume_all now rows

-- The new code before the others.
unfoldable pub add_code : ℕ → CodeKind → ℕ → List CodeRow → List CodeRow
add_code now kind code_hash rows =
    record {
      code_hash = code_hash;
      created_at = now;
      expires_at = now + ttl_of kind;
      consumed_at = none;
      succeeded_at = none;
      attempts = 0;
    }
    ∷ consume_all now rows

-- `issueCode`: whether the account has an address, and whether the mail is delivered, are arguments.
unfoldable pub issue_code :
    ℕ → CodeKind → ℕ → (has_address delivered : Bool) → List CodeRow → CodeIssue × List CodeRow
issue_code now kind code_hash has_address delivered rows =
    if not has_address then (no_address, rows) else (elim (wait_of now rows) [
      | some seconds ↦ (throttled seconds, rows)
      | none ↦ (if delivered then sent else undelivered, add_code now kind code_hash rows)
    ])

-- One more wrong guess, which may be the last.
unfoldable pub failed : ℕ → CodeRow → CodeCheck × CodeRow
failed now r =
    if leb max_attempts (suc r.attempts)
    then (exhausted, record r { attempts = suc r.attempts; consumed_at = some now })
    else (invalid, record r { attempts = suc r.attempts })

-- The check of the code that is not consumed.
unfoldable pub check_row : (ℕ → ℕ → Bool) → ℕ → ℕ → CodeRow → CodeCheck × CodeRow
check_row compare now code r =
    if ltb r.expires_at now
    then (expired, record r { consumed_at = some now })
    else if leb max_attempts r.attempts
    then (exhausted, record r { consumed_at = some now })
    else if compare code r.code_hash
    then (passed, record r { consumed_at = some now; succeeded_at = some now })
    else failed now r

-- `checkCode`: the latest code that is not consumed.
unfoldable pub check_code : (ℕ → ℕ → Bool) → ℕ → ℕ → List CodeRow → CodeCheck × List CodeRow
check_code compare now code [] = (no_code, [])
check_code compare now code (r ∷ rows) =
    let rest = check_code compare now code rows in
    let here = check_row compare now code r in
    if is_some r.consumed_at then (rest.0, r ∷ rest.1) else (here.0, here.1 ∷ rows)
