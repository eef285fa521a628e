-- ===== src/Codes/Devices.antt =====
-- Recovery codes, trusted devices and the enforcement of the second factor in
-- src/auth/two-factor.service.ts, for one user. Hashes of tokens are numbers; the hash of a token and
-- `bcrypt.compare` are arguments.
pub mod Trust
use joust_backend.Prelude.{
  ℕ, ◌+◌, Option, none, some, or_else, is_some, List, [], ◌∷◌, Bool, true, false, not, any, ltb,
  select, length, ◌-◌, ◌&&◌, ◌||◌, ◌==◌, if◌then◌else◌,
}
use joust_backend.Slugs.{same_slug}

abbrev pub device_ttl_ms : ℕ
device_ttl_ms = 2592000000

-- `hashes.filter((h) => h !== hash)`
unfoldable pub without_hash : ℕ → List ℕ → List ℕ
without_hash hash [] = []
without_hash hash (h ∷ hs) = let rest = without_hash hash hs in if h == hash then rest else h ∷ rest

-- The first hash that the code belongs to.
unfoldable pub matching_hash : (ℕ → ℕ → Bool) → ℕ → List ℕ → Option ℕ
matching_hash compare code [] = none
matching_hash compare code (h ∷ hs) =
    let rest = matching_hash compare code hs in if compare code h then some h else rest

-- `useRecoveryCode`, on the code in capitals.
unfoldable pub use_recovery_code : (ℕ → ℕ → Bool) → ℕ → List ℕ → Bool × List ℕ
use_recovery_code compare code hashes = elim (matching_hash compare code hashes) [
  | none ↦ (false, hashes)
  | some hash ↦ (true, without_hash hash hashes)
]

-- A row of `TrustedDevice`, whose hash is unique.
pub record Device : Type 0 where
  pub device_id : ℕ
  pub user_id : ℕ
  pub token_hash : ℕ
  pub expires_at : ℕ
  pub last_used_at : ℕ

-- `trustDevice`
unfoldable pub trust_device : ℕ → ℕ → ℕ → ℕ → List Device → List Device
trust_device id now user token_hash devices =
    record {
      device_id = id;
      user_id = user;
      token_hash = token_hash;
      expires_at = now + device_ttl_ms;
      last_used_at = now;
    }
    ∷ devices

unfoldable pub find_device : ℕ → List Device → Option Device
find_device token_hash [] = none
find_device token_hash (d ∷ ds) =
    let rest = find_device token_hash ds in if d.token_hash == token_hash then some d else rest

unfoldable pub delete_device : ℕ → List Device → List Device
delete_device id [] = []
delete_device id (d ∷ ds) =
    let rest = delete_device id ds in if d.device_id == id then rest else d ∷ rest

unfoldable pub touch_device : ℕ → ℕ → List Device → List Device
touch_device id now [] = []
touch_device id now (d ∷ ds) =
    (if d.device_id == id then record d { last_used_at = now } else d) ∷ touch_device id now ds

-- `isTrustedDevice`, by the hash of the token, if there is one.
unfoldable pub is_trusted_device : ℕ → ℕ → Option ℕ → List Device → Bool × List Device
is_trusted_device now user none devices = (false, devices)
is_trusted_device now user (some token_hash) devices = elim (find_device token_hash devices) [
  | none ↦ (false, devices)
  | some d ↦
      if not (d.user_id == user)
      then (false, devices)
      else if ltb d.expires_at now
      then (false, delete_device d.device_id devices)
      else (true, touch_device d.device_id now devices)
]

abbrev pub is_kept : ℕ → Option ℕ → Device → Bool
is_kept user none d = not (d.user_id == user)
is_kept user (some token_hash) d = not (d.user_id == user) || d.token_hash == token_hash

-- `revokeDevices`, but for one token: the rows that stay. The count is of those that go.
unfoldable pub revoke_devices : ℕ → Option ℕ → List Device → ℕ × List Device
revoke_devices user keep devices =
    let left = select (is_kept user keep) devices in (length devices - length left, left)

-- `forgetDevice`
unfoldable pub forget_device : ℕ → ℕ → List Device → Bool × List Device
forget_device user id devices = (
  any (λ d. d.device_id == id && d.user_id == user) devices,
  select (λ d. not (d.device_id == id && d.user_id == user)) devices,
)

-- `listDevices`, in any order: the devices with the mark of the one that asks.
unfoldable pub list_devices : ℕ → ℕ → Option ℕ → List Device → List (Device × Bool)
list_devices now user current [] = []
list_devices now user current (d ∷ ds) =
    let rest = list_devices now user current ds in
    if d.user_id == user && ltb now d.expires_at
    then (d, elim current [ none ↦ false | some token_hash ↦ d.token_hash == token_hash ]) ∷ rest
    else rest

-- The modes of `enforcementMode`.
pub data Enforcement : Type 0 where
  for_all for_staff off : Enforcement

-- `off` and `staff` as texts.
abbrev pub off_text : List ℕ
off_text = 111 ∷ 102 ∷ 102 ∷ []

abbrev pub staff_text : List ℕ
staff_text = 115 ∷ 116 ∷ 97 ∷ 102 ∷ 102 ∷ []

-- `enforcementMode`, on the trimmed text in small letters: the override, or else the setting.
unfoldable pub enforcement_mode : Option (List ℕ) → Option (List ℕ) → Enforcement
enforcement_mode override stored =
    let mode = or_else override (or_else stored off_text) in
    if same_slug mode off_text
    then off
    else if same_slug mode staff_text
    then for_staff
    else for_all

-- `emailRequired`
unfoldable pub email_required : Enforcement → Bool
email_required for_all = true
email_required for_staff = true
email_required off = false

-- `isRequiredFor`
unfoldable pub is_required_for : Enforcement → (is_guest is_staff : Bool) → Bool
is_required_for off is_guest is_staff = false
is_required_for for_staff is_guest is_staff = not is_guest && is_staff
is_required_for for_all is_guest is_staff = not is_guest
