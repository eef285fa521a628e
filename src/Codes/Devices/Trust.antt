-- ===== src/Codes/Devices/Trust.antt =====
-- Which browsers are trusted, in src/auth/two-factor.service.ts.
use joust_backend.Prelude.{
  ℕ, ◌≡◌, refl, subst, Option, none, some, List, [], ◌∷◌, Bool, true, false, not, select, ltb, ◌==◌,
  ◌==?◌, if◌then◌else◌, arith,
}
use joust_backend.Codes.Devices.{
  Device, find_device, delete_device, touch_device, is_trusted_device, is_kept, revoke_devices,
}

find_device-select :
    (p : Device → Bool) (h : ℕ) (ds : List Device) (d : Device)
    → find_device h (select p ds) ≡ some d
    → (p d ≡ true) × ((d.token_hash == h) ≡ true)
unfolding find_device
find_device-select p h [] d e = ground arith
find_device-select p h (x ∷ ds) d e = go (p x) refl e (find_device-select p h ds d)
  where
    Chosen : Device → Type 0
    Chosen y = (p y ≡ true) × ((y.token_hash == h) ≡ true)

    first :
        (b : Bool)
        → (x.token_hash == h) ≡ b
        → p x ≡ true
        → (find_device h (select p ds) ≡ some d → Chosen d)
        → (if b then some x else find_device h (select p ds)) ≡ some d
        → Chosen d
    first true same q rest found =
        subst (λ r. elim r [ none ↦ Unit | some y ↦ Chosen y ]) found (q, same)
    first false same q rest found = rest found

    go :
        (b : Bool)
        → p x ≡ b
        → find_device h (elim b [ true ↦ x ∷ select p ds | false ↦ select p ds ]) ≡ some d
        → (find_device h (select p ds) ≡ some d → Chosen d)
        → Chosen d
    go true q found rest = first (x.token_hash == h) refl q rest found
    go false q found rest = rest found

kept_token :
    (user h : ℕ) (keep : Option ℕ) (d : Device)
    → (d.user_id == user) ≡ true
    → (d.token_hash == h) ≡ true
    → is_kept user keep d ≡ true
    → (keep ==? some h) ≡ true
kept_token user h none d own same kept = ground arith
kept_token user h (some token_hash) d own same kept = ground arith

-- After a user's devices are revoked, a browser passes for trusted only with the token that was kept,
-- whenever it asks.
pub revoke_devices-is_trusted_device :
    (now user h : ℕ) (keep : Option ℕ) (devices : List Device)
    → (is_trusted_device now user (some h) (revoke_devices user keep devices).1).0 ≡ true
    → (keep ==? some h) ≡ true
unfolding is_trusted_device revoke_devices
revoke_devices-is_trusted_device now user h keep devices trusted =
    go (find_device h left) refl trusted
  where
    left : List Device
    left = select (is_kept user keep) devices

    answer : Option Device → Bool × List Device
    answer r = elim r [
      | none ↦ (false, left)
      | some d ↦
          if not (d.user_id == user)
          then (false, left)
          else if ltb d.expires_at now
          then (false, delete_device d.device_id left)
          else (true, touch_device d.device_id now left)
    ]

    own : (d : Device) → (answer (some d)).0 ≡ true → (d.user_id == user) ≡ true
    own d passed = ground arith

    go :
        (r : Option Device)
        → find_device h left ≡ r
        → (answer r).0 ≡ true
        → (keep ==? some h) ≡ true
    go none e passed = ground arith
    go (some d) e passed =
        let found = find_device-select (is_kept user keep) h devices d e in
        kept_token user h keep d (own d passed) found.1 found.0
