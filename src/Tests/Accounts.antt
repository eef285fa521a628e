-- ===== src/Tests/Accounts.antt =====
-- Slugs, codes, trusted devices and staff.
use joust_backend.Prelude.{
  ℕ, ◌+◌, ◌-◌, ◌*◌, ◌≡◌, ◌≤◌, ◌<◌, refl, none, some, List, [], ◌∷◌, Bool, true, false, every,
  length, ◌==◌, ◌==?◌, arith,
}
use joust_backend.Prelude.Dict.{lookup}
use joust_backend.Slugs.{
  Slug, is_available, holder, is_reserved, slugify_username, generate_unique_user_slug,
}
use joust_backend.Slugs.Search.{generate_unique_user_slug_terminates}
use joust_backend.Slugs.Shape.{is_slug_char, slugify_username_shape}
use joust_backend.Codes.{
  CodeKind, wait_of, consume, consume_all, add_code, issue_code, failed, check_row, check_code,
  ttl_of,
}
use joust_backend.Codes.Rate.{
  Ask, request, guess, comparisons, never_passes, is_passed, guesses_per_minute,
}
use joust_backend.Codes.Devices.{Device, find_device, is_trusted_device, revoke_devices}
use joust_backend.Codes.Devices.Trust.{revoke_devices-is_trusted_device}
use joust_backend.Match.{User}
use joust_backend.Staff.{
  standing, row_of, first_denial, allowed_to, is_outsider, put_pending, set_status, invite, respond,
}
use joust_backend.Staff.Consent.{
  Call, invites, responds, reply_to, after, after_all, is_recruited, after_all-is_recruited,
}

-- `Me!`
abbrev username : List ℕ
username = 77 ∷ 101 ∷ 33 ∷ []

slugify_username_shape_example :
    (is_reserved (slugify_username username) ≡ false)
    × ((0 < length (slugify_username username))
        × ((length (slugify_username username) ≤ 40)
            × (every is_slug_char (slugify_username username) ≡ true)))
slugify_username_shape_example = slugify_username_shape username

abbrev users : List (Slug × ℕ)
users = (109 ∷ 101 ∷ 45 ∷ 49 ∷ [], 7) ∷ []

generate_unique_user_slug_terminates_example :
    (slug : Slug) × ((generate_unique_user_slug 3 users username none ≡ some slug)
      × (is_available none (holder slug users) ≡ true))
generate_unique_user_slug_terminates_example =
    generate_unique_user_slug_terminates 3 users username none (omega arith)

-- A code, a wrong guess, a request that comes too soon, and another wrong guess.
abbrev asks : List Ask
asks =
    request 1000 CodeKind.signin 4711 true true
    ∷ guess 2000 1
    ∷ request 30000 CodeKind.signin 4712 true true
    ∷ guess 40000 2
    ∷ []

abbrev same_code : ℕ → ℕ → Bool
same_code a b = a == b

guesses_per_minute_example : 60000 * comparisons same_code asks [] ≤ 5 * (60000 + (40000 - 1000))
unfolding never_passes is_passed issue_code wait_of add_code consume_all consume check_code
    check_row failed ttl_of
guesses_per_minute_example = guesses_per_minute same_code asks 1000 40000 refl (
  (omega arith, omega arith),
  ((omega arith, omega arith), ((omega arith, omega arith), ((omega arith, omega arith), tt))),
)

abbrev devices : List Device
devices =
    record { device_id = 1; user_id = 7; token_hash = 50; expires_at = 900; last_used_at = 3 }
    ∷ record { device_id = 2; user_id = 7; token_hash = 60; expires_at = 900; last_used_at = 3 }
    ∷ []

revoke_devices-is_trusted_device_example : (some 60 ==? some 60) ≡ true
unfolding is_trusted_device revoke_devices find_device
revoke_devices-is_trusted_device_example =
    revoke_devices-is_trusted_device 100 7 60 (some 60) devices refl

-- The creator invites user 5, who accepts.
abbrev creator : User
creator = record { user_id = 9; is_admin = false }

abbrev calls : List Call
calls = invites 1 5 creator ∷ responds 1 5 true ∷ []

after_all-is_recruited_example : is_recruited (some 9) (λ u. some true) 5 calls ≡ true
unfolding after_all after reply_to invite respond allowed_to first_denial is_outsider standing
    row_of put_pending set_status lookup
after_all-is_recruited_example = after_all-is_recruited (some 9) (λ u. some true) 5 calls refl
