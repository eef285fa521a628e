-- ===== src/Slugs/Search.antt =====
-- The search for a free slug in src/user/user-slug.util.ts ends.
use joust_backend.Prelude.{
  ℕ, zero, suc, ◌+◌, ◌-◌, ◌*◌, ◌/◌, ◌%◌, ◌≤◌, ◌<◌, ◌≡◌, ◌≢◌, refl, ap, ◌∙◌, Option, none, some,
  List, [], ◌∷◌, ◌++◌, Bool, true, false, ltb, ◌==◌, length, if◌then◌else◌, arith,
}
use joust_backend.Slugs.{
  Slug, same_slug, digits_loop, decimal, shortened, numbered, holder, is_available, search_slug,
  slugify_username, generate_unique_user_slug,
}

-- Reading the number behind the last dash, from what is read so far.
number_of : ℕ → Slug → ℕ
number_of read [] = read
number_of read (c ∷ cs) = if c == 45 then number_of 0 cs else number_of (read * 10 + (c - 48)) cs

number_of-append :
    (read n : ℕ) (prefix suffix : Slug)
    → ((start : ℕ) → number_of start suffix ≡ n)
    → number_of read (prefix ++ suffix) ≡ n
unfolding number_of
number_of-append read n [] suffix h = h read
number_of-append read n (c ∷ prefix) suffix h =
    go (c == 45) (number_of-append 0 n prefix suffix h)
      (number_of-append (read * 10 + (c - 48)) n prefix suffix h)
  where
    go : (b : Bool) {x y : ℕ} → x ≡ n → y ≡ n → (if b then x else y) ≡ n
    go true e f = e
    go false e f = f

digit_read :
    (read digit n : ℕ) (after : Slug)
    → digit < 10
    → read * 10 + digit ≡ n
    → number_of read ((48 + digit) ∷ after) ≡ number_of n after
unfolding number_of
digit_read read digit n after small e = ground (arith, ap (λ k. number_of k after) whole)
  where
    whole : read * 10 + ((48 + digit) - 48) ≡ n
    whole = omega arith

-- The digits of a number read as the number, before whatever follows them.
number_of-digits :
    (fuel n : ℕ) (after : Slug)
    → n < fuel
    → number_of 0 (digits_loop fuel n after) ≡ number_of n after
unfolding digits_loop
number_of-digits zero n after h = ground arith
number_of-digits (suc fuel) n after h =
    go (ltb n 10) refl (number_of-digits fuel (n / 10) ((48 + n % 10) ∷ after))
  where
    go :
        (b : Bool)
        → ltb n 10 ≡ b
        → (n / 10 < fuel
            → number_of 0 (digits_loop fuel (n / 10) ((48 + n % 10) ∷ after))
              ≡ number_of (n / 10) ((48 + n % 10) ∷ after))
        → number_of 0
            (if b then (48 + n) ∷ after else digits_loop fuel (n / 10) ((48 + n % 10) ∷ after))
          ≡ number_of n after
    go true e shorter = digit_read 0 n n after (ground arith) (omega arith)
    go false e shorter =
        shorter (ground arith) ∙ digit_read (n / 10) (n % 10) n after (omega arith) (omega arith)

number_of-numbered : (base : Slug) (n : ℕ) → number_of 0 (numbered base n) ≡ n
unfolding numbered decimal number_of
number_of-numbered base n =
    number_of-append 0 n (shortened base (suc (length (decimal n)))) (45 ∷ decimal n)
      (λ start. number_of-digits (suc n) n [] (omega arith))

same_slug-number_of :
    (a b : Slug) (read : ℕ) → same_slug a b ≡ true → number_of read a ≡ number_of read b
unfolding same_slug number_of
same_slug-number_of [] [] read h = refl
same_slug-number_of [] (d ∷ ds) read h = ground arith
same_slug-number_of (c ∷ cs) [] read h = ground arith
same_slug-number_of (c ∷ cs) (d ∷ ds) read h =
    ground (arith, same_slug-number_of cs ds 0, same_slug-number_of cs ds (read * 10 + (c - 48)))

-- The users without this slug.
drop_slug : Slug → List (Slug × ℕ) → List (Slug × ℕ)
drop_slug slug [] = []
drop_slug slug (entry ∷ rest) =
    let others = drop_slug slug rest in if same_slug entry.0 slug then others else entry ∷ others

length-drop_slug :
    (slug : Slug) (users : List (Slug × ℕ)) → length (drop_slug slug users) ≤ length users
unfolding drop_slug
length-drop_slug slug [] = omega arith
length-drop_slug slug (entry ∷ rest) = ground (arith, length-drop_slug slug rest)

-- A slug that is held is dropped at least once.
drop_slug-shorter :
    (slug : Slug) (users : List (Slug × ℕ)) (id : ℕ)
    → holder slug users ≡ some id
    → length (drop_slug slug users) < length users
unfolding drop_slug holder
drop_slug-shorter slug [] id h = ground arith
drop_slug-shorter slug (entry ∷ rest) id h =
    ground (arith, drop_slug-shorter slug rest id, length-drop_slug slug rest)

-- Dropping a slug does not change who holds another one.
holder-drop_slug :
    (slug other : Slug) (users : List (Slug × ℕ))
    → number_of 0 slug ≢ number_of 0 other
    → holder other (drop_slug slug users) ≡ holder other users
unfolding drop_slug holder
holder-drop_slug slug other [] h = refl
holder-drop_slug slug other (entry ∷ rest) h = ground (
  arith,
  holder-drop_slug slug other rest h,
  same_slug-number_of entry.0 slug 0,
  same_slug-number_of entry.0 other 0,
)

-- The search comes to a candidate that is available.
abbrev Finds : List (Slug × ℕ) → Option ℕ → Option Slug → Type 0
Finds users ignored found =
    (slug : Slug) × ((found ≡ some slug) × (is_available ignored (holder slug users) ≡ true))

taken_by :
    (ignored held : Option ℕ) → is_available ignored held ≡ false → (id : ℕ) × (held ≡ some id)
unfolding is_available
taken_by ignored none h = (0, ground arith)
taken_by ignored (some id) h = (id, refl)

module _ (users : List (Slug × ℕ)) (ignored : Option ℕ) (base : Slug) where
  search_slug-Finds :
      (fuel k : ℕ) (pool : List (Slug × ℕ))
      → ((m : ℕ) → k ≤ m → holder (numbered base m) pool ≡ holder (numbered base m) users)
      → length pool < fuel
      → Finds users ignored (search_slug fuel users ignored base (suc k) (numbered base k))
  unfolding search_slug
  search_slug-Finds zero k pool agree h = ground arith
  search_slug-Finds (suc fuel) k pool agree h =
      go (is_available ignored (holder (numbered base k) users)) refl
        (λ pool'. search_slug-Finds fuel (suc k) pool')
    where
      go :
          (b : Bool)
          → is_available ignored (holder (numbered base k) users) ≡ b
          → ((pool' : List (Slug × ℕ))
              → ((m : ℕ)
                  → suc k ≤ m
                  → holder (numbered base m) pool' ≡ holder (numbered base m) users)
              → length pool' < fuel
              → Finds users ignored
                  (search_slug fuel users ignored base (suc (suc k)) (numbered base (suc k))))
          → Finds users ignored (
              if b
              then some (numbered base k)
              else search_slug fuel users ignored base (suc (suc k)) (numbered base (suc k)))
      go true e later = (numbered base k, (refl, e))
      go false e later = later (drop_slug (numbered base k) pool) still fewer
        where
          held : (id : ℕ) × (holder (numbered base k) users ≡ some id)
          held = taken_by ignored (holder (numbered base k) users) e

          fewer : length (drop_slug (numbered base k) pool) < fuel
          fewer = omega (
            arith,
            drop_slug-shorter (numbered base k) pool held.0 (agree k (omega arith) ∙ held.1),
          )

          apart :
              (m : ℕ) → suc k ≤ m → number_of 0 (numbered base k) ≢ number_of 0 (numbered base m)
          apart m more same =
              omega (arith, number_of-numbered base k, number_of-numbered base m, same, more)

          still :
              (m : ℕ)
              → suc k ≤ m
              → holder (numbered base m) (drop_slug (numbered base k) pool)
                ≡ holder (numbered base m) users
          still m more =
              holder-drop_slug (numbered base k) (numbered base m) pool (apart m more)
              ∙ agree m (omega arith)

-- The search for a slug ends: with fuel for two candidates more than there are slugs, it finds one,
-- which nobody has but the user for whom it is made.
pub generate_unique_user_slug_terminates :
    (fuel : ℕ) (users : List (Slug × ℕ)) (username : List ℕ) (ignored : Option ℕ)
    → suc (length users) < fuel
    → (slug : Slug) × ((generate_unique_user_slug fuel users username ignored ≡ some slug)
        × (is_available ignored (holder slug users) ≡ true))
unfolding generate_unique_user_slug search_slug
generate_unique_user_slug_terminates zero users username ignored h = ground arith
generate_unique_user_slug_terminates (suc fuel) users username ignored h =
    go (is_available ignored (holder base users)) refl
  where
    base : Slug
    base = slugify_username username

    go :
        (b : Bool)
        → is_available ignored (holder base users) ≡ b
        → Finds users ignored
            (if b then some base else search_slug fuel users ignored base 3 (numbered base 2))
    go true e = (base, (refl, e))
    go false e = search_slug-Finds users ignored base fuel 2 users (λ m more. refl) (omega arith)
