-- ===== src/Slugs.antt =====
-- The public handles of users: src/user/user-slug.util.ts. A text is the list of its characters.
pub mod Shape
pub mod Search
use joust_backend.Prelude.{
  ℕ, zero, suc, ◌+◌, ◌-◌, ◌*◌, ◌/◌, ◌%◌, Option, none, some, List, [], ◌∷◌, ◌++◌, Bool, true, false,
  ltb, leb, ◌&&◌, ◌||◌, ◌==◌, length, if◌then◌else◌,
}

abbrev pub Slug : Type 0
Slug = List ℕ

-- `a` to `z` and `0` to `9`.
unfoldable pub is_alphanumeric : ℕ → Bool
is_alphanumeric c = (leb 97 c && leb c 122) || (leb 48 c && leb c 57)

-- `toLowerCase` on the characters that it turns into letters of the alphabet: the capitals, the sign
-- of the kelvin and the dotted capital I. What it makes of any other is no letter and no digit either.
unfoldable pub lower : ℕ → List ℕ
lower c =
    if leb 65 c && leb c 90
    then (c + 32) ∷ []
    else if c == 8490
    then 107 ∷ []
    else if c == 304
    then 105 ∷ 775 ∷ []
    else c ∷ []

unfoldable pub to_lower_case : List ℕ → List ℕ
to_lower_case [] = []
to_lower_case (c ∷ cs) = lower c ++ to_lower_case cs

-- A dash before the rest, which may begin with the dash of the same run.
unfoldable pub put_dash : List ℕ → List ℕ
put_dash [] = 45 ∷ []
put_dash (c ∷ cs) = if c == 45 then c ∷ cs else 45 ∷ c ∷ cs

-- `.replace(/[^a-z0-9]+/g, '-')`
unfoldable pub dashed : List ℕ → List ℕ
dashed [] = []
dashed (c ∷ cs) = let rest = dashed cs in if is_alphanumeric c then c ∷ rest else put_dash rest

unfoldable pub drop_dashes : List ℕ → List ℕ
drop_dashes [] = []
drop_dashes (c ∷ cs) = let rest = drop_dashes cs in if c == 45 then rest else c ∷ cs

unfoldable pub put_unless_last : ℕ → List ℕ → List ℕ
put_unless_last c [] = if c == 45 then [] else c ∷ []
put_unless_last c (d ∷ ds) = c ∷ d ∷ ds

unfoldable pub drop_last_dashes : List ℕ → List ℕ
drop_last_dashes [] = []
drop_last_dashes (c ∷ cs) = put_unless_last c (drop_last_dashes cs)

-- `.slice(0, n)`
unfoldable pub take : ℕ → List ℕ → List ℕ
take zero cs = []
take (suc n) [] = []
take (suc n) (c ∷ cs) = c ∷ take n cs

abbrev pub max_len : ℕ
max_len = 40

unfoldable pub same_slug : Slug → Slug → Bool
same_slug [] [] = true
same_slug [] (d ∷ ds) = false
same_slug (c ∷ cs) [] = false
same_slug (c ∷ cs) (d ∷ ds) = let rest = same_slug cs ds in if c == d then rest else false

-- `edit` and `me`
abbrev pub edit : Slug
edit = 101 ∷ 100 ∷ 105 ∷ 116 ∷ []

abbrev pub me : Slug
me = 109 ∷ 101 ∷ []

-- `RESERVED.has`
unfoldable pub is_reserved : Slug → Bool
is_reserved slug = same_slug slug edit || same_slug slug me

-- `player`
abbrev player_slug : Slug
player_slug = 112 ∷ 108 ∷ 97 ∷ 121 ∷ 101 ∷ 114 ∷ []

abbrev pub unreserved : Slug → Slug
unreserved [] = player_slug
unreserved (c ∷ cs) = if is_reserved (c ∷ cs) then (c ∷ cs) ++ (45 ∷ 49 ∷ []) else c ∷ cs

-- `slugifyUsername`; no name is the empty one.
unfoldable pub slugify_username : List ℕ → Slug
slugify_username username =
    unreserved (take max_len (drop_last_dashes (drop_dashes (dashed (to_lower_case username)))))

-- The digits of a number, least first: more fuel than digits is enough.
unfoldable pub digits_loop : ℕ → ℕ → List ℕ → List ℕ
digits_loop zero n after = after
digits_loop (suc fuel) n after =
    let more = digits_loop fuel (n / 10) ((48 + n % 10) ∷ after) in
    if ltb n 10 then (48 + n) ∷ after else more

-- `String(n)`
unfoldable pub decimal : ℕ → List ℕ
decimal n = digits_loop (suc n) n []

-- `base.slice(0, MAX_LEN - suffix.length)`, whose bound counts from the end when it is negative.
unfoldable pub shortened : Slug → ℕ → Slug
shortened base suffix =
    if leb suffix max_len
    then take (max_len - suffix) base
    else take (length base - (suffix - max_len)) base

-- The candidate with the suffix of a number.
unfoldable pub numbered : Slug → ℕ → Slug
numbered base n = let suffix = 45 ∷ decimal n in shortened base (length suffix) ++ suffix

-- The user who has the slug: `user.findUnique`.
unfoldable pub holder : Slug → List (Slug × ℕ) → Option ℕ
holder slug [] = none
holder slug (entry ∷ rest) =
    let others = holder slug rest in if same_slug entry.0 slug then some entry.1 else others

-- `!taken || (ignoreUserId && taken.id === ignoreUserId)`
unfoldable pub is_available : Option ℕ → Option ℕ → Bool
is_available ignored none = true
is_available none (some id) = false
is_available (some user) (some id) = id == user

-- The loop from the candidate of this number on.
unfoldable pub search_slug : ℕ → List (Slug × ℕ) → Option ℕ → Slug → ℕ → Slug → Option Slug
search_slug zero users ignored base n candidate = none
search_slug (suc fuel) users ignored base n candidate =
    let rest = search_slug fuel users ignored base (suc n) (numbered base n) in
    if is_available ignored (holder candidate users) then some candidate else rest

-- `generateUniqueUserSlug`
unfoldable pub generate_unique_user_slug : ℕ → List (Slug × ℕ) → List ℕ → Option ℕ → Option Slug
generate_unique_user_slug fuel users username ignored =
    let base = slugify_username username in search_slug fuel users ignored base 2 base
