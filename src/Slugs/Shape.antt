-- ===== src/Slugs/Shape.antt =====
-- What a slug looks like, in src/user/user-slug.util.ts.
use joust_backend.Prelude.{
  ℕ, zero, suc, ◌≤◌, ◌<◌, ◌≡◌, refl, sym, subst, List, [], ◌∷◌, ◌++◌, Bool, true, false, every,
  ◌||◌, ◌==◌, length, if◌then◌else◌, arith,
}
use joust_backend.Slugs.{
  Slug, is_alphanumeric, to_lower_case, put_dash, dashed, drop_dashes, put_unless_last,
  drop_last_dashes, take, max_len, same_slug, edit, me, is_reserved, unreserved, slugify_username,
}

-- A letter, a digit or a dash.
unfoldable pub is_slug_char : ℕ → Bool
is_slug_char c = is_alphanumeric c || c == 45

every-put_dash :
    (cs : List ℕ) → every is_slug_char cs ≡ true → every is_slug_char (put_dash cs) ≡ true
unfolding put_dash is_slug_char is_alphanumeric
every-put_dash [] h = refl
every-put_dash (c ∷ cs) h = ground arith

every-dashed : (cs : List ℕ) → every is_slug_char (dashed cs) ≡ true
unfolding dashed is_slug_char
every-dashed [] = refl
every-dashed (c ∷ cs) = ground (arith, every-dashed cs, every-put_dash (dashed cs))

every-drop_dashes :
    (cs : List ℕ) → every is_slug_char cs ≡ true → every is_slug_char (drop_dashes cs) ≡ true
unfolding drop_dashes
every-drop_dashes [] h = refl
every-drop_dashes (c ∷ cs) h = ground (arith, every-drop_dashes cs)

every-put_unless_last :
    (c : ℕ) (cs : List ℕ)
    → is_slug_char c ≡ true
    → every is_slug_char cs ≡ true
    → every is_slug_char (put_unless_last c cs) ≡ true
unfolding put_unless_last
every-put_unless_last c [] here h = ground arith
every-put_unless_last c (d ∷ ds) here h = ground arith

every-drop_last_dashes :
    (cs : List ℕ) → every is_slug_char cs ≡ true → every is_slug_char (drop_last_dashes cs) ≡ true
unfolding drop_last_dashes
every-drop_last_dashes [] h = refl
every-drop_last_dashes (c ∷ cs) h =
    every-put_unless_last c (drop_last_dashes cs) (ground arith)
      (every-drop_last_dashes cs (ground arith))

every-take :
    (n : ℕ) (cs : List ℕ) → every is_slug_char cs ≡ true → every is_slug_char (take n cs) ≡ true
unfolding take
every-take zero cs h = refl
every-take (suc n) [] h = refl
every-take (suc n) (c ∷ cs) h = ground (arith, every-take n cs)

length-take : (n : ℕ) (cs : List ℕ) → length (take n cs) ≤ n
unfolding take
length-take zero cs = omega arith
length-take (suc n) [] = omega arith
length-take (suc n) (c ∷ cs) = omega (arith, length-take n cs)

-- A reserved slug is one of two, and with the suffix it is neither of them.
abbrev WellShaped : Slug → Type 0
WellShaped slug =
    (is_reserved slug ≡ false)
    × ((0 < length slug) × ((length slug ≤ max_len) × (every is_slug_char slug ≡ true)))

same_slug_equal : (a b : Slug) → same_slug a b ≡ true → a ≡ b
unfolding same_slug
same_slug_equal [] [] h = refl
same_slug_equal [] (d ∷ ds) h = ground arith
same_slug_equal (c ∷ cs) [] h = ground arith
same_slug_equal (c ∷ cs) (d ∷ ds) h = ground (arith, same_slug_equal cs ds)

suffixed-WellShaped : (cs : Slug) → is_reserved cs ≡ true → WellShaped (cs ++ (45 ∷ 49 ∷ []))
unfolding is_reserved same_slug is_slug_char is_alphanumeric
suffixed-WellShaped cs h = go (same_slug cs edit) refl
  where
    go : (b : Bool) → same_slug cs edit ≡ b → WellShaped (cs ++ (45 ∷ 49 ∷ []))
    go true e =
        subst (λ (word : Slug). WellShaped (word ++ (45 ∷ 49 ∷ [])))
          (sym (same_slug_equal cs edit e)) (refl, (omega arith, (omega arith, refl)))
    go false e =
        subst (λ (word : Slug). WellShaped (word ++ (45 ∷ 49 ∷ [])))
          (sym (same_slug_equal cs me (ground arith))) (refl, (omega arith, (omega arith, refl)))

player_unreserved : is_reserved (unreserved []) ≡ false
unfolding is_reserved same_slug
player_unreserved = refl

unreserved-WellShaped :
    (cs : Slug) → length cs ≤ max_len → every is_slug_char cs ≡ true → WellShaped (unreserved cs)
unfolding is_slug_char is_alphanumeric
unreserved-WellShaped [] short h = (player_unreserved, (omega arith, (omega arith, refl)))
unreserved-WellShaped (c ∷ cs) short h = go (is_reserved (c ∷ cs)) refl
  where
    go :
        (b : Bool)
        → is_reserved (c ∷ cs) ≡ b
        → WellShaped (if b then (c ∷ cs) ++ (45 ∷ 49 ∷ []) else c ∷ cs)
    go true e = suffixed-WellShaped (c ∷ cs) e
    go false e = (e, (omega arith, (short, h)))

-- The slug of a name is made of letters, digits and dashes, is not empty, has at most 40 characters
-- and is no reserved word.
pub slugify_username_shape :
    (username : List ℕ)
    → (is_reserved (slugify_username username) ≡ false)
      × ((0 < length (slugify_username username))
          × ((length (slugify_username username) ≤ 40)
              × (every is_slug_char (slugify_username username) ≡ true)))
unfolding slugify_username
slugify_username_shape username =
    let cs = drop_last_dashes (drop_dashes (dashed (to_lower_case username))) in
    unreserved-WellShaped (take max_len cs) (length-take max_len cs) (
      every-take max_len cs
        (every-drop_last_dashes _ (every-drop_dashes _ (every-dashed (to_lower_case username)))))
