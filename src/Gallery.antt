-- ===== src/Gallery.antt =====
-- The galleries of the profiles: src/content/gallery.service.ts, with the rows that
-- src/content/moderation.service.ts writes. The files of the images are left out.
pub mod Moderation
pub mod Hold
pub mod Undo
use joust_backend.Prelude.{
  ℕ, ◌+◌, ◌-◌, ◌*◌, Option, none, some, or_else, is_some, List, [], ◌∷◌, ◌++◌, Bool, true, false,
  not, ◌&&◌, ◌||◌, ◌==◌, ltb, any, select, map, if◌then◌else◌,
}
use joust_backend.Prelude.Dict.{Dict, lookup, insert}
use joust_backend.Guests.{Name}
use joust_backend.Roster.{trim}

-- `removedAt`, `removedById` and `removalReason`, which are written together.
pub record Removal : Type 0 where
  pub removed_at : ℕ
  pub removed_by : ℕ
  pub reason : Name

-- A row of `GalleryImage`.
pub record GalleryImage : Type 0 where
  pub user_id : ℕ
  pub game_id : ℕ
  pub image_url : ℕ
  pub caption : Option Name
  pub removal : Option Removal

pub data ReportStatus : Type 0 where
  awaiting resolved dismissed : ReportStatus

-- A row of `ContentReport`.
pub record ContentReport : Type 0 where
  pub reporter_id : ℕ
  pub image_id : ℕ
  pub from_staff : Bool
  pub status : ReportStatus

pub record Gallery : Type 0 where
  pub images : Dict GalleryImage
  pub reports : List ContentReport

pub data GalleryProblem : Type 0 where
  not_eligible game_not_found not_an_image unreadable_image no_image no_image_for_game item_gone
        own_upload already_reported already_removed no_open_reports not_removed slot_taken :
      GalleryProblem

pub data GalleryReply : Type 0 where
  done : Gallery → GalleryReply
  refused : GalleryProblem → GalleryReply

unfoldable pub first_obstacle : List (Bool × GalleryProblem) → Option GalleryProblem
first_obstacle [] = none
first_obstacle ((fails, why) ∷ guards) = if fails then some why else first_obstacle guards

unfoldable pub unless_refused : List (Bool × GalleryProblem) → Gallery → GalleryReply
unfolding first_obstacle
unless_refused guards g = elim (first_obstacle guards) [ some why ↦ refused why | none ↦ done g ]

-- `removedAt: null`, of this player and this game.
unfoldable pub is_live_in : ℕ → ℕ → GalleryImage → Bool
is_live_in user game i = not (is_some i.removal) && (i.user_id == user && i.game_id == game)

-- `findFirst` of the live image for a game.
unfoldable pub live_image : ℕ → ℕ → Dict GalleryImage → Option GalleryImage
live_image user game [] = none
live_image user game (entry ∷ rest) =
    let others = live_image user game rest in
    if is_live_in user game entry.1 then some entry.1 else others

-- The request's file, with the address that `processAndSave` gives to it.
pub data Upload : Type 0 where
  nothing another_type damaged : Upload
  saved : ℕ → Upload

-- `let imageUrl = existing?.imageUrl`, which an uploaded file takes the place of.
unfoldable pub url_of : Option GalleryImage → Upload → Option ℕ
url_of existing (saved url) = some url
url_of existing another_type = none
url_of existing damaged = none
url_of none nothing = none
url_of (some i) nothing = some i.image_url

abbrev pub is_another_type : Upload → Bool
is_another_type nothing = false
is_another_type another_type = true
is_another_type damaged = false
is_another_type (saved url) = false

abbrev pub is_damaged : Upload → Bool
is_damaged nothing = false
is_damaged another_type = false
is_damaged damaged = true
is_damaged (saved url) = false

-- `text?.trim() || null`
unfoldable pub trimmed_or_null : Option Name → Option Name
trimmed_or_null none = none
trimmed_or_null (some text) = elim (trim text) [ [] ↦ none | c ∷ cs ↦ some (c ∷ cs) ]

-- `update` of the live image for a game, or `create` with a new id.
unfoldable pub put_image : ℕ → ℕ → ℕ → ℕ → Option Name → Dict GalleryImage → Dict GalleryImage
put_image id user game url caption [] =
    (
      id,
      record { user_id = user; game_id = game; image_url = url; caption = caption; removal = none },
    )
    ∷ []
put_image id user game url caption ((k, i) ∷ rest) =
    let others = put_image id user game url caption rest in
    if is_live_in user game i
    then (k, record i { image_url = url; caption = caption }) ∷ rest
    else (k, i) ∷ others

-- `upsert`: `eligible` is the answer of `isEligible`, and `builtin` says of a game that exists
-- whether it is built in.
unfoldable pub upsert_image :
    (ℕ → Bool) → (ℕ → Option Bool) → ℕ → ℕ → ℕ → Upload → Option Name → Gallery → GalleryReply
upsert_image eligible builtin id user game file caption g =
    let url = url_of (live_image user game g.images) file in
    unless_refused
      ((not (eligible user), not_eligible)
        ∷ (or_else (builtin game) true, game_not_found)
        ∷ (is_another_type file, not_an_image)
        ∷ (is_damaged file, unreadable_image)
        ∷ (not (is_some url), no_image)
        ∷ [])
      (record g {
        images = put_image id user game (or_else url 0) (trimmed_or_null caption) g.images;
      })

-- `delete` of the live image for a game.
unfoldable pub drop_image : ℕ → ℕ → Dict GalleryImage → Dict GalleryImage
drop_image user game [] = []
drop_image user game (entry ∷ rest) =
    let others = drop_image user game rest in
    if is_live_in user game entry.1 then rest else entry ∷ others

-- The reports of a deleted row go with it.
unfoldable pub reports_left : Dict GalleryImage → List ContentReport → List ContentReport
reports_left images reports =
    select (λ (r : ContentReport). is_some (lookup r.image_id images)) reports

-- `GalleryService.remove`
unfoldable pub delete_image : ℕ → ℕ → Gallery → GalleryReply
delete_image user game g =
    unless_refused ((not (is_some (live_image user game g.images)), no_image_for_game) ∷ []) (
      let images = drop_image user game g.images in
      record { images = images; reports = reports_left images g.reports })
