-- ===== src/Gallery/Hold.antt =====
-- The days for which src/content/moderation.service.ts keeps a removed image.
use joust_backend.Prelude.{
  ℕ, ◌+◌, ◌≤◌, ◌≡◌, refl, Option, none, some, List, [], ◌∷◌, Bool, true, false, not, ◌==◌, select,
  arith,
}
use joust_backend.Prelude.Dict.{Dict, lookup, lookup-insert}
use joust_backend.Guests.{Name}
use joust_backend.Roster.{trim}
use joust_backend.Gallery.{
  Removal, GalleryImage, Gallery, GalleryProblem, GalleryReply, done, refused, first_obstacle,
  unless_refused, is_live_in, Upload, put_image, upsert_image, drop_image, delete_image,
}
use joust_backend.Gallery.Moderation.{
  report_image, report_loaded, remove_loaded, restore_loaded, remove_image, dismiss_reports,
  restore_image, hold_ms, is_past_hold, purge_expired,
}

-- A call of the gallery or of the moderation, or the hourly purge.
pub data GalleryCall : Type 0 where
  puts : (id user game : ℕ) (file : Upload) (caption : Option Name) → GalleryCall
  deletes : (user game : ℕ) → GalleryCall
  reports : (reporter id : ℕ) (from_staff : Bool) → GalleryCall
  removes : (now admin id : ℕ) (reason : Name) → GalleryCall
  dismisses : (id : ℕ) → GalleryCall
  restores : (id : ℕ) → GalleryCall
  purges : (now : ℕ) → GalleryCall

-- The calls that leave this image, removed at this time, alone: a purge within the hold, and no
-- restoring of the image.
abbrev pub Spares : ℕ → ℕ → GalleryCall → Type 0
Spares image removed_at (puts id user game file caption) = Unit
Spares image removed_at (deletes user game) = Unit
Spares image removed_at (reports reporter id from_staff) = Unit
Spares image removed_at (removes now admin id reason) = Unit
Spares image removed_at (dismisses id) = Unit
Spares image removed_at (restores id) = (id == image) ≡ false
Spares image removed_at (purges now) = now ≤ removed_at + hold_ms

-- A call that is refused changes nothing.
unfoldable pub state_after : Gallery → GalleryReply → Gallery
state_after g (done new) = new
state_after g (refused why) = g

module _ (eligible : ℕ → Bool) (builtin : ℕ → Option Bool) where
  unfoldable pub gallery_reply : GalleryCall → Gallery → GalleryReply
  gallery_reply (puts id user game file caption) g =
      upsert_image eligible builtin id user game file caption g
  gallery_reply (deletes user game) g = delete_image user game g
  gallery_reply (reports reporter id from_staff) g = report_image reporter id from_staff g
  gallery_reply (removes now admin id reason) g = remove_image now admin id reason g
  gallery_reply (dismisses id) g = dismiss_reports id g
  gallery_reply (restores id) g = restore_image id g
  gallery_reply (purges now) g = done (purge_expired now g)

  unfoldable pub gallery_after : GalleryCall → Gallery → Gallery
  gallery_after call g = state_after g (gallery_reply call g)

  unfoldable pub gallery_after_all : List GalleryCall → Gallery → Gallery
  gallery_after_all [] g = g
  gallery_after_all (call ∷ calls) g = gallery_after_all calls (gallery_after call g)

-- What the rows of the images hold of a removed one.
module _ (image : ℕ) (i : GalleryImage) (r : Removal) (removed : i.removal ≡ some r) where
  lookup-put_image :
      (id user game url : ℕ) (caption : Option Name) (images : Dict GalleryImage)
      → lookup image images ≡ some i
      → lookup image (put_image id user game url caption images) ≡ some i
  unfolding lookup put_image is_live_in
  lookup-put_image id user game url caption [] h = ground arith
  lookup-put_image id user game url caption (entry ∷ rest) h =
      ground (arith, lookup-put_image id user game url caption rest)

  lookup-drop_image :
      (user game : ℕ) (images : Dict GalleryImage)
      → lookup image images ≡ some i
      → lookup image (drop_image user game images) ≡ some i
  unfolding lookup drop_image is_live_in
  lookup-drop_image user game [] h = ground arith
  lookup-drop_image user game (entry ∷ rest) h = ground (arith, lookup-drop_image user game rest)

  lookup-kept :
      (now : ℕ) (images : Dict GalleryImage)
      → now ≤ r.removed_at + hold_ms
      → lookup image images ≡ some i
      → lookup image
          (select (λ (entry : ℕ × GalleryImage). not (is_past_hold now entry.1.removal)) images)
        ≡ some i
  unfolding lookup is_past_hold
  lookup-kept now [] within h = ground arith
  lookup-kept now (entry ∷ rest) within h = ground (arith, lookup-kept now rest within)

unless_refused_lem :
    (P : Gallery → Type 0) (guards : List (Bool × GalleryProblem)) (g new : Gallery)
    → P g
    → P new
    → P (state_after g (unless_refused guards new))
unfolding unless_refused first_obstacle state_after
unless_refused_lem P [] g new old fresh = fresh
unless_refused_lem P ((true, why) ∷ guards) g new old fresh = old
unless_refused_lem P ((false, why) ∷ guards) g new old fresh =
    unless_refused_lem P guards g new old fresh

-- The image has this row.
abbrev pub Keeps : ℕ → GalleryImage → Gallery → Type 0
Keeps image i g = lookup image g.images ≡ some i

module _ (image : ℕ) (i : GalleryImage) (r : Removal) (removed : i.removal ≡ some r) where
  report_loaded-Keeps :
      (found : Option GalleryImage) (reporter id : ℕ) (from_staff : Bool) (g : Gallery)
      → Keeps image i g
      → Keeps image i (state_after g (report_loaded found reporter id from_staff g))
  unfolding report_loaded state_after
  report_loaded-Keeps none reporter id from_staff g h = h
  report_loaded-Keeps (some other) reporter id from_staff g h =
      unless_refused_lem (Keeps image i) _ g _ h h

  remove_loaded-Keeps :
      (found : Option GalleryImage) (now admin id : ℕ) (reason : Name) (g : Gallery)
      → lookup id g.images ≡ found
      → Keeps image i g
      → Keeps image i (state_after g (remove_loaded found now admin id reason g))
  unfolding remove_loaded state_after unless_refused first_obstacle
  remove_loaded-Keeps none now admin id reason g e h = h
  remove_loaded-Keeps (some j) now admin id reason g e h = ground (
    arith,
    lookup-insert id image
        (record j {
          removal = some (record { removed_at = now; removed_by = admin; reason = trim reason });
        })
        g.images,
  )

  restore_loaded-Keeps :
      (found : Option GalleryImage) (id : ℕ) (g : Gallery)
      → (id == image) ≡ false
      → Keeps image i g
      → Keeps image i (state_after g (restore_loaded found id g))
  unfolding restore_loaded state_after
  restore_loaded-Keeps none id g other h = h
  restore_loaded-Keeps (some j) id g other h =
      unless_refused_lem (Keeps image i) _ g _ h
        (ground (arith, lookup-insert id image (record j { removal = none }) g.images))

module _ (eligible : ℕ → Bool) (builtin : ℕ → Option Bool) where
  pub gallery_after-Keeps :
      (image : ℕ) (i : GalleryImage) (r : Removal) (call : GalleryCall) (g : Gallery)
      → i.removal ≡ some r
      → Spares image r.removed_at call
      → Keeps image i g
      → Keeps image i (gallery_after eligible builtin call g)
  unfolding gallery_after gallery_reply report_image remove_image restore_image upsert_image
      delete_image dismiss_reports purge_expired state_after
  gallery_after-Keeps image i r (puts id user game file caption) g removed spares h =
      unless_refused_lem (Keeps image i) _ g _ h
        (lookup-put_image image i r removed id user game _ _ g.images h)
  gallery_after-Keeps image i r (deletes user game) g removed spares h =
      unless_refused_lem (Keeps image i) _ g _ h
        (lookup-drop_image image i r removed user game g.images h)
  gallery_after-Keeps image i r (reports reporter id from_staff) g removed spares h =
      report_loaded-Keeps image i r removed (lookup id g.images) reporter id from_staff g h
  gallery_after-Keeps image i r (removes now admin id reason) g removed spares h =
      remove_loaded-Keeps image i r removed (lookup id g.images) now admin id reason g refl h
  gallery_after-Keeps image i r (dismisses id) g removed spares h =
      unless_refused_lem (Keeps image i) _ g _ h h
  gallery_after-Keeps image i r (restores id) g removed spares h =
      restore_loaded-Keeps image i r removed (lookup id g.images) id g spares h
  gallery_after-Keeps image i r (purges now) g removed spares h =
      lookup-kept image i r removed now g.images spares h
