-- ===== src/Gallery/Moderation.antt =====
-- The part of src/content/moderation.service.ts that is about the images of the galleries.
-- Notifications and the record of the staff's actions are left out.
use joust_backend.Prelude.{
  ℕ, ◌-◌, ◌*◌, Option, none, some, is_some, List, [], ◌∷◌, ◌++◌, Bool, true, false, not, ◌&&◌, ◌==◌,
  ltb, any, select, map, if◌then◌else◌,
}
use joust_backend.Prelude.Dict.{lookup, insert}
use joust_backend.Guests.{Name}
use joust_backend.Roster.{trim}
use joust_backend.Gallery.{
  Removal, GalleryImage, ReportStatus, ContentReport, Gallery, GalleryReply, unless_refused,
  live_image, reports_left, awaiting, resolved, dismissed, refused, item_gone, own_upload,
  already_reported, already_removed, no_open_reports, not_removed, slot_taken,
}

-- `@@unique([reporterId, galleryImageId])`
unfoldable pub has_reported : ℕ → ℕ → List ContentReport → Bool
has_reported reporter id reports =
    any (λ (r : ContentReport). r.reporter_id == reporter && r.image_id == id) reports

-- `report`, of the image that `load` gives.
unfoldable pub report_loaded : Option GalleryImage → ℕ → ℕ → Bool → Gallery → GalleryReply
report_loaded none reporter id from_staff g = refused item_gone
report_loaded (some i) reporter id from_staff g =
    unless_refused
      ((is_some i.removal, item_gone)
        ∷ (i.user_id == reporter, own_upload)
        ∷ (has_reported reporter id g.reports, already_reported)
        ∷ [])
      (record g {
        reports =
            g.reports
            ++ (record {
              reporter_id = reporter;
              image_id = id;
              from_staff = from_staff;
              status = awaiting;
            }
                ∷ []);
      })

-- `report`: `from_staff` says whether the reporter has the role of an organizer or of an admin.
unfoldable pub report_image : ℕ → ℕ → Bool → Gallery → GalleryReply
report_image reporter id from_staff g = report_loaded (lookup id g.images) reporter id from_staff g

abbrev pub is_unanswered : ReportStatus → Bool
is_unanswered awaiting = true
is_unanswered resolved = false
is_unanswered dismissed = false

-- `updateMany` of the open reports on an image.
unfoldable pub close_reports : ℕ → ReportStatus → List ContentReport → List ContentReport
close_reports id status reports =
    map
      (λ (r : ContentReport).
        if r.image_id == id && is_unanswered r.status then record r { status = status } else r)
      reports

-- `ModerationService.remove`, of the image that `load` gives.
unfoldable pub remove_loaded : Option GalleryImage → ℕ → ℕ → ℕ → Name → Gallery → GalleryReply
remove_loaded none now admin id reason g = refused item_gone
remove_loaded (some i) now admin id reason g =
    unless_refused ((is_some i.removal, already_removed) ∷ []) (record {
      images =
          insert id
            (record i {
              removal =
                  some (record { removed_at = now; removed_by = admin; reason = trim reason });
            })
            g.images;
      reports = close_reports id resolved g.reports;
    })

unfoldable pub remove_image : ℕ → ℕ → ℕ → Name → Gallery → GalleryReply
remove_image now admin id reason g = remove_loaded (lookup id g.images) now admin id reason g

-- `dismiss`
unfoldable pub dismiss_reports : ℕ → Gallery → GalleryReply
dismiss_reports id g =
    unless_refused
      ((
        not (any (λ (r : ContentReport). r.image_id == id && is_unanswered r.status) g.reports),
        no_open_reports,
      )
        ∷ [])
      (record g { reports = close_reports id dismissed g.reports })

-- `restore`, of the image that `load` gives: the unique index of the live images refuses a second one
-- for a game.
unfoldable pub restore_loaded : Option GalleryImage → ℕ → Gallery → GalleryReply
restore_loaded none id g = refused not_removed
restore_loaded (some i) id g =
    unless_refused
      ((not (is_some i.removal), not_removed)
        ∷ (is_some (live_image i.user_id i.game_id g.images), slot_taken)
        ∷ [])
      (record g { images = insert id (record i { removal = none }) g.images })

unfoldable pub restore_image : ℕ → Gallery → GalleryReply
restore_image id g = restore_loaded (lookup id g.images) id g

-- `HOLD_MS`
abbrev pub hold_ms : ℕ
hold_ms = 30 * 24 * 60 * 60 * 1000

-- `removedAt: { lt: cutoff }`
unfoldable pub is_past_hold : ℕ → Option Removal → Bool
is_past_hold now none = false
is_past_hold now (some r) = ltb r.removed_at (now - hold_ms)

-- `purgeExpired`
unfoldable pub purge_expired : ℕ → Gallery → Gallery
purge_expired now g =
    let kept =
      select (λ (entry : ℕ × GalleryImage). not (is_past_hold now entry.1.removal)) g.images in
    record { images = kept; reports = reports_left kept g.reports }
