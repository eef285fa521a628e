-- ===== src/Tests/Guests.antt =====
-- Guests whose window is over or who register, and an image that is removed and brought back.
use joust_backend.Prelude.{
  ℕ, Bool, Option, List, ◌≡◌, refl, none, some, [], ◌∷◌, true, false, ◌+◌, if◌then◌else◌, arith,
}
use joust_backend.Prelude.Dict.{lookup, insert, contains}
use joust_backend.Roster.{trim}
use joust_backend.Gallery.{
  first_obstacle, unless_refused, is_live_in, live_image, url_of, trimmed_or_null, put_image,
  upsert_image, reports_left, nothing, saved, GalleryImage, Gallery, done,
}
use joust_backend.Gallery.Moderation.{
  report_image, report_loaded, has_reported, remove_image, remove_loaded, close_reports,
  dismiss_reports, restore_image, restore_loaded, is_past_hold, purge_expired, hold_ms,
}
use joust_backend.Gallery.Hold.{
  GalleryCall, puts, reports, dismisses, removes, restores, purges, gallery_reply, state_after,
  gallery_after, gallery_after_all, Keeps,
}
use joust_backend.Gallery.Undo.{remove_image-restore_image}
use joust_backend.Match.{TournamentStatus}
use joust_backend.Guests.{
  Account, retention_ms, name_reassigned, guest_claim_problem, retired, purge_expired_guests,
}
use joust_backend.Guests.Retention.{is_out_of_time, purge_expired_guests-guest_claim_problem}
use joust_backend.Guests.Conversion.{empty_aggregate, add_event}
use joust_backend.Guests.Lifetime.{rank_of, event_of, add_event-complete}
use joust_backend.Closing.{registered, final_winner, complete}
use joust_backend.Closing.Careers.{career}
use joust_backend.Tests.Brackets.{closing, hall}

abbrev guest : Account
guest = record {
  is_guest = true;
  username = some (97 ∷ []);
  display_name = none;
  slug = none;
  has_credentials = false;
  is_expired = false;
  created_at = 1;
  expires_at = none;
  entries =
      record {
        status = TournamentStatus.completed;
        completed_at = some 100;
        guest_cleanup_at = none;
      }
      ∷ [];
}

purge_expired_guests-guest_claim_problem_example :
    (lookup 4 (purge_expired_guests (retention_ms + 200) ((4, guest) ∷ []))
      ≡ some (
          if is_out_of_time (guest_claim_problem (retention_ms + 200) guest)
          then retired (retention_ms + 200) guest
          else guest))
    × (guest_claim_problem 9 (retired (retention_ms + 200) guest) ≡ some name_reassigned)
unfolding lookup
purge_expired_guests-guest_claim_problem_example =
    purge_expired_guests-guest_claim_problem (retention_ms + 200) 9 4 ((4, guest) ∷ []) guest refl

-- Player 8 was a guest when the tournament ended.
add_event-complete_example :
    (add_event 8 (event_of closing (complete closing hall) 8 none none) empty_aggregate).career
    ≡ career
        (complete
          (record closing {
            entrants =
                record { user_id = 7; is_guest = false }
                ∷ record { user_id = 8; is_guest = false }
                ∷ [];
          })
          (record hall { global = [] })).global
        8
unfolding registered final_winner contains lookup rank_of career
add_event-complete_example =
    add_event-complete closing hall 8 none none
      (record { user_id = 7; is_guest = false } ∷ record { user_id = 8; is_guest = false } ∷ []) []
      empty_aggregate (refl, (refl, tt)) (refl, (refl, tt)) refl refl refl refl (λ h. ground arith)
      refl

-- A picture of player 7 for game 3.
abbrev picture : GalleryImage
picture = record { user_id = 7; game_id = 3; image_url = 40; caption = none; removal = none }

-- The owner posts for another game, is refused without a file for this one, and the purge comes at
-- the end of the hold.
abbrev while_held : List GalleryCall
while_held =
    puts 2 7 4 (saved 41) none
    ∷ puts 3 7 3 nothing none
    ∷ reports 8 1 false
    ∷ dismisses 1
    ∷ restores 2
    ∷ purges (100 + hold_ms)
    ∷ []

abbrev has_finished : ℕ → Bool
has_finished user = true

abbrev games : ℕ → Option Bool
games game = some false

abbrev shown : Gallery
shown = record { images = (1, picture) ∷ []; reports = [] }

remove_image-restore_image_example :
    (new : Gallery) × ((gallery_reply has_finished games
          (restores 1)
          (gallery_after_all has_finished games (removes 100 9 1 [] ∷ while_held) shown)
        ≡ done new)
      × Keeps 1 picture new)
unfolding gallery_reply gallery_after gallery_after_all state_after unless_refused first_obstacle
    is_live_in live_image url_of trimmed_or_null put_image upsert_image report_image report_loaded
    has_reported remove_image remove_loaded close_reports dismiss_reports restore_image
    restore_loaded is_past_hold purge_expired reports_left trim lookup insert
remove_image-restore_image_example =
    remove_image-restore_image has_finished games while_held 100 9 1 [] picture shown refl refl
      (tt, (tt, (tt, (tt, (refl, (omega arith, tt)))))) refl
