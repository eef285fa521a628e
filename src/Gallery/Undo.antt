-- ===== src/Gallery/Undo.antt =====
-- A removal that is taken back, in src/content/moderation.service.ts.
use joust_backend.Prelude.{
  ℕ, ◌≡◌, refl, sym, subst, Option, none, some, List, [], ◌∷◌, Bool, All, arith,
}
use joust_backend.Prelude.Dict.{lookup, insert, lookup-insert}
use joust_backend.Guests.{Name}
use joust_backend.Roster.{trim}
use joust_backend.Gallery.{
  Removal, GalleryImage, Gallery, done, first_obstacle, unless_refused, live_image,
}
use joust_backend.Gallery.Moderation.{remove_image, remove_loaded, restore_image, restore_loaded}
use joust_backend.Gallery.Hold.{
  GalleryCall, removes, restores, Spares, gallery_reply, state_after, gallery_after,
  gallery_after_all, Keeps, gallery_after-Keeps,
}

abbrev removal_of : ℕ → ℕ → Name → Removal
removal_of now admin reason = record { removed_at = now; removed_by = admin; reason = trim reason }

-- The image with a removal or none.
abbrev marked : GalleryImage → Option Removal → GalleryImage
marked i removal = record i { removal = removal }

remove_loaded_lem :
    (now admin image : ℕ) (reason : Name) (i : GalleryImage) (g : Gallery)
    → i.removal ≡ none
    → Keeps image
        (marked i (some (removal_of now admin reason)))
        (state_after g (remove_loaded (some i) now admin image reason g))
unfolding remove_loaded state_after unless_refused first_obstacle
remove_loaded_lem now admin image reason i g live =
    ground
      (arith, lookup-insert image image (marked i (some (removal_of now admin reason))) g.images)

restore_loaded_lem :
    (image : ℕ) (i : GalleryImage) (r : Removal) (g : Gallery)
    → live_image i.user_id i.game_id g.images ≡ none
    → (new : Gallery) × ((restore_loaded (some (marked i (some r))) image g ≡ done new)
        × Keeps image (marked i none) new)
unfolding restore_loaded unless_refused first_obstacle
restore_loaded_lem image i r g free = (
  record g { images = insert image (marked i none) g.images },
  (ground arith, ground (arith, lookup-insert image image (marked i none) g.images)),
)

module _ (eligible : ℕ → Bool) (builtin : ℕ → Option Bool) where
  gallery_after_all-Keeps :
      (image : ℕ) (i : GalleryImage) (r : Removal) (calls : List GalleryCall) (g : Gallery)
      → i.removal ≡ some r
      → All (Spares image r.removed_at) calls
      → Keeps image i g
      → Keeps image i (gallery_after_all eligible builtin calls g)
  unfolding gallery_after_all
  gallery_after_all-Keeps image i r [] g removed spares h = h
  gallery_after_all-Keeps image i r (call ∷ calls) g removed (here, rest) h =
      gallery_after_all-Keeps image i r calls _ removed rest
        (gallery_after-Keeps eligible builtin image i r call g removed here h)

  -- An image on show that an administrator removes can be brought back, as it was: after any calls
  -- that neither restore it nor purge later than thirty days after the removal, and when the owner
  -- has no other image on show for the game, the restoring succeeds and the image has its row again.
  pub remove_image-restore_image :
      (calls : List GalleryCall) (now admin image : ℕ) (reason : Name) (i : GalleryImage)
      (g : Gallery)
      → Keeps image i g
      → i.removal ≡ none
      → All (Spares image now) calls
      → live_image i.user_id i.game_id
          (gallery_after_all eligible builtin (removes now admin image reason ∷ calls) g).images
        ≡ none
      → (new : Gallery) × ((gallery_reply eligible builtin
              (restores image)
              (gallery_after_all eligible builtin (removes now admin image reason ∷ calls) g)
            ≡ done new)
          × Keeps image i new)
  unfolding gallery_reply remove_image restore_image gallery_after gallery_after_all
  remove_image-restore_image calls now admin image reason i g shown live spares free =
      let r = removal_of now admin reason in
      let first = state_after g (remove_image now admin image reason g) in
      let held =
        gallery_after_all-Keeps image (marked i (some r)) r calls first refl spares
          (rw shown (remove_loaded_lem now admin image reason i g live)) in
      let (new, (e, back)) =
        restore_loaded_lem image i r (gallery_after_all eligible builtin calls first) free in
      (new, (rw held e, subst (λ x. lookup image new.images ≡ some (marked i x)) (sym live) back))
