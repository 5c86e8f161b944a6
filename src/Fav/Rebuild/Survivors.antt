-- ===== src/Fav/Rebuild/Survivors.antt =====
-- mbbsd/fav.c: which items `rebuild_fav` leaves.
use pttoldstable.Base.{
  ℕ, ◌≤◌, ◌<◌, ◌≡◌, ◌≢◌, refl, ap, ◌∙◌, Bool, not, ◌&&◌, ◌||◌, some, List, [], ◌∷◌, arith, ◌==◌,
  if◌then◌else◌,
}
use pttoldstable.Fav.{Item, favt_board, favt_folder, favt_line, valid_item}
use pttoldstable.Fav.Folder.{used}
use pttoldstable.Fav.Rebuild.{Store, keep, rebuild_fav}
use pttoldstable.Fav.Rebuild.Loop.{tally, renumber}
use pttoldstable.Fav.Rebuild.Tree.{kept}
use pttoldstable.Fav.Rebuild.Correct.{Fine, rebuild_fav_lem}

-- What a rebuilt folder is to show: favourites that are lines, folders, or boards with a name, of
-- which a user may be shown only those that he may see.
abbrev pub stays : (ℕ → Bool) → (ℕ → Bool) → Bool → Item → Bool
stays named has_perm clean x =
    valid_item x
    && ((x.type == favt_line)
        || (x.type == favt_folder)
        || (x.type == favt_board) && named x.id && (has_perm x.id || not clean))

abbrev pub survivors : (ℕ → Bool) → (ℕ → Bool) → Bool → List Item → List Item
survivors named has_perm clean [] = []
survivors named has_perm clean (x ∷ xs) =
    let rest = survivors named has_perm clean xs in
    if stays named has_perm clean x then x ∷ rest else rest

keep-stays :
    (named has_perm : ℕ → Bool) (clean : Bool) (x : Item)
    → keep named has_perm clean x ≡ stays named has_perm clean x
unfolding keep
keep-stays named has_perm clean x = ground arith

kept-survivors :
    (named has_perm : ℕ → Bool) (clean : Bool) (xs : List Item)
    → kept named has_perm clean xs ≡ survivors named has_perm clean xs
kept-survivors named has_perm clean [] = refl
kept-survivors named has_perm clean (x ∷ xs) =
    rw (keep-stays named has_perm clean x, kept-survivors named has_perm clean xs) refl

-- Let a rank fall from each folder to the folders that it keeps, in the folder at `a` and in those
-- of lower rank, each of which uses fewer than 32768 slots, all allocated, and at most 127 lines and
-- 127 folders. Then fuel above the rank of `a` is enough for `rebuild_fav`. The items in use are
-- afterwards those with the mark of a favourite that are lines, folders or boards with a name (with
-- `clean`, boards that the user may see), in the order they had, the lines numbered 1, 2, … and the
-- folders as well; the three counters are the numbers of boards, lines and folders in use; and no
-- other folder of the rank of `a` or a higher one changes.
pub rebuild_fav-survivors :
    (named has_perm : ℕ → Bool) (clean : Bool) (rank : ℕ → ℕ) (fuel a : ℕ) (st : Store)
    → rank a < fuel
    → Fine named has_perm clean rank a (st.heap a)
    → ((x : ℕ) → rank x < rank a → Fine named has_perm clean rank x (st.heap x))
    → (st' : Store) × (rebuild_fav named has_perm clean fuel a st ≡ some st')
      × (used (st'.heap a) ≡ renumber 0 0 (survivors named has_perm clean (used (st.heap a))))
      × ((st'.heap a).n_boards ≡ tally favt_board (used (st'.heap a)))
      × ((st'.heap a).n_lines ≡ tally favt_line (used (st'.heap a)))
      × ((st'.heap a).n_folders ≡ tally favt_folder (used (st'.heap a)))
      × ((x : ℕ) → rank a ≤ rank x → x ≢ a → st'.heap x ≡ st.heap x)
rebuild_fav-survivors named has_perm clean rank fuel a st h v w =
    let (st', e, r) = rebuild_fav_lem named has_perm clean rank fuel a st h v w in
    let k = kept-survivors named has_perm clean (used (st.heap a)) in
    (
      st',
      e,
      r.here.items ∙ ap (renumber 0 0) k,
      r.here.boards,
      r.here.lines,
      r.here.folders,
      r.around.same,
    )
