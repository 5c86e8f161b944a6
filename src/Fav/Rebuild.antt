-- ===== src/Fav/Rebuild.antt =====
-- mbbsd/fav.c: `rebuild_fav`, which drops the removed items of a folder and of those below it. The
-- folders stand in a heap under their addresses.
pub mod Loop
pub mod Tree
pub mod Correct
pub mod Survivors
use pttoldstable.Base.{
  ℕ, zero, suc, ◌+◌, ◌≡◌, Bool, true, false, not, ◌&&◌, Option, none, some, List, [], ◌∷◌, ltb,
  ◌==◌, if◌then◌else◌, set,
}
use pttoldstable.Base.Int.{ℤ, pos}
use pttoldstable.Fav.{
  Item, Fav, Book, favt_board, favt_folder, favt_line, get_data_number, valid_item, fav_increase,
  numbered,
}
use pttoldstable.Fav.Folder.{slot}

-- `number` is `fav_number`.
pub record Store : Type 0 where
  pub heap : ℕ → Fav
  pub number : ℤ

pub put : ℕ → Fav → Store → Store
put a fp st = record st { heap = λ x. if x == a then fp else st.heap x }

abbrev pub cleared : Fav → Fav
cleared fp = record fp { line_id = 0; folder_id = 0; n_lines = 0; n_folders = 0; n_boards = 0 }

-- `fav_number = 0` and the counters of the folder.
unfoldable pub clear_counts : ℕ → Store → Store
unfolding put
clear_counts a st = record (put a (cleared (st.heap a)) st) { number = pos 0 }

-- The item in slot `i` is counted, gets its number through its pointer, and is copied to slot `j`.
pub take_slot : ℕ → ℕ → Book → Book
unfolding fav_increase
take_slot i j b =
    let y = numbered b.fp (slot b.fp i) in
    let b' = fav_increase b (slot b.fp i) in
    let once = set b'.fp.favh i y in
    record b' { fp = record (b'.fp) { favh = if i == j then once else set once j y } }

unfoldable pub take_in : ℕ → ℕ → ℕ → Store → Store
unfolding put take_slot
take_in a i j st =
    let b = take_slot i j (record { fp = st.heap a; number = st.number }) in
    record (put a b.fp st) { number = b.number }

unfoldable pub finish : ℕ → Store → Option Store
unfolding put get_data_number
finish a st = let fp = st.heap a in some (put a (record fp { data_tail = get_data_number fp }) st)

abbrev pub then_do : Option Store → (Store → Option Store) → Option Store
then_do none f = none
then_do (some st) f = f st

-- `named` says that the board has a name, `has_perm` that the user may see it, by `bid`.
module _ (named has_perm : ℕ → Bool) (clean : Bool) where
  -- What the tests of the loop let through.
  unfoldable pub keep : Item → Bool
  unfolding valid_item
  keep ft =
      if valid_item ft
      then if ft.type == favt_board
        then if named ft.id then not (clean && not (has_perm ft.id)) else false
        else if ft.type == favt_line
        then true
        else ft.type == favt_folder
      else false

  abbrev pub descend : (ℕ → Store → Option Store) → Item → Store → Option Store
  descend rec ft st = if ft.type == favt_folder then rec ft.this_folder st else some st

  -- `left` rounds from `i`; `rec` rebuilds a folder below.
  unfoldable pub rebuild_loop : (ℕ → Store → Option Store) → ℕ → ℕ → ℕ → ℕ → Store → Option Store
  rebuild_loop rec a zero i j st = some st
  rebuild_loop rec a (suc left) i j st =
      let ft = slot (st.heap a) i in
      let skip = rebuild_loop rec a left (suc i) j st in
      let taken =
        then_do (descend rec ft st)
          (λ st'. rebuild_loop rec a left (suc i) (suc j) (take_in a i j st')) in
      if keep ft then taken else skip

  -- On fuel, for the depth of the folders; `none` when it is not enough.
  unfoldable pub rebuild_fav : ℕ → ℕ → Store → Option Store
  rebuild_fav zero a st = none
  rebuild_fav (suc fuel) a st =
      let n = (st.heap a).data_tail in
      then_do
        (rebuild_loop (rebuild_fav fuel) a (if ltb n 32768 then n else 0) 0 0 (clear_counts a st))
        (finish a)
