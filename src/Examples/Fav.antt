-- ===== src/Examples/Fav.antt =====
-- mbbsd/fav.c: a folder with two boards, a removed line and a folder below it.
use pttoldstable.Base.{
  ℕ, zero, suc, ◌≤◌, ◌<◌, ◌≡◌, ◌≢◌, ◌⊎◌, refl, Bool, true, false, Option, none, some, List, [], ◌∷◌,
  ◌++◌, arith, ◌==◌, if◌then◌else◌, get_or, length,
}
use pttoldstable.Base.Int.{ℤ, pos, ◌+ℤ◌, ◌-ℤ◌}
use pttoldstable.Fav.{
  Item, Fav, Book, blank_item, favt_board, favt_folder, favt_line, numbered, valid_item,
  is_set_attr, fav_getid, fav_increase,
}
use pttoldstable.Fav.Folder.{
  used, get_fav_item, fav_remove, fav_remove_item, fav_add, fav_add_board, matches, enlarge_if_full,
  append_item, getboard, getbrdtime, setbrdtime, is_maxsize,
}
use pttoldstable.Fav.Folder.Counts.{IsValid, HasRoom}
use pttoldstable.Fav.Folder.Add.{fav_add-IsValid}
use pttoldstable.Fav.Folder.Boards.{get_fav_item-fav_remove_item, fav_add_board-hits}
use pttoldstable.Fav.Folder.Hits.{hits}
use pttoldstable.Fav.Folder.Times.{getbrdtime-setbrdtime}
use pttoldstable.Fav.Folder.Move.{move_in_folder}
use pttoldstable.Fav.Folder.Move.Visible.{move_in_folder-visible}
use pttoldstable.Fav.Folder.Move.Places.{visible, insert_at, remove_at}
use pttoldstable.Fav.Stack.{FavStack, get_current_fav, fav_stack_push_fav, fav_stack_pop}
use pttoldstable.Fav.Stack.Laws.{IsStack, pop-push}
use pttoldstable.Fav.Rebuild.{Store, rebuild_fav, rebuild_loop, keep, clear_counts, take_in, finish}
use pttoldstable.Fav.Rebuild.Loop.{tally, renumber}
use pttoldstable.Fav.Rebuild.Correct.{Fine}
use pttoldstable.Fav.Rebuild.Survivors.{survivors, rebuild_fav-survivors}

abbrev board : ℕ → Item
board bid = record blank_item { type = 1; attr = 1; id = bid }

abbrev removed_line : Item
removed_line = record blank_item { type = 3; id = 1 }

abbrev subfolder : Item
subfolder = record blank_item { type = 2; attr = 1; id = 1; this_folder = 2 }

abbrev items : List Item
items = board 7 ∷ removed_line ∷ subfolder ∷ board 9 ∷ []

abbrev folder : Fav
folder = record {
  n_allocs = 4;
  data_tail = 4;
  n_boards = 2;
  n_lines = 0;
  n_folders = 1;
  line_id = 1;
  folder_id = 1;
  favh = items;
}

abbrev book : Book
book = record { fp = folder; number = pos 3 }

folder-IsValid : IsValid folder
folder-IsValid = record {
  slots = refl;
  tail = omega arith;
  size = omega arith;
  boards = refl;
  lines = refl;
  folders = refl;
}

-- The folder stands at 1, and an empty one at 2.
abbrev tree : Store
tree = record {
  heap =
      λ a. if a == 1 then folder else record folder { data_tail = 0; n_boards = 0; n_folders = 0 };
  number = pos 3;
}

abbrev named : ℕ → Bool
named bid = true

abbrev rank : ℕ → ℕ
rank a = if a == 1 then 1 else 0

-- The folder that is rebuilt resets the count of all items: three stay, and two are counted.
number_of : Option Store → ℤ
number_of none = pos 0
number_of (some st) = st.number

rebuild-number : number_of (rebuild_fav named named false 2 1 tree) ≡ pos 2
unfolding number_of rebuild_fav rebuild_loop keep clear_counts take_in finish ◌+ℤ◌
rebuild-number = refl

folder-Fine : Fine named named false rank 1 folder
unfolding keep
folder-Fine = record {
  tail = omega arith;
  size = omega arith;
  lines = omega arith;
  folders = omega arith;
  below = (
    (λ _ _. omega arith),
    ((λ _ _. omega arith), ((λ _ _. omega arith), ((λ _ _. omega arith), tt))),
  );
}

others-Fine : (x : ℕ) → rank x < 1 → Fine named named false rank x (tree.heap x)
others-Fine x h =
    let e : (x == 1) ≡ false = ground arith in
    rw e (record {
      tail = omega arith;
      size = omega arith;
      lines = omega arith;
      folders = omega arith;
      below = tt;
    })

rebuild_fav-survivors_example :
    (st' : Store) × (rebuild_fav named named false 2 1 tree ≡ some st')
    × (used (st'.heap 1) ≡ renumber 0 0 (survivors named named false (used (tree.heap 1))))
    × ((st'.heap 1).n_boards ≡ tally favt_board (used (st'.heap 1)))
    × ((st'.heap 1).n_lines ≡ tally favt_line (used (st'.heap 1)))
    × ((st'.heap 1).n_folders ≡ tally favt_folder (used (st'.heap 1)))
    × ((x : ℕ) → rank 1 ≤ rank x → x ≢ 1 → st'.heap x ≡ tree.heap x)
rebuild_fav-survivors_example =
    rebuild_fav-survivors named named false rank 2 1 tree (omega arith) folder-Fine others-Fine

-- Three items are shown.
length-visible : length (visible items) ≡ 3
unfolding valid_item is_set_attr
length-visible = refl

move_in_folder-visible_example :
    (out : List Item) × (move_in_folder items 2 0 ≡ some out)
    × (visible out
        ≡ insert_at 0 (get_or (visible items) 2 blank_item) (remove_at 2 (visible items)))
move_in_folder-visible_example =
    move_in_folder-visible items 2 0 (omega (arith, length-visible)) (omega (arith, length-visible))

abbrev grown_book : Book
grown_book = record {
  fp = record {
    n_allocs = 12;
    data_tail = 5;
    n_boards = 3;
    n_lines = 0;
    n_folders = 1;
    line_id = 1;
    folder_id = 1;
    favh =
        items
        ++ board 5
          ∷ blank_item
          ∷ blank_item
          ∷ blank_item
          ∷ blank_item
          ∷ blank_item
          ∷ blank_item
          ∷ blank_item
          ∷ [];
  };
  number = pos 4;
}

fav_add-grown : fav_add true book (board 5) ≡ some grown_book
unfolding fav_add enlarge_if_full is_maxsize append_item fav_increase numbered ◌+ℤ◌
fav_add-grown = refl

fav_add-IsValid_example : IsValid grown_book.fp × (used grown_book.fp ≡ used folder ++ board 5 ∷ [])
unfolding HasRoom
fav_add-IsValid_example =
    fav_add-IsValid true book grown_book (board 5) folder-IsValid (omega arith)
      (λ e. absurd (omega arith)) ((λ e. absurd (omega arith)), λ e. absurd (omega arith))
      fav_add-grown

abbrev without_nine : Book
without_nine = record {
  fp = record folder {
    n_boards = 1;
    favh = board 7 ∷ removed_line ∷ subfolder ∷ record (board 9) { attr = 0 } ∷ [];
  };
  number = pos 2;
}

fav_remove_item-nine : fav_remove_item book 9 favt_board ≡ some without_nine
unfolding fav_remove_item get_fav_item matches valid_item is_set_attr fav_getid fav_remove ◌-ℤ◌
fav_remove_item-nine = refl

hits-nine : hits 9 favt_board (used folder) ≡ 1
unfolding matches valid_item is_set_attr fav_getid
hits-nine = refl

hits-five : hits 5 favt_board (used folder) ≡ 0
unfolding matches valid_item is_set_attr fav_getid
hits-five = refl

get_fav_item-fav_remove_item_example :
    (hits 9 favt_board (used without_nine.fp) ≡ 0)
    × (get_fav_item without_nine.fp 9 favt_board ≡ none)
    × (◌≢◌ {A = ℕ} 7 9 → hits 7 favt_board (used without_nine.fp) ≡ hits 7 favt_board (used folder))
get_fav_item-fav_remove_item_example =
    get_fav_item-fav_remove_item book without_nine 9 favt_board 7 (omega (arith, hits-nine))
      fav_remove_item-nine

book-room : is_maxsize book ≡ false
unfolding is_maxsize
book-room = refl

fav_add_board-hits_example :
    hits 7 favt_board (used (fav_add_board true 5 book).0.fp)
    ≡ (if 7 == 5 then 1 else hits 7 favt_board (used folder))
fav_add_board-hits_example =
    fav_add_board-hits book 5 7 folder-IsValid (omega arith) book-room (omega (arith, hits-five))

abbrev opened : FavStack
opened = record { num = 1; slots = 1 ∷ 0 ∷ 0 ∷ 0 ∷ 0 ∷ [] }

opened-free : (i : ℕ) → 1 ≤ i → get_or opened.slots i 0 ≡ 0
opened-free zero h = absurd (omega arith)
opened-free (suc zero) h = refl
opened-free (suc (suc zero)) h = refl
opened-free (suc (suc (suc zero))) h = refl
opened-free (suc (suc (suc (suc zero)))) h = refl
opened-free (suc (suc (suc (suc (suc i))))) h = refl

pop-push_example :
    (fav_stack_push_fav opened 2 ≡ none) × (opened.num ≡ 5)
    ⊎ ((t : FavStack) × (fav_stack_push_fav opened 2 ≡ some t)
        × (opened.num < 5)
        × IsStack t
        × (get_current_fav t ≡ 2)
        × (fav_stack_pop t ≡ some opened))
pop-push_example =
    pop-push opened 2 (record { slots = refl; depth = omega arith; free = opened-free })

getboard-nine : getboard folder 9 ≡ some 3
unfolding getboard get_fav_item matches valid_item is_set_attr fav_getid
getboard-nine = refl

getbrdtime-setbrdtime_example :
    getbrdtime (setbrdtime folder 9 44) 7 ≡ (if 7 == 9 then 44 else getbrdtime folder 7)
getbrdtime-setbrdtime_example = getbrdtime-setbrdtime folder 9 3 44 7 getboard-nine
