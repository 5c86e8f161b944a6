-- ===== src/Fav.antt =====
-- mbbsd/fav.c, include/fav.h: the folders of favourite boards of a user. An item keeps the object
-- that its pointer `fp` leads to (no two items share one): `id` is its `bid`, `fid` or `lid`.
-- A char or a short is the bit pattern of its 8 or 16 bits.
pub mod Folder
pub mod Stack
pub mod Rebuild
use pttoldstable.Base.{
  ℕ, zero, suc, ◌+◌, ◌-◌, ◌%◌, ◌≡◌, Bool, true, false, not, ◌&&◌, ◌||◌, Option, none, some, List,
  [], ◌∷◌, ltb, leb, ◌==◌, if◌then◌else◌, get_or, set, bit_and, bit_or, bit_xor,
}
use pttoldstable.Base.Int.{ℤ, pos, negsuc, ◌+ℤ◌, ◌-ℤ◌}

abbrev pub favt_board : ℕ
favt_board = 1

abbrev pub favt_folder : ℕ
favt_folder = 2

abbrev pub favt_line : ℕ
favt_line = 3

abbrev pub favh_fav : ℕ
favh_fav = 1

abbrev pub favh_tag : ℕ
favh_tag = 2

abbrev pub favh_adm_tag : ℕ
favh_adm_tag = 8

abbrev pub fav_pre_alloc : ℕ
fav_pre_alloc = 8

abbrev pub fav_maxdepth : ℕ
fav_maxdepth = 5

abbrev pub max_fav : ℕ
max_fav = 1024

abbrev pub max_line : ℕ
max_line = 64

abbrev pub max_folder : ℕ
max_folder = 64

-- `this_folder` is an address; 0 is the null pointer.
pub record Item : Type 0 where
  pub type : ℕ
  pub attr : ℕ
  pub id : ℕ
  pub lastvisit : ℕ
  pub title : List ℕ
  pub this_folder : ℕ

-- What `memset` leaves.
abbrev pub blank_item : Item
blank_item = record { type = 0; attr = 0; id = 0; lastvisit = 0; title = []; this_folder = 0 }

pub record Fav : Type 0 where
  pub n_allocs : ℕ
  pub data_tail : ℕ
  pub n_boards : ℕ
  pub n_lines : ℕ
  pub n_folders : ℕ
  pub line_id : ℕ
  pub folder_id : ℕ
  pub favh : List Item

-- `++` and `--` on w-bit patterns, where `top` is the largest one.
abbrev pub inc : ℕ → ℕ → ℕ
inc top n = if n == top then 0 else n + 1

abbrev pub dec : ℕ → ℕ → ℕ
dec top n = if n == 0 then top else n - 1

-- A char as 16 bits: its sign is copied.
abbrev pub widen : ℕ → ℕ
widen n = if ltb n 128 then n else n + 65280

-- `>=` between a char and a constant below 128.
abbrev pub char_ge : ℕ → ℕ → Bool
char_ge n k = leb k n && ltb n 128

-- As the short that the callers store.
unfoldable pub get_data_number : Fav → ℕ
get_data_number fp = (fp.n_boards + widen fp.n_lines + widen fp.n_folders) % 65536

-- The third argument of `set_attr`.
pub data Mode : Type 0 where
  unset turn_on exch : Mode

unfoldable pub set_attr : Item → ℕ → Mode → Item
set_attr ft bit exch = record ft { attr = bit_xor ft.attr bit % 256 }
set_attr ft bit turn_on = record ft { attr = bit_or ft.attr bit % 256 }
set_attr ft bit unset = record ft { attr = bit_and ft.attr (bit_xor 255 (bit % 256)) }

unfoldable pub is_set_attr : Item → ℕ → Bool
is_set_attr ft bit = not (bit_and ft.attr bit == 0)

unfoldable pub valid_item : Item → Bool
unfolding is_set_attr
valid_item ft = is_set_attr ft favh_fav

-- A folder with the count of all items, `fav_number`.
pub record Book : Type 0 where
  pub fp : Fav
  pub number : ℤ

count_down : Fav → ℕ → Fav
count_down fp t =
    if t == favt_board
    then record fp { n_boards = dec 65535 fp.n_boards }
    else if t == favt_line
    then record fp { n_lines = dec 255 fp.n_lines }
    else if t == favt_folder
    then record fp { n_folders = dec 255 fp.n_folders }
    else fp

unfoldable pub fav_decrease : Book → Item → Book
unfolding count_down
fav_decrease b ft = record { fp = count_down b.fp ft.type; number = b.number -ℤ pos 1 }

pub count_up : Fav → ℕ → Fav
count_up fp t =
    if t == favt_board
    then record fp { n_boards = inc 65535 fp.n_boards }
    else if t == favt_line
    then record fp { n_lines = inc 255 fp.n_lines; line_id = inc 255 fp.line_id }
    else if t == favt_folder
    then record fp { n_folders = inc 255 fp.n_folders; folder_id = inc 255 fp.folder_id }
    else fp

-- The number that the item is given: `cast_line(ft)->lid = ++fp->lineID`.
unfoldable pub numbered : Fav → Item → Item
numbered fp ft =
    if ft.type == favt_line
    then record ft { id = inc 255 fp.line_id }
    else if ft.type == favt_folder
    then record ft { id = inc 255 fp.folder_id }
    else ft

pub counted : Fav → Item → Fav
unfolding count_up
counted fp ft = let fp' = count_up fp ft.type in record fp' { data_tail = inc 65535 fp'.data_tail }

-- The folder and the count; the item itself becomes `numbered`.
unfoldable pub fav_increase : Book → Item → Book
unfolding counted
fav_increase b ft = record { fp = counted b.fp ft; number = b.number +ℤ pos 1 }

-- `fav_getid` as the short that the callers compare with: the chars `fid` and `lid` copy their sign. `none`
-- is −1.
unfoldable pub fav_getid : Item → Option ℕ
fav_getid ft =
    if ft.type == favt_folder || ft.type == favt_line
    then some (widen ft.id)
    else if ft.type == favt_board
    then some ft.id
    else none
