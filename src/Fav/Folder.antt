-- ===== src/Fav/Folder.antt =====
-- mbbsd/fav.c: the operations on the items of one folder. The first `data_tail` slots of `favh` are
-- in use, the removed ones included.
pub mod Counts
pub mod Hits
pub mod Boards
pub mod Times
pub mod Add
pub mod Move
use pttoldstable.Base.{
  ℕ, zero, suc, ◌+◌, ◌-◌, ◌%◌, Bool, true, false, not, ◌&&◌, Option, none, some, List, [], ◌∷◌, ltb,
  leb, ◌==◌, if◌then◌else◌, get_or, set, take, ◌++◌, replicate,
}
use pttoldstable.Base.Int.{ℤ, pos, negsuc, ltb_ℤ}
use pttoldstable.Fav.{
  Item, Fav, Book, blank_item, favt_board, favt_folder, favt_line, favh_fav, favh_tag, favh_adm_tag,
  fav_pre_alloc, fav_maxdepth, max_fav, max_line, max_folder, inc, char_ge, set_attr, is_set_attr,
  valid_item, fav_decrease, fav_increase, numbered, fav_getid, Mode, unset, turn_on,
}

-- The slots in use.
abbrev pub used : Fav → List Item
used fp = take fp.data_tail fp.favh

abbrev pub slot : Fav → ℕ → Item
slot fp i = get_or fp.favh i blank_item

-- The test in the loop of `get_fav_item`.
unfoldable pub matches : ℕ → ℕ → Item → Bool
matches id type ft =
    valid_item ft && (ft.type == type) && elim (fav_getid ft) [ none ↦ false | some k ↦ k == id ]

pub find_slot : ℕ → ℕ → ℕ → List Item → Option ℕ
find_slot id type i [] = none
find_slot id type i (x ∷ xs) =
    let rest = find_slot id type (suc i) xs in if matches id type x then some i else rest

-- The slot of the first item that matches.
unfoldable pub get_fav_item : Fav → ℕ → ℕ → Option ℕ
unfolding find_slot
get_fav_item fp id type = find_slot id type 0 (used fp)

pub write_slot : Fav → ℕ → Item → Fav
write_slot fp i x = record fp { favh = set fp.favh i x }

-- `fav_remove` of the item in a slot, with `fav_free_item`.
unfoldable pub fav_remove : Book → ℕ → Book
unfolding fav_decrease set_attr write_slot
fav_remove b i =
    let ft = slot b.fp i in
    fav_decrease (record b { fp = write_slot b.fp i (set_attr ft 65535 unset) }) ft

-- `none` is the null pointer, which `fav_remove` reads through.
unfoldable pub fav_remove_item : Book → ℕ → ℕ → Option Book
fav_remove_item b id type = elim (get_fav_item b.fp id type) [
  | none ↦ none
  | some i ↦ some (fav_remove b i)
]

unfoldable pub is_maxsize : Book → Bool
is_maxsize b = not (ltb_ℤ b.number (pos max_fav))

-- `<` between two shorts.
abbrev pub short_lt : ℕ → ℕ → Bool
short_lt a b = ltb ((a + 32768) % 65536) ((b + 32768) % 65536)

abbrev grown : Fav → Fav
grown fp = record fp {
  n_allocs = (fp.n_allocs + fav_pre_alloc) % 65536;
  favh = fp.favh ++ replicate fav_pre_alloc blank_item;
}

-- `granted` says whether `realloc` finds room; `none` is the negative result.
unfoldable pub enlarge_if_full : Bool → Book → Option Book
unfolding is_maxsize
enlarge_if_full granted b =
    if is_maxsize b
    then none
    else if short_lt b.fp.data_tail b.fp.n_allocs
    then some b
    else if granted
    then some (record b { fp = grown b.fp })
    else none

unfoldable pub append_item : Book → Item → Book
unfolding write_slot fav_increase
append_item b x =
    fav_increase (record b { fp = write_slot b.fp b.fp.data_tail (numbered b.fp x) }) x

-- The slot and `item` share their pointer, so the slot has the item with its number.
unfoldable pub fav_add : Bool → Book → Item → Option Book
unfolding enlarge_if_full append_item
fav_add granted b item = elim (enlarge_if_full granted b) [
  | none ↦ none
  | some b' ↦ some (append_item b' item)
]

-- The item is new, of its type, and has what its caller writes through the pointer afterwards. The
-- caller is given it also where `fav_add` fails.
pub init_add : Bool → Book → Item → Book × Option Item
unfolding set_attr
init_add granted b ft =
    if is_maxsize b
    then (b, none)
    else let x = set_attr ft favh_fav turn_on in
      elim (fav_add granted b x) [ none ↦ (b, some x) | some b' ↦ (b', some (numbered b.fp x)) ]

pub fav_add_line : Bool → Book → Book × Option Item
unfolding init_add
fav_add_line granted b =
    if char_ge b.fp.n_lines max_line
    then (b, none)
    else init_add granted b (record blank_item { type = favt_line })

-- `depth` is the number of the open folders, and `sub` the address of a new folder.
pub fav_add_folder : Bool → ℕ → ℕ → Book → Book × Option Item
unfolding init_add
fav_add_folder granted depth sub b =
    if leb fav_maxdepth depth
    then (b, none)
    else if char_ge b.fp.n_folders max_folder
    then (b, none)
    else init_add granted b (record blank_item { type = favt_folder; this_folder = sub })

-- What `alloc_folder_item` puts there.
pub alloc_folder_item : Fav
alloc_folder_item = record {
  n_allocs = fav_pre_alloc;
  data_tail = 0;
  n_boards = 0;
  n_lines = 0;
  n_folders = 0;
  line_id = 0;
  folder_id = 0;
  favh = replicate fav_pre_alloc blank_item;
}

unfoldable pub getboard : Fav → ℕ → Option ℕ
unfolding get_fav_item
getboard fp bid = get_fav_item fp bid favt_board

pub fav_add_board : Bool → ℕ → Book → Book × Option Item
unfolding init_add
fav_add_board granted bid b = elim (getboard b.fp bid) [
  | some i ↦ (b, some (slot b.fp i))
  | none ↦ init_add granted b (record blank_item { type = favt_board; id = bid })
]

pub fav_add_admtag : Bool → ℕ → Book → Book × Option Item
unfolding set_attr
fav_add_admtag granted bid b =
    if is_maxsize b
    then (b, none)
    else let x =
        set_attr (record blank_item { type = favt_board; id = bid }) favh_adm_tag turn_on in
      elim (fav_add granted b x) [ none ↦ (b, some x) | some b' ↦ (b', some x) ]

pub getbrdtime : Fav → ℕ → ℕ
unfolding getboard
getbrdtime fp bid = elim (getboard fp bid) [ none ↦ 0 | some i ↦ (slot fp i).lastvisit ]

pub getbrdattr : Fav → ℕ → ℕ
unfolding getboard
getbrdattr fp bid = elim (getboard fp bid) [ none ↦ 0 | some i ↦ (slot fp i).attr ]

pub setbrdtime : Fav → ℕ → ℕ → Fav
unfolding getboard write_slot
setbrdtime fp bid t = elim (getboard fp bid) [
  | none ↦ fp
  | some i ↦ write_slot fp i (record (slot fp i) { lastvisit = t })
]

pub fav_tag : Fav → ℕ → ℕ → Mode → Fav
unfolding get_fav_item write_slot set_attr
fav_tag fp id type mode = elim (get_fav_item fp id type) [
  | none ↦ fp
  | some i ↦ write_slot fp i (set_attr (slot fp i) favh_tag mode)
]
