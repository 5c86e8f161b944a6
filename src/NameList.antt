-- ===== src/NameList.antt =====
-- mbbsd/name.c: the list of names of the completion of user names. A list of words stands for the
-- linked list from `toplev` on, in which `current` is the last node.
pub mod Content
use pttoldstable.Base.{
  ℕ, zero, suc, ◌+◌, ◌-◌, Bool, true, false, ◌&&◌, ◌||◌, not, List, [], ◌∷◌, ◌++◌, ltb, leb, ◌==◌,
  if◌then◌else◌, length, get_or, drop,
}
use pttoldstable.Base.Text.{streq, toupper}

abbrev pub Word : Type 0
Word = List ℕ

abbrev pub create_name_list : List Word
create_name_list = []

unfoldable pub add_name_list : Word → List Word → List Word
add_name_list name toplev = toplev ++ name ∷ []

-- The result 1 is `true`; then the first node with the name is gone.
unfoldable pub remove_name_list : Word → List Word → Bool × List Word
remove_name_list name [] = (false, [])
remove_name_list name (w ∷ l) =
    let rest = remove_name_list name l in if streq w name then (true, l) else (rest.0, w ∷ rest.1)

unfoldable pub in_list : List Word → Word → Bool
in_list [] name = false
in_list (w ∷ l) name = let rest = in_list l name in if streq w name then true else rest

unfoldable pub num_in_list : List Word → ℕ
num_in_list [] = 0
num_in_list (w ∷ l) = num_in_list l + 1

-- The loop of `ToggleNameList` over the words of a file, with the counter `*reciper`, which stays
-- non-negative where it counts the names of the list.
unfoldable pub toggle_name_list : List Word → ℕ → List Word → ℕ × List Word
unfolding add_name_list
toggle_name_list [] reciper toplev = (reciper, toplev)
toggle_name_list (word ∷ file) reciper toplev =
    let added = toggle_name_list file (reciper + 1) (add_name_list word toplev) in
    let removed = toggle_name_list file (reciper - 1) (remove_name_list word toplev).1 in
    if not (in_list toplev word) then added else removed

-- `chkstr`: the letters of `tag`, in upper case already, begin the name without regard to case. It
-- never writes `otag`, since `*tag` is 0 after the loop. A name ends with a 0 that no tag has.
unfoldable pub chkstr : Word → Word → Bool
chkstr [] name = true
chkstr (t ∷ tag) [] = false
chkstr (t ∷ tag) (c ∷ name) =
    let rest = chkstr tag name in if not (t == toupper c) then false else rest

unfoldable pub upper : Word → Word
upper [] = []
upper (c ∷ tag) = toupper c ∷ upper tag

-- The loop of `GetSubList` with the tag in upper case.
unfoldable pub sub_loop : Word → List Word → List Word
sub_loop tagbuf [] = []
sub_loop tagbuf (w ∷ l) = let rest = sub_loop tagbuf l in if chkstr tagbuf w then w ∷ rest else rest

unfoldable pub get_sub_list : Word → List Word → List Word
unfolding sub_loop
get_sub_list tag list = sub_loop (upper tag) list

-- The loop of `MaxLen` from the length `len` on.
unfoldable pub max_loop : ℕ → ℕ → List Word → ℕ
max_loop zero len list = len
max_loop (suc count) len [] = len
max_loop (suc count) len (w ∷ l) =
    let t = length w in
    let longer = max_loop count t l in
    let same = max_loop count len l in if ltb len t then longer else same

-- Of a list that is not empty.
unfoldable pub max_len : List Word → ℕ → ℕ
unfolding max_loop
max_len [] count = 0
max_len (w ∷ l) count = max_loop count (length w) (w ∷ l)

-- `UserMaxLen`: `count` names from `morenum` on, of the first `cwnum`.
unfoldable pub user_max_loop : ℕ → ℕ → ℕ → List Word → ℕ → ℕ
user_max_loop zero max cwnum cwlist morenum = max
user_max_loop (suc count) max cwnum cwlist morenum =
    let len = length (get_or cwlist morenum []) in
    let longer = user_max_loop count len cwnum cwlist (morenum + 1) in
    let same = user_max_loop count max cwnum cwlist (morenum + 1) in
    if ltb morenum cwnum then (if ltb max len then longer else same) else max

unfoldable pub user_max_len : List Word → ℕ → ℕ → ℕ → ℕ
unfolding user_max_loop
user_max_len cwlist cwnum morenum count = user_max_loop count 0 cwnum cwlist morenum

-- `UserSubArray`: the names with the letter `key` at `pos`, in either case.
unfoldable pub sub_array_loop : ℕ → ℕ → ℕ → List Word → List Word
sub_array_loop key key2 pos [] = []
sub_array_loop key key2 pos (w ∷ l) =
    let rest = sub_array_loop key key2 pos l in
    let ch = get_or w pos 0 in if ch == key || ch == key2 then w ∷ rest else rest

-- `key | 0x20` of a capital letter.
unfoldable pub user_sub_array : List Word → ℕ → ℕ → List Word
unfolding sub_array_loop
user_sub_array cwlist key pos =
    let key' = toupper key in
    let key2 : ℕ = if leb 65 key' && leb key' 90 then key' + 32 else key' in
    sub_array_loop key' key2 pos cwlist
