-- ===== src/Fav/Folder/Move.antt =====
-- mbbsd/fav.c: `move_in_folder`, which moves an item among those that the user sees.
pub mod Shift
pub mod Places
pub mod Visible
use pttoldstable.Base.{
  ℕ, zero, suc, ◌+◌, ◌-◌, ◌≤◌, ◌<◌, ◌≡◌, refl, ap, inl, inr, Bool, true, false, Option, none, some,
  List, [], ◌∷◌, ◌++◌, arith, ltb, if◌then◌else◌, get_or, set, length, Bool-cases, length-append,
  take, drop,
}
use mathlib.Core.List.{append_assoc, append-nil}
use pttoldstable.Fav.{Item, blank_item, valid_item}

-- The loop that counts valid items up to number `n`; `none` is a read past the slots.
pub locate : ℕ → ℕ → List Item → Option ℕ
locate n i [] = none
locate n i (x ∷ xs) =
    let skip = locate n (suc i) xs in
    let next = locate (n - 1) (suc i) xs in
    if valid_item x then if ltb 0 n then next else some i else skip

-- for(i = src; i < dst; i++) favh[i] = favh[i + 1], for `left` rounds from `i`.
pub shift_left : ℕ → ℕ → List Item → List Item
shift_left i zero l = l
shift_left i (suc left) l = shift_left (suc i) left (set l i (get_or l (suc i) blank_item))

-- for(i = src; i > dst; i--) favh[i] = favh[i - 1], for `left` rounds down to `dst`.
pub shift_right : ℕ → ℕ → List Item → List Item
shift_right dst zero l = l
shift_right dst (suc left) l =
    shift_right dst left (set l (dst + suc left) (get_or l (dst + left) blank_item))

-- The source and the destination as slots.
pub move_slot : List Item → ℕ → ℕ → List Item
unfolding shift_left shift_right
move_slot l src dst =
    let tmp = get_or l src blank_item in
    set (if ltb src dst then shift_left src (dst - src) l else shift_right dst (src - dst) l) dst
      tmp

abbrev pub move_between : List Item → Option ℕ → Option ℕ → Option (List Item)
move_between l none d = none
move_between l (some s) none = none
move_between l (some s) (some d) = some (move_slot l s d)

pub move_in_folder : List Item → ℕ → ℕ → Option (List Item)
unfolding locate move_slot
move_in_folder favh src dst = move_between favh (locate src 0 favh) (locate dst 0 favh)
