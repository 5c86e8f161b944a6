-- ===== src/Fav/Stack.antt =====
-- mbbsd/fav.c: the stack of the open folders, by their addresses; 0 is the null pointer.
pub mod Laws
use pttoldstable.Base.{
  ℕ, zero, suc, ◌+◌, ◌-◌, Bool, Option, none, some, List, ltb, leb, ◌==◌, if◌then◌else◌, get_or,
  set,
}
use pttoldstable.Fav.{fav_maxdepth}

pub record FavStack : Type 0 where
  pub num : ℕ
  pub slots : List ℕ

pub get_current_fav : FavStack → ℕ
get_current_fav s = if s.num == 0 then 0 else get_or s.slots (s.num - 1) 0

pub get_fav_root : FavStack → ℕ
get_fav_root s = get_or s.slots 0 0

pub fav_stack_full : FavStack → Bool
fav_stack_full s = leb fav_maxdepth s.num

-- `none` is the result −1.
pub fav_stack_push_fav : FavStack → ℕ → Option FavStack
unfolding fav_stack_full
fav_stack_push_fav s fp =
    if fav_stack_full s
    then none
    else some (record { num = s.num + 1; slots = set s.slots s.num fp })

-- `none` is the write before the first slot.
pub fav_stack_pop : FavStack → Option FavStack
fav_stack_pop s =
    if s.num == 0
    then none
    else some (record { num = s.num - 1; slots = set s.slots (s.num - 1) 0 })
