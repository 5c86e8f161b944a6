-- ===== src/Brc.antt =====
-- mbbsd/brc.c: the list of read articles of the current board. A list of time stamps, newest first,
-- stands for the articles that were read.
pub mod Order
pub mod Marks
pub mod Effect
pub mod Buffer
pub mod Records
pub mod Insert
pub mod Bounds
pub mod Replace
pub mod Update
pub mod Save
use pttoldstable.Base.{
  ℕ, zero, suc, ◌-◌, ◌+◌, Bool, true, false, List, [], ◌∷◌, ltb, leb, ◌==◌, if◌then◌else◌, get_or,
  set, drop, ◌&&◌,
}

-- `BRC_MAXNUM`, the size of the array `brc_list`.
abbrev pub brc_maxnum : ℕ
brc_maxnum = 80

-- The globals of the file that concern the current board, with `cuser.userlevel`. A time stamp of a
-- file name is a number.
pub record Brc : Type 0 where
  pub userlevel : ℕ
  pub expire_time : ℕ
  pub changed : Bool
  pub num : ℕ
  pub list : List ℕ

-- The search through `blist`: the fuel counts the entries from `n` to `bnum`.
unfoldable pub unread_loop : ℕ → ℕ → ℕ → List ℕ → Bool
unread_loop zero n ftime blist = false
unread_loop (suc k) n ftime blist =
    let rest = unread_loop k (n + 1) ftime blist in
    if ltb (get_or blist n 0) ftime then true else if ftime == get_or blist n 0 then false else rest

-- `true` is the C function's 1: the article of that time is unread.
unfoldable pub brc_unread_time : ℕ → ℕ → ℕ → List ℕ → Bool
unfolding unread_loop
brc_unread_time expire_time ftime bnum blist =
    if leb ftime expire_time
    then false
    else if leb bnum 0
    then true
    else unread_loop bnum 0 ftime blist

-- `for (i = brc_num - 1; --i >= n; brc_list[i + 1] = brc_list[i]);` with `k` the rounds left: the
-- round at `k + 1` has `i = n + k`.
unfoldable pub shift_loop : ℕ → ℕ → List ℕ → List ℕ
shift_loop zero n l = l
shift_loop (suc k) n l = shift_loop k n (set l (n + k + 1) (get_or l (n + k) 0))

-- The branch of `brc_addlist` that inserts `ftime` at `n`.
unfoldable pub insert_at : ℕ → ℕ → Brc → Brc
unfolding shift_loop
insert_at n ftime s =
    let num' : ℕ = if ltb s.num brc_maxnum then s.num + 1 else s.num in
    record s { num = num'; list = set (shift_loop (num' - 1 - n) n s.list) n ftime; changed = true }

-- The loop over `n` of `brc_addlist`: `k` entries are left.
unfoldable pub addlist_loop : ℕ → ℕ → ℕ → Brc → Brc
addlist_loop zero n ftime s = s
addlist_loop (suc k) n ftime s =
    let rest = addlist_loop k (n + 1) ftime s in
    if ftime == get_or s.list n 0
    then s
    else if ltb (get_or s.list n 0) ftime
    then insert_at n ftime s
    else rest

-- The library function `atoi` on the bytes of a text.
module _ (atoi : List ℕ → ℕ) where
  unfoldable pub brc_addlist : List ℕ → Brc → Brc
  unfolding addlist_loop
  brc_addlist fname s =
      let ftime = atoi (drop 2 fname) in
      if s.userlevel == 0
      then s
      else if leb ftime s.expire_time
      then s
      else if leb s.num 0
      then record s { list = set s.list 0 ftime; num = 1; changed = true }
      else if s.num == 1 && ltb ftime (get_or s.list 0 0)
      then s
      else addlist_loop s.num 0 ftime s

  unfoldable pub brc_unread : ℕ → List ℕ → ℕ → List ℕ → Bool
  unfolding unread_loop
  brc_unread expire_time fname bnum blist =
      let ftime = atoi (drop 2 fname) in
      if leb ftime expire_time
      then false
      else if leb bnum 0
      then true
      else unread_loop bnum 0 ftime blist
