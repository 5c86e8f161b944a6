-- ===== src/Lock.antt =====
-- mbbsd/cal.c: the lock of a session against playing twice, and mbbsd/cache.c: counters of a board.
pub mod Playing
use pttoldstable.Base.{
  ℕ, zero, suc, ◌+◌, ◌-◌, ◌%◌, ◌≡◌, ◌≢◌, Bool, true, false, ◌&&◌, not, arith, ◌==◌, if◌then◌else◌,
}
use pttoldstable.Base.Int.{ℤ, pos, ◌+ℤ◌, ltb_ℤ}

-- An entry of `SHM->uinfo`, with the fields that the lock reads and writes; `lockmode` and `mode` are
-- unsigned chars.
pub record Session : Type 0 where
  pub uid : ℕ
  pub lockmode : ℕ
  pub mode : ℕ

-- The entries of `SHM->uinfo`; `currutmp` is the entry `curr`, `usernum` the number of its user and
-- `currstat` the mode that the process remembers.
pub record Here : Type 0 where
  pub uinfo : ℕ → Session
  pub curr : ℕ
  pub usernum : ℕ
  pub currstat : ℕ

-- The loop of `is_playing`: `left` entries from `p` on, round the end of the table.
unfoldable pub playing_loop : ℕ → ℕ → ℕ → ℕ → Here → Bool
playing_loop ushm_size zero p unmode s = false
playing_loop ushm_size (suc left) p unmode s =
    let p' : ℕ = if p == ushm_size then 0 else p in
    let rest = playing_loop ushm_size left (p' + 1) unmode s in
    if (s.uinfo p').uid == s.usernum && (s.uinfo p').lockmode == unmode then true else rest

-- `hash` is `StringHash(cuser.userid)`.
unfoldable pub is_playing : ℕ → ℕ → ℕ → Here → Bool
unfolding playing_loop
is_playing ushm_size hash unmode s = playing_loop ushm_size ushm_size (hash % ushm_size) unmode s

-- Without the log of a user who is watched. `currutmp->mode` keeps the low 8 bits, and `currstat` is an
-- int.
unfoldable pub setutmpmode : ℕ → Here → Here
setutmpmode mode s = if s.currstat == mode then s else record s {
  currstat = mode;
  uinfo = λ i. if i == s.curr then record (s.uinfo i) { mode = mode % 256 } else s.uinfo i;
}

-- `currutmp->lockmode = unmode` keeps the low 8 bits.
unfoldable pub set_lockmode : ℕ → Here → Here
set_lockmode unmode s = record s {
  uinfo = λ i. if i == s.curr then record (s.uinfo i) { lockmode = unmode % 256 } else s.uinfo i;
}

-- `LOCK_THIS` is 1 and `LOCK_MULTI` is 2.
unfoldable pub lockutmpmode : ℕ → ℕ → ℕ → ℕ → Here → ℕ × Here
lockutmpmode ushm_size hash unmode state s =
    let errorno : ℕ =
      if not ((s.uinfo s.curr).lockmode == 0)
      then 1
      else if is_playing ushm_size hash unmode s
      then 2
      else 0 in
    if not (errorno == 0) && not (state == 1 && errorno == 2)
    then (errorno, s)
    else (0, set_lockmode unmode (setutmpmode unmode s))

unfoldable pub unlockutmpmode : Here → Here
unlockutmpmode s = set_lockmode 0 s

-- `SHM->total` and `SHM->lastposttime`.
pub record Totals : Type 0 where
  pub total : ℕ → ℤ
  pub lastposttime : ℕ → ℕ

-- For a `bid` from 1 on.
unfoldable pub touchbtotal : ℕ → Totals → Totals
touchbtotal bid s = record s {
  total = λ i. if i == bid - 1 then pos 0 else s.total i;
  lastposttime = λ i. if i == bid - 1 then 0 else s.lastposttime i;
}

unfoldable pub touchbpostnum : ℕ → ℤ → Totals → Totals
touchbpostnum bid delta s =
    if not (ltb_ℤ (s.total (bid - 1)) (pos 0)) && not (ltb_ℤ (pos 0) (s.total (bid - 1)))
    then s
    else record s { total = λ i. if i == bid - 1 then s.total i +ℤ delta else s.total i }
