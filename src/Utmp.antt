-- ===== src/Utmp.antt =====
-- mbbsd/cache.c: the binary searches in the sorted indices of the sessions and of the boards.
pub mod Bsearch
pub mod Find
pub mod Logins
use Prim.Native.Nat.{compare, Ordering}
use pttoldstable.Base.{
  ℕ, zero, suc, ◌+◌, ◌-◌, ◌/◌, Bool, true, false, ◌&&◌, not, Option, none, some, List, [], ◌∷◌, ltb,
  leb, ◌==◌, if◌then◌else◌,
}
use pttoldstable.Base.Text.{tolower}

-- The sign of `strcasecmp(s, t)`.
unfoldable pub strcasecmp : List ℕ → List ℕ → Ordering
unfolding tolower
strcasecmp [] [] = Ordering.eq
strcasecmp [] (d ∷ t) = Ordering.lt
strcasecmp (c ∷ s) [] = Ordering.gt
strcasecmp (c ∷ s) (d ∷ t) = elim (compare (tolower c) (tolower d)) [
  | Ordering.eq ↦ strcasecmp s t
  | Ordering.lt ↦ Ordering.lt
  | Ordering.gt ↦ Ordering.gt
]

-- How a search ends: at a position that compares equal, at no position, or out of rounds.
pub data Outcome : Type 0 where
  at : ℕ → Outcome
  nowhere : Outcome
  unfinished : Outcome

-- The loop that `search_ulist_pid`, `search_ulistn`, `search_ulist_userid`, `count_logins` and
-- `getbnum` share. `sign i` is the sign of `j` in the round at `i`. The fuel counts the rounds.
unfoldable pub search_loop : ℕ → (ℕ → Ordering) → ℕ → ℕ → Outcome
search_loop zero sign start end = unfinished
search_loop (suc k) sign start end =
    let i = (start + end) / 2 in
    let to_end = search_loop k sign end end in
    let right = search_loop k sign i end in
    let left = search_loop k sign start i in
    elim (sign i) [
      | Ordering.eq ↦ at i
      | Ordering.gt ↦ if end == start then nowhere else if i == start then to_end else right
      | Ordering.lt ↦ if end == start then nowhere else if i == start then to_end else left
    ]

-- An entry of `SHM->uinfo`.
pub record Userinfo : Type 0 where
  pub pid : ℕ
  pub uid : ℕ
  pub userid : List ℕ

-- The sessions, their number, and the indices sorted by pid, by uid and by name: the arrays 7, 6 and
-- 0 of `SHM->sorted[SHM->currsorted]`.
pub record Utmp : Type 0 where
  pub uinfo : ℕ → Userinfo
  pub utmpnumber : ℕ
  pub by_pid : ℕ → ℕ
  pub by_uid : ℕ → ℕ
  pub by_userid : ℕ → ℕ

-- The sessions are searched with as many rounds as there are sessions.
abbrev pub bsearch : (ℕ → Ordering) → ℕ → Outcome
bsearch sign number = search_loop number sign 0 (number - 1)

abbrev pub pid_sign : Utmp → ℕ → ℕ → Ordering
pid_sign u pid i = compare pid (u.uinfo (u.by_pid i)).pid

abbrev pub uid_sign : Utmp → ℕ → ℕ → Ordering
uid_sign u uid i = compare uid (u.uinfo (u.by_uid i)).uid

abbrev pub userid_sign : Utmp → List ℕ → ℕ → Ordering
userid_sign u userid i = strcasecmp userid (u.uinfo (u.by_userid i)).userid

-- The result is an index of `uinfo`, or `none` for the null pointer.
unfoldable pub search_ulist_pid : Utmp → ℕ → Option ℕ
search_ulist_pid u pid =
    if u.utmpnumber == 0 then none else elim (bsearch (pid_sign u pid) u.utmpnumber) [
      | at i ↦ some (u.by_pid i)
      | nowhere ↦ none
      | unfinished ↦ none
    ]

-- `for (; i > 0 && uid == SHM->uinfo[ulist[i - 1]].uid; --i)`
unfoldable pub first_of_uid : Utmp → ℕ → ℕ → ℕ
first_of_uid u uid zero = zero
first_of_uid u uid (suc i) =
    let back = first_of_uid u uid i in if uid == (u.uinfo (u.by_uid i)).uid then back else suc i

-- An index is no negative number, so the test `ulist[...] >= 0` always holds.
unfoldable pub search_ulistn : Utmp → ℕ → ℕ → Option ℕ
unfolding first_of_uid
search_ulistn u uid unum =
    if u.utmpnumber == 0 then none else elim (bsearch (uid_sign u uid) u.utmpnumber) [
      | at i ↦
          let f = first_of_uid u uid i in
          if leb 1 (f + unum) && uid == (u.uinfo (u.by_uid (f + unum - 1))).uid
          then some (u.by_uid (f + unum - 1))
          else none
      | nowhere ↦ none
      | unfinished ↦ none
    ]

unfoldable pub search_ulist_userid : Utmp → List ℕ → Option ℕ
search_ulist_userid u userid =
    if u.utmpnumber == 0 then none else elim (bsearch (userid_sign u userid) u.utmpnumber) [
      | at i ↦ some (u.by_userid i)
      | nowhere ↦ none
      | unfinished ↦ none
    ]

-- The loop that counts from the first session of the user; `size` is the length of the array.
unfoldable pub count_from : ℕ → Utmp → ℕ → ℕ → ℕ
count_from zero u uid i = 0
count_from (suc k) u uid i =
    let rest = count_from k u uid (i + 1) in
    if not (u.by_uid i == 0) && uid == (u.uinfo (u.by_uid i)).uid then rest + 1 else 0

-- Without the output that `show` asks for.
unfoldable pub count_logins : ℕ → Utmp → ℕ → ℕ
unfolding first_of_uid count_from
count_logins size u uid =
    if u.utmpnumber == 0 then 0 else elim (bsearch (uid_sign u uid) u.utmpnumber) [
      | at i ↦ let f = first_of_uid u uid i in count_from (size - f) u uid f
      | nowhere ↦ 0
      | unfinished ↦ 0
    ]

-- The boards that `getbnum` searches, with the indices sorted by name, `SHM->bsorted[0]`.
pub record Boards : Type 0 where
  pub brdname : ℕ → List ℕ
  pub bnumber : ℕ
  pub bsorted : ℕ → ℕ

-- With at least one board.
unfoldable pub getbnum : Boards → List ℕ → ℕ
getbnum b bname = elim (bsearch (λ i. strcasecmp bname (b.brdname (b.bsorted i))) b.bnumber) [
  | at i ↦ b.bsorted i + 1
  | nowhere ↦ 0
  | unfinished ↦ 0
]
