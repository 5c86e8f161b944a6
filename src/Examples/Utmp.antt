-- ===== src/Examples/Utmp.antt =====
-- mbbsd/cache.c: the searches at concrete tables.
use Prim.Native.Nat.{compare, Ordering}
use pttoldstable.Base.{
  ℕ, zero, suc, ◌+◌, ◌*◌, ◌<◌, ◌≡◌, refl, List, [], ◌∷◌, arith, ◌==◌, ltb, if◌then◌else◌,
}
use pttoldstable.Utmp.{Utmp, Boards, strcasecmp, search_loop, count_logins}
use pttoldstable.Utmp.Bsearch.{bsearch-Searched}
use pttoldstable.Utmp.Find.{ByUserid, ByName}
use pttoldstable.Utmp.Logins.{ByUid, First, count_logins_lem, count_logins-entry_zero}

abbrev user_name : ℕ → List ℕ
user_name zero = 97 ∷ []
user_name (suc i) = 98 ∷ []

-- The sessions 0 to 2, of the users 5, 8 and 8, with the pids 10, 20 and 30.
abbrev sessions : Utmp
sessions = record {
  uinfo = λ k. record { pid = 10 + k * 10; uid = if k == 0 then 5 else 8; userid = user_name k };
  utmpnumber = 3;
  by_pid = λ i. i;
  by_uid = λ i. i;
  by_userid = λ i. i;
}

bsearch-Searched_example : (1 < 3) × (compare 1 1 ≡ Ordering.eq)
unfolding search_loop
bsearch-Searched_example =
    bsearch-Searched (λ i. compare 1 i) 3 (omega arith)
      (λ i j l h. (λ e. ground arith, λ e. ground arith))

-- Another user's session at the end.
abbrev four_sessions : Utmp
four_sessions = record {
  uinfo = λ k. record {
    pid = 10 + k * 10;
    uid = if k == 0 then 5 else if ltb k 3 then 8 else 9;
    userid = [];
  };
  utmpnumber = 4;
  by_pid = λ i. i;
  by_uid = λ i. i;
  by_userid = λ i. i;
}

names-ByUserid : ByUserid sessions
unfolding strcasecmp
names-ByUserid zero zero l h = λ e. cc
names-ByUserid zero (suc j) l h = λ e. cc
names-ByUserid (suc i) zero l h = absurd (omega arith)
names-ByUserid (suc i) (suc j) l h = λ e. cc

-- The boards B and A, and their order.
abbrev board_name : ℕ → List ℕ
board_name zero = 66 ∷ []
board_name (suc i) = 65 ∷ []

abbrev board_order : ℕ → ℕ
board_order zero = 1
board_order (suc i) = 0

abbrev boards : Boards
boards = record { brdname = board_name; bnumber = 2; bsorted = board_order }

boards-ByName : ByName boards
unfolding strcasecmp
boards-ByName zero zero l h = λ e. cc
boards-ByName zero (suc j) l h = λ e. cc
boards-ByName (suc i) zero l h = absurd (omega arith)
boards-ByName (suc i) (suc j) l h = λ e. cc

sessions-ByUid : ByUid sessions
sessions-ByUid i j l h = ground arith

second-First : First sessions 8 1
second-First = record { inside = omega arith; here = refl; none_before = λ j l. ground arith }

-- The array has an entry of another user after the two sessions.
count_logins_lem_example : count_logins 5 four_sessions 8 ≡ 2
count_logins_lem_example =
    count_logins_lem four_sessions 8 1 (λ i j l h. ground arith)
      (record { inside = omega arith; here = refl; none_before = λ j l. ground arith }) 5 2
      (omega arith) (λ j l. (omega arith, ground arith)) (ground arith)

-- The user 5 has a session, which is entry 0.
count_logins-entry_zero_example : count_logins 5 sessions 5 ≡ 0
count_logins-entry_zero_example =
    count_logins-entry_zero sessions 5 0 sessions-ByUid
      (record { inside = omega arith; here = refl; none_before = λ j l. ground arith }) 5
      (omega arith) refl
