-- ===== src/Calendar.antt =====
-- mbbsd/calendar.c: the number of a day, and the list of events by day.
pub mod Dates
pub mod Events
use pttoldstable.Base.{
  ℕ, zero, suc, ◌+◌, ◌-◌, ◌*◌, ◌/◌, ◌%◌, Bool, true, false, ◌&&◌, ◌||◌, not, Option, none, some,
  List, [], ◌∷◌, ltb, leb, ◌==◌, if◌then◌else◌, get_or,
}

abbrev pub day_table : List ℕ
day_table = 31 ∷ 28 ∷ 31 ∷ 30 ∷ 31 ∷ 30 ∷ 31 ∷ 31 ∷ 30 ∷ 31 ∷ 30 ∷ 31 ∷ []

-- For the months 1 to 12.
unfoldable pub month_day : ℕ → Bool → ℕ
month_day m leap = if leap && m == 2 then 29 else get_or day_table (m - 1) 0

unfoldable pub is_leap : ℕ → Bool
is_leap y = if y % 400 == 0 || (y % 4 == 0 && not (y % 100 == 0)) then true else false

-- `for (i = 1; i < m; i++)` with `left` rounds to go.
unfoldable pub month_loop : ℕ → ℕ → Bool → ℕ → ℕ
month_loop zero i leap w = w
month_loop (suc left) i leap w = month_loop left (i + 1) leap (w + month_day i leap)

-- What `w` starts with, for a year and a day from 1 on.
unfoldable pub first_w : ℕ → ℕ → ℕ
first_w y d = (1 + 365 * (y - 1) + (y - 1) / 4) - (y - 1) / 100 + (y - 1) / 400 + d - 1

unfoldable pub days : ℕ → ℕ → ℕ → ℕ
days y m d = month_loop (m - 1) 1 (is_leap y) (first_w y d)

pub record Event : Type 0 where
  pub year : ℕ
  pub month : ℕ
  pub day : ℕ
  pub days_of : ℕ

-- `ParseDate` once `strtok` and `atoi` have given the three numbers; `none` is the result 1.
unfoldable pub parse_date : ℕ → ℕ → ℕ → Option Event
parse_date y m d =
    if ltb y 1 || (ltb m 1 || (ltb 12 m || (ltb d 1 || ltb 31 d)))
    then none
    else some (record { year = y; month = m; day = d; days_of = days y m d })

-- The list is what follows the head, which is no event.
unfoldable pub insert_event : Event → List Event → List Event
insert_event t [] = t ∷ []
insert_event t (p ∷ l) =
    let rest = insert_event t l in if ltb p.days_of t.days_of then p ∷ rest else t ∷ p ∷ l
