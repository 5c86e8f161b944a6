-- ===== src/Calendar/Dates.antt =====
-- mbbsd/calendar.c: consecutive dates have consecutive numbers.
use pttoldstable.Base.{
  ℕ, zero, suc, ◌+◌, ◌-◌, ◌*◌, ◌/◌, ◌≤◌, ◌≡◌, refl, sym, ap, ◌∙◌, Bool, true, false, arith, ltb,
  ◌%◌, ◌&&◌, ◌||◌, not, ◌==◌, ==_iff, if◌then◌else◌, Bool-cases, inl, inr, ℕ_discrete,
}
use pttoldstable.Base.Bits.{passes, passes_below}
use pttoldstable.Calendar.{month_day, is_leap, first_w, month_loop, days}

-- The calendar, apart from the tables of the program: every fourth year has a leap day, but of the
-- last years of the centuries only each fourth.
abbrev leap_year : ℕ → Bool
leap_year y = y % 4 == 0 && (not (y % 100 == 0) || y % 400 == 0)

-- April, June, September and November have 30 days.
abbrev length_of : Bool → ℕ → ℕ
length_of leap m =
    if m == 2
    then (if leap then 29 else 28)
    else if m == 4 || (m == 6 || (m == 9 || m == 11))
    then 30
    else 31

abbrev pub month_length : ℕ → ℕ → ℕ
month_length y m = length_of (leap_year y) m

-- The date after a date.
abbrev pub next_date : ℕ → ℕ → ℕ → ℕ × ℕ × ℕ
next_date y m d =
    if ltb d (month_length y m)
    then (y, m, d + 1)
    else if m == 12
    then (y + 1, 1, 1)
    else (y, m + 1, 1)

month_loop-add :
    (left i : ℕ) (leap : Bool) (w k : ℕ)
    → month_loop left i leap (w + k) ≡ month_loop left i leap w + k
unfolding month_loop
month_loop-add zero i leap w k = refl
month_loop-add (suc left) i leap w k =
    let e : w + k + month_day i leap ≡ w + month_day i leap + k = omega arith in
    rw e (month_loop-add left (i + 1) leap (w + month_day i leap) k)

month_loop-last :
    (left i : ℕ) (leap : Bool) (w : ℕ)
    → month_loop (suc left) i leap w ≡ month_loop left i leap w + month_day (i + left) leap
unfolding month_loop
month_loop-last zero i leap w = let e : i + 0 ≡ i = omega arith in rw e
month_loop-last (suc left) i leap w =
    let e : i + 1 + left ≡ i + suc left = omega arith in
    month_loop-last left (i + 1) leap (w + month_day i leap) ∙ rw e

year_length : (leap : Bool) (w : ℕ) → month_loop 11 1 leap w + 31 ≡ w + (if leap then 366 else 365)
unfolding month_loop month_day
year_length true w = omega arith
year_length false w = omega arith

-- The leap days before the year after `y`.
leap_days :
    (y : ℕ)
    → 1 ≤ y
    → (y / 4 + y / 400 + (y - 1) / 100)
      ≡ ((y - 1) / 4 + (y - 1) / 400 + y / 100 + (if is_leap y then 1 else 0))
unfolding is_leap
leap_days y h = ground arith

first_w-day : (y d : ℕ) → 1 ≤ d → first_w y d ≡ first_w y 1 + (d - 1)
unfolding first_w
first_w-day y d h = omega arith

first_w-year : (y : ℕ) → 1 ≤ y → first_w (y + 1) 1 ≡ first_w y 1 + (if is_leap y then 366 else 365)
unfolding first_w
first_w-year y h =
    let e : y + 1 - 1 ≡ y = omega arith in rw e (year_step y (is_leap y) h (leap_days y h))
  where
    year_step :
        (y : ℕ) (leap : Bool)
        → 1 ≤ y
        → y / 4 + y / 400 + (y - 1) / 100
          ≡ (y - 1) / 4 + (y - 1) / 400 + y / 100 + (if leap then 1 else 0)
        → (1 + 365 * y + y / 4) - y / 100 + y / 400 + 1 - 1
          ≡ (1 + 365 * (y - 1) + (y - 1) / 4)
            - (y - 1) / 100
            + (y - 1) / 400
            + 1
            - 1
            + (if leap then 366 else 365)
    year_step y true h e = omega arith
    year_step y false h e = omega arith

days-day : (y m d : ℕ) → 1 ≤ d → days y m d ≡ days y m 1 + (d - 1)
unfolding days
days-day y m d h =
    rw (first_w-day y d h) (month_loop-add (m - 1) 1 (is_leap y) (first_w y 1) (d - 1))

days-month : (y m : ℕ) → 1 ≤ m → days y (m + 1) 1 ≡ days y m 1 + month_day m (is_leap y)
unfolding days
days-month y m h =
    let e : m + 1 - 1 ≡ suc (m - 1) = omega arith in
    let e' : 1 + (m - 1) ≡ m = omega arith in
    rw e (month_loop-last (m - 1) 1 (is_leap y) (first_w y 1) ∙ rw e')

days-year : (y : ℕ) → 1 ≤ y → days (y + 1) 1 1 ≡ days y 12 1 + 31
unfolding days month_loop
days-year y h = first_w-year y h ∙ sym (year_length (is_leap y) (first_w y 1))

month_table :
    (leap : Bool) → passes 12 (λ i. month_day (i + 1) leap == length_of leap (i + 1)) ≡ true
unfolding month_day passes
month_table true = refl
month_table false = refl

is_leap-leap_year : (y : ℕ) → is_leap y ≡ leap_year y
unfolding is_leap
is_leap-leap_year y = ground arith

month_day-length : (y m : ℕ) → 1 ≤ m → m ≤ 12 → month_day m (is_leap y) ≡ month_length y m
month_day-length y m h h' =
    let leap = leap_year y in
    let p : ℕ → Bool = λ i. month_day (i + 1) leap == length_of leap (i + 1) in
    let e : m - 1 + 1 ≡ m = omega arith in
    let t : (month_day (m - 1 + 1) leap == length_of leap (m - 1 + 1)) ≡ true =
      passes_below 12 p (m - 1) (month_table leap) (omega arith) in
    rw (is_leap-leap_year y) (rw e at ((==_iff _ _).0 t))

days_first : days 1 1 1 ≡ 1
unfolding days first_w month_loop
days_first = refl

next_lem :
    (y m d : ℕ)
    → 1 ≤ y
    → 1 ≤ m
    → m ≤ 12
    → 1 ≤ d
    → d ≤ month_length y m
    → let n = next_date y m d in days n.0 n.1 n.2 ≡ days y m d + 1
next_lem y m d hy hm hm' hd hd' =
    let len = month_day-length y m hm hm' in
    elim (Bool-cases (ltb d (month_length y m))) [
      | inl lt ↦ rw lt (omega (arith, days-day y m (d + 1) (omega arith), days-day y m d hd))
      | inr ge ↦
          let end : d ≡ month_length y m = ltb_end d (month_length y m) hd' ge in
          elim (ℕ_discrete m 12) [
            | yes e ↦
                let t : m == 12 ≡ true = (==_iff m 12).1 e in
                let long : d ≡ 31 = end ∙ rw e refl in
                let same : days y m 1 ≡ days y 12 1 = ap (λ k. days y k 1) e in
                rw (ge, t) (omega (arith, days-year y hy, days-day y m d hd, long, same))
            | no ne ↦
                let t : m == 12 ≡ false = ground (arith, ne) in
                rw (ge, t) (omega (arith, days-month y m hm, days-day y m d hd, end, len))
          ]
    ]
  where
    ltb_end : (d k : ℕ) → d ≤ k → ltb d k ≡ false → d ≡ k
    ltb_end d k h g = ground arith

-- The date after a valid date of the calendar has the next number, at the ends of months and years as
-- well: with 31 days in January, 28 or 29 in February, and so on, and a leap day in the years that
-- 4 divides, but not those that 100 and not 400 divides. The first day of the year 1 has the number 1.
pub days-next :
    (y m d : ℕ)
    → 1 ≤ y
    → 1 ≤ m
    → m ≤ 12
    → 1 ≤ d
    → d ≤ month_length y m
    → let n = next_date y m d in (days n.0 n.1 n.2 ≡ days y m d + 1) × (days 1 1 1 ≡ 1)
days-next y m d hy hm hm' hd hd' = (next_lem y m d hy hm hm' hd hd', days_first)
