-- ===== src/Examples/Calendar.antt =====
-- mbbsd/calendar.c and mbbsd/name.c: dates, events and names.
use pttoldstable.Base.{ℕ, ◌+◌, ◌≡◌, List, [], ◌∷◌, ◌++◌, arith}
use pttoldstable.Calendar.{days, Event, insert_event}
use pttoldstable.Calendar.Dates.{days-next}
use pttoldstable.Calendar.Events.{Sorted, insert_event-Sorted}

-- The end of a century that is a leap year.
days-next_example : (days 2001 1 1 ≡ days 2000 12 31 + 1) × (days 1 1 1 ≡ 1)
days-next_example =
    days-next 2000 12 31 (omega arith) (omega arith) (omega arith) (omega arith) (omega arith)

abbrev event : ℕ → Event
event n = record { year = 1; month = 1; day = n; days_of = n }

insert_event-Sorted_example :
    Sorted (insert_event (event 5) (event 3 ∷ event 8 ∷ []))
    × ((before : List Event) × (after : List Event) × (event 3 ∷ event 8 ∷ [] ≡ before ++ after)
        × (insert_event (event 5) (event 3 ∷ event 8 ∷ []) ≡ before ++ event 5 ∷ after))
insert_event-Sorted_example =
    insert_event-Sorted (event 5) (event 3 ∷ event 8 ∷ []) (omega arith, (omega arith, tt))

abbrev names : List (List ℕ)
names = (97 ∷ 98 ∷ []) ∷ (99 ∷ []) ∷ []
