-- ===== src/Calendar/Events.antt =====
-- mbbsd/calendar.c: `InsertEvent` keeps the events in the order of their days.
use pttoldstable.Base.{ℕ, ◌≤◌, ◌≡◌, refl, ap, List, [], ◌∷◌, ◌++◌, arith, ltb, Bool-cases, inl, inr}
use pttoldstable.Calendar.{Event, insert_event}

abbrev pub From : ℕ → List Event → Type 0
From d [] = Unit
From d (p ∷ l) = (d ≤ p.days_of) × From p.days_of l

abbrev pub Sorted : List Event → Type 0
Sorted l = From 0 l

From-insert :
    (d : ℕ) (t : Event) (l : List Event) → d ≤ t.days_of → From d l → From d (insert_event t l)
unfolding insert_event
From-insert d t [] h f = (h, tt)
From-insert d t (p ∷ l) h f = elim (Bool-cases (ltb p.days_of t.days_of)) [
  | inl lt ↦ rw lt (f.0, From-insert p.days_of t l (ground arith) f.1)
  | inr ge ↦ rw ge (h, (ground arith, f.1))
]

insert_event-split :
    (t : Event) (l : List Event)
    → (before : List Event) × (after : List Event) × (l ≡ before ++ after)
      × (insert_event t l ≡ before ++ t ∷ after)
unfolding insert_event
insert_event-split t [] = ([], [], refl, refl)
insert_event-split t (p ∷ l) = elim (Bool-cases (ltb p.days_of t.days_of)) [
  | inl lt ↦
      let (before, after, e, e') = insert_event-split t l in
      (p ∷ before, after, ap (◌∷◌ p) e, rw lt (ap (◌∷◌ p) e'))
  | inr ge ↦ ([], p ∷ l, refl, rw ge)
]

-- `InsertEvent` into a list that is sorted by day gives a sorted list, which is the old one with the
-- event put in at one place.
pub insert_event-Sorted :
    (t : Event) (l : List Event)
    → Sorted l
    → Sorted (insert_event t l)
      × ((before : List Event) × (after : List Event) × (l ≡ before ++ after)
          × (insert_event t l ≡ before ++ t ∷ after))
insert_event-Sorted t l s = (From-insert 0 t l (omega arith) s, insert_event-split t l)
