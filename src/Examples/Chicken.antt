-- ===== src/Examples/Chicken.antt =====
-- mbbsd/chicken.c: a pet.
use pttoldstable.Base.{◌%◌, ◌≡◌, true}
use pttoldstable.Base.Int.{ℤ, pos, ◌-ℤ◌, ltb_ℤ, ◌≤ℤ◌}
use pttoldstable.Chicken.{Pet, ◌/ℤ◌, time_diff, num_kinds}
use pttoldstable.Chicken.Health.{InRange, time_diff-InRange}

abbrev spider : Pet
spider = record {
  kind = 3;
  lastvisit = pos 600;
  oo = pos 0;
  medicine = pos 2;
  weight = pos 10;
  clean = pos 0;
  run = pos 8;
  attack = pos 1;
  book = pos 1;
  happy = pos 20;
  satis = pos 3;
  temperament = pos 1;
  tiredstrong = pos 4;
  sick = pos 7;
  hp = pos 9;
  hp_max = pos 30;
  mm = pos 1;
  mm_max = pos 30;
  cbirth = pos 0;
}

abbrev same_age : ℤ → ℤ → ℤ → ℤ → ℤ × ℤ
same_age hp weight diff age = (hp, weight)

-- An hour later.
time_diff-InRange_example :
    (pos 1 ≤ℤ ((pos 4200 -ℤ pos 600) /ℤ 60)
      → InRange (time_diff same_age (pos 4200) spider)
        × ((time_diff same_age (pos 4200) spider).lastvisit ≡ pos 4200))
    × (ltb_ℤ ((pos 4200 -ℤ pos 600) /ℤ 60) (pos 1) ≡ true
        → time_diff same_age (pos 4200) spider ≡ record spider { kind = 3 % num_kinds })
time_diff-InRange_example = time_diff-InRange same_age (pos 4200) spider
