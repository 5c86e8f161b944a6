-- ===== src/Chicken/Health.antt =====
-- mbbsd/chicken.c: the ranges of a pet's values.
use pttoldstable.Base.{◌%◌, ◌≡◌, refl, true, false, arith}
use pttoldstable.Base.Int.{ℤ, pos, ◌-ℤ◌, ltb_ℤ, ◌≤ℤ◌}
use pttoldstable.Chicken.{
  Pet, num_kinds, at_least_zero, at_most, lose_weight, wear, sicken, recover, time_diff, ◌/ℤ◌,
  less_above, ch_eatmedicine,
}

at_least_zero-le : (a : ℤ) → pos 0 ≤ℤ at_least_zero a
unfolding at_least_zero
at_least_zero-le a = ground arith

at_most-le : (a b : ℤ) → at_most a b ≤ℤ a
unfolding at_most
at_most-le a b = ground arith

lose_weight-weight : (diff : ℤ) (s : Pet) → pos 1 ≤ℤ (lose_weight diff s).weight
unfolding lose_weight
lose_weight-weight diff s = ground arith

-- What holds of a pet after time has been applied to it.
pub record InRange (s : Pet) : Type 0 where
  pub weight_pos : pos 1 ≤ℤ s.weight
  pub happy_nonneg : pos 0 ≤ℤ s.happy
  pub attack_nonneg : pos 0 ≤ℤ s.attack
  pub run_nonneg : pos 0 ≤ℤ s.run
  pub book_nonneg : pos 0 ≤ℤ s.book
  pub satis_nonneg : pos 0 ≤ℤ s.satis
  pub sick_nonneg : pos 0 ≤ℤ s.sick
  pub tiredstrong_nonneg : pos 0 ≤ℤ s.tiredstrong
  pub hp_top : s.hp ≤ℤ s.hp_max
  pub mm_top : s.mm ≤ℤ s.mm_max

daily-InRange :
    (diff : ℤ) (s : Pet) → InRange (recover diff (sicken diff (wear diff (lose_weight diff s))))
unfolding recover sicken wear
daily-InRange diff s = record {
  weight_pos = lose_weight-weight diff s;
  happy_nonneg = at_least_zero-le _;
  attack_nonneg = at_least_zero-le _;
  run_nonneg = at_least_zero-le _;
  book_nonneg = at_least_zero-le _;
  satis_nonneg = at_least_zero-le _;
  sick_nonneg = at_least_zero-le _;
  tiredstrong_nonneg = at_least_zero-le _;
  hp_top = at_most-le _ _;
  mm_top = at_most-le _ _;
}

visit :
    (diff : ℤ) (s : Pet)
    → (recover diff (sicken diff (wear diff (lose_weight diff s)))).lastvisit ≡ s.lastvisit
unfolding recover sicken wear lose_weight
visit diff s = ground arith

module _ (geting_old : ℤ → ℤ → ℤ → ℤ → ℤ × ℤ) where
  -- When at least a minute has passed since the last visit, `time_diff` sets the visit to now and
  -- leaves the values in their ranges, whatever they were; otherwise it changes the kind at most.
  pub time_diff-InRange :
      (now : ℤ) (s : Pet)
      → (pos 1 ≤ℤ ((now -ℤ s.lastvisit) /ℤ 60)
          → InRange (time_diff geting_old now s) × ((time_diff geting_old now s).lastvisit ≡ now))
        × (ltb_ℤ ((now -ℤ s.lastvisit) /ℤ 60) (pos 1) ≡ true
            → time_diff geting_old now s ≡ record s { kind = s.kind % num_kinds })
  unfolding time_diff
  time_diff-InRange now s =
      let diff = (now -ℤ s.lastvisit) /ℤ 60 in
      (
        λ h.
            let t : ltb_ℤ diff (pos 1) ≡ false = ground arith in
            rw (t, time_diff) (daily-InRange diff _, visit diff _),
        λ t. rw (t, time_diff),
      )

less_above-nonneg : (a : ℤ) → pos 0 ≤ℤ a → pos 0 ≤ℤ less_above 10 10 a
unfolding less_above ◌-ℤ◌
less_above-nonneg a h = ground arith

-- A pet in its ranges that takes medicine stays in them, and is not sick any more.
pub ch_eatmedicine-InRange :
    (s : Pet)
    → pos 1 ≤ℤ s.medicine
    → InRange s
    → InRange (ch_eatmedicine s)
      × ((ch_eatmedicine s).sick ≡ pos 0)
      × ((ch_eatmedicine s).hp ≡ (ch_eatmedicine s).hp_max)
unfolding ch_eatmedicine
ch_eatmedicine-InRange s h r =
    let t : ltb_ℤ (pos 0) s.medicine ≡ true = ground arith in
    rw t (
      record {
        weight_pos = r.weight_pos;
        happy_nonneg = less_above-nonneg s.happy r.happy_nonneg;
        attack_nonneg = r.attack_nonneg;
        run_nonneg = r.run_nonneg;
        book_nonneg = r.book_nonneg;
        satis_nonneg = r.satis_nonneg;
        sick_nonneg = omega arith;
        tiredstrong_nonneg = r.tiredstrong_nonneg;
        hp_top = omega arith;
        mm_top = r.mm_top;
      },
      refl,
      refl,
    )
