-- ===== src/Chicken.antt =====
-- mbbsd/chicken.c: the state of a pet and what time and its owner do to it. An `int` is an integer
-- without bounds.
pub mod Health
use pttoldstable.Base.{
  ℕ, zero, suc, ◌+◌, ◌-◌, ◌*◌, ◌/◌, ◌%◌, Bool, true, false, ◌&&◌, not, List, [], ◌∷◌, ltb, leb,
  ◌==◌, if◌then◌else◌, get_or,
}
use pttoldstable.Base.Int.{ℤ, pos, negsuc, ◌+ℤ◌, ◌-ℤ◌, ◌*ℤ◌, ltb_ℤ, sub_ℕ}

abbrev pub num_kinds : ℕ
num_kinds = 15

-- The columns of `time_change`.
abbrev pub clean_column : ℕ
clean_column = 3

abbrev pub run_column : ℕ
run_column = 4

abbrev pub attack_column : ℕ
attack_column = 5

abbrev pub book_column : ℕ
book_column = 6

abbrev pub happy_column : ℕ
happy_column = 7

abbrev pub satis_column : ℕ
satis_column = 8

abbrev pub tiredstrong_column : ℕ
tiredstrong_column = 10

abbrev pub hp_max_column : ℕ
hp_max_column = 12

abbrev pub mm_max_column : ℕ
mm_max_column = 13

-- The changes of each kind of pet.
unfoldable pub time_change : List (List ℕ)
time_change =
    (1 ∷ 1 ∷ 30 ∷ 3 ∷ 8 ∷ 3 ∷ 3 ∷ 40 ∷ 9 ∷ 1 ∷ 7 ∷ 3 ∷ 30 ∷ 1 ∷ [])
    ∷ (1 ∷ 1 ∷ 110 ∷ 1 ∷ 4 ∷ 7 ∷ 41 ∷ 20 ∷ 9 ∷ 25 ∷ 25 ∷ 7 ∷ 110 ∷ 15 ∷ [])
    ∷ (1 ∷ 1 ∷ 200 ∷ 5 ∷ 4 ∷ 10 ∷ 33 ∷ 20 ∷ 15 ∷ 10 ∷ 27 ∷ 1 ∷ 200 ∷ 9 ∷ [])
    ∷ (1 ∷ 1 ∷ 10 ∷ 5 ∷ 8 ∷ 1 ∷ 1 ∷ 5 ∷ 3 ∷ 1 ∷ 4 ∷ 1 ∷ 10 ∷ 30 ∷ [])
    ∷ (1 ∷ 1 ∷ 1000 ∷ 9 ∷ 1 ∷ 13 ∷ 4 ∷ 12 ∷ 3 ∷ 1 ∷ 200 ∷ 1 ∷ 1000 ∷ 3 ∷ [])
    ∷ (1 ∷ 1 ∷ 90 ∷ 7 ∷ 10 ∷ 7 ∷ 4 ∷ 12 ∷ 3 ∷ 30 ∷ 20 ∷ 5 ∷ 90 ∷ 20 ∷ [])
    ∷ (1 ∷ 1 ∷ 30 ∷ 5 ∷ 5 ∷ 6 ∷ 4 ∷ 8 ∷ 3 ∷ 15 ∷ 7 ∷ 4 ∷ 30 ∷ 21 ∷ [])
    ∷ (1 ∷ 1 ∷ 100 ∷ 9 ∷ 7 ∷ 7 ∷ 20 ∷ 50 ∷ 10 ∷ 8 ∷ 24 ∷ 4 ∷ 100 ∷ 9 ∷ [])
    ∷ (1 ∷ 1 ∷ 45 ∷ 8 ∷ 7 ∷ 9 ∷ 3 ∷ 40 ∷ 20 ∷ 3 ∷ 9 ∷ 5 ∷ 45 ∷ 1 ∷ [])
    ∷ (1 ∷ 1 ∷ 45 ∷ 10 ∷ 11 ∷ 11 ∷ 5 ∷ 21 ∷ 11 ∷ 1 ∷ 9 ∷ 5 ∷ 45 ∷ 25 ∷ [])
    ∷ (1 ∷ 1 ∷ 45 ∷ 2 ∷ 12 ∷ 10 ∷ 25 ∷ 1 ∷ 1 ∷ 10 ∷ 9 ∷ 5 ∷ 45 ∷ 26 ∷ [])
    ∷ (1 ∷ 1 ∷ 150 ∷ 4 ∷ 8 ∷ 13 ∷ 95 ∷ 25 ∷ 7 ∷ 10 ∷ 25 ∷ 5 ∷ 175 ∷ 85 ∷ [])
    ∷ (1 ∷ 1 ∷ 147 ∷ 2 ∷ 10 ∷ 10 ∷ 85 ∷ 20 ∷ 4 ∷ 25 ∷ 25 ∷ 5 ∷ 145 ∷ 95 ∷ [])
    ∷ (1 ∷ 1 ∷ 200 ∷ 3 ∷ 15 ∷ 15 ∷ 50 ∷ 50 ∷ 10 ∷ 5 ∷ 10 ∷ 2 ∷ 300 ∷ 0 ∷ [])
    ∷ (1 ∷ 1 ∷ 80 ∷ 2 ∷ 9 ∷ 10 ∷ 2 ∷ 5 ∷ 7 ∷ 8 ∷ 12 ∷ 1 ∷ 135 ∷ 5 ∷ [])
    ∷ []

abbrev pub change : ℕ → ℕ → ℤ
change kind column = pos (get_or (get_or time_change kind []) column 0)

-- `a / n` on an `int`, which cuts towards 0.
infixl 70 ◌/ℤ◌
unfoldable pub ◌/ℤ◌ : ℤ → ℕ → ℤ
pos a /ℤ n = pos (a / n)
negsuc a /ℤ n = sub_ℕ 0 (suc a / n)

-- `if (a < 0) a = 0;`
unfoldable pub at_least_zero : ℤ → ℤ
at_least_zero a = if ltb_ℤ a (pos 0) then pos 0 else a

-- `if (a > top) a = top;`
unfoldable pub at_most : ℤ → ℤ → ℤ
at_most top a = if ltb_ℤ top a then top else a

-- The fields of `chicken_t` that the functions use; `kind` is `type`, a char that names a row of
-- `time_change`: a negative one would index outside of it, and is left out.
pub record Pet : Type 0 where
  pub kind : ℕ
  pub lastvisit : ℤ
  pub oo : ℤ
  pub medicine : ℤ
  pub weight : ℤ
  pub clean : ℤ
  pub run : ℤ
  pub attack : ℤ
  pub book : ℤ
  pub happy : ℤ
  pub satis : ℤ
  pub temperament : ℤ
  pub tiredstrong : ℤ
  pub sick : ℤ
  pub hp : ℤ
  pub hp_max : ℤ
  pub mm : ℤ
  pub mm_max : ℤ
  pub cbirth : ℤ

-- The parts of `time_diff` in their order, from the weight on.
unfoldable pub lose_weight : ℤ → Pet → Pet
lose_weight diff s =
    let w = s.weight -ℤ ((s.hp_max *ℤ diff) /ℤ 540) in
    if ltb_ℤ w (pos 1)
    then record s { sick = s.sick -ℤ (w /ℤ 10); weight = pos 1 }
    else record s { weight = w }

unfoldable pub wear : ℤ → Pet → Pet
wear diff s =
    let worn = λ (column : ℕ). (change s.kind column *ℤ diff) /ℤ 1920 in
    record s {
      clean = s.clean +ℤ ((diff *ℤ change s.kind clean_column) /ℤ 30);
      happy = at_least_zero (s.happy -ℤ (diff /ℤ 60));
      attack = at_least_zero (s.attack -ℤ worn attack_column);
      run = at_least_zero (s.run -ℤ worn run_column);
      book = at_least_zero (s.book -ℤ worn book_column);
      temperament = s.temperament +ℤ pos 1;
      satis = at_least_zero (s.satis -ℤ (((diff /ℤ 60) /ℤ 3) *ℤ change s.kind satis_column));
    }

unfoldable pub sicken : ℤ → Pet → Pet
sicken diff s =
    let dirty : ℤ =
      if ltb_ℤ (pos 1000) s.clean then s.sick +ℤ ((s.clean -ℤ pos 400) /ℤ 10) else s.sick in
    let better : ℤ = if ltb_ℤ (pos 1) s.weight then dirty -ℤ (diff /ℤ 60) else dirty in
    record s {
      sick = at_least_zero better;
      tiredstrong =
          at_least_zero (s.tiredstrong -ℤ ((diff *ℤ change s.kind tiredstrong_column) /ℤ 4));
    }

-- `sick` is at least 0 here, so `!sick` is that it is not above 0.
unfoldable pub recover : ℤ → Pet → Pet
recover diff s =
    let well = not (ltb_ℤ (pos 0) s.sick) && not (ltb_ℤ s.sick (pos 0)) in
    let hp_max' : ℤ =
      if ltb_ℤ s.hp (s.hp_max /ℤ 2)
      then s.hp_max
      else s.hp_max +ℤ ((change s.kind hp_max_column *ℤ diff) /ℤ 720) in
    let hp' : ℤ = if well then s.hp +ℤ ((change s.kind hp_max_column *ℤ diff) /ℤ 360) else s.hp in
    let mm_max' : ℤ =
      if ltb_ℤ s.mm (s.mm_max /ℤ 2)
      then s.mm_max
      else s.mm_max +ℤ ((change s.kind mm_max_column *ℤ diff) /ℤ 480) in
    let mm' : ℤ = if well then s.mm +ℤ diff else s.mm in
    record s {
      hp_max = hp_max';
      hp = at_most hp_max' hp';
      mm_max = mm_max';
      mm = at_most mm_max' mm';
    }

-- `geting_old` computes with floats; its two results for `hp_max` and `weight`.
module _ (geting_old : ℤ → ℤ → ℤ → ℤ → ℤ × ℤ) where
  unfoldable pub age : ℤ → ℤ → Pet → Pet
  age diff theage s =
      if ltb_ℤ (pos 13) theage
      then (let r = geting_old s.hp_max s.weight diff theage in
          record s { hp_max = r.0; weight = r.1 })
      else s

  unfoldable pub time_diff : ℤ → Pet → Pet
  time_diff now thechicken =
      let theage = (now -ℤ thechicken.cbirth) /ℤ 86400 in
      let s : Pet = record thechicken { kind = thechicken.kind % num_kinds } in
      let diff = (now -ℤ s.lastvisit) /ℤ 60 in
      if ltb_ℤ diff (pos 1)
      then s
      else recover diff (
          sicken diff
            (wear diff (lose_weight diff (record (age diff theage s) { lastvisit = now }))))

unfoldable pub ch_book : Pet → Pet
ch_book s = record s {
  book = s.book +ℤ change s.kind book_column;
  tiredstrong = s.tiredstrong +ℤ change s.kind tiredstrong_column;
}

unfoldable pub ch_kiss : Pet → Pet
ch_kiss s = record s {
  happy = s.happy +ℤ change s.kind happy_column;
  satis = s.satis +ℤ change s.kind satis_column;
  tiredstrong = s.tiredstrong +ℤ (change s.kind tiredstrong_column /ℤ 2);
}

-- `if (a > bound) a -= less;`
unfoldable pub less_above : ℕ → ℕ → ℤ → ℤ
less_above bound less a = if ltb_ℤ (pos bound) a then a -ℤ pos less else a

unfoldable pub ch_eatoo : Pet → Pet
ch_eatoo s =
    if ltb_ℤ (pos 0) s.oo
    then record s { oo = s.oo -ℤ pos 1; tiredstrong = pos 0; happy = less_above 5 5 s.happy }
    else s

unfoldable pub ch_eatmedicine : Pet → Pet
ch_eatmedicine s =
    if ltb_ℤ (pos 0) s.medicine
    then record s {
      medicine = s.medicine -ℤ pos 1;
      sick = pos 0;
      hp_max = less_above 10 3 s.hp_max;
      hp = less_above 10 3 s.hp_max;
      happy = less_above 10 10 s.happy;
    }
    else s

-- The part of `deadtype` that finds the cause.
unfoldable pub deadtype : Pet → ℕ
deadtype s =
    if not (ltb_ℤ (pos 0) s.hp)
    then 1
    else if ltb_ℤ (s.hp *ℤ pos 3) s.tiredstrong
    then 2
    else if ltb_ℤ (s.hp_max *ℤ pos 5) s.weight
    then 3
    else if (not (ltb_ℤ s.weight (pos 1)) && not (ltb_ℤ (pos 1) s.weight))
        && ltb_ℤ (s.hp_max /ℤ 4) s.sick
    then 4
    else if not (ltb_ℤ (pos 0) s.satis)
    then 5
    else 0
