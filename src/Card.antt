-- ===== src/Card.antt =====
-- mbbsd/card.c: the pack of cards, and the game of 99 with the computer's choice.
pub mod Choice
use pttoldstable.Base.{
  ℕ, zero, suc, ◌+◌, ◌-◌, ◌*◌, ◌/◌, ◌%◌, Bool, true, false, ◌&&◌, ◌||◌, not, Option, none, some,
  List, [], ◌∷◌, ◌++◌, ltb, leb, ◌==◌, if◌then◌else◌, length, get_or, get_elem?, set, replicate,
}
use pttoldstable.Base.Int.{ℤ, pos, negsuc, ◌+ℤ◌, ◌*ℤ◌, ltb_ℤ}

unfoldable pub sum : List ℕ → ℕ
sum [] = 0
sum (x ∷ l) = x + sum l

-- The array `cards` has 52 entries, 1 for a card that is given.
unfoldable pub card_remain : List ℕ → ℕ
unfolding sum
card_remain cards = if sum cards == 52 then 1 else 0

unfoldable pub card_flower : ℕ → ℕ
card_flower card = card / 13

unfoldable pub card_number : ℕ → ℕ
card_number card = card % 13 + 1

unfoldable pub card_isblackjack : ℕ → ℕ → Bool
unfolding card_number
card_isblackjack card1 card2 =
    (card_number card1 == 1 && (leb 10 (card_number card2) && leb (card_number card2) 13))
    || (card_number card2 == 1 && (leb 10 (card_number card1) && leb (card_number card1) 13))

abbrev pub card_new : List ℕ
card_new = replicate 52 0

-- The loop that fills `freecard`, from card `i` on.
unfoldable pub freecards : ℕ → List ℕ → List ℕ
freecards i [] = []
freecards i (c ∷ cards) = let rest = freecards (i + 1) cards in if c == 0 then i ∷ rest else rest

-- The card that is given and the new pack; `none` is the failing `assert`. `random` is the number
-- that `random()` gives.
unfoldable pub card_give : ℕ → List ℕ → Option (ℕ × List ℕ)
unfolding freecards
card_give random cards =
    let freecard = freecards 0 cards in
    if length freecard == 0
    then none
    else let i = get_or freecard (random % length freecard) 0 in some (i, set cards i 1)

-- `aom` is 1 or -1.
unfoldable pub card_99_add : ℕ → ℤ → ℤ → ℤ
card_99_add i aom count =
    if i == 4 || (i == 5 || i == 11)
    then count
    else if i == 12
    then count +ℤ (pos 20 *ℤ aom)
    else if i == 10
    then count +ℤ (pos 10 *ℤ aom)
    else if i == 13
    then pos 99
    else count +ℤ pos i

-- The variables of `card_99_cpu`, with `none` for -1.
pub record Seen : Type 0 where
  pub stop : Option ℕ
  pub twenty : Option ℕ
  pub ten : Option ℕ
  pub kill : Option ℕ
  pub other : Option ℕ
  pub num : ℕ → Option ℕ

abbrev pub nothing_seen : Seen
nothing_seen = record {
  stop = none;
  twenty = none;
  ten = none;
  kill = none;
  other = none;
  num = λ j. none;
}

-- A round of the loop over the hand: a card of the number `temp` at `i`.
unfoldable pub see : ℕ → ℕ → Seen → Seen
see i temp s =
    if temp == 4 || (temp == 5 || temp == 11)
    then record s { stop = some i }
    else if temp == 12
    then record s { twenty = some i }
    else if temp == 10
    then record s { ten = some i }
    else if temp == 13
    then record s { kill = some i }
    else record s { other = some i; num = λ j. if j == temp then some i else s.num j }

unfoldable pub see_all : ℕ → List ℕ → Seen → Seen
see_all i [] s = s
see_all i (c ∷ cpu) s = see_all (i + 1) cpu (see i (card_number c) s)

-- `think >= j`, where `think` is 99 - count.
abbrev pub fits : ℤ → ℕ → Bool
fits count j = not (ltb_ℤ (pos 99) (count +ℤ pos j))

-- `for (j = 9; j > 0; j--)`, from `j` down.
unfoldable pub highest : ℕ → Seen → ℤ → Option (ℕ × ℕ)
highest zero s count = none
highest (suc j) s count =
    let rest = highest j s count in
    elim (s.num (suc j)) [
      | none ↦ rest
      | some i ↦
          if not (suc j == 4) && (not (suc j == 5) && fits count (suc j))
          then some (suc j, i)
          else rest
    ]

-- The branches after the loops: the place of the card that is played, and the new count.
unfoldable pub last_resort : Seen → ℕ → ℤ → ℕ × ℤ
last_resort s first count = elim s.stop [
  | some i ↦ (i, count)
  | none ↦ elim s.kill [
    | some i ↦ (i, pos 99)
    | none ↦ elim s.ten [
      | some i ↦ (i, count +ℤ (pos 10 *ℤ negsuc 0))
      | none ↦ elim s.twenty [
        | some i ↦ (i, count +ℤ (pos 20 *ℤ negsuc 0))
        | none ↦ (0, count +ℤ pos first)
      ]
    ]
  ]
]

unfoldable pub tens : Seen → ℕ → ℤ → ℕ × ℤ
unfolding last_resort
tens s first count = elim s.ten [
  | some i ↦ if fits count 10 then (i, count +ℤ pos 10) else last_resort s first count
  | none ↦ last_resort s first count
]

unfoldable pub card_99_cpu : List ℕ → ℤ → ℕ × ℤ
card_99_cpu cpu count =
    let s = see_all 0 cpu nothing_seen in
    let first = card_number (get_or cpu 0 0) in
    elim (highest 9 s count) [
      | some (j, i) ↦ (i, count +ℤ pos j)
      | none ↦ elim s.twenty [
        | some i ↦ if fits count 20 then (i, count +ℤ pos 20) else tens s first count
        | none ↦ tens s first count
      ]
    ]
