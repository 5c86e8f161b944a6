-- ===== src/Othello.antt =====
-- mbbsd/othello.c: the moves of Othello. A board gives what stands at a row and a column; `none` is
-- the −1 of the edge, which surrounds the squares 1 to 8.
pub mod Moves
pub mod Put
use pttoldstable.Base.{
  ℕ, zero, suc, ◌+◌, ◌-◌, Bool, true, false, not, ◌&&◌, ◌||◌, Option, none, some, List, [], ◌∷◌,
  ltb, ◌==◌, if◌then◌else◌, get_or,
}

abbrev pub hint : ℕ
hint = 1

abbrev pub black : ℕ
black = 2

abbrev pub white : ℕ
white = 3

abbrev pub Board : Type 0
Board = ℕ → ℕ → Option ℕ

abbrev pub invert : ℕ → ℕ
invert color = if color == white then black else white

-- DIRX and DIRY plus 1, so that a step goes to `x + dirx dir - 1`.
abbrev pub dirx : ℕ → ℕ
dirx dir = get_or (0 ∷ 0 ∷ 0 ∷ 1 ∷ 2 ∷ 2 ∷ 2 ∷ 1 ∷ []) dir 1

abbrev pub diry : ℕ → ℕ
diry dir = get_or (0 ∷ 1 ∷ 2 ∷ 2 ∷ 2 ∷ 1 ∷ 0 ∷ 0 ∷ []) dir 1

abbrev pub below_black : Option ℕ → Bool
below_black none = true
below_black (some v) = ltb v black

abbrev pub holds : Option ℕ → ℕ → Bool
holds none color = false
holds (some v) color = v == color

abbrev pub is_edge : Option ℕ → Bool
is_edge none = true
is_edge (some v) = false

pub put : ℕ → ℕ → ℕ → Board → Board
put i j color b x y = if (x == i) && (y == j) then some color else b x y

-- `stuck` is a loop of the model that ran out of rounds.
pub data Line : Type 0 where
  stuck fails : Line
  ends : ℕ → ℕ → Line

abbrev pub turned : Option Board → Option (Bool × Board)
turned none = none
turned (some b) = some (true, b)

module _ (color dir : ℕ) where
  -- The outer loop of `eatline`; it ends at a stone of the colour.
  pub find_end : ℕ → ℕ → ℕ → Board → Line
  find_end zero x y b = stuck
  find_end (suc fuel) x y b =
      let next = find_end fuel (x + dirx dir - 1) (y + diry dir - 1) b in
      if is_edge (b x y)
      then fails
      else if below_black (b x y)
      then fails
      else if holds (b x y) color
      then ends x y
      else next

  -- The inner loop, up to the end.
  pub turn : ℕ → ℕ → ℕ → ℕ → ℕ → Board → Option Board
  unfolding put
  turn zero i j x y b = none
  turn (suc fuel) i j x y b =
      let next = turn fuel (i + dirx dir - 1) (j + diry dir - 1) x y (put i j color b) in
      if not (i == x) || not (j == y) then next else some b

  abbrev pub eat_to : ℕ → ℕ → Board → Line → Option (Bool × Board)
  eat_to i j b stuck = none
  eat_to i j b fails = some (false, b)
  eat_to i j b (ends x y) = turned (turn 12 i j x y b)

  pub eatline : ℕ → ℕ → Board → Option (Bool × Board)
  unfolding find_end turn
  eatline i j b =
      let x = i + dirx dir - 1 in
      let y = j + diry dir - 1 in
      if is_edge (b x y)
      then some (false, b)
      else if holds (b x y) (invert color)
      then eat_to i j b (find_end 10 (x + dirx dir - 1) (y + diry dir - 1) b)
      else some (false, b)

  -- The loop of `if_can_put` in one direction.
  unfoldable pub scan : ℕ → ℕ → ℕ → Board → Option Bool
  scan zero x y b = none
  scan (suc fuel) x y b =
      let x' = x + dirx dir - 1 in
      let y' = y + diry dir - 1 in
      let next = scan fuel x' y' b in
      if below_black (b x' y')
      then some false
      else if holds (b x' y') color
      then some true
      else next

  unfoldable pub can_turn : ℕ → ℕ → Board → Option Bool
  unfolding scan
  can_turn x y b =
      let checkx = x + dirx dir - 1 in
      let checky = y + diry dir - 1 in
      if below_black (b checkx checky)
      then some false
      else if holds (b checkx checky) color
      then some false
      else scan 10 checkx checky b

-- The directions from `dir` on.
unfoldable pub try_dirs : ℕ → ℕ → ℕ → ℕ → ℕ → Board → Option Bool
try_dirs zero dir x y color b = some false
try_dirs (suc left) dir x y color b =
    let rest = try_dirs left (suc dir) x y color b in
    elim (can_turn color dir x y b) [ none ↦ none | some r ↦ if r then some true else rest ]

unfoldable pub if_can_put : ℕ → ℕ → ℕ → Board → Option Bool
unfolding try_dirs
if_can_put x y color b = if below_black (b x y) then try_dirs 8 0 x y color b else some false

pub eat_dirs : ℕ → ℕ → ℕ → ℕ → ℕ → Board → Option Board
eat_dirs zero dir x y color b = some b
eat_dirs (suc left) dir x y color b = elim (eatline color dir x y b) [
  | none ↦ none
  | some r ↦ eat_dirs left (suc dir) x y color r.1
]

pub eat : ℕ → ℕ → ℕ → Board → Option Board
unfolding eat_dirs
eat x y color b = eat_dirs 8 0 x y color b
