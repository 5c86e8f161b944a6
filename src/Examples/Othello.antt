-- ===== src/Examples/Othello.antt =====
-- mbbsd/othello.c: the first move.
use pttoldstable.Base.{
  ℕ, ◌<◌, ◌≤◌, ◌≢◌, ◌⊎◌, ◌≡◌, ◌↔◌, refl, inl, Bool, true, false, ◌&&◌, ◌||◌, none, some, arith, leb,
  ◌==◌, if◌then◌else◌,
}
use pttoldstable.Othello.{
  dirx, diry, Board, below_black, eatline, if_can_put, try_dirs, can_turn, scan,
}
use pttoldstable.Othello.Moves.{IsBoard}
use pttoldstable.Othello.Put.{Turned, if_can_put-eatline}

-- Two stones of each side in the middle.
abbrev opening : Board
opening x y =
    if leb 1 x && leb x 8 && leb 1 y && leb y 8
    then if ((x == 4) && (y == 4)) || ((x == 5) && (y == 5))
      then some 3
      else if ((x == 4) && (y == 5)) || ((x == 5) && (y == 4))
      then some 2
      else some 0
    else none

opening-IsBoard : IsBoard opening
opening-IsBoard = record { edge = λ x y h. ground arith; stones = λ x y v e. ground arith }

-- Black may go to (3, 4), above the white stone at (4, 4), and not to (3, 5).
first_move : (if_can_put 3 4 2 opening ≡ some true) × (if_can_put 3 5 2 opening ≡ some false)
unfolding if_can_put try_dirs can_turn scan
first_move = (refl, refl)

if_can_put-eatline_example :
    (r : Bool) × (if_can_put 3 4 2 opening ≡ some r)
    × ((r ≡ true) ↔ (
        (below_black (opening 3 4) ≡ true)
        × (k : ℕ) × (k < 8)
        × (b' : Board) × (eatline 2 k 3 4 opening ≡ some (true, b'))
        × Turned 2 k 3 4 opening b'))
    × ((dx dy : ℕ)
        → dx ≤ 2
        → dy ≤ 2
        → (dx ≢ 1) ⊎ (dy ≢ 1)
        → (k : ℕ) × (k < 8) × (dirx k ≡ dx) × (diry k ≡ dy))
if_can_put-eatline_example = if_can_put-eatline 3 4 2 opening opening-IsBoard (inl refl)
