-- ===== src/Examples/Chc.antt =====
-- mbbsd/chc.c: the rules at concrete positions.
use pttoldstable.Base.{ℕ, ◌≡◌, ◌↔◌, refl, true, some, ◌==◌, ◌&&◌, if◌then◌else◌}
use pttoldstable.Chc.{Rc, Board, red, blk, kind_k, kind_r, che, chc_canmove}
use pttoldstable.Chc.King.{chc_init_board, findking, chc_ischeck}
use pttoldstable.Chc.Moves.{Legal, chc_canmove_iff}
use pttoldstable.Chc.Rotate.{OnBoard}
use pttoldstable.Chc.Check.{Threat, chc_ischeck_iff}

abbrev square : ℕ → ℕ → Rc
square i j = record { r = i; c = j }

-- A red king on (9, 4), a black king on (0, 4) and a black rook on (5, 4).
abbrev rook_between : Board
rook_between i j =
    if i == 9 && j == 4
    then che kind_k red
    else if i == 0 && j == 4
    then che kind_k blk
    else if i == 5 && j == 4
    then che kind_r blk
    else 0

-- The first move of a horse.
chc_canmove_iff_example :
    (chc_canmove red (chc_init_board red) (square 9 1) (square 7 2) ≡ true)
    ↔ Legal red (chc_init_board red) (square 9 1) (square 7 2)
chc_canmove_iff_example = chc_canmove_iff red (chc_init_board red) (square 9 1) (square 7 2)

chc_ischeck_iff_example :
    (chc_ischeck red rook_between red ≡ some true)
    ↔ ((f : Rc) × OnBoard f × Threat red rook_between red (square 9 4) f)
unfolding findking
chc_ischeck_iff_example = chc_ischeck_iff red rook_between red (square 9 4) refl
