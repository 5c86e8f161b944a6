-- ===== src/Chc/King.antt =====
-- mbbsd/chc.c: the search for a king, the two kings that face one another, and check.
use pttoldstable.Base.{
  ℕ, zero, suc, ◌+◌, Bool, true, false, not, ◌&&◌, Option, none, some, ◌==◌, if◌then◌else◌,
}
use pttoldstable.Chc.{
  Rc, Board, put, between, chc_canmove, che, che_o, che_p, opp, kind_k, kind_a, kind_e, kind_r,
  kind_h, kind_c, kind_p, blk, red,
}

-- `chc_init_board`, from the empty board that `memset` makes. `row` writes a piece to five columns.
unfoldable pub row_pawns : Board → ℕ → ℕ → Board
unfolding put
row_pawns b r v = put (put (put (put (put b r 8 v) r 6 v) r 4 v) r 2 v) r 0 v

unfoldable pub back_row : Board → ℕ → ℕ → Board
unfolding put
back_row b r o =
    let b1 = put b r 4 (che kind_k o) in
    let b2 = put (put b1 r 5 (che kind_a o)) r 3 (che kind_a o) in
    let b3 = put (put b2 r 6 (che kind_e o)) r 2 (che kind_e o) in
    let b4 = put (put b3 r 8 (che kind_r o)) r 0 (che kind_r o) in
    put (put b4 r 7 (che kind_h o)) r 1 (che kind_h o)

unfoldable pub chc_init_board : ℕ → Board
unfolding back_row row_pawns put
chc_init_board my =
    let o = opp my in
    let empty : Board = λ r c. 0 in
    let b1 = back_row empty 0 o in
    let b2 = put (put b1 2 7 (che kind_c o)) 2 1 (che kind_c o) in
    let b3 = row_pawns b2 3 (che kind_p o) in
    let b4 = back_row b3 9 my in
    let b5 = put (put b4 7 7 (che kind_c my)) 7 1 (che kind_c my) in row_pawns b5 6 (che kind_p my)

-- The loops of `findking`: `k` columns left from `c`, `k` rows left from `r`.
unfoldable pub find_col : ℕ → Board → ℕ → ℕ → ℕ → Option Rc
find_col zero b turn r c = none
find_col (suc k) b turn r c =
    let rest = find_col k b turn r (c + 1) in
    if che_p (b r c) == kind_k && che_o (b r c) == turn
    then some (record { r = r; c = c })
    else rest

unfoldable pub find_row : ℕ → Board → ℕ → ℕ → Option Rc
unfolding find_col
find_row zero b turn r = none
find_row (suc k) b turn r = elim (find_col 3 b turn r 3) [
  | some p ↦ some p
  | none ↦ find_row k b turn (r + 1)
]

-- `none`: no king is there, and the C function leaves the buffer as it was.
unfoldable pub findking : ℕ → Board → ℕ → Option Rc
unfolding find_row
findking my b turn = find_row 3 b turn (if turn == opp my then 0 else 7)

unfoldable pub chc_iskfk : ℕ → Board → Option Bool
chc_iskfk my b = elim (findking my b blk) [
  | none ↦ none
  | some to ↦ elim (findking my b red) [
    | none ↦ none
    | some from ↦ some (if from.c == to.c && between b from to false == 0 then true else false)
  ]
]

-- The loops of `chc_ischeck`.
unfoldable pub attack_col : ℕ → ℕ → Board → ℕ → Rc → ℕ → ℕ → Bool
attack_col zero my b turn to r c = false
attack_col (suc k) my b turn to r c =
    let rest = attack_col k my b turn to r (c + 1) in
    let from : Rc = record { r = r; c = c } in
    if not (b r c == 0) && not (che_o (b r c) == turn)
    then (if chc_canmove my b from to then true else rest)
    else rest

unfoldable pub attack_row : ℕ → ℕ → Board → ℕ → Rc → ℕ → Bool
unfolding attack_col
attack_row zero my b turn to r = false
attack_row (suc k) my b turn to r =
    let rest = attack_row k my b turn to (r + 1) in
    if attack_col 9 my b turn to r 0 then true else rest

unfoldable pub chc_ischeck : ℕ → Board → ℕ → Option Bool
unfolding attack_row
chc_ischeck my b turn = elim (findking my b turn) [
  | none ↦ none
  | some to ↦ some (attack_row 10 my b turn to 0)
]
