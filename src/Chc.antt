-- ===== src/Chc.antt =====
-- mbbsd/chc.c: the rules of Chinese chess. The board is seen from the side of the player: his pieces
-- start in the rows 5 to 9.
pub mod Between
pub mod Moves
pub mod Rotate
pub mod King
pub mod Start
pub mod Check
use pttoldstable.Base.{
  ℕ, zero, suc, ◌+◌, ◌-◌, ◌*◌, ◌/◌, ◌%◌, bit_xor, Bool, true, false, not, ◌&&◌, ◌||◌, Option, none,
  some, ltb, ◌==◌, if◌then◌else◌,
}

-- `rc_t`, for a square of the board.
pub record Rc : Type 0 where
  pub r : ℕ
  pub c : ℕ

-- `board_t`: the piece on each row and column, 0 for an empty square.
abbrev pub Board : Type 0
Board = ℕ → ℕ → ℕ

-- The kinds, from `KIND_K` to `KIND_P`.
abbrev pub kind_k : ℕ
kind_k = 1

abbrev pub kind_a : ℕ
kind_a = 2

abbrev pub kind_e : ℕ
kind_e = 3

abbrev pub kind_r : ℕ
kind_r = 4

abbrev pub kind_h : ℕ
kind_h = 5

abbrev pub kind_c : ℕ
kind_c = 6

abbrev pub kind_p : ℕ
kind_p = 7

abbrev pub blk : ℕ
blk = 0

abbrev pub red : ℕ
red = 1

-- `CHE_O` and `CHE_P`: `c >> 3` and `c & 7`.
abbrev pub che_o : ℕ → ℕ
che_o c = c / 8

abbrev pub che_p : ℕ → ℕ
che_p c = c % 8

-- `CHE`: `a | (b << 3)`, where `a` is below 8.
abbrev pub che : ℕ → ℕ → ℕ
che a b = a + b * 8

-- `CENTER`.
abbrev pub center : ℕ → ℕ → ℕ
center a b = (a + b) / 2

-- The other colour, `my ^ 1`.
abbrev pub opp : ℕ → ℕ
opp my = bit_xor my 1

-- `board[r][c] = v`.
unfoldable pub put : Board → ℕ → ℕ → ℕ → Board
put b r c v i j = if i == r && j == c then v else b i j

unfoldable pub chc_movechess : Board → Rc → Rc → Board
unfolding put
chc_movechess b from to = put (put b to.r to.c (b from.r from.c)) from.r from.c 0

unfoldable pub dist : Rc → Rc → Bool → ℕ
dist from to rowcol =
    if rowcol
    then (if ltb to.c from.c then from.c - to.c else to.c - from.c)
    else (if ltb to.r from.r then from.r - to.r else to.r - from.r)

-- `for (i = i0; ...; i++) if (f(i)) rtv++;` for `k` rounds.
unfoldable pub count_pieces : ℕ → ℕ → (ℕ → ℕ) → ℕ
count_pieces zero i f = 0
count_pieces (suc k) i f = (if f i == 0 then 0 else 1) + count_pieces k (i + 1) f

-- The pieces strictly between two places of a line, in the order given.
unfoldable pub count_open : ℕ → ℕ → (ℕ → ℕ) → ℕ
unfolding count_pieces
count_open lo hi f = count_pieces (hi - (lo + 1)) (lo + 1) f

unfoldable pub between : Board → Rc → Rc → Bool → ℕ
unfolding count_open
between b from to rowcol =
    if rowcol
    then (if ltb to.c from.c
        then count_open to.c from.c (λ i. b to.r i)
        else count_open from.c to.c (λ i. b to.r i))
    else (if ltb to.r from.r
        then count_open to.r from.r (λ i. b i to.c)
        else count_open from.r to.r (λ i. b i to.c))

-- The cases of the switch in `chc_canmove`; each is 0 where the C function returns 0 there.
unfoldable pub king_step : ℕ → ℕ → ℕ → ℕ → Rc → Bool
king_step my turn rd cd to =
    if not (rd == 1 && cd == 0) && not (rd == 0 && cd == 1)
    then false
    else if (turn == opp my && ltb 2 to.r) || (turn == my && ltb to.r 7) || ltb to.c 3 || ltb 5 to.c
    then false
    else true

unfoldable pub advisor_step : ℕ → ℕ → ℕ → ℕ → Rc → Bool
advisor_step my turn rd cd to =
    if not (rd == 1 && cd == 1)
    then false
    else if (turn == opp my && ltb 2 to.r) || (turn == my && ltb to.r 7) || ltb to.c 3 || ltb 5 to.c
    then false
    else true

unfoldable pub elephant_step : ℕ → ℕ → ℕ → ℕ → Board → Rc → Rc → Bool
elephant_step my turn rd cd b from to =
    if not (rd == 2 && cd == 2)
    then false
    else if (turn == opp my && ltb 4 to.r) || (turn == my && ltb to.r 5)
    then false
    else if b (center from.r to.r) (center from.c to.c) == 0
    then true
    else false

unfoldable pub rook_step : ℕ → ℕ → Board → Rc → Rc → Bool
rook_step rd cd b from to =
    if not (ltb 0 rd && cd == 0) && not (rd == 0 && ltb 0 cd)
    then false
    else if between b from to (rd == 0) == 0
    then true
    else false

unfoldable pub horse_step : ℕ → ℕ → Board → Rc → Rc → Bool
horse_step rd cd b from to =
    if not (rd == 2 && cd == 1) && not (rd == 1 && cd == 2)
    then false
    else if rd == 2
    then (if b (center from.r to.r) from.c == 0 then true else false)
    else (if b from.r (center from.c to.c) == 0 then true else false)

unfoldable pub cannon_step : ℕ → ℕ → Board → Rc → Rc → Bool
cannon_step rd cd b from to =
    if not (ltb 0 rd && cd == 0) && not (rd == 0 && ltb 0 cd)
    then false
    else let i = between b from to (rd == 0) in
      if ltb 1 i || (i == 1 && b to.r to.c == 0) || (i == 0 && not (b to.r to.c == 0))
      then false
      else true

unfoldable pub pawn_step : ℕ → ℕ → ℕ → ℕ → Rc → Rc → Bool
pawn_step my turn rd cd from to =
    if not (rd == 1 && cd == 0) && not (rd == 0 && cd == 1)
    then false
    else if ((turn == opp my && ltb to.r 5) || (turn == my && ltb 4 to.r)) && not (cd == 0)
    then false
    else if (turn == opp my && ltb to.r from.r) || (turn == my && ltb from.r to.r)
    then false
    else true

unfoldable pub chc_canmove : ℕ → Board → Rc → Rc → Bool
chc_canmove my b from to =
    let rd = dist from to false in
    let cd = dist from to true in
    let turn = che_o (b from.r from.c) in
    let p = che_p (b from.r from.c) in
    if not (b to.r to.c == 0) && che_o (b to.r to.c) == turn
    then false
    else if p == kind_k
    then king_step my turn rd cd to
    else if p == kind_a
    then advisor_step my turn rd cd to
    else if p == kind_e
    then elephant_step my turn rd cd b from to
    else if p == kind_r
    then rook_step rd cd b from to
    else if p == kind_h
    then horse_step rd cd b from to
    else if p == kind_c
    then cannon_step rd cd b from to
    else if p == kind_p
    then pawn_step my turn rd cd from to
    else true
