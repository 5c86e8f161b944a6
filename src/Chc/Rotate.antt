-- ===== src/Chc/Rotate.antt =====
-- mbbsd/chc.c: the two players see the board from opposite sides, and `hisplay` turns the squares of
-- a move by (9 - r, 8 - c). Both sides then agree on the rules.
use pttoldstable.Base.{ℕ, zero, suc, ◌-◌, ◌≤◌, ◌≡◌, refl, ◌∙◌, Bool, true, false, arith}
use pttoldstable.Chc.{
  Rc, Board, dist, chc_movechess, between, king_step, advisor_step, elephant_step, rook_step,
  horse_step, cannon_step, pawn_step, chc_canmove, che_o, opp, center,
}
use pttoldstable.Chc.Between.{count_open-flip}

pub record OnBoard (p : Rc) : Type 0 where
  pub row : p.r ≤ 9
  pub col : p.c ≤ 8

-- `chcd->from.r = 9 - chcd->from.r, chcd->from.c = 8 - chcd->from.c`
abbrev pub turn_square : Rc → Rc
turn_square p = record { r = 9 - p.r; c = 8 - p.c }

abbrev pub turn_board : Board → Board
turn_board b r c = b (9 - r) (8 - c)

dist-turn :
    (f t : Rc) (d : Bool)
    → OnBoard f
    → OnBoard t
    → dist (turn_square f) (turn_square t) d ≡ dist f t d
unfolding dist
dist-turn f t true p q = ground arith
dist-turn f t false p q = ground arith

between-turn :
    (b : Board) (f t : Rc) (d : Bool)
    → OnBoard f
    → OnBoard t
    → between (turn_board b) (turn_square f) (turn_square t) d ≡ between b f t d
unfolding between
between-turn b f t true p q =
    let e : 9 - (9 - t.r) ≡ t.r = omega arith in
    ground (arith, e, count_open-flip 8 f.c t.c (b t.r), count_open-flip 8 t.c f.c (b t.r))
between-turn b f t false p q =
    let e : 8 - (8 - t.c) ≡ t.c = omega arith in
    ground
      (arith, e, count_open-flip 9 f.r t.r (λ i. b i t.c), count_open-flip 9 t.r f.r (λ i. b i t.c))

opp_eq : (my : ℕ) → my ≤ 1 → opp my ≡ 1 - my
opp_eq zero h = refl
opp_eq (suc zero) h = refl
opp_eq (suc (suc n)) h = absurd (omega arith)

module _ (my : ℕ) (h : my ≤ 1) (turn : ℕ) (f t : Rc) (p : OnBoard f) (q : OnBoard t) where
  opp-opp : opp (opp my) ≡ my
  opp-opp = opp_eq (opp my) (omega (arith, opp_eq my h)) ∙ omega (arith, opp_eq my h)

  king-turn :
      (rd cd : ℕ) → king_step (opp my) turn rd cd (turn_square t) ≡ king_step my turn rd cd t
  unfolding king_step
  king-turn rd cd = rw opp-opp (ground arith)

  advisor-turn :
      (rd cd : ℕ) → advisor_step (opp my) turn rd cd (turn_square t) ≡ advisor_step my turn rd cd t
  unfolding advisor_step
  advisor-turn rd cd = rw opp-opp (ground arith)

  pawn-turn :
      (rd cd : ℕ)
      → pawn_step (opp my) turn rd cd (turn_square f) (turn_square t) ≡ pawn_step my turn rd cd f t
  unfolding pawn_step
  pawn-turn rd cd = rw opp-opp (ground arith)

  module _ (b : Board) where
    center_row : dist f t false ≡ 2 → 9 - center (9 - f.r) (9 - t.r) ≡ center f.r t.r
    unfolding dist
    center_row e = ground arith

    center_col : dist f t true ≡ 2 → 8 - center (8 - f.c) (8 - t.c) ≡ center f.c t.c
    unfolding dist
    center_col e = ground arith

    elephant-turn :
        elephant_step
          (opp my)
          turn
          (dist f t false)
          (dist f t true)
          (turn_board b)
          (turn_square f)
          (turn_square t)
        ≡ elephant_step my turn (dist f t false) (dist f t true) b f t
    unfolding elephant_step
    elephant-turn = rw opp-opp (ground (arith, center_row, center_col))

    rook-turn :
        rook_step (dist f t false) (dist f t true) (turn_board b) (turn_square f) (turn_square t)
        ≡ rook_step (dist f t false) (dist f t true) b f t
    unfolding rook_step
    rook-turn = rw (between-turn b f t _ p q)

    horse-turn :
        horse_step (dist f t false) (dist f t true) (turn_board b) (turn_square f) (turn_square t)
        ≡ horse_step (dist f t false) (dist f t true) b f t
    unfolding horse_step
    horse-turn =
        let e : 9 - (9 - f.r) ≡ f.r = omega arith in
        let e' : 8 - (8 - f.c) ≡ f.c = omega arith in
        rw (e, e') (ground (arith, center_row, center_col))

    cannon-turn :
        cannon_step (dist f t false) (dist f t true) (turn_board b) (turn_square f) (turn_square t)
        ≡ cannon_step (dist f t false) (dist f t true) b f t
    unfolding cannon_step
    cannon-turn =
        let e : 9 - (9 - t.r) ≡ t.r = omega arith in
        let e' : 8 - (8 - t.c) ≡ t.c = omega arith in rw (between-turn b f t _ p q, e, e')

-- The move that one player makes is allowed on his board exactly when the move that his opponent
-- receives, turned round, is allowed on the opponent's board.
pub chc_canmove-turn :
    (my : ℕ) (b : Board) (f t : Rc)
    → my ≤ 1
    → OnBoard f
    → OnBoard t
    → chc_canmove (opp my) (turn_board b) (turn_square f) (turn_square t) ≡ chc_canmove my b f t
unfolding chc_canmove
chc_canmove-turn my b f t h p q =
    let e : 9 - (9 - t.r) ≡ t.r = omega arith in
    let e' : 8 - (8 - t.c) ≡ t.c = omega arith in
    let g : 9 - (9 - f.r) ≡ f.r = omega arith in
    let g' : 8 - (8 - f.c) ≡ f.c = omega arith in
    let turn = che_o (b f.r f.c) in
    rw (
      dist-turn f t false p q,
      dist-turn f t true p q,
      e,
      e',
      g,
      g',
      king-turn my h turn f t p q,
      advisor-turn my h turn f t p q,
      elephant-turn my h turn f t p q b,
      rook-turn my h turn f t p q b,
      horse-turn my h turn f t p q b,
      cannon-turn my h turn f t p q b,
      pawn-turn my h turn f t p q,
    )

-- On the squares of the board, a move and its turned copy leave boards that are turned copies of one another.
pub chc_movechess-turn :
    (b : Board) (f t : Rc) (r c : ℕ)
    → OnBoard f
    → OnBoard t
    → r ≤ 9
    → c ≤ 8
    → chc_movechess (turn_board b) (turn_square f) (turn_square t) r c
      ≡ turn_board (chc_movechess b f t) r c
unfolding chc_movechess
chc_movechess-turn b f t r c p q hr hc =
    let g : 9 - (9 - f.r) ≡ f.r = omega arith in
    let g' : 8 - (8 - f.c) ≡ f.c = omega arith in rw (g, g') (ground arith)
