-- ===== src/Chc/Start.antt =====
-- mbbsd/chc.c: the initial position.
use pttoldstable.Base.{ℕ, zero, suc, ◌≤◌, ◌≡◌, refl, Bool, true, some, false, arith, ◌==◌, ==_iff}
use pttoldstable.Base.Range.{every, every-within}
use pttoldstable.Chc.{
  opp, red, blk, chc_canmove, king_step, advisor_step, elephant_step, rook_step, horse_step,
  cannon_step, pawn_step, between, dist,
}
use pttoldstable.Chc.King.{chc_init_board, chc_iskfk, chc_ischeck, findking}
use pttoldstable.Chc.Rotate.{turn_board}

abbrev same_piece : ℕ → ℕ → ℕ → Bool
same_piece my r c = chc_init_board (opp my) r c == turn_board (chc_init_board my) r c

start_table : (my : ℕ) → my ≤ 1 → every (λ r. every (same_piece my r) 0 9) 0 10 ≡ true
unfolding every chc_init_board
start_table zero h = refl
start_table (suc zero) h = refl
start_table (suc (suc n)) h = absurd (omega arith)

-- The two players start from positions that are turned copies of one another.
pub chc_init_board-turn :
    (my r c : ℕ)
    → my ≤ 1
    → r ≤ 9
    → c ≤ 8
    → chc_init_board (opp my) r c ≡ turn_board (chc_init_board my) r c
chc_init_board-turn my r c h hr hc = (==_iff _ _).0 (
    every-within (same_piece my r) 0 9 c (omega arith) (omega arith) (
      every-within (λ i. every (same_piece my i) 0 9) 0 10 r (omega arith) (omega arith)
        (start_table my h)))

-- Neither side is in check at the start, and the kings do not face one another.
start_quiet :
    (my : ℕ)
    → my ≤ 1
    → (chc_ischeck my (chc_init_board my) red ≡ some false)
      × (chc_ischeck my (chc_init_board my) blk ≡ some false)
      × (chc_iskfk my (chc_init_board my) ≡ some false)
unfolding chc_init_board chc_ischeck chc_iskfk findking chc_canmove king_step advisor_step
    elephant_step rook_step horse_step cannon_step pawn_step between dist
start_quiet zero h = (refl, refl, refl)
start_quiet (suc zero) h = (refl, refl, refl)
start_quiet (suc (suc n)) h = absurd (omega arith)
