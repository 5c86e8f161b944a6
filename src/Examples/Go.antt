-- ===== src/Examples/Go.antt =====
-- mbbsd/go.c: a corner of the board.
use pttoldstable.Base.{
  ℕ, ◌+◌, ◌≡◌, ◌≢◌, ◌⊎◌, ◌↔◌, refl, Option, none, some, List, [], ◌∷◌, ◌++◌, arith, replicate,
}
use pttoldstable.Go.{
  GoData, Scan, at, bblank, bblack, bwhite, go_countlib, go_count, look_around, look,
}
use pttoldstable.Go.Liberties.{On, Group, Liberty, Off}
use pttoldstable.Go.Liberties.Correct.{newly, first, go_countlib_lem}
use pttoldstable.Go.Board.{go_examboard}
use pttoldstable.Go.Board.Eval.{Captured}
use pttoldstable.Go.Board.Eval.Capture.{go_examboard-Captured}

-- A white stone in the corner between two black ones.
abbrev corner : List ℕ
corner = bwhite ∷ bblack ∷ replicate 17 0 ++ bblack ∷ replicate 341 0

abbrev game : GoData
game = record {
  go = corner;
  l = replicate 361 0;
  ml = replicate 361 0;
  lib = 0;
  pool = [];
  mko = none;
  hko = none;
  mk = 0;
  hk = 0;
  me = bblack;
  he = bwhite;
}

count_of : Option Scan → ℕ
count_of none = 999
count_of (some s) = s.count

-- The white stone has no liberty, the black one beside it two.
liberties_in_corner :
    (count_of (go_countlib corner bwhite 0 0 0) ≡ 0)
    × (count_of (go_countlib corner bblack 0 1 0) ≡ 2)
unfolding count_of go_countlib go_count look_around look
liberties_in_corner = (refl, refl)

go_countlib_lem_example :
    (s : Scan) × (go_countlib corner bblack 0 1 0 ≡ some s)
    × ((a b : ℕ)
        → On a b
        → Off s a b ↔ (Group corner bblack 0 1 a b ⊎ Liberty corner bblack 0 1 a b))
    × (s.count ≡ 0 + newly corner (first 0 1 0).marks s.marks)
go_countlib_lem_example =
    go_countlib_lem corner bblack 0 1 0 refl (λ e. absurd (omega arith)) (omega arith, omega arith)

go_examboard-Captured_example :
    (gd' : GoData) × (go_examboard game bwhite ≡ some gd')
    × ((x y : ℕ)
        → On x y
        → (at corner x y ≢ bwhite → at gd'.go x y ≡ at corner x y)
          × (at corner x y ≡ bwhite → (at gd'.go x y ≡ bblank) ↔ Captured corner bwhite x y)
          × (at gd'.go x y ≢ bblank → at gd'.go x y ≡ at corner x y))
go_examboard-Captured_example =
    go_examboard-Captured game bwhite refl refl (λ e. absurd (omega arith))
