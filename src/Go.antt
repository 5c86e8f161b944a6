-- ===== src/Go.antt =====
-- mbbsd/go.c: the rules of Go. A board is the list of its 361 points, row by row; a point is empty
-- (`bblank`), black or white.
pub mod Marks
pub mod Liberties
pub mod Board
use pttoldstable.Base.{
  ℕ, zero, suc, ◌+◌, ◌-◌, ◌*◌, ◌≡◌, Bool, true, false, not, ◌&&◌, ◌||◌, Option, none, some, List,
  [], ◌∷◌, ◌++◌, ltb, ◌==◌, if◌then◌else◌, get_or, set, length, replicate,
}

abbrev pub bblank : ℕ
bblank = 0

abbrev pub bblack : ℕ
bblack = 1

abbrev pub bwhite : ℕ
bwhite = 2

abbrev pub brdsiz : ℕ
brdsiz = 19

abbrev pub cell : ℕ → ℕ → ℕ
cell x y = 19 * x + y

-- go[x][y], l[x][y] and ml[x][y].
abbrev pub at : List ℕ → ℕ → ℕ → ℕ
at l x y = get_or l (cell x y) 0

pub record Horder : Type 0 where
  pub x : ℕ
  pub y : ℕ

-- GOData; `none` for a point of which both coordinates are −1.
pub record GoData : Type 0 where
  pub go : List ℕ
  pub l : List ℕ
  pub ml : List ℕ
  pub lib : ℕ
  pub pool : List Horder
  pub mko : Option Horder
  pub hko : Option Horder
  pub mk : ℕ
  pub hk : ℕ
  pub me : ℕ
  pub he : ℕ

-- The moves so far; a move past the pool is dropped.
pub go_add : GoData → Horder → GoData
go_add gd mv = if ltb (length gd.pool) 500 then record gd { pool = gd.pool ++ mv ∷ [] } else gd

abbrev point : ℕ → ℕ → Horder
point a b = record { x = a; y = b }

-- The points that the handicap `i` places, in the order of the source.
pub hand_points : ℕ → List Horder
hand_points i =
    let nine : List Horder = if ltb 8 i then point 9 9 ∷ [] else [] in
    let eight : List Horder =
      if i == 7 then point 9 9 ∷ [] else if ltb 7 i then point 15 9 ∷ point 3 9 ∷ nine else [] in
    let six : List Horder =
      if i == 5 then point 9 9 ∷ [] else if ltb 5 i then point 9 15 ∷ point 9 3 ∷ eight else [] in
    let four : List Horder = if ltb 3 i then point 15 3 ∷ six else [] in
    let three : List Horder = if ltb 2 i then point 3 15 ∷ four else [] in
    let two : List Horder = if ltb 1 i then point 15 15 ∷ three else [] in point 3 3 ∷ two

pub place : ℕ → List Horder → List ℕ → List ℕ
place c [] go = go
place c (p ∷ ps) go = place c ps (set go (cell p.x p.y) c)

-- `none` is the result 0.
pub go_sethand : GoData → ℕ → Option GoData
unfolding place hand_points
go_sethand gd i =
    if ltb 0 i && ltb i 10
    then some (record gd { go = place bblack (hand_points i) gd.go })
    else none

-- What the search for liberties changes.
pub record Scan : Type 0 where
  pub marks : List ℕ
  pub count : ℕ

abbrev pub marked : Scan → ℕ → ℕ → Bool
marked s x y = not (at s.marks x y == 0)

abbrev pub unmark : ℕ → ℕ → Scan → Scan
unmark x y s = record s { marks = set s.marks (cell x y) 0 }

module _ (go : List ℕ) (color : ℕ) where
  -- The tests on one neighbour; `rec` is the call for a stone.
  unfoldable pub look : (ℕ → ℕ → Scan → Option Scan) → ℕ → ℕ → Scan → Option Scan
  look rec x y s =
      if (at go x y == bblank) && marked s x y
      then some (record (unmark x y s) { count = s.count + 1 })
      else if (at go x y == color) && marked s x y
      then rec x y s
      else some s

  abbrev pub look_then : (ℕ → ℕ → Scan → Option Scan) → Bool → ℕ → ℕ → Option Scan → Option Scan
  look_then rec edge x y none = none
  look_then rec edge x y (some s) = if edge then some s else look rec x y s

  -- The four neighbours in the order of the source.
  unfoldable pub look_around : (ℕ → ℕ → Scan → Option Scan) → ℕ → ℕ → Scan → Option Scan
  look_around rec x y s = look_then rec (y == 18) x (y + 1) (
      look_then rec (y == 0) x (y - 1)
        (look_then rec (x == 18) (x + 1) y (look_then rec (x == 0) (x - 1) y (some s))))

  -- On fuel, for the depth of the recursion; `none` when it is not enough.
  unfoldable pub go_count : ℕ → ℕ → ℕ → Scan → Option Scan
  go_count zero x y s = none
  go_count (suc fuel) x y s = look_around (go_count fuel) x y (unmark x y s)

  -- All points marked; each round of the recursion takes one mark away.
  unfoldable pub go_countlib : ℕ → ℕ → ℕ → Option Scan
  go_countlib x y lib = go_count 361 x y (record { marks = replicate 361 1; count = lib })
