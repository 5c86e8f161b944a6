-- ===== src/Go/Board.antt =====
-- mbbsd/go.c: the liberties of all stones, the stones that are taken, and the moves that are allowed.
pub mod Eval
use pttoldstable.Base.{
  ℕ, zero, suc, ◌+◌, ◌/◌, ◌%◌, Bool, true, false, not, ◌&&◌, ◌||◌, Option, none, some, List, ltb,
  ◌==◌, if◌then◌else◌, get_or, set, replicate,
}
use pttoldstable.Go.{GoData, Horder, Scan, cell, at, bblank, go_countlib}

-- What GO_count leaves in `ml` and `lib`.
abbrev pub scanned : GoData → Scan → GoData
scanned gd s = record gd { ml = s.marks; lib = s.count }

abbrev pub set_l : ℕ → ℕ → GoData → GoData
set_l i v gd = record gd { l = set gd.l i v }

-- The stone at the cell `i`, by its row and its column.
pub eval_cell : ℕ → ℕ → GoData → Option GoData
eval_cell color i gd = elim (go_countlib gd.go color (i / 19) (i % 19) 0) [
  | none ↦ none
  | some s ↦ some (set_l i s.count (scanned gd s))
]

abbrev pub then_go : Option GoData → (GoData → Option GoData) → Option GoData
then_go none f = none
then_go (some gd) f = f gd

-- The two loops over rows and columns as one over the cells, for `left` of them from `i`.
pub eval_loop : ℕ → ℕ → ℕ → GoData → Option GoData
eval_loop color zero i gd = some gd
eval_loop color (suc left) i gd =
    let this = if get_or gd.go i 0 == color then eval_cell color i gd else some gd in
    then_go this (eval_loop color left (suc i))

pub go_eval : GoData → ℕ → Option GoData
go_eval gd color = eval_loop color 361 0 gd

-- The stones of a colour without liberties by the numbers in `l`.
pub count_dead : ℕ → ℕ → ℕ → GoData → ℕ
count_dead color zero i gd = 0
count_dead color (suc left) i gd =
    (if (get_or gd.go i 0 == color) && (get_or gd.l i 0 == 0) then 1 else 0)
    + count_dead color left (suc i) gd

-- The point of the last single stone that was taken.
abbrev is_at : Option Horder → Horder → Bool
is_at none mv = false
is_at (some p) mv = (mv.x == p.x) && (mv.y == p.y)

abbrev put_at : Horder → ℕ → GoData → GoData
put_at mv c gd = record gd { go = set gd.go (cell mv.x mv.y) c }

-- With the stone on the board and the stones of the other side counted.
pub check_eval : GoData → Horder → GoData × ℕ
unfolding count_dead
check_eval gd mv =
    let k = count_dead gd.he 361 0 gd in
    if (k == 0) || (k == 1) && is_at gd.mko mv then (put_at mv bblank gd, 0) else (gd, 1)

abbrev check_scan : Horder → GoData → Option (GoData × ℕ)
check_scan mv gd =
    if gd.lib == 0
    then elim (go_eval (put_at mv gd.me gd) gd.he) [
      | none ↦ none
      | some gd' ↦ some (check_eval gd' mv)
    ]
    else some (gd, 1)

-- Whether the move is allowed. On a move without liberties that is, the stone stays on the board.
pub go_check : GoData → Horder → Option (GoData × ℕ)
go_check gd mv = elim (go_countlib gd.go gd.me mv.x mv.y 0) [
  | none ↦ none
  | some s ↦ check_scan mv (scanned gd s)
]

-- `n` counts the stones that were taken.
pub record Exam : Type 0 where
  pub gd : GoData
  pub n : ℕ

-- hik, hjk, or mik, mjk.
pub set_ko : ℕ → Option Horder → GoData → GoData
set_ko color p gd = if color == gd.he then record gd { hko = p } else record gd { mko = p }

pub count_taken : ℕ → GoData → GoData
count_taken color gd =
    if color == gd.he then record gd { hk = gd.hk + 1 } else record gd { mk = gd.mk + 1 }

pub take_stone : ℕ → ℕ → Exam → Exam
unfolding set_ko count_taken
take_stone color i e =
    let gd = record (e.gd) { go = set e.gd.go i bblank } in
    record {
      gd = count_taken color (set_ko color (some (record { x = i / 19; y = i % 19 })) gd);
      n = e.n + 1;
    }

pub exam_cell : ℕ → ℕ → Exam → Exam
exam_cell color i e =
    if (get_or e.gd.go i 0 == color) && (get_or e.gd.l i 0 == 0) then take_stone color i e else e

pub exam_loop : ℕ → ℕ → ℕ → Exam → Exam
exam_loop color zero i e = e
exam_loop color (suc left) i e = exam_loop color left (suc i) (exam_cell color i e)

pub exam_end : ℕ → Exam → GoData
unfolding set_ko
exam_end color e = if ltb 1 e.n then set_ko color none e.gd else e.gd

-- Takes the stones of a colour that have no liberties.
pub go_examboard : GoData → ℕ → Option GoData
go_examboard gd color = elim (go_eval gd color) [
  | none ↦ none
  | some gd' ↦
      some (exam_end color (exam_loop color 361 0 (record { gd = set_ko color none gd'; n = 0 })))
]
