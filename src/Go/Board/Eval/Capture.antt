-- ===== src/Go/Board/Eval/Capture.antt =====
-- mbbsd/go.c: `GO_examboard` takes the stones whose group has no liberty.
use pttoldstable.Base.{
  ℕ, zero, suc, ◌+◌, ◌/◌, ◌%◌, ◌≤◌, ◌<◌, ◌≡◌, ◌≢◌, ◌↔◌, refl, ap, sym, ◌∙◌, inl, inr, Bool, ◌&&◌,
  Option, none, some, arith, leb, ltb, ◌==◌, if◌then◌else◌, get_or, set, length, length-set,
  ℕ_discrete, Bool-cases,
}
use pttoldstable.Base.Take.{get_or-set_self, get_or-set_ne}
use pttoldstable.Go.{GoData, Horder, cell, at, bblank}
use pttoldstable.Go.Liberties.{On}
use pttoldstable.Go.Board.{
  go_eval, Exam, take_stone, exam_cell, exam_loop, exam_end, set_ko, count_taken, go_examboard,
}
use pttoldstable.Go.Board.Eval.{Captured}
use pttoldstable.Go.Board.Eval.Loop.{eval_loop_lem}

go_take_stone :
    (color i : ℕ) (e : Exam)
    → ((take_stone color i e).gd.go ≡ set e.gd.go i bblank) × ((take_stone color i e).gd.l ≡ e.gd.l)
unfolding take_stone set_ko count_taken
go_take_stone color i e = ground arith

go_set_ko :
    (color : ℕ) (p : Option Horder) (gd : GoData)
    → ((set_ko color p gd).go ≡ gd.go) × ((set_ko color p gd).l ≡ gd.l)
unfolding set_ko
go_set_ko color p gd = ground arith

go_exam_end : (color : ℕ) (e : Exam) → (exam_end color e).go ≡ e.gd.go
unfolding exam_end set_ko
go_exam_end color e = ground arith

-- A stone of the colour with the number 0.
abbrev dead : ℕ → GoData → ℕ → Bool
dead color gd j = (get_or gd.go j 0 == color) && (get_or gd.l j 0 == 0)

go_exam_cell :
    (color i j : ℕ) (e : Exam)
    → i < length e.gd.go
    → get_or (exam_cell color i e).gd.go j 0
      ≡ (if (j == i) && dead color e.gd j then bblank else get_or e.gd.go j 0)
unfolding exam_cell
go_exam_cell color i j e n = elim (Bool-cases (dead color e.gd i)) [
  | inr t ↦ elim (ℕ_discrete j i) [
    | yes q ↦ rw q (rw t (ground arith))
    | no q ↦ rw t (ground arith)
  ]
  | inl t ↦
      let (g, _) = go_take_stone color i e in
      elim (ℕ_discrete j i) [
        | yes q ↦ rw q (rw (t, g) (get_or-set_self e.gd.go i bblank 0 n ∙ ground arith))
        | no q ↦ rw (t, g) (get_or-set_ne e.gd.go i j bblank 0 (λ z. q (sym z)) ∙ ground arith)
      ]
]

l_exam_cell : (color i : ℕ) (e : Exam) → (exam_cell color i e).gd.l ≡ e.gd.l
unfolding exam_cell
l_exam_cell color i e = elim (Bool-cases (dead color e.gd i)) [
  | inr t ↦ rw t refl
  | inl t ↦ rw t (go_take_stone color i e).1
]

length-exam_cell : (color i : ℕ) (e : Exam) → length (exam_cell color i e).gd.go ≡ length e.gd.go
unfolding exam_cell
length-exam_cell color i e = elim (Bool-cases (dead color e.gd i)) [
  | inr t ↦ rw t refl
  | inl t ↦ rw (t, (go_take_stone color i e).0) (length-set e.gd.go i bblank)
]

-- Stones from the cell `i` on.
exam_loop_lem :
    (color left i j : ℕ) (e : Exam)
    → color ≢ bblank
    → i + left ≤ length e.gd.go
    → get_or (exam_loop color left i e).gd.go j 0
      ≡ (if leb i j && ltb j (i + left) && dead color e.gd j then bblank else get_or e.gd.go j 0)
unfolding exam_loop
exam_loop_lem color zero i j e c n = ground arith
exam_loop_lem color (suc left) i j e c n =
    let e1 = exam_cell color i e in
    let n1 : suc i + left ≤ length e1.gd.go = omega (arith, length-exam_cell color i e) in
    let l1 : get_or e1.gd.l j 0 ≡ get_or e.gd.l j 0 =
      ap (λ l. get_or l j 0) (l_exam_cell color i e) in
    exam_loop_lem color left (suc i) j e1 c n1
    ∙ ground (arith, go_exam_cell color i j e (omega arith), l1)

-- The state in which the loop of `GO_examboard` starts, and the one that it returns.
abbrev exam_start : ℕ → GoData → Exam
exam_start color gd = record { gd = set_ko color none gd; n = 0 }

abbrev exam_result : ℕ → GoData → GoData
exam_result color gd = exam_end color (exam_loop color 361 0 (exam_start color gd))

go_examboard-some :
    (gd gd' : GoData) (color : ℕ)
    → go_eval gd color ≡ some gd'
    → go_examboard gd color ≡ some (exam_result color gd')
unfolding go_examboard
go_examboard-some gd gd' color e = rw (e, go_examboard) refl

exam_result_lem :
    (color j : ℕ) (gd : GoData)
    → color ≢ bblank
    → length gd.go ≡ 361
    → j < 361
    → get_or (exam_result color gd).go j 0 ≡ (if dead color gd j then bblank else get_or gd.go j 0)
exam_result_lem color j gd c n h =
    let (g, l) = go_set_ko color none gd in
    let size : 0 + 361 ≤ length (exam_start color gd).gd.go = rw g (omega arith) in
    let first : get_or (exam_start color gd).gd.go j 0 ≡ get_or gd.go j 0 =
      ap (λ k. get_or k j 0) g in
    let number : get_or (exam_start color gd).gd.l j 0 ≡ get_or gd.l j 0 =
      ap (λ k. get_or k j 0) l in
    ap (λ k. get_or k j 0) (go_exam_end color (exam_loop color 361 0 (exam_start color gd)))
    ∙ exam_loop_lem color 361 0 j (exam_start color gd) c size
    ∙ ground (arith, first, number)

-- One point: `g` stands there before and `r` after, with the number `l`.
taken_or_kept :
    (C : Type 0) (color g l r : ℕ)
    → color ≢ bblank
    → r ≡ (if (g == color) && (l == 0) then bblank else g)
    → (g ≡ color → (l ≡ 0) ↔ C)
    → (g ≢ color → r ≡ g) × (g ≡ color → (r ≡ bblank) ↔ C) × (r ≢ bblank → r ≡ g)
taken_or_kept C color g l r c e h = (
  λ ne. ground arith,
  λ q. (λ z. (h q).0 (ground arith), λ f. let z = (h q).1 f in ground arith),
  λ ne. ground arith,
)

-- On a board of 361 points with as many numbers in `l`, for a colour other than `bblank`:
-- `GO_examboard` ends, its search for liberties included. A stone of the colour is gone exactly
-- when its group has no empty point next to it, and everything else on the board is as before.
pub go_examboard-Captured :
    (gd : GoData) (color : ℕ)
    → length gd.go ≡ 361
    → length gd.l ≡ 361
    → color ≢ bblank
    → (gd' : GoData) × (go_examboard gd color ≡ some gd')
      × ((x y : ℕ)
          → On x y
          → (at gd.go x y ≢ color → at gd'.go x y ≡ at gd.go x y)
            × (at gd.go x y ≡ color → (at gd'.go x y ≡ bblank) ↔ Captured gd.go color x y)
            × (at gd'.go x y ≢ bblank → at gd'.go x y ≡ at gd.go x y))
unfolding go_eval
go_examboard-Captured gd color n m c =
    let (gd1, r, q) = eval_loop_lem color 361 0 gd n m c (omega arith) in
    (
      exam_result color gd1,
      go_examboard-some gd gd1 color r,
      λ x y o.
          let n1 : length gd1.go ≡ 361 = rw (q.same_go) n in
          let w = exam_result_lem color (cell x y) gd1 c n1 (omega arith) in
          let g : at gd1.go x y ≡ at gd.go x y = ap (λ k. at k x y) q.same_go in
          let ex : cell x y / 19 ≡ x = omega arith in
          let ey : cell x y % 19 ≡ y = omega arith in
          let here : at gd.go x y ≡ color → (at gd1.l x y ≡ 0) ↔ Captured gd.go color x y =
            λ e. rw (ex, ey) at (q.here (cell x y) (omega arith) (omega arith) e) in
          taken_or_kept (Captured gd.go color x y) color (at gd.go x y) (at gd1.l x y)
            (at (exam_result color gd1).go x y) c (w ∙ ground (arith, g)) here,
    )
