-- ===== src/Go/Board/Eval/Loop.antt =====
-- mbbsd/go.c: the loop of `GO_eval`.
use pttoldstable.Base.{
  ℕ, zero, suc, ◌+◌, ◌/◌, ◌%◌, ◌≤◌, ◌<◌, ◌≡◌, ◌≢◌, ◌↔◌, refl, ◌∙◌, true, false, some, arith, ◌==◌,
  get_or, length, length-set, ℕ_discrete,
}
use pttoldstable.Base.Take.{get_or-set_self, get_or-set_ne}
use pttoldstable.Go.{GoData, cell, bblank, Scan, go_countlib}
use pttoldstable.Go.Liberties.{On}
use pttoldstable.Go.Board.{eval_cell, eval_loop, set_l, scanned}
use pttoldstable.Go.Board.Eval.{Captured, go_countlib-Captured}

-- The numbers in `l` for the stones at the cells from `i` to `i + left`.
pub record Evaluated (color i left : ℕ) (gd gd' : GoData) : Type 0 where
  pub same_go : gd'.go ≡ gd.go
  pub same_he : gd'.he ≡ gd.he
  pub size : length gd'.l ≡ length gd.l
  pub below : (j : ℕ) → j < i → get_or gd'.l j 0 ≡ get_or gd.l j 0
  pub here :
      (j : ℕ)
      → i ≤ j
      → j < i + left
      → get_or gd.go j 0 ≡ color
      → (get_or gd'.l j 0 ≡ 0) ↔ Captured gd.go color (j / 19) (j % 19)

-- The loop after a first round that may have set the number of cell `i`.
pub Evaluated-suc :
    (color i left : ℕ) (gd gd1 gd' : GoData)
    → gd1.go ≡ gd.go
    → gd1.he ≡ gd.he
    → length gd1.l ≡ length gd.l
    → ((j : ℕ) → j < i → get_or gd1.l j 0 ≡ get_or gd.l j 0)
    → (get_or gd.go i 0 ≡ color → (get_or gd1.l i 0 ≡ 0) ↔ Captured gd.go color (i / 19) (i % 19))
    → Evaluated color (suc i) left gd1 gd'
    → Evaluated color i (suc left) gd gd'
Evaluated-suc color i left gd gd1 gd' g h s b k e = record {
  same_go = e.same_go ∙ g;
  same_he = e.same_he ∙ h;
  size = e.size ∙ s;
  below = λ j n. e.below j (omega arith) ∙ b j n;
  here = λ j n m c. elim (ℕ_discrete j i) [
    | yes q ↦ rw (q, e.below i (omega arith)) (k (rw q at c))
    | no q ↦ rw g at (e.here j (omega arith) (omega arith) (rw g c))
  ];
}

pub eval_cell-some :
    (color i : ℕ) (gd : GoData) (s : Scan)
    → go_countlib gd.go color (i / 19) (i % 19) 0 ≡ some s
    → eval_cell color i gd ≡ some (set_l i s.count (scanned gd s))
unfolding eval_cell
eval_cell-some color i gd s r = rw (r, eval_cell) refl

pub eval_loop_lem :
    (color left i : ℕ) (gd : GoData)
    → length gd.go ≡ 361
    → length gd.l ≡ 361
    → color ≢ bblank
    → i + left ≤ 361
    → (gd' : GoData) × (eval_loop color left i gd ≡ some gd') × Evaluated color i left gd gd'
unfolding eval_loop
eval_loop_lem color zero i gd n m c h = (
  gd,
  refl,
  record {
    same_go = refl;
    same_he = refl;
    size = refl;
    below = λ j _. refl;
    here = λ j a b e. absurd (omega arith);
  },
)
eval_loop_lem color (suc left) i gd n m c h = elim (ℕ_discrete (get_or gd.go i 0) color) [
  | no e ↦
      let t : (get_or gd.go i 0 == color) ≡ false = ground arith in
      let (gd', r, q) = eval_loop_lem color left (suc i) gd n m c (omega arith) in
      (
        gd',
        rw t r,
        Evaluated-suc color i left gd gd gd' refl refl refl (λ j _. refl) (λ f. absurd (e f)) q,
      )
  | yes e ↦
      let t : (get_or gd.go i 0 == color) ≡ true = ground arith in
      let on : On (i / 19) (i % 19) = (omega arith, omega arith) in
      let w : cell (i / 19) (i % 19) ≡ i = omega arith in
      let (s, r, f) = go_countlib-Captured gd.go color (i / 19) (i % 19) n c on (rw w e) in
      let gd1 = set_l i s.count (scanned gd s) in
      let one : eval_cell color i gd ≡ some gd1 = eval_cell-some color i gd s r in
      let (gd', r', q) =
        eval_loop_lem color left (suc i) gd1 n (length-set gd.l i s.count ∙ m) c (omega arith) in
      (
        gd',
        rw (t, one) r',
        Evaluated-suc color i left gd gd1 gd' refl refl (length-set gd.l i s.count)
            (λ j k. get_or-set_ne gd.l i j s.count 0 (λ z. absurd (omega arith)))
            (λ _. rw (get_or-set_self gd.l i s.count 0 (omega arith)) f) q,
      )
]
