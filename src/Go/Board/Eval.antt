-- ===== src/Go/Board/Eval.antt =====
-- mbbsd/go.c: what `GO_eval` puts into `l`.
pub mod Loop
pub mod Capture
use pttoldstable.Base.{
  ℕ, zero, suc, ◌+◌, ◌*◌, ◌/◌, ◌%◌, ◌≤◌, ◌<◌, ◌≡◌, ◌≢◌, ◌⊎◌, ◌↔◌, refl, ap, sym, ◌∙◌, inl, inr,
  Bool, true, false, not, ◌&&◌, Option, some, List, [], ◌∷◌, arith, ◌==◌, if◌then◌else◌, get_or,
  set, length, length-set, replicate, ℕ_discrete, Bool-cases,
}
use pttoldstable.Go.{GoData, cell, at, bblank, Scan, go_countlib}
use pttoldstable.Go.Marks.{free}
use pttoldstable.Go.Liberties.{On, Next, Group, start, step, Liberty, Off}
use pttoldstable.Go.Liberties.Correct.{newly, first, first-Off, go_countlib_lem}
use pttoldstable.Go.Board.{eval_cell, eval_loop, go_eval, set_l, scanned, then_go}

newly_pos :
    (go ms ns : List ℕ) (i : ℕ)
    → i < length go
    → get_or go i 0 ≡ bblank
    → get_or ms i 0 ≢ 0
    → get_or ns i 0 ≡ 0
    → 1 ≤ newly go ms ns
newly_pos [] ms ns i n g m h = absurd (omega arith)
newly_pos (g ∷ gs) [] ns i n e m h = absurd (m refl)
newly_pos (g ∷ gs) (x ∷ ms) [] zero n e m h = ground arith
newly_pos (g ∷ gs) (x ∷ ms) [] (suc i) n e m h =
    omega (arith, newly_pos gs ms [] i (omega arith) e m refl)
newly_pos (g ∷ gs) (x ∷ ms) (y ∷ ns) zero n e m h = ground arith
newly_pos (g ∷ gs) (x ∷ ms) (y ∷ ns) (suc i) n e m h =
    omega (arith, newly_pos gs ms ns i (omega arith) e m h)

newly_some :
    (go ms ns : List ℕ)
    → 1 ≤ newly go ms ns
    → (i : ℕ) × (i < length go)
      × (get_or go i 0 ≡ bblank)
      × (get_or ms i 0 ≢ 0)
      × (get_or ns i 0 ≡ 0)
newly_some [] ms ns h = absurd (omega arith)
newly_some (g ∷ gs) [] ns h = absurd (omega arith)
newly_some (g ∷ gs) (x ∷ ms) [] h = elim (Bool-cases ((g == bblank) && not (x == 0))) [
  | inl t ↦ (0, omega arith, ground arith, ground arith, refl)
  | inr t ↦
      let h' : 1 ≤ newly gs ms [] = ground arith in
      let (i, n, e, m, z) = newly_some gs ms [] h' in (suc i, omega arith, e, m, refl)
]
newly_some (g ∷ gs) (x ∷ ms) (y ∷ ns) h =
    elim (Bool-cases ((g == bblank) && not (x == 0) && (y == 0))) [
      | inl t ↦ (0, omega arith, ground arith, ground arith, ground arith)
      | inr t ↦
          let h' : 1 ≤ newly gs ms ns = ground arith in
          let (i, n, e, m, z) = newly_some gs ms ns h' in (suc i, omega arith, e, m, z)
    ]

-- The stone at a point is taken when its group has no empty point next to it.
abbrev pub Captured : List ℕ → ℕ → ℕ → ℕ → Type 0
Captured go color px py = (a b : ℕ) → On a b → ¬ Liberty go color px py a b

-- A group that starts at a stone has stones only.
Group-color :
    (go : List ℕ) (color px py : ℕ) {a b : ℕ}
    → at go px py ≡ color
    → Group go color px py a b
    → at go a b ≡ color
Group-color go color px py e start = e
Group-color go color px py e (step g j o k) = k

-- For a stone the count from 0 is 0 exactly when it is captured.
pub go_countlib-Captured :
    (go : List ℕ) (color px py : ℕ)
    → length go ≡ 361
    → color ≢ bblank
    → On px py
    → at go px py ≡ color
    → (s : Scan) × (go_countlib go color px py 0 ≡ some s)
      × ((s.count ≡ 0) ↔ Captured go color px py)
go_countlib-Captured go color px py n c o st =
    let (s, r, seen, k) = go_countlib_lem go color px py 0 n c o in
    (
      s,
      r,
      (
        λ z a b i l.
            let off = (seen a b i).1 (inr l) in
            let fresh : get_or (first px py 0).marks (cell a b) 0 ≢ 0 = λ e.
              let (ea, eb) = first-Off go color px py o 0 a b i e in
              let q : at go a b ≡ at go px py = rw (ea, eb) refl in c (sym st ∙ sym q ∙ l.0) in
            let some_seen =
              newly_pos go (first px py 0).marks s.marks (cell a b) (omega arith) l.0 fresh off in
            absurd (omega (arith, z, k)),
        λ f. elim (ℕ_discrete (newly go (first px py 0).marks s.marks) 0) [
          | yes z ↦ omega arith
          | no z ↦
              let (i, j, e, m, off) = newly_some go (first px py 0).marks s.marks (omega arith) in
              let w : cell (i / 19) (i % 19) ≡ i = omega arith in
              let on : On (i / 19) (i % 19) = (omega arith, omega arith) in
              let e' : at go (i / 19) (i % 19) ≡ bblank = rw w e in
              elim ((seen (i / 19) (i % 19) on).0 (rw w off)) [
                | inl g ↦ absurd (c (sym (Group-color go color px py st g) ∙ e'))
                | inr l ↦ absurd (f (i / 19) (i % 19) on l)
              ]
        ],
      ),
    )
