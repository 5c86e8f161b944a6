-- ===== src/Go/Liberties/Search.antt =====
-- mbbsd/go.c: the recursion of `GO_count` ends, and sees the group and its liberties.
use pttoldstable.Base.{
  ℕ, zero, suc, ◌+◌, ◌-◌, ◌≤◌, ◌≡◌, ◌≢◌, refl, inl, inr, Bool, true, false, Option, some, List,
  arith, ◌==◌, length, ℕ_discrete,
}
use mathlib.Core.Logic.{⊎_elim}
use pttoldstable.Go.{cell, at, bblank, Scan, unmark, look, look_then, look_around, go_count}
use pttoldstable.Go.Marks.{left, get_or-set_zero, get_or-set_keeps, left-set}
use pttoldstable.Go.Liberties.{
  On, Next, Group, start, step, Off, Open, Closed, Progress, Progress-refl, Progress-trans,
  Progress-Liberty, Progress-Stone,
}

module _ (go : List ℕ) (color px py : ℕ) (c : color ≢ bblank) (n : length go ≡ 361) where
  abbrev P : Scan → Scan → Type 0
  P = Progress go color px py

  abbrev G : ℕ → ℕ → Type 0
  G = Group go color px py

  -- What the recursive call does for a stone of the group.
  abbrev Works : ℕ → (ℕ → ℕ → Scan → Option Scan) → Type 0
  Works fuel rec =
      (x y : ℕ) (s : Scan)
      → On x y
      → G x y
      → at go x y ≡ color
      → at s.marks x y ≢ 0
      → left s.marks ≤ fuel
      → Off s px py
      → (s' : Scan) × (rec x y s ≡ some s') × P s s' × Off s' x y

  module _ (fuel : ℕ) (rec : ℕ → ℕ → Scan → Option Scan) (works : Works fuel rec) where
    look_lem :
        (x y a b : ℕ) (s : Scan)
        → G x y
        → Next x y a b
        → On a b
        → left s.marks ≤ fuel
        → Off s px py
        → (s' : Scan) × (look go color rec a b s ≡ some s')
          × P s s'
          × (Open go color px py a b → Off s' a b)
    unfolding look
    look_lem x y a b s g j o f p = elim (ℕ_discrete (at s.marks a b) 0) [
      | yes z ↦ (s, ground arith, Progress-refl go color px py s, λ _. z)
      | no m ↦ elim (ℕ_discrete (at go a b) bblank) [
        | yes e ↦
            let s' = record (unmark a b s) { count = s.count + 1 } in
            (
              s',
              ground arith,
              Progress-Liberty go color px py s a b c n o (e, x, y, (g, j)) p m,
              λ _. get_or-set_zero s.marks (cell a b),
            )
        | no e ↦ elim (ℕ_discrete (at go a b) color) [
          | yes k ↦
              let (s', r, q, w) = works a b s o (step g j o k) k m f p in
              let not_blank : (at go a b == bblank) ≡ false = ground arith in
              let stone : (at go a b == color) ≡ true = ground arith in
              let seen : (at s.marks a b == 0) ≡ false = ground arith in
              (s', rw (not_blank, stone, seen) r, q, λ _. w)
          | no k ↦ (s, ground arith, Progress-refl go color px py s, λ h. absurd (⊎_elim e k h))
        ]
      ]
    ]

    -- At the edge there is no neighbour to look at.
    Side : Bool → ℕ → ℕ → Scan → Type 0
    Side edge a b s = edge ≡ false → Open go color px py a b → Off s a b

    Side-Progress : (edge : Bool) (a b : ℕ) (s t : Scan) → P s t → Side edge a b s → Side edge a b t
    unfolding Side
    Side-Progress edge a b s t p h e o = p.off a b (h e o)

    look_then_lem :
        (x y a b : ℕ) (edge : Bool) (s : Scan)
        → G x y
        → (edge ≡ false → Next x y a b × On a b)
        → left s.marks ≤ fuel
        → Off s px py
        → (s' : Scan) × (look_then go color rec edge a b (some s) ≡ some s')
          × P s s'
          × Side edge a b s'
    unfolding Side
    look_then_lem x y a b true s g j f p = (s, refl, Progress-refl go color px py s, λ e. absurd cc)
    look_then_lem x y a b false s g j f p =
        let (s', r, q, w) = look_lem x y a b s g (j refl).0 (j refl).1 f p in (s', r, q, λ _. w)

    side_at :
        (edge : Bool) (a b a' b' : ℕ) (s : Scan)
        → a ≡ a'
        → b ≡ b'
        → edge ≡ false
        → Side edge a' b' s
        → Open go color px py a b
        → Off s a b
    unfolding Side
    side_at edge a b a' b' s ea eb e w h = rw (ea, eb) (w e (rw (ea, eb) at h))

    Closed-of_sides :
        (x y : ℕ) (s : Scan)
        → On x y
        → Side (x == 0) (x - 1) y s
        → Side (x == 18) (x + 1) y s
        → Side (y == 0) x (y - 1) s
        → Side (y == 18) x (y + 1) s
        → Closed go color px py s x y
    Closed-of_sides x y s o w1 w2 w3 w4 a b k j h = elim j [
      | inl (e, f) ↦ side_at (x == 0) a b (x - 1) y s (omega arith) f (ground arith) w1 h
      | inr (inl (e, f)) ↦ side_at (x == 18) a b (x + 1) y s e f (ground arith) w2 h
      | inr (inr (inl (e, f))) ↦
          side_at (y == 0) a b x (y - 1) s e (omega arith) (ground arith) w3 h
      | inr (inr (inr (e, f))) ↦ side_at (y == 18) a b x (y + 1) s e f (ground arith) w4 h
    ]

    look_around_lem :
        (x y : ℕ) (s : Scan)
        → On x y
        → G x y
        → left s.marks ≤ fuel
        → Off s px py
        → (s' : Scan) × (look_around go color rec x y s ≡ some s')
          × P s s'
          × Closed go color px py s' x y
    unfolding look_around
    look_around_lem x y s o g f p =
        let (s1, r1, q1, w1) = look_then_lem x y (x - 1) y (x == 0) s g (λ e. ground arith) f p in
        let f1 : left s1.marks ≤ fuel = omega (arith, q1.fewer) in
        let p1 = q1.off px py p in
        let (s2, r2, q2, w2) =
          look_then_lem x y (x + 1) y (x == 18) s1 g (λ e. ground arith) f1 p1 in
        let f2 : left s2.marks ≤ fuel = omega (arith, q2.fewer) in
        let p2 = q2.off px py p1 in
        let (s3, r3, q3, w3) =
          look_then_lem x y x (y - 1) (y == 0) s2 g (λ e. ground arith) f2 p2 in
        let f3 : left s3.marks ≤ fuel = omega (arith, q3.fewer) in
        let p3 = q3.off px py p2 in
        let (s4, r4, q4, w4) =
          look_then_lem x y x (y + 1) (y == 18) s3 g (λ e. ground arith) f3 p3 in
        let t34 = Progress-trans go color px py s2 s3 s4 q3 q4 in
        let t24 = Progress-trans go color px py s1 s2 s4 q2 t34 in
        (
          s4,
          rw (r1, r2, r3) r4,
          Progress-trans go color px py s s1 s4 q1 t24,
          Closed-of_sides x y s4 o (Side-Progress (x == 0) (x - 1) y s1 s4 t24 w1)
              (Side-Progress (x == 18) (x + 1) y s2 s4 t34 w2)
              (Side-Progress (y == 0) x (y - 1) s3 s4 q4 w3) w4,
        )

  -- With fuel for the marks that are left, the call on a marked stone of the group ends.
  go_count-Works : (fuel : ℕ) → Works fuel (go_count go color fuel)
  unfolding go_count
  go_count-Works zero x y s o g k m f p = absurd (omega (arith, left-set s.marks (cell x y) m))
  go_count-Works (suc fuel) x y s o g k m f p =
      let s0 = unmark x y s in
      let f0 : left s0.marks ≤ fuel = omega (arith, left-set s.marks (cell x y) m) in
      let p0 = get_or-set_keeps s.marks (cell x y) (cell px py) p in
      let (s', r, q, w) =
        look_around_lem fuel (go_count go color fuel) (go_count-Works fuel) x y s0 o g f0 p0 in
      (
        s',
        r,
        Progress-Stone go color px py s s' x y c n o g k m q w,
        q.off x y (get_or-set_zero s.marks (cell x y)),
      )

  -- The first call, on the point itself, whatever stands there.
  pub go_count_start :
      (fuel : ℕ) (s : Scan)
      → On px py
      → at s.marks px py ≢ 0
      → left s.marks ≤ suc fuel
      → (s' : Scan) × (go_count go color (suc fuel) px py s ≡ some s')
        × P (unmark px py s) s'
        × Closed go color px py s' px py
  unfolding go_count
  go_count_start fuel s o m f =
      look_around_lem fuel (go_count go color fuel) (go_count-Works fuel) px py (unmark px py s) o
        start (omega (arith, left-set s.marks (cell px py) m))
        (get_or-set_zero s.marks (cell px py))
