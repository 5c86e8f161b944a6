-- ===== src/Othello/Put.antt =====
-- mbbsd/othello.c: the squares that `if_can_put` allows are those from which `eatline` turns stones.
use pttoldstable.Base.{
  ℕ, zero, suc, ◌+◌, ◌-◌, ◌≤◌, ◌<◌, ◌≡◌, ◌≢◌, ◌⊎◌, ◌↔◌, refl, sym, ◌∙◌, inl, inr, Bool, true, false,
  not, ◌||◌, some, arith, ltb, ◌==◌, Bool-cases, ap, ◌&&◌, ==_iff, if◌then◌else◌, Option-cases,
  ℕ_discrete,
}
use mathlib.Core.Option.{some-injective}
use pttoldstable.Othello.{
  Board, black, white, invert, dirx, diry, below_black, fails, ends, find_end, turn, eat_to,
  eatline, can_turn, try_dirs, if_can_put, put,
}
use pttoldstable.Othello.Moves.{IsBoard, Same, scan-find_end, rounds, inside}

-- `m` steps lead from one square to another.
abbrev pub Walk : ℕ → ℕ → ℕ → ℕ → ℕ → ℕ → Type 0
Walk dir zero i j p q = (i ≡ p) × (j ≡ q)
Walk dir (suc m) i j p q = Walk dir m (i + dirx dir - 1) (j + diry dir - 1) p q

-- Fewer than `m` steps lead to the square.
abbrev pub passed : ℕ → ℕ → ℕ → ℕ → ℕ → ℕ → Bool
passed dir zero i j u v = false
passed dir (suc m) i j u v =
    let rest = passed dir m (i + dirx dir - 1) (j + diry dir - 1) u v in (u == i && v == j) || rest

-- From a square, one stone of the other colour or more lie in the direction up to a stone of the colour;
-- they and the square get the colour, and nothing else changes.
abbrev pub Turned : ℕ → ℕ → ℕ → ℕ → Board → Board → Type 0
Turned color dir x y b b' =
    (m : ℕ) × (1 ≤ m)
    × (p : ℕ) × (q : ℕ) × Walk dir (suc m) x y p q
    × (b p q ≡ some color)
    × ((k u v : ℕ) → 1 ≤ k → k ≤ m → Walk dir k x y u v → b u v ≡ some (invert color))
    × ((u v : ℕ) → b' u v ≡ (if passed dir (suc m) x y u v then some color else b u v))

module _ (color dir : ℕ) (b : Board) (w : IsBoard b) (c : (color ≡ black) ⊎ (color ≡ white)) where
  find_end-Walk :
      (fuel x y p q : ℕ)
      → find_end color dir fuel x y b ≡ ends p q
      → (m : ℕ) × (m < fuel)
        × Walk dir m x y p q
        × (b p q ≡ some color)
        × ((k u v : ℕ) → k < m → Walk dir k x y u v → b u v ≡ some (invert color))
  unfolding find_end
  find_end-Walk zero x y p q e = absurd cc
  find_end-Walk (suc fuel) x y p q e = elim (Option-cases (b x y)) [
    | inl n ↦ let z : fails ≡ ends p q = rw (n, find_end) at e in absurd cc
    | inr (v, n) ↦ elim (Bool-cases (ltb v black)) [
      | inl l ↦ let z : fails ≡ ends p q = rw (n, l, find_end) at e in absurd cc
      | inr l ↦ elim (Bool-cases (v == color)) [
        | inl k ↦
            let z : ends x y ≡ ends p q = rw (n, l, k, find_end) at e in
            let ex : x ≡ p = cc in
            let ey : y ≡ q = cc in
            let same : v ≡ color = (==_iff v color).0 k in
            (
              0,
              omega arith,
              (ex, ey),
              rw (← ex, ← ey) (n ∙ ap some same),
              λ j u t h. absurd (omega arith),
            )
        | inr k ↦
            let (m, h, g, own, others) =
              find_end-Walk fuel (x + dirx dir - 1) (y + diry dir - 1) p q
                (rw (n, l, k, find_end) at e) in
            (suc m, omega arith, g, own, along m v n l k others)
      ]
    ]
  ]
    where
      along :
          (m v : ℕ)
          → b x y ≡ some v
          → ltb v black ≡ false
          → (v == color) ≡ false
          → ((k s t : ℕ)
              → k < m
              → Walk dir k (x + dirx dir - 1) (y + diry dir - 1) s t
              → b s t ≡ some (invert color))
          → (k s t : ℕ) → k < suc m
          → Walk dir k x y s t
          → b s t ≡ some (invert color)
      along m v n l k others zero s t h g =
          let three = w.stones x y v n in
          let other : v ≡ invert color = ground arith in rw (← g.0, ← g.1) (n ∙ ap some other)
      along m v n l k others (suc j) s t h g = others j s t (omega arith) g

turn-passed :
    (color dir fuel m i j p q : ℕ) (b : Board)
    → m < fuel
    → Walk dir m i j p q
    → ((k : ℕ) → k < m → ¬ Walk dir k i j p q)
    → (b' : Board) × (turn color dir fuel i j p q b ≡ some b')
      × ((u v : ℕ) → b' u v ≡ (if passed dir m i j u v then some color else b u v))
unfolding turn
turn-passed color dir zero m i j p q b h w n = absurd (omega arith)
turn-passed color dir (suc fuel) zero i j p q b h w n =
    let k : (not (i == p) || not (j == q)) ≡ false = ground (arith, w.0, w.1) in
    (b, rw k refl, λ u v. refl)
turn-passed color dir (suc fuel) (suc m) i j p q b h w n =
    let here : ¬ ((i ≡ p) × (j ≡ q)) = n 0 (omega arith) in
    let k : (not (i == p) || not (j == q)) ≡ true = ground (arith, here) in
    let (b', e, g) =
      turn-passed color dir fuel m (i + dirx dir - 1) (j + diry dir - 1) p q (put i j color b)
        (omega arith) w (λ k l. n (suc k) (omega arith)) in
    (
      b',
      rw k e,
      λ u v. g u v ∙ written u v (passed dir m (i + dirx dir - 1) (j + diry dir - 1) u v),
    )
  where
    written :
        (u v : ℕ) (rest : Bool)
        → (if rest then some color else put i j color b u v)
          ≡ (if (u == i && v == j) || rest then some color else b u v)
    written u v true = elim (Bool-cases (u == i && v == j)) [
      | inl t ↦ rw t refl
      | inr t ↦ rw t refl
    ]
    written u v false = elim (Bool-cases (u == i && v == j)) [
      | inl t ↦ rw (t, put) refl
      | inr t ↦ rw (t, put) refl
    ]

-- On the squares the edge is at most eight steps away.
rounds-lt : (dir x y : ℕ) → x ≤ 9 → y ≤ 9 → rounds (dirx dir) (diry dir) x y < 10
unfolding rounds
rounds-lt dir x y h k = ground arith

eat_to-ends :
    (color dir i j p q : ℕ) (b : Board)
    → IsBoard b
    → (color ≡ black) ⊎ (color ≡ white)
    → below_black (b i j) ≡ true
    → b (i + dirx dir - 1) (j + diry dir - 1) ≡ some (invert color)
    → let x = i + dirx dir - 1 + dirx dir - 1 in
      let y = j + diry dir - 1 + diry dir - 1 in
      find_end color dir 10 x y b ≡ ends p q
      → (b' : Board) × (eat_to color dir i j b (find_end color dir 10 x y b) ≡ some (true, b'))
        × Turned color dir i j b b'
eat_to-ends color dir i j p q b w c start next e =
    let x = i + dirx dir - 1 + dirx dir - 1 in
    let y = j + diry dir - 1 + diry dir - 1 in
    let (m, h, walk, own, others) = find_end-Walk color dir b w c 10 x y p q e in
    let (b', t, g) =
      turn-passed color dir 12 (suc (suc m)) i j p q b (omega arith) walk (not_yet m own others) in
    (b', rw (e, t) refl, (suc m, omega arith, p, q, walk, own, between m others, g))
  where
    Others : ℕ → Type 0
    Others m =
        (k u v : ℕ)
        → k < m
        → Walk dir k (i + dirx dir - 1 + dirx dir - 1) (j + diry dir - 1 + diry dir - 1) u v
        → b u v ≡ some (invert color)

    between :
        (m : ℕ)
        → Others m
        → (k u v : ℕ) → 1 ≤ k
        → k ≤ suc m
        → Walk dir k i j u v
        → b u v ≡ some (invert color)
    between m others zero u v l h g = absurd (omega arith)
    between m others (suc zero) u v l h g = rw (← g.0, ← g.1) next
    between m others (suc (suc k)) u v l h g = others k u v (omega arith) g

    apart : b p q ≡ some color → ¬ (b p q ≡ some (invert color))
    apart own other =
        let same : color ≡ invert color = some-injective _ _ (sym own ∙ other) in
        elim c [ inl z ↦ ground arith | inr z ↦ ground arith ]

    not_yet :
        (m : ℕ) → b p q ≡ some color → Others m → (k : ℕ) → k < suc (suc m) → ¬ Walk dir k i j p q
    not_yet m own others zero h g =
        let here : b i j ≡ some color = rw (g.0, g.1) own in
        let below : ltb color black ≡ true = rw here at start in
        elim c [ inl z ↦ ground arith | inr z ↦ ground arith ]
    not_yet m own others (suc k) h g =
        apart own (between m others (suc k) p q (omega arith) (omega arith) g)

-- In one direction `can_turn` foresees what `eatline` does.
can_turn-eatline :
    (color dir x y : ℕ) (b : Board)
    → IsBoard b
    → (color ≡ black) ⊎ (color ≡ white)
    → below_black (b x y) ≡ true
    → dir < 8
    → (r : Bool) × (b' : Board) × (can_turn color dir x y b ≡ some r)
      × (eatline color dir x y b ≡ some (r, b'))
      × (r ≡ true → Turned color dir x y b b')
unfolding can_turn eatline Same
can_turn-eatline color dir x y b w c start d =
    let x' = x + dirx dir - 1 in
    let y' = y + diry dir - 1 in
    elim (Option-cases (b x' y')) [
      | inl e ↦ (false, b, rw e refl, rw e refl, λ z. absurd cc)
      | inr (v, e) ↦ elim (Bool-cases (v == invert color)) [
        | inl k ↦
            let l : ltb v black ≡ false = ground arith in
            let k' : (v == color) ≡ false = ground arith in
            let ((a1, a2), (a3, a4)) = inside b x' y' v w e in
            elim (scan-find_end color dir b w d 10 x' y'
              (rounds-lt dir x' y' (omega arith) (omega arith))) [
                | inl (s, f) ↦ (false, b, rw (e, l, k') s, rw (e, k, f) refl, λ z. absurd cc)
                | inr (s, p, q, f) ↦
                    let other : b x' y' ≡ some (invert color) =
                      e ∙ ap some ((==_iff v (invert color)).0 k) in
                    let (b', t, g) = eat_to-ends color dir x y p q b w c start other f in
                    (true, b', rw (e, l, k') s, rw (e, k) t, λ _. g)
              ]
        | inr k ↦ elim (Bool-cases (ltb v black)) [
          | inl l ↦ (false, b, rw (e, l) refl, rw (e, k) refl, λ z. absurd cc)
          | inr l ↦
              let three = w.stones x' y' v e in
              let k' : (v == color) ≡ true = ground arith in
              (false, b, rw (e, l, k') refl, rw (e, k) refl, λ z. absurd cc)
        ]
      ]
    ]

-- The loop over the directions finds one of them.
try_dirs_lem :
    (left dir x y color : ℕ) (b : Board)
    → IsBoard b
    → (color ≡ black) ⊎ (color ≡ white)
    → below_black (b x y) ≡ true
    → dir + left ≤ 8
    → (r : Bool) × (try_dirs left dir x y color b ≡ some r)
      × ((r ≡ true) ↔ (
          (k : ℕ) × (dir ≤ k)
          × (k < dir + left)
          × (b' : Board) × (eatline color k x y b ≡ some (true, b'))
          × Turned color k x y b b'))
unfolding try_dirs
try_dirs_lem zero dir x y color b w c start h =
    (false, refl, ((λ e. absurd cc), λ z. absurd (omega (arith, z.1, z.2))))
try_dirs_lem (suc left) dir x y color b w c start h =
    let (t, b', e, f, turned) = can_turn-eatline color dir x y b w c start (omega arith) in
    elim (Bool-cases t) [
      | inl k ↦
          let e' : can_turn color dir x y b ≡ some true = rw k at e in
          let f' : eatline color dir x y b ≡ some (true, b') = rw k at f in
          (
            true,
            rw (e', try_dirs) refl,
            ((λ _. (dir, omega arith, omega arith, b', f', turned k)), λ _. refl),
          )
      | inr k ↦
          let e' : can_turn color dir x y b ≡ some false = rw k at e in
          let f' : eatline color dir x y b ≡ some (false, b') = rw k at f in
          let (r, g, p) = try_dirs_lem left (suc dir) x y color b w c start (omega arith) in
          (
            r,
            rw (e', try_dirs) g,
            (
              λ z. let (j, l, u, b2, q, g) = p.0 z in (j, omega arith, omega arith, b2, q, g),
              λ z. elim (ℕ_discrete z.0 dir) [
                | yes m ↦
                    let q : eatline color dir x y b ≡ some (true, z.3) = rw m at z.4 in
                    let u : some (false, b') ≡ some (true, z.3) = sym f' ∙ q in absurd cc
                | no m ↦ p.1 (z.0, omega (arith, z.1), omega (arith, z.2), z.3, z.4, z.5)
              ],
            ),
          )
    ]

-- A direction goes to each of the eight squares around a square; the steps have 1 added.
all_directions :
    (dx dy : ℕ)
    → dx ≤ 2
    → dy ≤ 2
    → (dx ≢ 1) ⊎ (dy ≢ 1)
    → (k : ℕ) × (k < 8) × (dirx k ≡ dx) × (diry k ≡ dy)
all_directions zero zero h g n = (0, omega arith, refl, refl)
all_directions zero (suc zero) h g n = (1, omega arith, refl, refl)
all_directions zero (suc (suc zero)) h g n = (2, omega arith, refl, refl)
all_directions (suc zero) zero h g n = (7, omega arith, refl, refl)
all_directions (suc zero) (suc zero) h g n = elim n [
  | inl z ↦ absurd (z refl)
  | inr z ↦ absurd (z refl)
]
all_directions (suc zero) (suc (suc zero)) h g n = (3, omega arith, refl, refl)
all_directions (suc (suc zero)) zero h g n = (6, omega arith, refl, refl)
all_directions (suc (suc zero)) (suc zero) h g n = (5, omega arith, refl, refl)
all_directions (suc (suc zero)) (suc (suc zero)) h g n = (4, omega arith, refl, refl)
all_directions (suc (suc (suc x))) dy h g n = absurd (omega arith)
all_directions zero (suc (suc (suc y))) h g n = absurd (omega arith)
all_directions (suc zero) (suc (suc (suc y))) h g n = absurd (omega arith)
all_directions (suc (suc zero)) (suc (suc (suc y))) h g n = absurd (omega arith)

-- On a board with its edge, for black or white: `if_can_put` and `eatline` end within their rounds.
-- `if_can_put` says yes exactly when no stone stands on the square and `eatline` turns stones from
-- there in one of the eight directions: one stone of the other colour or more lie there up to a stone of the
-- colour, these and the square get the colour, and nothing else changes. The directions lead to all of the
-- eight squares around a square.
pub if_can_put-eatline :
    (x y color : ℕ) (b : Board)
    → IsBoard b
    → (color ≡ black) ⊎ (color ≡ white)
    → (r : Bool) × (if_can_put x y color b ≡ some r)
      × ((r ≡ true) ↔ (
          (below_black (b x y) ≡ true)
          × (k : ℕ) × (k < 8)
          × (b' : Board) × (eatline color k x y b ≡ some (true, b'))
          × Turned color k x y b b'))
      × ((dx dy : ℕ)
          → dx ≤ 2
          → dy ≤ 2
          → (dx ≢ 1) ⊎ (dy ≢ 1)
          → (k : ℕ) × (k < 8) × (dirx k ≡ dx) × (diry k ≡ dy))
unfolding if_can_put
if_can_put-eatline x y color b w c = elim (Bool-cases (below_black (b x y))) [
  | inr k ↦ (false, rw k refl, ((λ z. absurd cc), λ z. absurd cc), all_directions)
  | inl k ↦
      let (r, e, p) = try_dirs_lem 8 0 x y color b w c k (omega arith) in
      (
        r,
        rw k e,
        (
          λ z. let (j, l, u, b', q, g) = p.0 z in (k, j, omega arith, b', q, g),
          λ z. p.1 (z.1, omega arith, omega (arith, z.2), z.3, z.4, z.5),
        ),
        all_directions,
      )
]
