-- ===== src/Othello/Moves.antt =====
-- mbbsd/othello.c: `if_can_put` allows the moves by which `eatline` turns stones.
use pttoldstable.Base.{
  ℕ, zero, suc, ◌+◌, ◌-◌, ◌≤◌, ◌<◌, ◌≡◌, ◌⊎◌, refl, inl, inr, true, false, none, some, arith, ltb,
  ◌==◌, if◌then◌else◌, Bool-cases, Option-cases, dec_le,
}
use pttoldstable.Othello.{Board, black, dirx, diry, fails, ends, find_end, scan}

-- Stones and hints on the squares 1 to 8, the edge around them.
pub record IsBoard (b : Board) : Type 0 where
  pub edge : (x y : ℕ) → ((x ≡ 0) ⊎ (9 ≤ x)) ⊎ ((y ≡ 0) ⊎ (9 ≤ y)) → b x y ≡ none
  pub stones : (x y v : ℕ) → b x y ≡ some v → v ≤ 3

-- How many steps the edge is away at most.
unfoldable pub rounds : ℕ → ℕ → ℕ → ℕ → ℕ
rounds dx dy x y = if dx == 0 then x else if dx == 2 then 9 - x else if dy == 0 then y else 9 - y

pub dirs_lem :
    (dir : ℕ) → dir < 8 → ((dirx dir ≡ 0) ⊎ (dirx dir ≡ 2)) ⊎ ((diry dir ≡ 0) ⊎ (diry dir ≡ 2))
dirs_lem zero h = inl (inl refl)
dirs_lem (suc zero) h = inl (inl refl)
dirs_lem (suc (suc zero)) h = inl (inl refl)
dirs_lem (suc (suc (suc zero))) h = inr (inr refl)
dirs_lem (suc (suc (suc (suc zero)))) h = inl (inr refl)
dirs_lem (suc (suc (suc (suc (suc zero))))) h = inl (inr refl)
dirs_lem (suc (suc (suc (suc (suc (suc zero)))))) h = inl (inr refl)
dirs_lem (suc (suc (suc (suc (suc (suc (suc zero))))))) h = inr (inl refl)
dirs_lem (suc (suc (suc (suc (suc (suc (suc (suc n)))))))) h = absurd (omega arith)

pub rounds_step :
    (dx dy x y : ℕ)
    → ((dx ≡ 0) ⊎ (dx ≡ 2)) ⊎ ((dy ≡ 0) ⊎ (dy ≡ 2))
    → 1 ≤ x + dx - 1
    → x + dx - 1 ≤ 8
    → 1 ≤ y + dy - 1
    → y + dy - 1 ≤ 8
    → rounds dx dy (x + dx - 1) (y + dy - 1) < rounds dx dy x y
unfolding rounds
rounds_step dx dy x y d a b c e = ground arith

pub inside :
    (b : Board) (x y v : ℕ) → IsBoard b → b x y ≡ some v → ((1 ≤ x) × (x ≤ 8)) × ((1 ≤ y) × (y ≤ 8))
inside b x y v w e = elim (dec_le 1 x) [
  | no h ↦ let z = w.edge x y (inl (inl (omega arith))) in absurd cc
  | yes h1 ↦ elim (dec_le x 8) [
    | no h ↦ let z = w.edge x y (inl (inr (omega arith))) in absurd cc
    | yes h2 ↦ elim (dec_le 1 y) [
      | no h ↦ let z = w.edge x y (inr (inl (omega arith))) in absurd cc
      | yes h3 ↦ elim (dec_le y 8) [
        | no h ↦ let z = w.edge x y (inr (inr (omega arith))) in absurd cc
        | yes h4 ↦ ((h1, h2), (h3, h4))
      ]
    ]
  ]
]

module _ (color dir : ℕ) (b : Board) (w : IsBoard b) (d : dir < 8) where
  -- Both scans find an end, or neither does.
  unfoldable pub Same : ℕ → ℕ → ℕ → Type 0
  Same fuel x y =
      (scan color dir fuel x y b ≡ some false)
        × (find_end color dir fuel (x + dirx dir - 1) (y + diry dir - 1) b ≡ fails)
      ⊎ ((scan color dir fuel x y b ≡ some true)
          × (p : ℕ) × (q : ℕ) × (find_end color dir fuel (x + dirx dir - 1) (y + diry dir - 1) b
              ≡ ends p q))

  pub scan-find_end : (fuel x y : ℕ) → rounds (dirx dir) (diry dir) x y < fuel → Same fuel x y
  unfolding Same scan find_end
  scan-find_end zero x y h = absurd (omega arith)
  scan-find_end (suc fuel) x y h =
      let x' = x + dirx dir - 1 in
      let y' = y + diry dir - 1 in
      elim (Option-cases (b x' y')) [
        | inl e ↦ inl (rw e refl, rw e refl)
        | inr (v, e) ↦ elim (Bool-cases (ltb v black)) [
          | inl l ↦ inl (rw (e, l) refl, rw (e, l) refl)
          | inr l ↦ elim (Bool-cases (v == color)) [
            | inl k ↦ inr (rw (e, l, k) refl, x', y', rw (e, l, k) refl)
            | inr k ↦
                let ((a1, a2), (a3, a4)) = inside b x' y' v w e in
                let less = rounds_step (dirx dir) (diry dir) x y (dirs_lem dir d) a1 a2 a3 a4 in
                rw (e, l, k) (scan-find_end fuel x' y' (omega arith))
          ]
        ]
      ]
