-- ===== src/Chc/Check.antt =====
-- mbbsd/chc.c: the king that is found, and check as the threat of a legal move.
use pttoldstable.Base.{
  ℕ, zero, suc, ◌+◌, ◌≤◌, ◌<◌, ◌≡◌, ◌≢◌, ◌↔◌, inl, inr, refl, Bool, true, false, arith, ◌==◌,
  if◌then◌else◌, Bool-cases, none, some, Option-cases, ℕ_discrete,
}
use pttoldstable.Chc.{Rc, Board, chc_canmove, between, che_o, che_p, opp, kind_k, red, blk}
use pttoldstable.Chc.King.{
  find_col, find_row, findking, chc_iskfk, attack_col, attack_row, chc_ischeck,
}
use pttoldstable.Chc.Rotate.{OnBoard}
use pttoldstable.Chc.Moves.{ClearCol}
use pttoldstable.Chc.Between.{between_col}

abbrev pub KingAt : Board → ℕ → ℕ → ℕ → Type 0
KingAt b turn r c = (che_p (b r c) ≡ kind_k) × (che_o (b r c) ≡ turn)

record Found (b : Board) (turn lo hi : ℕ) (p : Rc) : Type 0 where
  king : KingAt b turn p.r p.c
  row_lo : lo ≤ p.r
  row_hi : p.r < hi
  col_lo : 3 ≤ p.c
  col_hi : p.c ≤ 5

find_col-some :
    (k : ℕ) (b : Board) (turn r c : ℕ) (p : Rc)
    → find_col k b turn r c ≡ some p
    → KingAt b turn p.r p.c × (p.r ≡ r) × (c ≤ p.c) × (p.c < c + k)
unfolding find_col
find_col-some zero b turn r c p h = cc
find_col-some (suc k) b turn r c p h = ground (arith, find_col-some k b turn r (c + 1) p)

find_col-none :
    (k : ℕ) (b : Board) (turn r c : ℕ)
    → find_col k b turn r c ≡ none
    → (j : ℕ) → c ≤ j
    → j < c + k
    → ¬ (KingAt b turn r j)
unfolding find_col
find_col-none zero b turn r c h j lo hi = absurd (omega arith)
find_col-none (suc k) b turn r c h j lo hi = elim (ℕ_discrete c j) [
  | yes e ↦ λ q. ground arith
  | no e ↦ find_col-none k b turn r (c + 1) (ground arith) j (omega arith) (omega arith)
]

find_row-some :
    (k : ℕ) (b : Board) (turn r : ℕ) (p : Rc)
    → find_row k b turn r ≡ some p
    → Found b turn r (r + k) p
unfolding find_row
find_row-some zero b turn r p h = cc
find_row-some (suc k) b turn r p h = elim (Option-cases (find_col 3 b turn r 3)) [
  | inl e ↦ ground (arith, find_row-some k b turn (r + 1) p)
  | inr (q, e) ↦ ground (arith, find_col-some 3 b turn r 3 q e)
]

find_row-none :
    (k : ℕ) (b : Board) (turn r : ℕ)
    → find_row k b turn r ≡ none
    → (i j : ℕ) → r ≤ i
    → i < r + k
    → 3 ≤ j
    → j ≤ 5
    → ¬ (KingAt b turn i j)
unfolding find_row
find_row-none zero b turn r h i j lo hi cl ch = absurd (omega arith)
find_row-none (suc k) b turn r h i j lo hi cl ch = elim (Option-cases (find_col 3 b turn r 3)) [
  | inr (q, e) ↦ absurd (ground (arith, e))
  | inl e ↦ elim (ℕ_discrete r i) [
    | yes p ↦ rw (← p) (find_col-none 3 b turn r 3 e j cl (omega arith))
    | no p ↦
        find_row-none k b turn (r + 1) (ground (arith, e)) i j (omega arith) (omega arith) cl ch
  ]
]

-- `findking` returns only a king of the colour inside its palace, and finds one if there is one.
pub findking_lem :
    (my : ℕ) (b : Board) (turn : ℕ)
    → let lo : ℕ = if turn == opp my then 0 else 7 in
      ((p : Rc)
        → findking my b turn ≡ some p
        → KingAt b turn p.r p.c × (lo ≤ p.r) × (p.r ≤ lo + 2) × (3 ≤ p.c) × (p.c ≤ 5))
      × (findking my b turn ≡ none
          → (i j : ℕ) → lo ≤ i
          → i ≤ lo + 2
          → 3 ≤ j
          → j ≤ 5
          → ¬ (KingAt b turn i j))
unfolding findking
findking_lem my b turn =
    let lo : ℕ = if turn == opp my then 0 else 7 in
    (
      λ p e.
          let f = find_row-some 3 b turn lo p e in
          (f.king, f.row_lo, omega (arith, f.row_hi), f.col_lo, f.col_hi),
      λ e i j l h. find_row-none 3 b turn lo e i j l (omega arith),
    )

-- A piece of the other colour that may move to the square `to`.
abbrev pub Threat : ℕ → Board → ℕ → Rc → Rc → Type 0
Threat my b turn to f =
    (b f.r f.c ≢ 0) × (che_o (b f.r f.c) ≢ turn) × (chc_canmove my b f to ≡ true)

if_same : (x : Bool) → (if x then true else true) ≡ true
if_same true = refl
if_same false = refl

module _ (my : ℕ) (b : Board) (turn : ℕ) (to : Rc) where
  attack_col_sound :
      (k r c : ℕ)
      → attack_col k my b turn to r c ≡ true
      → (j : ℕ) × (j < c + k) × Threat my b turn to (record { r = r; c = j })
  unfolding attack_col
  attack_col_sound zero r c h = cc
  attack_col_sound (suc k) r c h = elim (Bool-cases (attack_col k my b turn to r (c + 1))) [
    | inl e ↦ let (j, lt, th) = attack_col_sound k r (c + 1) e in (j, omega arith, th)
    | inr e ↦ (c, omega arith, (ground arith, ground arith, ground arith))
  ]

  attack_col_complete :
      (k r c j : ℕ)
      → c ≤ j
      → j < c + k
      → Threat my b turn to (record { r = r; c = j })
      → attack_col k my b turn to r c ≡ true
  unfolding attack_col
  attack_col_complete zero r c j lo hi th = absurd (omega arith)
  attack_col_complete (suc k) r c j lo hi th = elim (ℕ_discrete c j) [
    | yes e ↦ rw e (ground (arith, th))
    | no e ↦
        let rest = attack_col_complete k r (c + 1) j (omega arith) (omega arith) th in
        rw rest (ground arith)
  ]

  attack_row_sound :
      (k r : ℕ)
      → attack_row k my b turn to r ≡ true
      → (i j : ℕ) × (i < r + k) × (j < 9) × Threat my b turn to (record { r = i; c = j })
  unfolding attack_row
  attack_row_sound zero r h = cc
  attack_row_sound (suc k) r h = elim (Bool-cases (attack_col 9 my b turn to r 0)) [
    | inl e ↦ let (j, lt, th) = attack_col_sound 9 r 0 e in (r, j, omega arith, omega arith, th)
    | inr e ↦
        let (i, j, lt, lt', th) = attack_row_sound k (r + 1) (rw e at h) in
        (i, j, omega arith, lt', th)
  ]

  attack_row_complete :
      (k r i j : ℕ)
      → r ≤ i
      → i < r + k
      → j < 9
      → Threat my b turn to (record { r = i; c = j })
      → attack_row k my b turn to r ≡ true
  unfolding attack_row
  attack_row_complete zero r i j lo hi c th = absurd (omega arith)
  attack_row_complete (suc k) r i j lo hi c th = elim (ℕ_discrete r i) [
    | yes e ↦ rw (e, attack_col_complete 9 i 0 j (omega arith) (omega arith) th)
    | no e ↦
        rw (attack_row_complete k (r + 1) i j (omega arith) (omega arith) c th)
          (if_same (attack_col 9 my b turn to r 0))
  ]

  -- With a king found, check is that some piece of the other colour on the board may take it.
  pub chc_ischeck_iff :
      findking my b turn ≡ some to
      → (chc_ischeck my b turn ≡ some true) ↔ ((f : Rc) × OnBoard f × Threat my b turn to f)
  unfolding chc_ischeck
  chc_ischeck_iff found = (
    λ h.
        let (i, j, li, lj, th) = attack_row_sound 10 0 (ground (arith, found)) in
        (record { r = i; c = j }, record { row = omega arith; col = omega arith }, th),
    λ (f, o, th). rw (
      found,
      chc_ischeck,
      attack_row_complete 10 0 f.r f.c (omega arith) (omega (arith, o.row)) (omega (arith, o.col))
          th,
    ),
  )

-- With both kings found, they face one another exactly when they stand in one column with nothing
-- between them.
pub chc_iskfk_iff :
    (my : ℕ) (b : Board) (f t : Rc)
    → findking my b red ≡ some f
    → findking my b blk ≡ some t
    → (chc_iskfk my b ≡ some true) ↔ ((f.c ≡ t.c) × ClearCol b f t)
unfolding chc_iskfk
chc_iskfk_iff my b f t hf ht = (
  λ h. let s = faced h in (s.0, (between_col b f t).0 s.1),
  λ (e, c). let z = (between_col b f t).1 c in rw (ht, hf, chc_iskfk) (ground arith),
)
  where
    faced : chc_iskfk my b ≡ some true → (f.c ≡ t.c) × (between b f t false ≡ 0)
    faced h = ground (arith, hf, ht)
