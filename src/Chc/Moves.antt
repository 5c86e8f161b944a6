-- ===== src/Chc/Moves.antt =====
-- mbbsd/chc.c: what the moves are that `chc_canmove` allows, in the terms of the game.
use pttoldstable.Base.{
  ℕ, ◌+◌, ◌-◌, ◌/◌, ◌≤◌, ◌<◌, ◌≡◌, ◌≢◌, ◌⊎◌, ◌↔◌, inl, inr, true, false, arith, ℕ_discrete, min,
  max,
}
use pttoldstable.Chc.{
  Rc, Board, dist, king_step, advisor_step, elephant_step, rook_step, horse_step, cannon_step,
  pawn_step, chc_canmove, che_o, che_p, opp, kind_k, kind_a, kind_e, kind_r, kind_h, kind_c, kind_p,
}
use pttoldstable.Chc.Between.{Single, between_row, between_col, between_row_one, between_col_one}

-- The square is empty, or holds a piece of the other colour.
abbrev pub Open : Board → Rc → Rc → Type 0
Open b f t = (b t.r t.c ≡ 0) ⊎ (che_o (b t.r t.c) ≢ che_o (b f.r f.c))

-- Every square strictly between two squares of a line is empty.
abbrev pub ClearRow : Board → Rc → Rc → Type 0
ClearRow b f t = (j : ℕ) → min f.c t.c < j → j < max f.c t.c → b t.r j ≡ 0

abbrev pub ClearCol : Board → Rc → Rc → Type 0
ClearCol b f t = (i : ℕ) → min f.r t.r < i → i < max f.r t.r → b i t.c ≡ 0

-- The palace of the colour `turn`, seen by the player of the colour `my`.
abbrev pub InPalace : ℕ → ℕ → Rc → Type 0
InPalace my turn t = (3 ≤ t.c) × (t.c ≤ 5) × (turn ≡ my → 7 ≤ t.r) × (turn ≡ opp my → t.r ≤ 2)

abbrev pub gap : ℕ → ℕ → ℕ
gap a b = (a - b) + (b - a)

-- One square along a row or a column.
abbrev pub OneStep : Rc → Rc → Type 0
OneStep f t = ((gap f.r t.r ≡ 1) × (f.c ≡ t.c)) ⊎ ((f.r ≡ t.r) × (gap f.c t.c ≡ 1))

abbrev pub KingMove : ℕ → ℕ → Rc → Rc → Type 0
KingMove my turn f t = OneStep f t × InPalace my turn t

abbrev pub AdvisorMove : ℕ → ℕ → Rc → Rc → Type 0
AdvisorMove my turn f t = ((gap f.r t.r ≡ 1) × (gap f.c t.c ≡ 1)) × InPalace my turn t

-- Two squares diagonally over an empty one, on the side of the river of its colour.
abbrev pub ElephantMove : ℕ → ℕ → Board → Rc → Rc → Type 0
ElephantMove my turn b f t =
    ((gap f.r t.r ≡ 2) × (gap f.c t.c ≡ 2))
    × (b ((f.r + t.r) / 2) ((f.c + t.c) / 2) ≡ 0)
    × (turn ≡ my → 5 ≤ t.r)
    × (turn ≡ opp my → t.r ≤ 4)

abbrev pub RookMove : Board → Rc → Rc → Type 0
RookMove b f t =
    ((f.r ≢ t.r) × (f.c ≡ t.c) × ClearCol b f t) ⊎ ((f.r ≡ t.r) × (f.c ≢ t.c) × ClearRow b f t)

-- Two squares along a line whose next square is empty, and one to the side.
abbrev pub HorseMove : Board → Rc → Rc → Type 0
HorseMove b f t =
    ((gap f.r t.r ≡ 2) × (gap f.c t.c ≡ 1) × (b ((f.r + t.r) / 2) f.c ≡ 0))
    ⊎ ((gap f.r t.r ≡ 1) × (gap f.c t.c ≡ 2) × (b f.r ((f.c + t.c) / 2) ≡ 0))

-- To an empty square as a rook, and to an occupied one over exactly one piece that stands
-- strictly between.
abbrev pub CannonMove : Board → Rc → Rc → Type 0
CannonMove b f t =
    ((b t.r t.c ≡ 0) × RookMove b f t)
    ⊎ ((b t.r t.c ≢ 0)
        × (f.r ≢ t.r)
        × (f.c ≡ t.c)
        × Single (min f.r t.r) (max f.r t.r) (λ i. b i t.c))
    ⊎ ((b t.r t.c ≢ 0) × (f.r ≡ t.r) × (f.c ≢ t.c) × Single (min f.c t.c) (max f.c t.c) (b t.r))

-- Never backwards, and sideways only beyond the river.
abbrev pub PawnMove : ℕ → ℕ → Rc → Rc → Type 0
PawnMove my turn f t =
    OneStep f t
    × (turn ≡ my → (t.r ≤ f.r) × (f.c ≢ t.c → t.r ≤ 4))
    × (turn ≡ opp my → (f.r ≤ t.r) × (f.c ≢ t.c → 5 ≤ t.r))

module _ (my turn : ℕ) (b : Board) (f t : Rc) where
  abbrev rd : ℕ
  rd = dist f t false

  abbrev cd : ℕ
  cd = dist f t true

  king_iff : (king_step my turn rd cd t ≡ true) ↔ KingMove my turn f t
  unfolding king_step dist
  king_iff = (
    λ h. (ground arith, (ground arith, ground arith, λ e. ground arith, λ e. ground arith)),
    λ h. ground arith,
  )

  advisor_iff : (advisor_step my turn rd cd t ≡ true) ↔ AdvisorMove my turn f t
  unfolding advisor_step dist
  advisor_iff = (λ h. ground arith, λ h. ground arith)

  elephant_iff : (elephant_step my turn rd cd b f t ≡ true) ↔ ElephantMove my turn b f t
  unfolding elephant_step dist
  elephant_iff = (λ h. ground arith, λ h. ground arith)

  horse_iff : (horse_step rd cd b f t ≡ true) ↔ HorseMove b f t
  unfolding horse_step dist
  horse_iff = (λ h. ground arith, λ h. ground arith)

  pawn_iff : (pawn_step my turn rd cd f t ≡ true) ↔ PawnMove my turn f t
  unfolding pawn_step dist
  pawn_iff = (λ h. ground arith, λ h. ground arith)

  rook_iff : (rook_step rd cd b f t ≡ true) ↔ RookMove b f t
  unfolding rook_step dist
  rook_iff = (
    λ h. elim (ℕ_discrete f.r t.r) [
      | yes e ↦ inr (e, ground arith, (between_row b f t).0 (ground arith))
      | no e ↦ inl (e, ground arith, (between_col b f t).0 (ground arith))
    ],
    elim [
      | inl (e, c, h) ↦ let z = (between_col b f t).1 h in ground arith
      | inr (e, c, h) ↦ let z = (between_row b f t).1 h in ground arith
    ],
  )

  cannon_iff : (cannon_step rd cd b f t ≡ true) ↔ CannonMove b f t
  unfolding cannon_step dist
  cannon_iff = (
    λ h. elim (ℕ_discrete (b t.r t.c) 0) [
      | yes z ↦ elim (ℕ_discrete f.r t.r) [
        | yes e ↦ inl (z, inr (e, ground arith, (between_row b f t).0 (ground arith)))
        | no e ↦ inl (z, inl (e, ground arith, (between_col b f t).0 (ground arith)))
      ]
      | no z ↦ elim (ℕ_discrete f.r t.r) [
        | yes e ↦ inr (inr (z, e, ground arith, (between_row_one b f t).0 (ground arith)))
        | no e ↦ inr (inl (z, e, ground arith, (between_col_one b f t).0 (ground arith)))
      ]
    ],
    elim [
      | inl (z, inl (e, c, h)) ↦ let k = (between_col b f t).1 h in ground arith
      | inl (z, inr (e, c, h)) ↦ let k = (between_row b f t).1 h in ground arith
      | inr (inl (z, e, c, h)) ↦ let k = (between_col_one b f t).1 h in ground arith
      | inr (inr (z, e, c, h)) ↦ let k = (between_row_one b f t).1 h in ground arith
    ],
  )

-- What the game allows a piece of each kind to do.
abbrev pub Legal : ℕ → Board → Rc → Rc → Type 0
Legal my b f t =
    let p = che_p (b f.r f.c) in
    let turn = che_o (b f.r f.c) in
    Open b f t
    × (p ≡ kind_k → KingMove my turn f t)
    × (p ≡ kind_a → AdvisorMove my turn f t)
    × (p ≡ kind_e → ElephantMove my turn b f t)
    × (p ≡ kind_r → RookMove b f t)
    × (p ≡ kind_h → HorseMove b f t)
    × (p ≡ kind_c → CannonMove b f t)
    × (p ≡ kind_p → PawnMove my turn f t)

module _ (my : ℕ) (b : Board) (f t : Rc) where
  abbrev turn : ℕ
  turn = che_o (b f.r f.c)

  abbrev kind : ℕ
  kind = che_p (b f.r f.c)

  -- The switch, by its cases.
  switch_to :
      chc_canmove my b f t ≡ true
      → Open b f t
        × (kind ≡ kind_k → king_step my turn (dist f t false) (dist f t true) t ≡ true)
        × (kind ≡ kind_a → advisor_step my turn (dist f t false) (dist f t true) t ≡ true)
        × (kind ≡ kind_e → elephant_step my turn (dist f t false) (dist f t true) b f t ≡ true)
        × (kind ≡ kind_r → rook_step (dist f t false) (dist f t true) b f t ≡ true)
        × (kind ≡ kind_h → horse_step (dist f t false) (dist f t true) b f t ≡ true)
        × (kind ≡ kind_c → cannon_step (dist f t false) (dist f t true) b f t ≡ true)
        × (kind ≡ kind_p → pawn_step my turn (dist f t false) (dist f t true) f t ≡ true)
  unfolding chc_canmove
  switch_to h = (
    ground arith,
    λ e. ground arith,
    λ e. ground arith,
    λ e. ground arith,
    λ e. ground arith,
    λ e. ground arith,
    λ e. ground arith,
    λ e. ground arith,
  )

  switch_from :
      Open b f t
      → (kind ≡ kind_k → king_step my turn (dist f t false) (dist f t true) t ≡ true)
      → (kind ≡ kind_a → advisor_step my turn (dist f t false) (dist f t true) t ≡ true)
      → (kind ≡ kind_e → elephant_step my turn (dist f t false) (dist f t true) b f t ≡ true)
      → (kind ≡ kind_r → rook_step (dist f t false) (dist f t true) b f t ≡ true)
      → (kind ≡ kind_h → horse_step (dist f t false) (dist f t true) b f t ≡ true)
      → (kind ≡ kind_c → cannon_step (dist f t false) (dist f t true) b f t ≡ true)
      → (kind ≡ kind_p → pawn_step my turn (dist f t false) (dist f t true) f t ≡ true)
      → chc_canmove my b f t ≡ true
  unfolding chc_canmove
  switch_from o k a e r h c p = ground arith

  -- `chc_canmove` allows exactly the legal moves of the piece that stands on the first square.
  pub chc_canmove_iff : (chc_canmove my b f t ≡ true) ↔ Legal my b f t
  chc_canmove_iff = (
    λ h.
        let s = switch_to h in
        (
          s.0,
          λ e. (king_iff my turn b f t).0 (s.1 e),
          λ e. (advisor_iff my turn b f t).0 (s.2 e),
          λ e. (elephant_iff my turn b f t).0 (s.3 e),
          λ e. (rook_iff my turn b f t).0 (s.4 e),
          λ e. (horse_iff my turn b f t).0 (s.5 e),
          λ e. (cannon_iff my turn b f t).0 (s.6 e),
          λ e. (pawn_iff my turn b f t).0 (s.7 e),
        ),
    λ l.
        switch_from l.0 (λ e. (king_iff my turn b f t).1 (l.1 e))
          (λ e. (advisor_iff my turn b f t).1 (l.2 e)) (λ e. (elephant_iff my turn b f t).1 (l.3 e))
          (λ e. (rook_iff my turn b f t).1 (l.4 e)) (λ e. (horse_iff my turn b f t).1 (l.5 e))
          (λ e. (cannon_iff my turn b f t).1 (l.6 e)) (λ e. (pawn_iff my turn b f t).1 (l.7 e)),
  )
