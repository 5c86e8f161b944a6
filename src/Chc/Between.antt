-- ===== src/Chc/Between.antt =====
-- mbbsd/chc.c: `dist` and `between`, which the rules of the pieces rest on.
use pttoldstable.Base.{
  ℕ, zero, suc, ◌+◌, ◌-◌, ◌≤◌, ◌<◌, ◌≡◌, ◌≢◌, ◌↔◌, refl, ap, sym, ==_iff, ◌∙◌, arith, ◌==◌,
  if◌then◌else◌, ℕ_discrete, dec_lt, min, max, Bool-cases, true, false, ltb, inl, inr,
}
use pttoldstable.Chc.{Rc, Board, between, count_pieces, count_open}

-- 1 for an occupied square.
abbrev pub occupied : ℕ → ℕ
occupied p = if p == 0 then 0 else 1

pub count_pieces-suc :
    (k i : ℕ) (f : ℕ → ℕ) → count_pieces (suc k) i f ≡ count_pieces k i f + occupied (f (i + k))
unfolding count_pieces
count_pieces-suc zero i f = let e : i + 0 ≡ i = omega arith in rw e (omega arith)
count_pieces-suc (suc k) i f =
    let e : i + 1 + k ≡ i + suc k = omega arith in
    omega (arith, rw e at (count_pieces-suc k (i + 1) f))

-- Counting a stretch from its other end.
count_pieces-flip :
    (m k i : ℕ) (f : ℕ → ℕ)
    → i + k ≤ m + 1
    → count_pieces k (m + 1 - (i + k)) (λ j. f (m - j)) ≡ count_pieces k i f
unfolding count_pieces
count_pieces-flip m zero i f h = refl
count_pieces-flip m (suc k) i f h =
    let e : m + 1 - (i + suc k) ≡ m + 1 - (i + 1 + k) = omega arith in
    let g : m - (m + 1 - (i + 1 + k) + k) ≡ i = omega arith in
    count_pieces-suc k (m + 1 - (i + suc k)) (λ j. f (m - j))
    ∙ rw (e, g) (omega (arith, count_pieces-flip m k (i + 1) f (omega arith)))

pub count_open-flip :
    (m lo hi : ℕ) (f : ℕ → ℕ)
    → lo ≤ hi
    → hi ≤ m
    → count_open (m - hi) (m - lo) (λ j. f (m - j)) ≡ count_open lo hi f
unfolding count_open
count_open-flip m lo hi f h k = elim (dec_lt lo hi) [
  | yes p ↦
      let e : m - lo - (m - hi + 1) ≡ hi - (lo + 1) = omega arith in
      let s : m - hi + 1 ≡ m + 1 - (lo + 1 + (hi - (lo + 1))) = omega arith in
      rw (e, s) (count_pieces-flip m (hi - (lo + 1)) (lo + 1) f (omega arith))
  | no p ↦
      let e : m - lo - (m - hi + 1) ≡ 0 = omega arith in
      let s : hi - (lo + 1) ≡ 0 = omega arith in rw (e, s, count_pieces)
]

-- Nothing stands in a stretch exactly when each of its squares is empty.
pub count_pieces-zero :
    (k i : ℕ) (f : ℕ → ℕ) → (count_pieces k i f ≡ 0) ↔ ((j : ℕ) → i ≤ j → j < i + k → f j ≡ 0)
unfolding count_pieces
count_pieces-zero k i f = (to k i, from k i)
  where
    to : (k i : ℕ) → count_pieces k i f ≡ 0 → (j : ℕ) → i ≤ j → j < i + k → f j ≡ 0
    to zero i e j h l = absurd (omega arith)
    to (suc k) i e j h l = elim (ℕ_discrete i j) [
      | yes p ↦ rw (← p) (ground arith)
      | no p ↦ to k (i + 1) (ground arith) j (omega arith) (omega arith)
    ]

    from : (k i : ℕ) → ((j : ℕ) → i ≤ j → j < i + k → f j ≡ 0) → count_pieces k i f ≡ 0
    from zero i h = refl
    from (suc k) i h =
        let first = h i (omega arith) (omega arith) in
        let rest = from k (i + 1) (λ j a b. h j (omega arith) (omega arith)) in
        ground (arith, first, rest)

-- Exactly one of the squares strictly between two places is occupied.
abbrev pub Single : ℕ → ℕ → (ℕ → ℕ) → Type 0
Single lo hi f =
    (j : ℕ) × (lo < j) × (j < hi) × (f j ≢ 0) × ((i : ℕ) → lo < i → i < hi → i ≢ j → f i ≡ 0)

pub count_pieces-one :
    (k i : ℕ) (f : ℕ → ℕ)
    → (count_pieces k i f ≡ 1) ↔ (
        (j : ℕ) × (i ≤ j)
        × (j < i + k)
        × (f j ≢ 0)
        × ((x : ℕ) → i ≤ x → x < i + k → x ≢ j → f x ≡ 0))
unfolding count_pieces
count_pieces-one zero i f = (λ e. ground arith, λ h. ground arith)
count_pieces-one (suc k) i f = elim (ℕ_discrete (f i) 0) [
  | yes e ↦
      let t : f i == 0 ≡ true = (==_iff (f i) 0).1 e in
      let (p, q) = count_pieces-one k (i + 1) f in
      rw t (
        λ c.
            let (j, l, u, n, o) = p (omega arith) in
            (
              j,
              omega arith,
              omega arith,
              n,
              λ x a b d. elim (ℕ_discrete i x) [
                | yes w ↦ rw (← w) e
                | no w ↦ o x (omega arith) (omega arith) d
              ],
            ),
        λ h.
            let (j, l, u, n, o) = h in
            let ne : i ≢ j = λ w. n (ap f (sym w) ∙ e) in
            let c =
              q (j, omega arith, omega arith, n, λ x a b d. o x (omega arith) (omega arith) d) in
            omega arith,
      )
  | no e ↦
      let t : f i == 0 ≡ false = ground (arith, e) in
      let (p, q) = count_pieces-zero k (i + 1) f in
      rw t (
        λ c.
            let z = p (omega arith) in
            (i, omega arith, omega arith, e, λ x a b d. z x (omega arith) (omega arith)),
        λ h.
            let (j, l, u, n, o) = h in
            let same : i ≡ j = elim (ℕ_discrete i j) [
              | yes w ↦ w
              | no w ↦ absurd (e (o i (omega arith) (omega arith) w))
            ] in
            let c = q (λ x a b. o x (omega arith) (omega arith) (omega arith)) in omega arith,
      )
]

count_open-one : (lo hi : ℕ) (f : ℕ → ℕ) → (count_open lo hi f ≡ 1) ↔ Single lo hi f
unfolding count_open
count_open-one lo hi f =
    let (p, q) = count_pieces-one (hi - (lo + 1)) (lo + 1) f in
    (
      λ e.
          let (j, l, u, n, o) = p e in
          (j, omega arith, omega arith, n, λ i a b d. o i (omega arith) (omega arith) d),
      λ h.
          let (j, l, u, n, o) = h in
          q (j, omega arith, omega arith, n, λ i a b d. o i (omega arith) (omega arith) d),
    )

module _ (b : Board) (f t : Rc) where
  -- `between` is 1 exactly when one square strictly between the two is occupied.
  pub between_row_one : (between b f t true ≡ 1) ↔ Single (min f.c t.c) (max f.c t.c) (b t.r)
  unfolding between
  between_row_one = elim (Bool-cases (ltb t.c f.c)) [
    | inl back ↦
        let m : min f.c t.c ≡ t.c = ground arith in
        let n : max f.c t.c ≡ f.c = ground arith in rw (back, m, n) (count_open-one t.c f.c (b t.r))
    | inr on ↦
        let m : min f.c t.c ≡ f.c = ground arith in
        let n : max f.c t.c ≡ t.c = ground arith in rw (on, m, n) (count_open-one f.c t.c (b t.r))
  ]

  pub between_col_one :
      (between b f t false ≡ 1) ↔ Single (min f.r t.r) (max f.r t.r) (λ i. b i t.c)
  unfolding between
  between_col_one = elim (Bool-cases (ltb t.r f.r)) [
    | inl back ↦
        let m : min f.r t.r ≡ t.r = ground arith in
        let n : max f.r t.r ≡ f.r = ground arith in
        rw (back, m, n) (count_open-one t.r f.r (λ i. b i t.c))
    | inr on ↦
        let m : min f.r t.r ≡ f.r = ground arith in
        let n : max f.r t.r ≡ t.r = ground arith in
        rw (on, m, n) (count_open-one f.r t.r (λ i. b i t.c))
  ]

  -- `between` along a row is 0 exactly when each square strictly between the two is empty.
  pub between_row :
      (between b f t true ≡ 0) ↔ ((j : ℕ) → min f.c t.c < j → j < max f.c t.c → b t.r j ≡ 0)
  unfolding between
  between_row = elim (Bool-cases (ltb t.c f.c)) [
    | inl back ↦
        let z = count_pieces-zero (f.c - (t.c + 1)) (t.c + 1) (b t.r) in
        rw back (
          (λ e j l u. z.0 e j (ground arith) (ground arith)),
          λ h. z.1 (λ j l u. h j (ground arith) (ground arith)),
        )
    | inr on ↦
        let z = count_pieces-zero (t.c - (f.c + 1)) (f.c + 1) (b t.r) in
        rw on (
          (λ e j l u. z.0 e j (ground arith) (ground arith)),
          λ h. z.1 (λ j l u. h j (ground arith) (ground arith)),
        )
  ]

  pub between_col :
      (between b f t false ≡ 0) ↔ ((i : ℕ) → min f.r t.r < i → i < max f.r t.r → b i t.c ≡ 0)
  unfolding between
  between_col = elim (Bool-cases (ltb t.r f.r)) [
    | inl back ↦
        let z = count_pieces-zero (f.r - (t.r + 1)) (t.r + 1) (λ i. b i t.c) in
        rw back (
          (λ e j l u. z.0 e j (ground arith) (ground arith)),
          λ h. z.1 (λ j l u. h j (ground arith) (ground arith)),
        )
    | inr on ↦
        let z = count_pieces-zero (t.r - (f.r + 1)) (f.r + 1) (λ i. b i t.c) in
        rw on (
          (λ e j l u. z.0 e j (ground arith) (ground arith)),
          λ h. z.1 (λ j l u. h j (ground arith) (ground arith)),
        )
  ]
