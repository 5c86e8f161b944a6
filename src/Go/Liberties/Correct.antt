-- ===== src/Go/Liberties/Correct.antt =====
-- mbbsd/go.c: what `GO_countlib` counts.
use pttoldstable.Base.{
  ℕ, zero, suc, ◌+◌, ◌<◌, ◌≡◌, ◌≢◌, ◌⊎◌, ◌↔◌, refl, inl, inr, not, ◌&&◌, some, List, [], ◌∷◌, arith,
  ◌==◌, if◌then◌else◌, get_or, length, replicate,
}
use mathlib.Core.Logic.{⊎_elim}
use pttoldstable.Go.{cell, at, bblank, Scan, unmark, go_countlib}
use pttoldstable.Go.Marks.{free, left-replicate, get_or-set_zero, get_or-set_only, cell_injective}
use pttoldstable.Go.Liberties.{On, Group, start, step, Liberty, Off, Closed, Progress}
use pttoldstable.Go.Liberties.Search.{go_count_start}

-- The empty points that lost their mark between two states.
abbrev pub newly : List ℕ → List ℕ → List ℕ → ℕ
newly [] ms ns = 0
newly (g ∷ gs) [] ns = 0
newly (g ∷ gs) (m ∷ ms) [] = (if (g == bblank) && not (m == 0) then 1 else 0) + newly gs ms []
newly (g ∷ gs) (m ∷ ms) (n ∷ ns) =
    (if (g == bblank) && not (m == 0) && (n == 0) then 1 else 0) + newly gs ms ns

free_unmarked : (go ms : List ℕ) → ((i : ℕ) → get_or ms i 0 ≡ 0) → free go ms ≡ 0
free_unmarked [] ms h = refl
free_unmarked (g ∷ gs) [] h = refl
free_unmarked (g ∷ gs) (m ∷ ms) h = ground (arith, h 0, free_unmarked gs ms (λ i. h (suc i)))

free_newly :
    (go ms ns : List ℕ)
    → ((i : ℕ) → get_or ms i 0 ≡ 0 → get_or ns i 0 ≡ 0)
    → free go ms ≡ free go ns + newly go ms ns
free_newly [] ms ns h = omega arith
free_newly (g ∷ gs) [] ns h = omega (arith, free_unmarked (g ∷ gs) ns (λ i. h i refl))
free_newly (g ∷ gs) (m ∷ ms) [] h =
    omega (arith, free_newly gs ms [] (λ i _. refl), free_unmarked gs [] (λ i. refl))
free_newly (g ∷ gs) (m ∷ ms) (n ∷ ns) h = ground (arith, h 0, free_newly gs ms ns (λ i. h (suc i)))

get_or-replicate : (n i : ℕ) → i < n → get_or {A = ℕ} (replicate n 1) i 0 ≡ 1
get_or-replicate zero i h = absurd (omega arith)
get_or-replicate (suc n) zero h = refl
get_or-replicate (suc n) (suc i) h = get_or-replicate n i (omega arith)

-- The marks when the search leaves its first point.
abbrev pub first : ℕ → ℕ → ℕ → Scan
first px py lib = unmark px py (record { marks = replicate 361 1; count = lib })

module _ (go : List ℕ) (color px py : ℕ) (o : On px py) where
  pub first-Off : (lib a b : ℕ) → On a b → Off (first px py lib) a b → (a ≡ px) × (b ≡ py)
  first-Off lib a b k h = elim (get_or-set_only (replicate 361 1) (cell px py) (cell a b) h) [
    | inl z ↦ absurd (omega (arith, get_or-replicate 361 (cell a b) (omega arith)))
    | inr e ↦ cell_injective px py a b o.1 k.1 e
  ]

  -- Every stone of the group was left with all its neighbours seen.
  group_seen :
      (lib : ℕ) (s : Scan)
      → Progress go color px py (first px py lib) s
      → Closed go color px py s px py
      → {a b : ℕ} → Group go color px py a b
      → On a b × Off s a b × Closed go color px py s a b
  group_seen lib s p k start = (o, p.off px py (get_or-set_zero (replicate 361 1) (cell px py)), k)
  group_seen lib s p k (step {x} {y} {a} {b} g j i e) =
      let (_, _, c) = group_seen lib s p k g in
      let off = c a b i j (inr e) in
      (
        i,
        off,
        elim (p.closed a b i (inl e) off) [
          | inr c' ↦ c'
          | inl z ↦ let (ea, eb) = first-Off lib a b i z in rw (ea, eb) k
        ],
      )

  count_newly :
      (lib : ℕ) (s : Scan)
      → Progress go color px py (first px py lib) s
      → s.count ≡ lib + newly go (first px py lib).marks s.marks
  count_newly lib s p =
      let keep : (i : ℕ) → get_or (first px py lib).marks i 0 ≡ 0 → get_or s.marks i 0 ≡ 0 =
        λ i. let e : 0 + i ≡ i = omega arith in rw e at (p.off 0 i) in
      omega (arith, p.total, free_newly go (first px py lib).marks s.marks keep)

-- On a board of 361 points, for a colour other than `bblank` and a point of the board, where `lib` is
-- the count before: the recursion of `GO_countlib` ends within 361 levels. It takes the marks
-- exactly of the group (the point, and the stones of the colour that are connected to it) and of the
-- empty points next to the group; and it adds to `lib` the number of the empty points, other than
-- the first, whose mark it took.
pub go_countlib_lem :
    (go : List ℕ) (color px py lib : ℕ)
    → length go ≡ 361
    → color ≢ bblank
    → On px py
    → (s : Scan) × (go_countlib go color px py lib ≡ some s)
      × ((a b : ℕ) → On a b → Off s a b ↔ (Group go color px py a b ⊎ Liberty go color px py a b))
      × (s.count ≡ lib + newly go (first px py lib).marks s.marks)
unfolding go_countlib
go_countlib_lem go color px py lib n c o =
    let m : at (replicate 361 1) px py ≢ 0 =
      λ z. absurd (omega (arith, get_or-replicate 361 (cell px py) (omega arith))) in
    let (s, r, p, k) =
      go_count_start go color px py c n 360 (record { marks = replicate 361 1; count = lib }) o m
        (omega (arith, left-replicate 361)) in
    (
      s,
      r,
      λ a b i. (
        λ h.
            ⊎_elim
              (λ z.
                let (ea, eb) = first-Off go color px py o lib a b i z in inl (rw (ea, eb) start))
              (λ w. w) (p.sound a b i h),
        ⊎_elim (λ g. (group_seen go color px py o lib s p k g).1)
            (λ w. (group_seen go color px py o lib s p k (w.3.0)).2 a b i w.3.1 (inl w.0)),
      ),
      count_newly go color px py o lib s p,
    )
