-- ===== src/Go/Liberties.antt =====
-- mbbsd/go.c: the search for liberties against the group of stones that a point belongs to.
pub mod Search
pub mod Correct
use pttoldstable.Base.{
  ℕ, zero, suc, ◌+◌, ◌*◌, ◌≤◌, ◌<◌, ◌≡◌, ◌≢◌, ◌⊎◌, refl, ap, sym, ◌∙◌, inl, inr, Bool, true, false,
  not, ◌&&◌, List, arith, ◌==◌, if◌then◌else◌, get_or, set, length, ℕ_discrete,
}
use mathlib.Core.Logic.{⊎_elim}
use pttoldstable.Go.{cell, at, bblank, Scan, unmark}
use pttoldstable.Go.Marks.{
  left, free, get_or-set_zero, get_or-set_keeps, get_or-set_only, left-set, free-set,
  cell_injective,
}

abbrev pub On : ℕ → ℕ → Type 0
On x y = (x < 19) × (y < 19)

-- The point `(a, b)` is next to `(x, y)`.
abbrev pub Next : ℕ → ℕ → ℕ → ℕ → Type 0
Next x y a b =
    ((a + 1 ≡ x) × (b ≡ y))
    ⊎ ((a ≡ x + 1) × (b ≡ y))
    ⊎ ((a ≡ x) × (b + 1 ≡ y))
    ⊎ ((a ≡ x) × (b ≡ y + 1))

-- The stones of a colour that are connected to `(px, py)`, which itself counts as one of them.
pub data Group (go : List ℕ) (color px py : ℕ) : ℕ → ℕ → Type 0 where
  start : Group go color px py px py
  step :
      {x y a b : ℕ}
      → Group go color px py x y
      → Next x y a b
      → On a b
      → at go a b ≡ color
      → Group go color px py a b

-- An empty point next to the group.
abbrev pub Liberty : List ℕ → ℕ → ℕ → ℕ → ℕ → ℕ → Type 0
Liberty go color px py a b =
    (at go a b ≡ bblank) × (x : ℕ) × (y : ℕ) × (Group go color px py x y × Next x y a b)

abbrev pub Off : Scan → ℕ → ℕ → Type 0
Off s x y = at s.marks x y ≡ 0

module _ (go : List ℕ) (color px py : ℕ) where
  abbrev pub Open : ℕ → ℕ → Type 0
  Open a b = (at go a b ≡ bblank) ⊎ (at go a b ≡ color)

  abbrev pub Stone : ℕ → ℕ → Type 0
  Stone a b = (at go a b ≡ color) ⊎ ((a ≡ px) × (b ≡ py))

  -- All neighbours that the search looks for have been seen.
  abbrev pub Closed : Scan → ℕ → ℕ → Type 0
  Closed s x y = (a b : ℕ) → On a b → Next x y a b → Open a b → Off s a b

  -- What a part of the search does to the marks and the count.
  pub record Progress (s s' : Scan) : Type 0 where
    pub off : (a b : ℕ) → Off s a b → Off s' a b
    pub sound :
        (a b : ℕ)
        → On a b
        → Off s' a b
        → Off s a b ⊎ (Group go color px py a b ⊎ Liberty go color px py a b)
    pub closed : (x y : ℕ) → On x y → Stone x y → Off s' x y → Off s x y ⊎ Closed s' x y
    pub total : s'.count + free go s'.marks ≡ s.count + free go s.marks
    pub fewer : left s'.marks ≤ left s.marks

  pub Progress-refl : (s : Scan) → Progress s s
  Progress-refl s = record {
    off = λ a b h. h;
    sound = λ a b n h. inl h;
    closed = λ a b n t h. inl h;
    total = refl;
    fewer = omega arith;
  }

  pub Progress-trans : (s t u : Scan) → Progress s t → Progress t u → Progress s u
  Progress-trans s t u p q = record {
    off = λ a b h. q.off a b (p.off a b h);
    sound = λ a b n h. ⊎_elim (λ m. p.sound a b n m) inr (q.sound a b n h);
    closed = λ x y n e h.
        ⊎_elim
          (λ m. ⊎_elim inl (λ c. inr (λ a b k j o. q.off a b (c a b k j o))) (p.closed x y n e m))
          inr (q.closed x y n e h);
    total = omega (arith, p.total, q.total);
    fewer = omega (arith, p.fewer, q.fewer);
  }

  -- A liberty is counted.
  pub Progress-Liberty :
      (s : Scan) (a b : ℕ)
      → color ≢ bblank
      → length go ≡ 361
      → On a b
      → Liberty go color px py a b
      → Off s px py
      → at s.marks a b ≢ 0
      → Progress s (record (unmark a b s) { count = s.count + 1 })
  Progress-Liberty s a b c n on lib p m = record {
    off = λ x y h. get_or-set_keeps s.marks (cell a b) (cell x y) h;
    sound = λ x y k h. elim (get_or-set_only s.marks (cell a b) (cell x y) h) [
      | inl e ↦ inl e
      | inr e ↦ let (ex, ey) = cell_injective a b x y on.1 k.1 e in inr (inr (rw (ex, ey) lib))
    ];
    closed = λ x y k t h. elim (get_or-set_only s.marks (cell a b) (cell x y) h) [
      | inl e ↦ inl e
      | inr e ↦ elim t [
        | inl st ↦ absurd (c (sym st ∙ ap (λ i. get_or go i 0) e ∙ lib.0))
        | inr (ex, ey) ↦ inl (rw (ex, ey) p)
      ]
    ];
    total = ground (arith, free-set go s.marks (cell a b), lib.0);
    fewer = omega (arith, left-set s.marks (cell a b) m);
  }

  -- The search from a stone, once all around it was seen.
  pub Progress-Stone :
      (s s' : Scan) (a b : ℕ)
      → color ≢ bblank
      → length go ≡ 361
      → On a b
      → Group go color px py a b
      → at go a b ≡ color
      → at s.marks a b ≢ 0
      → Progress (unmark a b s) s'
      → Closed s' a b
      → Progress s s'
  Progress-Stone s s' a b c n on g e m p k = record {
    off = λ x y h. p.off x y (get_or-set_keeps s.marks (cell a b) (cell x y) h);
    sound = λ x y i h. elim (p.sound x y i h) [
      | inr w ↦ inr w
      | inl o ↦ elim (get_or-set_only s.marks (cell a b) (cell x y) o) [
        | inl z ↦ inl z
        | inr z ↦ let (ex, ey) = cell_injective a b x y on.1 i.1 z in inr (inl (rw (ex, ey) g))
      ]
    ];
    closed = λ x y i t h. elim (p.closed x y i t h) [
      | inr w ↦ inr w
      | inl o ↦ elim (get_or-set_only s.marks (cell a b) (cell x y) o) [
        | inl z ↦ inl z
        | inr z ↦ let (ex, ey) = cell_injective a b x y on.1 i.1 z in inr (rw (ex, ey) k)
      ]
    ];
    total = ground (arith, free-set go s.marks (cell a b), p.total);
    fewer = omega (arith, left-set s.marks (cell a b) m, p.fewer);
  }
