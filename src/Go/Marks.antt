-- ===== src/Go/Marks.antt =====
-- mbbsd/go.c: the marks `ml` of the points that the search has yet to see.
use pttoldstable.Base.{
  ℕ, zero, suc, ◌+◌, ◌<◌, ◌≡◌, ◌≢◌, ◌⊎◌, refl, inl, inr, not, ◌&&◌, List, [], ◌∷◌, arith, ◌==◌,
  if◌then◌else◌, get_or, set, length, replicate,
}
use pttoldstable.Go.{cell, bblank}

-- The points with a mark.
abbrev pub left : List ℕ → ℕ
left [] = 0
left (m ∷ ms) = (if m == 0 then 0 else 1) + left ms

-- The empty points with a mark.
abbrev pub free : List ℕ → List ℕ → ℕ
free [] ms = 0
free (g ∷ gs) [] = 0
free (g ∷ gs) (m ∷ ms) = (if (g == bblank) && not (m == 0) then 1 else 0) + free gs ms

pub get_or-set_zero : (ms : List ℕ) (i : ℕ) → get_or (set ms i 0) i 0 ≡ 0
get_or-set_zero [] i = refl
get_or-set_zero (m ∷ ms) zero = refl
get_or-set_zero (m ∷ ms) (suc i) = get_or-set_zero ms i

pub get_or-set_keeps : (ms : List ℕ) (i j : ℕ) → get_or ms j 0 ≡ 0 → get_or (set ms i 0) j 0 ≡ 0
get_or-set_keeps [] i j h = refl
get_or-set_keeps (m ∷ ms) zero zero h = refl
get_or-set_keeps (m ∷ ms) zero (suc j) h = h
get_or-set_keeps (m ∷ ms) (suc i) zero h = h
get_or-set_keeps (m ∷ ms) (suc i) (suc j) h = get_or-set_keeps ms i j h

pub get_or-set_only :
    (ms : List ℕ) (i j : ℕ) → get_or (set ms i 0) j 0 ≡ 0 → (get_or ms j 0 ≡ 0) ⊎ (j ≡ i)
get_or-set_only [] i j h = inl refl
get_or-set_only (m ∷ ms) zero zero h = inr refl
get_or-set_only (m ∷ ms) zero (suc j) h = inl h
get_or-set_only (m ∷ ms) (suc i) zero h = inl h
get_or-set_only (m ∷ ms) (suc i) (suc j) h = ground (arith, get_or-set_only ms i j)

pub left-set : (ms : List ℕ) (i : ℕ) → get_or ms i 0 ≢ 0 → suc (left (set ms i 0)) ≡ left ms
left-set [] i h = absurd (h refl)
left-set (m ∷ ms) zero h = ground arith
left-set (m ∷ ms) (suc i) h = ground (arith, left-set ms i h)

pub free-set :
    (go ms : List ℕ) (i : ℕ)
    → i < length go
    → free go (set ms i 0)
        + (if (get_or go i 0 == bblank) && not (get_or ms i 0 == 0) then 1 else 0)
      ≡ free go ms
free-set [] ms i h = absurd (omega arith)
free-set (g ∷ gs) [] i h = ground arith
free-set (g ∷ gs) (m ∷ ms) zero h = ground arith
free-set (g ∷ gs) (m ∷ ms) (suc i) h = omega (arith, free-set gs ms i (omega arith))

pub left-replicate : (n : ℕ) → left (replicate n 1) ≡ n
left-replicate zero = refl
left-replicate (suc n) = omega (arith, left-replicate n)

-- Points of the board have cells of their own.
pub cell_injective : (x y a b : ℕ) → y < 19 → b < 19 → cell a b ≡ cell x y → (a ≡ x) × (b ≡ y)
cell_injective x y a b h k e = (omega arith, omega arith)
