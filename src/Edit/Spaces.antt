-- ===== src/Edit/Spaces.antt =====
-- mbbsd/edit.c: the place before the last word of a line.
use pttoldstable.Base.{
  ℕ, zero, suc, ◌≤◌, ◌<◌, ◌≡◌, ◌≢◌, ◌⊎◌, inl, inr, refl, List, arith, ==_iff, get_or, ℕ_discrete,
}
use pttoldstable.Edit.{skip_spaces, skip_word, last_space}

pub skip_word-le : (d : List ℕ) (s : ℕ) → skip_word d s ≤ s
unfolding skip_word
skip_word-le d zero = omega arith
skip_word-le d (suc s) = ground (arith, skip_word-le d s)

pub skip_word-lt :
    (d : List ℕ) (s : ℕ) → get_or d s 0 ≢ b' ' → (skip_word d s ≡ 0) ⊎ (skip_word d s < s)
unfolding skip_word
skip_word-lt d zero h = inl refl
skip_word-lt d (suc s) h = inr (ground (arith, skip_word-le d s, h))

pub skip_spaces-stops :
    (d : List ℕ) (s : ℕ) → (skip_spaces d s ≡ 0) ⊎ (get_or d (skip_spaces d s) 0 ≢ b' ')
unfolding skip_spaces
skip_spaces-stops d zero = inl refl
skip_spaces-stops d (suc s) = elim (ℕ_discrete (get_or d (suc s) 0) b' ') [
  | yes space ↦ let e = (==_iff _ _).1 space in rw e (skip_spaces-stops d s)
  | no other ↦ inr (ground (arith, other))
]

pub skip_spaces-le : (d : List ℕ) (s : ℕ) → skip_spaces d s ≤ s
unfolding skip_spaces
skip_spaces-le d zero = omega arith
skip_spaces-le d (suc s) = ground (arith, skip_spaces-le d s)

-- The last space before a word is the first byte, or is not the last one.
pub last_space-lt : (d : List ℕ) (s : ℕ) → (last_space d s ≡ 0) ⊎ (last_space d s < s)
unfolding last_space
last_space-lt d s = elim (skip_spaces-stops d s) [
  | inl z ↦ inl (omega (arith, skip_word-le d (skip_spaces d s)))
  | inr other ↦ elim (skip_word-lt d (skip_spaces d s) other) [
    | inl z ↦ inl z
    | inr lt ↦ inr (omega (arith, skip_spaces-le d s))
  ]
]
