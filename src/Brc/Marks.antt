-- ===== src/Brc/Marks.antt =====
-- mbbsd/brc.c: lists of times that decrease, and a mark that is put into one.
use pttoldstable.Base.{
  ℕ, zero, suc, ◌+◌, ◌≤◌, ◌<◌, ◌≡◌, ◌≢◌, refl, ◌∙◌, false, List, [], ◌∷◌, arith, ltb, ◌==◌, length,
  take, inl, inr, Bool-cases, ℕ_discrete,
}
use pttoldstable.Brc.Order.{scan, mark}

-- The newest first, each once.
abbrev pub Below : ℕ → List ℕ → Type 0
Below b [] = Unit
Below b (x ∷ l) = (x < b) × Below b l

abbrev pub Desc : List ℕ → Type 0
Desc [] = Unit
Desc (x ∷ l) = Below x l × Desc l

pub scan-mark_self : (t : ℕ) (l : List ℕ) → scan t (mark t l) ≡ false
unfolding scan mark
scan-mark_self t [] = refl
scan-mark_self t (x ∷ l) = ground (arith, scan-mark_self t l)

pub scan-mark_ne : (t u : ℕ) (l : List ℕ) → u ≢ t → scan u (mark t l) ≡ scan u l
unfolding scan mark
scan-mark_ne t u [] h = refl
scan-mark_ne t u (x ∷ l) h = ground (arith, scan-mark_ne t u l)

pub scan_single : (t : ℕ) → scan t (t ∷ []) ≡ false
unfolding scan
scan_single t = ground arith

pub scan-mark : (t u : ℕ) (l : List ℕ) → scan u l ≡ false → scan u (mark t l) ≡ false
scan-mark t u l h = elim (ℕ_discrete u t) [
  | yes e ↦ rw e (scan-mark_self t l)
  | no ne ↦ scan-mark_ne t u l ne ∙ h
]

pub length-mark : (t : ℕ) (l : List ℕ) → length (mark t l) ≤ length l + 1
unfolding mark
length-mark t [] = omega arith
length-mark t (x ∷ l) = ground (arith, length-mark t l)

pub scan-take : (n u : ℕ) (l : List ℕ) → scan u l ≡ false → scan u (take n l) ≡ false
unfolding scan
scan-take zero u l h = refl
scan-take (suc n) u [] h = refl
scan-take (suc n) u (x ∷ l) h = ground (arith, scan-take n u l)

pub Below-mark : (b t : ℕ) (l : List ℕ) → t < b → Below b l → Below b (mark t l)
unfolding mark
Below-mark b t [] h p = tt
Below-mark b t (x ∷ l) h p = elim (Bool-cases (t == x)) [
  | inl same ↦ rw same p
  | inr other ↦ elim (Bool-cases (ltb x t)) [
    | inl less ↦ rw (other, less) (h, p)
    | inr more ↦ rw (other, more) (p.0, Below-mark b t l h p.1)
  ]
]

pub Below-mono : (b c : ℕ) (l : List ℕ) → b ≤ c → Below b l → Below c l
Below-mono b c [] h p = tt
Below-mono b c (x ∷ l) h p = (omega arith, Below-mono b c l h p.1)

pub mark-Desc : (t : ℕ) (l : List ℕ) → Desc l → Desc (mark t l)
unfolding mark
mark-Desc t [] d = tt
mark-Desc t (x ∷ l) d = elim (Bool-cases (t == x)) [
  | inl same ↦ rw same d
  | inr other ↦ elim (Bool-cases (ltb x t)) [
    | inl less ↦ rw (other, less) ((ground arith, Below-mono x t l (ground arith) d.0), d)
    | inr more ↦ rw (other, more) (Below-mark x t l (ground arith) d.0, mark-Desc t l d.1)
  ]
]

pub Below-take : (n b : ℕ) (l : List ℕ) → Below b l → Below b (take n l)
Below-take zero b l p = tt
Below-take (suc n) b [] p = tt
Below-take (suc n) b (x ∷ l) p = (p.0, Below-take n b l p.1)

pub take-Desc : (n : ℕ) (l : List ℕ) → Desc l → Desc (take n l)
take-Desc zero l d = tt
take-Desc (suc n) [] d = tt
take-Desc (suc n) (x ∷ l) d = (Below-take n x l d.0, take-Desc n l d.1)

-- `brc_unread_time` of the list of a state.
