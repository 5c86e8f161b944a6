-- ===== src/Utmp/Bsearch.antt =====
-- mbbsd/cache.c: the shared loop of the binary searches: it ends, it is right, and it is complete on
-- a sorted range.
use Prim.Native.Nat.{Ordering}
use pttoldstable.Base.{
  ℕ, zero, suc, ◌+◌, ◌-◌, ◌/◌, ◌≤◌, ◌<◌, ◌≡◌, ◌≢◌, ◌⊎◌, inl, inr, refl, true, false, arith, ◌==◌,
  ℕ_discrete, dec_le,
}
use pttoldstable.Utmp.{Outcome, at, nowhere, unfinished, search_loop, bsearch}

-- What is right of a search in the positions from `start` to `end`.
abbrev pub Right : (ℕ → Ordering) → ℕ → ℕ → Outcome → Type 0
Right sign start end (at i) = (sign i ≡ Ordering.eq) × (start ≤ i) × (i ≤ end)
Right sign start end nowhere = Unit
Right sign start end unfinished = ⊥

Ordering-cases : (o : Ordering) → (o ≡ Ordering.eq) ⊎ (o ≡ Ordering.gt) ⊎ (o ≡ Ordering.lt)
Ordering-cases Ordering.eq = inl refl
Ordering-cases Ordering.gt = inr (inl refl)
Ordering-cases Ordering.lt = inr (inr refl)

Right-widen :
    (sign : ℕ → Ordering) (a b c d : ℕ) (o : Outcome)
    → c ≤ a
    → b ≤ d
    → Right sign a b o
    → Right sign c d o
Right-widen sign a b c d (at i) h k r = (r.0, omega arith, omega arith)
Right-widen sign a b c d nowhere h k r = tt
Right-widen sign a b c d unfinished h k r = r

-- With more rounds than the range is long the loop ends, and a position that it gives is in the
-- range and compares equal.
pub search_loop-Right :
    (k : ℕ) (sign : ℕ → Ordering) (start end : ℕ)
    → start ≤ end
    → end - start < k
    → Right sign start end (search_loop k sign start end)
unfolding search_loop
search_loop-Right zero sign start end h f = absurd (omega arith)
search_loop-Right (suc k) sign start end h f =
    let i = (start + end) / 2 in
    elim (Ordering-cases (sign i)) [
      | inl e ↦ rw (e, search_loop) (e, omega arith, omega arith)
      | inr up_down ↦ elim (ℕ_discrete end start) [
        | yes one ↦
            let t : end == start ≡ true = ground arith in
            elim up_down [ inl e ↦ rw (e, search_loop, t) tt | inr e ↦ rw (e, search_loop, t) tt ]
        | no more ↦
            let t : end == start ≡ false = ground arith in
            elim (ℕ_discrete i start) [
              | yes low ↦
                  let t' : i == start ≡ true = ground arith in
                  let ih = search_loop-Right k sign end end (omega arith) (omega arith) in
                  let r = Right-widen sign end end start end _ h (omega arith) ih in
                  elim up_down [
                    | inl e ↦ rw (e, search_loop, t, t') r
                    | inr e ↦ rw (e, search_loop, t, t') r
                  ]
              | no high ↦
                  let t' : i == start ≡ false = ground arith in
                  elim up_down [
                    | inl e ↦
                        rw (e, search_loop, t, t')
                          (Right-widen sign i end start end _ (omega arith) (omega arith)
                            (search_loop-Right k sign i end (omega arith) (omega arith)))
                    | inr e ↦
                        rw (e, search_loop, t, t')
                          (Right-widen sign start i start end _ (omega arith) (omega arith)
                            (search_loop-Right k sign start i (omega arith) (omega arith)))
                  ]
            ]
      ]
    ]

-- The positions up to `hi` are sorted, seen from what is searched for.
abbrev pub Sorted : (ℕ → Ordering) → ℕ → Type 0
Sorted sign hi =
    (i j : ℕ)
    → i ≤ j
    → j ≤ hi
    → (sign i ≡ Ordering.lt → sign j ≡ Ordering.lt) × (sign j ≡ Ordering.gt → sign i ≡ Ordering.gt)

abbrev pub Hit : Outcome → Type 0
Hit (at i) = Unit
Hit nowhere = ⊥
Hit unfinished = ⊥

-- On a sorted range the loop finds a position if one compares equal.
module _ (sign : ℕ → Ordering) (hi : ℕ) (sorted : Sorted sign hi) (p : ℕ)
    (here : sign p ≡ Ordering.eq) where
  above : (i : ℕ) → p ≤ hi → i ≤ hi → sign i ≡ Ordering.gt → i < p
  above i ph ih e = elim (dec_le p i) [
    | yes l ↦ absurd (cc ((sorted p i l ih).1 e, here))
    | no l ↦ omega arith
  ]

  below : (i : ℕ) → p ≤ hi → i ≤ hi → sign i ≡ Ordering.lt → p < i
  below i ph ih e = elim (dec_le i p) [
    | yes l ↦ absurd (cc ((sorted i p l ph).0 e, here))
    | no l ↦ omega arith
  ]

  pub search_loop-Hit :
      (k start end : ℕ)
      → end ≤ hi
      → end - start < k
      → start ≤ p
      → p ≤ end
      → Hit (search_loop k sign start end)
  unfolding search_loop
  search_loop-Hit zero start end h f l u = absurd (omega arith)
  search_loop-Hit (suc k) start end h f l u =
      let i = (start + end) / 2 in
      elim (Ordering-cases (sign i)) [
        | inl e ↦ rw (e, search_loop) tt
        | inr (inl e) ↦
            let up = above i (omega arith) (omega arith) e in
            let t : end == start ≡ false = ground arith in
            elim (ℕ_discrete i start) [
              | yes low ↦
                  let t' : i == start ≡ true = ground arith in
                  rw (e, search_loop, t, t')
                    (search_loop-Hit k end end h (omega arith) (omega arith) u)
              | no high ↦
                  let t' : i == start ≡ false = ground arith in
                  rw (e, search_loop, t, t')
                    (search_loop-Hit k i end h (omega arith) (omega arith) u)
            ]
        | inr (inr e) ↦
            let down = below i (omega arith) (omega arith) e in
            let t : end == start ≡ false = ground arith in
            let t' : i == start ≡ false = ground arith in
            rw (e, search_loop, t, t')
              (search_loop-Hit k start i (omega arith) (omega arith) l (omega arith))
      ]

-- What is right of a search among `n` positions: the position compares equal, or none does.
abbrev pub Searched : (ℕ → Ordering) → ℕ → Outcome → Type 0
Searched sign n (at i) = (i < n) × (sign i ≡ Ordering.eq)
Searched sign n nowhere = (i : ℕ) → i < n → sign i ≢ Ordering.eq
Searched sign n unfinished = ⊥

-- A search among `n` sorted positions, at least one, ends within its rounds: at a position that
-- compares equal if there is one, and nowhere only if there is none.
pub bsearch-Searched :
    (sign : ℕ → Ordering) (n : ℕ) → 0 < n → Sorted sign (n - 1) → Searched sign n (bsearch sign n)
bsearch-Searched sign n pos sorted =
    join (bsearch sign n) (search_loop-Right n sign 0 (n - 1) (omega arith) (omega arith))
      (λ p lt e.
        search_loop-Hit sign (n - 1) sorted p e n 0 (n - 1) (omega arith) (omega arith)
          (omega arith) (omega arith))
  where
    join :
        (o : Outcome)
        → Right sign 0 (n - 1) o
        → ((p : ℕ) → p < n → sign p ≡ Ordering.eq → Hit o)
        → Searched sign n o
    join (at i) r h = (omega (arith, r.2), r.0)
    join nowhere r h = h
    join unfinished r h = r
