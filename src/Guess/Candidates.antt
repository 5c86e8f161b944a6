-- ===== src/Guess/Candidates.antt =====
-- mbbsd/guess.c: what the computer's loop over the candidates leaves.
use pttoldstable.Base.{
  ℕ, zero, suc, ◌+◌, ◌≤◌, ◌<◌, ◌≡◌, ◌≢◌, ◌↔◌, ◌⊎◌, inl, inr, refl, sym, ◌∙◌, Bool, true, false,
  some, List, [], ◌∷◌, ◌++◌, arith, ◌==◌, ==_iff, if◌then◌else◌, Bool-cases, ℕ_discrete, ap,
}
use mathlib.Core.Option.{some-injective}
use pttoldstable.Guess.{result, sweep, Side, computer, after_guess, first_guess, later_guess}

-- The three ways on of a round.
sweep-cases :
    (left i guess k : ℕ) (flag : ℕ → Bool) (n : List ℕ)
    → ((flag i ≡ true)
        × (result i guess ≡ k)
        × (sweep (suc left) i guess k flag n ≡ sweep left (i + 1) guess k flag (n ++ i ∷ [])))
      ⊎ ((flag i ≡ true)
          × (result i guess ≢ k)
          × (sweep (suc left) i guess k flag n
              ≡ sweep left (i + 1) guess k (λ x. if x == i then false else flag x) n))
      ⊎ ((flag i ≡ false) × (sweep (suc left) i guess k flag n ≡ sweep left (i + 1) guess k flag n))
unfolding sweep
sweep-cases left i guess k flag n = elim (Bool-cases (flag i)) [
  | inr off ↦ inr (inr (off, rw off))
  | inl on ↦ elim (ℕ_discrete (result i guess) k) [
    | yes e ↦
        let t : result i guess == k ≡ true = (==_iff (result i guess) k).1 e in
        inl (on, e, rw (on, t))
    | no ne ↦
        let t : result i guess == k ≡ false = ground (arith, ne) in inr (inl (on, ne, rw (on, t)))
  ]
]

-- The loop changes no flag outside its range.
sweep-outside :
    (left i guess k : ℕ) (flag : ℕ → Bool) (n : List ℕ) (x : ℕ)
    → (x < i) ⊎ (i + left ≤ x)
    → (sweep left i guess k flag n).0 x ≡ flag x
unfolding sweep
sweep-outside zero i guess k flag n x h = refl
sweep-outside (suc left) i guess k flag n x h =
    let further : (x < i + 1) ⊎ (i + 1 + left ≤ x) = elim h [
      | inl l ↦ inl (omega arith)
      | inr l ↦ inr (omega arith)
    ] in
    let other : x == i ≡ false = elim h [ inl l ↦ ground arith | inr l ↦ ground arith ] in
    elim (sweep-cases left i guess k flag n) [
      | inl (on, e, eq) ↦ rw eq (sweep-outside left (i + 1) guess k flag _ x further)
      | inr (inl (on, ne, eq)) ↦ rw eq (sweep-outside left (i + 1) guess k _ n x further ∙ rw other)
      | inr (inr (off, eq)) ↦ rw eq (sweep-outside left (i + 1) guess k flag n x further)
    ]

-- Within its range a flag is left exactly where the result against the guess is `k`.
sweep-inside :
    (left i guess k : ℕ) (flag : ℕ → Bool) (n : List ℕ) (x : ℕ)
    → i ≤ x
    → x < i + left
    → (sweep left i guess k flag n).0 x ≡ (if result x guess == k then flag x else false)
sweep-inside zero i guess k flag n x lo hi = absurd (omega arith)
sweep-inside (suc left) i guess k flag n x lo hi = elim (ℕ_discrete i x) [
  | yes same ↦ rw (← same) (here (sweep-cases left i guess k flag n))
  | no later ↦
      let l : i + 1 ≤ x = omega arith in
      let r : x < i + 1 + left = omega arith in
      let other : x == i ≡ false = ground arith in
      elim (sweep-cases left i guess k flag n) [
        | inl (on, e, eq) ↦ rw eq (sweep-inside left (i + 1) guess k flag _ x l r)
        | inr (inl (on, ne, eq)) ↦ rw eq (sweep-inside left (i + 1) guess k _ n x l r ∙ rw other)
        | inr (inr (off, eq)) ↦ rw eq (sweep-inside left (i + 1) guess k flag n x l r)
      ]
]
  where
    here :
        ((flag i ≡ true)
            × (result i guess ≡ k)
            × (sweep (suc left) i guess k flag n ≡ sweep left (i + 1) guess k flag (n ++ i ∷ [])))
          ⊎ ((flag i ≡ true)
              × (result i guess ≢ k)
              × (sweep (suc left) i guess k flag n
                  ≡ sweep left (i + 1) guess k (λ x. if x == i then false else flag x) n))
          ⊎ ((flag i ≡ false)
              × (sweep (suc left) i guess k flag n ≡ sweep left (i + 1) guess k flag n))
        → (sweep (suc left) i guess k flag n).0 i ≡ (if result i guess == k then flag i else false)
    here (inl (on, e, eq)) =
        let t : result i guess == k ≡ true = (==_iff (result i guess) k).1 e in
        rw (eq, t) (sweep-outside left (i + 1) guess k flag _ i (inl (omega arith)))
    here (inr (inl (on, ne, eq))) =
        let t : result i guess == k ≡ false = ground (arith, ne) in
        let u : i == i ≡ true = (==_iff i i).1 refl in
        rw (eq, t) (sweep-outside left (i + 1) guess k _ n i (inl (omega arith)) ∙ rw u)
    here (inr (inr (off, eq))) =
        rw (eq, off)
          (sweep-outside left (i + 1) guess k flag n i (inl (omega arith)) ∙ off ∙ (ground arith))

-- The numbers that pass, from `i` on in their order, of as many as the first argument says.
pub survivors : ℕ → ℕ → (ℕ → Bool) → List ℕ
survivors zero i p = []
survivors (suc left) i p = let rest = survivors left (i + 1) p in if p i then i ∷ rest else rest

append_assoc : (a b c : List ℕ) → (a ++ b) ++ c ≡ a ++ (b ++ c)
append_assoc [] b c = refl
append_assoc (x ∷ a) b c = ap (◌∷◌ x) (append_assoc a b c)

append_nil : (a : List ℕ) → a ≡ a ++ []
append_nil [] = refl
append_nil (x ∷ a) = ap (◌∷◌ x) (append_nil a)

sweep_none :
    (i guess k : ℕ) (flag : ℕ → Bool) (n : List ℕ) → (sweep zero i guess k flag n).1 ≡ n ++ []
unfolding sweep
sweep_none i guess k flag n = append_nil n

-- The loop lists exactly the numbers that keep their flag.
sweep-survivors :
    (left i guess k : ℕ) (flag : ℕ → Bool) (n : List ℕ)
    → (sweep left i guess k flag n).1 ≡ n ++ survivors left i (sweep left i guess k flag n).0
unfolding survivors
sweep-survivors zero i guess k flag n = sweep_none i guess k flag n
sweep-survivors (suc left) i guess k flag n = elim (sweep-cases left i guess k flag n) [
  | inl (on, e, eq) ↦
      let here = sweep-outside left (i + 1) guess k flag (n ++ i ∷ []) i (inl (omega arith)) ∙ on in
      rw (eq, here)
        (sweep-survivors left (i + 1) guess k flag (n ++ i ∷ []) ∙ append_assoc n (i ∷ []) _)
  | inr (inl (on, ne, eq)) ↦
      let u : i == i ≡ true = (==_iff i i).1 refl in
      let dropped : ℕ → Bool = λ x. if x == i then false else flag x in
      let here : (sweep left (i + 1) guess k dropped n).0 i ≡ false =
        sweep-outside left (i + 1) guess k dropped n i (inl (omega arith)) ∙ rw u refl in
      rw (eq, here) (sweep-survivors left (i + 1) guess k dropped n)
  | inr (inr (off, eq)) ↦
      let here = sweep-outside left (i + 1) guess k flag n i (inl (omega arith)) ∙ off in
      rw (eq, here) (sweep-survivors left (i + 1) guess k flag n)
]

after_guess-keeps :
    (numbers correct guess : ℕ) (s s' : Side)
    → after_guess numbers correct s guess ≡ (false, s')
    → ((x : ℕ)
        → x < numbers
        → (s'.flag x ≡ true) ↔ ((s.flag x ≡ true) × (result x guess ≡ result correct guess)))
      × (s'.n ≡ survivors numbers 0 s'.flag)
unfolding after_guess
after_guess-keeps numbers correct guess s s' e =
    let k = result correct guess in
    elim (Bool-cases (k == 40)) [
      | inl won ↦ absurd (cc (ap (λ q. q.0) (rw won at e)))
      | inr on ↦
          let flag_e : (sweep numbers 0 guess k s.flag []).0 ≡ s'.flag =
            ap (λ q. q.1.flag) (rw on at e) in
          let n_e : (sweep numbers 0 guess k s.flag []).1 ≡ s'.n = ap (λ q. q.1.n) (rw on at e) in
          (
            λ x l.
                rw
                  (
                    sym flag_e,
                    sweep-inside numbers 0 guess k s.flag [] x (omega arith) (omega arith),
                  )
                  (ground arith),
            sym n_e ∙ sweep-survivors numbers 0 guess k s.flag [] ∙ ap (survivors numbers 0) flag_e,
          )
    ]

-- When the guess that `computer` makes is not the answer, it keeps exactly those of its candidates
-- that would have had the same result against the guess as the answer has, and the list from which
-- it draws the next guess has exactly the numbers below 10000 that are candidates then, in their
-- order.
pub computer-keeps :
    (correct total guess : ℕ) (s s' : Side) (random : List ℕ)
    → (if total == 1 then first_guess random else later_guess s.n random) ≡ some guess
    → computer correct total s random ≡ some (false, s')
    → ((x : ℕ)
        → x < 10000
        → (s'.flag x ≡ true) ↔ ((s.flag x ≡ true) × (result x guess ≡ result correct guess)))
      × (s'.n ≡ survivors 10000 0 s'.flag)
unfolding computer
computer-keeps correct total guess s s' random g e =
    let made : computer correct total s random ≡ some (after_guess 10000 correct s guess) =
      rw (g, computer) in
    after_guess-keeps 10000 correct guess s s' (some-injective _ _ (sym made ∙ e))
