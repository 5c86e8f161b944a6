-- ===== src/Examples/Games.antt =====
-- mbbsd/guess.c and mbbsd/card.c: a move of the computer.
use pttoldstable.Base.{
  ℕ, ◌<◌, ◌≡◌, ◌↔◌, ◌⊎◌, refl, Bool, true, false, some, [], ◌∷◌, ap, ◌∙◌, arith, get_or,
}
use pttoldstable.Base.Int.{pos, negsuc}
use pttoldstable.Guess.{result, Side, computer, after_guess, first_guess, initcomputer}
use pttoldstable.Guess.Candidates.{computer-keeps, survivors}
use pttoldstable.Card.{card_number, card_99_add, card_99_cpu}
use pttoldstable.Card.Choice.{card_99_cpu-rules}

abbrev start : Side
start = record { flag = initcomputer; n = [] }

not_won : (q : Bool × Side) → q.0 ≡ false → q ≡ (false, q.1)
not_won q e = ap (λ (b : Bool). (b, q.1)) e

missed : (numbers : ℕ) → (after_guess numbers 1234 start 4321).0 ≡ false
unfolding after_guess result
missed numbers = refl

-- The computer guesses 4321 where the answer is 1234.
made : computer 1234 1 start (4321 ∷ []) ≡ some (after_guess 10000 1234 start 4321)
unfolding computer first_guess
made = refl

computer-keeps_example :
    (s' : Side) × (((x : ℕ)
        → x < 10000
        → (s'.flag x ≡ true) ↔ ((start.flag x ≡ true) × (result x 4321 ≡ result 1234 4321)))
      × (s'.n ≡ survivors 10000 0 s'.flag))
unfolding first_guess
computer-keeps_example = (
  (after_guess 10000 1234 start 4321).1,
  computer-keeps 1234 1 4321 start (after_guess 10000 1234 start 4321).1 (4321 ∷ []) refl
      (made ∙ ap some (not_won (after_guess 10000 1234 start 4321) (missed 10000))),
)

-- A queen, a ten, two cards of 3 and a card of 9, at 95.
card_99_cpu-rules_example :
    let r = card_99_cpu (11 ∷ 9 ∷ 2 ∷ 15 ∷ 8 ∷ []) (pos 95) in
    let j = card_number (get_or (11 ∷ 9 ∷ 2 ∷ 15 ∷ 8 ∷ []) r.0 0) in
    (r.0 < 5) × ((r.1 ≡ card_99_add j (pos 1) (pos 95)) ⊎ (r.1 ≡ card_99_add j (negsuc 0) (pos 95)))
card_99_cpu-rules_example = card_99_cpu-rules (11 ∷ 9 ∷ 2 ∷ 15 ∷ 8 ∷ []) (pos 95) (omega arith)
