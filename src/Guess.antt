-- ===== src/Guess.antt =====
-- mbbsd/guess.c: the game of guessing four different digits, and the computer's candidates.
pub mod Candidates
use pttoldstable.Base.{
  ℕ, zero, suc, ◌+◌, ◌-◌, ◌*◌, ◌/◌, ◌%◌, Bool, true, false, ◌&&◌, ◌||◌, Option, none, some, List,
  [], ◌∷◌, ◌++◌, ltb, leb, ◌==◌, if◌then◌else◌, length, get_or,
}

abbrev pub count : Bool → ℕ
count b = if b then 1 else 0

-- The inner loops over `j`: does `c` stand among the rest?
unfoldable pub among : ℕ → List ℕ → Bool
among c [] = false
among c (d ∷ l) = let rest = among c l in if c == d then true else rest

-- The two loops over `i < j` of `check_data` and `legal`.
unfoldable pub repeated : List ℕ → Bool
unfolding among
repeated [] = false
repeated (c ∷ l) = let rest = repeated l in if among c l then true else rest

unfoldable pub all_digits : List ℕ → Bool
all_digits [] = true
all_digits (c ∷ l) = let rest = all_digits l in if ltb c 48 || ltb 57 c then false else rest

-- `true` is the result 1 and `false` the result -1.
unfoldable pub check_data : List ℕ → Bool
unfolding repeated all_digits
check_data str =
    if length str == 4
    then (if all_digits str then (if repeated str then false else true) else false)
    else false

-- `snprintf(n1, sizeof(n1), "%04d", n)` of a number below 10000, as digits.
unfoldable pub digits : ℕ → List ℕ
digits n = n / 1000 % 10 ∷ n / 100 % 10 ∷ n / 10 % 10 ∷ n % 10 ∷ []

-- `b++` for each place of the second number with the digit, in the loops over `i` and `j`.
unfoldable pub hits : ℕ → List ℕ → ℕ
hits c [] = 0
hits c (d ∷ l) = count (c == d) + hits c l

unfoldable pub all_hits : List ℕ → List ℕ → ℕ
unfolding hits
all_hits [] n2 = 0
all_hits (c ∷ n1) n2 = hits c n2 + all_hits n1 n2

-- The places that agree, the second loop.
unfoldable pub places : List ℕ → List ℕ → ℕ
places [] n2 = 0
places (c ∷ n1) [] = 0
places (c ∷ n1) (d ∷ n2) = count (c == d) + places n1 n2

-- `b` loses one for each place that agrees, and has counted it before.
unfoldable pub result : ℕ → ℕ → ℕ
unfolding digits all_hits places
result correct number =
    let a = places (digits correct) (digits number) in
    10 * a + (all_hits (digits correct) (digits number) - a)

unfoldable pub legal : ℕ → Bool
unfolding digits repeated
legal number = if repeated (digits number) then false else true

unfoldable pub initcomputer : ℕ → Bool
unfolding legal
initcomputer i = if ltb i 10000 then legal i else false

-- `do guess = random() % 10000; while (!legal(guess));` over the numbers that `random` gives; `none`
-- if they are used up.
unfoldable pub first_guess : List ℕ → Option ℕ
unfolding legal
first_guess [] = none
first_guess (r ∷ l) =
    let rest = first_guess l in if legal (r % 10000) then some (r % 10000) else rest

-- `n[random() % j]`, where the remainder by zero is `none`.
unfoldable pub later_guess : List ℕ → List ℕ → Option ℕ
later_guess n [] = none
later_guess n (r ∷ l) = if length n == 0 then none else some (get_or n (r % length n) 0)

-- The loop over the candidates: `left` numbers from `i` on.
unfoldable pub sweep : ℕ → ℕ → ℕ → ℕ → (ℕ → Bool) → List ℕ → (ℕ → Bool) × List ℕ
unfolding result
sweep zero i guess k flag n = (flag, n)
sweep (suc left) i guess k flag n =
    let dropped = sweep left (i + 1) guess k (λ x. if x == i then false else flag x) n in
    let kept = sweep left (i + 1) guess k flag (n ++ i ∷ []) in
    let skipped = sweep left (i + 1) guess k flag n in
    if flag i then (if result i guess == k then kept else dropped) else skipped

-- The state of the computer's side: the flags, and the list `n` with its length `j`.
pub record Side : Type 0 where
  pub flag : ℕ → Bool
  pub n : List ℕ

-- The rest of `computer` with its guess made, over the numbers below `numbers`. `true` is the result
-- 1, the right guess.
unfoldable pub after_guess : ℕ → ℕ → Side → ℕ → Bool × Side
after_guess numbers correct s guess =
    let k = result correct guess in
    if k == 40
    then (true, s)
    else (let swept = sweep numbers 0 guess k s.flag [] in
        (false, record { flag = swept.0; n = swept.1 }))

-- `random` gives the numbers of the list.
unfoldable pub computer : ℕ → ℕ → Side → List ℕ → Option (Bool × Side)
computer correct total s random =
    elim (if total == 1 then first_guess random else later_guess s.n random) [
      | none ↦ none
      | some guess ↦ some (after_guess 10000 correct s guess)
    ]

-- The counts A and B of `guess_play`, and whether the guess is right.
unfoldable pub b_count : List ℕ → List ℕ → List ℕ → ℕ
unfolding among
b_count before [] answer = 0
b_count before (c ∷ guessed) [] = 0
b_count before (c ∷ guessed) (d ∷ answer) =
    count (among c (before ++ answer)) + b_count (before ++ d ∷ []) guessed answer

unfoldable pub guess_play : List ℕ → List ℕ → Bool × ℕ × ℕ
unfolding places b_count
guess_play guessed answer =
    (places guessed answer == 4, places guessed answer, b_count [] guessed answer)
