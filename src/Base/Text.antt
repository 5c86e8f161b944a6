-- ===== src/Base/Text.antt =====
-- C texts as lists of bytes without the final NUL, and the functions of the C library on them.
use pttoldstable.Base.{
  ℕ, ◌+◌, ◌-◌, ◌≡◌, refl, Bool, true, false, ◌&&◌, List, [], ◌∷◌, arith, leb, ◌==◌, if◌then◌else◌,
}

-- `toupper` and `tolower` in the C locale.
unfoldable pub toupper : ℕ → ℕ
toupper c = if leb b'a' c && leb c b'z' then c - 32 else c

unfoldable pub tolower : ℕ → ℕ
tolower c = if leb b'A' c && leb c b'Z' then c + 32 else c

-- `strcasecmp(s, t) == 0`
unfoldable pub strcaseeq : List ℕ → List ℕ → Bool
unfolding tolower
strcaseeq [] [] = true
strcaseeq [] (d ∷ t) = false
strcaseeq (c ∷ s) [] = false
strcaseeq (c ∷ s) (d ∷ t) = tolower c == tolower d && strcaseeq s t

-- `strcmp(s, t) == 0`
unfoldable pub streq : List ℕ → List ℕ → Bool
streq [] [] = true
streq [] (d ∷ t) = false
streq (c ∷ s) [] = false
streq (c ∷ s) (d ∷ t) = c == d && streq s t

pub toupper_of_tolower : (c d : ℕ) → tolower c ≡ tolower d → toupper c ≡ toupper d
unfolding toupper tolower
toupper_of_tolower c d h = ground arith

pub strcaseeq_refl : (s : List ℕ) → strcaseeq s s ≡ true
unfolding strcaseeq
strcaseeq_refl [] = refl
strcaseeq_refl (c ∷ s) = ground (arith, strcaseeq_refl s)

pub streq→eq : (s t : List ℕ) → streq s t ≡ true → s ≡ t
unfolding streq
streq→eq [] [] h = refl
streq→eq [] (d ∷ t) h = cc
streq→eq (c ∷ s) [] h = cc
streq→eq (c ∷ s) (d ∷ t) h = ground (arith, streq→eq s t)

pub streq_refl : (s : List ℕ) → streq s s ≡ true
unfolding streq
streq_refl [] = refl
streq_refl (c ∷ s) = ground (arith, streq_refl s)
