-- ===== src/Examples/Brc.antt =====
-- mbbsd/brc.c: the read list at concrete inputs.
use pttoldstable.Base.{ℕ, ◌+◌, ◌-◌, ◌*◌, ◌≡◌, refl, false, List, [], ◌∷◌, arith, replicate}
use pttoldstable.Brc.{Brc, brc_addlist}
use pttoldstable.Brc.Order.{visible, mark}
use pttoldstable.Brc.Effect.{IsValid, addlist-visible}

-- `atoi` on digits.
abbrev atoi_from : ℕ → List ℕ → ℕ
atoi_from n [] = n
atoi_from n (c ∷ l) = atoi_from (n * 10 + (c - 48)) l

abbrev atoi_digits : List ℕ → ℕ
atoi_digits = atoi_from 0

-- The file name M.5
abbrev fname : List ℕ
fname = 77 ∷ 46 ∷ 53 ∷ []

abbrev two_read : Brc
two_read = record {
  userlevel = 1;
  expire_time = 2;
  changed = false;
  num = 2;
  list = 9 ∷ 3 ∷ replicate 78 0;
}

two_read-IsValid : IsValid two_read
two_read-IsValid = record { fits = omega arith; size = refl; order = ((omega arith, tt), (tt, tt)) }

addlist-visible_example : visible (brc_addlist atoi_digits fname two_read) ≡ 9 ∷ 5 ∷ 3 ∷ []
unfolding mark
addlist-visible_example = addlist-visible atoi_digits fname two_read (omega arith) refl
