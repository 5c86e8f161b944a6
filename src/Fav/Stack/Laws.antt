-- ===== src/Fav/Stack/Laws.antt =====
-- mbbsd/fav.c: going into a folder and out of it.
use pttoldstable.Base.{
  ℕ, zero, suc, ◌+◌, ◌-◌, ◌≤◌, ◌<◌, ◌≡◌, ◌⊎◌, refl, ap, ◌∙◌, inl, inr, false, none, some, List, [],
  ◌∷◌, arith, leb, ◌==◌, get_or, set, length, length-set, Bool-cases,
}
use pttoldstable.Base.Take.{get_or-set_self, get_or-set_ne}
use pttoldstable.Fav.{fav_maxdepth}
use pttoldstable.Fav.Stack.{FavStack, get_current_fav, fav_stack_push_fav, fav_stack_pop}

-- Five slots, with null pointers from the top of the stack on.
pub record IsStack (s : FavStack) : Type 0 where
  pub slots : length s.slots ≡ fav_maxdepth
  pub depth : s.num ≤ fav_maxdepth
  pub free : (i : ℕ) → s.num ≤ i → get_or s.slots i 0 ≡ 0

set-set_back : (l : List ℕ) (i v d : ℕ) → get_or l i d ≡ d → set (set l i v) i d ≡ l
set-set_back [] i v d h = refl
set-set_back (x ∷ l) zero v d h = rw h refl
set-set_back (x ∷ l) (suc i) v d h = ap (◌∷◌ x) (set-set_back l i v d h)

-- The stack after a push that succeeds.
abbrev pushed : FavStack → ℕ → FavStack
pushed s fp = record { num = s.num + 1; slots = set s.slots s.num fp }

pushed-IsStack : (s : FavStack) (fp : ℕ) → IsStack s → s.num < fav_maxdepth → IsStack (pushed s fp)
pushed-IsStack s fp v h = record {
  slots = length-set s.slots s.num fp ∙ v.slots;
  depth = omega arith;
  free = λ i n.
      get_or-set_ne s.slots s.num i fp 0 (λ e. absurd (omega arith)) ∙ v.free i (omega arith);
}

-- A push of a folder on a well-formed stack succeeds exactly when fewer than five folders are open.
-- When it does, the stack is well-formed again, the folder is the current one, and a pop leads back
-- to the stack before.
pub pop-push :
    (s : FavStack) (fp : ℕ)
    → IsStack s
    → (fav_stack_push_fav s fp ≡ none) × (s.num ≡ fav_maxdepth)
      ⊎ ((t : FavStack) × (fav_stack_push_fav s fp ≡ some t)
          × (s.num < fav_maxdepth)
          × IsStack t
          × (get_current_fav t ≡ fp)
          × (fav_stack_pop t ≡ some s))
unfolding fav_stack_push_fav get_current_fav fav_stack_pop
pop-push s fp v = elim (Bool-cases (leb fav_maxdepth s.num)) [
  | inl f ↦ inl (rw f refl, ground (arith, v.depth))
  | inr f ↦
      let h : s.num < fav_maxdepth = ground arith in
      let top : (s.num + 1 == 0) ≡ false = ground arith in
      let below : s.num + 1 - 1 ≡ s.num = omega arith in
      inr (
        pushed s fp,
        rw f refl,
        h,
        pushed-IsStack s fp v h,
        rw (top, below) (get_or-set_self s.slots s.num fp 0 (omega (arith, v.slots))),
        rw (top, below, set-set_back s.slots s.num fp 0 (v.free s.num (omega arith))) refl,
      )
]
