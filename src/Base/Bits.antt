-- ===== src/Base/Bits.antt =====
-- Laws of the bit operations at variables, and tables over the values of a char.
use Prim.Native.Nat.{min, digits, bit_and-bitwise}
use pttoldstable.Base.{ℕ, zero, suc, ◌/◌, ◌<◌, ◌≡◌, refl, ◌∙◌, Bool, true, ◌&&◌, arith, bit_and}

and_digits-zero : (n a : ℕ) → digits (λ b. zero) min n a 0 ≡ 0
and_digits-zero zero a = refl
and_digits-zero (suc n) zero = refl
and_digits-zero (suc n) (suc a) = omega (arith, and_digits-zero n (suc a / 2))

pub bit_and-zero : (a : ℕ) → bit_and a 0 ≡ 0
bit_and-zero a = bit_and-bitwise a 0 ∙ and_digits-zero a a

-- Every value below a bound passes.
unfoldable pub passes : ℕ → (ℕ → Bool) → Bool
passes zero p = true
passes (suc n) p = p n && passes n p

pub passes_below : (n : ℕ) (p : ℕ → Bool) (x : ℕ) → passes n p ≡ true → x < n → p x ≡ true
unfolding passes
passes_below zero p x h lt = absurd (omega arith)
passes_below (suc n) p x h lt = ground (arith, passes_below n p x)
