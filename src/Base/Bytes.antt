-- ===== src/Base/Bytes.antt =====
-- Writing into a part of a list.
use pttoldstable.Base.{ℕ, zero, suc, ◌≤◌, ◌≡◌, refl, ap, List, [], ◌∷◌, ◌++◌, arith, length, drop}

-- An operation on the entries from `n` on.
unfoldable pub at : ℕ → (List ℕ → List ℕ) → List ℕ → List ℕ
at zero f d = f d
at (suc n) f [] = []
at (suc n) f (c ∷ d) = c ∷ at n f d

-- A write past the end is lost.
unfoldable pub memcpy : List ℕ → List ℕ → List ℕ
memcpy [] d = d
memcpy (c ∷ s) [] = []
memcpy (c ∷ s) (b ∷ d) = c ∷ memcpy s d

pub at-append : (a b : List ℕ) (f : List ℕ → List ℕ) → at (length a) f (a ++ b) ≡ a ++ f b
unfolding at
at-append [] b f = refl
at-append (x ∷ a) b f = ap (◌∷◌ x) (at-append a b f)

pub memcpy_lem : (s d : List ℕ) → length s ≤ length d → memcpy s d ≡ s ++ drop (length s) d
unfolding memcpy
memcpy_lem [] d h = refl
memcpy_lem (c ∷ s) [] h = absurd (omega arith)
memcpy_lem (c ∷ s) (b ∷ d) h = ap (◌∷◌ c) (memcpy_lem s d (omega arith))
