-- ===== src/Base/Range.antt =====
-- A test of every number of a range, so that a table can be checked by computing it.
use pttoldstable.Base.{
  ℕ, zero, suc, ◌+◌, ◌≤◌, ◌<◌, ◌≡◌, Bool, true, ◌&&◌, arith, ℕ_discrete, and_true,
}

-- The `count` numbers from `first` on.
unfoldable pub every : (test : ℕ → Bool) → ℕ → ℕ → Bool
every test first zero = true
every test first (suc count) = test first && every test (first + 1) count

pub every-within :
    (test : ℕ → Bool) (first count i : ℕ)
    → first ≤ i
    → i < first + count
    → every test first count ≡ true
    → test i ≡ true
unfolding every
every-within test first zero i lo hi e = absurd (omega arith)
every-within test first (suc count) i lo hi e =
    let both = and_true (test first) (every test (first + 1) count) e in
    elim (ℕ_discrete first i) [
      | yes same ↦ rw (← same) both.0
      | no later ↦ every-within test (first + 1) count i (omega arith) (omega arith) both.1
    ]
