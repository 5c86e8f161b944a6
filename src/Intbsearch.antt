-- ===== src/Intbsearch.antt =====
-- mbbsd/stuff.c: `intbsearch`, the binary search in an array of numbers.
use pttoldstable.Base.{
  ℕ, zero, suc, ◌+◌, ◌-◌, ◌/◌, ◌≤◌, ◌<◌, ◌≡◌, ◌≢◌, inl, inr, sym, true, false, Option, none, some,
  arith, ltb, ◌==◌, ==_iff, if◌then◌else◌, Bool-cases, ℕ_discrete,
}

-- A pointer into the array is an index. The fuel counts the rounds; `none` is the null pointer.
unfoldable pub probe : ℕ → ℕ → (ℕ → ℕ) → ℕ → ℕ → Option ℕ
probe zero key array base lim = none
probe (suc k) key array base lim =
    let p = base + lim / 2 in
    let right = probe k key array (p + 1) ((lim - 1) / 2) in
    let left = probe k key array base (lim / 2) in
    if lim == 0
    then none
    else if key == array p
    then some p
    else if ltb (array p) key
    then right
    else left

unfoldable pub intbsearch : ℕ → (ℕ → ℕ) → ℕ → Option ℕ
intbsearch key array nmemb = probe (nmemb + 1) key array 0 nmemb

-- The result of a search in `lim` entries from `base` on.
abbrev Found : ℕ → (ℕ → ℕ) → ℕ → ℕ → Option ℕ → Type 0
Found key array base lim none = (i : ℕ) → base ≤ i → i < base + lim → array i ≢ key
Found key array base lim (some p) = (base ≤ p) × (p < base + lim) × (array p ≡ key)

Found-right :
    (key : ℕ) (array : ℕ → ℕ) (base lim p lim' : ℕ) (o : Option ℕ)
    → base ≤ p
    → p + 1 + lim' ≡ base + lim
    → ((i : ℕ) → base ≤ i → i ≤ p → array i ≢ key)
    → Found key array (p + 1) lim' o
    → Found key array base lim o
Found-right key array base lim p lim' none lo e below f = λ i l r. elim (Bool-cases (ltb p i)) [
  | inl t ↦ f i (ground arith) (omega arith)
  | inr t ↦ below i l (ground arith)
]
Found-right key array base lim p lim' (some q) lo e below f =
    (omega (arith, f.0), omega (arith, f.1), f.2)

Found-left :
    (key : ℕ) (array : ℕ → ℕ) (base lim lim' : ℕ) (o : Option ℕ)
    → lim' ≤ lim
    → ((i : ℕ) → base + lim' ≤ i → i < base + lim → array i ≢ key)
    → Found key array base lim' o
    → Found key array base lim o
Found-left key array base lim lim' none le above f = λ i l r.
    elim (Bool-cases (ltb i (base + lim'))) [
      | inl t ↦ f i l (ground arith)
      | inr t ↦ above i (ground arith) r
    ]
Found-left key array base lim lim' (some q) le above f = (f.0, omega (arith, f.1), f.2)

probe-Found :
    (k key : ℕ) (array : ℕ → ℕ) (n base lim : ℕ)
    → ((i j : ℕ) → i ≤ j → j < n → array i ≤ array j)
    → base + lim ≤ n
    → lim < k
    → Found key array base lim (probe k key array base lim)
unfolding probe
probe-Found zero key array n base lim sorted inside fuel = absurd (omega arith)
probe-Found (suc k) key array n base lim sorted inside fuel =
    let p = base + lim / 2 in
    elim (ℕ_discrete lim 0) [
      | yes z ↦ let t : lim == 0 ≡ true = (==_iff lim 0).1 z in rw t (λ i l r. absurd (omega arith))
      | no nz ↦
          let t : lim == 0 ≡ false = ground (arith, nz) in
          elim (ℕ_discrete key (array p)) [
            | yes e ↦
                let u : key == array p ≡ true = (==_iff key (array p)).1 e in
                rw (t, u) (omega arith, omega arith, sym e)
            | no ne ↦
                let u : key == array p ≡ false = ground (arith, ne) in
                elim (Bool-cases (ltb (array p) key)) [
                  | inl lt ↦
                      rw (t, u, lt)
                        (Found-right key array base lim p ((lim - 1) / 2) _ (omega arith)
                          (omega arith)
                          (λ i l r e. let s = sorted i p r (omega arith) in ground arith)
                          (probe-Found k key array n (p + 1) ((lim - 1) / 2) sorted (omega arith)
                            (omega arith)))
                  | inr ge ↦
                      rw (t, u, ge)
                        (Found-left key array base lim (lim / 2) _ (omega arith)
                          (λ i l r e. let s = sorted p i l (omega arith) in ground arith)
                          (probe-Found k key array n base (lim / 2) sorted (omega arith)
                            (omega arith)))
                ]
          ]
    ]

-- In an array sorted up to its length `intbsearch` gives only places of the key within the array, and
-- the null pointer only if the key is not in the array.
pub intbsearch_lem :
    (key : ℕ) (array : ℕ → ℕ) (nmemb : ℕ)
    → ((i j : ℕ) → i ≤ j → j < nmemb → array i ≤ array j)
    → ((p : ℕ) → intbsearch key array nmemb ≡ some p → (p < nmemb) × (array p ≡ key))
      × (intbsearch key array nmemb ≡ none → (i : ℕ) → i < nmemb → array i ≢ key)
unfolding intbsearch
intbsearch_lem key array nmemb sorted =
    let f = probe-Found (nmemb + 1) key array nmemb 0 nmemb sorted (omega arith) (omega arith) in
    (
      λ p e. let g = rw e at f in (omega (arith, g.1), g.2),
      λ e i l. let g = rw e at f in g i (omega arith) (omega arith),
    )
