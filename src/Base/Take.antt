-- ===== src/Base/Take.antt =====
-- Prefixes and suffixes of lists, cut at native numbers.
use pttoldstable.Base.{
  ℕ, zero, suc, ◌+◌, ◌≤◌, ◌<◌, ◌≡◌, ◌≢◌, refl, ap, List, [], ◌∷◌, ◌++◌, arith, length, take, drop,
  get_or, set,
}

module _ {ℓ} {A : Type ℓ} where
  pub take-all : (n : ℕ) (l : List A) → length l ≤ n → take n l ≡ l
  take-all zero [] h = refl
  take-all zero (x ∷ l) h = absurd (omega arith)
  take-all (suc n) [] h = refl
  take-all (suc n) (x ∷ l) h = rw (take-all n l (omega arith))

  pub take-take : (m n : ℕ) (l : List A) → m ≤ n → take m (take n l) ≡ take m l
  take-take zero n l h = refl
  take-take (suc m) zero l h = absurd (omega arith)
  take-take (suc m) (suc n) [] h = refl
  take-take (suc m) (suc n) (x ∷ l) h = rw (take-take m n l (omega arith))

  pub drop-cons :
      (n : ℕ) (l : List A) (d : A) → n < length l → drop n l ≡ get_or l n d ∷ drop (suc n) l
  drop-cons zero [] d h = absurd (omega arith)
  drop-cons zero (x ∷ l) d h = refl
  drop-cons (suc n) [] d h = absurd (omega arith)
  drop-cons (suc n) (x ∷ l) d h = drop-cons n l d (omega arith)

  pub take-suc :
      (n : ℕ) (l : List A) (d : A) → n < length l → take (suc n) l ≡ take n l ++ get_or l n d ∷ []
  take-suc zero [] d h = absurd (omega arith)
  take-suc zero (x ∷ l) d h = refl
  take-suc (suc n) [] d h = absurd (omega arith)
  take-suc (suc n) (x ∷ l) d h = ap (◌∷◌ x) (take-suc n l d (omega arith))

  pub take-add-append :
      (n m : ℕ) (a b : List A) → length a ≡ n → take (n + m) (a ++ b) ≡ a ++ take m b
  take-add-append zero m [] b h = ap (λ k. take k b) (omega arith)
  take-add-append zero m (x ∷ a) b h = absurd (omega arith)
  take-add-append (suc n) m [] b h = absurd (omega arith)
  take-add-append (suc n) m (x ∷ a) b h =
      let e : suc n + m ≡ suc (n + m) = omega arith in
      rw e (ap (◌∷◌ x) (take-add-append n m a b (omega arith)))

  pub take-set-below : (n i : ℕ) (l : List A) (v : A) → n ≤ i → take n (set l i v) ≡ take n l
  take-set-below zero i l v h = refl
  take-set-below (suc n) i [] v h = refl
  take-set-below (suc n) zero (x ∷ l) v h = absurd (omega arith)
  take-set-below (suc n) (suc i) (x ∷ l) v h = rw (take-set-below n i l v (omega arith))

  pub drop-set_self :
      (n : ℕ) (l : List A) (v : A) → n < length l → drop n (set l n v) ≡ v ∷ drop (suc n) l
  drop-set_self zero [] v h = absurd (omega arith)
  drop-set_self zero (x ∷ l) v h = refl
  drop-set_self (suc n) [] v h = absurd (omega arith)
  drop-set_self (suc n) (x ∷ l) v h = drop-set_self n l v (omega arith)

  pub set-split :
      (n : ℕ) (l : List A) (v : A) → n < length l → set l n v ≡ take n l ++ v ∷ drop (suc n) l
  set-split zero [] v h = absurd (omega arith)
  set-split zero (x ∷ l) v h = refl
  set-split (suc n) [] v h = absurd (omega arith)
  set-split (suc n) (x ∷ l) v h = ap (◌∷◌ x) (set-split n l v (omega arith))

  pub get_or-drop : (n k : ℕ) (l : List A) (d : A) → get_or (drop n l) k d ≡ get_or l (n + k) d
  get_or-drop zero k l d = let e : 0 + k ≡ k = omega arith in rw e
  get_or-drop (suc n) k [] d = refl
  get_or-drop (suc n) k (x ∷ l) d =
      let e : suc n + k ≡ suc (n + k) = omega arith in rw e (get_or-drop n k l d)

  -- The entries from `n` to `n + k`.
  pub window-set-above :
      (n k i : ℕ) (l : List A) (v : A) → n + k ≤ i → take k (drop n (set l i v)) ≡ take k (drop n l)
  window-set-above zero k i l v h = take-set-below k i l v (omega arith)
  window-set-above (suc n) k i [] v h = refl
  window-set-above (suc n) k zero (x ∷ l) v h = absurd (omega arith)
  window-set-above (suc n) k (suc i) (x ∷ l) v h = window-set-above n k i l v (omega arith)

  pub get_or-set_self : (l : List A) (i : ℕ) (v d : A) → i < length l → get_or (set l i v) i d ≡ v
  get_or-set_self [] i v d h = absurd (omega arith)
  get_or-set_self (x ∷ l) zero v d h = refl
  get_or-set_self (x ∷ l) (suc i) v d h = get_or-set_self l i v d (omega arith)

  pub get_or-set_ne :
      (l : List A) (i j : ℕ) (v d : A) → i ≢ j → get_or (set l i v) j d ≡ get_or l j d
  get_or-set_ne [] i j v d h = refl
  get_or-set_ne (x ∷ l) zero zero v d h = absurd (h refl)
  get_or-set_ne (x ∷ l) zero (suc j) v d h = refl
  get_or-set_ne (x ∷ l) (suc i) zero v d h = refl
  get_or-set_ne (x ∷ l) (suc i) (suc j) v d h = get_or-set_ne l i j v d (λ e. h (ap suc e))
