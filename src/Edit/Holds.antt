-- ===== src/Edit/Holds.antt =====
-- mbbsd/edit.c: lines as texts. The buffer of a line has the bytes of the text, a NUL and any bytes
-- behind it, and the operations on lines act on the texts.
use pttoldstable.Base.{
  ℕ, zero, suc, ◌+◌, ◌≤◌, ◌≡◌, ◌≢◌, refl, ap, ◌∙◌, List, [], ◌∷◌, ◌++◌, arith, length, take, drop,
  set, get_or,
}
use pttoldstable.Edit.{Line, cstr, raw_shift_left, raw_shift_right}

unfoldable pub NoNul : List ℕ → Type 0
NoNul [] = Unit
NoNul (c ∷ s) = (c ≢ 0) × NoNul s

-- The line holds the text.
pub record Holds (l : Line) (s : List ℕ) : Type 0 where
  pub rest : List ℕ
  pub bytes_eq : l.bytes ≡ s ++ 0 ∷ rest
  pub len_eq : l.len ≡ length s
  pub no_nul : NoNul s

-- The line has room for `wrapmargin` bytes and a NUL.
unfoldable pub Writable : ℕ → Line → Type 0
Writable wrapmargin l = length l.bytes ≡ wrapmargin + 2

pub NoNul-append : (s t : List ℕ) → NoNul s → NoNul t → NoNul (s ++ t)
unfolding NoNul
NoNul-append [] t hs ht = ht
NoNul-append (c ∷ s) t hs ht = (hs.0, NoNul-append s t hs.1 ht)

pub NoNul-drop : (n : ℕ) (s : List ℕ) → NoNul s → NoNul (drop n s)
unfolding NoNul
NoNul-drop zero s h = h
NoNul-drop (suc n) [] h = h
NoNul-drop (suc n) (c ∷ s) h = NoNul-drop n s h.1

pub NoNul-take : (n : ℕ) (s : List ℕ) → NoNul s → NoNul (take n s)
unfolding NoNul
NoNul-take zero s h = tt
NoNul-take (suc n) [] h = h
NoNul-take (suc n) (c ∷ s) h = (h.0, NoNul-take n s h.1)

pub cstr-append : (s r : List ℕ) → NoNul s → cstr (s ++ 0 ∷ r) ≡ s
unfolding cstr NoNul
cstr-append [] r h = refl
cstr-append (c ∷ s) r h = ground (arith, h.0, cstr-append s r h.1)

module _ {ℓ} {A : Type ℓ} where
  pub append_assoc : (a b c : List A) → (a ++ b) ++ c ≡ a ++ (b ++ c)
  append_assoc [] b c = refl
  append_assoc (x ∷ a) b c = ap (◌∷◌ x) (append_assoc a b c)

  pub append_nil : (a : List A) → a ++ [] ≡ a
  append_nil [] = refl
  append_nil (x ∷ a) = ap (◌∷◌ x) (append_nil a)

  pub drop-append : (n : ℕ) (a b : List A) → n ≤ length a → drop n (a ++ b) ≡ drop n a ++ b
  drop-append zero a b h = refl
  drop-append (suc n) [] b h = absurd (omega arith)
  drop-append (suc n) (x ∷ a) b h = drop-append n a b (omega arith)

  pub take-append : (n : ℕ) (a b : List A) → n ≤ length a → take n (a ++ b) ≡ take n a
  take-append zero a b h = refl
  take-append (suc n) [] b h = absurd (omega arith)
  take-append (suc n) (x ∷ a) b h = ap (◌∷◌ x) (take-append n a b (omega arith))

  pub set-append : (a r : List A) (x v : A) → set (a ++ x ∷ r) (length a) v ≡ a ++ v ∷ r
  set-append [] r x v = refl
  set-append (y ∷ a) r x v = ap (◌∷◌ y) (set-append a r x v)

  pub get_or-append : (a r : List A) (x d : A) → get_or (a ++ x ∷ r) (length a) d ≡ x
  get_or-append [] r x d = refl
  get_or-append (y ∷ a) r x d = get_or-append a r x d

raw_shift_right-cons :
    (k x : ℕ) (d : List ℕ) → raw_shift_right (suc k) (x ∷ d) ≡ x ∷ set (raw_shift_right k d) 0 x
unfolding raw_shift_right
raw_shift_right-cons zero x d = refl
raw_shift_right-cons (suc k) x d = raw_shift_right-cons k x (set d (suc k) (get_or d k 0))

-- The first byte is there twice then.
pub raw_shift_right_lem :
    (b : List ℕ) (z : ℕ) (c : List ℕ)
    → raw_shift_right (suc (length b)) (b ++ 0 ∷ z ∷ c) ≡ get_or b 0 0 ∷ b ++ 0 ∷ c
unfolding raw_shift_right
raw_shift_right_lem [] z c = refl
raw_shift_right_lem (x ∷ b) z c =
    raw_shift_right-cons (suc (length b)) x (b ++ 0 ∷ z ∷ c)
    ∙ ap (λ d. x ∷ set d 0 x) (raw_shift_right_lem b z c)

pub raw_shift_left_lem :
    (x : ℕ) (b r : List ℕ)
    → NoNul (x ∷ b)
    → raw_shift_left (suc (suc (length b))) ((x ∷ b) ++ 0 ∷ r) ≡ b ++ 0 ∷ 0 ∷ r
unfolding raw_shift_left NoNul
raw_shift_left_lem x [] [] h = ground (arith, h.0)
raw_shift_left_lem x [] (y ∷ r) h = ground (arith, h.0)
raw_shift_left_lem x (y ∷ b) r h = ground (arith, h.0, raw_shift_left_lem y b r h.1)
