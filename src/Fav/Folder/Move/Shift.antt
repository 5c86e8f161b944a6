-- ===== src/Fav/Folder/Move/Shift.antt =====
-- mbbsd/fav.c: what the loops of `move_in_folder` leave in the slots.
use pttoldstable.Base.{
  true, false, ltb, ℕ, zero, suc, ◌+◌, ◌-◌, ◌≤◌, ◌≡◌, refl, ap, ap₂, sym, ◌∙◌, List, [], ◌∷◌, ◌++◌,
  arith, get_or, set, length, length-append,
}
use pttoldstable.Base.Take.{get_or-set_ne}
use mathlib.Core.List.{append_assoc}
use pttoldstable.Fav.{Item, blank_item}
use pttoldstable.Fav.Folder.Move.{shift_left, shift_right, move_slot}

module _ {ℓ} {A : Type ℓ} where
  pub get_or-append_mid : (a c : List A) (x d : A) → get_or (a ++ x ∷ c) (length a) d ≡ x
  get_or-append_mid [] c x d = refl
  get_or-append_mid (y ∷ a) c x d = get_or-append_mid a c x d

  pub set-append_mid : (a c : List A) (x v : A) → set (a ++ x ∷ c) (length a) v ≡ a ++ v ∷ c
  set-append_mid [] c x v = refl
  set-append_mid (y ∷ a) c x v = ap (◌∷◌ y) (set-append_mid a c x v)

  pub append_cons : (a c : List A) (y : A) → (a ++ y ∷ []) ++ c ≡ a ++ y ∷ c
  append_cons [] c y = refl
  append_cons (x ∷ a) c y = ap (◌∷◌ x) (append_cons a c y)

  pub length-append_one : (a : List A) (y : A) → length (a ++ y ∷ []) ≡ suc (length a)
  length-append_one [] y = refl
  length-append_one (x ∷ a) y = ap suc (length-append_one a y)

  get_or-append_next : (a c : List A) (x y d : A) → get_or (a ++ x ∷ y ∷ c) (suc (length a)) d ≡ y
  get_or-append_next [] c x y d = refl
  get_or-append_next (z ∷ a) c x y d = get_or-append_next a c x y d

set-shift_left :
    (m a c : List Item) (z v : Item)
    → set (shift_left (length a) (length m) (a ++ (z ∷ (m ++ c)))) (length a + length m) v
      ≡ a ++ (m ++ v ∷ c)
unfolding shift_left
set-shift_left [] a c z v =
    let e : length a + 0 ≡ length a = omega arith in rw e (set-append_mid a c z v)
set-shift_left (y ∷ m) a c z v =
    let l = a ++ z ∷ y ∷ (m ++ c) in
    let step : set l (length a) (get_or l (suc (length a)) blank_item)
        ≡ (a ++ y ∷ []) ++ (y ∷ (m ++ c)) =
      ap (set l (length a)) (get_or-append_next a (m ++ c) z y blank_item)
      ∙ set-append_mid a (y ∷ (m ++ c)) z y
      ∙ sym (append_cons a (y ∷ (m ++ c)) y) in
    let e : length a + suc (length m) ≡ suc (length a) + length m = omega arith in
    ap₂ (λ k n. set (shift_left (suc (length a)) (length m) k) n v) step e
    ∙ (rw (length-append_one a y) at (set-shift_left m (a ++ y ∷ []) c y v))
    ∙ append_cons a (m ++ v ∷ c) y

shift_right_last :
    (dst left : ℕ) (l : List Item)
    → shift_right dst (suc left) l
      ≡ set
          (shift_right (suc dst) left l)
          (suc dst)
          (get_or (shift_right (suc dst) left l) dst blank_item)
unfolding shift_right
shift_right_last dst zero l =
    let e : dst + 0 ≡ dst = omega arith in
    let e' : dst + 1 ≡ suc dst = omega arith in rw (e, e') refl
shift_right_last dst (suc left) l =
    let e : dst + suc (suc left) ≡ suc dst + suc left = omega arith in
    let e' : dst + suc left ≡ suc dst + left = omega arith in
    shift_right_last dst left (set l (dst + suc (suc left)) (get_or l (dst + suc left) blank_item))
    ∙ rw (e, e') refl

get_or-shift_right :
    (dst left i : ℕ) (l : List Item)
    → i ≤ dst
    → get_or (shift_right dst left l) i blank_item ≡ get_or l i blank_item
unfolding shift_right
get_or-shift_right dst zero i l h = refl
get_or-shift_right dst (suc left) i l h =
    get_or-shift_right dst left i (set l (dst + suc left) (get_or l (dst + left) blank_item)) h
    ∙ get_or-set_ne l (dst + suc left) i (get_or l (dst + left) blank_item) blank_item (omega arith)

set-shift_right :
    (m a c : List Item) (z v : Item)
    → set (shift_right (length a) (length m) (a ++ (m ++ z ∷ c))) (length a) v ≡ a ++ v ∷ (m ++ c)
unfolding shift_right
set-shift_right [] a c z v = set-append_mid a c z v
set-shift_right (y ∷ m) a c z v =
    let l = a ++ y ∷ (m ++ z ∷ c) in
    let l' = shift_right (suc (length a)) (length m) l in
    let low : get_or l' (length a) blank_item ≡ y =
      get_or-shift_right (suc (length a)) (length m) (length a) l (omega arith)
      ∙ get_or-append_mid a (m ++ z ∷ c) y blank_item in
    let high : set l' (suc (length a)) y ≡ (a ++ y ∷ []) ++ y ∷ (m ++ c) =
      rw (length-append_one a y, append_cons a (m ++ z ∷ c) y) at
        (set-shift_right m (a ++ y ∷ []) c z y) in
    ap (λ k. set k (length a) v)
      (shift_right_last (length a) (length m) l
        ∙ ap (set l' (suc (length a))) low
        ∙ high
        ∙ append_cons a (y ∷ (m ++ c)) y)
    ∙ set-append_mid a (y ∷ (m ++ c)) y v

-- An item that moves towards the end: those in between close up.
pub move_slot-later :
    (a m c : List Item) (x y : Item)
    → move_slot (a ++ x ∷ (m ++ y ∷ c)) (length a) (length a + suc (length m))
      ≡ a ++ (m ++ y ∷ x ∷ c)
unfolding move_slot
move_slot-later a m c x y =
    let l = a ++ x ∷ (m ++ y ∷ c) in
    let n : length a + suc (length m) - length a ≡ length (m ++ y ∷ []) =
      omega (arith, length-append_one m y) in
    let k : length a + suc (length m) ≡ length a + length (m ++ y ∷ []) =
      omega (arith, length-append_one m y) in
    let t = get_or-append_mid a (m ++ y ∷ c) x blank_item in
    let less : ltb (length a) (length a + suc (length m)) ≡ true = ground arith in
    let moved : set (shift_left (length a) (length (m ++ y ∷ [])) l)
          (length a + length (m ++ y ∷ [])) x
        ≡ a ++ (m ++ y ∷ x ∷ c) =
      rw (append_cons m c y, append_cons m (x ∷ c) y) at (set-shift_left (m ++ y ∷ []) a c x x) in
    rw (less, n, t, k) moved

pub move_slot-earlier :
    (a m c : List Item) (x y : Item)
    → move_slot (a ++ y ∷ (m ++ x ∷ c)) (length a + suc (length m)) (length a)
      ≡ a ++ x ∷ y ∷ (m ++ c)
unfolding move_slot
move_slot-earlier a m c x y =
    let n : length a + suc (length m) - length a ≡ suc (length m) = omega arith in
    let less : ltb (length a + suc (length m)) (length a) ≡ false = ground arith in
    let t : get_or (a ++ y ∷ (m ++ x ∷ c)) (length a + suc (length m)) blank_item ≡ x =
      rw (length-append a (y ∷ m), append_assoc a (y ∷ m) (x ∷ c)) at
        (get_or-append_mid (a ++ y ∷ m) c x blank_item) in
    rw (less, n, t) (set-shift_right (y ∷ m) a c x x)

pub move_slot-same :
    (a c : List Item) (x : Item) → move_slot (a ++ x ∷ c) (length a) (length a) ≡ a ++ x ∷ c
unfolding move_slot
move_slot-same a c x =
    let n : length a - length a ≡ 0 = omega arith in
    let less : ltb (length a) (length a) ≡ false = ground arith in
    rw (less, n, get_or-append_mid a c x blank_item) (set-append_mid a c x x)
