-- ===== src/Fav/Folder/Move/Places.antt =====
-- mbbsd/fav.c: the items that the user sees, and the slots in which `move_in_folder` finds them.
use pttoldstable.Base.{
  ℕ, zero, suc, ◌+◌, ◌-◌, ◌<◌, ◌≡◌, refl, ap, inl, inr, true, false, some, List, [], ◌∷◌, ◌++◌,
  arith, if◌then◌else◌, length, Bool-cases,
}
use pttoldstable.Fav.{Item, valid_item}
use pttoldstable.Fav.Folder.Move.{locate}

-- What the user sees.
abbrev pub visible : List Item → List Item
visible [] = []
visible (x ∷ xs) = let rest = visible xs in if valid_item x then x ∷ rest else rest

abbrev pub remove_at {ℓ} : {A : Type ℓ} → ℕ → List A → List A
remove_at n [] = []
remove_at zero (x ∷ xs) = xs
remove_at (suc n) (x ∷ xs) = x ∷ remove_at n xs

abbrev pub insert_at {ℓ} : {A : Type ℓ} → ℕ → A → List A → List A
insert_at zero a xs = a ∷ xs
insert_at (suc n) a [] = a ∷ []
insert_at (suc n) a (x ∷ xs) = x ∷ insert_at n a xs

pub visible-append : (a b : List Item) → visible (a ++ b) ≡ visible a ++ visible b
visible-append [] b = refl
visible-append (x ∷ a) b = ground (arith, visible-append a b)

-- Where `locate` stops: the slots before, the item, and those after.
pub record At (l : List Item) (n i : ℕ) : Type 0 where
  pub front : List Item
  pub item : Item
  pub back : List Item
  pub parts : l ≡ front ++ item ∷ back
  pub place : length front ≡ i
  pub shown : valid_item item ≡ true
  pub before : length (visible front) ≡ n

pub At-shown :
    (x : Item) (l : List Item) (n i : ℕ)
    → valid_item x ≡ true
    → At l n i
    → At (x ∷ l) (suc n) (suc i)
At-shown x l n i v a = record {
  front = x ∷ a.front;
  item = a.item;
  back = a.back;
  parts = ap (◌∷◌ x) a.parts;
  place = ap suc a.place;
  shown = a.shown;
  before = rw v (ap suc a.before);
}

pub At-hidden :
    (x : Item) (l : List Item) (n i : ℕ) → valid_item x ≡ false → At l n i → At (x ∷ l) n (suc i)
At-hidden x l n i v a = record {
  front = x ∷ a.front;
  item = a.item;
  back = a.back;
  parts = ap (◌∷◌ x) a.parts;
  place = ap suc a.place;
  shown = a.shown;
  before = rw v a.before;
}

pub locate-At :
    (n o : ℕ) (l : List Item)
    → n < length (visible l)
    → (i : ℕ) × (locate n o l ≡ some (o + i)) × At l n i
unfolding locate
locate-At n o [] h = absurd (omega arith)
locate-At zero o (x ∷ l) h = elim (Bool-cases (valid_item x)) [
  | inl v ↦
      let e : o + 0 ≡ o = omega arith in
      (
        0,
        rw (v, e) refl,
        record {
          front = [];
          item = x;
          back = l;
          parts = refl;
          place = refl;
          shown = v;
          before = refl;
        },
      )
  | inr v ↦
      let (i, e, a) = locate-At zero (suc o) l (rw v at h) in
      let k : o + suc i ≡ suc o + i = omega arith in (suc i, rw (v, k) e, At-hidden x l zero i v a)
]
locate-At (suc n) o (x ∷ l) h = elim (Bool-cases (valid_item x)) [
  | inl v ↦
      let (i, e, a) = locate-At n (suc o) l (ground arith) in
      let k : o + suc i ≡ suc o + i = omega arith in
      let m : suc n - 1 ≡ n = omega arith in (suc i, ground arith, At-shown x l n i v a)
  | inr v ↦
      let (i, e, a) = locate-At (suc n) (suc o) l (rw v at h) in
      let k : o + suc i ≡ suc o + i = omega arith in
      (suc i, rw (v, k) e, At-hidden x l (suc n) i v a)
]
