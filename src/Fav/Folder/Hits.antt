-- ===== src/Fav/Folder/Hits.antt =====
-- mbbsd/fav.c: how often a folder shows an item, and what `get_fav_item` finds.
use pttoldstable.Base.{
  ℕ, zero, suc, ◌+◌, ◌<◌, ◌≡◌, ◌≢◌, refl, ap, ◌∙◌, inl, inr, true, none, some, List, [], ◌∷◌, ◌++◌,
  arith, if◌then◌else◌, get_or, set, length, Bool-cases, Option-cases, length-take, subst,
}
use pttoldstable.Fav.{Item, Fav, blank_item, fav_getid}
use pttoldstable.Fav.Folder.{used, slot, matches, find_slot, get_fav_item}
use pttoldstable.Fav.Folder.Counts.{get_or-take}

-- 1 where `get_fav_item` takes the item.
abbrev pub hit : ℕ → ℕ → Item → ℕ
hit id type x = if matches id type x then 1 else 0

-- How often the items of a type show an id.
abbrev pub hits : ℕ → ℕ → List Item → ℕ
hits id type [] = 0
hits id type (x ∷ xs) = hit id type x + hits id type xs

pub hits-append :
    (id type : ℕ) (a b : List Item) → hits id type (a ++ b) ≡ hits id type a + hits id type b
hits-append id type [] b = omega arith
hits-append id type (x ∷ a) b = omega (arith, hits-append id type a b)

pub hits-set :
    (id type : ℕ) (xs : List Item) (i : ℕ) (v : Item)
    → i < length xs
    → hits id type (set xs i v) + hit id type (get_or xs i blank_item)
      ≡ hits id type xs + hit id type v
hits-set id type [] i v h = absurd (omega arith)
hits-set id type (x ∷ xs) zero v h = omega arith
hits-set id type (x ∷ xs) (suc i) v h = omega (arith, hits-set id type xs i v (omega arith))

pub find_slot-none :
    (id type i : ℕ) (xs : List Item) → find_slot id type i xs ≡ none → hits id type xs ≡ 0
unfolding find_slot
find_slot-none id type i [] e = refl
find_slot-none id type i (x ∷ xs) e = ground (arith, find_slot-none id type (suc i) xs)

pub find_slot_of_none :
    (id type i : ℕ) (xs : List Item) → hits id type xs ≡ 0 → find_slot id type i xs ≡ none
unfolding find_slot
find_slot_of_none id type i [] e = refl
find_slot_of_none id type i (x ∷ xs) e = ground (arith, find_slot_of_none id type (suc i) xs)

-- An item has one id.
pub matches_once :
    (x : Item) (id k type : ℕ) → matches id type x ≡ true → matches k type x ≡ true → k ≡ id
unfolding matches
matches_once x id k type m m' = elim (Option-cases (fav_getid x)) [
  | inl n ↦ ground arith
  | inr (j, n) ↦ ground arith
]

pub hit_other : (x : Item) (id k type : ℕ) → matches id type x ≡ true → k ≢ id → hit k type x ≡ 0
hit_other x id k type m ne = elim (Bool-cases (matches k type x)) [
  | inl m' ↦ absurd (ne (matches_once x id k type m m'))
  | inr m' ↦ rw m' refl
]

-- The slot that is found is in use and matches.
pub find_slot-some :
    (id type i k : ℕ) (xs : List Item)
    → find_slot id type i xs ≡ some k
    → (j : ℕ) × (k ≡ i + j) × (j < length xs) × (matches id type (get_or xs j blank_item) ≡ true)
unfolding find_slot
find_slot-some id type i k [] e = cc
find_slot-some id type i k (x ∷ xs) e = elim (Bool-cases (matches id type x)) [
  | inl m ↦ (0, ground arith, omega arith, m)
  | inr m ↦
      let (j, f, n, t) = find_slot-some id type (suc i) k xs (rw (m, find_slot) at e) in
      (suc j, omega arith, omega arith, t)
]

pub get_fav_item-some :
    (fp : Fav) (id type i : ℕ)
    → get_fav_item fp id type ≡ some i
    → (i < fp.data_tail) × (i < length (used fp)) × (matches id type (slot fp i) ≡ true)
unfolding get_fav_item
get_fav_item-some fp id type i e =
    let (j, f, n, t) = find_slot-some id type 0 i (used fp) e in
    let g : j ≡ i = omega arith in
    let n' : i < length (used fp) = rw g at n in
    let d : i < fp.data_tail = omega (arith, length-take fp.data_tail fp.favh) in
    let same =
      ap (λ k. get_or (used fp) k blank_item) g ∙ get_or-take fp.data_tail i fp.favh blank_item d in
    (d, n', subst (λ y. matches id type y ≡ true) same t)
