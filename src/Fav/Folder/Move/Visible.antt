-- ===== src/Fav/Folder/Move/Visible.antt =====
-- mbbsd/fav.c: `move_in_folder` as the user sees it.
use pttoldstable.Base.{
  ℕ, suc, ◌+◌, ◌<◌, ◌≡◌, refl, ap, sym, ◌∙◌, true, some, List, [], ◌∷◌, ◌++◌, arith, get_or, length,
  length-append, dec_lt,
}
use mathlib.Core.List.{append_assoc}
use pttoldstable.Fav.{Item, blank_item, valid_item}
use pttoldstable.Fav.Folder.Move.{move_slot, move_in_folder}
use pttoldstable.Fav.Folder.Move.Shift.{
  get_or-append_mid, append_cons, length-append_one, move_slot-later, move_slot-earlier,
  move_slot-same,
}
use pttoldstable.Fav.Folder.Move.Places.{
  visible, remove_at, insert_at, visible-append, locate-At, At,
}

module _ {ℓ} {A : Type ℓ} where
  remove_at-mid : (p q : List A) (x : A) → remove_at (length p) (p ++ x ∷ q) ≡ p ++ q
  remove_at-mid [] q x = refl
  remove_at-mid (y ∷ p) q x = ap (◌∷◌ y) (remove_at-mid p q x)

  insert_at-mid : (p q : List A) (x : A) → insert_at (length p) x (p ++ q) ≡ p ++ x ∷ q
  insert_at-mid [] q x = refl
  insert_at-mid (y ∷ p) q x = ap (◌∷◌ y) (insert_at-mid p q x)

  -- Two places in one list, the first before the second.
  between_places :
      (a b a' b' : List A) (x y : A)
      → a ++ x ∷ b ≡ a' ++ y ∷ b'
      → length a < length a'
      → (m : List A) × (a' ≡ a ++ x ∷ m) × (b ≡ m ++ y ∷ b')
  between_places a b [] b' x y e h = absurd (omega arith)
  between_places [] b (w ∷ a') b' x y e h = (a', cc, cc)
  between_places (u ∷ a) b (w ∷ a') b' x y e h =
      let rest : a ++ x ∷ b ≡ a' ++ y ∷ b' = cc in
      let k : length a < length a' = omega arith in
      let (m, f, g) = between_places a b a' b' x y rest k in (m, cc, g)

  same_place :
      (a b a' b' : List A) (x y : A) → a ++ x ∷ b ≡ a' ++ y ∷ b' → length a ≡ length a' → a ≡ a'
  same_place [] b [] b' x y e h = refl
  same_place [] b (w ∷ a') b' x y e h = absurd (omega arith)
  same_place (u ∷ a) b [] b' x y e h = absurd (omega arith)
  same_place (u ∷ a) b (w ∷ a') b' x y e h =
      let rest : a ++ x ∷ b ≡ a' ++ y ∷ b' = cc in
      let k : length a ≡ length a' = omega arith in let f = same_place a b a' b' x y rest k in cc

-- The item number `src` goes to the place `dst` among the others.
abbrev moved : ℕ → ℕ → List Item → List Item
moved src dst l = insert_at dst (get_or l src blank_item) (remove_at src l)

moved-later :
    (a m c : List Item) (x y : Item)
    → moved (length a) (length a + suc (length m)) (a ++ x ∷ (m ++ y ∷ c)) ≡ a ++ (m ++ y ∷ x ∷ c)
moved-later a m c x y =
    let shape : (r : List Item) → (a ++ (m ++ y ∷ [])) ++ r ≡ a ++ (m ++ y ∷ r) =
      λ r. append_assoc a (m ++ y ∷ []) r ∙ ap (◌++◌ a) (append_cons m r y) in
    let n : length a + suc (length m) ≡ length (a ++ (m ++ y ∷ [])) =
      omega (arith, length-append a (m ++ y ∷ []), length-append_one m y) in
    rw (get_or-append_mid a (m ++ y ∷ c) x blank_item, remove_at-mid a (m ++ y ∷ c) x, n, ← shape c)
      (insert_at-mid (a ++ (m ++ y ∷ [])) c x ∙ shape (x ∷ c))

moved-earlier :
    (a m c : List Item) (x y : Item)
    → moved (length a + suc (length m)) (length a) (a ++ y ∷ (m ++ x ∷ c)) ≡ a ++ x ∷ y ∷ (m ++ c)
moved-earlier a m c x y =
    let shape : (r : List Item) → (a ++ y ∷ m) ++ r ≡ a ++ y ∷ (m ++ r) = append_assoc a (y ∷ m) in
    let n : length a + suc (length m) ≡ length (a ++ y ∷ m) =
      omega (arith, length-append a (y ∷ m)) in
    rw
      (
        n,
        ← shape (x ∷ c),
        get_or-append_mid (a ++ y ∷ m) c x blank_item,
        remove_at-mid (a ++ y ∷ m) c x,
        shape c,
      )
      (insert_at-mid a (y ∷ (m ++ c)) x)

moved-same : (a c : List Item) (x : Item) → moved (length a) (length a) (a ++ x ∷ c) ≡ a ++ x ∷ c
moved-same a c x =
    rw (get_or-append_mid a c x blank_item, remove_at-mid a c x) (insert_at-mid a c x)

-- The list of slots, and the slots as the user sees them.
visible-mid :
    (a b : List Item) (x : Item)
    → valid_item x ≡ true
    → visible (a ++ x ∷ b) ≡ visible a ++ x ∷ visible b
visible-mid a b x v = visible-append a (x ∷ b) ∙ rw v refl

Agrees : List Item → ℕ → ℕ → ℕ → ℕ → Type 0
Agrees l src dst s d = visible (move_slot l s d) ≡ moved src dst (visible l)

Agrees-later :
    (a b a' b' : List Item) (x y : Item)
    → a ++ x ∷ b ≡ a' ++ y ∷ b'
    → length a < length a'
    → valid_item x ≡ true
    → valid_item y ≡ true
    → Agrees (a ++ x ∷ b) (length (visible a)) (length (visible a')) (length a) (length a')
unfolding Agrees
Agrees-later a b a' b' x y e h v w =
    let (m, f, g) = between_places a b a' b' x y e h in
    let n : length (a ++ x ∷ m) ≡ length a + suc (length m) = length-append a (x ∷ m) in
    let k : length (visible (a ++ x ∷ m)) ≡ length (visible a) + suc (length (visible m)) =
      ap length (visible-mid a m x v) ∙ length-append (visible a) (x ∷ visible m) in
    let slots : visible (move_slot (a ++ x ∷ (m ++ y ∷ b')) (length a) (length a + suc (length m)))
        ≡ visible a ++ (visible m ++ y ∷ x ∷ visible b') =
      ap visible (move_slot-later a m b' x y)
      ∙ visible-append a (m ++ y ∷ x ∷ b')
      ∙ ap (◌++◌ (visible a)) (visible-mid m (x ∷ b') y w ∙ rw v refl) in
    let seen : visible (a ++ x ∷ (m ++ y ∷ b')) ≡ visible a ++ x ∷ (visible m ++ y ∷ visible b') =
      visible-mid a (m ++ y ∷ b') x v ∙ rw (visible-mid m b' y w) refl in
    rw (f, g, n, k, slots, seen) (sym (moved-later (visible a) (visible m) (visible b') x y))

Agrees-earlier :
    (a b a' b' : List Item) (y x : Item)
    → a ++ y ∷ b ≡ a' ++ x ∷ b'
    → length a < length a'
    → valid_item y ≡ true
    → valid_item x ≡ true
    → Agrees (a ++ y ∷ b) (length (visible a')) (length (visible a)) (length a') (length a)
unfolding Agrees
Agrees-earlier a b a' b' y x e h w v =
    let (m, f, g) = between_places a b a' b' y x e h in
    let n : length (a ++ y ∷ m) ≡ length a + suc (length m) = length-append a (y ∷ m) in
    let k : length (visible (a ++ y ∷ m)) ≡ length (visible a) + suc (length (visible m)) =
      ap length (visible-mid a m y w) ∙ length-append (visible a) (y ∷ visible m) in
    let slots : visible (move_slot (a ++ y ∷ (m ++ x ∷ b')) (length a + suc (length m)) (length a))
        ≡ visible a ++ x ∷ y ∷ (visible m ++ visible b') =
      ap visible (move_slot-earlier a m b' x y)
      ∙ visible-mid a (y ∷ (m ++ b')) x v
      ∙ ap (λ r. visible a ++ x ∷ r) (rw w (ap (◌∷◌ y) (visible-append m b'))) in
    let seen : visible (a ++ y ∷ (m ++ x ∷ b')) ≡ visible a ++ y ∷ (visible m ++ x ∷ visible b') =
      visible-mid a (m ++ x ∷ b') y w ∙ rw (visible-mid m b' x v) refl in
    rw (f, g, n, k, slots, seen) (sym (moved-earlier (visible a) (visible m) (visible b') x y))

Agrees-same :
    (a b : List Item) (x : Item)
    → valid_item x ≡ true
    → Agrees (a ++ x ∷ b) (length (visible a)) (length (visible a)) (length a) (length a)
unfolding Agrees
Agrees-same a b x v =
    ap visible (move_slot-same a b x)
    ∙ visible-mid a b x v
    ∙ rw (visible-mid a b x v) (sym (moved-same (visible a) (visible b) x))

Agrees-At : (l : List Item) (src dst s d : ℕ) → At l src s → At l dst d → Agrees l src dst s d
Agrees-At l src dst s d p q =
    let e : p.front ++ p.item ∷ p.back ≡ q.front ++ q.item ∷ q.back = sym p.parts ∙ q.parts in
    elim (dec_lt (length p.front) (length q.front)) [
      | yes h ↦
          rw (p.parts, ← p.place, ← q.place, ← p.before, ← q.before)
            (Agrees-later p.front p.back q.front q.back p.item q.item e h p.shown q.shown)
      | no h ↦ elim (dec_lt (length q.front) (length p.front)) [
        | yes h' ↦
            rw (q.parts, ← p.place, ← q.place, ← p.before, ← q.before)
              (Agrees-earlier q.front q.back p.front p.back q.item p.item (sym e) h' q.shown
                p.shown)
        | no h' ↦
            let f = same_place p.front p.back q.front q.back p.item q.item e (omega arith) in
            rw (p.parts, ← p.place, ← q.place, ← p.before, ← q.before, ← f)
              (Agrees-same p.front p.back p.item p.shown)
      ]
    ]

-- When the user moves the item that is number `src` on the screen to the place `dst`, both of them
-- shown, `move_in_folder` succeeds, and the user then sees the other items in the order they had,
-- with that item inserted at the place `dst`.
pub move_in_folder-visible :
    (favh : List Item) (src dst : ℕ)
    → src < length (visible favh)
    → dst < length (visible favh)
    → (out : List Item) × (move_in_folder favh src dst ≡ some out)
      × (visible out
          ≡ insert_at dst (get_or (visible favh) src blank_item) (remove_at src (visible favh)))
unfolding move_in_folder Agrees
move_in_folder-visible favh src dst hs hd =
    let (s, es, p) = locate-At src 0 favh hs in
    let (d, ed, q) = locate-At dst 0 favh hd in
    let zs : 0 + s ≡ s = omega arith in
    let zd : 0 + d ≡ d = omega arith in
    (move_slot favh s d, rw (es, ed, zs, zd) refl, Agrees-At favh src dst s d p q)
