-- ===== src/Fav/Rebuild/Tree.antt =====
-- mbbsd/fav.c: what `rebuild_fav` leaves in a folder, where the folders form a tree.
use pttoldstable.Base.{
  ℕ, zero, suc, ◌+◌, ◌≤◌, ◌<◌, ◌≡◌, ◌≢◌, refl, ap, sym, subst, ◌∙◌, inl, inr, Bool, true, false,
  Option, some, List, [], ◌∷◌, arith, ◌==◌, if◌then◌else◌, take, drop, length, Bool-cases,
  ℕ_discrete,
}
use mathlib.Core.List.{append-nil}
use pttoldstable.Base.Take.{drop-cons}
use pttoldstable.Fav.{Item, Fav, Book, blank_item, favt_board, favt_folder, favt_line}
use pttoldstable.Fav.Folder.{slot}
use pttoldstable.Fav.Rebuild.{Store, put, take_slot, take_in, keep, descend, rebuild_loop}
use pttoldstable.Fav.Rebuild.Loop.{Known, Gained, Fits, Gained-cons, Fits-cons, drop-take_slot}

pub put_at : (a : ℕ) (fp : Fav) (st : Store) → (put a fp st).heap a ≡ fp
unfolding put
put_at a fp st = let e : (a == a) ≡ true = ground arith in rw e refl

pub put_other : (a x : ℕ) (fp : Fav) (st : Store) → x ≢ a → (put a fp st).heap x ≡ st.heap x
unfolding put
put_other a x fp st ne = let e : (x == a) ≡ false = ground arith in rw e refl

abbrev book : ℕ → Store → Book
book a st = record { fp = st.heap a; number = st.number }

take_in_at : (a i j : ℕ) (st : Store) → (take_in a i j st).heap a ≡ (take_slot i j (book a st)).fp
unfolding take_in
take_in_at a i j st = put_at a (take_slot i j (book a st)).fp st

module _ (named has_perm : ℕ → Bool) (clean : Bool) where
  -- The items that stay.
  abbrev pub kept : List Item → List Item
  kept [] = []
  kept (x ∷ xs) = let rest = kept xs in if keep named has_perm clean x then x ∷ rest else rest

  pub keep-Known : (x : Item) → keep named has_perm clean x ≡ true → Known x
  unfolding keep
  keep-Known x h = elim (ℕ_discrete x.type favt_board) [
    | yes e ↦ inl e
    | no n ↦ elim (ℕ_discrete x.type favt_line) [
      | yes e ↦ inr (inl e)
      | no m ↦ inr (inr (ground arith))
    ]
  ]

  -- The kept folders of a list satisfy `Ok`.
  abbrev pub Folders : (Item → Type 0) → List Item → Type 0
  Folders Ok [] = Unit
  Folders Ok (x ∷ xs) =
      (keep named has_perm clean x ≡ true → x.type ≡ favt_folder → Ok x) × Folders Ok xs

  module _ (a : ℕ) (P : Store → Type 0) (Ok : Item → Type 0) (rec : ℕ → Store → Option Store)
      (P-take_in : (i j : ℕ) (st : Store) → P st → P (take_in a i j st))
      (P-rec : (x : Item) (st : Store)
        → P st
        → Ok x
        → (st' : Store) × (rec x.this_folder st ≡ some st')
          × P st'
          × (st'.heap a ≡ st.heap a)) where
    descend_lem :
        (x : Item) (st : Store)
        → P st
        → (x.type ≡ favt_folder → Ok x)
        → (st' : Store) × (descend named has_perm clean rec x st ≡ some st')
          × P st'
          × (st'.heap a ≡ st.heap a)
    descend_lem x st p ok = elim (ℕ_discrete x.type favt_folder) [
      | yes e ↦
          let (st', r, p', same) = P-rec x st p (ok e) in
          let t : (x.type == favt_folder) ≡ true = ground arith in (st', rw t r, p', same)
      | no n ↦ let t : (x.type == favt_folder) ≡ false = ground arith in (st, rw t refl, p, refl)
    ]

    abbrev pub Done : ℕ → ℕ → ℕ → Store → List Item → Type 0
    Done left i j st rest =
        (st' : Store) × (rebuild_loop named has_perm clean rec a left i j st ≡ some st')
        × P st'
        × Gained (st.heap a) (st'.heap a) j (kept rest)

    -- The folder of the heap after one round.
    round-Fits :
        (i j : ℕ) (st : Store) (x : Item) (k : List Item)
        → x ≡ slot (st.heap a) i
        → Known x
        → Fits (st.heap a) (x ∷ k)
        → Fits ((take_in a i j st).heap a) k
    round-Fits i j st x k e t f =
        rw (take_in_at a i j st) (
          Fits-cons i j (book a st) k (subst Known e t) (subst (λ z. Fits (st.heap a) (z ∷ k)) e f))

    round-Gained :
        (i j : ℕ) (st : Store) (g : Fav) (x : Item) (k : List Item)
        → x ≡ slot (st.heap a) i
        → j ≤ i
        → i < length (st.heap a).favh
        → Known x
        → Fits (st.heap a) (x ∷ k)
        → Gained ((take_in a i j st).heap a) g (suc j) k
        → Gained (st.heap a) g j (x ∷ k)
    round-Gained i j st g x k e h n t f c =
        subst (λ z. Gained (st.heap a) g j (z ∷ k)) (sym e)
          (Gained-cons i j (book a st) g k h n (subst Known e t)
            (subst (λ z. Fits (st.heap a) (z ∷ k)) e f)
            (subst (λ m. Gained m g (suc j) k) (take_in_at a i j st) c))

    pub rebuild_loop_lem :
        (left i j : ℕ) (st : Store) (rest : List Item)
        → take left (drop i (st.heap a).favh) ≡ rest
        → i + left ≤ length (st.heap a).favh
        → j ≤ i
        → Folders Ok rest
        → P st
        → Fits (st.heap a) (kept rest)
        → Done left i j st rest
    unfolding rebuild_loop
    rebuild_loop_lem zero i j st rest e n h ok p f = rw (← e) (
      st,
      refl,
      p,
      let k : j + 0 ≡ j = omega arith in
          record {
            filled = rw k (sym (append-nil (take j (st.heap a).favh)));
            size = refl;
            boards = omega arith;
            lines = omega arith;
            folders = omega arith;
          },
    )
    rebuild_loop_lem (suc left) i j st rest e n h ok p f =
        let x = slot (st.heap a) i in
        let r' = take left (drop (suc i) (st.heap a).favh) in
        let parts : rest ≡ x ∷ r' =
          sym e ∙ ap (take (suc left)) (drop-cons i (st.heap a).favh blank_item (omega arith)) in
        let ok' = subst (Folders Ok) parts ok in
        let f' = subst (λ r. Fits (st.heap a) (kept r)) parts f in
        subst (Done (suc left) i j st) (sym parts)
          (elim (Bool-cases (keep named has_perm clean x)) [
            | inr k ↦ rw k (
                rebuild_loop_lem left (suc i) j st r' refl (omega arith) (omega arith) ok'.1 p
                  (rw k at f'))
            | inl k ↦
                let known = keep-Known x k in
                let (st1, d, p1, same) = descend_lem x st p (ok'.0 k) in
                let here : x ≡ slot (st1.heap a) i = ap (λ m. slot m i) (sym same) in
                let f1 : Fits (st1.heap a) (x ∷ kept r') = rw same (rw k at f') in
                let n1 : i < length (st1.heap a).favh = rw same (omega arith) in
                let (size, ahead) = drop-take_slot i j (book a st1) h n1 in
                let at2 = take_in_at a i j st1 in
                let (st3, l, p3, g) =
                  rebuild_loop_lem left (suc i) (suc j) (take_in a i j st1) r'
                    (rw (at2, ahead, same) refl) (rw (at2, size, same) (omega arith)) (omega arith)
                    ok'.1 (P-take_in i j st1 p1) (round-Fits i j st1 x (kept r') here known f1) in
                let gained = round-Gained i j st1 (st3.heap a) x (kept r') here h n1 known f1 g in
                rw (k, d, l)
                  (st3, refl, p3, subst (λ m. Gained m (st3.heap a) j (x ∷ kept r')) same gained)
          ])
