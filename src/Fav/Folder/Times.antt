-- ===== src/Fav/Folder/Times.antt =====
-- mbbsd/fav.c: the time of the last visit that a folder keeps for a board.
use pttoldstable.Base.{
  ℕ, zero, suc, ◌<◌, ◌≡◌, ◌≢◌, refl, ap, sym, subst, ◌∙◌, inl, inr, true, false, none, some, List,
  [], ◌∷◌, arith, ◌==◌, if◌then◌else◌, get_or, set, length, length-take, Option-cases, ℕ_discrete,
}
use pttoldstable.Base.Take.{get_or-set_self, get_or-set_ne}
use pttoldstable.Fav.{Item, Fav, blank_item, favt_board, valid_item, is_set_attr, fav_getid}
use pttoldstable.Fav.Folder.{
  used, slot, write_slot, matches, find_slot, get_fav_item, getboard, getbrdtime, setbrdtime,
}
use pttoldstable.Fav.Folder.Counts.{take-set, get_or-take}
use pttoldstable.Fav.Folder.Hits.{get_fav_item-some, matches_once}

-- A search does not notice a write that keeps what it reads.
find_slot-set :
    (id type i j : ℕ) (xs : List Item) (y : Item)
    → matches id type y ≡ matches id type (get_or xs j blank_item)
    → find_slot id type i (set xs j y) ≡ find_slot id type i xs
unfolding find_slot
find_slot-set id type i j [] y e = refl
find_slot-set id type i zero (x ∷ xs) y e = rw e refl
find_slot-set id type i (suc j) (x ∷ xs) y e = rw (find_slot-set id type (suc i) j xs y e) refl

module _ (fp : Fav) (i t : ℕ) where
  visited : Item
  visited = record (slot fp i) { lastvisit = t }

  matches-visited : (k : ℕ) → matches k favt_board visited ≡ matches k favt_board (slot fp i)
  unfolding matches valid_item is_set_attr fav_getid visited
  matches-visited k = refl

  getboard-visited :
      (k : ℕ) → i < fp.data_tail → getboard (write_slot fp i visited) k ≡ getboard fp k
  unfolding getboard get_fav_item write_slot
  getboard-visited k h =
      let e : matches k favt_board visited ≡ matches k favt_board (get_or (used fp) i blank_item) =
        matches-visited k
        ∙ ap (matches k favt_board) (sym (get_or-take fp.data_tail i fp.favh blank_item h)) in
      rw (take-set fp.data_tail i fp.favh visited)
        (find_slot-set k favt_board 0 i (used fp) visited e)

  -- The slot that was written has the time, the others theirs.
  slot-visited_self : i < length fp.favh → (slot (write_slot fp i visited) i).lastvisit ≡ t
  unfolding write_slot visited
  slot-visited_self h = rw (get_or-set_self fp.favh i visited blank_item h) refl

  slot-visited_other : (j : ℕ) → i ≢ j → slot (write_slot fp i visited) j ≡ slot fp j
  unfolding write_slot
  slot-visited_other j ne = get_or-set_ne fp.favh i j visited blank_item ne

getbrdtime-some :
    (fp : Fav) (k j : ℕ) → getboard fp k ≡ some j → getbrdtime fp k ≡ (slot fp j).lastvisit
unfolding getbrdtime
getbrdtime-some fp k j e = rw (e, getbrdtime) refl

getbrdtime-none : (fp : Fav) (k : ℕ) → getboard fp k ≡ none → getbrdtime fp k ≡ 0
unfolding getbrdtime
getbrdtime-none fp k e = rw (e, getbrdtime) refl

setbrdtime-some :
    (fp : Fav) (bid i t : ℕ)
    → getboard fp bid ≡ some i
    → setbrdtime fp bid t ≡ write_slot fp i (visited fp i t)
unfolding setbrdtime visited
setbrdtime-some fp bid i t e = rw (e, setbrdtime) refl

-- In a folder that shows the board `bid`: after
-- `setbrdtime` the time of `bid` is the one that was set, and that of every other board is as before.
pub getbrdtime-setbrdtime :
    (fp : Fav) (bid i t k : ℕ)
    → getboard fp bid ≡ some i
    → getbrdtime (setbrdtime fp bid t) k ≡ (if k == bid then t else getbrdtime fp k)
unfolding getboard
getbrdtime-setbrdtime fp bid i t k e =
    let (d, l, m) = get_fav_item-some fp bid favt_board i e in
    let n : i < length fp.favh = omega (arith, length-take fp.data_tail fp.favh) in
    let fp' = write_slot fp i (visited fp i t) in
    let same = getboard-visited fp i t k d in
    rw (setbrdtime-some fp bid i t e) (elim (ℕ_discrete k bid) [
      | yes q ↦
          let b : (k == bid) ≡ true = ground arith in
          rw b
            (getbrdtime-some fp' k i (same ∙ ap (getboard fp) q ∙ e) ∙ slot-visited_self fp i t n)
      | no q ↦
          let b : (k == bid) ≡ false = ground arith in
          rw b (elim (Option-cases (getboard fp k)) [
            | inl z ↦ getbrdtime-none fp' k (same ∙ z) ∙ sym (getbrdtime-none fp k z)
            | inr (j, z) ↦
                let (_, _, m') = get_fav_item-some fp k favt_board j z in
                let ne : i ≢ j = λ u. q (
                  matches_once (slot fp i) bid k favt_board m
                    (subst (λ h. matches k favt_board (slot fp h) ≡ true) (sym u) m')) in
                getbrdtime-some fp' k j (same ∙ z)
                ∙ ap (λ x. x.lastvisit) (slot-visited_other fp i t j ne)
                ∙ sym (getbrdtime-some fp k j z)
          ])
    ])
