-- ===== src/Fav/Folder/Boards.antt =====
-- mbbsd/fav.c: what a folder shows after boards are added and items removed.
use pttoldstable.Base.{
  ℕ, ◌+◌, ◌≤◌, ◌<◌, ◌≡◌, ◌≢◌, refl, ap, inl, inr, true, false, none, some, [], ◌∷◌, arith, ◌==◌,
  if◌then◌else◌, length, Bool-cases, Option-cases, ℕ_discrete,
}
use pttoldstable.Fav.{
  Item, Fav, Book, blank_item, favt_board, numbered, set_attr, unset, valid_item, is_set_attr,
  fav_getid, fav_decrease, count_down,
}
use pttoldstable.Base.Bits.{bit_and-zero}
use pttoldstable.Fav.Folder.{
  used, slot, write_slot, matches, get_fav_item, fav_add, is_maxsize, init_add, getboard,
  fav_add_board, fav_remove, fav_remove_item, enlarge_if_full, short_lt, grown, append_item,
}
use pttoldstable.Fav.Folder.Counts.{IsValid, HasRoom, take-set, get_or-take}
use pttoldstable.Fav.Folder.Add.{fav_add-numbered}
use pttoldstable.Fav.Folder.Hits.{
  hit, hits, hits-append, hits-set, find_slot-none, find_slot_of_none, hit_other, get_fav_item-some,
}

count_down-kept :
    (fp : Fav) (t : ℕ)
    → ((count_down fp t).favh ≡ fp.favh) × ((count_down fp t).data_tail ≡ fp.data_tail)
unfolding count_down
count_down-kept fp t = ground arith

hit-dead : (x : Item) (id type : ℕ) → hit id type (set_attr x 65535 unset) ≡ 0
unfolding matches valid_item is_set_attr set_attr
hit-dead x id type = rw (bit_and-zero x.attr) refl

-- A removed item matches nothing, and the other slots stay.
hits-fav_remove :
    (b : Book) (i id type : ℕ)
    → i < b.fp.data_tail
    → i < length (used b.fp)
    → hits id type (used (fav_remove b i).fp) + hit id type (slot b.fp i) ≡ hits id type (used b.fp)
unfolding fav_remove fav_decrease write_slot set_attr
hits-fav_remove b i id type d n =
    let dead = set_attr (slot b.fp i) 65535 unset in
    let fp = write_slot b.fp i dead in
    let (favh, tail) = count_down-kept fp (slot b.fp i).type in
    let gone : hit id type dead ≡ 0 = hit-dead (slot b.fp i) id type in
    let old = get_or-take b.fp.data_tail i b.fp.favh blank_item d in
    rw (favh, tail, take-set b.fp.data_tail i b.fp.favh dead)
      (omega (arith, hits-set id type (used b.fp) i dead n, gone, ap (hit id type) old))

-- In a folder that shows the item of this type and id at most once, `fav_remove_item`, where it finds
-- the item, leaves it shown no more, so that a second search finds nothing; every item of another
-- id of that type is shown as often as before.
pub get_fav_item-fav_remove_item :
    (b b' : Book) (id type k : ℕ)
    → hits id type (used b.fp) ≤ 1
    → fav_remove_item b id type ≡ some b'
    → (hits id type (used b'.fp) ≡ 0)
      × (get_fav_item b'.fp id type ≡ none)
      × (k ≢ id → hits k type (used b'.fp) ≡ hits k type (used b.fp))
unfolding fav_remove_item get_fav_item
get_fav_item-fav_remove_item b b' id type k once e =
    elim (Option-cases (get_fav_item b.fp id type)) [
      | inl n ↦ let nothing : none ≡ some b' = rw (n, fav_remove_item) at e in absurd cc
      | inr (i, n) ↦
          let done : some (fav_remove b i) ≡ some b' = rw (n, fav_remove_item) at e in
          let e' : fav_remove b i ≡ b' = cc in
          let (d, l, m) = get_fav_item-some b.fp id type i n in
          let gone : hits id type (used (fav_remove b i).fp) ≡ 0 =
            ground (arith, hits-fav_remove b i id type d l) in
          rw (← e') (
            gone,
            find_slot_of_none id type 0 (used (fav_remove b i).fp) gone,
            λ ne.
                ground
                  (arith, hits-fav_remove b i k type d l, hit_other (slot b.fp i) id k type m ne),
          )
    ]

-- The item that `fav_add_board` adds.
abbrev new_board : ℕ → Item
new_board bid = record blank_item { type = favt_board; attr = 1; id = bid }

getboard-hits :
    (fp : Fav) (bid i : ℕ) → getboard fp bid ≡ some i → 1 ≤ hits bid favt_board (used fp)
unfolding getboard get_fav_item
getboard-hits fp bid i e = elim (ℕ_discrete (hits bid favt_board (used fp)) 0) [
  | yes z ↦ let n = find_slot_of_none bid favt_board 0 (used fp) z in absurd cc
  | no p ↦ omega arith
]

not-getboard-hits :
    (fp : Fav) (bid : ℕ) → getboard fp bid ≡ none → hits bid favt_board (used fp) ≡ 0
unfolding getboard get_fav_item
not-getboard-hits fp bid e = find_slot-none bid favt_board 0 (used fp) e

-- Where `fav_add_board` adds the board.
fav_add_board-new :
    (b c : Book) (bid : ℕ)
    → is_maxsize b ≡ false
    → getboard b.fp bid ≡ none
    → fav_add true b (new_board bid) ≡ some c
    → (fav_add_board true bid b).0 ≡ c
unfolding fav_add_board init_add set_attr
fav_add_board-new b c bid m n e =
    let pair : fav_add_board true bid b ≡ (c, some (numbered b.fp (new_board bid))) =
      rw (n, fav_add_board, m, init_add, e) refl in
    ap (λ p. p.0) pair

-- With room for more items the array can only lack memory.
enlarge_if_full-some :
    (b : Book) → is_maxsize b ≡ false → (c : Book) × (enlarge_if_full true b ≡ some c)
unfolding enlarge_if_full
enlarge_if_full-some b m = elim (Bool-cases (short_lt b.fp.data_tail b.fp.n_allocs)) [
  | inl s ↦ (b, rw (m, s) refl)
  | inr s ↦ (record b { fp = grown b.fp }, rw (m, s) refl)
]

fav_add-some :
    (b : Book) (x : Item) → is_maxsize b ≡ false → (c : Book) × (fav_add true b x ≡ some c)
unfolding fav_add
fav_add-some b x m =
    let (c, e) = enlarge_if_full-some b m in (append_item c x, rw (e, fav_add) refl)

hit-new_board :
    (f : Fav) (bid k : ℕ)
    → hit k favt_board (numbered f (new_board bid)) ≡ (if bid == k then 1 else 0)
unfolding numbered matches valid_item is_set_attr fav_getid
hit-new_board f bid k = refl

-- In a well-formed folder of fewer than 32760 slots that shows the board `bid` at most once, while
-- fewer than 1024 items are counted and `realloc` succeeds, `fav_add_board bid` leaves the board
-- shown exactly once, and every other board as often as before.
pub fav_add_board-hits :
    (b : Book) (bid k : ℕ)
    → IsValid b.fp
    → b.fp.n_allocs < 32760
    → is_maxsize b ≡ false
    → hits bid favt_board (used b.fp) ≤ 1
    → hits k favt_board (used (fav_add_board true bid b).0.fp)
      ≡ (if k == bid then 1 else hits k favt_board (used b.fp))
unfolding fav_add_board HasRoom
fav_add_board-hits b bid k v h m once = elim (Option-cases (getboard b.fp bid)) [
  | inr (i, n) ↦
      let found = getboard-hits b.fp bid i n in
      elim (ℕ_discrete k bid) [
        | yes e ↦ rw (n, fav_add_board, e) (ground arith)
        | no e ↦ rw (n, fav_add_board) (ground arith)
      ]
  | inl n ↦
      let (c, e) = fav_add-some b (new_board bid) m in
      let none_yet = not-getboard-hits b.fp bid n in
      let (_, u) =
        fav_add-numbered true b c (new_board bid) v h (λ z. absurd (omega arith))
          ((λ z. absurd (omega arith)), λ z. absurd (omega arith)) e in
      rw (fav_add_board-new b c bid m n e, u)
        (ground (
          arith,
          hits-append k favt_board (used b.fp) (numbered b.fp (new_board bid) ∷ []),
          hit-new_board b.fp bid k,
        ))
]
