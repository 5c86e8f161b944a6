-- ===== src/Fav/Folder/Counts.antt =====
-- mbbsd/fav.c: the counters of a folder agree with its items, whatever is added or removed.
use pttoldstable.Base.{
  ℕ, zero, suc, ◌+◌, ◌≤◌, ◌<◌, ◌≡◌, ◌≢◌, refl, ap, sym, ◌∙◌, not, ◌&&◌, List, [], ◌∷◌, ◌++◌, arith,
  ◌==◌, if◌then◌else◌, get_or, set, take, length, length-set, length-take,
}
use pttoldstable.Base.Bits.{bit_and-zero}
use pttoldstable.Base.Take.{take-suc, take-set-below, get_or-set_self}
use pttoldstable.Fav.{
  Item, Fav, Book, blank_item, favt_board, favt_folder, favt_line, inc, set_attr, fav_decrease,
  numbered, counted, count_up, count_down, unset,
}
use pttoldstable.Fav.Folder.{used, slot, write_slot, fav_remove}

-- An item that is not removed; only `fav_remove` clears all attributes.
abbrev pub live : ℕ → Item → ℕ
live kind x = if (x.type == kind) && not (x.attr == 0) then 1 else 0

abbrev pub count : ℕ → List Item → ℕ
count kind [] = 0
count kind (x ∷ xs) = live kind x + count kind xs

pub record IsValid (fp : Fav) : Type 0 where
  pub slots : length fp.favh ≡ fp.n_allocs
  pub tail : fp.data_tail ≤ fp.n_allocs
  pub size : fp.n_allocs < 32768
  pub boards : fp.n_boards ≡ count favt_board (used fp)
  pub lines : fp.n_lines ≡ count favt_line (used fp)
  pub folders : fp.n_folders ≡ count favt_folder (used fp)

pub count-append : (k : ℕ) (a b : List Item) → count k (a ++ b) ≡ count k a + count k b
count-append k [] b = omega arith
count-append k (x ∷ a) b = omega (arith, count-append k a b)

pub count-set :
    (k : ℕ) (xs : List Item) (i : ℕ) (v : Item)
    → i < length xs
    → count k (set xs i v) + live k (get_or xs i blank_item) ≡ count k xs + live k v
count-set k [] i v h = absurd (omega arith)
count-set k (x ∷ xs) zero v h = omega arith
count-set k (x ∷ xs) (suc i) v h = omega (arith, count-set k xs i v (omega arith))

pub count-le-length : (k : ℕ) (xs : List Item) → count k xs ≤ length xs
count-le-length k [] = omega arith
count-le-length k (x ∷ xs) = ground (arith, count-le-length k xs)

module _ {ℓ} {A : Type ℓ} where
  pub take-set : (n i : ℕ) (l : List A) (v : A) → take n (set l i v) ≡ set (take n l) i v
  take-set zero i l v = refl
  take-set (suc n) i [] v = refl
  take-set (suc n) zero (x ∷ l) v = refl
  take-set (suc n) (suc i) (x ∷ l) v = ap (◌∷◌ x) (take-set n i l v)

  pub take-append_le : (n : ℕ) (l r : List A) → n ≤ length l → take n (l ++ r) ≡ take n l
  take-append_le zero l r h = refl
  take-append_le (suc n) [] r h = absurd (omega arith)
  take-append_le (suc n) (x ∷ l) r h = ap (◌∷◌ x) (take-append_le n l r (omega arith))

  pub get_or-take : (n i : ℕ) (l : List A) (d : A) → i < n → get_or (take n l) i d ≡ get_or l i d
  get_or-take zero i l d h = absurd (omega arith)
  get_or-take (suc n) i [] d h = refl
  get_or-take (suc n) zero (x ∷ l) d h = refl
  get_or-take (suc n) (suc i) (x ∷ l) d h = get_or-take n i l d (omega arith)

-- The slots in use after a write to the first free one.
pub take-set_next :
    (n : ℕ) (l : List Item) (v : Item)
    → n < length l
    → take (suc n) (set l n v) ≡ take n l ++ v ∷ []
take-set_next n l v h =
    take-suc n (set l n v) blank_item (omega (arith, length-set l n v))
    ∙ rw (take-set-below n n l v (omega arith), get_or-set_self l n v blank_item h) refl

-- One item of the kind `t` more is counted than there is.
abbrev over : ℕ → Fav → ℕ → ℕ
over k fp t = count k (used fp) + (if t == k then 1 else 0)

count_down-IsValid :
    (fp : Fav) (t : ℕ)
    → length fp.favh ≡ fp.n_allocs
    → fp.data_tail ≤ fp.n_allocs
    → fp.n_allocs < 32768
    → fp.n_boards ≡ over favt_board fp t
    → fp.n_lines ≡ over favt_line fp t
    → fp.n_folders ≡ over favt_folder fp t
    → IsValid (count_down fp t)
unfolding count_down
count_down-IsValid fp t s d z hb hl hf = ground arith

module _ (b : Book) (i : ℕ) where
  abbrev old : Item
  old = slot b.fp i

  dead : Item
  unfolding set_attr
  dead = set_attr old 65535 unset

  dead-attr : dead.attr ≡ 0
  unfolding dead set_attr
  dead-attr = bit_and-zero old.attr

  live-dead : (k : ℕ) → live k dead ≡ 0
  live-dead k = rw dead-attr (ground arith)

  count-dead :
      (k : ℕ)
      → i < b.fp.data_tail
      → b.fp.data_tail ≤ length b.fp.favh
      → count k (take b.fp.data_tail (set b.fp.favh i dead)) + live k old ≡ count k (used b.fp)
  count-dead k h h' =
      let l = used b.fp in
      let n : i < length l = omega (arith, length-take b.fp.data_tail b.fp.favh) in
      let e = get_or-take b.fp.data_tail i b.fp.favh blank_item h in
      rw (take-set b.fp.data_tail i b.fp.favh dead)
        (omega (arith, rw e at (count-set k l i dead n), live-dead k))

  -- Before the counter of its kind goes down, the removed item still counts.
  pub fav_remove-IsValid :
      IsValid b.fp → i < b.fp.data_tail → old.attr ≢ 0 → IsValid (fav_remove b i).fp
  unfolding fav_remove fav_decrease write_slot dead
  fav_remove-IsValid v h a =
      let off = λ (k : ℕ). count-dead k h (omega (arith, v.slots, v.tail)) in
      let one : (k : ℕ) → live k old ≡ (if old.type == k then 1 else 0) = λ k. ground arith in
      count_down-IsValid (write_slot b.fp i dead) old.type (length-set b.fp.favh i dead ∙ v.slots)
        v.tail v.size (v.boards ∙ sym (off favt_board) ∙ rw (one favt_board) refl)
        (v.lines ∙ sym (off favt_line) ∙ rw (one favt_line) refl)
        (v.folders ∙ sym (off favt_folder) ∙ rw (one favt_folder) refl)

-- Its kind is counted up, and the item takes the first free slot.
pub numbered-live : (fp : Fav) (x : Item) (k : ℕ) → live k (numbered fp x) ≡ live k x
unfolding numbered
numbered-live fp x k = ground arith

unfoldable pub HasRoom : Fav → Item → Type 0
HasRoom fp x = (x.type ≡ favt_line → fp.n_lines < 255) × (x.type ≡ favt_folder → fp.n_folders < 255)

pub count_up-kept :
    (fp : Fav) (t : ℕ)
    → ((count_up fp t).favh ≡ fp.favh)
      × ((count_up fp t).data_tail ≡ fp.data_tail)
      × ((count_up fp t).n_allocs ≡ fp.n_allocs)
unfolding count_up
count_up-kept fp t = ground arith

pub count_up_lem :
    (fp : Fav) (t : ℕ)
    → ((count_up fp t).n_boards ≡ (if t == favt_board then inc 65535 fp.n_boards else fp.n_boards))
      × ((count_up fp t).n_lines ≡ (if t == favt_line then inc 255 fp.n_lines else fp.n_lines))
      × ((count_up fp t).n_folders
          ≡ (if t == favt_folder then inc 255 fp.n_folders else fp.n_folders))
unfolding count_up
count_up_lem fp t = ground arith

pub counted-IsValid :
    (fp : Fav) (x : Item)
    → length fp.favh ≡ fp.n_allocs
    → suc fp.data_tail ≤ fp.n_allocs
    → fp.n_allocs < 32768
    → HasRoom fp x
    → fp.n_boards + live favt_board x ≡ count favt_board (take (suc fp.data_tail) fp.favh)
    → fp.n_lines + live favt_line x ≡ count favt_line (take (suc fp.data_tail) fp.favh)
    → fp.n_folders + live favt_folder x ≡ count favt_folder (take (suc fp.data_tail) fp.favh)
    → x.attr ≢ 0
    → fp.n_boards < 65535
    → IsValid (counted fp x)
unfolding counted HasRoom
counted-IsValid fp x s d z r hb hl hf a n =
    let fp' = count_up fp x.type in
    let (favh, tail, allocs) = count_up-kept fp x.type in
    let (boards, lines, folders) = count_up_lem fp x.type in
    let e : inc 65535 fp'.data_tail ≡ suc fp.data_tail = rw tail (ground arith) in
    let u : used (counted fp x) ≡ take (suc fp.data_tail) fp.favh = rw (e, favh) refl in
    record {
      slots = ap length favh ∙ s ∙ sym allocs;
      tail = rw (e, allocs) d;
      size = rw allocs z;
      boards = boards ∙ (ground arith) ∙ hb ∙ sym (ap (count favt_board) u);
      lines = lines ∙ ground arith ∙ hl ∙ sym (ap (count favt_line) u);
      folders = folders ∙ ground arith ∙ hf ∙ sym (ap (count favt_folder) u);
    }
