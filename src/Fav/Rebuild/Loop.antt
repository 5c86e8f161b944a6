-- ===== src/Fav/Rebuild/Loop.antt =====
-- mbbsd/fav.c: the loop of `rebuild_fav`, for one folder.
use pttoldstable.Base.{
  ℕ, zero, suc, ◌+◌, ◌≤◌, ◌<◌, ◌≡◌, ◌⊎◌, refl, ap, ◌∙◌, inl, inr, true, false, List, [], ◌∷◌, ◌++◌,
  arith, ◌==◌, if◌then◌else◌, set, take, drop, length, length-set, ℕ_discrete,
}
use mathlib.Core.List.{append_assoc}
use pttoldstable.Base.Take.{take-set-below}
use pttoldstable.Fav.{
  Item, Fav, Book, favt_board, favt_folder, favt_line, numbered, fav_increase, counted, count_up,
  inc,
}
use pttoldstable.Fav.Folder.{slot}
use pttoldstable.Fav.Folder.Counts.{count_up-kept, count_up_lem, take-set_next}
use pttoldstable.Fav.Rebuild.{take_slot}

-- How many items have a type.
abbrev pub tally : ℕ → List Item → ℕ
tally k [] = 0
tally k (x ∷ xs) = (if x.type == k then 1 else 0) + tally k xs

-- The lines are numbered by their order, and so are the folders.
abbrev pub renumber : ℕ → ℕ → List Item → List Item
renumber l f [] = []
renumber l f (x ∷ xs) =
    let as_line = record x { id = l + 1 } ∷ renumber (l + 1) f xs in
    let as_folder = record x { id = f + 1 } ∷ renumber l (f + 1) xs in
    let as_board = x ∷ renumber l f xs in
    if x.type == favt_line then as_line else if x.type == favt_folder then as_folder else as_board

module _ {ℓ} {A : Type ℓ} where
  drop-set_before : (n i : ℕ) (l : List A) (v : A) → i < n → drop n (set l i v) ≡ drop n l
  drop-set_before zero i l v h = absurd (omega arith)
  drop-set_before (suc n) i [] v h = refl
  drop-set_before (suc n) zero (x ∷ l) v h = refl
  drop-set_before (suc n) (suc i) (x ∷ l) v h = drop-set_before n i l v (omega arith)

-- The folder after `k` was counted in, where the array had `j` slots filled.
pub record Gained (f g : Fav) (j : ℕ) (k : List Item) : Type 0 where
  pub filled : take (j + length k) g.favh ≡ take j f.favh ++ renumber f.line_id f.folder_id k
  pub size : length g.favh ≡ length f.favh
  pub boards : g.n_boards ≡ f.n_boards + tally favt_board k
  pub lines : g.n_lines ≡ f.n_lines + tally favt_line k
  pub folders : g.n_folders ≡ f.n_folders + tally favt_folder k

-- No counter leaves its range.
pub record Fits (f : Fav) (k : List Item) : Type 0 where
  pub boards : f.n_boards + length k < 32768
  pub lines : f.n_lines + tally favt_line k < 128
  pub line_ids : f.line_id + tally favt_line k < 128
  pub folders : f.n_folders + tally favt_folder k < 128
  pub folder_ids : f.folder_id + tally favt_folder k < 128

-- The three types that the loop lets through.
abbrev pub Known : Item → Type 0
Known x = (x.type ≡ favt_board) ⊎ (x.type ≡ favt_line) ⊎ (x.type ≡ favt_folder)

-- What the loop writes for the item `y` of slot `i`.
writes : ℕ → ℕ → List Item → Item → List Item
writes i j l y = if i == j then set l i y else set (set l i y) j y

writes_lem :
    (i j : ℕ) (l : List Item) (y : Item)
    → j ≤ i
    → i < length l
    → (length (writes i j l y) ≡ length l)
      × (drop (suc i) (writes i j l y) ≡ drop (suc i) l)
      × (take (suc j) (writes i j l y) ≡ take j l ++ y ∷ [])
unfolding writes
writes_lem i j l y h n = elim (ℕ_discrete i j) [
  | yes e ↦
      let t : (i == j) ≡ true = ground arith in
      rw (t, ← e)
        (length-set l i y, drop-set_before (suc i) i l y (omega arith), take-set_next i l y n)
  | no e ↦
      let t : (i == j) ≡ false = ground arith in
      let l' = set l i y in
      let m : j < length l' = omega (arith, length-set l i y) in
      rw t (
        length-set l' j y ∙ length-set l i y,
        drop-set_before (suc i) j l' y (omega arith) ∙ drop-set_before (suc i) i l y (omega arith),
        take-set_next j l' y m ∙ ap (λ k. k ++ y ∷ []) (take-set-below j i l y h),
      )
]

favh-take_slot :
    (i j : ℕ) (b : Book)
    → (take_slot i j b).fp.favh ≡ writes i j b.fp.favh (numbered b.fp (slot b.fp i))
unfolding take_slot fav_increase counted writes
favh-take_slot i j b = rw ((count_up-kept b.fp (slot b.fp i).type).0) refl

-- The counters and the numbers given out, after one more item.
counters-take_slot :
    (i j : ℕ) (b : Book)
    → let x = slot b.fp i in
      let g = (take_slot i j b).fp in
      b.fp.n_boards < 32768
      → b.fp.n_lines < 128
      → b.fp.n_folders < 128
      → (g.n_boards ≡ b.fp.n_boards + (if x.type == favt_board then 1 else 0))
        × (g.n_lines ≡ b.fp.n_lines + (if x.type == favt_line then 1 else 0))
        × (g.n_folders ≡ b.fp.n_folders + (if x.type == favt_folder then 1 else 0))
unfolding take_slot fav_increase counted
counters-take_slot i j b hb hl hf =
    let (boards, lines, folders) = count_up_lem b.fp (slot b.fp i).type in
    (boards ∙ ground arith, lines ∙ ground arith, folders ∙ ground arith)

renumber-cons :
    (i j : ℕ) (b : Book) (k : List Item)
    → Known (slot b.fp i)
    → b.fp.line_id < 128
    → b.fp.folder_id < 128
    → let g = (take_slot i j b).fp in
      (renumber b.fp.line_id b.fp.folder_id (slot b.fp i ∷ k)
        ≡ numbered b.fp (slot b.fp i) ∷ renumber g.line_id g.folder_id k)
      × (g.line_id ≡ b.fp.line_id + (if (slot b.fp i).type == favt_line then 1 else 0))
      × (g.folder_id ≡ b.fp.folder_id + (if (slot b.fp i).type == favt_folder then 1 else 0))
unfolding take_slot fav_increase counted numbered count_up
renumber-cons i j b k t hl hf = elim t [
  | inl e ↦ rw e (refl, omega arith, omega arith)
  | inr (inl e) ↦
      let w : inc 255 b.fp.line_id ≡ b.fp.line_id + 1 = ground arith in
      rw (e, w) (refl, refl, omega arith)
  | inr (inr e) ↦
      let w : inc 255 b.fp.folder_id ≡ b.fp.folder_id + 1 = ground arith in
      rw (e, w) (refl, omega arith, refl)
]

-- One item, and then the others.
pub Gained-cons :
    (i j : ℕ) (b : Book) (g : Fav) (k : List Item)
    → j ≤ i
    → i < length b.fp.favh
    → Known (slot b.fp i)
    → Fits b.fp (slot b.fp i ∷ k)
    → Gained (take_slot i j b).fp g (suc j) k
    → Gained b.fp g j (slot b.fp i ∷ k)
Gained-cons i j b g k h n t f c =
    let y = numbered b.fp (slot b.fp i) in
    let w = favh-take_slot i j b in
    let (size, _, fill) = writes_lem i j b.fp.favh y h n in
    let (boards, lines, folders) =
      counters-take_slot i j b (omega (arith, f.boards)) (omega (arith, f.lines))
        (omega (arith, f.folders)) in
    let (r, _, _) =
      renumber-cons i j b k t (omega (arith, f.line_ids)) (omega (arith, f.folder_ids)) in
    let m : j + suc (length k) ≡ suc j + length k = omega arith in
    record {
      filled = rw (m, r) (c.filled ∙ rw (w, fill) (append_assoc (take j b.fp.favh) (y ∷ []) _));
      size = c.size ∙ rw w size;
      boards = omega (arith, c.boards, boards);
      lines = omega (arith, c.lines, lines);
      folders = omega (arith, c.folders, folders);
    }

pub Fits-cons :
    (i j : ℕ) (b : Book) (k : List Item)
    → Known (slot b.fp i)
    → Fits b.fp (slot b.fp i ∷ k)
    → Fits (take_slot i j b).fp k
Fits-cons i j b k t f =
    let (boards, lines, folders) =
      counters-take_slot i j b (omega (arith, f.boards)) (omega (arith, f.lines))
        (omega (arith, f.folders)) in
    let (_, l, d) =
      renumber-cons i j b k t (omega (arith, f.line_ids)) (omega (arith, f.folder_ids)) in
    record {
      boards = ground (arith, f.boards);
      lines = omega (arith, f.lines);
      line_ids = omega (arith, f.line_ids);
      folders = omega (arith, f.folders);
      folder_ids = omega (arith, f.folder_ids);
    }

pub drop-take_slot :
    (i j : ℕ) (b : Book)
    → j ≤ i
    → i < length b.fp.favh
    → (length (take_slot i j b).fp.favh ≡ length b.fp.favh)
      × (drop (suc i) (take_slot i j b).fp.favh ≡ drop (suc i) b.fp.favh)
drop-take_slot i j b h n =
    let (size, rest, _) = writes_lem i j b.fp.favh (numbered b.fp (slot b.fp i)) h n in
    rw (favh-take_slot i j b) (size, rest)
