-- ===== src/Fav/Folder/Add.antt =====
-- mbbsd/fav.c: what `fav_add` puts into a folder, and that the folder stays well-formed.
use pttoldstable.Base.{
  ◌==◌, if◌then◌else◌, ℕ, suc, ◌+◌, ◌%◌, ◌≤◌, ◌<◌, ◌≡◌, ◌≢◌, refl, ap, ap₂, sym, subst, ◌∙◌, inl,
  inr, Bool, true, false, none, some, [], ◌∷◌, ◌++◌, arith, take, length, length-append, length-set,
  replicate, Bool-cases, Option-cases, length-take,
}
use pttoldstable.Fav.{
  Item, Fav, Book, blank_item, favt_board, favt_folder, favt_line, fav_pre_alloc, numbered,
  fav_increase, counted, inc,
}
use pttoldstable.Fav.Folder.{
  used, write_slot, enlarge_if_full, short_lt, append_item, fav_add, is_maxsize, grown,
}
use pttoldstable.Fav.Folder.Counts.{
  live, count, IsValid, count-append, count-le-length, take-append_le, take-set_next, numbered-live,
  HasRoom, counted-IsValid, count_up-kept,
}

-- What enlarging the array leaves alone.
record Enlarged (b b' : Book) : Type 0 where
  valid : IsValid b'.fp
  free : b'.fp.data_tail < b'.fp.n_allocs
  same_used : used b'.fp ≡ used b.fp
  same_lines : b'.fp.n_lines ≡ b.fp.n_lines
  same_folders : b'.fp.n_folders ≡ b.fp.n_folders
  same_ids : (b'.fp.line_id ≡ b.fp.line_id) × (b'.fp.folder_id ≡ b.fp.folder_id)

short_lt_iff : (a b : ℕ) → a < 32768 → b < 32768 → (short_lt a b ≡ true) → a < b
short_lt_iff a b h k e = ground arith

short_lt_not : (a b : ℕ) → a < 32768 → b < 32768 → (short_lt a b ≡ false) → b ≤ a
short_lt_not a b h k e = ground arith

grown-IsValid : (fp : Fav) → IsValid fp → fp.n_allocs < 32760 → IsValid (grown fp)
grown-IsValid fp v h =
    let u : used (grown fp) ≡ used fp =
      take-append_le fp.data_tail fp.favh (replicate fav_pre_alloc blank_item)
        (omega (arith, v.slots, v.tail)) in
    let e : (fp.n_allocs + 8) % 65536 ≡ fp.n_allocs + 8 = omega arith in
    record {
      slots =
          length-append fp.favh (replicate fav_pre_alloc blank_item)
          ∙ rw e (omega (arith, v.slots));
      tail = rw e (omega (arith, v.tail));
      size = rw e (omega arith);
      boards = v.boards ∙ ap (count favt_board) (sym u);
      lines = v.lines ∙ ap (count favt_line) (sym u);
      folders = v.folders ∙ ap (count favt_folder) (sym u);
    }

Enlarged-same : (b : Book) → IsValid b.fp → b.fp.data_tail < b.fp.n_allocs → Enlarged b b
Enlarged-same b v h = record {
  valid = v;
  free = h;
  same_used = refl;
  same_lines = refl;
  same_folders = refl;
  same_ids = (refl, refl);
}

Enlarged-grown :
    (b : Book) → IsValid b.fp → b.fp.n_allocs < 32760 → Enlarged b (record b { fp = grown b.fp })
Enlarged-grown b v h =
    let e : (b.fp.n_allocs + 8) % 65536 ≡ b.fp.n_allocs + 8 = omega arith in
    record {
      valid = grown-IsValid b.fp v h;
      free = rw e (omega (arith, v.tail));
      same_used =
          take-append_le b.fp.data_tail b.fp.favh (replicate fav_pre_alloc blank_item)
            (omega (arith, v.slots, v.tail));
      same_lines = refl;
      same_folders = refl;
      same_ids = (refl, refl);
    }

enlarge_if_full-Enlarged :
    (granted : Bool) (b b' : Book)
    → IsValid b.fp
    → b.fp.n_allocs < 32760
    → enlarge_if_full granted b ≡ some b'
    → Enlarged b b'
unfolding enlarge_if_full
enlarge_if_full-Enlarged granted b b' v h e = elim (Bool-cases (is_maxsize b)) [
  | inl m ↦ let no_room : none ≡ some b' = rw m at e in absurd cc
  | inr m ↦ elim (Bool-cases (short_lt b.fp.data_tail b.fp.n_allocs)) [
    | inl s ↦
        let same : some b ≡ some b' = rw (m, s) at e in
        let e' : b ≡ b' = cc in
        subst (Enlarged b) e' (
          Enlarged-same b v
            (short_lt_iff b.fp.data_tail b.fp.n_allocs (omega (arith, v.tail, v.size)) v.size s))
    | inr s ↦ elim (Bool-cases granted) [
      | inl g ↦
          let bigger : some (record b { fp = grown b.fp }) ≡ some b' = rw (m, s, g) at e in
          let e' : record b { fp = grown b.fp } ≡ b' = cc in
          subst (Enlarged b) e' (Enlarged-grown b v h)
      | inr g ↦ let no_room : none ≡ some b' = rw (m, s, g) at e in absurd cc
    ]
  ]
]

used-append_item :
    (b : Book) (x : Item)
    → IsValid b.fp
    → b.fp.data_tail < b.fp.n_allocs
    → used (append_item b x).fp ≡ used b.fp ++ numbered b.fp x ∷ []
unfolding append_item write_slot fav_increase counted
used-append_item b x v h =
    let y = numbered b.fp x in
    let fp = write_slot b.fp b.fp.data_tail y in
    let (favh, tail, allocs) = count_up-kept fp x.type in
    let e : inc 65535 b.fp.data_tail ≡ suc b.fp.data_tail = ground (arith, v.size) in
    rw (favh, tail, e) (take-set_next b.fp.data_tail b.fp.favh y (omega (arith, v.slots)))

numbered-ids :
    (f g : Fav) (x : Item)
    → (f.line_id ≡ g.line_id) × (f.folder_id ≡ g.folder_id)
    → numbered f x ≡ numbered g x
unfolding numbered
numbered-ids f g x (l, k) = rw (l, k) refl

append_item-IsValid :
    (b : Book) (x : Item)
    → IsValid b.fp
    → b.fp.data_tail < b.fp.n_allocs
    → x.attr ≢ 0
    → HasRoom b.fp x
    → IsValid (append_item b x).fp
unfolding append_item write_slot fav_increase HasRoom
append_item-IsValid b x v h a r =
    let y = numbered b.fp x in
    let fp = write_slot b.fp b.fp.data_tail y in
    let n : b.fp.data_tail < length b.fp.favh = omega (arith, v.slots) in
    let next = take-set_next b.fp.data_tail b.fp.favh y n in
    let kinds : (k : ℕ)
        → count k (used b.fp) + live k x ≡ count k (take (suc b.fp.data_tail) fp.favh) =
      λ k. rw next (omega (arith, count-append k (used b.fp) (y ∷ []), numbered-live b.fp x k)) in
    let few : b.fp.n_boards < 65535 = omega (
      arith,
      v.boards,
      v.tail,
      v.size,
      count-le-length favt_board (used b.fp),
      length-take b.fp.data_tail b.fp.favh,
    ) in
    counted-IsValid fp x (length-set b.fp.favh b.fp.data_tail y ∙ v.slots) (omega arith) v.size r
      (ap (λ n. n + live favt_board x) v.boards ∙ kinds favt_board)
      (ap (λ n. n + live favt_line x) v.lines ∙ kinds favt_line)
      (ap (λ n. n + live favt_folder x) v.folders ∙ kinds favt_folder) a few

-- The number after one, in 8 bits.
abbrev pub next_byte : ℕ → ℕ
next_byte n = if n == 255 then 0 else n + 1

-- The number of a new item: lines and folders are numbered apart, and a board keeps its own number.
abbrev pub next_id : Fav → Item → ℕ
next_id fp x =
    if x.type == 3
    then next_byte fp.line_id
    else if x.type == 2
    then next_byte fp.folder_id
    else x.id

numbered_lem : (fp : Fav) (x : Item) → numbered fp x ≡ record x { id = next_id fp x }
unfolding numbered
numbered_lem fp x = elim (Bool-cases (x.type == 3)) [
  | inl t ↦ rw t refl
  | inr t ↦ elim (Bool-cases (x.type == 2)) [ inl u ↦ rw (t, u) refl | inr u ↦ rw (t, u) refl ]
]

pub fav_add-numbered :
    (granted : Bool) (b b' : Book) (x : Item)
    → IsValid b.fp
    → b.fp.n_allocs < 32760
    → x.attr ≢ 0
    → HasRoom b.fp x
    → fav_add granted b x ≡ some b'
    → IsValid b'.fp × (used b'.fp ≡ used b.fp ++ numbered b.fp x ∷ [])
unfolding fav_add HasRoom
fav_add-numbered granted b b' x v h a r e = elim (Option-cases (enlarge_if_full granted b)) [
  | inl n ↦ let no_room : none ≡ some b' = rw (n, fav_add) at e in absurd cc
  | inr (c, n) ↦
      let w = enlarge_if_full-Enlarged granted b c v h n in
      let done : some (append_item c x) ≡ some b' = rw (n, fav_add) at e in
      let e' : append_item c x ≡ b' = cc in
      let r' : HasRoom c.fp x = rw (w.same_lines, w.same_folders, HasRoom) r in
      let u = used-append_item c x w.valid w.free in
      rw (← e') (
        append_item-IsValid c x w.valid w.free a r',
        u ∙ ap₂ (λ l y. l ++ y ∷ []) w.same_used (numbered-ids c.fp b.fp x w.same_ids),
      )
]

-- To a well-formed folder of fewer than 32760 slots, with an item of some attribute and, where it is
-- a line or a folder, fewer than 255 of that kind: when `fav_add` succeeds, the items in use are
-- those of before, in their order, and the new one. It has the number after the last one that a line was
-- given where it is a line, or a folder where it is a folder (after 255 comes 0), and is as it was
-- otherwise; the counters of boards, lines and folders agree with the items again, and the used part lies
-- within the slots.
pub fav_add-IsValid :
    (granted : Bool) (b b' : Book) (x : Item)
    → IsValid b.fp
    → b.fp.n_allocs < 32760
    → x.attr ≢ 0
    → HasRoom b.fp x
    → fav_add granted b x ≡ some b'
    → IsValid b'.fp × (used b'.fp ≡ used b.fp ++ record x { id = next_id b.fp x } ∷ [])
fav_add-IsValid granted b b' x v h a r e =
    let (w, u) = fav_add-numbered granted b b' x v h a r e in
    (w, u ∙ ap (λ y. used b.fp ++ y ∷ []) (numbered_lem b.fp x))
