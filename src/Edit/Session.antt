-- ===== src/Edit/Session.antt =====
-- mbbsd/edit.c: a session at the editor as a sequence of keys.
use pttoldstable.Base.{ℕ, ◌<◌, ◌≡◌, ◌≢◌, ◌∙◌, true, false, List, [], ◌∷◌, arith, length-append}
use pttoldstable.Edit.{Buf, split, wrap, wrap_at, put_char, insert_char, delete_char}
use pttoldstable.Edit.Doc.{Doc, Shows, new_line, split-Shows, delete_char-Shows}
use pttoldstable.Edit.Wrap.{insert_char-Fits}

-- The keys of `vedit` that type a byte, break the line, or delete the byte at the cursor.
pub data Step (wrapmargin : ℕ) : Buf → Buf → Type 0 where
  typed : (ch : ℕ) (s : Buf) → ch ≢ 0 → Step wrapmargin s (insert_char wrapmargin ch s)
  entered : (s : Buf) → Step wrapmargin s (split wrapmargin s.currpnt s)
  deleted : (s : Buf) → s.currpnt < s.currline.len → Step wrapmargin s (delete_char s)

pub data Reach (wrapmargin : ℕ) : Buf → Buf → Type 0 where
  start : (s : Buf) → Reach wrapmargin s s
  press : {s t u : Buf} → Reach wrapmargin s t → Step wrapmargin t u → Reach wrapmargin s u

-- The buffer shows an article, in the modes that are on at first.
unfoldable pub Works : ℕ → Buf → Type 0
Works wrapmargin s =
    ((d : Doc) × Shows wrapmargin s d) × (s.insert_mode ≡ true) × (s.indent_mode ≡ false)

insert_char-modes :
    (wrapmargin ch : ℕ) (s : Buf)
    → ((insert_char wrapmargin ch s).insert_mode ≡ s.insert_mode)
      × ((insert_char wrapmargin ch s).indent_mode ≡ s.indent_mode)
unfolding insert_char put_char wrap wrap_at split
insert_char-modes wrapmargin ch s = (ground arith, ground arith)

split-modes :
    (wrapmargin col : ℕ) (s : Buf)
    → ((split wrapmargin col s).insert_mode ≡ s.insert_mode)
      × ((split wrapmargin col s).indent_mode ≡ s.indent_mode)
unfolding split
split-modes wrapmargin col s = (ground arith, ground arith)

delete_char-modes :
    (s : Buf)
    → ((delete_char s).insert_mode ≡ s.insert_mode) × ((delete_char s).indent_mode ≡ s.indent_mode)
unfolding delete_char
delete_char-modes s = (ground arith, ground arith)

delete-Shows :
    (wrapmargin : ℕ) (s : Buf) (d : Doc) (right : List ℕ)
    → Shows wrapmargin s (record d { right = right })
    → s.currpnt < s.currline.len
    → (d' : Doc) × Shows wrapmargin (delete_char s) d'
delete-Shows wrapmargin s d [] h lt =
    absurd (omega (arith, h.col, h.line_holds.len_eq, length-append d.left []))
delete-Shows wrapmargin s d (x ∷ r) h lt =
    (record d { right = r }, delete_char-Shows wrapmargin x r s d h)

Step-Works :
    (wrapmargin : ℕ) {s t : Buf}
    → 2 < wrapmargin
    → Step wrapmargin s t
    → Works wrapmargin s
    → Works wrapmargin t
unfolding Works
Step-Works wrapmargin big (typed ch s ne) ((d, h), im, ni) =
    let modes = insert_char-modes wrapmargin ch s in
    let (d', (shown, moved, cut)) = insert_char-Fits wrapmargin ch s d big h im ni ne in
    ((d', shown), modes.0 ∙ im, modes.1 ∙ ni)
Step-Works wrapmargin big (entered s) ((d, h), im, ni) =
    let modes = split-modes wrapmargin s.currpnt s in
    ((new_line d, split-Shows wrapmargin s d h ni), modes.0 ∙ im, modes.1 ∙ ni)
Step-Works wrapmargin big (deleted s lt) ((d, h), im, ni) =
    let modes = delete_char-modes s in
    (delete-Shows wrapmargin s d d.right h lt, modes.0 ∙ im, modes.1 ∙ ni)

-- For a margin over 2: from a buffer that shows an article, in insert mode and without indentation, any
-- number of keys that type a byte, break the line or delete the byte at the cursor leads to a buffer that
-- shows an article: the lines are shorter than the margin, their lengths are those of their texts, and the
-- counters of lines are right.
pub Reach-Works :
    (wrapmargin : ℕ) {s t : Buf}
    → 2 < wrapmargin
    → Works wrapmargin s
    → Reach wrapmargin s t
    → Works wrapmargin t
Reach-Works wrapmargin big h (start s) = h
Reach-Works wrapmargin big h (press r k) =
    Step-Works wrapmargin big k (Reach-Works wrapmargin big h r)
