-- ===== src/Edit/Doc.antt =====
-- mbbsd/edit.c: the article as its lines of text with a cursor between two bytes, what the operations
-- of the editor do to it, and that the buffers follow.
use pttoldstable.Base.{
  ℕ, ◌+◌, ◌-◌, ◌<◌, ◌≡◌, ◌≢◌, refl, ◌∙◌, true, false, List, [], ◌∷◌, ◌++◌, arith, length,
  length-append, leb, ltb, lt→ltb, ◌==◌, set,
}
use pttoldstable.Base.Bytes.{at}
use pttoldstable.Edit.{
  Line, Buf, raw_shift_right, split, split_line, put_char, wrap, insert_char, delete_char,
  indent_space,
}
use pttoldstable.Edit.Holds.{Holds, Writable, append_assoc}
use pttoldstable.Edit.Lines.{split_line_lem, adjustline_lem}
use pttoldstable.Edit.Chars.{insert_lem, delete_lem}

-- The lines above the cursor, nearest first, the parts of its line before and behind it, the lines below.
pub record Doc : Type 0 where
  pub above : List (List ℕ)
  pub left : List ℕ
  pub right : List ℕ
  pub below : List (List ℕ)

-- Each line holds its text, which is shorter than the margin.
unfoldable pub Hold : ℕ → List Line → List (List ℕ) → Type 0
Hold wrapmargin [] [] = Unit
Hold wrapmargin [] (s ∷ ss) = ⊥
Hold wrapmargin (l ∷ ls) [] = ⊥
Hold wrapmargin (l ∷ ls) (s ∷ ss) = Holds l s × (length s < wrapmargin) × Hold wrapmargin ls ss

-- The buffer shows the article: the line of the cursor has room for the margin, and the counters are
-- those of the article.
pub record Shows (wrapmargin : ℕ) (s : Buf) (d : Doc) : Type 0 where
  pub above_hold : Hold wrapmargin s.before d.above
  pub line_holds : Holds s.currline (d.left ++ d.right)
  pub line_fits : length (d.left ++ d.right) < wrapmargin
  pub line_writable : Writable wrapmargin s.currline
  pub below_hold : Hold wrapmargin s.after d.below
  pub col : s.currpnt ≡ length d.left
  pub row : s.currln ≡ length d.above
  pub total : s.totaln ≡ length d.above + length d.below

unfoldable pub new_line : Doc → Doc
new_line d = record d { above = d.left ∷ d.above; left = [] }

unfoldable pub type_char : ℕ → Doc → Doc
type_char ch d = record d { left = d.left ++ ch ∷ [] }

-- For a buffer that shows an article and no indentation: `split` at the cursor breaks the line of the article there: the cursor is at the
-- start of the second part, the other lines stay, and the counters of lines are right.
pub split-Shows :
    (wrapmargin : ℕ) (s : Buf) (d : Doc)
    → Shows wrapmargin s d
    → s.indent_mode ≡ false
    → Shows wrapmargin (split wrapmargin s.currpnt s) (new_line d)
unfolding split new_line Hold indent_space
split-Shows wrapmargin s d h ni =
    let size = length-append d.left d.right in
    let within : leb s.currpnt s.currline.len ≡ true =
      ground (arith, h.col, h.line_holds.len_eq, size) in
    let here : leb s.currpnt s.currpnt ≡ true = ground arith in
    let same : (s.currpnt == s.currpnt) ≡ true = ground arith in
    let cut : (Holds (split_line wrapmargin 0 false s.currline s.currpnt).0 d.left)
        × (Holds (split_line wrapmargin 0 false s.currline s.currpnt).1 d.right)
        × Writable wrapmargin (split_line wrapmargin 0 false s.currline s.currpnt).1 =
      rw h.col (
        split_line_lem wrapmargin s.currline d.left d.right h.line_holds
          (omega (arith, h.line_fits, size))) in
    let kept =
      adjustline_lem (split_line wrapmargin 0 false s.currline s.currpnt).0 d.left s.currpnt cut.0
        (omega (arith, h.col)) in
    rw (within, here, same, ni)
      (record {
        above_hold = (kept.0, omega (arith, h.line_fits, size), h.above_hold);
        line_holds = cut.1;
        line_fits = omega (arith, h.line_fits, size);
        line_writable = cut.2;
        below_hold = h.below_hold;
        col = refl;
        row = omega (arith, h.row);
        total = omega (arith, h.total);
      })

pub wrap-short :
    (wrapmargin : ℕ) (s : Buf) → ltb s.currline.len wrapmargin ≡ true → wrap wrapmargin s ≡ s
unfolding wrap
wrap-short wrapmargin s e = rw e refl

pub put_char-insert :
    (ch : ℕ) (s : Buf)
    → s.insert_mode ≡ true
    → put_char ch s ≡ record s {
      currline = record {
        bytes =
            set
              (at s.currpnt (raw_shift_right (s.currline.len - s.currpnt + 1)) s.currline.bytes)
              s.currpnt
              ch;
        len = s.currline.len + 1;
      };
      currpnt = s.currpnt + 1;
    }
unfolding put_char
put_char-insert ch s im = ground (arith, im)

-- `insert_char` where the line does not get as long as the margin, at the end of the line or in insert
-- mode.
pub insert_char-Shows :
    (wrapmargin ch : ℕ) (s : Buf) (d : Doc)
    → Shows wrapmargin s d
    → s.insert_mode ≡ true
    → ch ≢ 0
    → length (d.left ++ d.right) + 1 < wrapmargin
    → Shows wrapmargin (insert_char wrapmargin ch s) (type_char ch d)
unfolding insert_char type_char Writable
insert_char-Shows wrapmargin ch s d h im ne lt =
    let size = length-append d.left d.right in
    let e = append_assoc d.left (ch ∷ []) d.right in
    let within : ltb s.currline.len s.currpnt ≡ false =
      ground (arith, h.col, h.line_holds.len_eq, size) in
    let put =
      insert_lem s.currline d.left d.right ch h.line_holds (omega (arith, lt, h.line_writable))
        ne in
    rw
      (
        within,
        put_char-insert ch s im,
        wrap-short wrapmargin
            (record s {
              currline = record {
                bytes =
                    set
                      (at s.currpnt (raw_shift_right (s.currline.len - s.currpnt + 1))
                        s.currline.bytes)
                      s.currpnt ch;
                len = s.currline.len + 1;
              };
              currpnt = s.currpnt + 1;
            })
            (lt→ltb _ _ (omega (arith, h.line_holds.len_eq))),
      )
      (record {
        above_hold = h.above_hold;
        line_holds = rw (e, h.col) put.0;
        line_fits = rw e (omega (arith, size, length-append d.left (ch ∷ d.right)));
        line_writable = rw h.col (put.1 ∙ h.line_writable);
        below_hold = h.below_hold;
        col = omega (arith, h.col, length-append d.left (ch ∷ []));
        row = h.row;
        total = h.total;
      })

pub delete_char-Shows :
    (wrapmargin x : ℕ) (r : List ℕ) (s : Buf) (d : Doc)
    → Shows wrapmargin s (record d { right = x ∷ r })
    → Shows wrapmargin (delete_char s) (record d { right = r })
unfolding delete_char Writable
delete_char-Shows wrapmargin x r s d h =
    let some_left : (s.currline.len == 0) ≡ false =
      ground (arith, h.line_holds.len_eq, length-append d.left (x ∷ r)) in
    let within : leb s.currline.len s.currpnt ≡ false =
      ground (arith, h.col, h.line_holds.len_eq, length-append d.left (x ∷ r)) in
    let cut = delete_lem s.currline d.left r x h.line_holds in
    rw (some_left, within)
      (record {
        above_hold = h.above_hold;
        line_holds = rw h.col cut.0;
        line_fits =
            omega (arith, h.line_fits, length-append d.left (x ∷ r), length-append d.left r);
        line_writable = rw h.col (cut.1 ∙ h.line_writable);
        below_hold = h.below_hold;
        col = h.col;
        row = h.row;
        total = h.total;
      })
