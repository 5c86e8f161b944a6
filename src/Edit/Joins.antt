-- ===== src/Edit/Joins.antt =====
-- mbbsd/edit.c: the backspace at the start of a line, and that it undoes `split`.
use pttoldstable.Base.{
  ℕ, suc, ◌+◌, ◌-◌, ◌<◌, ◌≡◌, ◌≢◌, refl, ◌∙◌, Bool, true, false, List, [], ◌∷◌, ◌++◌, ◌&&◌, arith,
  length, length-append, some, lt→ltb, ==_iff, ◌==◌, get_or, ℕ_discrete,
}
use pttoldstable.Base.Int.{pos, ◌-ℤ◌}
use pttoldstable.Edit.{
  Line, Buf, insert_char, put_char, wrap, wrap_at, adjustline, split, cstr, strcat, delete_char,
  indent_space, next_non_space_char,
}
use pttoldstable.Edit.Keys.{Lines, is_blank, join, join_all, join_from, join_back, backspace}
use pttoldstable.Edit.Holds.{NoNul, Holds, Writable, append_assoc}
use pttoldstable.Edit.Lines.{strcat_lem, adjustline_lem}
use pttoldstable.Edit.Doc.{
  Doc, Hold, Shows, new_line, split-Shows, delete_char-Shows, type_char, insert_char-Shows,
}

-- A text of spaces only.
unfoldable pub blank : List ℕ → Bool
blank [] = true
blank (c ∷ t) = c == b' ' && blank t

blank-bytes :
    (t r : List ℕ)
    → NoNul t
    → (get_or (t ++ 0 ∷ r) (next_non_space_char (t ++ 0 ∷ r)) 0 == 0) ≡ blank t
unfolding blank next_non_space_char NoNul
blank-bytes [] r h = refl
blank-bytes (c ∷ t) r h = elim (ℕ_discrete c b' ') [
  | yes space ↦
      let e = (==_iff c b' ').1 space in
      let k : next_non_space_char (t ++ 0 ∷ r) + 1 ≡ suc (next_non_space_char (t ++ 0 ∷ r)) =
        omega arith in
      rw (e, k) (blank-bytes t r h.1)
  | no other ↦ ground (arith, h.0, other)
]

is_blank_lem : (n : Line) (t : List ℕ) → Holds n t → is_blank n ≡ blank t
unfolding is_blank
is_blank_lem n t h = rw h.bytes_eq (blank-bytes t h.rest h.no_nul)

join_from-true :
    (wrapmargin : ℕ) (after : List Line) (s : Buf) → join_from wrapmargin true after s ≡ some s
unfolding join_from
join_from-true wrapmargin after s = refl

-- `join` returned true at once.
join_all-done :
    (wrapmargin : ℕ) (s : Buf) (j : Lines)
    → join wrapmargin 2 (indent_space s) s.indent_mode s.currline s.after s.totaln ≡ (true, j)
    → join_all wrapmargin s
      ≡ some (record s { currline = j.line; after = j.after; totaln = j.totaln })
unfolding join_all
join_all-done wrapmargin s j h = rw (join_all, h) (join_from-true wrapmargin j.after _)

join-fits :
    (wrapmargin spcs : ℕ) (indent_mode : Bool) (line n : Line) (rest : List Line) (totaln : ℕ)
    → is_blank n ≡ false
    → line.len + n.len < wrapmargin
    → join wrapmargin 2 spcs indent_mode line (n ∷ rest) totaln ≡ (
      true,
      record {
        line = record { bytes = strcat (cstr n.bytes) line.bytes; len = line.len + n.len };
        after = rest;
        totaln = totaln - 1;
      },
    )
unfolding join
join-fits wrapmargin spcs indent_mode line n rest totaln nb lt = rw (nb, lt→ltb _ _ lt) refl

joined :
    (wrapmargin : ℕ) (l : Line) (prev : List Line) (s : Buf) (d : Doc) (p : List ℕ)
    (ps : List (List ℕ))
    → Shows wrapmargin s (record d { above = p ∷ ps; left = [] })
    → Hold wrapmargin (l ∷ prev) (p ∷ ps)
    → blank d.right ≡ false
    → length p + length d.right < wrapmargin
    → (t : Buf) × (join_back wrapmargin (l ∷ prev) s ≡ some t)
      × Shows wrapmargin t (record d { above = ps; left = p })
unfolding Hold join_back Writable
joined wrapmargin l prev s d p ps h hold nb lt =
    let next =
      adjustline_lem s.currline d.right s.currline.len h.line_holds
        (omega (arith, h.line_holds.len_eq)) in
    let line = adjustline_lem l p wrapmargin hold.0 (omega (arith, hold.1)) in
    let n : Line = adjustline s.currline s.currline.len in
    let line_len = line.0.len_eq in
    let next_len = next.0.len_eq in
    let full =
      strcat_lem (adjustline l wrapmargin) n p d.right line.0 next.0 (omega (arith, line.1)) in
    let full_blank : is_blank n ≡ false = is_blank_lem n d.right next.0 ∙ nb in
    let s' : Buf = record s {
      before = prev;
      currline = adjustline l wrapmargin;
      after = n ∷ s.after;
      currpnt = l.len;
      currln = s.currln - 1;
      curr_window_line = s.curr_window_line -ℤ pos 1;
    } in
    let t : Buf = record s' {
      currline = record {
        bytes = strcat (cstr n.bytes) s'.currline.bytes;
        len = s'.currline.len + n.len;
      };
      after = s.after;
      totaln = s'.totaln - 1;
    } in
    (
      t,
      rw full_blank (
          join_all-done wrapmargin s' _ (
            join-fits wrapmargin (indent_space s') s'.indent_mode s'.currline n s.after s'.totaln
              full_blank (omega arith))),
      record {
        above_hold = hold.2;
        line_holds = full.0;
        line_fits = omega (arith, length-append p d.right);
        line_writable = full.1 ∙ line.1;
        below_hold = h.below_hold;
        col = hold.0.len_eq;
        row = omega (arith, h.row);
        total = omega (arith, h.total);
      },
    )

-- The backspace at the start of a line that is not blank and fits behind the line before it.
pub join_back-Shows :
    (wrapmargin : ℕ) (before : List Line) (s : Buf) (d : Doc) (p : List ℕ) (ps : List (List ℕ))
    → Shows wrapmargin s (record d { above = p ∷ ps; left = [] })
    → Hold wrapmargin before (p ∷ ps)
    → blank d.right ≡ false
    → length p + length d.right < wrapmargin
    → (t : Buf) × (join_back wrapmargin before s ≡ some t)
      × Shows wrapmargin t (record d { above = ps; left = p })
unfolding Hold
join_back-Shows wrapmargin [] s d p ps h hold nb lt = absurd hold
join_back-Shows wrapmargin (l ∷ prev) s d p ps h hold nb lt =
    joined wrapmargin l prev s d p ps h hold nb lt

split-ansimode : (wrapmargin col : ℕ) (s : Buf) → (split wrapmargin col s).ansimode ≡ s.ansimode
unfolding split
split-ansimode wrapmargin col s = ground arith

-- For a buffer that shows an article, in an editor that neither indents nor is in ansi mode, with the
-- cursor before a text that is not blank: the backspace takes back the line break of `split`, that is, it
-- returns, and the buffer shows the article of before.
pub backspace-split :
    (wrapmargin : ℕ) (s : Buf) (d : Doc)
    → Shows wrapmargin s d
    → s.indent_mode ≡ false
    → s.ansimode ≡ false
    → blank d.right ≡ false
    → (t : Buf) × (backspace wrapmargin (split wrapmargin s.currpnt s) ≡ some t)
      × Shows wrapmargin t d
unfolding backspace new_line split
backspace-split wrapmargin s d h ni na nb =
    let hs = split-Shows wrapmargin s d h ni in
    let (t, e, ht) =
      join_back-Shows wrapmargin (split wrapmargin s.currpnt s).before
        (split wrapmargin s.currpnt s) d d.left d.above hs hs.above_hold nb
        (omega (arith, h.line_fits, length-append d.left d.right)) in
    let plain : (split wrapmargin s.currpnt s).ansimode ≡ false =
      split-ansimode wrapmargin s.currpnt s ∙ na in
    let start : ((split wrapmargin s.currpnt s).currpnt == 0) ≡ true = (==_iff _ 0).1 hs.col in
    (t, rw (plain, start) e, ht)

-- The backspace behind a byte takes the byte away.
pub backspace-Shows :
    (wrapmargin x : ℕ) (l : List ℕ) (s : Buf) (d : Doc)
    → Shows wrapmargin s (record d { left = l ++ x ∷ [] })
    → s.ansimode ≡ false
    → (t : Buf) × (backspace wrapmargin s ≡ some t) × Shows wrapmargin t (record d { left = l })
unfolding backspace
backspace-Shows wrapmargin x l s d h na =
    let k = length-append l (x ∷ []) in
    let some_left : (s.currpnt == 0) ≡ false = ground (arith, h.col, k) in
    let e = append_assoc l (x ∷ []) d.right in
    let moved : Shows wrapmargin (record s { currpnt = s.currpnt - 1 })
        (record d { left = l; right = x ∷ d.right }) =
      record {
        above_hold = h.above_hold;
        line_holds = rw (← e) h.line_holds;
        line_fits = rw (← e) h.line_fits;
        line_writable = h.line_writable;
        below_hold = h.below_hold;
        col = omega (arith, h.col, k);
        row = h.row;
        total = h.total;
      } in
    (
      delete_char (record s { currpnt = s.currpnt - 1 }),
      ground (arith, na, some_left),
      delete_char-Shows wrapmargin x d.right (record s { currpnt = s.currpnt - 1 })
          (record d { left = l }) moved,
    )

insert_char-ansimode :
    (wrapmargin ch : ℕ) (s : Buf) → (insert_char wrapmargin ch s).ansimode ≡ s.ansimode
unfolding insert_char put_char wrap wrap_at split
insert_char-ansimode wrapmargin ch s = ground arith

-- For a buffer that shows an article, in insert mode, out of the ansi mode and with room for one more byte
-- on the line: the backspace takes back the byte that was typed, which is not a NUL.
pub backspace-insert_char :
    (wrapmargin ch : ℕ) (s : Buf) (d : Doc)
    → Shows wrapmargin s d
    → s.insert_mode ≡ true
    → s.ansimode ≡ false
    → ch ≢ 0
    → length (d.left ++ d.right) + 1 < wrapmargin
    → (t : Buf) × (backspace wrapmargin (insert_char wrapmargin ch s) ≡ some t)
      × Shows wrapmargin t d
unfolding type_char
backspace-insert_char wrapmargin ch s d h im na ne lt =
    backspace-Shows wrapmargin ch d.left (insert_char wrapmargin ch s) d
      (insert_char-Shows wrapmargin ch s d h im ne lt) (insert_char-ansimode wrapmargin ch s ∙ na)
