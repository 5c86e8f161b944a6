-- ===== src/Edit/Cursor.antt =====
-- mbbsd/edit.c: the lines of an article from the top, and the place of the cursor.
use pttoldstable.Base.{
  ℕ, ◌+◌, ◌≤◌, ◌<◌, ◌≡◌, List, [], ◌∷◌, ◌++◌, arith, length, length-take, take, drop,
  take-append-drop,
}
use pttoldstable.Edit.{Buf}
use pttoldstable.Edit.Holds.{Holds, Writable}
use pttoldstable.Edit.Doc.{Doc, Hold, Shows}

-- The lines from the top, and the bytes before the cursor.
unfoldable pub onto : List (List ℕ) → List (List ℕ) → List (List ℕ)
onto [] below = below
onto (l ∷ above) below = onto above (l ∷ below)

unfoldable pub lines : Doc → List (List ℕ)
unfolding onto
lines d = onto d.above ((d.left ++ d.right) ∷ d.below)

unfoldable pub bytes_above : List (List ℕ) → ℕ
bytes_above [] = 0
bytes_above (l ∷ above) = bytes_above above + length l

unfoldable pub cursor : Doc → ℕ
unfolding bytes_above
cursor d = bytes_above d.above + length d.left

-- A buffer with the cursor in the middle of a text shows it.
pub at_cursor :
    (wrapmargin : ℕ) (u : Buf) (above below : List (List ℕ)) (l : List ℕ)
    → Hold wrapmargin u.before above
    → Holds u.currline l
    → length l < wrapmargin
    → Writable wrapmargin u.currline
    → Hold wrapmargin u.after below
    → u.currpnt ≤ length l
    → u.currln ≡ length above
    → u.totaln ≡ length above + length below
    → Shows wrapmargin u
        (record { above = above; left = take u.currpnt l; right = drop u.currpnt l; below = below })
at_cursor wrapmargin u above below l ha hl fits room hb col row total =
    let e = take-append-drop u.currpnt l in
    record {
      above_hold = ha;
      line_holds = rw e hl;
      line_fits = rw e fits;
      line_writable = room;
      below_hold = hb;
      col = omega (arith, length-take u.currpnt l);
      row = row;
      total = total;
    }
