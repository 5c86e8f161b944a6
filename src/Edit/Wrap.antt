-- ===== src/Edit/Wrap.antt =====
-- mbbsd/edit.c: `insert_char` where the line gets as long as the margin.
use pttoldstable.Base.{
  ℕ, ◌+◌, ◌-◌, ◌≤◌, ◌<◌, ◌≡◌, ◌≢◌, ◌⊎◌, inl, inr, refl, ap, ◌∙◌, Bool, true, false, not, List, [],
  ◌∷◌, ◌++◌, arith, length, length-append, length-take, length-drop, length-set, leb, ltb, ◌==◌,
  take, drop, if◌then◌else◌, dec_lt, set, Bool-cases, take-append-drop, leb→le, ltb→lt,
}
use pttoldstable.Base.Int.{pos, ◌+ℤ◌}
use pttoldstable.Base.Bytes.{at}
use pttoldstable.Edit.{
  Line, Buf, raw_shift_right, last_space, split, split_line, adjustline, end_word, end_next_word,
  wrap, wrap_at, insert_char, indent_space,
}
use pttoldstable.Edit.Holds.{Holds, Writable, append_assoc}
use pttoldstable.Edit.Lines.{split_line_lem, adjustline_lem, end_word_lem}
use pttoldstable.Edit.Chars.{insert_lem}
use pttoldstable.Edit.Doc.{Doc, Hold, Shows, put_char-insert, type_char, insert_char-Shows}
use pttoldstable.Edit.Spaces.{last_space-lt}
use pttoldstable.Edit.Cursor.{onto, lines, bytes_above, cursor, at_cursor}

-- What becomes of a line that has got as long as the margin: two lines, with a space behind the second
-- one or not.
unfoldable pub Wrapped : ℕ → Buf → List (List ℕ) → List ℕ → List (List ℕ) → ℕ → Doc → Type 0
Wrapped wrapmargin t above l below offset d =
    Shows wrapmargin t d
    × (cursor d ≡ bytes_above above + offset)
    × ((a : List ℕ) × (b : List ℕ) × (e : List ℕ) × (a ++ b ≡ l)
        × ((e ≡ []) ⊎ (e ≡ b' ' ∷ []))
        × (lines d ≡ onto above (a ∷ (b ++ e) ∷ below)))

module _ (wrapmargin : ℕ) (u : Buf) (above below : List (List ℕ)) (l : List ℕ)
    (big : 2 < wrapmargin) (ni : u.indent_mode ≡ false) (ha : Hold wrapmargin u.before above)
    (hl : Holds u.currline l) (full : length l ≡ wrapmargin) (room : Writable wrapmargin u.currline)
    (hb : Hold wrapmargin u.after below) (col : u.currpnt ≤ length l)
    (row : u.currln ≡ length above) (total : u.totaln ≡ length above + length below) where
  pub cut_lem :
      (cut : ℕ)
      → cut < wrapmargin
      → (Holds (split_line wrapmargin 0 false u.currline cut).0 (take cut l))
        × (Holds (split_line wrapmargin 0 false u.currline cut).1 (drop cut l))
        × Writable wrapmargin (split_line wrapmargin 0 false u.currline cut).1
  cut_lem cut hi =
      let size : length (take cut l) ≡ cut = omega (arith, length-take cut l) in
      rw (← ap (λ n. split_line wrapmargin 0 false u.currline n) size) (
        split_line_lem wrapmargin u.currline (take cut l) (drop cut l)
          (rw (take-append-drop cut l) hl) (omega (arith, length-drop cut l)))

  cut-Writable : (cut : ℕ) → Writable wrapmargin (split_line wrapmargin 0 false u.currline cut).0
  unfolding split_line Writable
  cut-Writable cut = length-set u.currline.bytes cut 0 ∙ room

  wrap_at-moved :
      (wordwrap : Bool) (cut : ℕ)
      → 1 < cut
      → cut < wrapmargin
      → leb cut u.currpnt ≡ true
      → (d : Doc) × Wrapped wrapmargin (wrap_at wrapmargin wordwrap cut u) above l below u.currpnt d
  unfolding Wrapped wrap_at split indent_space Hold lines cursor onto bytes_above Writable
  wrap_at-moved wordwrap cut lo hi moved =
      let parts = cut_lem cut hi in
      let r = split_line wrapmargin 0 false u.currline cut in
      let b : List ℕ = drop cut l in
      let size : length (take cut l) ≡ cut = omega (arith, length-take cut l) in
      let size_b : length b ≡ wrapmargin - cut = omega (arith, length-drop cut l) in
      let kept = adjustline_lem r.0 (take cut l) cut parts.0 (omega arith) in
      let (e, kind, hw, long) = end_word_lem wordwrap r.1 b parts.1 (omega (arith, parts.2)) in
      let size_e : length e ≤ 1 = elim kind [
        | inl z ↦ rw z (omega arith)
        | inr z ↦ rw z (omega arith)
      ] in
      let c : ℕ = if cut == u.currpnt then 0 else u.currpnt - cut in
      let c_eq : c ≡ u.currpnt - cut = ground arith in
      let within : leb cut u.currline.len ≡ true = ground (arith, hl.len_eq) in
      let t : Buf = record u {
        before = adjustline r.0 cut ∷ u.before;
        currline = end_word wordwrap r.1;
        totaln = u.totaln + 1;
        currpnt = c;
        curr_window_line = u.curr_window_line +ℤ pos 1;
        currln = u.currln + 1;
      } in
      let same : wrap_at wrapmargin wordwrap cut u ≡ t = rw (moved, within, ni) refl in
      let whole = length-append b e in
      let tail = take-append-drop c (b ++ e) in
      rw same (
        record {
          above = take cut l ∷ above;
          left = take c (b ++ e);
          right = drop c (b ++ e);
          below = below;
        },
        (
          at_cursor wrapmargin t (take cut l ∷ above) below (b ++ e) (kept.0, omega arith, ha) hw
              (omega arith) (long ∙ parts.2) hb (omega arith) (omega arith) (omega arith),
          omega (arith, length-take c (b ++ e), ltb→lt cut u.currpnt, leb→le cut u.currpnt moved),
          (
            take cut l,
            b,
            e,
            take-append-drop cut l,
            kind,
            ap (λ x. onto above (take cut l ∷ x ∷ below)) tail,
          ),
        ),
      )

  wrap_at-stays :
      (wordwrap : Bool) (cut : ℕ)
      → 1 < cut
      → cut < wrapmargin
      → leb cut u.currpnt ≡ false
      → (d : Doc) × Wrapped wrapmargin (wrap_at wrapmargin wordwrap cut u) above l below u.currpnt d
  unfolding Wrapped wrap_at split indent_space Hold lines cursor onto bytes_above Writable
      end_next_word
  wrap_at-stays wordwrap cut lo hi stays =
      let parts = cut_lem cut hi in
      let r = split_line wrapmargin 0 false u.currline cut in
      let a : List ℕ = take cut l in
      let b : List ℕ = drop cut l in
      let size : length a ≡ cut = omega (arith, length-take cut l) in
      let size_b : length b ≡ wrapmargin - cut = omega (arith, length-drop cut l) in
      let p : Line = adjustline r.1 r.1.len in
      let r_len = parts.1.len_eq in
      let kept = adjustline_lem r.1 b r.1.len parts.1 (omega (arith, r_len)) in
      let (e, kind, hw, long) = end_word_lem wordwrap p b kept.0 (omega (arith, kept.1, r_len)) in
      let size_e : length e ≤ 1 = elim kind [
        | inl z ↦ rw z (omega arith)
        | inr z ↦ rw z (omega arith)
      ] in
      let c : ℕ = u.currpnt in
      let c_lt : c < cut = ground (arith, stays) in
      let within : leb cut u.currline.len ≡ true = ground (arith, hl.len_eq) in
      let t : Buf = record u {
        currline = r.0;
        after = end_word wordwrap p ∷ u.after;
        totaln = u.totaln + 1;
      } in
      let same : wrap_at wrapmargin wordwrap cut u ≡ t = rw (stays, within, ni) refl in
      rw same (
        record { above = above; left = take c a; right = drop c a; below = (b ++ e) ∷ below },
        (
          at_cursor wrapmargin t above ((b ++ e) ∷ below) a ha parts.0 (omega arith)
              (cut-Writable cut) (hw, omega (arith, length-append b e), hb) (omega arith) row
              (omega arith),
          omega (arith, length-take c a),
          (
            a,
            b,
            e,
            take-append-drop cut l,
            kind,
            ap (λ x. onto above (x ∷ (b ++ e) ∷ below)) (take-append-drop c a),
          ),
        ),
      )

  wrap_lem : (d : Doc) × Wrapped wrapmargin (wrap wrapmargin u) above l below u.currpnt d
  unfolding wrap
  wrap_lem =
      let space = last_space u.currline.bytes (u.currline.len - 1) in
      let cut : ℕ = if not (space == 0) then space + 1 else u.currline.len - 1 in
      let long : ltb u.currline.len wrapmargin ≡ false = ground (arith, hl.len_eq) in
      let lo : 1 < cut = ground (arith, hl.len_eq) in
      let hi : cut < wrapmargin = elim (last_space-lt u.currline.bytes (u.currline.len - 1)) [
        | inl z ↦ ground (arith, hl.len_eq, z)
        | inr lt ↦ ground (arith, hl.len_eq, lt)
      ] in
      rw long (elim (Bool-cases (leb cut u.currpnt)) [
        | inl moved ↦ wrap_at-moved (not (space == 0)) cut lo hi moved
        | inr stays ↦ wrap_at-stays (not (space == 0)) cut lo hi stays
      ])

-- For a margin over 2, a buffer that shows an article, insert mode, no indentation and a byte that is not a
-- NUL: the typed byte goes before the cursor, and all lines stay shorter than the margin. Where the line
-- would not, it is cut in two, and at most one space is put behind the second part.
pub insert_char-Fits :
    (wrapmargin ch : ℕ) (s : Buf) (d : Doc)
    → 2 < wrapmargin
    → Shows wrapmargin s d
    → s.insert_mode ≡ true
    → s.indent_mode ≡ false
    → ch ≢ 0
    → (d' : Doc) × (Shows wrapmargin (insert_char wrapmargin ch s) d'
        × (cursor d' ≡ cursor d + 1)
        × ((lines d' ≡ onto d.above ((d.left ++ ch ∷ d.right) ∷ d.below))
            ⊎ ((a : List ℕ) × (b : List ℕ) × (e : List ℕ) × (a ++ b ≡ d.left ++ ch ∷ d.right)
                × ((e ≡ []) ⊎ (e ≡ b' ' ∷ []))
                × (lines d' ≡ onto d.above (a ∷ (b ++ e) ∷ d.below)))))
unfolding cursor lines insert_char type_char Writable Wrapped
insert_char-Fits wrapmargin ch s d big h im ni ne =
    let size = length-append d.left d.right in
    let grown = length-append d.left (ch ∷ d.right) in
    elim (dec_lt (length (d.left ++ d.right) + 1) wrapmargin) [
      | yes short ↦ (
        type_char ch d,
        (
          insert_char-Shows wrapmargin ch s d h im ne short,
          omega (arith, length-append d.left (ch ∷ [])),
          inl (ap (λ x. onto d.above (x ∷ d.below)) (append_assoc d.left (ch ∷ []) d.right)),
        ),
      )
      | no long ↦
          let u : Buf = record s {
            currline = record {
              bytes =
                  set
                    (at s.currpnt (raw_shift_right (s.currline.len - s.currpnt + 1))
                      s.currline.bytes)
                    s.currpnt ch;
              len = s.currline.len + 1;
            };
            currpnt = s.currpnt + 1;
          } in
          let put =
            insert_lem s.currline d.left d.right ch h.line_holds
              (omega (arith, h.line_fits, h.line_writable)) ne in
          let within : ltb s.currline.len s.currpnt ≡ false =
            ground (arith, h.col, h.line_holds.len_eq, size) in
          let (d', (shown, offset, cut)) =
            wrap_lem wrapmargin u d.above d.below (d.left ++ ch ∷ d.right) big ni h.above_hold
              (rw h.col put.0) (omega (arith, h.line_fits)) (rw h.col (put.1 ∙ h.line_writable))
              h.below_hold (omega (arith, h.col)) h.row h.total in
          (d', (rw (within, put_char-insert ch s im) shown, omega (arith, offset, h.col), inr cut))
    ]
