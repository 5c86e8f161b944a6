-- ===== src/Edit/Keys.antt =====
-- mbbsd/edit.c: the keys of `vedit` that delete or move, with `join`. Marks of the window and of blocks
-- are left out.
use pttoldstable.Base.{
  ℕ, zero, suc, ◌+◌, ◌-◌, Bool, true, false, not, ◌&&◌, Option, none, some, List, [], ◌∷◌, get_or,
  set, length, leb, ltb, ◌==◌, if◌then◌else◌,
}
use pttoldstable.Base.Int.{pos, ◌-ℤ◌, ltb_ℤ}
use pttoldstable.Base.Bytes.{at}
use pttoldstable.Edit.{
  Line, Buf, cstr, strcpy, strcat, next_non_space_char, adjustline, split_line, indent_space,
  last_space, delete_char,
}
use pttoldstable.Edit.Ansi.{ansi2n, n2ansi}

-- A line, those after it and `totaln`.
pub record Lines : Type 0 where
  pub line : Line
  pub after : List Line
  pub totaln : ℕ

unfoldable pub is_blank : Line → Bool
unfolding next_non_space_char
is_blank n = get_or n.bytes (next_non_space_char n.bytes) 0 == 0

module _ (wrapmargin : ℕ) where
  -- The end of `join` on the line after the joined one.
  unfoldable pub end_rest : List Line → List Line
  unfolding at strcpy
  end_rest [] = []
  end_rest (n ∷ rest) =
      if leb 1 n.len
        && ltb (n.len - 1) (wrapmargin - 2)
        && not (get_or n.bytes (n.len - 1) 0 == b' ')
      then record { bytes = at (n.len - 1) (strcpy (b' ' ∷ [])) n.bytes; len = n.len + 1 } ∷ rest
      else n ∷ rest

  -- `split(n, pos)` for a line `n` that is not the current one.
  unfoldable pub split_other : ℕ → Bool → ℕ → Line → List Line → ℕ → List Line × ℕ
  unfolding split_line adjustline
  split_other spcs indent_mode col n rest totaln =
      let r = split_line wrapmargin spcs indent_mode n col in
      if leb col n.len
      then (r.0 ∷ adjustline r.1 r.1.len ∷ rest, totaln + 1)
      else (n ∷ rest, totaln)

  -- The length of the line after `line`.
  unfoldable pub next_len : List Line → ℕ
  next_len [] = 0
  next_len (n ∷ rest) = n.len

  -- `spcs` is what `indent_space` returns. The recursive call joins at once, so two rounds are enough.
  unfoldable pub join : ℕ → ℕ → Bool → Line → List Line → ℕ → Bool × Lines
  unfolding is_blank strcat cstr last_space split_other next_len end_rest
  join zero spcs indent_mode line after totaln =
      (true, record { line = line; after = after; totaln = totaln })
  join (suc k) spcs indent_mode line [] totaln =
      (true, record { line = line; after = []; totaln = totaln })
  join (suc k) spcs indent_mode line (n ∷ rest) totaln =
      let same : Lines = record { line = line; after = n ∷ rest; totaln = totaln } in
      let s = last_space n.bytes (wrapmargin - line.len - 1) in
      let cut = split_other spcs indent_mode (s + 1) n rest totaln in
      let parted : Lines = record { line = line; after = cut.0; totaln = cut.1 } in
      let next = join k spcs indent_mode line cut.0 cut.1 in
      if is_blank n
      then (true, same)
      else if ltb (line.len + n.len) wrapmargin
      then (
        true,
        record {
          line = record { bytes = strcat (cstr n.bytes) line.bytes; len = line.len + n.len };
          after = rest;
          totaln = totaln - 1;
        },
      )
      else if s == 0
      then (true, same)
      else if leb wrapmargin (line.len + next_len cut.0)
      then (true, parted)
      else (false, record (next.1) { after = end_rest next.1.after })

  -- `while (!join(p)) p = p->next`, `none` where it calls `abort_bbs`.
  unfoldable pub join_rest : ℕ → ℕ → Bool → Line → List Line → ℕ → Option Lines
  unfolding join
  join_rest zero spcs indent_mode line after totaln = none
  join_rest (suc k) spcs indent_mode line after totaln =
      let r = join 2 spcs indent_mode line after totaln in
      elim r.1.after [
        | [] ↦ if r.0 then some r.1 else none
        | p ∷ rest ↦
            let t = join_rest k spcs indent_mode p rest r.1.totaln in
            if r.0 then some r.1 else elim t [
              | none ↦ none
              | some u ↦
                  some (record { line = r.1.line; after = u.line ∷ u.after; totaln = u.totaln })
            ]
      ]

  -- The loop after its first call of `join`, with its result and the lines that it left. The indentation is read again, as
  -- the current line may have changed.
  unfoldable pub join_from : Bool → List Line → Buf → Option Buf
  unfolding join_rest indent_space
  join_from true after s = some s
  join_from false [] s = none
  join_from false (p ∷ rest) s =
      let t = join_rest (suc (length rest)) (indent_space s) s.indent_mode p rest s.totaln in
      elim t [
        | none ↦ none
        | some u ↦ some (record s { after = u.line ∷ u.after; totaln = u.totaln })
      ]

  unfoldable pub join_all : Buf → Option Buf
  join_all s =
      let r = join 2 (indent_space s) s.indent_mode s.currline s.after s.totaln in
      join_from r.0 r.1.after
        (record s { currline = r.1.line; after = r.1.after; totaln = r.1.totaln })

  -- The key of the backspace where the cursor is at the start of a line, with the lines before it.
  unfoldable pub join_back : List Line → Buf → Option Buf
  unfolding adjustline
  join_back [] s = some s
  join_back (p ∷ prev) s =
      let n = adjustline s.currline s.currline.len in
      let s' : Buf = record s {
        before = prev;
        currline = adjustline p wrapmargin;
        after = n ∷ s.after;
        currpnt = p.len;
        currln = s.currln - 1;
        curr_window_line = s.curr_window_line -ℤ pos 1;
      } in
      if is_blank n
      then some (record s' { after = s.after; totaln = s.totaln - 1 })
      else join_all s'

  unfoldable pub backspace : Buf → Option Buf
  backspace s =
      if s.ansimode
      then some (record s { ansimode = false })
      else if s.currpnt == 0
      then join_back s.before s
      else some (delete_char (record s { currpnt = s.currpnt - 1 }))

  unfoldable pub key_del : Buf → Option Buf
  unfolding delete_char join_all
  key_del s =
      let t = delete_char s in
      if s.currline.len == s.currpnt
      then join_all s
      else some (
          if s.ansimode
          then record t { currpnt = ansi2n (n2ansi t.currpnt t.currline.bytes) t.currline.bytes }
          else t)

  -- `Ctrl('K')` on an empty line.
  unfoldable pub drop_line : Buf → Buf
  unfolding adjustline
  drop_line s = elim s.after [
    | p ∷ rest ↦ record s {
      currline = adjustline p wrapmargin;
      after = rest;
      totaln = s.totaln - 1;
      deleted_line = some s.currline;
    }
    | [] ↦ elim s.before [
      | [] ↦ record s { currline = record (s.currline) { bytes = set s.currline.bytes 0 0 } }
      | p ∷ prev ↦ record s {
        before = prev;
        currline = adjustline p wrapmargin;
        totaln = s.totaln - 1;
        deleted_line = some s.currline;
        curr_window_line =
            if ltb_ℤ (pos 0) s.curr_window_line
            then s.curr_window_line -ℤ pos 1
            else s.curr_window_line;
        currln = if ltb_ℤ (pos 0) s.curr_window_line then s.currln - 1 else s.currln;
      }
    ]
  ]

  unfoldable pub delete_to_end : Buf → Option Buf
  unfolding drop_line join_all
  delete_to_end s =
      if s.currline.len == 0
      then some (drop_line s)
      else if s.currline.len == s.currpnt
      then join_all s
      else some (record s {
        currline = record { bytes = set s.currline.bytes s.currpnt 0; len = s.currpnt };
      })

  unfoldable pub delete_current : Buf → Option Buf
  unfolding delete_to_end
  delete_current s =
      delete_to_end (record s { currline = record (s.currline) { len = 0 }; currpnt = 0 })
