-- ===== src/Edit.antt =====
-- mbbsd/edit.c: the lines of the article that is edited, and the operations of the editor on them.
-- `wrapmargin` is WRAPMARGIN. The list of lines is cut at the current line; Edit.Links shows that the
-- pointers of the source keep such a list.
use pttoldstable.Base.{
  ℕ, zero, suc, ◌+◌, ◌-◌, Bool, true, false, not, ◌&&◌, Option, none, some, List, [], ◌∷◌, ◌++◌,
  length, get_or, set, take, drop, replicate, leb, ltb, ◌==◌, if◌then◌else◌,
}
use pttoldstable.Base.Int.{ℤ, pos, ◌+ℤ◌}
use pttoldstable.Base.Bytes.{at, memcpy}
pub mod Ansi
pub mod Holds
pub mod Chars
pub mod Lines
pub mod Keys
pub mod Doc
pub mod Joins
pub mod Spaces
pub mod Cursor
pub mod Wrap
pub mod Session
pub mod Lengths
pub mod Links

-- A `textline_t`: all bytes of the buffer `data` and the length that the source keeps apart. A
-- byte that the source leaves undefined is 0, and a write past the buffer is lost.
pub record Line : Type 0 where
  pub bytes : List ℕ
  pub len : ℕ

-- The lines before the current one, nearest first, the current one and those after it, with the fields of
-- `editor_internal_t` that the operations read or write.
pub record Buf : Type 0 where
  pub before : List Line
  pub currline : Line
  pub after : List Line
  pub currln : ℕ
  pub currpnt : ℕ
  pub totaln : ℕ
  pub curr_window_line : ℤ
  pub lastindent : ℕ
  pub insert_mode : Bool
  pub ansimode : Bool
  pub indent_mode : Bool
  pub deleted_line : Option Line

-- The bytes up to the NUL.
unfoldable pub cstr : List ℕ → List ℕ
cstr [] = []
cstr (c ∷ d) = let rest = cstr d in if c == 0 then [] else c ∷ rest

unfoldable pub strcpy : List ℕ → List ℕ → List ℕ
unfolding memcpy
strcpy s d = memcpy (s ++ 0 ∷ []) d

unfoldable pub strcat : List ℕ → List ℕ → List ℕ
unfolding strcpy cstr at
strcat s d = at (length (cstr d)) (strcpy s) d

unfoldable pub raw_shift_left : ℕ → List ℕ → List ℕ
raw_shift_left zero d = d
raw_shift_left (suc k) [] = []
raw_shift_left (suc k) (c ∷ []) = c ∷ []
raw_shift_left (suc k) (c ∷ b ∷ d) =
    let rest = raw_shift_left k (b ∷ d) in if c == 0 then c ∷ b ∷ d else b ∷ rest

-- The round at `suc k` has `i = k`.
unfoldable pub raw_shift_right : ℕ → List ℕ → List ℕ
raw_shift_right zero d = d
raw_shift_right (suc k) d = raw_shift_right k (set d (suc k) (get_or d k 0))

-- `next_non_space_char(s) - s`
unfoldable pub next_non_space_char : List ℕ → ℕ
next_non_space_char [] = 0
next_non_space_char (c ∷ d) = let rest = next_non_space_char d in if c == b' ' then rest + 1 else 0

-- From `data` to the end of the structure there are `data[1]` and a byte of alignment.
unfoldable pub alloc_line : ℕ → Line
alloc_line size = record { bytes = replicate (size + 2) 0; len = 0 }

unfoldable pub adjustline : Line → ℕ → Line
adjustline oldp len = record oldp {
  bytes = take (len + 2) oldp.bytes ++ replicate (len + 2 - length oldp.bytes) 0;
}

-- The loop of `indent_space` from a line back.
unfoldable pub first_indent : List Line → ℕ
unfolding next_non_space_char
first_indent [] = 0
first_indent (p ∷ prev) =
    let spcs = next_non_space_char p.bytes in
    let rest = first_indent prev in if get_or p.bytes spcs 0 == 0 then rest else spcs

unfoldable pub indent_space : Buf → ℕ
unfolding first_indent
indent_space s = if not s.indent_mode then 0 else first_indent (s.currline ∷ s.before)

-- `s--` while `s != data && *s == ' '`, from the index `s`.
unfoldable pub skip_spaces : List ℕ → ℕ → ℕ
skip_spaces bytes zero = 0
skip_spaces bytes (suc s) =
    let rest = skip_spaces bytes s in if get_or bytes (suc s) 0 == b' ' then rest else suc s

-- `s--` while `s != data && *s != ' '`
unfoldable pub skip_word : List ℕ → ℕ → ℕ
skip_word bytes zero = 0
skip_word bytes (suc s) =
    let rest = skip_word bytes s in if get_or bytes (suc s) 0 == b' ' then suc s else rest

-- From the index `s` back, over spaces and over the word before them.
unfoldable pub last_space : List ℕ → ℕ → ℕ
unfolding skip_spaces skip_word
last_space bytes s = skip_word bytes (skip_spaces bytes s)

-- The space that `insert_char` puts after the word that it moved.
unfoldable pub end_word : Bool → Line → Line
end_word wordwrap p =
    if wordwrap && leb 1 p.len && not (get_or p.bytes (p.len - 1) 0 == b' ')
    then record { bytes = set (set p.bytes p.len b' ') (p.len + 1) 0; len = p.len + 1 }
    else p

unfoldable pub end_next_word : Bool → List Line → List Line
unfolding end_word
end_next_word wordwrap [] = []
end_next_word wordwrap (p ∷ next) = end_word wordwrap p ∷ next

-- `insert_char` up to the test on the length.
unfoldable pub put_char : ℕ → Buf → Buf
unfolding at raw_shift_right
put_char ch s =
    let p = s.currline in
    let q : Line = record p { bytes = set p.bytes s.currpnt ch } in
    if ltb s.currpnt p.len && not s.insert_mode
    then record s {
      currline = q;
      currpnt =
          if s.ansimode
          then Ansi.ansi2n (Ansi.n2ansi (s.currpnt + 1) q.bytes) q.bytes
          else s.currpnt + 1;
    }
    else record s {
      currline = record {
        bytes = set (at s.currpnt (raw_shift_right (p.len - s.currpnt + 1)) p.bytes) s.currpnt ch;
        len = p.len + 1;
      };
      currpnt = s.currpnt + 1;
    }

module _ (wrapmargin : ℕ) where
  -- The two lines that `split` makes of `line`.
  unfoldable pub split_line : ℕ → Bool → Line → ℕ → Line × Line
  unfolding strcpy memcpy cstr at next_non_space_char alloc_line
  split_line spcs indent_mode line col =
      let ptr : ℕ = if indent_mode then col + next_non_space_char (drop col line.bytes) else col in
      let blank = memcpy (replicate spcs b' ') (alloc_line wrapmargin).bytes in
      (
        record { bytes = set line.bytes ptr 0; len = col },
        record {
          bytes = at spcs (strcpy (cstr (drop ptr line.bytes))) blank;
          len = line.len - col + spcs;
        },
      )

  -- `split(currline, pos)`, with `col` for `pos`
  unfoldable pub split : ℕ → Buf → Buf
  unfolding split_line indent_space adjustline
  split col s =
      let spcs = indent_space s in
      let r = split_line spcs s.indent_mode s.currline col in
      if not (leb col s.currline.len)
      then s
      else if leb col s.currpnt
      then record s {
        before = adjustline r.0 r.0.len ∷ s.before;
        currline = r.1;
        totaln = s.totaln + 1;
        currpnt = if col == s.currpnt then spcs else s.currpnt - col;
        curr_window_line = s.curr_window_line +ℤ pos 1;
        currln = s.currln + 1;
      }
      else record s {
        currline = r.0;
        after = adjustline r.1 r.1.len ∷ s.after;
        totaln = s.totaln + 1;
      }

  -- `insert_char` from the call of `split` on.
  unfoldable pub wrap_at : Bool → ℕ → Buf → Buf
  wrap_at wordwrap col s =
      let t = split col s in
      if leb col s.currpnt
      then record t { currline = end_word wordwrap t.currline }
      else record t { after = end_next_word wordwrap t.after }

  -- `insert_char` from the test on the length on.
  unfoldable pub wrap : Buf → Buf
  wrap s =
      let i = s.currline.len in
      let space = last_space s.currline.bytes (i - 1) in
      let wordwrap = not (space == 0) in
      let col : ℕ = if wordwrap then space + 1 else i - 1 in
      if ltb i wrapmargin then s else wrap_at wordwrap col s

  unfoldable pub insert_char : ℕ → Buf → Buf
  unfolding put_char wrap
  insert_char ch s = if ltb s.currline.len s.currpnt then s else wrap (put_char ch s)

unfoldable pub delete_char : Buf → Buf
unfolding at raw_shift_left
delete_char s =
    let p = s.currline in
    if p.len == 0 then s else if leb p.len s.currpnt then s else record s {
      currline = record {
        bytes = at s.currpnt (raw_shift_left (p.len - s.currpnt + 1)) p.bytes;
        len = p.len - 1;
      };
    }
