-- ===== src/Examples/Edit.antt =====
-- mbbsd/edit.c: an article of three lines, with a margin of 8.
use pttoldstable.Base.{
  ℕ, ◌+◌, ◌≡◌, ◌≢◌, ◌⊎◌, refl, true, false, List, [], ◌∷◌, ◌++◌, none, some, arith, length, take,
  drop, replicate, ◌==◌, if◌then◌else◌,
}
use pttoldstable.Base.Int.{pos}
use pttoldstable.Edit.{Line, Buf, split, insert_char, cstr, split_line, next_non_space_char}
use pttoldstable.Edit.Keys.{backspace}
use pttoldstable.Edit.Holds.{NoNul, Holds, Writable}
use pttoldstable.Edit.Doc.{Doc, Hold, Shows, new_line, split-Shows}
use pttoldstable.Edit.Joins.{blank, backspace-split}
use pttoldstable.Edit.Wrap.{insert_char-Fits}
use pttoldstable.Edit.Cursor.{onto, lines, cursor}
use pttoldstable.Edit.Session.{Reach, Works, typed, entered, start, press, Reach-Works}
use pttoldstable.Edit.Lengths.{split_line-indent}
use pttoldstable.Edit.Links.{
  Links, HasLines, insert_line, delete_line, Absent, Distinct, Chained, head,
}
use pttoldstable.Edit.Links.Insert.{insert_line-HasLines}
use pttoldstable.Edit.Links.Delete.{delete_line-HasLines}

-- `ab cd e` with its cursor before the last byte, between the lines `x` and `y`.
abbrev left_part : List ℕ
left_part = 97 ∷ 98 ∷ 32 ∷ 99 ∷ 100 ∷ 32 ∷ []

abbrev doc : Doc
doc = record {
  above = (120 ∷ []) ∷ [];
  left = left_part;
  right = 101 ∷ [];
  below = (121 ∷ []) ∷ [];
}

abbrev buf : Buf
buf = record {
  before = record { bytes = 120 ∷ 0 ∷ 0 ∷ []; len = 1 } ∷ [];
  currline = record { bytes = 97 ∷ 98 ∷ 32 ∷ 99 ∷ 100 ∷ 32 ∷ 101 ∷ 0 ∷ 0 ∷ 0 ∷ []; len = 7 };
  after = record { bytes = 121 ∷ 0 ∷ 0 ∷ []; len = 1 } ∷ [];
  currln = 1;
  currpnt = 6;
  totaln = 2;
  curr_window_line = pos 1;
  lastindent = 0;
  insert_mode = true;
  ansimode = false;
  indent_mode = false;
  deleted_line = none;
}

one_byte : (c : ℕ) → c ≢ 0 → Holds (record { bytes = c ∷ 0 ∷ 0 ∷ []; len = 1 }) (c ∷ [])
unfolding NoNul
one_byte c h = record { rest = 0 ∷ []; bytes_eq = refl; len_eq = refl; no_nul = (h, tt) }

buf-Shows : Shows 8 buf doc
unfolding Hold NoNul Writable
buf-Shows = record {
  above_hold = (one_byte 120 (omega arith), omega arith, tt);
  line_holds = record {
    rest = 0 ∷ 0 ∷ [];
    bytes_eq = refl;
    len_eq = refl;
    no_nul = (
      omega arith,
      (omega arith, (omega arith, (omega arith, (omega arith, (omega arith, (omega arith, tt)))))),
    );
  };
  line_fits = omega arith;
  line_writable = refl;
  below_hold = (one_byte 121 (omega arith), omega arith, tt);
  col = refl;
  row = refl;
  total = refl;
}

split-Shows_example : Shows 8 (split 8 6 buf) (new_line doc)
split-Shows_example = split-Shows 8 buf doc buf-Shows refl

right-blank : blank (doc.right) ≡ false
unfolding blank
right-blank = refl

backspace-split_example : (t : Buf) × (backspace 8 (split 8 6 buf) ≡ some t) × Shows 8 t doc
backspace-split_example = backspace-split 8 buf doc buf-Shows refl refl right-blank

-- A margin of 9 has room for one more byte.
abbrev wide_buf : Buf
wide_buf = record buf {
  currline = record { bytes = 97 ∷ 98 ∷ 32 ∷ 99 ∷ 100 ∷ 32 ∷ 101 ∷ 0 ∷ 0 ∷ 0 ∷ 0 ∷ []; len = 7 };
}

wide_buf-Shows : Shows 9 wide_buf doc
unfolding Hold NoNul Writable
wide_buf-Shows = record {
  above_hold = (one_byte 120 (omega arith), omega arith, tt);
  line_holds = record {
    rest = 0 ∷ 0 ∷ 0 ∷ [];
    bytes_eq = refl;
    len_eq = refl;
    no_nul = buf-Shows.line_holds.no_nul;
  };
  line_fits = omega arith;
  line_writable = refl;
  below_hold = (one_byte 121 (omega arith), omega arith, tt);
  col = refl;
  row = refl;
  total = refl;
}

insert_char-Fits_example :
    (d' : Doc) × (Shows 8 (insert_char 8 102 buf) d'
      × (cursor d' ≡ cursor doc + 1)
      × ((lines d' ≡ onto doc.above ((left_part ++ 102 ∷ 101 ∷ []) ∷ doc.below))
          ⊎ ((a : List ℕ) × (b : List ℕ) × (e : List ℕ) × (a ++ b ≡ left_part ++ 102 ∷ 101 ∷ [])
              × ((e ≡ []) ⊎ (e ≡ b' ' ∷ []))
              × (lines d' ≡ onto doc.above (a ∷ (b ++ e) ∷ doc.below)))))
insert_char-Fits_example =
    insert_char-Fits 8 102 buf doc (omega arith) buf-Shows refl refl (omega arith)

-- A green `ab` and a `c`.
abbrev coloured : List ℕ
coloured = 27 ∷ 91 ∷ 51 ∷ 50 ∷ 109 ∷ 97 ∷ 98 ∷ 27 ∷ 91 ∷ 109 ∷ 99 ∷ 0 ∷ []

abbrev two_bytes : Line
two_bytes = record { bytes = 97 ∷ 98 ∷ 0 ∷ 0 ∷ []; len = 2 }

two_bytes-Holds : Holds two_bytes ((97 ∷ []) ++ 98 ∷ [])
unfolding NoNul
two_bytes-Holds = record {
  rest = 0 ∷ [];
  bytes_eq = refl;
  len_eq = refl;
  no_nul = (omega arith, (omega arith, tt));
}

abbrev spaced : Line
spaced = record { bytes = 97 ∷ 32 ∷ 98 ∷ 0 ∷ 0 ∷ []; len = 3 }

spaced-Holds : Holds spaced ((97 ∷ []) ++ 32 ∷ 98 ∷ [])
unfolding NoNul
spaced-Holds = record {
  rest = 0 ∷ [];
  bytes_eq = refl;
  len_eq = refl;
  no_nul = (omega arith, (omega arith, (omega arith, tt)));
}

split_line-indent_example :
    let r = split_line 8 2 true spaced 1 in
    let k = next_non_space_char (32 ∷ 98 ∷ []) in
    (cstr r.0.bytes ≡ 97 ∷ take k (32 ∷ 98 ∷ []))
    × (r.0.len + k ≡ length (cstr r.0.bytes))
    × (cstr r.1.bytes ≡ replicate 2 b' ' ++ drop k (32 ∷ 98 ∷ []))
    × (r.1.len ≡ length (cstr r.1.bytes) + k)
split_line-indent_example =
    split_line-indent 8 2 spaced (97 ∷ []) (32 ∷ 98 ∷ []) spaced-Holds (omega arith)

-- The lines 5 and 7.
abbrev two_lines : Links
two_lines = record {
  prev = λ i. if i == 7 then some 5 else none;
  next = λ i. if i == 5 then some 7 else none;
  firstline = some 5;
  lastline = some 7;
  totaln = 1;
  deleted_line = none;
}

two_lines-HasLines : HasLines two_lines ((5 ∷ []) ++ 7 ∷ [])
unfolding Absent Distinct Chained head
two_lines-HasLines = record {
  first = refl;
  chained = (refl, refl, (refl, refl, refl));
  distinct = ((omega arith, tt), (tt, tt));
}

fresh : Absent 6 ((5 ∷ []) ++ 7 ∷ [])
unfolding Absent
fresh = (omega arith, (omega arith, tt))

insert_line-HasLines_example : HasLines (insert_line 5 6 two_lines) (5 ∷ 6 ∷ 7 ∷ [])
insert_line-HasLines_example =
    insert_line-HasLines two_lines [] 5 6 (7 ∷ []) two_lines-HasLines fresh

still_one : ◌++◌ {A = ℕ} (5 ∷ []) [] ≢ []
still_one e = cc

delete_line-HasLines_example :
    HasLines (delete_line 7 true two_lines) (5 ∷ [])
    × ((delete_line 7 true two_lines).totaln ≡ 0)
    × ((delete_line 7 true two_lines).deleted_line ≡ some 7)
delete_line-HasLines_example =
    delete_line-HasLines two_lines (5 ∷ []) 7 [] true two_lines-HasLines still_one

buf-Works : Works 8 buf
unfolding Works
buf-Works = ((doc, buf-Shows), refl, refl)

-- A byte that makes the line too long, and a line break.
two_keys : Reach 8 buf (split 8 (insert_char 8 102 buf).currpnt (insert_char 8 102 buf))
two_keys = press (press (start buf) (typed 102 buf (omega arith))) (entered (insert_char 8 102 buf))

Reach-Works_example : Works 8 (split 8 (insert_char 8 102 buf).currpnt (insert_char 8 102 buf))
Reach-Works_example =
    Reach-Works 8 {s = buf} {t = split 8 (insert_char 8 102 buf).currpnt (insert_char 8 102 buf)}
      (omega arith) buf-Works two_keys
