-- ===== src/Examples/Buffer.antt =====
-- mbbsd/brc.c: a buffer with the record of one board.
use pttoldstable.Base.{
  ℕ, ◌≤◌, ◌<◌, get_or, ◌≡◌, refl, true, inl, some, List, [], ◌∷◌, arith, replicate,
}
use pttoldstable.Brc.Buffer.{Rc, header, brc_find_record, brc_insert_record, brc_update, brc_trunc}
use pttoldstable.Brc.{Brc}
use pttoldstable.Brc.Save.{update-trunc}
use pttoldstable.Brc.Records.{Rec, Fits, encode, Encodes}
use pttoldstable.Brc.Insert.{Writes}
use pttoldstable.Brc.Update.{find_record-insert_record}
use pttoldstable.Brc.Bounds.{Bounded, brc_insert_record-Bounded}

-- The board 7 has the times 50 and 40.
abbrev records : List Rec
records = record { bid = 7; times = 50 ∷ 40 ∷ [] } ∷ []

abbrev one_board : Rc
one_board = record { buf = 131079 ∷ 50 ∷ 40 ∷ replicate 253 0; size = 3 }

one_board-Encodes : Encodes one_board records
unfolding encode header Fits
one_board-Encodes = record {
  rest = replicate 253 0;
  buf_eq = refl;
  size_eq = refl;
  fits = (omega arith, omega arith, tt);
}

-- The time 5 is older than the limit 10.
new_times : Writes 10 7 1 (60 ∷ 5 ∷ [])
new_times = record {
  some_times = omega arith;
  few = omega arith;
  enough = omega arith;
  newer = omega arith;
}

old_time : (j : ℕ) → 1 ≤ j → j < 2 → get_or (60 ∷ 5 ∷ []) j 0 < 10
old_time j l u = let e : j ≡ 1 = omega arith in rw e (omega arith)

find_record-insert_record_example :
    brc_find_record 7 (brc_insert_record 10 7 2 (60 ∷ 5 ∷ []) one_board) ≡ some (60 ∷ [])
find_record-insert_record_example =
    find_record-insert_record 10 7 2 1 7 (60 ∷ 5 ∷ []) one_board records one_board-Encodes
      (omega arith) (omega arith) (omega arith) old_time new_times (inl (omega arith))

one_board-Bounded : Bounded one_board
one_board-Bounded = record { used = omega arith; limit = omega arith; blocks = refl }

brc_insert_record-Bounded_example : Bounded (brc_insert_record 10 9 2 (60 ∷ 5 ∷ []) one_board)
brc_insert_record-Bounded_example =
    brc_insert_record-Bounded 10 9 2 (60 ∷ 5 ∷ []) one_board one_board-Bounded (omega arith)

-- The current board 7 with a time more.
abbrev current : Brc
current = record {
  userlevel = 1;
  expire_time = 10;
  changed = true;
  num = 2;
  list = 60 ∷ 50 ∷ replicate 78 0;
}

current-Writes : Writes 10 7 2 (60 ∷ 50 ∷ replicate 78 0)
current-Writes = record {
  some_times = omega arith;
  few = omega arith;
  enough = omega arith;
  newer = omega arith;
}

update-trunc_example :
    (brc_find_record 7 (brc_update 7 (current, one_board)).1 ≡ some (60 ∷ 50 ∷ []))
    × (brc_find_record 7 (brc_update 7 (brc_trunc 7 9 100 (current, one_board))).1
        ≡ brc_find_record 7 one_board)
update-trunc_example =
    update-trunc 7 9 100 7 current one_board records one_board-Encodes (omega arith) (omega arith)
      (omega arith) (omega arith) refl (omega arith) current-Writes (omega arith)
      (inl (omega arith))
