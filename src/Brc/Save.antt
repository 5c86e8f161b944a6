-- ===== src/Brc/Save.antt =====
-- mbbsd/brc.c: the list of the current board and the buffer of all boards.
use pttoldstable.Base.{
  inl, inr, ℕ, ◌+◌, ◌-◌, ◌≤◌, ◌<◌, ◌≡◌, ◌≢◌, refl, true, false, some, ◌⊎◌, List, [], ◌∷◌, ==_iff,
  arith, length, get_or, take, ltb, ◌==◌, if◌then◌else◌,
}
use pttoldstable.Brc.{Brc}
use pttoldstable.Brc.Buffer.{Rc, brc_maxsize, brc_find_record, insert_record, brc_update, brc_trunc}
use pttoldstable.Brc.Records.{Rec, Encodes}
use pttoldstable.Brc.Insert.{Writes}
use pttoldstable.Brc.Update.{find_record-insert_record}

-- Where the list of the current board has changed, is not empty, and has at most 80 times, the first newer
-- than the limit and the last not older, the user is not a guest, and the buffer of whole records has room
-- or can grow: after `brc_update` the buffer has this list for the current board and the old times for the
-- others.
pub find_record-update :
    (currbid b : ℕ) (s : Brc) (rc : Rc) (rs : List Rec)
    → Encodes rc rs
    → currbid < 65536
    → s.changed ≡ true
    → 0 < s.userlevel
    → Writes s.expire_time currbid s.num s.list
    → s.expire_time ≤ get_or s.list (s.num - 1) 0
    → (rc.size + (s.num + 1) ≤ length rc.buf) ⊎ (length rc.buf < brc_maxsize)
    → brc_find_record b (brc_update currbid (s, rc)).1
      ≡ (if currbid == b then some (take s.num s.list) else brc_find_record b rc)
unfolding brc_update
find_record-update currbid b s rc rs h lt ch user w newest room =
    let t1 : (s.userlevel == 0) ≡ false = ground (arith, user) in
    let t2 : ltb 0 s.num ≡ true = ground (arith, w.some_times) in
    rw (ch, t1, t2, insert_record)
      (find_record-insert_record s.expire_time currbid s.num s.num b s.list rc rs h lt (omega arith)
        newest (λ j l u. absurd (omega arith)) w room)

-- Where the list of the current board has changed, is not empty, and has at most 80 times, the first newer
-- than the limit and the last not older, the user is not a guest, the buffer of whole records has room
-- for it or can grow, the numbers of the current board and of another one fit their fields, and a time for
-- the other one is newer than the limit: `brc_update` alone saves the list of the current board, but
-- after `brc_trunc` of the other board it does not. The buffer then has the one time for the other board,
-- and the old times for the current board and the rest.
pub update-trunc :
    (currbid bid ftime b : ℕ) (s : Brc) (rc : Rc) (rs : List Rec)
    → Encodes rc rs
    → currbid < 65536
    → bid < 65536
    → bid ≢ currbid
    → s.expire_time < ftime
    → s.changed ≡ true
    → 0 < s.userlevel
    → Writes s.expire_time currbid s.num s.list
    → s.expire_time ≤ get_or s.list (s.num - 1) 0
    → (rc.size + (s.num + 1) ≤ length rc.buf) ⊎ (length rc.buf < brc_maxsize)
    → (brc_find_record currbid (brc_update currbid (s, rc)).1 ≡ some (take s.num s.list))
      × (brc_find_record b (brc_update currbid (brc_trunc currbid bid ftime (s, rc))).1
          ≡ (if bid == b then some (ftime ∷ []) else brc_find_record b rc))
unfolding brc_update brc_trunc insert_record
update-trunc currbid bid ftime b s rc rs h lt lt' ne fresh ch user w newest room =
    let other : (bid == currbid) ≡ false = ground (arith, ne) in
    let own : (currbid == currbid) ≡ true = (==_iff currbid currbid).1 refl in
    let one : Writes s.expire_time bid 1 (ftime ∷ []) = record {
      some_times = omega arith;
      few = omega arith;
      enough = omega arith;
      newer = fresh;
    } in
    let enough : (rc.size + (1 + 1) ≤ length rc.buf) ⊎ (length rc.buf < brc_maxsize) = elim room [
      | inl le ↦ inl (omega (arith, w.some_times))
      | inr low ↦ inr low
    ] in
    (
      rw own at (find_record-update currbid currbid s rc rs h lt ch user w newest room),
      rw other (
          find_record-insert_record s.expire_time bid 1 1 b (ftime ∷ []) rc rs h lt' (omega arith)
            (omega arith) (λ j l u. absurd (omega arith)) one enough),
    )
