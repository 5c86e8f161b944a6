-- ===== src/Brc/Buffer.antt =====
-- mbbsd/brc.c: the buffer `brc_buf` with the records of all boards, in words of 4 bytes: a record has a
-- word with the number of the board in its lower half and the number of times in the upper one, then the
-- times. All sizes that the file writes are multiples of 4.
use pttoldstable.Base.{
  ℕ, zero, suc, ◌+◌, ◌-◌, ◌*◌, ◌/◌, ◌%◌, Bool, true, false, not, ◌&&◌, Option, none, some, List, [],
  ◌∷◌, ◌++◌, length, get_or, set, take, drop, replicate, leb, ltb, ◌==◌, if◌then◌else◌,
}
use pttoldstable.Base.Bytes.{at, memcpy}
use pttoldstable.Brc.{brc_maxnum, Brc}

-- `BRC_MAXSIZE` and `BRC_BLOCKSIZE`
abbrev pub brc_maxsize : ℕ
brc_maxsize = 6144

abbrev pub brc_blocksize : ℕ
brc_blocksize = 256

-- `brc_alloc` is the length of `buf`.
pub record Rc : Type 0 where
  pub buf : List ℕ
  pub size : ℕ

-- The word of a `brcbid_t` and a `brcnbrd_t`.
unfoldable pub header : ℕ → ℕ → ℕ
header bid num = bid + num * 65536

-- The loop of `brc_findrecord_in` from the word `ptr` on, each round with one word at least.
unfoldable pub find_loop : ℕ → ℕ → ℕ → ℕ → List ℕ → Option ℕ × ℕ
find_loop zero bid endp ptr buf = (none, 0)
find_loop (suc k) bid endp ptr buf =
    let tbid = get_or buf ptr 0 % 65536 in
    let num = get_or buf ptr 0 / 65536 in
    let tmpp : ℕ = ptr + 1 + num in
    let rest = find_loop k bid endp tmpp buf in
    if leb endp (ptr + 1)
    then (none, 0)
    else if ltb endp tmpp
    then (none, endp - ptr)
    else if tbid == bid
    then (some ptr, num)
    else rest

unfoldable pub brc_findrecord_in : ℕ → Rc → Option ℕ × ℕ
unfolding find_loop
brc_findrecord_in bid s = find_loop s.size bid s.size 0 s.buf

-- The times behind the word at `p`.
unfoldable pub times_at : List ℕ → Option ℕ × ℕ → Option (List ℕ)
times_at buf (none, num) = none
times_at buf (some p, num) = some (take num (drop (p + 1) buf))

unfoldable pub brc_find_record : ℕ → Rc → Option (List ℕ)
unfolding times_at brc_findrecord_in
brc_find_record bid s = times_at s.buf (brc_findrecord_in bid s)

-- `brc_read_record`: what it returns, `*num` and the times; `list[0]` is 1 where it finds no record.
unfoldable pub brc_read_record : ℕ → Rc → ℕ × ℕ × List ℕ
unfolding brc_findrecord_in times_at
brc_read_record bid s =
    let r = brc_findrecord_in bid s in
    elim (times_at s.buf r) [ none ↦ (0, 1, 1 ∷ []) | some list ↦ (r.1, r.1, list) ]

-- The buffer after `brc_putrecord(brc_buf + ptr, brc_buf + endp, ...)`; its result is not used.
unfoldable pub brc_putrecord : ℕ → ℕ → ℕ → ℕ → ℕ → List ℕ → List ℕ → List ℕ
unfolding at memcpy header
brc_putrecord expire_time ptr endp bid num list buf =
    let num' : ℕ = if ltb brc_maxnum num then brc_maxnum else num in
    let headed = at ptr (memcpy (header bid num' ∷ [])) buf in
    if not (ltb 0 num && ltb expire_time (get_or list 0 0) && ltb (ptr + 1) endp)
    then buf
    else if num' == 0
    then buf
    else if leb (ptr + 1 + num') endp
    then at (ptr + 1) (memcpy (take num' list)) headed
    else headed

-- The contents of new memory are taken as 0.
unfoldable pub brc_enlarge_buf : Rc → Bool × Rc
brc_enlarge_buf s =
    if leb brc_maxsize (length s.buf)
    then (false, s)
    else (true, record s { buf = s.buf ++ replicate brc_blocksize 0 })

unfoldable pub brc_get_buf : ℕ → List ℕ
brc_get_buf size =
    let alloc : ℕ =
      if size == 0
      then brc_blocksize
      else (size + brc_blocksize - 1) / brc_blocksize * brc_blocksize in
    replicate (if ltb brc_maxsize alloc then brc_maxsize else alloc) 0

-- `while (num > 0 && list[num - 1] < brc_expire_time) num--;`
unfoldable pub trim : ℕ → ℕ → List ℕ → ℕ
trim expire_time zero list = 0
trim expire_time (suc num) list =
    let rest = trim expire_time num list in
    if ltb (get_or list num 0) expire_time then rest else suc num

unfoldable pub memmove : ℕ → ℕ → ℕ → List ℕ → List ℕ
unfolding at memcpy
memmove to from n buf = at to (memcpy (take n (drop from buf))) buf

-- The new `brc_size`, with a block more where it does not fit, or the limit where there is none.
unfoldable pub resize : ℕ → Rc → Rc
resize size s =
    let grown = brc_enlarge_buf s in
    if leb size (length s.buf)
    then record s { size = size }
    else if grown.0
    then record (grown.1) { size = size }
    else record s { size = brc_maxsize }

-- `brc_size` is set: the other records move behind the new one, which is written to the start.
unfoldable pub insert_first : ℕ → ℕ → ℕ → List ℕ → Rc → Rc
unfolding memmove brc_putrecord
insert_first expire_time bid num list t =
    let new_size : ℕ = num + 1 in
    let moved =
      if ltb new_size t.size then memmove new_size 0 (t.size - new_size) t.buf else t.buf in
    record t { buf = brc_putrecord expire_time 0 new_size bid num list moved }

-- `brc_insert_record` where the board has no record; `tnum` words dangle at the end.
unfoldable pub insert_new : ℕ → ℕ → ℕ → ℕ → List ℕ → Rc → Rc
insert_new expire_time tnum bid num list s =
    if num == 0
    then record s { size = s.size - tnum }
    else insert_first expire_time bid num list (resize (s.size - tnum + (num + 1)) s)

-- `brc_size` is set: the `end_size` words from `tmpp` on move behind the new record at `ptr`.
unfoldable pub write_over : ℕ → ℕ → ℕ → ℕ → ℕ → ℕ → List ℕ → Rc → Rc
unfolding memmove brc_putrecord
write_over expire_time ptr tmpp end_size bid num list t =
    let moved =
      if ltb 0 end_size && not (ptr + (num + 1) == tmpp)
      then memmove (ptr + (num + 1)) tmpp end_size t.buf
      else t.buf in
    record t { buf = brc_putrecord expire_time ptr (length t.buf) bid num list moved }

-- `brc_insert_record` where the record of the board is at `ptr` with `tnum` times.
unfoldable pub insert_over : ℕ → ℕ → ℕ → ℕ → ℕ → List ℕ → Rc → Rc
unfolding memmove
insert_over expire_time ptr tnum bid num list s =
    let len : ℕ = tnum + 1 in
    let tmpp : ℕ = ptr + len in
    let end_size : ℕ = s.size - tmpp in
    let size : ℕ = s.size + (num + 1) - len in
    let full : Bool = ltb (length s.buf) size && not (brc_enlarge_buf s).0 in
    let end_size' : ℕ = if full then end_size + brc_maxsize - size else end_size in
    if num == 0
    then record { buf = memmove ptr tmpp end_size s.buf; size = s.size - len }
    else write_over expire_time ptr tmpp end_size' bid num list (resize size s)

unfoldable pub insert_found : ℕ → Option ℕ × ℕ → ℕ → ℕ → List ℕ → Rc → Rc
insert_found expire_time (none, tnum) bid num list s = insert_new expire_time tnum bid num list s
insert_found expire_time (some ptr, tnum) bid num list s =
    insert_over expire_time ptr tnum bid num list s

-- `brc_insert_record` on the buffer alone.
unfoldable pub brc_insert_record : ℕ → ℕ → ℕ → List ℕ → Rc → Rc
brc_insert_record expire_time bid num list s =
    insert_found expire_time (brc_findrecord_in bid s) bid (trim expire_time num list) list s

-- `brc_insert_record` with the flag: `brc_changed = 0` is its last statement, for any board.
unfoldable pub insert_record : ℕ → ℕ → List ℕ → Brc × Rc → Brc × Rc
insert_record bid num list (s, rc) =
    (record s { changed = false }, brc_insert_record s.expire_time bid num list rc)

-- `currbid` is the number of the current board.
unfoldable pub brc_update : ℕ → Brc × Rc → Brc × Rc
unfolding insert_record
brc_update currbid (s, rc) =
    if s.changed && not (s.userlevel == 0) && ltb 0 s.num
    then insert_record currbid s.num s.list (s, rc)
    else (s, rc)

unfoldable pub brc_trunc : ℕ → ℕ → ℕ → Brc × Rc → Brc × Rc
unfolding insert_record
brc_trunc currbid bid ftime (s, rc) =
    let (s', rc') = insert_record bid 1 (ftime ∷ []) (s, rc) in
    if bid == currbid
    then (record s' { num = 1; list = set s'.list 0 ftime; changed = false }, rc')
    else (s', rc')
