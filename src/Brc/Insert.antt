-- ===== src/Brc/Insert.antt =====
-- mbbsd/brc.c: `brc_insert_record` puts the record of a board that has none before the others.
use pttoldstable.Base.{
  ℕ, zero, suc, ◌+◌, ◌-◌, ◌≤◌, ◌<◌, ◌≡◌, refl, sym, ap, ap₂, ◌∙◌, true, false, none, ◌⊎◌, List, [],
  ◌∷◌, ◌++◌, arith, length, length-append, length-take, length-drop, length-replicate, get_or, take,
  drop, replicate, leb, ltb, ◌==◌, if◌then◌else◌, take-append-drop, Bool-cases, inl, inr, lt→ltb,
  leb→le,
}
use mathlib.Core.List.{append_assoc}
use pttoldstable.Base.Bytes.{at, memcpy, at-append, memcpy_lem}
use pttoldstable.Record.Copy.{drop-length-append}
use pttoldstable.Brc.{brc_maxnum}
use pttoldstable.Brc.Buffer.{
  Rc, header, brc_maxsize, brc_putrecord, brc_enlarge_buf, trim, memmove, insert_first, insert_new,
  resize, brc_blocksize, brc_insert_record, insert_found,
}
use pttoldstable.Brc.Records.{
  Rec, Fits, encode, lookup, Encodes, found-none, brc_findrecord_in_lem, take-left,
}

-- The times that are written: as many as fit, the first one newer than the limit.
pub record Writes (expire_time bid num : ℕ) (list : List ℕ) : Type 0 where
  pub some_times : 0 < num
  pub few : num ≤ brc_maxnum
  pub enough : num ≤ length list
  pub newer : expire_time < get_or list 0 0

pub putrecord_lem :
    (expire_time endp bid num : ℕ) (list p m : List ℕ)
    → Writes expire_time bid num list
    → length p + num + 1 ≤ endp
    → num + 1 ≤ length m
    → brc_putrecord expire_time (length p) endp bid num list (p ++ m)
      ≡ p ++ header bid num ∷ (take num list ++ drop (num + 1) m)
unfolding brc_putrecord memcpy
putrecord_lem expire_time endp bid num list p [] w le room = absurd (omega arith)
putrecord_lem expire_time endp bid num list p (x ∷ m) w le room =
    let t0 : ltb brc_maxnum num ≡ false = ground (arith, w.few) in
    let t1 : ltb 0 num ≡ true = lt→ltb 0 num w.some_times in
    let t2 : ltb expire_time (get_or list 0 0) ≡ true = lt→ltb _ _ w.newer in
    let t3 : ltb (length p + 1) endp ≡ true = lt→ltb _ _ (omega (arith, w.some_times)) in
    let t4 : (num == 0) ≡ false = ground (arith, w.some_times) in
    let t5 : leb (length p + 1 + num) endp ≡ true = ground (arith, le) in
    let size : length (take num list) ≡ num = omega (arith, length-take num list, w.enough) in
    let one_more : suc num ≡ num + 1 = omega arith in
    let headed : at (length p) (memcpy (header bid num ∷ [])) (p ++ x ∷ m)
        ≡ (p ++ header bid num ∷ []) ++ m =
      at-append p (x ∷ m) (memcpy (header bid num ∷ []))
      ∙ sym (append_assoc p (header bid num ∷ []) m) in
    let len : length p + 1 ≡ length (p ++ header bid num ∷ []) =
      sym (length-append p (header bid num ∷ [])) in
    let written : at (length p + 1) (memcpy (take num list)) ((p ++ header bid num ∷ []) ++ m)
        ≡ p ++ header bid num ∷ (take num list ++ drop (num + 1) (x ∷ m)) =
      ap (λ k. at k (memcpy (take num list)) ((p ++ header bid num ∷ []) ++ m)) len
      ∙ at-append (p ++ header bid num ∷ []) m (memcpy (take num list))
      ∙ ap (λ d. (p ++ header bid num ∷ []) ++ d) (memcpy_lem (take num list) m (omega arith))
      ∙ ap (λ k. (p ++ header bid num ∷ []) ++ (take num list ++ drop k m)) size
      ∙ append_assoc p (header bid num ∷ []) (take num list ++ drop num m)
      ∙ ap (λ k. p ++ header bid num ∷ (take num list ++ drop k (x ∷ m))) one_more in
    rw (t0, t1, t2, t3, t4, t5, headed) written

pub at-memcpy :
    (n : ℕ) (w b : List ℕ)
    → n + length w ≤ length b
    → at n (memcpy w) b ≡ take n b ++ (w ++ drop (length w) (drop n b))
at-memcpy n w b room =
    let size : length (take n b) ≡ n = omega (arith, length-take n b) in
    ap₂ (λ k d. at k (memcpy w) d) (sym size) (sym (take-append-drop n b))
    ∙ at-append (take n b) (drop n b) (memcpy w)
    ∙ ap (λ d. take n b ++ d) (memcpy_lem w (drop n b) (omega (arith, length-drop n b)))

-- The words of the other records after `memmove`, or at the start where there are none.
moved :
    (new_size : ℕ) (old rest : List ℕ)
    → new_size + length old ≤ length (old ++ rest)
    → (b : List ℕ) × ((if ltb new_size (length old + new_size)
          then memmove new_size 0 (length old) (old ++ rest)
          else old ++ rest)
        ≡ b)
      × ((r : List ℕ) × (drop new_size b ≡ old ++ r))
      × (new_size ≤ length b)
unfolding memmove
moved new_size [] rest room =
    let t : ltb new_size (0 + new_size) ≡ false = ground arith in
    (rest, rw t refl, (drop new_size rest, refl), omega arith)
moved new_size (x ∷ o) rest room =
    let old : List ℕ = x ∷ o in
    let b : List ℕ = old ++ rest in
    let t : ltb new_size (suc (length o) + new_size) ≡ true = ground arith in
    let front : List ℕ = take new_size b in
    let tail : List ℕ = old ++ drop (length old) (drop new_size b) in
    let front_size : length front ≡ new_size = omega (arith, length-take new_size b) in
    let e : at new_size (memcpy (take (length old) b)) b ≡ front ++ tail =
      ap (λ w. at new_size (memcpy w) b) (take-left old rest) ∙ at-memcpy new_size old b room in
    (
      front ++ tail,
      rw t e,
      (drop (length old) (drop new_size b), drop-length-append new_size front tail front_size),
      omega (arith, length-append front tail),
    )

-- The buffer with a new first record.
written_first :
    (expire_time bid n : ℕ) (list : List ℕ) (rs : List Rec) (rest : List ℕ) (size : ℕ)
    → Writes expire_time bid n list
    → size ≡ length (encode rs) + (n + 1)
    → size ≤ length (encode rs ++ rest)
    → (r : List ℕ) × (brc_putrecord expire_time 0 (n + 1) bid n list (
          if ltb (n + 1) size
          then memmove (n + 1) 0 (size - (n + 1)) (encode rs ++ rest)
          else encode rs ++ rest)
        ≡ encode (record { bid = bid; times = take n list } ∷ rs) ++ r)
unfolding encode
written_first expire_time bid n list rs rest size w e room =
    let (b, to_b, (r, tail), big) = moved (n + 1) (encode rs) rest (omega arith) in
    let k : size - (n + 1) ≡ length (encode rs) = omega arith in
    let times_size : length (take n list) ≡ n = omega (arith, length-take n list, w.enough) in
    (
      r,
      rw (k, e, to_b)
          (putrecord_lem expire_time (n + 1) bid n list [] b w (omega arith) big
            ∙ rw (tail, times_size)
                (ap (λ d. header bid n ∷ d) (sym (append_assoc (take n list) (encode rs) r)))),
    )

insert_first-Encodes :
    (expire_time bid n : ℕ) (list : List ℕ) (rs : List Rec) (rest : List ℕ) (t : Rc)
    → Fits rs
    → bid < 65536
    → Writes expire_time bid n list
    → t.buf ≡ encode rs ++ rest
    → t.size ≡ length (encode rs) + (n + 1)
    → t.size ≤ length t.buf
    → Encodes
        (insert_first expire_time bid n list t)
        (record { bid = bid; times = take n list } ∷ rs)
unfolding insert_first Fits encode
insert_first-Encodes expire_time bid n list rs rest t fits lt w e size room =
    let times_size : length (take n list) ≡ n = omega (arith, length-take n list, w.enough) in
    let (r, made) =
      written_first expire_time bid n list rs rest t.size w size (omega (arith, ap length e)) in
    record {
      rest = r;
      buf_eq =
          ap
            (λ b.
              brc_putrecord expire_time 0 (n + 1) bid n list
                (if ltb (n + 1) t.size then memmove (n + 1) 0 (t.size - (n + 1)) b else b))
            e
          ∙ made;
      size_eq = omega (arith, length-append (take n list) (encode rs));
      fits = (lt, omega (arith, w.some_times), fits);
    }

insert_new-Encodes :
    (expire_time bid n : ℕ) (list : List ℕ) (s : Rc) (rs : List Rec)
    → Encodes s rs
    → bid < 65536
    → Writes expire_time bid n list
    → (s.size + (n + 1) ≤ length s.buf) ⊎ (length s.buf < brc_maxsize)
    → Encodes
        (insert_new expire_time 0 bid n list s)
        (record { bid = bid; times = take n list } ∷ rs)
unfolding insert_new resize brc_enlarge_buf
insert_new-Encodes expire_time bid n list s rs h lt w room =
    let size : ℕ = s.size - 0 + (n + 1) in
    let some_times : (n == 0) ≡ false = ground (arith, w.some_times) in
    let used : length s.buf ≡ s.size + length h.rest =
      ap length h.buf_eq ∙ length-append (encode rs) h.rest ∙ omega (arith, h.size_eq) in
    elim (Bool-cases (leb size (length s.buf))) [
      | inl within ↦
          rw (some_times, within)
            (insert_first-Encodes expire_time bid n list rs h.rest (record s { size = size }) h.fits
              lt w h.buf_eq (omega (arith, h.size_eq)) (leb→le _ _ within))
      | inr over ↦
          let low : length s.buf < brc_maxsize = elim room [
            | inl fits ↦ absurd (ground (arith, over))
            | inr low ↦ low
          ] in
          let grows : leb brc_maxsize (length s.buf) ≡ false = ground (arith, low) in
          let zeros : List ℕ = replicate brc_blocksize 0 in
          rw (some_times, over, grows)
            (insert_first-Encodes expire_time bid n list rs (h.rest ++ zeros)
              (record { buf = s.buf ++ zeros; size = size }) h.fits lt w
              (ap (λ b. b ++ zeros) h.buf_eq ∙ append_assoc (encode rs) h.rest zeros)
              (omega (arith, h.size_eq))
              (omega
                (arith, w.few, length-append s.buf zeros, length-replicate brc_blocksize zero)))
    ]

-- The first `num` times are written: the board has no record, its number fits, and the buffer has room or
-- can grow.
pub brc_insert_record-Encodes :
    (expire_time bid num : ℕ) (list : List ℕ) (s : Rc) (rs : List Rec)
    → Encodes s rs
    → lookup bid rs ≡ none
    → bid < 65536
    → Writes expire_time bid (trim expire_time num list) list
    → (s.size + (trim expire_time num list + 1) ≤ length s.buf) ⊎ (length s.buf < brc_maxsize)
    → Encodes
        (brc_insert_record expire_time bid num list s)
        (record { bid = bid; times = take (trim expire_time num list) list } ∷ rs)
unfolding brc_insert_record insert_found
brc_insert_record-Encodes expire_time bid num list s rs h absent lt w room =
    rw (brc_findrecord_in_lem bid s rs h ∙ found-none bid 0 rs absent)
      (insert_new-Encodes expire_time bid (trim expire_time num list) list s rs h lt w room)
