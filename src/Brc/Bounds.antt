-- ===== src/Brc/Bounds.antt =====
-- mbbsd/brc.c: the size of the buffer.
use pttoldstable.Base.{
  ℕ, zero, suc, ◌+◌, ◌-◌, ◌%◌, ◌≤◌, ◌<◌, ◌≡◌, refl, ap, ◌∙◌, true, false, not, ◌&&◌, Option, none,
  some, List, [], ◌∷◌, arith, length, length-append, length-replicate, take, drop, replicate, leb,
  ltb, ◌==◌, if◌then◌else◌, leb→le, Bool-cases, inl, inr,
}
use pttoldstable.Base.Bytes.{at, memcpy}
use pttoldstable.Brc.{brc_maxnum}
use pttoldstable.Brc.Buffer.{
  Rc, header, brc_maxsize, brc_blocksize, brc_putrecord, brc_enlarge_buf, trim, memmove,
  insert_first, insert_new, insert_over, insert_found, write_over, resize, brc_insert_record,
  brc_findrecord_in,
}

-- The used part is in the memory, which is made of whole blocks and not over the limit.
pub record Bounded (s : Rc) : Type 0 where
  pub used : s.size ≤ length s.buf
  pub limit : length s.buf ≤ brc_maxsize
  pub blocks : length s.buf % brc_blocksize ≡ 0

length-at-memcpy : (n : ℕ) (w b : List ℕ) → length (at n (memcpy w) b) ≡ length b
unfolding at memcpy
length-at-memcpy zero [] b = refl
length-at-memcpy zero (x ∷ w) [] = refl
length-at-memcpy zero (x ∷ w) (y ∷ b) = ap suc (length-at-memcpy zero w b)
length-at-memcpy (suc n) w [] = refl
length-at-memcpy (suc n) w (y ∷ b) = ap suc (length-at-memcpy n w b)

length-memmove : (to from n : ℕ) (b : List ℕ) → length (memmove to from n b) ≡ length b
unfolding memmove
length-memmove to from n b = length-at-memcpy to (take n (drop from b)) b

length-putrecord :
    (expire_time ptr endp bid num : ℕ) (list buf : List ℕ)
    → length (brc_putrecord expire_time ptr endp bid num list buf) ≡ length buf
unfolding brc_putrecord
length-putrecord expire_time ptr endp bid num list buf =
    let num' : ℕ = if ltb brc_maxnum num then brc_maxnum else num in
    let headed : List ℕ = at ptr (memcpy (header bid num' ∷ [])) buf in
    ground (
      arith,
      length-at-memcpy ptr (header bid num' ∷ []) buf,
      length-at-memcpy (ptr + 1) (take num' list) headed,
    )

trim-le : (expire_time num : ℕ) (list : List ℕ) → trim expire_time num list ≤ num
unfolding trim
trim-le expire_time zero list = omega arith
trim-le expire_time (suc num) list = ground (arith, trim-le expire_time num list)

room : (n : ℕ) → n < 6144 → n % 256 ≡ 0 → n + 256 ≤ 6144
room n lt e = omega arith

-- The new memory has one block more.
enlarge-Bounded :
    (s : Rc)
    → Bounded s
    → ((brc_enlarge_buf s).0 ≡ true)
    → (length (brc_enlarge_buf s).1.buf ≡ length s.buf + 256) × (length s.buf + 256 ≤ brc_maxsize)
unfolding brc_enlarge_buf
enlarge-Bounded s h e = elim (Bool-cases (leb brc_maxsize (length s.buf))) [
  | inl full ↦ ground (arith, e, full)
  | inr low ↦ rw low (
    length-append s.buf (replicate brc_blocksize 0)
        ∙ ap (λ n. length s.buf + n) (length-replicate {A = ℕ} brc_blocksize 0),
    room (length s.buf) (ground (arith, low)) h.blocks,
  )
]

enlarge-full : (s : Rc) → (brc_enlarge_buf s).0 ≡ false → brc_maxsize ≤ length s.buf
unfolding brc_enlarge_buf
enlarge-full s e = ground (arith, e)

insert_first-Bounded :
    (expire_time bid num : ℕ) (list : List ℕ) (t : Rc)
    → Bounded t
    → Bounded (insert_first expire_time bid num list t)
unfolding insert_first
insert_first-Bounded expire_time bid num list t h =
    let moved : List ℕ =
      if ltb (num + 1) t.size then memmove (num + 1) 0 (t.size - (num + 1)) t.buf else t.buf in
    let same : length moved ≡ length t.buf =
      ground (arith, length-memmove (num + 1) 0 (t.size - (num + 1)) t.buf) in
    let e = length-putrecord expire_time 0 (num + 1) bid num list moved ∙ same in
    record {
      used = omega (arith, e, h.used);
      limit = omega (arith, e, h.limit);
      blocks = rw e h.blocks;
    }

write_over-Bounded :
    (expire_time ptr tmpp end_size bid num : ℕ) (list : List ℕ) (t : Rc)
    → Bounded t
    → Bounded (write_over expire_time ptr tmpp end_size bid num list t)
unfolding write_over
write_over-Bounded expire_time ptr tmpp end_size bid num list t h =
    let moved : List ℕ =
      if ltb 0 end_size && not (ptr + (num + 1) == tmpp)
      then memmove (ptr + (num + 1)) tmpp end_size t.buf
      else t.buf in
    let same : length moved ≡ length t.buf =
      ground (arith, length-memmove (ptr + (num + 1)) tmpp end_size t.buf) in
    let e = length-putrecord expire_time ptr (length t.buf) bid num list moved ∙ same in
    record {
      used = omega (arith, e, h.used);
      limit = omega (arith, e, h.limit);
      blocks = rw e h.blocks;
    }

resize-Bounded :
    (size : ℕ) (s : Rc) → Bounded s → size ≤ length s.buf + 256 → Bounded (resize size s)
unfolding resize
resize-Bounded size s h le = elim (Bool-cases (leb size (length s.buf))) [
  | inl within ↦ rw within (record { used = leb→le _ _ within; limit = h.limit; blocks = h.blocks })
  | inr over ↦ elim (Bool-cases ((brc_enlarge_buf s).0)) [
    | inl grown ↦
        let (size_eq, limit) = enlarge-Bounded s h grown in
        rw (over, grown)
          (record {
            used = omega (arith, size_eq);
            limit = omega (arith, size_eq);
            blocks = rw size_eq (omega (arith, h.blocks));
          })
    | inr not_grown ↦
        rw (over, not_grown)
          (record { used = enlarge-full s not_grown; limit = h.limit; blocks = h.blocks })
  ]
]

insert_new-Bounded :
    (expire_time tnum bid num : ℕ) (list : List ℕ) (s : Rc)
    → Bounded s
    → num ≤ brc_maxnum
    → Bounded (insert_new expire_time tnum bid num list s)
unfolding insert_new
insert_new-Bounded expire_time tnum bid num list s h few = elim (Bool-cases (num == 0)) [
  | inl none_left ↦
      rw none_left (record { used = omega (arith, h.used); limit = h.limit; blocks = h.blocks })
  | inr some_left ↦ rw some_left (
      insert_first-Bounded expire_time bid num list _
        (resize-Bounded (s.size - tnum + (num + 1)) s h (omega (arith, h.used))))
]

insert_over-Bounded :
    (expire_time ptr tnum bid num : ℕ) (list : List ℕ) (s : Rc)
    → Bounded s
    → num ≤ brc_maxnum
    → Bounded (insert_over expire_time ptr tnum bid num list s)
unfolding insert_over
insert_over-Bounded expire_time ptr tnum bid num list s h few =
    let size : ℕ = s.size + (num + 1) - (tnum + 1) in
    elim (Bool-cases (num == 0)) [
      | inl none_left ↦
          let e = length-memmove ptr (ptr + (tnum + 1)) (s.size - (ptr + (tnum + 1))) s.buf in
          rw none_left (record {
            used = omega (arith, e, h.used);
            limit = omega (arith, e, h.limit);
            blocks = rw e h.blocks;
          })
      | inr some_left ↦ rw some_left (
          write_over-Bounded expire_time ptr (ptr + (tnum + 1)) _ bid num list (resize size s)
            (resize-Bounded size s h (omega (arith, h.used))))
    ]

insert_found-Bounded :
    (expire_time : ℕ) (r : Option ℕ × ℕ) (bid num : ℕ) (list : List ℕ) (s : Rc)
    → Bounded s
    → num ≤ brc_maxnum
    → Bounded (insert_found expire_time r bid num list s)
unfolding insert_found
insert_found-Bounded expire_time (none, tnum) bid num list s h few =
    insert_new-Bounded expire_time tnum bid num list s h few
insert_found-Bounded expire_time (some ptr, tnum) bid num list s h few =
    insert_over-Bounded expire_time ptr tnum bid num list s h few

-- `brc_insert_record` of at most 80 times keeps `brc_size` within the memory, and the memory in whole blocks
-- within BRC_MAXSIZE, whatever the buffer holds.
pub brc_insert_record-Bounded :
    (expire_time bid num : ℕ) (list : List ℕ) (s : Rc)
    → Bounded s
    → num ≤ brc_maxnum
    → Bounded (brc_insert_record expire_time bid num list s)
unfolding brc_insert_record
brc_insert_record-Bounded expire_time bid num list s h few =
    insert_found-Bounded expire_time (brc_findrecord_in bid s) bid (trim expire_time num list) list
      s h (omega (arith, trim-le expire_time num list))
