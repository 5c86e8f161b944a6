-- ===== src/Brc/Replace.antt =====
-- mbbsd/brc.c: `brc_insert_record` puts the record of a board in the place of the old one.
use pttoldstable.Base.{
  ℕ, zero, suc, ◌+◌, ◌-◌, ◌≤◌, ◌<◌, ◌≡◌, refl, sym, ap, ◌∙◌, true, false, not, ◌&&◌, none, some,
  ◌⊎◌, List, [], ◌∷◌, ◌++◌, arith, length, length-append, length-take, length-replicate, take, drop,
  replicate, leb, ltb, ◌==◌, if◌then◌else◌, Bool-cases, inl, inr, leb→le, ==_iff,
}
use mathlib.Core.List.{append_assoc}
use pttoldstable.Base.Bytes.{at, memcpy}
use pttoldstable.Base.Take.{take-add-append}
use pttoldstable.Record.Copy.{drop-length-append, drop-add}
use pttoldstable.Brc.Buffer.{
  Rc, header, brc_maxsize, brc_blocksize, brc_putrecord, brc_enlarge_buf, memmove, write_over,
  insert_over, resize,
}
use pttoldstable.Brc.Records.{Rec, Fits, encode, lookup, Encodes, found, take-left}
use pttoldstable.Brc.Insert.{Writes, putrecord_lem, at-memcpy}

-- The buffer after the move of the words `after` to the place behind a record of `size` words that
-- follows `before`.
moved_behind :
    (size : ℕ) (before old after rest : List ℕ)
    → length before + size + length after ≤ length (before ++ (old ++ (after ++ rest)))
    → let buf = before ++ (old ++ (after ++ rest)) in
      (m : List ℕ) × ((if ltb 0 (length after)
            && not (length before + size == length before + length old)
          then memmove (length before + size) (length before + length old) (length after) buf
          else buf)
        ≡ before ++ m)
      × ((r : List ℕ) × (drop size m ≡ after ++ r))
      × (size ≤ length m)
unfolding memmove
moved_behind size before old [] rest room = (
  old ++ rest,
  refl,
  (drop size (old ++ rest), refl),
  omega (arith, length-append before (old ++ rest)),
)
moved_behind size before old (x ∷ a) rest room =
    let after : List ℕ = x ∷ a in
    let tail : List ℕ = old ++ (after ++ rest) in
    let buf : List ℕ = before ++ tail in
    let whole = length-append before tail in
    let full : ltb 0 (suc (length a)) ≡ true = ground arith in
    elim (Bool-cases (length before + size == length before + length old)) [
      | inl same ↦
          let e : length old ≡ size = omega (arith, (==_iff _ _).0 same) in
          (
            tail,
            rw (full, same) refl,
            (rest, drop-length-append size old (after ++ rest) e),
            omega arith,
          )
      | inr other ↦
          let front : List ℕ = take size tail in
          let front_size : length front ≡ size = omega (arith, length-take size tail) in
          let end_ : List ℕ = drop (length after) (drop (length before + size) buf) in
          let read : take (length after) (drop (length before + length old) buf) ≡ after =
            ap (take (length after)) (
              drop-add (length before) (length old) buf
              ∙ ap (drop (length old)) (drop-length-append (length before) before tail refl)
              ∙ drop-length-append (length old) old (after ++ rest) refl)
            ∙ take-left after rest in
          let e : at (length before + size)
                (memcpy (take (length after) (drop (length before + length old) buf))) buf
              ≡ before ++ (front ++ (after ++ end_)) =
            ap (λ w. at (length before + size) (memcpy w) buf) read
            ∙ at-memcpy (length before + size) after buf room
            ∙ ap (λ t. t ++ (after ++ end_)) (take-add-append (length before) size before tail refl)
            ∙ append_assoc before front (after ++ end_) in
          (
            front ++ (after ++ end_),
            rw (full, other) e,
            (end_, drop-length-append size front (after ++ end_) front_size),
            omega (arith, length-append front (after ++ end_)),
          )
    ]

encode-append : (pre rs : List Rec) → encode (pre ++ rs) ≡ encode pre ++ encode rs
unfolding encode
encode-append [] rs = refl
encode-append (r ∷ pre) rs =
    ap (λ t. header r.bid (length r.times) ∷ t)
      (ap (λ t. r.times ++ t) (encode-append pre rs)
        ∙ sym (append_assoc r.times (encode pre) (encode rs)))

Fits-replace :
    (pre : List Rec) (r q : Rec) (post : List Rec)
    → Fits (pre ++ r ∷ post)
    → q.bid < 65536
    → 0 < length q.times
    → Fits (pre ++ q ∷ post)
unfolding Fits
Fits-replace [] r q post f b t = (b, t, f.2)
Fits-replace (p ∷ pre) r q post f b t = (f.0, f.1, Fits-replace pre r q post f.2 b t)

-- The board has its record behind those of `pre`.
pub found-behind :
    (bid ptr : ℕ) (pre : List Rec) (r : Rec) (post : List Rec)
    → lookup bid pre ≡ none
    → r.bid ≡ bid
    → found bid ptr (pre ++ r ∷ post) ≡ (some (ptr + length (encode pre)), length r.times)
unfolding lookup found encode
found-behind bid ptr [] r post h e =
    let here : (r.bid == bid) ≡ true = (==_iff _ _).1 e in
    let same : ptr ≡ ptr + 0 = omega arith in rw here (ap (λ p. (some p, length r.times)) same)
found-behind bid ptr (p ∷ pre) r post h e = elim (Bool-cases (p.bid == bid)) [
  | inl here ↦ absurd (ground (arith, here, h))
  | inr other ↦
      let size : ptr + 1 + length p.times + length (encode pre)
          ≡ ptr + suc (length (p.times ++ encode pre)) =
        omega (arith, length-append p.times (encode pre)) in
      rw other (
        found-behind bid (ptr + 1 + length p.times) pre r post (rw other at h) e
        ∙ ap (λ k. (some k, length r.times)) size)
]

write_over-Encodes :
    (expire_time bid n : ℕ) (list : List ℕ) (pre post : List Rec) (old rest : List ℕ) (t : Rc)
    → Fits (pre ++ record { bid = bid; times = take n list } ∷ post)
    → Writes expire_time bid n list
    → t.buf ≡ encode pre ++ (old ++ (encode post ++ rest))
    → t.size ≡ length (encode pre) + (n + 1) + length (encode post)
    → t.size ≤ length t.buf
    → Encodes
        (write_over expire_time
          (length (encode pre))
          (length (encode pre) + length old)
          (length (encode post))
          bid
          n
          list
          t)
        (pre ++ record { bid = bid; times = take n list } ∷ post)
unfolding write_over encode
write_over-Encodes expire_time bid n list pre post old rest t fits w e size room =
    let new : Rec = record { bid = bid; times = take n list } in
    let times_size : length (take n list) ≡ n = omega (arith, length-take n list, w.enough) in
    let (m, to_m, (r, tail), big) =
      moved_behind (n + 1) (encode pre) old (encode post) rest (omega (arith, ap length e)) in
    let put =
      putrecord_lem expire_time (length t.buf) bid n list (encode pre) m w (omega arith) big in
    let code : encode (pre ++ new ∷ post)
        ≡ encode pre ++ header bid n ∷ (take n list ++ encode post) =
      encode-append pre (new ∷ post)
      ∙ ap (λ k. encode pre ++ header bid k ∷ (take n list ++ encode post)) times_size in
    let written : List ℕ → List ℕ =
      λ b. brc_putrecord expire_time (length (encode pre)) (length t.buf) bid n list b in
    record {
      rest = r;
      buf_eq =
          ap
            (λ b. written (
              if ltb 0 (length (encode post))
                && not (length (encode pre) + (n + 1) == length (encode pre) + length old)
              then memmove (length (encode pre) + (n + 1)) (length (encode pre) + length old)
                  (length (encode post)) b
              else b))
            e
          ∙ ap written to_m
          ∙ put
          ∙ ap (λ d. encode pre ++ header bid n ∷ (take n list ++ d)) tail
          ∙ ap (λ d. encode pre ++ header bid n ∷ d)
              (sym (append_assoc (take n list) (encode post) r))
          ∙ sym (append_assoc (encode pre) (header bid n ∷ (take n list ++ encode post)) r)
          ∙ ap (λ c. c ++ r) (sym code);
      size_eq =
          size
          ∙ omega (
            arith,
            ap length code,
            length-append (encode pre) (header bid n ∷ (take n list ++ encode post)),
            length-append (take n list) (encode post),
          );
      fits = fits;
    }

-- A board with a record, `n` times.
pub insert_over-Encodes :
    (expire_time bid n : ℕ) (list : List ℕ) (s : Rc) (pre : List Rec) (r : Rec) (post : List Rec)
    → Encodes s (pre ++ r ∷ post)
    → bid < 65536
    → Writes expire_time bid n list
    → (s.size + n ≤ length s.buf + length r.times) ⊎ (length s.buf < brc_maxsize)
    → Encodes
        (insert_over expire_time (length (encode pre)) (length r.times) bid n list s)
        (pre ++ record { bid = bid; times = take n list } ∷ post)
unfolding insert_over resize brc_enlarge_buf encode
insert_over-Encodes expire_time bid n list s pre r post h lt w room =
    let old : List ℕ = header r.bid (length r.times) ∷ r.times in
    let size : ℕ = s.size + (n + 1) - (length r.times + 1) in
    let some_times : (n == 0) ≡ false = ground (arith, w.some_times) in
    let times_size : length (take n list) ≡ n = omega (arith, length-take n list, w.enough) in
    let fits =
      Fits-replace pre r (record { bid = bid; times = take n list }) post h.fits lt
        (omega (arith, w.some_times)) in
    let code : s.buf ≡ encode pre ++ (old ++ (encode post ++ h.rest)) =
      h.buf_eq
      ∙ ap (λ c. c ++ h.rest) (encode-append pre (r ∷ post))
      ∙ append_assoc (encode pre) (old ++ encode post) h.rest
      ∙ ap (λ c. encode pre ++ c) (append_assoc old (encode post) h.rest) in
    let sizes : s.size ≡ length (encode pre) + (length r.times + 1) + length (encode post) =
      h.size_eq
      ∙ omega (
        arith,
        ap length (encode-append pre (r ∷ post)),
        length-append (encode pre) (old ++ encode post),
        length-append r.times (encode post),
      ) in
    let used : s.size ≤ length s.buf =
      omega
        (arith, h.size_eq, ap length h.buf_eq, length-append (encode (pre ++ r ∷ post)) h.rest) in
    let after : s.size - (length (encode pre) + (length r.times + 1)) ≡ length (encode post) =
      omega arith in
    let old_size : length (encode pre) + (length r.times + 1) ≡ length (encode pre) + length old =
      omega arith in
    elim (Bool-cases (leb size (length s.buf))) [
      | inl within ↦
          let no_full : ltb (length s.buf) size ≡ false = ground (arith, within) in
          rw (some_times, no_full, within, after, old_size)
            (write_over-Encodes expire_time bid n list pre post old h.rest
              (record s { size = size }) fits w code (omega arith) (leb→le _ _ within))
      | inr over ↦
          let low : length s.buf < brc_maxsize = elim room [
            | inl fits_in ↦ absurd (ground (arith, over, fits_in))
            | inr low ↦ low
          ] in
          let grows : leb brc_maxsize (length s.buf) ≡ false = ground (arith, low) in
          let zeros : List ℕ = replicate brc_blocksize 0 in
          let is_over : ltb (length s.buf) size ≡ true = ground (arith, over) in
          rw (some_times, is_over, over, grows, after, old_size)
            (write_over-Encodes expire_time bid n list pre post old (h.rest ++ zeros)
              (record { buf = s.buf ++ zeros; size = size }) fits w
              (ap (λ b. b ++ zeros) code
                ∙ append_assoc (encode pre) (old ++ (encode post ++ h.rest)) zeros
                ∙ ap (λ c. encode pre ++ c) (append_assoc old (encode post ++ h.rest) zeros)
                ∙ ap (λ c. encode pre ++ (old ++ c)) (append_assoc (encode post) h.rest zeros))
              (omega arith)
              (omega
                (arith, w.few, length-append s.buf zeros, length-replicate brc_blocksize zero)))
    ]
