-- ===== src/Brc/Update.antt =====
-- mbbsd/brc.c: `brc_insert_record` updates the map from boards to times.
use pttoldstable.Base.{
  ℕ, zero, suc, ◌+◌, ◌-◌, ◌≤◌, ◌<◌, ◌≡◌, refl, sym, ap, ◌∙◌, true, false, none, some, ◌⊎◌, List, [],
  ◌∷◌, ◌++◌, arith, length, take, get_or, ltb, ℕ_discrete, ◌==◌, if◌then◌else◌, Bool-cases,
  Option-cases, inl, inr, ==_iff,
}
use pttoldstable.Brc.Buffer.{
  Rc, brc_maxsize, trim, insert_found, brc_insert_record, brc_find_record,
}
use pttoldstable.Brc.Records.{
  Rec, encode, lookup, Encodes, found, brc_findrecord_in_lem, brc_find_record-lookup,
}
use pttoldstable.Brc.Insert.{Writes, brc_insert_record-Encodes}
use pttoldstable.Brc.Replace.{found-behind, insert_over-Encodes}

-- The first record of a board.
record Split (bid : ℕ) (rs : List Rec) : Type 0 where
  pre : List Rec
  rec : Rec
  post : List Rec
  parts : rs ≡ pre ++ rec ∷ post
  earlier : lookup bid pre ≡ none
  same : rec.bid ≡ bid

lookup-Split : (bid : ℕ) (rs : List Rec) (ts : List ℕ) → lookup bid rs ≡ some ts → Split bid rs
unfolding lookup
lookup-Split bid [] ts h = cc
lookup-Split bid (r ∷ rs) ts h = elim (Bool-cases (r.bid == bid)) [
  | inl here ↦ record {
    pre = [];
    rec = r;
    post = rs;
    parts = refl;
    earlier = refl;
    same = (==_iff _ _).0 here;
  }
  | inr other ↦
      let later = lookup-Split bid rs ts (rw other at h) in
      record {
        pre = r ∷ later.pre;
        rec = later.rec;
        post = later.post;
        parts = ap (◌∷◌ r) later.parts;
        earlier = rw other later.earlier;
        same = later.same;
      }
]

-- Only the board of the new record has other times.
lookup-replace :
    (bid b : ℕ) (ts : List ℕ) (pre : List Rec) (r : Rec) (post : List Rec)
    → lookup bid pre ≡ none
    → r.bid ≡ bid
    → lookup b (pre ++ record { bid = bid; times = ts } ∷ post)
      ≡ (if bid == b then some ts else lookup b (pre ++ r ∷ post))
unfolding lookup
lookup-replace bid b ts [] r post h e =
    rw e (elim (Bool-cases (bid == b)) [ inl here ↦ rw here refl | inr other ↦ rw other refl ])
lookup-replace bid b ts (p ∷ pre) r post h e = elim (Bool-cases (p.bid == bid)) [
  | inl here ↦ absurd (ground (arith, here, h))
  | inr other ↦ elim (Bool-cases (p.bid == b)) [
    | inl at_b ↦
        let not_b : (bid == b) ≡ false = ground (arith, at_b, other) in rw (at_b, not_b) refl
    | inr no_b ↦ rw no_b (lookup-replace bid b ts pre r post (rw other at h) e)
  ]
]

insert_record-found :
    (expire_time bid num b : ℕ) (list : List ℕ) (s : Rc) (rs : List Rec)
    → Encodes s rs
    → brc_find_record b (brc_insert_record expire_time bid num list s)
      ≡ brc_find_record b
          (insert_found expire_time (found bid 0 rs) bid (trim expire_time num list) list s)
unfolding brc_insert_record
insert_record-found expire_time bid num b list s rs h =
    ap (λ r. brc_find_record b (insert_found expire_time r bid (trim expire_time num list) list s))
      (brc_findrecord_in_lem bid s rs h)

over-Update :
    (expire_time bid n b : ℕ) (list : List ℕ) (s : Rc) (rs : List Rec)
    → Encodes s rs
    → Split bid rs
    → bid < 65536
    → Writes expire_time bid n list
    → (s.size + (n + 1) ≤ length s.buf) ⊎ (length s.buf < brc_maxsize)
    → brc_find_record b (insert_found expire_time (found bid 0 rs) bid n list s)
      ≡ (if bid == b then some (take n list) else brc_find_record b s)
unfolding insert_found
over-Update expire_time bid n b list s rs h split lt w room =
    let whole : Encodes s (split.pre ++ split.rec ∷ split.post) = rw (← split.parts) h in
    let fits : (s.size + n ≤ length s.buf + length split.rec.times) ⊎ (length s.buf < brc_maxsize) =
      elim room [ inl le ↦ inl (omega arith) | inr low ↦ inr low ] in
    let start : 0 + length (encode split.pre) ≡ length (encode split.pre) = omega arith in
    let where_found : found bid 0 rs ≡ (some (length (encode split.pre)), length split.rec.times) =
      ap (found bid 0) split.parts
      ∙ found-behind bid 0 split.pre split.rec split.post split.earlier split.same
      ∙ ap (λ p. (some p, length split.rec.times)) start in
    let made =
      insert_over-Encodes expire_time bid n list s split.pre split.rec split.post whole lt w fits in
    ap (λ r. brc_find_record b (insert_found expire_time r bid n list s)) where_found
    ∙ brc_find_record-lookup b _ _ made
    ∙ lookup-replace bid b (take n list) split.pre split.rec split.post split.earlier split.same
    ∙ ap (λ o. if bid == b then some (take n list) else o)
        (sym (brc_find_record-lookup b s _ whole))

-- `trim` finds the place behind the last time that is not older than the limit.
trim_lem :
    (expire_time num n : ℕ) (list : List ℕ)
    → n ≤ num
    → 0 < n
    → expire_time ≤ get_or list (n - 1) 0
    → ((j : ℕ) → n ≤ j → j < num → get_or list j 0 < expire_time)
    → trim expire_time num list ≡ n
unfolding trim
trim_lem expire_time zero n list le pos last old = absurd (omega arith)
trim_lem expire_time (suc num) n list le pos last old = elim (ℕ_discrete n (suc num)) [
  | yes e ↦
      let at_end : n - 1 ≡ num = omega arith in
      let fresh : expire_time ≤ get_or list num 0 = rw at_end at last in
      let t : ltb (get_or list num 0) expire_time ≡ false = ground (arith, fresh) in rw (t, e) refl
  | no e ↦
      let stale = old num (omega arith) (omega arith) in
      let t : ltb (get_or list num 0) expire_time ≡ true = ground (arith, stale) in
      rw t (trim_lem expire_time num n list (omega arith) pos last (λ j l u. old j l (omega arith)))
]

module _ (expire_time bid num n b : ℕ) (list : List ℕ) (s : Rc) (rs : List Rec) where
  insert_trimmed :
      Encodes s rs
      → bid < 65536
      → trim expire_time num list ≡ n
      → Writes expire_time bid n list
      → (s.size + (n + 1) ≤ length s.buf) ⊎ (length s.buf < brc_maxsize)
      → brc_find_record b (brc_insert_record expire_time bid num list s)
        ≡ (if bid == b then some (take n list) else brc_find_record b s)
  unfolding lookup
  insert_trimmed h lt cut w room =
      let w' : Writes expire_time bid (trim expire_time num list) list = rw cut w in
      let room' : (s.size + (trim expire_time num list + 1) ≤ length s.buf)
          ⊎ (length s.buf < brc_maxsize) =
        rw cut room in
      elim (Option-cases (lookup bid rs)) [
        | inl absent ↦
            brc_find_record-lookup b _ _
              (brc_insert_record-Encodes expire_time bid num list s rs h absent lt w' room')
            ∙ ap (λ o. if bid == b then some (take (trim expire_time num list) list) else o)
                (sym (brc_find_record-lookup b s rs h))
            ∙ rw cut refl
        | inr (ts, present) ↦
            insert_record-found expire_time bid num b list s rs h
            ∙ over-Update expire_time bid (trim expire_time num list) b list s rs h
                (lookup-Split bid rs ts present) lt w' room'
            ∙ rw cut refl
      ]

-- Where the number of the board fits its field, and of the `num` times the last that is not older
-- than the limit is the one at `n - 1`, and the first `n` are at most 80 and begin with one newer than
-- the limit, and the buffer of whole records has room for them or can grow: `brc_insert_record` gives the
-- board these first `n` times, also older ones among them, in the place of those it had, and the other
-- boards keep theirs.
pub find_record-insert_record :
    (expire_time bid num n b : ℕ) (list : List ℕ) (s : Rc) (rs : List Rec)
    → Encodes s rs
    → bid < 65536
    → n ≤ num
    → expire_time ≤ get_or list (n - 1) 0
    → ((j : ℕ) → n ≤ j → j < num → get_or list j 0 < expire_time)
    → Writes expire_time bid n list
    → (s.size + (n + 1) ≤ length s.buf) ⊎ (length s.buf < brc_maxsize)
    → brc_find_record b (brc_insert_record expire_time bid num list s)
      ≡ (if bid == b then some (take n list) else brc_find_record b s)
find_record-insert_record expire_time bid num n b list s rs h lt le last old w room =
    insert_trimmed expire_time bid num n b list s rs h lt
      (trim_lem expire_time num n list le w.some_times last old) w room
