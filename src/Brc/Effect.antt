-- ===== src/Brc/Effect.antt =====
-- mbbsd/brc.c: `brc_addlist` against `brc_unread` and `brc_unread_time`, what marking an article as
-- read does to it and to the others.
use pttoldstable.Base.{
  ℕ, zero, suc, ◌+◌, ◌-◌, ◌≤◌, ◌<◌, ◌≡◌, ◌≢◌, ◌↔◌, refl, sym, ap, ◌∙◌, true, false, List, [], ◌∷◌,
  arith, ltb, leb, ◌==◌, if◌then◌else◌, length, take, drop, get_or, set, length-set, length-take,
  inl, inr, Bool-cases, ◌&&◌, dec_lt,
}
use pttoldstable.Base.Take.{take-all}
use pttoldstable.Brc.{
  Brc, brc_maxnum, brc_unread_time, brc_addlist, brc_unread, insert_at, shift_loop, addlist_loop,
}
use pttoldstable.Brc.Order.{
  visible, scan, mark, unread_loop-scan, addlist_loop-mark, length-shift_loop,
}
use pttoldstable.Brc.Marks.{
  Below, Desc, scan-mark_self, scan-mark_ne, scan_single, scan-mark, length-mark, scan-take,
  mark-Desc, take-Desc,
}

pub record IsValid (s : Brc) : Type 0 where
  pub fits : s.num ≤ brc_maxnum
  pub size : length s.list ≡ brc_maxnum
  pub order : Desc (visible s)

pub unread-visible :
    (u : ℕ) (s : Brc)
    → s.num ≤ length s.list
    → brc_unread_time s.expire_time u s.num s.list
      ≡ (if leb u s.expire_time then false else if leb s.num 0 then true else scan u (visible s))
unfolding brc_unread_time
unread-visible u s h = rw (unread_loop-scan s.num 0 u s.list (omega arith))

-- What `brc_addlist` keeps: the sizes, and the fields that it does not write.
record Kept (s r : Brc) : Type 0 where
  fits : r.num ≤ brc_maxnum
  size : length r.list ≡ brc_maxnum
  expire : r.expire_time ≡ s.expire_time
  level : r.userlevel ≡ s.userlevel
  some_left : s.num ≤ r.num

addlist_loop-Kept :
    (k n t : ℕ) (s : Brc)
    → s.num ≤ brc_maxnum
    → length s.list ≡ brc_maxnum
    → Kept s (addlist_loop k n t s)
unfolding addlist_loop insert_at
addlist_loop-Kept zero n t s b h = omega arith
addlist_loop-Kept (suc k) n t s b h = ground (
  arith,
  addlist_loop-Kept k (n + 1) t s b h,
  length-shift_loop (s.num + 1 - 1 - n) n s.list,
  length-shift_loop (s.num - 1 - n) n s.list,
  length-set (shift_loop (s.num + 1 - 1 - n) n s.list) n t,
  length-set (shift_loop (s.num - 1 - n) n s.list) n t,
)

addlist-Kept :
    (atoi : List ℕ → ℕ) (fname : List ℕ) (s : Brc)
    → s.num ≤ brc_maxnum
    → length s.list ≡ brc_maxnum
    → Kept s (brc_addlist atoi fname s)
unfolding brc_addlist
addlist-Kept atoi fname s b h =
    let t = atoi (drop 2 fname) in
    ground (arith, addlist_loop-Kept s.num 0 t s b h, length-set s.list 0 t)

take_one-set : (l : List ℕ) (t : ℕ) → 0 < length l → take 1 (set l 0 t) ≡ t ∷ []
take_one-set [] t h = absurd (omega arith)
take_one-set (x ∷ l) t h = refl

mark-single :
    (l : List ℕ) (t : ℕ)
    → 0 < length l
    → t < get_or l 0 0
    → take 1 l ≡ take brc_maxnum (mark t (take 1 l))
unfolding mark
mark-single [] t h p = absurd (omega arith)
mark-single (x ∷ l) t h p = ground arith

-- The list after `brc_addlist` of an article of time `t`.
abbrev marked : ℕ → Brc → List ℕ
marked t s =
    if s.userlevel == 0
    then visible s
    else if leb t s.expire_time
    then visible s
    else if leb s.num 0
    then t ∷ []
    else take brc_maxnum (mark t (visible s))

marked-Desc : (t : ℕ) (s : Brc) → Desc (visible s) → Desc (marked t s)
marked-Desc t s d = ground (arith, d, take-Desc brc_maxnum _ (mark-Desc t (visible s) d))

addlist_pos :
    (atoi : List ℕ → ℕ) (fname : List ℕ) (s : Brc)
    → s.userlevel ≢ 0
    → leb (atoi (drop 2 fname)) s.expire_time ≡ false
    → s.num ≤ brc_maxnum
    → length s.list ≡ brc_maxnum
    → 0 < (brc_addlist atoi fname s).num
unfolding brc_addlist
addlist_pos atoi fname s l fresh b h =
    ground (arith, addlist_loop-Kept s.num 0 (atoi (drop 2 fname)) s b h)

module _ (atoi : List ℕ → ℕ) (fname : List ℕ) (s : Brc) where
  -- With at most 80 entries in an array of 80: for a user with a level, and an article newer than
  -- the expiry time, `brc_addlist` makes an empty list the one entry of the article's time. In a list that
  -- is not empty the first entry decides that is not larger than the time: when it is smaller, the time is
  -- inserted before it and the list is cut at 80 entries; when it is equal, or there is none, the list
  -- stays. For a user without a level, and for an older article, the list stays too.
  pub addlist-visible :
      s.num ≤ brc_maxnum
      → length s.list ≡ brc_maxnum
      → visible (brc_addlist atoi fname s) ≡ marked (atoi (drop 2 fname)) s
  unfolding brc_addlist
  addlist-visible b h =
      let t = atoi (drop 2 fname) in
      elim (Bool-cases (s.userlevel == 0)) [
        | inl guest ↦ rw guest
        | inr user ↦ elim (Bool-cases (leb t s.expire_time)) [
          | inl old ↦ rw (user, old)
          | inr fresh ↦ elim (Bool-cases (leb s.num 0)) [
            | inl none_yet ↦ rw (user, fresh, none_yet) (take_one-set s.list t (omega arith))
            | inr some_yet ↦ elim (Bool-cases (s.num == 1 && ltb t (get_or s.list 0 0))) [
              | inl older ↦
                  let one : s.num ≡ 1 = ground arith in
                  rw (user, fresh, some_yet, older, one)
                    (mark-single s.list t (omega arith) (ground arith))
              | inr search_on ↦ rw (
                user,
                fresh,
                some_yet,
                search_on,
                addlist_loop-mark s.num 0 t s (omega arith) b h,
              )
            ]
          ]
        ]
      ]

  module _ (v : IsValid s) where
    abbrev time : ℕ
    time = atoi (drop 2 fname)

    abbrev after : Brc
    after = brc_addlist atoi fname s

    -- From a valid list, `brc_addlist` keeps the list in strictly descending order and within its array.
    pub addlist-IsValid : IsValid (brc_addlist atoi fname s)
    addlist-IsValid = record {
      fits = (addlist-Kept atoi fname s v.fits v.size).fits;
      size = (addlist-Kept atoi fname s v.fits v.size).size;
      order = rw (addlist-visible v.fits v.size) (marked-Desc time s v.order);
    }

    unread-after :
        (u : ℕ)
        → brc_unread_time s.expire_time u after.num after.list ≡ (
            if leb u s.expire_time
            then false
            else if leb after.num 0
            then true
            else scan u (marked time s))
    unread-after u =
        let k = addlist-Kept atoi fname s v.fits v.size in
        rw (k.expire, addlist-visible v.fits v.size) at
          (unread-visible u after (omega (arith, k.fits, k.size)))

    -- From a valid list and for a user with a level, an article that `brc_addlist` got counts as read
    -- after it.
    pub unread-addlist :
        s.userlevel ≢ 0
        → let r = brc_addlist atoi fname s in
          brc_unread atoi s.expire_time fname r.num r.list ≡ false
    unfolding brc_unread_time brc_unread
    unread-addlist l = unread-after time ∙ elim (Bool-cases (leb time s.expire_time)) [
      | inl old ↦ rw old
      | inr fresh ↦ ground (
        arith,
        addlist_pos atoi fname s l fresh v.fits v.size,
        scan_single time,
        scan-take brc_maxnum time (mark time (visible s)) (scan-mark_self time (visible s)),
      )
    ]

    -- From a valid list, `brc_addlist` makes no time unread that was read.
    pub addlist-keeps_read :
        (u : ℕ)
        → brc_unread_time s.expire_time u s.num s.list ≡ false
        → let r = brc_addlist atoi fname s in brc_unread_time s.expire_time u r.num r.list ≡ false
    addlist-keeps_read u h = unread-after u ∙ elim (Bool-cases (leb u s.expire_time)) [
      | inl old ↦ rw old
      | inr fresh ↦ ground (
        arith,
        sym (unread-visible u s (omega (arith, v.fits, v.size))) ∙ h,
        (addlist-Kept atoi fname s v.fits v.size).some_left,
        scan-take brc_maxnum u (mark time (visible s)),
        scan-mark time u (visible s),
      )
    ]

    -- From a valid list that is not empty and has room, `brc_addlist` changes for no other time whether
    -- it is unread.
    pub addlist-other :
        (u : ℕ)
        → u ≢ atoi (drop 2 fname)
        → 0 < s.num
        → s.num < brc_maxnum
        → let r = brc_addlist atoi fname s in
          brc_unread_time s.expire_time u r.num r.list
          ≡ brc_unread_time s.expire_time u s.num s.list
    addlist-other u ne lo hi =
        unread-after u
        ∙ ground (
          arith,
          (addlist-Kept atoi fname s v.fits v.size).some_left,
          take-all brc_maxnum (mark time (visible s))
              (omega (arith, length-mark time (visible s), length-take s.num s.list)),
          scan-mark_ne time u (visible s) ne,
        )
        ∙ sym (unread-visible u s (omega (arith, v.fits, v.size)))

abbrev pub oldest : ℕ → List ℕ → ℕ
oldest x [] = x
oldest x (y ∷ l) = oldest y l

abbrev pub Absent : ℕ → List ℕ → Type 0
Absent t [] = Unit
Absent t (x ∷ l) = (t ≢ x) × Absent t l

oldest-le : (x : ℕ) (l : List ℕ) → Desc (x ∷ l) → oldest x l ≤ x
oldest-le x [] d = omega arith
oldest-le x (y ∷ l) d = omega (arith, oldest-le y l d.1, d.0.0)

Below-Absent : (t x : ℕ) (l : List ℕ) → x < t → Below x l → Absent t l
Below-Absent t x [] h p = tt
Below-Absent t x (y ∷ l) h p = (omega arith, Below-Absent t x l h p.1)

scan-newer :
    (t x : ℕ) (l : List ℕ)
    → Desc (x ∷ l)
    → oldest x l < t
    → Absent t (x ∷ l)
    → scan t (x ∷ l) ≡ true
unfolding scan
scan-newer t x [] d h a = ground arith
scan-newer t x (y ∷ l) d h a = ground (arith, scan-newer t y l d.1 h a.1)

newer-scan :
    (t x : ℕ) (l : List ℕ)
    → Desc (x ∷ l)
    → scan t (x ∷ l) ≡ true
    → (oldest x l < t) × (t ≢ x) × Absent t l
unfolding scan
newer-scan t x [] d e = (ground arith, ground arith, tt)
newer-scan t x (y ∷ l) d e = elim (dec_lt x t) [
  | yes p ↦ (omega (arith, oldest-le x (y ∷ l) d), omega arith, Below-Absent t x (y ∷ l) p d.0)
  | no p ↦ let r = newer-scan t y l d.1 (ground arith) in (r.0, ground arith, (r.1, r.2))
]

-- With a valid list that is not empty `brc_unread_time` finds unread exactly what is newer than
-- the expiry time, newer than the oldest entry, and no entry.
pub unread_iff :
    (u x : ℕ) (l : List ℕ) (s : Brc)
    → IsValid s
    → visible s ≡ x ∷ l
    → (brc_unread_time s.expire_time u s.num s.list ≡ true)
      ↔ ((s.expire_time < u) × (oldest x l < u) × Absent u (x ∷ l))
unread_iff u x l s v e = (
  λ h. let p = unread_scan h in let q = newer-scan u x l d p.1 in (p.0, q.0, (q.1, q.2)),
  λ h. shown ∙ ground (arith, pos_num, scan-newer u x l d h.1 h.2),
)
  where
    d : Desc (x ∷ l)
    d = rw e at v.order

    pos_num : 0 < s.num
    pos_num = omega (arith, ap length e, length-take s.num s.list)

    shown :
        brc_unread_time s.expire_time u s.num s.list
        ≡ (if leb u s.expire_time then false else if leb s.num 0 then true else scan u (x ∷ l))
    shown = rw (← e) (unread-visible u s (omega (arith, v.fits, v.size)))

    unread_scan :
        brc_unread_time s.expire_time u s.num s.list ≡ true
        → (s.expire_time < u) × (scan u (x ∷ l) ≡ true)
    unread_scan h = ground (arith, sym shown ∙ h, pos_num)
