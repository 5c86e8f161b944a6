-- ===== src/Brc/Records.antt =====
-- mbbsd/brc.c: the buffer as a map from boards to their times, and that `brc_find_record` reads it.
use pttoldstable.Base.{
  ℕ, zero, suc, ◌+◌, ◌/◌, ◌%◌, ◌≤◌, ◌<◌, ◌≡◌, refl, sym, ap, ap₂, ◌∙◌, true, false, Option, none,
  some, List, [], ◌∷◌, ◌++◌, arith, length, length-append, get_or, take, drop, leb, ltb, ◌==◌,
  if◌then◌else◌, Bool-cases, inl, inr,
}
use mathlib.Core.List.{append_assoc}
use pttoldstable.Record.Copy.{drop-length-append}
use pttoldstable.Brc.Buffer.{Rc, header, find_loop, brc_findrecord_in, times_at, brc_find_record}

-- The record of a board.
pub record Rec : Type 0 where
  pub bid : ℕ
  pub times : List ℕ

-- The numbers of a record fit their fields, and it has a time.
unfoldable pub Fits : List Rec → Type 0
Fits [] = Unit
Fits (r ∷ rs) = (r.bid < 65536) × (0 < length r.times) × Fits rs

unfoldable pub encode : List Rec → List ℕ
unfolding header
encode [] = []
encode (r ∷ rs) = header r.bid (length r.times) ∷ (r.times ++ encode rs)

unfoldable pub lookup : ℕ → List Rec → Option (List ℕ)
lookup bid [] = none
lookup bid (r ∷ rs) = let rest = lookup bid rs in if r.bid == bid then some r.times else rest

-- The buffer begins with the records, and `brc_size` is their size.
pub record Encodes (s : Rc) (rs : List Rec) : Type 0 where
  pub rest : List ℕ
  pub buf_eq : s.buf ≡ encode rs ++ rest
  pub size_eq : s.size ≡ length (encode rs)
  pub fits : Fits rs

header-bid : (bid num : ℕ) → bid < 65536 → header bid num % 65536 ≡ bid
unfolding header
header-bid bid num h = omega arith

header-num : (bid num : ℕ) → bid < 65536 → header bid num / 65536 ≡ num
unfolding header
header-num bid num h = omega arith

get_or-length : (a : List ℕ) (x : ℕ) (r : List ℕ) → get_or (a ++ x ∷ r) (length a) 0 ≡ x
get_or-length [] x r = refl
get_or-length (y ∷ a) x r = get_or-length a x r

pub take-left : (a b : List ℕ) → take (length a) (a ++ b) ≡ a
take-left [] b = refl
take-left (x ∷ a) b = ap (◌∷◌ x) (take-left a b)

-- A round of the loop that finds a whole record.
find_loop-round :
    (k bid endp ptr : ℕ) (buf : List ℕ) (b n : ℕ)
    → b < 65536
    → get_or buf ptr 0 ≡ header b n
    → ptr + 1 < endp
    → ptr + 1 + n ≤ endp
    → find_loop (suc k) bid endp ptr buf
      ≡ (if b == bid then (some ptr, n) else find_loop k bid endp (ptr + 1 + n) buf)
unfolding find_loop
find_loop-round k bid endp ptr buf b n lt e inside whole =
    let t1 : leb endp (ptr + 1) ≡ false = ground arith in
    let t2 : ltb endp (ptr + 1 + n) ≡ false = ground arith in
    rw (e, header-bid b n lt, header-num b n lt, t1, t2) refl

-- Where the loop finds the record, the first one being at `ptr`.
unfoldable pub found : ℕ → ℕ → List Rec → Option ℕ × ℕ
found bid ptr [] = (none, 0)
found bid ptr (r ∷ rs) =
    let rest = found bid (ptr + 1 + length r.times) rs in
    if r.bid == bid then (some ptr, length r.times) else rest

-- The buffer behind the first record.
next_before :
    (before : List ℕ) (r : Rec) (rs : List Rec) (rest : List ℕ)
    → (before ++ header r.bid (length r.times) ∷ r.times) ++ (encode rs ++ rest)
      ≡ before ++ (encode (r ∷ rs) ++ rest)
unfolding encode
next_before before r rs rest =
    append_assoc before (header r.bid (length r.times) ∷ r.times) (encode rs ++ rest)
    ∙ ap (λ t. before ++ header r.bid (length r.times) ∷ t)
        (sym (append_assoc r.times (encode rs) rest))

length-next :
    (before : List ℕ) (w : ℕ) (t : List ℕ) → length (before ++ w ∷ t) ≡ length before + 1 + length t
length-next before w t = omega (arith, length-append before (w ∷ t))

find_loop-found :
    (k bid : ℕ) (before : List ℕ) (rs : List Rec) (rest : List ℕ)
    → Fits rs
    → length (encode rs) ≤ k
    → find_loop k bid
        (length before + length (encode rs))
        (length before)
        (before ++ (encode rs ++ rest))
      ≡ found bid (length before) rs
unfolding encode Fits found find_loop
find_loop-found zero bid before [] rest f h = refl
find_loop-found zero bid before (r ∷ rs) rest f h = absurd (omega arith)
find_loop-found (suc k) bid before [] rest f h =
    let t1 : leb (length before + 0) (length before + 1) ≡ true = ground arith in rw t1 refl
find_loop-found (suc k) bid before (r ∷ rs) rest f h =
    let n : ℕ = length r.times in
    let word : ℕ = header r.bid n in
    let tail : List ℕ = (r.times ++ encode rs) ++ rest in
    let endp : ℕ = length before + suc (length (r.times ++ encode rs)) in
    let size : length (r.times ++ encode rs) ≡ n + length (encode rs) =
      length-append r.times (encode rs) in
    let round =
      find_loop-round k bid endp (length before) (before ++ word ∷ tail) r.bid n f.0
        (get_or-length before word tail) (omega arith) (omega arith) in
    let next : List ℕ = before ++ word ∷ r.times in
    let next_size : length next ≡ length before + 1 + n = length-next before word r.times in
    let end_eq : endp ≡ length next + length (encode rs) = omega arith in
    let later : find_loop k bid endp (length before + 1 + n) (before ++ word ∷ tail)
        ≡ found bid (length before + 1 + n) rs =
      ap (find_loop k bid endp (length before + 1 + n)) (sym (next_before before r rs rest))
      ∙ ap₂ (λ e p. find_loop k bid e p (next ++ (encode rs ++ rest))) end_eq (sym next_size)
      ∙ find_loop-found k bid next rs rest f.2 (omega arith)
      ∙ ap (λ p. found bid p rs) next_size in
    rw (round, later) refl

found-lookup :
    (bid : ℕ) (before : List ℕ) (rs : List Rec) (rest : List ℕ)
    → times_at (before ++ (encode rs ++ rest)) (found bid (length before) rs) ≡ lookup bid rs
unfolding encode lookup times_at found
found-lookup bid before [] rest = refl
found-lookup bid before (r ∷ rs) rest =
    let n : ℕ = length r.times in
    let word : ℕ = header r.bid n in
    let tail : List ℕ = (r.times ++ encode rs) ++ rest in
    let next : List ℕ = before ++ word ∷ r.times in
    let read : take n (drop (length before + 1) (before ++ word ∷ tail)) ≡ r.times =
      ap (λ b. take n (drop (length before + 1) b)) (sym (append_assoc before (word ∷ []) tail))
      ∙ ap (take n) (
          drop-length-append (length before + 1) (before ++ word ∷ []) tail
            (length-append before (word ∷ [])))
      ∙ ap (take n) (append_assoc r.times (encode rs) rest)
      ∙ take-left r.times (encode rs ++ rest) in
    let later : times_at (before ++ word ∷ tail) (found bid (length before + 1 + n) rs)
        ≡ lookup bid rs =
      ap₂ (λ b p. times_at b (found bid p rs)) (sym (next_before before r rs rest))
        (sym (length-next before word r.times))
      ∙ found-lookup bid next rs rest in
    elim (Bool-cases (r.bid == bid)) [
      | inl here ↦ rw here (ap some read)
      | inr other ↦ rw other later
    ]

-- A board without a record.
pub found-none : (bid ptr : ℕ) (rs : List Rec) → lookup bid rs ≡ none → found bid ptr rs ≡ (none, 0)
unfolding lookup found
found-none bid ptr [] h = refl
found-none bid ptr (r ∷ rs) h = elim (Bool-cases (r.bid == bid)) [
  | inl here ↦ ground (arith, here, h)
  | inr other ↦ rw other (found-none bid (ptr + 1 + length r.times) rs (rw other at h))
]

pub brc_findrecord_in_lem :
    (bid : ℕ) (s : Rc) (rs : List Rec) → Encodes s rs → brc_findrecord_in bid s ≡ found bid 0 rs
unfolding brc_findrecord_in
brc_findrecord_in_lem bid s rs h =
    let e : length (encode rs) ≡ 0 + length (encode rs) = omega arith in
    rw (h.buf_eq, h.size_eq)
      (ap (λ n. find_loop (length (encode rs)) bid n 0 (encode rs ++ h.rest)) e
        ∙ find_loop-found (length (encode rs)) bid [] rs h.rest h.fits (omega arith))

-- `brc_find_record` finds the times of a board, and nothing for a board that has no record, in a buffer
-- of whole records.
pub brc_find_record-lookup :
    (bid : ℕ) (s : Rc) (rs : List Rec) → Encodes s rs → brc_find_record bid s ≡ lookup bid rs
unfolding brc_find_record
brc_find_record-lookup bid s rs h =
    rw (brc_findrecord_in_lem bid s rs h, h.buf_eq) (found-lookup bid [] rs h.rest)
