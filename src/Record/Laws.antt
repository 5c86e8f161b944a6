-- ===== src/Record/Laws.antt =====
-- mbbsd/record.c: what deleting, writing, appending and reading a record have to do with each other.
use pttoldstable.Base.{
  ℕ, zero, suc, ◌+◌, ◌-◌, ◌*◌, ◌/◌, ◌≤◌, ◌<◌, ◌≡◌, ◌≢◌, refl, sym, ap, ◌∙◌, ◌⊎◌, inl, inr, false,
  some, List, [], ◌∷◌, ◌++◌, arith, ltb, length, take, drop, replicate, length-append, ltb→lt,
  length-take, length-replicate, Bool-cases,
}
use mathlib.Core.Option.{some-injective}
use native.Mathlib.Nat.{le_trans, mul-le-mul_left, mul-div-le}
use pttoldstable.Base.Take.{take-all, take-take}
use pttoldstable.Record.{
  pread, pwrite, copy_loop, cut_file, get_record, substitute_record, delete_records, delete_record,
  append_record,
}
use pttoldstable.Record.Copy.{copy_loop-take, drop-length-append, drop-add}

take-append_below : (n : ℕ) (x y : List ℕ) → n ≤ length x → take n (x ++ y) ≡ take n x
take-append_below zero x y h = refl
take-append_below (suc n) [] y h = absurd (omega arith)
take-append_below (suc n) (a ∷ x) y h = ap (◌∷◌ a) (take-append_below n x y (omega arith))

drop-take : (q n : ℕ) (l : List ℕ) → take n (drop q l) ≡ drop q (take (q + n) l)
drop-take zero n l = let e : 0 + n ≡ n = omega arith in rw e
drop-take (suc q) zero [] = let e : suc q + 0 ≡ suc q = omega arith in rw e
drop-take (suc q) (suc n) [] = let e : suc q + suc n ≡ suc (q + suc n) = omega arith in rw e
drop-take (suc q) n (x ∷ l) =
    let e : suc q + n ≡ suc (q + n) = omega arith in rw e (drop-take q n l)

mul_step : (size id : ℕ) → 1 ≤ id → size * (id - 1) + size ≡ size * id
mul_step size zero h = absurd (omega arith)
mul_step size (suc i) h = let e : suc i - 1 ≡ i = omega arith in rw e (grind arith)

mul_gap : (size i j : ℕ) → 1 ≤ i → i < j → size * (i - 1) + size ≤ size * (j - 1)
mul_gap size zero j h l = absurd (omega arith)
mul_gap size (suc i) zero h l = absurd (omega arith)
mul_gap size (suc i) (suc j) h l =
    let e : suc i - 1 ≡ i = omega arith in
    let e' : suc j - 1 ≡ j = omega arith in
    rw (e, e') (let d = j - (suc i) in let ej : j ≡ suc i + d = omega arith in rw ej (grind arith))

pwrite_prefix : (pos : ℕ) (f : List ℕ) → length (take pos (f ++ replicate (pos - length f) 0)) ≡ pos
pwrite_prefix pos f =
    let z : List ℕ = replicate (pos - length f) 0 in
    omega (
      arith,
      length-take pos (f ++ z),
      length-append f z,
      length-replicate {A = ℕ} (pos - length f) 0,
    )

pread-pwrite : (pos : ℕ) (chunk f : List ℕ) → pread pos (length chunk) (pwrite pos chunk f) ≡ chunk
unfolding pread pwrite
pread-pwrite pos chunk f =
    rw (drop-length-append pos _ (chunk ++ drop (pos + length chunk) f) (pwrite_prefix pos f)) (
      take-append_below (length chunk) chunk _ (omega arith)
      ∙ take-all (length chunk) chunk (omega arith))

-- A read of other bytes of the file is not changed by a write.
pread-pwrite-other :
    (pos q n : ℕ) (chunk f : List ℕ)
    → (q + n ≤ pos) ⊎ (pos + length chunk ≤ q)
    → q + n ≤ length f
    → pread q n (pwrite pos chunk f) ≡ pread q n f
unfolding pread pwrite
pread-pwrite-other pos q n chunk f (inl h) l =
    let x = f ++ replicate (pos - length f) 0 in
    let y = chunk ++ drop (pos + length chunk) f in
    drop-take q n (take pos x ++ y)
    ∙ ap (drop q) (
        take-append_below (q + n) (take pos x) y (omega (arith, pwrite_prefix pos f))
        ∙ take-take (q + n) pos x h
        ∙ take-append_below (q + n) f _ l)
    ∙ sym (drop-take q n f)
pread-pwrite-other pos q n chunk f (inr h) l =
    let c = length chunk in
    let e : q ≡ pos + (c + (q - (pos + c))) = omega arith in
    let e' : pos + (c + (q - (pos + c))) ≡ (pos + c) + (q - (pos + c)) = omega arith in
    let x = take pos (f ++ replicate (pos - length f) 0) in
    let y = chunk ++ drop (pos + c) f in
    ap (take n) (
      ap (λ k. drop k (x ++ y)) e
      ∙ drop-add pos (c + (q - (pos + c))) (x ++ y)
      ∙ ap (drop (c + (q - (pos + c)))) (drop-length-append pos x y (pwrite_prefix pos f))
      ∙ drop-add c (q - (pos + c)) y
      ∙ ap (drop (q - (pos + c))) (drop-length-append c chunk (drop (pos + c) f) refl)
      ∙ sym (drop-add (pos + c) (q - (pos + c)) f)
      ∙ ap (λ k. drop k f) (sym (e ∙ e')))

get_record-pwrite :
    (f chunk : List ℕ) (size id : ℕ)
    → 1 ≤ id
    → length chunk ≡ size
    → get_record (some (pwrite (size * (id - 1)) chunk f)) size id ≡ some chunk
unfolding get_record
get_record-pwrite f chunk size id h l =
    let e : pread (size * (id - 1)) size (pwrite (size * (id - 1)) chunk f) ≡ chunk =
      ap (λ n. pread (size * (id - 1)) n (pwrite (size * (id - 1)) chunk f)) (sym l)
      ∙ pread-pwrite (size * (id - 1)) chunk f in
    rw e (ground arith)

above : (id j : ℕ) → j ≢ id → ltb j id ≡ false → id < j
above id j ne h = ground arith

get_record-pwrite-other :
    (f chunk : List ℕ) (size id j : ℕ)
    → 1 ≤ id
    → length chunk ≡ size
    → 1 ≤ j
    → j ≢ id
    → size * j ≤ length f
    → get_record (some (pwrite (size * (id - 1)) chunk f)) size j ≡ get_record (some f) size j
unfolding get_record
get_record-pwrite-other f chunk size id j h l hj ne b =
    let e =
      pread-pwrite-other (size * (id - 1)) (size * (j - 1)) size chunk f (apart size id j h hj ne l)
        (omega (arith, mul_step size j hj)) in
    rw e
  where
    apart :
        (size id j : ℕ)
        → 1 ≤ id
        → 1 ≤ j
        → j ≢ id
        → length chunk ≡ size
        → (size * (j - 1) + size ≤ size * (id - 1))
          ⊎ (size * (id - 1) + length chunk ≤ size * (j - 1))
    apart size id j h hj ne l = elim (Bool-cases (ltb j id)) [
      | inl lt ↦ inl (mul_gap size j id hj (ltb→lt j id lt))
      | inr nlt ↦ inr (omega (arith, mul_gap size id j h (above id j ne nlt)))
    ]

-- Writing record `id` of a file that opens, with as many bytes as a record has, makes `get_record`
-- read those bytes back, at any `id` from 1 on, also beyond the end of the file; and every other
-- record that lay within the file is read as before.
pub substitute_record-get_record :
    (f g rptr : List ℕ) (size id : ℕ)
    → 1 ≤ id
    → length rptr ≡ size
    → substitute_record false f rptr size id ≡ some g
    → (get_record (some g) size id ≡ some rptr)
      × ((j : ℕ)
          → 1 ≤ j
          → j ≢ id
          → size * j ≤ length f
          → get_record (some g) size j ≡ get_record (some f) size j)
unfolding substitute_record get_record
substitute_record-get_record f g rptr size id h l e =
    let eg : pwrite (size * (id - 1)) rptr f ≡ g = ground arith in
    rw (sym eg) (
      get_record-pwrite f rptr size id h l,
      λ j hj ne b. get_record-pwrite-other f rptr size id j h l hj ne b,
    )

-- A record appended to a file that opens gets the number that `append_record` returns, and
-- `get_record` reads it under that number; the records with lower numbers are read as before.
pub append_record-get_record :
    (f g item : List ℕ) (size id : ℕ)
    → 0 < size
    → length item ≡ size
    → append_record (some f) item size ≡ some (id, g)
    → (get_record (some g) size id ≡ some item)
      × ((j : ℕ) → 1 ≤ j → j < id → get_record (some g) size j ≡ get_record (some f) size j)
unfolding append_record get_record
append_record-get_record f g item size id h l e =
    let p = some-injective _ _ e in
    let i = length f / size in
    let eid : i + 1 ≡ id = ap (λ q. q.0) p in
    let ei : i * size ≡ size * (i + 1 - 1) =
      let e1 : i + 1 - 1 ≡ i = omega arith in rw e1 (grind arith) in
    let eg : pwrite (size * (i + 1 - 1)) item f ≡ g =
      ap (λ k. pwrite k item f) (sym ei) ∙ ap (λ q. q.1) p in
    rw (sym eg, sym eid)
      (
        get_record-pwrite f item size (i + 1) (omega arith) l,
        λ j hj lt.
            get_record-pwrite-other f item size (i + 1) j (omega arith) l hj (ground arith)
              (le_trans (mul-le-mul_left size (omega arith)) (mul-div-le (length f) size)),
      )

not_ltb : (a b : ℕ) → ltb a b ≡ false → b ≤ a
not_ltb a b h = ground arith

cut_file-take : (n gone : ℕ) (f : List ℕ) → gone ≤ n → cut_file n gone f ≡ take (n - gone) f
unfolding cut_file
cut_file-take n gone f h = ground arith

-- `delete_records` at a record `id` that lies in the file (`a` are the bytes before it and `b` those
-- after it), with `num` records to delete and at least as many bytes in the file: what is left are
-- the bytes of the file less that one record, cut to the length of the file less `num` records.
pub delete_records-cut :
    (a r b : List ℕ) (size id num : ℕ)
    → 1 ≤ num
    → length r ≡ size
    → length a + size ≡ size * id
    → size * num ≤ length (a ++ (r ++ b))
    → delete_records (some (a ++ (r ++ b))) size id num
      ≡ some (take (length (a ++ (r ++ b)) - size * num) (a ++ b))
unfolding delete_records copy_loop
delete_records-cut a r b size id num h hr ha hn =
    let n = length (a ++ (r ++ b)) in
    let t = length-append a (r ++ b) in
    let t' = length-append r b in
    let e : ltb (n + size) (size * id) ≡ false = ground (arith, t, t') in
    let gone = size * num in
    let le : size ≤ gone = omega (arith, mul-le-mul_left size h) in
    rw (e, cut_file-take n gone _ hn)
      (ap some (elim (Bool-cases (ltb (gone + size * id) (n + size))) [
        | inl lt ↦
            let readsize = n + size - size * id - gone in
            let room = ltb→lt (gone + size * id) (n + size) lt in
            let same : (size * id - size) + (readsize - 0) ≡ n - gone = omega (arith, t, t') in
            rw lt (
              ap
                (λ k.
                  take k
                    (copy_loop (suc n) 0 readsize (size * id) (size * id - size) (a ++ (r ++ b))))
                (sym same)
              ∙ copy_loop-take (suc n) 0 readsize size (size * id - size) (size * id) a r b
                  (omega arith) (omega arith) hr (omega (arith, t, t')) (omega (arith, t, t'))
              ∙ ap (λ k. take k (a ++ b)) same)
        | inr nlt ↦
            let short : n - gone ≤ length a =
              omega (arith, not_ltb (gone + size * id) (n + size) nlt) in
            rw nlt (
              take-append_below (n - gone) a (r ++ b) short
              ∙ sym (take-append_below (n - gone) a b short))
      ]))

-- `delete_record` takes exactly the bytes of record `id` out of a file that has it.
pub delete_record_lem :
    (a r b : List ℕ) (size id : ℕ)
    → length r ≡ size
    → length a + size ≡ size * id
    → delete_record (some (a ++ (r ++ b))) size id ≡ some (a ++ b)
unfolding delete_record
delete_record_lem a r b size id hr ha =
    let e : size * 1 ≡ size = omega arith in
    let t = length-append a (r ++ b) in
    delete_records-cut a r b size id 1 (omega arith) hr ha (omega (arith, t, length-append r b))
    ∙ rw e (
        ap some (
          take-all (length (a ++ (r ++ b)) - size) (a ++ b)
            (omega (arith, t, length-append r b, length-append a b))))
