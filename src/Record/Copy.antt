-- ===== src/Record/Copy.antt =====
-- mbbsd/record.c: the loop of `delete_records` moves the tail of the file up by one record.
use pttoldstable.Base.{
  ℕ, zero, suc, ◌+◌, ◌-◌, ◌≤◌, ◌<◌, ◌≡◌, refl, sym, ap, ◌∙◌, true, false, List, [], ◌∷◌, ◌++◌,
  arith, ltb, ◌&&◌, length, take, drop, length-append, length-take, length-drop, take-append-drop,
  Bool-cases, inl, inr, ◌⊎◌,
}
use mathlib.Core.List.{append_assoc, append-nil}
use pttoldstable.Base.Take.{take-take, take-add-append}
use pttoldstable.Record.{bufsize, pread, pwrite, copy_loop}

pub drop-length-append : (n : ℕ) (a b : List ℕ) → length a ≡ n → drop n (a ++ b) ≡ b
drop-length-append zero [] b h = refl
drop-length-append zero (x ∷ a) b h = absurd (omega arith)
drop-length-append (suc n) [] b h = absurd (omega arith)
drop-length-append (suc n) (x ∷ a) b h = drop-length-append n a b (omega arith)

pub drop-add : (m n : ℕ) (l : List ℕ) → drop (m + n) l ≡ drop n (drop m l)
drop-add zero n l = let e : 0 + n ≡ n = omega arith in rw e
drop-add (suc m) zero [] = let e : suc m + 0 ≡ suc m = omega arith in rw e
drop-add (suc m) (suc n) [] = let e : suc m + suc n ≡ suc (m + suc n) = omega arith in rw e
drop-add (suc m) n (x ∷ l) = let e : suc m + n ≡ suc (m + n) = omega arith in rw e (drop-add m n l)

-- A write of `chunk` after the first part of a file.
pub pwrite-append :
    (p rest chunk : List ℕ)
    → pwrite (length p) chunk (p ++ rest) ≡ p ++ (chunk ++ drop (length chunk) rest)
unfolding pwrite
pwrite-append p rest chunk =
    let e : length p - length (p ++ rest) ≡ 0 = omega (arith, length-append p rest) in
    rw
      (
        e,
        append-nil (p ++ rest),
        drop-add (length p) (length chunk) (p ++ rest),
        drop-length-append (length p) p rest refl,
      )
      (ap (λ q. q ++ (chunk ++ drop (length chunk) rest)) (take_first p rest))
  where
    take_first : (p rest : List ℕ) → take (length p) (p ++ rest) ≡ p
    take_first [] rest = refl
    take_first (x ∷ p) rest = ap (◌∷◌ x) (take_first p rest)

-- The bytes between the write and the read position stay `size` many.
gap_lem :
    (size c : ℕ) (m rest : List ℕ)
    → length m ≡ size
    → c ≤ length rest
    → (m' : List ℕ) × (drop c (m ++ rest) ≡ m' ++ drop c rest) × (length m' ≡ size)
gap_lem size c m rest h l =
    let all = drop c (m ++ rest) in
    (
      take size all,
      sym (take-append-drop size all) ∙ ap (λ q. take size all ++ q) moved,
      omega (arith, length-take size all, length-drop c (m ++ rest), length-append m rest),
    )
  where
    moved : drop size (drop c (m ++ rest)) ≡ drop c rest
    moved =
        let e : c + size ≡ size + c = omega arith in
        sym (drop-add c size (m ++ rest))
        ∙ rw (e, drop-add size c (m ++ rest), drop-length-append size m rest h)

-- The bytes that a round of the loop reads.
pread-rest :
    (p m rest : List ℕ) (size n : ℕ)
    → length m ≡ size
    → pread (length p + size) n (p ++ (m ++ rest)) ≡ take n rest
unfolding pread
pread-rest p m rest size n h = rw (
  drop-add (length p) size (p ++ (m ++ rest)),
  drop-length-append (length p) p (m ++ rest) refl,
  drop-length-append size m rest h,
)

-- What one round makes of the file: the next bytes are in place, and the gap has moved on.
round_lem :
    (wo : ℕ) (p m rest : List ℕ) (size n : ℕ)
    → wo ≡ length p
    → length m ≡ size
    → let chunk = take n rest in
      (m' : List ℕ) × (pwrite wo chunk (p ++ (m ++ rest))
        ≡ (p ++ chunk) ++ (m' ++ drop (length chunk) rest))
      × (length m' ≡ size)
round_lem wo p m rest size n hw h =
    let chunk = take n rest in
    let c = length chunk in
    let (m', e, l) = gap_lem size c m rest h (omega (arith, length-take n rest)) in
    (
      m',
      rw hw (pwrite-append p (m ++ rest) chunk)
          ∙ ap (λ q. p ++ (chunk ++ q)) e
          ∙ sym (append_assoc p chunk (m' ++ drop c rest)),
      l,
    )

chunk-drop : (n : ℕ) (l : List ℕ) → take n l ++ drop (length (take n l)) l ≡ l
chunk-drop zero l = refl
chunk-drop (suc n) [] = refl
chunk-drop (suc n) (x ∷ l) = ap (◌∷◌ x) (chunk-drop n l)

-- Equal prefixes have equal shorter prefixes.
take_less : (n b : ℕ) (x y : List ℕ) → n ≤ b → take b x ≡ take b y → take n x ≡ take n y
take_less n b x y h e = sym (take-take n b x h) ∙ ap (take n) e ∙ take-take n b y h

test_true : (d r c : ℕ) → (ltb d r && ltb 0 c) ≡ true → 0 < c
test_true d r c h = ground arith

test_false : (d r c : ℕ) → (ltb d r && ltb 0 c) ≡ false → (r ≤ d) ⊎ (c ≡ 0)
test_false d r c h = ground arith

-- The loop's file, from `p` already moved, `m` in the gap and `rest` still to move: the first
-- `readsize - d` bytes of `rest` follow `p` in the end.
pub copy_loop-take :
    (k d readsize size wo ri : ℕ) (p m rest : List ℕ)
    → wo ≡ length p
    → ri ≡ length p + size
    → length m ≡ size
    → readsize ≤ d + length rest
    → length rest < k
    → take (wo + (readsize - d)) (copy_loop k d readsize ri wo (p ++ (m ++ rest)))
      ≡ take (wo + (readsize - d)) (p ++ rest)
unfolding copy_loop
copy_loop-take zero d readsize size wo ri p m rest hw hr hm hd hk = absurd (omega arith)
copy_loop-take (suc k) d readsize size wo ri p m rest hw hr hm hd hk =
    let chunk = take bufsize rest in
    let c = length chunk in
    let n = wo + (readsize - d) in
    let read_e : pread ri bufsize (p ++ (m ++ rest)) ≡ chunk =
      rw hr (pread-rest p m rest size bufsize hm) in
    rw read_e (elim (Bool-cases (ltb d readsize && ltb 0 c)) [
      | inl e ↦
          let (m', w, l) = round_lem wo p m rest size bufsize hw hm in
          let pos = test_true d readsize c e in
          let le : n ≤ (wo + c) + (readsize - (d + c)) = omega arith in
          let ih =
            copy_loop-take k (d + c) readsize size (wo + c) (ri + c) (p ++ chunk) m' (drop c rest)
              (omega (arith, length-append p chunk)) (omega (arith, length-append p chunk)) l
              (omega (arith, length-drop c rest, length-take bufsize rest))
              (omega (arith, length-drop c rest, length-take bufsize rest)) in
          rw (e, w)
            (take_less n ((wo + c) + (readsize - (d + c))) _ _ le ih
              ∙ ap (take n)
                  (append_assoc p chunk (drop c rest) ∙ ap (λ q. p ++ q) (chunk-drop bufsize rest)))
      | inr e ↦
          let z : readsize - d ≡ 0 =
            omega (arith, length-take bufsize rest, test_false d readsize c e) in
          rw (
            e,
            z,
            take-add-append wo 0 p (m ++ rest) (sym hw),
            take-add-append wo 0 p rest (sym hw),
          )
    ])
