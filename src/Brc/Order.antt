-- ===== src/Brc/Order.antt =====
-- mbbsd/brc.c: what `brc_addlist` does to the list, as an insertion into a list without indices.
use pttoldstable.Base.{
  ℕ, zero, suc, ◌+◌, ◌-◌, ◌≤◌, ◌<◌, ◌≡◌, refl, sym, ap, ◌∙◌, Bool, true, false, List, [], ◌∷◌, ◌++◌,
  arith, ltb, ◌==◌, if◌then◌else◌, length, take, drop, get_or, set, length-take, length-drop,
  length-set, inl, inr, Bool-cases,
}
use pttoldstable.Base.Take.{
  take-all, take-take, drop-cons, take-suc, take-add-append, take-set-below, drop-set_self,
  set-split, get_or-drop, window-set-above,
}
use mathlib.Core.List.{append_assoc}
use pttoldstable.Brc.{Brc, brc_maxnum, unread_loop, shift_loop, insert_at, addlist_loop}

-- The articles marked as read, newest first.
abbrev pub visible : Brc → List ℕ
visible s = take s.num s.list

-- The search of `brc_unread_time` over a list.
unfoldable pub scan : ℕ → List ℕ → Bool
scan t [] = false
scan t (x ∷ l) = if ltb x t then true else if t == x then false else scan t l

-- Insertion before the first entry that is not larger, unless it is equal; at the end nothing is
-- inserted.
unfoldable pub mark : ℕ → List ℕ → List ℕ
mark t [] = []
mark t (x ∷ l) = if t == x then x ∷ l else if ltb x t then t ∷ x ∷ l else x ∷ mark t l

pub unread_loop-scan :
    (k n t : ℕ) (l : List ℕ) → n + k ≤ length l → unread_loop k n t l ≡ scan t (take k (drop n l))
unfolding unread_loop scan
unread_loop-scan zero n t l h = refl
unread_loop-scan (suc k) n t l h =
    let e : n + 1 ≡ suc n = omega arith in
    rw (drop-cons n l 0 (omega arith), unread_loop-scan k (n + 1) t l (omega arith), e)
      (ground arith)

pub length-shift_loop : (k n : ℕ) (l : List ℕ) → length (shift_loop k n l) ≡ length l
unfolding shift_loop
length-shift_loop zero n l = refl
length-shift_loop (suc k) n l =
    length-shift_loop k n (set l (n + k + 1) (get_or l (n + k) 0)) ∙ length-set l _ _

-- A shift and the write at `n` insert an entry there, and lose the entry `k` places further on.
insert_lem :
    (k n v : ℕ) (l : List ℕ)
    → n + k < length l
    → set (shift_loop k n l) n v ≡ take n l ++ v ∷ (take k (drop n l) ++ drop (suc (n + k)) l)
unfolding shift_loop
insert_lem zero n v l h = let e : n + 0 ≡ n = omega arith in rw e (set-split n l v (omega arith))
insert_lem (suc k) n v l h =
    let x = get_or l (n + k) 0 in
    let e : n + k + 1 ≡ suc (n + k) = omega arith in
    let e' : suc (n + suc k) ≡ suc (suc (n + k)) = omega arith in
    rw (
      insert_lem k n v (set l (n + k + 1) x) (omega (arith, length-set l (n + k + 1) x)),
      e,
      e',
      take-set-below n (suc (n + k)) l x (omega arith),
      window-set-above n k (suc (n + k)) l x (omega arith),
      drop-set_self (suc (n + k)) l x (omega arith),
      take-suc k (drop n l) 0 (omega (arith, length-drop n l)),
      get_or-drop n k l 0,
      append_assoc (take k (drop n l)) (x ∷ []) (drop (suc (suc (n + k))) l),
    )

insert-visible :
    (k n v : ℕ) (l : List ℕ)
    → n + k < length l
    → take (n + suc k) (set (shift_loop k n l) n v) ≡ take n l ++ v ∷ take k (drop n l)
insert-visible k n v l h =
    rw
      (
        insert_lem k n v l h,
        take-add-append n (suc k) (take n l) (v ∷ (take k (drop n l) ++ drop (suc (n + k)) l))
            (omega (arith, length-take n l)),
      )
      (ap (λ w. take n l ++ v ∷ w)
        (take_append_self k (drop n l) _ (omega (arith, length-drop n l))))
  where
    take_append_self : (k : ℕ) (a b : List ℕ) → k ≤ length a → take k (take k a ++ b) ≡ take k a
    take_append_self zero a b h = refl
    take_append_self (suc k) [] b h = absurd (omega arith)
    take_append_self (suc k) (x ∷ a) b h = ap (◌∷◌ x) (take_append_self k a b (omega arith))

-- A prefix that is not longer than the array is cut at `n`.
cut-visible :
    (k n m : ℕ) (l : List ℕ)
    → n + k ≤ length l
    → k ≤ m
    → take (n + k) l ≡ take n l ++ take m (take k (drop n l))
cut-visible k n m l h j =
    rw (take-all m (take k (drop n l)) (omega (arith, length-take k (drop n l)))) (cut k n l h)
  where
    cut : (k n : ℕ) (l : List ℕ) → n + k ≤ length l → take (n + k) l ≡ take n l ++ take k (drop n l)
    cut k zero l h = let e : 0 + k ≡ k = omega arith in rw e
    cut k (suc n) [] h = absurd (omega arith)
    cut k (suc n) (x ∷ l) h =
        let e : suc n + k ≡ suc (n + k) = omega arith in rw e (ap (◌∷◌ x) (cut k n l (omega arith)))

module _ (k n t : ℕ) (s : Brc) (e : n + suc k ≡ s.num) (b : s.num ≤ brc_maxnum)
    (h : length s.list ≡ brc_maxnum) where
  -- The branch that inserts, by whether the array is full.
  insert-step :
      visible (insert_at n t s)
      ≡ take n s.list ++ take (brc_maxnum - n) (t ∷ take (suc k) (drop n s.list))
  unfolding insert_at
  insert-step = elim (Bool-cases (ltb s.num brc_maxnum)) [
    | inl room ↦
        let p : s.num + 1 ≡ n + suc (suc k) = omega arith in
        let q : n + suc (suc k) - 1 - n ≡ suc k = omega arith in
        let r : brc_maxnum - n ≡ suc (brc_maxnum - n - 1) = ground arith in
        rw (room, p, q, r, insert-visible (suc k) n t s.list (ground arith))
          (ap (λ w. take n s.list ++ t ∷ w)
            (sym (
              take-all (brc_maxnum - n - 1) (take (suc k) (drop n s.list))
                (ground (arith, length-take (suc k) (drop n s.list))))))
    | inr full ↦
        let p : s.num ≡ n + suc k = omega arith in
        let q : n + suc k - 1 - n ≡ k = omega arith in
        let r : brc_maxnum - n ≡ suc k = ground arith in
        rw (full, p, q, r, insert-visible k n t s.list (omega arith))
          (ap (λ w. take n s.list ++ t ∷ w)
            (sym (take-take k (suc k) (drop n s.list) (omega arith))))
  ]

-- The loop of `brc_addlist`, from entry `n` on.
pub addlist_loop-mark :
    (k n t : ℕ) (s : Brc)
    → n + k ≡ s.num
    → s.num ≤ brc_maxnum
    → length s.list ≡ brc_maxnum
    → visible (addlist_loop k n t s)
      ≡ take n s.list ++ take (brc_maxnum - n) (mark t (take k (drop n s.list)))
unfolding addlist_loop mark
addlist_loop-mark zero n t s e b h =
    rw (← e) (cut-visible 0 n (brc_maxnum - n) s.list (omega arith) (omega arith))
addlist_loop-mark (suc k) n t s e b h =
    let x = get_or s.list n 0 in
    let c : take (suc k) (drop n s.list) ≡ x ∷ take k (drop (suc n) s.list) =
      ap (take (suc k)) (drop-cons n s.list 0 (omega arith)) in
    elim (Bool-cases (t == x)) [
      | inl same ↦
          rw (c, same, ← e, ← c)
            (cut-visible (suc k) n (brc_maxnum - n) s.list (omega arith) (omega arith))
      | inr other ↦ elim (Bool-cases (ltb x t)) [
        | inl less ↦ rw (c, other, less, ← c) (insert-step k n t s e b h)
        | inr more ↦
            let p : n + 1 ≡ suc n = omega arith in
            let q : brc_maxnum - n ≡ suc (brc_maxnum - suc n) = omega arith in
            rw
              (
                c,
                other,
                more,
                addlist_loop-mark k (n + 1) t s (omega arith) b h,
                p,
                q,
                take-suc n s.list 0 (omega arith),
              )
              (append_assoc (take n s.list) (x ∷ []) _)
      ]
    ]
