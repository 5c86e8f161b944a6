-- ===== src/Uhash/Chain.antt =====
-- mbbsd/cache.c: a bucket of the table as a list of user numbers, and the two changes of a list.
use pttoldstable.Base.{
  ℕ, zero, suc, ◌<◌, ◌≡◌, ◌≢◌, refl, ◌∙◌, Bool, true, false, Option, none, some, List, [], ◌∷◌,
  ◌++◌, arith, ◌==◌, ==_iff, if◌then◌else◌, length, Bool-cases, Option-cases, inl, inr,
}
use pttoldstable.Uhash.{Shm, Slot, head, next, read, write, walk_end, walk_to, link, unlink}

-- The list of the numbers that are met from `o` on.
abbrev pub Follows : Shm → Option ℕ → List ℕ → Type 0
Follows s o [] = o ≡ none
Follows s o (n ∷ l) = (o ≡ some n) × Follows s (read s (next n)) l

abbrev pub Absent : ℕ → List ℕ → Type 0
Absent n [] = Unit
Absent n (m ∷ l) = (n ≢ m) × Absent n l

abbrev pub Distinct : List ℕ → Type 0
Distinct [] = Unit
Distinct (n ∷ l) = Absent n l × Distinct l

abbrev pub slot_eq : Slot → Slot → Bool
slot_eq (head a) (head b) = a == b
slot_eq (head a) (next b) = false
slot_eq (next a) (head b) = false
slot_eq (next a) (next b) = a == b

-- The slot is no `next` of a number of the list.
abbrev pub Outside : Slot → List ℕ → Type 0
Outside p [] = Unit
Outside p (m ∷ l) = (slot_eq p (next m) ≡ false) × Outside p l

pub read-write :
    (s : Shm) (p q : Slot) (v : Option ℕ)
    → read (write s p v) q ≡ (if slot_eq p q then v else read s q)
unfolding read write
read-write s (head a) (head b) v = ground arith
read-write s (head a) (next b) v = refl
read-write s (next a) (head b) v = refl
read-write s (next a) (next b) v = ground arith

read-write_self : (s : Shm) (p : Slot) (v : Option ℕ) → read (write s p v) p ≡ v
read-write_self s (head a) v = rw (read-write s (head a) (head a) v, (==_iff a a).1 refl)
read-write_self s (next a) v = rw (read-write s (next a) (next a) v, (==_iff a a).1 refl)

pub Absent-Outside : (n : ℕ) (l : List ℕ) → Absent n l → Outside (next n) l
Absent-Outside n [] a = tt
Absent-Outside n (m ∷ l) a = (ground arith, Absent-Outside n l a.1)

pub head-Outside : (h : ℕ) (l : List ℕ) → Outside (head h) l
head-Outside h [] = tt
head-Outside h (m ∷ l) = (refl, head-Outside h l)

-- A write outside a list does not change the list.
pub Follows-write :
    (s : Shm) (p : Slot) (v : Option ℕ) (l : List ℕ) (o : Option ℕ)
    → Outside p l
    → Follows s o l
    → Follows (write s p v) o l
Follows-write s p v [] o out f = f
Follows-write s p v (m ∷ l) o out f =
    (f.0, rw (read-write s p (next m) v, out.0) (Follows-write s p v l _ out.1 f.1))

-- The slot that ends the list.
abbrev pub last_slot : Slot → List ℕ → Slot
last_slot p [] = p
last_slot p (m ∷ l) = last_slot (next m) l

pub walk_end-last_slot :
    (k : ℕ) (s : Shm) (p : Slot) (l : List ℕ)
    → Follows s (read s p) l
    → length l < k
    → walk_end k s p ≡ some (last_slot p l)
unfolding walk_end
walk_end-last_slot zero s p l f h = absurd (omega arith)
walk_end-last_slot (suc k) s p [] f h = rw (f, walk_end)
walk_end-last_slot (suc k) s p (m ∷ l) f h =
    rw (f.0, walk_end) (walk_end-last_slot k s (next m) l f.1 (omega arith))

-- The slot before the number in the list, or that which ends the list.
abbrev pub slot_before : ℕ → Slot → List ℕ → Slot
slot_before n p [] = p
slot_before n p (m ∷ l) = if m == n then p else slot_before n (next m) l

pub walk_to-slot_before :
    (k : ℕ) (s : Shm) (p : Slot) (n : ℕ) (l : List ℕ)
    → Follows s (read s p) l
    → length l < k
    → walk_to k s p n ≡ some (slot_before n p l)
unfolding walk_to
walk_to-slot_before zero s p n l f h = absurd (omega arith)
walk_to-slot_before (suc k) s p n [] f h = rw (f, walk_to)
walk_to-slot_before (suc k) s p n (m ∷ l) f h =
    let ih = walk_to-slot_before k s (next m) n l f.1 (omega arith) in
    rw (f.0, walk_to, ih) (if_some _ _ (m == n))
  where
    if_some : (p q : Slot) (b : Bool) → (if b then some p else some q) ≡ some (if b then p else q)
    if_some p q true = refl
    if_some p q false = refl

-- A slot that is none of a list's is not its last one, nor the one before a number.
last_slot-ne :
    (p q : Slot) (l : List ℕ)
    → slot_eq p q ≡ false
    → Outside p l
    → slot_eq p (last_slot q l) ≡ false
last_slot-ne p q [] e out = e
last_slot-ne p q (m ∷ l) e out = last_slot-ne p (next m) l out.0 out.1

slot_before-ne :
    (n : ℕ) (p q : Slot) (l : List ℕ)
    → slot_eq p q ≡ false
    → Outside p l
    → slot_eq p (slot_before n q l) ≡ false
slot_before-ne n p q [] e out = e
slot_before-ne n p q (m ∷ l) e out = elim (Bool-cases (m == n)) [
  | inl same ↦ rw same e
  | inr other ↦ rw other (slot_before-ne n p (next m) l out.0 out.1)
]

slot_eq_comm : (p q : Slot) → slot_eq p q ≡ slot_eq q p
slot_eq_comm (head a) (head b) = ground arith
slot_eq_comm (head a) (next b) = refl
slot_eq_comm (next a) (head b) = refl
slot_eq_comm (next a) (next b) = ground arith

-- `add_to_uhash` at the last slot appends the number.
pub Follows-link :
    (s : Shm) (p : Slot) (n : ℕ) (l : List ℕ)
    → Follows s (read s p) l
    → Distinct l
    → Absent n l
    → Outside p l
    → slot_eq p (next n) ≡ false
    → let s' = link s (last_slot p l) n in Follows s' (read s' p) (l ++ n ∷ [])
unfolding link
Follows-link s p n [] f d a out ne =
    let e : slot_eq (next n) p ≡ false = slot_eq_comm (next n) p ∙ ne in
    (
      rw (read-write (write s p (some n)) (next n) p none, e) (read-write_self s p (some n)),
      read-write_self (write s p (some n)) (next n) none,
    )
Follows-link s p n (m ∷ l) f d a out ne =
    let q = last_slot (next m) l in
    let e : slot_eq (next n) p ≡ false = slot_eq_comm (next n) p ∙ ne in
    let e' : slot_eq q p ≡ false = slot_eq_comm q p ∙ last_slot-ne p (next m) l out.0 out.1 in
    (
      rw (read-write (write s q (some n)) (next n) p none, e, read-write s q p (some n), e') f.0,
      Follows-link s (next m) n l f.1 d.1 a.1 (Absent-Outside m l d.0) (ground (arith, a.0)),
    )

pub read-unlink :
    (s : Shm) (q p : Slot) (n : ℕ) → slot_eq q p ≡ false → read (unlink s q n) p ≡ read s p
unfolding unlink
read-unlink s q p n e = elim (Option-cases (read s q)) [
  | inl z ↦ rw (z, unlink)
  | inr (m, z) ↦ rw (z, unlink) (written (m == n))
]
  where
    written : (b : Bool) → read (if b then write s q (s.next_in_hash n) else s) p ≡ read s p
    written true = rw (read-write s q p (s.next_in_hash n), e)
    written false = refl

-- The list without the number.
abbrev pub erase : ℕ → List ℕ → List ℕ
erase n [] = []
erase n (m ∷ l) = if m == n then l else m ∷ erase n l

-- `remove_from_uhash` at the slot before the number takes it out.
pub Follows-unlink :
    (s : Shm) (p : Slot) (n : ℕ) (l : List ℕ)
    → Follows s (read s p) l
    → Distinct l
    → Outside p l
    → let s' = unlink s (slot_before n p l) n in Follows s' (read s' p) (erase n l)
unfolding unlink
Follows-unlink s p n [] f d out = rw (f, unlink) f
Follows-unlink s p n (m ∷ l) f d out = elim (Bool-cases (m == n)) [
  | inl same ↦
      let e : m ≡ n = (==_iff m n).0 same in
      rw (same, f.0, unlink, same, read-write_self s p (s.next_in_hash n), ← e)
        (Follows-write s p _ l _ out.1 f.1)
  | inr other ↦
      let q = slot_before n (next m) l in
      rw other (
        read-unlink s q p n (slot_eq_comm q p ∙ slot_before-ne n p (next m) l out.0 out.1) ∙ f.0,
        Follows-unlink s (next m) n l f.1 d.1 (Absent-Outside m l d.0),
      )
]
