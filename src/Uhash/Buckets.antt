-- ===== src/Uhash/Buckets.antt =====
-- mbbsd/cache.c: what stays true of a bucket, seen as a list, when the table changes elsewhere.
use pttoldstable.Base.{
  ℕ, ◌≤◌, ◌<◌, ◌≡◌, ◌≢◌, refl, sym, ap, ◌∙◌, Bool, true, false, Option, none, some, List, [], ◌∷◌,
  ◌++◌, arith, ◌==◌, ==_iff, if◌then◌else◌, length, Bool-cases, Option-cases, inl, inr,
}
use pttoldstable.Uhash.{Shm, Slot, head, next, read, write, link, unlink, bucket}
use pttoldstable.Uhash.Chain.{
  Follows, Absent, Distinct, Outside, last_slot, slot_before, erase, slot_eq, Absent-Outside,
}

abbrev pub Hashed : Shm → ℕ → List ℕ → Type 0
Hashed s h [] = Unit
Hashed s h (n ∷ l) = (bucket (s.userid n) ≡ h) × Hashed s h l

pub Hashed-Absent :
    (s : Shm) (h m : ℕ) (l : List ℕ) → bucket (s.userid m) ≢ h → Hashed s h l → Absent m l
Hashed-Absent s h m [] ne a = tt
Hashed-Absent s h m (n ∷ l) ne a =
    (λ e. ne (ap (λ i. bucket (s.userid i)) e ∙ a.0), Hashed-Absent s h m l ne a.1)

-- The slots of one bucket are none of another's.
abbrev pub Apart : ℕ → List ℕ → Slot → Type 0
Apart h l q = Outside q l × (slot_eq q (head h) ≡ false)

abbrev pub AllNext : (Slot → Type 0) → List ℕ → Type 0
AllNext P [] = Unit
AllNext P (m ∷ l) = P (next m) × AllNext P l

pub last_slot-all :
    (P : Slot → Type 0) (p : Slot) (l : List ℕ) → P p → AllNext P l → P (last_slot p l)
last_slot-all P p [] h a = h
last_slot-all P p (m ∷ l) h a = last_slot-all P (next m) l a.0 a.1

pub slot_before-all :
    (P : Slot → Type 0) (n : ℕ) (p : Slot) (l : List ℕ) → P p → AllNext P l → P (slot_before n p l)
slot_before-all P n p [] h a = h
slot_before-all P n p (m ∷ l) h a = elim (Bool-cases (m == n)) [
  | inl same ↦ rw same h
  | inr other ↦ rw other (slot_before-all P n (next m) l a.0 a.1)
]

pub buckets-Apart :
    (s : Shm) (g h : ℕ) (l l' : List ℕ)
    → g ≢ h
    → Hashed s g l
    → Hashed s h l'
    → AllNext (Apart h l') l
buckets-Apart s g h [] l' ne a a' = tt
buckets-Apart s g h (m ∷ l) l' ne a a' = (
  (Absent-Outside m l' (Hashed-Absent s h m l' (λ e. ne (sym a.0 ∙ e)) a'), refl),
  buckets-Apart s g h l l' ne a.1 a',
)

-- The table does not look at the names, and a write to a slot does not touch them.
pub Follows-userid :
    (s : Shm) (f : ℕ → List ℕ) (o : Option ℕ) (l : List ℕ)
    → Follows s o l
    → Follows (record s { userid = f }) o l
unfolding read
Follows-userid s f o [] h = h
Follows-userid s f o (m ∷ l) h = (h.0, Follows-userid s f (s.next_in_hash m) l h.1)

userid-write : (s : Shm) (p : Slot) (v : Option ℕ) → (write s p v).userid ≡ s.userid
unfolding write
userid-write s (head h) v = refl
userid-write s (next n) v = refl

pub userid-link : (s : Shm) (p : Slot) (n : ℕ) → (link s p n).userid ≡ s.userid
unfolding link
userid-link s p n = userid-write (write s p (some n)) (next n) none ∙ userid-write s p (some n)

pub userid-unlink : (s : Shm) (p : Slot) (n : ℕ) → (unlink s p n).userid ≡ s.userid
unfolding unlink
userid-unlink s p n = elim (Option-cases (read s p)) [
  | inl z ↦ rw (z, unlink)
  | inr (m, z) ↦ rw (z, unlink) (kept (m == n))
]
  where
    kept : (b : Bool) → (if b then write s p (s.next_in_hash n) else s).userid ≡ s.userid
    kept true = userid-write s p (s.next_in_hash n)
    kept false = refl

pub Hashed-set :
    (s : Shm) (n h : ℕ) (id : List ℕ) (f : ℕ → List ℕ) (l : List ℕ)
    → Absent n l
    → ((i : ℕ) → i ≢ n → f i ≡ s.userid i)
    → Hashed s h l
    → Hashed (record s { userid = f }) h l
Hashed-set s n h id f [] a e x = tt
Hashed-set s n h id f (m ∷ l) a e x =
    (ap bucket (e m (λ z. a.0 (sym z))) ∙ x.0, Hashed-set s n h id f l a.1 e x.1)

pub Hashed-congr :
    (s s' : Shm) (h : ℕ) (l : List ℕ) → s'.userid ≡ s.userid → Hashed s h l → Hashed s' h l
Hashed-congr s s' h [] e x = tt
Hashed-congr s s' h (m ∷ l) e x =
    (ap (λ (f : ℕ → List ℕ). bucket (f m)) e ∙ x.0, Hashed-congr s s' h l e x.1)

pub Hashed-append :
    (s : Shm) (h n : ℕ) (l : List ℕ)
    → Hashed s h l
    → bucket (s.userid n) ≡ h
    → Hashed s h (l ++ n ∷ [])
Hashed-append s h n [] x e = (e, tt)
Hashed-append s h n (m ∷ l) x e = (x.0, Hashed-append s h n l x.1 e)

pub Absent-append : (m n : ℕ) (l : List ℕ) → Absent m l → m ≢ n → Absent m (l ++ n ∷ [])
Absent-append m n [] a ne = (ne, tt)
Absent-append m n (k ∷ l) a ne = (a.0, Absent-append m n l a.1 ne)

pub Distinct-append : (n : ℕ) (l : List ℕ) → Distinct l → Absent n l → Distinct (l ++ n ∷ [])
Distinct-append n [] d a = (tt, tt)
Distinct-append n (m ∷ l) d a =
    (Absent-append m n l d.0 (λ e. a.0 (sym e)), Distinct-append n l d.1 a.1)

pub Absent-erase : (m n : ℕ) (l : List ℕ) → Absent m l → Absent m (erase n l)
Absent-erase m n [] a = tt
Absent-erase m n (k ∷ l) a = elim (Bool-cases (k == n)) [
  | inl e ↦ rw e a.1
  | inr e ↦ rw e (a.0, Absent-erase m n l a.1)
]

pub Distinct-erase : (n : ℕ) (l : List ℕ) → Distinct l → Distinct (erase n l)
Distinct-erase n [] d = tt
Distinct-erase n (k ∷ l) d = elim (Bool-cases (k == n)) [
  | inl e ↦ rw e d.1
  | inr e ↦ rw e (Absent-erase k n l d.0, Distinct-erase n l d.1)
]

pub erase-Absent : (n : ℕ) (l : List ℕ) → Distinct l → Absent n (erase n l)
erase-Absent n [] d = tt
erase-Absent n (k ∷ l) d = elim (Bool-cases (k == n)) [
  | inl e ↦ let p : k ≡ n = (==_iff k n).0 e in rw e (rw p at d.0)
  | inr e ↦ rw e (ground arith, erase-Absent n l d.1)
]

pub Hashed-erase : (s : Shm) (h n : ℕ) (l : List ℕ) → Hashed s h l → Hashed s h (erase n l)
Hashed-erase s h n [] x = tt
Hashed-erase s h n (k ∷ l) x = elim (Bool-cases (k == n)) [
  | inl e ↦ rw e x.1
  | inr e ↦ rw e (x.0, Hashed-erase s h n l x.1)
]

pub length-erase : (n : ℕ) (l : List ℕ) → length (erase n l) ≤ length l
length-erase n [] = omega arith
length-erase n (k ∷ l) = ground (arith, length-erase n l)

pub erase_of_Absent : (n : ℕ) (l : List ℕ) → Absent n l → erase n l ≡ l
erase_of_Absent n [] a = refl
erase_of_Absent n (k ∷ l) a = ground (arith, a.0, erase_of_Absent n l a.1)

-- Every number of the list is below the bound.
abbrev pub Bounded : ℕ → List ℕ → Type 0
Bounded b [] = Unit
Bounded b (n ∷ l) = (n < b) × Bounded b l

pub Bounded-append : (b n : ℕ) (l : List ℕ) → Bounded b l → n < b → Bounded b (l ++ n ∷ [])
Bounded-append b n [] x h = (h, tt)
Bounded-append b n (m ∷ l) x h = (x.0, Bounded-append b n l x.1 h)

pub Bounded-erase : (b n : ℕ) (l : List ℕ) → Bounded b l → Bounded b (erase n l)
Bounded-erase b n [] x = tt
Bounded-erase b n (m ∷ l) x = elim (Bool-cases (m == n)) [
  | inl e ↦ rw e x.1
  | inr e ↦ rw e (x.0, Bounded-erase b n l x.1)
]
