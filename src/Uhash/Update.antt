-- ===== src/Uhash/Update.antt =====
-- mbbsd/cache.c: the operations of the table as operations on its buckets, seen as lists.
use pttoldstable.Base.{
  ℕ, ◌+◌, ◌≤◌, ◌<◌, ◌≡◌, ◌≢◌, refl, sym, ap, ◌∙◌, Bool, true, false, none, some, List, [], ◌∷◌,
  ◌++◌, arith, ◌==◌, ==_iff, if◌then◌else◌, length, length-append, Bool-cases, Option-cases, inl,
  inr, take, ℕ_discrete,
}
use pttoldstable.Base.Take.{take-all}
use pttoldstable.Uhash.{
  Shm, Slot, head, next, read, write, link, unlink, idlen, bucket, add_to_uhash, remove_from_uhash,
}
use pttoldstable.Uhash.Chain.{
  Follows, Absent, Distinct, last_slot, slot_before, erase, head-Outside, read-write,
  walk_end-last_slot, walk_to-slot_before, Follows-link, Follows-unlink, Follows-write,
  Absent-Outside,
}
use pttoldstable.Uhash.Buckets.{
  Hashed, Hashed-Absent, Apart, last_slot-all, slot_before-all, buckets-Apart, Follows-userid,
  userid-link, userid-unlink, Hashed-set, Hashed-congr, Hashed-append, Distinct-append,
  Distinct-erase, Hashed-erase, length-erase, erase_of_Absent, Bounded, Bounded-append,
  Bounded-erase,
}

module _ (max_users : ℕ) where
  -- The buckets hold the lists: each number at most once, in the bucket of its name, and fewer than
  -- the rounds of the loops.
  pub record IsTable (s : Shm) (chain : ℕ → List ℕ) : Type 0 where
    pub follows : (h : ℕ) → Follows s (s.hash_head h) (chain h)
    pub distinct : (h : ℕ) → Distinct (chain h)
    pub hashed : (h : ℕ) → Hashed s h (chain h)
    pub short : (h : ℕ) → length (chain h) < max_users
    pub bounded : (h : ℕ) → Bounded max_users (chain h)

-- A link or an unlink in one bucket leaves the others.
link-other :
    (s : Shm) (q : Slot) (n h : ℕ) (l : List ℕ)
    → Apart h l q
    → Absent n l
    → Follows s (s.hash_head h) l
    → Follows (link s q n) ((link s q n).hash_head h) l
unfolding link read
link-other s q n h l a ab f =
    let e : read (link s q n) (head h) ≡ s.hash_head h =
      read-write (write s q (some n)) (next n) (head h) none
      ∙ read-write s q (head h) (some n)
      ∙ rw a.1 in
    rw e (
      Follows-write (write s q (some n)) (next n) none l _ (Absent-Outside n l ab)
        (Follows-write s q (some n) l _ a.0 f))

unlink-other :
    (s : Shm) (q : Slot) (n h : ℕ) (l : List ℕ)
    → Apart h l q
    → Follows s (s.hash_head h) l
    → Follows (unlink s q n) ((unlink s q n).hash_head h) l
unfolding unlink read
unlink-other s q n h l a f = elim (Option-cases (read s q)) [
  | inl z ↦ rw (z, unlink) f
  | inr (m, z) ↦ rw (z, unlink) (kept (m == n))
]
  where
    kept :
        (b : Bool)
        → let s' = if b then write s q (s.next_in_hash n) else s in Follows s' (s'.hash_head h) l
    kept true =
        let e : read (write s q (s.next_in_hash n)) (head h) ≡ s.hash_head h =
          read-write s q (head h) (s.next_in_hash n) ∙ rw a.1 in
        rw e (Follows-write s q _ l _ a.0 f)
    kept false = f

-- The buckets after an insertion and after a removal.
abbrev pub with_number : ℕ → ℕ → (ℕ → List ℕ) → ℕ → List ℕ
with_number g n chain h = if h == g then chain h ++ n ∷ [] else chain h

abbrev pub without_number : ℕ → (ℕ → List ℕ) → ℕ → List ℕ
without_number n chain h = erase n (chain h)

module _ (max_users : ℕ) (s : Shm) (chain : ℕ → List ℕ) (t : IsTable max_users s chain) where
  -- On a valid table, `add_to_uhash` of a number below MAX_USERS that the table does not hold, under a
  -- name that fits its field and whose bucket has room, puts the number at the end of the bucket and
  -- leaves the other buckets and names. It does not abort, and the table is valid again.
  pub add_to_uhash-IsTable :
      (n : ℕ) (id : List ℕ)
      → ((h : ℕ) → Absent n (chain h))
      → n < max_users
      → length id ≤ idlen
      → length (chain (bucket id)) + 1 < max_users
      → (s' : Shm) × (add_to_uhash max_users s n id ≡ some s')
        × IsTable max_users s' (with_number (bucket id) n chain)
        × ((i : ℕ) → s'.userid i ≡ (if i == n then id else s.userid i))
  unfolding add_to_uhash read
  add_to_uhash-IsTable n id ab lt fits room =
      let g = bucket id in
      let p = head g in
      let l = chain g in
      let q = last_slot p l in
      let f = λ (i : ℕ). if i == n then take idlen id else s.userid i in
      let s1 : Shm = record s { userid = f } in
      let own : f n ≡ id = rw (take-all idlen id fits, (==_iff n n).1 refl) in
      let rest : (i : ℕ) → i ≢ n → f i ≡ s.userid i = λ i ne. ground (arith, ne) in
      let follows1 : (h : ℕ) → Follows s1 (s1.hash_head h) (chain h) =
        λ h. Follows-userid s f (s.hash_head h) (chain h) (t.follows h) in
      let hashed1 : (h : ℕ) → Hashed s1 h (chain h) =
        λ h. Hashed-set s n h id f (chain h) (ab h) rest (t.hashed h) in
      let same : (link s1 q n).userid ≡ f = userid-link s1 q n in
      (
        link s1 q n,
        rw (walk_end-last_slot max_users s1 p l (follows1 g) (t.short g), add_to_uhash),
        record {
          follows = λ h. elim (ℕ_discrete h g) [
            | yes e ↦
                rw (e, (==_iff g g).1 refl)
                  (Follows-link s1 p n l (follows1 g) (t.distinct g) (ab g) (head-Outside g l) refl)
            | no ne ↦
                let differ : h == g ≡ false = ground (arith, ne) in
                rw differ (
                  link-other s1 q n h (chain h)
                    (last_slot-all (Apart h (chain h)) p l
                      (head-Outside g (chain h), ground (arith, ne))
                      (buckets-Apart s1 g h l (chain h) (λ e. ne (sym e)) (hashed1 g) (hashed1 h)))
                    (ab h) (follows1 h))
          ];
          distinct = λ h. elim (Bool-cases (h == g)) [
            | inl e ↦ rw e (Distinct-append n (chain h) (t.distinct h) (ab h))
            | inr e ↦ rw e (t.distinct h)
          ];
          hashed = λ h. elim (Bool-cases (h == g)) [
            | inl e ↦ rw e (
                Hashed-congr s1 (link s1 q n) h (chain h ++ n ∷ []) same (
                  Hashed-append s1 h n (chain h) (hashed1 h)
                    (ap bucket own ∙ sym ((==_iff h g).0 e))))
            | inr e ↦ rw e (Hashed-congr s1 (link s1 q n) h (chain h) same (hashed1 h))
          ];
          short = λ h. elim (Bool-cases (h == g)) [
            | inl e ↦
                let z : h ≡ g = (==_iff h g).0 e in
                rw (e, z) (omega (arith, length-append (chain g) (n ∷ []), room))
            | inr e ↦ rw e (t.short h)
          ];
          bounded = λ h. elim (Bool-cases (h == g)) [
            | inl e ↦ rw e (Bounded-append max_users n (chain h) (t.bounded h) lt)
            | inr e ↦ rw e (t.bounded h)
          ];
        },
        λ i. ap (λ (u : ℕ → List ℕ). u i) same ∙ rw (take-all idlen id fits),
      )

  -- On a valid table, `remove_from_uhash` takes the number out of its bucket, if it is there, and leaves
  -- the other buckets and the names. It does not abort, and the table is valid again.
  pub remove_from_uhash-IsTable :
      (n : ℕ)
      → (s' : Shm) × (remove_from_uhash max_users s n ≡ some s')
        × IsTable max_users s' (without_number n chain)
        × (s'.userid ≡ s.userid)
  unfolding remove_from_uhash read
  remove_from_uhash-IsTable n =
      let g = bucket (s.userid n) in
      let p = head g in
      let l = chain g in
      let q = slot_before n p l in
      (
        unlink s q n,
        rw (walk_to-slot_before max_users s p n l (t.follows _) (t.short _), remove_from_uhash),
        record {
          follows = λ h. elim (ℕ_discrete h g) [
            | yes e ↦ rw e (Follows-unlink s p n l (t.follows g) (t.distinct g) (head-Outside g l))
            | no ne ↦
                rw
                  (erase_of_Absent n (chain h)
                    (Hashed-Absent s h n (chain h) (λ e. ne (sym e)) (t.hashed h)))
                  (unlink-other s q n h (chain h)
                    (slot_before-all (Apart h (chain h)) n p l
                      (head-Outside g (chain h), ground (arith, ne))
                      (buckets-Apart s g h l (chain h) (λ e. ne (sym e)) (t.hashed g) (t.hashed h)))
                    (t.follows h))
          ];
          distinct = λ h. Distinct-erase n (chain h) (t.distinct h);
          hashed = λ h.
              Hashed-erase (unlink s q n) h n (chain h)
                (Hashed-congr s (unlink s q n) h (chain h) (userid-unlink s q n) (t.hashed h));
          short = λ h. omega (arith, length-erase n (chain h), t.short h);
          bounded = λ h. Bounded-erase max_users n (chain h) (t.bounded h);
        },
        userid-unlink s q n,
      )
