-- ===== src/Uhash/Search.antt =====
-- mbbsd/cache.c: `searchuser` finds exactly the users that the table holds, without regard to case.
use pttoldstable.Base.{
  ℕ, zero, suc, ◌%◌, ◌^◌, ◌<◌, ◌≡◌, ◌⊎◌, refl, sym, ap, ◌∙◌, true, false, Option, none, some, List,
  [], ◌∷◌, arith, ◌==◌, ==_iff, if◌then◌else◌, length, Bool-cases, Option-cases, inl, inr, and_true,
}
use pttoldstable.Base.Text.{tolower, strcaseeq, toupper_of_tolower}
use pttoldstable.Uhash.{Shm, read, bucket, string_hash, fnv1a_32_strcase, search_loop, searchuser}
use pttoldstable.Uhash.Chain.{Follows}
use pttoldstable.Uhash.Buckets.{Hashed, Bounded}
use pttoldstable.Uhash.Update.{IsTable}

fnv-strcaseeq :
    (a b : List ℕ) (hval : ℕ)
    → strcaseeq a b ≡ true
    → fnv1a_32_strcase a hval ≡ fnv1a_32_strcase b hval
unfolding strcaseeq fnv1a_32_strcase
fnv-strcaseeq [] [] hval h = refl
fnv-strcaseeq [] (d ∷ b) hval h = cc
fnv-strcaseeq (c ∷ a) [] hval h = cc
fnv-strcaseeq (c ∷ a) (d ∷ b) hval h =
    let p = and_true (tolower c == tolower d) (strcaseeq a b) h in
    rw (toupper_of_tolower c d ((==_iff (tolower c) (tolower d)).0 p.0)) (fnv-strcaseeq a b _ p.1)

-- Names that differ in case only have one hash value.
pub string_hash-strcaseeq : (a b : List ℕ) → strcaseeq a b ≡ true → string_hash a ≡ string_hash b
unfolding string_hash
string_hash-strcaseeq a b h = fnv-strcaseeq a b 33554467 h

abbrev pub In : ℕ → List ℕ → Type 0
In n [] = ⊥
In n (m ∷ l) = (n ≡ m) ⊎ In n l

-- The first number of the list with the name.
unfoldable pub find_name : Shm → List ℕ → List ℕ → Option ℕ
find_name s [] id = none
find_name s (n ∷ l) id = if strcaseeq (s.userid n) id then some n else find_name s l id

search_loop-find_name :
    (max_users k : ℕ) (s : Shm) (o : Option ℕ) (l id : List ℕ)
    → Follows s o l
    → length l < k
    → Bounded max_users l
    → search_loop max_users k s o id ≡ find_name s l id
unfolding search_loop find_name read
search_loop-find_name max_users zero s o l id f h b = absurd (omega arith)
search_loop-find_name max_users (suc k) s o [] id f h b = rw (f, search_loop)
search_loop-find_name max_users (suc k) s o (n ∷ l) id f h b =
    rw
      (
        f.0,
        search_loop,
        search_loop-find_name max_users k s (s.next_in_hash n) l id f.1 (omega arith) b.1,
      )
      (ground (arith, b.0))

find_name-some :
    (s : Shm) (l id : List ℕ) (n : ℕ)
    → find_name s l id ≡ some n
    → In n l × (strcaseeq (s.userid n) id ≡ true)
unfolding find_name
find_name-some s [] id n h = cc
find_name-some s (m ∷ l) id n h = elim (Bool-cases (strcaseeq (s.userid m) id)) [
  | inl e ↦ (inl (ground (arith, e)), ground (arith, e))
  | inr e ↦ let r = find_name-some s l id n (rw e at h) in (inr r.0, r.1)
]

find_name-none :
    (s : Shm) (l id : List ℕ)
    → find_name s l id ≡ none
    → (n : ℕ) → In n l
    → strcaseeq (s.userid n) id ≡ false
unfolding find_name
find_name-none s [] id h n i = absurd i
find_name-none s (m ∷ l) id h n (inl e) = rw e (ground arith)
find_name-none s (m ∷ l) id h n (inr i) = find_name-none s l id (ground arith) n i

Hashed-In : (s : Shm) (h n : ℕ) (l : List ℕ) → Hashed s h l → In n l → bucket (s.userid n) ≡ h
Hashed-In s h n [] x i = absurd i
Hashed-In s h n (m ∷ l) x (inl e) = rw e x.0
Hashed-In s h n (m ∷ l) x (inr i) = Hashed-In s h n l x.1 i

module _ (max_users : ℕ) (s : Shm) (chain : ℕ → List ℕ) (t : IsTable max_users s chain) where
  searchuser-find_name :
      (id : List ℕ)
      → search_loop max_users max_users s (s.hash_head (bucket id)) id
        ≡ find_name s (chain (bucket id)) id
  searchuser-find_name id =
      let g = bucket id in
      search_loop-find_name max_users max_users s (s.hash_head g) (chain g) id (t.follows g)
        (t.short g) (t.bounded g)

  -- On a valid table, a number that `searchuser` returns is one more than a number of the table whose name is equal up
  -- to case; it returns 0 only if no number of the table has such a name.
  pub searchuser_lem :
      (id : List ℕ)
      → ((n : ℕ)
          → (searchuser max_users s id).0 ≡ suc n
          → In n (chain (bucket id)) × (strcaseeq (s.userid n) id ≡ true))
        × ((searchuser max_users s id).0 ≡ 0
            → (h n : ℕ) → In n (chain h)
            → strcaseeq (s.userid n) id ≡ false)
  unfolding searchuser
  searchuser_lem id = elim (Option-cases (find_name s (chain (bucket id)) id)) [
    | inl z ↦
        let e = searchuser-find_name id ∙ z in
        (
          λ n. rw (e, searchuser) (λ h. absurd (omega arith)),
          λ q h n i. elim (Bool-cases (strcaseeq (s.userid n) id)) [
            | inr no_name ↦ no_name
            | inl name ↦
                let same : h ≡ bucket id =
                  sym (Hashed-In s h n (chain h) (t.hashed h) i)
                  ∙ ap (λ (k : ℕ). k % 2 ^ 16) (string_hash-strcaseeq (s.userid n) id name) in
                find_name-none s (chain (bucket id)) id z n (rw same at i)
          ],
        )
    | inr (m, z) ↦
        let e = searchuser-find_name id ∙ z in
        let f = find_name-some s (chain (bucket id)) id m z in
        (
          λ n. rw (e, searchuser) (λ h. let w : m ≡ n = omega arith in rw w at f),
          rw (e, searchuser) (λ h. absurd (omega arith)),
        )
  ]
