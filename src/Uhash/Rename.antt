-- ===== src/Uhash/Rename.antt =====
-- mbbsd/cache.c: a user that `setuserid` names is found under the new name.
use pttoldstable.Base.{
  ℕ, zero, suc, ◌+◌, ◌-◌, ◌≤◌, ◌<◌, ◌≡◌, ◌≢◌, refl, ap, ◌∙◌, true, false, some, List, [], ◌∷◌, ◌++◌,
  arith, ◌==◌, ==_iff, if◌then◌else◌, length, Bool-cases, inl, inr, ℕ_discrete, ltb, leb,
}
use pttoldstable.Base.Text.{strcaseeq, strcaseeq_refl}
use pttoldstable.Uhash.{Shm, idlen, bucket, searchuser, setuserid}
use pttoldstable.Uhash.Chain.{erase}
use pttoldstable.Uhash.Buckets.{erase-Absent, length-erase}
use pttoldstable.Uhash.Search.{In, searchuser_lem}
use pttoldstable.Uhash.Update.{
  IsTable, with_number, without_number, add_to_uhash-IsTable, remove_from_uhash-IsTable,
}

In-append : (n : ℕ) (l : List ℕ) → In n (l ++ n ∷ [])
In-append n [] = inl refl
In-append n (m ∷ l) = inr (In-append n l)

In-of_append : (m n : ℕ) (l : List ℕ) → In m (l ++ n ∷ []) → m ≢ n → In m l
In-of_append m n [] (inl e) ne = absurd (ne e)
In-of_append m n [] (inr i) ne = absurd i
In-of_append m n (k ∷ l) (inl e) ne = inl e
In-of_append m n (k ∷ l) (inr i) ne = inr (In-of_append m n l i ne)

In-of_erase : (m n : ℕ) (l : List ℕ) → In m (erase n l) → In m l
In-of_erase m n [] i = i
In-of_erase m n (k ∷ l) i = elim (Bool-cases (k == n)) [
  | inl e ↦ inr (rw e at i)
  | inr e ↦
      let j : In m (k ∷ erase n l) = rw e at i in
      elim j [ inl p ↦ inl p | inr p ↦ inr (In-of_erase m n l p) ]
]

-- The bucket lists after `setuserid`.
abbrev pub renamed : ℕ → List ℕ → (ℕ → List ℕ) → ℕ → List ℕ
renamed n id chain = with_number (bucket id) n (without_number n chain)

module _ (max_users : ℕ) (s : Shm) (chain : ℕ → List ℕ) (t : IsTable max_users s chain) where
  setuserid-IsTable :
      (n : ℕ) (id : List ℕ)
      → n < max_users
      → length id ≤ idlen
      → length (chain (bucket id)) + 1 < max_users
      → (s' : Shm) × (setuserid max_users s (suc n) id ≡ some s')
        × IsTable max_users s' (renamed n id chain)
        × ((i : ℕ) → s'.userid i ≡ (if i == n then id else s.userid i))
  unfolding setuserid
  setuserid-IsTable n id lt fits room =
      let (s1, e1, t1, u1) = remove_from_uhash-IsTable max_users s chain t n in
      let (s2, e2, t2, u2) =
        add_to_uhash-IsTable max_users s1 (without_number n chain) t1 n id
          (λ h. erase-Absent n (chain h) (t.distinct h)) lt fits
          (omega (arith, length-erase n (chain (bucket id)))) in
      let same : suc n - 1 ≡ n = omega arith in
      let lo : ltb 0 (suc n) ≡ true = ground arith in
      let hi : leb (suc n) max_users ≡ true = ground arith in
      (s2, rw (lo, hi, same, e1, setuserid, same) e2, t2, λ i. u2 i ∙ rw u1)

  found :
      (n : ℕ) (id : List ℕ) (s' : Shm)
      → IsTable max_users s' (renamed n id chain)
      → ((i : ℕ) → s'.userid i ≡ (if i == n then id else s.userid i))
      → ((h m : ℕ) → In m (chain h) → m ≢ n → strcaseeq (s.userid m) id ≡ false)
      → (searchuser max_users s' id).0 ≡ suc n
  found n id s' t' names alone = answer (searchuser max_users s' id).0 refl
    where
      g : ℕ
      g = bucket id

      has_name : strcaseeq (s'.userid n) id ≡ true
      has_name = rw (names n, (==_iff n n).1 refl) (strcaseeq_refl id)

      within : In n (renamed n id chain g)
      within = rw ((==_iff g g).1 refl) (In-append n (erase n (chain g)))

      sound :
          (n' : ℕ)
          → (searchuser max_users s' id).0 ≡ suc n'
          → In n' (renamed n id chain g) × (strcaseeq (s'.userid n') id ≡ true)
      sound = (searchuser_lem max_users s' (renamed n id chain) t' id).0

      only : (m : ℕ) → In m (renamed n id chain g) × (strcaseeq (s'.userid m) id ≡ true) → m ≡ n
      only m (i, e) = elim (ℕ_discrete m n) [
        | yes p ↦ p
        | no ne ↦
            let other : m == n ≡ false = ground (arith, ne) in
            let j : In m (erase n (chain g) ++ n ∷ []) = rw ((==_iff g g).1 refl) at i in
            let e' : strcaseeq (s.userid m) id ≡ true = rw (names m, other) at e in
            absurd (cc (alone g m (In-of_erase m n (chain g) (In-of_append m n _ j ne)) ne, e'))
      ]

      answer : (u : ℕ) → (searchuser max_users s' id).0 ≡ u → (searchuser max_users s' id).0 ≡ suc n
      answer zero e =
          absurd
            (cc ((searchuser_lem max_users s' (renamed n id chain) t' id).1 e g n within, has_name))
      answer (suc m) e = e ∙ ap suc (only m (sound m e))

  -- On a valid table, after `setuserid` of a user below MAX_USERS under a name that fits its field, that
  -- no other user of its bucket has, up to case, and whose bucket has room, the table is valid again and
  -- `searchuser` of that name gives the user. The call does not abort.
  pub setuserid-searchuser :
      (n : ℕ) (id : List ℕ)
      → n < max_users
      → length id ≤ idlen
      → length (chain (bucket id)) + 1 < max_users
      → ((h m : ℕ) → In m (chain h) → m ≢ n → strcaseeq (s.userid m) id ≡ false)
      → (s' : Shm) × (setuserid max_users s (suc n) id ≡ some s')
        × IsTable max_users s' (renamed n id chain)
        × ((searchuser max_users s' id).0 ≡ suc n)
  setuserid-searchuser n id lt fits room alone =
      let r = setuserid-IsTable n id lt fits room in (r.0, r.1, r.2, found n id r.0 r.2 r.3 alone)
