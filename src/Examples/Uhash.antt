-- ===== src/Examples/Uhash.antt =====
-- mbbsd/cache.c: the table of user names at a concrete state.
use pttoldstable.Base.{
  ℕ, suc, ◌≡◌, sym, inl, inr, refl, true, false, none, some, List, [], ◌∷◌, arith, ◌==◌,
  if◌then◌else◌, Bool-cases, ==_iff,
}
use pttoldstable.Base.Text.{strcaseeq}
use pttoldstable.Uhash.{Shm, read, bucket, searchuser, setuserid, add_to_uhash, remove_from_uhash}
use pttoldstable.Uhash.Search.{In, searchuser_lem}
use pttoldstable.Uhash.Chain.{Absent}
use pttoldstable.Uhash.Update.{
  IsTable, with_number, without_number, add_to_uhash-IsTable, remove_from_uhash-IsTable,
}
use pttoldstable.Uhash.Rename.{renamed, setuserid-searchuser}

-- The bucket of the name `ab`.
abbrev g : ℕ
g = bucket (97 ∷ 98 ∷ [])

-- The user with index 0 is `ab`.
abbrev one_user : Shm
one_user = record {
  userid = λ i. if i == 0 then 97 ∷ 98 ∷ [] else [];
  hash_head = λ h. if h == g then some 0 else none;
  next_in_hash = λ i. none;
}

abbrev one_chain : ℕ → List ℕ
one_chain h = if h == g then 0 ∷ [] else []

one_user-IsTable : IsTable 4 one_user one_chain
unfolding read
one_user-IsTable = record {
  follows = λ h. elim (Bool-cases (h == g)) [ inl e ↦ rw e (refl, refl) | inr e ↦ rw e refl ];
  distinct = λ h. elim (Bool-cases (h == g)) [ inl e ↦ rw e (tt, tt) | inr e ↦ rw e tt ];
  hashed = λ h. elim (Bool-cases (h == g)) [
    | inl e ↦ let same : h ≡ g = (==_iff h g).0 e in rw e (sym same, tt)
    | inr e ↦ rw e tt
  ];
  short = λ h. ground arith;
  bounded = λ h. elim (Bool-cases (h == g)) [ inl e ↦ rw e (omega arith, tt) | inr e ↦ rw e tt ];
}

only_zero : (h m : ℕ) → In m (one_chain h) → m ≡ 0
only_zero h m i = elim (Bool-cases (h == g)) [
  | inl e ↦ let j : In m (0 ∷ []) = rw e at i in elim j [ inl p ↦ p | inr q ↦ absurd q ]
  | inr e ↦ let j : In m [] = rw e at i in absurd j
]

new-Absent : (h : ℕ) → Absent 1 (one_chain h)
new-Absent h = elim (Bool-cases (h == g)) [ inl e ↦ rw e (ground arith, tt) | inr e ↦ rw e tt ]

add_to_uhash-IsTable_example :
    (s' : Shm) × (add_to_uhash 4 one_user 1 (97 ∷ 98 ∷ []) ≡ some s')
    × IsTable 4 s' (with_number g 1 one_chain)
    × ((i : ℕ) → s'.userid i ≡ (if i == 1 then 97 ∷ 98 ∷ [] else one_user.userid i))
add_to_uhash-IsTable_example =
    add_to_uhash-IsTable 4 one_user one_chain one_user-IsTable 1 (97 ∷ 98 ∷ []) new-Absent
      (omega arith) (omega arith) (ground arith)

remove_from_uhash-IsTable_example :
    (s' : Shm) × (remove_from_uhash 4 one_user 0 ≡ some s')
    × IsTable 4 s' (without_number 0 one_chain)
    × (s'.userid ≡ one_user.userid)
remove_from_uhash-IsTable_example =
    remove_from_uhash-IsTable 4 one_user one_chain one_user-IsTable 0

-- The search for AB.
searchuser_lem_example :
    ((n : ℕ)
      → (searchuser 4 one_user (65 ∷ 66 ∷ [])).0 ≡ suc n
      → In n (one_chain (bucket (65 ∷ 66 ∷ [])))
        × (strcaseeq (one_user.userid n) (65 ∷ 66 ∷ []) ≡ true))
    × ((searchuser 4 one_user (65 ∷ 66 ∷ [])).0 ≡ 0
        → (h n : ℕ) → In n (one_chain h)
        → strcaseeq (one_user.userid n) (65 ∷ 66 ∷ []) ≡ false)
searchuser_lem_example = searchuser_lem 4 one_user one_chain one_user-IsTable (65 ∷ 66 ∷ [])

-- The user `ab` becomes `cd`.
setuserid-searchuser_example :
    (s' : Shm) × (setuserid 4 one_user 1 (99 ∷ 100 ∷ []) ≡ some s')
    × IsTable 4 s' (renamed 0 (99 ∷ 100 ∷ []) one_chain)
    × ((searchuser 4 s' (99 ∷ 100 ∷ [])).0 ≡ 1)
setuserid-searchuser_example =
    setuserid-searchuser 4 one_user one_chain one_user-IsTable 0 (99 ∷ 100 ∷ []) (omega arith)
      (omega arith) (ground arith) (λ h m i ne. absurd (ne (only_zero h m i)))
