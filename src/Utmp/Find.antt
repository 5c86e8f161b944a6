-- ===== src/Utmp/Find.antt =====
-- mbbsd/cache.c: what the searches of sessions and boards return.
use Prim.Native.Nat.{Ordering}
use pttoldstable.Base.{
  ℕ, suc, ◌-◌, ◌≤◌, ◌<◌, ◌≡◌, ◌≢◌, ◌⊎◌, inl, inr, refl, true, false, arith, List, [], ◌∷◌, none,
  some, ◌==◌, ℕ_discrete,
}
use pttoldstable.Utmp.{
  Outcome, at, nowhere, unfinished, Utmp, Boards, strcasecmp, bsearch, pid_sign, userid_sign,
  search_ulist_pid, search_ulist_userid, getbnum,
}
use pttoldstable.Utmp.Bsearch.{Sorted, Searched, bsearch-Searched}

-- The order that `strcasecmp` gives is transitive.
lt-strcasecmp :
    (x a b : List ℕ)
    → strcasecmp x a ≡ Ordering.lt
    → strcasecmp a b ≢ Ordering.gt
    → strcasecmp x b ≡ Ordering.lt
unfolding strcasecmp
lt-strcasecmp [] [] b h k = cc
lt-strcasecmp [] (c ∷ a) [] h k = absurd (k refl)
lt-strcasecmp [] (c ∷ a) (d ∷ b) h k = refl
lt-strcasecmp (e ∷ x) [] b h k = cc
lt-strcasecmp (e ∷ x) (c ∷ a) [] h k = absurd (k refl)
lt-strcasecmp (e ∷ x) (c ∷ a) (d ∷ b) h k = ground (arith, lt-strcasecmp x a b)

gt-strcasecmp :
    (x a b : List ℕ)
    → strcasecmp x b ≡ Ordering.gt
    → strcasecmp a b ≢ Ordering.gt
    → strcasecmp x a ≡ Ordering.gt
unfolding strcasecmp
gt-strcasecmp [] [] [] h k = cc
gt-strcasecmp [] (c ∷ a) [] h k = cc
gt-strcasecmp [] a (d ∷ b) h k = cc
gt-strcasecmp (e ∷ x) [] b h k = refl
gt-strcasecmp (e ∷ x) (c ∷ a) [] h k = absurd (k refl)
gt-strcasecmp (e ∷ x) (c ∷ a) (d ∷ b) h k = ground (arith, gt-strcasecmp x a b)

abbrev pub ByPid : Utmp → Type 0
ByPid u =
    (i j : ℕ) → i ≤ j → j < u.utmpnumber → (u.uinfo (u.by_pid i)).pid ≤ (u.uinfo (u.by_pid j)).pid

abbrev pub ByUserid : Utmp → Type 0
ByUserid u =
    (i j : ℕ)
    → i ≤ j
    → j < u.utmpnumber
    → strcasecmp (u.uinfo (u.by_userid i)).userid (u.uinfo (u.by_userid j)).userid ≢ Ordering.gt

abbrev pub ByName : Boards → Type 0
ByName b =
    (i j : ℕ)
    → i ≤ j
    → j < b.bnumber
    → strcasecmp (b.brdname (b.bsorted i)) (b.brdname (b.bsorted j)) ≢ Ordering.gt

-- The two ends of a search, with their equations.
Searched-cases :
    (sign : ℕ → Ordering) (n : ℕ) (o : Outcome)
    → Searched sign n o
    → ((i : ℕ) × (o ≡ at i) × (i < n) × (sign i ≡ Ordering.eq))
      ⊎ ((o ≡ nowhere) × ((i : ℕ) → i < n → sign i ≢ Ordering.eq))
Searched-cases sign n (at i) h = inl (i, refl, h.0, h.1)
Searched-cases sign n nowhere h = inr (refl, h)
Searched-cases sign n unfinished h = absurd h

pid-Sorted :
    (u : Utmp) (pid : ℕ) → 0 < u.utmpnumber → ByPid u → Sorted (pid_sign u pid) (u.utmpnumber - 1)
pid-Sorted u pid pos sorted i j l h =
    let le = sorted i j l (omega arith) in (λ e. ground arith, λ e. ground arith)

userid-Sorted :
    (u : Utmp) (userid : List ℕ)
    → 0 < u.utmpnumber
    → ByUserid u
    → Sorted (userid_sign u userid) (u.utmpnumber - 1)
userid-Sorted u userid pos sorted i j l h =
    let le = sorted i j l (omega arith) in
    (λ e. lt-strcasecmp userid _ _ e le, λ e. gt-strcasecmp userid _ _ e le)

name-Sorted :
    (b : Boards) (bname : List ℕ)
    → 0 < b.bnumber
    → ByName b
    → Sorted (λ i. strcasecmp bname (b.brdname (b.bsorted i))) (b.bnumber - 1)
name-Sorted b bname pos sorted i j l h =
    let le = sorted i j l (omega arith) in
    (λ e. lt-strcasecmp bname _ _ e le, λ e. gt-strcasecmp bname _ _ e le)

-- In an index sorted by pid `search_ulist_pid` returns only a session of that pid, and the null
-- pointer only if no session has it.
pub search_ulist_pid_lem :
    (u : Utmp) (pid : ℕ)
    → ByPid u
    → ((k : ℕ) → search_ulist_pid u pid ≡ some k → (u.uinfo k).pid ≡ pid)
      × (search_ulist_pid u pid ≡ none
          → (i : ℕ) → i < u.utmpnumber
          → (u.uinfo (u.by_pid i)).pid ≢ pid)
unfolding search_ulist_pid
search_ulist_pid_lem u pid sorted = elim (ℕ_discrete u.utmpnumber 0) [
  | yes z ↦
      let t : u.utmpnumber == 0 ≡ true = ground arith in
      rw t (λ k. cc, λ e i l. absurd (omega arith))
  | no z ↦
      let t : u.utmpnumber == 0 ≡ false = ground arith in
      let n = u.utmpnumber in
      elim (Searched-cases (pid_sign u pid) n (bsearch (pid_sign u pid) n) (
        bsearch-Searched (pid_sign u pid) n (omega arith)
          (pid-Sorted u pid (omega arith) sorted))) [
            | inl (i, e, l, eq) ↦ rw (t, e, search_ulist_pid) (λ k h. ground arith, λ h. cc)
            | inr (e, absent) ↦
                rw (t, e, search_ulist_pid) (λ k h. cc, λ h i l q. absent i l (ground arith))
          ]
]

-- In an index sorted by name `search_ulist_userid` returns only a session of a user whose name is
-- equal up to case, and the null pointer only if there is none.
pub search_ulist_userid_lem :
    (u : Utmp) (userid : List ℕ)
    → ByUserid u
    → ((k : ℕ)
        → search_ulist_userid u userid ≡ some k
        → strcasecmp userid (u.uinfo k).userid ≡ Ordering.eq)
      × (search_ulist_userid u userid ≡ none
          → (i : ℕ) → i < u.utmpnumber
          → strcasecmp userid (u.uinfo (u.by_userid i)).userid ≢ Ordering.eq)
unfolding search_ulist_userid
search_ulist_userid_lem u userid sorted = elim (ℕ_discrete u.utmpnumber 0) [
  | yes z ↦
      let t : u.utmpnumber == 0 ≡ true = ground arith in
      rw t (λ k. cc, λ e i l. absurd (omega arith))
  | no z ↦
      let t : u.utmpnumber == 0 ≡ false = ground arith in
      let n = u.utmpnumber in
      elim (Searched-cases (userid_sign u userid) n (bsearch (userid_sign u userid) n) (
        bsearch-Searched (userid_sign u userid) n (omega arith)
          (userid-Sorted u userid (omega arith) sorted))) [
            | inl (i, e, l, eq) ↦ rw (t, e, search_ulist_userid) (λ k h. ground arith, λ h. cc)
            | inr (e, absent) ↦ rw (t, e, search_ulist_userid) (λ k h. cc, λ h. absent)
          ]
]

-- With at least one board and the boards sorted by name, `getbnum` returns only one more than the
-- index of a board whose name is equal up to case, and 0 only if there is none.
pub getbnum_lem :
    (b : Boards) (bname : List ℕ)
    → 0 < b.bnumber
    → ByName b
    → ((k : ℕ) → getbnum b bname ≡ suc k → strcasecmp bname (b.brdname k) ≡ Ordering.eq)
      × (getbnum b bname ≡ 0
          → (i : ℕ) → i < b.bnumber
          → strcasecmp bname (b.brdname (b.bsorted i)) ≢ Ordering.eq)
unfolding getbnum
getbnum_lem b bname pos sorted =
    let sign : ℕ → Ordering = λ i. strcasecmp bname (b.brdname (b.bsorted i)) in
    elim (Searched-cases sign b.bnumber (bsearch sign b.bnumber)
      (bsearch-Searched sign b.bnumber pos (name-Sorted b bname pos sorted))) [
        | inl (i, e, l, eq) ↦
            rw (e, getbnum)
              (
                λ k h. let w : b.bsorted i ≡ k = omega arith in rw w at eq,
                λ h. absurd (omega arith),
              )
        | inr (e, absent) ↦ rw (e, getbnum) (λ k h. absurd (omega arith), λ h. absent)
      ]
