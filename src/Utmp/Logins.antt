-- ===== src/Utmp/Logins.antt =====
-- mbbsd/cache.c: the sessions of one user, which stand side by side in the index sorted by uid.
use pttoldstable.Base.{
  ℕ, zero, suc, ◌+◌, ◌-◌, ◌≤◌, ◌<◌, ◌≡◌, ◌≢◌, refl, sym, Bool, true, false, arith, none, some, ◌==◌,
  leb, if◌then◌else◌, not, ◌&&◌, ℕ_discrete, dec_le,
}
use pttoldstable.Utmp.{
  Outcome, at, nowhere, unfinished, Utmp, bsearch, uid_sign, search_ulistn, first_of_uid,
  count_from, count_logins,
}
use pttoldstable.Utmp.Bsearch.{Sorted, Searched, bsearch-Searched}

abbrev pub uid_at : Utmp → ℕ → ℕ
uid_at u i = (u.uinfo (u.by_uid i)).uid

abbrev pub ByUid : Utmp → Type 0
ByUid u = (i j : ℕ) → i ≤ j → j < u.utmpnumber → uid_at u i ≤ uid_at u j

-- Position `p` is the first that has the uid.
pub record First (u : Utmp) (uid p : ℕ) : Type 0 where
  pub inside : p < u.utmpnumber
  pub here : uid_at u p ≡ uid
  pub none_before : (j : ℕ) → j < p → uid_at u j ≢ uid

module _ (u : Utmp) (uid p : ℕ) (sorted : ByUid u) (first : First u uid p) where
  first_of_uid-First :
      (i : ℕ) → i < u.utmpnumber → uid_at u i ≡ uid → p ≤ i → first_of_uid u uid i ≡ p
  unfolding first_of_uid
  first_of_uid-First zero l e h = omega arith
  first_of_uid-First (suc i) l e h = elim (ℕ_discrete p (suc i)) [
    | yes same ↦
        let other = first.none_before i (omega arith) in
        let t : uid == uid_at u i ≡ false = ground arith in rw t (sym same)
    | no less ↦
        let up = sorted p i (omega arith) (omega arith) in
        let down = sorted i (suc i) (omega arith) l in
        let eq : uid_at u i ≡ uid = omega (arith, first.here) in
        let t : uid == uid_at u i ≡ true = ground arith in
        rw t (first_of_uid-First i (omega arith) eq (omega arith))
  ]

  first_found :
      (i : ℕ) × (bsearch (uid_sign u uid) u.utmpnumber ≡ at i) × (first_of_uid u uid i ≡ p)
  first_found =
      found (bsearch (uid_sign u uid) u.utmpnumber) refl
        (bsearch-Searched (uid_sign u uid) u.utmpnumber (omega (arith, first.inside)) uids)
    where
      uids : Sorted (uid_sign u uid) (u.utmpnumber - 1)
      uids i j l h =
          let le = sorted i j l (omega (arith, first.inside)) in
          (λ e. ground arith, λ e. ground arith)

      found :
          (o : Outcome)
          → bsearch (uid_sign u uid) u.utmpnumber ≡ o
          → Searched (uid_sign u uid) u.utmpnumber o
          → (i : ℕ) × (bsearch (uid_sign u uid) u.utmpnumber ≡ at i) × (first_of_uid u uid i ≡ p)
      found (at i) e h =
          let eq : uid_at u i ≡ uid = ground (arith, h.1) in
          (i, e, first_of_uid-First i h.0 eq (after i eq))
        where
          after : (i : ℕ) → uid_at u i ≡ uid → p ≤ i
          after i eq = elim (dec_le p i) [
            | yes l ↦ l
            | no l ↦ absurd (first.none_before i (omega arith) eq)
          ]
      found nowhere e h = absurd (h p first.inside (ground (arith, first.here)))
      found unfinished e h = absurd h

  -- With the sessions sorted by uid, one of them the user's, and `unum` at least 1, `search_ulistn` returns the session `unum - 1` places after the
  -- user's first, and the null pointer if that place is another user's.
  pub search_ulistn_lem :
      (unum : ℕ)
      → 1 ≤ unum
      → search_ulistn u uid unum
        ≡ (if uid == uid_at u (p + unum - 1) then some (u.by_uid (p + unum - 1)) else none)
  unfolding search_ulistn
  search_ulistn_lem unum h =
      let t : u.utmpnumber == 0 ≡ false = ground (arith, first.inside) in
      let (i, e, f) = first_found in
      let g : leb 1 (p + unum) ≡ true = ground arith in rw (t, e, search_ulistn, f, g)

  count_from-run :
      (m k i : ℕ)
      → m < k
      → ((j : ℕ) → j < m → (u.by_uid (i + j) ≢ 0) × (uid_at u (i + j) ≡ uid))
      → uid_at u (i + m) ≢ uid
      → count_from k u uid i ≡ m
  unfolding count_from
  count_from-run m zero i l run stop = absurd (omega arith)
  count_from-run zero (suc k) i l run stop =
      let e : i + 0 ≡ i = omega arith in
      let t : uid == uid_at u i ≡ false = (let stop' = rw e at stop in ground arith) in
      rw t (and_false _ (not (u.by_uid i == 0)))
    where
      and_false : (r : ℕ) (b : Bool) → (if b && false then r else 0) ≡ 0
      and_false r true = refl
      and_false r false = refl
  count_from-run (suc m) (suc k) i l run stop =
      let e : i + 0 ≡ i = omega arith in
      let h = rw e at (run 0 (omega arith)) in
      let t : uid == uid_at u i ≡ true = ground arith in
      let t' : u.by_uid i == 0 ≡ false = ground arith in
      let ih = count_from-run m k (i + 1) (omega arith) (next_run run) (next_stop stop) in
      rw (t, t', ih) (omega arith)
    where
      next_run :
          ((j : ℕ) → j < suc m → (u.by_uid (i + j) ≢ 0) × (uid_at u (i + j) ≡ uid))
          → (j : ℕ) → j < m
          → (u.by_uid (i + 1 + j) ≢ 0) × (uid_at u (i + 1 + j) ≡ uid)
      next_run r j l = let e : i + 1 + j ≡ i + suc j = omega arith in rw e (r (suc j) (omega arith))

      next_stop : uid_at u (i + suc m) ≢ uid → uid_at u (i + 1 + m) ≢ uid
      next_stop st = let e : i + 1 + m ≡ i + suc m = omega arith in rw e st

  -- With the sessions sorted by uid: a user's sessions stand in `m` places of the index, none of them is
  -- entry 0 of `uinfo`, and the next place within the array is another user's; then `count_logins`
  -- returns `m`.
  pub count_logins_lem :
      (size m : ℕ)
      → p + m < size
      → ((j : ℕ) → j < m → (u.by_uid (p + j) ≢ 0) × (uid_at u (p + j) ≡ uid))
      → uid_at u (p + m) ≢ uid
      → count_logins size u uid ≡ m
  unfolding count_logins
  count_logins_lem size m l run stop =
      let t : u.utmpnumber == 0 ≡ false = ground (arith, first.inside) in
      let (i, e, f) = first_found in
      rw (t, e, count_logins, f) (count_from-run m (size - p) p (omega arith) run stop)

  -- With the sessions sorted by uid, a user whose first session is entry 0 of `uinfo` counts as not logged in.
  pub count_logins-entry_zero : (size : ℕ) → p < size → u.by_uid p ≡ 0 → count_logins size u uid ≡ 0
  unfolding count_logins count_from
  count_logins-entry_zero size l z =
      let t : u.utmpnumber == 0 ≡ false = ground (arith, first.inside) in
      let (i, e, f) = first_found in
      let q : size - p ≡ suc (size - p - 1) = omega arith in rw (t, e, count_logins, f, q, z)
