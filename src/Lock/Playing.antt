-- ===== src/Lock/Playing.antt =====
-- mbbsd/cal.c: when `lockutmpmode` gives the lock.
use pttoldstable.Base.{
  ℕ, zero, suc, ◌+◌, ◌%◌, ◌≤◌, ◌<◌, ◌≡◌, ◌≢◌, ◌⊎◌, ◌↔◌, inl, inr, refl, Bool, true, false, ◌&&◌,
  arith, ◌==◌, ==_iff, sym, ap, ◌∙◌, if◌then◌else◌, ℕ_discrete, Bool-cases,
}
use pttoldstable.Lock.{
  Here, playing_loop, is_playing, setutmpmode, set_lockmode, lockutmpmode, unlockutmpmode,
}

-- The session `i` belongs to the user and has the lock of the mode.
abbrev pub Plays : ℕ → Here → ℕ → Type 0
Plays unmode s i = ((s.uinfo i).uid ≡ s.usernum) × ((s.uinfo i).lockmode ≡ unmode)

abbrev pub SomePlays : ℕ → ℕ → Here → Type 0
SomePlays ushm_size unmode s = (i : ℕ) × (i < ushm_size) × Plays unmode s i

module _ (ushm_size unmode : ℕ) (s : Here) where
  -- One of the `left` sessions from `p` on, round the end of the table.
  abbrev Visits : ℕ → ℕ → Type 0
  Visits left p =
      (i : ℕ) × (i < ushm_size)
      × (((p ≤ i) × (i < p + left)) ⊎ (i + ushm_size < p + left))
      × Plays unmode s i

  abbrev test : ℕ → Bool
  test i = (s.uinfo i).uid == s.usernum && (s.uinfo i).lockmode == unmode

  test_iff : (i : ℕ) → (test i ≡ true) ↔ Plays unmode s i
  test_iff i = (λ h. (ground arith, ground arith), λ h. ground arith)

  playing_loop_iff :
      (left p : ℕ)
      → p ≤ ushm_size
      → left ≤ ushm_size
      → (playing_loop ushm_size left p unmode s ≡ true) ↔ Visits left p
  unfolding playing_loop
  playing_loop_iff zero p h k = (
    λ e. absurd cc,
    λ v.
        let (i, l, w, q) = v in
        elim w [ inl a ↦ absurd (omega arith) | inr a ↦ absurd (omega arith) ],
  )
  playing_loop_iff (suc left) p h k =
      let p' : ℕ = if p == ushm_size then 0 else p in
      let below : p' < ushm_size = ground arith in
      let here : ((p ≤ p') × (p' < p + suc left)) ⊎ (p' + ushm_size < p + suc left) =
        elim (ℕ_discrete p ushm_size) [
          | yes e ↦ inr (ground arith)
          | no e ↦ inl (ground arith, ground arith)
        ] in
      let (f, g) = playing_loop_iff left (p' + 1) (omega arith) (omega arith) in
      elim (Bool-cases (test p')) [
        | inl t ↦ rw t (λ _. (p', below, here, (test_iff p').0 t), λ _. refl)
        | inr t ↦ rw t (
          λ e.
              let (i, l, w, q) = f e in
              let later : ((p ≤ i) × (i < p + suc left)) ⊎ (i + ushm_size < p + suc left) =
                elim (ℕ_discrete p ushm_size) [
                  | yes e ↦ inr (ground arith)
                  | no e ↦ elim w [
                    | inl a ↦ inl (ground arith, ground arith)
                    | inr a ↦ inr (ground arith)
                  ]
                ] in
              (i, l, later, q),
          λ v.
              let (i, l, w, q) = v in
              elim (ℕ_discrete i p') [
                | yes e ↦
                    let q' : Plays unmode s p' = rw e at q in
                    let on = (test_iff p').1 q' in absurd cc
                | no e ↦
                    let later : ((p' + 1 ≤ i) × (i < p' + 1 + left))
                        ⊎ (i + ushm_size < p' + 1 + left) =
                      elim w [
                        | inl a ↦ inl (ground arith, ground arith)
                        | inr a ↦ elim (ℕ_discrete p ushm_size) [
                          | yes m ↦ inl (ground arith, ground arith)
                          | no m ↦ inr (ground arith)
                        ]
                      ] in
                    g (i, l, later, q)
              ],
        )
      ]

  is_playing_iff :
      (hash : ℕ)
      → 0 < ushm_size
      → (is_playing ushm_size hash unmode s ≡ true) ↔ SomePlays ushm_size unmode s
  unfolding is_playing
  is_playing_iff hash h =
      let p = hash % ushm_size in
      let (f, g) = playing_loop_iff ushm_size p (omega arith) (omega arith) in
      (
        λ e. let (i, l, _, q) = f e in (i, l, q),
        λ v.
            let (i, l, q) = v in
            let w : ((p ≤ i) × (i < p + ushm_size)) ⊎ (i + ushm_size < p + ushm_size) =
              ground arith in
            g (i, l, w, q),
      )

locked_lem :
    (ushm_size hash unmode state : ℕ) (s : Here)
    → (s.uinfo s.curr).lockmode ≢ 0
    → lockutmpmode ushm_size hash unmode state s ≡ (1, s)
unfolding lockutmpmode
locked_lem ushm_size hash unmode state s locked =
    let t : (s.uinfo s.curr).lockmode == 0 ≡ false = ground (arith, locked) in
    elim (Bool-cases (state == 1)) [ inl c ↦ rw (t, c) refl | inr c ↦ rw (t, c) refl ]

-- What a session has that got the lock.
taken_lem :
    (unmode : ℕ) (s : Here)
    → unmode < 256
    → let s' = set_lockmode unmode (setutmpmode unmode s) in
      (s'.curr ≡ s.curr)
      × ((s'.uinfo s.curr).lockmode ≡ unmode)
      × ((i : ℕ) → i ≢ s.curr → s'.uinfo i ≡ s.uinfo i)
      × (((unlockutmpmode s').uinfo s.curr).lockmode ≡ 0)
unfolding set_lockmode setutmpmode unlockutmpmode
taken_lem unmode s lt =
    let self : s.curr == s.curr ≡ true = (==_iff s.curr s.curr).1 refl in
    let low : unmode % 256 ≡ unmode = omega arith in
    elim (Bool-cases (s.currstat == unmode)) [
      | inl c ↦ rw c (
        refl,
        rw self low,
        λ i n. let t : i == s.curr ≡ false = ground (arith, n) in rw t refl,
        rw self refl,
      )
      | inr c ↦ rw c (
        refl,
        rw self low,
        λ i n. let t : i == s.curr ≡ false = ground (arith, n) in rw t refl,
        rw self refl,
      )
    ]

-- For a table that is not empty and a mode from 1 to 255: a session that has a lock gets the result 1. One
-- that has none gets 2, unless `state` is `LOCK_THIS`, where a session of the user anywhere in the
-- table has the lock of the mode; in both cases nothing changes. In every other case the result is 0,
-- the session has the lock of the mode, the other sessions are as before, a second call returns
-- 1, and `unlockutmpmode` takes the lock away.
pub lockutmpmode-unlock :
    (ushm_size hash unmode state : ℕ) (s : Here)
    → 0 < ushm_size
    → unmode ≢ 0
    → unmode < 256
    → let r = lockutmpmode ushm_size hash unmode state s in
      ((s.uinfo s.curr).lockmode ≢ 0 → r ≡ (1, s))
      × ((s.uinfo s.curr).lockmode ≡ 0 → SomePlays ushm_size unmode s → state ≢ 1 → r ≡ (2, s))
      × ((s.uinfo s.curr).lockmode ≡ 0
          → (state ≡ 1) ⊎ ¬ SomePlays ushm_size unmode s
          → (r.0 ≡ 0)
            × ((r.1.uinfo s.curr).lockmode ≡ unmode)
            × ((i : ℕ) → i ≢ s.curr → r.1.uinfo i ≡ s.uinfo i)
            × ((lockutmpmode ushm_size hash unmode state r.1).0 ≡ 1)
            × (((unlockutmpmode r.1).uinfo s.curr).lockmode ≡ 0))
unfolding lockutmpmode
lockutmpmode-unlock ushm_size hash unmode state s h ne lt = (
  locked_lem ushm_size hash unmode state s,
  λ free plays st.
      let t : (s.uinfo s.curr).lockmode == 0 ≡ true = (==_iff _ 0).1 free in
      let u = (is_playing_iff ushm_size unmode s hash h).1 plays in
      let w : state == 1 ≡ false = ground (arith, st) in rw (t, u, w) refl,
  λ free c.
      let t : (s.uinfo s.curr).lockmode == 0 ≡ true = (==_iff _ 0).1 free in
      let s' = set_lockmode unmode (setutmpmode unmode s) in
      let made : lockutmpmode ushm_size hash unmode state s ≡ (0, s') =
        elim (Bool-cases (is_playing ushm_size hash unmode s)) [
          | inr u ↦ rw (t, u, lockutmpmode) refl
          | inl u ↦ elim c [
            | inl st ↦
                let w : state == 1 ≡ true = (==_iff state 1).1 st in rw (t, u, w, lockutmpmode) refl
            | inr none ↦ absurd (none ((is_playing_iff ushm_size unmode s hash h).0 u))
          ]
        ] in
      let (same, on, others, off) = taken_lem unmode s lt in
      let taken : (s'.uinfo s'.curr).lockmode ≢ 0 = λ z. ne (sym on ∙ (rw same at z)) in
      rw made
        (refl, on, others, ap (λ q. q.0) (locked_lem ushm_size hash unmode state s' taken), off),
)
