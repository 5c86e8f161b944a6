-- ===== src/Examples/Lock.antt =====
-- mbbsd/cal.c: a lock that is taken.
use pttoldstable.Base.{ℕ, ◌⊎◌, ◌≡◌, ◌≢◌, arith, ◌==◌, if◌then◌else◌}
use pttoldstable.Lock.{Here, lockutmpmode, unlockutmpmode}
use pttoldstable.Lock.Playing.{SomePlays, lockutmpmode-unlock}

-- Four entries; the user 7 has the entry 2, without a lock, and the entry 1 with the lock 5.
abbrev here : Here
here = record {
  uinfo = λ i. record {
    uid = if i == 2 then 7 else if i == 1 then 7 else 0;
    lockmode = if i == 1 then 5 else 0;
    mode = 3;
  };
  curr = 2;
  usernum = 7;
  currstat = 3;
}

lockutmpmode-unlock_example :
    let r = lockutmpmode 4 9 5 2 here in
    ((here.uinfo 2).lockmode ≢ 0 → r ≡ (1, here))
    × ((here.uinfo 2).lockmode ≡ 0 → SomePlays 4 5 here → (◌≢◌ {A = ℕ} 2 1) → r ≡ (2, here))
    × ((here.uinfo 2).lockmode ≡ 0
        → (◌≡◌ {A = ℕ} 2 1) ⊎ ¬ SomePlays 4 5 here
        → (r.0 ≡ 0)
          × ((r.1.uinfo 2).lockmode ≡ 5)
          × ((i : ℕ) → i ≢ 2 → r.1.uinfo i ≡ here.uinfo i)
          × ((lockutmpmode 4 9 5 2 r.1).0 ≡ 1)
          × (((unlockutmpmode r.1).uinfo 2).lockmode ≡ 0))
lockutmpmode-unlock_example =
    lockutmpmode-unlock 4 9 5 2 here (omega arith) (ground arith) (omega arith)
