-- ===== src/Examples/Money.antt =====
-- mbbsd/cache.c, mbbsd/passwd.c and mbbsd/stuff.c: a payment and a search.
use pttoldstable.Base.{arith}
use pttoldstable.Base.Int.{pos, negsuc, ◌+ℤ◌, ◌≤ℤ◌}
use pttoldstable.Money.{Bank, moneyof, deumoney}
use pttoldstable.Money.Accounts.{Paid, deumoney-Paid}

-- Every user has 30.
abbrev bank : Bank
bank = record {
  shm_money = λ i. pos 30;
  passwd = λ i. record { money = pos 30; fields = i };
  cooldowntime = λ i. 0;
}

-- User 2 is to pay 50.
deumoney-Paid_example :
    Paid 9 bank 2 (omega arith) (omega arith) (pos 0) (deumoney 9 2 (negsuc 49) bank)
    × (pos 0 ≤ℤ pos 30 → pos 0 ≤ℤ moneyof (deumoney 9 2 (negsuc 49) bank).1 2)
unfolding ◌+ℤ◌
deumoney-Paid_example =
    deumoney-Paid 9 bank 2 (omega arith) (omega arith) (negsuc 49) (omega arith, omega arith)
      (omega arith, omega arith) (omega arith) (omega arith)
