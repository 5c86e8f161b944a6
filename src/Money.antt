-- ===== src/Money.antt =====
-- mbbsd/cache.c and mbbsd/passwd.c: the money of the users, in shared memory and in the password file.
pub mod Accounts
use pttoldstable.Base.{
  ℕ, zero, suc, ◌+◌, ◌-◌, ◌*◌, ◌%◌, Bool, true, false, ◌&&◌, ◌||◌, Option, none, some, ltb, leb,
  ◌==◌, if◌then◌else◌,
}
use pttoldstable.Base.Int.{ℤ, pos, negsuc, ◌+ℤ◌, ◌-ℤ◌, ltb_ℤ}

-- A record of the password file: the money, and the other fields as one number.
pub record Userec : Type 0 where
  pub money : ℤ
  pub fields : ℕ

-- `SHM->money` with an int for each user, the password file, which opens, and `SHM->cooldowntime`.
pub record Bank : Type 0 where
  pub shm_money : ℕ → ℤ
  pub passwd : ℕ → Userec
  pub cooldowntime : ℕ → ℕ

-- A value as an int of 32 bits, in two's complement: a sum that overflows wraps round.
unfoldable pub wrap_int : ℤ → ℤ
wrap_int (pos n) =
    let r = n % 4294967296 in if ltb r 2147483648 then pos r else negsuc (4294967295 - r)
wrap_int (negsuc n) =
    let r = n % 4294967296 in if ltb r 2147483648 then negsuc r else pos (4294967295 - r)

-- `moneyof(uid)`
abbrev pub moneyof : Bank → ℕ → ℤ
moneyof s uid = s.shm_money (uid - 1)

module _ (max_users : ℕ) where
  -- The result 0 is `true`, and -1 is `false`.
  unfoldable pub passwd_update_money : ℕ → Bank → Bool × Bank
  passwd_update_money num s = if ltb num 1 || ltb max_users num then (false, s) else (
    true,
    record s {
      passwd = λ i.
          if i == num - 1
          then record { money = moneyof s num; fields = (s.passwd i).fields }
          else s.passwd i;
    },
  )

  -- `buf->money` is set as well: the second result is the new `*buf`.
  unfoldable pub passwd_update : ℕ → Userec → Bank → Bool × Userec × Bank
  passwd_update num buf s =
      if ltb num 1 || ltb max_users num
      then (false, buf, s)
      else let buf' : Userec = record buf { money = moneyof s num } in
        (true, buf', record s { passwd = λ i. if i == num - 1 then buf' else s.passwd i })

  -- `none` is the result -1, where `*buf` stays.
  unfoldable pub passwd_query : ℕ → Bank → Option Userec
  passwd_query num s = if ltb num 1 || ltb max_users num then none else some (s.passwd (num - 1))

  -- The argument is an int, and so is the account.
  unfoldable pub setumoney : ℕ → ℤ → Bank → ℤ × Bank
  unfolding passwd_update_money wrap_int
  setumoney uid money s =
      let m = wrap_int money in
      let s' : Bank = record s { shm_money = λ i. if i == uid - 1 then m else s.shm_money i } in
      (m, (passwd_update_money uid s').1)

  unfoldable pub deumoney : ℕ → ℤ → Bank → ℤ × Bank
  unfolding wrap_int
  deumoney uid money s =
      if leb uid 0 || ltb max_users uid
      then (negsuc 0, s)
      else if ltb_ℤ money (pos 0) && ltb_ℤ (moneyof s uid) (wrap_int (pos 0 -ℤ money))
      then setumoney uid (pos 0) s
      else setumoney uid (wrap_int (s.shm_money (uid - 1) +ℤ money)) s

-- With the clock's `now`.
unfoldable pub add_cooldowntime : ℕ → ℕ → ℕ → Bank → Bank
add_cooldowntime now uid min s =
    let new = now + 60 * min in
    let old = s.cooldowntime (uid - 1) in
    record s {
      cooldowntime =
          λ i. if i == uid - 1 then (if ltb old new then new else old) else s.cooldowntime i;
    }
