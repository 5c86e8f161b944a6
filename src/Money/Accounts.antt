-- ===== src/Money/Accounts.antt =====
-- mbbsd/cache.c and mbbsd/passwd.c: what a payment does to the accounts.
use pttoldstable.Base.{
  ℕ, ◌-◌, ◌%◌, ◌≤◌, ◌≡◌, ◌≢◌, refl, ◌∙◌, true, false, ◌&&◌, ◌||◌, some, arith, ltb, leb, ◌==◌,
  ==_iff, if◌then◌else◌, Bool-cases, inl, inr,
}
use pttoldstable.Base.Int.{ℤ, pos, negsuc, pos_part, neg_part, ◌+ℤ◌, ◌-ℤ◌, ◌≤ℤ◌, ltb_ℤ}
use pttoldstable.Money.{
  Userec, Bank, moneyof, passwd_update_money, passwd_update, passwd_query, setumoney, deumoney,
  wrap_int,
}

-- An account after a payment.
abbrev pub balance : ℤ → ℤ → ℤ
balance a money = if ltb_ℤ (a +ℤ money) (pos 0) && ltb_ℤ money (pos 0) then pos 0 else a +ℤ money

-- The values of an int.
abbrev pub IsInt : ℤ → Type 0
IsInt z = (pos_part z ≤ 2147483647) × (neg_part z ≤ 2147483648)

wrap_int_lem : (z : ℤ) → IsInt z → wrap_int z ≡ z
unfolding wrap_int
wrap_int_lem (pos n) h =
    let e : n % 4294967296 ≡ n = omega arith in
    let t : ltb n 2147483648 ≡ true = ground arith in rw (e, t) refl
wrap_int_lem (negsuc n) h =
    let e : n % 4294967296 ≡ n = omega arith in
    let t : ltb n 2147483648 ≡ true = ground arith in rw (e, t) refl

short_iff :
    (a money : ℤ)
    → (ltb_ℤ money (pos 0) && ltb_ℤ a (pos 0 -ℤ money))
      ≡ (ltb_ℤ (a +ℤ money) (pos 0) && ltb_ℤ money (pos 0))
unfolding ◌+ℤ◌ ◌-ℤ◌
short_iff a money = ground arith

minus-IsInt : (money : ℤ) → IsInt money → neg_part money ≤ 2147483647 → IsInt (pos 0 -ℤ money)
unfolding ◌-ℤ◌
minus-IsInt money h k = ground arith

sum-IsInt :
    (a money : ℤ)
    → IsInt a
    → a +ℤ money ≤ℤ pos 2147483647
    → (ltb_ℤ (a +ℤ money) (pos 0) && ltb_ℤ money (pos 0)) ≡ false
    → IsInt (a +ℤ money)
unfolding ◌+ℤ◌
sum-IsInt a money h k e = (ground arith, ground arith)

balance-nonneg : (a money : ℤ) → pos 0 ≤ℤ a → pos 0 ≤ℤ balance a money
unfolding ◌+ℤ◌
balance-nonneg a money h = ground arith

module _ (max_users : ℕ) (s : Bank) (uid : ℕ) (lo : 1 ≤ uid) (hi : uid ≤ max_users) where
  within : ltb uid 1 || ltb max_users uid ≡ false
  within = ground arith

  same_user : uid - 1 == uid - 1 ≡ true
  same_user = (==_iff (uid - 1) (uid - 1)).1 refl

  -- What the accounts are after the user has got the amount `m`.
  abbrev pub Paid : ℤ → ℤ × Bank → Type 0
  Paid m r =
      (r.0 ≡ m)
      × (moneyof r.1 uid ≡ m)
      × ((r.1.passwd (uid - 1)).money ≡ m)
      × ((r.1.passwd (uid - 1)).fields ≡ (s.passwd (uid - 1)).fields)
      × ((v : ℕ) → v ≢ uid - 1 → (r.1.shm_money v ≡ s.shm_money v) × (r.1.passwd v ≡ s.passwd v))

  setumoney-Paid : (m : ℤ) → IsInt m → Paid m (setumoney max_users uid m s)
  unfolding setumoney passwd_update_money
  setumoney-Paid m h =
      rw (wrap_int_lem m h, within)
        (
          refl,
          rw same_user,
          rw same_user,
          rw same_user,
          λ v ne. let t : v == uid - 1 ≡ false = ground (arith, ne) in rw t (refl, refl),
        )

  module _ (money : ℤ) (account : IsInt (moneyof s uid)) (amount : IsInt money)
      (opposite : neg_part money ≤ 2147483647)
      (sum : moneyof s uid +ℤ money ≤ℤ pos 2147483647) where
    deumoney-setumoney :
        deumoney max_users uid money s ≡ setumoney max_users uid (balance (moneyof s uid) money) s
    unfolding deumoney
    deumoney-setumoney =
        let w : leb uid 0 || ltb max_users uid ≡ false = ground arith in
        let t = short_iff (moneyof s uid) money in
        let minus = wrap_int_lem (pos 0 -ℤ money) (minus-IsInt money amount opposite) in
        elim (Bool-cases (ltb_ℤ (moneyof s uid +ℤ money) (pos 0) && ltb_ℤ money (pos 0))) [
          | inl e ↦ rw (w, minus, t ∙ e, e, deumoney)
          | inr e ↦
              let plus =
                wrap_int_lem (moneyof s uid +ℤ money)
                  (sum-IsInt (moneyof s uid) money account sum e) in
              rw (w, minus, t ∙ e, plus, e, deumoney)
        ]

    balance-IsInt : IsInt (balance (moneyof s uid) money)
    balance-IsInt =
        elim (Bool-cases (ltb_ℤ (moneyof s uid +ℤ money) (pos 0) && ltb_ℤ money (pos 0))) [
          | inl e ↦ rw e (omega arith, omega arith)
          | inr e ↦ rw e (sum-IsInt (moneyof s uid) money account sum e)
        ]

    -- A user with a valid number pays or gets `money`, where the account, the amount, what is opposite to
    -- it and, upwards, their sum are within the values of an int: his account becomes the sum, or 0 where
    -- he has less than he is to pay; the file and the shared memory then agree, his other fields and the
    -- accounts of others stay, and an account that was not negative is not negative after it.
    pub deumoney-Paid :
        Paid (balance (moneyof s uid) money) (deumoney max_users uid money s)
        × (pos 0 ≤ℤ moneyof s uid → pos 0 ≤ℤ moneyof (deumoney max_users uid money s).1 uid)
    deumoney-Paid =
        let e = deumoney-setumoney in
        let paid = setumoney-Paid (balance (moneyof s uid) money) balance-IsInt in
        (rw e paid, λ h. rw (e, paid.1) (balance-nonneg (moneyof s uid) money h))

  -- `passwd_update` followed by `passwd_query` gives the record that was written, with the money of the
  -- shared memory in it, and the caller's record has it too.
  pub passwd_query-update :
      (buf : Userec)
      → let r = passwd_update max_users uid buf s in
        (r.0 ≡ true)
        × (passwd_query max_users uid r.2 ≡ some r.1)
        × (r.1.money ≡ moneyof s uid)
        × (r.1.fields ≡ buf.fields)
  unfolding passwd_update passwd_query
  passwd_query-update buf = rw (within, same_user) (refl, refl, refl, refl)
