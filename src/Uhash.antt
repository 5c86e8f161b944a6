-- ===== src/Uhash.antt =====
-- mbbsd/cache.c: the hash table of user names in shared memory, with the hash function of
-- mbbsd/stuff.c and include/fnv_hash.h.
pub mod Chain
pub mod Search
pub mod Buckets
pub mod Update
pub mod Rename
use pttoldstable.Base.{
  ℕ, zero, suc, ◌+◌, ◌-◌, ◌*◌, ◌%◌, ◌^◌, bit_xor, Bool, true, false, ◌&&◌, Option, none, some, List,
  [], ◌∷◌, ltb, leb, ◌==◌, if◌then◌else◌, take,
}
use pttoldstable.Base.Text.{toupper, strcaseeq}

abbrev pub idlen : ℕ
idlen = 12

abbrev pub hash_bits : ℕ
hash_bits = 16

-- The arrays of `SHM` that the table uses. `none` is the index -1.
pub record Shm : Type 0 where
  pub userid : ℕ → List ℕ
  pub hash_head : ℕ → Option ℕ
  pub next_in_hash : ℕ → Option ℕ

-- What the pointer `p` of the loops points to: `&(SHM->hash_head[h])` or `&(SHM->next_in_hash[n])`.
pub data Slot : Type 0 where
  head : ℕ → Slot
  next : ℕ → Slot

-- `*p`
unfoldable pub read : Shm → Slot → Option ℕ
read s (head h) = s.hash_head h
read s (next n) = s.next_in_hash n

-- `*p = v`
unfoldable pub write : Shm → Slot → Option ℕ → Shm
write s (head h) v = record s { hash_head = λ i. if i == h then v else s.hash_head i }
write s (next n) v = record s { next_in_hash = λ i. if i == n then v else s.next_in_hash i }

abbrev pub fnv_32_prime : ℕ
fnv_32_prime = 0x01000193

-- Arithmetic on `Fnv32_t` wraps at 32 bits.
unfoldable pub fnv1a_32_strcase : List ℕ → ℕ → ℕ
unfolding toupper
fnv1a_32_strcase [] hval = hval
fnv1a_32_strcase (c ∷ s) hval =
    fnv1a_32_strcase s (bit_xor hval (toupper c) * fnv_32_prime % 2 ^ 32)

unfoldable pub string_hash : List ℕ → ℕ
unfolding fnv1a_32_strcase
string_hash s = fnv1a_32_strcase s 33554467

abbrev pub bucket : List ℕ → ℕ
bucket id = string_hash id % 2 ^ hash_bits

-- `for (times = 0; times < MAX_USERS && *p != -1; ++times)`, with the rounds left. `none` is the
-- call of `abort_bbs`, which does not return.
unfoldable pub walk_end : ℕ → Shm → Slot → Option Slot
walk_end zero s p = none
walk_end (suc k) s p = elim (read s p) [ none ↦ some p | some n ↦ walk_end k s (next n) ]

-- The same with the test `*p != -1 && *p != n`.
unfoldable pub walk_to : ℕ → Shm → Slot → ℕ → Option Slot
walk_to zero s p n = none
walk_to (suc k) s p n = elim (read s p) [
  | none ↦ some p
  | some m ↦ let rest = walk_to k s (next m) n in if m == n then some p else rest
]

-- `SHM->next_in_hash[*p = n] = -1;`
unfoldable pub link : Shm → Slot → ℕ → Shm
unfolding write
link s p n = write (write s p (some n)) (next n) none

-- `if (*p == n) *p = SHM->next_in_hash[n];`
unfoldable pub unlink : Shm → Slot → ℕ → Shm
unfolding write read
unlink s p n = elim (read s p) [
  | none ↦ s
  | some m ↦ if m == n then write s p (s.next_in_hash n) else s
]

-- The configuration's `MAX_USERS`.
module _ (max_users : ℕ) where
  unfoldable pub add_to_uhash : Shm → ℕ → List ℕ → Option Shm
  unfolding walk_end link
  add_to_uhash s n id =
      let s' : Shm = record s { userid = λ i. if i == n then take idlen id else s.userid i } in
      elim (walk_end max_users s' (head (bucket id))) [ none ↦ none | some p ↦ some (link s' p n) ]

  unfoldable pub remove_from_uhash : Shm → ℕ → Option Shm
  unfolding walk_to unlink
  remove_from_uhash s n = elim (walk_to max_users s (head (bucket (s.userid n))) n) [
    | none ↦ none
    | some p ↦ some (unlink s p n)
  ]

  -- The loop of `searchuser`, with the rounds left; the result is the slot that has the name.
  unfoldable pub search_loop : ℕ → Shm → Option ℕ → List ℕ → Option ℕ
  search_loop zero s p userid = none
  search_loop (suc k) s none userid = none
  search_loop (suc k) s (some p) userid =
      let rest = search_loop k s (s.next_in_hash p) userid in
      if ltb p max_users then (if strcaseeq (s.userid p) userid then some p else rest) else none

  -- The second component is what the call writes to `rightid`, for a caller that passes one.
  unfoldable pub searchuser : Shm → List ℕ → ℕ × Option (List ℕ)
  unfolding search_loop
  searchuser s userid = elim (search_loop max_users s (s.hash_head (bucket userid)) userid) [
    | none ↦ (0, none)
    | some p ↦ (p + 1, elim userid [ [] ↦ none | c ∷ t ↦ some (s.userid p) ])
  ]

  unfoldable pub getuserid : Shm → ℕ → Option (List ℕ)
  getuserid s num = if leb 1 num && ltb (num - 1) max_users then some (s.userid (num - 1)) else none

  -- `none` is an abort in one of the two calls.
  unfoldable pub setuserid : Shm → ℕ → List ℕ → Option Shm
  setuserid s num userid =
      if ltb 0 num && leb num max_users
      then (elim (remove_from_uhash s (num - 1)) [
        | none ↦ none
        | some s' ↦ add_to_uhash s' (num - 1) userid
      ])
      else some s
