-- ===== src/Card/Choice.antt =====
-- mbbsd/card.c: the computer's choice in the game of 99 keeps the rules of `card_99_add`.
use pttoldstable.Base.{
  ℕ, zero, suc, ◌+◌, ◌≤◌, ◌<◌, ◌≡◌, ◌≢◌, ◌⊎◌, inl, inr, ap, ◌∙◌, true, ◌&&◌, not, none, some, List,
  [], ◌∷◌, arith, ◌==◌, length, get_or, Bool-cases, Option-cases, ℕ_discrete,
}
use pttoldstable.Base.Int.{ℤ, pos, negsuc, ◌+ℤ◌, ◌*ℤ◌}
use mathlib.Core.Option.{some-injective}
use pttoldstable.Card.{
  card_number, card_99_add, Seen, nothing_seen, see, see_all, fits, highest, last_resort, tens,
  card_99_cpu,
}

-- What is noted is a card of the hand, which has `n` cards, of the number that it is noted for.
record Right (hand : ℕ → ℕ) (n : ℕ) (s : Seen) : Type 0 where
  stop_at : (i : ℕ) → s.stop ≡ some i → (i < n) × ((hand i ≡ 4) ⊎ ((hand i ≡ 5) ⊎ (hand i ≡ 11)))
  twenty_at : (i : ℕ) → s.twenty ≡ some i → (i < n) × (hand i ≡ 12)
  ten_at : (i : ℕ) → s.ten ≡ some i → (i < n) × (hand i ≡ 10)
  kill_at : (i : ℕ) → s.kill ≡ some i → (i < n) × (hand i ≡ 13)
  num_at : (j i : ℕ) → s.num j ≡ some i → (i < n) × (hand i ≡ j)

nothing-Right : (hand : ℕ → ℕ) (n : ℕ) → Right hand n nothing_seen
nothing-Right hand n = record {
  stop_at = λ i h. cc;
  twenty_at = λ i h. cc;
  ten_at = λ i h. cc;
  kill_at = λ i h. cc;
  num_at = λ j i h. cc;
}

see-Right :
    (hand : ℕ → ℕ) (n i : ℕ) (s : Seen) → i < n → Right hand n s → Right hand n (see i (hand i) s)
unfolding see
see-Right hand n i s l r = record {
  stop_at = λ k h. ground (arith, r.stop_at k);
  twenty_at = λ k h. ground (arith, r.twenty_at k);
  ten_at = λ k h. ground (arith, r.ten_at k);
  kill_at = λ k h. ground (arith, r.kill_at k);
  num_at = λ j k h. ground (arith, r.num_at j k);
}

-- The loop from card `i` on, over the rest `l` of the hand.
see_all-Right :
    (hand : ℕ → ℕ) (n i : ℕ) (l : List ℕ) (s : Seen)
    → i + length l ≡ n
    → ((k : ℕ) → card_number (get_or l k 0) ≡ hand (i + k))
    → Right hand n s
    → Right hand n (see_all i l s)
unfolding see_all
see_all-Right hand n i [] s e h r = r
see_all-Right hand n i (c ∷ l) s e h r =
    let z : i + 0 ≡ i = omega arith in
    let head : card_number c ≡ hand i = h 0 ∙ ap hand z in
    see_all-Right hand n (i + 1) l (see i (card_number c) s) (omega arith)
      (λ k. let t : i + suc k ≡ i + 1 + k = omega arith in h (suc k) ∙ ap hand t)
      (rw head (see-Right hand n i s (omega arith) r))

taken :
    (j : ℕ) (s : Seen) (count : ℤ) (m i p : ℕ)
    → s.num (suc j) ≡ some p
    → (not (suc j == 4) && (not (suc j == 5) && fits count (suc j))) ≡ true
    → suc j ≡ m
    → p ≡ i
    → (s.num m ≡ some i) × (m ≤ suc j) × (m ≢ 4) × (m ≢ 5) × (fits count m ≡ true)
taken j s count m i p z t e e' =
    rw (← e, ← e') (z, omega arith, ground arith, ground arith, ground arith)

-- A number that the loop gives is noted, is no 4 and no 5, and fits.
highest-noted :
    (j : ℕ) (s : Seen) (count : ℤ) (m i : ℕ)
    → highest j s count ≡ some (m, i)
    → (s.num m ≡ some i) × (m ≤ j) × (m ≢ 4) × (m ≢ 5) × (fits count m ≡ true)
unfolding highest
highest-noted zero s count m i h = cc
highest-noted (suc j) s count m i h = elim (Option-cases (s.num (suc j))) [
  | inl z ↦
      let r = highest-noted j s count m i (rw (z, highest) at h) in
      (r.0, omega (arith, r.1), r.2, r.3, r.4)
  | inr (p, z) ↦ elim (Bool-cases (not (suc j == 4) && (not (suc j == 5) && fits count (suc j)))) [
    | inl t ↦
        let e = some-injective _ _ (rw (z, t, highest) at h) in
        taken j s count m i p z t (ap (λ q. q.0) e) (ap (λ q. q.1) e)
    | inr t ↦
        let r = highest-noted j s count m i (rw (z, t, highest) at h) in
        (r.0, omega (arith, r.1), r.2, r.3, r.4)
  ]
]

-- `card_99_add` of the card of the number `j`, with a sign.
abbrev Played : ℕ → ℤ → ℤ → Type 0
Played j count after =
    (after ≡ card_99_add j (pos 1) count) ⊎ (after ≡ card_99_add j (negsuc 0) count)

-- The first `m` cards have been seen.
record Complete (hand : ℕ → ℕ) (m : ℕ) (s : Seen) : Type 0 where
  stop_if : (k : ℕ) → k < m → (hand k ≡ 4) ⊎ ((hand k ≡ 5) ⊎ (hand k ≡ 11)) → s.stop ≢ none
  twenty_if : (k : ℕ) → k < m → hand k ≡ 12 → s.twenty ≢ none
  ten_if : (k : ℕ) → k < m → hand k ≡ 10 → s.ten ≢ none
  kill_if : (k : ℕ) → k < m → hand k ≡ 13 → s.kill ≢ none

see-Complete :
    (hand : ℕ → ℕ) (m : ℕ) (s : Seen) → Complete hand m s → Complete hand (m + 1) (see m (hand m) s)
unfolding see
see-Complete hand m s c = record {
  stop_if = λ k l h. elim (ℕ_discrete k m) [
    | yes e ↦ (let h' = rw e at h in ground (arith, h'))
    | no ne ↦ ground (arith, c.stop_if k (omega arith) h)
  ];
  twenty_if = λ k l h. elim (ℕ_discrete k m) [
    | yes e ↦ (let h' = rw e at h in ground (arith, h'))
    | no ne ↦ ground (arith, c.twenty_if k (omega arith) h)
  ];
  ten_if = λ k l h. elim (ℕ_discrete k m) [
    | yes e ↦ (let h' = rw e at h in ground (arith, h'))
    | no ne ↦ ground (arith, c.ten_if k (omega arith) h)
  ];
  kill_if = λ k l h. elim (ℕ_discrete k m) [
    | yes e ↦ (let h' = rw e at h in ground (arith, h'))
    | no ne ↦ ground (arith, c.kill_if k (omega arith) h)
  ];
}

see_all-Complete :
    (hand : ℕ → ℕ) (n i : ℕ) (l : List ℕ) (s : Seen)
    → i + length l ≡ n
    → ((k : ℕ) → card_number (get_or l k 0) ≡ hand (i + k))
    → Complete hand i s
    → Complete hand n (see_all i l s)
unfolding see_all
see_all-Complete hand n i [] s e h r = let t : i ≡ n = omega arith in rw (← t) r
see_all-Complete hand n i (c ∷ l) s e h r =
    let z : i + 0 ≡ i = omega arith in
    let head : card_number c ≡ hand i = h 0 ∙ ap hand z in
    see_all-Complete hand n (i + 1) l (see i (card_number c) s) (omega arith)
      (λ k. let t : i + suc k ≡ i + 1 + k = omega arith in h (suc k) ∙ ap hand t)
      (rw head (see-Complete hand i s r))

plain-Played :
    (j : ℕ) (count : ℤ)
    → ((j ≡ 4) ⊎ ((j ≡ 5) ⊎ (j ≡ 11)) → ⊥)
    → j ≢ 12
    → j ≢ 10
    → j ≢ 13
    → Played j count (count +ℤ pos j)
unfolding card_99_add
plain-Played j count stop twenty ten kill =
    let ne4 : j ≢ 4 = λ h. stop (inl h) in
    let ne5 : j ≢ 5 = λ h. stop (inr (inl h)) in
    let ne11 : j ≢ 11 = λ h. stop (inr (inr h)) in inl (ground arith)

last_resort-Played :
    (hand : ℕ → ℕ) (n : ℕ) (s : Seen) (count : ℤ)
    → 0 < n
    → Right hand n s
    → Complete hand n s
    → let r = last_resort s (hand 0) count in (r.0 < n) × Played (hand r.0) count r.1
unfolding last_resort card_99_add
last_resort-Played hand n s count pos_n r c = elim (Option-cases s.stop) [
  | inr (i, e) ↦ let p = r.stop_at i e in rw (e, last_resort) (p.0, ground (arith, p.1))
  | inl e ↦ elim (Option-cases s.kill) [
    | inr (i, e') ↦ let p = r.kill_at i e' in rw (e, e', last_resort) (p.0, ground (arith, p.1))
    | inl e' ↦ elim (Option-cases s.ten) [
      | inr (i, e2) ↦
          let p = r.ten_at i e2 in rw (e, e', e2, last_resort) (p.0, ground (arith, p.1))
      | inl e2 ↦ elim (Option-cases s.twenty) [
        | inr (i, e3) ↦
            let p = r.twenty_at i e3 in rw (e, e', e2, e3, last_resort) (p.0, ground (arith, p.1))
        | inl e3 ↦
            rw (e, e', e2, e3, last_resort)
              (
                pos_n,
                plain-Played (hand 0) count (λ h. c.stop_if 0 pos_n h e)
                    (λ h. c.twenty_if 0 pos_n h e3) (λ h. c.ten_if 0 pos_n h e2)
                    (λ h. c.kill_if 0 pos_n h e'),
              )
      ]
    ]
  ]
]

ten-Played : (j : ℕ) (count : ℤ) → j ≡ 10 → Played j count (count +ℤ pos 10)
unfolding card_99_add ◌*ℤ◌
ten-Played j count e = inl (rw e)

twenty-Played : (j : ℕ) (count : ℤ) → j ≡ 12 → Played j count (count +ℤ pos 20)
unfolding card_99_add ◌*ℤ◌
twenty-Played j count e = inl (rw e)

tens-Played :
    (hand : ℕ → ℕ) (n : ℕ) (s : Seen) (count : ℤ)
    → 0 < n
    → Right hand n s
    → Complete hand n s
    → let r = tens s (hand 0) count in (r.0 < n) × Played (hand r.0) count r.1
unfolding tens
tens-Played hand n s count pos_n r c = elim (Option-cases s.ten) [
  | inl e ↦ rw (e, tens) (last_resort-Played hand n s count pos_n r c)
  | inr (i, e) ↦ elim (Bool-cases (fits count 10)) [
    | inl f ↦ let p = r.ten_at i e in rw (e, f, tens) (p.0, ten-Played (hand i) count p.1)
    | inr f ↦ rw (e, f, tens) (last_resort-Played hand n s count pos_n r c)
  ]
]

number-Played :
    (k j : ℕ) (count : ℤ) → k ≡ j → j ≤ 9 → j ≢ 4 → j ≢ 5 → Played k count (count +ℤ pos j)
number-Played k j count e b ne ne' = rw e (
    plain-Played j count
      (λ h. elim h [ inl p ↦ ne p | inr q ↦ elim q [ inl p ↦ ne' p | inr p ↦ omega arith ] ])
      (omega arith) (omega arith) (omega arith))

nothing-Complete : (hand : ℕ → ℕ) → Complete hand 0 nothing_seen
nothing-Complete hand = record {
  stop_if = λ k l h e. omega arith;
  twenty_if = λ k l h e. omega arith;
  ten_if = λ k l h e. omega arith;
  kill_if = λ k l h e. omega arith;
}

-- The computer plays a card of its hand, and the new count is what `card_99_add` makes of the card,
-- with one of the two signs, from the old count.
pub card_99_cpu-rules :
    (cpu : List ℕ) (count : ℤ)
    → 0 < length cpu
    → let r = card_99_cpu cpu count in
      let j = card_number (get_or cpu r.0 0) in
      (r.0 < length cpu)
      × ((r.1 ≡ card_99_add j (pos 1) count) ⊎ (r.1 ≡ card_99_add j (negsuc 0) count))
unfolding card_99_cpu
card_99_cpu-rules cpu count pos_n =
    let hand = λ (i : ℕ). card_number (get_or cpu i 0) in
    let n = length cpu in
    let s = see_all 0 cpu nothing_seen in
    let shift = λ (k : ℕ). let t : k ≡ 0 + k = omega arith in ap hand t in
    let r = see_all-Right hand n 0 cpu nothing_seen (omega arith) shift (nothing-Right hand n) in
    let c =
      see_all-Complete hand n 0 cpu nothing_seen (omega arith) shift (nothing-Complete hand) in
    elim (Option-cases (highest 9 s count)) [
      | inr ((j, i), e) ↦
          let h = highest-noted 9 s count j i e in
          let p = r.num_at j i h.0 in
          rw (e, card_99_cpu) (p.0, number-Played (hand i) j count p.1 h.1 h.2 h.3)
      | inl e ↦ elim (Option-cases s.twenty) [
        | inl z ↦ rw (e, z, card_99_cpu) (tens-Played hand n s count pos_n r c)
        | inr (i, z) ↦ elim (Bool-cases (fits count 20)) [
          | inl f ↦
              let p = r.twenty_at i z in
              rw (e, z, f, card_99_cpu) (p.0, twenty-Played (hand i) count p.1)
          | inr f ↦ rw (e, z, f, card_99_cpu) (tens-Played hand n s count pos_n r c)
        ]
      ]
    ]
