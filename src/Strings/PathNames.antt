-- ===== src/Strings/PathNames.antt =====
-- mbbsd/stuff.c: the names of paths that `invalid_pname` lets through.
use pttoldstable.Base.{
  ℕ, zero, suc, ◌≤◌, ◌≡◌, ◌≢◌, ◌⊎◌, ◌↔◌, refl, ap, ap₂, sym, subst, inl, inr, Bool, true, false,
  ◌||◌, List, [], ◌∷◌, ◌++◌, arith, ◌==◌, length, length-append, replicate, ℕ_discrete, Bool-cases,
}
use pttoldstable.Strings.{
  not_alnum, before_slash, behind_slash, dots, bad_byte, bad_sign, invalid_loop, invalid_pname,
}

-- Bytes that a part of a path may have: digits, letters and the signs @ [ ] - . _
abbrev pub AllowedByte : ℕ → Type 0
AllowedByte c =
    ((48 ≤ c) × (c ≤ 57))
    ⊎ ((65 ≤ c) × (c ≤ 90))
    ⊎ ((97 ≤ c) × (c ≤ 122))
    ⊎ (c ≡ 64)
    ⊎ (c ≡ 91)
    ⊎ (c ≡ 93)
    ⊎ (c ≡ 45)
    ⊎ (c ≡ 46)
    ⊎ (c ≡ 95)

abbrev pub AllAllowed : List ℕ → Type 0
AllAllowed [] = Unit
AllAllowed (c ∷ s) = AllowedByte c × AllAllowed s

bad_byte-AllowedByte : (c : ℕ) → (bad_byte c ≡ false) ↔ AllowedByte c
unfolding bad_byte not_alnum
bad_byte-AllowedByte c = (λ h. ground arith, λ h. ground arith)

-- A part of a path that names neither the folder itself nor the one above.
pub record IsPart (s : List ℕ) : Type 0 where
  pub some_byte : s ≢ []
  pub no_dots : s ≢ replicate (length s) b'.'
  pub allowed : AllAllowed s

-- Parts with a slash between each and the next, and perhaps one at the end.
pub data IsPath : List ℕ → Type 0 where
  none_left : IsPath []
  last : {s : List ℕ} → IsPart s → IsPath s
  part : {s t : List ℕ} → IsPart s → IsPath t → IsPath (s ++ b'/' ∷ t)

-- The first part and what follows it make up the text.
split_lem :
    (s : List ℕ)
    → (s ≡ before_slash s) × (behind_slash s ≡ []) ⊎ (s ≡ before_slash s ++ b'/' ∷ behind_slash s)
split_lem [] = inl (refl, refl)
split_lem (c ∷ s) = elim (ℕ_discrete c b'/') [
  | yes e ↦ let t : (c == b'/') ≡ true = ground arith in inr (rw (t, e) refl)
  | no e ↦
      let t : (c == b'/') ≡ false = ground arith in
      elim (split_lem s) [
        | inl (f, g) ↦ inl (rw t (ap (◌∷◌ c) f), rw t g)
        | inr f ↦ inr (rw t (ap (◌∷◌ c) f))
      ]
]

dots-before_slash : (s : List ℕ) → dots s ≡ dots (before_slash s)
dots-before_slash [] = refl
dots-before_slash (c ∷ s) = ground (arith, dots-before_slash s)

dots_all : (s : List ℕ) → dots s ≡ length s → s ≡ replicate (length s) b'.'
dots_all [] e = refl
dots_all (c ∷ s) e = elim (ℕ_discrete c b'.') [
  | yes h ↦
      let t : (c == b'.') ≡ true = ground arith in
      let e' : dots s ≡ length s = ground arith in ap₂ (λ x l. x ∷ l) h (dots_all s e')
  | no h ↦ ground arith
]

all_dots : (s : List ℕ) → s ≡ replicate (length s) b'.' → dots s ≡ length s
all_dots [] e = refl
all_dots (c ∷ s) e =
    let h : c ≡ b'.' = cc in
    let f : s ≡ replicate (length s) b'.' = cc in
    let t : (c == b'.') ≡ true = ground arith in rw t (ap suc (all_dots s f))

or_false : (a b : Bool) → ((a || b) ≡ false) ↔ ((a ≡ false) × (b ≡ false))
or_false true b = ((λ e. absurd cc), λ h. absurd cc)
or_false false b = ((λ e. (refl, e)), λ h. h.1)

bad_sign-AllAllowed : (s : List ℕ) → (bad_sign s ≡ false) ↔ AllAllowed s
unfolding bad_sign
bad_sign-AllAllowed [] = ((λ _. tt), λ _. refl)
bad_sign-AllAllowed (c ∷ s) =
    let (f, g) = bad_sign-AllAllowed s in
    let (u, v) = bad_byte-AllowedByte c in
    let (p, q) = or_false (bad_byte c) (bad_sign s) in
    ((λ e. let (b, r) = p e in (u b, f r)), λ h. q (v h.0, g h.1))

length-behind_slash : (c : ℕ) (s : List ℕ) → length (behind_slash (c ∷ s)) ≤ length s
length-behind_slash c [] = ground arith
length-behind_slash c (d ∷ s) = ground (arith, length-behind_slash d s)

-- An allowed byte is no slash.
slash_bad : (c : ℕ) → AllowedByte c → (c == b'/') ≡ false
slash_bad c h = ground arith

before_slash-append :
    (s t : List ℕ)
    → AllAllowed s
    → (before_slash (s ++ b'/' ∷ t) ≡ s)
      × (behind_slash (s ++ b'/' ∷ t) ≡ t)
      × (before_slash s ≡ s)
      × (behind_slash s ≡ [])
before_slash-append [] t h = (refl, refl, refl, refl)
before_slash-append (c ∷ s) t h =
    let k : (c == b'/') ≡ false = slash_bad c h.0 in
    let (a, b, d, e) = before_slash-append s t h.1 in rw k (ap (◌∷◌ c) a, b, ap (◌∷◌ c) d, e)

-- What the loop asks of the first part.
IsPart-test :
    (s : List ℕ)
    → (((length s == 0) || (dots s == length s)) ≡ false) × (bad_sign s ≡ false)
    → IsPart s
IsPart-test s (h, k) = record {
  some_byte = λ e. let n : length s ≡ 0 = ap length e in ground arith;
  no_dots = λ e. let d = all_dots s e in ground arith;
  allowed = (bad_sign-AllAllowed s).0 k;
}

test-IsPart :
    (s : List ℕ)
    → IsPart s
    → (((length s == 0) || (dots s == length s)) ≡ false) × (bad_sign s ≡ false)
test-IsPart [] p = absurd (p.some_byte refl)
test-IsPart (c ∷ s) p = (
  elim (ℕ_discrete (dots (c ∷ s)) (length (c ∷ s))) [
    | yes e ↦ absurd (p.no_dots (dots_all (c ∷ s) e))
    | no e ↦ ground arith
  ],
  (bad_sign-AllAllowed (c ∷ s)).1 p.allowed,
)

-- One round of the loop.
invalid_loop-round :
    (fuel c : ℕ) (s : List ℕ)
    → (invalid_loop (suc fuel) (c ∷ s) ≡ false)
      ↔ (IsPart (before_slash (c ∷ s)) × (invalid_loop fuel (behind_slash (c ∷ s)) ≡ false))
unfolding invalid_loop
invalid_loop-round fuel c s =
    let a = before_slash (c ∷ s) in
    let r = invalid_loop fuel (behind_slash (c ∷ s)) in
    let (p, q) = or_false (bad_sign a) r in
    rw (dots-before_slash (c ∷ s)) (elim (Bool-cases ((length a == 0) || (dots a == length a))) [
      | inl t ↦ rw t ((λ e. absurd cc), λ h. let (u, _) = test-IsPart a h.0 in absurd cc)
      | inr t ↦ rw t (
        (λ e. let (u, v) = p e in (IsPart-test a (t, u), v)),
        λ h. let (_, u) = test-IsPart a h.0 in q (u, h.1),
      )
    ])

invalid_loop-IsPath :
    (fuel : ℕ) (s : List ℕ) → length s ≤ fuel → invalid_loop fuel s ≡ false → IsPath s
invalid_loop-IsPath zero [] h e = none_left
invalid_loop-IsPath zero (c ∷ s) h e = absurd (omega arith)
invalid_loop-IsPath (suc fuel) [] h e = none_left
invalid_loop-IsPath (suc fuel) (c ∷ s) h e =
    let (p, r) = (invalid_loop-round fuel c s).0 e in
    elim (split_lem (c ∷ s)) [
      | inl (f, _) ↦ subst IsPath (sym f) (last p)
      | inr f ↦
          let n : length (behind_slash (c ∷ s)) ≤ fuel = omega (arith, length-behind_slash c s) in
          subst IsPath (sym f) (part p (invalid_loop-IsPath fuel (behind_slash (c ∷ s)) n r))
    ]

IsPath-invalid_loop :
    {s : List ℕ} → IsPath s → (fuel : ℕ) → length s ≤ fuel → invalid_loop fuel s ≡ false
unfolding invalid_loop
IsPath-invalid_loop none_left zero h = refl
IsPath-invalid_loop none_left (suc fuel) h = refl
IsPath-invalid_loop (last {s = []} p) fuel h = absurd (p.some_byte refl)
IsPath-invalid_loop (last {s = c ∷ s} p) zero h = absurd (omega arith)
IsPath-invalid_loop (last {s = c ∷ s} p) (suc fuel) h =
    let (_, _, a, b) = before_slash-append (c ∷ s) [] p.allowed in
    (invalid_loop-round fuel c s).1
      (rw a p, rw b (IsPath-invalid_loop none_left fuel (omega arith)))
IsPath-invalid_loop (part {s = []} {t} p q) fuel h = absurd (p.some_byte refl)
IsPath-invalid_loop (part {s = c ∷ s} {t} p q) zero h = absurd (omega arith)
IsPath-invalid_loop (part {s = c ∷ s} {t} p q) (suc fuel) h =
    let (a, b, _, _) = before_slash-append (c ∷ s) t p.allowed in
    let n : length t ≤ fuel = omega (arith, length-append s (b'/' ∷ t)) in
    (invalid_loop-round fuel c (s ++ b'/' ∷ t)).1 (rw a p, rw b (IsPath-invalid_loop q fuel n))

-- `invalid_pname` lets a text through exactly when it is empty or consists of parts with a slash
-- between each and the next, and perhaps one at the end, where each part has a byte or more, not dots
-- alone, and only letters, digits and the signs @ [ ] - . _ in it.
pub invalid_pname-IsPath : (str : List ℕ) → (invalid_pname str ≡ false) ↔ IsPath str
unfolding invalid_pname
invalid_pname-IsPath str =
    let n : length str ≤ length str = omega arith in
    (invalid_loop-IsPath (length str) str n, λ p. IsPath-invalid_loop p (length str) n)
