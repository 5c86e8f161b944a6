-- ===== src/Edit/Ansi.antt =====
-- mbbsd/edit.c: columns of a line with escape sequences, counted with and without them.
use pttoldstable.Base.{
  ℕ, ◌+◌, ◌-◌, ◌≡◌, min, Bool, true, false, ◌&&◌, ◌||◌, List, [], ◌∷◌, arith, leb, ◌==◌,
  if◌then◌else◌,
}

-- `isalpha` in the C locale.
unfoldable pub isalpha : ℕ → Bool
isalpha c = (leb b'A' c && leb c b'Z') || (leb b'a' c && leb c b'z')

-- `KEY_ESC` is 27. `escape` says that the loop over an escape sequence is on; the result counts from the
-- byte that is next.
unfoldable pub ansi2n_loop : Bool → ℕ → List ℕ → ℕ
unfolding isalpha
ansi2n_loop escape ansix [] = 0
ansi2n_loop true ansix (c ∷ d) =
    let ended = ansi2n_loop false ansix d in
    let inside = ansi2n_loop true ansix d in
    if c == 0 then 0 else if isalpha c then ended + 1 else inside + 1
ansi2n_loop false ansix (c ∷ d) =
    let inside = ansi2n_loop true ansix d in
    let rest = ansi2n_loop false (ansix - 1) d in
    if c == 0 then 0 else if c == 27 then inside + 1 else if ansix == 0 then 0 else rest + 1

unfoldable pub ansi2n : ℕ → List ℕ → ℕ
unfolding ansi2n_loop
ansi2n ansix bytes = ansi2n_loop false ansix bytes

-- `left` bytes are before `nxp`.
unfoldable pub n2ansi_loop : Bool → ℕ → List ℕ → ℕ
unfolding isalpha
n2ansi_loop escape left [] = 0
n2ansi_loop true left (c ∷ d) =
    let ended = n2ansi_loop false (left - 1) d in
    let inside = n2ansi_loop true (left - 1) d in
    if c == 0 then 0 else if isalpha c then ended else inside
n2ansi_loop false left (c ∷ d) =
    let inside = n2ansi_loop true (left - 1) d in
    let rest = n2ansi_loop false (left - 1) d in
    if c == 0 then 0 else if c == 27 then inside else if left == 0 then 0 else rest + 1

unfoldable pub n2ansi : ℕ → List ℕ → ℕ
unfolding n2ansi_loop
n2ansi nx bytes = n2ansi_loop false nx bytes

-- The bytes of a line that are printed: all but the escape sequences.
unfoldable pub printed : Bool → List ℕ → ℕ
unfolding isalpha
printed escape [] = 0
printed true (c ∷ d) = if c == 0 then 0 else if isalpha c then printed false d else printed true d
printed false (c ∷ d) =
    if c == 0 then 0 else if c == 27 then printed true d else printed false d + 1

n2ansi_loop-ansi2n_loop :
    (escape : Bool) (x : ℕ) (d : List ℕ)
    → n2ansi_loop escape (ansi2n_loop escape x d) d ≡ min x (printed escape d)
unfolding n2ansi_loop ansi2n_loop printed isalpha
n2ansi_loop-ansi2n_loop escape x [] = omega arith
n2ansi_loop-ansi2n_loop true x (c ∷ d) =
    ground (arith, n2ansi_loop-ansi2n_loop false x d, n2ansi_loop-ansi2n_loop true x d)
n2ansi_loop-ansi2n_loop false x (c ∷ d) =
    ground (arith, n2ansi_loop-ansi2n_loop false (x - 1) d, n2ansi_loop-ansi2n_loop true x d)

-- The byte at which ansi2n finds a column of the printed line has that column for n2ansi; a column past
-- the end of the printed line becomes the column of its end.
pub n2ansi-ansi2n :
    (x : ℕ) (bytes : List ℕ) → n2ansi (ansi2n x bytes) bytes ≡ min x (printed false bytes)
unfolding n2ansi ansi2n
n2ansi-ansi2n x bytes = n2ansi_loop-ansi2n_loop false x bytes
