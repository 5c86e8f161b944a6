-- ===== src/Strings.antt =====
-- mbbsd/stuff.c: functions on texts, which are lists of bytes without the final NUL.
pub mod PathNames
use pttoldstable.Base.{
  ℕ, zero, suc, ◌+◌, Bool, true, false, not, ◌&&◌, ◌||◌, List, [], ◌∷◌, ltb, ◌==◌, if◌then◌else◌,
  get_or, take, drop, length, map,
}
use pttoldstable.Base.Text.{tolower, strcaseeq}

-- "Re: ", of which three bytes are compared.
abbrev pub str_reply : List ℕ
str_reply = b'R' ∷ b'e' ∷ b':' ∷ b' ' ∷ []

-- The title without the mark of a reply and one space behind it.
pub subject : List ℕ → List ℕ
unfolding strcaseeq
subject title =
    let rest = drop 3 title in
    if strcaseeq (take 3 title) (take 3 str_reply)
    then if get_or rest 0 0 == b' ' then drop 1 rest else rest
    else title

pub str_lower : List ℕ → List ℕ
unfolding tolower
str_lower s = map tolower s

-- The loop of `trim`, from the end; `n` is the length that is left.
pub trim_end : ℕ → List ℕ → List ℕ
trim_end zero s = s
trim_end (suc n) s =
    let shorter = trim_end n (take n s) in if get_or s n 0 == b' ' then shorter else s

pub trim : List ℕ → List ℕ
unfolding trim_end
trim s = trim_end (length s) s

-- The first newline becomes the end.
pub chomp : List ℕ → List ℕ
chomp [] = []
chomp (c ∷ s) = let rest = chomp s in if c == 10 then [] else c ∷ rest

-- proto.h
unfoldable pub not_alnum : ℕ → Bool
not_alnum ch =
    ltb ch b'0' || (ltb b'9' ch && ltb ch b'A') || (ltb b'Z' ch && ltb ch b'a') || ltb b'z' ch

-- `strchr` finds the byte.
abbrev pub has : List ℕ → ℕ → Bool
has [] c = false
has (d ∷ s) c = (d == c) || has s c

abbrev pub pname_signs : List ℕ
pname_signs = b'@' ∷ b'[' ∷ b']' ∷ b'-' ∷ b'.' ∷ b'_' ∷ []

-- What stands from p1 to p2, before the next slash or the end.
abbrev pub before_slash : List ℕ → List ℕ
before_slash [] = []
before_slash (c ∷ s) = let rest = before_slash s in if c == b'/' then [] else c ∷ rest

-- The new p1, behind the slash.
abbrev pub behind_slash : List ℕ → List ℕ
behind_slash [] = []
behind_slash (c ∷ s) = let rest = behind_slash s in if c == b'/' then s else rest

-- `strspn(p1, ".")`
abbrev pub dots : List ℕ → ℕ
dots [] = 0
dots (c ∷ s) = let rest = dots s in if c == b'.' then suc rest else 0

unfoldable pub bad_byte : ℕ → Bool
unfolding not_alnum
bad_byte c = not_alnum c && not (has pname_signs c)

unfoldable pub bad_sign : List ℕ → Bool
bad_sign [] = false
bad_sign (c ∷ s) = let rest = bad_sign s in bad_byte c || rest

-- The loop of `invalid_pname`; each round but the last passes a byte.
unfoldable pub invalid_loop : ℕ → List ℕ → Bool
unfolding bad_sign
invalid_loop zero p1 = false
invalid_loop (suc fuel) [] = false
invalid_loop (suc fuel) (c ∷ s) =
    let p1 = c ∷ s in
    let part = before_slash p1 in
    let rest = invalid_loop fuel (behind_slash p1) in
    if (length part == 0) || (dots p1 == length part) then true else bad_sign part || rest

unfoldable pub invalid_pname : List ℕ → Bool
unfolding invalid_loop
invalid_pname str = invalid_loop (length str) str
