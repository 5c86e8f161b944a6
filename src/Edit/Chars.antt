-- ===== src/Edit/Chars.antt =====
-- mbbsd/edit.c: one byte of a line that is put in, overwritten or taken out.
use pttoldstable.Base.{
  ℕ, suc, ◌+◌, ◌-◌, ◌<◌, ◌≡◌, ◌≢◌, ap, ◌∙◌, List, [], ◌∷◌, ◌++◌, arith, length, length-append, set,
  get_or,
}
use pttoldstable.Base.Bytes.{at, at-append}
use pttoldstable.Edit.{Line, raw_shift_left, raw_shift_right}
use pttoldstable.Edit.Holds.{
  NoNul, Holds, NoNul-append, append_assoc, set-append, raw_shift_right_lem, raw_shift_left_lem,
}

pub NoNul-left : (s t : List ℕ) → NoNul (s ++ t) → NoNul s
unfolding NoNul
NoNul-left [] t h = tt
NoNul-left (c ∷ s) t h = (h.0, NoNul-left s t h.1)

pub NoNul-right : (s t : List ℕ) → NoNul (s ++ t) → NoNul t
unfolding NoNul
NoNul-right [] t h = h
NoNul-right (c ∷ s) t h = NoNul-right s t h.1

pub NoNul-insert : (a b : List ℕ) (ch : ℕ) → NoNul (a ++ b) → ch ≢ 0 → NoNul (a ++ ch ∷ b)
unfolding NoNul
NoNul-insert a b ch h ne = NoNul-append a (ch ∷ b) (NoNul-left a b h) (ne, NoNul-right a b h)

pub NoNul-remove : (a b : List ℕ) (x : ℕ) → NoNul (a ++ x ∷ b) → NoNul (a ++ b)
unfolding NoNul
NoNul-remove a b x h = NoNul-append a b (NoNul-left a (x ∷ b) h) (NoNul-right a (x ∷ b) h).1

pub length-bytes :
    (l : Line) (s : List ℕ) (h : Holds l s) → length l.bytes ≡ length s + suc (length h.rest)
length-bytes l s h = ap length h.bytes_eq ∙ length-append s (0 ∷ h.rest)

-- A line with room has a byte at least behind the NUL.
pub room :
    (bytes s r : List ℕ)
    → bytes ≡ s ++ 0 ∷ r
    → length s + 1 < length bytes
    → (z : ℕ) × (c : List ℕ) × (bytes ≡ s ++ 0 ∷ z ∷ c)
room bytes s [] e lt = absurd (omega (arith, ap length e, length-append s (0 ∷ [])))
room bytes s (z ∷ c) e lt = (z, c, e)

pub shift-insert :
    (a b : List ℕ) (ch z : ℕ) (c : List ℕ)
    → set (at (length a) (raw_shift_right (suc (length b))) ((a ++ b) ++ 0 ∷ z ∷ c)) (length a) ch
      ≡ (a ++ ch ∷ b) ++ 0 ∷ c
shift-insert a b ch z c =
    rw
      (
        append_assoc a b (0 ∷ z ∷ c),
        at-append a (b ++ 0 ∷ z ∷ c) (raw_shift_right (suc (length b))),
        raw_shift_right_lem b z c,
        append_assoc a (ch ∷ b) (0 ∷ c),
      )
      (set-append a (b ++ 0 ∷ c) (get_or b 0 0) ch)

pub insert_lem :
    (l : Line) (a b : List ℕ) (ch : ℕ)
    → Holds l (a ++ b)
    → length (a ++ b) + 1 < length l.bytes
    → ch ≢ 0
    → let l' : Line = record {
      bytes = set (at (length a) (raw_shift_right (l.len - length a + 1)) l.bytes) (length a) ch;
      len = l.len + 1;
    } in
      Holds l' (a ++ ch ∷ b) × (length l'.bytes ≡ length l.bytes)
insert_lem l a b ch h lt ne =
    let (z, c, e) = room l.bytes (a ++ b) h.rest h.bytes_eq lt in
    let k : l.len - length a + 1 ≡ suc (length b) = omega (arith, h.len_eq, length-append a b) in
    let new : Holds
        (record {
          bytes =
              set (at (length a) (raw_shift_right (l.len - length a + 1)) l.bytes) (length a) ch;
          len = l.len + 1;
        })
        (a ++ ch ∷ b) =
      record {
        rest = c;
        bytes_eq = rw (k, e) (shift-insert a b ch z c);
        len_eq = omega (arith, h.len_eq, length-append a b, length-append a (ch ∷ b));
        no_nul = NoNul-insert a b ch h.no_nul ne;
      } in
    (
      new,
      omega (
        arith,
        length-bytes _ _ new,
        ap length e,
        length-append (a ++ b) (0 ∷ z ∷ c),
        length-append a b,
        length-append a (ch ∷ b),
      ),
    )

pub overwrite_lem :
    (l : Line) (a b : List ℕ) (x ch : ℕ)
    → Holds l (a ++ x ∷ b)
    → ch ≢ 0
    → Holds (record l { bytes = set l.bytes (length a) ch }) (a ++ ch ∷ b)
overwrite_lem l a b x ch h ne = record {
  rest = h.rest;
  bytes_eq =
      rw (h.bytes_eq, append_assoc a (x ∷ b) (0 ∷ h.rest), append_assoc a (ch ∷ b) (0 ∷ h.rest))
        (set-append a (b ++ 0 ∷ h.rest) x ch);
  len_eq = omega (arith, h.len_eq, length-append a (x ∷ b), length-append a (ch ∷ b));
  no_nul = NoNul-insert a b ch (NoNul-remove a b x h.no_nul) ne;
}

pub delete_lem :
    (l : Line) (a b : List ℕ) (x : ℕ)
    → Holds l (a ++ x ∷ b)
    → let l' : Line = record {
      bytes = at (length a) (raw_shift_left (l.len - length a + 1)) l.bytes;
      len = l.len - 1;
    } in
      Holds l' (a ++ b) × (length l'.bytes ≡ length l.bytes)
delete_lem l a b x h =
    let k : l.len - length a + 1 ≡ suc (suc (length b)) =
      omega (arith, h.len_eq, length-append a (x ∷ b)) in
    let new : Holds
        (record {
          bytes = at (length a) (raw_shift_left (l.len - length a + 1)) l.bytes;
          len = l.len - 1;
        })
        (a ++ b) =
      record {
        rest = 0 ∷ h.rest;
        bytes_eq =
            rw
              (
                h.bytes_eq,
                k,
                append_assoc a (x ∷ b) (0 ∷ h.rest),
                append_assoc a b (0 ∷ 0 ∷ h.rest),
                at-append a ((x ∷ b) ++ 0 ∷ h.rest) (raw_shift_left (suc (suc (length b)))),
              )
              (ap (λ d. a ++ d) (raw_shift_left_lem x b h.rest (NoNul-right a (x ∷ b) h.no_nul)));
        len_eq = omega (arith, h.len_eq, length-append a (x ∷ b), length-append a b);
        no_nul = NoNul-remove a b x h.no_nul;
      } in
    (
      new,
      omega (
        arith,
        length-bytes _ _ new,
        length-bytes _ _ h,
        length-append a (x ∷ b),
        length-append a b,
      ),
    )
