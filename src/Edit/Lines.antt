-- ===== src/Edit/Lines.antt =====
-- mbbsd/edit.c: what the operations on one line do to its text.
use pttoldstable.Base.{
  ℕ, suc, ◌+◌, ◌-◌, ◌≤◌, ◌<◌, ◌≡◌, ◌⊎◌, inl, inr, refl, sym, ap, ◌∙◌, Bool, false, List, [], ◌∷◌,
  ◌++◌, arith, length, length-append, length-take, length-drop, length-replicate, length-set, take,
  drop, set, get_or, replicate, leb, ◌==◌, Bool-cases, ◌&&◌, not,
}
use pttoldstable.Base.Take.{take-add-append}
use pttoldstable.Base.Bytes.{at, memcpy, at-append, memcpy_lem}
use pttoldstable.Edit.{Line, cstr, strcpy, strcat, alloc_line, adjustline, split_line, end_word}
use pttoldstable.Edit.Holds.{
  Holds, Writable, NoNul-append, cstr-append, append_assoc, append_nil, set-append,
}
use pttoldstable.Edit.Chars.{NoNul-left, NoNul-right, NoNul-insert, length-bytes, room}

-- `adjustline` cuts or fills the buffer behind the text.
pub adjustline_lem :
    (l : Line) (s : List ℕ) (len : ℕ)
    → Holds l s
    → length s ≤ len
    → Holds (adjustline l len) s × (length (adjustline l len).bytes ≡ len + 2)
unfolding adjustline
adjustline_lem l s len h le =
    let pad : List ℕ = replicate (len + 2 - length l.bytes) 0 in
    let k : len + 2 ≡ length s + suc (len + 1 - length s) = omega arith in
    let cut : take (len + 2) l.bytes ≡ s ++ 0 ∷ take (len + 1 - length s) h.rest =
      rw (h.bytes_eq, k)
        (take-add-append (length s) (suc (len + 1 - length s)) s (0 ∷ h.rest) refl) in
    (
      record {
        rest = take (len + 1 - length s) h.rest ++ pad;
        bytes_eq = rw cut (append_assoc s (0 ∷ take (len + 1 - length s) h.rest) pad);
        len_eq = h.len_eq;
        no_nul = h.no_nul;
      },
      omega (
        arith,
        length-append (take (len + 2) l.bytes) pad,
        length-take (len + 2) l.bytes,
        length-replicate {A = ℕ} (len + 2 - length l.bytes) 0,
      ),
    )

pub cut_lem :
    (l : Line) (a b : List ℕ)
    → Holds l (a ++ b)
    → Holds (record { bytes = set l.bytes (length a) 0; len = length a }) a
cut_lem l a [] h = record {
  rest = h.rest;
  bytes_eq = rw (h.bytes_eq, append_nil a) (set-append a h.rest 0 0);
  len_eq = refl;
  no_nul = NoNul-left a [] h.no_nul;
}
cut_lem l a (x ∷ b) h = record {
  rest = b ++ 0 ∷ h.rest;
  bytes_eq =
      rw (h.bytes_eq, append_assoc a (x ∷ b) (0 ∷ h.rest)) (set-append a (b ++ 0 ∷ h.rest) x 0);
  len_eq = refl;
  no_nul = NoNul-left a (x ∷ b) h.no_nul;
}

pub drop-left : (a b : List ℕ) → drop (length a) (a ++ b) ≡ b
drop-left [] b = refl
drop-left (x ∷ a) b = drop-left a b

pub tail_lem : (l : Line) (a b : List ℕ) → Holds l (a ++ b) → cstr (drop (length a) l.bytes) ≡ b
tail_lem l a b h =
    rw (h.bytes_eq, append_assoc a b (0 ∷ h.rest), drop-left a (b ++ 0 ∷ h.rest))
      (cstr-append b h.rest (NoNul-right a b h.no_nul))

pub strcpy_lem : (s d : List ℕ) → length s < length d → strcpy s d ≡ s ++ 0 ∷ drop (length s + 1) d
unfolding strcpy
strcpy_lem s d lt =
    let k : length (s ++ 0 ∷ []) ≡ length s + 1 = length-append s (0 ∷ []) in
    memcpy_lem (s ++ 0 ∷ []) d (omega arith)
    ∙ rw (k) (append_assoc s (0 ∷ []) (drop (length s + 1) d))

-- Without indentation `split` cuts the text in two.
pub split_line_lem :
    (wrapmargin : ℕ) (l : Line) (a b : List ℕ)
    → Holds l (a ++ b)
    → length b ≤ wrapmargin
    → let r = split_line wrapmargin 0 false l (length a) in
      Holds r.0 a × Holds r.1 b × Writable wrapmargin r.1
unfolding split_line alloc_line memcpy at Writable
split_line_lem wrapmargin l a b h le =
    let blank : List ℕ = replicate (wrapmargin + 2) 0 in
    let size : length blank ≡ wrapmargin + 2 = length-replicate (wrapmargin + 2) 0 in
    let copied : strcpy (cstr (drop (length a) l.bytes)) blank
        ≡ b ++ 0 ∷ drop (length b + 1) blank =
      rw (tail_lem l a b h) (strcpy_lem b blank (omega arith)) in
    (
      cut_lem l a b h,
      record {
        rest = drop (length b + 1) blank;
        bytes_eq = copied;
        len_eq = omega (arith, h.len_eq, length-append a b);
        no_nul = NoNul-right a b h.no_nul;
      },
      rw copied (
          omega (
            arith,
            length-append b (0 ∷ drop (length b + 1) blank),
            length-drop (length b + 1) blank,
            size,
          )),
    )

-- `strcat` of the text of the next line.
pub strcat_lem :
    (l n : Line) (s t : List ℕ)
    → Holds l s
    → Holds n t
    → length s + length t < length l.bytes
    → Holds (record { bytes = strcat (cstr n.bytes) l.bytes; len = l.len + n.len }) (s ++ t)
      × (length (strcat (cstr n.bytes) l.bytes) ≡ length l.bytes)
unfolding strcat
strcat_lem l n s t hl hn lt =
    let from : cstr n.bytes ≡ t = rw hn.bytes_eq (cstr-append t hn.rest hn.no_nul) in
    let to : cstr l.bytes ≡ s = rw hl.bytes_eq (cstr-append s hl.rest hl.no_nul) in
    let rest : List ℕ = drop (length t + 1) (0 ∷ hl.rest) in
    let e : strcat (cstr n.bytes) l.bytes ≡ (s ++ t) ++ 0 ∷ rest =
      rw
        (
          from,
          to,
          hl.bytes_eq,
          at-append s (0 ∷ hl.rest) (strcpy t),
          strcpy_lem t (0 ∷ hl.rest) (omega (arith, length-bytes l s hl)),
        )
        (sym (append_assoc s t (0 ∷ rest))) in
    (
      record {
        rest = rest;
        bytes_eq = e;
        len_eq = omega (arith, hl.len_eq, hn.len_eq, length-append s t);
        no_nul = NoNul-append s t hl.no_nul hn.no_nul;
      },
      omega (
        arith,
        ap length e,
        length-bytes l s hl,
        length-append (s ++ t) (0 ∷ rest),
        length-append s t,
        length-drop (length t + 1) (0 ∷ hl.rest),
      ),
    )

set-second :
    (s : List ℕ) (x z v : ℕ) (c : List ℕ)
    → set (s ++ x ∷ z ∷ c) (length s + 1) v ≡ (s ++ x ∷ []) ++ v ∷ c
set-second [] x z v c = refl
set-second (y ∷ s) x z v c =
    let e : length (y ∷ s) + 1 ≡ suc (length s + 1) = omega arith in
    rw e (ap (◌∷◌ y) (set-second s x z v c))

-- `end_word` puts a space behind a word, or nothing.
pub end_word_lem :
    (wordwrap : Bool) (l : Line) (s : List ℕ)
    → Holds l s
    → length s + 1 < length l.bytes
    → (e : List ℕ) × ((e ≡ []) ⊎ (e ≡ b' ' ∷ []))
      × Holds (end_word wordwrap l) (s ++ e)
      × (length (end_word wordwrap l).bytes ≡ length l.bytes)
unfolding end_word
end_word_lem wordwrap l s h lt =
    let (z, c, e) = room l.bytes s h.rest h.bytes_eq lt in
    let all : Bool = wordwrap && leb 1 l.len && not (get_or l.bytes (l.len - 1) 0 == b' ') in
    let spaced : Holds
        (record { bytes = set (set l.bytes l.len b' ') (l.len + 1) 0; len = l.len + 1 })
        (s ++ b' ' ∷ []) =
      record {
        rest = c;
        bytes_eq = rw (h.len_eq, e, set-append s (z ∷ c) 0 b' ') (set-second s b' ' z 0 c);
        len_eq = omega (arith, h.len_eq, length-append s (b' ' ∷ []));
        no_nul = NoNul-insert s [] b' ' (rw (append_nil s) h.no_nul) (omega arith);
      } in
    elim (Bool-cases all) [
      | inl word ↦ (
        b' ' ∷ [],
        inr refl,
        rw word spaced,
        rw word (length-set (set l.bytes l.len b' ') (l.len + 1) 0 ∙ length-set l.bytes l.len b' '),
      )
      | inr other ↦ ([], inl refl, rw (other, append_nil s) h, rw other refl)
    ]
