-- ===== src/Edit/Lengths.antt =====
-- mbbsd/edit.c: where `len` and the text of a line part.
use pttoldstable.Base.{
  ℕ, zero, suc, ◌+◌, ◌-◌, ◌≤◌, ◌<◌, ◌≡◌, ◌≢◌, refl, sym, ap, ◌∙◌, true, false, List, [], ◌∷◌, ◌++◌,
  arith, length, length-append, length-take, length-drop, length-replicate, replicate, leb, ltb,
  ◌==◌, get_or, take, drop, take-append-drop,
}
use pttoldstable.Base.Bytes.{at, memcpy, at-append, memcpy_lem}
use pttoldstable.Edit.{Line, cstr, strcpy, next_non_space_char, alloc_line, split_line}
use pttoldstable.Edit.Keys.{end_rest}
use pttoldstable.Edit.Holds.{NoNul, Holds, append_assoc, cstr-append, NoNul-append, get_or-append}
use pttoldstable.Edit.Lines.{cut_lem, drop-left, tail_lem, strcpy_lem}
use pttoldstable.Edit.Chars.{NoNul-left, NoNul-right}

-- `end_rest` writes a space over the last byte of a line that does not end in a space, and counts one
-- more: the byte is lost and `len` is one more than the text has bytes. This holds for lines shorter than
-- the margin by more than two.
pub end_rest-loses :
    (wrapmargin : ℕ) (n : Line) (rest : List Line) (s : List ℕ) (x : ℕ)
    → Holds n (s ++ x ∷ [])
    → x ≢ b' '
    → length s + 2 < wrapmargin
    → (m : Line) × (end_rest wrapmargin (n ∷ rest) ≡ m ∷ rest)
      × (cstr m.bytes ≡ s ++ b' ' ∷ [])
      × (m.len ≡ length (cstr m.bytes) + 1)
unfolding end_rest NoNul
end_rest-loses wrapmargin n rest s x h ne lt =
    let size : n.len ≡ length s + 1 = h.len_eq ∙ length-append s (x ∷ []) in
    let bytes : n.bytes ≡ s ++ x ∷ 0 ∷ h.rest = h.bytes_eq ∙ append_assoc s (x ∷ []) (0 ∷ h.rest) in
    let one : leb 1 n.len ≡ true = ground arith in
    let short : ltb (n.len - 1) (wrapmargin - 2) ≡ true = ground arith in
    let last : n.len - 1 ≡ length s = omega arith in
    let other : (get_or n.bytes (n.len - 1) 0 == b' ') ≡ false =
      rw (last, bytes, get_or-append s (0 ∷ h.rest) x 0) (ground (arith, ne)) in
    let made : Line = record {
      bytes = at (n.len - 1) (strcpy (b' ' ∷ [])) n.bytes;
      len = n.len + 1;
    } in
    let copied : made.bytes ≡ s ++ b' ' ∷ 0 ∷ drop 2 (x ∷ 0 ∷ h.rest) =
      rw (last, bytes, at-append s (x ∷ 0 ∷ h.rest) (strcpy (b' ' ∷ [])))
        (ap (λ d. s ++ d) (strcpy_lem (b' ' ∷ []) (x ∷ 0 ∷ h.rest) (omega arith))) in
    let kept : NoNul (s ++ b' ' ∷ []) =
      NoNul-append s (b' ' ∷ []) (NoNul-left s (x ∷ []) h.no_nul) (omega arith, tt) in
    let text : cstr made.bytes ≡ s ++ b' ' ∷ [] =
      rw (copied, ← append_assoc s (b' ' ∷ []) (0 ∷ drop 2 (x ∷ 0 ∷ h.rest)))
        (cstr-append (s ++ b' ' ∷ []) (drop 2 (x ∷ 0 ∷ h.rest)) kept) in
    (made, rw (one, short, other) refl, text, rw text (omega (arith, length-append s (b' ' ∷ []))))

-- The spaces before a text.
spaces-append : (b r : List ℕ) → NoNul b → next_non_space_char (b ++ 0 ∷ r) ≡ next_non_space_char b
unfolding next_non_space_char NoNul
spaces-append [] r h = refl
spaces-append (c ∷ b) r h = ground (arith, spaces-append b r h.1)

spaces-le : (b : List ℕ) → next_non_space_char b ≤ length b
unfolding next_non_space_char
spaces-le [] = omega arith
spaces-le (c ∷ b) = ground (arith, spaces-le b)

blanks-NoNul : (n : ℕ) → NoNul (replicate n b' ')
unfolding NoNul
blanks-NoNul zero = tt
blanks-NoNul (suc n) = (omega arith, blanks-NoNul n)

Holds-cstr : (l : Line) (s : List ℕ) → Holds l s → cstr l.bytes ≡ s
Holds-cstr l s h = rw h.bytes_eq (cstr-append s h.rest h.no_nul)

-- The text `t` behind `spcs` spaces in a new buffer.
indented :
    (wrapmargin spcs : ℕ) (t : List ℕ)
    → NoNul t
    → spcs + length t ≤ wrapmargin
    → cstr (at spcs (strcpy t) (memcpy (replicate spcs b' ') (replicate (wrapmargin + 2) 0)))
      ≡ replicate spcs b' ' ++ t
indented wrapmargin spcs t h le =
    let blanks : List ℕ = replicate spcs b' ' in
    let buffer : List ℕ = replicate (wrapmargin + 2) 0 in
    let size : length buffer ≡ wrapmargin + 2 = length-replicate (wrapmargin + 2) 0 in
    let size_b : length blanks ≡ spcs = length-replicate spcs b' ' in
    let tail : List ℕ = drop (length blanks) buffer in
    let e : at spcs (strcpy t) (blanks ++ tail) ≡ blanks ++ strcpy t tail =
      rw (← ap (λ n. at n (strcpy t) (blanks ++ tail)) size_b) (at-append blanks tail (strcpy t)) in
    rw
      (
        memcpy_lem blanks buffer (omega arith),
        e,
        strcpy_lem t tail (omega (arith, length-drop (length blanks) buffer)),
        ← append_assoc blanks t (0 ∷ drop (length t + 1) tail),
      )
      (cstr-append (blanks ++ t) (drop (length t + 1) tail)
        (NoNul-append blanks t (blanks-NoNul spcs) h))

-- At the point where `split` has divided the text, before `adjustline` and `insert_line`: where the
-- editor indents by `spcs` spaces and the second line has room for them, the spaces behind the
-- cursor are dropped from the text of the second line but counted in its `len`, and still stand in the text
-- of the first line but are not counted there.
pub split_line-indent :
    (wrapmargin spcs : ℕ) (l : Line) (a b : List ℕ)
    → Holds l (a ++ b)
    → spcs + length b ≤ wrapmargin
    → let r = split_line wrapmargin spcs true l (length a) in
      let k = next_non_space_char b in
      (cstr r.0.bytes ≡ a ++ take k b)
      × (r.0.len + k ≡ length (cstr r.0.bytes))
      × (cstr r.1.bytes ≡ replicate spcs b' ' ++ drop k b)
      × (r.1.len ≡ length (cstr r.1.bytes) + k)
unfolding split_line alloc_line
split_line-indent wrapmargin spcs l a b h le =
    let k : ℕ = next_non_space_char b in
    let skipped : List ℕ = take k b in
    let text : List ℕ = drop k b in
    let whole : Holds l ((a ++ skipped) ++ text) =
      rw (append_assoc a skipped text, take-append-drop k b) h in
    let size : length (a ++ skipped) ≡ length a + k =
      omega (arith, length-append a skipped, length-take k b, spaces-le b) in
    let ptr : length a + next_non_space_char (drop (length a) l.bytes) ≡ length (a ++ skipped) =
      rw
        (
          h.bytes_eq,
          append_assoc a b (0 ∷ h.rest),
          drop-left a (b ++ 0 ∷ h.rest),
          spaces-append b h.rest (NoNul-right a b h.no_nul),
        )
        (sym size) in
    let left = Holds-cstr _ (a ++ skipped) (cut_lem l (a ++ skipped) text whole) in
    let right =
      indented wrapmargin spcs text (NoNul-right (a ++ skipped) text whole.no_nul)
        (omega (arith, length-drop k b)) in
    rw (ptr, left, tail_lem l (a ++ skipped) text whole, right)
      (
        refl,
        sym size,
        refl,
        omega (
          arith,
          h.len_eq,
          length-append a b,
          length-append (replicate spcs b' ') text,
          length-replicate {A = ℕ} spcs b' ',
          length-drop k b,
          spaces-le b,
        ),
      )
