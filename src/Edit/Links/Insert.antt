-- ===== src/Edit/Links/Insert.antt =====
-- mbbsd/edit.c: `insert_line` on the chains of pointers.
use pttoldstable.Base.{ℕ, ◌≡◌, ◌≢◌, refl, sym, ◌∙◌, List, [], ◌∷◌, ◌++◌, Option, none, some, arith}
use pttoldstable.Edit.Links.{
  Links, set_prev, set_next, link_prev, insert_line, head, Absent, Distinct, Chained, HasLines,
  not-Among, Chained-frame, next_of, link_prev-prev, link_prev-next, link_prev-first,
  some_injective, head_ne, Absent-behind, head_same,
}

-- What `insert_line` leaves as it was.
insert-prev :
    (s : Links) (line p y : ℕ)
    → y ≢ p
    → s.next line ≢ some y
    → (insert_line line p s).prev y ≡ s.prev y
unfolding insert_line set_prev set_next
insert-prev s line p y np nn =
    ground (arith, link_prev-prev (s.next line) (some p) (set_next p (s.next line) s) y nn, np)

insert-next :
    (s : Links) (line p y : ℕ) → y ≢ p → y ≢ line → (insert_line line p s).next y ≡ s.next y
unfolding insert_line set_prev set_next
insert-next s line p y np nl =
    ground (arith, link_prev-next (s.next line) (some p) (set_next p (s.next line) s) y, np, nl)

-- What it sets.
insert-new :
    (s : Links) (line p : ℕ)
    → line ≢ p
    → ((insert_line line p s).prev p ≡ some line)
      × ((insert_line line p s).next p ≡ s.next line)
      × ((insert_line line p s).next line ≡ some p)
unfolding insert_line set_prev set_next
insert-new s line p ne = (
  ground arith,
  ground (arith, link_prev-next (s.next line) (some p) (set_next p (s.next line) s) p, ne),
  ground arith,
)

-- The end of the chain after the new line.
insert-rest :
    (s : Links) (line p : ℕ) (ys : List ℕ)
    → s.next line ≡ head ys
    → Absent line ys
    → Absent p ys
    → Distinct ys
    → Chained s (some line) ys
    → Chained (insert_line line p s) (some p) ys
unfolding Chained Absent Distinct insert_line set_prev set_next link_prev head
insert-rest s line p [] e hl hp d h = rw e refl
insert-rest s line p (n ∷ ys) e hl hp d h =
    let next_ne : (y : ℕ) → y ≢ n → s.next line ≢ some y =
      λ y ne same. ne (sym (some_injective n y (sym e ∙ same))) in
    let fresh : n ≢ p = λ z. hp.0 (sym z) in
    (
      rw e (ground (arith, fresh)),
      insert-next s line p n fresh (λ z. hl.0 (sym z)) ∙ h.1,
      Chained-frame s (insert_line line p s) (some n) ys
          (λ y a. (
            insert-prev s line p y (not-Among y p ys hp.1 a) (next_ne y (not-Among y n ys d.0 a)),
            insert-next s line p y (not-Among y p ys hp.1 a) (not-Among y line ys hl.1 a),
          ))
          (rw e refl) h.2,
    )

insert-Chained :
    (s : Links) (q : Option ℕ) (xs : List ℕ) (line p : ℕ) (ys : List ℕ)
    → Absent p (xs ++ line ∷ ys)
    → Distinct (xs ++ line ∷ ys)
    → Chained s q (xs ++ line ∷ ys)
    → Chained (insert_line line p s) q (xs ++ line ∷ p ∷ ys)
unfolding Chained Absent Distinct head
insert-Chained s q [] line p ys np d h =
    let new = insert-new s line p (λ e. np.0 (sym e)) in
    (
      insert-prev s line p line (λ e. np.0 (sym e)) (λ e. head_ne line ys d.0 (sym h.1 ∙ e)) ∙ h.0,
      new.2,
      (new.0, new.1 ∙ h.1, insert-rest s line p ys h.1 d.0 np.1 d.1 h.2),
    )
insert-Chained s q (x ∷ xs) line p ys np d h =
    let behind = Absent-behind x xs line ys d.0 in
    (
      insert-prev s line p x (λ e. np.0 (sym e))
            (λ e. head_ne x ys behind.1 (sym (next_of s (some x) xs line ys h.2) ∙ e))
          ∙ h.0,
      insert-next s line p x (λ e. np.0 (sym e)) behind.0 ∙ h.1 ∙ head_same xs line ys (p ∷ ys),
      insert-Chained s (some x) xs line p ys np.1 d.1 h.2,
    )

Absent-insert :
    (y : ℕ) (xs : List ℕ) (line p : ℕ) (ys : List ℕ)
    → y ≢ p
    → Absent y (xs ++ line ∷ ys)
    → Absent y (xs ++ line ∷ p ∷ ys)
unfolding Absent
Absent-insert y [] line p ys ne h = (h.0, (ne, h.1))
Absent-insert y (x ∷ xs) line p ys ne h = (h.0, Absent-insert y xs line p ys ne h.1)

Distinct-insert :
    (xs : List ℕ) (line p : ℕ) (ys : List ℕ)
    → Absent p (xs ++ line ∷ ys)
    → Distinct (xs ++ line ∷ ys)
    → Distinct (xs ++ line ∷ p ∷ ys)
unfolding Absent Distinct
Distinct-insert [] line p ys np d = (((λ e. np.0 (sym e)), d.0), (np.1, d.1))
Distinct-insert (x ∷ xs) line p ys np d =
    (Absent-insert x xs line p ys (λ e. np.0 (sym e)) d.0, Distinct-insert xs line p ys np.1 d.1)

insert-first : (s : Links) (line p : ℕ) → (insert_line line p s).firstline ≡ s.firstline
unfolding insert_line set_prev set_next link_prev
insert-first s line p = link_prev-first (s.next line) (some p) (set_next p (s.next line) s)

-- `insert_line` puts a new line behind a line of the article.
pub insert_line-HasLines :
    (s : Links) (xs : List ℕ) (line p : ℕ) (ys : List ℕ)
    → HasLines s (xs ++ line ∷ ys)
    → Absent p (xs ++ line ∷ ys)
    → HasLines (insert_line line p s) (xs ++ line ∷ p ∷ ys)
insert_line-HasLines s xs line p ys h np = record {
  first = insert-first s line p ∙ h.first ∙ head_same xs line ys (p ∷ ys);
  chained = insert-Chained s none xs line p ys np h.distinct h.chained;
  distinct = Distinct-insert xs line p ys np h.distinct;
}
