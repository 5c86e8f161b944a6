-- ===== src/Edit/Links/Delete.antt =====
-- mbbsd/edit.c: `delete_line` on the chains of pointers.
use pttoldstable.Base.{
  ℕ, ◌≡◌, ◌≢◌, refl, sym, ap, ap₂, ◌∙◌, Bool, List, [], ◌∷◌, ◌++◌, Option, none, some, arith, inl,
  inr, if◌then◌else◌, ◌-◌,
}
use pttoldstable.Edit.Links.{
  Links, set_prev, set_next, link_prev, link_next, unlink_line, delete_line, delete_between, head,
  Absent, Distinct, Chained, HasLines, Among, not-Among, Chained-frame, next_of, link_prev-prev,
  link_prev-next, link_prev-first, link_next-next, link_next-prev, link_next-last, some_injective,
  head_ne, Absent-behind,
}

-- The line before a chain is not in it.
unfoldable Off : Option ℕ → List ℕ → Type 0
Off none xs = Unit
Off (some a) xs = Absent a xs

Off-ne : (q : Option ℕ) (y : ℕ) (xs : List ℕ) → Off q xs → Among y xs → q ≢ some y
unfolding Off
Off-ne none y xs h a e = cc
Off-ne (some b) y xs h a e = not-Among y b xs h a (sym (some_injective b y e))

Off-behind :
    (q : Option ℕ) (xs : List ℕ) (line : ℕ) (ys : List ℕ) → Off q (xs ++ line ∷ ys) → Off q ys
unfolding Off
Off-behind none xs line ys h = tt
Off-behind (some b) xs line ys h = (Absent-behind b xs line ys h).1

-- The line before `line`, for a line that is not the first one.
prev_of :
    (s : Links) (a : ℕ) (xs : List ℕ) (line : ℕ) (ys : List ℕ)
    → Chained s (some a) (xs ++ line ∷ ys)
    → (y : ℕ) × (s.prev line ≡ some y) × Among y (a ∷ xs)
unfolding Chained Among
prev_of s a [] line ys h = (a, h.0, inl refl)
prev_of s a (x ∷ xs) line ys h = let (y, e, m) = prev_of s x xs line ys h.2 in (y, e, inr m)

Among-append : (y : ℕ) (xs ys : List ℕ) → Among y xs → Among y (xs ++ ys)
unfolding Among
Among-append y [] ys a = absurd a
Among-append y (x ∷ xs) ys (inl e) = inl e
Among-append y (x ∷ xs) ys (inr a) = inr (Among-append y xs ys a)

Absent-remove :
    (y : ℕ) (xs : List ℕ) (line : ℕ) (ys : List ℕ)
    → Absent y (xs ++ line ∷ ys)
    → Absent y (xs ++ ys)
unfolding Absent
Absent-remove y [] line ys h = h.1
Absent-remove y (x ∷ xs) line ys h = (h.0, Absent-remove y xs line ys h.1)

Distinct-remove :
    (xs : List ℕ) (line : ℕ) (ys : List ℕ) → Distinct (xs ++ line ∷ ys) → Distinct (xs ++ ys)
unfolding Distinct
Distinct-remove [] line ys d = d.1
Distinct-remove (x ∷ xs) line ys d =
    (Absent-remove x xs line ys d.0, Distinct-remove xs line ys d.1)

module _ (s : Links) (line : ℕ) (saved : Bool) where
  unlink-prev : (y : ℕ) → s.next line ≢ some y → (unlink_line line saved s).prev y ≡ s.prev y
  unfolding unlink_line
  unlink-prev y h =
      link_next-prev (s.prev line) (s.next line) (link_prev (s.next line) (s.prev line) s) y
      ∙ link_prev-prev (s.next line) (s.prev line) s y h

  unlink-next : (y : ℕ) → s.prev line ≢ some y → (unlink_line line saved s).next y ≡ s.next y
  unfolding unlink_line
  unlink-next y h =
      link_next-next (s.prev line) (s.next line) (link_prev (s.next line) (s.prev line) s) y h
      ∙ link_prev-next (s.next line) (s.prev line) s y

  unlink-new_prev : (n : ℕ) → s.next line ≡ some n → (unlink_line line saved s).prev n ≡ s.prev line
  unfolding unlink_line link_prev set_prev
  unlink-new_prev n e =
      link_next-prev (s.prev line) (s.next line) (link_prev (s.next line) (s.prev line) s) n
      ∙ rw e (ground arith)

  unlink-new_next : (p : ℕ) → s.prev line ≡ some p → (unlink_line line saved s).next p ≡ s.next line
  unfolding unlink_line link_next set_next
  unlink-new_next p e = rw e (ground arith)

  unlink-last :
      (unlink_line line saved s).lastline ≡ (link_prev (s.next line) (s.prev line) s).lastline
  unfolding unlink_line
  unlink-last = link_next-last (s.prev line) (s.next line) (link_prev (s.next line) (s.prev line) s)

  unlink-rest :
      (ys : List ℕ)
      → s.next line ≡ head ys
      → Off (s.prev line) ys
      → Distinct ys
      → Chained s (some line) ys
      → Chained (unlink_line line saved s) (s.prev line) ys
  unfolding Chained Distinct link_prev set_prev head Among
  unlink-rest [] e o d h = unlink-last ∙ rw e refl
  unlink-rest (n ∷ ys) e o d h = (
    unlink-new_prev n e,
    unlink-next n (Off-ne (s.prev line) n (n ∷ ys) o (inl refl)) ∙ h.1,
    Chained-frame s (unlink_line line saved s) (some n) ys
        (λ y a. (
          unlink-prev y (λ same. not-Among y n ys d.0 a (sym (some_injective n y (sym e ∙ same)))),
          unlink-next y (Off-ne (s.prev line) y (n ∷ ys) o (inr a)),
        ))
        (unlink-last ∙ rw e refl) h.2,
  )

  -- The line before the deleted one, or an earlier one.
  unlink-before :
      (x : ℕ) (xs ys : List ℕ)
      → Absent x (xs ++ line ∷ ys)
      → s.next x ≡ head (xs ++ line ∷ ys)
      → Chained s (some x) (xs ++ line ∷ ys)
      → (unlink_line line saved s).next x ≡ head (xs ++ ys)
  unfolding Chained head
  unlink-before x [] ys o e h = unlink-new_next x h.0 ∙ h.1
  unlink-before x (z ∷ zs) ys o e h =
      let (y, last, m) = prev_of s z zs line ys h.2 in
      let other : y ≢ x =
        not-Among y x ((z ∷ zs) ++ line ∷ ys) o (Among-append y (z ∷ zs) (line ∷ ys) m) in
      unlink-next x (λ same. other (some_injective y x (sym last ∙ same))) ∙ e

  unlink-Chained :
      (q : Option ℕ) (xs ys : List ℕ)
      → Off q (xs ++ line ∷ ys)
      → Distinct (xs ++ line ∷ ys)
      → Chained s q (xs ++ line ∷ ys)
      → Chained (unlink_line line saved s) q (xs ++ ys)
  unfolding Chained Distinct head Absent Off
  unlink-Chained q [] ys o d h =
      rw (← h.0) (unlink-rest ys h.1 (rw h.0 (Off-behind q [] line ys o)) d.1 h.2)
  unlink-Chained q (x ∷ xs) ys o d h =
      let behind = Absent-behind x xs line ys d.0 in
      let from = unlink-Chained (some x) xs ys d.0 d.1 h.2 in
      let from_next = next_of s (some x) xs line ys h.2 in
      (
        unlink-prev x (λ e. head_ne x ys behind.1 (sym from_next ∙ e)) ∙ h.0,
        unlink-before x xs ys d.0 h.1 h.2,
        from,
      )

  unlink-first :
      (xs ys : List ℕ)
      → s.firstline ≡ head (xs ++ line ∷ ys)
      → Chained s none (xs ++ line ∷ ys)
      → (unlink_line line saved s).firstline ≡ head (xs ++ ys)
  unfolding unlink_line link_next link_prev set_next set_prev head Chained
  unlink-first [] ys e h = rw h.0 h.1
  unlink-first (x ∷ xs) ys e h =
      let (y, last, m) = prev_of s x xs line ys h.2 in
      rw last (link_prev-first (s.next line) (some y) s ∙ e)

-- The links do not touch the counter and the saved line.
links-kept :
    (p n : Option ℕ) (s : Links)
    → ((link_next p n (link_prev n p s)).totaln ≡ s.totaln)
      × ((link_next p n (link_prev n p s)).deleted_line ≡ s.deleted_line)
unfolding link_next link_prev set_next set_prev
links-kept none none s = (refl, refl)
links-kept none (some n) s = (refl, refl)
links-kept (some p) none s = (refl, refl)
links-kept (some p) (some n) s = (refl, refl)

delete-first :
    (s : Links) (n line : ℕ) (saved : Bool)
    → delete_between none (some n) line saved s ≡ unlink_line line saved s
unfolding delete_between
delete-first s n line saved = refl

delete-later :
    (s : Links) (p : ℕ) (n : Option ℕ) (line : ℕ) (saved : Bool)
    → delete_between (some p) n line saved s ≡ unlink_line line saved s
unfolding delete_between
delete-later s p n line saved = refl

several_lines :
    (s : Links) (xs : List ℕ) (line : ℕ) (ys : List ℕ) (saved : Bool)
    → Chained s none (xs ++ line ∷ ys)
    → xs ++ ys ≢ []
    → delete_line line saved s ≡ unlink_line line saved s
unfolding delete_line Chained head
several_lines s [] line [] saved h ne = absurd (ne refl)
several_lines s [] line (n ∷ ys) saved h ne =
    ap₂ (λ p q. delete_between p q line saved s) h.0 h.1 ∙ delete-first s n line saved
several_lines s (x ∷ xs) line ys saved h ne =
    let (y, last, m) = prev_of s x xs line ys h.2 in
    ap (λ p. delete_between p (s.next line) line saved s) last
    ∙ delete-later s y (s.next line) line saved

-- `delete_line` takes one of several lines out of the article, counts one line less, and saves the line
-- if it is told to.
pub delete_line-HasLines :
    (s : Links) (xs : List ℕ) (line : ℕ) (ys : List ℕ) (saved : Bool)
    → HasLines s (xs ++ line ∷ ys)
    → xs ++ ys ≢ []
    → HasLines (delete_line line saved s) (xs ++ ys)
      × ((delete_line line saved s).totaln ≡ s.totaln - 1)
      × ((delete_line line saved s).deleted_line ≡ (if saved then some line else s.deleted_line))
unfolding unlink_line Off
delete_line-HasLines s xs line ys saved h several =
    let kept = links-kept (s.prev line) (s.next line) s in
    rw (several_lines s xs line ys saved h.chained several) (
      record {
        first = unlink-first s line saved xs ys h.first h.chained;
        chained = unlink-Chained s line saved none xs ys tt h.distinct h.chained;
        distinct = Distinct-remove xs line ys h.distinct;
      },
      ap (λ n. n - 1) kept.0,
      ap (λ o. if saved then some line else o) kept.1,
    )
