-- ===== src/Edit/Links.antt =====
-- mbbsd/edit.c: the list of lines as pointers. `insert_line` and `delete_line` keep the two chains of
-- pointers a list, on which they insert and delete.
pub mod Insert
pub mod Delete
use pttoldstable.Base.{
  ℕ, zero, suc, ◌≡◌, ◌≢◌, refl, sym, ap, ◌∙◌, Bool, true, false, List, [], ◌∷◌, ◌++◌, Option, none,
  some, arith, ◌⊎◌, inl, inr, ◌==◌, if◌then◌else◌, ◌-◌, ◌+◌,
}

-- The lines are numbers. The fields `prev` and `next` of each line, with `firstline`, `lastline`,
-- `totaln` and `deleted_line` of the buffer.
pub record Links : Type 0 where
  pub prev : ℕ → Option ℕ
  pub next : ℕ → Option ℕ
  pub firstline : Option ℕ
  pub lastline : Option ℕ
  pub totaln : ℕ
  pub deleted_line : Option ℕ

unfoldable pub set_prev : ℕ → Option ℕ → Links → Links
set_prev line p s = record s { prev = λ i. if i == line then p else s.prev i }

unfoldable pub set_next : ℕ → Option ℕ → Links → Links
set_next line p s = record s { next = λ i. if i == line then p else s.next i }

-- `if (n) n->prev = p; else lastline = p`
unfoldable pub link_prev : Option ℕ → Option ℕ → Links → Links
unfolding set_prev
link_prev (some n) p s = set_prev n p s
link_prev none p s = record s { lastline = p }

-- `if (p) p->next = n; else firstline = n`
unfoldable pub link_next : Option ℕ → Option ℕ → Links → Links
unfolding set_next
link_next (some p) n s = set_next p n s
link_next none n s = record s { firstline = n }

unfoldable pub insert_line : ℕ → ℕ → Links → Links
unfolding link_prev set_next set_prev
insert_line line p s =
    let n = s.next line in
    set_prev p (some line) (set_next line (some p) (link_prev n (some p) (set_next p n s)))

-- `delete_line` of a line that is not the only one.
unfoldable pub unlink_line : ℕ → Bool → Links → Links
unfolding link_prev link_next
unlink_line line saved s =
    let p = s.prev line in
    let n = s.next line in
    let t = link_next p n (link_prev n p s) in
    record t { totaln = t.totaln - 1; deleted_line = if saved then some line else t.deleted_line }

-- The null pointer on both sides is the only line: the text is emptied, the links stay.
unfoldable pub delete_between : Option ℕ → Option ℕ → ℕ → Bool → Links → Links
delete_between none none line saved s = s
delete_between none (some n) line saved s = unlink_line line saved s
delete_between (some p) n line saved s = unlink_line line saved s

unfoldable pub delete_line : ℕ → Bool → Links → Links
delete_line line saved s = delete_between (s.prev line) (s.next line) line saved s

unfoldable pub head : List ℕ → Option ℕ
head [] = none
head (x ∷ xs) = some x

unfoldable pub Absent : ℕ → List ℕ → Type 0
Absent y [] = Unit
Absent y (x ∷ xs) = (y ≢ x) × Absent y xs

unfoldable pub Distinct : List ℕ → Type 0
Distinct [] = Unit
Distinct (x ∷ xs) = Absent x xs × Distinct xs

-- The lines `xs` are chained both ways, the first one after `p`, and the last one is `lastline`.
unfoldable pub Chained : Links → Option ℕ → List ℕ → Type 0
Chained s p [] = s.lastline ≡ p
Chained s p (x ∷ xs) = (s.prev x ≡ p) × (s.next x ≡ head xs) × Chained s (some x) xs

-- The article has the lines `xs`, in this order.
pub record HasLines (s : Links) (xs : List ℕ) : Type 0 where
  pub first : s.firstline ≡ head xs
  pub chained : Chained s none xs
  pub distinct : Distinct xs

unfoldable pub Among : ℕ → List ℕ → Type 0
Among y [] = ⊥
Among y (x ∷ xs) = (y ≡ x) ⊎ Among y xs

pub not-Among : (y z : ℕ) (xs : List ℕ) → Absent z xs → Among y xs → y ≢ z
unfolding Absent Among
not-Among y z [] h a = absurd a
not-Among y z (x ∷ xs) h (inl e) = λ same. h.0 (sym same ∙ e)
not-Among y z (x ∷ xs) h (inr a) = not-Among y z xs h.1 a

-- Links that agree on the lines of a chain.
pub Chained-frame :
    (s t : Links) (p : Option ℕ) (xs : List ℕ)
    → ((y : ℕ) → Among y xs → (t.prev y ≡ s.prev y) × (t.next y ≡ s.next y))
    → t.lastline ≡ s.lastline
    → Chained s p xs
    → Chained t p xs
unfolding Chained Among
Chained-frame s t p [] same l h = l ∙ h
Chained-frame s t p (x ∷ xs) same l h = (
  (same x (inl refl)).0 ∙ h.0,
  (same x (inl refl)).1 ∙ h.1,
  Chained-frame s t (some x) xs (λ y a. same y (inr a)) l h.2,
)

-- The line after `line`.
pub next_of :
    (s : Links) (q : Option ℕ) (xs : List ℕ) (line : ℕ) (ys : List ℕ)
    → Chained s q (xs ++ line ∷ ys)
    → s.next line ≡ head ys
unfolding Chained
next_of s q [] line ys h = h.1
next_of s q (x ∷ xs) line ys h = next_of s (some x) xs line ys h.2

pub link_prev-prev :
    (n : Option ℕ) (p : Option ℕ) (s : Links) (y : ℕ)
    → n ≢ some y
    → (link_prev n p s).prev y ≡ s.prev y
unfolding link_prev set_prev
link_prev-prev none p s y h = refl
link_prev-prev (some m) p s y h =
    let other : y ≢ m = λ e. h (ap some (sym e)) in ground (arith, other)

pub link_prev-next :
    (n : Option ℕ) (p : Option ℕ) (s : Links) (y : ℕ) → (link_prev n p s).next y ≡ s.next y
unfolding link_prev set_prev
link_prev-next none p s y = refl
link_prev-next (some m) p s y = refl

pub link_prev-first :
    (n : Option ℕ) (p : Option ℕ) (s : Links) → (link_prev n p s).firstline ≡ s.firstline
unfolding link_prev set_prev
link_prev-first none p s = refl
link_prev-first (some m) p s = refl

pub link_next-next :
    (q : Option ℕ) (n : Option ℕ) (s : Links) (y : ℕ)
    → q ≢ some y
    → (link_next q n s).next y ≡ s.next y
unfolding link_next set_next
link_next-next none n s y h = refl
link_next-next (some m) n s y h =
    let other : y ≢ m = λ e. h (ap some (sym e)) in ground (arith, other)

pub link_next-prev :
    (q : Option ℕ) (n : Option ℕ) (s : Links) (y : ℕ) → (link_next q n s).prev y ≡ s.prev y
unfolding link_next set_next
link_next-prev none n s y = refl
link_next-prev (some m) n s y = refl

pub link_next-last :
    (q : Option ℕ) (n : Option ℕ) (s : Links) → (link_next q n s).lastline ≡ s.lastline
unfolding link_next set_next
link_next-last none n s = refl
link_next-last (some m) n s = refl

pub some_injective : (a b : ℕ) → some a ≡ some b → a ≡ b
some_injective a b e = ap (λ o. elim o [ none ↦ a | some c ↦ c ]) e

pub head_ne : (y : ℕ) (ys : List ℕ) → Absent y ys → head ys ≢ some y
unfolding head Absent
head_ne y [] h e = cc
head_ne y (n ∷ ys) h e = h.0 (sym (some_injective n y e))

-- The lines behind a prefix.
pub Absent-behind :
    (y : ℕ) (xs : List ℕ) (line : ℕ) (ys : List ℕ)
    → Absent y (xs ++ line ∷ ys)
    → (y ≢ line) × Absent y ys
unfolding Absent
Absent-behind y [] line ys h = (h.0, h.1)
Absent-behind y (x ∷ xs) line ys h = Absent-behind y xs line ys h.1

pub head_same :
    (xs : List ℕ) (line : ℕ) (ys zs : List ℕ) → head (xs ++ line ∷ ys) ≡ head (xs ++ line ∷ zs)
unfolding head
head_same [] line ys zs = refl
head_same (x ∷ xs) line ys zs = refl
