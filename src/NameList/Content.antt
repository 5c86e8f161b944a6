-- ===== src/NameList/Content.antt =====
-- mbbsd/name.c: adding and removing names.
use pttoldstable.Base.{
  ℕ, ◌+◌, ◌-◌, ◌≡◌, refl, ap, ◌∙◌, true, false, List, [], ◌∷◌, arith, Bool-cases, inl, inr,
}
use pttoldstable.Base.Text.{streq, streq_refl}
use pttoldstable.NameList.{
  Word, add_name_list, remove_name_list, in_list, num_in_list, toggle_name_list,
}

num_in_list-add :
    (name : Word) (l : List Word) → num_in_list (add_name_list name l) ≡ num_in_list l + 1
unfolding num_in_list add_name_list
num_in_list-add name [] = refl
num_in_list-add name (w ∷ l) = ap (λ k. k + 1) (num_in_list-add name l)

num_in_list-remove :
    (name : Word) (l : List Word)
    → in_list l name ≡ true
    → num_in_list (remove_name_list name l).1 + 1 ≡ num_in_list l
unfolding num_in_list remove_name_list in_list
num_in_list-remove name [] h = cc
num_in_list-remove name (w ∷ l) h = elim (Bool-cases (streq w name)) [
  | inl e ↦ rw e
  | inr e ↦ rw e (ap (λ k. k + 1) (num_in_list-remove name l (rw e at h)))
]

-- `RemoveNameList` undoes `AddNameList` of a name that was not in the list, and returns 1; of a name
-- that is not in the list it returns 0 and changes nothing.
pub remove-add :
    (name : Word) (l : List Word)
    → in_list l name ≡ false
    → (remove_name_list name (add_name_list name l) ≡ (true, l))
      × (remove_name_list name l ≡ (false, l))
unfolding remove_name_list add_name_list in_list
remove-add name [] h = let e = streq_refl name in (rw e, refl)
remove-add name (w ∷ l) h = elim (Bool-cases (streq w name)) [
  | inl e ↦ absurd (cc (rw e at h))
  | inr e ↦ let r = remove-add name l (rw e at h) in (rw (e, r.0), rw (e, r.1))
]

-- A counter that has the number of names in the list has it again after `ToggleNameList`, whatever
-- names the file has.
pub toggle-num_in_list :
    (file : List Word) (reciper : ℕ) (toplev : List Word)
    → num_in_list toplev ≡ reciper
    → let r = toggle_name_list file reciper toplev in num_in_list r.1 ≡ r.0
unfolding toggle_name_list
toggle-num_in_list [] reciper toplev h = h
toggle-num_in_list (word ∷ file) reciper toplev h = elim (Bool-cases (in_list toplev word)) [
  | inl e ↦ rw e (
      toggle-num_in_list file (reciper - 1) (remove_name_list word toplev).1
        (omega (arith, num_in_list-remove word toplev e)))
  | inr e ↦ rw e (
      toggle-num_in_list file (reciper + 1) (add_name_list word toplev)
        (num_in_list-add word toplev ∙ ap (λ k. k + 1) h))
]
