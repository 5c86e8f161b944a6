-- ===== src/Fav/Rebuild/Correct.antt =====
-- mbbsd/fav.c: `rebuild_fav` as a whole, where the folders form a tree: a rank falls from a folder to
-- those in it, and bounds the fuel.
use pttoldstable.Base.{
  ℕ, zero, suc, ◌+◌, ◌≤◌, ◌<◌, ◌≡◌, ◌≢◌, refl, ap, sym, subst, ◌∙◌, inl, inr, Bool, some, List, [],
  ◌∷◌, arith, ltb, ◌==◌, if◌then◌else◌, take, length, length-take, Bool-cases, ℕ_discrete, dec_lt,
}
use pttoldstable.Base.Int.{ℤ}
use pttoldstable.Fav.{Item, Fav, favt_board, favt_folder, favt_line, get_data_number}
use pttoldstable.Fav.Folder.{used}
use pttoldstable.Fav.Rebuild.{Store, put, cleared, clear_counts, take_in, finish, keep, rebuild_fav}
use pttoldstable.Fav.Rebuild.Loop.{tally, renumber, Gained, Fits}
use pttoldstable.Fav.Rebuild.Tree.{kept, keep-Known, Folders, rebuild_loop_lem, put_at, put_other}

length-renumber : (l f : ℕ) (xs : List Item) → length (renumber l f xs) ≡ length xs
length-renumber l f [] = refl
length-renumber l f (x ∷ xs) =
    ground
      (arith, length-renumber (l + 1) f xs, length-renumber l (f + 1) xs, length-renumber l f xs)

tally-renumber : (k l f : ℕ) (xs : List Item) → tally k (renumber l f xs) ≡ tally k xs
tally-renumber k l f [] = refl
tally-renumber k l f (x ∷ xs) =
    ground
      (arith, tally-renumber k (l + 1) f xs, tally-renumber k l (f + 1) xs, tally-renumber k l f xs)

get_data_number_lem :
    (g : Fav) (n : ℕ)
    → g.n_boards + g.n_lines + g.n_folders ≡ n
    → g.n_lines < 128
    → g.n_folders < 128
    → n < 32768
    → get_data_number g ≡ n
unfolding get_data_number
get_data_number_lem g n e l f h = ground arith

module _ (named has_perm : ℕ → Bool) (clean : Bool) (rank : ℕ → ℕ) where
  abbrev pub stay : List Item → List Item
  stay = kept named has_perm clean

  tally-stay : (k : ℕ) (xs : List Item) → tally k (stay xs) ≤ tally k xs
  tally-stay k [] = omega arith
  tally-stay k (x ∷ xs) = ground (arith, tally-stay k xs)

  length-stay : (xs : List Item) → length (stay xs) ≤ length xs
  length-stay [] = omega arith
  length-stay (x ∷ xs) = ground (arith, length-stay xs)

  -- An item that stays is of one of the three types.
  tallies-stay :
      (xs : List Item)
      → tally favt_board (stay xs) + tally favt_line (stay xs) + tally favt_folder (stay xs)
        ≡ length (stay xs)
  tallies-stay [] = refl
  tallies-stay (x ∷ xs) = elim (Bool-cases (keep named has_perm clean x)) [
    | inr k ↦ rw k (tallies-stay xs)
    | inl k ↦ rw k (ground (arith, tallies-stay xs, keep-Known named has_perm clean x k))
  ]

  -- The folders among the items lead below.
  abbrev Lower : ℕ → Item → Type 0
  Lower a x = rank x.this_folder < rank a

  abbrev pub Below : ℕ → List Item → Type 0
  Below a = Folders named has_perm clean (Lower a)

  abbrev AllLower : ℕ → List Item → Type 0
  AllLower a [] = Unit
  AllLower a (x ∷ xs) = (x.type ≡ favt_folder → Lower a x) × AllLower a xs

  AllLower-stay : (a : ℕ) (xs : List Item) → Below a xs → AllLower a (stay xs)
  AllLower-stay a [] h = tt
  AllLower-stay a (x ∷ xs) h = elim (Bool-cases (keep named has_perm clean x)) [
    | inr k ↦ rw k (AllLower-stay a xs h.1)
    | inl k ↦ rw k (h.0 k, AllLower-stay a xs h.1)
  ]

  AllLower-renumber : (a l f : ℕ) (xs : List Item) → AllLower a xs → AllLower a (renumber l f xs)
  AllLower-renumber a l f [] h = tt
  AllLower-renumber a l f (x ∷ xs) h = elim (Bool-cases (x.type == favt_line)) [
    | inl e ↦ rw e (h.0, AllLower-renumber a (l + 1) f xs h.1)
    | inr e ↦ elim (Bool-cases (x.type == favt_folder)) [
      | inl e' ↦ rw (e, e') (h.0, AllLower-renumber a l (f + 1) xs h.1)
      | inr e' ↦ rw (e, e') (h.0, AllLower-renumber a l f xs h.1)
    ]
  ]

  Below_of_AllLower : (a : ℕ) (xs : List Item) → AllLower a xs → Below a xs
  Below_of_AllLower a [] h = tt
  Below_of_AllLower a (x ∷ xs) h = ((λ _. h.0), Below_of_AllLower a xs h.1)

  -- What a folder must satisfy for its counters to hold what is in it.
  pub record Fine (a : ℕ) (fp : Fav) : Type 0 where
    pub tail : fp.data_tail ≤ length fp.favh
    pub size : fp.data_tail < 32768
    pub lines : tally favt_line (used fp) < 128
    pub folders : tally favt_folder (used fp) < 128
    pub below : Below a (used fp)

  abbrev pub rebuilt : Fav → List Item
  rebuilt fp = renumber 0 0 (stay (used fp))

  -- The folder `g` after the loop, which started with the counters of `f` cleared.
  pub record Rebuilt (a : ℕ) (f g : Fav) : Type 0 where
    pub fine : Fine a g
    pub items : used g ≡ rebuilt f
    pub boards : g.n_boards ≡ tally favt_board (used g)
    pub lines : g.n_lines ≡ tally favt_line (used g)
    pub folders : g.n_folders ≡ tally favt_folder (used g)

  finished : Fav → Fav
  finished g = record g { data_tail = get_data_number g }

  finished-Rebuilt :
      (a : ℕ) (f g : Fav)
      → Fine a f
      → Gained (cleared f) g 0 (stay (used f))
      → Rebuilt a f (finished g)
  unfolding finished
  finished-Rebuilt a f g v c =
      let k = stay (used f) in
      let n : length k < 32768 =
        omega (arith, length-stay (used f), length-take f.data_tail f.favh, v.size) in
      let l : tally favt_line k < 128 = omega (arith, tally-stay favt_line (used f), v.lines) in
      let d : tally favt_folder k < 128 =
        omega (arith, tally-stay favt_folder (used f), v.folders) in
      let total = tallies-stay (used f) in
      let z : 0 + length k ≡ length k = omega arith in
      let number : get_data_number g ≡ length k =
        get_data_number_lem g (length k) (omega arith) (omega arith) (omega arith) n in
      let items : take (get_data_number g) g.favh ≡ rebuilt f = rw number (rw z at c.filled) in
      let same : (t : ℕ) → tally t (take (get_data_number g) g.favh) ≡ tally t k =
        λ t. ap (tally t) items ∙ tally-renumber t 0 0 k in
      let size : length (take (get_data_number g) g.favh) ≡ length k =
        ap length items ∙ length-renumber 0 0 k in
      record {
        fine = record {
          tail =
              rw number (
                omega
                  (arith, length-stay (used f), length-take f.data_tail f.favh, c.size, v.tail));
          size = rw number n;
          lines = rw (same favt_line) l;
          folders = rw (same favt_folder) d;
          below = rw items (
              Below_of_AllLower a (rebuilt f)
                (AllLower-renumber a 0 0 k (AllLower-stay a (used f) v.below)));
        };
        items = items;
        boards = c.boards ∙ rw (same favt_board) (omega arith);
        lines = c.lines ∙ rw (same favt_line) (omega arith);
        folders = c.folders ∙ rw (same favt_folder) (omega arith);
      }

  -- A heap in which the folders of lower rank are fine, and the others are as in `old`.
  pub record Around (a : ℕ) (old st : Store) : Type 0 where
    pub lower : (x : ℕ) → rank x < rank a → Fine x (st.heap x)
    pub same : (x : ℕ) → rank a ≤ rank x → x ≢ a → st.heap x ≡ old.heap x

  pub record Result (a : ℕ) (st st' : Store) : Type 0 where
    pub around : Around a st st'
    pub here : Rebuilt a (st.heap a) (st'.heap a)

  Around-put :
      (a : ℕ) (fp : Fav) (n : ℤ) (old st : Store)
      → Around a old st
      → Around a old (record (put a fp st) { number = n })
  Around-put a fp n old st p = record {
    lower = λ x h.
        subst (Fine x) (sym (put_other a x fp st (λ e. absurd (omega (arith, ap rank e)))))
          (p.lower x h);
    same = λ x h ne. put_other a x fp st ne ∙ p.same x h ne;
  }

  Around-take_in : (a i j : ℕ) (old st : Store) → Around a old st → Around a old (take_in a i j st)
  unfolding take_in
  Around-take_in a i j old st p = Around-put a _ _ old st p

  -- After a folder below was rebuilt.
  Around-lower :
      (a b : ℕ) (old st st' : Store)
      → rank b < rank a
      → Around a old st
      → Result b st st'
      → Around a old st' × (st'.heap a ≡ st.heap a)
  Around-lower a b old st st' h p r = (
    record {
      lower = λ x hx. elim (ℕ_discrete x b) [
        | yes e ↦ subst (λ z. Fine z (st'.heap z)) (sym e) r.here.fine
        | no ne ↦ elim (dec_lt (rank x) (rank b)) [
          | yes hb ↦ r.around.lower x hb
          | no nb ↦ subst (Fine x) (sym (r.around.same x (omega arith) ne)) (p.lower x hx)
        ]
      ];
      same = λ x hx ne.
          r.around.same x (omega arith) (λ e. absurd (omega (arith, ap rank e))) ∙ p.same x hx ne;
    },
    r.around.same a (omega arith) (λ e. absurd (omega (arith, ap rank e))),
  )

  -- The loop starts with the counters cleared.
  Fits-cleared : (a : ℕ) (f : Fav) → Fine a f → Fits (cleared f) (stay (used f))
  Fits-cleared a f v =
      let n = length-stay (used f) in
      let m = length-take f.data_tail f.favh in
      let l = tally-stay favt_line (used f) in
      let d = tally-stay favt_folder (used f) in
      record {
        boards = omega (arith, v.size);
        lines = omega (arith, v.lines);
        line_ids = omega (arith, v.lines);
        folders = omega (arith, v.folders);
        folder_ids = omega (arith, v.folders);
      }

  clear_counts_at : (a : ℕ) (st : Store) → (clear_counts a st).heap a ≡ cleared (st.heap a)
  unfolding clear_counts
  clear_counts_at a st = put_at a (cleared (st.heap a)) st

  Around-clear_counts :
      (a : ℕ) (st : Store)
      → ((x : ℕ) → rank x < rank a → Fine x (st.heap x))
      → Around a st (clear_counts a st)
  unfolding clear_counts
  Around-clear_counts a st w =
      Around-put a (cleared (st.heap a)) _ st st (record { lower = w; same = λ x _ _. refl })

  -- The last line of `rebuild_fav`.
  finish_lem :
      (a : ℕ) (st st1 : Store)
      → Fine a (st.heap a)
      → Around a st st1
      → Gained (cleared (st.heap a)) (st1.heap a) 0 (stay (used (st.heap a)))
      → (st' : Store) × (finish a st1 ≡ some st') × Result a st st'
  unfolding finish finished
  finish_lem a st st1 v p c =
      let g = finished (st1.heap a) in
      (
        put a g st1,
        refl,
        record {
          around = Around-put a g st1.number st st1 p;
          here =
              subst (Rebuilt a (st.heap a)) (sym (put_at a g st1))
                (finished-Rebuilt a (st.heap a) (st1.heap a) v c);
        },
      )

  pub rebuild_fav_lem :
      (fuel a : ℕ) (st : Store)
      → rank a < fuel
      → Fine a (st.heap a)
      → ((x : ℕ) → rank x < rank a → Fine x (st.heap x))
      → (st' : Store) × (rebuild_fav named has_perm clean fuel a st ≡ some st') × Result a st st'
  unfolding rebuild_fav
  rebuild_fav_lem zero a st h v w = absurd (omega arith)
  rebuild_fav_lem (suc fuel) a st h v w =
      let f = st.heap a in
      let at0 = clear_counts_at a st in
      let z : 0 + f.data_tail ≡ f.data_tail = omega arith in
      let (st1, loop, p1, gained) =
        rebuild_loop_lem named has_perm clean a (Around a st) (Lower a)
          (rebuild_fav named has_perm clean fuel) (λ i j s p. Around-take_in a i j st s p)
          (λ x s p low.
            let (s', r, q) =
              rebuild_fav_lem fuel x.this_folder s (omega arith) (p.lower x.this_folder low)
                (λ y hy. p.lower y (omega arith)) in
            let (p', same) = Around-lower a x.this_folder st s s' low p q in (s', r, p', same))
          f.data_tail 0 0 (clear_counts a st) (used f) (rw at0 refl) (rw (at0, z) v.tail)
          (omega arith) v.below (Around-clear_counts a st w) (rw at0 (Fits-cleared a f v)) in
      let t : (if ltb f.data_tail 32768 then f.data_tail else 0) ≡ f.data_tail =
        ground (arith, v.size) in
      let (st2, e, r) = finish_lem a st st1 v p1 (rw at0 at gained) in (st2, rw (t, loop) e, r)
