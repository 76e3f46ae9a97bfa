-- ===== src/Games/Snake/Body.antt =====
-- The body after a step: the head enters a cell, and every segment moves back one place.
use nev_os.Base.{
  ℕ, zero, suc, ◌+◌, ◌-◌, ◌≤◌, ◌<◌, ◌≡◌, refl, sym, ap, ◌∙◌, false, ◌&&◌, List, arith, length,
  get_or, set, length-set, get_or-set_self, get_or-set_ne, ltb, ◌==◌, if◌then◌else◌, if_elim, subst,
}
use native.Mathlib.Decide.{dec_lt}
use nev_os.Games.Snake.{Snake, Step, grid, max_len, among, shift, enter}

pub length-shift : (n : ℕ) (xs : List ℕ) → length (shift n xs) ≡ length xs
length-shift zero xs = refl
length-shift (suc n) xs =
    length-shift n (set xs (suc n) (get_or xs n 0)) ∙ length-set xs (suc n) (get_or xs n 0)

shift-above : (n j : ℕ) (xs : List ℕ) → n < j → get_or (shift n xs) j 0 ≡ get_or xs j 0
shift-above zero j xs h = refl
shift-above (suc n) j xs h =
    shift-above n j (set xs (suc n) (get_or xs n 0)) (omega arith)
    ∙ get_or-set_ne xs (suc n) j (get_or xs n 0) 0 (omega arith)

shift-within :
    (n j : ℕ) (xs : List ℕ) → j < n → n < length xs → get_or (shift n xs) (suc j) 0 ≡ get_or xs j 0
shift-within zero j xs h k = absurd (omega arith)
shift-within (suc n) j xs h k = elim (dec_lt j n) [
  | yes less ↦
      shift-within n j (set xs (suc n) (get_or xs n 0)) less
        (omega (arith, length-set xs (suc n) (get_or xs n 0)))
      ∙ get_or-set_ne xs (suc n) j (get_or xs n 0) 0 (omega arith)
  | no last ↦
      let e : n ≡ j = omega arith in
      ap (λ m. get_or (shift n (set xs (suc n) (get_or xs n 0))) (suc m) 0) (sym e)
      ∙ shift-above n (suc n) (set xs (suc n) (get_or xs n 0)) (omega arith)
      ∙ get_or-set_self xs (suc n) (get_or xs n 0) 0 k
      ∙ ap (λ m. get_or xs m 0) e
]

-- The new head is in front of the first `n` segments.
pub moved-head : (n v : ℕ) (xs : List ℕ) → n < length xs → get_or (set (shift n xs) 0 v) 0 0 ≡ v
moved-head n v xs h = get_or-set_self (shift n xs) 0 v 0 (omega (arith, length-shift n xs))

pub moved-body :
    (n v j : ℕ) (xs : List ℕ)
    → j < n
    → n < length xs
    → get_or (set (shift n xs) 0 v) (suc j) 0 ≡ get_or xs j 0
moved-body n v j xs h k =
    get_or-set_ne (shift n xs) 0 (suc j) v 0 (omega arith) ∙ shift-within n j xs h k

pub among-false :
    (n i : ℕ) (s : Snake) (cx cy : ℕ)
    → among n s cx cy ≡ false
    → i < n
    → ¬ ((get_or s.xs i 0 ≡ cx) × (get_or s.ys i 0 ≡ cy))
among-false zero i s cx cy e h same = absurd (omega arith)
among-false (suc n) i s cx cy e h same = elim (dec_lt i n) [
  | yes less ↦ among-false n i s cx cy (ground (arith, e)) less same
  | no last ↦
      let at : n ≡ i = omega arith in
      ground (arith, e, ap (λ m. get_or s.xs m 0) at, ap (λ m. get_or s.ys m 0) at, same)
]

-- The segments are cells of the grid, no two of them the same.
pub record IsCells (xs ys : List ℕ) (len : ℕ) : Type 0 where
  pub xs_length : length xs ≡ max_len
  pub ys_length : length ys ≡ max_len
  pub some_len : 1 ≤ len
  pub most_len : len ≤ max_len
  pub inside : (i : ℕ) → i < len → (get_or xs i 0 < grid) × (get_or ys i 0 < grid)
  pub apart :
      (i j : ℕ)
      → i < j
      → j < len
      → ¬ ((get_or xs i 0 ≡ get_or xs j 0) × (get_or ys i 0 ≡ get_or ys j 0))

abbrev pub IsBody : Snake → Type 0
IsBody s = IsCells s.xs s.ys s.len

-- The head enters a cell where none of the first `n` segments is, and `n` of them follow.
entered :
    (s : Snake) (len n nx ny : ℕ)
    → IsBody s
    → len ≡ suc n
    → n ≤ s.len
    → n < max_len
    → nx < grid
    → ny < grid
    → among n s nx ny ≡ false
    → IsBody (record s { len = len; xs = set (shift n s.xs) 0 nx; ys = set (shift n s.ys) 0 ny })
entered s len n nx ny v one few short hx hy free =
    let in_xs : n < length s.xs = omega (arith, v.xs_length) in
    let in_ys : n < length s.ys = omega (arith, v.ys_length) in
    record {
      xs_length = length-set (shift n s.xs) 0 nx ∙ length-shift n s.xs ∙ v.xs_length;
      ys_length = length-set (shift n s.ys) 0 ny ∙ length-shift n s.ys ∙ v.ys_length;
      some_len = omega (arith, one);
      most_len = omega (arith, one);
      inside = cells in_xs in_ys;
      apart = differ in_xs in_ys;
    }
  where
    cells :
        n < length s.xs
        → n < length s.ys
        → (i : ℕ) → i < len
        → (get_or (set (shift n s.xs) 0 nx) i 0 < grid)
          × (get_or (set (shift n s.ys) 0 ny) i 0 < grid)
    cells in_xs in_ys zero h = (
      omega (arith, moved-head n nx s.xs in_xs, hx),
      omega (arith, moved-head n ny s.ys in_ys, hy),
    )
    cells in_xs in_ys (suc i) h =
        let old = v.inside i (omega arith) in
        (
          omega (arith, moved-body n nx i s.xs (omega arith) in_xs, old),
          omega (arith, moved-body n ny i s.ys (omega arith) in_ys, old),
        )

    differ :
        n < length s.xs
        → n < length s.ys
        → (i j : ℕ) → i < j
        → j < len
        → ¬ (
            (get_or (set (shift n s.xs) 0 nx) i 0 ≡ get_or (set (shift n s.xs) 0 nx) j 0)
            × (get_or (set (shift n s.ys) 0 ny) i 0 ≡ get_or (set (shift n s.ys) 0 ny) j 0))
    differ in_xs in_ys i zero h k same = absurd (omega arith)
    differ in_xs in_ys zero (suc j) h k same = among-false n j s nx ny free (omega arith) (
      sym (moved-body n nx j s.xs (omega arith) in_xs) ∙ sym same.0 ∙ moved-head n nx s.xs in_xs,
      sym (moved-body n ny j s.ys (omega arith) in_ys) ∙ sym same.1 ∙ moved-head n ny s.ys in_ys,
    )
    differ in_xs in_ys (suc i) (suc j) h k same = v.apart i j (omega arith) (omega arith) (
      sym (moved-body n nx i s.xs (omega arith) in_xs)
          ∙ same.0
          ∙ moved-body n nx j s.xs (omega arith) in_xs,
      sym (moved-body n ny i s.ys (omega arith) in_ys)
          ∙ same.1
          ∙ moved-body n ny j s.ys (omega arith) in_ys,
    )

pub enter-IsBody :
    (s : Snake) (nx ny : ℕ) → IsBody s → nx < grid → ny < grid → IsBody (enter s nx ny).1
unfolding enter
enter-IsBody s nx ny v hx hy =
    let eats = nx == s.food_x && ny == s.food_y in
    let grows = eats && ltb s.len max_len in
    let n : ℕ = if grows then s.len else s.len - 1 in
    let len : ℕ = if grows then s.len + 1 else s.len in
    let one : len ≡ suc n = ground (arith, v.some_len) in
    let back : n ≡ len - 1 = omega (arith, one) in
    if_elim (λ (r : Step × Snake). IsBody r.1) (among n s nx ny) _ _ (λ e. v)
      (λ free.
        subst
          (λ m.
            IsBody
              (record s { len = len; xs = set (shift m s.xs) 0 nx; ys = set (shift m s.ys) 0 ny }))
          back
          (entered s len n nx ny v one (ground arith) (ground (arith, v.most_len, v.some_len)) hx hy
            free))
