-- ===== src/Games/Snake/Food.antt =====
-- Food is put into a free cell, and always where there is one.
use nev_os.Base.{
  ◌⊎◌, ℕ, zero, suc, ◌+◌, ◌*◌, ◌%◌, ◌≤◌, ◌<◌, ◌≡◌, refl, sym, ap, ◌∙◌, subst, true, false, Option,
  none, some, arith, Bool-cases, inl, inr, u8_mod, leb, if_else,
}
use native.Mathlib.Decide.{dec_lt}
use nev_os.Games.Snake.{Snake, grid, occupied, set_food, try_random, scan_row, scan, spawn_food}

-- The food was put into a free cell of the grid.
abbrev pub Fed : Snake → Snake → Type 0
Fed s t =
    (cx cy : ℕ) × (cx < grid) × (cy < grid) × (occupied s cx cy ≡ false) × (t ≡ set_food s cx cy)

-- What an answer means: food in a free cell, or that none of the cells within is free.
abbrev pub Answer : Snake → (ℕ → ℕ → Type 0) → Option Snake → Type 0
Answer s Within none = (cx cy : ℕ) → Within cx cy → occupied s cx cy ≡ true
Answer s Within (some t) = Fed s t

Answer-widen :
    (s : Snake) (Within Wider : ℕ → ℕ → Type 0) (o : Option Snake)
    → ((x y : ℕ) → Wider x y → (occupied s x y ≡ true) ⊎ Within x y)
    → Answer s Within o
    → Answer s Wider o
Answer-widen s Within Wider none f a =
    λ x y w. elim (f x y w) [ inl taken ↦ taken | inr within ↦ a x y within ]
Answer-widen s Within Wider (some t) f a = a

scan_row-Answer :
    (n cx cy : ℕ) (s : Snake)
    → cx + n ≡ grid
    → cy < grid
    → Answer s (λ x y. (cx ≤ x) × (x < grid) × (y ≡ cy)) (scan_row n cx cy s)
unfolding scan_row
scan_row-Answer zero cx cy s e h = λ x y w. absurd (omega (arith, w))
scan_row-Answer (suc n) cx cy s e h = elim (Bool-cases (occupied s cx cy)) [
  | inr free ↦ rw (scan_row, free) (cx, cy, omega arith, h, free, refl)
  | inl taken ↦
      rw (scan_row, taken)
        (Answer-widen s (λ x y. (cx + 1 ≤ x) × (x < grid) × (y ≡ cy))
          (λ x y. (cx ≤ x) × (x < grid) × (y ≡ cy)) (scan_row n (cx + 1) cy s)
          (λ x y w. elim (dec_lt cx x) [
            | yes past ↦ inr (omega arith, w.1, w.2)
            | no here ↦
                let at_x : cx ≡ x = omega (arith, w) in
                inl (ap (λ m. occupied s m y) (sym at_x) ∙ ap (occupied s cx) w.2 ∙ taken)
          ])
          (scan_row-Answer n (cx + 1) cy s (omega arith) h))
]

scan-Answer :
    (n cy : ℕ) (s : Snake)
    → cy + n ≡ grid
    → Answer s (λ x y. (cy ≤ y) × (x < grid) × (y < grid)) (scan n cy s)
unfolding scan
scan-Answer zero cy s e = λ x y w. absurd (omega (arith, w))
scan-Answer (suc n) cy s e =
    row (scan_row grid 0 cy s) (scan_row-Answer grid 0 cy s refl (omega arith))
      (scan-Answer n (cy + 1) s (omega arith))
  where
    row :
        (o : Option Snake)
        → Answer s (λ x y. (0 ≤ x) × (x < grid) × (y ≡ cy)) o
        → Answer s (λ x y. (cy + 1 ≤ y) × (x < grid) × (y < grid)) (scan n (cy + 1) s)
        → Answer s
            (λ x y. (cy ≤ y) × (x < grid) × (y < grid))
            (elim o as (λ x. Option Snake) [ some t ↦ some t | none ↦ scan n (cy + 1) s ])
    row (some t) a below = a
    row none a below =
        Answer-widen s (λ x y. (cy + 1 ≤ y) × (x < grid) × (y < grid))
          (λ x y. (cy ≤ y) × (x < grid) × (y < grid)) (scan n (cy + 1) s)
          (λ x y w. elim (dec_lt cy y) [
            | yes past ↦ inr (omega arith, w.1, w.2)
            | no here ↦ inl (a x y (omega arith, w.1, omega (arith, w)))
          ])
          below

module _ {Rand : Type 0} (rand : Rand → ℕ → Rand × ℕ) where
  -- A random number is below its bound.
  pub record IsRand : Type 0 where
    pub below : (r : Rand) (upper : ℕ) → 0 < upper → (rand r upper).1 < upper

  try_random-Answer :
      (n : ℕ) (s : Snake) (r : Rand) → IsRand → Answer s (λ x y. ⊥) (try_random rand n s r).0
  unfolding try_random
  try_random-Answer zero s r v = λ x y w. absurd w
  try_random-Answer (suc n) s r v =
      let r1 = (rand r grid).0 in
      let cx = (rand r grid).1 % u8_mod in
      let cy = (rand r1 grid).1 % u8_mod in
      let x_in = v.below r grid (omega arith) in
      let y_in = v.below r1 grid (omega arith) in
      elim (Bool-cases (occupied s cx cy)) [
        | inr free ↦ rw (try_random, free) (cx, cy, omega arith, omega arith, free, refl)
        | inl taken ↦ rw (try_random, taken) (try_random-Answer n s (rand r1 grid).0 v)
      ]

  -- Food is put into a free cell of the grid, and an answer false means that no cell of the grid is
  -- free. Condition: the random numbers are below their bound, and the snake has fewer segments
  -- than the grid has cells.
  pub spawn_food_exact :
      (s : Snake) (r : Rand)
      → IsRand
      → s.len < grid * grid
      → Answer s (λ x y. (x < grid) × (y < grid)) (spawn_food rand s r).0
  unfolding spawn_food
  spawn_food_exact s r v small =
      let P : Option Snake × Rand → Type 0 = λ a. Answer s (λ x y. (x < grid) × (y < grid)) a.0 in
      subst P (sym (if_else (leb (grid * grid) s.len) _ _ (ground arith))) (
        tried (try_random rand 1000 s r).0 (try_random rand 1000 s r).1
          (try_random-Answer 1000 s r v))
    where
      tried :
          (o : Option Snake) (r' : Rand)
          → Answer s (λ x y. ⊥) o
          → Answer s
              (λ x y. (x < grid) × (y < grid))
              (elim o as (λ x. Option Snake × Rand) [
                | some t ↦ (some t, r')
                | none ↦ (scan grid 0 s, r')
              ]).0
      tried (some t) r' a = a
      tried none r' a =
          Answer-widen s (λ x y. (0 ≤ y) × (x < grid) × (y < grid)) (λ x y. (x < grid) × (y < grid))
            (scan grid 0 s) (λ x y w. inr (omega arith, w.0, w.1)) (scan-Answer grid 0 s refl)
