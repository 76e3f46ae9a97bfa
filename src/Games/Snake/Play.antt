-- ===== src/Games/Snake/Play.antt =====
-- A game from a reset on: turns, steps, food and restarts.
use nev_os.Games.Snake.Moves.{Small, IsSnake, turn-IsSnake, step-IsSnake}
use nev_os.Base.{
  ℕ, zero, suc, ◌-◌, ◌≤◌, ◌<◌, ◌≡◌, refl, ◌∙◌, Bool, List, [], ◌∷◌, arith, length, get_or, set,
  length-set, All, ℤ,
}
use nev_os.Games.Snake.{Snake, grid, max_len, reset, set_food, turn, step}
use nev_os.Games.Snake.Body.{IsBody}

abbrev four : List ℕ → ℕ → ℕ → ℕ → ℕ → List ℕ
four xs a b c d = set (set (set (set xs 0 a) 1 b) 2 c) 3 d

four-at :
    (xs : List ℕ) (a b c d : ℕ)
    → 4 ≤ length xs
    → (get_or (four xs a b c d) 0 0 ≡ a)
      × (get_or (four xs a b c d) 1 0 ≡ b)
      × (get_or (four xs a b c d) 2 0 ≡ c)
      × (get_or (four xs a b c d) 3 0 ≡ d)
four-at [] a b c d h = absurd (omega arith)
four-at (x ∷ []) a b c d h = absurd (omega arith)
four-at (x ∷ y ∷ []) a b c d h = absurd (omega arith)
four-at (x ∷ y ∷ z ∷ []) a b c d h = absurd (omega arith)
four-at (x ∷ y ∷ z ∷ w ∷ xs) a b c d h = (refl, refl, refl, refl)

length-four : (xs : List ℕ) (a b c d : ℕ) → length (four xs a b c d) ≡ length xs
length-four xs a b c d = omega (
  arith,
  length-set xs 0 a,
  length-set (set xs 0 a) 1 b,
  length-set (set (set xs 0 a) 1 b) 2 c,
  length-set (set (set (set xs 0 a) 1 b) 2 c) 3 d,
)

-- The memory of a game, played before or not.
pub record IsMemory (s : Snake) : Type 0 where
  pub xs_length : length s.xs ≡ max_len
  pub ys_length : length s.ys ≡ max_len
  pub queue_x : All Small s.queue_dx
  pub queue_y : All Small s.queue_dy

-- The first segments of a new game.
column :
    (s : Snake) (m : IsMemory s) (i : ℕ)
    → i < 4
    → (get_or (four s.xs 10 9 8 7) i 0 ≡ 10 - i) × (get_or (four s.ys 10 10 10 10) i 0 ≡ 10)
column s m zero h = (
  (four-at s.xs 10 9 8 7 (omega (arith, m.xs_length))).0,
  (four-at s.ys 10 10 10 10 (omega (arith, m.ys_length))).0,
)
column s m (suc zero) h = (
  (four-at s.xs 10 9 8 7 (omega (arith, m.xs_length))).1,
  (four-at s.ys 10 10 10 10 (omega (arith, m.ys_length))).1,
)
column s m (suc (suc zero)) h = (
  (four-at s.xs 10 9 8 7 (omega (arith, m.xs_length))).2,
  (four-at s.ys 10 10 10 10 (omega (arith, m.ys_length))).2,
)
column s m (suc (suc (suc zero))) h = (
  (four-at s.xs 10 9 8 7 (omega (arith, m.xs_length))).3,
  (four-at s.ys 10 10 10 10 (omega (arith, m.ys_length))).3,
)
column s m (suc (suc (suc (suc i)))) h = absurd (omega arith)

reset-IsSnake : (s : Snake) (wrap : Bool) → IsMemory s → IsSnake (reset s wrap)
reset-IsSnake s wrap m = record {
  body = record {
    xs_length = length-four s.xs 10 9 8 7 ∙ m.xs_length;
    ys_length = length-four s.ys 10 10 10 10 ∙ m.ys_length;
    some_len = omega arith;
    most_len = omega arith;
    inside = cells;
    apart = differ;
  };
  dx_small = omega arith;
  dy_small = omega arith;
  queue_x = m.queue_x;
  queue_y = m.queue_y;
}
  where
    cells :
        (i : ℕ)
        → i < 4
        → (get_or (four s.xs 10 9 8 7) i 0 < grid) × (get_or (four s.ys 10 10 10 10) i 0 < grid)
    cells i h = (omega (arith, column s m i h), omega (arith, column s m i h))

    differ :
        (i j : ℕ)
        → i < j
        → j < 4
        → ¬ (
            (get_or (four s.xs 10 9 8 7) i 0 ≡ get_or (four s.xs 10 9 8 7) j 0)
            × (get_or (four s.ys 10 10 10 10) i 0 ≡ get_or (four s.ys 10 10 10 10) j 0))
    differ i j h k same = omega (arith, column s m i (omega arith), column s m j k, same)

pub data Call : Type 0 where
  turns : ℤ → ℤ → Call
  steps : Call
  places : ℕ → ℕ → Call
  resets : Bool → Call

abbrev pub act : Snake → Call → Snake
act s (turns dx dy) = turn s dx dy
act s steps = (step s).1
act s (places cx cy) = set_food s cx cy
act s (resets wrap) = reset s wrap

abbrev pub play : Snake → List Call → Snake
play s [] = s
play s (call ∷ calls) = play (act s call) calls

-- A turn is by -1, 0 or 1 in each coordinate.
abbrev pub SmallTurn : Call → Type 0
SmallTurn (turns dx dy) = Small dx × Small dy
SmallTurn steps = Unit {0}
SmallTurn (places cx cy) = Unit {0}
SmallTurn (resets wrap) = Unit {0}

act-IsSnake : (s : Snake) (call : Call) → IsSnake s → SmallTurn call → IsSnake (act s call)
act-IsSnake s (turns dx dy) v h = turn-IsSnake s dx dy v h.0 h.1
act-IsSnake s steps v h = step-IsSnake s v
act-IsSnake s (places cx cy) v h = record {
  body = v.body;
  dx_small = v.dx_small;
  dy_small = v.dy_small;
  queue_x = v.queue_x;
  queue_y = v.queue_y;
}
act-IsSnake s (resets wrap) v h = reset-IsSnake s wrap (record {
  xs_length = v.body.xs_length;
  ys_length = v.body.ys_length;
  queue_x = v.queue_x;
  queue_y = v.queue_y;
})

play-IsSnake :
    (s : Snake) (calls : List Call) → IsSnake s → All SmallTurn calls → IsSnake (play s calls)
play-IsSnake s [] v h = v
play-IsSnake s (call ∷ calls) v h = play-IsSnake (act s call) calls (act-IsSnake s call v h.0) h.1

-- However a game is played from a reset on, restarts included, the snake has between 1 and max_len
-- segments, all of them in the grid and no two in one cell. Condition: the turns are by -1, 0 or 1
-- in each coordinate, and the memory of the game has max_len segments and such turns.
pub play-IsBody :
    (s : Snake) (wrap : Bool) (calls : List Call)
    → IsMemory s
    → All SmallTurn calls
    → IsBody (play (reset s wrap) calls)
play-IsBody s wrap calls m h = (play-IsSnake (reset s wrap) calls (reset-IsSnake s wrap m) h).body
