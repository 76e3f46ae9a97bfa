-- ===== src/Games/Snake/Tests.antt =====
-- A new game: three steps with two turns, and food for it.
use nev_os.Base.{ℕ, ◌+◌, ◌<◌, refl, arith, false, List, [], ◌∷◌, replicate, pos, negsuc, ◌-◌, min}
use nev_os.Games.Snake.{Snake, reset, grid, spawn_food}
use nev_os.Games.Snake.Body.{IsBody}
use nev_os.Games.Snake.Play.{Call, turns, steps, places, play, IsMemory, play-IsBody}
use nev_os.Games.Snake.Food.{IsRand, Answer, spawn_food_exact}

abbrev zeroed : Snake
zeroed = record {
  xs = replicate 72 0;
  ys = replicate 72 0;
  len = 0;
  dx = pos 0;
  dy = pos 0;
  queue_dx = pos 0 ∷ pos 0 ∷ [];
  queue_dy = pos 0 ∷ pos 0 ∷ [];
  queued = 0;
  food_x = 0;
  food_y = 0;
  wrap = false;
}

zeroed-IsMemory : IsMemory zeroed
zeroed-IsMemory = record {
  xs_length = refl;
  ys_length = refl;
  queue_x = (omega arith, (omega arith, tt));
  queue_y = (omega arith, (omega arith, tt));
}

abbrev game : List Call
game =
    places 11 10 ∷ steps ∷ turns (pos 0) (negsuc 0) ∷ turns (negsuc 0) (pos 0) ∷ steps ∷ steps ∷ []

play-IsBody_example : IsBody (play (reset zeroed false) game)
play-IsBody_example =
    play-IsBody zeroed false game zeroed-IsMemory
      (tt, (tt, ((omega arith, refl), ((refl, omega arith), (tt, (tt, tt))))))

-- A counter as the source of numbers.
abbrev counter : ℕ → ℕ → ℕ × ℕ
counter n upper = (n + 1, min n (upper - 1))

counter-IsRand : IsRand counter
counter-IsRand = record { below = λ n upper h. omega arith }

spawn_food_exact_example :
    Answer
      (reset zeroed false)
      (λ x y. (x < grid) × (y < grid))
      (spawn_food counter (reset zeroed false) 7).0
spawn_food_exact_example =
    spawn_food_exact counter (reset zeroed false) 7 counter-IsRand (omega arith)
