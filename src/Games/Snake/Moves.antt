-- ===== src/Games/Snake/Moves.antt =====
-- What a turn and a step do to the snake.
use nev_os.Base.{
  ℕ, zero, suc, ◌+◌, ◌-◌, ◌≤◌, ◌<◌, ◌≡◌, sym, ap, ◌∙◌, subst, Bool, true, false, not, ◌&&◌, Option,
  none, some, List, arith, get_or, set, leb, ltb, ◌==◌, if◌then◌else◌, if_elim, if_else, All,
  All-set, All-get_or, ℤ, pos, negsuc,
}
use nev_os.Games.Snake.{
  among, Snake, Step, died, grid, max_len, turn_queue, is_zero, same_int, negated, turn, pull,
  apply_turn, plus, remainder, byte, outside, ahead, enter, step,
}
use nev_os.Games.Snake.Body.{IsBody, enter-IsBody}

-- -1, 0 or 1
abbrev pub Small : ℤ → Type 0
Small (pos n) = n ≤ 1
Small (negsuc n) = n ≡ 0

abbrev InGrid : Option ℕ → Type 0
InGrid none = Unit {0}
InGrid (some n) = n < grid

ahead-InGrid : (wrap : Bool) (x : ℕ) (d : ℤ) → Small d → x < grid → InGrid (ahead wrap x d)
ahead-InGrid true x (pos n) small h = omega arith
ahead-InGrid false x (pos n) small h =
    if_elim InGrid (leb grid (n + x)) _ _ (λ e. tt) (λ e. ground (arith, e))
ahead-InGrid wrap x (negsuc (suc n)) small h = absurd (omega arith)
ahead-InGrid true zero (negsuc zero) small h = omega arith
ahead-InGrid false zero (negsuc zero) small h = tt
ahead-InGrid true (suc x) (negsuc zero) small h =
    let back : plus (negsuc 0) (suc x) ≡ pos x =
      if_else (leb (suc x) 0) _ _ (ground arith) ∙ ap pos (omega arith) in
    subst (λ z. InGrid (some (byte (remainder (plus z grid))))) (sym back) (omega arith)
ahead-InGrid false (suc x) (negsuc zero) small h =
    let back : plus (negsuc 0) (suc x) ≡ pos x =
      if_else (leb (suc x) 0) _ _ (ground arith) ∙ ap pos (omega arith) in
    subst (λ z. InGrid (if outside z then none else some (byte z))) (sym back)
      (if_elim InGrid (leb grid x) _ _ (λ e. tt) (λ e. omega arith))

pub record IsSnake (s : Snake) : Type 0 where
  pub body : IsBody s
  pub dx_small : Small s.dx
  pub dy_small : Small s.dy
  pub queue_x : All Small s.queue_dx
  pub queue_y : All Small s.queue_dy

pub turn-IsSnake :
    (s : Snake) (dx dy : ℤ) → IsSnake s → Small dx → Small dy → IsSnake (turn s dx dy)
unfolding turn
turn-IsSnake s dx dy v hx hy =
    let prev_dx = if ltb 0 s.queued then get_or s.queue_dx (s.queued - 1) (pos 0) else s.dx in
    let prev_dy = if ltb 0 s.queued then get_or s.queue_dy (s.queued - 1) (pos 0) else s.dy in
    if_elim IsSnake (is_zero dx && is_zero dy) _ _ (λ e. v)
      (λ e1.
        if_elim IsSnake (not (is_zero dx) && not (is_zero dy)) _ _ (λ e. v)
          (λ e2.
            if_elim IsSnake (leb turn_queue s.queued) _ _ (λ e. v)
              (λ e3.
                if_elim IsSnake (same_int dx (negated prev_dx) && same_int dy (negated prev_dy)) _ _
                  (λ e. v)
                  (λ e4.
                    if_elim IsSnake (same_int dx prev_dx && same_int dy prev_dy) _ _ (λ e. v)
                      (λ e5. record {
                        body = v.body;
                        dx_small = v.dx_small;
                        dy_small = v.dy_small;
                        queue_x = All-set Small s.queue_dx s.queued dx v.queue_x hx;
                        queue_y = All-set Small s.queue_dy s.queued dy v.queue_y hy;
                      })))))

pull-Small : (n i : ℕ) (q : List ℤ) → All Small q → All Small (pull n i q)
pull-Small zero i q h = h
pull-Small (suc n) i q h =
    pull-Small n (i + 1) (set q (i - 1) (get_or q i (pos 0))) (
      All-set Small q (i - 1) (get_or q i (pos 0)) h (All-get_or Small q i (pos 0) h (omega arith)))

apply_turn-IsSnake : (s : Snake) → IsSnake s → IsSnake (apply_turn s)
apply_turn-IsSnake s v =
    if_elim IsSnake (ltb 0 s.queued) _ _
      (λ e. record {
        body = v.body;
        dx_small = All-get_or Small s.queue_dx 0 (pos 0) v.queue_x (omega arith);
        dy_small = All-get_or Small s.queue_dy 0 (pos 0) v.queue_y (omega arith);
        queue_x = pull-Small (s.queued - 1) 1 s.queue_dx v.queue_x;
        queue_y = pull-Small (s.queued - 1) 1 s.queue_dy v.queue_y;
      })
      (λ e. v)

abbrev Steers : Snake → Type 0
Steers s = Small s.dx × Small s.dy × All Small s.queue_dx × All Small s.queue_dy

enter-Steers : (s : Snake) (nx ny : ℕ) → Steers s → Steers (enter s nx ny).1
unfolding enter
enter-Steers s nx ny v =
    let grows = (nx == s.food_x && ny == s.food_y) && ltb s.len max_len in
    let n : ℕ = if grows then s.len else s.len - 1 in
    if_elim (λ (r : Step × Snake). Steers r.1) (among n s nx ny) _ _ (λ e. v) (λ e. v)

enter-IsSnake :
    (s : Snake) (nx ny : ℕ) → IsSnake s → nx < grid → ny < grid → IsSnake (enter s nx ny).1
enter-IsSnake s nx ny v hx hy =
    let kept = enter-Steers s nx ny (v.dx_small, v.dy_small, v.queue_x, v.queue_y) in
    record {
      body = enter-IsBody s nx ny v.body hx hy;
      dx_small = kept.0;
      dy_small = kept.1;
      queue_x = kept.2;
      queue_y = kept.3;
    }

pub step-IsSnake : (s : Snake) → IsSnake s → IsSnake (step s).1
unfolding step
step-IsSnake s v =
    let t = apply_turn s in
    let w = apply_turn-IsSnake s v in
    let head = w.body.inside 0 w.body.some_len in
    cases t w (ahead t.wrap (get_or t.xs 0 0) t.dx) (ahead t.wrap (get_or t.ys 0 0) t.dy)
      (ahead-InGrid t.wrap (get_or t.xs 0 0) t.dx w.dx_small head.0)
      (ahead-InGrid t.wrap (get_or t.ys 0 0) t.dy w.dy_small head.1)
  where
    cases :
        (t : Snake)
        → IsSnake t
        → (ox oy : Option ℕ) → InGrid ox
        → InGrid oy
        → IsSnake
            (elim ox as (λ x. Step × Snake) [
              | none ↦ (died, t)
              | some nx ↦ elim oy as (λ x. Step × Snake) [
                | none ↦ (died, t)
                | some ny ↦ enter t nx ny
              ]
            ]).1
    cases t w none oy hx hy = w
    cases t w (some nx) none hx hy = w
    cases t w (some nx) (some ny) hx hy = enter-IsSnake t nx ny w hx hy
