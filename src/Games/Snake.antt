-- ===== src/Games/Snake.antt =====
-- apps/games/snake/snake_core.c. A direction is a pair of small integers, as it is there.
pub mod Body
pub mod Moves
pub mod Play
pub mod Food
mod Tests
use nev_os.Base.{
  ◌*◌, ℕ, zero, suc, ◌+◌, ◌-◌, ◌%◌, Bool, true, false, not, ◌&&◌, ◌||◌, Option, none, some, List,
  [], ◌∷◌, ltb, leb, ◌==◌, if◌then◌else◌, get_or, set, u8_mod, ℤ, pos, negsuc,
}

abbrev pub grid : ℕ
grid = 20

abbrev pub max_len : ℕ
max_len = 72

abbrev pub start_len : ℕ
start_len = 4

abbrev pub turn_queue : ℕ
turn_queue = 2

pub data Step : Type 0 where
  moved ate died : Step

pub record Snake : Type 0 where
  pub xs : List ℕ
  pub ys : List ℕ
  pub len : ℕ
  pub dx : ℤ
  pub dy : ℤ
  pub queue_dx : List ℤ
  pub queue_dy : List ℤ
  pub queued : ℕ
  pub food_x : ℕ
  pub food_y : ℕ
  pub wrap : Bool

-- The first `n` segments from segment `i`.
abbrev pub lay : ℕ → ℕ → Snake → Snake
lay zero i s = s
lay (suc n) i s = lay n (i + 1) (record s { xs = set s.xs i (10 - i); ys = set s.ys i 10 })

abbrev pub reset : Snake → Bool → Snake
reset s wrap = record (lay start_len 0 s) {
  len = start_len;
  dx = pos 1;
  dy = pos 0;
  queued = 0;
  wrap = wrap;
  food_x = 0;
  food_y = 0;
}

-- One of the first `n` segments is there.
abbrev pub among : ℕ → Snake → ℕ → ℕ → Bool
among zero s cx cy = false
among (suc n) s cx cy = (get_or s.xs n 0 == cx && get_or s.ys n 0 == cy) || among n s cx cy

abbrev pub occupied : Snake → ℕ → ℕ → Bool
occupied s cx cy = among s.len s cx cy

abbrev pub set_food : Snake → ℕ → ℕ → Snake
set_food s cx cy = record s { food_x = cx; food_y = cy }

abbrev pub is_zero : ℤ → Bool
is_zero (pos n) = n == 0
is_zero (negsuc n) = false

abbrev pub same_int : ℤ → ℤ → Bool
same_int (pos m) (pos n) = m == n
same_int (pos m) (negsuc n) = false
same_int (negsuc m) (pos n) = false
same_int (negsuc m) (negsuc n) = m == n

abbrev pub negated : ℤ → ℤ
negated (pos zero) = pos 0
negated (pos (suc n)) = negsuc n
negated (negsuc n) = pos (suc n)

unfoldable pub turn : Snake → ℤ → ℤ → Snake
turn s dx dy =
    let prev_dx = if ltb 0 s.queued then get_or s.queue_dx (s.queued - 1) (pos 0) else s.dx in
    let prev_dy = if ltb 0 s.queued then get_or s.queue_dy (s.queued - 1) (pos 0) else s.dy in
    if is_zero dx && is_zero dy
    then s
    else if not (is_zero dx) && not (is_zero dy)
    then s
    else if leb turn_queue s.queued
    then s
    else if same_int dx (negated prev_dx) && same_int dy (negated prev_dy)
    then s
    else if same_int dx prev_dx && same_int dy prev_dy
    then s
    else record s {
      queue_dx = set s.queue_dx s.queued dx;
      queue_dy = set s.queue_dy s.queued dy;
      queued = s.queued + 1;
    }

-- The `n` turns from place `i` move up one place.
abbrev pub pull : ℕ → ℕ → List ℤ → List ℤ
pull zero i q = q
pull (suc n) i q = pull n (i + 1) (set q (i - 1) (get_or q i (pos 0)))

abbrev pub apply_turn : Snake → Snake
apply_turn s =
    if ltb 0 s.queued
    then record s {
      dx = get_or s.queue_dx 0 (pos 0);
      dy = get_or s.queue_dy 0 (pos 0);
      queue_dx = pull (s.queued - 1) 1 s.queue_dx;
      queue_dy = pull (s.queued - 1) 1 s.queue_dy;
      queued = s.queued - 1;
    }
    else s

abbrev pub plus : ℤ → ℕ → ℤ
plus (pos n) m = pos (n + m)
plus (negsuc n) m = if leb m n then negsuc (n - m) else pos (m - suc n)

-- `%` of C keeps the sign.
abbrev pub remainder : ℤ → ℤ
remainder (pos n) = pos (n % grid)
remainder (negsuc n) = negated (pos (suc n % grid))

abbrev pub byte : ℤ → ℕ
byte (pos n) = n % u8_mod
byte (negsuc n) = u8_mod - 1 - n % u8_mod

abbrev pub outside : ℤ → Bool
outside (pos n) = leb grid n
outside (negsuc n) = true

-- The coordinate one ahead; `none` is past the edge.
abbrev pub ahead : Bool → ℕ → ℤ → Option ℕ
ahead wrap x dx =
    if wrap
    then some (byte (remainder (plus (plus dx x) grid)))
    else if outside (plus dx x)
    then none
    else some (byte (plus dx x))

-- The first `n` segments move back one place.
abbrev pub shift : ℕ → List ℕ → List ℕ
shift zero xs = xs
shift (suc n) xs = shift n (set xs (suc n) (get_or xs n 0))

unfoldable pub enter : Snake → ℕ → ℕ → Step × Snake
enter s nx ny =
    let eats = nx == s.food_x && ny == s.food_y in
    let grows = eats && ltb s.len max_len in
    let check_len = if grows then s.len else s.len - 1 in
    let len = if grows then s.len + 1 else s.len in
    if among check_len s nx ny then (died, s) else (
      if eats then ate else moved,
      record s {
        len = len;
        xs = set (shift (len - 1) s.xs) 0 nx;
        ys = set (shift (len - 1) s.ys) 0 ny;
      },
    )

unfoldable pub step : Snake → Step × Snake
step s =
    let t = apply_turn s in
    elim (ahead t.wrap (get_or t.xs 0 0) t.dx) [
      | none ↦ (died, t)
      | some nx ↦ elim (ahead t.wrap (get_or t.ys 0 0) t.dy) [
        | none ↦ (died, t)
        | some ny ↦ enter t nx ny
      ]
    ]

-- `n` cells of the row from `cx`.
unfoldable pub scan_row : ℕ → ℕ → ℕ → Snake → Option Snake
scan_row zero cx cy s = none
scan_row (suc n) cx cy s = elim (occupied s cx cy) [
  | false ↦ some (set_food s cx cy)
  | true ↦ scan_row n (cx + 1) cy s
]

unfoldable pub scan : ℕ → ℕ → Snake → Option Snake
scan zero cy s = none
scan (suc n) cy s = elim (scan_row grid 0 cy s) [ some t ↦ some t | none ↦ scan n (cy + 1) s ]

-- The source of numbers, which is a parameter of the code, keeps its own state.
module _ {Rand : Type 0} (rand : Rand → ℕ → Rand × ℕ) where
  -- Cells at random, at most `n` of them.
  unfoldable pub try_random : ℕ → Snake → Rand → Option Snake × Rand
  try_random zero s r = (none, r)
  try_random (suc n) s r =
      let (r1, a) = rand r grid in
      let (r2, b) = rand r1 grid in
      let cx = a % u8_mod in
      let cy = b % u8_mod in
      elim (occupied s cx cy) [ false ↦ (some (set_food s cx cy), r2) | true ↦ try_random n s r2 ]

  -- `none` is the answer false.
  unfoldable pub spawn_food : Snake → Rand → Option Snake × Rand
  spawn_food s r =
      if leb (grid * grid) s.len
      then (none, r)
      else let (tried, r') = try_random 1000 s r in
        elim tried [ some t ↦ (some t, r') | none ↦ (scan grid 0 s, r') ]
