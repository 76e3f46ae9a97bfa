-- ===== src/Bridge/Cbor/Reader.antt =====
-- The reader of components/nev_bridge/src/nev_cbor.c. An operation returns the reader after it, and
-- what it writes through its out parameter when it answers true.
use nev_os.Base.{
  ℕ, zero, suc, ◌+◌, ◌-◌, ◌*◌, ◌/◌, ◌%◌, ◌^◌, Bool, true, false, not, ◌&&◌, ◌||◌, List, [], Option,
  none, some, ltb, leb, ◌==◌, if◌then◌else◌, get_or, length, take, drop, ℤ, pos, negsuc,
}
use nev_os.Bridge.Cbor.Writer.{mt_uint, mt_nint, mt_bytes, mt_text, mt_array, mt_simple}

pub record Reader : Type 0 where
  pub buf : List ℕ
  pub len : ℕ
  pub pos : ℕ
  pub error : Bool

abbrev pub Read : Type 0 → Type 0
Read A = Reader × Option A

unfoldable pub r_init : Option (List ℕ) → ℕ → Reader
r_init none len = record { buf = []; len = len; pos = 0; error = true }
r_init (some buf) len = record { buf = buf; len = len; pos = 0; error = false }

abbrev pub avail : Reader → ℕ → Bool
avail r n = not r.error && leb n (r.len - r.pos)

abbrev pub failed : Reader → Reader
failed r = record r { error = true }

-- r->pos = start; r->error = true
abbrev pub failed_at : ℕ → Reader → Reader
failed_at start r = record r { pos = start; error = true }

abbrev pub here : Reader → ℕ
here r = get_or r.buf r.pos 0

abbrev pub advance : Reader → ℕ → Reader
advance r n = record r { pos = r.pos + n }

-- The loop v = (v << 8) | r->buf[r->pos++], n times.
unfoldable pub read_be : Reader → ℕ → ℕ → Reader × ℕ
read_be r v zero = (r, v)
read_be r v (suc n) = read_be (advance r 1) (v * 2 ^ 8 % 2 ^ 64 + here r) n

-- 28 to 30 are reserved and 31 is indefinite length.
unfoldable pub arg_size : ℕ → Option ℕ
arg_size ai =
    if ai == 24
    then some 1
    else if ai == 25
    then some 2
    else if ai == 26
    then some 4
    else if ai == 27
    then some 8
    else none

-- The argument that follows a head byte.
unfoldable pub read_arg : Reader → ℕ → ℕ → Read (ℕ × ℕ)
read_arg r major n =
    if avail r n then (let (r', v) = read_be r 0 n in (r', some (major, v))) else (failed r, none)

-- The head byte, taken apart.
unfoldable pub head_arg : Reader → ℕ → ℕ → Read (ℕ × ℕ)
head_arg r major ai =
    if ltb ai 24
    then (r, some (major, ai))
    else elim (arg_size ai) [ some n ↦ read_arg r major n | none ↦ (failed r, none) ]

unfoldable pub read_head : Reader → Read (ℕ × ℕ)
read_head r =
    if not (avail r 1)
    then (failed r, none)
    else head_arg (advance r 1) (here r / 2 ^ 5) (here r % 2 ^ 5)

-- A head of the major type that is wanted.
unfoldable pub read_want : Reader → ℕ → Read ℕ
read_want r want =
    let (r', got) = read_head r in
    elim got [
      | some (major, arg) ↦ if major == want then (r', some arg) else (failed_at r.pos r', none)
      | none ↦ (failed_at r.pos r', none)
    ]

abbrev pub r_u64 : Reader → Read ℕ
r_u64 r = read_want r mt_uint

unfoldable pub r_u32 : Reader → Read ℕ
r_u32 r =
    let (r', got) = r_u64 r in
    elim got [
      | some v ↦ if ltb 0xFFFFFFFF v then (failed r', none) else (r', some v)
      | none ↦ (r', none)
    ]

abbrev pub int64_max : ℕ
int64_max = 2 ^ 63 - 1

-- A failed head leaves the position where it is.
unfoldable pub r_i64 : Reader → Read ℤ
r_i64 r =
    let (r', got) = read_head r in
    elim got [
      | none ↦ (r', none)
      | some (major, arg) ↦
          if major == mt_uint
          then (if ltb int64_max arg then (failed_at r.pos r', none) else (r', some (pos arg)))
          else if major == mt_nint
          then (if ltb int64_max arg then (failed_at r.pos r', none) else (r', some (negsuc arg)))
          else (failed_at r.pos r', none)
    ]

abbrev pub in_i32 : ℤ → Bool
in_i32 (pos n) = ltb n (2 ^ 31)
in_i32 (negsuc n) = ltb n (2 ^ 31)

unfoldable pub r_i32 : Reader → Read ℤ
r_i32 r =
    let (r', got) = r_i64 r in
    elim got [ some v ↦ if in_i32 v then (r', some v) else (failed r', none) | none ↦ (r', none) ]

unfoldable pub r_bool : Reader → Read Bool
r_bool r =
    if not (avail r 1)
    then (failed r, none)
    else if here r == mt_simple * 2 ^ 5 + 21
    then (advance r 1, some true)
    else if here r == mt_simple * 2 ^ 5 + 20
    then (advance r 1, some false)
    else (failed r, none)

unfoldable pub r_f32 : Reader → Read ℕ
r_f32 r =
    if not (avail r 5) || not (here r == mt_simple * 2 ^ 5 + 26)
    then (failed r, none)
    else (let (r', bits) = read_be (advance r 1) 0 4 in (r', some bits))

-- The bytes themselves stand for the pointer into the buffer.
unfoldable pub read_string : Reader → ℕ → Read (List ℕ)
read_string r want =
    let (r', got) = read_want r want in
    elim got [
      | some arg ↦
          if ltb (r'.len - r'.pos) arg
          then (failed_at r.pos r', none)
          else (advance r' arg, some (take arg (drop r'.pos r'.buf)))
      | none ↦ (r', none)
    ]

abbrev pub r_bytes : Reader → Read (List ℕ)
r_bytes r = read_string r mt_bytes

-- Into a buffer of `out_cap` bytes, one of them for the terminator; `out_cap` 0 only consumes.
unfoldable pub r_text : Reader → ℕ → Read (List ℕ)
r_text r out_cap =
    let (r', got) = read_string r mt_text in
    elim got [
      | some s ↦
          if out_cap == 0
          then (r', some [])
          else if leb out_cap (length s)
          then (failed_at r.pos r', none)
          else (r', some s)
      | none ↦ (r', none)
    ]

unfoldable pub r_array : Reader → Read ℕ
r_array r =
    let (r', got) = read_want r mt_array in
    elim got [
      | some arg ↦ if ltb (r'.len - r'.pos) arg then (failed_at r.pos r', none) else (r', some arg)
      | none ↦ (r', none)
    ]

abbrev pub is_string : ℕ → Bool
is_string major = major == mt_bytes || major == mt_text

-- A string's bytes, without restoring the position.
unfoldable pub skip_bytes : Reader → ℕ → Reader × Bool
skip_bytes r arg = if ltb (r.len - r.pos) arg then (failed r, false) else (advance r arg, true)

-- One element of an array.
unfoldable pub skip_element : Reader → Reader × Bool
skip_element r =
    let (r', got) = read_head r in
    elim got [
      | none ↦ (r', false)
      | some (major, arg) ↦
          if major == mt_array
          then (failed_at r.pos r', false)
          else if is_string major
          then skip_bytes r' arg
          else (r', true)
    ]

unfoldable pub skip_elements : Reader → ℕ → Reader × Bool
skip_elements r zero = (r, true)
skip_elements r (suc n) =
    let (r', got) = skip_element r in elim got [ true ↦ skip_elements r' n | false ↦ (r', false) ]

unfoldable pub r_skip : Reader → Reader × Bool
r_skip r =
    let (r', got) = read_head r in
    elim got [
      | none ↦ (r', false)
      | some (major, arg) ↦
          if major == mt_uint || major == mt_nint
          then (r', true)
          else if is_string major
          then skip_bytes r' arg
          else if major == mt_array
          then skip_elements r' arg
          else if major == mt_simple
          then (r', true)
          else (failed r', false)
    ]
