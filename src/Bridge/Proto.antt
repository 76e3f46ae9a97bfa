-- ===== src/Bridge/Proto.antt =====
-- components/nev_bridge/src/nev_proto.c. The functions of that file are generated from a schema:
-- each encoder and decoder is one sequence of calls for one list of fields. `Field` has the kinds
-- of field, `put_field` and `get_field` the calls made for one, `encode` and `decode` what the
-- functions share; Messages has the fields of each message and its two functions. A decoder that
-- fails leaves nothing to rely on in its out parameter.
pub mod Messages
pub mod Frame
pub mod Fields
pub mod Payload
pub mod Peers
pub mod Stream
pub mod Decoded
mod Tests
use nev_os.Base.{
  ℕ, zero, suc, ◌+◌, ◌-◌, Bool, true, false, List, [], ◌∷◌, Option, none, some, ltb, ◌==◌, not,
  ◌||◌, if◌then◌else◌, length,
}
use nev_os.Bridge.Cbor.Writer.{
  Writer, written, w_init, w_u64, w_bool, w_f32, w_text, w_bytes, w_array,
}
use nev_os.Bridge.Cbor.Reader.{
  Reader, Read, r_init, r_u32, r_u64, r_bool, r_f32, r_text, r_bytes, r_array, r_skip,
}

-- The numbers are a text's buffer with its terminator, and the most bytes of a byte string.
pub data Field : Type 0 where
  u8 u16 u32 u64 boolean f32 : Field
  text bytes : ℕ → Field

abbrev pub Value : Field → Type 0
Value u8 = ℕ
Value u16 = ℕ
Value u32 = ℕ
Value u64 = ℕ
Value boolean = Bool
Value f32 = ℕ
Value (text cap) = List ℕ
Value (bytes most) = List ℕ

abbrev pub Values : List Field → Type 0
Values [] = Unit {0}
Values (f ∷ fs) = Value f × Values fs

pub record Schema : Type 0 where
  pub id : ℕ
  pub fields : List Field

pub data Result (A : Type 0) : Type 0 where
  ok : A → Result A
  invalid_arg no_space : Result A

-- `none` is the refusal of a byte string that is too long.
unfoldable pub put_field : (f : Field) → Value f → Writer → Option Writer
put_field u8 v w = some (w_u64 w v)
put_field u16 v w = some (w_u64 w v)
put_field u32 v w = some (w_u64 w v)
put_field u64 v w = some (w_u64 w v)
put_field boolean v w = some (w_bool w v)
put_field f32 v w = some (w_f32 w v)
put_field (text cap) v w = some (w_text w (some v))
put_field (bytes most) v w = if ltb most (length v) then none else some (w_bytes w v)

unfoldable pub put_fields : (fs : List Field) → Values fs → Writer → Option Writer
put_fields [] vs w = some w
put_fields (f ∷ fs) (v, vs) w = elim (put_field f v w) [
  | none ↦ none
  | some w' ↦ put_fields fs vs w'
]

-- The array's head and the message's number.
abbrev pub put_start : Schema → Writer → Writer
put_start s w = w_u64 (w_array w (suc (length s.fields))) s.id

abbrev pub finished : Option Writer → Result (List ℕ)
finished none = no_space
finished (some w) = if w.overflow then no_space else ok (written w)

-- Into a buffer, of which `cap` bytes may be used.
unfoldable pub encode : (s : Schema) → Values s.fields → List ℕ → ℕ → Result (List ℕ)
encode s vs buf cap = finished (put_fields s.fields vs (put_start s (w_init (some buf) cap)))

-- What memset leaves.
abbrev pub zero_value : (f : Field) → Value f
zero_value u8 = 0
zero_value u16 = 0
zero_value u32 = 0
zero_value u64 = 0
zero_value boolean = false
zero_value f32 = 0
zero_value (text cap) = []
zero_value (bytes most) = []

abbrev pub zero_values : (fs : List Field) → Values fs
zero_values [] = tt
zero_values (f ∷ fs) = (zero_value f, zero_values fs)

abbrev pub or_invalid : {A : Type 0} → Read A → Reader × Result A
or_invalid (r, none) = (r, invalid_arg)
or_invalid (r, some v) = (r, ok v)

-- A number of 32 bits that has to fit fewer.
abbrev pub at_most : ℕ → Read ℕ → Reader × Result ℕ
at_most most (r, none) = (r, invalid_arg)
at_most most (r, some v) = if ltb most v then (r, invalid_arg) else (r, ok v)

abbrev pub no_longer : ℕ → Read (List ℕ) → Reader × Result (List ℕ)
no_longer most (r, none) = (r, invalid_arg)
no_longer most (r, some v) = if ltb most (length v) then (r, no_space) else (r, ok v)

unfoldable pub get_field : (f : Field) → Reader → Reader × Result (Value f)
get_field u8 r = at_most 0xFF (r_u32 r)
get_field u16 r = at_most 0xFFFF (r_u32 r)
get_field u32 r = or_invalid (r_u32 r)
get_field u64 r = or_invalid (r_u64 r)
get_field boolean r = or_invalid (r_bool r)
get_field f32 r = or_invalid (r_f32 r)
get_field (text cap) r = or_invalid (r_text r cap)
get_field (bytes most) r = no_longer most (r_bytes r)

-- The fields that a newer peer appended.
unfoldable pub step_over : ℕ → Reader → Result (Unit {0})
step_over zero r = ok tt
step_over (suc n) r =
    let (r', skipped) = r_skip r in elim skipped [ true ↦ step_over n r' | false ↦ invalid_arg ]

abbrev pub cons_ok : {A B : Type 0} → A → Result B → Result (A × B)
cons_ok v (ok vs) = ok (v, vs)
cons_ok v invalid_arg = invalid_arg
cons_ok v no_space = no_space

-- `present` fields are left; those that are absent stay zero.
unfoldable pub get_fields : (fs : List Field) → ℕ → Reader → Result (Values fs)
get_fields [] present r = step_over present r
get_fields (f ∷ fs) zero r = ok (zero_values (f ∷ fs))
get_fields (f ∷ fs) (suc present) r =
    let (r', got) = get_field f r in
    elim got [
      | ok v ↦ cons_ok v (get_fields fs present r')
      | invalid_arg ↦ invalid_arg
      | no_space ↦ no_space
    ]

-- After the array's head.
unfoldable pub get_body : (s : Schema) → ℕ → Reader → Result (Values s.fields)
get_body s zero r = invalid_arg
get_body s (suc present) r =
    let (r', id) = r_u32 r in
    elim id [
      | none ↦ invalid_arg
      | some n ↦ if n == s.id then get_fields s.fields present r' else invalid_arg
    ]

unfoldable pub decode : (s : Schema) → List ℕ → Result (Values s.fields)
decode s buf =
    let (r, count) = r_array (r_init (some buf) (length buf)) in
    elim count [ none ↦ invalid_arg | some n ↦ get_body s n r ]

-- nev_proto_peek_id, after the array's head.
unfoldable pub peek_body : ℕ → Reader → Result ℕ
peek_body zero r = invalid_arg
peek_body (suc present) r =
    let (r', id) = r_u32 r in
    elim id [ none ↦ invalid_arg | some n ↦ if ltb 0xFFFF n then invalid_arg else ok n ]

unfoldable pub peek_id : List ℕ → Result ℕ
peek_id buf =
    let (r, count) = r_array (r_init (some buf) (length buf)) in
    elim count [ none ↦ invalid_arg | some n ↦ peek_body n r ]
