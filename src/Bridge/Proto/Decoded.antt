-- ===== src/Bridge/Proto/Decoded.antt =====
-- What a decoder hands out lies in the range of its field's C type, whatever bytes arrive.
use nev_os.Base.{
  IsByte, ◌⊎◌, inl, inr, subst, inr, inl, ℕ, zero, suc, ◌-◌, ◌^◌, ◌≤◌, ◌<◌, ◌≡◌, refl, none, some,
  List, [], ◌∷◌, length, All, ltb, ◌==◌, if_elim, arith, Option-cases,
}
use nev_os.Bridge.Cbor.Writer.{mt_uint, mt_bytes, mt_array}
use nev_os.Bridge.Cbor.Reader.{
  Reader, Read, failed_at, read_want, r_u64, r_u32, r_bool, r_f32, r_bytes, r_text, r_array, r_init,
}
use nev_os.Bridge.Proto.{
  step_over, Field, u8, u16, u32, u64, boolean, f32, text, bytes, Value, Values, Schema, Result, ok,
  invalid_arg, no_space, zero_value, zero_values, or_invalid, at_most, no_longer, get_field,
  cons_ok, get_fields, get_body, decode,
}
use nev_os.Bridge.Proto.Fields.{InRange}
use nev_os.Bridge.Proto.Payload.{AllInRange}
use nev_os.Bridge.Cbor.Ranges.{
  Holds, Sound, Word, Sound-Holds, read_want-Sound, r_u32-Sound, r_bool-Sound, r_f32-Sound,
  read_string-Sound, r_text-Sound,
}

-- A text's buffer has room for its terminator.
abbrev pub HasRoom : Field → Type 0
HasRoom (text size) = 0 < size
HasRoom f = Unit {0}

-- The same of a field's answer.
abbrev Got : {A : Type 0} → (A → Type 0) → Reader × Result A → Type 0
Got P (r, ok a) = Holds r × P a
Got P (r, invalid_arg) = Holds r
Got P (r, no_space) = Holds r

or_invalid-Got : {A : Type 0} (P : A → Type 0) (x : Read A) → Sound P x → Got P (or_invalid x)
or_invalid-Got P (r, none) s = s
or_invalid-Got P (r, some a) s = s

at_most-Got :
    (most bound : ℕ) (x : Read ℕ)
    → most < bound
    → Sound (λ v. v < 2 ^ 32) x
    → Got (λ v. v < bound) (at_most most x)
at_most-Got most bound (r, none) h s = s
at_most-Got most bound (r, some v) h s =
    if_elim (Got (λ v. v < bound)) (ltb most v) (r, invalid_arg) (r, ok v) (λ big. s.0)
      (λ fits. (s.0, ground (arith, fits)))

no_longer-Got :
    (most : ℕ) (x : Read (List ℕ))
    → Sound (λ l. length l < 2 ^ 64) x
    → Got (λ l. (length l ≤ most) × (length l < 2 ^ 64)) (no_longer most x)
no_longer-Got most (r, none) s = s
no_longer-Got most (r, some l) s =
    if_elim (Got (λ (q : List ℕ). (length q ≤ most) × (length q < 2 ^ 64))) (ltb most (length l))
      (r, no_space) (r, ok l) (λ big. s.0) (λ fits. (s.0, (ground (arith, fits), s.1)))

get_field-Got : (f : Field) (r : Reader) → HasRoom f → Holds r → Got (InRange f) (get_field f r)
unfolding get_field
get_field-Got u8 r room h = at_most-Got 0xFF (2 ^ 8) (r_u32 r) (omega arith) (r_u32-Sound r h)
get_field-Got u16 r room h = at_most-Got 0xFFFF (2 ^ 16) (r_u32 r) (omega arith) (r_u32-Sound r h)
get_field-Got u32 r room h = or_invalid-Got (λ v. v < 2 ^ 32) (r_u32 r) (r_u32-Sound r h)
get_field-Got u64 r room h = or_invalid-Got Word (r_u64 r) (read_want-Sound r mt_uint h)
get_field-Got boolean r room h = or_invalid-Got (λ v. Unit {0}) (r_bool r) (r_bool-Sound r h)
get_field-Got f32 r room h = or_invalid-Got (λ v. v < 2 ^ 32) (r_f32 r) (r_f32-Sound r h)
get_field-Got (text size) r room h =
    or_invalid-Got (λ l. (length l < size) × (length l < 2 ^ 64)) (r_text r size)
      (r_text-Sound r size room h)
get_field-Got (bytes most) r room h =
    no_longer-Got most (r_bytes r) (read_string-Sound r mt_bytes h)

zero_value-InRange : (f : Field) → HasRoom f → InRange f (zero_value f)
zero_value-InRange u8 h = omega arith
zero_value-InRange u16 h = omega arith
zero_value-InRange u32 h = omega arith
zero_value-InRange u64 h = omega arith
zero_value-InRange boolean h = tt
zero_value-InRange f32 h = omega arith
zero_value-InRange (text size) h = (omega arith, omega arith)
zero_value-InRange (bytes most) h = (omega arith, omega arith)

zero_values-AllInRange : (fs : List Field) → All HasRoom fs → AllInRange fs (zero_values fs)
zero_values-AllInRange [] h = tt
zero_values-AllInRange (f ∷ fs) h = (zero_value-InRange f h.0, zero_values-AllInRange fs h.1)

pub Result-cases :
    {A : Type 0} (r : Result A) → ((a : A) × (r ≡ ok a)) ⊎ (r ≡ invalid_arg) ⊎ (r ≡ no_space)
Result-cases (ok a) = inl (a, refl)
Result-cases invalid_arg = inr (inl refl)
Result-cases no_space = inr (inr refl)

Got-ok :
    {A : Type 0} (P : A → Type 0) (x : Reader × Result A) (a : A)
    → Got P x
    → x.1 ≡ ok a
    → Holds x.0 × P a
Got-ok P (r, ok b) a s e = let is : b ≡ a = ground (arith, e) in (s.0, subst P is s.1)
Got-ok P (r, invalid_arg) a s e = absurd (ground (arith, e))
Got-ok P (r, no_space) a s e = absurd (ground (arith, e))

-- What is handed out, where something is.
abbrev pub Delivers : {A : Type 0} → (A → Type 0) → Result A → Type 0
Delivers P (ok a) = P a
Delivers P invalid_arg = Unit {0}
Delivers P no_space = Unit {0}

Delivers-nothing : (x : Result (Unit {0})) → Delivers (AllInRange []) x
Delivers-nothing (ok a) = tt
Delivers-nothing invalid_arg = tt
Delivers-nothing no_space = tt

cons_ok-AllInRange :
    (f : Field) (fs : List Field) (v : Value f) (got : Result (Values fs))
    → InRange f v
    → Delivers (AllInRange fs) got
    → Delivers (AllInRange (f ∷ fs)) (cons_ok v got)
cons_ok-AllInRange f fs v (ok vs) h k = (h, k)
cons_ok-AllInRange f fs v invalid_arg h k = tt
cons_ok-AllInRange f fs v no_space h k = tt

get_fields-AllInRange :
    (fs : List Field) (present : ℕ) (r : Reader)
    → All HasRoom fs
    → Holds r
    → Delivers (AllInRange fs) (get_fields fs present r)
unfolding get_fields
get_fields-AllInRange [] present r room h = Delivers-nothing (step_over present r)
get_fields-AllInRange (f ∷ fs) zero r room h = zero_values-AllInRange (f ∷ fs) room
get_fields-AllInRange (f ∷ fs) (suc present) r room h =
    let s = get_field-Got f r room.0 h in
    elim (Result-cases (get_field f r).1) [
      | inl (v, e) ↦
          let got = Got-ok (InRange f) (get_field f r) v s e in
          rw (get_fields, e)
            (cons_ok-AllInRange f fs v (get_fields fs present (get_field f r).0) got.1
              (get_fields-AllInRange fs present (get_field f r).0 room.1 got.0))
      | inr (inl e) ↦ rw (get_fields, e) tt
      | inr (inr e) ↦ rw (get_fields, e) tt
    ]

get_body-AllInRange :
    (s : Schema) (present : ℕ) (r : Reader)
    → All HasRoom s.fields
    → Holds r
    → Delivers (AllInRange s.fields) (get_body s present r)
unfolding get_body
get_body-AllInRange s zero r room h = tt
get_body-AllInRange s (suc present) r room h =
    let k = Sound-Holds (λ v. v < 2 ^ 32) (r_u32 r) (r_u32-Sound r h) in
    elim (Option-cases (r_u32 r).1) [
      | inl e ↦ rw (get_body, e) tt
      | inr (n, e) ↦
          rw (get_body, e)
            (if_elim (Delivers (AllInRange s.fields)) (n == s.id)
              (get_fields s.fields present (r_u32 r).0) invalid_arg
              (λ yes. get_fields-AllInRange s.fields present (r_u32 r).0 room k) (λ no. tt))
    ]

r_array-Holds : (r : Reader) → Holds r → Holds (r_array r).0
unfolding r_array
r_array-Holds r h =
    let r1 : Reader = (read_want r mt_array).0 in
    let k : Holds r1 = Sound-Holds Word (read_want r mt_array) (read_want-Sound r mt_array h) in
    elim (Option-cases (read_want r mt_array).1) [
      | inl e ↦ rw (r_array, e) k
      | inr (n, e) ↦
          rw (r_array, e)
            (if_elim (λ (x : Read ℕ). Holds x.0) (ltb (r1.len - r1.pos) n)
              (failed_at r.pos r1, none) (r1, some n) (λ short. k) (λ there. k))
    ]

-- Whatever bytes arrive, a message that a decoder hands out has every number in the range of its C type,
-- every text shorter than its buffer and every byte string no longer than its limit, those fields that
-- the peer left out included. Condition: each text of the schema has a buffer.
pub decode-AllInRange :
    (s : Schema) (buf : List ℕ)
    → All HasRoom s.fields
    → All IsByte buf
    → Delivers (AllInRange s.fields) (decode s buf)
unfolding decode r_init
decode-AllInRange s buf room h =
    let r : Reader = r_init (some buf) (length buf) in
    let k = r_array-Holds r h in
    elim (Option-cases (r_array r).1) [
      | inl e ↦ rw (decode, e) tt
      | inr (n, e) ↦ rw (decode, e) (get_body-AllInRange s n (r_array r).0 room k)
    ]
