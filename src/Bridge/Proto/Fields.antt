-- ===== src/Bridge/Proto/Fields.antt =====
-- One field on the wire: the bytes that `put_field` writes, which `get_field` reads back and
-- nev_cbor_r_skip steps over.
use nev_os.Base.{
  if_elim, ℕ, ◌+◌, ◌*◌, ◌^◌, ◌≤◌, ◌<◌, ◌≡◌, refl, sym, ap, List, [], ◌∷◌, ◌++◌, append_assoc, ltb,
  leb, if_else, length, arith, length-append, subst, some, none, Option,
}
use nev_os.Bridge.Cbor.Writer.{Writer, w_bool, w_f32, w_u64, w_text, w_bytes}
use nev_os.Bridge.Cbor.Reader.{Reader, Read, r_u32, r_u64, r_bool, r_f32, r_text, r_bytes, r_skip}
use nev_os.Bridge.Cbor.Heads.{head_bytes, be_bytes, Reads}
use nev_os.Bridge.Cbor.Written.{Emits, put-Emits, put_head-Emits, long-Emits, string-Emits}
use nev_os.Bridge.Cbor.Numbers.{Returns}
use nev_os.Bridge.Cbor.Strings.{text-Returns, string-Returns}
use nev_os.Bridge.Cbor.Scalars.{u64-Returns, u32-Returns, bool-Returns, f32-Returns, bool_byte}
use nev_os.Bridge.Cbor.Skips.{Skips, skip-uint, skip-bool, skip-f32, skip-bytes, skip-text}
use nev_os.Bridge.Proto.{
  or_invalid, no_longer, at_most, Field, u8, u16, u32, u64, boolean, f32, text, bytes, Value,
  Result, ok, put_field, get_field,
}

abbrev pub field_bytes : (f : Field) → Value f → List ℕ
field_bytes u8 v = head_bytes 0 v
field_bytes u16 v = head_bytes 0 v
field_bytes u32 v = head_bytes 0 v
field_bytes u64 v = head_bytes 0 v
field_bytes boolean v = bool_byte v ∷ []
field_bytes f32 v = (7 * 2 ^ 5 + 26) ∷ be_bytes 4 v
field_bytes (text cap) v = head_bytes 3 (length v) ++ v
field_bytes (bytes most) v = head_bytes 2 (length v) ++ v

-- The values of a field's C type; a text fits its buffer, and a byte string is not too long.
abbrev pub InRange : (f : Field) → Value f → Type 0
InRange u8 v = v < 2 ^ 8
InRange u16 v = v < 2 ^ 16
InRange u32 v = v < 2 ^ 32
InRange u64 v = v < 2 ^ 64
InRange boolean v = Unit {0}
InRange f32 v = v < 2 ^ 32
InRange (text cap) v = (length v < cap) × (length v < 2 ^ 64)
InRange (bytes most) v = (length v ≤ most) × (length v < 2 ^ 64)

-- An operation that answers with a writer, which has written these bytes.
abbrev pub Puts : Writer → Option Writer → List ℕ → Type 0
Puts w put_it bs = (w' : Writer) × (put_it ≡ some w') × Emits w w' bs

pub put_field-Puts :
    (f : Field) (v : Value f) (w : Writer)
    → InRange f v
    → Puts w (put_field f v w) (field_bytes f v)
unfolding put_field w_text
put_field-Puts u8 v w h = (w_u64 w v, refl, put_head-Emits w 0 v (omega arith))
put_field-Puts u16 v w h = (w_u64 w v, refl, put_head-Emits w 0 v (omega arith))
put_field-Puts u32 v w h = (w_u64 w v, refl, put_head-Emits w 0 v (omega arith))
put_field-Puts u64 v w h = (w_u64 w v, refl, put_head-Emits w 0 v (omega arith))
put_field-Puts boolean v w h = (w_bool w v, refl, put-Emits w (bool_byte v))
put_field-Puts f32 v w h = (w_f32 w v, refl, long-Emits w (7 * 2 ^ 5 + 26) v 4)
put_field-Puts (text cap) v w h = (w_text w (some v), refl, string-Emits w 3 v (omega arith))
put_field-Puts (bytes most) v w h = (
  w_bytes w v,
  if_else (ltb most (length v)) _ _ (ground (arith, h)),
  string-Emits w 2 v (omega arith),
)

-- A field that is read, and the bytes that are left.
abbrev pub Gets : {A : Type 0} → Reader × Result A → A → List ℕ → Type 0
Gets (r', got) v q = (got ≡ ok v) × Reads r' q

or_invalid-Gets :
    {A : Type 0} (x : Read A) (v : A) (q : List ℕ) → Returns x v q → Gets (or_invalid x) v q
or_invalid-Gets (r, none) v q (e, h) = absurd (ground (arith, e))
or_invalid-Gets (r, some a) v q (e, h) = (cc, h)

narrow-Gets :
    (x : Read ℕ) (v most : ℕ) (q : List ℕ) → v ≤ most → Returns x v q → Gets (at_most most x) v q
narrow-Gets (r, none) v most q small (e, h) = absurd (ground (arith, e))
narrow-Gets (r, some a) v most q small (e, h) =
    let same : a ≡ v = cc in
    subst (λ (x : Reader × Result ℕ). Gets x v q)
      (sym (if_else (ltb most a) _ _ (ground (arith, same)))) (ap ok same, h)

short-Gets :
    (x : Read (List ℕ)) (v : List ℕ) (most : ℕ) (q : List ℕ)
    → length v ≤ most
    → Returns x v q
    → Gets (no_longer most x) v q
short-Gets (r, none) v most q small (e, h) = absurd (ground (arith, e))
short-Gets (r, some a) v most q small (e, h) =
    let same : a ≡ v = cc in
    let len : length a ≡ length v = ap length same in
    subst (λ (x : Reader × Result (List ℕ)). Gets x v q)
      (sym (if_else (ltb most (length a)) _ _ (ground (arith, len)))) (ap ok same, h)

pub get_field-Gets :
    (f : Field) (v : Value f) (r : Reader) (q : List ℕ)
    → InRange f v
    → Reads r (field_bytes f v ++ q)
    → Gets (get_field f r) v q
unfolding get_field
get_field-Gets u8 v r q i h =
    narrow-Gets (r_u32 r) v 0xFF q (omega arith) (u32-Returns r v q (omega arith) h)
get_field-Gets u16 v r q i h =
    narrow-Gets (r_u32 r) v 0xFFFF q (omega arith) (u32-Returns r v q (omega arith) h)
get_field-Gets u32 v r q i h = or_invalid-Gets (r_u32 r) v q (u32-Returns r v q i h)
get_field-Gets u64 v r q i h = or_invalid-Gets (r_u64 r) v q (u64-Returns r v q i h)
get_field-Gets boolean v r q i h = or_invalid-Gets (r_bool r) v q (bool-Returns r v q h)
get_field-Gets f32 v r q i h = or_invalid-Gets (r_f32 r) v q (f32-Returns r v q i h)
get_field-Gets (text cap) v r q i h = or_invalid-Gets (r_text r cap) v q (
    text-Returns r v q cap i.0
      (string-Returns r 3 v q i.1 (subst (Reads r) (append_assoc (head_bytes 3 (length v)) v q) h)))
get_field-Gets (bytes most) v r q i h =
    short-Gets (r_bytes r) v most q i.0
      (string-Returns r 2 v q i.1 (subst (Reads r) (append_assoc (head_bytes 2 (length v)) v q) h))

pub skip-field :
    (f : Field) (v : Value f) (r : Reader) (q : List ℕ)
    → InRange f v
    → Reads r (field_bytes f v ++ q)
    → Skips (r_skip r) q
skip-field u8 v r q i h = skip-uint r v q (omega arith) h
skip-field u16 v r q i h = skip-uint r v q (omega arith) h
skip-field u32 v r q i h = skip-uint r v q (omega arith) h
skip-field u64 v r q i h = skip-uint r v q i h
skip-field boolean v r q i h = skip-bool r v q h
skip-field f32 v r q i h = skip-f32 r v q i h
skip-field (text cap) v r q i h =
    skip-text r v q i.1 (subst (Reads r) (append_assoc (head_bytes 3 (length v)) v q) h)
skip-field (bytes most) v r q i h =
    skip-bytes r v q i.1 (subst (Reads r) (append_assoc (head_bytes 2 (length v)) v q) h)

-- Every field takes at least one byte.
head_bytes-some : (major v : ℕ) → 0 < length (head_bytes major v)
head_bytes-some major v =
    if_elim Some (ltb v 24) _ _ (λ e. omega arith)
      λ e1.
        if_elim Some (leb v 0xFF) _ _ (λ e. omega arith)
          λ e2.
            if_elim Some (leb v 0xFFFF) _ _ (λ e. omega arith)
              λ e3. if_elim Some (leb v 0xFFFFFFFF) _ _ (λ e. omega arith) λ e4. omega arith
  where
    Some : List ℕ → Type 0
    Some bs = 0 < length bs

pub field_bytes-some : (f : Field) (v : Value f) → 0 < length (field_bytes f v)
field_bytes-some u8 v = head_bytes-some 0 v
field_bytes-some u16 v = head_bytes-some 0 v
field_bytes-some u32 v = head_bytes-some 0 v
field_bytes-some u64 v = head_bytes-some 0 v
field_bytes-some boolean v = omega arith
field_bytes-some f32 v = omega arith
field_bytes-some (text cap) v =
    omega (arith, head_bytes-some 3 (length v), length-append (head_bytes 3 (length v)) v)
field_bytes-some (bytes most) v =
    omega (arith, head_bytes-some 2 (length v), length-append (head_bytes 2 (length v)) v)
