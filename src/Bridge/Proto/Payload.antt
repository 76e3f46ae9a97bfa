-- ===== src/Bridge/Proto/Payload.antt =====
-- The bytes of a message, and the encoder that writes them: nev_proto_encode_*.
use nev_os.Base.{
  ℕ, suc, ◌^◌, ◌≤◌, ◌<◌, ◌≡◌, refl, ap, ◌∙◌, List, [], ◌∷◌, ◌++◌, append_assoc, if_then, if_else,
  length, arith, subst, some,
}
use nev_os.Bridge.Cbor.Writer.{Writer, w_init, w_array, w_u64}
use nev_os.Bridge.Cbor.Heads.{head_bytes}
use nev_os.Bridge.Cbor.Written.{IsWriter, Emits, Emits-nothing, Emits-both, put_head-Emits}
use nev_os.Bridge.Proto.{
  Field, Values, Schema, ok, no_space, put_fields, put_start, finished, encode,
}
use nev_os.Bridge.Proto.Fields.{field_bytes, InRange, Puts, put_field-Puts}

abbrev pub fields_bytes : (fs : List Field) → Values fs → List ℕ
fields_bytes [] vs = []
fields_bytes (f ∷ fs) (v, vs) = field_bytes f v ++ fields_bytes fs vs

abbrev pub AllInRange : (fs : List Field) → Values fs → Type 0
AllInRange [] vs = Unit {0}
AllInRange (f ∷ fs) (v, vs) = InRange f v × AllInRange fs vs

-- An array of the message's number and its fields.
abbrev pub payload : (s : Schema) → Values s.fields → List ℕ
payload s vs =
    head_bytes 4 (suc (length s.fields)) ++ (head_bytes 0 s.id ++ fields_bytes s.fields vs)

pub record IsSchema (s : Schema) : Type 0 where
  pub id_in : s.id < 2 ^ 16
  pub few : length s.fields < 2 ^ 16

put_fields-Puts :
    (fs : List Field) (vs : Values fs) (w : Writer)
    → AllInRange fs vs
    → Puts w (put_fields fs vs w) (fields_bytes fs vs)
unfolding put_fields
put_fields-Puts [] vs w i = (w, refl, Emits-nothing w)
put_fields-Puts (f ∷ fs) (v, vs) w i =
    let first = put_field-Puts f v w i.0 in
    let rest = put_fields-Puts fs vs first.0 i.1 in
    (
      rest.0,
      rw (put_fields, first.1) rest.1,
      Emits-both w first.0 rest.0 (field_bytes f v) (fields_bytes fs vs) first.2 rest.2,
    )

put_start-Emits :
    (s : Schema) (w : Writer)
    → Emits w (put_start s w) (head_bytes 4 (suc (length s.fields)) ++ head_bytes 0 s.id)
put_start-Emits s w =
    let w' = w_array w (suc (length s.fields)) in
    Emits-both w w' (w_u64 w' s.id) (head_bytes 4 (suc (length s.fields))) (head_bytes 0 s.id)
      (put_head-Emits w 4 (suc (length s.fields)) (omega arith))
      (put_head-Emits w' 0 s.id (omega arith))

-- An encoder answers with exactly the message's bytes where they fit the buffer, and with no_space
-- where they do not. Condition: the values are in the range of their fields, and the buffer is as
-- long as its capacity says.
pub encode_exact :
    (s : Schema) (vs : Values s.fields) (buf : List ℕ) (room : ℕ)
    → AllInRange s.fields vs
    → room ≤ length buf
    → (length (payload s vs) ≤ room → encode s vs buf room ≡ ok (payload s vs))
      × (room < length (payload s vs) → encode s vs buf room ≡ no_space)
unfolding encode w_init
encode_exact s vs buf room i h =
    let w = w_init (some buf) room in
    let start = put_start s w in
    let p = put_fields-Puts s.fields vs start i in
    let heads = head_bytes 4 (suc (length s.fields)) ++ head_bytes 0 s.id in
    let shape : heads ++ fields_bytes s.fields vs ≡ payload s vs =
      append_assoc (head_bytes 4 (suc (length s.fields))) (head_bytes 0 s.id)
        (fields_bytes s.fields vs) in
    let e =
      subst (Emits w p.0) shape
        (Emits-both w start p.0 heads (fields_bytes s.fields vs) (put_start-Emits s w) p.2) in
    let fresh : IsWriter w = record { sound = refl; storage = h } in
    (
      λ fits.
          let wrote = e.room fresh (omega arith) in
          ap finished p.1 ∙ if_else (p.0).overflow _ _ wrote.writer.sound ∙ ap ok wrote.text,
      λ large.
          ap finished p.1 ∙ if_then (p.0).overflow _ _ (e.full fresh (omega arith) (omega arith)),
    )
