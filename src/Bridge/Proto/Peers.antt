-- ===== src/Bridge/Proto/Peers.antt =====
-- Messages between peers: of one version of the schema, and of two of which one has appended
-- fields.
use nev_os.Bridge.Proto.Payload.{fields_bytes, AllInRange, payload, IsSchema, encode_exact}
use nev_os.Base.{
  ℕ, suc, ◌≤◌, ◌≡◌, refl, sym, ap, ◌∙◌, List, [], ◌∷◌, ◌++◌, append_assoc, append-nil, ◌==◌,
  if_then, length, arith, length-append, subst,
}
use native.Mathlib.Decide.{dec_lt}
use nev_os.Bridge.Cbor.Reader.{Reader, r_init, r_u32, r_array, r_skip}
use nev_os.Bridge.Cbor.Heads.{head_bytes, Reads}
use nev_os.Bridge.Cbor.Numbers.{reader_at}
use nev_os.Bridge.Cbor.Scalars.{u32-Returns, array-Returns}
use nev_os.Bridge.Proto.{
  Field, Values, Schema, ok, encode, get_field, get_fields, get_body, decode, step_over,
  zero_values, cons_ok,
}
use nev_os.Bridge.Proto.Fields.{field_bytes, get_field-Gets, skip-field, field_bytes-some}

length-fields_bytes : (fs : List Field) (vs : Values fs) → length fs ≤ length (fields_bytes fs vs)
length-fields_bytes [] vs = omega arith
length-fields_bytes (f ∷ fs) (v, vs) = omega (
  arith,
  field_bytes-some f v,
  length-fields_bytes fs vs,
  length-append (field_bytes f v) (fields_bytes fs vs),
)

step_over-fields :
    (gs : List Field) (ws : Values gs) (r : Reader)
    → AllInRange gs ws
    → Reads r (fields_bytes gs ws)
    → step_over (length gs) r ≡ ok tt
unfolding step_over
step_over-fields [] ws r i h = refl
step_over-fields (g ∷ gs) (w, ws) r i h =
    let s = skip-field g w r (fields_bytes gs ws) i.0 h in
    rw (step_over, s.0) (step_over-fields gs ws (r_skip r).0 i.1 s.1)

-- The receiver's fields, with more of them behind.
get_fields-newer :
    (fs gs : List Field) (vs : Values fs) (ws : Values gs) (r : Reader)
    → AllInRange fs vs
    → AllInRange gs ws
    → Reads r (fields_bytes fs vs ++ fields_bytes gs ws)
    → get_fields fs (length (fs ++ gs)) r ≡ ok vs
unfolding get_fields
get_fields-newer [] gs vs ws r i j h = step_over-fields gs ws r j h
get_fields-newer (f ∷ fs) gs (v, vs) ws r i j h =
    let g = get_field-Gets f v r (fields_bytes fs vs ++ fields_bytes gs ws) i.0 (
      subst (Reads r) (append_assoc (field_bytes f v) (fields_bytes fs vs) (fields_bytes gs ws))
        h) in
    rw (get_fields, g.0) (ap (cons_ok v) (get_fields-newer fs gs vs ws (get_field f r).0 i.1 j g.1))

abbrev pub join : (fs gs : List Field) → Values fs → Values gs → Values (fs ++ gs)
join [] gs vs ws = ws
join (f ∷ fs) gs (v, vs) ws = (v, join fs gs vs ws)

-- The receiver has more fields than were sent.
get_fields-older :
    (fs gs : List Field) (vs : Values fs) (r : Reader)
    → AllInRange fs vs
    → Reads r (fields_bytes fs vs)
    → get_fields (fs ++ gs) (length fs) r ≡ ok (join fs gs vs (zero_values gs))
unfolding get_fields step_over
get_fields-older [] [] vs r i h = refl
get_fields-older [] (g ∷ gs) vs r i h = refl
get_fields-older (f ∷ fs) gs (v, vs) r i h =
    let g = get_field-Gets f v r (fields_bytes fs vs) i.0 h in
    rw (get_fields, g.0) (ap (cons_ok v) (get_fields-older fs gs vs (get_field f r).0 i.1 g.1))

-- The array's head and the message's number are read, and the fields are in front of the reader.
decode-fields :
    (s t : Schema) (vs : Values s.fields)
    → IsSchema s
    → s.id ≡ t.id
    → (r : Reader) × Reads r (fields_bytes s.fields vs)
      × (decode t (payload s vs) ≡ get_fields t.fields (length s.fields) r)
unfolding decode get_body r_init
decode-fields s t vs v e =
    let buf = payload s vs in
    let fields = fields_bytes s.fields vs in
    let rest = head_bytes 0 s.id ++ fields in
    let start : Reads (reader_at buf 0) buf = record {
      sound = refl;
      within = omega arith;
      unread = refl;
      left = omega arith;
    } in
    let few : suc (length s.fields) ≤ length rest = omega (
      arith,
      length-fields_bytes s.fields vs,
      field_bytes-some Field.u64 s.id,
      length-append (head_bytes 0 s.id) fields,
    ) in
    let a =
      array-Returns (reader_at buf 0) (suc (length s.fields)) rest (omega (arith, v.few)) few
        start in
    let u = u32-Returns (r_array (reader_at buf 0)).0 s.id fields (omega (arith, v.id_in)) a.1 in
    (
      (r_u32 (r_array (reader_at buf 0)).0).0,
      u.1,
      rw (decode, a.0) (rw (get_body, u.0) (if_then (s.id == t.id) _ _ (ground (arith, e)))),
    )

ok_injective : {A : Type 0} {x y : A} → ok x ≡ ok y → y ≡ x
ok_injective e = cc

encoded_bytes :
    (s : Schema) (vs : Values s.fields) (buf : List ℕ) (room : ℕ) (message : List ℕ)
    → AllInRange s.fields vs
    → room ≤ length buf
    → encode s vs buf room ≡ ok message
    → payload s vs ≡ message
encoded_bytes s vs buf room message i h e = elim (dec_lt room (length (payload s vs))) [
  | yes large ↦
      let no = sym e ∙ (encode_exact s vs buf room i h).1 large in absurd (ground (arith, no))
  | no fits ↦
      let same : ok message ≡ ok (payload s vs) =
        sym e ∙ (encode_exact s vs buf room i h).0 (omega arith) in
      ok_injective same
]

-- A message that was encoded is decoded to its values. Condition: the values are in the range of
-- their fields, the message's number and the number of its fields fit 16 bits, and the encoder's
-- buffer is as long as its capacity says.
pub round_trip :
    (s : Schema) (vs : Values s.fields) (buf : List ℕ) (room : ℕ) (message : List ℕ)
    → IsSchema s
    → AllInRange s.fields vs
    → room ≤ length buf
    → encode s vs buf room ≡ ok message
    → decode s message ≡ ok vs
round_trip s vs buf room message v i h e =
    let d = decode-fields s s vs v refl in
    let fields = fields_bytes s.fields vs in
    let all =
      subst (λ n. get_fields s.fields n d.0 ≡ ok vs) (ap length (append-nil s.fields))
        (get_fields-newer s.fields [] vs tt d.0 i tt
          (subst (Reads d.0) (sym (append-nil fields)) d.1)) in
    ap (decode s) (sym (encoded_bytes s vs buf room message i h e)) ∙ d.2 ∙ all

fields_bytes-join :
    (fs gs : List Field) (vs : Values fs) (ws : Values gs)
    → fields_bytes (fs ++ gs) (join fs gs vs ws) ≡ fields_bytes fs vs ++ fields_bytes gs ws
fields_bytes-join [] gs vs ws = refl
fields_bytes-join (f ∷ fs) gs (v, vs) ws =
    ap (◌++◌ (field_bytes f v)) (fields_bytes-join fs gs vs ws)
    ∙ sym (append_assoc (field_bytes f v) (fields_bytes fs vs) (fields_bytes gs ws))

-- A receiver whose schema has the first of the sender's fields decodes their values and steps over
-- the fields that the sender appended. Condition: all values are in the range of their fields, and
-- the message's number and the number of its fields fit 16 bits.
pub newer_peer :
    (id : ℕ) (fs gs : List Field) (vs : Values fs) (ws : Values gs)
    → IsSchema (record { id = id; fields = fs ++ gs })
    → AllInRange fs vs
    → AllInRange gs ws
    → decode
        (record { id = id; fields = fs })
        (payload (record { id = id; fields = fs ++ gs }) (join fs gs vs ws))
      ≡ ok vs
newer_peer id fs gs vs ws v i j =
    let s : Schema = record { id = id; fields = fs ++ gs } in
    let t : Schema = record { id = id; fields = fs } in
    let d = decode-fields s t (join fs gs vs ws) v refl in
    d.2
    ∙ get_fields-newer fs gs vs ws d.0 i j (subst (Reads d.0) (fields_bytes-join fs gs vs ws) d.1)

-- A receiver whose schema has appended fields decodes the values of the sender's, and the appended
-- ones are zero, false and empty. Condition: the values are in the range of their fields, and the
-- message's number and the number of the sender's fields fit 16 bits.
pub older_peer :
    (id : ℕ) (fs gs : List Field) (vs : Values fs)
    → IsSchema (record { id = id; fields = fs })
    → AllInRange fs vs
    → decode (record { id = id; fields = fs ++ gs }) (payload (record { id = id; fields = fs }) vs)
      ≡ ok (join fs gs vs (zero_values gs))
older_peer id fs gs vs v i =
    let s : Schema = record { id = id; fields = fs } in
    let t : Schema = record { id = id; fields = fs ++ gs } in
    let d = decode-fields s t vs v refl in d.2 ∙ get_fields-older fs gs vs d.0 i d.1
