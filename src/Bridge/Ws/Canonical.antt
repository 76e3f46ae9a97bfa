-- ===== src/Bridge/Ws/Canonical.antt =====
-- What nev_ws_frame_read accepts: the one encoding of a frame, and nothing else.
use Prim.Native.Nat.{bit_and}
use nev_os.Base.{
  IsByte, subst, bit_and-low_seven, leb, bit_and-high_nibble, if_then, if_else, length-append,
  take-drop, append_assoc, length-take, bit_and-high, bit_and-nibble, ◌≢◌, ℕ, ◌+◌, ◌-◌, ◌*◌, ◌/◌,
  ◌%◌, ◌^◌, ◌≤◌, ◌<◌, ◌≡◌, sym, ap, ◌∙◌, List, [], ◌∷◌, ◌++◌, All, length, take, drop, u8_mod,
  arith,
}
use native.Mathlib.Decide.{dec_le}
use nev_os.Bridge.Ws.Frame.{rx_cap, frame, body, read_length, frame_read}
use nev_os.Bridge.Ws.Wire.{short_length, server_frame, payload_at}

-- `buf` starts with the frame that the answer `frame op at n c` describes.
pub record IsFrame (buf : List ℕ) (op at n c : ℕ) : Type 0 where
  pub payload : List ℕ
  pub rest : List ℕ
  pub split : buf ≡ server_frame op payload ++ rest
  pub nibble : op < 16
  pub measured : length payload ≡ n
  pub small : n ≤ rx_cap
  pub placed : at ≡ payload_at n
  pub whole : c ≡ length (server_frame op payload)

body-frame :
    (o p m : ℕ) (buf : List ℕ) (op at n c : ℕ)
    → body o p m buf ≡ frame op at n c
    → (o ≡ op) × (p ≡ at) × (m ≡ n) × (p + m ≡ c) × (m ≤ rx_cap) × (p + m ≤ length buf)
body-frame o p m buf op at n c h = ground arith

frame_read-bytes :
    (b0 b1 : ℕ) (q : List ℕ) (op at n c : ℕ)
    → b0 < 256
    → b1 < 256
    → frame_read (b0 ∷ b1 ∷ q) ≡ frame op at n c
    → (o : ℕ) × (b0 ≡ 128 + o)
      × (o < 16)
      × (b1 < 128)
      × (read_length o b1 (b0 ∷ b1 ∷ q) ≡ frame op at n c)
unfolding frame_read
frame_read-bytes b0 b1 q op at n c h k e =
    let top = bit_and-nibble b0 h in
    let low = bit_and-high b1 k in
    let inside : (128 ≤ b0) × (b0 < 144) × (b1 < 128) = ground (arith, top, low) in
    let o : ℕ = b0 - 128 in
    let is : b0 ≡ 128 + o = omega (arith, inside) in
    let nib : bit_and b0 0x0F ≡ o =
      ap (λ x. bit_and x 0x0F) is ∙ bit_and-high_nibble o (omega (arith, inside)) in
    let low7 = bit_and-low_seven b1 inside.2 in
    (o, is, omega (arith, inside), inside.2, ground (arith, nib, low7))

-- A frame whose length is in its shortest form and whose payload has arrived.
found-IsFrame :
    (op at n c : ℕ) (form q : List ℕ)
    → short_length n ≡ form
    → op < 16
    → n ≤ length q
    → n ≤ rx_cap
    → at ≡ payload_at n
    → c ≡ 1 + length form + n
    → IsFrame ((128 + op) ∷ (form ++ q)) op at n c
found-IsFrame op at n c form q e small room cap place whole =
    let payload = take n q in
    let rest = drop n q in
    let len : length payload ≡ n = omega (arith, length-take n q) in
    let shape : short_length (length payload) ≡ form = ap short_length len ∙ e in
    record {
      payload = payload;
      rest = rest;
      split =
          ap (λ l. (128 + op) ∷ l)
            (sym (
              append_assoc (short_length (length payload)) payload rest
              ∙ ap (λ l. l ++ (payload ++ rest)) shape
              ∙ ap (λ l. form ++ l) (take-drop n q)));
      nibble = small;
      measured = len;
      small = cap;
      placed = place;
      whole = omega (
        arith,
        whole,
        len,
        ap length shape,
        length-append (short_length (length payload)) payload,
      );
    }

short-IsFrame :
    (o b1 : ℕ) (q : List ℕ) (op at n c : ℕ)
    → o < 16
    → b1 ≤ 125
    → read_length o b1 ((128 + o) ∷ b1 ∷ q) ≡ frame op at n c
    → IsFrame ((128 + o) ∷ b1 ∷ q) op at n c
unfolding read_length
short-IsFrame o b1 q op at n c small short e =
    let got = body-frame o 2 b1 ((128 + o) ∷ b1 ∷ q) op at n c (ground (arith, e)) in
    let form : short_length n ≡ b1 ∷ [] =
      ap short_length (sym got.2)
      ∙ if_then (leb b1 125) (b1 ∷ []) (126 ∷ b1 / 2 ^ 8 % u8_mod ∷ b1 % u8_mod ∷ [])
          (ground arith) in
    let place : payload_at n ≡ 2 =
      ap payload_at (sym got.2) ∙ if_then (leb b1 125) 2 4 (ground arith) in
    subst (λ k. IsFrame ((128 + k) ∷ b1 ∷ q) op at n c) (sym got.0)
      (found-IsFrame op at n c (b1 ∷ []) q form (omega (arith, got)) (omega (arith, got))
        (omega (arith, got)) (omega (arith, got, place)) (omega (arith, got)))

long-IsFrame :
    (o : ℕ) (q : List ℕ) (op at n c : ℕ)
    → o < 16
    → All IsByte q
    → read_length o 126 ((128 + o) ∷ 126 ∷ q) ≡ frame op at n c
    → IsFrame ((128 + o) ∷ 126 ∷ q) op at n c
unfolding read_length
long-IsFrame o [] op at n c small bytes e = absurd (ground arith)
long-IsFrame o (x ∷ []) op at n c small bytes e = absurd (ground arith)
long-IsFrame o (x ∷ y ∷ q) op at n c small bytes e =
    let two : ℕ = x * 2 ^ 8 + y in
    let high : two / 2 ^ 8 % u8_mod ≡ x = omega (arith, bytes.0, bytes.1.0) in
    let low : two % u8_mod ≡ y = omega (arith, bytes.0, bytes.1.0) in
    let long : 125 < two = ground (arith, e) in
    let got = body-frame o 4 two ((128 + o) ∷ 126 ∷ x ∷ y ∷ q) op at n c (ground (arith, e)) in
    let form : short_length n ≡ 126 ∷ x ∷ y ∷ [] =
      ap short_length (sym got.2)
      ∙ if_else (leb two 125) (two ∷ []) (126 ∷ two / 2 ^ 8 % u8_mod ∷ two % u8_mod ∷ [])
          (ground arith)
      ∙ ap (λ a. 126 ∷ a ∷ two % u8_mod ∷ []) high
      ∙ ap (λ b. 126 ∷ x ∷ b ∷ []) low in
    let place : payload_at n ≡ 4 =
      ap payload_at (sym got.2) ∙ if_else (leb two 125) 2 4 (ground arith) in
    subst (λ k. IsFrame ((128 + k) ∷ 126 ∷ x ∷ y ∷ q) op at n c) (sym got.0)
      (found-IsFrame op at n c (126 ∷ x ∷ y ∷ []) q form (omega (arith, got)) (omega (arith, got))
        (omega (arith, got)) (omega (arith, got, place)) (omega (arith, got)))

huge-no_frame : (o : ℕ) (buf : List ℕ) (op at n c : ℕ) → read_length o 127 buf ≢ frame op at n c
unfolding read_length
huge-no_frame o buf op at n c e = ground arith

-- An accepted buffer of bytes starts with the shortest encoding of the frame that the answer
-- describes, so that no frame has two encodings, and the answer places its payload and its end.
pub frame_read-IsFrame :
    (buf : List ℕ) (op at n c : ℕ)
    → All IsByte buf
    → frame_read buf ≡ frame op at n c
    → IsFrame buf op at n c
unfolding frame_read
frame_read-IsFrame [] op at n c bytes e = absurd (ground arith)
frame_read-IsFrame (b0 ∷ []) op at n c bytes e = absurd (ground arith)
frame_read-IsFrame (b0 ∷ b1 ∷ q) op at n c bytes e =
    let got = frame_read-bytes b0 b1 q op at n c bytes.0 bytes.1.0 e in
    let o : ℕ = got.0 in
    let here : read_length o b1 ((128 + o) ∷ b1 ∷ q) ≡ frame op at n c =
      ap (λ b. read_length o b1 (b ∷ b1 ∷ q)) (sym got.1) ∙ got.4 in
    subst (λ b. IsFrame (b ∷ b1 ∷ q) op at n c) (sym got.1)
      (elim (dec_le b1 125) [
        | yes short ↦ short-IsFrame o b1 q op at n c got.2 short here
        | no long ↦ elim (dec_le b1 126) [
          | yes last ↦
              let is : b1 ≡ 126 = omega arith in
              subst (λ b. IsFrame ((128 + o) ∷ b ∷ q) op at n c) (sym is)
                (long-IsFrame o q op at n c got.2 bytes.1.1
                  (ap (λ b. read_length o b ((128 + o) ∷ b ∷ q)) (sym is) ∙ here))
          | no huge ↦
              let is : b1 ≡ 127 = omega (arith, got) in
              absurd (
                huge-no_frame o ((128 + o) ∷ 127 ∷ q) op at n c
                  (ap (λ b. read_length o b ((128 + o) ∷ b ∷ q)) (sym is) ∙ here))
        ]
      ])
