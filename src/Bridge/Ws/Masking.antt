-- ===== src/Bridge/Ws/Masking.antt =====
-- What nev_ws_frame_write writes, read by a server.
use Prim.Native.Nat.{bit_xor, bit_and, bit_or}
use native.Mathlib.Decide.{dec_le}
use nev_os.Base.{
  IsByte, ℕ, suc, ◌+◌, ◌-◌, ◌*◌, ◌/◌, ◌%◌, ◌^◌, ◌≤◌, ◌<◌, ◌≡◌, refl, ap, ◌∙◌, Option, none, some,
  List, [], ◌∷◌, ◌++◌, All, length, take, drop, u8_mod, arith, ltb, leb, ◌==◌, if◌then◌else◌,
  if_then, if_else, bit_xor-twice, bit_or-high, bit_and-low_four, get_or, length-append,
}
use nev_os.Bridge.Ws.Frame.{header_size, length_field, masked, frame_write}

-- A server's side, after RFC 6455. The four bytes of the mask go round: a byte is under the first
-- of them, and then that is the last.
abbrev pub unmasked : ℕ → ℕ → ℕ → ℕ → List ℕ → List ℕ
unmasked m0 m1 m2 m3 [] = []
unmasked m0 m1 m2 m3 (x ∷ xs) = bit_xor x m0 ∷ unmasked m1 m2 m3 m0 xs

-- `q` is the mask and `n` bytes under it.
abbrev pub unmask : ℕ → ℕ → List ℕ → Option (ℕ × List ℕ)
unmask op n (m0 ∷ m1 ∷ m2 ∷ m3 ∷ xs) =
    if length xs == n then some (op, unmasked m0 m1 m2 m3 xs) else none
unmask op n q = none

-- The opcode and the payload of a client's frame of less than 2 ^ 16 bytes.
abbrev pub server_read : List ℕ → Option (ℕ × List ℕ)
server_read [] = none
server_read (b0 ∷ []) = none
server_read (b0 ∷ b1 ∷ q) =
    if leb (b1 - 128) 125
    then unmask (b0 - 128) (b1 - 128) q
    else unmask (b0 - 128) (get_or q 0 0 * 2 ^ 8 + get_or q 1 0) (drop 2 q)

xor_again :
    (p m : ℕ) (xs ys : List ℕ)
    → IsByte p
    → IsByte m
    → xs ≡ ys
    → bit_xor (bit_xor p m) m ∷ xs ≡ p ∷ ys
xor_again p m xs ys hp hm e = ap (λ x. x ∷ xs) (bit_xor-twice p m hp hm) ∙ ap (λ l. p ∷ l) e

-- The client's index into the mask and the server's turning of it agree, from each of the four
-- places on.
module _ (a b c d : ℕ) (hm : All IsByte (a ∷ b ∷ c ∷ d ∷ [])) where
  abbrev Undone : ℕ → List ℕ → Type 0
  Undone i ps =
      (i % 4 ≡ 0 → unmasked a b c d (masked i (a ∷ b ∷ c ∷ d ∷ []) ps) ≡ ps)
      × (i % 4 ≡ 1 → unmasked b c d a (masked i (a ∷ b ∷ c ∷ d ∷ []) ps) ≡ ps)
      × (i % 4 ≡ 2 → unmasked c d a b (masked i (a ∷ b ∷ c ∷ d ∷ []) ps) ≡ ps)
      × (i % 4 ≡ 3 → unmasked d a b c (masked i (a ∷ b ∷ c ∷ d ∷ []) ps) ≡ ps)

  masked-Undone : (i : ℕ) (ps : List ℕ) → All IsByte ps → Undone i ps
  masked-Undone i [] hp = (λ e. refl, λ e. refl, λ e. refl, λ e. refl)
  masked-Undone i (p ∷ ps) hp =
      let rest : Undone (i + 1) ps = masked-Undone (i + 1) ps hp.1 in
      (
        λ e. rw e (xor_again p a _ ps hp.0 hm.0 (rest.1 (omega arith))),
        λ e. rw e (xor_again p b _ ps hp.0 hm.1.0 (rest.2 (omega arith))),
        λ e. rw e (xor_again p c _ ps hp.0 hm.1.1.0 (rest.3 (omega arith))),
        λ e. rw e (xor_again p d _ ps hp.0 hm.1.1.1.0 (rest.0 (omega arith))),
      )

pub length-masked : (i : ℕ) (mask ps : List ℕ) → length (masked i mask ps) ≡ length ps
length-masked i mask [] = refl
length-masked i mask (p ∷ ps) = ap suc (length-masked (i + 1) mask ps)

take-four : (mask : List ℕ) → length mask ≡ 4 → take 4 mask ≡ mask
take-four (a ∷ b ∷ c ∷ d ∷ []) h = refl
take-four [] h = absurd (omega arith)
take-four (a ∷ []) h = absurd (omega arith)
take-four (a ∷ b ∷ []) h = absurd (omega arith)
take-four (a ∷ b ∷ c ∷ []) h = absurd (omega arith)
take-four (a ∷ b ∷ c ∷ d ∷ e ∷ l) h = absurd (omega arith)

unmask-masked :
    (op : ℕ) (mask ps : List ℕ)
    → length mask ≡ 4
    → All IsByte mask
    → All IsByte ps
    → unmask op (length ps) (mask ++ masked 0 mask ps) ≡ some (op, ps)
unmask-masked op (a ∷ b ∷ c ∷ d ∷ []) ps four hm hp =
    let mask = a ∷ b ∷ c ∷ d ∷ [] in
    if_then (length (masked 0 mask ps) == length ps) _ _ (ground (arith, length-masked 0 mask ps))
    ∙ ap (λ l. some (op, l)) ((masked-Undone a b c d hm 0 ps hp).0 refl)
unmask-masked op [] ps four hm hp = absurd (omega arith)
unmask-masked op (a ∷ []) ps four hm hp = absurd (omega arith)
unmask-masked op (a ∷ b ∷ []) ps four hm hp = absurd (omega arith)
unmask-masked op (a ∷ b ∷ c ∷ []) ps four hm hp = absurd (omega arith)
unmask-masked op (a ∷ b ∷ c ∷ d ∷ e ∷ l) ps four hm hp = absurd (omega arith)

-- The length and the mask bit, with the mask and the payload under it.
abbrev written : ℕ → List ℕ → List ℕ → List ℕ
written op payload mask =
    (128 + op) ∷ (length_field (length payload) ++ (mask ++ masked 0 mask payload))

module _ (op : ℕ) (payload mask : List ℕ) where
  written-read :
      length mask ≡ 4
      → All IsByte mask
      → All IsByte payload
      → length payload ≤ 0xFFFF
      → (length (written op payload mask) ≡ header_size (length payload) + length payload)
        × (server_read (written op payload mask) ≡ some (op, payload))
  written-read four hm hp short =
      let n = length payload in
      let q = mask ++ masked 0 mask payload in
      let total = length-append mask (masked 0 mask payload) in
      let same = length-masked 0 mask payload in
      elim (dec_le n 125) [
        | yes tiny ↦
            let form : length_field n ≡ (128 + n) ∷ [] =
              if_then (leb n 125) _ _ (ground arith)
              ∙ ap (λ b. b ∷ []) (bit_or-high n (omega arith)) in
            (
              rw form (ground (arith, total, same, four)),
              ap (λ l. server_read ((128 + op) ∷ (l ++ q))) form
                  ∙ if_then (leb (128 + n - 128) 125) _ _ (ground arith)
                  ∙ ap (λ o. unmask o (128 + n - 128) q) (omega arith)
                  ∙ ap (λ m. unmask op m q) (omega arith)
                  ∙ unmask-masked op mask payload four hm hp,
            )
        | no more ↦
            let form : length_field n ≡ bit_or 0x80 126 ∷ n / 2 ^ 8 % u8_mod ∷ n % u8_mod ∷ [] =
              if_else (leb n 125) _ _ (ground arith) ∙ if_then (leb n 0xFFFF) _ _ (ground arith) in
            (
              rw form (ground (arith, total, same, four)),
              ap (λ l. server_read ((128 + op) ∷ (l ++ q))) form
                  ∙ ap (λ o. unmask o (n / 2 ^ 8 % u8_mod * 2 ^ 8 + n % u8_mod) q) (omega arith)
                  ∙ ap (λ m. unmask op m q) (omega arith)
                  ∙ unmask-masked op mask payload four hm hp,
            )
      ]

-- A frame whose payload has less than 2 ^ 16 bytes is written exactly where it fits: then it takes
-- the bytes that header_size counts, and a server reads back its opcode and its payload; nothing is
-- written otherwise. Condition: the opcode has four bits, the mask is four bytes, and the payload
-- is bytes.
pub frame_write_exact :
    (out_cap op : ℕ) (payload mask : List ℕ)
    → op < 16
    → length mask ≡ 4
    → All IsByte mask
    → All IsByte payload
    → length payload ≤ 0xFFFF
    → (header_size (length payload) + length payload ≤ out_cap
        → (bytes : List ℕ) × (frame_write out_cap op payload mask ≡ some bytes)
          × (length bytes ≡ header_size (length payload) + length payload)
          × (server_read bytes ≡ some (op, payload)))
      × (out_cap < header_size (length payload) + length payload
          → frame_write out_cap op payload mask ≡ none)
unfolding frame_write
frame_write_exact out_cap op payload mask small four hm hp short =
    let n = length payload in
    let first : bit_or 0x80 (bit_and op 0x0F) ≡ 128 + op =
      ap (λ x. bit_or 0x80 x) (bit_and-low_four op small) ∙ bit_or-high op (omega arith) in
    let tail = masked 0 mask payload in
    let got = written-read op payload mask four hm hp short in
    (
      λ room. (
        written op payload mask,
        if_else (ltb out_cap (header_size n + n)) _ _ (ground arith)
            ∙ ap (λ b. some (b ∷ (length_field n ++ (take 4 mask ++ tail)))) first
            ∙ ap (λ m. some ((128 + op) ∷ (length_field n ++ (m ++ tail)))) (take-four mask four),
        got.0,
        got.1,
      ),
      λ full. if_then (ltb out_cap (header_size n + n)) _ _ (ground arith),
    )
