-- ===== src/Bridge/Cbor/Scalars.antt =====
-- What the reader's other operations give at the bytes that the writer puts for their values.
use nev_os.Base.{
  ℕ, ◌+◌, ◌-◌, ◌*◌, ◌/◌, ◌^◌, ◌≤◌, ◌<◌, ◌≡◌, refl, sym, ap, ◌∙◌, Bool, true, false, not, ◌||◌, List,
  ◌∷◌, ◌++◌, some, ltb, ◌==◌, if◌then◌else◌, if_then, if_else, length, arith, subst,
}
use native.Mathlib.Nat.{div-eq_of_lt}
use nev_os.Bridge.Cbor.Reader.{
  Reader, Read, avail, here, advance, read_be, read_want, r_u32, r_u64, r_bool, r_f32, r_array,
}
use nev_os.Bridge.Cbor.Heads.{
  be_bytes, head_bytes, Reads, Reads-next, read_be-be_bytes, read_head-head_bytes,
}
use nev_os.Bridge.Cbor.Numbers.{Returns, read_want-Returns}

pub u64-Returns :
    (r : Reader) (v : ℕ) (q : List ℕ)
    → v < 2 ^ 64
    → Reads r (head_bytes 0 v ++ q)
    → Returns (r_u64 r) v q
u64-Returns r v q wide h = read_want-Returns r 0 v q (read_head-head_bytes r 0 v q wide h)

pub u32-Returns :
    (r : Reader) (v : ℕ) (q : List ℕ)
    → v < 2 ^ 32
    → Reads r (head_bytes 0 v ++ q)
    → Returns (r_u32 r) v q
unfolding r_u32
u32-Returns r v q small h =
    let g = u64-Returns r v q (omega arith) h in
    rw (r_u32, g.0)
      (subst (λ (x : Read ℕ). Returns x v q) (sym (if_else (ltb 0xFFFFFFFF v) _ _ (ground arith)))
        (refl, g.1))

pub array-Returns :
    (r : Reader) (n : ℕ) (q : List ℕ)
    → n < 2 ^ 64
    → n ≤ length q
    → Reads r (head_bytes 4 n ++ q)
    → Returns (r_array r) n q
unfolding r_array
array-Returns r n q wide few h =
    let g = read_want-Returns r 4 n q (read_head-head_bytes r 4 n q wide h) in
    let r' = (read_want r 4).0 in
    rw (r_array, g.0)
      (subst (λ (x : Read ℕ). Returns x n q)
        (sym (if_else (ltb (r'.len - r'.pos) n) _ _ (ground (arith, g.1.left)))) (refl, g.1))

abbrev pub bool_byte : Bool → ℕ
bool_byte v = 7 * 2 ^ 5 + (if v then 21 else 20)

pub bool-Returns :
    (r : Reader) (v : Bool) (q : List ℕ) → Reads r (bool_byte v ∷ q) → Returns (r_bool r) v q
unfolding r_bool
bool-Returns r true q h =
    let n = Reads-next r 245 q h in
    let enough : not (avail r 1) ≡ false = ground (arith, h.sound, h.left) in
    subst (λ (x : Read Bool). Returns x true q)
      (sym (
        if_else (not (avail r 1)) _ _ enough
        ∙ if_then (here r == 7 * 2 ^ 5 + 21) _ _ (ground (arith, n.0))))
      (refl, n.1)
bool-Returns r false q h =
    let n = Reads-next r 244 q h in
    let enough : not (avail r 1) ≡ false = ground (arith, h.sound, h.left) in
    subst (λ (x : Read Bool). Returns x false q)
      (sym (
        if_else (not (avail r 1)) _ _ enough
        ∙ if_else (here r == 7 * 2 ^ 5 + 21) _ _ (ground (arith, n.0))
        ∙ if_then (here r == 7 * 2 ^ 5 + 20) _ _ (ground (arith, n.0))))
      (refl, n.1)

pub f32-Returns :
    (r : Reader) (bits : ℕ) (q : List ℕ)
    → bits < 2 ^ 32
    → Reads r ((7 * 2 ^ 5 + 26) ∷ be_bytes 4 bits ++ q)
    → Returns (r_f32 r) bits q
unfolding r_f32
f32-Returns r bits q small h =
    let n = Reads-next r 250 (be_bytes 4 bits ++ q) h in
    let refused : (not (avail r 5) || not (here r == 7 * 2 ^ 5 + 26)) ≡ false =
      ground (arith, h.sound, h.left, n.0) in
    let none_above : bits / 2 ^ (4 * 8) ≡ 0 = div-eq_of_lt small in
    let b =
      subst (λ a. ((read_be (advance r 1) a 4).1 ≡ bits) × Reads (read_be (advance r 1) a 4).0 q)
        none_above (read_be-be_bytes (advance r 1) 4 bits q (omega arith) n.1) in
    subst (λ (x : Read ℕ). Returns x bits q)
      (sym (if_else (not (avail r 5) || not (here r == 7 * 2 ^ 5 + 26)) _ _ refused))
      (ap some b.0, b.1)
