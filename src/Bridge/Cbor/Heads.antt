-- ===== src/Bridge/Cbor/Heads.antt =====
-- Heads: what the writer puts for one, and that the reader gets it back.
use native.Mathlib.Nat.{div-eq_of_lt, div-div-eq-div-mul, div-le_self, pow-suc}
use nev_os.Base.{
  ℕ, zero, suc, ◌+◌, ◌-◌, ◌*◌, ◌/◌, ◌%◌, ◌^◌, ◌≤◌, ◌<◌, ◌≡◌, refl, sym, ap, ◌∙◌, true, false, List,
  [], ◌∷◌, ◌++◌, Option, some, ltb, leb, if◌then◌else◌, if_elim, if_then, if_else, not, length,
  get_or, drop, u8_mod, arith, length-append, subst,
}
use nev_os.Bridge.Cbor.Reader.{
  Reader, avail, here, advance, read_be, read_arg, head_arg, read_head, arg_size,
}

-- The n low bytes of v, the highest first.
abbrev pub be_bytes : ℕ → ℕ → List ℕ
be_bytes zero v = []
be_bytes (suc i) v = v / 2 ^ (i * 8) % u8_mod ∷ be_bytes i v

-- RFC 8949: a head in its shortest form.
abbrev pub head_bytes : ℕ → ℕ → List ℕ
head_bytes major v =
    if ltb v 24
    then (major * 2 ^ 5 + v) ∷ []
    else if leb v 0xFF
    then (major * 2 ^ 5 + 24) ∷ be_bytes 1 v
    else if leb v 0xFFFF
    then (major * 2 ^ 5 + 25) ∷ be_bytes 2 v
    else if leb v 0xFFFFFFFF
    then (major * 2 ^ 5 + 26) ∷ be_bytes 4 v
    else (major * 2 ^ 5 + 27) ∷ be_bytes 8 v

pow_two : (m : ℕ) → 2 ^ suc (suc m) ≡ 2 ^ m * 4
pow_two m = omega (arith, pow-suc 2 m, pow-suc 2 (suc m))

pow_four : (m : ℕ) → 2 ^ suc (suc (suc (suc m))) ≡ 2 ^ m * 16
pow_four m = omega (arith, pow_two m, pow_two (suc (suc m)))

pow_eight : (m : ℕ) → 2 ^ suc (suc (suc (suc (suc (suc (suc (suc m))))))) ≡ 2 ^ m * 2 ^ 8
pow_eight m = omega (arith, pow_four m, pow_four (suc (suc (suc (suc m)))))

shift_more : (v i : ℕ) → v / 2 ^ (suc i * 8) ≡ v / 2 ^ (i * 8) / 2 ^ 8
shift_more v i =
    let e : suc i * 8 ≡ suc (suc (suc (suc (suc (suc (suc (suc (i * 8)))))))) = omega arith in
    ap (λ k. v / 2 ^ k) e
    ∙ ap (λ k. v / k) (pow_eight (i * 8))
    ∙ sym (div-div-eq-div-mul v (2 ^ (i * 8)) (2 ^ 8))

-- The bytes that the reader has in front of it.
pub record Reads (r : Reader) (q : List ℕ) : Type 0 where
  pub sound : r.error ≡ false
  pub within : r.pos ≤ r.len
  pub unread : drop r.pos r.buf ≡ q
  pub left : length q ≡ r.len - r.pos

drop-suc :
    (n : ℕ) (xs : List ℕ) (b : ℕ) (q : List ℕ)
    → drop n xs ≡ b ∷ q
    → (get_or xs n 0 ≡ b) × (drop (suc n) xs ≡ q)
drop-suc zero [] b q e = absurd (ground (arith, e))
drop-suc zero (x ∷ xs) b q e = ground (arith, e)
drop-suc (suc n) [] b q e = absurd (ground (arith, e))
drop-suc (suc n) (x ∷ xs) b q e = drop-suc n xs b q e

pub Reads-next :
    (r : Reader) (b : ℕ) (q : List ℕ) → Reads r (b ∷ q) → (here r ≡ b) × Reads (advance r 1) q
Reads-next r b q h =
    let d = drop-suc r.pos r.buf b q h.unread in
    let next : suc r.pos ≡ r.pos + 1 = omega arith in
    (
      d.0,
      record {
        sound = h.sound;
        within = omega (arith, h.left, h.within);
        unread = subst (λ n. drop n r.buf ≡ q) next d.1;
        left = omega (arith, h.left);
      },
    )

-- The bytes of v on top of the part of v above them are v.
pub read_be-be_bytes :
    (r : Reader) (i v : ℕ) (q : List ℕ)
    → v < 2 ^ 64
    → Reads r (be_bytes i v ++ q)
    → ((read_be r (v / 2 ^ (i * 8)) i).1 ≡ v) × Reads (read_be r (v / 2 ^ (i * 8)) i).0 q
unfolding read_be
read_be-be_bytes r zero v q lt h = (omega arith, h)
read_be-be_bytes r (suc i) v q lt h =
    let n = Reads-next r (v / 2 ^ (i * 8) % u8_mod) (be_bytes i v ++ q) h in
    let top : v / 2 ^ (suc i * 8) ≡ v / 2 ^ (i * 8) / 2 ^ 8 = shift_more v i in
    let acc : v / 2 ^ (suc i * 8) * 2 ^ 8 % 2 ^ 64 + here r ≡ v / 2 ^ (i * 8) =
      omega (arith, n.0, top, div-le_self v (2 ^ (i * 8))) in
    subst (λ a. ((read_be (advance r 1) a i).1 ≡ v) × Reads (read_be (advance r 1) a i).0 q)
      (sym acc) (read_be-be_bytes (advance r 1) i v q lt n.1)

pub length-be_bytes : (n v : ℕ) → length (be_bytes n v) ≡ n
length-be_bytes zero v = refl
length-be_bytes (suc n) v = ap suc (length-be_bytes n v)

abbrev pub Gives : Reader × Option (ℕ × ℕ) → ℕ → ℕ → List ℕ → Type 0
Gives (r', got) major v q = (got ≡ some (major, v)) × Reads r' q

read_arg-Gives :
    (r : Reader) (major n v : ℕ) (q : List ℕ)
    → v < 2 ^ (n * 8)
    → v < 2 ^ 64
    → Reads r (be_bytes n v ++ q)
    → Gives (read_arg r major n) major v q
unfolding read_arg
read_arg-Gives r major n v q small lt h =
    let enough : avail r n ≡ true =
      ground (arith, h.sound, h.left, length-append (be_bytes n v) q, length-be_bytes n v) in
    let none_above : v / 2 ^ (n * 8) ≡ 0 = div-eq_of_lt small in
    let b =
      subst (λ a. ((read_be r a n).1 ≡ v) × Reads (read_be r a n).0 q) none_above
        (read_be-be_bytes r n v q lt h) in
    subst (λ (x : Reader × Option (ℕ × ℕ)). Gives x major v q)
      (sym (if_then (avail r n) _ _ enough)) (ap (λ w. some (major, w)) b.0, b.1)

-- A head byte is taken apart as it was put together.
read_head-byte :
    (r : Reader) (major ai : ℕ) (q : List ℕ)
    → ai < 32
    → Reads r ((major * 2 ^ 5 + ai) ∷ q)
    → read_head r ≡ head_arg (advance r 1) major ai
unfolding read_head
read_head-byte r major ai q lt h =
    let b = (Reads-next r (major * 2 ^ 5 + ai) q h).0 in
    let m : here r / 2 ^ 5 ≡ major = omega (arith, b) in
    let a : here r % 2 ^ 5 ≡ ai = omega (arith, b) in
    let some_left : not (avail r 1) ≡ false = ground (arith, h.sound, h.left) in
    if_else (not (avail r 1)) _ _ some_left
    ∙ ap (λ k. head_arg (advance r 1) k (here r % 2 ^ 5)) m
    ∙ ap (head_arg (advance r 1) major) a

head_arg-long :
    (r : Reader) (major ai n : ℕ)
    → 24 ≤ ai
    → arg_size ai ≡ some n
    → head_arg r major ai ≡ read_arg r major n
unfolding head_arg
head_arg-long r major ai n ge size = if_else (ltb ai 24) _ _ (ground arith) ∙ rw size refl

-- A number that follows its head byte in n bytes.
pub long_head :
    (r : Reader) (major ai n v : ℕ) (q : List ℕ)
    → 24 ≤ ai
    → ai < 32
    → arg_size ai ≡ some n
    → v < 2 ^ (n * 8)
    → v < 2 ^ 64
    → Reads r ((major * 2 ^ 5 + ai) ∷ be_bytes n v ++ q)
    → Gives (read_head r) major v q
long_head r major ai n v q ge lt size small wide h =
    let next = (Reads-next r (major * 2 ^ 5 + ai) (be_bytes n v ++ q) h).1 in
    subst (λ (x : Reader × Option (ℕ × ℕ)). Gives x major v q)
      (sym (
        read_head-byte r major ai (be_bytes n v ++ q) lt h
        ∙ head_arg-long (advance r 1) major ai n ge size))
      (read_arg-Gives (advance r 1) major n v q small wide next)

pub short_head :
    (r : Reader) (major v : ℕ) (q : List ℕ)
    → v < 24
    → Reads r ((major * 2 ^ 5 + v) ∷ q)
    → Gives (read_head r) major v q
unfolding head_arg
short_head r major v q lt h =
    subst (λ (x : Reader × Option (ℕ × ℕ)). Gives x major v q)
      (sym (read_head-byte r major v q (omega arith) h ∙ if_then (ltb v 24) _ _ (ground arith)))
      (refl, (Reads-next r (major * 2 ^ 5 + v) q h).1)

-- A reader in front of a head in its shortest form reads its major type and its argument, and then
-- has what follows in front of it. Condition: the argument fits 64 bits.
pub read_head-head_bytes :
    (r : Reader) (major v : ℕ) (q : List ℕ)
    → v < 2 ^ 64
    → Reads r (head_bytes major v ++ q)
    → Gives (read_head r) major v q
unfolding arg_size
read_head-head_bytes r major v q wide =
    if_elim Law (ltb v 24) _ _ (λ e h. short_head r major v q (ground (arith, e)) h)
      λ e1.
        if_elim Law (leb v 0xFF) _ _
          (λ e h.
            long_head r major 24 1 v q (omega arith) (omega arith) refl (ground (arith, e)) wide h)
          λ e2.
            if_elim Law (leb v 0xFFFF) _ _
              (λ e h.
                long_head r major 25 2 v q (omega arith) (omega arith) refl (ground (arith, e)) wide
                  h)
              λ e3.
                if_elim Law (leb v 0xFFFFFFFF) _ _
                  (λ e h.
                    long_head r major 26 4 v q (omega arith) (omega arith) refl (ground (arith, e))
                      wide h)
                  λ e4 h. long_head r major 27 8 v q (omega arith) (omega arith) refl wide wide h
  where
    Law : List ℕ → Type 0
    Law bytes = Reads r (bytes ++ q) → Gives (read_head r) major v q
