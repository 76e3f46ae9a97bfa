-- ===== src/Kernel/Sha256/Rounds.antt =====
-- The compression function of components/nev_kernel/src/nev_sha256.c. A word is a number below 2 ^
-- 32; the function reads the words of a block, extends them to sixty-four, and mixes them in.
use Prim.Native.Nat.{bit_and, bit_or, bit_xor}
use nev_os.Base.{ℕ, zero, suc, ◌+◌, ◌-◌, ◌*◌, ◌/◌, ◌%◌, ◌^◌, List, [], ◌∷◌, ◌++◌, get_or, u32_mod}

abbrev pub round_constants : List ℕ
round_constants =
    0x428a2f98 ∷ 0x71374491 ∷ 0xb5c0fbcf ∷ 0xe9b5dba5 ∷ 0x3956c25b ∷ 0x59f111f1 ∷ 0x923f82a4
    ∷ 0xab1c5ed5 ∷ 0xd807aa98 ∷ 0x12835b01 ∷ 0x243185be ∷ 0x550c7dc3 ∷ 0x72be5d74 ∷ 0x80deb1fe
    ∷ 0x9bdc06a7 ∷ 0xc19bf174 ∷ 0xe49b69c1 ∷ 0xefbe4786 ∷ 0x0fc19dc6 ∷ 0x240ca1cc ∷ 0x2de92c6f
    ∷ 0x4a7484aa ∷ 0x5cb0a9dc ∷ 0x76f988da ∷ 0x983e5152 ∷ 0xa831c66d ∷ 0xb00327c8 ∷ 0xbf597fc7
    ∷ 0xc6e00bf3 ∷ 0xd5a79147 ∷ 0x06ca6351 ∷ 0x14292967 ∷ 0x27b70a85 ∷ 0x2e1b2138 ∷ 0x4d2c6dfc
    ∷ 0x53380d13 ∷ 0x650a7354 ∷ 0x766a0abb ∷ 0x81c2c92e ∷ 0x92722c85 ∷ 0xa2bfe8a1 ∷ 0xa81a664b
    ∷ 0xc24b8b70 ∷ 0xc76c51a3 ∷ 0xd192e819 ∷ 0xd6990624 ∷ 0xf40e3585 ∷ 0x106aa070 ∷ 0x19a4c116
    ∷ 0x1e376c08 ∷ 0x2748774c ∷ 0x34b0bcb5 ∷ 0x391c0cb3 ∷ 0x4ed8aa4a ∷ 0x5b9cca4f ∷ 0x682e6ff3
    ∷ 0x748f82ee ∷ 0x78a5636f ∷ 0x84c87814 ∷ 0x8cc70208 ∷ 0x90befffa ∷ 0xa4506ceb ∷ 0xbef9a3f7
    ∷ 0xc67178f2 ∷ []

-- `|` of the two parts, and the bits that leave the word are dropped.
abbrev pub rotr : ℕ → ℕ → ℕ
rotr v n = bit_or (v / 2 ^ n) (v * 2 ^ (32 - n) % u32_mod)

abbrev pub complement : ℕ → ℕ
complement v = u32_mod - 1 - v

pub record Words : Type 0 where
  pub a : ℕ
  pub b : ℕ
  pub c : ℕ
  pub d : ℕ
  pub e : ℕ
  pub f : ℕ
  pub g : ℕ
  pub h : ℕ

abbrev pub word_at : List ℕ → ℕ → ℕ
word_at block i =
    bit_or
      (bit_or (bit_or (get_or block (i * 4) 0 * 2 ^ 24) (get_or block (i * 4 + 1) 0 * 2 ^ 16))
        (get_or block (i * 4 + 2) 0 * 2 ^ 8))
      (get_or block (i * 4 + 3) 0)

-- The first `n` words from word `i`.
abbrev pub words_from : ℕ → ℕ → List ℕ → List ℕ
words_from zero i block = []
words_from (suc n) i block = word_at block i ∷ words_from n (i + 1) block

abbrev pub next_word : List ℕ → ℕ → ℕ
next_word w i =
    let w15 = get_or w (i - 15) 0 in
    let w2 = get_or w (i - 2) 0 in
    let s0 = bit_xor (bit_xor (rotr w15 7) (rotr w15 18)) (w15 / 2 ^ 3) in
    let s1 = bit_xor (bit_xor (rotr w2 17) (rotr w2 19)) (w2 / 2 ^ 10) in
    (get_or w (i - 16) 0 + s0 + get_or w (i - 7) 0 + s1) % u32_mod

-- `n` more words from word `i`.
unfoldable pub extend : ℕ → ℕ → List ℕ → List ℕ
extend zero i w = w
extend (suc n) i w = extend n (i + 1) (w ++ next_word w i ∷ [])

-- One round, with its constant and its word.
abbrev pub mix : Words → ℕ → ℕ → Words
mix s k w =
    let S1 = bit_xor (bit_xor (rotr s.e 6) (rotr s.e 11)) (rotr s.e 25) in
    let ch = bit_xor (bit_and s.e s.f) (bit_and (complement s.e) s.g) in
    let t1 = (s.h + S1 + ch + k + w) % u32_mod in
    let S0 = bit_xor (bit_xor (rotr s.a 2) (rotr s.a 13)) (rotr s.a 22) in
    let maj = bit_xor (bit_xor (bit_and s.a s.b) (bit_and s.a s.c)) (bit_and s.b s.c) in
    let t2 = (S0 + maj) % u32_mod in
    record {
      a = (t1 + t2) % u32_mod;
      b = s.a;
      c = s.b;
      d = s.c;
      e = (s.d + t1) % u32_mod;
      f = s.e;
      g = s.f;
      h = s.g;
    }

unfoldable pub mix_all : List ℕ → List ℕ → Words → Words
mix_all [] ws s = s
mix_all (k ∷ ks) [] s = s
mix_all (k ∷ ks) (w ∷ ws) s = mix_all ks ws (mix s k w)

abbrev add_words : Words → Words → Words
add_words s t = record {
  a = (s.a + t.a) % u32_mod;
  b = (s.b + t.b) % u32_mod;
  c = (s.c + t.c) % u32_mod;
  d = (s.d + t.d) % u32_mod;
  e = (s.e + t.e) % u32_mod;
  f = (s.f + t.f) % u32_mod;
  g = (s.g + t.g) % u32_mod;
  h = (s.h + t.h) % u32_mod;
}

unfoldable pub compress : Words → List ℕ → Words
compress s block = add_words s (mix_all round_constants (extend 48 16 (words_from 16 0 block)) s)
