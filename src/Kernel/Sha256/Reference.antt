-- ===== src/Kernel/Sha256/Reference.antt =====
-- The digest as FIPS 180-4 defines it: the message is padded to whole blocks, which are compressed
-- in order.
use nev_os.Base.{
  length-drop, ℕ, zero, suc, ◌-◌, ◌*◌, ◌/◌, ◌%◌, ◌^◌, ◌≤◌, ◌≡◌, refl, ap, ◌∙◌, List, [], ◌∷◌, ◌++◌,
  length, take, drop, replicate, arith,
}
use nev_os.Kernel.Sha256.Rounds.{Words, compress}
use nev_os.Kernel.Sha256.{bytes_of, digest_bytes, first_words}

-- The first `n` blocks.
abbrev pub hash_blocks : ℕ → Words → List ℕ → Words
hash_blocks zero w bytes = w
hash_blocks (suc n) w bytes = hash_blocks n (compress w (take 64 bytes)) (drop 64 bytes)

-- The zeros between the bit behind the message and its length.
abbrev pub zeros : ℕ → ℕ
zeros n = (119 - n % 64) % 64

abbrev pub padded : List ℕ → List ℕ
padded message =
    message
    ++ (0x80 ∷ (replicate (zeros (length message)) 0 ++ bytes_of 8 (length message * 8 % 2 ^ 64)))

abbrev pub digest : List ℕ → List ℕ
digest message =
    digest_bytes (hash_blocks (length (padded message) / 64) first_words (padded message))

pub take-all : (n : ℕ) (xs : List ℕ) → length xs ≤ n → take n xs ≡ xs
take-all zero [] h = refl
take-all zero (x ∷ xs) h = absurd (omega arith)
take-all (suc n) [] h = refl
take-all (suc n) (x ∷ xs) h = ap (◌∷◌ x) (take-all n xs (omega arith))

take-left : (n : ℕ) (xs ys : List ℕ) → n ≤ length xs → take n (xs ++ ys) ≡ take n xs
take-left zero xs ys h = refl
take-left (suc n) [] ys h = absurd (omega arith)
take-left (suc n) (x ∷ xs) ys h = ap (◌∷◌ x) (take-left n xs ys (omega arith))

drop-left : (n : ℕ) (xs ys : List ℕ) → n ≤ length xs → drop n (xs ++ ys) ≡ drop n xs ++ ys
drop-left zero xs ys h = refl
drop-left (suc n) [] ys h = absurd (omega arith)
drop-left (suc n) (x ∷ xs) ys h = drop-left n xs ys (omega arith)

-- One more block behind whole ones.
pub hash_blocks-append :
    (n : ℕ) (w : Words) (whole block : List ℕ)
    → length whole ≡ n * 64
    → length block ≡ 64
    → hash_blocks (suc n) w (whole ++ block) ≡ compress (hash_blocks n w whole) block
hash_blocks-append zero w [] block h k = ap (compress w) (take-all 64 block (omega arith))
hash_blocks-append zero w (x ∷ whole) block h k = absurd (omega arith)
hash_blocks-append (suc n) w whole block h k =
    ap (λ b. hash_blocks (suc n) (compress w b) (drop 64 (whole ++ block)))
      (take-left 64 whole block (omega arith))
    ∙ ap (hash_blocks (suc n) (compress w (take 64 whole))) (drop-left 64 whole block (omega arith))
    ∙ hash_blocks-append n (compress w (take 64 whole)) (drop 64 whole) block
        (omega (arith, length-drop 64 whole)) k
