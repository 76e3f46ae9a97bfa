-- ===== src/Kernel/Sha256/Digest.antt =====
-- nev_sha256_final on a state that was fed in pieces.
use nev_os.Base.{
  ℕ, zero, suc, ◌+◌, ◌-◌, ◌*◌, ◌/◌, ◌%◌, ◌^◌, ◌≤◌, ◌<◌, ◌≡◌, refl, sym, ap, ◌∙◌, subst, Option,
  some, List, [], ◌∷◌, ◌++◌, length, replicate, arith, append-nil, append_assoc, length-append,
  ◌==◌, if_then, if_else,
}
use nev_os.Kernel.Sha256.{
  Sha, first_words, init, update, pad_loop, bytes_of, digest_bytes, output, close, final, written,
}
use nev_os.Kernel.Sha256.Reference.{hash_blocks, zeros, padded, digest}
use nev_os.Kernel.Sha256.Absorb.{Hashed, update-Hashed, update-total}

block_len-mod : (s : Sha) (message : List ℕ) → Hashed s message → s.block_len ≡ length message % 64
block_len-mod s message v =
    let e : length message ≡ v.blocks * 64 + s.block_len =
      omega
        (arith, ap length v.split, length-append v.whole v.rest, v.whole_length, v.rest_length) in
    omega (arith, e, v.short)

-- The state with `n` zeros behind the message, and 56 bytes in its block.
abbrev Padding : Option Sha → List ℕ → ℕ → Type 0
Padding o message n =
    (s : Sha) × (o ≡ some s) × Hashed s (message ++ replicate n 0) × (s.block_len ≡ 56)

pad_loop-ready :
    (fuel : ℕ) (s : Sha) (message : List ℕ)
    → Hashed s message
    → s.block_len ≡ 56
    → Padding (pad_loop fuel s) message 0
unfolding pad_loop
pad_loop-ready zero s message v e = (
  s,
  if_then (s.block_len == 56) _ _ (ground (arith, e)),
  subst (Hashed s) (sym (append-nil message)) v,
  e,
)
pad_loop-ready (suc fuel) s message v e = (
  s,
  if_then (s.block_len == 56) _ _ (ground (arith, e)),
  subst (Hashed s) (sym (append-nil message)) v,
  e,
)

pad_loop-Padding :
    (n fuel : ℕ) (s : Sha) (message : List ℕ)
    → Hashed s message
    → (s.block_len + n) % 64 ≡ 56
    → n < 64
    → n ≤ fuel
    → Padding (pad_loop fuel s) message n
unfolding pad_loop
pad_loop-Padding zero fuel s message v e small enough =
    pad_loop-ready fuel s message v (omega (arith, v.short))
pad_loop-Padding (suc n) zero s message v e small enough = absurd (omega arith)
pad_loop-Padding (suc n) (suc fuel) s message v e small enough =
    let s' = update s (0 ∷ []) in
    let v' = update-Hashed s message (0 ∷ []) v in
    let now = block_len-mod s message v in
    let then_ = block_len-mod s' (message ++ 0 ∷ []) v' in
    let p =
      pad_loop-Padding n fuel s' (message ++ 0 ∷ []) v'
        (omega (arith, now, then_, length-append message (0 ∷ []))) (omega arith) (omega arith) in
    (
      p.0,
      if_else (s.block_len == 56) _ _ (ground (arith, v.short)) ∙ p.1,
      subst (Hashed p.0) (append_assoc message (0 ∷ []) (replicate n 0)) p.2,
      p.3,
    )

-- Nothing is left of a message of whole blocks.
Hashed-words :
    (s : Sha) (message : List ℕ)
    → Hashed s message
    → s.block_len ≡ 0
    → s.h ≡ hash_blocks (length message / 64) first_words message
Hashed-words s message v e =
    let none_left : message ≡ v.whole ++ [] =
      v.split ∙ ap (◌++◌ v.whole) (empty v.rest (v.rest_length ∙ e)) in
    let all : v.whole ≡ message = sym (none_left ∙ append-nil v.whole) in
    let count : v.blocks ≡ length message / 64 = omega (arith, v.whole_length, ap length all) in
    v.words
    ∙ ap (λ n. hash_blocks n first_words v.whole) count
    ∙ ap (hash_blocks (length message / 64) first_words) all
  where
    empty : (xs : List ℕ) → length xs ≡ 0 → xs ≡ []
    empty [] h = refl
    empty (x ∷ xs) h = absurd (omega arith)

pub final-digest :
    (s : Sha) (message : List ℕ)
    → Hashed s message
    → s.total_bytes ≡ length message % 2 ^ 64
    → (left : Sha) × (final s ≡ some (digest message, left))
unfolding final
final-digest s message v e =
    let n = zeros (length message) in
    let marked = message ++ 0x80 ∷ [] in
    let count = bytes_of 8 (length message * 8 % 2 ^ 64) in
    let bits : s.total_bytes * 8 % 2 ^ 64 ≡ length message * 8 % 2 ^ 64 = omega (arith, e) in
    let v1 = update-Hashed s message (0x80 ∷ []) v in
    let s1 = update s (0x80 ∷ []) in
    let len1 = block_len-mod s1 marked v1 in
    let p =
      pad_loop-Padding n 64 s1 marked v1 (omega (arith, len1, length-append message (0x80 ∷ [])))
        (omega arith) (omega arith) in
    let shape : (marked ++ replicate n 0) ++ count ≡ padded message =
      append_assoc marked (replicate n 0) count
      ∙ append_assoc message (0x80 ∷ []) (replicate n 0 ++ count) in
    let v2 = update-Hashed p.0 (marked ++ replicate n 0) count p.2 in
    let len2 = block_len-mod (update p.0 count) ((marked ++ replicate n 0) ++ count) v2 in
    let zero_left : (update p.0 count).block_len ≡ 0 = omega (
      arith,
      len2,
      block_len-mod p.0 (marked ++ replicate n 0) p.2,
      p.3,
      length-append (marked ++ replicate n 0) count,
    ) in
    (
      update p.0 count,
      ap (close (s.total_bytes * 8 % 2 ^ 64)) p.1
          ∙ ap (λ b. some (output (update p.0 (bytes_of 8 b)))) bits
          ∙ ap (λ w. some (digest_bytes w, update p.0 count))
              (Hashed-words (update p.0 count) (padded message)
                (subst (Hashed (update p.0 count)) shape v2) zero_left),
    )

abbrev pub updates : Sha → List (List ℕ) → Sha
updates s [] = s
updates s (piece ∷ pieces) = updates (update s piece) pieces

abbrev pub joined : List (List ℕ) → List ℕ
joined [] = []
joined (piece ∷ pieces) = piece ++ joined pieces

pub init-Hashed : (block : List ℕ) → length block ≡ 64 → Hashed (init block) []
init-Hashed block h = record {
  blocks = 0;
  whole = [];
  rest = [];
  split = refl;
  whole_length = refl;
  words = refl;
  kept = refl;
  rest_length = refl;
  short = omega arith;
  storage = h;
}

updates-Hashed :
    (s : Sha) (message : List ℕ) (pieces : List (List ℕ))
    → Hashed s message
    → Hashed (updates s pieces) (message ++ joined pieces)
updates-Hashed s message [] v = subst (Hashed s) (sym (append-nil message)) v
updates-Hashed s message (piece ∷ pieces) v =
    subst (Hashed (updates (update s piece) pieces)) (append_assoc message piece (joined pieces))
      (updates-Hashed (update s piece) (message ++ piece) pieces (update-Hashed s message piece v))

updates-total :
    (s : Sha) (n : ℕ) (pieces : List (List ℕ))
    → s.total_bytes ≡ n % 2 ^ 64
    → (updates s pieces).total_bytes ≡ (n + length (joined pieces)) % 2 ^ 64
updates-total s n [] e = omega (arith, e)
updates-total s n (piece ∷ pieces) e =
    updates-total (update s piece) (n + length piece) pieces
      (omega (arith, e, update-total s piece))
    ∙ ap (λ m. m % 2 ^ 64) (omega (arith, length-append piece (joined pieces)))

-- The digest of a message that was fed in pieces of any lengths is the one that FIPS 180-4 defines
-- for the whole message. Condition: the context's block has 64 bytes.
pub digest_of_pieces :
    (block : List ℕ) (pieces : List (List ℕ))
    → length block ≡ 64
    → written (final (updates (init block) pieces)) ≡ some (digest (joined pieces))
digest_of_pieces block pieces h =
    ap written
      (final-digest (updates (init block) pieces) (joined pieces)
        (updates-Hashed (init block) [] pieces (init-Hashed block h))
        (updates-total (init block) 0 pieces refl ∙ ap (λ m. m % 2 ^ 64) (omega arith))).1

-- Whatever was fed, the padding loop of the end stops with 56 bytes in the block after fewer than
-- 64 rounds: any fuel from 63 on gives its result. Condition: the context's block has 64 bytes.
pub padding_ends :
    (block : List ℕ) (pieces : List (List ℕ)) (fuel : ℕ)
    → length block ≡ 64
    → 63 ≤ fuel
    → (s : Sha) × (pad_loop fuel (update (updates (init block) pieces) (0x80 ∷ [])) ≡ some s)
      × (s.block_len ≡ 56)
padding_ends block pieces fuel h enough =
    let fed = updates-Hashed (init block) [] pieces (init-Hashed block h) in
    let marked = update-Hashed (updates (init block) pieces) (joined pieces) (0x80 ∷ []) fed in
    let s = update (updates (init block) pieces) (0x80 ∷ []) in
    let p =
      pad_loop-Padding ((120 - s.block_len) % 64) fuel s (joined pieces ++ 0x80 ∷ []) marked
        (omega (arith, marked.short)) (omega arith) (omega arith) in
    (p.0, p.1, p.3)
