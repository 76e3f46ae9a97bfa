-- ===== src/Kernel/Sha256/Absorb.antt =====
-- The state after a message, however it was cut into updates.
use nev_os.Base.{
  if_elim, length-drop, ℕ, zero, suc, ◌+◌, ◌-◌, ◌*◌, ◌%◌, ◌^◌, ◌≤◌, ◌<◌, ◌≡◌, refl, sym, ap, ◌∙◌,
  subst, List, [], ◌∷◌, ◌++◌, length, take, drop, arith, append-nil, append_assoc, length-take,
  length-append, length-copy, take-copy, copy, min, ◌==◌,
}
use nev_os.Kernel.Sha256.Rounds.{compress}
use nev_os.Kernel.Sha256.{Sha, first_words, fill, update_loop, update}
use nev_os.Kernel.Sha256.Reference.{take-all, hash_blocks, hash_blocks-append}

-- Whole blocks are hashed, and the rest of the message stands in the block.
pub record Hashed (s : Sha) (message : List ℕ) : Type 0 where
  pub blocks : ℕ
  pub whole : List ℕ
  pub rest : List ℕ
  pub split : message ≡ whole ++ rest
  pub whole_length : length whole ≡ blocks * 64
  pub words : s.h ≡ hash_blocks blocks first_words whole
  pub kept : take s.block_len s.block ≡ rest
  pub rest_length : length rest ≡ s.block_len
  pub short : s.block_len < 64
  pub storage : length s.block ≡ 64

take-drop : (n : ℕ) (xs : List ℕ) → take n xs ++ drop n xs ≡ xs
take-drop zero xs = refl
take-drop (suc n) [] = refl
take-drop (suc n) (x ∷ xs) = ap (◌∷◌ x) (take-drop n xs)

fill-Hashed :
    (s : Sha) (message bytes : List ℕ) (n : ℕ)
    → Hashed s message
    → n ≤ length bytes
    → n ≤ 64 - s.block_len
    → Hashed (fill s n bytes) (message ++ take n bytes)
fill-Hashed s message bytes n v h k =
    let got = take n bytes in
    let got_length : length got ≡ n = omega (arith, length-take n bytes) in
    let block = copy s.block s.block_len got in
    let block_length : length block ≡ 64 = length-copy s.block s.block_len got ∙ v.storage in
    let gathered : take (s.block_len + n) block ≡ v.rest ++ got =
      ap (λ m. take (s.block_len + m) block) (sym got_length)
      ∙ take-copy s.block s.block_len got (omega (arith, got_length, v.storage, v.short))
      ∙ ap (λ m. m ++ got) v.kept in
    let joined : message ++ got ≡ v.whole ++ (v.rest ++ got) =
      ap (λ m. m ++ got) v.split ∙ append_assoc v.whole v.rest got in
    let joined_length : length (v.rest ++ got) ≡ s.block_len + n =
      omega (arith, length-append v.rest got, got_length, v.rest_length) in
    let filled : Sha = record s { block = block; block_len = s.block_len + n } in
    if_elim (λ x. Hashed x (message ++ got)) (s.block_len + n == 64)
      (record filled { h = compress s.h block; block_len = 0 }) filled
      (λ full.
        let whole_block : 64 ≡ s.block_len + n = ground (arith, full) in
        let all : block ≡ v.rest ++ got =
          sym (take-all 64 block (omega (arith, block_length)))
          ∙ ap (λ m. take m block) whole_block
          ∙ gathered in
        record {
          blocks = suc v.blocks;
          whole = v.whole ++ (v.rest ++ got);
          rest = [];
          split = joined ∙ sym (append-nil (v.whole ++ (v.rest ++ got)));
          whole_length =
              ground
                (arith, full, length-append v.whole (v.rest ++ got), joined_length, v.whole_length);
          words =
              ap (compress s.h) all
              ∙ ap (λ m. compress m (v.rest ++ got)) v.words
              ∙ sym (
                  hash_blocks-append v.blocks first_words v.whole (v.rest ++ got) v.whole_length
                    (ground (arith, full, joined_length)));
          kept = refl;
          rest_length = refl;
          short = omega arith;
          storage = block_length;
        })
      (λ partial. record {
        blocks = v.blocks;
        whole = v.whole;
        rest = v.rest ++ got;
        split = joined;
        whole_length = v.whole_length;
        words = v.words;
        kept = gathered;
        rest_length = joined_length;
        short = ground (arith, partial, v.short);
        storage = block_length;
      })

update_loop-Hashed :
    (fuel : ℕ) (s : Sha) (message bytes : List ℕ)
    → Hashed s message
    → length bytes ≤ fuel
    → Hashed (update_loop fuel s bytes) (message ++ bytes)
unfolding update_loop
update_loop-Hashed zero s message [] v h = subst (Hashed s) (sym (append-nil message)) v
update_loop-Hashed zero s message (b ∷ bytes) v h = absurd (omega arith)
update_loop-Hashed (suc fuel) s message [] v h = subst (Hashed s) (sym (append-nil message)) v
update_loop-Hashed (suc fuel) s message (b ∷ bs) v h =
    let bytes = b ∷ bs in
    let n = min (length bytes) (64 - s.block_len) in
    let next = fill-Hashed s message bytes n v (omega arith) (omega arith) in
    subst (Hashed (update_loop fuel (fill s n bytes) (drop n bytes)))
      (append_assoc message (take n bytes) (drop n bytes) ∙ ap (◌++◌ message) (take-drop n bytes))
      (update_loop-Hashed fuel (fill s n bytes) (message ++ take n bytes) (drop n bytes) next
        (omega (arith, v.short, length-drop n bytes)))

-- The count of bytes is no part of it.
pub update-Hashed :
    (s : Sha) (message bytes : List ℕ)
    → Hashed s message
    → Hashed (update s bytes) (message ++ bytes)
unfolding update
update-Hashed s message bytes v =
    let counted : Sha = record s { total_bytes = (s.total_bytes + length bytes) % 2 ^ 64 } in
    update_loop-Hashed (length bytes) counted message bytes
      (record {
        blocks = v.blocks;
        whole = v.whole;
        rest = v.rest;
        split = v.split;
        whole_length = v.whole_length;
        words = v.words;
        kept = v.kept;
        rest_length = v.rest_length;
        short = v.short;
        storage = v.storage;
      })
      (omega arith)

update_loop-total :
    (fuel : ℕ) (s : Sha) (bytes : List ℕ) → (update_loop fuel s bytes).total_bytes ≡ s.total_bytes
unfolding update_loop
update_loop-total zero s bytes = refl
update_loop-total (suc fuel) s [] = refl
update_loop-total (suc fuel) s (b ∷ bs) =
    let bytes = b ∷ bs in
    let n = min (length bytes) (64 - s.block_len) in
    let block = copy s.block s.block_len (take n bytes) in
    update_loop-total fuel (fill s n bytes) (drop n bytes)
    ∙ if_elim (λ (x : Sha). x.total_bytes ≡ s.total_bytes) (s.block_len + n == 64) _ _ (λ e. refl)
        (λ e. refl)

pub update-total :
    (s : Sha) (bytes : List ℕ)
    → (update s bytes).total_bytes ≡ (s.total_bytes + length bytes) % 2 ^ 64
unfolding update
update-total s bytes =
    update_loop-total (length bytes)
      (record s { total_bytes = (s.total_bytes + length bytes) % 2 ^ 64 }) bytes
