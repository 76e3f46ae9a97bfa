-- ===== src/Bridge/Proto/Stream.antt =====
-- Frames in a stream of bytes that arrives piece by piece.
use nev_os.Base.{
  Bool, append_assoc, ℕ, zero, suc, ◌+◌, ◌-◌, ◌≤◌, ◌≡◌, refl, sym, ap, ◌∙◌, List, [], ◌∷◌, ◌++◌,
  ltb, if◌then◌else◌, if_then, if_else, length, take, arith, length-append, length-take,
}
use native.Mathlib.Decide.{dec_lt}
use nev_os.Base.{copy}
use nev_os.Base.{take-copy, length-copy}
use nev_os.Bridge.Proto.Frame.{
  frame, timeout, max_frame, frame_header, prefix, frame_wrap, declared, frame_split,
}

declared-prefix : (n : ℕ) (xs : List ℕ) → n ≤ max_frame → declared (prefix n ++ xs) ≡ n
declared-prefix n xs h = omega arith

frame_split-prefix :
    (n : ℕ) (xs : List ℕ)
    → n ≤ max_frame
    → frame_split (prefix n ++ xs)
      ≡ (if ltb (length xs) n then timeout else frame (take n xs, n + frame_header))
unfolding frame_split
frame_split-prefix n xs h =
    let d = declared-prefix n xs h in
    if_else (ltb (length (prefix n ++ xs)) frame_header) _ _ (ground arith)
    ∙ if_else (ltb max_frame (declared (prefix n ++ xs))) _ _ (ground (arith, d))
    ∙ ap
        (λ m.
          if ltb (length (prefix n ++ xs) - frame_header) m
          then timeout
          else frame (take m xs, m + frame_header))
        d
    ∙ ap (λ m. if ltb m n then timeout else frame (take n xs, n + frame_header)) (omega arith)

take-long : (xs ys : List ℕ) (k : ℕ) → length xs ≤ k → take (length xs) (take k (xs ++ ys)) ≡ xs
take-long [] ys k h = refl
take-long (x ∷ xs) ys zero h = absurd (omega arith)
take-long (x ∷ xs) ys (suc k) h = ap (◌∷◌ x) (take-long xs ys k (omega arith))

-- What a receiver answers after k bytes of the stream.
arrived :
    (payload rest : List ℕ) (k : ℕ)
    → length payload ≤ max_frame
    → k ≤ length payload + frame_header + length rest
    → frame_split (take k (prefix (length payload) ++ (payload ++ rest))) ≡ (
        if ltb k (length payload + frame_header)
        then timeout
        else frame (payload, length payload + frame_header))
unfolding frame_split
arrived payload rest zero h k =
    sym (if_then (ltb 0 (length payload + frame_header)) _ _ (ground arith))
arrived payload rest (suc zero) h k =
    sym (if_then (ltb 1 (length payload + frame_header)) _ _ (ground arith))
arrived payload rest (suc (suc zero)) h k =
    sym (if_then (ltb 2 (length payload + frame_header)) _ _ (ground arith))
arrived payload rest (suc (suc (suc zero))) h k =
    sym (if_then (ltb 3 (length payload + frame_header)) _ _ (ground arith))
arrived payload rest (suc (suc (suc (suc k)))) h room =
    let n = length payload in
    let got = take k (payload ++ rest) in
    let len : length got ≡ k =
      omega (arith, length-take k (payload ++ rest), length-append payload rest) in
    let late : Bool = ltb (suc (suc (suc (suc k)))) (n + frame_header) in
    frame_split-prefix n got h ∙ elim (dec_lt k n) [
      | yes short ↦
          if_then (ltb (length got) n) _ _ (ground (arith, len))
          ∙ sym (if_then late _ _ (ground arith))
      | no whole ↦
          if_else (ltb (length got) n) _ _ (ground (arith, len))
          ∙ ap (λ m. frame (m, n + frame_header)) (take-long payload rest k (omega arith))
          ∙ sym (if_else late _ _ (ground arith))
    ]

-- A payload that is wrapped into a buffer, and followed by any bytes of a stream that arrives piece
-- by piece, is answered with timeout until its last byte has arrived, and from there with exactly
-- the payload and the length of its frame. Condition: the payload is at most max_frame bytes long,
-- and the buffer has room for its frame.
pub frame_stream :
    (payload buf rest : List ℕ) (room k : ℕ)
    → length payload ≤ max_frame
    → length payload + frame_header ≤ room
    → room ≤ length buf
    → k ≤ length payload + frame_header + length rest
    → (buf' : List ℕ) × (frame_wrap payload buf room ≡ frame (buf', length payload + frame_header))
      × (length buf' ≡ length buf)
      × (frame_split (take k (take (length payload + frame_header) buf' ++ rest)) ≡ (
          if ltb k (length payload + frame_header)
          then timeout
          else frame (payload, length payload + frame_header)))
unfolding frame_wrap
frame_stream payload buf rest room k small fits within arrives =
    let n : ℕ = length payload in
    let head = copy buf 0 (prefix n) in
    let out = copy head frame_header payload in
    let head_length : length head ≡ length buf = length-copy buf 0 (prefix n) in
    let out_length : length out ≡ length head = length-copy head frame_header payload in
    let written : take (n + frame_header) out ≡ prefix n ++ payload =
      ap (λ m. take m out) (omega arith)
      ∙ take-copy head frame_header payload (omega (arith, head_length))
      ∙ ap (λ m. m ++ payload) (take-copy buf 0 (prefix n) (omega arith)) in
    (
      out,
      if_else (ltb max_frame n) _ _ (ground arith)
          ∙ if_else (ltb room (n + frame_header)) _ _ (ground arith),
      out_length ∙ head_length,
      ap (λ m. frame_split (take k (m ++ rest))) written
          ∙ ap (λ m. frame_split (take k m)) (append_assoc (prefix n) payload rest)
          ∙ arrived payload rest k small arrives,
    )
