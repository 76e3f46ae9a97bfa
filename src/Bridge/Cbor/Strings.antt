-- ===== src/Bridge/Cbor/Strings.antt =====
-- Round trips of byte and text strings through nev_cbor.c.
use nev_os.Base.{
  ℕ, zero, suc, ◌+◌, ◌-◌, ◌^◌, ◌≤◌, ◌<◌, ◌≡◌, refl, sym, ap, ◌∙◌, false, List, [], ◌∷◌, ◌++◌,
  append_assoc, some, ltb, leb, ◌==◌, if_else, length, drop, take, arith, length-append,
  take-append, drop-append, subst,
}
use nev_os.Bridge.Cbor.Writer.{Writer, written, put_n, put_head, w_bytes, w_text, mt_bytes, mt_text}
use nev_os.Bridge.Cbor.Reader.{Reader, Read, read_want, read_string, r_bytes, r_text}
use nev_os.Bridge.Cbor.Heads.{head_bytes, Reads, read_head-head_bytes}
use nev_os.Bridge.Cbor.Written.{IsWriter, string-Emits}
use nev_os.Bridge.Cbor.Numbers.{
  reader_at, Returns, length-head_bytes, Wrote-Reads, read_want-Returns,
}

drop-nil : (n : ℕ) → drop {A = ℕ} n [] ≡ []
drop-nil zero = refl
drop-nil (suc n) = refl

pub drop-drop : (n m : ℕ) (xs : List ℕ) → drop (n + m) xs ≡ drop m (drop n xs)
drop-drop zero m xs = let e : 0 + m ≡ m = omega arith in ap (λ k. drop k xs) e
drop-drop (suc n) m [] = drop-nil (suc n + m) ∙ sym (drop-nil m)
drop-drop (suc n) m (x ∷ xs) =
    let e : suc n + m ≡ suc (n + m) = omega arith in ap (λ k. drop k (x ∷ xs)) e ∙ drop-drop n m xs

-- A string that a reader has in front of it behind its head.
pub string-Returns :
    (r : Reader) (major : ℕ) (bytes q : List ℕ)
    → length bytes < 2 ^ 64
    → Reads r (head_bytes major (length bytes) ++ (bytes ++ q))
    → Returns (read_string r major) bytes q
unfolding read_string
string-Returns r major bytes q wide h =
    let g =
      read_want-Returns r major (length bytes) (bytes ++ q)
        (read_head-head_bytes r major (length bytes) (bytes ++ q) wide h) in
    let r' = (read_want r major).0 in
    let enough : ltb (r'.len - r'.pos) (length bytes) ≡ false =
      ground (arith, g.1.left, length-append bytes q) in
    rw (read_string, g.0)
      (subst (λ (x : Read (List ℕ)). Returns x bytes q)
        (sym (if_else (ltb (r'.len - r'.pos) (length bytes)) _ _ enough))
        (
          ap some (ap (take (length bytes)) g.1.unread ∙ take-append bytes q),
          record {
            sound = g.1.sound;
            within = omega (arith, g.1.left, g.1.within, length-append bytes q);
            unread =
                drop-drop r'.pos (length bytes) r'.buf
                ∙ ap (drop (length bytes)) g.1.unread
                ∙ drop-append bytes q;
            left = omega (arith, g.1.left, length-append bytes q);
          },
        ))

pub text-Returns :
    (r : Reader) (text q : List ℕ) (out_cap : ℕ)
    → length text < out_cap
    → Returns (read_string r mt_text) text q
    → Returns (r_text r out_cap) text q
unfolding r_text
text-Returns r text q out_cap fits g =
    rw (r_text, g.0)
      (subst (λ (x : Read (List ℕ)). Returns x text q)
        (sym (
          if_else (out_cap == 0) _ _ (ground arith)
          ∙ if_else (leb out_cap (length text)) _ _ (ground arith)))
        (refl, g.1))

string-Wrote :
    (w : Writer) (major : ℕ) (bytes q : List ℕ)
    → IsWriter w
    → major < 8
    → length bytes < 2 ^ 64
    → w.len + 9 + length bytes ≤ w.cap
    → Returns
        (read_string
          (reader_at (written (put_n (put_head w major (length bytes)) bytes) ++ q) w.len)
          major)
        bytes
        q
string-Wrote w major bytes q i small wide room =
    let n = length-head_bytes major (length bytes) in
    let w' = put_head w major (length bytes) in
    let both =
      (string-Emits w major bytes small).room i
        (omega (arith, n, length-append (head_bytes major (length bytes)) bytes)) in
    let reads = Wrote-Reads w (put_n w' bytes) _ q i (omega arith) both in
    string-Returns _ major bytes q wide
      (subst (Reads _) (append_assoc (head_bytes major (length bytes)) bytes q) reads)

-- A byte string written by nev_cbor_w_bytes is what nev_cbor_r_bytes reads where it was written,
-- and the reader then stands in front of what follows. Condition: its length fits 64 bits, and the
-- buffer has room for it and nine bytes more.
bytes_round_trip :
    (w : Writer) (bytes q : List ℕ)
    → IsWriter w
    → length bytes < 2 ^ 64
    → w.len + 9 + length bytes ≤ w.cap
    → Returns (r_bytes (reader_at (written (w_bytes w bytes) ++ q) w.len)) bytes q
bytes_round_trip w bytes q i wide room = string-Wrote w mt_bytes bytes q i (omega arith) wide room

-- A text written by nev_cbor_w_text is what nev_cbor_r_text reads where it was written, and the
-- reader then stands in front of what follows. Condition: its length fits 64 bits, the buffer has
-- room for it and nine bytes more, and the reader's buffer for it and its terminator.
text_round_trip :
    (w : Writer) (text q : List ℕ) (out_cap : ℕ)
    → IsWriter w
    → length text < 2 ^ 64
    → w.len + 9 + length text ≤ w.cap
    → length text < out_cap
    → Returns (r_text (reader_at (written (w_text w (some text)) ++ q) w.len) out_cap) text q
unfolding w_text
text_round_trip w text q out_cap i wide room fits =
    text-Returns _ text q out_cap fits (string-Wrote w mt_text text q i (omega arith) wide room)
