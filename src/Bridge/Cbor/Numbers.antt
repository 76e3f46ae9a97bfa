-- ===== src/Bridge/Cbor/Numbers.antt =====
-- Round trips of the integers through nev_cbor.c.
use nev_os.Base.{
  ℕ, ◌+◌, ◌^◌, ◌≤◌, ◌<◌, ◌≡◌, refl, sym, ap, ◌∙◌, false, List, ◌++◌, append_assoc, some, ltb, leb,
  ◌==◌, ==_refl, if_elim, if_then, if_else, length, drop, arith, length-append, length-take,
  drop-append, subst, ℤ, pos, negsuc,
}
use nev_os.Bridge.Cbor.Writer.{Writer, written, put_head, w_u64, w_i64, mt_uint, mt_nint}
use nev_os.Bridge.Cbor.Reader.{Reader, Read, read_head, read_want, r_u64, r_i64, int64_max}
use nev_os.Bridge.Cbor.Heads.{head_bytes, Reads, Gives, read_head-head_bytes}
use nev_os.Bridge.Cbor.Written.{IsWriter, Wrote, put_head-Emits}

-- A reader in a buffer, at a position.
abbrev pub reader_at : List ℕ → ℕ → Reader
reader_at buf at = record { buf = buf; len = length buf; pos = at; error = false }

-- A read that gives x and leaves the bytes q.
abbrev pub Returns : {A : Type 0} → Read A → A → List ℕ → Type 0
Returns (r', got) x q = (got ≡ some x) × Reads r' q

pub length-head_bytes : (major v : ℕ) → length (head_bytes major v) ≤ 9
length-head_bytes major v =
    if_elim Short (ltb v 24) _ _ (λ _. omega arith)
      λ _.
        if_elim Short (leb v 0xFF) _ _ (λ _. omega arith)
          λ _.
            if_elim Short (leb v 0xFFFF) _ _ (λ _. omega arith)
              λ _. if_elim Short (leb v 0xFFFFFFFF) _ _ (λ _. omega arith) λ _. omega arith
  where
    Short : List ℕ → Type 0
    Short bytes = length bytes ≤ 9

pub Wrote-Reads :
    (w w' : Writer) (bytes q : List ℕ)
    → IsWriter w
    → w.len ≤ w.cap
    → Wrote w w' bytes
    → Reads (reader_at (written w' ++ q) w.len) (bytes ++ q)
Wrote-Reads w w' bytes q v room h =
    let shape : written w' ++ q ≡ written w ++ (bytes ++ q) =
      ap (λ t. t ++ q) h.text ∙ append_assoc (written w) bytes q in
    let before : length (written w) ≡ w.len = omega (arith, length-take w.len w.buf, v.storage) in
    let total = ap length shape ∙ length-append (written w) (bytes ++ q) in
    record {
      sound = refl;
      within = omega (arith, total, before);
      unread =
          ap (drop w.len) shape
          ∙ subst (λ n. drop n (written w ++ (bytes ++ q)) ≡ bytes ++ q) before
              (drop-append (written w) (bytes ++ q));
      left = omega (arith, total, before);
    }

-- A head that was written is in front of the reader.
pub head-Reads :
    (w : Writer) (major v : ℕ) (q : List ℕ)
    → IsWriter w
    → major < 8
    → v < 2 ^ 64
    → w.len + 9 ≤ w.cap
    → Gives (read_head (reader_at (written (put_head w major v) ++ q) w.len)) major v q
head-Reads w major v q i small wide room = read_head-head_bytes _ major v q wide (
    Wrote-Reads w (put_head w major v) (head_bytes major v) q i (omega arith)
      ((put_head-Emits w major v small).room i (omega (arith, length-head_bytes major v))))

pub read_want-Returns :
    (r : Reader) (major v : ℕ) (q : List ℕ)
    → Gives (read_head r) major v q
    → Returns (read_want r major) v q
unfolding read_want
read_want-Returns r major v q g =
    rw (read_want, g.0)
      (subst (λ (x : Read ℕ). Returns x v q) (sym (if_then (major == major) _ _ (==_refl major)))
        (refl, g.1))

-- An unsigned integer written by nev_cbor_w_u64 is what nev_cbor_r_u64 reads where it was written,
-- and the reader then stands in front of what follows. Condition: the integer fits 64 bits, and the
-- buffer has nine bytes left.
u64_round_trip :
    (w : Writer) (v : ℕ) (q : List ℕ)
    → IsWriter w
    → v < 2 ^ 64
    → w.len + 9 ≤ w.cap
    → Returns (r_u64 (reader_at (written (w_u64 w v) ++ q) w.len)) v q
u64_round_trip w v q i wide room =
    read_want-Returns _ mt_uint v q (head-Reads w mt_uint v q i (omega arith) wide room)

-- The range of an int64_t.
abbrev pub InInt64 : ℤ → Type 0
InInt64 (pos n) = n < 2 ^ 63
InInt64 (negsuc n) = n < 2 ^ 63

-- A signed integer written by nev_cbor_w_i64 is what nev_cbor_r_i64 reads where it was written, the
-- least one included, and the reader then stands in front of what follows. Condition: the integer
-- is one of 64 bits, and the buffer has nine bytes left.
pub i64_round_trip :
    (w : Writer) (v : ℤ) (q : List ℕ)
    → IsWriter w
    → InInt64 v
    → w.len + 9 ≤ w.cap
    → Returns (r_i64 (reader_at (written (w_i64 w v) ++ q) w.len)) v q
unfolding r_i64 w_i64
i64_round_trip w (pos n) q i small room =
    let g = head-Reads w mt_uint n q i (omega arith) (omega arith) room in
    rw (r_i64, w_i64, g.0)
      (subst (λ (x : Read ℤ). Returns x (pos n) q)
        (sym (if_else (ltb int64_max n) _ _ (ground arith))) (refl, g.1))
i64_round_trip w (negsuc n) q i small room =
    let g = head-Reads w mt_nint n q i (omega arith) (omega arith) room in
    rw (r_i64, w_i64, g.0)
      (subst (λ (x : Read ℤ). Returns x (negsuc n) q)
        (sym (if_else (ltb int64_max n) _ _ (ground arith))) (refl, g.1))
