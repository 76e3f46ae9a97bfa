-- ===== src/Bridge/Cbor/Written.antt =====
-- What the writer's operations leave in its buffer when there is room.
use nev_os.Base.{
  take-copy, length-copy, copy, ◌-◌, true, if_then, ℕ, zero, suc, ◌+◌, ◌*◌, ◌/◌, ◌%◌, ◌^◌, ◌≤◌, ◌<◌,
  ◌≡◌, refl, sym, ap, ◌∙◌, false, List, [], ◌∷◌, ◌++◌, append_assoc, append-nil, ltb, leb,
  if◌then◌else◌, if_elim_both, if_else, length, set, take, u8_mod, arith, take-set_next, length-set,
  length-append, subst,
}
use native.Mathlib.Decide.{dec_lt}
use nev_os.Bridge.Cbor.Writer.{Writer, written, put, put_be, put_head, put_n}
use nev_os.Bridge.Cbor.Heads.{be_bytes, head_bytes}

pub record IsWriter (w : Writer) : Type 0 where
  pub sound : w.overflow ≡ false
  pub storage : w.cap ≤ length w.buf

-- The bytes stand behind what was written before.
pub record Wrote (w w' : Writer) (bytes : List ℕ) : Type 0 where
  pub writer : IsWriter w'
  pub cap_same : w'.cap ≡ w.cap
  pub len_grown : w'.len ≡ w.len + length bytes
  pub text : written w' ≡ written w ++ bytes

Wrote-nothing : (w : Writer) → IsWriter w → Wrote w w []
Wrote-nothing w v = record {
  writer = v;
  cap_same = refl;
  len_grown = omega arith;
  text = sym (append-nil (written w));
}

Wrote-both :
    (w w' w'' : Writer) (xs ys : List ℕ) → Wrote w w' xs → Wrote w' w'' ys → Wrote w w'' (xs ++ ys)
Wrote-both w w' w'' xs ys a b = record {
  writer = b.writer;
  cap_same = b.cap_same ∙ a.cap_same;
  len_grown = omega (arith, a.len_grown, b.len_grown, length-append xs ys);
  text = b.text ∙ ap (λ t. t ++ ys) a.text ∙ append_assoc (written w) xs ys;
}

-- What an operation does that is to write these bytes: all of them where there is room, and the
-- overflow mark where there is not; after an overflow it does nothing.
pub record Emits (w w' : Writer) (bytes : List ℕ) : Type 0 where
  pub sticky : w.overflow ≡ true → w' ≡ w
  pub room : IsWriter w → w.len + length bytes ≤ w.cap → Wrote w w' bytes
  pub full : IsWriter w → w.len ≤ w.cap → w.cap < w.len + length bytes → w'.overflow ≡ true

pub Emits-nothing : (w : Writer) → Emits w w []
Emits-nothing w = record {
  sticky = λ e. refl;
  room = λ v h. Wrote-nothing w v;
  full = λ v h k. absurd (omega arith);
}

pub Emits-both :
    (w w' w'' : Writer) (xs ys : List ℕ) → Emits w w' xs → Emits w' w'' ys → Emits w w'' (xs ++ ys)
Emits-both w w' w'' xs ys a b = record {
  sticky = λ e. b.sticky (ap (λ (u : Writer). u.overflow) (a.sticky e) ∙ e) ∙ a.sticky e;
  room = λ v h.
      let first = a.room v (omega (arith, length-append xs ys)) in
      Wrote-both w w' w'' xs ys first
        (b.room first.writer (omega (arith, first.len_grown, first.cap_same, length-append xs ys)));
  full = λ v h k. elim (dec_lt w.cap (w.len + length xs)) [
    | yes early ↦ let e = a.full v h early in ap (λ (u : Writer). u.overflow) (b.sticky e) ∙ e
    | no late ↦
        let first = a.room v (omega arith) in
        b.full first.writer (omega (arith, first.len_grown, first.cap_same))
          (omega (arith, first.len_grown, first.cap_same, length-append xs ys))
  ];
}

pub put-Emits : (w : Writer) (byte : ℕ) → Emits w (put w byte) (byte ∷ [])
unfolding put
put-Emits w byte = record {
  sticky = λ e. if_then w.overflow _ _ e;
  room = λ v room.
      let next : suc w.len ≡ w.len + 1 = omega arith in
      let stored = record w { buf = set w.buf w.len byte; len = w.len + 1 } in
      let e : put w byte ≡ stored =
        if_else w.overflow _ _ v.sound ∙ if_else (leb w.cap w.len) _ _ (ground arith) in
      subst (λ w'. Wrote w w' (byte ∷ [])) (sym e)
        (record {
          writer = record {
            sound = v.sound;
            storage = omega (arith, v.storage, length-set w.buf w.len byte);
          };
          cap_same = refl;
          len_grown = refl;
          text =
              subst (λ n. take n (set w.buf w.len byte) ≡ written w ++ byte ∷ []) next
                (take-set_next w.len w.buf byte (omega (arith, v.storage)));
        });
  full = λ v h k.
      ap (λ (u : Writer). u.overflow)
        (if_else w.overflow _ _ v.sound ∙ if_then (leb w.cap w.len) _ _ (ground arith));
}

pub put_be-Emits : (w : Writer) (v n : ℕ) → Emits w (put_be w v n) (be_bytes n v)
unfolding put_be
put_be-Emits w v zero = Emits-nothing w
put_be-Emits w v (suc n) =
    let byte : ℕ = v / 2 ^ (n * 8) % u8_mod in
    Emits-both w (put w byte) (put_be (put w byte) v n) (byte ∷ []) (be_bytes n v)
      (put-Emits w byte) (put_be-Emits (put w byte) v n)

-- A head byte and the number behind it.
pub long-Emits :
    (w : Writer) (byte v n : ℕ) → Emits w (put_be (put w byte) v n) (byte ∷ be_bytes n v)
long-Emits w byte v n =
    Emits-both w (put w byte) (put_be (put w byte) v n) (byte ∷ []) (be_bytes n v)
      (put-Emits w byte) (put_be-Emits (put w byte) v n)

-- A head is written in its shortest form. Condition: the major type fits its three bits.
pub put_head-Emits :
    (w : Writer) (major v : ℕ) → major < 8 → Emits w (put_head w major v) (head_bytes major v)
unfolding put_head put_be
put_head-Emits w major v small =
    let m : major * 2 ^ 5 ≡ major * 2 ^ 5 % u8_mod = omega arith in
    let low : v / 1 % u8_mod ≡ v % u8_mod = omega arith in
    subst (λ k. Emits w (put_head_from k) (head_bytes major v)) m
      (if_elim_both (Emits w) (ltb v 24) _ _ _ _ (λ e. put-Emits w _)
        λ e1.
          if_elim_both (Emits w) (leb v 0xFF) _ _ _ _
            (λ e.
              subst (λ b. Emits w (put (put w (major * 2 ^ 5 + 24)) b) (head 24 1)) low
                (long-Emits w (major * 2 ^ 5 + 24) v 1))
            λ e2.
              if_elim_both (Emits w) (leb v 0xFFFF) _ _ _ _
                (λ e.
                  subst
                    (λ b.
                      Emits w (put (put (put w (major * 2 ^ 5 + 25)) (v / 2 ^ 8 % u8_mod)) b)
                        (head 25 2))
                    low (long-Emits w (major * 2 ^ 5 + 25) v 2))
                λ e3.
                  if_elim_both (Emits w) (leb v 0xFFFFFFFF) _ _ _ _
                    (λ e. long-Emits w (major * 2 ^ 5 + 26) v 4)
                    λ e4. long-Emits w (major * 2 ^ 5 + 27) v 8)
  where
    head : ℕ → ℕ → List ℕ
    head ai n = (major * 2 ^ 5 + ai) ∷ be_bytes n v

    put_head_from : ℕ → Writer
    put_head_from m =
        if ltb v 24
        then put w (m + v)
        else if leb v 0xFF
        then put (put w (m + 24)) (v % u8_mod)
        else if leb v 0xFFFF
        then put (put (put w (m + 25)) (v / 2 ^ 8 % u8_mod)) (v % u8_mod)
        else if leb v 0xFFFFFFFF
        then put_be (put w (m + 26)) v 4
        else put_be (put w (m + 27)) v 8

pub put_n-Emits : (w : Writer) (bytes : List ℕ) → Emits w (put_n w bytes) bytes
unfolding put_n
put_n-Emits w bytes = record {
  sticky = λ e. if_then w.overflow _ _ e;
  room = λ v room.
      let stored = record w { buf = copy w.buf w.len bytes; len = w.len + length bytes } in
      let e : put_n w bytes ≡ stored =
        if_else w.overflow _ _ v.sound
        ∙ if_else (ltb (w.cap - w.len) (length bytes)) _ _ (ground arith) in
      subst (λ w'. Wrote w w' bytes) (sym e)
        (record {
          writer = record {
            sound = v.sound;
            storage = omega (arith, v.storage, length-copy w.buf w.len bytes);
          };
          cap_same = refl;
          len_grown = refl;
          text = take-copy w.buf w.len bytes (omega (arith, v.storage));
        });
  full = λ v h k.
      ap (λ (u : Writer). u.overflow)
        (if_else w.overflow _ _ v.sound
          ∙ if_then (ltb (w.cap - w.len) (length bytes)) _ _ (ground arith));
}

-- A string's head and its bytes.
pub string-Emits :
    (w : Writer) (major : ℕ) (bytes : List ℕ)
    → major < 8
    → Emits w
        (put_n (put_head w major (length bytes)) bytes)
        (head_bytes major (length bytes) ++ bytes)
string-Emits w major bytes small =
    let w' = put_head w major (length bytes) in
    Emits-both w w' (put_n w' bytes) (head_bytes major (length bytes)) bytes
      (put_head-Emits w major (length bytes) small) (put_n-Emits w' bytes)
