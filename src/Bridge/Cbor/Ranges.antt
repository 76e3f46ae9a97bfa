-- ===== src/Bridge/Cbor/Ranges.antt =====
-- What the reader hands out lies in the range of its C type, whatever bytes arrive.
use nev_os.Base.{
  IsByte, ◌⊎◌, inl, inr, subst, inr, inl, ℕ, zero, suc, ◌+◌, ◌-◌, ◌*◌, ◌/◌, ◌%◌, ◌^◌, ◌≤◌, ◌<◌, ◌≡◌,
  sym, not, ◌||◌, none, some, List, length, take, drop, All, All-get_or, length-take, ltb, leb,
  ◌==◌, if_elim, arith, Option-cases,
}
use nev_os.Bridge.Cbor.Writer.{mt_uint, mt_simple, mt_text}
use nev_os.Bridge.Cbor.Reader.{
  Reader, Read, avail, failed, failed_at, here, advance, read_be, arg_size, read_arg, head_arg,
  read_head, read_want, r_u64, r_u32, r_bool, r_f32, read_string, r_text,
}

abbrev pub Holds : Reader → Type 0
Holds r = All IsByte r.buf

-- The reader still reads bytes, and what it answered with is in order.
abbrev pub Sound : {A : Type 0} → (A → Type 0) → Read A → Type 0
Sound P (r, none) = Holds r
Sound P (r, some a) = Holds r × P a

abbrev pub Word : ℕ → Type 0
Word n = n < 2 ^ 64

pub Sound-Holds : {A : Type 0} (P : A → Type 0) (x : Read A) → Sound P x → Holds x.0
Sound-Holds P (r, none) s = s
Sound-Holds P (r, some a) s = s.0

pub Sound-value :
    {A : Type 0} (P : A → Type 0) (x : Read A) (a : A) → Sound P x → x.1 ≡ some a → P a
Sound-value P (r, none) a s e = absurd (ground (arith, e))
Sound-value P (r, some b) a s e = let is : b ≡ a = ground (arith, e) in subst P is s.1

here-IsByte : (r : Reader) → Holds r → here r < 256
here-IsByte r h = All-get_or IsByte r.buf r.pos 0 h (omega arith)

-- The bound of `n` bytes more.
abbrev grow : ℕ → ℕ → ℕ
grow b zero = b
grow b (suc n) = grow (b * 2 ^ 8) n

le-grow : (b n : ℕ) → b ≤ grow b n
le-grow b zero = omega arith
le-grow b (suc n) = omega (arith, le-grow (b * 2 ^ 8) n)

read_be-lt :
    (r : Reader) (v b n : ℕ)
    → Holds r
    → v < b
    → grow b n ≤ 2 ^ 64
    → Holds (read_be r v n).0 × ((read_be r v n).1 < grow b n)
unfolding read_be
read_be-lt r v b zero h lt fits = (h, lt)
read_be-lt r v b (suc n) h lt fits =
    let one = here-IsByte r h in
    let more = le-grow (b * 2 ^ 8) n in
    read_be-lt (advance r 1) (v * 2 ^ 8 % 2 ^ 64 + here r) (b * 2 ^ 8) n h
      (omega (arith, one, more, fits, lt)) fits

arg_size-grow : (ai n : ℕ) → arg_size ai ≡ some n → grow 1 n ≤ 2 ^ 64
unfolding arg_size
arg_size-grow ai n e =
    let cases : (n ≡ 1) ⊎ (n ≡ 2) ⊎ (n ≡ 4) ⊎ (n ≡ 8) = ground (arith, e) in
    elim cases [
      | inl is ↦ subst (λ k. grow 1 k ≤ 2 ^ 64) (sym is) (omega arith)
      | inr (inl is) ↦ subst (λ k. grow 1 k ≤ 2 ^ 64) (sym is) (omega arith)
      | inr (inr (inl is)) ↦ subst (λ k. grow 1 k ≤ 2 ^ 64) (sym is) (omega arith)
      | inr (inr (inr is)) ↦ subst (λ k. grow 1 k ≤ 2 ^ 64) (sym is) (omega arith)
    ]

read_arg-Sound :
    (r : Reader) (major n : ℕ)
    → Holds r
    → grow 1 n ≤ 2 ^ 64
    → Sound (λ (p : ℕ × ℕ). Word p.1) (read_arg r major n)
unfolding read_arg
read_arg-Sound r major n h fits =
    let got = read_be-lt r 0 1 n h (omega arith) fits in
    if_elim (Sound (λ (p : ℕ × ℕ). Word p.1)) (avail r n) _ (failed r, none)
      (λ yes. (got.0, omega (arith, got, fits))) (λ no. h)

head_arg-Sound :
    (r : Reader) (major ai : ℕ) → Holds r → Sound (λ (p : ℕ × ℕ). Word p.1) (head_arg r major ai)
unfolding head_arg
head_arg-Sound r major ai h =
    if_elim (Sound (λ (p : ℕ × ℕ). Word p.1)) (ltb ai 24) (r, some (major, ai)) _
      (λ yes. (h, ground (arith, yes)))
      (λ no. elim (Option-cases (arg_size ai)) [
        | inl e ↦ rw e h
        | inr (n, e) ↦ rw e (read_arg-Sound r major n h (arg_size-grow ai n e))
      ])

read_head-Sound : (r : Reader) → Holds r → Sound (λ (p : ℕ × ℕ). Word p.1) (read_head r)
unfolding read_head
read_head-Sound r h =
    if_elim (Sound (λ (p : ℕ × ℕ). Word p.1)) (not (avail r 1)) (failed r, none) _ (λ no. h)
      (λ yes. head_arg-Sound (advance r 1) (here r / 2 ^ 5) (here r % 2 ^ 5) h)

pub read_want-Sound : (r : Reader) (want : ℕ) → Holds r → Sound Word (read_want r want)
unfolding read_want
read_want-Sound r want h =
    let s = read_head-Sound r h in
    let k = Sound-Holds (λ (p : ℕ × ℕ). Word p.1) (read_head r) s in
    elim (Option-cases (read_head r).1) [
      | inl e ↦ rw (read_want, e) k
      | inr (p, e) ↦
          rw (read_want, e)
            (if_elim (Sound Word) (p.0 == want) ((read_head r).0, some p.1)
              (failed_at r.pos (read_head r).0, none)
              (λ yes. (k, Sound-value (λ (q : ℕ × ℕ). Word q.1) (read_head r) p s e)) (λ no. k))
    ]

pub r_u32-Sound : (r : Reader) → Holds r → Sound (λ v. v < 2 ^ 32) (r_u32 r)
unfolding r_u32
r_u32-Sound r h =
    let s = read_want-Sound r mt_uint h in
    let k = Sound-Holds Word (r_u64 r) s in
    elim (Option-cases (r_u64 r).1) [
      | inl e ↦ rw (r_u32, e) k
      | inr (v, e) ↦
          rw (r_u32, e)
            (if_elim (Sound (λ n. n < 2 ^ 32)) (ltb 0xFFFFFFFF v) (failed (r_u64 r).0, none)
              ((r_u64 r).0, some v) (λ big. k) (λ fits. (k, ground (arith, fits))))
    ]

pub r_bool-Sound : (r : Reader) → Holds r → Sound (λ v. Unit {0}) (r_bool r)
unfolding r_bool
r_bool-Sound r h = ground (arith, h)

pub r_f32-Sound : (r : Reader) → Holds r → Sound (λ v. v < 2 ^ 32) (r_f32 r)
unfolding r_f32
r_f32-Sound r h =
    let got = read_be-lt (advance r 1) 0 1 4 h (omega arith) (omega arith) in
    if_elim (Sound (λ v. v < 2 ^ 32)) (not (avail r 5) || not (here r == mt_simple * 2 ^ 5 + 26))
      (failed r, none) _ (λ no. h) (λ yes. (got.0, got.1))

pub read_string-Sound :
    (r : Reader) (want : ℕ) → Holds r → Sound (λ s. length s < 2 ^ 64) (read_string r want)
unfolding read_string
read_string-Sound r want h =
    let s = read_want-Sound r want h in
    let r1 : Reader = (read_want r want).0 in
    let k : Holds r1 = Sound-Holds Word (read_want r want) s in
    elim (Option-cases (read_want r want).1) [
      | inl e ↦ rw (read_string, e) k
      | inr (n, e) ↦
          let word : n < 2 ^ 64 = Sound-value Word (read_want r want) n s e in
          rw (read_string, e)
            (if_elim (Sound (λ (l : List ℕ). length l < 2 ^ 64)) (ltb (r1.len - r1.pos) n)
              (failed_at r.pos r1, none) (advance r1 n, some (take n (drop r1.pos r1.buf)))
              (λ short. k) (λ there. (k, omega (arith, word, length-take n (drop r1.pos r1.buf)))))
    ]

pub r_text-Sound :
    (r : Reader) (size : ℕ)
    → 0 < size
    → Holds r
    → Sound (λ s. (length s < size) × (length s < 2 ^ 64)) (r_text r size)
unfolding r_text
r_text-Sound r size some_room h =
    let x = read_string r mt_text in
    let s = read_string-Sound r mt_text h in
    let k = Sound-Holds (λ (l : List ℕ). length l < 2 ^ 64) (read_string r mt_text) s in
    elim (Option-cases (read_string r mt_text).1) [
      | inl e ↦ rw (r_text, e) k
      | inr (l, e) ↦
          let word : length l < 2 ^ 64 =
            Sound-value (λ (q : List ℕ). length q < 2 ^ 64) (read_string r mt_text) l s e in
          rw (r_text, e)
            (if_elim (Sound (λ (q : List ℕ). (length q < size) × (length q < 2 ^ 64))) (size == 0) _
              _ (λ none_at_all. absurd (ground (arith, none_at_all)))
              (λ room.
                if_elim (Sound (λ (q : List ℕ). (length q < size) × (length q < 2 ^ 64)))
                  (leb size (length l)) (failed_at r.pos x.0, none) (x.0, some l) (λ long. k)
                  (λ fits. (k, (ground (arith, fits), word)))))
    ]
