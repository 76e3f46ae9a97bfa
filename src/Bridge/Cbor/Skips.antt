-- ===== src/Bridge/Cbor/Skips.antt =====
-- nev_cbor_r_skip steps over any one item but an array.
use nev_os.Base.{
  ℕ, ◌+◌, ◌-◌, ◌*◌, ◌^◌, ◌<◌, ◌≡◌, refl, sym, ap, ◌∙◌, Bool, true, false, List, ◌∷◌, ◌++◌, ltb,
  if_else, length, drop, arith, length-append, drop-append, subst,
}
use nev_os.Bridge.Cbor.Reader.{Reader, advance, read_head, r_skip, skip_bytes, arg_size}
use nev_os.Bridge.Cbor.Heads.{
  be_bytes, head_bytes, Reads, Gives, read_head-head_bytes, short_head, long_head,
}
use nev_os.Bridge.Cbor.Scalars.{bool_byte}
use nev_os.Bridge.Cbor.Strings.{drop-drop}

abbrev pub Skips : Reader × Bool → List ℕ → Type 0
Skips (r', skipped) q = (skipped ≡ true) × Reads r' q

-- Bytes that a reader has in front of it are stepped over.
pub Reads-advance :
    (r : Reader) (bytes q : List ℕ) → Reads r (bytes ++ q) → Reads (advance r (length bytes)) q
Reads-advance r bytes q h = record {
  sound = h.sound;
  within = omega (arith, h.left, h.within, length-append bytes q);
  unread =
      drop-drop r.pos (length bytes) r.buf
      ∙ ap (drop (length bytes)) h.unread
      ∙ drop-append bytes q;
  left = omega (arith, h.left, length-append bytes q);
}

skip-number : (r : Reader) (v : ℕ) (q : List ℕ) → Gives (read_head r) 0 v q → Skips (r_skip r) q
unfolding r_skip
skip-number r v q g = rw (r_skip, g.0) (refl, g.1)

skip-simple : (r : Reader) (v : ℕ) (q : List ℕ) → Gives (read_head r) 7 v q → Skips (r_skip r) q
unfolding r_skip
skip-simple r v q g = rw (r_skip, g.0) (refl, g.1)

skip_bytes_lem :
    (r : Reader) (bytes q : List ℕ) → Reads r (bytes ++ q) → Skips (skip_bytes r (length bytes)) q
unfolding skip_bytes
skip_bytes_lem r bytes q h =
    subst (λ (x : Reader × Bool). Skips x q)
      (sym (
        if_else (ltb (r.len - r.pos) (length bytes)) _ _
          (ground (arith, h.left, length-append bytes q))))
      (refl, Reads-advance r bytes q h)

pub skip-uint :
    (r : Reader) (v : ℕ) (q : List ℕ)
    → v < 2 ^ 64
    → Reads r (head_bytes 0 v ++ q)
    → Skips (r_skip r) q
skip-uint r v q wide h = skip-number r v q (read_head-head_bytes r 0 v q wide h)

pub skip-bool :
    (r : Reader) (v : Bool) (q : List ℕ) → Reads r (bool_byte v ∷ q) → Skips (r_skip r) q
skip-bool r true q h = skip-simple r 21 q (short_head r 7 21 q (omega arith) h)
skip-bool r false q h = skip-simple r 20 q (short_head r 7 20 q (omega arith) h)

pub skip-f32 :
    (r : Reader) (bits : ℕ) (q : List ℕ)
    → bits < 2 ^ 32
    → Reads r ((7 * 2 ^ 5 + 26) ∷ be_bytes 4 bits ++ q)
    → Skips (r_skip r) q
unfolding arg_size
skip-f32 r bits q small h =
    skip-simple r bits q
      (long_head r 7 26 4 bits q (omega arith) (omega arith) refl small (omega arith) h)

pub skip-bytes :
    (r : Reader) (bytes q : List ℕ)
    → length bytes < 2 ^ 64
    → Reads r (head_bytes 2 (length bytes) ++ (bytes ++ q))
    → Skips (r_skip r) q
unfolding r_skip
skip-bytes r bytes q wide h =
    let g = read_head-head_bytes r 2 (length bytes) (bytes ++ q) wide h in
    rw (r_skip, g.0) (skip_bytes_lem (read_head r).0 bytes q g.1)

pub skip-text :
    (r : Reader) (bytes q : List ℕ)
    → length bytes < 2 ^ 64
    → Reads r (head_bytes 3 (length bytes) ++ (bytes ++ q))
    → Skips (r_skip r) q
unfolding r_skip
skip-text r bytes q wide h =
    let g = read_head-head_bytes r 3 (length bytes) (bytes ++ q) wide h in
    rw (r_skip, g.0) (skip_bytes_lem (read_head r).0 bytes q g.1)
