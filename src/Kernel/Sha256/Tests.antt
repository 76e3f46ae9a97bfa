-- ===== src/Kernel/Sha256/Tests.antt =====
-- The digest of "abc", of FIPS 180-4, in one piece and in two.
use nev_os.Base.{ℕ, ◌≡◌, refl, arith, List, [], ◌∷◌, replicate, some, copy}
use nev_os.Kernel.Sha256.Rounds.{compress, extend, mix_all}
use nev_os.Kernel.Sha256.Reference.{digest}
use nev_os.Kernel.Sha256.Digest.{updates, digest_of_pieces, padding_ends}
use nev_os.Kernel.Sha256.{Sha, init, update, update_loop, final, pad_loop, written, sha256}

abbrev abc_digest : List ℕ
abc_digest =
    0xba ∷ 0x78 ∷ 0x16 ∷ 0xbf ∷ 0x8f ∷ 0x01 ∷ 0xcf ∷ 0xea ∷ 0x41 ∷ 0x41 ∷ 0x40 ∷ 0xde ∷ 0x5d ∷ 0xae
    ∷ 0x22 ∷ 0x23 ∷ 0xb0 ∷ 0x03 ∷ 0x61 ∷ 0xa3 ∷ 0x96 ∷ 0x17 ∷ 0x7a ∷ 0x9c ∷ 0xb4 ∷ 0x10 ∷ 0xff
    ∷ 0x61 ∷ 0xf2 ∷ 0x00 ∷ 0x15 ∷ 0xad ∷ []

sha256-abc : sha256 (replicate 64 0) (97 ∷ 98 ∷ 99 ∷ []) ≡ some abc_digest
unfolding sha256 final pad_loop update update_loop compress extend mix_all copy
sha256-abc = refl

abbrev pieces : List (List ℕ)
pieces = (97 ∷ []) ∷ (98 ∷ 99 ∷ []) ∷ []

digest_of_pieces_example :
    written (final (updates (init (replicate 64 7)) pieces)) ≡ some (digest (97 ∷ 98 ∷ 99 ∷ []))
digest_of_pieces_example = digest_of_pieces (replicate 64 7) pieces refl

digest-abc : digest (97 ∷ 98 ∷ 99 ∷ []) ≡ abc_digest
unfolding compress extend mix_all
digest-abc = refl

padding_ends_example :
    (s : Sha) × (pad_loop 63 (update (updates (init (replicate 64 0)) pieces) (0x80 ∷ [])) ≡ some s)
    × (s.block_len ≡ 56)
padding_ends_example = padding_ends (replicate 64 0) pieces 63 refl (omega arith)
