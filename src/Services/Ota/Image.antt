-- ===== src/Services/Ota/Image.antt =====
-- The update under the SHA-256 of components/nev_kernel/src/nev_sha256.c.
use nev_os.Base.{
  ℕ, ◌%◌, ◌^◌, ◌<◌, ◌≡◌, refl, sym, ap, ◌∙◌, Option, none, some, true, List, [], ◌∷◌, ◌++◌, length,
  length-append, arith, u32_mod,
}
use nev_os.Kernel.Sha256.{Sha, final}
use nev_os.Kernel.Sha256.Reference.{digest}
use nev_os.Kernel.Sha256.Absorb.{Hashed, update-Hashed, update-total}
use nev_os.Kernel.Sha256.Digest.{init-Hashed, final-digest}
use nev_os.Services.Ota.{Hash, ready, init, same_bytes}
use nev_os.Services.Ota.Trust.{Call, run, hashed, total, accepted, ready-Verified}

-- What final writes, and the context that it leaves: it always writes.
abbrev pub out_of : Sha → Option (List ℕ × Sha) → List ℕ × Sha
out_of s none = ([], s)
out_of s (some r) = r

abbrev pub sha : List ℕ → Hash Sha
sha block = record {
  start = nev_os.Kernel.Sha256.init block;
  update = nev_os.Kernel.Sha256.update;
  final = λ s. out_of s (final s);
}

-- The chunks, the newest of which is the first, in the order of the image.
abbrev pub image : List (List ℕ) → List ℕ
image [] = []
image (chunk ∷ older) = image older ++ chunk

length-image : (chunks : List (List ℕ)) → length (image chunks) ≡ total chunks
length-image [] = refl
length-image (chunk ∷ older) = omega (arith, length-image older, length-append (image older) chunk)

hashed-Hashed :
    (block : List ℕ) (chunks : List (List ℕ))
    → length block ≡ 64
    → Hashed (hashed (sha block) chunks) (image chunks)
hashed-Hashed block [] h = init-Hashed block h
hashed-Hashed block (chunk ∷ older) h =
    update-Hashed (hashed (sha block) older) (image older) chunk (hashed-Hashed block older h)

hashed-total :
    (block : List ℕ) (chunks : List (List ℕ))
    → (hashed (sha block) chunks).total_bytes ≡ length (image chunks) % 2 ^ 64
hashed-total block [] = refl
hashed-total block (chunk ∷ older) = omega (
  arith,
  update-total (hashed (sha block) older) chunk,
  hashed-total block older,
  length-append (image older) chunk,
)

same_bytes→eq : (xs ys : List ℕ) → same_bytes xs ys ≡ true → xs ≡ ys
same_bytes→eq [] [] e = refl
same_bytes→eq [] (y ∷ ys) e = absurd (ground (arith, e))
same_bytes→eq (x ∷ xs) [] e = absurd (ground (arith, e))
same_bytes→eq (x ∷ xs) (y ∷ ys) e =
    let first : x ≡ y = ground (arith, e) in
    let rest : same_bytes xs ys ≡ true = ground (arith, e) in
    ap (λ z. z ∷ xs) first ∙ ap (◌∷◌ y) (same_bytes→eq xs ys rest)

-- An image that is ready to install is as long as its offer says, and the digest that FIPS 180-4
-- defines for it is the offer's, whatever calls were made since the start. The image is the bytes
-- that feed accepted since the last begin, in their order. Condition: the size of the partition is
-- one of 32 bits, and the context's block has 64 bytes.
pub installed_image :
    (block : List ℕ) (blank : Sha) (version : List ℕ) (partition : ℕ) (calls : List Call)
    → length block ≡ 64
    → partition < u32_mod
    → let c0 = init (sha block) blank version partition in
      let c = run (sha block) c0 calls in
      let fed = image (accepted (sha block) c0 [] calls) in
      c.state ≡ ready → (length fed ≡ c.offer.size_bytes) × (digest fed ≡ c.offer.sha256)
installed_image block blank version partition calls h small e =
    let c0 = init (sha block) blank version partition in
    let c = run (sha block) c0 calls in
    let chunks = accepted (sha block) c0 [] calls in
    let (worth, size, left, same) =
      ready-Verified (sha block) blank version partition calls small e in
    let s = hashed (sha block) chunks in
    let out : (out_of s (final s)).0 ≡ digest (image chunks) =
      ap (λ o. (out_of s o).0)
        (final-digest s (image chunks) (hashed-Hashed block chunks h)
          (hashed-total block chunks)).1 in
    (
      omega (arith, length-image chunks, size),
      sym out ∙ same_bytes→eq (out_of s (final s)).0 c.offer.sha256 same,
    )
