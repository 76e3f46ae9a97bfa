-- ===== src/Services/Ota/Tests.antt =====
-- A whole update under a hash that keeps its bytes, and versions compared.
use nev_os.Base.{replicate, copy, length, ℕ, ◌≡◌, refl, arith, List, [], ◌∷◌, ◌++◌}
use nev_os.Services.Ota.{Offer, Core, Hash, init, consider, begin, feed, finish, ready}
use nev_os.Kernel.Sha256
use nev_os.Kernel.Sha256.{Sha, update_loop, final, pad_loop}
use nev_os.Kernel.Sha256.Rounds.{compress, extend, mix_all}
use nev_os.Kernel.Sha256.Reference.{digest as fips_digest}
use nev_os.Services.Ota.Image.{sha, image, installed_image}
use nev_os.Services.Ota.Trust.{
  accepted, Call, considers, begins, finishes, feeds, run, Verified, ready-Verified,
}
use nev_os.Services.Ota.Versions.{version_compare, greater, rounds, round, digits, separator}

abbrev keeping : Hash (List ℕ)
keeping = record { start = []; update = λ c bytes. c ++ bytes; final = λ c. (c, 0 ∷ []) }

-- "0.10" and "0.9"
abbrev next_version : List ℕ
next_version = 48 ∷ 46 ∷ 49 ∷ 48 ∷ []

abbrev this_version : List ℕ
this_version = 48 ∷ 46 ∷ 57 ∷ []

abbrev update : List Call
update =
    considers (record { version = next_version; size_bytes = 3; sha256 = 5 ∷ 6 ∷ 7 ∷ [] })
    ∷ begins
    ∷ feeds (5 ∷ 6 ∷ [])
    ∷ feeds (7 ∷ [])
    ∷ finishes
    ∷ []

installable : (run keeping (init keeping [] this_version 10) update).state ≡ ready
unfolding consider begin feed finish version_compare rounds round digits separator
installable = refl

ready-Verified_example :
    Verified keeping
      (run keeping (init keeping [] this_version 10) update)
      ((7 ∷ []) ∷ (5 ∷ 6 ∷ []) ∷ [])
unfolding consider begin feed finish version_compare rounds round digits separator
ready-Verified_example = ready-Verified keeping [] this_version 10 update (omega arith) installable

-- Numeric, not lexicographic.
ten_after_nine : version_compare next_version this_version ≡ greater
unfolding version_compare rounds round digits separator
ten_after_nine = refl

abbrev hashes : Hash Sha
hashes = sha (replicate 64 0)

-- The offer of an image "abc", which arrives in two chunks.
abbrev offered_abc : Offer
offered_abc = record {
  version = next_version;
  size_bytes = 3;
  sha256 = fips_digest (97 ∷ 98 ∷ 99 ∷ []);
}

abbrev abc_update : List Call
abc_update = considers offered_abc ∷ begins ∷ feeds (97 ∷ []) ∷ feeds (98 ∷ 99 ∷ []) ∷ finishes ∷ []

abbrev after_abc : Core Sha
after_abc = run hashes (init hashes hashes.start this_version 10) abc_update

abc_ready : after_abc.state ≡ ready
unfolding consider begin feed finish version_compare rounds round digits separator Sha256.update
    update_loop final pad_loop compress extend mix_all copy
abc_ready = refl

installed_image_example :
    (length (image (accepted hashes (init hashes hashes.start this_version 10) [] abc_update))
      ≡ after_abc.offer.size_bytes)
    × (fips_digest
          (image (accepted hashes (init hashes hashes.start this_version 10) [] abc_update))
        ≡ after_abc.offer.sha256)
installed_image_example =
    installed_image (replicate 64 0) hashes.start this_version 10 abc_update refl (omega arith)
      abc_ready

-- What feed accepted is the image.
image_of_abc :
    image (accepted hashes (init hashes hashes.start this_version 10) [] abc_update)
    ≡ 97 ∷ 98 ∷ 99 ∷ []
unfolding consider begin feed finish version_compare rounds round digits separator
image_of_abc = refl
