-- ===== src/Services/Ota.antt =====
-- components/nev_services/src/ota_core.c. The hash is an interface: a context, and what
-- nev_sha256_init, nev_sha256_update and nev_sha256_final do to it. A version is the bytes of its
-- string before the terminator.
pub mod Versions
pub mod Trust
pub mod Image
mod Tests
use nev_os.Base.{
  ℕ, zero, suc, ◌+◌, ◌-◌, ◌*◌, ◌/◌, ◌%◌, Bool, true, false, not, ◌&&◌, ◌||◌, List, [], ◌∷◌, ltb,
  leb, ◌==◌, if◌then◌else◌, length, take, replicate, u32_mod, min,
}
use nev_os.Services.Ota.Versions.{Sign, newer, version_compare}

pub data State : Type 0 where
  idle offered downloading ready failed : State

pub data Reject : Type 0 where
  reject_none not_newer too_big malformed short long digest : Reject

pub record Offer : Type 0 where
  pub version : List ℕ
  pub size_bytes : ℕ
  pub sha256 : List ℕ

pub record Hash (Ctx : Type 0) : Type 0 where
  pub start : Ctx
  pub update : Ctx → List ℕ → Ctx
  -- The digest, and the context that is left.
  pub final : Ctx → List ℕ × Ctx

pub record Core (Ctx : Type 0) : Type 0 where
  pub partition_bytes : ℕ
  pub current_version : List ℕ
  pub state : State
  pub reject : Reject
  pub offer : Offer
  pub hash : Ctx
  pub received : ℕ

-- nev_sha256_equal, for digests of one length
abbrev pub same_bytes : List ℕ → List ℕ → Bool
same_bytes [] [] = true
same_bytes [] (y ∷ ys) = false
same_bytes (x ∷ xs) [] = false
same_bytes (x ∷ xs) (y ∷ ys) = x == y && same_bytes xs ys

abbrev pub is_empty : List ℕ → Bool
is_empty [] = true
is_empty (x ∷ xs) = false

abbrev pub is_offered : State → Bool
is_offered offered = true
is_offered idle = false
is_offered downloading = false
is_offered ready = false
is_offered failed = false

abbrev pub is_downloading : State → Bool
is_downloading downloading = true
is_downloading idle = false
is_downloading offered = false
is_downloading ready = false
is_downloading failed = false

module _ {Ctx : Type 0} (h : Hash Ctx) where
  -- `blank` is the context that memset leaves.
  abbrev pub init : Ctx → List ℕ → ℕ → Core Ctx
  init blank version partition_bytes = record {
    partition_bytes = partition_bytes;
    current_version = take 24 version;
    state = idle;
    reject = reject_none;
    offer = record { version = []; size_bytes = 0; sha256 = replicate 32 0 };
    hash = blank;
    received = 0;
  }

  unfoldable pub consider : Core Ctx → Offer → Bool × Core Ctx
  consider c o =
      if is_empty o.version || o.size_bytes == 0
      then (false, record c { reject = malformed })
      else if not (newer (version_compare o.version c.current_version))
      then (false, record c { reject = not_newer })
      else if ltb c.partition_bytes o.size_bytes
      then (false, record c { reject = too_big })
      else (true, record c { reject = reject_none; offer = o; state = offered })

  unfoldable pub begin : Core Ctx → Core Ctx
  begin c =
      if is_offered c.state
      then record c { hash = h.start; received = 0; state = downloading }
      else c

  abbrev pub abort : Core Ctx → Reject → Core Ctx
  abort c why = record c { state = failed; reject = why; received = 0 }

  unfoldable pub feed : Core Ctx → List ℕ → Bool × Core Ctx
  feed c bytes =
      if not (is_downloading c.state)
      then (false, c)
      else if ltb c.offer.size_bytes (c.received + length bytes)
      then (false, abort c long)
      else (
        true,
        record c { hash = h.update c.hash bytes; received = (c.received + length bytes) % u32_mod },
      )

  unfoldable pub progress : Core Ctx → ℕ
  progress c =
      if c.offer.size_bytes == 0 then 0 else min (c.received * 100 / c.offer.size_bytes) 100

  unfoldable pub finish : Core Ctx → Bool × Core Ctx
  finish c =
      if not (is_downloading c.state)
      then (false, c)
      else if not (c.received == c.offer.size_bytes)
      then (false, abort c short)
      else (let (out, left) = h.final c.hash in
          let c1 = record c { hash = left } in
          if not (same_bytes out c.offer.sha256)
          then (false, abort c1 digest)
          else (true, record c1 { state = ready }))
