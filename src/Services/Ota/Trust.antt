-- ===== src/Services/Ota/Trust.antt =====
-- What a verified image is, over every history of calls.
use nev_os.Base.{
  ℕ, ◌+◌, ◌%◌, ◌≤◌, ◌<◌, ◌≡◌, refl, ap, Bool, true, not, ◌||◌, List, [], ◌∷◌, if_elim,
  if◌then◌else◌, Bool-cases, inl, inr, sym, ◌∙◌, ltb, ◌==◌, length, arith, u32_mod,
}
use nev_os.Services.Ota.{
  State, idle, offered, downloading, ready, failed, Reject, malformed, not_newer, too_big, Offer,
  Hash, Core, same_bytes, is_empty, is_offered, is_downloading, init, consider, begin, feed, finish,
  abort,
}
use nev_os.Services.Ota.Versions.{newer, version_compare}

pub data Call : Type 0 where
  considers : Offer → Call
  begins finishes : Call
  feeds : List ℕ → Call
  aborts : Reject → Call

abbrev pub total : List (List ℕ) → ℕ
total [] = 0
total (chunk ∷ older) = total older + length chunk

module _ {Ctx : Type 0} (h : Hash Ctx) where
  abbrev pub step : Core Ctx → Call → Core Ctx
  step c (considers o) = (consider h c o).1
  step c begins = begin h c
  step c finishes = (finish h c).1
  step c (feeds bytes) = (feed h c bytes).1
  step c (aborts why) = abort h c why

  abbrev pub run : Core Ctx → List Call → Core Ctx
  run c [] = c
  run c (call ∷ calls) = run (step c call) calls

  -- The context after the chunks, the newest first.
  abbrev pub hashed : List (List ℕ) → Ctx
  hashed [] = h.start
  hashed (chunk ∷ older) = h.update (hashed older) chunk

  -- The offer is newer than what runs, and fits.
  abbrev pub Worth : Core Ctx → Type 0
  Worth c =
      (newer (version_compare c.offer.version c.current_version) ≡ true)
      × (c.offer.size_bytes ≤ c.partition_bytes)

  -- The chunks that were accepted since the update began, the newest first: `older` before the call,
  -- and with it.
  abbrev pub took : Core Ctx → List (List ℕ) → Call → List (List ℕ)
  took c older (considers o) = older
  took c older begins = if is_offered c.state then [] else older
  took c older finishes = older
  took c older (feeds bytes) = if (feed h c bytes).0 then bytes ∷ older else older
  took c older (aborts why) = older

  -- The same over a history of calls.
  abbrev pub accepted : Core Ctx → List (List ℕ) → List Call → List (List ℕ)
  accepted c older [] = older
  accepted c older (call ∷ calls) = accepted (step c call) (took c older call) calls

  -- The context has hashed the chunks, which are as long as `received` says.
  abbrev Fed : Core Ctx → List (List ℕ) → Type 0
  Fed c chunks = (c.hash ≡ hashed chunks) × (c.received ≡ total chunks)

  abbrev pub Verified : Core Ctx → List (List ℕ) → Type 0
  Verified c chunks =
      Worth c
      × (total chunks ≡ c.offer.size_bytes)
      × (c.hash ≡ (h.final (hashed chunks)).1)
      × (same_bytes (h.final (hashed chunks)).0 c.offer.sha256 ≡ true)

  abbrev By : Core Ctx → List (List ℕ) → State → Type 0
  By c chunks idle = Unit {0}
  By c chunks failed = Unit {0}
  By c chunks offered = Worth c
  By c chunks downloading = Worth c × Fed c chunks
  By c chunks ready = Verified c chunks

  abbrev Inv : List (List ℕ) → Core Ctx → Type 0
  Inv chunks c = (c.partition_bytes < u32_mod) × By c chunks c.state

  By-offered :
      (c : Core Ctx) (chunks : List (List ℕ)) (s : State)
      → is_offered s ≡ true
      → By c chunks s
      → Worth c
  By-offered c chunks idle e v = absurd (ground (arith, e))
  By-offered c chunks offered e v = v
  By-offered c chunks downloading e v = absurd (ground (arith, e))
  By-offered c chunks ready e v = absurd (ground (arith, e))
  By-offered c chunks failed e v = absurd (ground (arith, e))

  By-downloading :
      (c : Core Ctx) (chunks : List (List ℕ)) (s : State)
      → is_downloading s ≡ true
      → By c chunks s
      → Worth c × Fed c chunks
  By-downloading c chunks idle e v = absurd (ground (arith, e))
  By-downloading c chunks offered e v = absurd (ground (arith, e))
  By-downloading c chunks downloading e v = v
  By-downloading c chunks ready e v = absurd (ground (arith, e))
  By-downloading c chunks failed e v = absurd (ground (arith, e))

  By-still :
      (c : Core Ctx) (chunks : List (List ℕ)) (s : State)
      → is_downloading s ≡ true
      → Worth c × Fed c chunks
      → By c chunks s
  By-still c chunks idle e v = tt
  By-still c chunks offered e v = v.0
  By-still c chunks downloading e v = v
  By-still c chunks ready e v = absurd (ground (arith, e))
  By-still c chunks failed e v = tt

  By-rejected :
      (c : Core Ctx) (chunks : List (List ℕ)) (r : Reject) (s : State)
      → By c chunks s
      → By (record c { reject = r }) chunks s
  By-rejected c chunks r idle v = v
  By-rejected c chunks r offered v = v
  By-rejected c chunks r downloading v = v
  By-rejected c chunks r ready v = v
  By-rejected c chunks r failed v = v

  InvOf : List (List ℕ) → Bool × Core Ctx → Type 0
  InvOf chunks (b, c) = Inv chunks c

  -- What holds once `bytes` were fed.
  abbrev InvFed : List (List ℕ) → List ℕ → Bool × Core Ctx → Type 0
  InvFed older bytes r = Inv (if r.0 then bytes ∷ older else older) r.1

  consider-Inv :
      (chunks : List (List ℕ)) (c : Core Ctx) (o : Offer)
      → Inv chunks c
      → Inv chunks (consider h c o).1
  unfolding consider InvOf
  consider-Inv chunks c o v =
      if_elim (InvOf chunks) (is_empty o.version || o.size_bytes == 0) _ _
        (λ _. (v.0, By-rejected c chunks malformed c.state v.1))
        λ _.
          if_elim (InvOf chunks) (not (newer (version_compare o.version c.current_version))) _ _
            (λ _. (v.0, By-rejected c chunks not_newer c.state v.1))
            λ is_newer.
              if_elim (InvOf chunks) (ltb c.partition_bytes o.size_bytes) _ _
                (λ _. (v.0, By-rejected c chunks too_big c.state v.1))
                λ fits. (v.0, (ground (arith, is_newer), ground (arith, fits)))

  begin-Inv :
      (chunks : List (List ℕ)) (c : Core Ctx)
      → Inv chunks c
      → Inv (took c chunks begins) (begin h c)
  unfolding begin
  begin-Inv chunks c v = elim (Bool-cases (is_offered c.state)) [
    | inl e ↦ rw e (v.0, (By-offered c chunks c.state e v.1, (refl, refl)))
    | inr e ↦ rw e v
  ]

  feed-Inv :
      (chunks : List (List ℕ)) (c : Core Ctx) (bytes : List ℕ)
      → Inv chunks c
      → InvFed chunks bytes (feed h c bytes)
  unfolding feed
  feed-Inv chunks c bytes v =
      if_elim (InvFed chunks bytes) (not (is_downloading c.state)) _ _ (λ _. v)
        λ e.
          if_elim (InvFed chunks bytes) (ltb c.offer.size_bytes (c.received + length bytes)) _ _
            (λ _. (v.0, tt))
            λ fits.
              let on : is_downloading c.state ≡ true = ground (arith, e) in
              let d = By-downloading c chunks c.state on v.1 in
              let room : c.received + length bytes ≤ c.offer.size_bytes = ground (arith, fits) in
              let fed = record c {
                hash = h.update c.hash bytes;
                received = (c.received + length bytes) % u32_mod;
              } in
              (
                v.0,
                By-still fed (bytes ∷ chunks) c.state on (
                  d.0,
                  (ap (λ k. h.update k bytes) d.1.0, omega (arith, d.1.1, room, d.0.1, v.0)),
                ),
              )

  finish-Inv : (chunks : List (List ℕ)) (c : Core Ctx) → Inv chunks c → Inv chunks (finish h c).1
  unfolding finish InvOf
  finish-Inv chunks c v =
      if_elim (InvOf chunks) (not (is_downloading c.state)) _ _ (λ _. v)
        λ e.
          if_elim (InvOf chunks) (not (c.received == c.offer.size_bytes)) _ _ (λ _. (v.0, tt))
            λ full.
              if_elim (InvOf chunks) (not (same_bytes (h.final c.hash).0 c.offer.sha256)) _ _
                (λ _. (v.0, tt))
                λ same.
                  let d = By-downloading c chunks c.state (ground (arith, e)) v.1 in
                  (
                    v.0,
                    (
                      d.0,
                      ground (arith, full, d.1.1),
                      ap (λ k. (h.final k).1) d.1.0,
                      ap (λ k. same_bytes (h.final k).0 c.offer.sha256) (sym d.1.0)
                          ∙ ground (arith, same),
                    ),
                  )

  step-Inv :
      (chunks : List (List ℕ)) (c : Core Ctx) (call : Call)
      → Inv chunks c
      → Inv (took c chunks call) (step c call)
  step-Inv chunks c (considers o) v = consider-Inv chunks c o v
  step-Inv chunks c begins v = begin-Inv chunks c v
  step-Inv chunks c finishes v = finish-Inv chunks c v
  step-Inv chunks c (feeds bytes) v = feed-Inv chunks c bytes v
  step-Inv chunks c (aborts why) v = (v.0, tt)

  run-Inv :
      (chunks : List (List ℕ)) (c : Core Ctx) (calls : List Call)
      → Inv chunks c
      → Inv (accepted c chunks calls) (run c calls)
  run-Inv chunks c [] v = v
  run-Inv chunks c (call ∷ calls) v =
      run-Inv (took c chunks call) (step c call) calls (step-Inv chunks c call v)

  By-ready :
      (c : Core Ctx) (chunks : List (List ℕ)) (s : State)
      → s ≡ ready
      → By c chunks s
      → Verified c chunks
  By-ready c chunks idle e v = absurd (ground (arith, e))
  By-ready c chunks offered e v = absurd (ground (arith, e))
  By-ready c chunks downloading e v = absurd (ground (arith, e))
  By-ready c chunks ready e v = v
  By-ready c chunks failed e v = absurd (ground (arith, e))

  -- Whatever calls are made after the start, an image that is ready to install is the one of an
  -- offer that is newer than what runs and fits the partition: the chunks that feed accepted since
  -- the last begin are together as long as the offer says, and the digest that the hash gives for
  -- them, in their order, is the offer's; the context is the one that final leaves. Condition: the
  -- size of the partition is one of 32 bits.
  pub ready-Verified :
      (blank : Ctx) (version : List ℕ) (partition : ℕ) (calls : List Call)
      → partition < u32_mod
      → (run (init h blank version partition) calls).state ≡ ready
      → Verified
          (run (init h blank version partition) calls)
          (accepted (init h blank version partition) [] calls)
  ready-Verified blank version partition calls small e =
      let c0 = init h blank version partition in
      let c = run c0 calls in
      By-ready c (accepted c0 [] calls) c.state e (run-Inv [] c0 calls (small, tt)).1
