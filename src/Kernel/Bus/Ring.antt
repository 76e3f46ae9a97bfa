-- ===== src/Kernel/Bus/Ring.antt =====
-- The queued events of a subscriber, oldest first, read off its ring.
use native.Mathlib.Nat.{mod-eq_of_lt, mod-eq-sub-mod}
use native.Mathlib.Decide.{dec_lt, ℕ_discrete}
use nev_os.Base.{
  ℕ, zero, suc, ◌+◌, ◌-◌, ◌%◌, ◌≤◌, ◌<◌, ◌≡◌, refl, sym, ap, ◌∙◌, ◌⊎◌, inl, inr, List, [], ◌∷◌,
  ◌++◌, arith, length, get_or, set, length-append, set-append, set-append_last, get_or-set_self,
  get_or-set_ne, get_or-append, get_or-append_last, subst,
}
use nev_os.Kernel.Bus.Events.{Event, event_zero}
use nev_os.Kernel.Bus.Subscriber.{Sub, wrap}

-- A step of at most `depth` from inside the ring comes round at most once.
pub wrap_cases :
    (t k d : ℕ)
    → t < d
    → k ≤ d
    → d ≤ 32
    → ((t + k < d) × (wrap t k d ≡ t + k)) ⊎ ((d ≤ t + k) × (wrap t k d ≡ t + k - d))
wrap_cases t k d ht hk hd = elim (dec_lt (t + k) d) [
  | yes p ↦ inl (p, omega (arith, mod-eq_of_lt p))
  | no p ↦
      let small : t + k - d < d = omega arith in
      let round : (t + k) % d ≡ (t + k - d) % d = mod-eq-sub-mod (omega arith) in
      inr (omega arith, omega (arith, round, mod-eq_of_lt small))
]

-- Different places of one ring are different indices.
pub wrap_injective :
    (t j k d : ℕ) → t < d → j < d → k < d → d ≤ 32 → wrap t j d ≡ wrap t k d → j ≡ k
wrap_injective t j k d ht hj hk hd e =
    omega (arith, wrap_cases t j d ht (omega arith) hd, wrap_cases t k d ht (omega arith) hd)

pub wrap-lt : (t k d : ℕ) → t < d → k ≤ d → d ≤ 32 → wrap t k d < d
wrap-lt t k d ht hk hd = omega (arith, wrap_cases t k d ht hk hd)

pub wrap-wrap : (t j d : ℕ) → t < d → j < d → d ≤ 32 → wrap (wrap t 1 d) j d ≡ wrap t (suc j) d
wrap-wrap t j d ht hj hd = omega (
  arith,
  wrap_cases t 1 d ht (omega arith) hd,
  wrap_cases (wrap t 1 d) j d (wrap-lt t 1 d ht (omega arith) hd) (omega arith) hd,
  wrap_cases t (suc j) d ht hj hd,
)

-- The n events from index t on, the newest last.
abbrev pub events_from : List Event → ℕ → ℕ → ℕ → List Event
events_from ring d t zero = []
events_from ring d t (suc n) = events_from ring d t n ++ get_or ring (wrap t n d) event_zero ∷ []

abbrev pub queued : Sub → List Event
queued s = events_from s.ring s.depth s.tail s.count

pub length-events_from : (ring : List Event) (d t n : ℕ) → length (events_from ring d t n) ≡ n
length-events_from ring d t zero = refl
length-events_from ring d t (suc n) = omega (
  arith,
  length-append (events_from ring d t n) (get_or ring (wrap t n d) event_zero ∷ []),
  length-events_from ring d t n,
)

-- Taking the oldest leaves the rest.
pub events_from-cons :
    (ring : List Event) (d t n : ℕ)
    → t < d
    → n < d
    → d ≤ 32
    → events_from ring d t (suc n) ≡ get_or ring t event_zero ∷ events_from ring d (wrap t 1 d) n
events_from-cons ring d t zero ht hn hd =
    ap (λ i. get_or ring i event_zero ∷ []) (omega (arith, wrap_cases t 0 d ht (omega arith) hd))
events_from-cons ring d t (suc n) ht hn hd = rw (events_from-cons ring d t n ht (omega arith) hd) (
    ap
      (λ i.
        (get_or ring t event_zero ∷ events_from ring d (wrap t 1 d) n)
        ++ get_or ring i event_zero ∷ [])
      (sym (wrap-wrap t n d ht (omega arith) hd)))

-- A queued event by its place.
pub get_or-events_from :
    (ring : List Event) (d t n k : ℕ)
    → k < n
    → get_or (events_from ring d t n) k event_zero ≡ get_or ring (wrap t k d) event_zero
get_or-events_from ring d t zero k h = absurd (omega arith)
get_or-events_from ring d t (suc n) k h = elim (ℕ_discrete k n) [
  | yes e ↦
      get_or-append_last (events_from ring d t n) _ k event_zero
        (omega (arith, e, length-events_from ring d t n))
      ∙ ap (λ j. get_or ring (wrap t j d) event_zero) (sym e)
  | no ne ↦
      get_or-append (events_from ring d t n) _ k event_zero
        (omega (arith, ne, length-events_from ring d t n))
      ∙ get_or-events_from ring d t n k (omega (arith, ne))
]

-- One step on from place k is place k + 1.
pub wrap_next : (t k d : ℕ) → t < d → k < d → d ≤ 32 → wrap (wrap t k d) 1 d ≡ wrap t (suc k) d
wrap_next t k d ht hk hd = omega (
  arith,
  wrap_cases t k d ht (omega arith) hd,
  wrap_cases (wrap t k d) 1 d (wrap-lt t k d ht (omega arith) hd) (omega arith) hd,
  wrap_cases t (suc k) d ht hk hd,
)

module _ (ring : List Event) (d t k : ℕ) (v : Event) (ht : t < d) (hd : d ≤ 32) (hk : k < d)
    (fits : d ≤ length ring) where
  written : (n : ℕ) → k ≡ n → get_or (set ring (wrap t k d) v) (wrap t n d) event_zero ≡ v
  written n e =
      subst (λ j. get_or (set ring (wrap t k d) v) (wrap t j d) event_zero ≡ v) e
        (get_or-set_self ring (wrap t k d) v event_zero
          (omega (arith, wrap-lt t k d ht (omega arith) hd)))

  -- A write at place k is not seen before it.
  pub events_from-set_past :
      (n : ℕ) → n ≤ k → events_from (set ring (wrap t k d) v) d t n ≡ events_from ring d t n
  events_from-set_past zero h = refl
  events_from-set_past (suc n) h = rw (events_from-set_past n (omega arith)) (
      ap (λ e. events_from ring d t n ++ e ∷ [])
        (get_or-set_ne ring (wrap t k d) (wrap t n d) v event_zero
          λ e. omega (arith, wrap_injective t k n d ht hk (omega arith) hd e)))

  -- It changes that one event.
  pub events_from-set :
      (n : ℕ)
      → k < n
      → n ≤ d
      → events_from (set ring (wrap t k d) v) d t n ≡ set (events_from ring d t n) k v
  events_from-set zero h hn = absurd (omega arith)
  events_from-set (suc n) h hn = elim (ℕ_discrete k n) [
    | yes e ↦
        rw (events_from-set_past n (omega arith), written n e)
          (sym (
            set-append_last (events_from ring d t n) _ k v
              (omega (arith, length-events_from ring d t n))))
    | no ne ↦
        rw
          (
            events_from-set n (omega arith) (omega arith),
            get_or-set_ne ring (wrap t k d) (wrap t n d) v event_zero
                (λ e. omega (arith, ne, wrap_injective t k n d ht hk (omega arith) hd e)),
          )
          (sym (
            set-append (events_from ring d t n) _ k v
              (omega (arith, length-events_from ring d t n))))
  ]

  -- A write at the place behind the last event adds it.
  pub events_from-append :
      events_from (set ring (wrap t k d) v) d t (suc k) ≡ events_from ring d t k ++ v ∷ []
  events_from-append = rw (events_from-set_past k (omega arith), written k refl)
