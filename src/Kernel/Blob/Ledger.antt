-- ===== src/Kernel/Blob/Ledger.antt =====
-- The ownership protocol of nev_blob.h, with a ledger that says who holds how many references.
use nev_os.Base.{
  ℕ, suc, ◌+◌, ◌-◌, ◌^◌, ◌<◌, ◌≡◌, refl, ◌≢◌, Bool, List, [], ◌∷◌, arith, length, ◌==◌,
  if◌then◌else◌, inl, inr, Option, none, some, u32_mod, subst, sym, ap,
}
use native.Mathlib.Decide.{ℕ_discrete, dec_lt}
use nev_os.Kernel.Blob.{
  Pool, handle_valid, alloc, retain, release, refcount, blob_max_len, count_failure,
}
use nev_os.Kernel.Blob.Block.{Outcome, done, panic}
use nev_os.Kernel.Blob.Pools.{IsPool, IsPool-mono}
use nev_os.Kernel.Blob.Alloc.{alloc_cases, alloc_refused}
use nev_os.Kernel.Blob.Refs.{Recounted, retain_lem, release_lem}

pub data Op : Type 0 where
  allocates : ℕ → ℕ → Op
  retains releases : ℕ → Op

-- How many references the clients hold on each handle.
abbrev pub Ledger : Type 0
Ledger = ℕ → ℕ

abbrev pub entry : Ledger → ℕ → ℕ → Ledger
entry l h n k = if k == h then n else l k

abbrev pub book : Ledger → Option ℕ → Ledger
book l none = l
book l (some h) = entry l h 1

-- The clients touch only handles on which the ledger has a reference.
abbrev pub MayCall : Ledger → Op → Type 0
MayCall l (allocates len now) = Unit {0}
MayCall l (retains h) = (h < 2 ^ 16) × (l h ≢ 0)
MayCall l (releases h) = (h < 2 ^ 16) × (l h ≢ 0)

abbrev pub Then : Outcome (Pool × Ledger) → (Pool → Ledger → Type 0) → Type 0
Then (done (p', l')) P = P p' l'
Then panic P = Unit {0}

module _ (debug : Bool) where
  -- One call, and the clients' own book-keeping of it.
  unfoldable pub call : Pool → Ledger → Op → Outcome (Pool × Ledger)
  call p l (allocates len now) = let (p', got) = alloc p len now in done (p', book l got)
  call p l (retains h) = elim (retain debug p h) [
    | done p' ↦ done (p', entry l h (l h + 1))
    | panic ↦ panic
  ]
  call p l (releases h) = elim (release debug p h) [
    | done p' ↦ done (p', entry l h (l h - 1))
    | panic ↦ panic
  ]

  -- `panic` if a call fails an assertion.
  unfoldable pub history : Pool → Ledger → List Op → Outcome (Pool × Ledger)
  history p l [] = done (p, l)
  history p l (op ∷ ops) = elim (call p l op) [ done (p', l') ↦ history p' l' ops | panic ↦ panic ]

  abbrev pub Polite : Pool → Ledger → List Op → Type 0
  Polite p l [] = Unit {0}
  Polite p l (op ∷ ops) = MayCall l op × Then (call p l op) (λ p' l'. Polite p' l' ops)

-- The pool counts what the ledger says.
abbrev pub Agrees : Pool → Ledger → Type 0
Agrees p l = (h : ℕ) → h < 2 ^ 16 → refcount p h ≡ l h

-- A call that returned, with the pool in order and the ledger right.
abbrev pub Returned : ℕ → Outcome (Pool × Ledger) → Type 0
Returned m o = (p' : Pool) × (l' : Ledger) × (o ≡ done (p', l')) × Agrees p' l' × IsPool m p'

count_failure-Agrees : (p : Pool) (l : Ledger) → Agrees p l → Agrees (count_failure p) l
unfolding refcount handle_valid
count_failure-Agrees p l a h lt = a h lt

count_failure-IsPool : {m : ℕ} (p : Pool) → IsPool m p → IsPool m (count_failure p)
count_failure-IsPool p v = record { is_ready = v.is_ready; three = v.three; each = v.each }

module _ (debug : Bool) {m : ℕ} (p : Pool) (l : Ledger) (v : IsPool m p) (a : Agrees p l) where
  failed-Returned :
      (len now : ℕ)
      → alloc p len now ≡ (count_failure p, none)
      → Returned m (call debug p l (allocates len now))
  unfolding call
  failed-Returned len now e =
      (count_failure p, l, rw e, count_failure-Agrees p l a, count_failure-IsPool p v)

  allocates-Returned : (len now : ℕ) → 0 < m → Returned m (call debug p l (allocates len now))
  unfolding call
  allocates-Returned len now pos = elim (ℕ_discrete len 0) [
    | yes z ↦ failed-Returned len now (alloc_refused p len now v.is_ready (inl z))
    | no nz ↦ elim (dec_lt blob_max_len len) [
      | yes big ↦ failed-Returned len now (alloc_refused p len now v.is_ready (inr big))
      | no small ↦ elim (alloc_cases p len now v pos nz (omega arith)) [
        | inl (e, _) ↦ failed-Returned len now e
        | inr (p', h, e, v', g) ↦
            (p', entry l h 1, rw e, (λ k lt. ground (arith, g.counts k lt, a k lt)), v')
      ]
    ]
  ]

  entry-Agrees :
      (h r : ℕ) (p' : Pool)
      → {n : ℕ} → Recounted n p p' h r
      → (s : ℕ) → r ≡ s
      → Agrees p' (entry l h s)
  entry-Agrees h r p' c s e k lt = ground (arith, c.counts k lt, a k lt)

  call-Returned :
      (op : Op) → 0 < m → suc m < u32_mod → MayCall l op → Returned (suc m) (call debug p l op)
  unfolding call
  call-Returned (allocates len now) pos small may =
      let (p', l', e, a', v') = allocates-Returned len now pos in
      (p', l', e, a', IsPool-mono p' (omega arith) v')
  call-Returned (retains h) pos small may =
      let (p', e, c) =
        retain_lem p h debug v may.0 (subst (λ n. n ≢ 0) (sym (a h may.0)) may.1) small in
      (
        p',
        entry l h (l h + 1),
        rw (e, call),
        entry-Agrees h _ p' c _ (ap (λ n. n + 1) (a h may.0)),
        c.in_order,
      )
  call-Returned (releases h) pos small may =
      let (p', e, c) =
        release_lem p h v may.0 (subst (λ n. n ≢ 0) (sym (a h may.0)) may.1) debug (omega arith) in
      (
        p',
        entry l h (l h - 1),
        rw (e, call),
        entry-Agrees h _ p' c _ (ap (λ n. n - 1) (a h may.0)),
        IsPool-mono p' (omega arith) c.in_order,
      )

-- In either build, a history of fewer than 2^32 calls by clients that touch only what they hold
-- never fails an assertion, and at its end each handle's count is exactly the number of references
-- that the clients hold on it.
pub history-Agrees :
    (debug : Bool) (ops : List Op) (m : ℕ) (p : Pool) (l : Ledger)
    → IsPool m p
    → Agrees p l
    → 0 < m
    → m + length ops < u32_mod
    → Polite debug p l ops
    → Returned (m + length ops) (history debug p l ops)
unfolding history
history-Agrees debug [] m p l v a pos small polite = (p, l, refl, a, IsPool-mono p (omega arith) v)
history-Agrees debug (op ∷ ops) m p l v a pos small polite =
    let (p', l', e, a', v') = call-Returned debug p l v a op pos (omega arith) polite.0 in
    let (q, k, e', b, w) =
      history-Agrees debug ops (suc m) p' l' v' a' (omega arith) (omega arith)
        (subst (λ o. Then o (λ q k. Polite debug q k ops)) e polite.1) in
    (q, k, rw (e, history) e', b, IsPool-mono q (omega arith) w)
