-- ===== src/Kernel/Blob/Buffers.antt =====
-- Where the buffers lie.
use nev_os.Base.{ℕ, suc, ◌+◌, ◌*◌, ◌≤◌, ◌<◌, ◌≡◌, subst, sym, ◌≢◌, ◌⊎◌, inl, inr, some, arith, ◌^◌}
use native.Mathlib.Decide.{ℕ_discrete, dec_lt}
use nev_os.Kernel.Blob.{Pool, class_at, blob_data, handle_valid, handle_class, handle_index}

blob_data-some :
    (p : Pool) (h c o : ℕ)
    → blob_data p h ≡ some (c, o)
    → (handle_class h ≡ c)
      × (handle_index h * (class_at p c).block_size ≡ o)
      × (handle_index h < (class_at p c).capacity)
unfolding blob_data handle_valid
blob_data-some p h c o e = ground arith

next_block : (i j s : ℕ) → i < j → i * s + s ≤ j * s
next_block i j s lt = let e : suc i * s ≤ j * s = grind arith in omega (arith, e)

one_class :
    (p : Pool) (h k c o q : ℕ)
    → h < 2 ^ 16
    → k < 2 ^ 16
    → h ≢ k
    → blob_data p h ≡ some (c, o)
    → blob_data p k ≡ some (c, q)
    → (o + (class_at p c).block_size ≤ q) ⊎ (q + (class_at p c).block_size ≤ o)
one_class p h k c o q hh hk ne eh ek =
    let size = (class_at p c).block_size in
    let x = blob_data-some p h c o eh in
    let y = blob_data-some p k c q ek in
    elim (dec_lt (handle_index h) (handle_index k)) [
      | yes lt ↦ inl (omega (arith, x.1, y.1, next_block (handle_index h) (handle_index k) size lt))
      | no ge ↦ inr (
          omega (
            arith,
            x.1,
            y.1,
            next_block (handle_index k) (handle_index h) size (omega (arith, x.0, y.0)),
          ))
    ]

-- The buffers of two valid handles that differ lie in the storage of their classes, and do not
-- overlap: they are in different classes, or one ends before the other begins.
pub buffers_disjoint :
    (p : Pool) (h k c d o q : ℕ)
    → h < 2 ^ 16
    → k < 2 ^ 16
    → h ≢ k
    → blob_data p h ≡ some (c, o)
    → blob_data p k ≡ some (d, q)
    → (o + (class_at p c).block_size ≤ (class_at p c).block_size * (class_at p c).capacity)
      × ((c ≢ d) ⊎ (o + (class_at p c).block_size ≤ q) ⊎ (q + (class_at p d).block_size ≤ o))
buffers_disjoint p h k c d o q hh hk ne eh ek =
    let x = blob_data-some p h c o eh in
    let y = blob_data-some p k d q ek in
    (
      omega (
        arith,
        x.1,
        next_block (handle_index h) (class_at p c).capacity (class_at p c).block_size x.2,
      ),
      elim (ℕ_discrete c d) [
        | no other ↦ inl other
        | yes e ↦ inr (
            subst (λ z. (o + (class_at p c).block_size ≤ q) ⊎ (q + (class_at p z).block_size ≤ o)) e
              (one_class p h k c o q hh hk ne eh
                (subst (λ z. blob_data p k ≡ some (z, q)) (sym e) ek)))
      ],
    )
