-- ===== src/Kernel/Blob/Tests.antt =====
-- The pool after a few calls, with the laws at inputs that meet them.
use nev_os.Base.{
  ℕ, ◌^◌, ◌≡◌, ◌≢◌, ◌≤◌, ◌<◌, ◌+◌, ◌*◌, ◌⊎◌, ◌↔◌, refl, true, false, none, some, List, [], ◌∷◌,
  arith,
}
use nev_os.Kernel.Blob.{
  Pool, init, init_ok, alloc, retain, release, refcount, all_free, blob_data, count_failure,
  class_at, handle_valid,
}
use nev_os.Kernel.Blob.Block.{
  class_zero, class_init, free_from, take_block, retain_block, release_block, panic,
}
use nev_os.Kernel.Blob.Boot.{init-IsPool}
use nev_os.Kernel.Blob.Pools.{IsPool, IsPool-mono}
use nev_os.Kernel.Blob.Alloc.{alloc_cases, Grant, Exhausted}
use nev_os.Kernel.Blob.Leaks.{all_free_iff}
use nev_os.Kernel.Blob.Buffers.{buffers_disjoint}
use nev_os.Kernel.Blob.Ledger.{
  Op, allocates, retains, releases, call, history, history-Agrees, Returned,
}

abbrev cold : Pool
cold = record {
  ready = false;
  classes = class_zero ∷ class_zero ∷ class_zero ∷ [];
  alloc_failures = 0;
}

warm : Pool
warm = (init true (λ _. true) cold).0

-- 600 bytes go to class 1, block 0.
first_medium : (alloc warm 600 5).1 ≡ some 0x1000
unfolding warm init class_init free_from alloc take_block
first_medium = refl

abbrev script : List Op
script = allocates 600 5 ∷ retains 0x1000 ∷ releases 0x1000 ∷ releases 0x1000 ∷ []

-- The second release frees the block, and a third fails its assertion in a debug build.
double_release : history true warm (λ _. 0) (allocates 9 0 ∷ releases 0 ∷ releases 0 ∷ []) ≡ panic
unfolding warm init class_init free_from history call handle_valid alloc take_block release
    release_block
double_release = refl

warm-IsPool :
    IsPool 0 warm × ((init true (λ _. true) cold).1 ≡ init_ok) × ((h : ℕ) → refcount warm h ≡ 0)
unfolding warm
warm-IsPool = init-IsPool (λ _. true) cold refl refl refl refl

alloc_cases_example :
    ((alloc warm 600 5 ≡ (count_failure warm, none)) × Exhausted warm 600)
    ⊎ ((p' : Pool) × (h : ℕ) × (alloc warm 600 5 ≡ (p', some h))
        × IsPool 1 p'
        × Grant warm p' 600 h)
alloc_cases_example =
    alloc_cases warm 600 5 (IsPool-mono warm (omega arith) warm-IsPool.0) (omega arith)
      (omega arith) (omega arith)

all_free_iff_example : (all_free warm ≡ true) ↔ ((h : ℕ) → h < 2 ^ 16 → refcount warm h ≡ 0)
all_free_iff_example = all_free_iff warm warm-IsPool.0

buffers_disjoint_example :
    (4096 + 4096 ≤ (class_at warm 1).block_size * (class_at warm 1).capacity)
    × (◌≢◌ {A = ℕ} 1 1 ⊎ (4096 + 4096 ≤ 8192) ⊎ (8192 + 4096 ≤ 4096))
unfolding warm init class_init blob_data
buffers_disjoint_example =
    buffers_disjoint warm 0x1001 0x1002 1 1 4096 8192 (omega arith) (omega arith) (omega arith) refl
      refl

history-Agrees_example : Returned (1 + 4) (history true warm (λ _. 0) script)
unfolding warm init class_init free_from alloc take_block retain retain_block release release_block
    call handle_valid
history-Agrees_example =
    history-Agrees true script 1 warm (λ _. 0) (IsPool-mono warm (omega arith) warm-IsPool.0)
      (λ h _. warm-IsPool.2 h) (omega arith) (omega arith)
      (tt, (omega arith, (omega arith, (omega arith, tt))))
