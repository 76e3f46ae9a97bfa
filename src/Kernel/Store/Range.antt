-- ===== src/Kernel/Store/Range.antt =====
-- Every setting stays in its range, whatever the backend answers.
use nev_os.Base.{
  ℕ, ◌+◌, ◌≡◌, subst, sym, true, false, not, ◌||◌, Bool-cases, inl, inr, List, [], ◌∷◌, if_elim,
  if_else, All,
}
use nev_os.Kernel.Store.Table.{Desc}
use nev_os.Kernel.Store.{
  Err, ok, is_ok, Backend, Decimal, Slot, Store, Changed, defaults, text_of, commit_from, commit,
  init, factory_reset,
}
use nev_os.Kernel.Store.Laws.{IsDesc, FitsTable, Each, Each-set, Each-map}
use nev_os.Kernel.Store.Slots.{apply_default-FitsTable}
use nev_os.Kernel.Store.Commit.{Ranged}
use nev_os.Kernel.Store.Moves.{IsDesc-desc_at, set_num-moves, set_str-moves, tick-moves}
use nev_os.Kernel.Store.Loads.{load_from-Ranged}
use nev_os.Kernel.Store.Restart.{Call, sets_num, sets_str, ticks, commits, resets, step, run}

module _ {Disk : Type 0} (b : Backend Disk) (c : Decimal) (ds : List Desc)
    (table : All IsDesc ds) where
  AllRanged : Store Disk → Type 0
  AllRanged s = Each Ranged 0 ds s.slots

  defaults-Ranged :
      (i : ℕ) (rest : List Desc) (ss : List Slot)
      → All IsDesc rest
      → Each Ranged i rest (defaults b c ds rest ss)
  defaults-Ranged i [] ss h = tt
  defaults-Ranged i (d ∷ rest) [] h = tt
  defaults-Ranged i (d ∷ rest) (s ∷ ss) h =
      ((h.0, apply_default-FitsTable b c ds d s h.0), defaults-Ranged (i + 1) rest ss h.1)

  commit_from-Ranged :
      (i : ℕ) (rest : List Desc) (ss : List Slot) (disk : Disk) (worst : Err)
      → Each Ranged i rest ss
      → Each Ranged i rest (commit_from b c ds i rest ss disk worst).0
  unfolding commit_from
  commit_from-Ranged i [] ss disk worst h = tt
  commit_from-Ranged i (d ∷ rest) [] disk worst h = tt
  commit_from-Ranged i (d ∷ rest) (s ∷ ss) disk worst h = elim (Bool-cases s.dirty) [
    | inr clean ↦ simp clean (h.0, commit_from-Ranged (i + 1) rest ss disk worst h.1)
    | inl dirty ↦
        let saved = b.save disk i (text_of b c ds d s) in
        elim (Bool-cases (is_ok saved.1)) [
          | inl did ↦ simp (dirty, did) (h.0, commit_from-Ranged (i + 1) rest ss saved.0 worst h.1)
          | inr failed ↦
              simp (dirty, failed) (h.0, commit_from-Ranged (i + 1) rest ss saved.0 saved.1 h.1)
        ]
  ]

  commit-Ranged : (s : Store Disk) → AllRanged s → AllRanged (commit b c ds s).1
  unfolding commit AllRanged
  commit-Ranged s h =
      let P : Err × Store Disk → Type 0 = λ r. Each Ranged 0 ds (r.1).slots in
      if_elim P (not s.ready || not s.dirty) _ _ (λ e. h)
        (λ e. commit_from-Ranged 0 ds s.slots s.disk ok h)

  step-Ranged : (s : Store Disk) (call : Call) → AllRanged s → AllRanged (step b c ds s call)
  unfolding AllRanged factory_reset
  step-Ranged s (sets_num bus key v) h =
      set_num-moves b c ds table AllRanged bus s key v h (λ slot r.
        Each-set Ranged 0 ds s.slots key (record slot { dirty = true })
          (λ k. (IsDesc-desc_at b c ds table key, r)) h)
  step-Ranged s (sets_str bus key text) h =
      set_str-moves b c ds table AllRanged bus s key text h (λ slot r.
        Each-set Ranged 0 ds s.slots key (record slot { dirty = true })
          (λ k. (IsDesc-desc_at b c ds table key, r)) h)
  step-Ranged s (ticks now) h =
      tick-moves b c ds table AllRanged s now h (λ t. h)
        (commit-Ranged (record s { dirty_since_ms = 0 }) h)
  step-Ranged s commits h = commit-Ranged s h
  step-Ranged s (resets bus) h =
      let P : Err × List Changed × Store Disk → Type 0 = λ r. Each Ranged 0 ds (r.2).slots in
      if_elim P (not s.ready) _ _ (λ e. h) (λ e. defaults-Ranged 0 ds s.slots table)

  run-Ranged : (s : Store Disk) (calls : List Call) → AllRanged s → AllRanged (run b c ds s calls)
  run-Ranged s [] h = h
  run-Ranged s (call ∷ calls) h = run-Ranged (step b c ds s call) calls (step-Ranged s call h)

  init-Ranged : (s : Store Disk) → s.ready ≡ false → AllRanged (init b c ds s)
  unfolding init AllRanged
  init-Ranged s off =
      subst (λ (x : Store Disk). Each Ranged 0 ds x.slots) (sym (if_else s.ready _ _ off))
        (if_elim (λ (x : Store Disk). Each Ranged 0 ds x.slots) (not (is_ok (b.start s.disk).1)) _ _
          (λ e. defaults-Ranged 0 ds s.slots table)
          (λ e. load_from-Ranged b c ds (b.start s.disk).0 0 ds s.slots table))

  -- Whatever calls are made after the start, and whatever the backend and the C library answer,
  -- every number of the settings is in its range, and no text is longer than the table allows; a
  -- least length of a text is not checked, and nothing is said of it. Condition: the ranges of the
  -- table are not empty, and below 2 ^ 32.
  pub settings_bounded :
      (s : Store Disk) (calls : List Call)
      → s.ready ≡ false
      → Each (λ i d slot. FitsTable d slot) 0 ds (run b c ds (init b c ds s) calls).slots
  unfolding AllRanged
  settings_bounded s calls off =
      let t = run b c ds (init b c ds s) calls in
      Each-map Ranged (λ i d slot. FitsTable d slot) 0 ds t.slots (λ i d slot le r. r.1)
        (run-Ranged (init b c ds s) calls (init-Ranged s off))
