-- ===== src/Kernel/Store/Keep.antt =====
-- A history of the store, and a restart after it.
use nev_os.Base.{
  ℕ, ◌≡◌, refl, ap, Bool, true, false, not, ◌||◌, List, arith, if_elim, if◌then◌else◌, All,
}
use nev_os.Kernel.Store.Table.{Desc}
use nev_os.Kernel.Store.{
  Err, ok, invalid_arg, invalid_state, backend, is_ok, Backend, Decimal, Slot, commit_from, Store,
  commit, desc_at, mark_dirty, set_num, set_str, tick,
}
use nev_os.Kernel.Store.Laws.{
  IsBackend, IsDecimal, IsDesc, FitsTable, Durable, Lines, Each, Each-set,
}
use nev_os.Kernel.Store.Moves.{IsDesc-desc_at, set_num-moves, set_str-moves, tick-moves}
use nev_os.Kernel.Store.Commit.{values, Ranged, Clean, Agrees, Each-Agrees, commit_from-Saved}

module _ {Disk : Type 0} (b : Backend Disk) (c : Decimal) (ds : List Desc) where
  -- What is not waiting to be written back lasts.
  pub record Kept (s : Store Disk) : Type 0 where
    pub ready : s.ready ≡ true
    pub range : Each Ranged 0 ds s.slots
    pub agrees : Each (Agrees b c ds s.disk) 0 ds s.slots
    pub settled : s.dirty ≡ false → Each Clean 0 ds s.slots × (Lines b s.disk → Durable b s.disk)

  module _ (law : IsBackend b) (z : IsDecimal c) (table : All IsDesc ds) where
    mark_dirty-Kept :
        (s : Store Disk) (key : ℕ) (slot : Slot)
        → Kept s
        → FitsTable (desc_at b c ds key) slot
        → Kept (mark_dirty b c ds s key slot)
    mark_dirty-Kept s key slot h v = record {
      ready = h.ready;
      range =
          Each-set Ranged 0 ds s.slots key (record slot { dirty = true })
            (λ k. (IsDesc-desc_at b c ds table key, v)) h.range;
      agrees =
          Each-set (Agrees b c ds s.disk) 0 ds s.slots key (record slot { dirty = true })
            (λ k e. absurd (ground (arith, e))) h.agrees;
      settled = λ e. absurd (ground (arith, e));
    }

    pub set_num-Kept :
        (bus : Bool) (s : Store Disk) (key v : ℕ) → Kept s → Kept (set_num b c ds bus s key v).2
    set_num-Kept bus s key v h =
        set_num-moves b c ds table Kept bus s key v h (λ slot. mark_dirty-Kept s key slot h)

    pub set_str-Kept :
        (bus : Bool) (s : Store Disk) (key : ℕ) (text : List ℕ)
        → Kept s
        → Kept (set_str b c ds bus s key text).2
    set_str-Kept bus s key text h =
        set_str-moves b c ds table Kept bus s key text h (λ slot. mark_dirty-Kept s key slot h)

    is_ok-both :
        (worst frc : Err)
        → is_ok (if is_ok frc then worst else frc) ≡ true
        → (worst ≡ ok) × (frc ≡ ok)
    is_ok-both ok ok e = (refl, refl)
    is_ok-both worst invalid_arg e = absurd (ground (arith, e))
    is_ok-both worst invalid_state e = absurd (ground (arith, e))
    is_ok-both worst (backend n) e = absurd (ground (arith, e))
    is_ok-both invalid_arg ok e = absurd (ground (arith, e))
    is_ok-both invalid_state ok e = absurd (ground (arith, e))
    is_ok-both (backend n) ok e = absurd (ground (arith, e))

    -- A commit keeps all values, and after one that succeeds nothing is waiting.
    pub commit-Kept :
        (s : Store Disk)
        → Kept s
        → Kept (commit b c ds s).1
          × (values ds (commit b c ds s).1.slots ≡ values ds s.slots)
          × ((commit b c ds s).0 ≡ ok → (commit b c ds s).1.dirty ≡ false)
    unfolding commit
    commit-Kept s h =
        let P : Err × Store Disk → Type 0 = λ r.
          Kept r.1 × (values ds r.1.slots ≡ values ds s.slots) × (r.0 ≡ ok → r.1.dirty ≡ false) in
        if_elim P (not s.ready || not s.dirty) _ _
          (λ idle. (h, refl, λ e. ground (arith, idle, h.ready)))
          (λ busy.
            let r = commit_from b c ds 0 ds s.slots s.disk ok in
            let saved = commit_from-Saved b c ds 0 ds s.slots s.disk ok law z h.range h.agrees in
            let f = b.flush r.1 in
            (
              record {
                ready = h.ready;
                range = saved.range;
                agrees =
                    Each-Agrees b c ds r.1 f.0 0 ds r.0 (λ k le. law.load-flush r.1 k) saved.agrees;
                settled = λ e.
                    let both = is_ok-both r.2 f.1 (ground (arith, e)) in
                    (saved.clean both.0, law.flushed r.1 both.1);
              },
              saved.same,
              λ e. ap (λ x. not (is_ok x)) e,
            ))

    pub tick-Kept : (s : Store Disk) (now : ℕ) → Kept s → Kept (tick b c ds s now)
    tick-Kept s now h =
        let stamped : (t : ℕ) → Kept (record s { dirty_since_ms = t }) = λ t. record {
          ready = h.ready;
          range = h.range;
          agrees = h.agrees;
          settled = h.settled;
        } in
        tick-moves b c ds table Kept s now h stamped
          (commit-Kept (record s { dirty_since_ms = 0 }) (stamped 0)).0
