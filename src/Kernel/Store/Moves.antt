-- ===== src/Kernel/Store/Moves.antt =====
-- The branches of the operations that change a setting, for any predicate of stores.
use nev_os.Base.{
  ℕ, Bool, not, ◌||◌, List, arith, if_elim, if◌then◌else◌, leb, ltb, ◌==◌, length, All, All-get_or,
  sub32, ltb_false→le,
}
use nev_os.Kernel.Store.Table.{Desc, blank, is_text, clamp_num, text_limit}
use nev_os.Kernel.Store.{
  Err, Backend, Decimal, Slot, Store, Changed, commit, desc_at, slot_at, mark_dirty, set_num,
  set_str, same_text, tick, writeback_delay_ms,
}
use nev_os.Kernel.Store.Laws.{IsDesc, FitsTable, clamp_num-range}

blank-IsDesc : IsDesc blank
blank-IsDesc = record { ordered = omega arith; word = omega arith }

module _ {Disk : Type 0} (b : Backend Disk) (c : Decimal) (ds : List Desc)
    (table : All IsDesc ds) where
  pub IsDesc-desc_at : (key : ℕ) → IsDesc (desc_at b c ds key)
  IsDesc-desc_at key = All-get_or IsDesc ds key blank table blank-IsDesc

  module _ (P : Store Disk → Type 0) where
    -- A change is one of a setting, to a value in its range.
    pub set_num-moves :
        (bus : Bool) (s : Store Disk) (key v : ℕ)
        → P s
        → ((slot : Slot) → FitsTable (desc_at b c ds key) slot → P (mark_dirty b c ds s key slot))
        → P (set_num b c ds bus s key v).2
    unfolding set_num
    set_num-moves bus s key v h marked =
        let Q : Err × List Changed × Store Disk → Type 0 = λ r. P r.2 in
        let d = desc_at b c ds key in
        if_elim Q (leb (length ds) key) _ _ (λ e. h)
          (λ e1.
            if_elim Q (is_text d) _ _ (λ e. h)
              (λ number.
                if_elim Q (not s.ready) _ _ (λ e. h)
                  (λ e3.
                    if_elim Q (clamp_num d v == (slot_at b c ds s key).num) _ _ (λ e. h)
                      (λ e4.
                        marked (record (slot_at b c ds s key) { num = clamp_num d v })
                          (
                            λ f. absurd (ground (arith, f, number)),
                            λ f. clamp_num-range d v (IsDesc-desc_at key),
                          )))))

    pub set_str-moves :
        (bus : Bool) (s : Store Disk) (key : ℕ) (text : List ℕ)
        → P s
        → ((slot : Slot) → FitsTable (desc_at b c ds key) slot → P (mark_dirty b c ds s key slot))
        → P (set_str b c ds bus s key text).2
    unfolding set_str
    set_str-moves bus s key text h marked =
        let Q : Err × List Changed × Store Disk → Type 0 = λ r. P r.2 in
        let d = desc_at b c ds key in
        if_elim Q (leb (length ds) key) _ _ (λ e. h)
          (λ e1.
            if_elim Q (not (is_text d)) _ _ (λ e. h)
              (λ not_number.
                if_elim Q (not s.ready) _ _ (λ e. h)
                  (λ e3.
                    if_elim Q (ltb (text_limit d) (length text)) _ _ (λ e. h)
                      (λ fits.
                        if_elim Q (same_text text (slot_at b c ds s key).str) _ _ (λ e. h)
                          (λ e4.
                            marked (record (slot_at b c ds s key) { str = text })
                              (
                                λ f. ltb_false→le (text_limit d) (length text) fits,
                                λ f. absurd (ground (arith, f, not_number)),
                              ))))))

    pub tick-moves :
        (s : Store Disk) (now : ℕ)
        → P s
        → ((t : ℕ) → P (record s { dirty_since_ms = t }))
        → P (commit b c ds (record s { dirty_since_ms = 0 })).1
        → P (tick b c ds s now)
    unfolding tick
    tick-moves s now h stamped committed =
        if_elim P (not s.ready || not s.dirty) _ _ (λ e. h)
          (λ e1.
            if_elim P (s.dirty_since_ms == 0) _ _ (λ e. stamped (if now == 0 then 1 else now))
              (λ e2.
                if_elim P (leb writeback_delay_ms (sub32 now s.dirty_since_ms)) _ _ (λ e. committed)
                  (λ e. h)))
