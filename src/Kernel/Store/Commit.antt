-- ===== src/Kernel/Store/Commit.antt =====
-- Writing back: which settings are on the disk after it.
use nev_os.Base.{
  ℕ, ◌+◌, ◌≤◌, ◌<◌, ◌≡◌, ◌≢◌, ◌-◌, if◌then◌else◌, refl, sym, ap, ◌∙◌, true, false, Bool-cases, inl,
  inr, List, [], ◌∷◌, arith, length-take,
}
use nev_os.Kernel.Store.Table.{Desc, is_text, str_max}
use nev_os.Kernel.Store.{
  Err, ok, invalid_arg, invalid_state, backend, is_ok, Backend, Decimal, Slot, slot_zero,
  apply_default, load_slot, text_of, cons_slot, commit_from,
}
use nev_os.Kernel.Store.Laws.{IsBackend, IsDecimal, IsDesc, FitsTable, value, Each, Each-map}
use nev_os.Kernel.Store.Slots.{value-text_of}

abbrev pub values : List Desc → List Slot → List (ℕ × List ℕ)
values [] ss = []
values (d ∷ ds) [] = []
values (d ∷ ds) (s ∷ ss) = value d s ∷ values ds ss

-- A setting that may be read, in its range.
abbrev pub Ranged : ℕ → Desc → Slot → Type 0
Ranged i d s = IsDesc d × FitsTable d s

abbrev pub Clean : ℕ → Desc → Slot → Type 0
Clean i d s = s.dirty ≡ false

module _ {Disk : Type 0} (b : Backend Disk) (c : Decimal) (ds : List Desc) where
  -- A setting that is not dirty is what the disk has, or its default where the disk has none.
  abbrev pub Agrees : Disk → ℕ → Desc → Slot → Type 0
  Agrees disk i d s =
      s.dirty ≡ false
      → value d s ≡ value d (load_slot b c ds d (b.load disk i) (apply_default b c ds d slot_zero))

  pub Each-Agrees :
      (disk disk' : Disk) (i : ℕ) (rest : List Desc) (ss : List Slot)
      → ((k : ℕ) → i ≤ k → b.load disk' k ≡ b.load disk k)
      → Each (Agrees disk) i rest ss
      → Each (Agrees disk') i rest ss
  Each-Agrees disk disk' i rest ss e =
      Each-map (Agrees disk) (Agrees disk') i rest ss (λ k d s le a clean.
        a clean
        ∙ ap (λ o. value d (load_slot b c ds d o (apply_default b c ds d slot_zero)))
            (sym (e k le)))

  pub record Saved (i : ℕ) (rest : List Desc) (ss : List Slot) (disk : Disk) (worst : Err)
      (r : List Slot × Disk × Err) : Type 0 where
    pub earlier : (k : ℕ) → k < i → b.load r.1 k ≡ b.load disk k
    pub agrees : Each (Agrees r.1) i rest r.0
    pub range : Each Ranged i rest r.0
    pub same : values rest r.0 ≡ values rest ss
    pub was_ok : r.2 ≡ ok → worst ≡ ok
    pub clean : r.2 ≡ ok → Each Clean i rest r.0

  Saved-cons :
      (i : ℕ) (d : Desc) (s s' : Slot) (rest : List Desc) (ss : List Slot) (disk disk1 : Disk)
      (worst worst1 : Err) (r : List Slot × Disk × Err)
      → ((k : ℕ) → k ≢ i → b.load disk1 k ≡ b.load disk k)
      → value d s' ≡ value d s
      → Ranged i d s'
      → Agrees disk1 i d s'
      → (worst1 ≡ ok → (worst ≡ ok) × (s'.dirty ≡ false))
      → Saved (i + 1) rest ss disk1 worst1 r
      → Saved i (d ∷ rest) (s ∷ ss) disk worst (cons_slot b c ds s' r)
  Saved-cons i d s s' rest ss disk disk1 worst worst1 r others e v a w h = record {
    earlier = λ k less. h.earlier k (omega arith) ∙ others k (omega arith);
    agrees = (
      λ clean.
          a clean
          ∙ ap (λ o. value d (load_slot b c ds d o (apply_default b c ds d slot_zero)))
              (sym (h.earlier i (omega arith))),
      h.agrees,
    );
    range = (v, h.range);
    same = ap (λ x. x ∷ values rest r.0) e ∙ ap (◌∷◌ (value d s)) h.same;
    was_ok = λ o. (w (h.was_ok o)).0;
    clean = λ o. ((w (h.was_ok o)).1, h.clean o);
  }

  pub is_ok-ok : (e : Err) → is_ok e ≡ true → e ≡ ok
  is_ok-ok ok h = refl
  is_ok-ok invalid_arg h = absurd (ground (arith, h))
  is_ok-ok invalid_state h = absurd (ground (arith, h))
  is_ok-ok (backend n) h = absurd (ground (arith, h))

  pub commit_from-Saved :
      (i : ℕ) (rest : List Desc) (ss : List Slot) (disk : Disk) (worst : Err)
      → IsBackend b
      → IsDecimal c
      → Each Ranged i rest ss
      → Each (Agrees disk) i rest ss
      → Saved i rest ss disk worst (commit_from b c ds i rest ss disk worst)
  unfolding commit_from
  commit_from-Saved i [] ss disk worst law z v a = record {
    earlier = λ k less. refl;
    agrees = tt;
    range = tt;
    same = refl;
    was_ok = λ o. o;
    clean = λ o. tt;
  }
  commit_from-Saved i (d ∷ rest) [] disk worst law z v a = record {
    earlier = λ k less. refl;
    agrees = tt;
    range = tt;
    same = refl;
    was_ok = λ o. o;
    clean = λ o. tt;
  }
  commit_from-Saved i (d ∷ rest) (s ∷ ss) disk worst law z v a = elim (Bool-cases s.dirty) [
    | inr clean ↦ simp clean (
        Saved-cons i d s s rest ss disk disk worst worst
          (commit_from b c ds (i + 1) rest ss disk worst) (λ k ne. refl) refl v.0 a.0
          (λ o. (o, clean)) (commit_from-Saved (i + 1) rest ss disk worst law z v.1 a.1))
    | inl dirty ↦
        let text = text_of b c ds d s in
        let disk1 = (b.save disk i text).0 in
        let rc = (b.save disk i text).1 in
        let others : (k : ℕ) → k ≢ i → b.load disk1 k ≡ b.load disk k =
          λ k. law.load-save_other disk i k text in
        let later = Each-Agrees disk disk1 (i + 1) rest ss (λ k le. others k (omega arith)) a.1 in
        elim (Bool-cases (is_ok rc)) [
          | inl saved ↦
              let stored = law.load-save disk i text (is_ok-ok rc saved) (
                omega (
                  arith,
                  length-take (str_max - 1) (if is_text d then s.str else c.print s.num),
                )) in
              simp (dirty, saved)
                (Saved-cons i d s (record s { dirty = false }) rest ss disk disk1 worst worst
                  (commit_from b c ds (i + 1) rest ss disk1 worst) others refl v.0
                  (λ e. sym (
                    ap (λ o. value d (load_slot b c ds d o (apply_default b c ds d slot_zero)))
                      stored
                    ∙ value-text_of b c ds d s (apply_default b c ds d slot_zero) z v.0.0 v.0.1))
                  (λ o. (o, refl)) (commit_from-Saved (i + 1) rest ss disk1 worst law z v.1 later))
          | inr failed ↦
              simp (dirty, failed)
                (Saved-cons i d s s rest ss disk disk1 worst rc
                  (commit_from b c ds (i + 1) rest ss disk1 rc) others refl v.0
                  (λ e. absurd (ground (arith, e, dirty)))
                  (λ o. absurd (ground (arith, ap is_ok o, failed)))
                  (commit_from-Saved (i + 1) rest ss disk1 rc law z v.1 later))
        ]
  ]
