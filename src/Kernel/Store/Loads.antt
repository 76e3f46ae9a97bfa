-- ===== src/Kernel/Store/Loads.antt =====
-- The settings that a start loads.
use nev_os.Base.{ℕ, ◌+◌, ◌≡◌, refl, sym, ap, ◌∙◌, none, List, [], ◌∷◌, All}
use nev_os.Kernel.Store.Table.{Desc}
use nev_os.Kernel.Store.{
  Backend, Decimal, Slot, slot_zero, apply_default, load_slot, defaults, load_from, wiped,
}
use nev_os.Kernel.Store.Laws.{IsDesc, value, Each}
use nev_os.Kernel.Store.Slots.{
  apply_default-FitsTable, load_slot-FitsTable, value-loaded, loaded_clean,
}
use nev_os.Kernel.Store.Commit.{values, Ranged, Clean, Agrees}

module _ {Disk : Type 0} (b : Backend Disk) (c : Decimal) (ds : List Desc) where
  pub load_from-Ranged :
      (disk : Disk) (i : ℕ) (rest : List Desc) (ss : List Slot)
      → All IsDesc rest
      → Each Ranged i rest (load_from b c ds disk i rest (defaults b c ds rest ss))
  load_from-Ranged disk i [] ss h = tt
  load_from-Ranged disk i (d ∷ rest) [] h = tt
  load_from-Ranged disk i (d ∷ rest) (s ∷ ss) h = (
    (
      h.0,
      load_slot-FitsTable b c ds d (b.load disk i) (apply_default b c ds d s) h.0
          (apply_default-FitsTable b c ds d s h.0),
    ),
    load_from-Ranged disk (i + 1) rest ss h.1,
  )

  pub load_from-Agrees :
      (disk : Disk) (i : ℕ) (rest : List Desc) (ss : List Slot)
      → Each (Agrees b c ds disk) i rest (load_from b c ds disk i rest (defaults b c ds rest ss))
  load_from-Agrees disk i [] ss = tt
  load_from-Agrees disk i (d ∷ rest) [] = tt
  load_from-Agrees disk i (d ∷ rest) (s ∷ ss) = (
    λ e. value-loaded b c ds d (b.load disk i) s slot_zero,
    load_from-Agrees disk (i + 1) rest ss,
  )

  pub load_from-Clean :
      (disk : Disk) (i : ℕ) (rest : List Desc) (ss : List Slot)
      → Each Clean i rest (load_from b c ds disk i rest (defaults b c ds rest ss))
  load_from-Clean disk i [] ss = tt
  load_from-Clean disk i (d ∷ rest) [] = tt
  load_from-Clean disk i (d ∷ rest) (s ∷ ss) =
      (loaded_clean b c ds d (b.load disk i) s, load_from-Clean disk (i + 1) rest ss)

  -- The defaults are what an empty disk gives.
  pub load_from-empty :
      (disk : Disk) (i : ℕ) (rest : List Desc) (ss : List Slot)
      → ((k : ℕ) → b.load disk k ≡ none)
      → load_from b c ds disk i rest (defaults b c ds rest ss) ≡ defaults b c ds rest ss
  load_from-empty disk i [] ss e = refl
  load_from-empty disk i (d ∷ rest) [] e = refl
  load_from-empty disk i (d ∷ rest) (s ∷ ss) e =
      ap
        (λ o.
          load_slot b c ds d o (apply_default b c ds d s)
          ∷ load_from b c ds disk (i + 1) rest (defaults b c ds rest ss))
        (e i)
      ∙ ap (◌∷◌ (apply_default b c ds d s)) (load_from-empty disk (i + 1) rest ss e)

  pub values-reload :
      (disk disk' : Disk) (i : ℕ) (rest : List Desc) (ss : List Slot)
      → ((k : ℕ) → b.load disk' k ≡ b.load disk k)
      → Each (Agrees b c ds disk) i rest ss
      → Each Clean i rest ss
      → values rest (load_from b c ds disk' i rest (defaults b c ds rest (wiped b c ds ss)))
        ≡ values rest ss
  values-reload disk disk' i [] ss e a clean = refl
  values-reload disk disk' i (d ∷ rest) [] e a clean = refl
  values-reload disk disk' i (d ∷ rest) (s ∷ ss) e a clean =
      ap
        (λ x.
          x
          ∷ values rest
              (load_from b c ds disk' (i + 1) rest (defaults b c ds rest (wiped b c ds ss))))
        (ap (λ o. value d (load_slot b c ds d o (apply_default b c ds d slot_zero))) (e i)
          ∙ sym (a.0 clean.0))
      ∙ ap (◌∷◌ (value d s)) (values-reload disk disk' (i + 1) rest ss e a.1 clean.1)
