-- ===== src/Kernel/Store/Slots.antt =====
-- One setting: set from a text, loaded, and printed for the backend.
use nev_os.Base.{
  ℕ, zero, suc, ◌-◌, ◌%◌, ◌≤◌, ◌<◌, ◌≡◌, refl, sym, ap, ◌∙◌, Bool, true, false, Option, none, some,
  List, [], ◌∷◌, length, take, u32_mod, arith, if_elim, if_elim_both, if_then, if_else, length-take,
  if◌then◌else◌,
}
use nev_os.Kernel.Store.Table.{Desc, is_text, clamp_num, text_limit, str_max}
use nev_os.Kernel.Store.{
  Backend, Decimal, Slot, set_from, apply_default, load_slot, text_of, number,
}
use nev_os.Kernel.Store.Laws.{
  IsDecimal, IsDesc, FitsTable, value, text_value, num_value, clamp_num-range, clamp_num-id,
  text_limit-small,
}

pub take-short : (n : ℕ) (xs : List ℕ) → length xs ≤ n → take n xs ≡ xs
take-short zero [] h = refl
take-short zero (x ∷ xs) h = absurd (omega arith)
take-short (suc n) [] h = refl
take-short (suc n) (x ∷ xs) h = ap (◌∷◌ x) (take-short n xs (omega arith))

module _ {Disk : Type 0} (b : Backend Disk) (c : Decimal) (ds : List Desc) where
  set_from-FitsTable :
      (d : Desc) (text : List ℕ) (s : Slot) → IsDesc d → FitsTable d (set_from b c ds d text s)
  set_from-FitsTable d text s h =
      if_elim (FitsTable d) (is_text d) _ _
        (λ e.
          (λ f. omega (arith, length-take (text_limit d) text), λ f. absurd (ground (arith, e, f))))
        (λ e.
          (λ f. absurd (ground (arith, e, f)), λ f. clamp_num-range d (c.parse text % u32_mod) h))

  pub apply_default-FitsTable :
      (d : Desc) (s : Slot) → IsDesc d → FitsTable d (apply_default b c ds d s)
  apply_default-FitsTable d s h = set_from-FitsTable d d.default_text s h

  pub load_slot-FitsTable :
      (d : Desc) (o : Option (List ℕ)) (s : Slot)
      → IsDesc d
      → FitsTable d s
      → FitsTable d (load_slot b c ds d o s)
  load_slot-FitsTable d none s h v = v
  load_slot-FitsTable d (some text) s h v = set_from-FitsTable d text s h

  pick :
      (t : Bool) (x y : Slot)
      → (if t then text_value (if t then x else y).str else num_value (if t then x else y).num)
        ≡ (if t then text_value x.str else num_value y.num)
  pick true x y = refl
  pick false x y = refl

  value-set_from :
      (d : Desc) (text : List ℕ) (s : Slot)
      → value d (set_from b c ds d text s) ≡ (
          if is_text d
          then text_value (take (text_limit d) text)
          else num_value (number b c ds d text))
  value-set_from d text s =
      pick (is_text d) (record s { str = take (text_limit d) text })
        (record s { num = number b c ds d text })

  -- What a setting holds once it is loaded does not depend on what it held before.
  pub value-loaded :
      (d : Desc) (o : Option (List ℕ)) (s t : Slot)
      → value d (load_slot b c ds d o (apply_default b c ds d s))
        ≡ value d (load_slot b c ds d o (apply_default b c ds d t))
  value-loaded d none s t =
      value-set_from d d.default_text s ∙ sym (value-set_from d d.default_text t)
  value-loaded d (some text) s t =
      value-set_from d text (apply_default b c ds d s)
      ∙ sym (value-set_from d text (apply_default b c ds d t))

  pub loaded_clean :
      (d : Desc) (o : Option (List ℕ)) (s : Slot)
      → (load_slot b c ds d o (apply_default b c ds d s)).dirty ≡ false
  loaded_clean d none s = refl
  loaded_clean d (some text) s =
      if_elim (λ (x : Slot). x.dirty ≡ false) (is_text d) _ _ (λ e. refl) (λ e. refl)

  -- The text that is saved for a setting in its range gives it back.
  pub value-text_of :
      (d : Desc) (s t : Slot)
      → IsDecimal c
      → IsDesc d
      → FitsTable d s
      → value d (load_slot b c ds d (some (text_of b c ds d s)) t) ≡ value d s
  value-text_of d s t z h v =
      value-set_from d (text_of b c ds d s) t
      ∙ if_elim_both (λ x y. x ≡ y) (is_text d) _ _ _ _
          (λ e.
            let printed : (if is_text d then s.str else c.print s.num) ≡ s.str =
              if_then (is_text d) _ _ e in
            ap (λ m. text_value (take (text_limit d) (take (str_max - 1) m))) printed
            ∙ ap (λ m. text_value (take (text_limit d) m))
                (take-short (str_max - 1) s.str (omega (arith, v.0 e, text_limit-small d)))
            ∙ ap text_value (take-short (text_limit d) s.str (v.0 e)))
          (λ e.
            let printed : (if is_text d then s.str else c.print s.num) ≡ c.print s.num =
              if_else (is_text d) _ _ e in
            let range = v.1 e in
            let word : s.num < u32_mod = omega (arith, range, h.word) in
            let short =
              take-short (str_max - 1) (c.print s.num) (omega (arith, z.few s.num word)) in
            let parsed : c.parse (take (str_max - 1) (if is_text d then s.str else c.print s.num))
                  % u32_mod
                ≡ s.num =
              ap (λ m. c.parse (take (str_max - 1) m) % u32_mod) printed
              ∙ ap (λ m. c.parse m % u32_mod) short
              ∙ omega (arith, z.parse-print s.num word, word) in
            ap (λ m. num_value (clamp_num d m)) parsed
            ∙ ap num_value (clamp_num-id d s.num range.0 range.1))
