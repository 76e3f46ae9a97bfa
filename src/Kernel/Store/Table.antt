-- ===== src/Kernel/Store/Table.antt =====
-- The table of components/nev_kernel/include/nev_kernel/nev_store.h, and what its ranges mean.
use nev_os.Base.{ℕ, ◌-◌, Bool, true, false, List, [], ◌∷◌, ltb, if◌then◌else◌}

pub data Kind : Type 0 where
  u8 u16 u32 boolean text : Kind

-- nev_setting_desc_t: the ASCII bytes of the default, and the range of a number or of a text's
-- length.
pub record Desc : Type 0 where
  pub default_text : List ℕ
  pub kind : Kind
  pub lo : ℕ
  pub hi : ℕ

abbrev pub blank : Desc
blank = record { default_text = []; kind = u8; lo = 0; hi = 0 }

abbrev pub desc : Kind → List ℕ → ℕ → ℕ → Desc
desc kind default_text lo hi = record { default_text = default_text; kind = kind; lo = lo; hi = hi }

abbrev pub str_max : ℕ
str_max = 72

abbrev pub settings : List Desc
settings =
    desc u8 (55 ∷ 48 ∷ []) 5 100
    ∷ desc u16 (49 ∷ 50 ∷ 48 ∷ []) 10 3600
    ∷ desc u8 (54 ∷ 48 ∷ []) 0 100
    ∷ desc boolean (49 ∷ []) 0 1
    ∷ desc u8 (55 ∷ 48 ∷ []) 0 100
    ∷ desc boolean (49 ∷ []) 0 1
    ∷ desc text (78 ∷ 69 ∷ 86 ∷ 79 ∷ 83 ∷ []) 1 24
    ∷ desc text [] 0 32
    ∷ desc text [] 0 32
    ∷ desc text [] 0 64
    ∷ desc text [] 0 64
    ∷ desc u32 (48 ∷ []) 0 999999
    ∷ desc boolean (48 ∷ []) 0 1
    ∷ desc u32 (48 ∷ []) 0 999999
    ∷ desc u32 (48 ∷ []) 0 999999
    ∷ desc u32 (48 ∷ []) 0 999999
    ∷ desc u32 (48 ∷ []) 0 999999
    ∷ desc u16 (49 ∷ 53 ∷ []) 1 120
    ∷ desc text [] 0 16
    ∷ desc u32 (48 ∷ []) 0 4000000
    ∷ []

abbrev pub is_text : Desc → Bool
is_text d = elim d.kind [ u8 ↦ false | u16 ↦ false | u32 ↦ false | boolean ↦ false | text ↦ true ]

abbrev pub clamp_num : Desc → ℕ → ℕ
clamp_num d v = if ltb v d.lo then d.lo else if ltb d.hi v then d.hi else v

-- The longest text.
abbrev pub text_limit : Desc → ℕ
text_limit d = if ltb d.hi str_max then d.hi else str_max - 1
