-- ===== src/Kernel/Store/Laws.antt =====
-- What the store relies on, and what is kept for each of its settings.
use nev_os.Base.{
  ℕ, zero, suc, ◌+◌, ◌≤◌, ◌<◌, ◌≡◌, ◌≢◌, true, false, none, some, List, [], ◌∷◌, length, get_or,
  set, All, u32_mod, arith, if◌then◌else◌,
}
use nev_os.Kernel.Store.Table.{Desc, blank, is_text, clamp_num, text_limit, str_max}
use nev_os.Kernel.Store.{ok, Backend, Decimal, Slot}

-- A number of 32 bits is printed in few characters, which give it back.
pub record IsDecimal (c : Decimal) : Type 0 where
  pub parse-print : (n : ℕ) → n < u32_mod → c.parse (c.print n) ≡ n
  pub few : (n : ℕ) → n < u32_mod → length (c.print n) < str_max

-- Opened again, it has the values that it has now.
abbrev pub Durable : {Disk : Type 0} → Backend Disk → Disk → Type 0
Durable b disk =
    ((b.start (b.close disk)).1 ≡ ok)
    × ((k : ℕ) → b.load (b.start (b.close disk)).0 k ≡ b.load disk k)

-- A text that fits on a line of a file: no terminator, line feed or carriage return.
abbrev pub IsLine : List ℕ → Type 0
IsLine text = All (λ ch. (ch ≢ 0) × (ch ≢ 10) × (ch ≢ 13)) text

-- Every value on the disk does.
abbrev pub Lines : {Disk : Type 0} → Backend Disk → Disk → Type 0
Lines b disk = (k : ℕ) (text : List ℕ) → b.load disk k ≡ some text → IsLine text

-- A value that was saved is loaded, no other key sees it, and what was flushed lasts where every value
-- is a line: src/host/nev_store_file.c of components/nev_kernel keeps `key=value` lines and reads them
-- back at the next open.
pub record IsBackend {Disk : Type 0} (b : Backend Disk) : Type 0 where
  pub load-save :
      (disk : Disk) (k : ℕ) (text : List ℕ)
      → (b.save disk k text).1 ≡ ok
      → length text < str_max
      → b.load (b.save disk k text).0 k ≡ some text
  pub load-save_other :
      (disk : Disk) (k j : ℕ) (text : List ℕ)
      → j ≢ k
      → b.load (b.save disk k text).0 j ≡ b.load disk j
  pub load-flush : (disk : Disk) (k : ℕ) → b.load (b.flush disk).0 k ≡ b.load disk k
  pub load-erase_all :
      (disk : Disk) (k : ℕ) → (b.erase_all disk).1 ≡ ok → b.load (b.erase_all disk).0 k ≡ none
  pub flushed :
      (disk : Disk) → (b.flush disk).1 ≡ ok → Lines b (b.flush disk).0 → Durable b (b.flush disk).0
  pub started : (disk : Disk) → (b.start disk).1 ≡ ok → Durable b (b.start disk).0

pub record IsDesc (d : Desc) : Type 0 where
  pub ordered : d.lo ≤ d.hi
  pub word : d.hi < u32_mod

-- A number in its range, or a text no longer than its most. The code checks no least length of a
-- text.
abbrev pub FitsTable : Desc → Slot → Type 0
FitsTable d s =
    (is_text d ≡ true → length s.str ≤ text_limit d)
    × (is_text d ≡ false → (d.lo ≤ s.num) × (s.num ≤ d.hi))

abbrev pub text_value : List ℕ → ℕ × List ℕ
text_value text = (0, text)

abbrev pub num_value : ℕ → ℕ × List ℕ
num_value n = (n, [])

-- What a setting holds.
abbrev pub value : Desc → Slot → ℕ × List ℕ
value d s = if is_text d then text_value s.str else num_value s.num

-- A predicate of every setting of the table.
abbrev pub Each : (ℕ → Desc → Slot → Type 0) → ℕ → List Desc → List Slot → Type 0
Each P i [] ss = Unit {0}
Each P i (d ∷ ds) [] = Unit {0}
Each P i (d ∷ ds) (s ∷ ss) = P i d s × Each P (i + 1) ds ss

pub Each-map :
    (P Q : ℕ → Desc → Slot → Type 0) (i : ℕ) (ds : List Desc) (ss : List Slot)
    → ((k : ℕ) (d : Desc) (s : Slot) → i ≤ k → P k d s → Q k d s)
    → Each P i ds ss
    → Each Q i ds ss
Each-map P Q i [] ss f h = tt
Each-map P Q i (d ∷ ds) [] f h = tt
Each-map P Q i (d ∷ ds) (s ∷ ss) f h =
    (f i d s (omega arith) h.0, Each-map P Q (i + 1) ds ss (λ k d s le. f k d s (omega arith)) h.1)

pub Each-set :
    (P : ℕ → Desc → Slot → Type 0) (i : ℕ) (ds : List Desc) (ss : List Slot) (key : ℕ) (v : Slot)
    → ((k : ℕ) → P k (get_or ds key blank) v)
    → Each P i ds ss
    → Each P i ds (set ss key v)
Each-set P i [] ss key v f h = tt
Each-set P i (d ∷ ds) [] key v f h = tt
Each-set P i (d ∷ ds) (s ∷ ss) zero v f h = (f i, h.1)
Each-set P i (d ∷ ds) (s ∷ ss) (suc key) v f h = (h.0, Each-set P (i + 1) ds ss key v f h.1)

pub clamp_num-range :
    (d : Desc) (v : ℕ) → IsDesc d → (d.lo ≤ clamp_num d v) × (clamp_num d v ≤ d.hi)
clamp_num-range d v h = ground (arith, h.ordered)

pub clamp_num-id : (d : Desc) (v : ℕ) → d.lo ≤ v → v ≤ d.hi → clamp_num d v ≡ v
clamp_num-id d v h k = ground arith

pub text_limit-small : (d : Desc) → text_limit d < str_max
text_limit-small d = ground arith
